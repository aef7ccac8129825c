-- ===== src/Engine/Explain/Counted.antt =====
-- What an available estimate counts.
use ajq.Prelude.{
  ℕ, ◌+◌, ◌≤◌, ◌<◌, String, Bool, true, false, ◌||◌, List, [], ◌∷◌, Option, none, some, ◌≡◌, refl,
  arith, ◌==◌, if◌then◌else◌, length, ap, Bool-cases, Option-cases, ◌⊎◌, inl, inr,
}
use ajq.Result.{Result}
use ajq.Value.{Value}
use ajq.Backend.{Judgement, Answer}
use ajq.Cache.{DiskOps}
use ajq.Cache.Canonical.{Json}
use ajq.Input.Window.{Event, frame, fault}
use ajq.Engine.{Runtime, EngineError, harvest_phase}
use ajq.Engine.Callback.{
  check_invariant, either_error, harvest_append, release_collected, discard_collected_from,
}
use ajq.Engine.Resolve.{ResolveError, resolve}
use ajq.Engine.Resolve.Budget.{total_sent}
use ajq.Engine.Resolve.Sends.{resolve-Sends}
use ajq.Engine.Explain.{
  Status, available, pure_jq, no_input, invalid_input, unsupported_harvest, interleaved_fallback,
  user_stream, Estimate, Explained, estimate_of, estimated, after_resolve, after_harvest,
  estimate_frames, with_program, estimate_explain,
}

zero_or_more : (n : ℕ) → (((n == 0) ≡ true) × (n ≡ 0)) ⊎ (((n == 0) ≡ false) × (0 < n))
zero_or_more n = elim (Bool-cases (n == 0)) [
  | inl e ↦ inl (e, ground arith)
  | inr e ↦ inr (e, ground arith)
]

-- How far the events were read, of how many.
abbrev pub Reached : Status → ℕ → ℕ → Type 0
Reached available read all = (read ≡ all) × (0 < read)
Reached no_input read all = (read ≡ 0) × (all ≡ 0)
Reached invalid_input read all = read < all
Reached unsupported_harvest read all = read ≤ all
Reached pure_jq read all = read ≡ 0
Reached interleaved_fallback read all = read ≡ 0
Reached user_stream read all = read ≡ 0

pub record IsCounted (all : ℕ) (e : Estimate) : Type 0 where
  pub judgements : e.post_dedup_judgements ≤ e.harvested_judgements
  pub batches : e.mock_judge_batches ≤ e.input_frames
  pub reached : Reached e.status e.input_frames all

if-IsCounted :
    (all : ℕ) (b : Bool) {e f : Estimate}
    → IsCounted all e
    → IsCounted all f
    → IsCounted all (if b then e else f)
if-IsCounted all true h k = h
if-IsCounted all false h k = k

unread-IsCounted : (all n : ℕ) (s : Status) → Reached s 0 all → IsCounted all (estimate_of n s)
unread-IsCounted all n s h = record { judgements = omega arith; batches = omega arith; reached = h }

module _ (disk : DiskOps) where
  -- Nothing was sent before.
  abbrev pub IsFresh : Option (Runtime disk) → Type 0
  IsFresh none = Unit {0}
  IsFresh (some rt) = rt.sent ≡ []

  record Tally (all left : ℕ) (rt : Runtime disk) (e : Estimate) : Type 0 where
    total : e.input_frames + left ≡ all
    sent_within : total_sent rt.sent ≤ e.harvested_judgements
    calls_within : length rt.sent ≤ e.input_frames
    no_judgements : e.post_dedup_judgements ≡ 0
    no_batches : e.mock_judge_batches ≡ 0

  module _ (harvest : Value → Runtime disk → Option EngineError × Runtime disk) (json : Json)
      (judge : List (List Judgement) → List Judgement → Result String (List Answer))
      (quiet : (v : Value) (rt : Runtime disk) → (harvest v rt).1.sent ≡ rt.sent) where
    harvest_append_sent :
        (rt : Runtime disk) (v : Value)
        → (harvest_append disk harvest (release_collected disk rt) v 0).1.sent ≡ rt.sent
    unfolding harvest_append release_collected discard_collected_from
    harvest_append_sent rt v =
        elim (Option-cases
          (either_error disk (check_invariant disk harvest_phase after.1) after.0)) [
            | inl e ↦ rw (e, harvest_append) (quiet v begun)
            | inr (x, e) ↦ rw (e, harvest_append) (quiet v begun)
          ]
      where
        begun : Runtime disk
        begun = record rt { collected = []; collected_frames = []; current_frame = 0; fired = [] }

        after : Option EngineError × Runtime disk
        after = harvest v begun

    estimated-IsCounted :
        (all : ℕ) (rt : Runtime disk) (e : Estimate)
        → Tally all 0 rt e
        → IsCounted all (estimated disk harvest json judge rt e)
    estimated-IsCounted all rt e t = elim (zero_or_more e.input_frames) [
      | inl (h, z) ↦ rw h (record {
        judgements = omega (arith, t.no_judgements);
        batches = omega (arith, t.no_batches);
        reached = (z, omega (arith, t.total, z));
      })
      | inr (h, z) ↦ rw h (record {
        judgements = t.sent_within;
        batches = t.calls_within;
        reached = (omega (arith, t.total), z);
      })
    ]

    after_resolve-IsCounted :
        (all left : ℕ) (rest : Runtime disk → Estimate → Estimate)
        → ((rt : Runtime disk) (e : Estimate) → Tally all left rt e → IsCounted all (rest rt e))
        → (e : Estimate) (r : Runtime disk × Option ResolveError) → Tally all left r.0 e
        → IsCounted all (after_resolve disk harvest json judge rest e r)
    unfolding after_resolve
    after_resolve-IsCounted all left rest h e (rt, none) t = h rt e t
    after_resolve-IsCounted all left rest h e (rt, some x) t = record {
      judgements = omega (arith, t.no_judgements);
      batches = omega (arith, t.no_batches);
      reached = omega (arith, t.total);
    }

    after_harvest-IsCounted :
        (all left : ℕ) (rest : Runtime disk → Estimate → Estimate)
        → ((rt : Runtime disk) (e : Estimate) → Tally all left rt e → IsCounted all (rest rt e))
        → (e : Estimate) (r : Option EngineError × Runtime disk) → Tally all left r.1 e
        → length r.1.sent < e.input_frames
        → IsCounted all (after_harvest disk harvest json judge rest e r)
    unfolding after_harvest
    after_harvest-IsCounted all left rest h e (none, rt) t lt =
        after_resolve-IsCounted all left rest h
          (record e { harvested_judgements = e.harvested_judgements + length rt.collected })
          (resolve disk json judge rt)
          (record {
            total = t.total;
            sent_within = omega (arith, (resolve-Sends disk json judge rt).0, t.sent_within);
            calls_within = omega (arith, (resolve-Sends disk json judge rt).1, lt);
            no_judgements = t.no_judgements;
            no_batches = t.no_batches;
          })
    after_harvest-IsCounted all left rest h e (some x, rt) t lt = record {
      judgements = omega (arith, t.no_judgements);
      batches = omega (arith, t.no_batches);
      reached = omega (arith, t.total);
    }

    estimate_frames-IsCounted :
        (all : ℕ) (es : List Event) (rt : Runtime disk) (e : Estimate)
        → Tally all (length es) rt e
        → IsCounted all (estimate_frames disk harvest json judge es rt e)
    unfolding estimate_frames
    estimate_frames-IsCounted all [] rt e t = estimated-IsCounted all rt e t
    estimate_frames-IsCounted all (fault x ∷ es) rt e t = record {
      judgements = omega (arith, t.no_judgements);
      batches = omega (arith, t.no_batches);
      reached = omega (arith, t.total);
    }
    estimate_frames-IsCounted all (frame f ∷ es) rt e t =
        after_harvest-IsCounted all (length es) (estimate_frames disk harvest json judge es)
          (estimate_frames-IsCounted all es) (record e { input_frames = e.input_frames + 1 })
          (harvest_append disk harvest (release_collected disk rt) f.value 0)
          (record {
            total = omega (arith, t.total);
            sent_within =
                omega (arith, ap total_sent (harvest_append_sent rt f.value), t.sent_within);
            calls_within =
                omega (arith, ap length (harvest_append_sent rt f.value), t.calls_within);
            no_judgements = t.no_judgements;
            no_batches = t.no_batches;
          })
          (omega (arith, ap length (harvest_append_sent rt f.value), t.calls_within))

    with_program-IsCounted :
        (es : List Event) (n : ℕ) (c : Option (Runtime disk))
        → IsFresh c
        → IsCounted (length es) (with_program disk harvest json judge es (estimate_of n pure_jq) c)
    unfolding with_program
    with_program-IsCounted es n none h = record {
      judgements = omega arith;
      batches = omega arith;
      reached = omega arith;
    }
    with_program-IsCounted es n (some rt) h =
        estimate_frames-IsCounted (length es) es rt (estimate_of n pure_jq) (record {
          total = omega arith;
          sent_within = omega (arith, ap total_sent h);
          calls_within = omega (arith, ap length h);
          no_judgements = refl;
          no_batches = refl;
        })

    -- Of a program that sends nothing while it harvests and has sent nothing before: no more
    -- judgements are counted as sent than were harvested, and no more batches than frames were
    -- read. If the estimate is available, then there was an event and every one was read; if there
    -- is no input, then there was no event; after an invalid input, the reading stopped before the
    -- end; and for the other statuses but an unsupported harvest nothing was read.
    pub estimate_explain-IsCounted :
        (x : Explained disk) (es : List Event)
        → IsFresh x.compiled
        → IsCounted (length es) (estimate_explain disk harvest json judge x es)
    unfolding estimate_explain
    estimate_explain-IsCounted x es h =
        if-IsCounted (length es) x.rewritten
          (if-IsCounted (length es) x.blocked
            (unread-IsCounted (length es) x.call_sites unsupported_harvest (omega arith))
            (if-IsCounted (length es) (x.deterministic || x.call_sites == 0)
              (unread-IsCounted (length es) x.call_sites pure_jq refl)
              (if-IsCounted (length es) x.requires_interleaved
                (unread-IsCounted (length es) x.call_sites interleaved_fallback refl)
                (if-IsCounted (length es) x.stream
                  (unread-IsCounted (length es) x.call_sites user_stream refl)
                  (with_program-IsCounted es x.call_sites x.compiled h)))))
          (unread-IsCounted (length es) 0 unsupported_harvest (omega arith))
