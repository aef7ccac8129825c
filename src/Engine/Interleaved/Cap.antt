-- ===== src/Engine/Interleaved/Cap.antt =====
-- The cap over a whole interleaved run.
use native.Mathlib.Nat.{add-zero}
use ajq.Prelude.{
  ℕ, ◌+◌, ◌≤◌, ◌<◌, String, List, [], ◌∷◌, Option, none, some, ◌≡◌, refl, sym, ◌∙◌, inl, inr, arith,
  Option-cases,
}
use ajq.Result.{Result, ok, err, Result-cases}
use ajq.Value.{ℤ, pos}
use ajq.Backend.{Judgement, Answer}
use ajq.Cache.{DiskOps, Store, get}
use ajq.Cache.Canonical.{Json}
use ajq.Cache.Key.{key_for_judgement}
use ajq.Engine.{EngineError, CallError, check_max_calls}
use ajq.Engine.Call.{model_judgement, judgement_from_planned_call}
use ajq.Engine.Resolve.{check_result, spent, count_hit}
use ajq.Engine.Resolve.Budget.{
  Accounts, Counts, Counts-spent, Counts-count_hit, Counts-count_calls, check_max_calls_fits,
  total_sent, total_sent-append,
}
use ajq.Engine.Interleaved.{
  Interleaved, keep, receive_one, sending_one, ask, looked_up, keyed_one, resolve_one, called,
  call_function, call_planned_function, Call, named, planned, after_call, after_calls,
}

-- One run leaves the cap alone and accounts for its calls.
abbrev IsCharged : (disk : DiskOps) → ℕ → ℕ → ℕ → ℤ → Interleaved disk → Type 0
IsCharged disk cap n t c rt' = (rt'.max_calls ≡ c) × Accounts cap n t rt'.stats rt'.sent

module _ (disk : DiskOps) where
  -- What comes after the backend's answer changes no count.
  receive_one-counts :
      (rt : Interleaved disk) (j : Judgement) (k : String) (answer : Result String (List Answer))
      → ((receive_one disk rt j k answer).1.stats ≡ rt.stats)
        × ((receive_one disk rt j k answer).1.sent ≡ rt.sent)
        × ((receive_one disk rt j k answer).1.max_calls ≡ rt.max_calls)
  unfolding receive_one keep
  receive_one-counts rt j k (err e) = (refl, refl, refl)
  receive_one-counts rt j k (ok []) = (refl, refl, refl)
  receive_one-counts rt j k (ok (r ∷ [])) = elim (Option-cases (check_result 0 j r)) [
    | inl fine ↦ rw (fine, keep) (refl, refl, refl)
    | inr (e, bad) ↦ rw (bad, keep) (refl, refl, refl)
  ]
  receive_one-counts rt j k (ok (r ∷ s ∷ rs)) = (refl, refl, refl)

  module _ (json : Json)
      (judge : List (List Judgement) → List Judgement → Result String (List Answer)) (cap : ℕ)
      (positive : 0 < cap) where
    idle-IsCharged :
        (rt : Interleaved disk) (n : ℕ)
        → Counts rt.stats n
        → n ≤ cap
        → IsCharged disk cap n (total_sent rt.sent) rt.max_calls rt
    idle-IsCharged rt n h le = (
      refl,
      record { calls = 0; counted = rw add-zero h; sent_calls = omega arith; capped = omega arith },
    )

    ask-IsCharged :
        (rt : Interleaved disk) (j : Judgement) (k : String) (n : ℕ) (e : Option EngineError)
        → e ≡ check_max_calls rt.max_calls (spent rt.stats) 1 rt.max_calls_default_paid
        → rt.max_calls ≡ pos cap
        → Counts rt.stats n
        → n ≤ cap
        → IsCharged disk cap n (total_sent rt.sent) rt.max_calls (ask disk json judge rt j k e).1
    unfolding ask
    ask-IsCharged rt j k n (some x) same capped h le = idle-IsCharged rt n h le
    ask-IsCharged rt j k n none same capped h le =
        let (stats, sent, cap_kept) = receive_one-counts (sending_one disk rt j) j k _ in
        (
          cap_kept,
          record {
            calls = 1;
            counted = rw stats (Counts-count_calls 1 rt.stats n h);
            sent_calls = rw sent (omega (arith, total_sent-append rt.sent ((j ∷ []) ∷ [])));
            capped =
                check_max_calls_fits rt.max_calls n 1 rt.max_calls_default_paid cap
                  (rw (Counts-spent rt.stats h) at (sym same)) capped positive le;
          },
        )

    looked_up-IsCharged :
        (rt : Interleaved disk) (j : Judgement) (k : String) (n : ℕ)
        (x : Option Answer × Store disk)
        → rt.max_calls ≡ pos cap
        → Counts rt.stats n
        → n ≤ cap
        → IsCharged disk cap n
            (total_sent rt.sent)
            rt.max_calls
            (looked_up disk json judge rt j k x).1
    unfolding looked_up
    looked_up-IsCharged rt j k n (some r, cache') capped h le =
        idle-IsCharged (record rt { cache = cache'; stats = count_hit rt.stats }) n
          (Counts-count_hit rt.stats n h) le
    looked_up-IsCharged rt j k n (none, cache') capped h le =
        ask-IsCharged (record rt { cache = cache' }) j k n _ refl capped h le

    called-IsCharged :
        (rt : Interleaved disk) (c : Result CallError Judgement) (n : ℕ)
        → rt.max_calls ≡ pos cap
        → Counts rt.stats n
        → n ≤ cap
        → IsCharged disk cap n (total_sent rt.sent) rt.max_calls (called disk json judge rt c).1
    unfolding called resolve_one keyed_one
    called-IsCharged rt (err e) n capped h le = idle-IsCharged rt n h le
    called-IsCharged rt (ok j) n capped h le = elim (Result-cases (key_for_judgement json j)) [
      | inl (e, key) ↦ rw key (idle-IsCharged rt n h le)
      | inr (k, key) ↦ rw key (looked_up-IsCharged rt j k n (get disk rt.cache k) capped h le)
    ]

    after_call-IsCharged :
        (rt : Interleaved disk) (c : Call) (n : ℕ)
        → rt.max_calls ≡ pos cap
        → Counts rt.stats n
        → n ≤ cap
        → IsCharged disk cap n (total_sent rt.sent) rt.max_calls (after_call disk json judge rt c)
    unfolding after_call call_function call_planned_function
    after_call-IsCharged rt (named op input args) n capped h le =
        called-IsCharged rt (model_judgement rt.model_id op input args) n capped h le
    after_call-IsCharged rt (planned id op input args) n capped h le =
        called-IsCharged rt (judgement_from_planned_call rt.model_id rt.planned id op input args) n
          capped h le

    -- Under a positive cap, with no more calls counted so far than the cap, any sequence of semantic
    -- calls adds to the counted calls exactly the number of judgements that it sends to the backend,
    -- and the count stays within the cap.
    pub after_calls-Accounts :
        (cs : List Call) (rt : Interleaved disk) (n : ℕ)
        → rt.max_calls ≡ pos cap
        → Counts rt.stats n
        → n ≤ cap
        → Accounts cap n
            (total_sent rt.sent)
            (after_calls disk json judge rt cs).stats
            (after_calls disk json judge rt cs).sent
    unfolding after_calls
    after_calls-Accounts [] rt n capped h le = (idle-IsCharged rt n h le).1
    after_calls-Accounts (c ∷ cs) rt n capped h le =
        let (kept, first) = after_call-IsCharged rt c n capped h le in
        let rest =
          after_calls-Accounts cs (after_call disk json judge rt c) (n + first.calls)
            (kept ∙ capped) first.counted first.capped in
        let sum : n + first.calls + rest.calls ≡ n + (first.calls + rest.calls) = omega arith in
        record {
          calls = first.calls + rest.calls;
          counted = rw (← sum) rest.counted;
          sent_calls = omega (arith, first.sent_calls, rest.sent_calls);
          capped = omega (arith, rest.capped);
        }
