-- ===== src/Engine/Resolve/Succeeds.antt =====
-- When the resolver succeeds.
use ajq.Prelude.{
  ℕ, zero, suc, ◌+◌, ◌≤◌, String, Bool, true, List, [], ◌∷◌, Option, none, some, ◌≡◌, refl, ap, ◌∙◌,
  inl, inr, arith, str_eq_iff, length, length-append, All, All-append, Bool-cases, Option-cases,
  ◌==◌,
}
use ajq.Result.{Result, ok}
use ajq.Value.{ℤ, pos, negsuc}
use ajq.Backend.{Judgement, Answer}
use ajq.Cache.{DiskOps, get}
use ajq.Cache.Canonical.{Json}
use ajq.Cache.Key.{key_for_judgement}
use ajq.Engine.{Runtime, check_max_calls}
use ajq.Engine.Resolve.{
  Pending, Gather, ResolveError, note, note_miss, is_pending, gather, dispatch, receive, commit,
  after_gather, resolve, sending, batch, spent, count_hit, validate_result, check_result,
  first_failure, frame_for_collected,
}
use ajq.Engine.Resolve.Budget.{length-batch}

-- Every judgement of the batch has a valid answer in its place.
abbrev pub AreValid : List Judgement → List Answer → Type 0
AreValid [] [] = Unit
AreValid (j ∷ js) (r ∷ rs) = (r.error ≡ "") × (validate_result j r ≡ none) × AreValid js rs
AreValid _ _ = ⊥

-- There is no cap, or this many calls are within it.
abbrev pub HasRoom : ℤ → ℕ → Type 0
HasRoom (negsuc c) n = Unit
HasRoom (pos zero) n = Unit
HasRoom (pos (suc c)) n = n ≤ suc c

check_max_calls_room :
    (c : ℤ) (n k most : ℕ) (paid : Bool)
    → HasRoom c (n + most)
    → k ≤ most
    → check_max_calls c n k paid ≡ none
unfolding check_max_calls
check_max_calls_room (negsuc c) n k most paid h le = refl
check_max_calls_room (pos zero) n k most paid h le = ground arith
check_max_calls_room (pos (suc c)) n k most paid h le = ground arith

check_result_valid :
    (i : ℕ) (j : Judgement) (r : Answer)
    → r.error ≡ ""
    → validate_result j r ≡ none
    → check_result i j r ≡ none
unfolding check_result
check_result_valid i j r blank valid = rw ((str_eq_iff r.error "").1 blank, valid)

AreValid-length : (js : List Judgement) (rs : List Answer) → AreValid js rs → length rs ≡ length js
AreValid-length [] [] h = refl
AreValid-length (j ∷ js) (r ∷ rs) h = ap suc (AreValid-length js rs h.2)
AreValid-length [] (r ∷ rs) h = absurd h
AreValid-length (j ∷ js) [] h = absurd h

first_failure_valid :
    (i : ℕ) (ps : List Pending) (rs : List Answer)
    → AreValid (batch ps) rs
    → first_failure i ps rs ≡ none
unfolding first_failure batch
first_failure_valid i [] rs h = refl
first_failure_valid i (p ∷ ps) [] h = refl
first_failure_valid i (p ∷ ps) (r ∷ rs) (blank, valid, h) =
    rw (check_result_valid i p.judgement r blank valid, first_failure)
      (first_failure_valid (i + 1) ps rs h)

module _ (disk : DiskOps) where
  length-note :
      (p : Pending) (g : Gather disk)
      → (length (note disk p g).pending ≤ length g.pending + 1)
        × (spent (note disk p g).stats ≡ spent g.stats)
  unfolding note note_miss
  length-note p g = elim (Option-cases (get disk g.cache p.key).0) [
    | inl miss ↦
        rw (miss, note)
          (elim (Bool-cases (is_pending p.key g.pending)) [
            | inl e ↦ rw e (omega arith, refl)
            | inr e ↦ rw e (omega (arith, length-append g.pending (p ∷ [])), refl)
          ])
    | inr (r, hit) ↦ rw (hit, note) (omega arith, spent-count_hit g.stats)
  ]
    where
      spent-count_hit : (o : _) → spent (count_hit o) ≡ spent o
      spent-count_hit none = refl
      spent-count_hit (some st) = refl

  note-All :
      (P : Judgement → Type 0) (p : Pending) (g : Gather disk)
      → P p.judgement
      → All (λ q. P q.judgement) g.pending
      → All (λ q. P q.judgement) (note disk p g).pending
  unfolding note note_miss
  note-All P p g one all = elim (Option-cases (get disk g.cache p.key).0) [
    | inr (r, hit) ↦ rw (hit, note) all
    | inl miss ↦
        rw (miss, note)
          (elim (Bool-cases (is_pending p.key g.pending)) [
            | inl e ↦ rw e all
            | inr e ↦ rw e (All-append (λ q. P q.judgement) g.pending (p ∷ []) all (one, tt))
          ])
  ]

  receive_valid :
      (rt : Runtime disk) (fr : ℕ) (ps : List Pending) (r : Result String (List Answer))
      (rs : List Answer)
      → r ≡ ok rs
      → AreValid (batch ps) rs
      → (receive disk rt fr ps r).1 ≡ none
  unfolding receive commit
  receive_valid rt fr ps r rs e h = rw e (rw (same, first_failure_valid 0 ps rs h, commit))
    where
      lengths : length rs ≡ length ps
      lengths = AreValid-length (batch ps) rs h ∙ length-batch ps

      same : (length rs == length ps) ≡ true
      same = ground (arith, lengths)

All-batch :
    (P : Judgement → Type 0) (ps : List Pending) → All (λ q. P q.judgement) ps → All P (batch ps)
unfolding batch
All-batch P [] h = tt
All-batch P (p ∷ ps) (one, h) = (one, All-batch P ps h)

module _ (disk : DiskOps) (json : Json)
    (judge : List (List Judgement) → List Judgement → Result String (List Answer))
    (IsFamiliar : Judgement → Type 0) where
  -- The backend knows what to answer, and there is a key.
  abbrev pub IsReady : Judgement → Type 0
  IsReady j = IsFamiliar j × ((k : String) × (key_for_judgement json j ≡ ok k))

  -- How the loop ends: with no error, with no call made, and with at most one pending judgement a
  -- round.
  record GoesWell (ps : List Pending) (n : ℕ) (calls : ℕ) (r : Gather disk × Option ResolveError)
      : Type 0 where
    fine : r.1 ≡ none
    few : length r.0.pending ≤ length ps + n
    same_calls : spent r.0.stats ≡ calls
    familiar : All (λ q. IsFamiliar q.judgement) r.0.pending

  gather_succeeds :
      (frames : List ℕ) (i : ℕ) (js : List Judgement) (g : Gather disk)
      → All IsReady js
      → All (λ q. IsFamiliar q.judgement) g.pending
      → GoesWell g.pending (length js) (spent g.stats) (gather disk json judge frames i js g)
  unfolding gather
  gather_succeeds frames i [] g h all = record {
    fine = refl;
    few = omega arith;
    same_calls = refl;
    familiar = all;
  }
  gather_succeeds frames i (j ∷ js) g ((known, (k, q)), h) all =
      let p : Pending = record { judgement = j; key = k; frame = frame_for_collected frames i } in
      let rest =
        gather_succeeds frames (i + 1) js (note disk p g) h
          (note-All disk IsFamiliar p g known all) in
      let step = length-note disk p g in
      rw (q, gather)
        (record {
          fine = rest.fine;
          few = omega (arith, rest.few, step.0);
          same_calls = rest.same_calls ∙ step.1;
          familiar = rest.familiar;
        })

  module _
      (answers : (bs : List (List Judgement)) (b : List Judgement)
        → All IsFamiliar b
        → (rs : List Answer) × (judge bs b ≡ ok rs) × AreValid b rs) where
    dispatch_succeeds :
        (rt : Runtime disk) (ps : List Pending) (most : ℕ)
        → All (λ q. IsFamiliar q.judgement) ps
        → length ps ≤ most
        → HasRoom rt.max_calls (spent rt.stats + most)
        → (dispatch disk json judge rt ps).1 ≡ none
    unfolding dispatch
    dispatch_succeeds rt [] most known le room = refl
    dispatch_succeeds rt (p ∷ ps) most known le room =
        let (rs, answered, valid) =
          answers rt.sent (batch (p ∷ ps)) (All-batch IsFamiliar (p ∷ ps) known) in
        rw
          (
            check_max_calls_room rt.max_calls (spent rt.stats) (length (p ∷ ps)) most
                rt.max_calls_default_paid room le,
            dispatch,
          )
          (receive_valid disk (sending disk rt (p ∷ ps)) p.frame (p ∷ ps) _ rs answered valid)

    after_gather_succeeds :
        (rt : Runtime disk) (r : Gather disk × Option ResolveError) (most calls : ℕ)
        → GoesWell [] most calls r
        → HasRoom rt.max_calls (calls + most)
        → (after_gather disk json judge rt r).1 ≡ none
    unfolding after_gather
    after_gather_succeeds rt (g, none) most calls h room =
        dispatch_succeeds _ g.pending most h.familiar (omega (arith, h.few)) (rw h.same_calls room)
    after_gather_succeeds rt (g, some e) most calls h room = h.fine

    -- `resolve` reports no error if each collected judgement has a key, the calls made so far and
    -- one more for each collected judgement are within the cap or there is no cap, and the collected
    -- judgements are among some familiar ones: to any batch of those, the backend gives a valid
    -- answer for each judgement, in order.
    pub resolve_succeeds :
        (rt : Runtime disk)
        → All IsReady rt.collected
        → HasRoom rt.max_calls (spent rt.stats + length rt.collected)
        → (resolve disk json judge rt).1 ≡ none
    unfolding resolve
    resolve_succeeds rt ready room =
        after_gather_succeeds rt _ (length rt.collected) (spent rt.stats)
          (gather_succeeds rt.collected_frames 0 rt.collected
            (record { cache = rt.cache; stats = rt.stats; pending = [] }) ready tt)
          room
