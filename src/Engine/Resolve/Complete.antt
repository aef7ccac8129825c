-- ===== src/Engine/Resolve/Complete.antt =====
-- What the caller of `resolve` may execute is in the cache.
use ajq.Prelude.{
  ℕ, zero, suc, ◌+◌, ◌<◌, String, List, [], ◌∷◌, Option, none, some, ◌≡◌, ◌⊎◌, inl, inr, arith,
  length, get_elem?, here, there, Bool-cases, Option-cases, ◌==◌,
}
use native.Mathlib.Decide.{dec_lt}
use native.Mathlib.Nat.{zero-add}
use ajq.Result.{Result, ok, err}
use ajq.Value.{ℤ, pos, negsuc}
use ajq.Backend.{Judgement, Answer}
use ajq.Cache.{DiskOps, Store}
use ajq.Cache.Laws.{IsCached}
use ajq.Cache.Canonical.{Json}
use ajq.Cache.Key.{key_for_judgement}
use ajq.Engine.{Runtime, check_max_calls}
use ajq.Engine.Resolve.{
  Pending, Gather, ResolveError, dispatch, receive, commit, first_failure, after_gather, resolve,
  frame_for_collected, executable_prefix, sending, spent,
}
use ajq.Engine.Resolve.Covered.{Waits, IsCovered}
use ajq.Engine.Resolve.Gathered.{IsSorted, IsOrdered, Gathered, IsKeyed, gather-Gathered}
use ajq.Engine.Resolve.Stored.{store_results-IsCached, store_all, store_prefix, low_frame}

-- The caller executes a frame: every one if there is no error, else those before the bound.
abbrev pub IsBelow : ℕ → ℤ → Type 0
IsBelow f (pos b) = f < b
IsBelow f (negsuc b) = ⊥

abbrev pub MayRun : Option ResolveError → ℕ → Type 0
MayRun none f = Unit
MayRun (some e) f = IsBelow f e.execute_before

-- A cover that lies in the cache once the resolver is done.
abbrev Lands :
    (disk : DiskOps) → Store disk → List Pending → Runtime disk × Option ResolveError → Type 0
Lands disk s ps r =
    (k : String) (f : ℕ)
    → IsCached disk s k ⊎ Waits k f ps
    → MayRun r.1 f
    → IsCached disk r.0.cache k

module _ (disk : DiskOps) where
  commit-Lands :
      (rt : Runtime disk) (ps : List Pending) (rs : List Answer)
      → length rs ≡ length ps
      → IsSorted ps
      → Lands disk rt.cache ps (commit disk rt ps rs)
  unfolding commit
  commit-Lands rt ps rs e sorted = elim (Option-cases (first_failure 0 ps rs)) [
    | inl fine ↦
        rw (fine, commit)
          (λ k f cover run. elim cover [
            | inl c ↦ store_results-IsCached disk (length ps) ps rs rt.cache k c
            | inr w ↦ store_all disk k f rs rt.cache w e
          ])
    | inr ((at, fr, x), bad) ↦
        let (n, place, stored) = store_prefix disk 0 ps rs rt.cache at fr x bad sorted in
        let place' : at ≡ n = omega arith in
        rw (bad, commit)
          (λ k f cover run. elim cover [
            | inl c ↦ store_results-IsCached disk at ps rs rt.cache k c
            | inr w ↦ rw place' (stored k f w run)
          ])
  ]

  receive-Lands :
      (rt : Runtime disk) (fr : ℕ) (ps : List Pending) (r : Result String (List Answer))
      → IsSorted ps
      → Lands disk rt.cache ps (receive disk rt fr ps r)
  unfolding receive
  receive-Lands rt fr ps (err e) sorted = λ k f cover run. absurd run
  receive-Lands rt fr ps (ok rs) sorted = elim (Bool-cases (length rs == length ps)) [
    | inl same ↦ rw same (commit-Lands rt ps rs (ground arith) sorted)
    | inr differ ↦ rw differ (λ k f cover run. absurd run)
  ]

module _ (disk : DiskOps) (json : Json)
    (judge : List (List Judgement) → List Judgement → Result String (List Answer)) where
  dispatch-Lands :
      (rt : Runtime disk) (ps : List Pending)
      → IsSorted ps
      → Lands disk rt.cache ps (dispatch disk json judge rt ps)
  unfolding dispatch
  dispatch-Lands rt [] sorted = λ k f cover run. elim cover [ inl c ↦ c | inr w ↦ elim w [ ] ]
  dispatch-Lands rt (p ∷ ps) sorted =
      elim (Option-cases (
        check_max_calls rt.max_calls (spent rt.stats) (length (p ∷ ps))
          rt.max_calls_default_paid)) [
            | inl fine ↦
                rw (fine, dispatch)
                  (receive-Lands disk (sending disk rt (p ∷ ps)) p.frame (p ∷ ps) _ sorted)
            | inr (e, over) ↦ rw (over, dispatch) (λ k f cover run. absurd run)
          ]

below_prefix :
    (f fr : ℕ) (k : String) (ps : List Pending)
    → f < executable_prefix fr ps
    → IsSorted ps
    → (f < fr) × ¬ Waits k f ps
unfolding executable_prefix
below_prefix f fr k [] lt sorted = (lt, λ w. elim w [ ])
below_prefix f fr k (p ∷ ps) lt sorted = (ground arith, waits_late)
  where
    early : f < p.frame
    early = ground arith

    waits_late : ¬ Waits k f (p ∷ ps)
    waits_late (here h) = omega (arith, early)
    waits_late (there w) = omega (arith, early, low_frame f p.frame w sorted.0)

from_start : (frame : ℕ → ℕ) {a q : ℕ} → a < frame (0 + q) → a < frame q
from_start frame h = rw zero-add at h

get_elem?-lt {ℓ} :
    {A : Type ℓ} (xs : List A) (m : ℕ) {a : A} → get_elem? xs m ≡ some a → m < length xs
get_elem?-lt [] m h = cc
get_elem?-lt (x ∷ xs) zero h = omega arith
get_elem?-lt (x ∷ xs) (suc m) h = omega (arith, get_elem?-lt xs m h)

module _ (disk : DiskOps) (json : Json)
    (judge : List (List Judgement) → List Judgement → Result String (List Answer))
    (rt : Runtime disk) where
  abbrev f : ℕ → ℕ
  f = frame_for_collected rt.collected_frames

  -- The judgement's key has a result in the cache.
  abbrev pub IsAnswered : Store disk → Judgement → Type 0
  IsAnswered s j = (k : String) × (key_for_judgement json j ≡ ok k) × IsCached disk s k

  IsKeyed-from_start :
      (g : Gather disk) (j : Judgement) (frame : ℕ → ℕ) (m : ℕ)
      → IsKeyed disk json rt.collected_frames g j (frame (0 + m))
      → IsKeyed disk json rt.collected_frames g j (frame m)
  IsKeyed-from_start g j frame m h = rw zero-add at h

  module _ (ordered : IsOrdered f (length rt.collected)) where
    before_reached :
        (m q : ℕ) → m < length rt.collected → f m < f q → q < length rt.collected → m < q
    before_reached m q lt less inside = elim (dec_lt m q) [
      | yes h ↦ h
      | no h ↦ absurd (omega (arith, ordered q m (omega arith) lt))
    ]

    after_gather_answers :
        (r : Gather disk × Option ResolveError)
        → Gathered disk json rt.collected_frames 0 rt.collected r
        → (m : ℕ) (j : Judgement) → get_elem? rt.collected m ≡ some j
        → MayRun (after_gather disk json judge rt r).1 (f m)
        → IsAnswered (after_gather disk json judge rt r).0.cache j
    unfolding after_gather
    after_gather_answers (g, none) r m j at run =
        let inside = get_elem?-lt rt.collected m at in
        let (k, key, cover) =
          IsKeyed-from_start g j f m (r.covered m j (omega (arith, r.ends)) at) in
        (k, key, dispatch-Lands disk json judge _ g.pending r.sorted k (f m) cover run)
    after_gather_answers (g, some e) r m j at run =
        let inside = get_elem?-lt rt.collected m at in
        let bound : IsBelow (f m) (pos (executable_prefix (f (0 + r.reached)) g.pending)) =
          rw r.ends.1 at run in
        let early : f m < f (0 + r.reached) =
          (below_prefix (f m) (f (0 + r.reached)) "" g.pending bound r.sorted).0 in
        let before = before_reached m r.reached inside (from_start f early) r.ends.0 in
        let (k, key, cover) = IsKeyed-from_start g j f m (r.covered m j before at) in
        let free = (below_prefix (f m) (f (0 + r.reached)) k g.pending bound r.sorted).1 in
        (k, key, landed k cover free)
      where
        landed :
            (k : String)
            → IsCovered disk g k (f m)
            → ¬ Waits k (f m) g.pending
            → IsCached disk g.cache k
        landed k (inl c) free = c
        landed k (inr w) free = absurd (free w)

    -- After `resolve`, with or without an error, every collected judgement of a frame that the caller
    -- may execute has a key whose result is in memory. Without an error these are all frames, else
    -- those before the error's bound. This holds for any backend and disk store, if the frames of
    -- the collected judgements do not fall.
    pub resolve_answers :
        (m : ℕ) (j : Judgement)
        → get_elem? rt.collected m ≡ some j
        → MayRun (resolve disk json judge rt).1 (f m)
        → IsAnswered (resolve disk json judge rt).0.cache j
    unfolding resolve
    resolve_answers m j at run =
        after_gather_answers _
          (gather-Gathered disk json judge rt.collected_frames (length rt.collected) ordered 0
            rt.collected _ (omega arith) tt (λ lt. tt))
          m j at run
