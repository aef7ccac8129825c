-- ===== src/Engine/Resolve/Stored.antt =====
-- Which results the resolver stores, all of them or those before the first failing one.
use ajq.Prelude.{
  ℕ, zero, suc, ◌+◌, ◌≤◌, ◌<◌, String, List, [], ◌∷◌, none, some, ◌≡◌, inl, inr, arith, length, All,
  here, there, Option-cases,
}
use ajq.Backend.{Answer}
use ajq.Cache.{DiskOps, Store, set}
use ajq.Cache.Laws.{IsCached, set-IsCached, set-IsCached_self}
use ajq.Engine.{EngineError}
use ajq.Engine.Resolve.{Pending, check_result, first_failure, store_results}
use ajq.Engine.Resolve.Covered.{Waits}
use ajq.Engine.Resolve.Gathered.{IsSorted}

pub low_frame :
    (f b : ℕ) {k : String} {ps : List Pending} → Waits k f ps → All (λ q. b ≤ q.frame) ps → b ≤ f
low_frame f b (here h) (le, rest) = omega arith
low_frame f b (there w) (le, rest) = low_frame f b w rest

module _ (disk : DiskOps) where
  pub store_results-IsCached :
      (n : ℕ) (ps : List Pending) (rs : List Answer) (s : Store disk) (k : String)
      → IsCached disk s k
      → IsCached disk (store_results disk n ps rs s) k
  unfolding store_results
  store_results-IsCached zero ps rs s k h = h
  store_results-IsCached (suc n) [] rs s k h = h
  store_results-IsCached (suc n) (p ∷ ps) [] s k h = h
  store_results-IsCached (suc n) (p ∷ ps) (r ∷ rs) s k h =
      store_results-IsCached n ps rs (set disk s p.key r) k (set-IsCached disk s p.key k r h)

  store_first :
      (n : ℕ) (p : Pending) (ps : List Pending) (r : Answer) (rs : List Answer) (s : Store disk)
      → IsCached disk (store_results disk (suc n) (p ∷ ps) (r ∷ rs) s) p.key
  unfolding store_results
  store_first n p ps r rs s =
      store_results-IsCached n ps rs (set disk s p.key r) p.key (set-IsCached_self disk s p.key r)

  -- With a result for each pending judgement, storing all leaves none waiting.
  pub store_all :
      (k : String) (f : ℕ) {ps : List Pending} (rs : List Answer) (s : Store disk)
      → Waits k f ps
      → length rs ≡ length ps
      → IsCached disk (store_results disk (length ps) ps rs s) k
  unfolding store_results
  store_all k f [] s (here h) e = absurd (omega arith)
  store_all k f [] s (there w) e = absurd (omega arith)
  store_all k f (r ∷ rs) s (here {x} {xs} h) e = rw (← h.0) (store_first (length xs) x xs r rs s)
  store_all k f (r ∷ rs) s (there {x} w) e = store_all k f rs (set disk s x.key r) w (omega arith)

  -- What was found behind the first one stands one position further.
  failure_step :
      (i : ℕ) (p : Pending) (ps : List Pending) (r : Answer) (rs : List Answer)
      → check_result i p.judgement r ≡ none
      → first_failure i (p ∷ ps) (r ∷ rs) ≡ first_failure (i + 1) ps rs
  unfolding first_failure
  failure_step i p ps r rs h = rw (h, first_failure)

  failure_here :
      (i : ℕ) (p : Pending) (ps : List Pending) (r : Answer) (rs : List Answer) (e : EngineError)
      → check_result i p.judgement r ≡ some e
      → first_failure i (p ∷ ps) (r ∷ rs) ≡ some (i, p.frame, e)
  unfolding first_failure
  failure_here i p ps r rs e h = rw (h, first_failure)

  store_prefix_cons :
      (i n : ℕ) (k : String) (f : ℕ) (p : Pending) (ps : List Pending) (r : Answer)
      (rs : List Answer) (s : Store disk)
      → Waits k f (p ∷ ps)
      → (Waits k f ps → IsCached disk (store_results disk n ps rs (set disk s p.key r)) k)
      → IsCached disk (store_results disk (suc n) (p ∷ ps) (r ∷ rs) s) k
  unfolding store_results
  store_prefix_cons i n k f p ps r rs s (here h) later = rw (← h.0) (store_first n p ps r rs s)
  store_prefix_cons i n k f p ps r rs s (there w) later = later w

  -- Of sorted pending judgements, those of frames before the failing one have been stored.
  pub store_prefix :
      (i : ℕ) (ps : List Pending) (rs : List Answer) (s : Store disk) (at fr : ℕ) (e : EngineError)
      → first_failure i ps rs ≡ some (at, fr, e)
      → IsSorted ps
      → (n : ℕ) × (at ≡ i + n)
        × ((k : String) (f : ℕ)
            → Waits k f ps
            → f < fr
            → IsCached disk (store_results disk n ps rs s) k)
  unfolding first_failure
  store_prefix i [] rs s at fr e h sorted = cc
  store_prefix i (p ∷ ps) [] s at fr e h sorted = cc
  store_prefix i (p ∷ ps) (r ∷ rs) s at fr e h (low, sorted) =
      elim (Option-cases (check_result i p.judgement r)) [
        | inl fine ↦
            let (n, step, ih) =
              store_prefix (i + 1) ps rs (set disk s p.key r) at fr e
                (rw (failure_step i p ps r rs fine) at h) sorted in
            (
              suc n,
              omega arith,
              λ k f w lt. store_prefix_cons i n k f p ps r rs s w (λ w'. ih k f w' lt),
            )
        | inr (x, bad) ↦
            let found = rw (failure_here i p ps r rs x bad) at h in
            let frame_is : p.frame ≡ fr = cc found in
            let place : i ≡ at = cc found in
            (0, omega arith, λ k f w lt. absurd (failing_first k f w (omega arith)))
      ]
    where
      failing_first : (k : String) (f : ℕ) → Waits k f (p ∷ ps) → f < p.frame → ⊥
      failing_first k f (here h) lt = omega arith
      failing_first k f (there w) lt = omega (arith, low_frame f p.frame w low)
