-- ===== src/Engine/Resolve/SameRun.antt =====
-- What the resolver leaves alone.
use ajq.Prelude.{
  ℕ, String, List, [], ◌∷◌, Option, none, some, ◌≡◌, refl, inl, inr, length, Bool-cases,
  Option-cases, ◌==◌,
}
use ajq.Result.{Result, ok, err}
use ajq.Backend.{Judgement, Answer}
use ajq.Cache.{DiskOps}
use ajq.Cache.Canonical.{Json}
use ajq.Engine.{Runtime, check_max_calls}
use ajq.Engine.Resolve.{
  Pending, Gather, ResolveError, gather, dispatch, receive, commit, after_gather, resolve, sending,
  first_failure, spent,
}

module _ (disk : DiskOps) where
  -- The resolver changes neither the model nor the plan.
  abbrev pub IsSameRun : Runtime disk → Runtime disk → Type 0
  IsSameRun rt rt' = (rt'.model_id ≡ rt.model_id) × (rt'.planned ≡ rt.planned)

  receive-IsSameRun :
      (rt : Runtime disk) (fr : ℕ) (ps : List Pending) (r : Result String (List Answer))
      → IsSameRun rt (receive disk rt fr ps r).0
  unfolding receive commit
  receive-IsSameRun rt fr ps (err e) = (refl, refl)
  receive-IsSameRun rt fr ps (ok rs) = elim (Bool-cases (length rs == length ps)) [
    | inr differ ↦ rw differ (refl, refl)
    | inl same ↦ rw same (elim (Option-cases (first_failure 0 ps rs)) [
      | inl fine ↦ rw (fine, commit) (refl, refl)
      | inr (x, bad) ↦ rw (bad, commit) (refl, refl)
    ])
  ]

  module _ (json : Json)
      (judge : List (List Judgement) → List Judgement → Result String (List Answer)) where
    dispatch-IsSameRun :
        (rt : Runtime disk) (ps : List Pending) → IsSameRun rt (dispatch disk json judge rt ps).0
    unfolding dispatch
    dispatch-IsSameRun rt [] = (refl, refl)
    dispatch-IsSameRun rt (p ∷ ps) =
        elim (Option-cases (
          check_max_calls rt.max_calls (spent rt.stats) (length (p ∷ ps))
            rt.max_calls_default_paid)) [
              | inr (x, over) ↦ rw (over, dispatch) (refl, refl)
              | inl fine ↦
                  rw (fine, dispatch)
                    (receive-IsSameRun (sending disk rt (p ∷ ps)) p.frame (p ∷ ps) _)
            ]

    after_gather-IsSameRun :
        (rt : Runtime disk) (r : Gather disk × Option ResolveError)
        → IsSameRun rt (after_gather disk json judge rt r).0
    unfolding after_gather
    after_gather-IsSameRun rt (g, some e) = (refl, refl)
    after_gather-IsSameRun rt (g, none) = dispatch-IsSameRun _ g.pending

    pub resolve-IsSameRun : (rt : Runtime disk) → IsSameRun rt (resolve disk json judge rt).0
    unfolding resolve
    resolve-IsSameRun rt = after_gather-IsSameRun rt (
        gather disk json judge rt.collected_frames 0 rt.collected
          (record { cache = rt.cache; stats = rt.stats; pending = [] }))
