-- ===== src/Engine/Resolve/Sends.antt =====
-- What one call of `resolve` sends is no more than what has been collected.
use ajq.Prelude.{
  ℕ, suc, ◌+◌, ◌≤◌, String, List, [], ◌∷◌, ◌++◌, Option, none, some, ◌≡◌, refl, arith, ◌==◌, length,
  length-append, Bool-cases, Option-cases, inl, inr,
}
use ajq.Result.{Result, ok, err, Result-cases}
use ajq.Backend.{Judgement, Answer}
use ajq.Cache.{DiskOps, get}
use ajq.Cache.Canonical.{Json}
use ajq.Cache.Key.{key_for_judgement}
use ajq.Engine.{Runtime, check_max_calls}
use ajq.Engine.Resolve.{
  Pending, ResolveError, Gather, is_pending, note, note_miss, gather, frame_for_collected, batch,
  first_failure, commit, receive, sending, spent, dispatch, after_gather, resolve,
}
use ajq.Engine.Resolve.Budget.{total_sent, total_sent-append, length-batch}

module _ (disk : DiskOps) where
  -- A round of `gather` adds one pending judgement at most.
  note_adds :
      (p : Pending) (g : Gather disk) → length (note disk p g).pending ≤ length g.pending + 1
  unfolding note note_miss
  note_adds p g = elim (Option-cases (get disk g.cache p.key).0) [
    | inr (r, e) ↦ rw (e, note) (omega arith)
    | inl e ↦ elim (Bool-cases (is_pending p.key g.pending)) [
      | inl f ↦ rw (e, f, note) (omega arith)
      | inr f ↦ rw (e, f, note) (omega (arith, length-append g.pending (p ∷ [])))
    ]
  ]

  module _ (json : Json)
      (judge : List (List Judgement) → List Judgement → Result String (List Answer)) where
    gather_adds :
        (frames : List ℕ) (i : ℕ) (js : List Judgement) (g : Gather disk)
        → length (gather disk json judge frames i js g).0.pending ≤ length g.pending + length js
    unfolding gather
    gather_adds frames i [] g = omega arith
    gather_adds frames i (j ∷ js) g = elim (Result-cases (key_for_judgement json j)) [
      | inl (x, e) ↦ rw (e, gather) (omega arith)
      | inr (k, e) ↦
          rw (e, gather)
            (onwards (record { judgement = j; key = k; frame = frame_for_collected frames i })
              (λ h. gather_adds frames (i + 1) js h))
    ]
      where
        onwards :
            (p : Pending)
            → ((h : Gather disk)
                → length (gather disk json judge frames (i + 1) js h).0.pending
                  ≤ length h.pending + length js)
            → length (gather disk json judge frames (i + 1) js (note disk p g)).0.pending
              ≤ length g.pending + suc (length js)
        onwards p ih = omega (arith, ih (note disk p g), note_adds p g)

    commit_sent :
        (rt : Runtime disk) (ps : List Pending) (rs : List Answer)
        → (commit disk rt ps rs).0.sent ≡ rt.sent
    unfolding commit
    commit_sent rt ps rs = elim (Option-cases (first_failure 0 ps rs)) [
      | inl e ↦ rw (e, commit)
      | inr ((i, start, x), e) ↦ rw (e, commit)
    ]

    pub receive_sent :
        (rt : Runtime disk) (n : ℕ) (ps : List Pending) (r : Result String (List Answer))
        → (receive disk rt n ps r).0.sent ≡ rt.sent
    unfolding receive
    receive_sent rt n ps (err x) = refl
    receive_sent rt n ps (ok rs) = elim (Bool-cases (length rs == length ps)) [
      | inl e ↦ rw e (commit_sent rt ps rs)
      | inr e ↦ rw e
    ]

    -- No batch is sent, or one more of that size at most.
    abbrev Sends : List (List Judgement) → ℕ → List (List Judgement) → Type 0
    Sends before n after =
        (total_sent after ≤ total_sent before + n) × (length after ≤ length before + 1)

    sending-Sends :
        (rt : Runtime disk) (ps : List Pending)
        → Sends rt.sent (length ps) (rt.sent ++ batch ps ∷ [])
    sending-Sends rt ps = (
      omega (arith, total_sent-append rt.sent (batch ps ∷ []), length-batch ps),
      omega (arith, length-append rt.sent (batch ps ∷ [])),
    )

    dispatch-Sends :
        (rt : Runtime disk) (ps : List Pending)
        → Sends rt.sent (length ps) (dispatch disk json judge rt ps).0.sent
    unfolding dispatch
    dispatch-Sends rt [] = (omega arith, omega arith)
    dispatch-Sends rt (p ∷ ps) =
        elim (Option-cases (
          check_max_calls rt.max_calls (spent rt.stats) (length (p ∷ ps))
            rt.max_calls_default_paid)) [
              | inr (x, e) ↦ rw (e, dispatch) (omega arith, omega arith)
              | inl e ↦
                  rw
                    (
                      e,
                      dispatch,
                      receive_sent (sending disk rt (p ∷ ps)) p.frame (p ∷ ps)
                          (judge rt.sent (batch (p ∷ ps))),
                    )
                    (sending-Sends rt (p ∷ ps))
            ]

    after_gather-Sends :
        (rt : Runtime disk) (x : Gather disk × Option ResolveError) (n : ℕ)
        → length x.0.pending ≤ n
        → Sends rt.sent n (after_gather disk json judge rt x).0.sent
    unfolding after_gather
    after_gather-Sends rt (g, some e) n le = (omega arith, omega arith)
    after_gather-Sends rt (g, none) n le =
        let h = dispatch-Sends (record rt { cache = g.cache; stats = g.stats }) g.pending in
        (omega (arith, h.0), h.1)

    pub resolve-Sends :
        (rt : Runtime disk)
        → (total_sent (resolve disk json judge rt).0.sent
            ≤ total_sent rt.sent + length rt.collected)
          × (length (resolve disk json judge rt).0.sent ≤ length rt.sent + 1)
    unfolding resolve
    resolve-Sends rt =
        after_gather-Sends rt
          (gather disk json judge rt.collected_frames 0 rt.collected
            (record { cache = rt.cache; stats = rt.stats; pending = [] }))
          (length rt.collected)
          (omega (
            arith,
            gather_adds rt.collected_frames 0 rt.collected
                (record { cache = rt.cache; stats = rt.stats; pending = [] }),
          ))
