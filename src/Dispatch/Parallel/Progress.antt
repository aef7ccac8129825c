-- ===== src/Dispatch/Parallel/Progress.antt =====
-- No deadlock: a dispatch that has not ended has a step to take.
use ajq.Prelude.{
  ℕ, zero, suc, ◌≤◌, ◌<◌, String, true, false, ◌≡◌, ◌⊎◌, inl, inr, refl, arith, ◌==◌, Bool-cases,
  ltb, ltb_less, ltb_not_less,
}
use ajq.Result.{Result, Result-cases}
use ajq.Backend.{Answer}
use ajq.Dispatch.Parallel.{
  Sender, checking, offering, closed, Pc, waiting, admitted, checked, running, failing, returned,
  storing, stopped, Shared, is_some, halted, Move, receive, see_closed, drop_admitted,
  keep_admitted, drop_checked, enter, raise, finish, record_failure, ignore_failure, discard,
  accept, write, Send, offer, break_checking, break_offering, all_sent, cancel_parent, propagate,
  System, Step, worker, sender, world, IsFinal, Reach,
}
use ajq.Dispatch.Parallel.Invariant.{Inv}
use ajq.Dispatch.Parallel.Invariant.Moves.{Reach-Inv}

module _ (callback : ℕ → Result String Answer) (len n : ℕ) where
  -- A step of the dispatcher itself, or of the runtime that passes a cancellation on; not the
  -- cancellation of the parent.
  abbrev pub IsOwn : {s t : System} → Step callback len n s t → Type 0
  IsOwn (world (cancel_parent e alive)) = ⊥
  IsOwn _ = Unit

  abbrev pub CanStep : System → Type 0
  CanStep s = (t : System) × (st : Step callback len n s t) × IsOwn st

  module _ (s : System) where
    move :
        (w : ℕ) (p : Pc) {p' : Pc} {s' : Shared}
        → w < n
        → s.pc w ≡ p
        → Move callback len s.shared p s' p'
        → CanStep s
    move w p {p'} {s'} lt at mv = (_, worker w {s' = s'} {p' = p'} lt (rw at mv), tt)

    send : {s' : Shared} → Send callback len s.shared s' → CanStep s
    send mv = (_, sender mv, tt)

    -- A worker that has an index in hand has a move.
    busy_steps : (w : ℕ) (p : Pc) → w < n → s.pc w ≡ p → (p ≡ stopped) ⊎ (p ≡ waiting) ⊎ CanStep s
    busy_steps w stopped lt at = inl refl
    busy_steps w waiting lt at = inr (inl refl)
    busy_steps w (admitted k) lt at = elim (Bool-cases s.shared.child) [
      | inl e ↦ inr (inr (move w (admitted k) lt at (drop_admitted k e)))
      | inr e ↦ inr (inr (move w (admitted k) lt at (keep_admitted k e)))
    ]
    busy_steps w (checked k) lt at = elim (Bool-cases s.shared.child) [
      | inl e ↦ inr (inr (move w (checked k) lt at (drop_checked k e)))
      | inr e ↦ inr (inr (move w (checked k) lt at (enter k e)))
    ]
    busy_steps w (running k) lt at = elim (Result-cases (callback k)) [
      | inl (e, same) ↦ inr (inr (move w (running k) lt at (raise k e same)))
      | inr (r, same) ↦ inr (inr (move w (running k) lt at (finish k r same)))
    ]
    busy_steps w (failing k e) lt at = elim (Bool-cases (halted s.shared)) [
      | inl h ↦ inr (inr (move w (failing k e) lt at (ignore_failure k e h)))
      | inr h ↦ inr (inr (move w (failing k e) lt at (record_failure k e h)))
    ]
    busy_steps w (returned k r) lt at = elim (Bool-cases (is_some s.shared.parent)) [
      | inl h ↦ inr (inr (move w (returned k r) lt at (discard k r h)))
      | inr h ↦ inr (inr (move w (returned k r) lt at (accept k r h)))
    ]
    busy_steps w (storing k r) lt at = inr (inr (move w (storing k r) lt at (write k r)))

    -- While the sender offers an index or has closed the channel, a waiting worker has a move too.
    not_stopped_steps :
        ((w : ℕ) → w < n → s.pc w ≡ waiting → CanStep s)
        → (m : ℕ) → m ≤ n
        → CanStep s ⊎ ((w : ℕ) → w < m → s.pc w ≡ stopped)
    not_stopped_steps idle zero le = inr (λ w lt. absurd (omega arith))
    not_stopped_steps idle (suc m) le = elim (not_stopped_steps idle m (omega arith)) [
      | inl can ↦ inl can
      | inr ended ↦ elim (busy_steps m (s.pc m) (omega arith) refl) [
        | inl last ↦ inr (λ w lt. elim (Bool-cases (w == m)) [
          | inl e ↦ ground (arith, last)
          | inr e ↦ ended w (ground arith)
        ])
        | inr (inl e) ↦ inl (idle m (omega arith) e)
        | inr (inr can) ↦ inl can
      ]
    ]

    -- A cancelled parent is passed on.
    halted_steps :
        Inv callback len n s.shared s.pc
        → halted s.shared ≡ true
        → s.shared.child ≡ false
        → CanStep s
    halted_steps inv h fine = (_, world (propagate (ground (arith, inv.passed_on)) fine), tt)

    sender_steps :
        Inv callback len n s.shared s.pc
        → 0 < n
        → (x : Sender) → s.shared.sender ≡ x
        → IsFinal n s ⊎ CanStep s
    sender_steps inv some_worker (checking k) at = elim (Bool-cases s.shared.child) [
      | inl h ↦ inr (send (break_checking k at h))
      | inr h ↦ elim (Bool-cases (ltb k len)) [
        | inl lt ↦ inr (send (offer k at (ltb_less lt) h))
        | inr ge ↦ inr (send (all_sent k at (ltb_not_less ge)))
      ]
    ]
    sender_steps inv some_worker (offering k) at = elim (Bool-cases s.shared.child) [
      | inl h ↦ inr (send (break_offering k at h))
      | inr h ↦
          elim (not_stopped_steps (λ w lt e. move w waiting lt e (receive k at)) n (omega arith)) [
            | inl can ↦ inr can
            | inr ended ↦
                inr (halted_steps inv (ground (arith, inv.leaves 0, ended 0 some_worker)) h)
          ]
    ]
    sender_steps inv some_worker (closed k) at =
        elim (not_stopped_steps (λ w lt e. move w waiting lt e (see_closed k at)) n (omega arith)) [
          | inl can ↦ inr can
          | inr ended ↦ inl ((k, at), ended)
        ]

  -- A parallel dispatch with a worker never stands still: a state that it reaches is one in which the
  -- sender and every worker have ended, or some of them has a step to take, for which the parent
  -- need not be cancelled.
  pub Reach-CanStep : {s : System} → 0 < n → Reach callback len n s → IsFinal n s ⊎ CanStep s
  Reach-CanStep {s} some_worker reached =
      sender_steps s (Reach-Inv reached) some_worker s.shared.sender refl
