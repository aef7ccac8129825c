-- ===== src/Dispatch/Parallel/Bound.antt =====
-- A dispatch has an end: each step takes weight from it.
use ajq.Prelude.{
  ℕ, zero, suc, ◌+◌, ◌-◌, ◌*◌, ◌≤◌, ◌<◌, String, ◌≡◌, refl, arith, ◌==◌, if◌then◌else◌, Bool-cases,
  inl, inr,
}
use ajq.Result.{Result}
use ajq.Backend.{Answer}
use ajq.Dispatch.Parallel.{
  update, Sender, checking, offering, closed, Pc, waiting, admitted, checked, running, failing,
  returned, storing, stopped, Shared, is_some, Move, see_done, receive, record_failure, write, Send,
  offer, break_checking, break_offering, all_sent, World, cancel_parent, propagate, System, Step,
  worker, sender, world, Reach, start, next,
}
use ajq.Dispatch.Parallel.Invariant.{IsWithin}
use ajq.Dispatch.Parallel.Invariant.Moves.{Reach-Inv}

abbrev pub pc_weight : Pc → ℕ
pc_weight waiting = 1
pc_weight (admitted k) = 6
pc_weight (checked k) = 5
pc_weight (running k) = 4
pc_weight (failing k e) = 3
pc_weight (returned k r) = 3
pc_weight (storing k r) = 2
pc_weight stopped = 0

abbrev pub sender_weight : ℕ → Sender → ℕ
sender_weight len (checking k) = 10 * (len - k) + 2
sender_weight len (offering k) = 10 * (len - k) + 1
sender_weight len (closed k) = 0

-- The weight of the first `n` workers.
pub workers_weight : ℕ → (ℕ → Pc) → ℕ
workers_weight zero pc = 0
workers_weight (suc n) pc = pc_weight (pc n) + workers_weight n pc

abbrev pub shared_weight : ℕ → Shared → ℕ
shared_weight len s =
    sender_weight len s.sender + ((if is_some s.parent then 0 else 1) + (if s.child then 0 else 1))

workers_weight-same :
    (n : ℕ) (pc : ℕ → Pc) (i : ℕ) (p : Pc)
    → n ≤ i
    → workers_weight n (update pc i p) ≡ workers_weight n pc
unfolding workers_weight
workers_weight-same zero pc i p le = refl
workers_weight-same (suc n) pc i p le = ground (arith, workers_weight-same n pc i p (omega arith))

workers_weight-update :
    (n : ℕ) (pc : ℕ → Pc) (i : ℕ) (p : Pc)
    → i < n
    → workers_weight n (update pc i p) + pc_weight (pc i) ≡ workers_weight n pc + pc_weight p
unfolding workers_weight
workers_weight-update zero pc i p lt = absurd (omega arith)
workers_weight-update (suc n) pc i p lt = elim (Bool-cases (i == n)) [
  | inl last ↦ ground (arith, workers_weight-same n pc i p)
  | inr before ↦ ground (arith, workers_weight-update n pc i p)
]

weight : ℕ → ℕ → System → ℕ
weight len n s = shared_weight len s.shared + workers_weight n s.pc

workers_weight-waiting : (n : ℕ) → workers_weight n (λ w. waiting) ≡ n
unfolding workers_weight
workers_weight-waiting zero = refl
workers_weight-waiting (suc n) = omega (arith, workers_weight-waiting n)

module _ {callback : ℕ → Result String Answer} {len : ℕ} where
  Send-lighter :
      {s s' : Shared}
      → Send callback len s s'
      → IsWithin len s.sender
      → shared_weight len s' < shared_weight len s
  Send-lighter (offer k at lt fine) within = ground (arith, within)
  Send-lighter (break_checking k at done) within = ground (arith, within)
  Send-lighter (break_offering k at done) within = ground (arith, within)
  Send-lighter (all_sent k at le) within = ground (arith, within)

  World-lighter :
      {s s' : Shared} → World callback len s s' → shared_weight len s' < shared_weight len s
  World-lighter (cancel_parent e alive) = ground arith
  World-lighter (propagate cancelled before) = ground arith

  Move-lighter :
      {s s' : Shared} {p p' : Pc}
      → Move callback len s p s' p'
      → IsWithin len s.sender
      → shared_weight len s' + pc_weight p' < shared_weight len s + pc_weight p
  Move-lighter (receive k at) within = ground (arith, within)
  Move-lighter (record_failure k e fine) within = ground arith
  Move-lighter (write k r) within = ground arith
  Move-lighter (see_done h) within = ground arith
  Move-lighter mv within = ground arith

  Step-lighter :
      {n : ℕ} {s t : System}
      → Step callback len n s t
      → IsWithin len s.shared.sender
      → weight len n t < weight len n s
  unfolding weight
  Step-lighter {n} {s} (worker i {s'} {p'} lt mv) within =
      omega (arith, Move-lighter mv within, workers_weight-update n s.pc i p' lt)
  Step-lighter (sender mv) within = omega (arith, Send-lighter mv within)
  Step-lighter (world mv) within = omega (arith, World-lighter mv)

  -- The steps of a run.
  unfoldable pub steps : {n : ℕ} {s : System} → Reach callback len n s → ℕ
  steps start = 0
  steps (next before st) = steps before + 1

  spent :
      {n : ℕ} {s : System} (reached : Reach callback len n s)
      → steps reached + weight len n s ≤ 10 * len + n + 4
  unfolding steps weight
  spent {n} start = omega (arith, workers_weight-waiting n)
  spent (next before st) = omega (arith, spent before, Step-lighter st (Reach-Inv before).within)

  -- A parallel dispatch comes to its end: whatever the interleaving, it takes at most
  -- `10 * len + n + 4` steps for a batch of `len` judgements and `n` workers.
  pub steps-bounded :
      {n : ℕ} {s : System} (reached : Reach callback len n s) → steps reached ≤ 10 * len + n + 4
  steps-bounded reached = omega (arith, spent reached)
