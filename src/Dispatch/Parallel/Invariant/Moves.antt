-- ===== src/Dispatch/Parallel/Invariant/Moves.antt =====
-- Every step keeps the invariant.
use ajq.Prelude.{
  ℕ, ◌≤◌, ◌<◌, String, true, false, ◌||◌, Option, some, ◌≡◌, ◌⊎◌, inl, inr, refl, arith, ◌==◌,
  Bool-cases,
}
use ajq.Result.{Result, ok, err}
use ajq.Backend.{Answer}
use ajq.Dispatch.Parallel.{
  update, offering, closed, sent, Pc, waiting, admitted, storing, Shared, is_some, halted, Move,
  see_done, receive, see_closed, drop_admitted, keep_admitted, drop_checked, enter, raise, finish,
  record_failure, ignore_failure, discard, accept, write, System, Step, worker, sender, world,
  Reach, start, next,
}
use ajq.Dispatch.Parallel.Invariant.{held, is_closed, is_stopped, IsWithin, IsFresh, Inv}
use ajq.Dispatch.Parallel.Invariant.Outside.{Inv-initial, Send-Inv, World-Inv}

module _ (callback : ℕ → Result String Answer) (len n : ℕ) {s : Shared} {pc : ℕ → Pc}
    (inv : Inv callback len n s pc) (i : ℕ) where
  abbrev MoveTo : Pc → Shared → Pc → Type 0
  MoveTo p s' p' = Move callback len s p s' p'

  -- The premise of a move, for the catch-all clauses below.
  abbrev Guard : {p p' : Pc} {s' : Shared} → MoveTo p s' p' → Type 0
  Guard (see_done h) = s.child ≡ true
  Guard (receive k h) = s.sender ≡ offering k
  Guard (see_closed k h) = s.sender ≡ closed k
  Guard (drop_admitted k h) = s.child ≡ true
  Guard (keep_admitted k h) = s.child ≡ false
  Guard (drop_checked k h) = s.child ≡ true
  Guard (enter k h) = s.child ≡ false
  Guard (raise k e h) = callback k ≡ err e
  Guard (finish k r h) = callback k ≡ ok r
  Guard (record_failure k e h) = halted s ≡ false
  Guard (ignore_failure k e h) = halted s ≡ true
  Guard (discard k r h) = is_some s.parent ≡ true
  Guard (accept k r h) = is_some s.parent ≡ false
  Guard (write k r) = Unit

  guard : {p p' : Pc} {s' : Shared} (mv : MoveTo p s' p') → Guard mv
  guard (see_done h) = h
  guard (receive k h) = h
  guard (see_closed k h) = h
  guard (drop_admitted k h) = h
  guard (keep_admitted k h) = h
  guard (drop_checked k h) = h
  guard (enter k h) = h
  guard (raise k e h) = h
  guard (finish k r h) = h
  guard (record_failure k e h) = h
  guard (ignore_failure k e h) = h
  guard (discard k r h) = h
  guard (accept k r h) = h
  guard (write k r) = tt

  Move-cause : {p p' : Pc} {s' : Shared} → MoveTo p s' p' → s'.child ≡ true → halted s' ≡ true
  Move-cause (record_failure k e g) h = refl
  Move-cause (receive k g) h = inv.cause h
  Move-cause (write k r) h = inv.cause h
  Move-cause mv h = ground (arith, inv.cause)

  Move-passed_on :
      {p p' : Pc} {s' : Shared} → MoveTo p s' p' → is_some s'.failed ≡ true → s'.child ≡ true
  Move-passed_on (record_failure k e g) h = refl
  Move-passed_on mv h = ground (arith, inv.passed_on)

  Move-all_sent :
      {p p' : Pc} {s' : Shared}
      → MoveTo p s' p'
      → (k : ℕ) → s'.sender ≡ closed k
      → halted s' ≡ false
      → len ≤ k
  Move-all_sent (receive j g) k e h = cc
  Move-all_sent (record_failure j x g) k e h = cc
  Move-all_sent mv k e h = ground (arith, inv.all_sent k)

  Move-leaves :
      {p p' : Pc} {s' : Shared}
      → MoveTo p s' p'
      → pc i ≡ p
      → (w : ℕ) → is_stopped (update pc i p' w) ≡ true
      → (is_closed s'.sender || halted s') ≡ true
  Move-leaves (receive j g) own w h = ground (arith, inv.leaves w)
  Move-leaves mv own w h = ground (arith, guard mv, inv.leaves w, inv.cause)

  Move-IsFresh :
      {p p' : Pc} {s' : Shared}
      → MoveTo p s' p'
      → pc i ≡ p
      → (w : ℕ) → IsFresh callback len n (update pc i p' w)
  Move-IsFresh (see_done g) own w = ground (arith, inv.fresh w)
  Move-IsFresh mv own w = ground (arith, guard mv, inv.fresh w, inv.fresh i)

  Move-valid :
      {p p' : Pc} {s' : Shared}
      → MoveTo p s' p'
      → pc i ≡ p
      → (k : ℕ) (r : Answer) → s'.slots k ≡ some r
      → callback k ≡ ok r
  Move-valid (write j x) own k r e = ground (arith, inv.valid k r, inv.fresh i)
  Move-valid mv own k r e = ground (arith, inv.valid k r)

  Move-failure_valid :
      {p p' : Pc} {s' : Shared}
      → MoveTo p s' p'
      → pc i ≡ p
      → (k : ℕ) (e : String) → s'.failed ≡ some (k, e)
      → callback k ≡ err e
  Move-failure_valid (record_failure j x g) own k e h = ground (arith, inv.fresh i)
  Move-failure_valid mv own k e h = ground (arith, inv.failure_valid k e)

  Move-failure_behind :
      {p p' : Pc} {s' : Shared}
      → MoveTo p s' p'
      → pc i ≡ p
      → (k : ℕ) (e : String) → s'.failed ≡ some (k, e)
      → k < sent s'.sender
  Move-failure_behind (record_failure j x g) own k e h = ground (arith, inv.behind i k)
  Move-failure_behind (receive j g) own k e h = ground (arith, g, inv.failure_behind k e)
  Move-failure_behind mv own k e h = inv.failure_behind k e h

  Move-IsWithin : {p p' : Pc} {s' : Shared} → MoveTo p s' p' → IsWithin len s'.sender
  Move-IsWithin (receive j g) = ground (arith, inv.within)
  Move-IsWithin (see_done g) = inv.within
  Move-IsWithin mv = inv.within

  Move-behind :
      {p p' : Pc} {s' : Shared}
      → MoveTo p s' p'
      → pc i ≡ p
      → (w k : ℕ) → held (update pc i p' w) ≡ some k
      → k < sent s'.sender
  Move-behind (see_done g) own w k h = ground (arith, inv.behind w k)
  Move-behind mv own w k h = ground (arith, guard mv, inv.behind w k, inv.behind i k)

  Move-unique :
      {p p' : Pc} {s' : Shared}
      → MoveTo p s' p'
      → pc i ≡ p
      → (v w k : ℕ) → held (update pc i p' v) ≡ some k
      → held (update pc i p' w) ≡ some k
      → v ≡ w
  Move-unique (see_done g) own v w k e f = ground (arith, inv.unique v w k)
  Move-unique mv own v w k e f =
      ground (arith, guard mv, inv.unique v w k, inv.behind v k, inv.behind w k)

  -- An index is written, or in the hands of some worker.
  abbrev IsKept : (ℕ → Option Answer) → (ℕ → Pc) → ℕ → Type 0
  IsKept slots pcs k = (is_some (slots k) ≡ true) ⊎ ((w : ℕ) × (w < n) × (held (pcs w) ≡ some k))

  keep_holding :
      (p p' : Pc)
      → pc i ≡ p
      → held p' ≡ held p
      → (k : ℕ) → IsKept s.slots pc k
      → IsKept s.slots (update pc i p') k
  keep_holding p p' own same k (inl written) = inl written
  keep_holding p p' own same k (inr (w, lt, h)) = inr (w, lt, ground arith)

  Move-IsKept :
      {p p' : Pc} {s' : Shared}
      → MoveTo p s' p'
      → pc i ≡ p
      → i < n
      → (k : ℕ) → k < sent s'.sender
      → halted s' ≡ false
      → IsKept s'.slots (update pc i p') k
  Move-IsKept (see_done g) own lt k below h = keep_holding _ _ own refl k (inv.kept k below h)
  Move-IsKept (see_closed j g) own lt k below h = keep_holding _ _ own refl k (inv.kept k below h)
  Move-IsKept (keep_admitted j g) own lt k below h =
      keep_holding _ _ own refl k (inv.kept k below h)
  Move-IsKept (enter j g) own lt k below h = keep_holding _ _ own refl k (inv.kept k below h)
  Move-IsKept (raise j e g) own lt k below h = keep_holding _ _ own refl k (inv.kept k below h)
  Move-IsKept (finish j r g) own lt k below h = keep_holding _ _ own refl k (inv.kept k below h)
  Move-IsKept (accept j r g) own lt k below h = keep_holding _ _ own refl k (inv.kept k below h)
  Move-IsKept (drop_admitted j g) own lt k below h = cc (inv.cause g, h)
  Move-IsKept (drop_checked j g) own lt k below h = cc (inv.cause g, h)
  Move-IsKept (record_failure j e g) own lt k below h = cc h
  Move-IsKept (ignore_failure j e g) own lt k below h = cc (g, h)
  Move-IsKept (discard j r g) own lt k below h = ground arith
  Move-IsKept (receive j g) own lt k below h = elim (Bool-cases (k == j)) [
    | inl now ↦ inr (i, lt, ground arith)
    | inr before ↦ keep_holding_others j k before (inv.kept k (ground arith) h)
  ]
    where
      keep_holding_others :
          (j k : ℕ)
          → (k == j) ≡ false
          → IsKept s.slots pc k
          → IsKept s.slots (update pc i (admitted j)) k
      keep_holding_others j k other (inl written) = inl written
      keep_holding_others j k other (inr (w, less, e)) = inr (w, less, ground arith)
  Move-IsKept (write j r) own lt k below h = elim (Bool-cases (j == k)) [
    | inl now ↦ inl (rw now)
    | inr other ↦ others j r k other own (inv.kept k below h)
  ]
    where
      others :
          (j : ℕ) (r : Answer) (k : ℕ)
          → (j == k) ≡ false
          → pc i ≡ storing j r
          → IsKept s.slots pc k
          → IsKept (update s.slots j (some r)) (update pc i waiting) k
      others j r k other own (inl written) = inl (rw other written)
      others j r k other own (inr (w, less, e)) = inr (w, less, ground arith)

Step-Inv :
    {callback : ℕ → Result String Answer} {len n : ℕ} {s t : System}
    → Step callback len n s t
    → Inv callback len n s.shared s.pc
    → Inv callback len n t.shared t.pc
Step-Inv {callback} {len} {n} {s} (worker i lt mv) inv = record {
  cause = Move-cause callback len n inv i mv;
  passed_on = Move-passed_on callback len n inv i mv;
  all_sent = Move-all_sent callback len n inv i mv;
  leaves = Move-leaves callback len n inv i mv refl;
  fresh = Move-IsFresh callback len n inv i mv refl;
  valid = Move-valid callback len n inv i mv refl;
  failure_valid = Move-failure_valid callback len n inv i mv refl;
  failure_behind = Move-failure_behind callback len n inv i mv refl;
  within = Move-IsWithin callback len n inv i mv;
  behind = Move-behind callback len n inv i mv refl;
  unique = Move-unique callback len n inv i mv refl;
  kept = Move-IsKept callback len n inv i mv refl lt;
}
Step-Inv (sender mv) inv = Send-Inv mv inv
Step-Inv (world mv) inv = World-Inv mv inv

pub Reach-Inv :
    {callback : ℕ → Result String Answer} {len n : ℕ} {s : System}
    → Reach callback len n s
    → Inv callback len n s.shared s.pc
Reach-Inv start = Inv-initial
Reach-Inv (next before mv) = Step-Inv mv (Reach-Inv before)
