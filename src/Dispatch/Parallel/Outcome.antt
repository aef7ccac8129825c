-- ===== src/Dispatch/Parallel/Outcome.antt =====
-- What a parallel dispatch returns, and its agreement with the sequential one.
use ajq.Prelude.{
  ℕ, zero, suc, ◌+◌, ◌≤◌, ◌<◌, String, true, false, List, [], ◌∷◌, Option, none, some, ◌≡◌, inl,
  inr, refl, arith, length, get_elem?, sym,
}
use ajq.Result.{Result, ok, err}
use ajq.Backend.{Judgement, Answer}
use ajq.Dispatch.{
  Dispatched, results, cancelled, failure, after_callback, second_poll, first_poll, run_sequential,
}
use ajq.Dispatch.Order.{AreResults}
use ajq.Dispatch.Parallel.{
  Sender, checking, offering, closed, sent, System, IsFinal, Reach, is_some, halted, slot, collect,
  returned_of, return_value,
}
use ajq.Dispatch.Parallel.Invariant.{held, IsWithin, Inv}
use ajq.Dispatch.Parallel.Invariant.Moves.{Reach-Inv}

length-collect : (slots : ℕ → Option Answer) (i n : ℕ) → length (collect slots i n) ≡ n
unfolding collect
length-collect slots i zero = refl
length-collect slots i (suc n) = rw (length-collect slots (i + 1) n)

get-collect :
    (slots : ℕ → Option Answer) (i n k : ℕ)
    → k < n
    → get_elem? (collect slots i n) k ≡ some (slot (slots (i + k)))
unfolding collect
get-collect slots i zero k lt = absurd (omega arith)
get-collect slots i (suc n) zero lt = rw same
  where
    same : i + 0 ≡ i
    same = omega arith
get-collect slots i (suc n) (suc k) lt = rw (get-collect slots (i + 1) n k (omega arith), shift i k)
  where
    shift : (i k : ℕ) → i + 1 + k ≡ i + suc k
    shift i k = omega arith

IsWithin-bound : (len : ℕ) (x : Sender) → IsWithin len x → sent x ≤ len
IsWithin-bound len (checking k) h = h
IsWithin-bound len (offering k) h = omega arith
IsWithin-bound len (closed k) h = h

module _ (callback : ℕ → Result String Answer) (len : ℕ) where
  -- The results, in the place of their indices.
  abbrev pub AreAnswers : List Answer → Type 0
  AreAnswers rs =
      (length rs ≡ len)
      × ((k : ℕ) → k < len → (r : Answer) × (get_elem? rs k ≡ some r) × (callback k ≡ ok r))

  abbrev pub IsOutcome : Option String → Dispatched → Type 0
  IsOutcome parent (results rs) = AreAnswers rs
  IsOutcome parent (cancelled e) = parent ≡ some e
  IsOutcome parent (failure k e) = (k < len) × (callback k ≡ err e)

  filled :
      (slots : ℕ → Option Answer) (k : ℕ) (o : Option Answer)
      → slots k ≡ o
      → is_some o ≡ true
      → ((r : Answer) → slots k ≡ some r → callback k ≡ ok r)
      → callback k ≡ ok (slot o)
  filled slots k (some r) e h valid = valid r e
  filled slots k none e h valid = cc h

  -- No worker has an index in hand at the end.
  written :
      {n : ℕ} {s : System}
      → Inv callback len n s.shared s.pc
      → IsFinal n s
      → halted s.shared ≡ false
      → (k : ℕ) → k < len
      → is_some (s.shared.slots k) ≡ true
  written inv ((j, at), ended) fine k lt =
      elim (inv.kept k (ground (arith, inv.all_sent j at fine)) fine) [
        | inl h ↦ h
        | inr (w, less, h) ↦ ground (arith, ended w less)
      ]

  get_first :
      (slots : ℕ → Option Answer) (k : ℕ)
      → get_elem? (collect slots 0 len) k ≡ some (slot (slots (0 + k)))
      → get_elem? (collect slots 0 len) k ≡ some (slot (slots k))
  get_first slots k h = rw same at h
    where
      same : 0 + k ≡ k
      same = omega arith

  Inv-AreAnswers :
      {n : ℕ} {s : System}
      → Inv callback len n s.shared s.pc
      → IsFinal n s
      → halted s.shared ≡ false
      → AreAnswers (collect s.shared.slots 0 len)
  Inv-AreAnswers {n} {s} inv final fine = (
    length-collect s.shared.slots 0 len,
    λ k lt. (
      slot (s.shared.slots k),
      get_first s.shared.slots k (get-collect s.shared.slots 0 len k lt),
      filled s.shared.slots k (s.shared.slots k) refl (written inv final fine k lt)
          (λ r e. inv.valid k r e),
    ),
  )

  Inv-IsOutcome :
      {n : ℕ} {s : System}
      → Inv callback len n s.shared s.pc
      → IsFinal n s
      → (failed : Option (ℕ × String)) (parent : Option String) → s.shared.failed ≡ failed
      → s.shared.parent ≡ parent
      → IsOutcome s.shared.parent (returned_of failed parent (collect s.shared.slots 0 len))
  Inv-IsOutcome {s = s} inv final (some (k, e)) parent f p = (
    ground (arith, IsWithin-bound len s.shared.sender inv.within, inv.failure_behind k e f),
    inv.failure_valid k e f,
  )
  Inv-IsOutcome inv final none (some e) f p = p
  Inv-IsOutcome inv final none none f p = Inv-AreAnswers inv final (rw (f, p))

  -- No two workers have the same index in hand, and the index in a worker's hand is one of the
  -- batch.
  pub held_unique :
      {n : ℕ} {s : System} (v w k : ℕ)
      → Reach callback len n s
      → held (s.pc v) ≡ some k
      → held (s.pc w) ≡ some k
      → (v ≡ w) × (k < len)
  held_unique {s = s} v w k reached e f = (
    (Reach-Inv reached).unique v w k e f,
    ground (
      arith,
      IsWithin-bound len s.shared.sender (Reach-Inv reached).within,
      (Reach-Inv reached).behind v k e,
    ),
  )

  -- Whatever the interleaving of the sender, the workers and the cancellation of the parent, a
  -- parallel dispatch that has ended returns a result of the callback for each index of the batch, in
  -- the place of the index; or the failure of the callback at an index of the batch; or the error
  -- with which the parent was cancelled. It gives nothing else, and no index is lost.
  pub return_value-IsOutcome :
      {n : ℕ} {s : System}
      → Reach callback len n s
      → IsFinal n s
      → IsOutcome s.shared.parent (return_value len s.shared)
  unfolding return_value
  return_value-IsOutcome {s = s} reached final =
      Inv-IsOutcome (Reach-Inv reached) final s.shared.failed s.shared.parent refl refl

module _ (run : ℕ → Judgement → Result String Answer) where
  -- `judgement := batch[index]` and the callback. No index is out of range.
  abbrev pub call : ℕ → Option Judgement → Result String Answer
  call k (some j) = run k j
  call k none = err "index out of range"

  abbrev pub callback_at : List Judgement → ℕ → Result String Answer
  callback_at batch k = call k (get_elem? batch k)

  answers-AreResults :
      (i : ℕ) (js : List Judgement) (rs : List Answer)
      → length rs ≡ length js
      → ((k : ℕ)
          → k < length js
          → (r : Answer) × (get_elem? rs k ≡ some r) × (call (i + k) (get_elem? js k) ≡ ok r))
      → AreResults run i js rs
  answers-AreResults i [] [] same h = tt
  answers-AreResults i [] (r ∷ rs) same h = absurd (omega (arith, same))
  answers-AreResults i (j ∷ js) [] same h = absurd (omega (arith, same))
  answers-AreResults i (j ∷ js) (r ∷ rs) same h = (
    first (h 0 (omega arith)),
    answers-AreResults (i + 1) js rs (omega (arith, same))
        (λ k lt. later k (h (suc k) (omega arith))),
  )
    where
      plus_zero : i + 0 ≡ i
      plus_zero = omega arith

      shift : (k : ℕ) → i + suc k ≡ i + 1 + k
      shift k = omega arith

      first : (q : Answer) × (some r ≡ some q) × (run (i + 0) j ≡ ok q) → run i j ≡ ok r
      first (q, e, f) = cc (e, f, plus_zero)

      later :
          (k : ℕ)
          → (q : Answer) × (get_elem? rs k ≡ some q) × (call (i + suc k) (get_elem? js k) ≡ ok q)
          → (q : Answer) × (get_elem? rs k ≡ some q) × (call (i + 1 + k) (get_elem? js k) ≡ ok q)
      later k (q, e, f) = (q, e, rw (sym (shift k)) f)

  AreResults-run_sequential :
      (i : ℕ) (js : List Judgement) (rs : List Answer)
      → AreResults run i js rs
      → run_sequential run i js [] ≡ results rs
  unfolding run_sequential first_poll second_poll after_callback
  AreResults-run_sequential i [] [] h = refl
  AreResults-run_sequential i (j ∷ js) (r ∷ rs) (same, h) =
      rw (same, AreResults-run_sequential (i + 1) js rs h)
  AreResults-run_sequential i [] (r ∷ rs) h = absurd h
  AreResults-run_sequential i (j ∷ js) [] h = absurd h

  -- When the parallel dispatch of a batch gives results, the sequential one gives the same: the
  -- number of workers and the interleaving do not show.
  pub parallel-run_sequential :
      (batch : List Judgement) {n : ℕ} {s : System} {rs : List Answer}
      → Reach (callback_at batch) (length batch) n s
      → IsFinal n s
      → return_value (length batch) s.shared ≡ results rs
      → run_sequential run 0 batch [] ≡ results rs
  parallel-run_sequential batch {s = s} {rs} reached final e =
      AreResults-run_sequential 0 batch rs (
        outcome (rw e at (return_value-IsOutcome (callback_at batch) (length batch) reached final)))
    where
      zero_plus : (k : ℕ) → 0 + k ≡ k
      zero_plus k = omega arith

      from_zero :
          (k : ℕ)
          → (r : Answer) × (get_elem? rs k ≡ some r) × (call k (get_elem? batch k) ≡ ok r)
          → (r : Answer) × (get_elem? rs k ≡ some r) × (call (0 + k) (get_elem? batch k) ≡ ok r)
      from_zero k h = rw (zero_plus k) h

      outcome :
          IsOutcome (callback_at batch) (length batch) s.shared.parent (results rs)
          → AreResults run 0 batch rs
      outcome (same, h) = answers-AreResults 0 batch rs same (λ k lt. from_zero k (h k lt))
