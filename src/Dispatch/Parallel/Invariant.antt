-- ===== src/Dispatch/Parallel/Invariant.antt =====
-- What holds between the goroutines at all times.
pub mod Moves
mod Outside
use ajq.Prelude.{
  ℕ, zero, suc, ◌+◌, ◌≤◌, ◌<◌, String, Bool, true, false, ◌||◌, Option, none, some, ◌≡◌, ◌≢◌, ◌⊎◌,
  inl, inr, refl, arith, ◌==◌, if◌then◌else◌,
}
use ajq.Result.{Result, ok, err}
use ajq.Backend.{Answer}
use ajq.Dispatch.Parallel.{
  update, Sender, checking, offering, closed, sent, Pc, waiting, admitted, checked, running,
  failing, returned, storing, stopped, Shared, is_some, halted, Move, Send, World,
}

-- The index that a worker has taken and not yet dealt with.
abbrev pub held : Pc → Option ℕ
held waiting = none
held (admitted k) = some k
held (checked k) = some k
held (running k) = some k
held (failing k e) = some k
held (returned k r) = some k
held (storing k r) = some k
held stopped = none

abbrev pub is_closed : Sender → Bool
is_closed (closed k) = true
is_closed _ = false

-- The sender does not pass the end of the batch.
abbrev pub IsWithin : ℕ → Sender → Type 0
IsWithin len (checking k) = k ≤ len
IsWithin len (offering k) = k < len
IsWithin len (closed k) = k ≤ len

abbrev pub is_stopped : Pc → Bool
is_stopped stopped = true
is_stopped _ = false

module _ (callback : ℕ → Result String Answer) (len n : ℕ) where
  -- What a worker has in hand is what the callback gave.
  abbrev pub IsFresh : Pc → Type 0
  IsFresh (failing k e) = callback k ≡ err e
  IsFresh (returned k r) = callback k ≡ ok r
  IsFresh (storing k r) = callback k ≡ ok r
  IsFresh _ = Unit

  pub record Inv (s : Shared) (pc : ℕ → Pc) : Type 0 where
    pub cause : s.child ≡ true → halted s ≡ true
    pub passed_on : is_some s.failed ≡ true → s.child ≡ true
    pub all_sent : (k : ℕ) → s.sender ≡ closed k → halted s ≡ false → len ≤ k
    pub leaves : (w : ℕ) → is_stopped (pc w) ≡ true → (is_closed s.sender || halted s) ≡ true
    pub fresh : (w : ℕ) → IsFresh (pc w)
    pub valid : (k : ℕ) (r : Answer) → s.slots k ≡ some r → callback k ≡ ok r
    pub failure_valid : (k : ℕ) (e : String) → s.failed ≡ some (k, e) → callback k ≡ err e
    pub failure_behind : (k : ℕ) (e : String) → s.failed ≡ some (k, e) → k < sent s.sender
    pub within : IsWithin len s.sender
    pub behind : (w k : ℕ) → held (pc w) ≡ some k → k < sent s.sender
    pub unique : (v w k : ℕ) → held (pc v) ≡ some k → held (pc w) ≡ some k → v ≡ w
    pub kept :
        (k : ℕ)
        → k < sent s.sender
        → halted s ≡ false
        → (is_some (s.slots k) ≡ true) ⊎ ((w : ℕ) × (w < n) × (held (pc w) ≡ some k))
