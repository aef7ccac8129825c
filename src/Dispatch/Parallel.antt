-- ===== src/Dispatch/Parallel.antt =====
-- `runParallel` (internal/backend/batchdispatch/batchdispatch.go): a step relation between the
-- sender of the indices, the workers, and the world that may cancel the parent context. The
-- callback's outcome at each index is a parameter.
pub mod Bound
pub mod Invariant
pub mod Outcome
pub mod Progress
use ajq.Prelude.{
  ℕ, zero, suc, ◌+◌, ◌≤◌, ◌<◌, String, Bool, true, false, ◌||◌, List, [], ◌∷◌, Option, none, some,
  ◌≡◌, ◌==◌, if◌then◌else◌,
}
use ajq.Result.{Result, ok, err}
use ajq.Value.{null}
use ajq.Backend.{Answer}
use ajq.Dispatch.{Dispatched, results, cancelled, failure}

-- A family with one value replaced.
abbrev pub update {ℓ} : {A : Type ℓ} → (ℕ → A) → ℕ → A → ℕ → A
update f i a j = if i == j then a else f j

-- The loop `sendJobs` at an index: before the look at the context, or in the select. `closed k` has
-- closed the channel after it has sent the first `k` indices.
pub data Sender : Type 0 where
  checking offering closed : ℕ → Sender

abbrev pub sent : Sender → ℕ
sent (checking k) = k
sent (offering k) = k
sent (closed k) = k

-- Where a worker stands: in the select; with an index before the first and the second look at the
-- child context; in the callback; behind it, with its error or its result; at the write of the
-- result, the parent having been looked at; and at the end.
pub data Pc : Type 0 where
  waiting : Pc
  admitted checked running : ℕ → Pc
  failing : ℕ → String → Pc
  returned storing : ℕ → Answer → Pc
  stopped : Pc

-- What the goroutines share. A slot of `slots` is `none` until it is written; `child` says whether
-- the child context is done.
pub record Shared : Type 0 where
  pub sender : Sender
  pub slots : ℕ → Option Answer
  pub failed : Option (ℕ × String)
  pub parent : Option String
  pub child : Bool

-- `runParallel` before its goroutines have run. A parent that is cancelled already is one that is
-- cancelled at once.
abbrev pub initial : Shared
initial = record {
  sender = checking 0;
  slots = λ k. none;
  failed = none;
  parent = none;
  child = false;
}

abbrev pub is_some {ℓ} : {A : Type ℓ} → Option A → Bool
is_some none = false
is_some (some a) = true

-- A failure is recorded, or the parent is cancelled.
abbrev pub halted : Shared → Bool
halted s = is_some s.failed || is_some s.parent

-- The shared state, and where each worker stands.
pub record System : Type 0 where
  pub shared : Shared
  pub pc : ℕ → Pc

module _ (callback : ℕ → Result String Answer) (len : ℕ) where
  -- The moves of a worker. `recordFailure` holds its mutex throughout.
  pub data Move (s : Shared) : Pc → Shared → Pc → Type 0 where
    see_done : s.child ≡ true → Move s waiting s stopped
    receive :
        (k : ℕ)
        → s.sender ≡ offering k
        → Move s waiting (record s { sender = checking (k + 1) }) (admitted k)
    see_closed : (k : ℕ) → s.sender ≡ closed k → Move s waiting s stopped
    drop_admitted : (k : ℕ) → s.child ≡ true → Move s (admitted k) s stopped
    keep_admitted : (k : ℕ) → s.child ≡ false → Move s (admitted k) s (checked k)
    drop_checked : (k : ℕ) → s.child ≡ true → Move s (checked k) s stopped
    enter : (k : ℕ) → s.child ≡ false → Move s (checked k) s (running k)
    raise : (k : ℕ) (e : String) → callback k ≡ err e → Move s (running k) s (failing k e)
    finish : (k : ℕ) (r : Answer) → callback k ≡ ok r → Move s (running k) s (returned k r)
    record_failure :
        (k : ℕ) (e : String)
        → halted s ≡ false
        → Move s (failing k e) (record s { failed = some (k, e); child = true }) stopped
    ignore_failure : (k : ℕ) (e : String) → halted s ≡ true → Move s (failing k e) s stopped
    discard : (k : ℕ) (r : Answer) → is_some s.parent ≡ true → Move s (returned k r) s stopped
    accept : (k : ℕ) (r : Answer) → is_some s.parent ≡ false → Move s (returned k r) s (storing k r)
    write :
        (k : ℕ) (r : Answer)
        → Move s (storing k r) (record s { slots = update s.slots k (some r) }) waiting

  -- The moves of the sender.
  pub data Send (s : Shared) : Shared → Type 0 where
    offer :
        (k : ℕ)
        → s.sender ≡ checking k
        → k < len
        → s.child ≡ false
        → Send s (record s { sender = offering k })
    break_checking :
        (k : ℕ) → s.sender ≡ checking k → s.child ≡ true → Send s (record s { sender = closed k })
    break_offering :
        (k : ℕ) → s.sender ≡ offering k → s.child ≡ true → Send s (record s { sender = closed k })
    all_sent : (k : ℕ) → s.sender ≡ checking k → len ≤ k → Send s (record s { sender = closed k })

  -- The parent may be cancelled at any time, and the child is done some time after.
  pub data World (s : Shared) : Shared → Type 0 where
    cancel_parent : (e : String) → s.parent ≡ none → World s (record s { parent = some e })
    propagate : is_some s.parent ≡ true → s.child ≡ false → World s (record s { child = true })

  -- The system of `n` workers.
  pub data Step (n : ℕ) (s : System) : System → Type 0 where
    worker :
        (w : ℕ) {s' : Shared} {p' : Pc}
        → w < n
        → Move s.shared (s.pc w) s' p'
        → Step n s (record { shared = s'; pc = update s.pc w p' })
    sender : {s' : Shared} → Send s.shared s' → Step n s (record { shared = s'; pc = s.pc })
    world : {s' : Shared} → World s.shared s' → Step n s (record { shared = s'; pc = s.pc })

  pub data Reach (n : ℕ) : System → Type 0 where
    start : Reach n (record { shared = initial; pc = λ w. waiting })
    next : {s t : System} → Reach n s → Step n s t → Reach n t

-- `wg.Wait` returns behind the loop of the sender, once every worker has.
abbrev pub IsFinal : ℕ → System → Type 0
IsFinal n s = ((k : ℕ) × (s.shared.sender ≡ closed k)) × ((w : ℕ) → w < n → s.pc w ≡ stopped)

abbrev pub slot : Option Answer → Answer
slot (some r) = r
slot none = record { value = null; error = "" }

-- The slice of results, from an index on; a slot that nobody wrote is the zero value.
pub collect : (ℕ → Option Answer) → ℕ → ℕ → List Answer
collect slots i zero = []
collect slots i (suc n) = slot (slots i) ∷ collect slots (i + 1) n

abbrev pub returned_of : Option (ℕ × String) → Option String → List Answer → Dispatched
returned_of (some (k, e)) parent rs = failure k e
returned_of none (some e) rs = cancelled e
returned_of none none rs = results rs

-- What `runParallel` returns at the end.
unfoldable pub return_value : ℕ → Shared → Dispatched
unfolding collect
return_value len s = returned_of s.failed s.parent (collect s.slots 0 len)
