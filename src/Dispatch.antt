-- ===== src/Dispatch.antt =====
-- internal/backend/batchdispatch/batchdispatch.go: `Run` with a bound of one or less. The callback is
-- a function of the index and the judgement, each index being called once at most, and the contexts
-- are what they answer when they are asked, in turn.
pub mod Order
pub mod Parallel
use ajq.Prelude.{ℕ, ◌+◌, String, List, [], ◌∷◌, Option, none, some}
use ajq.Result.{Result, ok, err}
use ajq.Backend.{Judgement, Answer}
use ajq.Input.Window.{poll}

-- `failure` is a Failure with the index of the callback.
pub data Dispatched : Type 0 where
  results : List Answer → Dispatched
  cancelled : String → Dispatched
  failure : ℕ → String → Dispatched

abbrev pub prepend : Answer → Dispatched → Dispatched
prepend r (results rs) = results (r ∷ rs)
prepend r other = other

module _ (run : ℕ → Judgement → Result String Answer) where
  -- The context is asked behind the callback, whichever way that ended.
  pub after_callback :
      (List (Option String) → Dispatched)
      → ℕ
      → Result String Answer
      → Option String × List (Option String)
      → Dispatched
  after_callback rest i answer (some e, polls) = cancelled e
  after_callback rest i (err e) (none, polls) = failure i e
  after_callback rest i (ok r) (none, polls) = prepend r (rest polls)

  pub second_poll :
      (List (Option String) → Dispatched)
      → ℕ
      → Judgement
      → Option String × List (Option String)
      → Dispatched
  second_poll rest i j (some e, polls) = cancelled e
  second_poll rest i j (none, polls) = after_callback rest i (run i j) (poll polls)

  pub first_poll :
      (List (Option String) → Dispatched)
      → ℕ
      → Judgement
      → Option String × List (Option String)
      → Dispatched
  first_poll rest i j (some e, polls) = cancelled e
  first_poll rest i j (none, polls) = second_poll rest i j (poll polls)

  -- `runSequential`, from index `i` on.
  unfoldable pub run_sequential : ℕ → List Judgement → List (Option String) → Dispatched
  unfolding first_poll second_poll after_callback
  run_sequential i [] polls = results []
  run_sequential i (j ∷ js) polls = first_poll (run_sequential (i + 1) js) i j (poll polls)
