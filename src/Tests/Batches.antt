-- ===== src/Tests/Batches.antt =====
-- Dispatching a batch, and harvesting a frame.
use ajq.Prelude.{ℕ, zero, suc, String, List, [], ◌∷◌, ◌++◌, Option, none, some, ◌≡◌, refl}
use ajq.Result.{Result, ok, err}
use ajq.Value.{Value, str}
use ajq.Backend.{Judgement, Answer}
use ajq.Dispatch.{failure, run_sequential}
use ajq.Dispatch.Order.{IsExplained, run_sequential-IsExplained}
use ajq.Engine.{Runtime, EngineError, unsafe_harvest}
use ajq.Engine.Callback.{harvest_append}
use ajq.Engine.Harvest.{IsTransaction, harvest_append-IsTransaction}
use ajq.Tests.Fixtures.{entries, matching, two_frames, yes}

-- The second callback fails.
abbrev flaky : ℕ → Judgement → Result String Answer
flaky zero j = ok yes
flaky (suc i) j = err "timeout"

abbrev batch_of_three : List Judgement
batch_of_three = matching "a" ∷ matching "b" ∷ matching "c" ∷ []

flaky_fails : run_sequential flaky 0 batch_of_three [] ≡ failure 1 "timeout"
unfolding run_sequential
flaky_fails = refl

run_sequential-IsExplained_example :
    IsExplained flaky 0 batch_of_three
      (none ∷ none ∷ [])
      (run_sequential flaky 0 batch_of_three (none ∷ none ∷ []))
run_sequential-IsExplained_example =
    run_sequential-IsExplained flaky 0 batch_of_three (none ∷ none ∷ [])

-- A run that collects a judgement and then fails.
abbrev half_run : Value → Runtime entries → Option EngineError × Runtime entries
half_run v rt = (
  some (unsafe_harvest "sem_extract"),
  record rt {
    collected = rt.collected ++ matching "late" ∷ [];
    collected_frames = rt.collected_frames ++ 2 ∷ [];
  },
)

harvest_append-IsTransaction_example :
    IsTransaction entries two_frames
      (matching "late" ∷ [])
      (2 ∷ [])
      (harvest_append entries half_run two_frames (str "text") 2)
harvest_append-IsTransaction_example =
    harvest_append-IsTransaction entries half_run two_frames (str "text") 2 (matching "late" ∷ [])
      (2 ∷ []) refl refl
