-- ===== src/Tests/Parallel.antt =====
-- One worker on a batch of one judgement.
use ajq.Prelude.{ℕ, String, List, [], ◌∷◌, none, some, ◌≡◌, ◌≤◌, ◌+◌, ◌*◌, ◌<◌, ◌⊎◌, refl, arith}
use ajq.Result.{Result, ok}
use ajq.Backend.{Judgement, Answer}
use ajq.Dispatch.{results, run_sequential}
use ajq.Dispatch.Parallel.{
  update, checking, closed, waiting, admitted, checked, running, returned, storing, stopped,
  initial, see_closed, receive, keep_admitted, enter, finish, accept, write, offer, all_sent,
  System, worker, sender, IsFinal, Reach, start, next, return_value,
}
use ajq.Dispatch.Parallel.Bound.{steps, steps-bounded}
use ajq.Dispatch.Parallel.Outcome.{
  callback_at, IsOutcome, held_unique, return_value-IsOutcome, parallel-run_sequential,
}
use ajq.Dispatch.Parallel.Progress.{CanStep, Reach-CanStep}
use ajq.Tests.Fixtures.{matching, yes}

abbrev always : ℕ → Judgement → Result String Answer
always i j = ok yes

abbrev one_judgement : List Judgement
one_judgement = matching "a" ∷ []

abbrev answers : ℕ → Result String Answer
answers = callback_at always one_judgement

-- The index has been handed over, and the callback runs.
abbrev in_flight : System
in_flight = record {
  shared = record initial { sender = checking 1 };
  pc = update (update (update (λ w. waiting) 0 (admitted 0)) 0 (checked 0)) 0 (running 0);
}

abbrev in_flight_run : Reach answers 1 1 in_flight
in_flight_run =
    next
      (next
        (next (next start (sender (offer 0 refl (omega arith) refl)))
          (worker 0 (omega arith) (receive 0 refl)))
        (worker 0 (omega arith) (keep_admitted 0 refl)))
      (worker 0 (omega arith) (enter 0 refl))

abbrev finished : System
finished = record {
  shared = record initial { sender = closed 1; slots = update (λ k. none) 0 (some yes) };
  pc =
      update (update (update (update in_flight.pc 0 (returned 0 yes)) 0 (storing 0 yes)) 0 waiting)
        0 stopped;
}

abbrev whole_run : Reach answers 1 1 finished
whole_run =
    next
      (next
        (next
          (next (next in_flight_run (worker 0 (omega arith) (finish 0 yes refl)))
            (worker 0 (omega arith) (accept 0 yes refl)))
          (worker 0 (omega arith) (write 0 yes)))
        (sender (all_sent 1 refl (omega arith))))
      (worker 0 (omega arith) (see_closed 1 refl))

finished-IsFinal : IsFinal 1 finished
finished-IsFinal = ((1, refl), λ w lt. ground arith)

abbrev only_worker : ℕ
only_worker = 0

held_unique_example : (only_worker ≡ only_worker) × (0 < 1)
held_unique_example = held_unique answers 1 only_worker only_worker 0 in_flight_run refl refl

return_value-IsOutcome_example : IsOutcome answers 1 none (return_value 1 finished.shared)
return_value-IsOutcome_example = return_value-IsOutcome answers 1 whole_run finished-IsFinal

parallel-run_sequential_example : run_sequential always 0 one_judgement [] ≡ results (yes ∷ [])
unfolding return_value
parallel-run_sequential_example =
    parallel-run_sequential always one_judgement whole_run finished-IsFinal refl

Reach-CanStep_example : IsFinal 1 in_flight ⊎ CanStep answers 1 1 in_flight
Reach-CanStep_example = Reach-CanStep answers 1 1 (omega arith) in_flight_run

steps-bounded_example : steps whole_run ≤ 10 * 1 + 1 + 4
steps-bounded_example = steps-bounded whole_run
