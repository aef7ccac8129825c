-- ===== src/Dispatch/Order.antt =====
-- Results in input order.
use ajq.Prelude.{
  ℕ, ◌+◌, String, List, [], ◌∷◌, Option, none, some, ◌≡◌, ◌⊎◌, inl, inr, refl, Any, here, there,
}
use ajq.Result.{Result, ok, err}
use ajq.Backend.{Judgement, Answer}
use ajq.Input.Window.{poll}
use ajq.Dispatch.{
  Dispatched, results, cancelled, failure, prepend, after_callback, second_poll, first_poll,
  run_sequential,
}

module _ (run : ℕ → Judgement → Result String Answer) where
  -- A result for each judgement, in its place.
  abbrev pub AreResults : ℕ → List Judgement → List Answer → Type 0
  AreResults i [] [] = Unit
  AreResults i (j ∷ js) (r ∷ rs) = (run i j ≡ ok r) × AreResults (i + 1) js rs
  AreResults i _ _ = ⊥

  -- The callback of index `k` fails with `e`, and those before it do not.
  abbrev pub FailsAt : ℕ → List Judgement → ℕ → String → Type 0
  FailsAt i [] k e = ⊥
  FailsAt i (j ∷ js) k e =
      ((k ≡ i) × (run i j ≡ err e)) ⊎ ((r : Answer) × (run i j ≡ ok r) × FailsAt (i + 1) js k e)

  abbrev pub IsExplained : ℕ → List Judgement → List (Option String) → Dispatched → Type 0
  IsExplained i js polls (results rs) = AreResults i js rs
  IsExplained i js polls (failure k e) = FailsAt i js k e
  IsExplained i js polls (cancelled e) = Any (λ p. p ≡ some e) polls

  -- What the rest explains, the whole does.
  prepend-IsExplained :
      (i : ℕ) (j : Judgement) (js : List Judgement) (r : Answer) (d : Dispatched)
      (before polls : List (Option String))
      → run i j ≡ ok r
      → ((e : String) → Any (λ p. p ≡ some e) before → Any (λ p. p ≡ some e) polls)
      → IsExplained (i + 1) js before d
      → IsExplained i (j ∷ js) polls (prepend r d)
  prepend-IsExplained i j js r (results rs) before polls same asked h = (same, h)
  prepend-IsExplained i j js r (failure k e) before polls same asked h = inr (r, same, h)
  prepend-IsExplained i j js r (cancelled e) before polls same asked h = asked e h

  -- What the context answers next, and what is left, are among its answers.
  Asked : List (Option String) → Option String × List (Option String) → Type 0
  Asked polls (p, rest) =
      (e : String) → ((p ≡ some e) ⊎ Any (λ q. q ≡ some e) rest) → Any (λ q. q ≡ some e) polls

  poll-Asked : (polls : List (Option String)) → Asked polls (poll polls)
  unfolding Asked
  poll-Asked [] e (inl h) = cc h
  poll-Asked [] e (inr h) = h
  poll-Asked (p ∷ polls) e (inl h) = here h
  poll-Asked (p ∷ polls) e (inr h) = there h

  after_callback-IsExplained :
      (rest : List (Option String) → Dispatched) (i : ℕ) (j : Judgement) (js : List Judgement)
      (answer : Result String Answer) (polls : List (Option String))
      (x : Option String × List (Option String))
      → run i j ≡ answer
      → Asked polls x
      → ((ps : List (Option String)) → IsExplained (i + 1) js ps (rest ps))
      → IsExplained i (j ∷ js) polls (after_callback run rest i answer x)
  unfolding after_callback Asked
  after_callback-IsExplained rest i j js answer polls (some e, ps) same asked ih =
      asked e (inl refl)
  after_callback-IsExplained rest i j js (err e) polls (none, ps) same asked ih = inl (refl, same)
  after_callback-IsExplained rest i j js (ok r) polls (none, ps) same asked ih =
      prepend-IsExplained i j js r (rest ps) ps polls same (λ e h. asked e (inr h)) (ih ps)

  second_poll-IsExplained :
      (rest : List (Option String) → Dispatched) (i : ℕ) (j : Judgement) (js : List Judgement)
      (polls : List (Option String)) (x : Option String × List (Option String))
      → Asked polls x
      → ((ps : List (Option String)) → IsExplained (i + 1) js ps (rest ps))
      → IsExplained i (j ∷ js) polls (second_poll run rest i j x)
  unfolding second_poll Asked
  second_poll-IsExplained rest i j js polls (some e, ps) asked ih = asked e (inl refl)
  second_poll-IsExplained rest i j js polls (none, ps) asked ih =
      after_callback-IsExplained rest i j js (run i j) polls (poll ps) refl
        (λ e h. asked e (inr (poll-Asked ps e h))) ih

  first_poll-IsExplained :
      (rest : List (Option String) → Dispatched) (i : ℕ) (j : Judgement) (js : List Judgement)
      (polls : List (Option String)) (x : Option String × List (Option String))
      → Asked polls x
      → ((ps : List (Option String)) → IsExplained (i + 1) js ps (rest ps))
      → IsExplained i (j ∷ js) polls (first_poll run rest i j x)
  unfolding first_poll Asked
  first_poll-IsExplained rest i j js polls (some e, ps) asked ih = asked e (inl refl)
  first_poll-IsExplained rest i j js polls (none, ps) asked ih =
      second_poll-IsExplained rest i j js polls (poll ps) (λ e h. asked e (inr (poll-Asked ps e h)))
        ih

  -- A sequential dispatch gives a result of the callback for each judgement, in input order; or the
  -- first failure, with its index; or an error that the context has answered. It gives nothing else,
  -- so one that is not cancelled and whose callbacks do not fail gives all results.
  pub run_sequential-IsExplained :
      (i : ℕ) (js : List Judgement) (polls : List (Option String))
      → IsExplained i js polls (run_sequential run i js polls)
  unfolding run_sequential
  run_sequential-IsExplained i [] polls = tt
  run_sequential-IsExplained i (j ∷ js) polls =
      first_poll-IsExplained (run_sequential run (i + 1) js) i j js polls (poll polls)
        (poll-Asked polls) (λ ps. run_sequential-IsExplained (i + 1) js ps)
