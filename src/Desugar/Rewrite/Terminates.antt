-- ===== src/Desugar/Rewrite/Terminates.antt =====
-- The recursion of `Rewrite` comes to an end: each of its calls is of a lighter text.
use ajq.Prelude.{
  ℕ, zero, suc, ◌+◌, ◌≤◌, ◌<◌, Bool, Option, none, some, Bytes, ◌≡◌, ◌≢◌, refl, arith, length, take,
  drop,
}
use ajq.Result.{Result, ok, err}
use ajq.Desugar.Scan.{RewriteError, out_of_fuel, at, slice}
use ajq.Desugar.Operand.{next_operator}
use ajq.Desugar.Rewrite.{
  trim_space, Operands, operands, rewrite_interpolations, right_rewritten, left_rewritten,
  rewrite_at, operators_from, byte_weight, weight, operators_in, rewrite_to_depth, rewrite,
}
use ajq.Desugar.Rewrite.Weight.{
  weight-take, weight-slice, weight-drop_two, weight-trim_space, weight-replaced,
}
use ajq.Desugar.Rewrite.Strings.{IsLight, IsLight-weaken, rewrite_interpolations-IsLight}
use ajq.Desugar.Rewrite.Sides.{AreBeside, operands-AreBeside, IsOperator, next_operator-IsOperator}

-- What is done with an operator takes its `~` away.
abbrev IsLighter : ℕ → Result RewriteError (Bytes × ℕ) → Type 0
IsLighter w (ok (text, next)) = weight text < w
IsLighter w (err e) = e ≢ out_of_fuel

-- The weights of what an operator stands between.
shares :
    (out : Bytes) (op : ℕ) (o : Operands)
    → op + 1 < length out
    → at out (op + 1) ≡ 126
    → AreBeside op (ok o)
    → weight (take o.left_start out)
        + (weight (slice out o.left_start o.left_end)
            + (weight (slice out o.right_start o.right_end) + weight (drop o.right_end out)))
      < weight out
shares out op o inside tilde (left, to_op, from_op, right) = omega (
  arith,
  weight-take o.left_start out,
  weight-slice out o.left_start o.left_end (omega arith),
  weight-slice out o.left_end op to_op,
  weight-drop_two out op inside,
  one,
  weight-slice out (op + 2) o.right_start from_op,
  weight-slice out o.right_start o.right_end (omega arith),
)
  where
    one : byte_weight (at out (op + 1)) ≡ 1
    one = rw tilde refl

module _ (again : Bytes → Result RewriteError Bytes) (n : ℕ)
    (calls : (s : Bytes) → weight s < n → IsLight (weight s) (again s)) where
  module _ (out : Bytes) (op : ℕ) (negated : Bool) (light : weight out ≤ n)
      (inside : op + 1 < length out) (tilde : at out (op + 1) ≡ 126) where
    right_rewritten-IsLighter :
        (o : Operands) (left : Bytes) (r : Result RewriteError Bytes)
        → AreBeside op (ok o)
        → weight left ≤ weight (slice out o.left_start o.left_end)
        → IsLight (weight (slice out o.right_start o.right_end)) r
        → IsLighter (weight out) (right_rewritten again out negated o left r)
    right_rewritten-IsLighter o left (err e) beside le h = h
    right_rewritten-IsLighter o left (ok right) beside le h =
        omega (arith, weight-replaced out negated o left right, shares out op o inside tilde beside)

    -- The call of a trimmed operand.
    operand-IsLight :
        (a b : ℕ)
        → weight (slice out a b) < n
        → IsLight (weight (slice out a b)) (again (trim_space (slice out a b)))
    operand-IsLight a b lt =
        IsLight-weaken (again (trim_space (slice out a b))) (weight-trim_space (slice out a b))
          (calls (trim_space (slice out a b)) (omega (arith, weight-trim_space (slice out a b))))

    left_rewritten-IsLighter :
        (o : Operands) (r : Result RewriteError Bytes)
        → AreBeside op (ok o)
        → IsLight (weight (slice out o.left_start o.left_end)) r
        → IsLighter (weight out) (left_rewritten again out negated o r)
    left_rewritten-IsLighter o (err e) beside h = h
    left_rewritten-IsLighter o (ok left) beside h =
        right_rewritten-IsLighter o left (again (trim_space (slice out o.right_start o.right_end)))
          beside h
          (operand-IsLight o.right_start o.right_end
            (omega (arith, shares out op o inside tilde beside)))

    rewrite_at-IsLighter :
        (r : Result RewriteError Operands)
        → AreBeside op r
        → IsLighter (weight out) (rewrite_at again out negated r)
    rewrite_at-IsLighter (err e) h = h
    rewrite_at-IsLighter (ok o) beside =
        left_rewritten-IsLighter o (again (trim_space (slice out o.left_start o.left_end))) beside (
          operand-IsLight o.left_start o.left_end
            (omega (arith, shares out op o inside tilde beside)))

  operators_from-IsLight :
      (m : ℕ) (out : Bytes) (from : ℕ)
      → weight out < m
      → weight out ≤ n
      → IsLight (weight out) (operators_from again m out from)
  unfolding operators_from
  operators_from-IsLight zero out from enough light = absurd (omega arith)
  operators_from-IsLight (suc m) out from enough light =
      found (next_operator out from) (next_operator-IsOperator out from)
        (λ text next. operators_from-IsLight m text next)
    where
      Later : Type 0
      Later =
          (text : Bytes) (next : ℕ)
          → weight text < m
          → weight text ≤ n
          → IsLight (weight text) (operators_from again m text next)

      on :
          (r : Result RewriteError (Bytes × ℕ))
          → IsLighter (weight out) r
          → Later
          → IsLight
              (weight out)
              (elim r [ err e ↦ err e | ok (text, next) ↦ operators_from again m text next ])
      on (err e) h rest = h
      on (ok (text, next)) h rest =
          IsLight-weaken (operators_from again m text next) (omega (arith, h))
            (rest text next (omega (arith, h)) (omega (arith, h)))

      found :
          (o : Option (ℕ × Bool))
          → IsOperator out o
          → Later
          → IsLight (weight out) (elim o [
            | none ↦ ok out
            | some (op, negated) ↦ elim (rewrite_at again out negated (operands out op)) [
              | err e ↦ err e
              | ok (text, next) ↦ operators_from again m text next
            ]
          ])
      found none h rest = omega arith
      found (some (op, negated)) (inside, tilde) rest =
          on (rewrite_at again out negated (operands out op))
            (rewrite_at-IsLighter out op negated light inside tilde (operands out op)
              (operands-AreBeside out op))
            rest

  operators_in-IsLight :
      (w : ℕ) (r : Result RewriteError Bytes)
      → w ≤ n
      → IsLight w r
      → IsLight w (operators_in again r)
  operators_in-IsLight w (err e) le h = h
  operators_in-IsLight w (ok out) le h =
      IsLight-weaken (operators_from again (weight out + 1) out 0) h
        (operators_from-IsLight (weight out + 1) out 0 (omega arith) (omega (arith, h)))

rewrite_to_depth-IsLight :
    (n : ℕ) (src : Bytes) → weight src < n → IsLight (weight src) (rewrite_to_depth n src)
unfolding rewrite_to_depth
rewrite_to_depth-IsLight zero src lt = absurd (omega arith)
rewrite_to_depth-IsLight (suc n) src lt =
    operators_in-IsLight (rewrite_to_depth n) n (λ s less. rewrite_to_depth-IsLight n s less)
      (weight src) (rewrite_interpolations (rewrite_to_depth n) src) (omega arith)
      (rewrite_interpolations-IsLight (rewrite_to_depth n) n
        (λ s less. rewrite_to_depth-IsLight n s less) src (omega arith))

-- `Rewrite` never ends with the model's error for want of fuel: its recursion is no deeper than the
-- number of the query's bytes that are `~` or a backslash, and one call more, and the loops that write
-- out code and string literals and that go from operator to operator have the rounds that they need.
-- It gives a text with no more such bytes than the query, or one of the errors of the source. The loops
-- over positions and the trimming loops, which have no such error, are not the subject here.
pub rewrite-IsLight : (src : Bytes) → IsLight (weight src) (rewrite src)
rewrite-IsLight src = rewrite_to_depth-IsLight (weight src + 1) src (omega arith)
