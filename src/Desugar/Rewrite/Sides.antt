-- ===== src/Desugar/Rewrite/Sides.antt =====
-- Where an operator and its operands lie.
use ajq.Prelude.{
  ℕ, ◌+◌, ◌-◌, ◌≤◌, ◌<◌, Bool, ◌&&◌, Option, none, some, Bytes, ltb, ◌≡◌, ◌≢◌, arith, ◌==◌, length,
  Bool-cases, inl, inr,
}
use ajq.Result.{Result, ok, err}
use ajq.Desugar.Loop.{NoState, no_state}
use ajq.Desugar.Loop.Laws.{TurnHolds, rounds-Holds}
use ajq.Desugar.Scan.{RewriteError, out_of_fuel, at, skip_jq_string}
use ajq.Desugar.Operand.{past_string, operator_turn, no_operator, next_operator, trim_right_start}
use ajq.Desugar.Operand.Bounds.{trim_left_end-bounded, trim_right_start-bounded}
use ajq.Desugar.Operand.Right.{right_operand_end}
use ajq.Desugar.Operand.Right.Within.{EndsWithin, right_operand_end-EndsWithin}
use ajq.Desugar.Operand.Right.Bounds.{IsProper, right_operand_end-IsProper}
use ajq.Desugar.Rewrite.{Operands, checked_operands, operands_to, operands}

-- The operands lie on their sides of the operator.
abbrev pub AreBeside : ℕ → Result RewriteError Operands → Type 0
AreBeside op (err e) = e ≢ out_of_fuel
AreBeside op (ok o) =
    (o.left_start < o.left_end)
    × (o.left_end ≤ op)
    × (op + 2 ≤ o.right_start)
    × (o.right_start < o.right_end)

pub operands-AreBeside : (out : Bytes) (op : ℕ) → AreBeside op (operands out op)
operands-AreBeside out op =
    from_end (right_operand_end out (trim_right_start out (op + 2)))
      (right_operand_end-IsProper out (trim_right_start out (op + 2)))
  where
    checked :
        (o : Operands)
        → o.left_end ≤ op
        → op + 2 ≤ o.right_start
        → AreBeside op (checked_operands op o)
    checked o left right =
        elim (Bool-cases (ltb o.left_start o.left_end && ltb o.right_start o.right_end)) [
          | inl e ↦ rw e (ground arith, left, right, ground arith)
          | inr e ↦ rw e (λ h. cc h)
        ]

    from_end :
        (r : Result RewriteError ℕ)
        → IsProper r
        → AreBeside op (operands_to out op (trim_right_start out (op + 2)) r)
    from_end (err e) h = h
    from_end (ok right_end) h =
        checked _ (trim_left_end-bounded out op) (trim_right_start-bounded out (op + 2))

-- An operator is two bytes of the text, the second of them `~`.
abbrev pub IsOperator : Bytes → Option (ℕ × Bool) → Type 0
IsOperator out none = Unit
IsOperator out (some (op, negated)) = (op + 1 < length out) × (at out (op + 1) ≡ 126)

pub next_operator-IsOperator : (out : Bytes) (from : ℕ) → IsOperator out (next_operator out from)
unfolding next_operator
next_operator-IsOperator out from =
    rounds-Holds (IsOperator out) (operator_turn out) no_operator (length out - 1) (λ s. tt) at_stop
      (length out - 1 - from) from no_state
  where
    past :
        (r : Result RewriteError ℕ)
        → TurnHolds (IsOperator out) (past_string (λ e. none) no_state r)
    past (ok next) = tt
    past (err e) = tt

    at_stop :
        (i : ℕ) (s : NoState)
        → i < length out - 1
        → TurnHolds (IsOperator out) (operator_turn out i s)
    at_stop i s lt = elim (Bool-cases (at out i == 35)) [
      | inl e ↦ rw e tt
      | inr e ↦ elim (Bool-cases (at out i == 34)) [
        | inl f ↦ rw (e, f) (past (skip_jq_string out i))
        | inr f ↦ elim (Bool-cases (at out i == 61 && at out (i + 1) == 126)) [
          | inl g ↦ rw (e, f, g) (omega arith, ground arith)
          | inr g ↦ elim (Bool-cases (at out i == 33 && at out (i + 1) == 126)) [
            | inl h ↦ rw (e, f, g, h) (omega arith, ground arith)
            | inr h ↦ rw (e, f, g, h) tt
          ]
        ]
      ]
    ]

-- What `Rewrite` slices for an operator.
abbrev pub AreSliced : Bytes → ℕ → Result RewriteError Operands → Type 0
AreSliced out op (err e) = Unit
AreSliced out op (ok o) =
    (o.left_start < o.left_end)
    × (o.left_end ≤ op)
    × (op + 2 ≤ o.right_start)
    × (o.right_start < o.right_end)
    × (o.right_end ≤ length out)

-- The operands that `Rewrite` finds for an operator are not empty, the left one ends before the
-- operator and the right one starts behind it and ends within the text: no slice of `Rewrite` is out
-- of range, and no operand overlaps the operator.
pub operands-AreSliced : (out : Bytes) (op : ℕ) → AreSliced out op (operands out op)
operands-AreSliced out op =
    from_end (right_operand_end out (trim_right_start out (op + 2)))
      (right_operand_end-EndsWithin out (trim_right_start out (op + 2)))
  where
    checked :
        (o : Operands)
        → o.left_end ≤ op
        → op + 2 ≤ o.right_start
        → o.right_end ≤ length out
        → AreSliced out op (checked_operands op o)
    checked o left right within =
        elim (Bool-cases (ltb o.left_start o.left_end && ltb o.right_start o.right_end)) [
          | inl e ↦ rw e (ground arith, left, right, ground arith, within)
          | inr e ↦ rw e tt
        ]

    from_end :
        (r : Result RewriteError ℕ)
        → EndsWithin out r
        → AreSliced out op (operands_to out op (trim_right_start out (op + 2)) r)
    from_end (err e) h = tt
    from_end (ok right_end) h =
        checked _ (trim_left_end-bounded out op) (trim_right_start-bounded out (op + 2)) h
