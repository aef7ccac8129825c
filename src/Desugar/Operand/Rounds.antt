-- ===== src/Desugar/Operand/Rounds.antt =====
-- Each loop over positions ends.
use ajq.Prelude.{ℕ, ◌+◌, ◌-◌, ◌≤◌, ◌<◌, Bool, Bytes, ltb, ◌==◌, arith, length}
use ajq.Result.{Result, ok, err}
use ajq.Desugar.Loop.{NoState}
use ajq.Desugar.Loop.Laws.{IsBeyond, if-IsBeyond, AlwaysEnds, loop-AlwaysEnds}
use ajq.Desugar.Scan.{RewriteError, at, skip_jq_string}
use ajq.Desugar.Scan.Bounds.{IsBehind, skip_jq_string-IsBehind}
use ajq.Desugar.Operand.{
  operator_turn, no_operator, Depths, depth_turn, depths_ok, within_limit, comment_turn, no_comment,
}
use ajq.Desugar.Operand.Bounds.{operator_turn-IsBeyond, depth_turn-IsBeyond}
use ajq.Desugar.Operand.Left.{control_turn, no_control, left_turn, last_one}
use ajq.Desugar.Operand.Left.Bounds.{control_turn-IsBeyond, left_turn-IsBeyond}
use ajq.Desugar.Operand.Right.{if_turn, no_end, right_turn, right_finish}
use ajq.Desugar.Operand.Right.Bounds.{if_turn-IsBeyond, right_turn-IsBeyond}

comment_turn-IsBeyond :
    (src : Bytes) (end i : ℕ) (s : NoState) → i < length src → IsBeyond i (comment_turn src end i s)
comment_turn-IsBeyond src end i s lt =
    if-IsBeyond i (at src i == 34) _ _
      (λ e. from_result (skip_jq_string src i) (skip_jq_string-IsBehind src i lt))
      (λ e. if-IsBeyond i (at src i == 35) _ _ (λ f. tt) (λ f. omega arith))
  where
    from_result :
        (r : Result RewriteError ℕ) → IsBehind (i + 1) src r → IsBeyond i (within_limit end r)
    from_result (err e) h = tt
    from_result (ok next) (less, le) =
        if-IsBeyond i (ltb end next) _ _ (λ e. tt) (λ e. omega (arith, less))

-- From any position and with any variables, the loops of the source in `nextOperator`, `depthAt`,
-- `controlLHSStart`, `leftOperandStart`, `controlRHSEnd`, `rightOperandEnd` and `commentStart`, which
-- have no bound on their rounds, come to an end in finitely many rounds, for limits within the text,
-- and with the result that the model's loop gives.
pub operand_loops-AlwaysEnds :
    (src : Bytes) (end : ℕ) (target : Depths) (ignore_catch : Bool)
    → end ≤ length src
    → AlwaysEnds (operator_turn src) no_operator (length src - 1)
      × AlwaysEnds (depth_turn src) depths_ok end
      × AlwaysEnds (control_turn src end target) no_control end
      × AlwaysEnds (left_turn src target) last_one end
      × AlwaysEnds (if_turn src) no_end (length src)
      × AlwaysEnds (right_turn src ignore_catch) (right_finish src) (length src)
      × AlwaysEnds (comment_turn src end) no_comment end
operand_loops-AlwaysEnds src end target ignore_catch le = (
  loop-AlwaysEnds (operator_turn src) no_operator (length src - 1)
      (λ i s lt. operator_turn-IsBeyond src i s lt),
  loop-AlwaysEnds (depth_turn src) depths_ok end
      (λ i s lt. depth_turn-IsBeyond src i s (omega arith)),
  loop-AlwaysEnds (control_turn src end target) no_control end
      (λ i s lt. control_turn-IsBeyond src end target i s (omega arith)),
  loop-AlwaysEnds (left_turn src target) last_one end
      (λ i s lt. left_turn-IsBeyond src target i s (omega arith)),
  loop-AlwaysEnds (if_turn src) no_end (length src) (λ i s lt. if_turn-IsBeyond src i s lt),
  loop-AlwaysEnds (right_turn src ignore_catch) (right_finish src) (length src)
      (λ i s lt. right_turn-IsBeyond src ignore_catch i s lt),
  loop-AlwaysEnds (comment_turn src end) no_comment end
      (λ i s lt. comment_turn-IsBeyond src end i s (omega arith)),
)
