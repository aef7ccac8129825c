-- ===== src/Tests/Queries.antt =====
-- Queries with the match operators.
use ajq.Prelude.{◌-◌, true, arith, length, [], ◌∷◌, Bytes, ◌≡◌, refl}
use ajq.Result.{ok, err}
use ajq.Desugar.Scan.{missing_operand, unterminated_string}
use ajq.Desugar.Operand.{
  comment_turn, no_comment, ground_level, operator_turn, no_operator, depth_turn, depths_ok,
}
use ajq.Desugar.Operand.Left.{control_turn, no_control, left_turn, last_one}
use ajq.Desugar.Operand.Right.{if_turn, no_end, right_turn, right_finish}
use ajq.Desugar.Operand.Rounds.{operand_loops-AlwaysEnds}
use ajq.Desugar.Loop.Laws.{AlwaysEnds}
use ajq.Desugar.Rewrite.{weight, operands, rewrite_to_depth, rewrite}
use ajq.Desugar.Rewrite.Sides.{AreSliced, operands-AreSliced}
use ajq.Desugar.Rewrite.Strings.{IsLight}
use ajq.Desugar.Rewrite.Terminates.{rewrite-IsLight}
use ajq.Desugar.Rewrite.Unchanged.Copies.{IsUnchanged}
use ajq.Desugar.Rewrite.Unchanged.{rewrite-IsUnchanged}

-- .x =~ "s"
match_field :
    rewrite (46 ∷ 120 ∷ 32 ∷ 61 ∷ 126 ∷ 32 ∷ 34 ∷ 115 ∷ 34 ∷ [])
    ≡ ok (
        115 ∷ 101 ∷ 109 ∷ 95 ∷ 109 ∷ 97 ∷ 116 ∷ 99 ∷ 104 ∷ 40 ∷ 46 ∷ 120 ∷ 59 ∷ 32 ∷ 34 ∷ 115 ∷ 34
        ∷ 41 ∷ [])
unfolding rewrite_to_depth
match_field = refl

-- . !~ "s"
match_dot :
    rewrite (46 ∷ 32 ∷ 33 ∷ 126 ∷ 32 ∷ 34 ∷ 115 ∷ 34 ∷ [])
    ≡ ok (
        40 ∷ 115 ∷ 101 ∷ 109 ∷ 95 ∷ 109 ∷ 97 ∷ 116 ∷ 99 ∷ 104 ∷ 40 ∷ 34 ∷ 115 ∷ 34 ∷ 41 ∷ 32 ∷ 124
        ∷ 32 ∷ 110 ∷ 111 ∷ 116 ∷ 41 ∷ [])
unfolding rewrite_to_depth
match_dot = refl

-- if .a =~ "x" then .b else .c end
in_condition :
    rewrite (
      105 ∷ 102 ∷ 32 ∷ 46 ∷ 97 ∷ 32 ∷ 61 ∷ 126 ∷ 32 ∷ 34 ∷ 120 ∷ 34 ∷ 32 ∷ 116 ∷ 104 ∷ 101 ∷ 110
      ∷ 32 ∷ 46 ∷ 98 ∷ 32 ∷ 101 ∷ 108 ∷ 115 ∷ 101 ∷ 32 ∷ 46 ∷ 99 ∷ 32 ∷ 101 ∷ 110 ∷ 100 ∷ [])
    ≡ ok (
        105 ∷ 102 ∷ 32 ∷ 115 ∷ 101 ∷ 109 ∷ 95 ∷ 109 ∷ 97 ∷ 116 ∷ 99 ∷ 104 ∷ 40 ∷ 46 ∷ 97 ∷ 59 ∷ 32
        ∷ 34 ∷ 120 ∷ 34 ∷ 41 ∷ 32 ∷ 116 ∷ 104 ∷ 101 ∷ 110 ∷ 32 ∷ 46 ∷ 98 ∷ 32 ∷ 101 ∷ 108 ∷ 115
        ∷ 101 ∷ 32 ∷ 46 ∷ 99 ∷ 32 ∷ 101 ∷ 110 ∷ 100 ∷ [])
unfolding rewrite_to_depth
in_condition = refl

-- "\(.m =~ "u")"
in_string :
    rewrite (34 ∷ 92 ∷ 40 ∷ 46 ∷ 109 ∷ 32 ∷ 61 ∷ 126 ∷ 32 ∷ 34 ∷ 117 ∷ 34 ∷ 41 ∷ 34 ∷ [])
    ≡ ok (
        34 ∷ 92 ∷ 40 ∷ 115 ∷ 101 ∷ 109 ∷ 95 ∷ 109 ∷ 97 ∷ 116 ∷ 99 ∷ 104 ∷ 40 ∷ 46 ∷ 109 ∷ 59 ∷ 32
        ∷ 34 ∷ 117 ∷ 34 ∷ 41 ∷ 41 ∷ 34 ∷ [])
unfolding rewrite_to_depth
in_string = refl

-- .m # c  =~ "u"|.b =~"y"
behind_comment :
    rewrite (
      46 ∷ 109 ∷ 32 ∷ 35 ∷ 32 ∷ 99 ∷ 10 ∷ 32 ∷ 61 ∷ 126 ∷ 32 ∷ 34 ∷ 117 ∷ 34 ∷ 124 ∷ 46 ∷ 98 ∷ 32
      ∷ 61 ∷ 126 ∷ 34 ∷ 121 ∷ 34 ∷ [])
    ≡ ok (
        115 ∷ 101 ∷ 109 ∷ 95 ∷ 109 ∷ 97 ∷ 116 ∷ 99 ∷ 104 ∷ 40 ∷ 46 ∷ 109 ∷ 59 ∷ 32 ∷ 34 ∷ 117 ∷ 34
        ∷ 41 ∷ 124 ∷ 115 ∷ 101 ∷ 109 ∷ 95 ∷ 109 ∷ 97 ∷ 116 ∷ 99 ∷ 104 ∷ 40 ∷ 46 ∷ 98 ∷ 59 ∷ 32 ∷ 34
        ∷ 121 ∷ 34 ∷ 41 ∷ [])
unfolding rewrite_to_depth
behind_comment = refl

-- if .a then .b else .c end =~ "x"
on_control :
    rewrite (
      105 ∷ 102 ∷ 32 ∷ 46 ∷ 97 ∷ 32 ∷ 116 ∷ 104 ∷ 101 ∷ 110 ∷ 32 ∷ 46 ∷ 98 ∷ 32 ∷ 101 ∷ 108 ∷ 115
      ∷ 101 ∷ 32 ∷ 46 ∷ 99 ∷ 32 ∷ 101 ∷ 110 ∷ 100 ∷ 32 ∷ 61 ∷ 126 ∷ 32 ∷ 34 ∷ 120 ∷ 34 ∷ [])
    ≡ ok (
        115 ∷ 101 ∷ 109 ∷ 95 ∷ 109 ∷ 97 ∷ 116 ∷ 99 ∷ 104 ∷ 40 ∷ 105 ∷ 102 ∷ 32 ∷ 46 ∷ 97 ∷ 32 ∷ 116
        ∷ 104 ∷ 101 ∷ 110 ∷ 32 ∷ 46 ∷ 98 ∷ 32 ∷ 101 ∷ 108 ∷ 115 ∷ 101 ∷ 32 ∷ 46 ∷ 99 ∷ 32 ∷ 101
        ∷ 110 ∷ 100 ∷ 59 ∷ 32 ∷ 34 ∷ 120 ∷ 34 ∷ 41 ∷ [])
unfolding rewrite_to_depth
on_control = refl

-- .f |= .m =~ try "a" catch "b"
in_assignment :
    rewrite (
      46 ∷ 102 ∷ 32 ∷ 124 ∷ 61 ∷ 32 ∷ 46 ∷ 109 ∷ 32 ∷ 61 ∷ 126 ∷ 32 ∷ 116 ∷ 114 ∷ 121 ∷ 32 ∷ 34 ∷ 97
      ∷ 34 ∷ 32 ∷ 99 ∷ 97 ∷ 116 ∷ 99 ∷ 104 ∷ 32 ∷ 34 ∷ 98 ∷ 34 ∷ [])
    ≡ ok (
        46 ∷ 102 ∷ 32 ∷ 124 ∷ 61 ∷ 32 ∷ 115 ∷ 101 ∷ 109 ∷ 95 ∷ 109 ∷ 97 ∷ 116 ∷ 99 ∷ 104 ∷ 40 ∷ 46
        ∷ 109 ∷ 59 ∷ 32 ∷ 116 ∷ 114 ∷ 121 ∷ 32 ∷ 34 ∷ 97 ∷ 34 ∷ 32 ∷ 99 ∷ 97 ∷ 116 ∷ 99 ∷ 104 ∷ 32
        ∷ 34 ∷ 98 ∷ 34 ∷ 41 ∷ [])
unfolding rewrite_to_depth
in_assignment = refl

no_right_operand : rewrite (46 ∷ 109 ∷ 32 ∷ 61 ∷ 126 ∷ []) ≡ err (missing_operand 3)
unfolding rewrite_to_depth
no_right_operand = refl

-- An open string is refused.
open_string : rewrite (46 ∷ 34 ∷ 97 ∷ []) ≡ err unterminated_string
unfolding rewrite_to_depth
open_string = refl

-- .m # c\n=~"\(.k)"
abbrev matching_query : Bytes
matching_query =
    46 ∷ 109 ∷ 32 ∷ 35 ∷ 32 ∷ 99 ∷ 10 ∷ 61 ∷ 126 ∷ 34 ∷ 92 ∷ 40 ∷ 46 ∷ 107 ∷ 41 ∷ 34 ∷ []

rewrite-IsLight_example : IsLight (weight matching_query) (rewrite matching_query)
rewrite-IsLight_example = rewrite-IsLight matching_query

-- .a|.b
abbrev plain_query : Bytes
plain_query = 46 ∷ 97 ∷ 124 ∷ 46 ∷ 98 ∷ []

rewrite-IsUnchanged_example : IsUnchanged plain_query (rewrite plain_query)
rewrite-IsUnchanged_example =
    rewrite-IsUnchanged plain_query (refl, (refl, (refl, (refl, (refl, tt)))))

operand_loops-AlwaysEnds_example :
    AlwaysEnds (operator_turn matching_query) no_operator (length matching_query - 1)
    × AlwaysEnds (depth_turn matching_query) depths_ok 7
    × AlwaysEnds (control_turn matching_query 7 ground_level) no_control 7
    × AlwaysEnds (left_turn matching_query ground_level) last_one 7
    × AlwaysEnds (if_turn matching_query) no_end (length matching_query)
    × AlwaysEnds
        (right_turn matching_query true)
        (right_finish matching_query)
        (length matching_query)
    × AlwaysEnds (comment_turn matching_query 7) no_comment 7
operand_loops-AlwaysEnds_example =
    operand_loops-AlwaysEnds matching_query 7 ground_level true (omega arith)

operands-AreSliced_example : AreSliced matching_query 7 (operands matching_query 7)
operands-AreSliced_example = operands-AreSliced matching_query 7
