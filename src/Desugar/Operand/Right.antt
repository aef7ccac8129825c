-- ===== src/Desugar/Operand/Right.antt =====
-- `rightOperandEnd` of internal/desugar/desugar.go.
pub mod Bounds
pub mod Within
use ajq.Prelude.{
  ℕ, zero, suc, ◌+◌, Bool, true, false, ◌||◌, ◌&&◌, List, [], ◌∷◌, ◌++◌, Option, none, some, Bytes,
  ◌==◌, if◌then◌else◌, length, drop,
}
use ajq.Result.{Result, ok, err}
use ajq.Value.{ℤ, pos, negsuc, up, down, int_eq}
use ajq.Desugar.Loop.{Turn, stop, go, rounds, loop}
use ajq.Desugar.Scan.{
  RewriteError, unterminated_if, unbalanced_operand, at, has_prefix, is_word_boundary_before,
  is_word_boundary_after, has_word_at, skip_line_comment, skip_jq_string,
}
use ajq.Desugar.Operand.{
  word_if, word_end, word_try, word_catch, right_words, past_string, trim_left_end, Depths,
  same_depths, ground_level, is_opening, bracket,
}

-- Where a right operand ends, or why there is none.
abbrev pub End : Type 0
End = Result RewriteError ℕ

pub record IfDepth : Type 0 where
  pub depths : Depths
  pub if_depth : ℤ

-- Closing what was not opened is passed over here.
abbrev pub lower : ℤ → ℤ
lower (pos (suc n)) = pos n
lower z = z

abbrev pub guarded_bracket : ℕ → Depths → Depths
guarded_bracket b d =
    if is_opening b
    then bracket b d
    else if b == 41
    then record d { paren = lower d.paren }
    else if b == 93
    then record d { square = lower d.square }
    else if b == 125
    then record d { brace = lower d.brace }
    else d

abbrev pub close_outer_if : ℕ → IfDepth → ℤ → Turn IfDepth End
close_outer_if i s d =
    if int_eq d (pos 0) then stop (ok (i + 3)) else go (i + 3) (record s { if_depth = d })

abbrev pub skip_bracket : Bytes → ℕ → IfDepth → Turn IfDepth End
skip_bracket src i s = go (i + 1) (record s { depths = guarded_bracket (at src i) s.depths })

abbrev pub if_turn : Bytes → ℕ → IfDepth → Turn IfDepth End
if_turn src i s =
    if at src i == 35
    then go (skip_line_comment src i) s
    else if at src i == 34
    then past_string err s (skip_jq_string src i)
    else if same_depths s.depths ground_level
    then (if has_word_at src i word_if
        then go (i + 2) (record s { if_depth = up s.if_depth })
        else if has_word_at src i word_end
        then close_outer_if i s (down s.if_depth)
        else skip_bracket src i s)
    else skip_bracket src i s

abbrev pub no_end : IfDepth → End
no_end s = err unterminated_if

-- `controlRHSEnd`; it does not apply where there is no `if`.
unfoldable pub control_rhs_end : Bytes → ℕ → Option End
unfolding rounds
control_rhs_end src start =
    if has_word_at src start word_if
    then some (
        loop (if_turn src) no_end (length src) start
          (record { depths = ground_level; if_depth = pos 0 }))
    else none

abbrev pub any_word : Bytes → ℕ → List Bytes → Bool
any_word src i [] = false
any_word src i (word ∷ words) =
    (has_prefix (drop i src) word && is_word_boundary_after src (i + length word))
    || any_word src i words

-- `isRightDelimiter`
abbrev pub is_right_mark : ℕ → Bool
is_right_mark b =
    b == 124 || (b == 44 || (b == 59 || (b == 41 || (b == 93 || (b == 125 || b == 35)))))

abbrev pub is_right_delimiter : Bytes → ℕ → Bool → Bool
is_right_delimiter src i ignore_catch =
    is_right_mark (at src i)
    || (is_word_boundary_before src i
        && any_word src i (right_words ++ (if ignore_catch then [] else word_catch ∷ [])))

-- A bracket that closes one which was opened before the operand ends it.
abbrev pub close_right : Bytes → ℕ → ℤ → Depths → Turn Depths End
close_right src i z d =
    if int_eq z (pos 0) then stop (ok (trim_left_end src i)) else go (i + 1) (bracket (at src i) d)

abbrev pub right_bracket : Bytes → ℕ → Depths → Turn Depths End
right_bracket src i d =
    if at src i == 35
    then go (skip_line_comment src i) d
    else if at src i == 34
    then past_string err d (skip_jq_string src i)
    else if at src i == 41
    then close_right src i d.paren d
    else if at src i == 93
    then close_right src i d.square d
    else if at src i == 125
    then close_right src i d.brace d
    else go (i + 1) (bracket (at src i) d)

abbrev pub right_turn : Bytes → Bool → ℕ → Depths → Turn Depths End
right_turn src ignore_catch i d =
    if same_depths d ground_level && is_right_delimiter src i ignore_catch
    then stop (ok (trim_left_end src i))
    else right_bracket src i d

abbrev pub right_finish : Bytes → Depths → End
right_finish src d =
    if same_depths d ground_level
    then ok (trim_left_end src (length src))
    else err unbalanced_operand

abbrev pub right_from : Bytes → ℕ → Option End → End
right_from src start (some e) = e
right_from src start none =
    loop (right_turn src (has_word_at src start word_try)) (right_finish src) (length src) start
      ground_level

unfoldable pub right_operand_end : Bytes → ℕ → End
unfolding rounds
right_operand_end src start = right_from src start (control_rhs_end src start)
