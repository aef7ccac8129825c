-- ===== src/Desugar/Operand.antt =====
-- internal/desugar/desugar.go: where an operator stands, and where its operands start and end.
pub mod Bounds
pub mod Left
pub mod Right
pub mod Rounds
pub mod Trims
use ajq.Prelude.{
  ℕ, zero, suc, ◌+◌, ◌-◌, Bool, true, false, not, ◌||◌, ◌&&◌, List, [], ◌∷◌, Option, none, some,
  Bytes, ltb, leb, ◌==◌, if◌then◌else◌, length, drop,
}
use ajq.Result.{Result, ok, err}
use ajq.Value.{ℤ, pos, negsuc, up, down, int_eq}
use ajq.Desugar.Loop.{NoState, no_state, Turn, stop, go, rounds, loop}
use ajq.Desugar.Scan.{
  RewriteError, unterminated_if, unbalanced_operand, at, has_prefix, is_ident, is_space,
  is_word_boundary_before, is_word_boundary_after, has_word_at, word_immediately_before,
  skip_line_comment, skip_spaces, skip_from, close_from, skip_jq_string,
}

abbrev pub word_if : Bytes
word_if = 105 ∷ 102 ∷ []

abbrev pub word_then : Bytes
word_then = 116 ∷ 104 ∷ 101 ∷ 110 ∷ []

abbrev pub word_else : Bytes
word_else = 101 ∷ 108 ∷ 115 ∷ 101 ∷ []

abbrev pub word_elif : Bytes
word_elif = 101 ∷ 108 ∷ 105 ∷ 102 ∷ []

abbrev pub word_try : Bytes
word_try = 116 ∷ 114 ∷ 121 ∷ []

abbrev pub word_catch : Bytes
word_catch = 99 ∷ 97 ∷ 116 ∷ 99 ∷ 104 ∷ []

abbrev pub word_and : Bytes
word_and = 97 ∷ 110 ∷ 100 ∷ []

abbrev pub word_or : Bytes
word_or = 111 ∷ 114 ∷ []

abbrev pub word_end : Bytes
word_end = 101 ∷ 110 ∷ 100 ∷ []

abbrev pub word_as : Bytes
word_as = 97 ∷ 115 ∷ []

abbrev pub left_words : List Bytes
left_words =
    word_if ∷ word_then ∷ word_else ∷ word_elif ∷ word_try ∷ word_catch ∷ word_and ∷ word_or ∷ []

abbrev pub right_words : List Bytes
right_words = word_and ∷ word_or ∷ word_then ∷ word_else ∷ word_elif ∷ word_end ∷ word_as ∷ []

abbrev pub assignment_operators : List Bytes
assignment_operators =
    (63 ∷ 47 ∷ 47 ∷ 61 ∷ [])
    ∷ (47 ∷ 47 ∷ 61 ∷ [])
    ∷ (124 ∷ 61 ∷ [])
    ∷ (43 ∷ 61 ∷ [])
    ∷ (45 ∷ 61 ∷ [])
    ∷ (42 ∷ 61 ∷ [])
    ∷ (47 ∷ 61 ∷ [])
    ∷ (37 ∷ 61 ∷ [])
    ∷ []

-- The body of a loop that skips a string literal, to go on behind it or to return on an error.
abbrev pub past_string {ℓ κ} :
    {S : Type ℓ} {R : Type κ} → (RewriteError → R) → S → Result RewriteError ℕ → Turn S R
past_string failed s (ok next) = go next s
past_string failed s (err e) = stop (failed e)

-- `commentStart`
abbrev pub within_limit : ℕ → Result RewriteError ℕ → Turn NoState (Option ℕ)
within_limit end (err e) = stop none
within_limit end (ok next) = if ltb end next then stop none else go next no_state

abbrev pub comment_turn : Bytes → ℕ → ℕ → NoState → Turn NoState (Option ℕ)
comment_turn src end i u =
    if at src i == 34
    then within_limit end (skip_jq_string src i)
    else if at src i == 35
    then stop (some i)
    else go (i + 1) no_state

abbrev pub no_comment : NoState → Option ℕ
no_comment u = none

unfoldable pub comment_start : Bytes → ℕ → ℕ → Option ℕ
unfolding rounds
comment_start src start end = loop (comment_turn src end) no_comment end start no_state

-- `strings.LastIndexByte(src[:end], '\n') + 1`
abbrev pub line_start : Bytes → ℕ → ℕ
line_start src zero = 0
line_start src (suc e) = let rest = line_start src e in if at src e == 10 then suc e else rest

abbrev pub trim_spaces : Bytes → ℕ → ℕ
trim_spaces src zero = 0
trim_spaces src (suc e) =
    let rest = trim_spaces src e in if is_space (at src e) then rest else suc e

-- The rounds of `trimLeftEnd`; each takes a comment off the end.
unfoldable pub trim_left_from : ℕ → Bytes → ℕ → ℕ
trim_left_from zero src end = end
trim_left_from (suc n) src end =
    let trimmed = trim_spaces src end in
    elim (comment_start src (line_start src trimmed) trimmed) [
      | none ↦ trimmed
      | some comment ↦ trim_left_from n src comment
    ]

abbrev pub trim_left_end : Bytes → ℕ → ℕ
trim_left_end src end = trim_left_from (end + 1) src end

-- The rounds of `trimRightStart`; each takes a comment off the start.
unfoldable pub trim_right_from : ℕ → Bytes → ℕ → ℕ
trim_right_from zero src start = start
trim_right_from (suc n) src start =
    let trimmed = skip_spaces src start in
    elim (ltb trimmed (length src) && at src trimmed == 35) [
      | true ↦ trim_right_from n src (skip_line_comment src trimmed)
      | false ↦ trimmed
    ]

abbrev pub trim_right_start : Bytes → ℕ → ℕ
trim_right_start src start = trim_right_from (length src + 1) src start

-- `nextOperator`: the position of the operator, and whether it is the negated one.
abbrev pub operator_turn : Bytes → ℕ → NoState → Turn NoState (Option (ℕ × Bool))
operator_turn src i u =
    if at src i == 35
    then go (skip_line_comment src i) no_state
    else if at src i == 34
    then past_string (λ e. none) no_state (skip_jq_string src i)
    else if at src i == 61 && at src (i + 1) == 126
    then stop (some (i, false))
    else if at src i == 33 && at src (i + 1) == 126
    then stop (some (i, true))
    else go (i + 1) no_state

abbrev pub no_operator : NoState → Option (ℕ × Bool)
no_operator u = none

unfoldable pub next_operator : Bytes → ℕ → Option (ℕ × Bool)
unfolding rounds
next_operator src start = loop (operator_turn src) no_operator (length src - 1) start no_state

-- The depths of parentheses, square brackets and braces. They are below zero where a bracket is
-- closed that was not opened.
pub record Depths : Type 0 where
  pub paren : ℤ
  pub square : ℤ
  pub brace : ℤ

abbrev pub same_depths : Depths → Depths → Bool
same_depths d e = int_eq d.paren e.paren && (int_eq d.square e.square && int_eq d.brace e.brace)

abbrev pub ground_level : Depths
ground_level = record { paren = pos 0; square = pos 0; brace = pos 0 }

abbrev pub is_opening : ℕ → Bool
is_opening b = b == 40 || (b == 91 || b == 123)

-- The switch over the brackets.
abbrev pub bracket : ℕ → Depths → Depths
bracket b d =
    if b == 40
    then record d { paren = up d.paren }
    else if b == 91
    then record d { square = up d.square }
    else if b == 123
    then record d { brace = up d.brace }
    else if b == 41
    then record d { paren = down d.paren }
    else if b == 93
    then record d { square = down d.square }
    else if b == 125
    then record d { brace = down d.brace }
    else d

-- `depthAt`
abbrev pub depth_turn : Bytes → ℕ → Depths → Turn Depths (Result RewriteError Depths)
depth_turn src i d =
    if at src i == 35
    then go (skip_line_comment src i) d
    else if at src i == 34
    then past_string err d (skip_jq_string src i)
    else go (i + 1) (bracket (at src i) d)

abbrev pub depths_ok : Depths → Result RewriteError Depths
depths_ok d = ok d

unfoldable pub depth_at : Bytes → ℕ → Result RewriteError Depths
unfolding rounds
depth_at src end = loop (depth_turn src) depths_ok end 0 ground_level
