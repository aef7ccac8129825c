-- ===== src/Desugar/Operand/Left.antt =====
-- `leftOperandStart` of internal/desugar/desugar.go.
pub mod Bounds
use ajq.Prelude.{
  ℕ, zero, suc, ◌+◌, ◌-◌, Bool, true, false, not, ◌||◌, ◌&&◌, List, [], ◌∷◌, Option, none, some,
  Bytes, ltb, ◌==◌, if◌then◌else◌, length, drop,
}
use ajq.Result.{Result, ok, err}
use ajq.Desugar.Loop.{Turn, stop, go, rounds, loop}
use ajq.Desugar.Scan.{
  RewriteError, at, has_prefix, is_word_boundary_before, is_word_boundary_after, has_word_at,
  word_immediately_before, skip_line_comment, skip_spaces, skip_jq_string,
}
use ajq.Desugar.Operand.{
  word_if, word_end, left_words, assignment_operators, past_string, trim_left_end, Depths,
  same_depths, ground_level, is_opening, bracket, depth_at,
}

-- The end of the first of the texts that stands at `i`.
abbrev pub first_prefix : Bytes → ℕ → List Bytes → Option ℕ
first_prefix src i [] = none
first_prefix src i (op ∷ ops) =
    let rest = first_prefix src i ops in
    if has_prefix (drop i src) op then some (i + length op) else rest

abbrev pub plain_assignment : Bytes → ℕ → Bool
plain_assignment src i =
    at src i == 61
    && (if ltb (i + 1) (length src)
        then not (at src (i + 1) == 61 || at src (i + 1) == 126)
        else true)

abbrev pub behind_spaces : Bytes → Option ℕ → Option ℕ
behind_spaces src none = none
behind_spaces src (some e) = some (skip_spaces src e)

abbrev pub or_plain_assignment : Bytes → ℕ → Option ℕ → Option ℕ
or_plain_assignment src i (some e) = some e
or_plain_assignment src i none = if plain_assignment src i then some (i + 1) else none

-- `assignmentBoundaryEnd`
abbrev pub assignment_boundary_end : Bytes → ℕ → Option ℕ
assignment_boundary_end src i =
    behind_spaces src (or_plain_assignment src i (first_prefix src i assignment_operators))

abbrev pub first_word : Bytes → ℕ → List Bytes → Option ℕ
first_word src i [] = none
first_word src i (word ∷ words) =
    let rest = first_word src i words in
    if has_prefix (drop i src) word && is_word_boundary_after src (i + length word)
    then some (i + length word)
    else rest

-- `leftWordDelimiterEnd`
abbrev pub left_word_delimiter_end : Bytes → ℕ → Option ℕ
left_word_delimiter_end src i =
    if is_word_boundary_before src i then behind_spaces src (first_word src i left_words) else none

-- A pipe that is no assignment, a comma, a semicolon or a colon.
abbrev pub is_separator : Bytes → ℕ → Bool
is_separator src i =
    (at src i == 124 && (if ltb (i + 1) (length src) then not (at src (i + 1) == 61) else true))
    || (at src i == 44 || (at src i == 59 || at src i == 58))

pub record IfStack : Type 0 where
  pub depths : Depths
  pub ifs : List ℕ

-- `end`: it closes the innermost `if`, which is the operand's if this `end` is the one before the
-- operator.
abbrev pub close_if : ℕ → ℕ → IfStack → List ℕ → Turn IfStack (Option ℕ)
close_if end i s [] = stop none
close_if end i s (m ∷ ms) =
    if i + 3 == end then stop (some m) else go (i + 3) (record s { ifs = ms })

abbrev pub control_words : Bytes → ℕ → ℕ → IfStack → Turn IfStack (Option ℕ)
control_words src end i s =
    if is_separator src i
    then go (i + 1) (record s { ifs = [] })
    else if has_word_at src i word_if
    then go (i + 2) (record s { ifs = i ∷ s.ifs })
    else if has_word_at src i word_end
    then close_if end i s s.ifs
    else go (i + 1) (record s { depths = bracket (at src i) s.depths })

abbrev pub control_level : Bytes → ℕ → ℕ → IfStack → Option ℕ → Turn IfStack (Option ℕ)
control_level src end i s (some e) = go e (record s { ifs = [] })
control_level src end i s none = control_words src end i s

abbrev pub control_turn : Bytes → ℕ → Depths → ℕ → IfStack → Turn IfStack (Option ℕ)
control_turn src end target i s =
    if at src i == 35
    then go (skip_line_comment src i) s
    else if at src i == 34
    then past_string (λ e. none) s (skip_jq_string src i)
    else if same_depths s.depths target
    then control_level src end i s (assignment_boundary_end src i)
    else go (i + 1) (record s { depths = bracket (at src i) s.depths })

abbrev pub no_control : IfStack → Option ℕ
no_control s = none

-- `controlLHSStart`
unfoldable pub control_lhs_start : Bytes → ℕ → Depths → Option ℕ
unfolding rounds
control_lhs_start src op target =
    let end = trim_left_end src op in
    if word_immediately_before src end word_end
    then loop (control_turn src end target) no_control end 0
        (record { depths = ground_level; ifs = [] })
    else none

pub record Boundary : Type 0 where
  pub depths : Depths
  pub last_boundary : ℕ

-- The switch over the brackets; one that opens the level of the operator is a boundary.
abbrev pub after_bracket : Bytes → Depths → ℕ → Boundary → Depths → Boundary
after_bracket src target i s d = record {
  depths = d;
  last_boundary = if is_opening (at src i) && same_depths d target then i + 1 else s.last_boundary;
}

abbrev pub left_bracket : Bytes → Depths → ℕ → Boundary → Turn Boundary ℕ
left_bracket src target i s =
    go (i + 1) (after_bracket src target i s (bracket (at src i) s.depths))

abbrev pub left_word : Bytes → Depths → ℕ → Boundary → Option ℕ → Turn Boundary ℕ
left_word src target i s (some e) = go e (record s { last_boundary = e })
left_word src target i s none = left_bracket src target i s

abbrev pub left_level : Bytes → Depths → ℕ → Boundary → Option ℕ → Turn Boundary ℕ
left_level src target i s (some e) = go e (record s { last_boundary = e })
left_level src target i s none =
    if is_separator src i
    then go (i + 1) (record s { last_boundary = i + 1 })
    else left_word src target i s (left_word_delimiter_end src i)

abbrev pub left_turn : Bytes → Depths → ℕ → Boundary → Turn Boundary ℕ
left_turn src target i s =
    if at src i == 35
    then go (skip_line_comment src i) s
    else if at src i == 34
    then past_string (λ e. s.last_boundary) s (skip_jq_string src i)
    else if same_depths s.depths target
    then left_level src target i s (assignment_boundary_end src i)
    else left_bracket src target i s

abbrev pub last_one : Boundary → ℕ
last_one s = s.last_boundary

-- `leftOperandStart`, of what `depthAt` and `controlLHSStart` give.
abbrev pub left_from : Bytes → ℕ → Depths → Option ℕ → ℕ
left_from src op target (some start) = start
left_from src op target none =
    loop (left_turn src target) last_one op 0 (record { depths = ground_level; last_boundary = 0 })

abbrev pub left_at : Bytes → ℕ → Result RewriteError Depths → ℕ
left_at src op (err e) = 0
left_at src op (ok target) = left_from src op target (control_lhs_start src op target)

unfoldable pub left_operand_start : Bytes → ℕ → ℕ
unfolding rounds control_lhs_start
left_operand_start src op = left_at src op (depth_at src op)
