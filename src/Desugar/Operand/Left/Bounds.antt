-- ===== src/Desugar/Operand/Left/Bounds.antt =====
-- The loops for the left operand go forward.
use ajq.Prelude.{
  ℕ, ◌+◌, ◌<◌, Bool, true, false, ◌&&◌, List, [], ◌∷◌, Option, none, some, Bytes, ◌==◌, arith,
  if◌then◌else◌, length, drop, All, Bool-cases, inl, inr,
}
use ajq.Desugar.Loop.Laws.{IsBeyond, if-IsBeyond}
use ajq.Desugar.Scan.{has_prefix, is_word_boundary_before, is_word_boundary_after, has_word_at}
use ajq.Desugar.Operand.{word_if, word_end, left_words, assignment_operators, Depths, same_depths}
use ajq.Desugar.Operand.Bounds.{past_comment_or_string}
use ajq.Desugar.Operand.Left.{
  first_prefix, plain_assignment, behind_spaces, or_plain_assignment, assignment_boundary_end,
  first_word, left_word_delimiter_end, is_separator, IfStack, close_if, control_level, control_turn,
  Boundary, left_word, left_level, left_turn,
}

-- A position that may not be given is behind another.
abbrev IsPast : ℕ → Option ℕ → Type 0
IsPast i none = Unit
IsPast i (some e) = i < e

if-IsPast :
    (i : ℕ) (b : Bool) (o : Option ℕ) (e : ℕ)
    → i < e
    → IsPast i o
    → IsPast i (if b then some e else o)
if-IsPast i true o e lt h = lt
if-IsPast i false o e lt h = h

first_prefix-IsPast :
    (src : Bytes) (i : ℕ) (ops : List Bytes)
    → All (λ op. 0 < length op) ops
    → IsPast i (first_prefix src i ops)
first_prefix-IsPast src i [] h = tt
first_prefix-IsPast src i (op ∷ ops) (positive, h) =
    if-IsPast i (has_prefix (drop i src) op) (first_prefix src i ops) (i + length op) (omega arith)
      (first_prefix-IsPast src i ops h)

first_word-IsPast :
    (src : Bytes) (i : ℕ) (words : List Bytes)
    → All (λ word. 0 < length word) words
    → IsPast i (first_word src i words)
first_word-IsPast src i [] h = tt
first_word-IsPast src i (word ∷ words) (positive, h) =
    if-IsPast i (has_prefix (drop i src) word && is_word_boundary_after src (i + length word))
      (first_word src i words) (i + length word) (omega arith) (first_word-IsPast src i words h)

behind_spaces-IsPast :
    (src : Bytes) (i : ℕ) (o : Option ℕ) → IsPast i o → IsPast i (behind_spaces src o)
behind_spaces-IsPast src i none h = tt
behind_spaces-IsPast src i (some e) h = omega arith

or_plain_assignment-IsPast :
    (src : Bytes) (i : ℕ) (o : Option ℕ) → IsPast i o → IsPast i (or_plain_assignment src i o)
or_plain_assignment-IsPast src i (some e) h = h
or_plain_assignment-IsPast src i none h =
    if-IsPast i (plain_assignment src i) none (i + 1) (omega arith) tt

assignment_boundary_end-IsPast : (src : Bytes) (i : ℕ) → IsPast i (assignment_boundary_end src i)
assignment_boundary_end-IsPast src i = behind_spaces-IsPast src i _ (
    or_plain_assignment-IsPast src i (first_prefix src i assignment_operators) (
      first_prefix-IsPast src i assignment_operators (
        omega arith,
        (
          omega arith,
          (
            omega arith,
            (omega arith, (omega arith, (omega arith, (omega arith, (omega arith, tt))))),
          ),
        ),
      )))

left_word_delimiter_end-IsPast : (src : Bytes) (i : ℕ) → IsPast i (left_word_delimiter_end src i)
left_word_delimiter_end-IsPast src i = elim (Bool-cases (is_word_boundary_before src i)) [
  | inr e ↦ rw e tt
  | inl e ↦ rw e (
      behind_spaces-IsPast src i (first_word src i left_words) (
        first_word-IsPast src i left_words (
          omega arith,
          (
            omega arith,
            (
              omega arith,
              (omega arith, (omega arith, (omega arith, (omega arith, (omega arith, tt))))),
            ),
          ),
        )))
]

close_if-IsBeyond : (end i : ℕ) (s : IfStack) (ifs : List ℕ) → IsBeyond i (close_if end i s ifs)
close_if-IsBeyond end i s [] = tt
close_if-IsBeyond end i s (m ∷ ms) = if-IsBeyond i (i + 3 == end) _ _ (λ e. tt) (λ e. omega arith)

control_level-IsBeyond :
    (src : Bytes) (end i : ℕ) (s : IfStack) (o : Option ℕ)
    → IsPast i o
    → IsBeyond i (control_level src end i s o)
control_level-IsBeyond src end i s (some e) h = h
control_level-IsBeyond src end i s none h =
    if-IsBeyond i (is_separator src i) _ _ (λ e. omega arith)
      (λ e.
        if-IsBeyond i (has_word_at src i word_if) _ _ (λ f. omega arith)
          (λ f.
            if-IsBeyond i (has_word_at src i word_end) _ _ (λ g. close_if-IsBeyond end i s s.ifs)
              (λ g. omega arith)))

pub control_turn-IsBeyond :
    (src : Bytes) (end : ℕ) (target : Depths) (i : ℕ) (s : IfStack)
    → i < length src
    → IsBeyond i (control_turn src end target i s)
control_turn-IsBeyond src end target i s lt =
    past_comment_or_string src i (λ e. none) s _ lt
      (if-IsBeyond i (same_depths s.depths target) _ _
        (λ e.
          control_level-IsBeyond src end i s (assignment_boundary_end src i)
            (assignment_boundary_end-IsPast src i))
        (λ e. omega arith))

left_word-IsBeyond :
    (src : Bytes) (target : Depths) (i : ℕ) (s : Boundary) (o : Option ℕ)
    → IsPast i o
    → IsBeyond i (left_word src target i s o)
left_word-IsBeyond src target i s (some e) h = h
left_word-IsBeyond src target i s none h = omega arith

left_level-IsBeyond :
    (src : Bytes) (target : Depths) (i : ℕ) (s : Boundary) (o : Option ℕ)
    → IsPast i o
    → IsBeyond i (left_level src target i s o)
left_level-IsBeyond src target i s (some e) h = h
left_level-IsBeyond src target i s none h =
    if-IsBeyond i (is_separator src i) _ _ (λ e. omega arith)
      (λ e.
        left_word-IsBeyond src target i s (left_word_delimiter_end src i)
          (left_word_delimiter_end-IsPast src i))

pub left_turn-IsBeyond :
    (src : Bytes) (target : Depths) (i : ℕ) (s : Boundary)
    → i < length src
    → IsBeyond i (left_turn src target i s)
left_turn-IsBeyond src target i s lt =
    past_comment_or_string src i (λ e. s.last_boundary) s _ lt
      (if-IsBeyond i (same_depths s.depths target) _ _
        (λ e.
          left_level-IsBeyond src target i s (assignment_boundary_end src i)
            (assignment_boundary_end-IsPast src i))
        (λ e. omega arith))
