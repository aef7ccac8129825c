-- ===== src/Desugar/Rewrite.antt =====
-- internal/desugar/desugar.go: `Rewrite` and its loops. The recursive calls of `Rewrite` are the
-- parameter `again` of the loops.
pub mod Sides
pub mod Strings
pub mod Terminates
pub mod Unchanged
pub mod Weight
use ajq.Prelude.{
  ℕ, zero, suc, ◌+◌, ◌-◌, Bool, true, false, ◌||◌, ◌&&◌, List, [], ◌∷◌, ◌++◌, Option, none, some,
  Bytes, ltb, leb, ◌==◌, if◌then◌else◌, length, take, drop,
}
use ajq.Result.{Result, ok, err}
use ajq.Desugar.Scan.{
  RewriteError, unterminated_string, missing_operand, out_of_fuel, at, slice, between, is_ident,
  skip_line_comment, StringByte, past_end, interpolation, escape, quote, other, string_byte,
  skip_from, close_from, matching_interpolation_close,
}
use ajq.Desugar.Operand.{
  comment_start, trim_left_from, trim_left_end, trim_right_from, trim_right_start, next_operator,
  depth_at,
}
use ajq.Desugar.Operand.Left.{control_lhs_start, left_operand_start}
use ajq.Desugar.Operand.Right.{control_rhs_end, right_operand_end}

-- The size of the white space that starts, or ends, at a position: a byte of ASCII, or one of the
-- other runes of `unicode.IsSpace` in UTF-8.
abbrev pub is_ascii_space : ℕ → Bool
is_ascii_space b = between 9 13 b || b == 32

abbrev pub is_space_pair : ℕ → ℕ → Bool
is_space_pair a b = a == 194 && (b == 133 || b == 160)

abbrev pub is_space_triple : ℕ → ℕ → ℕ → Bool
is_space_triple a b c =
    (a == 225 && (b == 154 && c == 128))
    || ((a == 226
          && ((b == 128 && (between 128 138 c || (c == 168 || (c == 169 || c == 175))))
              || (b == 129 && c == 159)))
        || (a == 227 && (b == 128 && c == 128)))

abbrev pub white_at : Bytes → ℕ → ℕ
white_at src i =
    if is_ascii_space (at src i)
    then 1
    else if is_space_pair (at src i) (at src (i + 1))
    then 2
    else if is_space_triple (at src i) (at src (i + 1)) (at src (i + 2))
    then 3
    else 0

abbrev pub white_before : Bytes → ℕ → ℕ
white_before src e =
    if leb 1 e && is_ascii_space (at src (e - 1))
    then 1
    else if leb 2 e && is_space_pair (at src (e - 2)) (at src (e - 1))
    then 2
    else if leb 3 e && is_space_triple (at src (e - 3)) (at src (e - 2)) (at src (e - 1))
    then 3
    else 0

unfoldable pub white_end : ℕ → Bytes → ℕ → ℕ
white_end zero src i = i
white_end (suc n) src i = elim (white_at src i) [ zero ↦ i | suc k ↦ white_end n src (i + suc k) ]

unfoldable pub white_start : ℕ → Bytes → ℕ → ℕ
white_start zero src e = e
white_start (suc n) src e = elim (white_before src e) [
  | zero ↦ e
  | suc k ↦ white_start n src (e - suc k)
]

-- `strings.TrimSpace`
unfoldable pub trim_space : Bytes → Bytes
unfolding white_end white_start
trim_space bs = slice bs (white_end (length bs) bs 0) (white_start (length bs) bs (length bs))

-- A string literal that is being written, with the position behind it.
abbrev pub Written : Type 0
Written = Result RewriteError (Bytes × ℕ)

abbrev pub written : Bytes → Written → Written
written bs (ok (rest, next)) = ok (bs ++ rest, next)
written bs (err e) = err e

abbrev pub text_written : Bytes → Result RewriteError Bytes → Result RewriteError Bytes
text_written bs (ok rest) = ok (bs ++ rest)
text_written bs (err e) = err e

abbrev pub sem_match_text : Bytes
sem_match_text = 115 ∷ 101 ∷ 109 ∷ 95 ∷ 109 ∷ 97 ∷ 116 ∷ 99 ∷ 104 ∷ 40 ∷ []

abbrev pub not_text : Bytes
not_text = 32 ∷ 124 ∷ 32 ∷ 110 ∷ 111 ∷ 116 ∷ 41 ∷ []

abbrev pub is_dot : Bytes → Bool
is_dot (b ∷ []) = b == 46
is_dot _ = false

-- The call that an operator becomes.
abbrev pub call_text : Bytes → Bytes → Bytes
call_text left right =
    if is_dot left
    then sem_match_text ++ right ++ 41 ∷ []
    else sem_match_text ++ left ++ (59 ∷ 32 ∷ (right ++ 41 ∷ []))

abbrev pub negated_text : Bool → Bytes → Bytes
negated_text true call = (40 ∷ []) ++ call ++ not_text
negated_text false call = call

-- `needsSeparatorBefore`
abbrev pub needs_separator : Bytes → ℕ → Bytes → Bool
needs_separator src zero replacement = false
needs_separator src (suc start) [] = false
needs_separator src (suc start) (b ∷ bs) = is_ident (at src start) && (is_ident b || b == 40)

abbrev pub separated_text : Bytes → ℕ → Bytes → Bytes
separated_text src start replacement =
    if needs_separator src start replacement then 32 ∷ replacement else replacement

-- The operands of an operator: of the left one the start and the end, then those of the right one.
pub record Operands : Type 0 where
  pub left_start : ℕ
  pub left_end : ℕ
  pub right_start : ℕ
  pub right_end : ℕ

abbrev pub checked_operands : ℕ → Operands → Result RewriteError Operands
checked_operands op o =
    if ltb o.left_start o.left_end && ltb o.right_start o.right_end
    then ok o
    else err (missing_operand op)

abbrev pub operands_to : Bytes → ℕ → ℕ → Result RewriteError ℕ → Result RewriteError Operands
operands_to out op right_start (err e) = err e
operands_to out op right_start (ok right_end) = checked_operands op (record {
  left_start = left_operand_start out op;
  left_end = trim_left_end out op;
  right_start = right_start;
  right_end = right_end;
})

abbrev pub operands : Bytes → ℕ → Result RewriteError Operands
operands out op =
    let right_start = trim_right_start out (op + 2) in
    operands_to out op right_start (right_operand_end out right_start)

-- The text in place of an operator and its operands, and where the search goes on.
abbrev pub replacement_text : Bytes → Bool → Operands → Bytes → Bytes → Bytes
replacement_text out negated o left right =
    separated_text out o.left_start (negated_text negated (call_text left right))

abbrev pub spliced : Bytes → Operands → Bytes → Bytes
spliced out o replacement = take o.left_start out ++ replacement ++ drop o.right_end out

abbrev pub replaced : Bytes → Bool → Operands → Bytes → Bytes → Bytes × ℕ
replaced out negated o left right = (
  spliced out o (replacement_text out negated o left right),
  o.left_start + length (replacement_text out negated o left right),
)

module _ (again : Bytes → Result RewriteError Bytes) where
  -- The loop of `rewriteString` at `i`, with what it writes from there on.
  unfoldable pub string_from : ℕ → Bytes → ℕ → Written
  string_from zero src i = err out_of_fuel
  string_from (suc n) src i = elim (string_byte src i) [
    | past_end ↦ err unterminated_string
    | interpolation ↦ elim (matching_interpolation_close src (i + 1)) [
      | err e ↦ err e
      | ok close ↦ elim (again (slice src (i + 2) close)) [
        | err e ↦ err e
        | ok body ↦ written ((92 ∷ 40 ∷ []) ++ body ++ 41 ∷ []) (string_from n src (close + 1))
      ]
    ]
    | escape ↦ elim (ltb (i + 1) (length src)) [
      | true ↦ written (at src i ∷ at src (i + 1) ∷ []) (string_from n src (i + 2))
      | false ↦ written (at src i ∷ []) (string_from n src (i + 1))
    ]
    | quote ↦ ok (at src i ∷ [], i + 1)
    | other ↦ written (at src i ∷ []) (string_from n src (i + 1))
  ]

  abbrev pub rewrite_string : Bytes → ℕ → Written
  rewrite_string src start =
      written (at src start ∷ []) (string_from (length src + 1) src (start + 1))

  -- The loop of `rewriteInterpolations` at `i`.
  unfoldable pub code_from : ℕ → Bytes → ℕ → Result RewriteError Bytes
  code_from zero src i = err out_of_fuel
  code_from (suc n) src i = elim (ltb i (length src)) [
    | false ↦ ok []
    | true ↦ elim (at src i == 35) [
      | true ↦
          text_written (slice src i (skip_line_comment src i))
            (code_from n src (skip_line_comment src i))
      | false ↦ elim (at src i == 34) [
        | false ↦ text_written (at src i ∷ []) (code_from n src (i + 1))
        | true ↦ elim (rewrite_string src i) [
          | err e ↦ err e
          | ok (text, next) ↦ text_written text (code_from n src next)
        ]
      ]
    ]
  ]

  abbrev pub rewrite_interpolations : Bytes → Result RewriteError Bytes
  rewrite_interpolations src = code_from (length src + 1) src 0

  abbrev pub right_rewritten :
      Bytes → Bool → Operands → Bytes → Result RewriteError Bytes → Result RewriteError (Bytes × ℕ)
  right_rewritten out negated o left (err e) = err e
  right_rewritten out negated o left (ok right) = ok (replaced out negated o left right)

  abbrev pub left_rewritten :
      Bytes → Bool → Operands → Result RewriteError Bytes → Result RewriteError (Bytes × ℕ)
  left_rewritten out negated o (err e) = err e
  left_rewritten out negated o (ok left) =
      right_rewritten out negated o left (again (trim_space (slice out o.right_start o.right_end)))

  -- What is done with one operator.
  abbrev pub rewrite_at :
      Bytes → Bool → Result RewriteError Operands → Result RewriteError (Bytes × ℕ)
  rewrite_at out negated (err e) = err e
  rewrite_at out negated (ok o) =
      left_rewritten out negated o (again (trim_space (slice out o.left_start o.left_end)))

  -- The loop over the operators.
  unfoldable pub operators_from : ℕ → Bytes → ℕ → Result RewriteError Bytes
  operators_from zero out from = err out_of_fuel
  operators_from (suc n) out from = elim (next_operator out from) [
    | none ↦ ok out
    | some (op, negated) ↦ elim (rewrite_at out negated (operands out op)) [
      | err e ↦ err e
      | ok (text, next) ↦ operators_from n text next
    ]
  ]

-- The bytes that a rewriting takes away or stands behind: `~` and the backslash.
abbrev pub byte_weight : ℕ → ℕ
byte_weight b = if b == 126 || b == 92 then 1 else 0

abbrev pub weight : Bytes → ℕ
weight [] = 0
weight (b ∷ bs) = byte_weight b + weight bs

abbrev pub operators_in :
    (Bytes → Result RewriteError Bytes) → Result RewriteError Bytes → Result RewriteError Bytes
operators_in again (err e) = err e
operators_in again (ok out) = operators_from again (weight out + 1) out 0

-- `Rewrite`, at most `n` calls deep.
unfoldable pub rewrite_to_depth : ℕ → Bytes → Result RewriteError Bytes
unfolding operators_from code_from string_from next_operator right_operand_end control_rhs_end
    trim_right_from skip_from close_from left_operand_start control_lhs_start depth_at
    trim_left_from comment_start trim_space
rewrite_to_depth zero src = err out_of_fuel
rewrite_to_depth (suc n) src =
    operators_in (rewrite_to_depth n) (rewrite_interpolations (rewrite_to_depth n) src)

-- Each call is of a text with fewer of those bytes.
abbrev pub rewrite : Bytes → Result RewriteError Bytes
rewrite src = rewrite_to_depth (weight src + 1) src
