-- ===== src/Desugar/Scan.antt =====
-- internal/desugar/desugar.go: bytes, words, comments and string literals.
pub mod Bounds
use ajq.Prelude.{
  ℕ, zero, suc, ◌+◌, ◌-◌, Bool, true, false, not, ◌||◌, ◌&&◌, List, [], ◌∷◌, Option, none, some,
  Bytes, ltb, leb, ◌==◌, if◌then◌else◌, length, get_or, take, drop,
}
use ajq.Result.{Result, ok, err}

-- The errors of `Rewrite`. `out_of_fuel` is none of the source's.
pub data RewriteError : Type 0 where
  unterminated_string unterminated_interpolation unterminated_if unbalanced_operand : RewriteError
  missing_operand : ℕ → RewriteError
  out_of_fuel : RewriteError

-- `src[i]`; a position at or beyond the end holds no byte of the source.
abbrev pub at : Bytes → ℕ → ℕ
at src i = get_or src i 0

-- `src[a:b]`
abbrev pub slice : Bytes → ℕ → ℕ → Bytes
slice src a b = take (b - a) (drop a src)

abbrev pub has_prefix : Bytes → Bytes → Bool
has_prefix bs [] = true
has_prefix [] (p ∷ ps) = false
has_prefix (b ∷ bs) (p ∷ ps) = b == p && has_prefix bs ps

abbrev pub between : ℕ → ℕ → ℕ → Bool
between low high b = leb low b && leb b high

-- `isIdent`: `_`, `$`, `.`, `-`, `?`, digits and letters.
abbrev pub is_ident : ℕ → Bool
is_ident b =
    b == 95
    || (b == 36
        || (b == 46
            || (b == 45
                || (b == 63 || (between 48 57 b || (between 97 122 b || between 65 90 b))))))

-- `unicode.IsSpace`, of a byte taken as a rune.
abbrev pub is_space : ℕ → Bool
is_space b = between 9 13 b || (b == 32 || (b == 133 || b == 160))

abbrev pub is_word_boundary_before : Bytes → ℕ → Bool
is_word_boundary_before src zero = true
is_word_boundary_before src (suc i) = not (is_ident (at src i))

abbrev pub is_word_boundary_after : Bytes → ℕ → Bool
is_word_boundary_after src i = if ltb i (length src) then not (is_ident (at src i)) else true

-- `hasWordAt`, of a position that is not negative. A word that does not fit is no prefix.
abbrev pub has_word_at : Bytes → ℕ → Bytes → Bool
has_word_at src i word =
    has_prefix (drop i src) word
    && (is_word_boundary_before src i && is_word_boundary_after src (i + length word))

abbrev pub word_immediately_before : Bytes → ℕ → Bytes → Bool
word_immediately_before src end word =
    leb (length word) end && has_word_at src (end - length word) word

-- How many bytes there are before the end of the line.
abbrev pub line_length : Bytes → ℕ
line_length [] = 0
line_length (b ∷ bs) = let rest = line_length bs in if b == 10 then 0 else suc rest

abbrev pub skip_line_comment : Bytes → ℕ → ℕ
skip_line_comment src start = start + line_length (drop start src)

-- The loops `for end < len(src) && unicode.IsSpace(rune(src[end]))`.
abbrev pub space_length : Bytes → ℕ
space_length [] = 0
space_length (b ∷ bs) = let rest = space_length bs in if is_space b then suc rest else 0

abbrev pub skip_spaces : Bytes → ℕ → ℕ
skip_spaces src i = i + space_length (drop i src)

-- What the loop of `skipJQString` meets: the end of the source, `\(`, another escape, the closing
-- quote, or another byte.
pub data StringByte : Type 0 where
  past_end interpolation escape quote other : StringByte

abbrev pub opens_interpolation : Bytes → ℕ → Bool
opens_interpolation src i = ltb (i + 1) (length src) && at src (i + 1) == 40

abbrev pub string_byte : Bytes → ℕ → StringByte
string_byte src i =
    if ltb i (length src)
    then (if at src i == 92
        then (if opens_interpolation src i then interpolation else escape)
        else if at src i == 34
        then quote
        else other)
    else past_end

-- What the loop of `matchingInterpolationClose` meets.
pub data CodeByte : Type 0 where
  past_code comment string opening closing plain : CodeByte

abbrev pub code_byte : Bytes → ℕ → CodeByte
code_byte src i =
    if ltb i (length src)
    then (if at src i == 35
        then comment
        else if at src i == 34
        then string
        else if at src i == 40
        then opening
        else if at src i == 41
        then closing
        else plain)
    else past_code

unfoldable mutual
  -- The loop of `skipJQString` at `i`.
  pub skip_from : ℕ → Bytes → ℕ → Result RewriteError ℕ
  skip_from zero src i = err out_of_fuel
  skip_from (suc n) src i = elim (string_byte src i) [
    | past_end ↦ err unterminated_string
    | interpolation ↦ elim (close_from n src (i + 2) 1) [
      | err e ↦ err e
      | ok close ↦ skip_from n src (close + 1)
    ]
    | escape ↦ skip_from n src (i + 2)
    | quote ↦ ok (i + 1)
    | other ↦ skip_from n src (i + 1)
  ]

  -- The loop of `matchingInterpolationClose` at `i`, at a depth of at least one.
  pub close_from : ℕ → Bytes → ℕ → ℕ → Result RewriteError ℕ
  close_from zero src i depth = err out_of_fuel
  close_from (suc n) src i depth = elim (code_byte src i) [
    | past_code ↦ err unterminated_interpolation
    | comment ↦ close_from n src (skip_line_comment src i) depth
    | string ↦ elim (skip_from n src (i + 1)) [
      | err e ↦ err e
      | ok next ↦ close_from n src next depth
    ]
    | opening ↦ close_from n src (i + 1) (depth + 1)
    | closing ↦ elim (depth == 1) [ true ↦ ok i | false ↦ close_from n src (i + 1) (depth - 1) ]
    | plain ↦ close_from n src (i + 1) depth
  ]

-- `skipJQString`, of the position of the opening quote.
abbrev pub skip_jq_string : Bytes → ℕ → Result RewriteError ℕ
skip_jq_string src start = skip_from (length src + 1) src (start + 1)

-- `matchingInterpolationClose`, of the position of the opening parenthesis.
abbrev pub matching_interpolation_close : Bytes → ℕ → Result RewriteError ℕ
matching_interpolation_close src start = close_from (length src + 1) src (start + 1) 1
