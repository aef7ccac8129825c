-- ===== src/Desugar/Scan/Bounds.antt =====
-- The scanners of internal/desugar/desugar.go stay within the source and come to an end.
use ajq.Prelude.{
  ℕ, zero, suc, ◌+◌, ◌-◌, ◌≤◌, ◌<◌, true, false, [], ◌∷◌, Bytes, ◌≡◌, ◌≢◌, refl, arith, ltb, ◌==◌,
  length, drop, length-drop, Bool-cases, inl, inr,
}
use ajq.Result.{Result, ok, err}
use ajq.Desugar.Scan.{
  RewriteError, unterminated_string, unterminated_interpolation, out_of_fuel, at, line_length,
  skip_line_comment, StringByte, past_end, interpolation, escape, quote, other, string_byte,
  CodeByte, past_code, comment, string, opening, closing, plain, code_byte, skip_from, close_from,
  skip_jq_string, matching_interpolation_close,
}

line_length-bounded : (bs : Bytes) → line_length bs ≤ length bs
line_length-bounded [] = omega arith
line_length-bounded (b ∷ bs) = ground (arith, line_length-bounded bs)

line_length_positive :
    (src : Bytes) (i : ℕ) → i < length src → (at src i == 10) ≡ false → 0 < line_length (drop i src)
line_length_positive [] i lt e = absurd (omega arith)
line_length_positive (b ∷ bs) zero lt e = ground arith
line_length_positive (b ∷ bs) (suc i) lt e = line_length_positive bs i (omega arith) e

pub skip_line_comment_bounded :
    (src : Bytes) (i : ℕ) → i ≤ length src → skip_line_comment src i ≤ length src
skip_line_comment_bounded src i le =
    omega (arith, line_length-bounded (drop i src), length-drop i src)

-- A comment starts with a byte that is no line feed.
pub skip_line_comment_advances :
    (src : Bytes) (i : ℕ) → i < length src → (at src i == 35) ≡ true → i < skip_line_comment src i
skip_line_comment_advances src i lt e = omega (arith, line_length_positive src i lt (ground arith))

-- The errors of the scanners.
abbrev pub IsUnterminated : RewriteError → Type 0
IsUnterminated unterminated_string = Unit
IsUnterminated unterminated_interpolation = Unit
IsUnterminated _ = ⊥

pub IsUnterminated-out_of_fuel : (e : RewriteError) → IsUnterminated e → e ≢ out_of_fuel
IsUnterminated-out_of_fuel unterminated_string h = λ x. cc x
IsUnterminated-out_of_fuel unterminated_interpolation h = λ x. cc x
IsUnterminated-out_of_fuel e h = absurd h

-- A scan from `i` ends behind it and within the source, at a closing parenthesis where it looks for
-- one, or the literal is not terminated.
abbrev pub IsBehind : ℕ → Bytes → Result RewriteError ℕ → Type 0
IsBehind i src (ok j) = (i < j) × (j ≤ length src)
IsBehind i src (err e) = IsUnterminated e

abbrev pub IsWithin : ℕ → Bytes → Result RewriteError ℕ → Type 0
IsWithin i src (ok j) = (i ≤ j) × (j < length src) × (at src j ≡ 41)
IsWithin i src (err e) = IsUnterminated e

IsBehind-weaken :
    (i j : ℕ) (src : Bytes) (r : Result RewriteError ℕ)
    → i ≤ j
    → IsBehind j src r
    → IsBehind i src r
IsBehind-weaken i j src (ok k) le (lt, h) = (omega arith, h)
IsBehind-weaken i j src (err e) le h = h

pub IsWithin-weaken :
    (i j : ℕ) (src : Bytes) (r : Result RewriteError ℕ)
    → i ≤ j
    → IsWithin j src r
    → IsWithin i src r
IsWithin-weaken i j src (ok k) le (lt, below, closing_byte) = (omega arith, below, closing_byte)
IsWithin-weaken i j src (err e) le h = h

-- What a scan that is at `i` goes on with.
pub string_byte_inside :
    (src : Bytes) (i : ℕ) (b : StringByte) → string_byte src i ≡ b → b ≢ past_end → i < length src
string_byte_inside src i b e h = elim (Bool-cases (ltb i (length src))) [
  | inl lt ↦ ground arith
  | inr ge ↦ absurd (h (ground arith))
]

code_byte_inside :
    (src : Bytes) (i : ℕ) (b : CodeByte) → code_byte src i ≡ b → b ≢ past_code → i < length src
code_byte_inside src i b e h = elim (Bool-cases (ltb i (length src))) [
  | inl lt ↦ ground arith
  | inr ge ↦ absurd (h (ground arith))
]

-- Both scans, with fuel `n`.
abbrev Scans : ℕ → Bytes → Type 0
Scans n src =
    ((i : ℕ) → length src < i + n → 0 < n → IsBehind i src (skip_from n src i))
    × ((i depth : ℕ) → length src < i + n → 0 < n → IsWithin i src (close_from n src i depth))

after_close :
    (n : ℕ) (src : Bytes) (ih : Scans n src) (i : ℕ)
    → length src < i + suc n
    → (r : Result RewriteError ℕ) → IsWithin (i + 2) src r
    → IsBehind i src (elim r [ err e ↦ err e | ok close ↦ skip_from n src (close + 1) ])
after_close n src ih i enough (err e) h = h
after_close n src ih i enough (ok close) (le, lt, closing_byte) =
    IsBehind-weaken i (close + 1) src (skip_from n src (close + 1)) (omega arith)
      (ih.0 (close + 1) (omega arith) (omega arith))

skip_case :
    (n : ℕ) (src : Bytes) (ih : Scans n src) (i : ℕ)
    → length src < i + suc n
    → (b : StringByte) → string_byte src i ≡ b
    → IsBehind i src (skip_from (suc n) src i)
unfolding skip_from
skip_case n src ih i enough past_end e = rw (e, skip_from) tt
skip_case n src ih i enough escape e =
    let inside = string_byte_inside src i escape e (λ h. cc h) in
    rw (e, skip_from)
      (IsBehind-weaken i (i + 2) src (skip_from n src (i + 2)) (omega arith)
        (ih.0 (i + 2) (omega arith) (omega (arith, inside))))
skip_case n src ih i enough other e =
    let inside = string_byte_inside src i other e (λ h. cc h) in
    rw (e, skip_from)
      (IsBehind-weaken i (i + 1) src (skip_from n src (i + 1)) (omega arith)
        (ih.0 (i + 1) (omega arith) (omega (arith, inside))))
skip_case n src ih i enough quote e =
    let inside = string_byte_inside src i quote e (λ h. cc h) in
    rw (e, skip_from) (omega arith, omega (arith, inside))
skip_case n src ih i enough interpolation e =
    let inside = string_byte_inside src i interpolation e (λ h. cc h) in
    rw (e, skip_from)
      (after_close n src ih i enough (close_from n src (i + 2) 1)
        (ih.1 (i + 2) 1 (omega arith) (omega (arith, inside))))

-- The scan goes on at `j`.
close_on :
    (n : ℕ) (src : Bytes) (ih : Scans n src) (i j depth : ℕ)
    → length src < i + suc n
    → i < j
    → j ≤ length src
    → IsWithin i src (close_from n src j depth)
close_on n src ih i j depth enough less le =
    IsWithin-weaken i j src (close_from n src j depth) (omega arith)
      (ih.1 j depth (omega arith) (omega arith))

after_string :
    (n : ℕ) (src : Bytes) (ih : Scans n src) (i depth : ℕ)
    → length src < i + suc n
    → (r : Result RewriteError ℕ) → IsBehind (i + 1) src r
    → IsWithin i src (elim r [ err e ↦ err e | ok next ↦ close_from n src next depth ])
after_string n src ih i depth enough (err e) h = h
after_string n src ih i depth enough (ok next) (less, le) =
    close_on n src ih i next depth enough (omega arith) le

close_case :
    (n : ℕ) (src : Bytes) (ih : Scans n src) (i depth : ℕ)
    → length src < i + suc n
    → (b : CodeByte) → code_byte src i ≡ b
    → IsWithin i src (close_from (suc n) src i depth)
unfolding close_from
close_case n src ih i depth enough past_code e = rw (e, close_from) tt
close_case n src ih i depth enough comment e =
    let inside = code_byte_inside src i comment e (λ h. cc h) in
    rw (e, close_from)
      (close_on n src ih i (skip_line_comment src i) depth enough
        (skip_line_comment_advances src i inside (ground arith))
        (skip_line_comment_bounded src i (omega (arith, inside))))
close_case n src ih i depth enough string e =
    let inside = code_byte_inside src i string e (λ h. cc h) in
    rw (e, close_from)
      (after_string n src ih i depth enough (skip_from n src (i + 1))
        (ih.0 (i + 1) (omega arith) (omega (arith, inside))))
close_case n src ih i depth enough opening e =
    let inside = code_byte_inside src i opening e (λ h. cc h) in
    rw (e, close_from)
      (close_on n src ih i (i + 1) (depth + 1) enough (omega arith) (omega (arith, inside)))
close_case n src ih i depth enough plain e =
    let inside = code_byte_inside src i plain e (λ h. cc h) in
    rw (e, close_from)
      (close_on n src ih i (i + 1) depth enough (omega arith) (omega (arith, inside)))
close_case n src ih i depth enough closing e =
    let inside = code_byte_inside src i closing e (λ h. cc h) in
    elim (Bool-cases (depth == 1)) [
      | inl last ↦ rw (e, last, close_from) (omega arith, inside, ground arith)
      | inr more ↦
          rw (e, more, close_from)
            (close_on n src ih i (i + 1) (depth - 1) enough (omega arith) (omega (arith, inside)))
    ]

both-Scans : (n : ℕ) (src : Bytes) → Scans n src
both-Scans zero src =
    (λ i enough fuel. absurd (omega arith), λ i depth enough fuel. absurd (omega arith))
both-Scans (suc n) src = (
  λ i enough fuel. skip_case n src (both-Scans n src) i enough (string_byte src i) refl,
  λ i depth enough fuel. close_case n src (both-Scans n src) i depth enough (code_byte src i) refl,
)

pub skip_jq_string-IsBehind :
    (src : Bytes) (i : ℕ) → i < length src → IsBehind (i + 1) src (skip_jq_string src i)
skip_jq_string-IsBehind src i lt =
    (both-Scans (length src + 1) src).0 (i + 1) (omega arith) (omega arith)

pub matching_interpolation_close-IsWithin :
    (src : Bytes) (i : ℕ)
    → i < length src
    → IsWithin (i + 1) src (matching_interpolation_close src i)
matching_interpolation_close-IsWithin src i lt =
    (both-Scans (length src + 1) src).1 (i + 1) 1 (omega arith) (omega arith)
