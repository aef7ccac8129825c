-- ===== src/Desugar/Rewrite/Strings.antt =====
-- The strings and comments of a query are rewritten to texts that are no heavier.
use ajq.Prelude.{
  ℕ, zero, suc, ◌+◌, ◌≤◌, ◌<◌, true, [], ◌∷◌, ◌++◌, Bytes, ltb, ltb_less, ◌≡◌, ◌≢◌, refl, arith,
  ◌==◌, length, drop, Bool-cases, inl, inr,
}
use ajq.Result.{Result, ok, err}
use ajq.Desugar.Scan.{
  RewriteError, out_of_fuel, at, slice, skip_line_comment, StringByte, past_end, interpolation,
  escape, quote, other, string_byte, matching_interpolation_close,
}
use ajq.Desugar.Scan.Bounds.{
  IsUnterminated-out_of_fuel, IsWithin, IsWithin-weaken, string_byte_inside,
  skip_line_comment_bounded, skip_line_comment_advances, matching_interpolation_close-IsWithin,
}
use ajq.Desugar.Rewrite.{
  Written, written, text_written, string_from, rewrite_string, code_from, rewrite_interpolations,
  byte_weight, weight,
}
use ajq.Desugar.Rewrite.Weight.{
  weight-append, weight-slice, weight-drop, weight-drop-at, weight-drop_two,
}

-- A text of that weight at most, or an error of the source's.
abbrev pub IsLight : ℕ → Result RewriteError Bytes → Type 0
IsLight w (ok text) = weight text ≤ w
IsLight w (err e) = e ≢ out_of_fuel

pub IsLight-weaken : {v w : ℕ} (r : Result RewriteError Bytes) → v ≤ w → IsLight v r → IsLight w r
IsLight-weaken (ok text) le h = omega arith
IsLight-weaken (err e) le h = h

-- A string literal that is written from `i` on.
abbrev pub IsString : ℕ → Bytes → Written → Type 0
IsString i src (ok (text, next)) =
    (i < next) × (next ≤ length src) × (weight text + weight (drop next src) ≤ weight (drop i src))
IsString i src (err e) = e ≢ out_of_fuel

written-IsString :
    (bs src : Bytes) (i j : ℕ) (r : Written)
    → i ≤ j
    → weight bs + weight (drop j src) ≤ weight (drop i src)
    → IsString j src r
    → IsString i src (written bs r)
written-IsString bs src i j (err e) le light h = h
written-IsString bs src i j (ok (text, next)) le light (less, within, rest) =
    (omega arith, within, omega (arith, weight-append bs text))

text_written-IsLight :
    (bs : Bytes) (v w : ℕ) (r : Result RewriteError Bytes)
    → weight bs + v ≤ w
    → IsLight v r
    → IsLight w (text_written bs r)
text_written-IsLight bs v w (err e) light h = h
text_written-IsLight bs v w (ok text) light h = omega (arith, weight-append bs text)

module _ (again : Bytes → Result RewriteError Bytes) (n : ℕ)
    (calls : (s : Bytes) → weight s < n → IsLight (weight s) (again s)) where
  module _ (src : Bytes) (light : weight src ≤ n) where
    after_body :
        (m i close : ℕ) (r : Result RewriteError Bytes)
        → i + 2 ≤ close
        → close < length src
        → byte_weight (at src i) ≡ 1
        → IsLight (weight (slice src (i + 2) close)) r
        → IsString (close + 1) src (string_from again m src (close + 1))
        → IsString i src (elim r [
          | err e ↦ err e
          | ok body ↦
              written ((92 ∷ 40 ∷ []) ++ body ++ 41 ∷ []) (string_from again m src (close + 1))
        ])
    after_body m i close (err e) le lt one h rest = h
    after_body m i close (ok body) le lt one h rest =
        written-IsString ((92 ∷ 40 ∷ []) ++ body ++ 41 ∷ []) src i (close + 1)
          (string_from again m src (close + 1)) (omega arith)
          (omega (
            arith,
            weight-append body (41 ∷ []),
            weight-drop_two src i (omega arith),
            weight-slice src (i + 2) close le,
            weight-drop-at src close lt,
          ))
          rest

    after_close :
        (m i : ℕ) (r : Result RewriteError ℕ)
        → i < length src
        → byte_weight (at src i) ≡ 1
        → IsWithin (i + 2) src r
        → ((j : ℕ) → i < j → j ≤ length src → IsString j src (string_from again m src j))
        → IsString i src (elim r [
          | err e ↦ err e
          | ok close ↦ elim (again (slice src (i + 2) close)) [
            | err e ↦ err e
            | ok body ↦
                written ((92 ∷ 40 ∷ []) ++ body ++ 41 ∷ []) (string_from again m src (close + 1))
          ]
        ])
    after_close m i (err e) inside one h rest = IsUnterminated-out_of_fuel e h
    after_close m i (ok close) inside one (le, lt, closing_byte) rest =
        after_body m i close (again (slice src (i + 2) close)) le lt one
          (calls (slice src (i + 2) close) (
            omega (
              arith,
              weight-drop_two src i (omega arith),
              weight-slice src (i + 2) close le,
              weight-drop src i,
            )))
          (rest (close + 1) (omega arith) (omega arith))

    -- The scan goes on behind `i`.
    Onwards : ℕ → ℕ → Type 0
    Onwards m i = (j : ℕ) → i < j → j ≤ length src → IsString j src (string_from again m src j)

    literal_step :
        (m i : ℕ)
        → Onwards m i
        → (b : StringByte) → string_byte src i ≡ b
        → IsString i src (string_from again (suc m) src i)
    unfolding string_from Onwards
    literal_step m i rest past_end e = rw (e, string_from) (λ h. cc h)
    literal_step m i rest interpolation e =
        let inside = string_byte_inside src i interpolation e (λ h. cc h) in
        rw (e, string_from)
          (after_close m i (matching_interpolation_close src (i + 1)) inside (ground arith)
            (IsWithin-weaken (i + 2) (i + 1 + 1) src (matching_interpolation_close src (i + 1))
              (omega arith) (matching_interpolation_close-IsWithin src (i + 1) (ground arith)))
            rest)
    literal_step m i rest quote e =
        let inside = string_byte_inside src i quote e (λ h. cc h) in
        rw (e, string_from)
          (omega arith, omega (arith, inside), omega (arith, weight-drop-at src i inside))
    literal_step m i rest other e =
        let inside = string_byte_inside src i other e (λ h. cc h) in
        rw (e, string_from)
          (written-IsString (at src i ∷ []) src i (i + 1) (string_from again m src (i + 1))
            (omega arith) (omega (arith, weight-drop-at src i inside))
            (rest (i + 1) (omega arith) (omega (arith, inside))))
    literal_step m i rest escape e =
        let inside = string_byte_inside src i escape e (λ h. cc h) in
        elim (Bool-cases (ltb (i + 1) (length src))) [
          | inl more ↦
              rw (e, more, string_from)
                (written-IsString (at src i ∷ at src (i + 1) ∷ []) src i (i + 2)
                  (string_from again m src (i + 2)) (omega arith)
                  (omega (arith, weight-drop_two src i (ltb_less more)))
                  (rest (i + 2) (omega arith) (omega (arith, ltb_less more))))
          | inr last ↦
              rw (e, last, string_from)
                (written-IsString (at src i ∷ []) src i (i + 1) (string_from again m src (i + 1))
                  (omega arith) (omega (arith, weight-drop-at src i inside))
                  (rest (i + 1) (omega arith) (omega (arith, inside))))
        ]

    string_from-IsString :
        (m i : ℕ) → length src < i + m → 0 < m → IsString i src (string_from again m src i)
    unfolding Onwards
    string_from-IsString zero i enough fuel = absurd (omega arith)
    string_from-IsString (suc m) i enough fuel =
        literal_step m i (λ j less le. string_from-IsString m j (omega arith) (omega arith))
          (string_byte src i) refl

    rewrite_string-IsString : (i : ℕ) → i < length src → IsString i src (rewrite_string again src i)
    rewrite_string-IsString i inside =
        written-IsString (at src i ∷ []) src i (i + 1)
          (string_from again (length src + 1) src (i + 1)) (omega arith)
          (omega (arith, weight-drop-at src i inside))
          (string_from-IsString (length src + 1) (i + 1) (omega arith) (omega arith))

    code_from-IsLight :
        (m i : ℕ)
        → length src < i + m
        → i ≤ length src
        → IsLight (weight (drop i src)) (code_from again m src i)
    unfolding code_from
    code_from-IsLight zero i enough le = absurd (omega arith)
    code_from-IsLight (suc m) i enough le = elim (Bool-cases (ltb i (length src))) [
      | inr ge ↦ rw (ge, code_from) (omega arith)
      | inl lt ↦ elim (Bool-cases (at src i == 35)) [
        | inl e ↦ rw (lt, e, code_from) (comment (ltb_less lt) e (λ j. code_from-IsLight m j))
        | inr e ↦ elim (Bool-cases (at src i == 34)) [
          | inl f ↦
              rw (lt, e, f, code_from)
                (string (rewrite_string again src i) (rewrite_string-IsString i (ltb_less lt))
                  (λ j. code_from-IsLight m j))
          | inr f ↦
              rw (lt, e, f, code_from)
                (text_written-IsLight (at src i ∷ []) (weight (drop (i + 1) src)) _
                  (code_from again m src (i + 1))
                  (omega (arith, weight-drop-at src i (ltb_less lt)))
                  (code_from-IsLight m (i + 1) (omega arith) (omega (arith, ltb_less lt))))
        ]
      ]
    ]
      where
        Later : Type 0
        Later =
            (j : ℕ)
            → length src < j + m
            → j ≤ length src
            → IsLight (weight (drop j src)) (code_from again m src j)

        comment :
            i < length src
            → (at src i == 35) ≡ true
            → Later
            → IsLight (weight (drop i src)) (
                text_written
                  (slice src i (skip_line_comment src i))
                  (code_from again m src (skip_line_comment src i)))
        comment inside e rest =
            let less = skip_line_comment_advances src i inside e in
            text_written-IsLight (slice src i (skip_line_comment src i))
              (weight (drop (skip_line_comment src i) src)) _
              (code_from again m src (skip_line_comment src i))
              (omega (arith, weight-slice src i (skip_line_comment src i) (omega (arith, less))))
              (rest (skip_line_comment src i) (omega (arith, less))
                (skip_line_comment_bounded src i (omega arith)))

        string :
            (r : Written)
            → IsString i src r
            → Later
            → IsLight (weight (drop i src)) (elim r [
              | err e ↦ err e
              | ok (text, next) ↦ text_written text (code_from again m src next)
            ])
        string (err e) h rest = h
        string (ok (text, next)) (less, within, share) rest =
            text_written-IsLight text (weight (drop next src)) _ (code_from again m src next) share
              (rest next (omega arith) within)

  pub rewrite_interpolations-IsLight :
      (src : Bytes) → weight src ≤ n → IsLight (weight src) (rewrite_interpolations again src)
  rewrite_interpolations-IsLight src light =
      code_from-IsLight src light (length src + 1) 0 (omega arith) (omega arith)
