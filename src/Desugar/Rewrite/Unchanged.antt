-- ===== src/Desugar/Rewrite/Unchanged.antt =====
-- A query without `~` has no operator to rewrite.
pub mod Copies
use ajq.Prelude.{
  ℕ, zero, suc, ◌+◌, ◌-◌, ◌≤◌, ◌<◌, Bool, true, false, [], ◌∷◌, ◌++◌, append_assoc, Option, none,
  some, Bytes, ltb, ltb_less, ltb_not_less, ◌≡◌, ◌∙◌, refl, sym, ap, arith, ◌==◌, length, take,
  drop, take-append-drop, All, Bool-cases, inl, inr,
}
use native.Mathlib.Numerals.{unary_clauses}
use ajq.Result.{Result, ok, err}
use ajq.Desugar.Scan.{
  RewriteError, at, slice, skip_line_comment, StringByte, past_end, interpolation, escape, quote,
  other, string_byte, matching_interpolation_close,
}
use ajq.Desugar.Scan.Bounds.{
  IsUnterminated, IsWithin, IsWithin-weaken, string_byte_inside, skip_line_comment_bounded,
  skip_line_comment_advances, matching_interpolation_close-IsWithin,
}
use ajq.Desugar.Operand.{next_operator}
use ajq.Desugar.Rewrite.{
  Written, written, text_written, string_from, rewrite_string, code_from, rewrite_interpolations,
  operators_from, byte_weight, weight, operators_in, rewrite_to_depth, rewrite,
}
use ajq.Desugar.Rewrite.Weight.{drop-drop, weight-slice, weight-drop, weight-drop_two}
use ajq.Desugar.Rewrite.Sides.{IsOperator, next_operator-IsOperator}
use ajq.Desugar.Rewrite.Unchanged.Copies.{
  IsPlain, IsUnchanged, IsPlain-drop, IsPlain-take, at-IsPlain, drop-at, drop_two, drop_all,
  slice-drop, IsCopy, written-IsCopy, text_written-IsUnchanged, interpolation_copy,
}

module _ (again : Bytes → Result RewriteError Bytes) (n : ℕ)
    (calls : (s : Bytes) → IsPlain s → weight s < n → IsUnchanged s (again s)) where
  module _ (src : Bytes) (bare : IsPlain src) (light : weight src ≤ n) where
    -- The scan goes on behind `i`.
    abbrev Onwards : ℕ → ℕ → Type 0
    Onwards m i = (j : ℕ) → i < j → j ≤ length src → IsCopy j src (string_from again m src j)

    after_body :
        (m i close : ℕ) (r : Result RewriteError Bytes)
        → i + 2 ≤ close
        → close < length src
        → at src i ≡ 92
        → at src (i + 1) ≡ 40
        → at src close ≡ 41
        → IsUnchanged (slice src (i + 2) close) r
        → IsCopy (close + 1) src (string_from again m src (close + 1))
        → IsCopy i src (elim r [
          | err e ↦ err e
          | ok body ↦
              written ((92 ∷ 40 ∷ []) ++ body ++ 41 ∷ []) (string_from again m src (close + 1))
        ])
    after_body m i close (err e) le lt one two three h rest = h
    after_body m i close (ok body) le lt one two three h rest = rw h (
        written-IsCopy ((92 ∷ 40 ∷ []) ++ slice src (i + 2) close ++ 41 ∷ []) src i (close + 1)
          (string_from again m src (close + 1)) (omega arith)
          (interpolation_copy src i close le lt one two three) rest)

    after_close :
        (m i : ℕ) (r : Result RewriteError ℕ)
        → at src i ≡ 92
        → at src (i + 1) ≡ 40
        → IsWithin (i + 2) src r
        → Onwards m i
        → IsCopy i src (elim r [
          | err e ↦ err e
          | ok close ↦ elim (again (slice src (i + 2) close)) [
            | err e ↦ err e
            | ok body ↦
                written ((92 ∷ 40 ∷ []) ++ body ++ 41 ∷ []) (string_from again m src (close + 1))
          ]
        ])
    after_close m i (err e) one two h rest = h
    after_close m i (ok close) one two (le, lt, three) rest =
        after_body m i close (again (slice src (i + 2) close)) le lt one two three
          (calls (slice src (i + 2) close)
            (IsPlain-take (close - (i + 2)) (drop (i + 2) src) (IsPlain-drop (i + 2) src bare))
            (omega (
              arith,
              weight-drop_two src i (omega arith),
              weight-slice src (i + 2) close le,
              weight-drop src i,
              backslash,
            )))
          (rest (close + 1) (omega arith) (omega arith))
      where
        backslash : byte_weight (at src i) ≡ 1
        backslash = rw one refl

    literal_step :
        (m i : ℕ)
        → Onwards m i
        → (b : StringByte) → string_byte src i ≡ b
        → IsCopy i src (string_from again (suc m) src i)
    unfolding string_from
    literal_step m i rest past_end e = rw (e, string_from) tt
    literal_step m i rest interpolation e =
        let inside = string_byte_inside src i interpolation e (λ h. cc h) in
        rw (e, string_from)
          (after_close m i (matching_interpolation_close src (i + 1)) (ground arith) (ground arith)
            (IsWithin-weaken (i + 2) (i + 1 + 1) src (matching_interpolation_close src (i + 1))
              (omega arith) (matching_interpolation_close-IsWithin src (i + 1) (ground arith)))
            rest)
    literal_step m i rest quote e =
        let inside = string_byte_inside src i quote e (λ h. cc h) in
        rw (e, string_from) (omega arith, omega (arith, inside), sym (drop-at src i inside))
    literal_step m i rest other e =
        let inside = string_byte_inside src i other e (λ h. cc h) in
        rw (e, string_from)
          (written-IsCopy (at src i ∷ []) src i (i + 1) (string_from again m src (i + 1))
            (omega arith) (sym (drop-at src i inside))
            (rest (i + 1) (omega arith) (omega (arith, inside))))
    literal_step m i rest escape e =
        let inside = string_byte_inside src i escape e (λ h. cc h) in
        elim (Bool-cases (ltb (i + 1) (length src))) [
          | inl more ↦
              rw (e, more, string_from)
                (written-IsCopy (at src i ∷ at src (i + 1) ∷ []) src i (i + 2)
                  (string_from again m src (i + 2)) (omega arith)
                  (sym (drop_two src i (ltb_less more)))
                  (rest (i + 2) (omega arith) (omega (arith, ltb_less more))))
          | inr last ↦
              rw (e, last, string_from)
                (written-IsCopy (at src i ∷ []) src i (i + 1) (string_from again m src (i + 1))
                  (omega arith) (sym (drop-at src i inside))
                  (rest (i + 1) (omega arith) (omega (arith, inside))))
        ]

    string_from-IsCopy :
        (m i : ℕ) → length src < i + m → 0 < m → IsCopy i src (string_from again m src i)
    string_from-IsCopy zero i enough fuel = absurd (omega arith)
    string_from-IsCopy (suc m) i enough fuel =
        literal_step m i (λ j less le. string_from-IsCopy m j (omega arith) (omega arith))
          (string_byte src i) refl

    rewrite_string-IsCopy : (i : ℕ) → i < length src → IsCopy i src (rewrite_string again src i)
    rewrite_string-IsCopy i inside =
        written-IsCopy (at src i ∷ []) src i (i + 1)
          (string_from again (length src + 1) src (i + 1)) (omega arith)
          (sym (drop-at src i inside))
          (string_from-IsCopy (length src + 1) (i + 1) (omega arith) (omega arith))

    -- The loop of `rewriteInterpolations` goes on behind `i`.
    abbrev Later : ℕ → Type 0
    Later m =
        (j : ℕ)
        → length src < j + m
        → j ≤ length src
        → IsUnchanged (drop j src) (code_from again m src j)

    comment_case :
        (m i : ℕ)
        → length src < i + suc m
        → i < length src
        → (at src i == 35) ≡ true
        → Later m
        → IsUnchanged (drop i src) (
            text_written
              (slice src i (skip_line_comment src i))
              (code_from again m src (skip_line_comment src i)))
    comment_case m i enough inside e rest =
        let less = skip_line_comment_advances src i inside e in
        text_written-IsUnchanged (slice src i (skip_line_comment src i))
          (drop (skip_line_comment src i) src) _ (code_from again m src (skip_line_comment src i))
          (slice-drop src i (skip_line_comment src i) (omega (arith, less)))
          (rest (skip_line_comment src i) (omega (arith, less))
            (skip_line_comment_bounded src i (omega arith)))

    literal_case :
        (m i : ℕ)
        → length src < i + suc m
        → (r : Written) → IsCopy i src r
        → Later m
        → IsUnchanged (drop i src) (elim r [
          | err e ↦ err e
          | ok (text, next) ↦ text_written text (code_from again m src next)
        ])
    literal_case m i enough (err e) h rest = h
    literal_case m i enough (ok (text, next)) (less, within, same) rest =
        text_written-IsUnchanged text (drop next src) _ (code_from again m src next) same
          (rest next (omega arith) within)

    code_from-IsUnchanged :
        (m i : ℕ)
        → length src < i + m
        → i ≤ length src
        → IsUnchanged (drop i src) (code_from again m src i)
    unfolding code_from
    code_from-IsUnchanged zero i enough le = absurd (omega arith)
    code_from-IsUnchanged (suc m) i enough le = elim (Bool-cases (ltb i (length src))) [
      | inr ge ↦ rw (ge, code_from) (sym (drop_all src i (ltb_not_less ge)))
      | inl lt ↦ elim (Bool-cases (at src i == 35)) [
        | inl e ↦
            rw (lt, e, code_from)
              (comment_case m i enough (ltb_less lt) e (λ j. code_from-IsUnchanged m j))
        | inr e ↦ elim (Bool-cases (at src i == 34)) [
          | inl f ↦
              rw (lt, e, f, code_from)
                (literal_case m i enough (rewrite_string again src i)
                  (rewrite_string-IsCopy i (ltb_less lt)) (λ j. code_from-IsUnchanged m j))
          | inr f ↦
              rw (lt, e, f, code_from)
                (text_written-IsUnchanged (at src i ∷ []) (drop (i + 1) src) _
                  (code_from again m src (i + 1)) (sym (drop-at src i (ltb_less lt)))
                  (code_from-IsUnchanged m (i + 1) (omega arith) (omega (arith, ltb_less lt))))
        ]
      ]
    ]

  -- There is no operator where there is no `~`.
  no_operator_found :
      (src : Bytes) → IsPlain src → (o : Option (ℕ × Bool)) → IsOperator src o → o ≡ none
  no_operator_found src bare none h = refl
  no_operator_found src bare (some (op, negated)) (inside, tilde) =
      absurd (ground (arith, at-IsPlain (op + 1) src bare))

  operators_from-IsUnchanged :
      (src : Bytes) (m : ℕ) (out : Bytes)
      → 0 < m
      → next_operator out 0 ≡ none
      → out ≡ src
      → IsUnchanged src (operators_from again m out 0)
  unfolding operators_from
  operators_from-IsUnchanged src zero out lt e h = absurd (omega arith)
  operators_from-IsUnchanged src (suc m) out lt e h = rw (e, operators_from) h

  operators_in-IsUnchanged :
      (src : Bytes)
      → IsPlain src
      → (r : Result RewriteError Bytes) → IsUnchanged src r
      → IsUnchanged src (operators_in again r)
  operators_in-IsUnchanged src bare (err e) h = h
  operators_in-IsUnchanged src bare (ok out) h =
      operators_from-IsUnchanged src (weight out + 1) out (omega arith)
        (no_operator_found out (rw h bare) (next_operator out 0) (next_operator-IsOperator out 0)) h

rewrite_to_depth-IsUnchanged :
    (n : ℕ) (src : Bytes) → IsPlain src → weight src < n → IsUnchanged src (rewrite_to_depth n src)
unfolding rewrite_to_depth
rewrite_to_depth-IsUnchanged zero src bare lt = absurd (omega arith)
rewrite_to_depth-IsUnchanged (suc n) src bare lt =
    operators_in-IsUnchanged (rewrite_to_depth n) n
      (λ s h less. rewrite_to_depth-IsUnchanged n s h less) src bare
      (rewrite_interpolations (rewrite_to_depth n) src)
      (code_from-IsUnchanged (rewrite_to_depth n) n
        (λ s h less. rewrite_to_depth-IsUnchanged n s h less) src bare (omega arith)
        (length src + 1) 0 (omega arith) (omega arith))

-- `Rewrite` gives a query back as it is if none of its bytes is `~`, so jq itself is left alone; it
-- refuses such a query only for a string literal or an interpolation that is not terminated.
pub rewrite-IsUnchanged : (src : Bytes) → IsPlain src → IsUnchanged src (rewrite src)
rewrite-IsUnchanged src bare = rewrite_to_depth-IsUnchanged (weight src + 1) src bare (omega arith)
