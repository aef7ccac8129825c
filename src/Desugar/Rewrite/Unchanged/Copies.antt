-- ===== src/Desugar/Rewrite/Unchanged/Copies.antt =====
-- Texts without `~`, and what is written of them.
use ajq.Prelude.{
  ℕ, zero, suc, ◌+◌, ◌-◌, ◌≤◌, ◌<◌, false, [], ◌∷◌, ◌++◌, append_assoc, Bytes, ◌≡◌, ◌∙◌, refl, ap,
  arith, ◌==◌, length, take, drop, take-append-drop, All,
}
use native.Mathlib.Numerals.{unary_clauses}
use ajq.Result.{Result, ok, err}
use ajq.Desugar.Scan.{RewriteError, at, slice}
use ajq.Desugar.Scan.Bounds.{IsUnterminated}
use ajq.Desugar.Rewrite.{Written, written, text_written}
use ajq.Desugar.Rewrite.Weight.{drop-drop}

-- No byte of the text is `~`.
abbrev pub IsPlain : Bytes → Type 0
IsPlain bs = All (λ b. (b == 126) ≡ false) bs

-- The text is given back, or a literal in it is not terminated.
abbrev pub IsUnchanged : Bytes → Result RewriteError Bytes → Type 0
IsUnchanged src (ok text) = text ≡ src
IsUnchanged src (err e) = IsUnterminated e

pub IsPlain-drop : (n : ℕ) (bs : Bytes) → IsPlain bs → IsPlain (drop n bs)
IsPlain-drop zero bs h = h
IsPlain-drop (suc n) [] h = h
IsPlain-drop (suc n) (b ∷ bs) h = IsPlain-drop n bs h.1

pub IsPlain-take : (n : ℕ) (bs : Bytes) → IsPlain bs → IsPlain (take n bs)
IsPlain-take zero bs h = tt
IsPlain-take (suc n) [] h = tt
IsPlain-take (suc n) (b ∷ bs) h = (h.0, IsPlain-take n bs h.1)

pub at-IsPlain : (i : ℕ) (bs : Bytes) → IsPlain bs → (at bs i == 126) ≡ false
at-IsPlain i [] h = refl
at-IsPlain zero (b ∷ bs) h = h.0
at-IsPlain (suc i) (b ∷ bs) h = at-IsPlain i bs h.1

pub drop-at : (src : Bytes) (i : ℕ) → i < length src → drop i src ≡ at src i ∷ drop (i + 1) src
drop-at [] i lt = absurd (omega arith)
drop-at (x ∷ src) zero lt = refl
drop-at (x ∷ src) (suc i) lt = simp unary_clauses (rw same at (drop-at src i (omega arith)))
  where
    same : i + 1 ≡ suc i
    same = omega arith

pub drop_two :
    (src : Bytes) (i : ℕ)
    → i + 1 < length src
    → drop i src ≡ at src i ∷ at src (i + 1) ∷ drop (i + 2) src
drop_two src i lt =
    drop-at src i (omega arith)
    ∙ ap (λ t. at src i ∷ t) (drop-at src (i + 1) lt ∙ ap (λ k. at src (i + 1) ∷ drop k src) same)
  where
    same : i + 1 + 1 ≡ i + 2
    same = omega arith

pub drop_all : (src : Bytes) (i : ℕ) → length src ≤ i → drop i src ≡ []
drop_all [] zero le = refl
drop_all [] (suc i) le = refl
drop_all (x ∷ src) zero le = absurd (omega arith)
drop_all (x ∷ src) (suc i) le = drop_all src i (omega arith)

pub slice-drop : (src : Bytes) (a b : ℕ) → a ≤ b → slice src a b ++ drop b src ≡ drop a src
slice-drop src a b le =
    rw (drop-drop a (b - a) src, back) at (take-append-drop (b - a) (drop a src))
  where
    back : a + (b - a) ≡ b
    back = omega arith

-- What is written from `i` on is what stands there.
abbrev pub IsCopy : ℕ → Bytes → Written → Type 0
IsCopy i src (ok (text, next)) =
    (i < next) × (next ≤ length src) × (text ++ drop next src ≡ drop i src)
IsCopy i src (err e) = IsUnterminated e

pub written-IsCopy :
    (bs src : Bytes) (i j : ℕ) (r : Written)
    → i ≤ j
    → bs ++ drop j src ≡ drop i src
    → IsCopy j src r
    → IsCopy i src (written bs r)
written-IsCopy bs src i j (err e) le same h = h
written-IsCopy bs src i j (ok (text, next)) le same (less, within, rest) =
    (omega arith, within, append_assoc bs text (drop next src) ∙ rw (rest, same))

pub text_written-IsUnchanged :
    (bs from to : Bytes) (r : Result RewriteError Bytes)
    → bs ++ from ≡ to
    → IsUnchanged from r
    → IsUnchanged to (text_written bs r)
text_written-IsUnchanged bs from to (err e) same h = h
text_written-IsUnchanged bs from to (ok text) same h = rw (h, same)

pub interpolation_copy :
    (src : Bytes) (i close : ℕ)
    → i + 2 ≤ close
    → close < length src
    → at src i ≡ 92
    → at src (i + 1) ≡ 40
    → at src close ≡ 41
    → (92 ∷ 40 ∷ []) ++ slice src (i + 2) close ++ 41 ∷ [] ++ drop (close + 1) src ≡ drop i src
interpolation_copy src i close le lt backslash opening closing =
    cc (tail, drop_two src i (omega arith), backslash, opening)
  where
    last : 41 ∷ drop (close + 1) src ≡ drop close src
    last = cc (drop-at src close lt, closing)

    tail : slice src (i + 2) close ++ 41 ∷ [] ++ drop (close + 1) src ≡ drop (i + 2) src
    tail =
        append_assoc (slice src (i + 2) close) (41 ∷ []) (drop (close + 1) src)
        ∙ ap (λ t. slice src (i + 2) close ++ t) last
        ∙ slice-drop src (i + 2) close le
