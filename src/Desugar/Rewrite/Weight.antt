-- ===== src/Desugar/Rewrite/Weight.antt =====
-- How the weight of a text is shared among its parts.
use ajq.Prelude.{
  ℕ, zero, suc, ◌+◌, ◌-◌, ◌≤◌, ◌<◌, Bool, true, false, [], ◌∷◌, ◌++◌, Bytes, ◌≡◌, ◌∙◌, refl, arith,
  length, take, drop, take-append-drop, Bool-cases, inl, inr,
}
use native.Mathlib.Numerals.{unary_clauses}
use ajq.Desugar.Scan.{at, slice}
use ajq.Desugar.Rewrite.{
  byte_weight, weight, trim_space, call_text, negated_text, needs_separator, separated_text,
  Operands, is_dot, not_text, replacement_text, spliced,
}

pub weight-append : (xs ys : Bytes) → weight (xs ++ ys) ≡ weight xs + weight ys
weight-append [] ys = omega arith
weight-append (x ∷ xs) ys = omega (arith, weight-append xs ys)

weight-append_two :
    (xs ys zs : Bytes) → weight (xs ++ ys ++ zs) ≡ weight xs + (weight ys + weight zs)
weight-append_two xs ys zs = omega (arith, weight-append (xs ++ ys) zs, weight-append xs ys)

drop-nil : (n : ℕ) → drop {A = ℕ} n [] ≡ []
drop-nil zero = refl
drop-nil (suc n) = refl

pub drop-drop : (a n : ℕ) (xs : Bytes) → drop n (drop a xs) ≡ drop (a + n) xs
drop-drop zero n xs = rw same
  where
    same : 0 + n ≡ n
    same = omega arith
drop-drop (suc a) n [] = rw (drop-nil n, drop-nil (suc a + n))
drop-drop (suc a) n (x ∷ xs) = drop-drop a n xs ∙ rw same
  where
    same : suc a + n ≡ suc (a + n)
    same = omega arith

pub weight-take : (n : ℕ) (xs : Bytes) → weight xs ≡ weight (take n xs) + weight (drop n xs)
weight-take n xs = rw (take-append-drop n xs) at (weight-append (take n xs) (drop n xs))

-- A slice and what lies behind it.
pub weight-slice :
    (src : Bytes) (a b : ℕ)
    → a ≤ b
    → weight (drop a src) ≡ weight (slice src a b) + weight (drop b src)
weight-slice src a b le = rw (drop-drop a (b - a) src, back) at (weight-take (b - a) (drop a src))
  where
    back : a + (b - a) ≡ b
    back = omega arith

pub weight-drop : (src : Bytes) (i : ℕ) → weight (drop i src) ≤ weight src
weight-drop src i = omega (arith, weight-take i src)

pub weight-drop-at :
    (src : Bytes) (i : ℕ)
    → i < length src
    → weight (drop i src) ≡ byte_weight (at src i) + weight (drop (i + 1) src)
weight-drop-at [] i lt = absurd (omega arith)
weight-drop-at (x ∷ src) zero lt = refl
weight-drop-at (x ∷ src) (suc i) lt =
    simp unary_clauses (rw same at (weight-drop-at src i (omega arith)))
  where
    same : i + 1 ≡ suc i
    same = omega arith

pub weight-drop_two :
    (src : Bytes) (i : ℕ)
    → i + 1 < length src
    → weight (drop i src)
      ≡ byte_weight (at src i) + (byte_weight (at src (i + 1)) + weight (drop (i + 2) src))
weight-drop_two src i lt =
    omega (arith, weight-drop-at src i (omega arith), rw same at (weight-drop-at src (i + 1) lt))
  where
    same : i + 1 + 1 ≡ i + 2
    same = omega arith

-- Trimming a text does not add to it.
pub weight-slice_bounded : (src : Bytes) (a b : ℕ) → weight (slice src a b) ≤ weight src
weight-slice_bounded src a b = omega (arith, weight-take (b - a) (drop a src), weight-drop src a)

pub weight-trim_space : (bs : Bytes) → weight (trim_space bs) ≤ weight bs
unfolding trim_space
weight-trim_space bs = weight-slice_bounded bs _ _

weight-call_text : (left right : Bytes) → weight (call_text left right) ≤ weight left + weight right
weight-call_text left right = elim (Bool-cases (is_dot left)) [
  | inl e ↦ rw e (omega (arith, weight-append right (41 ∷ [])))
  | inr e ↦ rw e (
      omega
        (arith, weight-append left (59 ∷ 32 ∷ (right ++ 41 ∷ [])), weight-append right (41 ∷ [])))
]

weight-negated_text : (b : Bool) (call : Bytes) → weight (negated_text b call) ≤ weight call
weight-negated_text true call = omega (arith, weight-append call not_text)
weight-negated_text false call = omega arith

weight-separated_text :
    (src : Bytes) (start : ℕ) (call : Bytes) → weight (separated_text src start call) ≤ weight call
weight-separated_text src start call = elim (Bool-cases (needs_separator src start call)) [
  | inl e ↦ rw e (omega arith)
  | inr e ↦ rw e (omega arith)
]

-- The text that replaces an operator weighs no more than what it is made of.
pub weight-replaced :
    (out : Bytes) (negated : Bool) (o : Operands) (left right : Bytes)
    → weight (spliced out o (replacement_text out negated o left right))
      ≤ weight (take o.left_start out)
        + (weight left + (weight right + weight (drop o.right_end out)))
weight-replaced out negated o left right = omega (
  arith,
  parts,
  weight-separated_text out o.left_start (negated_text negated (call_text left right)),
  weight-negated_text negated (call_text left right),
  weight-call_text left right,
)
  where
    parts :
        weight (spliced out o (replacement_text out negated o left right))
        ≡ weight (take o.left_start out)
          + (weight (replacement_text out negated o left right) + weight (drop o.right_end out))
    parts =
        weight-append_two (take o.left_start out) (replacement_text out negated o left right)
          (drop o.right_end out)
