-- ===== src/Engine/Resolve/Vetted/Checked.antt =====
-- The results that pass their checks.
use ajq.Prelude.{
  ℕ, zero, suc, ◌+◌, List, [], ◌∷◌, none, some, ◌≡◌, inl, inr, arith, str_eq, str_eq_iff,
  Bool-cases, Option-cases,
}
use ajq.Backend.{Judgement, Answer}
use ajq.Engine.{EngineError}
use ajq.Engine.Resolve.{Pending, validate_result, check_result, first_failure}

-- The first `n` results pass the checks.
abbrev pub Passes : ℕ → ℕ → List Pending → List Answer → Type 0
Passes i zero ps rs = Unit
Passes i (suc n) [] rs = Unit
Passes i (suc n) (p ∷ ps) [] = Unit
Passes i (suc n) (p ∷ ps) (r ∷ rs) = (check_result i p.judgement r ≡ none) × Passes (i + 1) n ps rs

pub Passes-all :
    (i n : ℕ) (ps : List Pending) (rs : List Answer)
    → first_failure i ps rs ≡ none
    → Passes i n ps rs
unfolding first_failure
Passes-all i zero ps rs h = tt
Passes-all i (suc n) [] rs h = tt
Passes-all i (suc n) (p ∷ ps) [] h = tt
Passes-all i (suc n) (p ∷ ps) (r ∷ rs) h = elim (Option-cases (check_result i p.judgement r)) [
  | inl fine ↦ (fine, Passes-all (i + 1) n ps rs (rw (fine, first_failure) at h))
  | inr (e, bad) ↦ cc (rw (bad, first_failure) at h)
]

pub Passes-before :
    (i n : ℕ) (ps : List Pending) (rs : List Answer) {at fr : ℕ} {e : EngineError}
    → first_failure i ps rs ≡ some (at, fr, e)
    → at ≡ i + n
    → Passes i n ps rs
unfolding first_failure
Passes-before i zero ps rs h q = tt
Passes-before i (suc n) [] rs h q = tt
Passes-before i (suc n) (p ∷ ps) [] h q = tt
Passes-before i (suc n) (p ∷ ps) (r ∷ rs) {at} h q =
    elim (Option-cases (check_result i p.judgement r)) [
      | inl fine ↦
          (fine, Passes-before (i + 1) n ps rs (rw (fine, first_failure) at h) (omega arith))
      | inr (e, bad) ↦ let same : i ≡ at = cc (rw (bad, first_failure) at h) in absurd (omega arith)
    ]

pub check_result-none :
    (i : ℕ) (j : Judgement) (r : Answer)
    → check_result i j r ≡ none
    → (r.error ≡ "") × (validate_result j r ≡ none)
unfolding check_result
check_result-none i j r h = elim (Bool-cases (str_eq r.error "")) [
  | inl blank ↦ (
    (str_eq_iff r.error "").0 blank,
    elim (Option-cases (validate_result j r)) [
      | inl fine ↦ fine
      | inr (e, bad) ↦ cc (rw (blank, bad) at h)
    ],
  )
  | inr failed ↦ cc (rw failed at h)
]
