-- ===== src/Desugar/Loop.antt =====
-- The loops of internal/desugar/desugar.go over positions, `for i := start; i < limit; i++`, whose
-- body may set `i` ahead, continue, or return.
pub mod Laws
use ajq.Prelude.{ℕ, zero, suc, ◌+◌, ◌-◌, ◌≤◌, ◌<◌, Bool, true, false, ltb, ◌≡◌, refl, arith}

-- What a round does: it returns, or the next round is at another position with the loop's variables.
pub data Turn {ℓ κ} (S : Type ℓ) (R : Type κ) : Type (ℓ ⊔ κ) where
  stop : R → Turn S R
  go : ℕ → S → Turn S R

-- The variables of a loop that has none but `i`.
pub data NoState : Type 0 where
  no_state : NoState

module _ {ℓ κ} {S : Type ℓ} {R : Type κ} (body : ℕ → S → Turn S R) (finish : S → R)
    (limit : ℕ) where
  unfoldable pub rounds : ℕ → ℕ → S → R
  rounds zero i s = finish s
  rounds (suc n) i s = elim (ltb i limit) [
    | false ↦ finish s
    | true ↦ elim (body i s) [ stop r ↦ r | go j t ↦ rounds n j t ]
  ]

  -- No loop takes more rounds than there are positions.
  abbrev pub loop : ℕ → S → R
  loop i s = rounds (limit - i) i s
