-- ===== src/Desugar/Loop/Laws.antt =====
-- What holds of each return of a loop's body holds of the loop, and a loop whose rounds advance
-- ends.
use ajq.Prelude.{
  ℕ, zero, suc, ◌+◌, ◌-◌, ◌≤◌, ◌<◌, Bool, true, false, ltb, ltb_less, ltb_not_less, ◌≡◌, refl,
  arith, Bool-cases, inl, inr, if◌then◌else◌,
}
use ajq.Desugar.Loop.{Turn, stop, go, rounds, loop}

module _ {ℓ κ μ} {S : Type ℓ} {R : Type κ} (Q : R → Type μ) where
  abbrev pub TurnHolds : Turn S R → Type μ
  TurnHolds (stop r) = Q r
  TurnHolds (go j t) = Unit

  module _ (body : ℕ → S → Turn S R) (finish : S → R) (limit : ℕ) (at_end : (s : S) → Q (finish s))
      (at_stop : (i : ℕ) (s : S) → i < limit → TurnHolds (body i s)) where
    pub rounds-Holds : (n i : ℕ) (s : S) → Q (rounds body finish limit n i s)
    unfolding rounds
    rounds-Holds zero i s = at_end s
    rounds-Holds (suc n) i s = elim (Bool-cases (ltb i limit)) [
      | inr ge ↦ rw (ge, rounds) (at_end s)
      | inl lt ↦
          rw (lt, rounds) (turn (body i s) (λ j t. rounds-Holds n j t) (at_stop i s (ltb_less lt)))
    ]
      where
        turn :
            (x : Turn S R)
            → ((j : ℕ) (t : S) → Q (rounds body finish limit n j t))
            → TurnHolds x
            → Q (elim x [ stop r ↦ r | go j t ↦ rounds body finish limit n j t ])
        turn (stop r) ih h = h
        turn (go j t) ih h = ih j t

-- The same with an invariant of the variables.
module _ {ℓ κ μ} {S : Type ℓ} {R : Type κ} (Q : R → Type μ) (Inv : ℕ → S → Type μ) where
  abbrev pub TurnKeeps : Turn S R → Type μ
  TurnKeeps (stop r) = Q r
  TurnKeeps (go j t) = Inv j t

  module _ (body : ℕ → S → Turn S R) (finish : S → R) (limit : ℕ)
      (at_end : (i : ℕ) (s : S) → Inv i s → Q (finish s))
      (keeps : (i : ℕ) (s : S) → i < limit → Inv i s → TurnKeeps (body i s)) where
    pub rounds-Keeps : (n i : ℕ) (s : S) → Inv i s → Q (rounds body finish limit n i s)
    unfolding rounds
    rounds-Keeps zero i s h = at_end i s h
    rounds-Keeps (suc n) i s h = elim (Bool-cases (ltb i limit)) [
      | inr ge ↦ rw (ge, rounds) (at_end i s h)
      | inl lt ↦
          rw (lt, rounds)
            (turn (body i s) (λ j t k. rounds-Keeps n j t k) (keeps i s (ltb_less lt) h))
    ]
      where
        turn :
            (x : Turn S R)
            → ((j : ℕ) (t : S) → Inv j t → Q (rounds body finish limit n j t))
            → TurnKeeps x
            → Q (elim x [ stop r ↦ r | go j t ↦ rounds body finish limit n j t ])
        turn (stop r) ih k = k
        turn (go j t) ih k = ih j t k

-- A round goes on behind its position.
abbrev pub IsBeyond {ℓ κ} : {S : Type ℓ} {R : Type κ} → ℕ → Turn S R → Type 0
IsBeyond i (stop r) = Unit
IsBeyond i (go j t) = i < j

pub if-IsBeyond {ℓ κ} :
    {S : Type ℓ} {R : Type κ} (i : ℕ) (b : Bool) (x y : Turn S R)
    → (b ≡ true → IsBeyond i x)
    → (b ≡ false → IsBeyond i y)
    → IsBeyond i (if b then x else y)
if-IsBeyond i true x y f g = f refl
if-IsBeyond i false x y f g = g refl

-- The loop of the source, which has no bound on its rounds: from a position and with its variables it
-- ends with a result. No round that stays where it is ends.
pub data Ends {ℓ κ} {S : Type ℓ} {R : Type κ} (body : ℕ → S → Turn S R) (finish : S → R) (limit : ℕ)
    : ℕ → S → R → Type (ℓ ⊔ κ) where
  at_limit : {i : ℕ} {s : S} → limit ≤ i → Ends body finish limit i s (finish s)
  returns : {i : ℕ} {s : S} {r : R} → i < limit → body i s ≡ stop r → Ends body finish limit i s r
  goes_on :
      {i j : ℕ} {s t : S} {r : R}
      → i < limit
      → body i s ≡ go j t
      → Ends body finish limit j t r
      → Ends body finish limit i s r

module _ {ℓ κ} {S : Type ℓ} {R : Type κ} (body : ℕ → S → Turn S R) (finish : S → R)
    (limit : ℕ) where
  -- From everywhere, the loop of the source ends with what the model's gives.
  abbrev pub AlwaysEnds : Type (ℓ ⊔ κ)
  AlwaysEnds = (i : ℕ) (s : S) → Ends body finish limit i s (loop body finish limit i s)

  module _ (advances : (i : ℕ) (s : S) → i < limit → IsBeyond i (body i s)) where
    rounds-Ends :
        (n i : ℕ) (s : S)
        → limit ≤ i + n
        → Ends body finish limit i s (rounds body finish limit n i s)
    unfolding rounds
    rounds-Ends zero i s enough = at_limit (omega arith)
    rounds-Ends (suc n) i s enough = elim (Bool-cases (ltb i limit)) [
      | inr ge ↦ rw (ge, rounds) (at_limit (ltb_not_less ge))
      | inl lt ↦
          rw (lt, rounds)
            (turn (body i s) (ltb_less lt) refl (λ j t p. rounds-Ends n j t p)
              (advances i s (ltb_less lt)))
    ]
      where
        turn :
            (x : Turn S R)
            → i < limit
            → body i s ≡ x
            → ((j : ℕ) (t : S)
                → limit ≤ j + n
                → Ends body finish limit j t (rounds body finish limit n j t))
            → IsBeyond i x
            → Ends body finish limit i s
                (elim x [ stop r ↦ r | go j t ↦ rounds body finish limit n j t ])
        turn (stop r) lt e ih h = returns lt e
        turn (go j t) lt e ih h = goes_on lt e (ih j t (omega arith))

    pub loop-AlwaysEnds : AlwaysEnds
    loop-AlwaysEnds i s = rounds-Ends (limit - i) i s (omega arith)
