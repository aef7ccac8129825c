-- ===== src/Cache/Canonical/Order/Laws.antt =====
-- Byte order is total, and sorting forgets the order of entries with different keys.
use Prim.Native.Char.{code}
use ajq.Prelude.{
  ℕ, String, Bool, true, false, not, ◌&&◌, ◌||◌, List, [], ◌∷◌, ltb, ◌==◌, ◌≡◌, ◌≢◌, refl, sym, ap,
  ◌∙◌, inl, inr, arith, Bool-cases,
}
use text.Mathlib.TextEquality.{Char-path}
use ajq.Cache.Canonical.Order.{str_lt, insert_by_key}

trans_step :
    (h j k : ℕ) (hk hj jk : Bool)
    → (ltb h k || (h == k && hk)) ≡ true
    → (ltb h j || (h == j && hj)) ≡ false
    → (hk ≡ true → hj ≡ false → jk ≡ true)
    → (ltb j k || (j == k && jk)) ≡ true
trans_step h j k hk hj jk less not_less ih = ground arith

str_lt_trans : (h j k : String) → str_lt h k ≡ true → str_lt h j ≡ false → str_lt j k ≡ true
unfolding str_lt
str_lt_trans String.[] String.[] k less not_less = less
str_lt_trans String.[] (String.◌∷◌ d j) k less not_less = cc not_less
str_lt_trans (String.◌∷◌ c h) j String.[] less not_less = cc less
str_lt_trans (String.◌∷◌ c h) String.[] (String.◌∷◌ e k) less not_less = refl
str_lt_trans (String.◌∷◌ c h) (String.◌∷◌ d j) (String.◌∷◌ e k) less not_less =
    trans_step (code c) (code d) (code e) _ _ _ less not_less (str_lt_trans h j k)

asym_step :
    (c d : ℕ) (cd dc : Bool)
    → (cd ≡ true → dc ≡ false)
    → (ltb c d || (c == d && cd)) ≡ true
    → (ltb d c || (d == c && dc)) ≡ false
asym_step c d cd dc ih less = ground arith

str_lt_asym : (s t : String) → str_lt s t ≡ true → str_lt t s ≡ false
unfolding str_lt
str_lt_asym String.[] String.[] less = refl
str_lt_asym String.[] (String.◌∷◌ d t) less = refl
str_lt_asym (String.◌∷◌ c s) String.[] less = cc less
str_lt_asym (String.◌∷◌ c s) (String.◌∷◌ d t) less =
    asym_step (code c) (code d) _ _ (str_lt_asym s t) less

total_step :
    (c d : ℕ) (cd dc : Bool)
    → (ltb c d || (c == d && cd)) ≡ false
    → (ltb d c || (d == c && dc)) ≡ false
    → (c ≡ d) × (cd ≡ false) × (dc ≡ false)
total_step c d cd dc one other = (ground arith, ground arith, ground arith)

str_lt_total : (s t : String) → str_lt s t ≡ false → str_lt t s ≡ false → s ≡ t
unfolding str_lt
str_lt_total String.[] String.[] one other = refl
str_lt_total String.[] (String.◌∷◌ d t) one other = cc one
str_lt_total (String.◌∷◌ c s) String.[] one other = cc other
str_lt_total (String.◌∷◌ c s) (String.◌∷◌ d t) one other =
    let (heads, first, second) = total_step (code c) (code d) _ _ one other in
    cc (Char-path c d heads, str_lt_total s t first second)

-- Of two different strings exactly one is less than the other.
str_lt_flip : (s t : String) → s ≢ t → str_lt t s ≡ not (str_lt s t)
str_lt_flip s t differ = elim (Bool-cases (str_lt s t)) [
  | inl less ↦ rw less (str_lt_asym s t less)
  | inr more ↦ rw more (elim (Bool-cases (str_lt t s)) [
    | inl less ↦ less
    | inr same ↦ absurd (differ (str_lt_total s t more same))
  ])
]

module _ {ℓ} {A : Type ℓ} where
  behind :
      (h k : String) (x a : A) (l : List (String × A))
      → str_lt h k ≡ true
      → insert_by_key k a ((h, x) ∷ l) ≡ (h, x) ∷ insert_by_key k a l
  unfolding insert_by_key
  behind h k x a l less = rw less

  in_front :
      (h k : String) (x a : A) (l : List (String × A))
      → str_lt h k ≡ false
      → insert_by_key k a ((h, x) ∷ l) ≡ (k, a) ∷ (h, x) ∷ l
  unfolding insert_by_key
  in_front h k x a l more = rw more

  -- Two entries in front of all others.
  swap_front :
      (k j : String) (a b : A) (l : List (String × A))
      → k ≢ j
      → insert_by_key k a l ≡ (k, a) ∷ l
      → insert_by_key j b l ≡ (j, b) ∷ l
      → insert_by_key k a ((j, b) ∷ l) ≡ insert_by_key j b ((k, a) ∷ l)
  swap_front k j a b l differ first second = elim (Bool-cases (str_lt j k)) [
    | inl less ↦
        behind j k b a l less
        ∙ ap (λ m. (j, b) ∷ m) first
        ∙ sym (in_front k j a b l (str_lt_asym j k less))
    | inr more ↦
        in_front j k b a l more
        ∙ sym (
            behind k j a b l (str_lt_flip j k (λ e. differ (sym e)) ∙ ap not more)
            ∙ ap (λ m. (k, a) ∷ m) second)
  ]

  alone : (k : String) (a : A) → insert_by_key k a [] ≡ (k, a) ∷ []
  unfolding insert_by_key
  alone k a = refl

  -- Inserting two entries with different keys, in either order.
  pub insert_swap :
      (k j : String) (a b : A) (l : List (String × A))
      → k ≢ j
      → insert_by_key k a (insert_by_key j b l) ≡ insert_by_key j b (insert_by_key k a l)
  insert_swap k j a b [] differ =
      rw (alone j b, alone k a) (swap_front k j a b [] differ (alone k a) (alone j b))
  insert_swap k j a b ((h, x) ∷ l) differ = elim (Bool-cases (str_lt h k)) [
    | inl hk ↦ elim (Bool-cases (str_lt h j)) [
      | inl hj ↦
          rw
            (
              behind h j x b l hj,
              behind h k x a l hk,
              behind h k x a (insert_by_key j b l) hk,
              behind h j x b (insert_by_key k a l) hj,
            )
            (ap (λ m. (h, x) ∷ m) (insert_swap k j a b l differ))
      | inr jh ↦ rw (
        in_front h j x b l jh,
        behind h k x a l hk,
        behind j k b a ((h, x) ∷ l) (str_lt_trans h j k hk jh),
        behind h k x a l hk,
        in_front h j x b (insert_by_key k a l) jh,
      )
    ]
    | inr kh ↦ elim (Bool-cases (str_lt h j)) [
      | inl hj ↦ rw (
        behind h j x b l hj,
        in_front h k x a l kh,
        in_front h k x a (insert_by_key j b l) kh,
        behind k j a b ((h, x) ∷ l) (str_lt_trans h k j hj kh),
        behind h j x b l hj,
      )
      | inr jh ↦
          rw (in_front h j x b l jh, in_front h k x a l kh)
            (swap_front k j a b ((h, x) ∷ l) differ (in_front h k x a l kh) (in_front h j x b l jh))
    ]
  ]
