-- ===== src/Engine/Resolve/Covered.antt =====
-- After the gathering loop every judgement that it passed has its result in memory or waits among
-- the pending ones, with a frame that is no later than its own.
use ajq.Prelude.{
  ℕ, ◌≤◌, String, true, List, [], ◌∷◌, ◌++◌, ◌≡◌, refl, ◌⊎◌, inl, inr, arith, str_eq, str_eq_iff,
  All, Any, here, there, Bool-cases, Option-cases,
}
use ajq.Cache.{DiskOps, get}
use ajq.Cache.Laws.{IsCached, get-IsCached, get_hit}
use ajq.Engine.Resolve.{Pending, Gather, is_pending, note_miss, note}

abbrev pub Waits : String → ℕ → List Pending → Type 0
Waits k f ps = Any (λ p. (p.key ≡ k) × (p.frame ≤ f)) ps

abbrev pub IsCovered : (disk : DiskOps) → Gather disk → String → ℕ → Type 0
IsCovered disk g k f = IsCached disk g.cache k ⊎ Waits k f g.pending

pub Any-append_left {ℓ κ} :
    {A : Type ℓ} (P : A → Type κ) (ys : List A) {xs : List A} → Any P xs → Any P (xs ++ ys)
Any-append_left P ys (here h) = here h
Any-append_left P ys (there a) = there (Any-append_left P ys a)

pub Any-append_right {ℓ κ} :
    {A : Type ℓ} (P : A → Type κ) (xs : List A) {ys : List A} → Any P ys → Any P (xs ++ ys)
Any-append_right P [] a = a
Any-append_right P (x ∷ xs) a = there (Any-append_right P xs a)

-- All pending frames are at most `f`.
abbrev pub AreUpTo : ℕ → List Pending → Type 0
AreUpTo f = All (λ p. p.frame ≤ f)

is_pending-Waits :
    (k : String) (f : ℕ) (ps : List Pending) → AreUpTo f ps → is_pending k ps ≡ true → Waits k f ps
unfolding is_pending
is_pending-Waits k f [] up h = cc
is_pending-Waits k f (p ∷ ps) (u, up) h = elim (Bool-cases (str_eq p.key k)) [
  | inl e ↦ here ((str_eq_iff p.key k).0 e, u)
  | inr e ↦ there (is_pending-Waits k f ps up (rw e at h))
]

module _ (disk : DiskOps) (p : Pending) where
  note_miss_keeps :
      (g : Gather disk) (k : String) (f : ℕ)
      → IsCovered disk g k f
      → IsCovered disk (note_miss disk p g) k f
  unfolding note_miss
  note_miss_keeps g k f h = elim (Bool-cases (is_pending p.key g.pending)) [
    | inl e ↦ rw e h
    | inr e ↦ rw e (elim h [ inl c ↦ inl c | inr w ↦ inr (Any-append_left _ (p ∷ []) w) ])
  ]

  note_miss_covers :
      (g : Gather disk)
      → AreUpTo p.frame g.pending
      → IsCovered disk (note_miss disk p g) p.key p.frame
  unfolding note_miss
  note_miss_covers g up = elim (Bool-cases (is_pending p.key g.pending)) [
    | inl e ↦ rw e (inr (is_pending-Waits p.key p.frame g.pending up e))
    | inr e ↦ rw e (inr (Any-append_right _ g.pending (here (refl, omega arith))))
  ]

  -- A round loses no cover.
  pub note_keeps :
      (g : Gather disk) (k : String) (f : ℕ)
      → IsCovered disk g k f
      → IsCovered disk (note disk p g) k f
  unfolding note
  note_keeps g k f h = elim (Option-cases (get disk g.cache p.key).0) [
    | inl miss ↦
        rw (miss, note)
          (note_miss_keeps _ k f
            (elim h [ inl c ↦ inl (get-IsCached disk g.cache p.key k c) | inr w ↦ inr w ]))
    | inr (r, hit) ↦
        rw (hit, note)
          (elim h [ inl c ↦ inl (get-IsCached disk g.cache p.key k c) | inr w ↦ inr w ])
  ]

  -- A round covers its own judgement.
  pub note_covers :
      (g : Gather disk) → AreUpTo p.frame g.pending → IsCovered disk (note disk p g) p.key p.frame
  unfolding note
  note_covers g up = elim (Option-cases (get disk g.cache p.key).0) [
    | inl miss ↦ rw (miss, note) (note_miss_covers _ up)
    | inr (r, hit) ↦ rw (hit, note) (inl (r, get_hit disk g.cache p.key r hit))
  ]
