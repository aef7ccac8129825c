-- ===== src/Plan/Scan/Levels.antt =====
-- How deep in parentheses a position of a query without strings and comments is.
use ajq.Prelude.{
  ℕ, zero, suc, ◌+◌, ◌<◌, Bool, true, false, [], ◌∷◌, Bytes, ◌≡◌, ◌∙◌, refl, sym, ap, arith, ◌==◌,
  ==_iff, if◌then◌else◌, length, take, drop, Bool-cases, inl, inr,
}
use ajq.Value.{ℤ, pos, negsuc, up, down, int_eq}
use ajq.Desugar.Scan.{at}
use ajq.Plan.Scan.{run_length}

-- The depth behind a byte.
abbrev pub depth_behind : ℕ → ℤ → ℤ
depth_behind b z = if b == 40 then up z else if b == 41 then down z else z

abbrev pub depth_from : ℤ → Bytes → ℤ
depth_from z [] = z
depth_from z (b ∷ bs) = depth_from (depth_behind b z) bs

-- The parentheses opened before a position, less those closed.
abbrev pub level : Bytes → ℕ → ℤ
level src i = depth_from (pos 0) (take i src)

take_nil : (n : ℕ) → ◌≡◌ {A = Bytes} (take n []) []
take_nil zero = refl
take_nil (suc n) = refl

depth_from-take :
    (src : Bytes) (i n : ℕ) (z : ℤ)
    → depth_from z (take (i + n) src) ≡ depth_from (depth_from z (take i src)) (take n (drop i src))
depth_from-take src zero n z = ap (λ m. depth_from z (take m src)) zero_first
  where
    zero_first : 0 + n ≡ n
    zero_first = omega arith
depth_from-take [] (suc i) n z =
    ap (depth_from z) (take_nil (suc i + n)) ∙ sym (ap (depth_from z) (take_nil n))
depth_from-take (b ∷ src) (suc i) n z =
    ap (λ m. depth_from z (take m (b ∷ src))) suc_first ∙ depth_from-take src i n (depth_behind b z)
  where
    suc_first : suc i + n ≡ suc (i + n)
    suc_first = omega arith

take_one : (src : Bytes) (i : ℕ) → i < length src → take 1 (drop i src) ≡ at src i ∷ []
take_one [] i lt = absurd (omega arith)
take_one (b ∷ src) zero lt = refl
take_one (b ∷ src) (suc i) lt = take_one src i (omega arith)

pub level_next :
    (src : Bytes) (i : ℕ)
    → i < length src
    → level src (i + 1) ≡ depth_behind (at src i) (level src i)
level_next src i lt =
    depth_from-take src i 1 (pos 0) ∙ ap (depth_from (level src i)) (take_one src i lt)

-- No parenthesis passes the test.
abbrev pub IsPlain : (ℕ → Bool) → Type 0
IsPlain test = (b : ℕ) → test b ≡ true → ((b == 40) ≡ false) × ((b == 41) ≡ false)

depth_behind_plain : (b : ℕ) (z : ℤ) → (b == 40) ≡ false → (b == 41) ≡ false → depth_behind b z ≡ z
depth_behind_plain b z no_open no_close = rw (no_open, no_close)

depth_from-run :
    (test : ℕ → Bool) (bs : Bytes) (z : ℤ)
    → IsPlain test
    → depth_from z (take (run_length test bs) bs) ≡ z
depth_from-run test [] z plain = refl
depth_from-run test (b ∷ bs) z plain = elim (Bool-cases (test b)) [
  | inr e ↦ rw e
  | inl e ↦
      let (no_open, no_close) = plain b e in
      rw e (
        ap (λ y. depth_from y (take (run_length test bs) bs))
          (depth_behind_plain b z no_open no_close)
        ∙ depth_from-run test bs z plain)
]

pub level_run :
    (test : ℕ → Bool) (src : Bytes) (i : ℕ)
    → IsPlain test
    → level src (i + run_length test (drop i src)) ≡ level src i
level_run test src i plain =
    depth_from-take src i (run_length test (drop i src)) (pos 0)
    ∙ depth_from-run test (drop i src) (level src i) plain

pub int_eq_sound : (a b : ℤ) → int_eq a b ≡ true → a ≡ b
int_eq_sound (pos m) (pos n) e = ap pos ((==_iff m n).0 e)
int_eq_sound (negsuc m) (negsuc n) e = ap negsuc ((==_iff m n).0 e)
int_eq_sound (pos m) (negsuc n) e = cc e
int_eq_sound (negsuc m) (pos n) e = cc e
