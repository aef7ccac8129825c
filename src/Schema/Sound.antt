-- ===== src/Schema/Sound.antt =====
-- What `Build` accepts and what `Validate` lets through.
use ajq.Prelude.{
  ℕ, ◌+◌, String, Bytes, Bool, true, false, List, [], ◌∷◌, Option, none, ◌≡◌, ◌≢◌, refl, ◌↔◌, ◌⊎◌,
  inl, inr, arith, str_eq, str_eq_iff, All, Any, here, there, Bool-cases,
}
use ajq.Result.{Result, ok, err}
use ajq.Value.{Value, IntKind, ℤ}
use ajq.Semantics.{ReturnType, unset, bool, string, number, unknown}
use ajq.Schema.{
  Constraint, SchemaError, is_blank, contains_label, validate_labels, build, build_supported,
  validate, validate_as, validate_bool, validate_string, validate_label, is_number,
}

-- No label twice.
abbrev pub IsDistinct : List String → Type 0
IsDistinct [] = Unit
IsDistinct (l ∷ ls) = All (λ m. l ≢ m) ls × IsDistinct ls

abbrev pub IsClean : List String → Type 0
IsClean ls = All (λ l. is_blank l ≡ false) ls × IsDistinct ls

-- The combinations of an operator, a type and labels that make sense.
abbrev pub Labels : String → ReturnType → List String → Type 0
Labels op ret [] = op ≢ "sem_classify"
Labels op ret (l ∷ ls) = (ret ≡ string) × IsClean (l ∷ ls)

abbrev pub IsSupported : ReturnType → Type 0
IsSupported bool = Unit
IsSupported string = Unit
IsSupported number = Unit
IsSupported _ = ⊥

abbrev pub IsContract : String → ReturnType → List String → Type 0
IsContract op ret enum = IsSupported ret × Labels op ret enum

All-fresh-cons :
    (seen : List String) (l : String) (ls : List String)
    → All (λ m. contains_label seen m ≡ false) ls
    → All (λ m. l ≢ m) ls
    → All (λ m. contains_label (l ∷ seen) m ≡ false) ls
unfolding contains_label
All-fresh-cons seen l [] h k = tt
All-fresh-cons seen l (m ∷ ls) h k =
    (ground (arith, h, k, str_eq_iff l m), All-fresh-cons seen l ls h.1 k.1)

All-fresh-split :
    (seen : List String) (l : String) (ls : List String)
    → All (λ m. contains_label (l ∷ seen) m ≡ false) ls
    → All (λ m. contains_label seen m ≡ false) ls × All (λ m. l ≢ m) ls
unfolding contains_label
All-fresh-split seen l [] h = (tt, tt)
All-fresh-split seen l (m ∷ ls) h =
    let (a, b) = All-fresh-split seen l ls h.1 in
    ((ground (arith, h.0), a), (ground (arith, h.0, str_eq_iff l m), b))

validate_labels_sound :
    (seen : List String) (i : ℕ) (ls : List String)
    → validate_labels seen i ls ≡ none
    → All (λ l. is_blank l ≡ false) ls × IsDistinct ls × All (λ m. contains_label seen m ≡ false) ls
unfolding validate_labels
validate_labels_sound seen i [] h = (tt, tt, tt)
validate_labels_sound seen i (l ∷ ls) h = elim (Bool-cases (is_blank l)) [
  | inl b ↦ cc (rw b at h)
  | inr b ↦ elim (Bool-cases (contains_label seen l)) [
    | inl d ↦ cc (rw (b, d) at h)
    | inr d ↦
        let (x, y, z) = validate_labels_sound (l ∷ seen) (i + 1) ls (rw (b, d) at h) in
        let (fresh, apart) = All-fresh-split seen l ls z in ((b, x), (apart, y), (d, fresh))
  ]
]

validate_labels_complete :
    (seen : List String) (i : ℕ) (ls : List String)
    → All (λ l. is_blank l ≡ false) ls
    → IsDistinct ls
    → All (λ m. contains_label seen m ≡ false) ls
    → validate_labels seen i ls ≡ none
unfolding validate_labels
validate_labels_complete seen i [] x y z = refl
validate_labels_complete seen i (l ∷ ls) (b, x) (apart, y) (d, z) =
    rw (b, d)
      (validate_labels_complete (l ∷ seen) (i + 1) ls x y (All-fresh-cons seen l ls z apart))

All-fresh-nil : (ls : List String) → All (λ m. contains_label [] m ≡ false) ls
unfolding contains_label
All-fresh-nil [] = tt
All-fresh-nil (l ∷ ls) = (refl, All-fresh-nil ls)

module _ (op : String) where
  abbrev pub made : ReturnType → List String → Result SchemaError Constraint
  made ret enum = ok (record { op = op; type_of = ret; enum = enum })

  build_string_sound :
      (l : String) (ls : List String) {c : Constraint}
      → build_supported op string (l ∷ ls) ≡ ok c
      → validate_labels [] 0 (l ∷ ls) ≡ none
  unfolding build_supported
  build_string_sound l ls h = ground arith

  build_supported_sound :
      (ret : ReturnType) (enum : List String) {c : Constraint}
      → build_supported op ret enum ≡ ok c
      → Labels op ret enum
  unfolding build_supported
  build_supported_sound ret [] h = λ e. ground (arith, str_eq_iff op "sem_classify")
  build_supported_sound string (l ∷ ls) h =
      let (x, y, z) = validate_labels_sound [] 0 (l ∷ ls) (build_string_sound l ls h) in
      (refl, (x, y))
  build_supported_sound unset (l ∷ ls) h = cc
  build_supported_sound _ (l ∷ ls) h = cc

  build_supported_complete :
      (ret : ReturnType) (enum : List String)
      → Labels op ret enum
      → build_supported op ret enum ≡ made ret enum
  unfolding build_supported
  build_supported_complete ret [] h = ground (arith, str_eq_iff op "sem_classify")
  build_supported_complete string (l ∷ ls) h =
      rw (
        validate_labels_complete [] 0 (l ∷ ls) h.1.0 h.1.1 (All-fresh-nil (l ∷ ls)),
        build_supported,
      )
  build_supported_complete unset (l ∷ ls) h = cc h.0
  build_supported_complete _ (l ∷ ls) h = cc h.0

  build_sound :
      (ret : ReturnType) (enum : List String) {c : Constraint}
      → build op ret enum ≡ ok c
      → IsContract op ret enum
  unfolding build
  build_sound unset enum h = cc
  build_sound bool enum h = (tt, build_supported_sound bool enum h)
  build_sound string enum h = (tt, build_supported_sound string enum h)
  build_sound number enum h = (tt, build_supported_sound number enum h)
  build_sound (unknown r) enum h = cc

  build_complete :
      (ret : ReturnType) (enum : List String)
      → IsContract op ret enum
      → build op ret enum ≡ made ret enum
  unfolding build
  build_complete bool enum h = build_supported_complete bool enum h.1
  build_complete string enum h = build_supported_complete string enum h.1
  build_complete number enum h = build_supported_complete number enum h.1
  build_complete unset enum h = absurd h.0
  build_complete (unknown r) enum h = absurd h.0

  build_cases_of :
      (ret : ReturnType) (enum : List String) (r : Result SchemaError Constraint)
      → build op ret enum ≡ r
      → ((build op ret enum ≡ made ret enum) × IsContract op ret enum)
        ⊎ (((e : SchemaError) × (build op ret enum ≡ err e)) × ¬ IsContract op ret enum)
  build_cases_of ret enum (ok c) h =
      let fits = build_sound ret enum h in inl (build_complete ret enum fits, fits)
  build_cases_of ret enum (err e) h = inr ((e, h), λ fits. cc (h, build_complete ret enum fits))

  -- `Build` returns the constraint of its three arguments if the type is bool, number or string and
  -- the labels fit it: no label, for any operator but sem_classify, or, for a string result, one or
  -- more labels, none of them blank and no two alike. In every other case it returns an error.
  pub build_cases :
      (ret : ReturnType) (enum : List String)
      → ((build op ret enum ≡ made ret enum) × IsContract op ret enum)
        ⊎ (((e : SchemaError) × (build op ret enum ≡ err e)) × ¬ IsContract op ret enum)
  build_cases ret enum = build_cases_of ret enum (build op ret enum) refl

-- Go's numeric types that a result may have.
abbrev pub IsNumeric : Value → Type 0
IsNumeric v =
    ((n : ℤ) × (v ≡ Value.integer IntKind.int n))
    ⊎ ((n : ℤ) × (v ≡ Value.integer IntKind.int64 n))
    ⊎ ((b : ℕ) × (v ≡ Value.float64 b))
    ⊎ ((t : Bytes) × (v ≡ Value.number t))
    ⊎ ((n : Option ℤ) × (v ≡ Value.big n))

-- Any text if there are no labels, else one of them.
abbrev pub IsAllowed : List String → String → Type 0
IsAllowed [] s = Unit
IsAllowed (l ∷ ls) s = Any (λ m. m ≡ s) (l ∷ ls)

-- What a result of each type may be.
abbrev pub Conforms : ReturnType → List String → Value → Type 0
Conforms bool enum v = (b : Bool) × (v ≡ Value.bool b)
Conforms number enum v = IsNumeric v
Conforms string enum v = (s : String) × (v ≡ Value.str s) × IsAllowed enum s
Conforms _ enum v = ⊥

contains_label-Any :
    (ls : List String) (s : String) → contains_label ls s ≡ true → Any (λ m. m ≡ s) ls
unfolding contains_label
contains_label-Any [] s h = cc
contains_label-Any (l ∷ ls) s h = elim (Bool-cases (str_eq l s)) [
  | inl e ↦ here ((str_eq_iff l s).0 e)
  | inr e ↦ there (contains_label-Any ls s (rw e at h))
]

Any-contains_label :
    (s : String) {ls : List String} → Any (λ m. m ≡ s) ls → contains_label ls s ≡ true
unfolding contains_label
Any-contains_label s (here {x} {xs} e) = ground (arith, str_eq_iff x s)
Any-contains_label s (there {x} {xs} a) = ground (arith, Any-contains_label s a)

is_number-IsNumeric : (v : Value) → is_number v ≡ true → IsNumeric v
unfolding is_number
is_number-IsNumeric (Value.integer IntKind.int n) h = inl (n, refl)
is_number-IsNumeric (Value.integer IntKind.int64 n) h = inr (inl (n, refl))
is_number-IsNumeric (Value.float64 b) h = inr (inr (inl (b, refl)))
is_number-IsNumeric (Value.number t) h = inr (inr (inr (inl (t, refl))))
is_number-IsNumeric (Value.big n) h = inr (inr (inr (inr (n, refl))))
is_number-IsNumeric _ h = cc

IsNumeric-is_number : (v : Value) → IsNumeric v → is_number v ≡ true
unfolding is_number
IsNumeric-is_number v (inl (n, e)) = rw e
IsNumeric-is_number v (inr (inl (n, e))) = rw e
IsNumeric-is_number v (inr (inr (inl (n, e)))) = rw e
IsNumeric-is_number v (inr (inr (inr (inl (n, e))))) = rw e
IsNumeric-is_number v (inr (inr (inr (inr (n, e))))) = rw e

validate_label_sound :
    (enum : List String) (s : String) → validate_label enum s ≡ none → IsAllowed enum s
unfolding validate_label
validate_label_sound [] s h = tt
validate_label_sound (l ∷ ls) s h = contains_label-Any (l ∷ ls) s (ground arith)

validate_label_complete :
    (enum : List String) (s : String) → IsAllowed enum s → validate_label enum s ≡ none
unfolding validate_label
validate_label_complete [] s h = refl
validate_label_complete (l ∷ ls) s h = rw (Any-contains_label s h)

validate_string_sound :
    (enum : List String) (v : Value) → validate_string enum v ≡ none → Conforms string enum v
unfolding validate_string
validate_string_sound enum (Value.str s) h = (s, refl, validate_label_sound enum s h)
validate_string_sound enum _ h = cc

validate_bool_sound : (v : Value) → validate_bool v ≡ none → (b : Bool) × (v ≡ Value.bool b)
unfolding validate_bool
validate_bool_sound (Value.bool b) h = (b, refl)
validate_bool_sound _ h = cc

validate_as_sound :
    (ret : ReturnType) (enum : List String) (v : Value)
    → validate_as ret enum v ≡ none
    → Conforms ret enum v
unfolding validate_as
validate_as_sound bool enum v h = validate_bool_sound v h
validate_as_sound number enum v h = is_number-IsNumeric v (ground arith)
validate_as_sound string enum v h = validate_string_sound enum v h
validate_as_sound _ enum v h = cc

validate_as_complete :
    (ret : ReturnType) (enum : List String) (v : Value)
    → Conforms ret enum v
    → validate_as ret enum v ≡ none
unfolding validate_as validate_bool validate_string
validate_as_complete bool enum v (b, e) = rw e
validate_as_complete number enum v h = rw (IsNumeric-is_number v h)
validate_as_complete string enum v (s, e, h) = rw e (validate_label_complete enum s h)
validate_as_complete _ enum v h = absurd h

-- `Validate` lets a value through exactly if it is of the constraint's type: a bool; an int, int64,
-- float64, json.Number or *big.Int for a number; or a string, which must be one of the labels if
-- there are any. A constraint of another type lets nothing through.
pub validate_iff :
    (c : Constraint) (v : Value) → (validate c v ≡ none) ↔ Conforms c.type_of c.enum v
unfolding validate
validate_iff c v = (validate_as_sound c.type_of c.enum v, validate_as_complete c.type_of c.enum v)
