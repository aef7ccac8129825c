-- ===== src/Plan/Scan/Sites.antt =====
-- The call sites that the scan of a query finds.
use ajq.Prelude.{
  ℕ, zero, suc, ◌+◌, ◌-◌, ◌≤◌, ◌<◌, Bool, true, List, [], ◌∷◌, ◌++◌, Bytes, ◌≡◌, ◌≢◌, refl, arith,
  length, drop, length-take, length-drop, All, All-append, All-imp, Bool-cases, inl, inr,
}
use ajq.Desugar.Scan.{at, slice, has_prefix}
use ajq.Plan.Scan.{
  CallSite, ScanFrame, Pending, is_ident_start, is_ident_char, run_length, ident_end, sem_prefix,
  site_of, is_closed_by, close_pendings,
}

-- A call site is a slice of the query that starts with its operator, a `sem_` name, and ends with a
-- closing parenthesis.
abbrev pub IsSite : Bytes → CallSite → Type 0
IsSite src o =
    (o.op ≡ slice src o.start (o.start + length o.op))
    × (has_prefix o.op sem_prefix ≡ true)
    × (o.start + length o.op < o.end_at)
    × (o.end_at ≤ length src)
    × ((i : ℕ) × (o.end_at ≡ i + 1) × (at src i ≡ 41))
    × (o.text ≡ slice src o.start o.end_at)

-- What is pending at a position lies before it.
abbrev pub IsOpen : Bytes → ℕ → Pending → Type 0
IsOpen src i p =
    (p.op ≡ slice src p.ident_start (p.ident_start + length p.op))
    × (has_prefix p.op sem_prefix ≡ true)
    × (p.ident_start + length p.op ≤ i)

-- The starts of the sites found and of those pending are distinct, and before a position.
abbrev pub site_starts : List CallSite → List ℕ
site_starts [] = []
site_starts (o ∷ os) = o.start ∷ site_starts os

abbrev pub pending_starts : List Pending → List ℕ
pending_starts [] = []
pending_starts (p ∷ ps) = p.ident_start ∷ pending_starts ps

abbrev pub AreDistinct : List ℕ → Type 0
AreDistinct [] = Unit
AreDistinct (x ∷ xs) = All (λ y. x ≢ y) xs × AreDistinct xs

pub record Kept (src : Bytes) (i : ℕ) (occs : List CallSite) (pendings : List Pending)
    : Type 0 where
  pub sites : All (IsSite src) occs
  pub open_calls : All (IsOpen src i) pendings
  pub distinct : AreDistinct (site_starts occs ++ pending_starts pendings)
  pub before : All (λ x. x < i) (site_starts occs ++ pending_starts pendings)

pub Kept-later :
    {src : Bytes} {i : ℕ} (j : ℕ) {occs : List CallSite} {ps : List Pending}
    → i ≤ j
    → Kept src i occs ps
    → Kept src j occs ps
Kept-later {src} {i} j {occs} {ps} le k = record {
  sites = k.sites;
  open_calls =
      All-imp (IsOpen src i) (IsOpen src j) (λ p h. (h.0, h.1, omega (arith, h.2))) ps k.open_calls;
  distinct = k.distinct;
  before = All-imp (λ x. x < i) (λ x. x < j) (λ x lt. omega arith) _ k.before;
}

-- A pending call that is found has its start among the others as before.
starts-found :
    (src : Bytes) (i : ℕ) (p : Pending) (occs : List CallSite) (ps : List Pending)
    → site_starts (occs ++ site_of src i p ∷ []) ++ pending_starts ps
      ≡ site_starts occs ++ (p.ident_start ∷ pending_starts ps)
starts-found src i p [] ps = refl
starts-found src i p (o ∷ occs) ps = rw (starts-found src i p occs ps)

site_of-IsSite :
    (src : Bytes) (i : ℕ) (p : Pending)
    → i < length src
    → at src i ≡ 41
    → IsOpen src i p
    → IsSite src (site_of src i p)
site_of-IsSite src i p lt closing (op, prefix, le) =
    (op, prefix, omega arith, omega arith, (i, refl, closing), refl)

Kept-found :
    {src : Bytes} {i : ℕ} (p : Pending) {occs : List CallSite} {ps : List Pending}
    → i < length src
    → at src i ≡ 41
    → Kept src i occs (p ∷ ps)
    → Kept src i (occs ++ site_of src i p ∷ []) ps
Kept-found {src} {i} p {occs} {ps} lt closing k = record {
  sites =
      All-append (IsSite src) occs (site_of src i p ∷ []) k.sites
        (site_of-IsSite src i p lt closing k.open_calls.0, tt);
  open_calls = k.open_calls.1;
  distinct = rw (starts-found src i p occs ps) k.distinct;
  before = rw (starts-found src i p occs ps) k.before;
}

pub close_pendings-Kept :
    (src : Bytes) (i : ℕ) (f : ScanFrame) (occs : List CallSite) (ps : List Pending)
    → i < length src
    → at src i ≡ 41
    → Kept src i occs ps
    → Kept src i ((close_pendings src i f occs ps).0) ((close_pendings src i f occs ps).1)
unfolding close_pendings
close_pendings-Kept src i f occs [] lt closing k = k
close_pendings-Kept src i f occs (p ∷ ps) lt closing k = elim (Bool-cases (is_closed_by f p)) [
  | inr e ↦ rw (e, close_pendings) k
  | inl e ↦
      rw (e, close_pendings)
        (close_pendings-Kept src i f (occs ++ site_of src i p ∷ []) ps lt closing
          (Kept-found p lt closing k))
]

pub run_length-bounded : (test : ℕ → Bool) (bs : Bytes) → run_length test bs ≤ length bs
run_length-bounded test [] = omega arith
run_length-bounded test (b ∷ bs) = ground (arith, run_length-bounded test bs)

pub run_length_positive :
    (src : Bytes) (i : ℕ)
    → i < length src
    → is_ident_start (at src i) ≡ true
    → 0 < run_length is_ident_char (drop i src)
run_length_positive [] i lt e = absurd (omega arith)
run_length_positive (b ∷ src) zero lt e = rw e (omega arith)
run_length_positive (b ∷ src) (suc i) lt e = run_length_positive src i (omega arith) e

pub length-ident :
    (src : Bytes) (i : ℕ)
    → i ≤ length src
    → i + length (slice src i (ident_end src i)) ≡ ident_end src i
length-ident src i le = omega (
  arith,
  length-take (ident_end src i - i) (drop i src),
  length-drop i src,
  run_length-bounded is_ident_char (drop i src),
)

-- A new start may be put anywhere among those before it.
pub distinct_new :
    (i : ℕ) (xs ys : List ℕ)
    → All (λ x. x < i) (xs ++ ys)
    → AreDistinct (xs ++ ys)
    → AreDistinct (xs ++ (i ∷ ys))
distinct_new i [] ys less h = (All-imp (λ x. x < i) (λ y. i ≢ y) (λ x lt e. omega arith) ys less, h)
distinct_new i (x ∷ xs) ys (lt, less) (new, h) =
    (All-new x xs ys (λ e. omega arith) new, distinct_new i xs ys less h)
  where
    All-new :
        (x : ℕ) (xs ys : List ℕ)
        → x ≢ i
        → All (λ y. x ≢ y) (xs ++ ys)
        → All (λ y. x ≢ y) (xs ++ (i ∷ ys))
    All-new x [] ys other h = (other, h)
    All-new x (z ∷ zs) ys other (one, h) = (one, All-new x zs ys other h)

pub before_new :
    (i k : ℕ) (xs ys : List ℕ)
    → i < k
    → All (λ x. x < i) (xs ++ ys)
    → All (λ x. x < k) (xs ++ (i ∷ ys))
before_new i k [] ys lt less = (lt, All-imp (λ x. x < i) (λ x. x < k) (λ x h. omega arith) ys less)
before_new i k (x ∷ xs) ys lt (one, less) = (omega arith, before_new i k xs ys lt less)
