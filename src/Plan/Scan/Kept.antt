-- ===== src/Plan/Scan/Kept.antt =====
-- Each round of the scan of a query keeps what is known of its call sites, and goes on.
use ajq.Prelude.{
  ℕ, ◌+◌, ◌≤◌, ◌<◌, Bool, true, false, ◌&&◌, List, [], ◌∷◌, ◌++◌, Bytes, ltb, ◌==◌, if◌then◌else◌,
  ◌≡◌, ◌≢◌, refl, arith, length, All,
}
use ajq.Value.{pos, down, int_eq}
use ajq.Desugar.Loop.{Turn}
use ajq.Desugar.Loop.Laws.{TurnKeeps}
use ajq.Desugar.Scan.{at, slice, has_prefix, skip_line_comment, opens_interpolation}
use ajq.Desugar.Scan.Bounds.{skip_line_comment_advances}
use ajq.Plan.Scan.{
  CallSite, ScanFrame, ScanState, is_ident_start, ident_end, space_end, sem_prefix,
  with_interpolation, in_string, at_close, at_ident, in_code,
}
use ajq.Plan.Scan.Sites.{
  IsSite, site_starts, pending_starts, AreDistinct, Kept, Kept-later, close_pendings-Kept,
  length-ident, run_length_positive, distinct_new, before_new,
}

-- What the loop returns.
abbrev pub AreFound : Bytes → List CallSite → Type 0
AreFound src occs = All (IsSite src) occs × AreDistinct (site_starts occs)

abbrev pub IsKept : Bytes → ℕ → ScanState → Type 0
IsKept src i s = Kept src i s.occs s.pendings

abbrev pub Keeps : Bytes → Turn ScanState (List CallSite) → Type 0
Keeps src x = TurnKeeps (AreFound src) (IsKept src) x

pub if-Keeps :
    (src : Bytes) (b : Bool) (x y : Turn ScanState (List CallSite))
    → (b ≡ true → Keeps src x)
    → (b ≡ false → Keeps src y)
    → Keeps src (if b then x else y)
if-Keeps src true x y f g = f refl
if-Keeps src false x y f g = g refl

AreDistinct-first : (xs ys : List ℕ) → AreDistinct (xs ++ ys) → AreDistinct xs
AreDistinct-first [] ys h = tt
AreDistinct-first (x ∷ xs) ys (new, h) = (All-first x xs ys new, AreDistinct-first xs ys h)
  where
    All-first : (x : ℕ) (xs ys : List ℕ) → All (λ y. x ≢ y) (xs ++ ys) → All (λ y. x ≢ y) xs
    All-first x [] ys h = tt
    All-first x (z ∷ zs) ys (one, h) = (one, All-first x zs ys h)

pub Kept-AreFound : (src : Bytes) (i : ℕ) (s : ScanState) → IsKept src i s → AreFound src s.occs
Kept-AreFound src i s k =
    (k.sites, AreDistinct-first (site_starts s.occs) (pending_starts s.pendings) k.distinct)

-- The pending call of an identifier.
push-Kept :
    (src : Bytes) (i k : ℕ) (s : ScanState) (f : ScanFrame)
    → i < length src
    → ident_end src i ≤ k
    → i < k
    → has_prefix (slice src i (ident_end src i)) sem_prefix ≡ true
    → IsKept src i s
    → Kept src k s.occs (
        (record {
          op = slice src i (ident_end src i);
          ident_start = i;
          serial = f.serial;
          depth_at_open = f.depth;
        })
        ∷ s.pendings)
push-Kept src i k s f lt le less prefix h = record {
  sites = h.sites;
  open_calls =
      ((rw whole refl, prefix, omega (arith, whole)), (Kept-later k (omega arith) h).open_calls);
  distinct = distinct_new i (site_starts s.occs) (pending_starts s.pendings) h.before h.distinct;
  before = before_new i k (site_starts s.occs) (pending_starts s.pendings) less h.before;
}
  where
    whole : i + length (slice src i (ident_end src i)) ≡ ident_end src i
    whole = length-ident src i (omega arith)

at_ident-Keeps :
    (src : Bytes) (i : ℕ) (s : ScanState) (f : ScanFrame)
    → i < length src
    → is_ident_start (at src i) ≡ true
    → IsKept src i s
    → Keeps src (at_ident src i s f)
at_ident-Keeps src i s f lt e h =
    let positive = run_length_positive src i lt e in
    if-Keeps src
      (has_prefix (slice src i (ident_end src i)) sem_prefix
        && (ltb (space_end src (ident_end src i)) (length src)
            && at src (space_end src (ident_end src i)) == 40))
      _ _
      (λ g.
        push-Kept src i (space_end src (ident_end src i)) s f lt (omega arith)
          (omega (arith, positive)) (ground arith) h)
      (λ g. Kept-later (ident_end src i) (omega (arith, positive)) h)

at_close-Keeps :
    (src : Bytes) (i : ℕ) (s : ScanState) (f : ScanFrame) (fs : List ScanFrame)
    → i < length src
    → at src i ≡ 41
    → IsKept src i s
    → Keeps src (at_close src i s f fs)
at_close-Keeps src i s f fs lt closing h =
    if-Keeps src (f.interp && int_eq f.depth (pos 0)) _ _ (λ e. Kept-later (i + 1) (omega arith) h)
      (λ e. Kept-later (i + 1) (omega arith) (
        close_pendings-Kept src i (record f { depth = down f.depth }) s.occs s.pendings lt closing
          h))

pub in_string-Keeps :
    (src : Bytes) (i : ℕ) (s : ScanState) (fs : List ScanFrame)
    → IsKept src i s
    → Keeps src (in_string src i s fs)
in_string-Keeps src i s fs h =
    if-Keeps src (at src i == 34) _ _ (λ e. Kept-later (i + 1) (omega arith) h)
      (λ e.
        if-Keeps src (at src i == 92) _ _ (λ g. escaped (opens_interpolation src i))
          (λ g. Kept-later (i + 1) (omega arith) h))
  where
    escaped : (b : Bool) → IsKept src (i + 2) (with_interpolation b s)
    escaped true = Kept-later (i + 2) (omega arith) h
    escaped false = Kept-later (i + 2) (omega arith) h

pub in_code-Keeps :
    (src : Bytes) (i : ℕ) (s : ScanState) (f : ScanFrame) (fs : List ScanFrame)
    → i < length src
    → IsKept src i s
    → Keeps src (in_code src i s f fs)
in_code-Keeps src i s f fs lt h =
    if-Keeps src (at src i == 34) _ _ (λ e. Kept-later (i + 1) (omega arith) h)
      (λ e.
        if-Keeps src (at src i == 35) _ _
          (λ g.
            Kept-later (skip_line_comment src i)
              (omega (arith, skip_line_comment_advances src i lt g)) h)
          (λ g.
            if-Keeps src (at src i == 40) _ _ (λ o. Kept-later (i + 1) (omega arith) h)
              (λ o.
                if-Keeps src (at src i == 41) _ _
                  (λ c. at_close-Keeps src i s f fs lt (ground arith) h)
                  (λ c.
                    if-Keeps src (is_ident_start (at src i)) _ _
                      (λ d. at_ident-Keeps src i s f lt d h)
                      (λ d. Kept-later (i + 1) (omega arith) h)))))
