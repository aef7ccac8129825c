-- ===== src/Plan/Scan/Sorted.antt =====
-- The scan of a query as a whole.
use ajq.Prelude.{
  ℕ, ◌-◌, ◌≤◌, ◌<◌, true, List, [], ◌∷◌, Bytes, leb, leb_not_less, ◌≡◌, ◌≢◌, arith, length, All,
  All-imp, Bool-cases, inl, inr,
}
use ajq.Desugar.Loop.Laws.{TurnKeeps, rounds-Keeps}
use ajq.Plan.Scan.{
  CallSite, ScanFrame, ScanState, scan_start, frame_turn, scan_turn, found_sites, insert_site,
  sort_sites, scan_semantic_calls,
}
use ajq.Plan.Scan.Sites.{IsSite, site_starts, AreDistinct}
use ajq.Plan.Scan.Kept.{AreFound, IsKept, if-Keeps, Kept-AreFound, in_string-Keeps, in_code-Keeps}

-- Later sites start later.
abbrev pub IsIncreasing : List CallSite → Type 0
IsIncreasing [] = Unit
IsIncreasing (o ∷ os) = All (λ x. o.start < x.start) os × IsIncreasing os

insert_site-All :
    (P : CallSite → Type 0) (o : CallSite) (os : List CallSite)
    → P o
    → All P os
    → All P (insert_site o os)
unfolding insert_site
insert_site-All P o [] one h = (one, tt)
insert_site-All P o (x ∷ xs) one (first, h) = elim (Bool-cases (leb o.start x.start)) [
  | inl e ↦ rw (e, insert_site) (one, (first, h))
  | inr e ↦ rw (e, insert_site) (first, insert_site-All P o xs one h)
]

insert_site-IsIncreasing :
    (o : CallSite) (os : List CallSite)
    → All (λ x. o.start ≢ x.start) os
    → IsIncreasing os
    → IsIncreasing (insert_site o os)
unfolding insert_site
insert_site-IsIncreasing o [] new h = (tt, tt)
insert_site-IsIncreasing o (x ∷ xs) (other, new) (less, h) =
    elim (Bool-cases (leb o.start x.start)) [
      | inl e ↦ rw (e, insert_site) (before e other, (less, h))
      | inr e ↦
          rw (e, insert_site)
            (
              insert_site-All (λ y. x.start < y.start) o xs (leb_not_less e) less,
              insert_site-IsIncreasing o xs new h,
            )
    ]
  where
    leb_below : leb o.start x.start ≡ true → o.start ≤ x.start
    leb_below e = ground arith

    strictly : o.start ≤ x.start → o.start ≢ x.start → o.start < x.start
    strictly le ne = ground arith

    before :
        leb o.start x.start ≡ true
        → o.start ≢ x.start
        → (o.start < x.start) × All (λ y. o.start < y.start) xs
    before e other =
        let lt = strictly (leb_below e) other in
        (
          lt,
          All-imp (λ y. x.start < y.start) (λ y. o.start < y.start) (λ y h. omega (arith, h, lt)) xs
              less,
        )

pub sort_sites-All : (P : CallSite → Type 0) (os : List CallSite) → All P os → All P (sort_sites os)
unfolding sort_sites
sort_sites-All P [] h = tt
sort_sites-All P (o ∷ os) (one, h) = insert_site-All P o (sort_sites os) one (sort_sites-All P os h)

sort_sites-IsIncreasing :
    (os : List CallSite) → AreDistinct (site_starts os) → IsIncreasing (sort_sites os)
unfolding sort_sites
sort_sites-IsIncreasing [] h = tt
sort_sites-IsIncreasing (o ∷ os) (new, h) =
    insert_site-IsIncreasing o (sort_sites os)
      (sort_sites-All (λ x. o.start ≢ x.start) os (by_site os new)) (sort_sites-IsIncreasing os h)
  where
    by_site :
        (xs : List CallSite)
        → All (λ y. o.start ≢ y) (site_starts xs)
        → All (λ x. o.start ≢ x.start) xs
    by_site [] h = tt
    by_site (x ∷ xs) (one, h) = (one, by_site xs h)

scan_turn-Keeps :
    (src : Bytes) (i : ℕ) (s : ScanState)
    → i < length src
    → IsKept src i s
    → TurnKeeps (AreFound src) (IsKept src) (scan_turn src i s)
unfolding scan_turn
scan_turn-Keeps src i s lt h = by_frame s.frames
  where
    by_frame : (fs : List ScanFrame) → TurnKeeps (AreFound src) (IsKept src) (frame_turn src i s fs)
    by_frame [] = Kept-AreFound src i s h
    by_frame (f ∷ fs) =
        if-Keeps src f.is_string _ _ (λ e. in_string-Keeps src i s fs h)
          (λ e. in_code-Keeps src i s f fs lt h)

-- Every call site that the scan of a query gives is a slice of the query: it lies within it, starts
-- with its operator, whose name starts with `sem_`, is longer than that, ends with a closing
-- parenthesis, and its text is exactly the slice from its start to its end. The sites are in the order
-- of the query, and no two start at the same byte.
pub scan_semantic_calls-IsIncreasing :
    (src : Bytes)
    → All (IsSite src) (scan_semantic_calls src) × IsIncreasing (scan_semantic_calls src)
unfolding scan_semantic_calls
scan_semantic_calls-IsIncreasing src = sorted _ (
    rounds-Keeps (AreFound src) (IsKept src) (scan_turn src) found_sites (length src)
      (λ i s h. Kept-AreFound src i s h) (λ i s lt h. scan_turn-Keeps src i s lt h) (length src - 0)
      0 scan_start (record { sites = tt; open_calls = tt; distinct = tt; before = tt }))
  where
    sorted :
        (os : List CallSite)
        → AreFound src os
        → All (IsSite src) (sort_sites os) × IsIncreasing (sort_sites os)
    sorted os (sites, distinct) =
        (sort_sites-All (IsSite src) os sites, sort_sites-IsIncreasing os distinct)
