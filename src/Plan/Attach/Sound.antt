-- ===== src/Plan/Attach/Sound.antt =====
-- Where ranges come from.
use ajq.Prelude.{
  String, Bool, true, false, not, ◌&&◌, List, [], ◌∷◌, Option, none, some, ◌≡◌, refl, sym, ap, ◌∙◌,
  ◌⊎◌, inl, inr, str_eq, str_eq_iff, if◌then◌else◌, All, All-imp, Any, here, there, Bool-cases,
}
use mathlib.Core.Path.{subst}
use ajq.Plan.{Source, SemNode, Diagnostic}
use ajq.Plan.Attach.{
  Occurrence, Sites, source_at, claim, has_op, has_op_and_text, place_node, match_nodes, fill_nodes,
  normalize_sem_expr, unused, attach_source_ranges,
}

Any-imp :
    (P Q : Occurrence → Type 0)
    → ((o : Occurrence) → P o → Q o)
    → (os : List Occurrence) → Any P os
    → Any Q os
Any-imp P Q f [] h = elim h [ ]
Any-imp P Q f (o ∷ os) (here h) = here (f o h)
Any-imp P Q f (o ∷ os) (there h) = there (Any-imp P Q f os h)

second_true : (a b : Bool) → (a && b) ≡ true → b ≡ true
second_true true b h = h
second_true false b h = cc h

first_true : (a b : Bool) → (a && b) ≡ true → a ≡ true
first_true true b h = refl
first_true false b h = h

module _ (occs : List Occurrence) where
  -- A call site that was scanned, of this operator, is the source.
  abbrev pub IsScanned : String → Source → Type 0
  IsScanned op s = Any (λ o. (o.op ≡ op) × (s ≡ source_at o)) occs

  -- A node has no range, or that of a call site of its operator.
  abbrev pub IsPlaced : SemNode → Type 0
  IsPlaced n = (n.source.has_range ≡ false) ⊎ IsScanned n.op n.source

  abbrev IsKnown : Occurrence → Type 0
  IsKnown o = Any (λ o'. o' ≡ o) occs

  claim-IsKnown :
      (fits : Occurrence → Bool) (sites : Sites)
      → All (λ x. IsKnown x.1) sites
      → All (λ x. IsKnown x.1) (claim fits sites).1
  unfolding claim
  claim-IsKnown fits [] h = tt
  claim-IsKnown fits ((used, o) ∷ sites) (known, h) = elim (Bool-cases (not used && fits o)) [
    | inl taken ↦ rw (taken, claim) (known, h)
    | inr passed ↦ rw (passed, claim) (known, claim-IsKnown fits sites h)
  ]

  claim_fits :
      (fits : Occurrence → Bool) (sites : Sites) (o : Occurrence)
      → All (λ x. IsKnown x.1) sites
      → (claim fits sites).0 ≡ some o
      → IsKnown o × (fits o ≡ true)
  unfolding claim
  claim_fits fits [] o h e = cc e
  claim_fits fits ((used, p) ∷ sites) o (known, h) e = elim (Bool-cases (not used && fits p)) [
    | inl taken ↦
        subst (λ q. IsKnown q × (fits q ≡ true)) (cc (rw (taken, claim) at e))
          (known, second_true (not used) (fits p) taken)
    | inr passed ↦ claim_fits fits sites o h (rw (passed, claim) at e)
  ]

  place_node-IsPlaced :
      (n : SemNode) (found : Option Occurrence)
      → IsPlaced n
      → ((o : Occurrence) → found ≡ some o → IsKnown o × (o.op ≡ n.op))
      → IsPlaced (place_node n found)
  place_node-IsPlaced n none placed h = placed
  place_node-IsPlaced n (some o) placed h =
      let (known, same) = h o refl in
      inr (Any-imp _ _ (λ p e. (ap (λ q. q.op) e ∙ same, ap source_at (sym e))) occs known)

  match_nodes-IsPlaced :
      (ns : List SemNode) (sites : Sites)
      → All (λ x. IsKnown x.1) sites
      → All IsPlaced ns
      → All IsPlaced (match_nodes ns sites).0 × All (λ x. IsKnown x.1) (match_nodes ns sites).1
  unfolding match_nodes
  match_nodes-IsPlaced [] sites h placed = (tt, h)
  match_nodes-IsPlaced (n ∷ ns) sites h (first, placed) =
      let fits = has_op_and_text n.op (normalize_sem_expr n.source.expression) in
      let (rest, sites_known) =
        match_nodes-IsPlaced ns (claim fits sites).1 (claim-IsKnown fits sites h) placed in
      (
        (
          place_node-IsPlaced n (claim fits sites).0 first (λ o e.
              let (known, fit) = claim_fits fits sites o h e in
              (known, (str_eq_iff o.op n.op).0 (first_true (str_eq o.op n.op) _ fit))),
          rest,
        ),
        sites_known,
      )

  claim_unplaced-IsKnown :
      (b : Bool) (op : String) (sites : Sites)
      → All (λ x. IsKnown x.1) sites
      → All (λ x. IsKnown x.1) (if b then (none, sites) else claim (has_op op) sites).1
  claim_unplaced-IsKnown true op sites h = h
  claim_unplaced-IsKnown false op sites h = claim-IsKnown (has_op op) sites h

  claim_unplaced_fits :
      (b : Bool) (op : String) (sites : Sites) (o : Occurrence)
      → All (λ x. IsKnown x.1) sites
      → (if b then (none, sites) else claim (has_op op) sites).0 ≡ some o
      → IsKnown o × (o.op ≡ op)
  claim_unplaced_fits true op sites o h e = cc e
  claim_unplaced_fits false op sites o h e =
      let (known, fit) = claim_fits (has_op op) sites o h e in (known, (str_eq_iff o.op op).0 fit)

  fill_nodes-IsPlaced :
      (ns : List SemNode) (sites : Sites)
      → All (λ x. IsKnown x.1) sites
      → All IsPlaced ns
      → All IsPlaced (fill_nodes ns sites).0
  unfolding fill_nodes
  fill_nodes-IsPlaced [] sites h placed = tt
  fill_nodes-IsPlaced (n ∷ ns) sites h (first, placed) = (
    place_node-IsPlaced n _ first (λ o. claim_unplaced_fits n.source.has_range n.op sites o h),
    fill_nodes-IsPlaced ns _ (claim_unplaced-IsKnown n.source.has_range n.op sites h) placed,
  )

unused-IsKnown :
    (occs : List Occurrence) (P : Occurrence → Type 0) → All P occs → All (λ x. P x.1) (unused occs)
unfolding unused
unused-IsKnown [] P h = tt
unused-IsKnown (o ∷ os) P (one, h) = (one, unused-IsKnown os P h)

All-IsKnown : (occs : List Occurrence) → All (IsKnown occs) occs
All-IsKnown [] = tt
All-IsKnown (o ∷ os) =
    (here refl, All-imp (IsKnown os) (IsKnown (o ∷ os)) (λ p k. there k) os (All-IsKnown os))

-- If no planned call has a range before, each has afterwards none or exactly that of a call site of
-- its operator that the scan has found, with the site's text as its expression.
pub attach_source_ranges-IsPlaced :
    (occs : List Occurrence) (ns : List SemNode) (ds : List Diagnostic)
    → All (λ n. n.source.has_range ≡ false) ns
    → All (IsPlaced occs) (attach_source_ranges occs ns ds).0
unfolding attach_source_ranges
attach_source_ranges-IsPlaced occs ns ds bare =
    let (placed, known) =
      match_nodes-IsPlaced occs ns (unused occs)
        (unused-IsKnown occs (IsKnown occs) (All-IsKnown occs))
        (All-imp (λ n. n.source.has_range ≡ false) (IsPlaced occs) (λ n e. inl e) ns bare) in
    fill_nodes-IsPlaced occs (match_nodes ns (unused occs)).0 (match_nodes ns (unused occs)).1 known
      placed
