-- ===== src/Engine/Resolve/Gathered.antt =====
-- What the gathering loop leaves behind, with or without an error.
use ajq.Prelude.{
  ℕ, zero, suc, ◌+◌, ◌≤◌, ◌<◌, String, List, [], ◌∷◌, ◌++◌, Option, none, some, ◌≡◌, refl, ap, inl,
  inr, arith, length, get_elem?, All, All-append, All-imp, Bool-cases, Option-cases,
}
use native.Mathlib.Nat.{add-zero}
use mathlib.Core.Option
use ajq.Result.{Result, ok, Result-cases}
use ajq.Value.{pos}
use ajq.Backend.{Judgement, Answer}
use ajq.Cache.{DiskOps, get}
use ajq.Cache.Canonical.{Json}
use ajq.Cache.Key.{key_for_judgement}
use ajq.Engine.Resolve.{
  Pending, Gather, ResolveError, is_pending, note_miss, note, gather, frame_for_collected,
  executable_prefix,
}
use ajq.Engine.Resolve.Covered.{IsCovered, AreUpTo, note_keeps, note_covers}

-- Frames do not fall from one pending judgement to the next.
abbrev pub IsSorted : List Pending → Type 0
IsSorted [] = Unit
IsSorted (p ∷ ps) = All (λ q. p.frame ≤ q.frame) ps × IsSorted ps

pub IsSorted-concat :
    (ps : List Pending) (p : Pending) → IsSorted ps → AreUpTo p.frame ps → IsSorted (ps ++ p ∷ [])
IsSorted-concat [] p s u = (tt, tt)
IsSorted-concat (q ∷ ps) p (h, s) (u, us) =
    (All-append _ ps (p ∷ []) h (u, tt), IsSorted-concat ps p s us)

AreUpTo-mono : (a b : ℕ) (ps : List Pending) → a ≤ b → AreUpTo a ps → AreUpTo b ps
AreUpTo-mono a b ps h = All-imp _ _ (λ p u. omega arith) ps

-- The frame of each position is at least that of the positions before it.
abbrev pub IsOrdered : (ℕ → ℕ) → ℕ → Type 0
IsOrdered f n = (a b : ℕ) → a ≤ b → b < n → f a ≤ f b

module _ (disk : DiskOps) (p : Pending) where
  note_miss_tidy :
      (g : Gather disk)
      → IsSorted g.pending
      → AreUpTo p.frame g.pending
      → IsSorted (note_miss disk p g).pending × AreUpTo p.frame (note_miss disk p g).pending
  unfolding note_miss
  note_miss_tidy g s u = elim (Bool-cases (is_pending p.key g.pending)) [
    | inl e ↦ rw e (s, u)
    | inr e ↦
        rw e
          ((IsSorted-concat g.pending p s u, All-append _ g.pending (p ∷ []) u (omega arith, tt)))
  ]

  note_tidy :
      (g : Gather disk)
      → IsSorted g.pending
      → AreUpTo p.frame g.pending
      → IsSorted (note disk p g).pending × AreUpTo p.frame (note disk p g).pending
  unfolding note
  note_tidy g s u = elim (Option-cases (get disk g.cache p.key).0) [
    | inl miss ↦ rw (miss, note) (note_miss_tidy _ s u)
    | inr (r, hit) ↦ rw (hit, note) (s, u)
  ]

module _ (disk : DiskOps) (json : Json) (frames : List ℕ) where
  abbrev pub at_frame : ℕ → ℕ
  at_frame = frame_for_collected frames

  abbrev pub IsKeyed : Gather disk → Judgement → ℕ → Type 0
  IsKeyed g j f = (k : String) × (key_for_judgement json j ≡ ok k) × IsCovered disk g k f

  -- How the loop over `js`, from position `i` on, ended: behind the last one, or at one with no key.
  abbrev pub Ends : ℕ → List Judgement → ℕ → Gather disk → Option ResolveError → Type 0
  Ends i js reached g none = reached ≡ length js
  Ends i js reached g (some e) =
      (reached < length js)
      × (e.execute_before ≡ pos (executable_prefix (at_frame (i + reached)) g.pending))

  pub record Gathered (i : ℕ) (js : List Judgement) (r : Gather disk × Option ResolveError)
      : Type 0 where
    pub reached : ℕ
    pub covered :
        (m : ℕ) (j : Judgement)
        → m < reached
        → get_elem? js m ≡ some j
        → IsKeyed r.0 j (at_frame (i + m))
    pub ends : Ends i js reached r.0 r.1
    pub sorted : IsSorted r.0.pending

module _ (disk : DiskOps) (json : Json)
    (judge : List (List Judgement) → List Judgement → Result String (List Answer))
    (frames : List ℕ) where
  abbrev pub f : ℕ → ℕ
  f = frame_for_collected frames

  abbrev entry : ℕ → Judgement → String → Pending
  entry i j k = record { judgement = j; key = k; frame = f i }

  gather_keeps :
      (i : ℕ) (js : List Judgement) (g : Gather disk) (k : String) (fr : ℕ)
      → IsCovered disk g k fr
      → IsCovered disk (gather disk json judge frames i js g).0 k fr
  unfolding gather
  gather_keeps i [] g k fr h = h
  gather_keeps i (j ∷ js) g k fr h = elim (Result-cases (key_for_judgement json j)) [
    | inl (e, q) ↦ rw (q, gather) h
    | inr (x, q) ↦
        rw (q, gather) (gather_keeps (i + 1) js _ k fr (note_keeps disk (entry i j x) g k fr h))
  ]

  Gathered-cons :
      (i : ℕ) (j : Judgement) (js : List Judgement) (g : Gather disk) (k : String)
      → key_for_judgement json j ≡ ok k
      → AreUpTo (f i) g.pending
      → Gathered disk json frames
          (i + 1)
          js
          (gather disk json judge frames (i + 1) js (note disk (entry i j k) g))
      → Gathered disk json frames i
          (j ∷ js)
          (gather disk json judge frames (i + 1) js (note disk (entry i j k) g))
  Gathered-cons i j js g k q up r = record {
    reached = suc r.reached;
    covered = covers;
    ends = ends_cons _ r.ends;
    sorted = r.sorted;
  }
    where
      g' : Gather disk
      g' = note disk (entry i j k) g

      covers :
          (m : ℕ) (x : Judgement)
          → m < suc r.reached
          → get_elem? (j ∷ js) m ≡ some x
          → IsKeyed disk json frames (gather disk json judge frames (i + 1) js g').0 x (f (i + m))
      covers zero x lt e = (
        k,
        rw (← (ap (λ o. Option.get_or o j) e)) q,
        rw (add-zero) (gather_keeps (i + 1) js g' k (f i) (note_covers disk (entry i j k) g up)),
      )
      covers (suc m) x lt e =
          let same : i + 1 + m ≡ i + suc m = omega arith in
          rw (← same) (r.covered m x (omega arith) e)

      ends_cons :
          (o : Option ResolveError)
          → Ends disk json frames
              (i + 1)
              js
              r.reached
              (gather disk json judge frames (i + 1) js g').0
              o
          → Ends disk json frames i
              (j ∷ js)
              (suc r.reached)
              (gather disk json judge frames (i + 1) js g').0
              o
      ends_cons none h = ap suc h
      ends_cons (some e) h =
          let same : i + 1 + r.reached ≡ i + suc r.reached = omega arith in
          (omega arith, rw (← same) h.1)

  module _ (n : ℕ) (ordered : IsOrdered f n) where
    pub gather-Gathered :
        (i : ℕ) (js : List Judgement) (g : Gather disk)
        → i + length js ≡ n
        → IsSorted g.pending
        → (i < n → AreUpTo (f i) g.pending)
        → Gathered disk json frames i js (gather disk json judge frames i js g)
    unfolding gather
    gather-Gathered i [] g e s up = record {
      reached = 0;
      covered = λ m j lt h. absurd (omega arith);
      ends = refl;
      sorted = s;
    }
    gather-Gathered i (j ∷ js) g e s up = elim (Result-cases (key_for_judgement json j)) [
      | inl (x, q) ↦
          rw (q, gather)
            (record {
              reached = 0;
              covered = λ m j lt h. absurd (omega arith);
              ends = (omega arith, rw add-zero);
              sorted = s;
            })
      | inr (k, q) ↦
          rw (q, gather)
            (let up' = up (omega arith) in
              let tidy = note_tidy disk (entry i j k) g s up' in
              Gathered-cons i j js g k q up' (
                gather-Gathered (i + 1) js _ (omega arith) tidy.0 (λ lt.
                  AreUpTo-mono (f i) (f (i + 1)) _ (ordered i (i + 1) (omega arith) lt) tidy.1)))
    ]
