-- ===== src/Engine/Resolve/Dedup.antt =====
-- What the resolver sends: each key once, and only keys that the cache does not answer.
use ajq.Prelude.{
  ℕ, ◌+◌, String, false, List, [], ◌∷◌, ◌++◌, Option, none, some, ◌≡◌, ◌≢◌, refl, sym, ◌∙◌, ◌⊎◌,
  inl, inr, arith, str_eq_iff, All, All-append, Bool-cases, Option-cases, length,
}
use ajq.Result.{Result, ok, Result-cases}
use ajq.Backend.{Judgement, Answer}
use ajq.Cache.{DiskOps, Store, get}
use ajq.Cache.Laws.{get-get}
use ajq.Cache.Canonical.{Json}
use ajq.Cache.Key.{key_for_judgement}
use ajq.Engine.{Runtime, check_max_calls}
use ajq.Engine.Resolve.Budget.{stats-receive}
use ajq.Engine.Resolve.{
  Pending, Gather, ResolveError, note, note_miss, is_pending, gather, dispatch, after_gather,
  resolve, sending, batch, spent,
}

-- No key twice.
abbrev pub IsDistinct : List Pending → Type 0
IsDistinct [] = Unit
IsDistinct (p ∷ ps) = All (λ q. p.key ≢ q.key) ps × IsDistinct ps

IsDistinct-concat :
    (ps : List Pending) (p : Pending)
    → IsDistinct ps
    → is_pending p.key ps ≡ false
    → IsDistinct (ps ++ p ∷ [])
unfolding is_pending
IsDistinct-concat [] p d h = (tt, tt)
IsDistinct-concat (q ∷ ps) p (a, d) h = (
  All-append _ ps (p ∷ []) a (ground (arith, str_eq_iff q.key p.key), tt),
  IsDistinct-concat ps p d (ground arith),
)

module _ (disk : DiskOps) (json : Json) where
  -- The cache does not answer the key, and the key is the judgement's.
  abbrev pub IsMiss : Store disk → Pending → Type 0
  IsMiss s p = ((get disk s p.key).0 ≡ none) × (key_for_judgement json p.judgement ≡ ok p.key)

  -- `s` is the store before the loop.
  pub record IsFresh (s : Store disk) (g : Gather disk) : Type 0 where
    pub same : (k : String) → (get disk g.cache k).0 ≡ (get disk s k).0
    pub misses : All (IsMiss s) g.pending
    pub distinct : IsDistinct g.pending

  note_miss-IsFresh :
      (s : Store disk) (p : Pending) (g : Gather disk)
      → IsFresh s g
      → IsMiss s p
      → IsFresh s (note_miss disk p g)
  unfolding note_miss
  note_miss-IsFresh s p g h miss = elim (Bool-cases (is_pending p.key g.pending)) [
    | inl e ↦ rw e h
    | inr e ↦ rw e (record {
      same = h.same;
      misses = All-append _ g.pending (p ∷ []) h.misses (miss, tt);
      distinct = IsDistinct-concat g.pending p h.distinct e;
    })
  ]

  note-IsFresh :
      (s : Store disk) (p : Pending) (g : Gather disk)
      → IsFresh s g
      → key_for_judgement json p.judgement ≡ ok p.key
      → IsFresh s (note disk p g)
  unfolding note
  note-IsFresh s p g h key = elim (Option-cases (get disk g.cache p.key).0) [
    | inl miss ↦
        rw (miss, note)
          (note_miss-IsFresh s p _
            (record {
              same = λ k. get-get disk g.cache p.key k ∙ h.same k;
              misses = h.misses;
              distinct = h.distinct;
            })
            (sym (h.same p.key) ∙ miss, key))
    | inr (r, hit) ↦
        rw (hit, note)
          (record {
            same = λ k. get-get disk g.cache p.key k ∙ h.same k;
            misses = h.misses;
            distinct = h.distinct;
          })
  ]

  module _ (judge : List (List Judgement) → List Judgement → Result String (List Answer)) where
    gather-IsFresh :
        (s : Store disk) (frames : List ℕ) (i : ℕ) (js : List Judgement) (g : Gather disk)
        → IsFresh s g
        → IsFresh s (gather disk json judge frames i js g).0
    unfolding gather
    gather-IsFresh s frames i [] g h = h
    gather-IsFresh s frames i (j ∷ js) g h = elim (Result-cases (key_for_judgement json j)) [
      | inl (e, q) ↦ rw (q, gather) h
      | inr (k, q) ↦ rw (q, gather) (gather-IsFresh s frames (i + 1) js _ (note-IsFresh s _ g h q))
    ]

    -- At most one batch goes out, and it is that of `ps`.
    abbrev SendsAtMost : List Pending → List (List Judgement) → List (List Judgement) → Type 0
    SendsAtMost ps before after = (after ≡ before) ⊎ ((after ≡ before ++ batch ps ∷ []) × (ps ≢ []))

    dispatch_sends :
        (rt : Runtime disk) (ps : List Pending)
        → SendsAtMost ps rt.sent (dispatch disk json judge rt ps).0.sent
    unfolding dispatch
    dispatch_sends rt [] = inl refl
    dispatch_sends rt (p ∷ ps) =
        elim (Option-cases (
          check_max_calls rt.max_calls (spent rt.stats) (length (p ∷ ps))
            rt.max_calls_default_paid)) [
              | inr (x, over) ↦ rw (over, dispatch) (inl refl)
              | inl fine ↦
                  rw (fine, dispatch)
                    (inr (
                      (stats-receive disk (sending disk rt (p ∷ ps)) p.frame (p ∷ ps) _).1,
                      cons-ne-nil,
                    ))
            ]
      where
        cons-ne-nil : p ∷ ps ≢ []
        cons-ne-nil e = cc e

    -- The batch of one call of `resolve`.
    pub record SendsFresh (s : Store disk) (before after : List (List Judgement)) : Type 0 where
      pub pending : List Pending
      pub misses : All (IsMiss s) pending
      pub distinct : IsDistinct pending
      pub is_sent : SendsAtMost pending before after

    after_gather_sends :
        (rt : Runtime disk) (r : Gather disk × Option ResolveError)
        → IsFresh rt.cache r.0
        → SendsFresh rt.cache rt.sent (after_gather disk json judge rt r).0.sent
    unfolding after_gather
    after_gather_sends rt (g, some e) h = record {
      pending = g.pending;
      misses = h.misses;
      distinct = h.distinct;
      is_sent = inl refl;
    }
    after_gather_sends rt (g, none) h = record {
      pending = g.pending;
      misses = h.misses;
      distinct = h.distinct;
      is_sent = dispatch_sends _ g.pending;
    }

    -- One call of `resolve` sends at most one batch, never an empty one. Its judgements have keys of
    -- their own, no two the same, and the cache as it was before the call, with the disk store
    -- behind it, answers none of them.
    pub resolve-SendsFresh :
        (rt : Runtime disk) → SendsFresh rt.cache rt.sent (resolve disk json judge rt).0.sent
    unfolding resolve
    resolve-SendsFresh rt = after_gather_sends rt _ (
        gather-IsFresh rt.cache rt.collected_frames 0 rt.collected _
          (record { same = λ k. refl; misses = tt; distinct = tt }))
