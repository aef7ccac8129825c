-- ===== src/Engine/Resolve/Vetted.antt =====
-- Where the results in memory come from.
mod Checked
use ajq.Prelude.{
  ℕ, zero, suc, ◌+◌, String, List, [], ◌∷◌, Option, none, some, ◌≡◌, refl, ◌∙◌, ◌⊎◌, inl, inr,
  arith, ◌++◌, get_elem?, str_eq, str_eq_iff, length, All, All-append, Bool-cases, Option-cases,
  ◌==◌,
}
use ajq.Result.{Result, ok, err, Result-cases}
use ajq.Backend.{Judgement, Answer}
use ajq.Cache.{DiskOps, Store, find, get, set}
use ajq.Cache.Laws.{OnDisk, get_origin, get_backing, find-set}
use ajq.Cache.Canonical.{Json}
use ajq.Cache.Key.{key_for_judgement}
use ajq.Engine.{Runtime, check_max_calls, EngineError}
use ajq.Engine.Resolve.{
  Pending, Gather, ResolveError, note, note_miss, is_pending, gather, dispatch, receive, commit,
  after_gather, resolve, sending, spent, validate_result, check_result, first_failure,
  store_results, batch,
}
use ajq.Engine.Resolve.Sends.{receive_sent}
use ajq.Engine.Resolve.Vetted.Checked.{Passes, Passes-all, Passes-before, check_result-none}

-- The result in this place answers the judgement in this place, and is valid for it.
abbrev IsValidAt : Json → List Judgement → List Answer → ℕ → String → Answer → Type 0
IsValidAt json b rs m k r =
    (j : Judgement) × (get_elem? b m ≡ some j)
    × (get_elem? rs m ≡ some r)
    × (key_for_judgement json j ≡ ok k)
    × (r.error ≡ "")
    × (validate_result j r ≡ none)

-- A batch was sent behind those before, and the result under this key is the backend's to the judgement
-- of the batch in the same place, which has the key and for which the result is valid.
abbrev pub IsVetted :
    Json
    → (List (List Judgement) → List Judgement → Result String (List Answer))
    → List (List Judgement)
    → List (List Judgement)
    → String
    → Answer
    → Type 0
IsVetted json judge before after k r =
    (b : List Judgement) × (rs : List Answer) × (m : ℕ) × (after ≡ before ++ b ∷ [])
    × (judge before b ≡ ok rs)
    × IsValidAt json b rs m k r

module _ (disk : DiskOps) where
  abbrev pub HasOrigin : (String → Answer → Type 0) → Store disk → String → Answer → Type 0
  HasOrigin vetted s k r = (find k s.results ≡ some r) ⊎ OnDisk disk s.backing k r ⊎ vetted k r

module _ (disk : DiskOps) (json : Json) (V : String → Answer → Type 0) where
  -- Of all entries of `s'`, against the store `s` before the call.
  abbrev AllFrom : Store disk → Store disk → Type 0
  AllFrom s s' = (k : String) (r : Answer) → find k s'.results ≡ some r → HasOrigin disk V s k r

  get-AllFrom :
      (s s' : Store disk) (k : String)
      → AllFrom s s'
      → s'.backing ≡ s.backing
      → AllFrom s (get disk s' k).1
  get-AllFrom s s' k h same j r e = elim (get_origin disk s' k j r e) [
    | inl old ↦ h j r old
    | inr on ↦ inr (inl (rw same at on))
  ]

  set-AllFrom :
      (s s' : Store disk) (k : String) (r : Answer)
      → AllFrom s s'
      → V k r
      → AllFrom s (set disk s' k r)
  set-AllFrom s s' k r h vetted j x e = elim (Bool-cases (str_eq k j)) [
    | inl same ↦
        let eq : k ≡ j = (str_eq_iff k j).0 same in
        let stored : ◌≡◌ {A = Option Answer} (some r) (some x) =
          rw same at (rw (find-set disk s' k j r) at e) in
        let result : r ≡ x = cc stored in rw (← eq, ← result) (inr (inr vetted))
    | inr differ ↦ h j x (rw differ at (rw (find-set disk s' k j r) at e))
  ]

  abbrev AreKeyed : List Pending → Type 0
  AreKeyed = All (λ p. key_for_judgement json p.judgement ≡ ok p.key)

  -- Valid results in the places of the pending judgements are vetted.
  abbrev Vets : List Pending → List Answer → Type 0
  Vets ps rs =
      (m : ℕ) (p : Pending) (r : Answer)
      → get_elem? ps m ≡ some p
      → IsValidAt json (batch ps) rs m p.key r
      → V p.key r

  store_results-AllFrom :
      (i n : ℕ) (ps : List Pending) (rs : List Answer) (s s' : Store disk)
      → Vets ps rs
      → Passes i n ps rs
      → AreKeyed ps
      → AllFrom s s'
      → AllFrom s (store_results disk n ps rs s')
  unfolding store_results batch
  store_results-AllFrom i zero ps rs s s' vets pass keyed h = h
  store_results-AllFrom i (suc n) [] rs s s' vets pass keyed h = h
  store_results-AllFrom i (suc n) (p ∷ ps) [] s s' vets pass keyed h = h
  store_results-AllFrom i (suc n) (p ∷ ps) (r ∷ rs) s s' vets (fine, pass) (key, keyed) h =
      let (blank, valid) = check_result-none i p.judgement r fine in
      store_results-AllFrom (i + 1) n ps rs s (set disk s' p.key r) (λ m. vets (suc m)) pass keyed
        (set-AllFrom s s' p.key r h
          (vets zero p r refl (p.judgement, refl, refl, key, blank, valid)))

  commit-AllFrom :
      (s : Store disk) (rt : Runtime disk) (ps : List Pending) (rs : List Answer)
      → Vets ps rs
      → AreKeyed ps
      → AllFrom s rt.cache
      → AllFrom s (commit disk rt ps rs).0.cache
  unfolding commit
  commit-AllFrom s rt ps rs vets keyed h = elim (Option-cases (first_failure 0 ps rs)) [
    | inl fine ↦
        rw (fine, commit)
          (store_results-AllFrom 0 (length ps) ps rs s rt.cache vets
            (Passes-all 0 (length ps) ps rs fine) keyed h)
    | inr ((at, fr, e), bad) ↦
        rw (bad, commit)
          (store_results-AllFrom 0 at ps rs s rt.cache vets
            (Passes-before 0 at ps rs bad (omega arith)) keyed h)
  ]

  receive-AllFrom :
      (s : Store disk) (rt : Runtime disk) (fr : ℕ) (ps : List Pending)
      (r : Result String (List Answer))
      → ((rs : List Answer) → r ≡ ok rs → Vets ps rs)
      → AreKeyed ps
      → AllFrom s rt.cache
      → AllFrom s (receive disk rt fr ps r).0.cache
  unfolding receive
  receive-AllFrom s rt fr ps (err e) vets keyed h = h
  receive-AllFrom s rt fr ps (ok rs) vets keyed h = elim (Bool-cases (length rs == length ps)) [
    | inl same ↦ rw same (commit-AllFrom s rt ps rs (vets rs refl) keyed h)
    | inr differ ↦ rw differ h
  ]

  record IsSound (s : Store disk) (g : Gather disk) : Type 0 where
    from : AllFrom s g.cache
    backed : g.cache.backing ≡ s.backing
    keyed : AreKeyed g.pending

  note_miss-IsSound :
      (s : Store disk) (p : Pending) (g : Gather disk)
      → IsSound s g
      → key_for_judgement json p.judgement ≡ ok p.key
      → IsSound s (note_miss disk p g)
  unfolding note_miss
  note_miss-IsSound s p g h key = elim (Bool-cases (is_pending p.key g.pending)) [
    | inl e ↦ rw e h
    | inr e ↦ rw e (record {
      from = h.from;
      backed = h.backed;
      keyed = All-append _ g.pending (p ∷ []) h.keyed (key, tt);
    })
  ]

  looked_up :
      (s : Store disk) (p : Pending) (g : Gather disk) (st : _)
      → IsSound s g
      → IsSound s (record g { cache = (get disk g.cache p.key).1; stats = st })
  looked_up s p g st h = record {
    from = get-AllFrom s g.cache p.key h.from h.backed;
    backed = get_backing disk g.cache p.key ∙ h.backed;
    keyed = h.keyed;
  }

  note-IsSound :
      (s : Store disk) (p : Pending) (g : Gather disk)
      → IsSound s g
      → key_for_judgement json p.judgement ≡ ok p.key
      → IsSound s (note disk p g)
  unfolding note
  note-IsSound s p g h key = elim (Option-cases (get disk g.cache p.key).0) [
    | inl miss ↦ rw (miss, note) (note_miss-IsSound s p _ (looked_up s p g g.stats h) key)
    | inr (r, hit) ↦ rw (hit, note) (looked_up s p g _ h)
  ]

  module _ (judge : List (List Judgement) → List Judgement → Result String (List Answer)) where
    gather-IsSound :
        (s : Store disk) (frames : List ℕ) (i : ℕ) (js : List Judgement) (g : Gather disk)
        → IsSound s g
        → IsSound s (gather disk json judge frames i js g).0
    unfolding gather
    gather-IsSound s frames i [] g h = h
    gather-IsSound s frames i (j ∷ js) g h = elim (Result-cases (key_for_judgement json j)) [
      | inl (e, q) ↦ rw (q, gather) h
      | inr (k, q) ↦ rw (q, gather) (gather-IsSound s frames (i + 1) js _ (note-IsSound s _ g h q))
    ]

    dispatch-AllFrom :
        (s : Store disk) (rt : Runtime disk) (ps : List Pending)
        → ((rs : List Answer)
            → (dispatch disk json judge rt ps).0.sent ≡ rt.sent ++ batch ps ∷ []
            → judge rt.sent (batch ps) ≡ ok rs
            → Vets ps rs)
        → AreKeyed ps
        → AllFrom s rt.cache
        → AllFrom s (dispatch disk json judge rt ps).0.cache
    unfolding dispatch
    dispatch-AllFrom s rt [] vets keyed h = h
    dispatch-AllFrom s rt (p ∷ ps) vets keyed h =
        elim (Option-cases (
          check_max_calls rt.max_calls (spent rt.stats) (length (p ∷ ps))
            rt.max_calls_default_paid)) [
              | inr (x, over) ↦ rw (over, dispatch) h
              | inl fine ↦
                  rw (fine, dispatch)
                    (receive-AllFrom s (sending disk rt (p ∷ ps)) p.frame (p ∷ ps)
                      (judge rt.sent (batch (p ∷ ps)))
                      (λ rs. vets rs (
                        rw (fine, dispatch)
                          (receive_sent disk json judge (sending disk rt (p ∷ ps)) p.frame (p ∷ ps)
                            (judge rt.sent (batch (p ∷ ps))))))
                      keyed h)
            ]

module _ (disk : DiskOps) (json : Json)
    (judge : List (List Judgement) → List Judgement → Result String (List Answer)) where
  after_gather-AllFrom :
      (rt : Runtime disk) (r : Gather disk × Option ResolveError)
      → IsSound disk json
          (IsVetted json judge rt.sent (after_gather disk json judge rt r).0.sent)
          rt.cache
          r.0
      → AllFrom disk json
          (IsVetted json judge rt.sent (after_gather disk json judge rt r).0.sent)
          rt.cache
          (after_gather disk json judge rt r).0.cache
  unfolding after_gather
  after_gather-AllFrom rt (g, some e) h = h.from
  after_gather-AllFrom rt (g, none) h =
      dispatch-AllFrom disk json _ judge rt.cache (record rt { cache = g.cache; stats = g.stats })
        g.pending (λ rs sent judged m p r at valid. (batch g.pending, rs, m, sent, judged, valid))
        h.keyed h.from

  -- Each result in memory after `resolve` was there before under its key, or the disk store has it
  -- under that key, or `resolve` has sent a batch and it is the backend's answer to the judgement in
  -- the same place of that batch: the judgement has that key, and the answer has no error of its own
  -- and satisfies the output contract of that very judgement. So no answer of the backend is stored
  -- that is not valid for the judgement it was given to.
  pub resolve_stores_valid :
      (rt : Runtime disk) (k : String) (r : Answer)
      → find k (resolve disk json judge rt).0.cache.results ≡ some r
      → HasOrigin disk
          (IsVetted json judge rt.sent (resolve disk json judge rt).0.sent)
          rt.cache
          k
          r
  unfolding resolve
  resolve_stores_valid rt k r h =
      after_gather-AllFrom rt _
        (gather-IsSound disk json _ judge rt.cache rt.collected_frames 0 rt.collected _
          (record { from = λ j x e. inl e; backed = refl; keyed = tt }))
        k r h
