-- ===== src/Engine/Interleaved/Again.antt =====
-- A semantic call that is made twice.
use ajq.Prelude.{
  String, List, [], ◌∷◌, Option, none, some, ◌≡◌, refl, ap, ◌∙◌, inl, inr, str_eq_refl,
}
use ajq.Result.{Result, ok, err, Result-cases}
use ajq.Value.{Value}
use ajq.Backend.{Judgement, Answer}
use ajq.Cache.{DiskOps, Store, find, get}
use ajq.Cache.Laws.{get_cached, get_hit, find-set}
use ajq.Cache.Canonical.{Json, KeyError}
use ajq.Cache.Key.{key_for_judgement}
use ajq.Engine.{EngineError}
use ajq.Engine.Callback.{Outcome, yields, fails}
use ajq.Engine.Resolve.{check_result}
use ajq.Engine.Interleaved.{
  Interleaved, keep, receive_one, sending_one, ask, looked_up, keyed_one, resolve_one,
}

-- An outcome that is a value is what the cache holds for the key.
abbrev IsKept : (disk : DiskOps) → String → Outcome × Interleaved disk → Type 0
IsKept disk k (fails e, rt) = Unit
IsKept disk k (yields v, rt) = (r : Answer) × (find k rt.cache.results ≡ some r) × (r.value ≡ v)

module _ (disk : DiskOps) where
  keep-IsKept :
      (rt : Interleaved disk) (j : Judgement) (k : String) (r : Answer) (e : Option EngineError)
      → IsKept disk k (keep disk rt j k r e)
  unfolding keep
  keep-IsKept rt j k r (some e) = tt
  keep-IsKept rt j k r none = (r, find-set disk rt.cache k k r ∙ rw (str_eq_refl k), refl)

  receive_one-IsKept :
      (rt : Interleaved disk) (j : Judgement) (k : String) (answer : Result String (List Answer))
      → IsKept disk k (receive_one disk rt j k answer)
  unfolding receive_one
  receive_one-IsKept rt j k (err e) = tt
  receive_one-IsKept rt j k (ok []) = tt
  receive_one-IsKept rt j k (ok (r ∷ [])) = keep-IsKept rt j k r (check_result 0 j r)
  receive_one-IsKept rt j k (ok (r ∷ s ∷ rs)) = tt

  kept_value :
      (k : String) (x : Outcome × Interleaved disk) (v : Value)
      → IsKept disk k x
      → x.0 ≡ yields v
      → (r : Answer) × (find k x.1.cache.results ≡ some r) × (r.value ≡ v)
  kept_value k (yields w, rt) v (r, held, same) h = (r, held, same ∙ ap value_in h)
    where
      value_in : Outcome → Value
      value_in (yields u) = u
      value_in (fails e) = w
  kept_value k (fails e, rt) v kept h = cc h

  module _ (json : Json)
      (judge : List (List Judgement) → List Judgement → Result String (List Answer)) where
    ask-IsKept :
        (rt : Interleaved disk) (j : Judgement) (k : String) (e : Option EngineError)
        → IsKept disk k (ask disk json judge rt j k e)
    unfolding ask
    ask-IsKept rt j k (some e) = tt
    ask-IsKept rt j k none = receive_one-IsKept (sending_one disk rt j) j k (judge rt.sent (j ∷ []))

    looked_up-IsKept :
        (rt : Interleaved disk) (j : Judgement) (k : String) (x : Option Answer × Store disk)
        → ((r : Answer) → x.0 ≡ some r → find k x.1.results ≡ some r)
        → IsKept disk k (looked_up disk json judge rt j k x)
    unfolding looked_up
    looked_up-IsKept rt j k (some r, cache') held = (r, held r refl, refl)
    looked_up-IsKept rt j k (none, cache') held = ask-IsKept _ j k _

    resolve_one-IsKept :
        (rt : Interleaved disk) (j : Judgement) (k : String)
        → key_for_judgement json j ≡ ok k
        → IsKept disk k (resolve_one disk json judge rt j)
    unfolding resolve_one keyed_one
    resolve_one-IsKept rt j k key =
        rw key (looked_up-IsKept rt j k (get disk rt.cache k) (get_hit disk rt.cache k))

    -- A call whose key is in memory is a hit.
    hit :
        (rt : Interleaved disk) (j : Judgement) (k : String) (r : Answer)
        → key_for_judgement json j ≡ ok k
        → find k rt.cache.results ≡ some r
        → ((resolve_one disk json judge rt j).0 ≡ yields r.value)
          × ((resolve_one disk json judge rt j).1.sent ≡ rt.sent)
    unfolding resolve_one keyed_one looked_up
    hit rt j k r key cached = rw (key, get_cached disk rt.cache k r cached) (refl, refl)

    unkeyed :
        (rt : Interleaved disk) (j : Judgement) (v : Value) (e : KeyError)
        → key_for_judgement json j ≡ err e
        → (resolve_one disk json judge rt j).0 ≡ yields v
        → ⊥
    unfolding resolve_one keyed_one
    unkeyed rt j v e key h = cc (rw key at h)

    -- A call that yielded a value yields it again when it is repeated at once, and the repetition
    -- sends nothing to the backend.
    pub resolve_one_again :
        (rt : Interleaved disk) (j : Judgement) (v : Value)
        → (resolve_one disk json judge rt j).0 ≡ yields v
        → ((resolve_one disk json judge (resolve_one disk json judge rt j).1 j).0 ≡ yields v)
          × ((resolve_one disk json judge (resolve_one disk json judge rt j).1 j).1.sent
              ≡ (resolve_one disk json judge rt j).1.sent)
    resolve_one_again rt j v h = elim (Result-cases (key_for_judgement json j)) [
      | inl (e, key) ↦ absurd (unkeyed rt j v e key h)
      | inr (k, key) ↦
          let (r, cached, same) = kept_value k _ v (resolve_one-IsKept rt j k key) h in
          let (again, quiet) = hit (resolve_one disk json judge rt j).1 j k r key cached in
          (again ∙ ap yields same, quiet)
    ]
