-- ===== src/Engine/Callback.antt =====
-- The functions that gojq calls while a program harvests or executes (internal/engine/semantic.go).
-- gojq itself is not modelled: each is a step of the runtime with the values that it yields.
use ajq.Prelude.{
  ℕ, ◌+◌, ◌-◌, String, true, false, List, [], ◌∷◌, ◌++◌, Option, none, some, if◌then◌else◌, length,
  take,
}
use ajq.Result.{Result, ok, err}
use ajq.Value.{Value, null, bool, str, float64}
use ajq.Semantics.{ReturnType}
use ajq.Backend.{Judgement, Answer}
use ajq.Plan.{Source, SemNode}
use ajq.Cache.{DiskOps, Store, get}
use ajq.Cache.Canonical.{Json}
use ajq.Cache.Key.{key_for_judgement}
use ajq.Engine.{
  Runtime, RunStats, Witness, SemanticPhase, harvest_phase, execute_phase, CallError, EngineError,
  bad_call, bad_key, cache_miss, unsafe_harvest, unplanned,
}
use ajq.Engine.Call.{model_judgement, judgement_from_planned_call, planned_node}

pub data Outcome : Type 0 where
  yields : Value → Outcome
  fails : EngineError → Outcome

abbrev pub witness_of : String → ℕ → SemanticPhase → String → Source → Option SemNode → Witness
witness_of query id phase op source none = record {
  id = id;
  planned = false;
  op = op;
  query = query;
  source = source;
  phase = phase;
}
witness_of query id phase op source (some n) = record {
  id = id;
  planned = true;
  op = n.op;
  query = query;
  source = n.source;
  phase = phase;
}

-- What `harvestValueFunction` yields in place of the unknown value.
abbrev placeholder : ReturnType → Value
placeholder ReturnType.number = float64 0
placeholder ReturnType.string = str ""
placeholder ReturnType.bool = bool false
placeholder _ = null

labels : List String → List Outcome
labels [] = []
labels (s ∷ specs) = yields (str s) ∷ labels specs

module _ (disk : DiskOps) where
  unfoldable pub append_judgement : Runtime disk → Judgement → Runtime disk
  append_judgement rt j = record rt {
    collected = rt.collected ++ j ∷ [];
    collected_frames = rt.collected_frames ++ rt.current_frame ∷ [];
  }

  unfoldable pub record_witness : Runtime disk → ℕ → SemanticPhase → String → Source → Runtime disk
  record_witness rt id phase op source = record rt {
    fired = rt.fired ++ witness_of rt.query id phase op source (planned_node id rt.planned) ∷ [];
  }

  -- A judgement is collected, or its error yielded.
  abbrev collecting :
      Runtime disk
      → Result CallError Judgement
      → (Judgement → List Outcome)
      → List Outcome × Runtime disk
  collecting rt (err e) then_yields = (fails (bad_call e) ∷ [], rt)
  collecting rt (ok j) then_yields = (then_yields j, append_judgement rt j)

  unfoldable pub harvest_predicate :
      Runtime disk → ℕ → String → Source → Value → List Value → List Outcome × Runtime disk
  harvest_predicate rt id op source input args =
      collecting (record_witness rt id harvest_phase op source)
        (model_judgement rt.model_id op input args)
        (λ j. yields (bool true) ∷ yields (bool false) ∷ [])

  unfoldable pub unsupported_harvest_value_function :
      Runtime disk → ℕ → String → Source → Value → List Value → List Outcome × Runtime disk
  unsupported_harvest_value_function rt id op source input args =
      collecting (record_witness rt id harvest_phase op source)
        (model_judgement rt.model_id op input args) (λ j. fails (unsafe_harvest op) ∷ [])

  unfoldable pub harvest_value_function :
      Runtime disk → ℕ → String → Source → Value → List Value → List Outcome × Runtime disk
  harvest_value_function rt id op source input args =
      collecting (record_witness rt id harvest_phase op source)
        (model_judgement rt.model_id op input args) (λ j. yields (placeholder j.return_type) ∷ [])

  unfoldable pub harvest_classify :
      Runtime disk → ℕ → Source → Value → List Value → List Outcome × Runtime disk
  unfolding labels
  harvest_classify rt id source input args =
      collecting (record_witness rt id harvest_phase "sem_classify" source)
        (judgement_from_planned_call rt.model_id rt.planned id "sem_classify" input args)
        (λ j. labels j.specs)

  abbrev found : Runtime disk → String → Option Answer × Store disk → Outcome × Runtime disk
  found rt op (none, cache') = (fails (cache_miss op), record rt { cache = cache' })
  found rt op (some r, cache') = (yields r.value, record rt { cache = cache' })

  module _ (json : Json) where
    -- What `executeFunction` and `executeClassify` do with their judgement.
    unfoldable pub answer_from_cache :
        Runtime disk → String → Result CallError Judgement → Outcome × Runtime disk
    answer_from_cache rt op (err e) = (fails (bad_call e), rt)
    answer_from_cache rt op (ok j) = elim (key_for_judgement json j) [
      | err e ↦ (fails (bad_key e), rt)
      | ok k ↦ found rt op (get disk rt.cache k)
    ]

    unfoldable pub execute_function :
        Runtime disk → ℕ → String → Source → Value → List Value → Outcome × Runtime disk
    unfolding answer_from_cache
    execute_function rt id op source input args =
        answer_from_cache (record_witness rt id execute_phase op source) op
          (model_judgement rt.model_id op input args)

    unfoldable pub execute_classify :
        Runtime disk → ℕ → Source → Value → List Value → Outcome × Runtime disk
    unfolding answer_from_cache
    execute_classify rt id source input args =
        answer_from_cache (record_witness rt id execute_phase "sem_classify" source) "sem_classify"
          (judgement_from_planned_call rt.model_id rt.planned id "sem_classify" input args)

  abbrev first_unplanned : SemanticPhase → List Witness → Option EngineError
  first_unplanned phase [] = none
  first_unplanned phase (w ∷ ws) =
      if w.planned then first_unplanned phase ws else some (unplanned (record w { phase = phase }))

  unfoldable pub check_invariant : SemanticPhase → Runtime disk → Option EngineError
  check_invariant phase rt = first_unplanned phase rt.fired

  unfoldable pub release_collected : Runtime disk → Runtime disk
  release_collected rt = record rt { collected = []; collected_frames = [] }

  unfoldable pub discard_collected_from : Runtime disk → ℕ → ℕ → Runtime disk
  discard_collected_from rt collected frames = record rt {
    collected = take collected rt.collected;
    collected_frames = take frames rt.collected_frames;
  }

  abbrev count_harvested : ℕ → Option RunStats → Option RunStats
  count_harvested n none = none
  count_harvested n (some st) =
      some (record st { harvested_judgements = st.harvested_judgements + n })

  abbrev pub either_error : Option EngineError → Option EngineError → Option EngineError
  either_error (some e) other = some e
  either_error none other = other

  -- `harvestAppend`. The compiled harvest program is a parameter: a run of gojq that steps the
  -- runtime by the functions above and ends with or without an error.
  unfoldable pub harvest_append :
      (Value → Runtime disk → Option EngineError × Runtime disk)
      → Runtime disk
      → Value
      → ℕ
      → Option EngineError × Runtime disk
  harvest_append run rt input frame =
      let (failed, rt') = run input (record rt { current_frame = frame; fired = [] }) in
      elim (either_error (check_invariant harvest_phase rt') failed) [
        | some e ↦
            (some e, discard_collected_from rt' (length rt.collected) (length rt.collected_frames))
        | none ↦ (
          none,
          record rt' {
            stats = count_harvested (length rt'.collected - length rt.collected) rt'.stats;
          },
        )
      ]
