-- ===== src/Engine/Execute.antt =====
-- Execution finds what the resolver stored.
use ajq.Prelude.{ℕ, String, List, some, ◌≡◌, ap, ◌∙◌, length, get_elem?}
use mathlib.Core.Path.{ap₂}
use ajq.Result.{Result, ok}
use ajq.Value.{Value}
use ajq.Backend.{Judgement, Answer}
use ajq.Plan.{Source}
use ajq.Cache.{DiskOps, find}
use ajq.Cache.Laws.{IsCached, get_cached}
use ajq.Cache.Canonical.{Json}
use ajq.Cache.Key.{key_for_judgement}
use ajq.Engine.{Runtime, execute_phase}
use ajq.Engine.Call.{model_judgement, judgement_from_planned_call}
use ajq.Engine.Callback.{
  yields, record_witness, execute_function, execute_classify, answer_from_cache,
}
use ajq.Engine.Resolve.{resolve, frame_for_collected}
use ajq.Engine.Resolve.SameRun.{resolve-IsSameRun}
use ajq.Engine.Resolve.Gathered.{IsOrdered}
use ajq.Engine.Resolve.Complete.{MayRun, resolve_answers}

module _ (disk : DiskOps) where
  answer_cached :
      (json : Json) (rt : Runtime disk) (op : String) (j : Judgement) (k : String)
      → key_for_judgement json j ≡ ok k
      → IsCached disk rt.cache k
      → (v : Value) × ((answer_from_cache disk json rt op (ok j)).0 ≡ yields v)
  unfolding answer_from_cache
  answer_cached json rt op j k key (r, e) =
      (r.value, rw (key, get_cached disk rt.cache k r e, answer_from_cache))

  function_cached :
      (json : Json) (rt : Runtime disk) (id : ℕ) (op : String) (source : Source) (input : Value)
      (args : List Value) (j : Judgement) (k : String)
      → model_judgement rt.model_id op input args ≡ ok j
      → key_for_judgement json j ≡ ok k
      → IsCached disk rt.cache k
      → (v : Value) × ((execute_function disk json rt id op source input args).0 ≡ yields v)
  unfolding execute_function record_witness
  function_cached json rt id op source input args j k call key cached =
      rw call
        (answer_cached json (record_witness disk rt id execute_phase op source) op j k key cached)

  -- A call whose key is in memory yields what is there, and leaves but its witness.
  pub function_yields :
      (json : Json) (rt : Runtime disk) (id : ℕ) (op : String) (source : Source) (input : Value)
      (args : List Value) (j : Judgement) (k : String) (r : Answer)
      → model_judgement rt.model_id op input args ≡ ok j
      → key_for_judgement json j ≡ ok k
      → find k rt.cache.results ≡ some r
      → execute_function disk json rt id op source input args
        ≡ (yields r.value, record_witness disk rt id execute_phase op source)
  unfolding execute_function record_witness answer_from_cache
  function_yields json rt id op source input args j k r call key e =
      rw (call, key, get_cached disk rt.cache k r e, answer_from_cache)

  classify_cached :
      (json : Json) (rt : Runtime disk) (id : ℕ) (source : Source) (input : Value)
      (args : List Value) (j : Judgement) (k : String)
      → judgement_from_planned_call rt.model_id rt.planned id "sem_classify" input args ≡ ok j
      → key_for_judgement json j ≡ ok k
      → IsCached disk rt.cache k
      → (v : Value) × ((execute_classify disk json rt id source input args).0 ≡ yields v)
  unfolding execute_classify record_witness
  classify_cached json rt id source input args j k call key cached = rw call (
      answer_cached json (record_witness disk rt id execute_phase "sem_classify" source)
        "sem_classify" j k key cached)

  module _ (json : Json)
      (judge : List (List Judgement) → List Judgement → Result String (List Answer))
      (rt : Runtime disk)
      (ordered : IsOrdered (frame_for_collected rt.collected_frames) (length rt.collected)) (m : ℕ)
      (j : Judgement) (at : get_elem? rt.collected m ≡ some j)
      (run : MayRun (resolve disk json judge rt).1 (frame_for_collected rt.collected_frames m))
      (id : ℕ) (source : Source) (input : Value) (args : List Value) where
    abbrev resolved : Runtime disk
    resolved = (resolve disk json judge rt).0

    -- A call whose judgement was collected, of a frame that may be executed after `resolve`, yields
    -- a value when it is executed: it is no cache miss and no other error.
    pub execute_function_answered :
        (op : String)
        → model_judgement rt.model_id op input args ≡ ok j
        → (v : Value) × ((execute_function disk json resolved id op source input args).0 ≡ yields v)
    execute_function_answered op call =
        let (k, key, cached) = resolve_answers disk json judge rt ordered m j at run in
        let same = (resolve-IsSameRun disk json judge rt).0 in
        function_cached json resolved id op source input args j k
          (ap (λ model. model_judgement model op input args) same ∙ call) key cached

    -- A `sem_classify` call, whose judgement comes from its planned node if it has one, yields a value
    -- when it is executed after `resolve`, if that judgement was collected in a frame that may be
    -- executed.
    pub execute_classify_answered :
        judgement_from_planned_call rt.model_id rt.planned id "sem_classify" input args ≡ ok j
        → (v : Value) × ((execute_classify disk json resolved id source input args).0 ≡ yields v)
    execute_classify_answered call =
        let (k, key, cached) = resolve_answers disk json judge rt ordered m j at run in
        let same = resolve-IsSameRun disk json judge rt in
        classify_cached json resolved id source input args j k
          (ap₂ (λ model nodes. judgement_from_planned_call model nodes id "sem_classify" input args)
              same.0 same.1
            ∙ call)
          key cached
