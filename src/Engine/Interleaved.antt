-- ===== src/Engine/Interleaved.antt =====
-- internal/engine/interleaved.go: every semantic call is resolved where the program makes it. The
-- kinds of error are those of the batch resolver, an item's position being 0.
pub mod Again
pub mod Cap
use ajq.Prelude.{ℕ, String, Bool, List, [], ◌∷◌, ◌++◌, Option, none, some, length}
use ajq.Result.{Result, ok, err}
use ajq.Value.{Value, ℤ}
use ajq.Backend.{Judgement, Answer}
use ajq.Plan.{SemNode}
use ajq.Cache.{DiskOps, Store, get, set}
use ajq.Cache.Canonical.{Json, KeyError}
use ajq.Cache.Key.{key_for_judgement}
use ajq.Engine.{
  RunStats, check_max_calls, CallError, EngineError, bad_call, bad_key, backend_failed, wrong_count,
}
use ajq.Engine.Call.{model_judgement, judgement_from_planned_call}
use ajq.Engine.Callback.{Outcome, yields, fails}
use ajq.Engine.Resolve.{count_hit, count_calls, spent, check_result}

-- A semantic call of the program: of a function by its name, or of a planned one.
pub data Call : Type 0 where
  named : String → Value → List Value → Call
  planned : ℕ → String → Value → List Value → Call

module _ (disk : DiskOps) where
  -- `interleavedRuntime`, with the batches sent so far.
  pub record Interleaved : Type 0 where
    pub model_id : String
    pub cache : Store disk
    pub planned : List SemNode
    pub stats : Option RunStats
    pub max_calls : ℤ
    pub max_calls_default_paid : Bool
    pub sent : List (List Judgement)

  pub keep : Interleaved → Judgement → String → Answer → Option EngineError → Outcome × Interleaved
  keep rt j k r (some e) = (fails e, rt)
  keep rt j k r none = (yields r.value, record rt { cache = set disk rt.cache k r })

  -- What becomes of the backend's answer.
  pub receive_one :
      Interleaved → Judgement → String → Result String (List Answer) → Outcome × Interleaved
  receive_one rt j k (err e) = (fails (backend_failed e), rt)
  receive_one rt j k (ok (r ∷ [])) = keep rt j k r (check_result 0 j r)
  receive_one rt j k (ok rs) = (fails (wrong_count (length rs) 1), rt)

  abbrev pub sending_one : Interleaved → Judgement → Interleaved
  sending_one rt j = record rt { stats = count_calls 1 rt.stats; sent = rt.sent ++ (j ∷ []) ∷ [] }

  module _ (json : Json)
      (judge : List (List Judgement) → List Judgement → Result String (List Answer)) where
    -- Behind the cap.
    pub ask : Interleaved → Judgement → String → Option EngineError → Outcome × Interleaved
    ask rt j k (some e) = (fails e, rt)
    ask rt j k none = receive_one (sending_one rt j) j k (judge rt.sent (j ∷ []))

    pub looked_up :
        Interleaved → Judgement → String → Option Answer × Store disk → Outcome × Interleaved
    looked_up rt j k (some r, cache') =
        (yields r.value, record rt { cache = cache'; stats = count_hit rt.stats })
    looked_up rt j k (none, cache') =
        ask (record rt { cache = cache' }) j k
          (check_max_calls rt.max_calls (spent rt.stats) 1 rt.max_calls_default_paid)

    pub keyed_one : Interleaved → Judgement → Result KeyError String → Outcome × Interleaved
    keyed_one rt j (err e) = (fails (bad_key e), rt)
    keyed_one rt j (ok k) = looked_up rt j k (get disk rt.cache k)

    -- `resolveOne`
    unfoldable pub resolve_one : Interleaved → Judgement → Outcome × Interleaved
    unfolding keyed_one looked_up ask receive_one keep
    resolve_one rt j = keyed_one rt j (key_for_judgement json j)

    pub called : Interleaved → Result CallError Judgement → Outcome × Interleaved
    called rt (err e) = (fails (bad_call e), rt)
    called rt (ok j) = resolve_one rt j

    -- `function`
    unfoldable pub call_function : Interleaved → String → Value → List Value → Outcome × Interleaved
    unfolding called
    call_function rt op input args = called rt (model_judgement rt.model_id op input args)

    -- `plannedFunction`
    unfoldable pub call_planned_function :
        Interleaved → ℕ → String → Value → List Value → Outcome × Interleaved
    unfolding called
    call_planned_function rt id op input args =
        called rt (judgement_from_planned_call rt.model_id rt.planned id op input args)

    -- The runtime after a call.
    pub after_call : Interleaved → Call → Interleaved
    after_call rt (named op input args) = (call_function rt op input args).1
    after_call rt (planned id op input args) = (call_planned_function rt id op input args).1

    -- The runtime after the calls of a program, one after another.
    unfoldable pub after_calls : Interleaved → List Call → Interleaved
    unfolding after_call
    after_calls rt [] = rt
    after_calls rt (c ∷ cs) = after_calls (after_call rt c) cs
