-- ===== src/Engine.antt =====
-- internal/engine/engine.go and internal/engine/semantic.go: accounting, the call cap, and the state
-- of one semantic run.
pub mod Call
pub mod Callback
pub mod Harvest
pub mod Resolve
pub mod Execute
pub mod Explain
pub mod Interleaved
pub mod Windowed
use ajq.Prelude.{
  ℕ, ◌+◌, String, Bool, true, false, ◌||◌, List, [], Option, none, some, leb, ◌==◌, if◌then◌else◌,
}
use ajq.Value.{ℤ, pos, negsuc}
use ajq.Schema.{SchemaError}
use ajq.Backend.{Judgement}
use ajq.Plan.{Source, SemNode}
use ajq.Cache.{DiskOps, Store}
use ajq.Cache.Canonical.{KeyError}

pub data SemanticPhase : Type 0 where
  harvest_phase execute_phase : SemanticPhase

pub record Witness : Type 0 where
  pub id : ℕ
  pub planned : Bool
  pub op : String
  pub query : String
  pub source : Source
  pub phase : SemanticPhase

pub data CallError : Type 0 where
  unknown_operator : String → CallError
  classify_needs_labels : CallError
  wrong_arity : String → CallError
  spec_not_string : ℕ → CallError
  missing_value : CallError

-- The errors of the runtime; their texts are left out.
pub data EngineError : Type 0 where
  bad_call : CallError → EngineError
  bad_key : KeyError → EngineError
  cache_miss : String → EngineError
  unsafe_harvest : String → EngineError
  max_calls_exceeded : ℕ → ℕ → Bool → EngineError
  backend_failed : String → EngineError
  wrong_count : ℕ → ℕ → EngineError
  item_failed : ℕ → String → String → EngineError
  item_invalid : ℕ → String → SchemaError → EngineError
  unplanned : Witness → EngineError

-- `RunStats`, without the wall time and the execution mode.
pub record RunStats : Type 0 where
  pub window_bytes : ℕ
  pub window_count : ℕ
  pub oversized_window_count : ℕ
  pub input_frames : ℕ
  pub semantic_call_sites : ℕ
  pub harvested_judgements : ℕ
  pub post_dedup_backend_calls : ℕ
  pub cache_hits : ℕ

-- `checkMaxCalls`: a cap of zero or less means no cap. `none` is the nil error.
unfoldable pub check_max_calls : ℤ → ℕ → ℕ → Bool → Option EngineError
check_max_calls (negsuc c) spent pending paid = none
check_max_calls (pos c) spent pending paid =
    if c == 0 || pending == 0
    then none
    else if leb (spent + pending) c
    then none
    else some (max_calls_exceeded c (spent + pending) paid)

module _ (disk : DiskOps) where
  -- `semanticRuntime`. The backend is a function of the batches sent to it so far and of the batch,
  -- so the runtime carries those in `sent`. `planned` stands for the map by id and for the order.
  pub record Runtime : Type 0 where
    pub model_id : String
    pub collected : List Judgement
    pub collected_frames : List ℕ
    pub current_frame : ℕ
    pub cache : Store disk
    pub query : String
    pub planned : List SemNode
    pub fired : List Witness
    pub stats : Option RunStats
    pub max_calls : ℤ
    pub max_calls_default_paid : Bool
    pub sent : List (List Judgement)
