-- ===== src/Backend.antt =====
-- internal/backend/backend.go: the payloads of the judgement seam.
use ajq.Prelude.{String, List}
use ajq.Value.{Value}
use ajq.Semantics.{Kind, ReturnType}

pub record ResultSchema : Type 0 where
  pub return_type : ReturnType
  pub enum : List String

pub record Judgement : Type 0 where
  pub op : String
  pub kind : Kind
  pub return_type : ReturnType
  pub schema : ResultSchema
  pub specs : List String
  pub model_id : String
  pub value : Value

-- `error` is the per-item failure text, empty when there is none.
pub record Answer : Type 0 where
  pub value : Value
  pub error : String
