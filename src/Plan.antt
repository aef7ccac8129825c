-- ===== src/Plan.antt =====
-- internal/plan/types.go, internal/plan/diagnostic.go and the parts of internal/plan/build.go that
-- classify and count planned calls.
pub mod Attach
pub mod Scan
use ajq.Prelude.{
  ℕ, ◌+◌, String, Bool, true, false, not, List, [], ◌∷◌, str_eq, if◌then◌else◌, length,
}
use ajq.Value.{ℤ, negsuc}
use ajq.Semantics.{Kind, predicate, value, unset_kind, ReturnType, OpSpec}

pub record Source : Type 0 where
  pub expression : String
  pub start_byte : ℤ
  pub end_byte : ℤ
  pub has_range : Bool

unfoldable pub unknown_source : String → Source
unknown_source e = record {
  expression = e;
  start_byte = negsuc 0;
  end_byte = negsuc 0;
  has_range = false;
}

pub data Severity : Type 0 where
  error_severity : Severity

pub data DiagnosticCode : Type 0 where
  parse_error unknown_sem_op arity_error non_literal_spec max_arity unsupported : DiagnosticCode

-- `Diagnostic`, without its message.
pub record Diagnostic : Type 0 where
  pub severity : Severity
  pub code : DiagnosticCode
  pub op : String
  pub source : Source

unfoldable pub error_diagnostic : DiagnosticCode → String → String → Diagnostic
error_diagnostic code op expression = record {
  severity = error_severity;
  code = code;
  op = op;
  source = unknown_source expression;
}

pub data ExecutionMode : Type 0 where
  three_phase generator_superset interleaved_fallback : ExecutionMode

pub record SemNode : Type 0 where
  pub id : ℕ
  pub internal_name : String
  pub arity : ℕ
  pub op : String
  pub kind : Kind
  pub return_type : ReturnType
  pub value_expr : String
  pub specs : List String
  pub source : Source
  pub gated : Bool
  pub execution_mode : ExecutionMode

pub record Summary : Type 0 where
  pub semantic_count : ℕ
  pub predicate_count : ℕ
  pub value_count : ℕ
  pub model_calls_estimate : ℕ
  pub deterministic : Bool

pub record Plan : Type 0 where
  pub query : String
  pub semantic : List SemNode
  pub deterministic : Bool
  pub requires_interleaved : Bool
  pub summary : Summary

-- `executionModeFor`
unfoldable pub execution_mode_for : OpSpec → Bool → ExecutionMode
execution_mode_for op gated = elim op.kind [
  | value ↦
      if not gated
      then three_phase
      else if str_eq op.name "sem_classify"
      then generator_superset
      else interleaved_fallback
  | _ ↦ three_phase
]

abbrev is_interleaved : ExecutionMode → Bool
is_interleaved interleaved_fallback = true
is_interleaved _ = false

abbrev count_kind : Kind → Summary → Summary
count_kind predicate s = record s { predicate_count = s.predicate_count + 1 }
count_kind value s = record s { value_count = s.value_count + 1 }
count_kind unset_kind s = s

-- The loop of `finish`.
pub tally : List SemNode → Bool → Summary → Bool × Summary
tally [] inter s = (inter, s)
tally (n ∷ ns) inter s =
    tally ns (if is_interleaved n.execution_mode then true else inter) (count_kind n.kind s)

-- `finish`, on the builder's `plan` and `seenSem`.
unfoldable pub finish : Bool → Plan → Plan
finish seen_sem p =
    let counted = record p.summary {
      semantic_count = length p.semantic;
      deterministic = not seen_sem;
      model_calls_estimate = length p.semantic;
    } in
    let (inter, s) = tally p.semantic p.requires_interleaved counted in
    record p { deterministic = not seen_sem; requires_interleaved = inter; summary = s }
