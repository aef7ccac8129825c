-- ===== src/Semantics.antt =====
-- internal/semantics/registry.go: the semantic operators' metadata.
use ajq.Prelude.{
  ℕ, ◌-◌, String, Bool, true, false, List, [], ◌∷◌, Option, none, some, take, str_eq, if◌then◌else◌,
}

abbrev pub max_jq_function_arity : ℕ
max_jq_function_arity = 30

-- Go's `Kind` and `ReturnType` are strings; `unset` is the empty one, `unknown` any other.
pub data Kind : Type 0 where
  predicate value : Kind
  unset_kind : Kind

pub data ReturnType : Type 0 where
  unset bool string number : ReturnType
  unknown : String → ReturnType

pub data AvailabilityStatus : Type 0 where
  shipped limited : AvailabilityStatus

pub data ExecutionContext : Type 0 where
  all interleaved_gated three_phase_sort_by three_phase_group_by : ExecutionContext

pub data Limitation : Type 0 where
  non_gated_unbounded_fails_loudly : Limitation

-- The fixed arrays hold at most three contexts and one limitation.
pub record Availability : Type 0 where
  pub status : AvailabilityStatus
  pub contexts : List ExecutionContext
  pub limitations : List Limitation

unfoldable pub availability :
    AvailabilityStatus → List ExecutionContext → List Limitation → Availability
availability s cs ls = record { status = s; contexts = take 3 cs; limitations = take 1 ls }

pub record OpSpec : Type 0 where
  pub name : String
  pub kind : Kind
  pub return_type : ReturnType
  pub implicit_min_arity : ℕ
  pub implicit_max_arity : ℕ
  pub explicit_min_arity : ℕ
  pub explicit_max_arity : ℕ
  pub implicit_min_specs : ℕ
  pub implicit_max_specs : ℕ
  pub explicit_min_specs : ℕ
  pub explicit_max_specs : ℕ
  pub prefer_implicit_all_string : Bool
  pub available : Availability

-- The arities that all operators but sem_classify share.
abbrev unary : String → Kind → ReturnType → Availability → OpSpec
unary n k r a = record {
  name = n;
  kind = k;
  return_type = r;
  implicit_min_arity = 1;
  implicit_max_arity = 1;
  explicit_min_arity = 2;
  explicit_max_arity = 2;
  implicit_min_specs = 1;
  implicit_max_specs = 1;
  explicit_min_specs = 1;
  explicit_max_specs = 1;
  prefer_implicit_all_string = false;
  available = a;
}

unfoldable pub sem_match_spec : OpSpec
unfolding availability
sem_match_spec = unary "sem_match" predicate bool (availability shipped (all ∷ []) [])

unfoldable pub sem_classify_spec : OpSpec
unfolding availability
sem_classify_spec = record {
  name = "sem_classify";
  kind = value;
  return_type = string;
  implicit_min_arity = 2;
  implicit_max_arity = max_jq_function_arity;
  explicit_min_arity = 3;
  explicit_max_arity = max_jq_function_arity;
  implicit_min_specs = 2;
  implicit_max_specs = max_jq_function_arity;
  explicit_min_specs = 2;
  explicit_max_specs = max_jq_function_arity - 1;
  prefer_implicit_all_string = true;
  available = availability shipped (all ∷ []) [];
}

unfoldable pub sem_extract_spec : OpSpec
unfolding availability
sem_extract_spec =
    unary "sem_extract" value string
      (availability limited (interleaved_gated ∷ []) (non_gated_unbounded_fails_loudly ∷ []))

unfoldable pub sem_score_spec : OpSpec
unfolding availability
sem_score_spec = unary "sem_score" value number (
    availability limited (interleaved_gated ∷ three_phase_sort_by ∷ [])
      (non_gated_unbounded_fails_loudly ∷ []))

unfoldable pub sem_norm_spec : OpSpec
unfolding availability
sem_norm_spec = unary "sem_norm" value string (
    availability limited (interleaved_gated ∷ three_phase_group_by ∷ [])
      (non_gated_unbounded_fails_loudly ∷ []))

unfoldable pub sem_redact_spec : OpSpec
unfolding availability
sem_redact_spec =
    unary "sem_redact" value string
      (availability limited (interleaved_gated ∷ []) (non_gated_unbounded_fails_loudly ∷ []))

-- `Lookup`; `none` is the result with ok = false.
unfoldable pub lookup : String → Option OpSpec
unfolding sem_match_spec sem_classify_spec sem_extract_spec sem_score_spec sem_norm_spec
    sem_redact_spec
lookup name =
    if str_eq name "sem_match"
    then some sem_match_spec
    else if str_eq name "sem_classify"
    then some sem_classify_spec
    else if str_eq name "sem_extract"
    then some sem_extract_spec
    else if str_eq name "sem_score"
    then some sem_score_spec
    else if str_eq name "sem_norm"
    then some sem_norm_spec
    else if str_eq name "sem_redact"
    then some sem_redact_spec
    else none
