-- ===== src/Engine/Call.antt =====
-- The judgement of a semantic call (internal/engine/semantic.go, from `judgementFromPlannedCall` to
-- `stringSpecs`).
use ajq.Prelude.{
  ℕ, ◌+◌, String, ◌&&◌, List, [], ◌∷◌, Option, none, some, str_eq, ◌==◌, if◌then◌else◌, length,
}
use ajq.Result.{Result, ok, err, ◌>>=◌}
use ajq.Value.{Value, str}
use ajq.Semantics.{OpSpec, lookup}
use ajq.Backend.{Judgement, ResultSchema}
use ajq.Plan.{SemNode}
use ajq.Engine.{
  CallError, unknown_operator, classify_needs_labels, wrong_arity, spec_not_string, missing_value,
}

-- `stringSpecs`, from argument number `i` on.
pub string_specs : ℕ → List Value → Result CallError (List String)
string_specs i [] = ok []
string_specs i (str s ∷ args) = do rest ← string_specs (i + 1) args; ok (s ∷ rest)
string_specs i (_ ∷ args) = err (spec_not_string (i + 1))

abbrev with_value : Value → Result CallError (List String) → Result CallError (Value × List String)
with_value v (ok specs) = ok (v, specs)
with_value v (err e) = err e

classify_args : Value → List Value → Result CallError (Value × List String)
classify_args input (a ∷ b ∷ []) = with_value input (string_specs 0 (a ∷ b ∷ []))
classify_args input (a ∷ b ∷ c ∷ args) = with_value a (string_specs 0 (b ∷ c ∷ args))
classify_args input _ = err classify_needs_labels

unary_args : String → Value → List Value → Result CallError (Value × List String)
unary_args op input (a ∷ []) = with_value input (string_specs 0 (a ∷ []))
unary_args op input (a ∷ b ∷ []) = with_value a (string_specs 0 (b ∷ []))
unary_args op input _ = err (wrong_arity op)

unfoldable pub value_and_specs :
    String → Value → List Value → Result CallError (Value × List String)
unfolding classify_args unary_args string_specs
value_and_specs op input args =
    if str_eq op "sem_classify" then classify_args input args else unary_args op input args

unfoldable pub schema_for : OpSpec → List String → ResultSchema
schema_for op specs = record {
  return_type = op.return_type;
  enum = if str_eq op.name "sem_classify" then specs else [];
}

abbrev pub call_judgement : OpSpec → Value → List String → Judgement
call_judgement op v specs = record {
  op = op.name;
  kind = op.kind;
  return_type = op.return_type;
  schema = schema_for op specs;
  specs = specs;
  model_id = "";
  value = v;
}

-- The package function `judgementFromCall`.
unfoldable pub judgement_from_call : String → Value → List Value → Result CallError Judgement
judgement_from_call name input args = elim (lookup name) [
  | none ↦ err (unknown_operator name)
  | some op ↦ do vs ← value_and_specs op.name input args; ok (call_judgement op vs.0 vs.1)
]

-- The method of that name, on the runtime's model.
unfoldable pub model_judgement : String → String → Value → List Value → Result CallError Judgement
model_judgement model name input args = do
  j ← judgement_from_call name input args
  ok (record j { model_id = model })

-- The map `planned`: a later node replaces an earlier one with its id.
unfoldable pub planned_node : ℕ → List SemNode → Option SemNode
planned_node id [] = none
planned_node id (n ∷ ns) = elim (planned_node id ns) [
  | some m ↦ some m
  | none ↦ if n.id == id then some n else none
]

abbrev pub node_judgement : String → SemNode → Value → Judgement
node_judgement model n v = record {
  op = n.op;
  kind = n.kind;
  return_type = n.return_type;
  schema = record { return_type = n.return_type; enum = n.specs };
  specs = n.specs;
  model_id = model;
  value = v;
}

abbrev first_arg : String → SemNode → List Value → Result CallError Judgement
first_arg model n [] = err missing_value
first_arg model n (a ∷ args) = ok (node_judgement model n a)

planned_classify : String → SemNode → Value → List Value → Result CallError Judgement
planned_classify model n input args =
    if str_eq n.value_expr "." && n.arity == length n.specs
    then ok (node_judgement model n input)
    else first_arg model n args

-- `judgementFromPlannedCall`
unfoldable pub judgement_from_planned_call :
    String → List SemNode → ℕ → String → Value → List Value → Result CallError Judgement
unfolding planned_classify
judgement_from_planned_call model planned id name input args = elim (planned_node id planned) [
  | none ↦ model_judgement model name input args
  | some n ↦
      if str_eq n.op "sem_classify"
      then planned_classify model n input args
      else model_judgement model name input args
]
