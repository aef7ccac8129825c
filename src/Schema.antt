-- ===== src/Schema.antt =====
-- internal/schema/schema.go: the output contract of a judgement. The messages of errors are left
-- out, their kinds and the values that they name are kept.
pub mod Sound
use Prim.Native.Char.{code}
use ajq.Prelude.{
  ℕ, ◌+◌, String, Bool, true, false, ◌&&◌, ◌||◌, List, [], ◌∷◌, Option, none, some, str_eq, leb,
  ◌==◌, if◌then◌else◌,
}
use ajq.Result.{Result, ok, err, ◌>>=◌}
use ajq.Value
use ajq.Value.{Value, IntKind}
use ajq.Semantics.{ReturnType, unset, bool, string, number, unknown}
use ajq.Backend.{Judgement}

pub record Constraint : Type 0 where
  pub op : String
  pub type_of : ReturnType
  pub enum : List String

pub data SchemaError : Type 0 where
  type_mismatch : ReturnType → ReturnType → SchemaError
  missing_return_type : SchemaError
  unknown_return_type : ReturnType → SchemaError
  enum_on_non_string : ReturnType → SchemaError
  empty_label : ℕ → SchemaError
  duplicate_label : String → SchemaError
  requires_label : SchemaError
  want_bool want_number want_string : SchemaError
  not_a_label : String → SchemaError

-- unicode.IsSpace, on a code point.
unfoldable pub is_space : ℕ → Bool
is_space c =
    (leb 9 c && leb c 13)
    || c == 32
    || c == 0x85
    || c == 0xa0
    || c == 0x1680
    || (leb 0x2000 c && leb c 0x200a)
    || c == 0x2028
    || c == 0x2029
    || c == 0x202f
    || c == 0x205f
    || c == 0x3000

-- strings.TrimSpace(s) == ""
unfoldable pub is_blank : String → Bool
is_blank String.[] = true
is_blank (String.◌∷◌ c s) = is_space (code c) && is_blank s

abbrev pub return_type_eq : ReturnType → ReturnType → Bool
return_type_eq unset unset = true
return_type_eq bool bool = true
return_type_eq string string = true
return_type_eq number number = true
return_type_eq (unknown s) (unknown t) = str_eq s t
return_type_eq _ _ = false

unfoldable pub contains_label : List String → String → Bool
contains_label [] v = false
contains_label (label ∷ labels) v = str_eq label v || contains_label labels v

-- `seen` is the map of the loop; the first error ends it.
unfoldable pub validate_labels : List String → ℕ → List String → Option SchemaError
validate_labels seen i [] = none
validate_labels seen i (label ∷ labels) =
    if is_blank label
    then some (empty_label (i + 1))
    else if contains_label seen label
    then some (duplicate_label label)
    else validate_labels (label ∷ seen) (i + 1) labels

abbrev constraint : String → ReturnType → List String → Constraint
constraint op ret enum = record { op = op; type_of = ret; enum = enum }

-- The part of `Build` behind the switch on the return type.
build_supported : String → ReturnType → List String → Result SchemaError Constraint
build_supported op ret [] =
    if str_eq op "sem_classify" then err requires_label else ok (constraint op ret [])
build_supported op string (l ∷ ls) = elim (validate_labels [] 0 (l ∷ ls)) [
  | none ↦ ok (constraint op string (l ∷ ls))
  | some e ↦ err e
]
build_supported op ret (l ∷ ls) = err (enum_on_non_string ret)

unfoldable pub build : String → ReturnType → List String → Result SchemaError Constraint
unfolding build_supported
build op unset enum = err missing_return_type
build op (unknown r) enum = err (unknown_return_type (unknown r))
build op bool enum = build_supported op bool enum
build op number enum = build_supported op number enum
build op string enum = build_supported op string enum

-- `ret`: an explicit schema type that does not contradict the declared one.
effective_type : Judgement → Result SchemaError ReturnType
effective_type j =
    let declared = j.return_type in
    let wanted = j.schema.return_type in
    if return_type_eq wanted unset
    then ok declared
    else if return_type_eq declared unset || return_type_eq wanted declared
    then ok wanted
    else err (type_mismatch wanted declared)

effective_enum : String → List String → List String → List String
effective_enum op specs [] = if str_eq op "sem_classify" then specs else []
effective_enum op specs (l ∷ ls) = l ∷ ls

unfoldable pub for_judgement : Judgement → Result SchemaError Constraint
unfolding effective_type effective_enum
for_judgement j = do
  ret ← effective_type j
  build j.op ret (effective_enum j.op j.specs j.schema.enum)

-- The `case int, int64, float64, json.Number, *big.Int`.
pub is_number : Value → Bool
is_number (Value.integer IntKind.int n) = true
is_number (Value.integer IntKind.int64 n) = true
is_number (Value.float64 b) = true
is_number (Value.number t) = true
is_number (Value.big n) = true
is_number _ = false

validate_bool : Value → Option SchemaError
validate_bool (Value.bool b) = none
validate_bool _ = some want_bool

validate_label : List String → String → Option SchemaError
validate_label [] s = none
validate_label (l ∷ ls) s = if contains_label (l ∷ ls) s then none else some (not_a_label s)

validate_string : List String → Value → Option SchemaError
validate_string enum (Value.str s) = validate_label enum s
validate_string enum _ = some want_string

validate_as : ReturnType → List String → Value → Option SchemaError
validate_as bool enum v = validate_bool v
validate_as number enum v = if is_number v then none else some want_number
validate_as string enum v = validate_string enum v
validate_as ret enum v = some (unknown_return_type ret)

-- `Validate`; `none` is the nil error.
unfoldable pub validate : Constraint → Value → Option SchemaError
unfolding validate_as validate_bool validate_string validate_label is_number
validate c v = validate_as c.type_of c.enum v
