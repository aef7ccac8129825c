-- ===== src/Cache/Key.antt =====
-- `KeyForJudgement`.
use ajq.Prelude.{String, Option, none, some, str_eq, if◌then◌else◌}
use ajq.Result.{Result, ok, err, ◌>>=◌}
use ajq.Backend.{Judgement}
use ajq.Cache.Canonical.{Json, KeyError, encode_failed, write_canonical}

abbrev pub default_model_id : String
default_model_id = "ajq-default-model"

abbrev pub effective_model : String → String
effective_model m = if str_eq m "" then default_model_id else m

abbrev encoded : Option String → Result KeyError String
encoded none = err encode_failed
encoded (some k) = ok k

unfoldable pub key_for_judgement : Json → Judgement → Result KeyError String
key_for_judgement json j = do
  value ← write_canonical json j.value
  encoded (json.marshal_parts j.op j.specs (effective_model j.model_id) value)
