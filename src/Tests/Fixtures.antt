-- ===== src/Tests/Fixtures.antt =====
-- The runs and the environment that the tests share.
use ajq.Prelude.{◌≢◌, String, true, false, List, [], ◌∷◌, Option, some, Bytes}
use ajq.Result.{Result, ok}
use ajq.Value.{str, bool, pos}
use ajq.Semantics
use ajq.Semantics.{predicate, value}
use ajq.Backend.{Judgement, Answer}
use ajq.Cache.{DiskOps, find}
use ajq.Cache.Canonical.{Json}
use ajq.Engine.{Runtime, RunStats}

-- A disk store that keeps every entry.
abbrev pub entries : DiskOps
entries = record { D = List (String × Answer); get = λ d k. find k d; set = λ d k r. (k, r) ∷ d }

abbrev parts : String → List String → String → Bytes → Option String
parts op [] model v = some op
parts op (s ∷ specs) model v = some s

-- An encoder whose keys are the first spec.
abbrev pub encoder : Json
encoder = record {
  marshal_string = λ s. some [];
  format_float32 = λ b. [];
  format_float64 = λ b. [];
  marshal_parts = parts;
}

abbrev pub matching : String → Judgement
matching spec = record {
  op = "sem_match";
  kind = predicate;
  return_type = Semantics.bool;
  schema = record { return_type = Semantics.bool; enum = [] };
  specs = spec ∷ [];
  model_id = "m";
  value = str "text";
}

abbrev pub yes : Answer
yes = record { value = bool true; error = "" }

-- A backend that says yes to everything.
abbrev pub yeses : List Judgement → List Answer
yeses [] = []
yeses (j ∷ js) = yes ∷ yeses js

abbrev pub agreeing : List (List Judgement) → List Judgement → Result String (List Answer)
agreeing sent b = ok (yeses b)

-- A backend that answers text to the second judgement.
abbrev pub rambling : List (List Judgement) → List Judgement → Result String (List Answer)
rambling sent (j ∷ js) = ok (yes ∷ record { value = str "maybe"; error = "" } ∷ [])
rambling sent [] = ok []

abbrev pub no_calls : RunStats
no_calls = record {
  window_bytes = 0;
  window_count = 0;
  oversized_window_count = 0;
  input_frames = 0;
  semantic_call_sites = 1;
  harvested_judgements = 3;
  post_dedup_backend_calls = 0;
  cache_hits = 0;
}

-- Two frames; the second asks again what the first has asked.
abbrev pub two_frames : Runtime entries
two_frames = record {
  model_id = "m";
  collected = matching "urgent" ∷ matching "polite" ∷ matching "urgent" ∷ [];
  collected_frames = 0 ∷ 1 ∷ 1 ∷ [];
  current_frame = 1;
  cache = record { results = []; backing = some [] };
  query = "select(sem_match(\"urgent\"))";
  planned = [];
  fired = [];
  stats = some no_calls;
  max_calls = pos 2;
  max_calls_default_paid = false;
  sent = [];
}

pub not_true : false ≢ true
not_true e = cc e
