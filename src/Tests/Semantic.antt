-- ===== src/Tests/Semantic.antt =====
-- The resolver at concrete runs.
use ajq.Prelude.{ℕ, zero, suc, ◌≤◌, String, false, List, [], ◌∷◌, none, some, ◌≡◌, refl, arith, All}
use ajq.Result.{Result, ok}
use ajq.Value.{Value, pos, str}
use ajq.Plan.{SemNode, generator_superset, Source, unknown_source}
use ajq.Semantics
use ajq.Semantics.{lookup, value}
use ajq.Backend.{Judgement, Answer}
use ajq.Schema.{
  want_bool, for_judgement, build, validate, validate_labels, is_blank, is_space, contains_label,
}
use ajq.Cache.{find, get, set}
use ajq.Engine.{Runtime, item_invalid, check_max_calls}
use ajq.Engine.Call.{
  model_judgement, judgement_from_call, value_and_specs, schema_for, node_judgement,
  judgement_from_planned_call, planned_node,
}
use ajq.Engine.Callback.{execute_function, execute_classify, yields}
use ajq.Engine.Execute.{execute_function_answered, execute_classify_answered}
use ajq.Engine.Resolve.Budget.{Accounts, resolve-Accounts}
use ajq.Engine.Resolve.Dedup.{SendsFresh, resolve-SendsFresh}
use ajq.Engine.Resolve.Vetted.{IsVetted, HasOrigin, resolve_stores_valid}
use ajq.Engine.Resolve.Succeeds.{AreValid, IsReady, resolve_succeeds}
use ajq.Engine.Resolve.{
  resolve, note, is_pending, batch, first_failure, check_result, validate_result,
  frame_for_collected,
}
use ajq.Engine.Resolve.Gathered.{IsOrdered}
use ajq.Engine.Resolve.Complete.{MayRun, IsAnswered, resolve_answers}
use ajq.Cache.Key.{key_for_judgement}
use ajq.Cache.Canonical.{write_canonical}
use ajq.Tests.Fixtures.{entries, encoder, matching, agreeing, rambling, two_frames, yes, yeses}

up_to_one : (a : ℕ) → frame_for_collected two_frames.collected_frames (suc a) ≤ 1
up_to_one zero = omega arith
up_to_one (suc zero) = omega arith
up_to_one (suc (suc a)) = omega arith

pub two_frames-IsOrdered : IsOrdered (frame_for_collected two_frames.collected_frames) 3
two_frames-IsOrdered zero b le lt = omega arith
two_frames-IsOrdered (suc a) (suc zero) le lt = up_to_one a
two_frames-IsOrdered (suc a) (suc (suc zero)) le lt = up_to_one a
two_frames-IsOrdered (suc a) zero le lt = absurd (omega arith)
two_frames-IsOrdered (suc a) (suc (suc (suc b))) le lt = absurd (omega arith)

-- The second answer is text, so only the first frame may be executed.
rambling_fails :
    (resolve entries encoder rambling two_frames).1
    ≡ some
        (record { frame = 1; execute_before = pos 1; error = item_invalid 1 "sem_match" want_bool })
unfolding resolve note get find is_pending batch first_failure check_result validate_result
    for_judgement build validate check_max_calls key_for_judgement write_canonical
rambling_fails = refl

urgent_runs : MayRun (resolve entries encoder rambling two_frames).1 0
urgent_runs = rw rambling_fails (omega arith)

resolve_answers_example :
    IsAnswered entries encoder rambling two_frames
      (resolve entries encoder rambling two_frames).0.cache
      (matching "urgent")
resolve_answers_example =
    resolve_answers entries encoder rambling two_frames two_frames-IsOrdered 0 (matching "urgent")
      refl urgent_runs

-- The valid answer before the invalid one is stored.
urgent_stored :
    find "urgent" (resolve entries encoder rambling two_frames).0.cache.results ≡ some yes
unfolding resolve note get set find is_pending batch first_failure check_result validate_result
    for_judgement build validate check_max_calls key_for_judgement write_canonical
urgent_stored = refl

-- The invalid one is not.
polite_not_stored :
    find "polite" (resolve entries encoder rambling two_frames).0.cache.results ≡ none
unfolding resolve note get set find is_pending batch first_failure check_result validate_result
    for_judgement build validate check_max_calls key_for_judgement write_canonical
polite_not_stored = refl

resolve_stores_valid_example :
    HasOrigin entries
      (IsVetted encoder rambling two_frames.sent
        (resolve entries encoder rambling two_frames).0.sent)
      two_frames.cache
      "urgent"
      yes
resolve_stores_valid_example =
    resolve_stores_valid entries encoder rambling two_frames "urgent" yes urgent_stored

resolve-Accounts_example :
    Accounts 2 0 0
      (resolve entries encoder rambling two_frames).0.stats
      (resolve entries encoder rambling two_frames).0.sent
resolve-Accounts_example =
    resolve-Accounts entries encoder rambling 2 (omega arith) two_frames 0 refl refl (omega arith)

resolve-SendsFresh_example :
    SendsFresh entries encoder agreeing two_frames.cache []
      (resolve entries encoder agreeing two_frames).0.sent
resolve-SendsFresh_example = resolve-SendsFresh entries encoder agreeing two_frames

abbrev three_calls : Runtime entries
three_calls = record two_frames { max_calls = pos 3 }

-- The judgements to which yes is a valid answer.
abbrev TakesYes : Judgement → Type 0
TakesYes j = validate_result j yes ≡ none

yes_answers :
    (bs : List (List Judgement)) (b : List Judgement)
    → All TakesYes b
    → (rs : List Answer) × (agreeing bs b ≡ ok rs) × AreValid b rs
yes_answers bs b known = (yeses b, refl, all_valid b known)
  where
    all_valid : (b : List Judgement) → All TakesYes b → AreValid b (yeses b)
    all_valid [] h = tt
    all_valid (j ∷ b) (one, h) = (refl, one, all_valid b h)

ready : (spec : String) → IsReady entries encoder agreeing TakesYes (matching spec)
unfolding validate_result for_judgement build validate key_for_judgement write_canonical
ready spec = (refl, (spec, refl))

resolve_succeeds_example : (resolve entries encoder agreeing three_calls).1 ≡ none
resolve_succeeds_example =
    resolve_succeeds entries encoder agreeing TakesYes yes_answers three_calls
      (ready "urgent", (ready "polite", (ready "urgent", tt))) (omega arith)

abbrev source : Source
source = unknown_source "sem_match(\"urgent\")"

urgent_call :
    model_judgement "m" "sem_match" (str "text") (str "urgent" ∷ []) ≡ ok (matching "urgent")
unfolding model_judgement judgement_from_call lookup value_and_specs schema_for
urgent_call = refl

execute_function_answered_example :
    (v : Value) × ((execute_function entries encoder
        (resolve entries encoder rambling two_frames).0
        7
        "sem_match"
        source
        (str "text")
        (str "urgent" ∷ [])).0
      ≡ yields v)
execute_function_answered_example =
    execute_function_answered entries encoder rambling two_frames two_frames-IsOrdered 0
      (matching "urgent") refl urgent_runs 7 source (str "text") (str "urgent" ∷ []) "sem_match"
      urgent_call

abbrev spam_node : SemNode
spam_node = record {
  id = 4;
  internal_name = "__ajq_classify_4";
  arity = 2;
  op = "sem_classify";
  kind = value;
  return_type = Semantics.string;
  value_expr = ".";
  specs = "spam" ∷ "ham" ∷ [];
  source = source;
  gated = false;
  execution_mode = generator_superset;
}

abbrev labelling : List (List Judgement) → List Judgement → Result String (List Answer)
labelling sent b = ok (record { value = str "ham"; error = "" } ∷ [])

abbrev one_label : Runtime entries
one_label = record two_frames {
  collected = node_judgement "m" spam_node (str "text") ∷ [];
  collected_frames = 5 ∷ [];
  planned = spam_node ∷ [];
}

one_label-IsOrdered : IsOrdered (frame_for_collected one_label.collected_frames) 1
one_label-IsOrdered zero zero le lt = omega arith
one_label-IsOrdered (suc a) zero le lt = absurd (omega arith)
one_label-IsOrdered a (suc b) le lt = absurd (omega arith)

labelling_succeeds : (resolve entries encoder labelling one_label).1 ≡ none
unfolding resolve note get set find is_pending batch first_failure check_result validate_result
    for_judgement build validate check_max_calls key_for_judgement write_canonical validate_labels
    is_blank is_space contains_label
labelling_succeeds = refl

label_call :
    judgement_from_planned_call "m" (spam_node ∷ []) 4 "sem_classify" (str "text") []
    ≡ ok (node_judgement "m" spam_node (str "text"))
unfolding judgement_from_planned_call planned_node
label_call = refl

execute_classify_answered_example :
    (v : Value) × ((execute_classify entries encoder
        (resolve entries encoder labelling one_label).0
        4
        source
        (str "text")
        []).0
      ≡ yields v)
execute_classify_answered_example =
    execute_classify_answered entries encoder labelling one_label one_label-IsOrdered 0
      (node_judgement "m" spam_node (str "text")) refl (rw labelling_succeeds tt) 4 source
      (str "text") [] label_call
