-- ===== src/Tests/Runs.antt =====
-- A whole run, of a program with a semantic call, over two windows.
use ajq.Prelude.{false, true, List, [], ◌∷◌, Option, none, some, ◌≡◌, refl}
use ajq.Value.{Value, str, bool}
use ajq.Plan.{unknown_source}
use ajq.Input.Window.{Iterator, Event, frame, fault, next, next_frame}
use ajq.Input.Window.Stream.{stream}
use ajq.Engine.{Runtime, EngineError}
use ajq.Engine.Callback.{
  Outcome, yields, fails, harvest_predicate, execute_function, harvest_append, release_collected,
  check_invariant, append_judgement, record_witness,
}
use ajq.Engine.Call.{model_judgement, judgement_from_call, value_and_specs, planned_node}
use ajq.Engine.Resolve.{resolve}
use ajq.Semantics.{lookup}
use ajq.Engine.Windowed.{Ran, Progress, execute, resolve_and_execute_window, record_window_stats}
use ajq.Engine.Windowed.Whole.{finished, windows_from, execute_windows}
use ajq.Engine.Windowed.Whole.Accounted.{IsAccounted, execute_windows-IsAccounted}
use ajq.Tests.Fixtures.{entries, encoder, agreeing, matching, two_frames}
use ajq.Tests.Windows.{frame_at, match_node}

-- `select(sem_match("urgent"))`
abbrev pub select_harvest : Value → Runtime entries → Option EngineError × Runtime entries
select_harvest v rt =
    (none, (harvest_predicate entries rt 0 "sem_match" (unknown_source "") v (str "urgent" ∷ [])).1)

abbrev pub selected : Value → Outcome → Ran
selected v (yields (bool true)) = record { emitted = v ∷ []; failure = none }
selected v (yields _) = record { emitted = []; failure = none }
selected v (fails e) = record { emitted = []; failure = some e }

abbrev pub select_run : Value → Runtime entries → Ran × Runtime entries
select_run v rt =
    let (outcome, rt') =
      execute_function entries encoder rt 0 "sem_match" (unknown_source "") v (str "urgent" ∷ []) in
    (selected v outcome, rt')

abbrev at_start : Progress entries
at_start = record {
  runtime = record two_frames { collected = []; collected_frames = []; planned = match_node ∷ [] };
  polls = [];
  written = [];
}

-- Windows of ten bytes, for frames of six.
abbrev reading : List Event → Iterator
reading es = record {
  framer = es;
  polls = [];
  budget = 10;
  pending = none;
  deferred = none;
  done = false;
}

-- Both frames are selected, each in a window of its own, at the cost of one call.
both_selected :
    ((execute_windows entries select_harvest select_run encoder agreeing
        (reading (frame (frame_at 0) ∷ frame (frame_at 1) ∷ []))
        at_start).0
      ≡ finished)
    × ((execute_windows entries select_harvest select_run encoder agreeing
          (reading (frame (frame_at 0) ∷ frame (frame_at 1) ∷ []))
          at_start).1.written
        ≡ str "text" ∷ str "text" ∷ [])
    × ((execute_windows entries select_harvest select_run encoder agreeing
          (reading (frame (frame_at 0) ∷ frame (frame_at 1) ∷ []))
          at_start).1.runtime.sent
        ≡ (matching "urgent" ∷ []) ∷ [])
unfolding windows_from next next_frame harvest_append check_invariant harvest_predicate
    execute_function model_judgement judgement_from_call lookup value_and_specs append_judgement
    record_witness planned_node release_collected resolve_and_execute_window execute resolve
    ajq.Cache.Key.key_for_judgement ajq.Cache.Canonical.write_canonical ajq.Engine.Resolve.note
    ajq.Cache.get ajq.Cache.find ajq.Engine.Resolve.is_pending ajq.Engine.check_max_calls
    ajq.Engine.Windowed.record_window_stats ajq.Engine.Resolve.batch
    ajq.Engine.Resolve.first_failure ajq.Engine.Resolve.check_result
    ajq.Engine.Resolve.validate_result ajq.Schema.for_judgement ajq.Engine.Call.schema_for
    ajq.Schema.build ajq.Schema.validate ajq.Cache.set ajq.Engine.Callback.answer_from_cache
    ajq.Schema.is_blank ajq.Schema.is_space ajq.Semantics.availability ajq.Semantics.sem_match_spec
both_selected = (refl, refl, refl)

execute_windows-IsAccounted_example :
    IsAccounted
      (stream (reading (frame (frame_at 0) ∷ fault "broken" ∷ [])))
      (execute_windows entries select_harvest select_run encoder agreeing
        (reading (frame (frame_at 0) ∷ fault "broken" ∷ []))
        at_start).0
execute_windows-IsAccounted_example =
    execute_windows-IsAccounted entries select_harvest select_run encoder agreeing
      (reading (frame (frame_at 0) ∷ fault "broken" ∷ [])) at_start (tt, tt)
