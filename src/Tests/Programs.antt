-- ===== src/Tests/Programs.antt =====
-- A window of a program with a semantic call.
use ajq.Prelude.{String, true, [], ◌∷◌, none, ◌≡◌, refl, All}
use ajq.Result.{ok}
use ajq.Value.{Value, str, bool}
use ajq.Plan.{unknown_source}
use ajq.Semantics.{lookup}
use ajq.Cache.Laws.{IsCached}
use ajq.Engine.{Runtime}
use ajq.Engine.Call.{
  model_judgement, judgement_from_call, value_and_specs, planned_node, schema_for,
}
use ajq.Engine.Callback.{yields, check_invariant, record_witness}
use ajq.Engine.Execute.{function_yields}
use ajq.Engine.Resolve.{resolve}
use ajq.Engine.Resolve.SameRun.{IsSameRun}
use ajq.Engine.Resolve.Complete.{IsAnswered}
use ajq.Engine.Windowed.{execute, resolve_and_execute_window}
use ajq.Engine.Windowed.Outcome.{IsSafe, reported, resolve_and_execute_window_reports}
use ajq.Tests.Fixtures.{entries, encoder, rambling, matching, two_frames}
use ajq.Tests.Semantic.{two_frames-IsOrdered}
use ajq.Tests.Windows.{frame_at, match_node}
use ajq.Tests.Runs.{selected, select_run}

abbrev planned_frames : Runtime entries
planned_frames = record two_frames { planned = match_node ∷ [] }

selected_fine : (v x : Value) → (selected v (yields x)).failure ≡ none
selected_fine v (bool true) = refl
selected_fine v _ = refl

urgent_call :
    (model : String)
    → model ≡ "m"
    → model_judgement model "sem_match" (str "text") (str "urgent" ∷ []) ≡ ok (matching "urgent")
unfolding model_judgement judgement_from_call lookup value_and_specs schema_for
urgent_call model same = rw same refl

-- The call of `select(sem_match("urgent"))` succeeds once it is answered.
select_run_fine :
    (rt : Runtime entries)
    → IsSameRun entries planned_frames rt
    → IsAnswered entries encoder rambling planned_frames rt.cache (matching "urgent")
    → ((execute entries select_run rt (str "text")).0.failure ≡ none)
      × IsSameRun entries planned_frames (execute entries select_run rt (str "text")).1
      × ((k : String)
          → IsCached entries rt.cache k
          → IsCached entries (execute entries select_run rt (str "text")).1.cache k)
unfolding execute check_invariant record_witness planned_node
select_run_fine rt same (k, key, (r, e)) =
    rw
      (
        function_yields entries encoder (record rt { fired = [] }) 0 "sem_match" (unknown_source "")
            (str "text") (str "urgent" ∷ []) (matching "urgent") k r
            (urgent_call rt.model_id same.0) key e,
        same.1,
      )
      (selected_fine (str "text") r.value, (same.0, refl), λ j h. h)

frames-IsSafe :
    All (IsSafe entries encoder rambling select_run planned_frames) (frame_at 0 ∷ frame_at 1 ∷ [])
frames-IsSafe = (
  λ rt same settled. select_run_fine rt same (settled 0 (matching "urgent") refl refl),
  ((λ rt same settled. select_run_fine rt same (settled 2 (matching "urgent") refl refl)), tt),
)

resolve_and_execute_window_reports_example :
    (resolve_and_execute_window entries select_run encoder rambling
      (frame_at 0 ∷ frame_at 1 ∷ [])
      (record { runtime = planned_frames; polls = []; written = [] })).0
    ≡ reported (resolve entries encoder rambling planned_frames).1
resolve_and_execute_window_reports_example =
    resolve_and_execute_window_reports entries encoder rambling select_run planned_frames
      two_frames-IsOrdered (frame_at 0 ∷ frame_at 1 ∷ []) frames-IsSafe []
