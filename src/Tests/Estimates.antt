-- ===== src/Tests/Estimates.antt =====
-- The explain estimate of a program with a semantic call.
use ajq.Prelude.{false, true, List, [], ◌∷◌, some, ◌≡◌, refl}
use ajq.Input.Window.{Event, frame}
use ajq.Engine.{Runtime}
use ajq.Engine.Callback.{
  harvest_predicate, harvest_append, release_collected, check_invariant, append_judgement,
  record_witness,
}
use ajq.Engine.Call.{model_judgement, judgement_from_call, value_and_specs, planned_node}
use ajq.Engine.Resolve.{resolve}
use ajq.Engine.Explain.{Explained, available, estimate_explain}
use ajq.Engine.Explain.Counted.{IsCounted, estimate_explain-IsCounted}
use ajq.Semantics.{lookup}
use ajq.Tests.Fixtures.{entries, encoder, agreeing, two_frames}
use ajq.Tests.Windows.{frame_at, match_node}
use ajq.Tests.Runs.{select_harvest}

abbrev explained : Explained entries
explained = record {
  rewritten = true;
  blocked = false;
  deterministic = false;
  call_sites = 1;
  requires_interleaved = false;
  stream = false;
  compiled =
      some (record two_frames { collected = []; collected_frames = []; planned = match_node ∷ [] });
}

abbrev both : List Event
both = frame (frame_at 0) ∷ frame (frame_at 1) ∷ []

-- Two frames that ask the same are one call.
one_of_two : estimate_explain entries select_harvest encoder agreeing explained both ≡ record {
  static_call_sites = 1;
  status = available;
  input_frames = 2;
  harvested_judgements = 2;
  post_dedup_judgements = 1;
  mock_judge_batches = 1;
}
unfolding harvest_append check_invariant harvest_predicate release_collected model_judgement
    judgement_from_call lookup value_and_specs append_judgement record_witness planned_node resolve
    estimate_explain ajq.Cache.Key.key_for_judgement ajq.Cache.Canonical.write_canonical
    ajq.Engine.Resolve.note ajq.Cache.get ajq.Cache.find ajq.Engine.Resolve.is_pending
    ajq.Engine.check_max_calls ajq.Engine.Resolve.batch ajq.Engine.Resolve.first_failure
    ajq.Engine.Resolve.check_result ajq.Engine.Resolve.validate_result ajq.Schema.for_judgement
    ajq.Engine.Call.schema_for ajq.Schema.build ajq.Schema.validate ajq.Cache.set
one_of_two = refl

estimate_explain-IsCounted_example :
    IsCounted 2 (estimate_explain entries select_harvest encoder agreeing explained both)
unfolding harvest_predicate model_judgement judgement_from_call append_judgement record_witness
    lookup value_and_specs
estimate_explain-IsCounted_example =
    estimate_explain-IsCounted entries select_harvest encoder agreeing (λ v rt. refl) explained both
      refl
