-- ===== src/Tests/Windows.antt =====
-- One window of a run, and ranges of planned calls.
use ajq.Prelude.{ℕ, false, [], ◌∷◌, ◌≡◌, refl, All}
use ajq.Value.{str, pos}
use ajq.Semantics
use ajq.Semantics.{predicate}
use ajq.Plan.{SemNode, unknown_source, three_phase}
use ajq.Plan.Attach.{Occurrence, attach_source_ranges}
use ajq.Plan.Attach.Sound.{IsPlaced, attach_source_ranges-IsPlaced}
use ajq.Input.{Frame}

abbrev pub frame_at : ℕ → Frame
frame_at i = record { index = i; value = str "text"; offset = 0; bytes = pos 6 }

abbrev site : Occurrence
site = record { op = "sem_match"; start = 7; end_at = 25; text = "sem_match( \"urgent\")" }

abbrev pub match_node : SemNode
match_node = record {
  id = 0;
  internal_name = "__ajq_sem_match_0";
  arity = 1;
  op = "sem_match";
  kind = predicate;
  return_type = Semantics.bool;
  value_expr = ".";
  specs = "urgent" ∷ [];
  source = unknown_source "sem_match(\"urgent\")";
  gated = false;
  execution_mode = three_phase;
}

match_node_is_bare : match_node.source.has_range ≡ false
unfolding unknown_source
match_node_is_bare = refl

attach_source_ranges-IsPlaced_example :
    All (IsPlaced (site ∷ [])) (attach_source_ranges (site ∷ []) (match_node ∷ []) []).0
attach_source_ranges-IsPlaced_example =
    attach_source_ranges-IsPlaced (site ∷ []) (match_node ∷ []) [] (match_node_is_bare, tt)
