-- ===== src/Engine/Explain.antt =====
-- `EstimateExplainWithOptions` (internal/engine/explain_estimate.go). What rewriting, planning and
-- compiling the query give are fields of `Explained`; the texts of the reasons are left out.
pub mod Counted
use ajq.Prelude.{
  ℕ, ◌+◌, String, Bool, true, false, ◌||◌, List, [], ◌∷◌, Option, none, some, ◌==◌, if◌then◌else◌,
  length,
}
use ajq.Result.{Result}
use ajq.Value.{Value}
use ajq.Backend.{Judgement, Answer}
use ajq.Cache.{DiskOps}
use ajq.Cache.Canonical.{Json}
use ajq.Input.{Frame}
use ajq.Input.Window.{Event, frame, fault}
use ajq.Engine.{Runtime, EngineError}
use ajq.Engine.Callback.{harvest_append, release_collected}
use ajq.Engine.Resolve.{ResolveError, resolve}
use ajq.Engine.Resolve.Budget.{total_sent}

pub data Status : Type 0 where
  available pure_jq no_input invalid_input unsupported_harvest interleaved_fallback user_stream :
      Status

-- `ExplainEstimate`, without the plan and the query.
pub record Estimate : Type 0 where
  pub static_call_sites : ℕ
  pub status : Status
  pub input_frames : ℕ
  pub harvested_judgements : ℕ
  pub post_dedup_judgements : ℕ
  pub mock_judge_batches : ℕ

abbrev pub estimate_of : ℕ → Status → Estimate
estimate_of sites status = record {
  static_call_sites = sites;
  status = status;
  input_frames = 0;
  harvested_judgements = 0;
  post_dedup_judgements = 0;
  mock_judge_batches = 0;
}

module _ (disk : DiskOps) where
  pub record Explained : Type 0 where
    pub rewritten : Bool
    pub blocked : Bool
    pub deterministic : Bool
    pub call_sites : ℕ
    pub requires_interleaved : Bool
    pub stream : Bool
    pub compiled : Option (Runtime disk)

  module _ (harvest : Value → Runtime disk → Option EngineError × Runtime disk) (json : Json)
      (judge : List (List Judgement) → List Judgement → Result String (List Answer)) where
    -- Behind the loop: `be.Inputs()` are those of all batches, `be.CallCount()` is their number.
    abbrev pub estimated : Runtime disk → Estimate → Estimate
    estimated rt e = if e.input_frames == 0 then record e { status = no_input } else record e {
      status = available;
      post_dedup_judgements = total_sent rt.sent;
      mock_judge_batches = length rt.sent;
    }

    pub after_resolve :
        (Runtime disk → Estimate → Estimate)
        → Estimate
        → Runtime disk × Option ResolveError
        → Estimate
    after_resolve rest e (rt, some x) = record e { status = unsupported_harvest }
    after_resolve rest e (rt, none) = rest rt e

    pub after_harvest :
        (Runtime disk → Estimate → Estimate)
        → Estimate
        → Option EngineError × Runtime disk
        → Estimate
    after_harvest rest e (some x, rt) = record e { status = unsupported_harvest }
    after_harvest rest e (none, rt) =
        after_resolve rest
          (record e { harvested_judgements = e.harvested_judgements + length rt.collected })
          (resolve disk json judge rt)

    -- The loop over the frames; `harvest` begins a window of its own for each.
    pub estimate_frames : List Event → Runtime disk → Estimate → Estimate
    estimate_frames [] rt e = estimated rt e
    estimate_frames (fault x ∷ es) rt e = record e { status = invalid_input }
    estimate_frames (frame f ∷ es) rt e =
        after_harvest (estimate_frames es) (record e { input_frames = e.input_frames + 1 })
          (harvest_append disk harvest (release_collected disk rt) f.value 0)

    pub with_program : List Event → Estimate → Option (Runtime disk) → Estimate
    with_program es e none = record e { status = unsupported_harvest }
    with_program es e (some rt) = estimate_frames es rt e

    unfoldable pub estimate_explain : Explained → List Event → Estimate
    unfolding with_program estimate_frames after_harvest after_resolve
    estimate_explain x es =
        let compiled = with_program es (estimate_of x.call_sites pure_jq) x.compiled in
        if x.rewritten
        then (if x.blocked
            then estimate_of x.call_sites unsupported_harvest
            else if x.deterministic || x.call_sites == 0
            then estimate_of x.call_sites pure_jq
            else if x.requires_interleaved
            then estimate_of x.call_sites interleaved_fallback
            else if x.stream
            then estimate_of x.call_sites user_stream
            else compiled)
        else estimate_of 0 unsupported_harvest
