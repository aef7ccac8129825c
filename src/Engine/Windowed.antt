-- ===== src/Engine/Windowed.antt =====
-- internal/engine/engine.go: what happens to one window of frames, and the window budget.
-- Windowed/Whole is the loop over the windows.
pub mod Outcome
pub mod Whole
use ajq.Prelude.{
  ℕ, ◌+◌, ◌*◌, String, Bool, true, false, not, ◌||◌, ◌&&◌, List, [], ◌∷◌, ◌++◌, Option, none, some,
  ltb, ◌==◌, if◌then◌else◌, length,
}
use ajq.Result.{Result, ok, err}
use ajq.Value.{Value, null, bool, ℤ, pos, negsuc}
use ajq.Backend.{Judgement, Answer}
use ajq.Cache.{DiskOps}
use ajq.Cache.Canonical.{Json}
use ajq.Input.{Frame}
use ajq.Input.Window.{Window, poll}
use ajq.Engine.{Runtime, RunStats, EngineError, execute_phase}
use ajq.Engine.Callback.{check_invariant, either_error}
use ajq.Engine.Resolve.{ResolveError, resolve}

abbrev pub default_window_bytes : ℕ
default_window_bytes = 256 * 1024

-- ErrInvalidWindowBytes, with the budget.
pub data BudgetError : Type 0 where
  invalid_window_bytes : ℤ → BudgetError

unfoldable pub normalized_window_bytes : ℤ → Result BudgetError ℤ
normalized_window_bytes (negsuc b) = err (invalid_window_bytes (negsuc b))
normalized_window_bytes (pos b) = ok (pos (if b == 0 then default_window_bytes else b))

-- `recordWindowStats`, for statistics that are kept.
unfoldable pub record_window_stats : RunStats → Window → Bool → Bool → RunStats
record_window_stats st w harvest_failed failed_oversized =
    if length w.frames == 0 && not harvest_failed then st else record st {
      window_count = st.window_count + 1;
      oversized_window_count =
          st.oversized_window_count + (if w.oversized || failed_oversized then 1 else 0);
    }

-- A window ends with the context's error, or with a RuntimeError that names a frame, counted from 1.
pub data WindowError : Type 0 where
  cancelled : String → WindowError
  runtime_error : ℕ → EngineError → WindowError

-- What a run of the program on a frame emits, in order, and how it ends. Writing a value is part of
-- the run.
pub record Ran : Type 0 where
  pub emitted : List Value
  pub failure : Option EngineError

-- The frames that may be executed after `resolve`.
pub frames_before : ℕ → List Frame → List Frame
frames_before b [] = []
frames_before b (f ∷ fs) = if ltb f.index b then f ∷ frames_before b fs else []

pub below : ℤ → List Frame → List Frame
below (negsuc b) fs = []
below (pos b) fs = frames_before b fs

pub executable : Option ResolveError → List Frame → List Frame
executable none fs = fs
executable (some e) fs = below e.execute_before fs

module _ (disk : DiskOps) where
  -- The runtime, what the context will answer when it is asked, and what has been written.
  pub record Progress : Type 0 where
    pub runtime : Runtime disk
    pub polls : List (Option String)
    pub written : List Value

  module _ (run : Value → Runtime disk → Ran × Runtime disk) where
    abbrev with_invariant : Ran × Runtime disk → Ran × Runtime disk
    with_invariant (ran, rt) = (
      record ran {
        failure = either_error disk (check_invariant disk execute_phase rt) ran.failure;
      },
      rt,
    )

    -- `execute`
    unfoldable pub execute : Runtime disk → Value → Ran × Runtime disk
    execute rt v = with_invariant (run v (record rt { fired = [] }))

    pub after_run :
        (Progress → Option WindowError × Progress)
        → Frame
        → Progress
        → Ran × Runtime disk
        → Option WindowError × Progress
    after_run rest f p (ran, rt') =
        let p' = record p { runtime = rt'; written = p.written ++ ran.emitted } in
        after_failure ran.failure p'
      where
        after_failure : Option EngineError → Progress → Option WindowError × Progress
        after_failure (some e) p' = (some (runtime_error (f.index + 1) e), p')
        after_failure none p' = rest p'

    pub polled_frame :
        (Progress → Option WindowError × Progress)
        → Frame
        → Progress
        → Option String × List (Option String)
        → Option WindowError × Progress
    polled_frame rest f p (some e, ps) = (some (cancelled e), record p { polls = ps })
    polled_frame rest f p (none, ps) =
        after_run rest f (record p { polls = ps }) (execute p.runtime f.value)

    -- The loop over the frames.
    pub execute_frames : List Frame → Progress → Option WindowError × Progress
    execute_frames [] p = (none, p)
    execute_frames (f ∷ fs) p = polled_frame (execute_frames fs) f p (poll p.polls)

    -- The resolver's error comes behind the output of the frames before its bound.
    pub finish_window :
        Option ResolveError → Option WindowError × Progress → Option WindowError × Progress
    finish_window e (some x, p) = (some x, p)
    finish_window none (none, p) = (none, p)
    finish_window (some e) (none, p) = (some (runtime_error (e.frame + 1) e.error), p)

    module _ (json : Json)
        (judge : List (List Judgement) → List Judgement → Result String (List Answer)) where
      pub resolved_window :
          List Frame → Progress → Runtime disk × Option ResolveError → Option WindowError × Progress
      resolved_window fs p (rt', e) =
          finish_window e (execute_frames (executable e fs) (record p { runtime = rt' }))

      pub polled_window :
          List Frame
          → Progress
          → Option String × List (Option String)
          → Option WindowError × Progress
      polled_window fs p (some e, ps) = (some (cancelled e), record p { polls = ps })
      polled_window fs p (none, ps) =
          resolved_window fs (record p { polls = ps }) (resolve disk json judge p.runtime)

      -- `resolveAndExecuteWindow`
      unfoldable pub resolve_and_execute_window :
          List Frame → Progress → Option WindowError × Progress
      unfolding polled_window resolved_window finish_window execute_frames polled_frame after_run
          executable below frames_before
      resolve_and_execute_window fs p = polled_window fs p (poll p.polls)

-- `ExitStatusCode`, of the values written.
unfoldable pub exit_status_code : List Value → ℕ
exit_status_code [] = 4
exit_status_code (null ∷ []) = 1
exit_status_code (bool false ∷ []) = 1
exit_status_code (v ∷ []) = 0
exit_status_code (v ∷ w ∷ vs) = exit_status_code (w ∷ vs)
