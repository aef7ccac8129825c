-- ===== src/Engine/Windowed/Whole.antt =====
-- `executeThreePhase` (internal/engine/engine.go): the loop over the windows of the input. Compiling
-- the program is not modelled: its two runs, harvesting and executing, are parameters.
pub mod Accounted
use ajq.Prelude.{
  ℕ, zero, suc, ◌+◌, String, Bool, true, false, List, [], Option, none, some, ltb, length,
}
use ajq.Result.{Result}
use ajq.Value.{Value}
use ajq.Backend.{Judgement, Answer}
use ajq.Cache.{DiskOps}
use ajq.Cache.Canonical.{Json}
use ajq.Input.{Frame}
use ajq.Input.Window.{
  Window, Iterator, InputError, Next, window, frame_failed, end_of_input, error, stuck, next, poll,
  size,
}
use ajq.Engine.{Runtime, RunStats, EngineError}
use ajq.Engine.Callback.{harvest_append, release_collected}
use ajq.Engine.Windowed.{
  Ran, Progress, WindowError, record_window_stats, resolve_and_execute_window,
}

-- How a run ends. `harvest_failed` is a RuntimeError that names a frame, counted from 1; an error of
-- the input is passed on as it is if the context is cancelled, and wrapped otherwise. `out_of_fuel` is
-- none of the source's.
pub data RunEnd : Type 0 where
  finished : RunEnd
  window_failed : WindowError → RunEnd
  harvest_failed : ℕ → Option EngineError → RunEnd
  interrupted input_failed : InputError → RunEnd
  out_of_fuel : RunEnd

abbrev pub map_stats : (RunStats → RunStats) → Option RunStats → Option RunStats
map_stats f none = none
map_stats f (some st) = some (f st)

module _ (disk : DiskOps) where
  -- The runtime while a window is harvested, with the error of the frame that has failed.
  pub record Harvesting : Type 0 where
    pub runtime : Runtime disk
    pub failure : Option EngineError

  -- The statistics are those that the runtime points to.
  abbrev pub with_window : Window → Bool → Bool → ℕ → Runtime disk → Runtime disk
  with_window w failed oversized frames rt = record rt {
    stats =
        map_stats
          (λ st. record (record_window_stats st w failed oversized) {
            input_frames = (record_window_stats st w failed oversized).input_frames + frames;
          })
          rt.stats;
  }

  abbrev pub released : Progress disk → Progress disk
  released p = record p { runtime = release_collected disk p.runtime }

  module _ (harvest : Value → Runtime disk → Option EngineError × Runtime disk)
      (run : Value → Runtime disk → Ran × Runtime disk) (json : Json)
      (judge : List (List Judgement) → List Judgement → Result String (List Answer)) where
    abbrev pub kept_failure : Option EngineError × Runtime disk → Option String × Harvesting
    kept_failure (none, rt) = (none, record { runtime = rt; failure = none })
    kept_failure (some e, rt) = (some "", record { runtime = rt; failure = some e })

    -- The consumer of the frames. The iterator only asks whether it has failed.
    abbrev pub harvest_frame : Frame → Harvesting → Option String × Harvesting
    harvest_frame f h = kept_failure (harvest_append disk harvest h.runtime f.value f.index)

    -- The prefix of a frame that has failed has been executed.
    abbrev pub after_prefix :
        Frame → Option EngineError → Option WindowError × Progress disk → RunEnd × Progress disk
    after_prefix f e (some x, p) = (window_failed x, released p)
    after_prefix f e (none, p) = (harvest_failed (f.index + 1) e, released p)

    abbrev pub after_window :
        (Progress disk → RunEnd × Progress disk)
        → Option WindowError × Progress disk
        → RunEnd × Progress disk
    after_window again (some x, p) = (window_failed x, released p)
    after_window again (none, p) = again (released p)

    abbrev pub after_error :
        InputError → Progress disk → Option String × List (Option String) → RunEnd × Progress disk
    after_error e p (some c, ps) = (interrupted e, record p { polls = ps })
    after_error e p (none, ps) = (input_failed e, record p { polls = ps })

    abbrev pub harvested : List Value → Iterator → Harvesting → Progress disk
    harvested written it h = record { runtime = h.runtime; polls = it.polls; written = written }

    pub after_next :
        (Iterator → Progress disk → RunEnd × Progress disk)
        → List Value
        → Next × Iterator × Harvesting
        → RunEnd × Progress disk
    after_next again written (frame_failed w f e, it, h) = after_prefix f h.failure (
        resolve_and_execute_window disk run json judge w.frames (
          harvested written it (record h {
            runtime = with_window w true (ltb it.budget (size f)) (length w.frames + 1) h.runtime;
          })))
    after_next again written (end_of_input, it, h) = (finished, harvested written it h)
    after_next again written (error e, it, h) =
        after_error e (released (harvested written it h)) (poll it.polls)
    after_next again written (window w, it, h) = after_window (again it) (
        resolve_and_execute_window disk run json judge w.frames (
          harvested written it
            (record h { runtime = with_window w false false (length w.frames) h.runtime })))
    after_next again written (stuck, it, h) = (out_of_fuel, harvested written it h)

    -- The loop; each round begins a window.
    unfoldable pub windows_from : ℕ → Iterator → Progress disk → RunEnd × Progress disk
    unfolding after_next
    windows_from zero it p = (out_of_fuel, p)
    windows_from (suc n) it p = after_next (windows_from n) p.written (
        next harvest_frame (record it { polls = p.polls })
          (record { runtime = release_collected disk p.runtime; failure = none }))

    -- Each window takes a frame at least; one may be pending, and one error deferred.
    abbrev pub execute_windows : Iterator → Progress disk → RunEnd × Progress disk
    execute_windows it p = windows_from (length it.framer + 3) it p
