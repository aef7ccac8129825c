-- ===== src/Engine/Windowed/Outcome.antt =====
-- How a window ends.
use ajq.Prelude.{
  ltb_less, ℕ, ◌+◌, ◌<◌, String, List, [], ◌∷◌, Option, none, some, ◌≡◌, refl, inl, inr, ltb,
  length, get_elem?, All, All-imp, Bool-cases,
}
use ajq.Result.{Result}
use ajq.Value.{Value, ℤ, pos, negsuc}
use ajq.Backend.{Judgement, Answer}
use ajq.Cache.{DiskOps}
use ajq.Cache.Laws.{IsCached}
use ajq.Cache.Canonical.{Json}
use ajq.Input.{Frame}
use ajq.Engine.{Runtime}
use ajq.Engine.Resolve.{ResolveError, resolve, frame_for_collected}
use ajq.Engine.Resolve.SameRun.{IsSameRun, resolve-IsSameRun}
use ajq.Engine.Resolve.Gathered.{IsOrdered}
use ajq.Engine.Resolve.Complete.{IsBelow, MayRun, IsAnswered, resolve_answers}
use ajq.Engine.Windowed.{
  WindowError, runtime_error, Ran, frames_before, below, executable, Progress, execute, after_run,
  polled_frame, execute_frames, finish_window, resolved_window, polled_window,
  resolve_and_execute_window,
}

-- The frames that are executed are frames that may be.
frames_before-All : (b : ℕ) (fs : List Frame) → All (λ f. f.index < b) (frames_before b fs)
unfolding frames_before
frames_before-All b [] = tt
frames_before-All b (f ∷ fs) = elim (Bool-cases (ltb f.index b)) [
  | inl early ↦ rw (early, frames_before) (ltb_less early, frames_before-All b fs)
  | inr late ↦ rw (late, frames_before) tt
]

every : (P : Frame → Type 0) → ((f : Frame) → P f) → (fs : List Frame) → All P fs
every P h [] = tt
every P h (f ∷ fs) = (h f, every P h fs)

below-All : (b : ℤ) (fs : List Frame) → All (λ f. IsBelow f.index b) (below b fs)
unfolding below
below-All (pos b) fs = frames_before-All b fs
below-All (negsuc b) fs = tt

executable-All :
    (o : Option ResolveError) (fs : List Frame) → All (λ f. MayRun o f.index) (executable o fs)
unfolding executable
executable-All none fs = every (λ f. MayRun none f.index) (λ f. tt) fs
executable-All (some e) fs = below-All e.execute_before fs

frames_before-kept :
    (P : Frame → Type 0) (b : ℕ) (fs : List Frame) → All P fs → All P (frames_before b fs)
unfolding frames_before
frames_before-kept P b [] h = tt
frames_before-kept P b (f ∷ fs) (one, more) = elim (Bool-cases (ltb f.index b)) [
  | inl early ↦ rw (early, frames_before) (one, frames_before-kept P b fs more)
  | inr late ↦ rw (late, frames_before) tt
]

below-kept : (P : Frame → Type 0) (b : ℤ) (fs : List Frame) → All P fs → All P (below b fs)
unfolding below
below-kept P (pos b) fs h = frames_before-kept P b fs h
below-kept P (negsuc b) fs h = tt

executable-kept :
    (P : Frame → Type 0) (o : Option ResolveError) (fs : List Frame)
    → All P fs
    → All P (executable o fs)
unfolding executable
executable-kept P none fs h = h
executable-kept P (some e) fs h = below-kept P e.execute_before fs h

-- The error of a window is that of the resolver, at the frame that it names, counted from 1.
abbrev pub reported : Option ResolveError → Option WindowError
reported none = none
reported (some e) = some (runtime_error (e.frame + 1) e.error)

finish_window_reports :
    (disk : DiskOps) (run : Value → Runtime disk → Ran × Runtime disk) (e : Option ResolveError)
    (x : Option WindowError × Progress disk)
    → x.0 ≡ none
    → (finish_window disk run e x).0 ≡ reported e
unfolding finish_window
finish_window_reports disk run e (some x, p) h = cc h
finish_window_reports disk run none (none, p) h = refl
finish_window_reports disk run (some e) (none, p) h = refl

module _ (disk : DiskOps) (json : Json)
    (judge : List (List Judgement) → List Judgement → Result String (List Answer))
    (run : Value → Runtime disk → Ran × Runtime disk) (rt : Runtime disk) where
  -- Each judgement that the frame has collected is answered in memory.
  abbrev pub IsSettled : ℕ → Runtime disk → Type 0
  IsSettled n rt' =
      (m : ℕ) (j : Judgement)
      → get_elem? rt.collected m ≡ some j
      → frame_for_collected rt.collected_frames m ≡ n
      → IsAnswered disk json judge rt rt'.cache j

  -- In a run of the same model and plan, the program executes the frame without failing if all that
  -- the frame has collected is answered; it keeps the model, the plan and every answer.
  abbrev pub IsSafe : Frame → Type 0
  IsSafe f =
      (rt' : Runtime disk)
      → IsSameRun disk rt rt'
      → IsSettled f.index rt'
      → ((execute disk run rt' f.value).0.failure ≡ none)
        × IsSameRun disk rt (execute disk run rt' f.value).1
        × ((k : String)
            → IsCached disk rt'.cache k
            → IsCached disk (execute disk run rt' f.value).1.cache k)

  execute_frames_succeeds :
      (fs : List Frame) (rt' : Runtime disk) (w : List Value)
      → IsSameRun disk rt rt'
      → All IsSafe fs
      → All (λ f. IsSettled f.index rt') fs
      → (execute_frames disk run fs (record { runtime = rt'; polls = []; written = w })).0 ≡ none
  unfolding execute_frames polled_frame after_run
  execute_frames_succeeds [] rt' w same safe h = refl
  execute_frames_succeeds (f ∷ fs) rt' w same (safe, safer) (here_settled, more) =
      let (fine, same', keeps) = safe rt' same here_settled in
      rw fine (
        execute_frames_succeeds fs (execute disk run rt' f.value).1 _ same' safer (
          All-imp (λ g. IsSettled g.index rt')
            (λ g. IsSettled g.index (execute disk run rt' f.value).1)
            (λ g settled m j at in_frame.
              let (k, key, cached) = settled m j at in_frame in (k, key, keeps k cached))
            fs more))

  resolved_window_reports :
      (fs : List Frame) (w : List Value) (x : Runtime disk × Option ResolveError)
      → IsSameRun disk rt x.0
      → All IsSafe (executable x.1 fs)
      → All (λ f. IsSettled f.index x.0) (executable x.1 fs)
      → (resolved_window disk run json judge fs
          (record { runtime = rt; polls = []; written = w })
          x).0
        ≡ reported x.1
  unfolding resolved_window
  resolved_window_reports fs w (rt', e) same safe settled =
      finish_window_reports disk run e _
        (execute_frames_succeeds (executable e fs) rt' w same safe settled)

  -- A window whose run is not cancelled ends with no error if the resolver has none, and with the
  -- resolver's error, at the frame it names, if it has one. The condition on the program is that in a
  -- run of the same model and plan it executes each frame of the window without failing if each
  -- judgement that the frame has collected is answered, and keeps the model, the plan and every
  -- answer; the frames of the collected judgements must not fall. So no frame is executed before all
  -- its judgements are answered.
  pub resolve_and_execute_window_reports :
      (ordered : IsOrdered (frame_for_collected rt.collected_frames) (length rt.collected))
      (fs : List Frame) (safe : All IsSafe fs) (w : List Value)
      → (resolve_and_execute_window disk run json judge fs
          (record { runtime = rt; polls = []; written = w })).0
        ≡ reported (resolve disk json judge rt).1
  unfolding resolve_and_execute_window polled_window resolved_window
  resolve_and_execute_window_reports ordered fs safe w =
      resolved_window_reports fs w (resolve disk json judge rt)
        (resolve-IsSameRun disk json judge rt)
        (executable-kept IsSafe (resolve disk json judge rt).1 fs safe)
        (All-imp (λ f. MayRun (resolve disk json judge rt).1 f.index)
          (λ f. IsSettled f.index (resolve disk json judge rt).0)
          (λ f may m j at same.
            resolve_answers disk json judge rt ordered m j at (rw (← same) at may))
          (executable (resolve disk json judge rt).1 fs)
          (executable-All (resolve disk json judge rt).1 fs))
