-- ===== src/Input/Window.antt =====
-- internal/input/window.go: the iterator that groups frames under a byte budget.
pub mod Stream
pub mod Bounds
use ajq.Prelude.{
  ℕ, zero, suc, ◌+◌, ◌-◌, String, Bool, true, false, not, ◌&&◌, List, [], ◌∷◌, ◌++◌, Option, none,
  some, ltb, leb, ◌==◌, if◌then◌else◌, length,
}
use ajq.Result.{Result, ok, err}
use ajq.Value.{ℤ, pos, negsuc}
use ajq.Input.{Frame}

pub record Window : Type 0 where
  pub frames : List Frame
  pub bytes : ℕ
  pub oversized : Bool

abbrev pub empty_window : Window
empty_window = record { frames = []; bytes = 0; oversized = false }

-- `Release` leaves the empty window.
unfoldable pub release : Window → Window
release w = record w { frames = []; bytes = 0; oversized = false }

-- What the framer will give, in turn; io.EOF behind the last event.
pub data Event : Type 0 where
  frame : Frame → Event
  fault : String → Event

pub data InputError : Type 0 where
  cancelled : String → InputError
  source : String → InputError
  negative_byte_count : ℕ → InputError

-- `framer` holds the events to come, and `polls` what the context answers when it is asked: it is
-- not cancelled behind the last of them.
pub record Iterator : Type 0 where
  pub framer : List Event
  pub polls : List (Option String)
  pub budget : ℕ
  pub pending : Option Frame
  pub deferred : Option InputError
  pub done : Bool

-- ErrInvalidWindowBudget, with the budget.
pub data NewError : Type 0 where
  invalid_window_budget : ℤ → NewError

-- `NewWindowIterator`; a nil framer is not modelled.
unfoldable pub new_window_iterator :
    List Event → List (Option String) → ℤ → Result NewError Iterator
new_window_iterator framer polls (negsuc b) = err (invalid_window_budget (negsuc b))
new_window_iterator framer polls (pos b) =
    if b == 0
    then err (invalid_window_budget (pos b))
    else ok (record {
      framer = framer;
      polls = polls;
      budget = b;
      pending = none;
      deferred = none;
      done = false;
    })

-- How one call ends. `frame_failed` is a WindowFrameError with the prefix before it; `stuck` means
-- that the fuel ran out.
pub data Next : Type 0 where
  window : Window → Next
  frame_failed : Window → Frame → String → Next
  end_of_input : Next
  error : InputError → Next
  stuck : Next

abbrev pub poll : List (Option String) → Option String × List (Option String)
poll [] = (none, [])
poll (p ∷ ps) = (p, ps)

pub data Read : Type 0 where
  read : Frame → Read
  nothing : Read
  broken : InputError → Read

-- The size of a frame that has passed the check for a negative count.
abbrev pub size : Frame → ℕ
size f = elim f.bytes [ pos n ↦ n | negsuc n ↦ 0 ]

abbrev pub is_negative : ℤ → Bool
is_negative (pos n) = false
is_negative (negsuc n) = true

-- The framer's part of `nextFrame`.
pub read_framer : Iterator → List Event → Read × Iterator
read_framer it [] = (nothing, record it { done = true })
read_framer it (fault e ∷ es) = (broken (source e), record it { done = true; framer = es })
read_framer it (frame f ∷ es) = (
  if is_negative f.bytes then broken (negative_byte_count (f.index + 1)) else read f,
  record it { framer = es },
)

pub take_pending : Iterator → Option Frame → Read × Iterator
take_pending it (some f) = (read f, record it { pending = none })
take_pending it none = read_framer it it.framer

-- `nextFrame`
unfoldable pub next_frame : Iterator → Read × Iterator
unfolding read_framer take_pending
next_frame it = take_pending it it.pending

abbrev pub add_frame : Iterator → Window → Frame → Window
add_frame it w f = record {
  frames = w.frames ++ f ∷ [];
  bytes = w.bytes + size f;
  oversized = length (w.frames ++ f ∷ []) == 1 && ltb it.budget (size f);
}

-- A frame that no longer fits is kept for the next window. The budget is not used up here, so the
-- difference is the one of the source.
abbrev pub no_longer_fits : Iterator → Window → Frame → Bool
no_longer_fits it w f = not (length w.frames == 0) && ltb (it.budget - w.bytes) (size f)

-- What an error or the end of the input makes of the window so far.
pub stop_broken : Iterator → Window → InputError → Next × Iterator
stop_broken it w e =
    if length w.frames == 0 then (error e, it) else (window w, record it { deferred = some e })

pub stop_end : Iterator → Window → Next × Iterator
stop_end it w = if length w.frames == 0 then (end_of_input, it) else (window w, it)

module _ {S : Type 0} (consume : Frame → S → Option String × S) where
  -- The frame has been read and fits; `again` is the next round.
  pub retain :
      (Iterator → S → Window → Next × Iterator × S)
      → Iterator
      → S
      → Window
      → Frame
      → Next × Iterator × S
  retain again it s w f =
      let (failed, s') = consume f s in
      elim failed [
        | some e ↦ (frame_failed w f e, it, s')
        | none ↦
            let w' = add_frame it w f in
            let rest = again it s' w' in
            if leb it.budget w'.bytes then (window w', it, s') else rest
      ]

  pub with_state : S → Next × Iterator → Next × Iterator × S
  with_state s (r, it) = (r, it, s)

  pub received :
      (Iterator → S → Window → Next × Iterator × S)
      → S
      → Window
      → Read × Iterator
      → Next × Iterator × S
  received again s w (broken e, it) = with_state s (stop_broken it w e)
  received again s w (nothing, it) = with_state s (stop_end it w)
  received again s w (read f, it) =
      if no_longer_fits it w f
      then (window w, record it { pending = some f }, s)
      else retain again it s w f

  pub polled :
      (Iterator → S → Window → Next × Iterator × S)
      → Iterator
      → S
      → Window
      → Option String × List (Option String)
      → Next × Iterator × S
  polled again it s w (some e, ps) = (error (cancelled e), record it { polls = ps }, s)
  polled again it s w (none, ps) = received again s w (next_frame (record it { polls = ps }))

  -- The loop, on fuel.
  pub fill : ℕ → Iterator → S → Window → Next × Iterator × S
  fill zero it s w = (stuck, it, s)
  fill (suc fuel) it s w = polled (fill fuel) it s w (poll it.polls)

  pub start : ℕ → Iterator → S → Option InputError → Next × Iterator × S
  start fuel it s (some e) = (error e, record it { deferred = none }, s)
  start fuel it s none = if it.done then (end_of_input, it, s) else fill fuel it s empty_window

  pub begin : ℕ → Iterator → S → Option String × List (Option String) → Next × Iterator × S
  begin fuel it s (some e, ps) = (error (cancelled e), record it { polls = ps }, s)
  begin fuel it s (none, ps) = let it' = record it { polls = ps } in start fuel it' s it'.deferred

  -- `next`. Each round but the last takes the pending frame or an event, so two more than there are
  -- events are enough.
  unfoldable pub next : Iterator → S → Next × Iterator × S
  unfolding begin start fill polled received retain with_state stop_broken stop_end
  next it s = begin (length it.framer + 2) it s (poll it.polls)
