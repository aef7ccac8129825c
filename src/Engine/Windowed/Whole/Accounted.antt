-- ===== src/Engine/Windowed/Whole/Accounted.antt =====
-- How a run over the windows ends, in terms of its input.
use mathlib.Core.List.{map}
use ajq.Prelude.{
  ℕ, zero, suc, ◌+◌, ◌≤◌, ◌<◌, String, Bool, true, false, List, [], ◌∷◌, ◌++◌, Option, none, some,
  ◌≡◌, refl, arith, length, All, Any, here, there, if◌then◌else◌,
}
use ajq.Result.{Result}
use ajq.Value.{Value}
use ajq.Backend.{Judgement, Answer}
use ajq.Cache.{DiskOps}
use ajq.Cache.Canonical.{Json}
use ajq.Input.{Frame}
use ajq.Input.Window.{
  Event, frame, fault, Iterator, InputError, cancelled, source, negative_byte_count, Next, window,
  frame_failed, end_of_input, error, stuck, next, poll,
}
use ajq.Input.Window.Stream.{
  Item, frames_of, errors_of, a_frame, an_error, items, stream, IsTidy, Accounts, Good,
  next_accounts,
}
use ajq.Input.Window.Bounds.{Kept, next_bounded}
use ajq.Engine.{Runtime, EngineError}
use ajq.Engine.Callback.{release_collected}
use ajq.Engine.Windowed.{Ran, Progress, WindowError}
use ajq.Engine.Windowed.Whole.{
  RunEnd, finished, window_failed, harvest_failed, interrupted, input_failed, out_of_fuel,
  Harvesting, harvested, harvest_frame, after_prefix, after_window, after_error, after_next,
  windows_from, execute_windows, released,
}

abbrev pub IsAFrame : Item → Type 0
IsAFrame (a_frame f) = Unit
IsAFrame (an_error e) = ⊥

-- The context's own errors are no part of the input.
abbrev pub IsMet : InputError → List Item → Type 0
IsMet (cancelled c) xs = Unit
IsMet e xs = Any (λ x. x ≡ an_error e) xs

abbrev pub IsAccounted : List Item → RunEnd → Type 0
IsAccounted xs finished = All IsAFrame xs
IsAccounted xs (window_failed e) = Unit
IsAccounted xs (harvest_failed k e) =
    Any (λ x. (f : Frame) × (x ≡ a_frame f) × (k ≡ f.index + 1)) xs
IsAccounted xs (interrupted e) = IsMet e xs
IsAccounted xs (input_failed e) = IsMet e xs
IsAccounted xs out_of_fuel = ⊥

Any-behind :
    (P : Item → Type 0) (fs : List Frame) (xs : List Item) → Any P xs → Any P (map a_frame fs ++ xs)
Any-behind P [] xs h = h
Any-behind P (f ∷ fs) xs h = there (Any-behind P fs xs h)

All-behind :
    (fs : List Frame) (xs : List Item) → All IsAFrame xs → All IsAFrame (map a_frame fs ++ xs)
All-behind [] xs h = h
All-behind (f ∷ fs) xs h = (tt, All-behind fs xs h)

IsMet-behind :
    (e : InputError) (fs : List Frame) (xs : List Item)
    → IsMet e xs
    → IsMet e (map a_frame fs ++ xs)
IsMet-behind (cancelled c) fs xs h = tt
IsMet-behind (source e) fs xs h = Any-behind _ fs xs h
IsMet-behind (negative_byte_count i) fs xs h = Any-behind _ fs xs h

-- What accounts for the rest of the input accounts for the whole.
IsAccounted-behind :
    (r : RunEnd) (fs : List Frame) (xs : List Item)
    → IsAccounted xs r
    → IsAccounted (map a_frame fs ++ xs) r
IsAccounted-behind finished fs xs h = All-behind fs xs h
IsAccounted-behind (window_failed e) fs xs h = tt
IsAccounted-behind (harvest_failed k e) fs xs h = Any-behind _ fs xs h
IsAccounted-behind (interrupted e) fs xs h = IsMet-behind e fs xs h
IsAccounted-behind (input_failed e) fs xs h = IsMet-behind e fs xs h
IsAccounted-behind out_of_fuel fs xs h = h

-- A window that is not empty leaves less.
less_left :
    (fs : List Frame) (xs : List Item) → 0 < length fs → length xs < length (map a_frame fs ++ xs)
less_left [] xs lt = absurd (omega arith)
less_left (f ∷ fs) xs lt = at_most fs xs
  where
    at_most : (fs : List Frame) (xs : List Item) → length xs < suc (length (map a_frame fs ++ xs))
    at_most [] xs = omega arith
    at_most (f ∷ fs) xs = omega (arith, at_most fs xs)

length-items : (es : List Event) → length (items es) ≤ length es
length-items [] = omega arith
length-items (fault e ∷ es) = omega arith
length-items (frame f ∷ es) = omega (arith, length-items es)

length-stream : (it : Iterator) → length (stream it) ≤ length it.framer + 2
length-stream it = parts it.pending it.deferred it.done
  where
    rest : (d : Bool) → length (if d then [] else items it.framer) ≤ length it.framer
    rest true = omega arith
    rest false = length-items it.framer

    deferred_rest :
        (e : Option InputError) (d : Bool)
        → length (errors_of e ++ (if d then [] else items it.framer)) ≤ length it.framer + 1
    deferred_rest none d = omega (arith, rest d)
    deferred_rest (some e) d = omega (arith, rest d)

    parts :
        (f : Option Frame) (e : Option InputError) (d : Bool)
        → length (frames_of f ++ (errors_of e ++ (if d then [] else items it.framer)))
          ≤ length it.framer + 2
    parts none e d = omega (arith, deferred_rest e d)
    parts (some f) e d = omega (arith, deferred_rest e d)

module _ (disk : DiskOps) (harvest : Value → Runtime disk → Option EngineError × Runtime disk)
    (run : Value → Runtime disk → Ran × Runtime disk) (json : Json)
    (judge : List (List Judgement) → List Judgement → Result String (List Answer)) where
  after_error-IsAccounted :
      (xs : List Item) (e : InputError) (p : Progress disk)
      (x : Option String × List (Option String))
      → IsMet e xs
      → IsAccounted xs (after_error disk harvest run json judge e p x).0
  after_error-IsAccounted xs e p (some c, ps) h = h
  after_error-IsAccounted xs e p (none, ps) h = h

  IsMet-error :
      (xs : List Item) (e : InputError) (it : Iterator) → Accounts xs (error e) it → IsMet e xs
  IsMet-error xs (cancelled c) it h = tt
  IsMet-error xs (source e) it h = rw h (here refl)
  IsMet-error xs (negative_byte_count i) it h = rw h (here refl)

  after_prefix-IsAccounted :
      (xs : List Item) (f : Frame) (e : Option EngineError) (x : Option WindowError × Progress disk)
      → Any (λ y. (g : Frame) × (y ≡ a_frame g) × (f.index + 1 ≡ g.index + 1)) xs
      → IsAccounted xs (after_prefix disk harvest run json judge f e x).0
  after_prefix-IsAccounted xs f e (some x, p) h = tt
  after_prefix-IsAccounted xs f e (none, p) h = h

  after_window-IsAccounted :
      (xs : List Item) (again : Progress disk → RunEnd × Progress disk)
      (x : Option WindowError × Progress disk)
      → ((p : Progress disk) → IsAccounted xs (again p).0)
      → IsAccounted xs (after_window disk harvest run json judge again x).0
  after_window-IsAccounted xs again (some x, p) h = tt
  after_window-IsAccounted xs again (none, p) h = h (released disk p)

  after_next-IsAccounted :
      (xs : List Item) (b : ℕ) (again : Iterator → Progress disk → RunEnd × Progress disk)
      (written : List Value) (x : Next × Iterator × Harvesting disk)
      → Good xs x
      → Kept b x
      → ((it : Iterator) (p : Progress disk)
          → IsTidy it
          → length (stream it) < length xs
          → IsAccounted (stream it) (again it p).0)
      → IsAccounted xs (after_next disk harvest run json judge again written x).0
  unfolding after_next
  after_next-IsAccounted xs b again written (frame_failed w f e, it, h) (same, tidy) kept rest =
      after_prefix-IsAccounted xs f _ _ (rw same (Any-behind _ w.frames _ (here (f, refl, refl))))
  after_next-IsAccounted xs b again written (end_of_input, it, h) (same, tidy) kept rest =
      rw (same.0) tt
  after_next-IsAccounted xs b again written (error e, it, h) (same, tidy) kept rest =
      after_error-IsAccounted xs e
        (released disk (harvested disk harvest run json judge written it h)) (poll it.polls)
        (IsMet-error xs e it same)
  after_next-IsAccounted xs b again written (stuck, it, h) (same, tidy) kept rest = absurd same
  after_next-IsAccounted xs b again written (window w, it, h) (same, tidy) kept rest =
      after_window-IsAccounted xs (again it) _ (λ p. rw same (
        IsAccounted-behind (again it p).0 w.frames (stream it)
          (rest it p tidy (rw same (less_left w.frames (stream it) kept.0.0)))))

  windows_from-IsAccounted :
      (n : ℕ) (it : Iterator) (p : Progress disk)
      → IsTidy it
      → length (stream it) < n
      → IsAccounted (stream it) (windows_from disk harvest run json judge n it p).0
  unfolding windows_from
  windows_from-IsAccounted zero it p tidy lt = absurd (omega arith)
  windows_from-IsAccounted (suc n) it p tidy lt =
      after_next-IsAccounted (stream it) it.budget (windows_from disk harvest run json judge n)
        p.written
        (next (harvest_frame disk harvest run json judge) (record it { polls = p.polls })
          (record { runtime = release_collected disk p.runtime; failure = none }))
        (next_accounts (harvest_frame disk harvest run json judge) (record it { polls = p.polls })
          (record { runtime = release_collected disk p.runtime; failure = none }) tidy)
        (next_bounded (harvest_frame disk harvest run json judge) (record it { polls = p.polls })
          (record { runtime = release_collected disk p.runtime; failure = none }))
        (λ it' p' tidy' less. windows_from-IsAccounted n it' p' tidy' (omega arith))

  -- A run over the windows of an input ends, whatever the program, the backend, the cache and the
  -- context do. It ends without an error only if the input holds nothing but frames, so that none of
  -- its errors is passed over; with an error of the input only if the input holds that error, and
  -- with the failure to harvest a frame only if that frame is in the input.
  pub execute_windows-IsAccounted :
      (it : Iterator) (p : Progress disk)
      → IsTidy it
      → IsAccounted (stream it) (execute_windows disk harvest run json judge it p).0
  execute_windows-IsAccounted it p tidy =
      windows_from-IsAccounted (length it.framer + 3) it p tidy (omega (arith, length-stream it))
