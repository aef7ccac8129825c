-- ===== src/Input/Window/Stream.antt =====
-- No frame is lost, repeated or moved.
use mathlib.Core.List.{map, map-append}
use ajq.Prelude.{
  ℕ, zero, suc, ◌+◌, ◌<◌, String, Bool, true, false, List, [], ◌∷◌, ◌++◌, Option, none, some, ◌≡◌,
  refl, sym, ap, inl, inr, arith, length, if◌then◌else◌, Bool-cases, Option-cases, append_assoc,
  leb, ◌==◌,
}
use ajq.Input.{Frame}
use ajq.Input.Window.{
  Window, empty_window, Event, frame, fault, InputError, cancelled, source, negative_byte_count,
  Iterator, Next, window, frame_failed, end_of_input, error, stuck, read, is_negative, next_frame,
  add_frame, no_longer_fits, stop_broken, stop_end, retain, with_state, received, polled, fill,
  start, begin, next, poll,
}

-- What is still to come, in order.
pub data Item : Type 0 where
  a_frame : Frame → Item
  an_error : InputError → Item

abbrev pub item : Event → Item
item (fault e) = an_error (source e)
item (frame f) =
    if is_negative f.bytes then an_error (negative_byte_count (f.index + 1)) else a_frame f

-- The framer is not read again after an error of its own.
abbrev pub items : List Event → List Item
items [] = []
items (fault e ∷ es) = an_error (source e) ∷ []
items (frame f ∷ es) = item (frame f) ∷ items es

abbrev pub frames_of : Option Frame → List Item
frames_of none = []
frames_of (some f) = a_frame f ∷ []

abbrev pub errors_of : Option InputError → List Item
errors_of none = []
errors_of (some e) = an_error e ∷ []

abbrev pub stream : Iterator → List Item
stream it =
    frames_of it.pending ++ (errors_of it.deferred ++ (if it.done then [] else items it.framer))

-- A frame is kept for later only while the framer may still be read.
abbrev Tidy : Option Frame → Option InputError → Bool → Type 0
Tidy none e d = Unit
Tidy (some f) e d = (e ≡ none) × (d ≡ false)

-- An error of the input, not of the context.
abbrev IsInput : Option InputError → Type 0
IsInput (some (cancelled e)) = ⊥
IsInput _ = Unit

-- The iterator between two calls.
abbrev pub IsTidy : Iterator → Type 0
IsTidy it = Tidy it.pending it.deferred it.done × IsInput it.deferred

-- How a call that had `xs` to give accounts for it.
abbrev pub Accounts : List Item → Next → Iterator → Type 0
Accounts xs (window w) it = xs ≡ map a_frame w.frames ++ stream it
Accounts xs (frame_failed w f e) it = xs ≡ map a_frame w.frames ++ (a_frame f ∷ stream it)
Accounts xs end_of_input it = (xs ≡ []) × (stream it ≡ [])
Accounts xs (error (cancelled e)) it = Unit
Accounts xs (error (source e)) it = xs ≡ an_error (source e) ∷ stream it
Accounts xs (error (negative_byte_count i)) it = xs ≡ an_error (negative_byte_count i) ∷ stream it
Accounts xs stuck it = ⊥

abbrev pub Good : {S : Type 0} → List Item → Next × Iterator × S → Type 0
Good xs (r, it, s) = Accounts xs r it × IsTidy it

-- The iterator inside the loop: nothing deferred, and not done.
abbrev pub at : List Event → List (Option String) → ℕ → Option Frame → Iterator
at fs ps b p = record {
  framer = fs;
  polls = ps;
  budget = b;
  pending = p;
  deferred = none;
  done = false;
}

-- What the window holds and what is still to come.
abbrev ahead : Window → Iterator → List Item
ahead w it = map a_frame w.frames ++ stream it

add_frame_items :
    (it : Iterator) (w : Window) (f : Frame) (xs : List Item)
    → map a_frame (add_frame it w f).frames ++ xs ≡ map a_frame w.frames ++ (a_frame f ∷ xs)
add_frame_items it w f xs = simp (map-append, append_assoc)

not_empty : (f : Frame) (fs : List Frame) → (length (f ∷ fs) == 0) ≡ false
not_empty f fs = ground arith

-- An iterator with nothing pending and nothing deferred.
abbrev idle : List Event → List (Option String) → ℕ → Bool → Iterator
idle fs ps b d = record {
  framer = fs;
  polls = ps;
  budget = b;
  pending = none;
  deferred = none;
  done = d;
}

abbrev some_window : List Frame → ℕ → Bool → Window
some_window fs n o = record { frames = fs; bytes = n; oversized = o }

stop_broken-Good :
    {S : Type 0} (es : List Event) (ps : List (Option String)) (b : ℕ) (d : Bool) (s : S)
    (fs : List Frame) (n : ℕ) (o : Bool) (e : InputError) (xs : List Item)
    → Accounts xs (error e) (idle es ps b d)
    → xs ≡ an_error e ∷ stream (idle es ps b d)
    → IsInput (some e)
    → Good (map a_frame fs ++ xs) (
      (stop_broken (idle es ps b d) (some_window fs n o) e).0,
      (stop_broken (idle es ps b d) (some_window fs n o) e).1,
      s,
    )
unfolding stop_broken
stop_broken-Good es ps b d s [] n o e xs acc same real = (acc, (tt, tt))
stop_broken-Good es ps b d s (f ∷ fs) n o e xs acc same real =
    rw (not_empty f fs) (ap (λ ys. map a_frame (f ∷ fs) ++ ys) same, (tt, real))

stop_end-Good :
    {S : Type 0} (es : List Event) (ps : List (Option String)) (b : ℕ) (s : S) (fs : List Frame)
    (n : ℕ) (o : Bool)
    → Good (map a_frame fs ++ []) (
      (stop_end (idle es ps b true) (some_window fs n o)).0,
      (stop_end (idle es ps b true) (some_window fs n o)).1,
      s,
    )
unfolding stop_end
stop_end-Good es ps b s [] n o = ((refl, refl), (tt, tt))
stop_end-Good es ps b s (f ∷ fs) n o = rw (not_empty f fs) (refl, (tt, tt))

module _ {S : Type 0} (consume : Frame → S → Option String × S) where
  retain-Good :
      (again : Iterator → S → Window → Next × Iterator × S) (it : Iterator) (s : S) (w : Window)
      (f : Frame)
      → IsTidy it
      → ((s' : S) (w' : Window) → Good (ahead w' it) (again it s' w'))
      → Good (map a_frame w.frames ++ (a_frame f ∷ stream it)) (retain consume again it s w f)
  unfolding retain
  retain-Good again it s w f tidy ih = elim (Option-cases (consume f s).0) [
    | inr (e, failed) ↦ rw (failed, retain) (refl, tidy)
    | inl fine ↦
        rw (fine, retain)
          (elim (Bool-cases (leb it.budget (add_frame it w f).bytes)) [
            | inl full ↦ rw full (sym (add_frame_items it w f (stream it)), tidy)
            | inr room ↦
                rw room (
                  rw (add_frame_items it w f (stream it)) at
                    (ih (consume f s).1 (add_frame it w f)))
          ])
  ]

  received-Good :
      (again : Iterator → S → Window → Next × Iterator × S) (es : List Event)
      (ps : List (Option String)) (b : ℕ) (s : S) (w : Window) (f : Frame)
      → ((s' : S) (w' : Window) → Good (ahead w' (at es ps b none)) (again (at es ps b none) s' w'))
      → Good
          (map a_frame w.frames ++ (a_frame f ∷ stream (at es ps b none)))
          (received consume again s w (read f, at es ps b none))
  unfolding received
  received-Good again es ps b s w f ih = elim (Bool-cases (no_longer_fits (at es ps b none) w f)) [
    | inl full ↦ rw full (refl, ((refl, refl), tt))
    | inr room ↦ rw room (retain-Good again (at es ps b none) s w f (tt, tt) ih)
  ]

  -- One round on an event of the framer.
  event-Good :
      (again : Iterator → S → Window → Next × Iterator × S) (es : List Event)
      (ps : List (Option String)) (b : ℕ) (s : S) (w : Window)
      → ((f : Frame) (es' : List Event) (s' : S) (w' : Window)
          → es ≡ frame f ∷ es'
          → Good (ahead w' (at es' ps b none)) (again (at es' ps b none) s' w'))
      → Good (ahead w (at es ps b none)) (received consume again s w (next_frame (at es ps b none)))
  unfolding received next_frame with_state stop_end
  event-Good again [] ps b s w ih = stop_end-Good [] ps b s w.frames w.bytes w.oversized
  event-Good again (fault e ∷ es) ps b s w ih =
      stop_broken-Good es ps b true s w.frames w.bytes w.oversized (source e) _ refl refl tt
  event-Good again (frame f ∷ es) ps b s w ih = elim (Bool-cases (is_negative f.bytes)) [
    | inl bad ↦ rw bad (
        stop_broken-Good es ps b false s w.frames w.bytes w.oversized
          (negative_byte_count (f.index + 1)) _ refl refl tt)
    | inr good ↦ rw good (received-Good again es ps b s w f (λ s' w'. ih f es s' w' refl))
  ]

  -- With more fuel than there are frames to read, the loop accounts for everything.
  fill-Good :
      (fuel : ℕ) (es : List Event) (ps : List (Option String)) (b : ℕ) (p : Option Frame) (s : S)
      (w : Window)
      → length es + length (frames_of p) < fuel
      → Good (ahead w (at es ps b p)) (fill consume fuel (at es ps b p) s w)
  unfolding fill polled next_frame
  fill-Good zero es ps b p s w lt = absurd (omega arith)
  fill-Good (suc fuel) es (some c ∷ ps) b none s w lt = (tt, (tt, tt))
  fill-Good (suc fuel) es (some c ∷ ps) b (some f) s w lt = (tt, ((refl, refl), tt))
  fill-Good (suc fuel) es [] b (some f) s w lt =
      received-Good (fill consume fuel) es [] b s w f
        (λ s' w'. fill-Good fuel es [] b none s' w' (omega arith))
  fill-Good (suc fuel) es (none ∷ ps) b (some f) s w lt =
      received-Good (fill consume fuel) es ps b s w f
        (λ s' w'. fill-Good fuel es ps b none s' w' (omega arith))
  fill-Good (suc fuel) es [] b none s w lt =
      event-Good (fill consume fuel) es [] b s w
        (λ f es' s' w' e. fill-Good fuel es' [] b none s' w' (omega (arith, ap length e)))
  fill-Good (suc fuel) es (none ∷ ps) b none s w lt =
      event-Good (fill consume fuel) es ps b s w
        (λ f es' s' w' e. fill-Good fuel es' ps b none s' w' (omega (arith, ap length e)))

  start-Good :
      (fuel : ℕ) (es : List Event) (ps : List (Option String)) (b : ℕ) (p : Option Frame)
      (d : Option InputError) (dn : Bool) (s : S)
      → Tidy p d dn
      → IsInput d
      → length es + length (frames_of p) < fuel
      → Good
          (stream
            (record { framer = es; polls = ps; budget = b; pending = p; deferred = d; done = dn }))
          (start consume fuel
            (record { framer = es; polls = ps; budget = b; pending = p; deferred = d; done = dn })
            s
            d)
  unfolding start
  start-Good fuel es ps b none (some (source e)) dn s tidy real lt = (refl, (tt, tt))
  start-Good fuel es ps b none (some (negative_byte_count i)) dn s tidy real lt = (refl, (tt, tt))
  start-Good fuel es ps b none (some (cancelled e)) dn s tidy real lt = absurd real
  start-Good fuel es ps b (some f) (some e) dn s tidy real lt = cc tidy.0
  start-Good fuel es ps b none none true s tidy real lt = ((refl, refl), (tt, tt))
  start-Good fuel es ps b (some f) none true s tidy real lt = cc tidy.1
  start-Good fuel es ps b none none false s tidy real lt =
      fill-Good fuel es ps b none s empty_window lt
  start-Good fuel es ps b (some f) none false s tidy real lt =
      fill-Good fuel es ps b (some f) s empty_window lt

  enough : (n : ℕ) (p : Option Frame) → n + length (frames_of p) < n + 2
  enough n none = omega arith
  enough n (some f) = omega arith

  begin-Good :
      (es : List Event) (ps : List (Option String)) (b : ℕ) (p : Option Frame)
      (d : Option InputError) (dn : Bool) (s : S)
      → Tidy p d dn
      → IsInput d
      → Good
          (stream
            (record { framer = es; polls = ps; budget = b; pending = p; deferred = d; done = dn }))
          (begin consume
            (length es + 2)
            (record { framer = es; polls = ps; budget = b; pending = p; deferred = d; done = dn })
            s
            (poll ps))
  unfolding begin
  begin-Good es [] b p d dn s tidy real =
      start-Good (length es + 2) es [] b p d dn s tidy real (enough (length es) p)
  begin-Good es (none ∷ ps) b p d dn s tidy real =
      start-Good (length es + 2) es ps b p d dn s tidy real (enough (length es) p)
  begin-Good es (some e ∷ ps) b p d dn s tidy real = (tt, (tidy, real))

  -- A call on an iterator as the last call left it never runs out of fuel, leaves such an iterator
  -- behind, and accounts for the rest of the input: what was still to come is the frames of the
  -- window, then the frame or the error the call reports, then what is still to come afterwards.
  -- The end of the input is reported only where nothing is left. A cancelled call is not asked to
  -- account for the frames it had already taken.
  pub next_accounts : (it : Iterator) (s : S) → IsTidy it → Good (stream it) (next consume it s)
  unfolding next
  next_accounts it s (tidy, real) =
      begin-Good it.framer it.polls it.budget it.pending it.deferred it.done s tidy real
