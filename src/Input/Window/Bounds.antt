-- ===== src/Input/Window/Bounds.antt =====
-- The byte budget of a window.
use ajq.Prelude.{
  ltb_less, ltb_not_less, leb_not_less, ℕ, zero, suc, ◌+◌, ◌-◌, ◌≤◌, ◌<◌, String, Bool, true, false,
  not, ◌&&◌, List, [], ◌∷◌, ◌++◌, Option, none, some, ◌≡◌, ◌⊎◌, refl, ap, ◌∙◌, inl, inr, arith,
  length, if◌then◌else◌, Bool-cases, Option-cases, ltb, leb, ◌==◌,
}
use ajq.Input.{Frame}
use ajq.Input.Window.{
  Window, empty_window, Event, frame, fault, InputError, Iterator, Next, window, frame_failed,
  end_of_input, Read, read, nothing, broken, size, next_frame, read_framer, take_pending, add_frame,
  no_longer_fits, stop_broken, stop_end, retain, with_state, received, polled, fill, start, begin,
  next, poll,
}

abbrev pub total : List Frame → ℕ
total [] = 0
total (f ∷ fs) = size f + total fs

-- A window that may still grow, or be empty.
abbrev pub IsWithin : ℕ → Window → Type 0
IsWithin b w = (w.bytes ≡ total w.frames) × (w.oversized ≡ false) × (w.bytes ≤ b)

-- One frame that is larger than the budget, and marked as such.
abbrev pub IsOversized : ℕ → Window → Type 0
IsOversized b w =
    (w.bytes ≡ total w.frames) × (w.oversized ≡ true) × (length w.frames ≡ 1) × (b < w.bytes)

abbrev pub IsBounded : ℕ → Next → Type 0
IsBounded b (window w) = (0 < length w.frames) × (IsWithin b w ⊎ IsOversized b w)
IsBounded b (frame_failed w f e) = IsWithin b w
IsBounded b _ = Unit

abbrev pub Kept : {S : Type 0} → ℕ → Next × Iterator × S → Type 0
Kept b (r, it, s) = IsBounded b r × (it.budget ≡ b)

total-append : (fs : List Frame) (f : Frame) → total (fs ++ f ∷ []) ≡ total fs + size f
total-append [] f = omega arith
total-append (g ∷ fs) f = omega (arith, total-append fs f)

append_length : (fs : List Frame) (f : Frame) → length (fs ++ f ∷ []) ≡ suc (length fs)
append_length [] f = refl
append_length (g ∷ fs) f = ap suc (append_length fs f)

two_not_one : (k : ℕ) (c : Bool) → (suc (suc k) == 1 && c) ≡ false
two_not_one k c = ground arith

full_nonempty : (k : ℕ) (c : Bool) → (not (k == 0) && c) ≡ true → 0 < k
full_nonempty k c e = ground arith

room_for : (k b n s : ℕ) → (not (suc k == 0) && ltb (b - n) s) ≡ false → n ≤ b → n + s ≤ b
room_for k b n s room fits = ground arith

abbrev some_window : List Frame → ℕ → Bool → Window
some_window fs n o = record { frames = fs; bytes = n; oversized = o }

-- What taking a frame that fits makes of a window.
add_frame_bounded :
    (it : Iterator) (fs : List Frame) (n : ℕ) (o : Bool) (f : Frame) (b : ℕ)
    → it.budget ≡ b
    → IsWithin b (some_window fs n o)
    → no_longer_fits it (some_window fs n o) f ≡ false
    → IsWithin b (add_frame it (some_window fs n o) f)
      ⊎ IsOversized b (add_frame it (some_window fs n o) f)
add_frame_bounded it [] n o f b same (bytes_eq, fine, fits) room =
    elim (Bool-cases (ltb it.budget (size f))) [
      | inl big ↦
          inr (omega (arith, bytes_eq), big, refl, omega (arith, same, ltb_less big, bytes_eq))
      | inr small ↦
          inl (omega (arith, bytes_eq), small, omega (arith, same, ltb_not_less small, bytes_eq))
    ]
add_frame_bounded it (g ∷ fs) n o f b same (bytes_eq, fine, fits) room =
    inl (omega (arith, bytes_eq, total-append fs f), not_single, room_left)
  where
    not_single : (length ((g ∷ fs) ++ f ∷ []) == 1 && ltb it.budget (size f)) ≡ false
    not_single = rw (append_length fs f) (two_not_one (length fs) (ltb it.budget (size f)))

    room_left : n + size f ≤ b
    room_left =
        omega
          (arith, same, room_for (length fs) it.budget n (size f) room (omega (arith, same, fits)))

nonempty : (fs : List Frame) (f : Frame) → 0 < length (fs ++ f ∷ [])
nonempty fs f = omega (arith, append_length fs f)

nonempty_of : (fs : List Frame) → (length fs == 0) ≡ false → 0 < length fs
nonempty_of [] e = ground arith
nonempty_of (f ∷ fs) e = omega arith

stop_broken_bounded :
    {S : Type 0} (it : Iterator) (s : S) (w : Window) (e : InputError) (b : ℕ)
    → IsWithin b w
    → it.budget ≡ b
    → Kept b ((stop_broken it w e).0, (stop_broken it w e).1, s)
unfolding stop_broken
stop_broken_bounded it s w e b within same = elim (Bool-cases (length w.frames == 0)) [
  | inl none_yet ↦ rw none_yet (tt, same)
  | inr some_yet ↦ rw some_yet ((nonempty_of w.frames some_yet, inl within), same)
]

stop_end_bounded :
    {S : Type 0} (it : Iterator) (s : S) (w : Window) (b : ℕ)
    → IsWithin b w
    → it.budget ≡ b
    → Kept b ((stop_end it w).0, (stop_end it w).1, s)
unfolding stop_end
stop_end_bounded it s w b within same = elim (Bool-cases (length w.frames == 0)) [
  | inl none_yet ↦ rw none_yet (tt, same)
  | inr some_yet ↦ rw some_yet ((nonempty_of w.frames some_yet, inl within), same)
]

module _ {S : Type 0} (consume : Frame → S → Option String × S) where
  retain_bounded :
      (again : Iterator → S → Window → Next × Iterator × S) (it : Iterator) (s : S) (w : Window)
      (f : Frame) (b : ℕ)
      → IsWithin b w
      → it.budget ≡ b
      → no_longer_fits it w f ≡ false
      → ((it' : Iterator) (s' : S) (w' : Window)
          → IsWithin b w'
          → it'.budget ≡ b
          → Kept b (again it' s' w'))
      → Kept b (retain consume again it s w f)
  unfolding retain
  retain_bounded again it s w f b within same room ih = elim (Option-cases (consume f s).0) [
    | inr (e, failed) ↦ rw (failed, retain) (within, same)
    | inl fine ↦
        rw (fine, retain)
          (elim (Bool-cases (leb it.budget (add_frame it w f).bytes)) [
            | inl full ↦ rw full ((nonempty w.frames f, bounded), same)
            | inr open_yet ↦
                rw open_yet
                  (ih it (consume f s).1 (add_frame it w f) (still_within open_yet bounded) same)
          ])
  ]
    where
      bounded : IsWithin b (add_frame it w f) ⊎ IsOversized b (add_frame it w f)
      bounded = add_frame_bounded it w.frames w.bytes w.oversized f b same within room

      still_within :
          leb it.budget (add_frame it w f).bytes ≡ false
          → IsWithin b (add_frame it w f) ⊎ IsOversized b (add_frame it w f)
          → IsWithin b (add_frame it w f)
      still_within less (inl fits) = fits
      still_within less (inr big) = absurd (omega (arith, same, leb_not_less less, big.3))

  received_bounded :
      (again : Iterator → S → Window → Next × Iterator × S) (s : S) (w : Window) (r : Read)
      (it : Iterator) (b : ℕ)
      → IsWithin b w
      → it.budget ≡ b
      → ((it' : Iterator) (s' : S) (w' : Window)
          → IsWithin b w'
          → it'.budget ≡ b
          → Kept b (again it' s' w'))
      → Kept b (received consume again s w (r, it))
  unfolding received with_state
  received_bounded again s w (broken e) it b within same ih =
      stop_broken_bounded it s w e b within same
  received_bounded again s w nothing it b within same ih = stop_end_bounded it s w b within same
  received_bounded again s w (read f) it b within same ih =
      elim (Bool-cases (no_longer_fits it w f)) [
        | inl full ↦ rw full ((full_nonempty (length w.frames) _ full, inl within), same)
        | inr room ↦ rw room (retain_bounded again it s w f b within same room ih)
      ]

  next_frame_budget :
      (es : List Event) (ps : List (Option String)) (b : ℕ) (p : Option Frame)
      (d : Option InputError) (dn : Bool)
      → (next_frame (record {
        framer = es;
        polls = ps;
        budget = b;
        pending = p;
        deferred = d;
        done = dn;
      })).1.budget
        ≡ b
  unfolding next_frame take_pending read_framer
  next_frame_budget es ps b (some f) d dn = refl
  next_frame_budget [] ps b none d dn = refl
  next_frame_budget (frame f ∷ es) ps b none d dn = refl
  next_frame_budget (fault e ∷ es) ps b none d dn = refl

  polled_bounded :
      (again : Iterator → S → Window → Next × Iterator × S) (it : Iterator) (s : S) (w : Window)
      (b : ℕ) (p : Option String × List (Option String))
      → IsWithin b w
      → it.budget ≡ b
      → ((it' : Iterator) (s' : S) (w' : Window)
          → IsWithin b w'
          → it'.budget ≡ b
          → Kept b (again it' s' w'))
      → Kept b (polled consume again it s w p)
  unfolding polled
  polled_bounded again it s w b (some e, ps) within same ih = (tt, same)
  polled_bounded again it s w b (none, ps) within same ih =
      received_bounded again s w r.0 r.1 b within
        (next_frame_budget it.framer ps it.budget it.pending it.deferred it.done ∙ same) ih
    where
      r : Read × Iterator
      r = next_frame (record it { polls = ps })

  fill_bounded :
      (fuel : ℕ) (it : Iterator) (s : S) (w : Window) (b : ℕ)
      → IsWithin b w
      → it.budget ≡ b
      → Kept b (fill consume fuel it s w)
  unfolding fill
  fill_bounded zero it s w b within same = (tt, same)
  fill_bounded (suc fuel) it s w b within same =
      polled_bounded (fill consume fuel) it s w b (poll it.polls) within same
        (λ it' s' w'. fill_bounded fuel it' s' w' b)

  start_bounded :
      (fuel : ℕ) (it : Iterator) (s : S) (d : Option InputError)
      → Kept it.budget (start consume fuel it s d)
  unfolding start
  start_bounded fuel it s (some e) = (tt, refl)
  start_bounded fuel it s none =
      either it.done (fill_bounded fuel it s empty_window it.budget (refl, refl, omega arith) refl)
    where
      either :
          (d : Bool)
          → Kept it.budget (fill consume fuel it s empty_window)
          → Kept it.budget
              (if d then (end_of_input, it, s) else fill consume fuel it s empty_window)
      either true filled = (tt, refl)
      either false filled = filled

  begin_bounded :
      (fuel : ℕ) (it : Iterator) (s : S) (p : Option String × List (Option String))
      → Kept it.budget (begin consume fuel it s p)
  unfolding begin
  begin_bounded fuel it s (some e, ps) = (tt, refl)
  begin_bounded fuel it s (none, ps) = start_bounded fuel (record it { polls = ps }) s it.deferred

  -- What a call returns: a window holds at least one frame, says how many bytes its frames have,
  -- and keeps to the byte budget, unless it is a single frame that is larger than the budget, which
  -- is then marked as oversized, as no other window is. What was collected before a frame failed
  -- keeps to the budget too, and the iterator keeps its budget.
  pub next_bounded : (it : Iterator) (s : S) → Kept it.budget (next consume it s)
  unfolding next
  next_bounded it s = begin_bounded (length it.framer + 2) it s (poll it.polls)
