-- ===== src/Desugar/Operand/Right/Within.antt =====
-- The right operand ends within the source.
use ajq.Prelude.{
  ℕ, ◌+◌, ◌-◌, ◌≤◌, ◌<◌, Bool, true, false, ◌&&◌, [], ◌∷◌, Bytes, ◌≡◌, refl, ◌==◌, arith,
  if◌then◌else◌, length, length-drop, drop, Bool-cases, inl, inr,
}
use ajq.Result.{Result, ok, err}
use ajq.Value.{ℤ, pos, down, int_eq}
use ajq.Desugar.Loop.{Turn}
use ajq.Desugar.Loop.Laws.{TurnHolds, rounds-Holds}
use ajq.Desugar.Scan.{RewriteError, at, has_prefix, has_word_at, skip_jq_string}
use ajq.Desugar.Operand.{
  word_if, word_end, word_try, past_string, Depths, same_depths, ground_level,
}
use ajq.Desugar.Operand.Bounds.{trim_left_end-bounded}
use ajq.Desugar.Operand.Right.{
  End, IfDepth, if_turn, no_end, control_rhs_end, is_right_delimiter, close_right, right_turn,
  right_finish, right_operand_end,
}

abbrev pub EndsWithin : Bytes → End → Type 0
EndsWithin src (ok e) = e ≤ length src
EndsWithin src (err e) = Unit

if-EndsWithin :
    {S : Type 0} (src : Bytes) (b : Bool) (x y : Turn S End)
    → (b ≡ true → TurnHolds (EndsWithin src) x)
    → TurnHolds (EndsWithin src) y
    → TurnHolds (EndsWithin src) (if b then x else y)
if-EndsWithin src true x y f g = f refl
if-EndsWithin src false x y f g = g

past_string-EndsWithin :
    {S : Type 0} (src : Bytes) (s : S) (r : Result RewriteError ℕ)
    → TurnHolds (EndsWithin src) (past_string {R = End} err s r)
past_string-EndsWithin src s (ok next) = tt
past_string-EndsWithin src s (err e) = tt

-- A word that stands somewhere fits there.
length-prefix : (bs ps : Bytes) → has_prefix bs ps ≡ true → length ps ≤ length bs
length-prefix bs [] h = omega arith
length-prefix [] (p ∷ ps) h = cc h
length-prefix (b ∷ bs) (p ∷ ps) h = omega (arith, length-prefix bs ps (ground arith))

word_end_fits :
    (src : Bytes) (i : ℕ) → i < length src → has_word_at src i word_end ≡ true → i + 3 ≤ length src
word_end_fits src i lt h =
    omega (arith, length-prefix (drop i src) word_end (ground arith), length-drop i src)

if_turn-EndsWithin :
    (src : Bytes) (i : ℕ) (s : IfDepth)
    → i < length src
    → TurnHolds (EndsWithin src) (if_turn src i s)
if_turn-EndsWithin src i s lt =
    if-EndsWithin src (at src i == 35) _ _ (λ e. tt)
      (if-EndsWithin src (at src i == 34) _ _
        (λ e. past_string-EndsWithin src s (skip_jq_string src i))
        (if-EndsWithin src (same_depths s.depths ground_level) _ _
          (λ e.
            if-EndsWithin src (has_word_at src i word_if) _ _ (λ f. tt)
              (if-EndsWithin src (has_word_at src i word_end) _ _
                (λ f.
                  if-EndsWithin src (int_eq (down s.if_depth) (pos 0)) _ _
                    (λ g. word_end_fits src i lt f) tt)
                tt))
          tt))

close_right-EndsWithin :
    (src : Bytes) (i : ℕ) (z : ℤ) (d : Depths)
    → i < length src
    → TurnHolds (EndsWithin src) (close_right src i z d)
close_right-EndsWithin src i z d lt =
    if-EndsWithin src (int_eq z (pos 0)) _ _ (λ e. omega (arith, trim_left_end-bounded src i)) tt

right_turn-EndsWithin :
    (src : Bytes) (ignore_catch : Bool) (i : ℕ) (d : Depths)
    → i < length src
    → TurnHolds (EndsWithin src) (right_turn src ignore_catch i d)
right_turn-EndsWithin src ignore_catch i d lt =
    if-EndsWithin src (same_depths d ground_level && is_right_delimiter src i ignore_catch) _ _
      (λ e. omega (arith, trim_left_end-bounded src i))
      (if-EndsWithin src (at src i == 35) _ _ (λ e. tt)
        (if-EndsWithin src (at src i == 34) _ _
          (λ e. past_string-EndsWithin src d (skip_jq_string src i))
          (if-EndsWithin src (at src i == 41) _ _ (λ e. close_right-EndsWithin src i d.paren d lt)
            (if-EndsWithin src (at src i == 93) _ _
              (λ e. close_right-EndsWithin src i d.square d lt)
              (if-EndsWithin src (at src i == 125) _ _
                (λ e. close_right-EndsWithin src i d.brace d lt) tt)))))

right_finish-EndsWithin : (src : Bytes) (d : Depths) → EndsWithin src (right_finish src d)
right_finish-EndsWithin src d = elim (Bool-cases (same_depths d ground_level)) [
  | inl e ↦ rw e (trim_left_end-bounded src (length src))
  | inr e ↦ rw e tt
]

pub right_operand_end-EndsWithin :
    (src : Bytes) (start : ℕ) → EndsWithin src (right_operand_end src start)
unfolding right_operand_end control_rhs_end
right_operand_end-EndsWithin src start = elim (Bool-cases (has_word_at src start word_if)) [
  | inl e ↦ rw e (
      rounds-Holds (EndsWithin src) (if_turn src) no_end (length src) (λ s. tt)
        (λ i s lt. if_turn-EndsWithin src i s lt) (length src - start) start
        (record { depths = ground_level; if_depth = pos 0 }))
  | inr e ↦ rw e (
      rounds-Holds (EndsWithin src) (right_turn src (has_word_at src start word_try))
        (right_finish src) (length src) (λ d. right_finish-EndsWithin src d)
        (λ i d lt. right_turn-EndsWithin src (has_word_at src start word_try) i d lt)
        (length src - start) start ground_level)
]
