-- ===== src/Desugar/Operand/Right/Bounds.antt =====
-- The loops for the right operand go forward, and give up only with an error of the source's.
use ajq.Prelude.{
  ℕ, ◌+◌, ◌-◌, ◌<◌, Bool, true, false, ◌&&◌, Bytes, ◌≢◌, ◌==◌, arith, if◌then◌else◌, length,
  Bool-cases, inl, inr,
}
use ajq.Result.{Result, ok, err}
use ajq.Value.{ℤ, pos, down, int_eq}
use ajq.Desugar.Loop.{Turn}
use ajq.Desugar.Loop.Laws.{IsBeyond, if-IsBeyond, TurnHolds, rounds-Holds}
use ajq.Desugar.Scan.{RewriteError, out_of_fuel, at, has_word_at, skip_jq_string}
use ajq.Desugar.Scan.Bounds.{IsUnterminated-out_of_fuel, IsBehind, skip_jq_string-IsBehind}
use ajq.Desugar.Operand.{
  word_if, word_end, word_try, past_string, Depths, same_depths, ground_level,
}
use ajq.Desugar.Operand.Bounds.{past_comment_or_string}
use ajq.Desugar.Operand.Right.{
  End, IfDepth, if_turn, no_end, control_rhs_end, is_right_delimiter, close_right, right_turn,
  right_finish, right_operand_end,
}

pub if_turn-IsBeyond :
    (src : Bytes) (i : ℕ) (s : IfDepth) → i < length src → IsBeyond i (if_turn src i s)
if_turn-IsBeyond src i s lt = past_comment_or_string src i err s _ lt (
    if-IsBeyond i (same_depths s.depths ground_level) _ _
      (λ e.
        if-IsBeyond i (has_word_at src i word_if) _ _ (λ f. omega arith)
          (λ f.
            if-IsBeyond i (has_word_at src i word_end) _ _
              (λ g.
                if-IsBeyond i (int_eq (down s.if_depth) (pos 0)) _ _ (λ h. tt) (λ h. omega arith))
              (λ g. omega arith)))
      (λ e. omega arith))

close_right-IsBeyond :
    (src : Bytes) (i : ℕ) (z : ℤ) (d : Depths) → IsBeyond i (close_right src i z d)
close_right-IsBeyond src i z d = if-IsBeyond i (int_eq z (pos 0)) _ _ (λ e. tt) (λ e. omega arith)

pub right_turn-IsBeyond :
    (src : Bytes) (ignore_catch : Bool) (i : ℕ) (d : Depths)
    → i < length src
    → IsBeyond i (right_turn src ignore_catch i d)
right_turn-IsBeyond src ignore_catch i d lt =
    if-IsBeyond i (same_depths d ground_level && is_right_delimiter src i ignore_catch) _ _
      (λ e. tt)
      (λ e. past_comment_or_string src i err d _ lt (
        if-IsBeyond i (at src i == 41) _ _ (λ f. close_right-IsBeyond src i d.paren d)
          (λ f.
            if-IsBeyond i (at src i == 93) _ _ (λ g. close_right-IsBeyond src i d.square d)
              (λ g.
                if-IsBeyond i (at src i == 125) _ _ (λ h. close_right-IsBeyond src i d.brace d)
                  (λ h. omega arith)))))

-- An error of the source's, if it is one.
abbrev pub IsProper : {A : Type 0} → Result RewriteError A → Type 0
IsProper (ok a) = Unit
IsProper (err e) = e ≢ out_of_fuel

if-TurnHolds :
    {S : Type 0} (b : Bool) (x y : Turn S End)
    → TurnHolds IsProper x
    → TurnHolds IsProper y
    → TurnHolds IsProper (if b then x else y)
if-TurnHolds true x y f g = f
if-TurnHolds false x y f g = g

past_string-IsProper :
    {S : Type 0} (src : Bytes) (i : ℕ) (s : S)
    → i < length src
    → TurnHolds (IsProper {A = ℕ}) (past_string err s (skip_jq_string src i))
past_string-IsProper src i s lt =
    from_result (skip_jq_string src i) (skip_jq_string-IsBehind src i lt)
  where
    from_result :
        (r : Result RewriteError ℕ)
        → IsBehind (i + 1) src r
        → TurnHolds (IsProper {A = ℕ}) (past_string err s r)
    from_result (ok next) h = tt
    from_result (err e) h = IsUnterminated-out_of_fuel e h

if_turn-IsProper :
    (src : Bytes) (i : ℕ) (s : IfDepth) → i < length src → TurnHolds IsProper (if_turn src i s)
if_turn-IsProper src i s lt = if-TurnHolds (at src i == 35) _ _ tt (
    if-TurnHolds (at src i == 34) _ _ (past_string-IsProper src i s lt) (
      if-TurnHolds (same_depths s.depths ground_level) _ _
        (if-TurnHolds (has_word_at src i word_if) _ _ tt (
          if-TurnHolds (has_word_at src i word_end) _ _
            (if-TurnHolds (int_eq (down s.if_depth) (pos 0)) _ _ tt tt) tt))
        tt))

close_right-IsProper :
    (src : Bytes) (i : ℕ) (z : ℤ) (d : Depths) → TurnHolds IsProper (close_right src i z d)
close_right-IsProper src i z d = if-TurnHolds (int_eq z (pos 0)) _ _ tt tt

right_turn-IsProper :
    (src : Bytes) (ignore_catch : Bool) (i : ℕ) (d : Depths)
    → i < length src
    → TurnHolds IsProper (right_turn src ignore_catch i d)
right_turn-IsProper src ignore_catch i d lt =
    if-TurnHolds (same_depths d ground_level && is_right_delimiter src i ignore_catch) _ _ tt (
      if-TurnHolds (at src i == 35) _ _ tt (
        if-TurnHolds (at src i == 34) _ _ (past_string-IsProper src i d lt) (
          if-TurnHolds (at src i == 41) _ _ (close_right-IsProper src i d.paren d) (
            if-TurnHolds (at src i == 93) _ _ (close_right-IsProper src i d.square d)
              (if-TurnHolds (at src i == 125) _ _ (close_right-IsProper src i d.brace d) tt)))))

right_finish-IsProper : (src : Bytes) (d : Depths) → IsProper (right_finish src d)
right_finish-IsProper src d = elim (Bool-cases (same_depths d ground_level)) [
  | inl e ↦ rw e tt
  | inr e ↦ rw e (λ h. cc h)
]

pub right_operand_end-IsProper : (src : Bytes) (start : ℕ) → IsProper (right_operand_end src start)
unfolding right_operand_end control_rhs_end
right_operand_end-IsProper src start = elim (Bool-cases (has_word_at src start word_if)) [
  | inl e ↦ rw e (
      rounds-Holds IsProper (if_turn src) no_end (length src) (λ s. λ h. cc h)
        (λ i s lt. if_turn-IsProper src i s lt) (length src - start) start
        (record { depths = ground_level; if_depth = pos 0 }))
  | inr e ↦ rw e (
      rounds-Holds IsProper (right_turn src (has_word_at src start word_try)) (right_finish src)
        (length src) (λ d. right_finish-IsProper src d)
        (λ i d lt. right_turn-IsProper src (has_word_at src start word_try) i d lt)
        (length src - start) start ground_level)
]
