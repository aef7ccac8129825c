-- ===== src/Desugar/Operand/Bounds.antt =====
-- The loops over operators, comments and brackets go forward, and the trimming stays on its side.
use ajq.Prelude.{
  ℕ, zero, suc, ◌+◌, ◌-◌, ◌≤◌, ◌<◌, Bool, true, false, ◌&&◌, Option, none, some, Bytes, ltb, ◌==◌,
  arith, if◌then◌else◌, length, Bool-cases, inl, inr,
}
use ajq.Result.{Result, ok, err}
use ajq.Desugar.Loop.{NoState, no_state, Turn, go}
use ajq.Desugar.Loop.Laws.{IsBeyond, if-IsBeyond, TurnHolds, rounds-Holds}
use ajq.Desugar.Scan.{RewriteError, at, skip_line_comment, skip_spaces, skip_jq_string}
use ajq.Desugar.Scan.Bounds.{IsBehind, skip_line_comment_advances, skip_jq_string-IsBehind}
use ajq.Desugar.Operand.{
  past_string, within_limit, comment_turn, no_comment, comment_start, line_start, trim_spaces,
  trim_left_from, trim_left_end, trim_right_from, trim_right_start, operator_turn, depth_turn,
  Depths,
}

pub past_string-IsBeyond {ℓ κ} :
    {S : Type ℓ} {R : Type κ} (src : Bytes) (i : ℕ) (failed : RewriteError → R) (s : S)
    → i < length src
    → IsBeyond i (past_string failed s (skip_jq_string src i))
past_string-IsBeyond src i failed s lt =
    from_result (skip_jq_string src i) (skip_jq_string-IsBehind src i lt)
  where
    from_result :
        (r : Result RewriteError ℕ) → IsBehind (i + 1) src r → IsBeyond i (past_string failed s r)
    from_result (ok next) (less, le) = omega arith
    from_result (err e) h = tt

-- What stands at the head of each of the loops: a comment or a string is gone past.
pub past_comment_or_string {ℓ κ} :
    {S : Type ℓ} {R : Type κ} (src : Bytes) (i : ℕ) (failed : RewriteError → R) (s : S)
    (x : Turn S R)
    → i < length src
    → IsBeyond i x
    → IsBeyond i (
        if at src i == 35
        then go (skip_line_comment src i) s
        else if at src i == 34
        then past_string failed s (skip_jq_string src i)
        else x)
past_comment_or_string src i failed s x lt h =
    if-IsBeyond i (at src i == 35) _ _ (λ e. skip_line_comment_advances src i lt e)
      (λ e.
        if-IsBeyond i (at src i == 34) _ _ (λ f. past_string-IsBeyond src i failed s lt) (λ f. h))

pub operator_turn-IsBeyond :
    (src : Bytes) (i : ℕ) (s : NoState) → i < length src - 1 → IsBeyond i (operator_turn src i s)
operator_turn-IsBeyond src i s lt =
    past_comment_or_string src i (λ e. none) no_state _ (omega arith)
      (if-IsBeyond i (at src i == 61 && at src (i + 1) == 126) _ _ (λ e. tt)
        (λ e.
          if-IsBeyond i (at src i == 33 && at src (i + 1) == 126) _ _ (λ f. tt) (λ f. omega arith)))

pub depth_turn-IsBeyond :
    (src : Bytes) (i : ℕ) (d : Depths) → i < length src → IsBeyond i (depth_turn src i d)
depth_turn-IsBeyond src i d lt = past_comment_or_string src i err d _ lt (omega arith)

-- A position that may not be given is below a limit.
abbrev pub IsBelow : ℕ → Option ℕ → Type 0
IsBelow limit none = Unit
IsBelow limit (some c) = c < limit

-- A comment's start is within the limit.
pub comment_start-IsBelow :
    (src : Bytes) (start end : ℕ) → IsBelow end (comment_start src start end)
unfolding comment_start
comment_start-IsBelow src start end =
    rounds-Holds (IsBelow end) (comment_turn src end) no_comment end (λ s. tt) at_stop (end - start)
      start no_state
  where
    string_stop :
        (r : Result RewriteError ℕ) → TurnHolds {S = NoState} (IsBelow end) (within_limit end r)
    string_stop (err e) = tt
    string_stop (ok next) = elim (Bool-cases (ltb end next)) [ inl e ↦ rw e tt | inr e ↦ rw e tt ]

    at_stop : (i : ℕ) (s : NoState) → i < end → TurnHolds (IsBelow end) (comment_turn src end i s)
    at_stop i s lt = elim (Bool-cases (at src i == 34)) [
      | inl e ↦ rw e (string_stop (skip_jq_string src i))
      | inr e ↦ elim (Bool-cases (at src i == 35)) [ inl f ↦ rw (e, f) lt | inr f ↦ rw (e, f) tt ]
    ]

pub trim_spaces-bounded : (src : Bytes) (end : ℕ) → trim_spaces src end ≤ end
trim_spaces-bounded src zero = omega arith
trim_spaces-bounded src (suc e) = ground (arith, trim_spaces-bounded src e)

trim_left_from-bounded : (n : ℕ) (src : Bytes) (end : ℕ) → trim_left_from n src end ≤ end
unfolding trim_left_from
trim_left_from-bounded zero src end = omega arith
trim_left_from-bounded (suc n) src end =
    onwards (comment_start src (line_start src (trim_spaces src end)) (trim_spaces src end))
      (comment_start-IsBelow src (line_start src (trim_spaces src end)) (trim_spaces src end))
      (λ c. trim_left_from-bounded n src c)
  where
    onwards :
        (o : Option ℕ)
        → IsBelow (trim_spaces src end) o
        → ((c : ℕ) → trim_left_from n src c ≤ c)
        → (elim o [ none ↦ trim_spaces src end | some comment ↦ trim_left_from n src comment ])
          ≤ end
    onwards none h ih = trim_spaces-bounded src end
    onwards (some c) h ih = omega (arith, ih c, trim_spaces-bounded src end)

pub trim_left_end-bounded : (src : Bytes) (end : ℕ) → trim_left_end src end ≤ end
trim_left_end-bounded src end = trim_left_from-bounded (end + 1) src end

trim_right_from-bounded : (n : ℕ) (src : Bytes) (start : ℕ) → start ≤ trim_right_from n src start
unfolding trim_right_from
trim_right_from-bounded zero src start = omega arith
trim_right_from-bounded (suc n) src start =
    onwards (ltb (skip_spaces src start) (length src) && at src (skip_spaces src start) == 35)
      (trim_right_from-bounded n src (skip_line_comment src (skip_spaces src start)))
  where
    onwards :
        (b : Bool)
        → skip_line_comment src (skip_spaces src start)
          ≤ trim_right_from n src (skip_line_comment src (skip_spaces src start))
        → start ≤ (elim b [
          | true ↦ trim_right_from n src (skip_line_comment src (skip_spaces src start))
          | false ↦ skip_spaces src start
        ])
    onwards true h = omega (arith, h)
    onwards false h = omega arith

pub trim_right_start-bounded : (src : Bytes) (start : ℕ) → start ≤ trim_right_start src start
trim_right_start-bounded src start = trim_right_from-bounded (length src + 1) src start
