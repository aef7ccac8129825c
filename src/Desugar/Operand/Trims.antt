-- ===== src/Desugar/Operand/Trims.antt =====
-- The trimming loops end, with no comment left.
use ajq.Prelude.{ℕ, ◌&&◌, none, some, Bytes, ltb, ◌≡◌, ◌==◌, true, false, length}
use ajq.Desugar.Scan.{at, skip_line_comment, skip_spaces}
use ajq.Desugar.Operand.{comment_start, line_start, trim_spaces}

-- The loop of `trimLeftEnd` on `src[:end]`, which has no bound on its rounds: it ends with a position
-- that no white space and no comment ends at.
pub data TrimsLeft (src : Bytes) : ℕ → ℕ → Type 0 where
  left_done :
      {end : ℕ}
      → comment_start src (line_start src (trim_spaces src end)) (trim_spaces src end) ≡ none
      → TrimsLeft src end (trim_spaces src end)
  left_comment :
      {end comment r : ℕ}
      → comment_start src (line_start src (trim_spaces src end)) (trim_spaces src end)
        ≡ some comment
      → TrimsLeft src comment r
      → TrimsLeft src end r

-- The loop of `trimRightStart` from a position: it ends with one that no white space and no comment
-- starts at.
pub data TrimsRight (src : Bytes) : ℕ → ℕ → Type 0 where
  right_done :
      {start : ℕ}
      → (ltb (skip_spaces src start) (length src) && at src (skip_spaces src start) == 35) ≡ false
      → TrimsRight src start (skip_spaces src start)
  right_comment :
      {start r : ℕ}
      → (ltb (skip_spaces src start) (length src) && at src (skip_spaces src start) == 35) ≡ true
      → TrimsRight src (skip_line_comment src (skip_spaces src start)) r
      → TrimsRight src start r
