-- ===== src/Plan/Scan/Rounds.antt =====
-- The scan of a query goes forward, so it ends.
use ajq.Prelude.{ℕ, ◌<◌, true, ◌&&◌, List, [], ◌∷◌, Bytes, ltb, ◌==◌, ◌≡◌, arith, length}
use ajq.Value.{pos, int_eq}
use ajq.Desugar.Loop.Laws.{IsBeyond, if-IsBeyond, AlwaysEnds, loop-AlwaysEnds}
use ajq.Desugar.Scan.{at, slice, has_prefix}
use ajq.Desugar.Scan.Bounds.{skip_line_comment_advances}
use ajq.Plan.Scan.{
  ScanFrame, ScanState, is_ident_start, ident_end, space_end, sem_prefix, at_close, at_ident,
  frame_turn, scan_turn, found_sites,
}
use ajq.Plan.Scan.Sites.{run_length_positive}

close_goes_on :
    (src : Bytes) (i : ℕ) (s : ScanState) (f : ScanFrame) (fs : List ScanFrame)
    → IsBeyond i (at_close src i s f fs)
close_goes_on src i s f fs =
    if-IsBeyond i (f.interp && int_eq f.depth (pos 0)) _ _ (λ e. omega arith) (λ e. omega arith)

ident_goes_on :
    (src : Bytes) (i : ℕ) (s : ScanState) (f : ScanFrame)
    → i < length src
    → is_ident_start (at src i) ≡ true
    → IsBeyond i (at_ident src i s f)
ident_goes_on src i s f lt e =
    let positive = run_length_positive src i lt e in
    if-IsBeyond i
      (has_prefix (slice src i (ident_end src i)) sem_prefix
        && (ltb (space_end src (ident_end src i)) (length src)
            && at src (space_end src (ident_end src i)) == 40))
      _ _ (λ g. omega (arith, positive)) (λ g. omega (arith, positive))

scan_turn-IsBeyond :
    (src : Bytes) (i : ℕ) (s : ScanState) → i < length src → IsBeyond i (scan_turn src i s)
unfolding scan_turn
scan_turn-IsBeyond src i s lt = by_frame s.frames
  where
    by_frame : (fs : List ScanFrame) → IsBeyond i (frame_turn src i s fs)
    by_frame [] = tt
    by_frame (f ∷ fs) =
        if-IsBeyond i f.is_string _ _
          (λ e.
            if-IsBeyond i (at src i == 34) _ _ (λ g. omega arith)
              (λ g. if-IsBeyond i (at src i == 92) _ _ (λ h. omega arith) (λ h. omega arith)))
          (λ e.
            if-IsBeyond i (at src i == 34) _ _ (λ g. omega arith)
              (λ g.
                if-IsBeyond i (at src i == 35) _ _ (λ h. skip_line_comment_advances src i lt h)
                  (λ h.
                    if-IsBeyond i (at src i == 40) _ _ (λ o. omega arith)
                      (λ o.
                        if-IsBeyond i (at src i == 41) _ _ (λ c. close_goes_on src i s f fs)
                          (λ c.
                            if-IsBeyond i (is_ident_start (at src i)) _ _
                              (λ d. ident_goes_on src i s f lt d) (λ d. omega arith))))))

-- The loop of `scanSemanticCalls`, which has no bound on its rounds, comes to an end in finitely many
-- rounds from any position and with any stacks, with the call sites that the model's loop gives.
pub scan-AlwaysEnds : (src : Bytes) → AlwaysEnds (scan_turn src) found_sites (length src)
scan-AlwaysEnds src =
    loop-AlwaysEnds (scan_turn src) found_sites (length src)
      (λ i s lt. scan_turn-IsBeyond src i s lt)
