-- ===== src/Plan/Scan/Balanced.antt =====
-- In a query without strings and comments, the scan closes each call at the depth where it was opened.
use ajq.Prelude.{
  ℕ, ◌+◌, ◌-◌, ◌<◌, Bool, true, false, ◌&&◌, List, [], ◌∷◌, ◌++◌, Bytes, ltb, ◌≡◌, ◌∙◌, refl, sym,
  ap, arith, ◌==◌, if◌then◌else◌, length, All, All-append, Bool-cases, inl, inr,
}
use ajq.Value.{pos, up, down, int_eq}
use ajq.Desugar.Loop.{Turn}
use ajq.Desugar.Loop.Laws.{TurnKeeps, rounds-Keeps}
use ajq.Desugar.Scan.{at, slice, has_prefix}
use ajq.Plan.Scan.{
  CallSite, ScanFrame, Pending, ScanState, top_level, scan_start, is_ident_start, is_ident_char,
  is_space_byte, ident_end, space_end, sem_prefix, site_of, is_closed_by, close_pendings, at_close,
  at_ident, in_code, frame_turn, scan_turn, found_sites, scan_semantic_calls,
}
use ajq.Plan.Scan.Levels.{depth_behind, level, level_next, level_run, IsPlain, int_eq_sound}
use ajq.Plan.Scan.Sorted.{sort_sites-All}

-- No byte opens a string or a comment.
abbrev pub IsBare : Bytes → Type 0
IsBare bs = All (λ b. ((b == 34) ≡ false) × ((b == 35) ≡ false)) bs

-- As deep in parentheses behind the call as before it.
abbrev pub IsBalanced : Bytes → CallSite → Type 0
IsBalanced src o = level src o.end_at ≡ level src o.start

abbrev IsOpenAt : Bytes → Pending → Type 0
IsOpenAt src p = p.depth_at_open ≡ level src p.ident_start

at_bare :
    (src : Bytes) (i : ℕ) → IsBare src → ((at src i == 34) ≡ false) × ((at src i == 35) ≡ false)
at_bare [] i h = (refl, refl)
at_bare (b ∷ src) ℕ.zero (h, hs) = h
at_bare (b ∷ src) (ℕ.suc i) (h, hs) = at_bare src i hs

close_pendings-balances :
    (src : Bytes) (i : ℕ) (f : ScanFrame) (occs : List CallSite) (ps : List Pending)
    → f.depth ≡ level src (i + 1)
    → All (IsBalanced src) occs
    → All (IsOpenAt src) ps
    → All (IsBalanced src) (close_pendings src i f occs ps).0
      × All (IsOpenAt src) (close_pendings src i f occs ps).1
unfolding close_pendings
close_pendings-balances src i f occs [] deep done unclosed = (done, tt)
close_pendings-balances src i f occs (p ∷ ps) deep done (one, unclosed) =
    elim (Bool-cases (is_closed_by f p)) [
      | inr e ↦ rw (e, close_pendings) (done, (one, unclosed))
      | inl e ↦
          rw (e, close_pendings)
            (close_pendings-balances src i f (occs ++ site_of src i p ∷ []) ps deep
              (All-append (IsBalanced src) occs (site_of src i p ∷ []) done (
                sym deep
                    ∙ sym (int_eq_sound p.depth_at_open f.depth (second (p.serial == f.serial) _ e))
                    ∙ one,
                tt,
              ))
              unclosed)
    ]
  where
    second : (a b : Bool) → (a && b) ≡ true → b ≡ true
    second true b h = h
    second false b h = cc h

-- The query is its own only context, and the depths are those of the positions.
record Leveled (src : Bytes) (i : ℕ) (s : ScanState) : Type 0 where
  frame : ScanFrame
  only : s.frames ≡ frame ∷ []
  code : frame.is_string ≡ false
  whole : frame.interp ≡ false
  deep : frame.depth ≡ level src i
  open_calls : All (IsOpenAt src) s.pendings
  sites : All (IsBalanced src) s.occs

abbrev Levels : Bytes → Turn ScanState (List CallSite) → Type 0
Levels src x = TurnKeeps (All (IsBalanced src)) (Leveled src) x

if-Levels :
    (src : Bytes) (b : Bool) (x y : Turn ScanState (List CallSite))
    → (b ≡ true → Levels src x)
    → (b ≡ false → Levels src y)
    → Levels src (if b then x else y)
if-Levels src true x y f g = f refl
if-Levels src false x y f g = g refl

moved :
    (src : Bytes) (i j : ℕ) (s : ScanState)
    → level src j ≡ level src i
    → Leveled src i s
    → Leveled src j s
moved src i j s same h = record {
  frame = h.frame;
  only = h.only;
  code = h.code;
  whole = h.whole;
  deep = h.deep ∙ sym same;
  open_calls = h.open_calls;
  sites = h.sites;
}

is_ident_char-IsPlain : IsPlain is_ident_char
is_ident_char-IsPlain b e = (ground arith, ground arith)

is_space_byte-IsPlain : IsPlain is_space_byte
is_space_byte-IsPlain b e = (ground arith, ground arith)

at_ident-Levels :
    (src : Bytes) (i : ℕ) (s : ScanState) (f : ScanFrame)
    → f.depth ≡ level src i
    → Leveled src i s
    → Levels src (at_ident src i s f)
at_ident-Levels src i s f deep h =
    if-Levels src
      (has_prefix (slice src i (ident_end src i)) sem_prefix
        && (ltb (space_end src (ident_end src i)) (length src)
            && at src (space_end src (ident_end src i)) == 40))
      _ _
      (λ g. record {
        frame = h.frame;
        only = h.only;
        code = h.code;
        whole = h.whole;
        deep =
            h.deep
            ∙ sym (
                level_run is_space_byte src (ident_end src i) is_space_byte-IsPlain
                ∙ level_run is_ident_char src i is_ident_char-IsPlain);
        open_calls = (deep, h.open_calls);
        sites = h.sites;
      })
      (λ g. moved src i (ident_end src i) s (level_run is_ident_char src i is_ident_char-IsPlain) h)

at_close-Levels :
    (src : Bytes) (i : ℕ) (s : ScanState) (f : ScanFrame)
    → f.is_string ≡ false
    → f.interp ≡ false
    → down f.depth ≡ level src (i + 1)
    → Leveled src i s
    → Levels src (at_close src i s f [])
at_close-Levels src i s f code whole deep h =
    if-Levels src (f.interp && int_eq f.depth (pos 0)) _ _ (λ e. cc (rw whole at e))
      (λ e.
        let (done, unclosed) =
          close_pendings-balances src i (record f { depth = down f.depth }) s.occs s.pendings deep
            h.sites h.open_calls in
        record {
          frame = record f { depth = down f.depth };
          only = refl;
          code = code;
          whole = whole;
          deep = deep;
          open_calls = unclosed;
          sites = done;
        })

in_code-Levels :
    (src : Bytes) (i : ℕ) (s : ScanState) (f : ScanFrame)
    → i < length src
    → IsBare src
    → f.is_string ≡ false
    → f.interp ≡ false
    → f.depth ≡ level src i
    → Leveled src i s
    → Levels src (in_code src i s f [])
in_code-Levels src i s f lt bare code whole deep h =
    if-Levels src (at src i == 34) _ _ (λ e. cc (e, (at_bare src i bare).0))
      (λ e.
        if-Levels src (at src i == 35) _ _ (λ g. cc (g, (at_bare src i bare).1))
          (λ g.
            if-Levels src (at src i == 40) _ _
              (λ opens. record {
                frame = record f { depth = up f.depth };
                only = refl;
                code = code;
                whole = whole;
                deep = ap up deep ∙ sym (next ∙ rw opens refl);
                open_calls = h.open_calls;
                sites = h.sites;
              })
              (λ no_open.
                if-Levels src (at src i == 41) _ _
                  (λ closes.
                    at_close-Levels src i s f code whole
                      (ap down deep ∙ sym (next ∙ rw (no_open, closes) refl)) h)
                  (λ no_close.
                    if-Levels src (is_ident_start (at src i)) _ _
                      (λ ident. at_ident-Levels src i s f deep h)
                      (λ plain. moved src i (i + 1) s (next ∙ rw (no_open, no_close) refl) h)))))
  where
    next : level src (i + 1) ≡ depth_behind (at src i) (level src i)
    next = level_next src i lt

scan_turn-Levels :
    (src : Bytes) (i : ℕ) (s : ScanState)
    → IsBare src
    → i < length src
    → Leveled src i s
    → Levels src (scan_turn src i s)
unfolding scan_turn
scan_turn-Levels src i s bare lt h = by_frames s.frames h.only
  where
    by_frames : (fs : List ScanFrame) → fs ≡ h.frame ∷ [] → Levels src (frame_turn src i s fs)
    by_frames fs only = rw only (
        if-Levels src h.frame.is_string _ _ (λ e. cc (e, h.code))
          (λ e. in_code-Levels src i s h.frame lt bare h.code h.whole h.deep h))

-- In a query without string literals and comments, every call that the scan finds is closed at the
-- depth of parentheses at which it was opened: as many parentheses are closed in its text as are
-- opened.
pub scan_semantic_calls-IsBalanced :
    (src : Bytes) → IsBare src → All (IsBalanced src) (scan_semantic_calls src)
unfolding scan_semantic_calls
scan_semantic_calls-IsBalanced src bare = sort_sites-All (IsBalanced src) _ (
    rounds-Keeps (All (IsBalanced src)) (Leveled src) (scan_turn src) found_sites (length src)
      (λ i s h. h.sites) (λ i s lt h. scan_turn-Levels src i s bare lt h) (length src - 0) 0
      scan_start
      (record {
        frame = top_level;
        only = refl;
        code = refl;
        whole = refl;
        deep = refl;
        open_calls = tt;
        sites = tt;
      }))
