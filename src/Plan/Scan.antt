-- ===== src/Plan/Scan.antt =====
-- `scanSemanticCalls` (internal/plan/source_scan.go): the semantic calls in the text of a query, with
-- their byte ranges. Bytes, comments and escapes are read as in internal/desugar.
pub mod Kept
pub mod Levels
pub mod Balanced
pub mod Rounds
pub mod Sites
pub mod Sorted
use ajq.Prelude.{
  ℕ, zero, suc, ◌+◌, ◌-◌, Bool, true, false, ◌||◌, ◌&&◌, List, [], ◌∷◌, ◌++◌, Bytes, ltb, leb, ◌==◌,
  if◌then◌else◌, length, drop,
}
use ajq.Value.{ℤ, pos, up, down, int_eq}
use ajq.Desugar.Loop.{Turn, stop, go, rounds, loop}
use ajq.Desugar.Scan.{at, slice, has_prefix, between, skip_line_comment, opens_interpolation}

-- `semCallOccurrence`, over bytes.
pub record CallSite : Type 0 where
  pub op : Bytes
  pub start : ℕ
  pub end_at : ℕ
  pub text : Bytes

-- A context of code or of a string literal.
pub record ScanFrame : Type 0 where
  pub is_string : Bool
  pub interp : Bool
  pub depth : ℤ
  pub serial : ℕ

pub record Pending : Type 0 where
  pub op : Bytes
  pub ident_start : ℕ
  pub serial : ℕ
  pub depth_at_open : ℤ

-- The variables of the loop; the stacks have their top first.
pub record ScanState : Type 0 where
  pub occs : List CallSite
  pub frames : List ScanFrame
  pub pendings : List Pending
  pub serial_counter : ℕ

abbrev pub top_level : ScanFrame
top_level = record { is_string = false; interp = false; depth = pos 0; serial = 0 }

abbrev pub string_frame : ScanFrame
string_frame = record { is_string = true; interp = false; depth = pos 0; serial = 0 }

abbrev pub scan_start : ScanState
scan_start = record { occs = []; frames = top_level ∷ []; pendings = []; serial_counter = 0 }

abbrev pub is_ident_start : ℕ → Bool
is_ident_start c = c == 95 || (between 97 122 c || between 65 90 c)

abbrev pub is_ident_char : ℕ → Bool
is_ident_char c = is_ident_start c || between 48 57 c

-- `isSpaceByte`
abbrev pub is_space_byte : ℕ → Bool
is_space_byte c = between 9 13 c || c == 32

-- How many bytes at the head pass a test: the loops over `j` and `k`.
abbrev pub run_length : (ℕ → Bool) → Bytes → ℕ
run_length test [] = 0
run_length test (b ∷ bs) = let rest = run_length test bs in if test b then suc rest else 0

abbrev pub ident_end : Bytes → ℕ → ℕ
ident_end src i = i + run_length is_ident_char (drop i src)

abbrev pub space_end : Bytes → ℕ → ℕ
space_end src j = j + run_length is_space_byte (drop j src)

abbrev pub sem_prefix : Bytes
sem_prefix = 115 ∷ 101 ∷ 109 ∷ 95 ∷ []

abbrev pub site_of : Bytes → ℕ → Pending → CallSite
site_of src i p = record {
  op = p.op;
  start = p.ident_start;
  end_at = i + 1;
  text = slice src p.ident_start (i + 1);
}

abbrev pub is_closed_by : ScanFrame → Pending → Bool
is_closed_by f p = p.serial == f.serial && int_eq p.depth_at_open f.depth

-- The loop that pops the pending calls which the parenthesis at `i` closes.
pub close_pendings :
    Bytes → ℕ → ScanFrame → List CallSite → List Pending → List CallSite × List Pending
close_pendings src i f occs [] = (occs, [])
close_pendings src i f occs (p ∷ ps) = elim (is_closed_by f p) [
  | true ↦ close_pendings src i f (occs ++ site_of src i p ∷ []) ps
  | false ↦ (occs, p ∷ ps)
]

abbrev pub with_closed : ScanState → List CallSite × List Pending → ScanState
with_closed s (occs, pendings) = record s { occs = occs; pendings = pendings }

-- The context that `\(` opens.
abbrev pub with_interpolation : Bool → ScanState → ScanState
with_interpolation false s = s
with_interpolation true s = record s {
  frames =
      (record { is_string = false; interp = true; depth = pos 0; serial = s.serial_counter + 1 })
      ∷ s.frames;
  serial_counter = s.serial_counter + 1;
}

-- A round in a string literal.
abbrev pub in_string : Bytes → ℕ → ScanState → List ScanFrame → Turn ScanState (List CallSite)
in_string src i s fs =
    if at src i == 34
    then go (i + 1) (record s { frames = fs })
    else if at src i == 92
    then go (i + 2) (with_interpolation (opens_interpolation src i) s)
    else go (i + 1) s

abbrev pub at_close :
    Bytes → ℕ → ScanState → ScanFrame → List ScanFrame → Turn ScanState (List CallSite)
at_close src i s f fs =
    if f.interp && int_eq f.depth (pos 0)
    then go (i + 1) (record s { frames = fs })
    else let f' = record f { depth = down f.depth } in
      go (i + 1)
        (record (with_closed s (close_pendings src i f' s.occs s.pendings)) { frames = f' ∷ fs })

-- An identifier, from `i` to `j`, and the white space behind it, to `k`.
abbrev pub at_ident : Bytes → ℕ → ScanState → ScanFrame → Turn ScanState (List CallSite)
at_ident src i s f =
    let j = ident_end src i in
    let k = space_end src j in
    if has_prefix (slice src i j) sem_prefix && (ltb k (length src) && at src k == 40)
    then go k (record s {
      pendings =
          (record {
            op = slice src i j;
            ident_start = i;
            serial = f.serial;
            depth_at_open = f.depth;
          })
          ∷ s.pendings;
    })
    else go j s

abbrev pub in_code :
    Bytes → ℕ → ScanState → ScanFrame → List ScanFrame → Turn ScanState (List CallSite)
in_code src i s f fs =
    if at src i == 34
    then go (i + 1) (record s { frames = string_frame ∷ f ∷ fs })
    else if at src i == 35
    then go (skip_line_comment src i) s
    else if at src i == 40
    then go (i + 1) (record s { frames = (record f { depth = up f.depth }) ∷ fs })
    else if at src i == 41
    then at_close src i s f fs
    else if is_ident_start (at src i)
    then at_ident src i s f
    else go (i + 1) s

-- The frame of the query itself is never popped, so there is always one.
abbrev pub frame_turn : Bytes → ℕ → ScanState → List ScanFrame → Turn ScanState (List CallSite)
frame_turn src i s [] = stop s.occs
frame_turn src i s (f ∷ fs) = if f.is_string then in_string src i s fs else in_code src i s f fs

unfoldable pub scan_turn : Bytes → ℕ → ScanState → Turn ScanState (List CallSite)
unfolding close_pendings
scan_turn src i s = frame_turn src i s s.frames

abbrev pub found_sites : ScanState → List CallSite
found_sites s = s.occs

-- `sort.SliceStable` by the start.
pub insert_site : CallSite → List CallSite → List CallSite
insert_site o [] = o ∷ []
insert_site o (x ∷ xs) =
    let rest = insert_site o xs in if leb o.start x.start then o ∷ x ∷ xs else x ∷ rest

pub sort_sites : List CallSite → List CallSite
sort_sites [] = []
sort_sites (o ∷ os) = insert_site o (sort_sites os)

unfoldable pub scan_semantic_calls : Bytes → List CallSite
unfolding rounds scan_turn insert_site sort_sites
scan_semantic_calls src = sort_sites (loop (scan_turn src) found_sites (length src) 0 scan_start)
