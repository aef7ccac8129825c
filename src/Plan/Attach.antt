-- ===== src/Plan/Attach.antt =====
-- `attachSourceRanges` (internal/plan/source_scan.go): planned calls get the ranges of the call sites
-- that the scan of the query has found.
pub mod Sound
use Prim.Native.Char.{code}
use ajq.Prelude.{
  ℕ, String, Bool, true, false, not, ◌&&◌, ◌||◌, List, [], ◌∷◌, Option, none, some, str_eq,
  if◌then◌else◌,
}
use ajq.Value.{pos}
use ajq.Schema.{is_space}
use ajq.Plan.{Source, SemNode, Diagnostic}

-- `semCallOccurrence`
pub record Occurrence : Type 0 where
  pub op : String
  pub start : ℕ
  pub end_at : ℕ
  pub text : String

-- `normalizeSemExpr`: no whitespace.
unfoldable pub normalize_sem_expr : String → String
normalize_sem_expr String.[] = String.[]
normalize_sem_expr (String.◌∷◌ c s) =
    let rest = normalize_sem_expr s in if is_space (code c) then rest else String.◌∷◌ c rest

-- `setSourceRange`
abbrev pub source_at : Occurrence → Source
source_at o = record {
  expression = o.text;
  start_byte = pos o.start;
  end_byte = pos o.end_at;
  has_range = true;
}

-- The occurrences, each with its flag `used`.
abbrev pub Sites : Type 0
Sites = List (Bool × Occurrence)

-- The inner loops: the earliest unused occurrence that fits is marked as used.
pub claim : (Occurrence → Bool) → Sites → Option Occurrence × Sites
claim fits [] = (none, [])
claim fits ((used, o) ∷ sites) =
    let (found, sites') = claim fits sites in
    if not used && fits o then (some o, (true, o) ∷ sites) else (found, (used, o) ∷ sites')

abbrev pub has_op : String → Occurrence → Bool
has_op op o = str_eq o.op op

abbrev pub has_op_and_text : String → String → Occurrence → Bool
has_op_and_text op want o = str_eq o.op op && str_eq (normalize_sem_expr o.text) want

abbrev pub place_node : SemNode → Option Occurrence → SemNode
place_node n none = n
place_node n (some o) = record n { source = source_at o }

-- Pass 1.
pub match_nodes : List SemNode → Sites → List SemNode × Sites
match_nodes [] sites = ([], sites)
match_nodes (n ∷ ns) sites =
    let (found, sites') =
      claim (has_op_and_text n.op (normalize_sem_expr n.source.expression)) sites in
    let (ns', sites'') = match_nodes ns sites' in (place_node n found ∷ ns', sites'')

-- Pass 2.
pub fill_nodes : List SemNode → Sites → List SemNode × Sites
fill_nodes [] sites = ([], sites)
fill_nodes (n ∷ ns) sites =
    let (found, sites') = if n.source.has_range then (none, sites) else claim (has_op n.op) sites in
    let (ns', sites'') = fill_nodes ns sites' in (place_node n found ∷ ns', sites'')

abbrev pub place_diagnostic : Diagnostic → Option Occurrence → Diagnostic
place_diagnostic d none = d
place_diagnostic d (some o) = record d { source = source_at o }

pub match_diagnostics : List Diagnostic → Sites → List Diagnostic
match_diagnostics [] sites = []
match_diagnostics (d ∷ ds) sites =
    let (found, sites') =
      if d.source.has_range || str_eq d.source.expression ""
      then (none, sites)
      else claim (has_op_and_text d.op (normalize_sem_expr d.source.expression)) sites in
    place_diagnostic d found ∷ match_diagnostics ds sites'

pub unused : List Occurrence → Sites
unused [] = []
unused (o ∷ os) = (false, o) ∷ unused os

-- With no occurrence the passes change nothing, as the early return does.
unfoldable pub attach_source_ranges :
    List Occurrence → List SemNode → List Diagnostic → List SemNode × List Diagnostic
unfolding match_nodes fill_nodes match_diagnostics unused claim
attach_source_ranges occs ns ds =
    let (ns', sites) = match_nodes ns (unused occs) in
    let (ns'', sites') = fill_nodes ns' sites in (ns'', match_diagnostics ds sites')
