-- ===== src/Tests/Sites.antt =====
-- The call sites of a query.
use ajq.Prelude.{ℕ, List, [], ◌∷◌, Bytes, ◌≡◌, refl, All, length}
use ajq.Desugar.Loop.Laws.{AlwaysEnds}
use ajq.Plan.Scan.{CallSite, scan_turn, found_sites, scan_semantic_calls}
use ajq.Plan.Scan.Rounds.{scan-AlwaysEnds}
use ajq.Plan.Scan.Balanced.{IsBare, IsBalanced, scan_semantic_calls-IsBalanced}
use ajq.Plan.Scan.Sites.{IsSite}
use ajq.Plan.Scan.Sorted.{IsIncreasing, scan_semantic_calls-IsIncreasing}

-- sem_a(sem_b("\(sem_c(1))"))#sem_d()
abbrev nested_query : Bytes
nested_query =
    115 ∷ 101 ∷ 109 ∷ 95 ∷ 97 ∷ 40 ∷ 115 ∷ 101 ∷ 109 ∷ 95 ∷ 98 ∷ 40 ∷ 34 ∷ 92 ∷ 40 ∷ 115 ∷ 101 ∷ 109
    ∷ 95 ∷ 99 ∷ 40 ∷ 49 ∷ 41 ∷ 41 ∷ 34 ∷ 41 ∷ 41 ∷ 35 ∷ 115 ∷ 101 ∷ 109 ∷ 95 ∷ 100 ∷ 40 ∷ 41 ∷ []

abbrev starts : List CallSite → List ℕ
starts [] = []
starts (o ∷ os) = o.start ∷ starts os

abbrev ends : List CallSite → List ℕ
ends [] = []
ends (o ∷ os) = o.end_at ∷ ends os

-- The call in the comment is none.
nested_calls : starts (scan_semantic_calls nested_query) ≡ 0 ∷ 6 ∷ 15 ∷ []
unfolding scan_semantic_calls
nested_calls = refl

scan_semantic_calls-IsIncreasing_example :
    All (IsSite nested_query) (scan_semantic_calls nested_query)
    × IsIncreasing (scan_semantic_calls nested_query)
scan_semantic_calls-IsIncreasing_example = scan_semantic_calls-IsIncreasing nested_query

scan-AlwaysEnds_example : AlwaysEnds (scan_turn nested_query) found_sites (length nested_query)
scan-AlwaysEnds_example = scan-AlwaysEnds nested_query

-- sem_a((.))
abbrev bare_query : Bytes
bare_query = 115 ∷ 101 ∷ 109 ∷ 95 ∷ 97 ∷ 40 ∷ 40 ∷ 46 ∷ 41 ∷ 41 ∷ []

-- It ends with the outer parenthesis.
bare_end : ends (scan_semantic_calls bare_query) ≡ 10 ∷ []
unfolding scan_semantic_calls
bare_end = refl

bare_query-IsBare : IsBare bare_query
bare_query-IsBare = (
  (refl, refl),
  (
    (refl, refl),
    (
      (refl, refl),
      (
        (refl, refl),
        (
          (refl, refl),
          ((refl, refl), ((refl, refl), ((refl, refl), ((refl, refl), ((refl, refl), tt))))),
        ),
      ),
    ),
  ),
)

scan_semantic_calls-IsBalanced_example :
    All (IsBalanced bare_query) (scan_semantic_calls bare_query)
scan_semantic_calls-IsBalanced_example = scan_semantic_calls-IsBalanced bare_query bare_query-IsBare
