-- ===== src/Engine/Resolve.antt =====
-- `resolve` (internal/engine/semantic.go).
mod Covered
pub mod Gathered
mod Stored
pub mod Complete
pub mod Budget
pub mod Sends
pub mod Dedup
pub mod Vetted
pub mod Succeeds
pub mod SameRun
use ajq.Prelude.{
  ℕ, zero, suc, ◌+◌, String, Bool, true, false, not, ◌||◌, List, [], ◌∷◌, ◌++◌, Option, none, some,
  str_eq, ltb, ◌==◌, if◌then◌else◌, length, get_or,
}
use ajq.Result.{Result, ok, err, ◌>>=◌}
use ajq.Value.{ℤ, pos, negsuc}
use ajq.Schema.{SchemaError, for_judgement, validate}
use ajq.Backend.{Judgement, Answer}
use ajq.Cache.{DiskOps, Store, get, set}
use ajq.Cache.Canonical.{Json, KeyError}
use ajq.Cache.Key.{key_for_judgement}
use ajq.Engine.{
  Runtime, RunStats, check_max_calls, EngineError, bad_key, backend_failed, wrong_count,
  item_failed, item_invalid,
}

-- `execute_before` is exclusive, and negative if no frame of the window may be executed.
pub record ResolveError : Type 0 where
  pub frame : ℕ
  pub execute_before : ℤ
  pub error : EngineError

-- One position of the parallel slices pending, pendingKeys and pendingFrames.
pub record Pending : Type 0 where
  pub judgement : Judgement
  pub key : String
  pub frame : ℕ

-- The set `seen` holds the keys of `pending`.
unfoldable pub is_pending : String → List Pending → Bool
is_pending k [] = false
is_pending k (p ∷ ps) = str_eq p.key k || is_pending k ps

-- `frameForCollected`: 0 out of range.
abbrev pub frame_for_collected : List ℕ → ℕ → ℕ
frame_for_collected frames i = get_or frames i 0

abbrev pub count_hit : Option RunStats → Option RunStats
count_hit none = none
count_hit (some st) = some (record st { cache_hits = st.cache_hits + 1 })

abbrev pub count_calls : ℕ → Option RunStats → Option RunStats
count_calls n none = none
count_calls n (some st) =
    some (record st { post_dedup_backend_calls = st.post_dedup_backend_calls + n })

abbrev pub spent : Option RunStats → ℕ
spent none = 0
spent (some st) = st.post_dedup_backend_calls

-- No frame at or behind the unkeyed one, nor any that waits for a result.
unfoldable pub executable_prefix : ℕ → List Pending → ℕ
executable_prefix frame [] = frame
executable_prefix frame (p ∷ ps) = if ltb p.frame frame then p.frame else frame

unfoldable pub batch : List Pending → List Judgement
batch [] = []
batch (p ∷ ps) = p.judgement ∷ batch ps

-- `validateResult`
unfoldable pub validate_result : Judgement → Answer → Option SchemaError
validate_result j r = elim (for_judgement j) [ err e ↦ some e | ok c ↦ validate c r.value ]

abbrev checked : ℕ → String → Option SchemaError → Option EngineError
checked i op none = none
checked i op (some e) = some (item_invalid i op e)

unfoldable pub check_result : ℕ → Judgement → Answer → Option EngineError
check_result i j r =
    if str_eq r.error ""
    then checked i j.op (validate_result j r)
    else some (item_failed i j.op r.error)

-- The loop over the results: the first failing one, with what comes before it.
unfoldable pub first_failure : ℕ → List Pending → List Answer → Option (ℕ × ℕ × EngineError)
first_failure i [] rs = none
first_failure i (p ∷ ps) [] = none
first_failure i (p ∷ ps) (r ∷ rs) = elim (check_result i p.judgement r) [
  | some e ↦ some (i, p.frame, e)
  | none ↦ first_failure (i + 1) ps rs
]

module _ (disk : DiskOps) where
  pub record Gather : Type 0 where
    pub cache : Store disk
    pub stats : Option RunStats
    pub pending : List Pending

  -- One round of the loop over the collected judgements, once there is a key.
  pub note_miss : Pending → Gather → Gather
  note_miss p g =
      if is_pending p.key g.pending then g else record g { pending = g.pending ++ p ∷ [] }

  unfoldable pub note : Pending → Gather → Gather
  unfolding note_miss
  note p g =
      let (hit, cache') = get disk g.cache p.key in
      elim hit [
        | some r ↦ record g { cache = cache'; stats = count_hit g.stats }
        | none ↦ note_miss p (record g { cache = cache' })
      ]

  -- Stores the first `n` results.
  pub store_results : ℕ → List Pending → List Answer → Store disk → Store disk
  store_results zero ps rs s = s
  store_results (suc n) [] rs s = s
  store_results (suc n) (p ∷ ps) [] s = s
  store_results (suc n) (p ∷ ps) (r ∷ rs) s = store_results n ps rs (set disk s p.key r)

  pub commit : Runtime disk → List Pending → List Answer → Runtime disk × Option ResolveError
  commit rt ps rs = elim (first_failure 0 ps rs) [
    | none ↦ (record rt { cache = store_results (length ps) ps rs rt.cache }, none)
    | some (i, frame, e) ↦ (
      record rt { cache = store_results i ps rs rt.cache },
      some (record { frame = frame; execute_before = pos frame; error = e }),
    )
  ]

  abbrev pub nothing_runs : ℕ → EngineError → Option ResolveError
  nothing_runs frame e = some (record { frame = frame; execute_before = negsuc 0; error = e })

  pub receive :
      Runtime disk
      → ℕ
      → List Pending
      → Result String (List Answer)
      → Runtime disk × Option ResolveError
  receive rt frame ps (err e) = (rt, nothing_runs frame (backend_failed e))
  receive rt frame ps (ok rs) =
      if length rs == length ps
      then commit rt ps rs
      else (rt, nothing_runs frame (wrong_count (length rs) (length ps)))

  abbrev pub sending : Runtime disk → List Pending → Runtime disk
  sending rt ps = record rt {
    stats = count_calls (length ps) rt.stats;
    sent = rt.sent ++ batch ps ∷ [];
  }

  module _ (json : Json)
      (judge : List (List Judgement) → List Judgement → Result String (List Answer)) where
    pub gather : List ℕ → ℕ → List Judgement → Gather → Gather × Option ResolveError
    gather frames i [] g = (g, none)
    gather frames i (j ∷ js) g = elim (key_for_judgement json j) [
      | err e ↦
          let frame = frame_for_collected frames i in
          (
            g,
            some (record {
              frame = frame;
              execute_before = pos (executable_prefix frame g.pending);
              error = bad_key e;
            }),
          )
      | ok k ↦
          gather frames (i + 1) js
            (note (record { judgement = j; key = k; frame = frame_for_collected frames i }) g)
    ]

    pub dispatch : Runtime disk → List Pending → Runtime disk × Option ResolveError
    dispatch rt [] = (rt, none)
    dispatch rt (p ∷ ps) =
        elim (check_max_calls rt.max_calls (spent rt.stats) (length (p ∷ ps))
          rt.max_calls_default_paid) [
            | some e ↦ (rt, nothing_runs p.frame e)
            | none ↦ receive (sending rt (p ∷ ps)) p.frame (p ∷ ps) (judge rt.sent (batch (p ∷ ps)))
          ]

    pub after_gather :
        Runtime disk → Gather × Option ResolveError → Runtime disk × Option ResolveError
    after_gather rt (g, some e) = (record rt { cache = g.cache; stats = g.stats }, some e)
    after_gather rt (g, none) = dispatch (record rt { cache = g.cache; stats = g.stats }) g.pending

    -- An empty `collected` gathers nothing and dispatches nothing, as the early return does.
    unfoldable pub resolve : Runtime disk → Runtime disk × Option ResolveError
    unfolding gather dispatch after_gather receive commit store_results
    resolve rt = after_gather rt (
        gather rt.collected_frames 0 rt.collected
          (record { cache = rt.cache; stats = rt.stats; pending = [] }))
