-- ===== src/Engine/Resolve/Budget.antt =====
-- The call cap, and the count of judgements that reach the backend.
use native.Mathlib.Nat.{add-zero}
use ajq.Prelude.{
  ℕ, suc, ◌+◌, ◌≤◌, ◌<◌, String, Bool, List, [], ◌∷◌, ◌++◌, Option, none, some, ◌≡◌, refl, ap, inl,
  inr, arith, length, Bool-cases, Option-cases, ◌==◌,
}
use ajq.Result.{Result, ok, err, Result-cases}
use ajq.Value.{ℤ, pos, negsuc}
use ajq.Backend.{Judgement, Answer}
use ajq.Cache.{DiskOps, get}
use ajq.Cache.Canonical.{Json}
use ajq.Cache.Key.{key_for_judgement}
use ajq.Engine.{Runtime, RunStats, check_max_calls}
use ajq.Engine.Resolve.{
  Pending, Gather, ResolveError, note, note_miss, is_pending, gather, dispatch, receive, commit,
  first_failure, after_gather, resolve, sending, batch, spent, count_hit, count_calls,
}

-- How many judgements the batches hold.
abbrev pub total_sent : List (List Judgement) → ℕ
total_sent [] = 0
total_sent (b ∷ bs) = length b + total_sent bs

pub total_sent-append :
    (bs cs : List (List Judgement)) → total_sent (bs ++ cs) ≡ total_sent bs + total_sent cs
total_sent-append [] cs = omega arith
total_sent-append (b ∷ bs) cs = omega (arith, total_sent-append bs cs)

pub length-batch : (ps : List Pending) → length (batch ps) ≡ length ps
unfolding batch
length-batch [] = refl
length-batch (p ∷ ps) = ap suc (length-batch ps)

-- Statistics are kept, with this many calls.
abbrev pub Counts : Option RunStats → ℕ → Type 0
Counts none n = ⊥
Counts (some st) n = st.post_dedup_backend_calls ≡ n

pub Counts-spent : (o : Option RunStats) {n : ℕ} → Counts o n → spent o ≡ n
Counts-spent none h = absurd h
Counts-spent (some st) h = h

pub Counts-count_hit : (o : Option RunStats) (n : ℕ) → Counts o n → Counts (count_hit o) n
Counts-count_hit none n h = h
Counts-count_hit (some st) n h = h

pub Counts-count_calls :
    (c : ℕ) (o : Option RunStats) (n : ℕ) → Counts o n → Counts (count_calls c o) (n + c)
Counts-count_calls c none n h = h
Counts-count_calls c (some st) n h = omega arith

-- An accepted batch fits under the cap.
pub check_max_calls_fits :
    (c : ℤ) (n k : ℕ) (paid : Bool) (cap : ℕ)
    → check_max_calls c n k paid ≡ none
    → c ≡ pos cap
    → 0 < cap
    → n ≤ cap
    → n + k ≤ cap
unfolding check_max_calls
check_max_calls_fits (pos c) n k paid cap h e p q =
    let same : c ≡ cap = ap pos_part e in ground arith
  where
    pos_part : ℤ → ℕ
    pos_part (pos n) = n
    pos_part (negsuc n) = 0
check_max_calls_fits (negsuc c) n k paid cap h e p q = cc e

module _ (disk : DiskOps) where
  Counts-note :
      (p : Pending) (g : Gather disk) (n : ℕ) → Counts g.stats n → Counts (note disk p g).stats n
  unfolding note note_miss
  Counts-note p g n h = elim (Option-cases (get disk g.cache p.key).0) [
    | inl miss ↦
        rw (miss, note)
          (elim (Bool-cases (is_pending p.key g.pending)) [ inl e ↦ rw e h | inr e ↦ rw e h ])
    | inr (r, hit) ↦ rw (hit, note) (Counts-count_hit g.stats n h)
  ]

  stats-commit :
      (rt : Runtime disk) (ps : List Pending) (rs : List Answer)
      → ((commit disk rt ps rs).0.stats ≡ rt.stats) × ((commit disk rt ps rs).0.sent ≡ rt.sent)
  unfolding commit
  stats-commit rt ps rs = elim (Option-cases (first_failure 0 ps rs)) [
    | inl fine ↦ rw (fine, commit) (refl, refl)
    | inr (x, bad) ↦ rw (bad, commit) (refl, refl)
  ]

  pub stats-receive :
      (rt : Runtime disk) (fr : ℕ) (ps : List Pending) (r : Result String (List Answer))
      → ((receive disk rt fr ps r).0.stats ≡ rt.stats)
        × ((receive disk rt fr ps r).0.sent ≡ rt.sent)
  unfolding receive
  stats-receive rt fr ps (err e) = (refl, refl)
  stats-receive rt fr ps (ok rs) = elim (Bool-cases (length rs == length ps)) [
    | inl same ↦ rw same (stats-commit rt ps rs)
    | inr differ ↦ rw differ (refl, refl)
  ]

-- What one call of `resolve` may do to the counts, starting at `n` calls and `t` judgements sent.
pub record Accounts (cap n t : ℕ) (stats : Option RunStats) (sent : List (List Judgement))
    : Type 0 where
  pub calls : ℕ
  pub counted : Counts stats (n + calls)
  pub sent_calls : total_sent sent ≡ t + calls
  pub capped : n + calls ≤ cap

module _ (disk : DiskOps) (json : Json)
    (judge : List (List Judgement) → List Judgement → Result String (List Answer)) (cap : ℕ)
    (positive : 0 < cap) where
  Counts-gather :
      (frames : List ℕ) (i : ℕ) (js : List Judgement) (g : Gather disk) (n : ℕ)
      → Counts g.stats n
      → Counts (gather disk json judge frames i js g).0.stats n
  unfolding gather
  Counts-gather frames i [] g n h = h
  Counts-gather frames i (j ∷ js) g n h = elim (Result-cases (key_for_judgement json j)) [
    | inl (e, q) ↦ rw (q, gather) h
    | inr (k, q) ↦ rw (q, gather) (Counts-gather frames (i + 1) js _ n (Counts-note disk _ g n h))
  ]

  dispatch-Accounts :
      (rt : Runtime disk) (ps : List Pending) (n : ℕ)
      → rt.max_calls ≡ pos cap
      → Counts rt.stats n
      → n ≤ cap
      → Accounts cap n
          (total_sent rt.sent)
          (dispatch disk json judge rt ps).0.stats
          (dispatch disk json judge rt ps).0.sent
  unfolding dispatch
  dispatch-Accounts rt [] n e h le = record {
    calls = 0;
    counted = rw add-zero h;
    sent_calls = omega arith;
    capped = omega arith;
  }
  dispatch-Accounts rt (p ∷ ps) n e h le =
      elim (Option-cases (
        check_max_calls rt.max_calls (spent rt.stats) (length (p ∷ ps))
          rt.max_calls_default_paid)) [
            | inr (x, over) ↦
                rw (over, dispatch)
                  (record {
                    calls = 0;
                    counted = rw add-zero h;
                    sent_calls = omega arith;
                    capped = omega arith;
                  })
            | inl fine ↦
                rw (fine, dispatch)
                  (record {
                    calls = length (p ∷ ps);
                    counted = rw (kept.0) (Counts-count_calls (length (p ∷ ps)) rt.stats n h);
                    sent_calls =
                        rw (kept.1, total_sent-append) (omega (arith, length-batch (p ∷ ps)));
                    capped =
                        check_max_calls_fits rt.max_calls n (length (p ∷ ps))
                          rt.max_calls_default_paid cap (rw (Counts-spent rt.stats h) at fine) e
                          positive le;
                  })
          ]
    where
      answer : Result String (List Answer)
      answer = judge rt.sent (batch (p ∷ ps))

      kept :
          ((receive disk (sending disk rt (p ∷ ps)) p.frame (p ∷ ps) answer).0.stats
            ≡ (sending disk rt (p ∷ ps)).stats)
          × ((receive disk (sending disk rt (p ∷ ps)) p.frame (p ∷ ps) answer).0.sent
              ≡ (sending disk rt (p ∷ ps)).sent)
      kept = stats-receive disk (sending disk rt (p ∷ ps)) p.frame (p ∷ ps) answer

  after_gather-Accounts :
      (rt : Runtime disk) (r : Gather disk × Option ResolveError) (n : ℕ)
      → rt.max_calls ≡ pos cap
      → Counts r.0.stats n
      → n ≤ cap
      → Accounts cap n
          (total_sent rt.sent)
          (after_gather disk json judge rt r).0.stats
          (after_gather disk json judge rt r).0.sent
  unfolding after_gather
  after_gather-Accounts rt (g, some x) n e h le = record {
    calls = 0;
    counted = rw add-zero h;
    sent_calls = omega arith;
    capped = omega arith;
  }
  after_gather-Accounts rt (g, none) n e h le = dispatch-Accounts _ g.pending n e h le

  -- With a positive cap, and statistics that count no more calls than the cap, one call of `resolve`,
  -- whether or not it fails and whatever the backend answers, adds to the counted calls exactly the
  -- number of judgements that it sends to the backend, and the count is still within the cap.
  pub resolve-Accounts :
      (rt : Runtime disk) (n : ℕ)
      → rt.max_calls ≡ pos cap
      → Counts rt.stats n
      → n ≤ cap
      → Accounts cap n
          (total_sent rt.sent)
          (resolve disk json judge rt).0.stats
          (resolve disk json judge rt).0.sent
  unfolding resolve
  resolve-Accounts rt n e h le =
      after_gather-Accounts rt _ n e
        (Counts-gather rt.collected_frames 0 rt.collected
          (record { cache = rt.cache; stats = rt.stats; pending = [] }) n h)
        le
