-- ===== src/Dispatch/Parallel/Invariant/Outside.antt =====
-- The start has the invariant; the sender and the world around keep it.
use ajq.Prelude.{ℕ, String, refl, arith}
use ajq.Result.{Result}
use ajq.Backend.{Answer}
use ajq.Dispatch.Parallel.{
  Pc, waiting, Shared, initial, Send, offer, break_checking, break_offering, all_sent, World,
  cancel_parent, propagate,
}
use ajq.Dispatch.Parallel.Invariant.{Inv}

module _ {callback : ℕ → Result String Answer} {len n : ℕ} where
  pub Inv-initial : Inv callback len n initial (λ w. waiting)
  Inv-initial = record {
    cause = λ h. cc;
    passed_on = λ h. cc;
    all_sent = λ k e h. cc;
    leaves = λ w h. cc;
    fresh = λ w. tt;
    valid = λ k r e. cc;
    failure_valid = λ k e h. cc;
    failure_behind = λ k e h. cc;
    within = omega arith;
    behind = λ w k e. cc;
    unique = λ v w k e f. cc;
    kept = λ k lt h. absurd (omega arith);
  }

  pub Send-Inv :
      {s s' : Shared} {pc : ℕ → Pc}
      → Send callback len s s'
      → Inv callback len n s pc
      → Inv callback len n s' pc
  Send-Inv {s} {pc = pc} (offer k at lt fine) inv = record {
    cause = inv.cause;
    passed_on = inv.passed_on;
    all_sent = λ j e h. cc;
    leaves = λ w h. ground (arith, inv.leaves w);
    fresh = inv.fresh;
    valid = inv.valid;
    failure_valid = inv.failure_valid;
    failure_behind = λ j e h. ground (arith, inv.failure_behind j e);
    within = ground (arith, inv.within);
    behind = λ w j e. ground (arith, inv.behind w j);
    unique = inv.unique;
    kept = λ j below h. inv.kept j (ground arith) h;
  }
  Send-Inv (break_checking k at done) inv = record {
    cause = inv.cause;
    passed_on = inv.passed_on;
    all_sent = λ j e h. ground (arith, inv.cause);
    leaves = λ w h. refl;
    fresh = inv.fresh;
    valid = inv.valid;
    failure_valid = inv.failure_valid;
    failure_behind = λ j e h. ground (arith, inv.failure_behind j e);
    within = ground (arith, inv.within);
    behind = λ w j e. ground (arith, inv.behind w j);
    unique = inv.unique;
    kept = λ j below h. inv.kept j (ground arith) h;
  }
  Send-Inv (break_offering k at done) inv = record {
    cause = inv.cause;
    passed_on = inv.passed_on;
    all_sent = λ j e h. ground (arith, inv.cause);
    leaves = λ w h. refl;
    fresh = inv.fresh;
    valid = inv.valid;
    failure_valid = inv.failure_valid;
    failure_behind = λ j e h. ground (arith, inv.failure_behind j e);
    within = ground (arith, inv.within);
    behind = λ w j e. ground (arith, inv.behind w j);
    unique = inv.unique;
    kept = λ j below h. inv.kept j (ground arith) h;
  }
  Send-Inv (all_sent k at le) inv = record {
    cause = inv.cause;
    passed_on = inv.passed_on;
    all_sent = λ j e h. ground arith;
    leaves = λ w h. refl;
    fresh = inv.fresh;
    valid = inv.valid;
    failure_valid = inv.failure_valid;
    failure_behind = λ j e h. ground (arith, inv.failure_behind j e);
    within = ground (arith, inv.within);
    behind = λ w j e. ground (arith, inv.behind w j);
    unique = inv.unique;
    kept = λ j below h. inv.kept j (ground arith) h;
  }

  pub World-Inv :
      {s s' : Shared} {pc : ℕ → Pc}
      → World callback len s s'
      → Inv callback len n s pc
      → Inv callback len n s' pc
  World-Inv {s} (cancel_parent e alive) inv = record {
    cause = λ h. ground arith;
    passed_on = inv.passed_on;
    all_sent = λ j at h. ground arith;
    leaves = λ w h. ground arith;
    fresh = inv.fresh;
    valid = inv.valid;
    failure_valid = inv.failure_valid;
    failure_behind = inv.failure_behind;
    within = inv.within;
    behind = inv.behind;
    unique = inv.unique;
    kept = λ j below h. ground arith;
  }
  World-Inv (propagate cancelled before) inv = record {
    cause = λ h. ground arith;
    passed_on = λ h. refl;
    all_sent = inv.all_sent;
    leaves = inv.leaves;
    fresh = inv.fresh;
    valid = inv.valid;
    failure_valid = inv.failure_valid;
    failure_behind = inv.failure_behind;
    within = inv.within;
    behind = inv.behind;
    unique = inv.unique;
    kept = inv.kept;
  }
