-- ===== src/Daemon/Tick.antt =====
-- One polling pass of the daemon: keeper-rs/src/main.rs, `tick`.
use sorocron.Base.{
  ℕ, zero, suc, ◌+◌, ◌-◌, ◌*◌, Bool, Option, none, some, List, [], ◌∷◌, ◌++◌, ltb, if◌then◌else◌,
  is_some,
}
use sorocron.Base.Int.{ℤ, pos, ◌+ℤ◌}
use sorocron.Base.Word.{wrap_i128}
use sorocron.Base.Lists.{length}
use sorocron.Base.Dict.{Dict, find, put}
use sorocron.Daemon.{
  Config, Rpc, BatchOutcome, executed, simulated, skipped, unprofitable, job_problem, broken,
  batches, halves, execute_batch,
}

pub record TickSummary : Type 0 where
  pub checked : ℕ
  pub due : ℕ
  pub batches : ℕ
  pub executed : ℕ
  pub skipped : ℕ
  pub unprofitable : ℕ
  pub failed : ℕ
  pub earned : ℤ
  pub quarantined : ℕ

abbrev no_summary : TickSummary
no_summary = record {
  checked = 0;
  due = 0;
  batches = 0;
  executed = 0;
  skipped = 0;
  unprofitable = 0;
  failed = 0;
  earned = pos 0;
  quarantined = 0;
}

-- The jobs set aside, each until a tick.
pub record Quarantine : Type 0 where
  pub until : Dict ℕ
  pub tick : ℕ

abbrev quarantine_ticks : ℕ
quarantine_ticks = 30

unfoldable retain : ℕ → Dict ℕ → Dict ℕ
retain tick [] = []
retain tick (e ∷ d) = let rest = retain tick d in if ltb tick e.1 then e ∷ rest else rest

unfoldable pub next : Quarantine → Quarantine
unfolding retain
next q = record { until = retain (q.tick + 1) q.until; tick = q.tick + 1 }

-- The jobs that are not set aside.
unfoldable pub free : Quarantine → List ℕ → List ℕ
free q [] = []
free q (id ∷ ids) = let rest = free q ids in if is_some (find id q.until) then rest else id ∷ rest

abbrev pub singles : List ℕ → List (List ℕ)
singles [] = []
singles (id ∷ ids) = (id ∷ []) ∷ singles ids

-- What a pass carries through its loop.
pub record Pass : Type 0 where
  pub queue : List (List ℕ)
  pub quarantine : Quarantine
  pub summary : TickSummary

-- A job problem of one job, whose batch is that job, or of several.
abbrev pub blamed : List ℕ → Pass → Pass
blamed [] p = p
blamed (id ∷ []) p = record p {
  quarantine = record (p.quarantine) {
    until = put id (p.quarantine.tick + quarantine_ticks) p.quarantine.until;
  };
  summary = record (p.summary) {
    quarantined = p.summary.quarantined + 1;
    skipped = p.summary.skipped + 1;
  };
}
blamed (id ∷ (other ∷ ids)) p = record p { queue = p.queue ++ singles (id ∷ other ∷ ids) }

-- The halves go to the front, the first one first.
abbrev pub split : ℕ → List ℕ → Pass → Pass
split size ran p = record p {
  queue = (halves ran).0 ∷ (halves ran).1 ∷ p.queue;
  summary = record (p.summary) { skipped = p.summary.skipped + (size - length ran) };
}

-- The arm of the match for an outcome of a batch.
unfoldable pub settle : List ℕ → BatchOutcome → Pass → Pass
unfolding halves
settle batch job_problem p = blamed batch p
settle batch (executed ran earned) p = record p {
  summary = record (p.summary) {
    batches = p.summary.batches + 1;
    executed = p.summary.executed + length ran;
    skipped = p.summary.skipped + (length batch - length ran);
    earned = wrap_i128 (p.summary.earned +ℤ earned);
  };
}
settle batch (simulated ran) p = record p {
  summary = record (p.summary) {
    executed = p.summary.executed + length ran;
    skipped = p.summary.skipped + (length batch - length ran);
  };
}
settle batch skipped p = record p {
  summary = record (p.summary) { skipped = p.summary.skipped + length batch };
}
settle batch (unprofitable ran earned cost) p =
    if ltb 1 (length ran) then split (length batch) ran p else record p {
      summary = record (p.summary) {
        unprofitable = p.summary.unprofitable + length ran;
        skipped = p.summary.skipped + (length batch - length ran);
      };
    }
settle batch broken p = record p {
  summary = record (p.summary) { failed = p.summary.failed + length batch };
}

module _ {X : Type 0} (rpc : Rpc X) (config : Config) (fee_is_native : Bool) where
  -- The `while let` loop; `none` is the end of the fuel.
  unfoldable pub run_queue :
      ℕ → List (List ℕ) → Quarantine → TickSummary → X → Option (Quarantine × TickSummary × X)
  run_queue fuel [] q s x = some (q, s, x)
  run_queue zero (batch ∷ rest) q s x = none
  run_queue (suc fuel) (batch ∷ rest) q s x =
      let (outcome, y) = execute_batch rpc config fee_is_native batch x in
      let p = settle batch outcome (record { queue = rest; quarantine = q; summary = s }) in
      run_queue fuel p.queue p.quarantine p.summary y

  abbrev pub listed : Bool → ℕ → Option (List ℕ) → Option (List ℕ)
  listed due id none = none
  listed due id (some ids) = some (if due then id ∷ ids else ids)

  -- The loop over the job ids from `id` on, as many as the first number says.
  unfoldable pub due_jobs : ℕ → ℕ → X → Option (List ℕ) × X
  due_jobs zero id x = (some [], x)
  due_jobs (suc left) id x =
      let (answer, y) = rpc.is_due id x in
      let (later, z) = due_jobs left (id + 1) y in
      elim answer [ none ↦ (none, y) | some due ↦ (listed due id later, z) ]

  -- What a pass starts with once the due jobs are known.
  abbrev pub at_start : ℕ → List ℕ → List ℕ → TickSummary
  at_start count due left = record no_summary {
    checked = count;
    due = length due;
    quarantined = length due - length left;
    skipped = length due - length left;
  }

  abbrev finished :
      Quarantine → X → Option (Quarantine × TickSummary × X) → Option TickSummary × Quarantine × X
  finished q x none = (none, q, x)
  finished q x (some (r, s, y)) = (some s, r, y)

  abbrev pub work : ℕ → ℕ → List ℕ → Quarantine → X → Option TickSummary × Quarantine × X
  work batch_size count due q x =
      let left = free q due in
      finished q x
        (run_queue (2 * length left) (batches left batch_size) q (at_start count due left) x)

  -- What follows the loop over the job ids, and what follows the count of jobs; `?` ends the pass.
  abbrev pass_over : ℕ → ℕ → Quarantine → Option (List ℕ) × X → Option TickSummary × Quarantine × X
  pass_over batch_size count q (none, z) = (none, q, z)
  pass_over batch_size count q (some due, z) = work batch_size count due q z

  abbrev look_up : ℕ → Quarantine → Option ℕ × X → Option TickSummary × Quarantine × X
  look_up batch_size q (none, y) = (none, q, y)
  look_up batch_size q (some count, y) = pass_over batch_size count q (due_jobs count 0 y)

  -- The result, the quarantine and the network afterwards.
  unfoldable pub tick : ℕ → Quarantine → X → Option TickSummary × Quarantine × X
  unfolding next run_queue due_jobs free
  tick batch_size quarantine x = look_up batch_size (next quarantine) (rpc.job_count x)
