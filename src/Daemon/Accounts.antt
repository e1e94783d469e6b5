-- ===== src/Daemon/Accounts.antt =====
-- That a pass ends, and what it counts: keeper-rs/src/main.rs, `tick`.
use sorocron.Base.{ℕ, ◌+◌, ◌*◌, ◌-◌, ◌≤◌, ◌≡◌, List}
use sorocron.Base.Lists.{length}
use sorocron.Daemon.{executed, skipped, unprofitable}
use sorocron.Daemon.Batches.{jobs, rounds, Filled}
use sorocron.Daemon.Tick.{TickSummary, Pass}

-- The jobs that a summary has counted.
abbrev pub counted : TickSummary → ℕ
counted s = s.executed + s.skipped + s.unprofitable + s.failed

-- A round counts the batch or puts its jobs back, with fewer rounds to go.
pub record Round (batch : List ℕ) (p r : Pass) : Type 0 where
  pub all_counted :
      counted r.summary + jobs r.queue ≡ counted p.summary + length batch + jobs p.queue
  pub fewer : rounds r.queue + 1 ≤ (2 * length batch - 1) + rounds p.queue
  pub filled : Filled r.queue
  pub same_due : r.summary.due ≡ p.summary.due
  pub same_checked : r.summary.checked ≡ p.summary.checked
