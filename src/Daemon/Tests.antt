-- ===== src/Daemon/Tests.antt =====
-- A pass over four due jobs, of which one stops every batch that it is in.
use sorocron.Base.{ℕ, ◌+◌, ◌≡◌, refl, true, false, some, [], ◌∷◌, if◌then◌else◌}
use sorocron.Base.Int.{pos, ◌+ℤ◌, ◌*ℤ◌, ◌-ℤ◌}
use sorocron.Base.Lists.{contains}
use sorocron.Daemon.{
  Config, Rpc, Entry, contract_fn, call_fails, simulated_call, executed, execute_batch, filter_ran,
  sum_fees, check_auth,
}
use sorocron.Daemon.Tick.{Quarantine, tick}
use sorocron.Daemon.Signing.{Sent, execute_batch-Sent}

abbrev config : Config
config = record {
  registry = 9;
  inclusion_fee = 100;
  dry_run = false;
  min_profit = pos 0;
  max_cost_per_job = pos 0;
}

abbrev entry : Entry
entry = record { root = contract_fn 9 0; sub_invocations = [] }

-- The state counts the transactions.
abbrev rpc : Rpc ℕ
rpc = record {
  job_count = λ x. (some 4, x);
  is_due = λ id x. (some true, x);
  simulate = λ ids x.
      if contains ids 2
      then (call_fails, x)
      else (simulated_call (entry ∷ []) (some (true ∷ false ∷ true ∷ [])) 50, x);
  current_fee = λ id x. (some (pos 200), x);
  send = λ ids auth x. (true, x + 1);
}

abbrev empty_quarantine : Quarantine
empty_quarantine = record { until = []; tick = 0 }

two_ran : execute_batch rpc config true (0 ∷ 1 ∷ 3 ∷ []) 7 ≡ (executed (0 ∷ 3 ∷ []) (pos 400), 8)
unfolding execute_batch filter_ran sum_fees check_auth ◌+ℤ◌ ◌*ℤ◌ ◌-ℤ◌
two_ran = refl

execute_batch-Sent_example : Sent rpc config true (0 ∷ 1 ∷ 3 ∷ []) (0 ∷ 3 ∷ []) (pos 400) 7 8
execute_batch-Sent_example =
    execute_batch-Sent rpc config true (0 ∷ 1 ∷ 3 ∷ []) (0 ∷ 3 ∷ []) (pos 400) 7 8 two_ran
