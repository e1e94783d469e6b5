-- ===== src/Registry/Tests/Services.antt =====
-- Exits, pages, new jobs, windows and misses at the sample registry.
use sorocron.Base.{ℕ, ◌≤◌, ◌≡◌, refl, ◌↔◌, inl, true, some, List, [], ◌∷◌, arith, min}
use sorocron.Base.Int.{pos, ◌-ℤ◌}
use sorocron.Base.Word.{sat_add}
use sorocron.Base.Lists.{length, contains}
use sorocron.Base.Dict.{find, delete}
use sorocron.Registry.Types.{Address}
use sorocron.Registry.Storage.{get_job_parts, job_view}
use sorocron.Registry.Host.{World, Outcome, returns}
use sorocron.Registry.Assignment.{assigned_keeper_for}
use sorocron.Registry.Jobs.{create_jobs, cancel_job, withdraw_job_balance}
use sorocron.Registry.Keepers.{withdraw_stake}
use sorocron.Registry.Keepers.Exits.{
  cancel_job-exits, withdraw_job_balance-exits, withdraw_stake-exits,
}
use sorocron.Registry.Views.{get_jobs, max_get_jobs_limit}
use sorocron.Registry.Views.Pages.{Lists, InRange, get_jobs_lem}
use sorocron.Registry.Execution.Misses.{SameFunds, note_miss_lem}
use sorocron.Registry.Assignment.Choice.{MayExecute, assigned_keeper_for-total}
use sorocron.Registry.Tests.Sample.{Ledger, host, spec, state, keeper, store, world, params, move}
use sorocron.Registry.Execution.{note_miss}

cancel_job-exits_example :
    (v : World Ledger) × (cancel_job (host 1030) 0 world ≡ returns (pos 100) v)
    × (v.outside ≡ move 2 9 6 (pos 100) world.outside)
    × (v.store.states ≡ delete 0 store.states)
    × (v.store.specs ≡ delete 0 store.specs)
    × (v.store.keepers ≡ store.keepers)
unfolding get_job_parts find
cancel_job-exits_example =
    cancel_job-exits (host 1030) world (move 2 9 6 (pos 100) world.outside) 0 spec state refl refl
      (inl (omega arith, refl))

withdraw_job_balance-exits_example :
    (v : World Ledger) × (withdraw_job_balance (host 1030) 0 (pos 30) world
      ≡ returns (pos 100 -ℤ pos 30) v)
    × (v.outside ≡ move 2 9 6 (pos 30) world.outside)
unfolding get_job_parts find ◌-ℤ◌
withdraw_job_balance-exits_example =
    withdraw_job_balance-exits (host 1030) world (move 2 9 6 (pos 30) world.outside) 0 (pos 30) spec
      state refl refl (omega arith) (omega arith) refl refl

withdraw_stake-exits_example :
    (v : World Ledger) × (withdraw_stake (host 1030) 10 world ≡ returns (pos 50) v)
    × (v.outside ≡ move 3 9 10 (pos 50) world.outside)
    × (v.store.keepers ≡ delete 10 store.keepers)
unfolding find
withdraw_stake-exits_example =
    withdraw_stake-exits (host 1030) world (move 3 9 10 (pos 50) world.outside) 10
      (record keeper { unbonding_at = some 900 }) 900 refl refl refl (omega arith)
      (inl (omega arith, refl))

get_jobs_lem_example :
    (Lists (get_jobs store 0 20) (job_view 0 spec state)
      ↔ InRange store 0 (min (sat_add 0 (min 20 max_get_jobs_limit)) 1) (job_view 0 spec state))
    × (length (get_jobs store 0 20) ≤ 50)
get_jobs_lem_example = get_jobs_lem store 0 20 (job_view 0 spec state)

abbrev two_jobs : Outcome Ledger (List ℕ)
two_jobs = create_jobs (host 1030) 6 (params ∷ params ∷ []) (pos 50 ∷ pos 20 ∷ []) world

four-MayExecute : (a : Address) → contains (4 ∷ []) a ≡ true → MayExecute store a
unfolding find
four-MayExecute a h =
    let here : 4 ≡ a = ground arith in
    rw (← here) (keeper, refl, record { bonded = refl; staked = omega arith })

assigned_keeper_for-total_example :
    (a : Address) × (assigned_keeper_for (host 1030) store 0 spec state ≡ some a)
assigned_keeper_for-total_example =
    assigned_keeper_for-total (host 1030) store 0 spec state (omega arith) (omega arith)
      four-MayExecute

-- Keeper 11 runs the job after the whole window of keeper 4.
note_miss_lem_example :
    (v : World Ledger) × (note_miss (host 1030) 11 0 spec 1000 (some 4) world ≡ returns tt v)
    × SameFunds world v
note_miss_lem_example = note_miss_lem (host 1030) 11 0 spec 1000 (some 4) world
