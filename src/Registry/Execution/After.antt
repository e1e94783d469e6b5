-- ===== src/Registry/Execution/After.antt =====
-- The state of a job after a run, described field by field: contracts/registry/src/lib.rs, `run_job`.
use sorocron.Base.{
  ℕ, ◌+◌, ◌-◌, ◌*◌, ◌≤◌, ◌<◌, ◌≡◌, ◌⊎◌, refl, min, max, true, false, some, arith, Option-cases, inl,
  inr,
}
use sorocron.Base.Int.{ℤ, pos, ◌-ℤ◌}
use sorocron.Base.Word.{u32_max, u64_max, i128_bound}
use sorocron.Base.Dict.{find}
use sorocron.Registry.Types.{Config, JobSpec, JobState}
use sorocron.Registry.Storage.{Storage}
use sorocron.Registry.Result.{ok}
use sorocron.Registry.Host.{CallResult, value, unconverted, contract_error, invoke_error}
use sorocron.Registry.Checks.{dependency_met}
use sorocron.Registry.Schedule.{ramped_fee, split_fee, next_run_after}
use sorocron.Registry.Schedule.Fees.{ramped_fee_bounds}
use sorocron.Registry.Schedule.Grid.{next_run_after_grid}
use sorocron.Registry.Execution.{Charge, succeeded, state_after, charge_run}
use sorocron.Registry.Execution.Guards.{IsDue}

-- A call that went well clears the failures; one that did not adds one, and the job is paused once they
-- reach the largest number, if there is one.
abbrev pub Cleared : JobState → Type 0
Cleared next = (next.failures ≡ 0) × (next.active ≡ true)

abbrev pub Failed : Config → JobState → JobState → Type 0
Failed config state next =
    (next.failures ≡ min (state.failures + 1) u32_max)
    × (config.max_failures ≡ 0 → next.active ≡ true)
    × (next.failures < config.max_failures → next.active ≡ true)
    × (0 < config.max_failures → config.max_failures ≤ next.failures → next.active ≡ false)

abbrev pub Ends : Config → JobState → JobState → CallResult → Type 0
Ends config state next (value v) = Cleared next
Ends config state next unconverted = Cleared next
Ends config state next (contract_error e) = Failed config state next
Ends config state next invoke_error = Failed config state next

-- The first time on the grid of the scheduled runs that is after both `now` and the run.
abbrev pub OnGrid : ℕ → ℕ → ℕ → ℕ → Type 0
OnGrid scheduled interval now next =
    0 < interval
    → now - scheduled < u64_max
    → (k : ℕ) × (next ≡ min (scheduled + k * interval) u64_max)
      × (0 < k)
      × (now < scheduled + k * interval)
      × ((k ≡ 1) ⊎ (scheduled + (k - 1) * interval ≤ now))

-- The fee of a funded job: its base fee at least, its balance and the larger of base fee and ceiling at
-- most, the base fee on time and the ceiling a full interval late.
abbrev pub FairFee : JobSpec → JobState → ℕ → ℤ → Type 0
FairFee spec state now fee =
    (b c m : ℕ)
    → spec.fee_per_run ≡ pos b
    → spec.max_fee_per_run ≡ pos c
    → b < i128_bound
    → c < i128_bound
    → state.balance ≡ pos m
    → (n : ℕ) × (fee ≡ pos n)
      × (b ≤ n)
      × (n ≤ m)
      × (n ≤ max b c)
      × (now ≤ state.next_run → n ≡ b)
      × (0 < spec.interval → b ≤ c → state.next_run + spec.interval ≤ now → n ≡ min c m)

-- A job that follows another one ran because that one has run since; the count it saw is kept.
abbrev pub Followed : Storage → JobSpec → JobState → JobState → Type 0
Followed s spec state next =
    (leader : ℕ)
    → spec.after ≡ some leader
    → (l : JobState) × (find leader s.states ≡ some l)
      × (state.leader_runs < l.runs)
      × (next.leader_runs ≡ l.runs)

pub record AfterRun (config : Config) (now : ℕ) (s : Storage) (spec : JobSpec) (state : JobState)
    (result : CallResult) (fee : ℤ) (next : JobState) : Type 0 where
  pub counted : next.runs ≡ min (state.runs + 1) u32_max
  pub ends : Ends config state next result
  pub on_grid : OnGrid state.next_run spec.interval now next.next_run
  pub charged : next.balance ≡ state.balance -ℤ fee
  pub fair : FairFee spec state now fee
  pub followed : Followed s spec state next

pub charge_run-facts :
    (config : Config) (now : ℕ) (spec : JobSpec) (state : JobState) (c : Charge)
    → charge_run config now spec state ≡ some c
    → (ramped_fee spec state now ≡ some c.fee)
      × (split_fee c.fee config.protocol_fee_bps ≡ some (c.keeper_fee, c.protocol_fee))
      × (next_run_after state.next_run spec.interval now ≡ some c.next_run)
      × (c.balance ≡ state.balance -ℤ c.fee)
unfolding charge_run
charge_run-facts config now spec state c h = elim (Option-cases (ramped_fee spec state now)) [
  | inl overflow ↦ ground arith
  | inr (fee, ef) ↦ elim (Option-cases (split_fee fee config.protocol_fee_bps)) [
    | inl overflow ↦ ground arith
    | inr ((k, p), es) ↦ (ground arith, ground arith, ground arith, ground arith)
  ]
]

ends :
    (config : Config) (state : JobState) (result : CallResult) (seen next_run : ℕ) (balance : ℤ)
    → state.active ≡ true
    → Ends config state (state_after config state (succeeded result) seen next_run balance) result
unfolding state_after
ends config state (value v) seen next_run balance active = (refl, active)
ends config state unconverted seen next_run balance active = (refl, active)
ends config state (contract_error e) seen next_run balance active =
    (refl, λ h. ground arith, λ h. ground arith, λ h k. ground arith)
ends config state invoke_error seen next_run balance active =
    (refl, λ h. ground arith, λ h. ground arith, λ h k. ground arith)

followed :
    (config : Config) (s : Storage) (spec : JobSpec) (state : JobState) (result : CallResult)
    (seen next_run : ℕ) (balance : ℤ)
    → dependency_met s spec state ≡ ok seen
    → Followed s spec state (state_after config state (succeeded result) seen next_run balance)
unfolding dependency_met state_after
followed config s spec state result seen next_run balance h leader e =
    elim (Option-cases (find leader s.states)) [
      | inl missing ↦ ground arith
      | inr (l, f) ↦ (l, f, ground arith, ground arith)
    ]

pub state_after-AfterRun :
    (config : Config) (now : ℕ) (s : Storage) (spec : JobSpec) (state : JobState)
    (result : CallResult) (seen : ℕ) (c : Charge)
    → charge_run config now spec state ≡ some c
    → IsDue spec state now
    → dependency_met s spec state ≡ ok seen
    → AfterRun config now s spec state result c.fee
        (state_after config state (succeeded result) seen c.next_run c.balance)
unfolding state_after
state_after-AfterRun config now s spec state result seen c charged due leader =
    let (fee, split, next, left) = charge_run-facts config now spec state c charged in
    record {
      counted = refl;
      ends = ends config state result seen c.next_run c.balance due.running;
      on_grid = λ h late.
          let (k, e, some_k, after, first) =
            next_run_after_grid state.next_run spec.interval now h late in
          (k, ground arith, some_k, after, first);
      charged = left;
      fair = λ b ceiling m eb ec hb hc em.
          let (n, e, low, funded, high, early, late) =
            ramped_fee_bounds spec state b ceiling m now eb ec hb hc em
              (ground (arith, due.funded)) in
          (n, ground arith, low, funded, high, early, late);
      followed = followed config s spec state result seen c.next_run c.balance leader;
    }
