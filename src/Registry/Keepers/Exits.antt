-- ===== src/Registry/Keepers/Exits.antt =====
-- The ways out of owners and keepers: contracts/registry/src/lib.rs, `cancel_job`,
-- `withdraw_job_balance`, `begin_unbonding` and `withdraw_stake`.
use sorocron.Base.{ℕ, ◌≤◌, ◌≡◌, ◌⊎◌, inl, inr, true, none, some, arith}
use sorocron.Base.Int.{ℤ, pos, ◌-ℤ◌, ◌≤ℤ◌, ◌<ℤ◌}
use sorocron.Base.Word.{in_i128}
use sorocron.Base.Dict.{find, delete}
use sorocron.Registry.Types.{Address, JobSpec, JobState, Keeper}
use sorocron.Registry.Storage.{
  get_job_parts, remove_job, remove_pending_owner, remove_owner_job, set_state, touch_job,
  remove_keeper,
}
use sorocron.Registry.Schedule.{unbonding_release}
use sorocron.Registry.Host.{Env, World, returns}
use sorocron.Registry.Host.Laws.{Outcome-cases}
use sorocron.Registry.Jobs.{touch, cancel_job, withdraw_job_balance}
use sorocron.Registry.Keepers.{begin_unbonding, release_stake, withdraw_stake, reset_windows}

-- The payment of `amount` to `to` succeeds and leaves the other contracts as `y`, or nothing is due.
abbrev pub Paid : {X : Type 0} → Env X → Address → Address → ℤ → X → X → Type 0
Paid env token to amount x y =
    ((pos 0 <ℤ amount) × (env.transfer token env.current_contract_address to amount x ≡ some y))
    ⊎ ((amount ≤ℤ pos 0) × (y ≡ x))

module _ {X : Type 0} (env : Env X) (w : World X) (y : X) where
  -- An owner can cancel a job whatever the administrator has set, paused or not: if the job
  -- exists, its owner signs and the fee token makes the payment, if one is due, `cancel_job`
  -- returns the whole balance, pays it out, and removes the job and no keeper.
  pub cancel_job-exits :
      (job_id : ℕ) (spec : JobSpec) (state : JobState)
      → get_job_parts w.store job_id ≡ some (spec, state)
      → env.authorized spec.owner ≡ true
      → Paid env w.store.config.fee_token spec.owner state.balance w.outside y
      → (v : World X) × (cancel_job env job_id w ≡ returns state.balance v)
        × (v.outside ≡ y)
        × (v.store.states ≡ delete job_id w.store.states)
        × (v.store.specs ≡ delete job_id w.store.specs)
        × (v.store.keepers ≡ w.store.keepers)
  unfolding cancel_job remove_job remove_pending_owner remove_owner_job
  cancel_job-exits job_id spec state e signed (inl (owed, paid)) =
      elim (Outcome-cases (cancel_job env job_id w)) [
        | inl (b, v, h) ↦ (v, ground arith, ground arith, ground arith, ground arith, ground arith)
        | inr (inl (f, v, h)) ↦ ground arith
        | inr (inr h) ↦ ground arith
      ]
  cancel_job-exits job_id spec state e signed (inr (none_due, same)) =
      elim (Outcome-cases (cancel_job env job_id w)) [
        | inl (b, v, h) ↦ (v, ground arith, ground arith, ground arith, ground arith, ground arith)
        | inr (inl (f, v, h)) ↦ ground arith
        | inr (inr h) ↦ ground arith
      ]

  -- An owner can withdraw any positive part of a job's balance whatever the administrator has
  -- set, paused or not: if the job exists, its owner signs, the rest fits the i128 and the fee
  -- token makes the payment, `withdraw_job_balance` returns the rest and pays the amount out.
  pub withdraw_job_balance-exits :
      (job_id : ℕ) (amount : ℤ) (spec : JobSpec) (state : JobState)
      → get_job_parts w.store job_id ≡ some (spec, state)
      → env.authorized spec.owner ≡ true
      → pos 0 <ℤ amount
      → amount ≤ℤ state.balance
      → in_i128 (state.balance -ℤ amount) ≡ true
      → env.transfer w.store.config.fee_token env.current_contract_address spec.owner amount
          w.outside
        ≡ some y
      → (v : World X) × (withdraw_job_balance env job_id amount w
          ≡ returns (state.balance -ℤ amount) v)
        × (v.outside ≡ y)
  unfolding withdraw_job_balance touch set_state touch_job
  withdraw_job_balance-exits job_id amount spec state e signed p le fits paid =
      elim (Outcome-cases (withdraw_job_balance env job_id amount w)) [
        | inl (b, v, h) ↦ (v, ground arith, ground arith)
        | inr (inl (f, v, h)) ↦ ground arith
        | inr (inr h) ↦ ground arith
      ]

  -- A keeper that is registered and not yet unbonding can begin to unbond whatever the
  -- administrator has set, paused or not, if it signs: `begin_unbonding` returns the end that the
  -- period and the epoch in force give, and moves no tokens.
  pub begin_unbonding-exits :
      (keeper : Address) (info : Keeper)
      → find keeper w.store.keepers ≡ some info
      → env.authorized keeper ≡ true
      → info.unbonding_at ≡ none
      → (v : World X) × (begin_unbonding env keeper w
          ≡ returns
              (unbonding_release env.timestamp w.store.config.unbonding_period
                w.store.config.unbonding_epoch)
              v)
        × (v.outside ≡ w.outside)
  unfolding begin_unbonding reset_windows
  begin_unbonding-exits keeper info e signed bonded =
      elim (Outcome-cases (begin_unbonding env keeper w)) [
        | inl (b, v, h) ↦ (v, ground arith, ground arith)
        | inr (inl (f, v, h)) ↦ ground arith
        | inr (inr h) ↦ ground arith
      ]

  -- A keeper whose unbonding has ended can withdraw whatever the administrator has set, paused or
  -- not: if it signs and the stake token makes the payment, if one is due, `withdraw_stake`
  -- returns the whole stake, pays it out and removes the keeper.
  pub withdraw_stake-exits :
      (keeper : Address) (info : Keeper) (at : ℕ)
      → find keeper w.store.keepers ≡ some info
      → env.authorized keeper ≡ true
      → info.unbonding_at ≡ some at
      → at ≤ env.timestamp
      → Paid env w.store.config.stake_token keeper info.stake w.outside y
      → (v : World X) × (withdraw_stake env keeper w ≡ returns info.stake v)
        × (v.outside ≡ y)
        × (v.store.keepers ≡ delete keeper w.store.keepers)
  unfolding withdraw_stake release_stake remove_keeper
  withdraw_stake-exits keeper info at e signed started over (inl (owed, paid)) =
      elim (Outcome-cases (withdraw_stake env keeper w)) [
        | inl (b, v, h) ↦ (v, ground arith, ground arith, ground arith)
        | inr (inl (f, v, h)) ↦ ground arith
        | inr (inr h) ↦ ground arith
      ]
  withdraw_stake-exits keeper info at e signed started over (inr (none_due, same)) =
      elim (Outcome-cases (withdraw_stake env keeper w)) [
        | inl (b, v, h) ↦ (v, ground arith, ground arith, ground arith)
        | inr (inl (f, v, h)) ↦ ground arith
        | inr (inr h) ↦ ground arith
      ]
