-- ===== src/Registry/Solvency/Payouts.antt =====
-- Solvency at the payments and at writing the keeper's record back:
-- contracts/registry/src/lib.rs, `settle` and `KeeperRecord::save`.
use sorocron.Base.{◌≡◌, ◌∙◌, ◌⊎◌, inl, inr, some, arith, Option-cases}
use sorocron.Base.Int.{ℤ, pos, ◌+ℤ◌, ◌≤ℤ◌, ltb_ℤ, int_laws}
use sorocron.Base.Dict.{find, put, Each-find, Each-put}
use sorocron.Registry.Types.{Address}
use sorocron.Registry.Storage.{set_keeper, set_keeper_recent}
use sorocron.Registry.Host.{Env, World, returns, when, transfer}
use sorocron.Registry.Host.Laws.{continue-returns}
use sorocron.Registry.Execution.{Payout, KeeperRecord, pay_treasury, settle, save}
use sorocron.Registry.Execution.Misses.{stake_at, HasStake, sum_by-put_same}
use sorocron.Registry.Solvency.{
  Custody, IsSolvent, Backed, jobs_total, stakes_total, Backed-mono, Backed-pay,
}
use sorocron.Registry.Solvency.Runs.{IsRunning}
use sorocron.Registry.Execution.Payments.{when-transfer, pay_treasury-moves}

regroup : (jobs k p : ℤ) → jobs +ℤ p +ℤ k ≡ jobs +ℤ (k +ℤ p)
regroup jobs k p = omega int_laws

drop_le : (jobs k p : ℤ) → pos 0 ≤ℤ k → jobs +ℤ p ≤ℤ jobs +ℤ (k +ℤ p)
drop_le jobs k p h = omega int_laws

le_plus : (jobs p : ℤ) → pos 0 ≤ℤ p → jobs ≤ℤ jobs +ℤ p
le_plus jobs p h = omega int_laws

module _ {X : Type 0} {registry : Address} {balance_of : Address → Address → X → ℤ} {env : Env X}
    (c : Custody registry balance_of env) (fee_token stake_token : Address) where
  -- A payment that may have been made leaves the rest backed.
  after_pay :
      (to : Address) (jobs stakes amount : ℤ) (x y : X)
      → pos 0 ≤ℤ amount
      → (env.transfer fee_token env.current_contract_address to amount x ≡ some y) ⊎ (y ≡ x)
      → Backed registry balance_of fee_token stake_token (jobs +ℤ amount) stakes x
      → Backed registry balance_of fee_token stake_token jobs stakes y
  after_pay to jobs stakes amount x y n (inl paid) b =
      Backed-pay c fee_token stake_token to jobs stakes amount x y n (rw (← c.here) paid) b
  after_pay to jobs stakes amount x y n (inr same) b = rw same (
      Backed-mono registry balance_of fee_token stake_token (jobs +ℤ amount) stakes jobs stakes x x
        (le_plus jobs amount n) (omega arith) (λ t. omega arith) b)

module _ {X : Type 0} {registry : Address} {balance_of : Address → Address → X → ℤ} {env : Env X}
    (c : Custody registry balance_of env) where
  pub settle-IsSolvent :
      (keeper : Address) (p : Payout) (w v : World X)
      → IsRunning registry balance_of w p
      → settle env w.store.config keeper p w ≡ returns tt v
      → IsSolvent registry balance_of v
  unfolding settle
  settle-IsSolvent keeper p w v s h =
      let config = w.store.config in
      let (_, w1, first, second) =
        continue-returns {A = Unit {0}}
          (when (ltb_ℤ (pos 0) p.keeper_fees)
            (transfer env config.fee_token env.current_contract_address keeper p.keeper_fees) w)
          (λ _ u. pay_treasury env config config.treasury p.protocol_fees u) h in
      let (store1, paid1) =
        when-transfer env _ config.fee_token env.current_contract_address keeper p.keeper_fees w w1
          first in
      let (store2, paid2) =
        pay_treasury-moves env config config.treasury p.protocol_fees w1 v second in
      let jobs = jobs_total w.store in
      let stakes = stakes_total w.store in
      let rest =
        after_pay c config.fee_token config.stake_token keeper (jobs +ℤ p.protocol_fees) stakes
          p.keeper_fees w.outside w1.outside s.keeper_part paid1
          (λ t. rw (regroup jobs p.keeper_fees p.protocol_fees) (s.backed t)) in
      let final : Backed registry balance_of config.fee_token config.stake_token jobs stakes
          v.outside =
        elim paid2 [
          | inl (to, paid) ↦
              after_pay c config.fee_token config.stake_token to jobs stakes p.protocol_fees
                w1.outside v.outside s.protocol_part (inl paid) rest
          | inr none_due ↦
              after_pay c config.fee_token config.stake_token keeper jobs stakes p.protocol_fees
                w1.outside v.outside s.protocol_part (inr none_due) rest
        ] in
      let same = store2 ∙ store1 in
      record {
        backed = rw same final;
        balances = rw same s.balances;
        fees = rw same s.fees;
        stakes = rw same s.stakes;
        share = rw same s.share;
      }

  -- The keeper's record is written back with the stake that it has.
  pub save-IsRunning :
      (keeper : Address) (r : KeeperRecord) (p : Payout) (w v : World X)
      → IsRunning registry balance_of w p
      → stake_at w.store keeper ≡ some r.info.stake
      → save env keeper r w ≡ returns tt v
      → IsRunning registry balance_of v p × (v.store.config ≡ w.store.config)
  unfolding save set_keeper set_keeper_recent
  save-IsRunning keeper r p w v s e h = elim (Option-cases (find keeper w.store.keepers)) [
    | inl missing ↦ ground arith
    | inr (info, found) ↦
        let same : r.info.stake ≡ info.stake = ground arith in
        let keepers : v.store.keepers ≡ put keeper r.info w.store.keepers = ground arith in
        let config : v.store.config ≡ w.store.config = ground arith in
        let states : v.store.states ≡ w.store.states = ground arith in
        let specs : v.store.specs ≡ w.store.specs = ground arith in
        let outside : v.outside ≡ w.outside = ground arith in
        let total = sum_by-put_same keeper w.store.keepers info r.info found same in
        (
          record {
            backed = rw (config, states, keepers, outside, total) s.backed;
            keeper_part = s.keeper_part;
            protocol_part = s.protocol_part;
            balances = rw states s.balances;
            fees = rw specs s.fees;
            stakes = rw keepers (
                Each-put HasStake keeper r.info w.store.keepers s.stakes
                  (rw same (Each-find HasStake keeper info w.store.keepers s.stakes found)));
            share = rw config s.share;
          },
          config,
        )
  ]
