-- ===== src/Registry/Execution/Payments.antt =====
-- The transfers at the end of `execute` and `execute_batch`: contracts/registry/src/lib.rs, `settle`.
use sorocron.Base.{
  ◌≡◌, ◌⊎◌, inl, inr, Bool, true, false, Option, none, some, arith, Option-cases, Bool-cases,
}
use sorocron.Base.Int.{ℤ, pos, ltb_ℤ, ◌≤ℤ◌, ◌<ℤ◌}
use sorocron.Registry.Types.{Address, Config}
use sorocron.Registry.Host.{Env, World, returns, when, transfer}
use sorocron.Registry.Execution.{pay_treasury}

module _ {X : Type 0} (env : Env X) where
  pub when-transfer :
      (b : Bool) (token from to : Address) (amount : ℤ) (w v : World X)
      → when b (transfer env token from to amount) w ≡ returns tt v
      → (v.store ≡ w.store)
        × ((env.transfer token from to amount w.outside ≡ some v.outside) ⊎ (v.outside ≡ w.outside))
  when-transfer true token from to amount w v h =
      elim (Option-cases (env.transfer token from to amount w.outside)) [
        | inl refused ↦ ground arith
        | inr (y, f) ↦ (ground arith, inl (ground arith))
      ]
  when-transfer false token from to amount w v h = (ground arith, inr (ground arith))

  pub pay_treasury-moves :
      (config : Config) (treasury : Option Address) (amount : ℤ) (w v : World X)
      → pay_treasury env config treasury amount w ≡ returns tt v
      → (v.store ≡ w.store)
        × (((to : Address) × (env.transfer config.fee_token env.current_contract_address to amount
                  w.outside
                ≡ some v.outside))
            ⊎ (v.outside ≡ w.outside))
  unfolding pay_treasury
  pay_treasury-moves config none amount w v h = (ground arith, inr (ground arith))
  pay_treasury-moves config (some to) amount w v h =
      let (store, moves) =
        when-transfer (ltb_ℤ (pos 0) amount) config.fee_token env.current_contract_address to amount
          w v h in
      (store, elim moves [ inl paid ↦ inl (to, paid) | inr none_due ↦ inr none_due ])

  -- A transfer of the amount, if it is positive.
  abbrev pub PaidTo : Address → Address → ℤ → X → X → Type 0
  PaidTo token to amount x y =
      ((pos 0 <ℤ amount) × (env.transfer token env.current_contract_address to amount x ≡ some y))
      ⊎ ((amount ≤ℤ pos 0) × (y ≡ x))

  -- The treasury's share stays with the registry where there is no treasury.
  abbrev pub TreasuryPaid : Config → ℤ → X → X → Type 0
  TreasuryPaid config amount x y = elim config.treasury [
    | none ↦ y ≡ x
    | some treasury ↦ PaidTo config.fee_token treasury amount x y
  ]

  pub when-PaidTo :
      (token to : Address) (amount : ℤ) (w v : World X)
      → when (ltb_ℤ (pos 0) amount) (transfer env token env.current_contract_address to amount) w
        ≡ returns tt v
      → PaidTo token to amount w.outside v.outside
  when-PaidTo token to amount w v h = elim (Bool-cases (ltb_ℤ (pos 0) amount)) [
    | inr none_due ↦ inr (ground arith, ground arith)
    | inl owed ↦
        elim (Option-cases (env.transfer token env.current_contract_address to amount w.outside)) [
          | inl refused ↦ ground arith
          | inr (y, f) ↦ inl (ground arith, ground arith)
        ]
  ]

  pub pay_treasury-TreasuryPaid :
      (config : Config) (amount : ℤ) (w v : World X)
      → pay_treasury env config config.treasury amount w ≡ returns tt v
      → TreasuryPaid config amount w.outside v.outside
  unfolding pay_treasury
  pay_treasury-TreasuryPaid config amount w v h = elim (Option-cases config.treasury) [
    | inl off ↦ rw off (ground arith)
    | inr (treasury, on) ↦ rw on (when-PaidTo config.fee_token treasury amount w v (ground arith))
  ]
