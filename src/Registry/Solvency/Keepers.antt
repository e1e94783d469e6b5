-- ===== src/Registry/Solvency/Keepers.antt =====
-- Solvency at staking: contracts/registry/src/lib.rs, "Keepers".
use mathlib.Core.Path.{subst}
use sorocron.Base.{
  ℕ, ◌≡◌, refl, ap, sym, ◌∙◌, ◌⊎◌, inl, inr, true, some, List, [], ◌∷◌, arith, Option-cases,
  Bool-cases, unwrap_or,
}
use sorocron.Base.Int.{ℤ, pos, ◌+ℤ◌, ◌≤ℤ◌, ◌<ℤ◌, ltb_ℤ, pos_part, neg_part, int_laws}
use sorocron.Base.Dict.{
  Dict, find, put, delete, sum_by, sum_by-put, sum_by-put_new, sum_by-delete, Each, Each-find,
  Each-put, Each-delete,
}
use sorocron.Registry.Types.{Address, Config, Keeper, Error}
use sorocron.Registry.Storage.{set_keeper, remove_keeper, add_active_keeper, remove_active_keeper}
use sorocron.Registry.Host.{Env, World, returns, fails}
use sorocron.Registry.Host.Laws.{Outcome-cases}
use sorocron.Registry.Keepers.{
  new_keeper, stake, begin_unbonding, release_stake, withdraw_stake, release_or_zero, release_each,
  withdraw_stakes,
}
use sorocron.Registry.Execution.Misses.{stake_of, HasStake, sum_by-put_same}
use sorocron.Registry.Solvency.{
  Custody, IsSolvent, IsSolvent-after, Backed, balance_in, jobs_total, stakes_total, Backed-mono,
  Backed-stake, Backed-release,
}

-- The stakes after one keeper's stake was raised, also that of a new keeper.
stakes-raise :
    (k : Address) (new : Keeper) (amount : ℤ) (d : Dict Keeper)
    → new.stake ≡ (unwrap_or (find k d) new_keeper).stake +ℤ amount
    → sum_by stake_of (put k new d) ≡ sum_by stake_of d +ℤ amount
stakes-raise k new amount d e = elim (Option-cases (find k d)) [
  | inl missing ↦
      let f : new.stake ≡ pos 0 +ℤ amount = rw missing at e in
      let p = sum_by-put_new stake_of k new d missing in
      omega (int_laws, ap pos_part p, ap neg_part p, ap pos_part f, ap neg_part f)
  | inr (old, found) ↦
      let f : new.stake ≡ old.stake +ℤ amount = rw found at e in
      let p = sum_by-put stake_of k new old d found in
      omega (int_laws, ap pos_part p, ap neg_part p, ap pos_part f, ap neg_part f)
]

raised : (a b c : ℤ) → c ≡ a +ℤ b → pos 0 <ℤ b → pos 0 ≤ℤ a → pos 0 ≤ℤ c
raised a b c e p q = rw e (omega int_laws)

held_so_far :
    (k : Address) (d : Dict Keeper)
    → Each HasStake d
    → pos 0 ≤ℤ (unwrap_or (find k d) new_keeper).stake
held_so_far k d h = elim (Option-cases (find k d)) [
  | inl missing ↦ rw missing (omega arith)
  | inr (info, found) ↦ rw found (Each-find HasStake k info d h found)
]

below : (rest total amount : ℤ) → rest +ℤ amount ≡ total → pos 0 ≤ℤ amount → rest ≤ℤ total
below rest total amount e n = rw (← e) (omega int_laws)

module _ {X : Type 0} (env : Env X) where
  stake-facts :
      (keeper : Address) (amount b : ℤ) (w v : World X) (y : X)
      → stake env keeper amount w ≡ returns b v
      → env.transfer w.store.config.stake_token keeper env.current_contract_address amount w.outside
        ≡ some y
      → (env.authorized keeper ≡ true)
        × (pos 0 <ℤ amount)
        × (v.outside ≡ y)
        × (b ≡ (unwrap_or (find keeper w.store.keepers) new_keeper).stake +ℤ amount)
        × (v.store.keepers
            ≡ put keeper
                (record (unwrap_or (find keeper w.store.keepers) new_keeper) { stake = b })
                w.store.keepers)
        × (v.store.config ≡ w.store.config)
        × (v.store.specs ≡ w.store.specs)
        × (v.store.states ≡ w.store.states)
  unfolding stake set_keeper add_active_keeper
  stake-facts keeper amount b w v y h f = ground arith

  unbonding-facts :
      (keeper : Address) (at : ℕ) (w v : World X) (info : Keeper)
      → begin_unbonding env keeper w ≡ returns at v
      → find keeper w.store.keepers ≡ some info
      → (v.store.keepers ≡ put keeper (record info { unbonding_at = some at }) w.store.keepers)
        × (v.outside ≡ w.outside)
        × (v.store.config ≡ w.store.config)
        × (v.store.specs ≡ w.store.specs)
        × (v.store.states ≡ w.store.states)
  unfolding begin_unbonding set_keeper remove_active_keeper
  unbonding-facts keeper at w v info h e = ground arith

  release-facts :
      (config : Config) (keeper : Address) (b : ℤ) (w v : World X) (info : Keeper)
      → release_stake env config keeper w ≡ returns b v
      → find keeper w.store.keepers ≡ some info
      → (v.store.keepers ≡ delete keeper w.store.keepers)
        × (v.store.config ≡ w.store.config)
        × (v.store.specs ≡ w.store.specs)
        × (v.store.states ≡ w.store.states)
  unfolding release_stake remove_keeper
  release-facts config keeper b w v info h e = ground arith

  release-pays :
      (config : Config) (keeper : Address) (b : ℤ) (w v : World X) (info : Keeper)
      → release_stake env config keeper w ≡ returns b v
      → find keeper w.store.keepers ≡ some info
      → (env.transfer config.stake_token env.current_contract_address keeper info.stake w.outside
          ≡ some v.outside)
        ⊎ (v.outside ≡ w.outside)
  unfolding release_stake remove_keeper
  release-pays config keeper b w v info h e = elim (Bool-cases (ltb_ℤ (pos 0) info.stake)) [
    | inl staked ↦
        elim (Option-cases (
          env.transfer config.stake_token env.current_contract_address keeper info.stake
            w.outside)) [ inl refused ↦ ground arith | inr (y, f) ↦ inl (ground arith) ]
    | inr empty ↦ inr (ground arith)
  ]

  release-fails :
      (config : Config) (keeper : Address) (e : Error) (w v : World X)
      → release_stake env config keeper w ≡ fails e v
      → v ≡ w
  unfolding release_stake
  release-fails config keeper e w v h = ground arith

module _ {X : Type 0} {registry : Address} {balance_of : Address → Address → X → ℤ} {env : Env X}
    (c : Custody registry balance_of env) where
  pub stake-IsSolvent :
      (keeper : Address) (amount b : ℤ) (w v : World X)
      → IsSolvent registry balance_of w
      → stake env keeper amount w ≡ returns b v
      → IsSolvent registry balance_of v
  stake-IsSolvent keeper amount b w v s h =
      elim (Option-cases (
        env.transfer w.store.config.stake_token keeper env.current_contract_address amount
          w.outside)) [
            | inl refused ↦ unfold stake in ground arith
            | inr (y, f) ↦
                let (signed, positive, out, total, keepers, config, specs, states) =
                  stake-facts env keeper amount b w v y h f in
                IsSolvent-after registry balance_of w v (jobs_total w.store)
                  (stakes_total w.store +ℤ amount) y config out (ap (sum_by balance_in) states)
                  (ap (sum_by stake_of) keepers
                    ∙ stakes-raise keeper _ amount w.store.keepers total)
                  (Backed-stake c _ _ keeper _ _ amount w.outside y signed (rw (← c.here) f)
                    s.backed)
                  (rw states s.balances) (rw specs s.fees)
                  (rw keepers (
                    Each-put HasStake keeper _ w.store.keepers s.stakes (
                      raised _ amount b total positive
                        (held_so_far keeper w.store.keepers s.stakes))))
                  s.share
          ]

  pub begin_unbonding-IsSolvent :
      (keeper : Address) (at : ℕ) (w v : World X)
      → IsSolvent registry balance_of w
      → begin_unbonding env keeper w ≡ returns at v
      → IsSolvent registry balance_of v
  begin_unbonding-IsSolvent keeper at w v s h = elim (Option-cases (find keeper w.store.keepers)) [
    | inl missing ↦ unfold begin_unbonding in ground arith
    | inr (info, found) ↦
        let (keepers, out, config, specs, states) =
          unbonding-facts env keeper at w v info h found in
        IsSolvent-after registry balance_of w v (jobs_total w.store) (stakes_total w.store)
          w.outside config out (ap (sum_by balance_in) states)
          (ap (sum_by stake_of) keepers
            ∙ sum_by-put_same keeper w.store.keepers info (record info { unbonding_at = some at })
                found refl)
          s.backed (rw states s.balances) (rw specs s.fees)
          (rw keepers (
            Each-put HasStake keeper _ w.store.keepers s.stakes
              (Each-find HasStake keeper info w.store.keepers s.stakes found)))
          s.share
  ]

  pub release_stake-IsSolvent :
      (keeper : Address) (b : ℤ) (w v : World X)
      → IsSolvent registry balance_of w
      → release_stake env w.store.config keeper w ≡ returns b v
      → IsSolvent registry balance_of v × (v.store.config ≡ w.store.config)
  release_stake-IsSolvent keeper b w v s h = elim (Option-cases (find keeper w.store.keepers)) [
    | inl missing ↦ unfold release_stake in ground arith
    | inr (info, found) ↦
        let (keepers, config, specs, states) =
          release-facts env w.store.config keeper b w v info h found in
        let total = sum_by-delete stake_of keeper info w.store.keepers found in
        let nonneg = Each-find HasStake keeper info w.store.keepers s.stakes found in
        let rest = sum_by stake_of (delete keeper w.store.keepers) in
        let backed : Backed registry balance_of w.store.config.fee_token w.store.config.stake_token
            (jobs_total w.store) rest v.outside =
          elim (release-pays env w.store.config keeper b w v info h found) [
            | inl paid ↦
                Backed-release c _ _ keeper (jobs_total w.store) rest info.stake w.outside v.outside
                  nonneg (rw (← c.here) paid) (λ t. rw total (s.backed t))
            | inr out ↦ rw out (
                Backed-mono registry balance_of _ _ (jobs_total w.store) (stakes_total w.store)
                  (jobs_total w.store) rest w.outside w.outside (omega arith)
                  (below rest (stakes_total w.store) info.stake total nonneg) (λ t. omega arith)
                  s.backed)
          ] in
        (
          IsSolvent-after registry balance_of w v (jobs_total w.store) rest v.outside config refl
              (ap (sum_by balance_in) states) (ap (sum_by stake_of) keepers) backed
              (rw states s.balances) (rw specs s.fees)
              (rw keepers (Each-delete HasStake keeper w.store.keepers s.stakes)) s.share,
          config,
        )
  ]

  pub withdraw_stake-IsSolvent :
      (keeper : Address) (b : ℤ) (w v : World X)
      → IsSolvent registry balance_of w
      → withdraw_stake env keeper w ≡ returns b v
      → IsSolvent registry balance_of v
  withdraw_stake-IsSolvent keeper b w v s h =
      (release_stake-IsSolvent keeper b w v s (unfold withdraw_stake in ground arith)).0

  release_or_zero-IsSolvent :
      (keeper : Address) (b : ℤ) (w v : World X)
      → IsSolvent registry balance_of w
      → release_or_zero env w.store.config keeper w ≡ returns b v
      → IsSolvent registry balance_of v × (v.store.config ≡ w.store.config)
  unfolding release_or_zero
  release_or_zero-IsSolvent keeper b w v s h =
      elim (Outcome-cases (release_stake env w.store.config keeper w)) [
        | inr (inr e) ↦ ground arith
        | inr (inl (e, w1, f)) ↦
            let same = release-fails env w.store.config keeper e w w1 f in
            let here : v ≡ w = ground arith in rw here (s, refl)
        | inl (a, w1, f) ↦
            let here : v ≡ w1 = ground arith in rw here (release_stake-IsSolvent keeper a w w1 s f)
      ]

  release_each-IsSolvent :
      (keepers : List Address) (config : Config) (bs : List ℤ) (w v : World X)
      → w.store.config ≡ config
      → IsSolvent registry balance_of w
      → release_each env config keepers w ≡ returns bs v
      → IsSolvent registry balance_of v
  unfolding release_each
  release_each-IsSolvent [] config bs w v same s h = let here : v ≡ w = ground arith in rw here s
  release_each-IsSolvent (k ∷ ks) config bs w v same s h =
      elim (Outcome-cases (release_or_zero env config k w)) [
        | inr (inr e) ↦ ground arith
        | inr (inl (e, w1, f)) ↦ ground arith
        | inl (b, w1, f) ↦
            let (mid, kept) =
              release_or_zero-IsSolvent k b w w1 s
                (subst (λ (c : Config). release_or_zero env c k w ≡ returns b w1) (sym same) f) in
            elim (Outcome-cases (release_each env config ks w1)) [
              | inr (inr e) ↦ ground arith
              | inr (inl (e, w2, g)) ↦ ground arith
              | inl (bs', w2, g) ↦
                  let here : v ≡ w2 = ground arith in
                  rw here (release_each-IsSolvent ks config bs' w1 w2 (kept ∙ same) mid g)
            ]
      ]

  pub withdraw_stakes-IsSolvent :
      (keepers : List Address) (bs : List ℤ) (w v : World X)
      → IsSolvent registry balance_of w
      → withdraw_stakes env keepers w ≡ returns bs v
      → IsSolvent registry balance_of v
  withdraw_stakes-IsSolvent keepers bs w v s h =
      release_each-IsSolvent keepers w.store.config bs w v refl s
        (unfold withdraw_stakes in ground arith)
