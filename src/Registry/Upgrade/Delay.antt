-- ===== src/Registry/Upgrade/Delay.antt =====
-- The delay of an upgrade: contracts/registry/src/lib.rs, `propose_upgrade` to `set_upgrade_delay`.
use sorocron.Base.{ℕ, ◌+◌, ◌≤◌, ◌≡◌, refl, Option, none, some, arith, Option-cases, inl, inr, true}
use sorocron.Base.Word.{u64_max, sat_add}
use sorocron.Registry.Types.{Address, Hash, Keeper, Config, PendingUpgrade}
use sorocron.Registry.Storage.{Storage, set_config}
use sorocron.Registry.Schedule.{unbonding_release}
use sorocron.Registry.Schedule.Grid.{unbonding_release_bounds}
use sorocron.Registry.Host.{Env, World, returns}
use sorocron.Base.Dict.{find}
use sorocron.Registry.Keepers.{withdraw_stake}
use sorocron.Registry.Keepers.Exits.{Paid, withdraw_stake-exits}
use sorocron.Registry.Upgrade.{
  upgrade_delay_for, push_back_pending_upgrade, pushed_back, set_unbonding_epoch, propose_upgrade,
  apply_upgrade, set_upgrade_delay,
}

-- A pending upgrade waits at least the delay in force, from its proposal on.
abbrev pub Waits : ℕ → PendingUpgrade → Type 0
Waits delay p = sat_add p.proposed_at delay ≤ p.available_at

abbrev pub WaitsIn : Storage → Option PendingUpgrade → Type 0
WaitsIn s none = Unit {0}
WaitsIn s (some p) = Waits (upgrade_delay_for s s.config) p

abbrev pub IsTimely : Storage → Type 0
IsTimely s = WaitsIn s s.pending_upgrade

-- A pending upgrade of the first storage is still pending in the second, and not available earlier.
abbrev pub Postponed : Option PendingUpgrade → Option PendingUpgrade → Type 0
Postponed none after = after ≡ none
Postponed (some p) after =
    (q : PendingUpgrade) × (after ≡ some q)
    × (q.wasm_hash ≡ p.wasm_hash)
    × (q.proposed_at ≡ p.proposed_at)
    × (p.available_at ≤ q.available_at)

pushed_back_lem :
    (delay : ℕ) (p : PendingUpgrade)
    → Waits delay (pushed_back delay p)
      × ((pushed_back delay p).wasm_hash ≡ p.wasm_hash)
      × ((pushed_back delay p).proposed_at ≡ p.proposed_at)
      × (p.available_at ≤ (pushed_back delay p).available_at)
unfolding pushed_back
pushed_back_lem delay p = ground arith

push_back-none :
    (c : Config) (s : Storage) → s.pending_upgrade ≡ none → push_back_pending_upgrade c s ≡ s
unfolding push_back_pending_upgrade
push_back-none c s e = ground arith

push_back-some :
    (c : Config) (s : Storage) (p : PendingUpgrade)
    → s.pending_upgrade ≡ some p
    → push_back_pending_upgrade c s
      ≡ record s { pending_upgrade = some (pushed_back (upgrade_delay_for s c) p) }
unfolding push_back_pending_upgrade
push_back-some c s p e = ground arith

push_back_lem :
    (c : Config) (s : Storage)
    → s.config ≡ c
    → IsTimely (push_back_pending_upgrade c s)
      × Postponed s.pending_upgrade (push_back_pending_upgrade c s).pending_upgrade
push_back_lem c s e = elim (Option-cases s.pending_upgrade) [
  | inl off ↦ rw (push_back-none c s off, off) (tt, refl)
  | inr (p, on) ↦
      let (waits, hash, proposed, later) = pushed_back_lem (upgrade_delay_for s c) p in
      rw (push_back-some c s p on, on)
        (unfold upgrade_delay_for in (rw e waits, (_, refl, hash, proposed, later)))
]

module _ {X : Type 0} (env : Env X) (w v : World X) where
  -- After `propose_upgrade` exactly the proposed code is pending, from now on and until the
  -- returned time, which is at least the delay in force after now (or the end of the u64).
  pub propose_upgrade-IsTimely :
      (hash : Hash) (at : ℕ)
      → propose_upgrade env hash w ≡ returns at v
      → IsTimely v.store
        × (v.store.pending_upgrade
            ≡ some (record { wasm_hash = hash; proposed_at = env.timestamp; available_at = at }))
  unfolding propose_upgrade upgrade_delay_for
  propose_upgrade-IsTimely hash at h = ground arith

  -- After `set_unbonding_epoch` a pending upgrade waits at least the new delay from its proposal
  -- on; it is still pending, with the same code, and not available earlier than before.
  pub set_unbonding_epoch-IsTimely :
      (epoch : ℕ)
      → set_unbonding_epoch env epoch w ≡ returns tt v
      → IsTimely v.store × Postponed w.store.pending_upgrade v.store.pending_upgrade
  set_unbonding_epoch-IsTimely epoch h =
      let e : v.store
          ≡ push_back_pending_upgrade (record w.store.config { unbonding_epoch = epoch })
              (set_config (record w.store.config { unbonding_epoch = epoch }) w.store) =
        unfold set_unbonding_epoch in ground arith in
      (unfold set_config in rw e (push_back_lem _ _ refl))

  -- After `set_upgrade_delay` a pending upgrade waits at least the new delay from its proposal
  -- on; it is still pending, with the same code, and not available earlier than before.
  pub set_upgrade_delay-IsTimely :
      (delay : ℕ)
      → set_upgrade_delay env delay w ≡ returns tt v
      → IsTimely v.store × Postponed w.store.pending_upgrade v.store.pending_upgrade
  set_upgrade_delay-IsTimely delay h =
      let e : v.store
          ≡ push_back_pending_upgrade w.store.config (record w.store { upgrade_delay = delay }) =
        unfold set_upgrade_delay in ground arith in
      rw e (push_back_lem _ _ refl)

  -- Where `apply_upgrade` returns, an upgrade was pending whose time had come and the admin has
  -- authorized the call; its code is installed, nothing is pending any more, and the storage is
  -- otherwise as it was.
  pub apply_upgrade-returns :
      apply_upgrade env w ≡ returns tt v
      → (p : PendingUpgrade) × (w.store.pending_upgrade ≡ some p)
        × (p.available_at ≤ env.timestamp)
        × (env.authorized w.store.config.admin ≡ true)
        × (v.code ≡ p.wasm_hash)
        × (v.store ≡ record w.store { pending_upgrade = none })
  unfolding apply_upgrade
  apply_upgrade-returns h = elim (Option-cases w.store.pending_upgrade) [
    | inl off ↦ ground arith
    | inr (p, on) ↦ (p, on, ground arith, ground arith, ground arith, ground arith)
  ]

waits_long :
    (s : Storage) (p : PendingUpgrade)
    → s.pending_upgrade ≡ some p
    → IsTimely s
    → p.proposed_at + s.config.unbonding_epoch + s.config.unbonding_period ≤ u64_max
    → p.proposed_at + s.config.unbonding_epoch + s.config.unbonding_period ≤ p.available_at
unfolding upgrade_delay_for
waits_long s p pending timely fits = waiting s.pending_upgrade pending timely
  where
    waiting :
        (o : Option PendingUpgrade)
        → o ≡ some p
        → WaitsIn s o
        → p.proposed_at + s.config.unbonding_epoch + s.config.unbonding_period ≤ p.available_at
    waiting none e t = cc
    waiting (some q) e t = ground arith

unbonding_over :
    (s : Storage) (p : PendingUpgrade) (began period epoch : ℕ)
    → s.pending_upgrade ≡ some p
    → IsTimely s
    → began ≤ p.proposed_at
    → period ≤ s.config.unbonding_period
    → epoch ≤ s.config.unbonding_epoch
    → p.proposed_at + s.config.unbonding_epoch + s.config.unbonding_period ≤ u64_max
    → unbonding_release began period epoch ≤ p.available_at
unbonding_over s p began period epoch on timely before short brief fits =
    let waits = waits_long s p on timely fits in
    let (_, latest) = unbonding_release_bounds began period epoch (omega arith) in omega arith

-- A keeper who began unbonding no later than an upgrade was proposed, under a period and an epoch
-- no longer than those in force when the upgrade is applied, is out by then: the time stored for
-- the keeper has passed, and if it signs and the stake token makes the payment, if one is due,
-- `withdraw_stake` returns its whole stake before the upgrade is applied. The pending upgrade
-- waits the delay in force, and the times stay within the u64.
pub apply_upgrade-after-unbonding :
    {X : Type 0} (env : Env X) (w v : World X) (p : PendingUpgrade) (keeper : Address)
    (info : Keeper) (began period epoch : ℕ) (y : X)
    → IsTimely w.store
    → w.store.pending_upgrade ≡ some p
    → apply_upgrade env w ≡ returns tt v
    → find keeper w.store.keepers ≡ some info
    → info.unbonding_at ≡ some (unbonding_release began period epoch)
    → began ≤ p.proposed_at
    → period ≤ w.store.config.unbonding_period
    → epoch ≤ w.store.config.unbonding_epoch
    → p.proposed_at + w.store.config.unbonding_epoch + w.store.config.unbonding_period ≤ u64_max
    → env.authorized keeper ≡ true
    → Paid env w.store.config.stake_token keeper info.stake w.outside y
    → (unbonding_release began period epoch ≤ env.timestamp)
      × ((u : World X) × (withdraw_stake env keeper w ≡ returns info.stake u) × (u.outside ≡ y))
apply_upgrade-after-unbonding env w v p keeper info began period epoch y timely on h found stored
      before short brief fits signed paid =
    let ready : p.available_at ≤ env.timestamp = unfold apply_upgrade in ground arith in
    let waited = unbonding_over w.store p began period epoch on timely before short brief fits in
    let over : unbonding_release began period epoch ≤ env.timestamp = omega arith in
    let (u, withdrawn, out, _) =
      withdraw_stake-exits env w y keeper info (unbonding_release began period epoch) found signed
        stored over paid in
    (over, (u, withdrawn, out))
