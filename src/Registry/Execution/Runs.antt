-- ===== src/Registry/Execution/Runs.antt =====
-- When `run_job` runs a job and what it leaves when it does not: contracts/registry/src/lib.rs.
use sorocron.Base.{
  ℕ, ◌≤◌, ◌≡◌, refl, ap, sym, ◌∙◌, ◌⊎◌, inl, inr, Bool, true, false, Option, none, some, arith,
  Option-cases, Bool-cases,
}
use sorocron.Base.Word.{sat_add}
use sorocron.Registry.Types.{Address, Config, JobSpec, JobState, Error}
use sorocron.Registry.Result.{ok}
use sorocron.Registry.Storage.{get_job_parts, is_target_halted}
use sorocron.Registry.Host.{Env, World, CallResult, returns, fails, traps}
use sorocron.Registry.Host.Laws.{Outcome-cases}
use sorocron.Registry.Checks.{is_forbidden_target, dependency_met}
use sorocron.Registry.Assignment.{assigned_keeper_for}
use sorocron.Registry.Execution.{
  Payout, KeeperRecord, not_allowed, unless_caller, resolver_allows, call_target, run_guards,
  settle_run, run_job,
}
use sorocron.Registry.Execution.Guards.{IsDue, ensure_due_iff, run_guards-returns, run_guards-fails}
use sorocron.Registry.Execution.Effects.{RunEffect, settle_run-returns, settle_run-ne-fails}

module _ {X : Type 0} (env : Env X) where
  -- The other contracts before and after the resolver was asked: the job may have none.
  abbrev pub Asked : ℕ → X → X → Type 0
  Asked job_id x y =
      (y ≡ x) ⊎ ((resolver : Address) × (y ≡ (env.try_should_run resolver job_id x).1))

  -- The resolver of a job that has one was asked and agreed.
  abbrev pub Agreed : ℕ → JobSpec → X → X → Type 0
  Agreed job_id spec x y =
      ((spec.resolver ≡ none) × (y ≡ x))
      ⊎ ((resolver : Address) × (spec.resolver ≡ some resolver)
          × (env.try_should_run resolver job_id x ≡ (some true, y)))

  -- The resolver changes nothing of the registry.
  pub resolver_allows_lem :
      (job_id : ℕ) (spec : JobSpec) (w : World X)
      → (b : Bool) × (x : X) × (resolver_allows env job_id spec w
          ≡ returns b (record w { outside = x }))
        × Asked job_id w.outside x
        × (b ≡ true → Agreed job_id spec w.outside x)
  unfolding resolver_allows
  resolver_allows_lem job_id spec w = elim (Option-cases spec.resolver) [
    | inl off ↦ (true, w.outside, ground arith, inl refl, λ yes. inl (off, refl))
    | inr (resolver, e) ↦
        let (answer, x) = env.try_should_run resolver job_id w.outside in
        (
          elim answer [ some b ↦ b | none ↦ false ],
          x,
          ground arith,
          inr (resolver, refl),
          λ yes. inr (resolver, e, ap (λ (o : Option Bool). (o, x)) (said_yes answer yes)),
        )
  ]
    where
      said_yes : (o : Option Bool) → (elim o [ some b ↦ b | none ↦ false ]) ≡ true → o ≡ some true
      said_yes none h = cc
      said_yes (some b) h = ap some h

  -- Nor does the target.
  pub call_target_lem :
      (executor : Address) (spec : JobSpec) (w : World X)
      → (result : CallResult) × (x : X) × (call_target env executor spec w
          ≡ returns result (record w { outside = x }))
        × (env.try_execute executor spec.target spec.function spec.args w.outside ≡ (result, x))
  unfolding call_target
  call_target_lem executor spec w = (_, _, refl, refl)

  module _ (config : Config) (executor keeper : Address) (r : KeeperRecord) (job_id : ℕ)
      (p : Payout) where
    abbrev pub other_holder : World X → JobSpec → JobState → Option Address
    other_holder w spec state =
        unless_caller (assigned_keeper_for env w.store job_id spec state) keeper

    -- The other contracts after the resolver and then the target were called.
    abbrev pub Called : JobSpec → CallResult → X → X → Type 0
    Called spec result x z =
        (y : X) × Asked job_id x y
        × Agreed job_id spec x y
        × (env.try_execute executor spec.target spec.function spec.args y ≡ (result, z))

    -- A run that reaches `settle_run`, at the world that the resolver and the target have left.
    abbrev Settles : World X → Type 0
    Settles w =
        (spec : JobSpec) × (state : JobState) × (seen : ℕ) × (result : CallResult) × (x : X)
        × (get_job_parts w.store job_id ≡ some (spec, state))
        × (run_guards env config keeper job_id spec state (other_holder w spec state) w
            ≡ returns seen w)
        × (run_job env config executor keeper r job_id p w
            ≡ settle_run env config keeper r job_id p spec state (other_holder w spec state) seen
                result (record w { outside = x }))
        × Called spec result w.outside x

    abbrev Refuses : World X → Type 0
    Refuses w =
        (e : Error) × (x : X) × (run_job env config executor keeper r job_id p w
          ≡ fails e (record w { outside = x }))
        × Asked job_id w.outside x

    after_guards :
        (w : World X) (spec : JobSpec) (state : JobState) (seen : ℕ)
        → get_job_parts w.store job_id ≡ some (spec, state)
        → run_guards env config keeper job_id spec state (other_holder w spec state) w
          ≡ returns seen w
        → Refuses w ⊎ Settles w
    unfolding run_job
    after_guards w spec state seen ep eg =
        let (b, x, er, asked, agreed) = resolver_allows_lem job_id spec w in
        let (result, y, ec, called) = call_target_lem executor spec (record w { outside = x }) in
        elim (Bool-cases b) [
          | inl settled ↦ inr (
            spec,
            state,
            seen,
            result,
            y,
            ep,
            eg,
            ground arith,
            (x, asked, agreed settled, called),
          )
          | inr rejected ↦ inl (Error.resolver_rejected, x, ground arith, asked)
        ]

    -- `run_job` fails and has changed nothing of the registry, or panics, or settles a run.
    run_job_cases :
        (w : World X)
        → Refuses w ⊎ ((run_job env config executor keeper r job_id p w ≡ traps) ⊎ Settles w)
    unfolding run_job
    run_job_cases w = elim (Option-cases (get_job_parts w.store job_id)) [
      | inl missing ↦ inl (Error.job_not_found, w.outside, ground arith, inl refl)
      | inr ((spec, state), ep) ↦
          elim (Outcome-cases
            (run_guards env config keeper job_id spec state (other_holder w spec state) w)) [
              | inl (seen, w1, eg) ↦
                  let same =
                    (run_guards-returns env config keeper job_id spec state
                      (other_holder w spec state) seen w w1 eg).0 in
                  elim (after_guards w spec state seen ep (eg ∙ ap (returns seen) same)) [
                    | inl refused ↦ inl refused
                    | inr settled ↦ inr (inr settled)
                  ]
              | inr (inl (e, w1, eg)) ↦
                  let same =
                    run_guards-fails env config keeper job_id spec state (other_holder w spec state)
                      e w w1 eg in
                  inl (e, w.outside, ground arith, inl refl)
              | inr (inr eg) ↦ inr (inl (ground arith))
            ]
    ]

    -- A job that `run_job` refuses leaves the registry as it was: its storage, its events and its
    -- code. Only the resolver may have changed something elsewhere.
    pub run_job-fails :
        (w v : World X) (e : Error)
        → run_job env config executor keeper r job_id p w ≡ fails e v
        → (v.store ≡ w.store)
          × (v.events ≡ w.events)
          × (v.code ≡ w.code)
          × Asked job_id w.outside v.outside
    run_job-fails w v e h = elim (run_job_cases w) [
      | inl (e', x, refused, asked) ↦
          let same : v ≡ record w { outside = x } = ground arith in
          rw same (refl, refl, refl, asked)
      | inr (inl panicked) ↦ ground arith
      | inr (inr (spec, state, seen, result, x, ep, eg, settles, called)) ↦ absurd (
          settle_run-ne-fails env config keeper r job_id p spec state (other_holder w spec state)
            seen result (record w { outside = x }) v e (sym settles ∙ h))
    ]

    -- A completed `run_job` ran a job that exists and was due, with a target that is neither
    -- forbidden nor halted, for a keeper on the job's allowlist if there is one, outside another
    -- keeper's assigned window or after the grace period, and after its leader had run. What was
    -- written is the job's new state, and otherwise only counters of keepers and events; the
    -- other contracts were called for the resolver and the target only.
    pub run_job-returns :
        (w v : World X) (out : KeeperRecord × Payout)
        → run_job env config executor keeper r job_id p w ≡ returns out v
        → (spec : JobSpec) × (state : JobState) × (seen : ℕ) × (result : CallResult)
          × (get_job_parts w.store job_id ≡ some (spec, state))
          × IsDue spec state env.timestamp
          × (is_forbidden_target env.current_contract_address config spec.target ≡ false)
          × (is_target_halted w.store spec.target ≡ false)
          × (not_allowed spec.keepers keeper ≡ false)
          × ((other_holder w spec state ≡ none)
              ⊎ (sat_add state.next_run config.grace_period ≤ env.timestamp))
          × (dependency_met w.store spec state ≡ ok seen)
          × RunEffect env config job_id spec state seen result w v r out.0 p out.1
          × Called spec result w.outside v.outside
    run_job-returns w v out h = elim (run_job_cases w) [
      | inl (e', x, refused, asked) ↦ ground arith
      | inr (inl panicked) ↦ ground arith
      | inr (inr (spec, state, seen, result, x, ep, eg, settles, called)) ↦
          let (_, due, target, halt, listed, window, leader) =
            run_guards-returns env config keeper job_id spec state (other_holder w spec state) seen
              w w eg in
          let (effect, kept) =
            settle_run-returns env config keeper r job_id p spec state (other_holder w spec state)
              seen result (record w { outside = x }) v out (sym settles ∙ h) in
          (
            spec,
            state,
            seen,
            result,
            ep,
            (ensure_due_iff spec state env.timestamp).0 due,
            target,
            halt,
            listed,
            window,
            leader,
            record {
              charge = effect.charge;
              charged = effect.charged;
              paid = effect.paid;
              counted = effect.counted;
              config_kept = effect.config_kept;
              specs_kept = effect.specs_kept;
              ids_kept = effect.ids_kept;
              code_kept = effect.code_kept;
              pending_kept = effect.pending_kept;
              delay_kept = effect.delay_kept;
              state_put = effect.state_put;
              stakes_kept = effect.stakes_kept;
              total_kept = effect.total_kept;
              held_kept = effect.held_kept;
            },
            (called.0, called.1, called.2, called.3 ∙ ap (λ (z : X). (result, z)) (sym kept)),
          )
    ]
