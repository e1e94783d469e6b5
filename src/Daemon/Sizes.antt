-- ===== src/Daemon/Sizes.antt =====
-- How many jobs of a batch run: keeper-rs/src/registry.rs, `execute_batch`.
use sorocron.Base.{
  ℕ, ◌≤◌, ◌≡◌, Bool, true, false, Option, none, some, List, [], ◌∷◌, arith, Bool-cases, inl, inr,
}
use sorocron.Base.Int.{ℤ}
use sorocron.Base.Lists.{length, is_empty}
use sorocron.Daemon.{
  Config, Rpc, Entry, Simulation, unreachable, registry_refuses, call_fails, simulated_call,
  BatchOutcome, executed, simulated, skipped, unprofitable, job_problem, broken, check_auth,
  batch_function, flags_of, filter_ran, refuses, decide, consider, sent, execute_batch,
}
use sorocron.Daemon.Batches.{filter_ran-le}

-- The jobs that ran are some of the batch, and at least one where they do not pay.
abbrev pub IsSized : ℕ → BatchOutcome → Type 0
IsSized n (executed ran earned) = length ran ≤ n
IsSized n (simulated ran) = length ran ≤ n
IsSized n skipped = Unit {0}
IsSized n (unprofitable ran earned cost) = (1 ≤ length ran) × (length ran ≤ n)
IsSized n job_problem = Unit {0}
IsSized n broken = Unit {0}

filled_length : (ran : List ℕ) → is_empty ran ≡ false → 1 ≤ length ran
filled_length [] h = cc
filled_length (id ∷ ran) h = omega arith

module _ {X : Type 0} (rpc : Rpc X) (config : Config) (fee_is_native : Bool) where
  decide-IsSized :
      (ids : List ℕ) (auth : List Entry) (ran : List ℕ) (cost : ℤ) (o : Option ℤ × X)
      → 1 ≤ length ran
      → length ran ≤ length ids
      → IsSized (length ids) (decide rpc config fee_is_native ids auth ran cost o).0
  decide-IsSized ids auth ran cost (none, y) h k = tt
  decide-IsSized ids auth ran cost (some earned, y) h k =
      elim (Bool-cases (refuses rpc config fee_is_native ran earned cost)) [
        | inl refused ↦ rw refused (h, k)
        | inr pays ↦ elim (Bool-cases config.dry_run) [
          | inl dry ↦ rw (pays, dry) k
          | inr wet ↦ rw (pays, wet) (sent-IsSized (rpc.send ids auth y))
        ]
      ]
    where
      sent-IsSized :
          (o : Bool × X) → IsSized (length ids) (sent rpc config fee_is_native o ran earned).0
      sent-IsSized (true, z) = k
      sent-IsSized (false, z) = tt

  consider-IsSized :
      (ids : List ℕ) (o : Simulation × X)
      → IsSized (length ids) (consider rpc config fee_is_native ids o).0
  consider-IsSized ids (unreachable, y) = tt
  consider-IsSized ids (registry_refuses, y) = tt
  consider-IsSized ids (call_fails, y) = tt
  consider-IsSized ids (simulated_call auth value fee, y) =
      elim (Bool-cases (check_auth auth config.registry batch_function)) [
        | inr refused ↦ rw refused tt
        | inl signed ↦ elim (Bool-cases (is_empty (filter_ran ids (flags_of value)))) [
          | inl nothing ↦ rw (signed, nothing) tt
          | inr some_ran ↦
              rw (signed, some_ran)
                (decide-IsSized ids auth (filter_ran ids (flags_of value)) _ _
                  (filled_length _ some_ran) (filter_ran-le ids (flags_of value)))
        ]
      ]

  pub execute_batch-IsSized :
      (ids : List ℕ) (x : X) → IsSized (length ids) (execute_batch rpc config fee_is_native ids x).0
  unfolding execute_batch
  execute_batch-IsSized ids x = consider-IsSized ids (rpc.simulate ids x)
