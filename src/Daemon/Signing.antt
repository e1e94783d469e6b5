-- ===== src/Daemon/Signing.antt =====
-- What the daemon signs and sends: keeper-rs/src/registry.rs, `execute_batch`.
use mathlib.Core.Path.{subst}
use sorocron.Base.{
  ℕ, ◌≡◌, refl, ap, sym, ◌∙◌, Bool, true, false, ◌&&◌, Option, none, some, List, [], ◌∷◌, arith,
  Bool-cases, inl, inr, eq-of-==,
}
use sorocron.Base.Int.{ℤ, pos, ◌+ℤ◌, ◌-ℤ◌, ◌*ℤ◌, ◌≤ℤ◌, ◌<ℤ◌}
use sorocron.Base.Word.{wrap_i128}
use sorocron.Base.Lists.{length, is_empty}
use sorocron.Registry.Types.{Address, Symbol}
use sorocron.Daemon.{
  Config, Rpc, Authorized, contract_fn, deployment, Entry, Simulation, unreachable,
  registry_refuses, call_fails, simulated_call, executed, is_expected, check_auth, batch_function,
  flags_of, filter_ran, sum_fees, refuses, decide, consider, sent, execute_batch,
}

-- Every authorization is the call of the registry's function, and of nothing inside it.
abbrev OnlyRegistry : Address → Symbol → List Entry → Type 0
OnlyRegistry registry function [] = Unit {0}
OnlyRegistry registry function (e ∷ es) =
    (e.root ≡ contract_fn registry function)
    × (e.sub_invocations ≡ [])
    × OnlyRegistry registry function es

empty_list : {A : Type 0} (xs : List A) → is_empty xs ≡ true → xs ≡ []
empty_list [] h = refl
empty_list (x ∷ xs) h = cc

expected_root :
    (registry : Address) (function : Symbol) (a : Authorized)
    → is_expected registry function a ≡ true
    → a ≡ contract_fn registry function
expected_root registry function (contract_fn b f) h =
    ground (arith, eq-of-== b registry, eq-of-== f function)
expected_root registry function deployment h = cc

both : (a b : Bool) → (a && b) ≡ true → (a ≡ true) × (b ≡ true)
both true b h = (refl, h)
both false b h = cc

check_auth-OnlyRegistry :
    (es : List Entry) (registry : Address) (function : Symbol)
    → check_auth es registry function ≡ true
    → OnlyRegistry registry function es
unfolding check_auth
check_auth-OnlyRegistry [] registry function h = tt
check_auth-OnlyRegistry (e ∷ es) registry function h =
    let (root, rest) = both (is_expected registry function e.root) _ h in
    let (inside, others) = both (is_empty e.sub_invocations) _ rest in
    (
      expected_root registry function e.root root,
      empty_list e.sub_invocations inside,
      check_auth-OnlyRegistry es registry function others,
    )

module _ {X : Type 0} (rpc : Rpc X) (config : Config) (fee_is_native : Bool) where
  -- The fees that the network reports one after the other, added to `total` as i128 that wrap.
  abbrev Priced : List ℕ → ℤ → X → ℤ → X → Type 0
  Priced [] total x earned y = (total ≡ earned) × (x ≡ y)
  Priced (id ∷ ids) total x earned y =
      (f : ℤ) × (z : X) × (rpc.current_fee id x ≡ (some f, z))
      × Priced ids (wrap_i128 (total +ℤ f)) z earned y

  sum_fees-Priced :
      (ids : List ℕ) (total : ℤ) (x : X) (earned : ℤ) (y : X)
      → sum_fees rpc config fee_is_native ids total x ≡ (some earned, y)
      → Priced ids total x earned y
  unfolding sum_fees
  sum_fees-Priced [] total x earned y h = (cc, cc)
  sum_fees-Priced (id ∷ ids) total x earned y h =
      next (λ f z. sum_fees-Priced ids (wrap_i128 (total +ℤ f)) z earned y) (rpc.current_fee id x)
        refl h
    where
      next :
          ((f : ℤ) (z : X)
            → sum_fees rpc config fee_is_native ids (wrap_i128 (total +ℤ f)) z ≡ (some earned, y)
            → Priced ids (wrap_i128 (total +ℤ f)) z earned y)
          → (o : Option ℤ × X) → rpc.current_fee id x ≡ o
          → ◌≡◌ {A = Option ℤ × X}
              (elim o.0 [
                | none ↦ (none, o.1)
                | some f ↦ sum_fees rpc config fee_is_native ids (wrap_i128 (total +ℤ f)) o.1
              ])
              (some earned, y)
          → Priced (id ∷ ids) total x earned y
      next rest (none, z) e h = cc
      next rest (some f, z) e h = (f, z, e, rest f z h)

  -- Fees in the network's token reach the least profit, and a batch paid otherwise keeps to the
  -- largest cost for each job, if there is one.
  abbrev Worth : List ℕ → ℤ → ℤ → Type 0
  Worth ran earned cost =
      (fee_is_native ≡ true → config.min_profit ≤ℤ wrap_i128 (earned -ℤ cost))
      × (fee_is_native ≡ false
          → pos 0 <ℤ config.max_cost_per_job
          → cost ≤ℤ wrap_i128 (config.max_cost_per_job *ℤ pos (length ran)))

  refuses-Worth :
      (ran : List ℕ) (earned cost : ℤ)
      → refuses rpc config fee_is_native ran earned cost ≡ false
      → Worth ran earned cost
  refuses-Worth ran earned cost h = elim (Bool-cases fee_is_native) [
    | inl native ↦ (λ t. ground arith, λ t. cc)
    | inr other ↦ (λ t. cc, λ t limited. ground arith)
  ]

  -- How a batch was sent: `before` is what the simulation left.
  pub record Sent (ids ran : List ℕ) (earned : ℤ) (x y : X) : Type 0 where
    pub auth : List Entry
    pub value : Option (List Bool)
    pub resource_fee : ℕ
    pub before : X
    pub priced : X
    pub simulated_as : rpc.simulate ids x ≡ (simulated_call auth value resource_fee, before)
    pub only_registry : OnlyRegistry config.registry batch_function auth
    pub ran_as : ran ≡ filter_ran ids (flags_of value)
    pub fees : Priced ran (pos 0) before earned priced
    pub pays : Worth ran earned (pos resource_fee +ℤ pos config.inclusion_fee)
    pub not_dry : config.dry_run ≡ false
    pub sent_as : rpc.send ids auth priced ≡ (true, y)

  -- The part of it that `decide` settles.
  abbrev Paid : List ℕ → List Entry → List ℕ → ℤ → ℤ → X → X → Type 0
  Paid ids auth ran cost earned priced y =
      (refuses rpc config fee_is_native ran earned cost ≡ false)
      × (config.dry_run ≡ false)
      × (rpc.send ids auth priced ≡ (true, y))

  sent-Paid :
      (ids : List ℕ) (auth : List Entry) (before ran : List ℕ) (f earned : ℤ) (priced y : X)
      (o : Bool × X)
      → rpc.send ids auth priced ≡ o
      → sent rpc config fee_is_native o before f ≡ (executed ran earned, y)
      → (before ≡ ran) × (f ≡ earned) × (rpc.send ids auth priced ≡ (true, y))
  sent-Paid ids auth before ran f earned priced y (true, z) e h = (cc, cc, cc)
  sent-Paid ids auth before ran f earned priced y (false, z) e h = (cc, cc, cc)

  decide-Paid :
      (ids : List ℕ) (auth : List Entry) (before ran : List ℕ) (cost earned : ℤ) (o : Option ℤ × X)
      (y : X)
      → decide rpc config fee_is_native ids auth before cost o ≡ (executed ran earned, y)
      → (priced : X) × (o ≡ (some earned, priced))
        × (before ≡ ran)
        × Paid ids auth ran cost earned priced y
  decide-Paid ids auth before ran cost earned (none, z) y h = cc
  decide-Paid ids auth before ran cost earned (some f, z) y h =
      elim (Bool-cases (refuses rpc config fee_is_native before f cost)) [
        | inl refused ↦ cc
        | inr pays ↦ elim (Bool-cases config.dry_run) [
          | inl dry ↦ cc
          | inr wet ↦
              let run : decide rpc config fee_is_native ids auth before cost (some f, z)
                  ≡ sent rpc config fee_is_native (rpc.send ids auth z) before f =
                rw (pays, wet) refl in
              let (a, b, c) =
                sent-Paid ids auth before ran f earned z y (rpc.send ids auth z) refl
                  (sym run ∙ h) in
              (z, ap (λ (g : ℤ). (some g, z)) b, a, (rw (← a, ← b) pays, wet, c))
        ]
      ]

  consider-Sent :
      (ids ran : List ℕ) (earned : ℤ) (x y : X) (o : Simulation × X)
      → rpc.simulate ids x ≡ o
      → consider rpc config fee_is_native ids o ≡ (executed ran earned, y)
      → Sent ids ran earned x y
  consider-Sent ids ran earned x y (unreachable, z) e h = cc
  consider-Sent ids ran earned x y (registry_refuses, z) e h = cc
  consider-Sent ids ran earned x y (call_fails, z) e h = cc
  consider-Sent ids ran earned x y (simulated_call auth value fee, z) e h =
      let before = filter_ran ids (flags_of value) in
      let cost = pos fee +ℤ pos config.inclusion_fee in
      elim (Bool-cases (check_auth auth config.registry batch_function)) [
        | inr refused ↦ cc
        | inl signed ↦ elim (Bool-cases (is_empty before)) [
          | inl nothing ↦ cc
          | inr some_ran ↦
              let run : consider rpc config fee_is_native ids (simulated_call auth value fee, z)
                  ≡ decide rpc config fee_is_native ids auth before cost
                      (sum_fees rpc config fee_is_native before (pos 0) z) =
                rw (signed, some_ran) refl in
              let (priced, fees, same, (pays, wet, out)) =
                decide-Paid ids auth before ran cost earned
                  (sum_fees rpc config fee_is_native before (pos 0) z) y (sym run ∙ h) in
              record {
                auth = auth;
                value = value;
                resource_fee = fee;
                before = z;
                priced = priced;
                simulated_as = e;
                only_registry = check_auth-OnlyRegistry auth config.registry batch_function signed;
                ran_as = sym same;
                fees =
                    subst (λ (l : List ℕ). Priced l (pos 0) z earned priced) same
                      (sum_fees-Priced before (pos 0) z earned priced fees);
                pays = refuses-Worth ran earned cost pays;
                not_dry = wet;
                sent_as = out;
              }
        ]
      ]

  -- A batch that the daemon reports as executed was simulated and sent with exactly the simulated
  -- authorizations, each of which is for the registry's `execute_batch` and contains no other
  -- call. The jobs reported are those whose flag was set, and their fees as the network reports
  -- them, added as i128 that wrap, are the amount reported. Where fees are paid in the network's
  -- token, they exceed the cost by at least the least profit; otherwise the cost keeps to the
  -- configured largest cost for each job, if there is one, where again the i128 wraps. The daemon
  -- was not in a dry run.
  pub execute_batch-Sent :
      (ids ran : List ℕ) (earned : ℤ) (x y : X)
      → execute_batch rpc config fee_is_native ids x ≡ (executed ran earned, y)
      → Sent ids ran earned x y
  unfolding execute_batch
  execute_batch-Sent ids ran earned x y h =
      consider-Sent ids ran earned x y (rpc.simulate ids x) refl h
