-- ===== src/TtlGuardian/Extends.antt =====
-- What `extend_many` does to the time-to-live of contracts: contracts/ttl-guardian/src/lib.rs.
use sorocron.Base.{
  ℕ, zero, suc, ◌≤◌, ◌≡◌, refl, Bool, min, true, some, List, [], ◌∷◌, ◌==◌, arith, Bool-cases, inl,
  inr, eq-of-==,
}
use sorocron.Base.Lists.{length, contains}
use sorocron.Registry.Types.{Address}
use sorocron.Soroban.{World, returns}
use sorocron.TtlGuardian.{Ledger, Events, ttl_extended, extend_one, extend_each, extend_many}

-- The host extends a contract that is present, neither missing nor archived: it then lives as long as the
-- threshold, and no present contract, also one that shares its code, goes or lives shorter than before.
-- `ttl` reads how long a contract's instance and code both live.
pub record Extension {X : Type 0} (ledger : Ledger X) (present : Address → X → Bool)
    (ttl : Address → X → ℕ) : Type 0 where
  pub extends :
      (c : Address) (threshold extend_to : ℕ) (x : X)
      → present c x ≡ true
      → threshold ≤ extend_to
      → extend_to ≤ ledger.max_ttl
      → (y : X) × (ledger.extend_ttl c threshold extend_to x ≡ some y)
        × (threshold ≤ ttl c y)
        × ((d : Address) → present d x ≡ true → (present d y ≡ true) × (ttl d x ≤ ttl d y))

abbrev replicate : ℕ → ℕ → List ℕ
replicate zero a = []
replicate (suc n) a = a ∷ replicate n a

module _ {X : Type 0} {ledger : Ledger X} {present : Address → X → Bool} {ttl : Address → X → ℕ}
    (e : Extension ledger present ttl) (threshold requested : ℕ) where
  abbrev pub granted : ℕ
  granted = min requested ledger.max_ttl

  -- No present contract goes or lives shorter than before, and those of the list live at least `threshold`
  -- long.
  abbrev pub Alive : List Address → X → X → Type 0
  Alive cs x y =
      (d : Address)
      → present d x ≡ true
      → (present d y ≡ true) × (ttl d x ≤ ttl d y) × (contains cs d ≡ true → threshold ≤ ttl d y)

  -- Every listed contract is present.
  abbrev AllPresent : List Address → X → Type 0
  AllPresent [] x = Unit {0}
  AllPresent (c ∷ cs) x = (present c x ≡ true) × AllPresent cs x

  -- The events of a list of extensions, the latest first.
  abbrev logged : List Address → Events → Events
  logged [] events = events
  logged (c ∷ cs) events = logged cs (ttl_extended c threshold granted ∷ events)

  one :
      (c : Address) (w : World Events X)
      → threshold ≤ granted
      → present c w.outside ≡ true
      → (v : World Events X) × (extend_one ledger c threshold requested w ≡ returns granted v)
        × (v.store ≡ ttl_extended c threshold granted ∷ w.store)
        × Alive (c ∷ []) w.outside v.outside
  unfolding extend_one
  one c w h here =
      let (y, ran, long, others) = e.extends c threshold granted w.outside here h (omega arith) in
      (
        record { store = ttl_extended c threshold granted ∷ w.store; outside = y },
        ground arith,
        refl,
        λ d there.
            let (stays, longer) = others d there in
            (
              stays,
              longer,
              λ l. elim (Bool-cases (c == d)) [
                | inl same ↦ ground (arith, eq-of-== c d same)
                | inr other ↦ ground arith
              ],
            ),
      )

  still : (cs ds : List Address) (x y : X) → Alive cs x y → AllPresent ds x → AllPresent ds y
  still cs [] x y a p = tt
  still cs (d ∷ ds) x y a (here, p) = ((a d here).0, still cs ds x y a p)

  more-Alive :
      (c : Address) (cs : List Address) (x y z : X)
      → Alive (c ∷ []) x y
      → Alive cs y z
      → Alive (c ∷ cs) x z
  more-Alive c cs x y z a b d here =
      let (there, longer, first) = a d here in
      let (last, longest, rest) = b d there in (last, omega arith, λ l. ground arith)

  each :
      (cs : List Address) (w : World Events X)
      → threshold ≤ granted
      → AllPresent cs w.outside
      → (v : World Events X) × (extend_each ledger cs threshold requested w
          ≡ returns (replicate (length cs) granted) v)
        × (v.store ≡ logged cs w.store)
        × Alive cs w.outside v.outside
  unfolding extend_each
  each [] w h p = (w, refl, refl, λ d here. (here, omega arith, λ l. cc))
  each (c ∷ cs) w h (here, p) =
      let (u, first, event, alive) = one c w h here in
      let (v, rest, events, others) = each cs u h (still (c ∷ []) cs w.outside u.outside alive p) in
      (
        v,
        ground arith,
        rw events (rw event refl),
        more-Alive c cs w.outside u.outside v.outside alive others,
      )

  -- For at most twenty contracts, all of them present, and a threshold that is at most the time
  -- asked for and the ledger's largest, `extend_many` returns the smaller of the latter two once
  -- for each contract, with one event for each in order. Afterwards every contract of the list
  -- lives at least as long as the threshold, and no present contract is gone or lives shorter
  -- than before. The host extends a present contract's instance and code to the threshold, and
  -- shortens no life.
  pub extend_many-returns :
      (cs : List Address) (w : World Events X)
      → length cs ≤ 20
      → threshold ≤ granted
      → AllPresent cs w.outside
      → (v : World Events X) × (extend_many ledger cs threshold requested w
          ≡ returns (replicate (length cs) granted) v)
        × (v.store ≡ logged cs w.store)
        × Alive cs w.outside v.outside
  unfolding extend_many
  extend_many-returns cs w few h p =
      let (v, rest, events, alive) = each cs w h p in (v, ground arith, events, alive)
