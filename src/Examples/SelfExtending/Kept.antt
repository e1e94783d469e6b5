-- ===== src/Examples/SelfExtending/Kept.antt =====
-- Which entries `extend_ttl` keeps alive: contracts/examples/self-extending/src/lib.rs.
use sorocron.Base.{
  ℕ, ◌+◌, ◌-◌, ◌<◌, ltb, ◌⊎◌, ◌≤◌, ◌≡◌, refl, true, false, ◌||◌, Option, none, some, List, [], ◌∷◌,
  ◌++◌, ◌==◌, arith, Bool-cases, Option-cases, inl, inr, eq-of-==,
}
use sorocron.Base.Lists.{length, contains, length-append}
use sorocron.Base.Dict.{Dict, find, put, find-put}
use sorocron.Registry.Types.{Address, Symbol, Val}
use sorocron.Soroban.{Host, World, committed}
use sorocron.Examples.SelfExtending.{
  constructor, threshold, extend_to, Entry, SelfExtending, bumped, indexed, is_full, extend_entry,
  extend_each, extend_ttl, store, age, pass_ledgers, is_live, all_live, written,
}

-- What the host's `extend_ttl` promises.
pub record Extending (extended : ℕ → ℕ → ℕ → ℕ) : Type 0 where
  pub never_shorter : (ttl low high : ℕ) → low ≤ high → ttl ≤ extended ttl low high
  pub long_enough : (ttl low high : ℕ) → low ≤ high → low ≤ extended ttl low high

module _ (extended : ℕ → ℕ → ℕ → ℕ) (fresh : ℕ) (laws : Extending extended) where
  -- What a later entry has of an earlier one.
  abbrev Outlives : Entry → Entry → Type 0
  Outlives e later = (later.value ≡ e.value) × (e.ttl ≤ later.ttl)

  extend_each-Outlives :
      (keys : List Symbol) (key : Symbol) (e : Entry) (d : Dict Entry)
      → find key d ≡ some e
      → (later : Entry) × (find key (extend_each extended fresh keys d) ≡ some later)
        × Outlives e later
        × ((contains keys key ≡ false) ⊎ (threshold ≤ later.ttl))
  unfolding extend_each
  extend_each-Outlives [] key e d h = (e, h, (refl, omega arith), inl refl)
  extend_each-Outlives (k ∷ keys) key e d h = elim (Bool-cases (k == key)) [
    | inl hit ↦
        let next : find key (extend_entry extended fresh k (find k d) d)
            ≡ some (bumped extended fresh e) =
          ground (arith, eq-of-== k key, find-put key k (bumped extended fresh e) d) in
        let (later, found, (same, longer), rest) =
          extend_each-Outlives keys key (bumped extended fresh e)
            (extend_entry extended fresh k (find k d) d) next in
        (
          later,
          found,
          (same, omega (arith, longer, laws.never_shorter e.ttl threshold extend_to)),
          inr (omega (arith, longer, laws.long_enough e.ttl threshold extend_to)),
        )
    | inr miss ↦
        let next : find key (extend_entry extended fresh k (find k d) d) ≡ some e =
          untouched miss (find k d) in
        let (later, found, outlives, rest) =
          extend_each-Outlives keys key e (extend_entry extended fresh k (find k d) d) next in
        (later, found, outlives, listed miss rest)
  ]
    where
      untouched :
          (k == key) ≡ false
          → (o : Option Entry) → find key (extend_entry extended fresh k o d) ≡ some e
      untouched miss none = h
      untouched miss (some other) = ground (arith, find-put key k (bumped extended fresh other) d)

      listed :
          {P : Type 0}
          → (k == key) ≡ false
          → (contains keys key ≡ false) ⊎ P
          → (contains (k ∷ keys) key ≡ false) ⊎ P
      listed e' (inl none_of) = inl (rw e' none_of)
      listed e' (inr long) = inr long

  extend_each-none :
      (keys : List Symbol) (key : Symbol) (d : Dict Entry)
      → find key d ≡ none
      → find key (extend_each extended fresh keys d) ≡ none
  unfolding extend_each
  extend_each-none [] key d h = h
  extend_each-none (k ∷ keys) key d h =
      extend_each-none keys key (extend_entry extended fresh k (find k d) d)
        (untouched (find k d) refl)
    where
      untouched :
          (o : Option Entry) → find k d ≡ o → find key (extend_entry extended fresh k o d) ≡ none
      untouched none e = h
      untouched (some other) e =
          ground (arith, eq-of-== k key, find-put key k (bumped extended fresh other) d)

contains-append :
    (xs ys : List ℕ) (a : ℕ) → contains (xs ++ ys) a ≡ (contains xs a || contains ys a)
contains-append [] ys a = refl
contains-append (x ∷ xs) ys a = ground (arith, contains-append xs ys a)

indexed-contains :
    (extended : ℕ → ℕ → ℕ → ℕ) (fresh : ℕ) (key k : Symbol) (index : List Symbol)
    → (key ≡ k) ⊎ (contains index k ≡ true)
    → contains (indexed extended fresh key index) k ≡ true
indexed-contains extended fresh key k index (inl same) =
    rw (← same) (ground (arith, contains-append index (key ∷ []) key))
indexed-contains extended fresh key k index (inr held) =
    ground (arith, contains-append index (key ∷ []) k)

stored_as :
    (k key : Symbol) (new e : Entry) (d : Dict Entry)
    → find k (put key new d) ≡ some e
    → ((key ≡ k) × (e ≡ new)) ⊎ (find k d ≡ some e)
stored_as k key new e d h = elim (Bool-cases (key == k)) [
  | inl hit ↦ inl (eq-of-== key k hit, ground (arith, find-put k key new d))
  | inr miss ↦ inr (ground (arith, find-put k key new d))
]

find-age :
    (k n : ℕ) (e : Entry) (d : Dict Entry)
    → find k (age n d) ≡ some e
    → (before : Entry) × (find k d ≡ some before) × (e.ttl ≡ before.ttl - n)
unfolding find age
find-age k n e [] h = cc
find-age k n e (entry ∷ d) h = elim (Bool-cases (entry.0 == k)) [
  | inl hit ↦ (entry.1, ground arith, ground arith)
  | inr miss ↦
      let (before, found, aged) = find-age k n e d (ground arith) in (before, ground arith, aged)
]

-- Every stored entry is in the index, which is bounded, and everything that the contract stores lived
-- as long as the threshold `n` ledgers ago.
pub record IsKept (n : ℕ) (s : SelfExtending) : Type 0 where
  pub listed :
      (key : Symbol) (e : Entry) → find key s.entries ≡ some e → contains s.index key ≡ true
  pub few : length s.index ≤ 50
  pub lasting : (key : Symbol) (e : Entry) → find key s.entries ≡ some e → threshold ≤ e.ttl + n
  pub instance_lasting : threshold ≤ s.instance_ttl + n

pub pass_ledgers-IsKept :
    (n k : ℕ) (s : SelfExtending) → IsKept n s → IsKept (n + k) (pass_ledgers k s)
pass_ledgers-IsKept n k s i = record {
  listed = λ key e found.
      let (before, stored, _) = find-age key k e s.entries found in i.listed key before stored;
  few = i.few;
  lasting = λ key e found.
      let (before, stored, aged) = find-age key k e s.entries found in
      omega (arith, i.lasting key before stored, aged);
  instance_lasting = omega (arith, i.instance_lasting);
}

all_live_lem :
    (keys : List Symbol) (d : Dict Entry)
    → ((key : Symbol) (e : Entry) → find key d ≡ some e → 0 < e.ttl)
    → all_live keys d ≡ true
all_live_lem [] d h = refl
all_live_lem (key ∷ keys) d h = elim (Option-cases (find key d)) [
  | inl missing ↦ rw missing (all_live_lem keys d h)
  | inr (e, found) ↦ let live = h key e found in rw found (ground (arith, all_live_lem keys d h))
]

module _ (extended : ℕ → ℕ → ℕ → ℕ) (fresh : ℕ) (laws : Extending extended) where
  pub store-IsKept :
      {X : Type 0} (host : Host X) (key : Symbol) (value : Val) (n : ℕ) (w : World SelfExtending X)
      → IsKept n w.store
      → IsKept n (committed w (store extended fresh host key value w)).store
  unfolding store
  store-IsKept host key value n w i = elim (Bool-cases (ltb 0 w.store.instance_ttl)) [
    | inr archived ↦ rw archived i
    | inl live ↦ elim (Bool-cases (host.authorized w.store.admin)) [
      | inr unsigned ↦ rw (live, unsigned) i
      | inl signed ↦ elim (Bool-cases (is_full extended fresh key w.store.index)) [
        | inl full ↦ rw (live, signed, full) i
        | inr room ↦ elim (Bool-cases (is_live (find key w.store.entries))) [
          | inr archived ↦ rw (live, signed, room, archived) i
          | inl stored_live ↦
              rw (live, signed, room, stored_live)
                (put_entry (written extended fresh value (find key w.store.entries)) room)
        ]
      ]
    ]
  ]
    where
      put_entry :
          (new : Entry)
          → is_full extended fresh key w.store.index ≡ false
          → IsKept n (record w.store {
            index = indexed extended fresh key w.store.index;
            entries = put key (bumped extended fresh new) w.store.entries;
          })
      put_entry new room = record {
        listed = λ k e found.
            elim (stored_as k key (bumped extended fresh new) e w.store.entries found) [
              | inl (same, _) ↦ indexed-contains extended fresh key k w.store.index (inl same)
              | inr stored ↦
                  indexed-contains extended fresh key k w.store.index (inr (i.listed k e stored))
            ];
        few = ground (arith, i.few, room, length-append w.store.index (key ∷ []));
        lasting = λ k e found.
            elim (stored_as k key (bumped extended fresh new) e w.store.entries found) [
              | inl (_, same) ↦
                  rw same
                    (omega (arith, laws.long_enough new.ttl threshold extend_to (omega arith)))
              | inr stored ↦ i.lasting k e stored
            ];
        instance_lasting = i.instance_lasting;
      }

  -- What `extend_ttl` makes of a state.
  abbrev pub Extended : SelfExtending → SelfExtending → Type 0
  Extended s later =
      (threshold ≤ later.instance_ttl)
      × (s.instance_ttl ≤ later.instance_ttl)
      × ((key : Symbol) (e : Entry)
          → find key s.entries ≡ some e
          → (e' : Entry) × (find key later.entries ≡ some e')
            × Outlives extended fresh laws e e'
            × (threshold ≤ e'.ttl))

  pub extend_ttl_lem :
      (n : ℕ) (s : SelfExtending)
      → n < threshold
      → IsKept n s
      → (later : SelfExtending) × (extend_ttl extended fresh s ≡ some (length s.index, later))
        × Extended s later
        × IsKept 0 later
  unfolding extend_ttl
  extend_ttl_lem n s early i =
      let later : SelfExtending = record s {
        instance_ttl = extended s.instance_ttl threshold extend_to;
        entries = extend_each extended fresh s.index s.entries;
      } in
      let live = all_live_lem s.index s.entries (λ key e f. omega (arith, i.lasting key e f)) in
      let present : ltb 0 s.instance_ttl ≡ true = ground (arith, i.instance_lasting) in
      let long = laws.long_enough s.instance_ttl threshold extend_to (omega arith) in
      (
        later,
        rw (live, present) refl,
        (
          long,
          laws.never_shorter s.instance_ttl threshold extend_to (omega arith),
          λ key e found. each key e found,
        ),
        record {
          listed = λ key e found.
              let (before, stored, _) = earlier key e found in i.listed key before stored;
          few = i.few;
          lasting = λ key e found.
              let (before, stored, same) = earlier key e found in
              let (e', f, _, enough) = each key before stored in
              let twice : e' ≡ e = ground arith in rw (← twice) (omega (arith, enough));
          instance_lasting = omega (arith, long);
        },
      )
    where
      each :
          (key : Symbol) (e : Entry)
          → find key s.entries ≡ some e
          → (e' : Entry) × (find key (extend_each extended fresh s.index s.entries) ≡ some e')
            × Outlives extended fresh laws e e'
            × (threshold ≤ e'.ttl)
      each key e found =
          let (e', stored, outlives, rest) =
            extend_each-Outlives extended fresh laws s.index key e s.entries found in
          (
            e',
            stored,
            outlives,
            elim rest [ inl none_of ↦ cc (i.listed key e found, none_of) | inr enough ↦ enough ],
          )

      earlier :
          (key : Symbol) (e : Entry)
          → find key (extend_each extended fresh s.index s.entries) ≡ some e
          → (before : Entry) × (find key s.entries ≡ some before) × Unit {0}
      earlier key e found = elim (Option-cases (find key s.entries)) [
        | inl missing ↦
            cc (found, extend_each-none extended fresh laws s.index key s.entries missing)
        | inr (before, stored) ↦ (before, stored, tt)
      ]

  pub constructor-IsKept :
      (admin : Address) → threshold ≤ fresh → IsKept 0 (constructor extended fresh admin)
  unfolding constructor find
  constructor-IsKept admin h = record {
    listed = λ key e f. cc;
    few = omega arith;
    lasting = λ key e f. cc;
    instance_lasting = omega arith;
  }
