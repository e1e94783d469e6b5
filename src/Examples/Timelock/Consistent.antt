-- ===== src/Examples/Timelock/Consistent.antt =====
-- The queue against the stored calls: contracts/examples/timelock/src/lib.rs.
use sorocron.Base.{
  ℕ, ◌+◌, ◌≤◌, ◌≡◌, refl, ap, sym, ◌∙◌, false, not, ◌&&◌, ◌||◌, ◌==◌, if◌then◌else◌, is_some, none,
  List, [], ◌∷◌, ◌++◌, arith, Bool-cases, inl, inr, eq-of-==, ne-of-==,
}
use sorocron.Base.Lists.{contains, remove_first}
use sorocron.Base.Dict.{
  Dict, find, put, delete, IsUnique, find-put, put-IsUnique, find-delete_self, find-delete_ne,
  delete-IsUnique,
}
use sorocron.Registry.Types.{Address, Symbol, Val}
use sorocron.Soroban.{Host, World, returns}
use sorocron.Examples.Timelock.{Timelock, QueuedCall, constructor, remove, enqueue, cancel}

-- No id is queued twice.
abbrev NoRepeat : List ℕ → Type 0
NoRepeat [] = Unit {0}
NoRepeat (x ∷ xs) = (contains xs x ≡ false) × NoRepeat xs

-- The queued ids are those of the stored calls, each once, and all below the next id.
pub record IsConsistent (s : Timelock) : Type 0 where
  pub unique : IsUnique s.calls
  pub distinct : NoRepeat s.queue
  pub stored : (id : ℕ) → contains s.queue id ≡ is_some (find id s.calls)
  pub fresh : (id : ℕ) → s.next_id ≤ id → find id s.calls ≡ none

contains-append : (xs : List ℕ) (a j : ℕ) → contains (xs ++ a ∷ []) j ≡ (contains xs j || a == j)
contains-append [] a j = ground arith
contains-append (x ∷ xs) a j = ground (arith, contains-append xs a j)

append-NoRepeat :
    (xs : List ℕ) (a : ℕ) → NoRepeat xs → contains xs a ≡ false → NoRepeat (xs ++ a ∷ [])
append-NoRepeat [] a n h = (refl, tt)
append-NoRepeat (x ∷ xs) a (p, n) h =
    (ground (arith, contains-append xs a x), append-NoRepeat xs a n (ground arith))

contains-remove :
    (xs : List ℕ) (a j : ℕ)
    → NoRepeat xs
    → contains (remove_first a xs) j ≡ (contains xs j && not (a == j))
contains-remove [] a j n = refl
contains-remove (x ∷ xs) a j (p, n) = elim (Bool-cases (x == a)) [
  | inl hit ↦ elim (Bool-cases (a == j)) [
    | inl same ↦ ground (arith, eq-of-== x a hit, eq-of-== a j same)
    | inr other ↦ ground (arith, eq-of-== x a hit)
  ]
  | inr miss ↦ ground (arith, contains-remove xs a j n)
]

remove_first-NoRepeat : (xs : List ℕ) (a : ℕ) → NoRepeat xs → NoRepeat (remove_first a xs)
remove_first-NoRepeat [] a n = tt
remove_first-NoRepeat (x ∷ xs) a (p, n) = elim (Bool-cases (x == a)) [
  | inl hit ↦ rw hit n
  | inr miss ↦ rw miss (ground (arith, contains-remove xs a x n), remove_first-NoRepeat xs a n)
]

find-delete :
    (j k : ℕ) (d : Dict QueuedCall)
    → IsUnique d
    → find j (delete k d) ≡ (if k == j then none else find j d)
find-delete j k d u = elim (Bool-cases (k == j)) [
  | inl same ↦ rw same (rw (← eq-of-== k j same) (find-delete_self k d u))
  | inr other ↦ rw other (find-delete_ne j k d (ne-of-== k j other))
]

-- What is left when one id is removed.
pub find-remove :
    (id j : ℕ) (s : Timelock)
    → IsConsistent s
    → find j (remove id s).calls ≡ (if id == j then none else find j s.calls)
unfolding remove
find-remove id j s c = elim (Bool-cases (contains s.queue id)) [
  | inl queued ↦ rw queued (find-delete j id s.calls c.unique)
  | inr gone ↦
      let absent : is_some (find id s.calls) ≡ false = sym (c.stored id) ∙ gone in
      elim (Bool-cases (id == j)) [
        | inl same ↦ ground (arith, eq-of-== id j same)
        | inr other ↦ ground arith
      ]
]

pub remove-IsConsistent : (id : ℕ) (s : Timelock) → IsConsistent s → IsConsistent (remove id s)
unfolding remove
remove-IsConsistent id s c = elim (Bool-cases (contains s.queue id)) [
  | inr gone ↦ rw gone c
  | inl queued ↦ rw queued record {
    unique = delete-IsUnique id s.calls c.unique;
    distinct = remove_first-NoRepeat s.queue id c.distinct;
    stored = λ j.
        contains-remove s.queue id j c.distinct
        ∙ ground (arith, c.stored j, find-delete j id s.calls c.unique);
    fresh = λ j h. ground (arith, c.fresh j h, find-delete j id s.calls c.unique);
  }
]

constructor-IsConsistent :
    (admin : Address) (delay grace : ℕ) → IsConsistent (constructor admin delay grace)
unfolding constructor find
constructor-IsConsistent admin delay grace = record {
  unique = tt;
  distinct = tt;
  stored = λ id. refl;
  fresh = λ id h. refl;
}

module _ {X : Type 0} (host : Host X) (w v : World Timelock X) where
  -- The calls after one more is queued.
  enqueue-facts :
      (target : Address) (function : Symbol) (args : List Val) (eta id : ℕ)
      → enqueue host target function args eta w ≡ returns id v
      → (id ≡ w.store.next_id)
        × (v.store.next_id ≡ w.store.next_id + 1)
        × (v.store.queue ≡ w.store.queue ++ w.store.next_id ∷ [])
        × (v.store.calls
            ≡ put w.store.next_id
                (record { target = target; function = function; args = args; eta = eta })
                w.store.calls)
  unfolding enqueue
  enqueue-facts target function args eta id h =
      (ground arith, ground arith, ground arith, ground arith)

  enqueue-IsConsistent :
      (target : Address) (function : Symbol) (args : List Val) (eta id : ℕ)
      → enqueue host target function args eta w ≡ returns id v
      → IsConsistent w.store
      → IsConsistent v.store
  enqueue-IsConsistent target function args eta id h c =
      let (_, next, queue, calls) = enqueue-facts target function args eta id h in
      let n = w.store.next_id in
      let absent = c.fresh n (omega arith) in
      let new : QueuedCall = record {
        target = target;
        function = function;
        args = args;
        eta = eta;
      } in
      record {
        unique = rw calls (put-IsUnique n new w.store.calls c.unique);
        distinct =
            rw queue (append-NoRepeat w.store.queue n c.distinct (c.stored n ∙ ap is_some absent));
        stored = λ j.
            rw (queue, calls, contains-append w.store.queue n j, find-put j n new w.store.calls)
              (ground (arith, c.stored j));
        fresh = λ j h. rw (calls, find-put j n new w.store.calls) (ground (arith, c.fresh j));
      }

  cancel-IsConsistent :
      (id : ℕ) → cancel host id w ≡ returns tt v → IsConsistent w.store → IsConsistent v.store
  cancel-IsConsistent id h c =
      let e : v.store ≡ remove id w.store = unfold cancel in ground arith in
      rw e (remove-IsConsistent id w.store c)
