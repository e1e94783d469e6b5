-- ===== src/Base/Dict.antt =====
-- A typed part of the contract's storage: an association list keyed by numbers.
use Prim.Native.Nat.{ℕ}
use mathlib.Core.Path.{◌≡◌, refl, subst}
use mathlib.Core.Logic.{◌≢◌, inl, inr}
use mathlib.Core.Option.{Option, none, some}
use mathlib.Core.List.{List, [], ◌∷◌}
use native.Mathlib.Omega.{arith}
use sorocron.Base.Tests.{◌==◌, if◌then◌else◌, Bool-cases}
use sorocron.Base.Int.{ℤ, pos, ◌+ℤ◌, int_laws}

abbrev pub Dict : Type 0 → Type 0
Dict V = List (ℕ × V)

module _ {V : Type 0} where
  unfoldable pub find : ℕ → Dict V → Option V
  find k [] = none
  find k (e ∷ d) = if e.0 == k then some e.1 else find k d

  unfoldable pub put : ℕ → V → Dict V → Dict V
  put k v [] = (k, v) ∷ []
  put k v (e ∷ d) = if e.0 == k then (k, v) ∷ d else e ∷ put k v d

  unfoldable pub delete : ℕ → Dict V → Dict V
  delete k [] = []
  delete k (e ∷ d) = if e.0 == k then d else e ∷ delete k d

  pub find-put :
      (j k : ℕ) (v : V) (d : Dict V) → find j (put k v d) ≡ (if k == j then some v else find j d)
  unfolding find put
  find-put j k v [] = ground arith
  find-put j k v (e ∷ d) = ground (arith, find-put j k v d)

  pub find-delete_ne : (j k : ℕ) (d : Dict V) → k ≢ j → find j (delete k d) ≡ find j d
  unfolding find delete
  find-delete_ne j k [] h = refl
  find-delete_ne j k (e ∷ d) h = ground (arith, find-delete_ne j k d h)

  -- No key is listed twice.
  abbrev pub IsUnique : Dict V → Type 0
  IsUnique [] = Unit
  IsUnique (e ∷ d) = (find e.0 d ≡ none) × IsUnique d

  pub find-delete_self : (k : ℕ) (d : Dict V) → IsUnique d → find k (delete k d) ≡ none
  unfolding find delete
  find-delete_self k [] h = refl
  find-delete_self k (e ∷ d) h = ground (arith, find-delete_self k d h.1)

  pub put-IsUnique : (k : ℕ) (v : V) (d : Dict V) → IsUnique d → IsUnique (put k v d)
  unfolding find put
  put-IsUnique k v [] h = (refl, tt)
  put-IsUnique k v (e ∷ d) h = ground (arith, put-IsUnique k v d h.1, find-put e.0 k v d)

  pub delete-IsUnique : (k : ℕ) (d : Dict V) → IsUnique d → IsUnique (delete k d)
  unfolding find delete
  delete-IsUnique k [] h = tt
  delete-IsUnique k (e ∷ d) h = ground (arith, delete-IsUnique k d h.1, find-delete_ne e.0 k d)

-- The sum of a measure over all entries.
module _ {V : Type 0} (f : V → ℤ) where
  unfoldable pub sum_by : Dict V → ℤ
  sum_by [] = pos 0
  sum_by (e ∷ d) = f e.1 +ℤ sum_by d

  pub sum_by-put :
      (k : ℕ) (v old : V) (d : Dict V)
      → find k d ≡ some old
      → sum_by (put k v d) +ℤ f old ≡ sum_by d +ℤ f v
  unfolding find put sum_by
  sum_by-put k v old [] h = cc
  sum_by-put k v old (e ∷ d) h = grind (int_laws, sum_by-put k v old d)

  pub sum_by-put_new :
      (k : ℕ) (v : V) (d : Dict V) → find k d ≡ none → sum_by (put k v d) ≡ sum_by d +ℤ f v
  unfolding find put sum_by
  sum_by-put_new k v [] h = omega int_laws
  sum_by-put_new k v (e ∷ d) h = grind (int_laws, sum_by-put_new k v d)

  pub sum_by-delete :
      (k : ℕ) (old : V) (d : Dict V) → find k d ≡ some old → sum_by (delete k d) +ℤ f old ≡ sum_by d
  unfolding find delete sum_by
  sum_by-delete k old [] h = cc
  sum_by-delete k old (e ∷ d) h = grind (int_laws, sum_by-delete k old d)

-- Every value of a dictionary has the property.
module _ {V : Type 0} (P : V → Type 0) where
  abbrev pub Each : Dict V → Type 0
  Each [] = Unit
  Each (e ∷ d) = P e.1 × Each d

  pub Each-find : (k : ℕ) (v : V) (d : Dict V) → Each d → find k d ≡ some v → P v
  unfolding find
  Each-find k v [] h e = cc
  Each-find k v (e' ∷ d) h e = elim (Bool-cases (e'.0 == k)) [
    | inl hit ↦ subst P (ground arith) h.0
    | inr miss ↦ Each-find k v d h.1 (ground arith)
  ]

  pub Each-put : (k : ℕ) (v : V) (d : Dict V) → Each d → P v → Each (put k v d)
  unfolding put
  Each-put k v [] h p = (p, tt)
  Each-put k v (e ∷ d) h p = elim (Bool-cases (e.0 == k)) [
    | inl hit ↦ rw hit (p, h.1)
    | inr miss ↦ rw miss (h.0, Each-put k v d h.1 p)
  ]

  pub Each-delete : (k : ℕ) (d : Dict V) → Each d → Each (delete k d)
  unfolding delete
  Each-delete k [] h = tt
  Each-delete k (e ∷ d) h = elim (Bool-cases (e.0 == k)) [
    | inl hit ↦ rw hit h.1
    | inr miss ↦ rw miss (h.0, Each-delete k d h.1)
  ]
