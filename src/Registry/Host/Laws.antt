-- ===== src/Registry/Host/Laws.antt =====
-- Inversion of a sequence of actions of Host: how its first step ended.
use sorocron.Base.{◌≡◌, refl, ◌⊎◌, inl, inr, arith}
use sorocron.Registry.Types.{Error}
use sorocron.Registry.Host.{World, Outcome, returns, fails, traps, continue}

module _ {X A B : Type 0} where
  pub continue-returns :
      (o : Outcome X A) (f : A → World X → Outcome X B) {b : B} {w : World X}
      → continue o f ≡ returns b w
      → (a : A) × (v : World X) × (o ≡ returns a v) × (f a v ≡ returns b w)
  continue-returns (returns a v) f h = (a, v, refl, h)
  continue-returns (fails e v) f h = cc
  continue-returns traps f h = cc

  pub continue-fails :
      (o : Outcome X A) (f : A → World X → Outcome X B) {e : Error} {w : World X}
      → continue o f ≡ fails e w
      → (o ≡ fails e w) ⊎ ((a : A) × (v : World X) × (o ≡ returns a v) × (f a v ≡ fails e w))
  continue-fails (returns a v) f h = inr (a, v, refl, h)
  continue-fails (fails e v) f h = inl (ground arith)
  continue-fails traps f h = cc

pub Outcome-cases :
    {X A : Type 0} (o : Outcome X A)
    → ((a : A) × (w : World X) × (o ≡ returns a w))
      ⊎ (((e : Error) × (w : World X) × (o ≡ fails e w)) ⊎ (o ≡ traps))
Outcome-cases (returns a w) = inl (a, w, refl)
Outcome-cases (fails e w) = inr (inl (e, w, refl))
Outcome-cases traps = inr (inr refl)
