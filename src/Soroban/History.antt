-- ===== src/Soroban/History.antt =====
-- A contract's history: calls one after the other, each against the host as it is at its time.
use sorocron.Base.{ℕ, ◌≤◌, List, [], ◌∷◌}
use sorocron.Soroban.{Host}

module _ {X C : Type 0} where
  -- Time does not go back.
  abbrev pub InOrder : ℕ → List (Host X × C) → Type 0
  InOrder now [] = Unit {0}
  InOrder now ((host, c) ∷ moments) = (now ≤ host.timestamp) × InOrder host.timestamp moments

  abbrev pub end_time : ℕ → List (Host X × C) → ℕ
  end_time now [] = now
  end_time now ((host, c) ∷ moments) = end_time host.timestamp moments

module _ {X C W : Type 0} (serve : Host X → C → W → W) where
  abbrev pub run : List (Host X × C) → W → W
  run [] w = w
  run ((host, c) ∷ moments) w = run moments (serve host c w)

  -- A property that time alone keeps, and each call, holds at the end.
  pub run-keeps :
      (P : ℕ → W → Type 0)
      → ((now later : ℕ) (w : W) → now ≤ later → P now w → P later w)
      → ((host : Host X) (c : C) (w : W) → P host.timestamp w → P host.timestamp (serve host c w))
      → (moments : List (Host X × C)) (now : ℕ) (w : W) → InOrder now moments
      → P now w
      → P (end_time now moments) (run moments w)
  run-keeps P wait step [] now w o p = p
  run-keeps P wait step ((host, c) ∷ moments) now w (le, o) p =
      run-keeps P wait step moments host.timestamp (serve host c w) o
        (step host c w (wait now host.timestamp w le p))
