-- ===== src/Daemon/Batches.antt =====
-- How the daemon cuts lists of jobs: keeper-rs/src/registry.rs, `batches`, `halves` and `ran_flags`.
use sorocron.Base.{
  ℕ, zero, suc, ◌+◌, ◌*◌, ◌-◌, ◌/◌, ◌≤◌, ◌≡◌, refl, Bool, true, false, List, [], ◌∷◌, min, max,
  arith,
}
use sorocron.Base.Lists.{length}
use sorocron.Daemon.{take, drop, chunks, batches, halves, filter_ran}

-- The number of jobs in a queue of batches.
abbrev pub jobs : List (List ℕ) → ℕ
jobs [] = 0
jobs (b ∷ bs) = length b + jobs bs

-- Rounds enough for a queue: a batch of `n` jobs needs `2 * n - 1`.
abbrev pub rounds : List (List ℕ) → ℕ
rounds [] = 0
rounds (b ∷ bs) = (2 * length b - 1) + rounds bs

-- No batch is empty.
abbrev pub Filled : List (List ℕ) → Type 0
Filled [] = Unit {0}
Filled (b ∷ bs) = (1 ≤ length b) × Filled bs

length-take : (n : ℕ) (xs : List ℕ) → length (take n xs) ≡ min n (length xs)
length-take zero xs = omega arith
length-take (suc n) [] = omega arith
length-take (suc n) (x ∷ xs) = omega (arith, length-take n xs)

length-drop : (n : ℕ) (xs : List ℕ) → length (drop n xs) ≡ length xs - n
length-drop zero xs = omega arith
length-drop (suc n) [] = omega arith
length-drop (suc n) (x ∷ xs) = omega (arith, length-drop n xs)

chunks_lem :
    (fuel size : ℕ) (ids : List ℕ)
    → 1 ≤ size
    → length ids ≤ fuel
    → (jobs (chunks fuel size ids) ≡ length ids) × Filled (chunks fuel size ids)
unfolding chunks
chunks_lem zero size [] h k = (refl, tt)
chunks_lem zero size (x ∷ xs) h k = omega arith
chunks_lem (suc fuel) size [] h k = (refl, tt)
chunks_lem (suc fuel) size (x ∷ xs) h k =
    let taken = length-take size (x ∷ xs) in
    let left = length-drop size (x ∷ xs) in
    let (total, filled) = chunks_lem fuel size (drop size (x ∷ xs)) h (omega (arith, left)) in
    (omega (arith, taken, left, total), (omega (arith, taken), filled))

pub batches_lem :
    (ids : List ℕ) (size : ℕ) → (jobs (batches ids size) ≡ length ids) × Filled (batches ids size)
unfolding batches
batches_lem ids size = chunks_lem (length ids) (min (max size 1) 20) ids (omega arith) (omega arith)

pub rounds-le : (queue : List (List ℕ)) → rounds queue ≤ 2 * jobs queue
rounds-le [] = omega arith
rounds-le (b ∷ bs) = omega (arith, rounds-le bs)

pub halves_lem :
    (ids : List ℕ)
    → 2 ≤ length ids
    → (1 ≤ length (halves ids).0)
      × (1 ≤ length (halves ids).1)
      × (length (halves ids).0 + length (halves ids).1 ≡ length ids)
unfolding halves
halves_lem ids h =
    let first = length-take ((length ids + 1) / 2) ids in
    let second = length-drop ((length ids + 1) / 2) ids in
    (omega (arith, first), omega (arith, second), omega (arith, first, second))

pub filter_ran-le : (ids : List ℕ) (flags : List Bool) → length (filter_ran ids flags) ≤ length ids
unfolding filter_ran
filter_ran-le [] flags = omega arith
filter_ran-le (id ∷ ids) [] = omega (arith, filter_ran-le ids [])
filter_ran-le (id ∷ ids) (true ∷ flags) = omega (arith, filter_ran-le ids flags)
filter_ran-le (id ∷ ids) (false ∷ flags) = omega (arith, filter_ran-le ids flags)
