-- ===== src/Registry/Schedule/Grid.antt =====
-- `next_run_after` against the job's grid, and the end of unbonding:
-- contracts/registry/src/schedule.rs.
use sorocron.Base.{
  ℕ, zero, suc, ◌+◌, ◌-◌, ◌*◌, ◌/◌, ◌≤◌, ◌<◌, min, ◌≡◌, refl, ◌⊎◌, inl, inr, some, arith,
}
use sorocron.Base.Word.{u64_max}
use sorocron.Registry.Schedule.{next_run_after, unbonding_release}

-- The number of intervals by which a run moves.
abbrev pub steps : ℕ → ℕ → ℕ → ℕ
steps scheduled interval now = (now - scheduled) / interval + 1

div_lt : (n i : ℕ) → 0 < i → n < (n / i + 1) * i
div_lt n i h = grind arith

div_le : (n i : ℕ) → n / i * i ≤ n
div_le n i = grind arith

next_run_after_lem :
    (scheduled interval now : ℕ)
    → 0 < interval
    → now - scheduled < u64_max
    → next_run_after scheduled interval now
      ≡ some (min (scheduled + steps scheduled interval now * interval) u64_max)
unfolding next_run_after
next_run_after_lem scheduled interval now h k =
    let whole = div_le (now - scheduled) interval in ground arith

one_or_before :
    (scheduled interval now : ℕ)
    → (steps scheduled interval now ≡ 1)
      ⊎ (scheduled + (steps scheduled interval now - 1) * interval ≤ now)
one_or_before scheduled interval now = before ((now - scheduled) / interval) refl
  where
    before :
        (q : ℕ)
        → (now - scheduled) / interval ≡ q
        → (q + 1 ≡ 1) ⊎ (scheduled + (q + 1 - 1) * interval ≤ now)
    before zero e = inl refl
    before (suc q) e = inr (grind (arith, div_le (now - scheduled) interval))

-- With an interval of at least one second and less than 2^64 - 1 seconds since the scheduled
-- time, the next run is computed without overflow. It lies on the grid of the scheduled time,
-- after `now` and after the scheduled time, and it is the first such point: one interval earlier
-- is not after both. Only a point beyond the u64 is replaced by the largest u64.
pub next_run_after_grid :
    (scheduled interval now : ℕ)
    → 0 < interval
    → now - scheduled < u64_max
    → (k : ℕ) × (next_run_after scheduled interval now
        ≡ some (min (scheduled + k * interval) u64_max))
      × (0 < k)
      × (now < scheduled + k * interval)
      × ((k ≡ 1) ⊎ (scheduled + (k - 1) * interval ≤ now))
next_run_after_grid scheduled interval now h k =
    let up = div_lt (now - scheduled) interval h in
    let down = div_le (now - scheduled) interval in
    (
      steps scheduled interval now,
      next_run_after_lem scheduled interval now h k,
      omega arith,
      omega arith,
      one_or_before scheduled interval now,
    )

-- Unbonding started at `now` ends no earlier than the unbonding period after it, and no later
-- than the period and one epoch after it, if that time is within the u64.
pub unbonding_release_bounds :
    (now period epoch : ℕ)
    → now + epoch + period ≤ u64_max
    → (now + period ≤ unbonding_release now period epoch)
      × (unbonding_release now period epoch ≤ now + epoch + period)
unfolding unbonding_release
unbonding_release_bounds now period epoch h =
    let down = div_le now epoch in let up = div_lt now epoch in ground arith
