-- ===== src/Loader/Counter.antt =====
-- src/loader/bgw_counter.c. The shared state is `total_workers`; each operation holds the spin lock
-- from its test to its write, so it is one step. `max_workers` is the setting
-- timescaledb.max_background_workers.
use timescaledb.Base.{
  ℕ, ◌+◌, ◌-◌, ◌≤◌, ◌≡◌, Bool, true, false, Option, none, some, if◌then◌else◌, leb, arith,
}

-- `ts_bgw_counter_reinit`.
unfoldable pub reinit : ℕ → ℕ
reinit total = 0

-- The new total, and whether it was incremented.
unfoldable pub increment_by : ℕ → ℕ → ℕ → ℕ × Bool
increment_by max_workers n total =
    if leb (total + n) max_workers then (total + n, true) else (total, false)

unfoldable pub increment : ℕ → ℕ → ℕ × Bool
unfolding increment_by
increment max_workers total = increment_by max_workers 1 total

-- `none` is the fatal error.
unfoldable pub decrement_by : ℕ → ℕ → Option ℕ
decrement_by n total = if leb (1 + n) total then some (total - n) else none

unfoldable pub decrement : ℕ → Option ℕ
unfolding decrement_by
decrement total = decrement_by 1 total

-- A worker that is counted is within the limit.
pub increment_lem :
    (m total total' : ℕ) → increment m total ≡ (total', true) → (total' ≡ total + 1) × (total' ≤ m)
unfolding increment
increment_lem m total total' h = ground arith

-- A worker is released only above one, which is the launcher's own.
pub decrement_lem :
    (total total' : ℕ) → decrement total ≡ some total' → (total ≡ total' + 1) × (1 ≤ total')
unfolding decrement
decrement_lem total total' h = ground arith
