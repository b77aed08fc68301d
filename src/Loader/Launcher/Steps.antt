-- ===== src/Loader/Launcher/Steps.antt =====
-- Each action on one entry keeps the count of workers in step with the entry's slot.
use timescaledb.Base.{ℕ, ◌+◌, ◌≤◌, ◌≡◌, ◌⊎◌, Option, none, some, arith}
use timescaledb.Loader.Counter.{increment, decrement}
use timescaledb.Loader.Launcher.{
  SchedulerState, enabled, allocated, started, disabled, DbHashEntry, Env, bgwh_postmaster_died,
  trans_automatic, start_entry, stop_entry, restart_entry,
}

-- A database holds a worker slot while its scheduler is allocated or started.
abbrev pub slot_of : SchedulerState → ℕ
slot_of enabled = 0
slot_of allocated = 1
slot_of started = 1
slot_of disabled = 0

abbrev pub HandleIsNone : SchedulerState → Option ℕ → Type 0
HandleIsNone started h = Unit
HandleIsNone s h = h ≡ none

-- Only a started scheduler has a handle, as the code's assertions say.
abbrev pub IsEntry : DbHashEntry → Type 0
IsEntry e = HandleIsNone e.state e.db_scheduler_handle

abbrev pub PostmasterDied : Env → Type 0
PostmasterDied env =
    (env.startup ≡ bgwh_postmaster_died)
    ⊎ ((env.pid ≡ bgwh_postmaster_died) ⊎ (env.shutdown ≡ bgwh_postmaster_died))

-- What an action on an entry may end in: an exit only when the postmaster died, and else a count
-- that moved with the entry's slot, within the limit.
abbrev pub Ends : ℕ → Env → ℕ → DbHashEntry → Option (ℕ × DbHashEntry) → Type 0
Ends max_workers env total e none = PostmasterDied env
Ends max_workers env total e (some (total', e')) =
    (total' + slot_of e.state ≡ total + slot_of e'.state)
    × (total' ≤ max_workers)
    × IsEntry e'
    × (e'.db_oid ≡ e.db_oid)

module _ (max_workers : ℕ) (env : Env) (total : ℕ) (e : DbHashEntry)
    (room : 1 + slot_of e.state ≤ total) (limit : total ≤ max_workers) (valid : IsEntry e) where
  pub trans_automatic-Ends : Ends max_workers env total e (trans_automatic max_workers env total e)
  unfolding trans_automatic increment decrement
  trans_automatic-Ends = ground arith

  pub stop_entry-Ends : Ends max_workers env total e (stop_entry max_workers env total e)
  unfolding stop_entry decrement
  stop_entry-Ends = ground arith

  pub start_entry-Ends : Ends max_workers env total e (start_entry max_workers env total e)
  unfolding start_entry increment decrement
  start_entry-Ends = ground arith

  pub restart_entry-Ends :
      (vxid : Option ℕ) → Ends max_workers env total e (restart_entry max_workers env vxid total e)
  unfolding restart_entry increment decrement
  restart_entry-Ends vxid = ground arith
