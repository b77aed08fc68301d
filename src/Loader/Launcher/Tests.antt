-- ===== src/Loader/Launcher/Tests.antt =====
-- A launcher with one database, at concrete steps.
use timescaledb.Base.{◌+◌, ◌≡◌, ◌≤◌, refl, true, none, some, [], ◌∷◌, arith}
use timescaledb.Loader.Counter.{increment, decrement, increment_lem, decrement_lem, reinit}
use timescaledb.Loader.MessageQueue.{BgwMessage, stop}
use timescaledb.Loader.Launcher.{
  SchedulerState-discrete, started, disabled, DbHashEntry, Env, bgwh_started, bgwh_stopped,
  handle_message, Launcher, ack_success, find_entry, find_entry, populate,
}
use timescaledb.Loader.Launcher.Acks.{stop_acknowledged}
use timescaledb.Loader.Launcher.Reach.{
  Handled, handle_message-Inv, System, Reach, here, next, populates, SystemInv, IsInitial,
  Reach-Inv,
}
use timescaledb.Loader.Launcher.Slots.{Inv}

counted : increment 8 4 ≡ (5, true)
unfolding increment
counted = refl

released : decrement 5 ≡ some 4
unfolding decrement
released = refl

increment_lem_example : (5 ≡ 4 + 1) × (5 ≤ 8)
increment_lem_example = increment_lem 8 4 5 counted

decrement_lem_example : (5 ≡ 4 + 1) × (1 ≤ 4)
decrement_lem_example = decrement_lem 5 4 released

abbrev answers : Env
answers = record {
  registered = some 9;
  startup = bgwh_started;
  pid = bgwh_started;
  shutdown = bgwh_stopped;
}

abbrev running : DbHashEntry
running = record {
  db_oid = 5;
  db_scheduler_handle = some 9;
  state = started;
  vxid = none;
  state_transition_failures = 0;
}

abbrev launcher : Launcher
launcher = record { total_workers = 2; db_htab = running ∷ [] }

abbrev request : BgwMessage
request = record { message_type = stop; sender_pid = 7; db_oid = 5; ack_dsm_handle = 1 }

abbrev stopped : Launcher
stopped = record {
  total_workers = 1;
  db_htab = record running { db_scheduler_handle = none; state = disabled } ∷ [];
}

stops : handle_message 8 answers (some none) request launcher ≡ some (stopped, some ack_success)
unfolding handle_message decrement SchedulerState-discrete
stops = refl

stop_acknowledged_example :
    (some ack_success ≡ some ack_success)
    × ((e : DbHashEntry) × (find_entry 5 stopped.db_htab ≡ some e) × (e.state ≡ disabled))
stop_acknowledged_example =
    stop_acknowledged 8 answers none request launcher stopped (some ack_success) refl stops

launcher-Inv : Inv 8 0 launcher
launcher-Inv = record { limited = omega arith; entries = (tt, tt); counted = omega arith }

handle_message-Inv_example :
    Handled 8 0 answers (handle_message 8 answers (some none) request launcher)
handle_message-Inv_example =
    handle_message-Inv 8 0 answers (some none) request launcher launcher-Inv

abbrev first : System
first = record { launcher = record { total_workers = 1; db_htab = [] }; others = 0 }

first-IsInitial : IsInitial 8 first
unfolding increment reinit
first-IsInitial = (3, refl, refl, refl)

abbrev second : System
second = record { launcher = populate 8 (5 ∷ 6 ∷ []) first.launcher; others = 0 }

reached : Reach 8 first second
reached = next here (populates (5 ∷ 6 ∷ []))

Reach-Inv_example : SystemInv 8 second
Reach-Inv_example = Reach-Inv 8 first second first-IsInitial reached
