-- ===== src/Loader/Launcher.antt =====
-- The state machine of src/loader/bgw_launcher.c, which runs one scheduler for each database.
-- The hash table of databases is a list of entries, keyed by `db_oid`; a worker handle is a number.
-- What PostgreSQL answers to the calls made for an entry is `Env`, an argument of each action; an
-- action that would exit, because the postmaster died or a worker is released that was never
-- counted, is `none`.
pub mod Steps
pub mod Slots
pub mod Reach
pub mod Acks
mod Tests
use timescaledb.Base.{
  ℕ, suc, ◌+◌, ◌≡◌, ◌⊎◌, inl, inr, refl, Bool, true, false, Option, none, some, List, [], ◌∷◌, ◌++◌,
  if◌then◌else◌, ◌==◌, ◌>>=◌,
}
use mathlib.Core.Logic.{ite}
use timescaledb.Loader.Counter.{increment, decrement}
use timescaledb.Loader.MessageQueue.{BgwMessage, BgwMessageType, stop, start, restart}

pub data SchedulerState : Type 0 where
  enabled allocated started disabled : SchedulerState

pub SchedulerState-discrete : Discrete SchedulerState
SchedulerState-discrete = hlevel

pub record DbHashEntry : Type 0 where
  pub db_oid : ℕ
  pub db_scheduler_handle : Option ℕ
  pub state : SchedulerState
  pub vxid : Option ℕ
  pub state_transition_failures : ℕ

pub data BgwHandleStatus : Type 0 where
  bgwh_started bgwh_not_yet_started bgwh_stopped bgwh_postmaster_died : BgwHandleStatus

-- The answers of RegisterDynamicBackgroundWorker, WaitForBackgroundWorkerStartup,
-- GetBackgroundWorkerPid and WaitForBackgroundWorkerShutdown.
pub record Env : Type 0 where
  pub registered : Option ℕ
  pub startup : BgwHandleStatus
  pub pid : BgwHandleStatus
  pub shutdown : BgwHandleStatus

-- A handle's status, `bgwh_stopped` if there is no handle; `none` where the postmaster died.
unfoldable pub handle_status : Option ℕ → BgwHandleStatus → Option BgwHandleStatus
handle_status none status = some bgwh_stopped
handle_status (some h) bgwh_started = some bgwh_started
handle_status (some h) bgwh_not_yet_started = some bgwh_not_yet_started
handle_status (some h) bgwh_stopped = some bgwh_stopped
handle_status (some h) bgwh_postmaster_died = none

unfoldable pub report_failure : DbHashEntry → DbHashEntry
report_failure entry = record entry {
  state_transition_failures = entry.state_transition_failures + 1;
}

unfoldable pub modify_state : DbHashEntry → SchedulerState → DbHashEntry
modify_state entry new_state = record entry { state_transition_failures = 0; state = new_state }

unfoldable pub disabled_to_enabled : DbHashEntry → DbHashEntry
unfolding modify_state
disabled_to_enabled entry = modify_state entry enabled

module _ (max_workers : ℕ) where
  -- The total of workers, and the entry.
  unfoldable pub enabled_to_allocated : ℕ → DbHashEntry → ℕ × DbHashEntry
  unfolding report_failure modify_state
  enabled_to_allocated total entry =
      let (total', incremented) = increment max_workers total in
      (total', if incremented then modify_state entry allocated else report_failure entry)

unfoldable pub started_to_allocated : DbHashEntry → DbHashEntry
unfolding modify_state
started_to_allocated entry = modify_state (record entry { db_scheduler_handle = none }) allocated

unfoldable pub allocated_to_started : Env → DbHashEntry → Option DbHashEntry
unfolding report_failure modify_state handle_status
allocated_to_started env entry = elim env.registered [
  | none ↦ some (report_failure entry)
  | some h ↦ handle_status (some h) env.startup >>= λ _.
      some (modify_state (record entry { db_scheduler_handle = some h; vxid = none }) started)
]

unfoldable pub enabled_to_disabled : DbHashEntry → DbHashEntry
unfolding modify_state
enabled_to_disabled entry = modify_state entry disabled

unfoldable pub allocated_to_disabled : ℕ → DbHashEntry → Option (ℕ × DbHashEntry)
unfolding modify_state
allocated_to_disabled total entry = do
  total' ← decrement total
  some (total', modify_state entry disabled)

unfoldable pub started_to_disabled : ℕ → DbHashEntry → Option (ℕ × DbHashEntry)
unfolding modify_state
started_to_disabled total entry = do
  total' ← decrement total
  some (total', modify_state (record entry { db_scheduler_handle = none }) disabled)

module _ (max_workers : ℕ) (env : Env) where
  try_start : ℕ × DbHashEntry → Option (ℕ × DbHashEntry)
  unfolding allocated_to_started
  try_start (total, entry) = elim entry.state [
    | allocated ↦ allocated_to_started env entry >>= λ e. some (total, e)
    | _ ↦ some (total, entry)
  ]

  -- `scheduler_state_trans_automatic`, by the entry's state.
  unfoldable pub trans_automatic : ℕ → DbHashEntry → Option (ℕ × DbHashEntry)
  unfolding try_start enabled_to_allocated allocated_to_started started_to_disabled handle_status
  trans_automatic total entry = elim entry.state [
    | enabled ↦ try_start (enabled_to_allocated max_workers total entry)
    | allocated ↦ allocated_to_started env entry >>= λ e. some (total, e)
    | started ↦ handle_status entry.db_scheduler_handle env.pid >>= λ status. elim status [
      | bgwh_stopped ↦ started_to_disabled total entry
      | _ ↦ some (total, entry)
    ]
    | disabled ↦ some (total, entry)
  ]

  -- What a message does to its entry.
  unfoldable pub start_entry : ℕ → DbHashEntry → Option (ℕ × DbHashEntry)
  unfolding trans_automatic disabled_to_enabled
  start_entry total entry =
      let entry' : DbHashEntry = elim entry.state [
        | disabled ↦ disabled_to_enabled entry
        | _ ↦ entry
      ] in
      trans_automatic total entry'

  unfoldable pub stop_entry : ℕ → DbHashEntry → Option (ℕ × DbHashEntry)
  unfolding enabled_to_disabled allocated_to_disabled started_to_disabled handle_status
  stop_entry total entry = elim entry.state [
    | enabled ↦ some (total, enabled_to_disabled entry)
    | allocated ↦ allocated_to_disabled total entry
    | started ↦ handle_status entry.db_scheduler_handle env.shutdown >>= λ _.
        started_to_disabled total entry
    | disabled ↦ some (total, entry)
  ]

  unfoldable pub restart_entry : Option ℕ → ℕ → DbHashEntry → Option (ℕ × DbHashEntry)
  unfolding trans_automatic disabled_to_enabled started_to_allocated handle_status
  restart_entry vxid total entry =
      let waiting = record entry { vxid = vxid } in
      let moved : Option DbHashEntry = elim entry.state [
        | started ↦ handle_status entry.db_scheduler_handle env.shutdown >>= λ _.
            some (started_to_allocated waiting)
        | disabled ↦ some (disabled_to_enabled waiting)
        | _ ↦ some waiting
      ] in
      moved >>= trans_automatic total

  unfoldable pub message_entry :
      Option ℕ → BgwMessageType → ℕ → DbHashEntry → Option (ℕ × DbHashEntry)
  unfolding start_entry stop_entry restart_entry
  message_entry vxid start = start_entry
  message_entry vxid stop = stop_entry
  message_entry vxid restart = restart_entry vxid

-- The launcher's state: the shared count of workers and the hash table.
pub record Launcher : Type 0 where
  pub total_workers : ℕ
  pub db_htab : List DbHashEntry

unfoldable pub find_entry : ℕ → List DbHashEntry → Option DbHashEntry
find_entry db_oid [] = none
find_entry db_oid (e ∷ tab) = if e.db_oid == db_oid then some e else find_entry db_oid tab

-- Runs an action on the entry of a database, in place.
unfoldable pub at_entry :
    ℕ
    → (ℕ → DbHashEntry → Option (ℕ × DbHashEntry))
    → ℕ
    → List DbHashEntry
    → Option (ℕ × List DbHashEntry)
at_entry db_oid f total [] = some (total, [])
at_entry db_oid f total (e ∷ tab) =
    let here = f total e >>= λ (total', e'). some (total', e' ∷ tab) in
    let there = at_entry db_oid f total tab >>= λ (total', tab'). some (total', e ∷ tab') in
    if e.db_oid == db_oid then here else there

abbrev pub new_entry : ℕ → DbHashEntry
new_entry db_oid = record {
  db_oid = db_oid;
  db_scheduler_handle = none;
  state = enabled;
  vxid = none;
  state_transition_failures = 0;
}

pub data AckResult : Type 0 where
  ack_success ack_failure : AckResult

-- The state that a message asks for.
abbrev pub wanted : BgwMessageType → SchedulerState
wanted start = started
wanted stop = disabled
wanted restart = started

abbrev pub acknowledge : SchedulerState → Option DbHashEntry → AckResult
acknowledge s none = ack_failure
acknowledge s (some e) = ite (SchedulerState-discrete e.state s) ack_success ack_failure

abbrev pub SchedulerState-cases :
    (s : SchedulerState) → ((s ≡ enabled) ⊎ (s ≡ allocated)) ⊎ ((s ≡ started) ⊎ (s ≡ disabled))
SchedulerState-cases enabled = inl (inl refl)
SchedulerState-cases allocated = inl (inr refl)
SchedulerState-cases started = inr (inl refl)
SchedulerState-cases disabled = inr (inr refl)

module _ (max_workers : ℕ) where
  unfoldable pub create_if_not_exists : ℕ → Launcher → Launcher
  unfolding enabled_to_allocated find_entry
  create_if_not_exists db_oid l = elim (find_entry db_oid l.db_htab) [
    | some _ ↦ l
    | none ↦
        let (total, e) = enabled_to_allocated max_workers l.total_workers (new_entry db_oid) in
        record { total_workers = total; db_htab = l.db_htab ++ (e ∷ []) }
  ]

  -- `populate_database_htab`, over the databases that accept connections and are no templates.
  unfoldable pub populate : List ℕ → Launcher → Launcher
  unfolding create_if_not_exists
  populate [] l = l
  populate (db_oid ∷ dbs) l = populate dbs (create_if_not_exists db_oid l)

  unfoldable pub trans_automatic_all :
      (ℕ → Env) → ℕ → List DbHashEntry → Option (ℕ × List DbHashEntry)
  unfolding trans_automatic
  trans_automatic_all env total [] = some (total, [])
  trans_automatic_all env total (e ∷ tab) = do
    (total', e') ← trans_automatic max_workers (env e.db_oid) total e
    (total'', tab') ← trans_automatic_all env total' tab
    some (total'', e' ∷ tab')

  -- One message: the entry is created if need be, acted on, and its new state acknowledged. The
  -- sender's virtual transaction is `none` where the sending backend is gone.
  unfoldable pub handle_message :
      Env → Option (Option ℕ) → BgwMessage → Launcher → Option (Launcher × Option AckResult)
  unfolding message_entry create_if_not_exists at_entry find_entry
  handle_message env none message l = some (l, none)
  handle_message env (some vxid) message l = do
    let oid = message.db_oid
    let l' = create_if_not_exists oid l
    (total, tab) ←
        at_entry oid (message_entry max_workers env vxid message.message_type) l'.total_workers
          l'.db_htab
    some (
      record { total_workers = total; db_htab = tab },
      some (acknowledge (wanted message.message_type) (find_entry oid tab)),
    )
