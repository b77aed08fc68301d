-- ===== src/Bgw/Scheduler.antt =====
-- The job scheduler, src/bgw/scheduler.c: the state of a scheduled job and its transitions. The
-- statistics are those of Bgw.JobStat. PostgreSQL's worker processes, the locks on jobs and the
-- reservation of workers are answers of the environment, one for each call; an error gives `none`.
-- Memory contexts, transactions' brackets and log messages are not modelled, and neither is the
-- transition to JOB_STATE_DISABLED, which nothing in the code asks for.
pub mod Run
pub mod Consistent
pub mod Jobs
pub mod Start
pub mod Merge
pub mod Rounds
pub mod Wakeup
mod Tests
use timescaledb.Base.{
  ℕ, ◌+◌, ◌-◌, Bool, true, false, not, ◌&&◌, Option, none, some, ◌>>=◌, List, if◌then◌else◌,
}
use timescaledb.Base.Int.{ℤ, eqb_ℤ}
use timescaledb.Bgw.JobStat.{
  Postgres, BgwJob, BgwJobStat, JobResult, job_failure, job_failure_to_start, dt_nobegin,
}
use timescaledb.Bgw.JobStat.Table.{
  mark_start, mark_end, set_next_start, find, end_was_marked, next_start,
}

pub data JobState : Type 0 where
  job_state_disabled job_state_scheduled job_state_started job_state_terminating : JobState

-- A worker's handle is its number.
pub record ScheduledBgwJob (I : Type 0) : Type 0 where
  pub job : BgwJob I
  pub next_start : ℤ
  pub timeout_at : ℤ
  pub state : JobState
  pub handle : Option ℕ
  pub reserved_worker : Bool
  pub may_need_mark_end : Bool

-- What the calls outside the scheduler answer during one operation on a job.
pub record Env (I F : Type 0) : Type 0 where
  pub cleanup_lock : Bool  -- ts_bgw_job_get_share_lock, in each of its callers
  pub start_lock : Bool
  pub failure_lock : Bool
  pub reserve : Bool  -- ts_bgw_worker_reserve
  pub timeout : ℤ  -- ts_bgw_job_timeout_at, or DT_NOEND without a timeout
  pub bgw_start : Option ℕ  -- ts_bgw_job_start
  pub at_start : Postgres I F
  pub at_end : Postgres I F
  pub at_failure : Postgres I F
  pub at_next : Postgres I F
  pub other_writes : List (BgwJobStat I) → List (BgwJobStat I)

-- A job with what it shares with others: the statistics, the workers reserved, and whether the list
-- of jobs must be read again.
pub record JobView (I : Type 0) : Type 0 where
  pub sjob : ScheduledBgwJob I
  pub stats : List (BgwJobStat I)
  pub reserved_workers : ℕ
  pub jobs_list_needs_update : Bool

module _ {I F : Type 0} (env : Env I F) where
  unfoldable pub mark_job_as_started : JobView I → Option (JobView I)
  mark_job_as_started v =
      mark_start env.at_start v.sjob.job.id env.other_writes v.stats >>= (λ rows.
        some (record v { sjob = record v.sjob { may_need_mark_end = true }; stats = rows }))

  unfoldable pub mark_job_as_ended : Postgres I F → JobResult → JobView I → Option (JobView I)
  mark_job_as_ended pg res v = mark_end pg v.sjob.job res v.stats >>= (λ rows.
      some (record v { sjob = record v.sjob { may_need_mark_end = false }; stats = rows }))

  unfoldable pub release_worker : JobView I → JobView I
  release_worker v =
      if v.sjob.reserved_worker
      then record v {
        sjob = record v.sjob { handle = none; reserved_worker = false };
        reserved_workers = v.reserved_workers - 1;
      }
      else record v { sjob = record v.sjob { handle = none } }

  unfoldable pub check_end_mark : JobView I → Option (JobView I)
  check_end_mark v = elim (find v.sjob.job.id v.stats) [
    | none ↦ none
    | some job_stat ↦
        if not (end_was_marked job_stat)
        then mark_job_as_ended env.at_end job_failure v
        else some (record v { sjob = record v.sjob { may_need_mark_end = false } })
  ]

  unfoldable pub worker_state_cleanup : JobView I → Option (JobView I)
  worker_state_cleanup v =
      let released = release_worker v in
      if not v.sjob.may_need_mark_end
      then some released
      else if not env.cleanup_lock
      then some (record released {
        sjob = record released.sjob { may_need_mark_end = false };
        jobs_list_needs_update = true;
      })
      else check_end_mark released

  -- The transition to JOB_STATE_SCHEDULED.
  unfoldable pub to_scheduled : JobView I → Option (JobView I)
  to_scheduled v = do
    cleaned ← worker_state_cleanup v
    next ← next_start env.at_next (find cleaned.sjob.job.id cleaned.stats) cleaned.sjob.job
    some (record cleaned {
      sjob = record cleaned.sjob { next_start = next; state = job_state_scheduled };
    })

  unfoldable pub restore_next_start : JobView I → Option (JobView I)
  restore_next_start v =
      if not (eqb_ℤ v.sjob.next_start dt_nobegin)
      then set_next_start env.at_failure v.sjob.job v.sjob.next_start v.stats
        >>= (λ rows. some (record v { stats = rows }))
      else some v

  unfoldable pub on_failure_to_start_job : JobView I → Option (JobView I)
  on_failure_to_start_job v =
      if not env.failure_lock
      then to_scheduled (record v { jobs_list_needs_update = true })
      else restore_next_start v
        >>= (λ restored. mark_job_as_ended env.at_failure job_failure_to_start restored)
        >>= to_scheduled

  unfoldable pub launch : JobView I → Option (JobView I)
  launch v = do
    marked ← mark_job_as_started v
    let ready = record marked { sjob = record marked.sjob { timeout_at = env.timeout } }
    elim env.bgw_start [
      | none ↦ on_failure_to_start_job (record ready { sjob = record ready.sjob { handle = none } })
      | some h ↦
          some (record ready {
            sjob = record ready.sjob { handle = some h; state = job_state_started };
          })
    ]

  -- The transition to JOB_STATE_STARTED.
  unfoldable pub to_started : JobView I → Option (JobView I)
  to_started v =
      if not env.start_lock
      then some (record v { jobs_list_needs_update = true })
      else if not env.reserve
      then to_scheduled (record v { sjob = record v.sjob { reserved_worker = false } })
      else launch (record v {
        sjob = record v.sjob { reserved_worker = true };
        reserved_workers = v.reserved_workers + 1;
      })

  -- The transition to JOB_STATE_TERMINATING, which signals the worker.
  unfoldable pub to_terminating : JobView I → Option (JobView I)
  to_terminating v = some (record v { sjob = record v.sjob { state = job_state_terminating } })
