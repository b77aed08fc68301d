-- ===== src/Bgw/Scheduler/Tests.antt =====
-- A scheduler with one job, at concrete steps.
use timescaledb.Base.{
  inl, inr, ℕ, Bool, Bool-cases, ap, ◌∙◌, if◌then◌else◌, ◌≡◌, refl, true, false, none, some, [],
  ◌∷◌, map, arith,
}
use timescaledb.Base.Int.{ℤ, pos}
use timescaledb.Loader.Launcher.{bgwh_started, bgwh_stopped}
use timescaledb.Bgw.JobStat.{
  gt32, BgwJob, BgwJobStat, dt_nobegin, tuple_mark_end, mark_failure, next_start_was_set,
  calculate_next_start_on_failure, backoff, calculate_next_start_on_crash,
}
use timescaledb.Bgw.JobStat.Table.{
  inserted_row, insert_relation, scan_job_id, find, end_was_marked, double_check, mark_start,
  mark_end, next_start,
}
use timescaledb.Bgw.JobStat.Tests.{clocked, nightly}
use timescaledb.Bgw.Scheduler.{
  job_state_scheduled, job_state_started, ScheduledBgwJob, Env, mark_job_as_started,
  mark_job_as_ended, release_worker, check_end_mark, worker_state_cleanup, to_scheduled, launch,
  to_started,
}
use timescaledb.Bgw.Scheduler.Run.{
  is_scheduled, is_started, is_terminating, scheduled_job_start, terminate_and_cleanup_job,
  start_if_due, check_job, Scheduler, view, put_back, push_job, for_each,
  check_for_stopped_and_timed_out_jobs, on_id, for_ids, start_scheduled_jobs, new_sjob, merge_jobs,
  update_scheduled_jobs_list,
}
use timescaledb.Bgw.Scheduler.Jobs.{SystemInv, check-SystemInv}
use timescaledb.Bgw.Scheduler.Start.{start-SystemInv}
use timescaledb.Bgw.Scheduler.Merge.{update-SystemInv}
use timescaledb.Bgw.Scheduler.Rounds.{HasStarts, AllSettled, update_ends}

abbrev willing : Env ℕ ℕ
willing = record {
  cleanup_lock = true;
  start_lock = true;
  failure_lock = true;
  reserve = true;
  timeout = pos 9000;
  bgw_start = some 77;
  at_start = clocked;
  at_end = clocked;
  at_failure = clocked;
  at_next = clocked;
  other_writes = λ r. r;
}

abbrev idle : ScheduledBgwJob ℕ
idle = record {
  job = nightly;
  next_start = pos 5;
  timeout_at = pos 0;
  state = job_state_scheduled;
  handle = none;
  reserved_worker = false;
  may_need_mark_end = false;
}

abbrev busy : ScheduledBgwJob ℕ
busy = record idle {
  timeout_at = pos 9000;
  state = job_state_started;
  handle = some 77;
  reserved_worker = true;
  may_need_mark_end = true;
}

abbrev begun : BgwJobStat ℕ
begun = inserted_row clocked 4 true dt_nobegin

abbrev ready : Scheduler ℕ
ready = record {
  scheduled_jobs = idle ∷ [];
  stats = [];
  reserved_workers = 0;
  jobs_list_needs_update = false;
}

abbrev working : Scheduler ℕ
working = record {
  scheduled_jobs = busy ∷ [];
  stats = begun ∷ [];
  reserved_workers = 1;
  jobs_list_needs_update = false;
}

ready-SystemInv : SystemInv ready
ready-SystemInv = (((refl, refl, refl), tt), refl)

working-SystemInv : SystemInv working
working-SystemInv = (((ground arith, refl, refl), tt), refl)

starts :
    start_scheduled_jobs
      (λ jobs. 4 ∷ [])
      (λ id. willing)
      (λ id. willing)
      (λ id. bgwh_started)
      (λ id. pos 10)
      ready
    ≡ some working
unfolding start_scheduled_jobs for_ids on_id start_if_due scheduled_job_start to_started launch
    mark_job_as_started mark_start double_check scan_job_id insert_relation view put_back push_job
    is_scheduled is_started inserted_row
starts = refl

start-SystemInv_example : SystemInv working
start-SystemInv_example =
    start-SystemInv (λ jobs. 4 ∷ []) (λ id. willing) (λ id. willing) (λ id. bgwh_started)
      (λ id. pos 10) ready working ready-SystemInv starts

-- The row after its job's worker stopped without marking the end.
abbrev failed : BgwJobStat ℕ
failed = record {
  job_id = 4;
  last_start = pos 1000;
  last_finish = pos 1000;
  next_start = pos 1060;
  last_successful_finish = dt_nobegin;
  last_run_success = false;
  total_runs = 1;
  total_duration = 0;
  total_success = 0;
  total_failures = 1;
  total_crashes = 0;
  consecutive_failures = 1;
  consecutive_crashes = 0;
}

abbrev rested : Scheduler ℕ
rested = record {
  scheduled_jobs =
      record busy {
        next_start = pos 1060;
        state = job_state_scheduled;
        handle = none;
        reserved_worker = false;
        may_need_mark_end = false;
      }
      ∷ [];
  stats = failed ∷ [];
  reserved_workers = 0;
  jobs_list_needs_update = false;
}

checks :
    check_for_stopped_and_timed_out_jobs (λ id. willing) (λ id. bgwh_stopped) (λ id. pos 20) working
    ≡ some rested
unfolding check_for_stopped_and_timed_out_jobs for_each check_job to_scheduled worker_state_cleanup
    release_worker check_end_mark mark_job_as_ended mark_end scan_job_id find end_was_marked
    next_start view put_back push_job is_started is_terminating inserted_row tuple_mark_end
    mark_failure next_start_was_set calculate_next_start_on_failure backoff
checks = refl

check-SystemInv_example : SystemInv rested
check-SystemInv_example =
    check-SystemInv (λ id. willing) (λ id. bgwh_stopped) (λ id. pos 20) working rested
      working-SystemInv checks

abbrev weekly : BgwJob ℕ
weekly = record { id = 9; schedule_interval = 3500; retry_period = 60 }

-- The catalogue has another job only: the running one is terminated.
abbrev changed : Scheduler ℕ
changed = record {
  scheduled_jobs =
      record (new_sjob weekly) { next_start = dt_nobegin; state = job_state_scheduled } ∷ [];
  stats = begun ∷ [];
  reserved_workers = 0;
  jobs_list_needs_update = false;
}

changes : update_scheduled_jobs_list (λ id. willing) (weekly ∷ []) working ≡ some changed
unfolding update_scheduled_jobs_list merge_jobs terminate_and_cleanup_job to_scheduled
    worker_state_cleanup release_worker find next_start view put_back push_job new_sjob inserted_row
changes = refl

update-SystemInv_example :
    SystemInv changed
    × (map (λ (j : ScheduledBgwJob ℕ). j.job) changed.scheduled_jobs ≡ weekly ∷ [])
update-SystemInv_example =
    update-SystemInv (λ id. willing) (weekly ∷ []) working changed working-SystemInv changes

chosen : (b : Bool) (x y : ℤ) → (t : ℤ) × ((if b then some x else some y) ≡ some t)
chosen true x y = (x, refl)
chosen false x y = (y, refl)

after_crash :
    (crashes : ℕ) (job : BgwJob ℕ)
    → (t : ℤ) × (calculate_next_start_on_crash clocked crashes job ≡ some t)
unfolding calculate_next_start_on_crash calculate_next_start_on_failure backoff
after_crash crashes job = chosen _ _ _

willing-HasStarts : HasStarts (λ id. willing)
unfolding next_start
willing-HasStarts id none job = (_, refl)
willing-HasStarts id (some row) job =
    let (t, e) = after_crash row.consecutive_crashes job in
    elim (Bool-cases (gt32 row.consecutive_crashes 0)) [
      | inl b ↦ (
        t,
        ap
              (λ b.
                if b
                then calculate_next_start_on_crash clocked row.consecutive_crashes job
                else some row.next_start)
              b
            ∙ e,
      )
      | inr b ↦ (
        row.next_start,
        ap
            (λ b.
              if b
              then calculate_next_start_on_crash clocked row.consecutive_crashes job
              else some row.next_start)
            b,
      )
    ]

working-AllSettled : AllSettled working.scheduled_jobs
unfolding is_scheduled
working-AllSettled = (inr refl, tt)

update_ends_example :
    (t : Scheduler ℕ) × (update_scheduled_jobs_list (λ id. willing) (weekly ∷ []) working ≡ some t)
update_ends_example =
    update_ends (λ id. willing) (weekly ∷ []) working willing-HasStarts working-AllSettled
