-- ===== src/Bgw/Scheduler/Run.antt =====
-- The steps of the scheduler's loop on its list of jobs, in src/bgw/scheduler.c. A job is met through
-- its view; the environment answers by job id.
use timescaledb.Base.{
  ℕ, zero, suc, ◌+◌, Bool, true, false, ◌&&◌, ◌||◌, Option, none, some, ◌>>=◌, List, [], ◌∷◌,
  length, if◌then◌else◌, ltb, ◌==◌,
}
use timescaledb.Base.Int.{ℤ, pos, leb_ℤ}
use timescaledb.Loader.Launcher.{BgwHandleStatus, bgwh_started, bgwh_stopped}
use timescaledb.Bgw.JobStat.{BgwJob, BgwJobStat}
use timescaledb.Bgw.Scheduler.{
  JobState, job_state_disabled, job_state_scheduled, job_state_started, job_state_terminating,
  ScheduledBgwJob, JobView, Env, worker_state_cleanup, to_scheduled, to_started, to_terminating,
}

unfoldable pub is_scheduled : JobState → Bool
is_scheduled job_state_scheduled = true
is_scheduled _ = false

unfoldable pub is_started : JobState → Bool
is_started job_state_started = true
is_started _ = false

unfoldable pub is_terminating : JobState → Bool
is_terminating job_state_terminating = true
is_terminating _ = false

module _ {I F : Type 0} where
  -- `after` answers the calls of a second transition.
  unfoldable pub scheduled_job_start :
      Env I F → Env I F → BgwHandleStatus → JobView I → Option (JobView I)
  scheduled_job_start env after status v = to_started env v >>= (λ w.
      if is_started w.sjob.state
      then elim status [ bgwh_started ↦ some w | bgwh_stopped ↦ to_scheduled after w | _ ↦ none ]
      else some w)

  unfoldable pub terminate_and_cleanup_job : Env I F → JobView I → Option (JobView I)
  terminate_and_cleanup_job env v =
      worker_state_cleanup env (record v { sjob = record v.sjob { may_need_mark_end = false } })

  -- The body of the loop of start_scheduled_jobs.
  unfoldable pub start_if_due :
      Env I F → Env I F → BgwHandleStatus → ℤ → JobView I → Option (JobView I)
  start_if_due env after status now v =
      if is_scheduled v.sjob.state && leb_ℤ v.sjob.next_start now
      then scheduled_job_start env after status v
      else some v

  -- The body of the loop of check_for_stopped_and_timed_out_jobs.
  unfoldable pub check_job : Env I F → BgwHandleStatus → ℤ → JobView I → Option (JobView I)
  check_job env status now v =
      if is_started v.sjob.state || is_terminating v.sjob.state
      then elim status [
        | bgwh_started ↦
            if is_started v.sjob.state && leb_ℤ v.sjob.timeout_at now
            then to_terminating env v
            else some v
        | bgwh_stopped ↦ to_scheduled env v
        | _ ↦ none
      ]
      else some v

-- The list of jobs with what the jobs share.
pub record Scheduler (I : Type 0) : Type 0 where
  pub scheduled_jobs : List (ScheduledBgwJob I)
  pub stats : List (BgwJobStat I)
  pub reserved_workers : ℕ
  pub jobs_list_needs_update : Bool

module _ {I : Type 0} where
  unfoldable pub view : ScheduledBgwJob I → Scheduler I → JobView I
  view job s = record {
    sjob = job;
    stats = s.stats;
    reserved_workers = s.reserved_workers;
    jobs_list_needs_update = s.jobs_list_needs_update;
  }

  -- The scheduler after a step of a job that stands before `jobs`.
  unfoldable pub put_back : JobView I → List (ScheduledBgwJob I) → Scheduler I
  put_back v jobs = record {
    scheduled_jobs = jobs;
    stats = v.stats;
    reserved_workers = v.reserved_workers;
    jobs_list_needs_update = v.jobs_list_needs_update;
  }

  unfoldable pub push_job : ScheduledBgwJob I → Scheduler I → Scheduler I
  push_job job s = record s { scheduled_jobs = job ∷ s.scheduled_jobs }

  -- A loop over the jobs from the first.
  unfoldable pub for_each :
      (JobView I → Option (JobView I))
      → List (ScheduledBgwJob I)
      → Scheduler I
      → Option (Scheduler I)
  for_each step [] s = some (record s { scheduled_jobs = [] })
  for_each step (job ∷ jobs) s =
      step (view job s)
      >>= (λ v. for_each step jobs (put_back v jobs) >>= (λ rest. some (push_job v.sjob rest)))

  -- A step of the job with an id, which keeps its place in the list.
  unfoldable pub on_id :
      (JobView I → Option (JobView I))
      → ℕ
      → List (ScheduledBgwJob I)
      → Scheduler I
      → Option (Scheduler I)
  on_id step id [] s = some (record s { scheduled_jobs = [] })
  on_id step id (job ∷ jobs) s =
      if job.job.id == id
      then step (view job s) >>= (λ v. some (push_job v.sjob (put_back v jobs)))
      else on_id step id jobs s >>= (λ rest. some (push_job job rest))

  unfoldable pub for_ids :
      (JobView I → Option (JobView I)) → List ℕ → Scheduler I → Option (Scheduler I)
  for_ids step [] s = some s
  for_ids step (id ∷ ids) s = on_id step id s.scheduled_jobs s >>= (λ next. for_ids step ids next)

  -- What `ts_bgw_job_get_all` makes of a row of the catalogue: the other fields are zeros.
  unfoldable pub new_sjob : BgwJob I → ScheduledBgwJob I
  new_sjob job = record {
    job = job;
    next_start = pos 0;
    timeout_at = pos 0;
    state = job_state_disabled;
    handle = none;
    reserved_worker = false;
    may_need_mark_end = false;
  }

module _ {I F : Type 0} where
  unfoldable pub check_for_stopped_and_timed_out_jobs :
      (ℕ → Env I F) → (ℕ → BgwHandleStatus) → (ℕ → ℤ) → Scheduler I → Option (Scheduler I)
  check_for_stopped_and_timed_out_jobs env status now s =
      for_each (λ v. let id = v.sjob.job.id in check_job (env id) (status id) (now id) v)
        s.scheduled_jobs s

  -- `list_qsort` gives the ids of the jobs in the order of their next starts.
  unfoldable pub start_scheduled_jobs :
      (List (ScheduledBgwJob I) → List ℕ)
      → (ℕ → Env I F)
      → (ℕ → Env I F)
      → (ℕ → BgwHandleStatus)
      → (ℕ → ℤ)
      → Scheduler I
      → Option (Scheduler I)
  start_scheduled_jobs list_qsort env after status now s =
      for_ids
        (λ v. let id = v.sjob.job.id in start_if_due (env id) (after id) (status id) (now id) v)
        (list_qsort s.scheduled_jobs) s

  unfoldable pub keep_job : Env I F → BgwJob I → JobView I → Option (JobView I)
  keep_job env job v =
      let kept = record v { sjob = record v.sjob { job = job } } in
      if is_scheduled v.sjob.state then to_scheduled env kept else some kept

  -- The jobs of the list after the catalogue was read again. One of the two lists gets shorter in
  -- each round, so as many rounds as both have elements are enough.
  unfoldable pub merge_jobs :
      (ℕ → Env I F)
      → ℕ
      → List (ScheduledBgwJob I)
      → List (BgwJob I)
      → Scheduler I
      → Option (Scheduler I)
  merge_jobs env zero cur new s = none
  merge_jobs env (suc n) [] [] s = some (record s { scheduled_jobs = [] })
  merge_jobs env (suc n) (c ∷ cur) [] s =
      terminate_and_cleanup_job (env c.job.id) (view c s)
      >>= (λ v. merge_jobs env n cur [] (put_back v cur))
  merge_jobs env (suc n) [] (j ∷ new) s =
      to_scheduled (env j.id) (view (new_sjob j) s)
      >>= (λ v. merge_jobs env n [] new (put_back v []) >>= (λ rest. some (push_job v.sjob rest)))
  merge_jobs env (suc n) (c ∷ cur) (j ∷ new) s =
      if ltb c.job.id j.id
      then terminate_and_cleanup_job (env c.job.id) (view c s)
        >>= (λ v. merge_jobs env n cur (j ∷ new) (put_back v cur))
      else if c.job.id == j.id
      then keep_job (env j.id) j (view c s) >>= (λ v.
        merge_jobs env n cur new (put_back v cur) >>= (λ rest. some (push_job v.sjob rest)))
      else to_scheduled (env j.id) (view (new_sjob j) s) >>= (λ v.
        merge_jobs env n (c ∷ cur) new (put_back v cur) >>= (λ rest. some (push_job v.sjob rest)))

  unfoldable pub update_scheduled_jobs_list :
      (ℕ → Env I F) → List (BgwJob I) → Scheduler I → Option (Scheduler I)
  update_scheduled_jobs_list env catalogue s =
      merge_jobs env (suc (length s.scheduled_jobs + length catalogue)) s.scheduled_jobs catalogue s
