-- ===== src/Bgw/Scheduler/Consistent.antt =====
-- The fields of a scheduled job agree with its state, and reserved workers are released once.
use timescaledb.Base.{
  ℕ, ◌+◌, ◌≡◌, ◌≢◌, ◌≤◌, true, false, none, some, ◌>>=◌, ◌⊎◌, inl, inr, if◌then◌else◌, arith,
  Option-cases,
}
use timescaledb.Bgw.JobStat.{job_failure_to_start}
use timescaledb.Bgw.Scheduler.{
  job_state_scheduled, job_state_started, job_state_terminating, ScheduledBgwJob, JobView, Env,
  mark_job_as_started, mark_job_as_ended, release_worker, check_end_mark, worker_state_cleanup,
  to_scheduled, restore_next_start, on_failure_to_start_job, launch, to_started,
}

abbrev pub Settled : {I : Type 0} → ScheduledBgwJob I → Type 0
Settled s = (s.handle ≡ none) × (s.reserved_worker ≡ false) × (s.may_need_mark_end ≡ false)

abbrev pub Running : {I : Type 0} → ScheduledBgwJob I → Type 0
Running s = (s.handle ≢ none) × (s.reserved_worker ≡ true) × (s.may_need_mark_end ≡ true)

abbrev pub reservations : {I : Type 0} → ScheduledBgwJob I → ℕ
reservations s = if s.reserved_worker then 1 else 0

abbrev pub Consistent : {I : Type 0} → ScheduledBgwJob I → Type 0
Consistent s = elim s.state [
  | job_state_started ↦ Running s
  | job_state_terminating ↦ Running s
  | _ ↦ Settled s
]

-- The workers that other jobs have reserved stay as they are.
abbrev pub Balanced : {I : Type 0} → JobView I → JobView I → Type 0
Balanced v w = v.reserved_workers + reservations w.sjob ≡ w.reserved_workers + reservations v.sjob

module _ {I F : Type 0} (env : Env I F) where
  ended-Cleaned :
      (v w : JobView I)
      → check_end_mark env v ≡ some w
      → (w.sjob.may_need_mark_end ≡ false)
        × (w.sjob.handle ≡ v.sjob.handle)
        × (w.sjob.reserved_worker ≡ v.sjob.reserved_worker)
        × (w.reserved_workers ≡ v.reserved_workers)
  unfolding check_end_mark mark_job_as_ended
  ended-Cleaned v w e = ground arith

  pub cleanup-Settled :
      (v w : JobView I)
      → reservations v.sjob ≤ v.reserved_workers
      → worker_state_cleanup env v ≡ some w
      → Settled w.sjob × Balanced v w
  unfolding worker_state_cleanup release_worker
  cleanup-Settled v w r e = ground (arith, ended-Cleaned (release_worker env v) w)

  abbrev pub Scheduled : JobView I → JobView I → Type 0
  Scheduled v w = (w.sjob.state ≡ job_state_scheduled) × Settled w.sjob × Balanced v w

  -- From any state, a transition to SCHEDULED that ends leaves no worker, no reservation and no end
  -- to mark, and releases the job's own reservation only.
  pub to_scheduled-Settled :
      (v w : JobView I)
      → reservations v.sjob ≤ v.reserved_workers
      → to_scheduled env v ≡ some w
      → (w.sjob.state ≡ job_state_scheduled) × Settled w.sjob × Balanced v w
  unfolding to_scheduled
  to_scheduled-Settled v w r e = elim (Option-cases (worker_state_cleanup env v)) [
    | inl n ↦ ground (arith, n)
    | inr (c, p) ↦ ground (arith, p, cleanup-Settled v c r p)
  ]

  marked-Same :
      (v w : JobView I)
      → (restore_next_start env v
          >>= (λ restored. mark_job_as_ended env env.at_failure job_failure_to_start restored))
        ≡ some w
      → (w.sjob.reserved_worker ≡ v.sjob.reserved_worker)
        × (w.reserved_workers ≡ v.reserved_workers)
  unfolding restore_next_start mark_job_as_ended
  marked-Same v w e = ground arith

  failure-Scheduled :
      (v w : JobView I)
      → reservations v.sjob ≤ v.reserved_workers
      → on_failure_to_start_job env v ≡ some w
      → Scheduled v w
  unfolding on_failure_to_start_job
  failure-Scheduled v w r e =
      elim (Option-cases (
        restore_next_start env v
        >>= (λ restored. mark_job_as_ended env env.at_failure job_failure_to_start restored))) [
          | inl n ↦
              ground
                (arith, n, to_scheduled-Settled (record v { jobs_list_needs_update = true }) w r)
          | inr (c, p) ↦ ground (
            arith,
            p,
            marked-Same v c p,
            to_scheduled-Settled (record v { jobs_list_needs_update = true }) w r,
            to_scheduled-Settled c w,
          )
        ]

  started-Same :
      (v w : JobView I)
      → mark_job_as_started env v ≡ some w
      → (w.sjob.reserved_worker ≡ v.sjob.reserved_worker)
        × (w.reserved_workers ≡ v.reserved_workers)
        × (w.sjob.may_need_mark_end ≡ true)
  unfolding mark_job_as_started
  started-Same v w e = ground arith

  abbrev pub Started : JobView I → JobView I → Type 0
  Started v w = (w.sjob.state ≡ job_state_started) × Running w.sjob × Balanced v w

  abbrev unlaunched : JobView I → JobView I
  unlaunched c = record c { sjob = record c.sjob { timeout_at = env.timeout; handle = none } }

  launch-Consistent :
      (v w : JobView I)
      → v.sjob.reserved_worker ≡ true
      → 1 ≤ v.reserved_workers
      → launch env v ≡ some w
      → Scheduled v w ⊎ Started v w
  unfolding launch
  launch-Consistent v w r m e = elim (Option-cases (mark_job_as_started env v)) [
    | inl n ↦ ground (arith, n)
    | inr (c, p) ↦ elim (Option-cases env.bgw_start) [
      | inl n ↦ inl (ground (arith, p, n, started-Same v c p, failure-Scheduled (unlaunched c) w))
      | inr (h, q) ↦ inr (ground (arith, p, q, started-Same v c p))
    ]
  ]

  abbrev reserved : JobView I → JobView I
  reserved v = record v {
    sjob = record v.sjob { reserved_worker = true };
    reserved_workers = v.reserved_workers + 1;
  }

  -- Starting a scheduled job leaves it scheduled with nothing reserved, or started with a worker's
  -- handle, a reservation and an end to mark.
  pub to_started-Consistent :
      (v w : JobView I)
      → v.sjob.state ≡ job_state_scheduled
      → Settled v.sjob
      → to_started env v ≡ some w
      → Scheduled v w ⊎ Started v w
  unfolding to_started
  to_started-Consistent v w s c e = ground (
    arith,
    to_scheduled-Settled (record v { sjob = record v.sjob { reserved_worker = false } }) w,
    launch-Consistent (reserved v) w,
  )
