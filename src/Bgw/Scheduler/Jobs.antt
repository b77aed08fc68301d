-- ===== src/Bgw/Scheduler/Jobs.antt =====
-- The invariant of the whole list of jobs.
use timescaledb.Base.{
  ℕ, ◌+◌, ◌≡◌, ◌≤◌, refl, Option, some, ◌>>=◌, List, [], ◌∷◌, arith, bind_some, some_injective,
  subst,
}
use timescaledb.Base.Int.{ℤ}
use timescaledb.Loader.Launcher.{BgwHandleStatus}
use timescaledb.Bgw.Scheduler.{ScheduledBgwJob, JobView, Env, to_terminating}
use timescaledb.Bgw.Scheduler.Consistent.{Consistent, Balanced, reservations, to_scheduled-Settled}
use timescaledb.Bgw.Scheduler.Run.{
  is_started, is_terminating, check_job, Scheduler, view, put_back, push_job, for_each,
  check_for_stopped_and_timed_out_jobs,
}

abbrev pub AllConsistent : {I : Type 0} → List (ScheduledBgwJob I) → Type 0
AllConsistent [] = Unit
AllConsistent (j ∷ js) = Consistent j × AllConsistent js

abbrev pub total : {I : Type 0} → List (ScheduledBgwJob I) → ℕ
total [] = 0
total (j ∷ js) = reservations j + total js

-- Every job's fields agree with its state, and the workers reserved are those of the jobs.
abbrev pub SystemInv : {I : Type 0} → Scheduler I → Type 0
SystemInv s = AllConsistent s.scheduled_jobs × (s.reserved_workers ≡ total s.scheduled_jobs)

module _ {I : Type 0} where
  abbrev pub Kept : JobView I → JobView I → Type 0
  Kept v w = Consistent w.sjob × Balanced v w

  abbrev pub IsKeeping : (JobView I → Option (JobView I)) → Type 0
  IsKeeping step =
      (v w : JobView I)
      → Consistent v.sjob
      → reservations v.sjob ≤ v.reserved_workers
      → step v ≡ some w
      → Kept v w

  abbrev pub AllKept : List (ScheduledBgwJob I) → Scheduler I → Scheduler I → Type 0
  AllKept jobs s t =
      AllConsistent t.scheduled_jobs
      × (s.reserved_workers + total t.scheduled_jobs ≡ t.reserved_workers + total jobs)

  pub push-AllKept :
      (j : ScheduledBgwJob I) (js : List (ScheduledBgwJob I)) (s : Scheduler I) (v : JobView I)
      (rest : Scheduler I)
      → Kept (view j s) v
      → AllKept js (put_back v js) rest
      → AllKept (j ∷ js) s (push_job v.sjob rest)
  unfolding put_back view push_job
  push-AllKept j js s v rest k r = ((k.0, r.0), omega (arith, k.1, r.1))

  for_each-AllKept :
      (step : JobView I → Option (JobView I))
      → IsKeeping step
      → (jobs : List (ScheduledBgwJob I)) (s t : Scheduler I) → AllConsistent jobs
      → total jobs ≤ s.reserved_workers
      → for_each step jobs s ≡ some t
      → AllKept jobs s t
  unfolding for_each put_back view
  for_each-AllKept step k [] s t c r e = subst (AllKept [] s) (some_injective e) (tt, refl)
  for_each-AllKept step k (j ∷ js) s t c r e =
      let (v, p, q) =
        bind_some (step (view j s))
          (λ v. for_each step js (put_back v js) >>= (λ rest. some (push_job v.sjob rest))) t e in
      let (rest, p', q') =
        bind_some (for_each step js (put_back v js)) (λ rest. some (push_job v.sjob rest)) t q in
      let kept = k (view j s) v c.0 (omega arith) p in
      subst (AllKept (j ∷ js) s) (some_injective q') (
        push-AllKept j js s v rest kept
          (for_each-AllKept step k js (put_back v js) rest c.1 (omega (arith, kept.1)) p'))

module _ {I F : Type 0} where
  check_job-Kept :
      (env : Env I F) (status : BgwHandleStatus) (now : ℤ) (v w : JobView I)
      → Consistent v.sjob
      → reservations v.sjob ≤ v.reserved_workers
      → check_job env status now v ≡ some w
      → Kept v w
  unfolding check_job to_terminating is_started is_terminating
  check_job-Kept env status now v w c r e = ground (arith, to_scheduled-Settled env v w)

  -- The check for stopped and timed-out jobs keeps every job's fields in agreement with its state,
  -- and the workers reserved those of the jobs.
  pub check-SystemInv :
      (env : ℕ → Env I F) (status : ℕ → BgwHandleStatus) (now : ℕ → ℤ) (s t : Scheduler I)
      → SystemInv s
      → check_for_stopped_and_timed_out_jobs env status now s ≡ some t
      → SystemInv t
  unfolding check_for_stopped_and_timed_out_jobs
  check-SystemInv env status now s t (c, r) e =
      let kept =
        for_each-AllKept (λ v. let id = v.sjob.job.id in check_job (env id) (status id) (now id) v)
          (λ v w. check_job-Kept (env v.sjob.job.id) (status v.sjob.job.id) (now v.sjob.job.id) v w)
          s.scheduled_jobs s t c (omega arith) e in
      (kept.0, omega (arith, kept.1))
