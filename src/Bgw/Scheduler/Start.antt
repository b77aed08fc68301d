-- ===== src/Bgw/Scheduler/Start.antt =====
-- Starting the jobs that are due keeps the invariant of the list.
use timescaledb.Base.{
  Bool-cases, Option-cases, ℕ, ◌≡◌, ◌≤◌, refl, sym, ap, ◌∙◌, Option, some, ◌>>=◌, inl, inr, List,
  [], ◌∷◌, if◌then◌else◌, ◌==◌, arith, bind_some, some_injective, subst,
}
use timescaledb.Base.Int.{ℤ}
use timescaledb.Loader.Launcher.{BgwHandleStatus}
use timescaledb.Bgw.Scheduler.{ScheduledBgwJob, JobView, Env, to_started}
use timescaledb.Bgw.Scheduler.Consistent.{
  Consistent, reservations, to_scheduled-Settled, to_started-Consistent,
}
use timescaledb.Bgw.Scheduler.Run.{
  is_scheduled, is_started, scheduled_job_start, start_if_due, Scheduler, view, put_back, push_job,
  on_id, for_ids, start_scheduled_jobs,
}
use timescaledb.Bgw.Scheduler.Jobs.{Kept, IsKeeping, AllKept, AllConsistent, SystemInv, total}

module _ {I : Type 0} where
  on_id-AllKept :
      (step : JobView I → Option (JobView I))
      → IsKeeping step
      → (id : ℕ) (jobs : List (ScheduledBgwJob I)) (s t : Scheduler I) → AllConsistent jobs
      → total jobs ≤ s.reserved_workers
      → on_id step id jobs s ≡ some t
      → AllKept jobs s t
  unfolding on_id put_back view push_job
  on_id-AllKept step k id [] s t c r e = subst (AllKept [] s) (some_injective e) (tt, refl)
  on_id-AllKept step k id (j ∷ js) s t c r e =
      let here = step (view j s) >>= (λ v. some (push_job v.sjob (put_back v js))) in
      let later = on_id step id js s >>= (λ rest. some (push_job j rest)) in
      elim (Bool-cases (j.job.id == id)) [
        | inl h ↦
            let (v, p, q) =
              bind_some (step (view j s)) (λ v. some (push_job v.sjob (put_back v js))) t
                (sym (ap (λ b. if b then here else later) h) ∙ e) in
            let kept = k (view j s) v c.0 (omega arith) p in
            subst (AllKept (j ∷ js) s) (some_injective q) ((kept.0, c.1), omega (arith, kept.1))
        | inr h ↦
            let (rest, p, q) =
              bind_some (on_id step id js s) (λ rest. some (push_job j rest)) t
                (sym (ap (λ b. if b then here else later) h) ∙ e) in
            let kept = on_id-AllKept step k id js s rest c.1 (omega arith) p in
            subst (AllKept (j ∷ js) s) (some_injective q) ((c.0, kept.0), omega (arith, kept.1))
      ]

  for_ids-SystemInv :
      (step : JobView I → Option (JobView I))
      → IsKeeping step
      → (ids : List ℕ) (s t : Scheduler I) → SystemInv s
      → for_ids step ids s ≡ some t
      → SystemInv t
  unfolding for_ids
  for_ids-SystemInv step k [] s t i e = subst SystemInv (some_injective e) i
  for_ids-SystemInv step k (id ∷ ids) s t (c, r) e =
      let (next, p, q) =
        bind_some (on_id step id s.scheduled_jobs s) (λ next. for_ids step ids next) t e in
      let kept = on_id-AllKept step k id s.scheduled_jobs s next c (omega arith) p in
      for_ids-SystemInv step k ids next t (kept.0, omega (arith, kept.1)) q

module _ {I F : Type 0} where
  start_if_due-Kept :
      (env after : Env I F) (status : BgwHandleStatus) (now : ℤ) (v w : JobView I)
      → Consistent v.sjob
      → reservations v.sjob ≤ v.reserved_workers
      → start_if_due env after status now v ≡ some w
      → Kept v w
  unfolding start_if_due scheduled_job_start is_started is_scheduled
  start_if_due-Kept env after status now v w c r e = elim (Option-cases (to_started env v)) [
    | inl n ↦ ground (arith, n)
    | inr (m, p) ↦ ground (arith, p, to_started-Consistent env v m, to_scheduled-Settled after m w)
  ]

  -- Starting the jobs that are due, in any order, keeps every job's fields in agreement with its
  -- state, and the workers reserved those of the jobs.
  pub start-SystemInv :
      (list_qsort : List (ScheduledBgwJob I) → List ℕ) (env after : ℕ → Env I F)
      (status : ℕ → BgwHandleStatus) (now : ℕ → ℤ) (s t : Scheduler I)
      → SystemInv s
      → start_scheduled_jobs list_qsort env after status now s ≡ some t
      → SystemInv t
  unfolding start_scheduled_jobs
  start-SystemInv list_qsort env after status now s t i e =
      for_ids-SystemInv
        (λ v. let id = v.sjob.job.id in start_if_due (env id) (after id) (status id) (now id) v)
        (λ v w.
          start_if_due-Kept (env v.sjob.job.id) (after v.sjob.job.id) (status v.sjob.job.id)
            (now v.sjob.job.id) v w)
        (list_qsort s.scheduled_jobs) s t i e
