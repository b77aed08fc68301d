-- ===== src/Bgw/Scheduler/Merge.antt =====
-- Reading the jobs of the catalogue again: ts_update_scheduled_jobs_list.
use timescaledb.Base.{
  none_not_some, ℕ, zero, suc, ◌+◌, ◌≡◌, ◌≤◌, refl, sym, ap, ap₂, ◌∙◌, false, some, ◌>>=◌, inl, inr,
  List, [], ◌∷◌, map, length, if◌then◌else◌, ltb, ◌==◌, arith, bind_some, some_injective, subst,
  Bool-cases, Option-cases,
}
use timescaledb.Bgw.JobStat.{BgwJob}
use timescaledb.Bgw.Scheduler.{
  ScheduledBgwJob, JobView, Env, mark_job_as_ended, release_worker, check_end_mark,
  worker_state_cleanup, to_scheduled,
}
use timescaledb.Bgw.Scheduler.Consistent.{
  Consistent, reservations, to_scheduled-Settled, cleanup-Settled,
}
use timescaledb.Bgw.Scheduler.Run.{
  is_scheduled, terminate_and_cleanup_job, Scheduler, view, put_back, push_job, new_sjob, keep_job,
  merge_jobs, update_scheduled_jobs_list,
}
use timescaledb.Bgw.Scheduler.Jobs.{Kept, AllKept, AllConsistent, SystemInv, total}

abbrev Merged :
    {I : Type 0} → List (ScheduledBgwJob I) → List (BgwJob I) → Scheduler I → Scheduler I → Type 0
Merged {I} cur new s t =
    AllKept cur s t × (map (λ (j : ScheduledBgwJob I). j.job) t.scheduled_jobs ≡ new)

module _ {I F : Type 0} where
  ended-job :
      (env : Env I F) (v w : JobView I) → check_end_mark env v ≡ some w → w.sjob.job ≡ v.sjob.job
  unfolding check_end_mark mark_job_as_ended
  ended-job env v w e = ground arith

  cleanup-job :
      (env : Env I F) (v w : JobView I)
      → worker_state_cleanup env v ≡ some w
      → w.sjob.job ≡ v.sjob.job
  unfolding worker_state_cleanup release_worker
  cleanup-job env v w e = ground (arith, ended-job env (release_worker env v) w)

  scheduled-job :
      (env : Env I F) (v w : JobView I) → to_scheduled env v ≡ some w → w.sjob.job ≡ v.sjob.job
  unfolding to_scheduled
  scheduled-job env v w e = elim (Option-cases (worker_state_cleanup env v)) [
    | inl n ↦ ground (arith, n)
    | inr (c, p) ↦ ground (arith, p, cleanup-job env v c p)
  ]

  terminate-Released :
      (env : Env I F) (v w : JobView I)
      → reservations v.sjob ≤ v.reserved_workers
      → terminate_and_cleanup_job env v ≡ some w
      → v.reserved_workers ≡ w.reserved_workers + reservations v.sjob
  unfolding terminate_and_cleanup_job
  terminate-Released env v w r e =
      let (s, b) =
        cleanup-Settled env (record v { sjob = record v.sjob { may_need_mark_end = false } }) w r
          e in
      ground (arith, s, b)

  keep-Kept :
      (env : Env I F) (job : BgwJob I) (v w : JobView I)
      → Consistent v.sjob
      → reservations v.sjob ≤ v.reserved_workers
      → keep_job env job v ≡ some w
      → Kept v w × (w.sjob.job ≡ job)
  unfolding keep_job is_scheduled
  keep-Kept env job v w c r e =
      let kept = record v { sjob = record v.sjob { job = job } } in
      ground (arith, to_scheduled-Settled env kept w r, scheduled-job env kept w)

  new-Kept :
      (env : Env I F) (job : BgwJob I) (s : Scheduler I) (w : JobView I)
      → to_scheduled env (view (new_sjob job) s) ≡ some w
      → Consistent w.sjob
        × (w.sjob.job ≡ job)
        × (s.reserved_workers + reservations w.sjob ≡ w.reserved_workers)
  unfolding new_sjob view
  new-Kept env job s w e = ground (
    arith,
    to_scheduled-Settled env (view (new_sjob job) s) w (omega arith) e,
    scheduled-job env (view (new_sjob job) s) w e,
  )

  -- The rest of the merge, for the three ways to begin it.
  abbrev Rest : ℕ → (ℕ → Env I F) → List (ScheduledBgwJob I) → List (BgwJob I) → Type 0
  Rest n env cur new =
      (s t : Scheduler I)
      → AllConsistent cur
      → total cur ≤ s.reserved_workers
      → merge_jobs env n cur new s ≡ some t
      → Merged cur new s t

  drop-Merged :
      (env : ℕ → Env I F) (n : ℕ) (c : ScheduledBgwJob I) (cur : List (ScheduledBgwJob I))
      (new : List (BgwJob I)) (s t : Scheduler I)
      → Rest n env cur new
      → AllConsistent (c ∷ cur)
      → total (c ∷ cur) ≤ s.reserved_workers
      → (terminate_and_cleanup_job (env c.job.id) (view c s)
          >>= (λ v. merge_jobs env n cur new (put_back v cur)))
        ≡ some t
      → Merged (c ∷ cur) new s t
  unfolding view put_back
  drop-Merged env n c cur new s t ih a r e =
      let (v, p, q) =
        bind_some (terminate_and_cleanup_job (env c.job.id) (view c s))
          (λ v. merge_jobs env n cur new (put_back v cur)) t e in
      let released = terminate-Released (env c.job.id) (view c s) v (omega arith) p in
      let ((k, b), m) = ih (put_back v cur) t a.1 (omega (arith, released)) q in
      ((k, omega (arith, b, released)), m)

  keep-Merged :
      (env : ℕ → Env I F) (n : ℕ) (c : ScheduledBgwJob I) (cur : List (ScheduledBgwJob I))
      (j : BgwJob I) (new : List (BgwJob I)) (s t : Scheduler I)
      → Rest n env cur new
      → AllConsistent (c ∷ cur)
      → total (c ∷ cur) ≤ s.reserved_workers
      → (keep_job (env j.id) j (view c s) >>= (λ v.
          merge_jobs env n cur new (put_back v cur) >>= (λ rest. some (push_job v.sjob rest))))
        ≡ some t
      → Merged (c ∷ cur) (j ∷ new) s t
  unfolding view put_back push_job
  keep-Merged env n c cur j new s t ih a r e =
      let (v, p, q) =
        bind_some (keep_job (env j.id) j (view c s))
          (λ v. merge_jobs env n cur new (put_back v cur) >>= (λ rest. some (push_job v.sjob rest)))
          t e in
      let (rest, p', q') =
        bind_some (merge_jobs env n cur new (put_back v cur)) (λ rest. some (push_job v.sjob rest))
          t q in
      let ((consistent, balanced), same) =
        keep-Kept (env j.id) j (view c s) v a.0 (omega arith) p in
      let ((k, b), m) = ih (put_back v cur) rest a.1 (omega (arith, balanced)) p' in
      subst (Merged (c ∷ cur) (j ∷ new) s) (some_injective q')
        (((consistent, k), omega (arith, b, balanced)), ap₂ (◌∷◌) same m)

  add-Merged :
      (env : ℕ → Env I F) (n : ℕ) (cur : List (ScheduledBgwJob I))
      (later : List (ScheduledBgwJob I)) (j : BgwJob I) (new : List (BgwJob I)) (s t : Scheduler I)
      → Rest n env cur new
      → AllConsistent cur
      → total cur ≤ s.reserved_workers
      → (to_scheduled (env j.id) (view (new_sjob j) s) >>= (λ v.
          merge_jobs env n cur new (put_back v later) >>= (λ rest. some (push_job v.sjob rest))))
        ≡ some t
      → Merged cur (j ∷ new) s t
  unfolding put_back push_job
  add-Merged env n cur later j new s t ih a r e =
      let (v, p, q) =
        bind_some (to_scheduled (env j.id) (view (new_sjob j) s))
          (λ v.
            merge_jobs env n cur new (put_back v later) >>= (λ rest. some (push_job v.sjob rest)))
          t e in
      let (rest, p', q') =
        bind_some (merge_jobs env n cur new (put_back v later))
          (λ rest. some (push_job v.sjob rest)) t q in
      let (consistent, same, balanced) = new-Kept (env j.id) j s v p in
      let ((k, b), m) = ih (put_back v later) rest a (omega (arith, balanced)) p' in
      subst (Merged cur (j ∷ new) s) (some_injective q')
        (((consistent, k), omega (arith, b, balanced)), ap₂ (◌∷◌) same m)

  merge-Merged :
      (env : ℕ → Env I F) (n : ℕ) (cur : List (ScheduledBgwJob I)) (new : List (BgwJob I))
      → Rest n env cur new
  unfolding merge_jobs
  merge-Merged env zero cur new s t a r e = none_not_some e
  merge-Merged env (suc n) [] [] s t a r e =
      subst (Merged [] [] s) (some_injective e) ((tt, refl), refl)
  merge-Merged env (suc n) (c ∷ cur) [] s t a r e =
      drop-Merged env n c cur [] s t (merge-Merged env n cur []) a r e
  merge-Merged env (suc n) [] (j ∷ new) s t a r e =
      add-Merged env n [] [] j new s t (merge-Merged env n [] new) a r e
  merge-Merged env (suc n) (c ∷ cur) (j ∷ new) s t a r e =
      let dropped =
        terminate_and_cleanup_job (env c.job.id) (view c s)
        >>= (λ v. merge_jobs env n cur (j ∷ new) (put_back v cur)) in
      let kept = keep_job (env j.id) j (view c s) >>= (λ v.
        merge_jobs env n cur new (put_back v cur) >>= (λ rest. some (push_job v.sjob rest))) in
      let added = to_scheduled (env j.id) (view (new_sjob j) s) >>= (λ v.
        merge_jobs env n (c ∷ cur) new (put_back v cur)
        >>= (λ rest. some (push_job v.sjob rest))) in
      elim (Bool-cases (ltb c.job.id j.id)) [
        | inl h ↦
            drop-Merged env n c cur (j ∷ new) s t (merge-Merged env n cur (j ∷ new)) a r (
              sym (ap (λ b. if b then dropped else if c.job.id == j.id then kept else added) h) ∙ e)
        | inr h ↦
            let e' =
              sym (ap (λ b. if b then dropped else if c.job.id == j.id then kept else added) h)
              ∙ e in
            elim (Bool-cases (c.job.id == j.id)) [
              | inl h' ↦
                  keep-Merged env n c cur j new s t (merge-Merged env n cur new) a r
                    (sym (ap (λ b. if b then kept else added) h') ∙ e')
              | inr h' ↦
                  add-Merged env n (c ∷ cur) cur j new s t (merge-Merged env n (c ∷ cur) new) a r
                    (sym (ap (λ b. if b then kept else added) h') ∙ e')
            ]
      ]

  -- After the catalogue was read again, the jobs are those of the catalogue, in its order, the fields
  -- of each agree with its state, and the workers reserved are those of the jobs.
  pub update-SystemInv :
      (env : ℕ → Env I F) (catalogue : List (BgwJob I)) (s t : Scheduler I)
      → SystemInv s
      → update_scheduled_jobs_list env catalogue s ≡ some t
      → SystemInv t × (map (λ (j : ScheduledBgwJob I). j.job) t.scheduled_jobs ≡ catalogue)
  unfolding update_scheduled_jobs_list
  update-SystemInv env catalogue s t (c, r) e =
      let ((k, b), m) =
        merge-Merged env (suc (length s.scheduled_jobs + length catalogue)) s.scheduled_jobs
          catalogue s t c (omega arith) e in
      ((k, omega (arith, b)), m)
