-- ===== src/Bgw/Scheduler/Rounds.antt =====
-- ts_update_scheduled_jobs_list comes to an end: the rounds given to it are enough.
use timescaledb.Base.{
  ℕ, zero, suc, ◌+◌, ◌≡◌, ◌<◌, ◌⊎◌, inl, inr, refl, ap, ◌∙◌, Bool, true, false, Option, some, ◌>>=◌,
  List, [], ◌∷◌, length, if◌then◌else◌, ltb, ◌==◌, Bool-cases, arith,
}
use timescaledb.Base.Int.{ℤ}
use timescaledb.Bgw.JobStat.{BgwJob, BgwJobStat}
use timescaledb.Bgw.JobStat.Table.{find, next_start}
use timescaledb.Bgw.Scheduler.{
  ScheduledBgwJob, JobView, Env, release_worker, worker_state_cleanup, to_scheduled,
  job_state_scheduled,
}
use timescaledb.Bgw.Scheduler.Run.{
  is_scheduled, terminate_and_cleanup_job, Scheduler, view, put_back, push_job, new_sjob, keep_job,
  merge_jobs, update_scheduled_jobs_list,
}

-- A next start can be computed for every job.
abbrev pub HasStarts : {I F : Type 0} → (ℕ → Env I F) → Type 0
HasStarts {I} {F} env =
    (id : ℕ) (row : Option (BgwJobStat I)) (job : BgwJob I)
    → (t : ℤ) × (next_start (env id).at_next row job ≡ some t)

-- No scheduled job has an end to mark.
abbrev pub AllSettled : {I : Type 0} → List (ScheduledBgwJob I) → Type 0
AllSettled [] = Unit
AllSettled (c ∷ cs) =
    ((c.may_need_mark_end ≡ false) ⊎ (is_scheduled c.state ≡ false)) × AllSettled cs

either {ℓ} :
    {A : Type ℓ} (b : Bool) (x y : Option A)
    → (t : A) × (x ≡ some t)
    → (t : A) × (y ≡ some t)
    → (t : A) × ((if b then x else y) ≡ some t)
either true x y p q = p
either false x y p q = q

module _ {I F : Type 0} (env : ℕ → Env I F) where
  cleanup_lem :
      (id : ℕ) (v : JobView I)
      → v.sjob.may_need_mark_end ≡ false
      → worker_state_cleanup (env id) v ≡ some (release_worker (env id) v)
  unfolding worker_state_cleanup
  cleanup_lem id v h = ground (arith, h)

  to_scheduled_lem :
      (id : ℕ) (v : JobView I)
      → HasStarts env
      → v.sjob.may_need_mark_end ≡ false
      → (w : JobView I) × (to_scheduled (env id) v ≡ some w)
  unfolding to_scheduled
  to_scheduled_lem id v starts h =
      let r = release_worker (env id) v in
      let (t, e) = starts id (find r.sjob.job.id r.stats) r.sjob.job in
      let scheduled : JobView I → ℤ → JobView I = λ c next. record c {
        sjob = record c.sjob { next_start = next; state = job_state_scheduled };
      } in
      (
        scheduled r t,
        ap
              (λ o. o >>= (λ c.
                next_start (env id).at_next (find c.sjob.job.id c.stats) c.sjob.job
                >>= (λ next. some (scheduled c next))))
              (cleanup_lem id v h)
            ∙ ap (λ o. o >>= (λ next. some (scheduled r next))) e,
      )

  terminate_lem :
      (id : ℕ) (v : JobView I) → (w : JobView I) × (terminate_and_cleanup_job (env id) v ≡ some w)
  unfolding terminate_and_cleanup_job
  terminate_lem id v =
      let unmarked = record v { sjob = record v.sjob { may_need_mark_end = false } } in
      (release_worker (env id) unmarked, cleanup_lem id unmarked refl)

  keep_lem :
      (id : ℕ) (job : BgwJob I) (v : JobView I)
      → HasStarts env
      → (v.sjob.may_need_mark_end ≡ false) ⊎ (is_scheduled v.sjob.state ≡ false)
      → (w : JobView I) × (keep_job (env id) job v ≡ some w)
  unfolding keep_job
  keep_lem id job v starts (inr h) =
      let kept = record v { sjob = record v.sjob { job = job } } in
      (kept, ap (λ b. if b then to_scheduled (env id) kept else some kept) h)
  keep_lem id job v starts (inl h) =
      let kept = record v { sjob = record v.sjob { job = job } } in
      elim (Bool-cases (is_scheduled v.sjob.state)) [
        | inl b ↦
            let (w, e) = to_scheduled_lem id kept starts h in
            (w, ap (λ b. if b then to_scheduled (env id) kept else some kept) b ∙ e)
        | inr b ↦ (kept, ap (λ b. if b then to_scheduled (env id) kept else some kept) b)
      ]

  abbrev Ends : ℕ → List (ScheduledBgwJob I) → List (BgwJob I) → Scheduler I → Type 0
  Ends n cur new s = (t : Scheduler I) × (merge_jobs env n cur new s ≡ some t)

  merge-Ends :
      (n : ℕ) (cur : List (ScheduledBgwJob I)) (new : List (BgwJob I)) (s : Scheduler I)
      → HasStarts env
      → AllSettled cur
      → length cur + length new < n
      → Ends n cur new s
  unfolding merge_jobs new_sjob view
  merge-Ends zero cur new s starts a h = absurd (omega arith)
  merge-Ends (suc n) [] [] s starts a h = (record s { scheduled_jobs = [] }, refl)
  merge-Ends (suc n) (c ∷ cur) [] s starts a h =
      let (v, e) = terminate_lem c.job.id (view c s) in
      let (t, f) = merge-Ends n cur [] (put_back v cur) starts a.1 (omega arith) in
      (t, ap (λ o. o >>= (λ v. merge_jobs env n cur [] (put_back v cur))) e ∙ f)
  merge-Ends (suc n) [] (j ∷ new) s starts a h =
      let (v, e) = to_scheduled_lem j.id (view (new_sjob j) s) starts refl in
      let (t, f) = merge-Ends n [] new (put_back v []) starts tt (omega arith) in
      (
        push_job v.sjob t,
        ap
              (λ o. o >>= (λ v.
                merge_jobs env n [] new (put_back v []) >>= (λ rest. some (push_job v.sjob rest))))
              e
            ∙ ap (λ o. o >>= (λ rest. some (push_job v.sjob rest))) f,
      )
  merge-Ends (suc n) (c ∷ cur) (j ∷ new) s starts a h =
      let (v, e) = terminate_lem c.job.id (view c s) in
      let (v₁, e₁) = keep_lem j.id j (view c s) starts a.0 in
      let (v₂, e₂) = to_scheduled_lem j.id (view (new_sjob j) s) starts refl in
      let (t, f) = merge-Ends n cur (j ∷ new) (put_back v cur) starts a.1 (omega arith) in
      let (t₁, f₁) = merge-Ends n cur new (put_back v₁ cur) starts a.1 (omega arith) in
      let (t₂, f₂) = merge-Ends n (c ∷ cur) new (put_back v₂ cur) starts a (omega arith) in
      let removed = ap (λ o. o >>= (λ v. merge_jobs env n cur (j ∷ new) (put_back v cur))) e ∙ f in
      let kept =
        ap
          (λ o. o >>= (λ v.
            merge_jobs env n cur new (put_back v cur) >>= (λ rest. some (push_job v.sjob rest))))
          e₁
        ∙ ap (λ o. o >>= (λ rest. some (push_job v₁.sjob rest))) f₁ in
      let added =
        ap
          (λ o. o >>= (λ v.
            merge_jobs env n (c ∷ cur) new (put_back v cur)
            >>= (λ rest. some (push_job v.sjob rest))))
          e₂
        ∙ ap (λ o. o >>= (λ rest. some (push_job v₂.sjob rest))) f₂ in
      either (ltb c.job.id j.id) _ _ (t, removed)
        (either (c.job.id == j.id) _ _ (push_job v₁.sjob t₁, kept) (push_job v₂.sjob t₂, added))

  -- Where a next start can be computed for every job, and no scheduled job has an end to mark, reading
  -- the jobs of the catalogue again comes to an end with a new list of jobs.
  pub update_ends :
      (catalogue : List (BgwJob I)) (s : Scheduler I)
      → HasStarts env
      → AllSettled s.scheduled_jobs
      → (t : Scheduler I) × (update_scheduled_jobs_list env catalogue s ≡ some t)
  unfolding update_scheduled_jobs_list
  update_ends catalogue s starts a =
      merge-Ends (suc (length s.scheduled_jobs + length catalogue)) s.scheduled_jobs catalogue s
        starts a (omega arith)
