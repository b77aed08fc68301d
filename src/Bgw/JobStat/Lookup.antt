-- ===== src/Bgw/JobStat/Lookup.antt =====
-- What a look-up finds after the operations on the table.
use timescaledb.Base.{
  ℕ, ◌≡◌, ◌≢◌, refl, ap, ◌∙◌, Bool, true, false, Option, none, some, ◌>>=◌, List, [], ◌∷◌,
  if◌then◌else◌, ◌==◌, arith,
}
use timescaledb.Base.Int.{ℤ, eqb_ℤ}
use timescaledb.Bgw.JobStat.{
  Postgres, BgwJob, BgwJobStat, dt_nobegin, tuple_mark_start, calculate_next_start_on_crash,
}
use timescaledb.Bgw.JobStat.Table.{
  scan_job_id, find, inserted_row, insert_relation, tuple_set_next_start, double_check, mark_start,
  upsert_next_start, next_start,
}

module _ {I : Type 0} (f : BgwJobStat I → BgwJobStat I) (id : ℕ) where
  unfoldable update : List (BgwJobStat I) → List (BgwJobStat I)
  update [] = []
  update (row ∷ rows) =
      let rest = update rows in if row.job_id == id then f row ∷ rows else row ∷ rest

  unfoldable is_there : List (BgwJobStat I) → Bool
  is_there [] = false
  is_there (row ∷ rows) = if row.job_id == id then true else is_there rows

  scan-update :
      (rows : List (BgwJobStat I))
      → scan_job_id (λ row. some (f row)) id rows ≡ some (is_there rows, update rows)
  unfolding scan_job_id update is_there
  scan-update [] = refl
  scan-update (row ∷ rows) = ground (arith, scan-update rows)

  find-update :
      ((row : BgwJobStat I) → (f row).job_id ≡ row.job_id)
      → (rows : List (BgwJobStat I))
      → find id (update rows) ≡ (find id rows >>= (λ row. some (f row)))
  unfolding find update
  find-update k [] = refl
  find-update k (row ∷ rows) = ground (arith, k row, find-update k rows)

  find-update_other :
      ((row : BgwJobStat I) → (f row).job_id ≡ row.job_id)
      → (other : ℕ) → other ≢ id
      → (rows : List (BgwJobStat I)) → find other (update rows) ≡ find other rows
  unfolding find update
  find-update_other k other n [] = refl
  find-update_other k other n (row ∷ rows) = ground (arith, k row, find-update_other k other n rows)

  missing :
      (rows : List (BgwJobStat I))
      → is_there rows ≡ false
      → (find id rows ≡ none) × (update rows ≡ rows)
  unfolding find is_there update
  missing [] e = (refl, refl)
  missing (row ∷ rows) e = ground (arith, missing rows)

  present : (rows : List (BgwJobStat I)) → is_there rows ≡ true → find id rows ≢ none
  unfolding find is_there
  present [] e = ground arith
  present (row ∷ rows) e = ground (arith, present rows)

module _ {I F : Type 0} (pg : Postgres I F) where
  -- What a write that updates the row of a job, or inserts one, leaves for the look-ups.
  abbrev pub Upserted :
      (BgwJobStat I → BgwJobStat I) → ℕ → ℤ → List (BgwJobStat I) → List (BgwJobStat I) → Type 0
  Upserted f id next rows new =
      (find id new ≡ elim (find id rows) [
        | none ↦ some (inserted_row pg id true next)
        | some row ↦ some (f row)
      ])
      × ((other : ℕ) → other ≢ id → find other new ≡ find other rows)

  module _ (f : BgwJobStat I → BgwJobStat I)
      (k : (row : BgwJobStat I) → (f row).job_id ≡ row.job_id) (id : ℕ) (next : ℤ) where
    upserted : List (BgwJobStat I) → List (BgwJobStat I)
    upserted rows =
        if is_there f id rows then update f id rows else insert_relation pg id true next rows

    double_check-upserted :
        (rows : List (BgwJobStat I))
        → double_check pg (λ row. some (f row)) id next (λ r. r) rows ≡ some (upserted rows)
    unfolding double_check upserted
    double_check-upserted rows = ground (arith, scan-update f id rows, missing f id rows)

    upserted_here :
        (rows : List (BgwJobStat I))
        → find id (upserted rows) ≡ elim (find id rows) [
          | none ↦ some (inserted_row pg id true next)
          | some row ↦ some (f row)
        ]
    unfolding upserted insert_relation find inserted_row
    upserted_here rows =
        ground (arith, find-update f id k rows, missing f id rows, present f id rows)

    upserted_elsewhere :
        (other : ℕ)
        → other ≢ id
        → (rows : List (BgwJobStat I)) → find other (upserted rows) ≡ find other rows
    unfolding upserted insert_relation find inserted_row
    upserted_elsewhere other n rows = ground (arith, find-update_other f id k other n rows)

    upserts :
        (rows : List (BgwJobStat I))
        → (new : List (BgwJobStat I)) × (double_check pg (λ row. some (f row)) id next (λ r. r) rows
            ≡ some new)
          × Upserted f id next rows new
    upserts rows = (
      upserted rows,
      double_check-upserted rows,
      (upserted_here rows, λ other n. upserted_elsewhere other n rows),
    )

  start_keeps_id : (row : BgwJobStat I) → (tuple_mark_start pg row).job_id ≡ row.job_id
  unfolding tuple_mark_start
  start_keeps_id row = refl

  set_keeps_id : (t : ℤ) (row : BgwJobStat I) → (tuple_set_next_start t row).job_id ≡ row.job_id
  unfolding tuple_set_next_start
  set_keeps_id t row = refl

  -- Without writes of others between its two scans, a start mark succeeds: it updates the row of the
  -- job, or inserts one, and no look-up of another job changes.
  pub mark_start_lem :
      (id : ℕ) (rows : List (BgwJobStat I))
      → (new : List (BgwJobStat I)) × (mark_start pg id (λ r. r) rows ≡ some new)
        × Upserted (tuple_mark_start pg) id dt_nobegin rows new
  unfolding mark_start
  mark_start_lem id rows = upserts (tuple_mark_start pg) start_keeps_id id dt_nobegin rows

  inserted_crashes :
      (id : ℕ) (next : ℤ) (job : BgwJob I)
      → next_start pg (some (inserted_row pg id true next)) job
        ≡ calculate_next_start_on_crash pg 1 job
  unfolding next_start inserted_row
  inserted_crashes id next job = refl

  -- Setting the next start of a job without statistics inserts a row that counts as a crashed run:
  -- the time that is read back is the one after a crash, whatever time was set.
  pub upsert_counts_crash :
      (id : ℕ) (next : ℤ) (job : BgwJob I) (rows : List (BgwJobStat I))
      → eqb_ℤ next dt_nobegin ≡ false
      → find id rows ≡ none
      → (new : List (BgwJobStat I)) × (upsert_next_start pg id next (λ r. r) rows ≡ some new)
        × (next_start pg (find id new) job ≡ calculate_next_start_on_crash pg 1 job)
  unfolding upsert_next_start
  upsert_counts_crash id next job rows e m =
      let (new, d, (here, others)) =
        upserts (tuple_set_next_start next) (set_keeps_id next) id next rows in
      let row : find id new ≡ some (inserted_row pg id true next) =
        here
        ∙ ap
            (λ (o : Option (BgwJobStat I)). elim o as (λ x. Option (BgwJobStat I)) [
              | none ↦ some (inserted_row pg id true next)
              | some r ↦ some (tuple_set_next_start next r)
            ])
            m in
      (
        new,
        ap
              (λ b.
                if b
                then none
                else double_check pg (λ r. some (tuple_set_next_start next r)) id next (λ r. r)
                    rows)
              e
            ∙ d,
        ap (λ o. next_start pg o job) row ∙ inserted_crashes id next job,
      )
