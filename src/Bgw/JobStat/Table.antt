-- ===== src/Bgw/JobStat/Table.antt =====
-- The operations of src/bgw/job_stat.c on the catalogue table.
use timescaledb.Base.{
  ℕ, Bool, true, false, not, ◌&&◌, Option, none, some, ◌>>=◌, List, [], ◌∷◌, if◌then◌else◌, ◌==◌,
}
use timescaledb.Base.Int.{ℤ, eqb_ℤ}
use timescaledb.Bgw.JobStat.{
  Postgres, BgwJob, BgwJobStat, JobResult, dt_nobegin, tuple_mark_start, tuple_mark_end,
  calculate_next_start_on_crash, gt32,
}

-- A scan for the row with a job id, which is a key: whether it was found, and the table after it. The
-- functions that it is called with end the scan at that row.
unfoldable pub scan_job_id :
    {I : Type 0}
    → (BgwJobStat I → Option (BgwJobStat I))
    → ℕ
    → List (BgwJobStat I)
    → Option (Bool × List (BgwJobStat I))
scan_job_id tuple_found id [] = some (false, [])
scan_job_id tuple_found id (row ∷ rows) =
    let rest = scan_job_id tuple_found id rows in
    if row.job_id == id
    then tuple_found row >>= (λ new. some (true, new ∷ rows))
    else rest >>= (λ (found, others). some (found, row ∷ others))

unfoldable pub find : {I : Type 0} → ℕ → List (BgwJobStat I) → Option (BgwJobStat I)
find id [] = none
find id (row ∷ rows) = if row.job_id == id then some row else find id rows

unfoldable pub delete : {I : Type 0} → ℕ → List (BgwJobStat I) → List (BgwJobStat I)
delete id [] = []
delete id (row ∷ rows) = let rest = delete id rows in if row.job_id == id then rest else row ∷ rest

unfoldable pub end_was_marked : {I : Type 0} → BgwJobStat I → Bool
end_was_marked jobstat = not (eqb_ℤ jobstat.last_finish dt_nobegin)

unfoldable pub tuple_set_next_start : {I : Type 0} → ℤ → BgwJobStat I → BgwJobStat I
tuple_set_next_start next fd = record fd { next_start = next }

module _ {I F : Type 0} (pg : Postgres I F) where
  unfoldable pub inserted_row : ℕ → Bool → ℤ → BgwJobStat I
  inserted_row id mark_start next = record {
    job_id = id;
    last_start = if mark_start then pg.clock 0 else dt_nobegin;
    last_finish = dt_nobegin;
    next_start = next;
    last_successful_finish = dt_nobegin;
    last_run_success = not mark_start;
    total_runs = if mark_start then 1 else 0;
    total_duration = pg.zero_ival;
    total_success = 0;
    total_failures = 0;
    total_crashes = if mark_start then 1 else 0;
    consecutive_failures = 0;
    consecutive_crashes = if mark_start then 1 else 0;
  }

  unfoldable pub insert_relation : ℕ → Bool → ℤ → List (BgwJobStat I) → List (BgwJobStat I)
  insert_relation id mark_start next rows = inserted_row id mark_start next ∷ rows

  -- The second scan, under the exclusive lock, meets the rows of the first when nothing is written
  -- between them: `between` stands for the writes of others.
  unfoldable pub double_check :
      (BgwJobStat I → Option (BgwJobStat I))
      → ℕ
      → ℤ
      → (List (BgwJobStat I) → List (BgwJobStat I))
      → List (BgwJobStat I)
      → Option (List (BgwJobStat I))
  double_check tuple_found id next between rows =
      scan_job_id tuple_found id rows >>= (λ (found, new).
        if found
        then some new
        else scan_job_id tuple_found id (between new) >>= (λ (again, newer).
          some (if again then newer else insert_relation id true next newer)))

  unfoldable pub mark_start :
      ℕ
      → (List (BgwJobStat I) → List (BgwJobStat I))
      → List (BgwJobStat I)
      → Option (List (BgwJobStat I))
  mark_start id between rows =
      double_check (λ fd. some (tuple_mark_start pg fd)) id dt_nobegin between rows

  unfoldable pub mark_end :
      BgwJob I → JobResult → List (BgwJobStat I) → Option (List (BgwJobStat I))
  mark_end job result rows =
      scan_job_id (λ fd. tuple_mark_end pg fd result job) job.id rows
      >>= (λ (found, new). if found then some new else none)

  unfoldable pub set_next_start : BgwJob I → ℤ → List (BgwJobStat I) → Option (List (BgwJobStat I))
  set_next_start job next rows =
      if eqb_ℤ next dt_nobegin
      then none
      else scan_job_id (λ fd. some (tuple_set_next_start next fd)) job.id rows
        >>= (λ (found, new). if found then some new else none)

  unfoldable pub update_next_start :
      BgwJob I → ℤ → Bool → List (BgwJobStat I) → Option (Bool × List (BgwJobStat I))
  update_next_start job next allow_unset rows =
      if not allow_unset && eqb_ℤ next dt_nobegin
      then none
      else scan_job_id (λ fd. some (tuple_set_next_start next fd)) job.id rows

  unfoldable pub upsert_next_start :
      ℕ
      → ℤ
      → (List (BgwJobStat I) → List (BgwJobStat I))
      → List (BgwJobStat I)
      → Option (List (BgwJobStat I))
  upsert_next_start id next between rows =
      if eqb_ℤ next dt_nobegin
      then none
      else double_check (λ fd. some (tuple_set_next_start next fd)) id next between rows

  unfoldable pub next_start : Option (BgwJobStat I) → BgwJob I → Option ℤ
  next_start none job = some dt_nobegin
  next_start (some jobstat) job =
      if gt32 jobstat.consecutive_crashes 0
      then calculate_next_start_on_crash pg jobstat.consecutive_crashes job
      else some jobstat.next_start
