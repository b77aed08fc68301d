-- ===== src/Bgw/JobStat/Tests.antt =====
-- Statistics at concrete histories: an interval is a number of microseconds, and so is a float.
use timescaledb.Base.{ℕ, ◌+◌, ◌*◌, ◌≡◌, ◌⊎◌, refl, true, false, none, some, List, [], ◌∷◌, ltb}
use timescaledb.Base.Int.{◌+ℤ◌, ℤ, pos, ◌≤ℤ◌, pos_part}
use timescaledb.Bgw.JobStat.{
  Postgres, BgwJob, BgwJobStat, job_failure, job_success, dt_nobegin, backoff,
  calculate_next_start_on_failure, calculate_next_start_on_crash, tuple_mark_start, tuple_mark_end,
  mark_success, mark_failure, calculate_next_start_on_success, next_start_was_set,
}
use timescaledb.Bgw.JobStat.Table.{find, inserted_row, mark_start, upsert_next_start, next_start}
use timescaledb.Bgw.JobStat.Counters.{Event, started, ended, replay, apply, Counted, replay-Counted}
use timescaledb.Bgw.JobStat.Backoff.{crash_waits}
use timescaledb.Bgw.JobStat.Lookup.{Upserted, mark_start_lem, upsert_counts_crash}

abbrev pub clocked : Postgres ℕ ℕ
clocked = record {
  clock = λ n. pos (1000 + n);
  is_valid_timestamp = λ t. true;
  timestamptz_pl_interval = λ t i. some (pos (pos_part t + i));
  plus_milliseconds = λ t n. t +ℤ pos (1000 * n);
  timestamp_mi = λ s t. some 0;
  interval_pl = λ i j. some (i + j);
  interval_mul = λ i x. some (i * x);
  interval_gt = λ i j. ltb j i;
  zero_ival = 0;
  float8 = λ n. n;
  one_plus = λ x. 1;
  ldexp = λ m e. 0;
  lrand48 = 9;
}

abbrev pub nightly : BgwJob ℕ
nightly = record { id = 4; schedule_interval = 500; retry_period = 60 }

mark_start_lem_example :
    (new : List (BgwJobStat ℕ)) × (mark_start clocked 4 (λ r. r) [] ≡ some new)
    × Upserted clocked (tuple_mark_start clocked) 4 dt_nobegin [] new
mark_start_lem_example = mark_start_lem clocked 4 []

nowhere : find {I = ℕ} 4 [] ≡ none
unfolding find
nowhere = refl

upsert_counts_crash_example :
    (new : List (BgwJobStat ℕ)) × (upsert_next_start clocked 4 (pos 2000) (λ r. r) [] ≡ some new)
    × (next_start clocked (find 4 new) nightly ≡ calculate_next_start_on_crash clocked 1 nightly)
upsert_counts_crash_example = upsert_counts_crash clocked 4 (pos 2000) nightly [] refl nowhere

adds : (s : ℤ) (n : ℕ) → clocked.plus_milliseconds s n ≡ s +ℤ pos (1000 * n)
adds s n = refl

crashed : calculate_next_start_on_crash clocked 2 nightly ≡ some (pos 300001000)
unfolding calculate_next_start_on_crash calculate_next_start_on_failure backoff ◌+ℤ◌
crashed = refl

crash_waits_example :
    (clocked.clock 0 +ℤ pos 300000000 ≤ℤ pos 300001000)
    × ((calculate_next_start_on_failure clocked (pos 1000) 2 nightly ≡ some (pos 300001000))
        ⊎ ((pos 300001000 ≡ clocked.clock 0 +ℤ pos 300000000)
            × ((f : ℤ) × (calculate_next_start_on_failure clocked (pos 1000) 2 nightly ≡ some f)
                × (f ≤ℤ pos 300001000))))
crash_waits_example = crash_waits clocked 2 nightly (pos 300001000) adds crashed

abbrev history : List Event
history = ended job_failure ∷ started ∷ ended job_success ∷ []

abbrev after : BgwJobStat ℕ
after = record {
  job_id = 4;
  last_start = pos 1000;
  last_finish = pos 1000;
  next_start = pos 1060;
  last_successful_finish = pos 1000;
  last_run_success = false;
  total_runs = 2;
  total_duration = 0;
  total_success = 1;
  total_failures = 1;
  total_crashes = 0;
  consecutive_failures = 1;
  consecutive_crashes = 0;
}

replayed : replay clocked nightly (inserted_row clocked 4 true dt_nobegin) history ≡ some after
unfolding replay apply inserted_row tuple_mark_start tuple_mark_end mark_success mark_failure
    next_start_was_set calculate_next_start_on_success calculate_next_start_on_failure backoff
replayed = refl

replay-Counted_example : Counted history after
replay-Counted_example = replay-Counted clocked nightly 4 dt_nobegin history after replayed
