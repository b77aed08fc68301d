-- ===== src/Bgw/JobStat.antt =====
-- The statistics of background jobs, src/bgw/job_stat.c. The catalogue table is a list of rows, and a
-- scan by job id visits the row of that job. Counters are words of 64 or 32 bits in two's
-- complement. PostgreSQL's clock, intervals and floating-point numbers are parameters; a call that
-- raises an error gives `none`, which aborts the transaction.
pub mod Counters
pub mod Table
pub mod Backoff
pub mod Lookup
pub mod Tests
use timescaledb.Base.{
  ℕ, zero, suc, ◌+◌, ◌-◌, ◌%◌, ◌^◌, Bool, true, false, not, ◌&&◌, Option, none, some, ◌>>=◌, List,
  [], ◌∷◌, ◌++◌, if◌then◌else◌, ltb, ◌==◌,
}
use timescaledb.Base.Int.{ℤ, pos, negsuc, ◌-ℤ◌, eqb_ℤ, ltb_ℤ}

-- Timestamps are microseconds; DT_NOBEGIN is the least of them.
abbrev pub dt_nobegin : ℤ
dt_nobegin = negsuc (2 ^ 63 - 1)

abbrev pub max_intervals_backoff : ℕ
max_intervals_backoff = 5

abbrev pub max_failures_multiplier : ℕ
max_failures_multiplier = 20

abbrev pub min_wait_after_crash_ms : ℕ
min_wait_after_crash_ms = 300000

-- What the code calls of PostgreSQL. `clock n` is the n-th reading of the clock in an operation.
pub record Postgres (Interval Float8 : Type 0) : Type 0 where
  pub clock : ℕ → ℤ
  pub is_valid_timestamp : ℤ → Bool
  pub timestamptz_pl_interval : ℤ → Interval → Option ℤ
  pub plus_milliseconds : ℤ → ℕ → ℤ
  pub timestamp_mi : ℤ → ℤ → Option Interval
  pub interval_pl : Interval → Interval → Option Interval
  pub interval_mul : Interval → Float8 → Option Interval
  pub interval_gt : Interval → Interval → Bool
  pub zero_ival : Interval
  pub float8 : ℕ → Float8  -- of an int32
  pub one_plus : Float8 → Float8
  pub ldexp : ℤ → ℤ → Float8
  pub lrand48 : ℕ

pub record BgwJob (Interval : Type 0) : Type 0 where
  pub id : ℕ
  pub schedule_interval : Interval
  pub retry_period : Interval

pub record BgwJobStat (Interval : Type 0) : Type 0 where
  pub job_id : ℕ
  pub last_start : ℤ
  pub last_finish : ℤ
  pub next_start : ℤ
  pub last_successful_finish : ℤ
  pub last_run_success : Bool
  pub total_runs : ℕ
  pub total_duration : Interval
  pub total_success : ℕ
  pub total_failures : ℕ
  pub total_crashes : ℕ
  pub consecutive_failures : ℕ
  pub consecutive_crashes : ℕ

pub data JobResult : Type 0 where
  job_failure_to_start job_failure job_success : JobResult

-- `++` and `--` of an int64 and an int32, and the test `> n` of an int32.
abbrev pub incr64 : ℕ → ℕ
incr64 x = (x + 1) % 2 ^ 64

abbrev pub decr64 : ℕ → ℕ
decr64 x = (x + (2 ^ 64 - 1)) % 2 ^ 64

abbrev pub incr32 : ℕ → ℕ
incr32 x = (x + 1) % 2 ^ 32

abbrev pub gt32 : ℕ → ℕ → Bool
gt32 x n = ltb n x && ltb x (2 ^ 31)

module _ {I F : Type 0} (pg : Postgres I F) where
  unfoldable pub next_start_was_set : BgwJobStat I → Bool
  next_start_was_set fd = not (eqb_ℤ fd.next_start dt_nobegin)

  unfoldable pub tuple_mark_start : BgwJobStat I → BgwJobStat I
  tuple_mark_start fd = record fd {
    last_start = pg.clock 0;
    last_finish = dt_nobegin;
    next_start = dt_nobegin;
    total_runs = incr64 fd.total_runs;
    last_run_success = false;
    total_crashes = incr64 fd.total_crashes;
    consecutive_crashes = incr32 fd.consecutive_crashes;
  }

  unfoldable pub calculate_next_start_on_success : ℤ → BgwJob I → Option ℤ
  calculate_next_start_on_success finish_time job =
      let last_finish = if pg.is_valid_timestamp finish_time then finish_time else pg.clock 1 in
      pg.timestamptz_pl_interval last_finish job.schedule_interval

  -- The random byte is `pg_lrand48`'s lowest.
  unfoldable pub calculate_jitter_percent : F
  calculate_jitter_percent = pg.ldexp (pos 16 -ℤ pos (pg.lrand48 % 256 % 32)) (negsuc 6)

  -- The part inside PG_TRY.
  unfoldable pub backoff : ℤ → ℕ → BgwJob I → Option ℤ
  backoff last_finish multiplier job = do
    ival ← pg.interval_mul job.retry_period (pg.float8 multiplier)
    ival_max ← pg.interval_mul job.schedule_interval (pg.float8 max_intervals_backoff)
    jittered ←
        pg.interval_mul (if pg.interval_gt ival ival_max then ival_max else ival)
          (pg.one_plus calculate_jitter_percent)
    pg.timestamptz_pl_interval last_finish jittered

  unfoldable pub calculate_next_start_on_failure : ℤ → ℕ → BgwJob I → Option ℤ
  calculate_next_start_on_failure finish_time consecutive_failures job =
      let multiplier =
        if gt32 consecutive_failures max_failures_multiplier
        then max_failures_multiplier
        else consecutive_failures in
      let last_finish = if pg.is_valid_timestamp finish_time then finish_time else pg.clock 1 in
      elim (backoff last_finish multiplier job) [
        | some res ↦ some res
        | none ↦ pg.timestamptz_pl_interval (pg.clock 2) job.retry_period
      ]

  unfoldable pub calculate_next_start_on_crash : ℕ → BgwJob I → Option ℤ
  calculate_next_start_on_crash consecutive_crashes job =
      let now = pg.clock 0 in
      let min_time = pg.plus_milliseconds now min_wait_after_crash_ms in
      calculate_next_start_on_failure now consecutive_crashes job
      >>= (λ failure_calc. if ltb_ℤ failure_calc min_time then some min_time else some failure_calc)

  unfoldable pub mark_success : BgwJobStat I → BgwJob I → Option (BgwJobStat I)
  mark_success fd job =
      let ended = record fd {
        total_success = incr64 fd.total_success;
        consecutive_failures = 0;
        last_successful_finish = fd.last_finish;
      } in
      if next_start_was_set fd
      then some ended
      else calculate_next_start_on_success fd.last_finish job
        >>= (λ next. some (record ended { next_start = next }))

  unfoldable pub mark_failure : BgwJobStat I → JobResult → BgwJob I → Option (BgwJobStat I)
  mark_failure fd result job =
      let ended = record fd {
        total_failures = incr64 fd.total_failures;
        consecutive_failures = incr32 fd.consecutive_failures;
      } in
      let failed_to_start : Bool = elim result [ job_failure_to_start ↦ true | _ ↦ false ] in
      if not (next_start_was_set fd) && not failed_to_start
      then calculate_next_start_on_failure fd.last_finish ended.consecutive_failures job
        >>= (λ next. some (record ended { next_start = next }))
      else some ended

  unfoldable pub tuple_mark_end : BgwJobStat I → JobResult → BgwJob I → Option (BgwJobStat I)
  tuple_mark_end fd result job =
      let succeeded : Bool = elim result [ job_success ↦ true | _ ↦ false ] in
      do
        duration ← pg.timestamp_mi (pg.clock 0) fd.last_start
        total ← pg.interval_pl fd.total_duration duration
        let ended = record fd {
          last_finish = pg.clock 0;
          total_duration = total;
          last_run_success = succeeded;
          total_crashes = decr64 fd.total_crashes;
          consecutive_crashes = 0;
        }
        if succeeded then mark_success ended job else mark_failure ended result job
