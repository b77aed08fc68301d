-- ===== src/Bgw/Scheduler/Wakeup.antt =====
-- When the scheduler wakes up next, in src/bgw/scheduler.c.
use timescaledb.Base.{ℕ, ◌^◌, ◌-◌, ◌≡◌, ◌⊎◌, Bool, true, List, [], ◌∷◌, if◌then◌else◌}
use timescaledb.Base.Int.{ℤ, pos, ltb_ℤ, ◌≤ℤ◌, ◌<ℤ◌}
use timescaledb.Bgw.Scheduler.{
  job_state_scheduled, job_state_started, job_state_disabled, job_state_terminating,
  ScheduledBgwJob,
}
use timescaledb.Bgw.Scheduler.Run.{is_scheduled, is_started}

-- DT_NOEND and START_RETRY_MS.
abbrev pub dt_noend : ℤ
dt_noend = pos (2 ^ 63 - 1)

abbrev pub start_retry_ms : ℕ
start_retry_ms = 1000

unfoldable pub least_timestamp : ℤ → ℤ → ℤ
least_timestamp left right = if ltb_ℤ left right then left else right

module _ {I : Type 0} (counts : ScheduledBgwJob I → Bool) (time : ScheduledBgwJob I → ℤ) where
  -- The loop of both functions below.
  unfoldable pub earliest_of : ℤ → List (ScheduledBgwJob I) → ℤ
  earliest_of earliest [] = earliest
  earliest_of earliest (sjob ∷ jobs) =
      earliest_of (if counts sjob then least_timestamp earliest (time sjob) else earliest) jobs

  -- No job that counts has an earlier time.
  abbrev pub NoneBefore : ℤ → List (ScheduledBgwJob I) → Type 0
  NoneBefore t [] = Unit
  NoneBefore t (sjob ∷ jobs) = (counts sjob ≡ true → t ≤ℤ time sjob) × NoneBefore t jobs

  abbrev pub IsTimeOf : ℤ → List (ScheduledBgwJob I) → Type 0
  IsTimeOf t [] = ⊥
  IsTimeOf t (sjob ∷ jobs) = ((counts sjob ≡ true) × (t ≡ time sjob)) ⊎ IsTimeOf t jobs

module _ {I : Type 0} where
  -- When a scheduled job starts, or is tried again.
  unfoldable pub start_time : (ℤ → ℕ → ℤ) → ℤ → ScheduledBgwJob I → ℤ
  start_time plus_milliseconds now sjob =
      if ltb_ℤ sjob.next_start now then plus_milliseconds now start_retry_ms else sjob.next_start

  unfoldable pub earliest_wakeup_to_start_next_job : (ℤ → ℕ → ℤ) → ℤ → List (ScheduledBgwJob I) → ℤ
  earliest_wakeup_to_start_next_job plus_milliseconds now jobs =
      earliest_of (λ sjob. is_scheduled sjob.state) (start_time plus_milliseconds now) dt_noend jobs

  unfoldable pub earliest_job_timeout : List (ScheduledBgwJob I) → ℤ
  earliest_job_timeout jobs =
      earliest_of (λ sjob. is_started sjob.state) (λ sjob. sjob.timeout_at) dt_noend jobs

  -- When the main loop wakes up, which quits at `quit_time`.
  unfoldable pub next_wakeup : (ℤ → ℕ → ℤ) → ℤ → ℤ → List (ScheduledBgwJob I) → ℤ
  unfolding least_timestamp
  next_wakeup plus_milliseconds now quit_time jobs =
      least_timestamp
        (least_timestamp quit_time (earliest_wakeup_to_start_next_job plus_milliseconds now jobs))
        (earliest_job_timeout jobs)

  -- A scheduled job is due at its next start, or 1000 milliseconds from now if that has passed; a
  -- started one at its timeout.
  abbrev pub IsDue : (ℤ → ℕ → ℤ) → ℤ → ScheduledBgwJob I → ℤ → Type 0
  IsDue plus_milliseconds now sjob t =
      ((sjob.state ≡ job_state_scheduled) × (now ≤ℤ sjob.next_start) × (t ≡ sjob.next_start))
      ⊎ (((sjob.state ≡ job_state_scheduled)
            × (sjob.next_start <ℤ now)
            × (t ≡ plus_milliseconds now 1000))
          ⊎ ((sjob.state ≡ job_state_started) × (t ≡ sjob.timeout_at)))

  abbrev pub SomeDue : (ℤ → ℕ → ℤ) → ℤ → List (ScheduledBgwJob I) → ℤ → Type 0
  SomeDue plus_milliseconds now [] t = ⊥
  SomeDue plus_milliseconds now (sjob ∷ jobs) t =
      IsDue plus_milliseconds now sjob t ⊎ SomeDue plus_milliseconds now jobs t

  -- A job is not due before a time, or is never due.
  abbrev pub NotBefore : (ℤ → ℕ → ℤ) → ℤ → ScheduledBgwJob I → ℤ → Type 0
  NotBefore plus_milliseconds now sjob t =
      ((due : ℤ) × IsDue plus_milliseconds now sjob due × (t ≤ℤ due))
      ⊎ ((sjob.state ≡ job_state_disabled) ⊎ (sjob.state ≡ job_state_terminating))

  abbrev pub AllNotBefore : (ℤ → ℕ → ℤ) → ℤ → List (ScheduledBgwJob I) → ℤ → Type 0
  AllNotBefore plus_milliseconds now [] t = Unit
  AllNotBefore plus_milliseconds now (sjob ∷ jobs) t =
      NotBefore plus_milliseconds now sjob t × AllNotBefore plus_milliseconds now jobs t
