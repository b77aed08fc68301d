-- ===== src/Bgw/JobStat/Counters.antt =====
-- The counters of a row against its history.
use timescaledb.Base.{
  subst, some_injective, none_not_some, Option-cases, inl, inr, ℕ, suc, ◌+◌, ◌%◌, ◌^◌, ◌≡◌, sym, ap,
  ◌∙◌, true, Option, some, ◌>>=◌, List, [], ◌∷◌, arith,
}
use timescaledb.Base.Int.{ℤ}
use timescaledb.Bgw.JobStat.{
  Postgres, BgwJob, BgwJobStat, JobResult, job_failure_to_start, job_failure, job_success,
  tuple_mark_start, tuple_mark_end, mark_success, mark_failure,
}
use timescaledb.Bgw.JobStat.Table.{inserted_row, tuple_set_next_start}

-- What happens to a row after it was inserted.
pub data Event : Type 0 where
  started : Event
  ended : JobResult → Event
  next_set : ℤ → Event

abbrev pub starts : List Event → ℕ
starts [] = 1
starts (started ∷ h) = suc (starts h)
starts (_ ∷ h) = starts h

abbrev pub successes : List Event → ℕ
successes [] = 0
successes (ended job_success ∷ h) = suc (successes h)
successes (_ ∷ h) = successes h

abbrev pub failures : List Event → ℕ
failures [] = 0
failures (ended job_failure ∷ h) = suc (failures h)
failures (ended job_failure_to_start ∷ h) = suc (failures h)
failures (_ ∷ h) = failures h

-- Starts since the last end, and failures since the last success.
abbrev pub open_starts : List Event → ℕ
open_starts [] = 1
open_starts (started ∷ h) = suc (open_starts h)
open_starts (ended r ∷ h) = 0
open_starts (next_set t ∷ h) = open_starts h

abbrev pub open_failures : List Event → ℕ
open_failures [] = 0
open_failures (ended job_success ∷ h) = 0
open_failures (ended job_failure ∷ h) = suc (open_failures h)
open_failures (ended job_failure_to_start ∷ h) = suc (open_failures h)
open_failures (_ ∷ h) = open_failures h

module _ {I F : Type 0} (pg : Postgres I F) (job : BgwJob I) where
  unfoldable pub apply : Event → BgwJobStat I → Option (BgwJobStat I)
  apply started row = some (tuple_mark_start pg row)
  apply (ended r) row = tuple_mark_end pg row r job
  apply (next_set t) row = some (tuple_set_next_start t row)

  -- The row after a history, whose newest event stands first.
  unfoldable pub replay : BgwJobStat I → List Event → Option (BgwJobStat I)
  replay row [] = some row
  replay row (e ∷ h) = replay row h >>= apply e

abbrev pub Counted : {I : Type 0} → List Event → BgwJobStat I → Type 0
Counted h row =
    (row.total_runs ≡ starts h % 2 ^ 64)
    × (row.total_success ≡ successes h % 2 ^ 64)
    × (row.total_failures ≡ failures h % 2 ^ 64)
    × ((row.total_crashes + successes h + failures h) % 2 ^ 64 ≡ starts h % 2 ^ 64)
    × (row.consecutive_crashes ≡ open_starts h % 2 ^ 32)
    × (row.consecutive_failures ≡ open_failures h % 2 ^ 32)

module _ {I F : Type 0} (pg : Postgres I F) (job : BgwJob I) where
  start-Counted :
      (h : List Event) (row : BgwJobStat I)
      → Counted h row
      → Counted (started ∷ h) (tuple_mark_start pg row)
  unfolding tuple_mark_start
  start-Counted h row c = ground arith

  set-Counted :
      (h : List Event) (t : ℤ) (row : BgwJobStat I)
      → Counted h row
      → Counted (next_set t ∷ h) (tuple_set_next_start t row)
  unfolding tuple_set_next_start
  set-Counted h t row c = c

  success-Counted :
      (h : List Event) (row new : BgwJobStat I)
      → Counted h row
      → tuple_mark_end pg row job_success job ≡ some new
      → Counted (ended job_success ∷ h) new
  unfolding tuple_mark_end mark_success
  success-Counted h row new c e = ground arith

  failure-Counted :
      (h : List Event) (row new : BgwJobStat I)
      → Counted h row
      → tuple_mark_end pg row job_failure job ≡ some new
      → Counted (ended job_failure ∷ h) new
  unfolding tuple_mark_end mark_failure
  failure-Counted h row new c e = ground arith

  unstarted-Counted :
      (h : List Event) (row new : BgwJobStat I)
      → Counted h row
      → tuple_mark_end pg row job_failure_to_start job ≡ some new
      → Counted (ended job_failure_to_start ∷ h) new
  unfolding tuple_mark_end mark_failure
  unstarted-Counted h row new c e = ground arith

  apply-Counted :
      (e : Event) (h : List Event) (row new : BgwJobStat I)
      → Counted h row
      → apply pg job e row ≡ some new
      → Counted (e ∷ h) new
  unfolding apply
  apply-Counted started h row new c e =
      subst (Counted (started ∷ h)) (some_injective e) (start-Counted h row c)
  apply-Counted (ended job_success) h row new c e = success-Counted h row new c e
  apply-Counted (ended job_failure) h row new c e = failure-Counted h row new c e
  apply-Counted (ended job_failure_to_start) h row new c e = unstarted-Counted h row new c e
  apply-Counted (next_set t) h row new c e =
      subst (Counted (next_set t ∷ h)) (some_injective e) (set-Counted h t row c)

  from-Counted :
      (row : BgwJobStat I)
      → Counted [] row
      → (h : List Event) (new : BgwJobStat I) → replay pg job row h ≡ some new
      → Counted h new
  unfolding replay
  from-Counted row c [] new e = subst (Counted []) (some_injective e) c
  from-Counted row c (ev ∷ h) new e = elim (Option-cases (replay pg job row h)) [
    | inl n ↦ none_not_some (sym (ap (λ o. o >>= apply pg job ev) n) ∙ e)
    | inr (old, o) ↦
        apply-Counted ev h old new (from-Counted row c h old o)
          (sym (ap (λ o. o >>= apply pg job ev) o) ∙ e)
  ]

  -- After any history of a row that a start mark inserted, the totals count the runs, the successes
  -- and the failures, the crashes are the runs that did not end, and the two consecutive counters
  -- are the starts since the last end and the failures since the last success, all in words.
  pub replay-Counted :
      (id : ℕ) (next : ℤ) (h : List Event) (new : BgwJobStat I)
      → replay pg job (inserted_row pg id true next) h ≡ some new
      → Counted h new
  unfolding inserted_row
  replay-Counted id next h new e = from-Counted (inserted_row pg id true next) (omega arith) h new e
