-- ===== src/Bgw/JobStat/Backoff.antt =====
-- The time of the next start after a crash.
use timescaledb.Base.{
  ℕ, ◌*◌, ◌≡◌, ◌⊎◌, inl, inr, ◌∙◌, ap, subst, Option, some, bind_some, if◌then◌else◌, arith,
}
use timescaledb.Base.Int.{ℤ, pos, ◌+ℤ◌, ◌≤ℤ◌, ltb_ℤ}
use timescaledb.Bgw.JobStat.{
  Postgres, BgwJob, min_wait_after_crash_ms, calculate_next_start_on_failure,
  calculate_next_start_on_crash,
}

module _ {I F : Type 0} (pg : Postgres I F) where
  -- Where timestamps are microseconds, to which milliseconds are added exactly, the next start after a
  -- crash is at least five minutes after the present. It is the next start after a failure at the
  -- present, unless that is earlier; then it is five minutes after the present.
  pub crash_waits :
      (crashes : ℕ) (job : BgwJob I) (t : ℤ)
      → ((s : ℤ) (n : ℕ) → pg.plus_milliseconds s n ≡ s +ℤ pos (1000 * n))
      → calculate_next_start_on_crash pg crashes job ≡ some t
      → (pg.clock 0 +ℤ pos 300000000 ≤ℤ t)
        × ((calculate_next_start_on_failure pg (pg.clock 0) crashes job ≡ some t)
            ⊎ ((t ≡ pg.clock 0 +ℤ pos 300000000)
                × ((f : ℤ) × (calculate_next_start_on_failure pg (pg.clock 0) crashes job ≡ some f)
                    × (f ≤ℤ t))))
  unfolding calculate_next_start_on_crash
  crash_waits crashes job t plus e =
      let floor = pg.plus_milliseconds (pg.clock 0) min_wait_after_crash_ms in
      let later : ℤ → Option ℤ = λ f. if ltb_ℤ f floor then some floor else some f in
      let (f, b, c) =
        bind_some (calculate_next_start_on_failure pg (pg.clock 0) crashes job) later t e in
      let exact : floor ≡ pg.clock 0 +ℤ pos 300000000 = plus (pg.clock 0) 300000 in
      let self : t ≤ℤ t = omega arith in
      let split : ((f ≡ t) × (floor ≤ℤ t)) ⊎ ((t ≡ floor) × (f ≤ℤ t)) = ground (arith, c) in
      elim split [
        | inl (same, low) ↦ (subst (λ s. s ≤ℤ t) exact low, inl (b ∙ ap some same))
        | inr (same, low) ↦
            (subst (λ s. s ≤ℤ t) (same ∙ exact) self, inr (same ∙ exact, (f, b, low)))
      ]
