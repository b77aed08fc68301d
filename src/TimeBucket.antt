-- ===== src/TimeBucket.antt =====
-- The integer time buckets of src/time_bucket.c: the macro TIME_BUCKET at 16, 32 and 64 bits. A word
-- of that width is an integer from -half to half - 1. The C arithmetic wraps to the width where a
-- result is stored; the conditions of the code leave only the last addition to do so.
pub mod Floor
pub mod Contains
mod Tests
use timescaledb.Base.{
  ℕ, ◌+◌, ◌-◌, ◌*◌, ◌^◌, Bool, true, false, ◌&&◌, ◌||◌, not, Option, none, some, ◌>>=◌,
  if◌then◌else◌, ◌==◌,
}
use timescaledb.Base.Int.{
  ℤ, pos, negsuc, pos_part, ◌+ℤ◌, ◌-ℤ◌, ◌*ℤ◌, ltb_ℤ, leb_ℤ, eqb_ℤ, tdiv, tmod, sub_ℕ,
}

-- What is stored of the sum of two words.
unfoldable pub wrap_sum : ℕ → ℤ → ℤ
wrap_sum half z =
    if leb_ℤ (pos half) z
    then z -ℤ pos (2 * half)
    else if ltb_ℤ z (sub_ℕ 0 half)
    then z +ℤ pos (2 * half)
    else z

-- The bucket's start before the offset is added back; `none` is the error that it is out of range.
unfoldable pub bucket_start : ℕ → ℕ → ℤ → Option ℤ
bucket_start half period timestamp =
    let result = tdiv timestamp period *ℤ pos period in
    if ltb_ℤ timestamp (pos 0) && not (eqb_ℤ (tmod timestamp period) (pos 0))
    then if ltb_ℤ result (sub_ℕ 0 half +ℤ pos period) then none else some (result -ℤ pos period)
    else some result

-- The timestamp with the offset taken away; `none` is the error that it is out of range.
unfoldable pub shifted : ℕ → ℤ → ℤ → Option ℤ
shifted half timestamp offset =
    if ltb_ℤ (pos 0) offset && ltb_ℤ timestamp (sub_ℕ 0 half +ℤ offset)
      || ltb_ℤ offset (pos 0) && ltb_ℤ (pos (half - 1) +ℤ offset) timestamp
    then none
    else some (timestamp -ℤ offset)

unfoldable pub time_bucket : ℕ → ℤ → ℤ → ℤ → Option ℤ
time_bucket half period timestamp offset =
    if leb_ℤ period (pos 0)
    then none
    else let p = pos_part period in
      let o = if eqb_ℤ offset (pos 0) then offset else tmod offset p in
      let t = if eqb_ℤ offset (pos 0) then some timestamp else shifted half timestamp o in
      t >>= (λ moved. bucket_start half p moved) >>= (λ result. some (wrap_sum half (result +ℤ o)))

unfoldable pub int16_bucket : ℤ → ℤ → ℤ → Option ℤ
int16_bucket period timestamp offset = time_bucket (2 ^ 15) period timestamp offset

unfoldable pub int32_bucket : ℤ → ℤ → ℤ → Option ℤ
int32_bucket period timestamp offset = time_bucket (2 ^ 31) period timestamp offset

unfoldable pub int64_bucket : ℤ → ℤ → ℤ → Option ℤ
int64_bucket period timestamp offset = time_bucket (2 ^ 63) period timestamp offset
