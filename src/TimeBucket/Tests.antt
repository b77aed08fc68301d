-- ===== src/TimeBucket/Tests.antt =====
-- Buckets at concrete timestamps.
use timescaledb.Base.{◌^◌, ◌≡◌, ◌⊎◌, refl, none, some, arith}
use timescaledb.Base.Int.{pos, negsuc, ◌+ℤ◌, ◌-ℤ◌, ◌*ℤ◌, ◌≤ℤ◌, ◌<ℤ◌, tdiv, tmod}
use timescaledb.TimeBucket.{wrap_sum, bucket_start, shifted, time_bucket, int16_bucket}
use timescaledb.TimeBucket.Contains.{HasBucket, time_bucket-HasBucket}

negative : time_bucket (2 ^ 15) (pos 10) (negsuc 12) (pos 3) ≡ some (negsuc 16)
unfolding time_bucket shifted bucket_start wrap_sum tdiv tmod ◌+ℤ◌ ◌-ℤ◌ ◌*ℤ◌
negative = refl

-- The first int16 under a negative offset: the exact start, -32769, is stored as 32767.
wraps : int16_bucket (pos 10) (negsuc 32767) (negsuc 8) ≡ some (pos 32767)
unfolding int16_bucket time_bucket shifted bucket_start wrap_sum tdiv tmod ◌+ℤ◌ ◌-ℤ◌ ◌*ℤ◌
wraps = refl

time_bucket-HasBucket_example :
    ((pos 10 ≤ℤ pos 0) × (time_bucket (2 ^ 15) (pos 10) (negsuc 12) (pos 3) ≡ none))
    ⊎ ((pos 0 <ℤ pos 10)
        × HasBucket
            (2 ^ 15)
            10
            (negsuc 12)
            (tmod (pos 3) 10)
            (time_bucket (2 ^ 15) (pos 10) (negsuc 12) (pos 3)))
time_bucket-HasBucket_example =
    time_bucket-HasBucket (2 ^ 15) (pos 10) (negsuc 12) (pos 3) (omega arith)
      (omega arith, omega arith)
