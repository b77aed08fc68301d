-- ===== src/Dimension/Ranges.antt =====
-- `open_range_default` and `closed_range_default` in plain arithmetic.
use timescaledb.Base.{
  ℕ, ◌+◌, ◌-◌, ◌*◌, ◌/◌, ◌^◌, ◌≤◌, ◌<◌, ◌≡◌, some, if◌then◌else◌, ltb, leb, arith,
}
use timescaledb.Base.Int.{
  pos, negsuc, ◌-ℤ◌, sub_ℕ, tdiv-pos, pos-*ℤ-pos, pos-+ℤ-pos, -ℤ_parts, negsuc-+ℤ-one, tdiv-neg,
  parts_zero, eq_of_parts, neg-*ℤ-pos,
}
use timescaledb.Dimension.{
  DimensionSlice, create, open_range_default, closed_range_default, max_value, min_value,
  closed_max,
}
use timescaledb.Dimension.Div.{multiple-le}

-- For a value that is not negative, the range starts at the multiple of the interval below it.
pub open_range_pos :
    (id i v : ℕ)
    → v < 2 ^ 63
    → let m = v / i * i in
      open_range_default id i (pos v)
      ≡ create id (pos m) (if ltb (2 ^ 63 - 1) (m + i) then max_value else pos (m + i))
unfolding open_range_default
open_range_pos id i v h =
    rw (tdiv-pos v i, pos-*ℤ-pos (v / i) i, pos-+ℤ-pos (v / i * i) i)
      (ground (arith, multiple-le v i, -ℤ_parts max_value (pos (v / i * i))))

-- For a negative value, -(v + 1), it ends at the multiple above it.
pub open_range_neg :
    (id i v : ℕ)
    → v < 2 ^ 63
    → 0 < i
    → let m = v / i * i in
      open_range_default id i (negsuc v)
      ≡ create id (if ltb (2 ^ 63) (m + i) then min_value else sub_ℕ 0 (m + i)) (sub_ℕ 0 m)
unfolding open_range_default
open_range_neg id i v h k =
    rw (negsuc-+ℤ-one v, tdiv-neg v i, neg-*ℤ-pos (v / i) i)
      (ground (
        arith,
        multiple-le v i,
        -ℤ_parts min_value (sub_ℕ 0 (v / i * i)),
        -ℤ_parts (pos 0) (pos i),
        -ℤ_parts (sub_ℕ 0 (v / i * i)) (pos i),
        parts_zero (sub_ℕ 0 (v / i * i) -ℤ pos i),
        eq_of_parts (sub_ℕ 0 (v / i * i) -ℤ pos i) (sub_ℕ 0 (v / i * i + i)),
      ))

-- The last closed range, from which on the values are not divided, and the one of a value below it.
abbrev pub last_range : ℕ → ℕ → DimensionSlice
last_range id n =
    let start = closed_max / n * (n - 1) in
    create id (if ltb 0 start then pos start else min_value) max_value

abbrev pub inner_range : ℕ → ℕ → ℕ → DimensionSlice
inner_range id n v =
    let start = v / (closed_max / n) * (closed_max / n) in
    create id (if ltb 0 start then pos start else min_value) (pos (start + closed_max / n))

pub closed_range_lem :
    (id n v : ℕ)
    → 0 < n
    → n ≤ closed_max
    → closed_range_default id n (pos v)
      ≡ some (if leb (closed_max / n * (n - 1)) v then last_range id n else inner_range id n v)
unfolding closed_range_default
closed_range_lem id n v h k =
    rw
      (
        tdiv-pos v (closed_max / n),
        pos-*ℤ-pos (closed_max / n) (n - 1),
        pos-*ℤ-pos (v / (closed_max / n)) (closed_max / n),
      )
      (ground (arith, pos-+ℤ-pos (v / (closed_max / n) * (closed_max / n)) (closed_max / n)))
