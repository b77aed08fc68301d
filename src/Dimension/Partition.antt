-- ===== src/Dimension/Partition.antt =====
-- What the default ranges of src/dimension.c cover: each value lies in its range, and the ranges of
-- two values are the same or do not overlap.
use timescaledb.Base.{
  ℕ, ◌-◌, ◌*◌, ◌/◌, ◌%◌, ◌^◌, ◌≤◌, ◌<◌, ◌≡◌, ◌≢◌, ◌⊎◌, inl, inr, false, none, some, if◌then◌else◌,
  leb, arith,
}
use timescaledb.Base.Int.{ℤ, pos, negsuc, ◌-ℤ◌, ◌≤ℤ◌}
use timescaledb.Dimension.{
  DimensionSlice, IsInt64, create, slice_cmp_coordinate, remap_last_coordinate, open_range_default,
  closed_range_default, slices_collide, max_value, closed_max,
}
use timescaledb.Dimension.Div.{multiple-le, lt-multiple, multiples_apart, next_multiple-le}
use timescaledb.Dimension.Ranges.{
  open_range_pos, open_range_neg, closed_range_lem, last_range, inner_range,
}
use native.Mathlib.Nat.{div-add-mod, mod-lt}

-- An open range holds the value that it was calculated for, unless the value is the last int64 and
-- a multiple of the interval.
pub open_range_contains :
    (id i : ℕ) (v : ℤ)
    → IsInt64 v
    → 0 < i
    → i < 2 ^ 63
    → (v ≡ max_value → (2 ^ 63 - 1) % i ≢ 0)
    → slice_cmp_coordinate (open_range_default id i v) v ≡ pos 0
unfolding slice_cmp_coordinate remap_last_coordinate create
open_range_contains id i (pos v) b h k d =
    rw (open_range_pos id i v (omega arith))
      (ground (arith, multiple-le v i, lt-multiple v i h, div-add-mod v i, d))
open_range_contains id i (negsuc v) b h k d =
    rw (open_range_neg id i v (omega arith) h) (ground (arith, multiple-le v i, lt-multiple v i h))

-- The range of the last int64 under an interval that divides it is empty, and does not hold the value,
-- which is compared as one less and so lies before the range.
pub open_range_misses_last :
    (id i : ℕ)
    → 0 < i
    → (2 ^ 63 - 1) % i ≡ 0
    → (slice_cmp_coordinate (open_range_default id i max_value) max_value ≡ negsuc 0)
      × ((open_range_default id i max_value).range_start ≡ max_value)
      × ((open_range_default id i max_value).range_end ≡ max_value)
unfolding slice_cmp_coordinate remap_last_coordinate create
open_range_misses_last id i h e = rw (open_range_pos id i (2 ^ 63 - 1) (omega arith)) (
  ground (arith, div-add-mod (2 ^ 63 - 1) i),
  ground (arith, div-add-mod (2 ^ 63 - 1) i),
  ground (arith, div-add-mod (2 ^ 63 - 1) i),
)

-- An open range has int64 ends, the start not above the end, and is no longer than the interval.
pub open_range_bounds :
    (id i : ℕ) (v : ℤ)
    → IsInt64 v
    → 0 < i
    → i < 2 ^ 63
    → let s = open_range_default id i v in
      IsInt64 s.range_start
      × IsInt64 s.range_end
      × (s.range_start ≤ℤ s.range_end)
      × (s.range_end -ℤ s.range_start ≤ℤ pos i)
unfolding create ◌-ℤ◌
open_range_bounds id i (pos v) b h k = rw (open_range_pos id i v (omega arith)) (
  ground (arith, multiple-le v i),
  ground (arith, multiple-le v i),
  ground (arith, multiple-le v i),
  ground (arith, multiple-le v i),
)
open_range_bounds id i (negsuc v) b h k = rw (open_range_neg id i v (omega arith) h) (
  ground (arith, multiple-le v i),
  ground (arith, multiple-le v i),
  ground (arith, multiple-le v i),
  ground (arith, multiple-le v i),
)

-- The open ranges of two values are the same slice or do not collide.
pub open_ranges_apart :
    (id i : ℕ) (v w : ℤ)
    → IsInt64 v
    → IsInt64 w
    → 0 < i
    → (open_range_default id i v ≡ open_range_default id i w)
      ⊎ (slices_collide (open_range_default id i v) (open_range_default id i w) ≡ false)
unfolding slices_collide create
open_ranges_apart id i (pos v) (pos w) b c h =
    rw (open_range_pos id i v (omega arith), open_range_pos id i w (omega arith))
      (ground (arith, multiples_apart v w i))
open_ranges_apart id i (pos v) (negsuc w) b c h =
    rw (open_range_pos id i v (omega arith), open_range_neg id i w (omega arith) h)
      (inr (ground arith))
open_ranges_apart id i (negsuc v) (pos w) b c h =
    rw (open_range_neg id i v (omega arith) h, open_range_pos id i w (omega arith))
      (inr (ground arith))
open_ranges_apart id i (negsuc v) (negsuc w) b c h =
    rw (open_range_neg id i v (omega arith) h, open_range_neg id i w (omega arith) h)
      (ground (arith, multiples_apart v w i))

-- The start of the last closed range.
last_start-lt :
    (n : ℕ) → 0 < n → n ≤ closed_max → (0 < closed_max / n) × (closed_max / n * (n - 1) < 2 ^ 31)
last_start-lt n h k =
    grind (arith, multiple-le closed_max n, div-add-mod closed_max n, mod-lt closed_max h)

-- A closed range is found for every value that is not negative, and holds it; a negative value is
-- an error.
pub closed_range_contains :
    (id n : ℕ) (v : ℤ)
    → IsInt64 v
    → 0 < n
    → n ≤ closed_max
    → ((v ≤ℤ negsuc 0) × (closed_range_default id n v ≡ none))
      ⊎ ((pos 0 ≤ℤ v)
          × ((s : DimensionSlice) × (closed_range_default id n v ≡ some s)
              × (slice_cmp_coordinate s v ≡ pos 0)))
unfolding slice_cmp_coordinate remap_last_coordinate create
closed_range_contains id n (pos v) b h k = inr (
  omega arith,
  (
    _,
    closed_range_lem id n v h k,
    ground (
      arith,
      multiple-le v (closed_max / n),
      lt-multiple v (closed_max / n),
      last_start-lt n h k,
    ),
  ),
)
closed_range_contains id n (negsuc v) b h k =
    inl (omega arith, unfold closed_range_default in ground arith)

abbrev closed_of : ℕ → ℕ → ℕ → DimensionSlice
closed_of id n x = if leb (closed_max / n * (n - 1)) x then last_range id n else inner_range id n x

closed_of_apart :
    (id n v w : ℕ)
    → (closed_of id n v ≡ closed_of id n w)
      ⊎ (slices_collide (closed_of id n v) (closed_of id n w) ≡ false)
unfolding slices_collide create
closed_of_apart id n v w = ground (
  arith,
  multiples_apart v w (closed_max / n),
  next_multiple-le v (closed_max / n) (n - 1),
  next_multiple-le w (closed_max / n) (n - 1),
)

closed_range_of :
    (id n : ℕ) (v : ℤ) (s : DimensionSlice)
    → 0 < n
    → n ≤ closed_max
    → closed_range_default id n v ≡ some s
    → (x : ℕ) × (s ≡ closed_of id n x)
closed_range_of id n (pos v) s h k p = (v, cc (closed_range_lem id n v h k))
closed_range_of id n (negsuc v) s h k p = absurd (unfold closed_range_default in ground arith)

-- The closed ranges of two values are the same slice or do not collide.
pub closed_ranges_apart :
    (id n : ℕ) (v w : ℤ) (s t : DimensionSlice)
    → 0 < n
    → n ≤ closed_max
    → closed_range_default id n v ≡ some s
    → closed_range_default id n w ≡ some t
    → (s ≡ t) ⊎ (slices_collide s t ≡ false)
closed_ranges_apart id n v w s t h k p q =
    let (x, e) = closed_range_of id n v s h k p in
    let (y, f) = closed_range_of id n w t h k q in rw (e, f) (closed_of_apart id n x y)
