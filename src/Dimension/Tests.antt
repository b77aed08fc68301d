-- ===== src/Dimension/Tests.antt =====
-- Slices at concrete values.
use timescaledb.Base.{◌≡◌, ◌≢◌, ◌⊎◌, refl, true, false, none, some, ◌↔◌, arith}
use timescaledb.Base.Int.{ℤ, pos, negsuc, ◌-ℤ◌, ◌≤ℤ◌, ◌<ℤ◌, tdiv, ◌*ℤ◌, ◌+ℤ◌}
use timescaledb.Dimension.{
  max_value, min_value, IsInt64, DimensionSlice, slice_cmp, slice_cmp_coordinate,
  remap_last_coordinate, slices_collide, slices_equal, slice_cut, open_range_default,
  closed_range_default,
}
use timescaledb.Dimension.Partition.{
  open_range_contains, open_range_misses_last, open_range_bounds, open_ranges_apart,
  closed_range_contains, closed_ranges_apart,
}
use timescaledb.Dimension.Cut.{slice_cut_lem}
use timescaledb.Dimension.Order.{slice_cmp_zero_iff, slice_cmp_lex, Precedes, SameRange}

abbrev slice_of : ℤ → ℤ → DimensionSlice
slice_of range_start range_end = record {
  id = 0;
  dimension_id = 1;
  range_start = range_start;
  range_end = range_end;
}

open_range_contains_example :
    slice_cmp_coordinate (open_range_default 1 7 (negsuc 9)) (negsuc 9) ≡ pos 0
open_range_contains_example =
    open_range_contains 1 7 (negsuc 9) (ground arith) (omega arith) (omega arith) (λ e. absurd cc)

open_range_misses_last_example :
    (slice_cmp_coordinate (open_range_default 1 7 max_value) max_value ≡ negsuc 0)
    × ((open_range_default 1 7 max_value).range_start ≡ max_value)
    × ((open_range_default 1 7 max_value).range_end ≡ max_value)
open_range_misses_last_example = open_range_misses_last 1 7 (omega arith) refl

open_range_bounds_example :
    IsInt64 (open_range_default 1 10 (pos 25)).range_start
    × IsInt64 (open_range_default 1 10 (pos 25)).range_end
    × ((open_range_default 1 10 (pos 25)).range_start
        ≤ℤ (open_range_default 1 10 (pos 25)).range_end)
    × ((open_range_default 1 10 (pos 25)).range_end
          -ℤ (open_range_default 1 10 (pos 25)).range_start
        ≤ℤ pos 10)
open_range_bounds_example =
    open_range_bounds 1 10 (pos 25) (ground arith) (omega arith) (omega arith)

open_ranges_apart_example :
    (open_range_default 1 10 (pos 25) ≡ open_range_default 1 10 (negsuc 3))
    ⊎ (slices_collide (open_range_default 1 10 (pos 25)) (open_range_default 1 10 (negsuc 3))
        ≡ false)
open_ranges_apart_example =
    open_ranges_apart 1 10 (pos 25) (negsuc 3) (ground arith) (ground arith) (omega arith)

closed_range_contains_example :
    ((pos 1000 ≤ℤ negsuc 0) × (closed_range_default 2 4 (pos 1000) ≡ none))
    ⊎ ((pos 0 ≤ℤ pos 1000)
        × ((s : DimensionSlice) × (closed_range_default 2 4 (pos 1000) ≡ some s)
            × (slice_cmp_coordinate s (pos 1000) ≡ pos 0)))
closed_range_contains_example =
    closed_range_contains 2 4 (pos 1000) (ground arith) (omega arith) (omega arith)

closed_ranges_apart_low :
    closed_range_default 1 2 (pos 5) ≡ some (slice_of min_value (pos 1073741823))
unfolding closed_range_default tdiv ◌*ℤ◌ ◌+ℤ◌
closed_ranges_apart_low = refl

closed_ranges_apart_high :
    closed_range_default 1 2 (pos 2000000000) ≡ some (slice_of (pos 1073741823) max_value)
unfolding closed_range_default tdiv ◌*ℤ◌ ◌+ℤ◌
closed_ranges_apart_high = refl

closed_ranges_apart_example :
    (slice_of min_value (pos 1073741823) ≡ slice_of (pos 1073741823) max_value)
    ⊎ (slices_collide (slice_of min_value (pos 1073741823)) (slice_of (pos 1073741823) max_value)
        ≡ false)
closed_ranges_apart_example =
    closed_ranges_apart 1 2 (pos 5) (pos 2000000000) (slice_of min_value (pos 1073741823))
      (slice_of (pos 1073741823) max_value) (omega arith) (omega arith) closed_ranges_apart_low
      closed_ranges_apart_high

slice_cut_lem_inside : slice_cmp_coordinate (slice_of (pos 0) (pos 100)) (pos 80) ≡ pos 0
unfolding slice_cmp_coordinate remap_last_coordinate
slice_cut_lem_inside = refl

slice_cut_lem_outside : slice_cmp_coordinate (slice_of (pos 50) (pos 70)) (pos 80) ≢ pos 0
unfolding slice_cmp_coordinate remap_last_coordinate
slice_cut_lem_outside = ground arith

slice_cut_lem_example :
    let (s, cut) = slice_cut (slice_of (pos 0) (pos 100)) (slice_of (pos 50) (pos 70)) (pos 80) in
    (pos 0 ≤ℤ s.range_start)
    × (s.range_end ≤ℤ pos 100)
    × (slice_cmp_coordinate s (pos 80) ≡ pos 0)
    × (slices_collide s (slice_of (pos 50) (pos 70)) ≡ false)
    × (cut ≡ slices_collide (slice_of (pos 0) (pos 100)) (slice_of (pos 50) (pos 70)))
slice_cut_lem_example =
    slice_cut_lem (slice_of (pos 0) (pos 100)) (slice_of (pos 50) (pos 70)) (pos 80) (omega arith)
      slice_cut_lem_inside slice_cut_lem_outside

slice_cmp_zero_iff_example :
    (slice_cmp (slice_of (pos 0) (pos 10)) (slice_of (pos 0) (pos 20)) ≡ pos 0)
    ↔ (slices_equal (slice_of (pos 0) (pos 10)) (slice_of (pos 0) (pos 20)) ≡ true)
slice_cmp_zero_iff_example =
    slice_cmp_zero_iff (slice_of (pos 0) (pos 10)) (slice_of (pos 0) (pos 20))

slice_cmp_lex_example :
    let a = slice_of (pos 0) (pos 10) in
    let b = slice_of (pos 0) (pos 20) in
    ((slice_cmp a b <ℤ pos 0) ↔ Precedes a b)
    × ((pos 0 <ℤ slice_cmp a b) ↔ Precedes b a)
    × ((slice_cmp a b ≡ pos 0) ↔ SameRange a b)
slice_cmp_lex_example = slice_cmp_lex (slice_of (pos 0) (pos 10)) (slice_of (pos 0) (pos 20))
