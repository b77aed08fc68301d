-- ===== src/Dimension/Order.antt =====
-- `ts_dimension_slice_cmp` of src/dimension_slice.c as an order.
use timescaledb.Base.{◌≡◌, ◌↔◌, ◌⊎◌, true, arith}
use timescaledb.Base.Int.{pos, ◌-ℤ◌, ◌<ℤ◌}
use timescaledb.Dimension.{DimensionSlice, slice_cmp, slices_equal}

-- One range starts before the other, or with it and ends before it.
abbrev pub Precedes : DimensionSlice → DimensionSlice → Type 0
Precedes a b =
    (a.range_start <ℤ b.range_start)
    ⊎ ((a.range_start ≡ b.range_start) × (a.range_end <ℤ b.range_end))

abbrev pub SameRange : DimensionSlice → DimensionSlice → Type 0
SameRange a b = (a.range_start ≡ b.range_start) × (a.range_end ≡ b.range_end)

-- Swapping the slices negates the comparison.
pub slice_cmp_swap : (a b : DimensionSlice) → slice_cmp b a ≡ pos 0 -ℤ slice_cmp a b
unfolding slice_cmp ◌-ℤ◌
slice_cmp_swap a b = ground arith

-- The comparison is zero exactly for slices with equal ranges.
pub slice_cmp_zero_iff :
    (a b : DimensionSlice) → (slice_cmp a b ≡ pos 0) ↔ (slices_equal a b ≡ true)
unfolding slice_cmp slices_equal ◌-ℤ◌
slice_cmp_zero_iff a b = ground arith

-- The comparison of two slices is less than, equal to or above zero as the pairs of their start and end
-- are in lexicographic order.
pub slice_cmp_lex :
    (a b : DimensionSlice)
    → ((slice_cmp a b <ℤ pos 0) ↔ Precedes a b)
      × ((pos 0 <ℤ slice_cmp a b) ↔ Precedes b a)
      × ((slice_cmp a b ≡ pos 0) ↔ SameRange a b)
unfolding slice_cmp ◌-ℤ◌
slice_cmp_lex a b = (ground arith, ground arith, ground arith)
