-- ===== src/Dimension/Cut.antt =====
-- `ts_dimension_slice_cut` of src/dimension_slice.c.
use timescaledb.Base.{◌≡◌, ◌≢◌, ◌⊎◌, inl, inr, ◌↔◌, true, false, arith}
use timescaledb.Base.Int.{ℤ, pos, negsuc, ◌≤ℤ◌, ◌<ℤ◌}
use timescaledb.Dimension.{
  DimensionSlice, slice_cmp_coordinate, slice_cut, slices_collide, remap_last_coordinate,
}

-- The point lies in the slice, before it or after it.
pub slice_cmp_coordinate_cases :
    (s : DimensionSlice) (coord : ℤ)
    → let c = remap_last_coordinate coord in
      ((slice_cmp_coordinate s coord ≡ pos 0) × (s.range_start ≤ℤ c) × (c <ℤ s.range_end))
      ⊎ (((slice_cmp_coordinate s coord ≡ negsuc 0) × (c <ℤ s.range_start))
          ⊎ ((slice_cmp_coordinate s coord ≡ pos 1) × (s.range_end ≤ℤ c)))
unfolding slice_cmp_coordinate
slice_cmp_coordinate_cases s coord = ground arith

pub slice_cmp_coordinate_inside :
    (s : DimensionSlice) (coord : ℤ)
    → (slice_cmp_coordinate s coord ≡ pos 0) ↔ (
        (s.range_start ≤ℤ remap_last_coordinate coord)
        × (remap_last_coordinate coord <ℤ s.range_end))
unfolding slice_cmp_coordinate
slice_cmp_coordinate_inside s coord = ground arith

slice_cmp_coordinate_outside :
    (s : DimensionSlice) (coord : ℤ)
    → slice_cmp_coordinate s coord ≢ pos 0
    → (remap_last_coordinate coord <ℤ s.range_start) ⊎ (s.range_end ≤ℤ remap_last_coordinate coord)
unfolding slice_cmp_coordinate
slice_cmp_coordinate_outside s coord h = ground arith

-- The three outcomes of a cut.
slice_cut_cases :
    (t o : DimensionSlice) (coord : ℤ)
    → let c = remap_last_coordinate coord in
      ((slice_cut t o coord ≡ (record t { range_start = o.range_end }, true))
        × (o.range_end ≤ℤ c)
        × (t.range_start <ℤ o.range_end))
      ⊎ (((slice_cut t o coord ≡ (record t { range_end = o.range_start }, true))
            × (c <ℤ o.range_start)
            × (o.range_start <ℤ t.range_end))
          ⊎ ((slice_cut t o coord ≡ (t, false))
              × ((c <ℤ o.range_end) ⊎ (o.range_end ≤ℤ t.range_start))
              × ((o.range_start ≤ℤ c) ⊎ (t.range_end ≤ℤ o.range_start))))
unfolding slice_cut
slice_cut_cases t o coord = ground arith

-- Where the slice holds the point and the other slice does not, the cut slice lies within the
-- slice, still holds the point and no longer overlaps the other; it was cut exactly when the two
-- overlapped.
pub slice_cut_lem :
    (to_cut other : DimensionSlice) (coord : ℤ)
    → other.range_start ≤ℤ other.range_end
    → slice_cmp_coordinate to_cut coord ≡ pos 0
    → slice_cmp_coordinate other coord ≢ pos 0
    → let (s, cut) = slice_cut to_cut other coord in
      (to_cut.range_start ≤ℤ s.range_start)
      × (s.range_end ≤ℤ to_cut.range_end)
      × (slice_cmp_coordinate s coord ≡ pos 0)
      × (slices_collide s other ≡ false)
      × (cut ≡ slices_collide to_cut other)
unfolding slices_collide
slice_cut_lem to_cut other coord h inside outside =
    let within = (slice_cmp_coordinate_inside to_cut coord).0 inside in
    let beyond = slice_cmp_coordinate_outside other coord outside in
    elim (slice_cut_cases to_cut other coord) [
      | inl (e, p, q) ↦ rw e (
        omega arith,
        omega arith,
        (slice_cmp_coordinate_inside _ coord).1 (omega arith, omega arith),
        ground arith,
        ground arith,
      )
      | inr (inl (e, p, q)) ↦ rw e (
        omega arith,
        omega arith,
        (slice_cmp_coordinate_inside _ coord).1 (omega arith, omega arith),
        ground arith,
        ground arith,
      )
      | inr (inr (e, p, q)) ↦ rw e (omega arith, omega arith, inside, ground arith, ground arith)
    ]
