-- ===== src/Dimension.antt =====
-- Dimension slices and the default ranges of new slices: src/dimension_slice.h,
-- src/dimension_slice.c and the range calculation of src/dimension.c.
-- A slice is the catalog row `FormData_dimension_slice`; an int64 is an integer between
-- `min_value` and `max_value`.
pub mod Div
pub mod Ranges
pub mod Partition
pub mod Cut
pub mod Order
pub mod Tests
use timescaledb.Base.{
  ℕ, ◌+◌, ◌-◌, ◌*◌, ◌/◌, ◌^◌, ◌≡◌, Bool, true, false, ◌&&◌, Option, none, some, if◌then◌else◌,
  arith, ◌==◌,
}
use timescaledb.Base.Int.{ℤ, pos, negsuc, ◌+ℤ◌, ◌-ℤ◌, ◌*ℤ◌, ◌≤ℤ◌, ltb_ℤ, leb_ℤ, eqb_ℤ, tdiv}

-- DIMENSION_SLICE_MAXVALUE, DIMENSION_SLICE_MINVALUE and DIMENSION_SLICE_CLOSED_MAX.
abbrev pub max_value : ℤ
max_value = pos (2 ^ 63 - 1)

abbrev pub min_value : ℤ
min_value = negsuc (2 ^ 63 - 1)

abbrev pub closed_max : ℕ
closed_max = 2 ^ 31 - 1

abbrev pub IsInt64 : ℤ → Type 0
IsInt64 v = (min_value ≤ℤ v) × (v ≤ℤ max_value)

pub record DimensionSlice : Type 0 where
  pub id : ℕ
  pub dimension_id : ℕ
  pub range_start : ℤ
  pub range_end : ℤ

-- REMAP_LAST_COORDINATE.
unfoldable pub remap_last_coordinate : ℤ → ℤ
remap_last_coordinate coord = if eqb_ℤ coord max_value then pos (2 ^ 63 - 2) else coord

unfoldable pub create : ℕ → ℤ → ℤ → DimensionSlice
create dimension_id range_start range_end = record {
  id = 0;
  dimension_id = dimension_id;
  range_start = range_start;
  range_end = range_end;
}

-- VALUE_CMP, a difference of two C truth values.
abbrev int_of_bool : Bool → ℤ
int_of_bool true = pos 1
int_of_bool false = pos 0

unfoldable pub value_cmp : ℤ → ℤ → ℤ
unfolding ◌-ℤ◌
value_cmp a b = int_of_bool (ltb_ℤ b a) -ℤ int_of_bool (ltb_ℤ a b)

unfoldable pub slice_cmp : DimensionSlice → DimensionSlice → ℤ
unfolding value_cmp
slice_cmp left right =
    let res = value_cmp left.range_start right.range_start in
    if eqb_ℤ res (pos 0) then value_cmp left.range_end right.range_end else res

unfoldable pub slice_cmp_coordinate : DimensionSlice → ℤ → ℤ
slice_cmp_coordinate slice coord =
    let c = remap_last_coordinate coord in
    if ltb_ℤ c slice.range_start
    then negsuc 0
    else (if leb_ℤ slice.range_end c then pos 1 else pos 0)

unfoldable pub slices_collide : DimensionSlice → DimensionSlice → Bool
slices_collide slice1 slice2 =
    ltb_ℤ slice1.range_start slice2.range_end && ltb_ℤ slice2.range_start slice1.range_end

unfoldable pub slices_equal : DimensionSlice → DimensionSlice → Bool
slices_equal slice1 slice2 =
    eqb_ℤ slice1.range_start slice2.range_start && eqb_ℤ slice1.range_end slice2.range_end

-- The slice after the cut, and whether it was cut.
unfoldable pub slice_cut : DimensionSlice → DimensionSlice → ℤ → DimensionSlice × Bool
slice_cut to_cut other coord =
    let c = remap_last_coordinate coord in
    if leb_ℤ other.range_end c && ltb_ℤ to_cut.range_start other.range_end
    then (record to_cut { range_start = other.range_end }, true)
    else (if ltb_ℤ c other.range_start && ltb_ℤ other.range_start to_cut.range_end
        then (record to_cut { range_end = other.range_start }, true)
        else (to_cut, false))

-- Dimensions: an open one (time) has an interval length, a closed one (space) a number of slices.
-- DIMENSION_TYPE_ANY, which only look-ups ask for, is the type of no dimension.
pub data DimensionType : Type 0 where
  open_dimension : (interval_length : ℕ) → DimensionType
  closed_dimension : (num_slices : ℕ) → DimensionType

pub record Dimension : Type 0 where
  pub id : ℕ
  pub type : DimensionType

unfoldable pub open_range_default : ℕ → ℕ → ℤ → DimensionSlice
unfolding create
open_range_default id interval_length value =
    if ltb_ℤ value (pos 0)
    then (let range_end = tdiv (value +ℤ pos 1) interval_length *ℤ pos interval_length in
        create id
          (if ltb_ℤ (pos 0 -ℤ pos interval_length) (min_value -ℤ range_end)
            then min_value
            else range_end -ℤ pos interval_length)
          range_end)
    else (let range_start = tdiv value interval_length *ℤ pos interval_length in
        create id range_start (
          if ltb_ℤ (max_value -ℤ range_start) (pos interval_length)
          then max_value
          else range_start +ℤ pos interval_length))

-- `none` is the error for a negative value.
unfoldable pub closed_range_default : ℕ → ℕ → ℤ → Option DimensionSlice
unfolding create
closed_range_default id num_slices value =
    let interval = closed_max / num_slices in
    let last_start = pos interval *ℤ pos (num_slices - 1) in
    if ltb_ℤ value (pos 0)
    then none
    else (let last = leb_ℤ last_start value in
        let range_start = if last then last_start else tdiv value interval *ℤ pos interval in
        let range_end = if last then max_value else range_start +ℤ pos interval in
        some (create id (if eqb_ℤ (pos 0) range_start then min_value else range_start) range_end))

unfoldable pub calculate_default_slice : Dimension → ℤ → Option DimensionSlice
unfolding open_range_default closed_range_default
calculate_default_slice dim value = elim dim.type [
  | open_dimension interval_length ↦ some (open_range_default dim.id interval_length value)
  | closed_dimension num_slices ↦ closed_range_default dim.id num_slices value
]
