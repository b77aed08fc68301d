-- ===== src/DeltaDelta/Tests.antt =====
-- A compressor with values and a null.
use timescaledb.Base.{
  ℕ, ◌≡◌, ◌>>=◌, reverse, refl, Option, none, some, List, [], ◌∷◌, arith, ◌^◌, ◌-◌,
}
use timescaledb.Base.Streams.{collect}
use timescaledb.Vec.{capacity, reserve}
use timescaledb.BitArray.{append, append_bucket, append_masked, init, low_bits_mask, or_last}
use timescaledb.Simple8b.{
  selector_is_rle, bit_length, num_elements, bits_for_value, block_append_element, block_append_rle,
  block_create_rle, block_get_element, count_repeats, halve, rledata_repeatcount, rledata_value,
  selector_get_bitmask,
}
use timescaledb.Simple8b.Compressor.{
  compressor_append, compressor_init, flush, flush_pcd, append_pcd, pcd_elements, pcd_num_elements,
  pcd_get_element, append_rounds, next_block, pack, pack_block, push_block, allocated,
  allocate_form, raise, run_length, select, compressor_finish,
}
use timescaledb.Simple8b.Iterator.{num_selector_slots, serialized_slot_size, serialized_total_size}
use timescaledb.DeltaDelta.Streams.{append_all}
use timescaledb.DeltaDelta.{
  append_value, append_null, compressor_alloc, finish, from_parts, DeltaDeltaCompressed,
  init_forward, zig_zag_encode, zig_zag_decode,
}
use timescaledb.DeltaDelta.Reverse.{init_reverse}
use timescaledb.DeltaDelta.Backwards.{previous_result, read_rev-finish}
use timescaledb.DeltaDelta.ZigZag.{zig_zag_decode-zig_zag_encode}
use timescaledb.DeltaDelta.RoundTrip.{
  compress, next_result, read-finish, FormWhereValue, compress_ends,
}

abbrev values : List (Option ℕ)
values = some 7 ∷ none ∷ some (2 ^ 64 - 3) ∷ []

abbrev compressed : DeltaDeltaCompressed
compressed = record {
  last_value = 2 ^ 64 - 3;
  last_delta = 2 ^ 64 - 10;
  delta_deltas = record { num_elements = 2; num_blocks = 1; slots = 6 ∷ 2126 ∷ [] };
  nulls = some (record { num_elements = 3; num_blocks = 1; slots = 1 ∷ 2 ∷ [] });
}

compresses : compress values ≡ some (some compressed)
unfolding compress append_all compressor_append compressor_init flush flush_pcd append_pcd
    pcd_elements pcd_num_elements pcd_get_element append_rounds next_block pack pack_block
    push_block allocated allocate_form capacity reserve raise run_length select compressor_finish
    selector_is_rle bit_length num_elements bits_for_value block_append_element block_append_rle
    block_create_rle block_get_element count_repeats halve rledata_repeatcount rledata_value
    selector_get_bitmask append append_bucket append_masked init low_bits_mask or_last
    num_selector_slots serialized_slot_size serialized_total_size append_value append_null
    compressor_alloc finish from_parts zig_zag_encode
compresses = refl

read-finish_example : collect next_result 4 (init_forward compressed) ≡ some values
read-finish_example =
    read-finish values compressed 4 (omega arith, (omega arith, tt)) (omega arith) compresses
      (omega arith)

compress_ends_example :
    (o : Option DeltaDeltaCompressed) × (compress (none ∷ some 7 ∷ []) ≡ some o)
    × FormWhereValue o (none ∷ some 7 ∷ [])
compress_ends_example = compress_ends (none ∷ some 7 ∷ []) (omega arith, tt) (omega arith)

zig_zag_decode-zig_zag_encode_example : zig_zag_decode (zig_zag_encode (2 ^ 64 - 1)) ≡ 2 ^ 64 - 1
zig_zag_decode-zig_zag_encode_example = zig_zag_decode-zig_zag_encode (2 ^ 64 - 1) (omega arith)

read_rev-finish_example :
    (init_reverse compressed >>= collect previous_result 4) ≡ some (reverse values)
read_rev-finish_example =
    read_rev-finish values compressed 4 (omega arith, (omega arith, tt)) (omega arith) compresses
      (omega arith)
