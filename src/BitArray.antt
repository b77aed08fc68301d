-- ===== src/BitArray.antt =====
-- The bit array of src/adts/bit_array_impl.h: bits are packed into buckets of 64, from the lowest
-- bit up. The vector of buckets (src/adts/vec.h) is a list, the errors of its growth are those of
-- Vec, which the compressor of Simple8b checks. A read past the last bucket, which the code excludes by
-- assertion, gives 0.
pub mod Value
pub mod Append
pub mod Read
pub mod ReadBack
pub mod RoundTrip
mod Tests
use timescaledb.Base.{
  ℕ, zero, suc, ◌+◌, ◌-◌, ◌*◌, ◌/◌, ◌%◌, ◌^◌, List, [], ◌∷◌, ◌++◌, if◌then◌else◌, leb, ltb, ◌==◌,
  length, get_or, take,
}
use timescaledb.Base.Bits.{bit_and, bit_or, shl64, shr}

pub record BitArray : Type 0 where
  pub buckets : List ℕ
  pub bits_used_in_last_bucket : ℕ

pub record BitArrayIterator : Type 0 where
  pub array : BitArray
  pub bits_used_in_current_bucket : ℕ
  pub current_bucket : ℕ

unfoldable pub init : BitArray
init = record { buckets = []; bits_used_in_last_bucket = 0 }

unfoldable pub low_bits_mask : ℕ → ℕ
low_bits_mask bits_used = if bits_used == 64 then 2 ^ 64 - 1 else shl64 1 bits_used - 1

unfoldable pub append_bucket : BitArray → ℕ → ℕ → BitArray
append_bucket array bits_used bucket = record {
  buckets = array.buckets ++ (bucket ∷ []);
  bits_used_in_last_bucket = bits_used;
}

-- `*uint64_vec_last(...) |= bits`.
unfoldable pub or_last : ℕ → List ℕ → List ℕ
or_last bits [] = []
or_last bits (b ∷ []) = bit_or b bits ∷ []
or_last bits (b ∷ c ∷ bs) = b ∷ or_last bits (c ∷ bs)

-- The part of `append` that adds the masked bits to an array with a last bucket.
unfoldable pub append_masked : BitArray → ℕ → ℕ → BitArray
unfolding append_bucket low_bits_mask
append_masked array num_bits bits =
    let used = array.bits_used_in_last_bucket in
    let remaining = 64 - used in
    let num_new = num_bits - remaining in
    if leb num_bits remaining
    then record {
      buckets = or_last (shl64 bits used) array.buckets;
      bits_used_in_last_bucket = used + num_bits;
    }
    else (if ltb 0 remaining
        then append_bucket
            (record array {
              buckets = or_last (shl64 (bit_and bits (low_bits_mask remaining)) used) array.buckets;
            })
            num_new (bit_and (shr bits remaining) (low_bits_mask num_new))
        else append_bucket array num_new (bit_and bits (low_bits_mask num_new)))

unfoldable pub append : BitArray → ℕ → ℕ → BitArray
append array num_bits bits =
    if num_bits == 0
    then array
    else append_masked (if length array.buckets == 0 then append_bucket array 0 0 else array)
        num_bits (bit_and bits (low_bits_mask num_bits))

unfoldable pub iterator_init : BitArray → BitArrayIterator
iterator_init array = record { array = array; bits_used_in_current_bucket = 0; current_bucket = 0 }

-- The value, and the iterator after it.
unfoldable pub iter_next : BitArrayIterator → ℕ → ℕ × BitArrayIterator
unfolding low_bits_mask
iter_next iter num_bits =
    let buckets = iter.array.buckets in
    let used = iter.bits_used_in_current_bucket in
    let remaining = 64 - used in
    let num_next = num_bits - remaining in
    let low = shr (get_or buckets iter.current_bucket 0) used in
    if num_bits == 0
    then (0, iter)
    else (if leb num_bits remaining
        then (
          bit_and low (low_bits_mask num_bits),
          record iter { bits_used_in_current_bucket = used + num_bits },
        )
        else (
          bit_or (if ltb 0 remaining then low else 0) (
              shl64 (bit_and (get_or buckets (iter.current_bucket + 1) 0) (low_bits_mask num_next))
                remaining),
          record iter {
            current_bucket = iter.current_bucket + 1;
            bits_used_in_current_bucket = num_next;
          },
        ))

-- An iterator at the end of an array. The number of its last bucket wraps where it has none.
unfoldable pub iterator_init_rev : BitArray → BitArrayIterator
iterator_init_rev array = record {
  array = array;
  bits_used_in_current_bucket = array.bits_used_in_last_bucket;
  current_bucket = if length array.buckets == 0 then 2 ^ 32 - 1 else length array.buckets - 1;
}

-- The value before the iterator, and the iterator before it.
unfoldable pub iter_next_rev : BitArrayIterator → ℕ → ℕ × BitArrayIterator
unfolding low_bits_mask
iter_next_rev iter num_bits =
    let buckets = iter.array.buckets in
    let used = iter.bits_used_in_current_bucket in
    let num_previous = num_bits - used in
    let current = get_or buckets iter.current_bucket 0 in
    if num_bits == 0
    then (0, iter)
    else (if leb num_bits used
        then (
          bit_and (shr current (used - num_bits)) (low_bits_mask num_bits),
          record iter { bits_used_in_current_bucket = used - num_bits },
        )
        else (
          bit_or
              (if ltb 0 used then shl64 (bit_and current (low_bits_mask used)) num_previous else 0)
              (bit_and (shr (get_or buckets (iter.current_bucket - 1) 0) (64 - num_previous))
                (low_bits_mask num_previous)),
          record iter {
            current_bucket = iter.current_bucket - 1;
            bits_used_in_current_bucket = 64 - num_previous;
          },
        ))

-- An array over the first `num_bits` bits of `words`.
unfoldable pub wrap : List ℕ → ℕ → BitArray
wrap words num_bits =
    let used = num_bits % 64 in
    let num_buckets = num_bits / 64 in
    let last = if used == 0 then (if ltb 0 num_buckets then 64 else used) else used in
    let count = if used == 0 then num_buckets else num_buckets + 1 in
    record { buckets = take count words; bits_used_in_last_bucket = last }
