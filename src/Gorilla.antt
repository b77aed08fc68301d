-- ===== src/Gorilla.antt =====
-- The gorilla compression of floats and integers, tsl/src/compression/gorilla.c: a compressor, what it
-- finishes to, and the forward iterator. A value is a word of 64 bits; `none` is an error. The parts of
-- the compressed form stand for the bytes they are laid out in.
pub mod Positions
pub mod Zeros
pub mod Append
pub mod Read
pub mod Steps
pub mod Streams
pub mod Chain
pub mod Forward
pub mod Flags
pub mod Size
pub mod RoundTrip
pub mod Tests
use timescaledb.Base.{
  ℕ, zero, suc, ◌+◌, ◌-◌, ◌*◌, ◌%◌, ◌^◌, Bool, true, false, ◌&&◌, not, Option, none, some, ◌>>=◌,
  List, length, if◌then◌else◌, leb, ltb, ◌==◌,
}
use timescaledb.Base.Bits.{bit_xor, shl64, shr}
use timescaledb.BitArray
use timescaledb.BitArray.{BitArray, BitArrayIterator, iterator_init, iter_next}
use timescaledb.Simple8b.Compressor.{
  Simple8bRleCompressor, Simple8bRleSerialized, compressor_init, compressor_append,
  compressor_finish,
}
use timescaledb.Simple8b.Iterator
use timescaledb.Simple8b.Iterator.{
  Simple8bRleDecompressionIterator, zero_iterator, serialized_total_size,
}
use timescaledb.Vec.{max_alloc_size}
use timescaledb.DeltaDelta.{DecompressResult, is_done, is_null, val}
use timescaledb.Gorilla.Positions.{leftmost_one_pos64, rightmost_one_pos64}

pub record GorillaCompressor : Type 0 where
  pub tag0s : Simple8bRleCompressor
  pub tag1s : Simple8bRleCompressor
  pub leading_zeros : BitArray
  pub bits_used_per_xor : Simple8bRleCompressor
  pub xors : BitArray
  pub nulls : Simple8bRleCompressor
  pub prev_val : ℕ
  pub prev_leading_zeroes : ℕ
  pub prev_trailing_zeros : ℕ
  pub has_nulls : Bool

-- The nulls are stored only where there are any.
pub record CompressedGorillaData : Type 0 where
  pub last_value : ℕ
  pub tag0s : Simple8bRleSerialized
  pub tag1s : Simple8bRleSerialized
  pub leading_zeros : BitArray
  pub num_bits_used_per_xor : Simple8bRleSerialized
  pub xors : BitArray
  pub nulls : Option Simple8bRleSerialized

pub record GorillaDecompressionIterator : Type 0 where
  pub tag0s : Simple8bRleDecompressionIterator
  pub tag1s : Simple8bRleDecompressionIterator
  pub leading_zeros : BitArrayIterator
  pub num_bits_used : Simple8bRleDecompressionIterator
  pub xors : BitArrayIterator
  pub nulls : Simple8bRleDecompressionIterator
  pub prev_val : ℕ
  pub prev_leading_zeroes : ℕ
  pub prev_xor_bits_used : ℕ
  pub has_nulls : Bool

unfoldable pub compressor_alloc : GorillaCompressor
compressor_alloc = record {
  tag0s = compressor_init;
  tag1s = compressor_init;
  leading_zeros = BitArray.init;
  bits_used_per_xor = compressor_init;
  xors = BitArray.init;
  nulls = compressor_init;
  prev_val = 0;
  prev_leading_zeroes = 0;
  prev_trailing_zeros = 0;
  has_nulls = false;
}

unfoldable pub compressor_is_empty : Simple8bRleCompressor → Bool
compressor_is_empty compressor = compressor.num_elements == 0

unfoldable pub append_null : GorillaCompressor → Option GorillaCompressor
append_null c =
    compressor_append c.nulls 1 >>= (λ nulls. some (record c { nulls = nulls; has_nulls = true }))

unfoldable pub leading_of : ℕ → ℕ
leading_of xor = if xor == 0 then 63 else 63 - leftmost_one_pos64 xor

unfoldable pub trailing_of : ℕ → ℕ
trailing_of xor = if xor == 0 then 1 else rightmost_one_pos64 xor

-- Whether the sizes of the last xor serve for one with these zeros.
unfoldable pub reuses : GorillaCompressor → Bool → ℕ → ℕ → Bool
reuses c has_values leading trailing =
    has_values
    && leb c.prev_leading_zeroes leading
    && leb c.prev_trailing_zeros trailing
    && leb (leading - c.prev_leading_zeroes + (trailing - c.prev_trailing_zeros)) 12

-- The sizes of a xor with these zeros are stored.
unfoldable pub store_sizes : GorillaCompressor → ℕ → ℕ → Option GorillaCompressor
store_sizes c leading trailing =
    compressor_append c.bits_used_per_xor (64 - (leading + trailing)) >>= (λ bits_used.
      some (record c {
        prev_leading_zeroes = leading;
        prev_trailing_zeros = trailing;
        leading_zeros = BitArray.append c.leading_zeros 6 leading;
        bits_used_per_xor = bits_used;
      }))

unfoldable pub store_xor : GorillaCompressor → ℕ → GorillaCompressor
store_xor c xor = record c {
  xors =
      BitArray.append c.xors (64 - (c.prev_leading_zeroes + c.prev_trailing_zeros))
        (shr xor c.prev_trailing_zeros);
}

-- A value that is stored with its xor.
unfoldable pub append_xor : GorillaCompressor → Bool → ℕ → Option GorillaCompressor
append_xor c has_values xor =
    let leading = leading_of xor in
    let trailing = trailing_of xor in
    let reuse_bitsizes = reuses c has_values leading trailing in
    compressor_append c.tag0s 1 >>= (λ tag0s.
      compressor_append c.tag1s (if reuse_bitsizes then 0 else 1) >>= (λ tag1s.
        let tagged = record c { tag0s = tag0s; tag1s = tag1s } in
        (if reuse_bitsizes then some tagged else store_sizes tagged leading trailing)
        >>= (λ sized. some (store_xor sized xor))))

unfoldable pub append_value : GorillaCompressor → ℕ → Option GorillaCompressor
append_value c value =
    let xor = bit_xor c.prev_val value in
    let has_values = not (compressor_is_empty c.bits_used_per_xor) in
    compressor_append c.nulls 0 >>= (λ nulls.
      let flagged = record c { nulls = nulls } in
      (if has_values && xor == 0
        then (compressor_append flagged.tag0s 0
            >>= (λ tag0s. some (record flagged { tag0s = tag0s })))
        else append_xor flagged has_values xor)
      >>= (λ stored. some (record stored { prev_val = value })))

-- `none` is the error of a form that is too large.
unfoldable pub serialize : CompressedGorillaData → Option CompressedGorillaData
serialize input =
    let nulls_size = elim input.nulls as (λ t. ℕ) [
      | none ↦ 0
      | some ns ↦ serialized_total_size ns
    ] in
    let compressed_size =
      24
      + serialized_total_size input.tag0s
      + serialized_total_size input.tag1s
      + 8 * length input.leading_zeros.buckets
      + serialized_total_size input.num_bits_used_per_xor
      + 8 * length input.xors.buckets
      + nulls_size in
    if leb compressed_size max_alloc_size then some input else none

-- The form of the finished streams: NULL without a first tag; the other streams of values are not NULL
-- then, as the code asserts.
abbrev pub finish_of :
    GorillaCompressor
    → Option Simple8bRleSerialized
    → Option Simple8bRleSerialized
    → Option Simple8bRleSerialized
    → Option Simple8bRleSerialized
    → Option (Option CompressedGorillaData)
finish_of c none tag1s bits_used nulls = some none
finish_of c (some tag0s) none bits_used nulls = none
finish_of c (some tag0s) (some tag1s) none nulls = none
finish_of c (some tag0s) (some tag1s) (some bits_used) nulls =
    serialize (record {
      last_value = c.prev_val;
      tag0s = tag0s;
      tag1s = tag1s;
      leading_zeros = c.leading_zeros;
      num_bits_used_per_xor = bits_used;
      xors = c.xors;
      nulls = if c.has_nulls then nulls else none;
    })
    >>= (λ compressed. some (some compressed))

unfoldable pub finish : GorillaCompressor → Option (Option CompressedGorillaData)
finish c = compressor_finish c.tag0s >>= (λ tag0s. compressor_finish c.tag1s >>= (λ tag1s.
    compressor_finish c.bits_used_per_xor >>= (λ bits_used.
      compressor_finish c.nulls >>= (λ nulls. finish_of c tag0s tag1s bits_used nulls))))

unfoldable pub init_forward : CompressedGorillaData → GorillaDecompressionIterator
init_forward z = record {
  tag0s = Iterator.init_forward z.tag0s;
  tag1s = Iterator.init_forward z.tag1s;
  leading_zeros = iterator_init z.leading_zeros;
  num_bits_used = Iterator.init_forward z.num_bits_used_per_xor;
  xors = iterator_init z.xors;
  nulls = elim z.nulls [ none ↦ zero_iterator | some ns ↦ Iterator.init_forward ns ];
  prev_val = 0;
  prev_leading_zeroes = 0;
  prev_xor_bits_used = 0;
  has_nulls = elim z.nulls [ none ↦ false | some ns ↦ true ];
}

-- The value after the next xor of the sizes in effect.
unfoldable pub next_xor :
    GorillaDecompressionIterator → DecompressResult × GorillaDecompressionIterator
next_xor iter =
    let (bits, rest) = iter_next iter.xors iter.prev_xor_bits_used in
    let used = iter.prev_leading_zeroes + iter.prev_xor_bits_used in
    let xor = if ltb used 64 then shl64 bits (64 - used) else bits in
    let value = bit_xor iter.prev_val xor in
    (val value, record iter { xors = rest; prev_val = value })

-- New sizes. `none` where a stream ends too soon, which the code asserts not to.
unfoldable pub new_sizes : GorillaDecompressionIterator → Option GorillaDecompressionIterator
new_sizes iter =
    let (leading, leading_zeros) = iter_next iter.leading_zeros 6 in
    Iterator.try_next_forward iter.num_bits_used >>= (λ (size, num_bits_used). size >>= (λ bits.
      some (record iter {
        leading_zeros = leading_zeros;
        num_bits_used = num_bits_used;
        prev_leading_zeroes = leading;
        prev_xor_bits_used = bits % 2 ^ 8;
      })))

-- What follows the second tag.
abbrev pub after_tag1 :
    GorillaDecompressionIterator
    → Option ℕ × Simple8bRleDecompressionIterator
    → Option GorillaDecompressionIterator
after_tag1 iter (none, rest) = none
after_tag1 iter (some flag, rest) =
    let tagged = record iter { tag1s = rest } in if flag == 0 then some tagged else new_sizes tagged

unfoldable pub next_sizes : GorillaDecompressionIterator → Option GorillaDecompressionIterator
next_sizes iter = Iterator.try_next_forward iter.tag1s >>= after_tag1 iter

-- What follows the first tag.
abbrev pub after_tag0 :
    GorillaDecompressionIterator
    → Option ℕ × Simple8bRleDecompressionIterator
    → Option (DecompressResult × GorillaDecompressionIterator)
after_tag0 iter (none, rest) = some (is_done, record iter { tag0s = rest })
after_tag0 iter (some flag, rest) =
    let tagged = record iter { tag0s = rest } in
    if flag == 0
    then some (val tagged.prev_val, tagged)
    else (next_sizes tagged >>= (λ sized. some (next_xor sized)))

unfoldable pub next_value :
    GorillaDecompressionIterator → Option (DecompressResult × GorillaDecompressionIterator)
next_value iter = Iterator.try_next_forward iter.tag0s >>= after_tag0 iter

abbrev pub after_flag :
    GorillaDecompressionIterator
    → Option ℕ × Simple8bRleDecompressionIterator
    → Option (DecompressResult × GorillaDecompressionIterator)
after_flag iter (none, rest) = some (is_done, record iter { nulls = rest })
after_flag iter (some flag, rest) =
    let after = record iter { nulls = rest } in
    if flag == 0 then next_value after else some (is_null, after)

unfoldable pub try_next_forward :
    GorillaDecompressionIterator → Option (DecompressResult × GorillaDecompressionIterator)
try_next_forward iter =
    if iter.has_nulls
    then (Iterator.try_next_forward iter.nulls >>= after_flag iter)
    else next_value iter
