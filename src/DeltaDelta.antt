-- ===== src/DeltaDelta.antt =====
-- The delta-delta compression of integers, tsl/src/compression/deltadelta.c: a compressor, what it
-- finishes to, and its iterators. A value is a word of 64 bits, in two's complement. The two streams
-- of the compressor are those of tsl/src/compression/simple8b_rle.h; `none` is an error.
pub mod ZigZag
pub mod Streams
pub mod Reverse
pub mod RoundTrip
pub mod Backwards
mod Tests
use timescaledb.Base.{
  ℕ, zero, suc, ◌+◌, ◌-◌, ◌%◌, ◌/◌, ◌^◌, Bool, true, false, Option, none, some, List, [], ◌∷◌, ◌++◌,
  if◌then◌else◌, leb, ◌==◌, ◌>>=◌, ◌*◌,
}
use timescaledb.Vec.{max_alloc_size}
use timescaledb.Simple8b.Compressor.{
  Simple8bRleCompressor, Simple8bRleSerialized, compressor_init, compressor_append,
  compressor_finish,
}
use timescaledb.Simple8b.Iterator
use timescaledb.Simple8b.Iterator.{
  Simple8bRleDecompressionIterator, zero_iterator, serialized_slot_size, serialized_total_size,
}
use timescaledb.Base.Bits.{bit_xor, shl64, shr}

unfoldable pub zig_zag_encode : ℕ → ℕ
zig_zag_encode value = bit_xor (shl64 value 1) (if leb (2 ^ 63) value then 2 ^ 64 - 1 else 0)

unfoldable pub zig_zag_decode : ℕ → ℕ
zig_zag_decode value = bit_xor (shr value 1) ((2 ^ 64 - value % 2) % 2 ^ 64)

pub record DeltaDeltaCompressor : Type 0 where
  pub prev_val : ℕ
  pub prev_delta : ℕ
  pub delta_delta : Simple8bRleCompressor
  pub nulls : Simple8bRleCompressor
  pub has_nulls : Bool

-- The nulls are stored only where there are any.
pub record DeltaDeltaCompressed : Type 0 where
  pub last_value : ℕ
  pub last_delta : ℕ
  pub delta_deltas : Simple8bRleSerialized
  pub nulls : Option Simple8bRleSerialized

pub record DeltaDeltaDecompressionIterator : Type 0 where
  pub prev_val : ℕ
  pub prev_delta : ℕ
  pub delta_deltas : Simple8bRleDecompressionIterator
  pub nulls : Simple8bRleDecompressionIterator
  pub has_nulls : Bool

pub data DecompressResult : Type 0 where
  is_done is_null : DecompressResult
  val : ℕ → DecompressResult

-- The difference of two words.
abbrev pub minus64 : ℕ → ℕ → ℕ
minus64 x y = (x + (2 ^ 64 - y)) % 2 ^ 64

unfoldable pub compressor_alloc : DeltaDeltaCompressor
compressor_alloc = record {
  prev_val = 0;
  prev_delta = 0;
  delta_delta = compressor_init;
  nulls = compressor_init;
  has_nulls = false;
}

unfoldable pub append_null : DeltaDeltaCompressor → Option DeltaDeltaCompressor
append_null c =
    compressor_append c.nulls 1 >>= (λ nulls. some (record c { has_nulls = true; nulls = nulls }))

unfoldable pub append_value : DeltaDeltaCompressor → ℕ → Option DeltaDeltaCompressor
append_value c next_val =
    let delta = minus64 next_val c.prev_val in
    let encoded = zig_zag_encode (minus64 delta c.prev_delta) in
    compressor_append c.delta_delta encoded >>= (λ delta_delta.
      compressor_append c.nulls 0 >>= (λ nulls. some (record c {
        prev_val = next_val;
        prev_delta = delta;
        delta_delta = delta_delta;
        nulls = nulls;
      })))

-- `none` is the error of a form that is too large.
unfoldable pub from_parts :
    ℕ → ℕ → Simple8bRleSerialized → Option Simple8bRleSerialized → Option DeltaDeltaCompressed
from_parts last_value last_delta deltas nulls =
    let nulls_size = elim nulls as (λ t. ℕ) [
      | none ↦ 0
      | some ns ↦ serialized_total_size ns % 2 ^ 32
    ] in
    let compressed_size = 32 + serialized_slot_size deltas + nulls_size in
    if leb compressed_size max_alloc_size
    then some (record {
      last_value = last_value;
      last_delta = last_delta;
      delta_deltas = deltas;
      nulls = nulls;
    })
    else none

-- The form of the finished streams; the inner `none` is NULL, where no value was appended.
abbrev pub finish_of :
    DeltaDeltaCompressor
    → Option Simple8bRleSerialized
    → Option Simple8bRleSerialized
    → Option (Option DeltaDeltaCompressed)
finish_of c none nulls = some none
finish_of c (some deltas) nulls =
    from_parts c.prev_val c.prev_delta deltas (if c.has_nulls then nulls else none)
    >>= (λ compressed. some (some compressed))

unfoldable pub finish : DeltaDeltaCompressor → Option (Option DeltaDeltaCompressed)
finish c =
    compressor_finish c.delta_delta
    >>= (λ deltas. compressor_finish c.nulls >>= (λ nulls. finish_of c deltas nulls))

unfoldable pub init_forward : DeltaDeltaCompressed → DeltaDeltaDecompressionIterator
init_forward compressed = record {
  prev_val = 0;
  prev_delta = 0;
  delta_deltas = Iterator.init_forward compressed.delta_deltas;
  nulls = elim compressed.nulls [ none ↦ zero_iterator | some ns ↦ Iterator.init_forward ns ];
  has_nulls = elim compressed.nulls [ none ↦ false | some ns ↦ true ];
}

-- What the next word of the stream of differences says, and the iterator after it.
abbrev pub decoded :
    DeltaDeltaDecompressionIterator
    → Option ℕ × Simple8bRleDecompressionIterator
    → DecompressResult × DeltaDeltaDecompressionIterator
decoded iter (none, rest) = (is_done, record iter { delta_deltas = rest })
decoded iter (some encoded, rest) =
    let delta = (iter.prev_delta + zig_zag_decode encoded) % 2 ^ 64 in
    let value = (iter.prev_val + delta) % 2 ^ 64 in
    (val value, record iter { prev_val = value; prev_delta = delta; delta_deltas = rest })

-- The next value, once no null stands before it.
unfoldable pub next_value :
    DeltaDeltaDecompressionIterator → Option (DecompressResult × DeltaDeltaDecompressionIterator)
next_value iter =
    Iterator.try_next_forward iter.delta_deltas >>= (λ result. some (decoded iter result))

-- What follows the flag of a null.
abbrev pub after_flag :
    DeltaDeltaDecompressionIterator
    → Option ℕ × Simple8bRleDecompressionIterator
    → Option (DecompressResult × DeltaDeltaDecompressionIterator)
after_flag iter (none, rest) = some (is_done, record iter { nulls = rest })
after_flag iter (some flag, rest) =
    let after = record iter { nulls = rest } in
    if flag == 0 then next_value after else some (is_null, after)

unfoldable pub try_next_forward :
    DeltaDeltaDecompressionIterator → Option (DecompressResult × DeltaDeltaDecompressionIterator)
try_next_forward iter =
    if iter.has_nulls
    then (Iterator.try_next_forward iter.nulls >>= after_flag iter)
    else next_value iter
