-- ===== src/DeltaDelta/Reverse.antt =====
-- The reverse iterator of tsl/src/compression/deltadelta.c.
use timescaledb.Base.{ℕ, Bool, true, false, Option, none, some, ◌>>=◌, if◌then◌else◌, ◌==◌}
use timescaledb.Simple8b.Iterator.{Simple8bRleDecompressionIterator, zero_iterator}
use timescaledb.Simple8b.Reverse
use timescaledb.DeltaDelta.{
  DeltaDeltaCompressed, DeltaDeltaDecompressionIterator, DecompressResult, is_done, is_null, val,
  minus64, zig_zag_decode,
}

-- `none` is an error of the streams.
unfoldable pub init_reverse : DeltaDeltaCompressed → Option DeltaDeltaDecompressionIterator
init_reverse compressed = Reverse.init_reverse compressed.delta_deltas >>= (λ delta_deltas.
    (elim compressed.nulls as (λ t. Option Simple8bRleDecompressionIterator) [
      | none ↦ some zero_iterator
      | some ns ↦ Reverse.init_reverse ns
    ])
    >>= (λ nulls. some (record {
      prev_val = compressed.last_value;
      prev_delta = compressed.last_delta;
      delta_deltas = delta_deltas;
      nulls = nulls;
      has_nulls = elim compressed.nulls as (λ t. Bool) [ none ↦ false | some ns ↦ true ];
    })))

-- The value before which the next word of the stream leads, and the iterator before it.
abbrev pub undone :
    DeltaDeltaDecompressionIterator
    → Option ℕ × Simple8bRleDecompressionIterator
    → DecompressResult × DeltaDeltaDecompressionIterator
undone iter (none, rest) = (is_done, record iter { delta_deltas = rest })
undone iter (some encoded, rest) = (
  val iter.prev_val,
  record iter {
    prev_val = minus64 iter.prev_val iter.prev_delta;
    prev_delta = minus64 iter.prev_delta (zig_zag_decode encoded);
    delta_deltas = rest;
  },
)

unfoldable pub previous_value :
    DeltaDeltaDecompressionIterator → Option (DecompressResult × DeltaDeltaDecompressionIterator)
previous_value iter =
    Reverse.try_next_reverse iter.delta_deltas >>= (λ result. some (undone iter result))

abbrev pub after_flag_rev :
    DeltaDeltaDecompressionIterator
    → Option ℕ × Simple8bRleDecompressionIterator
    → Option (DecompressResult × DeltaDeltaDecompressionIterator)
after_flag_rev iter (none, rest) = some (is_done, record iter { nulls = rest })
after_flag_rev iter (some flag, rest) =
    let after = record iter { nulls = rest } in
    if flag == 0 then previous_value after else some (is_null, after)

unfoldable pub try_next_reverse :
    DeltaDeltaDecompressionIterator → Option (DecompressResult × DeltaDeltaDecompressionIterator)
try_next_reverse iter =
    if iter.has_nulls
    then (Reverse.try_next_reverse iter.nulls >>= after_flag_rev iter)
    else previous_value iter
