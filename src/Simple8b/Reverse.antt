-- ===== src/Simple8b/Reverse.antt =====
-- The reverse iterator of tsl/src/compression/simple8b_rle.h. Its position in a block is an int32,
-- written as a word of 32 bits in two's complement, and its position in the words wraps around.
use timescaledb.Base.{
  ℕ, zero, suc, ◌+◌, ◌-◌, ◌%◌, ◌^◌, Option, none, some, ◌>>=◌, List, if◌then◌else◌, leb, ◌==◌,
  get_or,
}
use timescaledb.BitArray.{
  BitArrayIterator, iterator_init, iter_next, iterator_init_rev, iter_next_rev,
}
use timescaledb.Simple8b.{
  selector_is_rle, rledata_repeatcount, num_elements, block_create, block_get_element,
}
use timescaledb.Simple8b.Compressor.{Simple8bRleSerialized}
use timescaledb.Simple8b.Iterator
use timescaledb.Simple8b.Iterator.{Simple8bRleDecompressionIterator}

-- The difference of two words of 32 bits.
abbrev pub minus32 : ℕ → ℕ → ℕ
minus32 x y = (x + (2 ^ 32 - y)) % 2 ^ 32

-- The rounds of the loop from block `i` on; `none` is the error of a selector 0.
unfoldable pub max_stored : ℕ → ℕ → BitArrayIterator → List ℕ → ℕ → Option ℕ
max_stored zero i selectors compressed_data stored = some stored
max_stored (suc rounds) i selectors compressed_data stored =
    let (selector, next) = iter_next selectors 4 in
    let count =
      if selector_is_rle selector
      then rledata_repeatcount (get_or compressed_data i 0)
      else num_elements selector in
    let rest = max_stored rounds (i + 1) next compressed_data ((stored + count) % 2 ^ 32) in
    if selector == 0 then none else rest

unfoldable pub max_elements : Simple8bRleDecompressionIterator → Simple8bRleSerialized → Option ℕ
max_elements iter compressed =
    max_stored compressed.num_blocks 0 (iterator_init iter.selectors.array) iter.compressed_data 0

-- The iterator at the last element of the block before.
unfoldable pub load_block_rev : Simple8bRleDecompressionIterator → Simple8bRleDecompressionIterator
load_block_rev iter =
    let (selector, selectors) = iter_next_rev iter.selectors 4 in
    let block = block_create selector (get_or iter.compressed_data iter.current_compressed_pos 0) in
    record iter {
      selectors = selectors;
      current_block = block;
      current_compressed_pos = minus32 iter.current_compressed_pos 1;
      current_in_compressed_pos = minus32 block.num_elements_compressed 1;
    }

-- The iterator before the block that ends the words, on the last block from its last element.
unfoldable pub init_reverse : Simple8bRleSerialized → Option Simple8bRleDecompressionIterator
init_reverse compressed =
    let common = Iterator.init_forward compressed in
    let iter = record common {
      selectors = iterator_init_rev common.selector_data;
      current_compressed_pos = minus32 compressed.num_blocks 1;
    } in
    max_elements iter compressed >>= (λ stored.
      let skipped_in_last = minus32 stored compressed.num_elements in
      let last = load_block_rev iter in
      some (record last {
        current_in_compressed_pos = minus32 last.current_in_compressed_pos skipped_in_last;
      }))

unfoldable pub get_current_rev :
    Simple8bRleDecompressionIterator → Option (Option ℕ × Simple8bRleDecompressionIterator)
get_current_rev iter =
    block_get_element iter.current_block iter.current_in_compressed_pos >>= (λ uncompressed. some (
      some uncompressed,
      record iter {
        num_elements_returned = iter.num_elements_returned + 1;
        current_in_compressed_pos = minus32 iter.current_in_compressed_pos 1;
      },
    ))

unfoldable pub try_next_reverse :
    Simple8bRleDecompressionIterator → Option (Option ℕ × Simple8bRleDecompressionIterator)
try_next_reverse iter =
    if leb iter.num_elements iter.num_elements_returned
    then some (none, iter)
    else get_current_rev
        (if leb (2 ^ 31) iter.current_in_compressed_pos then load_block_rev iter else iter)
