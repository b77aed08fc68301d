-- ===== src/Simple8b/Iterator.antt =====
-- The forward iterator of tsl/src/compression/simple8b_rle.h.
use timescaledb.Base.{
  ℕ, ◌+◌, ◌*◌, ◌/◌, ◌%◌, ◌^◌, Option, none, some, ◌>>=◌, List, [], if◌then◌else◌, leb, ◌==◌, get_or,
  drop,
}
use timescaledb.BitArray.{BitArray, BitArrayIterator, wrap, iterator_init, iter_next}
use timescaledb.Simple8b.{Simple8bRleBlock, block_create, block_get_element}
use timescaledb.Simple8b.Compressor.{Simple8bRleSerialized, zero_block}

pub record Simple8bRleDecompressionIterator : Type 0 where
  pub selector_data : BitArray
  pub selectors : BitArrayIterator
  pub current_block : Simple8bRleBlock
  pub compressed_data : List ℕ
  pub current_compressed_pos : ℕ
  pub current_in_compressed_pos : ℕ
  pub num_elements : ℕ
  pub num_elements_returned : ℕ

unfoldable pub num_selector_slots : ℕ → ℕ
num_selector_slots num_blocks = num_blocks / 16 + (if num_blocks % 16 == 0 then 0 else 1)

-- The size of the slots in bytes.
unfoldable pub serialized_slot_size : Simple8bRleSerialized → ℕ
serialized_slot_size s = 8 * ((s.num_blocks + num_selector_slots s.num_blocks) % 2 ^ 32)

unfoldable pub serialized_total_size : Simple8bRleSerialized → ℕ
unfolding serialized_slot_size
serialized_total_size s = 8 + serialized_slot_size s

-- A zeroed iterator.
abbrev pub zero_iterator : Simple8bRleDecompressionIterator
zero_iterator = record {
  selector_data = record { buckets = []; bits_used_in_last_bucket = 0 };
  selectors = record {
    array = record { buckets = []; bits_used_in_last_bucket = 0 };
    bits_used_in_current_bucket = 0;
    current_bucket = 0;
  };
  current_block = zero_block;
  compressed_data = [];
  current_compressed_pos = 0;
  current_in_compressed_pos = 0;
  num_elements = 0;
  num_elements_returned = 0;
}

unfoldable pub init_forward : Simple8bRleSerialized → Simple8bRleDecompressionIterator
init_forward compressed =
    let selector_data = wrap compressed.slots (compressed.num_blocks * 4 % 2 ^ 32) in
    record {
      selector_data = selector_data;
      selectors = iterator_init selector_data;
      current_block = zero_block;
      compressed_data = drop (num_selector_slots compressed.num_blocks) compressed.slots;
      current_compressed_pos = 0;
      current_in_compressed_pos = 0;
      num_elements = compressed.num_elements;
      num_elements_returned = 0;
    }

-- The iterator at the start of the next block.
unfoldable pub load_block : Simple8bRleDecompressionIterator → Simple8bRleDecompressionIterator
load_block iter =
    let (selector, selectors) = iter_next iter.selectors 4 in
    record iter {
      selectors = selectors;
      current_block =
          block_create selector (get_or iter.compressed_data iter.current_compressed_pos 0);
      current_compressed_pos = iter.current_compressed_pos + 1;
      current_in_compressed_pos = 0;
    }

unfoldable pub get_current :
    Simple8bRleDecompressionIterator → Option (Option ℕ × Simple8bRleDecompressionIterator)
get_current iter =
    block_get_element iter.current_block iter.current_in_compressed_pos >>= (λ uncompressed. some (
      some uncompressed,
      record iter {
        num_elements_returned = iter.num_elements_returned + 1;
        current_in_compressed_pos = iter.current_in_compressed_pos + 1;
      },
    ))

-- The value, where the iterator is not done. The outer `none` is an error.
unfoldable pub try_next_forward :
    Simple8bRleDecompressionIterator → Option (Option ℕ × Simple8bRleDecompressionIterator)
try_next_forward iter =
    if leb iter.num_elements iter.num_elements_returned
    then some (none, iter)
    else get_current (
        if leb iter.current_block.num_elements_compressed iter.current_in_compressed_pos
        then load_block iter
        else iter)
