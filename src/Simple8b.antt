-- ===== src/Simple8b.antt =====
-- Simple-8b with run lengths, tsl/src/compression/simple8b_rle.h: the blocks. A block packs up to 64
-- integers of one width into a word, as its selector says, or holds one value with its count.
pub mod Width
pub mod Block
pub mod Compressor
pub mod Iterator
pub mod Reverse
pub mod Pack
pub mod Store
pub mod Room
pub mod Flush
pub mod Read
pub mod Slots
pub mod ReadBack
pub mod Backwards
pub mod RoundTrip
mod Tests
use timescaledb.Base.{
  ℕ, zero, suc, ◌+◌, ◌-◌, ◌*◌, ◌/◌, ◌%◌, ◌^◌, Bool, true, false, ◌&&◌, Option, none, some, List, [],
  ◌∷◌, if◌then◌else◌, leb, ltb, ◌==◌, get_or,
}
use timescaledb.Base.Bits.{bit_and, bit_or, shl64, shr}

abbrev pub rle_selector : ℕ
rle_selector = 15

abbrev pub rle_max_value_bits : ℕ
rle_max_value_bits = 36

abbrev pub rle_max_value_mask : ℕ
rle_max_value_mask = 2 ^ 36 - 1

abbrev pub rle_max_count_mask : ℕ
rle_max_count_mask = 2 ^ 28 - 1

abbrev pub max_values_per_slot : ℕ
max_values_per_slot = 64

unfoldable pub num_elements : ℕ → ℕ
num_elements selector =
    get_or (0 ∷ 64 ∷ 32 ∷ 21 ∷ 16 ∷ 12 ∷ 10 ∷ 9 ∷ 8 ∷ 6 ∷ 5 ∷ 4 ∷ 3 ∷ 2 ∷ 1 ∷ []) selector 0

unfoldable pub bit_length : ℕ → ℕ
bit_length selector =
    get_or (0 ∷ 1 ∷ 2 ∷ 3 ∷ 4 ∷ 5 ∷ 6 ∷ 7 ∷ 8 ∷ 10 ∷ 12 ∷ 16 ∷ 21 ∷ 32 ∷ 64 ∷ 36 ∷ []) selector 0

pub record Simple8bRleBlock : Type 0 where
  pub payload : ℕ
  pub num_elements_compressed : ℕ
  pub selector : ℕ

unfoldable pub selector_is_rle : ℕ → Bool
selector_is_rle selector = selector == rle_selector

unfoldable pub selector_get_bitmask : ℕ → ℕ
selector_get_bitmask selector =
    let bit_len = bit_length selector in if ltb bit_len 64 then shl64 1 bit_len - 1 else 2 ^ 64 - 1

unfoldable pub rledata_repeatcount : ℕ → ℕ
rledata_repeatcount rledata = bit_and (shr rledata rle_max_value_bits) rle_max_count_mask % 2 ^ 32

unfoldable pub rledata_value : ℕ → ℕ
rledata_value rledata = bit_and rledata rle_max_value_mask

-- One step of `bits_for_value`: the value and the count of bits.
unfoldable pub halve : ℕ → ℕ → ℕ × ℕ → ℕ × ℕ
halve threshold bits (v, r) = if leb (2 ^ threshold) v then (shr v bits, r + bits) else (v, r)

unfoldable pub bits_for_value : ℕ → ℕ
bits_for_value v =
    (halve 0 1 (halve 1 2 (halve 3 4 (halve 7 8 (halve 15 16 (halve 31 32 (v, 0))))))).1

unfoldable pub block_create_rle : ℕ → ℕ → Simple8bRleBlock
block_create_rle rle_count rle_val = record {
  payload = bit_or (shl64 rle_count rle_max_value_bits) rle_val;
  num_elements_compressed = rle_count;
  selector = rle_selector;
}

unfoldable pub block_create : ℕ → ℕ → Simple8bRleBlock
block_create selector payload = record {
  payload = payload;
  num_elements_compressed =
      if selector_is_rle selector then rledata_repeatcount payload else num_elements selector;
  selector = selector;
}

-- The count after the elements that are equal to the value, and how many they are.
unfoldable pub count_repeats : ℕ → ℕ → List ℕ → ℕ × ℕ
count_repeats repeated_value repeat_count [] = (repeat_count, 0)
count_repeats repeated_value repeat_count (x ∷ xs) =
    let (count, i) = count_repeats repeated_value (repeat_count + 1) xs in
    if x == repeated_value && ltb repeat_count rle_max_count_mask
    then (count, i + 1)
    else (repeat_count, 0)

unfoldable pub block_append_rle : Simple8bRleBlock → List ℕ → Simple8bRleBlock × ℕ
block_append_rle block elements =
    let repeated_value = rledata_value block.payload in
    let (repeat_count, i) =
      count_repeats repeated_value (rledata_repeatcount block.payload) elements in
    (record block { payload = bit_or (shl64 repeat_count rle_max_value_bits) repeated_value }, i)

unfoldable pub block_append_element : Simple8bRleBlock → ℕ → Simple8bRleBlock
block_append_element block val = record block {
  payload =
      bit_or block.payload (shl64 val (bit_length block.selector * block.num_elements_compressed));
  num_elements_compressed = block.num_elements_compressed + 1;
}

-- `none` is the error at the end of the stream.
unfoldable pub block_get_element : Simple8bRleBlock → ℕ → Option ℕ
block_get_element block position =
    if block.selector == 0
    then none
    else if selector_is_rle block.selector
    then some (rledata_value block.payload)
    else some (
        bit_and (shr block.payload (bit_length block.selector * position))
          (selector_get_bitmask block.selector))
