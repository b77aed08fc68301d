-- ===== src/Simple8b/Compressor.antt =====
-- The compressor of tsl/src/compression/simple8b_rle.h. `none` is an error of reading a block. The
-- element at `idx + i` of new data is the element at `i` of the list of those from `idx` on.
use timescaledb.Base.{
  ℕ, zero, suc, ◌+◌, ◌-◌, ◌*◌, ◌%◌, ◌^◌, Bool, true, false, ◌&&◌, Option, none, some, ◌>>=◌, List,
  [], ◌∷◌, ◌++◌, if◌then◌else◌, leb, ltb, ◌==◌, length, get_elem?, drop,
}
use timescaledb.Vec.{capacity, max_alloc_size}
use timescaledb.BitArray.{BitArray, init, append}
use timescaledb.Simple8b.{
  rle_max_value_mask, rle_max_count_mask, max_values_per_slot, num_elements, Simple8bRleBlock,
  selector_is_rle, selector_get_bitmask, bits_for_value, block_create_rle, block_append_rle,
  block_append_element, block_get_element,
}

pub record Simple8bRleCompressor : Type 0 where
  pub selectors : BitArray
  pub last_block_set : Bool
  pub last_block : Simple8bRleBlock
  pub compressed_data : List ℕ
  pub num_elements : ℕ
  pub uncompressed_elements : List ℕ

pub record Simple8bRlePartiallyCompressedData : Type 0 where
  pub block : Simple8bRleBlock
  pub elements : List ℕ

pub record Simple8bRleSerialized : Type 0 where
  pub num_elements : ℕ
  pub num_blocks : ℕ
  pub slots : List ℕ

-- A zeroed block.
abbrev pub zero_block : Simple8bRleBlock
zero_block = record { payload = 0; num_elements_compressed = 0; selector = 0 }

unfoldable pub compressor_init : Simple8bRleCompressor
compressor_init = record {
  selectors = init;
  last_block_set = false;
  last_block = zero_block;
  compressed_data = [];
  num_elements = 0;
  uncompressed_elements = [];
}

-- The compressor, if its vectors could be allocated. They only grow within an operation, so that an
-- error of their growth is one at their last length.
unfoldable pub allocated : Simple8bRleCompressor → Option Simple8bRleCompressor
allocated compressor = capacity (length compressor.selectors.buckets) >>= (λ selectors_max.
    capacity (length compressor.compressed_data) >>= (λ data_max. some compressor))

-- The growth of the vectors is checked after the last block of an operation, by `allocated`.
unfoldable pub push_block : Simple8bRleCompressor → Simple8bRleBlock → Simple8bRleCompressor
push_block compressor block =
    if compressor.last_block_set
    then record compressor {
      selectors = append compressor.selectors 4 compressor.last_block.selector;
      compressed_data = compressor.compressed_data ++ (compressor.last_block.payload ∷ []);
      last_block = block;
    }
    else record compressor { last_block = block; last_block_set = true }

unfoldable pub pcd_num_elements : Simple8bRlePartiallyCompressedData → ℕ
pcd_num_elements pcd = pcd.block.num_elements_compressed + length pcd.elements

unfoldable pub pcd_get_element : Simple8bRlePartiallyCompressedData → ℕ → Option ℕ
pcd_get_element pcd pos =
    if ltb pos pcd.block.num_elements_compressed
    then block_get_element pcd.block pos
    else get_elem? pcd.elements (pos - pcd.block.num_elements_compressed)

-- The `n` elements from a position on.
unfoldable pub pcd_elements : Simple8bRlePartiallyCompressedData → ℕ → ℕ → Option (List ℕ)
pcd_elements pcd pos zero = some []
pcd_elements pcd pos (suc n) =
    pcd_get_element pcd pos >>= (λ x. pcd_elements pcd (suc pos) n >>= (λ xs. some (x ∷ xs)))

-- The loop that counts a run, up to the largest count.
unfoldable pub run_length : ℕ → ℕ → List ℕ → ℕ
run_length rle_val rle_count [] = rle_count
run_length rle_val rle_count (x ∷ xs) =
    let longer = run_length rle_val (rle_count + 1) xs in
    if x == rle_val
    then (if rle_count + 1 == rle_max_count_mask then rle_count + 1 else longer)
    else rle_count

-- The selector that holds a value at place `i`; the last selector holds every value.
unfoldable pub raise : ℕ → ℕ → ℕ → ℕ → ℕ
raise zero i selector val = selector
raise (suc fuel) i selector val =
    let higher = raise fuel i (selector + 1) val in
    if ltb (selector_get_bitmask selector) val
    then (if leb (num_elements (selector + 1)) i then selector + 1 else higher)
    else selector

unfoldable pub select : ℕ → ℕ → List ℕ → ℕ
select i selector [] = selector
select i selector (x ∷ xs) =
    let rest = select (i + 1) (raise 14 i selector x) xs in
    if ltb i (num_elements selector) then rest else selector

-- The block with the packed elements, and the elements that are left.
unfoldable pub pack : ℕ → Simple8bRleBlock → List ℕ → Simple8bRleBlock × List ℕ
pack num_packed block [] = (block, [])
pack num_packed block (x ∷ xs) =
    let rest = pack (num_packed + 1) (block_append_element block x) xs in
    if ltb num_packed (num_elements block.selector) then rest else (block, x ∷ xs)

unfoldable pub pack_block : List ℕ → Simple8bRleBlock × List ℕ
pack_block elements =
    pack 0 (record { payload = 0; num_elements_compressed = 0; selector = select 0 1 elements })
      elements

-- One round of the loop of `append_pcd`.
unfoldable pub next_block : ℕ → List ℕ → Simple8bRleBlock × List ℕ
next_block x xs =
    let rle_count = run_length x 1 xs in
    let bits_per_int = if x == 0 then 1 else bits_for_value x in
    if leb x rle_max_value_mask && leb 64 (bits_per_int * rle_count)
    then (block_create_rle rle_count x, drop (rle_count - 1) xs)
    else pack_block (x ∷ xs)

-- Each round takes an element at least, so that as many rounds as there are elements are enough.
unfoldable pub append_rounds : ℕ → Simple8bRleCompressor → List ℕ → Simple8bRleCompressor
append_rounds zero compressor elements = compressor
append_rounds (suc n) compressor [] = compressor
append_rounds (suc n) compressor (x ∷ xs) =
    let (block, rest) = next_block x xs in append_rounds n (push_block compressor block) rest

unfoldable pub append_pcd :
    Simple8bRleCompressor → Simple8bRlePartiallyCompressedData → Option Simple8bRleCompressor
append_pcd compressor new_data =
    pcd_elements new_data 0 (pcd_num_elements new_data)
    >>= (λ elements. allocated (append_rounds (length elements) compressor elements))

-- The elements are appended, and counted in 32 bits.
unfoldable pub flush_pcd :
    Simple8bRleCompressor → Simple8bRlePartiallyCompressedData → Option Simple8bRleCompressor
flush_pcd compressor new_data = append_pcd compressor new_data >>= (λ after. some (record after {
  num_elements = (after.num_elements + length after.uncompressed_elements) % 2 ^ 32;
  uncompressed_elements = [];
}))

unfoldable pub flush : Simple8bRleCompressor → Option Simple8bRleCompressor
flush compressor =
    let last_block = if compressor.last_block_set then compressor.last_block else zero_block in
    let popped = record compressor { last_block_set = false } in
    let elements = compressor.uncompressed_elements in
    if last_block.selector == 0 && length elements == 0
    then some popped
    else if selector_is_rle last_block.selector
    then (let (longer, appended_to_rle) = block_append_rle last_block elements in
        flush_pcd (push_block popped longer)
          (record { block = zero_block; elements = drop appended_to_rle elements }))
    else flush_pcd popped (record { block = last_block; elements = elements })

unfoldable pub compressor_append : Simple8bRleCompressor → ℕ → Option Simple8bRleCompressor
compressor_append compressor val =
    (if leb max_values_per_slot (length compressor.uncompressed_elements)
      then flush compressor
      else some compressor)
    >>= (λ c. some (record c { uncompressed_elements = c.uncompressed_elements ++ (val ∷ []) }))

-- The form of a compressor, `none` if it is too large for an allocation.
unfoldable pub allocate_form : Simple8bRleCompressor → Option Simple8bRleSerialized
allocate_form pushed =
    if leb (8 + 8 * length pushed.compressed_data + 8 * length pushed.selectors.buckets)
      max_alloc_size
    then some (record {
      num_elements = pushed.num_elements;
      num_blocks = length pushed.compressed_data;
      slots = pushed.selectors.buckets ++ pushed.compressed_data;
    })
    else none

-- The inner `none` is NULL, where no element was appended.
unfoldable pub compressor_finish : Simple8bRleCompressor → Option (Option Simple8bRleSerialized)
compressor_finish compressor = flush compressor >>= (λ c.
    if c.num_elements == 0
    then some none
    else (allocated (push_block c c.last_block)
        >>= (λ pushed. allocate_form pushed >>= (λ compressed. some (some compressed)))))
