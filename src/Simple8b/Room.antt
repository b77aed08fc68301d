-- ===== src/Simple8b/Room.antt =====
-- The vectors of the compressor of tsl/src/compression/simple8b_rle.h have room for what they hold.
use timescaledb.Base.{
  ℕ, ◌+◌, ◌*◌, ◌^◌, ◌≤◌, ◌<◌, ◌≡◌, ap, ◌∙◌, some, ◌>>=◌, List, [], ◌∷◌, map, length, length-append,
  arith,
}
use timescaledb.Vec.{capacity, capacity_lem}
use timescaledb.BitArray.{BitArray, init}
use timescaledb.BitArray.Append.{init-IsValid}
use timescaledb.BitArray.Value.{num_bits}
use timescaledb.BitArray.RoundTrip.{append_all}
use timescaledb.Simple8b.{Simple8bRleBlock}
use timescaledb.Simple8b.Compressor.{Simple8bRleCompressor, allocated}
use timescaledb.Simple8b.Slots.{selectors-num_bits}
use timescaledb.Simple8b.Store.{Done, AllFull-length, selector_bits, word_of}

pub allocated_lem :
    (c : Simple8bRleCompressor)
    → length c.selectors.buckets ≤ 2 ^ 25
    → length c.compressed_data ≤ 2 ^ 25
    → allocated c ≡ some c
unfolding allocated
allocated_lem c h k =
    let (m, e, l) = capacity_lem (length c.selectors.buckets) h in
    let (n, f, o) = capacity_lem (length c.compressed_data) k in
    ap (λ o. o >>= (λ m. capacity (length c.compressed_data) >>= (λ n. some c))) e
    ∙ ap (λ o. o >>= (λ n. some c)) f

pub length-words : (blocks : List Simple8bRleBlock) → length (map word_of blocks) ≡ length blocks
length-words [] = omega arith
length-words (b ∷ bs) = omega (arith, length-words bs)

-- There is at most one bucket of selectors for each block, and one more.
pub length-selectors :
    (blocks : List Simple8bRleBlock) (array : BitArray)
    → array ≡ append_all init (map selector_bits blocks)
    → length array.buckets ≤ length blocks + 1
length-selectors blocks array e =
    let bits = (selectors-num_bits blocks init init-IsValid.0).1 in
    let same : num_bits array ≡ 4 * length blocks =
      ap num_bits e ∙ omega (arith, bits, init-IsValid.2) in
    omega (arith, same)

pub Done-allocated :
    (c : Simple8bRleCompressor) (xs : List ℕ)
    → Done c xs
    → length xs < 2 ^ 25
    → allocated c ≡ some c
Done-allocated c xs (s, (ys, zs, d, (blocks, e, f, a), b)) h =
    let count = AllFull-length blocks ys a in
    let total : length xs ≡ length ys + length zs = ap length d ∙ length-append ys zs in
    allocated_lem c (omega (arith, length-selectors blocks c.selectors e, count, total))
      (omega (arith, ap length f, length-words blocks, count, total))
