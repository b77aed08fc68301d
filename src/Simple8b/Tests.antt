-- ===== src/Simple8b/Tests.antt =====
-- Words compressed and read at concrete values.
use timescaledb.Base.{
  ℕ, zero, suc, ◌-◌, ◌^◌, ◌≡◌, refl, List, [], ◌∷◌, ◌++◌, replicate, reverse, some, ◌>>=◌, arith,
  inl, false,
}
use timescaledb.BitArray.{init}
use timescaledb.Simple8b.{
  num_elements, bits_for_value, block_append_element, halve, selector_get_bitmask, bit_length,
}
use timescaledb.Simple8b.Block.{AllBelow}
use timescaledb.Simple8b.Compressor.{
  Simple8bRleCompressor, compressor_append, next_block, run_length, pack_block, pack, select, raise,
  zero_block,
}
use timescaledb.Simple8b.Flush.{IsCompressor, Flushed, compressor_append_lem, flush_lem}
use timescaledb.Simple8b.Pack.{next_block_lem, IsNext}
use timescaledb.Simple8b.RoundTrip.{
  compress, decompress, decompress_rev, decompress-compress, decompress_rev-compress,
}

abbrev mixed : List ℕ
mixed = 3 ∷ 2 ^ 40 ∷ 0 ∷ 7 ∷ 7 ∷ (2 ^ 64 - 1) ∷ []

mixed-AllBelow : AllBelow 64 mixed
mixed-AllBelow =
    (omega arith, (omega arith, (omega arith, (omega arith, (omega arith, (omega arith, tt))))))

decompress-compress_example : (compress mixed >>= decompress 7) ≡ some mixed
decompress-compress_example = decompress-compress mixed 7 mixed-AllBelow (omega arith) (omega arith)

sevens-AllBelow : (n : ℕ) → AllBelow 64 (replicate n 7)
sevens-AllBelow zero = tt
sevens-AllBelow (suc n) = (omega arith, sevens-AllBelow n)

-- A compressor that has to flush before it takes another element.
abbrev waiting : Simple8bRleCompressor
waiting = record {
  selectors = init;
  last_block_set = false;
  last_block = zero_block;
  compressed_data = [];
  num_elements = 0;
  uncompressed_elements = replicate 64 7;
}

waiting-IsCompressor : IsCompressor waiting (replicate 64 7)
waiting-IsCompressor =
    ([], refl, refl, (omega arith, sevens-AllBelow 64), inl (refl, refl, refl, refl))

compressor_append_lem_example :
    (d : Simple8bRleCompressor) × (compressor_append waiting 9 ≡ some d)
    × IsCompressor d (replicate 64 7 ++ (9 ∷ []))
compressor_append_lem_example =
    compressor_append_lem waiting (replicate 64 7) 9 waiting-IsCompressor (omega arith)
      (omega arith)

flush_lem_example : Flushed waiting (replicate 64 7)
flush_lem_example = flush_lem waiting (replicate 64 7) waiting-IsCompressor (omega arith)

next_block_lem_example : IsNext (5 ∷ 6 ∷ []) (next_block 5 (6 ∷ []))
next_block_lem_example = next_block_lem 5 (6 ∷ []) (omega arith, (omega arith, tt))

-- Two values of three bits are packed with the selector that has place for 21.
packed_pair :
    (next_block 5 (6 ∷ [])).0 ≡ record { payload = 53; num_elements_compressed = 2; selector = 3 }
unfolding next_block bits_for_value halve run_length pack_block pack num_elements select raise
    selector_get_bitmask block_append_element bit_length
packed_pair = refl

decompress_rev-compress_example : (compress mixed >>= decompress_rev 7) ≡ some (reverse mixed)
decompress_rev-compress_example =
    decompress_rev-compress mixed 7 mixed-AllBelow (omega arith) (omega arith)
