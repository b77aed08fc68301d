-- ===== src/BitArray/Tests.antt =====
-- Bits appended and read at concrete widths.
use timescaledb.Base.{ℕ, ◌+◌, ◌*◌, ◌/◌, ◌%◌, ◌^◌, ◌≡◌, ◌≤◌, List, [], ◌∷◌, map, arith}
use timescaledb.BitArray.{
  BitArray, BitArrayIterator, init, iterator_init, iter_next, iter_next_rev, append,
}
use timescaledb.BitArray.Value.{num_bits}
use timescaledb.BitArray.Append.{IsValid, contents, append_lem}
use timescaledb.BitArray.ReadBack.{IsReadBack, iter_next_rev_lem}
use timescaledb.BitArray.Read.{iter_next_lem, place}
use timescaledb.BitArray.RoundTrip.{append_all, read_all, read_all-append_all}

abbrev nearly_full : BitArray
nearly_full = record { buckets = 5 ∷ []; bits_used_in_last_bucket = 60 }

nearly_full-IsValid : IsValid nearly_full
nearly_full-IsValid = (omega arith, omega arith)

append_lem_example :
    IsValid (append nearly_full 10 1023)
    × (contents (append nearly_full 10 1023)
        ≡ contents nearly_full + 1023 % 2 ^ 10 * 2 ^ num_bits nearly_full)
    × (num_bits (append nearly_full 10 1023) ≡ num_bits nearly_full + 10)
append_lem_example = append_lem nearly_full 10 1023 nearly_full-IsValid (omega arith)

abbrev two_buckets : BitArray
two_buckets = record { buckets = (2 ^ 63 + 5) ∷ 3 ∷ []; bits_used_in_last_bucket = 6 }

abbrev at_60 : BitArrayIterator
at_60 = record { array = two_buckets; bits_used_in_current_bucket = 60; current_bucket = 0 }

iter_next_lem_example :
    let (x, next) = iter_next at_60 8 in
    (x ≡ contents two_buckets / 2 ^ place at_60 % 2 ^ 8)
    × (next.array ≡ two_buckets)
    × (place next ≡ place at_60 + 8)
    × (next.bits_used_in_current_bucket ≤ 64)
iter_next_lem_example =
    iter_next_lem at_60 8 ((omega arith, omega arith), omega arith) (omega arith) (omega arith)
      (omega arith)

abbrev values : List (ℕ × ℕ)
values = (40, 7) ∷ (40, 2 ^ 41 + 9) ∷ (64, 1) ∷ []

read_all-append_all_example :
    read_all (iterator_init (append_all init values)) (map (λ (k, x). k) values)
    ≡ map (λ (k, x). x % 2 ^ k) values
read_all-append_all_example =
    read_all-append_all values (omega arith, (omega arith, (omega arith, tt)))

abbrev at_end : BitArrayIterator
at_end = record { array = two_buckets; bits_used_in_current_bucket = 6; current_bucket = 1 }

iter_next_rev_lem_example : IsReadBack at_end 10 (iter_next_rev at_end 10)
iter_next_rev_lem_example =
    iter_next_rev_lem at_end 10 ((omega arith, omega arith), omega arith) (omega arith)
      (omega arith) (omega arith)
