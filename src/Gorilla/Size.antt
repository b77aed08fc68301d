-- ===== src/Gorilla/Size.antt =====
-- The size of the compressed form of tsl/src/compression/gorilla.c.
use timescaledb.Base.{
  ℕ, ◌+◌, ◌*◌, ◌^◌, ◌≤◌, ◌<◌, ◌≡◌, refl, sym, subst, Option, none, some, List, [], ◌∷◌, length,
  arith,
}
use timescaledb.BitArray
use timescaledb.BitArray.{BitArray, iterator_init}
use timescaledb.BitArray.Append.{IsValid, append_lem, init-IsValid}
use timescaledb.BitArray.RoundTrip
use timescaledb.BitArray.RoundTrip.{Narrow}
use timescaledb.BitArray.Value.{num_bits}
use timescaledb.Simple8b.Compressor.{Simple8bRleSerialized}
use timescaledb.Simple8b.Iterator.{num_selector_slots, serialized_slot_size, serialized_total_size}
use timescaledb.Gorilla.{CompressedGorillaData, serialize}

-- No array is longer than what was appended to it.
bits_bound :
    (xs : List (ℕ × ℕ)) (array : BitArray)
    → IsValid array
    → Narrow xs
    → num_bits (RoundTrip.append_all array xs) ≤ num_bits array + 64 * length xs
unfolding RoundTrip.append_all
bits_bound [] array v n = omega arith
bits_bound ((k, x) ∷ xs) array v n =
    let (w, c, p) = append_lem array k x v n.0 in
    omega (arith, bits_bound xs (BitArray.append array k x) w n.1, p, n.0)

pub buckets_bound :
    (array : BitArray) (xs : List (ℕ × ℕ))
    → Narrow xs
    → array ≡ RoundTrip.append_all BitArray.init xs
    → length array.buckets ≤ length xs + 1
buckets_bound array xs n e =
    let (v, c, p) = init-IsValid in
    let bits : num_bits array ≤ 64 * length xs =
      subst (λ a. num_bits a ≤ 64 * length xs) (sym e)
        (omega (arith, bits_bound xs BitArray.init v n, p)) in
    omega (arith, bits)

-- A stream of `n` elements at most, twice its size.
size_bound :
    (s : Simple8bRleSerialized) (n : ℕ)
    → s.num_blocks ≤ n
    → 2 * serialized_total_size s ≤ 17 * n + 32
unfolding serialized_slot_size serialized_total_size num_selector_slots
size_bound s n h = ground arith

nulls_bound :
    (o : Option Simple8bRleSerialized) (n : ℕ)
    → ((s : Simple8bRleSerialized) → o ≡ some s → s.num_blocks ≤ n)
    → 2 * (elim o as (λ t. ℕ) [ none ↦ 0 | some ns ↦ serialized_total_size ns ]) ≤ 17 * n + 32
nulls_bound none n h = omega arith
nulls_bound (some s) n h = size_bound s n (h s refl)

-- The form of `n` values has room in an allocation.
pub small_enough :
    (z : CompressedGorillaData) (n : ℕ)
    → n < 2 ^ 24
    → z.tag0s.num_blocks ≤ n
    → z.tag1s.num_blocks ≤ n
    → z.num_bits_used_per_xor.num_blocks ≤ n
    → length z.leading_zeros.buckets ≤ n + 1
    → length z.xors.buckets ≤ n + 1
    → ((s : Simple8bRleSerialized) → z.nulls ≡ some s → s.num_blocks ≤ n)
    → serialize z ≡ some z
unfolding serialize
small_enough z n h a b c d e f = ground (
  arith,
  size_bound z.tag0s n a,
  size_bound z.tag1s n b,
  size_bound z.num_bits_used_per_xor n c,
  nulls_bound z.nulls n f,
)
