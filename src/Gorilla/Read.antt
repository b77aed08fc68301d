-- ===== src/Gorilla/Read.antt =====
-- Reading from the bit arrays of tsl/src/compression/gorilla.c.
use timescaledb.Base.{ℕ, ◌^◌, ◌≤◌, ◌<◌, ◌≡◌, ap, ◌∙◌, List, ◌∷◌}
use timescaledb.BitArray
use timescaledb.BitArray.{BitArray, BitArrayIterator, iter_next}
use timescaledb.BitArray.Append.{IsValid}
use timescaledb.BitArray.Read.{place}
use timescaledb.BitArray.RoundTrip.{append_all, Narrow, read_first}
use timescaledb.BitArray.Value.{num_bits}
use native.Mathlib.Nat.{mod-eq_of_lt}

-- A position in an array that `xs` were appended to, at the end of `array`.
abbrev pub At : BitArrayIterator → BitArray → List (ℕ × ℕ) → Type 0
At iter array xs =
    IsValid array
    × Narrow xs
    × (iter.array ≡ append_all array xs)
    × (place iter ≡ num_bits array)
    × (iter.bits_used_in_current_bucket ≤ 64)

-- An iterator at the first of the appended values returns it, and stands at the next one then.
pub iter_next-At :
    (iter : BitArrayIterator) (array : BitArray) (k w : ℕ) (xs : List (ℕ × ℕ))
    → At iter array ((k, w) ∷ xs)
    → w < 2 ^ k
    → (rest : BitArrayIterator) × (iter_next iter k ≡ (w, rest))
      × At rest (BitArray.append array k w) xs
iter_next-At iter array k w xs (v, n, e, p, u) b =
    let (word, next, place_next, used, valid) = read_first k w xs array iter v n e p u in
    let rest = (iter_next iter k).1 in
    (rest, ap (λ (t : ℕ). (t, rest)) (word ∙ mod-eq_of_lt b), (valid, n.1, next, place_next, used))
