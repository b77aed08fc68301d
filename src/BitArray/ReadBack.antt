-- ===== src/BitArray/ReadBack.antt =====
-- Reading a bit array from its end.
use timescaledb.Base.{
  ◌⊎◌, inl, inr, if◌then◌else◌, ltb, ℕ, zero, suc, ◌+◌, ◌-◌, ◌*◌, ◌/◌, ◌%◌, ◌^◌, ◌≤◌, ◌<◌, ◌≡◌, sym,
  ap, ap₂, ◌∙◌, subst, List, [], ◌∷◌, length, ◌==◌, get_or, arith,
}
use timescaledb.Base.Bits.{bit_and, bit_or, bit_or_comm, shl64, shr, div_above}
use timescaledb.BitArray.{
  BitArray, BitArrayIterator, append, low_bits_mask, iterator_init_rev, iter_next_rev,
}
use timescaledb.BitArray.Value.{value, AllWords, num_bits, masked}
use timescaledb.BitArray.Append.{IsFilled, IsValid, contents, append_lem}
use timescaledb.BitArray.Read.{IsFilled→AllWords, place, within, across, mod_div, no_bits}
use timescaledb.BitArray.RoundTrip.{append_all, Narrow, append_all-prefix, value_below}

no_shift : (b n : ℕ) → shl64 (bit_and b (low_bits_mask 0)) n ≡ 0
no_shift b n =
    let none : bit_and b (low_bits_mask 0) ≡ 0 = masked b 0 (omega arith) ∙ omega arith in
    ap (λ t. shl64 t n) none ∙ omega arith

kept :
    (b used n : ℕ)
    → (if ltb 0 used then shl64 (bit_and b (low_bits_mask used)) n else 0)
      ≡ shl64 (bit_and b (low_bits_mask used)) n
kept b zero n = sym (no_shift b n)
kept b (suc used) n = ground arith

-- The bits of a value that starts in the bucket before.
crossing_back :
    (bs : List ℕ) (cur prev used n : ℕ)
    → AllWords bs
    → cur ≡ prev + 1
    → 0 < n
    → used + n ≤ 64
    → bit_or
        (if ltb 0 used then shl64 (bit_and (get_or bs cur 0) (low_bits_mask used)) n else 0)
        (bit_and (shr (get_or bs prev 0) (64 - n)) (low_bits_mask n))
      ≡ value bs / 2 ^ (64 * prev + (64 - n)) % 2 ^ (n + used)
crossing_back bs cur prev used n h e p l =
    let low = bit_and (shr (get_or bs prev 0) (64 - n)) (low_bits_mask n) in
    let high = shl64 (bit_and (get_or bs cur 0) (low_bits_mask used)) n in
    ap (λ t. bit_or t low) (kept (get_or bs cur 0) used n)
    ∙ bit_or_comm high low
    ∙ ap (λ (k : ℕ). bit_or low (shl64 (bit_and (get_or bs k 0) (low_bits_mask used)) n)) e
    ∙ across bs prev (64 - n) n used low h (omega arith) (omega arith)
        (within bs prev (64 - n) n h (omega arith))

-- What a read of `k` bits before the iterator returns, and the iterator it leaves.
abbrev pub IsReadBack : BitArrayIterator → ℕ → ℕ × BitArrayIterator → Type 0
IsReadBack iter k (x, next) =
    (x ≡ contents iter.array / 2 ^ (place iter - k) % 2 ^ k)
    × (next.array ≡ iter.array)
    × (place next + k ≡ place iter)
    × (next.bits_used_in_current_bucket ≤ 64)

-- Reading `k` bits backwards inside a valid array returns the bits that stand before the iterator's
-- place, and moves the iterator before them.
pub iter_next_rev_lem :
    (iter : BitArrayIterator) (k : ℕ)
    → IsValid iter.array
    → iter.bits_used_in_current_bucket ≤ 64
    → k ≤ 64
    → k ≤ place iter
    → IsReadBack iter k (iter_next_rev iter k)
unfolding iter_next_rev
iter_next_rev_lem iter k h u l b =
    let bs = iter.array.buckets in
    let cb = iter.current_bucket in
    let used = iter.bits_used_in_current_bucket in
    let words = IsFilled→AllWords bs iter.array.bits_used_in_last_bucket h.1 h.0 in
    let split : (k ≡ 0) ⊎ (((0 < k) × (k ≤ used)) ⊎ ((used < k) × (0 < cb))) = ground arith in
    elim split [
      | inl e ↦ ground (arith, no_bits (value bs / 2 ^ (place iter - k)) k e)
      | inr (inl (p, q)) ↦ ground (
        arith,
        within bs cb (used - k) k words (omega arith)
            ∙ ap (λ (t : ℕ). value bs / 2 ^ t % 2 ^ k) {y = place iter - k} (omega arith),
      )
      | inr (inr (p, q)) ↦ ground (
        arith,
        crossing_back bs cb (cb - 1) used (k - used) words (omega arith) (omega arith) (omega arith)
            ∙ ap₂ (λ (t j : ℕ). value bs / 2 ^ t % 2 ^ j) (shifted k cb used p q l)
                (all_bits k used p),
      )
    ]
  where
    all_bits : (k used : ℕ) → used < k → k - used + used ≡ k
    all_bits k used p = omega arith

    shifted :
        (k cb used : ℕ)
        → used < k
        → 0 < cb
        → k ≤ 64
        → 64 * (cb - 1) + (64 - (k - used)) ≡ 64 * cb + used - k
    shifted k cb used p q l = omega arith

-- An iterator at the end of a value that was appended to `array` returns it, and stands at the end of
-- `array`, whatever was appended after it.
pub read_last :
    (k x : ℕ) (xs : List (ℕ × ℕ)) (array : BitArray) (iter : BitArrayIterator)
    → IsValid array
    → k ≤ 64
    → Narrow xs
    → iter.array ≡ append_all (append array k x) xs
    → place iter ≡ num_bits (append array k x)
    → iter.bits_used_in_current_bucket ≤ 64
    → ((iter_next_rev iter k).0 ≡ x % 2 ^ k)
      × ((iter_next_rev iter k).1.array ≡ iter.array)
      × (place (iter_next_rev iter k).1 ≡ num_bits array)
      × ((iter_next_rev iter k).1.bits_used_in_current_bucket ≤ 64)
read_last k x xs array iter v l n e p u =
    let (v', c, q) = append_lem array k x v l in
    let (w, d, r) = append_all-prefix xs (append array k x) v' n in
    let final = contents (append_all (append array k x) xs) in
    let (a, b, f, g) =
      iter_next_rev_lem iter k (subst IsValid (sym e) w) u l (omega (arith, p, q)) in
    let start : place iter - k ≡ num_bits array = omega (arith, p, q) in
    let found : contents iter.array / 2 ^ (place iter - k) % 2 ^ k ≡ x % 2 ^ k =
      ap₂ (λ t (s : ℕ). contents t / 2 ^ s % 2 ^ k) e start
      ∙ sym (mod_div final (num_bits array) k)
      ∙ ap (λ (t : ℕ). final % 2 ^ t / 2 ^ num_bits array) (sym q)
      ∙ ap (λ (t : ℕ). t / 2 ^ num_bits array) (d ∙ c)
      ∙ div_above (contents array) (x % 2 ^ k) (2 ^ num_bits array)
          (value_below array.buckets array.bits_used_in_last_bucket v.0) in
    (a ∙ found, b, omega (arith, f, p, q), g)

-- An iterator at the end of an array with a bit stands after the last bit.
end_place :
    (buckets : List ℕ) (used : ℕ)
    → IsFilled buckets used
    → 0 < 64 * (length buckets - 1) + used
    → (if length buckets == 0 then 2 ^ 32 - 1 else length buckets - 1) ≡ length buckets - 1
end_place [] used f h = absurd (omega (arith, f))
end_place (b ∷ bs) used f h = ground arith

pub iterator_init_rev-place :
    (array : BitArray)
    → IsValid array
    → 0 < num_bits array
    → place (iterator_init_rev array) ≡ num_bits array
unfolding iterator_init_rev
iterator_init_rev-place array v h =
    omega (arith, end_place array.buckets array.bits_used_in_last_bucket v.0 h)
