-- ===== src/BitArray/Read.antt =====
-- Reading from a bit array gives the bits at the iterator's position.
use timescaledb.Base.{
  ◌⊎◌, inl, inr, ℕ, ◌+◌, ◌-◌, ◌*◌, ◌/◌, ◌%◌, ◌^◌, ◌≤◌, ◌<◌, ◌≡◌, sym, ap, ap₂, ◌∙◌, subst, List, [],
  ◌∷◌, get_or, arith,
}
use timescaledb.Base.Bits.{
  bit_and, bit_or, bit_or_above, pow_pos, pow_add, shl64, shl64_fits, shr, shr_shr, mod_product,
  div_above, mod_above,
}
use timescaledb.BitArray.{BitArray, BitArrayIterator, iter_next, low_bits_mask}
use timescaledb.BitArray.Value.{value, get_or-value, num_bits, masked, AllWords}
use timescaledb.BitArray.Append.{IsFilled, IsValid, contents}
use native.Mathlib.Nat.{mod-lt, pow-le-pow_right}

pub IsFilled→AllWords : (bs : List ℕ) (used : ℕ) → used ≤ 64 → IsFilled bs used → AllWords bs
IsFilled→AllWords [] used h f = tt
IsFilled→AllWords (b ∷ []) used h f = (omega (arith, pow-le-pow_right {n = 2} (omega arith) h), tt)
IsFilled→AllWords (b ∷ c ∷ bs) used h f = (f.0, IsFilled→AllWords (c ∷ bs) used h f.1)

mod_pow : (y u r : ℕ) → y % 2 ^ (u + r) ≡ y % 2 ^ u + 2 ^ u * (y / 2 ^ u % 2 ^ r)
mod_pow y u r =
    ap (λ (t : ℕ). y % t) (pow_add u r) ∙ mod_product y (2 ^ u) (2 ^ r) (pow_pos u) (pow_pos r)

mod_pow_swapped : (y u r : ℕ) → y % 2 ^ (u + r) ≡ y % 2 ^ u + y / 2 ^ u % 2 ^ r * 2 ^ u
mod_pow_swapped y u r = omega (arith, mod_pow y u r)

pub mod_div : (y u r : ℕ) → y % 2 ^ (u + r) / 2 ^ u ≡ y / 2 ^ u % 2 ^ r
mod_div y u r =
    ap (λ (t : ℕ). t / 2 ^ u) (mod_pow_swapped y u r)
    ∙ div_above (y % 2 ^ u) (y / 2 ^ u % 2 ^ r) (2 ^ u) (mod-lt y (pow_pos u))

pub mod_mod : (y k j : ℕ) → y % 2 ^ (k + j) % 2 ^ k ≡ y % 2 ^ k
mod_mod y k j =
    ap (λ (t : ℕ). t % 2 ^ k) (mod_pow_swapped y k j)
    ∙ mod_above (y % 2 ^ k) (y / 2 ^ k % 2 ^ j) (2 ^ k) (mod-lt y (pow_pos k))

-- What is left of a bucket.
rest_of_bucket :
    (bs : List ℕ) (cb used r : ℕ)
    → AllWords bs
    → used + r ≡ 64
    → shr (get_or bs cb 0) used ≡ value bs / 2 ^ (64 * cb + used) % 2 ^ r
rest_of_bucket bs cb used r h e =
    ap (λ (t : ℕ). t / 2 ^ used) (get_or-value bs cb h)
    ∙ ap (λ (t : ℕ). value bs / 2 ^ (64 * cb) % 2 ^ t / 2 ^ used) (sym e)
    ∙ mod_div (value bs / 2 ^ (64 * cb)) used r
    ∙ ap (λ (t : ℕ). t % 2 ^ r) (shr_shr (value bs) (64 * cb) used)

pub within :
    (bs : List ℕ) (cb used k : ℕ)
    → AllWords bs
    → used + k ≤ 64
    → bit_and (shr (get_or bs cb 0) used) (low_bits_mask k)
      ≡ value bs / 2 ^ (64 * cb + used) % 2 ^ k
within bs cb used k h l =
    masked (shr (get_or bs cb 0) used) k (omega arith)
    ∙ ap (λ (t : ℕ). t % 2 ^ k) (rest_of_bucket bs cb used (k + (64 - used - k)) h (omega arith))
    ∙ mod_mod (value bs / 2 ^ (64 * cb + used)) k (64 - used - k)

-- The first `n` bits of the next bucket.
next_bits :
    (bs : List ℕ) (cb n : ℕ)
    → AllWords bs
    → n ≤ 64
    → bit_and (get_or bs (cb + 1) 0) (low_bits_mask n) ≡ value bs / 2 ^ (64 * (cb + 1)) % 2 ^ n
next_bits bs cb n h l =
    masked (get_or bs (cb + 1) 0) n l
    ∙ ap (λ (t : ℕ). t % 2 ^ n) (get_or-value bs (cb + 1) h)
    ∙ ap (λ (t : ℕ). value bs / 2 ^ (64 * (cb + 1)) % 2 ^ t % 2 ^ n) {x = 64} (omega arith)
    ∙ mod_mod (value bs / 2 ^ (64 * (cb + 1))) n (64 - n)

pub across :
    (bs : List ℕ) (cb used r n low : ℕ)
    → AllWords bs
    → used + r ≡ 64
    → r + n ≤ 64
    → low ≡ value bs / 2 ^ (64 * cb + used) % 2 ^ r
    → bit_or low (shl64 (bit_and (get_or bs (cb + 1) 0) (low_bits_mask n)) r)
      ≡ value bs / 2 ^ (64 * cb + used) % 2 ^ (r + n)
across bs cb used r n low h e l d =
    ap₂ bit_or d (
      ap (λ (t : ℕ). shl64 t r) upper
      ∙ shl64_fits (z / 2 ^ r % 2 ^ n) r n (mod-lt (z / 2 ^ r) (pow_pos n)) (omega arith))
    ∙ bit_or_above r (z % 2 ^ r) (z / 2 ^ r % 2 ^ n) (mod-lt z (pow_pos r))
    ∙ sym (mod_pow_swapped z r n)
  where
    z : ℕ
    z = value bs / 2 ^ (64 * cb + used)

    upper : bit_and (get_or bs (cb + 1) 0) (low_bits_mask n) ≡ z / 2 ^ r % 2 ^ n
    upper =
        next_bits bs cb n h (omega arith)
        ∙ ap (λ (t : ℕ). value bs / 2 ^ t % 2 ^ n) {y = 64 * cb + used + r} (omega arith)
        ∙ ap (λ (t : ℕ). t % 2 ^ n) (sym (shr_shr (value bs) (64 * cb + used) r))

crossing :
    (bs : List ℕ) (cb used k low : ℕ)
    → AllWords bs
    → used ≤ 64
    → 64 - used ≤ k
    → k ≤ 64
    → low ≡ value bs / 2 ^ (64 * cb + used) % 2 ^ (64 - used)
    → bit_or low
        (shl64 (bit_and (get_or bs (cb + 1) 0) (low_bits_mask (k - (64 - used)))) (64 - used))
      ≡ value bs / 2 ^ (64 * cb + used) % 2 ^ k
crossing bs cb used k low h u m l d =
    across bs cb used (64 - used) (k - (64 - used)) low h (omega arith) (omega arith) d
    ∙ ap (λ (t : ℕ). value bs / 2 ^ (64 * cb + used) % 2 ^ t) {y = k} (omega arith)

nothing_left : (y used : ℕ) → used ≡ 64 → 0 ≡ y % 2 ^ (64 - used)
nothing_left y used e = subst (λ (t : ℕ). 0 ≡ y % 2 ^ (64 - t)) (sym e) (omega arith)

pub no_bits : (y k : ℕ) → k ≡ 0 → 0 ≡ y % 2 ^ k
no_bits y k e = subst (λ (t : ℕ). 0 ≡ y % 2 ^ t) (sym e) (omega arith)

abbrev pub place : BitArrayIterator → ℕ
place iter = 64 * iter.current_bucket + iter.bits_used_in_current_bucket

iterator : BitArray → ℕ → ℕ → BitArrayIterator
iterator array cb used = record {
  array = array;
  bits_used_in_current_bucket = used;
  current_bucket = cb;
}

-- What a read of `k` bits returns, and the iterator it leaves.
abbrev IsRead : BitArrayIterator → ℕ → ℕ × BitArrayIterator → Type 0
IsRead iter k (x, next) =
    (x ≡ contents iter.array / 2 ^ place iter % 2 ^ k)
    × (next.array ≡ iter.array)
    × (place next ≡ place iter + k)
    × (next.bits_used_in_current_bucket ≤ 64)

-- Reading `k` bits inside a valid array returns the bits that stand at the iterator's place, and
-- moves the iterator over them.
pub iter_next_lem :
    (iter : BitArrayIterator) (k : ℕ)
    → IsValid iter.array
    → iter.bits_used_in_current_bucket ≤ 64
    → k ≤ 64
    → place iter + k ≤ num_bits iter.array
    → IsRead iter k (iter_next iter k)
unfolding iter_next
iter_next_lem iter k h u l b =
    let bs = iter.array.buckets in
    let cb = iter.current_bucket in
    let used = iter.bits_used_in_current_bucket in
    let words = IsFilled→AllWords bs iter.array.bits_used_in_last_bucket h.1 h.0 in
    let split : (k ≡ 0)
        ⊎ (((0 < k) × (used + k ≤ 64))
            ⊎ ((64 < used + k) × (used < 64))
            ⊎ ((0 < k) × (used ≡ 64))) =
      ground arith in
    elim split [
      | inl e ↦ ground (arith, no_bits (value bs / 2 ^ (64 * cb + used)) k e)
      | inr (inl (p, q)) ↦ ground (arith, within bs cb used k words q)
      | inr (inr (inl (p, q))) ↦ ground (
        arith,
        crossing bs cb used k (shr (get_or bs cb 0) used) words u (omega arith) l
            (rest_of_bucket bs cb used (64 - used) words (omega arith)),
      )
      | inr (inr (inr (p, q))) ↦ ground (
        arith,
        crossing bs cb used k 0 words u (omega arith) l
            (nothing_left (value bs / 2 ^ (64 * cb + used)) used q),
      )
    ]
