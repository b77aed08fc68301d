-- ===== src/BitArray/Value.antt =====
-- A bit array stands for a number and a count of bits.
use timescaledb.Base.{
  ◌⊎◌, inl, inr, subst, ℕ, zero, suc, ◌+◌, ◌-◌, ◌*◌, ◌/◌, ◌%◌, ◌^◌, ◌≤◌, ◌<◌, ◌≡◌, refl, sym, ap,
  ◌∙◌, List, [], ◌∷◌, ◌++◌, length, get_or, arith,
}
use timescaledb.Base.Bits.{
  bit_and, bit_and_ones, pow_pos, pow_add, div_above, mod_above, shl64_fits,
}
use timescaledb.BitArray.{BitArray, low_bits_mask}
use native.Mathlib.Nat.{two-pow-succ, div-div-eq-div-mul, div-eq_of_lt}

abbrev pub word : ℕ
word = 2 ^ 64

-- The lowest bucket first.
abbrev pub value : List ℕ → ℕ
value [] = 0
value (b ∷ bs) = b + value bs * word

abbrev pub AllWords : List ℕ → Type 0
AllWords [] = Unit
AllWords (b ∷ bs) = (b < word) × AllWords bs

-- All buckets are full but the last, which holds `used` bits.
abbrev pub num_bits : BitArray → ℕ
num_bits array = 64 * (length array.buckets - 1) + array.bits_used_in_last_bucket

pub value-append : (bs cs : List ℕ) → value (bs ++ cs) ≡ value bs + value cs * 2 ^ (64 * length bs)
value-append [] cs = omega arith
value-append (b ∷ bs) cs =
    omega (arith, value-append bs cs, ap (λ (t : ℕ). value cs * t) (power (length bs)))
  where
    power : (n : ℕ) → 2 ^ (64 * suc n) ≡ 2 ^ (64 * n) * word
    power n = ap (λ (t : ℕ). 2 ^ t) (omega arith) ∙ pow_add (64 * n) 64

zero_part : (d : ℕ) → 0 < d → 0 / d % word ≡ 0
zero_part d h = ap (λ (t : ℕ). t % word) (div-eq_of_lt h)

-- A bucket is a digit of the value.
pub get_or-value :
    (bs : List ℕ) (i : ℕ) → AllWords bs → get_or bs i 0 ≡ value bs / 2 ^ (64 * i) % word
get_or-value [] i h = sym (zero_part (2 ^ (64 * i)) (pow_pos (64 * i)))
get_or-value (b ∷ bs) zero h = sym (mod_above b (value bs) word h.0) ∙ omega arith
get_or-value (b ∷ bs) (suc i) h = get_or-value bs i h.1 ∙ ap (λ (t : ℕ). t % word) (shifted)
  where
    shifted : value bs / 2 ^ (64 * i) ≡ (b + value bs * word) / 2 ^ (64 * suc i)
    shifted =
        ap (λ (t : ℕ). t / 2 ^ (64 * i)) (sym (div_above b (value bs) word h.0))
        ∙ div-div-eq-div-mul (b + value bs * word) word (2 ^ (64 * i))
        ∙ ap (λ (t : ℕ). (b + value bs * word) / t)
            (sym (pow_add 64 (64 * i)) ∙ ap (λ (t : ℕ). 2 ^ t) (omega arith))

short_mask : (k : ℕ) → k < 64 → low_bits_mask k ≡ 2 ^ k - 1
unfolding low_bits_mask
short_mask k h = ground (
  arith,
  shl64_fits 1 k (suc (63 - k)) (omega (arith, two-pow-succ (63 - k), pow_pos (63 - k)))
      (omega arith),
)

full_mask : low_bits_mask 64 ≡ 2 ^ 64 - 1
unfolding low_bits_mask
full_mask = refl

pub low_bits_mask_lem : (k : ℕ) → k ≤ 64 → low_bits_mask k ≡ 2 ^ k - 1
low_bits_mask_lem k h =
    let last : (k < 64) ⊎ (k ≡ 64) = ground arith in
    elim last [
      | inl l ↦ short_mask k l
      | inr e ↦ subst (λ (t : ℕ). low_bits_mask t ≡ 2 ^ t - 1) (sym e) full_mask
    ]

pub masked : (bits k : ℕ) → k ≤ 64 → bit_and bits (low_bits_mask k) ≡ bits % 2 ^ k
masked bits k h = ap (bit_and bits) (low_bits_mask_lem k h) ∙ bit_and_ones k bits
