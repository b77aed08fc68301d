-- ===== src/Simple8b/Width.antt =====
-- The tables of tsl/src/compression/simple8b_rle.h: how many values of which width a selector packs.
use timescaledb.Base.{
  ◌⊎◌, inl, inr, ℕ, zero, suc, ◌+◌, ◌-◌, ◌*◌, ◌%◌, ◌^◌, ◌≤◌, ◌<◌, ◌≡◌, refl, sym, ap, ◌∙◌, subst,
  Bool, true, ◌&&◌, leb, leb→le, arith,
}
use timescaledb.Base.Bits.{shl64_fits, pow_pos, bit_and, bit_and_ones}
use timescaledb.Simple8b.{num_elements, bit_length, selector_get_bitmask}
use native.Mathlib.Nat.{two-pow-succ, pow-le-pow_right}

unfoldable pub all_below : (ℕ → Bool) → ℕ → Bool
all_below test zero = true
all_below test (suc n) = test n && all_below test n

-- A test of a table that holds at each of the first `n` rows.
pub at_row : (test : ℕ → Bool) (n i : ℕ) → all_below test n ≡ true → i < n → test i ≡ true
unfolding all_below
at_row test zero i h l = absurd (omega arith)
at_row test (suc n) i h l =
    let split : (i ≡ n) ⊎ (i < n) = ground arith in
    elim split [ inl e ↦ ap test e ∙ ground arith | inr m ↦ at_row test n i (ground arith) m ]

-- What a packing selector holds fits into a word.
pub word_fits : (s : ℕ) → 1 ≤ s → s ≤ 14 → bit_length s * num_elements s ≤ 64
unfolding bit_length num_elements all_below
word_fits zero h l = absurd (omega arith)
word_fits (suc i) h l =
    leb→le (bit_length (suc i) * num_elements (suc i)) 64
      (at_row (λ j. leb (bit_length (suc j) * num_elements (suc j)) 64) 14 i refl (omega arith))

pub holds_some : (s : ℕ) → 1 ≤ s → s ≤ 14 → 1 ≤ num_elements s
unfolding num_elements all_below
holds_some zero h l = absurd (omega arith)
holds_some (suc i) h l =
    leb→le 1 (num_elements (suc i))
      (at_row (λ j. leb 1 (num_elements (suc j))) 14 i refl (omega arith))

pub narrow : (s : ℕ) → s ≤ 14 → bit_length s ≤ 64
unfolding bit_length all_below
narrow s l = leb→le (bit_length s) 64 (at_row (λ j. leb (bit_length j) 64) 15 s refl (omega arith))

wider_next : (s : ℕ) → s ≤ 13 → bit_length s ≤ bit_length (s + 1)
unfolding bit_length all_below
wider_next s l =
    leb→le (bit_length s) (bit_length (s + 1))
      (at_row (λ j. leb (bit_length j) (bit_length (j + 1))) 14 s refl (omega arith))

fewer_next : (s : ℕ) → 1 ≤ s → s ≤ 13 → num_elements (s + 1) ≤ num_elements s
unfolding num_elements all_below
fewer_next zero h l = absurd (omega arith)
fewer_next (suc i) h l =
    leb→le (num_elements (suc i + 1)) (num_elements (suc i))
      (at_row (λ j. leb (num_elements (suc j + 1)) (num_elements (suc j))) 13 i refl (omega arith))

-- A higher selector has wider values.
pub wider : (s t : ℕ) → s ≤ t → t ≤ 14 → bit_length s ≤ bit_length t
wider s zero h l = subst (λ x. bit_length x ≤ bit_length 0) {x = 0} (omega arith) (omega arith)
wider s (suc t) h l =
    let split : (s ≡ suc t) ⊎ (s ≤ t) = ground arith in
    elim split [
      | inl e ↦ subst (λ x. bit_length x ≤ bit_length (suc t)) (sym e) (omega arith)
      | inr m ↦ omega (
        arith,
        wider s t m (omega arith),
        wider_next t (omega arith),
        ap bit_length {x = t + 1} {y = suc t} (omega arith),
      )
    ]

-- A higher selector has fewer of them.
pub fewer : (s t : ℕ) → 1 ≤ s → s ≤ t → t ≤ 14 → num_elements t ≤ num_elements s
fewer s zero p h l = absurd (omega arith)
fewer s (suc t) p h l =
    let split : (s ≡ suc t) ⊎ (s ≤ t) = ground arith in
    elim split [
      | inl e ↦ subst (λ x. num_elements (suc t) ≤ num_elements x) (sym e) (omega arith)
      | inr m ↦ omega (
        arith,
        fewer s t p m (omega arith),
        fewer_next t (omega arith) (omega arith),
        ap num_elements {x = t + 1} {y = suc t} (omega arith),
      )
    ]

-- The mask of a selector is that many ones.
pub selector_get_bitmask_lem : (s : ℕ) → s ≤ 14 → selector_get_bitmask s ≡ 2 ^ bit_length s - 1
unfolding selector_get_bitmask
selector_get_bitmask_lem s l =
    let split : (bit_length s < 64) ⊎ (bit_length s ≡ 64) = ground (arith, narrow s l) in
    elim split [
      | inl m ↦ ground (
        arith,
        shl64_fits 1 (bit_length s) (suc (63 - bit_length s))
            (omega (arith, two-pow-succ (63 - bit_length s), pow_pos (63 - bit_length s)))
            (omega arith),
      )
      | inr e ↦ ground (arith, ap (λ (t : ℕ). 2 ^ t) e)
    ]

pub mask_value : (x s : ℕ) → s ≤ 14 → bit_and x (selector_get_bitmask s) ≡ x % 2 ^ bit_length s
mask_value x s l = ap (bit_and x) (selector_get_bitmask_lem s l) ∙ bit_and_ones (bit_length s) x

pub width_mono : (s t x : ℕ) → s ≤ t → t ≤ 14 → x < 2 ^ bit_length s → x < 2 ^ bit_length t
width_mono s t x h l b = omega (arith, pow-le-pow_right {n = 2} (omega arith) (wider s t h l))
