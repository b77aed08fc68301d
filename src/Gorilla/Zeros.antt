-- ===== src/Gorilla/Zeros.antt =====
-- The zeros around a xor in tsl/src/compression/gorilla.c: the sizes in effect leave no digit of a xor out,
-- so that what is stored of it restores the value.
use timescaledb.Base.{
  ◌⊎◌, inl, inr, ℕ, zero, suc, ◌+◌, ◌-◌, ◌*◌, ◌/◌, ◌^◌, ◌≤◌, ◌<◌, ◌≡◌, sym, ap, ◌∙◌, subst,
  if◌then◌else◌, ltb, leb, leb→le, arith, Bool, true,
}
use timescaledb.Base.Bits.{
  bit_xor, bit_xor_twice, shl64, shl64_fits, shr, pow_pos, pow_split, div_above,
}
use timescaledb.Gorilla.{GorillaCompressor, leading_of, trailing_of, reuses}
use timescaledb.Gorilla.Positions.{leftmost_one_pos64, rightmost_one_pos64}
use timescaledb.Gorilla.Positions.Laws.{leftmost_one_pos64_lem, rightmost_one_pos64_lem}
use native.Mathlib.Nat.{pow-le-pow_right}

abbrev pub undo : ℕ → ℕ → ℕ → ℕ → ℕ
undo v l n w = bit_xor v (if ltb (l + n) 64 then shl64 w (64 - (l + n)) else w)

-- A xor has so many zeros on both sides, at least.
abbrev pub HasZeros : ℕ → ℕ → ℕ → Type 0
HasZeros xor l t = (l + t ≤ 64) × (xor < 2 ^ (64 - l)) × ((m : ℕ) × (xor ≡ m * 2 ^ t))

cancel : (m d p : ℕ) → m * d < p * d → m < p
cancel m d p h = grind arith

shifted_back :
    (w l t n : ℕ)
    → l + t ≤ 64
    → n ≡ 64 - (l + t)
    → w < 2 ^ n
    → (if ltb (l + n) 64 then shl64 w (64 - (l + n)) else w) ≡ w * 2 ^ t
shifted_back w l zero n s f b = ground (arith)
shifted_back w l (suc t) n s f b =
    let k : 64 - (l + n) ≡ suc t = omega arith in
    let below : ltb (l + n) 64 ≡ true = ground arith in
    ap (λ b. if b then shl64 w (64 - (l + n)) else w) below
    ∙ ap (shl64 w) k
    ∙ shl64_fits w (suc t) n b (omega arith)

-- What is stored of a xor restores the value.
pub restores :
    (v x l t n : ℕ)
    → v < 2 ^ 64
    → x < 2 ^ 64
    → HasZeros (bit_xor v x) l t
    → n ≡ 64 - (l + t)
    → (undo v l n (shr (bit_xor v x) t) ≡ x) × (shr (bit_xor v x) t < 2 ^ n)
restores v x l t n h k (s, b, (m, e)) f =
    let quotient : shr (bit_xor v x) t ≡ m =
      ap (λ (y : ℕ). y / 2 ^ t) {y = 0 + m * 2 ^ t} (omega (arith, e))
      ∙ div_above 0 m (2 ^ t) (pow_pos t) in
    let below : m < 2 ^ n =
      cancel m (2 ^ t) (2 ^ n) (omega (arith, e, b, pow_split n t (64 - l) (omega arith))) in
    (
      ap (undo v l n) quotient
          ∙ ap (bit_xor v) (shifted_back m l t n s f below ∙ sym e)
          ∙ bit_xor_twice 64 v x h k,
      subst (λ (y : ℕ). y < 2 ^ n) (sym quotient) below,
    )

exponent_below : (p q w : ℕ) → 2 ^ p ≤ w → w < 2 ^ q → p < q
exponent_below p q w h l =
    let split : (p < q) ⊎ (q ≤ p) = ground arith in
    elim split [
      | inl e ↦ e
      | inr e ↦ absurd (omega (arith, pow-le-pow_right {n = 2} (omega arith) e))
    ]

divisor_below : (xor m r : ℕ) → 0 < xor → xor ≡ m * 2 ^ r → 2 ^ r ≤ xor
divisor_below xor zero r h e = absurd (omega arith)
divisor_below xor (suc m) r h e = grind arith

pub leading_trailing : (xor : ℕ) → xor < 2 ^ 64 → HasZeros xor (leading_of xor) (trailing_of xor)
unfolding leading_of trailing_of
leading_trailing zero h = (omega arith, omega arith, (0, omega arith))
leading_trailing (suc i) h =
    let p = leftmost_one_pos64 (suc i) in
    let r = rightmost_one_pos64 (suc i) in
    let (low, high) = leftmost_one_pos64_lem (suc i) (omega arith) h in
    let (m, e) = rightmost_one_pos64_lem (suc i) in
    let few : p < 64 = exponent_below p 64 (suc i) low h in
    let fewer : r < suc p =
      exponent_below r (suc p) (suc i) (divisor_below (suc i) m r (omega arith) e) high in
    let width : suc p ≡ 64 - (63 - p) = omega arith in
    let leads : leading_of (suc i) ≡ 63 - p = ground arith in
    let trails : trailing_of (suc i) ≡ r = ground arith in
    let zeros : HasZeros (suc i) (63 - p) r =
      (omega arith, subst (λ k. suc i < 2 ^ k) width high, (m, e)) in
    subst (λ l. HasZeros (suc i) l (trailing_of (suc i))) (sym leads)
      (subst (λ t. HasZeros (suc i) (63 - p) t) (sym trails) zeros)

-- Fewer zeros on each side are zeros of the xor too.
fewer_zeros : (xor l t k s : ℕ) → HasZeros xor l t → k ≤ l → s ≤ t → HasZeros xor k s
fewer_zeros xor l t k s (b, h, (m, e)) f g =
    let larger : 64 - l ≤ 64 - k = omega (arith, f) in
    (
      omega arith,
      omega (arith, h, pow-le-pow_right {n = 2} (omega arith) larger),
      (
        m * 2 ^ (t - s),
        omega (arith, e, ap (λ (x : ℕ). m * x) (pow_split (t - s) s t (omega arith))),
      ),
    )

-- Where the sizes in effect are reused, they leave no digit out.
pub reuses-HasZeros :
    (c : GorillaCompressor) (has_values : Bool) (xor : ℕ)
    → xor < 2 ^ 64
    → reuses c has_values (leading_of xor) (trailing_of xor) ≡ true
    → HasZeros xor c.prev_leading_zeroes c.prev_trailing_zeros
unfolding reuses
reuses-HasZeros c has_values xor h r =
    let leads : leb c.prev_leading_zeroes (leading_of xor) ≡ true = ground arith in
    let trails : leb c.prev_trailing_zeros (trailing_of xor) ≡ true = ground arith in
    fewer_zeros xor (leading_of xor) (trailing_of xor) c.prev_leading_zeroes c.prev_trailing_zeros
      (leading_trailing xor h) (leb→le c.prev_leading_zeroes (leading_of xor) leads)
      (leb→le c.prev_trailing_zeros (trailing_of xor) trails)
