-- ===== src/Gorilla/Positions/Laws.antt =====
-- The positions are those of the highest and of the lowest bit.
use timescaledb.Base.{
  ◌⊎◌, inl, inr, ℕ, zero, suc, ◌+◌, ◌-◌, ◌*◌, ◌/◌, ◌%◌, ◌^◌, ◌≤◌, ◌<◌, ◌≡◌, refl, sym, ap, ◌∙◌,
  subst, leb, ltb, ◌==◌, leb→le, ltb→lt, get_or, arith, if◌then◌else◌,
}
use timescaledb.Base.Bits.{bit_and, shr, bit_and_ones, pow_pos, pow_add, pow_split}
use timescaledb.Simple8b.Width.{all_below, at_row}
use timescaledb.Gorilla.Positions.{
  leftmost_one_pos, rightmost_one_pos, leftmost_from, leftmost_one_pos64, rightmost_from,
  rightmost_one_pos64,
}
use native.Mathlib.Nat.{mod-eq_of_lt, mod-lt, div-add-mod}

abbrev left : ℕ → ℕ
left b = get_or leftmost_one_pos b 0

abbrev right : ℕ → ℕ
right b = get_or rightmost_one_pos b 0

left_from : (b : ℕ) → 0 < b → b < 256 → 2 ^ left b ≤ b
unfolding all_below leftmost_one_pos
left_from zero h l = absurd (omega arith)
left_from (suc i) h l =
    leb→le (2 ^ left (suc i)) (suc i)
      (at_row (λ j. leb (2 ^ left (suc j)) (suc j)) 255 i refl (omega arith))

left_to : (b : ℕ) → b < 256 → b < 2 ^ suc (left b)
unfolding all_below leftmost_one_pos
left_to b l = ltb→lt b (2 ^ suc (left b)) (at_row (λ j. ltb j (2 ^ suc (left j))) 256 b refl l)

right_divides : (b : ℕ) → b < 256 → b ≡ b / 2 ^ right b * 2 ^ right b
unfolding all_below rightmost_one_pos
right_divides b l = ground (arith, at_row (λ j. j == (j / 2 ^ right j * 2 ^ right j)) 256 b refl l)

right_small : (b : ℕ) → b < 256 → right b ≤ 8
unfolding all_below rightmost_one_pos
right_small b l = leb→le (right b) 8 (at_row (λ j. leb (right j) 8) 256 b refl l)

abbrev pub IsHighest : ℕ → ℕ → Type 0
IsHighest word p = (2 ^ p ≤ word) × (word < 2 ^ suc p)

-- The byte that a search looks at.
byte_value : (x : ℕ) → bit_and x 255 ≡ x % 256
byte_value x = bit_and_ones 8 x

highest_of_product :
    (word d b r p q : ℕ)
    → word ≡ d * b + r
    → r < d
    → p ≤ b
    → b < q
    → (d * p ≤ word) × (word < d * q)
highest_of_product word d b r p q e h l m = (grind arith, grind arith)

quotient_small : (word d b r : ℕ) → word ≡ d * b + r → word < d * 256 → b < 256
quotient_small word d b r e l = grind arith

byte-IsHighest :
    (word k : ℕ)
    → 0 < word / 2 ^ k
    → word / 2 ^ k < 256
    → IsHighest word (k + left (bit_and (shr word k) 255))
byte-IsHighest word k h l =
    let b = word / 2 ^ k in
    let same : bit_and b 255 ≡ b = byte_value b ∙ mod-eq_of_lt l in
    let (low, high) =
      highest_of_product word (2 ^ k) b (word % 2 ^ k) (2 ^ left b) (2 ^ suc (left b))
        (sym (div-add-mod word (2 ^ k))) (mod-lt word (pow_pos k)) (left_from b h l)
        (left_to b l) in
    subst (λ t. IsHighest word (k + left t)) (sym same)
      (
        subst (λ (t : ℕ). t ≤ word) (sym (pow_add k (left b))) low,
        subst (λ (t : ℕ). word < t)
            (sym (pow_add k (suc (left b))) ∙ ap (λ (t : ℕ). 2 ^ t) (omega arith)) high,
      )

leftmost_from-IsHighest :
    (n word : ℕ) → 0 < word → word < 2 ^ (8 * suc n) → IsHighest word (leftmost_from n word)
unfolding leftmost_from
leftmost_from-IsHighest zero word h l =
    subst (IsHighest word) (omega arith) (byte-IsHighest word 0 (omega arith) (omega arith))
leftmost_from-IsHighest (suc n) word h l =
    let k = 8 * suc n in
    let lower = leftmost_from n word in
    let found = k + left (bit_and (shr word k) 255) in
    let split : (word / 2 ^ k ≡ 0) ⊎ (0 < word / 2 ^ k) = ground arith in
    elim split [
      | inl e ↦
          let t : (if shr word k == 0 then lower else found) ≡ lower = ground arith in
          subst (IsHighest word) (sym t) (
            leftmost_from-IsHighest n word h (
              omega (
                arith,
                div-add-mod word (2 ^ k),
                mod-lt word (pow_pos k),
                ap (λ (t : ℕ). 2 ^ k * t) e,
              )))
      | inr g ↦
          let t : (if shr word k == 0 then lower else found) ≡ found = ground arith in
          subst (IsHighest word) (sym t) (
            byte-IsHighest word k g (
              quotient_small word (2 ^ k) (word / 2 ^ k) (word % 2 ^ k)
                (sym (div-add-mod word (2 ^ k)))
                (subst (λ (t : ℕ). word < t) (pow_split k 8 (8 * suc (suc n)) (omega arith)) l)))
    ]

-- A word that is not 0 has its highest bit at the leftmost position.
pub leftmost_one_pos64_lem :
    (word : ℕ) → 0 < word → word < 2 ^ 64 → IsHighest word (leftmost_one_pos64 word)
unfolding leftmost_one_pos64
leftmost_one_pos64_lem word h l = leftmost_from-IsHighest 7 word h l

abbrev pub Divides : ℕ → ℕ → Type 0
Divides word r = (m : ℕ) × (word ≡ m * 2 ^ r)

byte-Divides : (word : ℕ) → Divides word (right (bit_and word 255))
byte-Divides word =
    let b = word % 256 in
    let r = right b in
    let row = right_divides b (mod-lt word (omega arith)) in
    let eight : 2 ^ 8 ≡ 2 ^ (8 - r) * 2 ^ r =
      pow_split (8 - r) r 8 (omega (arith, right_small b (mod-lt word (omega arith)))) in
    subst (λ t. Divides word (right t)) (sym (byte_value word))
      (
        word / 256 * 2 ^ (8 - r) + b / 2 ^ r,
        omega (arith, row, ap (λ (t : ℕ). word / 256 * t) eight),
      )

higher-Divides : (word r m : ℕ) → word % 256 ≡ 0 → word / 256 ≡ m * 2 ^ r → Divides word (8 + r)
higher-Divides word r m e h =
    (m, omega (arith, e, h, ap (λ (t : ℕ). m * t) (pow_split 8 r (8 + r) (omega arith))))

rightmost_from-Divides : (n word : ℕ) → Divides word (rightmost_from n word)
unfolding rightmost_from
rightmost_from-Divides zero word = byte-Divides word
rightmost_from-Divides (suc n) word =
    let higher = rightmost_from n (shr word 8) in
    let found = right (bit_and word 255) in
    let split : (word % 256 ≡ 0) ⊎ (0 < word % 256) = ground arith in
    elim split [
      | inl e ↦
          let t : (if bit_and word 255 == 0 then 8 + higher else found) ≡ 8 + higher =
            ground (arith, byte_value word) in
          let (m, h) = rightmost_from-Divides n (shr word 8) in
          subst (Divides word) (sym t) (higher-Divides word higher m e h)
      | inr g ↦
          let t : (if bit_and word 255 == 0 then 8 + higher else found) ≡ found =
            ground (arith, byte_value word) in
          subst (Divides word) (sym t) (byte-Divides word)
    ]

-- A word is a multiple of the power of two at its rightmost position.
pub rightmost_one_pos64_lem : (word : ℕ) → Divides word (rightmost_one_pos64 word)
unfolding rightmost_one_pos64
rightmost_one_pos64_lem word = rightmost_from-Divides 7 word
