-- ===== src/Base/Bits.antt =====
-- Words of 64 bits as numbers, and the bit operations as arithmetic, at every width.
use Prim.Native.Nat.{
  ℕ, zero, suc, ◌+◌, ◌-◌, ◌*◌, ◌/◌, ◌%◌, ◌^◌, ◌≤◌, ◌<◌, min, max, digits, bitwise, bit_and-bitwise,
  bit_or-bitwise, bit_xor-bitwise, differ,
}
use mathlib.Core.Path.{◌≡◌, refl, ap, ap₂, ◌∙◌, sym}
use native.Mathlib.Omega.{arith}
use native.Mathlib.Nat.{
  add-zero, add-suc, two-pow-succ, one-le-pow, mod-eq_of_lt, add-mul-mod_self_right,
  add-mul-div_right, div-add-mod, mod-lt, div-eq_of_lt, pow-le-pow_right, div-div-eq-div-mul,
}
pub use Prim.Native.Nat.{bit_and, bit_or, bit_xor}

-- x << k and x >> k of a uint64.
abbrev pub shl64 : ℕ → ℕ → ℕ
shl64 x k = x * 2 ^ k % 2 ^ 64

abbrev pub shr : ℕ → ℕ → ℕ
shr x k = x / 2 ^ k

-- The meaning of a bit operation at its lowest digit.
module _ (z : ℕ → ℕ) (f : ℕ → ℕ → ℕ) where
  more_fuel : (n m a b : ℕ) → a ≤ n → a ≤ m → digits z f n a b ≡ digits z f m a b
  more_fuel zero zero a b p q = refl
  more_fuel (suc n) zero zero b p q = refl
  more_fuel zero (suc m) zero b p q = refl
  more_fuel (suc n) (suc m) zero b p q = refl
  more_fuel zero (suc m) (suc a) b p q = absurd (omega arith)
  more_fuel (suc n) zero (suc a) b p q = absurd (omega arith)
  more_fuel (suc n) (suc m) (suc a) b p q =
      ap (λ (t : ℕ). t * 2 + f (suc a % 2) (b % 2))
        (more_fuel n m (suc a / 2) (b / 2) (omega arith) (omega arith))

  low_digit :
      (b a : ℕ)
      → f (suc a % 2) (b % 2) + 2 * bitwise z f (suc a / 2) (b / 2) ≡ bitwise z f (suc a) b
  low_digit b a =
      omega (arith, more_fuel (suc a / 2) a (suc a / 2) (b / 2) (omega arith) (omega arith))

or_digit : (a b : ℕ) → bit_or a b ≡ bit_or (a / 2) (b / 2) * 2 + max (a % 2) (b % 2)
or_digit zero b = simp bit_or-bitwise (omega arith)
or_digit (suc a) b = simp bit_or-bitwise (omega (arith, low_digit (λ y. y) max b a))

and_digit : (a b : ℕ) → bit_and a b ≡ bit_and (a / 2) (b / 2) * 2 + min (a % 2) (b % 2)
and_digit zero b = simp bit_and-bitwise (omega arith)
and_digit (suc a) b = simp bit_and-bitwise (omega (arith, low_digit (λ y. 0) min b a))

xor_digit : (a b : ℕ) → bit_xor a b ≡ bit_xor (a / 2) (b / 2) * 2 + differ (a % 2) (b % 2)
xor_digit zero b = simp bit_xor-bitwise (omega arith)
xor_digit (suc a) b = simp bit_xor-bitwise (omega (arith, low_digit (λ y. y) differ b a))

pub pow_pos : (k : ℕ) → 1 ≤ 2 ^ k
pow_pos k = one-le-pow k 2 (omega arith)

pub pow_add : (m n : ℕ) → 2 ^ (m + n) ≡ 2 ^ m * 2 ^ n
pow_add m zero = rw add-zero (omega arith)
pow_add m (suc n) =
    rw add-suc
      (omega (arith, two-pow-succ (m + n), ap (λ (t : ℕ). 2 ^ m * t) (two-pow-succ n), pow_add m n))

pub pow_split : (m n k : ℕ) → m + n ≡ k → 2 ^ k ≡ 2 ^ m * 2 ^ n
pow_split m n k h = ap (λ (t : ℕ). 2 ^ t) (sym h) ∙ pow_add m n

half_pow : (k : ℕ) → (2 ^ suc k - 1) / 2 ≡ 2 ^ k - 1
half_pow k = omega (arith, two-pow-succ k, pow_pos k)

-- An operation on a number and zero, whose digits are all zeros or those of the number.
module _ (op : ℕ → ℕ → ℕ) (start : op 0 0 ≡ 0) where
  kills : ((a : ℕ) → op a 0 ≡ 2 * op (a / 2) 0) → (size : ℕ) (a : ℕ) → a ≤ size → op a 0 ≡ 0
  kills step size zero h = start
  kills step zero (suc a) h = absurd (omega arith)
  kills step (suc size) (suc a) h =
      omega (arith, step (suc a), kills step size (suc a / 2) (omega arith))

  keeps : ((a : ℕ) → op a 0 ≡ a % 2 + 2 * op (a / 2) 0) → (size : ℕ) (a : ℕ) → a ≤ size → op a 0 ≡ a
  keeps step size zero h = start
  keeps step zero (suc a) h = absurd (omega arith)
  keeps step (suc size) (suc a) h =
      omega (arith, step (suc a), keeps step size (suc a / 2) (omega arith))

bit_and-zero : (a : ℕ) → bit_and a 0 ≡ 0
bit_and-zero a = kills bit_and refl (λ x. omega (arith, and_digit x 0)) a a (omega arith)

differ_zero : (d : ℕ) → differ d 0 ≡ d
differ_zero zero = refl
differ_zero (suc d) = refl

pub bit_xor-zero : (a : ℕ) → bit_xor a 0 ≡ a
bit_xor-zero a =
    keeps bit_xor refl (λ x. omega (arith, xor_digit x 0, differ_zero (x % 2))) a a (omega arith)

below_product : (b d r m : ℕ) → b < r → d < m → b + r * d < r * m
below_product b d r m h k = grind arith

-- The remainder by a product, digit by digit.
pub mod_product : (y r m : ℕ) → 0 < r → 0 < m → y % (r * m) ≡ y % r + r * (y / r % m)
mod_product y r m h k =
    ap (λ (t : ℕ). t % (r * m)) whole
    ∙ add-mul-mod_self_right (y % r + r * (y / r % m)) (y / r / m) (r * m)
    ∙ mod-eq_of_lt (below_product (y % r) (y / r % m) r m (mod-lt y h) (mod-lt (y / r) k))
  where
    whole : y ≡ y % r + r * (y / r % m) + y / r / m * (r * m)
    whole = omega (arith, div-add-mod y r, ap (λ (t : ℕ). r * t) (div-add-mod (y / r) m))

mod_two_pow : (k a : ℕ) → a % 2 ^ suc k ≡ a % 2 + a / 2 % 2 ^ k * 2
mod_two_pow k a =
    ap (λ (t : ℕ). a % t) (omega (arith, two-pow-succ k))
    ∙ mod_product a 2 (2 ^ k) (omega arith) (pow_pos k)
    ∙ omega arith

ones_odd : (k : ℕ) → (2 ^ suc k - 1) % 2 ≡ 1
ones_odd k = omega (arith, two-pow-succ k, pow_pos k)

-- A mask of `k` ones keeps the remainder by 2 ^ k.
pub bit_and_ones : (k a : ℕ) → bit_and a (2 ^ k - 1) ≡ a % 2 ^ k
bit_and_ones zero a = bit_and-zero a ∙ omega arith
bit_and_ones (suc k) a = omega (
  arith,
  and_digit a (2 ^ suc k - 1),
  ap (bit_and (a / 2)) (half_pow k),
  bit_and_ones k (a / 2),
  ones_odd k,
  mod_two_pow k a,
)

double_pow : (v k : ℕ) → v * 2 ^ suc k ≡ 2 * (v * 2 ^ k)
double_pow v k = omega (arith, ap (λ (t : ℕ). v * t) (two-pow-succ k))

-- A value above the bits of another is added by `|`.
pub bit_or_above : (k x v : ℕ) → x < 2 ^ k → bit_or x (v * 2 ^ k) ≡ x + v * 2 ^ k
bit_or_above zero x v h =
    let e : x ≡ 0 = omega arith in
    let below : bit_or 0 (v * 2 ^ 0) ≡ v * 2 ^ 0 = bit_or-bitwise 0 (v * 2 ^ 0) in
    ap (λ t. bit_or t (v * 2 ^ 0)) e ∙ below ∙ omega arith
bit_or_above (suc k) x v h = omega (
  arith,
  or_digit x (v * 2 ^ suc k),
  ap (bit_or (x / 2)) (half_of v k),
  bit_or_above k (x / 2) v (omega (arith, two-pow-succ k)),
  double_pow v k,
)
  where
    half_of : (v k : ℕ) → v * 2 ^ suc k / 2 ≡ v * 2 ^ k
    half_of v k = omega (arith, double_pow v k)

commutes : (size a b : ℕ) → a ≤ size → b ≤ size → bit_or a b ≡ bit_or b a
commutes zero a b h l = let e : a ≡ b = omega arith in ap₂ bit_or e (sym e)
commutes (suc size) a b h l =
    omega
      (arith, or_digit a b, or_digit b a, commutes size (a / 2) (b / 2) (omega arith) (omega arith))

pub bit_or_comm : (a b : ℕ) → bit_or a b ≡ bit_or b a
bit_or_comm a b = commutes (a + b) a b (omega arith) (omega arith)

-- Exclusive or with ones is the complement.
pub bit_xor_ones : (k x : ℕ) → x < 2 ^ k → bit_xor x (2 ^ k - 1) ≡ 2 ^ k - 1 - x
bit_xor_ones zero x h = bit_xor-zero x ∙ omega arith
bit_xor_ones (suc k) x h = omega (
  arith,
  xor_digit x (2 ^ suc k - 1),
  ap (bit_xor (x / 2)) (half_pow k),
  bit_xor_ones k (x / 2) (omega (arith, two-pow-succ k)),
  ap (differ (x % 2)) (ones_odd k),
  differ_one (x % 2) (omega arith),
  two-pow-succ k,
  pow_pos k,
)
  where
    differ_one : (d : ℕ) → d < 2 → differ d 1 ≡ 1 - d
    differ_one zero h = refl
    differ_one (suc zero) h = refl
    differ_one (suc (suc d)) h = absurd (omega arith)

-- A shift to the left that loses no bit.
pub shl64_fits : (x k j : ℕ) → x < 2 ^ j → j + k ≤ 64 → shl64 x k ≡ x * 2 ^ k
shl64_fits x k j h l = mod-eq_of_lt below
  where
    below : x * 2 ^ k < 2 ^ 64
    below = grind (arith, pow_add j k, pow_pos k, pow-le-pow_right {n = 2} (omega arith) l)

-- Dividing by one power of two and then by another.
pub shr_shr : (x j k : ℕ) → x / 2 ^ j / 2 ^ k ≡ x / 2 ^ (j + k)
shr_shr x j k = div-div-eq-div-mul x (2 ^ j) (2 ^ k) ∙ ap (λ (t : ℕ). x / t) (sym (pow_add j k))

pub div_above : (x v d : ℕ) → x < d → (x + v * d) / d ≡ v
div_above x v d h =
    add-mul-div_right x v (omega arith) ∙ ap (λ (t : ℕ). t + v) (div-eq_of_lt h) ∙ omega arith

pub mod_above : (x v d : ℕ) → x < d → (x + v * d) % d ≡ x
mod_above x v d h = add-mul-mod_self_right x v d ∙ mod-eq_of_lt h

-- The digits of an exclusive or, and that it is undone by another.
differ_digit : (a b : ℕ) → a < 2 → b < 2 → differ a b < 2
differ_digit zero b h l = omega (arith, differ_from_zero b)
  where
    differ_from_zero : (b : ℕ) → differ 0 b ≡ b
    differ_from_zero zero = refl
    differ_from_zero (suc b) = refl
differ_digit (suc zero) zero h l = omega arith
differ_digit (suc zero) (suc zero) h l = omega arith
differ_digit (suc zero) (suc (suc b)) h l = absurd (omega arith)
differ_digit (suc (suc a)) b h l = absurd (omega arith)

differ_twice : (a b : ℕ) → a < 2 → b < 2 → differ a (differ a b) ≡ b
differ_twice zero zero h l = refl
differ_twice zero (suc zero) h l = refl
differ_twice zero (suc (suc b)) h l = absurd (omega arith)
differ_twice (suc zero) zero h l = refl
differ_twice (suc zero) (suc zero) h l = refl
differ_twice (suc zero) (suc (suc b)) h l = absurd (omega arith)
differ_twice (suc (suc a)) b h l = absurd (omega arith)

pub bit_xor-below : (k a b : ℕ) → a < 2 ^ k → b < 2 ^ k → bit_xor a b < 2 ^ k
bit_xor-below zero a b h l =
    let e : a ≡ 0 = omega arith in let f : b ≡ 0 = omega arith in omega (arith, ap₂ bit_xor e f)
bit_xor-below (suc k) a b h l = omega (
  arith,
  xor_digit a b,
  differ_digit (a % 2) (b % 2) (omega arith) (omega arith),
  bit_xor-below k (a / 2) (b / 2) (omega (arith, two-pow-succ k)) (omega (arith, two-pow-succ k)),
  two-pow-succ k,
)

pub bit_xor_twice : (k a b : ℕ) → a < 2 ^ k → b < 2 ^ k → bit_xor a (bit_xor a b) ≡ b
bit_xor_twice zero a b h l =
    let e : a ≡ 0 = omega arith in
    let f : b ≡ 0 = omega arith in ap₂ (λ (x y : ℕ). bit_xor x (bit_xor x y)) e f ∙ sym f
bit_xor_twice (suc k) a b h l =
    let c = bit_xor a b in
    let half : c / 2 ≡ bit_xor (a / 2) (b / 2) =
      omega (arith, xor_digit a b, differ_digit (a % 2) (b % 2) (omega arith) (omega arith)) in
    let low : c % 2 ≡ differ (a % 2) (b % 2) =
      omega (arith, xor_digit a b, differ_digit (a % 2) (b % 2) (omega arith) (omega arith)) in
    omega (
      arith,
      xor_digit a c,
      ap (bit_xor (a / 2)) half,
      bit_xor_twice k (a / 2) (b / 2) (omega (arith, two-pow-succ k))
          (omega (arith, two-pow-succ k)),
      ap (differ (a % 2)) low,
      differ_twice (a % 2) (b % 2) (omega arith) (omega arith),
    )
