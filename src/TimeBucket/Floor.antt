-- ===== src/TimeBucket/Floor.antt =====
-- The start of a bucket is the multiple of the period at or below the timestamp.
use timescaledb.Base.{
  ◌⊎◌, inl, inr, ℕ, ◌+◌, Option, none, suc, ◌*◌, ◌/◌, ◌%◌, ◌<◌, ◌≡◌, refl, some, arith,
}
use timescaledb.Base.Int.{
  ℤ, pos, negsuc, sub_ℕ, ◌+ℤ◌, ◌≤ℤ◌, ◌<ℤ◌, +ℤ_parts, -ℤ_parts, tdiv, tmod, tdiv-pos, pos-*ℤ-pos,
  neg-*ℤ-pos,
}
use timescaledb.Dimension.Div.{multiple-le, lt-multiple}
use timescaledb.TimeBucket.{bucket_start}
use native.Mathlib.Nat.{div-add-mod, mod-lt, zero-div, mod-eq_of_lt}

abbrev pub IsFloor : ℕ → ℤ → ℤ → Type 0
IsFloor period t start = (start ≤ℤ t) × (t <ℤ start +ℤ pos period)

pub zero_mod : (p : ℕ) → 0 < p → 0 % p ≡ 0
zero_mod p h = mod-eq_of_lt h

-- The same function on numbers.
start_pos : (half p n : ℕ) → bucket_start half p (pos n) ≡ some (pos (n / p * p))
unfolding bucket_start
start_pos half p n = rw (tdiv-pos n p, pos-*ℤ-pos (n / p) p) (ground arith)

-- -(n + 1) as a difference of numbers.
tdiv-negsuc : (p n : ℕ) → tdiv (negsuc n) p ≡ sub_ℕ 0 (suc n / p)
unfolding tdiv
tdiv-negsuc p n = ground (arith, zero-div p)

tmod-negsuc : (p n : ℕ) → tmod (negsuc n) p ≡ sub_ℕ (0 % p) (suc n % p)
unfolding tmod
tmod-negsuc p n = refl

-- A multiple of the period, on either side of zero.
abbrev pub IsMultiple : ℕ → ℤ → Type 0
IsMultiple period m = (q : ℕ) × ((m ≡ pos (q * period)) ⊎ (m ≡ sub_ℕ 0 (q * period)))

-- What is returned for a start: the start itself, or the error that it is below the least word.
abbrev pub Returns : ℕ → ℤ → Option ℤ → Type 0
Returns half start o =
    ((sub_ℕ 0 half ≤ℤ start) × (o ≡ some start)) ⊎ ((start <ℤ sub_ℕ 0 half) × (o ≡ none))

-- For a negative timestamp, by whether it is a multiple.
start_multiple :
    (half p n : ℕ)
    → 0 < p
    → suc n % p ≡ 0
    → bucket_start half p (negsuc n) ≡ some (sub_ℕ 0 (suc n / p * p))
unfolding bucket_start
start_multiple half p n h e =
    rw (tdiv-negsuc p n, neg-*ℤ-pos (suc n / p) p, tmod-negsuc p n, zero_mod p h)
      (ground (arith, e))

start_below :
    (half p n : ℕ)
    → 0 < p
    → 0 < suc n % p
    → Returns half (sub_ℕ 0 (suc (suc n / p) * p)) (bucket_start half p (negsuc n))
unfolding bucket_start
start_below half p n h e =
    let next : suc (suc n / p) * p ≡ suc n / p * p + p = omega arith in
    rw (tdiv-negsuc p n, neg-*ℤ-pos (suc n / p) p, tmod-negsuc p n, zero_mod p h)
      (ground (
        arith,
        e,
        next,
        -ℤ_parts (sub_ℕ 0 (suc n / p * p)) (pos p),
        +ℤ_parts (sub_ℕ 0 half) (pos p),
      ))

-- The start is the multiple of the period at or below the timestamp.
pub bucket_start_lem :
    (half p : ℕ) (t : ℤ)
    → 0 < p
    → sub_ℕ 0 half ≤ℤ t
    → (m : ℤ) × IsMultiple p m × IsFloor p t m × Returns half m (bucket_start half p t)
bucket_start_lem half p (pos n) h w = (
  pos (n / p * p),
  (n / p, inl refl),
  (
    omega (arith, multiple-le n p),
    ground (arith, lt-multiple n p h, +ℤ_parts (pos (n / p * p)) (pos p)),
  ),
  inl (ground arith, start_pos half p n),
)
bucket_start_lem half p (negsuc n) h w =
    let k = suc n / p in
    let parts = div-add-mod (suc n) p in
    let rest = mod-lt (suc n) h in
    let split : (suc n % p ≡ 0) ⊎ (0 < suc n % p) = ground arith in
    elim split [
      | inl e ↦
          let whole : suc n ≡ k * p = omega (arith, parts, e) in
          (
            sub_ℕ 0 (k * p),
            (k, inr refl),
            (ground (arith, whole), ground (arith, whole, +ℤ_parts (sub_ℕ 0 (k * p)) (pos p))),
            inl (ground (arith, whole), start_multiple half p n h e),
          )
      | inr e ↦
          let low : k * p < suc n = omega (arith, parts, e) in
          let high : suc n < suc k * p = omega (arith, parts, rest) in
          (
            sub_ℕ 0 (suc k * p),
            (suc k, inr refl),
            (ground (arith, high), ground (arith, low, +ℤ_parts (sub_ℕ 0 (suc k * p)) (pos p))),
            start_below half p n h e,
          )
    ]
