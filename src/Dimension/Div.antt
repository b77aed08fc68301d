-- ===== src/Dimension/Div.antt =====
-- Multiples of an interval: the arithmetic behind aligned ranges.
use timescaledb.Base.{ℕ, ◌+◌, ◌*◌, ◌/◌, ◌≤◌, ◌<◌, ◌≡◌, ◌⊎◌, inl, inr, arith}
use native.Mathlib.Nat.{div-add-mod, mod-lt}
use native.Mathlib.Decide.{dec_lt}

-- The multiple of `i` at or below `v`.
pub multiple-le : (v i : ℕ) → v / i * i ≤ v
multiple-le v i = omega (arith, div-add-mod v i)

pub lt-multiple : (v i : ℕ) → 0 < i → v < v / i * i + i
lt-multiple v i h = omega (arith, div-add-mod v i, mod-lt v h)

pub step_of_lt : (a b i : ℕ) → a < b → a * i + i ≤ b * i
step_of_lt a b i h = grind arith

-- Two multiples are equal, or a whole interval apart.
pub multiples_apart :
    (v w i : ℕ)
    → (v / i * i ≡ w / i * i) ⊎ ((v / i * i + i ≤ w / i * i) ⊎ (w / i * i + i ≤ v / i * i))
multiples_apart v w i = elim (dec_lt (v / i) (w / i)) [
  | yes h ↦ inr (inl (step_of_lt _ _ i h))
  | no h ↦ elim (dec_lt (w / i) (v / i)) [
    | yes k ↦ inr (inr (step_of_lt _ _ i k))
    | no k ↦ inl (ground (arith, h, k))
  ]
]

-- Below a multiple the next multiple is no further than that one.
pub next_multiple-le : (v i k : ℕ) → v < i * k → v / i * i + i ≤ i * k
next_multiple-le v i k h = elim (dec_lt (v / i) k) [
  | yes p ↦ omega (arith, step_of_lt (v / i) k i p)
  | no p ↦ absurd (grind (arith, multiple-le v i))
]
