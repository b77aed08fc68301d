-- ===== src/Vec.antt =====
-- The growth of the vectors of words, src/adts/vec.h, which holds their elements and a capacity. A
-- vector is a list elsewhere: its capacity follows from the number of its elements, since they are
-- appended one at a time.
use timescaledb.Base.{
  ℕ, zero, suc, ◌+◌, ◌-◌, ◌*◌, ◌/◌, ◌^◌, ◌≤◌, ◌<◌, ◌≡◌, ◌⊎◌, inl, inr, refl, ap, ◌∙◌, ◌||◌, Option,
  none, some, ◌>>=◌, if◌then◌else◌, leb, ltb, arith,
}

-- MaxAllocSize of PostgreSQL, the largest allocation.
abbrev pub max_alloc_size : ℕ
max_alloc_size = 2 ^ 30 - 1

-- The capacity after `additional` elements were asked for. `none` is the error of a size that does
-- not fit into 32 bits or into an allocation.
unfoldable pub reserve : ℕ → ℕ → ℕ → Option ℕ
reserve num_elements max_elements additional =
    let half = num_elements / 2 in
    let grown = num_elements + (if ltb additional half then half else additional) in
    if leb (num_elements + additional) max_elements
    then some max_elements
    else if leb ((2 ^ 32 - 1) / 8) grown || ltb max_alloc_size (8 * grown)
    then none
    else some grown

-- The capacity of a vector of `n` elements that were appended in turn.
unfoldable pub capacity : ℕ → Option ℕ
capacity zero = some 0
capacity (suc n) = capacity n >>= (λ max_elements. reserve n max_elements 1)

reserve_lem :
    (n m : ℕ) → n < 2 ^ 25 → m ≤ 2 * n → (k : ℕ) × (reserve n m 1 ≡ some k) × (k ≤ 2 * suc n)
unfolding reserve
reserve_lem n m l h =
    let half = n / 2 in
    let grown = n + (if ltb 1 half then half else 1) in
    let split : (n + 1 ≤ m) ⊎ (m < n + 1) = ground arith in
    elim split [
      | inl e ↦ (m, ground (arith, e), omega arith)
      | inr e ↦ (grown, ground (arith, e), ground arith)
    ]

-- Up to 2 ^ 25 elements can be appended without an error.
pub capacity_lem : (n : ℕ) → n ≤ 2 ^ 25 → (m : ℕ) × (capacity n ≡ some m) × (m ≤ 2 * n)
unfolding capacity
capacity_lem zero h = (0, refl, omega arith)
capacity_lem (suc n) h =
    let (m, e, l) = capacity_lem n (omega arith) in
    let (k, f, g) = reserve_lem n m (omega arith) l in
    (k, ap (λ o. o >>= (λ m. reserve n m 1)) e ∙ f, g)
