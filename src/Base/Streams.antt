-- ===== src/Base/Streams.antt =====
-- Iterators that return a value, that they are done, or an error.
use timescaledb.Base.{
  ℕ, zero, suc, ◌<◌, ◌≡◌, ap, ◌∙◌, Option, none, some, ◌>>=◌, List, [], ◌∷◌, length, arith,
}

-- A value before the others, unless the iterator was done.
abbrev pub value_then {ℓ} : {A : Type ℓ} → Option A → Option (List A) → Option (List A)
value_then none rest = some []
value_then (some v) rest = rest >>= (λ vs. some (v ∷ vs))

module _ {S A : Type 0} (next : S → Option (Option A × S)) where
  -- The values up to the end, in `n` calls at most.
  unfoldable pub collect : ℕ → S → Option (List A)
  collect zero s = some []
  collect (suc n) s = next s >>= (λ (v, t). value_then v (collect n t))

  -- The iterator returns these values, and then that it is done.
  abbrev pub Yields : S → List A → Type 0
  Yields s [] = (t : S) × (next s ≡ some (none, t))
  Yields s (x ∷ xs) = (t : S) × (next s ≡ some (some x, t)) × Yields t xs

  pub Yields-collect :
      (xs : List A) (s : S) (n : ℕ) → Yields s xs → length xs < n → collect n s ≡ some xs
  unfolding collect
  Yields-collect xs s zero y h = absurd (omega arith)
  Yields-collect [] s (suc n) (t, e) h = ap (λ o. o >>= (λ (v, t). value_then v (collect n t))) e
  Yields-collect (x ∷ xs) s (suc n) (t, e, y) h =
      ap (λ o. o >>= (λ (v, t). value_then v (collect n t))) e
      ∙ ap (λ o. o >>= (λ vs. some (x ∷ vs))) (Yields-collect xs t n y (omega arith))

-- A column of nulls, and one with a value.
abbrev pub AllNull {ℓ} : {A : Type ℓ} → List (Option A) → Type 0
AllNull [] = Unit
AllNull (none ∷ xs) = AllNull xs
AllNull (some x ∷ xs) = ⊥

abbrev pub HasValue {ℓ} : {A : Type ℓ} → List (Option A) → Type 0
HasValue [] = ⊥
HasValue (none ∷ xs) = HasValue xs
HasValue (some x ∷ xs) = Unit
