-- ===== src/TimeBucket/Contains.antt =====
-- A bucket holds its timestamp.
use timescaledb.Base.{
  ◌⊎◌, inl, inr, ℕ, zero, suc, ◌-◌, ◌*◌, ◌<◌, ◌≡◌, sym, ap, subst, ◌∙◌, false, Option, none, some,
  ◌>>=◌, arith, if◌then◌else◌,
}
use timescaledb.Base.Int.{
  ℤ, pos, negsuc, sub_ℕ, ◌+ℤ◌, ◌-ℤ◌, ◌≤ℤ◌, ◌<ℤ◌, +ℤ_parts, -ℤ_parts, tmod, eqb_ℤ, leb_ℤ, pos_part,
  neg_part, eq_of_parts,
}
use timescaledb.TimeBucket.{wrap_sum, bucket_start, shifted, time_bucket}
use timescaledb.TimeBucket.Floor.{IsFloor, IsMultiple, zero_mod, bucket_start_lem}

-- The offset within a period, and the timestamp moved by it.
abbrev inner : ℕ → ℤ → ℤ
inner p offset = if eqb_ℤ offset (pos 0) then offset else tmod offset p

abbrev moved : ℕ → ℕ → ℤ → ℤ → Option ℤ
moved half p timestamp offset =
    if eqb_ℤ offset (pos 0) then some timestamp else shifted half timestamp (inner p offset)

abbrev pub InWidth : ℕ → ℤ → Type 0
InWidth half z = (sub_ℕ 0 half ≤ℤ z) × (z <ℤ pos half)

abbrev pub OutOfWidth : ℕ → ℤ → Type 0
OutOfWidth half z = (z <ℤ sub_ℕ 0 half) ⊎ (pos half ≤ℤ z)

inner-tmod : (p : ℕ) (offset : ℤ) → 0 < p → inner p offset ≡ tmod offset p
unfolding tmod
inner-tmod p offset h = ground (arith, zero_mod p h)

-- The timestamp is moved where the result has the width, and is an error elsewhere.
moved_lem :
    (half p : ℕ) (timestamp offset : ℤ)
    → InWidth half timestamp
    → 0 < half
    → let exact = timestamp -ℤ inner p offset in
      (InWidth half exact × (moved half p timestamp offset ≡ some exact))
      ⊎ (OutOfWidth half exact × (moved half p timestamp offset ≡ none))
unfolding shifted
moved_lem half p timestamp offset w h =
    let exact = timestamp -ℤ inner p offset in
    let unmoved : (inner p offset ≡ pos 0) → timestamp ≡ exact =
      λ e. ground (arith, e, -ℤ_parts timestamp (inner p offset)) in
    ground (
      arith,
      -ℤ_parts timestamp (inner p offset),
      unmoved,
      +ℤ_parts (sub_ℕ 0 half) (inner p offset),
      +ℤ_parts (pos (half - 1)) (inner p offset),
    )

-- What is stored is the exact value, or lies twice `half` above or below it.
wrap_sum_lem :
    (half : ℕ) (z : ℤ)
    → ((wrap_sum half z ≡ z) × (sub_ℕ 0 half ≤ℤ z) × (z <ℤ pos half))
      ⊎ (((pos half ≤ℤ z) × (wrap_sum half z ≡ z -ℤ pos (2 * half)))
          ⊎ ((z <ℤ sub_ℕ 0 half) × (wrap_sum half z ≡ z +ℤ pos (2 * half))))
unfolding wrap_sum
wrap_sum_lem half z = ground arith

-- A period that is not positive is an error.
pub time_bucket-none :
    (half : ℕ) (period timestamp offset : ℤ)
    → period ≤ℤ pos 0
    → time_bucket half period timestamp offset ≡ none
unfolding time_bucket
time_bucket-none half period timestamp offset h = ground arith

-- What is returned for a start, after the offset within a period is taken from the timestamp: nothing,
-- if the moved timestamp or its start is not in the width; else the start, wrapped to the width.
abbrev pub Bucketed : ℕ → ℤ → ℤ → ℤ → Option ℤ → Type 0
Bucketed half timestamp o start result =
    (InWidth half (timestamp -ℤ o)
      × (sub_ℕ 0 half ≤ℤ start -ℤ o)
      × (((sub_ℕ 0 half ≤ℤ start) × (result ≡ some start))
          ⊎ ((start <ℤ sub_ℕ 0 half) × (result ≡ some (start +ℤ pos (2 * half))))))
    ⊎ ((OutOfWidth half (timestamp -ℤ o) ⊎ (start -ℤ o <ℤ sub_ℕ 0 half)) × (result ≡ none))

abbrev pub HasBucket : ℕ → ℕ → ℤ → ℤ → Option ℤ → Type 0
HasBucket half p timestamp o result =
    (start : ℤ) × IsFloor p timestamp start
    × IsMultiple p (start -ℤ o)
    × Bucketed half timestamp o start result

add_back : (m o : ℤ) → m +ℤ o -ℤ o ≡ m
add_back m o = eq_of_parts (m +ℤ o -ℤ o) m (omega (arith, -ℤ_parts (m +ℤ o) o, +ℤ_parts m o))

-- The start of the moved timestamp, moved back.
moved_back :
    (p : ℕ) (timestamp o m : ℤ)
    → IsFloor p (timestamp -ℤ o) m
    → IsMultiple p m
    → IsFloor p timestamp (m +ℤ o) × IsMultiple p (m +ℤ o -ℤ o)
moved_back p timestamp o m f k = (
  (
    omega (arith, f.0, +ℤ_parts m o, -ℤ_parts timestamp o),
    omega (
      arith,
      f.1,
      +ℤ_parts m o,
      -ℤ_parts timestamp o,
      +ℤ_parts m (pos p),
      +ℤ_parts (m +ℤ o) (pos p),
    ),
  ),
  subst (IsMultiple p) (sym (add_back m o)) k,
)

wrapped :
    (half : ℕ) (timestamp o m : ℤ)
    → InWidth half timestamp
    → m +ℤ o ≤ℤ timestamp
    → ((sub_ℕ 0 half ≤ℤ m +ℤ o) × (some (wrap_sum half (m +ℤ o)) ≡ some (m +ℤ o)))
      ⊎ ((m +ℤ o <ℤ sub_ℕ 0 half)
          × (some (wrap_sum half (m +ℤ o)) ≡ some (m +ℤ o +ℤ pos (2 * half))))
wrapped half timestamp o m w h = elim (wrap_sum_lem half (m +ℤ o)) [
  | inl (same, low, high) ↦ inl (low, ap some same)
  | inr (inl (high, other)) ↦ absurd (omega (arith, high, w, h))
  | inr (inr (low, other)) ↦ inr (low, ap some other)
]

abbrev finished : ℕ → ℤ → Option ℤ → Option ℤ
finished half o start = start >>= (λ result. some (wrap_sum half (result +ℤ o)))

bucketed :
    (half p : ℕ) (timestamp offset : ℤ)
    → 0 < p
    → 0 < half
    → InWidth half timestamp
    → let o = inner p offset in
      HasBucket half p timestamp o
        (finished half o (moved half p timestamp offset >>= (λ m. bucket_start half p m)))
bucketed half p timestamp offset h k w =
    let o = inner p offset in
    let exact = timestamp -ℤ o in
    elim (moved_lem half p timestamp offset w k) [
      | inl (inside, e) ↦
          let (m, mul, floor, r) = bucket_start_lem half p exact h inside.0 in
          let (f, k) = moved_back p timestamp o m floor mul in
          let to_start = ap (λ t. finished half o (t >>= (λ m. bucket_start half p m))) e in
          (
            m +ℤ o,
            f,
            k,
            elim r [
              | inl (low, g) ↦ elim (wrapped half timestamp o m w f.0) [
                | inl (a, b) ↦ inl (
                  inside,
                  subst (λ z. sub_ℕ 0 half ≤ℤ z) (sym (add_back m o)) low,
                  inl (a, to_start ∙ ap (finished half o) g ∙ b),
                )
                | inr (a, b) ↦ inl (
                  inside,
                  subst (λ z. sub_ℕ 0 half ≤ℤ z) (sym (add_back m o)) low,
                  inr (a, to_start ∙ ap (finished half o) g ∙ b),
                )
              ]
              | inr (low, g) ↦ inr (
                inr (subst (λ z. z <ℤ sub_ℕ 0 half) (sym (add_back m o)) low),
                to_start ∙ ap (finished half o) g,
              )
            ],
          )
      | inr (outside, e) ↦
          let above : sub_ℕ 0 (neg_part exact) ≤ℤ exact = ground arith in
          let (m, mul, floor, r) = bucket_start_lem (neg_part exact) p exact h above in
          let (f, k) = moved_back p timestamp o m floor mul in
          (
            m +ℤ o,
            f,
            k,
            inr (inl outside, ap (λ t. finished half o (t >>= (λ m. bucket_start half p m))) e),
          )
    ]

time_bucket_chain :
    (half n : ℕ) (timestamp offset : ℤ)
    → time_bucket half (pos (suc n)) timestamp offset
      ≡ finished half
          (inner (suc n) offset)
          (moved half (suc n) timestamp offset >>= (λ m. bucket_start half (suc n) m))
unfolding time_bucket
time_bucket_chain half n timestamp offset =
    ap
      (λ b.
        if b
        then none
        else finished half (inner (suc n) offset)
            (moved half (suc n) timestamp offset >>= (λ m. bucket_start half (suc n) m)))
      (positive n)
  where
    positive : (n : ℕ) → leb_ℤ (pos (suc n)) (pos 0) ≡ false
    positive n = ground arith

-- For a timestamp of the width, a period that is not positive is an error. For a positive one, the
-- bucket's exact start is the multiple of the period, moved by the remainder of the offset, that is
-- at most the timestamp and less than a period below it. There is an error exactly where the
-- timestamp or its start, with that remainder taken away, is not in the width. Otherwise the start is
-- returned if the width holds it, and else the number that is twice `half` above it.
pub time_bucket-HasBucket :
    (half : ℕ) (period timestamp offset : ℤ)
    → 0 < half
    → InWidth half timestamp
    → ((period ≤ℤ pos 0) × (time_bucket half period timestamp offset ≡ none))
      ⊎ ((pos 0 <ℤ period)
          × HasBucket half
              (pos_part period)
              timestamp
              (tmod offset (pos_part period))
              (time_bucket half period timestamp offset))
time_bucket-HasBucket half (negsuc n) timestamp offset k w =
    inl (omega arith, time_bucket-none half (negsuc n) timestamp offset (omega arith))
time_bucket-HasBucket half (pos zero) timestamp offset k w =
    inl (omega arith, time_bucket-none half (pos zero) timestamp offset (omega arith))
time_bucket-HasBucket half (pos (suc n)) timestamp offset k w = inr (
  omega arith,
  subst (λ o. HasBucket half (suc n) timestamp o (time_bucket half (pos (suc n)) timestamp offset))
      (inner-tmod (suc n) offset (omega arith))
      (subst (HasBucket half (suc n) timestamp (inner (suc n) offset))
        (sym (time_bucket_chain half n timestamp offset))
        (bucketed half (suc n) timestamp offset (omega arith) k w)),
)
