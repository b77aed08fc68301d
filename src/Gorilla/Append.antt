-- ===== src/Gorilla/Append.antt =====
-- What gorilla_compressor_append_value of tsl/src/compression/gorilla.c stores of a value.
use timescaledb.Base.{
  ◌⊎◌, inl, inr, ℕ, ◌+◌, ◌-◌, ◌^◌, ◌≤◌, ◌<◌, ◌≡◌, ◌≢◌, refl, sym, ap, ◌∙◌, subst, List, [], ◌∷◌,
  ◌++◌, length, length-append, if◌then◌else◌, ◌==◌, arith, Bool, true, false, ◌&&◌, not, Option,
  some, ◌>>=◌, Bool-cases,
}
use timescaledb.Base.Bits.{bit_xor, bit_xor-below, bit_xor_twice, bit_xor-zero, shr}
use timescaledb.BitArray
use timescaledb.BitArray.{BitArray, BitArrayIterator, iter_next}
use timescaledb.Simple8b.Compressor.{Simple8bRleCompressor, compressor_append}
use timescaledb.Simple8b.Flush.{IsCompressor, compressor_append_lem}
use timescaledb.Gorilla.{
  GorillaCompressor, leading_of, trailing_of, reuses, store_sizes, store_xor, append_value,
  append_xor, compressor_is_empty,
}
use timescaledb.Gorilla.Zeros.{HasZeros, leading_trailing, reuses-HasZeros}

-- The sizes in effect serve for a xor: there are some, they leave none of its digits out, and at most 12
-- zeros more than needed would be stored.
abbrev pub Serve : GorillaCompressor → Bool → ℕ → Type 0
Serve c has_values xor =
    (has_values ≡ true)
    × (c.prev_leading_zeroes ≤ leading_of xor)
    × (c.prev_trailing_zeros ≤ trailing_of xor)
    × (leading_of xor + trailing_of xor ≤ c.prev_leading_zeroes + c.prev_trailing_zeros + 12)

abbrev pub DoNotServe : GorillaCompressor → Bool → ℕ → Type 0
DoNotServe c has_values xor =
    (has_values ≡ false)
    ⊎ ((leading_of xor < c.prev_leading_zeroes)
        ⊎ ((trailing_of xor < c.prev_trailing_zeros)
            ⊎ (c.prev_leading_zeroes + c.prev_trailing_zeros + 12
                < leading_of xor + trailing_of xor)))

-- The sizes in effect after a xor: those before, if they serve, and else those of the xor, which are
-- stored.
abbrev pub Reuses : GorillaCompressor → GorillaCompressor → Bool → ℕ → List ℕ → List ℕ → Type 0
Reuses c d has_values xor tags sizes =
    Serve c has_values xor
    × IsCompressor d.tag1s (tags ++ (0 ∷ []))
    × (0 < length sizes)
    × (d.prev_leading_zeroes ≡ c.prev_leading_zeroes)
    × (d.prev_trailing_zeros ≡ c.prev_trailing_zeros)
    × (d.leading_zeros ≡ c.leading_zeros)
    × IsCompressor d.bits_used_per_xor sizes

abbrev pub Resizes : GorillaCompressor → GorillaCompressor → Bool → ℕ → List ℕ → List ℕ → Type 0
Resizes c d has_values xor tags sizes =
    DoNotServe c has_values xor
    × (d.prev_leading_zeroes ≡ leading_of xor)
    × (d.prev_trailing_zeros ≡ trailing_of xor)
    × IsCompressor d.tag1s (tags ++ (1 ∷ []))
    × (d.prev_leading_zeroes < 64)
    × (d.leading_zeros ≡ BitArray.append c.leading_zeros 6 d.prev_leading_zeroes)
    × IsCompressor d.bits_used_per_xor
        (sizes ++ ((64 - (d.prev_leading_zeroes + d.prev_trailing_zeros)) ∷ []))

abbrev pub Sized : GorillaCompressor → GorillaCompressor → Bool → ℕ → List ℕ → List ℕ → Type 0
Sized c d has_values xor tags sizes =
    Reuses c d has_values xor tags sizes ⊎ Resizes c d has_values xor tags sizes

reuses-Serve :
    (c : GorillaCompressor) (has_values : Bool) (xor : ℕ)
    → reuses c has_values (leading_of xor) (trailing_of xor) ≡ true
    → Serve c has_values xor
unfolding reuses
reuses-Serve c has_values xor r = ground arith

reuses-DoNotServe :
    (c : GorillaCompressor) (has_values : Bool) (xor : ℕ)
    → reuses c has_values (leading_of xor) (trailing_of xor) ≡ false
    → DoNotServe c has_values xor
unfolding reuses
reuses-DoNotServe c has_values xor r = ground arith

reuses-values :
    (c : GorillaCompressor) (has_values : Bool) (leading trailing : ℕ)
    → reuses c has_values leading trailing ≡ true
    → has_values ≡ true
unfolding reuses
reuses-values c has_values leading trailing r = ground arith

-- A compressor that is not empty holds an element.
has_element :
    (c : Simple8bRleCompressor) (xs : List ℕ)
    → IsCompressor c xs
    → not (compressor_is_empty c) ≡ true
    → 0 < length xs
unfolding compressor_is_empty
has_element c [] (flushed, e, n, a, w) h =
    let empty : length flushed ≡ 0 =
      omega (arith, ap length e, length-append flushed c.uncompressed_elements) in
    let zero_count : c.num_elements ≡ 0 = omega (arith, n, empty) in ground arith
has_element c (x ∷ xs) h e = omega arith

leading_of-below : (xor : ℕ) → leading_of xor < 64
unfolding leading_of
leading_of-below xor = ground arith

pub append_xor_lem :
    (c : GorillaCompressor) (has_values : Bool) (xor : ℕ) (tags0 tags1 sizes : List ℕ)
    → IsCompressor c.tag0s tags0
    → IsCompressor c.tag1s tags1
    → IsCompressor c.bits_used_per_xor sizes
    → length tags0 < 2 ^ 25
    → length tags1 < 2 ^ 25
    → length sizes < 2 ^ 25
    → (has_values ≡ true → 0 < length sizes)
    → xor < 2 ^ 64
    → (d : GorillaCompressor) × (append_xor c has_values xor ≡ some d)
      × HasZeros xor d.prev_leading_zeroes d.prev_trailing_zeros
      × (d.xors
          ≡ BitArray.append c.xors
              (64 - (d.prev_leading_zeroes + d.prev_trailing_zeros))
              (shr xor d.prev_trailing_zeros))
      × IsCompressor d.tag0s (tags0 ++ (1 ∷ []))
      × Sized c d has_values xor tags1 sizes
      × (d.nulls ≡ c.nulls)
      × (d.has_nulls ≡ c.has_nulls)
unfolding append_xor store_sizes store_xor
append_xor_lem c has_values xor tags0 tags1 sizes h k s n0 n1 nb has l =
    let leading = leading_of xor in
    let trailing = trailing_of xor in
    let flag = reuses c has_values leading trailing in
    let stored : GorillaCompressor → Option GorillaCompressor =
      λ sized. some (store_xor sized xor) in
    let after_size : Simple8bRleCompressor
        → Simple8bRleCompressor
        → Simple8bRleCompressor
        → Option GorillaCompressor =
      λ tag0s tag1s bits_used. some (record c {
        tag0s = tag0s;
        tag1s = tag1s;
        prev_leading_zeroes = leading;
        prev_trailing_zeros = trailing;
        leading_zeros = BitArray.append c.leading_zeros 6 leading;
        bits_used_per_xor = bits_used;
      }) in
    let after_second : Simple8bRleCompressor
        → Bool
        → Simple8bRleCompressor
        → Option GorillaCompressor =
      λ tag0s b tag1s.
        (if b
          then some (record c { tag0s = tag0s; tag1s = tag1s })
          else store_sizes (record c { tag0s = tag0s; tag1s = tag1s }) leading trailing)
        >>= stored in
    let after_first : Simple8bRleCompressor → Option GorillaCompressor =
      λ tag0s. compressor_append c.tag1s (if flag then 0 else 1) >>= after_second tag0s flag in
    let (t0, e0, w0) = compressor_append_lem c.tag0s tags0 1 h (omega arith) n0 in
    elim (Bool-cases flag) [
      | inl r ↦
          let (t1, e1, w1) = compressor_append_lem c.tag1s tags1 0 k (omega arith) n1 in
          let d : GorillaCompressor = store_xor (record c { tag0s = t0; tag1s = t1 }) xor in
          (
            d,
            ap (λ o. o >>= after_first) {y = some t0} e0
                ∙ ap (λ b. compressor_append c.tag1s (if b then 0 else 1) >>= after_second t0 b) r
                ∙ ap (λ o. o >>= after_second t0 true) {y = some t1} e1,
            reuses-HasZeros c has_values xor l r,
            refl,
            w0,
            inl (
              reuses-Serve c has_values xor r,
              w1,
              has (reuses-values c has_values leading trailing r),
              refl,
              refl,
              refl,
              s,
            ),
            refl,
            refl,
          )
      | inr r ↦
          let (t1, e1, w1) = compressor_append_lem c.tag1s tags1 1 k (omega arith) n1 in
          let (b, e2, w2) =
            compressor_append_lem c.bits_used_per_xor sizes (64 - (leading + trailing)) s
              (omega arith) nb in
          let d : GorillaCompressor =
            store_xor
              (record c {
                tag0s = t0;
                tag1s = t1;
                prev_leading_zeroes = leading;
                prev_trailing_zeros = trailing;
                leading_zeros = BitArray.append c.leading_zeros 6 leading;
                bits_used_per_xor = b;
              })
              xor in
          (
            d,
            ap (λ o. o >>= after_first) {y = some t0} e0
                ∙ ap (λ b. compressor_append c.tag1s (if b then 0 else 1) >>= after_second t0 b) r
                ∙ ap (λ o. o >>= after_second t0 false) {y = some t1} e1
                ∙ ap (λ o. o >>= after_size t0 t1 >>= stored) {y = some b} e2,
            leading_trailing xor l,
            refl,
            w0,
            inr (
              reuses-DoNotServe c has_values xor r,
              refl,
              refl,
              w1,
              leading_of-below xor,
              refl,
              w2,
            ),
            refl,
            refl,
          )
    ]

-- What a compressor has stored: the tags, the sizes, the flags of nulls and the last value.
pub record Stored (c : GorillaCompressor) (tags0 tags1 sizes flags : List ℕ) : Type 0 where
  pub first_tags : IsCompressor c.tag0s tags0
  pub second_tags : IsCompressor c.tag1s tags1
  pub bits_used : IsCompressor c.bits_used_per_xor sizes
  pub null_flags : IsCompressor c.nulls flags
  pub last_below : c.prev_val < 2 ^ 64
  pub fewer_tags : length tags0 ≤ length flags
  pub fewer_second : length tags1 ≤ length flags
  pub fewer_sizes : length sizes ≤ length flags

-- A value after `c`: the last one again, with a first tag of 0 and nothing else, or one with its xor.
abbrev pub Repeats : GorillaCompressor → GorillaCompressor → ℕ → List ℕ → List ℕ → Type 0
Repeats c d x tags0 sizes =
    (x ≡ c.prev_val)
    × (compressor_is_empty c.bits_used_per_xor ≡ false)
    × (0 < length sizes)
    × IsCompressor d.tag0s (tags0 ++ (0 ∷ []))
    × (d.tag1s ≡ c.tag1s)
    × (d.bits_used_per_xor ≡ c.bits_used_per_xor)
    × (d.leading_zeros ≡ c.leading_zeros)
    × (d.xors ≡ c.xors)
    × (d.prev_leading_zeroes ≡ c.prev_leading_zeroes)
    × (d.prev_trailing_zeros ≡ c.prev_trailing_zeros)

abbrev pub StoresXor : GorillaCompressor → GorillaCompressor → ℕ → List ℕ → Type 0
StoresXor c d x tags0 =
    ((compressor_is_empty c.bits_used_per_xor ≡ true) ⊎ (x ≢ c.prev_val))
    × HasZeros (bit_xor c.prev_val x) d.prev_leading_zeroes d.prev_trailing_zeros
    × (d.xors
        ≡ BitArray.append c.xors (64 - (d.prev_leading_zeroes + d.prev_trailing_zeros))
            (shr (bit_xor c.prev_val x) d.prev_trailing_zeros))
    × IsCompressor d.tag0s (tags0 ++ (1 ∷ []))

abbrev pub Appended : GorillaCompressor → GorillaCompressor → ℕ → List ℕ → List ℕ → List ℕ → Type 0
Appended c d x tags0 tags1 sizes =
    Repeats c d x tags0 sizes
    ⊎ (StoresXor c d x tags0
        × Sized c d (not (compressor_is_empty c.bits_used_per_xor)) (bit_xor c.prev_val x) tags1
            sizes)

-- The value is taken, and remembered as the last one; the flags say that it is not a null.
abbrev pub Takes : GorillaCompressor → ℕ → List ℕ → List ℕ → List ℕ → List ℕ → Type 0
Takes c x tags0 tags1 sizes flags =
    (d : GorillaCompressor) × (append_value c x ≡ some d)
    × (d.prev_val ≡ x)
    × (d.has_nulls ≡ c.has_nulls)
    × IsCompressor d.nulls (flags ++ (0 ∷ []))
    × Appended c d x tags0 tags1 sizes

and_left : (a b : Bool) → (a && b) ≡ true → a ≡ true
and_left true b h = refl
and_left false b h = h

not-true : (b : Bool) → not b ≡ true → b ≡ false
not-true true h = absurd cc
not-true false h = refl

same_xor : (v : ℕ) → v < 2 ^ 64 → bit_xor v v ≡ 0
same_xor v h = ap (bit_xor v) (sym (bit_xor-zero v)) ∙ bit_xor_twice 64 v 0 h (omega arith)

other_value :
    (v x : ℕ)
    → v < 2 ^ 64
    → (empty : Bool) → (not empty && bit_xor v x == 0) ≡ false
    → (empty ≡ true) ⊎ (x ≢ v)
other_value v x h true r = inl refl
other_value v x h false r = inr (λ e. ground (arith, r, ap (bit_xor v) e ∙ same_xor v h))

same_value : (v x : ℕ) → v < 2 ^ 64 → x < 2 ^ 64 → bit_xor v x ≡ 0 → x ≡ v
same_value v x h l e = sym (bit_xor_twice 64 v x h l) ∙ ap (bit_xor v) e ∙ bit_xor-zero v

pub append_value_lem :
    (c : GorillaCompressor) (x : ℕ) (tags0 tags1 sizes flags : List ℕ)
    → Stored c tags0 tags1 sizes flags
    → x < 2 ^ 64
    → length flags < 2 ^ 25
    → Takes c x tags0 tags1 sizes flags
unfolding append_value
append_value_lem c x tags0 tags1 sizes flags h l few =
    let xor = bit_xor c.prev_val x in
    let has_values = not (compressor_is_empty c.bits_used_per_xor) in
    let has : has_values ≡ true → 0 < length sizes =
      λ t. has_element c.bits_used_per_xor sizes h.bits_used t in
    let (ns, e, w) = compressor_append_lem c.nulls flags 0 h.null_flags (omega arith) few in
    let again : GorillaCompressor → Option GorillaCompressor = λ flagged.
      compressor_append flagged.tag0s 0 >>= (λ tag0s. some (record flagged { tag0s = tag0s })) in
    let keep : GorillaCompressor → Option GorillaCompressor =
      λ stored. some (record stored { prev_val = x }) in
    let after : Bool → Simple8bRleCompressor → Option GorillaCompressor = λ b nulls.
      let flagged = record c { nulls = nulls } in
      (if b then again flagged else append_xor flagged has_values xor) >>= keep in
    let flagged : GorillaCompressor = record c { nulls = ns } in
    elim (Bool-cases (has_values && xor == 0)) [
      | inl r ↦
          let (t0, e0, w0) =
            compressor_append_lem c.tag0s tags0 0 h.first_tags (omega arith)
              (omega (arith, h.fewer_tags)) in
          let zero_xor : xor ≡ 0 = ground arith in
          (
            record flagged { tag0s = t0; prev_val = x },
            ap (λ o. o >>= after (has_values && xor == 0)) {y = some ns} e
                ∙ ap (λ b. after b ns) r
                ∙ ap (λ o. o >>= (λ tag0s. some (record flagged { tag0s = tag0s })) >>= keep)
                    {y = some t0} e0,
            refl,
            refl,
            w,
            inl (
              same_value c.prev_val x h.last_below l zero_xor,
              not-true (compressor_is_empty c.bits_used_per_xor) (and_left has_values (xor == 0) r),
              has (and_left has_values (xor == 0) r),
              w0,
              refl,
              refl,
              refl,
              refl,
              refl,
              refl,
            ),
          )
      | inr r ↦
          let (d, f, z, xs, w0, s, n, k) =
            append_xor_lem flagged has_values xor tags0 tags1 sizes h.first_tags h.second_tags
              h.bits_used (omega (arith, h.fewer_tags)) (omega (arith, h.fewer_second))
              (omega (arith, h.fewer_sizes)) has (bit_xor-below 64 c.prev_val x h.last_below l) in
          (
            record d { prev_val = x },
            ap (λ o. o >>= after (has_values && xor == 0)) {y = some ns} e
                ∙ ap (λ b. after b ns) r
                ∙ ap (λ o. o >>= keep) {y = some d} f,
            refl,
            k,
            subst (λ t. IsCompressor t (flags ++ (0 ∷ []))) (sym n) w,
            inr (
              (
                other_value c.prev_val x h.last_below (compressor_is_empty c.bits_used_per_xor) r,
                z,
                xs,
                w0,
              ),
              s,
            ),
          )
    ]
