-- ===== src/Gorilla/Forward.antt =====
-- The forward iterator of tsl/src/compression/gorilla.c returns the values of the steps.
use timescaledb.Base.{
  ℕ, ◌%◌, ◌^◌, ◌≤◌, ◌<◌, ◌≡◌, refl, ap, ◌∙◌, List, [], ◌∷◌, arith, false, Option, some, ◌>>=◌,
}
use timescaledb.Base.Streams.{Yields}
use timescaledb.BitArray
use timescaledb.BitArray.{BitArray, BitArrayIterator, iter_next}
use timescaledb.Simple8b.Iterator
use timescaledb.Simple8b.Iterator.{Simple8bRleDecompressionIterator}
use timescaledb.DeltaDelta.{DecompressResult, val}
use timescaledb.DeltaDelta.RoundTrip.{value_of}
use timescaledb.Gorilla.{
  GorillaDecompressionIterator, next_xor, new_sizes, next_sizes, after_tag1, after_tag0, next_value,
  try_next_forward,
}
use timescaledb.Gorilla.Zeros.{undo}
use timescaledb.Gorilla.Read.{At, iter_next-At}
use timescaledb.Gorilla.Steps.{
  Step, null, same, reuse, fresh, State, step, shown, any_null, tags, size_tags, leads, sizes,
  words, Fits,
}

abbrev pub result :
    Option (DecompressResult × GorillaDecompressionIterator)
    → Option (Option (Option ℕ) × GorillaDecompressionIterator)
result o = o >>= (λ (r, next). some (value_of r, next))

unfoldable pub next_result :
    GorillaDecompressionIterator → Option (Option (Option ℕ) × GorillaDecompressionIterator)
next_result iter = result (try_next_forward iter)

abbrev pub Values : Simple8bRleDecompressionIterator → List ℕ → Type 0
Values = Yields Iterator.try_next_forward

-- The iterator has these values before it.
pub record Before (i : GorillaDecompressionIterator) (s : State) (xs : List Step) : Type 0 where
  pub first_tags : Values i.tag0s (tags xs)
  pub second_tags : Values i.tag1s (size_tags xs)
  pub bits_used : Values i.num_bits_used (sizes xs)
  pub lead_end : BitArray
  pub lead_at : At i.leading_zeros lead_end (leads xs)
  pub xor_end : BitArray
  pub xor_at : At i.xors xor_end (words s xs)
  pub last : i.prev_val ≡ s.value
  pub lead : i.prev_leading_zeroes ≡ s.leading
  pub used : i.prev_xor_bits_used ≡ s.bits

abbrev Gives : GorillaDecompressionIterator → State → Step → List Step → Type 0
Gives i s x xs =
    (j : GorillaDecompressionIterator) × (result (next_value i) ≡ some (some (shown s x), j))
    × Before j (step s x) xs
    × (j.has_nulls ≡ i.has_nulls)
    × (j.nulls ≡ i.nulls)

give_same :
    (i : GorillaDecompressionIterator) (s : State) (xs : List Step)
    → Before i s (same ∷ xs)
    → Gives i s same xs
unfolding next_value
give_same i s xs b =
    let (t, e, rest) = b.first_tags in
    (
      record i { tag0s = t },
      ap (λ o. result (o >>= after_tag0 i)) e
          ∙ ap (λ (v : ℕ). some (some (some v), record i { tag0s = t })) b.last,
      record {
        first_tags = rest;
        second_tags = b.second_tags;
        bits_used = b.bits_used;
        lead_end = b.lead_end;
        lead_at = b.lead_at;
        xor_end = b.xor_end;
        xor_at = b.xor_at;
        last = b.last;
        lead = b.lead;
        used = b.used;
      },
      refl,
      refl,
    )

xor_value :
    (i : GorillaDecompressionIterator) (rest : BitArrayIterator) (w v : ℕ)
    → iter_next i.xors i.prev_xor_bits_used ≡ (w, rest)
    → undo i.prev_val i.prev_leading_zeroes i.prev_xor_bits_used w ≡ v
    → next_xor i ≡ (val v, record i { xors = rest; prev_val = v })
unfolding next_xor
xor_value i rest w v e f =
    let lead = i.prev_leading_zeroes in
    let n = i.prev_xor_bits_used in
    ap
      (λ ((bits, r) : ℕ × BitArrayIterator). (
        val (undo i.prev_val lead n bits),
        record i { xors = r; prev_val = undo i.prev_val lead n bits },
      ))
      e
    ∙ ap (λ (y : ℕ). (val y, record i { xors = rest; prev_val = y })) f

-- The value of an iterator `sized` that has read its tags and sizes.
xor_after :
    (i sized : GorillaDecompressionIterator) (t0 : Simple8bRleDecompressionIterator)
    (rest : BitArrayIterator) (w v : ℕ)
    → Iterator.try_next_forward i.tag0s ≡ some (some 1, t0)
    → next_sizes (record i { tag0s = t0 }) ≡ some sized
    → iter_next sized.xors sized.prev_xor_bits_used ≡ (w, rest)
    → undo sized.prev_val sized.prev_leading_zeroes sized.prev_xor_bits_used w ≡ v
    → result (next_value i) ≡ some (some (some v), record sized { xors = rest; prev_val = v })
unfolding next_value
xor_after i sized t0 rest w v e f g h =
    ap (λ o. result (o >>= after_tag0 i)) {y = some (some 1, t0)} e
    ∙ ap (λ o. result (o >>= (λ sized. some (next_xor sized)))) f
    ∙ ap (λ o. result (some o)) (xor_value sized rest w v g h)

give_reuse :
    (i : GorillaDecompressionIterator) (s : State) (w : ℕ) (xs : List Step)
    → w < 2 ^ s.bits
    → Before i s (reuse w ∷ xs)
    → Gives i s (reuse w) xs
unfolding next_sizes
give_reuse i s w xs l b =
    let (t0, e0, rest0) = b.first_tags in
    let (t1, e1, rest1) = b.second_tags in
    let (next, f, at) =
      iter_next-At i.xors b.xor_end s.bits w (words (step s (reuse w)) xs) b.xor_at l in
    let sized : GorillaDecompressionIterator = record i { tag0s = t0; tag1s = t1 } in
    let read : iter_next i.xors i.prev_xor_bits_used ≡ (w, next) =
      ap (iter_next i.xors) b.used ∙ f in
    let v = undo s.value s.leading s.bits w in
    let value : undo i.prev_val i.prev_leading_zeroes i.prev_xor_bits_used w ≡ v =
      ap (λ (t : ℕ). undo t i.prev_leading_zeroes i.prev_xor_bits_used w) b.last
      ∙ ap (λ (t : ℕ). undo s.value t i.prev_xor_bits_used w) b.lead
      ∙ ap (λ (t : ℕ). undo s.value s.leading t w) b.used in
    (
      record sized { xors = next; prev_val = v },
      xor_after i sized t0 next w v e0
          (ap (λ o. o >>= after_tag1 (record i { tag0s = t0 })) {y = some (some 0, t1)} e1) read
          value,
      record {
        first_tags = rest0;
        second_tags = rest1;
        bits_used = b.bits_used;
        lead_end = b.lead_end;
        lead_at = b.lead_at;
        xor_end = BitArray.append b.xor_end s.bits w;
        xor_at = at;
        last = refl;
        lead = b.lead;
        used = b.used;
      },
      refl,
      refl,
    )

sizes_after :
    (i : GorillaDecompressionIterator) (leads : BitArrayIterator)
    (bits : Simple8bRleDecompressionIterator) (l n : ℕ)
    → n ≤ 64
    → iter_next i.leading_zeros 6 ≡ (l, leads)
    → Iterator.try_next_forward i.num_bits_used ≡ some (some n, bits)
    → new_sizes i
      ≡ some (record i {
        leading_zeros = leads;
        num_bits_used = bits;
        prev_leading_zeroes = l;
        prev_xor_bits_used = n;
      })
unfolding new_sizes
sizes_after i leads bits l n h e f =
    let sized : BitArrayIterator
        → Simple8bRleDecompressionIterator
        → ℕ
        → ℕ
        → GorillaDecompressionIterator =
      λ leads bits l n. record i {
        leading_zeros = leads;
        num_bits_used = bits;
        prev_leading_zeroes = l;
        prev_xor_bits_used = n;
      } in
    let small : n % 2 ^ 8 ≡ n = omega (arith, h) in
    ap
      (λ ((l, leads) : ℕ × BitArrayIterator).
        Iterator.try_next_forward i.num_bits_used
        >>= (λ (size, bits). size >>= (λ n. some (sized leads bits l (n % 2 ^ 8)))))
      e
    ∙ ap (λ o. o >>= (λ (size, bits). size >>= (λ n. some (sized leads bits l (n % 2 ^ 8)))))
        {y = some (some n, bits)} f
    ∙ ap (λ (t : ℕ). some (sized leads bits l t)) small

give_fresh :
    (i : GorillaDecompressionIterator) (s : State) (l n w : ℕ) (xs : List Step)
    → Fits s (fresh l n w)
    → Before i s (fresh l n w ∷ xs)
    → Gives i s (fresh l n w) xs
unfolding next_sizes
give_fresh i s l n w xs (small, narrow, below) b =
    let (t0, e0, rest0) = b.first_tags in
    let (t1, e1, rest1) = b.second_tags in
    let (bits, eb, restb) = b.bits_used in
    let (lead, el, at) = iter_next-At i.leading_zeros b.lead_end 6 l (leads xs) b.lead_at small in
    let (next, f, at_xor) =
      iter_next-At i.xors b.xor_end n w (words (step s (fresh l n w)) xs) b.xor_at below in
    let tagged : GorillaDecompressionIterator = record i { tag0s = t0; tag1s = t1 } in
    let sized : GorillaDecompressionIterator = record tagged {
      leading_zeros = lead;
      num_bits_used = bits;
      prev_leading_zeroes = l;
      prev_xor_bits_used = n;
    } in
    let v = undo s.value l n w in
    (
      record sized { xors = next; prev_val = v },
      xor_after i sized t0 next w v e0
          (ap (λ o. o >>= after_tag1 (record i { tag0s = t0 })) {y = some (some 1, t1)} e1
            ∙ sizes_after tagged lead bits l n narrow el eb)
          f (ap (λ (t : ℕ). undo t l n w) b.last),
      record {
        first_tags = rest0;
        second_tags = rest1;
        bits_used = restb;
        lead_end = BitArray.append b.lead_end 6 l;
        lead_at = at;
        xor_end = BitArray.append b.xor_end n w;
        xor_at = at_xor;
        last = refl;
        lead = refl;
        used = refl;
      },
      refl,
      refl,
    )

pub give :
    (i : GorillaDecompressionIterator) (s : State) (x : Step) (xs : List Step)
    → (any_null (x ∷ []) ≡ false)
    → Fits s x
    → Before i s (x ∷ xs)
    → Gives i s x xs
give i s null xs h f b = absurd cc
give i s same xs h f b = give_same i s xs b
give i s (reuse w) xs h f b = give_reuse i s w xs f.1 b
give i s (fresh l n w) xs h f b = give_fresh i s l n w xs f b
