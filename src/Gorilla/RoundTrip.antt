-- ===== src/Gorilla/RoundTrip.antt =====
-- What was appended to the compressor of tsl/src/compression/gorilla.c is read back by the forward
-- iterator, the nulls in their places.
use timescaledb.Base.{
  ℕ, ◌^◌, ◌≤◌, ◌<◌, ◌≡◌, inl, inr, refl, sym, ap, ◌∙◌, subst, Bool, true, false, Option, none, some,
  ◌>>=◌, List, [], ◌∷◌, length, arith, if◌then◌else◌, some_injective, none_not_some, Bool-cases,
}
use timescaledb.Base.Streams.{collect, Yields, Yields-collect, AllNull, HasValue}
use timescaledb.BitArray
use timescaledb.BitArray.{BitArray, iterator_init}
use timescaledb.BitArray.Append.{init-IsValid}
use timescaledb.BitArray.RoundTrip
use timescaledb.BitArray.RoundTrip.{Narrow}
use timescaledb.Simple8b.Compressor.{Simple8bRleSerialized, compressor_finish}
use timescaledb.Simple8b.Iterator
use timescaledb.Simple8b.Iterator.{
  num_selector_slots, serialized_slot_size, serialized_total_size, zero_iterator,
}
use timescaledb.Simple8b.Flush.{compressor_init-IsCompressor}
use timescaledb.Simple8b.RoundTrip.{Reads, finish-Reads}
use timescaledb.Gorilla.{
  GorillaCompressor, CompressedGorillaData, compressor_alloc, finish_of, finish, init_forward,
}
use timescaledb.Gorilla.Read.{At}
use timescaledb.Gorilla.Steps.{
  Step, null, same, reuse, fresh, State, start, step, decode, flags, any_null, tags, size_tags,
  leads, sizes, words, AllFit, leads-Narrow, words-Narrow, lengths, sizes_tagged,
}
use timescaledb.Gorilla.Streams.{append_all, AllWords, Holds}
use timescaledb.Gorilla.Chain.{AddsAll, append_all_lem}
use timescaledb.Gorilla.Forward.{next_result, Before}
use timescaledb.Gorilla.Flags.{read_with_nulls, read_without_nulls}
use timescaledb.Gorilla.Size.{buckets_bound, small_enough}

untagged-AllNull : (s : State) (ys : List Step) → tags ys ≡ [] → AllNull (decode s ys)
untagged-AllNull s [] e = tt
untagged-AllNull s (null ∷ ys) e = untagged-AllNull s ys e
untagged-AllNull s (same ∷ ys) e = absurd (omega (arith, ap length e))
untagged-AllNull s (reuse w ∷ ys) e = absurd (omega (arith, ap length e))
untagged-AllNull s (fresh l n w ∷ ys) e = absurd (omega (arith, ap length e))

tagged-HasValue : (s : State) (ys : List Step) → 0 < length (tags ys) → HasValue (decode s ys)
tagged-HasValue s [] h = absurd (omega arith)
tagged-HasValue s (null ∷ ys) h = tagged-HasValue s ys h
tagged-HasValue s (same ∷ ys) h = tt
tagged-HasValue s (reuse w ∷ ys) h = tt
tagged-HasValue s (fresh l n w ∷ ys) h = tt

-- The form of the finished streams of the steps is one of which the iterator reads them.
abbrev ReadsSteps : Option CompressedGorillaData → List Step → Type 0
ReadsSteps none ys = tags ys ≡ []
ReadsSteps (some z) ys =
    (0 < length (tags ys)) × Yields next_result (init_forward z) (decode start ys)

-- The streams of a form.
record FormOf (z : CompressedGorillaData) (ys : List Step) : Type 0 where
  first_tags : Reads (some z.tag0s) (tags ys)
  second_tags : Reads (some z.tag1s) (size_tags ys)
  bits_used : Reads (some z.num_bits_used_per_xor) (sizes ys)
  lead_array : z.leading_zeros ≡ RoundTrip.append_all BitArray.init (leads ys)
  xor_array : z.xors ≡ RoundTrip.append_all BitArray.init (words start ys)
  fits : AllFit start ys

At-start :
    (array : BitArray) (xs : List (ℕ × ℕ))
    → Narrow xs
    → array ≡ RoundTrip.append_all BitArray.init xs
    → At (iterator_init array) BitArray.init xs
unfolding iterator_init
At-start array xs n e = let (v, c, p) = init-IsValid in (v, n, e, omega (arith, p), omega arith)

Before-start :
    (z : CompressedGorillaData) (ys : List Step) → FormOf z ys → Before (init_forward z) start ys
unfolding init_forward
Before-start z ys f = record {
  first_tags = f.first_tags.2;
  second_tags = f.second_tags.2;
  bits_used = f.bits_used.2;
  lead_end = BitArray.init;
  lead_at = At-start z.leading_zeros (leads ys) (leads-Narrow ys) f.lead_array;
  xor_end = BitArray.init;
  xor_at = At-start z.xors (words start ys) (words-Narrow start ys f.fits) f.xor_array;
  last = refl;
  lead = refl;
  used = refl;
}

some_stream :
    (o : Option Simple8bRleSerialized) (xs : List ℕ)
    → Reads o xs
    → 0 < length xs
    → (s : Simple8bRleSerialized) × (o ≡ some s)
some_stream none xs r h = absurd (omega (arith, ap length r))
some_stream (some s) xs r h = (s, refl)

form-Yields :
    (z : CompressedGorillaData) (o : Option Simple8bRleSerialized) (ys : List Step)
    → FormOf z ys
    → Reads o (flags ys)
    → 0 < length (flags ys)
    → z.nulls ≡ (if any_null ys then o else none)
    → Yields next_result (init_forward z) (decode start ys)
unfolding init_forward
form-Yields z o ys f r h e =
    let b = Before-start z ys f in
    elim (Bool-cases (any_null ys)) [
      | inl a ↦
          let kept : z.nulls ≡ o = e ∙ ap (λ b. if b then o else none) a in
          let (ns, g) = some_stream o (flags ys) r h in
          let stored = kept ∙ g in
          read_with_nulls ys (init_forward z) start
            (ap (λ o. elim o as (λ t. Bool) [ none ↦ false | some ns ↦ true ]) stored) f.fits b
            (subst
              (λ o.
                Yields Iterator.try_next_forward
                  (elim o as (λ t. Iterator.Simple8bRleDecompressionIterator) [
                    | none ↦ zero_iterator
                    | some ns ↦ Iterator.init_forward ns
                  ])
                  (flags ys))
              (sym stored) (subst (λ o. Reads o (flags ys)) g r).2)
      | inr a ↦
          let lost : z.nulls ≡ none = e ∙ ap (λ b. if b then o else none) a in
          read_without_nulls ys (init_forward z) start a
            (ap (λ o. elim o as (λ t. Bool) [ none ↦ false | some ns ↦ true ]) lost) f.fits b
    ]

kept_bound :
    (b : Bool) (o : Option Simple8bRleSerialized) (xs : List ℕ) (s : Simple8bRleSerialized)
    → Reads o xs
    → (if b then o else none) ≡ some s
    → s.num_blocks ≤ length xs
kept_bound false o xs s r e = none_not_some e
kept_bound true none xs s r e = none_not_some e
kept_bound true (some t) xs s r e =
    subst (λ (u : Simple8bRleSerialized). u.num_blocks ≤ length xs) (some_injective e) r.1

finish-finish_of :
    (c : GorillaCompressor) (t0 t1 b n : Option Simple8bRleSerialized)
    → compressor_finish c.tag0s ≡ some t0
    → compressor_finish c.tag1s ≡ some t1
    → compressor_finish c.bits_used_per_xor ≡ some b
    → compressor_finish c.nulls ≡ some n
    → finish c ≡ finish_of c t0 t1 b n
unfolding finish
finish-finish_of c t0 t1 b n e f g h =
    ap
      (λ o. o >>= (λ t0. compressor_finish c.tag1s >>= (λ t1.
        compressor_finish c.bits_used_per_xor
        >>= (λ b. compressor_finish c.nulls >>= (λ n. finish_of c t0 t1 b n)))))
      e
    ∙ ap
        (λ o. o >>= (λ t1.
          compressor_finish c.bits_used_per_xor
          >>= (λ b. compressor_finish c.nulls >>= (λ n. finish_of c t0 t1 b n))))
        f
    ∙ ap (λ o. o >>= (λ b. compressor_finish c.nulls >>= (λ n. finish_of c t0 t1 b n))) g
    ∙ ap (λ o. o >>= (λ n. finish_of c t0 t1 b n)) h

finish_of_lem :
    (c : GorillaCompressor) (t0 t1 b n : Option Simple8bRleSerialized) (ys : List Step)
    → Reads t0 (tags ys)
    → Reads t1 (size_tags ys)
    → Reads b (sizes ys)
    → Reads n (flags ys)
    → (0 < length (tags ys) → 0 < length (sizes ys))
    → AddsAll compressor_alloc c start ys
    → length ys < 2 ^ 24
    → (o : Option CompressedGorillaData) × (finish_of c t0 t1 b n ≡ some o) × ReadsSteps o ys
unfolding compressor_alloc
finish_of_lem c none t1 b n ys r0 r1 rb rn h a l = (none, refl, r0)
finish_of_lem c (some t0) none b n ys r0 r1 rb rn h a l =
    absurd (omega (arith, ap length r1, sizes_tagged ys, h r0.0))
finish_of_lem c (some t0) (some t1) none n ys r0 r1 rb rn h a l =
    absurd (omega (arith, ap length rb, h r0.0))
finish_of_lem c (some t0) (some t1) (some b) n ys r0 r1 rb rn h a l =
    let z : CompressedGorillaData = record {
      last_value = c.prev_val;
      tag0s = t0;
      tag1s = t1;
      leading_zeros = c.leading_zeros;
      num_bits_used_per_xor = b;
      xors = c.xors;
      nulls = if c.has_nulls then n else none;
    } in
    let (lf, l0, l1, lb, ll, lw) = lengths start ys in
    let leads_small = buckets_bound c.leading_zeros (leads ys) (leads-Narrow ys) a.lead_array in
    let words_small =
      buckets_bound c.xors (words start ys) (words-Narrow start ys a.fits) a.xor_array in
    let bound : (s : Simple8bRleSerialized) → z.nulls ≡ some s → s.num_blocks ≤ length ys =
      λ s e. omega (arith, kept_bound c.has_nulls n (flags ys) s rn e, lf) in
    let form : FormOf z ys = record {
      first_tags = r0;
      second_tags = r1;
      bits_used = rb;
      lead_array = a.lead_array;
      xor_array = a.xor_array;
      fits = a.fits;
    } in
    (
      some z,
      ap (λ o. o >>= (λ z. some (some z)))
          (small_enough z (length ys) l (omega (arith, r0.1, l0)) (omega (arith, r1.1, l1))
            (omega (arith, rb.1, lb)) (omega (arith, leads_small, ll))
            (omega (arith, words_small, lw)) bound),
      (
        r0.0,
        form-Yields z n ys form rn (omega (arith, r0.0, lf, l0))
            (ap (λ b. if b then n else none) a.null_seen),
      ),
    )

unfoldable pub compress : List (Option ℕ) → Option (Option CompressedGorillaData)
compress xs = append_all compressor_alloc xs >>= finish

-- No form for nulls alone, and otherwise one that the iterator reads the values from.
abbrev pub ReadsBack : Option CompressedGorillaData → List (Option ℕ) → ℕ → Type 0
ReadsBack none xs n = AllNull xs
ReadsBack (some z) xs n = HasValue xs × (collect next_result n (init_forward z) ≡ some xs)

alloc-Holds : Holds compressor_alloc start [] [] [] []
unfolding compressor_alloc
alloc-Holds = record {
  stored = record {
    first_tags = compressor_init-IsCompressor;
    second_tags = compressor_init-IsCompressor;
    bits_used = compressor_init-IsCompressor;
    null_flags = compressor_init-IsCompressor;
    last_below = omega arith;
    fewer_tags = omega arith;
    fewer_second = omega arith;
    fewer_sizes = omega arith;
  };
  last = refl;
  lead = refl;
  used = λ h. absurd (omega arith);
  covered = λ h. h;
}

length-decode : (s : State) (ys : List Step) → length (decode s ys) ≡ length ys
length-decode s [] = refl
length-decode s (y ∷ ys) = omega (arith, length-decode (step s y) ys)

read :
    (o : Option CompressedGorillaData) (ys : List Step) (xs : List (Option ℕ)) (n : ℕ)
    → decode start ys ≡ xs
    → length xs < n
    → ReadsSteps o ys
    → ReadsBack o xs n
read none ys xs n e h r = subst AllNull e (untagged-AllNull start ys r)
read (some z) ys xs n e h (t, r) = (
  subst HasValue e (tagged-HasValue start ys t),
  Yields-collect next_result xs (init_forward z) n (subst (Yields next_result (init_forward z)) e r)
      h,
)

-- Words and nulls that are appended to a new compressor, fewer than 2 ^ 24 of them, finish without an
-- error. Where all of them are nulls there is no form; where a word is among them there is one, and the
-- forward iterator returns them all from it, in order, and is then done, in any number of calls above
-- theirs.
pub compress-ReadsBack :
    (xs : List (Option ℕ)) (n : ℕ)
    → AllWords xs
    → length xs < 2 ^ 24
    → length xs < n
    → (o : Option CompressedGorillaData) × (compress xs ≡ some o) × ReadsBack o xs n
unfolding compress
compress-ReadsBack xs n w l h =
    let (c, ys, e, d, a, s) =
      append_all_lem xs compressor_alloc start [] [] [] [] w alloc-Holds (omega arith) in
    let same_length : length ys ≡ length xs = sym (length-decode start ys) ∙ ap length d in
    let (lf, l0, l1, lb, ll, lw) = lengths start ys in
    let (t0, f0, r0) = finish-Reads c.tag0s (tags ys) s.stored.first_tags (omega (arith, l0)) in
    let (t1, f1, r1) =
      finish-Reads c.tag1s (size_tags ys) s.stored.second_tags (omega (arith, l1)) in
    let (b, fb, rb) =
      finish-Reads c.bits_used_per_xor (sizes ys) s.stored.bits_used (omega (arith, lb)) in
    let (m, fm, rm) = finish-Reads c.nulls (flags ys) s.stored.null_flags (omega (arith, lf)) in
    let (o, g, r) =
      finish_of_lem c t0 t1 b m ys r0 r1 rb rm s.covered a (omega (arith, same_length)) in
    (
      o,
      ap (λ o. o >>= finish) e ∙ finish-finish_of c t0 t1 b m f0 f1 fb fm ∙ g,
      read o ys xs n d h r,
    )
