-- ===== src/DeltaDelta/RoundTrip.antt =====
-- What was appended is read back, the nulls in their places.
use timescaledb.Base.{
  ℕ, ◌+◌, ◌-◌, ◌%◌, ◌^◌, ◌≤◌, ◌<◌, ◌≡◌, ◌⊎◌, inl, inr, refl, sym, ap, ◌∙◌, subst, Bool, true, false,
  Option, none, some, ◌>>=◌, List, [], ◌∷◌, length, arith, if◌then◌else◌, some_injective,
  none_not_some,
}
use timescaledb.Base.Streams.{collect, Yields, Yields-collect, AllNull, HasValue}
use timescaledb.Simple8b.Compressor.{Simple8bRleSerialized, compressor_finish}
use timescaledb.Simple8b.Iterator
use timescaledb.Simple8b.Iterator.{
  Simple8bRleDecompressionIterator, zero_iterator, num_selector_slots, serialized_slot_size,
  serialized_total_size,
}
use timescaledb.Simple8b.Flush.{compressor_init-IsCompressor}
use timescaledb.Simple8b.RoundTrip.{Reads, finish-Reads}
use timescaledb.DeltaDelta.{
  DeltaDeltaCompressor, DeltaDeltaCompressed, DeltaDeltaDecompressionIterator, DecompressResult,
  is_done, is_null, val, decoded, after_flag, minus64, zig_zag_encode, zig_zag_decode,
  compressor_alloc, from_parts, finish_of, finish, init_forward, next_value, try_next_forward,
}
use timescaledb.DeltaDelta.ZigZag.{zig_zag_decode-zig_zag_encode}
use timescaledb.DeltaDelta.Streams.{
  append_all, AllWords, stream, flags, any_null, last_val, last_delta, length-stream, length-flags,
  append_all_lem,
}

-- A result as a value or a null, unless the iterator is done.
abbrev pub value_of : DecompressResult → Option (Option ℕ)
value_of is_done = none
value_of is_null = some none
value_of (val x) = some (some x)

unfoldable pub next_result :
    DeltaDeltaDecompressionIterator → Option (Option (Option ℕ) × DeltaDeltaDecompressionIterator)
next_result iter = try_next_forward iter >>= (λ (result, next). some (value_of result, next))

abbrev pub shown :
    Option (DecompressResult × DeltaDeltaDecompressionIterator)
    → Option (Option (Option ℕ) × DeltaDeltaDecompressionIterator)
shown o = o >>= (λ (result, next). some (value_of result, next))

-- The iterator from a last value and a last delta on.
abbrev pub iterator :
    ℕ
    → ℕ
    → Simple8bRleDecompressionIterator
    → Simple8bRleDecompressionIterator
    → Bool
    → DeltaDeltaDecompressionIterator
iterator v d ds ns b = record {
  prev_val = v;
  prev_delta = d;
  delta_deltas = ds;
  nulls = ns;
  has_nulls = b;
}

abbrev Values : Simple8bRleDecompressionIterator → List ℕ → Type 0
Values = Yields Iterator.try_next_forward

next_value-code :
    (v d x : ℕ) (ds rest ns : Simple8bRleDecompressionIterator) (b : Bool)
    → v < 2 ^ 64
    → d < 2 ^ 64
    → x < 2 ^ 64
    → Iterator.try_next_forward ds ≡ some (some (zig_zag_encode (minus64 (minus64 x v) d)), rest)
    → next_value (iterator v d ds ns b) ≡ some (val x, iterator x (minus64 x v) rest ns b)
unfolding next_value
next_value-code v d x ds rest ns b h k l e =
    let delta = minus64 x v in
    let decoded_delta : (d + zig_zag_decode (zig_zag_encode (minus64 delta d))) % 2 ^ 64 ≡ delta =
      omega (arith, zig_zag_decode-zig_zag_encode (minus64 delta d) (omega arith)) in
    let value : (v + delta) % 2 ^ 64 ≡ x = omega arith in
    ap (λ o. o >>= (λ result. some (decoded (iterator v d ds ns b) result))) e
    ∙ ap (λ (t : ℕ). some (val ((v + t) % 2 ^ 64), iterator ((v + t) % 2 ^ 64) t rest ns b))
        decoded_delta
    ∙ ap (λ (t : ℕ). some (val t, iterator t delta rest ns b)) value

next_value-end :
    (v d : ℕ) (ds ns : Simple8bRleDecompressionIterator) (b : Bool)
    → Values ds []
    → (t : DeltaDeltaDecompressionIterator) × (next_value (iterator v d ds ns b)
        ≡ some (is_done, t))
unfolding next_value
next_value-end v d ds ns b (t, e) = (
  iterator v d t ns b,
  ap (λ o. o >>= (λ result. some (decoded (iterator v d ds ns b) result))) e,
)

read_with_nulls :
    (xs : List (Option ℕ)) (v d : ℕ) (ds ns : Simple8bRleDecompressionIterator)
    → AllWords xs
    → v < 2 ^ 64
    → d < 2 ^ 64
    → Values ds (stream v d xs)
    → Values ns (flags xs)
    → Yields next_result (iterator v d ds ns true) xs
unfolding next_result try_next_forward
read_with_nulls [] v d ds ns w h k y (t, e) =
    (iterator v d ds t true, ap (λ o. shown (o >>= after_flag (iterator v d ds ns true))) e)
read_with_nulls (none ∷ xs) v d ds ns w h k y (t, e, z) = (
  iterator v d ds t true,
  ap (λ o. shown (o >>= after_flag (iterator v d ds ns true))) e,
  read_with_nulls xs v d ds t w h k y z,
)
read_with_nulls (some x ∷ xs) v d ds ns w h k (s, f, y) (t, e, z) = (
  iterator x (minus64 x v) s t true,
  ap (λ o. shown (o >>= after_flag (iterator v d ds ns true))) e
      ∙ ap shown (next_value-code v d x ds s t true h k w.0 f),
  read_with_nulls xs x (minus64 x v) s t w.1 w.0 (omega arith) y z,
)

read_without_nulls :
    (xs : List (Option ℕ)) (v d : ℕ) (ds ns : Simple8bRleDecompressionIterator)
    → any_null xs ≡ false
    → AllWords xs
    → v < 2 ^ 64
    → d < 2 ^ 64
    → Values ds (stream v d xs)
    → Yields next_result (iterator v d ds ns false) xs
unfolding next_result try_next_forward
read_without_nulls [] v d ds ns a w h k y =
    let (t, e) = next_value-end v d ds ns false y in (t, ap shown e)
read_without_nulls (none ∷ xs) v d ds ns a w h k y = absurd cc
read_without_nulls (some x ∷ xs) v d ds ns a w h k (s, f, y) = (
  iterator x (minus64 x v) s ns false,
  ap shown (next_value-code v d x ds s ns false h k w.0 f),
  read_without_nulls xs x (minus64 x v) s ns a w.1 w.0 (omega arith) y,
)

-- The form of the values has room in an allocation.
small_enough :
    (v d n : ℕ) (ds : Simple8bRleSerialized) (o : Option Simple8bRleSerialized)
    → n < 2 ^ 25 - 1
    → ds.num_blocks ≤ n
    → ((s : Simple8bRleSerialized) → o ≡ some s → s.num_blocks ≤ n)
    → from_parts v d ds o
      ≡ some (record { last_value = v; last_delta = d; delta_deltas = ds; nulls = o })
unfolding from_parts serialized_slot_size serialized_total_size num_selector_slots
small_enough v d n ds none h l m = ground arith
small_enough v d n ds (some s) h l m = ground (arith, m s refl)

-- The parts of the form that stands for the values.
abbrev pub IsForm : DeltaDeltaCompressed → List (Option ℕ) → Type 0
IsForm z xs =
    (z.last_value ≡ last_val 0 xs)
    × (z.last_delta ≡ last_delta 0 0 xs)
    × Reads (some z.delta_deltas) (stream 0 0 xs)
    × (((any_null xs ≡ true)
          × ((ns : Simple8bRleSerialized) × (z.nulls ≡ some ns) × Reads (some ns) (flags xs)))
        ⊎ ((any_null xs ≡ false) × (z.nulls ≡ none)))

-- There is no form without a value.
abbrev pub IsFormOf : Option DeltaDeltaCompressed → List (Option ℕ) → Type 0
IsFormOf none xs = stream 0 0 xs ≡ []
IsFormOf (some z) xs = IsForm z xs

unfoldable pub compress : List (Option ℕ) → Option (Option DeltaDeltaCompressed)
compress xs = append_all compressor_alloc xs >>= finish

some_nulls :
    (b : Bool) (o : Option Simple8bRleSerialized) (xs : List (Option ℕ))
    → any_null xs ≡ b
    → Reads o (flags xs)
    → 0 < length xs
    → ((any_null xs ≡ true)
        × ((ns : Simple8bRleSerialized) × ((if b then o else none) ≡ some ns)
            × Reads (some ns) (flags xs)))
      ⊎ ((any_null xs ≡ false) × ((if b then o else none) ≡ none))
some_nulls false o xs a r h = inr (a, refl)
some_nulls true none xs a r h = absurd (omega (arith, ap length r, length-flags xs))
some_nulls true (some ns) xs a r h = inl (a, (ns, refl, r))

finish-finish_of :
    (c : DeltaDeltaCompressor) (deltas nulls : Option Simple8bRleSerialized)
    → compressor_finish c.delta_delta ≡ some deltas
    → compressor_finish c.nulls ≡ some nulls
    → finish c ≡ finish_of c deltas nulls
unfolding finish
finish-finish_of c deltas nulls f g =
    ap (λ o. o >>= (λ deltas. compressor_finish c.nulls >>= (λ nulls. finish_of c deltas nulls))) f
    ∙ ap (λ o. o >>= (λ nulls. finish_of c deltas nulls)) g

kept_bound :
    (b : Bool) (o : Option Simple8bRleSerialized) (s : Simple8bRleSerialized) (xs : List (Option ℕ))
    → Reads o (flags xs)
    → (if b then o else none) ≡ some s
    → s.num_blocks ≤ length xs
kept_bound false o s xs r e = none_not_some e
kept_bound true none s xs r e = none_not_some e
kept_bound true (some t) s xs r e =
    subst (λ (u : Simple8bRleSerialized). u.num_blocks ≤ length xs) (some_injective e)
      (omega (arith, r.1, length-flags xs))

finish_of-IsFormOf :
    (c : DeltaDeltaCompressor) (deltas nulls : Option Simple8bRleSerialized) (xs : List (Option ℕ))
    → c.prev_val ≡ last_val 0 xs
    → c.prev_delta ≡ last_delta 0 0 xs
    → c.has_nulls ≡ any_null xs
    → Reads deltas (stream 0 0 xs)
    → Reads nulls (flags xs)
    → length xs < 2 ^ 25 - 1
    → (o : Option DeltaDeltaCompressed) × (finish_of c deltas nulls ≡ some o) × IsFormOf o xs
finish_of-IsFormOf c none nulls xs p q t rd rn l = (none, refl, rd)
finish_of-IsFormOf c (some ds) nulls xs p q t rd rn l =
    let kept = if c.has_nulls then nulls else none in
    let some_value : 0 < length xs = omega (arith, rd.0, length-stream 0 0 xs) in
    let parts = some_nulls c.has_nulls nulls xs (sym t) rn some_value in
    let bound : (s : Simple8bRleSerialized) → kept ≡ some s → s.num_blocks ≤ length xs =
      λ s e. kept_bound c.has_nulls nulls s xs rn e in
    (
      some (record {
        last_value = c.prev_val;
        last_delta = c.prev_delta;
        delta_deltas = ds;
        nulls = kept;
      }),
      ap (λ o. o >>= (λ z. some (some z)))
          (small_enough c.prev_val c.prev_delta (length xs) ds kept l
            (omega (arith, rd.1, length-stream 0 0 xs)) bound),
      (p, q, rd, parts),
    )

pub compress-IsFormOf :
    (xs : List (Option ℕ))
    → AllWords xs
    → length xs < 2 ^ 25 - 1
    → (o : Option DeltaDeltaCompressed) × (compress xs ≡ some o) × IsFormOf o xs
unfolding compress compressor_alloc
compress-IsFormOf xs w l =
    let (c, e, (p, q, r, s, t)) =
      append_all_lem compressor_alloc 0 0 [] [] false xs w
        (refl, refl, compressor_init-IsCompressor, compressor_init-IsCompressor, refl) (omega arith)
        (omega (arith, l)) in
    let fewer = length-stream 0 0 xs in
    let (deltas, f, rd) = finish-Reads c.delta_delta (stream 0 0 xs) r (omega arith) in
    let (nulls, g, rn) = finish-Reads c.nulls (flags xs) s (omega (arith, length-flags xs)) in
    let (o, h, v) = finish_of-IsFormOf c deltas nulls xs p q t rd rn l in
    (o, ap (λ d. d >>= finish) e ∙ finish-finish_of c deltas nulls f g ∙ h, v)

form-Yields :
    (z : DeltaDeltaCompressed) (xs : List (Option ℕ))
    → AllWords xs
    → IsForm z xs
    → Yields next_result (init_forward z) xs
unfolding init_forward
form-Yields z xs w (p, q, rd, inl (a, (ns, e, rn))) =
    subst
      (λ o.
        Yields next_result
          (init_forward (record {
            last_value = z.last_value;
            last_delta = z.last_delta;
            delta_deltas = z.delta_deltas;
            nulls = o;
          }))
          xs)
      (sym e)
      (read_with_nulls xs 0 0 (Iterator.init_forward z.delta_deltas) (Iterator.init_forward ns) w
        (omega arith) (omega arith) rd.2 rn.2)
form-Yields z xs w (p, q, rd, inr (a, e)) =
    subst
      (λ o.
        Yields next_result
          (init_forward (record {
            last_value = z.last_value;
            last_delta = z.last_delta;
            delta_deltas = z.delta_deltas;
            nulls = o;
          }))
          xs)
      (sym e)
      (read_without_nulls xs 0 0 (Iterator.init_forward z.delta_deltas) zero_iterator a w
        (omega arith) (omega arith) rd.2)

-- Words and nulls that are appended to a new compressor, fewer than 2 ^ 25 - 1 of them, are read back
-- from the form that it finishes to, in order, and then the iterator is done.
pub read-finish :
    (xs : List (Option ℕ)) (z : DeltaDeltaCompressed) (n : ℕ)
    → AllWords xs
    → length xs < 2 ^ 25 - 1
    → compress xs ≡ some (some z)
    → length xs < n
    → collect next_result n (init_forward z) ≡ some xs
read-finish xs z n w l e h =
    let (o, f, v) = compress-IsFormOf xs w l in
    Yields-collect next_result xs (init_forward z) n
      (form-Yields z xs w (subst (λ t. IsFormOf t xs) (some_injective (sym f ∙ e)) v)) h

no_stream-AllNull : (v d : ℕ) (xs : List (Option ℕ)) → stream v d xs ≡ [] → AllNull xs
no_stream-AllNull v d [] e = tt
no_stream-AllNull v d (none ∷ xs) e = no_stream-AllNull v d xs e
no_stream-AllNull v d (some x ∷ xs) e = absurd (omega (arith, ap length e))

stream-HasValue : (v d : ℕ) (xs : List (Option ℕ)) → 0 < length (stream v d xs) → HasValue xs
stream-HasValue v d [] h = absurd (omega arith)
stream-HasValue v d (none ∷ xs) h = stream-HasValue v d xs h
stream-HasValue v d (some x ∷ xs) h = tt

-- A form exactly where there is a value.
abbrev pub FormWhereValue : Option DeltaDeltaCompressed → List (Option ℕ) → Type 0
FormWhereValue none xs = AllNull xs
FormWhereValue (some z) xs = HasValue xs

form_where_value :
    (o : Option DeltaDeltaCompressed) (xs : List (Option ℕ)) → IsFormOf o xs → FormWhereValue o xs
form_where_value none xs h = no_stream-AllNull 0 0 xs h
form_where_value (some z) xs (p, q, rd, n) = stream-HasValue 0 0 xs rd.0

-- A compressor that was given fewer than 2 ^ 25 - 1 words and nulls finishes without an error: to a
-- form where a word was among them, and to NULL where all of them were nulls.
pub compress_ends :
    (xs : List (Option ℕ))
    → AllWords xs
    → length xs < 2 ^ 25 - 1
    → (o : Option DeltaDeltaCompressed) × (compress xs ≡ some o) × FormWhereValue o xs
compress_ends xs w l = let (o, f, v) = compress-IsFormOf xs w l in (o, f, form_where_value o xs v)
