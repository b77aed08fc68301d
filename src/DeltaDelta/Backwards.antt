-- ===== src/DeltaDelta/Backwards.antt =====
-- What was appended is read back from the last value to the first, the nulls in their places.
use timescaledb.Base.{
  ℕ, ◌-◌, ◌^◌, ◌<◌, ◌≡◌, inl, inr, refl, sym, ap, ap₂, ◌∙◌, subst, Bool, true, false, Option, none,
  some, ◌>>=◌, List, [], ◌∷◌, ◌++◌, reverse, reverse-append, snoc_induction, length, arith,
  some_injective,
}
use timescaledb.Base.Streams.{collect, Yields, Yields-collect}
use timescaledb.Simple8b.Compressor.{Simple8bRleSerialized}
use timescaledb.Simple8b.Iterator.{Simple8bRleDecompressionIterator, zero_iterator}
use timescaledb.Simple8b.Reverse
use timescaledb.DeltaDelta.{
  DeltaDeltaCompressed, DeltaDeltaDecompressionIterator, is_done, val, minus64, zig_zag_encode,
  zig_zag_decode,
}
use timescaledb.DeltaDelta.ZigZag.{zig_zag_decode-zig_zag_encode}
use timescaledb.DeltaDelta.Streams.{AllWords, stream, flags, any_null, last_val, last_delta}
use timescaledb.DeltaDelta.Reverse.{
  init_reverse, undone, previous_value, after_flag_rev, try_next_reverse,
}
use timescaledb.DeltaDelta.RoundTrip.{
  value_of, iterator, shown, IsForm, IsFormOf, compress, compress-IsFormOf,
}

unfoldable pub previous_result :
    DeltaDeltaDecompressionIterator → Option (Option (Option ℕ) × DeltaDeltaDecompressionIterator)
previous_result iter = try_next_reverse iter >>= (λ (result, next). some (value_of result, next))

stream-append :
    (xs ys : List (Option ℕ)) (v d : ℕ)
    → stream v d (xs ++ ys) ≡ stream v d xs ++ stream (last_val v xs) (last_delta v d xs) ys
stream-append [] ys v d = refl
stream-append (none ∷ xs) ys v d = stream-append xs ys v d
stream-append (some x ∷ xs) ys v d =
    ap (λ t. zig_zag_encode (minus64 (minus64 x v) d) ∷ t) (stream-append xs ys x (minus64 x v))

flags-append : (xs ys : List (Option ℕ)) → flags (xs ++ ys) ≡ flags xs ++ flags ys
flags-append [] ys = refl
flags-append (none ∷ xs) ys = ap (λ t. 1 ∷ t) (flags-append xs ys)
flags-append (some x ∷ xs) ys = ap (λ t. 0 ∷ t) (flags-append xs ys)

last_val-append :
    (xs ys : List (Option ℕ)) (v : ℕ) → last_val v (xs ++ ys) ≡ last_val (last_val v xs) ys
last_val-append [] ys v = refl
last_val-append (none ∷ xs) ys v = last_val-append xs ys v
last_val-append (some x ∷ xs) ys v = last_val-append xs ys x

last_delta-append :
    (xs ys : List (Option ℕ)) (v d : ℕ)
    → last_delta v d (xs ++ ys) ≡ last_delta (last_val v xs) (last_delta v d xs) ys
last_delta-append [] ys v d = refl
last_delta-append (none ∷ xs) ys v d = last_delta-append xs ys v d
last_delta-append (some x ∷ xs) ys v d = last_delta-append xs ys x (minus64 x v)

AllWords-split : (xs ys : List (Option ℕ)) → AllWords (xs ++ ys) → AllWords xs × AllWords ys
AllWords-split [] ys w = (tt, w)
AllWords-split (none ∷ xs) ys w = AllWords-split xs ys w
AllWords-split (some x ∷ xs) ys w =
    ((w.0, (AllWords-split xs ys w.1).0), (AllWords-split xs ys w.1).1)

last-words :
    (xs : List (Option ℕ)) (v d : ℕ)
    → AllWords xs
    → v < 2 ^ 64
    → d < 2 ^ 64
    → (last_val v xs < 2 ^ 64) × (last_delta v d xs < 2 ^ 64)
last-words [] v d w h k = (h, k)
last-words (none ∷ xs) v d w h k = last-words xs v d w h k
last-words (some x ∷ xs) v d w h k = last-words xs x (minus64 x v) w.1 w.0 (omega arith)

abbrev Back : Simple8bRleDecompressionIterator → List ℕ → Type 0
Back = Yields Reverse.try_next_reverse

abbrev code : ℕ → ℕ → ℕ → ℕ
code v d x = zig_zag_encode (minus64 (minus64 x v) d)

previous_value-code :
    (v d x : ℕ) (ds rest ns : Simple8bRleDecompressionIterator) (b : Bool)
    → v < 2 ^ 64
    → d < 2 ^ 64
    → x < 2 ^ 64
    → Reverse.try_next_reverse ds ≡ some (some (code v d x), rest)
    → previous_value (iterator x (minus64 x v) ds ns b) ≡ some (val x, iterator v d rest ns b)
unfolding previous_value
previous_value-code v d x ds rest ns b h k l e =
    let delta = minus64 x v in
    let earlier : minus64 x delta ≡ v = omega arith in
    let before : minus64 delta (zig_zag_decode (zig_zag_encode (minus64 delta d))) ≡ d =
      ap (minus64 delta) (zig_zag_decode-zig_zag_encode (minus64 delta d) (omega arith))
      ∙ omega arith in
    ap (λ o. o >>= (λ result. some (undone (iterator x delta ds ns b) result))) e
    ∙ ap₂ (λ (y z : ℕ). some (val x, iterator y z rest ns b)) earlier before

previous_value-end :
    (v d : ℕ) (ds ns : Simple8bRleDecompressionIterator) (b : Bool)
    → Back ds []
    → (t : DeltaDeltaDecompressionIterator) × (previous_value (iterator v d ds ns b)
        ≡ some (is_done, t))
unfolding previous_value
previous_value-end v d ds ns b (t, e) =
    (iterator v d t ns b, ap (λ o. o >>= (λ result. some (undone (iterator v d ds ns b) result))) e)

-- The streams are read back into the values, with nulls or without.
abbrev ReadsBack : Bool → List (Option ℕ) → Type 0
ReadsBack b xs =
    (ds ns : Simple8bRleDecompressionIterator)
    → AllWords xs
    → Back ds (reverse (stream 0 0 xs))
    → (b ≡ true → Back ns (reverse (flags xs)))
    → (b ≡ false → any_null xs ≡ false)
    → Yields previous_result (iterator (last_val 0 xs) (last_delta 0 0 xs) ds ns b) (reverse xs)

ReadsBack-none : (b : Bool) → ReadsBack b []
unfolding previous_result try_next_reverse
ReadsBack-none true ds ns w y z a =
    let (t, e) = z refl in
    (iterator 0 0 ds t true, ap (λ o. shown (o >>= after_flag_rev (iterator 0 0 ds ns true))) e)
ReadsBack-none false ds ns w y z a =
    let (t, e) = previous_value-end 0 0 ds ns false y in (t, ap shown e)

previous_null :
    (v d : ℕ) (ds ns : Simple8bRleDecompressionIterator) (fs : List ℕ) (xs : List (Option ℕ))
    → Back ns (1 ∷ fs)
    → ((t : Simple8bRleDecompressionIterator)
        → Back t fs
        → Yields previous_result (iterator v d ds t true) xs)
    → Yields previous_result (iterator v d ds ns true) (none ∷ xs)
unfolding previous_result try_next_reverse
previous_null v d ds ns fs xs (t, e, z) r = (
  iterator v d ds t true,
  ap (λ o. shown (o >>= after_flag_rev (iterator v d ds ns true))) e,
  r t z,
)

previous_some :
    (v d x : ℕ) (ds ns : Simple8bRleDecompressionIterator) (cs fs : List ℕ) (xs : List (Option ℕ))
    (b : Bool)
    → v < 2 ^ 64
    → d < 2 ^ 64
    → x < 2 ^ 64
    → Back ds (code v d x ∷ cs)
    → (b ≡ true → Back ns (0 ∷ fs))
    → ((s t : Simple8bRleDecompressionIterator)
        → Back s cs
        → (b ≡ true → Back t fs)
        → Yields previous_result (iterator v d s t b) xs)
    → Yields previous_result (iterator x (minus64 x v) ds ns b) (some x ∷ xs)
unfolding previous_result try_next_reverse
previous_some v d x ds ns cs fs xs true h k l (s, f, y) z r =
    let (t, e, q) = z refl in
    (
      iterator v d s t true,
      ap (λ o. shown (o >>= after_flag_rev (iterator x (minus64 x v) ds ns true))) e
          ∙ ap shown (previous_value-code v d x ds s t true h k l f),
      r s t y (λ i. q),
    )
previous_some v d x ds ns cs fs xs false h k l (s, f, y) z r = (
  iterator v d s ns false,
  ap shown (previous_value-code v d x ds s ns false h k l f),
  r s ns y (λ i. absurd cc),
)

-- The state and the values, with one more at the end.
with_last :
    (xs : List (Option ℕ)) (o : Option ℕ) (ds ns : Simple8bRleDecompressionIterator) (b : Bool)
    → Yields previous_result
        (iterator
          (last_val (last_val 0 xs) (o ∷ []))
          (last_delta (last_val 0 xs) (last_delta 0 0 xs) (o ∷ []))
          ds
          ns
          b)
        (o ∷ reverse xs)
    → Yields previous_result
        (iterator (last_val 0 (xs ++ (o ∷ []))) (last_delta 0 0 (xs ++ (o ∷ []))) ds ns b)
        (reverse (xs ++ (o ∷ [])))
with_last xs o ds ns b y =
    subst
      (Yields previous_result
        (iterator (last_val 0 (xs ++ (o ∷ []))) (last_delta 0 0 (xs ++ (o ∷ []))) ds ns b))
      (sym (reverse-append xs (o ∷ [])))
      (subst (λ t. Yields previous_result t (o ∷ reverse xs))
        (ap₂ (λ (v d : ℕ). iterator v d ds ns b) (sym (last_val-append xs (o ∷ []) 0))
          (sym (last_delta-append xs (o ∷ []) 0 0)))
        y)

last_word :
    (xs : List (Option ℕ)) (o : Option ℕ) (ds : Simple8bRleDecompressionIterator)
    → Back ds (reverse (stream 0 0 (xs ++ (o ∷ []))))
    → Back ds
        (reverse (stream (last_val 0 xs) (last_delta 0 0 xs) (o ∷ [])) ++ reverse (stream 0 0 xs))
last_word xs o ds = subst (Back ds) (
    ap reverse (stream-append xs (o ∷ []) 0 0)
    ∙ reverse-append (stream 0 0 xs) (stream (last_val 0 xs) (last_delta 0 0 xs) (o ∷ [])))

last_flag :
    (xs : List (Option ℕ)) (o : Option ℕ) (ns : Simple8bRleDecompressionIterator)
    → Back ns (reverse (flags (xs ++ (o ∷ []))))
    → Back ns (reverse (flags (o ∷ [])) ++ reverse (flags xs))
last_flag xs o ns =
    subst (Back ns)
      (ap reverse (flags-append xs (o ∷ [])) ∙ reverse-append (flags xs) (flags (o ∷ [])))

no_null :
    (xs : List (Option ℕ)) (o : Option ℕ) → any_null (xs ++ (o ∷ [])) ≡ false → any_null xs ≡ false
no_null [] o h = refl
no_null (none ∷ xs) o h = absurd cc
no_null (some x ∷ xs) o h = no_null xs o h

null_last : (xs : List (Option ℕ)) → any_null (xs ++ (none ∷ [])) ≡ true
null_last [] = refl
null_last (none ∷ xs) = refl
null_last (some x ∷ xs) = null_last xs

ReadsBack-snoc :
    (b : Bool) (xs : List (Option ℕ)) (o : Option ℕ) → ReadsBack b xs → ReadsBack b (xs ++ (o ∷ []))
ReadsBack-snoc true xs none r ds ns w y z a = with_last xs none ds ns true (
    previous_null (last_val 0 xs) (last_delta 0 0 xs) ds ns (reverse (flags xs)) (reverse xs)
      (last_flag xs none ns (z refl))
      (λ t q.
        r ds t (AllWords-split xs (none ∷ []) w).0 (last_word xs none ds y) (λ i. q)
          (λ i. absurd cc)))
ReadsBack-snoc false xs none r ds ns w y z a =
    let found = null_last xs in let missing = a refl in absurd cc
ReadsBack-snoc b xs (some x) r ds ns w y z a =
    let v = last_val 0 xs in
    let d = last_delta 0 0 xs in
    let (w', u) = AllWords-split xs (some x ∷ []) w in
    let (h, k) = last-words xs 0 0 w' (omega arith) (omega arith) in
    with_last xs (some x) ds ns b (
      previous_some v d x ds ns (reverse (stream 0 0 xs)) (reverse (flags xs)) (reverse xs) b h k
        u.0 (last_word xs (some x) ds y) (λ i. last_flag xs (some x) ns (z i))
        (λ s t p q. r s t w' p q (λ i. no_null xs (some x) (a i))))

reads_back : (b : Bool) (xs : List (Option ℕ)) → ReadsBack b xs
reads_back b = snoc_induction (ReadsBack b) (ReadsBack-none b) (ReadsBack-snoc b)

abbrev form : ℕ → ℕ → Simple8bRleSerialized → Option Simple8bRleSerialized → DeltaDeltaCompressed
form v d s o = record { last_value = v; last_delta = d; delta_deltas = s; nulls = o }

init_with_nulls :
    (v d : ℕ) (s n : Simple8bRleSerialized) (ds ns : Simple8bRleDecompressionIterator)
    → Reverse.init_reverse s ≡ some ds
    → Reverse.init_reverse n ≡ some ns
    → init_reverse (form v d s (some n)) ≡ some (iterator v d ds ns true)
unfolding init_reverse
init_with_nulls v d s n ds ns e f =
    ap (λ o. o >>= (λ x. Reverse.init_reverse n >>= (λ y. some (iterator v d x y true)))) e
    ∙ ap (λ o. o >>= (λ y. some (iterator v d ds y true))) f

init_without_nulls :
    (v d : ℕ) (s : Simple8bRleSerialized) (ds : Simple8bRleDecompressionIterator)
    → Reverse.init_reverse s ≡ some ds
    → init_reverse (form v d s none) ≡ some (iterator v d ds zero_iterator false)
unfolding init_reverse
init_without_nulls v d s ds e = ap (λ o. o >>= (λ x. some (iterator v d x zero_iterator false))) e

same_form :
    (z : DeltaDeltaCompressed) (v d : ℕ) (o : Option Simple8bRleSerialized)
    → z.last_value ≡ v
    → z.last_delta ≡ d
    → z.nulls ≡ o
    → z ≡ form v d z.delta_deltas o
same_form z v d o p q g =
    ap₂ (λ (x y : ℕ). form x y z.delta_deltas z.nulls) p q ∙ ap (form v d z.delta_deltas) g

form-Yields_rev :
    (z : DeltaDeltaCompressed) (xs : List (Option ℕ))
    → AllWords xs
    → IsForm z xs
    → (iter : DeltaDeltaDecompressionIterator) × (init_reverse z ≡ some iter)
      × Yields previous_result iter (reverse xs)
form-Yields_rev z xs w (p, q, (i, j, f, (ds, e, y)), inl (a, (n, g, (i', j', f', (ns, e', y'))))) =
    let v = last_val 0 xs in
    let d = last_delta 0 0 xs in
    (
      iterator v d ds ns true,
      ap init_reverse (same_form z v d (some n) p q g)
          ∙ init_with_nulls v d z.delta_deltas n ds ns e e',
      reads_back true xs ds ns w y (λ i. y') (λ i. absurd cc),
    )
form-Yields_rev z xs w (p, q, (i, j, f, (ds, e, y)), inr (a, g)) =
    let v = last_val 0 xs in
    let d = last_delta 0 0 xs in
    (
      iterator v d ds zero_iterator false,
      ap init_reverse (same_form z v d none p q g) ∙ init_without_nulls v d z.delta_deltas ds e,
      reads_back false xs ds zero_iterator w y (λ i. absurd cc) (λ i. a),
    )

-- Words and nulls that are appended to a new compressor, fewer than 2 ^ 25 - 1 of them, are read by
-- the reverse iterator of the form that it finishes to, from the last one to the first, and then it is
-- done.
pub read_rev-finish :
    (xs : List (Option ℕ)) (z : DeltaDeltaCompressed) (n : ℕ)
    → AllWords xs
    → length xs < 2 ^ 25 - 1
    → compress xs ≡ some (some z)
    → length (reverse xs) < n
    → (init_reverse z >>= collect previous_result n) ≡ some (reverse xs)
read_rev-finish xs z n w l e h =
    let (o, f, v) = compress-IsFormOf xs w l in
    let (iter, g, y) =
      form-Yields_rev z xs w (subst (λ t. IsFormOf t xs) (some_injective (sym f ∙ e)) v) in
    ap (λ o. o >>= collect previous_result n) g
    ∙ Yields-collect previous_result (reverse xs) iter n y h
