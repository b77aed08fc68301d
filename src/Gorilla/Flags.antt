-- ===== src/Gorilla/Flags.antt =====
-- The forward iterator of tsl/src/compression/gorilla.c with the flags of nulls and without them.
use timescaledb.Base.{
  ℕ, ◌≡◌, refl, sym, ap, ◌∙◌, subst, List, [], ◌∷◌, true, false, Option, none, some, ◌>>=◌,
  if◌then◌else◌,
}
use timescaledb.Base.Streams.{Yields}
use timescaledb.Simple8b.Iterator
use timescaledb.Simple8b.Iterator.{Simple8bRleDecompressionIterator}
use timescaledb.Gorilla.{
  GorillaDecompressionIterator, after_tag0, next_value, after_flag, try_next_forward,
}
use timescaledb.Gorilla.Steps.{
  Step, null, same, reuse, fresh, State, step, decode, flags, any_null, Fits, AllFit,
}
use timescaledb.Gorilla.Forward.{result, next_result, Values, Before, give}

-- Another state of the flags leaves the streams of values alone.
flags_read :
    (i : GorillaDecompressionIterator) (t : Simple8bRleDecompressionIterator) (s : State)
    (xs : List Step)
    → Before i s xs
    → Before (record i { nulls = t }) s xs
flags_read i t s xs b = record {
  first_tags = b.first_tags;
  second_tags = b.second_tags;
  bits_used = b.bits_used;
  lead_end = b.lead_end;
  lead_at = b.lead_at;
  xor_end = b.xor_end;
  xor_at = b.xor_at;
  last = b.last;
  lead = b.lead;
  used = b.used;
}

after_null :
    (i : GorillaDecompressionIterator) (s : State) (xs : List Step)
    → Before i s (null ∷ xs)
    → Before i s xs
after_null i s xs b = record {
  first_tags = b.first_tags;
  second_tags = b.second_tags;
  bits_used = b.bits_used;
  lead_end = b.lead_end;
  lead_at = b.lead_at;
  xor_end = b.xor_end;
  xor_at = b.xor_at;
  last = b.last;
  lead = b.lead;
  used = b.used;
}

flagged :
    (i : GorillaDecompressionIterator) (o : Option (Option ℕ × Simple8bRleDecompressionIterator))
    → i.has_nulls ≡ true
    → Iterator.try_next_forward i.nulls ≡ o
    → next_result i ≡ result (o >>= after_flag i)
unfolding next_result try_next_forward
flagged i o h e =
    ap
      (λ b.
        result (if b then (Iterator.try_next_forward i.nulls >>= after_flag i) else next_value i))
      h
    ∙ ap (λ o. result (o >>= after_flag i)) e

flagged_value :
    (i : GorillaDecompressionIterator) (s : State) (x : Step) (xs : List Step)
    → any_null (x ∷ []) ≡ false
    → i.has_nulls ≡ true
    → Fits s x
    → Before i s (x ∷ xs)
    → Values i.nulls (0 ∷ flags xs)
    → ((j : GorillaDecompressionIterator)
        → j.has_nulls ≡ true
        → Before j (step s x) xs
        → Values j.nulls (flags xs)
        → Yields next_result j (decode (step s x) xs))
    → Yields next_result i (decode s (x ∷ xs))
flagged_value i s x xs v h f b (t, e, z) rest =
    let (j, g, k, l, m) = give (record i { nulls = t }) s x xs v f (flags_read i t s (x ∷ xs) b) in
    (
      j,
      flagged i (some (some 0, t)) h e ∙ g,
      rest j (l ∙ h) k (subst (λ u. Values u (flags xs)) (sym m) z),
    )

pub read_with_nulls :
    (xs : List Step) (i : GorillaDecompressionIterator) (s : State)
    → i.has_nulls ≡ true
    → AllFit s xs
    → Before i s xs
    → Values i.nulls (flags xs)
    → Yields next_result i (decode s xs)
read_with_nulls [] i s h a b (t, e) = (record i { nulls = t }, flagged i (some (none, t)) h e)
read_with_nulls (null ∷ xs) i s h a b (t, e, z) = (
  record i { nulls = t },
  flagged i (some (some 1, t)) h e,
  read_with_nulls xs (record i { nulls = t }) s h a.1 (flags_read i t s xs (after_null i s xs b)) z,
)
read_with_nulls (same ∷ xs) i s h a b ns =
    flagged_value i s same xs refl h a.0 b ns (λ j h k z. read_with_nulls xs j s h a.1 k z)
read_with_nulls (reuse w ∷ xs) i s h a b ns =
    flagged_value i s (reuse w) xs refl h a.0 b ns
      (λ j h k z. read_with_nulls xs j (step s (reuse w)) h a.1 k z)
read_with_nulls (fresh l n w ∷ xs) i s h a b ns =
    flagged_value i s (fresh l n w) xs refl h a.0 b ns
      (λ j h k z. read_with_nulls xs j (step s (fresh l n w)) h a.1 k z)

unflagged :
    (i : GorillaDecompressionIterator) → i.has_nulls ≡ false → next_result i ≡ result (next_value i)
unfolding next_result try_next_forward
unflagged i h =
    ap
      (λ b.
        result (if b then (Iterator.try_next_forward i.nulls >>= after_flag i) else next_value i))
      h

give_end :
    (i : GorillaDecompressionIterator) (s : State)
    → Before i s []
    → (t : GorillaDecompressionIterator) × (result (next_value i) ≡ some (none, t))
unfolding next_value
give_end i s b =
    let (t, e) = b.first_tags in (record i { tag0s = t }, ap (λ o. result (o >>= after_tag0 i)) e)

plain_value :
    (i : GorillaDecompressionIterator) (s : State) (x : Step) (xs : List Step)
    → any_null (x ∷ []) ≡ false
    → i.has_nulls ≡ false
    → Fits s x
    → Before i s (x ∷ xs)
    → ((j : GorillaDecompressionIterator)
        → j.has_nulls ≡ false
        → Before j (step s x) xs
        → Yields next_result j (decode (step s x) xs))
    → Yields next_result i (decode s (x ∷ xs))
plain_value i s x xs v h f b rest =
    let (j, g, k, l, m) = give i s x xs v f b in (j, unflagged i h ∙ g, rest j (l ∙ h) k)

pub read_without_nulls :
    (xs : List Step) (i : GorillaDecompressionIterator) (s : State)
    → any_null xs ≡ false
    → i.has_nulls ≡ false
    → AllFit s xs
    → Before i s xs
    → Yields next_result i (decode s xs)
read_without_nulls [] i s n h a b = let (t, e) = give_end i s b in (t, unflagged i h ∙ e)
read_without_nulls (null ∷ xs) i s n h a b = absurd cc
read_without_nulls (same ∷ xs) i s n h a b =
    plain_value i s same xs refl h a.0 b (λ j h k. read_without_nulls xs j s n h a.1 k)
read_without_nulls (reuse w ∷ xs) i s n h a b =
    plain_value i s (reuse w) xs refl h a.0 b
      (λ j h k. read_without_nulls xs j (step s (reuse w)) n h a.1 k)
read_without_nulls (fresh l n w ∷ xs) i s m h a b =
    plain_value i s (fresh l n w) xs refl h a.0 b
      (λ j h k. read_without_nulls xs j (step s (fresh l n w)) m h a.1 k)
