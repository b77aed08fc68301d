-- ===== src/Gorilla/Chain.antt =====
-- All values that are appended to the compressor of tsl/src/compression/gorilla.c, one after the other.
use timescaledb.Base.{
  ℕ, ◌+◌, ◌^◌, ◌<◌, arith, length-append, ◌≡◌, refl, sym, ap, ap₂, ◌∙◌, subst, List, [], ◌∷◌, ◌++◌,
  length, append_assoc, append-nil, Bool, true, false, ◌||◌, Option, some, ◌>>=◌,
}
use timescaledb.BitArray
use timescaledb.BitArray.RoundTrip
use timescaledb.Gorilla.{GorillaCompressor}
use timescaledb.Gorilla.Append.{Stored}
use timescaledb.Gorilla.Steps.{
  Step, State, step, decode, flags, any_null, tags, size_tags, leads, sizes, words, AllFit,
  flags-cons, tags-cons, size_tags-cons, sizes-cons, leads-cons, words-cons, any_null-cons, lengths,
}
use timescaledb.Gorilla.Streams.{append_all, AllWords, Holds, Adds, or_false, append_one_lem}

-- What the steps `ys` have added between two states of the compressor.
pub record AddsAll (c e : GorillaCompressor) (s : State) (ys : List Step) : Type 0 where
  pub lead_array : e.leading_zeros ≡ RoundTrip.append_all c.leading_zeros (leads ys)
  pub xor_array : e.xors ≡ RoundTrip.append_all c.xors (words s ys)
  pub null_seen : e.has_nulls ≡ (c.has_nulls || any_null ys)
  pub fits : AllFit s ys

-- The streams of the tags, the sizes and the flags of the compressor, and what they say together.
pub record Streamed (e : GorillaCompressor) (tags0 tags1 sizes flags : List ℕ) : Type 0 where
  pub stored : Stored e tags0 tags1 sizes flags
  pub covered : 0 < length tags0 → 0 < length sizes

Streamed-nil :
    (c : GorillaCompressor) (s : State) (t0 t1 sz fl : List ℕ)
    → Holds c s t0 t1 sz fl
    → Streamed c (t0 ++ []) (t1 ++ []) (sz ++ []) (fl ++ [])
Streamed-nil c s t0 t1 sz fl h =
    let k0 : Streamed c t0 t1 sz fl = record { stored = h.stored; covered = h.covered } in
    let k1 = subst (λ xs. Streamed c xs t1 sz fl) (sym (append-nil t0)) k0 in
    let k2 = subst (λ xs. Streamed c (t0 ++ []) xs sz fl) (sym (append-nil t1)) k1 in
    let k3 = subst (λ xs. Streamed c (t0 ++ []) (t1 ++ []) xs fl) (sym (append-nil sz)) k2 in
    subst (λ xs. Streamed c (t0 ++ []) (t1 ++ []) (sz ++ []) xs) (sym (append-nil fl)) k3

-- The streams of a first step and of those after it are the streams of all.
regroup : (xs ys zs ws : List ℕ) → ws ≡ ys ++ zs → (xs ++ ys) ++ zs ≡ xs ++ ws
regroup xs ys zs ws e = append_assoc xs ys zs ∙ ap (λ ts. xs ++ ts) (sym e)

Streamed-cons :
    (e : GorillaCompressor) (y : Step) (ys : List Step) (t0 t1 sz fl : List ℕ)
    → Streamed e
        ((t0 ++ tags (y ∷ [])) ++ tags ys)
        ((t1 ++ size_tags (y ∷ [])) ++ size_tags ys)
        ((sz ++ sizes (y ∷ [])) ++ sizes ys)
        ((fl ++ flags (y ∷ [])) ++ flags ys)
    → Streamed e
        (t0 ++ tags (y ∷ ys))
        (t1 ++ size_tags (y ∷ ys))
        (sz ++ sizes (y ∷ ys))
        (fl ++ flags (y ∷ ys))
Streamed-cons e y ys t0 t1 sz fl h =
    let p0 = regroup t0 (tags (y ∷ [])) (tags ys) (tags (y ∷ ys)) (tags-cons y ys) in
    let p1 =
      regroup t1 (size_tags (y ∷ [])) (size_tags ys) (size_tags (y ∷ ys)) (size_tags-cons y ys) in
    let p2 = regroup sz (sizes (y ∷ [])) (sizes ys) (sizes (y ∷ ys)) (sizes-cons y ys) in
    let p3 = regroup fl (flags (y ∷ [])) (flags ys) (flags (y ∷ ys)) (flags-cons y ys) in
    let k1 =
      subst
        (λ xs.
          Streamed e xs ((t1 ++ size_tags (y ∷ [])) ++ size_tags ys)
            ((sz ++ sizes (y ∷ [])) ++ sizes ys) ((fl ++ flags (y ∷ [])) ++ flags ys))
        p0 h in
    let k2 =
      subst
        (λ xs.
          Streamed e (t0 ++ tags (y ∷ ys)) xs ((sz ++ sizes (y ∷ [])) ++ sizes ys)
            ((fl ++ flags (y ∷ [])) ++ flags ys))
        p1 k1 in
    let k3 =
      subst
        (λ xs.
          Streamed e (t0 ++ tags (y ∷ ys)) (t1 ++ size_tags (y ∷ ys)) xs
            ((fl ++ flags (y ∷ [])) ++ flags ys))
        p2 k2 in
    subst
      (λ xs. Streamed e (t0 ++ tags (y ∷ ys)) (t1 ++ size_tags (y ∷ ys)) (sz ++ sizes (y ∷ ys)) xs)
      p3 k3

append_all_two :
    (array : BitArray.BitArray) (xs ys : List (ℕ × ℕ))
    → RoundTrip.append_all (RoundTrip.append_all array xs) ys
      ≡ RoundTrip.append_all array (xs ++ ys)
unfolding RoundTrip.append_all
append_all_two array [] ys = refl
append_all_two array ((k, x) ∷ xs) ys = append_all_two (BitArray.append array k x) xs ys

or_or : (a b c d : Bool) → d ≡ (b || c) → ((a || b) || c) ≡ (a || d)
or_or true b c d e = refl
or_or false b c d e = sym e

AddsAll-nil : (c : GorillaCompressor) (s : State) → AddsAll c c s []
unfolding RoundTrip.append_all
AddsAll-nil c s = record {
  lead_array = refl;
  xor_array = refl;
  null_seen = or_false c.has_nulls;
  fits = tt;
}

AddsAll-cons :
    (c d e : GorillaCompressor) (s : State) (y : Step) (ys : List Step)
    → Adds c d s y
    → AddsAll d e (step s y) ys
    → AddsAll c e s (y ∷ ys)
AddsAll-cons c d e s y ys h k = record {
  lead_array =
      k.lead_array
      ∙ ap (λ t. RoundTrip.append_all t (leads ys)) h.lead_array
      ∙ append_all_two c.leading_zeros (leads (y ∷ [])) (leads ys)
      ∙ ap (RoundTrip.append_all c.leading_zeros) (sym (leads-cons y ys));
  xor_array =
      k.xor_array
      ∙ ap (λ t. RoundTrip.append_all t (words (step s y) ys)) h.xor_array
      ∙ append_all_two c.xors (words s (y ∷ [])) (words (step s y) ys)
      ∙ ap (RoundTrip.append_all c.xors) (sym (words-cons s y ys));
  null_seen =
      k.null_seen
      ∙ ap (λ b. b || any_null ys) h.null_seen
      ∙ or_or c.has_nulls (any_null (y ∷ [])) (any_null ys) (any_null (y ∷ ys))
          (any_null-cons y ys);
  fits = (h.fits, k.fits);
}

pub append_all_lem :
    (xs : List (Option ℕ)) (c : GorillaCompressor) (s : State) (t0 t1 sz fl : List ℕ)
    → AllWords xs
    → Holds c s t0 t1 sz fl
    → length fl + length xs < 2 ^ 25
    → (e : GorillaCompressor) × (ys : List Step) × (append_all c xs ≡ some e)
      × (decode s ys ≡ xs)
      × AddsAll c e s ys
      × Streamed e (t0 ++ tags ys) (t1 ++ size_tags ys) (sz ++ sizes ys) (fl ++ flags ys)
unfolding append_all
append_all_lem [] c s t0 t1 sz fl w h few =
    (c, [], refl, refl, AddsAll-nil c s, Streamed-nil c s t0 t1 sz fl h)
append_all_lem (x ∷ xs) c s t0 t1 sz fl w h few =
    let (d, y, f, g, a, k) = append_one_lem c s x t0 t1 sz fl w.0 h (omega arith) in
    let (e, ys, f', g', b, m) =
      append_all_lem xs d (step s y) (t0 ++ tags (y ∷ [])) (t1 ++ size_tags (y ∷ []))
        (sz ++ sizes (y ∷ [])) (fl ++ flags (y ∷ [])) w.1 k
        (omega (arith, length-append fl (flags (y ∷ [])), (lengths s (y ∷ [])).0)) in
    (
      e,
      y ∷ ys,
      ap (λ o. o >>= (λ d. append_all d xs)) f ∙ f',
      ap₂ (◌∷◌) g g',
      AddsAll-cons c d e s y ys a b,
      Streamed-cons e y ys t0 t1 sz fl m,
    )
