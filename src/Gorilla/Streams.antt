-- ===== src/Gorilla/Streams.antt =====
-- The streams that the compressor of tsl/src/compression/gorilla.c appends to, as those of the steps.
use timescaledb.Base.{
  inl, inr, ℕ, ◌+◌, ◌-◌, ◌^◌, ◌≤◌, ◌<◌, ◌≡◌, refl, sym, ap, ◌∙◌, subst, List, [], ◌∷◌, ◌++◌, length,
  length-append, append-nil, arith, Bool, not, true, false, ◌||◌, Option, none, some, ◌>>=◌,
}
use timescaledb.Base.Bits.{bit_xor, shr}
use timescaledb.BitArray
use timescaledb.BitArray.RoundTrip
use timescaledb.Simple8b.Flush.{IsCompressor, compressor_append_lem}
use timescaledb.Gorilla.{GorillaCompressor, append_null, append_value, compressor_is_empty}
use timescaledb.Gorilla.Zeros.{undo, restores}
use timescaledb.Gorilla.Append.{Stored, Repeats, StoresXor, Reuses, Resizes, append_value_lem}
use timescaledb.Gorilla.Steps.{
  Step, null, same, reuse, fresh, State, step, shown, flags, any_null, tags, size_tags, leads,
  sizes, words, Fits,
}

-- `none` is a null.
unfoldable pub append_one : GorillaCompressor → Option ℕ → Option GorillaCompressor
append_one c none = append_null c
append_one c (some x) = append_value c x

unfoldable pub append_all : GorillaCompressor → List (Option ℕ) → Option GorillaCompressor
append_all c [] = some c
append_all c (x ∷ xs) = append_one c x >>= (λ d. append_all d xs)

abbrev pub IsWord : Option ℕ → Type 0
IsWord none = Unit
IsWord (some x) = x < 2 ^ 64

abbrev pub AllWords : List (Option ℕ) → Type 0
AllWords [] = Unit
AllWords (x ∷ xs) = IsWord x × AllWords xs

-- The state of a compressor that has stored these streams.
pub record Holds (c : GorillaCompressor) (s : State) (tags0 tags1 sizes flags : List ℕ)
    : Type 0 where
  pub stored : Stored c tags0 tags1 sizes flags
  pub last : c.prev_val ≡ s.value
  pub lead : c.prev_leading_zeroes ≡ s.leading
  pub used : 0 < length sizes → s.bits ≡ 64 - (c.prev_leading_zeroes + c.prev_trailing_zeros)
  pub covered : 0 < length tags0 → 0 < length sizes

-- What `x` has added between two states of the compressor.
pub record Adds (c e : GorillaCompressor) (s : State) (x : Step) : Type 0 where
  pub lead_array : e.leading_zeros ≡ RoundTrip.append_all c.leading_zeros (leads (x ∷ []))
  pub xor_array : e.xors ≡ RoundTrip.append_all c.xors (words s (x ∷ []))
  pub null_seen : e.has_nulls ≡ (c.has_nulls || any_null (x ∷ []))
  pub fits : Fits s x

abbrev pub Steps : GorillaCompressor → State → Option ℕ → List ℕ → List ℕ → List ℕ → List ℕ → Type 0
Steps c s x tags0 tags1 sizes₀ flags₀ =
    (e : GorillaCompressor) × (y : Step) × (append_one c x ≡ some e)
    × (shown s y ≡ x)
    × Adds c e s y
    × Holds e (step s y) (tags0 ++ tags (y ∷ [])) (tags1 ++ size_tags (y ∷ []))
        (sizes₀ ++ sizes (y ∷ [])) (flags₀ ++ flags (y ∷ []))

longer : (xs : List ℕ) (x : ℕ) → 0 < length (xs ++ (x ∷ []))
longer xs x = omega (arith, length-append xs (x ∷ []))

-- There is a flag for each value, and at most one element of any other stream.
fewer :
    (xs ys flags : List ℕ) (flag : ℕ)
    → length xs ≤ length flags
    → length ys ≤ 1
    → length (xs ++ ys) ≤ length (flags ++ (flag ∷ []))
fewer xs ys flags flag h k =
    omega (arith, h, k, length-append xs ys, length-append flags (flag ∷ []))

append_null_lem :
    (c : GorillaCompressor) (s : State) (t0 t1 sz fl : List ℕ)
    → Holds c s t0 t1 sz fl
    → length fl < 2 ^ 25
    → Steps c s none t0 t1 sz fl
unfolding append_one append_null RoundTrip.append_all
append_null_lem c s t0 t1 sz fl h few =
    let (n, f, w) = compressor_append_lem c.nulls fl 1 h.stored.null_flags (omega arith) few in
    let same0 = subst (λ xs. Holds c s xs t1 sz fl) (sym (append-nil t0)) h in
    let same1 = subst (λ xs. Holds c s (t0 ++ []) xs sz fl) (sym (append-nil t1)) same0 in
    let k = subst (λ xs. Holds c s (t0 ++ []) (t1 ++ []) xs fl) (sym (append-nil sz)) same1 in
    (
      record c { nulls = n; has_nulls = true },
      null,
      ap (λ o. o >>= (λ nulls. some (record c { nulls = nulls; has_nulls = true }))) {y = some n} f,
      refl,
      record { lead_array = refl; xor_array = refl; null_seen = ground arith; fits = tt },
      record {
        stored = record {
          first_tags = k.stored.first_tags;
          second_tags = k.stored.second_tags;
          bits_used = k.stored.bits_used;
          null_flags = w;
          last_below = k.stored.last_below;
          fewer_tags = fewer t0 ([]) fl 1 h.stored.fewer_tags (omega arith);
          fewer_second = fewer t1 ([]) fl 1 h.stored.fewer_second (omega arith);
          fewer_sizes = fewer sz ([]) fl 1 h.stored.fewer_sizes (omega arith);
        };
        last = k.last;
        lead = k.lead;
        used = k.used;
        covered = k.covered;
      },
    )

pub or_false : (b : Bool) → b ≡ (b || false)
or_false true = refl
or_false false = refl

longer_nil : (xs : List ℕ) → 0 < length xs → 0 < length (xs ++ [])
longer_nil xs h = omega (arith, h, length-append xs [])

append_same :
    (c e : GorillaCompressor) (s : State) (x : ℕ) (t0 t1 sz fl : List ℕ)
    → x < 2 ^ 64
    → Holds c s t0 t1 sz fl
    → append_value c x ≡ some e
    → e.prev_val ≡ x
    → e.has_nulls ≡ c.has_nulls
    → IsCompressor e.nulls (fl ++ (0 ∷ []))
    → Repeats c e x t0 sz
    → Steps c s (some x) t0 t1 sz fl
unfolding append_one RoundTrip.append_all
append_same c e s x t0 t1 sz fl l h f v n k (q, some_values, some_size, w0, t, b, z, y, p, r) =
    let tags1 = subst (λ d. IsCompressor d t1) (sym t) h.stored.second_tags in
    let sizes = subst (λ d. IsCompressor d sz) (sym b) h.stored.bits_used in
    let used : s.bits ≡ 64 - (e.prev_leading_zeroes + e.prev_trailing_zeros) =
      omega (arith, h.used some_size, p, r) in
    (
      e,
      same,
      f,
      ap some (sym h.last ∙ sym q),
      record { lead_array = z; xor_array = y; null_seen = n ∙ or_false c.has_nulls; fits = tt },
      record {
        stored = record {
          first_tags = w0;
          second_tags = subst (IsCompressor e.tag1s) (sym (append-nil t1)) tags1;
          bits_used = subst (IsCompressor e.bits_used_per_xor) (sym (append-nil sz)) sizes;
          null_flags = k;
          last_below = subst (λ (t : ℕ). t < 2 ^ 64) (sym v) l;
          fewer_tags = fewer t0 (0 ∷ []) fl 0 h.stored.fewer_tags (omega arith);
          fewer_second = fewer t1 ([]) fl 0 h.stored.fewer_second (omega arith);
          fewer_sizes = fewer sz ([]) fl 0 h.stored.fewer_sizes (omega arith);
        };
        last = v ∙ q ∙ h.last;
        lead = p ∙ h.lead;
        used = λ m. used;
        covered = λ m. longer_nil sz some_size;
      },
    )

append_reuse :
    (c e : GorillaCompressor) (s : State) (x : ℕ) (t0 t1 sz fl : List ℕ)
    → x < 2 ^ 64
    → Holds c s t0 t1 sz fl
    → append_value c x ≡ some e
    → e.prev_val ≡ x
    → e.has_nulls ≡ c.has_nulls
    → IsCompressor e.nulls (fl ++ (0 ∷ []))
    → StoresXor c e x t0
    → Reuses c e (not (compressor_is_empty c.bits_used_per_xor)) (bit_xor c.prev_val x) t1 sz
    → Steps c s (some x) t0 t1 sz fl
unfolding append_one RoundTrip.append_all
append_reuse c e s x t0 t1 sz fl l h f v n k (other, z, y, w0) (serve, w1, some_size, p, q, r, b) =
    let size = 64 - (e.prev_leading_zeroes + e.prev_trailing_zeros) in
    let w = shr (bit_xor c.prev_val x) e.prev_trailing_zeros in
    let (back, below) =
      restores c.prev_val x e.prev_leading_zeroes e.prev_trailing_zeros size h.stored.last_below l z
        refl in
    let en : size ≡ s.bits = omega (arith, h.used some_size, p, q) in
    let restored : undo s.value s.leading s.bits w ≡ x =
      ap (λ (t : ℕ). undo t s.leading s.bits w) (sym h.last)
      ∙ ap (λ (t : ℕ). undo c.prev_val t s.bits w) (sym (p ∙ h.lead))
      ∙ ap (λ (t : ℕ). undo c.prev_val e.prev_leading_zeroes t w) (sym en)
      ∙ back in
    (
      e,
      reuse w,
      f,
      ap some restored,
      record {
        lead_array = r;
        xor_array = y ∙ ap (λ (t : ℕ). BitArray.append c.xors t w) en;
        null_seen = n ∙ or_false c.has_nulls;
        fits = (omega (arith, en), subst (λ (t : ℕ). w < 2 ^ t) en below);
      },
      record {
        stored = record {
          first_tags = w0;
          second_tags = w1;
          bits_used = subst (IsCompressor e.bits_used_per_xor) (sym (append-nil sz)) b;
          null_flags = k;
          last_below = subst (λ (t : ℕ). t < 2 ^ 64) (sym v) l;
          fewer_tags = fewer t0 (1 ∷ []) fl 0 h.stored.fewer_tags (omega arith);
          fewer_second = fewer t1 (0 ∷ []) fl 0 h.stored.fewer_second (omega arith);
          fewer_sizes = fewer sz ([]) fl 0 h.stored.fewer_sizes (omega arith);
        };
        last = v ∙ sym restored;
        lead = p ∙ h.lead;
        used = λ m. sym en;
        covered = λ m. longer_nil sz some_size;
      },
    )

append_fresh :
    (c e : GorillaCompressor) (s : State) (x : ℕ) (t0 t1 sz fl : List ℕ)
    → x < 2 ^ 64
    → Holds c s t0 t1 sz fl
    → append_value c x ≡ some e
    → e.prev_val ≡ x
    → e.has_nulls ≡ c.has_nulls
    → IsCompressor e.nulls (fl ++ (0 ∷ []))
    → StoresXor c e x t0
    → Resizes c e (not (compressor_is_empty c.bits_used_per_xor)) (bit_xor c.prev_val x) t1 sz
    → Steps c s (some x) t0 t1 sz fl
unfolding append_one RoundTrip.append_all
append_fresh c e s x t0 t1 sz fl l h f v n k (other, z, y, w0)
      (not_served, lead_of, trail_of, w1, small, r, b) =
    let size = 64 - (e.prev_leading_zeroes + e.prev_trailing_zeros) in
    let w = shr (bit_xor c.prev_val x) e.prev_trailing_zeros in
    let (back, below) =
      restores c.prev_val x e.prev_leading_zeroes e.prev_trailing_zeros size h.stored.last_below l z
        refl in
    let restored : undo s.value e.prev_leading_zeroes size w ≡ x =
      ap (λ (t : ℕ). undo t e.prev_leading_zeroes size w) (sym h.last) ∙ back in
    (
      e,
      fresh e.prev_leading_zeroes size w,
      f,
      ap some restored,
      record {
        lead_array = r;
        xor_array = y;
        null_seen = n ∙ or_false c.has_nulls;
        fits = (small, omega arith, below);
      },
      record {
        stored = record {
          first_tags = w0;
          second_tags = w1;
          bits_used = b;
          null_flags = k;
          last_below = subst (λ (t : ℕ). t < 2 ^ 64) (sym v) l;
          fewer_tags = fewer t0 (1 ∷ []) fl 0 h.stored.fewer_tags (omega arith);
          fewer_second = fewer t1 (1 ∷ []) fl 0 h.stored.fewer_second (omega arith);
          fewer_sizes = fewer sz (size ∷ []) fl 0 h.stored.fewer_sizes (omega arith);
        };
        last = v ∙ sym restored;
        lead = refl;
        used = λ m. refl;
        covered = λ m. longer sz size;
      },
    )

pub append_one_lem :
    (c : GorillaCompressor) (s : State) (x : Option ℕ) (t0 t1 sz fl : List ℕ)
    → IsWord x
    → Holds c s t0 t1 sz fl
    → length fl < 2 ^ 25
    → Steps c s x t0 t1 sz fl
append_one_lem c s none t0 t1 sz fl l h few = append_null_lem c s t0 t1 sz fl h few
append_one_lem c s (some x) t0 t1 sz fl l h few =
    let (e, f, v, n, k, a) = append_value_lem c x t0 t1 sz fl h.stored l few in
    elim a [
      | inl r ↦ append_same c e s x t0 t1 sz fl l h f v n k r
      | inr (z, inl r) ↦ append_reuse c e s x t0 t1 sz fl l h f v n k z r
      | inr (z, inr r) ↦ append_fresh c e s x t0 t1 sz fl l h f v n k z r
    ]
