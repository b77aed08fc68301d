-- ===== src/DeltaDelta/Streams.antt =====
-- The two streams that the compressor of tsl/src/compression/deltadelta.c appends to.
use timescaledb.Base.{
  ℕ, suc, ◌+◌, ◌^◌, ◌≤◌, ◌<◌, ◌≡◌, refl, sym, ap, ap₂, ◌∙◌, subst, Bool, true, false, ◌||◌, Option,
  none, some, ◌>>=◌, List, [], ◌∷◌, ◌++◌, append-nil, append_assoc, length, length-append, arith,
}
use timescaledb.Simple8b.Compressor.{Simple8bRleCompressor, compressor_append}
use timescaledb.Simple8b.Flush.{IsCompressor, compressor_append_lem}
use timescaledb.DeltaDelta.{
  DeltaDeltaCompressor, minus64, zig_zag_encode, append_null, append_value,
}
use timescaledb.DeltaDelta.ZigZag.{zig_zag_encode-word}

-- `none` is a null.
unfoldable pub append_all : DeltaDeltaCompressor → List (Option ℕ) → Option DeltaDeltaCompressor
append_all c [] = some c
append_all c (none ∷ xs) = append_null c >>= (λ d. append_all d xs)
append_all c (some x ∷ xs) = append_value c x >>= (λ d. append_all d xs)

abbrev pub AllWords : List (Option ℕ) → Type 0
AllWords [] = Unit
AllWords (none ∷ xs) = AllWords xs
AllWords (some x ∷ xs) = (x < 2 ^ 64) × AllWords xs

-- The streams of the values, from a last value and a last delta on.
abbrev pub stream : ℕ → ℕ → List (Option ℕ) → List ℕ
stream v d [] = []
stream v d (none ∷ xs) = stream v d xs
stream v d (some x ∷ xs) = zig_zag_encode (minus64 (minus64 x v) d) ∷ stream x (minus64 x v) xs

abbrev pub flags : List (Option ℕ) → List ℕ
flags [] = []
flags (none ∷ xs) = 1 ∷ flags xs
flags (some x ∷ xs) = 0 ∷ flags xs

abbrev pub any_null : List (Option ℕ) → Bool
any_null [] = false
any_null (none ∷ xs) = true
any_null (some x ∷ xs) = any_null xs

-- The last value and the last delta.
abbrev pub last_val : ℕ → List (Option ℕ) → ℕ
last_val v [] = v
last_val v (none ∷ xs) = last_val v xs
last_val v (some x ∷ xs) = last_val x xs

abbrev pub last_delta : ℕ → ℕ → List (Option ℕ) → ℕ
last_delta v d [] = d
last_delta v d (none ∷ xs) = last_delta v d xs
last_delta v d (some x ∷ xs) = last_delta x (minus64 x v) xs

pub length-stream : (v d : ℕ) (xs : List (Option ℕ)) → length (stream v d xs) ≤ length xs
length-stream v d [] = omega arith
length-stream v d (none ∷ xs) = omega (arith, length-stream v d xs)
length-stream v d (some x ∷ xs) = omega (arith, length-stream x (minus64 x v) xs)

pub length-flags : (xs : List (Option ℕ)) → length (flags xs) ≡ length xs
length-flags [] = refl
length-flags (none ∷ xs) = ap suc (length-flags xs)
length-flags (some x ∷ xs) = ap suc (length-flags xs)

-- The state of a compressor that holds two streams.
abbrev pub Holds : DeltaDeltaCompressor → ℕ → ℕ → List ℕ → List ℕ → Bool → Type 0
Holds c v d ds ns b =
    (c.prev_val ≡ v)
    × (c.prev_delta ≡ d)
    × IsCompressor c.delta_delta ds
    × IsCompressor c.nulls ns
    × (c.has_nulls ≡ b)

append_null_lem :
    (c : DeltaDeltaCompressor) (v d : ℕ) (ds ns : List ℕ) (b : Bool)
    → Holds c v d ds ns b
    → length ns < 2 ^ 25
    → (e : DeltaDeltaCompressor) × (append_null c ≡ some e) × Holds e v d ds (ns ++ (1 ∷ [])) true
unfolding append_null
append_null_lem c v d ds ns b (p, q, r, s, t) short =
    let (n, f, w) = compressor_append_lem c.nulls ns 1 s (omega arith) short in
    (
      record c { has_nulls = true; nulls = n },
      ap (λ o. o >>= (λ n. some (with_null c n))) f,
      (p, q, r, w, refl),
    )
  where
    with_null : DeltaDeltaCompressor → Simple8bRleCompressor → DeltaDeltaCompressor
    with_null c n = record c { has_nulls = true; nulls = n }

append_value_lem :
    (c : DeltaDeltaCompressor) (v d x : ℕ) (ds ns : List ℕ) (b : Bool)
    → x < 2 ^ 64
    → Holds c v d ds ns b
    → length ds < 2 ^ 25
    → length ns < 2 ^ 25
    → (e : DeltaDeltaCompressor) × (append_value c x ≡ some e)
      × Holds e x
          (minus64 x v)
          (ds ++ (zig_zag_encode (minus64 (minus64 x v) d) ∷ []))
          (ns ++ (0 ∷ []))
          b
unfolding append_value
append_value_lem c v d x ds ns b h (p, q, r, s, t) few short =
    let delta = minus64 x c.prev_val in
    let code = zig_zag_encode (minus64 delta c.prev_delta) in
    let same : code ≡ zig_zag_encode (minus64 (minus64 x v) d) =
      ap₂ (λ (y z : ℕ). zig_zag_encode (minus64 (minus64 x y) z)) p q in
    let (e, f, w) =
      compressor_append_lem c.delta_delta ds code r
        (zig_zag_encode-word (minus64 delta c.prev_delta) (omega arith)) few in
    let (n, g, u) = compressor_append_lem c.nulls ns 0 s (omega arith) short in
    let next : Simple8bRleCompressor → Simple8bRleCompressor → DeltaDeltaCompressor =
      λ e n. record c { prev_val = x; prev_delta = delta; delta_delta = e; nulls = n } in
    (
      next e n,
      ap (λ o. o >>= (λ e. compressor_append c.nulls 0 >>= (λ n. some (next e n)))) f
          ∙ ap (λ o. o >>= (λ n. some (next e n))) g,
      (refl, ap (minus64 x) p, subst (λ t. IsCompressor e (ds ++ (t ∷ []))) same w, u, t),
    )

pub append_all_lem :
    (c : DeltaDeltaCompressor) (v d : ℕ) (ds ns : List ℕ) (b : Bool) (xs : List (Option ℕ))
    → AllWords xs
    → Holds c v d ds ns b
    → length ds ≤ length ns
    → length ns + length xs < 2 ^ 25
    → (e : DeltaDeltaCompressor) × (append_all c xs ≡ some e)
      × Holds e
          (last_val v xs)
          (last_delta v d xs)
          (ds ++ stream v d xs)
          (ns ++ flags xs)
          (b || any_null xs)
unfolding append_all
append_all_lem c v d ds ns b [] a (p, q, r, s, t) few short = (
  c,
  refl,
  (
    p,
    q,
    subst (IsCompressor c.delta_delta) (sym (append-nil ds)) r,
    subst (IsCompressor c.nulls) (sym (append-nil ns)) s,
    t ∙ ground arith,
  ),
)
append_all_lem c v d ds ns b (none ∷ xs) a h few short =
    let (e, f, w) = append_null_lem c v d ds ns b h (omega (arith, short)) in
    let (e', f', (p, q, r, s, t)) =
      append_all_lem e v d ds (ns ++ (1 ∷ [])) true xs a w
        (omega (arith, few, length-append ns (1 ∷ [])))
        (omega (arith, short, length-append ns (1 ∷ []))) in
    (
      e',
      ap (λ o. o >>= (λ d. append_all d xs)) f ∙ f',
      (
        p,
        q,
        r,
        subst (IsCompressor e'.nulls) (append_assoc ns (1 ∷ []) (flags xs)) s,
        t ∙ ground arith,
      ),
    )
append_all_lem c v d ds ns b (some x ∷ xs) a h few short =
    let code = zig_zag_encode (minus64 (minus64 x v) d) in
    let (e, f, w) =
      append_value_lem c v d x ds ns b a.0 h (omega (arith, few, short)) (omega (arith, short)) in
    let (e', f', (p, q, r, s, t)) =
      append_all_lem e x (minus64 x v) (ds ++ (code ∷ [])) (ns ++ (0 ∷ [])) b xs a.1 w
        (omega (arith, few, length-append ds (code ∷ []), length-append ns (0 ∷ [])))
        (omega (arith, short, length-append ns (0 ∷ []))) in
    (
      e',
      ap (λ o. o >>= (λ d. append_all d xs)) f ∙ f',
      (
        p,
        q,
        subst (IsCompressor e'.delta_delta)
            (append_assoc ds (code ∷ []) (stream x (minus64 x v) xs)) r,
        subst (IsCompressor e'.nulls) (append_assoc ns (0 ∷ []) (flags xs)) s,
        t,
      ),
    )
