-- ===== src/Simple8b/Pack.antt =====
-- The next block that the compressor of tsl/src/compression/simple8b_rle.h makes of new elements.
use timescaledb.Base.{
  ◌⊎◌, inl, inr, ℕ, zero, suc, ◌+◌, ◌-◌, ◌*◌, ◌^◌, ◌≤◌, ◌<◌, ◌≡◌, refl, sym, ap, ap₂, ◌∙◌, subst,
  false, ◌&&◌, List, [], ◌∷◌, ◌++◌, append-nil, append_assoc, length, drop, replicate,
  length-append, arith, if◌then◌else◌, leb, ltb, ◌==◌, Bool-cases,
}
use timescaledb.Base.Bits.{pow_pos}
use timescaledb.Simple8b.{
  Simple8bRleBlock, num_elements, bit_length, selector_get_bitmask, count_repeats, block_create_rle,
  block_append_element, bits_for_value,
}
use timescaledb.Simple8b.Width.{holds_some, fewer, width_mono, selector_get_bitmask_lem}
use timescaledb.Simple8b.Block.{
  AllBelow, IsPacked, IsRun, IsBlock, IsFull, capacity-packed, IsRun-IsFull, create_rle-IsRunOf,
  append_element-IsPacked, empty-IsPacked,
}
use timescaledb.Simple8b.Compressor.{run_length, raise, select, pack, pack_block, next_block}

-- The elements from place `i` on that have a place under the selector are narrow enough.
abbrev Fits : ℕ → ℕ → List ℕ → Type 0
Fits i s [] = Unit
Fits i s (x ∷ xs) = (i < num_elements s → x < 2 ^ bit_length s) × Fits (i + 1) s xs

no_place : (i s : ℕ) (xs : List ℕ) → num_elements s ≤ i → Fits i s xs
no_place i s [] h = tt
no_place i s (x ∷ xs) h = (λ l. absurd (omega arith), no_place (i + 1) s xs (omega arith))

-- The selector `t` is not below `s` and holds `v` at place `i`.
abbrev Raised : ℕ → ℕ → ℕ → ℕ → Type 0
Raised s i v t = (s ≤ t) × (t ≤ 14) × (i < num_elements t → v < 2 ^ bit_length t)

whole_word : (v : ℕ) → v < 2 ^ 64 → v < 2 ^ bit_length 14
unfolding bit_length
whole_word v b = b

too_wide : (s v : ℕ) → s ≤ 14 → selector_get_bitmask s < v → v < 2 ^ 64 → s < 14
too_wide s v h l b =
    let split : (s < 14) ⊎ (s ≡ 14) = ground arith in
    elim split [
      | inl m ↦ m
      | inr e ↦ absurd (
          omega (
            arith,
            whole_word v b,
            ap selector_get_bitmask e,
            selector_get_bitmask_lem 14 (omega arith),
          ))
    ]

narrow_enough : (s v : ℕ) → s ≤ 14 → v ≤ selector_get_bitmask s → v < 2 ^ bit_length s
narrow_enough s v h l = omega (arith, selector_get_bitmask_lem s h, pow_pos (bit_length s))

raise-Raised :
    (fuel i s v : ℕ) → s ≤ 14 → 14 ≤ s + fuel → v < 2 ^ 64 → Raised s i v (raise fuel i s v)
unfolding raise
raise-Raised zero i s v h l b =
    let last : 14 ≡ s = omega arith in
    (omega arith, h, λ m. subst (λ t. v < 2 ^ bit_length t) last (whole_word v b))
raise-Raised (suc fuel) i s v h l b =
    let higher = raise fuel i (s + 1) v in
    let split : (v ≤ selector_get_bitmask s) ⊎ (selector_get_bitmask s < v) = ground arith in
    elim split [
      | inl e ↦
          let same : (if ltb (selector_get_bitmask s) v
                then (if leb (num_elements (s + 1)) i then s + 1 else higher)
                else s)
              ≡ s =
            ground arith in
          subst (Raised s i v) (sym same) (omega arith, h, λ m. narrow_enough s v h e)
      | inr e ↦
          let below = too_wide s v h e b in
          let (p, q, r) = raise-Raised fuel i (s + 1) v (omega arith) (omega arith) b in
          let split : (num_elements (s + 1) ≤ i) ⊎ (i < num_elements (s + 1)) = ground arith in
          elim split [
            | inl m ↦
                let next : (if ltb (selector_get_bitmask s) v
                      then (if leb (num_elements (s + 1)) i then s + 1 else higher)
                      else s)
                    ≡ s + 1 =
                  ground arith in
                subst (Raised s i v) (sym next)
                  (omega arith, omega arith, λ n. absurd (omega arith))
            | inr m ↦
                let next : (if ltb (selector_get_bitmask s) v
                      then (if leb (num_elements (s + 1)) i then s + 1 else higher)
                      else s)
                    ≡ higher =
                  ground arith in
                subst (Raised s i v) (sym next) (omega arith, q, r)
          ]
    ]

select-Fits :
    (xs : List ℕ) (i s : ℕ)
    → AllBelow 64 xs
    → 1 ≤ s
    → s ≤ 14
    → (s ≤ select i s xs) × (select i s xs ≤ 14) × Fits i (select i s xs) xs
unfolding select
select-Fits [] i s a h l = (omega arith, l, tt)
select-Fits (x ∷ xs) i s a h l =
    let t = raise 14 i s x in
    let split : (i < num_elements s) ⊎ (num_elements s ≤ i) = ground arith in
    elim split [
      | inl m ↦
          let (p, q, r) = raise-Raised 14 i s x l (omega arith) a.0 in
          let (p', q', f) = select-Fits xs (i + 1) t a.1 (omega arith) q in
          let u = select (i + 1) t xs in
          let e : (if ltb i (num_elements s) then u else s) ≡ u = ground arith in
          subst (λ w. (s ≤ w) × (w ≤ 14) × Fits i w (x ∷ xs)) (sym e)
            (
              omega arith,
              q',
              (λ n. width_mono t u x p' q' (r (omega (arith, fewer t u (omega arith) p' q'))), f),
            )
      | inr m ↦
          let e : (if ltb i (num_elements s) then select (i + 1) t xs else s) ≡ s = ground arith in
          subst (λ w. (s ≤ w) × (w ≤ 14) × Fits i w (x ∷ xs)) (sym e)
            (omega arith, l, no_place i s (x ∷ xs) m)
    ]

-- The block holds the elements that were packed, and the others are left.
abbrev IsPacking : List ℕ → List ℕ → ℕ → Simple8bRleBlock × List ℕ → Type 0
IsPacking ys xs s (block, rest) =
    (zs : List ℕ) × (xs ≡ zs ++ rest)
    × (block.selector ≡ s)
    × IsPacked block (ys ++ zs)
    × ((rest ≡ []) ⊎ (length (ys ++ zs) ≡ num_elements s))

pack_lem :
    (xs ys : List ℕ) (n : ℕ) (block : Simple8bRleBlock)
    → IsPacked block ys
    → n ≡ length ys
    → Fits n block.selector xs
    → IsPacking ys xs block.selector (pack n block xs)
unfolding pack block_append_element
pack_lem [] ys n block p e f =
    ([], refl, refl, subst (IsPacked block) (sym (append-nil ys)) p, inl refl)
pack_lem (x ∷ xs) ys n block p e f =
    let next = block_append_element block x in
    let rest = pack (n + 1) next xs in
    let split : (n < num_elements block.selector) ⊎ (num_elements block.selector ≤ n) =
      ground arith in
    elim split [
      | inl m ↦
          let (zs, d, s, q, r) =
            pack_lem xs (ys ++ (x ∷ [])) (n + 1) next
              (append_element-IsPacked block ys x p (omega arith) (f.0 m))
              (omega (arith, length-append ys (x ∷ []))) f.1 in
          let shift = append_assoc ys (x ∷ []) zs in
          let t : (if ltb n (num_elements block.selector) then rest else (block, x ∷ xs)) ≡ rest =
            ground arith in
          subst (IsPacking ys (x ∷ xs) block.selector) (sym t) (
            x ∷ zs,
            ap (λ t. x ∷ t) d,
            s,
            subst (IsPacked rest.0) shift q,
            subst (λ t. (rest.1 ≡ []) ⊎ (length t ≡ num_elements block.selector)) shift r,
          )
      | inr m ↦
          let t : (if ltb n (num_elements block.selector) then rest else (block, x ∷ xs))
              ≡ (block, x ∷ xs) =
            ground arith in
          subst (IsPacking ys (x ∷ xs) block.selector) (sym t) (
            [],
            refl,
            refl,
            subst (IsPacked block) (sym (append-nil ys)) p,
            inr (omega (arith, p, ap length (append-nil ys))),
          )
    ]

-- A block of the first elements, and what is left of them; a block that is not the last one is full.
abbrev pub IsNext : List ℕ → Simple8bRleBlock × List ℕ → Type 0
IsNext xs (block, rest) =
    (ys : List ℕ) × (xs ≡ ys ++ rest) × IsBlock block ys × ((rest ≡ []) ⊎ IsFull block ys)

pack_block_lem :
    (x : ℕ) (xs : List ℕ) → AllBelow 64 (x ∷ xs) → IsNext (x ∷ xs) (pack_block (x ∷ xs))
unfolding pack_block
pack_block_lem x xs a =
    let s = select 0 1 (x ∷ xs) in
    let (p, q, f) = select-Fits (x ∷ xs) 0 1 a (omega arith) (omega arith) in
    let start : Simple8bRleBlock = record {
      payload = 0;
      num_elements_compressed = 0;
      selector = s;
    } in
    let (ys, d, e, h, r) = pack_lem (x ∷ xs) [] 0 start (empty-IsPacked s p q) refl f in
    let block = (pack 0 start (x ∷ xs)).0 in
    let rest = (pack 0 start (x ∷ xs)).1 in
    let some_packed : 0 < length ys = elim r [
      | inl n ↦ omega (arith, ap length d, length-append ys rest, ap length n)
      | inr n ↦ omega (arith, n, holds_some s p q)
    ] in
    let full : (rest ≡ []) ⊎ IsFull block ys = elim r [
      | inl n ↦ inl n
      | inr n ↦
          inr (inl (some_packed, h), n ∙ sym (ap num_elements e) ∙ sym (capacity-packed block ys h))
    ] in
    (ys, d, inl (some_packed, h), full)

-- A run that starts after `n` equal elements.
run_length_lem :
    (xs : List ℕ) (v n : ℕ)
    → n < 2 ^ 28 - 1
    → (k : ℕ) × (run_length v n xs ≡ n + k)
      × (n + k ≤ 2 ^ 28 - 1)
      × (xs ≡ replicate k v ++ drop k xs)
unfolding run_length
run_length_lem [] v n h = (0, omega arith, omega arith, refl)
run_length_lem (x ∷ xs) v n h =
    let longer = run_length v (n + 1) xs in
    let split : (x ≡ v) ⊎ ((x == v) ≡ false) = ground arith in
    elim split [
      | inl e ↦
          let end : (n + 1 ≡ 2 ^ 28 - 1) ⊎ (n + 1 < 2 ^ 28 - 1) = ground arith in
          elim end [
            | inl m ↦ (1, ground arith, omega arith, ap (λ (t : ℕ). t ∷ xs) e)
            | inr m ↦
                let (k, d, b, w) = run_length_lem xs v (n + 1) m in
                (suc k, ground arith, omega arith, ap₂ (λ (t : ℕ) s. t ∷ s) e w)
          ]
      | inr e ↦ (0, ground arith, omega arith, refl)
    ]

-- A count after `i` elements that are equal to the value.
abbrev pub Counted : ℕ → ℕ → List ℕ → ℕ × ℕ → Type 0
Counted v n xs (count, i) =
    (count ≡ n + i) × (count ≤ 2 ^ 28 - 1) × (xs ≡ replicate i v ++ drop i xs)

pub count_repeats_lem :
    (xs : List ℕ) (v n : ℕ) → n ≤ 2 ^ 28 - 1 → Counted v n xs (count_repeats v n xs)
unfolding count_repeats
count_repeats_lem [] v n h = (omega arith, h, refl)
count_repeats_lem (x ∷ xs) v n h =
    let c = count_repeats v (n + 1) xs in
    let both : ((x ≡ v) × (n < 2 ^ 28 - 1)) ⊎ ((x == v && ltb n (2 ^ 28 - 1)) ≡ false) =
      ground arith in
    elim both [
      | inl (e, m) ↦
          let (d, b, w) = count_repeats_lem xs v (n + 1) (omega arith) in
          let t : (if x == v && ltb n (2 ^ 28 - 1) then (c.0, c.1 + 1) else (n, 0))
              ≡ (c.0, c.1 + 1) =
            ground arith in
          subst (Counted v n (x ∷ xs)) (sym t) (
            omega arith,
            b,
            subst (λ (k : ℕ). (x ∷ xs) ≡ replicate k v ++ drop k (x ∷ xs)) {x = suc c.1}
                (omega arith) (ap₂ (λ (t : ℕ) s. t ∷ s) e w),
          )
      | inr e ↦
          let t : (if x == v && ltb n (2 ^ 28 - 1) then (c.0, c.1 + 1) else (n, 0)) ≡ (n, 0) =
            ap (λ u. if u then (c.0, c.1 + 1) else (n, 0)) e in
          subst (Counted v n (x ∷ xs)) (sym t) (omega arith, h, refl)
    ]

run_block :
    (x : ℕ) (xs : List ℕ)
    → x ≤ 2 ^ 36 - 1
    → IsNext (x ∷ xs) (block_create_rle (run_length x 1 xs) x, drop (run_length x 1 xs - 1) xs)
run_block x xs h =
    let (k, d, b, w) = run_length_lem xs x 1 (omega arith) in
    let n = run_length x 1 xs in
    let r : IsRun (block_create_rle n x) (replicate (suc k) x) = (
      n,
      x,
      create_rle-IsRunOf n x (omega arith) (omega arith) (omega arith),
      ap (λ (t : ℕ). replicate t x) {x = suc k} (omega arith),
    ) in
    (
      replicate (suc k) x,
      ap (λ t. x ∷ t) (w ∙ ap (λ (t : ℕ). replicate k x ++ drop t xs) {y = n - 1} (omega arith)),
      inr r,
      inr (IsRun-IsFull (block_create_rle n x) (replicate (suc k) x) r),
    )

-- The next block of words holds the first of them, one at least, as packed values or as a run, and
-- leaves the words after these; it is full unless it leaves none.
pub next_block_lem :
    (x : ℕ) (xs : List ℕ) → AllBelow 64 (x ∷ xs) → IsNext (x ∷ xs) (next_block x xs)
unfolding next_block
next_block_lem x xs a =
    let n = run_length x 1 xs in
    let bits = if x == 0 then 1 else bits_for_value x in
    let test = leb x (2 ^ 36 - 1) && leb 64 (bits * n) in
    let run : Simple8bRleBlock × List ℕ = (block_create_rle n x, drop (n - 1) xs) in
    let packed = pack_block (x ∷ xs) in
    elim (Bool-cases test) [
      | inl e ↦
          subst (IsNext (x ∷ xs)) (sym (ap (λ t. if t then run else packed) e))
            (run_block x xs (ground arith))
      | inr e ↦
          subst (IsNext (x ∷ xs)) (sym (ap (λ t. if t then run else packed) e))
            (pack_block_lem x xs a)
    ]
