-- ===== src/Simple8b/Flush.antt =====
-- What a flush of the compressor of tsl/src/compression/simple8b_rle.h stores.
use timescaledb.Base.{
  ◌⊎◌, inl, inr, if◌then◌else◌, ◌==◌, leb, ℕ, zero, suc, ◌+◌, ◌-◌, ◌*◌, ◌%◌, ◌^◌, ◌≤◌, ◌<◌, ◌≡◌,
  refl, sym, ap, ap₂, ◌∙◌, subst, true, false, List, [], ◌∷◌, ◌++◌, append-nil, append_assoc,
  length, length-append, get_elem?, get_elem?-append_left, get_elem?-append_right, drop, replicate,
  arith, some, Option, ◌>>=◌, Bool-cases, empty_or_some,
}
use timescaledb.BitArray.{init}
use timescaledb.BitArray.RoundTrip.{append_all}
use timescaledb.Simple8b.{
  Simple8bRleBlock, block_get_element, selector_is_rle, block_append_rle, count_repeats,
  rledata_value, rledata_repeatcount,
}
use timescaledb.Simple8b.Width.{narrow}
use timescaledb.Simple8b.Block.{
  AllBelow, AllBelow-append, IsPacked, IsRunOf, IsRun, IsFull, IsRun-IsFull, IsRunOf-repeatcount,
  IsRunOf-value, packed_get, rle_payload,
}
use timescaledb.Simple8b.Room.{Done-allocated}
use timescaledb.Simple8b.Pack.{count_repeats_lem}
use timescaledb.Simple8b.Store.{
  Stored, Done, Ready, Keeps, push_block_lem, append_rounds_lem, AllBelow-suffix,
}
use timescaledb.Simple8b.Compressor.{
  Simple8bRleCompressor, Simple8bRlePartiallyCompressedData, zero_block, compressor_init,
  push_block, allocated, pcd_num_elements, pcd_get_element, pcd_elements, append_rounds, append_pcd,
  flush_pcd, flush, compressor_append,
}
use native.Mathlib.Nat.{pow-le-pow_right}

-- The block's values, as far as it counts them.
abbrev pub IsPartial : Simple8bRleBlock → List ℕ → Type 0
IsPartial block zs =
    (block.num_elements_compressed ≡ length zs)
    × ((i : ℕ) → i < length zs → block_get_element block i ≡ get_elem? zs i)

pcd_get_element_lem :
    (pcd : Simple8bRlePartiallyCompressedData) (zs : List ℕ) (i : ℕ)
    → IsPartial pcd.block zs
    → pcd_get_element pcd i ≡ get_elem? (zs ++ pcd.elements) i
unfolding pcd_get_element
pcd_get_element_lem pcd zs i (n, g) =
    let split : (i < length zs) ⊎ (length zs ≤ i) = ground arith in
    elim split [
      | inl h ↦ ground (arith, g i h, get_elem?-append_left zs pcd.elements i h)
      | inr h ↦
          ground arith
          ∙ ap (λ (t : ℕ). get_elem? pcd.elements (i - t)) {x = pcd.block.num_elements_compressed} n
          ∙ sym (get_elem?-append_right zs pcd.elements i h)
    ]

pcd_elements_lem :
    (pcd : Simple8bRlePartiallyCompressedData) (ws : List ℕ) (pos : ℕ)
    → ((i : ℕ) → i < length ws → pcd_get_element pcd (pos + i) ≡ get_elem? ws i)
    → pcd_elements pcd pos (length ws) ≡ some ws
unfolding pcd_elements
pcd_elements_lem pcd [] pos h = refl
pcd_elements_lem pcd (w ∷ ws) pos h =
    ap (λ t. t >>= (λ x. pcd_elements pcd (suc pos) (length ws) >>= (λ xs. some (x ∷ xs))))
      (ap (pcd_get_element pcd) {x = pos} {y = pos + 0} (omega arith) ∙ h 0 (omega arith))
    ∙ ap (λ t. t >>= (λ xs. some (w ∷ xs)))
        (pcd_elements_lem pcd ws (suc pos) (λ i l.
          ap (pcd_get_element pcd) {x = suc pos + i} {y = pos + suc i} (omega arith)
          ∙ h (suc i) (omega arith)))

-- The new data are the values of the block and the elements after them.
pcd_lem :
    (pcd : Simple8bRlePartiallyCompressedData) (zs : List ℕ)
    → IsPartial pcd.block zs
    → pcd_elements pcd 0 (pcd_num_elements pcd) ≡ some (zs ++ pcd.elements)
unfolding pcd_num_elements
pcd_lem pcd zs p =
    ap (pcd_elements pcd 0) {y = length (zs ++ pcd.elements)}
      (omega (arith, p.0, length-append zs pcd.elements))
    ∙ pcd_elements_lem pcd (zs ++ pcd.elements) 0 (λ i l.
      ap (pcd_get_element pcd) {x = 0 + i} {y = i} (omega arith) ∙ pcd_get_element_lem pcd zs i p)

abbrev counted : Simple8bRleCompressor → Simple8bRleCompressor
counted after = record after {
  num_elements = (after.num_elements + length after.uncompressed_elements) % 2 ^ 32;
  uncompressed_elements = [];
}

flush_pcd_lem :
    (c : Simple8bRleCompressor) (pcd : Simple8bRlePartiallyCompressedData) (xs zs : List ℕ)
    → Ready c xs
    → IsPartial pcd.block zs
    → AllBelow 64 (zs ++ pcd.elements)
    → (c.last_block_set ≡ true) ⊎ (0 < length (zs ++ pcd.elements))
    → length (xs ++ (zs ++ pcd.elements)) < 2 ^ 25
    → (d : Simple8bRleCompressor) × (flush_pcd c pcd ≡ some d)
      × Done d (xs ++ (zs ++ pcd.elements))
      × (d.num_elements ≡ (c.num_elements + length c.uncompressed_elements) % 2 ^ 32)
      × (d.uncompressed_elements ≡ [])
unfolding flush_pcd append_pcd
flush_pcd_lem c pcd xs zs r p a h short =
    let ws = zs ++ pcd.elements in
    let after = append_rounds (length ws) c ws in
    let (q, k) = append_rounds_lem (length ws) c xs ws r h a (omega arith) in
    (
      counted after,
      ap
            (λ t.
              (t >>= (λ elements. allocated (append_rounds (length elements) c elements)))
              >>= (λ d. some (counted d)))
            (pcd_lem pcd zs p)
          ∙ ap (λ t. t >>= (λ d. some (counted d))) (Done-allocated after (xs ++ ws) q short),
      q,
      ap₂ (λ (n : ℕ) (us : List ℕ). (n + length us) % 2 ^ 32) k.0 k.1,
      refl,
    )

-- The compressor holds `xs`: what was flushed, and the elements that were not, for which there is room
-- in the array of 64.
abbrev pub IsCompressor : Simple8bRleCompressor → List ℕ → Type 0
IsCompressor c xs =
    (flushed : List ℕ) × (xs ≡ flushed ++ c.uncompressed_elements)
    × (c.num_elements ≡ length flushed % 2 ^ 32)
    × ((length c.uncompressed_elements ≤ 64) × AllBelow 64 c.uncompressed_elements)
    × (((c.last_block_set ≡ false)
          × (c.selectors ≡ init)
          × (c.compressed_data ≡ [])
          × (flushed ≡ []))
        ⊎ Done c flushed)

AllBelow-mono : (b d : ℕ) (xs : List ℕ) → b ≤ d → AllBelow b xs → AllBelow d xs
AllBelow-mono b d [] h a = tt
AllBelow-mono b d (x ∷ xs) h (l, a) =
    (omega (arith, pow-le-pow_right {n = 2} (omega arith) h), AllBelow-mono b d xs h a)

abbrev popped : Simple8bRleCompressor → Simple8bRleCompressor
popped c = record c { last_block_set = false }

abbrev data_of : Simple8bRleBlock → List ℕ → Simple8bRlePartiallyCompressedData
data_of block elements = record { block = block; elements = elements }

flush_first :
    (c : Simple8bRleCompressor)
    → c.last_block_set ≡ false
    → flush c ≡ (
        if length c.uncompressed_elements == 0
        then some (popped c)
        else flush_pcd (popped c) (data_of zero_block c.uncompressed_elements))
unfolding flush selector_is_rle
flush_first c s = ground arith

flush_packed :
    (c : Simple8bRleCompressor) (zs : List ℕ)
    → c.last_block_set ≡ true
    → IsPacked c.last_block zs
    → flush c ≡ flush_pcd (popped c) (data_of c.last_block c.uncompressed_elements)
unfolding flush selector_is_rle
flush_packed c zs s p = ground arith

flush_run :
    (c : Simple8bRleCompressor)
    → c.last_block_set ≡ true
    → c.last_block.selector ≡ 15
    → flush c
      ≡ flush_pcd
          (push_block (popped c) (block_append_rle c.last_block c.uncompressed_elements).0)
          (data_of zero_block (
            drop (block_append_rle c.last_block c.uncompressed_elements).1 c.uncompressed_elements))
unfolding flush selector_is_rle
flush_run c s e = ground arith

append_rle_lem :
    (block : Simple8bRleBlock) (xs : List ℕ) (count val : ℕ)
    → IsRunOf block count val
    → let (longer, i) = block_append_rle block xs in
      IsRunOf longer (count + i) val × (xs ≡ replicate i val ++ drop i xs)
unfolding block_append_rle
append_rle_lem block xs count val r =
    let v = rledata_value block.payload in
    let n = rledata_repeatcount block.payload in
    let same : v ≡ val = IsRunOf-value block count val r in
    let counts : n ≡ count = IsRunOf-repeatcount block count val r in
    let (d, b, w) = count_repeats_lem xs v n (omega (arith, r)) in
    let c = count_repeats v n xs in
    (
      (
        r.0,
        omega (arith, r),
        omega arith,
        r.3,
        rle_payload c.0 v b (omega (arith, r))
            ∙ ap₂ (λ (y k : ℕ). y + k * 2 ^ 36) same (omega arith),
      ),
      w ∙ ap (λ t. replicate c.1 t ++ drop c.1 xs) same,
    )

replicate-add : (m n v : ℕ) → replicate (m + n) v ≡ replicate m v ++ replicate n v
replicate-add zero n v = ap (λ t. replicate t v) {x = 0 + n} {y = n} (omega arith)
replicate-add (suc m) n v =
    ap (λ t. replicate t v) {x = suc m + n} {y = suc (m + n)} (omega arith)
    ∙ ap (λ t. v ∷ t) (replicate-add m n v)

-- What a flush leaves: everything is stored.
abbrev pub Flushed : Simple8bRleCompressor → List ℕ → Type 0
Flushed c xs =
    (d : Simple8bRleCompressor) × (flush c ≡ some d)
    × IsCompressor d xs
    × (d.uncompressed_elements ≡ [])

flush_after :
    (c e : Simple8bRleCompressor) (block : Simple8bRleBlock) (elements : List ℕ)
    (xs ys zs flushed : List ℕ)
    → flush c ≡ flush_pcd e (data_of block elements)
    → Ready e ys
    → IsPartial block zs
    → AllBelow 64 (zs ++ elements)
    → (e.last_block_set ≡ true) ⊎ (0 < length (zs ++ elements))
    → xs ≡ ys ++ (zs ++ elements)
    → xs ≡ flushed ++ c.uncompressed_elements
    → (c.num_elements ≡ length flushed % 2 ^ 32)
    → Keeps c e
    → length xs < 2 ^ 25
    → Flushed c xs
flush_after c e block elements xs ys zs flushed step r p a h whole parts count k short =
    let (d, eq, q, n, u) =
      flush_pcd_lem e (data_of block elements) ys zs r p a h
        (omega (arith, short, ap length whole)) in
    (
      d,
      step ∙ eq,
      (
        xs,
        sym (append-nil xs) ∙ ap (λ t. xs ++ t) (sym u),
        n
            ∙ ap₂ (λ (m : ℕ) (us : List ℕ). (m + length us) % 2 ^ 32) k.0 k.1
            ∙ omega (arith, count, ap length parts, length-append flushed c.uncompressed_elements),
        (omega (arith, ap length u), subst (AllBelow 64) (sym u) tt),
        inr (subst (Done d) (sym whole) q),
      ),
      u,
    )

zero-IsPartial : IsPartial zero_block []
zero-IsPartial = (refl, λ i h. absurd (omega arith))

flush-packed :
    (c : Simple8bRleCompressor) (xs : List ℕ) (flushed ys zs : List ℕ)
    → xs ≡ flushed ++ c.uncompressed_elements
    → c.num_elements ≡ length flushed % 2 ^ 32
    → AllBelow 64 c.uncompressed_elements
    → c.last_block_set ≡ true
    → flushed ≡ ys ++ zs
    → Stored c ys
    → 0 < length zs
    → IsPacked c.last_block zs
    → length xs < 2 ^ 25
    → Flushed c xs
flush-packed c xs flushed ys zs e n a s d w l p short =
    let us = c.uncompressed_elements in
    flush_after c (popped c) c.last_block us xs ys zs flushed (flush_packed c zs s p)
      (inl (refl, w)) (p.2, λ i h. packed_get c.last_block zs i p h)
      (AllBelow-append 64 zs us (AllBelow-mono _ 64 zs (narrow c.last_block.selector p.1) p.5) a)
      (inr (omega (arith, length-append zs us))) (e ∙ ap (λ t. t ++ us) d ∙ append_assoc ys zs us) e
      n (refl, refl) short

flush-run :
    (c : Simple8bRleCompressor) (xs : List ℕ) (flushed ys zs : List ℕ)
    → xs ≡ flushed ++ c.uncompressed_elements
    → c.num_elements ≡ length flushed % 2 ^ 32
    → AllBelow 64 c.uncompressed_elements
    → c.last_block_set ≡ true
    → flushed ≡ ys ++ zs
    → Stored c ys
    → IsRun c.last_block zs
    → length xs < 2 ^ 25
    → Flushed c xs
flush-run c xs flushed ys zs e n a s d w (count, val, r, z) short =
    let us = c.uncompressed_elements in
    let longer = (block_append_rle c.last_block us).0 in
    let i = (block_append_rle c.last_block us).1 in
    let (r', f) = append_rle_lem c.last_block us count val r in
    let run : List ℕ = replicate (count + i) val in
    let rest = drop i us in
    let full : IsFull longer run = IsRun-IsFull longer run (count + i, val, r', refl) in
    let (s', b, w', k) = push_block_lem (popped c) longer ys (inl (refl, w)) in
    let grown : zs ++ us ≡ run ++ rest =
      ap₂ (λ (t u : List ℕ). t ++ u) z f
      ∙ sym (append_assoc (replicate count val) (replicate i val) rest)
      ∙ ap (λ t. t ++ rest) (sym (replicate-add count i val)) in
    flush_after c (push_block (popped c) longer) zero_block rest xs (ys ++ run) [] flushed
      (flush_run c s r.0) (inr (s', (ys, run, refl, w', subst (λ t. IsFull t run) (sym b) full)))
      zero-IsPartial (AllBelow-suffix 64 (replicate i val) rest (subst (AllBelow 64) f a)) (inl s')
      (e
        ∙ ap (λ t. t ++ us) d
        ∙ append_assoc ys zs us
        ∙ ap (λ t. ys ++ t) grown
        ∙ sym (append_assoc ys run rest))
      e n k short

pub flush_lem :
    (c : Simple8bRleCompressor) (xs : List ℕ)
    → IsCompressor c xs
    → length xs < 2 ^ 25
    → Flushed c xs
unfolding append_all init
flush_lem c xs (flushed, e, n, a, inl (s, sel, ws, f)) short =
    let us = c.uncompressed_elements in
    let split : (us ≡ []) ⊎ (0 < length us) = empty_or_some us in
    elim split [
      | inl u ↦ (
        popped c,
        flush_first c s ∙ ground (arith, ap length u),
        (flushed, e, n, a, inl (refl, sel, ws, f)),
        u,
      )
      | inr u ↦
          flush_after c (popped c) zero_block us xs [] [] flushed (flush_first c s ∙ ground arith)
            (inl (refl, ([], sel, ws, refl))) zero-IsPartial a.1 (inr u) (e ∙ ap (λ t. t ++ us) f) e
            n (refl, refl) short
    ]
flush_lem c xs (flushed, e, n, a, inr (s, (ys, zs, d, w, inl (l, p)))) short =
    flush-packed c xs flushed ys zs e n a.1 s d w l p short
flush_lem c xs (flushed, e, n, a, inr (s, (ys, zs, d, w, inr r))) short =
    flush-run c xs flushed ys zs e n a.1 s d w r short

pub compressor_init-IsCompressor : IsCompressor compressor_init []
unfolding compressor_init
compressor_init-IsCompressor = ([], refl, refl, (omega arith, tt), inl (refl, refl, refl, refl))

abbrev with_element : ℕ → Simple8bRleCompressor → Simple8bRleCompressor
with_element v c = record c { uncompressed_elements = c.uncompressed_elements ++ (v ∷ []) }

with_element-IsCompressor :
    (c : Simple8bRleCompressor) (xs : List ℕ) (v : ℕ)
    → IsCompressor c xs
    → v < 2 ^ 64
    → length c.uncompressed_elements < 64
    → IsCompressor (with_element v c) (xs ++ (v ∷ []))
with_element-IsCompressor c xs v (flushed, e, n, a, r) h room = (
  flushed,
  ap (λ t. t ++ (v ∷ [])) e ∙ append_assoc flushed c.uncompressed_elements (v ∷ []),
  n,
  (
    omega (arith, room, length-append c.uncompressed_elements (v ∷ [])),
    AllBelow-append 64 c.uncompressed_elements (v ∷ []) a.1 (h, tt),
  ),
  r,
)

-- A compressor that holds fewer than 2 ^ 25 elements `xs`, at most 64 of them in its array of elements
-- that wait, takes a word without an error, and then holds `xs` and the word after it, again at most 64
-- of them in its array.
pub compressor_append_lem :
    (c : Simple8bRleCompressor) (xs : List ℕ) (v : ℕ)
    → IsCompressor c xs
    → v < 2 ^ 64
    → length xs < 2 ^ 25
    → (d : Simple8bRleCompressor) × (compressor_append c v ≡ some d)
      × IsCompressor d (xs ++ (v ∷ []))
unfolding compressor_append
compressor_append_lem c xs v h l short =
    let test = leb 64 (length c.uncompressed_elements) in
    let add : Simple8bRleCompressor → Option Simple8bRleCompressor = λ d. some (with_element v d) in
    elim (Bool-cases test) [
      | inl e ↦
          let (d, f, w, u) = flush_lem c xs h short in
          (
            with_element v d,
            ap (λ t. (if t then flush c else some c) >>= add) e ∙ ap (λ t. t >>= add) f,
            with_element-IsCompressor d xs v w l (omega (arith, ap length u)),
          )
      | inr e ↦ (
        with_element v c,
        ap (λ t. (if t then flush c else some c) >>= add) e,
        with_element-IsCompressor c xs v h l (ground (arith, e)),
      )
    ]
