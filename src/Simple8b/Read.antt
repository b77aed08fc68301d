-- ===== src/Simple8b/Read.antt =====
-- What the forward iterator of tsl/src/compression/simple8b_rle.h reads from full blocks and a last one.
use timescaledb.Base.{
  ℕ, zero, suc, ◌+◌, ◌≤◌, ◌<◌, ◌≡◌, refl, sym, ap, ap₂, ◌∙◌, subst, List, [], ◌∷◌, ◌++◌, map,
  append-nil, append_assoc, length, length-append, get_elem?, get_or, drop, arith, some,
}
use timescaledb.Base.Streams.{Yields}
use timescaledb.BitArray.{BitArray, append}
use timescaledb.BitArray.Value.{num_bits}
use timescaledb.BitArray.Append.{IsValid}
use timescaledb.BitArray.Read.{place}
use timescaledb.BitArray.RoundTrip.{append_all, Narrow, read_first}
use timescaledb.Simple8b.{Simple8bRleBlock, block_create, block_get_element}
use timescaledb.Simple8b.Block.{
  IsBlock, capacity, block_get, IsBlock-some, IsBlock-fits, IsBlock-selector,
}
use timescaledb.Simple8b.Store.{AllFull, selector_bits, word_of}
use timescaledb.Simple8b.Iterator.{
  Simple8bRleDecompressionIterator, load_block, get_current, try_next_forward,
}
use native.Mathlib.Nat.{mod-eq_of_lt}

abbrev advance : ℕ → Simple8bRleDecompressionIterator → Simple8bRleDecompressionIterator
advance k iter = record iter {
  num_elements_returned = iter.num_elements_returned + k;
  current_in_compressed_pos = iter.current_in_compressed_pos + k;
}

advance_twice :
    (j k : ℕ) (iter : Simple8bRleDecompressionIterator)
    → advance k (advance j iter) ≡ advance (j + k) iter
advance_twice j k iter =
    ap₂ (λ (r p : ℕ). record iter { num_elements_returned = r; current_in_compressed_pos = p })
      (omega arith) (omega arith)

read-done :
    (iter : Simple8bRleDecompressionIterator)
    → iter.num_elements ≤ iter.num_elements_returned
    → Yields try_next_forward iter []
unfolding try_next_forward
read-done iter h = (iter, ground arith)

next-current :
    (iter : Simple8bRleDecompressionIterator) (v : ℕ)
    → iter.num_elements_returned < iter.num_elements
    → iter.current_in_compressed_pos < iter.current_block.num_elements_compressed
    → block_get_element iter.current_block iter.current_in_compressed_pos ≡ some v
    → try_next_forward iter ≡ some (some v, advance 1 iter)
unfolding try_next_forward get_current
next-current iter v h l e = ground (arith, e)

next-load :
    (iter : Simple8bRleDecompressionIterator)
    → iter.num_elements_returned < iter.num_elements
    → iter.current_block.num_elements_compressed ≤ iter.current_in_compressed_pos
    → 0 < (load_block iter).current_block.num_elements_compressed
    → try_next_forward iter ≡ try_next_forward (load_block iter)
unfolding try_next_forward load_block
next-load iter r h l = ground arith

-- The values of a block are read one by one.
read-block :
    (ys ws : List ℕ) (iter : Simple8bRleDecompressionIterator)
    → ((i : ℕ)
        → i < length ys
        → block_get_element iter.current_block (iter.current_in_compressed_pos + i)
          ≡ get_elem? ys i)
    → iter.current_in_compressed_pos + length ys ≤ iter.current_block.num_elements_compressed
    → iter.num_elements_returned + length ys ≤ iter.num_elements
    → Yields try_next_forward (advance (length ys) iter) ws
    → Yields try_next_forward iter (ys ++ ws)
read-block [] ws iter g h l y =
    subst (λ t. Yields try_next_forward t ws)
      (ap₂ (λ (r p : ℕ). record iter { num_elements_returned = r; current_in_compressed_pos = p })
        (omega arith) (omega arith))
      y
read-block (x ∷ ys) ws iter g h l y =
    let next = advance 1 iter in
    let found : block_get_element iter.current_block iter.current_in_compressed_pos ≡ some x =
      ap (block_get_element iter.current_block) {y = iter.current_in_compressed_pos + 0}
        (omega arith)
      ∙ g 0 (omega arith) in
    let same : advance (length (x ∷ ys)) iter ≡ advance (length ys) next =
      ap (λ k. advance k iter) (omega arith) ∙ sym (advance_twice 1 (length ys) iter) in
    (
      next,
      next-current iter x (omega arith) (omega arith) found,
      read-block ys ws next
          (λ i m.
            ap (block_get_element iter.current_block) {y = iter.current_in_compressed_pos + suc i}
              (omega arith)
            ∙ g (suc i) (omega arith))
          (omega arith) (omega arith) (subst (λ t. Yields try_next_forward t ws) same y),
    )

-- The iterator is to read these blocks next; their selectors follow those of `array`.
abbrev pub Pending : Simple8bRleDecompressionIterator → BitArray → List Simple8bRleBlock → Type 0
Pending iter array blocks =
    IsValid array
    × (iter.selectors.array ≡ append_all array (map selector_bits blocks))
    × (place iter.selectors ≡ num_bits array)
    × (iter.selectors.bits_used_in_current_bucket ≤ 64)
    × (drop iter.current_compressed_pos iter.compressed_data ≡ map word_of blocks)

pub selectors-Narrow : (blocks : List Simple8bRleBlock) → Narrow (map selector_bits blocks)
selectors-Narrow [] = tt
selectors-Narrow (b ∷ bs) = (omega arith, selectors-Narrow bs)

pub get_or-drop :
    (xs : List ℕ) (i w : ℕ) (ws : List ℕ)
    → drop i xs ≡ w ∷ ws
    → (get_or xs i 0 ≡ w) × (drop (i + 1) xs ≡ ws)
get_or-drop [] zero w ws h = absurd cc
get_or-drop [] (suc i) w ws h = absurd cc
get_or-drop (x ∷ xs) zero w ws h = (cc, cc)
get_or-drop (x ∷ xs) (suc i) w ws h =
    let (a, b) = get_or-drop xs i w ws h in
    (a, ap (λ k. drop k (x ∷ xs)) {x = suc i + 1} {y = suc (i + 1)} (omega arith) ∙ b)

-- The next block is loaded, with the others still to read.
abbrev Loaded :
    Simple8bRleDecompressionIterator
    → Simple8bRleDecompressionIterator
    → Simple8bRleBlock
    → BitArray
    → List Simple8bRleBlock
    → Type 0
Loaded iter next block array blocks =
    (next.current_block ≡ block_create block.selector block.payload)
    × (next.current_in_compressed_pos ≡ 0)
    × (next.num_elements ≡ iter.num_elements)
    × (next.num_elements_returned ≡ iter.num_elements_returned)
    × Pending next array blocks

load_block_lem :
    (iter : Simple8bRleDecompressionIterator) (array : BitArray) (block : Simple8bRleBlock)
    (blocks : List Simple8bRleBlock)
    → block.selector < 16
    → Pending iter array (block ∷ blocks)
    → Loaded iter (load_block iter) block (append array 4 block.selector) blocks
unfolding load_block
load_block_lem iter array block blocks h (v, a, p, u, w) =
    let (x, a', p', u', v') =
      read_first 4 block.selector (map selector_bits blocks) array iter.selectors v
        (selectors-Narrow (block ∷ blocks)) a p u in
    let (word, rest) =
      get_or-drop iter.compressed_data iter.current_compressed_pos block.payload
        (map word_of blocks) w in
    (ap₂ block_create (x ∙ mod-eq_of_lt h) word, refl, refl, refl, (v', a', p', u', rest))

load-read :
    (xs : List ℕ) (iter : Simple8bRleDecompressionIterator)
    → 0 < length xs
    → iter.num_elements_returned < iter.num_elements
    → iter.current_block.num_elements_compressed ≤ iter.current_in_compressed_pos
    → 0 < (load_block iter).current_block.num_elements_compressed
    → Yields try_next_forward (load_block iter) xs
    → Yields try_next_forward iter xs
load-read [] iter p r h l y = absurd (omega arith)
load-read (x ∷ xs) iter p r h l (t, e, y) = (t, next-load iter r h l ∙ e, y)

pub block_get_created :
    (block : Simple8bRleBlock) (i : ℕ)
    → block_get_element (block_create block.selector block.payload) i ≡ block_get_element block i
unfolding block_get_element block_create
block_get_created block i = refl

-- A block is loaded and read, and the iterator is at its end.
read_next_block :
    (block : Simple8bRleBlock) (us ws : List ℕ) (iter : Simple8bRleDecompressionIterator)
    (array : BitArray) (blocks : List Simple8bRleBlock)
    → IsBlock block us
    → Loaded iter (load_block iter) block array blocks
    → iter.current_block.num_elements_compressed ≤ iter.current_in_compressed_pos
    → iter.num_elements_returned + length us ≤ iter.num_elements
    → Yields try_next_forward (advance (length us) (load_block iter)) ws
    → Yields try_next_forward iter (us ++ ws)
read_next_block block us ws iter array blocks b (c, p, e, r, w) h l y =
    let next = load_block iter in
    let count : next.current_block.num_elements_compressed ≡ capacity block =
      ap (λ (t : Simple8bRleBlock). t.num_elements_compressed) c in
    let enough = IsBlock-fits block us b in
    let some_value = IsBlock-some block us b in
    load-read (us ++ ws) iter (omega (arith, length-append us ws)) (omega arith) h (omega arith) (
      read-block us ws next
        (λ i m.
          let start : next.current_in_compressed_pos + i ≡ i = omega (arith, p) in
          ap₂ block_get_element c start ∙ block_get_created block i ∙ block_get block us i b m)
        (omega (arith, p)) (omega (arith, e, r)) y)

-- Full blocks and a last one are read to the end.
pub read_blocks :
    (blocks : List Simple8bRleBlock) (last : Simple8bRleBlock) (ys zs : List ℕ)
    (iter : Simple8bRleDecompressionIterator) (array : BitArray)
    → AllFull blocks ys
    → IsBlock last zs
    → Pending iter array (blocks ++ (last ∷ []))
    → iter.current_block.num_elements_compressed ≤ iter.current_in_compressed_pos
    → iter.num_elements ≡ iter.num_elements_returned + length (ys ++ zs)
    → Yields try_next_forward iter (ys ++ zs)
read_blocks [] last ys zs iter array a b w h e =
    let next = load_block iter in
    let loaded = load_block_lem iter array last [] (IsBlock-selector last zs b).1 w in
    let none_before : ys ++ zs ≡ zs ++ [] = ap (λ t. t ++ zs) a ∙ sym (append-nil zs) in
    let count : length (ys ++ zs) ≡ length zs = ap length (ap (λ t. t ++ zs) a) in
    subst (Yields try_next_forward iter) (sym none_before) (
      read_next_block last zs [] iter (append array 4 last.selector) [] b loaded h
        (omega (arith, count))
        (read-done (advance (length zs) next) (omega (arith, loaded.2, loaded.3, count))))
read_blocks (block ∷ blocks) last ys zs iter array (us, vs, d, f, a) b w h e =
    let next = load_block iter in
    let later = blocks ++ (last ∷ []) in
    let loaded = load_block_lem iter array block later (IsBlock-selector block us f.0).1 w in
    let whole : ys ++ zs ≡ us ++ (vs ++ zs) = ap (λ t. t ++ zs) d ∙ append_assoc us vs zs in
    let count : length (ys ++ zs) ≡ length us + length (vs ++ zs) =
      ap length whole ∙ length-append us (vs ++ zs) in
    let read_all = ap (λ (t : Simple8bRleBlock). t.num_elements_compressed) loaded.0 in
    subst (Yields try_next_forward iter) (sym whole) (
      read_next_block block us (vs ++ zs) iter (append array 4 block.selector) later f.0 loaded h
        (omega (arith, count))
        (read_blocks blocks last vs zs (advance (length us) next) (append array 4 block.selector) a
          b loaded.4 (omega (arith, loaded.1, f.1, read_all))
          (omega (arith, loaded.2, loaded.3, count))))
