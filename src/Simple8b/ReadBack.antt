-- ===== src/Simple8b/ReadBack.antt =====
-- What the reverse iterator of tsl/src/compression/simple8b_rle.h reads from full blocks.
use timescaledb.Base.{
  ℕ, ◌+◌, ◌^◌, ◌≤◌, ◌<◌, ◌≡◌, refl, sym, ap, ap₂, ◌∙◌, subst, List, [], ◌∷◌, ◌++◌, map,
  append_assoc, reverse, reverse-append, length, length-append, get_elem?, get_elem?-append_left,
  get_elem?-append_right, get_or, snoc_induction, arith, some,
}
use timescaledb.Base.Streams.{Yields}
use timescaledb.BitArray.{BitArray, init, append}
use timescaledb.BitArray.Value.{num_bits}
use timescaledb.BitArray.Append.{init-IsValid}
use timescaledb.BitArray.Read.{place}
use timescaledb.BitArray.ReadBack.{read_last}
use timescaledb.BitArray.RoundTrip.{append_all}
use timescaledb.Simple8b.{Simple8bRleBlock, block_create, block_get_element}
use timescaledb.Simple8b.Block.{capacity}
use timescaledb.Simple8b.Store.{selector_bits, word_of}
use timescaledb.Simple8b.Read.{selectors-Narrow}
use timescaledb.Simple8b.Slots.{selectors-num_bits}
use timescaledb.Simple8b.Iterator.{Simple8bRleDecompressionIterator}
use timescaledb.Simple8b.Reverse.{minus32, load_block_rev, get_current_rev, try_next_reverse}
use native.Mathlib.Nat.{mod-eq_of_lt}

-- The iterator before the first element of its block, after `k` more elements.
abbrev pub retreat : ℕ → Simple8bRleDecompressionIterator → Simple8bRleDecompressionIterator
retreat k iter = record iter {
  num_elements_returned = iter.num_elements_returned + k;
  current_in_compressed_pos = minus32 0 1;
}

abbrev stepped : Simple8bRleDecompressionIterator → Simple8bRleDecompressionIterator
stepped iter = record iter {
  num_elements_returned = iter.num_elements_returned + 1;
  current_in_compressed_pos = minus32 iter.current_in_compressed_pos 1;
}

pub read-done_rev :
    (iter : Simple8bRleDecompressionIterator)
    → iter.num_elements ≤ iter.num_elements_returned
    → Yields try_next_reverse iter []
unfolding try_next_reverse
read-done_rev iter h = (iter, ground arith)

next-current_rev :
    (iter : Simple8bRleDecompressionIterator) (v : ℕ)
    → iter.num_elements_returned < iter.num_elements
    → iter.current_in_compressed_pos < 2 ^ 31
    → block_get_element iter.current_block iter.current_in_compressed_pos ≡ some v
    → try_next_reverse iter ≡ some (some v, stepped iter)
unfolding try_next_reverse get_current_rev
next-current_rev iter v h l e = ground (arith, e)

next-load_rev :
    (iter : Simple8bRleDecompressionIterator)
    → iter.num_elements_returned < iter.num_elements
    → 2 ^ 31 ≤ iter.current_in_compressed_pos
    → (load_block_rev iter).current_in_compressed_pos < 2 ^ 31
    → try_next_reverse iter ≡ try_next_reverse (load_block_rev iter)
unfolding try_next_reverse load_block_rev
next-load_rev iter r h l = ground arith

pub load-read_rev :
    (xs : List ℕ) (iter : Simple8bRleDecompressionIterator)
    → 0 < length xs
    → iter.num_elements_returned < iter.num_elements
    → 2 ^ 31 ≤ iter.current_in_compressed_pos
    → (load_block_rev iter).current_in_compressed_pos < 2 ^ 31
    → Yields try_next_reverse (load_block_rev iter) xs
    → Yields try_next_reverse iter xs
load-read_rev [] iter p r h l y = absurd (omega arith)
load-read_rev (x ∷ xs) iter p r h l (t, e, y) = (t, next-load_rev iter r h l ∙ e, y)

-- The values are read before others, from the last one to the first.
abbrev ReadsBlock : List ℕ → Type 0
ReadsBlock zs =
    (ws : List ℕ) (iter : Simple8bRleDecompressionIterator)
    → length zs < 2 ^ 31
    → ((i : ℕ) → i < length zs → block_get_element iter.current_block i ≡ get_elem? zs i)
    → iter.current_in_compressed_pos ≡ minus32 (length zs) 1
    → iter.num_elements_returned + length zs ≤ iter.num_elements
    → Yields try_next_reverse (retreat (length zs) iter) ws
    → Yields try_next_reverse iter (reverse zs ++ ws)

read-none : ReadsBlock []
read-none ws iter s g p l y =
    subst (λ t. Yields try_next_reverse t ws)
      (ap₂ (λ (r q : ℕ). record iter { num_elements_returned = r; current_in_compressed_pos = q })
        (omega arith) (sym p))
      y

read-snoc : (ys : List ℕ) (v : ℕ) → ReadsBlock ys → ReadsBlock (ys ++ (v ∷ []))
read-snoc ys v r ws iter s g p l y =
    let n = length-append ys (v ∷ []) in
    let at_last : iter.current_in_compressed_pos ≡ length ys = omega (arith, p, n) in
    let found : block_get_element iter.current_block iter.current_in_compressed_pos ≡ some v =
      ap (block_get_element iter.current_block) at_last
      ∙ g (length ys) (omega (arith, n))
      ∙ get_elem?-append_right ys (v ∷ []) (length ys) (omega arith)
      ∙ ap (get_elem? (v ∷ [])) {y = 0} (omega arith) in
    let same : retreat (length (ys ++ (v ∷ []))) iter ≡ retreat (length ys) (stepped iter) =
      ap
        (λ (r : ℕ). record iter {
          num_elements_returned = r;
          current_in_compressed_pos = minus32 0 1;
        })
        (omega (arith, n)) in
    subst (λ t. Yields try_next_reverse iter (t ++ ws)) (sym (reverse-append ys (v ∷ [])))
      (
        stepped iter,
        next-current_rev iter v (omega (arith, n)) (omega (arith, at_last, n, s)) found,
        r ws (stepped iter) (omega (arith, n, s))
            (λ i h. g i (omega (arith, n)) ∙ get_elem?-append_left ys (v ∷ []) i h)
            (ap (λ k. minus32 k 1) at_last) (omega (arith, n, l))
            (subst (λ t. Yields try_next_reverse t ws) same y),
      )

pub read-block_rev : (zs : List ℕ) → ReadsBlock zs
read-block_rev = snoc_induction ReadsBlock read-none read-snoc

-- The selectors of some blocks.
abbrev pub selector_array : List Simple8bRleBlock → BitArray
selector_array blocks = append_all init (map selector_bits blocks)

append_all-append :
    (bs cs : List Simple8bRleBlock) (array : BitArray)
    → append_all array (map selector_bits (bs ++ cs))
      ≡ append_all (append_all array (map selector_bits bs)) (map selector_bits cs)
unfolding append_all
append_all-append [] cs array = refl
append_all-append (b ∷ bs) cs array = append_all-append bs cs (append array 4 b.selector)

selector_array-snoc :
    (bs : List Simple8bRleBlock) (b : Simple8bRleBlock)
    → selector_array (bs ++ (b ∷ [])) ≡ append (selector_array bs) 4 b.selector
unfolding append_all
selector_array-snoc bs b = append_all-append bs (b ∷ []) init

get_or-word_of :
    (bs : List Simple8bRleBlock) (b : Simple8bRleBlock) (rest : List Simple8bRleBlock)
    → get_or (map word_of (bs ++ (b ∷ rest))) (length bs) 0 ≡ b.payload
get_or-word_of [] b rest = refl
get_or-word_of (c ∷ bs) b rest = get_or-word_of bs b rest

-- The blocks before the iterator's, and those that it has read.
abbrev pub PendingBack :
    Simple8bRleDecompressionIterator → List Simple8bRleBlock → List Simple8bRleBlock → Type 0
PendingBack iter blocks rest =
    (iter.selectors.array ≡ selector_array (blocks ++ rest))
    × (place iter.selectors ≡ num_bits (selector_array blocks))
    × (iter.selectors.bits_used_in_current_bucket ≤ 64)
    × (iter.compressed_data ≡ map word_of (blocks ++ rest))
    × (iter.current_compressed_pos ≡ minus32 (length blocks) 1)

abbrev pub LoadedBack :
    Simple8bRleDecompressionIterator
    → Simple8bRleDecompressionIterator
    → Simple8bRleBlock
    → List Simple8bRleBlock
    → List Simple8bRleBlock
    → Type 0
LoadedBack iter next block blocks rest =
    (next.current_block ≡ block_create block.selector block.payload)
    × (next.current_in_compressed_pos ≡ minus32 (capacity block) 1)
    × (next.num_elements ≡ iter.num_elements)
    × (next.num_elements_returned ≡ iter.num_elements_returned)
    × PendingBack next blocks (block ∷ rest)

pub load_block_rev_lem :
    (iter : Simple8bRleDecompressionIterator) (block : Simple8bRleBlock)
    (blocks rest : List Simple8bRleBlock)
    → block.selector < 16
    → length blocks < 2 ^ 31
    → PendingBack iter (blocks ++ (block ∷ [])) rest
    → LoadedBack iter (load_block_rev iter) block blocks rest
unfolding load_block_rev
load_block_rev_lem iter block blocks rest h l (a, p, u, w, q) =
    let array = selector_array blocks in
    let n = length-append blocks (block ∷ []) in
    let regroup = append_assoc blocks (block ∷ []) rest in
    let whole : iter.selectors.array
        ≡ append_all (append array 4 block.selector) (map selector_bits rest) =
      a
      ∙ append_all-append (blocks ++ (block ∷ [])) rest init
      ∙ ap (λ t. append_all t (map selector_bits rest)) (selector_array-snoc blocks block) in
    let (x, a', p', u') =
      read_last 4 block.selector (map selector_bits rest) array iter.selectors
        (selectors-num_bits blocks init init-IsValid.0).0 (omega arith) (selectors-Narrow rest)
        whole (p ∙ ap num_bits (selector_array-snoc blocks block)) u in
    let at_word : iter.current_compressed_pos ≡ length blocks = omega (arith, q, n) in
    let word : get_or iter.compressed_data iter.current_compressed_pos 0 ≡ block.payload =
      ap₂ (λ t (k : ℕ). get_or t k 0) (w ∙ ap (map word_of) regroup) at_word
      ∙ get_or-word_of blocks block rest in
    let created = ap₂ block_create (x ∙ mod-eq_of_lt h) word in
    (
      created,
      ap (λ (t : Simple8bRleBlock). minus32 t.num_elements_compressed 1) created,
      refl,
      refl,
      (
        a' ∙ a ∙ ap selector_array regroup,
        p',
        u',
        w ∙ ap (map word_of) regroup,
        omega (arith, q, n),
      ),
    )
