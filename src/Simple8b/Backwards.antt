-- ===== src/Simple8b/Backwards.antt =====
-- What the compressor of tsl/src/compression/simple8b_rle.h writes, its reverse iterator reads back.
use timescaledb.Base.{
  inl, inr, if◌then◌else◌, ◌==◌, ℕ, suc, ◌+◌, ◌-◌, ◌*◌, ◌%◌, ◌^◌, ◌≤◌, ◌<◌, ◌≡◌, refl, sym, ap, ap₂,
  ◌∙◌, subst, List, [], ◌∷◌, ◌++◌, map, append-nil, append_assoc, reverse, reverse-cons,
  reverse-append, false, length, length-append, drop, get_or, snoc_induction, arith, none, some,
  Option, ◌>>=◌,
}
use timescaledb.Base.Streams.{Yields}
use timescaledb.BitArray.{
  BitArray, BitArrayIterator, init, append, iter_next, iterator_init, iterator_init_rev, wrap,
}
use timescaledb.BitArray.Value.{num_bits}
use timescaledb.BitArray.Append.{IsValid, init-IsValid}
use timescaledb.BitArray.Read.{place}
use timescaledb.BitArray.ReadBack.{iterator_init_rev-place}
use timescaledb.BitArray.RoundTrip.{append_all, read_first}
use timescaledb.Simple8b.{
  Simple8bRleBlock, num_elements, block_create, block_get_element, selector_is_rle,
  rledata_repeatcount,
}
use timescaledb.Simple8b.Width.{fewer}
use timescaledb.Simple8b.Block.{
  IsBlock, IsFull, capacity, capacity-packed, block_get, IsBlock-some, IsBlock-fits,
  IsBlock-selector, IsRun-IsFull,
}
use timescaledb.Simple8b.Store.{AllFull, AllFull-length, selector_bits, word_of}
use timescaledb.Simple8b.Read.{selectors-Narrow, block_get_created, get_or-drop}
use timescaledb.Simple8b.ReadBack.{
  retreat, read-done_rev, load-read_rev, read-block_rev, selector_array, PendingBack,
  load_block_rev_lem,
}
use timescaledb.Simple8b.Compressor.{Simple8bRleSerialized}
use timescaledb.Simple8b.Slots.{IsSerialized, selectors_of, selectors_in_slots, selectors-num_bits}
use timescaledb.Simple8b.Iterator
use timescaledb.Simple8b.Iterator.{num_selector_slots, Simple8bRleDecompressionIterator}
use timescaledb.Simple8b.Reverse.{
  minus32, max_stored, max_elements, init_reverse, load_block_rev, try_next_reverse,
}
use native.Mathlib.Nat.{mod-eq_of_lt}

AllFull-last :
    (blocks : List Simple8bRleBlock) (block : Simple8bRleBlock) (xs : List ℕ)
    → AllFull (blocks ++ (block ∷ [])) xs
    → (ys : List ℕ) × (zs : List ℕ) × (xs ≡ ys ++ zs) × AllFull blocks ys × IsFull block zs
AllFull-last [] block xs (us, vs, d, f, e) =
    ([], us, d ∙ ap (λ t. us ++ t) e ∙ append-nil us, refl, f)
AllFull-last (b ∷ bs) block xs (us, vs, d, g, a) =
    let (ys, zs, e, a', f) = AllFull-last bs block vs a in
    (us ++ ys, zs, d ∙ ap (λ t. us ++ t) e ∙ sym (append_assoc us ys zs), (us, ys, refl, g, a'), f)

reverse_some : (zs ws : List ℕ) → 0 < length zs → 0 < length (reverse zs ++ ws)
reverse_some [] ws h = absurd (omega arith)
reverse_some (z ∷ zs) ws h = omega (
  arith,
  length-append (reverse (z ∷ zs)) ws,
  ap length (reverse-cons z zs),
  length-append (reverse zs) (z ∷ []),
)

-- The values of the blocks are read, from the last one to the first.
abbrev ReadsBlocks : List Simple8bRleBlock → Type 0
ReadsBlocks blocks =
    (xs : List ℕ) (iter : Simple8bRleDecompressionIterator) (rest : List Simple8bRleBlock)
    → AllFull blocks xs
    → PendingBack iter blocks rest
    → length xs < 2 ^ 30
    → iter.current_in_compressed_pos ≡ minus32 0 1
    → iter.num_elements ≡ iter.num_elements_returned + length xs
    → Yields try_next_reverse iter (reverse xs)

reads_none : ReadsBlocks []
reads_none xs iter rest a w l p e =
    subst (λ t. Yields try_next_reverse iter (reverse t)) (sym a)
      (read-done_rev iter (omega (arith, e, ap length a)))

reads_snoc :
    (blocks : List Simple8bRleBlock) (block : Simple8bRleBlock)
    → ReadsBlocks blocks
    → ReadsBlocks (blocks ++ (block ∷ []))
reads_snoc blocks block r xs iter rest a w l p e =
    let (ys, zs, d, a', f) = AllFull-last blocks block xs a in
    let next = load_block_rev iter in
    let total : length xs ≡ length ys + length zs = ap length d ∙ length-append ys zs in
    let some_value = IsBlock-some block zs f.0 in
    let (c, q, n, m, w') =
      load_block_rev_lem iter block blocks rest (IsBlock-selector block zs f.0).1
        (omega (arith, total, AllFull-length blocks ys a')) w in
    let order : reverse xs ≡ reverse zs ++ reverse ys = ap reverse d ∙ reverse-append ys zs in
    let loaded : Yields try_next_reverse next (reverse zs ++ reverse ys) =
      read-block_rev zs (reverse ys) next (omega (arith, total))
        (λ i h.
          ap (λ t. block_get_element t i) c
          ∙ block_get_created block i
          ∙ block_get block zs i f.0 h)
        (q ∙ ap (λ k. minus32 k 1) (sym f.1)) (omega (arith, n, m, e, total))
        (r ys (retreat (length zs) next) (block ∷ rest) a' w' (omega (arith, total)) refl
          (omega (arith, n, m, e, total))) in
    subst (Yields try_next_reverse iter) (sym order) (
      load-read_rev (reverse zs ++ reverse ys) iter (reverse_some zs (reverse ys) some_value)
        (omega (arith, e, total)) (omega (arith, p)) (omega (arith, q, f.1, total)) loaded)

pub read_blocks_rev : (blocks : List Simple8bRleBlock) → ReadsBlocks blocks
read_blocks_rev = snoc_induction ReadsBlocks reads_none reads_snoc

-- What the blocks hold at most.
abbrev total_capacity : List Simple8bRleBlock → ℕ
total_capacity [] = 0
total_capacity (b ∷ bs) = capacity b + total_capacity bs

abbrev AllSelectors : List Simple8bRleBlock → Type 0
AllSelectors [] = Unit
AllSelectors (b ∷ bs) = ((1 ≤ b.selector) × (b.selector < 16)) × AllSelectors bs

max_stored_lem :
    (blocks : List Simple8bRleBlock) (i stored : ℕ) (array : BitArray) (iter : BitArrayIterator)
    (ws : List ℕ)
    → AllSelectors blocks
    → stored < 2 ^ 32
    → IsValid array
    → iter.array ≡ append_all array (map selector_bits blocks)
    → place iter ≡ num_bits array
    → iter.bits_used_in_current_bucket ≤ 64
    → drop i ws ≡ map word_of blocks
    → max_stored (length blocks) i iter ws stored ≡ some ((stored + total_capacity blocks) % 2 ^ 32)
unfolding max_stored block_create
max_stored_lem [] i stored array iter ws a l v e p u d = ap some (omega arith)
max_stored_lem (b ∷ bs) i stored array iter ws a l v e p u d =
    let (x, e', p', u', v') =
      read_first 4 b.selector (map selector_bits bs) array iter v (selectors-Narrow (b ∷ bs)) e p
        u in
    let (w, r) = get_or-drop ws i b.payload (map word_of bs) d in
    let later =
      max_stored_lem bs (i + 1) ((stored + capacity b) % 2 ^ 32) (append array 4 b.selector)
        (iter_next iter 4).1 ws a.1 (omega arith) v' e' p' u' r in
    let read : (iter_next iter 4).0 ≡ b.selector = x ∙ mod-eq_of_lt a.0.1 in
    let valid : ((iter_next iter 4).0 == 0) ≡ false = ground (arith, read) in
    let step : ℕ → Option ℕ =
      λ count. max_stored (length bs) (i + 1) (iter_next iter 4).1 ws ((stored + count) % 2 ^ 32) in
    let count_of : ℕ → ℕ → ℕ = λ selector word.
      if selector_is_rle selector then rledata_repeatcount word else num_elements selector in
    ap (λ t. if t then none else step (count_of (iter_next iter 4).0 (get_or ws i 0))) valid
    ∙ ap step (ap₂ count_of read w)
    ∙ later
    ∙ ap some (omega arith)

total-full :
    (blocks : List Simple8bRleBlock) (last : Simple8bRleBlock) (ys : List ℕ)
    → AllFull blocks ys
    → total_capacity (blocks ++ (last ∷ [])) ≡ length ys + capacity last
total-full [] last ys a = omega (arith, ap length a)
total-full (b ∷ bs) last ys (us, vs, d, g, a) =
    omega (arith, ap length d, length-append us vs, g.1, total-full bs last vs a)

full-AllSelectors :
    (blocks : List Simple8bRleBlock) (last : Simple8bRleBlock) (ys zs : List ℕ)
    → AllFull blocks ys
    → IsBlock last zs
    → AllSelectors (blocks ++ (last ∷ []))
full-AllSelectors [] last ys zs a h = (IsBlock-selector last zs h, tt)
full-AllSelectors (b ∷ bs) last ys zs (us, vs, d, g, a) h =
    (IsBlock-selector b us g.0, full-AllSelectors bs last vs zs a h)

first_row : num_elements 1 ≡ 64
unfolding num_elements
first_row = refl

-- The last block may have room for up to 64 elements more.
capacity-room :
    (block : Simple8bRleBlock) (zs : List ℕ) → IsBlock block zs → capacity block ≤ length zs + 64
capacity-room block zs (inl p) = omega (
  arith,
  capacity-packed block zs p.1,
  fewer 1 block.selector (omega arith) p.1.0 p.1.1,
  first_row,
)
capacity-room block zs (inr r) = omega (arith, (IsRun-IsFull block zs r).1)

length-snoc :
    (blocks : List Simple8bRleBlock) (last : Simple8bRleBlock)
    → length (blocks ++ (last ∷ [])) ≡ suc (length blocks)
length-snoc blocks last = omega (arith, length-append blocks (last ∷ []))

-- A compressed form is read backwards.
pub read-serialized_rev :
    (s : Simple8bRleSerialized) (xs : List ℕ)
    → IsSerialized s xs
    → length xs < 2 ^ 30 - 1
    → (iter : Simple8bRleDecompressionIterator) × (init_reverse s ≡ some iter)
      × Yields try_next_reverse iter (reverse xs)
unfolding init_reverse max_elements Iterator.init_forward iterator_init_rev iterator_init
read-serialized_rev s xs (blocks, last, ys, zs, d, a, b, e, m, f) l =
    let all = blocks ++ (last ∷ []) in
    let ws = map word_of all in
    let array = selectors_of blocks last in
    let total : length xs ≡ length ys + length zs = ap length d ∙ length-append ys zs in
    let few = AllFull-length blocks ys a in
    let some_value = IsBlock-some last zs b in
    let fits = IsBlock-fits last zs b in
    let room = capacity-room last zs b in
    let (w, r) = selectors_in_slots blocks last ws s.num_blocks m (omega arith) in
    let wrapped = ap (λ t. wrap t (s.num_blocks * 4 % 2 ^ 32)) f ∙ w in
    let words = ap (drop (num_selector_slots s.num_blocks)) f ∙ r in
    let common = Iterator.init_forward s in
    let iter : Simple8bRleDecompressionIterator = record common {
      selectors = iterator_init_rev common.selector_data;
      current_compressed_pos = minus32 s.num_blocks 1;
    } in
    let selectors = selectors-num_bits all init init-IsValid.0 in
    let valid = selectors.0 in
    let pending : PendingBack iter all [] = (
      wrapped ∙ ap selector_array (sym (append-nil all)),
      subst (λ (t : BitArray). place (iterator_init_rev t) ≡ num_bits t) (sym wrapped)
            (iterator_init_rev-place array selectors.0
              (omega (arith, selectors.1, length-snoc blocks last)))
          ∙ ap num_bits wrapped,
      subst (λ (t : BitArray). t.bits_used_in_last_bucket ≤ 64) (sym wrapped) valid.1,
      words ∙ ap (map word_of) (sym (append-nil all)),
      ap (λ k. minus32 k 1) (m ∙ sym (length-snoc blocks last)),
    ) in
    let (c, q, n, k, back) =
      load_block_rev_lem iter last blocks [] (IsBlock-selector last zs b).1 (omega (arith, total))
        pending in
    let stored : max_elements iter s ≡ some ((0 + total_capacity all) % 2 ^ 32) =
      ap
        (λ (rounds : ℕ).
          max_stored rounds 0 (iterator_init common.selector_data) common.compressed_data 0)
        (m ∙ sym (length-snoc blocks last))
      ∙ max_stored_lem all 0 0 init (iterator_init common.selector_data) common.compressed_data
          (full-AllSelectors blocks last ys zs a b) (omega arith) init-IsValid.0 wrapped
          (omega (arith, init-IsValid.2)) (omega arith) words in
    let next = load_block_rev iter in
    let start : ℕ → Simple8bRleDecompressionIterator = λ (sum : ℕ). record next {
      current_in_compressed_pos =
          minus32 next.current_in_compressed_pos (minus32 sum s.num_elements);
    } in
    let final = start ((0 + total_capacity all) % 2 ^ 32) in
    let at_last : final.current_in_compressed_pos ≡ minus32 (length zs) 1 =
      omega (arith, q, e, total, total-full blocks last ys a, fits, room, some_value) in
    let read : Yields try_next_reverse final (reverse zs ++ reverse ys) =
      read-block_rev zs (reverse ys) final (omega (arith, total))
        (λ i h.
          ap (λ t. block_get_element t i) c ∙ block_get_created last i ∙ block_get last zs i b h)
        at_last (omega (arith, n, k, e, total))
        (read_blocks_rev blocks ys (retreat (length zs) final) (last ∷ []) a back
          (omega (arith, total)) refl (omega (arith, n, k, e, total))) in
    (
      final,
      ap (λ o. o >>= (λ sum. some (start sum))) stored,
      subst (Yields try_next_reverse final) (sym (ap reverse d ∙ reverse-append ys zs)) read,
    )
