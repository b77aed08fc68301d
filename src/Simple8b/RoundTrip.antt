-- ===== src/Simple8b/RoundTrip.antt =====
-- What the compressor of tsl/src/compression/simple8b_rle.h writes, its iterator reads back.
use timescaledb.Base.{
  ◌⊎◌, inl, inr, if◌then◌else◌, ◌==◌, ℕ, suc, ◌+◌, ◌-◌, ◌*◌, ◌%◌, ◌^◌, ◌≤◌, ◌<◌, ◌≡◌, refl, sym, ap,
  ap₂, ◌∙◌, subst, List, [], ◌∷◌, ◌++◌, map, append-nil, append_assoc, reverse, length,
  length-append, drop, arith, none, some, Option, ◌>>=◌, true, false,
}
use timescaledb.Base.Streams.{collect, Yields, Yields-collect}
use timescaledb.BitArray.{BitArray, init, append, wrap, iterator_init}
use timescaledb.BitArray.Append.{init-IsValid}
use timescaledb.BitArray.RoundTrip.{append_all}
use timescaledb.Simple8b.{Simple8bRleBlock}
use timescaledb.Simple8b.Block.{AllBelow, IsBlock-some}
use timescaledb.Simple8b.Store.{
  AllFull-length, Done, selector_bits, word_of, append_all-snoc, map-snoc,
}
use timescaledb.Simple8b.Room.{allocated_lem, length-words, length-selectors}
use timescaledb.Simple8b.Flush.{
  IsCompressor, flush_lem, compressor_append_lem, compressor_init-IsCompressor,
}
use timescaledb.Simple8b.Backwards.{read-serialized_rev}
use timescaledb.Simple8b.Reverse.{init_reverse, try_next_reverse}
use timescaledb.Simple8b.Slots.{IsSerialized, selectors_of, selectors_in_slots}
use timescaledb.Simple8b.Read.{read_blocks}
use timescaledb.Simple8b.Compressor.{
  Simple8bRleCompressor, Simple8bRleSerialized, compressor_init, push_block, allocated,
  allocate_form, compressor_append, compressor_finish,
}
use timescaledb.Simple8b.Iterator.{
  Simple8bRleDecompressionIterator, num_selector_slots, init_forward, try_next_forward,
}

unfoldable pub append_each : Simple8bRleCompressor → List ℕ → Option Simple8bRleCompressor
append_each c [] = some c
append_each c (x ∷ xs) = compressor_append c x >>= (λ d. append_each d xs)

unfoldable pub compress : List ℕ → Option (Option Simple8bRleSerialized)
compress xs = append_each compressor_init xs >>= compressor_finish

-- All values, in `n` calls of the iterator at most.
unfoldable pub decompress : ℕ → Option Simple8bRleSerialized → Option (List ℕ)
decompress n none = some []
decompress n (some compressed) = collect try_next_forward n (init_forward compressed)

append_each_lem :
    (xs : List ℕ) (c : Simple8bRleCompressor) (ys : List ℕ)
    → IsCompressor c ys
    → AllBelow 64 xs
    → length ys + length xs < 2 ^ 25
    → (d : Simple8bRleCompressor) × (append_each c xs ≡ some d) × IsCompressor d (ys ++ xs)
unfolding append_each
append_each_lem [] c ys h a short = (c, refl, subst (IsCompressor c) (sym (append-nil ys)) h)
append_each_lem (x ∷ xs) c ys h a short =
    let (d, e, w) = compressor_append_lem c ys x h a.0 (omega (arith, short)) in
    let (f, g, v) =
      append_each_lem xs d (ys ++ (x ∷ [])) w a.1
        (omega (arith, short, length-append ys (x ∷ []))) in
    (
      f,
      ap (λ t. t >>= (λ d. append_each d xs)) e ∙ g,
      subst (IsCompressor f) (append_assoc ys (x ∷ []) xs) v,
    )

read-serialized :
    (s : Simple8bRleSerialized) (xs : List ℕ)
    → IsSerialized s xs
    → length xs < 2 ^ 30 - 1
    → Yields try_next_forward (init_forward s) xs
unfolding init_forward iterator_init
read-serialized s xs (blocks, last, ys, zs, d, a, b, e, m, f) l =
    let ws = map word_of (blocks ++ (last ∷ [])) in
    let array = selectors_of blocks last in
    let count = AllFull-length blocks ys a in
    let total : length xs ≡ length ys + length zs = ap length d ∙ length-append ys zs in
    let (w, r) = selectors_in_slots blocks last ws s.num_blocks m (omega arith) in
    subst (Yields try_next_forward (init_forward s)) (sym d) (
      read_blocks blocks last ys zs (init_forward s) init a b
        (
          init-IsValid.0,
          ap (λ t. wrap t (s.num_blocks * 4 % 2 ^ 32)) f ∙ w,
          omega (arith, init-IsValid.2),
          omega arith,
          ap (drop (num_selector_slots s.num_blocks)) f ∙ r,
        )
        (omega arith) (omega (arith, e, total, length-append ys zs)))

-- The form of a compressor after its last block was pushed.
abbrev form_of : Simple8bRleCompressor → Simple8bRleSerialized
form_of d =
    let pushed = push_block d d.last_block in
    record {
      num_elements = pushed.num_elements;
      num_blocks = length pushed.compressed_data;
      slots = pushed.selectors.buckets ++ pushed.compressed_data;
    }

abbrev after_push : Option Simple8bRleCompressor → Option (Option Simple8bRleSerialized)
after_push o = o >>= (λ pushed. allocate_form pushed >>= (λ compressed. some (some compressed)))

abbrev result : Simple8bRleCompressor → Option (Option Simple8bRleSerialized)
result d =
    if d.num_elements == 0 then some none else after_push (allocated (push_block d d.last_block))

last_pushed :
    (d : Simple8bRleCompressor)
    → d.last_block_set ≡ true
    → ((push_block d d.last_block).selectors ≡ append d.selectors 4 d.last_block.selector)
      × ((push_block d d.last_block).compressed_data
          ≡ d.compressed_data ++ (d.last_block.payload ∷ []))
      × ((push_block d d.last_block).num_elements ≡ d.num_elements)
unfolding push_block
last_pushed d s = (ground arith, ground arith, ground arith)

length-map-snoc :
    (blocks : List Simple8bRleBlock) (last : Simple8bRleBlock)
    → length (map word_of (blocks ++ (last ∷ []))) ≡ suc (length blocks)
length-map-snoc [] last = refl
length-map-snoc (b ∷ bs) last = ap suc (length-map-snoc bs last)

form_of-IsSerialized :
    (d : Simple8bRleCompressor) (xs : List ℕ)
    → Done d xs
    → d.num_elements ≡ length xs
    → IsSerialized (form_of d) xs
form_of-IsSerialized d xs (s, (ys, zs, p, (blocks, e, f, a), b)) n =
    let last = d.last_block in
    let (sel, ws, count) = last_pushed d s in
    let selectors : (push_block d last).selectors ≡ selectors_of blocks last =
      sel
      ∙ ap (λ t. append t 4 last.selector) e
      ∙ append_all-snoc (map selector_bits blocks) init 4 last.selector
      ∙ ap (append_all init) (map-snoc selector_bits blocks last) in
    let words : (push_block d last).compressed_data ≡ map word_of (blocks ++ (last ∷ [])) =
      ws ∙ ap (λ t. t ++ (last.payload ∷ [])) f ∙ map-snoc word_of blocks last in
    (
      blocks,
      last,
      ys,
      zs,
      p,
      a,
      b,
      count ∙ n,
      ap length words ∙ length-map-snoc blocks last,
      ap₂ (λ (t : BitArray) (u : List ℕ). t.buckets ++ u) selectors words,
    )

-- A compressor that holds something has room for its form.
result-Done :
    (d : Simple8bRleCompressor) (xs : List ℕ)
    → Done d xs
    → d.num_elements ≡ length xs
    → length xs < 2 ^ 25
    → result d ≡ some (some (form_of d))
unfolding allocate_form
result-Done d xs (s, (ys, zs, p, (blocks, e, f, a), b)) count l =
    let pushed = push_block d d.last_block in
    let (blocks', last, us, vs, q, full, rest, n, k, slots) =
      form_of-IsSerialized d xs (s, (ys, zs, p, (blocks, e, f, a), b)) count in
    let (sel, ws, same) = last_pushed d s in
    let fewer = AllFull-length blocks ys a in
    let some_value = IsBlock-some d.last_block zs b in
    let total : length xs ≡ length ys + length zs = ap length p ∙ length-append ys zs in
    let selectors : pushed.selectors
        ≡ append_all init (map selector_bits (blocks ++ (d.last_block ∷ []))) =
      sel
      ∙ ap (λ t. append t 4 d.last_block.selector) e
      ∙ append_all-snoc (map selector_bits blocks) init 4 d.last_block.selector
      ∙ ap (append_all init) (map-snoc selector_bits blocks d.last_block) in
    let buckets = length-selectors (blocks ++ (d.last_block ∷ [])) pushed.selectors selectors in
    let words : length pushed.compressed_data ≡ length blocks + 1 = omega (
      arith,
      ap length ws,
      ap length f,
      length-words blocks,
      length-append d.compressed_data (d.last_block.payload ∷ []),
    ) in
    let room : allocated pushed ≡ some pushed =
      allocated_lem pushed
        (omega (arith, buckets, length-append blocks (d.last_block ∷ []), fewer, some_value, total))
        (omega (arith, words, fewer, some_value, total)) in
    let small : allocate_form pushed ≡ some (form_of d) =
      ground (
        arith,
        buckets,
        length-append blocks (d.last_block ∷ []),
        words,
        fewer,
        some_value,
        total,
      ) in
    let some_count : (d.num_elements == 0) ≡ false = ground (arith, count, some_value, total) in
    ap (λ b. if b then some none else after_push (allocated pushed)) some_count
    ∙ ap after_push room
    ∙ ap (λ o. o >>= (λ compressed. some (some compressed))) small

abbrev Finished : Simple8bRleCompressor → List ℕ → Type 0
Finished c xs =
    ((xs ≡ []) × (compressor_finish c ≡ some none))
    ⊎ ((s : Simple8bRleSerialized) × (compressor_finish c ≡ some (some s)) × IsSerialized s xs)

finish_lem :
    (c : Simple8bRleCompressor) (xs : List ℕ)
    → IsCompressor c xs
    → length xs < 2 ^ 25
    → Finished c xs
unfolding compressor_finish
finish_lem c xs h l =
    let (d, f, (flushed, e, n, a, r), u) = flush_lem c xs h l in
    let same : xs ≡ flushed = e ∙ ap (λ t. flushed ++ t) u ∙ append-nil flushed in
    let count : d.num_elements ≡ length xs = omega (arith, n, ap length same) in
    elim r [
      | inl (s, sel, ws, g) ↦
          inl (same ∙ g, ap (λ t. t >>= result) f ∙ ground (arith, ap length (same ∙ g)))
      | inr q ↦
          let done : Done d xs = subst (Done d) (sym same) q in
          inr (
            form_of d,
            ap (λ t. t >>= result) f ∙ result-Done d xs done count l,
            form_of-IsSerialized d xs done count,
          )
    ]

-- What a compressor finishes to: nothing, where it holds nothing, or a form that is read back.
abbrev pub Reads : Option Simple8bRleSerialized → List ℕ → Type 0
Reads none xs = xs ≡ []
Reads (some s) xs =
    (0 < length xs)
    × (s.num_blocks ≤ length xs)
    × Yields try_next_forward (init_forward s) xs
    × ((iter : Simple8bRleDecompressionIterator) × (init_reverse s ≡ some iter)
        × Yields try_next_reverse iter (reverse xs))

pub finish-Reads :
    (c : Simple8bRleCompressor) (xs : List ℕ)
    → IsCompressor c xs
    → length xs < 2 ^ 25
    → (o : Option Simple8bRleSerialized) × (compressor_finish c ≡ some o) × Reads o xs
finish-Reads c xs w l =
    let finished = finish_lem c xs w l in
    elim finished [
      | inl (z, f) ↦ (none, f, z)
      | inr (s, f, v) ↦ (
        some s,
        f,
        (
          (sized s xs v).0,
          (sized s xs v).1,
          read-serialized s xs v (omega (arith, l)),
          read-serialized_rev s xs v (omega (arith, l)),
        ),
      )
    ]
  where
    sized :
        (s : Simple8bRleSerialized) (xs : List ℕ)
        → IsSerialized s xs
        → (0 < length xs) × (s.num_blocks ≤ length xs)
    sized s xs (blocks, last, ys, zs, d, a, b, r, m, f) =
        let total : length xs ≡ length ys + length zs = ap length d ∙ length-append ys zs in
        (
          omega (arith, IsBlock-some last zs b),
          omega (arith, IsBlock-some last zs b, AllFull-length blocks ys a),
        )

Reads-decompress :
    (o : Option Simple8bRleSerialized) (xs : List ℕ) (n : ℕ)
    → Reads o xs
    → length xs < n
    → decompress n o ≡ some xs
unfolding decompress
Reads-decompress none xs n z h = ap some (sym z)
Reads-decompress (some s) xs n r h = Yields-collect try_next_forward xs (init_forward s) n r.2 h

-- All values from the last one on, in `n` calls of the reverse iterator at most.
unfoldable pub decompress_rev : ℕ → Option Simple8bRleSerialized → Option (List ℕ)
decompress_rev n none = some []
decompress_rev n (some compressed) = init_reverse compressed >>= collect try_next_reverse n

Reads-decompress_rev :
    (o : Option Simple8bRleSerialized) (xs : List ℕ) (n : ℕ)
    → Reads o xs
    → length (reverse xs) < n
    → decompress_rev n o ≡ some (reverse xs)
unfolding decompress_rev
Reads-decompress_rev none xs n z h = ap (λ t. some (reverse t)) (sym z)
Reads-decompress_rev (some s) xs n (p, q, r, (iter, e, y)) h =
    ap (λ o. o >>= collect try_next_reverse n) e
    ∙ Yields-collect try_next_reverse (reverse xs) iter n y h

-- Words that are appended to an empty compressor, fewer than 2 ^ 25 of them, are compressed without
-- an error, and the reverse iterator returns them all from the last to the first and is then done, in
-- any number of calls above that of the words.
pub decompress_rev-compress :
    (xs : List ℕ) (n : ℕ)
    → AllBelow 64 xs
    → length xs < 2 ^ 25
    → length (reverse xs) < n
    → (compress xs >>= decompress_rev n) ≡ some (reverse xs)
unfolding compress
decompress_rev-compress xs n a l h =
    let (c, e, w) =
      append_each_lem xs compressor_init [] compressor_init-IsCompressor a (omega (arith, l)) in
    let (o, f, r) = finish-Reads c xs w l in
    ap (λ t. (t >>= compressor_finish) >>= decompress_rev n) e
    ∙ ap (λ t. t >>= decompress_rev n) f
    ∙ Reads-decompress_rev o xs n r h

-- Words that are appended to an empty compressor, fewer than 2 ^ 25 of them, are compressed without
-- an error, and the forward iterator returns them all in order and is then done, in any number of
-- calls above that of the words.
pub decompress-compress :
    (xs : List ℕ) (n : ℕ)
    → AllBelow 64 xs
    → length xs < 2 ^ 25
    → length xs < n
    → (compress xs >>= decompress n) ≡ some xs
unfolding compress
decompress-compress xs n a l h =
    let (c, e, w) =
      append_each_lem xs compressor_init [] compressor_init-IsCompressor a (omega (arith, l)) in
    let (o, f, r) = finish-Reads c xs w l in
    ap (λ t. (t >>= compressor_finish) >>= decompress n) e
    ∙ ap (λ t. t >>= decompress n) f
    ∙ Reads-decompress o xs n r h
