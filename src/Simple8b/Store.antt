-- ===== src/Simple8b/Store.antt =====
-- What the compressor of tsl/src/compression/simple8b_rle.h has stored: full blocks, and the last one.
use timescaledb.Base.{
  ◌⊎◌, inl, inr, if◌then◌else◌, ℕ, zero, suc, ◌≤◌, ◌<◌, ◌≡◌, refl, sym, ap, ◌∙◌, subst, true, false,
  List, [], ◌∷◌, ◌++◌, map, append-nil, append_assoc, length, length-append, arith,
}
use timescaledb.BitArray.{BitArray, init, append}
use timescaledb.BitArray.RoundTrip.{append_all}
use timescaledb.Simple8b.{Simple8bRleBlock}
use timescaledb.Simple8b.Block.{AllBelow, IsBlock, IsFull, IsBlock-some}
use timescaledb.Simple8b.Pack.{next_block_lem}
use timescaledb.Simple8b.Compressor.{Simple8bRleCompressor, push_block, next_block, append_rounds}

-- Full blocks that hold the values, in order.
abbrev pub AllFull : List Simple8bRleBlock → List ℕ → Type 0
AllFull [] xs = xs ≡ []
AllFull (block ∷ blocks) xs =
    (ys : List ℕ) × (zs : List ℕ) × (xs ≡ ys ++ zs) × IsFull block ys × AllFull blocks zs

pub AllFull-snoc :
    (blocks : List Simple8bRleBlock) (xs : List ℕ) (block : Simple8bRleBlock) (ys : List ℕ)
    → AllFull blocks xs
    → IsFull block ys
    → AllFull (blocks ++ (block ∷ [])) (xs ++ ys)
AllFull-snoc [] xs block ys a f = (ys, [], ap (λ t. t ++ ys) a ∙ sym (append-nil ys), f, refl)
AllFull-snoc (b ∷ bs) xs block ys (us, vs, d, g, a) f =
    (us, vs ++ ys, ap (λ t. t ++ ys) d ∙ append_assoc us vs ys, g, AllFull-snoc bs vs block ys a f)

-- Every block holds a value at least.
pub AllFull-length :
    (blocks : List Simple8bRleBlock) (xs : List ℕ) → AllFull blocks xs → length blocks ≤ length xs
AllFull-length [] xs a = omega arith
AllFull-length (b ∷ bs) xs (us, vs, d, g, a) =
    omega (arith, ap length d, length-append us vs, IsBlock-some b us g.0, AllFull-length bs vs a)

abbrev pub selector_bits : Simple8bRleBlock → ℕ × ℕ
selector_bits block = (4, block.selector)

abbrev pub word_of : Simple8bRleBlock → ℕ
word_of block = block.payload

pub append_all-snoc :
    (ps : List (ℕ × ℕ)) (array : BitArray) (k x : ℕ)
    → append (append_all array ps) k x ≡ append_all array (ps ++ ((k, x) ∷ []))
unfolding append_all
append_all-snoc [] array k x = refl
append_all-snoc ((j, y) ∷ ps) array k x = append_all-snoc ps (append array j y) k x

pub map-snoc {ℓ κ} :
    {A : Type ℓ} {B : Type κ} (f : A → B) (xs : List A) (x : A)
    → map f xs ++ (f x ∷ []) ≡ map f (xs ++ (x ∷ []))
map-snoc f [] x = refl
map-snoc f (y ∷ ys) x = ap (λ t. f y ∷ t) (map-snoc f ys x)

-- The selectors and the words are those of full blocks that hold `xs`.
abbrev pub Stored : Simple8bRleCompressor → List ℕ → Type 0
Stored c xs =
    (blocks : List Simple8bRleBlock) × (c.selectors ≡ append_all init (map selector_bits blocks))
    × (c.compressed_data ≡ map word_of blocks)
    × AllFull blocks xs

-- The compressor holds `xs`, with its last block.
abbrev pub Done : Simple8bRleCompressor → List ℕ → Type 0
Done c xs =
    (c.last_block_set ≡ true)
    × ((ys : List ℕ) × (zs : List ℕ) × (xs ≡ ys ++ zs) × Stored c ys × IsBlock c.last_block zs)

-- It holds `xs`, and can take another block.
abbrev pub Ready : Simple8bRleCompressor → List ℕ → Type 0
Ready c xs =
    ((c.last_block_set ≡ false) × Stored c xs)
    ⊎ ((c.last_block_set ≡ true)
        × ((ys : List ℕ) × (zs : List ℕ) × (xs ≡ ys ++ zs) × Stored c ys × IsFull c.last_block zs))

-- The fields that a push leaves.
abbrev pub Keeps : Simple8bRleCompressor → Simple8bRleCompressor → Type 0
Keeps c d = (d.num_elements ≡ c.num_elements) × (d.uncompressed_elements ≡ c.uncompressed_elements)

abbrev Pushed : Simple8bRleCompressor → Simple8bRleBlock → List ℕ → Simple8bRleCompressor → Type 0
Pushed c block xs d = (d.last_block_set ≡ true) × (d.last_block ≡ block) × Stored d xs × Keeps c d

pub push_block_lem :
    (c : Simple8bRleCompressor) (block : Simple8bRleBlock) (xs : List ℕ)
    → Ready c xs
    → Pushed c block xs (push_block c block)
unfolding push_block
push_block_lem c block xs (inl (s, w)) =
    let closed : Simple8bRleCompressor = record c {
      selectors = append c.selectors 4 c.last_block.selector;
      compressed_data = c.compressed_data ++ (c.last_block.payload ∷ []);
      last_block = block;
    } in
    let opened : Simple8bRleCompressor = record c { last_block = block; last_block_set = true } in
    subst (Pushed c block xs) (sym (ap (λ t. if t then closed else opened) s))
      (refl, refl, w, (refl, refl))
push_block_lem c block xs (inr (s, (ys, zs, d, (blocks, e, f, a), g))) =
    let closed : Simple8bRleCompressor = record c {
      selectors = append c.selectors 4 c.last_block.selector;
      compressed_data = c.compressed_data ++ (c.last_block.payload ∷ []);
      last_block = block;
    } in
    let opened : Simple8bRleCompressor = record c { last_block = block; last_block_set = true } in
    subst (Pushed c block xs) (sym (ap (λ t. if t then closed else opened) s)) (
      s,
      refl,
      (
        blocks ++ (c.last_block ∷ []),
        ap (λ t. append t 4 c.last_block.selector) e
            ∙ append_all-snoc (map selector_bits blocks) init 4 c.last_block.selector
            ∙ ap (append_all init) (map-snoc selector_bits blocks c.last_block),
        ap (λ t. t ++ (c.last_block.payload ∷ [])) f ∙ map-snoc word_of blocks c.last_block,
        subst (AllFull (blocks ++ (c.last_block ∷ []))) (sym d)
            (AllFull-snoc blocks ys c.last_block zs a g),
      ),
      (refl, refl),
    )

none_left :
    (n : ℕ) (c : Simple8bRleCompressor) (rest : List ℕ) → rest ≡ [] → append_rounds n c rest ≡ c
unfolding append_rounds
none_left zero c rest e = refl
none_left (suc n) c rest e = ap (append_rounds (suc n) c) e

pub AllBelow-suffix : (b : ℕ) (xs ys : List ℕ) → AllBelow b (xs ++ ys) → AllBelow b ys
AllBelow-suffix b [] ys a = a
AllBelow-suffix b (x ∷ xs) ys a = AllBelow-suffix b xs ys a.1

-- Elements that are appended to full blocks are stored after them, and rounds as many as there are
-- elements are enough.
pub append_rounds_lem :
    (n : ℕ) (c : Simple8bRleCompressor) (xs ys : List ℕ)
    → Ready c xs
    → (c.last_block_set ≡ true) ⊎ (0 < length ys)
    → AllBelow 64 ys
    → length ys ≤ n
    → Done (append_rounds n c ys) (xs ++ ys) × Keeps c (append_rounds n c ys)
unfolding append_rounds
append_rounds_lem n c xs [] (inl (s, w)) (inl e) a l = absurd cc
append_rounds_lem n c xs [] r (inr e) a l = absurd (omega arith)
append_rounds_lem zero c xs [] (inr (s, (us, vs, d, w, f))) h a l =
    ((s, (us, vs, append-nil xs ∙ d, w, f.0)), (refl, refl))
append_rounds_lem (suc n) c xs [] (inr (s, (us, vs, d, w, f))) h a l =
    ((s, (us, vs, append-nil xs ∙ d, w, f.0)), (refl, refl))
append_rounds_lem zero c xs (y ∷ ys) r h a l = absurd (omega arith)
append_rounds_lem (suc n) c xs (y ∷ ys) r h a l =
    let block = (next_block y ys).0 in
    let rest = (next_block y ys).1 in
    let (zs, d, b, f) = next_block_lem y ys a in
    let next = push_block c block in
    let (s, e, w, k) = push_block_lem c block xs r in
    let whole : xs ++ (y ∷ ys) ≡ (xs ++ zs) ++ rest =
      ap (λ t. xs ++ t) d ∙ sym (append_assoc xs zs rest) in
    elim f [
      | inl m ↦
          subst (λ t. Done t (xs ++ (y ∷ ys)) × Keeps c t) (sym (none_left n next rest m))
            (
              (
                s,
                (
                  xs,
                  zs,
                  ap (λ t. xs ++ t) (d ∙ ap (λ t. zs ++ t) m ∙ append-nil zs),
                  w,
                  subst (λ t. IsBlock t zs) (sym e) b,
                ),
              ),
              k,
            )
      | inr g ↦
          let (q, k') =
            append_rounds_lem n next (xs ++ zs) rest
              (inr (s, (xs, zs, refl, w, subst (λ t. IsFull t zs) (sym e) g))) (inl s)
              (AllBelow-suffix 64 zs rest (subst (AllBelow 64) d a))
              (omega (arith, ap length d, length-append zs rest, IsBlock-some block zs g.0)) in
          (subst (Done (append_rounds n next rest)) (sym whole) q, (k'.0 ∙ k.0, k'.1 ∙ k.1))
    ]
