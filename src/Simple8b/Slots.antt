-- ===== src/Simple8b/Slots.antt =====
-- The slots of a compressed column of tsl/src/compression/simple8b_rle.h: the selectors, then the words.
use timescaledb.Base.{
  if◌then◌else◌, ltb, ◌==◌, ℕ, suc, ◌+◌, ◌-◌, ◌*◌, ◌/◌, ◌%◌, ◌^◌, ◌≤◌, ◌<◌, ◌≡◌, refl, sym, ap, ap₂,
  ◌∙◌, subst, List, [], ◌∷◌, ◌++◌, map, length, take, drop, arith,
}
use timescaledb.BitArray.{BitArray, init, append, append_masked, append_bucket, wrap}
use timescaledb.BitArray.Value.{num_bits}
use timescaledb.BitArray.Append.{IsValid, IsFilled, append_lem, init-IsValid}
use timescaledb.BitArray.RoundTrip.{append_all}
use timescaledb.Simple8b.{Simple8bRleBlock}
use timescaledb.Simple8b.Block.{IsBlock}
use timescaledb.Simple8b.Compressor.{Simple8bRleSerialized}
use timescaledb.Simple8b.Store.{AllFull, word_of, selector_bits, append_all-snoc, map-snoc}
use timescaledb.Simple8b.Iterator.{num_selector_slots}

append-used_pos :
    (array : BitArray) (k x : ℕ)
    → array.bits_used_in_last_bucket ≤ 64
    → 0 < k
    → k ≤ 64
    → 0 < (append array k x).bits_used_in_last_bucket
unfolding append append_masked append_bucket
append-used_pos array k x h l m = ground arith

pub selectors-num_bits :
    (blocks : List Simple8bRleBlock) (array : BitArray)
    → IsValid array
    → IsValid (append_all array (map selector_bits blocks))
      × (num_bits (append_all array (map selector_bits blocks))
          ≡ num_bits array + 4 * length blocks)
unfolding append_all
selectors-num_bits [] array v = (v, omega arith)
selectors-num_bits (b ∷ bs) array v =
    let (v', c, p) = append_lem array 4 b.selector v (omega arith) in
    let (w, q) = selectors-num_bits bs (append array 4 b.selector) v' in (w, omega (arith, p, q))

-- The selectors of some blocks and one more.
abbrev pub selectors_of : List Simple8bRleBlock → Simple8bRleBlock → BitArray
selectors_of blocks last = append_all init (map selector_bits (blocks ++ (last ∷ [])))

take-prefix : (xs ys : List ℕ) → take (length xs) (xs ++ ys) ≡ xs
take-prefix [] ys = refl
take-prefix (x ∷ xs) ys = ap (λ t. x ∷ t) (take-prefix xs ys)

drop-prefix : (xs ys : List ℕ) → drop (length xs) (xs ++ ys) ≡ ys
drop-prefix [] ys = refl
drop-prefix (x ∷ xs) ys = drop-prefix xs ys

filled_some : (bs : List ℕ) (used : ℕ) → IsFilled bs used → 0 < used → 0 < length bs
filled_some [] used f h = absurd (omega arith)
filled_some (b ∷ bs) used f h = omega arith

wrap_lem :
    (bs ws : List ℕ) (used n : ℕ)
    → 0 < length bs
    → 0 < used
    → used ≤ 64
    → 64 * (length bs - 1) + used ≡ n
    → wrap (bs ++ ws) n ≡ record { buckets = bs; bits_used_in_last_bucket = used }
unfolding wrap
wrap_lem bs ws used n h l m e =
    let count : (if n % 64 == 0 then n / 64 else n / 64 + 1) ≡ length bs = ground arith in
    let last : (if n % 64 == 0 then (if ltb 0 (n / 64) then 64 else n % 64) else n % 64) ≡ used =
      ground arith in
    ap₂ (λ (xs : List ℕ) (k : ℕ). record { buckets = xs; bits_used_in_last_bucket = k })
      (ap (λ (k : ℕ). take k (bs ++ ws)) count ∙ take-prefix bs ws) last

-- The array over the slots is that of the selectors, and the words are what stands after it.
pub selectors_in_slots :
    (blocks : List Simple8bRleBlock) (last : Simple8bRleBlock) (ws : List ℕ) (n : ℕ)
    → n ≡ suc (length blocks)
    → n < 2 ^ 30
    → let array = selectors_of blocks last in
      (wrap (array.buckets ++ ws) (n * 4 % 2 ^ 32) ≡ array)
      × (drop (num_selector_slots n) (array.buckets ++ ws) ≡ ws)
unfolding num_selector_slots
selectors_in_slots blocks last ws n e l =
    let before = append_all init (map selector_bits blocks) in
    let array = selectors_of blocks last in
    let (v, q) = selectors-num_bits blocks init init-IsValid.0 in
    let (w, c, p) = append_lem before 4 last.selector v (omega arith) in
    let snoc : append before 4 last.selector ≡ array =
      append_all-snoc (map selector_bits blocks) init 4 last.selector
      ∙ ap (append_all init) (map-snoc selector_bits blocks last) in
    let valid : IsValid array = subst IsValid snoc w in
    let bits : num_bits array ≡ 4 * n =
      ap num_bits (sym snoc) ∙ omega (arith, p, q, init-IsValid.2) in
    let used : 0 < array.bits_used_in_last_bucket =
      subst (λ (t : BitArray). 0 < t.bits_used_in_last_bucket) snoc
        (append-used_pos before 4 last.selector v.1 (omega arith) (omega arith)) in
    let buckets = filled_some array.buckets array.bits_used_in_last_bucket valid.0 used in
    let slots : num_selector_slots n ≡ length array.buckets = ground (arith, valid.1) in
    (
      wrap_lem array.buckets ws array.bits_used_in_last_bucket (n * 4 % 2 ^ 32) buckets used valid.1
          (omega arith),
      ap (λ k. drop k (array.buckets ++ ws)) slots ∙ drop-prefix array.buckets ws,
    )

-- The slots are the selectors and the words of full blocks and of the last one.
abbrev pub IsSerialized : Simple8bRleSerialized → List ℕ → Type 0
IsSerialized s xs =
    (blocks : List Simple8bRleBlock) × (last : Simple8bRleBlock) × (ys : List ℕ) × (zs : List ℕ)
    × (xs ≡ ys ++ zs)
    × AllFull blocks ys
    × IsBlock last zs
    × (s.num_elements ≡ length xs)
    × (s.num_blocks ≡ suc (length blocks))
    × (s.slots ≡ (selectors_of blocks last).buckets ++ map word_of (blocks ++ (last ∷ [])))
