-- ===== src/Simple8b/Block.antt =====
-- What the blocks of tsl/src/compression/simple8b_rle.h hold: packed values, or a run of one value.
use timescaledb.Base.{
  ◌⊎◌, inl, inr, ℕ, zero, suc, ◌+◌, ◌-◌, ◌*◌, ◌/◌, ◌%◌, ◌^◌, ◌≤◌, ◌<◌, ◌≡◌, refl, sym, ap, ap₂, ◌∙◌,
  some, List, [], ◌∷◌, ◌++◌, length, get_elem?, replicate, length-append, length-replicate, arith,
}
use timescaledb.Base.Bits.{
  bit_or, bit_or_comm, shl64, shr, shl64_fits, bit_or_above, pow_pos, pow_add, div_above, mod_above,
  bit_and_ones,
}
use timescaledb.Simple8b.{
  Simple8bRleBlock, num_elements, bit_length, selector_is_rle, rledata_repeatcount, rledata_value,
  block_create, block_create_rle, block_get_element, block_append_element,
}
use timescaledb.Simple8b.Width.{word_fits, mask_value}
use native.Mathlib.Nat.{div-div-eq-div-mul}

-- Values of `b` bits, the first one lowest.
abbrev pub value_of : ℕ → List ℕ → ℕ
value_of b [] = 0
value_of b (y ∷ ys) = y + value_of b ys * 2 ^ b

abbrev pub AllBelow : ℕ → List ℕ → Type 0
AllBelow b [] = Unit
AllBelow b (y ∷ ys) = (y < 2 ^ b) × AllBelow b ys

pub AllBelow-append :
    (b : ℕ) (xs ys : List ℕ) → AllBelow b xs → AllBelow b ys → AllBelow b (xs ++ ys)
AllBelow-append b [] ys h l = l
AllBelow-append b (x ∷ xs) ys h l = (h.0, AllBelow-append b xs ys h.1 l)

next_power : (b n : ℕ) → 2 ^ (b * suc n) ≡ 2 ^ (b * n) * 2 ^ b
next_power b n = ap (λ (t : ℕ). 2 ^ t) (omega arith) ∙ pow_add (b * n) b

pub value_of-below : (b : ℕ) (ys : List ℕ) → AllBelow b ys → value_of b ys < 2 ^ (b * length ys)
value_of-below b [] h = pow_pos (b * 0)
value_of-below b (y ∷ ys) h =
    grind (arith, value_of-below b ys h.1, next_power b (length ys), h.0, pow_pos b)

pub value_of-snoc :
    (b : ℕ) (ys : List ℕ) (v : ℕ)
    → value_of b (ys ++ (v ∷ [])) ≡ value_of b ys + v * 2 ^ (b * length ys)
value_of-snoc b [] v = omega (arith, ap (λ (t : ℕ). v * 2 ^ t) {x = b * 0} {y = 0} (omega arith))
value_of-snoc b (y ∷ ys) v = omega (
  arith,
  ap (λ (t : ℕ). t * 2 ^ b) (value_of-snoc b ys v),
  ap (λ (t : ℕ). v * t) (next_power b (length ys)),
)

-- A value is a digit of the number.
value_of-get :
    (b : ℕ) (ys : List ℕ) (i : ℕ)
    → AllBelow b ys
    → i < length ys
    → get_elem? ys i ≡ some (value_of b ys / 2 ^ (b * i) % 2 ^ b)
value_of-get b [] i h l = absurd (omega arith)
value_of-get b (y ∷ ys) zero h l = ap some (
    sym (mod_above y (value_of b ys) (2 ^ b) h.0)
    ∙ ap (λ (t : ℕ). t % 2 ^ b)
        (omega (
          arith,
          ap (λ (t : ℕ). (y + value_of b ys * 2 ^ b) / 2 ^ t) {x = b * 0} {y = 0} (omega arith),
        )))
value_of-get b (y ∷ ys) (suc i) h l =
    value_of-get b ys i h.1 (omega arith) ∙ ap (λ (t : ℕ). some (t % 2 ^ b)) shifted
  where
    shifted : value_of b ys / 2 ^ (b * i) ≡ (y + value_of b ys * 2 ^ b) / 2 ^ (b * suc i)
    shifted =
        ap (λ (t : ℕ). t / 2 ^ (b * i)) (sym (div_above y (value_of b ys) (2 ^ b) h.0))
        ∙ div-div-eq-div-mul (y + value_of b ys * 2 ^ b) (2 ^ b) (2 ^ (b * i))
        ∙ ap (λ (t : ℕ). (y + value_of b ys * 2 ^ b) / t)
            (sym (pow_add b (b * i)) ∙ ap (λ (t : ℕ). 2 ^ t) (omega arith))

pub get_elem?-replicate : (n v i : ℕ) → i < n → get_elem? (replicate n v) i ≡ some v
get_elem?-replicate zero v i h = absurd (omega arith)
get_elem?-replicate (suc n) v zero h = refl
get_elem?-replicate (suc n) v (suc i) h = get_elem?-replicate n v i (omega arith)

-- A packed block holds `ys`.
abbrev pub IsPacked : Simple8bRleBlock → List ℕ → Type 0
IsPacked block ys =
    (1 ≤ block.selector)
    × (block.selector ≤ 14)
    × (block.num_elements_compressed ≡ length ys)
    × (length ys ≤ num_elements block.selector)
    × (block.payload ≡ value_of (bit_length block.selector) ys)
    × AllBelow (bit_length block.selector) ys

-- A block that holds a run of `count` times `val`.
abbrev pub IsRunOf : Simple8bRleBlock → ℕ → ℕ → Type 0
IsRunOf block count val =
    (block.selector ≡ 15)
    × (1 ≤ count)
    × (count ≤ 2 ^ 28 - 1)
    × (val < 2 ^ 36)
    × (block.payload ≡ val + count * 2 ^ 36)

abbrev pub IsRun : Simple8bRleBlock → List ℕ → Type 0
IsRun block ys = (count : ℕ) × (val : ℕ) × IsRunOf block count val × (ys ≡ replicate count val)

-- A block that was closed, or the last one, and the values it holds.
abbrev pub IsBlock : Simple8bRleBlock → List ℕ → Type 0
IsBlock block ys = ((0 < length ys) × IsPacked block ys) ⊎ IsRun block ys

-- How many values a reader takes from a block.
abbrev pub capacity : Simple8bRleBlock → ℕ
capacity block = (block_create block.selector block.payload).num_elements_compressed

abbrev pub IsFull : Simple8bRleBlock → List ℕ → Type 0
IsFull block ys = IsBlock block ys × (length ys ≡ capacity block)

pub IsRunOf-repeatcount :
    (block : Simple8bRleBlock) (count val : ℕ)
    → IsRunOf block count val
    → rledata_repeatcount block.payload ≡ count
unfolding rledata_repeatcount
IsRunOf-repeatcount block count val (s, n, m, v, p) =
    ap (λ (t : ℕ). t % 2 ^ 32)
      (bit_and_ones 28 (shr block.payload 36)
        ∙ ap (λ (t : ℕ). t / 2 ^ 36 % 2 ^ 28) p
        ∙ ap (λ (t : ℕ). t % 2 ^ 28) (div_above val count (2 ^ 36) v))
    ∙ omega arith

pub IsRunOf-value :
    (block : Simple8bRleBlock) (count val : ℕ)
    → IsRunOf block count val
    → rledata_value block.payload ≡ val
unfolding rledata_value
IsRunOf-value block count val (s, n, m, v, p) =
    bit_and_ones 36 block.payload ∙ ap (λ (t : ℕ). t % 2 ^ 36) p ∙ mod_above val count (2 ^ 36) v

pub IsRun-IsFull : (block : Simple8bRleBlock) (ys : List ℕ) → IsRun block ys → IsFull block ys
unfolding block_create selector_is_rle
IsRun-IsFull block ys (count, val, r, e) = (
  inr (count, val, r, e),
  ap length e
      ∙ length-replicate count val
      ∙ sym (IsRunOf-repeatcount block count val r)
      ∙ ground (arith, r.0),
)

pub capacity-packed :
    (block : Simple8bRleBlock) (ys : List ℕ)
    → IsPacked block ys
    → capacity block ≡ num_elements block.selector
unfolding block_create selector_is_rle
capacity-packed block ys p = ground arith

pub packed_get :
    (block : Simple8bRleBlock) (ys : List ℕ) (i : ℕ)
    → IsPacked block ys
    → i < length ys
    → block_get_element block i ≡ get_elem? ys i
unfolding block_get_element selector_is_rle
packed_get block ys i (p, q, n, m, d, a) l =
    let b = bit_length block.selector in
    ground (arith, mask_value (shr block.payload (b * i)) block.selector q)
    ∙ ap (λ (t : ℕ). some (t / 2 ^ (b * i) % 2 ^ b)) d
    ∙ sym (value_of-get b ys i a l)

run_get :
    (block : Simple8bRleBlock) (ys : List ℕ) (i : ℕ)
    → IsRun block ys
    → i < length ys
    → block_get_element block i ≡ get_elem? ys i
unfolding block_get_element selector_is_rle
run_get block ys i (count, val, r, e) l =
    ground (arith, r.0, IsRunOf-value block count val r)
    ∙ sym (get_elem?-replicate count val i (omega (arith, length-replicate count val, ap length e)))
    ∙ ap (λ t. get_elem? t i) (sym e)

-- A reader finds the values of a block at their places.
pub block_get :
    (block : Simple8bRleBlock) (ys : List ℕ) (i : ℕ)
    → IsBlock block ys
    → i < length ys
    → block_get_element block i ≡ get_elem? ys i
block_get block ys i (inl p) l = packed_get block ys i p.1 l
block_get block ys i (inr r) l = run_get block ys i r l

pub IsBlock-some : (block : Simple8bRleBlock) (ys : List ℕ) → IsBlock block ys → 0 < length ys
IsBlock-some block ys (inl p) = p.0
IsBlock-some block ys (inr (count, val, r, e)) =
    omega (arith, r.1, length-replicate count val, ap length e)

pub IsBlock-fits :
    (block : Simple8bRleBlock) (ys : List ℕ) → IsBlock block ys → length ys ≤ capacity block
IsBlock-fits block ys (inl p) = omega (arith, capacity-packed block ys p.1, p.1)
IsBlock-fits block ys (inr r) = omega (arith, (IsRun-IsFull block ys r).1)

pub IsBlock-selector :
    (block : Simple8bRleBlock) (ys : List ℕ)
    → IsBlock block ys
    → (1 ≤ block.selector) × (block.selector < 16)
IsBlock-selector block ys (inl p) = (p.1.0, omega (arith, p.1.1))
IsBlock-selector block ys (inr (count, val, r, e)) = (omega (arith, r.0), omega (arith, r.0))

-- The word of a run.
pub rle_payload :
    (count val : ℕ)
    → count ≤ 2 ^ 28 - 1
    → val < 2 ^ 36
    → bit_or (shl64 count 36) val ≡ val + count * 2 ^ 36
rle_payload count val l v =
    ap (λ t. bit_or t val) (shl64_fits count 36 28 (omega arith) (omega arith))
    ∙ bit_or_comm (count * 2 ^ 36) val
    ∙ bit_or_above 36 val count v

pub create_rle-IsRunOf :
    (count val : ℕ)
    → 1 ≤ count
    → count ≤ 2 ^ 28 - 1
    → val < 2 ^ 36
    → IsRunOf (block_create_rle count val) count val
unfolding block_create_rle
create_rle-IsRunOf count val h l v = (refl, h, l, v, rle_payload count val l v)

-- Appending a value that is narrow enough to a block with room.
pub append_element-IsPacked :
    (block : Simple8bRleBlock) (ys : List ℕ) (v : ℕ)
    → IsPacked block ys
    → length ys < num_elements block.selector
    → v < 2 ^ bit_length block.selector
    → IsPacked (block_append_element block v) (ys ++ (v ∷ []))
unfolding block_append_element
append_element-IsPacked block ys v (p, q, n, m, d, a) l w = (
  p,
  q,
  omega (arith, length-append ys (v ∷ [])),
  omega (arith, length-append ys (v ∷ [])),
  payload,
  AllBelow-append b ys (v ∷ []) a (w, tt),
)
  where
    b : ℕ
    b = bit_length block.selector

    room : b * length ys + b ≤ 64
    room = grind (arith, word_fits block.selector p q)

    payload :
        bit_or block.payload (shl64 v (b * block.num_elements_compressed))
        ≡ value_of b (ys ++ (v ∷ []))
    payload =
        ap₂ (λ (x k : ℕ). bit_or x (shl64 v (b * k))) d n
        ∙ ap (bit_or (value_of b ys)) (shl64_fits v (b * length ys) b w (omega (arith, room)))
        ∙ bit_or_above (b * length ys) (value_of b ys) v (value_of-below b ys a)
        ∙ sym (value_of-snoc b ys v)

pub empty-IsPacked :
    (s : ℕ)
    → 1 ≤ s
    → s ≤ 14
    → IsPacked (record { payload = 0; num_elements_compressed = 0; selector = s }) []
empty-IsPacked s h l = (h, l, refl, omega arith, refl, tt)
