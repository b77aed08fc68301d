-- ===== src/BitArray/RoundTrip.antt =====
-- What was appended to a bit array is read back.
use timescaledb.Base.{
  ℕ, ◌+◌, ◌-◌, ◌*◌, ◌/◌, ◌%◌, ◌^◌, ◌≤◌, ◌<◌, ◌≡◌, refl, sym, ap, ap₂, ◌∙◌, subst, List, [], ◌∷◌,
  map, length, arith,
}
use timescaledb.Base.Bits.{pow_pos, pow_split, div_above, mod_above}
use timescaledb.BitArray.{BitArray, BitArrayIterator, init, iterator_init, iter_next, append}
use timescaledb.BitArray.Value.{value, num_bits}
use timescaledb.BitArray.Append.{IsFilled, IsValid, contents, append_lem, init-IsValid}
use timescaledb.BitArray.Read.{iter_next_lem, place, mod_div, mod_mod}
use native.Mathlib.Nat.{mod-eq_of_lt}

-- Values with their widths, appended in turn.
unfoldable pub append_all : BitArray → List (ℕ × ℕ) → BitArray
append_all array [] = array
append_all array ((k, x) ∷ xs) = append_all (append array k x) xs

-- Values of the given widths, read in turn.
unfoldable pub read_all : BitArrayIterator → List ℕ → List ℕ
read_all iter [] = []
read_all iter (k ∷ ks) = let next = iter_next iter k in next.0 ∷ read_all next.1 ks

abbrev pub Narrow : List (ℕ × ℕ) → Type 0
Narrow [] = Unit
Narrow ((k, x) ∷ xs) = (k ≤ 64) × Narrow xs

pub value_below :
    (bs : List ℕ) (used : ℕ) → IsFilled bs used → value bs < 2 ^ (64 * (length bs - 1) + used)
value_below [] used f = pow_pos (64 * (0 - 1) + used)
value_below (b ∷ []) used f = omega (arith, f, ap (λ (t : ℕ). 2 ^ t) (lowest used))
  where
    lowest : (used : ℕ) → 64 * (1 - 1) + used ≡ used
    lowest used = omega arith
value_below (b ∷ c ∷ bs) used f = omega (
  arith,
  f.0,
  value_below (c ∷ bs) used f.1,
  pow_split (64 * (length (c ∷ bs) - 1) + used) 64 (64 * (length (b ∷ c ∷ bs) - 1) + used)
      (omega arith),
)

-- The appended values leave the bits below them as they were.
pub append_all-prefix :
    (xs : List (ℕ × ℕ)) (array : BitArray)
    → IsValid array
    → Narrow xs
    → IsValid (append_all array xs)
      × (contents (append_all array xs) % 2 ^ num_bits array ≡ contents array)
      × (num_bits array ≤ num_bits (append_all array xs))
unfolding append_all
append_all-prefix [] array v n =
    (v, mod-eq_of_lt (value_below array.buckets array.bits_used_in_last_bucket v.0), omega arith)
append_all-prefix ((k, x) ∷ xs) array v n =
    let (v', c, p) = append_lem array k x v n.0 in
    let (w, d, q) = append_all-prefix xs (append array k x) v' n.1 in
    let final = contents (append_all (append array k x) xs) in
    let low : final % 2 ^ num_bits array ≡ contents array =
      sym (mod_mod final (num_bits array) k)
      ∙ ap (λ (t : ℕ). final % 2 ^ t % 2 ^ num_bits array) (sym p)
      ∙ ap (λ (t : ℕ). t % 2 ^ num_bits array) (d ∙ c)
      ∙ mod_above (contents array) (x % 2 ^ k) (2 ^ num_bits array)
          (value_below array.buckets array.bits_used_in_last_bucket v.0) in
    (w, low, omega arith)

-- An iterator at the end of `array`, where values were appended, returns the first of them.
pub read_first :
    (k x : ℕ) (xs : List (ℕ × ℕ)) (array : BitArray) (iter : BitArrayIterator)
    → IsValid array
    → Narrow ((k, x) ∷ xs)
    → iter.array ≡ append_all array ((k, x) ∷ xs)
    → place iter ≡ num_bits array
    → iter.bits_used_in_current_bucket ≤ 64
    → ((iter_next iter k).0 ≡ x % 2 ^ k)
      × ((iter_next iter k).1.array ≡ append_all (append array k x) xs)
      × (place (iter_next iter k).1 ≡ num_bits (append array k x))
      × ((iter_next iter k).1.bits_used_in_current_bucket ≤ 64)
      × IsValid (append array k x)
unfolding append_all
read_first k x xs array iter v n e p u =
    let (v', c, q) = append_lem array k x v n.0 in
    let (w, d, r) = append_all-prefix xs (append array k x) v' n.1 in
    let final = contents (append_all (append array k x) xs) in
    let (a, b, f, g) =
      iter_next_lem iter k (subst IsValid (sym e) w) u n.0
        (subst (λ t. place iter + k ≤ num_bits t) (sym e) (omega arith)) in
    let found : contents iter.array / 2 ^ place iter % 2 ^ k ≡ x % 2 ^ k =
      ap₂ (λ t (s : ℕ). contents t / 2 ^ s % 2 ^ k) e p
      ∙ sym (mod_div final (num_bits array) k)
      ∙ ap (λ (t : ℕ). final % 2 ^ t / 2 ^ num_bits array) (sym q)
      ∙ ap (λ (t : ℕ). t / 2 ^ num_bits array) (d ∙ c)
      ∙ div_above (contents array) (x % 2 ^ k) (2 ^ num_bits array)
          (value_below array.buckets array.bits_used_in_last_bucket v.0) in
    (a ∙ found, b ∙ e, omega (arith, f, p, q), g, v')

read-append :
    (xs : List (ℕ × ℕ)) (array : BitArray) (iter : BitArrayIterator)
    → IsValid array
    → Narrow xs
    → iter.array ≡ append_all array xs
    → place iter ≡ num_bits array
    → iter.bits_used_in_current_bucket ≤ 64
    → read_all iter (map (λ (k, x). k) xs) ≡ map (λ (k, x). x % 2 ^ k) xs
unfolding read_all
read-append [] array iter v n e p u = refl
read-append ((k, x) ∷ xs) array iter v n e p u =
    let (a, b, f, g, w) = read_first k x xs array iter v n e p u in
    ap₂ (◌∷◌) a (read-append xs (append array k x) (iter_next iter k).1 w n.1 b f g)

-- Values of up to 64 bits that are appended one after the other to the empty array are read back,
-- each in its width, by an iterator from the start.
pub read_all-append_all :
    (xs : List (ℕ × ℕ))
    → Narrow xs
    → read_all (iterator_init (append_all init xs)) (map (λ (k, x). k) xs)
      ≡ map (λ (k, x). x % 2 ^ k) xs
unfolding iterator_init
read_all-append_all xs n =
    let (v, c, p) = init-IsValid in
    read-append xs init (iterator_init (append_all init xs)) v n refl (omega (arith, p))
      (omega arith)
