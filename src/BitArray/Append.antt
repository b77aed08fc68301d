-- ===== src/BitArray/Append.antt =====
-- Appending to a bit array adds the new bits above the old ones.
use timescaledb.Base.{
  ◌⊎◌, inl, inr, ℕ, zero, suc, ◌+◌, ◌-◌, ◌*◌, ◌/◌, ◌%◌, ◌^◌, ◌≤◌, ◌<◌, ◌≡◌, refl, sym, ap, ◌∙◌,
  subst, List, [], ◌∷◌, ◌++◌, length, arith,
}
use timescaledb.Base.Bits.{
  bit_or, bit_or_above, pow_pos, pow_add, pow_split, mod_product, shl64, shl64_fits, shr,
}
use timescaledb.BitArray.{BitArray, init, or_last, append_bucket, append_masked, append}
use timescaledb.BitArray.Value.{value, word, num_bits, masked}
use native.Mathlib.Nat.{mod-eq_of_lt, mod-lt}

-- All buckets are words, and the last one has no bit from `used` on.
abbrev pub IsFilled : List ℕ → ℕ → Type 0
IsFilled [] used = used ≡ 0
IsFilled (b ∷ []) used = b < 2 ^ used
IsFilled (b ∷ c ∷ bs) used = (b < word) × IsFilled (c ∷ bs) used

abbrev pub IsValid : BitArray → Type 0
IsValid array =
    IsFilled array.buckets array.bits_used_in_last_bucket × (array.bits_used_in_last_bucket ≤ 64)

abbrev position : List ℕ → ℕ → ℕ
position bs used = 64 * (length bs - 1) + used

-- `k` bits of value `x` stand above those of `bs`.
abbrev Adds : List ℕ → ℕ → ℕ → ℕ → List ℕ → ℕ → Type 0
Adds bs used k x cs used' =
    IsFilled cs used'
    × (used' ≤ 64)
    × (0 < length cs)
    × (value cs ≡ value bs + x * 2 ^ position bs used)
    × (position cs used' ≡ position bs used + k)

sum_below : (x y u k : ℕ) → x < 2 ^ u → y < 2 ^ k → x + y * 2 ^ u < 2 ^ (u + k)
sum_below x y u k h l = grind (arith, pow_add u k)

lowest : (used : ℕ) → 64 * (1 - 1) + used ≡ used
lowest used = omega arith

IsFilled-cons :
    (b : ℕ) (cs : List ℕ) (used : ℕ)
    → b < word
    → 0 < length cs
    → IsFilled cs used
    → IsFilled (b ∷ cs) used
IsFilled-cons b [] used h n f = absurd (omega arith)
IsFilled-cons b (c ∷ cs) used h n f = (h, f)

Adds-cons :
    (b : ℕ) (bs : List ℕ) (used k x : ℕ) (cs : List ℕ) (used' : ℕ)
    → b < word
    → 0 < length bs
    → Adds bs used k x cs used'
    → Adds (b ∷ bs) used k x (b ∷ cs) used'
Adds-cons b bs used k x cs used' h n (f, u, m, v, p) = (
  IsFilled-cons b cs used' h m f,
  u,
  omega arith,
  omega (arith, v, ap (λ (t : ℕ). x * t) higher),
  omega arith,
)
  where
    higher : 2 ^ position (b ∷ bs) used ≡ 2 ^ position bs used * word
    higher = pow_split (position bs used) 64 (position (b ∷ bs) used) (omega arith)

or_last-Adds :
    (bs : List ℕ) (used k x : ℕ)
    → 0 < length bs
    → IsFilled bs used
    → x < 2 ^ k
    → used + k ≤ 64
    → Adds bs used k x (or_last (shl64 x used) bs) (used + k)
unfolding or_last
or_last-Adds [] used k x n h l m = absurd (omega arith)
or_last-Adds (b ∷ []) used k x n h l m =
    let e : bit_or b (shl64 x used) ≡ b + x * 2 ^ used =
      ap (bit_or b) (shl64_fits x used k l (omega arith)) ∙ bit_or_above used b x h in
    (
      subst (λ (t : ℕ). t < 2 ^ (used + k)) (sym e) (sum_below b x used k h l),
      m,
      omega arith,
      omega (arith, e, ap (λ (t : ℕ). x * 2 ^ t) (lowest used)),
      omega arith,
    )
or_last-Adds (b ∷ c ∷ bs) used k x n h l m =
    Adds-cons b (c ∷ bs) used k x (or_last (shl64 x used) (c ∷ bs)) (used + k) h.0 (omega arith)
      (or_last-Adds (c ∷ bs) used k x (omega arith) h.1 l m)

append_bucket-Adds :
    (bs : List ℕ) (k x : ℕ)
    → IsFilled bs 64
    → x < 2 ^ k
    → k ≤ 64
    → 0 < length bs
    → Adds bs 64 k x (bs ++ (x ∷ [])) k
append_bucket-Adds [] k x h l m n = absurd (omega arith)
append_bucket-Adds (b ∷ []) k x h l m n =
    ((h, l), m, omega arith, omega (arith, ap (λ (t : ℕ). x * 2 ^ t) (lowest 64)), omega arith)
append_bucket-Adds (b ∷ c ∷ bs) k x h l m n =
    Adds-cons b (c ∷ bs) 64 k x (c ∷ (bs ++ (x ∷ []))) k h.0 (omega arith)
      (append_bucket-Adds (c ∷ bs) k x h.1 l m (omega arith))

-- Both parts of a value that crosses the end of a bucket.
Adds-trans :
    (bs : List ℕ) (used j x : ℕ) (cs : List ℕ) (k y : ℕ) (ds : List ℕ) (used' : ℕ)
    → Adds bs used j x cs 64
    → Adds cs 64 k y ds used'
    → Adds bs used (j + k) (x + 2 ^ j * y) ds used'
Adds-trans bs used j x cs k y ds used' (f, u, m, v, p) (f', u', m', v', p') =
    (f', u', m', omega (arith, v, v', ap (λ (t : ℕ). y * t) split), omega arith)
  where
    split : 2 ^ position cs 64 ≡ 2 ^ position bs used * 2 ^ j
    split = pow_split (position bs used) j (position cs 64) (omega arith)

abbrev array_of : List ℕ → ℕ → BitArray
array_of bs used = record { buckets = bs; bits_used_in_last_bucket = used }

fits :
    (bs : List ℕ) (used k x : ℕ)
    → k ≤ 64 - used
    → append_masked (array_of bs used) k x ≡ array_of (or_last (shl64 x used) bs) (used + k)
unfolding append_masked append_bucket
fits bs used k x h = ground arith

crosses :
    (bs : List ℕ) (used k x : ℕ)
    → used < 64
    → 64 - used < k
    → k ≤ 64
    → append_masked (array_of bs used) k x
      ≡ array_of
          (or_last (shl64 (x % 2 ^ (64 - used)) used) bs
            ++ (x / 2 ^ (64 - used) % 2 ^ (k - (64 - used)) ∷ []))
          (k - (64 - used))
unfolding append_masked append_bucket
crosses bs used k x h l m = ground (
  arith,
  masked x (64 - used) (omega arith),
  masked (shr x (64 - used)) (k - (64 - used)) (omega arith),
)

opens :
    (bs : List ℕ) (k x : ℕ)
    → 0 < k
    → k ≤ 64
    → append_masked (array_of bs 64) k x ≡ array_of (bs ++ (x % 2 ^ k ∷ [])) k
unfolding append_masked append_bucket
opens bs k x h l = ground (arith, masked x k l)

abbrev AddsTo : List ℕ → ℕ → ℕ → ℕ → BitArray → Type 0
AddsTo bs used k x arr = Adds bs used k x arr.buckets arr.bits_used_in_last_bucket

crossing-Adds :
    (bs : List ℕ) (used r n x : ℕ)
    → 0 < length bs
    → IsFilled bs used
    → used + r ≡ 64
    → n ≤ 64
    → x < 2 ^ (r + n)
    → Adds bs used (r + n) x (or_last (shl64 (x % 2 ^ r) used) bs ++ (x / 2 ^ r % 2 ^ n ∷ [])) n
crossing-Adds bs used r n x m f e h l =
    let low = or_last (shl64 (x % 2 ^ r) used) bs in
    let first : Adds bs used r (x % 2 ^ r) low 64 =
      subst (λ (t : ℕ). Adds bs used r (x % 2 ^ r) low t) e
        (or_last-Adds bs used r (x % 2 ^ r) m f (mod-lt x (pow_pos r)) (omega arith)) in
    let second : Adds low 64 n (x / 2 ^ r % 2 ^ n) (low ++ (x / 2 ^ r % 2 ^ n ∷ [])) n =
      append_bucket-Adds low n (x / 2 ^ r % 2 ^ n) first.0 (mod-lt (x / 2 ^ r) (pow_pos n)) h
        first.2 in
    subst (λ (t : ℕ). Adds bs used (r + n) t (low ++ (x / 2 ^ r % 2 ^ n ∷ [])) n) (whole x r n l)
      (Adds-trans bs used r (x % 2 ^ r) low n (x / 2 ^ r % 2 ^ n) (low ++ (x / 2 ^ r % 2 ^ n ∷ []))
        n first second)
  where
    whole : (x r n : ℕ) → x < 2 ^ (r + n) → x % 2 ^ r + 2 ^ r * (x / 2 ^ r % 2 ^ n) ≡ x
    whole x r n l =
        sym (mod_product x (2 ^ r) (2 ^ n) (pow_pos r) (pow_pos n))
        ∙ ap (λ (t : ℕ). x % t) (sym (pow_add r n))
        ∙ mod-eq_of_lt l

pub append_masked-Adds :
    (bs : List ℕ) (used k x : ℕ)
    → 0 < length bs
    → IsFilled bs used
    → used ≤ 64
    → 0 < k
    → k ≤ 64
    → x < 2 ^ k
    → AddsTo bs used k x (append_masked (array_of bs used) k x)
append_masked-Adds bs used k x n f u p h l =
    let split : (k ≤ 64 - used) ⊎ (((used < 64) × (64 - used < k)) ⊎ (used ≡ 64)) = ground arith in
    elim split [
      | inl e ↦
          subst (AddsTo bs used k x) (sym (fits bs used k x e))
            (or_last-Adds bs used k x n f l (omega arith))
      | inr (inl (a, b)) ↦ subst (AddsTo bs used k x) (sym (crosses bs used k x a b h)) (
          subst
            (λ (t : ℕ).
              Adds bs used t x
                (or_last (shl64 (x % 2 ^ (64 - used)) used) bs
                  ++ (x / 2 ^ (64 - used) % 2 ^ (k - (64 - used)) ∷ []))
                (k - (64 - used)))
            (omega arith)
            (crossing-Adds bs used (64 - used) (k - (64 - used)) x n f (omega arith) (omega arith)
              (subst (λ (t : ℕ). x < 2 ^ t) (omega arith) l)))
      | inr (inr e) ↦
          subst (λ (t : ℕ). IsFilled bs t → AddsTo bs t k x (append_masked (array_of bs t) k x))
            (sym e)
            (λ full. subst (AddsTo bs 64 k x) (sym (opens bs k x p h)) (
              subst (λ (t : ℕ). AddsTo bs 64 k x (array_of (bs ++ (t ∷ [])) k))
                (sym (mod-eq_of_lt l)) (append_bucket-Adds bs k x full l h n)))
            f
    ]

-- The value of an array.
abbrev pub contents : BitArray → ℕ
contents array = value array.buckets

pub init-IsValid : IsValid init × (contents init ≡ 0) × (num_bits init ≡ 0)
unfolding init
init-IsValid = ((refl, omega arith), refl, refl)

abbrev Appended : ℕ → ℕ → BitArray → BitArray → Type 0
Appended k bits old new =
    IsValid new
    × (contents new ≡ contents old + bits % 2 ^ k * 2 ^ num_bits old)
    × (num_bits new ≡ num_bits old + k)

append-empty :
    (used k bits : ℕ)
    → suc k ≤ 64
    → append (array_of [] used) (suc k) bits
      ≡ append_masked (array_of (0 ∷ []) 0) (suc k) (bits % 2 ^ suc k)
unfolding append append_bucket
append-empty used k bits l = ground (arith, masked bits (suc k) l)

append-cons :
    (b : ℕ) (bs : List ℕ) (used k bits : ℕ)
    → suc k ≤ 64
    → append (array_of (b ∷ bs) used) (suc k) bits
      ≡ append_masked (array_of (b ∷ bs) used) (suc k) (bits % 2 ^ suc k)
unfolding append append_bucket
append-cons b bs used k bits l = ground (arith, masked bits (suc k) l)

append-Appended :
    (bs : List ℕ) (used k bits : ℕ)
    → IsValid (array_of bs used)
    → suc k ≤ 64
    → Appended (suc k) bits (array_of bs used) (append (array_of bs used) (suc k) bits)
append-Appended [] used k bits h l =
    subst (Appended (suc k) bits (array_of [] used)) (sym (append-empty used k bits l)) (
      let (f, u, m, v, q) =
        append_masked-Adds (0 ∷ []) 0 (suc k) (bits % 2 ^ suc k) (omega arith) (omega arith)
          (omega arith) (omega arith) l (mod-lt bits (pow_pos (suc k))) in
      (
        (f, u),
        omega (arith, v, ap (λ (t : ℕ). bits % 2 ^ suc k * 2 ^ t) (start used h.0)),
        omega (arith, h.0),
      ))
  where
    start : (used : ℕ) → used ≡ 0 → position (0 ∷ []) 0 ≡ position [] used
    start used e = omega arith
append-Appended (b ∷ bs) used k bits h l =
    subst (Appended (suc k) bits (array_of (b ∷ bs) used)) (sym (append-cons b bs used k bits l)) (
      let (f, u, m, v, q) =
        append_masked-Adds (b ∷ bs) used (suc k) (bits % 2 ^ suc k) (omega arith) h.0 h.1
          (omega arith) l (mod-lt bits (pow_pos (suc k))) in
      ((f, u), v, q))

-- Appending puts the low `k` bits of the argument above the bits of the array, which stays valid.
pub append_lem :
    (array : BitArray) (k bits : ℕ)
    → IsValid array
    → k ≤ 64
    → IsValid (append array k bits)
      × (contents (append array k bits) ≡ contents array + bits % 2 ^ k * 2 ^ num_bits array)
      × (num_bits (append array k bits) ≡ num_bits array + k)
unfolding append
append_lem array zero bits h l =
    (h, omega (arith, zero_bits bits (2 ^ num_bits array)), omega arith)
  where
    zero_bits : (x y : ℕ) → x % 1 * y ≡ 0
    zero_bits x y = grind arith
append_lem array (suc k) bits h l =
    append-Appended array.buckets array.bits_used_in_last_bucket k bits h l
