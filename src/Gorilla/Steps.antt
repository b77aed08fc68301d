-- ===== src/Gorilla/Steps.antt =====
-- The values of tsl/src/compression/gorilla.c as steps from the value before, and the streams that the
-- steps are stored in.
use timescaledb.Base.{
  ℕ, ◌^◌, ◌≤◌, ◌<◌, ◌≡◌, refl, ◌++◌, Bool, ◌||◌, true, false, Option, none, some, List, [], ◌∷◌,
  length, arith,
}
use timescaledb.BitArray.RoundTrip.{Narrow}
use timescaledb.Gorilla.Zeros.{undo}

-- A null, the same value again, a xor of the sizes in effect, or one with its own sizes.
pub data Step : Type 0 where
  null : Step
  same : Step
  reuse : ℕ → Step
  fresh : ℕ → ℕ → ℕ → Step

pub record State : Type 0 where
  pub value : ℕ
  pub leading : ℕ
  pub bits : ℕ

abbrev pub start : State
start = record { value = 0; leading = 0; bits = 0 }

abbrev pub step : State → Step → State
step s null = s
step s same = s
step s (reuse w) = record s { value = undo s.value s.leading s.bits w }
step s (fresh l n w) = record { value = undo s.value l n w; leading = l; bits = n }

abbrev pub shown : State → Step → Option ℕ
shown s null = none
shown s same = some s.value
shown s (reuse w) = some (undo s.value s.leading s.bits w)
shown s (fresh l n w) = some (undo s.value l n w)

abbrev pub decode : State → List Step → List (Option ℕ)
decode s [] = []
decode s (x ∷ xs) = shown s x ∷ decode (step s x) xs

abbrev pub flags : List Step → List ℕ
flags [] = []
flags (null ∷ xs) = 1 ∷ flags xs
flags (same ∷ xs) = 0 ∷ flags xs
flags (reuse w ∷ xs) = 0 ∷ flags xs
flags (fresh l n w ∷ xs) = 0 ∷ flags xs

abbrev pub any_null : List Step → Bool
any_null [] = false
any_null (null ∷ xs) = true
any_null (same ∷ xs) = any_null xs
any_null (reuse w ∷ xs) = any_null xs
any_null (fresh l n w ∷ xs) = any_null xs

abbrev pub tags : List Step → List ℕ
tags [] = []
tags (null ∷ xs) = tags xs
tags (same ∷ xs) = 0 ∷ tags xs
tags (reuse w ∷ xs) = 1 ∷ tags xs
tags (fresh l n w ∷ xs) = 1 ∷ tags xs

abbrev pub size_tags : List Step → List ℕ
size_tags [] = []
size_tags (null ∷ xs) = size_tags xs
size_tags (same ∷ xs) = size_tags xs
size_tags (reuse w ∷ xs) = 0 ∷ size_tags xs
size_tags (fresh l n w ∷ xs) = 1 ∷ size_tags xs

abbrev pub leads : List Step → List (ℕ × ℕ)
leads [] = []
leads (null ∷ xs) = leads xs
leads (same ∷ xs) = leads xs
leads (reuse w ∷ xs) = leads xs
leads (fresh l n w ∷ xs) = (6, l) ∷ leads xs

abbrev pub sizes : List Step → List ℕ
sizes [] = []
sizes (null ∷ xs) = sizes xs
sizes (same ∷ xs) = sizes xs
sizes (reuse w ∷ xs) = sizes xs
sizes (fresh l n w ∷ xs) = n ∷ sizes xs

abbrev pub words : State → List Step → List (ℕ × ℕ)
words s [] = []
words s (null ∷ xs) = words s xs
words s (same ∷ xs) = words s xs
words s (reuse w ∷ xs) = (s.bits, w) ∷ words (step s (reuse w)) xs
words s (fresh l n w ∷ xs) = (n, w) ∷ words (step s (fresh l n w)) xs

abbrev pub Fits : State → Step → Type 0
Fits s null = Unit
Fits s same = Unit
Fits s (reuse w) = (s.bits ≤ 64) × (w < 2 ^ s.bits)
Fits s (fresh l n w) = (l < 64) × (n ≤ 64) × (w < 2 ^ n)

abbrev pub AllFit : State → List Step → Type 0
AllFit s [] = Unit
AllFit s (x ∷ xs) = Fits s x × AllFit (step s x) xs

-- The widths of what is stored in bit arrays.
pub leads-Narrow : (xs : List Step) → Narrow (leads xs)
leads-Narrow [] = tt
leads-Narrow (null ∷ xs) = leads-Narrow xs
leads-Narrow (same ∷ xs) = leads-Narrow xs
leads-Narrow (reuse w ∷ xs) = leads-Narrow xs
leads-Narrow (fresh l n w ∷ xs) = (omega arith, leads-Narrow xs)

pub words-Narrow : (s : State) (xs : List Step) → AllFit s xs → Narrow (words s xs)
words-Narrow s [] a = tt
words-Narrow s (null ∷ xs) a = words-Narrow s xs a.1
words-Narrow s (same ∷ xs) a = words-Narrow s xs a.1
words-Narrow s (reuse w ∷ xs) a = (a.0.0, words-Narrow (step s (reuse w)) xs a.1)
words-Narrow s (fresh l n w ∷ xs) a = (a.0.1, words-Narrow (step s (fresh l n w)) xs a.1)

-- No stream is longer than the steps.
abbrev pub Bounded : State → List Step → Type 0
Bounded s xs =
    (length (flags xs) ≡ length xs)
    × (length (tags xs) ≤ length xs)
    × (length (size_tags xs) ≤ length xs)
    × (length (sizes xs) ≤ length xs)
    × (length (leads xs) ≤ length xs)
    × (length (words s xs) ≤ length xs)

pub lengths : (s : State) (xs : List Step) → Bounded s xs
lengths s [] = (refl, omega arith, omega arith, omega arith, omega arith, omega arith)
lengths s (null ∷ xs) =
    let (f, t, u, z, l, w) = lengths s xs in
    (
      omega (arith, f),
      omega (arith, t),
      omega (arith, u),
      omega (arith, z),
      omega (arith, l),
      omega (arith, w),
    )
lengths s (same ∷ xs) =
    let (f, t, u, z, l, w) = lengths s xs in
    (
      omega (arith, f),
      omega (arith, t),
      omega (arith, u),
      omega (arith, z),
      omega (arith, l),
      omega (arith, w),
    )
lengths s (reuse w ∷ xs) =
    let (f, t, u, z, l, v) = lengths (step s (reuse w)) xs in
    (
      omega (arith, f),
      omega (arith, t),
      omega (arith, u),
      omega (arith, z),
      omega (arith, l),
      omega (arith, v),
    )
lengths s (fresh l n w ∷ xs) =
    let (f, t, u, z, k, v) = lengths (step s (fresh l n w)) xs in
    (
      omega (arith, f),
      omega (arith, t),
      omega (arith, u),
      omega (arith, z),
      omega (arith, k),
      omega (arith, v),
    )

pub sizes_tagged : (xs : List Step) → length (sizes xs) ≤ length (size_tags xs)
sizes_tagged [] = omega arith
sizes_tagged (null ∷ xs) = sizes_tagged xs
sizes_tagged (same ∷ xs) = sizes_tagged xs
sizes_tagged (reuse w ∷ xs) = omega (arith, sizes_tagged xs)
sizes_tagged (fresh l n w ∷ xs) = omega (arith, sizes_tagged xs)

-- The streams of the first step come before those of the others.
pub flags-cons : (x : Step) (xs : List Step) → flags (x ∷ xs) ≡ flags (x ∷ []) ++ flags xs
flags-cons null xs = refl
flags-cons same xs = refl
flags-cons (reuse w) xs = refl
flags-cons (fresh l n w) xs = refl

pub tags-cons : (x : Step) (xs : List Step) → tags (x ∷ xs) ≡ tags (x ∷ []) ++ tags xs
tags-cons null xs = refl
tags-cons same xs = refl
tags-cons (reuse w) xs = refl
tags-cons (fresh l n w) xs = refl

pub size_tags-cons :
    (x : Step) (xs : List Step) → size_tags (x ∷ xs) ≡ size_tags (x ∷ []) ++ size_tags xs
size_tags-cons null xs = refl
size_tags-cons same xs = refl
size_tags-cons (reuse w) xs = refl
size_tags-cons (fresh l n w) xs = refl

pub sizes-cons : (x : Step) (xs : List Step) → sizes (x ∷ xs) ≡ sizes (x ∷ []) ++ sizes xs
sizes-cons null xs = refl
sizes-cons same xs = refl
sizes-cons (reuse w) xs = refl
sizes-cons (fresh l n w) xs = refl

pub leads-cons : (x : Step) (xs : List Step) → leads (x ∷ xs) ≡ leads (x ∷ []) ++ leads xs
leads-cons null xs = refl
leads-cons same xs = refl
leads-cons (reuse w) xs = refl
leads-cons (fresh l n w) xs = refl

pub words-cons :
    (s : State) (x : Step) (xs : List Step)
    → words s (x ∷ xs) ≡ words s (x ∷ []) ++ words (step s x) xs
words-cons s null xs = refl
words-cons s same xs = refl
words-cons s (reuse w) xs = refl
words-cons s (fresh l n w) xs = refl

pub any_null-cons :
    (x : Step) (xs : List Step) → any_null (x ∷ xs) ≡ (any_null (x ∷ []) || any_null xs)
any_null-cons null xs = refl
any_null-cons same xs = refl
any_null-cons (reuse w) xs = refl
any_null-cons (fresh l n w) xs = refl
