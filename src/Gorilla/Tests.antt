-- ===== src/Gorilla/Tests.antt =====
-- The compressor of tsl/src/compression/gorilla.c on concrete values.
use timescaledb.Base.{ℕ, ◌≡◌, refl, List, [], ◌∷◌, arith, Option, none, some}
use timescaledb.Gorilla.{CompressedGorillaData}
use timescaledb.Gorilla.Positions.{
  leftmost_from, leftmost_one_pos, leftmost_one_pos64, rightmost_from, rightmost_one_pos,
  rightmost_one_pos64,
}
use timescaledb.Gorilla.RoundTrip.{compress, ReadsBack, compress-ReadsBack}

leftmost_of_40 : leftmost_one_pos64 40 ≡ 5
unfolding leftmost_one_pos64 leftmost_from leftmost_one_pos
leftmost_of_40 = refl

rightmost_of_40 : rightmost_one_pos64 40 ≡ 3
unfolding rightmost_one_pos64 rightmost_from rightmost_one_pos
rightmost_of_40 = refl

abbrev equal_and_null : List (Option ℕ)
equal_and_null = some 3 ∷ some 3 ∷ none ∷ some 43 ∷ []

compress-ReadsBack_example :
    (o : Option CompressedGorillaData) × (compress equal_and_null ≡ some o)
    × ReadsBack o equal_and_null 5
compress-ReadsBack_example =
    compress-ReadsBack equal_and_null 5 (omega arith, (omega arith, (tt, (omega arith, tt))))
      (omega arith) (omega arith)
