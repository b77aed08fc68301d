-- ===== src/DeltaDelta/ZigZag.antt =====
-- The zig-zag code is undone by its decoding.
use timescaledb.Base.{ℕ, ◌+◌, ◌-◌, ◌*◌, ◌/◌, ◌^◌, ◌≤◌, ◌<◌, ◌≡◌, ◌⊎◌, inl, inr, ap, ◌∙◌, arith}
use timescaledb.Base.Bits.{bit_xor, bit_xor-zero, bit_xor_ones, shl64}
use timescaledb.DeltaDelta.{zig_zag_encode, zig_zag_decode}

encode_small : (v : ℕ) → v < 2 ^ 63 → zig_zag_encode v ≡ 2 * v
unfolding zig_zag_encode
encode_small v h = ground (arith, bit_xor-zero (shl64 v 1))

encode_large : (v : ℕ) → 2 ^ 63 ≤ v → v < 2 ^ 64 → zig_zag_encode v ≡ 2 ^ 64 - 1 - (2 * v - 2 ^ 64)
unfolding zig_zag_encode
encode_large v h k = ground (arith, bit_xor_ones 64 (shl64 v 1) (omega arith))

decode_even : (v : ℕ) → zig_zag_decode (2 * v) ≡ v
unfolding zig_zag_decode
decode_even v =
    ap (bit_xor (2 * v / 2 ^ 1)) (omega arith) ∙ bit_xor-zero (2 * v / 2 ^ 1) ∙ omega arith

decode_odd : (w : ℕ) → w < 2 ^ 63 → zig_zag_decode (2 * w + 1) ≡ 2 ^ 64 - 1 - w
unfolding zig_zag_decode
decode_odd w h =
    ap (bit_xor ((2 * w + 1) / 2 ^ 1)) {y = 2 ^ 64 - 1} (omega arith)
    ∙ bit_xor_ones 64 ((2 * w + 1) / 2 ^ 1) (omega arith)
    ∙ omega arith

-- Every word comes back from its zig-zag code.
pub zig_zag_decode-zig_zag_encode : (v : ℕ) → v < 2 ^ 64 → zig_zag_decode (zig_zag_encode v) ≡ v
zig_zag_decode-zig_zag_encode v h =
    let split : (v < 2 ^ 63) ⊎ (2 ^ 63 ≤ v) = ground arith in
    elim split [
      | inl l ↦ ap zig_zag_decode (encode_small v l) ∙ decode_even v
      | inr g ↦
          ap zig_zag_decode (
            encode_large v g h
            ∙ (let e : 2 ^ 64 - 1 - (2 * v - 2 ^ 64) ≡ 2 * (2 ^ 64 - 1 - v) + 1 = omega arith in e))
          ∙ decode_odd (2 ^ 64 - 1 - v) (omega arith)
          ∙ omega arith
    ]

pub zig_zag_encode-word : (v : ℕ) → v < 2 ^ 64 → zig_zag_encode v < 2 ^ 64
zig_zag_encode-word v h =
    let split : (v < 2 ^ 63) ⊎ (2 ^ 63 ≤ v) = ground arith in
    elim split [
      | inl l ↦ omega (arith, encode_small v l)
      | inr g ↦ omega (arith, encode_large v g h)
    ]
