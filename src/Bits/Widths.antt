-- ===== src/Bits/Widths.antt =====
-- The width that holds every value up to a maximum, and no narrower one.
use sky_saga_rs.Common.{
  ℕ, zero, suc, ◌+◌, ◌-◌, ◌*◌, ◌/◌, ◌^◌, ◌<◌, ◌≤◌, ◌≡◌, refl, ◌∙◌, inl, inr, ◌==◌, Bool-cases,
  arith,
}
use sky_saga_rs.BitStream.Byte.Words.{pow_add}
use sky_saga_rs.BitStream.Writer.{write_bits_le}
use sky_saga_rs.BitStream.Reader.{ok, read_bits_le}
use sky_saga_rs.BitStream.Wire.{written, read_bits_le-write_bits_le}
use sky_saga_rs.Bits.{bit_length, num_bits_required, ranged_bits}

pow_suc : (n : ℕ) → 2 ^ (n + 1) ≡ 2 * 2 ^ n
pow_suc n = pow_add 1 n (n + 1) (omega arith) ∙ omega arith

bit_length-zero : (fuel : ℕ) → bit_length fuel 0 ≡ 0
unfolding bit_length
bit_length-zero zero = refl
bit_length-zero (suc fuel) = refl

below_suc :
    (fuel v : ℕ)
    → 0 < v
    → (0 < v / 2 → 2 ^ bit_length fuel (v / 2) ≤ 2 * (v / 2))
    → 2 ^ (bit_length fuel (v / 2) + 1) ≤ 2 * v
below_suc fuel v p below = elim (Bool-cases (v / 2 == 0)) [
  | inl e ↦ let halved : v / 2 ≡ 0 = ground arith in rw (halved, bit_length-zero fuel) (omega arith)
  | inr e ↦ omega (arith, below (ground arith), pow_suc (bit_length fuel (v / 2)))
]

bit_length-bounds :
    (fuel v : ℕ)
    → v < 2 ^ fuel
    → (v < 2 ^ bit_length fuel v)
      × (bit_length fuel v ≤ fuel)
      × (0 < v → 2 ^ bit_length fuel v ≤ 2 * v)
unfolding bit_length
bit_length-bounds zero v h = (omega arith, omega arith, λ p. omega arith)
bit_length-bounds (suc fuel) v h = elim (Bool-cases (v == 0)) [
  | inl e ↦ rw e (ground arith, omega arith, λ p. ground arith)
  | inr e ↦
      let (above, most, below) = bit_length-bounds fuel (v / 2) (omega (arith, pow_suc fuel)) in
      let step = pow_suc (bit_length fuel (v / 2)) in
      rw e (omega (arith, above, step), omega (arith, most), λ p. below_suc fuel v p below)
]

-- A u32 maximum fits its width, which is at most 32, and fits no narrower one.
pub ranged_bits-bounds :
    (max : ℕ)
    → max < 2 ^ 32
    → (max < 2 ^ ranged_bits max)
      × (ranged_bits max ≤ 32)
      × (0 < max → 2 ^ ranged_bits max ≤ 2 * max)
unfolding ranged_bits num_bits_required
ranged_bits-bounds max h =
    let (above, most, below) = bit_length-bounds 32 max h in
    let same : 32 - (32 - bit_length 32 max) ≡ bit_length 32 max = omega (arith, most) in
    rw same (above, most, below)

-- Every value up to a u32 maximum is read back from a field of the width for that maximum.
pub read_bits_le-ranged_bits :
    (max v : ℕ)
    → max < 2 ^ 32
    → v ≤ max
    → (read_bits_le (ranged_bits max) (written (write_bits_le v (ranged_bits max)))).0 ≡ ok v
read_bits_le-ranged_bits max v h le =
    let (above, most, below) = ranged_bits-bounds max h in
    read_bits_le-write_bits_le v (ranged_bits max) most (omega (arith, above, le))
