-- ===== src/Bits.antt =====
-- crates/skysaga-core/src/bits.rs: how wide a ranged field is.
pub mod Widths
pub mod Tests
use sky_saga_rs.Common.{ℕ, zero, suc, ◌+◌, ◌-◌, ◌/◌, ◌==◌, if◌then◌else◌}

-- The number of bits from the top set bit down, counted over at most `fuel` halvings.
unfoldable pub bit_length : ℕ → ℕ → ℕ
bit_length zero v = 0
bit_length (suc fuel) v = let rest = bit_length fuel (v / 2) in if v == 0 then 0 else rest + 1

-- `u32::leading_zeros`, under the source's name: a u32 has at most 32 bits to count.
unfoldable pub num_bits_required : ℕ → ℕ
unfolding bit_length
num_bits_required max = 32 - bit_length 32 max

unfoldable pub num_bits_required_byte : ℕ → ℕ
unfolding bit_length
num_bits_required_byte max = 8 - bit_length 8 max

-- `ranged_bits`: the width of a field whose declared maximum is `max`.
unfoldable pub ranged_bits : ℕ → ℕ
unfolding num_bits_required
ranged_bits max = 32 - num_bits_required max
