-- ===== src/BitStream/Byte.antt =====
-- The bits of one byte, most significant first, and the two byte orders of a 32-bit value.
pub mod Tables
pub mod Words
use sky_saga_rs.Common.{ℕ, ◌+◌, ◌*◌, ◌/◌, ◌%◌, ◌^◌, bit_and, Bool, not, List, [], ◌∷◌, ◌==◌, get_or}

-- `0x80 >> index`
abbrev pub top_mask : ℕ → ℕ
top_mask index = 0x80 / 2 ^ index

-- `byte & (0x80 >> index) != 0`
unfoldable pub has_bit : ℕ → ℕ → Bool
has_bit byte index = not (bit_and byte (top_mask index) == 0)

-- `bytes[i / 8] & (0x80 >> (i % 8)) != 0`, with a 0 past the end.
unfoldable pub bit_at : List ℕ → ℕ → Bool
unfolding has_bit
bit_at bytes i = has_bit (get_or bytes (i / 8) 0) (i % 8)

-- `u32::to_le_bytes`, `u32::to_be_bytes`, `u16::to_be_bytes` and `u64::to_le_bytes`.
unfoldable pub to_le_bytes : ℕ → List ℕ
to_le_bytes v = v % 256 ∷ v / 256 % 256 ∷ v / 2 ^ 16 % 256 ∷ v / 2 ^ 24 % 256 ∷ []

unfoldable pub to_be_bytes : ℕ → List ℕ
to_be_bytes v = v / 2 ^ 24 % 256 ∷ v / 2 ^ 16 % 256 ∷ v / 256 % 256 ∷ v % 256 ∷ []

unfoldable pub to_be_bytes_u16 : ℕ → List ℕ
to_be_bytes_u16 v = v / 256 % 256 ∷ v % 256 ∷ []

-- Bytes of a word, lowest first.
unfoldable pub from_le_bytes : List ℕ → ℕ
from_le_bytes [] = 0
from_le_bytes (b ∷ bs) = b + 256 * from_le_bytes bs

-- Bytes of a word, highest first.
unfoldable pub from_be_bytes : ℕ → List ℕ → ℕ
from_be_bytes acc [] = acc
from_be_bytes acc (b ∷ bs) = from_be_bytes (acc * 256 + b) bs
