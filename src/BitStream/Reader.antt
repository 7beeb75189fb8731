-- ===== src/BitStream/Reader.antt =====
-- `BitReader`: every operation that reads from the stream. A read returns the result beside the
-- reader as it is left, also where the result is an error.
pub mod Decodes
pub mod Fields
pub mod Safety
use sky_saga_rs.Common.{
  ℕ, zero, suc, ◌+◌, ◌-◌, ◌*◌, ◌/◌, ◌%◌, ◌^◌, min, bit_or, Bool, List, [], ◌∷◌, Option, none, some,
  length, get_elem?, get_or, set, replicate, ltb, leb, ◌==◌, if◌then◌else◌,
}
use sky_saga_rs.BitStream.Byte.{top_mask, has_bit, from_le_bytes, from_be_bytes}
use sky_saga_rs.BitStream.Utf8.{is_utf8}
use sky_saga_rs.BitStream.Writer.{id_user_packet_enum}

pub data BitError : Type 0 where
  out_of_bounds : ℕ → ℕ → BitError
  bad_utf8 large_string_length : BitError

-- `panic` is an index out of bounds, which ends the process.
pub data Result {ℓ} (A : Type ℓ) : Type ℓ where
  ok : A → Result A
  err : BitError → Result A
  panic : Result A

pub record BitReader : Type 0 where
  pub bytes : List ℕ
  pub bits : ℕ
  pub offset : ℕ

abbrev pub Read {ℓ} : Type ℓ → Type ℓ
Read A = BitReader → Result A × BitReader

abbrev pub after {ℓ κ} :
    {A : Type ℓ} {B : Type κ} → (A → Read B) → Result A × BitReader → Result B × BitReader
after f (ok a, r) = f a r
after f (err e, r) = (err e, r)
after f (panic, r) = (panic, r)

-- `?` on a read, and then the rest.
infixl 5 ◌>>=◌ ◌>>◌
abbrev pub ◌>>=◌ {ℓ κ} : {A : Type ℓ} {B : Type κ} → Read A → (A → Read B) → Read B
◌>>=◌ m f r = after f (m r)

abbrev pub ◌>>◌ {ℓ} : {B : Type ℓ} → Read (Unit {0}) → Read B → Read B
m >> k = m >>= λ _. k

abbrev pub pure {ℓ} : {A : Type ℓ} → A → Read A
pure a r = (ok a, r)

abbrev pub fail {ℓ} : {A : Type ℓ} → BitError → Read A
fail e r = (err e, r)

-- `BitReader::new` and `BitReader::from_bytes`
unfoldable pub new : List ℕ → ℕ → BitReader
new bytes bits = record { bytes = bytes; bits = min bits (length bytes * 8); offset = 0 }

unfoldable pub from_bytes : List ℕ → BitReader
unfolding new
from_bytes bytes = new bytes (length bytes * 8)

abbrev pub bits_remaining : BitReader → ℕ
bits_remaining r = r.bits - r.offset

abbrev pub advance : ℕ → BitReader → BitReader
advance n r = record r { offset = r.offset + n }

unfoldable pub require : ℕ → Read (Unit {0})
require wanted r =
    if ltb (bits_remaining r) wanted
    then (err (out_of_bounds wanted (bits_remaining r)), r)
    else (ok tt, r)

-- `self.data[self.offset / 8]` panics out of bounds.
abbrev pub take_bit : Option ℕ → Read Bool
take_bit none r = (panic, r)
take_bit (some byte) r = (ok (has_bit byte (r.offset % 8)), advance 1 r)

unfoldable pub read_bit : Read Bool
read_bit = do require 1; λ r. take_bit (get_elem? r.bytes (r.offset / 8)) r

-- `for index in 0..count`, with the rounds left.
unfoldable pub read_top_bits : ℕ → ℕ → ℕ → Read ℕ
read_top_bits byte index zero = pure byte
read_top_bits byte index (suc count) = do
  bit ← read_bit
  read_top_bits (if bit then bit_or byte (top_mask index) else byte) (index + 1) count

unfoldable pub read_byte_bits : ℕ → Read ℕ
unfolding read_top_bits
read_byte_bits count = do require count; read_top_bits 0 0 count

unfoldable pub read_u8 : Read ℕ
unfolding read_byte_bits
read_u8 = read_byte_bits 8

-- `for _ in 0..count { out.push(read?) }`
unfoldable pub read_many {ℓ} : {A : Type ℓ} → Read A → ℕ → Read (List A)
read_many m zero = pure []
read_many m (suc count) = do x ← m; xs ← read_many m count; pure (x ∷ xs)

unfoldable pub read_u32 : Read ℕ
unfolding read_many from_be_bytes
read_u32 = do bytes ← read_many read_u8 4; pure (from_be_bytes 0 bytes)

unfoldable pub read_u16 : Read ℕ
unfolding read_many from_be_bytes
read_u16 = do bytes ← read_many read_u8 2; pure (from_be_bytes 0 bytes)

-- `while remaining > 0`; a byte past the fourth is read and dropped.
unfoldable pub read_le_loop : ℕ → List ℕ → ℕ → ℕ → Read (List ℕ)
read_le_loop zero out index remaining = pure out
read_le_loop (suc fuel) out index remaining =
    let whole : Read (List ℕ) = do
      byte ← read_byte_bits 8
      read_le_loop fuel (set out index byte) (index + 1) (remaining - 8)
    in let part : Read (List ℕ) = do
      byte ← read_byte_bits remaining
      pure (set out index (byte / 2 ^ (8 - remaining)))
      in if remaining == 0 then pure out else if leb 8 remaining then whole else part

unfoldable pub read_bits_le : ℕ → Read ℕ
unfolding read_le_loop from_le_bytes
read_bits_le bits = do
  require bits
  out ← read_le_loop bits (0 ∷ 0 ∷ 0 ∷ 0 ∷ []) 0 bits
  pure (from_le_bytes out)

unfoldable pub read_u64_le : Read ℕ
unfolding read_many from_le_bytes
read_u64_le = do bytes ← read_many read_u8 8; pure (from_le_bytes bytes)

-- `while self.offset % 8 != 0`: at most seven rounds.
unfoldable pub align_loop : ℕ → Read (Unit {0})
align_loop zero r = (ok tt, r)
align_loop (suc fuel) r =
    let rest = (read_bit >>= λ _. align_loop fuel) r in
    if r.offset % 8 == 0 then (ok tt, r) else rest

unfoldable pub align_to_byte : Read (Unit {0})
unfolding align_loop
align_to_byte = align_loop 7

unfoldable pub read_aligned_bytes : ℕ → Read (List ℕ)
unfolding read_many
read_aligned_bytes count = do align_to_byte; require (count * 8); read_many read_u8 count

-- `out[index / 8] |= 0x80 >> (index % 8)` over `0..bits`, with the rounds left.
unfoldable pub read_msb_loop : List ℕ → ℕ → ℕ → Read (List ℕ)
read_msb_loop out index zero = pure out
read_msb_loop out index (suc left) = do
  bit ← read_bit
  read_msb_loop
      (if bit
        then set out (index / 8) (bit_or (get_or out (index / 8) 0) (top_mask (index % 8)))
        else out)
      (index + 1) left

unfoldable pub read_bits_msb : ℕ → Read (List ℕ)
unfolding read_msb_loop
read_bits_msb bits = do require bits; read_msb_loop (replicate ((bits + 7) / 8) 0) 0 bits

unfoldable pub skip_bits : ℕ → Read (Unit {0})
skip_bits bits = do require bits; λ r. (ok tt, advance bits r)

unfoldable pub read_compressed_u32 : Read ℕ
read_compressed_u32 = do large ← read_bit; read_bits_le (if large then 32 else 7)

-- The two ways out of the flag bits, and `String::from_utf8`.
unfoldable pub read_text : ℕ → Read (List ℕ)
unfolding read_many
read_text length = do
  require (length * 8)
  bytes ← read_many read_u8 length
  if is_utf8 bytes then pure bytes else fail bad_utf8

unfoldable pub read_long_string : Bool → Read (List ℕ)
unfolding read_text
read_long_string large = if large then fail large_string_length else (read_u8 >>= read_text)

unfoldable pub read_string : Read (List ℕ)
unfolding read_long_string
read_string = do present ← read_bit; if present then read_bit >>= read_long_string else pure []

unfoldable pub read_optional_u32 : Read (Option ℕ)
read_optional_u32 = do
  present ← read_bit
  if present then read_u32 >>= (λ value. pure (some value)) else pure none

-- `wire.saturating_sub(ID_USER_PACKET_ENUM)`
unfoldable pub read_packet_id : Read ℕ
read_packet_id = do
  first ← read_u8
  wire ← if first == 0xff then read_u8 >>= (λ more. pure (255 + more)) else pure first
  pure (wire - id_user_packet_enum)
