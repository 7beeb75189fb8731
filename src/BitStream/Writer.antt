-- ===== src/BitStream/Writer.antt =====
-- `BitWriter`: every operation that appends to the stream. A method is a function of the writer,
-- and `f ⨾ g` is the call of `f` and then of `g`.
pub mod Contents
pub mod Encodes
pub mod Fields
use sky_saga_rs.Common.{
  ℕ, zero, suc, ◌+◌, ◌-◌, ◌*◌, ◌/◌, ◌%◌, ◌^◌, bit_or, Bool, true, false, List, [], ◌∷◌, ◌++◌,
  Option, none, some, length, get_or, set, ltb, leb, ◌==◌, if◌then◌else◌,
}
use sky_saga_rs.BitStream.Byte.{top_mask, has_bit, to_le_bytes, to_be_bytes, to_be_bytes_u16}

pub record BitWriter : Type 0 where
  pub bytes : List ℕ
  pub bits : ℕ

abbrev pub Write : Type 0
Write = BitWriter → BitWriter

infixl 5 ◌⨾◌
abbrev pub ◌⨾◌ : Write → Write → Write
◌⨾◌ f g w = g (f w)

-- `BitWriter::new`
abbrev pub new : BitWriter
new = record { bytes = []; bits = 0 }

-- `self.data[self.data.len() - 1] |= mask`
abbrev pub or_last : List ℕ → ℕ → List ℕ
or_last bytes mask =
    let last = length bytes - 1 in set bytes last (bit_or (get_or bytes last 0) mask)

-- The buffer after the push of a fresh byte, where the last one is full.
abbrev pub grown : BitWriter → List ℕ
grown w = if w.bits % 8 == 0 then w.bytes ++ (0 ∷ []) else w.bytes

unfoldable pub write_bit : Bool → Write
write_bit bit w = record {
  bytes = if bit then or_last (grown w) (top_mask (w.bits % 8)) else grown w;
  bits = w.bits + 1;
}

-- `for index in 0..count`, with `count` the rounds left.
unfoldable pub write_top_bits : ℕ → ℕ → ℕ → Write
write_top_bits value index zero w = w
write_top_bits value index (suc count) w =
    write_top_bits value (index + 1) count (write_bit (has_bit value index) w)

unfoldable pub write_byte_bits : ℕ → ℕ → Write
unfolding write_top_bits
write_byte_bits value count = write_top_bits value 0 count

unfoldable pub write_u8 : ℕ → Write
unfolding write_byte_bits
write_u8 value = write_byte_bits value 8

-- `while remaining > 0`; each round takes a bit at least, so `bits` rounds are enough.
-- `byte << (8 - remaining)` drops what leaves the byte.
unfoldable pub write_bits_loop : ℕ → List ℕ → ℕ → ℕ → Write
write_bits_loop zero bytes index remaining w = w
write_bits_loop (suc fuel) bytes index remaining w =
    let byte = get_or bytes index 0 in
    let whole = write_bits_loop fuel bytes (index + 1) (remaining - 8) (write_byte_bits byte 8 w) in
    let part = write_byte_bits (byte * 2 ^ (8 - remaining) % 256) remaining w in
    if remaining == 0 then w else if leb 8 remaining then whole else part

unfoldable pub write_bits : List ℕ → ℕ → Write
unfolding write_bits_loop
write_bits bytes bits = write_bits_loop bits bytes 0 bits

unfoldable pub write_u32 : ℕ → Write
write_u32 value = write_bits (to_be_bytes value) 32

unfoldable pub write_u16 : ℕ → Write
write_u16 value = write_bits (to_be_bytes_u16 value) 16

unfoldable pub write_bits_le : ℕ → ℕ → Write
write_bits_le value bits = write_bits (to_le_bytes value) bits

unfoldable pub write_u64_le : ℕ → Write
write_u64_le value = write_bits (to_le_bytes value ++ to_le_bytes (value / 2 ^ 32)) 64

-- `while self.bits % 8 != 0`: at most seven rounds.
unfoldable pub align_loop : ℕ → Write
align_loop zero w = w
align_loop (suc fuel) w =
    let rest = align_loop fuel (write_bit false w) in if w.bits % 8 == 0 then w else rest

unfoldable pub align_to_byte : Write
unfolding align_loop
align_to_byte = align_loop 7

unfoldable pub write_each_u8 : List ℕ → Write
write_each_u8 [] w = w
write_each_u8 (b ∷ bs) w = write_each_u8 bs (write_u8 b w)

unfoldable pub write_aligned_bytes : List ℕ → Write
write_aligned_bytes bytes = align_to_byte ⨾ write_each_u8 bytes

-- `for index in 0..bits`, with the rounds left.
unfoldable pub write_msb_loop : List ℕ → ℕ → ℕ → Write
write_msb_loop bytes index zero w = w
write_msb_loop bytes index (suc left) w =
    write_msb_loop bytes (index + 1) left
      (write_bit (has_bit (get_or bytes (index / 8) 0) (index % 8)) w)

unfoldable pub write_bits_msb : List ℕ → ℕ → Write
unfolding write_msb_loop
write_bits_msb bytes bits = write_msb_loop bytes 0 bits

unfoldable pub write_compressed_u32 : ℕ → Write
write_compressed_u32 value =
    if ltb value 0x80
    then write_bit false ⨾ write_bits_le value 7
    else write_bit true ⨾ write_bits_le value 32

abbrev pub max_short_string : ℕ
max_short_string = 255

-- `bytes.len() as u8` and `as u32` wrap; so does the bit count, as a u32.
unfoldable pub write_string : List ℕ → Write
write_string [] = write_bit false
write_string (b ∷ bs) =
    let bytes = b ∷ bs in
    write_bit true
    ⨾ (if ltb (length bytes) max_short_string
        then write_bit false ⨾ write_u8 (length bytes % 2 ^ 8)
        else write_bit true ⨾ write_u32 (length bytes % 2 ^ 32))
    ⨾ write_bits bytes (length bytes % 2 ^ 32 * 8 % 2 ^ 32)

unfoldable pub write_optional_u32 : Option ℕ → Write
write_optional_u32 none = write_bit false
write_optional_u32 (some value) = write_bit true ⨾ write_u32 value

abbrev pub id_user_packet_enum : ℕ
id_user_packet_enum = 134

unfoldable pub write_packet_id : ℕ → Write
write_packet_id id =
    let wire = id + id_user_packet_enum in
    if leb 255 wire then write_u8 0xff ⨾ write_u8 ((wire - 255) % 256) else write_u8 (wire % 256)
