-- ===== src/BitStream/Tests.antt =====
-- Runs of the writer and the reader.
use sky_saga_rs.Common.{ℕ, ◌≡◌, refl, true, List, [], ◌∷◌, arith}
use sky_saga_rs.BitStream.Utf8.{is_utf8, is_utf8_from}
use sky_saga_rs.BitStream.Writer.{
  BitWriter, write_bit, write_u32, write_bits_le, write_compressed_u32, write_optional_u32,
  write_packet_id, write_string,
}
use sky_saga_rs.BitStream.Writer
use sky_saga_rs.BitStream.Writer.Contents.{IsWriter, new-IsWriter}
use sky_saga_rs.BitStream.Writer.Encodes.{Encodes-bit}
use sky_saga_rs.BitStream.Reader.{ok, read_bits_le, read_compressed_u32, read_string}
use sky_saga_rs.BitStream.RoundTrip.{IsShortString}
use sky_saga_rs.BitStream.Wire.{
  written, read_bits_le-write_bits_le, read_compressed_u32-write_compressed_u32,
  read_string-write_string,
}

-- A writer that is not at a byte's start.
abbrev begun : BitWriter
begun = write_bit true Writer.new

begun-IsWriter : IsWriter begun
begun-IsWriter = (Encodes-bit true).keeps Writer.new new-IsWriter

-- "Sky"
abbrev word : List ℕ
word = b'S' ∷ b'k' ∷ b'y' ∷ []

word-IsShortString : IsShortString word
unfolding is_utf8 is_utf8_from
word-IsShortString = record {
  bytes_are = (omega arith, (omega arith, (omega arith, tt)));
  short = omega arith;
  valid = refl;
}

read_bits_le-write_bits_le_example :
    (read_bits_le 15 (written (write_bits_le 0x1234 15))).0 ≡ ok 0x1234
read_bits_le-write_bits_le_example =
    read_bits_le-write_bits_le 0x1234 15 (omega arith) (omega arith)

read_compressed_u32-write_compressed_u32_example :
    (read_compressed_u32 (written (write_compressed_u32 300))).0 ≡ ok 300
read_compressed_u32-write_compressed_u32_example =
    read_compressed_u32-write_compressed_u32 300 (omega arith)

read_string-write_string_example : (read_string (written (write_string word))).0 ≡ ok word
read_string-write_string_example = read_string-write_string word word-IsShortString
