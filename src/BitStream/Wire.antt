-- ===== src/BitStream/Wire.antt =====
-- The fields of a bit stream: which bits each puts on the wire, and what reading them gives.
use sky_saga_rs.Common.{ℕ, ◌+◌, ◌*◌, ◌<◌, ◌≤◌, ◌^◌, ◌≡◌, ap, List, ◌++◌, Option, length}
use sky_saga_rs.BitStream.Byte.Tables.{msb_bits}
use sky_saga_rs.BitStream.Byte.Words.{le_bits}
use sky_saga_rs.BitStream.Writer.{
  BitWriter, Write, write_u32, write_bits_le, write_compressed_u32, write_optional_u32,
  write_packet_id, write_string,
}
use sky_saga_rs.BitStream.Writer
use sky_saga_rs.BitStream.Writer.Contents.{IsWriter, IsBytes, contents}
use sky_saga_rs.BitStream.Writer.Fields.{Encodes-u32, Encodes-bits_le, Encodes-string, string_bits}
use sky_saga_rs.BitStream.Reader.{
  BitReader, ok, from_bytes, read_bits_le, read_compressed_u32, read_optional_u32, read_packet_id,
  read_string,
}
use sky_saga_rs.BitStream.Reader.Fields.{IsOptionalU32}
use sky_saga_rs.BitStream.RoundTrip.{
  IsShortString, RoundTrip-read, RoundTrip-bits_le, RoundTrip-compressed_u32,
  RoundTrip-optional_u32, RoundTrip-packet_id, RoundTrip-string,
}

-- The reader of the bytes of a stream with nothing else in it.
abbrev pub written : Write → BitReader
written f = from_bytes (f Writer.new).bytes

-- A u32 is appended, at any bit position of a well-formed writer, as its 32 bits with the highest
-- first, whatever the order of its bytes in memory.
pub contents-write_u32 :
    (v : ℕ) (w : BitWriter) → IsWriter w → contents (write_u32 v w) ≡ contents w ++ msb_bits 32 v
contents-write_u32 v w h = (Encodes-u32 v).appends w h

-- A field of at most 32 bits is appended as its whole bytes, the lowest first, and then the bits
-- left of its highest byte.
pub contents-write_bits_le :
    (v n : ℕ) (w : BitWriter)
    → n ≤ 32
    → IsWriter w
    → contents (write_bits_le v n w) ≡ contents w ++ le_bits n v
contents-write_bits_le v n w le h = (Encodes-bits_le v n le).appends w h

-- A string of bytes whose bits a u32 can count is appended as a bit for its length's form, the
-- length, and its bytes.
pub contents-write_string :
    (s : List ℕ) (w : BitWriter)
    → IsBytes s
    → length s * 8 < 2 ^ 32
    → IsWriter w
    → contents (write_string s w) ≡ contents w ++ string_bits s
contents-write_string s w b l h = (Encodes-string s b l).appends w h

-- Every value that fits its width of at most 32 bits is read back from a field of that width, be
-- the width a multiple of eight or not.
pub read_bits_le-write_bits_le :
    (v n : ℕ) → n ≤ 32 → v < 2 ^ n → (read_bits_le n (written (write_bits_le v n))).0 ≡ ok v
read_bits_le-write_bits_le v n le h = ap (λ q. q.0) (RoundTrip-read (RoundTrip-bits_le v n le h))

-- Every u32 is read back from its compressed form, of 8 or of 33 bits.
pub read_compressed_u32-write_compressed_u32 :
    (v : ℕ) → v < 2 ^ 32 → (read_compressed_u32 (written (write_compressed_u32 v))).0 ≡ ok v
read_compressed_u32-write_compressed_u32 v h =
    ap (λ q. q.0) (RoundTrip-read (RoundTrip-compressed_u32 v h))

-- Every optional u32 is read back as it was written.
pub read_optional_u32-write_optional_u32 :
    (o : Option ℕ) → IsOptionalU32 o → (read_optional_u32 (written (write_optional_u32 o))).0 ≡ ok o
read_optional_u32-write_optional_u32 o h =
    ap (λ q. q.0) (RoundTrip-read (RoundTrip-optional_u32 o h))

-- Every packet id below 377 is read back, in one byte or in two.
pub read_packet_id-write_packet_id :
    (id : ℕ) → id + 134 < 511 → (read_packet_id (written (write_packet_id id))).0 ≡ ok id
read_packet_id-write_packet_id id h = ap (λ q. q.0) (RoundTrip-read (RoundTrip-packet_id id h))

-- Every valid UTF-8 string of fewer than 255 bytes is read back as it was written.
pub read_string-write_string :
    (s : List ℕ) → IsShortString s → (read_string (written (write_string s))).0 ≡ ok s
read_string-write_string s h = ap (λ q. q.0) (RoundTrip-read (RoundTrip-string s h))
