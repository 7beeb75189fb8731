-- ===== src/BitStream/RoundTrip/Wide.antt =====
-- The widest fields of bitstream.rs, written and read back: 64 bits, and bits by the thousand.
use sky_saga_rs.Common.{
  ℕ, zero, suc, ◌+◌, ◌/◌, ◌%◌, ◌^◌, ◌≤◌, ◌<◌, Bool, ◌≡◌, refl, ap, subst, List, [], ◌∷◌, ◌++◌,
  length, get_or, replicate, arith,
}
use sky_saga_rs.BitStream.Byte.{has_bit, bit_at, to_le_bytes, from_le_bytes}
use sky_saga_rs.BitStream.Byte.Tables.{msb_bits}
use sky_saga_rs.BitStream.Writer.{write_u64_le, write_msb_loop, write_bits_msb}
use sky_saga_rs.BitStream.Writer.Contents.{IsBytes, IsBytes-AllBytes, bits_from}
use sky_saga_rs.BitStream.Writer.Encodes.{
  Encodes, Encodes-skip, Encodes-seq, Encodes-bit, Encodes-bits, group_bits,
}
use sky_saga_rs.BitStream.Writer.Fields.{bytes_bits}
use sky_saga_rs.BitStream.Reader.{read_u64_le, read_msb_loop, read_bits_msb}
use sky_saga_rs.BitStream.Reader.Decodes.{
  Decodes, Decodes-pure, Decodes-bind, Decodes-bit, Decodes-require,
}
use sky_saga_rs.BitStream.Reader.Fields.{Decodes-map, Decodes-value, Decodes-bytes}
use sky_saga_rs.BitStream.RoundTrip.{RoundTrip}
use sky_saga_rs.BitStream.RoundTrip.Copied.{marked, filled, filled-bytes, IsBits}

abbrev eight : ℕ → List ℕ
eight v = to_le_bytes v ++ to_le_bytes (v / 2 ^ 32)

eight-IsBytes : (v : ℕ) → IsBytes (eight v)
unfolding to_le_bytes
eight-IsBytes v = omega arith

eight-from_le_bytes : (v : ℕ) → v < 2 ^ 64 → from_le_bytes (eight v) ≡ v
unfolding to_le_bytes from_le_bytes
eight-from_le_bytes v h = omega arith

Encodes-u64_le : (v : ℕ) → Encodes (write_u64_le v) (bytes_bits (eight v))
unfolding write_u64_le to_le_bytes group_bits msb_bits bytes_bits
Encodes-u64_le v = Encodes-bits (eight v) 64 (IsBytes-AllBytes (eight v) (eight-IsBytes v))

pub RoundTrip-u64_le : (v : ℕ) → v < 2 ^ 64 → RoundTrip (write_u64_le v) read_u64_le v
unfolding read_u64_le to_le_bytes
RoundTrip-u64_le v h = record {
  wire = _;
  encodes = Encodes-u64_le v;
  decodes =
      Decodes-value (eight-from_le_bytes v h)
        (Decodes-map from_le_bytes (Decodes-bytes (eight v) (eight-IsBytes v)));
}

Encodes-msb_loop :
    (bytes : List ℕ) (index left : ℕ)
    → Encodes (write_msb_loop bytes index left) (bits_from bytes index left)
unfolding write_msb_loop bits_from bit_at
Encodes-msb_loop bytes index zero = Encodes-skip
Encodes-msb_loop bytes index (suc left) =
    let rest : Encodes (write_msb_loop bytes (index + 1) left) (bits_from bytes (suc index) left) =
      subst (λ k. Encodes (write_msb_loop bytes (index + 1) left) (bits_from bytes k left))
        (omega arith) (Encodes-msb_loop bytes (index + 1) left) in
    Encodes-seq (Encodes-bit (has_bit (get_or bytes (index / 8) 0) (index % 8))) rest

Decodes-msb_loop :
    (out : List ℕ) (index : ℕ) (bs : List Bool)
    → Decodes (read_msb_loop out index (length bs)) bs (filled out index bs)
unfolding read_msb_loop filled
Decodes-msb_loop out index [] = Decodes-pure out
Decodes-msb_loop out index (b ∷ bs) =
    Decodes-bind _ (Decodes-bit b) (Decodes-msb_loop (marked out index b) (index + 1) bs)

pub length-bits_from : (bytes : List ℕ) (start n : ℕ) → length (bits_from bytes start n) ≡ n
unfolding bits_from
length-bits_from bytes start zero = refl
length-bits_from bytes start (suc n) = ap suc (length-bits_from bytes (suc start) n)

-- Bits that are written the highest of each byte first are read back into the same bytes.
pub RoundTrip-bits_msb :
    (bytes : List ℕ) (len : ℕ)
    → IsBits bytes len
    → RoundTrip (write_bits_msb bytes len) (read_bits_msb len) bytes
unfolding write_bits_msb read_bits_msb
RoundTrip-bits_msb bytes len h =
    let bs : List Bool = bits_from bytes 0 len in
    let out : List ℕ = replicate ((len + 7) / 8) 0 in
    let size = length-bits_from bytes 0 len in
    let enough : len ≤ length bs = omega (arith, size) in
    let loop : Decodes (read_msb_loop out 0 len) bs (filled out 0 bs) =
      subst (λ n. Decodes (read_msb_loop out 0 n) bs (filled out 0 bs)) size
        (Decodes-msb_loop out 0 bs) in
    record {
      wire = bs;
      encodes = Encodes-msb_loop bytes 0 len;
      decodes = Decodes-value (filled-bytes bytes len h) (Decodes-require len enough loop);
    }
