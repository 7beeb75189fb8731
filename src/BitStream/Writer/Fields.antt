-- ===== src/BitStream/Writer/Fields.antt =====
-- The fields that packets are made of: what each puts on the wire.
use sky_saga_rs.Common.{
  ℕ, zero, suc, ◌+◌, ◌-◌, ◌*◌, ◌/◌, ◌%◌, ◌^◌, ◌≤◌, ◌<◌, Bool, true, false, ◌≡◌, refl, sym, ap,
  subst, ◌∙◌, inl, inr, List, [], ◌∷◌, ◌++◌, Option, none, some, length, get_or, ltb, leb,
  if◌then◌else◌, Bool-cases, arith,
}
use native.Mathlib.Nat.{pow-suc, div-div-eq-div-mul}
use sky_saga_rs.BitStream.Byte.{to_le_bytes, to_be_bytes, to_be_bytes_u16}
use sky_saga_rs.BitStream.Byte.Tables.{msb_bits}
use sky_saga_rs.BitStream.Byte.Words.{
  le_groups, le_bits, msb_bits-byte, msb_bits-to_be_bytes, msb_bits-to_be_bytes_u16,
}
use sky_saga_rs.BitStream.Writer.{
  ◌⨾◌, write_bit, write_u8, write_bits, write_u32, write_u16, write_bits_le, write_compressed_u32,
  write_string, write_optional_u32, write_packet_id,
}
use sky_saga_rs.BitStream.Writer.Contents.{AllBytes, IsBytes, IsBytes-AllBytes}
use sky_saga_rs.BitStream.Writer.Encodes.{
  Encodes, Encodes-seq, Encodes-bit, Encodes-u8, Encodes-bits, group_bits,
}

to_le_bytes-AllBytes : (v : ℕ) → AllBytes (to_le_bytes v)
unfolding to_le_bytes
to_le_bytes-AllBytes v = IsBytes-AllBytes (to_le_bytes v) (omega arith)

to_be_bytes-AllBytes : (v : ℕ) → AllBytes (to_be_bytes v)
unfolding to_be_bytes
to_be_bytes-AllBytes v = IsBytes-AllBytes (to_be_bytes v) (omega arith)

to_be_bytes_u16-AllBytes : (v : ℕ) → AllBytes (to_be_bytes_u16 v)
unfolding to_be_bytes_u16
to_be_bytes_u16-AllBytes v = IsBytes-AllBytes (to_be_bytes_u16 v) (omega arith)

-- `write_u32` is big-endian: the 32 bits from the top down.
pub Encodes-u32 : (v : ℕ) → Encodes (write_u32 v) (msb_bits 32 v)
unfolding write_u32 to_be_bytes group_bits msb_bits
Encodes-u32 v =
    subst (Encodes (write_u32 v)) (msb_bits-to_be_bytes v)
      (Encodes-bits (to_be_bytes v) 32 (to_be_bytes-AllBytes v))

pub Encodes-u16 : (v : ℕ) → Encodes (write_u16 v) (msb_bits 16 v)
unfolding write_u16 to_be_bytes_u16 group_bits msb_bits
Encodes-u16 v =
    subst (Encodes (write_u16 v)) (msb_bits-to_be_bytes_u16 v)
      (Encodes-bits (to_be_bytes_u16 v) 16 (to_be_bytes_u16-AllBytes v))

-- The bytes from `index` on are those of `v`, lowest first, `count` of them.
abbrev BytesOf : List ℕ → ℕ → ℕ → ℕ → Type 0
BytesOf bytes index count v = (j : ℕ) → j < count → get_or bytes (index + j) 0 ≡ v / 256 ^ j % 256

BytesOf-next :
    (bytes : List ℕ) (index count v : ℕ)
    → BytesOf bytes index (suc count) v
    → BytesOf bytes (index + 1) count (v / 256)
BytesOf-next bytes index count v h j k =
    ap (λ i. get_or bytes i 0) (omega arith)
    ∙ h (suc j) (omega arith)
    ∙ ap (λ (t : ℕ). t % 256)
        (ap (λ (t : ℕ). v / t) (pow-suc' j) ∙ sym (div-div-eq-div-mul v 256 (256 ^ j)))
  where
    pow-suc' : (j : ℕ) → 256 ^ suc j ≡ 256 * 256 ^ j
    pow-suc' j = omega (arith, pow-suc 256 j)

BytesOf-first :
    (bytes : List ℕ) (index count v : ℕ)
    → BytesOf bytes index (suc count) v
    → get_or bytes index 0 ≡ v % 256
BytesOf-first bytes index count v h =
    ap (λ i. get_or bytes i 0) (omega arith) ∙ h 0 (omega arith) ∙ omega arith

-- The bits that `write_bits` takes from a word's bytes, lowest first.
group_bits-le :
    (q t count v index : ℕ) (bytes : List ℕ)
    → t < 8
    → 8 * q + t ≤ 8 * count
    → BytesOf bytes index count v
    → group_bits q t bytes index ≡ le_groups q t v
unfolding group_bits le_groups
group_bits-le zero zero zero v index bytes ht h e = unfold msb_bits in refl
group_bits-le zero (suc t) zero v index bytes ht h e = absurd (omega arith)
group_bits-le (suc q) t zero v index bytes ht h e = absurd (omega arith)
group_bits-le zero t (suc count) v index bytes ht h e =
    rw (BytesOf-first bytes index count v e) (msb_bits-byte t v (omega arith))
group_bits-le (suc q) t (suc count) v index bytes ht h e = rw (
  BytesOf-first bytes index count v e,
  msb_bits-byte 8 v (omega arith),
  group_bits-le q t count (v / 256) (index + 1) bytes ht (omega arith)
      (BytesOf-next bytes index count v e),
)

to_le_bytes-BytesOf : (v : ℕ) → BytesOf (to_le_bytes v) 0 4 v
unfolding to_le_bytes
to_le_bytes-BytesOf v zero h = omega arith
to_le_bytes-BytesOf v (suc zero) h = omega arith
to_le_bytes-BytesOf v (suc (suc zero)) h = omega arith
to_le_bytes-BytesOf v (suc (suc (suc zero))) h = omega arith
to_le_bytes-BytesOf v (suc (suc (suc (suc j)))) h = absurd (omega arith)

-- `write_bits_le` is little-endian: whole bytes from the lowest up, and then low bits.
pub Encodes-bits_le : (v n : ℕ) → n ≤ 32 → Encodes (write_bits_le v n) (le_bits n v)
unfolding write_bits_le le_bits
Encodes-bits_le v n h =
    subst (Encodes (write_bits_le v n))
      (group_bits-le (n / 8) (n % 8) 4 v 0 (to_le_bytes v) (omega arith) (omega arith)
        (to_le_bytes-BytesOf v))
      (Encodes-bits (to_le_bytes v) n (to_le_bytes-AllBytes v))

-- A flag, and then seven or 32 bits.
unfoldable pub compressed_bits : ℕ → List Bool
compressed_bits v = if ltb v 0x80 then false ∷ le_bits 7 v else true ∷ le_bits 32 v

pub Encodes-compressed_u32 : (v : ℕ) → Encodes (write_compressed_u32 v) (compressed_bits v)
unfolding write_compressed_u32 compressed_bits
Encodes-compressed_u32 v = elim (Bool-cases (ltb v 0x80)) [
  | inl e ↦ rw e (Encodes-seq (Encodes-bit false) (Encodes-bits_le v 7 (omega arith)))
  | inr e ↦ rw e (Encodes-seq (Encodes-bit true) (Encodes-bits_le v 32 (omega arith)))
]

unfoldable pub optional_bits : Option ℕ → List Bool
optional_bits none = false ∷ []
optional_bits (some v) = true ∷ msb_bits 32 v

pub Encodes-optional_u32 : (o : Option ℕ) → Encodes (write_optional_u32 o) (optional_bits o)
unfolding write_optional_u32 optional_bits
Encodes-optional_u32 none = Encodes-bit false
Encodes-optional_u32 (some v) = Encodes-seq (Encodes-bit true) (Encodes-u32 v)

-- One byte, or 0xff and what is left over 255.
unfoldable pub packet_id_bits : ℕ → List Bool
packet_id_bits id =
    if leb 255 (id + 134)
    then msb_bits 8 0xff ++ msb_bits 8 (id + 134 - 255)
    else msb_bits 8 (id + 134)

pub Encodes-packet_id : (id : ℕ) → id + 134 < 511 → Encodes (write_packet_id id) (packet_id_bits id)
unfolding write_packet_id packet_id_bits
Encodes-packet_id id h = elim (Bool-cases (leb 255 (id + 134))) [
  | inl e ↦
      let low : (id + 134 - 255) % 256 ≡ id + 134 - 255 = ground arith in
      rw (e, low)
        (Encodes-seq (Encodes-u8 0xff (omega arith)) (Encodes-u8 (id + 134 - 255) (omega arith)))
  | inr e ↦
      let low : (id + 134) % 256 ≡ id + 134 = ground arith in
      rw (e, low) (Encodes-u8 (id + 134) (ground arith))
]

-- Bytes one after the other.
unfoldable pub bytes_bits : List ℕ → List Bool
bytes_bits [] = []
bytes_bits (b ∷ bs) = msb_bits 8 b ++ bytes_bits bs

group_bits-cons :
    (q t b index : ℕ) (bytes : List ℕ)
    → group_bits q t (b ∷ bytes) (suc index) ≡ group_bits q t bytes index
unfolding group_bits
group_bits-cons zero t b index bytes = refl
group_bits-cons (suc q) t b index bytes =
    let next : suc index + 1 ≡ suc (index + 1) = omega arith in
    rw (next, group_bits-cons q t b (index + 1) bytes)

group_bits-bytes : (bytes : List ℕ) → group_bits (length bytes) 0 bytes 0 ≡ bytes_bits bytes
unfolding group_bits bytes_bits
group_bits-bytes [] = unfold msb_bits in refl
group_bits-bytes (b ∷ bs) =
    let next : 0 + 1 ≡ suc 0 = refl in
    rw (group_bits-cons (length bs) 0 b 0 bs, group_bits-bytes bs)

Encodes-whole_bytes :
    (bytes : List ℕ)
    → IsBytes bytes
    → Encodes (write_bits bytes (length bytes * 8)) (bytes_bits bytes)
Encodes-whole_bytes bytes h =
    let whole : length bytes * 8 / 8 ≡ length bytes = omega arith in
    let none_left : length bytes * 8 % 8 ≡ 0 = omega arith in
    subst (Encodes (write_bits bytes (length bytes * 8)))
      (rw (whole, none_left) (group_bits-bytes bytes))
      (Encodes-bits bytes (length bytes * 8) (IsBytes-AllBytes bytes h))

-- Flag, width flag, length and bytes; an empty string is its flag alone.
unfoldable pub string_bits : List ℕ → List Bool
string_bits [] = false ∷ []
string_bits (b ∷ bs) =
    let bytes = b ∷ bs in
    true
    ∷ ((if ltb (length bytes) 255
          then false ∷ msb_bits 8 (length bytes)
          else true ∷ msb_bits 32 (length bytes))
        ++ bytes_bits bytes)

-- A length below 2^32, by its width flag.
Encodes-string_length :
    (n : ℕ)
    → n < 2 ^ 32
    → Encodes
        (if ltb n 255
          then write_bit false ⨾ write_u8 (n % 2 ^ 8)
          else write_bit true ⨾ write_u32 (n % 2 ^ 32))
        (if ltb n 255 then false ∷ msb_bits 8 n else true ∷ msb_bits 32 n)
Encodes-string_length n h = elim (Bool-cases (ltb n 255)) [
  | inl e ↦
      let low : n % 2 ^ 8 ≡ n = ground arith in
      rw (e, low) (Encodes-seq (Encodes-bit false) (Encodes-u8 n (ground arith)))
  | inr e ↦
      let low : n % 2 ^ 32 ≡ n = omega arith in
      rw (e, low) (Encodes-seq (Encodes-bit true) (Encodes-u32 n))
]

-- Of a string whose length in bits is a u32.
pub Encodes-string :
    (bytes : List ℕ)
    → IsBytes bytes
    → length bytes * 8 < 2 ^ 32
    → Encodes (write_string bytes) (string_bits bytes)
unfolding write_string string_bits
Encodes-string [] h l = Encodes-bit false
Encodes-string (b ∷ bs) h l =
    let bits : length (b ∷ bs) % 2 ^ 32 * 8 % 2 ^ 32 ≡ length (b ∷ bs) * 8 = omega arith in
    rw bits (
      Encodes-seq
        (Encodes-seq (Encodes-bit true) (Encodes-string_length (length (b ∷ bs)) (omega arith)))
        (Encodes-whole_bytes (b ∷ bs) h))
