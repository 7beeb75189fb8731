-- ===== src/BitStream/Reader/Safety.antt =====
-- No read ends the process: from a reader that stands within its buffer, every read comes to a value
-- or to an error, and leaves the reader within its buffer.
use sky_saga_rs.Common.{
  ℕ, zero, suc, ◌+◌, ◌-◌, ◌*◌, ◌/◌, ◌%◌, ◌≤◌, ◌<◌, Bool, true, false, ◌≡◌, refl, inl, inr, List, [],
  ◌∷◌, length, some, get_elem?, get_or, set, ltb, leb, ◌==◌, bit_or, if◌then◌else◌, Bool-cases,
  arith,
}
use sky_saga_rs.BitStream.Byte.{top_mask}
use sky_saga_rs.BitStream.Utf8.{is_utf8}
use sky_saga_rs.BitStream.Reader.{
  Result, ok, err, panic, BitReader, BitError, Read, after, ◌>>=◌, pure, fail, bits_remaining, new,
  from_bytes, require, read_bit, read_top_bits, read_byte_bits, read_u8, read_many, read_u32,
  read_u16, read_le_loop, read_bits_le, read_u64_le, align_loop, align_to_byte, read_aligned_bytes,
  read_msb_loop, read_bits_msb, skip_bits, read_compressed_u32, read_text, read_long_string,
  read_string, read_optional_u32, read_packet_id,
}

pub record IsReader (r : BitReader) : Type 0 where
  pub within : r.offset ≤ r.bits
  pub backed : r.bits ≤ 8 * length r.bytes

-- What a read comes to: a value or an error, of which a value may meet a condition on the reader.
abbrev pub Comes {ℓ} : {A : Type ℓ} → Result A × BitReader → Type 0
Comes (ok v, r) = IsReader r
Comes (err e, r) = IsReader r
Comes (panic, r) = ⊥

pub record Safe {ℓ} {A : Type ℓ} (m : Read A) : Type ℓ where
  pub comes : (r : BitReader) → IsReader r → Comes (m r)

pub from_bytes-IsReader : (bytes : List ℕ) → IsReader (from_bytes bytes)
unfolding from_bytes new
from_bytes-IsReader bytes = record { within = omega arith; backed = omega arith }

pub Safe-pure {ℓ} : {A : Type ℓ} (v : A) → Safe (pure v)
Safe-pure v = record { comes = λ r h. h }

pub Safe-fail {ℓ} : {A : Type ℓ} (e : BitError) → Safe (fail {A = A} e)
Safe-fail e = record { comes = λ r h. h }

Comes-after {ℓ κ} :
    {A : Type ℓ} {B : Type κ} (f : A → Read B) (q : Result A × BitReader)
    → Comes q
    → ((v : A) → Safe (f v))
    → Comes (after f q)
Comes-after f (ok v, r) h g = (g v).comes r h
Comes-after f (err e, r) h g = h
Comes-after f (panic, r) h g = h

pub Safe-bind {ℓ κ} :
    {A : Type ℓ} {B : Type κ} {m : Read A} (f : A → Read B)
    → Safe m
    → ((v : A) → Safe (f v))
    → Safe (m >>= f)
Safe-bind {m = m} f s g = record { comes = λ r h. Comes-after f (m r) (s.comes r h) g }

pub Safe-if {ℓ} :
    {A : Type ℓ} {m n : Read A} (b : Bool) → Safe m → Safe n → Safe (if b then m else n)
Safe-if true s t = s
Safe-if false s t = t

-- A read of bits that `require` has found to be there.
Safe-require {ℓ} :
    {A : Type ℓ} (n : ℕ) (f : Unit {0} → Read A)
    → ((r : BitReader) → IsReader r → r.offset + n ≤ r.bits → Comes (f tt r))
    → Safe (require n >>= f)
unfolding require
Safe-require n f g = record {
  comes = λ r h. elim (Bool-cases (ltb (bits_remaining r) n)) [
    | inl short ↦ rw short h
    | inr there ↦ rw there (g r h (ground (arith, h.within)))
  ];
}

get_elem?-some : (l : List ℕ) (i : ℕ) → i < length l → (x : ℕ) × (get_elem? l i ≡ some x)
get_elem?-some [] i h = absurd (omega arith)
get_elem?-some (x ∷ l) zero h = (x, refl)
get_elem?-some (x ∷ l) (suc i) h = get_elem?-some l i (omega arith)

pub Safe-bit : Safe read_bit
unfolding read_bit
Safe-bit = Safe-require 1 _ (λ r h there.
    let (x, e) = get_elem?-some r.bytes (r.offset / 8) (omega (arith, h.backed)) in
    rw e (record { within = omega arith; backed = h.backed }))

Safe-top_bits : (byte index count : ℕ) → Safe (read_top_bits byte index count)
unfolding read_top_bits
Safe-top_bits byte index zero = Safe-pure byte
Safe-top_bits byte index (suc count) =
    Safe-bind _ Safe-bit
      (λ b. Safe-top_bits (if b then bit_or byte (top_mask index) else byte) (index + 1) count)

pub Safe-byte_bits : (count : ℕ) → Safe (read_byte_bits count)
unfolding read_byte_bits
Safe-byte_bits count = Safe-require count _ (λ r h there. (Safe-top_bits 0 0 count).comes r h)

pub Safe-u8 : Safe read_u8
unfolding read_u8
Safe-u8 = Safe-byte_bits 8

pub Safe-many {ℓ} : {A : Type ℓ} {m : Read A} (count : ℕ) → Safe m → Safe (read_many m count)
unfolding read_many
Safe-many zero s = Safe-pure []
Safe-many (suc count) s =
    Safe-bind _ s (λ x. Safe-bind _ (Safe-many count s) (λ xs. Safe-pure (x ∷ xs)))

pub Safe-u32 : Safe read_u32
unfolding read_u32
Safe-u32 = Safe-bind _ (Safe-many 4 Safe-u8) (λ bytes. Safe-pure _)

pub Safe-u16 : Safe read_u16
unfolding read_u16
Safe-u16 = Safe-bind _ (Safe-many 2 Safe-u8) (λ bytes. Safe-pure _)

pub Safe-u64_le : Safe read_u64_le
unfolding read_u64_le
Safe-u64_le = Safe-bind _ (Safe-many 8 Safe-u8) (λ bytes. Safe-pure _)

Safe-le_loop :
    (fuel : ℕ) (out : List ℕ) (index remaining : ℕ) → Safe (read_le_loop fuel out index remaining)
unfolding read_le_loop
Safe-le_loop zero out index remaining = Safe-pure out
Safe-le_loop (suc fuel) out index remaining = Safe-if (remaining == 0) (Safe-pure out) (
    Safe-if (leb 8 remaining)
      (Safe-bind _ (Safe-byte_bits 8)
        (λ byte. Safe-le_loop fuel (set out index byte) (index + 1) (remaining - 8)))
      (Safe-bind _ (Safe-byte_bits remaining) (λ byte. Safe-pure _)))

pub Safe-bits_le : (bits : ℕ) → Safe (read_bits_le bits)
unfolding read_bits_le
Safe-bits_le bits = Safe-require bits _ (λ r h there.
    (Safe-bind _ (Safe-le_loop bits (0 ∷ 0 ∷ 0 ∷ 0 ∷ []) 0 bits) (λ out. Safe-pure _)).comes r h)

Safe-align_loop : (fuel : ℕ) → Safe (align_loop fuel)
unfolding align_loop
Safe-align_loop zero = record { comes = λ r h. h }
Safe-align_loop (suc fuel) = record {
  comes = λ r h. elim (Bool-cases (r.offset % 8 == 0)) [
    | inl aligned ↦ rw aligned h
    | inr between ↦ rw between ((Safe-bind _ Safe-bit (λ b. Safe-align_loop fuel)).comes r h)
  ];
}

pub Safe-aligned_bytes : (count : ℕ) → Safe (read_aligned_bytes count)
unfolding read_aligned_bytes align_to_byte
Safe-aligned_bytes count =
    Safe-bind _ (Safe-align_loop 7)
      (λ u. Safe-require (count * 8) _ (λ r h there. (Safe-many count Safe-u8).comes r h))

Safe-msb_loop : (out : List ℕ) (index left : ℕ) → Safe (read_msb_loop out index left)
unfolding read_msb_loop
Safe-msb_loop out index zero = Safe-pure out
Safe-msb_loop out index (suc left) = Safe-bind _ Safe-bit (λ b.
    Safe-msb_loop
      (if b
        then set out (index / 8) (bit_or (get_or out (index / 8) 0) (top_mask (index % 8)))
        else out)
      (index + 1) left)

pub Safe-bits_msb : (bits : ℕ) → Safe (read_bits_msb bits)
unfolding read_bits_msb
Safe-bits_msb bits = Safe-require bits _ (λ r h there. (Safe-msb_loop _ 0 bits).comes r h)

pub Safe-skip_bits : (bits : ℕ) → Safe (skip_bits bits)
unfolding skip_bits
Safe-skip_bits bits =
    Safe-require bits _ (λ r h there. record { within = omega arith; backed = h.backed })

pub Safe-compressed_u32 : Safe read_compressed_u32
unfolding read_compressed_u32
Safe-compressed_u32 = Safe-bind _ Safe-bit (λ large. Safe-bits_le (if large then 32 else 7))

Safe-text : (length : ℕ) → Safe (read_text length)
unfolding read_text
Safe-text length = Safe-require (length * 8) _ (λ r h there.
    (Safe-bind _ (Safe-many length Safe-u8)
        (λ bytes. Safe-if (is_utf8 bytes) (Safe-pure bytes) (Safe-fail _))).comes
      r h)

pub Safe-string : Safe read_string
unfolding read_string read_long_string
Safe-string = Safe-bind _ Safe-bit (λ present.
    Safe-if present
      (Safe-bind _ Safe-bit
        (λ large. Safe-if large (Safe-fail _) (Safe-bind _ Safe-u8 (λ n. Safe-text n))))
      (Safe-pure []))

pub Safe-optional_u32 : Safe read_optional_u32
unfolding read_optional_u32
Safe-optional_u32 =
    Safe-bind _ Safe-bit
      (λ present. Safe-if present (Safe-bind _ Safe-u32 (λ v. Safe-pure _)) (Safe-pure _))

pub Safe-packet_id : Safe read_packet_id
unfolding read_packet_id
Safe-packet_id = Safe-bind _ Safe-u8 (λ first.
    Safe-bind _
      (Safe-if (first == 0xff) (Safe-bind _ Safe-u8 (λ more. Safe-pure _)) (Safe-pure first))
      (λ wire. Safe-pure _))
