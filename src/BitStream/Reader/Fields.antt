-- ===== src/BitStream/Reader/Fields.antt =====
-- The fields that packets are made of: what each read takes off the stream.
use native.Mathlib.Nat.{pow-suc, pow-le-pow_right, le_trans}
use sky_saga_rs.Common.{
  ℕ, zero, suc, ◌+◌, ◌-◌, ◌*◌, ◌/◌, ◌%◌, ◌^◌, ◌≤◌, ◌<◌, Bool, true, false, ◌≡◌, refl, ap, subst,
  ◌∙◌, inl, inr, List, [], ◌∷◌, append-nil, length-append, Option, none, some, length, set, ltb,
  leb, ◌==◌, Bool-cases, arith,
}
use sky_saga_rs.BitStream.Byte.{from_le_bytes, from_be_bytes}
use sky_saga_rs.BitStream.Byte.Tables.{msb_bits, or_bits-msb_bits}
use sky_saga_rs.BitStream.Byte.Words.{
  le_groups, le_bits, msb_bits-byte, pow_bytes, msb_bits-to_be_bytes, msb_bits-to_be_bytes_u16,
}
use sky_saga_rs.BitStream.Utf8.{is_utf8}
use sky_saga_rs.BitStream.Writer.Contents.{IsBytes}
use sky_saga_rs.BitStream.Writer.Fields.{
  compressed_bits, optional_bits, packet_id_bits, bytes_bits, string_bits,
}
use sky_saga_rs.BitStream.Reader.{
  Read, ◌>>=◌, pure, read_byte_bits, read_u8, read_many, read_u32, read_u16, read_le_loop,
  read_bits_le, read_compressed_u32, read_text, read_long_string, read_string, read_optional_u32,
  read_packet_id,
}
use sky_saga_rs.BitStream.Reader.Decodes.{
  Decodes, Decodes-pure, Decodes-bind, Decodes-require, Decodes-bit, Decodes-byte_bits, Decodes-u8,
  length-msb_bits,
}

pub Decodes-bits {ℓ} :
    {A : Type ℓ} {m : Read A} {xs ys : List Bool} {v : A}
    → xs ≡ ys
    → Decodes m xs v
    → Decodes m ys v
Decodes-bits {m = m} {v = v} e a = subst (λ zs. Decodes m zs v) e a

pub Decodes-value {ℓ} :
    {A : Type ℓ} {m : Read A} {xs : List Bool} {u v : A} → u ≡ v → Decodes m xs u → Decodes m xs v
Decodes-value {m = m} {xs = xs} e a = subst (Decodes m xs) e a

-- `f` is the last step: it takes nothing more off the stream.
pub Decodes-map {ℓ κ} :
    {A : Type ℓ} {B : Type κ} {m : Read A} (f : A → B) {xs : List Bool} {v : A}
    → Decodes m xs v
    → Decodes (m >>= λ x. pure (f x)) xs (f v)
Decodes-map f {xs = xs} {v = v} a =
    Decodes-bits (append-nil xs) (Decodes-bind (λ x. pure (f x)) a (Decodes-pure (f v)))

pub Decodes-bytes :
    (bytes : List ℕ)
    → IsBytes bytes
    → Decodes (read_many read_u8 (length bytes)) (bytes_bits bytes) bytes
unfolding read_many bytes_bits
Decodes-bytes [] h = Decodes-pure []
Decodes-bytes (b ∷ bs) h =
    Decodes-bind _ (Decodes-u8 b h.0) (Decodes-map (λ xs. b ∷ xs) (Decodes-bytes bs h.1))

pub Decodes-u32 : (v : ℕ) → v < 2 ^ 32 → Decodes read_u32 (msb_bits 32 v) v
unfolding read_u32 from_be_bytes bytes_bits
Decodes-u32 v h = Decodes-bits (msb_bits-to_be_bytes v) (
    Decodes-value (omega arith) (
      Decodes-map (from_be_bytes 0) (
        Decodes-bytes (v / 2 ^ 24 % 256 ∷ v / 2 ^ 16 % 256 ∷ v / 2 ^ 8 % 256 ∷ v % 256 ∷ [])
          (omega arith))))

pub Decodes-u16 : (v : ℕ) → v < 2 ^ 16 → Decodes read_u16 (msb_bits 16 v) v
unfolding read_u16 from_be_bytes bytes_bits
Decodes-u16 v h = Decodes-bits (msb_bits-to_be_bytes_u16 v) (
    Decodes-value (omega arith) (
      Decodes-map (from_be_bytes 0) (Decodes-bytes (v / 2 ^ 8 % 256 ∷ v % 256 ∷ []) (omega arith))))

-- The bytes that the loop of `read_bits_le` stores for `q` whole bytes and `t` bits of `v`.
stored : ℕ → ℕ → ℕ → List ℕ → ℕ → List ℕ
stored zero zero v out index = out
stored zero (suc t) v out index = set out index v
stored (suc q) t v out index = stored q t (v / 256) (set out index (v % 256)) (index + 1)

le_loop_done : (fuel : ℕ) (out : List ℕ) (index : ℕ) → read_le_loop fuel out index 0 ≡ pure out
unfolding read_le_loop
le_loop_done zero out index = refl
le_loop_done (suc fuel) out index = refl

module _ (fuel : ℕ) (out : List ℕ) (index remaining : ℕ) where
  le_loop_whole :
      (remaining == 0) ≡ false
      → leb 8 remaining ≡ true
      → read_le_loop (suc fuel) out index remaining ≡ (
          read_byte_bits 8 >>= λ byte.
          read_le_loop fuel (set out index byte) (index + 1) (remaining - 8))
  unfolding read_le_loop
  le_loop_whole more whole = rw (more, whole)

  le_loop_part :
      (remaining == 0) ≡ false
      → leb 8 remaining ≡ false
      → read_le_loop (suc fuel) out index remaining
        ≡ (read_byte_bits remaining >>= λ byte. pure (set out index (byte / 2 ^ (8 - remaining))))
  unfolding read_le_loop
  le_loop_part more part = rw (more, part)

Decodes-byte : (v : ℕ) → Decodes (read_byte_bits 8) (msb_bits 8 v) (v % 256)
Decodes-byte v = Decodes-bits (msb_bits-byte 8 v (omega arith)) (
    Decodes-value
      (omega (arith, or_bits-msb_bits (v % 256) 8 (omega arith) (omega arith) (omega arith)))
      (Decodes-byte_bits 8 (msb_bits 8 (v % 256)) (length-msb_bits 8 (v % 256))))

pow_two_lt : (t : ℕ) → t < 8 → 2 ^ t ≤ 128
pow_two_lt t h =
    le_trans (pow-le-pow_right {n = 2} (omega arith) {i = t} {j = 7} (omega arith)) (omega arith)

pow_split : (q t v : ℕ) → v < 256 ^ suc q * 2 ^ t → v / 256 < 256 ^ q * 2 ^ t
pow_split q t v h = omega (arith, ap (λ (x : ℕ). x * 2 ^ t) (pow-suc 256 q))

Decodes-le_loop :
    (q t fuel remaining index v : ℕ) (out : List ℕ)
    → t < 8
    → v < 256 ^ q * 2 ^ t
    → remaining ≡ 8 * q + t
    → remaining ≤ fuel
    → Decodes (read_le_loop fuel out index remaining) (le_groups q t v) (stored q t v out index)
unfolding le_groups stored
Decodes-le_loop zero zero fuel remaining index v out ht hv e hf =
    let none_left : remaining ≡ 0 = omega arith in
    rw (none_left, le_loop_done fuel out index) (unfold msb_bits in Decodes-pure out)
Decodes-le_loop zero (suc t) zero remaining index v out ht hv e hf = absurd (omega arith)
Decodes-le_loop zero (suc t) (suc fuel) remaining index v out ht hv e hf =
    let part : remaining ≡ suc t = omega arith in
    rw (part, le_loop_part fuel out index (suc t) (ground arith) (ground arith))
      (Decodes-value
        (ap (set out index) (
          or_bits-msb_bits v (suc t) (omega arith) (omega (arith, pow_two_lt (suc t) ht))
            (omega arith)))
        (Decodes-map (λ byte. set out index (byte / 2 ^ (8 - suc t)))
          (Decodes-byte_bits (suc t) (msb_bits (suc t) v) (length-msb_bits (suc t) v))))
Decodes-le_loop (suc q) t zero remaining index v out ht hv e hf = absurd (omega arith)
Decodes-le_loop (suc q) t (suc fuel) remaining index v out ht hv e hf =
    rw (le_loop_whole fuel out index remaining (ground arith) (ground arith)) (
      Decodes-bind _ (Decodes-byte v) (
        Decodes-le_loop q t fuel (remaining - 8) (index + 1) (v / 256) (set out index (v % 256)) ht
          (pow_split q t v hv) (omega arith) (omega arith)))

-- The four bytes stand for the number again.
from_le_bytes-stored :
    (q t v : ℕ)
    → t < 8
    → 8 * q + t ≤ 32
    → v < 256 ^ q * 2 ^ t
    → from_le_bytes (stored q t v (0 ∷ 0 ∷ 0 ∷ 0 ∷ []) 0) ≡ v
unfolding stored from_le_bytes
from_le_bytes-stored zero zero v ht h hv = omega arith
from_le_bytes-stored zero (suc t) v ht h hv = omega arith
from_le_bytes-stored (suc zero) zero v ht h hv = omega arith
from_le_bytes-stored (suc zero) (suc t) v ht h hv = omega arith
from_le_bytes-stored (suc (suc zero)) zero v ht h hv = omega arith
from_le_bytes-stored (suc (suc zero)) (suc t) v ht h hv = omega arith
from_le_bytes-stored (suc (suc (suc zero))) zero v ht h hv = omega arith
from_le_bytes-stored (suc (suc (suc zero))) (suc t) v ht h hv = omega arith
from_le_bytes-stored (suc (suc (suc (suc zero)))) zero v ht h hv = omega arith
from_le_bytes-stored (suc (suc (suc (suc zero)))) (suc t) v ht h hv = absurd (omega arith)
from_le_bytes-stored (suc (suc (suc (suc (suc q))))) t v ht h hv = absurd (omega arith)

length-le_groups : (q t v : ℕ) → length (le_groups q t v) ≡ 8 * q + t
unfolding le_groups
length-le_groups zero t v = length-msb_bits t v ∙ omega arith
length-le_groups (suc q) t v =
    length-append (msb_bits 8 v) (le_groups q t (v / 256))
    ∙ omega (arith, length-msb_bits 8 v, length-le_groups q t (v / 256))

-- A number of `n` bits comes back from `n` bits, also where `n` is no whole number of bytes.
pub Decodes-bits_le : (v n : ℕ) → n ≤ 32 → v < 2 ^ n → Decodes (read_bits_le n) (le_bits n v) v
unfolding read_bits_le le_bits
Decodes-bits_le v n h hv =
    let fits : v < 256 ^ (n / 8) * 2 ^ (n % 8) =
      omega (arith, pow_bytes (n / 8) (n % 8) n (omega arith)) in
    Decodes-require n (omega (arith, length-le_groups (n / 8) (n % 8) v)) (
      Decodes-value (from_le_bytes-stored (n / 8) (n % 8) v (omega arith) (omega arith) fits) (
        Decodes-map from_le_bytes (
          Decodes-le_loop (n / 8) (n % 8) n n 0 v (0 ∷ 0 ∷ 0 ∷ 0 ∷ []) (omega arith) fits
            (omega arith) (omega arith))))

pub Decodes-compressed_u32 :
    (v : ℕ) → v < 2 ^ 32 → Decodes read_compressed_u32 (compressed_bits v) v
unfolding read_compressed_u32 compressed_bits
Decodes-compressed_u32 v h = elim (Bool-cases (ltb v 0x80)) [
  | inl e ↦
      rw e (Decodes-bind _ (Decodes-bit false) (Decodes-bits_le v 7 (omega arith) (ground arith)))
  | inr e ↦
      rw e (Decodes-bind _ (Decodes-bit true) (Decodes-bits_le v 32 (omega arith) (omega arith)))
]

-- The value of an optional field is a u32.
abbrev pub IsOptionalU32 : Option ℕ → Type 0
IsOptionalU32 none = Unit {0}
IsOptionalU32 (some v) = v < 2 ^ 32

pub Decodes-optional_u32 :
    (o : Option ℕ) → IsOptionalU32 o → Decodes read_optional_u32 (optional_bits o) o
unfolding read_optional_u32 optional_bits
Decodes-optional_u32 none h = Decodes-bind _ (Decodes-bit false) (Decodes-pure none)
Decodes-optional_u32 (some v) h =
    Decodes-bind _ (Decodes-bit true) (Decodes-map (λ x. some x) (Decodes-u32 v h))

pub Decodes-packet_id : (id : ℕ) → id + 134 < 511 → Decodes read_packet_id (packet_id_bits id) id
unfolding read_packet_id packet_id_bits
Decodes-packet_id id h = elim (Bool-cases (leb 255 (id + 134))) [
  | inl e ↦
      let x : ℕ = id + 134 - 255 in
      rw e (
        Decodes-bind _ (Decodes-u8 0xff (omega arith)) (
          Decodes-value (ground arith) (
            Decodes-map (λ wire. wire - 134)
              (Decodes-map (λ more. 255 + more) (Decodes-u8 x (omega arith))))))
  | inr e ↦
      let plain : (id + 134 == 0xff) ≡ false = ground arith in
      rw e (
        Decodes-bits (append-nil (msb_bits 8 (id + 134))) (
          Decodes-bind _ (Decodes-u8 (id + 134) (ground arith)) (
            rw plain (
              Decodes-value (omega arith)
                (Decodes-map (λ wire. wire - 134) (Decodes-pure (id + 134)))))))
]

length-bytes_bits : (bytes : List ℕ) → length (bytes_bits bytes) ≡ length bytes * 8
unfolding bytes_bits
length-bytes_bits [] = refl
length-bytes_bits (b ∷ bs) =
    length-append (msb_bits 8 b) (bytes_bits bs)
    ∙ omega (arith, length-msb_bits 8 b, length-bytes_bits bs)

pub Decodes-text :
    (bytes : List ℕ)
    → IsBytes bytes
    → is_utf8 bytes ≡ true
    → Decodes (read_text (length bytes)) (bytes_bits bytes) bytes
unfolding read_text
Decodes-text bytes h valid =
    Decodes-require (length bytes * 8) (omega (arith, length-bytes_bits bytes)) (
      Decodes-bits (append-nil (bytes_bits bytes))
        (Decodes-bind _ (Decodes-bytes bytes h) (rw valid (Decodes-pure bytes))))

-- A string of valid UTF-8 comes back where its length fits one byte and is not 255.
pub Decodes-string :
    (bytes : List ℕ)
    → IsBytes bytes
    → length bytes < 255
    → is_utf8 bytes ≡ true
    → Decodes read_string (string_bits bytes) bytes
unfolding read_string read_long_string string_bits
Decodes-string [] h l valid = Decodes-bind _ (Decodes-bit false) (Decodes-pure [])
Decodes-string (b ∷ bs) h l valid =
    let short : ltb (length (b ∷ bs)) 255 ≡ true = ground arith in
    rw short (
      Decodes-bind _ (Decodes-bit true) (
        Decodes-bind _ (Decodes-bit false) (
          Decodes-bind _ (Decodes-u8 (length (b ∷ bs)) (omega arith))
            (Decodes-text (b ∷ bs) h valid))))
