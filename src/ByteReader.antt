-- ===== src/ByteReader.antt =====
-- crates/skysaga-core/src/reader.rs: a cursor over the bytes of an untrusted peer's packet.
pub mod Words
pub mod Chains
pub mod Tests
use sky_saga_rs.Common.{
  ℕ, ◌+◌, ◌-◌, Bool, true, false, List, [], ◌∷◌, length, get_or, take, drop, ltb, ◌==◌,
  if◌then◌else◌,
}
use sky_saga_rs.Common.Integers.{ℤ, as_i32}
use sky_saga_rs.Common.Text.{Text}
use sky_saga_rs.BitStream.Byte.{from_le_bytes}
use sky_saga_rs.FixedStr.{read}

pub data ReaderError : Type 0 where
  too_short : (offset wanted available : ℕ) → ReaderError

pub data ReadResult {ℓ} (A : Type ℓ) : Type ℓ where
  done : A → ReadResult A
  failed : ReaderError → ReadResult A

-- `Reader`, whose `data` is `packet` here, since the word is reserved.
pub record ByteReader : Type 0 where
  pub packet : List ℕ
  pub offset : ℕ

-- `Reader::new`
abbrev pub over : List ℕ → ByteReader
over packet = record { packet = packet; offset = 0 }

abbrev pub remaining : ByteReader → ℕ
remaining r = length r.packet - r.offset

unfoldable pub is_empty : ByteReader → Bool
is_empty r = remaining r == 0

unfoldable pub bytes : ℕ → ByteReader → ReadResult (List ℕ) × ByteReader
bytes n r =
    if ltb (remaining r) n
    then (failed (too_short r.offset n (remaining r)), r)
    else (done (take n (drop r.offset r.packet)), record r { offset = r.offset + n })

-- What is made of the bytes of a read that has not failed.
abbrev pub made_of {ℓ} :
    {A : Type ℓ} → (List ℕ → A) → ReadResult (List ℕ) × ByteReader → ReadResult A × ByteReader
made_of f (done bs, after) = (done (f bs), after)
made_of f (failed e, after) = (failed e, after)

unfoldable pub array {ℓ} : {A : Type ℓ} → ℕ → (List ℕ → A) → ByteReader → ReadResult A × ByteReader
array n f r = made_of f (bytes n r)

unfoldable pub u8 : ByteReader → ReadResult ℕ × ByteReader
unfolding array
u8 = array 1 (λ bs. get_or bs 0 0)

unfoldable pub u16_le : ByteReader → ReadResult ℕ × ByteReader
unfolding array
u16_le = array 2 from_le_bytes

unfoldable pub u32_le : ByteReader → ReadResult ℕ × ByteReader
unfolding array
u32_le = array 4 from_le_bytes

unfoldable pub i32_le : ByteReader → ReadResult ℤ × ByteReader
unfolding array
i32_le = array 4 (λ bs. as_i32 (from_le_bytes bs))

-- A field of `n` bytes, filled up with NULs.
unfoldable pub fixed_str : ℕ → ByteReader → ReadResult Text × ByteReader
fixed_str n r = made_of read (bytes n r)

-- `?`: what follows a read that has not failed.
abbrev pub and_then {ℓ κ} :
    {A : Type ℓ} {B : Type κ}
    → ReadResult A × ByteReader
    → (A → ByteReader → ReadResult B × ByteReader)
    → ReadResult B × ByteReader
and_then (done a, after) k = k a after
and_then (failed e, after) k = (failed e, after)
