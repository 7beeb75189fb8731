-- ===== src/ByteReader/Words.antt =====
-- Words read back from a packet.
use sky_saga_rs.Common.{
  ℕ, ◌+◌, ◌^◌, ◌<◌, ◌≤◌, ◌≡◌, refl, inl, inr, List, [], ◌∷◌, ◌++◌, length, drop, length-append, ltb,
  false, Bool-cases, arith,
}
use sky_saga_rs.BitStream.Byte.{to_le_bytes, from_le_bytes}
use sky_saga_rs.ByteReader.{ByteReader, ReaderError, done, failed, remaining, bytes, array, u32_le}

pub drop-append : (pre rest : List ℕ) → drop (length pre) (pre ++ rest) ≡ rest
drop-append [] rest = refl
drop-append (b ∷ pre) rest = drop-append pre rest

pub from_le_bytes-to_le_bytes : (v : ℕ) → v < 2 ^ 32 → from_le_bytes (to_le_bytes v) ≡ v
unfolding from_le_bytes to_le_bytes
from_le_bytes-to_le_bytes v h = omega arith

-- The reader of bytes that others stand before and after, at their start.
abbrev pub between : List ℕ → List ℕ → List ℕ → ByteReader
between pre here rest = record { packet = pre ++ (here ++ rest); offset = length pre }

not_short :
    (v : ℕ) (pre rest : List ℕ) → ltb (remaining (between pre (to_le_bytes v) rest)) 4 ≡ false
unfolding to_le_bytes
not_short v pre rest =
    let all = length-append pre (to_le_bytes v ++ rest) in
    let four : length (to_le_bytes v ++ rest) ≡ 4 + length rest = omega arith in
    ground (arith, all, four)

bytes-to_le_bytes :
    (v : ℕ) (pre rest : List ℕ)
    → bytes 4 (between pre (to_le_bytes v) rest) ≡ (
      done (to_le_bytes v),
      record (between pre (to_le_bytes v) rest) { offset = length pre + 4 },
    )
unfolding bytes to_le_bytes
bytes-to_le_bytes v pre rest =
    let there : ltb (remaining (between pre (to_le_bytes v) rest)) 4 ≡ false =
      not_short v pre rest in
    rw (there, drop-append pre (to_le_bytes v ++ rest)) refl

-- A u32 of four bytes, the lowest first, is read back wherever it stands in a packet, and the cursor
-- moves behind it.
pub u32_le-to_le_bytes :
    (v : ℕ) (pre rest : List ℕ)
    → v < 2 ^ 32
    → u32_le (between pre (to_le_bytes v) rest)
      ≡ (done v, record (between pre (to_le_bytes v) rest) { offset = length pre + 4 })
unfolding u32_le array
u32_le-to_le_bytes v pre rest h =
    rw (bytes-to_le_bytes v pre rest, from_le_bytes-to_le_bytes v h) refl

-- No read of any number of bytes takes the cursor past the end or changes the packet, and one that
-- fails leaves the cursor where it was.
pub bytes-within :
    (n : ℕ) (r : ByteReader)
    → r.offset ≤ length r.packet
    → ((bytes n r).1.offset ≤ length r.packet)
      × ((bytes n r).1.packet ≡ r.packet)
      × ((e : ReaderError) → (bytes n r).0 ≡ failed e → (bytes n r).1.offset ≡ r.offset)
unfolding bytes
bytes-within n r h = elim (Bool-cases (ltb (remaining r) n)) [
  | inl short ↦ rw short (h, refl, λ e f. refl)
  | inr enough ↦ rw enough (ground arith, refl, λ e f. cc)
]
