-- ===== src/ByteReader/Chains.antt =====
-- Reads of crates/skysaga-core/src/reader.rs that follow one another.
use sky_saga_rs.Common.{
  ℕ, suc, ◌+◌, ◌^◌, ◌<◌, ◌≤◌, ◌≡◌, refl, sym, ap, ◌∙◌, List, [], ◌∷◌, ◌++◌, append_assoc, length,
  length-append, take, ltb, false, arith,
}
use sky_saga_rs.Common.Integers.{ℤ, pos, negsuc, as_u32, IsI32, as_i32-as_u32}
use sky_saga_rs.Common.Text.{Text, as_bytes}
use sky_saga_rs.BitStream.Byte.{to_le_bytes}
use sky_saga_rs.FixedStr.{write}
use sky_saga_rs.FixedStr.Decoded.{AreChars}
use sky_saga_rs.FixedStr.RoundTrip.{read-write_short, length-write}
use sky_saga_rs.ByteReader.{
  ByteReader, ReadResult, done, remaining, bytes, array, i32_le, fixed_str, and_then,
}
use sky_saga_rs.ByteReader.Words.{drop-append, from_le_bytes-to_le_bytes}

-- The reader that has read `pre`, with `rest` to read.
abbrev pub behind : List ℕ → List ℕ → ByteReader
behind pre rest = record { packet = pre ++ rest; offset = length pre }

-- Wherever the bytes stand, the read gives the value, and moves behind them.
unfoldable pub Reads {ℓ} :
    {A : Type ℓ} → (ByteReader → ReadResult A × ByteReader) → List ℕ → A → Type ℓ
Reads f here a =
    (pre rest : List ℕ) → f (behind pre (here ++ rest)) ≡ (done a, behind (pre ++ here) rest)

take-here : (here rest : List ℕ) → take (length here) (here ++ rest) ≡ here
take-here [] rest = refl
take-here (b ∷ bs) rest = ap (λ more. b ∷ more) (take-here bs rest)

moved :
    (pre here rest : List ℕ)
    → record (behind pre (here ++ rest)) { offset = length pre + length here }
      ≡ behind (pre ++ here) rest
moved pre here rest = let all = length-append pre here in rw (all, append_assoc pre here rest) refl

pub bytes-Reads : (here : List ℕ) → Reads (bytes (length here)) here here
unfolding bytes Reads
bytes-Reads here pre rest =
    let whole = length-append pre (here ++ rest) in
    let part = length-append here rest in
    let there : ltb (remaining (behind pre (here ++ rest))) (length here) ≡ false =
      ground (arith, whole, part) in
    rw (there, drop-append pre (here ++ rest), take-here here rest)
      (ap (λ r. (done here, r)) (moved pre here rest))

-- Reads one after the other.
pub Reads-and_then {ℓ κ} :
    {A : Type ℓ} {B : Type κ} (f : ByteReader → ReadResult A × ByteReader)
    (k : A → ByteReader → ReadResult B × ByteReader) (here more : List ℕ) (a : A) (b : B)
    → Reads f here a
    → Reads (k a) more b
    → Reads (λ r. and_then (f r) k) (here ++ more) b
unfolding Reads
Reads-and_then f k here more a b h g pre rest =
    rw (append_assoc here more rest, h pre (more ++ rest), g (pre ++ here) rest)
      (ap (λ all. (done b, behind all rest)) (append_assoc pre here more))

as_u32-bound : (z : ℤ) → as_u32 z < 2 ^ 32
as_u32-bound (pos n) = omega arith
as_u32-bound (negsuc n) = omega arith

-- The last of a chain of reads.
pub Reads-last {ℓ κ} :
    {A : Type ℓ} {B : Type κ} (f : ByteReader → ReadResult A × ByteReader) (g : A → B)
    (here : List ℕ) (a : A)
    → Reads f here a
    → Reads (λ r. and_then (f r) (λ x. λ r. (done (g x), r))) here (g a)
unfolding Reads
Reads-last f g here a h pre rest = rw (h pre rest) refl

pub i32_le-Reads : (z : ℤ) → IsI32 z → Reads i32_le (to_le_bytes (as_u32 z)) z
unfolding i32_le array Reads to_le_bytes
i32_le-Reads z h pre rest =
    let there : bytes 4 (behind pre (to_le_bytes (as_u32 z) ++ rest))
        ≡ (done (to_le_bytes (as_u32 z)), behind (pre ++ to_le_bytes (as_u32 z)) rest) =
      bytes-Reads (to_le_bytes (as_u32 z)) pre rest in
    rw (there, from_le_bytes-to_le_bytes (as_u32 z) (as_u32-bound z), as_i32-as_u32 z h) refl

pub fixed_str-Reads :
    (capacity : ℕ) (t : Text)
    → AreChars t
    → length (as_bytes t) ≤ capacity
    → Reads (fixed_str (suc capacity)) (write (suc capacity) t) t
unfolding fixed_str Reads
fixed_str-Reads capacity t h g pre rest =
    let field = write (suc capacity) t in
    let there : bytes (suc capacity) (behind pre (field ++ rest))
        ≡ (done field, behind (pre ++ field) rest) =
      ap (λ n. bytes n (behind pre (field ++ rest))) (sym (length-write capacity t))
      ∙ bytes-Reads field pre rest in
    rw (there, read-write_short capacity t h g) refl
