-- ===== src/BitStream/Byte/Words.antt =====
-- The wire form of a word: its bits from the top down, or its bytes from the lowest up.
use sky_saga_rs.Common.{
  ℕ, zero, suc, ◌+◌, ◌*◌, ◌/◌, ◌%◌, ◌^◌, ◌<◌, Bool, ◌≡◌, refl, ap, List, [], ◌++◌, append-nil,
  arith,
}
use native.Mathlib.Nat.{pow-suc, div-div-eq-div-mul}
use sky_saga_rs.BitStream.Byte.Tables.{msb_bits}

-- `q` whole bytes from the lowest up, and then the low `t` bits of what is left.
unfoldable pub le_groups : ℕ → ℕ → ℕ → List Bool
le_groups zero t v = msb_bits t v
le_groups (suc q) t v = msb_bits 8 v ++ le_groups q t (v / 256)

-- A field of `n` bits as `write_bits_le` lays it out.
unfoldable pub le_bits : ℕ → ℕ → List Bool
unfolding le_groups
le_bits n v = le_groups (n / 8) (n % 8) v

low_bit : (n v : ℕ) → n < 8 → v % 256 / 2 ^ n % 2 ≡ v / 2 ^ n % 2
low_bit zero v h = omega arith
low_bit (suc zero) v h = omega arith
low_bit (suc (suc zero)) v h = omega arith
low_bit (suc (suc (suc zero))) v h = omega arith
low_bit (suc (suc (suc (suc zero)))) v h = omega arith
low_bit (suc (suc (suc (suc (suc zero))))) v h = omega arith
low_bit (suc (suc (suc (suc (suc (suc zero)))))) v h = omega arith
low_bit (suc (suc (suc (suc (suc (suc (suc zero))))))) v h = omega arith
low_bit (suc (suc (suc (suc (suc (suc (suc (suc n)))))))) v h = absurd (omega arith)

-- Bits below the ninth do not see what `% 256` takes away.
pub msb_bits-byte : (n v : ℕ) → n < 9 → msb_bits n (v % 256) ≡ msb_bits n v
unfolding msb_bits
msb_bits-byte zero v h = refl
msb_bits-byte (suc n) v h = rw (low_bit n v (omega arith), msb_bits-byte n v (omega arith))

pub pow_add : (m n k : ℕ) → k ≡ m + n → 2 ^ k ≡ 2 ^ n * 2 ^ m
pow_add zero n k h = let same : k ≡ n = omega arith in rw same (omega arith)
pow_add (suc m) n zero h = absurd (omega arith)
pow_add (suc m) n (suc k) h = omega (
  arith,
  pow-suc 2 k,
  pow-suc 2 m,
  ap (λ (t : ℕ). t * 2) (pow_add m n k (omega arith)),
  ap (λ (t : ℕ). 2 ^ n * t) (pow-suc 2 m),
)

-- The range of `q` bytes and `t` bits.
pub pow_bytes : (q t n : ℕ) → n ≡ 8 * q + t → 2 ^ n ≡ 256 ^ q * 2 ^ t
pow_bytes zero t n h = let same : n ≡ t = omega arith in rw same (omega arith)
pow_bytes (suc q) t n h = omega (
  arith,
  pow_add 8 (8 * q + t) n (omega arith),
  pow_bytes q t (8 * q + t) refl,
  ap (λ (x : ℕ). x * 2 ^ t) (pow-suc 256 q),
)

-- The bits of a number are those of its upper part and then those of its lower part.
msb_bits-split : (m n k v : ℕ) → k ≡ m + n → msb_bits k v ≡ msb_bits m (v / 2 ^ n) ++ msb_bits n v
unfolding msb_bits
msb_bits-split zero n k v h = ap (λ t. msb_bits t v) (omega arith)
msb_bits-split (suc m) n zero v h = absurd (omega arith)
msb_bits-split (suc m) n (suc k) v h = rw (
  div-div-eq-div-mul v (2 ^ n) (2 ^ m),
  ← pow_add m n k (omega arith),
  msb_bits-split m n k v (omega arith),
)

-- The bytes of a word, highest first, are its bits from the top down.
pub msb_bits-to_be_bytes :
    (v : ℕ)
    → msb_bits 8 (v / 2 ^ 24 % 256)
        ++ (msb_bits 8 (v / 2 ^ 16 % 256)
            ++ (msb_bits 8 (v / 2 ^ 8 % 256) ++ (msb_bits 8 (v % 256) ++ [])))
      ≡ msb_bits 32 v
msb_bits-to_be_bytes v = rw (
  msb_bits-byte 8 (v / 2 ^ 24) (omega arith),
  msb_bits-byte 8 (v / 2 ^ 16) (omega arith),
  msb_bits-byte 8 (v / 2 ^ 8) (omega arith),
  msb_bits-byte 8 v (omega arith),
  append-nil (msb_bits 8 v),
  ← msb_bits-split 8 8 16 v refl,
  ← msb_bits-split 8 16 24 v refl,
  ← msb_bits-split 8 24 32 v refl,
)

pub msb_bits-to_be_bytes_u16 :
    (v : ℕ) → msb_bits 8 (v / 2 ^ 8 % 256) ++ (msb_bits 8 (v % 256) ++ []) ≡ msb_bits 16 v
msb_bits-to_be_bytes_u16 v = rw (
  msb_bits-byte 8 (v / 2 ^ 8) (omega arith),
  msb_bits-byte 8 v (omega arith),
  append-nil (msb_bits 8 v),
  ← msb_bits-split 8 8 16 v refl,
)
