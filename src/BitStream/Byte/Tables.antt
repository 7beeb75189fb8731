-- ===== src/BitStream/Byte/Tables.antt =====
-- Facts about the bits of one byte, each checked at every byte.
use sky_saga_rs.Common.{
  ℕ, zero, suc, ◌+◌, ◌-◌, ◌*◌, ◌/◌, ◌%◌, ◌^◌, ◌<◌, bit_or, Bool, true, false, not, ◌&&◌, ◌||◌, ◌≡◌,
  refl, List, [], ◌∷◌, ltb, leb, ◌==◌, if◌then◌else◌, tried, tried-at, arith,
}
use sky_saga_rs.BitStream.Byte.{top_mask, has_bit}

-- The `n` low bits of a number, most significant first: the order in which they go on the wire.
unfoldable pub msb_bits : ℕ → ℕ → List Bool
msb_bits zero v = []
msb_bits (suc n) v = (v / 2 ^ n % 2 == 1) ∷ msb_bits n v

-- The bits that `write_byte_bits` takes from a byte.
unfoldable pub top_bits : ℕ → ℕ → ℕ → List Bool
unfolding has_bit
top_bits byte index zero = []
top_bits byte index (suc count) = has_bit byte index ∷ top_bits byte (index + 1) count

-- The byte that `read_byte_bits` builds from them.
unfoldable pub or_bits : ℕ → ℕ → List Bool → ℕ
or_bits byte index [] = byte
or_bits byte index (b ∷ bs) =
    or_bits (if b then bit_or byte (top_mask index) else byte) (index + 1) bs

abbrev same : Bool → Bool → Bool
same true b = b
same false b = not b

abbrev same_all : List Bool → List Bool → Bool
same_all [] [] = true
same_all (x ∷ xs) (y ∷ ys) = same x y && same_all xs ys
same_all _ _ = false

same→eq : (x y : Bool) → same x y ≡ true → x ≡ y
same→eq x y h = ground arith

same_all→eq : (xs ys : List Bool) → same_all xs ys ≡ true → xs ≡ ys
same_all→eq [] [] h = refl
same_all→eq [] (y ∷ ys) h = cc
same_all→eq (x ∷ xs) [] h = cc
same_all→eq (x ∷ xs) (y ∷ ys) h = ground (arith, same_all→eq xs ys)

-- A test over a byte and a number below 9.
abbrev byte_table : (ℕ → ℕ → Bool) → Bool
byte_table p = tried 9 (λ n. tried 256 (λ v. p v n))

and_right : (x y : Bool) → (x && y) ≡ true → y ≡ true
and_right x y h = ground arith

-- The value, where the guard of the test fails.
or_small :
    (v n : ℕ)
    → v < 2 ^ n
    → (leb (2 ^ n) v || or_bits 0 0 (msb_bits n v) / 2 ^ (8 - n) == v) ≡ true
    → or_bits 0 0 (msb_bits n v) / 2 ^ (8 - n) ≡ v
or_small v n h e = ground arith

byte_table_sound :
    (p : ℕ → ℕ → Bool) (v n : ℕ) → byte_table p ≡ true → v < 256 → n < 9 → p v n ≡ true
byte_table_sound p v n h hv hn =
    tried-at 256 (λ v. p v n) v (tried-at 9 (λ n. tried 256 (λ v. p v n)) n h hn) hv

or_mask_test : ℕ → ℕ → Bool
unfolding has_bit tried
or_mask_test v n =
    ltb (bit_or v (top_mask n)) 256
    && tried 8 (λ j. same (has_bit (bit_or v (top_mask n)) j) (j == n || has_bit v j))

or_mask_table : byte_table or_mask_test ≡ true
unfolding or_mask_test
or_mask_table = refl

-- Setting a bit of a byte gives a byte, and changes that bit alone.
pub bit_or-top_mask-lt : (v n : ℕ) → v < 256 → n < 9 → bit_or v (top_mask n) < 256
unfolding or_mask_test
bit_or-top_mask-lt v n hv hn = ground (arith, byte_table_sound or_mask_test v n or_mask_table hv hn)

pub has_bit-bit_or :
    (v n j : ℕ)
    → v < 256
    → n < 9
    → j < 8
    → has_bit (bit_or v (top_mask n)) j ≡ (j == n || has_bit v j)
unfolding or_mask_test
has_bit-bit_or v n j hv hn hj =
    same→eq _ _
      (tried-at 8 (λ j. same (has_bit (bit_or v (top_mask n)) j) (j == n || has_bit v j)) j bits hj)
  where
    whole : or_mask_test v n ≡ true
    whole = byte_table_sound or_mask_test v n or_mask_table hv hn

    bits : tried 8 (λ j. same (has_bit (bit_or v (top_mask n)) j) (j == n || has_bit v j)) ≡ true
    bits =
        and_right (ltb (bit_or v (top_mask n)) 256)
          (tried 8 (λ j. same (has_bit (bit_or v (top_mask n)) j) (j == n || has_bit v j))) whole

zero_table : tried 8 (λ j. not (has_bit 0 j)) ≡ true
unfolding has_bit tried
zero_table = refl

pub has_bit-zero : (j : ℕ) → j < 8 → has_bit 0 j ≡ false
has_bit-zero j h = ground (arith, tried-at 8 (λ j. not (has_bit 0 j)) j zero_table h)

shifted_test : ℕ → ℕ → Bool
unfolding top_bits msb_bits
shifted_test v n = same_all (top_bits (v * 2 ^ (8 - n) % 256) 0 n) (msb_bits n v)

shifted_table : byte_table shifted_test ≡ true
unfolding shifted_test tried
shifted_table = refl

-- `write_byte_bits (byte << (8 - n)) n` takes the n low bits of the byte.
pub top_bits-msb_bits :
    (v n : ℕ) → v < 256 → n < 9 → top_bits (v * 2 ^ (8 - n) % 256) 0 n ≡ msb_bits n v
top_bits-msb_bits v n hv hn =
    same_all→eq _ _ (unfold shifted_test in byte_table_sound shifted_test v n shifted_table hv hn)

or_bits_test : ℕ → ℕ → Bool
unfolding or_bits msb_bits
or_bits_test v n = leb (2 ^ n) v || or_bits 0 0 (msb_bits n v) / 2 ^ (8 - n) == v

or_bits_table : byte_table or_bits_test ≡ true
unfolding or_bits_test tried
or_bits_table = refl

-- `read_byte_bits n >> (8 - n)` gives back a number of n bits.
pub or_bits-msb_bits :
    (v n : ℕ) → v < 2 ^ n → v < 256 → n < 9 → or_bits 0 0 (msb_bits n v) / 2 ^ (8 - n) ≡ v
or_bits-msb_bits v n h hv hn =
    or_small v n h (unfold or_bits_test in byte_table_sound or_bits_test v n or_bits_table hv hn)
