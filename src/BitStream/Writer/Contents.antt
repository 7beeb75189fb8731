-- ===== src/BitStream/Writer/Contents.antt =====
-- A `BitWriter` as the list of the bits written, and what one bit does to it.
use sky_saga_rs.Common.{
  ℕ, zero, suc, ◌+◌, ◌-◌, ◌*◌, ◌/◌, ◌%◌, ◌≤◌, ◌<◌, bit_or, Bool, true, false, ◌||◌, ◌≡◌, refl, ap,
  ◌∙◌, inl, inr, List, [], ◌∷◌, ◌++◌, length, get_or, length-append, length-set, get_or-set,
  get_or-append, ◌==◌, if◌then◌else◌, Bool-cases, arith,
}
use mathlib.Core.Path.{ap₂}
use sky_saga_rs.BitStream.Byte.{top_mask, has_bit, bit_at}
use sky_saga_rs.BitStream.Byte.Tables.{bit_or-top_mask-lt, has_bit-bit_or, has_bit-zero}
use sky_saga_rs.BitStream.Writer.{BitWriter, grown, or_last, new, write_bit}

-- Every element is a byte, also past the end, where the default is 0.
abbrev pub AllBytes : List ℕ → Type 0
AllBytes bytes = (i : ℕ) → get_or bytes i 0 < 256

-- The same of a list element by element.
abbrev pub IsBytes : List ℕ → Type 0
IsBytes [] = Unit {0}
IsBytes (b ∷ bs) = (b < 256) × IsBytes bs

pub IsBytes-AllBytes : (bytes : List ℕ) → IsBytes bytes → AllBytes bytes
IsBytes-AllBytes [] h i = omega arith
IsBytes-AllBytes (b ∷ bs) h zero = h.0
IsBytes-AllBytes (b ∷ bs) h (suc i) = IsBytes-AllBytes bs h.1 i

-- The buffer is as long as the bits need, and its unused bits are zero.
pub record IsWriter (w : BitWriter) : Type 0 where
  pub enough : w.bits ≤ 8 * length w.bytes
  pub tight : 8 * length w.bytes < w.bits + 8
  pub bytes_are : AllBytes w.bytes
  pub clear : (i : ℕ) → w.bits ≤ i → bit_at w.bytes i ≡ false

-- The bits from `start` on, `n` of them.
unfoldable pub bits_from : List ℕ → ℕ → ℕ → List Bool
bits_from bytes start zero = []
bits_from bytes start (suc n) = bit_at bytes start ∷ bits_from bytes (suc start) n

-- What has been written.
unfoldable pub contents : BitWriter → List Bool
contents w = bits_from w.bytes 0 w.bits

grown-get_or : (w : BitWriter) (i : ℕ) → get_or (grown w) i 0 ≡ get_or w.bytes i 0
grown-get_or w i = elim (Bool-cases (w.bits % 8 == 0)) [
  | inl e ↦ rw e (get_or-append w.bytes i 0)
  | inr e ↦ rw e
]

grown-bit_at : (w : BitWriter) (i : ℕ) → bit_at (grown w) i ≡ bit_at w.bytes i
unfolding bit_at
grown-bit_at w i = ap (λ x. has_bit x (i % 8)) (grown-get_or w (i / 8))

-- The byte that takes the next bit is there, and is the last one.
grown-length : (w : BitWriter) → IsWriter w → length (grown w) ≡ w.bits / 8 + 1
grown-length w v = elim (Bool-cases (w.bits % 8 == 0)) [
  | inl e ↦ rw e (ground (arith, length-append w.bytes (0 ∷ []), v.enough, v.tight))
  | inr e ↦ rw e (ground (arith, v.enough, v.tight))
]

or_last-get_or :
    (w : BitWriter) (mask i : ℕ)
    → IsWriter w
    → get_or (or_last (grown w) mask) i 0
      ≡ (if i == w.bits / 8 then bit_or (get_or w.bytes i 0) mask else get_or w.bytes i 0)
or_last-get_or w mask i v =
    let last : length (grown w) - 1 ≡ w.bits / 8 = omega (arith, grown-length w v) in
    rw
      (
        last,
        get_or-set (grown w) (w.bits / 8) i (bit_or (get_or (grown w) (w.bits / 8) 0) mask) 0
            (omega (arith, grown-length w v)),
        grown-get_or w (w.bits / 8),
        grown-get_or w i,
      )
      (ground arith)

pub same_place : (i n : ℕ) → i / 8 ≡ n / 8 → ((i % 8 == n % 8) ≡ (i == n))
same_place i n h = ground arith

-- A set bit turns up at the writer's position, and nowhere else.
set_bit-bit_at :
    (w : BitWriter) (i : ℕ)
    → IsWriter w
    → bit_at (or_last (grown w) (top_mask (w.bits % 8))) i ≡ (i == w.bits || bit_at w.bytes i)
unfolding bit_at
set_bit-bit_at w i v = elim (Bool-cases (i / 8 == w.bits / 8)) [
  | inl e ↦
      rw (or_last-get_or w (top_mask (w.bits % 8)) (i / 8) v, e)
        (has_bit-bit_or (get_or w.bytes (i / 8) 0) (w.bits % 8) (i % 8) (v.bytes_are (i / 8))
            (omega arith) (omega arith)
          ∙ rw (same_place i w.bits (ground arith)))
  | inr e ↦ rw (or_last-get_or w (top_mask (w.bits % 8)) (i / 8) v, e) (ground arith)
]

-- One bit: it stands at the writer's position, and every other bit is unchanged.
pub write_bit-bit_at :
    (w : BitWriter) (b : Bool) (i : ℕ)
    → IsWriter w
    → bit_at (write_bit b w).bytes i ≡ (if i == w.bits then b else bit_at w.bytes i)
unfolding write_bit
write_bit-bit_at w true i v = rw (set_bit-bit_at w i v) (ground arith)
write_bit-bit_at w false i v = rw (grown-bit_at w i) (ground (arith, v.clear i))

write_bit-AllBytes : (w : BitWriter) (b : Bool) → IsWriter w → AllBytes (write_bit b w).bytes
unfolding write_bit
write_bit-AllBytes w true v i = rw (or_last-get_or w (top_mask (w.bits % 8)) i v) (
    ground (
      arith,
      v.bytes_are i,
      bit_or-top_mask-lt (get_or w.bytes i 0) (w.bits % 8) (v.bytes_are i) (omega arith),
    ))
write_bit-AllBytes w false v i = rw (grown-get_or w i) (v.bytes_are i)

length-write_bit :
    (w : BitWriter) (b : Bool) → IsWriter w → length (write_bit b w).bytes ≡ w.bits / 8 + 1
unfolding write_bit
length-write_bit w true v = length-set (grown w) (length (grown w) - 1) _ ∙ grown-length w v
length-write_bit w false v = grown-length w v

bits-write_bit : (w : BitWriter) (b : Bool) → (write_bit b w).bits ≡ w.bits + 1
unfolding write_bit
bits-write_bit w b = refl

pub write_bit-IsWriter : (w : BitWriter) (b : Bool) → IsWriter w → IsWriter (write_bit b w)
write_bit-IsWriter w b v = record {
  enough = omega (arith, length-write_bit w b v, bits-write_bit w b, v.enough);
  tight = omega (arith, length-write_bit w b v, bits-write_bit w b, v.tight);
  bytes_are = write_bit-AllBytes w b v;
  clear = λ i h. write_bit-bit_at w b i v ∙ ground (arith, bits-write_bit w b, v.clear i);
}

pub bits_from-suc :
    (bytes : List ℕ) (start n : ℕ)
    → bits_from bytes start (suc n) ≡ bits_from bytes start n ++ bit_at bytes (start + n) ∷ []
unfolding bits_from
bits_from-suc bytes start zero = ap (λ k. bit_at bytes k ∷ []) (omega arith)
bits_from-suc bytes start (suc n) = ap (◌∷◌ (bit_at bytes start)) (
    bits_from-suc bytes (suc start) n
    ∙ ap (λ k. bits_from bytes (suc start) n ++ bit_at bytes k ∷ []) (omega arith))

-- Streams that agree on a stretch have the same bits there.
bits_from-congr :
    (xs ys : List ℕ) (start n : ℕ)
    → ((i : ℕ) → i < start + n → bit_at xs i ≡ bit_at ys i)
    → bits_from xs start n ≡ bits_from ys start n
unfolding bits_from
bits_from-congr xs ys start zero h = refl
bits_from-congr xs ys start (suc n) h =
    cc (h start (omega arith), bits_from-congr xs ys (suc start) n (λ i p. h i (omega arith)))

-- `write_bit` appends one bit to what has been written.
pub contents-write_bit :
    (w : BitWriter) (b : Bool) → IsWriter w → contents (write_bit b w) ≡ contents w ++ b ∷ []
unfolding contents
contents-write_bit w b v = rw (bits-write_bit w b) (
    ap (bits_from (write_bit b w).bytes 0) (omega arith)
    ∙ bits_from-suc (write_bit b w).bytes 0 w.bits
    ∙ ap₂ (λ xs y. xs ++ y ∷ []) kept here)
  where
    kept : bits_from (write_bit b w).bytes 0 w.bits ≡ bits_from w.bytes 0 w.bits
    kept = bits_from-congr _ _ 0 w.bits λ i h. write_bit-bit_at w b i v ∙ ground arith

    here : bit_at (write_bit b w).bytes (0 + w.bits) ≡ b
    here = write_bit-bit_at w b (0 + w.bits) v ∙ ground arith

pub new-IsWriter : IsWriter new
unfolding bit_at
new-IsWriter = record {
  enough = omega arith;
  tight = omega arith;
  bytes_are = λ i. omega arith;
  clear = λ i h. has_bit-zero (i % 8) (omega arith);
}
