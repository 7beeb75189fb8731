-- ===== src/BitStream/RoundTrip/Copied.antt =====
-- Bits that are set one after the other in a clear buffer, as `read_bits_msb` of bitstream.rs does it.
use sky_saga_rs.Common.{
  ℕ, zero, suc, ◌+◌, ◌-◌, ◌*◌, ◌/◌, ◌%◌, ◌^◌, ◌≤◌, ◌<◌, bit_or, Bool, true, false, ◌||◌, ◌≡◌, refl,
  sym, ap, subst, ◌∙◌, inl, inr, List, [], ◌∷◌, length, get_or, set, replicate, length-set,
  length-replicate, get_or-set, ◌==◌, if◌then◌else◌, Bool-cases, arith,
}
use native.Mathlib.Decide.{dec_lt}
use sky_saga_rs.BitStream.Byte.{top_mask, has_bit, bit_at}
use sky_saga_rs.BitStream.Byte.Tables.{
  msb_bits, top_bits, or_bits, top_bits-msb_bits, or_bits-msb_bits, bit_or-top_mask-lt,
  has_bit-bit_or, has_bit-zero,
}
use sky_saga_rs.BitStream.Writer.Contents.{
  same_place, AllBytes, IsBytes, IsBytes-AllBytes, bits_from,
}

-- One bit set, as the loop of `read_bits_msb` does it.
abbrev pub marked : List ℕ → ℕ → Bool → List ℕ
marked out index bit =
    if bit
    then set out (index / 8) (bit_or (get_or out (index / 8) 0) (top_mask (index % 8)))
    else out

unfoldable pub filled : List ℕ → ℕ → List Bool → List ℕ
filled out index [] = out
filled out index (b ∷ bs) = filled (marked out index b) (index + 1) bs

-- The bits below `index` are those of the bytes, and those above are clear.
record Copied (bytes out : List ℕ) (index : ℕ) : Type 0 where
  as_long : length out ≡ length bytes
  bytes_are : AllBytes out
  copied : (i : ℕ) → i < index → bit_at out i ≡ bit_at bytes i
  clear : (i : ℕ) → index ≤ i → bit_at out i ≡ false

marked-bit_at :
    (out : List ℕ) (index i : ℕ)
    → AllBytes out
    → index / 8 < length out
    → bit_at (marked out index true) i ≡ (i == index || bit_at out i)
unfolding bit_at
marked-bit_at out index i all inside = elim (Bool-cases (i / 8 == index / 8)) [
  | inl e ↦
      rw
        (
          get_or-set out (index / 8) (i / 8)
              (bit_or (get_or out (index / 8) 0) (top_mask (index % 8))) 0 inside,
          e,
        )
        (has_bit-bit_or (get_or out (index / 8) 0) (index % 8) (i % 8) (all (index / 8))
            (omega arith) (omega arith)
          ∙ rw (same_place i index (ground arith)) (ground arith))
  | inr e ↦
      rw
        (
          get_or-set out (index / 8) (i / 8)
              (bit_or (get_or out (index / 8) 0) (top_mask (index % 8))) 0 inside,
          e,
        )
        (ground arith)
]

marked-AllBytes :
    (out : List ℕ) (index : ℕ) (b : Bool)
    → AllBytes out
    → index / 8 < length out
    → AllBytes (marked out index b)
marked-AllBytes out index false all inside i = all i
marked-AllBytes out index true all inside i =
    rw
      (get_or-set out (index / 8) i (bit_or (get_or out (index / 8) 0) (top_mask (index % 8))) 0
        inside)
      (ground (
        arith,
        all i,
        bit_or-top_mask-lt (get_or out (index / 8) 0) (index % 8) (all (index / 8)) (omega arith),
      ))

length-marked : (out : List ℕ) (index : ℕ) (b : Bool) → length (marked out index b) ≡ length out
length-marked out index false = refl
length-marked out index true = length-set out (index / 8) _

marked-bits :
    (out : List ℕ) (index i : ℕ) (b : Bool)
    → AllBytes out
    → index / 8 < length out
    → bit_at out index ≡ false
    → bit_at (marked out index b) i ≡ (if i == index then b else bit_at out i)
marked-bits out index i true all inside off = marked-bit_at out index i all inside ∙ ground arith
marked-bits out index i false all inside off = elim (Bool-cases (i == index)) [
  | inl here ↦ let same : i ≡ index = ground (arith, here) in rw here (ap (bit_at out) same ∙ off)
  | inr away ↦ rw away refl
]

Copied-marked :
    (bytes out : List ℕ) (index : ℕ)
    → index < 8 * length bytes
    → Copied bytes out index
    → Copied bytes (marked out index (bit_at bytes index)) (index + 1)
Copied-marked bytes out index h c =
    let inside : index / 8 < length out = omega (arith, c.as_long) in
    let off = c.clear index (omega arith) in
    record {
      as_long = length-marked out index (bit_at bytes index) ∙ c.as_long;
      bytes_are = marked-AllBytes out index (bit_at bytes index) c.bytes_are inside;
      copied = λ i below.
          marked-bits out index i (bit_at bytes index) c.bytes_are inside off
          ∙ elim (Bool-cases (i == index)) [
            | inl here ↦
                let same : index ≡ i = ground (arith, here) in rw here (ap (bit_at bytes) same)
            | inr away ↦ rw away (c.copied i (ground (arith, away, below)))
          ];
      clear = λ i above.
          marked-bits out index i (bit_at bytes index) c.bytes_are inside off
          ∙ (let away : (i == index) ≡ false = ground (arith, above) in
              rw away (c.clear i (omega (arith, above))));
    }

Copied-filled :
    (bytes out : List ℕ) (index left : ℕ)
    → index + left ≤ 8 * length bytes
    → Copied bytes out index
    → Copied bytes (filled out index (bits_from bytes index left)) (index + left)
unfolding filled bits_from
Copied-filled bytes out index zero h c = subst (Copied bytes out) (omega arith) c
Copied-filled bytes out index (suc left) h c =
    let one = Copied-marked bytes out index (omega (arith, h)) c in
    let next : index + 1 ≡ suc index = omega arith in
    let rest =
      Copied-filled bytes (marked out index (bit_at bytes index)) (index + 1) left
        (omega (arith, h)) one in
    let moved =
      subst
        (λ k.
          Copied bytes
            (filled (marked out index (bit_at bytes index)) (index + 1) (bits_from bytes k left))
            (index + 1 + left))
        next rest in
    subst (Copied bytes (filled out index (bits_from bytes index (suc left)))) (omega arith) moved

-- A byte is known by its bits.
byte_eq : (x y : ℕ) → x < 256 → y < 256 → ((i : ℕ) → i < 8 → has_bit x i ≡ has_bit y i) → x ≡ y
unfolding top_bits
byte_eq x y hx hy h = sym (whole x hx) ∙ (ap (or_bits 0 0) bits ∙ whole y hy)
  where
    whole : (v : ℕ) → v < 256 → or_bits 0 0 (top_bits v 0 8) ≡ v
    whole v k =
        let same : v * 2 ^ (8 - 8) % 256 ≡ v = omega arith in
        let top : top_bits v 0 8 ≡ msb_bits 8 v =
          subst (λ u. top_bits u 0 8 ≡ msb_bits 8 v) same (top_bits-msb_bits v 8 k (omega arith)) in
        ap (or_bits 0 0) top ∙ omega (arith, or_bits-msb_bits v 8 (omega arith) k (omega arith))

    bits : top_bits x 0 8 ≡ top_bits y 0 8
    bits =
        rw
          (
            h 0 (omega arith),
            h 1 (omega arith),
            h 2 (omega arith),
            h 3 (omega arith),
            h 4 (omega arith),
            h 5 (omega arith),
            h 6 (omega arith),
            h 7 (omega arith),
          )
          refl

bit_at-head : (x : ℕ) (xs : List ℕ) (i : ℕ) → i < 8 → bit_at (x ∷ xs) i ≡ has_bit x i
unfolding bit_at
bit_at-head x xs i h =
    let first : i / 8 ≡ 0 = omega (arith, h) in
    let place : i % 8 ≡ i = omega (arith, h) in rw (first, place) refl

bit_at-tail : (x : ℕ) (xs : List ℕ) (i : ℕ) → bit_at (x ∷ xs) (i + 8) ≡ bit_at xs i
unfolding bit_at
bit_at-tail x xs i =
    let next : (i + 8) / 8 ≡ suc (i / 8) = omega arith in
    let place : (i + 8) % 8 ≡ i % 8 = omega arith in rw (next, place) refl

-- Bytes are known by their bits.
bytes_eq :
    (xs ys : List ℕ)
    → length xs ≡ length ys
    → AllBytes xs
    → AllBytes ys
    → ((i : ℕ) → bit_at xs i ≡ bit_at ys i)
    → xs ≡ ys
bytes_eq [] [] e hx hy h = refl
bytes_eq [] (y ∷ ys) e hx hy h = absurd (omega arith)
bytes_eq (x ∷ xs) [] e hx hy h = absurd (omega arith)
bytes_eq (x ∷ xs) (y ∷ ys) e hx hy h =
    let first : x ≡ y =
      byte_eq x y (hx 0) (hy 0)
        (λ i. λ k. sym (bit_at-head x xs i k) ∙ (h i ∙ bit_at-head y ys i k)) in
    let rest : xs ≡ ys =
      bytes_eq xs ys (omega arith) (λ i. hx (suc i)) (λ i. hy (suc i))
        (λ i. sym (bit_at-tail x xs i) ∙ (h (i + 8) ∙ bit_at-tail y ys i)) in
    cc

get_or-zeros : (n i : ℕ) → ◌≡◌ {A = ℕ} (get_or (replicate n 0) i 0) 0
get_or-zeros zero i = refl
get_or-zeros (suc n) zero = refl
get_or-zeros (suc n) (suc i) = get_or-zeros n i

-- So many bits of the bytes, and no bit set in what is left of the last byte.
pub record IsBits (bytes : List ℕ) (len : ℕ) : Type 0 where
  pub exact : length bytes ≡ (len + 7) / 8
  pub bytes_are : IsBytes bytes
  pub clear : (i : ℕ) → len ≤ i → bit_at bytes i ≡ false

Copied-zeros :
    (bytes : List ℕ) (len : ℕ) → IsBits bytes len → Copied bytes (replicate ((len + 7) / 8) 0) 0
unfolding bit_at
Copied-zeros bytes len h = record {
  as_long = length-replicate ((len + 7) / 8) 0 ∙ sym h.exact;
  bytes_are = λ i. omega (arith, get_or-zeros ((len + 7) / 8) i);
  copied = λ i. λ below. absurd (omega (arith, below));
  clear = λ i. λ above.
      ap (λ b. has_bit b (i % 8)) (get_or-zeros ((len + 7) / 8) (i / 8))
      ∙ has_bit-zero (i % 8) (omega arith);
}

pub filled-bytes :
    (bytes : List ℕ) (len : ℕ)
    → IsBits bytes len
    → filled (replicate ((len + 7) / 8) 0) 0 (bits_from bytes 0 len) ≡ bytes
filled-bytes bytes len h =
    let out = filled (replicate ((len + 7) / 8) 0) 0 (bits_from bytes 0 len) in
    let c : Copied bytes out len = subst (Copied bytes out) (omega arith) (
      Copied-filled bytes (replicate ((len + 7) / 8) 0) 0 len (omega (arith, h.exact))
        (Copied-zeros bytes len h)) in
    bytes_eq out bytes c.as_long c.bytes_are (IsBytes-AllBytes bytes h.bytes_are) (λ i.
      elim (dec_lt i len) [
        | yes below ↦ c.copied i below
        | no above ↦ c.clear i (omega (arith, above)) ∙ sym (h.clear i (omega (arith, above)))
      ])
