-- ===== src/BitStream/Reader/Decodes.antt =====
-- What a read takes off a stream: a list of bits, which it turns into a value.
use sky_saga_rs.Common.{
  ℕ, zero, suc, ◌+◌, ◌*◌, ◌/◌, ◌≤◌, ◌<◌, Bool, ◌≡◌, refl, sym, ap, subst, ◌∙◌, List, [], ◌∷◌, ◌++◌,
  append_assoc, length-append, some, length, get_elem?, get_or, bit_or, if◌then◌else◌, arith,
}
use sky_saga_rs.BitStream.Byte.{top_mask, bit_at}
use sky_saga_rs.BitStream.Byte.Tables.{msb_bits, or_bits, or_bits-msb_bits}
use sky_saga_rs.BitStream.Reader.{
  ok, BitReader, Read, after, ◌>>=◌, pure, bits_remaining, advance, require, take_bit, read_bit,
  read_top_bits, read_byte_bits, read_u8,
}

-- The bits that lie ahead of the reader begin with these.
abbrev pub Ahead : BitReader → List Bool → Type 0
Ahead r [] = Unit {0}
Ahead r (b ∷ bs) =
    (r.offset < r.bits)
    × (r.bits ≤ 8 * length r.bytes)
    × (bit_at r.bytes r.offset ≡ b)
    × Ahead (advance 1 r) bs

-- Where these bits lie ahead, the read gives this value and steps over exactly these bits.
pub record Decodes {ℓ} {A : Type ℓ} (m : Read A) (xs : List Bool) (v : A) : Type ℓ where
  pub runs :
      (r : BitReader) (rest : List Bool)
      → Ahead r (xs ++ rest)
      → m r ≡ (ok v, advance (length xs) r)

pub advance-advance : (m n : ℕ) (r : BitReader) → advance m (advance n r) ≡ advance (n + m) r
advance-advance m n r = ap (λ o. record r { offset = o }) (omega arith)

pub Ahead-drop :
    (xs ys : List Bool) (r : BitReader) → Ahead r (xs ++ ys) → Ahead (advance (length xs) r) ys
Ahead-drop [] ys r h = subst (λ s. Ahead s ys) (ap (λ o. record r { offset = o }) (omega arith)) h
Ahead-drop (x ∷ xs) ys r h =
    subst (λ s. Ahead s ys) (advance-advance (length xs) 1 r ∙ ap (λ n. advance n r) (omega arith))
      (Ahead-drop xs ys (advance 1 r) h.3)

pub Decodes-pure {ℓ} : {A : Type ℓ} (v : A) → Decodes (pure v) [] v
Decodes-pure v = record {
  runs = λ r rest h. ap (λ s. (ok v, s)) (ap (λ o. record r { offset = o }) (omega arith));
}

pub Decodes-bind {ℓ κ} :
    {A : Type ℓ} {B : Type κ} {m : Read A} (f : A → Read B) {xs ys : List Bool} {v : A} {u : B}
    → Decodes m xs v
    → Decodes (f v) ys u
    → Decodes (m >>= f) (xs ++ ys) u
Decodes-bind f {xs = xs} {ys = ys} {v = v} {u = u} a b = record {
  runs = λ r rest h.
      let h' : Ahead r (xs ++ (ys ++ rest)) = subst (Ahead r) (append_assoc xs ys rest) h in
      ap (after f) (a.runs r (ys ++ rest) h')
      ∙ b.runs (advance (length xs) r) rest (Ahead-drop xs (ys ++ rest) r h')
      ∙ ap (λ s. (ok u, s))
          (advance-advance (length ys) (length xs) r
            ∙ ap (λ n. advance n r) (sym (length-append xs ys)));
}

Ahead-remaining : (xs : List Bool) (r : BitReader) → Ahead r xs → length xs ≤ bits_remaining r
Ahead-remaining [] r h = omega arith
Ahead-remaining (x ∷ xs) r h = omega (arith, Ahead-remaining xs (advance 1 r) h.3)

get_elem?-get_or : (xs : List ℕ) (i : ℕ) → i < length xs → get_elem? xs i ≡ some (get_or xs i 0)
get_elem?-get_or [] i h = absurd (omega arith)
get_elem?-get_or (x ∷ xs) zero h = refl
get_elem?-get_or (x ∷ xs) (suc i) h = get_elem?-get_or xs i (omega arith)

require_within : (n : ℕ) (r : BitReader) → n ≤ bits_remaining r → require n r ≡ (ok tt, r)
unfolding require
require_within n r h = ground arith

-- A check for no more bits than the read takes passes.
pub Decodes-require {ℓ} :
    {A : Type ℓ} {m : Read A} {xs : List Bool} {v : A} (n : ℕ)
    → n ≤ length xs
    → Decodes m xs v
    → Decodes (require n >>= λ _. m) xs v
Decodes-require {m = m} {xs = xs} n le a = record {
  runs = λ r rest h.
      ap (after (λ _. m)) (
        require_within n r (omega (arith, Ahead-remaining (xs ++ rest) r h, length-append xs rest)))
      ∙ a.runs r rest h;
}

-- A bit that lies ahead is read, and nothing else is.
pub Decodes-bit : (b : Bool) → Decodes read_bit (b ∷ []) b
unfolding read_bit bit_at
Decodes-bit b = record {
  runs = λ r rest h.
      ap (after (λ _ s. take_bit (get_elem? s.bytes (s.offset / 8)) s))
        (require_within 1 r (omega (arith, h.0)))
      ∙ ap (λ o. take_bit o r) (get_elem?-get_or r.bytes (r.offset / 8) (omega (arith, h.0, h.1)))
      ∙ ap (λ x. (ok x, advance 1 r)) h.2;
}

Decodes-top_bits :
    (bs : List Bool) (byte index : ℕ)
    → Decodes (read_top_bits byte index (length bs)) bs (or_bits byte index bs)
unfolding read_top_bits or_bits
Decodes-top_bits [] byte index = Decodes-pure byte
Decodes-top_bits (b ∷ bs) byte index =
    Decodes-bind _ (Decodes-bit b)
      (Decodes-top_bits bs (if b then bit_or byte (top_mask index) else byte) (index + 1))

-- A number of `n` bits comes back at the top of a byte.
pub Decodes-byte_bits :
    (n : ℕ) (bs : List Bool) → length bs ≡ n → Decodes (read_byte_bits n) bs (or_bits 0 0 bs)
unfolding read_byte_bits
Decodes-byte_bits n bs e =
    subst (λ k. Decodes (require k >>= λ _. read_top_bits 0 0 k) bs (or_bits 0 0 bs)) e
      (Decodes-require (length bs) (omega arith) (Decodes-top_bits bs 0 0))

pub length-msb_bits : (n v : ℕ) → length (msb_bits n v) ≡ n
unfolding msb_bits
length-msb_bits zero v = refl
length-msb_bits (suc n) v = ap suc (length-msb_bits n v)

pub Decodes-u8 : (v : ℕ) → v < 256 → Decodes read_u8 (msb_bits 8 v) v
unfolding read_u8
Decodes-u8 v h =
    subst (Decodes (read_byte_bits 8) (msb_bits 8 v)) whole
      (Decodes-byte_bits 8 (msb_bits 8 v) (length-msb_bits 8 v))
  where
    whole : or_bits 0 0 (msb_bits 8 v) ≡ v
    whole = omega (arith, or_bits-msb_bits v 8 (omega arith) h (omega arith))
