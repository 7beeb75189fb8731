-- ===== src/FixedStr/Decoded.antt =====
-- Every string is decoded from its UTF-8, as the fields of crates/skysaga-core/src/fixed_str.rs are.
use sky_saga_rs.Common.{
  ℕ, suc, ◌+◌, ◌-◌, ◌*◌, ◌/◌, ◌%◌, ◌<◌, ◌≤◌, ◌≡◌, refl, ap, ◌∙◌, inl, inr, ◌⊎◌, true, List, [], ◌∷◌,
  ◌++◌, some, ltb, ◌==◌, Bool-cases, if◌then◌else◌, arith,
}
use sky_saga_rs.Common.Text.{Text, as_bytes, bytes_of}
use sky_saga_rs.BitStream.Utf8.{between}
use sky_saga_rs.FixedStr.Lossy.{lead, start, inside, fed, decoded_from, from_utf8_lossy}

-- A `char` other than NUL: a scalar value of Unicode.
pub record IsChar (c : ℕ) : Type 0 where
  pub positive : 0 < c
  pub in_range : c < 0x110000
  pub no_surrogate : (c < 0xD800) ⊎ (0xE000 ≤ c)

unfoldable pub AreChars : Text → Type 0
AreChars [] = Unit
AreChars (c ∷ cs) = IsChar c × AreChars cs

two : (c : ℕ) → 0x80 ≤ c → c < 0x800 → lead (0xC0 + c / 64) ≡ some (0x80, 0xbf, 1, c / 64)
two c h g = ground arith

-- The range of the second byte of three, and of four, by the bits in the first one.
abbrev low_of_three : ℕ → ℕ
low_of_three bits = if bits == 0 then 0xa0 else 0x80

abbrev high_of_three : ℕ → ℕ
high_of_three bits = if bits == 13 then 0x9f else 0xbf

abbrev low_of_four : ℕ → ℕ
low_of_four bits = if bits == 0 then 0x90 else 0x80

abbrev high_of_four : ℕ → ℕ
high_of_four bits = if bits == 4 then 0x8f else 0xbf

lead_three :
    (bits : ℕ)
    → bits < 16
    → lead (0xE0 + bits) ≡ some (low_of_three bits, high_of_three bits, 2, bits)
lead_three bits h = ground arith

lead_four :
    (bits : ℕ) → bits ≤ 4 → lead (0xF0 + bits) ≡ some (low_of_four bits, high_of_four bits, 3, bits)
lead_four bits h = ground arith

-- The first bytes of a character, put in when they are in their range.
ends :
    (lo hi b bits : ℕ) (bs : List ℕ)
    → lo ≤ b
    → b ≤ hi
    → decoded_from (inside lo hi 0 bits) (b ∷ bs) ≡ (bits * 64 + (b - 0x80)) ∷ decoded_from start bs
unfolding decoded_from fed
ends lo hi b bits bs h g = let fits : between lo hi b ≡ true = ground arith in rw fits refl

goes_on :
    (lo hi left b bits : ℕ) (bs : List ℕ)
    → lo ≤ b
    → b ≤ hi
    → decoded_from (inside lo hi (suc left) bits) (b ∷ bs)
      ≡ decoded_from (inside 0x80 0xbf left (bits * 64 + (b - 0x80))) bs
unfolding decoded_from fed
goes_on lo hi left b bits bs h g = let fits : between lo hi b ≡ true = ground arith in rw fits refl

-- The tail bytes of a character are in the range of tail bytes.
tail : (n : ℕ) → (0x80 ≤ 0x80 + n % 64) × (0x80 + n % 64 ≤ 0xbf)
tail n = (omega arith, omega arith)

decoded_two :
    (c : ℕ) (bs : List ℕ)
    → 0x80 ≤ c
    → c < 0x800
    → decoded_from start ((0xC0 + c / 64) ∷ (0x80 + c % 64) ∷ bs) ≡ c ∷ decoded_from start bs
unfolding decoded_from fed
decoded_two c bs h g =
    let whole : c / 64 * 64 + (0x80 + c % 64 - 0x80) ≡ c = omega arith in
    rw (two c h g) (
      ends 0x80 0xbf (0x80 + c % 64) (c / 64) bs (tail c).0 (tail c).1
      ∙ ap (λ x. x ∷ decoded_from start bs) whole)

decoded_three :
    (c : ℕ) (bs : List ℕ)
    → 0x800 ≤ c
    → c < 0x10000
    → (c < 0xD800) ⊎ (0xE000 ≤ c)
    → decoded_from start ((0xE0 + c / 4096) ∷ (0x80 + c / 64 % 64) ∷ (0x80 + c % 64) ∷ bs)
      ≡ c ∷ decoded_from start bs
unfolding decoded_from fed
decoded_three c bs h g s =
    let top = c / 4096 in
    let mid = 0x80 + c / 64 % 64 in
    let whole : (top * 64 + (mid - 0x80)) * 64 + (0x80 + c % 64 - 0x80) ≡ c = omega arith in
    rw (lead_three top (omega arith)) (
      goes_on (low_of_three top) (high_of_three top) 0 mid top ((0x80 + c % 64) ∷ bs) (ground arith)
        (ground arith)
      ∙ (ends 0x80 0xbf (0x80 + c % 64) (top * 64 + (mid - 0x80)) bs (tail c).0 (tail c).1
          ∙ ap (λ x. x ∷ decoded_from start bs) whole))

decoded_four :
    (c : ℕ) (bs : List ℕ)
    → 0x10000 ≤ c
    → c < 0x110000
    → decoded_from start
        ((0xF0 + c / 262144) ∷ (0x80 + c / 4096 % 64) ∷ (0x80 + c / 64 % 64) ∷ (0x80 + c % 64) ∷ bs)
      ≡ c ∷ decoded_from start bs
unfolding decoded_from fed
decoded_four c bs h g =
    let top = c / 262144 in
    let first = 0x80 + c / 4096 % 64 in
    let second = 0x80 + c / 64 % 64 in
    let two_of = top * 64 + (first - 0x80) in
    let three_of = two_of * 64 + (second - 0x80) in
    let whole : three_of * 64 + (0x80 + c % 64 - 0x80) ≡ c = omega arith in
    rw (lead_four top (omega arith)) (
      goes_on (low_of_four top) (high_of_four top) 1 first top (second ∷ (0x80 + c % 64) ∷ bs)
        (ground arith) (ground arith)
      ∙ (goes_on 0x80 0xbf 0 second two_of ((0x80 + c % 64) ∷ bs) (tail (c / 64)).0
            (tail (c / 64)).1
          ∙ (ends 0x80 0xbf (0x80 + c % 64) three_of bs (tail c).0 (tail c).1
              ∙ ap (λ x. x ∷ decoded_from start bs) whole)))

decoded-bytes_of :
    (c : ℕ) (bs : List ℕ)
    → IsChar c
    → decoded_from start (bytes_of c ++ bs) ≡ c ∷ decoded_from start bs
unfolding decoded_from fed
decoded-bytes_of c bs h = elim (Bool-cases (ltb c 0x80)) [
  | inl one ↦ rw one (let led_by : lead c ≡ some (0x80, 0xbf, 0, c) = rw one refl in rw led_by refl)
  | inr over_one ↦ elim (Bool-cases (ltb c 0x800)) [
    | inl two_bytes ↦ rw (over_one, two_bytes) (decoded_two c bs (ground arith) (ground arith))
    | inr over_two ↦ elim (Bool-cases (ltb c 0x10000)) [
      | inl three_bytes ↦
          rw (over_one, over_two, three_bytes)
            (decoded_three c bs (ground arith) (ground arith) h.no_surrogate)
      | inr over_three ↦
          rw (over_one, over_two, over_three) (decoded_four c bs (ground arith) h.in_range)
    ]
  ]
]

-- Every string is read back from its UTF-8.
pub from_utf8_lossy-as_bytes : (t : Text) → AreChars t → from_utf8_lossy (as_bytes t) ≡ t
unfolding from_utf8_lossy as_bytes AreChars decoded_from
from_utf8_lossy-as_bytes [] h = refl
from_utf8_lossy-as_bytes (c ∷ cs) h =
    decoded-bytes_of c (as_bytes cs) h.0 ∙ ap (λ rest. c ∷ rest) (from_utf8_lossy-as_bytes cs h.1)
