-- ===== src/FixedStr/Lossy.antt =====
-- What `String::from_utf8_lossy` makes of bytes, for the fields of crates/skysaga-core/src/fixed_str.rs:
-- the characters, with U+FFFD for each longest piece that begins a character and does not end it.
use sky_saga_rs.Common.{
  ℕ, zero, suc, ◌+◌, ◌-◌, ◌*◌, List, [], ◌∷◌, ◌++◌, Option, none, some, ltb, ◌==◌, if◌then◌else◌,
}
use sky_saga_rs.Common.Text.{Text}
use sky_saga_rs.BitStream.Utf8.{between}

-- For a leading byte: the range of the second byte, the number of bytes that follow, and the bits of
-- the character that it holds.
abbrev pub lead : ℕ → Option (ℕ × ℕ × ℕ × ℕ)
lead b =
    if ltb b 0x80
    then some (0x80, 0xbf, 0, b)
    else if between 0xc2 0xdf b
    then some (0x80, 0xbf, 1, b - 0xc0)
    else if b == 0xe0
    then some (0xa0, 0xbf, 2, b - 0xe0)
    else if b == 0xed
    then some (0x80, 0x9f, 2, b - 0xe0)
    else if between 0xe1 0xef b
    then some (0x80, 0xbf, 2, b - 0xe0)
    else if b == 0xf0
    then some (0x90, 0xbf, 3, b - 0xf0)
    else if between 0xf1 0xf3 b
    then some (0x80, 0xbf, 3, b - 0xf0)
    else if b == 0xf4
    then some (0x80, 0x8f, 3, b - 0xf0)
    else none

-- Where the decoder stands: between characters, or in one of which `left` bytes are to come, the next
-- of them between `lo` and `hi`.
pub data Place : Type 0 where
  start : Place
  inside : (lo hi left bits : ℕ) → Place

-- What a leading byte leads to: the character put out, if any, and the place.
abbrev pub led : Option (ℕ × ℕ × ℕ × ℕ) → Text × Place
led none = (0xFFFD ∷ [], start)
led (some (lo, hi, zero, bits)) = (bits ∷ [], start)
led (some (lo, hi, suc left, bits)) = ([], inside lo hi left bits)

-- The next byte of a character.
abbrev pub next : (lo hi left bits : ℕ) → ℕ → Text × Place
next lo hi zero bits b = ((bits * 64 + (b - 0x80)) ∷ [], start)
next lo hi (suc left) bits b = ([], inside 0x80 0xbf left (bits * 64 + (b - 0x80)))

-- A byte at a place.
unfoldable pub fed : Place → ℕ → Text × Place
fed start b = led (lead b)
fed (inside lo hi left bits) b =
    let again = led (lead b) in
    if between lo hi b then next lo hi left bits b else (0xFFFD ∷ again.0, again.1)

unfoldable pub decoded_from : Place → List ℕ → Text
unfolding fed
decoded_from start [] = []
decoded_from (inside lo hi left bits) [] = 0xFFFD ∷ []
decoded_from p (b ∷ bs) = let step = fed p b in step.0 ++ decoded_from step.1 bs

unfoldable pub from_utf8_lossy : List ℕ → Text
unfolding decoded_from
from_utf8_lossy bytes = decoded_from start bytes
