-- ===== src/BitStream/Utf8.antt =====
-- What `String::from_utf8` accepts: the byte sequences of the Unicode standard's table 3-7. A
-- string of the source is the list of its bytes.
use sky_saga_rs.Common.{
  ℕ, zero, suc, Bool, true, false, ◌&&◌, List, [], ◌∷◌, Option, none, some, ltb, leb, ◌==◌,
  if◌then◌else◌,
}

abbrev pub between : ℕ → ℕ → ℕ → Bool
between lo hi b = leb lo b && leb b hi

-- The range of the second byte and the number of bytes that follow, for a leading byte.
abbrev lead : ℕ → Option (ℕ × ℕ × ℕ)
lead b =
    if ltb b 0x80
    then some (0x80, 0xbf, 0)
    else if between 0xc2 0xdf b
    then some (0x80, 0xbf, 1)
    else if b == 0xe0
    then some (0xa0, 0xbf, 2)
    else if b == 0xed
    then some (0x80, 0x9f, 2)
    else if between 0xe1 0xef b
    then some (0x80, 0xbf, 2)
    else if b == 0xf0
    then some (0x90, 0xbf, 3)
    else if between 0xf1 0xf3 b
    then some (0x80, 0xbf, 3)
    else if b == 0xf4
    then some (0x80, 0x8f, 3)
    else none

-- `left` bytes of a character are still to come, the next of them between `lo` and `hi`.
unfoldable pub is_utf8_from : ℕ → ℕ → ℕ → List ℕ → Bool
is_utf8_from lo hi zero [] = true
is_utf8_from lo hi (suc left) [] = false
is_utf8_from lo hi (suc left) (b ∷ bs) =
    let rest = is_utf8_from 0x80 0xbf left bs in between lo hi b && rest
is_utf8_from lo hi zero (b ∷ bs) = elim (lead b) [
  | none ↦ false
  | some (lo', hi', left) ↦ is_utf8_from lo' hi' left bs
]

unfoldable pub is_utf8 : List ℕ → Bool
unfolding is_utf8_from
is_utf8 bytes = is_utf8_from 0x80 0xbf 0 bytes
