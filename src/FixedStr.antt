-- ===== src/FixedStr.antt =====
-- crates/skysaga-core/src/fixed_str.rs: strings in fields of a fixed width, filled up with NULs.
pub mod Lossy
pub mod Decoded
pub mod Boundaries
pub mod RoundTrip
use sky_saga_rs.Common.{
  ℕ, zero, suc, ◌+◌, ◌-◌, min, Bool, true, false, ◌||◌, List, [], ◌∷◌, ◌++◌, length, get_or, take,
  replicate, ltb, leb, ◌==◌, if◌then◌else◌,
}
use sky_saga_rs.Common.Text.{Text, as_bytes}
use sky_saga_rs.FixedStr.Lossy.{from_utf8_lossy}

-- The bytes before the first NUL, or all of them.
unfoldable pub before_nul : List ℕ → List ℕ
before_nul [] = []
before_nul (b ∷ bs) = let rest = before_nul bs in if b == 0 then [] else b ∷ rest

unfoldable pub read : List ℕ → Text
unfolding before_nul from_utf8_lossy
read field = from_utf8_lossy (before_nul field)

-- `is_char_boundary`: a byte that continues a character is no boundary.
unfoldable pub is_char_boundary : List ℕ → ℕ → Bool
is_char_boundary bytes zero = true
is_char_boundary bytes (suc i) =
    let b = get_or bytes (suc i) 0 in
    if leb (length bytes) (suc i) then length bytes == suc i else ltb b 0x80 || leb 0xC0 b

-- The loop that goes back to a boundary.
unfoldable pub back_to_boundary : List ℕ → ℕ → ℕ
unfolding is_char_boundary
back_to_boundary bytes zero = 0
back_to_boundary bytes (suc end) =
    let earlier = back_to_boundary bytes end in
    if is_char_boundary bytes (suc end) then suc end else earlier

-- The field of `n` bytes after the write.
unfoldable pub write : ℕ → Text → List ℕ
unfolding back_to_boundary
write zero value = []
write (suc capacity) value =
    let bytes = as_bytes value in
    let end = back_to_boundary bytes (min (length bytes) capacity) in
    take end bytes ++ replicate (suc capacity - end) 0
