-- ===== src/Common/Integers.antt =====
-- An `i32`: an integer, whose values a field's range keeps well inside 32 bits.
use Prim.Native.Nat.{ℕ, suc, ◌+◌, ◌-◌, ◌%◌, ◌^◌, ◌<◌}
use mathlib.Core.Path.{◌≡◌, refl, ap}
use mathlib.Core.Bool.{true, false}
use native.Mathlib.Omega.{arith}
use sky_saga_rs.Common.Tests.{ltb, leb, if◌then◌else◌}

-- `negsuc n` stands for -(n + 1).
pub data ℤ : Type 0 where
  pos negsuc : ℕ → ℤ

-- a - b, which the source computes on `i32`s.
abbrev pub sub_ℕ : ℕ → ℕ → ℤ
sub_ℕ a b = if leb b a then pos (a - b) else negsuc (b - suc a)

-- `(a + bias) as u32`
abbrev pub biased : ℕ → ℤ → ℕ
biased bias (pos n) = (n + bias) % 2 ^ 32
biased bias (negsuc n) = (2 ^ 32 + bias - suc n) % 2 ^ 32

-- `as u32`, which `to_le_bytes` of an `i32` writes.
abbrev pub as_u32 : ℤ → ℕ
as_u32 = biased 0

-- `as i32`
abbrev pub as_i32 : ℕ → ℤ
as_i32 n = if ltb n (2 ^ 31) then pos n else negsuc (2 ^ 32 - suc n)

-- Whether an integer is an `i32`.
unfoldable pub IsI32 : ℤ → Type 0
IsI32 (pos n) = n < 2 ^ 31
IsI32 (negsuc n) = n < 2 ^ 31

pub as_i32-as_u32 : (z : ℤ) → IsI32 z → as_i32 (as_u32 z) ≡ z
unfolding IsI32
as_i32-as_u32 (pos n) h =
    let same : (n + 0) % 2 ^ 32 ≡ n = omega arith in
    let low : ltb n (2 ^ 31) ≡ true = ground arith in rw same (rw low refl)
as_i32-as_u32 (negsuc n) h =
    let same : (2 ^ 32 + 0 - suc n) % 2 ^ 32 ≡ 2 ^ 32 - suc n = omega arith in
    let high : ltb (2 ^ 32 - suc n) (2 ^ 31) ≡ false = ground arith in
    let back : 2 ^ 32 - suc (2 ^ 32 - suc n) ≡ n = omega arith in rw same (rw high (ap negsuc back))
