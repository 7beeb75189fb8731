-- ===== src/Common/Tables.antt =====
-- Facts about small numbers that are checked by trying every value.
use Prim.Native.Nat.{ℕ, zero, suc, ◌<◌}
use mathlib.Core.Path.{◌≡◌}
use mathlib.Core.Bool.{Bool, true, false}
use native.Mathlib.Omega.{arith}

-- The test `holds` at the numbers from `bound - 1` down to 0.
unfoldable pub tried : ℕ → (ℕ → Bool) → Bool
tried zero holds = true
tried (suc last) holds = elim (holds last) [ true ↦ tried last holds | false ↦ false ]

-- A test that holds at each of them, at one of them.
pub tried-at :
    (bound : ℕ) (holds : ℕ → Bool) (i : ℕ) → tried bound holds ≡ true → i < bound → holds i ≡ true
unfolding tried
tried-at (suc last) holds i every below =
    let earlier = tried-at last holds i in ground (arith, earlier)
tried-at zero holds i every below = absurd (omega arith)
