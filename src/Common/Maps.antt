-- ===== src/Common/Maps.antt =====
-- A `HashMap` with numbers for keys, whose entries nothing walks over: a function.
use sky_saga_rs.Common.Tests.{◌==◌, if◌then◌else◌}
use Prim.Native.Nat.{ℕ}
use mathlib.Core.Option.{Option, none, some}

abbrev pub Map {ℓ} : Type ℓ → Type ℓ
Map V = ℕ → Option V

module _ {ℓ} {V : Type ℓ} where
  abbrev pub empty : Map V
  empty k = none

  abbrev pub insert : Map V → ℕ → V → Map V
  insert m k v j = if j == k then some v else m j

  abbrev pub remove : Map V → ℕ → Map V
  remove m k j = if j == k then none else m j
