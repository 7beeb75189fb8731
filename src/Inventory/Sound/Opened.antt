-- ===== src/Inventory/Sound/Opened.antt =====
-- The inventories at the start, and an inventory opened, are sound.
use sky_saga_rs.Common.{
  ℕ, zero, suc, ◌≡◌, ◌≢◌, refl, inl, inr, some, replicate, get_elem?, ◌==◌, Bool-cases, arith,
}
use sky_saga_rs.Inventory.{Inventories, StackLimits, new, open_slots, slot}
use sky_saga_rs.Inventory.Sound.{IsSound}

-- A world with no inventory in it is sound.
pub new-IsSound : (limits : StackLimits) (next : ℕ) → IsSound (new limits next)
unfolding slot
new-IsSound limits next = record {
  no_zero = refl;
  fresh = λ e le. refl;
  held_exist = λ o i e s nz. cc;
  held_once = λ o i p j e s t nz. cc;
}

replicate-empty : (n i e : ℕ) → get_elem? (replicate n 0) i ≡ some e → e ≡ 0
replicate-empty zero i e h = cc
replicate-empty (suc n) zero e h = ground arith
replicate-empty (suc n) (suc i) e h = replicate-empty n i e h

-- A slot of what is open afterwards that is not empty was there before.
open_slots-slot :
    (v : Inventories) (owner size o i e : ℕ)
    → slot (open_slots v owner size) o i ≡ some e
    → e ≢ 0
    → slot v o i ≡ some e
unfolding slot open_slots
open_slots-slot v owner size o i e h nz = elim (Bool-cases (o == owner)) [
  | inl same ↦ absurd (nz (replicate-empty size i e (rw same at h)))
  | inr other ↦ rw other at h
]

-- Opening an inventory, also one that is open already, keeps sound inventories sound.
pub open_slots-IsSound :
    (v : Inventories) (owner size : ℕ) → IsSound v → IsSound (open_slots v owner size)
unfolding open_slots
open_slots-IsSound v owner size h = record {
  no_zero = h.no_zero;
  fresh = λ e le. h.fresh e le;
  held_exist = λ o i e s nz. h.held_exist o i e (open_slots-slot v owner size o i e s nz) nz;
  held_once = λ o i p j e s t nz.
      h.held_once o i p j e (open_slots-slot v owner size o i e s nz)
        (open_slots-slot v owner size p j e t nz) nz;
}
