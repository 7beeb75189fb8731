-- ===== src/Inventory/Steps.antt =====
-- The operations of crates/skysaga-world/src/inventory.rs in any order.
use sky_saga_rs.Common.{ℕ, ◌+◌, ◌^◌, ◌<◌, ◌≡◌, some}
use sky_saga_rs.Inventory.{
  Inventories, StackLimits, new, open_slots, give, set_limits, reserve_ids_from, close,
  create_loose, create_loose_with_id,
}
use sky_saga_rs.Inventory.Moves.{
  Outcome, transfer_to_slot, swap, transfer_all, destroy, equip, unequip, detach, collect,
  consume_loose,
}
use sky_saga_rs.Inventory.Sound.{IsSound}
use sky_saga_rs.Inventory.Sound.Kept.{
  transfer_to_slot-IsSound, swap-IsSound, destroy-IsSound, equip-IsSound, unequip-IsSound,
  detach-IsSound, give-IsSound, transfer_all-IsSound,
}
use sky_saga_rs.Inventory.Sound.Loose.{
  IsLoose, set_limits-IsSound, reserve_ids_from-IsSound, close-IsSound, create_loose-IsSound,
  create_loose_with_id-IsSound, collect-IsSound, consume_loose-IsSound,
}
use sky_saga_rs.Inventory.Sound.Opened.{new-IsSound, open_slots-IsSound}

-- The next id is one, and the one after it is a u32.
abbrev pub HasIds : Inventories → Type 0
HasIds v = (0 < v.next_entity_id) × (v.next_entity_id + 1 < 2 ^ 32)

-- One call of an operation, with any arguments; one that may create a stack is made while there are
-- ids, and one on a loose stack for a stack that no slot holds.
pub data Step : Inventories → Inventories → Type 0 where
  opens : (v : Inventories) (owner size : ℕ) → Step v (open_slots v owner size)
  gives :
      (v : Inventories) (owner i name n e : ℕ) (w : Inventories)
      → HasIds v
      → give v owner i name n ≡ some (e, w)
      → Step v w
  transfers : (v : Inventories) (o i p j n : ℕ) → HasIds v → Step v (transfer_to_slot v o i p j n).1
  swaps : (v : Inventories) (o i p j : ℕ) → Step v (swap v o i p j).1
  transfers_all : (v : Inventories) (o p : ℕ) → Step v (transfer_all v o p).1
  destroys : (v : Inventories) (o i n : ℕ) → Step v (destroy v o i n).1
  equips : (v : Inventories) (o i k : ℕ) → Step v (equip v o i k).1
  unequips : (v : Inventories) (o k : ℕ) → Step v (unequip v o k).1
  detaches :
      (v : Inventories) (o i e : ℕ) (out : Outcome) → detach v o i ≡ some (e, out) → Step v out.1
  sets_limits : (v : Inventories) (limits : StackLimits) → Step v (set_limits v limits)
  reserves : (v : Inventories) (next : ℕ) → Step v (reserve_ids_from v next)
  closes : (v : Inventories) (owner : ℕ) → Step v (close v owner)
  creates : (v : Inventories) (name n : ℕ) → HasIds v → Step v (create_loose v name n).1
  creates_with_id :
      (v : Inventories) (e name n : ℕ)
      → 0 < e
      → e + 1 < 2 ^ 32
      → Step v (create_loose_with_id v e name n)
  collects : (v : Inventories) (owner e : ℕ) → IsLoose v e → Step v (collect v owner e).1
  consumes : (v : Inventories) (e n : ℕ) → IsLoose v e → Step v (consume_loose v e n).1

pub data Steps : Inventories → Inventories → Type 0 where
  rest : {v : Inventories} → Steps v v
  then_step : {u v w : Inventories} → Steps u v → Step v w → Steps u w

Step-IsSound : {v w : Inventories} → Step v w → IsSound v → IsSound w
Step-IsSound (opens v owner size) h = open_slots-IsSound v owner size h
Step-IsSound (gives v owner i name n e w ids given) h =
    give-IsSound v owner i h name n e w ids.0 ids.1 given
Step-IsSound (transfers v o i p j n ids) h = transfer_to_slot-IsSound v o i p j h n ids.0 ids.1
Step-IsSound (swaps v o i p j) h = swap-IsSound v o i p j h
Step-IsSound (transfers_all v o p) h = transfer_all-IsSound o p v h
Step-IsSound (destroys v o i n) h = destroy-IsSound v o i h n
Step-IsSound (equips v o i k) h = equip-IsSound v o i h k
Step-IsSound (unequips v o k) h = unequip-IsSound v o k h
Step-IsSound (detaches v o i e out taken) h = detach-IsSound v o i h e out taken
Step-IsSound (sets_limits v limits) h = set_limits-IsSound v limits h
Step-IsSound (reserves v next) h = reserve_ids_from-IsSound v next h
Step-IsSound (closes v owner) h = close-IsSound v owner h
Step-IsSound (creates v name n ids) h = create_loose-IsSound v name n ids.0 ids.1 h
Step-IsSound (creates_with_id v e name n pos room) h =
    create_loose_with_id-IsSound v e name n pos room h
Step-IsSound (collects v owner e loose) h = collect-IsSound v owner e loose h
Step-IsSound (consumes v e n loose) h = consume_loose-IsSound v e n loose h

-- From a world without inventories and after any calls of all the operations, of which those that may
-- create a stack are made while there are ids left, and those on a loose stack for one that no slot
-- holds, an item is in one square at most, and each square that is not empty holds an item that there
-- is.
pub IsSound-Steps :
    {limits : StackLimits} {next : ℕ} {v : Inventories} → Steps (new limits next) v → IsSound v
IsSound-Steps {limits} {next} rest = new-IsSound limits next
IsSound-Steps (then_step before step) = Step-IsSound step (IsSound-Steps before)
