-- ===== src/Inventory.antt =====
-- crates/skysaga-world/src/inventory.rs: every inventory in the world and every item in one.
-- `HashMap`s are functions. An operation returns its effects, in the order in which they are sent,
-- beside the new state.
pub mod Slots
pub mod Rucksack
pub mod Steps
pub mod Moves
pub mod Sound
pub mod Conserves
pub mod Tests
use sky_saga_rs.Common.{
  ℕ, zero, suc, ◌+◌, ◌-◌, ◌*◌, ◌/◌, ◌%◌, ◌^◌, min, max, Bool, true, false, not, ◌&&◌, ◌||◌, List,
  [], ◌∷◌, ◌++◌, Option, none, some, length, get_elem?, set, replicate, ltb, leb, ◌==◌,
  if◌then◌else◌,
}
use sky_saga_rs.Common.Options.{◌>>=◌, ◌>>◌, guard, unwrap_or}
use sky_saga_rs.Common.Maps.{Map}
use sky_saga_rs.Common.Maps
use sky_saga_rs.Packets.Types.{InventorySlotData}

abbrev pub default_stack_limit : ℕ
default_stack_limit = 64

abbrev pub first_rucksack_slot : ℕ
first_rucksack_slot = 9

-- `HAND_SLOTS.contains`, of the range 0..2.
abbrev pub is_hand_slot : ℕ → Bool
is_hand_slot slot = ltb slot 2

pub record StackLimits : Type 0 where
  pub overrides : Map ℕ

-- `StackLimits::set` and `StackLimits::get`
unfoldable pub set_limit : StackLimits → ℕ → ℕ → StackLimits
set_limit l name limit = record { overrides = Maps.insert l.overrides name limit }

unfoldable pub get_limit : StackLimits → ℕ → ℕ
get_limit l name = unwrap_or default_stack_limit (l.overrides name)

pub data Effect : Type 0 where
  item_created item_changed item_removed slots_changed : ℕ → Effect

pub record InventoryItem : Type 0 where
  pub allow_adding_to_found_in_biomes : Bool
  pub has_been_transferred : Bool
  pub slot_data : InventorySlotData
  pub open slot_data use *
  pub item_locked : Bool

pub record Inventories : Type 0 where
  pub slots : Map (List ℕ)
  pub items : Map InventoryItem
  pub limits : StackLimits
  pub next_entity_id : ℕ

-- `Inventories::new`
abbrev pub new : StackLimits → ℕ → Inventories
new limits next = record {
  slots = Maps.empty;
  items = Maps.empty;
  limits = limits;
  next_entity_id = next;
}

unfoldable pub set_limits : Inventories → StackLimits → Inventories
set_limits v limits = record v { limits = limits }

-- `open`: the source's word is reserved here.
unfoldable pub open_slots : Inventories → ℕ → ℕ → Inventories
open_slots v owner size = record v { slots = Maps.insert v.slots owner (replicate size 0) }

-- The items of the slots that are not empty.
unfoldable pub remove_items : Map InventoryItem → List ℕ → Map InventoryItem
remove_items items [] = items
remove_items items (e ∷ es) = remove_items (if e == 0 then items else Maps.remove items e) es

unfoldable pub close : Inventories → ℕ → Inventories
close v owner = elim (v.slots owner) [
  | none ↦ v
  | some es ↦ record v { slots = Maps.remove v.slots owner; items = remove_items v.items es }
]

unfoldable pub is_open : Inventories → ℕ → Bool
is_open v owner = elim (v.slots owner) [ none ↦ false | some _ ↦ true ]

-- `slots`, with an empty list for no inventory.
unfoldable pub slot_list : Inventories → ℕ → List ℕ
slot_list v owner = unwrap_or [] (v.slots owner)

unfoldable pub slot : Inventories → ℕ → ℕ → Option ℕ
slot v owner i = v.slots owner >>= λ l. get_elem? l i

-- `slot(..).unwrap_or(0)`
abbrev pub held : Inventories → ℕ → ℕ → ℕ
held v owner i = unwrap_or 0 (slot v owner i)

unfoldable pub count : Inventories → ℕ → Option ℕ
count v e = v.items e >>= λ item. some item.count

unfoldable pub name : Inventories → ℕ → Option ℕ
name v e = v.items e >>= λ item. item.name

-- `slots.get_mut(&owner)` and a write at the index, where there is such an inventory.
unfoldable pub set_slot : Inventories → ℕ → ℕ → ℕ → Inventories
set_slot v owner i e = elim (v.slots owner) [
  | none ↦ v
  | some l ↦ record v { slots = Maps.insert v.slots owner (set l i e) }
]

-- A write to the count of an item that there is.
abbrev pub with_count : ℕ → InventoryItem → InventoryItem
with_count n item = record item { slot_data = record item.slot_data { count = n } }

unfoldable pub set_count : Inventories → ℕ → ℕ → Inventories
set_count v e n = elim (v.items e) [
  | none ↦ v
  | some item ↦ record v { items = Maps.insert v.items e (with_count n item) }
]

unfoldable pub remove_item : Inventories → ℕ → Inventories
remove_item v e = record v { items = Maps.remove v.items e }

-- One lower-case hexadecimal digit, as its byte.
abbrev pub hex_digit : ℕ → ℕ
hex_digit d = if ltb d 10 then b'0' + d else b'a' + (d - 10)

-- `n` digits, the highest first.
unfoldable pub hex : ℕ → ℕ → List ℕ
hex zero v = []
hex (suc n) v = hex_digit (v / 16 ^ n % 16) ∷ hex n v

-- `00000000-0000-4000-8000-`
abbrev pub uuid_prefix : List ℕ
uuid_prefix =
    replicate 8 b'0'
    ++ (b'-' ∷ replicate 4 b'0')
    ++ (b'-' ∷ b'4' ∷ replicate 3 b'0')
    ++ (b'-' ∷ b'8' ∷ replicate 3 b'0')
    ++ (b'-' ∷ [])

unfoldable pub stack_uuid : ℕ → List ℕ
unfolding hex
stack_uuid e = uuid_prefix ++ hex 12 e

-- The component of a new stack; all that is not given is `Default::default()`.
unfoldable pub new_item : Option ℕ → ℕ → ℕ → InventoryItem
new_item name count e = record {
  allow_adding_to_found_in_biomes = false;
  has_been_transferred = false;
  slot_data = record {
    name = name;
    count = count;
    unknown3 = false;
    unknown4 = 0;
    unknown5 = 0;
    item_uuid = stack_uuid e;
  };
  item_locked = false;
}

-- `create_stack`, of a stack that may have no name (`try_split` clears it after the fact). The id
-- is a u32.
unfoldable pub create_stack : Inventories → Option ℕ → ℕ → ℕ × Inventories
create_stack v name count =
    let e = v.next_entity_id in
    (
      e,
      record v {
        items = Maps.insert v.items e (new_item name count e);
        next_entity_id = (e + 1) % 2 ^ 32;
      },
    )

unfoldable pub reserve_ids_from : Inventories → ℕ → Inventories
reserve_ids_from v next = record v { next_entity_id = max v.next_entity_id next }

-- `give`: none where there is no such slot or it is taken.
unfoldable pub give : Inventories → ℕ → ℕ → ℕ → ℕ → Option (ℕ × Inventories)
unfolding create_stack
give v owner i name count = do
  there ← slot v owner i
  guard (there == 0)
  let made = create_stack v (some name) count
  some (made.0, set_slot made.1 owner i made.0)

unfoldable pub create_loose : Inventories → ℕ → ℕ → ℕ × Inventories
unfolding create_stack
create_loose v name count = create_stack v (some name) count

unfoldable pub create_loose_with_id : Inventories → ℕ → ℕ → ℕ → Inventories
unfolding reserve_ids_from
create_loose_with_id v e name count =
    let ahead = reserve_ids_from v ((e + 1) % 2 ^ 32) in
    elim (v.items e) [
      | some _ ↦ ahead
      | none ↦ record ahead { items = Maps.insert v.items e (new_item (some name) count e) }
    ]

-- The first index from `i` on whose entry is 0.
unfoldable pub find_empty : ℕ → List ℕ → Option ℕ
find_empty i [] = none
find_empty i (e ∷ es) = let rest = find_empty (i + 1) es in if e == 0 then some i else rest

-- The same, of the entries that `skip(n)` leaves.
unfoldable pub find_empty_from : ℕ → ℕ → List ℕ → Option ℕ
unfolding find_empty
find_empty_from zero i es = find_empty i es
find_empty_from (suc n) i [] = none
find_empty_from (suc n) i (e ∷ es) = find_empty_from n (i + 1) es

unfoldable pub first_free_rucksack_slot : Inventories → ℕ → Option ℕ
unfolding find_empty_from
first_free_rucksack_slot v owner = v.slots owner >>= λ l. find_empty_from first_rucksack_slot 0 l
