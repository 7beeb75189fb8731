-- ===== src/Inventory/Moves.antt =====
-- The operations of crates/skysaga-world/src/inventory.rs: collect, detach, consume, transfer, swap,
-- take all, destroy, equip and unequip, and the primitives `exchange`, `try_split` and `try_merge`.
pub mod Cases
use sky_saga_rs.Common.{
  ℕ, zero, suc, ◌+◌, ◌-◌, min, Bool, true, false, not, ◌&&◌, ◌||◌, List, [], ◌∷◌, ◌++◌, Option,
  none, some, length, ltb, leb, ◌==◌, if◌then◌else◌,
}
use sky_saga_rs.Common.Options.{◌>>=◌, ◌>>◌, guard, unwrap_or}
use sky_saga_rs.Inventory.{
  Inventories, InventoryItem, Effect, item_created, item_changed, item_removed, slots_changed,
  is_hand_slot, get_limit, slot, held, slot_list, is_open, set_slot, set_count, remove_item,
  create_stack, first_free_rucksack_slot,
}

abbrev pub Outcome : Type 0
Outcome = List Effect × Inventories

-- Nothing is done, and nothing is sent.
abbrev pub refused : Inventories → Outcome
refused v = ([], v)

-- Two names are the same name.
abbrev pub same_name : Option ℕ → Option ℕ → Bool
same_name none none = true
same_name none (some b) = false
same_name (some a) none = false
same_name (some a) (some b) = a == b

-- `is_some`
abbrev pub is_there : Option ℕ → Bool
is_there none = false
is_there (some _) = true

unfoldable pub addressable : Inventories → ℕ → ℕ → ℕ → ℕ → Bool
addressable v source_owner source_slot target_owner target_slot =
    is_there (slot v source_owner source_slot) && is_there (slot v target_owner target_slot)

unfoldable pub exchange : Inventories → ℕ → ℕ → ℕ → ℕ → Outcome
exchange v source_owner source_slot target_owner target_slot =
    let source_item = held v source_owner source_slot in
    let target_item = held v target_owner target_slot in
    let emptied = set_slot v source_owner source_slot target_item in
    let swapped = set_slot emptied target_owner target_slot source_item in
    (
      if source_owner == target_owner
          then slots_changed source_owner ∷ []
          else slots_changed source_owner ∷ slots_changed target_owner ∷ [],
      swapped,
    )

-- A name of `None` is passed to the new stack as it is; the source creates the stack with the name
-- 0 and then clears it.
unfoldable pub try_split : Inventories → ℕ → ℕ → ℕ → ℕ → ℕ → Option Outcome
unfolding create_stack
try_split v source_owner source_slot target_owner target_slot count = do
  there ← slot v target_owner target_slot
  guard (there == 0)
  source_item ← slot v source_owner source_slot
  stack ← v.items source_item
  guard (not (count == 0 || leb stack.count count))
  let taken = set_count v source_item (stack.count - count)
  let made = create_stack taken stack.name count
  some (
    item_changed source_item ∷ item_created made.0 ∷ slots_changed target_owner ∷ [],
    set_slot made.1 target_owner target_slot made.0,
  )

-- The end of a merge: `left` stay in the source's stack, or the stack goes.
unfoldable pub settle : Inventories → ℕ → ℕ → ℕ → ℕ → ℕ → Outcome
settle v source_owner source_slot source_item target_item left =
    if ltb 0 left
    then (item_changed target_item ∷ item_changed source_item ∷ [], set_count v source_item left)
    else (
      item_changed target_item ∷ slots_changed source_owner ∷ item_removed source_item ∷ [],
      remove_item (set_slot v source_owner source_slot 0) source_item,
    )

unfoldable pub try_merge : Inventories → ℕ → ℕ → ℕ → ℕ → ℕ → Option Outcome
unfolding settle
try_merge v source_owner source_slot target_owner target_slot count = do
  guard (not (source_owner == target_owner && source_slot == target_slot))
  source_item ← slot v source_owner source_slot
  target_item ← slot v target_owner target_slot
  guard (not (source_item == 0 || target_item == 0))
  source ← v.items source_item
  name ← source.name
  target ← v.items target_item
  guard (same_name target.name (some name))
  let space = get_limit v.limits name - target.count
  guard (not (space == 0))
  let wanted = if ltb 0 count then min count source.count else source.count
  let moved = min wanted space
  guard (not (moved == 0))
  some (
      settle (set_count v target_item (target.count + moved)) source_owner source_slot source_item
        target_item (source.count - moved))

-- The first of two ways that is one.
abbrev pub or_else {ℓ} : {A : Type ℓ} → Option A → A → A
or_else none d = d
or_else (some a) d = a

unfoldable pub transfer_to_slot : Inventories → ℕ → ℕ → ℕ → ℕ → ℕ → Outcome
unfolding addressable
transfer_to_slot v source_owner source_slot target_owner target_slot count =
    if not (addressable v source_owner source_slot target_owner target_slot)
    then refused v
    else if held v source_owner source_slot == 0
    then refused v
    else or_else (try_split v source_owner source_slot target_owner target_slot count) (
        or_else (try_merge v source_owner source_slot target_owner target_slot count)
          (exchange v source_owner source_slot target_owner target_slot))

unfoldable pub swap : Inventories → ℕ → ℕ → ℕ → ℕ → Outcome
unfolding addressable
swap v source_owner source_slot target_owner target_slot =
    if not (addressable v source_owner source_slot target_owner target_slot)
    then refused v
    else if source_owner == target_owner && source_slot == target_slot
    then refused v
    else if held v source_owner source_slot == 0
    then refused v
    else or_else (try_merge v source_owner source_slot target_owner target_slot 0)
        (exchange v source_owner source_slot target_owner target_slot)

unfoldable pub destroy : Inventories → ℕ → ℕ → ℕ → Outcome
destroy v owner i count =
    let item = held v owner i in
    let stack = unwrap_or 0 (v.items item >>= λ x. some x.count) in
    if item == 0
    then refused v
    else if ltb 0 count && ltb count stack
    then (item_changed item ∷ [], set_count v item (stack - count))
    else (slots_changed owner ∷ item_removed item ∷ [], remove_item (set_slot v owner i 0) item)

unfoldable pub equip : Inventories → ℕ → ℕ → ℕ → Outcome
unfolding addressable
equip v owner bag_slot equip_slot =
    if not (addressable v owner bag_slot owner equip_slot)
    then refused v
    else if is_hand_slot equip_slot
    then refused v
    else if held v owner bag_slot == 0
    then refused v
    else exchange v owner bag_slot owner equip_slot

unfoldable pub unequip : Inventories → ℕ → ℕ → Outcome
unequip v owner equip_slot =
    if is_hand_slot equip_slot
    then refused v
    else if held v owner equip_slot == 0
    then refused v
    else elim (first_free_rucksack_slot v owner) [
      | none ↦ refused v
      | some free ↦ exchange v owner equip_slot owner free
    ]

unfoldable pub detach : Inventories → ℕ → ℕ → Option (ℕ × Outcome)
detach v owner i = do
  item ← slot v owner i
  guard (not (item == 0))
  some (item, (slots_changed owner ∷ [], set_slot v owner i 0))

unfoldable pub consume_loose : Inventories → ℕ → ℕ → Outcome
consume_loose v e count = elim (v.items e) [
  | none ↦ refused v
  | some stack ↦
      if ltb stack.count count
      then refused v
      else if stack.count - count == 0
      then (item_removed e ∷ [], remove_item v e)
      else (item_changed e ∷ [], set_count v e (stack.count - count))
]

-- A stack of this name with room under the limit.
abbrev pub takes : ℕ → ℕ → Option InventoryItem → Bool
takes name limit none = false
takes name limit (some other) = same_name other.name (some name) && ltb other.count limit

-- The first item of these slots that has the name and room under the limit.
unfoldable pub find_mergeable : Inventories → ℕ → ℕ → List ℕ → Option ℕ
find_mergeable v name limit [] = none
find_mergeable v name limit (e ∷ es) =
    let rest = find_mergeable v name limit es in
    if not (e == 0) && takes name limit (v.items e) then some e else rest

-- A whole stack, or a part of it, goes onto the stack `into`.
unfoldable pub collect_into : Inventories → ℕ → ℕ → ℕ → ℕ → Outcome
collect_into v e into count room =
    let moved = min count room in
    let grown = set_count v into (unwrap_or 0 (v.items into >>= λ x. some x.count) + moved) in
    if count - moved == 0
    then (item_changed into ∷ item_removed e ∷ [], remove_item grown e)
    else (item_changed into ∷ item_changed e ∷ [], set_count grown e (count - moved))

unfoldable pub collect_named : Inventories → ℕ → ℕ → ℕ → ℕ → Outcome
unfolding find_mergeable collect_into
collect_named v owner e name count =
    let limit = get_limit v.limits name in
    elim (find_mergeable v name limit (slot_list v owner)) [
      | some into ↦
          collect_into v e into count (limit - unwrap_or 0 (v.items into >>= λ x. some x.count))
      | none ↦ elim (first_free_rucksack_slot v owner) [
        | none ↦ refused v
        | some free ↦ (slots_changed owner ∷ [], set_slot v owner free e)
      ]
    ]

unfoldable pub collect : Inventories → ℕ → ℕ → Outcome
unfolding collect_named
collect v owner e = elim (v.items e) [
  | none ↦ refused v
  | some stack ↦ elim stack.name [
    | none ↦ refused v
    | some name ↦ collect_named v owner e name stack.count
  ]
]

-- `transfer_all`: the first stack of the target that takes something, over `count` target slots
-- from `target_slot` on.
unfoldable pub merge_first : ℕ → Inventories → ℕ → ℕ → ℕ → ℕ → Option Outcome
merge_first zero v source_owner source_slot target_owner target_slot = none
merge_first (suc count) v source_owner source_slot target_owner target_slot =
    let rest = merge_first count v source_owner source_slot target_owner (target_slot + 1) in
    if held v target_owner target_slot == 0
    then rest
    else elim (try_merge v source_owner source_slot target_owner target_slot 0) [
      | none ↦ rest
      | some done ↦ some done
    ]

-- One source slot: what is sent, the new state, and whether the loop goes on.
unfoldable pub take_slot : Inventories → ℕ → ℕ → ℕ → Outcome × Bool
unfolding merge_first
take_slot v source_owner source_slot target_owner =
    let (sent, merged) =
      or_else
        (merge_first (length (slot_list v target_owner)) v source_owner source_slot target_owner 0)
        (refused v) in
    if held v source_owner source_slot == 0
    then (refused v, true)
    else if held merged source_owner source_slot == 0
    then ((sent, merged), true)
    else elim (first_free_rucksack_slot merged target_owner) [
      | none ↦ ((sent, merged), false)
      | some free ↦
          let (more, moved) = exchange merged source_owner source_slot target_owner free in
          ((sent ++ more, moved), true)
    ]

unfoldable pub take_slots : ℕ → Inventories → ℕ → ℕ → ℕ → Outcome
unfolding take_slot
take_slots zero v source_owner source_slot target_owner = refused v
take_slots (suc left) v source_owner source_slot target_owner =
    let ((sent, after), goes_on) = take_slot v source_owner source_slot target_owner in
    let rest = take_slots left after source_owner (source_slot + 1) target_owner in
    if goes_on then (sent ++ rest.0, rest.1) else (sent, after)

unfoldable pub transfer_all : Inventories → ℕ → ℕ → Outcome
unfolding take_slots
transfer_all v source_owner target_owner =
    if not (is_open v source_owner) || not (is_open v target_owner)
    then refused v
    else take_slots (length (slot_list v source_owner)) v source_owner 0 target_owner
