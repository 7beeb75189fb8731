-- ===== src/Inventory/Tests.antt =====
-- Runs of the inventory's operations.
use sky_saga_rs.Common.{ℕ, ◌+◌, ◌<◌, ◌≤◌, ◌≡◌, ◌≢◌, refl, some, arith}
use sky_saga_rs.Common.Maps.{empty}
use sky_saga_rs.Inventory.{
  Inventories, StackLimits, new, open_slots, give, create_stack, set_slot, set_count, slot, held,
  name, get_limit, first_free_rucksack_slot, new_item, find_empty_from, find_empty, count,
}
use sky_saga_rs.Inventory.Moves.{
  Outcome, or_else, refused, try_split, try_merge, transfer_to_slot, destroy, detach,
}
use sky_saga_rs.Inventory.Rucksack.{first_free_rucksack_slot-least}
use sky_saga_rs.Inventory.Conserves.{
  amount_of, try_merge-conserves, try_merge-limit, try_split-conserves,
}
use sky_saga_rs.Inventory.Sound.{IsSound}
use sky_saga_rs.Inventory.Sound.Kept.{give-IsSound}
use sky_saga_rs.Inventory.Steps.{rest, then_step, opens, gives, transfers, destroys, IsSound-Steps}
use sky_saga_rs.Inventory.Sound.Opened.{new-IsSound, open_slots-IsSound}

abbrev limits : StackLimits
limits = record { overrides = empty }

-- Two owners with empty inventories.
abbrev opened : Inventories
opened = open_slots (open_slots (new limits 1) 100 12) 200 11

opened-IsSound : IsSound opened
opened-IsSound =
    open_slots-IsSound (open_slots (new limits 1) 100 12) 200 11
      (open_slots-IsSound (new limits 1) 100 12 (new-IsSound limits 1))

abbrev given : Inventories → ℕ → ℕ → ℕ → ℕ → Inventories
given v owner i kind n = (or_else (give v owner i kind n) (0, v)).1

-- Ten of a kind in slot 9 of one owner, and sixty in slot 10 of the other.
abbrev one_stack : Inventories
one_stack = given opened 100 9 7 10

abbrev two_stacks : Inventories
two_stacks = given one_stack 200 10 7 60

one_stack-given : give opened 100 9 7 10 ≡ some (1, one_stack)
unfolding give create_stack slot set_slot open_slots
one_stack-given = refl

two_stacks-given : give one_stack 200 10 7 60 ≡ some (2, two_stacks)
unfolding give create_stack slot set_slot open_slots
two_stacks-given = refl

opened-next : opened.next_entity_id ≡ 1
unfolding open_slots
opened-next = refl

one_stack-next : one_stack.next_entity_id ≡ 2
unfolding give create_stack slot set_slot open_slots
one_stack-next = refl

two_stacks-next : two_stacks.next_entity_id ≡ 3
unfolding give create_stack slot set_slot open_slots
two_stacks-next = refl

one_stack-IsSound : IsSound one_stack
one_stack-IsSound =
    give-IsSound opened 100 9 opened-IsSound 7 10 1 one_stack (omega (arith, opened-next))
      (omega (arith, opened-next)) one_stack-given

two_stacks-IsSound : IsSound two_stacks
two_stacks-IsSound =
    give-IsSound one_stack 200 10 one_stack-IsSound 7 60 2 two_stacks
      (omega (arith, one_stack-next)) (omega (arith, one_stack-next)) two_stacks-given

-- Four of the ten fill the other owner's stack to the limit of 64.
abbrev merged : Outcome
merged = or_else (try_merge two_stacks 100 9 200 10 0) (refused two_stacks)

two_stacks-merged : try_merge two_stacks 100 9 200 10 0 ≡ some merged
unfolding new_item try_merge slot give create_stack set_slot open_slots get_limit
two_stacks-merged = refl

abbrev split : Outcome
split = or_else (try_split two_stacks 100 9 200 0 3) (refused two_stacks)

two_stacks-split : try_split two_stacks 100 9 200 0 3 ≡ some split
unfolding new_item try_split slot give create_stack set_slot open_slots
two_stacks-split = refl

merged-target : amount_of merged.1 2 ≡ 64
unfolding new_item try_merge slot give create_stack set_slot open_slots get_limit count set_count
merged-target = refl

merged-source : amount_of merged.1 1 ≡ 6
unfolding new_item try_merge slot give create_stack set_slot open_slots get_limit count set_count
merged-source = refl

two_stacks-name : name two_stacks (held two_stacks 200 10) ≡ some 7
unfolding new_item name slot give create_stack set_slot open_slots
two_stacks-name = refl

abbrev detached : Outcome
detached = (or_else (detach two_stacks 100 9) (0, refused two_stacks)).1

two_stacks-detached : detach two_stacks 100 9 ≡ some (1, detached)
unfolding detach slot give create_stack set_slot open_slots
two_stacks-detached = refl

two_stacks-free : first_free_rucksack_slot two_stacks 100 ≡ some 10
unfolding first_free_rucksack_slot find_empty_from find_empty slot give create_stack set_slot
    open_slots
two_stacks-free = refl

try_merge-conserves_example :
    (amount_of merged.1 (held two_stacks 100 9) + amount_of merged.1 (held two_stacks 200 10)
      ≡ amount_of two_stacks (held two_stacks 100 9)
        + amount_of two_stacks (held two_stacks 200 10))
    × (amount_of two_stacks (held two_stacks 200 10) < amount_of merged.1 (held two_stacks 200 10))
    × ((d : ℕ)
        → d ≢ held two_stacks 100 9
        → d ≢ held two_stacks 200 10
        → amount_of merged.1 d ≡ amount_of two_stacks d)
try_merge-conserves_example =
    try_merge-conserves two_stacks 100 9 200 10 0 merged two_stacks-IsSound two_stacks-merged

try_merge-limit_example :
    amount_of merged.1 (held two_stacks 200 10) ≤ get_limit two_stacks.limits 7
try_merge-limit_example =
    try_merge-limit two_stacks 100 9 200 10 0 merged two_stacks-IsSound 7 two_stacks-merged
      two_stacks-name

try_split-conserves_example :
    (amount_of split.1 (held two_stacks 100 9) + amount_of split.1 two_stacks.next_entity_id
      ≡ amount_of two_stacks (held two_stacks 100 9))
    × (amount_of split.1 two_stacks.next_entity_id ≡ 3)
    × (slot split.1 200 0 ≡ some two_stacks.next_entity_id)
    × ((d : ℕ)
        → d ≢ held two_stacks 100 9
        → d ≢ two_stacks.next_entity_id
        → amount_of split.1 d ≡ amount_of two_stacks d)
try_split-conserves_example =
    try_split-conserves two_stacks 100 9 200 0 3 split two_stacks-IsSound
      (omega (arith, two_stacks-next)) (omega (arith, two_stacks-next)) two_stacks-split

first_free_rucksack_slot-least_example :
    (9 ≤ 10)
    × (slot two_stacks 100 10 ≡ some 0)
    × ((m : ℕ) → 9 ≤ m → m < 10 → slot two_stacks 100 m ≢ some 0)
first_free_rucksack_slot-least_example =
    first_free_rucksack_slot-least two_stacks 100 10 two_stacks-free

IsSound-Steps_example : IsSound (destroy (transfer_to_slot two_stacks 100 9 200 0 3).1 200 0 1).1
IsSound-Steps_example = IsSound-Steps (
    then_step
      (then_step
        (then_step
          (then_step
            (then_step (then_step rest (opens (new limits 1) 100 12))
              (opens (open_slots (new limits 1) 100 12) 200 11))
            (gives opened 100 9 7 10 1 one_stack
              (omega (arith, opened-next), omega (arith, opened-next)) one_stack-given))
          (gives one_stack 200 10 7 60 2 two_stacks
            (omega (arith, one_stack-next), omega (arith, one_stack-next)) two_stacks-given))
        (transfers two_stacks 100 9 200 0 3
          (omega (arith, two_stacks-next), omega (arith, two_stacks-next))))
      (destroys (transfer_to_slot two_stacks 100 9 200 0 3).1 200 0 1))
