-- ===== src/World/Tests.antt =====
-- A world with some changes.
use sky_saga_rs.Common.{◌<◌, ◌≡◌, refl, false, List, [], ◌∷◌, ◌++◌, map, some, none, length, arith}
use sky_saga_rs.Common.Text.{Text}
use sky_saga_rs.World.{
  contains, World, Place, Device, PlacedDevice, FloorDrop, default_changes, block_at,
  restore_block_edits, take_floor_drop, mark_dead, highest, next_entity_id, restore_devices,
}
use sky_saga_rs.World.Calls.{Call, sets_block, takes_edits, marks_dead, run}
use sky_saga_rs.World.Ids.{held, next_entity_id-fresh, from, restore_devices-from, known}
use sky_saga_rs.World.Replay.{restore_block_edits-run}
use sky_saga_rs.World.Claims.{lying, Unused, mark_dead-once, take_floor_drop-once}

abbrev here : Place
here = ((0, (0, 0)), (1, (2, 3)))

-- One chunk of dirt, with four entities and a drop on the floor.
abbrev island : World
island = record {
  chunks = record { coords = (0, (0, 0)); data1 = some (0 ∷ 0 ∷ []) } ∷ [];
  entities = 1 ∷ 4 ∷ [];
  creatures = [];
  changes = record default_changes {
    drops = record { pickup = 9; stack = 8; item = 77; count = 1; position = (0, (0, 0)) } ∷ [];
  };
}

abbrev calls : List Call
calls =
    sets_block (record { place = here; material = 2 })
    ∷ takes_edits
    ∷ marks_dead 4
    ∷ sets_block (record { place = here; material = 255 })
    ∷ []

restore_block_edits-run_example :
    block_at here
      (restore_block_edits ((run calls island).1 ++ (run calls island).0.changes.unsaved) island)
    ≡ block_at here (run calls island).0
restore_block_edits-run_example = restore_block_edits-run calls island here refl

mark_dead-once_example : (mark_dead 4 (run calls (mark_dead 4 island).1).0).0 ≡ false
mark_dead-once_example = mark_dead-once 4 calls island

take_floor_drop-once_example :
    ((d : FloorDrop) × ((take_floor_drop 9 island).0 ≡ some d) × (d.pickup ≡ 9))
    × ((take_floor_drop 9 (run calls (take_floor_drop 9 island).1).0).0 ≡ none)
unfolding lying Unused
take_floor_drop-once_example = take_floor_drop-once 9 calls island refl tt

next_entity_id-fresh_example : 9 < next_entity_id island
unfolding held highest contains
next_entity_id-fresh_example = next_entity_id-fresh island 9 refl (omega arith)

-- A data file with one entity, whose stored name is spelled as in the file.
abbrev anvil : Text
anvil = 97 ∷ []

abbrev stored : List PlacedDevice
stored =
    record { name = anvil; position = (64, (64, 64)) }
    ∷ record { name = anvil; position = (0, (64, 64)) }
    ∷ []

restore_devices-from_example :
    (new : List Device) × ((restore_devices (λ name. some name) stored island).changes.devices
      ≡ [] ++ new)
    × (map (λ d. (d.name, d.position)) new ≡ known (λ name. some name) stored)
    × (map (λ d. d.id) new ≡ from (next_entity_id island) (length new))
unfolding held highest
restore_devices-from_example = restore_devices-from (λ name. some name) stored island (omega arith)
