-- ===== src/World/Calls.antt =====
-- The calls on a shared world while it is played in (crates/skysaga-game/src/world.rs).
use sky_saga_rs.Common.{ℕ, List, [], ◌∷◌, ◌++◌}
use sky_saga_rs.Common.Text.{Text}
use sky_saga_rs.World.{
  World, VoxelEdit, Device, Creature, FloorDrop, set_block, take_unsaved_edits, place_device,
  take_unsaved_devices, spawn_creature, set_damage, mark_dead, drop_item, take_floor_drop,
  set_home_title,
}

pub data Call : Type 0 where
  sets_block : VoxelEdit → Call
  takes_edits : Call
  places_device : Device → Call
  takes_devices : Call
  spawns : Creature → Call
  damages : (id damage : ℕ) → Call
  marks_dead : ℕ → Call
  drops_item : FloorDrop → Call
  takes_drop : (pickup : ℕ) → Call
  titles : Text → (entity : ℕ) → Call

-- The world after, and the edits that are handed out to be written down.
unfoldable pub call : Call → World → World × List VoxelEdit
unfolding take_unsaved_edits take_unsaved_devices
call (sets_block edit) w = (set_block edit w, [])
call takes_edits w = ((take_unsaved_edits w).1, (take_unsaved_edits w).0)
call (places_device device) w = (place_device device w, [])
call takes_devices w = ((take_unsaved_devices w).1, [])
call (spawns creature) w = (spawn_creature creature w, [])
call (damages id damage) w = (set_damage id damage w, [])
call (marks_dead id) w = ((mark_dead id w).1, [])
call (drops_item drop) w = (drop_item drop w, [])
call (takes_drop pickup) w = ((take_floor_drop pickup w).1, [])
call (titles title entity) w = ((set_home_title title entity w).1, [])

unfoldable pub run : List Call → World → World × List VoxelEdit
unfolding call
run [] w = (w, [])
run (c ∷ cs) w = let rest = run cs (call c w).0 in (rest.0, (call c w).1 ++ rest.1)
