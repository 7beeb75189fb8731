-- ===== src/World.antt =====
-- crates/skysaga-game/src/world.rs: what players change in a world that they share. A call holds the
-- world's lock to its end, so the calls of several players stand one after the other.
pub mod Calls
pub mod Ids
pub mod Replay
pub mod Claims
pub mod Tests
use sky_saga_rs.Common.{
  ℕ, ◌+◌, ◌*◌, ◌%◌, ◌^◌, max, Bool, true, false, not, ◌||◌, List, [], ◌∷◌, ◌++◌, map, Option, none,
  some, get_or, ltb, leb, ◌==◌, if◌then◌else◌,
}
use sky_saga_rs.Common.Options.{◌>>=◌, unwrap_or}
use sky_saga_rs.Common.Equality.{◌=?◌, Eq, Eq_nat, Eq_pair}
use sky_saga_rs.Common.Table.{Table, look, put}
use sky_saga_rs.Common.Text.{Text}

abbrev pub Vec3 : Type 0
Vec3 = ℕ × (ℕ × ℕ)

abbrev pub Place : Type 0
Place = Vec3 × Vec3

-- What the world reads of a chunk that it sends.
pub record Chunk : Type 0 where
  pub coords : Vec3
  pub data1 : Option (List ℕ)

pub record VoxelEdit : Type 0 where
  pub place : Place
  pub material : ℕ

-- `position` is what `position_of` finds among the components of the device's entity.
pub record Device : Type 0 where
  pub id : ℕ
  pub name : Text
  pub position : Option Vec3

pub record PlacedDevice : Type 0 where
  pub name : Text
  pub position : Vec3

-- Without the entity and the definition, which no call here reads.
pub record Creature : Type 0 where
  pub id : ℕ
  pub name : Text
  pub position : Vec3
  pub max_health : ℕ

pub record FloorDrop : Type 0 where
  pub pickup : ℕ
  pub stack : ℕ
  pub item : ℕ
  pub count : ℕ
  pub position : Vec3

pub record WorldChanges : Type 0 where
  pub voxels : Table Place ℕ
  pub unsaved : List VoxelEdit
  pub devices : List Device
  pub unsaved_devices : List PlacedDevice
  pub creatures : List Creature
  pub damage : Table ℕ ℕ
  pub drops : List FloorDrop
  pub title : Option (ℕ × Text)
  pub dead : List ℕ

abbrev pub default_changes : WorldChanges
default_changes = record {
  voxels = [];
  unsaved = [];
  devices = [];
  unsaved_devices = [];
  creatures = [];
  damage = [];
  drops = [];
  title = none;
  dead = [];
}

-- The terrain, the ids of the entities that the island was built with, its creatures, and what has
-- been changed since.
pub record World : Type 0 where
  pub chunks : List Chunk
  pub entities : List ℕ
  pub creatures : List Creature
  pub changes : WorldChanges

abbrev pub air : ℕ
air = 255

abbrev pub chunk_size : ℕ
chunk_size = 32

unfoldable pub find_chunk : Vec3 → List Chunk → Option Chunk
find_chunk coords [] = none
find_chunk coords (c ∷ cs) =
    let rest = find_chunk coords cs in if c.coords =? coords then some c else rest

abbrev pub voxel_in : Vec3 → List ℕ → ℕ
voxel_in (x, (y, z)) bytes =
    if leb chunk_size x || leb chunk_size y || leb chunk_size z
    then air
    else get_or bytes (1 + y * chunk_size * chunk_size + z * chunk_size + x) air

-- `material_at`: the terrain, air where there is none.
unfoldable pub material_at : Place → World → ℕ
unfolding find_chunk
material_at (chunk, voxel) w =
    unwrap_or air
      (find_chunk chunk w.chunks >>= λ c. c.data1 >>= λ bytes. some (voxel_in voxel bytes))

unfoldable pub block_at : Place → World → ℕ
unfolding material_at
block_at place w = unwrap_or (material_at place w) (look w.changes.voxels place)

unfoldable pub set_block : VoxelEdit → World → World
set_block edit w = record w {
  changes = record (w.changes) {
    voxels = put w.changes.voxels edit.place edit.material;
    unsaved = w.changes.unsaved ++ (edit ∷ []);
  };
}

unfoldable pub put_edits : Table Place ℕ → List VoxelEdit → Table Place ℕ
put_edits t [] = t
put_edits t (edit ∷ edits) = put_edits (put t edit.place edit.material) edits

unfoldable pub restore_block_edits : List VoxelEdit → World → World
unfolding put_edits
restore_block_edits edits w = record w {
  changes = record (w.changes) { voxels = put_edits w.changes.voxels edits };
}

unfoldable pub take_unsaved_edits : World → List VoxelEdit × World
take_unsaved_edits w =
    (w.changes.unsaved, record w { changes = record (w.changes) { unsaved = [] } })

abbrev pub placed : Device → List PlacedDevice
placed d = elim d.position [
  | none ↦ []
  | some position ↦ record { name = d.name; position = position } ∷ []
]

unfoldable pub place_device : Device → World → World
place_device device w = record w {
  changes = record (w.changes) {
    unsaved_devices = w.changes.unsaved_devices ++ placed device;
    devices = w.changes.devices ++ (device ∷ []);
  };
}

unfoldable pub take_unsaved_devices : World → List PlacedDevice × World
take_unsaved_devices w =
    (w.changes.unsaved_devices, record w { changes = record (w.changes) { unsaved_devices = [] } })

unfoldable pub highest : List ℕ → ℕ
highest [] = 0
highest (i ∷ is) = max i (highest is)

abbrev pub title_id : Option (ℕ × Text) → ℕ
title_id none = 0
title_id (some (id, name)) = id

unfoldable pub next_entity_id : World → ℕ
unfolding highest
next_entity_id w =
    let c = w.changes in
    (max
        (max
          (max (max (highest w.entities) (highest (map (λ d. d.id) c.devices)))
            (highest (map (λ creature. creature.id) c.creatures)))
          (highest (map (λ drop. max drop.pickup drop.stack) c.drops)))
        (title_id c.title)
      + 1)
    % 2 ^ 32

-- A stored device whose name the data file has gets the next id, and one of another name is skipped.
abbrev pub built : Option Text → ℕ → PlacedDevice → List Device × ℕ
built none next d = ([], next)
built (some name) next d =
    (record { id = next; name = name; position = some d.position } ∷ [], (next + 1) % 2 ^ 32)

-- The loop; `definitions` gives the name that the data file has for an entity, if it has the entity.
unfoldable pub restored : (Text → Option Text) → ℕ → List PlacedDevice → List Device
restored definitions next [] = []
restored definitions next (d ∷ ds) =
    let step = built (definitions d.name) next d in step.0 ++ restored definitions step.1 ds

unfoldable pub restore_devices : (Text → Option Text) → List PlacedDevice → World → World
unfolding next_entity_id restored
restore_devices definitions stored w = record w {
  changes = record (w.changes) {
    devices = w.changes.devices ++ restored definitions (next_entity_id w) stored;
  };
}

unfoldable pub spawn_creature : Creature → World → World
spawn_creature creature w = record w {
  changes = record (w.changes) { creatures = w.changes.creatures ++ (creature ∷ []) };
}

unfoldable pub find_creature : ℕ → List Creature → Option Creature
find_creature id [] = none
find_creature id (c ∷ cs) = let rest = find_creature id cs in if c.id == id then some c else rest

abbrev pub or_else {ℓ} : {A : Type ℓ} → Option A → Option A → Option A
or_else none other = other
or_else (some a) other = some a

unfoldable pub creature_now : ℕ → World → Option Creature
unfolding find_creature
creature_now id w = or_else (find_creature id w.creatures) (find_creature id w.changes.creatures)

unfoldable pub damage_to : ℕ → World → ℕ
damage_to id w = unwrap_or 0 (look w.changes.damage id)

unfoldable pub set_damage : ℕ → (damage : ℕ) → World → World
set_damage id damage w = record w {
  changes = record (w.changes) { damage = put w.changes.damage id damage };
}

unfoldable pub contains : List ℕ → ℕ → Bool
contains [] id = false
contains (i ∷ is) id = i == id || contains is id

unfoldable pub is_dead : ℕ → World → Bool
unfolding contains
is_dead id w = contains w.changes.dead id

-- Whether this is the first time, and the world after.
unfoldable pub mark_dead : ℕ → World → Bool × World
unfolding is_dead
mark_dead id w =
    if is_dead id w
    then (false, w)
    else (true, record w { changes = record (w.changes) { dead = w.changes.dead ++ (id ∷ []) } })

unfoldable pub drop_item : FloorDrop → World → World
drop_item drop w = record w {
  changes = record (w.changes) { drops = w.changes.drops ++ (drop ∷ []) };
}

-- `position` and `remove`: the first drop of a pickup, and the others.
unfoldable pub taken_out : ℕ → List FloorDrop → Option FloorDrop × List FloorDrop
taken_out pickup [] = (none, [])
taken_out pickup (d ∷ ds) =
    let rest = taken_out pickup ds in
    if d.pickup == pickup then (some d, ds) else (rest.0, d ∷ rest.1)

unfoldable pub take_floor_drop : ℕ → World → Option FloorDrop × World
unfolding taken_out
take_floor_drop pickup w =
    let found = taken_out pickup w.changes.drops in
    (found.0, record w { changes = record (w.changes) { drops = found.1 } })

abbrev pub titled : Option (ℕ × Text) → Text → (entity : ℕ) → (ℕ × Bool) × (ℕ × Text)
titled none title entity = ((entity, true), (entity, title))
titled (some (id, name)) title entity = ((id, false), (id, title))

unfoldable pub set_home_title : Text → (entity : ℕ) → World → (ℕ × Bool) × World
set_home_title title entity w =
    let found = titled w.changes.title title entity in
    (found.0, record w { changes = record (w.changes) { title = some found.1 } })
