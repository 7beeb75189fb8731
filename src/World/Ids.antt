-- ===== src/World/Ids.antt =====
-- No id of an entity is given out twice (crates/skysaga-game/src/world.rs).
use sky_saga_rs.Common.{
  ℕ, zero, suc, ◌+◌, ◌%◌, ◌^◌, ◌≤◌, ◌<◌, max, ◌≡◌, refl, ap, ◌∙◌, inl, inr, true, List, [], ◌∷◌,
  ◌++◌, map, Option, some, none, ◌==◌, ==_iff, length, Bool-cases, arith,
}
use sky_saga_rs.Common.Text.{Text}
use sky_saga_rs.World.{
  World, Vec3, FloorDrop, PlacedDevice, Device, contains, highest, title_id, next_entity_id, built,
  restored, restore_devices,
}

-- The ids that are in use.
unfoldable pub held : World → List ℕ
held w =
    w.entities
    ++ (map (λ d. d.id) w.changes.devices
        ++ (map (λ creature. creature.id) w.changes.creatures
            ++ (map (λ drop. drop.pickup) w.changes.drops
                ++ (map (λ drop. drop.stack) w.changes.drops ++ (title_id w.changes.title ∷ [])))))

highest-append : (xs ys : List ℕ) → highest (xs ++ ys) ≡ max (highest xs) (highest ys)
unfolding highest
highest-append [] ys = omega arith
highest-append (x ∷ xs) ys = let rest = highest-append xs ys in omega (arith, rest)

-- The ids of drops are the pickups' and the stacks'.
highest-drops :
    (ds : List FloorDrop)
    → highest (map (λ d. max d.pickup d.stack) ds)
      ≡ max (highest (map (λ d. d.pickup) ds)) (highest (map (λ d. d.stack) ds))
unfolding highest
highest-drops [] = omega arith
highest-drops (d ∷ ds) = let rest = highest-drops ds in omega (arith, rest)

max_assoc : (a b c : ℕ) → max (max a b) c ≡ max a (max b c)
max_assoc a b c = omega arith

next_entity_id-highest : (w : World) → next_entity_id w ≡ (highest (held w) + 1) % 2 ^ 32
unfolding next_entity_id held highest
next_entity_id-highest w =
    let c = w.changes in
    let devices = map (λ d. d.id) c.devices in
    let creatures = map (λ creature. creature.id) c.creatures in
    let pickups = map (λ drop. drop.pickup) c.drops in
    let stacks = map (λ drop. drop.stack) c.drops in
    let title = title_id c.title ∷ [] in
    let t : max (title_id c.title) 0 ≡ title_id c.title = omega arith in
    ap (λ m. (m + 1) % 2 ^ 32)
      (rw (highest-drops c.drops) (
        max_assoc (max (max (highest w.entities) (highest devices)) (highest creatures))
          (max (highest pickups) (highest stacks)) (title_id c.title)
        ∙ (max_assoc (max (highest w.entities) (highest devices)) (highest creatures)
              (max (max (highest pickups) (highest stacks)) (title_id c.title))
            ∙ (max_assoc (highest w.entities) (highest devices) (
                  max (highest creatures)
                    (max (max (highest pickups) (highest stacks)) (title_id c.title)))
                ∙ rw
                    (
                      highest-append w.entities
                          (devices ++ (creatures ++ (pickups ++ (stacks ++ title)))),
                      highest-append devices (creatures ++ (pickups ++ (stacks ++ title))),
                      highest-append creatures (pickups ++ (stacks ++ title)),
                      highest-append pickups (stacks ++ title),
                      highest-append stacks title,
                      t,
                      max_assoc (highest pickups) (highest stacks) (title_id c.title),
                    )
                    refl))))

contains-highest : (is : List ℕ) (i : ℕ) → contains is i ≡ true → i ≤ highest is
unfolding contains highest
contains-highest [] i h = absurd (ground arith)
contains-highest (j ∷ is) i h = elim (Bool-cases (j == i)) [
  | inl here ↦ let same = (==_iff j i).0 here in omega (arith, same)
  | inr away ↦
      let later : contains is i ≡ true = rw away at h in
      let rest = contains-highest is i later in omega (arith, rest)
]

-- The next id is above every id in use, as long as the ids have not run out.
pub next_entity_id-fresh :
    (w : World) (i : ℕ)
    → contains (held w) i ≡ true
    → highest (held w) + 1 < 2 ^ 32
    → i < next_entity_id w
next_entity_id-fresh w i h room =
    let below = contains-highest (held w) i h in
    rw (next_entity_id-highest w) (omega (arith, below, room))

-- So many ids, from one on.
unfoldable pub from : ℕ → ℕ → List ℕ
from next zero = []
from next (suc n) = next ∷ from (suc next) n

restored-from :
    (definitions : Text → Option Text) (next : ℕ) (stored : List PlacedDevice)
    → next + length stored < 2 ^ 32
    → map (λ d. d.id) (restored definitions next stored)
      ≡ from next (length (restored definitions next stored))
unfolding restored from
restored-from definitions next [] room = refl
restored-from definitions next (d ∷ ds) room =
    stepped (definitions d.name) (λ after. restored-from definitions after ds)
  where
    stepped :
        (found : Option Text)
        → ((after : ℕ)
            → after + length ds < 2 ^ 32
            → map (λ d. d.id) (restored definitions after ds)
              ≡ from after (length (restored definitions after ds)))
        → map (λ d. d.id) ((built found next d).0 ++ restored definitions (built found next d).1 ds)
          ≡ from next
              (length ((built found next d).0 ++ restored definitions (built found next d).1 ds))
    stepped none rest = rest next (omega (arith, room))
    stepped (some name) rest =
        let after : (next + 1) % 2 ^ 32 ≡ suc next = omega (arith, room) in
        rw after (ap (λ is. next ∷ is) (rest (suc next) (omega (arith, room))))

-- What is known of the devices that are stored: the name that the data file has, and the place.
unfoldable pub known : (Text → Option Text) → List PlacedDevice → List (Text × Option Vec3)
known definitions [] = []
known definitions (d ∷ ds) = elim (definitions d.name) [
  | none ↦ known definitions ds
  | some name ↦ (name, some d.position) ∷ known definitions ds
]

restored-known :
    (definitions : Text → Option Text) (next : ℕ) (stored : List PlacedDevice)
    → map (λ d. (d.name, d.position)) (restored definitions next stored) ≡ known definitions stored
unfolding restored known
restored-known definitions next [] = refl
restored-known definitions next (d ∷ ds) =
    named (definitions d.name) (λ after. restored-known definitions after ds)
  where
    named :
        (found : Option Text)
        → ((after : ℕ)
            → map (λ d. (d.name, d.position)) (restored definitions after ds)
              ≡ known definitions ds)
        → map
            (λ d. (d.name, d.position))
            ((built found next d).0 ++ restored definitions (built found next d).1 ds)
          ≡ elim found [
            | none ↦ known definitions ds
            | some name ↦ (name, some d.position) ∷ known definitions ds
          ]
    named none rest = rest next
    named (some name) rest =
        ap (λ more. (name, some d.position) ∷ more) (rest ((next + 1) % 2 ^ 32))

-- The devices that are restored stand behind those that are there: one for each stored device whose
-- name is known, in their order, with the name that the data file has and at the place where it was,
-- and their ids are the next id and those after it, one by one, while the ids last.
pub restore_devices-from :
    (definitions : Text → Option Text) (stored : List PlacedDevice) (w : World)
    → highest (held w) + 1 + length stored < 2 ^ 32
    → (new : List Device) × ((restore_devices definitions stored w).changes.devices
        ≡ w.changes.devices ++ new)
      × (map (λ d. (d.name, d.position)) new ≡ known definitions stored)
      × (map (λ d. d.id) new ≡ from (next_entity_id w) (length new))
unfolding restore_devices
restore_devices-from definitions stored w room =
    let first = next_entity_id-highest w in
    (
      restored definitions (next_entity_id w) stored,
      refl,
      restored-known definitions (next_entity_id w) stored,
      restored-from definitions (next_entity_id w) stored (omega (arith, first, room)),
    )
