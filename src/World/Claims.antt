-- ===== src/World/Claims.antt =====
-- Of several players, one kills a creature and one takes a drop (crates/skysaga-game/src/world.rs).
use sky_saga_rs.Common.{
  ℕ, ◌+◌, ◌≤◌, ◌≡◌, ◌≢◌, refl, ap, ◌∙◌, inl, inr, true, false, List, [], ◌∷◌, ◌++◌, some, none,
  ◌==◌, ==_iff, Bool-cases, if◌then◌else◌, arith,
}
use sky_saga_rs.World.{
  World, FloorDrop, mark_dead, is_dead, contains, drop_item, taken_out, take_floor_drop,
  take_unsaved_edits, take_unsaved_devices, set_block, place_device, spawn_creature, set_damage,
  set_home_title,
}
use sky_saga_rs.World.Calls.{
  Call, sets_block, takes_edits, places_device, takes_devices, spawns, damages, marks_dead,
  drops_item, takes_drop, titles, call, run,
}

contains-append :
    (is : List ℕ) (i id : ℕ) → contains is id ≡ true → contains (is ++ (i ∷ [])) id ≡ true
unfolding contains
contains-append [] i id h = absurd (ground arith)
contains-append (j ∷ is) i id h = elim (Bool-cases (j == id)) [
  | inl here ↦ rw here refl
  | inr away ↦
      let later : contains is id ≡ true = rw away at h in rw away (contains-append is i id later)
]

contains_last : (is : List ℕ) (id : ℕ) → contains (is ++ (id ∷ [])) id ≡ true
unfolding contains
contains_last [] id = ground arith
contains_last (j ∷ is) id = let later = contains_last is id in ground (arith, later)

call-is_dead :
    (c : Call) (id : ℕ) (w : World) → is_dead id w ≡ true → is_dead id (call c w).0 ≡ true
unfolding is_dead call take_unsaved_edits take_unsaved_devices set_block place_device spawn_creature
    set_damage drop_item take_floor_drop set_home_title mark_dead
call-is_dead (sets_block edit) id w h = h
call-is_dead takes_edits id w h = h
call-is_dead (places_device device) id w h = h
call-is_dead takes_devices id w h = h
call-is_dead (spawns creature) id w h = h
call-is_dead (damages i damage) id w h = h
call-is_dead (marks_dead i) id w h = elim (Bool-cases (contains w.changes.dead i)) [
  | inl again ↦ rw again h
  | inr first ↦ rw first (contains-append w.changes.dead i id h)
]
call-is_dead (drops_item drop) id w h = h
call-is_dead (takes_drop pickup) id w h = h
call-is_dead (titles title entity) id w h = h

run-is_dead :
    (cs : List Call) (id : ℕ) (w : World) → is_dead id w ≡ true → is_dead id (run cs w).0 ≡ true
unfolding run
run-is_dead [] id w h = h
run-is_dead (c ∷ cs) id w h = run-is_dead cs id (call c w).0 (call-is_dead c id w h)

mark_dead-is_dead : (id : ℕ) (w : World) → is_dead id (mark_dead id w).1 ≡ true
unfolding mark_dead is_dead
mark_dead-is_dead id w = elim (Bool-cases (contains w.changes.dead id)) [
  | inl again ↦ rw again again
  | inr first ↦ rw first (contains_last w.changes.dead id)
]

-- Once a creature has been said to be dead, no other player is told that theirs was the first blow
-- to kill it, whatever calls stand in between.
pub mark_dead-once :
    (id : ℕ) (cs : List Call) (w : World) → (mark_dead id (run cs (mark_dead id w).1).0).0 ≡ false
unfolding mark_dead
mark_dead-once id cs w = rw (run-is_dead cs id (mark_dead id w).1 (mark_dead-is_dead id w)) refl

-- How many drops lie on the floor under a pickup's id.
unfoldable pub lying : ℕ → List FloorDrop → ℕ
lying pickup [] = 0
lying pickup (d ∷ ds) = (if d.pickup == pickup then 1 else 0) + lying pickup ds

lying-append :
    (pickup : ℕ) (xs : List FloorDrop) (d : FloorDrop)
    → d.pickup ≢ pickup
    → lying pickup (xs ++ (d ∷ [])) ≡ lying pickup xs
unfolding lying
lying-append pickup [] d h = ground (arith, h)
lying-append pickup (x ∷ xs) d h =
    ap (λ n. (if x.pickup == pickup then 1 else 0) + n) (lying-append pickup xs d h)

-- Taking a drop leaves one fewer of its own, and those of others.
lying-taken_out :
    (pickup : ℕ) (ds : List FloorDrop)
    → lying pickup ds ≤ 1
    → lying pickup (taken_out pickup ds).1 ≡ 0
unfolding lying taken_out
lying-taken_out pickup [] h = refl
lying-taken_out pickup (d ∷ ds) h = elim (Bool-cases (d.pickup == pickup)) [
  | inl here ↦ let few : 1 + lying pickup ds ≤ 1 = rw here at h in rw here (omega (arith, few))
  | inr away ↦
      let few : 0 + lying pickup ds ≤ 1 = rw away at h in
      let rest = lying-taken_out pickup ds (omega (arith, few)) in
      rw (away, away) (omega (arith, rest))
]

lying-taken_out_fewer :
    (pickup other : ℕ) (ds : List FloorDrop) → lying other (taken_out pickup ds).1 ≤ lying other ds
unfolding lying taken_out
lying-taken_out_fewer pickup other [] = omega arith
lying-taken_out_fewer pickup other (d ∷ ds) = elim (Bool-cases (d.pickup == pickup)) [
  | inl here ↦ rw here (omega arith)
  | inr away ↦ rw away (let fewer = lying-taken_out_fewer pickup other ds in omega (arith, fewer))
]

taken_out-none :
    (pickup : ℕ) (ds : List FloorDrop) → lying pickup ds ≡ 0 → (taken_out pickup ds).0 ≡ none
unfolding lying taken_out
taken_out-none pickup [] h = refl
taken_out-none pickup (d ∷ ds) h = elim (Bool-cases (d.pickup == pickup)) [
  | inl here ↦ absurd (ground (arith, here, h))
  | inr away ↦ rw away (taken_out-none pickup ds (ground (arith, away, h)))
]

-- No call puts a drop down under the id.
unfoldable pub Unused : ℕ → List Call → Type 0
Unused pickup [] = Unit
Unused pickup (drops_item drop ∷ cs) = (drop.pickup ≢ pickup) × Unused pickup cs
Unused pickup (c ∷ cs) = Unused pickup cs

run-lying :
    (pickup : ℕ) (cs : List Call) (w : World)
    → Unused pickup cs
    → lying pickup w.changes.drops ≡ 0
    → lying pickup (run cs w).0.changes.drops ≡ 0
unfolding run call take_unsaved_edits take_unsaved_devices set_block place_device spawn_creature
    set_damage drop_item take_floor_drop set_home_title mark_dead Unused
run-lying pickup [] w u h = h
run-lying pickup (sets_block edit ∷ cs) w u h = run-lying pickup cs _ u h
run-lying pickup (takes_edits ∷ cs) w u h = run-lying pickup cs _ u h
run-lying pickup (places_device device ∷ cs) w u h = run-lying pickup cs _ u h
run-lying pickup (takes_devices ∷ cs) w u h = run-lying pickup cs _ u h
run-lying pickup (spawns creature ∷ cs) w u h = run-lying pickup cs _ u h
run-lying pickup (damages i damage ∷ cs) w u h = run-lying pickup cs _ u h
run-lying pickup (marks_dead i ∷ cs) w u h =
    run-lying pickup cs (mark_dead i w).1 u
      (elim (Bool-cases (is_dead i w)) [ inl again ↦ rw again h | inr first ↦ rw first h ])
run-lying pickup (drops_item drop ∷ cs) w u h =
    run-lying pickup cs _ u.1 (lying-append pickup w.changes.drops drop u.0 ∙ h)
run-lying pickup (takes_drop other ∷ cs) w u h =
    let fewer = lying-taken_out_fewer other pickup w.changes.drops in
    run-lying pickup cs _ u (omega (arith, fewer, h))
run-lying pickup (titles title entity ∷ cs) w u h = run-lying pickup cs _ u h

taken_out-some :
    (pickup : ℕ) (ds : List FloorDrop)
    → lying pickup ds ≡ 1
    → (d : FloorDrop) × ((taken_out pickup ds).0 ≡ some d) × (d.pickup ≡ pickup)
unfolding lying taken_out
taken_out-some pickup [] h = absurd (omega (arith, h))
taken_out-some pickup (d ∷ ds) h = elim (Bool-cases (d.pickup == pickup)) [
  | inl here ↦ rw here (d, refl, (==_iff d.pickup pickup).0 here)
  | inr away ↦
      let later : 0 + lying pickup ds ≡ 1 = rw away at h in
      rw away (taken_out-some pickup ds (omega (arith, later)))
]

-- A drop that lies on the floor under an id of its own is had by the first player who takes it, and
-- is there for no other one, whatever calls stand in between, unless a call puts one down under the
-- same id.
pub take_floor_drop-once :
    (pickup : ℕ) (cs : List Call) (w : World)
    → lying pickup w.changes.drops ≡ 1
    → Unused pickup cs
    → ((d : FloorDrop) × ((take_floor_drop pickup w).0 ≡ some d) × (d.pickup ≡ pickup))
      × ((take_floor_drop pickup (run cs (take_floor_drop pickup w).1).0).0 ≡ none)
unfolding take_floor_drop
take_floor_drop-once pickup cs w h u = (
  taken_out-some pickup w.changes.drops h,
  taken_out-none pickup _ (
      run-lying pickup cs (take_floor_drop pickup w).1 u
        (lying-taken_out pickup w.changes.drops (omega (arith, h)))),
)
