-- ===== src/World/Replay.antt =====
-- What is written down of a world's blocks brings them back (crates/skysaga-game/src/world.rs).
use sky_saga_rs.Common.{
  ℕ, ◌≡◌, refl, sym, ap, subst, ◌∙◌, inl, inr, List, [], ◌∷◌, ◌++◌, append-nil, append_assoc,
  Bool-cases,
}
use sky_saga_rs.Common.Equality.{Eq_nat, Eq_pair}
use sky_saga_rs.Common.Table.{Table, put}
use sky_saga_rs.World.{
  World, Place, VoxelEdit, put_edits, restore_block_edits, block_at, set_block, mark_dead, is_dead,
  material_at, take_unsaved_edits, take_unsaved_devices, place_device, spawn_creature, set_damage,
  drop_item, take_floor_drop, set_home_title,
}
use sky_saga_rs.World.Calls.{
  Call, sets_block, takes_edits, places_device, takes_devices, spawns, damages, marks_dead,
  drops_item, takes_drop, titles, call, run,
}

put_edits-append :
    (t : Table Place ℕ) (xs ys : List VoxelEdit)
    → put_edits t (xs ++ ys) ≡ put_edits (put_edits t xs) ys
unfolding put_edits
put_edits-append t [] ys = refl
put_edits-append t (x ∷ xs) ys = put_edits-append (put t x.place x.material) xs ys

-- The edits of `taken` and those not taken yet make the blocks of `w` out of those of `old`, above
-- the same terrain.
record Accounts (old w : World) (taken : List VoxelEdit) : Type 0 where
  pub blocks : put_edits old.changes.voxels (taken ++ w.changes.unsaved) ≡ w.changes.voxels
  pub terrain : w.chunks ≡ old.chunks

idle :
    (old w after : World) (taken : List VoxelEdit)
    → after.changes.voxels ≡ w.changes.voxels
    → after.changes.unsaved ≡ w.changes.unsaved
    → after.chunks ≡ w.chunks
    → Accounts old w taken
    → Accounts old after (taken ++ [])
idle old w after taken voxels unsaved chunks h = record {
  blocks = rw (append-nil taken, unsaved, voxels) h.blocks;
  terrain = chunks ∙ h.terrain;
}

marking :
    (id : ℕ) (w : World)
    → ((mark_dead id w).1.changes.voxels ≡ w.changes.voxels)
      × ((mark_dead id w).1.changes.unsaved ≡ w.changes.unsaved)
      × ((mark_dead id w).1.chunks ≡ w.chunks)
unfolding mark_dead
marking id w = elim (Bool-cases (is_dead id w)) [
  | inl again ↦ rw again (refl, refl, refl)
  | inr first ↦ rw first (refl, refl, refl)
]

call-Accounts :
    (c : Call) (old w : World) (taken : List VoxelEdit)
    → Accounts old w taken
    → Accounts old (call c w).0 (taken ++ (call c w).1)
unfolding call set_block take_unsaved_edits take_unsaved_devices place_device spawn_creature
    set_damage drop_item take_floor_drop set_home_title put_edits
call-Accounts (sets_block edit) old w taken h = record {
  blocks = rw (append-nil taken) (
      ap (put_edits old.changes.voxels) (sym (append_assoc taken w.changes.unsaved (edit ∷ [])))
      ∙ (put_edits-append old.changes.voxels (taken ++ w.changes.unsaved) (edit ∷ [])
          ∙ ap (λ t. put t edit.place edit.material) h.blocks));
  terrain = h.terrain;
}
call-Accounts takes_edits old w taken h = record {
  blocks = rw (append-nil (taken ++ w.changes.unsaved)) h.blocks;
  terrain = h.terrain;
}
call-Accounts (places_device device) old w taken h = idle old w _ taken refl refl refl h
call-Accounts takes_devices old w taken h = idle old w _ taken refl refl refl h
call-Accounts (spawns creature) old w taken h = idle old w _ taken refl refl refl h
call-Accounts (damages id damage) old w taken h = idle old w _ taken refl refl refl h
call-Accounts (marks_dead id) old w taken h =
    let same = marking id w in idle old w (mark_dead id w).1 taken same.0 same.1 same.2 h
call-Accounts (drops_item drop) old w taken h = idle old w _ taken refl refl refl h
call-Accounts (takes_drop pickup) old w taken h = idle old w _ taken refl refl refl h
call-Accounts (titles title entity) old w taken h = idle old w _ taken refl refl refl h

run-Accounts :
    (cs : List Call) (old w : World) (taken : List VoxelEdit)
    → Accounts old w taken
    → Accounts old (run cs w).0 (taken ++ (run cs w).1)
unfolding run
run-Accounts [] old w taken h = rw (append-nil taken) h
run-Accounts (c ∷ cs) old w taken h =
    subst (Accounts old (run cs (call c w).0).0)
      (append_assoc taken (call c w).1 (run cs (call c w).0).1)
      (run-Accounts cs old (call c w).0 (taken ++ (call c w).1) (call-Accounts c old w taken h))

-- In a world of which every edit has been handed out, and after any calls, the edits handed out since
-- and those that wait, put back into the world as it was, give every block as it is now.
pub restore_block_edits-run :
    (cs : List Call) (w : World) (place : Place)
    → w.changes.unsaved ≡ []
    → block_at place (restore_block_edits ((run cs w).1 ++ (run cs w).0.changes.unsaved) w)
      ≡ block_at place (run cs w).0
unfolding block_at restore_block_edits put_edits material_at
restore_block_edits-run cs w place none_waits =
    let start : Accounts w w [] = record {
      blocks = ap (put_edits w.changes.voxels) none_waits;
      terrain = refl;
    } in
    let h = run-Accounts cs w w [] start in
    let blocks = h.blocks in let terrain = h.terrain in rw (blocks, terrain) refl
