-- ===== src/State/Reached.antt =====
-- What holds of the state of crates/skysaga-state/src/lib.rs after any calls.
use sky_saga_rs.Common.{[], ◌∷◌, ◌++◌}
use sky_saga_rs.Common.Equality.{Eq_nat, Eq_list, Eq_pair}
use sky_saga_rs.State.Types.{
  AppState, Eq_triple, Eq_StoredMail, Eq_StoredItem, Eq_StoredBinding, Eq_StoredProgress,
  Eq_StoredBlock, Eq_StoredDevice,
}
use sky_saga_rs.State.Saves.{save_photo, set_item_catalogue}
use sky_saga_rs.State.Characters.{set_character_name, set_appearance}
use sky_saga_rs.State.Queues.{reserve_slot, push_command, take_commands}
use sky_saga_rs.State.Steps.{
  Step, Steps, rest, then_step, sets_mail, sets_inventory, sets_progress, sets_hotbar,
  sets_home_title, sets_device, sets_block, saves_photo, publishes_snapshot, sets_item_catalogue,
  authenticates, binds_peer, creates_character, ensures_character, deletes_character,
  sets_character_name, sets_home_biome, sets_appearance, reserves_slot, claims_slot, pushes_command,
  takes_commands,
}
use sky_saga_rs.State.Sound.{IsSound, length-keep_newest}
use sky_saga_rs.State.Invariant.{
  set_mail-IsSound, set_inventory-IsSound, set_progress-IsSound, set_hotbar-IsSound,
  set_home_title-IsSound, set_device-IsSound, set_block-IsSound, authenticate-IsSound,
  bind_peer-IsSound, claim_slot-IsSound,
}
use sky_saga_rs.State.Invariant.Characters.{
  IsHoused, create_character-IsSound, ensure_character-IsSound, delete_character-IsSound,
  update_character-IsSound, set_home_biome-IsSound,
}

-- A call keeps what Sound says of the state.
pub Step-IsSound : {s t : AppState} → Step s t → IsSound (s.inner) → IsSound (t.inner)
unfolding save_photo set_character_name set_appearance set_item_catalogue reserve_slot push_command
    take_commands IsHoused
Step-IsSound (sets_mail account mail s) h = set_mail-IsSound account mail s h
Step-IsSound (sets_inventory account items s) h = set_inventory-IsSound account items s h
Step-IsSound (sets_progress account progress s) h = set_progress-IsSound account progress s h
Step-IsSound (sets_hotbar account bindings s) h = set_hotbar-IsSound account bindings s h
Step-IsSound (sets_home_title title s) h = set_home_title-IsSound title s h
Step-IsSound (sets_device device s) h = set_device-IsSound device s h
Step-IsSound (sets_block block s) h = set_block-IsSound block s h
Step-IsSound (saves_photo id bytes captured_at s) h = h
Step-IsSound (publishes_snapshot snapshot s) h = h
Step-IsSound (sets_item_catalogue names s) h = h
Step-IsSound (authenticates token username password s) h =
    authenticate-IsSound token username password s h
Step-IsSound (binds_peer peer account s) h = bind_peer-IsSound peer account s h
Step-IsSound (creates_character uuid account name s) h =
    create_character-IsSound uuid account name s h
Step-IsSound (ensures_character uuid account s) h = ensure_character-IsSound uuid account s h
Step-IsSound (deletes_character account s) h = delete_character-IsSound account s h
Step-IsSound (sets_character_name account name s) h =
    update_character-IsSound account (λ c. record c { name = name }) s (λ c housed. housed) h
Step-IsSound (sets_home_biome account biome s) h = set_home_biome-IsSound account biome s h
Step-IsSound (sets_appearance account looks s) h =
    update_character-IsSound account (λ c. record c { appearance = looks }) s (λ c housed. housed) h
Step-IsSound (reserves_slot account s) h =
    (h.0, h.1, h.2, h.3, length-keep_newest (s.inner.reservations ++ (account ∷ [])))
Step-IsSound (claims_slot s) h = claim_slot-IsSound s h
Step-IsSound (pushes_command command s) h = h
Step-IsSound (takes_commands s) h = h

-- After any calls on a sound state, sessions, addresses and the latest sign-in are those of accounts
-- that are there, no character has a blank home biome, and at most eight accounts are expected.
pub Steps-IsSound : {s t : AppState} → Steps s t → IsSound (s.inner) → IsSound (t.inner)
Steps-IsSound rest h = h
Steps-IsSound (then_step before step) h = Step-IsSound step (Steps-IsSound before h)
