-- ===== src/State/Steps.antt =====
-- The operations of crates/skysaga-state/src/lib.rs as steps of the server's state.
use sky_saga_rs.Common.{ℕ, List, Option}
use sky_saga_rs.Common.Equality.{Eq_nat, Eq_list, Eq_pair}
use sky_saga_rs.Packets.Customisation.{CustomisationData}
use sky_saga_rs.Common.Text.{Text}
use sky_saga_rs.State.Types.{
  StoredMail, StoredItem, StoredBinding, StoredProgress, StoredBlock, StoredDevice, AdminCommand,
  ServerSnapshot, AppState, Eq_triple, Eq_StoredMail, Eq_StoredItem, Eq_StoredBinding,
  Eq_StoredProgress, Eq_StoredBlock, Eq_StoredDevice,
}
use sky_saga_rs.State.Saves.{
  set_mail, set_inventory, set_progress, set_hotbar, set_home_title, set_device, set_block,
  save_photo, publish_snapshot, set_item_catalogue,
}
use sky_saga_rs.State.Accounts.{authenticate, bind_peer}
use sky_saga_rs.State.Characters.{
  create_character, ensure_character, delete_character, set_character_name, set_home_biome,
  set_appearance,
}
use sky_saga_rs.State.Queues.{reserve_slot, claim_slot, push_command, take_commands}

-- One call of an operation, with any arguments.
pub data Step : AppState → AppState → Type 0 where
  sets_mail :
      (account : Text) (mail : List StoredMail) (s : AppState) → Step s (set_mail account mail s)
  sets_inventory :
      (account : Text) (items : List StoredItem) (s : AppState)
      → Step s (set_inventory account items s)
  sets_progress :
      (account : Text) (progress : StoredProgress) (s : AppState)
      → Step s (set_progress account progress s)
  sets_hotbar :
      (account : Text) (bindings : List StoredBinding) (s : AppState)
      → Step s (set_hotbar account bindings s)
  sets_home_title : (title : Text) (s : AppState) → Step s (set_home_title title s)
  sets_device : (device : StoredDevice) (s : AppState) → Step s (set_device device s)
  sets_block : (block : StoredBlock) (s : AppState) → Step s (set_block block s)
  saves_photo :
      (id : Text) (bytes : List ℕ) (captured_at : ℕ) (s : AppState)
      → Step s (save_photo id bytes captured_at s)
  publishes_snapshot :
      (snapshot : ServerSnapshot) (s : AppState) → Step s (publish_snapshot snapshot s)
  sets_item_catalogue : (names : List Text) (s : AppState) → Step s (set_item_catalogue names s)
  authenticates :
      (token username password : Text) (s : AppState)
      → Step s (authenticate token username password s).1
  binds_peer : (peer : List ℕ) (account : Text) (s : AppState) → Step s (bind_peer peer account s)
  creates_character :
      (uuid : ℕ) (account : Text) (name : Option Text) (s : AppState)
      → Step s (create_character uuid account name s).1
  ensures_character :
      (uuid : ℕ) (account : Text) (s : AppState) → Step s (ensure_character uuid account s).1
  deletes_character : (account : Text) (s : AppState) → Step s (delete_character account s).1
  sets_character_name :
      (account name : Text) (s : AppState) → Step s (set_character_name account name s).1
  sets_home_biome :
      (account biome : Text) (s : AppState) → Step s (set_home_biome account biome s).1
  sets_appearance :
      (account : Text) (looks : CustomisationData) (s : AppState)
      → Step s (set_appearance account looks s).1
  reserves_slot : (account : Text) (s : AppState) → Step s (reserve_slot account s)
  claims_slot : (s : AppState) → Step s (claim_slot s).1
  pushes_command : (command : AdminCommand) (s : AppState) → Step s (push_command command s)
  takes_commands : (s : AppState) → Step s (take_commands s).1

pub data Steps : AppState → AppState → Type 0 where
  rest : {s : AppState} → Steps s s
  then_step : {s t u : AppState} → Steps s t → Step t u → Steps s u
