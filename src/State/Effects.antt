-- ===== src/State/Effects.antt =====
-- What each operation of crates/skysaga-state/src/lib.rs does to what is stored, and that it
-- reports what it does.
pub mod Characters
use sky_saga_rs.Common.{
  ℕ, ◌≡◌, refl, sym, ap, ◌∙◌, List, [], ◌∷◌, ◌++◌, Option, none, some, inl, inr, Bool-cases,
}
use sky_saga_rs.Common.Equality.{Eq_nat, Eq_list, Eq_pair}
use sky_saga_rs.Common.Table.{Table, look, put, put-look}
use sky_saga_rs.Common.Text.{Text, trim, to_ascii_lowercase, is_empty}
use sky_saga_rs.State.Types.{
  Account, Character, Photo, LoginResult, StoredMail, StoredItem, StoredBinding, StoredProgress,
  StoredBlock, StoredDevice, Change, account_change, character_change, delete_character_change,
  photo_change, mail_change, inventory_change, hotbar_change, block_change, device_change,
  home_title_change, progress_change, Inner, AppState, with_sink, ok, err, Eq_triple, Eq_StoredMail,
  Eq_StoredItem, Eq_StoredBinding, Eq_StoredProgress, Eq_StoredBlock, Eq_StoredDevice,
}
use sky_saga_rs.State.Policy.{admission}
use sky_saga_rs.State.Saves.{
  given, report, holds, account_key, set_mail, set_inventory, set_progress, set_hotbar,
  set_home_title, set_device, set_block, save_photo, set_item_catalogue,
}
use sky_saga_rs.State.Accounts.{
  entry_from, entry, open_session, admitted, authenticate, bind_peer, has,
}
use sky_saga_rs.State.Characters.{
  with_character, create_character, ensure_character, delete_character, update_character,
  set_character_name, set_home_biome, set_appearance, character_of, created_for, existing_or,
  deleted_from, deleted_for, updated_from, updated_for,
}
use sky_saga_rs.State.Queues.{reserve_slot, popped, claim_slot, push_command, take_commands}
use sky_saga_rs.State.Stored.{stored, Stored, apply, replay, replay-append, named, put_character}
use sky_saga_rs.State.Steps.{
  Step, Steps, rest, then_step, sets_mail, sets_inventory, sets_progress, sets_hotbar,
  sets_home_title, sets_device, sets_block, saves_photo, publishes_snapshot, sets_item_catalogue,
  authenticates, binds_peer, creates_character, ensures_character, deletes_character,
  sets_character_name, sets_home_biome, sets_appearance, reserves_slot, claims_slot, pushes_command,
  takes_commands,
}

-- What a step does to what is stored: nothing, or one change, which it reports.
pub data Effect (s : AppState) : AppState → Type 0 where
  silent : (next : Inner) → stored next ≡ stored (s.inner) → Effect s (record s { inner = next })
  reported :
      (change : Change) (next : Inner)
      → apply change (stored (s.inner)) ≡ stored next
      → Effect s (report change (record s { inner = next }))

pub nothing : (s : AppState) → Effect s s
nothing s = silent (s.inner) refl

pub set_mail-Effect :
    (account : Text) (value : List StoredMail) (s : AppState) → Effect s (set_mail account value s)
unfolding set_mail apply
set_mail-Effect account value s =
    elim (Bool-cases (holds (look s.inner.mail (account_key account)) value)) [
      | inl same ↦ rw same (nothing s)
      | inr new ↦ rw new (
          reported (mail_change (account_key account) value)
            (record (s.inner) { mail = put s.inner.mail (account_key account) value }) refl)
    ]

pub set_inventory-Effect :
    (account : Text) (value : List StoredItem) (s : AppState)
    → Effect s (set_inventory account value s)
unfolding set_inventory apply
set_inventory-Effect account value s =
    elim (Bool-cases (holds (look s.inner.inventories (account_key account)) value)) [
      | inl same ↦ rw same (nothing s)
      | inr new ↦ rw new (
          reported (inventory_change (account_key account) value)
            (record (s.inner) { inventories = put s.inner.inventories (account_key account) value })
            refl)
    ]

pub set_progress-Effect :
    (account : Text) (value : StoredProgress) (s : AppState)
    → Effect s (set_progress account value s)
unfolding set_progress apply
set_progress-Effect account value s =
    elim (Bool-cases (holds (look s.inner.progress (account_key account)) value)) [
      | inl same ↦ rw same (nothing s)
      | inr new ↦ rw new (
          reported (progress_change (account_key account) value)
            (record (s.inner) { progress = put s.inner.progress (account_key account) value }) refl)
    ]

pub set_hotbar-Effect :
    (account : Text) (value : List StoredBinding) (s : AppState)
    → Effect s (set_hotbar account value s)
unfolding set_hotbar apply
set_hotbar-Effect account value s =
    elim (Bool-cases (holds (look s.inner.hotbars (account_key account)) value)) [
      | inl same ↦ rw same (nothing s)
      | inr new ↦ rw new (
          reported (hotbar_change (account_key account) value)
            (record (s.inner) { hotbars = put s.inner.hotbars (account_key account) value }) refl)
    ]

pub set_home_title-Effect : (title : Text) (s : AppState) → Effect s (set_home_title title s)
unfolding set_home_title apply
set_home_title-Effect title s = elim (Bool-cases (holds s.inner.home_title title)) [
  | inl same ↦ rw same (nothing s)
  | inr new ↦
      rw new
        (reported (home_title_change title) (record (s.inner) { home_title = some title }) refl)
]

pub set_device-Effect : (device : StoredDevice) (s : AppState) → Effect s (set_device device s)
unfolding set_device apply
set_device-Effect device s =
    elim (Bool-cases (holds (look s.inner.devices device.position) device)) [
      | inl same ↦ rw same (nothing s)
      | inr new ↦ rw new (
          reported (device_change device)
            (record (s.inner) { devices = put s.inner.devices device.position device }) refl)
    ]

pub set_block-Effect : (block : StoredBlock) (s : AppState) → Effect s (set_block block s)
unfolding set_block apply
set_block-Effect block s =
    elim (Bool-cases (holds (look s.inner.blocks (block.chunk, block.voxel)) block)) [
      | inl same ↦ rw same (nothing s)
      | inr new ↦ rw new (
          reported (block_change block)
            (record (s.inner) { blocks = put s.inner.blocks (block.chunk, block.voxel) block })
            refl)
    ]

entry-named :
    (t : Table Text Account) (key username : Text) (o : Option Account)
    → look t key ≡ o
    → put t key (named (entry_from o t key username).0.display_name o)
      ≡ (entry_from o t key username).1
entry-named t key username none e = refl
entry-named t key username (some old) e = put-look t key old e

pub open_session-Effect :
    (token username : Text) (s : AppState) → Effect s (open_session token username s).1
unfolding open_session apply
open_session-Effect token username s =
    let key = to_ascii_lowercase username in
    let found = entry s.inner.accounts key username in
    reported (account_change key found.0.display_name)
      (record (s.inner) {
        accounts = found.1;
        sessions = put s.inner.sessions token key;
        most_recent = some key;
      })
      (ap (λ t. record (stored (s.inner)) { accounts = t })
        (entry-named s.inner.accounts key username (look s.inner.accounts key) refl))

pub authenticate-Effect :
    (token username password : Text) (s : AppState)
    → Effect s (authenticate token username password s).1
unfolding authenticate
authenticate-Effect token username password s = elim (Bool-cases (is_empty (trim username))) [
  | inl blank ↦ rw blank (nothing s)
  | inr named ↦ rw named (admitted-Effect (admission s.policy (trim username) password))
]
  where
    admitted-Effect :
        (r : LoginResult (Unit {0}))
        → Effect s (admitted r (open_session token (trim username) s) s).1
    admitted-Effect (err e) = nothing s
    admitted-Effect (ok u) = open_session-Effect token (trim username) s

pub bind_peer-Effect :
    (peer : List ℕ) (account : Text) (s : AppState) → Effect s (bind_peer peer account s)
unfolding bind_peer
bind_peer-Effect peer account s =
    let key = to_ascii_lowercase account in
    elim (Bool-cases (has (look s.inner.accounts key))) [
      | inl there ↦ rw there (
          silent (record (s.inner) { peers = put s.inner.peers peer key; most_recent = some key })
            refl)
      | inr unknown ↦ rw unknown (nothing s)
    ]

pub save_photo-Effect :
    (id : Text) (bytes : List ℕ) (captured_at : ℕ) (s : AppState)
    → Effect s (save_photo id bytes captured_at s)
unfolding save_photo apply
save_photo-Effect id bytes captured_at s =
    let photo : Photo = record { bytes = bytes; captured_at = captured_at } in
    reported (photo_change id photo) (record (s.inner) { photos = put s.inner.photos id photo })
      refl

pub claim_slot-Effect : (s : AppState) → Effect s (claim_slot s).1
unfolding claim_slot
claim_slot-Effect s = claimed (s.inner.reservations)
  where
    claimed : (rs : List Text) → Effect s (popped s rs).1
    claimed [] = nothing s
    claimed (oldest ∷ newer) = silent (record (s.inner) { reservations = newer }) refl
