-- ===== src/State/Saves.antt =====
-- crates/skysaga-state/src/lib.rs: what is kept for each player and for the world. A change is
-- reported to the sink, and none is where nothing differs.
use sky_saga_rs.Common.{
  ℕ, Bool, false, ◌||◌, List, [], ◌∷◌, ◌++◌, map, Option, none, some, if◌then◌else◌,
}
use sky_saga_rs.Common.Options.{unwrap_or}
use sky_saga_rs.Common.Equality.{Eq, ◌=?◌, Eq_nat, Eq_list, Eq_option, Eq_pair}
use sky_saga_rs.Common.Table.{Table, look, put, put_all}
use sky_saga_rs.Packets.Fields.{Triple}
use sky_saga_rs.Common.Text.{Text, is_empty, trim, to_ascii_lowercase}
use sky_saga_rs.State.Types.{
  Account, AccountRecord, Photo, StoredMail, StoredItem, StoredBinding, StoredProgress, StoredBlock,
  StoredDevice, default_progress, Change, mail_change, inventory_change, hotbar_change,
  progress_change, block_change, device_change, home_title_change, photo_change, AppState,
  Eq_triple, Eq_StoredMail, Eq_StoredItem, Eq_StoredBinding, Eq_StoredProgress, Eq_StoredBlock,
  Eq_StoredDevice, ServerSnapshot,
}

abbrev pub given : Option (List Change) → Change → Option (List Change)
given none change = none
given (some log) change = some (log ++ (change ∷ []))

-- `AppState::record`. The source calls it after the lock is released: an operation is here what one
-- thread does with no other between the two, and State/Threads takes the two apart.
abbrev pub report : Change → AppState → AppState
report change s = record s { sink = given s.sink change }

-- The key of an account where a name is trimmed first.
abbrev pub account_key : Text → Text
account_key account = to_ascii_lowercase (trim account)

-- `is_some_and(|held| *held == value)`
abbrev pub holds {ℓ} : {A : Type ℓ} ⦃e : Eq A⦄ → Option A → A → Bool
holds none value = false
holds (some held) value = held =? value

unfoldable pub mail : Text → AppState → List StoredMail
mail account s = unwrap_or [] (look s.inner.mail (account_key account))

unfoldable pub set_mail : Text → List StoredMail → AppState → AppState
set_mail account new_mail s =
    let key = account_key account in
    if holds (look s.inner.mail key) new_mail
    then s
    else report (mail_change key new_mail)
        (record s { inner = record (s.inner) { mail = put s.inner.mail key new_mail } })

unfoldable pub inventory : Text → AppState → List StoredItem
inventory account s = unwrap_or [] (look s.inner.inventories (account_key account))

unfoldable pub set_inventory : Text → List StoredItem → AppState → AppState
set_inventory account items s =
    let key = account_key account in
    if holds (look s.inner.inventories key) items
    then s
    else report (inventory_change key items)
        (record s { inner = record (s.inner) { inventories = put s.inner.inventories key items } })

unfoldable pub progress : Text → AppState → StoredProgress
progress account s = unwrap_or default_progress (look s.inner.progress (account_key account))

unfoldable pub set_progress : Text → StoredProgress → AppState → AppState
set_progress account new_progress s =
    let key = account_key account in
    if holds (look s.inner.progress key) new_progress
    then s
    else report (progress_change key new_progress)
        (record s { inner = record (s.inner) { progress = put s.inner.progress key new_progress } })

unfoldable pub hotbar : Text → AppState → List StoredBinding
hotbar account s = unwrap_or [] (look s.inner.hotbars (account_key account))

unfoldable pub set_hotbar : Text → List StoredBinding → AppState → AppState
set_hotbar account bindings s =
    let key = account_key account in
    if holds (look s.inner.hotbars key) bindings
    then s
    else report (hotbar_change key bindings)
        (record s { inner = record (s.inner) { hotbars = put s.inner.hotbars key bindings } })

unfoldable pub set_home_title : Text → AppState → AppState
set_home_title title s =
    if holds s.inner.home_title title
    then s
    else report (home_title_change title)
        (record s { inner = record (s.inner) { home_title = some title } })

abbrev pub home_title : AppState → Option Text
home_title s = s.inner.home_title

unfoldable pub set_device : StoredDevice → AppState → AppState
set_device device s =
    if holds (look s.inner.devices device.position) device
    then s
    else report (device_change device) (record s {
      inner = record (s.inner) { devices = put s.inner.devices device.position device };
    })

unfoldable pub set_block : StoredBlock → AppState → AppState
set_block block s =
    let place : Triple ℕ × Triple ℕ = (block.chunk, block.voxel) in
    if holds (look s.inner.blocks place) block
    then s
    else report (block_change block)
        (record s { inner = record (s.inner) { blocks = put s.inner.blocks place block } })

unfoldable pub save_photo : Text → List ℕ → ℕ → AppState → AppState
save_photo id bytes captured_at s =
    let photo : Photo = record { bytes = bytes; captured_at = captured_at } in
    report (photo_change id photo)
      (record s { inner = record (s.inner) { photos = put s.inner.photos id photo } })

unfoldable pub photo : Text → AppState → Option Photo
photo id s = look s.inner.photos id

-- `publish_snapshot`, which is not reported.
abbrev pub publish_snapshot : ServerSnapshot → AppState → AppState
publish_snapshot snapshot s = record s { inner = record (s.inner) { snapshot = snapshot } }

unfoldable pub set_item_catalogue : List Text → AppState → AppState
set_item_catalogue names s = record s {
  inner = record (s.inner) { item_catalogue = map to_ascii_lowercase names };
}

abbrev pub contains : List Text → Text → Bool
contains [] name = false
contains (n ∷ names) name = (n =? name) || contains names name

unfoldable pub knows_item : Text → AppState → Bool
knows_item name s =
    is_empty s.inner.item_catalogue || contains s.inner.item_catalogue (to_ascii_lowercase name)

abbrev pub import_accounts : Table Text Account → List AccountRecord → Table Text Account
import_accounts t [] = t
import_accounts t (r ∷ more) =
    import_accounts
      (put t r.key (record { display_name = r.display_name; character = r.character })) more

-- `AppState::import`
unfoldable pub load :
    List AccountRecord → List (Text × Photo) → List (Text × List StoredItem) → AppState → AppState
unfolding put_all
load accounts photos inventories s = record s {
  inner = record (s.inner) {
    accounts = import_accounts s.inner.accounts accounts;
    photos = put_all s.inner.photos photos;
    inventories = put_all s.inner.inventories inventories;
  };
}

-- `import_hotbars`, `import_mail`, `import_progress`
unfoldable pub import_hotbars : List (Text × List StoredBinding) → AppState → AppState
unfolding put_all
import_hotbars more s = record s {
  inner = record (s.inner) { hotbars = put_all s.inner.hotbars more };
}

unfoldable pub import_mail : List (Text × List StoredMail) → AppState → AppState
unfolding put_all
import_mail more s = record s { inner = record (s.inner) { mail = put_all s.inner.mail more } }

unfoldable pub import_progress : List (Text × StoredProgress) → AppState → AppState
unfolding put_all
import_progress more s = record s {
  inner = record (s.inner) { progress = put_all s.inner.progress more };
}

unfoldable pub import_home_title : Option Text → AppState → AppState
import_home_title title s = record s { inner = record (s.inner) { home_title = title } }

abbrev put_devices :
    Table (Triple ℕ) StoredDevice → List StoredDevice → Table (Triple ℕ) StoredDevice
put_devices t [] = t
put_devices t (d ∷ more) = put_devices (put t d.position d) more

unfoldable pub import_devices : List StoredDevice → AppState → AppState
import_devices more s = record s {
  inner = record (s.inner) { devices = put_devices s.inner.devices more };
}

abbrev put_blocks :
    Table (Triple ℕ × Triple ℕ) StoredBlock
    → List StoredBlock
    → Table (Triple ℕ × Triple ℕ) StoredBlock
put_blocks t [] = t
put_blocks t (b ∷ more) = put_blocks (put t (b.chunk, b.voxel) b) more

unfoldable pub import_blocks : List StoredBlock → AppState → AppState
import_blocks more s = record s {
  inner = record (s.inner) { blocks = put_blocks s.inner.blocks more };
}
