-- ===== src/State/Invariant.antt =====
-- The operations of crates/skysaga-state/src/lib.rs keep what Sound says of the state.
pub mod Characters
use sky_saga_rs.Common.{
  ℕ, ◌≡◌, refl, ap, ◌∙◌, true, false, List, [], ◌∷◌, ◌++◌, Option, none, some, inl, inr, Bool-cases,
}
use sky_saga_rs.Common.Equality.{Eq_nat, Eq_list, Eq_pair}
use sky_saga_rs.Common.Table.{look}
use sky_saga_rs.Common.Text.{Text, trim, to_ascii_lowercase, is_empty}
use sky_saga_rs.State.Types.{
  Account, Character, LoginResult, StoredMail, StoredItem, StoredBinding, StoredProgress,
  StoredBlock, StoredDevice, Inner, AppState, ok, err, Eq_triple, Eq_StoredMail, Eq_StoredItem,
  Eq_StoredBinding, Eq_StoredProgress, Eq_StoredBlock, Eq_StoredDevice,
}
use sky_saga_rs.State.Policy.{admission}
use sky_saga_rs.State.Saves.{
  holds, account_key, set_mail, set_inventory, set_progress, set_hotbar, set_home_title, set_device,
  set_block, save_photo, set_item_catalogue,
}
use sky_saga_rs.State.Accounts.{
  entry_from, entry, open_session, admitted, authenticate, bind_peer, has,
}
use sky_saga_rs.State.Characters.{
  with_character, create_character, ensure_character, delete_character, update_character,
  set_character_name, set_home_biome, set_appearance, character_of, created_for, existing_or,
  deleted_from, deleted_for, updated_from, updated_for,
}
use sky_saga_rs.State.Queues.{reserve_slot, popped, claim_slot, push_command, take_commands}
use sky_saga_rs.State.Stored.{named}
use sky_saga_rs.Common.{◌≤◌, subst, length, arith}
use sky_saga_rs.State.Queues.{max_reservations}
use sky_saga_rs.Common.Table.{look-put_same, some-eq}
use sky_saga_rs.State.Types.{new}
use sky_saga_rs.State.Steps.{
  Step, Steps, rest, then_step, sets_mail, sets_inventory, sets_progress, sets_hotbar,
  sets_home_title, sets_device, sets_block, saves_photo, publishes_snapshot, sets_item_catalogue,
  authenticates, binds_peer, creates_character, ensures_character, deletes_character,
  sets_character_name, sets_home_biome, sets_appearance, reserves_slot, claims_slot, pushes_command,
  takes_commands,
}
use sky_saga_rs.State.Sound.{
  HasAccount, IsSound, IsSound-put, IsSound-session, IsSound-peer, length-keep_newest,
}

pub set_mail-IsSound :
    (account : Text) (value : List StoredMail) (s : AppState)
    → IsSound (s.inner)
    → IsSound ((set_mail account value s).inner)
unfolding set_mail
set_mail-IsSound account value s h =
    elim (Bool-cases (holds (look s.inner.mail (account_key account)) value)) [
      | inl same ↦ rw same h
      | inr new ↦ rw new h
    ]

pub set_inventory-IsSound :
    (account : Text) (value : List StoredItem) (s : AppState)
    → IsSound (s.inner)
    → IsSound ((set_inventory account value s).inner)
unfolding set_inventory
set_inventory-IsSound account value s h =
    elim (Bool-cases (holds (look s.inner.inventories (account_key account)) value)) [
      | inl same ↦ rw same h
      | inr new ↦ rw new h
    ]

pub set_progress-IsSound :
    (account : Text) (value : StoredProgress) (s : AppState)
    → IsSound (s.inner)
    → IsSound ((set_progress account value s).inner)
unfolding set_progress
set_progress-IsSound account value s h =
    elim (Bool-cases (holds (look s.inner.progress (account_key account)) value)) [
      | inl same ↦ rw same h
      | inr new ↦ rw new h
    ]

pub set_hotbar-IsSound :
    (account : Text) (value : List StoredBinding) (s : AppState)
    → IsSound (s.inner)
    → IsSound ((set_hotbar account value s).inner)
unfolding set_hotbar
set_hotbar-IsSound account value s h =
    elim (Bool-cases (holds (look s.inner.hotbars (account_key account)) value)) [
      | inl same ↦ rw same h
      | inr new ↦ rw new h
    ]

pub set_home_title-IsSound :
    (title : Text) (s : AppState) → IsSound (s.inner) → IsSound ((set_home_title title s).inner)
unfolding set_home_title
set_home_title-IsSound title s h = elim (Bool-cases (holds s.inner.home_title title)) [
  | inl same ↦ rw same h
  | inr new ↦ rw new h
]

pub set_device-IsSound :
    (device : StoredDevice) (s : AppState)
    → IsSound (s.inner)
    → IsSound ((set_device device s).inner)
unfolding set_device
set_device-IsSound device s h =
    elim (Bool-cases (holds (look s.inner.devices device.position) device)) [
      | inl same ↦ rw same h
      | inr new ↦ rw new h
    ]

pub set_block-IsSound :
    (block : StoredBlock) (s : AppState) → IsSound (s.inner) → IsSound ((set_block block s).inner)
unfolding set_block
set_block-IsSound block s h =
    elim (Bool-cases (holds (look s.inner.blocks (block.chunk, block.voxel)) block)) [
      | inl same ↦ rw same h
      | inr new ↦ rw new h
    ]

-- The account that signs in is there, found or new.
pub entry-HasAccount :
    (i : Inner) (key username : Text)
    → HasAccount (record i { accounts = (entry i.accounts key username).1 }) key
entry-HasAccount i key username = found (look i.accounts key) refl
  where
    found :
        (o : Option Account)
        → look i.accounts key ≡ o
        → has (look (entry_from o i.accounts key username).1 key) ≡ true
    found none e =
        rw (look-put_same i.accounts key (record { display_name = username; character = none }))
          refl
    found (some account) e = rw e refl

pub entry-IsSound :
    (i : Inner) (key username : Text)
    → IsSound i
    → IsSound (record i { accounts = (entry i.accounts key username).1 })
entry-IsSound i key username h = found (look i.accounts key)
  where
    found :
        (o : Option Account)
        → IsSound (record i { accounts = (entry_from o i.accounts key username).1 })
    found none = IsSound-put i key _ h (λ c b e f. ground arith)
    found (some account) = h

pub authenticate-IsSound :
    (token username password : Text) (s : AppState)
    → IsSound (s.inner)
    → IsSound ((authenticate token username password s).1.inner)
unfolding authenticate open_session
authenticate-IsSound token username password s h = elim (Bool-cases (is_empty (trim username))) [
  | inl blank ↦ rw blank h
  | inr named ↦ rw named (answered (admission s.policy (trim username) password))
]
  where
    answered :
        (r : LoginResult (Unit {0}))
        → IsSound ((admitted r (open_session token (trim username) s) s).1.inner)
    answered (err e) = h
    answered (ok u) =
        let key = to_ascii_lowercase (trim username) in
        IsSound-session
          (record (s.inner) { accounts = (entry s.inner.accounts key (trim username)).1 }) token key
          (entry-IsSound (s.inner) key (trim username) h)
          (entry-HasAccount (s.inner) key (trim username))

pub bind_peer-IsSound :
    (peer : List ℕ) (account : Text) (s : AppState)
    → IsSound (s.inner)
    → IsSound ((bind_peer peer account s).inner)
unfolding bind_peer
bind_peer-IsSound peer account s h =
    elim (Bool-cases (has (look s.inner.accounts (to_ascii_lowercase account)))) [
      | inl there ↦ rw there (IsSound-peer (s.inner) peer (to_ascii_lowercase account) h there)
      | inr unknown ↦ rw unknown h
    ]

pub claim_slot-IsSound : (s : AppState) → IsSound (s.inner) → IsSound ((claim_slot s).1.inner)
unfolding claim_slot
claim_slot-IsSound s h = claimed (s.inner.reservations) (h.4)
  where
    claimed : (rs : List Text) → length rs ≤ max_reservations → IsSound ((popped s rs).1.inner)
    claimed [] few = h
    claimed (oldest ∷ newer) few = (h.0, h.1, h.2, h.3, omega arith)
