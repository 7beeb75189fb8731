-- ===== src/State/Stored.antt =====
-- What of the state of crates/skysaga-state/src/lib.rs outlives the server, and what a recorded
-- change makes of it: the promise of `Change` and `ChangeSink`, whatever the storage.
use sky_saga_rs.Common.{◌≡◌, refl, ap, ◌∙◌, List, [], ◌∷◌, ◌++◌, Option, none, some, ℕ}
use sky_saga_rs.Common.Equality.{Eq_nat, Eq_list, Eq_pair}
use sky_saga_rs.Common.Table.{Table, look, put, put-put, look-put_same}
use sky_saga_rs.Packets.Fields.{Triple}
use sky_saga_rs.Common.Text.{Text}
use sky_saga_rs.State.Types.{
  Account, Character, Photo, StoredMail, StoredItem, StoredBinding, StoredProgress, StoredBlock,
  StoredDevice, Change, account_change, character_change, delete_character_change, photo_change,
  mail_change, inventory_change, hotbar_change, block_change, device_change, home_title_change,
  progress_change, Inner, Eq_triple,
}

pub record Stored : Type 0 where
  pub accounts : Table Text Account
  pub photos : Table Text Photo
  pub devices : Table (Triple ℕ) StoredDevice
  pub home_title : Option Text
  pub blocks : Table (Triple ℕ × Triple ℕ) StoredBlock
  pub mail : Table Text (List StoredMail)
  pub inventories : Table Text (List StoredItem)
  pub hotbars : Table Text (List StoredBinding)
  pub progress : Table Text StoredProgress

-- The part of the state that is stored.
abbrev pub stored : Inner → Stored
stored i = record {
  accounts = i.accounts;
  photos = i.photos;
  devices = i.devices;
  home_title = i.home_title;
  blocks = i.blocks;
  mail = i.mail;
  inventories = i.inventories;
  hotbars = i.hotbars;
  progress = i.progress;
}

-- An account keeps its character when its name is stored.
abbrev pub named : Text → Option Account → Account
named display_name none = record { display_name = display_name; character = none }
named display_name (some old) = record old { display_name = display_name }

-- The character of an account that is not there is not stored.
abbrev pub put_character :
    Table Text Account → Text → Option Account → Option Character → Table Text Account
put_character t account none character = t
put_character t account (some old) character = put t account (record old { character = character })

unfoldable pub apply : Change → Stored → Stored
apply (account_change key display_name) st = record st {
  accounts = put st.accounts key (named display_name (look st.accounts key));
}
apply (character_change account character) st = record st {
  accounts = put_character st.accounts account (look st.accounts account) (some character);
}
apply (delete_character_change account) st = record st {
  accounts = put_character st.accounts account (look st.accounts account) none;
}
apply (photo_change id photo) st = record st { photos = put st.photos id photo }
apply (mail_change account mail) st = record st { mail = put st.mail account mail }
apply (inventory_change account items) st = record st {
  inventories = put st.inventories account items;
}
apply (hotbar_change account bindings) st = record st { hotbars = put st.hotbars account bindings }
apply (block_change block) st = record st {
  blocks = put st.blocks (block.chunk, block.voxel) block;
}
apply (device_change device) st = record st { devices = put st.devices device.position device }
apply (home_title_change title) st = record st { home_title = some title }
apply (progress_change account progress) st = record st {
  progress = put st.progress account progress;
}

unfoldable pub replay : List Change → Stored → Stored
unfolding apply
replay [] st = st
replay (change ∷ later) st = replay later (apply change st)

pub replay-append :
    (log : List Change) (change : Change) (st : Stored)
    → replay (log ++ (change ∷ [])) st ≡ apply change (replay log st)
unfolding replay
replay-append [] change st = refl
replay-append (first ∷ log) change st = replay-append log change (apply first st)

put-named :
    (t : Table Text Account) (key display_name : Text)
    → put
        (put t key (named display_name (look t key)))
        key
        (named display_name (look (put t key (named display_name (look t key))) key))
      ≡ put t key (named display_name (look t key))
put-named t key display_name =
    let new = named display_name (look t key) in
    rw (look-put_same t key new) (put-put t key new _ ∙ ap (put t key) (again (look t key)))
  where
    again :
        (o : Option Account)
        → named display_name (some (named display_name o)) ≡ named display_name o
    again none = refl
    again (some old) = refl

put_character-put :
    (t : Table Text Account) (key : Text) (o : Option Account) (c : Option Character)
    → look t key ≡ o
    → put_character (put_character t key o c) key (look (put_character t key o c) key) c
      ≡ put_character t key o c
put_character-put t key none c e = rw e refl
put_character-put t key (some old) c e =
    let new : Account = record old { character = c } in
    rw (look-put_same t key new) (put-put t key new new)

-- A change that is applied twice leaves what it leaves when it is applied once.
pub apply_twice : (change : Change) (st : Stored) → apply change (apply change st) ≡ apply change st
unfolding apply
apply_twice (account_change key display_name) st =
    ap (λ t. record st { accounts = t }) (put-named st.accounts key display_name)
apply_twice (character_change account character) st =
    ap (λ t. record st { accounts = t })
      (put_character-put st.accounts account (look st.accounts account) (some character) refl)
apply_twice (delete_character_change account) st =
    ap (λ t. record st { accounts = t })
      (put_character-put st.accounts account (look st.accounts account) none refl)
apply_twice (photo_change id photo) st =
    ap (λ t. record st { photos = t }) (put-put st.photos id photo photo)
apply_twice (mail_change account mail) st =
    ap (λ t. record st { mail = t }) (put-put st.mail account mail mail)
apply_twice (inventory_change account items) st =
    ap (λ t. record st { inventories = t }) (put-put st.inventories account items items)
apply_twice (hotbar_change account bindings) st =
    ap (λ t. record st { hotbars = t }) (put-put st.hotbars account bindings bindings)
apply_twice (block_change block) st =
    ap (λ t. record st { blocks = t }) (put-put st.blocks (block.chunk, block.voxel) block block)
apply_twice (device_change device) st =
    ap (λ t. record st { devices = t }) (put-put st.devices device.position device device)
apply_twice (home_title_change title) st = refl
apply_twice (progress_change account progress) st =
    ap (λ t. record st { progress = t }) (put-put st.progress account progress progress)
