-- ===== src/State/Types.antt =====
-- crates/skysaga-state/src/lib.rs: what the server's state is made of.
use sky_saga_rs.Common.{ℕ, Bool, refl, Option, none, some, List, []}
use sky_saga_rs.Common.Integers.{ℤ}
use sky_saga_rs.Common.Equality.{Eq, Eq-by, Eq_nat, Eq_list, Eq_option, Eq_pair}
use sky_saga_rs.Common.Table.{Table}
use sky_saga_rs.Packets.Fields.{Triple}
use sky_saga_rs.Packets.Customisation.{CustomisationData}
use sky_saga_rs.Common.Text.{Text}

pub data CredentialPolicy : Type 0 where
  any_non_empty : CredentialPolicy
  fixed : Table Text Text → CredentialPolicy

pub data LoginError : Type 0 where
  bad_credentials no_such_account : LoginError

-- A `Result` with a `LoginError`.
pub data LoginResult {ℓ} (A : Type ℓ) : Type ℓ where
  ok : A → LoginResult A
  err : LoginError → LoginResult A

-- A uuid is its 128 bits, as a number.
pub record Character : Type 0 where
  pub uuid : ℕ
  pub name : Text
  pub home_biome : Option Text
  pub appearance : CustomisationData

pub record Session : Type 0 where
  pub account : Text
  pub token : Text

pub record Account : Type 0 where
  pub display_name : Text
  pub character : Option Character

pub record AccountRecord : Type 0 where
  pub key : Text
  pub display_name : Text
  pub character : Option Character

pub record Photo : Type 0 where
  pub bytes : List ℕ
  pub captured_at : ℕ

instance abbrev pub Eq_triple : Eq (Triple ℕ)
Eq_triple =
    Eq-by {B = ℕ × (ℕ × ℕ)} (λ x. (x.first, (x.second, x.third)))
      (λ t. record { first = t.0; second = t.1.0; third = t.1.1 }) (λ x. refl)

pub record StoredItem : Type 0 where
  pub slot : ℕ
  pub item : ℕ
  pub count : ℕ

instance abbrev pub Eq_StoredItem : Eq StoredItem
Eq_StoredItem =
    Eq-by {B = ℕ × (ℕ × ℕ)} (λ x. (x.slot, (x.item, x.count)))
      (λ t. record { slot = t.0; item = t.1.0; count = t.1.1 }) (λ x. refl)

pub record StoredDevice : Type 0 where
  pub name : Text
  pub position : Triple ℕ

instance abbrev pub Eq_StoredDevice : Eq StoredDevice
Eq_StoredDevice =
    Eq-by {B = Text × Triple ℕ} (λ x. (x.name, x.position))
      (λ t. record { name = t.0; position = t.1 }) (λ x. refl)

pub record StoredBlock : Type 0 where
  pub chunk : Triple ℕ
  pub voxel : Triple ℕ
  pub material : ℕ

instance abbrev pub Eq_StoredBlock : Eq StoredBlock
Eq_StoredBlock =
    Eq-by {B = Triple ℕ × (Triple ℕ × ℕ)} (λ x. (x.chunk, (x.voxel, x.material)))
      (λ t. record { chunk = t.0; voxel = t.1.0; material = t.1.1 }) (λ x. refl)

pub record StoredMail : Type 0 where
  pub uuid : Text
  pub subject : Text
  pub body : Text
  pub flags : ℕ
  pub attachments : List StoredItem

instance abbrev pub Eq_StoredMail : Eq StoredMail
Eq_StoredMail =
    Eq-by {B = Text × (Text × (Text × (ℕ × List StoredItem)))}
      (λ x. (x.uuid, (x.subject, (x.body, (x.flags, x.attachments)))))
      (λ t. record {
        uuid = t.0;
        subject = t.1.0;
        body = t.1.1.0;
        flags = t.1.1.1.0;
        attachments = t.1.1.1.1;
      })
      (λ x. refl)

pub record StoredItemDetail : Type 0 where
  pub slot : ℕ
  pub durability : Option ℕ
  pub teaches : Option ℕ

instance abbrev pub Eq_StoredItemDetail : Eq StoredItemDetail
Eq_StoredItemDetail =
    Eq-by {B = ℕ × (Option ℕ × Option ℕ)} (λ x. (x.slot, (x.durability, x.teaches)))
      (λ t. record { slot = t.0; durability = t.1.0; teaches = t.1.1 }) (λ x. refl)

pub record StoredProgress : Type 0 where
  pub item_details : List StoredItemDetail
  pub item_materials : List (ℕ × List (Option ℕ))
  pub item_minted : List (ℕ × ℕ)
  pub recipes : List ℕ

instance abbrev pub Eq_StoredProgress : Eq StoredProgress
Eq_StoredProgress =
    Eq-by {B = List StoredItemDetail × (List (ℕ × List (Option ℕ)) × (List (ℕ × ℕ) × List ℕ))}
      (λ x. (x.item_details, (x.item_materials, (x.item_minted, x.recipes))))
      (λ t. record {
        item_details = t.0;
        item_materials = t.1.0;
        item_minted = t.1.1.0;
        recipes = t.1.1.1;
      })
      (λ x. refl)

-- `StoredProgress::default`
abbrev pub default_progress : StoredProgress
default_progress = record { item_details = []; item_materials = []; item_minted = []; recipes = [] }

pub record StoredBinding : Type 0 where
  pub square : ℕ
  pub hand : ℕ
  pub item : ℕ

instance abbrev pub Eq_StoredBinding : Eq StoredBinding
Eq_StoredBinding =
    Eq-by {B = ℕ × (ℕ × ℕ)} (λ x. (x.square, (x.hand, x.item)))
      (λ t. record { square = t.0; hand = t.1.0; item = t.1.1 }) (λ x. refl)

pub data Change : Type 0 where
  account_change : (key display_name : Text) → Change
  character_change : (account : Text) → Character → Change
  delete_character_change : (account : Text) → Change
  photo_change : (id : Text) → Photo → Change
  mail_change : (account : Text) → List StoredMail → Change
  inventory_change : (account : Text) → List StoredItem → Change
  hotbar_change : (account : Text) → List StoredBinding → Change
  block_change : StoredBlock → Change
  device_change : StoredDevice → Change
  home_title_change : Text → Change
  progress_change : (account : Text) → StoredProgress → Change

pub record WorldSummary : Type 0 where
  pub adventure : Text
  pub biome : Text
  pub chunks : ℕ
  pub entities : ℕ
  pub spawn_voxel : Triple ℕ

pub record PlayerSummary : Type 0 where
  pub account : Option Text
  pub character : Option Text
  pub entity_id : ℕ
  pub stage : Text
  pub inventory_slots : ℕ
  pub inventory_items : List ℕ
  pub position : Option (Triple ℕ)
  pub facing_yaw : Option ℤ
  pub using_entity_id : ℕ

pub record ServerSnapshot : Type 0 where
  pub world : WorldSummary
  pub players : List PlayerSummary

-- `ServerSnapshot::default`
abbrev pub default_snapshot : ServerSnapshot
default_snapshot = record {
  world = record {
    adventure = [];
    biome = [];
    chunks = 0;
    entities = 0;
    spawn_voxel = record { first = 0; second = 0; third = 0 };
  };
  players = [];
}

pub data AdminCommand : Type 0 where
  give :
      (account item : Text) (count : ℕ) (durability : Option ℕ) (materials : List Text)
      (age : Option ℕ)
      → AdminCommand
  mail_to : (account subject body : Text) (attachments : List (Text × ℕ)) → AdminCommand
  clear_inventory : (account : Text) → AdminCommand
  switch_durability : (enabled : Option Bool) → AdminCommand
  lid : (account : Text) (raise_on_close : Bool) → AdminCommand
  portal : (account : Text) (state : ℕ) (biome adventure : Option Text) → AdminCommand
  chest : (account entity : Text) (loot : List Text) → AdminCommand
  mob : (account entity : Text) (count : ℕ) → AdminCommand

-- The keys of `peers` are the octets of an address.
pub record Inner : Type 0 where
  pub accounts : Table Text Account
  pub sessions : Table Text Text
  pub peers : Table (List ℕ) Text
  pub most_recent : Option Text
  pub photos : Table Text Photo
  pub devices : Table (Triple ℕ) StoredDevice
  pub home_title : Option Text
  pub blocks : Table (Triple ℕ × Triple ℕ) StoredBlock
  pub mail : Table Text (List StoredMail)
  pub inventories : Table Text (List StoredItem)
  pub hotbars : Table Text (List StoredBinding)
  pub progress : Table Text StoredProgress
  pub snapshot : ServerSnapshot
  pub reservations : List Text
  pub commands : List AdminCommand
  pub item_catalogue : List Text

-- `Inner::default`
abbrev pub default_inner : Inner
default_inner = record {
  accounts = [];
  sessions = [];
  peers = [];
  most_recent = none;
  photos = [];
  devices = [];
  home_title = none;
  blocks = [];
  mail = [];
  inventories = [];
  hotbars = [];
  progress = [];
  snapshot = default_snapshot;
  reservations = [];
  commands = [];
  item_catalogue = [];
}

-- `AppState`. The sink, where there is one, is the list of the changes that it was given.
pub record AppState : Type 0 where
  pub policy : CredentialPolicy
  pub inner : Inner
  pub sink : Option (List Change)

-- `AppState::new`
abbrev pub new : CredentialPolicy → AppState
new policy = record { policy = policy; inner = default_inner; sink = none }

abbrev pub with_sink : AppState → AppState
with_sink s = record s { sink = some [] }
