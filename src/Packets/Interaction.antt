-- ===== src/Packets/Interaction.antt =====
-- crates/skysaga-proto/src/packets/interaction.rs: acting on an entity.
pub mod RoundTrip
pub mod Safety
use sky_saga_rs.Common.{
  ℕ, zero, suc, ◌+◌, ◌-◌, ◌*◌, ◌/◌, ◌%◌, ◌≤◌, ◌<◌, ◌^◌, min, bit_or, Bool, true, false, ◌≡◌, refl,
  ap, sym, subst, ◌∙◌, inl, inr, List, [], ◌∷◌, ◌++◌, Option, none, some, length, replicate, get_or,
  set, ltb, leb, ◌==◌, if◌then◌else◌, Bool-cases, arith,
}
use sky_saga_rs.Bits.{ranged_bits}
use sky_saga_rs.BitStream.Writer.{
  BitWriter, Write, ◌⨾◌, write_bit, write_u32, write_u16, write_u64_le, write_bits, write_bits_le,
  write_bits_msb, write_aligned_bytes, write_optional_u32, write_string, write_compressed_u32,
  write_packet_id,
}
use sky_saga_rs.BitStream.Reader.{
  Result, BitReader, Read, ok, err, panic, ◌>>=◌, ◌>>◌, pure, read_bit, read_u32, read_u16,
  read_u64_le, read_bits_le, read_bits_msb, read_aligned_bytes, read_optional_u32, read_string,
  read_many, read_compressed_u32, skip_bits,
}
use sky_saga_rs.BitStream.Reader.Fields.{IsOptionalU32}
use sky_saga_rs.BitStream.RoundTrip.{IsShortString, write_each, All}
use sky_saga_rs.Packets.Fields.{
  IsRanged, Triple, AllThree, write_ranged, read_ranged, write_triple, read_triple,
  write_list_count, read_list_count, write_optional, read_optional, Optionally, read_byte_le,
  write_list, read_list, IsList,
}
use sky_saga_rs.Hash.{name_hash, hash_from}

pub record InteractWithEntity : Type 0 where
  pub interacting_entity : ℕ
  pub target_entity : ℕ

unfoldable pub encode_interact_with_entity : InteractWithEntity → Write
encode_interact_with_entity p =
    write_packet_id 20 ⨾ write_u32 p.interacting_entity ⨾ write_u32 p.target_entity

unfoldable pub decode_interact_with_entity : Read InteractWithEntity
decode_interact_with_entity = do
  interacting_entity ← read_u32
  target_entity ← read_u32
  pure (record { interacting_entity = interacting_entity; target_entity = target_entity })

pub record IsInteractWithEntity (p : InteractWithEntity) : Type 0 where
  pub interacting_entity_fits : p.interacting_entity < 2 ^ 32
  pub target_entity_fits : p.target_entity < 2 ^ 32

pub data Action : Type 0 where
  place_voxel dig activate_portal throw_pickup attack create_device create_entity
        create_pickup_entity pickup interact_action launch_projectile eat learn_emote learn_recipe
        learn_home_island_title unlock_job_challenge block blast_radius resource_pickup gather :
      Action
  unknown_action : ℕ → Action

-- `ALL`
abbrev pub all_actions : List Action
all_actions =
    place_voxel ∷ dig ∷ activate_portal ∷ throw_pickup ∷ attack ∷ create_device ∷ create_entity
    ∷ create_pickup_entity ∷ pickup ∷ interact_action ∷ launch_projectile ∷ eat ∷ learn_emote
    ∷ learn_recipe ∷ learn_home_island_title ∷ unlock_job_challenge ∷ block ∷ blast_radius
    ∷ resource_pickup ∷ gather ∷ []

unfoldable pub action_name : Action → Option (List ℕ)
-- PlaceVoxelAction
action_name place_voxel =
    some
      (80 ∷ 108 ∷ 97 ∷ 99 ∷ 101 ∷ 86 ∷ 111 ∷ 120 ∷ 101 ∷ 108 ∷ 65 ∷ 99 ∷ 116 ∷ 105 ∷ 111 ∷ 110 ∷ [])
-- DigAction
action_name dig = some (68 ∷ 105 ∷ 103 ∷ 65 ∷ 99 ∷ 116 ∷ 105 ∷ 111 ∷ 110 ∷ [])
-- ActivatePortalAction
action_name activate_portal = some (
    65 ∷ 99 ∷ 116 ∷ 105 ∷ 118 ∷ 97 ∷ 116 ∷ 101 ∷ 80 ∷ 111 ∷ 114 ∷ 116 ∷ 97 ∷ 108 ∷ 65 ∷ 99 ∷ 116
    ∷ 105 ∷ 111 ∷ 110 ∷ [])
-- ThrowPickupAction
action_name throw_pickup = some (
    84 ∷ 104 ∷ 114 ∷ 111 ∷ 119 ∷ 80 ∷ 105 ∷ 99 ∷ 107 ∷ 117 ∷ 112 ∷ 65 ∷ 99 ∷ 116 ∷ 105 ∷ 111 ∷ 110
    ∷ [])
-- AttackAction
action_name attack = some (65 ∷ 116 ∷ 116 ∷ 97 ∷ 99 ∷ 107 ∷ 65 ∷ 99 ∷ 116 ∷ 105 ∷ 111 ∷ 110 ∷ [])
-- CreateDeviceAction
action_name create_device = some (
    67 ∷ 114 ∷ 101 ∷ 97 ∷ 116 ∷ 101 ∷ 68 ∷ 101 ∷ 118 ∷ 105 ∷ 99 ∷ 101 ∷ 65 ∷ 99 ∷ 116 ∷ 105 ∷ 111
    ∷ 110 ∷ [])
-- CreateEntityAction
action_name create_entity = some (
    67 ∷ 114 ∷ 101 ∷ 97 ∷ 116 ∷ 101 ∷ 69 ∷ 110 ∷ 116 ∷ 105 ∷ 116 ∷ 121 ∷ 65 ∷ 99 ∷ 116 ∷ 105 ∷ 111
    ∷ 110 ∷ [])
-- CreatePickupEntityAction
action_name create_pickup_entity = some (
    67 ∷ 114 ∷ 101 ∷ 97 ∷ 116 ∷ 101 ∷ 80 ∷ 105 ∷ 99 ∷ 107 ∷ 117 ∷ 112 ∷ 69 ∷ 110 ∷ 116 ∷ 105 ∷ 116
    ∷ 121 ∷ 65 ∷ 99 ∷ 116 ∷ 105 ∷ 111 ∷ 110 ∷ [])
-- PickupAction
action_name pickup = some (80 ∷ 105 ∷ 99 ∷ 107 ∷ 117 ∷ 112 ∷ 65 ∷ 99 ∷ 116 ∷ 105 ∷ 111 ∷ 110 ∷ [])
-- InteractAction
action_name interact_action =
    some (73 ∷ 110 ∷ 116 ∷ 101 ∷ 114 ∷ 97 ∷ 99 ∷ 116 ∷ 65 ∷ 99 ∷ 116 ∷ 105 ∷ 111 ∷ 110 ∷ [])
-- LaunchProjectileAction
action_name launch_projectile = some (
    76 ∷ 97 ∷ 117 ∷ 110 ∷ 99 ∷ 104 ∷ 80 ∷ 114 ∷ 111 ∷ 106 ∷ 101 ∷ 99 ∷ 116 ∷ 105 ∷ 108 ∷ 101 ∷ 65
    ∷ 99 ∷ 116 ∷ 105 ∷ 111 ∷ 110 ∷ [])
-- EatAction
action_name eat = some (69 ∷ 97 ∷ 116 ∷ 65 ∷ 99 ∷ 116 ∷ 105 ∷ 111 ∷ 110 ∷ [])
-- LearnEmoteAction
action_name learn_emote =
    some (
      76 ∷ 101 ∷ 97 ∷ 114 ∷ 110 ∷ 69 ∷ 109 ∷ 111 ∷ 116 ∷ 101 ∷ 65 ∷ 99 ∷ 116 ∷ 105 ∷ 111 ∷ 110 ∷ [])
-- LearnRecipeAction
action_name learn_recipe = some (
    76 ∷ 101 ∷ 97 ∷ 114 ∷ 110 ∷ 82 ∷ 101 ∷ 99 ∷ 105 ∷ 112 ∷ 101 ∷ 65 ∷ 99 ∷ 116 ∷ 105 ∷ 111 ∷ 110
    ∷ [])
-- LearnHomeIslandTitleAction
action_name learn_home_island_title = some (
    76 ∷ 101 ∷ 97 ∷ 114 ∷ 110 ∷ 72 ∷ 111 ∷ 109 ∷ 101 ∷ 73 ∷ 115 ∷ 108 ∷ 97 ∷ 110 ∷ 100 ∷ 84 ∷ 105
    ∷ 116 ∷ 108 ∷ 101 ∷ 65 ∷ 99 ∷ 116 ∷ 105 ∷ 111 ∷ 110 ∷ [])
-- UnlockJobChallengeAction
action_name unlock_job_challenge = some (
    85 ∷ 110 ∷ 108 ∷ 111 ∷ 99 ∷ 107 ∷ 74 ∷ 111 ∷ 98 ∷ 67 ∷ 104 ∷ 97 ∷ 108 ∷ 108 ∷ 101 ∷ 110 ∷ 103
    ∷ 101 ∷ 65 ∷ 99 ∷ 116 ∷ 105 ∷ 111 ∷ 110 ∷ [])
-- BlockAction
action_name block = some (66 ∷ 108 ∷ 111 ∷ 99 ∷ 107 ∷ 65 ∷ 99 ∷ 116 ∷ 105 ∷ 111 ∷ 110 ∷ [])
-- BlastRadiusAction
action_name blast_radius = some (
    66 ∷ 108 ∷ 97 ∷ 115 ∷ 116 ∷ 82 ∷ 97 ∷ 100 ∷ 105 ∷ 117 ∷ 115 ∷ 65 ∷ 99 ∷ 116 ∷ 105 ∷ 111 ∷ 110
    ∷ [])
-- ResourcePickupAction
action_name resource_pickup = some (
    82 ∷ 101 ∷ 115 ∷ 111 ∷ 117 ∷ 114 ∷ 99 ∷ 101 ∷ 80 ∷ 105 ∷ 99 ∷ 107 ∷ 117 ∷ 112 ∷ 65 ∷ 99 ∷ 116
    ∷ 105 ∷ 111 ∷ 110 ∷ [])
-- GatherAction
action_name gather = some (71 ∷ 97 ∷ 116 ∷ 104 ∷ 101 ∷ 114 ∷ 65 ∷ 99 ∷ 116 ∷ 105 ∷ 111 ∷ 110 ∷ [])
action_name (unknown_action hash) = none

abbrev pub hash_or : Option (List ℕ) → Action → ℕ
hash_or (some name) action = name_hash name
hash_or none (unknown_action hash) = hash
hash_or none _ = 0

-- `Action::hash`
unfoldable pub action_hash : Action → ℕ
unfolding action_name name_hash
action_hash action = hash_or (action_name action) action

unfoldable pub find_action : ℕ → List Action → Option Action
unfolding action_hash
find_action hash [] = none
find_action hash (action ∷ actions) =
    let rest = find_action hash actions in if action_hash action == hash then some action else rest

abbrev pub or_unknown : Option Action → ℕ → Action
or_unknown none hash = unknown_action hash
or_unknown (some action) hash = action

-- `Action::from_hash`
unfoldable pub action_of : ℕ → Action
unfolding find_action
action_of hash = or_unknown (find_action hash all_actions) hash

unfoldable pub write_action : Option Action → Write
unfolding action_hash
write_action none = write_bit false
write_action (some action) = write_bit true ⨾ write_u32 (action_hash action)

unfoldable pub read_action : Read (Option Action)
unfolding action_of
read_action = do
  present ← read_bit
  if present then (read_u32 >>= λ hash. pure (some (action_of hash))) else pure none

-- An unknown action has the hash of none that is known.
abbrev pub IsAction : Option Action → Type 0
IsAction (some (unknown_action hash)) = (hash < 2 ^ 32) × (find_action hash all_actions ≡ none)
IsAction _ = Unit

pub record ExecuteEntityAction : Type 0 where
  pub source_entity : ℕ
  pub target_entity : ℕ
  pub action : Option Action

unfoldable pub encode_execute_entity_action : ExecuteEntityAction → Write
encode_execute_entity_action p =
    write_packet_id 64
    ⨾ write_u32 p.source_entity
    ⨾ write_u32 p.target_entity
    ⨾ write_action p.action

unfoldable pub decode_execute_entity_action : Read ExecuteEntityAction
decode_execute_entity_action = do
  source_entity ← read_u32
  target_entity ← read_u32
  action ← read_action
  pure (record { source_entity = source_entity; target_entity = target_entity; action = action })

pub record IsExecuteEntityAction (p : ExecuteEntityAction) : Type 0 where
  pub source_entity_fits : p.source_entity < 2 ^ 32
  pub target_entity_fits : p.target_entity < 2 ^ 32
  pub action_fits : IsAction p.action
