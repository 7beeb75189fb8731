-- ===== src/Packets/Combat.antt =====
-- crates/skysaga-proto/src/packets/combat.rs: swinging, hitting, dying and coming back.
pub mod RoundTrip
pub mod Safety
use sky_saga_rs.Common.{
  ℕ, zero, suc, ◌+◌, ◌-◌, ◌*◌, ◌/◌, ◌%◌, ◌≤◌, ◌<◌, ◌^◌, min, bit_or, Bool, true, false, ◌≡◌, refl,
  ap, sym, subst, ◌∙◌, inl, inr, List, [], ◌∷◌, ◌++◌, Option, none, some, length, replicate, get_or,
  set, ltb, leb, ◌==◌, if◌then◌else◌, Bool-cases, arith,
}
use sky_saga_rs.Bits.{ranged_bits}
use sky_saga_rs.BitStream.Writer.{
  BitWriter, Write, ◌⨾◌, write_bit, write_u32, write_u16, write_u64_le, write_bits, write_bits_le,
  write_bits_msb, write_aligned_bytes, write_optional_u32, write_string, write_compressed_u32,
  write_packet_id,
}
use sky_saga_rs.BitStream.Reader.{
  Result, BitReader, Read, ok, err, panic, ◌>>=◌, ◌>>◌, pure, read_bit, read_u32, read_u16,
  read_u64_le, read_bits_le, read_bits_msb, read_aligned_bytes, read_optional_u32, read_string,
  read_many, read_compressed_u32, skip_bits,
}
use sky_saga_rs.BitStream.Reader.Fields.{IsOptionalU32}
use sky_saga_rs.BitStream.RoundTrip.{IsShortString, write_each, All}
use sky_saga_rs.Packets.Fields.{
  IsRanged, Triple, AllThree, write_ranged, read_ranged, write_triple, read_triple,
  write_list_count, read_list_count, write_optional, read_optional, Optionally, read_byte_le,
  write_list, read_list, IsList,
}

abbrev pub max_location : ℕ
max_location = 8

abbrev pub max_action_type : ℕ
max_action_type = 5

abbrev pub max_dodge_direction : ℕ
max_dodge_direction = 2

abbrev pub max_player_state : ℕ
max_player_state = 11

abbrev pub max_effect_type : ℕ
max_effect_type = 0x61

abbrev pub max_amount : ℕ
max_amount = 0x200

abbrev pub max_position : ℕ
max_position = 0x10000

abbrev pub max_direction : ℕ
max_direction = 0x80

abbrev pub max_magnitude : ℕ
max_magnitude = 0xFC

abbrev pub max_yaw : ℕ
max_yaw = 0x6400

abbrev pub max_fraction : ℕ
max_fraction = 0x20

pub record EquippedItemUsed : Type 0 where
  pub location : ℕ
  pub equipped_action : Option ℕ
  pub action_type : ℕ

unfoldable pub encode_equipped_item_used : EquippedItemUsed → Write
encode_equipped_item_used p =
    write_packet_id 60
    ⨾ write_bits_le p.location (ranged_bits max_location)
    ⨾ write_optional_u32 p.equipped_action
    ⨾ write_bits_le p.action_type (ranged_bits max_action_type)

unfoldable pub decode_equipped_item_used : Read EquippedItemUsed
decode_equipped_item_used = do
  location ← read_bits_le (ranged_bits max_location)
  equipped_action ← read_optional_u32
  action_type ← read_bits_le (ranged_bits max_action_type)
  pure
      (record { location = location; equipped_action = equipped_action; action_type = action_type })

pub record IsEquippedItemUsed (p : EquippedItemUsed) : Type 0 where
  pub location_fits : IsRanged max_location p.location
  pub equipped_action_fits : IsOptionalU32 p.equipped_action
  pub action_type_fits : IsRanged max_action_type p.action_type

pub record PerformEntityActions : Type 0 where
  pub location : ℕ
  pub entity_id : ℕ
  pub position : Triple ℕ
  pub direction : Triple ℕ
  pub normal : Triple ℕ
  pub power : ℕ
  pub progress : ℕ

unfoldable pub encode_perform_entity_actions : PerformEntityActions → Write
encode_perform_entity_actions p =
    write_packet_id 18
    ⨾ write_bits_le p.location (ranged_bits max_location)
    ⨾ write_u32 p.entity_id
    ⨾ write_triple (write_ranged max_position) p.position
    ⨾ write_triple (write_ranged max_direction) p.direction
    ⨾ write_triple (write_ranged max_direction) p.normal
    ⨾ write_bits_le p.power (ranged_bits max_fraction)
    ⨾ write_bits_le p.progress (ranged_bits max_fraction)

unfoldable pub decode_perform_entity_actions : Read PerformEntityActions
decode_perform_entity_actions = do
  location ← read_bits_le (ranged_bits max_location)
  entity_id ← read_u32
  position ← read_triple (read_ranged max_position)
  direction ← read_triple (read_ranged max_direction)
  normal ← read_triple (read_ranged max_direction)
  power ← read_bits_le (ranged_bits max_fraction)
  progress ← read_bits_le (ranged_bits max_fraction)
  pure (record {
    location = location;
    entity_id = entity_id;
    position = position;
    direction = direction;
    normal = normal;
    power = power;
    progress = progress;
  })

pub record IsPerformEntityActions (p : PerformEntityActions) : Type 0 where
  pub location_fits : IsRanged max_location p.location
  pub entity_id_fits : p.entity_id < 2 ^ 32
  pub position_fits : AllThree (IsRanged max_position) p.position
  pub direction_fits : AllThree (IsRanged max_direction) p.direction
  pub normal_fits : AllThree (IsRanged max_direction) p.normal
  pub power_fits : IsRanged max_fraction p.power
  pub progress_fits : IsRanged max_fraction p.progress

pub record StopUsingEquippedItem : Type 0 where
  pub location : ℕ

unfoldable pub encode_stop_using_equipped_item : StopUsingEquippedItem → Write
encode_stop_using_equipped_item p =
    write_packet_id 61 ⨾ write_bits_le p.location (ranged_bits max_location)

unfoldable pub decode_stop_using_equipped_item : Read StopUsingEquippedItem
decode_stop_using_equipped_item = do
  location ← read_bits_le (ranged_bits max_location)
  pure (record { location = location })

pub record IsStopUsingEquippedItem (p : StopUsingEquippedItem) : Type 0 where
  pub location_fits : IsRanged max_location p.location

pub record SetPlayerState : Type 0 where
  pub state_id : ℕ

unfoldable pub encode_set_player_state : SetPlayerState → Write
encode_set_player_state p =
    write_packet_id 35 ⨾ write_bits_le p.state_id (ranged_bits max_player_state)

unfoldable pub decode_set_player_state : Read SetPlayerState
decode_set_player_state = do
  state_id ← read_bits_le (ranged_bits max_player_state)
  pure (record { state_id = state_id })

pub record IsSetPlayerState (p : SetPlayerState) : Type 0 where
  pub state_id_fits : IsRanged max_player_state p.state_id

pub record PlayerDodged : Type 0 where
  pub direction : ℕ

unfoldable pub encode_player_dodged : PlayerDodged → Write
encode_player_dodged p =
    write_packet_id 158 ⨾ write_bits_le p.direction (ranged_bits max_dodge_direction)

unfoldable pub decode_player_dodged : Read PlayerDodged
decode_player_dodged = do
  direction ← read_bits_le (ranged_bits max_dodge_direction)
  pure (record { direction = direction })

pub record IsPlayerDodged (p : PlayerDodged) : Type 0 where
  pub direction_fits : IsRanged max_dodge_direction p.direction

unfoldable pub encode_i_fell_too_far : Write
encode_i_fell_too_far = write_packet_id 24

unfoldable pub encode_player_fallen_off_the_world : Write
encode_player_fallen_off_the_world = write_packet_id 156

unfoldable pub encode_request_respawn : Write
encode_request_respawn = write_packet_id 87

pub record EntityUsedEquippedItem : Type 0 where
  pub entity_id : ℕ
  pub location : ℕ
  pub equipped_action : Option ℕ
  pub action_type : ℕ

unfoldable pub encode_entity_used_equipped_item : EntityUsedEquippedItem → Write
encode_entity_used_equipped_item p =
    write_packet_id 62
    ⨾ write_u32 p.entity_id
    ⨾ write_bits_le p.location (ranged_bits max_location)
    ⨾ write_optional_u32 p.equipped_action
    ⨾ write_bits_le p.action_type (ranged_bits max_action_type)

pub record EntityStoppedUsingEquippedItem : Type 0 where
  pub entity_id : ℕ
  pub location : ℕ

unfoldable pub encode_entity_stopped_using_equipped_item : EntityStoppedUsingEquippedItem → Write
encode_entity_stopped_using_equipped_item p =
    write_packet_id 63 ⨾ write_u32 p.entity_id ⨾ write_bits_le p.location (ranged_bits max_location)

pub record EventEffect : Type 0 where
  pub effect_type : ℕ
  pub entity_a : ℕ
  pub entity_b : ℕ
  pub resource_a : Option ℕ
  pub resource_b : Option ℕ
  pub position : Triple ℕ
  pub direction : Triple ℕ
  pub amount : ℕ

unfoldable pub encode_event_effect : EventEffect → Write
encode_event_effect p =
    write_packet_id 34
    ⨾ write_bits_le p.effect_type (ranged_bits max_effect_type)
    ⨾ write_u32 p.entity_a
    ⨾ write_u32 p.entity_b
    ⨾ write_optional_u32 p.resource_a
    ⨾ write_optional_u32 p.resource_b
    ⨾ write_triple (write_ranged max_position) p.position
    ⨾ write_triple (write_ranged max_direction) p.direction
    ⨾ write_bits_le p.amount (ranged_bits max_amount)

pub record KillOccurred : Type 0 where
  pub killer : ℕ
  pub victim : ℕ
  pub weapon : Option ℕ

unfoldable pub encode_kill_occurred : KillOccurred → Write
encode_kill_occurred p =
    write_packet_id 23 ⨾ write_u32 p.killer ⨾ write_u32 p.victim ⨾ write_optional_u32 p.weapon

pub record PlayerSpawned : Type 0 where
  pub entity_id : ℕ
  pub position : Triple ℕ
  pub yaw : ℕ

unfoldable pub encode_player_spawned : PlayerSpawned → Write
encode_player_spawned p =
    write_packet_id 105
    ⨾ write_u32 p.entity_id
    ⨾ write_triple (write_ranged max_position) p.position
    ⨾ write_bits_le p.yaw (ranged_bits max_yaw)

pub record ApplyImpulse : Type 0 where
  pub entity_id : ℕ
  pub direction : Triple ℕ
  pub magnitude : ℕ

unfoldable pub encode_apply_impulse : ApplyImpulse → Write
encode_apply_impulse p =
    write_packet_id 70
    ⨾ write_u32 p.entity_id
    ⨾ write_triple (write_ranged max_direction) p.direction
    ⨾ write_bits_le p.magnitude (ranged_bits max_magnitude)

pub record EntityDodged : Type 0 where
  pub entity_id : ℕ
  pub direction : ℕ

unfoldable pub encode_entity_dodged : EntityDodged → Write
encode_entity_dodged p =
    write_packet_id 159
    ⨾ write_u32 p.entity_id
    ⨾ write_bits_le p.direction (ranged_bits max_dodge_direction)
