-- ===== src/Packets/Combat/RoundTrip.antt =====
-- What the encoders of combat.rs write, the decoders read back.
use sky_saga_rs.Common.{arith}
use sky_saga_rs.Packets.Fields.{IsRanged, write_ranged, read_ranged}
use sky_saga_rs.BitStream.RoundTrip.{
  RoundTrip, RoundTrip-seq, RoundTrip-map, RoundTrip-u32, RoundTrip-optional_u32,
}
use sky_saga_rs.Packets.Fields.{RoundTrip-ranged, RoundTrip-triple}
use sky_saga_rs.Packets.Creation.{with_id, RoundTrip-with_id}
use sky_saga_rs.Packets.Combat.{
  max_location, max_action_type, max_dodge_direction, max_player_state, max_position, max_direction,
  max_fraction, EquippedItemUsed, encode_equipped_item_used, decode_equipped_item_used,
  IsEquippedItemUsed, PerformEntityActions, encode_perform_entity_actions,
  decode_perform_entity_actions, IsPerformEntityActions, StopUsingEquippedItem,
  encode_stop_using_equipped_item, decode_stop_using_equipped_item, IsStopUsingEquippedItem,
  SetPlayerState, encode_set_player_state, decode_set_player_state, IsSetPlayerState, PlayerDodged,
  encode_player_dodged, decode_player_dodged, IsPlayerDodged,
}

pub RoundTrip-equipped_item_used :
    (p : EquippedItemUsed)
    → IsEquippedItemUsed p
    → RoundTrip (encode_equipped_item_used p) (with_id decode_equipped_item_used) (60, p)
unfolding encode_equipped_item_used decode_equipped_item_used
RoundTrip-equipped_item_used p h = RoundTrip-with_id 60 (omega arith) (
    RoundTrip-seq _ (RoundTrip-ranged max_location p.location h.location_fits) (
      RoundTrip-seq _ (RoundTrip-optional_u32 p.equipped_action h.equipped_action_fits)
        (RoundTrip-map _ (RoundTrip-ranged max_action_type p.action_type h.action_type_fits))))

pub RoundTrip-perform_entity_actions :
    (p : PerformEntityActions)
    → IsPerformEntityActions p
    → RoundTrip (encode_perform_entity_actions p) (with_id decode_perform_entity_actions) (18, p)
unfolding encode_perform_entity_actions decode_perform_entity_actions
RoundTrip-perform_entity_actions p h = RoundTrip-with_id 18 (omega arith) (
    RoundTrip-seq _ (RoundTrip-ranged max_location p.location h.location_fits) (
      RoundTrip-seq _ (RoundTrip-u32 p.entity_id h.entity_id_fits) (
        RoundTrip-seq _
          (RoundTrip-triple (IsRanged max_position) (write_ranged max_position)
            (read_ranged max_position) (RoundTrip-ranged max_position) p.position h.position_fits)
          (RoundTrip-seq _
            (RoundTrip-triple (IsRanged max_direction) (write_ranged max_direction)
              (read_ranged max_direction) (RoundTrip-ranged max_direction) p.direction
              h.direction_fits)
            (RoundTrip-seq _
              (RoundTrip-triple (IsRanged max_direction) (write_ranged max_direction)
                (read_ranged max_direction) (RoundTrip-ranged max_direction) p.normal h.normal_fits)
              (RoundTrip-seq _ (RoundTrip-ranged max_fraction p.power h.power_fits)
                (RoundTrip-map _ (RoundTrip-ranged max_fraction p.progress h.progress_fits))))))))

pub RoundTrip-stop_using_equipped_item :
    (p : StopUsingEquippedItem)
    → IsStopUsingEquippedItem p
    → RoundTrip
        (encode_stop_using_equipped_item p)
        (with_id decode_stop_using_equipped_item)
        (61, p)
unfolding encode_stop_using_equipped_item decode_stop_using_equipped_item
RoundTrip-stop_using_equipped_item p h =
    RoundTrip-with_id 61 (omega arith)
      (RoundTrip-map _ (RoundTrip-ranged max_location p.location h.location_fits))

pub RoundTrip-set_player_state :
    (p : SetPlayerState)
    → IsSetPlayerState p
    → RoundTrip (encode_set_player_state p) (with_id decode_set_player_state) (35, p)
unfolding encode_set_player_state decode_set_player_state
RoundTrip-set_player_state p h =
    RoundTrip-with_id 35 (omega arith)
      (RoundTrip-map _ (RoundTrip-ranged max_player_state p.state_id h.state_id_fits))

pub RoundTrip-player_dodged :
    (p : PlayerDodged)
    → IsPlayerDodged p
    → RoundTrip (encode_player_dodged p) (with_id decode_player_dodged) (158, p)
unfolding encode_player_dodged decode_player_dodged
RoundTrip-player_dodged p h =
    RoundTrip-with_id 158 (omega arith)
      (RoundTrip-map _ (RoundTrip-ranged max_dodge_direction p.direction h.direction_fits))
