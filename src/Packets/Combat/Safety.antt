-- ===== src/Packets/Combat/Safety.antt =====
-- The decoders of combat.rs end no process, whatever the bytes.

use sky_saga_rs.Bits.{ranged_bits}
use sky_saga_rs.BitStream.Reader.Safety.{
  Safe, Safe-pure, Safe-bind, Safe-u32, Safe-bits_le, Safe-optional_u32,
}
use sky_saga_rs.Packets.Fields.{Safe-triple}
use sky_saga_rs.Packets.Combat.{
  max_location, max_action_type, max_dodge_direction, max_player_state, max_position, max_direction,
  max_fraction, decode_equipped_item_used, decode_perform_entity_actions,
  decode_stop_using_equipped_item, decode_set_player_state, decode_player_dodged,
}

pub Safe-equipped_item_used : Safe decode_equipped_item_used
unfolding decode_equipped_item_used
Safe-equipped_item_used = Safe-bind _ (Safe-bits_le (ranged_bits max_location)) (λ location.
    Safe-bind _ Safe-optional_u32 (λ equipped_action.
      Safe-bind _ (Safe-bits_le (ranged_bits max_action_type)) (λ action_type. Safe-pure _)))

pub Safe-perform_entity_actions : Safe decode_perform_entity_actions
unfolding decode_perform_entity_actions
Safe-perform_entity_actions = Safe-bind _ (Safe-bits_le (ranged_bits max_location)) (λ location.
    Safe-bind _ Safe-u32 (λ entity_id.
      Safe-bind _ (Safe-triple (Safe-bits_le (ranged_bits max_position))) (λ position.
        Safe-bind _ (Safe-triple (Safe-bits_le (ranged_bits max_direction))) (λ direction.
          Safe-bind _ (Safe-triple (Safe-bits_le (ranged_bits max_direction))) (λ normal.
            Safe-bind _ (Safe-bits_le (ranged_bits max_fraction)) (λ power.
              Safe-bind _ (Safe-bits_le (ranged_bits max_fraction)) (λ progress. Safe-pure _)))))))

pub Safe-stop_using_equipped_item : Safe decode_stop_using_equipped_item
unfolding decode_stop_using_equipped_item
Safe-stop_using_equipped_item =
    Safe-bind _ (Safe-bits_le (ranged_bits max_location)) (λ location. Safe-pure _)

pub Safe-set_player_state : Safe decode_set_player_state
unfolding decode_set_player_state
Safe-set_player_state =
    Safe-bind _ (Safe-bits_le (ranged_bits max_player_state)) (λ state_id. Safe-pure _)

pub Safe-player_dodged : Safe decode_player_dodged
unfolding decode_player_dodged
Safe-player_dodged =
    Safe-bind _ (Safe-bits_le (ranged_bits max_dodge_direction)) (λ direction. Safe-pure _)
