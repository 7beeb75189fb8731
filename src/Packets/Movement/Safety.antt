-- ===== src/Packets/Movement/Safety.antt =====
-- The decoders of movement.rs end no process, whatever the bytes.

use sky_saga_rs.Bits.{ranged_bits}
use sky_saga_rs.BitStream.Reader.Safety.{Safe, Safe-pure, Safe-bind, Safe-u32, Safe-bits_le}
use sky_saga_rs.Packets.Fields.{Safe-triple}
use sky_saga_rs.Packets.Movement.{
  position_max, angle_max, look_mode_max, read_angle, read_mode, decode_entity_moved,
  decode_set_look_at_direction,
}

pub Safe-angle : Safe read_angle
unfolding read_angle
Safe-angle = Safe-bind _ (Safe-bits_le (ranged_bits angle_max)) (λ raw. Safe-pure _)

pub Safe-mode : Safe read_mode
unfolding read_mode
Safe-mode = Safe-bind _ (Safe-bits_le (ranged_bits look_mode_max)) (λ v. Safe-pure _)

pub Safe-entity_moved : Safe decode_entity_moved
unfolding decode_entity_moved
Safe-entity_moved = Safe-bind _ Safe-u32 (λ entity_id.
    Safe-bind _ (Safe-triple (Safe-bits_le (ranged_bits position_max)))
      (λ position. Safe-bind _ Safe-angle (λ yaw. Safe-pure _)))

pub Safe-set_look_at_direction : Safe decode_set_look_at_direction
unfolding decode_set_look_at_direction
Safe-set_look_at_direction =
    Safe-bind _ Safe-mode
      (λ mode. Safe-bind _ Safe-angle (λ pitch. Safe-bind _ Safe-angle (λ yaw. Safe-pure _)))
