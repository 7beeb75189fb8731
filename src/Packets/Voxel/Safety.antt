-- ===== src/Packets/Voxel/Safety.antt =====
-- The decoders of voxel.rs end no process, whatever the bytes.

use sky_saga_rs.Bits.{ranged_bits}
use sky_saga_rs.BitStream.Reader.Safety.{Safe, Safe-pure, Safe-bind, Safe-bits_le}
use sky_saga_rs.Packets.Fields.{Safe-triple}
use sky_saga_rs.Packets.Voxel.{
  coordinate_bits, direction_bits, action_location_bits, block_side_bits, read_location, read_side,
  read_direction, decode_perform_voxel_actions, decode_perform_always_actions,
}

pub Safe-location : Safe read_location
unfolding read_location
Safe-location = Safe-bind _ (Safe-bits_le (action_location_bits)) (λ v. Safe-pure _)

pub Safe-side : Safe read_side
unfolding read_side
Safe-side = Safe-bind _ (Safe-bits_le (block_side_bits)) (λ v. Safe-pure _)

pub Safe-direction : Safe read_direction
unfolding read_direction
Safe-direction = Safe-bind _ (Safe-bits_le direction_bits) (λ raw. Safe-pure _)

pub Safe-perform_voxel_actions : Safe decode_perform_voxel_actions
unfolding decode_perform_voxel_actions
Safe-perform_voxel_actions = Safe-bind _ Safe-location (λ location.
    Safe-bind _ (Safe-triple (Safe-bits_le (ranged_bits 32))) (λ chunk.
      Safe-bind _ (Safe-triple (Safe-bits_le (ranged_bits 32))) (λ voxel.
        Safe-bind _ Safe-side (λ side. Safe-bind _ (Safe-bits_le coordinate_bits) (λ power.
          Safe-bind _ (Safe-triple (Safe-bits_le (ranged_bits 0x1_0000)))
            (λ hit. Safe-bind _ (Safe-triple Safe-direction) (λ direction. Safe-pure _)))))))

pub Safe-perform_always_actions : Safe decode_perform_always_actions
unfolding decode_perform_always_actions
Safe-perform_always_actions = Safe-bind _ Safe-location (λ location.
    Safe-bind _ (Safe-triple (Safe-bits_le (ranged_bits 0x1_0000))) (λ position.
      Safe-bind _ (Safe-triple (Safe-bits_le (ranged_bits 128)))
        (λ direction. Safe-bind _ (Safe-bits_le coordinate_bits) (λ power. Safe-pure _))))
