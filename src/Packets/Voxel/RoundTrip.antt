-- ===== src/Packets/Voxel/RoundTrip.antt =====
-- What the encoders of voxel.rs write, the decoders read back.
use sky_saga_rs.Common.{zero, suc, ◌/◌, ◌≤◌, ◌<◌, ◌^◌, ◌≡◌, refl, subst, arith}
use sky_saga_rs.Bits.{ranged_bits}
use sky_saga_rs.Packets.Fields.{IsRanged, write_ranged, read_ranged}
use sky_saga_rs.BitStream.RoundTrip.{RoundTrip, RoundTrip-seq, RoundTrip-map, RoundTrip-bits_le}
use sky_saga_rs.Packets.Fields.{RoundTrip-ranged, RoundTrip-triple}
use sky_saga_rs.Packets.Creation.{with_id, RoundTrip-with_id}
use sky_saga_rs.Common.Integers.{ℤ, pos, negsuc, sub_ℕ}
use sky_saga_rs.Packets.Voxel.{
  direction_scale, action_location_bits, block_side_bits, ActionLocation, location_of,
  location_bits, write_location, read_location, IsActionLocation, BlockSide, side_of, side_bits,
  write_side, read_side, IsBlockSide, direction_raw, write_direction, read_direction, IsDirection,
  PerformVoxelActions, encode_perform_voxel_actions, decode_perform_voxel_actions,
  IsPerformVoxelActions,
}

location_of-location_bits :
    (v : ActionLocation) → IsActionLocation v → location_of (location_bits v) ≡ v
unfolding location_of location_bits
location_of-location_bits ActionLocation.left_hand h = refl
location_of-location_bits ActionLocation.right_hand h = refl
location_of-location_bits ActionLocation.head h = refl
location_of-location_bits ActionLocation.torso h = refl
location_of-location_bits ActionLocation.legs h = refl
location_of-location_bits ActionLocation.arms h = refl
location_of-location_bits (ActionLocation.other_location zero) h = absurd (omega arith)
location_of-location_bits (ActionLocation.other_location (suc zero)) h = absurd (omega arith)
location_of-location_bits (ActionLocation.other_location (suc (suc zero))) h = absurd (omega arith)
location_of-location_bits (ActionLocation.other_location (suc (suc (suc zero)))) h =
    absurd (omega arith)
location_of-location_bits (ActionLocation.other_location (suc (suc (suc (suc zero))))) h =
    absurd (omega arith)
location_of-location_bits (ActionLocation.other_location (suc (suc (suc (suc (suc zero)))))) h =
    absurd (omega arith)
location_of-location_bits (ActionLocation.other_location (suc (suc (suc (suc (suc (suc n))))))) h =
    refl

location_bits-lt :
    (v : ActionLocation) → IsActionLocation v → location_bits v < 2 ^ (action_location_bits)
unfolding location_bits ranged_bits
location_bits-lt ActionLocation.left_hand h = omega arith
location_bits-lt ActionLocation.right_hand h = omega arith
location_bits-lt ActionLocation.head h = omega arith
location_bits-lt ActionLocation.torso h = omega arith
location_bits-lt ActionLocation.legs h = omega arith
location_bits-lt ActionLocation.arms h = omega arith
location_bits-lt (ActionLocation.other_location v) h = h.1

width-location_bits : action_location_bits ≤ 32
unfolding ranged_bits
width-location_bits = omega arith

pub RoundTrip-location :
    (v : ActionLocation) → IsActionLocation v → RoundTrip (write_location v) read_location v
unfolding write_location read_location
RoundTrip-location v h =
    subst (RoundTrip (write_location v) read_location) (location_of-location_bits v h) (
      RoundTrip-map location_of (
        RoundTrip-bits_le (location_bits v) (action_location_bits) width-location_bits
          (location_bits-lt v h)))

side_of-side_bits : (v : BlockSide) → IsBlockSide v → side_of (side_bits v) ≡ v
unfolding side_of side_bits
side_of-side_bits BlockSide.top h = refl
side_of-side_bits BlockSide.bottom h = refl
side_of-side_bits BlockSide.north h = refl
side_of-side_bits BlockSide.south h = refl
side_of-side_bits BlockSide.east h = refl
side_of-side_bits BlockSide.west h = refl
side_of-side_bits (BlockSide.other_side zero) h = absurd (omega arith)
side_of-side_bits (BlockSide.other_side (suc zero)) h = absurd (omega arith)
side_of-side_bits (BlockSide.other_side (suc (suc zero))) h = absurd (omega arith)
side_of-side_bits (BlockSide.other_side (suc (suc (suc zero)))) h = absurd (omega arith)
side_of-side_bits (BlockSide.other_side (suc (suc (suc (suc zero))))) h = absurd (omega arith)
side_of-side_bits (BlockSide.other_side (suc (suc (suc (suc (suc zero)))))) h = absurd (omega arith)
side_of-side_bits (BlockSide.other_side (suc (suc (suc (suc (suc (suc n))))))) h = refl

side_bits-lt : (v : BlockSide) → IsBlockSide v → side_bits v < 2 ^ (block_side_bits)
unfolding side_bits ranged_bits
side_bits-lt BlockSide.top h = omega arith
side_bits-lt BlockSide.bottom h = omega arith
side_bits-lt BlockSide.north h = omega arith
side_bits-lt BlockSide.south h = omega arith
side_bits-lt BlockSide.east h = omega arith
side_bits-lt BlockSide.west h = omega arith
side_bits-lt (BlockSide.other_side v) h = h.1

width-side_bits : block_side_bits ≤ 32
unfolding ranged_bits
width-side_bits = omega arith

pub RoundTrip-side : (v : BlockSide) → IsBlockSide v → RoundTrip (write_side v) read_side v
unfolding write_side read_side
RoundTrip-side v h = subst (RoundTrip (write_side v) read_side) (side_of-side_bits v h) (
    RoundTrip-map side_of
      (RoundTrip-bits_le (side_bits v) (block_side_bits) width-side_bits (side_bits-lt v h)))

raw-direction_raw : (a : ℤ) → IsDirection a → sub_ℕ (direction_raw a / direction_scale) 1 ≡ a
raw-direction_raw (pos zero) h = refl
raw-direction_raw (pos (suc zero)) h = refl
raw-direction_raw (pos (suc (suc zero))) h = refl
raw-direction_raw (pos (suc (suc (suc n)))) h = absurd (omega arith)
raw-direction_raw (negsuc zero) h = refl
raw-direction_raw (negsuc (suc n)) h = absurd (omega arith)

direction_raw-lt : (a : ℤ) → direction_raw a < 2 ^ ranged_bits 128
unfolding ranged_bits
direction_raw-lt (pos n) = omega arith
direction_raw-lt (negsuc n) = omega arith

pub RoundTrip-direction : (a : ℤ) → IsDirection a → RoundTrip (write_direction a) read_direction a
unfolding write_direction read_direction
RoundTrip-direction a h =
    subst (RoundTrip (write_direction a) read_direction) (raw-direction_raw a h) (
      RoundTrip-map (λ raw. sub_ℕ (raw / direction_scale) 1)
        (RoundTrip-ranged 128 (direction_raw a) (direction_raw-lt a)))

pub RoundTrip-perform_voxel_actions :
    (p : PerformVoxelActions)
    → IsPerformVoxelActions p
    → RoundTrip (encode_perform_voxel_actions p) (with_id decode_perform_voxel_actions) (17, p)
unfolding encode_perform_voxel_actions decode_perform_voxel_actions
RoundTrip-perform_voxel_actions p h = RoundTrip-with_id 17 (omega arith) (
    RoundTrip-seq _ (RoundTrip-location p.location h.location_fits) (
      RoundTrip-seq _
        (RoundTrip-triple (IsRanged 32) (write_ranged 32) (read_ranged 32) (RoundTrip-ranged 32)
          p.chunk h.chunk_fits)
        (RoundTrip-seq _
          (RoundTrip-triple (IsRanged 32) (write_ranged 32) (read_ranged 32) (RoundTrip-ranged 32)
            p.voxel h.voxel_fits)
          (RoundTrip-seq _ (RoundTrip-side p.side h.side_fits) (
            RoundTrip-seq _ (RoundTrip-ranged 32 p.power h.power_fits) (
              RoundTrip-seq _
                (RoundTrip-triple (IsRanged 0x1_0000) (write_ranged 0x1_0000) (read_ranged 0x1_0000)
                  (RoundTrip-ranged 0x1_0000) p.hit h.hit_fits)
                (RoundTrip-map _ (
                  RoundTrip-triple IsDirection write_direction read_direction RoundTrip-direction
                    p.direction h.direction_fits))))))))
