-- ===== src/Packets/Movement/RoundTrip.antt =====
-- What the encoders of movement.rs write, the decoders read back.
use sky_saga_rs.Common.{
  ℕ, zero, suc, ◌≤◌, ◌<◌, ◌^◌, ◌≡◌, refl, ap, sym, subst, ◌∙◌, inl, inr, leb, Bool-cases, arith,
}
use sky_saga_rs.Bits.{ranged_bits}
use sky_saga_rs.BitStream.Writer.{write_bits_le}
use sky_saga_rs.Packets.Fields.{IsRanged, write_ranged, read_ranged}
use sky_saga_rs.BitStream.RoundTrip.{
  RoundTrip, RoundTrip-seq, RoundTrip-map, RoundTrip-u32, RoundTrip-bits_le,
}
use sky_saga_rs.Packets.Fields.{RoundTrip-ranged, RoundTrip-triple}
use sky_saga_rs.Packets.Creation.{with_id, RoundTrip-with_id}
use sky_saga_rs.Common.Integers.{ℤ, sub_ℕ, biased}
use sky_saga_rs.Packets.Movement.{
  position_max, angle_max, angle_bias, look_mode_max, read_angle, write_angle, IsAngle, LookAtMode,
  from_bits, to_bits, write_mode, read_mode, IsMode, EntityMoved, encode_entity_moved,
  decode_entity_moved, IsEntityMoved, SetLookAtDirection, encode_set_look_at_direction,
  decode_set_look_at_direction, IsSetLookAtDirection,
}

biased-sub_ℕ : (raw : ℕ) → raw < 2 ^ 15 → biased angle_bias (sub_ℕ raw angle_bias) ≡ raw
biased-sub_ℕ raw h = elim (Bool-cases (leb angle_bias raw)) [
  | inl above ↦ rw above (ground arith)
  | inr below ↦ rw below (ground arith)
]

angle_width : ranged_bits angle_max ≡ 15
unfolding ranged_bits
angle_width = refl

pub RoundTrip-angle : (a : ℤ) → IsAngle a → RoundTrip (write_angle a) read_angle a
unfolding write_angle read_angle
RoundTrip-angle a (raw, fits, e) =
    let same : biased angle_bias a ≡ raw =
      ap (biased angle_bias) e ∙ biased-sub_ℕ raw (rw angle_width at fits) in
    rw same (
      subst (RoundTrip (write_bits_le raw (ranged_bits angle_max)) read_angle) (sym e)
        (RoundTrip-map (λ r. sub_ℕ r angle_bias) (RoundTrip-ranged angle_max raw fits)))

from_bits-to_bits : (v : LookAtMode) → IsMode v → from_bits (to_bits v) ≡ v
unfolding from_bits to_bits
from_bits-to_bits LookAtMode.nowhere h = refl
from_bits-to_bits LookAtMode.entity h = refl
from_bits-to_bits LookAtMode.place h = refl
from_bits-to_bits (LookAtMode.other zero) h = absurd (omega arith)
from_bits-to_bits (LookAtMode.other (suc zero)) h = absurd (omega arith)
from_bits-to_bits (LookAtMode.other (suc (suc zero))) h = absurd (omega arith)
from_bits-to_bits (LookAtMode.other (suc (suc (suc n)))) h = refl

to_bits-lt : (v : LookAtMode) → IsMode v → to_bits v < 2 ^ (ranged_bits look_mode_max)
unfolding to_bits ranged_bits
to_bits-lt LookAtMode.nowhere h = omega arith
to_bits-lt LookAtMode.entity h = omega arith
to_bits-lt LookAtMode.place h = omega arith
to_bits-lt (LookAtMode.other v) h = h.1

width-to_bits : ranged_bits look_mode_max ≤ 32
unfolding ranged_bits
width-to_bits = omega arith

pub RoundTrip-mode : (v : LookAtMode) → IsMode v → RoundTrip (write_mode v) read_mode v
unfolding write_mode read_mode
RoundTrip-mode v h = subst (RoundTrip (write_mode v) read_mode) (from_bits-to_bits v h) (
    RoundTrip-map from_bits
      (RoundTrip-bits_le (to_bits v) (ranged_bits look_mode_max) width-to_bits (to_bits-lt v h)))

pub RoundTrip-entity_moved :
    (p : EntityMoved)
    → IsEntityMoved p
    → RoundTrip (encode_entity_moved p) (with_id decode_entity_moved) (102, p)
unfolding encode_entity_moved decode_entity_moved
RoundTrip-entity_moved p h = RoundTrip-with_id 102 (omega arith) (
    RoundTrip-seq _ (RoundTrip-u32 p.entity_id h.entity_id_fits) (
      RoundTrip-seq _
        (RoundTrip-triple (IsRanged position_max) (write_ranged position_max)
          (read_ranged position_max) (RoundTrip-ranged position_max) p.position h.position_fits)
        (RoundTrip-map _ (RoundTrip-angle p.yaw h.yaw_fits))))

pub RoundTrip-set_look_at_direction :
    (p : SetLookAtDirection)
    → IsSetLookAtDirection p
    → RoundTrip (encode_set_look_at_direction p) (with_id decode_set_look_at_direction) (106, p)
unfolding encode_set_look_at_direction decode_set_look_at_direction
RoundTrip-set_look_at_direction p h = RoundTrip-with_id 106 (omega arith) (
    RoundTrip-seq _ (RoundTrip-mode p.mode h.mode_fits) (
      RoundTrip-seq _ (RoundTrip-angle p.pitch h.pitch_fits)
        (RoundTrip-map _ (RoundTrip-angle p.yaw h.yaw_fits))))
