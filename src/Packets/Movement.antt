-- ===== src/Packets/Movement.antt =====
-- crates/skysaga-proto/src/packets/movement.rs: where a player is and where it looks.
pub mod RoundTrip
pub mod Safety
use sky_saga_rs.Common.{
  ℕ, zero, suc, ◌+◌, ◌-◌, ◌*◌, ◌/◌, ◌%◌, ◌≤◌, ◌<◌, ◌^◌, min, bit_or, Bool, true, false, ◌≡◌, refl,
  ap, sym, subst, ◌∙◌, inl, inr, List, [], ◌∷◌, ◌++◌, Option, none, some, length, replicate, get_or,
  set, ltb, leb, ◌==◌, if◌then◌else◌, Bool-cases, arith,
}
use sky_saga_rs.Bits.{ranged_bits}
use sky_saga_rs.BitStream.Writer.{
  BitWriter, Write, ◌⨾◌, write_bit, write_u32, write_u16, write_u64_le, write_bits, write_bits_le,
  write_bits_msb, write_aligned_bytes, write_optional_u32, write_string, write_compressed_u32,
  write_packet_id,
}
use sky_saga_rs.BitStream.Reader.{
  Result, BitReader, Read, ok, err, panic, ◌>>=◌, ◌>>◌, pure, read_bit, read_u32, read_u16,
  read_u64_le, read_bits_le, read_bits_msb, read_aligned_bytes, read_optional_u32, read_string,
  read_many, read_compressed_u32, skip_bits,
}
use sky_saga_rs.BitStream.Reader.Fields.{IsOptionalU32}
use sky_saga_rs.BitStream.RoundTrip.{IsShortString, write_each, All}
use sky_saga_rs.Packets.Fields.{
  IsRanged, Triple, AllThree, write_ranged, read_ranged, write_triple, read_triple,
  write_list_count, read_list_count, write_optional, read_optional, Optionally, read_byte_le,
  write_list, read_list, IsList,
}
use sky_saga_rs.Common.Integers.{ℤ, pos, negsuc, sub_ℕ, biased}

abbrev pub position_max : ℕ
position_max = 0x10000

abbrev pub angle_max : ℕ
angle_max = 0x6400

abbrev pub angle_bias : ℕ
angle_bias = 12800

abbrev pub look_mode_max : ℕ
look_mode_max = 4

unfoldable pub read_angle : Read ℤ
read_angle = do raw ← read_bits_le (ranged_bits angle_max); pure (sub_ℕ raw angle_bias)

unfoldable pub write_angle : ℤ → Write
write_angle angle = write_bits_le (biased angle_bias angle) (ranged_bits angle_max)

-- An angle that some raw value of the field stands for.
abbrev pub IsAngle : ℤ → Type 0
IsAngle angle = (raw : ℕ) × (raw < 2 ^ ranged_bits angle_max) × (angle ≡ sub_ℕ raw angle_bias)

-- `None` is `nowhere` here.
pub data LookAtMode : Type 0 where
  nowhere entity place : LookAtMode
  other : ℕ → LookAtMode

unfoldable pub from_bits : ℕ → LookAtMode
from_bits zero = LookAtMode.nowhere
from_bits (suc zero) = LookAtMode.entity
from_bits (suc (suc zero)) = LookAtMode.place
from_bits (suc (suc (suc n))) = LookAtMode.other (suc (suc (suc n)))

unfoldable pub to_bits : LookAtMode → ℕ
to_bits LookAtMode.nowhere = 0
to_bits LookAtMode.entity = 1
to_bits LookAtMode.place = 2
to_bits (LookAtMode.other value) = value

unfoldable pub write_mode : LookAtMode → Write
unfolding to_bits
write_mode v = write_bits_le (to_bits v) (ranged_bits look_mode_max)

unfoldable pub read_mode : Read LookAtMode
unfolding from_bits
read_mode = do value ← read_bits_le (ranged_bits look_mode_max); pure (from_bits value)

-- A value with no name is none of those that have one, and fits the field.
abbrev pub IsMode : LookAtMode → Type 0
IsMode (LookAtMode.other v) = (2 < v) × (v < 2 ^ (ranged_bits look_mode_max))
IsMode _ = Unit {0}

pub record EntityMoved : Type 0 where
  pub entity_id : ℕ
  pub position : Triple ℕ
  pub yaw : ℤ

unfoldable pub encode_entity_moved : EntityMoved → Write
encode_entity_moved p =
    write_packet_id 102
    ⨾ write_u32 p.entity_id
    ⨾ write_triple (write_ranged position_max) p.position
    ⨾ write_angle p.yaw

unfoldable pub decode_entity_moved : Read EntityMoved
decode_entity_moved = do
  entity_id ← read_u32
  position ← read_triple (read_ranged position_max)
  yaw ← read_angle
  pure (record { entity_id = entity_id; position = position; yaw = yaw })

pub record IsEntityMoved (p : EntityMoved) : Type 0 where
  pub entity_id_fits : p.entity_id < 2 ^ 32
  pub position_fits : AllThree (IsRanged position_max) p.position
  pub yaw_fits : IsAngle p.yaw

pub record SetLookAtDirection : Type 0 where
  pub mode : LookAtMode
  pub pitch : ℤ
  pub yaw : ℤ

unfoldable pub encode_set_look_at_direction : SetLookAtDirection → Write
encode_set_look_at_direction p =
    write_packet_id 106 ⨾ write_mode p.mode ⨾ write_angle p.pitch ⨾ write_angle p.yaw

unfoldable pub decode_set_look_at_direction : Read SetLookAtDirection
decode_set_look_at_direction = do
  mode ← read_mode
  pitch ← read_angle
  yaw ← read_angle
  pure (record { mode = mode; pitch = pitch; yaw = yaw })

pub record IsSetLookAtDirection (p : SetLookAtDirection) : Type 0 where
  pub mode_fits : IsMode p.mode
  pub pitch_fits : IsAngle p.pitch
  pub yaw_fits : IsAngle p.yaw
