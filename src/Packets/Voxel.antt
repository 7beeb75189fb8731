-- ===== src/Packets/Voxel.antt =====
-- crates/skysaga-proto/src/packets/voxel.rs: digging and building.
pub mod RoundTrip
pub mod Safety
use sky_saga_rs.Common.{
  ℕ, zero, suc, ◌+◌, ◌-◌, ◌*◌, ◌/◌, ◌%◌, ◌≤◌, ◌<◌, ◌^◌, min, bit_or, Bool, true, false, ◌≡◌, refl,
  ap, sym, subst, ◌∙◌, inl, inr, List, [], ◌∷◌, ◌++◌, Option, none, some, length, replicate, get_or,
  set, ltb, leb, ◌==◌, if◌then◌else◌, Bool-cases, arith,
}
use sky_saga_rs.Bits.{ranged_bits}
use sky_saga_rs.BitStream.Writer.{
  BitWriter, Write, ◌⨾◌, write_bit, write_u32, write_u16, write_u64_le, write_bits, write_bits_le,
  write_bits_msb, write_aligned_bytes, write_optional_u32, write_string, write_compressed_u32,
  write_packet_id,
}
use sky_saga_rs.BitStream.Reader.{
  Result, BitReader, Read, ok, err, panic, ◌>>=◌, ◌>>◌, pure, read_bit, read_u32, read_u16,
  read_u64_le, read_bits_le, read_bits_msb, read_aligned_bytes, read_optional_u32, read_string,
  read_many, read_compressed_u32, skip_bits,
}
use sky_saga_rs.BitStream.Reader.Fields.{IsOptionalU32}
use sky_saga_rs.BitStream.RoundTrip.{IsShortString, write_each, All}
use sky_saga_rs.Packets.Fields.{
  IsRanged, Triple, AllThree, write_ranged, read_ranged, write_triple, read_triple,
  write_list_count, read_list_count, write_optional, read_optional, Optionally, read_byte_le,
  write_list, read_list, IsList,
}
use sky_saga_rs.Common.Integers.{ℤ, pos, negsuc, sub_ℕ, biased}

abbrev pub direction_scale : ℕ
direction_scale = 64

abbrev pub coordinate_bits : ℕ
coordinate_bits = ranged_bits 32

abbrev pub position_bits : ℕ
position_bits = ranged_bits 0x1_0000

abbrev pub direction_bits : ℕ
direction_bits = ranged_bits 128

-- 8 less the leading zeros of 8, and of 6, in a byte.
abbrev pub action_location_bits : ℕ
action_location_bits = 4

abbrev pub block_side_bits : ℕ
block_side_bits = 3

pub data ActionLocation : Type 0 where
  left_hand right_hand head torso legs arms : ActionLocation
  other_location : ℕ → ActionLocation

unfoldable pub location_of : ℕ → ActionLocation
location_of zero = ActionLocation.left_hand
location_of (suc zero) = ActionLocation.right_hand
location_of (suc (suc zero)) = ActionLocation.head
location_of (suc (suc (suc zero))) = ActionLocation.torso
location_of (suc (suc (suc (suc zero)))) = ActionLocation.legs
location_of (suc (suc (suc (suc (suc zero))))) = ActionLocation.arms
location_of (suc (suc (suc (suc (suc (suc n)))))) =
    ActionLocation.other_location (suc (suc (suc (suc (suc (suc n))))))

unfoldable pub location_bits : ActionLocation → ℕ
location_bits ActionLocation.left_hand = 0
location_bits ActionLocation.right_hand = 1
location_bits ActionLocation.head = 2
location_bits ActionLocation.torso = 3
location_bits ActionLocation.legs = 4
location_bits ActionLocation.arms = 5
location_bits (ActionLocation.other_location value) = value

unfoldable pub write_location : ActionLocation → Write
unfolding location_bits
write_location v = write_bits_le (location_bits v) (action_location_bits)

unfoldable pub read_location : Read ActionLocation
unfolding location_of
read_location = do value ← read_bits_le (action_location_bits); pure (location_of value)

-- A value with no name is none of those that have one, and fits the field.
abbrev pub IsActionLocation : ActionLocation → Type 0
IsActionLocation (ActionLocation.other_location v) = (5 < v) × (v < 2 ^ (action_location_bits))
IsActionLocation _ = Unit {0}

abbrev pub is_hand : ActionLocation → Bool
is_hand ActionLocation.left_hand = true
is_hand ActionLocation.right_hand = true
is_hand _ = false

pub data BlockSide : Type 0 where
  top bottom north south east west : BlockSide
  other_side : ℕ → BlockSide

unfoldable pub side_of : ℕ → BlockSide
side_of zero = BlockSide.top
side_of (suc zero) = BlockSide.bottom
side_of (suc (suc zero)) = BlockSide.north
side_of (suc (suc (suc zero))) = BlockSide.south
side_of (suc (suc (suc (suc zero)))) = BlockSide.east
side_of (suc (suc (suc (suc (suc zero))))) = BlockSide.west
side_of (suc (suc (suc (suc (suc (suc n)))))) =
    BlockSide.other_side (suc (suc (suc (suc (suc (suc n))))))

unfoldable pub side_bits : BlockSide → ℕ
side_bits BlockSide.top = 0
side_bits BlockSide.bottom = 1
side_bits BlockSide.north = 2
side_bits BlockSide.south = 3
side_bits BlockSide.east = 4
side_bits BlockSide.west = 5
side_bits (BlockSide.other_side value) = value

unfoldable pub write_side : BlockSide → Write
unfolding side_bits
write_side v = write_bits_le (side_bits v) (block_side_bits)

unfoldable pub read_side : Read BlockSide
unfolding side_of
read_side = do value ← read_bits_le (block_side_bits); pure (side_of value)

-- A value with no name is none of those that have one, and fits the field.
abbrev pub IsBlockSide : BlockSide → Type 0
IsBlockSide (BlockSide.other_side v) = (5 < v) × (v < 2 ^ (block_side_bits))
IsBlockSide _ = Unit {0}

-- `((axis + 1) * DIRECTION_SCALE).clamp(0, 255) as u32`, where the product does not overflow.
abbrev pub direction_raw : ℤ → ℕ
direction_raw (pos n) = min ((n + 1) * direction_scale) 255
direction_raw (negsuc n) = 0

unfoldable pub write_direction : ℤ → Write
write_direction axis = write_bits_le (direction_raw axis) direction_bits

unfoldable pub read_direction : Read ℤ
read_direction = do raw ← read_bits_le direction_bits; pure (sub_ℕ (raw / direction_scale) 1)

-- -1, 0, 1 or 2, the directions that have a form of their own.
abbrev pub IsDirection : ℤ → Type 0
IsDirection (pos n) = n < 3
IsDirection (negsuc n) = n < 1

pub record PerformVoxelActions : Type 0 where
  pub location : ActionLocation
  pub chunk : Triple ℕ
  pub voxel : Triple ℕ
  pub side : BlockSide
  pub power : ℕ
  pub hit : Triple ℕ
  pub direction : Triple ℤ

unfoldable pub encode_perform_voxel_actions : PerformVoxelActions → Write
encode_perform_voxel_actions p =
    write_packet_id 17
    ⨾ write_location p.location
    ⨾ write_triple (write_ranged 32) p.chunk
    ⨾ write_triple (write_ranged 32) p.voxel
    ⨾ write_side p.side
    ⨾ write_bits_le p.power coordinate_bits
    ⨾ write_triple (write_ranged 0x1_0000) p.hit
    ⨾ write_triple write_direction p.direction

unfoldable pub decode_perform_voxel_actions : Read PerformVoxelActions
decode_perform_voxel_actions = do
  location ← read_location
  chunk ← read_triple (read_ranged 32)
  voxel ← read_triple (read_ranged 32)
  side ← read_side
  power ← read_bits_le coordinate_bits
  hit ← read_triple (read_ranged 0x1_0000)
  direction ← read_triple read_direction
  pure (record {
    location = location;
    chunk = chunk;
    voxel = voxel;
    side = side;
    power = power;
    hit = hit;
    direction = direction;
  })

pub record IsPerformVoxelActions (p : PerformVoxelActions) : Type 0 where
  pub location_fits : IsActionLocation p.location
  pub chunk_fits : AllThree (IsRanged 32) p.chunk
  pub voxel_fits : AllThree (IsRanged 32) p.voxel
  pub side_fits : IsBlockSide p.side
  pub power_fits : IsRanged 32 p.power
  pub hit_fits : AllThree (IsRanged 0x1_0000) p.hit
  pub direction_fits : AllThree IsDirection p.direction

-- `wrapping_add_signed` on each axis.
unfoldable pub placement_voxel : PerformVoxelActions → Triple ℕ
placement_voxel p = record {
  first = biased p.voxel.first p.direction.first;
  second = biased p.voxel.second p.direction.second;
  third = biased p.voxel.third p.direction.third;
}

pub record ChunkEdit : Type 0 where
  pub voxel_index : ℕ
  pub voxels : List (Triple ℕ)

pub record PartialChunkEditsSync : Type 0 where
  pub chunk : Triple ℕ
  pub edits : List ChunkEdit

abbrev pub default_count : ℕ
default_count = 7

-- Of a list, whose length is below the 2 ^ 32 that the source's cast to a u32 keeps.
unfoldable pub write_edit_count : ℕ → Write
write_edit_count count =
    if ltb count default_count
    then write_bits_le (count - 1) (ranged_bits default_count)
    else write_bits_le (default_count - 1) (ranged_bits default_count)
      ⨾ write_bit true
      ⨾ write_u32 count

unfoldable pub write_edit : ChunkEdit → Write
unfolding write_edit_count
write_edit edit =
    write_bits_le edit.voxel_index 8
    ⨾ write_edit_count (length edit.voxels)
    ⨾ write_each (write_triple (write_ranged 32)) edit.voxels

unfoldable pub encode_partial_chunk_edits_sync : PartialChunkEditsSync → Write
unfolding write_edit
encode_partial_chunk_edits_sync p =
    write_packet_id 9
    ⨾ write_triple (write_ranged 32) p.chunk
    ⨾ write_edit_count (length p.edits)
    ⨾ write_each write_edit p.edits

pub record PerformAlwaysActions : Type 0 where
  pub location : ActionLocation
  pub position : Triple ℕ
  pub direction : Triple ℕ
  pub power : ℕ

unfoldable pub decode_perform_always_actions : Read PerformAlwaysActions
decode_perform_always_actions = do
  location ← read_location
  position ← read_triple (read_ranged 0x1_0000)
  direction ← read_triple (read_ranged 128)
  power ← read_bits_le coordinate_bits
  pure (record { location = location; position = position; direction = direction; power = power })
