-- ===== src/Packets/Photo.antt =====
-- crates/skysaga-proto/src/packets/photo.rs: a photo that was taken.
pub mod Safety
use sky_saga_rs.Common.{
  ℕ, zero, suc, ◌+◌, ◌-◌, ◌*◌, ◌/◌, ◌%◌, ◌≤◌, ◌<◌, ◌^◌, min, bit_or, Bool, true, false, ◌≡◌, refl,
  ap, sym, subst, ◌∙◌, inl, inr, List, [], ◌∷◌, ◌++◌, Option, none, some, length, replicate, get_or,
  set, ltb, leb, ◌==◌, if◌then◌else◌, Bool-cases, arith,
}
use sky_saga_rs.Bits.{ranged_bits}
use sky_saga_rs.BitStream.Writer.{
  BitWriter, Write, ◌⨾◌, write_bit, write_u32, write_u16, write_u64_le, write_bits, write_bits_le,
  write_bits_msb, write_aligned_bytes, write_optional_u32, write_string, write_compressed_u32,
  write_packet_id,
}
use sky_saga_rs.BitStream.Reader.{
  Result, BitReader, Read, ok, err, panic, ◌>>=◌, ◌>>◌, pure, read_bit, read_u32, read_u16,
  read_u64_le, read_bits_le, read_bits_msb, read_aligned_bytes, read_optional_u32, read_string,
  read_many, read_compressed_u32, skip_bits,
}
use sky_saga_rs.BitStream.Reader.Fields.{IsOptionalU32}
use sky_saga_rs.BitStream.RoundTrip.{IsShortString, write_each, All}
use sky_saga_rs.Packets.Fields.{
  IsRanged, Triple, AllThree, write_ranged, read_ranged, write_triple, read_triple,
  write_list_count, read_list_count, write_optional, read_optional, Optionally, read_byte_le,
  write_list, read_list, IsList,
}

abbrev pub transform_bits : ℕ
transform_bits = 192

-- `.unwrap_or(false)`: an error becomes the default.
abbrev pub or_false_result : Result Bool × BitReader → Result Bool × BitReader
or_false_result (ok v, r) = (ok v, r)
or_false_result (err e, r) = (ok false, r)
or_false_result (panic, r) = (panic, r)

abbrev pub or_false : Read Bool → Read Bool
or_false m r = or_false_result (m r)

unfoldable pub read_is_avatar : Read Bool
read_is_avatar = or_false (skip_bits transform_bits >>= λ u. read_bit)

pub record NotifyPhotoCaptured : Type 0 where
  pub client_photo_id : ℕ
  pub is_avatar_photo : Bool

unfoldable pub decode_notify_photo_captured : Read NotifyPhotoCaptured
decode_notify_photo_captured = do
  client_photo_id ← read_compressed_u32
  is_avatar_photo ← read_is_avatar
  pure (record { client_photo_id = client_photo_id; is_avatar_photo = is_avatar_photo })

pub record PhotoValidated : Type 0 where
  pub client_photo_id : ℕ
  pub official_uuid : List ℕ
  pub upload_token : List ℕ

unfoldable pub encode_photo_validated : PhotoValidated → Write
encode_photo_validated p =
    write_packet_id 152
    ⨾ write_compressed_u32 p.client_photo_id
    ⨾ write_string p.official_uuid
    ⨾ write_string p.upload_token
