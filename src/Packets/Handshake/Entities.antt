-- ===== src/Packets/Handshake/Entities.antt =====
-- What the encoders of handshake.rs write of entities and of the clock, the decoders read back.
use sky_saga_rs.Common.{◌^◌, ◌<◌, arith}
use sky_saga_rs.Bits.{ranged_bits, num_bits_required, bit_length}
use sky_saga_rs.BitStream.Reader.Fields.{IsOptionalU32}
use sky_saga_rs.BitStream.RoundTrip.{
  RoundTrip, RoundTrip-seq, RoundTrip-map, RoundTrip-u32, RoundTrip-bits_le, RoundTrip-optional_u32,
}
use sky_saga_rs.BitStream.RoundTrip.Copied.{IsBits}
use sky_saga_rs.BitStream.RoundTrip.Wide.{RoundTrip-u64_le, RoundTrip-bits_msb}
use sky_saga_rs.Packets.Creation.{with_id, RoundTrip-with_id}
use sky_saga_rs.Packets.Handshake.{
  Bits, write_sync_data, read_sync_data, encode_bits, decode_bits, EntitySync, encode_entity_sync,
  decode_entity_sync, EntityAdd, encode_entity_add, decode_entity_add, TimeSync, encode_time_sync,
  decode_time_sync,
}

-- The bits of an entity's parameters, with a length that fits its field.
pub record IsSyncData (b : Bits) : Type 0 where
  pub bits_are : IsBits b.bytes b.len
  pub length_fits : b.len < 2 ^ 18

RoundTrip-sync_data : (b : Bits) → IsSyncData b → RoundTrip (write_sync_data b) read_sync_data b
unfolding write_sync_data read_sync_data encode_bits decode_bits ranged_bits num_bits_required
    bit_length
RoundTrip-sync_data b h =
    RoundTrip-seq _ (RoundTrip-bits_le b.len 18 (omega arith) h.length_fits)
      (RoundTrip-map _ (RoundTrip-bits_msb b.bytes b.len h.bits_are))

pub record IsEntitySync (p : EntitySync) : Type 0 where
  pub id_fits : p.id < 2 ^ 32
  pub sync_fits : IsSyncData p.sync_data

pub RoundTrip-entity_sync :
    (p : EntitySync)
    → IsEntitySync p
    → RoundTrip (encode_entity_sync p) (with_id decode_entity_sync) (101, p)
unfolding encode_entity_sync decode_entity_sync
RoundTrip-entity_sync p h = RoundTrip-with_id 101 (omega arith) (
    RoundTrip-seq _ (RoundTrip-u32 p.id h.id_fits)
      (RoundTrip-map _ (RoundTrip-sync_data p.sync_data h.sync_fits)))

pub record IsEntityAdd (p : EntityAdd) : Type 0 where
  pub name_fits : IsOptionalU32 p.name_hash
  pub id_fits : p.id < 2 ^ 32
  pub parent_fits : IsOptionalU32 p.parent_id
  pub sync_fits : IsSyncData p.sync_data

pub RoundTrip-entity_add :
    (p : EntityAdd)
    → IsEntityAdd p
    → RoundTrip (encode_entity_add p) (with_id decode_entity_add) (100, p)
unfolding encode_entity_add decode_entity_add
RoundTrip-entity_add p h = RoundTrip-with_id 100 (omega arith) (
    RoundTrip-seq _ (RoundTrip-optional_u32 p.name_hash h.name_fits) (
      RoundTrip-seq _ (RoundTrip-u32 p.id h.id_fits) (
        RoundTrip-seq _ (RoundTrip-optional_u32 p.parent_id h.parent_fits)
          (RoundTrip-map _ (RoundTrip-sync_data p.sync_data h.sync_fits)))))

pub record IsTimeSync (p : TimeSync) : Type 0 where
  pub now_fits : p.now_ms < 2 ^ 64

pub RoundTrip-time_sync :
    (p : TimeSync)
    → IsTimeSync p
    → RoundTrip (encode_time_sync p) (with_id decode_time_sync) (57, p)
unfolding encode_time_sync decode_time_sync
RoundTrip-time_sync p h =
    RoundTrip-with_id 57 (omega arith) (RoundTrip-map _ (RoundTrip-u64_le p.now_ms h.now_fits))
