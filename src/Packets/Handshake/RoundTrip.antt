-- ===== src/Packets/Handshake/RoundTrip.antt =====
-- What the encoders of handshake.rs write, the decoders read back.
use sky_saga_rs.Common.{arith}
use sky_saga_rs.Packets.Fields.{IsRanged, write_ranged, read_ranged}
use sky_saga_rs.BitStream.RoundTrip.{
  RoundTrip, RoundTrip-seq, RoundTrip-map, RoundTrip-bit, RoundTrip-u32, RoundTrip-u16,
  RoundTrip-optional_u32, RoundTrip-string,
}
use sky_saga_rs.Packets.Fields.{RoundTrip-ranged, RoundTrip-triple}
use sky_saga_rs.Packets.Creation.{with_id, RoundTrip-with_id}
use sky_saga_rs.Packets.Handshake.{
  map_max_chunks, max_game_mode, sync_max_chunks, MapDefinition, encode_map_definition,
  decode_map_definition, IsMapDefinition, BeginSync, encode_begin_sync, decode_begin_sync,
  IsBeginSync, SetClientEntity, encode_set_client_entity, decode_set_client_entity,
  IsSetClientEntity, EntityRemoved, encode_entity_removed, decode_entity_removed, IsEntityRemoved,
  ServerInfo, encode_server_info, decode_server_info, IsServerInfo,
}

pub RoundTrip-map_definition :
    (p : MapDefinition)
    → IsMapDefinition p
    → RoundTrip (encode_map_definition p) (with_id decode_map_definition) (6, p)
unfolding encode_map_definition decode_map_definition
RoundTrip-map_definition p h = RoundTrip-with_id 6 (omega arith) (
    RoundTrip-seq _
      (RoundTrip-triple (IsRanged map_max_chunks) (write_ranged map_max_chunks)
        (read_ranged map_max_chunks) (RoundTrip-ranged map_max_chunks) p.size_chunks
        h.size_chunks_fits)
      (RoundTrip-seq _ (RoundTrip-optional_u32 p.biome h.biome_fits)
        (RoundTrip-map _ (RoundTrip-ranged max_game_mode p.game_mode h.game_mode_fits))))

pub RoundTrip-begin_sync :
    (p : BeginSync)
    → IsBeginSync p
    → RoundTrip (encode_begin_sync p) (with_id decode_begin_sync) (7, p)
unfolding encode_begin_sync decode_begin_sync
RoundTrip-begin_sync p h =
    RoundTrip-with_id 7 (omega arith)
      (RoundTrip-map _ (RoundTrip-ranged sync_max_chunks p.chunk_count h.chunk_count_fits))

pub RoundTrip-set_client_entity :
    (p : SetClientEntity)
    → IsSetClientEntity p
    → RoundTrip (encode_set_client_entity p) (with_id decode_set_client_entity) (104, p)
unfolding encode_set_client_entity decode_set_client_entity
RoundTrip-set_client_entity p h =
    RoundTrip-with_id 104 (omega arith)
      (RoundTrip-map _ (RoundTrip-u32 p.entity_id h.entity_id_fits))

pub RoundTrip-entity_removed :
    (p : EntityRemoved)
    → IsEntityRemoved p
    → RoundTrip (encode_entity_removed p) (with_id decode_entity_removed) (103, p)
unfolding encode_entity_removed decode_entity_removed
RoundTrip-entity_removed p h =
    RoundTrip-with_id 103 (omega arith)
      (RoundTrip-map _ (RoundTrip-u32 p.entity_id h.entity_id_fits))

pub RoundTrip-server_info :
    (p : ServerInfo)
    → IsServerInfo p
    → RoundTrip (encode_server_info p) (with_id decode_server_info) (58, p)
unfolding encode_server_info decode_server_info
RoundTrip-server_info p h = RoundTrip-with_id 58 (omega arith) (
    RoundTrip-seq _ (RoundTrip-string p.owner_guid h.owner_guid_fits) (
      RoundTrip-seq _ (RoundTrip-string p.owner_name h.owner_name_fits) (
        RoundTrip-seq _ (RoundTrip-string p.biome h.biome_fits) (
          RoundTrip-seq _ (RoundTrip-optional_u32 p.adventure h.adventure_fits) (
            RoundTrip-seq _ (RoundTrip-u32 p.map_header_seed h.map_header_seed_fits) (
              RoundTrip-seq _ (RoundTrip-bit p.is_home_world) (
                RoundTrip-seq _ (RoundTrip-bit p.is_my_world) (
                  RoundTrip-seq _ (RoundTrip-string p.chat_host h.chat_host_fits)
                    (RoundTrip-map _ (RoundTrip-u16 p.chat_port h.chat_port_fits))))))))))
