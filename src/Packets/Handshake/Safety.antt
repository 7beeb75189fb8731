-- ===== src/Packets/Handshake/Safety.antt =====
-- The decoders of handshake.rs end no process, whatever the bytes.
use sky_saga_rs.Common.{none}
use sky_saga_rs.Bits.{ranged_bits}
use sky_saga_rs.BitStream.Reader.Safety.{
  Safe, Safe-pure, Safe-bind, Safe-if, Safe-bit, Safe-u32, Safe-u16, Safe-u64_le, Safe-bits_le,
  Safe-bits_msb, Safe-aligned_bytes, Safe-optional_u32, Safe-string,
}
use sky_saga_rs.Packets.Fields.{Safe-triple}
use sky_saga_rs.Packets.Handshake.{
  map_max_chunks, max_game_mode, sync_max_chunks, decode_map_definition, decode_begin_sync,
  decode_set_client_entity, decode_entity_removed, length_bits, decode_bits, read_sync_data,
  adjacent_bits, read_chunk_data, read_adjacent, decode_entity_sync, decode_entity_add,
  decode_chunk_sync, decode_time_sync, decode_server_info,
}

pub Safe-map_definition : Safe decode_map_definition
unfolding decode_map_definition
Safe-map_definition =
    Safe-bind _ (Safe-triple (Safe-bits_le (ranged_bits map_max_chunks))) (λ size_chunks.
      Safe-bind _ Safe-optional_u32 (λ biome.
        Safe-bind _ (Safe-bits_le (ranged_bits max_game_mode)) (λ game_mode. Safe-pure _)))

pub Safe-begin_sync : Safe decode_begin_sync
unfolding decode_begin_sync
Safe-begin_sync =
    Safe-bind _ (Safe-bits_le (ranged_bits sync_max_chunks)) (λ chunk_count. Safe-pure _)

pub Safe-set_client_entity : Safe decode_set_client_entity
unfolding decode_set_client_entity
Safe-set_client_entity = Safe-bind _ Safe-u32 (λ entity_id. Safe-pure _)

pub Safe-entity_removed : Safe decode_entity_removed
unfolding decode_entity_removed
Safe-entity_removed = Safe-bind _ Safe-u32 (λ entity_id. Safe-pure _)

Safe-sync_data : Safe read_sync_data
unfolding read_sync_data decode_bits
Safe-sync_data =
    Safe-bind _ (Safe-bits_le length_bits)
      (λ len. Safe-bind _ (Safe-bits_msb len) (λ bytes. Safe-pure _))

Safe-chunk_data : Safe read_chunk_data
unfolding read_chunk_data
Safe-chunk_data = Safe-bind _ Safe-bit (λ present.
    Safe-if present
      (Safe-bind _ Safe-u32 (λ len. Safe-bind _ (Safe-aligned_bytes len) (λ bytes. Safe-pure _)))
      (Safe-pure none))

Safe-adjacent : Safe read_adjacent
unfolding read_adjacent
Safe-adjacent = Safe-bind _ Safe-bit (λ present.
    Safe-if present (Safe-bind _ (Safe-bits_le adjacent_bits) (λ mask. Safe-pure _))
      (Safe-pure none))

pub Safe-entity_sync : Safe decode_entity_sync
unfolding decode_entity_sync
Safe-entity_sync =
    Safe-bind _ Safe-u32 (λ id. Safe-bind _ Safe-sync_data (λ sync_data. Safe-pure _))

pub Safe-entity_add : Safe decode_entity_add
unfolding decode_entity_add
Safe-entity_add = Safe-bind _ Safe-optional_u32 (λ name_hash. Safe-bind _ Safe-u32 (λ id.
    Safe-bind _ Safe-optional_u32
      (λ parent_id. Safe-bind _ Safe-sync_data (λ sync_data. Safe-pure _))))

pub Safe-chunk_sync : Safe decode_chunk_sync
unfolding decode_chunk_sync
Safe-chunk_sync = Safe-bind _ (Safe-triple (Safe-bits_le (ranged_bits map_max_chunks))) (λ coords.
    Safe-bind _ Safe-chunk_data (λ data1.
      Safe-bind _ Safe-chunk_data
        (λ data2. Safe-bind _ Safe-adjacent (λ adjacent_chunks. Safe-pure _))))

pub Safe-time_sync : Safe decode_time_sync
unfolding decode_time_sync
Safe-time_sync = Safe-bind _ Safe-u64_le (λ now_ms. Safe-pure _)

pub Safe-server_info : Safe decode_server_info
unfolding decode_server_info
Safe-server_info = Safe-bind _ Safe-string (λ owner_guid. Safe-bind _ Safe-string (λ owner_name.
    Safe-bind _ Safe-string (λ biome. Safe-bind _ Safe-optional_u32 (λ adventure.
      Safe-bind _ Safe-u32 (λ map_header_seed. Safe-bind _ Safe-bit (λ is_home_world.
        Safe-bind _ Safe-bit (λ is_my_world.
          Safe-bind _ Safe-string
            (λ chat_host. Safe-bind _ Safe-u16 (λ chat_port. Safe-pure _)))))))))

-- No bytes make the decoders of the packets that carry data of a length of their own end the process,
-- whatever length they state: chunks, entities added, and what changes of an entity.
pub Safe-carriers : Safe decode_chunk_sync × Safe decode_entity_add × Safe decode_entity_sync
Safe-carriers = (Safe-chunk_sync, Safe-entity_add, Safe-entity_sync)
