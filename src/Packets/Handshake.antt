-- ===== src/Packets/Handshake.antt =====
-- crates/skysaga-proto/src/packets/handshake.rs: what a client is told before it plays.
pub mod RoundTrip
pub mod Chunks
pub mod Entities
pub mod Safety
use sky_saga_rs.Common.{
  ℕ, zero, suc, ◌+◌, ◌-◌, ◌*◌, ◌/◌, ◌%◌, ◌≤◌, ◌<◌, ◌^◌, min, bit_or, Bool, true, false, ◌≡◌, refl,
  ap, sym, subst, ◌∙◌, inl, inr, List, [], ◌∷◌, ◌++◌, Option, none, some, length, replicate, get_or,
  set, ltb, leb, ◌==◌, if◌then◌else◌, Bool-cases, arith,
}
use sky_saga_rs.Bits.{ranged_bits}
use sky_saga_rs.BitStream.Writer.{
  BitWriter, Write, ◌⨾◌, write_bit, write_u32, write_u16, write_u64_le, write_bits, write_bits_le,
  write_bits_msb, write_aligned_bytes, write_optional_u32, write_string, write_compressed_u32,
  write_packet_id,
}
use sky_saga_rs.BitStream.Reader.{
  Result, BitReader, Read, ok, err, panic, ◌>>=◌, ◌>>◌, pure, read_bit, read_u32, read_u16,
  read_u64_le, read_bits_le, read_bits_msb, read_aligned_bytes, read_optional_u32, read_string,
  read_many, read_compressed_u32, skip_bits,
}
use sky_saga_rs.BitStream.Reader.Fields.{IsOptionalU32}
use sky_saga_rs.BitStream.RoundTrip.{IsShortString, write_each, All}
use sky_saga_rs.Packets.Fields.{
  IsRanged, Triple, AllThree, write_ranged, read_ranged, write_triple, read_triple,
  write_list_count, read_list_count, write_optional, read_optional, Optionally, read_byte_le,
  write_list, read_list, IsList,
}

abbrev pub map_max_chunks : ℕ
map_max_chunks = 32

abbrev pub max_game_mode : ℕ
max_game_mode = 4

abbrev pub sync_max_chunks : ℕ
sync_max_chunks = 0x8000

pub record MapDefinition : Type 0 where
  pub size_chunks : Triple ℕ
  pub biome : Option ℕ
  pub game_mode : ℕ

unfoldable pub encode_map_definition : MapDefinition → Write
encode_map_definition p =
    write_packet_id 6
    ⨾ write_triple (write_ranged map_max_chunks) p.size_chunks
    ⨾ write_optional_u32 p.biome
    ⨾ write_bits_le p.game_mode (ranged_bits max_game_mode)

unfoldable pub decode_map_definition : Read MapDefinition
decode_map_definition = do
  size_chunks ← read_triple (read_ranged map_max_chunks)
  biome ← read_optional_u32
  game_mode ← read_bits_le (ranged_bits max_game_mode)
  pure (record { size_chunks = size_chunks; biome = biome; game_mode = game_mode })

pub record IsMapDefinition (p : MapDefinition) : Type 0 where
  pub size_chunks_fits : AllThree (IsRanged map_max_chunks) p.size_chunks
  pub biome_fits : IsOptionalU32 p.biome
  pub game_mode_fits : IsRanged max_game_mode p.game_mode

pub record BeginSync : Type 0 where
  pub chunk_count : ℕ

unfoldable pub encode_begin_sync : BeginSync → Write
encode_begin_sync p = write_packet_id 7 ⨾ write_bits_le p.chunk_count (ranged_bits sync_max_chunks)

unfoldable pub decode_begin_sync : Read BeginSync
decode_begin_sync = do
  chunk_count ← read_bits_le (ranged_bits sync_max_chunks)
  pure (record { chunk_count = chunk_count })

pub record IsBeginSync (p : BeginSync) : Type 0 where
  pub chunk_count_fits : IsRanged sync_max_chunks p.chunk_count

pub record SetClientEntity : Type 0 where
  pub entity_id : ℕ

unfoldable pub encode_set_client_entity : SetClientEntity → Write
encode_set_client_entity p = write_packet_id 104 ⨾ write_u32 p.entity_id

unfoldable pub decode_set_client_entity : Read SetClientEntity
decode_set_client_entity = do entity_id ← read_u32; pure (record { entity_id = entity_id })

pub record IsSetClientEntity (p : SetClientEntity) : Type 0 where
  pub entity_id_fits : p.entity_id < 2 ^ 32

pub record EntityRemoved : Type 0 where
  pub entity_id : ℕ

unfoldable pub encode_entity_removed : EntityRemoved → Write
encode_entity_removed p = write_packet_id 103 ⨾ write_u32 p.entity_id

unfoldable pub decode_entity_removed : Read EntityRemoved
decode_entity_removed = do entity_id ← read_u32; pure (record { entity_id = entity_id })

pub record IsEntityRemoved (p : EntityRemoved) : Type 0 where
  pub entity_id_fits : p.entity_id < 2 ^ 32

unfoldable pub encode_client_entities_sync_finished : Write
encode_client_entities_sync_finished = write_packet_id 5

unfoldable pub encode_debug_request_finish_tutorial : Write
encode_debug_request_finish_tutorial = write_packet_id 28

abbrev pub length_bits : ℕ
length_bits = ranged_bits 0x2_0000

-- `Bits`: as many bits of the bytes as `len` says, the highest of each byte first.
pub record Bits : Type 0 where
  pub bytes : List ℕ
  pub len : ℕ

unfoldable pub encode_bits : Bits → Write
encode_bits b = write_bits_msb b.bytes b.len

unfoldable pub decode_bits : ℕ → Read Bits
decode_bits len = do bytes ← read_bits_msb len; pure (record { bytes = bytes; len = len })

-- The length and the bits. The length is below the 2 ^ 32 that the source's cast to a u32 keeps.
unfoldable pub write_sync_data : Bits → Write
unfolding encode_bits
write_sync_data b = write_bits_le b.len length_bits ⨾ encode_bits b

unfoldable pub read_sync_data : Read Bits
unfolding decode_bits
read_sync_data = do len ← read_bits_le length_bits; decode_bits len

abbrev pub adjacent_bits : ℕ
adjacent_bits = 7

-- The bytes are fewer than 2 ^ 32, which the source's cast to a u32 keeps.
unfoldable pub write_chunk_data : Option (List ℕ) → Write
write_chunk_data none = write_bit false
write_chunk_data (some bytes) =
    write_bit true ⨾ write_u32 (length bytes) ⨾ write_aligned_bytes bytes

unfoldable pub read_chunk_data : Read (Option (List ℕ))
read_chunk_data = do
  present ← read_bit
  if present
      then (read_u32 >>= λ len. read_aligned_bytes len >>= λ bytes. pure (some bytes))
      else pure none

unfoldable pub write_adjacent : Option ℕ → Write
write_adjacent none = write_bit false
write_adjacent (some mask) = write_bit true ⨾ write_bits_le mask adjacent_bits

unfoldable pub read_adjacent : Read (Option ℕ)
read_adjacent = do
  present ← read_bit
  if present then (read_bits_le adjacent_bits >>= λ mask. pure (some (mask % 256))) else pure none

pub record EntitySync : Type 0 where
  pub id : ℕ
  pub sync_data : Bits

unfoldable pub encode_entity_sync : EntitySync → Write
encode_entity_sync p = write_packet_id 101 ⨾ write_u32 p.id ⨾ write_sync_data p.sync_data

unfoldable pub decode_entity_sync : Read EntitySync
decode_entity_sync = do
  id ← read_u32
  sync_data ← read_sync_data
  pure (record { id = id; sync_data = sync_data })

pub record EntityAdd : Type 0 where
  pub name_hash : Option ℕ
  pub id : ℕ
  pub parent_id : Option ℕ
  pub sync_data : Bits

unfoldable pub encode_entity_add : EntityAdd → Write
encode_entity_add p =
    write_packet_id 100
    ⨾ write_optional_u32 p.name_hash
    ⨾ write_u32 p.id
    ⨾ write_optional_u32 p.parent_id
    ⨾ write_sync_data p.sync_data

unfoldable pub decode_entity_add : Read EntityAdd
decode_entity_add = do
  name_hash ← read_optional_u32
  id ← read_u32
  parent_id ← read_optional_u32
  sync_data ← read_sync_data
  pure (record { name_hash = name_hash; id = id; parent_id = parent_id; sync_data = sync_data })

pub record ChunkSync : Type 0 where
  pub coords : Triple ℕ
  pub data1 : Option (List ℕ)
  pub data2 : Option (List ℕ)
  pub adjacent_chunks : Option ℕ

unfoldable pub encode_chunk_sync : ChunkSync → Write
encode_chunk_sync p =
    write_packet_id 8
    ⨾ write_triple (write_ranged map_max_chunks) p.coords
    ⨾ write_chunk_data p.data1
    ⨾ write_chunk_data p.data2
    ⨾ write_adjacent p.adjacent_chunks

unfoldable pub decode_chunk_sync : Read ChunkSync
decode_chunk_sync = do
  coords ← read_triple (read_ranged map_max_chunks)
  data1 ← read_chunk_data
  data2 ← read_chunk_data
  adjacent_chunks ← read_adjacent
  pure (record { coords = coords; data1 = data1; data2 = data2; adjacent_chunks = adjacent_chunks })

pub record TimeSync : Type 0 where
  pub now_ms : ℕ

unfoldable pub encode_time_sync : TimeSync → Write
encode_time_sync p = write_packet_id 57 ⨾ write_u64_le p.now_ms

unfoldable pub decode_time_sync : Read TimeSync
decode_time_sync = do now_ms ← read_u64_le; pure (record { now_ms = now_ms })

pub record ServerInfo : Type 0 where
  pub owner_guid : List ℕ
  pub owner_name : List ℕ
  pub biome : List ℕ
  pub adventure : Option ℕ
  pub map_header_seed : ℕ
  pub is_home_world : Bool
  pub is_my_world : Bool
  pub chat_host : List ℕ
  pub chat_port : ℕ

unfoldable pub encode_server_info : ServerInfo → Write
encode_server_info p =
    write_packet_id 58
    ⨾ write_string p.owner_guid
    ⨾ write_string p.owner_name
    ⨾ write_string p.biome
    ⨾ write_optional_u32 p.adventure
    ⨾ write_u32 p.map_header_seed
    ⨾ write_bit p.is_home_world
    ⨾ write_bit p.is_my_world
    ⨾ write_string p.chat_host
    ⨾ write_u16 p.chat_port

unfoldable pub decode_server_info : Read ServerInfo
decode_server_info = do
  owner_guid ← read_string
  owner_name ← read_string
  biome ← read_string
  adventure ← read_optional_u32
  map_header_seed ← read_u32
  is_home_world ← read_bit
  is_my_world ← read_bit
  chat_host ← read_string
  chat_port ← read_u16
  pure (record {
    owner_guid = owner_guid;
    owner_name = owner_name;
    biome = biome;
    adventure = adventure;
    map_header_seed = map_header_seed;
    is_home_world = is_home_world;
    is_my_world = is_my_world;
    chat_host = chat_host;
    chat_port = chat_port;
  })

pub record IsServerInfo (p : ServerInfo) : Type 0 where
  pub owner_guid_fits : IsShortString p.owner_guid
  pub owner_name_fits : IsShortString p.owner_name
  pub biome_fits : IsShortString p.biome
  pub adventure_fits : IsOptionalU32 p.adventure
  pub map_header_seed_fits : p.map_header_seed < 2 ^ 32
  pub chat_host_fits : IsShortString p.chat_host
  pub chat_port_fits : p.chat_port < 2 ^ 16
