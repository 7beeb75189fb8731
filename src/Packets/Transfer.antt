-- ===== src/Packets/Transfer.antt =====
-- crates/skysaga-proto/src/packets/transfer.rs: the way to another server.
use sky_saga_rs.Common.{ℕ, List}
use sky_saga_rs.BitStream.Writer.{Write, ◌⨾◌, write_u32, write_string, write_packet_id}

pub record TransferToServer : Type 0 where
  pub server_uuid : List ℕ
  pub world_uuid : List ℕ
  pub ip : List ℕ
  pub port : ℕ

unfoldable pub encode_transfer_to_server : TransferToServer → Write
encode_transfer_to_server p =
    write_packet_id 12
    ⨾ write_string p.server_uuid
    ⨾ write_string p.world_uuid
    ⨾ write_string p.ip
    ⨾ write_u32 p.port

unfoldable pub encode_teleport_begins : Write
encode_teleport_begins = write_packet_id 22
