-- ===== src/Packets/Chat/Safety.antt =====
-- The decoders of chat.rs end no process, whatever the bytes.

use sky_saga_rs.BitStream.Reader.Safety.{Safe, Safe-pure}
use sky_saga_rs.Packets.Chat.{decode_request_chat_channel_data}

pub Safe-request_chat_channel_data : Safe decode_request_chat_channel_data
unfolding decode_request_chat_channel_data
Safe-request_chat_channel_data = Safe-pure _
