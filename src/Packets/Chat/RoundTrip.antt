-- ===== src/Packets/Chat/RoundTrip.antt =====
-- What the encoders of chat.rs write, the decoders read back.
use sky_saga_rs.Common.{arith}
use sky_saga_rs.BitStream.RoundTrip.{RoundTrip, RoundTrip-seq, RoundTrip-pure, RoundTrip-packet_id}
use sky_saga_rs.Packets.Creation.{with_id}
use sky_saga_rs.Packets.Chat.{encode_request_chat_channel_data, decode_request_chat_channel_data}

pub RoundTrip-request_chat_channel_data :
    RoundTrip encode_request_chat_channel_data (with_id decode_request_chat_channel_data) (91, tt)
unfolding encode_request_chat_channel_data decode_request_chat_channel_data
RoundTrip-request_chat_channel_data =
    RoundTrip-seq {g = λ w. w} _ (RoundTrip-packet_id 91 (omega arith)) (RoundTrip-pure _)
