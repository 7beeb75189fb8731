-- ===== src/Packets/Chat.antt =====
-- crates/skysaga-proto/src/packets/chat.rs: the chat channels.
pub mod Channels
pub mod RoundTrip
pub mod Safety
use sky_saga_rs.Common.{
  ℕ, zero, suc, ◌+◌, ◌-◌, ◌*◌, ◌/◌, ◌%◌, ◌≤◌, ◌<◌, ◌^◌, min, bit_or, Bool, true, false, ◌≡◌, refl,
  ap, sym, subst, ◌∙◌, inl, inr, List, [], ◌∷◌, ◌++◌, Option, none, some, length, replicate, get_or,
  set, ltb, leb, ◌==◌, if◌then◌else◌, Bool-cases, arith,
}
use sky_saga_rs.Bits.{ranged_bits}
use sky_saga_rs.BitStream.Writer.{
  BitWriter, Write, ◌⨾◌, write_bit, write_u32, write_u16, write_u64_le, write_bits, write_bits_le,
  write_bits_msb, write_aligned_bytes, write_optional_u32, write_string, write_compressed_u32,
  write_packet_id,
}
use sky_saga_rs.BitStream.Reader.{
  Result, BitReader, Read, ok, err, panic, ◌>>=◌, ◌>>◌, pure, read_bit, read_u32, read_u16,
  read_u64_le, read_bits_le, read_bits_msb, read_aligned_bytes, read_optional_u32, read_string,
  read_many, read_compressed_u32, skip_bits,
}
use sky_saga_rs.BitStream.Reader.Fields.{IsOptionalU32}
use sky_saga_rs.BitStream.RoundTrip.{IsShortString, write_each, All}
use sky_saga_rs.Packets.Fields.{
  IsRanged, Triple, AllThree, write_ranged, read_ranged, write_triple, read_triple,
  write_list_count, read_list_count, write_optional, read_optional, Optionally, read_byte_le,
  write_list, read_list, IsList,
}
use sky_saga_rs.Common.{get_elem?}
use sky_saga_rs.Common.Options.{◌>>=◌ as ◌>>=o◌}
use sky_saga_rs.Common.Text.{Text, is_empty, trim, split, split_once, parse_u32, as_bytes}

unfoldable pub encode_request_chat_channel_data : Write
encode_request_chat_channel_data = write_packet_id 91

unfoldable pub decode_request_chat_channel_data : Read (Unit {0})
decode_request_chat_channel_data = pure tt

abbrev pub field_bits : ℕ
field_bits = ranged_bits 8

pub data ChannelType : Type 0 where
  world team guild pvp red blue help private noof : ChannelType

abbrev pub all_channel_types : List ChannelType
all_channel_types = world ∷ team ∷ guild ∷ pvp ∷ red ∷ blue ∷ help ∷ private ∷ noof ∷ []

-- `ChannelType::index`
unfoldable pub channel_index : ChannelType → ℕ
channel_index world = 0
channel_index team = 1
channel_index guild = 2
channel_index pvp = 3
channel_index red = 4
channel_index blue = 5
channel_index help = 6
channel_index private = 7
channel_index noof = 8

-- `ChannelType::from_index`
unfoldable pub channel_type_of : ℕ → Option ChannelType
channel_type_of index = get_elem? all_channel_types index

abbrev pub is_registered : ChannelType → Bool
is_registered noof = false
is_registered _ = true

pub record Channel : Type 0 where
  pub channel_type : ChannelType
  pub name : Text
  pub flag : Bool

-- The type that an entry states and its name: the world where it states none, and nothing where the number
-- it states is that of no type.
abbrev pub stated : Text → Option (Text × Text) → Option (ChannelType × Text)
stated entry none = some (world, entry)
stated entry (some (index, name)) = parse_u32 (trim index) >>=o λ i.
    channel_type_of i >>=o λ channel_type. some (channel_type, name)

abbrev pub named_channel : ChannelType × Text → Option Channel
named_channel (channel_type, name) =
    if is_empty (trim name)
    then none
    else some (record { channel_type = channel_type; name = trim name; flag = true })

unfoldable pub channel_of : Text → Option Channel
unfolding trim parse_u32 channel_type_of
channel_of entry =
    let trimmed = trim entry in
    if is_empty trimmed
    then none
    else stated trimmed (split_once 58 trimmed) >>=o λ found. named_channel found

abbrev pub with_channel : Option Channel → List Channel → List Channel
with_channel none channels = channels
with_channel (some channel) channels = channel ∷ channels

unfoldable pub channels_of : List Text → List Channel
unfolding channel_of
channels_of [] = []
channels_of (entry ∷ entries) = with_channel (channel_of entry) (channels_of entries)

-- `Channel::parse_list`
unfoldable pub parse_list : Text → List Channel
unfolding channels_of split
parse_list spec = channels_of (split 44 spec)

pub record SendChatChannelData : Type 0 where
  pub channels : List Channel
  pub trailing_first : Text
  pub trailing_second : Text

unfoldable pub write_channel : Channel → Write
unfolding channel_index
write_channel channel =
    write_bits_le (channel_index channel.channel_type) field_bits
    ⨾ write_string (as_bytes channel.name)
    ⨾ write_bit channel.flag

-- The number of channels is below the 2 ^ 32 that the cast to a u32 keeps.
unfoldable pub encode_send_chat_channel_data : SendChatChannelData → Write
unfolding write_channel
encode_send_chat_channel_data p =
    write_packet_id 92
    ⨾ write_bits_le (length p.channels) field_bits
    ⨾ write_each write_channel p.channels
    ⨾ write_string (as_bytes p.trailing_first)
    ⨾ write_string (as_bytes p.trailing_second)
