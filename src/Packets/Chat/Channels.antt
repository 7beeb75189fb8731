-- ===== src/Packets/Chat/Channels.antt =====
-- The channels that crates/skysaga-proto/src/packets/chat.rs reads from a list.
use sky_saga_rs.Common.{
  ◌≡◌, refl, true, false, inl, inr, Bool-cases, List, [], ◌∷◌, Option, none, some,
}
use sky_saga_rs.Common.Options.{◌>>=◌}
use sky_saga_rs.Common.Text.{Text, is_empty, trim, split, split_once}
use sky_saga_rs.BitStream.RoundTrip.{All}
use sky_saga_rs.Packets.Fields.{Optionally}
use sky_saga_rs.Packets.Chat.{
  ChannelType, Channel, stated, named_channel, channel_of, with_channel, channels_of, parse_list,
}

-- A channel that can be shown: it has a name, and its flag is set.
abbrev pub IsShown : Channel → Type 0
IsShown c = (is_empty c.name ≡ false) × (c.flag ≡ true)

named_channel-IsShown : (found : ChannelType × Text) → Optionally IsShown (named_channel found)
named_channel-IsShown (channel_type, name) = elim (Bool-cases (is_empty (trim name))) [
  | inl blank ↦ rw blank tt
  | inr named ↦ rw named (named, refl)
]

found-IsShown :
    (o : Option (ChannelType × Text)) → Optionally IsShown (o >>= λ found. named_channel found)
found-IsShown none = tt
found-IsShown (some found) = named_channel-IsShown found

channel_of-IsShown : (entry : Text) → Optionally IsShown (channel_of entry)
unfolding channel_of
channel_of-IsShown entry = elim (Bool-cases (is_empty (trim entry))) [
  | inl blank ↦ rw blank tt
  | inr named ↦ rw named (found-IsShown (stated (trim entry) (split_once 58 (trim entry))))
]

with_channel-IsShown :
    (o : Option Channel) (channels : List Channel)
    → Optionally IsShown o
    → All IsShown channels
    → All IsShown (with_channel o channels)
with_channel-IsShown none channels h k = k
with_channel-IsShown (some channel) channels h k = (h, k)

channels_of-IsShown : (entries : List Text) → All IsShown (channels_of entries)
unfolding channels_of
channels_of-IsShown [] = tt
channels_of-IsShown (entry ∷ entries) =
    with_channel-IsShown (channel_of entry) (channels_of entries) (channel_of-IsShown entry)
      (channels_of-IsShown entries)

-- Whatever list of channels is configured, each channel that is made of it has a name, and its flag is set.
pub parse_list-IsShown : (spec : Text) → All IsShown (parse_list spec)
unfolding parse_list
parse_list-IsShown spec = channels_of-IsShown (split 44 spec)
