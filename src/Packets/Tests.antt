-- ===== src/Packets/Tests.antt =====
-- Runs of the packets' encoders and decoders.
use sky_saga_rs.Common.{ℕ, ◌≡◌, refl, List, [], ◌∷◌, none, some, arith}
use sky_saga_rs.BitStream.Reader.{ok}
use sky_saga_rs.BitStream.Wire.{written}
use sky_saga_rs.BitStream.RoundTrip.{IsShortString}
use sky_saga_rs.BitStream.Utf8.{is_utf8, is_utf8_from}
use sky_saga_rs.Bits.{ranged_bits, num_bits_required, bit_length}
use sky_saga_rs.Packets.Creation.{with_id}
use sky_saga_rs.Packets.Handshake.{ChunkSync, encode_chunk_sync, decode_chunk_sync}
use sky_saga_rs.Packets.Handshake.Chunks.{IsChunkSync}
use sky_saga_rs.Packets.Answers.{answers_chunk_sync, decode-Answers}
use sky_saga_rs.Packets.Interaction.{dig, action_of, action_hash}
use sky_saga_rs.Packets.Interaction.RoundTrip.{action_of-action_hash}
use sky_saga_rs.Common.{true}
use sky_saga_rs.Common.Text.{
  Text, split, split_once, trim, trim_start, trim_end, is_whitespace, parse_u32,
}
use sky_saga_rs.BitStream.RoundTrip.{All}
use sky_saga_rs.Packets.Chat.{private, world, channel_type_of, channel_of, channels_of, parse_list}
use sky_saga_rs.Packets.Chat.Channels.{IsShown, parse_list-IsShown}
use sky_saga_rs.Packets.Types.{ItemSpec, IsSpec, encode_spec, decode_spec}
use sky_saga_rs.Packets.Customisation.{
  CustomisationData, unknown, IsCustomisation, encode_customisation, decode_customisation,
}
use sky_saga_rs.Packets.RoundTrip.{
  decode_spec-encode_spec, decode_customisation-encode_customisation,
}

-- "Sky"
abbrev sky : List ℕ
sky = b'S' ∷ b'k' ∷ b'y' ∷ []

sky-IsShortString : IsShortString sky
unfolding is_utf8 is_utf8_from
sky-IsShortString = record {
  bytes_are = (omega arith, (omega arith, (omega arith, tt)));
  short = omega arith;
  valid = refl;
}

-- Five materials, which take the long form of the count.
abbrev sword : ItemSpec
sword = record {
  name_hash = some 77;
  materials = some 1 ∷ none ∷ some 3 ∷ some 4 ∷ some 5 ∷ [];
  teach_item = none;
  uuid = sky;
}

sword-IsSpec : IsSpec sword
sword-IsSpec = record {
  name_fits = omega arith;
  materials_fit = (omega arith, (tt, (omega arith, (omega arith, (omega arith, tt)))));
  count_fits = omega arith;
  teach_fits = tt;
  uuid_fits = sky-IsShortString;
}

decode_spec-encode_spec_example : (decode_spec (written (encode_spec sword))).0 ≡ ok sword
decode_spec-encode_spec_example = decode_spec-encode_spec sword sword-IsSpec

-- A gender that the client does not know, no materials, and two attachments.
abbrev looks : CustomisationData
looks = record {
  gender = unknown 3;
  tribe = some 9;
  materials = [];
  attachments =
      record { attachment = some 5; material = none }
      ∷ record { attachment = none; material = some 6 }
      ∷ [];
}

looks-IsCustomisation : IsCustomisation looks
looks-IsCustomisation = record {
  gender_fits = (omega arith, omega arith);
  tribe_fits = omega arith;
  materials_fit = tt;
  material_count_fits = omega arith;
  attachments_fit = ((omega arith, tt), ((tt, omega arith), tt));
  attachment_count_fits = omega arith;
}

decode_customisation-encode_customisation_example :
    (decode_customisation (written (encode_customisation looks))).0 ≡ ok looks
decode_customisation-encode_customisation_example =
    decode_customisation-encode_customisation looks looks-IsCustomisation

-- A chunk with three bytes of terrain, which start at a byte, and two of its neighbours.
abbrev corner : ChunkSync
corner = record {
  coords = record { first = 1; second = 0; third = 31 };
  data1 = some (0 ∷ 255 ∷ 7 ∷ []);
  data2 = none;
  adjacent_chunks = some 5;
}

corner-IsChunkSync : IsChunkSync corner
unfolding ranged_bits num_bits_required bit_length
corner-IsChunkSync = record {
  coords_fit = (omega arith, omega arith, omega arith);
  data1_fits = (omega arith, omega arith);
  data2_fits = tt;
  adjacent_fits = omega arith;
}

decode-Answers_example :
    (with_id decode_chunk_sync (written (encode_chunk_sync corner))).0 ≡ ok (8, corner)
decode-Answers_example = decode-Answers (answers_chunk_sync corner corner-IsChunkSync)

action_of-action_hash_example : action_of (action_hash dig) ≡ dig
action_of-action_hash_example = action_of-action_hash dig tt

-- "7:Hi, ,Inn,12:No": a private channel, one of the world, and an entry of no type.
abbrev listed : Text
listed = 55 ∷ 58 ∷ 72 ∷ 105 ∷ 44 ∷ 32 ∷ 44 ∷ 73 ∷ 110 ∷ 110 ∷ 44 ∷ 49 ∷ 50 ∷ 58 ∷ 78 ∷ 111 ∷ []

parse_list-listed :
    parse_list listed
    ≡ record { channel_type = private; name = 72 ∷ 105 ∷ []; flag = true }
      ∷ record { channel_type = world; name = 73 ∷ 110 ∷ 110 ∷ []; flag = true }
      ∷ []
unfolding parse_list channels_of channel_of split split_once trim trim_start trim_end is_whitespace
    parse_u32 channel_type_of
parse_list-listed = refl

parse_list-IsShown_example : All IsShown (parse_list listed)
parse_list-IsShown_example = parse_list-IsShown listed
