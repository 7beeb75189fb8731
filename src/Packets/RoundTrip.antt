-- ===== src/Packets/RoundTrip.antt =====
-- What is written is what is read: each packet from the bytes of a new stream.
use sky_saga_rs.Common.{◌≡◌, ap}
use sky_saga_rs.BitStream.Reader.{ok}
use sky_saga_rs.BitStream.Wire.{written}
use sky_saga_rs.BitStream.RoundTrip.{RoundTrip-read}
use sky_saga_rs.Packets.Types.{ItemSpec, IsSpec, encode_spec, decode_spec, RoundTrip-spec}
use sky_saga_rs.Packets.Customisation.{
  CustomisationData, IsCustomisation, encode_customisation, decode_customisation,
  RoundTrip-customisation,
}

-- An item spec whose hashes and count of materials are u32s and whose uuid is a short string is read
-- back as it was written, with any number of materials.
pub decode_spec-encode_spec :
    (s : ItemSpec) → IsSpec s → (decode_spec (written (encode_spec s))).0 ≡ ok s
decode_spec-encode_spec s h = ap (λ q. q.0) (RoundTrip-read (RoundTrip-spec s h))

-- A customisation whose hashes and counts are u32s, and whose unknown gender is no known one and has
-- two bits, is read back as it was written, with any number of materials and attachments.
pub decode_customisation-encode_customisation :
    (c : CustomisationData)
    → IsCustomisation c
    → (decode_customisation (written (encode_customisation c))).0 ≡ ok c
decode_customisation-encode_customisation c h =
    ap (λ q. q.0) (RoundTrip-read (RoundTrip-customisation c h))
