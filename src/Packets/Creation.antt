-- ===== src/Packets/Creation.antt =====
-- crates/skysaga-proto/src/packets/character_creation.rs. A string is its list of bytes.
use sky_saga_rs.Common.{ℕ, zero, suc, ◌+◌, ◌<◌, ◌^◌, List, arith}
use sky_saga_rs.BitStream.Writer.{
  Write, ◌⨾◌, write_u32, write_bits_le, write_string, write_packet_id,
}
use sky_saga_rs.BitStream.Reader.{
  Read, ◌>>=◌, pure, read_u32, read_bits_le, read_string, read_packet_id,
}
use sky_saga_rs.BitStream.RoundTrip.{
  RoundTrip, RoundTrip-seq, RoundTrip-map, RoundTrip-u32, RoundTrip-bits_le, RoundTrip-string,
  RoundTrip-packet_id, IsShortString,
}
use sky_saga_rs.Packets.Customisation.{
  CustomisationData, encode_customisation, decode_customisation, IsCustomisation,
  RoundTrip-customisation,
}

pub record SaveCharacterName : Type 0 where
  pub name : List ℕ

unfoldable pub encode_name : SaveCharacterName → Write
encode_name p = write_string p.name

unfoldable pub decode_name : Read SaveCharacterName
decode_name = do name ← read_string; pure (record { name = name })

pub record CreateHomeworld : Type 0 where
  pub home_island_name : List ℕ
  pub character_uuid : List ℕ

unfoldable pub encode_homeworld : CreateHomeworld → Write
encode_homeworld p = write_string p.home_island_name ⨾ write_string p.character_uuid

unfoldable pub decode_homeworld : Read CreateHomeworld
decode_homeworld = do
  home_island_name ← read_string
  character_uuid ← read_string
  pure (record { home_island_name = home_island_name; character_uuid = character_uuid })

pub data CharacterCreationResponse : Type 0 where
  character_saved character_save_failed homeworld_created : CharacterCreationResponse
  homeworld_creation_failed : CharacterCreationResponse

abbrev pub response_id : ℕ
response_id = 109

abbrev pub response_bits : ℕ
response_bits = 3

-- `CharacterCreationResponse::value`
unfoldable pub response_value : CharacterCreationResponse → ℕ
response_value character_saved = 0
response_value character_save_failed = 1
response_value homeworld_created = 2
response_value homeworld_creation_failed = 3

unfoldable pub encode_response : CharacterCreationResponse → Write
encode_response p = write_packet_id response_id ⨾ write_bits_le (response_value p) response_bits

unfoldable pub response_of : ℕ → CharacterCreationResponse
response_of zero = character_saved
response_of (suc zero) = character_save_failed
response_of (suc (suc zero)) = homeworld_created
response_of (suc (suc (suc n))) = homeworld_creation_failed

unfoldable pub decode_response : Read CharacterCreationResponse
decode_response = do value ← read_bits_le response_bits; pure (response_of value)

pub record SetCharacterCustomisationData : Type 0 where
  pub entity_id : ℕ
  pub customisation : CustomisationData

unfoldable pub encode_set_customisation : SetCharacterCustomisationData → Write
encode_set_customisation p = write_u32 p.entity_id ⨾ encode_customisation p.customisation

unfoldable pub decode_set_customisation : Read SetCharacterCustomisationData
decode_set_customisation = do
  entity_id ← read_u32
  customisation ← decode_customisation
  pure (record { entity_id = entity_id; customisation = customisation })

-- A packet whose encoder writes its own id: the receiver reads the id first.
abbrev pub with_id {ℓ} : {A : Type ℓ} → Read A → Read (ℕ × A)
with_id decode = do id ← read_packet_id; packet ← decode; pure (id, packet)

pub RoundTrip-with_id {ℓ} :
    {A : Type ℓ} {f : Write} {m : Read A} {v : A} (id : ℕ)
    → id + 134 < 511
    → RoundTrip f m v
    → RoundTrip (write_packet_id id ⨾ f) (with_id m) (id, v)
RoundTrip-with_id id h t =
    RoundTrip-seq _ (RoundTrip-packet_id id h) (RoundTrip-map (λ p. (id, p)) t)

pub RoundTrip-name :
    (p : SaveCharacterName) → IsShortString p.name → RoundTrip (encode_name p) decode_name p
unfolding encode_name decode_name
RoundTrip-name p h = RoundTrip-map _ (RoundTrip-string p.name h)

pub RoundTrip-homeworld :
    (p : CreateHomeworld)
    → IsShortString p.home_island_name
    → IsShortString p.character_uuid
    → RoundTrip (encode_homeworld p) decode_homeworld p
unfolding encode_homeworld decode_homeworld
RoundTrip-homeworld p h k =
    RoundTrip-seq _ (RoundTrip-string p.home_island_name h)
      (RoundTrip-map _ (RoundTrip-string p.character_uuid k))

RoundTrip-response_value :
    (p : CharacterCreationResponse)
    → RoundTrip (write_bits_le (response_value p) response_bits) decode_response p
unfolding decode_response response_value response_of
RoundTrip-response_value character_saved =
    RoundTrip-map response_of (RoundTrip-bits_le 0 3 (omega arith) (omega arith))
RoundTrip-response_value character_save_failed =
    RoundTrip-map response_of (RoundTrip-bits_le 1 3 (omega arith) (omega arith))
RoundTrip-response_value homeworld_created =
    RoundTrip-map response_of (RoundTrip-bits_le 2 3 (omega arith) (omega arith))
RoundTrip-response_value homeworld_creation_failed =
    RoundTrip-map response_of (RoundTrip-bits_le 3 3 (omega arith) (omega arith))

pub RoundTrip-response :
    (p : CharacterCreationResponse)
    → RoundTrip (encode_response p) (with_id decode_response) (response_id, p)
unfolding encode_response
RoundTrip-response p = RoundTrip-with_id response_id (omega arith) (RoundTrip-response_value p)

pub RoundTrip-set_customisation :
    (p : SetCharacterCustomisationData)
    → p.entity_id < 2 ^ 32
    → IsCustomisation p.customisation
    → RoundTrip (encode_set_customisation p) decode_set_customisation p
unfolding encode_set_customisation decode_set_customisation
RoundTrip-set_customisation p h k =
    RoundTrip-seq _ (RoundTrip-u32 p.entity_id h)
      (RoundTrip-map _ (RoundTrip-customisation p.customisation k))
