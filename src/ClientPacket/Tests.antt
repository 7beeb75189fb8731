-- ===== src/ClientPacket/Tests.antt =====
-- Packets of clients, from their bytes.
use sky_saga_rs.Common.{◌≡◌, [], ◌∷◌, arith}
use sky_saga_rs.BitStream.Writer as Writer
use sky_saga_rs.BitStream.Reader.{ok}
use sky_saga_rs.Packets.Interaction.{InteractWithEntity, encode_interact_with_entity}
use sky_saga_rs.ClientPacket.{parse, interact_with_entity}
use sky_saga_rs.ClientPacket.Safety.{IsPacket, parse-IsPacket}
use sky_saga_rs.ClientPacket.Sends.{sends_interact_with_entity}
use sky_saga_rs.ClientPacket.RoundTrip.{parse-Sends}

parse-IsPacket_example : IsPacket (parse (255 ∷ 3 ∷ 200 ∷ []))
parse-IsPacket_example = parse-IsPacket (255 ∷ 3 ∷ 200 ∷ [])

abbrev knock : InteractWithEntity
knock = record { interacting_entity = 100; target_entity = 7 }

parse-Sends_example :
    parse (encode_interact_with_entity knock Writer.new).bytes ≡ ok (interact_with_entity knock)
parse-Sends_example = parse-Sends (
    sends_interact_with_entity knock
      (record { interacting_entity_fits = omega arith; target_entity_fits = omega arith }))
