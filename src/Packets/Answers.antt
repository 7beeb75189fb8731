-- ===== src/Packets/Answers.antt =====
-- Packets of crates/skysaga-proto/src/packets that the server writes and that are read back: the
-- answer to the creation of a character, those of handshake.rs, and the notices of crafting.rs and
-- mail.rs.
use sky_saga_rs.Common.{ℕ, ◌≡◌, ap}
use sky_saga_rs.BitStream.Writer.{Write}
use sky_saga_rs.BitStream.Reader.{Read, ok}
use sky_saga_rs.BitStream.Wire.{written}
use sky_saga_rs.BitStream.RoundTrip.{RoundTrip-read}
use sky_saga_rs.Packets.Creation.{
  with_id, CharacterCreationResponse, response_id, encode_response, decode_response,
  RoundTrip-response,
}
use sky_saga_rs.Packets.Handshake.{
  MapDefinition, encode_map_definition, decode_map_definition, IsMapDefinition, BeginSync,
  encode_begin_sync, decode_begin_sync, IsBeginSync, SetClientEntity, encode_set_client_entity,
  decode_set_client_entity, IsSetClientEntity, EntityRemoved, encode_entity_removed,
  decode_entity_removed, IsEntityRemoved, ServerInfo, encode_server_info, decode_server_info,
  IsServerInfo,
}
use sky_saga_rs.BitStream.RoundTrip.Aligned.{Anywhere-read}
use sky_saga_rs.Packets.Handshake.{
  TimeSync, encode_time_sync, decode_time_sync, EntitySync, encode_entity_sync, decode_entity_sync,
  EntityAdd, encode_entity_add, decode_entity_add, ChunkSync, encode_chunk_sync, decode_chunk_sync,
}
use sky_saga_rs.Packets.Handshake.Entities.{
  IsTimeSync, IsEntitySync, IsEntityAdd, RoundTrip-time_sync, RoundTrip-entity_sync,
  RoundTrip-entity_add,
}
use sky_saga_rs.Packets.Handshake.Chunks.{IsChunkSync, Anywhere-chunk_sync}
use sky_saga_rs.Packets.Handshake.RoundTrip.{
  RoundTrip-map_definition, RoundTrip-begin_sync, RoundTrip-set_client_entity,
  RoundTrip-entity_removed, RoundTrip-server_info,
}
use sky_saga_rs.Packets.Crafting.{
  NewResourceEncountered, encode_new_resource_encountered, decode_new_resource_encountered,
  IsNewResourceEncountered, CraftingNotification, encode_crafting_notification,
  decode_crafting_notification, IsCraftingNotification, CraftingFailed, encode_crafting_failed,
  decode_crafting_failed, IsCraftingFailed,
}
use sky_saga_rs.Packets.Crafting.RoundTrip.{
  RoundTrip-new_resource_encountered, RoundTrip-crafting_notification, RoundTrip-crafting_failed,
}
use sky_saga_rs.Packets.Mail.{
  NewMailReceived, encode_new_mail_received, decode_new_mail_received, IsNewMailReceived,
}
use sky_saga_rs.Packets.Mail.RoundTrip.{RoundTrip-new_mail_received}

-- What the server writes for one of these packets, with each field within its width: its id, the
-- writes, the decoder.
pub data Answers : (A : Type 0) → ℕ → Write → Read A → A → Type 1 where
  answers_response :
      (p : CharacterCreationResponse)
      → Answers CharacterCreationResponse response_id (encode_response p) decode_response p
  answers_map_definition :
      (p : MapDefinition)
      → IsMapDefinition p
      → Answers MapDefinition 6 (encode_map_definition p) decode_map_definition p
  answers_begin_sync :
      (p : BeginSync)
      → IsBeginSync p
      → Answers BeginSync 7 (encode_begin_sync p) decode_begin_sync p
  answers_set_client_entity :
      (p : SetClientEntity)
      → IsSetClientEntity p
      → Answers SetClientEntity 104 (encode_set_client_entity p) decode_set_client_entity p
  answers_entity_removed :
      (p : EntityRemoved)
      → IsEntityRemoved p
      → Answers EntityRemoved 103 (encode_entity_removed p) decode_entity_removed p
  answers_server_info :
      (p : ServerInfo)
      → IsServerInfo p
      → Answers ServerInfo 58 (encode_server_info p) decode_server_info p
  answers_new_resource_encountered :
      (p : NewResourceEncountered)
      → IsNewResourceEncountered p
      → Answers NewResourceEncountered 43
          (encode_new_resource_encountered p)
          decode_new_resource_encountered
          p
  answers_crafting_notification :
      (p : CraftingNotification)
      → IsCraftingNotification p
      → Answers CraftingNotification 67
          (encode_crafting_notification p)
          decode_crafting_notification
          p
  answers_crafting_failed :
      (p : CraftingFailed)
      → IsCraftingFailed p
      → Answers CraftingFailed 42 (encode_crafting_failed p) decode_crafting_failed p
  answers_new_mail_received :
      (p : NewMailReceived)
      → IsNewMailReceived p
      → Answers NewMailReceived 93 (encode_new_mail_received p) decode_new_mail_received p
  answers_time_sync :
      (p : TimeSync) → IsTimeSync p → Answers TimeSync 57 (encode_time_sync p) decode_time_sync p
  answers_entity_sync :
      (p : EntitySync)
      → IsEntitySync p
      → Answers EntitySync 101 (encode_entity_sync p) decode_entity_sync p
  answers_entity_add :
      (p : EntityAdd)
      → IsEntityAdd p
      → Answers EntityAdd 100 (encode_entity_add p) decode_entity_add p
  answers_chunk_sync :
      (p : ChunkSync)
      → IsChunkSync p
      → Answers ChunkSync 8 (encode_chunk_sync p) decode_chunk_sync p

-- Each of fourteen packets of the server, with each field within its width, is read back, after its id,
-- as it was written: CharacterCreationResponse, MapDefinition, BeginSync, SetClientEntity,
-- EntityRemoved, EntityAdd, EntitySync, ChunkSync, TimeSync, ServerInfo, NewResourceEncountered,
-- CraftingNotification, CraftingFailed and NewMailReceived.
pub decode-Answers :
    {A : Type 0} {id : ℕ} {f : Write} {m : Read A} {p : A}
    → Answers A id f m p
    → (with_id m (written f)).0 ≡ ok (id, p)
decode-Answers (answers_response p) = ap (λ q. q.0) (RoundTrip-read (RoundTrip-response p))
decode-Answers (answers_map_definition p h) =
    ap (λ q. q.0) (RoundTrip-read (RoundTrip-map_definition p h))
decode-Answers (answers_begin_sync p h) = ap (λ q. q.0) (RoundTrip-read (RoundTrip-begin_sync p h))
decode-Answers (answers_set_client_entity p h) =
    ap (λ q. q.0) (RoundTrip-read (RoundTrip-set_client_entity p h))
decode-Answers (answers_entity_removed p h) =
    ap (λ q. q.0) (RoundTrip-read (RoundTrip-entity_removed p h))
decode-Answers (answers_server_info p h) =
    ap (λ q. q.0) (RoundTrip-read (RoundTrip-server_info p h))
decode-Answers (answers_new_resource_encountered p h) =
    ap (λ q. q.0) (RoundTrip-read (RoundTrip-new_resource_encountered p h))
decode-Answers (answers_crafting_notification p h) =
    ap (λ q. q.0) (RoundTrip-read (RoundTrip-crafting_notification p h))
decode-Answers (answers_crafting_failed p h) =
    ap (λ q. q.0) (RoundTrip-read (RoundTrip-crafting_failed p h))
decode-Answers (answers_new_mail_received p h) =
    ap (λ q. q.0) (RoundTrip-read (RoundTrip-new_mail_received p h))
decode-Answers (answers_time_sync p h) = ap (λ q. q.0) (RoundTrip-read (RoundTrip-time_sync p h))
decode-Answers (answers_entity_sync p h) =
    ap (λ q. q.0) (RoundTrip-read (RoundTrip-entity_sync p h))
decode-Answers (answers_entity_add p h) = ap (λ q. q.0) (RoundTrip-read (RoundTrip-entity_add p h))
decode-Answers (answers_chunk_sync p h) = Anywhere-read (Anywhere-chunk_sync p h)
