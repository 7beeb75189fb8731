-- ===== src/Packets/Mail.antt =====
-- crates/skysaga-proto/src/packets/mail.rs: the mailbox.
pub mod RoundTrip
pub mod Safety
use sky_saga_rs.Common.{
  ℕ, zero, suc, ◌+◌, ◌-◌, ◌*◌, ◌/◌, ◌%◌, ◌≤◌, ◌<◌, ◌^◌, min, bit_or, Bool, true, false, ◌≡◌, refl,
  ap, sym, subst, ◌∙◌, inl, inr, List, [], ◌∷◌, ◌++◌, Option, none, some, length, replicate, get_or,
  set, ltb, leb, ◌==◌, if◌then◌else◌, Bool-cases, arith,
}
use sky_saga_rs.Bits.{ranged_bits}
use sky_saga_rs.BitStream.Writer.{
  BitWriter, Write, ◌⨾◌, write_bit, write_u32, write_u16, write_u64_le, write_bits, write_bits_le,
  write_bits_msb, write_aligned_bytes, write_optional_u32, write_string, write_compressed_u32,
  write_packet_id,
}
use sky_saga_rs.BitStream.Reader.{
  Result, BitReader, Read, ok, err, panic, ◌>>=◌, ◌>>◌, pure, read_bit, read_u32, read_u16,
  read_u64_le, read_bits_le, read_bits_msb, read_aligned_bytes, read_optional_u32, read_string,
  read_many, read_compressed_u32, skip_bits,
}
use sky_saga_rs.BitStream.Reader.Fields.{IsOptionalU32}
use sky_saga_rs.BitStream.RoundTrip.{IsShortString, write_each, All}
use sky_saga_rs.Packets.Fields.{
  IsRanged, Triple, AllThree, write_ranged, read_ranged, write_triple, read_triple,
  write_list_count, read_list_count, write_optional, read_optional, Optionally, read_byte_le,
  write_list, read_list, IsList,
}

pub record NewMailReceived : Type 0 where
  pub message_uuid : List ℕ

unfoldable pub encode_new_mail_received : NewMailReceived → Write
encode_new_mail_received p = write_packet_id 93 ⨾ write_string p.message_uuid

unfoldable pub decode_new_mail_received : Read NewMailReceived
decode_new_mail_received = do
  message_uuid ← read_string
  pure (record { message_uuid = message_uuid })

pub record IsNewMailReceived (p : NewMailReceived) : Type 0 where
  pub message_uuid_fits : IsShortString p.message_uuid

pub record MailRead : Type 0 where
  pub message_uuid : List ℕ

unfoldable pub encode_mail_read : MailRead → Write
encode_mail_read p = write_packet_id 94 ⨾ write_string p.message_uuid

unfoldable pub decode_mail_read : Read MailRead
decode_mail_read = do message_uuid ← read_string; pure (record { message_uuid = message_uuid })

pub record IsMailRead (p : MailRead) : Type 0 where
  pub message_uuid_fits : IsShortString p.message_uuid

pub record MailGiftSelected : Type 0 where
  pub message_uuid : List ℕ

unfoldable pub encode_mail_gift_selected : MailGiftSelected → Write
encode_mail_gift_selected p = write_packet_id 95 ⨾ write_string p.message_uuid

unfoldable pub decode_mail_gift_selected : Read MailGiftSelected
decode_mail_gift_selected = do
  message_uuid ← read_string
  pure (record { message_uuid = message_uuid })

pub record IsMailGiftSelected (p : MailGiftSelected) : Type 0 where
  pub message_uuid_fits : IsShortString p.message_uuid

pub record DeleteMail : Type 0 where
  pub message_uuid : List ℕ

unfoldable pub encode_delete_mail : DeleteMail → Write
encode_delete_mail p = write_packet_id 97 ⨾ write_string p.message_uuid

unfoldable pub decode_delete_mail : Read DeleteMail
decode_delete_mail = do message_uuid ← read_string; pure (record { message_uuid = message_uuid })

pub record IsDeleteMail (p : DeleteMail) : Type 0 where
  pub message_uuid_fits : IsShortString p.message_uuid

unfoldable pub encode_mail_check : Write
encode_mail_check = write_packet_id 96

unfoldable pub decode_mail_check : Read (Unit {0})
decode_mail_check = pure tt

pub record TakeMailAttachment : Type 0 where
  pub message_uuid : List ℕ
  pub item_uuid : List ℕ

unfoldable pub encode_take_mail_attachment : TakeMailAttachment → Write
encode_take_mail_attachment p =
    write_packet_id 98 ⨾ write_string p.message_uuid ⨾ write_string p.item_uuid

unfoldable pub decode_take_mail_attachment : Read TakeMailAttachment
decode_take_mail_attachment = do
  message_uuid ← read_string
  item_uuid ← read_string
  pure (record { message_uuid = message_uuid; item_uuid = item_uuid })

pub record IsTakeMailAttachment (p : TakeMailAttachment) : Type 0 where
  pub message_uuid_fits : IsShortString p.message_uuid
  pub item_uuid_fits : IsShortString p.item_uuid

unfoldable pub encode_remote_mail_synced : Write
encode_remote_mail_synced = write_packet_id 99
