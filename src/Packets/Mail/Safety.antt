-- ===== src/Packets/Mail/Safety.antt =====
-- The decoders of mail.rs end no process, whatever the bytes.

use sky_saga_rs.BitStream.Reader.Safety.{Safe, Safe-pure, Safe-bind, Safe-string}
use sky_saga_rs.Packets.Mail.{
  decode_new_mail_received, decode_mail_read, decode_mail_gift_selected, decode_delete_mail,
  decode_mail_check, decode_take_mail_attachment,
}

pub Safe-new_mail_received : Safe decode_new_mail_received
unfolding decode_new_mail_received
Safe-new_mail_received = Safe-bind _ Safe-string (λ message_uuid. Safe-pure _)

pub Safe-mail_read : Safe decode_mail_read
unfolding decode_mail_read
Safe-mail_read = Safe-bind _ Safe-string (λ message_uuid. Safe-pure _)

pub Safe-mail_gift_selected : Safe decode_mail_gift_selected
unfolding decode_mail_gift_selected
Safe-mail_gift_selected = Safe-bind _ Safe-string (λ message_uuid. Safe-pure _)

pub Safe-delete_mail : Safe decode_delete_mail
unfolding decode_delete_mail
Safe-delete_mail = Safe-bind _ Safe-string (λ message_uuid. Safe-pure _)

pub Safe-mail_check : Safe decode_mail_check
unfolding decode_mail_check
Safe-mail_check = Safe-pure _

pub Safe-take_mail_attachment : Safe decode_take_mail_attachment
unfolding decode_take_mail_attachment
Safe-take_mail_attachment =
    Safe-bind _ Safe-string (λ message_uuid. Safe-bind _ Safe-string (λ item_uuid. Safe-pure _))
