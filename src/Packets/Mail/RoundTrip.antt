-- ===== src/Packets/Mail/RoundTrip.antt =====
-- What the encoders of mail.rs write, the decoders read back.
use sky_saga_rs.Common.{arith}
use sky_saga_rs.BitStream.RoundTrip.{
  RoundTrip, RoundTrip-seq, RoundTrip-map, RoundTrip-pure, RoundTrip-string, RoundTrip-packet_id,
}
use sky_saga_rs.Packets.Creation.{with_id, RoundTrip-with_id}
use sky_saga_rs.Packets.Mail.{
  NewMailReceived, encode_new_mail_received, decode_new_mail_received, IsNewMailReceived, MailRead,
  encode_mail_read, decode_mail_read, IsMailRead, MailGiftSelected, encode_mail_gift_selected,
  decode_mail_gift_selected, IsMailGiftSelected, DeleteMail, encode_delete_mail, decode_delete_mail,
  IsDeleteMail, encode_mail_check, decode_mail_check, TakeMailAttachment,
  encode_take_mail_attachment, decode_take_mail_attachment, IsTakeMailAttachment,
}

pub RoundTrip-new_mail_received :
    (p : NewMailReceived)
    → IsNewMailReceived p
    → RoundTrip (encode_new_mail_received p) (with_id decode_new_mail_received) (93, p)
unfolding encode_new_mail_received decode_new_mail_received
RoundTrip-new_mail_received p h =
    RoundTrip-with_id 93 (omega arith)
      (RoundTrip-map _ (RoundTrip-string p.message_uuid h.message_uuid_fits))

pub RoundTrip-mail_read :
    (p : MailRead)
    → IsMailRead p
    → RoundTrip (encode_mail_read p) (with_id decode_mail_read) (94, p)
unfolding encode_mail_read decode_mail_read
RoundTrip-mail_read p h =
    RoundTrip-with_id 94 (omega arith)
      (RoundTrip-map _ (RoundTrip-string p.message_uuid h.message_uuid_fits))

pub RoundTrip-mail_gift_selected :
    (p : MailGiftSelected)
    → IsMailGiftSelected p
    → RoundTrip (encode_mail_gift_selected p) (with_id decode_mail_gift_selected) (95, p)
unfolding encode_mail_gift_selected decode_mail_gift_selected
RoundTrip-mail_gift_selected p h =
    RoundTrip-with_id 95 (omega arith)
      (RoundTrip-map _ (RoundTrip-string p.message_uuid h.message_uuid_fits))

pub RoundTrip-delete_mail :
    (p : DeleteMail)
    → IsDeleteMail p
    → RoundTrip (encode_delete_mail p) (with_id decode_delete_mail) (97, p)
unfolding encode_delete_mail decode_delete_mail
RoundTrip-delete_mail p h =
    RoundTrip-with_id 97 (omega arith)
      (RoundTrip-map _ (RoundTrip-string p.message_uuid h.message_uuid_fits))

pub RoundTrip-mail_check : RoundTrip encode_mail_check (with_id decode_mail_check) (96, tt)
unfolding encode_mail_check decode_mail_check
RoundTrip-mail_check =
    RoundTrip-seq {g = λ w. w} _ (RoundTrip-packet_id 96 (omega arith)) (RoundTrip-pure _)

pub RoundTrip-take_mail_attachment :
    (p : TakeMailAttachment)
    → IsTakeMailAttachment p
    → RoundTrip (encode_take_mail_attachment p) (with_id decode_take_mail_attachment) (98, p)
unfolding encode_take_mail_attachment decode_take_mail_attachment
RoundTrip-take_mail_attachment p h = RoundTrip-with_id 98 (omega arith) (
    RoundTrip-seq _ (RoundTrip-string p.message_uuid h.message_uuid_fits)
      (RoundTrip-map _ (RoundTrip-string p.item_uuid h.item_uuid_fits)))
