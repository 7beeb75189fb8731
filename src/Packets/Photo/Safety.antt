-- ===== src/Packets/Photo/Safety.antt =====
-- The decoders of photo.rs end no process, whatever the bytes.
use sky_saga_rs.Common.{Bool}
use sky_saga_rs.BitStream.Reader.{Result, BitReader, Read, ok, err, panic}
use sky_saga_rs.BitStream.Reader.Safety.{
  Safe, Safe-pure, Safe-bind, Safe-bit, Safe-compressed_u32, Safe-skip_bits,
}
use sky_saga_rs.BitStream.Reader.Safety.{Comes}
use sky_saga_rs.Packets.Photo.{
  transform_bits, or_false_result, or_false, read_is_avatar, decode_notify_photo_captured,
}

Safe-or_false : {m : Read Bool} → Safe m → Safe (or_false m)
Safe-or_false {m} s = record { comes = λ r h. settled (m r) (s.comes r h) }
  where
    settled : (q : Result Bool × BitReader) → Comes q → Comes (or_false_result q)
    settled (ok v, r) h = h
    settled (err e, r) h = h
    settled (panic, r) h = h

pub Safe-is_avatar : Safe read_is_avatar
unfolding read_is_avatar
Safe-is_avatar = Safe-or_false (Safe-bind _ (Safe-skip_bits transform_bits) (λ u. Safe-bit))

pub Safe-notify_photo_captured : Safe decode_notify_photo_captured
unfolding decode_notify_photo_captured
Safe-notify_photo_captured =
    Safe-bind _ Safe-compressed_u32
      (λ client_photo_id. Safe-bind _ Safe-is_avatar (λ is_avatar_photo. Safe-pure _))
