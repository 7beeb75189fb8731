-- ===== src/Packets/Safety.antt =====
-- The decoders of crates/skysaga-proto/src/packets/character_creation.rs and inventory.rs end no
-- process, whatever the bytes.
use sky_saga_rs.Common.{ℕ}
use sky_saga_rs.BitStream.Reader.{Result, BitReader, Read, ok, err, panic}
use sky_saga_rs.BitStream.Reader.Safety.{
  Comes, Safe, Safe-pure, Safe-bind, Safe-if, Safe-bit, Safe-u32, Safe-bits_le, Safe-many,
  Safe-optional_u32, Safe-string,
}
use sky_saga_rs.Packets.Customisation.{
  gender_bits, default_material_count, default_attachment_count, read_count, decode_gender,
  decode_attachment, decode_customisation,
}
use sky_saga_rs.Packets.Creation.{decode_name, decode_homeworld, decode_set_customisation}
use sky_saga_rs.Packets.Inventory.{
  slot_bits, count_bits, hotbar_slot_bits, or_zero, or_zero_result, decode_transfer_to_slot,
  decode_swap, decode_transfer_all, decode_destroy, decode_equip, decode_unequip,
  decode_active_slot,
}

Safe-gender : Safe decode_gender
unfolding decode_gender
Safe-gender = Safe-bind _ (Safe-bits_le gender_bits) (λ v. Safe-pure _)

Safe-attachment : Safe decode_attachment
unfolding decode_attachment
Safe-attachment =
    Safe-bind _ Safe-optional_u32 (λ a. Safe-bind _ Safe-optional_u32 (λ m. Safe-pure _))

Safe-count : (default : ℕ) → Safe (read_count default)
unfolding read_count
Safe-count default = Safe-bind _ Safe-bit (λ escape. Safe-if escape Safe-u32 (Safe-pure default))

pub Safe-customisation : Safe decode_customisation
unfolding decode_customisation
Safe-customisation = Safe-bind _ Safe-gender (λ gender. Safe-bind _ Safe-optional_u32 (λ tribe.
    Safe-bind _ (Safe-count default_material_count) (λ count.
      Safe-bind _ (Safe-many count Safe-optional_u32) (λ materials.
        Safe-bind _ (Safe-count default_attachment_count)
          (λ more. Safe-bind _ (Safe-many more Safe-attachment) (λ attachments. Safe-pure _))))))

pub Safe-name : Safe decode_name
unfolding decode_name
Safe-name = Safe-bind _ Safe-string (λ name. Safe-pure _)

pub Safe-homeworld : Safe decode_homeworld
unfolding decode_homeworld
Safe-homeworld = Safe-bind _ Safe-string (λ name. Safe-bind _ Safe-string (λ uuid. Safe-pure _))

pub Safe-set_customisation : Safe decode_set_customisation
unfolding decode_set_customisation
Safe-set_customisation =
    Safe-bind _ Safe-u32 (λ id. Safe-bind _ Safe-customisation (λ c. Safe-pure _))

Safe-or_zero : {m : Read ℕ} → Safe m → Safe (or_zero m)
Safe-or_zero {m} s = record { comes = λ r h. settled (m r) (s.comes r h) }
  where
    settled : (q : Result ℕ × BitReader) → Comes q → Comes (or_zero_result q)
    settled (ok v, r) h = h
    settled (err e, r) h = h
    settled (panic, r) h = h

pub Safe-transfer_to_slot : Safe decode_transfer_to_slot
unfolding decode_transfer_to_slot
Safe-transfer_to_slot = Safe-bind _ Safe-u32 (λ source. Safe-bind _ Safe-u32 (λ target.
    Safe-bind _ (Safe-bits_le slot_bits) (λ slot.
      Safe-bind _ (Safe-bits_le count_bits)
        (λ count. Safe-bind _ (Safe-bits_le slot_bits) (λ to. Safe-pure _)))))

pub Safe-swap : Safe decode_swap
unfolding decode_swap
Safe-swap = Safe-bind _ Safe-u32 (λ source. Safe-bind _ (Safe-bits_le slot_bits) (λ slot.
    Safe-bind _ Safe-u32 (λ target. Safe-bind _ (Safe-bits_le slot_bits) (λ to. Safe-pure _))))

pub Safe-transfer_all : Safe decode_transfer_all
unfolding decode_transfer_all
Safe-transfer_all = Safe-bind _ Safe-u32 (λ source. Safe-bind _ Safe-u32 (λ target. Safe-pure _))

pub Safe-destroy : Safe decode_destroy
unfolding decode_destroy
Safe-destroy = Safe-bind _ Safe-u32 (λ id.
    Safe-bind _ (Safe-bits_le slot_bits)
      (λ slot. Safe-bind _ (Safe-bits_le count_bits) (λ n. Safe-pure _)))

pub Safe-equip : Safe decode_equip
unfolding decode_equip
Safe-equip = Safe-bind _ (Safe-bits_le 4) (λ slot. Safe-bind _ Safe-u32 (λ id.
    Safe-bind _ (Safe-bits_le slot_bits)
      (λ bag. Safe-bind _ (Safe-or_zero (Safe-bits_le 6)) (λ trailing. Safe-pure _))))

pub Safe-unequip : Safe decode_unequip
unfolding decode_unequip
Safe-unequip =
    Safe-bind _ (Safe-bits_le 4)
      (λ slot. Safe-bind _ (Safe-or_zero (Safe-bits_le 4)) (λ trailing. Safe-pure _))

pub Safe-active_slot : Safe decode_active_slot
unfolding decode_active_slot
Safe-active_slot = Safe-bind _ (Safe-bits_le hotbar_slot_bits) (λ slot. Safe-pure _)
