-- ===== src/Packets/Hotbar/Safety.antt =====
-- The decoders of inventory.rs end no process, whatever the bytes.

use sky_saga_rs.BitStream.Reader.Safety.{Safe, Safe-pure, Safe-bind, Safe-bits_le}
use sky_saga_rs.Packets.Inventory.{hotbar_slot_bits}
use sky_saga_rs.Packets.Crafting.Safety.{Safe-item_spec}
use sky_saga_rs.Packets.Hotbar.{hand_bits, decode_request_ui_settings_slot_change}

pub Safe-request_ui_settings_slot_change : Safe decode_request_ui_settings_slot_change
unfolding decode_request_ui_settings_slot_change
Safe-request_ui_settings_slot_change = Safe-bind _ (Safe-bits_le hotbar_slot_bits) (λ slot.
    Safe-bind _ (Safe-bits_le hand_bits)
      (λ hand. Safe-bind _ Safe-item_spec (λ item_spec. Safe-pure _)))
