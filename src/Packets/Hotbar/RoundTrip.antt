-- ===== src/Packets/Hotbar/RoundTrip.antt =====
-- What the encoders of inventory.rs write, the decoders read back.
use sky_saga_rs.Common.{arith}
use sky_saga_rs.BitStream.RoundTrip.{RoundTrip, RoundTrip-seq, RoundTrip-map, RoundTrip-bits_le}
use sky_saga_rs.Packets.Creation.{with_id, RoundTrip-with_id}
use sky_saga_rs.Packets.Inventory.{hotbar_slot_bits}
use sky_saga_rs.Packets.Crafting.RoundTrip.{RoundTrip-item_spec}
use sky_saga_rs.Packets.Hotbar.{
  hand_bits, RequestUiSettingsSlotChange, encode_request_ui_settings_slot_change,
  decode_request_ui_settings_slot_change, IsRequestUiSettingsSlotChange,
}

pub RoundTrip-request_ui_settings_slot_change :
    (p : RequestUiSettingsSlotChange)
    → IsRequestUiSettingsSlotChange p
    → RoundTrip
        (encode_request_ui_settings_slot_change p)
        (with_id decode_request_ui_settings_slot_change)
        (15, p)
unfolding encode_request_ui_settings_slot_change decode_request_ui_settings_slot_change
RoundTrip-request_ui_settings_slot_change p h = RoundTrip-with_id 15 (omega arith) (
    RoundTrip-seq _ (RoundTrip-bits_le p.slot hotbar_slot_bits (omega arith) h.slot_fits) (
      RoundTrip-seq _ (RoundTrip-bits_le p.hand hand_bits (omega arith) h.hand_fits)
        (RoundTrip-map _ (RoundTrip-item_spec p.item_spec h.item_spec_fits))))
