-- ===== src/Packets/Hotbar.antt =====
-- crates/skysaga-proto/src/packets/inventory.rs: the packet that binds an item to the hotbar.
pub mod RoundTrip
pub mod Safety
use sky_saga_rs.Common.{
  ℕ, zero, suc, ◌+◌, ◌-◌, ◌*◌, ◌/◌, ◌%◌, ◌≤◌, ◌<◌, ◌^◌, min, bit_or, Bool, true, false, ◌≡◌, refl,
  ap, sym, subst, ◌∙◌, inl, inr, List, [], ◌∷◌, ◌++◌, Option, none, some, length, replicate, get_or,
  set, ltb, leb, ◌==◌, if◌then◌else◌, Bool-cases, arith,
}
use sky_saga_rs.Bits.{ranged_bits}
use sky_saga_rs.BitStream.Writer.{
  BitWriter, Write, ◌⨾◌, write_bit, write_u32, write_u16, write_u64_le, write_bits, write_bits_le,
  write_bits_msb, write_aligned_bytes, write_optional_u32, write_string, write_compressed_u32,
  write_packet_id,
}
use sky_saga_rs.BitStream.Reader.{
  Result, BitReader, Read, ok, err, panic, ◌>>=◌, ◌>>◌, pure, read_bit, read_u32, read_u16,
  read_u64_le, read_bits_le, read_bits_msb, read_aligned_bytes, read_optional_u32, read_string,
  read_many, read_compressed_u32, skip_bits,
}
use sky_saga_rs.BitStream.Reader.Fields.{IsOptionalU32}
use sky_saga_rs.BitStream.RoundTrip.{IsShortString, write_each, All}
use sky_saga_rs.Packets.Fields.{
  IsRanged, Triple, AllThree, write_ranged, read_ranged, write_triple, read_triple,
  write_list_count, read_list_count, write_optional, read_optional, Optionally, read_byte_le,
  write_list, read_list, IsList,
}
use sky_saga_rs.Packets.Inventory.{hotbar_slot_bits}
use sky_saga_rs.Packets.Crafting.{ItemSpec, encode_item_spec, decode_item_spec, IsItemSpec}

abbrev pub hand_bits : ℕ
hand_bits = 1

pub record RequestUiSettingsSlotChange : Type 0 where
  pub slot : ℕ
  pub hand : ℕ
  pub item_spec : ItemSpec

unfoldable pub encode_request_ui_settings_slot_change : RequestUiSettingsSlotChange → Write
encode_request_ui_settings_slot_change p =
    write_packet_id 15
    ⨾ write_bits_le p.slot hotbar_slot_bits
    ⨾ write_bits_le p.hand hand_bits
    ⨾ encode_item_spec p.item_spec

unfoldable pub decode_request_ui_settings_slot_change : Read RequestUiSettingsSlotChange
decode_request_ui_settings_slot_change = do
  slot ← read_bits_le hotbar_slot_bits
  hand ← read_bits_le hand_bits
  item_spec ← decode_item_spec
  pure (record { slot = slot; hand = hand; item_spec = item_spec })

pub record IsRequestUiSettingsSlotChange (p : RequestUiSettingsSlotChange) : Type 0 where
  pub slot_fits : p.slot < 2 ^ hotbar_slot_bits
  pub hand_fits : p.hand < 2 ^ hand_bits
  pub item_spec_fits : IsItemSpec p.item_spec
