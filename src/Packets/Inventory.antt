-- ===== src/Packets/Inventory.antt =====
-- crates/skysaga-proto/src/packets/inventory.rs: what the rucksack's window sends. The packet that
-- carries an item specification is left out.
use sky_saga_rs.Common.{ℕ, ◌<◌, ◌^◌, ap, arith}
use sky_saga_rs.BitStream.Writer.{Write, ◌⨾◌, write_u32, write_bits_le, write_packet_id}
use sky_saga_rs.BitStream.Reader.{
  Result, BitReader, Read, ok, err, panic, ◌>>=◌, pure, read_u32, read_bits_le,
}
use sky_saga_rs.BitStream.RoundTrip.{
  RoundTrip, RoundTrip-seq, RoundTrip-map, RoundTrip-u32, RoundTrip-bits_le,
}
use sky_saga_rs.Packets.Creation.{with_id, RoundTrip-with_id}

abbrev pub slot_bits : ℕ
slot_bits = 6

abbrev pub count_bits : ℕ
count_bits = 8

abbrev pub hotbar_slot_bits : ℕ
hotbar_slot_bits = 3

-- `.unwrap_or(0)`: an error becomes the default, and the reader stays where the read left it.
abbrev pub or_zero_result : Result ℕ × BitReader → Result ℕ × BitReader
or_zero_result (ok v, r) = (ok v, r)
or_zero_result (err e, r) = (ok 0, r)
or_zero_result (panic, r) = (panic, r)

abbrev pub or_zero : Read ℕ → Read ℕ
or_zero m r = or_zero_result (m r)

RoundTrip-or_zero : {f : Write} {m : Read ℕ} {v : ℕ} → RoundTrip f m v → RoundTrip f (or_zero m) v
RoundTrip-or_zero t = record {
  wire = t.wire;
  encodes = t.encodes;
  decodes = record { runs = λ r rest h. ap or_zero_result (t.decodes.runs r rest h) };
}

pub record InventoryItemTransferToSlot : Type 0 where
  pub source_entity : ℕ
  pub target_entity : ℕ
  pub source_slot : ℕ
  pub count : ℕ
  pub target_slot : ℕ

unfoldable pub encode_transfer_to_slot : InventoryItemTransferToSlot → Write
encode_transfer_to_slot p =
    write_packet_id 51
    ⨾ write_u32 p.source_entity
    ⨾ write_u32 p.target_entity
    ⨾ write_bits_le p.source_slot slot_bits
    ⨾ write_bits_le p.count count_bits
    ⨾ write_bits_le p.target_slot slot_bits

unfoldable pub decode_transfer_to_slot : Read InventoryItemTransferToSlot
decode_transfer_to_slot = do
  source_entity ← read_u32
  target_entity ← read_u32
  source_slot ← read_bits_le slot_bits
  count ← read_bits_le count_bits
  target_slot ← read_bits_le slot_bits
  pure (record {
    source_entity = source_entity;
    target_entity = target_entity;
    source_slot = source_slot;
    count = count;
    target_slot = target_slot;
  })

pub record IsInventoryItemTransferToSlot (p : InventoryItemTransferToSlot) : Type 0 where
  pub source_entity_fits : p.source_entity < 2 ^ 32
  pub target_entity_fits : p.target_entity < 2 ^ 32
  pub source_slot_fits : p.source_slot < 2 ^ 6
  pub count_fits : p.count < 2 ^ 8
  pub target_slot_fits : p.target_slot < 2 ^ 6

pub RoundTrip-transfer_to_slot :
    (p : InventoryItemTransferToSlot)
    → IsInventoryItemTransferToSlot p
    → RoundTrip (encode_transfer_to_slot p) (with_id decode_transfer_to_slot) (51, p)
unfolding encode_transfer_to_slot decode_transfer_to_slot
RoundTrip-transfer_to_slot p h = RoundTrip-with_id 51 (omega arith) (
    RoundTrip-seq _ (RoundTrip-u32 p.source_entity h.source_entity_fits) (
      RoundTrip-seq _ (RoundTrip-u32 p.target_entity h.target_entity_fits) (
        RoundTrip-seq _ (RoundTrip-bits_le p.source_slot 6 (omega arith) h.source_slot_fits) (
          RoundTrip-seq _ (RoundTrip-bits_le p.count 8 (omega arith) h.count_fits) (
            RoundTrip-map _
              (RoundTrip-bits_le p.target_slot 6 (omega arith) h.target_slot_fits))))))

pub record InventoryItemSwap : Type 0 where
  pub source_entity : ℕ
  pub source_slot : ℕ
  pub target_entity : ℕ
  pub target_slot : ℕ

unfoldable pub encode_swap : InventoryItemSwap → Write
encode_swap p =
    write_packet_id 53
    ⨾ write_u32 p.source_entity
    ⨾ write_bits_le p.source_slot slot_bits
    ⨾ write_u32 p.target_entity
    ⨾ write_bits_le p.target_slot slot_bits

unfoldable pub decode_swap : Read InventoryItemSwap
decode_swap = do
  source_entity ← read_u32
  source_slot ← read_bits_le slot_bits
  target_entity ← read_u32
  target_slot ← read_bits_le slot_bits
  pure (record {
    source_entity = source_entity;
    source_slot = source_slot;
    target_entity = target_entity;
    target_slot = target_slot;
  })

pub record IsInventoryItemSwap (p : InventoryItemSwap) : Type 0 where
  pub source_entity_fits : p.source_entity < 2 ^ 32
  pub source_slot_fits : p.source_slot < 2 ^ 6
  pub target_entity_fits : p.target_entity < 2 ^ 32
  pub target_slot_fits : p.target_slot < 2 ^ 6

pub RoundTrip-swap :
    (p : InventoryItemSwap)
    → IsInventoryItemSwap p
    → RoundTrip (encode_swap p) (with_id decode_swap) (53, p)
unfolding encode_swap decode_swap
RoundTrip-swap p h = RoundTrip-with_id 53 (omega arith) (
    RoundTrip-seq _ (RoundTrip-u32 p.source_entity h.source_entity_fits) (
      RoundTrip-seq _ (RoundTrip-bits_le p.source_slot 6 (omega arith) h.source_slot_fits) (
        RoundTrip-seq _ (RoundTrip-u32 p.target_entity h.target_entity_fits)
          (RoundTrip-map _ (RoundTrip-bits_le p.target_slot 6 (omega arith) h.target_slot_fits)))))

pub record InventoryItemTransferAll : Type 0 where
  pub source_entity : ℕ
  pub target_entity : ℕ

unfoldable pub encode_transfer_all : InventoryItemTransferAll → Write
encode_transfer_all p = write_packet_id 52 ⨾ write_u32 p.source_entity ⨾ write_u32 p.target_entity

unfoldable pub decode_transfer_all : Read InventoryItemTransferAll
decode_transfer_all = do
  source_entity ← read_u32
  target_entity ← read_u32
  pure (record { source_entity = source_entity; target_entity = target_entity })

pub record IsInventoryItemTransferAll (p : InventoryItemTransferAll) : Type 0 where
  pub source_entity_fits : p.source_entity < 2 ^ 32
  pub target_entity_fits : p.target_entity < 2 ^ 32

pub RoundTrip-transfer_all :
    (p : InventoryItemTransferAll)
    → IsInventoryItemTransferAll p
    → RoundTrip (encode_transfer_all p) (with_id decode_transfer_all) (52, p)
unfolding encode_transfer_all decode_transfer_all
RoundTrip-transfer_all p h = RoundTrip-with_id 52 (omega arith) (
    RoundTrip-seq _ (RoundTrip-u32 p.source_entity h.source_entity_fits)
      (RoundTrip-map _ (RoundTrip-u32 p.target_entity h.target_entity_fits)))

pub record InventoryItemDestroy : Type 0 where
  pub entity_id : ℕ
  pub slot : ℕ
  pub count : ℕ

unfoldable pub encode_destroy : InventoryItemDestroy → Write
encode_destroy p =
    write_packet_id 45
    ⨾ write_u32 p.entity_id
    ⨾ write_bits_le p.slot slot_bits
    ⨾ write_bits_le p.count count_bits

unfoldable pub decode_destroy : Read InventoryItemDestroy
decode_destroy = do
  entity_id ← read_u32
  slot ← read_bits_le slot_bits
  count ← read_bits_le count_bits
  pure (record { entity_id = entity_id; slot = slot; count = count })

pub record IsInventoryItemDestroy (p : InventoryItemDestroy) : Type 0 where
  pub entity_id_fits : p.entity_id < 2 ^ 32
  pub slot_fits : p.slot < 2 ^ 6
  pub count_fits : p.count < 2 ^ 8

pub RoundTrip-destroy :
    (p : InventoryItemDestroy)
    → IsInventoryItemDestroy p
    → RoundTrip (encode_destroy p) (with_id decode_destroy) (45, p)
unfolding encode_destroy decode_destroy
RoundTrip-destroy p h = RoundTrip-with_id 45 (omega arith) (
    RoundTrip-seq _ (RoundTrip-u32 p.entity_id h.entity_id_fits) (
      RoundTrip-seq _ (RoundTrip-bits_le p.slot 6 (omega arith) h.slot_fits)
        (RoundTrip-map _ (RoundTrip-bits_le p.count 8 (omega arith) h.count_fits))))

pub record RequestEquipInventoryItem : Type 0 where
  pub equip_slot : ℕ
  pub entity_id : ℕ
  pub bag_slot : ℕ
  pub trailing : ℕ

unfoldable pub encode_equip : RequestEquipInventoryItem → Write
encode_equip p =
    write_packet_id 13
    ⨾ write_bits_le p.equip_slot 4
    ⨾ write_u32 p.entity_id
    ⨾ write_bits_le p.bag_slot slot_bits
    ⨾ write_bits_le p.trailing 6

unfoldable pub decode_equip : Read RequestEquipInventoryItem
decode_equip = do
  equip_slot ← read_bits_le 4
  entity_id ← read_u32
  bag_slot ← read_bits_le slot_bits
  trailing ← or_zero (read_bits_le 6)
  pure (record {
    equip_slot = equip_slot;
    entity_id = entity_id;
    bag_slot = bag_slot;
    trailing = trailing;
  })

pub record IsRequestEquipInventoryItem (p : RequestEquipInventoryItem) : Type 0 where
  pub equip_slot_fits : p.equip_slot < 2 ^ 4
  pub entity_id_fits : p.entity_id < 2 ^ 32
  pub bag_slot_fits : p.bag_slot < 2 ^ 6
  pub trailing_fits : p.trailing < 2 ^ 6

pub RoundTrip-equip :
    (p : RequestEquipInventoryItem)
    → IsRequestEquipInventoryItem p
    → RoundTrip (encode_equip p) (with_id decode_equip) (13, p)
unfolding encode_equip decode_equip
RoundTrip-equip p h = RoundTrip-with_id 13 (omega arith) (
    RoundTrip-seq _ (RoundTrip-bits_le p.equip_slot 4 (omega arith) h.equip_slot_fits) (
      RoundTrip-seq _ (RoundTrip-u32 p.entity_id h.entity_id_fits) (
        RoundTrip-seq _ (RoundTrip-bits_le p.bag_slot 6 (omega arith) h.bag_slot_fits) (
          RoundTrip-map _
            (RoundTrip-or_zero (RoundTrip-bits_le p.trailing 6 (omega arith) h.trailing_fits))))))

pub record RequestUnEquipInventoryItem : Type 0 where
  pub equip_slot : ℕ
  pub trailing : ℕ

unfoldable pub encode_unequip : RequestUnEquipInventoryItem → Write
encode_unequip p = write_packet_id 14 ⨾ write_bits_le p.equip_slot 4 ⨾ write_bits_le p.trailing 4

unfoldable pub decode_unequip : Read RequestUnEquipInventoryItem
decode_unequip = do
  equip_slot ← read_bits_le 4
  trailing ← or_zero (read_bits_le 4)
  pure (record { equip_slot = equip_slot; trailing = trailing })

pub record IsRequestUnEquipInventoryItem (p : RequestUnEquipInventoryItem) : Type 0 where
  pub equip_slot_fits : p.equip_slot < 2 ^ 4
  pub trailing_fits : p.trailing < 2 ^ 4

pub RoundTrip-unequip :
    (p : RequestUnEquipInventoryItem)
    → IsRequestUnEquipInventoryItem p
    → RoundTrip (encode_unequip p) (with_id decode_unequip) (14, p)
unfolding encode_unequip decode_unequip
RoundTrip-unequip p h = RoundTrip-with_id 14 (omega arith) (
    RoundTrip-seq _ (RoundTrip-bits_le p.equip_slot 4 (omega arith) h.equip_slot_fits) (
      RoundTrip-map _
        (RoundTrip-or_zero (RoundTrip-bits_le p.trailing 4 (omega arith) h.trailing_fits))))

pub record RequestUiSettingsSetActiveSlot : Type 0 where
  pub slot : ℕ

unfoldable pub encode_active_slot : RequestUiSettingsSetActiveSlot → Write
encode_active_slot p = write_packet_id 16 ⨾ write_bits_le p.slot hotbar_slot_bits

unfoldable pub decode_active_slot : Read RequestUiSettingsSetActiveSlot
decode_active_slot = do slot ← read_bits_le hotbar_slot_bits; pure (record { slot = slot })

pub record IsRequestUiSettingsSetActiveSlot (p : RequestUiSettingsSetActiveSlot) : Type 0 where
  pub slot_fits : p.slot < 2 ^ 3

pub RoundTrip-active_slot :
    (p : RequestUiSettingsSetActiveSlot)
    → IsRequestUiSettingsSetActiveSlot p
    → RoundTrip (encode_active_slot p) (with_id decode_active_slot) (16, p)
unfolding encode_active_slot decode_active_slot
RoundTrip-active_slot p h =
    RoundTrip-with_id 16 (omega arith)
      (RoundTrip-map _ (RoundTrip-bits_le p.slot 3 (omega arith) h.slot_fits))
