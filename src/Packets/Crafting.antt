-- ===== src/Packets/Crafting.antt =====
-- crates/skysaga-proto/src/packets/crafting.rs: recipes, what is made of them, and the drop slots.
-- Its `read_count` and `write_count` are those of todo_list.rs over again: `read_list_count`.
pub mod RoundTrip
pub mod Safety
use sky_saga_rs.Common.{
  ℕ, zero, suc, ◌+◌, ◌-◌, ◌*◌, ◌/◌, ◌%◌, ◌≤◌, ◌<◌, ◌^◌, min, bit_or, Bool, true, false, ◌≡◌, refl,
  ap, sym, subst, ◌∙◌, inl, inr, List, [], ◌∷◌, ◌++◌, Option, none, some, length, replicate, get_or,
  set, ltb, leb, ◌==◌, if◌then◌else◌, Bool-cases, arith,
}
use sky_saga_rs.Bits.{ranged_bits}
use sky_saga_rs.BitStream.Writer.{
  BitWriter, Write, ◌⨾◌, write_bit, write_u32, write_u16, write_u64_le, write_bits, write_bits_le,
  write_bits_msb, write_aligned_bytes, write_optional_u32, write_string, write_compressed_u32,
  write_packet_id,
}
use sky_saga_rs.BitStream.Reader.{
  Result, BitReader, Read, ok, err, panic, ◌>>=◌, ◌>>◌, pure, read_bit, read_u32, read_u16,
  read_u64_le, read_bits_le, read_bits_msb, read_aligned_bytes, read_optional_u32, read_string,
  read_many, read_compressed_u32, skip_bits,
}
use sky_saga_rs.BitStream.Reader.Fields.{IsOptionalU32}
use sky_saga_rs.BitStream.RoundTrip.{IsShortString, write_each, All}
use sky_saga_rs.Packets.Fields.{
  IsRanged, Triple, AllThree, write_ranged, read_ranged, write_triple, read_triple,
  write_list_count, read_list_count, write_optional, read_optional, Optionally, read_byte_le,
  write_list, read_list, IsList,
}

abbrev pub spec_list_default : ℕ
spec_list_default = 5

abbrev pub sub_resource_default : ℕ
sub_resource_default = 4

abbrev pub max_crafting_slot : ℕ
max_crafting_slot = 12

abbrev pub drop_slots : ℕ
drop_slots = 2

abbrev pub max_inventory_slot : ℕ
max_inventory_slot = 45

pub record ItemSpec : Type 0 where
  pub resource : Option ℕ
  pub sub_resources : List (Option ℕ)
  pub material_resource : Option ℕ
  pub item_uuid : List ℕ

unfoldable pub encode_item_spec : ItemSpec → Write
encode_item_spec p =
    write_optional_u32 p.resource
    ⨾ write_list write_optional_u32 sub_resource_default p.sub_resources
    ⨾ write_optional_u32 p.material_resource
    ⨾ write_string p.item_uuid

unfoldable pub decode_item_spec : Read ItemSpec
decode_item_spec = do
  resource ← read_optional_u32
  sub_resources ← read_list read_optional_u32 sub_resource_default
  material_resource ← read_optional_u32
  item_uuid ← read_string
  pure (record {
    resource = resource;
    sub_resources = sub_resources;
    material_resource = material_resource;
    item_uuid = item_uuid;
  })

pub record IsItemSpec (p : ItemSpec) : Type 0 where
  pub resource_fits : IsOptionalU32 p.resource
  pub sub_resources_fits : IsList IsOptionalU32 p.sub_resources
  pub material_resource_fits : IsOptionalU32 p.material_resource
  pub item_uuid_fits : IsShortString p.item_uuid

pub record QueueRecipeOnEntity : Type 0 where
  pub entity_id : ℕ
  pub item_id : Option ℕ
  pub selected_item_specs : List ItemSpec

unfoldable pub encode_queue_recipe_on_entity : QueueRecipeOnEntity → Write
encode_queue_recipe_on_entity p =
    write_packet_id 39
    ⨾ write_u32 p.entity_id
    ⨾ write_optional_u32 p.item_id
    ⨾ write_list encode_item_spec spec_list_default p.selected_item_specs

unfoldable pub decode_queue_recipe_on_entity : Read QueueRecipeOnEntity
decode_queue_recipe_on_entity = do
  entity_id ← read_u32
  item_id ← read_optional_u32
  selected_item_specs ← read_list decode_item_spec spec_list_default
  pure (record {
    entity_id = entity_id;
    item_id = item_id;
    selected_item_specs = selected_item_specs;
  })

pub record IsQueueRecipeOnEntity (p : QueueRecipeOnEntity) : Type 0 where
  pub entity_id_fits : p.entity_id < 2 ^ 32
  pub item_id_fits : IsOptionalU32 p.item_id
  pub selected_item_specs_fits : IsList IsItemSpec p.selected_item_specs

pub record CollectCraftedItemInSlot : Type 0 where
  pub entity_id : ℕ
  pub slot : ℕ
  pub immediate : Bool

unfoldable pub encode_collect_crafted_item_in_slot : CollectCraftedItemInSlot → Write
encode_collect_crafted_item_in_slot p =
    write_packet_id 40
    ⨾ write_u32 p.entity_id
    ⨾ write_bits_le p.slot (ranged_bits max_crafting_slot)
    ⨾ write_bit p.immediate

unfoldable pub decode_collect_crafted_item_in_slot : Read CollectCraftedItemInSlot
decode_collect_crafted_item_in_slot = do
  entity_id ← read_u32
  slot ← read_bits_le (ranged_bits max_crafting_slot)
  immediate ← read_bit
  pure (record { entity_id = entity_id; slot = slot; immediate = immediate })

pub record IsCollectCraftedItemInSlot (p : CollectCraftedItemInSlot) : Type 0 where
  pub entity_id_fits : p.entity_id < 2 ^ 32
  pub slot_fits : IsRanged max_crafting_slot p.slot

pub record CraftingQueryQueue : Type 0 where
  pub entity_id : ℕ

unfoldable pub encode_crafting_query_queue : CraftingQueryQueue → Write
encode_crafting_query_queue p = write_packet_id 41 ⨾ write_u32 p.entity_id

unfoldable pub decode_crafting_query_queue : Read CraftingQueryQueue
decode_crafting_query_queue = do entity_id ← read_u32; pure (record { entity_id = entity_id })

pub record IsCraftingQueryQueue (p : CraftingQueryQueue) : Type 0 where
  pub entity_id_fits : p.entity_id < 2 ^ 32

pub record MoveItemToCraftingDropSlot : Type 0 where
  pub slot_type : ℕ
  pub slot : ℕ

unfoldable pub encode_move_item_to_crafting_drop_slot : MoveItemToCraftingDropSlot → Write
encode_move_item_to_crafting_drop_slot p =
    write_packet_id 153
    ⨾ write_bits_le p.slot_type (ranged_bits drop_slots)
    ⨾ write_bits_le p.slot (ranged_bits max_inventory_slot)

unfoldable pub decode_move_item_to_crafting_drop_slot : Read MoveItemToCraftingDropSlot
decode_move_item_to_crafting_drop_slot = do
  slot_type ← read_bits_le (ranged_bits drop_slots)
  slot ← read_bits_le (ranged_bits max_inventory_slot)
  pure (record { slot_type = slot_type; slot = slot })

pub record IsMoveItemToCraftingDropSlot (p : MoveItemToCraftingDropSlot) : Type 0 where
  pub slot_type_fits : IsRanged drop_slots p.slot_type
  pub slot_fits : IsRanged max_inventory_slot p.slot

pub record RemoveItemFromCraftingDropSlot : Type 0 where
  pub slot_type : ℕ

unfoldable pub encode_remove_item_from_crafting_drop_slot : RemoveItemFromCraftingDropSlot → Write
encode_remove_item_from_crafting_drop_slot p =
    write_packet_id 154 ⨾ write_bits_le p.slot_type (ranged_bits drop_slots)

unfoldable pub decode_remove_item_from_crafting_drop_slot : Read RemoveItemFromCraftingDropSlot
decode_remove_item_from_crafting_drop_slot = do
  slot_type ← read_bits_le (ranged_bits drop_slots)
  pure (record { slot_type = slot_type })

pub record IsRemoveItemFromCraftingDropSlot (p : RemoveItemFromCraftingDropSlot) : Type 0 where
  pub slot_type_fits : IsRanged drop_slots p.slot_type

pub record PerformCraftingDropSlotAction : Type 0 where
  pub slot_type : ℕ

unfoldable pub encode_perform_crafting_drop_slot_action : PerformCraftingDropSlotAction → Write
encode_perform_crafting_drop_slot_action p =
    write_packet_id 155 ⨾ write_bits_le p.slot_type (ranged_bits drop_slots)

unfoldable pub decode_perform_crafting_drop_slot_action : Read PerformCraftingDropSlotAction
decode_perform_crafting_drop_slot_action = do
  slot_type ← read_bits_le (ranged_bits drop_slots)
  pure (record { slot_type = slot_type })

pub record IsPerformCraftingDropSlotAction (p : PerformCraftingDropSlotAction) : Type 0 where
  pub slot_type_fits : IsRanged drop_slots p.slot_type

pub record NewResourceEncountered : Type 0 where
  pub entity_id : ℕ
  pub item_spec : ItemSpec

unfoldable pub encode_new_resource_encountered : NewResourceEncountered → Write
encode_new_resource_encountered p =
    write_packet_id 43 ⨾ write_u32 p.entity_id ⨾ encode_item_spec p.item_spec

unfoldable pub decode_new_resource_encountered : Read NewResourceEncountered
decode_new_resource_encountered = do
  entity_id ← read_u32
  item_spec ← decode_item_spec
  pure (record { entity_id = entity_id; item_spec = item_spec })

pub record IsNewResourceEncountered (p : NewResourceEncountered) : Type 0 where
  pub entity_id_fits : p.entity_id < 2 ^ 32
  pub item_spec_fits : IsItemSpec p.item_spec

pub record CraftingNotification : Type 0 where
  pub resource : Option ℕ
  pub item_spec_a : ItemSpec
  pub item_spec_b : ItemSpec

unfoldable pub encode_crafting_notification : CraftingNotification → Write
encode_crafting_notification p =
    write_packet_id 67
    ⨾ write_optional_u32 p.resource
    ⨾ encode_item_spec p.item_spec_a
    ⨾ encode_item_spec p.item_spec_b

unfoldable pub decode_crafting_notification : Read CraftingNotification
decode_crafting_notification = do
  resource ← read_optional_u32
  item_spec_a ← decode_item_spec
  item_spec_b ← decode_item_spec
  pure (record { resource = resource; item_spec_a = item_spec_a; item_spec_b = item_spec_b })

pub record IsCraftingNotification (p : CraftingNotification) : Type 0 where
  pub resource_fits : IsOptionalU32 p.resource
  pub item_spec_a_fits : IsItemSpec p.item_spec_a
  pub item_spec_b_fits : IsItemSpec p.item_spec_b

pub record CraftingFailed : Type 0 where
  pub entity_id : ℕ
  pub resource : Option ℕ

unfoldable pub encode_crafting_failed : CraftingFailed → Write
encode_crafting_failed p =
    write_packet_id 42 ⨾ write_u32 p.entity_id ⨾ write_optional_u32 p.resource

unfoldable pub decode_crafting_failed : Read CraftingFailed
decode_crafting_failed = do
  entity_id ← read_u32
  resource ← read_optional_u32
  pure (record { entity_id = entity_id; resource = resource })

pub record IsCraftingFailed (p : CraftingFailed) : Type 0 where
  pub entity_id_fits : p.entity_id < 2 ^ 32
  pub resource_fits : IsOptionalU32 p.resource
