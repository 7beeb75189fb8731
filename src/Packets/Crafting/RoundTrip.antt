-- ===== src/Packets/Crafting/RoundTrip.antt =====
-- What the encoders of crafting.rs write, the decoders read back.
use sky_saga_rs.Common.{arith}
use sky_saga_rs.BitStream.Writer.{write_optional_u32}
use sky_saga_rs.BitStream.Reader.{read_optional_u32}
use sky_saga_rs.BitStream.Reader.Fields.{IsOptionalU32}
use sky_saga_rs.BitStream.RoundTrip.{
  RoundTrip, RoundTrip-seq, RoundTrip-map, RoundTrip-bit, RoundTrip-u32, RoundTrip-optional_u32,
  RoundTrip-string,
}
use sky_saga_rs.Packets.Fields.{RoundTrip-ranged, RoundTrip-list}
use sky_saga_rs.Packets.Creation.{with_id, RoundTrip-with_id}
use sky_saga_rs.Packets.Crafting.{
  spec_list_default, sub_resource_default, max_crafting_slot, drop_slots, max_inventory_slot,
  ItemSpec, encode_item_spec, decode_item_spec, IsItemSpec, QueueRecipeOnEntity,
  encode_queue_recipe_on_entity, decode_queue_recipe_on_entity, IsQueueRecipeOnEntity,
  CollectCraftedItemInSlot, encode_collect_crafted_item_in_slot,
  decode_collect_crafted_item_in_slot, IsCollectCraftedItemInSlot, CraftingQueryQueue,
  encode_crafting_query_queue, decode_crafting_query_queue, IsCraftingQueryQueue,
  MoveItemToCraftingDropSlot, encode_move_item_to_crafting_drop_slot,
  decode_move_item_to_crafting_drop_slot, IsMoveItemToCraftingDropSlot,
  RemoveItemFromCraftingDropSlot, encode_remove_item_from_crafting_drop_slot,
  decode_remove_item_from_crafting_drop_slot, IsRemoveItemFromCraftingDropSlot,
  PerformCraftingDropSlotAction, encode_perform_crafting_drop_slot_action,
  decode_perform_crafting_drop_slot_action, IsPerformCraftingDropSlotAction, NewResourceEncountered,
  encode_new_resource_encountered, decode_new_resource_encountered, IsNewResourceEncountered,
  CraftingNotification, encode_crafting_notification, decode_crafting_notification,
  IsCraftingNotification, CraftingFailed, encode_crafting_failed, decode_crafting_failed,
  IsCraftingFailed,
}

pub RoundTrip-item_spec :
    (p : ItemSpec) → IsItemSpec p → RoundTrip (encode_item_spec p) decode_item_spec p
unfolding encode_item_spec decode_item_spec
RoundTrip-item_spec p h = RoundTrip-seq _ (RoundTrip-optional_u32 p.resource h.resource_fits) (
    RoundTrip-seq _
      (RoundTrip-list IsOptionalU32 write_optional_u32 read_optional_u32 RoundTrip-optional_u32
        sub_resource_default (omega arith) p.sub_resources h.sub_resources_fits)
      (RoundTrip-seq _ (RoundTrip-optional_u32 p.material_resource h.material_resource_fits)
        (RoundTrip-map _ (RoundTrip-string p.item_uuid h.item_uuid_fits))))

pub RoundTrip-queue_recipe_on_entity :
    (p : QueueRecipeOnEntity)
    → IsQueueRecipeOnEntity p
    → RoundTrip (encode_queue_recipe_on_entity p) (with_id decode_queue_recipe_on_entity) (39, p)
unfolding encode_queue_recipe_on_entity decode_queue_recipe_on_entity
RoundTrip-queue_recipe_on_entity p h = RoundTrip-with_id 39 (omega arith) (
    RoundTrip-seq _ (RoundTrip-u32 p.entity_id h.entity_id_fits) (
      RoundTrip-seq _ (RoundTrip-optional_u32 p.item_id h.item_id_fits) (
        RoundTrip-map _ (
          RoundTrip-list IsItemSpec encode_item_spec decode_item_spec RoundTrip-item_spec
            spec_list_default (omega arith) p.selected_item_specs h.selected_item_specs_fits))))

pub RoundTrip-collect_crafted_item_in_slot :
    (p : CollectCraftedItemInSlot)
    → IsCollectCraftedItemInSlot p
    → RoundTrip
        (encode_collect_crafted_item_in_slot p)
        (with_id decode_collect_crafted_item_in_slot)
        (40, p)
unfolding encode_collect_crafted_item_in_slot decode_collect_crafted_item_in_slot
RoundTrip-collect_crafted_item_in_slot p h = RoundTrip-with_id 40 (omega arith) (
    RoundTrip-seq _ (RoundTrip-u32 p.entity_id h.entity_id_fits) (
      RoundTrip-seq _ (RoundTrip-ranged max_crafting_slot p.slot h.slot_fits)
        (RoundTrip-map _ (RoundTrip-bit p.immediate))))

pub RoundTrip-crafting_query_queue :
    (p : CraftingQueryQueue)
    → IsCraftingQueryQueue p
    → RoundTrip (encode_crafting_query_queue p) (with_id decode_crafting_query_queue) (41, p)
unfolding encode_crafting_query_queue decode_crafting_query_queue
RoundTrip-crafting_query_queue p h =
    RoundTrip-with_id 41 (omega arith)
      (RoundTrip-map _ (RoundTrip-u32 p.entity_id h.entity_id_fits))

pub RoundTrip-move_item_to_crafting_drop_slot :
    (p : MoveItemToCraftingDropSlot)
    → IsMoveItemToCraftingDropSlot p
    → RoundTrip
        (encode_move_item_to_crafting_drop_slot p)
        (with_id decode_move_item_to_crafting_drop_slot)
        (153, p)
unfolding encode_move_item_to_crafting_drop_slot decode_move_item_to_crafting_drop_slot
RoundTrip-move_item_to_crafting_drop_slot p h = RoundTrip-with_id 153 (omega arith) (
    RoundTrip-seq _ (RoundTrip-ranged drop_slots p.slot_type h.slot_type_fits)
      (RoundTrip-map _ (RoundTrip-ranged max_inventory_slot p.slot h.slot_fits)))

pub RoundTrip-remove_item_from_crafting_drop_slot :
    (p : RemoveItemFromCraftingDropSlot)
    → IsRemoveItemFromCraftingDropSlot p
    → RoundTrip
        (encode_remove_item_from_crafting_drop_slot p)
        (with_id decode_remove_item_from_crafting_drop_slot)
        (154, p)
unfolding encode_remove_item_from_crafting_drop_slot decode_remove_item_from_crafting_drop_slot
RoundTrip-remove_item_from_crafting_drop_slot p h =
    RoundTrip-with_id 154 (omega arith)
      (RoundTrip-map _ (RoundTrip-ranged drop_slots p.slot_type h.slot_type_fits))

pub RoundTrip-perform_crafting_drop_slot_action :
    (p : PerformCraftingDropSlotAction)
    → IsPerformCraftingDropSlotAction p
    → RoundTrip
        (encode_perform_crafting_drop_slot_action p)
        (with_id decode_perform_crafting_drop_slot_action)
        (155, p)
unfolding encode_perform_crafting_drop_slot_action decode_perform_crafting_drop_slot_action
RoundTrip-perform_crafting_drop_slot_action p h =
    RoundTrip-with_id 155 (omega arith)
      (RoundTrip-map _ (RoundTrip-ranged drop_slots p.slot_type h.slot_type_fits))

pub RoundTrip-new_resource_encountered :
    (p : NewResourceEncountered)
    → IsNewResourceEncountered p
    → RoundTrip
        (encode_new_resource_encountered p)
        (with_id decode_new_resource_encountered)
        (43, p)
unfolding encode_new_resource_encountered decode_new_resource_encountered
RoundTrip-new_resource_encountered p h = RoundTrip-with_id 43 (omega arith) (
    RoundTrip-seq _ (RoundTrip-u32 p.entity_id h.entity_id_fits)
      (RoundTrip-map _ (RoundTrip-item_spec p.item_spec h.item_spec_fits)))

pub RoundTrip-crafting_notification :
    (p : CraftingNotification)
    → IsCraftingNotification p
    → RoundTrip (encode_crafting_notification p) (with_id decode_crafting_notification) (67, p)
unfolding encode_crafting_notification decode_crafting_notification
RoundTrip-crafting_notification p h = RoundTrip-with_id 67 (omega arith) (
    RoundTrip-seq _ (RoundTrip-optional_u32 p.resource h.resource_fits) (
      RoundTrip-seq _ (RoundTrip-item_spec p.item_spec_a h.item_spec_a_fits)
        (RoundTrip-map _ (RoundTrip-item_spec p.item_spec_b h.item_spec_b_fits))))

pub RoundTrip-crafting_failed :
    (p : CraftingFailed)
    → IsCraftingFailed p
    → RoundTrip (encode_crafting_failed p) (with_id decode_crafting_failed) (42, p)
unfolding encode_crafting_failed decode_crafting_failed
RoundTrip-crafting_failed p h = RoundTrip-with_id 42 (omega arith) (
    RoundTrip-seq _ (RoundTrip-u32 p.entity_id h.entity_id_fits)
      (RoundTrip-map _ (RoundTrip-optional_u32 p.resource h.resource_fits)))
