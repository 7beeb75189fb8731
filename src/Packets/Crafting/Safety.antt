-- ===== src/Packets/Crafting/Safety.antt =====
-- The decoders of crafting.rs end no process, whatever the bytes.

use sky_saga_rs.Bits.{ranged_bits}
use sky_saga_rs.BitStream.Reader.Safety.{
  Safe, Safe-pure, Safe-bind, Safe-bit, Safe-u32, Safe-bits_le, Safe-optional_u32, Safe-string,
}
use sky_saga_rs.Packets.Fields.{Safe-list}
use sky_saga_rs.Packets.Crafting.{
  spec_list_default, sub_resource_default, max_crafting_slot, drop_slots, max_inventory_slot,
  decode_item_spec, decode_queue_recipe_on_entity, decode_collect_crafted_item_in_slot,
  decode_crafting_query_queue, decode_move_item_to_crafting_drop_slot,
  decode_remove_item_from_crafting_drop_slot, decode_perform_crafting_drop_slot_action,
  decode_new_resource_encountered, decode_crafting_notification, decode_crafting_failed,
}

pub Safe-item_spec : Safe decode_item_spec
unfolding decode_item_spec
Safe-item_spec = Safe-bind _ Safe-optional_u32 (λ resource.
    Safe-bind _ (Safe-list sub_resource_default Safe-optional_u32) (λ sub_resources.
      Safe-bind _ Safe-optional_u32
        (λ material_resource. Safe-bind _ Safe-string (λ item_uuid. Safe-pure _))))

pub Safe-queue_recipe_on_entity : Safe decode_queue_recipe_on_entity
unfolding decode_queue_recipe_on_entity
Safe-queue_recipe_on_entity = Safe-bind _ Safe-u32 (λ entity_id.
    Safe-bind _ Safe-optional_u32 (λ item_id.
      Safe-bind _ (Safe-list spec_list_default Safe-item_spec)
        (λ selected_item_specs. Safe-pure _)))

pub Safe-collect_crafted_item_in_slot : Safe decode_collect_crafted_item_in_slot
unfolding decode_collect_crafted_item_in_slot
Safe-collect_crafted_item_in_slot = Safe-bind _ Safe-u32 (λ entity_id.
    Safe-bind _ (Safe-bits_le (ranged_bits max_crafting_slot))
      (λ slot. Safe-bind _ Safe-bit (λ immediate. Safe-pure _)))

pub Safe-crafting_query_queue : Safe decode_crafting_query_queue
unfolding decode_crafting_query_queue
Safe-crafting_query_queue = Safe-bind _ Safe-u32 (λ entity_id. Safe-pure _)

pub Safe-move_item_to_crafting_drop_slot : Safe decode_move_item_to_crafting_drop_slot
unfolding decode_move_item_to_crafting_drop_slot
Safe-move_item_to_crafting_drop_slot =
    Safe-bind _ (Safe-bits_le (ranged_bits drop_slots)) (λ slot_type.
      Safe-bind _ (Safe-bits_le (ranged_bits max_inventory_slot)) (λ slot. Safe-pure _))

pub Safe-remove_item_from_crafting_drop_slot : Safe decode_remove_item_from_crafting_drop_slot
unfolding decode_remove_item_from_crafting_drop_slot
Safe-remove_item_from_crafting_drop_slot =
    Safe-bind _ (Safe-bits_le (ranged_bits drop_slots)) (λ slot_type. Safe-pure _)

pub Safe-perform_crafting_drop_slot_action : Safe decode_perform_crafting_drop_slot_action
unfolding decode_perform_crafting_drop_slot_action
Safe-perform_crafting_drop_slot_action =
    Safe-bind _ (Safe-bits_le (ranged_bits drop_slots)) (λ slot_type. Safe-pure _)

pub Safe-new_resource_encountered : Safe decode_new_resource_encountered
unfolding decode_new_resource_encountered
Safe-new_resource_encountered =
    Safe-bind _ Safe-u32 (λ entity_id. Safe-bind _ Safe-item_spec (λ item_spec. Safe-pure _))

pub Safe-crafting_notification : Safe decode_crafting_notification
unfolding decode_crafting_notification
Safe-crafting_notification = Safe-bind _ Safe-optional_u32 (λ resource.
    Safe-bind _ Safe-item_spec
      (λ item_spec_a. Safe-bind _ Safe-item_spec (λ item_spec_b. Safe-pure _)))

pub Safe-crafting_failed : Safe decode_crafting_failed
unfolding decode_crafting_failed
Safe-crafting_failed =
    Safe-bind _ Safe-u32 (λ entity_id. Safe-bind _ Safe-optional_u32 (λ resource. Safe-pure _))
