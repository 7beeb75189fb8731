-- ===== src/ClientPacket/Sends.antt =====
-- What clients encode for crates/skysaga-game/src/lib.rs.
use sky_saga_rs.Common.{◌<◌, ◌^◌}
use sky_saga_rs.BitStream.Writer.{Write, ◌⨾◌, write_packet_id}
use sky_saga_rs.BitStream.RoundTrip.{IsShortString}
use sky_saga_rs.Packets.Combat.{
  encode_i_fell_too_far, encode_player_fallen_off_the_world, encode_request_respawn,
}
use sky_saga_rs.Packets.Customisation.{IsCustomisation}
use sky_saga_rs.ClientPacket.{
  ClientPacket, i_fell_too_far, player_fallen_off_the_world, request_respawn, save_character_name,
  create_homeworld, set_character_customisation, inventory_item_transfer_to_slot,
  inventory_item_swap, inventory_item_transfer_all, inventory_item_destroy,
  request_un_equip_inventory_item, request_equip_inventory_item, request_ui_settings_slot_change,
  request_ui_settings_set_active_slot, entity_moved, set_look_at_direction, execute_entity_action,
  interact_with_entity, perform_voxel_actions, queue_recipe_on_entity, collect_crafted_item_in_slot,
  crafting_query_queue, move_item_to_crafting_drop_slot, remove_item_from_crafting_drop_slot,
  perform_crafting_drop_slot_action, todo_list_task_add, todo_list_task_erase,
  todo_list_task_remove, todo_list_task_re_add, equipped_item_used, perform_entity_actions,
  stop_using_equipped_item, set_player_state, player_dodged, mail_check, mail_read,
  mail_gift_selected, delete_mail, request_chat_channel_data, take_mail_attachment,
}
use sky_saga_rs.Packets.Creation.{
  SaveCharacterName, CreateHomeworld, SetCharacterCustomisationData, encode_name, encode_homeworld,
  encode_set_customisation,
}
use sky_saga_rs.Packets.Inventory.{
  InventoryItemTransferToSlot, InventoryItemSwap, InventoryItemTransferAll, InventoryItemDestroy,
  RequestUnEquipInventoryItem, RequestEquipInventoryItem, RequestUiSettingsSetActiveSlot,
  encode_transfer_to_slot, encode_swap, encode_transfer_all, encode_destroy, encode_unequip,
  encode_equip, encode_active_slot, IsInventoryItemTransferToSlot, IsInventoryItemSwap,
  IsInventoryItemTransferAll, IsInventoryItemDestroy, IsRequestUnEquipInventoryItem,
  IsRequestEquipInventoryItem, IsRequestUiSettingsSetActiveSlot,
}
use sky_saga_rs.Packets.Hotbar.{
  RequestUiSettingsSlotChange, encode_request_ui_settings_slot_change,
  IsRequestUiSettingsSlotChange,
}
use sky_saga_rs.Packets.Movement.{
  EntityMoved, SetLookAtDirection, encode_entity_moved, encode_set_look_at_direction, IsEntityMoved,
  IsSetLookAtDirection,
}
use sky_saga_rs.Packets.Interaction.{
  ExecuteEntityAction, InteractWithEntity, encode_execute_entity_action,
  encode_interact_with_entity, IsExecuteEntityAction, IsInteractWithEntity,
}
use sky_saga_rs.Packets.Voxel.{
  PerformVoxelActions, encode_perform_voxel_actions, IsPerformVoxelActions,
}
use sky_saga_rs.Packets.Crafting.{
  QueueRecipeOnEntity, CollectCraftedItemInSlot, CraftingQueryQueue, MoveItemToCraftingDropSlot,
  RemoveItemFromCraftingDropSlot, PerformCraftingDropSlotAction, encode_queue_recipe_on_entity,
  encode_collect_crafted_item_in_slot, encode_crafting_query_queue,
  encode_move_item_to_crafting_drop_slot, encode_remove_item_from_crafting_drop_slot,
  encode_perform_crafting_drop_slot_action, IsQueueRecipeOnEntity, IsCollectCraftedItemInSlot,
  IsCraftingQueryQueue, IsMoveItemToCraftingDropSlot, IsRemoveItemFromCraftingDropSlot,
  IsPerformCraftingDropSlotAction,
}
use sky_saga_rs.Packets.TodoList.{
  TodoListTaskAdd, TodoListTaskRef, encode_todo_list_task_add, encode_todo_list_task_ref,
  IsTodoListTaskAdd, IsTodoListTaskRef,
}
use sky_saga_rs.Packets.Combat.{
  EquippedItemUsed, PerformEntityActions, StopUsingEquippedItem, SetPlayerState, PlayerDodged,
  encode_equipped_item_used, encode_perform_entity_actions, encode_stop_using_equipped_item,
  encode_set_player_state, encode_player_dodged, IsEquippedItemUsed, IsPerformEntityActions,
  IsStopUsingEquippedItem, IsSetPlayerState, IsPlayerDodged,
}
use sky_saga_rs.Packets.Mail.{
  MailRead, MailGiftSelected, DeleteMail, TakeMailAttachment, encode_mail_check, encode_mail_read,
  encode_mail_gift_selected, encode_delete_mail, encode_take_mail_attachment, IsMailRead,
  IsMailGiftSelected, IsDeleteMail, IsTakeMailAttachment,
}
use sky_saga_rs.Packets.Chat.{encode_request_chat_channel_data}

-- What a client writes for a packet, with each field within its width. The encoders of the packets of the
-- character's creation and of the quest log leave the id to their caller.
pub data Sends : ClientPacket → Write → Type 0 where
  sends_save_character_name :
      (p : SaveCharacterName)
      → IsShortString p.name
      → Sends (save_character_name p) (write_packet_id 108 ⨾ encode_name p)
  sends_create_homeworld :
      (p : CreateHomeworld)
      → IsShortString p.home_island_name
      → IsShortString p.character_uuid
      → Sends (create_homeworld p) (write_packet_id 110 ⨾ encode_homeworld p)
  sends_set_character_customisation :
      (p : SetCharacterCustomisationData)
      → p.entity_id < 2 ^ 32
      → IsCustomisation p.customisation
      → Sends (set_character_customisation p) (write_packet_id 37 ⨾ encode_set_customisation p)
  sends_inventory_item_transfer_to_slot :
      (p : InventoryItemTransferToSlot)
      → IsInventoryItemTransferToSlot p
      → Sends (inventory_item_transfer_to_slot p) (encode_transfer_to_slot p)
  sends_inventory_item_swap :
      (p : InventoryItemSwap)
      → IsInventoryItemSwap p
      → Sends (inventory_item_swap p) (encode_swap p)
  sends_inventory_item_transfer_all :
      (p : InventoryItemTransferAll)
      → IsInventoryItemTransferAll p
      → Sends (inventory_item_transfer_all p) (encode_transfer_all p)
  sends_inventory_item_destroy :
      (p : InventoryItemDestroy)
      → IsInventoryItemDestroy p
      → Sends (inventory_item_destroy p) (encode_destroy p)
  sends_request_un_equip_inventory_item :
      (p : RequestUnEquipInventoryItem)
      → IsRequestUnEquipInventoryItem p
      → Sends (request_un_equip_inventory_item p) (encode_unequip p)
  sends_request_equip_inventory_item :
      (p : RequestEquipInventoryItem)
      → IsRequestEquipInventoryItem p
      → Sends (request_equip_inventory_item p) (encode_equip p)
  sends_request_ui_settings_slot_change :
      (p : RequestUiSettingsSlotChange)
      → IsRequestUiSettingsSlotChange p
      → Sends (request_ui_settings_slot_change p) (encode_request_ui_settings_slot_change p)
  sends_request_ui_settings_set_active_slot :
      (p : RequestUiSettingsSetActiveSlot)
      → IsRequestUiSettingsSetActiveSlot p
      → Sends (request_ui_settings_set_active_slot p) (encode_active_slot p)
  sends_entity_moved :
      (p : EntityMoved) → IsEntityMoved p → Sends (entity_moved p) (encode_entity_moved p)
  sends_set_look_at_direction :
      (p : SetLookAtDirection)
      → IsSetLookAtDirection p
      → Sends (set_look_at_direction p) (encode_set_look_at_direction p)
  sends_execute_entity_action :
      (p : ExecuteEntityAction)
      → IsExecuteEntityAction p
      → Sends (execute_entity_action p) (encode_execute_entity_action p)
  sends_interact_with_entity :
      (p : InteractWithEntity)
      → IsInteractWithEntity p
      → Sends (interact_with_entity p) (encode_interact_with_entity p)
  sends_perform_voxel_actions :
      (p : PerformVoxelActions)
      → IsPerformVoxelActions p
      → Sends (perform_voxel_actions p) (encode_perform_voxel_actions p)
  sends_queue_recipe_on_entity :
      (p : QueueRecipeOnEntity)
      → IsQueueRecipeOnEntity p
      → Sends (queue_recipe_on_entity p) (encode_queue_recipe_on_entity p)
  sends_collect_crafted_item_in_slot :
      (p : CollectCraftedItemInSlot)
      → IsCollectCraftedItemInSlot p
      → Sends (collect_crafted_item_in_slot p) (encode_collect_crafted_item_in_slot p)
  sends_crafting_query_queue :
      (p : CraftingQueryQueue)
      → IsCraftingQueryQueue p
      → Sends (crafting_query_queue p) (encode_crafting_query_queue p)
  sends_move_item_to_crafting_drop_slot :
      (p : MoveItemToCraftingDropSlot)
      → IsMoveItemToCraftingDropSlot p
      → Sends (move_item_to_crafting_drop_slot p) (encode_move_item_to_crafting_drop_slot p)
  sends_remove_item_from_crafting_drop_slot :
      (p : RemoveItemFromCraftingDropSlot)
      → IsRemoveItemFromCraftingDropSlot p
      → Sends (remove_item_from_crafting_drop_slot p) (encode_remove_item_from_crafting_drop_slot p)
  sends_perform_crafting_drop_slot_action :
      (p : PerformCraftingDropSlotAction)
      → IsPerformCraftingDropSlotAction p
      → Sends (perform_crafting_drop_slot_action p) (encode_perform_crafting_drop_slot_action p)
  sends_todo_list_task_add :
      (p : TodoListTaskAdd)
      → IsTodoListTaskAdd p
      → Sends (todo_list_task_add p) (write_packet_id 146 ⨾ encode_todo_list_task_add p)
  sends_todo_list_task_erase :
      (p : TodoListTaskRef)
      → IsTodoListTaskRef p
      → Sends (todo_list_task_erase p) (write_packet_id 145 ⨾ encode_todo_list_task_ref p)
  sends_todo_list_task_remove :
      (p : TodoListTaskRef)
      → IsTodoListTaskRef p
      → Sends (todo_list_task_remove p) (write_packet_id 147 ⨾ encode_todo_list_task_ref p)
  sends_todo_list_task_re_add :
      (p : TodoListTaskRef)
      → IsTodoListTaskRef p
      → Sends (todo_list_task_re_add p) (write_packet_id 148 ⨾ encode_todo_list_task_ref p)
  sends_equipped_item_used :
      (p : EquippedItemUsed)
      → IsEquippedItemUsed p
      → Sends (equipped_item_used p) (encode_equipped_item_used p)
  sends_perform_entity_actions :
      (p : PerformEntityActions)
      → IsPerformEntityActions p
      → Sends (perform_entity_actions p) (encode_perform_entity_actions p)
  sends_stop_using_equipped_item :
      (p : StopUsingEquippedItem)
      → IsStopUsingEquippedItem p
      → Sends (stop_using_equipped_item p) (encode_stop_using_equipped_item p)
  sends_set_player_state :
      (p : SetPlayerState)
      → IsSetPlayerState p
      → Sends (set_player_state p) (encode_set_player_state p)
  sends_player_dodged :
      (p : PlayerDodged) → IsPlayerDodged p → Sends (player_dodged p) (encode_player_dodged p)
  sends_mail_check : Sends mail_check (encode_mail_check)
  sends_mail_read : (p : MailRead) → IsMailRead p → Sends (mail_read p) (encode_mail_read p)
  sends_mail_gift_selected :
      (p : MailGiftSelected)
      → IsMailGiftSelected p
      → Sends (mail_gift_selected p) (encode_mail_gift_selected p)
  sends_delete_mail :
      (p : DeleteMail) → IsDeleteMail p → Sends (delete_mail p) (encode_delete_mail p)
  sends_request_chat_channel_data :
      Sends request_chat_channel_data (encode_request_chat_channel_data)
  sends_take_mail_attachment :
      (p : TakeMailAttachment)
      → IsTakeMailAttachment p
      → Sends (take_mail_attachment p) (encode_take_mail_attachment p)
  sends_i_fell_too_far : Sends i_fell_too_far encode_i_fell_too_far
  sends_player_fallen_off_the_world :
      Sends player_fallen_off_the_world encode_player_fallen_off_the_world
  sends_request_respawn : Sends request_respawn encode_request_respawn
