-- ===== src/ClientPacket.antt =====
-- crates/skysaga-game/src/lib.rs: what a client can ask for, and how its bytes are taken.
pub mod Safety
pub mod Sends
pub mod RoundTrip
pub mod Tests
use sky_saga_rs.Common.{
  ℕ, ◌+◌, ◌<◌, ◌≡◌, refl, sym, ap, ◌∙◌, Bool, true, false, inl, inr, Bool-cases, Option, none, some,
  List, [], ◌∷◌, take, ◌==◌, if◌then◌else◌, arith,
}
use sky_saga_rs.BitStream.Writer.{Write, BitWriter, ◌⨾◌, write_packet_id}
use sky_saga_rs.BitStream.Reader.{
  Result, BitReader, Read, ok, err, panic, from_bytes, read_packet_id, ◌>>=◌, pure, after,
}
use sky_saga_rs.Packets.Creation.{
  SaveCharacterName, CreateHomeworld, SetCharacterCustomisationData, decode_name, decode_homeworld,
  decode_set_customisation,
}
use sky_saga_rs.Packets.Photo.{NotifyPhotoCaptured, decode_notify_photo_captured}
use sky_saga_rs.Packets.Inventory.{
  InventoryItemTransferToSlot, InventoryItemSwap, InventoryItemTransferAll, InventoryItemDestroy,
  RequestUnEquipInventoryItem, RequestEquipInventoryItem, RequestUiSettingsSetActiveSlot,
  decode_transfer_to_slot, decode_swap, decode_transfer_all, decode_destroy, decode_unequip,
  decode_equip, decode_active_slot,
}
use sky_saga_rs.Packets.Hotbar.{RequestUiSettingsSlotChange, decode_request_ui_settings_slot_change}
use sky_saga_rs.Packets.Movement.{
  EntityMoved, SetLookAtDirection, decode_entity_moved, decode_set_look_at_direction,
}
use sky_saga_rs.Packets.Interaction.{
  ExecuteEntityAction, InteractWithEntity, decode_execute_entity_action,
  decode_interact_with_entity,
}
use sky_saga_rs.Packets.Voxel.{
  PerformAlwaysActions, PerformVoxelActions, decode_perform_always_actions,
  decode_perform_voxel_actions,
}
use sky_saga_rs.Packets.Crafting.{
  QueueRecipeOnEntity, CollectCraftedItemInSlot, CraftingQueryQueue, MoveItemToCraftingDropSlot,
  RemoveItemFromCraftingDropSlot, PerformCraftingDropSlotAction, decode_queue_recipe_on_entity,
  decode_collect_crafted_item_in_slot, decode_crafting_query_queue,
  decode_move_item_to_crafting_drop_slot, decode_remove_item_from_crafting_drop_slot,
  decode_perform_crafting_drop_slot_action,
}
use sky_saga_rs.Packets.TodoList.{
  TodoListTaskAdd, TodoListTaskRef, decode_todo_list_task_add, decode_todo_list_task_ref,
}
use sky_saga_rs.Packets.Combat.{
  EquippedItemUsed, PerformEntityActions, StopUsingEquippedItem, SetPlayerState, PlayerDodged,
  decode_equipped_item_used, decode_perform_entity_actions, decode_stop_using_equipped_item,
  decode_set_player_state, decode_player_dodged,
}
use sky_saga_rs.Packets.Mail.{
  MailRead, MailGiftSelected, DeleteMail, TakeMailAttachment, decode_mail_check, decode_mail_read,
  decode_mail_gift_selected, decode_delete_mail, decode_take_mail_attachment,
}
use sky_saga_rs.Packets.Chat.{decode_request_chat_channel_data}

pub data ClientPacket : Type 0 where
  client_connected client_ready_to_sync client_ready_to_play client_initial_sync_finished
        join_home_world i_fell_too_far player_fallen_off_the_world request_respawn :
      ClientPacket
  save_character_name : SaveCharacterName → ClientPacket
  create_homeworld : CreateHomeworld → ClientPacket
  set_character_customisation : SetCharacterCustomisationData → ClientPacket
  notify_photo_captured : NotifyPhotoCaptured → ClientPacket
  inventory_item_transfer_to_slot : InventoryItemTransferToSlot → ClientPacket
  inventory_item_swap : InventoryItemSwap → ClientPacket
  inventory_item_transfer_all : InventoryItemTransferAll → ClientPacket
  inventory_item_destroy : InventoryItemDestroy → ClientPacket
  request_un_equip_inventory_item : RequestUnEquipInventoryItem → ClientPacket
  request_equip_inventory_item : RequestEquipInventoryItem → ClientPacket
  request_ui_settings_slot_change : RequestUiSettingsSlotChange → ClientPacket
  request_ui_settings_set_active_slot : RequestUiSettingsSetActiveSlot → ClientPacket
  entity_moved : EntityMoved → ClientPacket
  set_look_at_direction : SetLookAtDirection → ClientPacket
  execute_entity_action : ExecuteEntityAction → ClientPacket
  interact_with_entity : InteractWithEntity → ClientPacket
  perform_always_actions : PerformAlwaysActions → ClientPacket
  perform_voxel_actions : PerformVoxelActions → ClientPacket
  queue_recipe_on_entity : QueueRecipeOnEntity → ClientPacket
  collect_crafted_item_in_slot : CollectCraftedItemInSlot → ClientPacket
  crafting_query_queue : CraftingQueryQueue → ClientPacket
  move_item_to_crafting_drop_slot : MoveItemToCraftingDropSlot → ClientPacket
  remove_item_from_crafting_drop_slot : RemoveItemFromCraftingDropSlot → ClientPacket
  perform_crafting_drop_slot_action : PerformCraftingDropSlotAction → ClientPacket
  todo_list_task_add : TodoListTaskAdd → ClientPacket
  todo_list_task_erase : TodoListTaskRef → ClientPacket
  todo_list_task_remove : TodoListTaskRef → ClientPacket
  todo_list_task_re_add : TodoListTaskRef → ClientPacket
  equipped_item_used : EquippedItemUsed → ClientPacket
  perform_entity_actions : PerformEntityActions → ClientPacket
  stop_using_equipped_item : StopUsingEquippedItem → ClientPacket
  set_player_state : SetPlayerState → ClientPacket
  player_dodged : PlayerDodged → ClientPacket
  mail_check : ClientPacket
  mail_read : MailRead → ClientPacket
  mail_gift_selected : MailGiftSelected → ClientPacket
  delete_mail : DeleteMail → ClientPacket
  request_chat_channel_data : ClientPacket
  take_mail_attachment : TakeMailAttachment → ClientPacket
  unknown : (wire_id : ℕ) (payload : List ℕ) → ClientPacket

abbrev pub id_user_packet_enum : ℕ
id_user_packet_enum = 134

abbrev pub unknown_payload_bytes : ℕ
unknown_payload_bytes = 24

abbrev pub join_home_world_id : ℕ
join_home_world_id = 84

-- `ClientPacket::unknown`
abbrev pub unknown_of : ℕ → List ℕ → ClientPacket
unknown_of wire_id bytes = unknown wire_id (take unknown_payload_bytes bytes)

-- The packets without a body: the wire ids of the combat packets are their own and the 134 before them.
unfoldable pub from_wire_id_with : ℕ → List ℕ → ClientPacket
from_wire_id_with wire_id bytes =
    if wire_id == 135
    then client_connected
    else if wire_id == 136
    then client_ready_to_sync
    else if wire_id == 137
    then client_ready_to_play
    else if wire_id == 138
    then client_initial_sync_finished
    else if wire_id == 24 + id_user_packet_enum
    then i_fell_too_far
    else if wire_id == 156 + id_user_packet_enum
    then player_fallen_off_the_world
    else if wire_id == 87 + id_user_packet_enum
    then request_respawn
    else unknown_of wire_id bytes

unfoldable pub from_wire_id : ℕ → ClientPacket
unfolding from_wire_id_with
from_wire_id wire_id = from_wire_id_with wire_id []

-- `decode(..).map(..).unwrap_or(..)`; a panic stays one.
abbrev pub unwrapped {ℓ} :
    {A : Type ℓ} → (A → ClientPacket) → ClientPacket → Result A × BitReader → Result ClientPacket
unwrapped f other (ok packet, r) = ok (f packet)
unwrapped f other (err e, r) = ok other
unwrapped f other (panic, r) = panic

-- The match on the id, from the reader after it.
unfoldable pub packet_of : ℕ → List ℕ → BitReader → Result ClientPacket
unfolding from_wire_id_with
packet_of id bytes r =
    let wire_id = id + id_user_packet_enum in
    let other = unknown_of wire_id bytes in
    if id == 108
    then unwrapped save_character_name other (decode_name r)
    else if id == 110
    then unwrapped create_homeworld other (decode_homeworld r)
    else if id == 37
    then unwrapped set_character_customisation other (decode_set_customisation r)
    else if id == 150
    then unwrapped notify_photo_captured other (decode_notify_photo_captured r)
    else if id == 51
    then unwrapped inventory_item_transfer_to_slot other (decode_transfer_to_slot r)
    else if id == 53
    then unwrapped inventory_item_swap other (decode_swap r)
    else if id == 52
    then unwrapped inventory_item_transfer_all other (decode_transfer_all r)
    else if id == 45
    then unwrapped inventory_item_destroy other (decode_destroy r)
    else if id == 14
    then unwrapped request_un_equip_inventory_item other (decode_unequip r)
    else if id == 13
    then unwrapped request_equip_inventory_item other (decode_equip r)
    else if id == 15
    then unwrapped request_ui_settings_slot_change other (decode_request_ui_settings_slot_change r)
    else if id == 16
    then unwrapped request_ui_settings_set_active_slot other (decode_active_slot r)
    else if id == 102
    then unwrapped entity_moved other (decode_entity_moved r)
    else if id == 106
    then unwrapped set_look_at_direction other (decode_set_look_at_direction r)
    else if id == 64
    then unwrapped execute_entity_action other (decode_execute_entity_action r)
    else if id == 20
    then unwrapped interact_with_entity other (decode_interact_with_entity r)
    else if id == join_home_world_id
    then ok join_home_world
    else if id == 19
    then unwrapped perform_always_actions other (decode_perform_always_actions r)
    else if id == 17
    then unwrapped perform_voxel_actions other (decode_perform_voxel_actions r)
    else if id == 39
    then unwrapped queue_recipe_on_entity other (decode_queue_recipe_on_entity r)
    else if id == 40
    then unwrapped collect_crafted_item_in_slot other (decode_collect_crafted_item_in_slot r)
    else if id == 41
    then unwrapped crafting_query_queue other (decode_crafting_query_queue r)
    else if id == 153
    then unwrapped move_item_to_crafting_drop_slot other (decode_move_item_to_crafting_drop_slot r)
    else if id == 154
    then unwrapped remove_item_from_crafting_drop_slot other
        (decode_remove_item_from_crafting_drop_slot r)
    else if id == 155
    then unwrapped perform_crafting_drop_slot_action other
        (decode_perform_crafting_drop_slot_action r)
    else if id == 146
    then unwrapped todo_list_task_add other (decode_todo_list_task_add r)
    else if id == 145
    then unwrapped todo_list_task_erase other (decode_todo_list_task_ref r)
    else if id == 147
    then unwrapped todo_list_task_remove other (decode_todo_list_task_ref r)
    else if id == 148
    then unwrapped todo_list_task_re_add other (decode_todo_list_task_ref r)
    else if id == 60
    then unwrapped equipped_item_used other (decode_equipped_item_used r)
    else if id == 18
    then unwrapped perform_entity_actions other (decode_perform_entity_actions r)
    else if id == 61
    then unwrapped stop_using_equipped_item other (decode_stop_using_equipped_item r)
    else if id == 35
    then unwrapped set_player_state other (decode_set_player_state r)
    else if id == 158
    then unwrapped player_dodged other (decode_player_dodged r)
    else if id == 96
    then unwrapped (λ u. mail_check) other (decode_mail_check r)
    else if id == 94
    then unwrapped mail_read other (decode_mail_read r)
    else if id == 95
    then unwrapped mail_gift_selected other (decode_mail_gift_selected r)
    else if id == 97
    then unwrapped delete_mail other (decode_delete_mail r)
    else if id == 91
    then unwrapped (λ u. request_chat_channel_data) other (decode_request_chat_channel_data r)
    else if id == 98
    then unwrapped take_mail_attachment other (decode_take_mail_attachment r)
    else ok (from_wire_id_with wire_id bytes)

abbrev pub after_id : List ℕ → Result ℕ × BitReader → Result ClientPacket
after_id bytes (ok id, r) = packet_of id bytes r
after_id bytes (err e, r) = ok (unknown_of 0 bytes)
after_id bytes (panic, r) = panic

-- `ClientPacket::parse`
unfoldable pub parse : List ℕ → Result ClientPacket
parse bytes = after_id bytes (read_packet_id (from_bytes bytes))
