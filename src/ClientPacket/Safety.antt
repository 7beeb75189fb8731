-- ===== src/ClientPacket/Safety.antt =====
-- No bytes of a client end the process of crates/skysaga-game/src/lib.rs: each comes to a packet.
use sky_saga_rs.Common.{ℕ, ◌+◌, ◌≡◌, refl, Bool, true, false, List, ◌==◌, if◌then◌else◌}
use sky_saga_rs.BitStream.Reader.{
  Result, BitReader, Read, ok, err, panic, from_bytes, read_packet_id,
}
use sky_saga_rs.BitStream.Reader.Safety.{Safe, IsReader, Comes, from_bytes-IsReader, Safe-packet_id}
use sky_saga_rs.ClientPacket.{
  ClientPacket, unknown_of, unwrapped, packet_of, after_id, parse, from_wire_id_with,
  id_user_packet_enum, join_home_world, join_home_world_id, save_character_name, create_homeworld,
  set_character_customisation, notify_photo_captured, inventory_item_transfer_to_slot,
  inventory_item_swap, inventory_item_transfer_all, inventory_item_destroy,
  request_un_equip_inventory_item, request_equip_inventory_item, request_ui_settings_slot_change,
  request_ui_settings_set_active_slot, entity_moved, set_look_at_direction, execute_entity_action,
  interact_with_entity, perform_always_actions, perform_voxel_actions, queue_recipe_on_entity,
  collect_crafted_item_in_slot, crafting_query_queue, move_item_to_crafting_drop_slot,
  remove_item_from_crafting_drop_slot, perform_crafting_drop_slot_action, todo_list_task_add,
  todo_list_task_erase, todo_list_task_remove, todo_list_task_re_add, equipped_item_used,
  perform_entity_actions, stop_using_equipped_item, set_player_state, player_dodged, mail_check,
  mail_read, mail_gift_selected, delete_mail, request_chat_channel_data, take_mail_attachment,
}
use sky_saga_rs.Packets.Safety.{
  Safe-name, Safe-homeworld, Safe-set_customisation, Safe-transfer_to_slot, Safe-swap,
  Safe-transfer_all, Safe-destroy, Safe-unequip, Safe-equip, Safe-active_slot,
}
use sky_saga_rs.Packets.Photo.Safety.{Safe-notify_photo_captured}
use sky_saga_rs.Packets.Hotbar.Safety.{Safe-request_ui_settings_slot_change}
use sky_saga_rs.Packets.Movement.Safety.{Safe-entity_moved, Safe-set_look_at_direction}
use sky_saga_rs.Packets.Interaction.Safety.{Safe-execute_entity_action, Safe-interact_with_entity}
use sky_saga_rs.Packets.Voxel.Safety.{Safe-perform_always_actions, Safe-perform_voxel_actions}
use sky_saga_rs.Packets.Crafting.Safety.{
  Safe-queue_recipe_on_entity, Safe-collect_crafted_item_in_slot, Safe-crafting_query_queue,
  Safe-move_item_to_crafting_drop_slot, Safe-remove_item_from_crafting_drop_slot,
  Safe-perform_crafting_drop_slot_action,
}
use sky_saga_rs.Packets.TodoList.Safety.{Safe-todo_list_task_add, Safe-todo_list_task_ref}
use sky_saga_rs.Packets.Combat.Safety.{
  Safe-equipped_item_used, Safe-perform_entity_actions, Safe-stop_using_equipped_item,
  Safe-set_player_state, Safe-player_dodged,
}
use sky_saga_rs.Packets.Mail.Safety.{
  Safe-mail_check, Safe-mail_read, Safe-mail_gift_selected, Safe-delete_mail,
  Safe-take_mail_attachment,
}
use sky_saga_rs.Packets.Chat.Safety.{Safe-request_chat_channel_data}

-- A packet comes of it.
abbrev pub IsPacket : Result ClientPacket → Type 0
IsPacket r = (p : ClientPacket) × (r ≡ ok p)

IsPacket-unwrapped {ℓ} :
    {A : Type ℓ} (f : A → ClientPacket) (other : ClientPacket) (q : Result A × BitReader)
    → Comes q
    → IsPacket (unwrapped f other q)
IsPacket-unwrapped f other (ok packet, r) h = (f packet, refl)
IsPacket-unwrapped f other (err e, r) h = (other, refl)
IsPacket-unwrapped f other (panic, r) h = absurd h

IsPacket-if :
    (b : Bool) {x y : Result ClientPacket} → IsPacket x → IsPacket y → IsPacket (if b then x else y)
IsPacket-if true h k = h
IsPacket-if false h k = k

infixr 5 ◌▹◌
abbrev ◌▹◌ : {A : Type 0} {B : Type 0} → (A → B) → A → B
f ▹ a = f a

packet_of-IsPacket :
    (id : ℕ) (bytes : List ℕ) (r : BitReader) → IsReader r → IsPacket (packet_of id bytes r)
unfolding packet_of
packet_of-IsPacket id bytes r h =
    case 108 save_character_name Safe-name
    ▹ case 110 create_homeworld Safe-homeworld
    ▹ case 37 set_character_customisation Safe-set_customisation
    ▹ case 150 notify_photo_captured Safe-notify_photo_captured
    ▹ case 51 inventory_item_transfer_to_slot Safe-transfer_to_slot
    ▹ case 53 inventory_item_swap Safe-swap
    ▹ case 52 inventory_item_transfer_all Safe-transfer_all
    ▹ case 45 inventory_item_destroy Safe-destroy
    ▹ case 14 request_un_equip_inventory_item Safe-unequip
    ▹ case 13 request_equip_inventory_item Safe-equip
    ▹ case 15 request_ui_settings_slot_change Safe-request_ui_settings_slot_change
    ▹ case 16 request_ui_settings_set_active_slot Safe-active_slot
    ▹ case 102 entity_moved Safe-entity_moved
    ▹ case 106 set_look_at_direction Safe-set_look_at_direction
    ▹ case 64 execute_entity_action Safe-execute_entity_action
    ▹ case 20 interact_with_entity Safe-interact_with_entity
    ▹ IsPacket-if (id == join_home_world_id) (join_home_world, refl)
    ▹ case 19 perform_always_actions Safe-perform_always_actions
    ▹ case 17 perform_voxel_actions Safe-perform_voxel_actions
    ▹ case 39 queue_recipe_on_entity Safe-queue_recipe_on_entity
    ▹ case 40 collect_crafted_item_in_slot Safe-collect_crafted_item_in_slot
    ▹ case 41 crafting_query_queue Safe-crafting_query_queue
    ▹ case 153 move_item_to_crafting_drop_slot Safe-move_item_to_crafting_drop_slot
    ▹ case 154 remove_item_from_crafting_drop_slot Safe-remove_item_from_crafting_drop_slot
    ▹ case 155 perform_crafting_drop_slot_action Safe-perform_crafting_drop_slot_action
    ▹ case 146 todo_list_task_add Safe-todo_list_task_add
    ▹ case 145 todo_list_task_erase Safe-todo_list_task_ref
    ▹ case 147 todo_list_task_remove Safe-todo_list_task_ref
    ▹ case 148 todo_list_task_re_add Safe-todo_list_task_ref
    ▹ case 60 equipped_item_used Safe-equipped_item_used
    ▹ case 18 perform_entity_actions Safe-perform_entity_actions
    ▹ case 61 stop_using_equipped_item Safe-stop_using_equipped_item
    ▹ case 35 set_player_state Safe-set_player_state
    ▹ case 158 player_dodged Safe-player_dodged
    ▹ case 96 (λ u. mail_check) Safe-mail_check
    ▹ case 94 mail_read Safe-mail_read
    ▹ case 95 mail_gift_selected Safe-mail_gift_selected
    ▹ case 97 delete_mail Safe-delete_mail
    ▹ case 91 (λ u. request_chat_channel_data) Safe-request_chat_channel_data
    ▹ case 98 take_mail_attachment Safe-take_mail_attachment
    ▹ (from_wire_id_with (id + id_user_packet_enum) bytes, refl)
  where
    case :
        {A : Type 0} {m : Read A} {y : Result ClientPacket} (n : ℕ) (f : A → ClientPacket)
        → Safe m
        → IsPacket y
        → IsPacket
            (if id == n then unwrapped f (unknown_of (id + id_user_packet_enum) bytes) (m r) else y)
    case {m = m} n f s =
        IsPacket-if (id == n)
          (IsPacket-unwrapped f (unknown_of (id + id_user_packet_enum) bytes) (m r) (s.comes r h))

-- Whatever bytes a client sends, they come to a packet, be it one that is unknown: no read of any decoder
-- leaves its buffer.
pub parse-IsPacket : (bytes : List ℕ) → IsPacket (parse bytes)
unfolding parse
parse-IsPacket bytes =
    taken (read_packet_id (from_bytes bytes))
      (Safe-packet_id.comes (from_bytes bytes) (from_bytes-IsReader bytes))
  where
    taken : (q : Result ℕ × BitReader) → Comes q → IsPacket (after_id bytes q)
    taken (ok id, r) h = packet_of-IsPacket id bytes r h
    taken (err e, r) h = (unknown_of 0 bytes, refl)
    taken (panic, r) h = absurd h
