-- ===== src/ClientPacket/RoundTrip.antt =====
-- What clients encode, crates/skysaga-game/src/lib.rs takes for what it is.
use sky_saga_rs.Common.{ℕ, ◌+◌, ◌<◌, ◌≡◌, refl, ap, ◌∙◌, List, arith}
use sky_saga_rs.BitStream.Writer.{Write, BitWriter, ◌⨾◌, write_packet_id}
use sky_saga_rs.BitStream.Reader.{
  Result, BitReader, Read, ok, err, panic, from_bytes, read_packet_id, pure, after,
}
use sky_saga_rs.BitStream.Writer as Writer
use sky_saga_rs.BitStream.RoundTrip.{
  RoundTrip, RoundTrip-read, RoundTrip-packet_id, RoundTrip-seq, RoundTrip-pure,
}
use sky_saga_rs.Packets.Combat.{
  encode_i_fell_too_far, encode_player_fallen_off_the_world, encode_request_respawn,
}
use sky_saga_rs.Packets.Creation.{with_id, RoundTrip-with_id}
use sky_saga_rs.ClientPacket.{
  ClientPacket, unwrapped, packet_of, after_id, parse, unknown_of, id_user_packet_enum,
  from_wire_id_with, i_fell_too_far, player_fallen_off_the_world, request_respawn, mail_check,
  request_chat_channel_data,
}
use sky_saga_rs.Packets.Mail.{decode_mail_check}
use sky_saga_rs.Packets.Chat.{decode_request_chat_channel_data}
use sky_saga_rs.Packets.Creation.{RoundTrip-name, RoundTrip-homeworld, RoundTrip-set_customisation}
use sky_saga_rs.Packets.Inventory.{
  RoundTrip-transfer_to_slot, RoundTrip-swap, RoundTrip-transfer_all, RoundTrip-destroy,
  RoundTrip-unequip, RoundTrip-equip, RoundTrip-active_slot,
}
use sky_saga_rs.Packets.Hotbar.RoundTrip.{RoundTrip-request_ui_settings_slot_change}
use sky_saga_rs.Packets.Movement.RoundTrip.{RoundTrip-entity_moved, RoundTrip-set_look_at_direction}
use sky_saga_rs.Packets.Interaction.RoundTrip.{
  RoundTrip-execute_entity_action, RoundTrip-interact_with_entity,
}
use sky_saga_rs.Packets.Voxel.RoundTrip.{RoundTrip-perform_voxel_actions}
use sky_saga_rs.Packets.Crafting.RoundTrip.{
  RoundTrip-queue_recipe_on_entity, RoundTrip-collect_crafted_item_in_slot,
  RoundTrip-crafting_query_queue, RoundTrip-move_item_to_crafting_drop_slot,
  RoundTrip-remove_item_from_crafting_drop_slot, RoundTrip-perform_crafting_drop_slot_action,
}
use sky_saga_rs.Packets.TodoList.RoundTrip.{
  RoundTrip-todo_list_task_add, RoundTrip-todo_list_task_ref,
}
use sky_saga_rs.Packets.Combat.RoundTrip.{
  RoundTrip-equipped_item_used, RoundTrip-perform_entity_actions,
  RoundTrip-stop_using_equipped_item, RoundTrip-set_player_state, RoundTrip-player_dodged,
}
use sky_saga_rs.Packets.Mail.RoundTrip.{
  RoundTrip-mail_check, RoundTrip-mail_read, RoundTrip-mail_gift_selected, RoundTrip-delete_mail,
  RoundTrip-take_mail_attachment,
}
use sky_saga_rs.Packets.Chat.RoundTrip.{RoundTrip-request_chat_channel_data}
use sky_saga_rs.ClientPacket.Sends.{
  Sends, sends_save_character_name, sends_create_homeworld, sends_set_character_customisation,
  sends_inventory_item_transfer_to_slot, sends_inventory_item_swap,
  sends_inventory_item_transfer_all, sends_inventory_item_destroy,
  sends_request_un_equip_inventory_item, sends_request_equip_inventory_item,
  sends_request_ui_settings_slot_change, sends_request_ui_settings_set_active_slot,
  sends_entity_moved, sends_set_look_at_direction, sends_execute_entity_action,
  sends_interact_with_entity, sends_perform_voxel_actions, sends_queue_recipe_on_entity,
  sends_collect_crafted_item_in_slot, sends_crafting_query_queue,
  sends_move_item_to_crafting_drop_slot, sends_remove_item_from_crafting_drop_slot,
  sends_perform_crafting_drop_slot_action, sends_todo_list_task_add, sends_todo_list_task_erase,
  sends_todo_list_task_remove, sends_todo_list_task_re_add, sends_equipped_item_used,
  sends_perform_entity_actions, sends_stop_using_equipped_item, sends_set_player_state,
  sends_player_dodged, sends_mail_check, sends_mail_read, sends_mail_gift_selected,
  sends_delete_mail, sends_request_chat_channel_data, sends_take_mail_attachment,
  sends_i_fell_too_far, sends_player_fallen_off_the_world, sends_request_respawn,
}

ok-eq : {A : Type 0} {x y : A} → Result.ok x ≡ Result.ok y → x ≡ y
ok-eq {x = x} h = ap (λ r. elim r [ ok z ↦ z | _ ↦ x ]) h

-- A packet whose id leads to its decoder is taken for itself.
parse-with_id :
    {A : Type 0} (k : A → ClientPacket) (m : Read A) (id : ℕ) (v : A) (f : Write)
    → ((bytes : List ℕ) (r : BitReader)
        → packet_of id bytes r ≡ unwrapped k (unknown_of (id + id_user_packet_enum) bytes) (m r))
    → RoundTrip f (with_id m) (id, v)
    → parse (f Writer.new).bytes ≡ ok (k v)
unfolding parse
parse-with_id {A} k m id v f leads t =
    taken (read_packet_id (from_bytes bytes)) (ap (λ q. q.0) (RoundTrip-read t))
  where
    bytes : List ℕ
    bytes = (f Writer.new).bytes

    packed : ℕ → Result A × BitReader → Result (ℕ × A) × BitReader
    packed i q = after (λ packet. pure (i, packet)) q

    decoded :
        (i : ℕ) (q : Result A × BitReader) → (packed i q).0 ≡ ok (id, v) → (i ≡ id) × (q.0 ≡ ok v)
    decoded i (ok packet, r) e = let both = ok-eq e in (ap (λ x. x.0) both, ap (λ x. ok x.1) both)
    decoded i (err x, r) e = ground arith
    decoded i (panic, r) e = ground arith

    unwrapped_ok :
        (other : ClientPacket) (q : Result A × BitReader)
        → q.0 ≡ ok v
        → unwrapped k other q ≡ ok (k v)
    unwrapped_ok other (ok packet, r) e = ap (λ x. ok (k x)) (ok-eq e)
    unwrapped_ok other (err x, r) e = ground arith
    unwrapped_ok other (panic, r) e = ground arith

    taken :
        (q : Result ℕ × BitReader)
        → (after (λ i. λ r. packed i (m r)) q).0 ≡ ok (id, v)
        → after_id bytes q ≡ ok (k v)
    taken (ok i, r) e =
        let (same, value) = decoded i (m r) e in
        ap (λ j. packet_of j bytes r) same ∙ (leads bytes r ∙ unwrapped_ok _ (m r) value)
    taken (err x, r) e = ground arith
    taken (panic, r) e = ground arith

-- A packet that is its id alone.
RoundTrip-bare :
    (id : ℕ)
    → id + 134 < 511
    → RoundTrip (write_packet_id id) (with_id (pure {A = Unit {0}} tt)) (id, tt)
RoundTrip-bare id h = RoundTrip-seq {g = λ w. w} _ (RoundTrip-packet_id id h) (RoundTrip-pure _)

-- Each packet that a client can encode, with each field within its width, is taken for itself from the
-- bytes of its encoding. Left out are the two packets that the source only decodes.
pub parse-Sends : {p : ClientPacket} {f : Write} → Sends p f → parse (f Writer.new).bytes ≡ ok p
unfolding packet_of from_wire_id_with encode_i_fell_too_far encode_player_fallen_off_the_world
    encode_request_respawn
parse-Sends (sends_save_character_name p h) =
    parse-with_id _ _ 108 p _ (λ bytes. λ r. refl)
      (RoundTrip-with_id 108 (omega arith) (RoundTrip-name p h))
parse-Sends (sends_create_homeworld p h k) =
    parse-with_id _ _ 110 p _ (λ bytes. λ r. refl)
      (RoundTrip-with_id 110 (omega arith) (RoundTrip-homeworld p h k))
parse-Sends (sends_set_character_customisation p h k) =
    parse-with_id _ _ 37 p _ (λ bytes. λ r. refl)
      (RoundTrip-with_id 37 (omega arith) (RoundTrip-set_customisation p h k))
parse-Sends (sends_inventory_item_transfer_to_slot p h) =
    parse-with_id _ _ 51 p _ (λ bytes. λ r. refl) (RoundTrip-transfer_to_slot p h)
parse-Sends (sends_inventory_item_swap p h) =
    parse-with_id _ _ 53 p _ (λ bytes. λ r. refl) (RoundTrip-swap p h)
parse-Sends (sends_inventory_item_transfer_all p h) =
    parse-with_id _ _ 52 p _ (λ bytes. λ r. refl) (RoundTrip-transfer_all p h)
parse-Sends (sends_inventory_item_destroy p h) =
    parse-with_id _ _ 45 p _ (λ bytes. λ r. refl) (RoundTrip-destroy p h)
parse-Sends (sends_request_un_equip_inventory_item p h) =
    parse-with_id _ _ 14 p _ (λ bytes. λ r. refl) (RoundTrip-unequip p h)
parse-Sends (sends_request_equip_inventory_item p h) =
    parse-with_id _ _ 13 p _ (λ bytes. λ r. refl) (RoundTrip-equip p h)
parse-Sends (sends_request_ui_settings_slot_change p h) =
    parse-with_id _ _ 15 p _ (λ bytes. λ r. refl) (RoundTrip-request_ui_settings_slot_change p h)
parse-Sends (sends_request_ui_settings_set_active_slot p h) =
    parse-with_id _ _ 16 p _ (λ bytes. λ r. refl) (RoundTrip-active_slot p h)
parse-Sends (sends_entity_moved p h) =
    parse-with_id _ _ 102 p _ (λ bytes. λ r. refl) (RoundTrip-entity_moved p h)
parse-Sends (sends_set_look_at_direction p h) =
    parse-with_id _ _ 106 p _ (λ bytes. λ r. refl) (RoundTrip-set_look_at_direction p h)
parse-Sends (sends_execute_entity_action p h) =
    parse-with_id _ _ 64 p _ (λ bytes. λ r. refl) (RoundTrip-execute_entity_action p h)
parse-Sends (sends_interact_with_entity p h) =
    parse-with_id _ _ 20 p _ (λ bytes. λ r. refl) (RoundTrip-interact_with_entity p h)
parse-Sends (sends_perform_voxel_actions p h) =
    parse-with_id _ _ 17 p _ (λ bytes. λ r. refl) (RoundTrip-perform_voxel_actions p h)
parse-Sends (sends_queue_recipe_on_entity p h) =
    parse-with_id _ _ 39 p _ (λ bytes. λ r. refl) (RoundTrip-queue_recipe_on_entity p h)
parse-Sends (sends_collect_crafted_item_in_slot p h) =
    parse-with_id _ _ 40 p _ (λ bytes. λ r. refl) (RoundTrip-collect_crafted_item_in_slot p h)
parse-Sends (sends_crafting_query_queue p h) =
    parse-with_id _ _ 41 p _ (λ bytes. λ r. refl) (RoundTrip-crafting_query_queue p h)
parse-Sends (sends_move_item_to_crafting_drop_slot p h) =
    parse-with_id _ _ 153 p _ (λ bytes. λ r. refl) (RoundTrip-move_item_to_crafting_drop_slot p h)
parse-Sends (sends_remove_item_from_crafting_drop_slot p h) =
    parse-with_id _ _ 154 p _ (λ bytes. λ r. refl)
      (RoundTrip-remove_item_from_crafting_drop_slot p h)
parse-Sends (sends_perform_crafting_drop_slot_action p h) =
    parse-with_id _ _ 155 p _ (λ bytes. λ r. refl) (RoundTrip-perform_crafting_drop_slot_action p h)
parse-Sends (sends_todo_list_task_add p h) =
    parse-with_id _ _ 146 p _ (λ bytes. λ r. refl)
      (RoundTrip-with_id 146 (omega arith) (RoundTrip-todo_list_task_add p h))
parse-Sends (sends_todo_list_task_erase p h) =
    parse-with_id _ _ 145 p _ (λ bytes. λ r. refl)
      (RoundTrip-with_id 145 (omega arith) (RoundTrip-todo_list_task_ref p h))
parse-Sends (sends_todo_list_task_remove p h) =
    parse-with_id _ _ 147 p _ (λ bytes. λ r. refl)
      (RoundTrip-with_id 147 (omega arith) (RoundTrip-todo_list_task_ref p h))
parse-Sends (sends_todo_list_task_re_add p h) =
    parse-with_id _ _ 148 p _ (λ bytes. λ r. refl)
      (RoundTrip-with_id 148 (omega arith) (RoundTrip-todo_list_task_ref p h))
parse-Sends (sends_equipped_item_used p h) =
    parse-with_id _ _ 60 p _ (λ bytes. λ r. refl) (RoundTrip-equipped_item_used p h)
parse-Sends (sends_perform_entity_actions p h) =
    parse-with_id _ _ 18 p _ (λ bytes. λ r. refl) (RoundTrip-perform_entity_actions p h)
parse-Sends (sends_stop_using_equipped_item p h) =
    parse-with_id _ _ 61 p _ (λ bytes. λ r. refl) (RoundTrip-stop_using_equipped_item p h)
parse-Sends (sends_set_player_state p h) =
    parse-with_id _ _ 35 p _ (λ bytes. λ r. refl) (RoundTrip-set_player_state p h)
parse-Sends (sends_player_dodged p h) =
    parse-with_id _ _ 158 p _ (λ bytes. λ r. refl) (RoundTrip-player_dodged p h)
parse-Sends (sends_mail_check) =
    parse-with_id (λ u. mail_check) decode_mail_check 96 tt _ (λ bytes. λ r. refl)
      RoundTrip-mail_check
parse-Sends (sends_mail_read p h) =
    parse-with_id _ _ 94 p _ (λ bytes. λ r. refl) (RoundTrip-mail_read p h)
parse-Sends (sends_mail_gift_selected p h) =
    parse-with_id _ _ 95 p _ (λ bytes. λ r. refl) (RoundTrip-mail_gift_selected p h)
parse-Sends (sends_delete_mail p h) =
    parse-with_id _ _ 97 p _ (λ bytes. λ r. refl) (RoundTrip-delete_mail p h)
parse-Sends (sends_request_chat_channel_data) =
    parse-with_id (λ u. request_chat_channel_data) decode_request_chat_channel_data 91 tt _
      (λ bytes. λ r. refl) RoundTrip-request_chat_channel_data
parse-Sends (sends_take_mail_attachment p h) =
    parse-with_id _ _ 98 p _ (λ bytes. λ r. refl) (RoundTrip-take_mail_attachment p h)
parse-Sends sends_i_fell_too_far =
    parse-with_id (λ u. i_fell_too_far) (pure tt) 24 tt _ (λ bytes. λ r. refl)
      (RoundTrip-bare 24 (omega arith))
parse-Sends sends_player_fallen_off_the_world =
    parse-with_id (λ u. player_fallen_off_the_world) (pure tt) 156 tt _ (λ bytes. λ r. refl)
      (RoundTrip-bare 156 (omega arith))
parse-Sends sends_request_respawn =
    parse-with_id (λ u. request_respawn) (pure tt) 87 tt _ (λ bytes. λ r. refl)
      (RoundTrip-bare 87 (omega arith))
