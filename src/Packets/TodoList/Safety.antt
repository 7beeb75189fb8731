-- ===== src/Packets/TodoList/Safety.antt =====
-- The decoders of todo_list.rs end no process, whatever the bytes.

use sky_saga_rs.Bits.{ranged_bits}
use sky_saga_rs.BitStream.Reader.Safety.{
  Safe, Safe-pure, Safe-bind, Safe-if, Safe-bit, Safe-u32, Safe-bits_le, Safe-optional_u32,
}
use sky_saga_rs.Packets.Fields.{Safe-list, Safe-optional, Safe-byte_le}
use sky_saga_rs.Packets.TodoList.{
  task_list_default, small_count_max, max_timed_type, wide_count_bits, read_item_count,
  decode_item_objective, decode_value_objective, decode_todo_task, decode_list,
  decode_todo_list_task_add, decode_todo_list_task_ref,
}

pub Safe-item_count : Safe read_item_count
unfolding read_item_count
Safe-item_count = Safe-bind _ Safe-bit (λ wide.
    Safe-if wide (Safe-bits_le wide_count_bits) (Safe-bits_le (ranged_bits small_count_max)))

pub Safe-item_objective : Safe decode_item_objective
unfolding decode_item_objective
Safe-item_objective =
    Safe-bind _ Safe-optional_u32 (λ resource. Safe-bind _ Safe-item_count (λ count. Safe-pure _))

pub Safe-value_objective : Safe decode_value_objective
unfolding decode_value_objective
Safe-value_objective =
    Safe-bind _ Safe-optional_u32 (λ resource. Safe-bind _ Safe-u32 (λ value. Safe-pure _))

pub Safe-todo_task : Safe decode_todo_task
unfolding decode_todo_task
Safe-todo_task = Safe-bind _ Safe-byte_le (λ task_id. Safe-bind _ Safe-bit (λ flag.
    Safe-bind _ (Safe-optional Safe-item_objective) (λ objective_a.
      Safe-bind _ (Safe-optional Safe-item_objective) (λ objective_b.
        Safe-bind _ (Safe-optional Safe-value_objective) (λ objective_c.
          Safe-bind _ (Safe-bits_le (ranged_bits max_timed_type))
            (λ timed_challenge_type. Safe-pure _))))))

pub Safe-list_of_tasks : Safe decode_list
unfolding decode_list
Safe-list_of_tasks = Safe-list task_list_default Safe-todo_task

pub Safe-todo_list_task_add : Safe decode_todo_list_task_add
unfolding decode_todo_list_task_add
Safe-todo_list_task_add =
    Safe-bind _ Safe-todo_task (λ task. Safe-bind _ Safe-bit (λ manually_added. Safe-pure _))

pub Safe-todo_list_task_ref : Safe decode_todo_list_task_ref
unfolding decode_todo_list_task_ref
Safe-todo_list_task_ref = Safe-bind _ Safe-byte_le (λ task_id. Safe-pure _)
