-- ===== src/Packets/TodoList/RoundTrip.antt =====
-- What the encoders of todo_list.rs write, the decoders read back.
use sky_saga_rs.Common.{ℕ, ◌≤◌, min, true, false, ◌≡◌, inl, inr, List, leb, Bool-cases, arith}
use sky_saga_rs.Bits.{ranged_bits}
use sky_saga_rs.BitStream.Writer.{write_bits_le}
use sky_saga_rs.BitStream.Reader.{read_bits_le}
use sky_saga_rs.Packets.Fields.{IsList}
use sky_saga_rs.BitStream.RoundTrip.{
  RoundTrip, RoundTrip-seq, RoundTrip-map, RoundTrip-bit, RoundTrip-u32, RoundTrip-optional_u32,
}
use sky_saga_rs.Packets.Fields.{
  RoundTrip-ranged, RoundTrip-list, RoundTrip-optional, RoundTrip-byte_le,
}
use sky_saga_rs.Bits.Widths.{ranged_bits-bounds}
use sky_saga_rs.Packets.TodoList.{
  task_list_default, small_count_max, max_timed_type, write_item_count, read_item_count,
  IsItemCount, ItemObjective, encode_item_objective, decode_item_objective, IsItemObjective,
  ValueObjective, encode_value_objective, decode_value_objective, IsValueObjective, TodoTask,
  encode_todo_task, decode_todo_task, IsTodoTask, encode_list, decode_list, TodoListTaskAdd,
  encode_todo_list_task_add, decode_todo_list_task_add, IsTodoListTaskAdd, TodoListTaskRef,
  encode_todo_list_task_ref, decode_todo_list_task_ref, IsTodoListTaskRef,
}

pub RoundTrip-item_count :
    (n : ℕ) → IsItemCount n → RoundTrip (write_item_count n) read_item_count n
unfolding write_item_count read_item_count
RoundTrip-item_count n h = elim (Bool-cases (leb n small_count_max)) [
  | inl few ↦ rw few (
      RoundTrip-seq _ (RoundTrip-bit false) (
        RoundTrip-ranged small_count_max n
          (omega (arith, leb-le few, (ranged_bits-bounds small_count_max (omega arith)).0))))
  | inr many ↦ rw many (RoundTrip-seq _ (RoundTrip-bit true) (RoundTrip-ranged 0x1_0000 n h))
]
  where
    leb-le : leb n small_count_max ≡ true → n ≤ small_count_max
    leb-le e = ground arith

RoundTrip-timed :
    (n : ℕ)
    → n ≤ max_timed_type
    → RoundTrip
        (write_bits_le (min n max_timed_type) (ranged_bits max_timed_type))
        (read_bits_le (ranged_bits max_timed_type))
        n
RoundTrip-timed n h =
    let same : min n max_timed_type ≡ n = omega arith in
    rw same (
      RoundTrip-ranged max_timed_type n
        (omega (arith, (ranged_bits-bounds max_timed_type (omega arith)).0)))

pub RoundTrip-item_objective :
    (p : ItemObjective)
    → IsItemObjective p
    → RoundTrip (encode_item_objective p) decode_item_objective p
unfolding encode_item_objective decode_item_objective
RoundTrip-item_objective p h =
    RoundTrip-seq _ (RoundTrip-optional_u32 p.resource h.resource_fits)
      (RoundTrip-map _ (RoundTrip-item_count p.count h.count_fits))

pub RoundTrip-value_objective :
    (p : ValueObjective)
    → IsValueObjective p
    → RoundTrip (encode_value_objective p) decode_value_objective p
unfolding encode_value_objective decode_value_objective
RoundTrip-value_objective p h =
    RoundTrip-seq _ (RoundTrip-optional_u32 p.resource h.resource_fits)
      (RoundTrip-map _ (RoundTrip-u32 p.value h.value_fits))

pub RoundTrip-todo_task :
    (p : TodoTask) → IsTodoTask p → RoundTrip (encode_todo_task p) decode_todo_task p
unfolding encode_todo_task decode_todo_task
RoundTrip-todo_task p h = RoundTrip-seq _ (RoundTrip-byte_le p.task_id h.task_id_fits) (
    RoundTrip-seq _ (RoundTrip-bit p.flag) (
      RoundTrip-seq _
        (RoundTrip-optional IsItemObjective encode_item_objective decode_item_objective
          RoundTrip-item_objective p.objective_a h.objective_a_fits)
        (RoundTrip-seq _
          (RoundTrip-optional IsItemObjective encode_item_objective decode_item_objective
            RoundTrip-item_objective p.objective_b h.objective_b_fits)
          (RoundTrip-seq _
            (RoundTrip-optional IsValueObjective encode_value_objective decode_value_objective
              RoundTrip-value_objective p.objective_c h.objective_c_fits)
            (RoundTrip-map _
              (RoundTrip-timed p.timed_challenge_type h.timed_challenge_type_fits))))))

pub RoundTrip-list_of_tasks :
    (tasks : List TodoTask)
    → IsList IsTodoTask tasks
    → RoundTrip (encode_list tasks) decode_list tasks
unfolding encode_list decode_list
RoundTrip-list_of_tasks tasks h =
    RoundTrip-list IsTodoTask encode_todo_task decode_todo_task RoundTrip-todo_task
      task_list_default (omega arith) tasks h

pub RoundTrip-todo_list_task_add :
    (p : TodoListTaskAdd)
    → IsTodoListTaskAdd p
    → RoundTrip (encode_todo_list_task_add p) decode_todo_list_task_add p
unfolding encode_todo_list_task_add decode_todo_list_task_add
RoundTrip-todo_list_task_add p h =
    RoundTrip-seq _ (RoundTrip-todo_task p.task h.task_fits)
      (RoundTrip-map _ (RoundTrip-bit p.manually_added))

pub RoundTrip-todo_list_task_ref :
    (p : TodoListTaskRef)
    → IsTodoListTaskRef p
    → RoundTrip (encode_todo_list_task_ref p) decode_todo_list_task_ref p
unfolding encode_todo_list_task_ref decode_todo_list_task_ref
RoundTrip-todo_list_task_ref p h = RoundTrip-map _ (RoundTrip-byte_le p.task_id h.task_id_fits)
