-- ===== src/Packets/TodoList.antt =====
-- crates/skysaga-proto/src/packets/todo_list.rs: the quest log. An objective is read and written behind its bit
-- by `read_optional` and `write_optional`.
pub mod RoundTrip
pub mod Safety
use sky_saga_rs.Common.{
  ℕ, zero, suc, ◌+◌, ◌-◌, ◌*◌, ◌/◌, ◌%◌, ◌≤◌, ◌<◌, ◌^◌, min, bit_or, Bool, true, false, ◌≡◌, refl,
  ap, sym, subst, ◌∙◌, inl, inr, List, [], ◌∷◌, ◌++◌, Option, none, some, length, replicate, get_or,
  set, ltb, leb, ◌==◌, if◌then◌else◌, Bool-cases, arith,
}
use sky_saga_rs.Bits.{ranged_bits}
use sky_saga_rs.BitStream.Writer.{
  BitWriter, Write, ◌⨾◌, write_bit, write_u32, write_u16, write_u64_le, write_bits, write_bits_le,
  write_bits_msb, write_aligned_bytes, write_optional_u32, write_string, write_compressed_u32,
  write_packet_id,
}
use sky_saga_rs.BitStream.Reader.{
  Result, BitReader, Read, ok, err, panic, ◌>>=◌, ◌>>◌, pure, read_bit, read_u32, read_u16,
  read_u64_le, read_bits_le, read_bits_msb, read_aligned_bytes, read_optional_u32, read_string,
  read_many, read_compressed_u32, skip_bits,
}
use sky_saga_rs.BitStream.Reader.Fields.{IsOptionalU32}
use sky_saga_rs.BitStream.RoundTrip.{IsShortString, write_each, All}
use sky_saga_rs.Packets.Fields.{
  IsRanged, Triple, AllThree, write_ranged, read_ranged, write_triple, read_triple,
  write_list_count, read_list_count, write_optional, read_optional, Optionally, read_byte_le,
  write_list, read_list, IsList,
}

abbrev pub task_list_default : ℕ
task_list_default = 32

abbrev pub small_count_max : ℕ
small_count_max = 64

abbrev pub max_timed_type : ℕ
max_timed_type = 3

abbrev pub wide_count_bits : ℕ
wide_count_bits = ranged_bits 0x1_0000

unfoldable pub write_item_count : ℕ → Write
write_item_count count =
    if leb count small_count_max
    then write_bit false ⨾ write_bits_le count (ranged_bits small_count_max)
    else write_bit true ⨾ write_bits_le count wide_count_bits

unfoldable pub read_item_count : Read ℕ
read_item_count = do
  wide ← read_bit
  if wide then read_bits_le wide_count_bits else read_bits_le (ranged_bits small_count_max)

abbrev pub IsItemCount : ℕ → Type 0
IsItemCount count = count < 2 ^ wide_count_bits

pub record ItemObjective : Type 0 where
  pub resource : Option ℕ
  pub count : ℕ

unfoldable pub encode_item_objective : ItemObjective → Write
encode_item_objective p = write_optional_u32 p.resource ⨾ write_item_count p.count

unfoldable pub decode_item_objective : Read ItemObjective
decode_item_objective = do
  resource ← read_optional_u32
  count ← read_item_count
  pure (record { resource = resource; count = count })

pub record IsItemObjective (p : ItemObjective) : Type 0 where
  pub resource_fits : IsOptionalU32 p.resource
  pub count_fits : IsItemCount p.count

pub record ValueObjective : Type 0 where
  pub resource : Option ℕ
  pub value : ℕ

unfoldable pub encode_value_objective : ValueObjective → Write
encode_value_objective p = write_optional_u32 p.resource ⨾ write_u32 p.value

unfoldable pub decode_value_objective : Read ValueObjective
decode_value_objective = do
  resource ← read_optional_u32
  value ← read_u32
  pure (record { resource = resource; value = value })

pub record IsValueObjective (p : ValueObjective) : Type 0 where
  pub resource_fits : IsOptionalU32 p.resource
  pub value_fits : p.value < 2 ^ 32

pub record TodoTask : Type 0 where
  pub task_id : ℕ
  pub flag : Bool
  pub objective_a : Option ItemObjective
  pub objective_b : Option ItemObjective
  pub objective_c : Option ValueObjective
  pub timed_challenge_type : ℕ

unfoldable pub encode_todo_task : TodoTask → Write
encode_todo_task p =
    write_bits_le p.task_id 8
    ⨾ write_bit p.flag
    ⨾ write_optional encode_item_objective p.objective_a
    ⨾ write_optional encode_item_objective p.objective_b
    ⨾ write_optional encode_value_objective p.objective_c
    ⨾ write_bits_le (min p.timed_challenge_type max_timed_type) (ranged_bits max_timed_type)

unfoldable pub decode_todo_task : Read TodoTask
decode_todo_task = do
  task_id ← read_byte_le
  flag ← read_bit
  objective_a ← read_optional decode_item_objective
  objective_b ← read_optional decode_item_objective
  objective_c ← read_optional decode_value_objective
  timed_challenge_type ← read_bits_le (ranged_bits max_timed_type)
  pure (record {
    task_id = task_id;
    flag = flag;
    objective_a = objective_a;
    objective_b = objective_b;
    objective_c = objective_c;
    timed_challenge_type = timed_challenge_type;
  })

pub record IsTodoTask (p : TodoTask) : Type 0 where
  pub task_id_fits : p.task_id < 256
  pub objective_a_fits : Optionally IsItemObjective p.objective_a
  pub objective_b_fits : Optionally IsItemObjective p.objective_b
  pub objective_c_fits : Optionally IsValueObjective p.objective_c
  pub timed_challenge_type_fits : p.timed_challenge_type ≤ max_timed_type

unfoldable pub encode_list : List TodoTask → Write
encode_list tasks = write_list encode_todo_task task_list_default tasks

unfoldable pub decode_list : Read (List TodoTask)
decode_list = read_list decode_todo_task task_list_default

pub record TodoListTaskAdd : Type 0 where
  pub task : TodoTask
  pub manually_added : Bool

unfoldable pub encode_todo_list_task_add : TodoListTaskAdd → Write
encode_todo_list_task_add p = encode_todo_task p.task ⨾ write_bit p.manually_added

unfoldable pub decode_todo_list_task_add : Read TodoListTaskAdd
decode_todo_list_task_add = do
  task ← decode_todo_task
  manually_added ← read_bit
  pure (record { task = task; manually_added = manually_added })

pub record IsTodoListTaskAdd (p : TodoListTaskAdd) : Type 0 where
  pub task_fits : IsTodoTask p.task

pub record TodoListTaskRef : Type 0 where
  pub task_id : ℕ

unfoldable pub encode_todo_list_task_ref : TodoListTaskRef → Write
encode_todo_list_task_ref p = write_bits_le p.task_id 8

unfoldable pub decode_todo_list_task_ref : Read TodoListTaskRef
decode_todo_list_task_ref = do task_id ← read_byte_le; pure (record { task_id = task_id })

pub record IsTodoListTaskRef (p : TodoListTaskRef) : Type 0 where
  pub task_id_fits : p.task_id < 256
