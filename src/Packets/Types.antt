-- ===== src/Packets/Types.antt =====
-- crates/skysaga-proto/src/types.rs: `ItemSpec` and `InventorySlotData`.
use sky_saga_rs.Common.{
  ℕ, ◌<◌, ◌^◌, Bool, true, false, ◌≡◌, inl, inr, List, [], Option, none, some, length, ltb, leb,
  if◌then◌else◌, Bool-cases, replicate, arith,
}
use sky_saga_rs.Bits.{ranged_bits}
use sky_saga_rs.BitStream.Writer.{
  Write, ◌⨾◌, write_bit, write_u32, write_bits_le, write_string, write_optional_u32,
}
use sky_saga_rs.BitStream.Reader.{
  Read, ◌>>=◌, pure, read_bit, read_u32, read_bits_le, read_string, read_optional_u32, read_many,
}
use sky_saga_rs.BitStream.Reader.Fields.{IsOptionalU32}
use sky_saga_rs.BitStream.RoundTrip.{
  RoundTrip, RoundTrip-seq, RoundTrip-map, RoundTrip-pure, RoundTrip-bit, RoundTrip-u32,
  RoundTrip-bits_le, RoundTrip-optional_u32, RoundTrip-string, RoundTrip-each, write_each,
  IsShortString, All,
}

pub record ItemSpec : Type 0 where
  pub name_hash : Option ℕ
  pub materials : List (Option ℕ)
  pub teach_item : Option ℕ
  pub uuid : List ℕ

abbrev pub default_materials : ℕ
default_materials = 4

-- `32 - 4.leading_zeros()`
abbrev pub spec_count_bits : ℕ
spec_count_bits = 3

-- `ItemSpec::default`
abbrev pub default_spec : ItemSpec
default_spec = record {
  name_hash = none;
  materials = replicate default_materials (some 0);
  teach_item = none;
  uuid = [];
}

-- The length of the materials; a list as long as the default takes the escape.
unfoldable pub write_material_count : ℕ → Write
write_material_count n =
    if ltb n default_materials
    then write_bits_le n spec_count_bits
    else write_bits_le default_materials spec_count_bits ⨾ write_bit true ⨾ write_u32 n

unfoldable pub encode_spec : ItemSpec → Write
unfolding write_material_count
encode_spec s =
    write_optional_u32 s.name_hash
    ⨾ write_material_count (length s.materials)
    ⨾ write_each write_optional_u32 s.materials
    ⨾ write_optional_u32 s.teach_item
    ⨾ write_string s.uuid

unfoldable pub read_material_count : Read ℕ
read_material_count = do
  short ← read_bits_le spec_count_bits
  if leb default_materials short then read_bit >>= (λ _. read_u32) else pure short

unfoldable pub decode_spec : Read ItemSpec
unfolding read_material_count
decode_spec = do
  name_hash ← read_optional_u32
  count ← read_material_count
  materials ← read_many read_optional_u32 count
  teach_item ← read_optional_u32
  uuid ← read_string
  pure (record {
    name_hash = name_hash;
    materials = materials;
    teach_item = teach_item;
    uuid = uuid;
  })

-- The fields fit their widths.
pub record IsSpec (s : ItemSpec) : Type 0 where
  pub name_fits : IsOptionalU32 s.name_hash
  pub materials_fit : All IsOptionalU32 s.materials
  pub count_fits : length s.materials < 2 ^ 32
  pub teach_fits : IsOptionalU32 s.teach_item
  pub uuid_fits : IsShortString s.uuid

RoundTrip-material_count :
    (n : ℕ) → n < 2 ^ 32 → RoundTrip (write_material_count n) read_material_count n
unfolding write_material_count read_material_count
RoundTrip-material_count n h = elim (Bool-cases (ltb n default_materials)) [
  | inl e ↦
      let short : leb default_materials n ≡ false = ground arith in
      rw e (
        RoundTrip-seq {g = λ w. w} _ (RoundTrip-bits_le n 3 (omega arith) (ground arith))
          (rw short (RoundTrip-pure n)))
  | inr e ↦ rw e (
      RoundTrip-seq {g = write_bit true ⨾ write_u32 n} _
        (RoundTrip-bits_le 4 3 (omega arith) (omega arith))
        (RoundTrip-seq _ (RoundTrip-bit true) (RoundTrip-u32 n h)))
]

pub RoundTrip-spec : (s : ItemSpec) → IsSpec s → RoundTrip (encode_spec s) decode_spec s
unfolding encode_spec decode_spec
RoundTrip-spec s h = RoundTrip-seq _ (RoundTrip-optional_u32 s.name_hash h.name_fits) (
    RoundTrip-seq _ (RoundTrip-material_count (length s.materials) h.count_fits) (
      RoundTrip-seq _
        (RoundTrip-each IsOptionalU32 write_optional_u32 read_optional_u32 RoundTrip-optional_u32
          s.materials h.materials_fit)
        (RoundTrip-seq _ (RoundTrip-optional_u32 s.teach_item h.teach_fits)
          (RoundTrip-map _ (RoundTrip-string s.uuid h.uuid_fits)))))

abbrev pub small_count : ℕ
small_count = 64

abbrev pub large_count : ℕ
large_count = 0x1_0000

pub record InventorySlotData : Type 0 where
  pub name : Option ℕ
  pub count : ℕ
  pub unknown3 : Bool
  pub unknown4 : ℕ
  pub unknown5 : ℕ
  pub item_uuid : List ℕ

-- `InventorySlotData::write_counted`
unfoldable pub write_counted : ℕ → Write
unfolding ranged_bits
write_counted value =
    let large = ltb small_count value in
    write_bit large ⨾ write_bits_le value (ranged_bits (if large then large_count else small_count))

unfoldable pub encode_slot_data : InventorySlotData → Write
unfolding write_counted
encode_slot_data s =
    write_optional_u32 s.name
    ⨾ write_counted s.count
    ⨾ write_bit s.unknown3
    ⨾ write_counted s.unknown4
    ⨾ write_bits_le s.unknown5 (ranged_bits large_count)
    ⨾ write_string s.item_uuid
