-- ===== src/Packets/Customisation.antt =====
-- crates/skysaga-proto/src/customisation.rs: a character's appearance.
use sky_saga_rs.Common.{
  ℕ, zero, suc, ◌<◌, ◌^◌, true, false, ◌≡◌, inl, inr, List, Option, none, length, replicate, ◌==◌,
  if◌then◌else◌, Bool-cases, arith,
}
use sky_saga_rs.BitStream.Writer.{
  Write, ◌⨾◌, write_bit, write_u32, write_bits_le, write_optional_u32,
}
use sky_saga_rs.BitStream.Reader.{
  Read, ◌>>=◌, pure, read_bit, read_u32, read_bits_le, read_optional_u32, read_many,
}
use sky_saga_rs.BitStream.Reader.Fields.{IsOptionalU32}
use sky_saga_rs.BitStream.RoundTrip.{
  RoundTrip, RoundTrip-seq, RoundTrip-map, RoundTrip-pure, RoundTrip-bit, RoundTrip-u32,
  RoundTrip-bits_le, RoundTrip-optional_u32, RoundTrip-each, write_each, All,
}

abbrev pub gender_bits : ℕ
gender_bits = 2

abbrev pub default_material_count : ℕ
default_material_count = 3

abbrev pub default_attachment_count : ℕ
default_attachment_count = 1

pub data Gender : Type 0 where
  male female : Gender
  unknown : ℕ → Gender

-- `Gender::value`
unfoldable pub gender_value : Gender → ℕ
gender_value male = 0
gender_value female = 1
gender_value (unknown value) = value

unfoldable pub encode_gender : Gender → Write
encode_gender g = write_bits_le (gender_value g) gender_bits

unfoldable pub gender_of : ℕ → Gender
gender_of zero = male
gender_of (suc zero) = female
gender_of (suc (suc n)) = unknown (suc (suc n))

unfoldable pub decode_gender : Read Gender
decode_gender = do value ← read_bits_le gender_bits; pure (gender_of value)

pub record Attachment : Type 0 where
  pub attachment : Option ℕ
  pub material : Option ℕ

abbrev pub default_attachment : Attachment
default_attachment = record { attachment = none; material = none }

unfoldable pub encode_attachment : Attachment → Write
encode_attachment a = write_optional_u32 a.attachment ⨾ write_optional_u32 a.material

unfoldable pub decode_attachment : Read Attachment
decode_attachment = do
  attachment ← read_optional_u32
  material ← read_optional_u32
  pure (record { attachment = attachment; material = material })

pub record CustomisationData : Type 0 where
  pub gender : Gender
  pub tribe : Option ℕ
  pub materials : List (Option ℕ)
  pub attachments : List Attachment

abbrev pub default_customisation : CustomisationData
default_customisation = record {
  gender = male;
  tribe = none;
  materials = replicate default_material_count none;
  attachments = replicate default_attachment_count default_attachment;
}

unfoldable pub write_count : ℕ → ℕ → Write
write_count count default =
    if count == default then write_bit false else write_bit true ⨾ write_u32 count

unfoldable pub read_count : ℕ → Read ℕ
read_count default = do escape ← read_bit; if escape then read_u32 else pure default

unfoldable pub encode_customisation : CustomisationData → Write
encode_customisation c =
    encode_gender c.gender
    ⨾ write_optional_u32 c.tribe
    ⨾ write_count (length c.materials) default_material_count
    ⨾ write_each write_optional_u32 c.materials
    ⨾ write_count (length c.attachments) default_attachment_count
    ⨾ write_each encode_attachment c.attachments

unfoldable pub decode_customisation : Read CustomisationData
decode_customisation = do
  gender ← decode_gender
  tribe ← read_optional_u32
  material_count ← read_count default_material_count
  materials ← read_many read_optional_u32 material_count
  attachment_count ← read_count default_attachment_count
  attachments ← read_many decode_attachment attachment_count
  pure (record { gender = gender; tribe = tribe; materials = materials; attachments = attachments })

-- A third gender has a value that the field can hold and that no other gender has.
abbrev pub IsGender : Gender → Type 0
IsGender (unknown value) = (1 < value) × (value < 4)
IsGender _ = Unit {0}

abbrev pub IsAttachment : Attachment → Type 0
IsAttachment a = IsOptionalU32 a.attachment × IsOptionalU32 a.material

pub record IsCustomisation (c : CustomisationData) : Type 0 where
  pub gender_fits : IsGender c.gender
  pub tribe_fits : IsOptionalU32 c.tribe
  pub materials_fit : All IsOptionalU32 c.materials
  pub material_count_fits : length c.materials < 2 ^ 32
  pub attachments_fit : All IsAttachment c.attachments
  pub attachment_count_fits : length c.attachments < 2 ^ 32

RoundTrip-count :
    (n default : ℕ) → n < 2 ^ 32 → RoundTrip (write_count n default) (read_count default) n
unfolding write_count read_count
RoundTrip-count n default h = elim (Bool-cases (n == default)) [
  | inl e ↦
      let same : n ≡ default = ground arith in
      rw (e, same) (RoundTrip-seq {g = λ w. w} _ (RoundTrip-bit false) (RoundTrip-pure default))
  | inr e ↦ rw e (RoundTrip-seq {g = write_u32 n} _ (RoundTrip-bit true) (RoundTrip-u32 n h))
]

RoundTrip-gender : (g : Gender) → IsGender g → RoundTrip (encode_gender g) decode_gender g
unfolding encode_gender decode_gender gender_value gender_of
RoundTrip-gender male h =
    RoundTrip-map gender_of (RoundTrip-bits_le 0 2 (omega arith) (omega arith))
RoundTrip-gender female h =
    RoundTrip-map gender_of (RoundTrip-bits_le 1 2 (omega arith) (omega arith))
RoundTrip-gender (unknown zero) h = absurd (omega arith)
RoundTrip-gender (unknown (suc zero)) h = absurd (omega arith)
RoundTrip-gender (unknown (suc (suc n))) h =
    RoundTrip-map gender_of (RoundTrip-bits_le (suc (suc n)) 2 (omega arith) (omega arith))

RoundTrip-attachment :
    (a : Attachment) → IsAttachment a → RoundTrip (encode_attachment a) decode_attachment a
unfolding encode_attachment decode_attachment
RoundTrip-attachment a h =
    RoundTrip-seq _ (RoundTrip-optional_u32 a.attachment h.0)
      (RoundTrip-map _ (RoundTrip-optional_u32 a.material h.1))

pub RoundTrip-customisation :
    (c : CustomisationData)
    → IsCustomisation c
    → RoundTrip (encode_customisation c) decode_customisation c
unfolding encode_customisation decode_customisation
RoundTrip-customisation c h = RoundTrip-seq _ (RoundTrip-gender c.gender h.gender_fits) (
    RoundTrip-seq _ (RoundTrip-optional_u32 c.tribe h.tribe_fits) (
      RoundTrip-seq _ (RoundTrip-count (length c.materials) 3 h.material_count_fits) (
        RoundTrip-seq _
          (RoundTrip-each IsOptionalU32 write_optional_u32 read_optional_u32 RoundTrip-optional_u32
            c.materials h.materials_fit)
          (RoundTrip-seq _ (RoundTrip-count (length c.attachments) 1 h.attachment_count_fits) (
            RoundTrip-map _ (
              RoundTrip-each IsAttachment encode_attachment decode_attachment RoundTrip-attachment
                c.attachments h.attachments_fit))))))
