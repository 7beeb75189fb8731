-- ===== src/BitStream/RoundTrip.antt =====
-- Writing and reading back: a writer and a reader that agree on the bits between them.
pub mod Aligned
pub mod Copied
pub mod Wide
use sky_saga_rs.Common.{
  ℕ, zero, suc, ◌+◌, ◌*◌, ◌^◌, ◌≤◌, ◌<◌, Bool, true, ◌≡◌, refl, sym, subst, ◌∙◌, List, [], ◌∷◌,
  ◌++◌, append-nil, Option, length, arith,
}
use sky_saga_rs.BitStream.Utf8.{is_utf8}
use sky_saga_rs.BitStream.Writer.{
  BitWriter, Write, ◌⨾◌, write_bit, write_u8, write_u32, write_u16, write_bits_le,
  write_compressed_u32, write_string, write_optional_u32, write_packet_id,
}
use sky_saga_rs.BitStream.Writer
use sky_saga_rs.BitStream.Writer.Contents.{IsWriter, IsBytes, bits_from, contents, new-IsWriter}
use sky_saga_rs.BitStream.Writer.Encodes.{
  Encodes, Encodes-skip, Encodes-seq, Encodes-bit, Encodes-u8,
}
use sky_saga_rs.BitStream.Writer.Fields.{
  Encodes-u32, Encodes-u16, Encodes-bits_le, Encodes-compressed_u32, Encodes-optional_u32,
  Encodes-packet_id, Encodes-string,
}
use sky_saga_rs.BitStream.Reader.{
  ok, BitReader, Read, ◌>>=◌, pure, advance, new, from_bytes, read_bit, read_u8, read_many,
  read_u32, read_u16, read_bits_le, read_compressed_u32, read_string, read_optional_u32,
  read_packet_id,
}
use sky_saga_rs.BitStream.Reader.Decodes.{
  Ahead, Decodes, Decodes-pure, Decodes-bind, Decodes-bit, Decodes-u8,
}
use sky_saga_rs.BitStream.Reader.Fields.{
  Decodes-map, Decodes-u32, Decodes-u16, Decodes-bits_le, Decodes-compressed_u32,
  Decodes-optional_u32, Decodes-packet_id, Decodes-string, IsOptionalU32,
}

Ahead-bits_from :
    (n : ℕ) (r : BitReader)
    → r.offset + n ≤ r.bits
    → r.bits ≤ 8 * length r.bytes
    → Ahead r (bits_from r.bytes r.offset n)
unfolding bits_from
Ahead-bits_from zero r h k = tt
Ahead-bits_from (suc n) r h k = (
  omega arith,
  k,
  refl,
  subst (λ o. Ahead (advance 1 r) (bits_from r.bytes o n)) (omega arith)
      (Ahead-bits_from n (advance 1 r) (omega arith) k),
)

-- What `from_bytes` makes of a finished writer has all that was written ahead of it.
pub Ahead-from_bytes : (w : BitWriter) → IsWriter w → Ahead (from_bytes w.bytes) (contents w)
unfolding from_bytes new contents
Ahead-from_bytes w v =
    Ahead-bits_from w.bits (from_bytes w.bytes) (omega (arith, v.enough)) (omega arith)

-- Some bits stand between the write and the read.
pub record RoundTrip {ℓ} {A : Type ℓ} (f : Write) (m : Read A) (v : A) : Type ℓ where
  pub wire : List Bool
  pub encodes : Encodes f wire
  pub decodes : Decodes m wire v

-- A packet written to a new stream and read from its bytes is the packet; the padding of the last
-- byte is left unread.
pub RoundTrip-read {ℓ} :
    {A : Type ℓ} {f : Write} {m : Read A} {v : A} (t : RoundTrip f m v)
    → let r = from_bytes (f Writer.new).bytes in m r ≡ (ok v, advance (length t.wire) r)
RoundTrip-read {f = f} t = t.decodes.runs _ [] (
    subst (Ahead (from_bytes (f Writer.new).bytes)) written
      (Ahead-from_bytes (f Writer.new) (t.encodes.keeps Writer.new new-IsWriter)))
  where
    written : contents (f Writer.new) ≡ t.wire ++ []
    written =
        t.encodes.appends Writer.new new-IsWriter
        ∙ unfold contents bits_from in sym (append-nil t.wire)

pub RoundTrip-seq {ℓ κ} :
    {A : Type ℓ} {B : Type κ} {f g : Write} {m : Read A} (k : A → Read B) {v : A} {u : B}
    → RoundTrip f m v
    → RoundTrip g (k v) u
    → RoundTrip (f ⨾ g) (m >>= k) u
RoundTrip-seq k a b = record {
  wire = a.wire ++ b.wire;
  encodes = Encodes-seq a.encodes b.encodes;
  decodes = Decodes-bind k a.decodes b.decodes;
}

pub RoundTrip-map {ℓ κ} :
    {A : Type ℓ} {B : Type κ} {f : Write} {m : Read A} (k : A → B) {v : A}
    → RoundTrip f m v
    → RoundTrip f (m >>= λ x. pure (k x)) (k v)
RoundTrip-map k a = record { wire = a.wire; encodes = a.encodes; decodes = Decodes-map k a.decodes }

pub RoundTrip-pure {ℓ} : {A : Type ℓ} (v : A) → RoundTrip (λ w. w) (pure v) v
RoundTrip-pure v = record { wire = []; encodes = Encodes-skip; decodes = Decodes-pure v }

pub RoundTrip-bit : (b : Bool) → RoundTrip (write_bit b) read_bit b
RoundTrip-bit b = record { wire = _; encodes = Encodes-bit b; decodes = Decodes-bit b }

pub RoundTrip-u8 : (v : ℕ) → v < 256 → RoundTrip (write_u8 v) read_u8 v
RoundTrip-u8 v h = record { wire = _; encodes = Encodes-u8 v h; decodes = Decodes-u8 v h }

pub RoundTrip-u16 : (v : ℕ) → v < 2 ^ 16 → RoundTrip (write_u16 v) read_u16 v
RoundTrip-u16 v h = record { wire = _; encodes = Encodes-u16 v; decodes = Decodes-u16 v h }

pub RoundTrip-u32 : (v : ℕ) → v < 2 ^ 32 → RoundTrip (write_u32 v) read_u32 v
RoundTrip-u32 v h = record { wire = _; encodes = Encodes-u32 v; decodes = Decodes-u32 v h }

pub RoundTrip-bits_le :
    (v n : ℕ) → n ≤ 32 → v < 2 ^ n → RoundTrip (write_bits_le v n) (read_bits_le n) v
RoundTrip-bits_le v n h hv = record {
  wire = _;
  encodes = Encodes-bits_le v n h;
  decodes = Decodes-bits_le v n h hv;
}

pub RoundTrip-compressed_u32 :
    (v : ℕ) → v < 2 ^ 32 → RoundTrip (write_compressed_u32 v) read_compressed_u32 v
RoundTrip-compressed_u32 v h = record {
  wire = _;
  encodes = Encodes-compressed_u32 v;
  decodes = Decodes-compressed_u32 v h;
}

pub RoundTrip-optional_u32 :
    (o : Option ℕ) → IsOptionalU32 o → RoundTrip (write_optional_u32 o) read_optional_u32 o
RoundTrip-optional_u32 o h = record {
  wire = _;
  encodes = Encodes-optional_u32 o;
  decodes = Decodes-optional_u32 o h;
}

pub RoundTrip-packet_id :
    (id : ℕ) → id + 134 < 511 → RoundTrip (write_packet_id id) read_packet_id id
RoundTrip-packet_id id h = record {
  wire = _;
  encodes = Encodes-packet_id id h;
  decodes = Decodes-packet_id id h;
}

-- A string of the source that `write_string` writes in its short form.
pub record IsShortString (s : List ℕ) : Type 0 where
  pub bytes_are : IsBytes s
  pub short : length s < 255
  pub valid : is_utf8 s ≡ true

pub RoundTrip-string : (s : List ℕ) → IsShortString s → RoundTrip (write_string s) read_string s
RoundTrip-string s h = record {
  wire = _;
  encodes = Encodes-string s h.bytes_are (omega (arith, h.short));
  decodes = Decodes-string s h.bytes_are h.short h.valid;
}

-- `for x in xs { write(x) }`
unfoldable pub write_each {ℓ} : {A : Type ℓ} → (A → Write) → List A → Write
write_each f [] = λ w. w
write_each f (x ∷ xs) = f x ⨾ write_each f xs

abbrev pub All {κ ℓ} : {X : Type ℓ} → (X → Type κ) → List X → Type κ
All fits [] = Unit
All fits (y ∷ ys) = fits y × All fits ys

pub RoundTrip-each {ℓ κ} :
    {A : Type ℓ} (P : A → Type κ) (f : A → Write) (m : Read A)
    → ((x : A) → P x → RoundTrip (f x) m x)
    → (xs : List A) → All P xs
    → RoundTrip (write_each f xs) (read_many m (length xs)) xs
unfolding write_each read_many
RoundTrip-each P f m t [] h = RoundTrip-pure []
RoundTrip-each P f m t (x ∷ xs) h =
    RoundTrip-seq _ (t x h.0) (RoundTrip-map (λ ys. x ∷ ys) (RoundTrip-each P f m t xs h.1))
