-- ===== src/BitStream/RoundTrip/Aligned.antt =====
-- Fields of bitstream.rs that start at a byte: what stands on the wire depends on the position.
use sky_saga_rs.Common.{
  ℕ, zero, suc, ◌+◌, ◌-◌, ◌*◌, ◌%◌, ◌≤◌, ◌<◌, Bool, true, false, ◌≡◌, refl, sym, ap, subst, ◌∙◌,
  List, [], ◌∷◌, ◌++◌, append_assoc, append-nil, length-append, length, replicate, ◌==◌, arith,
}
use sky_saga_rs.BitStream.Byte.Tables.{msb_bits}
use sky_saga_rs.BitStream.Writer.{
  BitWriter, Write, ◌⨾◌, write_bit, write_u8, write_each_u8, write_aligned_bytes,
}
use sky_saga_rs.BitStream.Writer
use sky_saga_rs.BitStream.Writer.Contents.{IsWriter, IsBytes, contents, bits_from, new-IsWriter}
use sky_saga_rs.BitStream.Writer.Encodes.{
  Encodes, Encodes-skip, Encodes-seq, Encodes-bit, Encodes-u8,
}
use sky_saga_rs.BitStream.Writer.Fields.{bytes_bits}
use sky_saga_rs.BitStream.Reader.{
  ok, BitReader, Read, after, ◌>>=◌, pure, advance, from_bytes, new, read_bit, read_many, read_u8,
  require, read_aligned_bytes,
}
use sky_saga_rs.BitStream.Reader
use sky_saga_rs.BitStream.Reader.Decodes.{
  Ahead, Ahead-drop, advance-advance, Decodes-bit, Decodes-require, length-msb_bits,
}
use sky_saga_rs.BitStream.Reader.Fields.{Decodes-bytes}
use sky_saga_rs.BitStream.RoundTrip.{RoundTrip, RoundTrip-pure, Ahead-from_bytes}
use sky_saga_rs.BitStream.RoundTrip.Wide.{length-bits_from}

advance_none : (r : BitReader) → r ≡ advance 0 r
advance_none r = ap (λ o. record r { offset = o }) (omega arith)

-- What a write appends where the writer stands at `p`, and what a read takes off there.
pub record EncodesAt (p : ℕ) (f : Write) (xs : List Bool) : Type 0 where
  pub runs :
      (w : BitWriter)
      → IsWriter w
      → w.bits ≡ p
      → IsWriter (f w) × (contents (f w) ≡ contents w ++ xs)

pub record DecodesAt {ℓ} {A : Type ℓ} (p : ℕ) (m : Read A) (xs : List Bool) (v : A) : Type ℓ where
  pub runs :
      (r : BitReader) (rest : List Bool)
      → r.offset ≡ p
      → Ahead r (xs ++ rest)
      → m r ≡ (ok v, advance (length xs) r)

pub record RoundTripAt {ℓ} {A : Type ℓ} (p : ℕ) (f : Write) (m : Read A) (v : A) : Type ℓ where
  pub wire : List Bool
  pub encodes : EncodesAt p f wire
  pub decodes : DecodesAt p m wire v

-- A round trip wherever it begins.
pub record Anywhere {ℓ} {A : Type ℓ} (f : Write) (m : Read A) (v : A) : Type ℓ where
  pub at : (p : ℕ) → RoundTripAt p f m v

pub Anywhere-RoundTrip {ℓ} :
    {A : Type ℓ} {f : Write} {m : Read A} {v : A} → RoundTrip f m v → Anywhere f m v
Anywhere-RoundTrip t = record {
  at = λ p. record {
    wire = t.wire;
    encodes = record { runs = λ w k e. (t.encodes.keeps w k, t.encodes.appends w k) };
    decodes = record { runs = λ r rest e h. t.decodes.runs r rest h };
  };
}

length-contents : (w : BitWriter) → length (contents w) ≡ w.bits
unfolding contents
length-contents w = length-bits_from w.bytes 0 w.bits

EncodesAt-seq :
    (p : ℕ) {f g : Write} (xs ys : List Bool)
    → EncodesAt p f xs
    → EncodesAt (p + length xs) g ys
    → EncodesAt p (f ⨾ g) (xs ++ ys)
EncodesAt-seq p {f} {g} xs ys a b = record {
  runs = λ w v e.
      let (keeps, first) = a.runs w v e in
      let here = length-contents w in
      let there = length-contents (f w) in
      let total = ap length first ∙ length-append (contents w) xs in
      let place : (f w).bits ≡ p + length xs = omega (arith, here, there, total, e) in
      let (kept, second) = b.runs (f w) keeps place in
      (kept, second ∙ (ap (λ zs. zs ++ ys) first ∙ append_assoc (contents w) xs ys));
}

DecodesAt-bind {ℓ κ} :
    {A : Type ℓ} {B : Type κ} (p : ℕ) {m : Read A} (f : A → Read B) (xs ys : List Bool) {v : A}
    {u : B}
    → DecodesAt p m xs v
    → DecodesAt (p + length xs) (f v) ys u
    → DecodesAt p (m >>= f) (xs ++ ys) u
DecodesAt-bind p f xs ys {v = v} {u = u} a b = record {
  runs = λ r rest e h.
      let h' : Ahead r (xs ++ (ys ++ rest)) = subst (Ahead r) (append_assoc xs ys rest) h in
      ap (after f) (a.runs r (ys ++ rest) e h')
      ∙ b.runs (advance (length xs) r) rest (ap (λ o. o + length xs) e)
          (Ahead-drop xs (ys ++ rest) r h')
      ∙ ap (λ s. (ok u, s))
          (advance-advance (length ys) (length xs) r
            ∙ ap (λ n. advance n r) (sym (length-append xs ys)));
}

pub Anywhere-seq {ℓ κ} :
    {A : Type ℓ} {B : Type κ} {f g : Write} {m : Read A} (k : A → Read B) {v : A} {u : B}
    → Anywhere f m v
    → Anywhere g (k v) u
    → Anywhere (f ⨾ g) (m >>= k) u
Anywhere-seq k a b = record {
  at = λ p.
      let one = a.at p in
      let two = b.at (p + length one.wire) in
      record {
        wire = one.wire ++ two.wire;
        encodes = EncodesAt-seq p one.wire two.wire one.encodes two.encodes;
        decodes = DecodesAt-bind p k one.wire two.wire one.decodes two.decodes;
      };
}

pub Anywhere-map {ℓ κ} :
    {A : Type ℓ} {B : Type κ} {f : Write} {m : Read A} (k : A → B) {v : A}
    → Anywhere f m v
    → Anywhere f (m >>= λ x. pure (k x)) (k v)
Anywhere-map k {v = v} a =
    Anywhere-seq (λ x. pure (k x)) a (Anywhere-RoundTrip (RoundTrip-pure (k v)))

-- The bits up to the next byte.
EncodesAt-align :
    (fuel pad p : ℕ)
    → pad ≤ fuel
    → pad < 8
    → (p + pad) % 8 ≡ 0
    → EncodesAt p (Writer.align_loop fuel) (replicate pad false)
unfolding Writer.align_loop
EncodesAt-align zero zero p h k e = record { runs = λ w v q. (v, sym (append-nil (contents w))) }
EncodesAt-align zero (suc pad) p h k e = absurd (omega arith)
EncodesAt-align (suc fuel) zero p h k e = record {
  runs = λ w v q.
      let there : (w.bits % 8 == 0) ≡ true = ground (arith, q, e) in
      rw there (v, sym (append-nil (contents w)));
}
EncodesAt-align (suc fuel) (suc pad) p h k e = record {
  runs = λ w v q.
      let between : (w.bits % 8 == 0) ≡ false = ground (arith, q, e, k) in
      let rest = EncodesAt-align fuel pad (p + 1) (omega arith) (omega arith) (omega (arith, e)) in
      let one = Encodes-bit false in
      let bit : EncodesAt p (write_bit false) (false ∷ []) = record {
        runs = λ w v q. (one.keeps w v, one.appends w v);
      } in
      rw between ((EncodesAt-seq p (false ∷ []) (replicate pad false) bit rest).runs w v q);
}

DecodesAt-align :
    (fuel pad p : ℕ)
    → pad ≤ fuel
    → pad < 8
    → (p + pad) % 8 ≡ 0
    → DecodesAt p (Reader.align_loop fuel) (replicate pad false) tt
unfolding Reader.align_loop
DecodesAt-align zero zero p h k e = record {
  runs = λ r rest q a. ap (λ s. (ok tt, s)) (advance_none r);
}
DecodesAt-align zero (suc pad) p h k e = absurd (omega arith)
DecodesAt-align (suc fuel) zero p h k e = record {
  runs = λ r rest q a.
      let there : (r.offset % 8 == 0) ≡ true = ground (arith, q, e) in
      rw there (ap (λ s. (ok tt, s)) (advance_none r));
}
DecodesAt-align (suc fuel) (suc pad) p h k e = record {
  runs = λ r rest q a.
      let between : (r.offset % 8 == 0) ≡ false = ground (arith, q, e, k) in
      let later = DecodesAt-align fuel pad (p + 1) (omega arith) (omega arith) (omega (arith, e)) in
      let one = Decodes-bit false in
      let bit : DecodesAt p read_bit (false ∷ []) false = record {
        runs = λ r rest q a. one.runs r rest a;
      } in
      rw between (
        (DecodesAt-bind p (λ _. Reader.align_loop fuel) (false ∷ []) (replicate pad false) bit
            later).runs
          r rest q a);
}

Encodes-each_u8 :
    (bytes : List ℕ) → IsBytes bytes → Encodes (write_each_u8 bytes) (bytes_bits bytes)
unfolding write_each_u8 bytes_bits
Encodes-each_u8 [] h = Encodes-skip
Encodes-each_u8 (b ∷ bs) h = Encodes-seq (Encodes-u8 b h.0) (Encodes-each_u8 bs h.1)

length-bytes_bits : (bytes : List ℕ) → length (bytes_bits bytes) ≡ length bytes * 8
unfolding bytes_bits
length-bytes_bits [] = refl
length-bytes_bits (b ∷ bs) =
    let rest = length-bytes_bits bs in
    let one = length-msb_bits 8 b in
    let all = length-append (msb_bits 8 b) (bytes_bits bs) in omega (arith, rest, one, all)

-- The bits that are missing to the next byte.
padding : ℕ → ℕ
padding p = (8 - p % 8) % 8

-- Bytes that start at a byte are read back wherever they are written.
pub Anywhere-aligned_bytes :
    (bytes : List ℕ)
    → IsBytes bytes
    → Anywhere (write_aligned_bytes bytes) (read_aligned_bytes (length bytes)) bytes
unfolding write_aligned_bytes read_aligned_bytes Writer.align_to_byte Reader.align_to_byte padding
Anywhere-aligned_bytes bytes h = record {
  at = λ p.
      let pad = padding p in
      let skipped = replicate pad false in
      let few : pad < 8 = omega arith in
      let whole : (p + pad) % 8 ≡ 0 = omega arith in
      let writes = Encodes-each_u8 bytes h in
      let size = length-bytes_bits bytes in
      let reads =
        Decodes-require (length bytes * 8) (omega (arith, size)) (Decodes-bytes bytes h) in
      record {
        wire = skipped ++ bytes_bits bytes;
        encodes =
            EncodesAt-seq p skipped (bytes_bits bytes)
              (EncodesAt-align 7 pad p (omega (arith, few)) few whole)
              (record { runs = λ w v e. (writes.keeps w v, writes.appends w v) });
        decodes =
            DecodesAt-bind p _ skipped (bytes_bits bytes)
              (DecodesAt-align 7 pad p (omega (arith, few)) few whole)
              (record { runs = λ r rest e a. reads.runs r rest a });
      };
}

-- A packet written to a new stream and read from its bytes is the packet.
pub Anywhere-read {ℓ} :
    {A : Type ℓ} {f : Write} {m : Read A} {v : A}
    → Anywhere f m v
    → (m (from_bytes (f Writer.new).bytes)).0 ≡ ok v
unfolding from_bytes
Anywhere-read {f = f} t =
    let here = t.at 0 in
    let (keeps, appends) = here.encodes.runs Writer.new new-IsWriter refl in
    let written : contents (f Writer.new) ≡ here.wire ++ [] =
      appends ∙ unfold contents bits_from in sym (append-nil here.wire) in
    ap (λ q. q.0)
      (here.decodes.runs (from_bytes (f Writer.new).bytes) [] refl (
        subst (Ahead (from_bytes (f Writer.new).bytes)) written
          (Ahead-from_bytes (f Writer.new) keeps)))
