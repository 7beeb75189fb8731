-- ===== src/BitStream/Writer/Encodes.antt =====
-- What each write of `BitWriter` puts on the wire, as a list of bits.
use sky_saga_rs.Common.{
  ℕ, zero, suc, ◌+◌, ◌-◌, ◌*◌, ◌/◌, ◌%◌, ◌^◌, ◌≤◌, ◌<◌, Bool, ◌≡◌, refl, sym, ap, subst, fun_ext,
  ◌∙◌, List, [], ◌∷◌, ◌++◌, append_assoc, append-nil, get_or, arith,
}
use sky_saga_rs.BitStream.Byte.{has_bit}
use sky_saga_rs.BitStream.Byte.Tables.{msb_bits, top_bits, top_bits-msb_bits}
use sky_saga_rs.BitStream.Writer.{
  BitWriter, Write, ◌⨾◌, write_bit, write_top_bits, write_byte_bits, write_u8, write_bits_loop,
  write_bits,
}
use sky_saga_rs.BitStream.Writer.Contents.{
  AllBytes, IsWriter, contents, contents-write_bit, write_bit-IsWriter,
}

-- The write keeps the writer well formed and appends these bits, whatever was written before.
pub record Encodes (f : Write) (xs : List Bool) : Type 0 where
  pub keeps : (w : BitWriter) → IsWriter w → IsWriter (f w)
  pub appends : (w : BitWriter) → IsWriter w → contents (f w) ≡ contents w ++ xs

pub Encodes-skip : Encodes (λ w. w) []
Encodes-skip = record { keeps = λ w v. v; appends = λ w v. sym (append-nil (contents w)) }

pub Encodes-seq :
    {f g : Write} {xs ys : List Bool} → Encodes f xs → Encodes g ys → Encodes (f ⨾ g) (xs ++ ys)
Encodes-seq {f} {g} {xs} {ys} a b = record {
  keeps = λ w v. b.keeps (f w) (a.keeps w v);
  appends = λ w v.
      b.appends (f w) (a.keeps w v)
      ∙ ap (λ zs. zs ++ ys) (a.appends w v)
      ∙ append_assoc (contents w) xs ys;
}

pub Encodes-bit : (b : Bool) → Encodes (write_bit b) (b ∷ [])
Encodes-bit b = record {
  keeps = λ w v. write_bit-IsWriter w b v;
  appends = λ w v. contents-write_bit w b v;
}

Encodes-top_bits :
    (value index count : ℕ)
    → Encodes (write_top_bits value index count) (top_bits value index count)
unfolding write_top_bits top_bits
Encodes-top_bits value index zero = Encodes-skip
Encodes-top_bits value index (suc count) =
    Encodes-seq (Encodes-bit (has_bit value index)) (Encodes-top_bits value (index + 1) count)

-- `n` bits of a byte, given the byte shifted to the left as the source does.
Encodes-byte_bits :
    (v n : ℕ) → v < 256 → n < 9 → Encodes (write_byte_bits (v * 2 ^ (8 - n) % 256) n) (msb_bits n v)
unfolding write_byte_bits
Encodes-byte_bits v n hv hn =
    subst (Encodes (write_top_bits (v * 2 ^ (8 - n) % 256) 0 n)) (top_bits-msb_bits v n hv hn)
      (Encodes-top_bits _ 0 n)

Encodes-byte : (v : ℕ) → v < 256 → Encodes (write_byte_bits v 8) (msb_bits 8 v)
Encodes-byte v h =
    let whole : v * 2 ^ (8 - 8) % 256 ≡ v = omega arith in
    subst (λ x. Encodes (write_byte_bits x 8) (msb_bits 8 v)) whole
      (Encodes-byte_bits v 8 h (omega arith))

pub Encodes-u8 : (v : ℕ) → v < 256 → Encodes (write_u8 v) (msb_bits 8 v)
unfolding write_u8
Encodes-u8 v h = Encodes-byte v h

Encodes-eq :
    {f g : Write} {xs : List Bool} → ((w : BitWriter) → f w ≡ g w) → Encodes g xs → Encodes f xs
Encodes-eq {f} {g} {xs} e a = subst (λ h. Encodes h xs) (sym (fun_ext e)) a

-- The bits that `write_bits` takes from `q` whole bytes and `t` bits of the next.
unfoldable pub group_bits : ℕ → ℕ → List ℕ → ℕ → List Bool
group_bits zero t bytes index = msb_bits t (get_or bytes index 0)
group_bits (suc q) t bytes index =
    msb_bits 8 (get_or bytes index 0) ++ group_bits q t bytes (index + 1)

loop_done :
    (fuel : ℕ) (bytes : List ℕ) (index : ℕ) (w : BitWriter)
    → write_bits_loop fuel bytes index 0 w ≡ w
unfolding write_bits_loop
loop_done zero bytes index w = refl
loop_done (suc fuel) bytes index w = refl

module _ (fuel : ℕ) (bytes : List ℕ) (index remaining : ℕ) (w : BitWriter) where
  abbrev head_byte : ℕ
  head_byte = get_or bytes index 0

  loop_whole :
      8 ≤ remaining
      → write_bits_loop (suc fuel) bytes index remaining w
        ≡ write_bits_loop fuel bytes (index + 1) (remaining - 8) (write_byte_bits head_byte 8 w)
  unfolding write_bits_loop
  loop_whole h = ground arith

  loop_part :
      0 < remaining
      → remaining < 8
      → write_bits_loop (suc fuel) bytes index remaining w
        ≡ write_byte_bits (head_byte * 2 ^ (8 - remaining) % 256) remaining w
  unfolding write_bits_loop
  loop_part h k = ground arith

Encodes-bits_loop :
    (q t fuel remaining index : ℕ) (bytes : List ℕ)
    → AllBytes bytes
    → t < 8
    → remaining ≡ 8 * q + t
    → remaining ≤ fuel
    → Encodes (write_bits_loop fuel bytes index remaining) (group_bits q t bytes index)
unfolding group_bits
Encodes-bits_loop zero zero fuel remaining index bytes hb ht e hf =
    let none_left : remaining ≡ 0 = omega arith in
    rw none_left (Encodes-eq (loop_done fuel bytes index) (unfold msb_bits in Encodes-skip))
Encodes-bits_loop zero (suc t) zero remaining index bytes hb ht e hf = absurd (omega arith)
Encodes-bits_loop zero (suc t) (suc fuel) remaining index bytes hb ht e hf =
    let part : remaining ≡ suc t = omega arith in
    rw part (
      Encodes-eq (λ w. loop_part fuel bytes index (suc t) w (omega arith) (omega arith))
        (Encodes-byte_bits (get_or bytes index 0) (suc t) (hb index) (omega arith)))
Encodes-bits_loop (suc q) t zero remaining index bytes hb ht e hf = absurd (omega arith)
Encodes-bits_loop (suc q) t (suc fuel) remaining index bytes hb ht e hf =
    Encodes-eq (λ w. loop_whole fuel bytes index remaining w (omega arith))
      (Encodes-seq (Encodes-byte (get_or bytes index 0) (hb index)) (
        Encodes-bits_loop q t fuel (remaining - 8) (index + 1) bytes hb ht (omega arith)
          (omega arith)))

-- `write_bits` writes whole bytes first, and then the low bits of the byte that follows.
pub Encodes-bits :
    (bytes : List ℕ) (n : ℕ)
    → AllBytes bytes
    → Encodes (write_bits bytes n) (group_bits (n / 8) (n % 8) bytes 0)
unfolding write_bits
Encodes-bits bytes n hb =
    Encodes-bits_loop (n / 8) (n % 8) n n 0 bytes hb (omega arith) (omega arith) (omega arith)
