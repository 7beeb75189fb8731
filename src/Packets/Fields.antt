-- ===== src/Packets/Fields.antt =====
-- The shapes that fields of several packets share: a number below a declared maximum, three numbers
-- in a row, and the count before a list.
use sky_saga_rs.Common.{
  List, length, ℕ, ◌%◌, Option, none, some, subst, ◌≤◌, ◌<◌, ◌^◌, min, Bool, true, false, ◌≡◌, inl,
  inr, ltb, ◌==◌, if◌then◌else◌, Bool-cases, arith,
}
use sky_saga_rs.Bits.{ranged_bits}
use sky_saga_rs.Bits.Widths.{ranged_bits-bounds}
use sky_saga_rs.BitStream.Writer.{Write, ◌⨾◌, write_bit, write_u32, write_bits_le}
use sky_saga_rs.BitStream.Reader.{read_many, Read, ◌>>=◌, pure, read_bit, read_u32, read_bits_le}
use sky_saga_rs.BitStream.Reader.Safety.{
  Safe-many, Safe, Safe-bind, Safe-pure, Safe-if, Safe-bit, Safe-u32, Safe-bits_le,
}
use sky_saga_rs.BitStream.RoundTrip.{
  RoundTrip, RoundTrip-seq, RoundTrip-map, RoundTrip-pure, RoundTrip-bit, RoundTrip-u32,
  RoundTrip-bits_le, RoundTrip-each, write_each, All,
}

-- A number that fits the field for a declared maximum.
abbrev pub IsRanged : ℕ → ℕ → Type 0
IsRanged max v = v < 2 ^ ranged_bits max

ranged_bits-le : (max : ℕ) → ranged_bits max ≤ 32
unfolding ranged_bits
ranged_bits-le max = omega arith

abbrev pub write_ranged : ℕ → ℕ → Write
write_ranged max v = write_bits_le v (ranged_bits max)

abbrev pub read_ranged : ℕ → Read ℕ
read_ranged max = read_bits_le (ranged_bits max)

pub RoundTrip-ranged :
    (max v : ℕ) → IsRanged max v → RoundTrip (write_ranged max v) (read_ranged max) v
RoundTrip-ranged max v h = RoundTrip-bits_le v (ranged_bits max) (ranged_bits-le max) h

-- `[u32; 3]`
pub record Triple {ℓ} (A : Type ℓ) : Type ℓ where
  pub first : A
  pub second : A
  pub third : A

abbrev pub AllThree {ℓ κ} : {A : Type ℓ} → (A → Type κ) → Triple A → Type κ
AllThree P t = P t.first × P t.second × P t.third

-- `for axis in t { .. }`
abbrev pub write_triple {ℓ} : {A : Type ℓ} → (A → Write) → Triple A → Write
write_triple f t = f t.first ⨾ f t.second ⨾ f t.third

-- `for axis in &mut t { *axis = ..? }`
abbrev pub read_triple {ℓ} : {A : Type ℓ} → Read A → Read (Triple A)
read_triple m = do
  first ← m
  second ← m
  third ← m
  pure (record { first = first; second = second; third = third })

pub RoundTrip-triple {ℓ κ} :
    {A : Type ℓ} (P : A → Type κ) (f : A → Write) (m : Read A)
    → ((x : A) → P x → RoundTrip (f x) m x)
    → (t : Triple A) → AllThree P t
    → RoundTrip (write_triple f t) (read_triple m) t
RoundTrip-triple P f m r t h =
    RoundTrip-seq _ (r t.first h.0)
      (RoundTrip-seq _ (r t.second h.1) (RoundTrip-map _ (r t.third h.2)))

pub Safe-triple {ℓ} : {A : Type ℓ} {m : Read A} → Safe m → Safe (read_triple m)
Safe-triple s = Safe-bind _ s (λ a. Safe-bind _ s (λ b. Safe-bind _ s (λ c. Safe-pure _)))

-- `write_count` of crafting.rs, `write_list_count` of todo_list.rs: a count up to `max` in the field
-- for `max`, and more behind a bit.
unfoldable pub write_list_count : ℕ → ℕ → Write
write_list_count count max =
    write_bits_le (min count max) (ranged_bits max)
    ⨾ (if ltb count max
        then (λ w. w)
        else if count == max
        then write_bit false
        else write_bit true ⨾ write_u32 count)

abbrev more_than : Bool → ℕ → Read ℕ
more_than more max = if more then read_u32 else pure max

unfoldable pub read_list_count : ℕ → Read ℕ
read_list_count max = do
  count ← read_bits_le (ranged_bits max)
  if ltb count max then pure count else (read_bit >>= λ more. more_than more max)

pub Safe-list_count : (max : ℕ) → Safe (read_list_count max)
unfolding read_list_count
Safe-list_count max = Safe-bind _ (Safe-bits_le (ranged_bits max)) (λ count.
    Safe-if (ltb count max) (Safe-pure count)
      (Safe-bind _ Safe-bit (λ more. Safe-if more Safe-u32 (Safe-pure max))))

-- A count that is a u32 is read back, on either side of the maximum.
pub RoundTrip-list_count :
    (max count : ℕ)
    → IsRanged max max
    → count < 2 ^ 32
    → RoundTrip (write_list_count count max) (read_list_count max) count
unfolding write_list_count read_list_count
RoundTrip-list_count max count m h = elim (Bool-cases (ltb count max)) [
  | inl below ↦
      let same : min count max ≡ count = ground arith in
      rw (below, same)
        (RoundTrip-seq {g = λ w. w} _ (RoundTrip-ranged max count (omega (arith, m, ltb-lt below)))
          (rw below (RoundTrip-pure count)))
  | inr above ↦
      let same : min count max ≡ max = ground arith in
      let full : ltb max max ≡ false = ground arith in
      elim (Bool-cases (count == max)) [
        | inl exact ↦
            let at_max : count ≡ max = ground arith in
            rw (above, same, exact, at_max)
              (RoundTrip-seq {g = write_bit false} _ (RoundTrip-ranged max max m)
                (rw full (RoundTrip-seq {g = λ w. w} _ (RoundTrip-bit false) (RoundTrip-pure max))))
        | inr over ↦
            rw (above, same, over)
              (RoundTrip-seq {g = write_bit true ⨾ write_u32 count} _ (RoundTrip-ranged max max m)
                (rw full (RoundTrip-seq _ (RoundTrip-bit true) (RoundTrip-u32 count h))))
      ]
]
  where
    ltb-lt : ltb count max ≡ true → count < max
    ltb-lt e = ground arith

-- A bit, and what it stands before.
unfoldable pub write_optional {ℓ} : {A : Type ℓ} → (A → Write) → Option A → Write
write_optional f none = write_bit false
write_optional f (some x) = write_bit true ⨾ f x

unfoldable pub read_optional {ℓ} : {A : Type ℓ} → Read A → Read (Option A)
read_optional m = do present ← read_bit; if present then (m >>= λ x. pure (some x)) else pure none

abbrev pub Optionally {ℓ κ} : {A : Type ℓ} → (A → Type κ) → Option A → Type κ
Optionally P none = Unit
Optionally P (some x) = P x

pub RoundTrip-optional {ℓ κ} :
    {A : Type ℓ} (P : A → Type κ) (f : A → Write) (m : Read A)
    → ((x : A) → P x → RoundTrip (f x) m x)
    → (o : Option A) → Optionally P o
    → RoundTrip (write_optional f o) (read_optional m) o
unfolding write_optional read_optional
RoundTrip-optional P f m r none h =
    RoundTrip-seq {g = λ w. w} _ (RoundTrip-bit false) (RoundTrip-pure none)
RoundTrip-optional P f m r (some x) h =
    RoundTrip-seq _ (RoundTrip-bit true) (RoundTrip-map (λ y. some y) (r x h))

pub Safe-optional {ℓ} : {A : Type ℓ} {m : Read A} → Safe m → Safe (read_optional m)
unfolding read_optional
Safe-optional s =
    Safe-bind _ Safe-bit
      (λ present. Safe-if present (Safe-bind _ s (λ x. Safe-pure _)) (Safe-pure none))

-- `read_bits_le(8)? as u8`
unfoldable pub read_byte_le : Read ℕ
read_byte_le = do v ← read_bits_le 8; pure (v % 256)

pub RoundTrip-byte_le : (v : ℕ) → v < 256 → RoundTrip (write_bits_le v 8) read_byte_le v
unfolding read_byte_le
RoundTrip-byte_le v h = subst (RoundTrip (write_bits_le v 8) read_byte_le) (byte v h) (
    unfold read_byte_le in
    RoundTrip-map (λ x. x % 256) (RoundTrip-bits_le v 8 (omega arith) (omega arith)))
  where
    byte : (v : ℕ) → v < 256 → v % 256 ≡ v
    byte v h = omega arith

pub Safe-byte_le : Safe read_byte_le
unfolding read_byte_le
Safe-byte_le = Safe-bind _ (Safe-bits_le 8) (λ v. Safe-pure _)

-- A list behind its count. Its length is taken to be a u32, as the source casts it to one.
abbrev pub write_list {ℓ} : {A : Type ℓ} → (A → Write) → ℕ → List A → Write
write_list f max xs = write_list_count (length xs) max ⨾ write_each f xs

abbrev pub read_list {ℓ} : {A : Type ℓ} → Read A → ℕ → Read (List A)
read_list m max = do count ← read_list_count max; read_many m count

abbrev pub IsList {ℓ κ} : {A : Type ℓ} → (A → Type κ) → List A → Type κ
IsList P xs = All P xs × (length xs < 2 ^ 32)

pub RoundTrip-list {ℓ κ} :
    {A : Type ℓ} (P : A → Type κ) (f : A → Write) (m : Read A)
    → ((x : A) → P x → RoundTrip (f x) m x)
    → (max : ℕ) → max < 2 ^ 32
    → (xs : List A) → IsList P xs
    → RoundTrip (write_list f max xs) (read_list m max) xs
RoundTrip-list P f m r max small xs h =
    RoundTrip-seq _ (RoundTrip-list_count max (length xs) (ranged_bits-bounds max small).0 h.1)
      (RoundTrip-each P f m r xs h.0)

pub Safe-list {ℓ} : {A : Type ℓ} {m : Read A} (max : ℕ) → Safe m → Safe (read_list m max)
Safe-list max s = Safe-bind _ (Safe-list_count max) (λ count. Safe-many count s)
