-- ===== src/FixedStr/RoundTrip.antt =====
-- What is read back of a field of crates/skysaga-core/src/fixed_str.rs.
use sky_saga_rs.Common.{
  ℕ, zero, suc, ◌-◌, ◌<◌, ◌≤◌, ◌≡◌, refl, ap, ◌∙◌, inl, inr, true, false, List, [], ◌∷◌, ◌++◌,
  length, length-append, length-replicate, replicate, ltb, leb, ◌==◌, Bool-cases, arith,
}
use sky_saga_rs.Common.Text.{Text, as_bytes, bytes_of}
use sky_saga_rs.FixedStr.{before_nul, read, write}
use sky_saga_rs.FixedStr.Decoded.{AreChars, from_utf8_lossy-as_bytes}
use sky_saga_rs.FixedStr.Boundaries.{kept, back-kept, take-kept}

NoNul : List ℕ → Type 0
NoNul [] = Unit
NoNul (b ∷ bs) = (0 < b) × NoNul bs

NoNul-append : (xs ys : List ℕ) → NoNul xs → NoNul ys → NoNul (xs ++ ys)
unfolding NoNul
NoNul-append [] ys h g = g
NoNul-append (x ∷ xs) ys h g = (h.0, NoNul-append xs ys h.1 g)

bytes_of-NoNul : (c : ℕ) → 0 < c → NoNul (bytes_of c)
unfolding NoNul
bytes_of-NoNul c h = elim (Bool-cases (ltb c 0x80)) [
  | inl one ↦ rw one (h, tt)
  | inr over_one ↦ elim (Bool-cases (ltb c 0x800)) [
    | inl two ↦ rw (over_one, two) (omega arith, (omega arith, tt))
    | inr over_two ↦ elim (Bool-cases (ltb c 0x10000)) [
      | inl three ↦ rw (over_one, over_two, three) (omega arith, (omega arith, (omega arith, tt)))
      | inr over_three ↦
          rw (over_one, over_two, over_three)
            (omega arith, (omega arith, (omega arith, (omega arith, tt))))
    ]
  ]
]

as_bytes-NoNul : (t : Text) → AreChars t → NoNul (as_bytes t)
unfolding NoNul as_bytes AreChars
as_bytes-NoNul [] h = tt
as_bytes-NoNul (c ∷ cs) h =
    NoNul-append (bytes_of c) (as_bytes cs) (bytes_of-NoNul c h.0.positive) (as_bytes-NoNul cs h.1)

before_nul-filled : (bs : List ℕ) (n : ℕ) → NoNul bs → before_nul (bs ++ replicate n 0) ≡ bs
unfolding before_nul NoNul
before_nul-filled [] zero h = refl
before_nul-filled [] (suc n) h = refl
before_nul-filled (b ∷ bs) n h =
    let positive = h.0 in
    let there : (b == 0) ≡ false = ground (arith, positive) in
    rw there (ap (λ more. b ∷ more) (before_nul-filled bs n h.1))

kept-AreChars : (capacity : ℕ) (t : Text) → AreChars t → AreChars (kept capacity t)
unfolding kept AreChars
kept-AreChars capacity [] h = tt
kept-AreChars capacity (c ∷ cs) h = elim (Bool-cases (leb (length (bytes_of c)) capacity)) [
  | inl fits ↦ rw fits (h.0, kept-AreChars (capacity - length (bytes_of c)) cs h.1)
  | inr over ↦ rw over tt
]

write-kept :
    (capacity : ℕ) (t : Text)
    → write (suc capacity) t
      ≡ as_bytes (kept capacity t)
        ++ replicate (suc capacity - length (as_bytes (kept capacity t))) 0
unfolding write
write-kept capacity t = rw (back-kept capacity t, take-kept capacity t) refl

kept-within : (capacity : ℕ) (t : Text) → length (as_bytes (kept capacity t)) ≤ capacity
unfolding kept as_bytes
kept-within capacity [] = omega arith
kept-within capacity (c ∷ cs) = elim (Bool-cases (leb (length (bytes_of c)) capacity)) [
  | inl fits ↦
      let left = capacity - length (bytes_of c) in
      let rest = kept-within left cs in
      let all = length-append (bytes_of c) (as_bytes (kept left cs)) in rw fits (ground arith)
  | inr over ↦ rw over (omega arith)
]

kept_all : (capacity : ℕ) (t : Text) → length (as_bytes t) ≤ capacity → kept capacity t ≡ t
unfolding kept as_bytes
kept_all capacity [] h = refl
kept_all capacity (c ∷ cs) h =
    let all = length-append (bytes_of c) (as_bytes cs) in
    let fits : leb (length (bytes_of c)) capacity ≡ true = ground arith in
    rw fits (ap (λ rest. c ∷ rest) (kept_all (capacity - length (bytes_of c)) cs (omega arith)))

-- What is read back of a field of any width but 0 is the longest start of the string whose UTF-8
-- leaves a byte for the NUL, with no part of a character, where the string has no NUL.
pub read-write :
    (capacity : ℕ) (t : Text) → AreChars t → read (write (suc capacity) t) ≡ kept capacity t
unfolding read
read-write capacity t h =
    let some_chars = kept-AreChars capacity t h in
    let some_bytes = as_bytes-NoNul (kept capacity t) some_chars in
    let filling = suc capacity - length (as_bytes (kept capacity t)) in
    rw (write-kept capacity t, before_nul-filled (as_bytes (kept capacity t)) filling some_bytes)
      (from_utf8_lossy-as_bytes (kept capacity t) some_chars)

pub read-write_short :
    (capacity : ℕ) (t : Text)
    → AreChars t
    → length (as_bytes t) ≤ capacity
    → read (write (suc capacity) t) ≡ t
read-write_short capacity t h g = read-write capacity t h ∙ kept_all capacity t g

-- The field is filled, whatever the string.
pub length-write : (capacity : ℕ) (t : Text) → length (write (suc capacity) t) ≡ suc capacity
length-write capacity t =
    let text = as_bytes (kept capacity t) in
    let filling = suc capacity - length text in
    let within = kept-within capacity t in
    let zeros : length {A = ℕ} (replicate filling 0) ≡ filling =
      length-replicate {A = ℕ} filling 0 in
    let all = length-append text (replicate filling 0) in
    rw (write-kept capacity t) (omega (arith, all, zeros, within))
