-- ===== src/State/Spelled.antt =====
-- Which names crates/skysaga-state/src/lib.rs takes for one: `trim` and `to_ascii_lowercase`.
use sky_saga_rs.Common.{
  ℕ, ◌≡◌, ◌≤◌, ◌+◌, refl, sym, ap, ◌∙◌, ◌⊎◌, inl, inr, Bool, true, false, ◌&&◌, [], ◌∷◌, ◌++◌, map,
  append-nil, leb, Bool-cases, arith,
}
use sky_saga_rs.Common.Text.{
  Text, is_whitespace, trim_start, trim_end, trim, is_empty, lower, to_ascii_lowercase,
}
use sky_saga_rs.State.Saves.{account_key}

pub and-true : (a b : Bool) → (a && b) ≡ true → (a ≡ true) × (b ≡ true)
and-true true b h = (refl, h)
and-true false b h = ground arith

-- Blanks only, of those that Unicode calls white space.
abbrev pub AreBlank : Text → Type 0
AreBlank [] = Unit
AreBlank (c ∷ cs) = (is_whitespace c ≡ true) × AreBlank cs

-- The same character, or the two cases of an ASCII letter.
abbrev pub SameLetter : ℕ → ℕ → Type 0
SameLetter a b =
    (a ≡ b) ⊎ (((b'A' ≤ a) × (a ≤ b'Z') × (b ≡ a + 32)) ⊎ ((b'A' ≤ b) × (b ≤ b'Z') × (a ≡ b + 32)))

abbrev pub SameLetters : Text → Text → Type 0
SameLetters [] [] = Unit
SameLetters [] (b ∷ bs) = ⊥
SameLetters (a ∷ more) [] = ⊥
SameLetters (a ∷ more) (b ∷ bs) = SameLetter a b × SameLetters more bs

-- A name with blanks around it, or none.
pub record Padded (name text : Text) : Type 0 where
  pub front : Text
  pub back : Text
  pub text_is : text ≡ front ++ (name ++ back)
  pub front_blank : AreBlank front
  pub back_blank : AreBlank back

-- Two texts that have the same letters between their blanks.
pub record SameName (s t : Text) : Type 0 where
  pub one : Text
  pub other : Text
  pub one_in : Padded one s
  pub other_in : Padded other t
  pub letters : SameLetters one other

trim_start-blank :
    (front rest : Text) → AreBlank front → trim_start (front ++ rest) ≡ trim_start rest
unfolding trim_start
trim_start-blank [] rest h = refl
trim_start-blank (c ∷ cs) rest (first, later) = rw first (trim_start-blank cs rest later)

trim_end-blank : (name back : Text) → AreBlank back → trim_end (name ++ back) ≡ trim_end name
unfolding trim_end
trim_end-blank [] [] h = refl
trim_end-blank [] (c ∷ cs) (first, later) = rw (first, trim_end-blank [] cs later) refl
trim_end-blank (c ∷ cs) back h = rw (trim_end-blank cs back h) refl

trimmed_back :
    (name back : Text)
    → AreBlank back
    → trim_end (trim_start (name ++ back)) ≡ trim_end (trim_start name)
unfolding trim_start trim_end
trimmed_back [] back h =
    ap (λ t. trim_end (trim_start t)) (sym (append-nil back))
    ∙ ap trim_end (trim_start-blank back [] h)
trimmed_back (c ∷ cs) back h = elim (Bool-cases (is_whitespace c)) [
  | inl blank ↦ rw blank (trimmed_back cs back h)
  | inr other ↦ rw other (trim_end-blank (c ∷ cs) back h)
]

trim-Padded : (name text : Text) → Padded name text → trim text ≡ trim name
unfolding trim
trim-Padded name text p =
    ap (λ t. trim_end (trim_start t)) p.text_is
    ∙ (ap trim_end (trim_start-blank p.front (name ++ p.back) p.front_blank)
        ∙ trimmed_back name p.back p.back_blank)

is_whitespace-lower : (c : ℕ) → is_whitespace (lower c) ≡ is_whitespace c
unfolding is_whitespace
is_whitespace-lower c = elim (Bool-cases (leb 65 c && leb c 90)) [
  | inl upper ↦ ground arith
  | inr other ↦ rw other refl
]

trim_start-lower : (t : Text) → trim_start (map lower t) ≡ map lower (trim_start t)
unfolding trim_start
trim_start-lower [] = refl
trim_start-lower (c ∷ cs) = rw (is_whitespace-lower c) (elim (Bool-cases (is_whitespace c)) [
  | inl blank ↦ rw blank (trim_start-lower cs)
  | inr other ↦ rw other refl
])

is_empty-lower : (t : Text) → is_empty (map lower t) ≡ is_empty t
is_empty-lower [] = refl
is_empty-lower (c ∷ cs) = refl

trim_end-lower : (t : Text) → trim_end (map lower t) ≡ map lower (trim_end t)
unfolding trim_end
trim_end-lower [] = refl
trim_end-lower (c ∷ cs) =
    rw (is_whitespace-lower c, trim_end-lower cs, is_empty-lower (trim_end cs))
      (elim (Bool-cases (is_whitespace c && is_empty (trim_end cs))) [
        | inl blank ↦ rw blank refl
        | inr other ↦ rw other refl
      ])

trim-lower : (t : Text) → trim (map lower t) ≡ map lower (trim t)
unfolding trim
trim-lower t = ap trim_end (trim_start-lower t) ∙ trim_end-lower (trim_start t)

lower-SameLetter : (a b : ℕ) → SameLetter a b → lower a ≡ lower b
lower-SameLetter a b h = ground arith

SameLetter-lower : (a b : ℕ) → lower a ≡ lower b → SameLetter a b
SameLetter-lower a b h = ground arith

lower-SameLetters : (s t : Text) → SameLetters s t → map lower s ≡ map lower t
lower-SameLetters [] [] h = refl
lower-SameLetters [] (b ∷ bs) h = absurd h
lower-SameLetters (a ∷ more) [] h = absurd h
lower-SameLetters (a ∷ more) (b ∷ bs) (first, later) =
    rw (lower-SameLetter a b first, lower-SameLetters more bs later) refl

SameLetters-lower : (s t : Text) → map lower s ≡ map lower t → SameLetters s t
SameLetters-lower [] [] h = tt
SameLetters-lower [] (b ∷ bs) h = absurd (ground arith)
SameLetters-lower (a ∷ more) [] h = absurd (ground arith)
SameLetters-lower (a ∷ more) (b ∷ bs) h =
    let first : lower a ≡ lower b = cc in
    let later : map lower more ≡ map lower bs = cc in
    (SameLetter-lower a b first, SameLetters-lower more bs later)

-- Names that are the same have the same key.
pub account_key-SameName : (s t : Text) → SameName s t → account_key s ≡ account_key t
unfolding to_ascii_lowercase
account_key-SameName s t same =
    ap (map lower) (trim-Padded same.one s same.one_in)
    ∙ (sym (trim-lower same.one)
        ∙ (ap trim (lower-SameLetters same.one same.other same.letters)
            ∙ (trim-lower same.other
                ∙ sym (ap (map lower) (trim-Padded same.other t same.other_in)))))

trim_start-front : (t : Text) → (front : Text) × (t ≡ front ++ trim_start t) × AreBlank front
unfolding trim_start
trim_start-front [] = ([], refl, tt)
trim_start-front (c ∷ cs) = elim (Bool-cases (is_whitespace c)) [
  | inl blank ↦
      let (front, parts, blanks) = trim_start-front cs in
      rw blank (c ∷ front, ap (λ more. c ∷ more) parts, (blank, blanks))
  | inr other ↦ rw other ([], refl, tt)
]

is_empty-nil : (t : Text) → is_empty t ≡ true → t ≡ []
is_empty-nil [] h = refl
is_empty-nil (c ∷ cs) h = absurd (ground arith)

trim_end-back : (t : Text) → (back : Text) × (t ≡ trim_end t ++ back) × AreBlank back
unfolding trim_end
trim_end-back [] = ([], refl, tt)
trim_end-back (c ∷ cs) =
    let (back, parts, blanks) = trim_end-back cs in
    elim (Bool-cases (is_whitespace c && is_empty (trim_end cs))) [
      | inl all ↦
          let (blank, rest) = and-true (is_whitespace c) (is_empty (trim_end cs)) all in
          let gone = is_empty-nil (trim_end cs) rest in
          rw all
            (c ∷ back, ap (λ more. c ∷ more) (parts ∙ ap (λ t. t ++ back) gone), (blank, blanks))
      | inr other ↦ rw other (back, ap (λ more. c ∷ more) parts, blanks)
    ]

Padded-trim : (t : Text) → Padded (trim t) t
unfolding trim
Padded-trim t =
    let (front, first, before) = trim_start-front t in
    let (back, second, after) = trim_end-back (trim_start t) in
    record {
      front = front;
      back = back;
      text_is = first ∙ ap (λ more. front ++ more) second;
      front_blank = before;
      back_blank = after;
    }

-- Names that have the same key are the same.
pub SameName-account_key : (s t : Text) → account_key s ≡ account_key t → SameName s t
unfolding to_ascii_lowercase
SameName-account_key s t h = record {
  one = trim s;
  other = trim t;
  one_in = Padded-trim s;
  other_in = Padded-trim t;
  letters = SameLetters-lower (trim s) (trim t) h;
}
