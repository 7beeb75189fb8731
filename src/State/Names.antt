-- ===== src/State/Names.antt =====
-- crates/skysaga-state/src/lib.rs: which names are allowed.
use sky_saga_rs.Common.{ℕ, ◌≡◌, ◌≤◌, ◌<◌, refl, subst, ◌↔◌, ◌⊎◌, true, [], ◌∷◌, length, leb, arith}
use sky_saga_rs.Common.Equality.{Eq_nat, Eq_list}
use sky_saga_rs.Common.Text.{Text, byte_length}
use sky_saga_rs.State.Types.{Eq_StoredMail, Eq_StoredItem, Eq_StoredBinding, Eq_StoredProgress}
use sky_saga_rs.State.Spelled.{and-true}
use sky_saga_rs.State.Policy.{is_name_char, every, is_allowed_character_name}

-- Each character of a text.
abbrev pub Each : (ℕ → Type 0) → Text → Type 0
Each P [] = Unit
Each P (c ∷ cs) = P c × Each P cs

-- An ASCII letter, an ASCII digit or the underscore.
abbrev pub IsNameChar : ℕ → Type 0
IsNameChar c =
    ((b'A' ≤ c) × (c ≤ b'Z'))
    ⊎ (((b'a' ≤ c) × (c ≤ b'z')) ⊎ (((b'0' ≤ c) × (c ≤ b'9')) ⊎ (c ≡ b'_')))

is_name_char-IsNameChar : (c : ℕ) → is_name_char c ≡ true → IsNameChar c
is_name_char-IsNameChar c h = ground arith

IsNameChar-is_name_char : (c : ℕ) → IsNameChar c → is_name_char c ≡ true
IsNameChar-is_name_char c h = ground arith

every-Each : (cs : Text) → every is_name_char cs ≡ true → Each IsNameChar cs
every-Each [] h = tt
every-Each (c ∷ cs) h = (is_name_char-IsNameChar c (first h), every-Each cs (later h))
  where
    first : every is_name_char (c ∷ cs) ≡ true → is_name_char c ≡ true
    first e = ground arith

    later : every is_name_char (c ∷ cs) ≡ true → every is_name_char cs ≡ true
    later e = ground arith

Each-every : (cs : Text) → Each IsNameChar cs → every is_name_char cs ≡ true
Each-every [] h = refl
Each-every (c ∷ cs) (first, later) = rw (IsNameChar-is_name_char c first, Each-every cs later) refl

IsNameChar-lt : (c : ℕ) → IsNameChar c → c < 0x80
IsNameChar-lt c h = ground arith

byte_length-length : (cs : Text) → Each IsNameChar cs → byte_length cs ≡ length cs
unfolding byte_length
byte_length-length [] h = refl
byte_length-length (c ∷ cs) (first, later) =
    let small = IsNameChar-lt c first in let shorter = byte_length-length cs later in ground arith

-- A name is allowed exactly when it has one to 32 characters and each is an ASCII letter, a digit or the
-- underscore.
pub is_allowed_character_name_iff :
    (name : Text)
    → (is_allowed_character_name name ≡ true)
      ↔ ((1 ≤ length name) × (length name ≤ 32) × Each IsNameChar name)
unfolding is_allowed_character_name
is_allowed_character_name_iff [] = (λ h. ground arith, λ h. absurd (omega (arith, h.0)))
is_allowed_character_name_iff (c ∷ cs) = (
  λ h.
      let (short, chars) =
        and-true (leb (byte_length (c ∷ cs)) 32) (every is_name_char (c ∷ cs)) h in
      let each = every-Each (c ∷ cs) chars in
      (
        omega arith,
        subst (λ n. n ≤ 32) (byte_length-length (c ∷ cs) each)
            (leb-le (byte_length (c ∷ cs)) short),
        each,
      ),
  λ h.
      rw (byte_length-length (c ∷ cs) h.2)
        (rw (le-leb (length (c ∷ cs)) h.1) (Each-every (c ∷ cs) h.2)),
)
  where
    leb-le : (n : ℕ) → leb n 32 ≡ true → n ≤ 32
    leb-le n e = ground arith

    le-leb : (n : ℕ) → n ≤ 32 → leb n 32 ≡ true
    le-leb n e = ground arith
