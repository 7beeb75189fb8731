-- ===== src/State/Invariant/Characters.antt =====
-- The operations on characters keep what Sound says of the state.
use sky_saga_rs.Common.{ℕ, ◌≡◌, refl, ap, ◌∙◌, false, Option, none, some, inl, inr, Bool-cases}
use sky_saga_rs.Common.Equality.{Eq_nat, Eq_list, Eq_pair}
use sky_saga_rs.Common.Table.{look}
use sky_saga_rs.Common.Text.{Text, trim, to_ascii_lowercase, is_empty}
use sky_saga_rs.State.Types.{
  Account, Character, AppState, Eq_triple, Eq_StoredMail, Eq_StoredItem, Eq_StoredBinding,
  Eq_StoredProgress, Eq_StoredBlock, Eq_StoredDevice,
}
use sky_saga_rs.State.Characters.{
  with_character, create_character, ensure_character, delete_character, update_character,
  set_home_biome, character_of, created_for, existing_or, deleted_from, deleted_for, updated_from,
  updated_for,
}
use sky_saga_rs.State.Stored.{named}
use sky_saga_rs.Common.{subst, arith}
use sky_saga_rs.Common.Table.{some-eq}
use sky_saga_rs.State.Sound.{IsSound, IsSound-put}

-- A character without a blank home biome.
unfoldable pub IsHoused : Character → Type 0
IsHoused c = (biome : Text) → c.home_biome ≡ some biome → is_empty (trim biome) ≡ false

pub given-IsSound :
    (key : Text) (found : Account) (c : Character) (s : AppState)
    → IsSound (s.inner)
    → IsHoused c
    → IsSound ((with_character key found (some c) s).inner)
unfolding IsHoused
given-IsSound key found c s h housed =
    IsSound-put (s.inner) key _ h
      (λ d biome e f. housed biome (ap (λ x. x.home_biome) (some-eq e) ∙ f))

pub create_character-IsSound :
    (uuid : ℕ) (account : Text) (name : Option Text) (s : AppState)
    → IsSound (s.inner)
    → IsSound ((create_character uuid account name s).1.inner)
unfolding create_character IsHoused
create_character-IsSound uuid account name s h = created (look s.inner.accounts key)
  where
    key : Text
    key = to_ascii_lowercase account

    created : (o : Option Account) → IsSound ((created_for uuid key name s o).1.inner)
    created none = h
    created (some found) = given-IsSound key found _ s h (λ biome e. ground arith)

pub ensure_character-IsSound :
    (uuid : ℕ) (account : Text) (s : AppState)
    → IsSound (s.inner)
    → IsSound ((ensure_character uuid account s).1.inner)
unfolding ensure_character
ensure_character-IsSound uuid account s h = ensured (character_of account s)
  where
    ensured :
        (o : Option Character)
        → IsSound ((existing_or o (create_character uuid account none s) s).1.inner)
    ensured none = create_character-IsSound uuid account none s h
    ensured (some c) = h

pub delete_character-IsSound :
    (account : Text) (s : AppState)
    → IsSound (s.inner)
    → IsSound ((delete_character account s).1.inner)
unfolding delete_character
delete_character-IsSound account s h = deleted (look s.inner.accounts key)
  where
    key : Text
    key = to_ascii_lowercase account

    taken :
        (found : Account) (o : Option Character) → IsSound ((deleted_from key s found o).1.inner)
    taken found none = h
    taken found (some c) = IsSound-put (s.inner) key _ h (λ d biome e f. ground arith)

    deleted : (o : Option Account) → IsSound ((deleted_for key s o).1.inner)
    deleted none = h
    deleted (some found) = taken found found.character

pub update_character-IsSound :
    (account : Text) (change : Character → Character) (s : AppState)
    → ((c : Character) → IsHoused c → IsHoused (change c))
    → IsSound (s.inner)
    → IsSound ((update_character account change s).1.inner)
unfolding update_character IsHoused
update_character-IsSound account change s keeps h = updated (look s.inner.accounts key) refl
  where
    key : Text
    key = to_ascii_lowercase account

    changed :
        (found : Account) (o : Option Character)
        → look s.inner.accounts key ≡ some found
        → found.character ≡ o
        → IsSound ((updated_from key change s found o).1.inner)
    changed found none e f = h
    changed found (some c) e f =
        given-IsSound key found (change c) s h (keeps c (λ biome g. h.3 key found e c biome f g))

    updated :
        (o : Option Account)
        → look s.inner.accounts key ≡ o
        → IsSound ((updated_for key change s o).1.inner)
    updated none e = h
    updated (some found) e = changed found found.character e refl

pub set_home_biome-IsSound :
    (account biome : Text) (s : AppState)
    → IsSound (s.inner)
    → IsSound ((set_home_biome account biome s).1.inner)
unfolding set_home_biome IsHoused
set_home_biome-IsSound account biome s h = elim (Bool-cases (is_empty (trim biome))) [
  | inl blank ↦ rw blank h
  | inr named ↦ rw named (
      update_character-IsSound account (λ c. record c { home_biome = some biome }) s
        (λ c housed other e. subst (λ b. is_empty (trim b) ≡ false) (some-eq e) named) h)
]
