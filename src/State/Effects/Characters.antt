-- ===== src/State/Effects/Characters.antt =====
-- What the operations on characters do to what is stored.
use sky_saga_rs.Common.{ℕ, ◌≡◌, refl, ap, Option, none, some, inl, inr, Bool-cases}
use sky_saga_rs.Common.Equality.{Eq_nat, Eq_list, Eq_pair}
use sky_saga_rs.Common.Table.{look, put}
use sky_saga_rs.Common.Text.{Text, trim, to_ascii_lowercase, is_empty}
use sky_saga_rs.State.Types.{
  Account, Character, character_change, delete_character_change, AppState, Eq_triple, Eq_StoredMail,
  Eq_StoredItem, Eq_StoredBinding, Eq_StoredProgress, Eq_StoredBlock, Eq_StoredDevice,
}
use sky_saga_rs.State.Saves.{report}
use sky_saga_rs.State.Accounts.{entry}
use sky_saga_rs.State.Characters.{
  with_character, create_character, ensure_character, delete_character, update_character,
  set_home_biome, character_of, created_for, existing_or, deleted_from, deleted_for, updated_from,
  updated_for,
}
use sky_saga_rs.State.Stored.{stored, apply, named, put_character}
use sky_saga_rs.State.Effects.{reported, Effect, nothing}

-- An account that is there gets a character.
pub given-Effect :
    (key : Text) (entry : Account) (c : Character) (s : AppState)
    → look s.inner.accounts key ≡ some entry
    → Effect s (report (character_change key c) (with_character key entry (some c) s))
unfolding apply
given-Effect key entry c s e =
    reported (character_change key c)
      (record (s.inner) {
        accounts = put s.inner.accounts key (record entry { character = some c });
      })
      (ap
        (λ o. record (stored (s.inner)) {
          accounts = put_character s.inner.accounts key o (some c);
        })
        e)

pub create_character-Effect :
    (uuid : ℕ) (account : Text) (name : Option Text) (s : AppState)
    → Effect s (create_character uuid account name s).1
unfolding create_character
create_character-Effect uuid account name s = created (look s.inner.accounts key) refl
  where
    key : Text
    key = to_ascii_lowercase account

    created :
        (o : Option Account)
        → look s.inner.accounts key ≡ o
        → Effect s (created_for uuid key name s o).1
    created none e = nothing s
    created (some found) e = given-Effect key found _ s e

pub ensure_character-Effect :
    (uuid : ℕ) (account : Text) (s : AppState) → Effect s (ensure_character uuid account s).1
unfolding ensure_character
ensure_character-Effect uuid account s = ensured (character_of account s)
  where
    ensured :
        (o : Option Character) → Effect s (existing_or o (create_character uuid account none s) s).1
    ensured none = create_character-Effect uuid account none s
    ensured (some c) = nothing s

pub delete_character-Effect :
    (account : Text) (s : AppState) → Effect s (delete_character account s).1
unfolding delete_character apply
delete_character-Effect account s = deleted (look s.inner.accounts key) refl
  where
    key : Text
    key = to_ascii_lowercase account

    taken :
        (found : Account) (o : Option Character)
        → look s.inner.accounts key ≡ some found
        → Effect s (deleted_from key s found o).1
    taken found none e = nothing s
    taken found (some c) e =
        reported (delete_character_change key)
          (record (s.inner) {
            accounts = put s.inner.accounts key (record found { character = none });
          })
          (ap
            (λ o. record (stored (s.inner)) {
              accounts = put_character s.inner.accounts key o none;
            })
            e)

    deleted :
        (o : Option Account) → look s.inner.accounts key ≡ o → Effect s (deleted_for key s o).1
    deleted none e = nothing s
    deleted (some found) e = taken found found.character e

pub update_character-Effect :
    (account : Text) (change : Character → Character) (s : AppState)
    → Effect s (update_character account change s).1
unfolding update_character
update_character-Effect account change s = updated (look s.inner.accounts key) refl
  where
    key : Text
    key = to_ascii_lowercase account

    changed :
        (found : Account) (o : Option Character)
        → look s.inner.accounts key ≡ some found
        → Effect s (updated_from key change s found o).1
    changed found none e = nothing s
    changed found (some c) e = given-Effect key found (change c) s e

    updated :
        (o : Option Account)
        → look s.inner.accounts key ≡ o
        → Effect s (updated_for key change s o).1
    updated none e = nothing s
    updated (some found) e = changed found found.character e

pub set_home_biome-Effect :
    (account biome : Text) (s : AppState) → Effect s (set_home_biome account biome s).1
unfolding set_home_biome
set_home_biome-Effect account biome s = elim (Bool-cases (is_empty (trim biome))) [
  | inl blank ↦ rw blank (nothing s)
  | inr named ↦
      rw named (update_character-Effect account (λ c. record c { home_biome = some biome }) s)
]
