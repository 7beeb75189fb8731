-- ===== src/State/Lifecycle.antt =====
-- crates/skysaga-state/src/lib.rs: what becomes of a character.
use sky_saga_rs.Common.{ℕ, ◌≡◌, refl, ap, ◌∙◌, Bool, false, Option, none, some, arith}
use sky_saga_rs.Common.Options.{◌>>=◌}
use sky_saga_rs.Common.Equality.{Eq_nat, Eq_list}
use sky_saga_rs.Common.Table.{look, look-put_same}
use sky_saga_rs.Common.Text.{Text, to_ascii_lowercase}
use sky_saga_rs.State.Types.{
  Account, Character, LoginResult, AppState, ok, err, Eq_StoredMail, Eq_StoredItem,
  Eq_StoredBinding, Eq_StoredProgress,
}
use sky_saga_rs.State.Characters.{
  character_of, with_character, created_for, create_character, existing_or, ensure_character,
  deleted_from, deleted_for, delete_character,
}

-- The character that is given to an account that is there is its character.
character_of-with_character :
    (account : Text) (found : Account) (o : Option Character) (s : AppState)
    → character_of account (with_character (to_ascii_lowercase account) found o s) ≡ o
unfolding character_of
character_of-with_character account found o s =
    rw
      (look-put_same s.inner.accounts (to_ascii_lowercase account) (record found { character = o }))
      refl

ok-eq {ℓ} : {A : Type ℓ} {x y : A} → LoginResult.ok x ≡ LoginResult.ok y → x ≡ y
ok-eq {x = x} h = ap (λ r. elim r [ ok z ↦ z | err e ↦ x ]) h

-- After `create_character` has given a character, that is the account's character.
pub character_of-create_character :
    (uuid : ℕ) (account : Text) (name : Option Text) (s : AppState) (c : Character)
    → (create_character uuid account name s).0 ≡ ok c
    → character_of account (create_character uuid account name s).1 ≡ some c
unfolding create_character character_of
character_of-create_character uuid account name s c = created (look s.inner.accounts key)
  where
    key : Text
    key = to_ascii_lowercase account

    created :
        (o : Option Account)
        → (created_for uuid key name s o).0 ≡ ok c
        → character_of account (created_for uuid key name s o).1 ≡ some c
    created none h = ground arith
    created (some found) h = character_of-with_character account found _ s ∙ ap some (ok-eq h)

-- Asking again for the active character gives the one that the first request found or made.
pub ensure_character_again :
    (uuid second : ℕ) (account : Text) (s : AppState) (c : Character)
    → (ensure_character uuid account s).0 ≡ ok c
    → ensure_character second account (ensure_character uuid account s).1
      ≡ (ok c, (ensure_character uuid account s).1)
unfolding ensure_character
ensure_character_again uuid second account s c h =
    let there = ensured (character_of account s) refl h in rw there refl
  where
    ensured :
        (o : Option Character)
        → character_of account s ≡ o
        → (existing_or o (create_character uuid account none s) s).0 ≡ ok c
        → character_of account (existing_or o (create_character uuid account none s) s).1 ≡ some c
    ensured none e h = character_of-create_character uuid account none s c h
    ensured (some old) e h = e ∙ ap some (ok-eq h)

missing_character :
    (account : Text) (t : AppState) (found : Account)
    → look t.inner.accounts (to_ascii_lowercase account) ≡ some found
    → found.character ≡ none
    → (character_of account t ≡ none) × (delete_character account t ≡ (ok false, t))
unfolding character_of delete_character
missing_character account t found e f = (
  ap (λ o. o >>= λ entry. entry.character) e ∙ f,
  ap (deleted_for (to_ascii_lowercase account) t) e
      ∙ ap (deleted_from (to_ascii_lowercase account) t found) f,
)

-- A character that has been deleted is gone, and deleting once more is answered that there was none, and
-- changes nothing.
pub delete_character_again :
    (account : Text) (s : AppState) (deleted : Bool)
    → (delete_character account s).0 ≡ ok deleted
    → (character_of account (delete_character account s).1 ≡ none)
      × (delete_character account (delete_character account s).1
          ≡ (ok false, (delete_character account s).1))
unfolding delete_character
delete_character_again account s deleted = removed (look s.inner.accounts key) refl
  where
    key : Text
    key = to_ascii_lowercase account

    taken :
        (found : Account) (o : Option Character)
        → look s.inner.accounts key ≡ some found
        → found.character ≡ o
        → (character_of account (deleted_from key s found o).1 ≡ none)
          × (delete_character account (deleted_from key s found o).1
              ≡ (ok false, (deleted_from key s found o).1))
    taken found none e f = missing_character account s found e f
    taken found (some c) e f =
        missing_character account (deleted_from key s found (some c)).1
          (record found { character = none })
          (look-put_same s.inner.accounts key (record found { character = none })) refl

    removed :
        (o : Option Account)
        → look s.inner.accounts key ≡ o
        → (deleted_for key s o).0 ≡ ok deleted
        → (character_of account (deleted_for key s o).1 ≡ none)
          × (delete_character account (deleted_for key s o).1 ≡ (ok false, (deleted_for key s o).1))
    removed none e h = ground arith
    removed (some found) e h = taken found found.character e refl
