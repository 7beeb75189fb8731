-- ===== src/State/Characters.antt =====
-- crates/skysaga-state/src/lib.rs: the character of an account.
use sky_saga_rs.Common.{ℕ, Bool, true, false, Option, none, some, if◌then◌else◌}
use sky_saga_rs.Common.Options.{◌>>=◌, unwrap_or}
use sky_saga_rs.Common.Equality.{Eq_nat, Eq_list}
use sky_saga_rs.Common.Table.{look, put}
use sky_saga_rs.Packets.Customisation.{CustomisationData, default_customisation}
use sky_saga_rs.Common.Text.{Text, is_empty, trim, to_ascii_lowercase}
use sky_saga_rs.State.Types.{
  Account, Character, LoginResult, ok, err, bad_credentials, no_such_account, character_change,
  delete_character_change, AppState,
}
use sky_saga_rs.State.Saves.{report}

-- `character`
unfoldable pub character_of : Text → AppState → Option Character
character_of account s =
    look s.inner.accounts (to_ascii_lowercase account) >>= λ entry. entry.character

-- The account gets the character, as what `get_mut` found says.
abbrev pub with_character : Text → Account → Option Character → AppState → AppState
with_character key entry new_character s = record s {
  inner = record (s.inner) {
    accounts = put s.inner.accounts key (record entry { character = new_character });
  };
}

-- What `create_character` makes of the account that it finds.
abbrev pub created_for :
    ℕ → (key : Text) → Option Text → AppState → Option Account → LoginResult Character × AppState
created_for uuid key name s none = (err no_such_account, s)
created_for uuid key name s (some entry) =
    let created : Character = record {
      uuid = uuid;
      name = unwrap_or entry.display_name name;
      home_biome = none;
      appearance = default_customisation;
    } in
    (ok created, report (character_change key created) (with_character key entry (some created) s))

-- `create_character`, with a fresh uuid.
unfoldable pub create_character :
    ℕ → (account : Text) → (name : Option Text) → AppState → LoginResult Character × AppState
create_character uuid account name s =
    let key = to_ascii_lowercase account in created_for uuid key name s (look s.inner.accounts key)

abbrev pub existing_or :
    Option Character
    → LoginResult Character × AppState
    → AppState
    → LoginResult Character × AppState
existing_or none created s = created
existing_or (some existing) created s = (ok existing, s)

unfoldable pub ensure_character : ℕ → (account : Text) → AppState → LoginResult Character × AppState
unfolding character_of create_character
ensure_character uuid account s =
    existing_or (character_of account s) (create_character uuid account none s) s

-- `entry.character.take()`
abbrev pub deleted_from :
    (key : Text) → AppState → Account → Option Character → LoginResult Bool × AppState
deleted_from key s entry none = (ok false, s)
deleted_from key s entry (some old) =
    (ok true, report (delete_character_change key) (with_character key entry none s))

abbrev pub deleted_for : (key : Text) → AppState → Option Account → LoginResult Bool × AppState
deleted_for key s none = (err no_such_account, s)
deleted_for key s (some entry) = deleted_from key s entry entry.character

unfoldable pub delete_character : (account : Text) → AppState → LoginResult Bool × AppState
delete_character account s =
    let key = to_ascii_lowercase account in deleted_for key s (look s.inner.accounts key)

abbrev pub updated_from :
    (key : Text)
    → (Character → Character)
    → AppState
    → Account
    → Option Character
    → LoginResult Character × AppState
updated_from key change s entry none = (err no_such_account, s)
updated_from key change s entry (some old) =
    let updated = change old in
    (ok updated, report (character_change key updated) (with_character key entry (some updated) s))

abbrev pub updated_for :
    (key : Text)
    → (Character → Character)
    → AppState
    → Option Account
    → LoginResult Character × AppState
updated_for key change s none = (err no_such_account, s)
updated_for key change s (some entry) = updated_from key change s entry entry.character

unfoldable pub update_character :
    (account : Text) → (Character → Character) → AppState → LoginResult Character × AppState
update_character account change s =
    let key = to_ascii_lowercase account in updated_for key change s (look s.inner.accounts key)

unfoldable pub set_character_name :
    (account name : Text) → AppState → LoginResult Character × AppState
unfolding update_character
set_character_name account new_name = update_character account (λ c. record c { name = new_name })

unfoldable pub set_home_biome : (account biome : Text) → AppState → LoginResult Character × AppState
unfolding trim update_character
set_home_biome account biome s =
    if is_empty (trim biome)
    then (err bad_credentials, s)
    else update_character account (λ c. record c { home_biome = some biome }) s

unfoldable pub set_appearance :
    (account : Text) → CustomisationData → AppState → LoginResult Character × AppState
unfolding update_character
set_appearance account looks = update_character account (λ c. record c { appearance = looks })
