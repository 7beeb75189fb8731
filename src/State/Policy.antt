-- ===== src/State/Policy.antt =====
-- crates/skysaga-state/src/lib.rs: who may sign in, and which names a character may have.
use sky_saga_rs.Common.{
  Bool, true, false, not, ◌&&◌, ◌||◌, List, [], ◌∷◌, Option, none, some, ℕ, leb, ◌==◌,
  if◌then◌else◌,
}
use sky_saga_rs.Common.Equality.{◌=?◌, Eq_nat, Eq_list, Eq_option}
use sky_saga_rs.Common.Table.{Table, look, put_all, values}
use sky_saga_rs.Common.Text.{
  Text, is_empty, trim, to_ascii_lowercase, eq_ignore_ascii_case, is_ascii_alphanumeric,
  byte_length, split, split_once,
}
use sky_saga_rs.State.Types.{
  CredentialPolicy, any_non_empty, fixed, LoginResult, ok, err, bad_credentials, no_such_account,
  Account, AppState,
}

-- One entry of the list, with its name lowercased; nothing for an entry without a colon.
unfoldable pub entry_of : Text → Option (Text × Text)
unfolding trim
entry_of entry = elim (split_once 58 entry) [
  | none ↦ none
  | some (user, password) ↦ some (to_ascii_lowercase (trim user), password)
]

abbrev with_entry : Option (Text × Text) → List (Text × Text) → List (Text × Text)
with_entry none rest = rest
with_entry (some entry) rest = entry ∷ rest

-- The entries that the pieces between the commas stand for.
unfoldable pub entries : List Text → List (Text × Text)
unfolding entry_of
entries [] = []
entries (piece ∷ pieces) =
    let rest = entries pieces in
    if is_empty (trim piece) then rest else with_entry (entry_of (trim piece)) rest

abbrev policy_of : Table Text Text → CredentialPolicy
policy_of accounts = if is_empty accounts then any_non_empty else fixed accounts

-- `CredentialPolicy::parse`
unfoldable pub parse : Text → CredentialPolicy
unfolding split entries put_all
parse spec = policy_of (put_all [] (entries (split 44 spec)))

abbrev pub max_character_name : ℕ
max_character_name = 32

abbrev pub is_name_char : ℕ → Bool
is_name_char c = is_ascii_alphanumeric c || c == 95

abbrev pub every : (ℕ → Bool) → Text → Bool
every test [] = true
every test (c ∷ cs) = test c && every test cs

unfoldable pub is_allowed_character_name : Text → Bool
unfolding byte_length
is_allowed_character_name name =
    not (is_empty name) && leb (byte_length name) max_character_name && every is_name_char name

pub record NameCheck : Type 0 where
  pub profane : Bool
  pub contains_not_allowed_characters : Bool
  pub already_exists : Bool

-- `NameCheck::OK`
abbrev pub all_passed : NameCheck
all_passed = record {
  profane = false;
  contains_not_allowed_characters = false;
  already_exists = false;
}

-- `NameCheck::is_ok`
abbrev pub is_ok : NameCheck → Bool
is_ok c = not c.profane && not c.contains_not_allowed_characters && not c.already_exists

-- Whether the account's character has this name.
abbrev pub is_named : Text → Account → Bool
is_named name account = elim (account.character) [
  | none ↦ false
  | some character ↦ eq_ignore_ascii_case character.name name
]

abbrev pub any_named : Text → List Account → Bool
any_named name [] = false
any_named name (account ∷ others) = is_named name account || any_named name others

unfoldable pub check_character_name : Text → AppState → NameCheck
unfolding values is_allowed_character_name eq_ignore_ascii_case
check_character_name name s = record {
  profane = false;
  contains_not_allowed_characters = not (is_allowed_character_name name);
  already_exists = any_named name (values s.inner.accounts);
}

-- The policy's answer to a trimmed name and a password.
abbrev pub admission : CredentialPolicy → (username password : Text) → LoginResult (Unit {0})
admission any_non_empty username password = ok tt
admission (fixed accounts) username password = elim (look accounts (to_ascii_lowercase username)) [
  | none ↦ err no_such_account
  | some expected ↦ if expected =? password then ok tt else err bad_credentials
]
