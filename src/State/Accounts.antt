-- ===== src/State/Accounts.antt =====
-- crates/skysaga-state/src/lib.rs: signing in, and whose session or address it is.
use sky_saga_rs.Common.{ℕ, Bool, true, false, List, [], ◌∷◌, Option, none, some, if◌then◌else◌}
use sky_saga_rs.Common.Options.{◌>>=◌}
use sky_saga_rs.Common.Equality.{Eq_nat, Eq_list}
use sky_saga_rs.Common.Table.{Table, look, put, values}
use sky_saga_rs.Common.Text.{Text, is_empty, trim, to_ascii_lowercase}
use sky_saga_rs.State.Types.{
  Account, Session, LoginResult, ok, err, bad_credentials, account_change, AppState,
}
use sky_saga_rs.State.Policy.{admission}
use sky_saga_rs.State.Saves.{report}

-- `entry(key).or_insert_with(..)`: the account, and the accounts with it.
abbrev pub entry_from :
    Option Account → Table Text Account → Text → (username : Text) → Account × Table Text Account
entry_from (some account) accounts key username = (account, accounts)
entry_from none accounts key username =
    let account : Account = record { display_name = username; character = none } in
    (account, put accounts key account)

abbrev pub entry : Table Text Account → Text → (username : Text) → Account × Table Text Account
entry accounts key username = entry_from (look accounts key) accounts key username

-- What follows the checks; the token is the fresh uuid, written out.
unfoldable pub open_session : (token username : Text) → AppState → Session × AppState
open_session token username s =
    let key = to_ascii_lowercase username in
    let found = entry s.inner.accounts key username in
    let name = found.0.display_name in
    (
      record { account = name; token = token },
      report (account_change key name) (record s {
        inner = record (s.inner) {
          accounts = found.1;
          sessions = put s.inner.sessions token key;
          most_recent = some key;
        };
      }),
    )

abbrev pub admitted :
    LoginResult (Unit {0}) → Session × AppState → AppState → LoginResult Session × AppState
admitted (err e) opened s = (err e, s)
admitted (ok u) opened s = (ok opened.0, opened.1)

unfoldable pub authenticate :
    (token username password : Text) → AppState → LoginResult Session × AppState
unfolding trim open_session
authenticate token username password s =
    let name = trim username in
    if is_empty name
    then (err bad_credentials, s)
    else admitted (admission s.policy name password) (open_session token name s) s

unfoldable pub display_name_of : Text → AppState → Option Text
display_name_of key s = look s.inner.accounts key >>= λ account. some account.display_name

unfoldable pub account_for_token : Text → AppState → Option Text
unfolding display_name_of
account_for_token token s = look s.inner.sessions token >>= λ key. display_name_of key s

abbrev pub has {ℓ} : {V : Type ℓ} → Option V → Bool
has none = false
has (some v) = true

unfoldable pub bind_peer : (peer : List ℕ) (account : Text) → AppState → AppState
bind_peer peer account s =
    let key = to_ascii_lowercase account in
    if has (look s.inner.accounts key)
    then record s {
      inner = record (s.inner) { peers = put s.inner.peers peer key; most_recent = some key };
    }
    else s

abbrev pub or_else {ℓ} : {A : Type ℓ} → Option A → Option A → Option A
or_else none other = other
or_else (some a) other = some a

unfoldable pub account_for_peer : (peer : List ℕ) → AppState → Option Text
unfolding display_name_of
account_for_peer peer s =
    or_else (look s.inner.peers peer) s.inner.most_recent >>= λ key. display_name_of key s

abbrev pub display_names : List Account → List Text
display_names [] = []
display_names (account ∷ others) = account.display_name ∷ display_names others

-- `accounts`
unfoldable pub account_names : AppState → List Text
unfolding values
account_names s = display_names (values s.inner.accounts)
