-- ===== src/State/Sessions.antt =====
-- crates/skysaga-state/src/lib.rs: what signing in does to the sessions, and a refusal does not.
use sky_saga_rs.Common.{
  ℕ, ◌≡◌, refl, sym, ap, ◌∙◌, ◌⊎◌, true, false, List, Option, none, some, inl, inr, Bool-cases,
  arith,
}
use sky_saga_rs.Common.Options.{◌>>=◌}
use sky_saga_rs.Common.Equality.{◌=?◌, Eq_nat, Eq_list}
use sky_saga_rs.Common.Table.{Table, look, look-put_same, look-put_other}
use sky_saga_rs.Common.Text.{Text, is_empty, trim, to_ascii_lowercase}
use sky_saga_rs.State.Types.{
  Account, Session, LoginResult, LoginError, ok, err, bad_credentials, AppState,
}
use sky_saga_rs.State.Policy.{admission}
use sky_saga_rs.State.Accounts.{
  entry_from, entry, open_session, admitted, authenticate, display_name_of, account_for_token,
  bind_peer, account_for_peer, has,
}
use sky_saga_rs.State.Sound.{HasAccount, IsSound}

-- Signing in either is refused, and nothing happens, or opens a session.
authenticate-cases :
    (token username password : Text) (s : AppState)
    → ((e : LoginError) × (authenticate token username password s ≡ (err e, s)))
      ⊎ (authenticate token username password s
          ≡ (ok (open_session token (trim username) s).0, (open_session token (trim username) s).1))
unfolding authenticate
authenticate-cases token username password s = elim (Bool-cases (is_empty (trim username))) [
  | inl blank ↦ rw blank (inl (bad_credentials, refl))
  | inr named ↦ rw named (answered (admission s.policy (trim username) password))
]
  where
    answered :
        (r : LoginResult (Unit {0}))
        → ((e : LoginError) × (admitted r (open_session token (trim username) s) s ≡ (err e, s)))
          ⊎ (admitted r (open_session token (trim username) s) s ≡ (
            ok (open_session token (trim username) s).0,
            (open_session token (trim username) s).1,
          ))
    answered (err e) = inl (e, refl)
    answered (ok u) = inr refl

-- A sign-in that is refused leaves the state as it was, so nothing is reported either.
pub authenticate-err :
    (token username password : Text) (s : AppState) (e : LoginError)
    → (authenticate token username password s).0 ≡ err e
    → (authenticate token username password s).1 ≡ s
authenticate-err token username password s e h =
    elim (authenticate-cases token username password s) [
      | inl (refusal, same) ↦ ap (λ r. r.1) same
      | inr opened ↦ absurd (ok-err (sym (ap (λ r. r.0) opened) ∙ h))
    ]
  where
    ok-err : {x : Session} → LoginResult.ok x ≡ err e → ⊥
    ok-err g = ground arith

ok-eq : {x y : Session} → LoginResult.ok x ≡ LoginResult.ok y → x ≡ y
ok-eq {x} h = ap (λ r. elim r [ ok z ↦ z | err e ↦ x ]) h

err-ok : {e : LoginError} {x : Session} → LoginResult.err e ≡ ok x → ⊥
err-ok h = ground arith

-- A sign-in that succeeds has opened the session that it answers with.
authenticate-opens :
    (token username password : Text) (s : AppState) (session : Session)
    → (authenticate token username password s).0 ≡ ok session
    → (session ≡ (open_session token (trim username) s).0)
      × ((authenticate token username password s).1 ≡ (open_session token (trim username) s).1)
authenticate-opens token username password s session h =
    elim (authenticate-cases token username password s) [
      | inl (refusal, same) ↦ absurd (err-ok (sym (ap (λ r. r.0) same) ∙ h))
      | inr opened ↦ (ok-eq (sym h ∙ ap (λ r. r.0) opened), ap (λ r. r.1) opened)
    ]

look-entry :
    (t : Table Text Account) (key username : Text) (o : Option Account)
    → look t key ≡ o
    → look (entry_from o t key username).1 key ≡ some (entry_from o t key username).0
look-entry t key username none e =
    look-put_same t key (record { display_name = username; character = none })
look-entry t key username (some account) e = e

-- The token of a sign-in that succeeds is the fresh one, and is at once good for its account.
pub account_for_token-authenticate :
    (token username password : Text) (s : AppState) (session : Session)
    → (authenticate token username password s).0 ≡ ok session
    → (session.token ≡ token)
      × (account_for_token token (authenticate token username password s).1 ≡ some session.account)
unfolding open_session account_for_token display_name_of
account_for_token-authenticate token username password s session h =
    let (answer, after) = authenticate-opens token username password s session h in
    let key = to_ascii_lowercase (trim username) in
    rw (answer, after)
      (
        refl,
        rw (look-put_same s.inner.sessions token key) (
            rw (look-entry s.inner.accounts key (trim username) (look s.inner.accounts key) refl)
              refl),
      )

look-entry_other :
    (t : Table Text Account) (key username other : Text) (o : Option Account)
    → look t key ≡ o
    → has (look t other) ≡ true
    → look (entry_from o t key username).1 other ≡ look t other
look-entry_other t key username other none e h = elim (Bool-cases (other =? key)) [
  | inl here ↦
      let same : other ≡ key = Eq_list.same-eq other key here in
      let lost : false ≡ true = sym (ap (λ k. has (look t k)) same ∙ ap has e) ∙ h in ground arith
  | inr away ↦ look-put_other t key other _ away
]
look-entry_other t key username other (some account) e h = refl

opened_other :
    (token username other : Text) (s : AppState)
    → IsSound (s.inner)
    → (other =? token) ≡ false
    → account_for_token other (open_session token username s).1 ≡ account_for_token other s
unfolding open_session account_for_token display_name_of
opened_other token username other s h apart =
    rw (look-put_other s.inner.sessions token other (to_ascii_lowercase username) apart)
      (found (look s.inner.sessions other) refl)
  where
    key : Text
    key = to_ascii_lowercase username

    accounts : Table Text Account
    accounts = (entry s.inner.accounts key username).1

    found :
        (o : Option Text)
        → look s.inner.sessions other ≡ o
        → (o >>= λ k. look accounts k >>= λ account. some account.display_name)
          ≡ (o >>= λ k. look s.inner.accounts k >>= λ account. some account.display_name)
    found none e = refl
    found (some k) e =
        ap (λ a. a >>= λ account. some account.display_name)
          (look-entry_other s.inner.accounts key username k (look s.inner.accounts key) refl
            (h.0 other k e))

-- In a sound state a sign-in, refused or not, leaves every other token with its account.
pub account_for_token-authenticate_other :
    (token username password other : Text) (s : AppState)
    → IsSound (s.inner)
    → (other =? token) ≡ false
    → account_for_token other (authenticate token username password s).1 ≡ account_for_token other s
account_for_token-authenticate_other token username password other s h apart =
    elim (authenticate-cases token username password s) [
      | inl (refusal, same) ↦ ap (λ r. account_for_token other r.1) same
      | inr opened ↦
          ap (λ r. account_for_token other r.1) opened
          ∙ opened_other token (trim username) other s h apart
    ]

-- After a sign-in, one by a name that differs only in blanks around it and in the case of its letters is
-- a sign-in to the same account, answered with the name as first typed.
pub authenticate_again :
    (token username password second_token second_username second_password : Text) (s : AppState)
    (session second : Session)
    → to_ascii_lowercase (trim second_username) ≡ to_ascii_lowercase (trim username)
    → (authenticate token username password s).0 ≡ ok session
    → (authenticate second_token second_username second_password
        (authenticate token username password s).1).0
      ≡ ok second
    → second.account ≡ session.account
unfolding open_session
authenticate_again token username password second_token second_username second_password s session
      second same h g =
    let (answer, after) = authenticate-opens token username password s session h in
    let (again, _) =
      authenticate-opens second_token second_username second_password
        (authenticate token username password s).1 second g in
    let key = to_ascii_lowercase (trim username) in
    let there = look-entry s.inner.accounts key (trim username) (look s.inner.accounts key) refl in
    rw (again, answer, after, same) (rw there refl)

-- After an address is bound to an account that is there, it is that account's.
pub account_for_peer-bind_peer :
    (peer : List ℕ) (account : Text) (s : AppState)
    → HasAccount (s.inner) (to_ascii_lowercase account)
    → account_for_peer peer (bind_peer peer account s)
      ≡ display_name_of (to_ascii_lowercase account) s
unfolding account_for_peer bind_peer display_name_of
account_for_peer-bind_peer peer account s h =
    rw h (rw (look-put_same s.inner.peers peer (to_ascii_lowercase account)) refl)
