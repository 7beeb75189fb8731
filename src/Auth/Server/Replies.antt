-- ===== src/Auth/Server/Replies.antt =====
-- What a login is answered with (crates/skysaga-auth/src/server.rs).
use sky_saga_rs.Common.{
  ℕ, ◌≡◌, refl, sym, ap, subst, ◌∙◌, false, List, [], ◌∷◌, ◌++◌, some, length, length-append, take,
  drop, ltb, arith,
}
use sky_saga_rs.Common.Text.{Text, as_bytes}
use sky_saga_rs.Common.Integers.{IsI32}
use sky_saga_rs.FixedStr.Decoded.{AreChars}
use sky_saga_rs.State.Types.{AppState, Session, ok, err, bad_credentials}
use sky_saga_rs.State.Types.{no_such_account as unknown_account, LoginResult as StateResult}
use sky_saga_rs.State.Accounts.{authenticate}
use sky_saga_rs.State.Sessions.{account_for_token-authenticate}
use sky_saga_rs.Auth.{
  parsed, header, LoginRequest, request_bytes, reply_bytes, parse_reply, body_len, accepted,
  rejected, LoginResult, wrong_password, no_such_account,
}
use sky_saga_rs.Auth.RoundTrip.{
  Fits, FitsRequest, FitsReply, body_bytes, length-body_bytes, parse_body-body_bytes,
  parse_reply-reply_bytes, request_header,
}
use sky_saga_rs.Auth.Server.{
  read_exact, received, with_header, with_header_bytes, with_body, read_request, reply_of, login,
  handled, handle_connection, write_all,
}

take_here : (here rest : List ℕ) → take (length here) (here ++ rest) ≡ here
take_here [] rest = refl
take_here (b ∷ bs) rest = ap (λ more. b ∷ more) (take_here bs rest)

drop_here : (here rest : List ℕ) → drop (length here) (here ++ rest) ≡ rest
drop_here [] rest = refl
drop_here (b ∷ bs) rest = drop_here bs rest

read_exact-append :
    (here rest : List ℕ) → read_exact (length here) (here ++ rest) ≡ some (here, rest)
unfolding read_exact
read_exact-append here rest =
    let all = length-append here rest in
    let enough : ltb (length (here ++ rest)) (length here) ≡ false = ground (arith, all) in
    rw (enough, take_here here rest, drop_here here rest) refl

read_request-request_bytes :
    (r : LoginRequest) (more : List ℕ)
    → FitsRequest r
    → read_request (request_bytes r ++ more) ≡ received (parsed r)
unfolding read_request request_bytes body_bytes body_len
read_request-request_bytes r more h =
    let size = length-body_bytes r in
    let body : read_exact 118 (body_bytes r ++ more) ≡ some (body_bytes r, more) =
      ap (λ n. read_exact n (body_bytes r ++ more)) (sym size)
      ∙ read_exact-append (body_bytes r) more in
    ap with_header_bytes (read_exact-append (header 123 0x0312) (body_bytes r ++ more))
    ∙ (ap (λ found. with_header found (body_bytes r ++ more)) request_header
        ∙ (ap with_body body ∙ ap received (parse_body-body_bytes r h)))

refusal-FitsReply :
    (r : LoginRequest) (why : LoginResult) → FitsRequest r → FitsReply (rejected r.username why)
unfolding rejected IsI32 AreChars as_bytes
refusal-FitsReply r why h = record {
  unknown = omega arith;
  username = h.username;
  token = record { chars = tt; room = omega arith };
}

reply_of-FitsReply :
    (token : Text) (r : LoginRequest) (found : StateResult Session)
    → FitsRequest r
    → Fits 1023 token
    → ((session : Session) → found ≡ ok session → session.token ≡ token)
    → FitsReply (reply_of r found)
unfolding accepted IsI32
reply_of-FitsReply token r (ok session) h g same = record {
  unknown = omega arith;
  username = h.username;
  token = subst (Fits 1023) (sym (same session refl)) g;
}
reply_of-FitsReply token r (err bad_credentials) h g same = refusal-FitsReply r wrong_password h
reply_of-FitsReply token r (err unknown_account) h g same = refusal-FitsReply r no_such_account h

-- A login request whose strings have no NUL and fit their fields, whatever is sent behind it, is
-- answered as `authenticate` decides, with as much of the answer written as the peer accepts; the
-- state is what `authenticate` leaves, also where the answer is cut off; and the client reads the
-- answer back, the token being no longer than its field.
pub handle_connection-request_bytes :
    (token : Text) (r : LoginRequest) (more : List ℕ) (room : ℕ) (s : AppState)
    → FitsRequest r
    → Fits 1023 token
    → (handle_connection token (request_bytes r ++ more) room s ≡ (
      write_all room (reply_bytes (login token r s).0),
      (authenticate token r.username r.password s).1,
    ))
      × (parse_reply (reply_bytes (login token r s).0)
          ≡ parsed (reply_of r (authenticate token r.username r.password s).0))
unfolding handle_connection login
handle_connection-request_bytes token r more room s h g = (
  ap (λ found. handled found token room s) (read_request-request_bytes r more h),
  parse_reply-reply_bytes (login token r s).0 (
      reply_of-FitsReply token r (authenticate token r.username r.password s).0 h g (λ session.
        λ e. (account_for_token-authenticate token r.username r.password s session e).0)),
)
