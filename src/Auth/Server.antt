-- ===== src/Auth/Server.antt =====
-- crates/skysaga-auth/src/server.rs: a connection, from the bytes that its peer sends before it
-- closes to the bytes that are written back. The peer accepts so many bytes before a write fails.
pub mod Outcomes
pub mod Replies
use sky_saga_rs.Common.{
  ℕ, List, [], ◌∷◌, Option, none, some, length, take, drop, ltb, ◌==◌, if◌then◌else◌,
}
use sky_saga_rs.Common.Text.{Text}
use sky_saga_rs.State.Types.{AppState, Session, ok, err, bad_credentials}
use sky_saga_rs.State.Types.{no_such_account as unknown_account, LoginResult as StateResult}
use sky_saga_rs.State.Accounts.{authenticate}
use sky_saga_rs.Auth.{
  ProtocolResult, parsed, refused, panic, unexpected_id, length_mismatch, Header, header_size,
  login_request, request_size, parse_header, body_len, LoginRequest, parse_body, LoginReply,
  accepted, rejected, wrong_password, no_such_account, reply_bytes,
}

-- `read_exact`: the bytes, and those after them, if so many come.
unfoldable pub read_exact : ℕ → List ℕ → Option (List ℕ × List ℕ)
read_exact n stream = if ltb (length stream) n then none else some (take n stream, drop n stream)

-- An error of the connection, or what the parser says.
pub data Received : Type 0 where
  broken : Received
  received : ProtocolResult LoginRequest → Received

abbrev pub with_body : Option (List ℕ × List ℕ) → Received
with_body none = broken
with_body (some (body, rest)) = received (parse_body body)

abbrev pub with_header : ProtocolResult Header → List ℕ → Received
with_header (refused e) rest = received (refused e)
with_header panic rest = received panic
with_header (parsed header) rest =
    if header.id == login_request
    then if header.size == request_size
      then with_body (read_exact (body_len header) rest)
      else received (refused (length_mismatch header.size request_size))
    else received (refused (unexpected_id header.id))

abbrev pub with_header_bytes : Option (List ℕ × List ℕ) → Received
with_header_bytes none = broken
with_header_bytes (some (first, rest)) = with_header (parse_header first) rest

unfoldable pub read_request : List ℕ → Received
unfolding read_exact body_len
read_request stream = with_header_bytes (read_exact header_size stream)

abbrev pub reply_of : LoginRequest → StateResult Session → LoginReply
reply_of request (ok session) = accepted request.username session.token
reply_of request (err bad_credentials) = rejected request.username wrong_password
reply_of request (err unknown_account) = rejected request.username no_such_account

-- `authenticate`; the token is the one that the state makes.
unfoldable pub login : (token : Text) → LoginRequest → AppState → LoginReply × AppState
login token request s =
    let answer = authenticate token request.username request.password s in
    (reply_of request answer.0, answer.1)

-- How a connection ends: with an error while the request is read, with a request that is
-- discarded, with the whole answer written, or with an error after some of its bytes.
pub data Served : Type 0 where
  broken_off : Served
  panicked : Served
  discarded : Served
  answered : List ℕ → Served
  cut_off : List ℕ → Served

-- `write_all` and `flush`, where the peer accepts `room` bytes.
unfoldable pub write_all : (room : ℕ) → List ℕ → Served
write_all room bytes = if ltb room (length bytes) then cut_off (take room bytes) else answered bytes

-- How the connection ends, and the state after.
abbrev pub handled : Received → (token : Text) → (room : ℕ) → AppState → Served × AppState
handled broken token room s = (broken_off, s)
handled (received (refused e)) token room s = (discarded, s)
handled (received panic) token room s = (panicked, s)
handled (received (parsed request)) token room s =
    (write_all room (reply_bytes (login token request s).0), (login token request s).1)

unfoldable pub handle_connection :
    (token : Text) → List ℕ → (room : ℕ) → AppState → Served × AppState
unfolding read_request login write_all reply_bytes
handle_connection token stream room s = handled (read_request stream) token room s
