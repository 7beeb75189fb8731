-- ===== src/Auth/Server/Outcomes.antt =====
-- What becomes of a connection, whatever its peer sends (crates/skysaga-auth/src/server.rs).
use sky_saga_rs.Common.{
  ℕ, ◌-◌, ◌≤◌, ◌≡◌, ◌≢◌, refl, ap, sym, ◌∙◌, inl, inr, false, List, [], Option, none, some, length,
  length-drop, take, drop, ltb, ◌==◌, ==_iff, Bool-cases, arith,
}
use sky_saga_rs.Common.Text.{Text}
use sky_saga_rs.State.Types.{AppState}
use sky_saga_rs.State.Accounts.{authenticate}
use sky_saga_rs.Auth.{
  ProtocolResult, parsed, refused, panic, Header, parse_header, body_len, LoginRequest, parse_body,
  reply_bytes,
}
use sky_saga_rs.Auth.Server.{
  read_exact, Received, broken, received, with_header, with_header_bytes, with_body, read_request,
  login, Served, broken_off, panicked, discarded, answered, cut_off, write_all, handled,
  handle_connection,
}

-- What the peer sends begins with this login request: a header with the id and the size of one, and
-- a body that is parsed to it.
pub record IsLogin (stream : List ℕ) (r : LoginRequest) : Type 0 where
  pub whole : 123 ≤ length stream
  pub head : parse_header (take 5 stream) ≡ parsed (record { size = 123; id = 0x0312 })
  pub body : parse_body (take 118 (drop 5 stream)) ≡ parsed r

-- The bytes that are written.
abbrev pub sent : Served → List ℕ
sent broken_off = []
sent panicked = []
sent discarded = []
sent (answered bytes) = bytes
sent (cut_off bytes) = bytes

Found : ℕ → List ℕ → Option (List ℕ × List ℕ) → Type 0
Found n stream none = Unit
Found n stream (some (a, b)) = (n ≤ length stream) × (a ≡ take n stream) × (b ≡ drop n stream)

read_exact-Found : (n : ℕ) (stream : List ℕ) → Found n stream (read_exact n stream)
unfolding read_exact Found
read_exact-Found n stream = elim (Bool-cases (ltb (length stream) n)) [
  | inl short ↦ rw short tt
  | inr enough ↦ rw enough (ground (arith, enough), refl, refl)
]

with_body_inv :
    (n : ℕ) (stream : List ℕ) (found : Option (List ℕ × List ℕ)) (r : LoginRequest)
    → Found n stream found
    → with_body found ≡ received (parsed r)
    → (n ≤ length stream) × (parse_body (take n stream) ≡ parsed r)
unfolding Found
with_body_inv n stream none r f e = absurd (ground arith)
with_body_inv n stream (some (a, b)) r (fits, same, rest) e =
    (fits, ap parse_body (sym same) ∙ received_eq (parse_body a) e)
  where
    received_eq :
        (o : ProtocolResult LoginRequest) → received o ≡ received (parsed r) → o ≡ parsed r
    received_eq o h = ground arith

with_header_inv :
    (found : ProtocolResult Header) (rest : List ℕ) (r : LoginRequest)
    → with_header found rest ≡ received (parsed r)
    → (found ≡ parsed (record { size = 123; id = 0x0312 }))
      × (with_body (read_exact 118 rest) ≡ received (parsed r))
unfolding body_len
with_header_inv panic rest r e = absurd (ground arith)
with_header_inv (refused why) rest r e = absurd (ground arith)
with_header_inv (parsed h) rest r e = elim (Bool-cases (h.id == 0x0312)) [
  | inl login ↦ elim (Bool-cases (h.size == 123)) [
    | inl whole ↦
        let id = (==_iff h.id 0x0312).0 login in
        let size = (==_iff h.size 123).0 whole in
        let body : with_body (read_exact (h.size - 5) rest) ≡ received (parsed r) =
          rw (login, whole) at e in
        (
          λ i. parsed (record { size = size i; id = id i }),
          ap (λ n. with_body (read_exact (n - 5) rest)) (sym size) ∙ body,
        )
    | inr cut ↦
        let other : with_header (parsed h) rest ≡ received (parsed r) = e in absurd (ground arith)
  ]
  | inr other ↦ absurd (ground arith)
]

-- A request is read of what begins with one, and of nothing else.
read_request-IsLogin :
    (stream : List ℕ) (r : LoginRequest)
    → read_request stream ≡ received (parsed r)
    → IsLogin stream r
unfolding read_request Found
read_request-IsLogin stream r = first (read_exact 5 stream) (read_exact-Found 5 stream)
  where
    first :
        (found : Option (List ℕ × List ℕ))
        → Found 5 stream found
        → with_header_bytes found ≡ received (parsed r)
        → IsLogin stream r
    first none f e = absurd (ground arith)
    first (some (a, b)) (fits, same, rest) e =
        let (head, found) = with_header_inv (parse_header a) b r e in
        let (enough, body) =
          with_body_inv 118 b (read_exact 118 b) r (read_exact-Found 118 b) found in
        let more = length-drop 5 stream in
        let long = ap length rest in
        record {
          whole = omega (arith, fits, enough, more, long);
          head = ap parse_header (sym same) ∙ head;
          body = ap (λ xs. parse_body (take 118 xs)) (sym rest) ∙ body;
        }

not-ltb : (n m : ℕ) → n ≤ m → ltb m n ≡ false
not-ltb n m h = ground arith

read_exact-enough :
    (n : ℕ) (stream : List ℕ)
    → n ≤ length stream
    → read_exact n stream ≡ some (take n stream, drop n stream)
unfolding read_exact
read_exact-enough n stream h = rw (not-ltb n (length stream) h) refl

IsLogin-read_request :
    (stream : List ℕ) (r : LoginRequest)
    → IsLogin stream r
    → read_request stream ≡ received (parsed r)
unfolding read_request body_len
IsLogin-read_request stream r h =
    let rest = drop 5 stream in
    let behind : 118 ≤ length rest = omega (arith, h.whole, length-drop 5 stream) in
    ap with_header_bytes (read_exact-enough 5 stream (omega (arith, h.whole)))
    ∙ (ap (λ found. with_header found rest) h.head
        ∙ (ap with_body (read_exact-enough 118 rest behind) ∙ ap received h.body))

-- A connection is no login and its end, with nothing written and nothing changed; or a login, whose
-- answer goes out as far as the peer accepts it, and which changes the state in either case.
pub data Outcome (token : Text) (stream : List ℕ) (room : ℕ) (s : AppState) : Type 0 where
  no_login :
      ((r : LoginRequest) → ¬ IsLogin stream r)
      → sent (handle_connection token stream room s).0 ≡ []
      → (handle_connection token stream room s).1 ≡ s
      → Outcome token stream room s
  a_login :
      (r : LoginRequest)
      → IsLogin stream r
      → (handle_connection token stream room s).0 ≡ write_all room (reply_bytes (login token r s).0)
      → (handle_connection token stream room s).1 ≡ (authenticate token r.username r.password s).1
      → Outcome token stream room s

no_request :
    (token : Text) (stream : List ℕ) (room : ℕ) (s : AppState) (found : Received)
    → ((r : LoginRequest) → found ≢ received (parsed r))
    → sent (handled found token room s).0 ≡ []
    → (handled found token room s).1 ≡ s
    → read_request stream ≡ found
    → Outcome token stream room s
unfolding handle_connection
no_request token stream room s found other nothing same e =
    no_login (λ r. λ h. other r (sym e ∙ IsLogin-read_request stream r h))
      (ap (λ f. sent (handled f token room s).0) e ∙ nothing)
      (ap (λ f. (handled f token room s).1) e ∙ same)

outcome :
    (token : Text) (stream : List ℕ) (room : ℕ) (s : AppState) (found : Received)
    → read_request stream ≡ found
    → Outcome token stream room s
unfolding handle_connection login
outcome token stream room s broken =
    no_request token stream room s broken (λ r. λ e. ground arith) refl refl
outcome token stream room s (received (refused why)) =
    no_request token stream room s (received (refused why)) (λ r. λ e. ground arith) refl refl
outcome token stream room s (received panic) =
    no_request token stream room s (received panic) (λ r. λ e. ground arith) refl refl
outcome token stream room s (received (parsed r)) = λ e.
    a_login r (read_request-IsLogin stream r e) (ap (λ f. (handled f token room s).0) e)
      (ap (λ f. (handled f token room s).1) e)

-- Whatever a peer sends and however much it accepts, its connection is no login and leaves the state
-- and writes nothing; or what it sends begins with a login request, and then the state is what
-- `authenticate` leaves, even where the answer is cut off or cannot be written at all.
pub handle_connection_outcome :
    (token : Text) (stream : List ℕ) (room : ℕ) (s : AppState) → Outcome token stream room s
handle_connection_outcome token stream room s =
    outcome token stream room s (read_request stream) refl
