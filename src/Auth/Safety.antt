-- ===== src/Auth/Safety.antt =====
-- No packet ends the process (crates/skysaga-auth/src/protocol.rs and server.rs).
use sky_saga_rs.Common.{
  ℕ, ◌≤◌, ◌≡◌, ◌≢◌, refl, subst, inl, inr, false, List, [], ◌∷◌, Option, none, some, length, drop,
  ltb, leb, ◌==◌, Bool-cases, arith,
}
use sky_saga_rs.ByteReader.{ReadResult, done, failed, ByteReader, over, u8, u16_le, array, bytes}
use sky_saga_rs.Auth.{
  ProtocolResult, parsed, refused, panic, Header, header_bytes, behind_header, checked_magic,
  size_and_id, result_of, parse_header, body_len, request_size, parse_body, parse_request,
  request_behind, reply_behind, parse_reply, read_reply, read_body, header_size, login_request,
  login_reply, magic,
}
use sky_saga_rs.Auth.Server.{
  Received, received, broken, read_exact, read_request, with_header, with_body, with_header_bytes,
}

-- Whether the process goes on.
IsSafe : {A : Type 0} → ProtocolResult A → Type 0
IsSafe (parsed a) = Unit
IsSafe (refused e) = Unit
IsSafe panic = ⊥

result_of-IsSafe : {A : Type 0} (r : ReadResult A × ByteReader) → IsSafe (result_of r)
unfolding IsSafe
result_of-IsSafe (done a, r) = tt
result_of-IsSafe (failed e, r) = tt

checked_magic-IsSafe : (r : ReadResult ℕ × ByteReader) → IsSafe (checked_magic r)
unfolding IsSafe
checked_magic-IsSafe (failed e, r) = tt
checked_magic-IsSafe (done first, r) = elim (Bool-cases (first == magic)) [
  | inl right ↦ rw right (result_of-IsSafe (size_and_id r))
  | inr wrong ↦ rw wrong tt
]

-- A packet in which a header can be read is as long as one.
parse_header-length :
    (packet : List ℕ) (h : Header) → parse_header packet ≡ parsed h → 5 ≤ length packet
unfolding parse_header u8 u16_le array bytes
parse_header-length [] h e = absurd (ground arith)
parse_header-length (a ∷ []) h e = absurd (ground arith)
parse_header-length (a ∷ b ∷ []) h e = absurd (ground arith)
parse_header-length (a ∷ b ∷ c ∷ []) h e = absurd (ground arith)
parse_header-length (a ∷ b ∷ c ∷ d ∷ []) h e = absurd (ground arith)
parse_header-length (a ∷ b ∷ c ∷ d ∷ f ∷ rest) h e = omega arith

header_bytes-length :
    (packet : List ℕ) → 5 ≤ length (header_bytes packet) → ltb (length packet) 5 ≡ false
header_bytes-length packet h = elim (Bool-cases (leb 5 (length packet))) [
  | inl enough ↦ ground (arith, enough)
  | inr short ↦ let same : 5 ≤ length packet = rw short at h in ground (arith, same)
]

behind_header-IsSafe :
    {A : Type 0} (packet : List ℕ) (k : List ℕ → ProtocolResult A)
    → ltb (length packet) 5 ≡ false
    → ((body : List ℕ) → IsSafe (k body))
    → IsSafe (behind_header packet k)
behind_header-IsSafe packet k enough h = rw enough (h (drop 5 packet))

request_behind-IsSafe :
    (found : ProtocolResult Header) (packet : List ℕ)
    → IsSafe found
    → ((h : Header) → found ≡ parsed h → ltb (length packet) 5 ≡ false)
    → IsSafe (request_behind found packet)
unfolding IsSafe parse_body
request_behind-IsSafe panic packet s h = s
request_behind-IsSafe (refused e) packet s h = tt
request_behind-IsSafe (parsed header) packet s h =
    elim (Bool-cases (header.size == length packet)) [
      | inl whole ↦ elim (Bool-cases (header.id == login_request)) [
        | inl login ↦
            rw (whole, login)
              (behind_header-IsSafe packet parse_body (h header refl)
                (λ body. result_of-IsSafe (read_body (over body))))
        | inr other ↦ rw (whole, other) tt
      ]
      | inr cut ↦ rw cut tt
    ]

reply_behind-IsSafe :
    (found : ProtocolResult Header) (packet : List ℕ)
    → IsSafe found
    → ((h : Header) → found ≡ parsed h → ltb (length packet) 5 ≡ false)
    → IsSafe (reply_behind found packet)
unfolding IsSafe
reply_behind-IsSafe panic packet s h = s
reply_behind-IsSafe (refused e) packet s h = tt
reply_behind-IsSafe (parsed header) packet s h = elim (Bool-cases (header.id == login_reply)) [
  | inl reply ↦ rw reply (
      behind_header-IsSafe packet (λ body. result_of (read_reply (over body))) (h header refl)
        (λ body. result_of-IsSafe (read_reply (over body))))
  | inr other ↦ rw other tt
]

GoesOn : Received → Type 0
GoesOn broken = Unit
GoesOn (received r) = IsSafe r

with_body-GoesOn : (found : Option (List ℕ × List ℕ)) → GoesOn (with_body found)
unfolding GoesOn IsSafe parse_body
with_body-GoesOn none = tt
with_body-GoesOn (some (body, rest)) = result_of-IsSafe (read_body (over body))

with_header-GoesOn :
    (found : ProtocolResult Header) (rest : List ℕ) → IsSafe found → GoesOn (with_header found rest)
unfolding GoesOn IsSafe
with_header-GoesOn panic rest s = s
with_header-GoesOn (refused e) rest s = tt
with_header-GoesOn (parsed header) rest s = elim (Bool-cases (header.id == login_request)) [
  | inl login ↦ elim (Bool-cases (header.size == request_size)) [
    | inl whole ↦ rw (login, whole) (with_body-GoesOn (read_exact (body_len header) rest))
    | inr other_size ↦ rw (login, other_size) tt
  ]
  | inr other ↦ rw other tt
]

with_header_bytes-GoesOn : (found : Option (List ℕ × List ℕ)) → GoesOn (with_header_bytes found)
unfolding GoesOn parse_header
with_header_bytes-GoesOn none = tt
with_header_bytes-GoesOn (some (first, rest)) =
    with_header-GoesOn (parse_header first) rest (checked_magic-IsSafe (u8 (over first)))

IsSafe-≢ : {A : Type 0} (r : ProtocolResult A) → IsSafe r → r ≢ panic
unfolding IsSafe
IsSafe-≢ r s e = subst IsSafe e s

-- No bytes end the process: neither parser slices past the end of its packet, and what the server
-- reads of a connection is an error of the connection or of the protocol, or a request.
pub IsSafe-packets :
    (packet : List ℕ)
    → (parse_request packet ≢ panic)
      × (parse_reply packet ≢ panic)
      × (read_request packet ≢ received panic)
unfolding parse_request parse_reply read_request parse_header GoesOn IsSafe
IsSafe-packets packet =
    let first = header_bytes packet in
    let safe = checked_magic-IsSafe (u8 (over first)) in
    let long : (h : Header) → parse_header first ≡ parsed h → ltb (length packet) 5 ≡ false =
      λ h. λ e. header_bytes-length packet (parse_header-length first h e) in
    (
      IsSafe-≢ (parse_request packet) (request_behind-IsSafe (parse_header first) packet safe long),
      IsSafe-≢ (parse_reply packet) (reply_behind-IsSafe (parse_header first) packet safe long),
      λ e. subst GoesOn e (with_header_bytes-GoesOn (read_exact header_size packet)),
    )
