-- ===== src/Auth/RoundTrip.antt =====
-- The packets of a login, read back (crates/skysaga-auth/src/protocol.rs).
use sky_saga_rs.Common.{
  ℕ, ◌≤◌, ◌≡◌, refl, sym, ap, subst, ◌∙◌, true, false, List, [], ◌++◌, append-nil, length,
  length-append, replicate, ltb, leb, ◌==◌, arith,
}
use sky_saga_rs.Common.Integers.{as_u32, IsI32}
use sky_saga_rs.Common.Text.{Text, as_bytes}
use sky_saga_rs.BitStream.Byte.{to_le_bytes, from_le_bytes}
use sky_saga_rs.FixedStr.{write}
use sky_saga_rs.FixedStr.Decoded.{AreChars}
use sky_saga_rs.FixedStr.RoundTrip.{length-write}
use sky_saga_rs.ByteReader.{bytes, array, u8, u16_le, over, i32_le, fixed_str}
use sky_saga_rs.ByteReader.Chains.{
  behind, Reads, Reads-and_then, Reads-last, bytes-Reads, i32_le-Reads, fixed_str-Reads,
}
use sky_saga_rs.Auth.{
  ProtocolResult, parsed, parse_header, header, header_bytes, behind_header, request_behind,
  reply_behind, LoginRequest, read_body, parse_body, parse_request, request_bytes, LoginResult,
  code, result_of_code, LoginReply, read_reply, parse_reply, reply_bytes, result_of, database_error,
  no_such_account, login_ok, wrong_password, ip_blocked, user_blocked, country_blocked,
  password_locked, invalid_spot_code, account_cancelled, maintenance, not_beta_member, banned,
}

-- A string that a field of one byte more has room for.
pub record Fits (capacity : ℕ) (t : Text) : Type 0 where
  pub chars : AreChars t
  pub room : length (as_bytes t) ≤ capacity

pub record FitsRequest (r : LoginRequest) : Type 0 where
  pub unknown : IsI32 r.unknown
  pub unknown2 : Fits 31 r.unknown2
  pub username : Fits 49 r.username
  pub password : Fits 31 r.password

unfoldable pub body_bytes : LoginRequest → List ℕ
body_bytes r =
    to_le_bytes (as_u32 r.unknown)
    ++ (write 32 r.unknown2 ++ (write 50 r.username ++ write 32 r.password))

read_body-Reads : (r : LoginRequest) → FitsRequest r → Reads read_body (body_bytes r) r
unfolding body_bytes
read_body-Reads r h =
    Reads-and_then i32_le _ (to_le_bytes (as_u32 r.unknown))
      (write 32 r.unknown2 ++ (write 50 r.username ++ write 32 r.password)) r.unknown r
      (i32_le-Reads r.unknown h.unknown)
      (Reads-and_then (fixed_str 32) _ (write 32 r.unknown2)
        (write 50 r.username ++ write 32 r.password) r.unknown2 r
        (fixed_str-Reads 31 r.unknown2 h.unknown2.chars h.unknown2.room)
        (Reads-and_then (fixed_str 50) _ (write 50 r.username) (write 32 r.password) r.username r
          (fixed_str-Reads 49 r.username h.username.chars h.username.room)
          (Reads-last (fixed_str 32) (λ password. record r { password = password })
            (write 32 r.password) r.password
            (fixed_str-Reads 31 r.password h.password.chars h.password.room))))

-- The body of a request, which the server reads behind the header.
pub parse_body-body_bytes :
    (r : LoginRequest) → FitsRequest r → parse_body (body_bytes r) ≡ parsed r
unfolding parse_body Reads
parse_body-body_bytes r h =
    let whole = read_body-Reads r h [] [] in
    let same : body_bytes r ++ [] ≡ body_bytes r = append-nil (body_bytes r) in
    ap result_of (ap (λ packet. read_body (behind [] packet)) (sym same) ∙ whole)

pub length-body_bytes : (r : LoginRequest) → length (body_bytes r) ≡ 118
unfolding body_bytes to_le_bytes
length-body_bytes r =
    let a = length-write 31 r.unknown2 in
    let b = length-write 49 r.username in
    let c = length-write 31 r.password in
    let last = length-append (write 50 r.username) (write 32 r.password) in
    let all = length-append (write 32 r.unknown2) (write 50 r.username ++ write 32 r.password) in
    omega (arith, a, b, c, last, all)

header_bytes-header :
    (size id : ℕ) (body : List ℕ) → header_bytes (header size id ++ body) ≡ header size id
header_bytes-header size id body =
    let enough : leb 5 (length (header size id ++ body)) ≡ true = ground arith in rw enough refl

behind_header-header :
    {A : Type 0} (size id : ℕ) (body : List ℕ) (k : List ℕ → ProtocolResult A)
    → behind_header (header size id ++ body) k ≡ k body
behind_header-header size id body k =
    let enough : ltb (length (header size id ++ body)) 5 ≡ false = ground arith in rw enough refl

pub request_header : parse_header (header 123 0x0312) ≡ parsed (record { size = 123; id = 0x0312 })
unfolding parse_header u8 u16_le array bytes from_le_bytes
request_header = refl

reply_header : parse_header (header 1095 0x0412) ≡ parsed (record { size = 1095; id = 0x0412 })
unfolding parse_header u8 u16_le array bytes from_le_bytes
reply_header = refl

-- A request whose strings have no NUL and fit their fields is read back as it was written.
pub parse_request-request_bytes :
    (r : LoginRequest) → FitsRequest r → parse_request (request_bytes r) ≡ parsed r
unfolding parse_request request_bytes body_bytes
parse_request-request_bytes r h =
    let size = length-body_bytes r in
    let declared : (123 == length (header 123 0x0312 ++ body_bytes r)) ≡ true =
      ground (arith, size) in
    ap (λ found. request_behind found (header 123 0x0312 ++ body_bytes r))
      (ap parse_header (header_bytes-header 123 0x0312 (body_bytes r)) ∙ request_header)
    ∙ rw declared
        (behind_header-header 123 0x0312 (body_bytes r) parse_body ∙ parse_body-body_bytes r h)

pub record FitsReply (r : LoginReply) : Type 0 where
  pub unknown : IsI32 r.unknown
  pub username : Fits 49 r.username
  pub token : Fits 1023 r.token

reply_body : LoginReply → List ℕ
reply_body r =
    to_le_bytes (as_u32 (code r.result))
    ++ (to_le_bytes (as_u32 r.unknown)
        ++ (replicate 8 0 ++ (write 50 r.username ++ write 1024 r.token)))

code-IsI32 : (result : LoginResult) → IsI32 (code result)
unfolding IsI32
code-IsI32 database_error = omega arith
code-IsI32 no_such_account = omega arith
code-IsI32 login_ok = omega arith
code-IsI32 wrong_password = omega arith
code-IsI32 ip_blocked = omega arith
code-IsI32 user_blocked = omega arith
code-IsI32 country_blocked = omega arith
code-IsI32 password_locked = omega arith
code-IsI32 invalid_spot_code = omega arith
code-IsI32 account_cancelled = omega arith
code-IsI32 maintenance = omega arith
code-IsI32 not_beta_member = omega arith
code-IsI32 banned = omega arith

result_of_code-code : (result : LoginResult) → result_of_code (code result) ≡ result
result_of_code-code database_error = refl
result_of_code-code no_such_account = refl
result_of_code-code login_ok = refl
result_of_code-code wrong_password = refl
result_of_code-code ip_blocked = refl
result_of_code-code user_blocked = refl
result_of_code-code country_blocked = refl
result_of_code-code password_locked = refl
result_of_code-code invalid_spot_code = refl
result_of_code-code account_cancelled = refl
result_of_code-code maintenance = refl
result_of_code-code not_beta_member = refl
result_of_code-code banned = refl

read_reply-Reads : (r : LoginReply) → FitsReply r → Reads read_reply (reply_body r) r
unfolding reply_body
read_reply-Reads r h =
    let number = code r.result in
    let strings = write 50 r.username ++ write 1024 r.token in
    let found : LoginReply = record r { result = result_of_code number } in
    subst (λ result. Reads read_reply (reply_body r) (record r { result = result }))
      (result_of_code-code r.result)
      (Reads-and_then i32_le _ (to_le_bytes (as_u32 number))
        (to_le_bytes (as_u32 r.unknown) ++ (replicate 8 0 ++ strings)) number found
        (i32_le-Reads number (code-IsI32 r.result))
        (Reads-and_then i32_le _ (to_le_bytes (as_u32 r.unknown)) (replicate 8 0 ++ strings)
          r.unknown found (i32_le-Reads r.unknown h.unknown)
          (Reads-and_then (bytes 8) _ (replicate 8 0) strings (replicate 8 0) found
            (bytes-Reads (replicate 8 0))
            (Reads-and_then (fixed_str 50) _ (write 50 r.username) (write 1024 r.token) r.username
              found (fixed_str-Reads 49 r.username h.username.chars h.username.room)
              (Reads-last (fixed_str 1024) (λ token. record found { token = token })
                (write 1024 r.token) r.token
                (fixed_str-Reads 1023 r.token h.token.chars h.token.room))))))

-- A reply is read back as it was written, with each of the results.
pub parse_reply-reply_bytes :
    (r : LoginReply) → FitsReply r → parse_reply (reply_bytes r) ≡ parsed r
unfolding parse_reply reply_bytes reply_body Reads
parse_reply-reply_bytes r h =
    let whole = read_reply-Reads r h [] [] in
    let same : reply_body r ++ [] ≡ reply_body r = append-nil (reply_body r) in
    ap (λ found. reply_behind found (header 1095 0x0412 ++ reply_body r))
      (ap parse_header (header_bytes-header 1095 0x0412 (reply_body r)) ∙ reply_header)
    ∙ (behind_header-header 1095 0x0412 (reply_body r) (λ body. result_of (read_reply (over body)))
        ∙ ap result_of (ap (λ packet. read_reply (behind [] packet)) (sym same) ∙ whole))
