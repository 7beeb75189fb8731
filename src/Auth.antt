-- ===== src/Auth.antt =====
-- crates/skysaga-auth/src/protocol.rs: the packets of a login, packed into bytes.
pub mod RoundTrip
pub mod Server
pub mod Safety
pub mod Tests
use sky_saga_rs.Common.{
  ℕ, ◌-◌, ◌/◌, ◌%◌, Bool, List, [], ◌∷◌, ◌++◌, length, take, drop, replicate, ltb, leb, ◌==◌,
  if◌then◌else◌,
}
use sky_saga_rs.Common.Integers.{ℤ, pos, negsuc, as_u32}
use sky_saga_rs.Common.Text.{Text}
use sky_saga_rs.BitStream.Byte.{to_le_bytes}
use sky_saga_rs.FixedStr.{write}
use sky_saga_rs.ByteReader.{
  ReaderError, ReadResult, done, failed, ByteReader, over, bytes, u8, u16_le, i32_le, fixed_str,
  and_then,
}

abbrev pub magic : ℕ
magic = 0xF1

abbrev pub header_size : ℕ
header_size = 5

abbrev pub login_request : ℕ
login_request = 0x0312

abbrev pub login_reply : ℕ
login_reply = 0x0412

pub data ProtocolError : Type 0 where
  bad_magic unexpected_id : ℕ → ProtocolError
  length_mismatch : (declared actual : ℕ) → ProtocolError
  truncated : ReaderError → ProtocolError

-- `Result`, with the end of the process that a slice out of range is.
pub data ProtocolResult {ℓ} (A : Type ℓ) : Type ℓ where
  parsed : A → ProtocolResult A
  refused : ProtocolError → ProtocolResult A
  panic : ProtocolResult A

-- `?` on a read
abbrev pub result_of {ℓ} : {A : Type ℓ} → ReadResult A × ByteReader → ProtocolResult A
result_of (done a, r) = parsed a
result_of (failed e, r) = refused (truncated e)

-- `size` is the field `length`.
pub record Header : Type 0 where
  pub size : ℕ
  pub id : ℕ

abbrev pub size_and_id : ByteReader → ReadResult Header × ByteReader
size_and_id r =
    and_then (u16_le r)
      (λ size. λ r. and_then (u16_le r) (λ id. λ r. (done (record { size = size; id = id }), r)))

abbrev pub checked_magic : ReadResult ℕ × ByteReader → ProtocolResult Header
checked_magic (failed e, r) = refused (truncated e)
checked_magic (done first, r) =
    if first == magic then result_of (size_and_id r) else refused (bad_magic first)

unfoldable pub parse_header : List ℕ → ProtocolResult Header
unfolding u8 u16_le
parse_header packet = checked_magic (u8 (over packet))

unfoldable pub body_len : Header → ℕ
body_len header = header.size - header_size

-- `packet.get(..HEADER_SIZE).unwrap_or(packet)`
abbrev pub header_bytes : List ℕ → List ℕ
header_bytes packet = if leb header_size (length packet) then take header_size packet else packet

-- `&packet[HEADER_SIZE..]`
abbrev pub behind_header {ℓ} :
    {A : Type ℓ} → List ℕ → (List ℕ → ProtocolResult A) → ProtocolResult A
behind_header packet k =
    if ltb (length packet) header_size then panic else k (drop header_size packet)

pub record LoginRequest : Type 0 where
  pub unknown : ℤ
  pub unknown2 : Text
  pub username : Text
  pub password : Text

abbrev pub request_size : ℕ
request_size = 123

abbrev pub read_body : ByteReader → ReadResult LoginRequest × ByteReader
read_body r = and_then (i32_le r) (λ unknown. λ r. and_then (fixed_str 32 r) (λ unknown2. λ r.
    and_then (fixed_str 50 r) (λ username. λ r. and_then (fixed_str 32 r) (λ password. λ r. (
      done (record {
        unknown = unknown;
        unknown2 = unknown2;
        username = username;
        password = password;
      }),
      r,
    )))))

unfoldable pub parse_body : List ℕ → ProtocolResult LoginRequest
unfolding i32_le fixed_str
parse_body body = result_of (read_body (over body))

abbrev pub request_behind : ProtocolResult Header → List ℕ → ProtocolResult LoginRequest
request_behind panic packet = panic
request_behind (refused e) packet = refused e
request_behind (parsed header) packet =
    if header.size == length packet
    then if header.id == login_request
      then behind_header packet parse_body
      else refused (unexpected_id header.id)
    else refused (length_mismatch header.size (length packet))

unfoldable pub parse_request : List ℕ → ProtocolResult LoginRequest
unfolding parse_header parse_body
parse_request packet = request_behind (parse_header (header_bytes packet)) packet

-- `to_le_bytes` of a u16
abbrev pub to_le_bytes_u16 : ℕ → List ℕ
to_le_bytes_u16 v = v % 256 ∷ v / 256 % 256 ∷ []

abbrev pub header : (size id : ℕ) → List ℕ
header size id = magic ∷ (to_le_bytes_u16 size ++ to_le_bytes_u16 id)

unfoldable pub request_bytes : LoginRequest → List ℕ
unfolding write to_le_bytes
request_bytes r =
    header request_size login_request
    ++ (to_le_bytes (as_u32 r.unknown)
        ++ (write 32 r.unknown2 ++ (write 50 r.username ++ write 32 r.password)))

pub data LoginResult : Type 0 where
  database_error no_such_account login_ok wrong_password ip_blocked user_blocked : LoginResult
  country_blocked password_locked invalid_spot_code account_cancelled : LoginResult
  maintenance not_beta_member banned : LoginResult

-- The discriminants.
abbrev pub code : LoginResult → ℤ
code database_error = negsuc 1
code no_such_account = negsuc 0
code login_ok = pos 0
code wrong_password = pos 1
code ip_blocked = pos 2
code user_blocked = pos 3
code country_blocked = pos 4
code password_locked = pos 5
code invalid_spot_code = pos 6
code account_cancelled = pos 7
code maintenance = pos 8
code not_beta_member = pos 9
code banned = pos 10

abbrev non_negative : ℕ → LoginResult
non_negative n =
    if n == 0
    then login_ok
    else if n == 1
    then wrong_password
    else if n == 2
    then ip_blocked
    else if n == 3
    then user_blocked
    else if n == 4
    then country_blocked
    else if n == 5
    then password_locked
    else if n == 6
    then invalid_spot_code
    else if n == 7
    then account_cancelled
    else if n == 8
    then maintenance
    else if n == 9
    then not_beta_member
    else banned

-- The `match` of the reply's parser.
abbrev pub result_of_code : ℤ → LoginResult
result_of_code (pos n) = non_negative n
result_of_code (negsuc n) =
    if n == 1 then database_error else if n == 0 then no_such_account else banned

pub record LoginReply : Type 0 where
  pub result : LoginResult
  pub unknown : ℤ
  pub username : Text
  pub token : Text

abbrev pub reply_size : ℕ
reply_size = 1095

unfoldable pub accepted : (username token : Text) → LoginReply
accepted username token = record {
  result = login_ok;
  unknown = pos 0;
  username = username;
  token = token;
}

unfoldable pub rejected : Text → LoginResult → LoginReply
rejected username result = record {
  result = result;
  unknown = pos 0;
  username = username;
  token = [];
}

unfoldable pub reply_bytes : LoginReply → List ℕ
unfolding write to_le_bytes
reply_bytes r =
    header reply_size login_reply
    ++ (to_le_bytes (as_u32 (code r.result))
        ++ (to_le_bytes (as_u32 r.unknown)
            ++ (replicate 8 0 ++ (write 50 r.username ++ write 1024 r.token))))

abbrev pub read_reply : ByteReader → ReadResult LoginReply × ByteReader
read_reply r = and_then (i32_le r) (λ found. λ r. and_then (i32_le r) (λ unknown. λ r.
    and_then (bytes 8 r) (λ gap. λ r. and_then (fixed_str 50 r) (λ username. λ r.
      and_then (fixed_str 1024 r) (λ token. λ r. (
        done (record {
          result = result_of_code found;
          unknown = unknown;
          username = username;
          token = token;
        }),
        r,
      ))))))

abbrev pub reply_behind : ProtocolResult Header → List ℕ → ProtocolResult LoginReply
reply_behind panic packet = panic
reply_behind (refused e) packet = refused e
reply_behind (parsed header) packet =
    if header.id == login_reply
    then behind_header packet (λ body. result_of (read_reply (over body)))
    else refused (unexpected_id header.id)

unfoldable pub parse_reply : List ℕ → ProtocolResult LoginReply
unfolding parse_header bytes i32_le fixed_str
parse_reply packet = reply_behind (parse_header (header_bytes packet)) packet
