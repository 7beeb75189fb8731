-- ===== src/Auth/Tests.antt =====
-- Logins, from the bytes up.
use sky_saga_rs.Common.{◌≡◌, ◌≢◌, refl, inl, [], ◌∷◌, ◌++◌, arith}
use sky_saga_rs.Common.Integers.{negsuc, IsI32}
use sky_saga_rs.Common.Text.{Text, as_bytes}
use sky_saga_rs.FixedStr.{read, write}
use sky_saga_rs.FixedStr.Decoded.{AreChars}
use sky_saga_rs.FixedStr.Boundaries.{kept}
use sky_saga_rs.FixedStr.RoundTrip.{read-write}
use sky_saga_rs.State.Types.{any_non_empty, new}
use sky_saga_rs.State.Accounts.{authenticate}
use sky_saga_rs.Auth.{
  parsed, panic, LoginRequest, request_bytes, parse_request, parse_reply, reply_bytes,
}
use sky_saga_rs.Auth.RoundTrip.{Fits, FitsRequest}
use sky_saga_rs.Auth.Server.{received, read_request, reply_of, login, write_all, handle_connection}
use sky_saga_rs.Auth.Server.Replies.{handle_connection-request_bytes}
use sky_saga_rs.Auth.Server.Outcomes.{Outcome, handle_connection_outcome}
use sky_saga_rs.Auth.Safety.{IsSafe-packets}

-- A letter of one byte, one of two and one of three.
abbrev letters : Text
letters = 66 ∷ 0xE9 ∷ 0x20AC ∷ []

letters-AreChars : AreChars letters
unfolding AreChars
letters-AreChars = (
  record { positive = omega arith; in_range = omega arith; no_surrogate = inl (omega arith) },
  (
    record { positive = omega arith; in_range = omega arith; no_surrogate = inl (omega arith) },
    (
      record { positive = omega arith; in_range = omega arith; no_surrogate = inl (omega arith) },
      tt,
    ),
  ),
)

-- Six bytes, of which the field of five has room for three.
cut : kept 4 letters ≡ 66 ∷ 0xE9 ∷ []
unfolding kept
cut = refl

read-write_example : read (write 5 letters) ≡ kept 4 letters
read-write_example = read-write 4 letters letters-AreChars

abbrev request : LoginRequest
request = record { unknown = negsuc 4; unknown2 = []; username = letters; password = letters }

letters-Fits : Fits 31 letters
unfolding as_bytes
letters-Fits = record { chars = letters-AreChars; room = omega arith }

letters-Fits_name : Fits 49 letters
unfolding as_bytes
letters-Fits_name = record { chars = letters-AreChars; room = omega arith }

letters-Fits_token : Fits 1023 letters
unfolding as_bytes
letters-Fits_token = record { chars = letters-AreChars; room = omega arith }

request-FitsRequest : FitsRequest request
unfolding IsI32 AreChars as_bytes
request-FitsRequest = record {
  unknown = omega arith;
  unknown2 = record { chars = tt; room = omega arith };
  username = letters-Fits_name;
  password = letters-Fits;
}

handle_connection-request_bytes_example :
    (handle_connection letters (request_bytes request ++ (7 ∷ [])) 10 (new any_non_empty) ≡ (
      write_all 10 (reply_bytes (login letters request (new any_non_empty)).0),
      (authenticate letters letters letters (new any_non_empty)).1,
    ))
    × (parse_reply (reply_bytes (login letters request (new any_non_empty)).0)
        ≡ parsed (reply_of request (authenticate letters letters letters (new any_non_empty)).0))
handle_connection-request_bytes_example =
    handle_connection-request_bytes letters request (7 ∷ []) 10 (new any_non_empty)
      request-FitsRequest letters-Fits_token

-- An answer of which three bytes can be written.
handle_connection_outcome_example : Outcome letters (request_bytes request) 3 (new any_non_empty)
handle_connection_outcome_example =
    handle_connection_outcome letters (request_bytes request) 3 (new any_non_empty)

IsSafe-packets_example :
    (parse_request (0xF1 ∷ 5 ∷ 0 ∷ []) ≢ panic)
    × (parse_reply (0xF1 ∷ 5 ∷ 0 ∷ []) ≢ panic)
    × (read_request (0xF1 ∷ 5 ∷ 0 ∷ []) ≢ received panic)
IsSafe-packets_example = IsSafe-packets (0xF1 ∷ 5 ∷ 0 ∷ [])
