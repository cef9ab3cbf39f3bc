-- ===== src/Tests/Logins.antt =====
-- Runs of the parser of the client's handshake response, and instances of its theorems.
use ohmydb_proxy.Prelude.{
  Bytes, [], bit_and, decode_utf8, err, false, from_bytes_le, is_mysql_error, lit, none, ok, refl,
  true, ℕ, ◌!=◌, ◌&&◌, ◌++◌, ◌∷◌, ◌≡◌,
}
use ohmydb_proxy.MySql.Constants.{}
use ohmydb_proxy.MySql.Command.{mysql_error}
use ohmydb_proxy.MySql.Lenenc.{}
use ohmydb_proxy.MySql.Response.{}
use ohmydb_proxy.MySql.Handshake.{parse_handshake_response}
use ohmydb_proxy.MySql.Handshake.Laws.{
  announced_flags, four_bytes, parse_handshake_response-OnlyMySqlErrors,
  parse_handshake_response_request, response_bytes,
}

-- The fixed part of a response, with the two low bytes of its capabilities.
abbrev pub fixed_part : ℕ → ℕ → Bytes
fixed_part b0 b1 =
    b0 ∷ b1 ∷ 0 ∷ 0 ∷ 0 ∷ 0 ∷ 0 ∷ 0 ∷ 8 ∷ 0 ∷ 0 ∷ 0 ∷ 0 ∷ 0 ∷ 0 ∷ 0 ∷ 0 ∷ 0 ∷ 0 ∷ 0 ∷ 0 ∷ 0 ∷ 0 ∷ 0
    ∷ 0 ∷ 0 ∷ 0 ∷ 0 ∷ 0 ∷ 0 ∷ 0 ∷ 0 ∷ []

-- The user "me" with two bytes of authentication data, under CLIENT_SECURE_CONNECTION.
abbrev pub login : Bytes
login = fixed_part 0x01 0x82 ++ (109 ∷ 101 ∷ 0 ∷ 2 ∷ 7 ∷ 7 ∷ [])

login_is_read :
    parse_handshake_response login
    ≡ ok (record {
      capability_flags = 0x8201;
      username = 109 ∷ 101 ∷ [];
      database = none;
      auth_plugin = none;
      is_ssl_request = false;
    })
unfolding parse_handshake_response from_bytes_le decode_utf8
login_is_read = refl

tls_is_read :
    parse_handshake_response (fixed_part 0x01 0x0a)
    ≡ ok (record {
      capability_flags = 0x0a01;
      username = [];
      database = none;
      auth_plugin = none;
      is_ssl_request = true;
    })
unfolding parse_handshake_response from_bytes_le
tls_is_read = refl

no_user :
    parse_handshake_response (fixed_part 0x01 0x82)
    ≡ err (mysql_error "MySQL handshake response username is not null terminated")
unfolding parse_handshake_response from_bytes_le lit
no_user = refl

parse_handshake_response-OnlyMySqlErrors_example :
    is_mysql_error (mysql_error "MySQL handshake response username is not null terminated") ≡ true
parse_handshake_response-OnlyMySqlErrors_example =
    parse_handshake_response-OnlyMySqlErrors (fixed_part 0x01 0x82)
      (mysql_error "MySQL handshake response username is not null terminated") no_user

-- The fixed part between its first and its last four bytes.
abbrev middle_part : Bytes
middle_part =
    0 ∷ 0 ∷ 0 ∷ 0 ∷ 8 ∷ 0 ∷ 0 ∷ 0 ∷ 0 ∷ 0 ∷ 0 ∷ 0 ∷ 0 ∷ 0 ∷ 0 ∷ 0 ∷ 0 ∷ 0 ∷ 0 ∷ 0 ∷ 0 ∷ 0 ∷ 0 ∷ 0
    ∷ []

-- A request for TLS under the capabilities 0x0a00 and, extended, 0x10.
extended_is_read :
    parse_handshake_response (response_bytes 0x00 0x0a 0 0 middle_part 0x10 0 0 0 [])
    ≡ ok (record {
      capability_flags = 0x1000000a00;
      username = [];
      database = none;
      auth_plugin = none;
      is_ssl_request = true;
    })
unfolding parse_handshake_response from_bytes_le
extended_is_read = refl

parse_handshake_response_request_example :
    (0x1000000a00 ≡ announced_flags (four_bytes 0x00 0x0a 0 0) (four_bytes 0x10 0 0 0))
    × (true ≡ (bit_and 0x1000000a00 0x800 != 0 && true))
parse_handshake_response_request_example =
    parse_handshake_response_request 0x00 0x0a 0 0 middle_part 0x10 0 0 0 []
      (record {
        capability_flags = 0x1000000a00;
        username = [];
        database = none;
        auth_plugin = none;
        is_ssl_request = true;
      })
      refl extended_is_read
