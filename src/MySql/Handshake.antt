-- ===== src/MySql/Handshake.antt =====
-- `parse_handshake_response` of protocol.py.
pub mod Laws
use ohmydb_proxy.Prelude.{
  Bool, Bytes, Option, Result, String, Text, [], bit_or, decode_ascii, decode_utf8, drop, false,
  find_null, from_bytes_le, if◌then◌else◌, index, leb, length, lit, ltb, mysql_protocol_error, none,
  ok, or_raise, raise_if, slice, some, true, ℕ, ◌&&◌, ◌*◌, ◌++◌, ◌+◌, ◌==◌, ◌>>=◌, ◌>>◌, ◌^◌,
}
use ohmydb_proxy.MySql.Constants.{
  client_connect_with_db, client_mysql, client_plugin_auth, client_plugin_auth_lenenc_client_data,
  client_secure_connection, client_ssl,
}
use ohmydb_proxy.MySql.Command.{mysql_error}
use ohmydb_proxy.MySql.Lenenc.{read_length_encoded_integer}
use ohmydb_proxy.MySql.Response.{has_flag}

pub record MySqlHandshakeResponse : Type 0 where
  pub capability_flags : ℕ
  pub username : Text
  pub database : Option Text
  pub auth_plugin : Option Text
  pub is_ssl_request : Bool

unfoldable pub read_null_terminated : Bytes → ℕ → String → Result (Bytes × ℕ)
unfolding find_null
read_null_terminated payload offset field_name = do
  end ← or_raise (find_null (drop offset payload) offset) (
      mysql_protocol_error
        (lit "MySQL handshake response " ++ (lit field_name ++ lit " is not null terminated")))
  ok (slice payload offset end, end + 1)

-- The capability flags of a payload of 32 bytes at least.
unfoldable pub capability_flags_of : Bytes → ℕ
capability_flags_of payload =
    let low = from_bytes_le (slice payload 0 4) in
    if has_flag low client_mysql
    then low
    else bit_or low (from_bytes_le (slice payload 28 32) * 2 ^ 32)

-- The offset behind the authentication data.
unfoldable pub skip_auth_response : Bytes → ℕ → ℕ → Result ℕ
unfolding read_length_encoded_integer read_null_terminated
skip_auth_response payload capability_flags offset =
    if has_flag capability_flags client_plugin_auth_lenenc_client_data
    then (do
      (auth_length, offset') ← read_length_encoded_integer payload offset
      ok (offset' + auth_length))
    else if has_flag capability_flags client_secure_connection
    then (do
      raise_if (leb (length payload) offset)
          (mysql_error "MySQL handshake response is missing auth-response length")
      auth_length ← index payload offset
      ok (offset + (1 + auth_length)))
    else (do (_, offset') ← read_null_terminated payload offset "auth response"; ok offset')

unfoldable pub read_database : Bytes → ℕ → ℕ → Result (Option Text × ℕ)
unfolding read_null_terminated
read_database payload capability_flags offset =
    if has_flag capability_flags client_connect_with_db
    then (do
      (database_bytes, offset') ← read_null_terminated payload offset "database"
      database ←
          or_raise (decode_utf8 database_bytes)
            (mysql_error "MySQL handshake response database is not valid UTF-8")
      ok (some database, offset'))
    else ok (none, offset)

unfoldable pub read_auth_plugin : Bytes → ℕ → ℕ → Result (Option Text)
unfolding read_null_terminated
read_auth_plugin payload capability_flags offset =
    if has_flag capability_flags client_plugin_auth && ltb offset (length payload)
    then (do
      (plugin_bytes, _) ← read_null_terminated payload offset "auth plugin"
      auth_plugin ←
          or_raise (decode_ascii plugin_bytes)
            (mysql_error "MySQL handshake response auth plugin is not ASCII")
      ok (some auth_plugin))
    else ok none

-- The database and the plugin, behind the authentication data.
unfoldable pub behind_auth : Bytes → ℕ → ℕ → Text → Result MySqlHandshakeResponse
unfolding read_database read_auth_plugin
behind_auth payload capability_flags offset username = do
  (database, offset') ← read_database payload capability_flags offset
  auth_plugin ← read_auth_plugin payload capability_flags offset'
  ok (record {
    capability_flags = capability_flags;
    username = username;
    database = database;
    auth_plugin = auth_plugin;
    is_ssl_request = false;
  })

-- What `parse_handshake_response` does after the test for an SSL request.
unfoldable pub parse_login : Bytes → ℕ → Result MySqlHandshakeResponse
unfolding read_null_terminated skip_auth_response behind_auth
parse_login payload capability_flags = do
  (username_bytes, offset) ← read_null_terminated payload 32 "username"
  username ←
      or_raise (decode_utf8 username_bytes)
        (mysql_error "MySQL handshake response username is not valid UTF-8")
  offset' ← skip_auth_response payload capability_flags offset
  raise_if (ltb (length payload) offset')
      (mysql_error "MySQL handshake response auth data is truncated")
  behind_auth payload capability_flags offset' username

unfoldable pub parse_handshake_response : Bytes → Result MySqlHandshakeResponse
unfolding capability_flags_of parse_login
parse_handshake_response payload = do
  raise_if (ltb (length payload) 32)
      (mysql_error "MySQL handshake response is shorter than 32 bytes")
  let capability_flags = capability_flags_of payload
  if has_flag capability_flags client_ssl && (length payload == 32)
      then ok (record {
        capability_flags = capability_flags;
        username = [];
        database = none;
        auth_plugin = none;
        is_ssl_request = true;
      })
      else parse_login payload capability_flags
