-- ===== src/MySql/Handshake/Laws.antt =====
-- `parse_handshake_response` never reads past the payload: whatever the client sends, its only
-- exception is MySqlProtocolError. The request for TLS is told apart from a login.
use ohmydb_proxy.Prelude.{
  Bool, Bytes, Error, OnlyMySqlErrors, Result, Result-cases, String, Text, [], ap, arith, bit_and,
  bit_or, err, false, from_bytes_le, get_elem?-none, if◌then◌else◌, inl, inr, is_empty,
  is_mysql_error, length, length-append, ltb, none, ok, raise_if, refl, slice, slice_middle, subst,
  sym, true, ℕ, ◌!=◌, ◌&&◌, ◌*◌, ◌++◌, ◌+◌, ◌==◌, ◌>>◌, ◌^◌, ◌∙◌, ◌∷◌, ◌≡◌,
}
use ohmydb_proxy.MySql.Constants.{client_ssl}
use ohmydb_proxy.MySql.Lenenc.{read_lenenc, read_length_encoded_integer}
use ohmydb_proxy.MySql.Response.{has_flag}
use ohmydb_proxy.MySql.Handshake.{
  MySqlHandshakeResponse, behind_auth, capability_flags_of, parse_handshake_response, parse_login,
  read_auth_plugin, read_database, read_null_terminated, skip_auth_response,
}

read_null_terminated-OnlyMySqlErrors :
    (payload : Bytes) (offset : ℕ) (field_name : String)
    → OnlyMySqlErrors (read_null_terminated payload offset field_name)
unfolding read_null_terminated
read_null_terminated-OnlyMySqlErrors payload offset field_name e h = ground arith

read_length_encoded_integer-OnlyMySqlErrors :
    (payload : Bytes) (offset : ℕ) → OnlyMySqlErrors (read_length_encoded_integer payload offset)
unfolding read_length_encoded_integer read_lenenc
read_length_encoded_integer-OnlyMySqlErrors payload offset e h =
    ground (arith, get_elem?-none payload offset)

skip_auth_response-OnlyMySqlErrors :
    (payload : Bytes) (capability_flags offset : ℕ)
    → OnlyMySqlErrors (skip_auth_response payload capability_flags offset)
unfolding skip_auth_response
skip_auth_response-OnlyMySqlErrors payload capability_flags offset e h = ground (
  arith,
  get_elem?-none payload offset,
  read_length_encoded_integer-OnlyMySqlErrors payload offset e,
  read_null_terminated-OnlyMySqlErrors payload offset "auth response" e,
)

read_database-OnlyMySqlErrors :
    (payload : Bytes) (capability_flags offset : ℕ)
    → OnlyMySqlErrors (read_database payload capability_flags offset)
unfolding read_database
read_database-OnlyMySqlErrors payload capability_flags offset e h =
    ground (arith, read_null_terminated-OnlyMySqlErrors payload offset "database" e)

read_auth_plugin-OnlyMySqlErrors :
    (payload : Bytes) (capability_flags offset : ℕ)
    → OnlyMySqlErrors (read_auth_plugin payload capability_flags offset)
unfolding read_auth_plugin
read_auth_plugin-OnlyMySqlErrors payload capability_flags offset e h =
    ground (arith, read_null_terminated-OnlyMySqlErrors payload offset "auth plugin" e)

-- What follows the authentication data.
behind_auth-OnlyMySqlErrors :
    (payload : Bytes) (capability_flags offset : ℕ) (username : Text)
    → OnlyMySqlErrors (behind_auth payload capability_flags offset username)
unfolding behind_auth
behind_auth-OnlyMySqlErrors payload capability_flags offset username e h =
    elim (Result-cases (read_database payload capability_flags offset)) [
      | inr (x, q) ↦
          ground (arith, q, read_database-OnlyMySqlErrors payload capability_flags offset x q)
      | inl ((database, end), q) ↦
          ground (arith, q, read_auth_plugin-OnlyMySqlErrors payload capability_flags end e)
    ]

parse_login-OnlyMySqlErrors :
    (payload : Bytes) (capability_flags : ℕ)
    → OnlyMySqlErrors (parse_login payload capability_flags)
unfolding parse_login
parse_login-OnlyMySqlErrors payload capability_flags e h =
    elim (Result-cases (read_null_terminated payload 32 "username")) [
      | inr (x, q) ↦
          ground (arith, q, read_null_terminated-OnlyMySqlErrors payload 32 "username" x q)
      | inl ((username_bytes, offset), q) ↦
          elim (Result-cases (skip_auth_response payload capability_flags offset)) [
            | inr (x, r) ↦ ground (
              arith,
              q,
              r,
              skip_auth_response-OnlyMySqlErrors payload capability_flags offset x r,
            )
            | inl (end, r) ↦
                ground (arith, q, r, behind_auth-OnlyMySqlErrors payload capability_flags end _ e)
          ]
    ]

-- Whatever bytes a client sends as its handshake response, an exception that
-- parse_handshake_response raises is a MySqlProtocolError.
pub parse_handshake_response-OnlyMySqlErrors :
    (payload : Bytes) (e : Error)
    → parse_handshake_response payload ≡ err e
    → is_mysql_error e ≡ true
unfolding parse_handshake_response
parse_handshake_response-OnlyMySqlErrors payload e h =
    ground (arith, parse_login-OnlyMySqlErrors payload (capability_flags_of payload) e)

behind_auth_login :
    (payload : Bytes) (capability_flags offset : ℕ) (username : Text) {r : MySqlHandshakeResponse}
    → behind_auth payload capability_flags offset username ≡ ok r
    → (r.capability_flags ≡ capability_flags) × (r.is_ssl_request ≡ false)
unfolding behind_auth
behind_auth_login payload capability_flags offset username {r} h =
    elim (Result-cases (read_database payload capability_flags offset)) [
      | inr (x, q) ↦ ground (arith, q)
      | inl ((database, end), q) ↦
          elim (Result-cases (read_auth_plugin payload capability_flags end)) [
            | inr (x, p) ↦ ground (arith, q, p)
            | inl (plugin, p) ↦ ground (arith, q, p)
          ]
    ]

parse_login_login :
    (payload : Bytes) (capability_flags : ℕ) {r : MySqlHandshakeResponse}
    → parse_login payload capability_flags ≡ ok r
    → (r.capability_flags ≡ capability_flags) × (r.is_ssl_request ≡ false)
unfolding parse_login
parse_login_login payload capability_flags h =
    elim (Result-cases (read_null_terminated payload 32 "username")) [
      | inr (x, q) ↦ ground (arith, q)
      | inl ((username_bytes, offset), q) ↦
          elim (Result-cases (skip_auth_response payload capability_flags offset)) [
            | inr (x, p) ↦ ground (arith, q, p)
            | inl (end, p) ↦ ground (arith, q, p, behind_auth_login payload capability_flags end)
          ]
    ]

abbrev tls_request : ℕ → MySqlHandshakeResponse
tls_request capability_flags = record {
  capability_flags = capability_flags;
  username = [];
  database = none;
  auth_plugin = none;
  is_ssl_request = true;
}

-- The choice between a request for TLS and a login, behind the test of the length.
choice :
    (short is_request : Bool) (m : Error) (capability_flags : ℕ)
    (login : Result MySqlHandshakeResponse) {r : MySqlHandshakeResponse}
    → (login ≡ ok r → (r.capability_flags ≡ capability_flags) × (r.is_ssl_request ≡ false))
    → (raise_if short m >> (if is_request then ok (tls_request capability_flags) else login)) ≡ ok r
    → (r.capability_flags ≡ capability_flags) × (r.is_ssl_request ≡ is_request)
choice true is_request m capability_flags login f h = ground arith
choice false true m capability_flags login f h = ground arith
choice false false m capability_flags login f h = f h

-- A number of four bytes, the lowest one first.
abbrev pub four_bytes : ℕ → ℕ → ℕ → ℕ → ℕ
four_bytes b0 b1 b2 b3 = b0 + 256 * (b1 + 256 * (b2 + 256 * b3))

-- The capabilities for the two numbers of four bytes that stand at the start and at the end of the
-- fixed part: the second one extends the first, unless the lowest bit, CLIENT_MYSQL, is set.
abbrev pub announced_flags : ℕ → ℕ → ℕ
announced_flags low high = if bit_and low 1 == 0 then bit_or low (high * 2 ^ 32) else low

-- The fixed part of a handshake response and what follows it.
abbrev pub response_bytes : (b0 b1 b2 b3 : ℕ) → Bytes → (c0 c1 c2 c3 : ℕ) → Bytes → Bytes
response_bytes b0 b1 b2 b3 middle c0 c1 c2 c3 rest =
    (b0 ∷ b1 ∷ b2 ∷ b3 ∷ middle) ++ ((c0 ∷ c1 ∷ c2 ∷ c3 ∷ []) ++ rest)

four_bytes_read :
    (b0 b1 b2 b3 : ℕ) → from_bytes_le (b0 ∷ b1 ∷ b2 ∷ b3 ∷ []) ≡ four_bytes b0 b1 b2 b3
unfolding from_bytes_le
four_bytes_read b0 b1 b2 b3 = omega arith

flags_announced :
    (b0 b1 b2 b3 : ℕ) (middle : Bytes) (c0 c1 c2 c3 : ℕ) (rest : Bytes)
    → length middle ≡ 24
    → capability_flags_of (response_bytes b0 b1 b2 b3 middle c0 c1 c2 c3 rest)
      ≡ announced_flags (four_bytes b0 b1 b2 b3) (four_bytes c0 c1 c2 c3)
unfolding capability_flags_of
flags_announced b0 b1 b2 b3 middle c0 c1 c2 c3 rest h =
    let front : Bytes = b0 ∷ b1 ∷ b2 ∷ b3 ∷ middle in
    let part : Bytes = c0 ∷ c1 ∷ c2 ∷ c3 ∷ [] in
    let start : length front ≡ 28 = omega (arith, h) in
    let high : slice (front ++ (part ++ rest)) 28 32 ≡ part =
      subst (λ n. slice (front ++ (part ++ rest)) n (n + 4) ≡ part) start
        (slice_middle front part rest 4 refl) in
    rw (high, four_bytes_read b0 b1 b2 b3, four_bytes_read c0 c1 c2 c3)
      (extended (bit_and (four_bytes b0 b1 b2 b3) 1) _ _)
  where
    extended : (x low both : ℕ) → (if x != 0 then low else both) ≡ (if x == 0 then both else low)
    extended x low both = ground arith

rest_is_empty :
    (b0 b1 b2 b3 : ℕ) (middle : Bytes) (c0 c1 c2 c3 : ℕ) (rest : Bytes)
    → length middle ≡ 24
    → (length (response_bytes b0 b1 b2 b3 middle c0 c1 c2 c3 rest) == 32) ≡ is_empty rest
rest_is_empty b0 b1 b2 b3 middle c0 c1 c2 c3 [] h =
    ground (arith, length-append middle (c0 ∷ c1 ∷ c2 ∷ c3 ∷ []), h)
rest_is_empty b0 b1 b2 b3 middle c0 c1 c2 c3 (b ∷ bs) h =
    ground (arith, length-append middle (c0 ∷ c1 ∷ c2 ∷ c3 ∷ b ∷ bs), h)

-- A handshake response that parses carries the capabilities of its first four bytes, the lowest one
-- first, extended by the last four bytes of its fixed part of 32 when the lowest bit is clear; and it
-- is a request for TLS exactly when the bit 0x800 of these is set and nothing follows the fixed part.
pub parse_handshake_response_request :
    (b0 b1 b2 b3 : ℕ) (middle : Bytes) (c0 c1 c2 c3 : ℕ) (rest : Bytes) (r : MySqlHandshakeResponse)
    → length middle ≡ 24
    → parse_handshake_response (response_bytes b0 b1 b2 b3 middle c0 c1 c2 c3 rest) ≡ ok r
    → (r.capability_flags ≡ announced_flags (four_bytes b0 b1 b2 b3) (four_bytes c0 c1 c2 c3))
      × (r.is_ssl_request ≡ (bit_and r.capability_flags 0x800 != 0 && is_empty rest))
unfolding parse_handshake_response
parse_handshake_response_request b0 b1 b2 b3 middle c0 c1 c2 c3 rest r m h =
    let payload : Bytes = response_bytes b0 b1 b2 b3 middle c0 c1 c2 c3 rest in
    let (flags, tls) =
      choice (ltb (length payload) 32)
        (has_flag (capability_flags_of payload) client_ssl && (length payload == 32)) _
        (capability_flags_of payload) (parse_login payload (capability_flags_of payload))
        (parse_login_login payload (capability_flags_of payload)) h in
    (
      flags ∙ flags_announced b0 b1 b2 b3 middle c0 c1 c2 c3 rest m,
      tls
          ∙ ap (λ e. has_flag (capability_flags_of payload) client_ssl && e)
              (rest_is_empty b0 b1 b2 b3 middle c0 c1 c2 c3 rest m)
          ∙ ap (λ f. bit_and f 0x800 != 0 && is_empty rest) (sym flags),
    )
