-- ===== src/Postgres/Startup.antt =====
-- `StartupFramer` and `parse_startup_params` of pg_protocol.py.
pub mod Laws
use ohmydb_proxy.Prelude.{
  Bytes, Error, Option, Result, Text, [], decimal, decode_utf8, drop, err, find_null, if◌then◌else◌,
  int_text, length, lit, ltb, negsuc, none, not, ok, or_raise, pos, protocol_message_error,
  raise_if, some, suc, take, value_error, zero, ℕ, ℤ, ◌!=◌, ◌++◌, ◌+◌, ◌>>=◌, ◌>>◌, ◌∷◌,
}
use ohmydb_proxy.Prelude.Dict.{Dict, insert}
use ohmydb_proxy.Postgres.Protocol.{int32_at, is_int, protocol_error}

pub record StartupFramer : Type 0 where
  pub buffer : Bytes
  pub max_message_bytes : ℕ

unfoldable pub new : ℕ → Result StartupFramer
new max_message_bytes = do
  raise_if (ltb max_message_bytes 8) (value_error (lit "max_message_bytes must be at least 8"))
  ok (record { buffer = []; max_message_bytes = max_message_bytes })

abbrev pub too_short : ℤ → Error
too_short length =
    protocol_message_error
      (lit "invalid PostgreSQL startup length " ++ (int_text length ++ lit "; minimum is 8"))

-- The declared length, within its bounds.
abbrev pub declared_size : ℕ → ℤ → Result ℕ
declared_size max (negsuc n) = err (too_short (negsuc n))
declared_size max (pos length) = do
  raise_if (ltb length 8) (too_short (pos length))
  raise_if (ltb max length) (
      protocol_message_error (
        lit "PostgreSQL startup size "
        ++ (decimal length ++ (lit " exceeds configured maximum " ++ decimal max))))
  ok length

-- The packet, when the buffer is just that.
unfoldable pub whole_packet : ℕ → Bytes → Result (Option Bytes)
whole_packet max buffer = do
  size ← declared_size max (int32_at buffer 0)
  if ltb (length buffer) size then ok none else (do
    raise_if (length buffer != size) (protocol_error "PostgreSQL startup packet has trailing bytes")
    ok (some buffer))

abbrev pub kept : Bytes → Result (Option Bytes) → Bytes
kept buffer (ok (some raw)) = []
kept buffer _ = buffer

unfoldable pub push : StartupFramer → Bytes → Result (Option Bytes) × StartupFramer
unfolding whole_packet
push self chunk =
    let buffer = self.buffer ++ chunk in
    if ltb (length buffer) 4
    then (ok none, record self { buffer = buffer })
    else (let packet = whole_packet self.max_message_bytes buffer in
        (packet, record self { buffer = kept buffer packet }))

-- A key in front of its NUL, and what follows.
unfoldable pub parse_pair : Bytes → Result (Text × Text × Bytes)
parse_pair rest = do
  key_end ← or_raise (find_null rest 0) (protocol_error "StartupMessage key is not terminated")
  let behind = drop (key_end + 1) rest
  value_end ←
      or_raise (find_null behind 0) (protocol_error "StartupMessage value is not terminated")
  key ←
      or_raise (decode_utf8 (take key_end rest))
        (protocol_error "StartupMessage contains invalid UTF-8")
  value ←
      or_raise (decode_utf8 (take value_end behind))
        (protocol_error "StartupMessage contains invalid UTF-8")
  ok (key, value, drop (value_end + 1) behind)

-- The loop on fuel; none when the fuel ran out.
unfoldable pub params_loop : ℕ → Bytes → Dict Text → Option (Result (Dict Text))
unfolding parse_pair
params_loop zero rest params = none
params_loop (suc fuel) [] params =
    some (err (protocol_error "StartupMessage is missing final terminator"))
params_loop (suc fuel) (zero ∷ rest) params = some (ok params)
params_loop (suc fuel) (suc b ∷ rest) params = elim (parse_pair (suc b ∷ rest)) [
  | err e ↦ some (err e)
  | ok (key, value, behind) ↦ params_loop fuel behind (insert key value params)
]

-- Fuel for more than a round per byte.
unfoldable pub parse_startup_params : Bytes → Option (Result (Dict Text))
unfolding params_loop
parse_startup_params startup_message_raw =
    if ltb (length startup_message_raw) 9
    then some (err (protocol_error "StartupMessage is too short"))
    else if not (is_int (length startup_message_raw) (int32_at startup_message_raw 0))
    then some (err (protocol_error "StartupMessage declared length does not match received bytes"))
    else params_loop (length startup_message_raw) (drop 8 startup_message_raw) []
