-- ===== src/MySql/Lenenc.antt =====
-- Length-encoded integers: `_read_length_encoded_integer` and
-- `_read_packet_length_encoded_integer` of protocol.py, which differ in their messages.
pub mod Laws
use ohmydb_proxy.Prelude.{
  Bytes, Error, Option, Result, String, from_bytes_le, if◌then◌else◌, index, leb, length, lit, ltb,
  mysql_protocol_error, none, ok, or_raise, raise_if, slice, some, ℕ, ◌++◌, ◌+◌, ◌==◌, ◌>>=◌, ◌>>◌,
}
use ohmydb_proxy.MySql.Command.{mysql_error}

-- How many bytes follow the marker 0xFC, 0xFD or 0xFE; any other marker from 0xFB on is refused.
unfoldable pub lenenc_size : ℕ → Option ℕ
lenenc_size first =
    if first == 0xfc
    then some 2
    else if first == 0xfd
    then some 3
    else if first == 0xfe
    then some 8
    else none

-- The messages of the one reader and of the other.
pub record Messages : Type 0 where
  pub missing : Error
  pub null : Error
  pub truncated : Error

-- Both readers, up to their messages. The second result is the offset behind the integer.
unfoldable pub read_lenenc : Messages → Bytes → ℕ → Result (ℕ × ℕ)
unfolding lenenc_size
read_lenenc messages payload offset = do
  raise_if (leb (length payload) offset) messages.missing
  first ← index payload offset
  if ltb first 0xfb then ok (first, offset + 1) else do
    size ← or_raise (lenenc_size first) messages.null
    raise_if (ltb (length payload) (offset + 1 + size)) messages.truncated
    ok (from_bytes_le (slice payload (offset + 1) (offset + 1 + size)), offset + 1 + size)

unfoldable pub read_length_encoded_integer : Bytes → ℕ → Result (ℕ × ℕ)
unfolding read_lenenc
read_length_encoded_integer = read_lenenc (record {
  missing = mysql_error "MySQL handshake response is missing a length-encoded integer";
  null = mysql_error "Unsupported NULL length-encoded value in handshake response";
  truncated = mysql_error "Truncated length-encoded integer in handshake response";
})

unfoldable pub read_packet_length_encoded_integer : Bytes → ℕ → String → Result (ℕ × ℕ)
unfolding read_lenenc
read_packet_length_encoded_integer payload offset field_name =
    read_lenenc
      (record {
        missing = mysql_protocol_error (lit "Backend packet is missing " ++ lit field_name);
        null = mysql_protocol_error (lit "Backend packet contains NULL for " ++ lit field_name);
        truncated = mysql_protocol_error (lit "Backend packet has truncated " ++ lit field_name);
      })
      payload offset
