-- ===== src/MySql/Response.antt =====
-- Backend responses in protocol.py: OK and EOF packets, and the header of a result set.
pub mod Laws
use ohmydb_proxy.Prelude.{
  Bool, Bytes, Result, String, [], bit_and, elem, err, from_bytes_le, if◌then◌else◌, index, leb,
  length, ltb, not, ok, raise_if, slice, true, ℕ, ◌!=◌, ◌+◌, ◌==◌, ◌>>=◌, ◌>>◌, ◌||◌, ◌∷◌,
}
use ohmydb_proxy.MySql.Constants.{
  client_protocol_41, client_transactions, mariadb_client_cache_metadata,
}
use ohmydb_proxy.MySql.Command.{mysql_error, starts_with_byte}
use ohmydb_proxy.MySql.Lenenc.{read_packet_length_encoded_integer}

-- `flags & mask` as a truth value
abbrev pub has_flag : ℕ → ℕ → Bool
has_flag flags mask = bit_and flags mask != 0

-- The two status bytes at an offset, in front of `more` bytes that must be there as well.
unfoldable pub status_at : Bytes → ℕ → ℕ → String → Result ℕ
status_at payload offset more message = do
  raise_if (ltb (length payload) (offset + 2 + more)) (mysql_error message)
  ok (from_bytes_le (slice payload offset (offset + 2)))

unfoldable pub parse_ok_packet_status : Bytes → ℕ → Result ℕ
unfolding starts_with_byte read_packet_length_encoded_integer status_at
parse_ok_packet_status payload capability_flags = do
  raise_if (not (starts_with_byte 0x00 payload || starts_with_byte 0xfe payload))
      (mysql_error "Backend packet is not an OK packet")
  (_, offset) ← read_packet_length_encoded_integer payload 1 "OK affected rows"
  (_, offset') ← read_packet_length_encoded_integer payload offset "OK last insert id"
  if has_flag capability_flags client_protocol_41
      then status_at payload offset' 2 "Backend OK packet is missing status or warning fields"
      else if has_flag capability_flags client_transactions
      then status_at payload offset' 0 "Backend OK packet is missing server status"
      else err (mysql_error "Backend OK packet has no negotiated server-status field")

unfoldable pub parse_eof_packet_status : Bytes → ℕ → Result ℕ
unfolding starts_with_byte
parse_eof_packet_status payload capability_flags = do
  raise_if (not (starts_with_byte 0xfe payload) || leb 9 (length payload))
      (mysql_error "Backend packet is not an EOF packet")
  raise_if (not (has_flag capability_flags client_protocol_41))
      (mysql_error "Backend EOF packet has no negotiated server-status field")
  raise_if (ltb (length payload) 5)
      (mysql_error "Backend EOF packet is missing warning or status fields")
  ok (from_bytes_le (slice payload 3 5))

-- The metadata indicator behind the column count: whether metadata follows, and the next offset.
unfoldable pub metadata_indicator : Bytes → ℕ → ℕ → Result (Bool × ℕ)
metadata_indicator payload capability_flags offset =
    if has_flag capability_flags mariadb_client_cache_metadata
    then (do
      raise_if (leb (length payload) offset)
          (mysql_error "MariaDB result-set header is missing metadata indicator")
      indicator ← index payload offset
      raise_if (not (elem indicator (0 ∷ 1 ∷ [])))
          (mysql_error "MariaDB result-set metadata indicator must be 0 or 1")
      ok (indicator == 1, offset + 1))
    else ok (true, offset)

unfoldable pub parse_resultset_header : Bytes → ℕ → Result (ℕ × Bool)
unfolding read_packet_length_encoded_integer metadata_indicator
parse_resultset_header payload capability_flags = do
  (count, offset) ← read_packet_length_encoded_integer payload 0 "result-set column count"
  raise_if (count == 0) (mysql_error "Backend result-set column count must be positive")
  (metadata_follows, end) ← metadata_indicator payload capability_flags offset
  raise_if (end != length payload)
      (mysql_error "Backend result-set header has unexpected trailing bytes")
  ok (count, metadata_follows)

unfoldable pub parse_resultset_column_count : Bytes → Result ℕ
unfolding parse_resultset_header
parse_resultset_column_count payload = do (count, _) ← parse_resultset_header payload 0; ok count
