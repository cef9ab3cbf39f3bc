-- ===== src/MySql/Packet.antt =====
-- Packets of protocol.py and their construction: `MySqlPacket`, `MySqlLogicalMessage`,
-- `build_packet`, `build_error_packet`.
use ohmydb_proxy.Prelude.{
  Bytes, Result, Text, [], between, encode_utf8, if◌then◌else◌, length, lit, ltb, map, ok, raise_if,
  to_bytes_le, value_error, ℕ, ◌!=◌, ◌++◌, ◌>>◌, ◌∷◌,
}
use ohmydb_proxy.MySql.Constants.{max_packet_payload}

pub record MySqlPacket : Type 0 where
  pub sequence_id : ℕ
  pub payload : Bytes
  pub raw : Bytes

pub record MySqlLogicalMessage : Type 0 where
  pub first_sequence_id : ℕ
  pub last_sequence_id : ℕ
  pub payload : Bytes
  pub raw_packets : Bytes
  pub packet_count : ℕ

-- The sequence id is a natural number here, so the test `0 <= sequence_id` always passes.
unfoldable pub build_packet : Bytes → ℕ → Result Bytes
build_packet payload sequence_id = do
  raise_if (ltb max_packet_payload (length payload))
      (value_error (lit "Single MySQL packet payload is too large"))
  raise_if (ltb 255 sequence_id) (value_error (lit "MySQL sequence id must be between 0 and 255"))
  ok (to_bytes_le 3 (length payload) ++ ((sequence_id ∷ []) ++ payload))

-- `errors="replace"` of the encoding: a lone surrogate becomes a question mark.
unfoldable pub replace_surrogate : ℕ → ℕ
replace_surrogate c = if between 0xd800 0xdfff c then b'?' else c

-- The callers' error codes fit in two bytes and their SQLSTATEs are ASCII, so that neither
-- `to_bytes` nor `encode` raises.
unfoldable pub build_error_packet : Text → ℕ → ℕ → Text → Result Bytes
unfolding build_packet replace_surrogate
build_error_packet message sequence_id error_code sql_state = do
  raise_if (length sql_state != 5) (value_error (lit "MySQL SQLSTATE must contain five characters"))
  build_packet
      (0xff
        ∷ (to_bytes_le 2 error_code
            ++ (b'#' ∷ (sql_state ++ encode_utf8 (map replace_surrogate message)))))
      sequence_id
