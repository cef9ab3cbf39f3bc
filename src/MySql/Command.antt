-- ===== src/MySql/Command.antt =====
-- The commands of protocol.py: `classify_command` and the parsers of command payloads.
pub mod Laws
use ohmydb_proxy.Prelude.{
  Bool, Bytes, Error, Result, String, Text, [], decode_utf8, drop, false, from_bytes_le,
  if◌then◌else◌, index, is_empty, length, lit, ltb, mysql_protocol_error, not, ok, or_raise,
  raise_if, slice, take, ℕ, ◌!=◌, ◌==◌, ◌>>=◌, ◌>>◌, ◌∷◌,
}
use ohmydb_proxy.MySql.Constants.{
  com_init_db, com_ping, com_query, com_quit, com_stmt_close, com_stmt_execute, com_stmt_prepare,
  com_stmt_reset, com_stmt_send_long_data,
}
use ohmydb_proxy.MySql.Packet.{MySqlLogicalMessage, MySqlPacket}

pub data MySqlCommandKind : Type 0 where
  query init_db quit ping : MySqlCommandKind
  stmt_prepare stmt_execute stmt_send_long_data stmt_close stmt_reset : MySqlCommandKind
  unsupported : MySqlCommandKind

pub record MySqlCommand : Type 0 where
  pub command_code : ℕ
  pub kind : MySqlCommandKind
  pub payload : Bytes

pub record MySqlStmtExecute : Type 0 where
  pub statement_id : ℕ
  pub flags : ℕ
  pub iteration_count : ℕ
  pub parameter_payload : Bytes

pub record MySqlStmtLongData : Type 0 where
  pub statement_id : ℕ
  pub parameter_id : ℕ
  pub long_data : Bytes

pub record MySqlStmtPrepareOk : Type 0 where
  pub statement_id : ℕ
  pub column_count : ℕ
  pub parameter_count : ℕ
  pub warning_count : ℕ

abbrev pub mysql_error : String → Error
mysql_error message = mysql_protocol_error (lit message)

unfoldable pub parse_command : MySqlPacket → Result (ℕ × Bytes)
parse_command packet = do
  raise_if (is_empty packet.payload) (mysql_error "MySQL command packet is empty")
  code ← index packet.payload 0
  ok (code, drop 1 packet.payload)

unfoldable pub command_kind : ℕ → MySqlCommandKind
command_kind command_code =
    if command_code == com_query
    then query
    else if command_code == com_init_db
    then init_db
    else if command_code == com_quit
    then quit
    else if command_code == com_ping
    then ping
    else if command_code == com_stmt_prepare
    then stmt_prepare
    else if command_code == com_stmt_execute
    then stmt_execute
    else if command_code == com_stmt_send_long_data
    then stmt_send_long_data
    else if command_code == com_stmt_close
    then stmt_close
    else if command_code == com_stmt_reset
    then stmt_reset
    else unsupported

unfoldable pub classify_command : ℕ → Bytes → MySqlCommand
unfolding command_kind
classify_command command_code command_payload = record {
  command_code = command_code;
  kind = command_kind command_code;
  payload = command_payload;
}

unfoldable pub parse_logical_command : MySqlLogicalMessage → Result MySqlCommand
unfolding classify_command
parse_logical_command message = do
  raise_if (is_empty message.payload) (mysql_error "MySQL logical command message is empty")
  code ← index message.payload 0
  ok (classify_command code (drop 1 message.payload))

-- A payload that is one UTF-8 text, with the messages for an empty and for an undecodable one.
unfoldable pub parse_text : String → String → Bytes → Result Text
parse_text missing invalid command_payload = do
  raise_if (is_empty command_payload) (mysql_error missing)
  or_raise (decode_utf8 command_payload) (mysql_error invalid)

unfoldable pub parse_query : Bytes → Result Text
unfolding parse_text
parse_query = parse_text "COM_QUERY contains no SQL text" "COM_QUERY contains invalid UTF-8"

unfoldable pub parse_stmt_prepare : Bytes → Result Text
unfolding parse_text
parse_stmt_prepare =
    parse_text "COM_STMT_PREPARE contains no SQL text" "COM_STMT_PREPARE contains invalid UTF-8"

unfoldable pub parse_database_name : Bytes → Result Text
unfolding parse_text
parse_database_name =
    parse_text "COM_INIT_DB contains no database name" "COM_INIT_DB contains invalid UTF-8"

unfoldable pub parse_statement_id : Bytes → Result ℕ
parse_statement_id command_payload = do
  raise_if (ltb (length command_payload) 4)
      (mysql_error "MySQL prepared-statement command is missing its 4-byte statement id")
  ok (from_bytes_le (take 4 command_payload))

unfoldable pub parse_stmt_reset : Bytes → Result ℕ
parse_stmt_reset command_payload = do
  raise_if (length command_payload != 4)
      (mysql_error "COM_STMT_RESET payload must contain exactly its 4-byte statement id")
  ok (from_bytes_le command_payload)

unfoldable pub parse_stmt_execute : Bytes → Result MySqlStmtExecute
parse_stmt_execute command_payload = do
  raise_if (ltb (length command_payload) 9)
      (mysql_error "COM_STMT_EXECUTE payload is shorter than 9 bytes")
  flags ← index command_payload 4
  ok (record {
    statement_id = from_bytes_le (slice command_payload 0 4);
    flags = flags;
    iteration_count = from_bytes_le (slice command_payload 5 9);
    parameter_payload = drop 9 command_payload;
  })

unfoldable pub parse_stmt_long_data : Bytes → Result MySqlStmtLongData
parse_stmt_long_data command_payload = do
  raise_if (ltb (length command_payload) 6)
      (mysql_error "COM_STMT_SEND_LONG_DATA payload is shorter than 6 bytes")
  ok (record {
    statement_id = from_bytes_le (take 4 command_payload);
    parameter_id = from_bytes_le (slice command_payload 4 6);
    long_data = drop 6 command_payload;
  })

-- `payload[0] != marker` with the test for an empty payload in front.
unfoldable pub starts_with_byte : ℕ → Bytes → Bool
starts_with_byte marker [] = false
starts_with_byte marker (b ∷ bs) = b == marker

unfoldable pub parse_stmt_prepare_ok : Bytes → Result MySqlStmtPrepareOk
unfolding starts_with_byte
parse_stmt_prepare_ok backend_payload = do
  raise_if (not (starts_with_byte 0x00 backend_payload))
      (mysql_error "Backend packet is not COM_STMT_PREPARE_OK")
  raise_if (ltb (length backend_payload) 12)
      (mysql_error "COM_STMT_PREPARE_OK packet is shorter than 12 bytes")
  ok (record {
    statement_id = from_bytes_le (slice backend_payload 1 5);
    column_count = from_bytes_le (slice backend_payload 5 7);
    parameter_count = from_bytes_le (slice backend_payload 7 9);
    warning_count = from_bytes_le (slice backend_payload 10 12);
  })
