-- ===== src/MySql/Dispatcher/Commands.antt =====
-- adapters/mysql/dispatcher.py: how exceptions are answered, and the commands but
-- COM_STMT_EXECUTE. A dispatch returns whether the command was forwarded and its one write, with the
-- session that it leaves.
use ohmydb_proxy.Prelude.{
  Bool, Bytes, Error, Result, Text, [], decimal, err, false, if◌then◌else◌, index_error,
  is_mysql_error, leb, lit, mysql_protocol_error, ok, protocol_message_error, raise_if,
  struct_error, true, value_error, ℕ, ◌%◌, ◌++◌, ◌+◌, ◌>>=◌, ◌>>◌, ◌∷◌,
}
use ohmydb_proxy.MySql.Packet.{MySqlLogicalMessage, build_error_packet}
use ohmydb_proxy.MySql.Command.{
  MySqlStmtLongData, mysql_error, parse_database_name, parse_statement_id, parse_stmt_long_data,
  parse_stmt_prepare, parse_stmt_reset,
}
use ohmydb_proxy.MySql.Session.{
  MySqlSessionState, Outcome, get_prepared_statement, has_pending_lifecycle_operation,
}
use ohmydb_proxy.MySql.Session.Prepare.{begin_statement_prepare}
use ohmydb_proxy.MySql.Session.Acknowledge.{
  begin_database_change, begin_ping, begin_statement_reset, close_prepared_statement,
  mark_statement_long_data,
}
use ohmydb_proxy.MySql.Session.Respond.{begin_command_response, fail_command_forward}
use ohmydb_proxy.Proxy.{ProxyOptions, Sent, to_backend, to_client}
use ohmydb_proxy.Proxy.Laws.{}
use ohmydb_proxy.MySql.Handler.{handle_mysql_protocol_gap, handle_mysql_query}

-- str(exc)
abbrev pub message_of : Error → Text
message_of (mysql_protocol_error text) = text
message_of (protocol_message_error text) = text
message_of (value_error text) = text
message_of index_error = lit "index out of range"
message_of struct_error = lit "unpack_from requires a larger buffer"

abbrev pub Dispatched : Type 0
Dispatched = Result (Bool × Sent) × MySqlSessionState

-- `try … except MySqlProtocolError as exc: return recover(str(exc))`, in a session.
unfoldable pub catching {ℓ} :
    {A : Type ℓ}
    → MySqlSessionState
    → Result A
    → (Text → Result (Bool × Sent))
    → (A → Dispatched)
    → Dispatched
catching session (ok a) recover rest = rest a
catching session (err e) recover rest =
    (if is_mysql_error e then recover (message_of e) else err e, session)

-- The same for a method, whose state stays.
unfoldable pub catching_method :
    Outcome (Unit {0})
    → (Text → Result (Bool × Sent))
    → (MySqlSessionState → Dispatched)
    → Dispatched
catching_method (ok _, session) recover rest = rest session
catching_method (err e, session) recover rest =
    (if is_mysql_error e then recover (message_of e) else err e, session)

unfoldable pub block_protocol_state_error : Text → ℕ → Result (Bool × Sent)
block_protocol_state_error reason response_sequence_id = do
  packet ←
      build_error_packet
        (lit "Query blocked by OhMyDB. Protocol state error: " ++ (reason ++ lit "."))
        response_sequence_id 1148 (lit "42000")
  ok (false, to_client packet)

abbrev pub response_sequence_id : MySqlLogicalMessage → ℕ
response_sequence_id message = (message.last_sequence_id + 1) % 256

abbrev pub gap : ProxyOptions → MySqlLogicalMessage → Text → Result (Bool × Sent)
gap opts message reason =
    handle_mysql_protocol_gap opts reason message.raw_packets (response_sequence_id message)

abbrev pub blocked : MySqlLogicalMessage → Text → Result (Bool × Sent)
blocked message reason = block_protocol_state_error reason (response_sequence_id message)

abbrev pub forwarded : MySqlLogicalMessage → Result (Bool × Sent)
forwarded message = ok (true, to_backend message.raw_packets)

-- What the answer of `handle_mysql_query` leaves.
unfoldable pub finish_query :
    ProxyOptions → MySqlLogicalMessage → MySqlSessionState → Result (Bool × Sent) → Dispatched
finish_query opts message session (ok (true, sent)) = (ok (true, sent), session)
finish_query opts message session (ok (false, sent)) =
    (ok (false, sent), fail_command_forward session)
finish_query opts message session (err e) = (
  if is_mysql_error e then gap opts message (message_of e) else err e,
  fail_command_forward session,
)

unfoldable pub dispatch_query :
    ProxyOptions → MySqlLogicalMessage → MySqlSessionState → Bytes → Dispatched
dispatch_query opts message session payload =
    catching_method (begin_command_response session (lit "query")) (blocked message) (λ begun.
      finish_query opts message begun (handle_mysql_query opts message payload begun.database))

unfoldable pub dispatch_init_db :
    ProxyOptions → MySqlLogicalMessage → MySqlSessionState → Bytes → Dispatched
dispatch_init_db opts message session payload =
    catching session (parse_database_name payload) (gap opts message) (λ database.
      catching_method (begin_database_change session database) (gap opts message)
        (λ begun. (forwarded message, begun)))

unfoldable pub dispatch_ping :
    ProxyOptions → MySqlLogicalMessage → MySqlSessionState → Bytes → Dispatched
dispatch_ping opts message session [] =
    catching_method (begin_ping session) (blocked message) (λ begun. (forwarded message, begun))
dispatch_ping opts message session (b ∷ bs) =
    (blocked message (lit "COM_PING payload must be empty"), session)

unfoldable pub dispatch_prepare :
    ProxyOptions → MySqlLogicalMessage → MySqlSessionState → Bytes → Dispatched
dispatch_prepare opts message session payload =
    catching session (parse_stmt_prepare payload) (gap opts message) (λ sql.
      catching_method (begin_statement_prepare session sql) (gap opts message)
        (λ begun. (forwarded message, begun)))

unfoldable pub dispatch_close :
    ProxyOptions → MySqlLogicalMessage → MySqlSessionState → Bytes → Dispatched
dispatch_close opts message session payload =
    catching session
      (raise_if (has_pending_lifecycle_operation session)
        (mysql_error "COM_STMT_CLOSE cannot run while a MySQL command acknowledgment is pending"))
      (blocked message)
      (λ _.
        catching session (parse_statement_id payload) (gap opts message)
          (λ statement_id. (forwarded message, (close_prepared_statement session statement_id).1)))

unfoldable pub dispatch_reset :
    ProxyOptions → MySqlLogicalMessage → MySqlSessionState → Bytes → Dispatched
dispatch_reset opts message session payload =
    catching session (parse_stmt_reset payload) (blocked message) (λ statement_id.
      catching_method (begin_statement_reset session statement_id) (blocked message)
        (λ begun. (forwarded message, begun)))

-- What the answer of the gap for COM_STMT_SEND_LONG_DATA leaves.
unfoldable pub finish_long_data :
    MySqlSessionState → MySqlStmtLongData → Result (Bool × Sent) → Dispatched
finish_long_data session chunk (ok (true, sent)) =
    let (marked, session') =
      mark_statement_long_data session chunk.statement_id chunk.parameter_id in
    (marked >> ok (true, sent), session')
finish_long_data session chunk answer = (answer, session)

unfoldable pub check_long_data : MySqlSessionState → MySqlStmtLongData → Result (Unit {0})
check_long_data session chunk = do
  statement ← get_prepared_statement session chunk.statement_id
  raise_if (leb statement.parameter_count chunk.parameter_id) (
      mysql_protocol_error (
        lit "COM_STMT_SEND_LONG_DATA references out-of-range parameter "
        ++ decimal chunk.parameter_id))

unfoldable pub dispatch_long_data :
    ProxyOptions → MySqlLogicalMessage → MySqlSessionState → Bytes → Dispatched
dispatch_long_data opts message session payload =
    catching session (parse_stmt_long_data payload) (gap opts message) (λ chunk.
      catching session (check_long_data session chunk) (gap opts message) (λ _.
        finish_long_data session chunk (
          gap opts message (
            lit
              "COM_STMT_SEND_LONG_DATA values cannot be inspected before prepared-statement execution"))))
