-- ===== src/MySql/Handler.antt =====
-- adapters/mysql/handler.py.
-- A handler returns whether the message was forwarded and the one write that it made. What is only
-- printed or written to the audit log is left out.
pub mod Laws
use ohmydb_proxy.Prelude.{
  Bool, Bytes, Option, Result, Text, false, if◌then◌else◌, is_some, lit, none, ok, some, text_eq,
  true, ℕ, ◌%◌, ◌++◌, ◌+◌, ◌>>=◌, ◌>>◌, ◌||◌,
}
use ohmydb_proxy.Proxy.{
  ProxyOptions, Sent, estimate, evaluate_and_decide, is_allowed_gap, rows_part, severity_value,
  to_backend, to_client,
}
use ohmydb_proxy.MySql.Packet.{MySqlLogicalMessage, build_error_packet}
use ohmydb_proxy.MySql.Command.{parse_query}
use ohmydb_proxy.Policy.{Classification, PolicyDecision, decision}
use ohmydb_proxy.Policy.Classifier.{classify}
use ohmydb_proxy.Policy.FailSafe.{evaluate_protocol_gap}

abbrev pub mysql_policy_error_code : ℕ
mysql_policy_error_code = 1148

abbrev pub mysql_protocol_gap_error_code : ℕ
mysql_protocol_gap_error_code = 1235

unfoldable pub build_mysql_policy_error :
    Classification → Option ℕ → PolicyDecision → ℕ → Result Bytes
build_mysql_policy_error classification estimated_rows decision sequence_id =
    build_error_packet
      (lit "Query blocked by OhMyDB. Policy: "
        ++ (decision.reason
            ++ (lit ". Severity: "
                ++ (severity_value decision.severity
                    ++ (lit ". Operation: "
                        ++ (classification.statement_type
                            ++ (lit "." ++ rows_part estimated_rows)))))))
      sequence_id mysql_policy_error_code (lit "42000")

-- The part behind the decision.
unfoldable pub answer_decision :
    MySqlLogicalMessage → Classification → Option ℕ → Bool × PolicyDecision → Result (Bool × Sent)
answer_decision message classification estimated_rows (true, decision) =
    ok (true, to_backend message.raw_packets)
answer_decision message classification estimated_rows (false, decision) = do
  packet ←
      build_mysql_policy_error classification estimated_rows decision
        ((message.last_sequence_id + 1) % 256)
  ok (false, to_client packet)

-- `handle_mysql_query` behind the parsing of the payload.
unfoldable pub handle_sql : ProxyOptions → MySqlLogicalMessage → Text → Text → Result (Bool × Sent)
handle_sql opts message sql database =
    let classification = classify opts.sqlglot sql in
    let (estimated_rows, estimate_error) = estimate opts classification database in
    answer_decision message classification estimated_rows
      (evaluate_and_decide opts sql database classification estimated_rows estimate_error false)

unfoldable pub handle_mysql_query :
    ProxyOptions → MySqlLogicalMessage → Bytes → Text → Result (Bool × Sent)
unfolding handle_sql
handle_mysql_query opts message command_payload database = do
  sql ← parse_query command_payload
  handle_sql opts message sql database

-- The command code is used for the log alone.
unfoldable pub handle_mysql_protocol_gap : ProxyOptions → Text → Bytes → ℕ → Result (Bool × Sent)
handle_mysql_protocol_gap opts reason raw_message response_sequence_id =
    let gap_decision = evaluate_protocol_gap opts.fail_safe_mode reason in
    if is_allowed_gap gap_decision.action then ok (true, to_backend raw_message) else (do
      packet ←
          build_error_packet
            (lit "Query blocked by OhMyDB. Protocol gap: " ++ (gap_decision.reason ++ lit "."))
            response_sequence_id mysql_protocol_gap_error_code (lit "0A000")
      ok (false, to_client packet))

-- The estimate of a prepared statement, whose error is reported without its text.
unfoldable pub estimate_prepared :
    ProxyOptions → Classification → Bool → Text → Option ℕ × Option Text
estimate_prepared opts classification estimate_safe database =
    let failed = some (lit "Prepared-statement row-impact estimation failed") in
    if estimate_safe
    then (let (rows, error) = estimate opts classification database in
        (rows, if is_some error then failed else none))
    else (none, failed)

-- `handle_mysql_stmt_execute` for a statement that was parsed.
unfoldable pub decide_stmt_execute :
    ProxyOptions → MySqlLogicalMessage → Classification → Text → Bool → Text → Result (Bool × Sent)
decide_stmt_execute opts message inspection sql_description estimate_safe database =
    let (estimated_rows, estimate_error) =
      estimate_prepared opts inspection estimate_safe database in
    let classification = record inspection { preview_query = none } in
    answer_decision message classification estimated_rows (
      evaluate_and_decide opts sql_description database classification estimated_rows estimate_error
        false)

unfoldable pub handle_mysql_stmt_execute :
    ProxyOptions → MySqlLogicalMessage → Text → Text → Bool → Text → Result (Bool × Sent)
unfolding decide_stmt_execute
handle_mysql_stmt_execute opts message inspection_sql sql_description estimate_safe database =
    let inspection = classify opts.sqlglot inspection_sql in
    if text_eq inspection.statement_type (lit "EMPTY")
      || text_eq inspection.statement_type (lit "UNPARSEABLE")
    then handle_mysql_protocol_gap opts
        (lit "Reconstructed COM_STMT_EXECUTE SQL could not be parsed safely") message.raw_packets
        ((message.last_sequence_id + 1) % 256)
    else decide_stmt_execute opts message inspection sql_description estimate_safe database
