-- ===== src/Postgres/Handler.antt =====
-- The handlers of proxy.py for the messages of a PostgreSQL client. A handler returns the state that
-- it leaves and the writes that it makes, in their order, or the exception that it raises; when it
-- raises, the state is as before and nothing was written.
pub mod Laws
pub mod Recovery
use ohmydb_proxy.Prelude.{
  Bool, Bytes, List, Option, Result, String, Text, [], err, false, hex, if◌then◌else◌, is_empty,
  lit, ltb, none, not, ok, protocol_message_error, some, text_eq, true, ℕ, ◌++◌, ◌==◌, ◌>>=◌, ◌>>◌,
  ◌||◌, ◌∷◌,
}
use ohmydb_proxy.Prelude.Dict.{lookup}
use ohmydb_proxy.Policy.{Classification, PolicyDecision, Risk, decision, safe}
use ohmydb_proxy.Policy.Classifier.{classify}
use ohmydb_proxy.Policy.FailSafe.{evaluate_protocol_gap}
use ohmydb_proxy.Proxy.{
  ProxyOptions, Sent, estimate, evaluate_and_decide, is_allowed_gap, rows_part, severity_value,
  to_backend, to_client,
}
use ohmydb_proxy.Postgres.Protocol.{
  Message, build_error_response, build_ready_for_query, parse_simple_query_text,
}
use ohmydb_proxy.Postgres.Extended.{
  BindMessage, parse_bind_message, parse_close_message, parse_execute_message, parse_parse_message,
}
use ohmydb_proxy.Postgres.State.{
  ConnectionState, close_portal, close_statement, register_portal, register_statement,
}
use ohmydb_proxy.Postgres.Preview.{DecodedParam, decode_param, substitute_params}

abbrev pub Handled : Type 0
Handled = Result (ConnectionState × List Sent)

abbrev pub table_part : Option Text → Text
table_part none = []
table_part (some table) = if is_empty table then [] else lit " Table: " ++ (table ++ lit ".")

unfoldable pub blocked_error : Classification → Option ℕ → PolicyDecision → Bytes
blocked_error classification estimated_rows decision =
    build_error_response
      (lit "Query blocked by OhMyDB. Policy: "
        ++ (decision.reason
            ++ (lit ". Severity: "
                ++ (severity_value decision.severity
                    ++ (lit ". Operation: "
                        ++ (classification.statement_type
                            ++ (lit "."
                                ++ (table_part classification.target_table
                                    ++ rows_part estimated_rows))))))))
      (lit "42000")

-- `_handle_protocol_gap` when the message is not forwarded: in the extended protocol the rest of the
-- messages is skipped up to Sync, otherwise the session is told to be ready. The status of a session is
-- one that `parse_ready_for_query_status` returned, so that `build_ready_for_query` does not raise.
abbrev pub refuse_gap : ConnectionState → Bool → Bytes → Handled
refuse_gap state true refusal =
    ok (record state { extended_error_pending = true }, to_client refusal ∷ [])
refuse_gap state false refusal = do
  ready ← build_ready_for_query state.transaction_status
  ok (state, to_client refusal ∷ to_client ready ∷ [])

unfoldable pub handle_protocol_gap : ProxyOptions → ConnectionState → Text → Bytes → Bool → Handled
handle_protocol_gap opts state reason raw_message extended_recovery =
    let gap_decision = evaluate_protocol_gap opts.fail_safe_mode reason in
    let refusal =
      build_error_response
        (lit "Query blocked by OhMyDB. Protocol gap: " ++ (gap_decision.reason ++ lit "."))
        (lit "0A000") in
    if is_allowed_gap gap_decision.action
    then ok (state, to_backend raw_message ∷ [])
    else refuse_gap state extended_recovery refusal

abbrev pub is_safe : Risk → Bool
is_safe safe = true
is_safe _ = false

-- What `_handle_simple_query` does with the decision.
abbrev pub finish_simple :
    ConnectionState → Bytes → Classification → Option ℕ → Bool × PolicyDecision → Handled
finish_simple state raw classification estimated_rows (true, decision) =
    ok (state, to_backend raw ∷ [])
finish_simple state raw classification estimated_rows (false, decision) = do
  ready ← build_ready_for_query state.transaction_status
  ok (
    state,
    to_client (blocked_error classification estimated_rows decision) ∷ to_client ready ∷ [],
  )

-- `_handle_simple_query` for the text of the payload.
unfoldable pub decide_simple : ProxyOptions → ConnectionState → Bytes → Text → Handled
decide_simple opts state raw sql =
    let classification = classify opts.sqlglot sql in
    let (estimated_rows, estimate_error) = estimate opts classification state.database in
    if is_safe classification.risk
    then ok (state, to_backend raw ∷ [])
    else finish_simple state raw classification estimated_rows (
        evaluate_and_decide opts sql state.database classification estimated_rows estimate_error
          false)

unfoldable pub handle_simple_query : ProxyOptions → ConnectionState → Message → Handled
unfolding decide_simple
handle_simple_query opts state msg = do
  sql ← parse_simple_query_text msg.payload
  decide_simple opts state msg.raw sql

-- The parameters of a portal, with their formats.
unfoldable pub decode_params : List (Option Bytes) → List ℕ → List DecodedParam
decode_params [] codes = []
decode_params (value ∷ values) [] = []
decode_params (value ∷ values) (code ∷ codes) = decode_param value code ∷ decode_params values codes

-- What the estimate of an execution gives: the rows, the error and whether it is approximate.
pub record Estimation : Type 0 where
  pub estimated_rows : Option ℕ
  pub estimate_error : Option Text
  pub approximate : Bool

abbrev pub estimation : Option ℕ × Option Text → Bool → Estimation
estimation (rows, error) approximate = record {
  estimated_rows = rows;
  estimate_error = error;
  approximate = approximate;
}

abbrev pub estimate_literal :
    ProxyOptions → ConnectionState → Classification → Option Text × Bool → Estimation
estimate_literal opts state classification (none, used_heuristic) =
    estimation (none, some (lit "Could not decode one or more bound parameters")) false
estimate_literal opts state classification (some literal_query, used_heuristic) =
    estimation
      (estimate opts (record classification { preview_query = some literal_query }) state.database)
      used_heuristic

abbrev pub estimate_preview :
    ProxyOptions → ConnectionState → BindMessage → Classification → Option Text → Result Estimation
estimate_preview opts state bind classification none = ok (estimation (none, none) false)
estimate_preview opts state bind classification (some preview) =
    if is_empty preview then ok (estimation (none, none) false) else (do
      literal ← substitute_params preview (decode_params bind.param_values bind.format_codes)
      ok (estimate_literal opts state classification literal))

unfoldable pub estimate_execution :
    ProxyOptions → ConnectionState → BindMessage → Classification → Result Estimation
unfolding decode_params
estimate_execution opts state bind classification =
    estimate_preview opts state bind classification classification.preview_query

-- What `_handle_execute` does with the decision.
abbrev pub finish_execute :
    ConnectionState → Bytes → Classification → Option ℕ → Bool × PolicyDecision → Handled
finish_execute state raw classification estimated_rows (true, decision) =
    ok (state, to_backend raw ∷ [])
finish_execute state raw classification estimated_rows (false, decision) = ok (
  record state { extended_error_pending = true },
  to_client (blocked_error classification estimated_rows decision) ∷ [],
)

-- `_handle_execute` for a portal and the text of its statement.
unfoldable pub decide_execute :
    ProxyOptions → ConnectionState → Bytes → BindMessage → Text → Handled
unfolding estimate_execution
decide_execute opts state raw bind sql_template =
    let classification = classify opts.sqlglot sql_template in
    if is_safe classification.risk then ok (state, to_backend raw ∷ []) else (do
      e ← estimate_execution opts state bind classification
      finish_execute state raw classification e.estimated_rows (
          evaluate_and_decide opts sql_template state.database classification e.estimated_rows
            e.estimate_error e.approximate))

abbrev pub execute_template :
    ProxyOptions → ConnectionState → Bytes → BindMessage → Option Text → Handled
execute_template opts state raw bind none =
    handle_protocol_gap opts state (lit "Portal references an unknown prepared statement") raw true
execute_template opts state raw bind (some sql_template) =
    decide_execute opts state raw bind sql_template

abbrev pub execute_portal : ProxyOptions → ConnectionState → Bytes → Option BindMessage → Handled
execute_portal opts state raw none =
    handle_protocol_gap opts state (lit "Execute referenced an unknown portal") raw true
execute_portal opts state raw (some bind) =
    execute_template opts state raw bind (lookup bind.statement_name state.prepared_statements)

unfoldable pub handle_execute : ProxyOptions → ConnectionState → Message → Handled
unfolding decide_execute handle_protocol_gap
handle_execute opts state msg = do
  execute ← parse_execute_message msg.payload
  execute_portal opts state msg.raw (lookup execute.portal_name state.portals)

unfoldable pub handle_parse : ConnectionState → Message → Handled
handle_parse state msg = do
  parsed ← parse_parse_message msg.payload
  state' ← register_statement state parsed.statement_name parsed.query
  ok (state', to_backend msg.raw ∷ [])

unfoldable pub handle_bind : ConnectionState → Message → Handled
handle_bind state msg = do
  bind ← parse_bind_message msg.payload
  state' ← register_portal state bind
  ok (state', to_backend msg.raw ∷ [])

unfoldable pub handle_close : ConnectionState → Message → Handled
handle_close state msg = do
  close ← parse_close_message msg.payload
  ok (
    if text_eq close.target_type (lit "S")
        then close_statement state close.name
        else close_portal state close.name,
    to_backend msg.raw ∷ [],
  )

-- repr of a text of one ASCII character
unfoldable pub repr_char : ℕ → Text
repr_char c =
    let shown =
      if c == b'\\'
      then lit "\\\\"
      else if c == 9
      then lit "\\t"
      else if c == 10
      then lit "\\n"
      else if c == 13
      then lit "\\r"
      else if ltb c 0x20 || c == 0x7f
      then lit "\\x" ++ hex (c ∷ [])
      else c ∷ [] in
    if c == b'\'' then lit "\"'\"" else lit "'" ++ (shown ++ lit "'")

abbrev pub repr : Text → Text
repr [] = lit "''"
repr (c ∷ cs) = repr_char c

abbrev pub is_type : Message → String → Bool
is_type msg name = text_eq msg.type (lit name)

-- The branches for the types of a message.
unfoldable pub handle_by_type : ProxyOptions → ConnectionState → Message → Handled
handle_by_type opts state msg =
    if is_type msg "Q"
    then handle_simple_query opts state msg
    else if is_type msg "P"
    then handle_parse state msg
    else if is_type msg "B"
    then handle_bind state msg
    else if is_type msg "E"
    then handle_execute opts state msg
    else if is_type msg "C"
    then handle_close state msg
    else ok (state, to_backend msg.raw ∷ [])

-- `except ProtocolMessageError`
abbrev pub catching : ProxyOptions → ConnectionState → Message → Handled → Handled
catching opts state msg (ok r) = ok r
catching opts state msg (err (protocol_message_error t)) =
    handle_protocol_gap opts state
      (lit "Malformed frontend message " ++ (repr msg.type ++ (lit ": " ++ t))) msg.raw
      (not (is_type msg "Q"))
catching opts state msg (err e) = err e

-- While an error is pending, messages up to Sync are ignored.
abbrev pub skip_to_sync : ConnectionState → Message → ConnectionState × List Sent
skip_to_sync state msg =
    if is_type msg "S"
    then (record state { extended_error_pending = false }, to_backend msg.raw ∷ [])
    else if is_type msg "X"
    then (state, to_backend msg.raw ∷ [])
    else (state, [])

unfoldable pub handle_frontend_message : ProxyOptions → ConnectionState → Message → Handled
unfolding handle_by_type handle_protocol_gap
handle_frontend_message opts state msg =
    if state.extended_error_pending
    then ok (skip_to_sync state msg)
    else catching opts state msg (handle_by_type opts state msg)
