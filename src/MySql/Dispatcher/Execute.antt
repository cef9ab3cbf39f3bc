-- ===== src/MySql/Dispatcher/Execute.antt =====
-- adapters/mysql/dispatcher.py: COM_STMT_EXECUTE.
use ohmydb_proxy.Prelude.{
  Bool, Bytes, List, Option, Result, Text, [], decimal, err, false, if◌then◌else◌, is_empty,
  is_some, leb, lit, mysql_protocol_error, none, not, ok, raise_if, some, true, ℕ, ◌&&◌, ◌++◌, ◌==◌,
  ◌>>=◌, ◌>>◌, ◌∷◌,
}
use ohmydb_proxy.MySql.Constants.{mariadb_stmt_id_last}
use ohmydb_proxy.MySql.Packet.{MySqlLogicalMessage}
use ohmydb_proxy.MySql.Command.{MySqlStmtExecute, mysql_error, parse_stmt_execute}
use ohmydb_proxy.MySql.Params.{MySqlStmtExecuteParameters, parse_stmt_execute_parameters}
use ohmydb_proxy.MySql.Params.Values.{MySqlDecodedParameter, Value, raw_bytes}
use ohmydb_proxy.MySql.Reconstruct.{reconstruct_stmt_execute_sql}
use ohmydb_proxy.MySql.Session.{
  MySqlPreparedStatement, MySqlSessionState, get_last_prepared_statement, get_prepared_statement,
}
use ohmydb_proxy.MySql.Session.Prepare.{prepared_statement}
use ohmydb_proxy.MySql.Session.Acknowledge.{register_statement_parameter_types}
use ohmydb_proxy.MySql.Session.Respond.{begin_command_response, fail_command_forward}
use ohmydb_proxy.Proxy.{ProxyOptions, Sent}
use ohmydb_proxy.Proxy.Laws.{}
use ohmydb_proxy.MySql.Handler.{handle_mysql_stmt_execute}
use ohmydb_proxy.MySql.Dispatcher.Commands.{Dispatched, blocked, catching, gap}

-- `sorted` of a set, and ", ".join(str(index) for …)
abbrev pub insert : ℕ → List ℕ → List ℕ
insert x [] = x ∷ []
insert x (a ∷ rest) = let later = insert x rest in if leb x a then x ∷ a ∷ rest else a ∷ later

abbrev pub sorted : List ℕ → List ℕ
sorted [] = []
sorted (x ∷ xs) = insert x (sorted xs)

abbrev pub joined : List ℕ → Text
joined [] = []
joined (x ∷ []) = decimal x
joined (x ∷ y ∷ rest) = decimal x ++ (lit ", " ++ joined (y ∷ rest))

unfoldable pub check_no_long_data : MySqlPreparedStatement → Result (Unit {0})
check_no_long_data statement = raise_if (not (is_empty statement.long_data_parameters)) (
    mysql_protocol_error (
      lit "COM_STMT_EXECUTE references uninspectable long-data parameters: "
      ++ joined (sorted statement.long_data_parameters)))

-- What the client's bytes say, once the statement is known.
unfoldable pub decode_execution :
    (Bytes → Text)
    → MySqlStmtExecute
    → MySqlPreparedStatement
    → Result (MySqlStmtExecuteParameters × Text)
decode_execution float_repr execution statement = do
  check_no_long_data statement
  decoded ←
      parse_stmt_execute_parameters float_repr execution statement.parameter_count
        statement.parameter_types
  inspection_sql ← reconstruct_stmt_execute_sql statement.sql decoded.parameters
  ok (decoded, inspection_sql)

-- `not isinstance(parameter.value, bytes)`
abbrev pub is_estimable : Value → Bool
is_estimable (raw_bytes _) = false
is_estimable _ = true

abbrev pub all_estimable : List MySqlDecodedParameter → Bool
all_estimable [] = true
all_estimable (p ∷ ps) = is_estimable p.value && all_estimable ps

-- What the answer of `handle_mysql_stmt_execute` leaves.
unfoldable pub finish_execute :
    MySqlSessionState
    → MySqlPreparedStatement
    → MySqlStmtExecuteParameters
    → Result (Bool × Sent)
    → Dispatched
finish_execute session statement decoded (ok (true, sent)) =
    let (registered, session') =
      register_statement_parameter_types session statement.statement_id decoded.parameter_types in
    (registered >> ok (true, sent), session')
finish_execute session statement decoded answer = (answer, fail_command_forward session)

-- The part behind the decoding. An exception of `begin_command_response` is raised on.
unfoldable pub run_execute :
    ProxyOptions
    → MySqlLogicalMessage
    → MySqlSessionState
    → MySqlPreparedStatement
    → MySqlStmtExecuteParameters × Text
    → Dispatched
run_execute opts message session statement (decoded, inspection_sql) =
    let (begun, session') = begin_command_response session (lit "stmt_execute") in
    finish_execute session' statement decoded (
      begun
      >> handle_mysql_stmt_execute opts message inspection_sql
          (lit "MYSQL_PREPARED_STATEMENT_" ++ decimal statement.statement_id)
          (all_estimable decoded.parameters) session'.database)

-- The session in which a pipelined execution goes on once the event of the pending preparation is
-- set, and `wait_for_statement_prepare` with it goes on, is given by `resume`; `float_repr` is that of the decoding.
module _ (float_repr : Bytes → Text) (resume : MySqlSessionState → MySqlSessionState) where
  -- The statement that is meant: none for a preparation that failed.
  unfoldable pub find_statement :
      MySqlSessionState → ℕ → Result (Option MySqlPreparedStatement) × MySqlSessionState
  find_statement session statement_id =
      if statement_id == mariadb_stmt_id_last
      then (if is_some session.pending_statement_sql
          then (if is_some session.pending_prepare_event
              then (prepared_statement (resume session), resume session)
              else (err (mysql_error "Pipelined COM_STMT_EXECUTE has no prepare event"), session))
          else (get_last_prepared_statement session >>= λ statement. ok (some statement), session))
      else (
        get_prepared_statement session statement_id >>= λ statement. ok (some statement),
        session,
      )

  unfoldable pub execute_statement :
      ProxyOptions
      → MySqlLogicalMessage
      → MySqlStmtExecute
      → MySqlSessionState
      → Option MySqlPreparedStatement
      → Dispatched
  execute_statement opts message execution session none = (
    blocked message (lit "Pipelined COM_STMT_EXECUTE follows a failed COM_STMT_PREPARE"),
    session,
  )
  execute_statement opts message execution session (some statement) =
      catching session (decode_execution float_repr execution statement) (gap opts message)
        (run_execute opts message session statement)

  unfoldable pub execute_found :
      ProxyOptions
      → MySqlLogicalMessage
      → MySqlStmtExecute
      → Result (Option MySqlPreparedStatement) × MySqlSessionState
      → Dispatched
  unfolding execute_statement
  execute_found opts message execution (found, session) =
      catching session found (gap opts message) (execute_statement opts message execution session)

  unfoldable pub dispatch_execute :
      ProxyOptions → MySqlLogicalMessage → MySqlSessionState → Bytes → Dispatched
  dispatch_execute opts message session payload =
      catching session (parse_stmt_execute payload) (gap opts message) (λ execution.
        execute_found opts message execution (find_statement session execution.statement_id))
