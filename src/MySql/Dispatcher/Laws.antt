-- ===== src/MySql/Dispatcher/Laws.antt =====
-- What a dispatch keeps of the session.
use ohmydb_proxy.Prelude.{
  Bool, Bool-cases, Bytes, Option, Result, Text, [], err, false, inl, inr, is_some, none, ok, some,
  true, ℕ, ◌==◌, ◌∷◌,
}
use ohmydb_proxy.MySql.Constants.{mariadb_stmt_id_last}
use ohmydb_proxy.MySql.Packet.{MySqlLogicalMessage}
use ohmydb_proxy.MySql.Command.{
  MySqlCommand, MySqlCommandKind, MySqlStmtExecute, MySqlStmtLongData, init_db, ping, query, quit,
  stmt_close, stmt_execute, stmt_prepare, stmt_reset, stmt_send_long_data, unsupported,
}
use ohmydb_proxy.MySql.Params.{MySqlStmtExecuteParameters}
use ohmydb_proxy.MySql.Session.{MySqlPreparedStatement, MySqlSessionState, Outcome}
use ohmydb_proxy.MySql.Session.Prepare.{}
use ohmydb_proxy.MySql.Session.Acknowledge.{}
use ohmydb_proxy.MySql.Session.Respond.{}
use ohmydb_proxy.MySql.Session.Invariant.{IsWellFormed}
use ohmydb_proxy.MySql.Session.Preserve.{
  begin_database_change-IsWellFormed, begin_ping-IsWellFormed, begin_statement_reset-IsWellFormed,
  close_prepared_statement-IsWellFormed, mark_statement_long_data-IsWellFormed,
  register_statement_parameter_types-IsWellFormed,
}
use ohmydb_proxy.MySql.Session.PreparePreserve.{begin_statement_prepare-IsWellFormed}
use ohmydb_proxy.MySql.Session.RespondPreserve.{
  begin_command_response-IsWellFormed, fail_command_forward-IsWellFormed, mark_closing-IsWellFormed,
}
use ohmydb_proxy.Proxy.{ProxyOptions, Sent}
use ohmydb_proxy.Proxy.Laws.{}
use ohmydb_proxy.MySql.Handler.{}
use ohmydb_proxy.MySql.Dispatcher.Commands.{
  Dispatched, catching, catching_method, dispatch_close, dispatch_init_db, dispatch_long_data,
  dispatch_ping, dispatch_prepare, dispatch_query, dispatch_reset, finish_long_data, finish_query,
}
use ohmydb_proxy.MySql.Dispatcher.Execute.{
  dispatch_execute, execute_found, execute_statement, find_statement, finish_execute, run_execute,
}
use ohmydb_proxy.MySql.Dispatcher.{dispatch_authenticated_command, dispatch_kind, may_run}

pub catching-keeps {ℓ} :
    {A : Type ℓ} (session : MySqlSessionState) (r : Result A)
    (recover : Text → Result (Bool × Sent)) (rest : A → Dispatched)
    → IsWellFormed session
    → ((a : A) → IsWellFormed (rest a).1)
    → IsWellFormed (catching session r recover rest).1
unfolding catching
catching-keeps session (ok a) recover rest w f = f a
catching-keeps session (err e) recover rest w f = w

pub catching_method-keeps :
    (o : Outcome (Unit {0})) (recover : Text → Result (Bool × Sent))
    (rest : MySqlSessionState → Dispatched)
    → IsWellFormed o.1
    → ((s : MySqlSessionState) → IsWellFormed s → IsWellFormed (rest s).1)
    → IsWellFormed (catching_method o recover rest).1
unfolding catching_method
catching_method-keeps (ok u, session) recover rest w f = f session w
catching_method-keeps (err e, session) recover rest w f = w

finish_query-IsWellFormed :
    (opts : ProxyOptions) (message : MySqlLogicalMessage) (s : MySqlSessionState)
    (answer : Result (Bool × Sent))
    → IsWellFormed s
    → IsWellFormed (finish_query opts message s answer).1
unfolding finish_query
finish_query-IsWellFormed opts message s (ok (true, sent)) w = w
finish_query-IsWellFormed opts message s (ok (false, sent)) w =
    fail_command_forward-IsWellFormed s w
finish_query-IsWellFormed opts message s (err e) w = fail_command_forward-IsWellFormed s w

finish_long_data-IsWellFormed :
    (s : MySqlSessionState) (chunk : MySqlStmtLongData) (answer : Result (Bool × Sent))
    → IsWellFormed s
    → IsWellFormed (finish_long_data s chunk answer).1
unfolding finish_long_data
finish_long_data-IsWellFormed s chunk (ok (true, sent)) w =
    mark_statement_long_data-IsWellFormed s chunk.statement_id chunk.parameter_id w
finish_long_data-IsWellFormed s chunk (ok (false, sent)) w = w
finish_long_data-IsWellFormed s chunk (err e) w = w

finish_execute-IsWellFormed :
    (s : MySqlSessionState) (statement : MySqlPreparedStatement)
    (decoded : MySqlStmtExecuteParameters) (answer : Result (Bool × Sent))
    → IsWellFormed s
    → IsWellFormed (finish_execute s statement decoded answer).1
unfolding finish_execute
finish_execute-IsWellFormed s statement decoded (ok (true, sent)) w =
    register_statement_parameter_types-IsWellFormed s statement.statement_id decoded.parameter_types
      w
finish_execute-IsWellFormed s statement decoded (ok (false, sent)) w =
    fail_command_forward-IsWellFormed s w
finish_execute-IsWellFormed s statement decoded (err e) w = fail_command_forward-IsWellFormed s w

module _ (opts : ProxyOptions) (message : MySqlLogicalMessage) (s : MySqlSessionState)
    (w : IsWellFormed s) where
  dispatch_query-IsWellFormed :
      (payload : Bytes) → IsWellFormed (dispatch_query opts message s payload).1
  unfolding dispatch_query
  dispatch_query-IsWellFormed payload =
      catching_method-keeps _ _ _ (begin_command_response-IsWellFormed s _ w)
        (λ begun w'. finish_query-IsWellFormed opts message begun _ w')

  dispatch_init_db-IsWellFormed :
      (payload : Bytes) → IsWellFormed (dispatch_init_db opts message s payload).1
  unfolding dispatch_init_db
  dispatch_init_db-IsWellFormed payload = catching-keeps s _ _ _ w (λ database.
      catching_method-keeps _ _ _ (begin_database_change-IsWellFormed s database w)
        (λ begun w'. w'))

  dispatch_ping-IsWellFormed :
      (payload : Bytes) → IsWellFormed (dispatch_ping opts message s payload).1
  unfolding dispatch_ping
  dispatch_ping-IsWellFormed [] =
      catching_method-keeps _ _ _ (begin_ping-IsWellFormed s w) (λ begun w'. w')
  dispatch_ping-IsWellFormed (b ∷ bs) = w

  dispatch_prepare-IsWellFormed :
      (payload : Bytes) → IsWellFormed (dispatch_prepare opts message s payload).1
  unfolding dispatch_prepare
  dispatch_prepare-IsWellFormed payload = catching-keeps s _ _ _ w (λ sql.
      catching_method-keeps _ _ _ (begin_statement_prepare-IsWellFormed s sql w) (λ begun w'. w'))

  dispatch_close-IsWellFormed :
      (payload : Bytes) → IsWellFormed (dispatch_close opts message s payload).1
  unfolding dispatch_close
  dispatch_close-IsWellFormed payload =
      catching-keeps s _ _ _ w
        (λ _. catching-keeps s _ _ _ w (λ i. close_prepared_statement-IsWellFormed s i w))

  dispatch_reset-IsWellFormed :
      (payload : Bytes) → IsWellFormed (dispatch_reset opts message s payload).1
  unfolding dispatch_reset
  dispatch_reset-IsWellFormed payload =
      catching-keeps s _ _ _ w (λ i.
        catching_method-keeps _ _ _ (begin_statement_reset-IsWellFormed s i w) (λ begun w'. w'))

  dispatch_long_data-IsWellFormed :
      (payload : Bytes) → IsWellFormed (dispatch_long_data opts message s payload).1
  unfolding dispatch_long_data
  dispatch_long_data-IsWellFormed payload =
      catching-keeps s _ _ _ w
        (λ chunk. catching-keeps s _ _ _ w (λ _. finish_long_data-IsWellFormed s chunk _ w))

  run_execute-IsWellFormed :
      (statement : MySqlPreparedStatement) (d : MySqlStmtExecuteParameters × Text)
      → IsWellFormed (run_execute opts message s statement d).1
  unfolding run_execute
  run_execute-IsWellFormed statement (decoded, sql) =
      finish_execute-IsWellFormed _ statement decoded _ (begin_command_response-IsWellFormed s _ w)

-- The rest of a pipelined execution finds a session that is well formed.
abbrev pub Resumes : (MySqlSessionState → MySqlSessionState) → Type 0
Resumes resume = (s : MySqlSessionState) → IsWellFormed s → IsWellFormed (resume s)

module _ (float_repr : Bytes → Text) (resume : MySqlSessionState → MySqlSessionState)
    (resumes : Resumes resume) (opts : ProxyOptions) (message : MySqlLogicalMessage) where
  find_statement-IsWellFormed :
      (s : MySqlSessionState) (i : ℕ)
      → IsWellFormed s
      → IsWellFormed (find_statement float_repr resume s i).1
  unfolding find_statement
  find_statement-IsWellFormed s i w = elim (Bool-cases (i == mariadb_stmt_id_last)) [
    | inr o ↦ rw o w
    | inl l ↦ elim (Bool-cases (is_some s.pending_statement_sql)) [
      | inr o ↦ rw (l, o) w
      | inl p ↦ elim (Bool-cases (is_some s.pending_prepare_event)) [
        | inl e ↦ rw (l, p, e) (resumes s w)
        | inr o ↦ rw (l, p, o) w
      ]
    ]
  ]

  execute_statement-IsWellFormed :
      (execution : MySqlStmtExecute) (s : MySqlSessionState)
      (statement : Option MySqlPreparedStatement)
      → IsWellFormed s
      → IsWellFormed (execute_statement float_repr resume opts message execution s statement).1
  unfolding execute_statement
  execute_statement-IsWellFormed execution s none w = w
  execute_statement-IsWellFormed execution s (some statement) w =
      catching-keeps s _ _ _ w (run_execute-IsWellFormed opts message s w statement)

  execute_found-IsWellFormed :
      (execution : MySqlStmtExecute)
      (o : Result (Option MySqlPreparedStatement) × MySqlSessionState)
      → IsWellFormed o.1
      → IsWellFormed (execute_found float_repr resume opts message execution o).1
  unfolding execute_found
  execute_found-IsWellFormed execution (found, s) w =
      catching-keeps s _ _ _ w (λ statement. execute_statement-IsWellFormed execution s statement w)

  dispatch_kind-IsWellFormed :
      (kind : MySqlCommandKind) (s : MySqlSessionState) (command : MySqlCommand)
      → IsWellFormed s
      → IsWellFormed (dispatch_kind float_repr resume kind opts message s command).1
  unfolding dispatch_kind dispatch_execute
  dispatch_kind-IsWellFormed query s c w = dispatch_query-IsWellFormed opts message s w c.payload
  dispatch_kind-IsWellFormed init_db s c w =
      dispatch_init_db-IsWellFormed opts message s w c.payload
  dispatch_kind-IsWellFormed quit s c w = mark_closing-IsWellFormed s w
  dispatch_kind-IsWellFormed ping s c w = dispatch_ping-IsWellFormed opts message s w c.payload
  dispatch_kind-IsWellFormed stmt_prepare s c w =
      dispatch_prepare-IsWellFormed opts message s w c.payload
  dispatch_kind-IsWellFormed stmt_execute s c w = catching-keeps s _ _ _ w (λ execution.
      execute_found-IsWellFormed execution _
        (find_statement-IsWellFormed s execution.statement_id w))
  dispatch_kind-IsWellFormed stmt_send_long_data s c w =
      dispatch_long_data-IsWellFormed opts message s w c.payload
  dispatch_kind-IsWellFormed stmt_close s c w =
      dispatch_close-IsWellFormed opts message s w c.payload
  dispatch_kind-IsWellFormed stmt_reset s c w =
      dispatch_reset-IsWellFormed opts message s w c.payload
  dispatch_kind-IsWellFormed unsupported s c w = w

  -- A dispatched command, whatever its bytes and whether it is forwarded, refused or raises, leaves
  -- the session well formed, if the session in which a pipelined execution goes on is so.
  pub dispatch_authenticated_command-IsWellFormed :
      (s : MySqlSessionState)
      → IsWellFormed s
      → IsWellFormed (dispatch_authenticated_command float_repr resume opts message s).1
  unfolding dispatch_authenticated_command
  dispatch_authenticated_command-IsWellFormed s w = catching-keeps s _ _ _ w (λ command.
      elim (Bool-cases (may_run float_repr resume command.kind s command)) [
        | inl r ↦ rw r (dispatch_kind-IsWellFormed command.kind s command w)
        | inr r ↦ rw r w
      ])
