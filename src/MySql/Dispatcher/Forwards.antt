-- ===== src/MySql/Dispatcher/Forwards.antt =====
-- adapters/mysql/dispatcher.py: which messages reach the backend.
use ohmydb_proxy.Prelude.{
  Bool-cases, Bytes, Option, Text, ap, arith, inl, inr, is_some, none, ok, refl, some, true, ℕ,
  ◌==◌, ◌≡◌,
}
use ohmydb_proxy.Proxy.{ProxyOptions}
use ohmydb_proxy.Proxy.Laws.{IsStrict}
use ohmydb_proxy.MySql.Constants.{mariadb_stmt_id_last}
use ohmydb_proxy.MySql.Packet.{MySqlLogicalMessage}
use ohmydb_proxy.MySql.Command.{
  MySqlCommand, MySqlCommandKind, MySqlStmtExecute, init_db, parse_logical_command,
  parse_stmt_execute, ping, query, quit, stmt_close, stmt_execute, stmt_prepare, stmt_reset,
  stmt_send_long_data, unsupported,
}
use ohmydb_proxy.MySql.Session.{
  MySqlPreparedStatement, MySqlSessionState, has_pending_lifecycle_operation,
}
use ohmydb_proxy.MySql.Dispatcher.{
  dispatch_authenticated_command, dispatch_kind, is_pipelined, may_run,
}
use ohmydb_proxy.MySql.Dispatcher.Commands.{gap}
use ohmydb_proxy.MySql.Dispatcher.Execute.{
  decode_execution, dispatch_execute, execute_found, execute_statement, find_statement, run_execute,
}
use ohmydb_proxy.MySql.Dispatcher.Sends.{Sends, blocked-Sends, catching-Sends}
use ohmydb_proxy.MySql.Dispatcher.Handled.{
  dispatch_close-Sends, dispatch_init_db-Sends, dispatch_long_data-Sends, dispatch_ping-Sends,
  dispatch_prepare-Sends, dispatch_query-Sends, dispatch_reset-Sends, gap-Sends, run_execute-Sends,
}
use ohmydb_proxy.MySql.Dispatcher.Reasons.{
  IsForwarded, MayExecute, Meant, all_estimable-IsKnown, decoded_execution, execution_passes,
  identified, last_prepared, not-true, nothing_runs, pipelined, query_passes, runs_nothing,
  wrapped_ok,
}

module _ (float_repr : Bytes → Text) (resume : MySqlSessionState → MySqlSessionState)
    (opts : ProxyOptions) (strict : IsStrict opts) (message : MySqlLogicalMessage)
    (session : MySqlSessionState) where
  find_statement-Meant :
      (i : ℕ) (statement : MySqlPreparedStatement)
      → (find_statement float_repr resume session i).0 ≡ ok (some statement)
      → Meant resume session i statement (find_statement float_repr resume session i).1
  unfolding find_statement
  find_statement-Meant i statement h = elim (Bool-cases (i == mariadb_stmt_id_last)) [
    | inr o ↦ rw o (identified o (wrapped_ok _ statement (rw o at h)))
    | inl l ↦ elim (Bool-cases (is_some session.pending_statement_sql)) [
      | inr o ↦ rw (l, o) (last_prepared l o (wrapped_ok _ statement (rw (l, o) at h)))
      | inl p ↦ elim (Bool-cases (is_some session.pending_prepare_event)) [
        | inl e ↦ rw (l, p, e) (pipelined l p (rw (l, p, e) at h))
        | inr o ↦ absurd (ground (arith, rw (l, p, o) at h))
      ]
    ]
  ]

  execute_statement-Sends :
      (command : MySqlCommand) (execution : MySqlStmtExecute)
      (statement : Option MySqlPreparedStatement)
      → parse_logical_command message ≡ ok command
      → command.kind ≡ stmt_execute
      → MayExecute session command
      → parse_stmt_execute command.payload ≡ ok execution
      → (find_statement float_repr resume session execution.statement_id).0 ≡ ok statement
      → Sends
          (IsForwarded float_repr resume opts message session)
          (execute_statement float_repr resume opts message execution
            (find_statement float_repr resume session execution.statement_id).1
            statement).0
  unfolding execute_statement
  execute_statement-Sends command execution none p kind m x f = blocked-Sends _ message _
  execute_statement-Sends command execution (some statement) p kind m x f =
      let P = IsForwarded float_repr resume opts message session in
      let found = find_statement float_repr resume session execution.statement_id in
      catching-Sends P found.1 (decode_execution float_repr execution statement) _
        (run_execute opts message found.1 statement) (gap-Sends opts strict message P)
        (λ d h.
          let (b, q, r) = decoded_execution float_repr execution statement d.0 d.1 h in
          run_execute-Sends opts strict message P found.1 statement d.0 d.1 (λ passes.
            execution_passes command execution statement found.1 d.0 d.1 p kind m x
              (find_statement-Meant execution.statement_id statement f) b q r refl
              (elim passes [
                | inl s ↦ inl s
                | inr (known, small) ↦ inr (all_estimable-IsKnown d.0.parameters known, small)
              ])))

  may_execute :
      (command : MySqlCommand)
      → may_run float_repr resume stmt_execute session command ≡ true
      → MayExecute session command
  unfolding may_run is_pipelined
  may_execute command m = elim (Bool-cases (has_pending_lifecycle_operation session)) [
    | inr free ↦ inl free
    | inl busy ↦ inr (ground (arith, m, busy), ground (arith, m, busy))
  ]

  dispatch_execute-Sends :
      (command : MySqlCommand)
      → parse_logical_command message ≡ ok command
      → command.kind ≡ stmt_execute
      → MayExecute session command
      → Sends
          (IsForwarded float_repr resume opts message session)
          (dispatch_execute float_repr resume opts message session command.payload).0
  unfolding dispatch_execute execute_found
  dispatch_execute-Sends command p kind m =
      let P = IsForwarded float_repr resume opts message session in
      catching-Sends P session _ _ _ (gap-Sends opts strict message P) (λ execution x.
        let found = find_statement float_repr resume session execution.statement_id in
        catching-Sends P found.1 found.0 (gap opts message)
          (execute_statement float_repr resume opts message execution found.1)
          (gap-Sends opts strict message P)
          (λ statement f. execute_statement-Sends command execution statement p kind m x f))

  dispatch_kind-Sends :
      (kind : MySqlCommandKind) (command : MySqlCommand)
      → parse_logical_command message ≡ ok command
      → command.kind ≡ kind
      → may_run float_repr resume kind session command ≡ true
      → Sends
          (IsForwarded float_repr resume opts message session)
          (dispatch_kind float_repr resume kind opts message session command).0
  unfolding dispatch_kind may_run
  dispatch_kind-Sends query c p k m =
      dispatch_query-Sends opts strict message _ session c.payload
        (λ sql q passes. query_passes c sql p k (not-true _ m) q refl passes)
  dispatch_kind-Sends init_db c p k m =
      dispatch_init_db-Sends opts strict message _ session c.payload
        (nothing_runs c p (ap runs_nothing k) (inr (not-true _ m)) refl)
  dispatch_kind-Sends quit c p k m = nothing_runs c p (ap runs_nothing k) (inl k) refl
  dispatch_kind-Sends ping c p k m =
      dispatch_ping-Sends opts strict message _ session c.payload
        (nothing_runs c p (ap runs_nothing k) (inr (not-true _ m)) refl)
  dispatch_kind-Sends stmt_prepare c p k m =
      dispatch_prepare-Sends opts strict message _ session c.payload
        (nothing_runs c p (ap runs_nothing k) (inr (not-true _ m)) refl)
  dispatch_kind-Sends stmt_execute c p k m = dispatch_execute-Sends c p k (may_execute c m)
  dispatch_kind-Sends stmt_send_long_data c p k m =
      dispatch_long_data-Sends opts strict message _ session c.payload
  dispatch_kind-Sends stmt_close c p k m =
      dispatch_close-Sends opts strict message _ session c.payload
        (nothing_runs c p (ap runs_nothing k) (inr (not-true _ m)) refl)
  dispatch_kind-Sends stmt_reset c p k m =
      dispatch_reset-Sends opts strict message _ session c.payload
        (nothing_runs c p (ap runs_nothing k) (inr (not-true _ m)) refl)
  dispatch_kind-Sends unsupported c p k m = gap-Sends opts strict message _ _

  -- Without a user, with valid thresholds, no configured action that allows and a fail-safe mode
  -- that is not permissive: whatever the dispatcher writes to the backend for an authenticated
  -- client's message is the message as it was sent, which parses as a command, and one of these
  -- holds. It is a COM_QUERY with a valid text, no acknowledgment is pending, and the text is
  -- classified as safe or is a small change by the estimate made in the session's database. Or it
  -- is a COM_STMT_EXECUTE, and no acknowledgment is pending, or its id is -1 and a preparation is
  -- pending; the statement that it means, the one of its id, the last one, or the one of the
  -- pending preparation, got no long data; its parameters decode; and the text that the statement
  -- gives with them is classified as safe, or is a small change by its estimate and no value is a
  -- string of bytes. Or it is a COM_QUIT. Or it is a COM_INIT_DB, COM_PING, COM_STMT_PREPARE,
  -- COM_STMT_CLOSE or COM_STMT_RESET, and no acknowledgment is pending. So no unsupported command,
  -- no long data and nothing that does not parse is written.
  pub dispatch_authenticated_command-IsForwarded :
      Sends
        (IsForwarded float_repr resume opts message session)
        (dispatch_authenticated_command float_repr resume opts message session).0
  unfolding dispatch_authenticated_command
  dispatch_authenticated_command-IsForwarded =
      let P = IsForwarded float_repr resume opts message session in
      catching-Sends P session (parse_logical_command message) _ _ (gap-Sends opts strict message P)
        (λ command p. elim (Bool-cases (may_run float_repr resume command.kind session command)) [
          | inl m ↦ rw m (dispatch_kind-Sends command.kind command p refl m)
          | inr m ↦ rw m (blocked-Sends P message _)
        ])
