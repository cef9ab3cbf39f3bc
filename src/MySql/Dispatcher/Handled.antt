-- ===== src/MySql/Dispatcher/Handled.antt =====
-- What each command's dispatch writes to the backend.
use ohmydb_proxy.Prelude.{
  Bool, Bytes, Result, Text, [], ap, decimal, err, false, is_mysql_error, lit, ok, subst, sym, true,
  ◌++◌, ◌>>◌, ◌∙◌, ◌∷◌, ◌≡◌, ◌⊎◌,
}
use ohmydb_proxy.Policy.Laws.{IsSmallChange}
use ohmydb_proxy.Policy.Classifier.{classify}
use ohmydb_proxy.Policy.{safe}
use ohmydb_proxy.Proxy.{ProxyOptions, Sent, estimate}
use ohmydb_proxy.Proxy.Laws.{IsStrict, MayPass}
use ohmydb_proxy.MySql.Packet.{MySqlLogicalMessage}
use ohmydb_proxy.MySql.Command.{MySqlStmtLongData, parse_query}
use ohmydb_proxy.MySql.Params.{MySqlStmtExecuteParameters}
use ohmydb_proxy.MySql.Session.{MySqlPreparedStatement, MySqlSessionState}
use ohmydb_proxy.MySql.Session.Respond.{begin_command_response}
use ohmydb_proxy.MySql.Handler.{handle_mysql_stmt_execute}
use ohmydb_proxy.MySql.Handler.Laws.{
  handle_mysql_protocol_gap-permissive, handle_mysql_query-unattended,
  handle_mysql_stmt_execute-unattended,
}
use ohmydb_proxy.MySql.Dispatcher.Commands.{
  dispatch_close, dispatch_init_db, dispatch_long_data, dispatch_ping, dispatch_prepare,
  dispatch_query, dispatch_reset, finish_long_data, finish_query, gap, message_of,
}
use ohmydb_proxy.MySql.Dispatcher.Execute.{all_estimable, finish_execute, run_execute}
use ohmydb_proxy.MySql.Dispatcher.Sends.{
  Sends, Sends-each, Sends-if, begun_database, blocked-Sends, catching-Sends, catching_method-Sends,
  tested-Sends,
}

-- The dispatches of a proxy without a user write the message at most.
module _ (opts : ProxyOptions) (strict : IsStrict opts) (message : MySqlLogicalMessage)
    (P : Bytes → Type 0) where
  pub gap-Sends : (reason : Text) → Sends P (gap opts message reason)
  gap-Sends reason = Sends-each P _ (λ forwarded raw h.
      absurd (strict.mode (handle_mysql_protocol_gap-permissive opts reason _ _ forwarded raw h)))

  finish_query-Sends :
      (s : MySqlSessionState) (answer : Result (Bool × Sent))
      → Sends P answer
      → Sends P (finish_query opts message s answer).0
  unfolding finish_query
  finish_query-Sends s (ok (true, sent)) h = h
  finish_query-Sends s (ok (false, sent)) h = h
  finish_query-Sends s (err e) h =
      Sends-if P (is_mysql_error e) _ _ (λ _. gap-Sends (message_of e)) (λ _. tt)

  -- A query is forwarded when its text may pass in the session's database.
  pub dispatch_query-Sends :
      (s : MySqlSessionState) (payload : Bytes)
      → ((sql : Text)
          → parse_query payload ≡ ok sql
          → (let c = classify opts.sqlglot sql in
              let e = estimate opts c s.database in MayPass opts c e.0 e.1)
          → P message.raw_packets)
      → Sends P (dispatch_query opts message s payload).0
  unfolding dispatch_query
  dispatch_query-Sends s payload k =
      catching_method-Sends P _ _ _ (blocked-Sends P message) (λ begun same.
        finish_query-Sends begun _ (
          Sends-each P _ (λ forwarded raw h.
            let (sql, q, whole, passes) =
              handle_mysql_query-unattended opts message payload begun.database forwarded raw
                strict.guarded strict.valid strict.unattended h in
            let c = classify opts.sqlglot sql in
            subst P (sym whole) (
              k sql q (
                subst (λ d. let e = estimate opts c d in MayPass opts c e.0 e.1)
                  (ap (λ t. t.database) (sym same) ∙ begun_database s (lit "query")) passes)))))

  pub dispatch_init_db-Sends :
      (s : MySqlSessionState) (payload : Bytes)
      → P message.raw_packets
      → Sends P (dispatch_init_db opts message s payload).0
  unfolding dispatch_init_db
  dispatch_init_db-Sends s payload h =
      catching-Sends P s _ _ _ gap-Sends
        (λ database _. catching_method-Sends P _ _ _ gap-Sends (λ begun _. h))

  pub dispatch_ping-Sends :
      (s : MySqlSessionState) (payload : Bytes)
      → P message.raw_packets
      → Sends P (dispatch_ping opts message s payload).0
  unfolding dispatch_ping
  dispatch_ping-Sends s [] h =
      catching_method-Sends P _ _ _ (blocked-Sends P message) (λ begun _. h)
  dispatch_ping-Sends s (b ∷ bs) h = blocked-Sends P message _

  pub dispatch_prepare-Sends :
      (s : MySqlSessionState) (payload : Bytes)
      → P message.raw_packets
      → Sends P (dispatch_prepare opts message s payload).0
  unfolding dispatch_prepare
  dispatch_prepare-Sends s payload h =
      catching-Sends P s _ _ _ gap-Sends
        (λ sql _. catching_method-Sends P _ _ _ gap-Sends (λ begun _. h))

  pub dispatch_close-Sends :
      (s : MySqlSessionState) (payload : Bytes)
      → P message.raw_packets
      → Sends P (dispatch_close opts message s payload).0
  unfolding dispatch_close
  dispatch_close-Sends s payload h =
      catching-Sends P s _ _ _ (blocked-Sends P message)
        (λ _ _. catching-Sends P s _ _ _ gap-Sends (λ i _. h))

  pub dispatch_reset-Sends :
      (s : MySqlSessionState) (payload : Bytes)
      → P message.raw_packets
      → Sends P (dispatch_reset opts message s payload).0
  unfolding dispatch_reset
  dispatch_reset-Sends s payload h =
      catching-Sends P s _ _ _ (blocked-Sends P message)
        (λ i _. catching_method-Sends P _ _ _ (blocked-Sends P message) (λ begun _. h))

  finish_long_data-Sends :
      (s : MySqlSessionState) (chunk : MySqlStmtLongData) (answer : Result (Bool × Sent))
      → Sends P answer
      → Sends P (finish_long_data s chunk answer).0
  unfolding finish_long_data
  finish_long_data-Sends s chunk (ok (true, sent)) h = tested-Sends P _ (ok (true, sent)) h
  finish_long_data-Sends s chunk (ok (false, sent)) h = h
  finish_long_data-Sends s chunk (err e) h = h

  pub dispatch_long_data-Sends :
      (s : MySqlSessionState) (payload : Bytes)
      → Sends P (dispatch_long_data opts message s payload).0
  unfolding dispatch_long_data
  dispatch_long_data-Sends s payload = catching-Sends P s _ _ _ gap-Sends (λ chunk _.
      catching-Sends P s _ _ _ gap-Sends (λ _ _. finish_long_data-Sends s chunk _ (gap-Sends _)))

  finish_execute-Sends :
      (s : MySqlSessionState) (statement : MySqlPreparedStatement)
      (decoded : MySqlStmtExecuteParameters) (answer : Result (Bool × Sent))
      → Sends P answer
      → Sends P (finish_execute s statement decoded answer).0
  unfolding finish_execute
  finish_execute-Sends s statement decoded (ok (true, sent)) h =
      tested-Sends P _ (ok (true, sent)) h
  finish_execute-Sends s statement decoded (ok (false, sent)) h = h
  finish_execute-Sends s statement decoded (err e) h = h

  -- An execution is forwarded when its text may pass, estimated only with known values.
  pub run_execute-Sends :
      (s : MySqlSessionState) (statement : MySqlPreparedStatement)
      (decoded : MySqlStmtExecuteParameters) (sql : Text)
      → ((let c = classify opts.sqlglot sql in
            let e = estimate opts c s.database in
            ((c.risk ≡ safe)
              ⊎ ((all_estimable decoded.parameters ≡ true)
                  × IsSmallChange c e.0 e.1 opts.policy_config)))
          → P message.raw_packets)
      → Sends P (run_execute opts message s statement (decoded, sql)).0
  unfolding run_execute
  run_execute-Sends s statement decoded sql k =
      let begun = begin_command_response s (lit "stmt_execute") in
      let description = lit "MYSQL_PREPARED_STATEMENT_" ++ decimal statement.statement_id in
      let estimate_safe = all_estimable decoded.parameters in
      let answer =
        handle_mysql_stmt_execute opts message sql description estimate_safe begun.1.database in
      finish_execute-Sends begun.1 statement decoded (begun.0 >> answer) (
        tested-Sends P begun.0 answer (
          Sends-each P answer (λ forwarded raw h.
            let (whole, passes) =
              handle_mysql_stmt_execute-unattended opts message sql description estimate_safe
                begun.1.database forwarded raw strict.guarded strict.valid strict.unattended
                strict.mode h in
            let c = classify opts.sqlglot sql in
            subst P (sym whole) (
              k (
                subst
                  (λ d.
                    let e = estimate opts c d in
                    ((c.risk ≡ safe)
                      ⊎ ((estimate_safe ≡ true) × IsSmallChange c e.0 e.1 opts.policy_config)))
                  (begun_database s (lit "stmt_execute")) passes)))))
