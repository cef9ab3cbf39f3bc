-- ===== src/MySql/Dispatcher/Reasons.antt =====
-- Why the dispatcher of commands may write a message to the backend.
use ohmydb_proxy.Prelude.{
  All, Bool, Bytes, Error, List, Result, Result-cases, Text, [], ap, arith, err, false,
  from_bytes_le, inl, inr, is_empty, is_some, not, ok, raise_if, refl, some, subst, sym, take, true,
  ℕ, ◌==◌, ◌>>=◌, ◌>>◌, ◌∙◌, ◌∷◌, ◌≡◌, ◌≢◌, ◌⊎◌,
}
use ohmydb_proxy.Policy.Classifier.{classify}
use ohmydb_proxy.Policy.Laws.{IsSmallChange}
use ohmydb_proxy.Policy.{safe}
use ohmydb_proxy.Proxy.{ProxyOptions, estimate}
use ohmydb_proxy.Proxy.Laws.{MayPass}
use ohmydb_proxy.MySql.Packet.{MySqlLogicalMessage}
use ohmydb_proxy.MySql.Command.{
  MySqlCommand, MySqlCommandKind, MySqlStmtExecute, init_db, parse_logical_command, parse_query,
  parse_stmt_execute, ping, query, quit, stmt_close, stmt_execute, stmt_prepare, stmt_reset,
}
use ohmydb_proxy.MySql.Params.{MySqlStmtExecuteParameters, parse_stmt_execute_parameters}
use ohmydb_proxy.MySql.Params.Values.{MySqlDecodedParameter, Value, raw_bytes}
use ohmydb_proxy.MySql.Reconstruct.{reconstruct_stmt_execute_sql}
use ohmydb_proxy.MySql.Session.{
  MySqlPreparedStatement, MySqlSessionState, get_last_prepared_statement, get_prepared_statement,
  has_pending_lifecycle_operation,
}
use ohmydb_proxy.MySql.Session.Prepare.{prepared_statement}
use ohmydb_proxy.MySql.Dispatcher.Execute.{
  all_estimable, check_no_long_data, decode_execution, is_estimable,
}

-- The commands whose packets run no statement: their effect is tracked, or there is none.
abbrev pub runs_nothing : MySqlCommandKind → Bool
runs_nothing init_db = true
runs_nothing quit = true
runs_nothing ping = true
runs_nothing stmt_prepare = true
runs_nothing stmt_close = true
runs_nothing stmt_reset = true
runs_nothing _ = false

-- The value of a parameter is known: it is no string of bytes.
abbrev pub IsKnown : MySqlDecodedParameter → Type 0
IsKnown p = (bytes : Bytes) → p.value ≢ raw_bytes bytes

pub all_estimable-IsKnown :
    (ps : List MySqlDecodedParameter) → all_estimable ps ≡ true → All IsKnown ps
all_estimable-IsKnown [] h = tt
all_estimable-IsKnown (p ∷ ps) h =
    (known p.value (ground (arith, h)), all_estimable-IsKnown ps (ground (arith, h)))
  where
    known : (value : Value) → is_estimable value ≡ true → (b : Bytes) → value ≢ raw_bytes b
    known value h b e = cc (sym (ap is_estimable e) ∙ h)

-- The statement that an execution means, and the session in which it is found: the one of its id;
-- for the id -1 the last one that was prepared, or, while a preparation is pending, the one that this
-- preparation gives.
pub data Meant (resume : MySqlSessionState → MySqlSessionState) (session : MySqlSessionState)
    (i : ℕ) (statement : MySqlPreparedStatement) : MySqlSessionState → Type 0 where
  identified :
      (i == 0xffffffff) ≡ false
      → get_prepared_statement session i ≡ ok statement
      → Meant resume session i statement session
  last_prepared :
      (i == 0xffffffff) ≡ true
      → is_some session.pending_statement_sql ≡ false
      → get_last_prepared_statement session ≡ ok statement
      → Meant resume session i statement session
  pipelined :
      (i == 0xffffffff) ≡ true
      → is_some session.pending_statement_sql ≡ true
      → prepared_statement (resume session) ≡ ok (some statement)
      → Meant resume session i statement (resume session)

-- An execution may run: no acknowledgment is pending, or it is for the id -1 and a preparation is
-- pending.
abbrev pub MayExecute : MySqlSessionState → MySqlCommand → Type 0
MayExecute session command =
    (has_pending_lifecycle_operation session ≡ false)
    ⊎ ((from_bytes_le (take 4 command.payload) ≡ 0xffffffff)
        × (is_some session.pending_statement_sql ≡ true))

-- Why the dispatcher may write a message to the backend: its text may pass; the text that its
-- statement gives with its parameters is safe, or a small change by an estimate that was made because
-- all values are known; or it runs no statement.
pub data IsForwarded (float_repr : Bytes → Text) (resume : MySqlSessionState → MySqlSessionState)
    (opts : ProxyOptions) (message : MySqlLogicalMessage) (session : MySqlSessionState)
    (raw : Bytes) : Type 0 where
  query_passes :
      (command : MySqlCommand) (sql : Text)
      → parse_logical_command message ≡ ok command
      → command.kind ≡ query
      → has_pending_lifecycle_operation session ≡ false
      → parse_query command.payload ≡ ok sql
      → raw ≡ message.raw_packets
      → (let c = classify opts.sqlglot sql in
          let e = estimate opts c session.database in MayPass opts c e.0 e.1)
      → IsForwarded float_repr resume opts message session raw
  execution_passes :
      (command : MySqlCommand) (execution : MySqlStmtExecute) (statement : MySqlPreparedStatement)
      (found : MySqlSessionState) (decoded : MySqlStmtExecuteParameters) (sql : Text)
      → parse_logical_command message ≡ ok command
      → command.kind ≡ stmt_execute
      → MayExecute session command
      → parse_stmt_execute command.payload ≡ ok execution
      → Meant resume session execution.statement_id statement found
      → is_empty statement.long_data_parameters ≡ true
      → parse_stmt_execute_parameters float_repr execution statement.parameter_count
          statement.parameter_types
        ≡ ok decoded
      → reconstruct_stmt_execute_sql statement.sql decoded.parameters ≡ ok sql
      → raw ≡ message.raw_packets
      → (let c = classify opts.sqlglot sql in
          let e = estimate opts c found.database in
          ((c.risk ≡ safe)
            ⊎ (All IsKnown decoded.parameters × IsSmallChange c e.0 e.1 opts.policy_config)))
      → IsForwarded float_repr resume opts message session raw
  nothing_runs :
      (command : MySqlCommand)
      → parse_logical_command message ≡ ok command
      → runs_nothing command.kind ≡ true
      → (command.kind ≡ quit) ⊎ (has_pending_lifecycle_operation session ≡ false)
      → raw ≡ message.raw_packets
      → IsForwarded float_repr resume opts message session raw

pub not-true : (b : Bool) → not b ≡ true → b ≡ false
not-true false h = refl
not-true true h = cc h

pub wrapped_ok :
    (r : Result MySqlPreparedStatement) (statement : MySqlPreparedStatement)
    → (r >>= λ found. ok (some found)) ≡ ok (some statement)
    → r ≡ ok statement
wrapped_ok (ok found) statement h = cc h
wrapped_ok (err e) statement h = cc h

-- What was decoded from an execution.
pub decoded_execution :
    (float_repr : Bytes → Text) (execution : MySqlStmtExecute) (statement : MySqlPreparedStatement)
    (decoded : MySqlStmtExecuteParameters) (text : Text)
    → decode_execution float_repr execution statement ≡ ok (decoded, text)
    → (is_empty statement.long_data_parameters ≡ true)
      × (parse_stmt_execute_parameters float_repr execution statement.parameter_count
            statement.parameter_types
          ≡ ok decoded)
      × (reconstruct_stmt_execute_sql statement.sql decoded.parameters ≡ ok text)
unfolding decode_execution check_no_long_data
decoded_execution float_repr execution statement decoded text h =
    inverted (is_empty statement.long_data_parameters)
      (parse_stmt_execute_parameters float_repr execution statement.parameter_count
        statement.parameter_types)
      _ h
  where
    inverted :
        (b : Bool) (r : Result MySqlStmtExecuteParameters) (e : Error)
        → (let answer : Result (MySqlStmtExecuteParameters × Text) = (do
          raise_if (not b) e
          d ← r
          t ← reconstruct_stmt_execute_sql statement.sql d.parameters
          ok (d, t)) in
            answer ≡ ok (decoded, text))
        → (b ≡ true)
          × (r ≡ ok decoded)
          × (reconstruct_stmt_execute_sql statement.sql decoded.parameters ≡ ok text)
    inverted false r e h = cc h
    inverted true (err x) e h = cc h
    inverted true (ok d) e h =
        elim (Result-cases (reconstruct_stmt_execute_sql statement.sql d.parameters)) [
          | inr (x, q) ↦ absurd (ground (arith, q, h))
          | inl (t, q) ↦
              let both : (d ≡ decoded) × (t ≡ text) = (cc (q, h), cc (q, h)) in
              (
                refl,
                ap ok both.0,
                subst (λ d. reconstruct_stmt_execute_sql statement.sql d.parameters ≡ ok text)
                    both.0 (q ∙ ap ok both.1),
              )
        ]
