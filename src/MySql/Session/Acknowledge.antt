-- ===== src/MySql/Session/Acknowledge.antt =====
-- adapters/mysql/session.py: the operations that one OK or ERR packet acknowledges, and the
-- changes of a registered statement.
use ohmydb_proxy.Prelude.{
  Bool, Bytes, List, Option, Result, String, Text, [], decimal, elem, err, false, if◌then◌else◌,
  is_empty, leb, length, lit, mysql_protocol_error, none, not, ok, or_raise, raise_if, some, strip,
  true, ℕ, ◌!=◌, ◌++◌, ◌==◌, ◌>>◌, ◌∷◌,
}
use ohmydb_proxy.MySql.Command.{mysql_error, starts_with_byte}
use ohmydb_proxy.MySql.Params.Types.{MySqlParameterType}
use ohmydb_proxy.MySql.Session.{
  MySqlPreparedStatement, MySqlSessionState, Outcome, get, get_prepared_statement, mysql_err_packet,
  mysql_ok_packet, pop, put, raising, require_no_pending_lifecycle_operation,
}

-- What one packet acknowledges: OK, ERR, or an exception for an empty or another packet.
unfoldable pub acknowledgment : Bytes → String → String → Result Bool
acknowledgment backend_payload empty unexpected = do
  raise_if (is_empty backend_payload) (mysql_error empty)
  if starts_with_byte mysql_ok_packet backend_payload
      then ok true
      else if starts_with_byte mysql_err_packet backend_payload
      then ok false
      else err (mysql_error unexpected)

unfoldable pub begin_database_change : MySqlSessionState → Text → Outcome (Unit {0})
begin_database_change self database =
    let normalized = strip database in
    raising self
      (raise_if (is_empty normalized) (mysql_error "COM_INIT_DB database name cannot be empty"))
      (λ _.
        raising self (require_no_pending_lifecycle_operation self)
          (λ _. (ok tt, record self { pending_database = some normalized })))

-- The database after an acknowledgment.
abbrev pub database_after : Result Bool → Text → Text → Text
database_after (ok true) new_database database = new_database
database_after _ new_database database = database

unfoldable pub complete_database_change : MySqlSessionState → Bytes → Outcome Bool
unfolding acknowledgment
complete_database_change self backend_payload =
    raising self
      (or_raise self.pending_database (mysql_error "No MySQL database change is pending"))
      (λ new_database.
        let answer =
          acknowledgment backend_payload "COM_INIT_DB backend response is empty"
            "Unexpected backend response to COM_INIT_DB" in
        (
          answer,
          record self {
            database = database_after answer new_database self.database;
            pending_database = none;
          },
        ))

unfoldable pub begin_ping : MySqlSessionState → Outcome (Unit {0})
begin_ping self =
    raising self (require_no_pending_lifecycle_operation self)
      (λ _. (ok tt, record self { pending_ping = true }))

unfoldable pub complete_ping : MySqlSessionState → Bytes → Outcome Bool
unfolding acknowledgment
complete_ping self backend_payload =
    raising self (raise_if (not self.pending_ping) (mysql_error "No MySQL ping is pending")) (λ _. (
      acknowledgment backend_payload "COM_PING backend response is empty"
          "Unexpected backend response to COM_PING",
      record self { pending_ping = false },
    ))

unfoldable pub fail_ping : MySqlSessionState → MySqlSessionState
fail_ping self = record self { pending_ping = false }

-- The statement objects are shared with the registry: a change of one is a change of its entry.
unfoldable pub register_statement_parameter_types :
    MySqlSessionState → ℕ → List MySqlParameterType → Outcome (Unit {0})
register_statement_parameter_types self statement_id parameter_types =
    raising self (get_prepared_statement self statement_id) (λ statement.
      raising self
        (raise_if (length parameter_types != statement.parameter_count)
          (mysql_error "MySQL prepared-statement parameter type count mismatch"))
        (λ _. (
          ok tt,
          record self {
            prepared_statements =
                put statement_id
                  (record statement {
                    parameter_types = some parameter_types;
                    long_data_parameters = [];
                  })
                  self.prepared_statements;
          },
        )))

-- A set's `add`
abbrev pub add : ℕ → List ℕ → List ℕ
add x xs = if elem x xs then xs else x ∷ xs

unfoldable pub mark_statement_long_data : MySqlSessionState → ℕ → ℕ → Outcome (Unit {0})
mark_statement_long_data self statement_id parameter_id =
    raising self (get_prepared_statement self statement_id) (λ statement.
      raising self
        (raise_if (leb statement.parameter_count parameter_id) (
          mysql_protocol_error (
            lit "COM_STMT_SEND_LONG_DATA references out-of-range parameter "
            ++ decimal parameter_id)))
        (λ _. (
          ok tt,
          record self {
            prepared_statements =
                put statement_id
                  (record statement {
                    long_data_parameters = add parameter_id statement.long_data_parameters;
                  })
                  self.prepared_statements;
          },
        )))

unfoldable pub reset_prepared_statement : MySqlSessionState → ℕ → Outcome (Unit {0})
reset_prepared_statement self statement_id =
    raising self (get_prepared_statement self statement_id) (λ statement. (
      ok tt,
      record self {
        prepared_statements =
            put statement_id
              (record statement { parameter_types = none; long_data_parameters = [] })
              self.prepared_statements;
      },
    ))

-- The statement that was closed is `get statement_id` of the registry before.
unfoldable pub close_prepared_statement :
    MySqlSessionState → ℕ → Option MySqlPreparedStatement × MySqlSessionState
close_prepared_statement self statement_id = (
  get statement_id self.prepared_statements,
  record self {
    prepared_statements = pop statement_id self.prepared_statements;
    last_prepared_statement_id = elim self.last_prepared_statement_id [
      | none ↦ none
      | some last ↦ if last == statement_id then none else some last
    ];
  },
)

unfoldable pub begin_statement_reset : MySqlSessionState → ℕ → Outcome (Unit {0})
begin_statement_reset self statement_id =
    raising self (require_no_pending_lifecycle_operation self) (λ _.
      raising self (get_prepared_statement self statement_id)
        (λ _. (ok tt, record self { pending_statement_reset_id = some statement_id })))

-- Once the pending id is cleared: an OK packet resets the statement.
unfoldable pub finish_statement_reset : MySqlSessionState → ℕ → Result Bool → Outcome Bool
unfolding reset_prepared_statement
finish_statement_reset self statement_id (ok true) =
    let (done, self') = reset_prepared_statement self statement_id in (done >> ok true, self')
finish_statement_reset self statement_id answer = (answer, self)

unfoldable pub complete_statement_reset : MySqlSessionState → Bytes → Outcome Bool
unfolding acknowledgment
complete_statement_reset self backend_payload =
    raising self
      (or_raise self.pending_statement_reset_id (mysql_error "No MySQL statement reset is pending"))
      (λ statement_id.
        finish_statement_reset (record self { pending_statement_reset_id = none }) statement_id
          (acknowledgment backend_payload "COM_STMT_RESET backend response is empty"
            "Unexpected backend response to COM_STMT_RESET"))

unfoldable pub fail_statement_reset : MySqlSessionState → MySqlSessionState
fail_statement_reset self = record self { pending_statement_reset_id = none }
