-- ===== src/MySql/Session/Prepare.antt =====
-- adapters/mysql/session.py: the life of a prepared statement.
use ohmydb_proxy.Prelude.{
  Bool, Bytes, List, Option, Result, Text, [], drop, false, if◌then◌else◌, index, is_empty, is_some,
  leb, length, none, not, ok, or_raise, raise_if, replicate, some, strip, true, ℕ, ◌!=◌, ◌&&◌, ◌++◌,
  ◌-◌, ◌==◌, ◌>>=◌, ◌>>◌, ◌||◌, ◌∷◌,
}
use ohmydb_proxy.MySql.Constants.{client_protocol_41}
use ohmydb_proxy.MySql.Command.{mysql_error, starts_with_byte}
use ohmydb_proxy.MySql.Response.{has_flag, parse_eof_packet_status}
use ohmydb_proxy.MySql.Params.Types.{}
use ohmydb_proxy.MySql.Session.{
  MetadataKind, MySqlPreparedStatement, MySqlSessionState, Outcome, Registry, column, eof,
  get_prepared_statement, mysql_err_packet, parameter, pop, put, raising,
  require_no_pending_lifecycle_operation, require_prepared_capacity,
}

-- `if self.pending_prepare_event is not None: self.pending_prepare_event.set()`
abbrev pub set_event : Option Bool → Option Bool
set_event none = none
set_event (some _) = some true

unfoldable pub begin_statement_prepare : MySqlSessionState → Text → Outcome (Unit {0})
begin_statement_prepare self sql =
    let normalized = strip sql in
    raising self
      (raise_if (is_empty normalized) (mysql_error "COM_STMT_PREPARE SQL cannot be empty"))
      (λ _. raising self (require_no_pending_lifecycle_operation self) (λ _. (
        ok tt,
        record self {
          pending_statement_sql = some normalized;
          pending_prepare_event = some false;
          pending_prepared_statement_id = none;
          pending_prepare_metadata_packets = 0;
          pending_prepare_metadata_kinds = [];
          last_prepare_failed = false;
        },
      )))

-- The statement that a response with these counts announces.
unfoldable pub announced : Text → ℕ → ℕ → ℕ → MySqlPreparedStatement
announced sql statement_id parameter_count column_count = record {
  statement_id = statement_id;
  sql = sql;
  parameter_count = parameter_count;
  column_count = column_count;
  parameter_types = none;
  long_data_parameters = [];
}

unfoldable pub complete_statement_prepare :
    MySqlSessionState → ℕ → ℕ → ℕ → Outcome MySqlPreparedStatement
unfolding announced
complete_statement_prepare self statement_id parameter_count column_count =
    raising self
      (or_raise self.pending_statement_sql (mysql_error "No MySQL statement prepare is pending"))
      (λ sql. raising self (require_prepared_capacity self statement_id sql) (λ _.
        let statement = announced sql statement_id parameter_count column_count in
        (
          ok statement,
          record self {
            prepared_statements = put statement_id statement self.prepared_statements;
            pending_statement_sql = none;
            pending_prepared_statement_id = none;
            pending_prepare_metadata_packets = 0;
            pending_prepare_metadata_kinds = [];
            last_prepared_statement_id = some statement_id;
            last_prepare_failed = false;
            pending_prepare_event = set_event self.pending_prepare_event;
          },
        )))

-- `self.prepared_statements.pop(self.pending_prepared_statement_id, None)`, when one is pending
abbrev pub pop_pending : Option ℕ → Registry → Registry
pop_pending none registry = registry
pop_pending (some statement_id) registry = pop statement_id registry

unfoldable pub fail_statement_prepare : MySqlSessionState → MySqlSessionState
fail_statement_prepare self = record self {
  prepared_statements = pop_pending self.pending_prepared_statement_id self.prepared_statements;
  pending_statement_sql = none;
  pending_prepared_statement_id = none;
  pending_prepare_metadata_packets = 0;
  pending_prepare_metadata_kinds = [];
  last_prepared_statement_id = none;
  last_prepare_failed = true;
  pending_prepare_event = set_event self.pending_prepare_event;
}

-- The EOF packet that ends a positive number of definitions, without CLIENT_DEPRECATE_EOF.
unfoldable pub ending_eof : ℕ → Bool → List MetadataKind
ending_eof count deprecate_eof = if count != 0 && not deprecate_eof then eof ∷ [] else []

unfoldable pub metadata_kinds : ℕ → ℕ → Bool → List MetadataKind
unfolding ending_eof
metadata_kinds parameter_count column_count deprecate_eof =
    replicate parameter_count parameter
    ++ (ending_eof parameter_count deprecate_eof
        ++ (replicate column_count column ++ ending_eof column_count deprecate_eof))

unfoldable pub accept_statement_prepare_ok :
    MySqlSessionState → ℕ → ℕ → ℕ → Bool → Outcome MySqlPreparedStatement
unfolding announced
accept_statement_prepare_ok self statement_id parameter_count column_count deprecate_eof =
    raising self
      (or_raise self.pending_statement_sql (mysql_error "No MySQL statement prepare is pending"))
      (λ sql.
        raising self
          (raise_if (is_some self.pending_prepared_statement_id)
              (mysql_error "Duplicate COM_STMT_PREPARE_OK packet")
            >> require_prepared_capacity self statement_id sql)
          (λ _.
            let statement = announced sql statement_id parameter_count column_count in
            let kinds = metadata_kinds parameter_count column_count deprecate_eof in
            (
              ok statement,
              record self {
                prepared_statements = put statement_id statement self.prepared_statements;
                pending_prepared_statement_id = some statement_id;
                pending_prepare_metadata_kinds = kinds;
                pending_prepare_metadata_packets = length kinds;
              },
            )))

-- The test of one packet of definitions against the kind that is due.
unfoldable pub check_metadata_packet : MetadataKind → Bytes → ℕ → Result (Unit {0})
check_metadata_packet eof backend_payload capability_flags = do
  raise_if (not (starts_with_byte 0xfe backend_payload) || leb 9 (length backend_payload))
      (mysql_error "Expected COM_STMT_PREPARE metadata EOF packet")
  if has_flag capability_flags client_protocol_41
      then (parse_eof_packet_status backend_payload capability_flags >>= λ _. ok tt)
      else ok tt
check_metadata_packet _ backend_payload capability_flags =
    raise_if (starts_with_byte mysql_err_packet backend_payload)
      (mysql_error "COM_STMT_PREPARE metadata ended with an error")

-- The kinds are a list in step with their counter; `kinds[0]` of an empty list raises IndexError.
unfoldable pub consume_statement_prepare_metadata : MySqlSessionState → Bytes → ℕ → Outcome Bool
consume_statement_prepare_metadata self backend_payload capability_flags =
    raising self
      (do
        raise_if (not (is_some self.pending_prepared_statement_id))
            (mysql_error "No COM_STMT_PREPARE metadata is pending")
        raise_if (self.pending_prepare_metadata_packets == 0)
            (mysql_error "Unexpected extra COM_STMT_PREPARE metadata packet")
        raise_if (is_empty backend_payload)
            (mysql_error "COM_STMT_PREPARE metadata packet is empty")
        kind ← index self.pending_prepare_metadata_kinds 0
        check_metadata_packet kind backend_payload capability_flags)
      (λ _. (
        ok (self.pending_prepare_metadata_packets - 1 == 0),
        record self {
          pending_prepare_metadata_kinds = drop 1 self.pending_prepare_metadata_kinds;
          pending_prepare_metadata_packets = self.pending_prepare_metadata_packets - 1;
        },
      ))

unfoldable pub finish_statement_prepare_response : MySqlSessionState → Outcome (Unit {0})
finish_statement_prepare_response self =
    raising self
      (do
        statement_id ←
            or_raise self.pending_prepared_statement_id
              (mysql_error "No successful COM_STMT_PREPARE response is pending")
        raise_if (self.pending_prepare_metadata_packets != 0)
            (mysql_error "COM_STMT_PREPARE metadata response is incomplete")
        ok statement_id)
      (λ statement_id. (
        ok tt,
        record self {
          pending_statement_sql = none;
          pending_prepared_statement_id = none;
          pending_prepare_metadata_kinds = [];
          last_prepared_statement_id = some statement_id;
          last_prepare_failed = false;
          pending_prepare_event = set_event self.pending_prepare_event;
        },
      ))

-- `wait_for_statement_prepare` behind its wait.
unfoldable pub prepared_statement : MySqlSessionState → Result (Option MySqlPreparedStatement)
prepared_statement self = if self.last_prepare_failed then ok none else (do
  statement_id ←
      or_raise self.last_prepared_statement_id
        (mysql_error "COM_STMT_PREPARE completed without a statement id")
  statement ← get_prepared_statement self statement_id
  ok (some statement))

-- The outcome of the call for an event, if the event is set: until then the call waits.
unfoldable pub wait_for_statement_prepare :
    Bool → MySqlSessionState → Option (Result (Option MySqlPreparedStatement))
unfolding prepared_statement
wait_for_statement_prepare false self = none
wait_for_statement_prepare true self = some (prepared_statement self)
