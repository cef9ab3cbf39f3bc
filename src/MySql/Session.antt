-- ===== src/MySql/Session.antt =====
-- adapters/mysql/session.py: the state of an authenticated session. A method returns its result or
-- exception with the state it leaves behind.
pub mod Prepare
pub mod Acknowledge
pub mod Respond
pub mod Registry
pub mod Invariant
pub mod Operations
pub mod Preserve
pub mod PreparePreserve
pub mod RespondPreserve
pub mod Frame
pub mod Lifecycle
pub mod Limits
pub mod Reach
use ohmydb_proxy.Prelude.{
  Bool, List, Option, Result, Text, [], decimal, encode_utf8, err, false, if◌then◌else◌, is_some,
  leb, length, lit, ltb, mysql_protocol_error, none, not, ok, or_raise, raise_if, some, true, ℕ,
  ◌&&◌, ◌++◌, ◌+◌, ◌-◌, ◌==◌, ◌>>=◌, ◌>>◌, ◌||◌, ◌∷◌,
}
use ohmydb_proxy.MySql.Constants.{
  server_status_autocommit, server_status_in_trans, server_status_in_trans_readonly,
}
use ohmydb_proxy.MySql.Command.{mysql_error}
use ohmydb_proxy.MySql.Response.{has_flag}
use ohmydb_proxy.MySql.Params.Types.{MySqlParameterType}

-- MYSQL_OK_PACKET and MYSQL_ERR_PACKET
abbrev pub mysql_ok_packet : ℕ
mysql_ok_packet = 0x00

abbrev pub mysql_err_packet : ℕ
mysql_err_packet = 0xff

pub record MySqlPreparedStatement : Type 0 where
  pub statement_id : ℕ
  pub sql : Text
  pub parameter_count : ℕ
  pub column_count : ℕ
  pub parameter_types : Option (List MySqlParameterType)
  pub long_data_parameters : List ℕ

-- The strings that `pending_prepare_metadata_kinds` holds.
pub data MetadataKind : Type 0 where
  parameter : MetadataKind
  column : MetadataKind
  eof : MetadataKind

-- The strings that `command_response_stage` takes.
pub data ResponseStage : Type 0 where
  initial : ResponseStage
  metadata : ResponseStage
  metadata_eof : ResponseStage
  rows : ResponseStage

-- `dict[int, MySqlPreparedStatement]`, in the order of insertion
abbrev pub Registry : Type 0
Registry = List (ℕ × MySqlPreparedStatement)

-- `pending_prepare_event` is an `asyncio.Event`: whether it is set.
pub record MySqlSessionState : Type 0 where
  pub database : Text
  pub max_prepared_statements : ℕ
  pub max_state_bytes : ℕ
  pub pending_database : Option Text
  pub pending_statement_sql : Option Text
  pub pending_prepare_event : Option Bool
  pub pending_prepared_statement_id : Option ℕ
  pub pending_prepare_metadata_packets : ℕ
  pub pending_prepare_metadata_kinds : List MetadataKind
  pub last_prepared_statement_id : Option ℕ
  pub last_prepare_failed : Bool
  pub pending_ping : Bool
  pub pending_statement_reset_id : Option ℕ
  pub pending_command_response : Option Text
  pub command_response_stage : ResponseStage
  pub response_columns_remaining : ℕ
  pub prepared_statements : Registry
  pub server_status_flags : Option ℕ
  pub transaction_active : Bool
  pub transaction_read_only : Bool
  pub autocommit : Bool
  pub closing : Bool

-- MySqlSessionState(database=…, max_prepared_statements=…, max_state_bytes=…)
unfoldable pub new : Text → ℕ → ℕ → MySqlSessionState
new database max_prepared_statements max_state_bytes = record {
  database = database;
  max_prepared_statements = max_prepared_statements;
  max_state_bytes = max_state_bytes;
  pending_database = none;
  pending_statement_sql = none;
  pending_prepare_event = none;
  pending_prepared_statement_id = none;
  pending_prepare_metadata_packets = 0;
  pending_prepare_metadata_kinds = [];
  last_prepared_statement_id = none;
  last_prepare_failed = false;
  pending_ping = false;
  pending_statement_reset_id = none;
  pending_command_response = none;
  command_response_stage = initial;
  response_columns_remaining = 0;
  prepared_statements = [];
  server_status_flags = none;
  transaction_active = false;
  transaction_read_only = false;
  autocommit = true;
  closing = false;
}

-- What a method returns or raises, and the state that it leaves.
abbrev pub Outcome : Type 0 → Type 0
Outcome A = Result A × MySqlSessionState

-- Goes on with the result, or raises its exception out of the method, whose changes stay.
unfoldable pub raising {ℓ} :
    {A : Type ℓ} {B : Type 0} → MySqlSessionState → Result A → (A → Outcome B) → Outcome B
raising self (err e) k = (err e, self)
raising self (ok a) k = k a

-- registry.get(statement_id)
unfoldable pub get : ℕ → Registry → Option MySqlPreparedStatement
get statement_id [] = none
get statement_id ((key, statement) ∷ rest) =
    let found = get statement_id rest in if key == statement_id then some statement else found

-- registry[statement_id] = statement
unfoldable pub put : ℕ → MySqlPreparedStatement → Registry → Registry
put statement_id statement [] = (statement_id, statement) ∷ []
put statement_id statement ((key, old) ∷ rest) =
    let changed = put statement_id statement rest in
    if key == statement_id then (key, statement) ∷ rest else (key, old) ∷ changed

-- registry.pop(statement_id, None)
unfoldable pub pop : ℕ → Registry → Registry
pop statement_id [] = []
pop statement_id ((key, statement) ∷ rest) =
    let left = pop statement_id rest in
    if key == statement_id then rest else (key, statement) ∷ left

-- len(sql.encode("utf-8"))
abbrev pub sql_bytes : Text → ℕ
sql_bytes sql = length (encode_utf8 sql)

-- sum(len(item.sql.encode("utf-8")) for item in registry.values())
unfoldable pub state_bytes : Registry → ℕ
state_bytes [] = 0
state_bytes ((_, statement) ∷ rest) = sql_bytes statement.sql + state_bytes rest

-- The part of a statement already registered, which the new one replaces.
abbrev pub previous_bytes : Option MySqlPreparedStatement → ℕ
previous_bytes none = 0
previous_bytes (some previous) = sql_bytes previous.sql

unfoldable pub has_pending_lifecycle_operation : MySqlSessionState → Bool
has_pending_lifecycle_operation self =
    is_some self.pending_database
    || (is_some self.pending_statement_sql
        || (self.pending_ping
            || (is_some self.pending_statement_reset_id || is_some self.pending_command_response)))

unfoldable pub require_no_pending_lifecycle_operation : MySqlSessionState → Result (Unit {0})
unfolding has_pending_lifecycle_operation
require_no_pending_lifecycle_operation self =
    raise_if (has_pending_lifecycle_operation self)
      (mysql_error "A MySQL command acknowledgment is already pending")

unfoldable pub require_prepared_capacity : MySqlSessionState → ℕ → Text → Result (Unit {0})
unfolding get state_bytes
require_prepared_capacity self statement_id sql = do
  raise_if
      (not (is_some (get statement_id self.prepared_statements))
        && leb self.max_prepared_statements (length self.prepared_statements))
      (mysql_error "MySQL prepared-statement registry limit exceeded")
  let current =
      state_bytes self.prepared_statements
      - previous_bytes (get statement_id self.prepared_statements)
  raise_if (ltb self.max_state_bytes (current + sql_bytes sql))
      (mysql_error "MySQL per-session state size limit exceeded")
  ok tt

unfoldable pub get_prepared_statement : MySqlSessionState → ℕ → Result MySqlPreparedStatement
unfolding get
get_prepared_statement self statement_id =
    or_raise (get statement_id self.prepared_statements)
      (mysql_protocol_error (lit "Unknown MySQL prepared statement id " ++ decimal statement_id))

unfoldable pub get_last_prepared_statement : MySqlSessionState → Result MySqlPreparedStatement
unfolding get_prepared_statement
get_last_prepared_statement self = do
  statement_id ←
      or_raise self.last_prepared_statement_id
        (mysql_error "No reusable MariaDB prepared statement is available")
  get_prepared_statement self statement_id

unfoldable pub update_transaction_status : MySqlSessionState → ℕ → MySqlSessionState
update_transaction_status self status = record self {
  server_status_flags = some status;
  transaction_active = has_flag status server_status_in_trans;
  transaction_read_only = has_flag status server_status_in_trans_readonly;
  autocommit = has_flag status server_status_autocommit;
}

unfoldable pub mark_closing : MySqlSessionState → MySqlSessionState
mark_closing self = record self { closing = true }
