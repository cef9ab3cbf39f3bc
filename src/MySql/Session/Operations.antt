-- ===== src/MySql/Session/Operations.antt =====
-- The methods of the session state as steps, and the states that they reach.
use ohmydb_proxy.Prelude.{Bool, Bytes, List, Text, ℕ}
use ohmydb_proxy.MySql.Params.Types.{MySqlParameterType}
use ohmydb_proxy.MySql.Session.{MySqlSessionState, mark_closing, new, update_transaction_status}
use ohmydb_proxy.MySql.Session.Prepare.{
  accept_statement_prepare_ok, begin_statement_prepare, complete_statement_prepare,
  consume_statement_prepare_metadata, fail_statement_prepare, finish_statement_prepare_response,
}
use ohmydb_proxy.MySql.Session.Acknowledge.{
  begin_database_change, begin_ping, begin_statement_reset, close_prepared_statement,
  complete_database_change, complete_ping, complete_statement_reset, fail_ping,
  fail_statement_reset, mark_statement_long_data, register_statement_parameter_types,
  reset_prepared_statement,
}
use ohmydb_proxy.MySql.Session.Respond.{
  accept_command_response_packet, begin_command_response, fail_command_forward,
}

-- A call of a method that changes the state, with its arguments.
pub data Operation : Type 0 where
  begin_database : Text → Operation
  complete_database : Bytes → Operation
  begin_prepare : Text → Operation
  complete_prepare : ℕ → ℕ → ℕ → Operation
  fail_prepare : Operation
  accept_prepare_ok : ℕ → ℕ → ℕ → Bool → Operation
  consume_metadata : Bytes → ℕ → Operation
  finish_prepare : Operation
  close_statement : ℕ → Operation
  register_types : ℕ → List MySqlParameterType → Operation
  mark_long_data : ℕ → ℕ → Operation
  reset_statement : ℕ → Operation
  start_ping : Operation
  end_ping : Bytes → Operation
  abandon_ping : Operation
  begin_reset : ℕ → Operation
  complete_reset : Bytes → Operation
  abandon_reset : Operation
  begin_response : Text → Operation
  abandon_response : Operation
  accept_response : Bytes → ℕ → Operation
  update_status : ℕ → Operation
  close_session : Operation

-- The state that a call leaves, whether it returns or raises.
abbrev pub after : Operation → MySqlSessionState → MySqlSessionState
after (begin_database t) s = (begin_database_change s t).1
after (complete_database b) s = (complete_database_change s b).1
after (begin_prepare t) s = (begin_statement_prepare s t).1
after (complete_prepare i p c) s = (complete_statement_prepare s i p c).1
after fail_prepare s = fail_statement_prepare s
after (accept_prepare_ok i p c d) s = (accept_statement_prepare_ok s i p c d).1
after (consume_metadata b f) s = (consume_statement_prepare_metadata s b f).1
after finish_prepare s = (finish_statement_prepare_response s).1
after (close_statement i) s = (close_prepared_statement s i).1
after (register_types i ts) s = (register_statement_parameter_types s i ts).1
after (mark_long_data i p) s = (mark_statement_long_data s i p).1
after (reset_statement i) s = (reset_prepared_statement s i).1
after start_ping s = (begin_ping s).1
after (end_ping b) s = (complete_ping s b).1
after abandon_ping s = fail_ping s
after (begin_reset i) s = (begin_statement_reset s i).1
after (complete_reset b) s = (complete_statement_reset s b).1
after abandon_reset s = fail_statement_reset s
after (begin_response t) s = (begin_command_response s t).1
after abandon_response s = fail_command_forward s
after (accept_response b f) s = (accept_command_response_packet s b f).1
after (update_status f) s = update_transaction_status s f
after close_session s = mark_closing s

-- The states that calls reach from a new session.
pub data Reachable (database : Text) (max_prepared_statements max_state_bytes : ℕ)
    : MySqlSessionState → Type 0 where
  start :
      Reachable database max_prepared_statements max_state_bytes
        (new database max_prepared_statements max_state_bytes)
  step :
      {s : MySqlSessionState} (o : Operation)
      → Reachable database max_prepared_statements max_state_bytes s
      → Reachable database max_prepared_statements max_state_bytes (after o s)
