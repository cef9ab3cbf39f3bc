-- ===== src/MySql/Session/Reach.antt =====
-- What holds in every state that the methods reach.
use ohmydb_proxy.Prelude.{Text, arith, refl, ℕ, ◌∙◌, ◌≡◌}
use ohmydb_proxy.MySql.Session.{MySqlSessionState, new, state_bytes}
use ohmydb_proxy.MySql.Session.Operations.{
  Operation, Reachable, abandon_ping, abandon_reset, abandon_response, accept_prepare_ok,
  accept_response, after, begin_database, begin_prepare, begin_reset, begin_response, close_session,
  close_statement, complete_database, complete_prepare, complete_reset, consume_metadata, end_ping,
  fail_prepare, finish_prepare, mark_long_data, register_types, reset_statement, start, start_ping,
  step, update_status,
}
use ohmydb_proxy.MySql.Session.Invariant.{IsWellFormed}
use ohmydb_proxy.MySql.Session.Preserve.{
  begin_database_change-IsWellFormed, begin_ping-IsWellFormed, begin_statement_reset-IsWellFormed,
  close_prepared_statement-IsWellFormed, complete_database_change-IsWellFormed,
  complete_ping-IsWellFormed, complete_statement_reset-IsWellFormed, fail_ping-IsWellFormed,
  fail_statement_reset-IsWellFormed, mark_statement_long_data-IsWellFormed,
  register_statement_parameter_types-IsWellFormed, reset_prepared_statement-IsWellFormed,
}
use ohmydb_proxy.MySql.Session.PreparePreserve.{
  accept_statement_prepare_ok-IsWellFormed, begin_statement_prepare-IsWellFormed,
  complete_statement_prepare-IsWellFormed, consume_statement_prepare_metadata-IsWellFormed,
  fail_statement_prepare-IsWellFormed, finish_statement_prepare_response-IsWellFormed,
}
use ohmydb_proxy.MySql.Session.RespondPreserve.{
  accept_command_response_packet-IsWellFormed, begin_command_response-IsWellFormed,
  fail_command_forward-IsWellFormed, mark_closing-IsWellFormed,
  update_transaction_status-IsWellFormed,
}
use ohmydb_proxy.MySql.Session.Limits.{after-limits}

pub new-IsWellFormed :
    (database : Text) (statements bytes : ℕ) → IsWellFormed (new database statements bytes)
unfolding new state_bytes
new-IsWellFormed database statements bytes = record {
  registered = omega arith;
  sized = omega arith;
  exclusive = omega arith;
  counted = refl;
  announced_pending = omega arith;
  columns = refl;
}

-- Every call keeps the invariant, whether it returns or raises.
pub after-IsWellFormed :
    (o : Operation) (s : MySqlSessionState) → IsWellFormed s → IsWellFormed (after o s)
after-IsWellFormed (begin_database t) s w = begin_database_change-IsWellFormed s t w
after-IsWellFormed (complete_database b) s w = complete_database_change-IsWellFormed s b w
after-IsWellFormed (begin_prepare t) s w = begin_statement_prepare-IsWellFormed s t w
after-IsWellFormed (complete_prepare i p c) s w = complete_statement_prepare-IsWellFormed s i p c w
after-IsWellFormed fail_prepare s w = fail_statement_prepare-IsWellFormed s w
after-IsWellFormed (accept_prepare_ok i p c d) s w =
    accept_statement_prepare_ok-IsWellFormed s i p c d w
after-IsWellFormed (consume_metadata b f) s w =
    consume_statement_prepare_metadata-IsWellFormed s b f w
after-IsWellFormed finish_prepare s w = finish_statement_prepare_response-IsWellFormed s w
after-IsWellFormed (close_statement i) s w = close_prepared_statement-IsWellFormed s i w
after-IsWellFormed (register_types i ts) s w =
    register_statement_parameter_types-IsWellFormed s i ts w
after-IsWellFormed (mark_long_data i p) s w = mark_statement_long_data-IsWellFormed s i p w
after-IsWellFormed (reset_statement i) s w = reset_prepared_statement-IsWellFormed s i w
after-IsWellFormed start_ping s w = begin_ping-IsWellFormed s w
after-IsWellFormed (end_ping b) s w = complete_ping-IsWellFormed s b w
after-IsWellFormed abandon_ping s w = fail_ping-IsWellFormed s w
after-IsWellFormed (begin_reset i) s w = begin_statement_reset-IsWellFormed s i w
after-IsWellFormed (complete_reset b) s w = complete_statement_reset-IsWellFormed s b w
after-IsWellFormed abandon_reset s w = fail_statement_reset-IsWellFormed s w
after-IsWellFormed (begin_response t) s w = begin_command_response-IsWellFormed s t w
after-IsWellFormed abandon_response s w = fail_command_forward-IsWellFormed s w
after-IsWellFormed (accept_response b f) s w = accept_command_response_packet-IsWellFormed s b f w
after-IsWellFormed (update_status f) s w = update_transaction_status-IsWellFormed s f w
after-IsWellFormed close_session s w = mark_closing-IsWellFormed s w

-- In every state that calls of the methods reach from a new session, in any order and whether they
-- return or raise: the limits are the ones given; the registry holds at most that many statements
-- and bytes of SQL; at most one acknowledgment is awaited; the counter of definitions is the length
-- of their list; a statement is announced only while its text is pending; and columns remain
-- exactly in the stage of their definitions.
pub reachable-IsWellFormed :
    (database : Text) (statements bytes : ℕ) (s : MySqlSessionState)
    → Reachable database statements bytes s
    → (s.max_prepared_statements ≡ statements) × (s.max_state_bytes ≡ bytes) × IsWellFormed s
unfolding new
reachable-IsWellFormed database statements bytes _ start =
    (refl, refl, new-IsWellFormed database statements bytes)
reachable-IsWellFormed database statements bytes _ (step {s = s} o r) =
    let (m, b, w) = reachable-IsWellFormed database statements bytes s r in
    let (m', b') = after-limits o s in (m' ∙ m, b' ∙ b, after-IsWellFormed o s w)
