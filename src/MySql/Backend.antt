-- ===== src/MySql/Backend.antt =====
-- adapters/mysql/backend.py: the routing of one backend packet. The packets written to the client
-- are returned: the one routed, or none when an exception stops the routing before the write.
pub mod Laws
pub mod Kept
use ohmydb_proxy.Prelude.{
  Bool, Bytes, Option, Result, [], bit_or, err, false, if◌then◌else◌, is_mysql_error, is_some, none,
  not, ok, some, true, ◌==◌, ◌>>◌,
}
use ohmydb_proxy.MySql.Constants.{client_deprecate_eof, client_protocol_41, client_transactions}
use ohmydb_proxy.MySql.Packet.{MySqlPacket}
use ohmydb_proxy.MySql.Command.{mysql_error, parse_stmt_prepare_ok, starts_with_byte}
use ohmydb_proxy.MySql.Response.{has_flag, parse_ok_packet_status}
use ohmydb_proxy.MySql.Auth.{
  MySqlAuthState, MySqlBackendAuthPacket, accept_backend_packet, error_packet, is_authenticated,
  ok_packet,
}
use ohmydb_proxy.MySql.Session.{
  MySqlPreparedStatement, MySqlSessionState, Outcome, update_transaction_status,
}
use ohmydb_proxy.MySql.Session.Prepare.{
  accept_statement_prepare_ok, consume_statement_prepare_metadata, fail_statement_prepare,
  finish_statement_prepare_response,
}
use ohmydb_proxy.MySql.Session.Acknowledge.{
  complete_database_change, complete_ping, complete_statement_reset,
}
use ohmydb_proxy.MySql.Session.Respond.{accept_command_response_packet}

pub data MySqlBackendPhase : Type 0 where
  authentication : MySqlBackendPhase
  command_response : MySqlBackendPhase
  closed : MySqlBackendPhase

pub record MySqlBackendState : Type 0 where
  pub auth : MySqlAuthState
  pub session : MySqlSessionState
  pub phase : MySqlBackendPhase

-- What a routing returns or raises, the bytes it wrote to the client, and the state it leaves.
abbrev pub Routed : Type 0 → Type 0
Routed A = Result A × Bytes × MySqlBackendState

unfoldable pub mark_authenticated : MySqlBackendState → Result (Unit {0}) × MySqlBackendState
mark_authenticated self =
    if is_authenticated self.auth.phase
    then (ok tt, record self { phase = command_response })
    else (
      err (mysql_error "Cannot enter command-response phase before MySQL authentication succeeds"),
      self,
    )

unfoldable pub mark_closed : MySqlBackendState → MySqlBackendState
mark_closed self = record self { phase = closed }

unfoldable pub update_transaction_status_from_ok :
    MySqlBackendState → Bytes → Result (Unit {0}) × MySqlBackendState
update_transaction_status_from_ok state payload =
    if not (has_flag state.auth.capability_flags (bit_or client_protocol_41 client_transactions))
    then (ok tt, state)
    else elim (parse_ok_packet_status payload state.auth.capability_flags) [
      | err e ↦ (err e, state)
      | ok status ↦
          (ok tt, record state { session = update_transaction_status state.session status })
    ]

-- Goes on to the phase of commands when the update returned.
unfoldable pub finish_update :
    Result (Unit {0}) × MySqlBackendState → Result (Unit {0}) × MySqlBackendState
finish_update (err e, state) = (err e, state)
finish_update (ok _, state) = mark_authenticated state

-- The part behind the write of an OK packet of the authentication.
unfoldable pub finish_authentication :
    MySqlBackendState → Bytes → Result (Unit {0}) × MySqlBackendState
unfolding update_transaction_status_from_ok
finish_authentication state payload =
    finish_update (update_transaction_status_from_ok state payload)

-- What is left to do behind the write: `finish_prepare_after_forward` and
-- `fail_prepare_after_forward`.
pub data AfterForward : Type 0 where
  finish_prepare_after_forward : AfterForward
  fail_prepare_after_forward : AfterForward
  nothing_after_forward : AfterForward

abbrev pub with_session : MySqlBackendState → MySqlSessionState → MySqlBackendState
with_session state session = record state { session = session }

-- The branches for a ping, a reset and a change of the database.
unfoldable pub acknowledge :
    MySqlBackendState → Bytes → Outcome Bool → Result AfterForward × MySqlBackendState
acknowledge state payload (err e, session) = (err e, with_session state session)
acknowledge state payload (ok _, session) =
    if starts_with_byte 0x00 payload
    then (let (done, state') =
          update_transaction_status_from_ok (with_session state session) payload in
        (done >> ok nothing_after_forward, state'))
    else (ok nothing_after_forward, with_session state session)

-- A definition of the statement that was announced; `fail_statement_prepare` on a protocol error.
unfoldable pub forward_metadata :
    MySqlBackendState → Outcome Bool → Result AfterForward × MySqlBackendState
forward_metadata state (err e, session) = (
  err e,
  with_session state (if is_mysql_error e then fail_statement_prepare session else session),
)
forward_metadata state (ok done, session) = (
  ok (if done then finish_prepare_after_forward else nothing_after_forward),
  with_session state session,
)

-- The announcement itself.
unfoldable pub forward_prepare_ok :
    MySqlBackendState → Outcome MySqlPreparedStatement → Result AfterForward × MySqlBackendState
forward_prepare_ok state (err e, session) = (err e, with_session state session)
forward_prepare_ok state (ok _, session) = (
  ok (
      if session.pending_prepare_metadata_packets == 0
      then finish_prepare_after_forward
      else nothing_after_forward),
  with_session state session,
)

-- The branch for a statement that is being prepared.
unfoldable pub route_prepare : MySqlBackendState → Bytes → Result AfterForward × MySqlBackendState
route_prepare state payload =
    if is_some state.session.pending_prepared_statement_id
    then (if starts_with_byte 0xff payload
        then (ok fail_prepare_after_forward, state)
        else forward_metadata state
            (consume_statement_prepare_metadata state.session payload state.auth.capability_flags))
    else if starts_with_byte 0x00 payload
    then elim (parse_stmt_prepare_ok payload) [
      | err e ↦ (err e, state)
      | ok prepared ↦ forward_prepare_ok state (
          accept_statement_prepare_ok state.session prepared.statement_id prepared.parameter_count
            prepared.column_count (has_flag state.auth.capability_flags client_deprecate_eof))
    ]
    else if starts_with_byte 0xff payload
    then (ok fail_prepare_after_forward, state)
    else (
      err (mysql_error "Unexpected backend response to COM_STMT_PREPARE"),
      with_session state (fail_statement_prepare state.session),
    )

abbrev pub forward_response :
    MySqlBackendState → Outcome (Unit {0}) → Result AfterForward × MySqlBackendState
forward_response state (done, session) =
    (done >> ok nothing_after_forward, with_session state session)

-- The chain of tests in front of the write: what is pending, a ping, a reset, a change of the
-- database, a statement, or another command.
unfoldable pub route_pending :
    Bool
    → Bool
    → Bool
    → Bool
    → Bool
    → MySqlBackendState
    → Bytes
    → Result AfterForward × MySqlBackendState
route_pending true _ _ _ _ state payload =
    acknowledge state payload (complete_ping state.session payload)
route_pending false true _ _ _ state payload =
    acknowledge state payload (complete_statement_reset state.session payload)
route_pending false false true _ _ state payload =
    acknowledge state payload (complete_database_change state.session payload)
route_pending false false false true _ state payload = route_prepare state payload
route_pending false false false false true state payload =
    forward_response state
      (accept_command_response_packet state.session payload state.auth.capability_flags)
route_pending false false false false false state payload = (ok nothing_after_forward, state)

unfoldable pub route_command : MySqlBackendState → Bytes → Result AfterForward × MySqlBackendState
unfolding route_pending
route_command state payload =
    route_pending state.session.pending_ping (is_some state.session.pending_statement_reset_id)
      (is_some state.session.pending_database) (is_some state.session.pending_statement_sql)
      (is_some state.session.pending_command_response) state payload

-- The part behind the write.
unfoldable pub after_forward :
    AfterForward → MySqlBackendState → Result (Unit {0}) × MySqlBackendState
after_forward finish_prepare_after_forward state =
    let (done, session) = finish_statement_prepare_response state.session in
    (done, with_session state session)
after_forward fail_prepare_after_forward state =
    (ok tt, with_session state (fail_statement_prepare state.session))
after_forward nothing_after_forward state = (ok tt, state)

unfoldable pub after_authentication :
    MySqlBackendAuthPacket → MySqlBackendState → Bytes → Result (Unit {0}) × MySqlBackendState
after_authentication ok_packet state payload = finish_authentication state payload
after_authentication error_packet state payload = (ok tt, mark_closed state)
after_authentication _ state payload = (ok tt, state)

unfoldable pub route_authentication :
    MySqlBackendState
    → MySqlPacket
    → Result MySqlBackendAuthPacket × MySqlAuthState
    → Routed (Option MySqlBackendAuthPacket)
route_authentication state packet (err e, auth) = (err e, [], record state { auth = auth })
route_authentication state packet (ok packet_type, auth) =
    let (done, state') =
      after_authentication packet_type (record state { auth = auth }) packet.payload in
    (done >> ok (some packet_type), packet.raw, state')

unfoldable pub forward_command :
    MySqlPacket → Result AfterForward × MySqlBackendState → Routed (Option MySqlBackendAuthPacket)
forward_command packet (err e, state) = (err e, [], state)
forward_command packet (ok rest, state) =
    let (done, state') = after_forward rest state in (done >> ok none, packet.raw, state')

unfoldable pub route_phase :
    MySqlBackendPhase → MySqlPacket → MySqlBackendState → Routed (Option MySqlBackendAuthPacket)
route_phase closed packet state =
    (err (mysql_error "Backend packet received after MySQL connection closed"), [], state)
route_phase authentication packet state =
    route_authentication state packet (accept_backend_packet state.auth packet)
route_phase command_response packet state =
    forward_command packet (route_command state packet.payload)

unfoldable pub route_backend_packet :
    MySqlPacket → MySqlBackendState → Routed (Option MySqlBackendAuthPacket)
route_backend_packet packet state = route_phase state.phase packet state
