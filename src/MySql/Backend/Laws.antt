-- ===== src/MySql/Backend/Laws.antt =====
-- What the routing of a backend packet keeps and writes.
use ohmydb_proxy.Prelude.{
  Bool, Bool-cases, Bytes, Error, Option, Result, Result-cases, [], arith, bit_or, err, false, inl,
  inr, is_mysql_error, is_some, ok, refl, true, ◌≡◌, ◌≤◌, ◌⊎◌,
}
use ohmydb_proxy.MySql.Constants.{client_deprecate_eof, client_protocol_41, client_transactions}
use ohmydb_proxy.MySql.Packet.{MySqlPacket}
use ohmydb_proxy.MySql.Command.{parse_stmt_prepare_ok, starts_with_byte}
use ohmydb_proxy.MySql.Response.{has_flag, parse_ok_packet_status}
use ohmydb_proxy.MySql.Auth.{
  MySqlAuthState, MySqlBackendAuthPacket, accept_backend_packet, auth_more_data, auth_switch,
  error_packet, is_authenticated, ok_packet, other_packet,
}
use ohmydb_proxy.MySql.Session.{MySqlPreparedStatement, MySqlSessionState, Outcome}
use ohmydb_proxy.MySql.Session.Prepare.{}
use ohmydb_proxy.MySql.Session.Acknowledge.{}
use ohmydb_proxy.MySql.Session.Respond.{}
use ohmydb_proxy.MySql.Session.Invariant.{IsWellFormed, count_of}
use ohmydb_proxy.MySql.Session.Preserve.{
  complete_database_change-IsWellFormed, complete_ping-IsWellFormed,
  complete_statement_reset-IsWellFormed,
}
use ohmydb_proxy.MySql.Session.PreparePreserve.{
  accept_statement_prepare_ok-IsWellFormed, consume_statement_prepare_metadata-IsWellFormed,
  fail_statement_prepare-IsWellFormed, finish_statement_prepare_response-IsWellFormed,
}
use ohmydb_proxy.MySql.Session.RespondPreserve.{
  accept_command_response_packet-IsWellFormed, update_transaction_status-IsWellFormed,
}
use ohmydb_proxy.MySql.Backend.{
  AfterForward, MySqlBackendPhase, MySqlBackendState, Routed, acknowledge, after_authentication,
  after_forward, authentication, closed, command_response, fail_prepare_after_forward,
  finish_authentication, finish_prepare_after_forward, finish_update, forward_command,
  forward_metadata, forward_prepare_ok, mark_authenticated, mark_closed, nothing_after_forward,
  route_authentication, route_backend_packet, route_command, route_pending, route_phase,
  route_prepare, update_transaction_status_from_ok, with_session,
}

abbrev pub is_command_response : MySqlBackendPhase → Bool
is_command_response command_response = true
is_command_response _ = false

-- The session is well formed, and commands are answered only on an authenticated connection.
pub record IsSound (state : MySqlBackendState) : Type 0 where
  pub session_kept : IsWellFormed state.session
  pub authenticated_first :
      count_of (is_command_response state.phase) ≤ count_of (is_authenticated state.auth.phase)

pub IsSound-session :
    (state : MySqlBackendState) (session : MySqlSessionState)
    → IsSound state
    → IsWellFormed session
    → IsSound (with_session state session)
IsSound-session state session v w = record {
  session_kept = w;
  authenticated_first = v.authenticated_first;
}

update_transaction_status_from_ok-IsSound :
    (state : MySqlBackendState) (payload : Bytes)
    → IsSound state
    → IsSound (update_transaction_status_from_ok state payload).1
unfolding update_transaction_status_from_ok
update_transaction_status_from_ok-IsSound state payload v =
    elim (Bool-cases
      (has_flag state.auth.capability_flags (bit_or client_protocol_41 client_transactions))) [
        | inr h ↦ rw h v
        | inl h ↦ elim (Result-cases (parse_ok_packet_status payload state.auth.capability_flags)) [
          | inr (e, r) ↦ rw (h, r) v
          | inl (status, r) ↦
              rw (h, r)
                (IsSound-session state _ v
                  (update_transaction_status-IsWellFormed state.session status v.session_kept))
        ]
      ]

acknowledge-IsSound :
    (state : MySqlBackendState) (payload : Bytes) (o : Outcome Bool)
    → IsSound state
    → IsWellFormed o.1
    → IsSound (acknowledge state payload o).1
unfolding acknowledge
acknowledge-IsSound state payload (err e, session) v w = IsSound-session state session v w
acknowledge-IsSound state payload (ok b, session) v w =
    elim (Bool-cases (starts_with_byte 0x00 payload)) [
      | inl h ↦ rw h (
          update_transaction_status_from_ok-IsSound (with_session state session) payload
            (IsSound-session state session v w))
      | inr h ↦ rw h (IsSound-session state session v w)
    ]

forward_metadata-IsSound :
    (state : MySqlBackendState) (o : Outcome Bool)
    → IsSound state
    → IsWellFormed o.1
    → IsSound (forward_metadata state o).1
unfolding forward_metadata
forward_metadata-IsSound state (err e, session) v w = elim (Bool-cases (is_mysql_error e)) [
  | inl h ↦ rw h (IsSound-session state _ v (fail_statement_prepare-IsWellFormed session w))
  | inr h ↦ rw h (IsSound-session state session v w)
]
forward_metadata-IsSound state (ok b, session) v w = IsSound-session state session v w

forward_prepare_ok-IsSound :
    (state : MySqlBackendState) (o : Outcome MySqlPreparedStatement)
    → IsSound state
    → IsWellFormed o.1
    → IsSound (forward_prepare_ok state o).1
unfolding forward_prepare_ok
forward_prepare_ok-IsSound state (err e, session) v w = IsSound-session state session v w
forward_prepare_ok-IsSound state (ok b, session) v w = IsSound-session state session v w

route_prepare-IsSound :
    (state : MySqlBackendState) (payload : Bytes)
    → IsSound state
    → IsSound (route_prepare state payload).1
unfolding route_prepare
route_prepare-IsSound state payload v =
    elim (Bool-cases (is_some state.session.pending_prepared_statement_id)) [
      | inl i ↦ elim (Bool-cases (starts_with_byte 0xff payload)) [
        | inl h ↦ rw (i, h) v
        | inr h ↦
            rw (i, h)
              (forward_metadata-IsSound state _ v (
                consume_statement_prepare_metadata-IsWellFormed state.session payload
                  state.auth.capability_flags v.session_kept))
      ]
      | inr i ↦ elim (Bool-cases (starts_with_byte 0x00 payload)) [
        | inl z ↦ elim (Result-cases (parse_stmt_prepare_ok payload)) [
          | inr (e, r) ↦ rw (i, z, r) v
          | inl (prepared, r) ↦
              rw (i, z, r)
                (forward_prepare_ok-IsSound state _ v (
                  accept_statement_prepare_ok-IsWellFormed state.session prepared.statement_id
                    prepared.parameter_count prepared.column_count
                    (has_flag state.auth.capability_flags client_deprecate_eof) v.session_kept))
        ]
        | inr z ↦ elim (Bool-cases (starts_with_byte 0xff payload)) [
          | inl h ↦ rw (i, z, h) v
          | inr h ↦
              rw (i, z, h)
                (IsSound-session state _ v
                  (fail_statement_prepare-IsWellFormed state.session v.session_kept))
        ]
      ]
    ]

route_pending-IsSound :
    (a b c d e : Bool) (state : MySqlBackendState) (payload : Bytes)
    → IsSound state
    → IsSound (route_pending a b c d e state payload).1
unfolding route_pending
route_pending-IsSound true b c d e state payload v =
    acknowledge-IsSound state payload _ v
      (complete_ping-IsWellFormed state.session payload v.session_kept)
route_pending-IsSound false true c d e state payload v =
    acknowledge-IsSound state payload _ v
      (complete_statement_reset-IsWellFormed state.session payload v.session_kept)
route_pending-IsSound false false true d e state payload v =
    acknowledge-IsSound state payload _ v
      (complete_database_change-IsWellFormed state.session payload v.session_kept)
route_pending-IsSound false false false true e state payload v =
    route_prepare-IsSound state payload v
route_pending-IsSound false false false false true state payload v = IsSound-session state _ v (
    accept_command_response_packet-IsWellFormed state.session payload state.auth.capability_flags
      v.session_kept)
route_pending-IsSound false false false false false state payload v = v

after_forward-IsSound :
    (rest : AfterForward) (state : MySqlBackendState)
    → IsSound state
    → IsSound (after_forward rest state).1
unfolding after_forward
after_forward-IsSound finish_prepare_after_forward state v =
    IsSound-session state _ v
      (finish_statement_prepare_response-IsWellFormed state.session v.session_kept)
after_forward-IsSound fail_prepare_after_forward state v =
    IsSound-session state _ v (fail_statement_prepare-IsWellFormed state.session v.session_kept)
after_forward-IsSound nothing_after_forward state v = v

mark_authenticated-IsSound :
    (state : MySqlBackendState) → IsSound state → IsSound (mark_authenticated state).1
unfolding mark_authenticated
mark_authenticated-IsSound state v = elim (Bool-cases (is_authenticated state.auth.phase)) [
  | inl h ↦ rw h (record { session_kept = v.session_kept; authenticated_first = ground (arith, h) })
  | inr h ↦ rw h v
]

finish_update-IsSound :
    (r : Result (Unit {0}) × MySqlBackendState) → IsSound r.1 → IsSound (finish_update r).1
unfolding finish_update
finish_update-IsSound (err e, state) v = v
finish_update-IsSound (ok _, state) v = mark_authenticated-IsSound state v

finish_authentication-IsSound :
    (state : MySqlBackendState) (payload : Bytes)
    → IsSound state
    → IsSound (finish_authentication state payload).1
unfolding finish_authentication
finish_authentication-IsSound state payload v =
    finish_update-IsSound (update_transaction_status_from_ok state payload)
      (update_transaction_status_from_ok-IsSound state payload v)

-- While the phase is that of the authentication, its state may change.
pub auth-IsSound :
    (state : MySqlBackendState) (auth : MySqlAuthState)
    → IsSound state
    → is_command_response state.phase ≡ false
    → IsSound (record state { auth = auth })
auth-IsSound state auth v h = record {
  session_kept = v.session_kept;
  authenticated_first = ground (arith, h);
}

after_authentication-IsSound :
    (t : MySqlBackendAuthPacket) (state : MySqlBackendState) (payload : Bytes)
    → IsSound state
    → IsSound (after_authentication t state payload).1
unfolding after_authentication mark_closed
after_authentication-IsSound ok_packet state payload v =
    finish_authentication-IsSound state payload v
after_authentication-IsSound error_packet state payload v = record {
  session_kept = v.session_kept;
  authenticated_first = omega arith;
}
after_authentication-IsSound auth_switch state payload v = v
after_authentication-IsSound auth_more_data state payload v = v
after_authentication-IsSound other_packet state payload v = v

route_authentication-IsSound :
    (state : MySqlBackendState) (packet : MySqlPacket)
    (o : Result MySqlBackendAuthPacket × MySqlAuthState)
    → IsSound state
    → is_command_response state.phase ≡ false
    → IsSound (route_authentication state packet o).2
unfolding route_authentication
route_authentication-IsSound state packet (err e, auth) v h = auth-IsSound state auth v h
route_authentication-IsSound state packet (ok t, auth) v h =
    after_authentication-IsSound t (record state { auth = auth }) packet.payload
      (auth-IsSound state auth v h)

forward_command-IsSound :
    (packet : MySqlPacket) (o : Result AfterForward × MySqlBackendState)
    → IsSound o.1
    → IsSound (forward_command packet o).2
unfolding forward_command
forward_command-IsSound packet (err e, state) v = v
forward_command-IsSound packet (ok rest, state) v = after_forward-IsSound rest state v

route_phase-IsSound :
    (phase : MySqlBackendPhase) (packet : MySqlPacket) (state : MySqlBackendState)
    → state.phase ≡ phase
    → IsSound state
    → IsSound (route_phase phase packet state).2
unfolding route_phase route_command
route_phase-IsSound closed packet state e v = v
route_phase-IsSound authentication packet state e v =
    route_authentication-IsSound state packet (accept_backend_packet state.auth packet) v
      (ground (arith, e))
route_phase-IsSound command_response packet state e v =
    forward_command-IsSound packet _ (route_pending-IsSound _ _ _ _ _ state packet.payload v)

-- Routing a backend packet, whatever it holds and whether the routing returns or raises, keeps the
-- session well formed and answers no command on a connection that is not authenticated.
pub route_backend_packet-IsSound :
    (packet : MySqlPacket) (state : MySqlBackendState)
    → IsSound state
    → IsSound (route_backend_packet packet state).2
unfolding route_backend_packet
route_backend_packet-IsSound packet state v = route_phase-IsSound state.phase packet state refl v

-- The packet's bytes were written, or nothing was and the routing raised.
abbrev pub IsWritten : Bytes → Routed (Option MySqlBackendAuthPacket) → Type 0
IsWritten raw o = (o.1 ≡ raw) ⊎ ((o.1 ≡ []) × ((e : Error) × (o.0 ≡ err e)))

route_authentication-IsWritten :
    (state : MySqlBackendState) (packet : MySqlPacket)
    (o : Result MySqlBackendAuthPacket × MySqlAuthState)
    → IsWritten packet.raw (route_authentication state packet o)
unfolding route_authentication
route_authentication-IsWritten state packet (err e, auth) = inr (refl, (_, refl))
route_authentication-IsWritten state packet (ok t, auth) = inl refl

forward_command-IsWritten :
    (packet : MySqlPacket) (o : Result AfterForward × MySqlBackendState)
    → IsWritten packet.raw (forward_command packet o)
unfolding forward_command
forward_command-IsWritten packet (err e, state) = inr (refl, (_, refl))
forward_command-IsWritten packet (ok rest, state) = inl refl

route_phase-IsWritten :
    (phase : MySqlBackendPhase) (packet : MySqlPacket) (state : MySqlBackendState)
    → IsWritten packet.raw (route_phase phase packet state)
unfolding route_phase
route_phase-IsWritten closed packet state = inr (refl, (_, refl))
route_phase-IsWritten authentication packet state = route_authentication-IsWritten state packet _
route_phase-IsWritten command_response packet state = forward_command-IsWritten packet _

-- The routing of a backend packet has written the packet's raw bytes to the client, or has raised an
-- exception without writing anything.
pub route_backend_packet-IsWritten :
    (packet : MySqlPacket) (state : MySqlBackendState)
    → IsWritten packet.raw (route_backend_packet packet state)
unfolding route_backend_packet
route_backend_packet-IsWritten packet state = route_phase-IsWritten state.phase packet state
