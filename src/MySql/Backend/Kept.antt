-- ===== src/MySql/Backend/Kept.antt =====
-- What the routing of a backend packet leaves of the authentication and of the phase.
use ohmydb_proxy.Prelude.{
  Bool, Bool-cases, Bytes, Result, Result-cases, bit_or, err, false, inl, inr, is_some, ok, refl,
  sym, true, ◌∙◌, ◌≡◌,
}
use ohmydb_proxy.MySql.Packet.{MySqlPacket}
use ohmydb_proxy.MySql.Auth.{
  MySqlAuthPhase, MySqlAuthState, MySqlBackendAuthPacket, accept_backend_packet, after_packet,
  auth_more_data, auth_switch, authenticated_phase, authenticating, classify_backend_auth_packet,
  error_packet, failed, is_authenticated, is_authenticating, ok_packet, other_packet, tls_rejected,
  waiting_for_client_response,
}
use ohmydb_proxy.MySql.Command.{parse_stmt_prepare_ok, starts_with_byte}
use ohmydb_proxy.MySql.Response.{has_flag, parse_ok_packet_status}
use ohmydb_proxy.MySql.Constants.{client_protocol_41, client_transactions}
use ohmydb_proxy.MySql.Session.{MySqlPreparedStatement, Outcome}
use ohmydb_proxy.MySql.Session.Prepare.{}
use ohmydb_proxy.MySql.Session.Respond.{}
use ohmydb_proxy.MySql.Backend.{
  AfterForward, MySqlBackendPhase, MySqlBackendState, acknowledge, after_authentication,
  after_forward, authentication, closed, command_response, fail_prepare_after_forward,
  finish_authentication, finish_prepare_after_forward, finish_update, forward_command,
  forward_metadata, forward_prepare_ok, mark_authenticated, mark_closed, nothing_after_forward,
  route_authentication, route_backend_packet, route_command, route_pending, route_phase,
  route_prepare, update_transaction_status_from_ok, with_session,
}

status_auth :
    (state : MySqlBackendState) (payload : Bytes)
    → (update_transaction_status_from_ok state payload).1.auth ≡ state.auth
unfolding update_transaction_status_from_ok
status_auth state payload =
    elim (Bool-cases
      (has_flag state.auth.capability_flags (bit_or client_protocol_41 client_transactions))) [
        | inr h ↦ rw h refl
        | inl h ↦ elim (Result-cases (parse_ok_packet_status payload state.auth.capability_flags)) [
          | inr (e, r) ↦ rw (h, r) refl
          | inl (status, r) ↦ rw (h, r) refl
        ]
      ]

acknowledge_auth :
    (state : MySqlBackendState) (payload : Bytes) (o : Outcome Bool)
    → (acknowledge state payload o).1.auth ≡ state.auth
unfolding acknowledge
acknowledge_auth state payload (err e, session) = refl
acknowledge_auth state payload (ok b, session) = elim (Bool-cases (starts_with_byte 0x00 payload)) [
  | inl h ↦ rw h (status_auth (with_session state session) payload)
  | inr h ↦ rw h refl
]

metadata_auth :
    (state : MySqlBackendState) (o : Outcome Bool) → (forward_metadata state o).1.auth ≡ state.auth
unfolding forward_metadata
metadata_auth state (err e, session) = refl
metadata_auth state (ok b, session) = refl

announced_auth :
    (state : MySqlBackendState) (o : Outcome MySqlPreparedStatement)
    → (forward_prepare_ok state o).1.auth ≡ state.auth
unfolding forward_prepare_ok
announced_auth state (err e, session) = refl
announced_auth state (ok b, session) = refl

prepare_auth :
    (state : MySqlBackendState) (payload : Bytes)
    → (route_prepare state payload).1.auth ≡ state.auth
unfolding route_prepare
prepare_auth state payload =
    elim (Bool-cases (is_some state.session.pending_prepared_statement_id)) [
      | inl i ↦ elim (Bool-cases (starts_with_byte 0xff payload)) [
        | inl h ↦ rw (i, h) refl
        | inr h ↦ rw (i, h) (metadata_auth state _)
      ]
      | inr i ↦ elim (Bool-cases (starts_with_byte 0x00 payload)) [
        | inl z ↦ elim (Result-cases (parse_stmt_prepare_ok payload)) [
          | inr (e, r) ↦ rw (i, z, r) refl
          | inl (prepared, r) ↦ rw (i, z, r) (announced_auth state _)
        ]
        | inr z ↦ elim (Bool-cases (starts_with_byte 0xff payload)) [
          | inl h ↦ rw (i, z, h) refl
          | inr h ↦ rw (i, z, h) refl
        ]
      ]
    ]

pending_auth :
    (a b c d e : Bool) (state : MySqlBackendState) (payload : Bytes)
    → (route_pending a b c d e state payload).1.auth ≡ state.auth
unfolding route_pending
pending_auth true b c d e state payload = acknowledge_auth state payload _
pending_auth false true c d e state payload = acknowledge_auth state payload _
pending_auth false false true d e state payload = acknowledge_auth state payload _
pending_auth false false false true e state payload = prepare_auth state payload
pending_auth false false false false true state payload = refl
pending_auth false false false false false state payload = refl

forward_auth :
    (rest : AfterForward) (state : MySqlBackendState)
    → (after_forward rest state).1.auth ≡ state.auth
unfolding after_forward
forward_auth finish_prepare_after_forward state = refl
forward_auth fail_prepare_after_forward state = refl
forward_auth nothing_after_forward state = refl

command_auth :
    (packet : MySqlPacket) (o : Result AfterForward × MySqlBackendState)
    → (forward_command packet o).2.auth ≡ o.1.auth
unfolding forward_command
command_auth packet (err e, state) = refl
command_auth packet (ok rest, state) = forward_auth rest state

mark_auth : (state : MySqlBackendState) → (mark_authenticated state).1.auth ≡ state.auth
unfolding mark_authenticated
mark_auth state = elim (Bool-cases (is_authenticated state.auth.phase)) [
  | inl h ↦ rw h refl
  | inr h ↦ rw h refl
]

finish_auth : (r : Result (Unit {0}) × MySqlBackendState) → (finish_update r).1.auth ≡ r.1.auth
unfolding finish_update
finish_auth (err e, state) = refl
finish_auth (ok _, state) = mark_auth state

behind_auth :
    (t : MySqlBackendAuthPacket) (state : MySqlBackendState) (payload : Bytes)
    → (after_authentication t state payload).1.auth ≡ state.auth
unfolding after_authentication mark_closed finish_authentication
behind_auth ok_packet state payload =
    finish_auth (update_transaction_status_from_ok state payload) ∙ status_auth state payload
behind_auth error_packet state payload = refl
behind_auth auth_switch state payload = refl
behind_auth auth_more_data state payload = refl
behind_auth other_packet state payload = refl

authentication_auth :
    (state : MySqlBackendState) (packet : MySqlPacket)
    (o : Result MySqlBackendAuthPacket × MySqlAuthState)
    → (route_authentication state packet o).2.auth ≡ o.1
unfolding route_authentication
authentication_auth state packet (err e, auth) = refl
authentication_auth state packet (ok t, auth) =
    behind_auth t (record state { auth = auth }) packet.payload

-- The client's answer is missing, or it asked for TLS.
abbrev pub is_unanswered : MySqlAuthPhase → Bool
is_unanswered waiting_for_client_response = true
is_unanswered tls_rejected = true
is_unanswered _ = false

abbrev pub is_tls : MySqlAuthPhase → Bool
is_tls tls_rejected = true
is_tls _ = false

authenticating_answered :
    (phase : MySqlAuthPhase)
    → is_authenticating phase ≡ true
    → (is_unanswered phase ≡ false) × (is_tls phase ≡ false)
authenticating_answered waiting_for_client_response h = cc
authenticating_answered authenticating h = (refl, refl)
authenticating_answered authenticated_phase h = cc
authenticating_answered failed h = cc
authenticating_answered tls_rejected h = cc

-- Two phases that agree on whether an answer is there and whether it asked for TLS.
abbrev pub Agree : MySqlAuthPhase → MySqlAuthPhase → Type 0
Agree p q = (is_unanswered p ≡ is_unanswered q) × (is_tls p ≡ is_tls q)

after_packet-Agree :
    (t : MySqlBackendAuthPacket) (self : MySqlAuthState)
    → is_authenticating self.phase ≡ true
    → Agree (after_packet t self).phase self.phase
after_packet-Agree ok_packet self h =
    let (u, t) = authenticating_answered self.phase h in (sym u, sym t)
after_packet-Agree error_packet self h =
    let (u, t) = authenticating_answered self.phase h in (sym u, sym t)
after_packet-Agree auth_switch self h = (refl, refl)
after_packet-Agree auth_more_data self h = (refl, refl)
after_packet-Agree other_packet self h = (refl, refl)

accept-Agree :
    (self : MySqlAuthState) (packet : MySqlPacket)
    → Agree (accept_backend_packet self packet).1.phase self.phase
unfolding accept_backend_packet
accept-Agree self packet = elim (Bool-cases (is_authenticating self.phase)) [
  | inr h ↦ rw h (refl, refl)
  | inl h ↦ elim (Result-cases (classify_backend_auth_packet packet)) [
    | inr (e, r) ↦ rw (h, r) (refl, refl)
    | inl (t, r) ↦ rw (h, r) (after_packet-Agree t self h)
  ]
]

phase-Agree :
    (phase : MySqlBackendPhase) (packet : MySqlPacket) (state : MySqlBackendState)
    → Agree (route_phase phase packet state).2.auth.phase state.auth.phase
unfolding route_phase route_command
phase-Agree closed packet state = (refl, refl)
phase-Agree authentication packet state =
    rw (authentication_auth state packet (accept_backend_packet state.auth packet))
      (accept-Agree state.auth packet)
phase-Agree command_response packet state =
    rw
      (
        command_auth packet (route_command state packet.payload),
        pending_auth _ _ _ _ _ state packet.payload,
      )
      (refl, refl)

-- A backend packet neither answers for the client nor takes its answer back.
pub route_backend_packet-Agree :
    (packet : MySqlPacket) (state : MySqlBackendState)
    → Agree (route_backend_packet packet state).2.auth.phase state.auth.phase
unfolding route_backend_packet
route_backend_packet-Agree packet state = phase-Agree state.phase packet state

abbrev pub is_closed : MySqlBackendPhase → Bool
is_closed closed = true
is_closed _ = false

-- A closed connection stays closed.
pub route_backend_packet_closed :
    (packet : MySqlPacket) (state : MySqlBackendState)
    → is_closed state.phase ≡ true
    → is_closed (route_backend_packet packet state).2.phase ≡ true
unfolding route_backend_packet
route_backend_packet_closed packet state h = by_phase state.phase refl h
  where
    by_phase :
        (phase : MySqlBackendPhase)
        → state.phase ≡ phase
        → is_closed phase ≡ true
        → is_closed (route_phase phase packet state).2.phase ≡ true
    by_phase closed e c = unfold route_phase in rw e refl
    by_phase authentication e c = cc
    by_phase command_response e c = cc
