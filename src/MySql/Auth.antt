-- ===== src/MySql/Auth.antt =====
-- adapters/mysql/auth.py: the authentication phase.
pub mod Laws
use ohmydb_proxy.Prelude.{
  Bool, Option, Result, Text, [], err, false, if◌then◌else◌, index, is_empty, lit,
  mysql_protocol_error, none, not, ok, raise_if, some, true, ℕ, ◌++◌, ◌==◌, ◌>>=◌, ◌>>◌, ◌∷◌,
}
use ohmydb_proxy.MySql.Packet.{MySqlPacket}
use ohmydb_proxy.MySql.Command.{mysql_error}
use ohmydb_proxy.MySql.Handshake.{MySqlHandshakeResponse}

pub data MySqlAuthPhase : Type 0 where
  waiting_for_client_response : MySqlAuthPhase
  authenticating : MySqlAuthPhase
  authenticated_phase : MySqlAuthPhase
  failed : MySqlAuthPhase
  tls_rejected : MySqlAuthPhase

abbrev pub phase_value : MySqlAuthPhase → Text
phase_value waiting_for_client_response = lit "waiting_for_client_response"
phase_value authenticating = lit "authenticating"
phase_value authenticated_phase = lit "authenticated"
phase_value failed = lit "failed"
phase_value tls_rejected = lit "tls_rejected"

pub data MySqlBackendAuthPacket : Type 0 where
  ok_packet : MySqlBackendAuthPacket
  error_packet : MySqlBackendAuthPacket
  auth_switch : MySqlBackendAuthPacket
  auth_more_data : MySqlBackendAuthPacket
  other_packet : MySqlBackendAuthPacket

pub record MySqlAuthState : Type 0 where
  pub database : Text
  pub phase : MySqlAuthPhase
  pub username : Option Text
  pub capability_flags : ℕ
  pub auth_plugin : Option Text
  pub failure_reason : Option Text

-- MySqlAuthState(database=…)
unfoldable pub new : Text → MySqlAuthState
new database = record {
  database = database;
  phase = waiting_for_client_response;
  username = none;
  capability_flags = 0;
  auth_plugin = none;
  failure_reason = none;
}

abbrev pub is_authenticated : MySqlAuthPhase → Bool
is_authenticated authenticated_phase = true
is_authenticated _ = false

abbrev pub is_waiting : MySqlAuthPhase → Bool
is_waiting waiting_for_client_response = true
is_waiting _ = false

abbrev pub is_authenticating : MySqlAuthPhase → Bool
is_authenticating authenticating = true
is_authenticating _ = false

-- `if response.database: self.database = response.database`
abbrev pub chosen_database : Option Text → Text → Text
chosen_database none old = old
chosen_database (some []) old = old
chosen_database (some (c ∷ cs)) old = c ∷ cs

unfoldable pub accept_client_response :
    MySqlAuthState → MySqlHandshakeResponse → Result (Unit {0}) × MySqlAuthState
accept_client_response self response =
    if not (is_waiting self.phase)
    then (
      err (
          mysql_protocol_error (
            lit "Client handshake response arrived in an invalid authentication phase: "
            ++ phase_value self.phase)),
      self,
    )
    else if response.is_ssl_request
    then (
      ok tt,
      record self {
        capability_flags = response.capability_flags;
        phase = tls_rejected;
        failure_reason =
            some (lit "MySQL TLS is unsupported because encrypted SQL cannot be inspected safely");
      },
    )
    else (
      ok tt,
      record self {
        capability_flags = response.capability_flags;
        username = some response.username;
        auth_plugin = response.auth_plugin;
        database = chosen_database response.database self.database;
        phase = authenticating;
      },
    )

-- The tests of the first byte.
unfoldable pub packet_of_marker : ℕ → MySqlBackendAuthPacket
packet_of_marker marker =
    if marker == 0x00
    then ok_packet
    else if marker == 0xff
    then error_packet
    else if marker == 0xfe
    then auth_switch
    else if marker == 0x01
    then auth_more_data
    else other_packet

unfoldable pub classify_backend_auth_packet : MySqlPacket → Result MySqlBackendAuthPacket
unfolding packet_of_marker
classify_backend_auth_packet packet =
    raise_if (is_empty packet.payload)
      (mysql_error "Backend authentication packet has an empty payload")
    >> (index packet.payload 0 >>= λ marker. ok (packet_of_marker marker))

-- The state after a packet of that kind.
abbrev pub after_packet : MySqlBackendAuthPacket → MySqlAuthState → MySqlAuthState
after_packet ok_packet self = record self { phase = authenticated_phase; failure_reason = none }
after_packet error_packet self = record self {
  phase = failed;
  failure_reason = some (lit "Backend rejected MySQL authentication");
}
after_packet _ self = self

unfoldable pub accept_backend_packet :
    MySqlAuthState → MySqlPacket → Result MySqlBackendAuthPacket × MySqlAuthState
unfolding classify_backend_auth_packet
accept_backend_packet self packet =
    if not (is_authenticating self.phase)
    then (
      err (
          mysql_protocol_error (
            lit "Backend authentication packet arrived in an invalid authentication phase: "
            ++ phase_value self.phase)),
      self,
    )
    else elim (classify_backend_auth_packet packet) [
      | err e ↦ (err e, self)
      | ok packet_type ↦ (ok packet_type, after_packet packet_type self)
    ]
