-- ===== src/MySql/Relay.antt =====
-- adapters/mysql/relay.py: what the relay does with the bytes of the backend and of the client. A
-- function returns its result or the exception that it raised, the state that it leaves and the
-- writes that it made, in their order. `state.auth` and `state.session` are the ones of the
-- backend's state, which the source shares.
pub mod Safe
pub mod Steps
pub mod Laws
use ohmydb_proxy.Prelude.{
  Bool, Bytes, List, Option, Result, Text, [], err, false, if◌then◌else◌, length, lit, none, not,
  ok, some, true, value_or, ℕ, ◌%◌, ◌++◌, ◌+◌, ◌>>=◌, ◌>>◌, ◌∷◌,
}
use ohmydb_proxy.Proxy.{ProxyOptions, Sent, to_backend, to_client}
use ohmydb_proxy.MySql.Packet.{MySqlLogicalMessage, MySqlPacket, build_error_packet}
use ohmydb_proxy.MySql.Command.{mysql_error}
use ohmydb_proxy.MySql.Framer.{MySqlPacketFramer}
use ohmydb_proxy.MySql.Framer
use ohmydb_proxy.MySql.Assembler.{MySqlLogicalMessageAssembler}
use ohmydb_proxy.MySql.Assembler
use ohmydb_proxy.MySql.Handshake.{MySqlHandshakeResponse, parse_handshake_response}
use ohmydb_proxy.MySql.Auth.{MySqlAuthState, accept_client_response, is_waiting}
use ohmydb_proxy.MySql.Auth
use ohmydb_proxy.MySql.Session.{MySqlSessionState}
use ohmydb_proxy.MySql.Session
use ohmydb_proxy.MySql.Backend.{
  MySqlBackendPhase, MySqlBackendState, authentication, closed, command_response, mark_closed,
  route_backend_packet, with_session,
}
use ohmydb_proxy.MySql.Dispatcher.{dispatch_authenticated_command}
use ohmydb_proxy.MySql.Dispatcher.Commands.{Dispatched, forwarded}

abbrev pub mysql_tls_error_code : ℕ
mysql_tls_error_code = 3159

pub record MySqlRelayState : Type 0 where
  pub client_framer : MySqlPacketFramer
  pub backend_framer : MySqlPacketFramer
  pub command_assembler : MySqlLogicalMessageAssembler
  pub backend : MySqlBackendState
  pub initial_backend_handshake_seen : Bool

-- The state in which `__post_init__` leaves a relay, from the parts that it made.
abbrev pub initial :
    Text
    → ℕ
    → ℕ
    → MySqlPacketFramer
    → MySqlPacketFramer
    → MySqlLogicalMessageAssembler
    → MySqlRelayState
initial database max_session_items max_session_state_bytes client_framer backend_framer assembler =
    record {
      client_framer = client_framer;
      backend_framer = backend_framer;
      command_assembler = assembler;
      backend = record {
        auth = Auth.new database;
        session = Session.new database max_session_items max_session_state_bytes;
        phase = authentication;
      };
      initial_backend_handshake_seen = false;
    }

-- MySqlRelayState(database, …) with its `__post_init__`.
unfoldable pub new : Text → ℕ → ℕ → ℕ → Result MySqlRelayState
new database max_packet_bytes max_session_items max_session_state_bytes = do
  client_framer ← Framer.new max_packet_bytes
  backend_framer ← Framer.new max_packet_bytes
  command_assembler ← Assembler.new max_packet_bytes
  ok (
      initial database max_session_items max_session_state_bytes client_framer backend_framer
        command_assembler)

abbrev pub Relayed : Type 0 → Type 0
Relayed A = Result A × MySqlRelayState × List Sent

-- The write of a routing, which is none when it wrote no bytes.
abbrev pub client_write : Bytes → List Sent
client_write [] = []
client_write (b ∷ bs) = to_client (b ∷ bs) ∷ []

-- A round of the loop of `process_backend_chunk`.
unfoldable pub backend_packet : MySqlRelayState → MySqlPacket → Relayed (Unit {0})
backend_packet state packet =
    if not state.initial_backend_handshake_seen
    then (ok tt, record state { initial_backend_handshake_seen = true }, to_client packet.raw ∷ [])
    else (let (result, written, backend) = route_backend_packet packet state.backend in
        (result >>= λ _. ok tt, record state { backend = backend }, client_write written))

-- What the relay does with the packet that answers a request for TLS.
abbrev pub refused : MySqlRelayState → Result Bytes → Relayed (Unit {0})
refused state (err e) = (err e, state, [])
refused state (ok packet) =
    (ok tt, record state { backend = mark_closed state.backend }, to_client packet ∷ [])

abbrev pub refuse_tls : MySqlRelayState → Option Text → ℕ → Relayed (Unit {0})
refuse_tls state failure_reason sequence_id = refused state (
    build_error_packet (value_or failure_reason (lit "MySQL TLS is unsupported"))
      ((sequence_id + 1) % 256) mysql_tls_error_code (lit "HY000"))

-- The first packet of the client behind its parsing, with the outcome of `accept_client_response`.
abbrev pub accept_response :
    MySqlRelayState
    → MySqlPacket
    → MySqlHandshakeResponse
    → Result (Unit {0}) × MySqlAuthState
    → Relayed (Unit {0})
accept_response state packet response (err e, auth) =
    (err e, record state { backend = record (state.backend) { auth = auth } }, [])
accept_response state packet response (ok _, auth) =
    if response.is_ssl_request
    then refuse_tls (record state { backend = record (state.backend) { auth = auth } })
        auth.failure_reason packet.sequence_id
    else (
      ok tt,
      record state {
        backend = record (state.backend) {
          auth = auth;
          session = record (state.backend.session) { database = auth.database };
        };
      },
      to_backend packet.raw ∷ [],
    )

-- The first packet of the client, with the outcome of its parsing.
abbrev pub after_parsing :
    MySqlRelayState → MySqlPacket → Result MySqlHandshakeResponse → Relayed (Unit {0})
after_parsing state packet (err e) = (err e, state, [])
after_parsing state packet (ok response) =
    accept_response state packet response (accept_client_response state.backend.auth response)

unfoldable pub client_response : MySqlRelayState → MySqlPacket → Relayed (Unit {0})
client_response state packet = after_parsing state packet (parse_handshake_response packet.payload)

-- The write of a dispatched message, if it made one.
abbrev pub after_dispatch : MySqlRelayState → Dispatched → Relayed (Unit {0})
after_dispatch state (ok (forwarded, sent), session) =
    (ok tt, record state { backend = with_session state.backend session }, sent ∷ [])
after_dispatch state (err e, session) =
    (err e, record state { backend = with_session state.backend session }, [])

module _ (float_repr : Bytes → Text) (resume : MySqlSessionState → MySqlSessionState)
    (opts : ProxyOptions) where
  -- What is done with the answer of the assembler.
  abbrev pub after_assembly :
      MySqlRelayState → Result (Option MySqlLogicalMessage) → Relayed (Unit {0})
  after_assembly state (err e) = (err e, state, [])
  after_assembly state (ok none) = (ok tt, state, [])
  after_assembly state (ok (some message)) =
      after_dispatch state
        (dispatch_authenticated_command float_repr resume opts message state.backend.session)

  abbrev pub command_packet : MySqlBackendPhase → MySqlRelayState → MySqlPacket → Relayed (Unit {0})
  command_packet authentication state packet = (ok tt, state, to_backend packet.raw ∷ [])
  command_packet closed state packet =
      (err (mysql_error "Client packet received after MySQL connection closed"), state, [])
  command_packet command_response state packet =
      let (message, assembler) = Assembler.push state.command_assembler packet in
      after_assembly (record state { command_assembler = assembler }) message

  -- A round of the loop of `process_client_chunk`.
  unfoldable pub client_packet : MySqlRelayState → MySqlPacket → Relayed (Unit {0})
  unfolding client_response
  client_packet state packet =
      if not state.initial_backend_handshake_seen
      then (err (mysql_error "Client data arrived before the backend handshake"), state, [])
      else if is_waiting state.backend.auth.phase
      then client_response state packet
      else command_packet state.backend.phase state packet

-- The loop over the packets of a chunk: an exception ends it.
unfoldable pub each_packet :
    (MySqlRelayState → MySqlPacket → Relayed (Unit {0}))
    → List MySqlPacket
    → Relayed (Unit {0})
    → Relayed (Unit {0})
each_packet process packets (err e, state, sent) = (err e, state, sent)
each_packet process [] (ok _, state, sent) = (ok tt, state, sent)
each_packet process (packet ∷ packets) (ok _, state, sent) =
    let (result, state', sent') = process state packet in
    each_packet process packets (result, state', sent ++ sent')

abbrev pub counted : ℕ → Relayed (Unit {0}) → Relayed ℕ
counted n (result, state, sent) = (result >>= λ _. ok n, state, sent)

abbrev pub process_packets :
    (MySqlRelayState → MySqlPacket → Relayed (Unit {0}))
    → MySqlRelayState
    → Result (List MySqlPacket)
    → Relayed ℕ
process_packets process state (err e) = (err e, state, [])
process_packets process state (ok packets) =
    counted (length packets) (each_packet process packets (ok tt, state, []))

unfoldable pub process_backend_chunk : MySqlRelayState → Bytes → Relayed ℕ
unfolding each_packet backend_packet
process_backend_chunk state chunk =
    let (packets, framer) = Framer.push state.backend_framer chunk in
    process_packets backend_packet (record state { backend_framer = framer }) packets

module _ (float_repr : Bytes → Text) (resume : MySqlSessionState → MySqlSessionState)
    (opts : ProxyOptions) where
  unfoldable pub process_client_chunk : MySqlRelayState → Bytes → Relayed ℕ
  unfolding each_packet client_packet
  process_client_chunk state chunk =
      let (packets, framer) = Framer.push state.client_framer chunk in
      process_packets (client_packet float_repr resume opts)
        (record state { client_framer = framer }) packets
