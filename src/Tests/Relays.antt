-- ===== src/Tests/Relays.antt =====
-- Runs and instances for the relay of a MySQL connection.
use ohmydb_proxy.Prelude.{
  [], decode_utf8, encode_utf8, from_bytes_le, lit, none, ok, refl, to_bytes_le, true, ◌++◌, ◌∷◌,
  ◌≡◌,
}
use ohmydb_proxy.Policy.FailSafe.{strict}
use ohmydb_proxy.Proxy.{to_backend, to_client}
use ohmydb_proxy.Proxy.Laws.{IsSilent}
use ohmydb_proxy.MySql.Packet.{MySqlPacket}
use ohmydb_proxy.MySql.Framer
use ohmydb_proxy.MySql.Assembler
use ohmydb_proxy.MySql.Relay
use ohmydb_proxy.MySql.Relay.{MySqlRelayState, Relayed, backend_packet, client_packet, initial}
use ohmydb_proxy.MySql.Backend.Kept.{is_closed}
use ohmydb_proxy.MySql.Relay.Safe.{IsSafe, is_answered}
use ohmydb_proxy.MySql.Relay.Laws.{
  begun, one_backend_packet, one_client_packet, relay-IsSafe, stepped,
}
use ohmydb_proxy.Tests.Decisions.{options}
use ohmydb_proxy.Tests.Dispatch.{resumed, zero_text}
use ohmydb_proxy.Tests.Logins.{fixed_part, login}

abbrev fresh : MySqlRelayState
fresh =
    initial (lit "shop") 2 100 (record { buffer = []; max_packet_bytes = 1000 })
      (record { buffer = []; max_packet_bytes = 1000 })
      (record {
        max_message_bytes = 1000;
        payload_parts = [];
        raw_parts = [];
        first_sequence_id = none;
        last_sequence_id = none;
        packet_count = 0;
      })

fresh_runs : Relay.new (lit "shop") 1000 2 100 ≡ ok fresh
unfolding Relay.new Framer.new Assembler.new
fresh_runs = refl

-- The greeting of the backend, and the client's request for TLS.
abbrev greeting : MySqlPacket
greeting = record { sequence_id = 0; payload = 10 ∷ []; raw = 1 ∷ 0 ∷ 0 ∷ 0 ∷ 10 ∷ [] }

abbrev request : MySqlPacket
request = record {
  sequence_id = 1;
  payload = fixed_part 0x01 0x0a;
  raw = 32 ∷ 0 ∷ 0 ∷ 1 ∷ fixed_part 0x01 0x0a;
}

abbrev login_packet : MySqlPacket
login_packet = record { sequence_id = 1; payload = login; raw = 38 ∷ 0 ∷ 0 ∷ 1 ∷ login }

abbrev greeted : Relayed (Unit {0})
greeted = backend_packet fresh greeting

greeted_runs :
    greeted
    ≡ (ok tt, record fresh { initial_backend_handshake_seen = true }, to_client greeting.raw ∷ [])
unfolding backend_packet
greeted_runs = refl

-- A request for TLS closes the relay; a login is forwarded.
refused_runs :
    is_closed (client_packet zero_text resumed (options strict) greeted.1 request).1.backend.phase
    ≡ true
unfolding client_packet backend_packet ohmydb_proxy.MySql.Auth.new
    ohmydb_proxy.MySql.Handshake.parse_handshake_response from_bytes_le
    ohmydb_proxy.MySql.Auth.accept_client_response ohmydb_proxy.MySql.Packet.build_error_packet lit
    to_bytes_le encode_utf8 ohmydb_proxy.MySql.Backend.mark_closed
refused_runs = refl

login_runs :
    (client_packet zero_text resumed (options strict) greeted.1 login_packet).2
    ≡ to_backend login_packet.raw ∷ []
unfolding client_packet backend_packet ohmydb_proxy.MySql.Auth.new
    ohmydb_proxy.MySql.Handshake.parse_handshake_response from_bytes_le decode_utf8
    ohmydb_proxy.MySql.Auth.accept_client_response
login_runs = refl

abbrev answered : Relayed (Unit {0})
answered = client_packet zero_text resumed (options strict) greeted.1 login_packet

relay-IsSafe_example :
    IsSafe answered.0 answered.1
    × IsSilent (is_answered answered.1) ((([] ++ greeted.2)) ++ answered.2)
unfolding backend_packet
relay-IsSafe_example =
    relay-IsSafe zero_text resumed (options strict) (lit "shop") 1000 2 100 fresh
      (answered.0, answered.1, (([] ++ greeted.2)) ++ answered.2) (λ s w. w) fresh_runs
      (stepped (stepped begun (one_backend_packet greeting)) (one_client_packet login_packet))
