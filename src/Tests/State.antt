-- ===== src/Tests/State.antt =====
-- Runs and instances for the session, the authentication and the routing of backend packets.
use ohmydb_proxy.Prelude.{Error, Text, [], arith, err, lit, none, refl, some, true, ◌∷◌, ◌≡◌}
use ohmydb_proxy.MySql.Packet.{MySqlPacket}
use ohmydb_proxy.MySql.Command.{starts_with_byte}
use ohmydb_proxy.MySql.Handshake.{MySqlHandshakeResponse}
use ohmydb_proxy.MySql.Auth.{
  MySqlAuthState, accept_backend_packet, accept_client_response, authenticating, is_authenticated,
  is_authenticating, tls_rejected, waiting_for_client_response,
}
use ohmydb_proxy.MySql.Auth.Laws.{accept_backend_packet-authenticated, tls_rejected-refused}
use ohmydb_proxy.MySql.Session.{MySqlSessionState, new as new_session}
use ohmydb_proxy.MySql.Session.Acknowledge.{}
use ohmydb_proxy.MySql.Session.Operations.{after, complete_database, start, start_ping, step}
use ohmydb_proxy.MySql.Session.Invariant.{IsWellFormed}
use ohmydb_proxy.MySql.Session.Limits.{after-database}
use ohmydb_proxy.MySql.Session.Reach.{new-IsWellFormed, reachable-IsWellFormed}
use ohmydb_proxy.MySql.Backend.{MySqlBackendState, authentication, route_backend_packet}
use ohmydb_proxy.MySql.Backend.Laws.{
  IsSound, IsWritten, route_backend_packet-IsSound, route_backend_packet-IsWritten,
}

abbrev pub shop : MySqlSessionState
shop = new_session (lit "shop") 2 100

-- A session that awaits the answer to a ping.
reachable-IsWellFormed_example :
    let s = after start_ping shop in
    (s.max_prepared_statements ≡ 2) × (s.max_state_bytes ≡ 100) × IsWellFormed s
reachable-IsWellFormed_example =
    reachable-IsWellFormed (lit "shop") 2 100 (after start_ping shop) (step start_ping start)

abbrev select_one : Text
select_one = lit "SELECT ?"

-- A session that waits for the change of its database to `test`.
abbrev changing : MySqlSessionState
changing = record shop { pending_database = some (lit "test") }

after-database_example : (after (complete_database (0 ∷ [])) changing).database ≡ lit "test"
after-database_example = after-database (complete_database (0 ∷ [])) changing

abbrev waiting_auth : MySqlAuthState
waiting_auth = record {
  database = lit "shop";
  phase = waiting_for_client_response;
  username = none;
  capability_flags = 0;
  auth_plugin = none;
  failure_reason = none;
}

abbrev deciding_auth : MySqlAuthState
deciding_auth = record waiting_auth { phase = authenticating; username = some (lit "root") }

abbrev ok_bytes : MySqlPacket
ok_bytes = record { sequence_id = 2; payload = 0 ∷ []; raw = 1 ∷ 0 ∷ 0 ∷ 2 ∷ 0 ∷ [] }

abbrev connecting : MySqlBackendState
connecting = record { auth = deciding_auth; session = shop; phase = authentication }

connecting-IsSound : IsSound connecting
connecting-IsSound = record {
  session_kept = new-IsWellFormed (lit "shop") 2 100;
  authenticated_first = omega arith;
}

route_backend_packet-IsSound_example : IsSound (route_backend_packet ok_bytes connecting).2
route_backend_packet-IsSound_example =
    route_backend_packet-IsSound ok_bytes connecting connecting-IsSound

route_backend_packet-IsWritten_example :
    IsWritten (1 ∷ 0 ∷ 0 ∷ 2 ∷ 0 ∷ []) (route_backend_packet ok_bytes connecting)
route_backend_packet-IsWritten_example = route_backend_packet-IsWritten ok_bytes connecting

authenticated_runs : is_authenticated (accept_backend_packet deciding_auth ok_bytes).1.phase ≡ true
unfolding accept_backend_packet
authenticated_runs = refl

accept_backend_packet-authenticated_example :
    (is_authenticating deciding_auth.phase ≡ true) × (starts_with_byte 0x00 (0 ∷ []) ≡ true)
accept_backend_packet-authenticated_example =
    accept_backend_packet-authenticated deciding_auth ok_bytes refl authenticated_runs

abbrev ssl_request : MySqlHandshakeResponse
ssl_request = record {
  capability_flags = 0x800;
  username = [];
  database = none;
  auth_plugin = none;
  is_ssl_request = true;
}

tls_rejected-refused_example :
    let rejected = (accept_client_response waiting_auth ssl_request).1 in
    (rejected.phase ≡ tls_rejected)
    × ((accept_backend_packet rejected ok_bytes).1 ≡ rejected)
    × ((e : Error) × ((accept_backend_packet rejected ok_bytes).0 ≡ err e))
tls_rejected-refused_example = tls_rejected-refused waiting_auth ssl_request ok_bytes refl refl
