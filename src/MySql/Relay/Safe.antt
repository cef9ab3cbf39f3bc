-- ===== src/MySql/Relay/Safe.antt =====
-- What a backend packet and the client's answer to the handshake keep and write.
use ohmydb_proxy.Prelude.{
  Bool, Bool-cases, Bytes, List, Result, Text, [], arith, err, false, if◌then◌else◌, inl, inr, not,
  ok, refl, true, ◌+◌, ◌∷◌, ◌≡◌, ◌≤◌,
}
use ohmydb_proxy.Proxy.{Sent, to_client}
use ohmydb_proxy.Proxy.Laws.{StaysSilent, backend_writes, no_writes_silent}
use ohmydb_proxy.MySql.Packet.{MySqlPacket}
use ohmydb_proxy.MySql.Handshake.{MySqlHandshakeResponse, parse_handshake_response}
use ohmydb_proxy.MySql.Auth.{
  MySqlAuthPhase, accept_client_response, authenticated_phase, authenticating, failed,
  is_authenticated, is_waiting, tls_rejected, waiting_for_client_response,
}
use ohmydb_proxy.MySql.Session.{MySqlSessionState}
use ohmydb_proxy.MySql.Session.Invariant.{IsWellFormed, count_of}
use ohmydb_proxy.MySql.Backend.{MySqlBackendState, mark_closed, route_backend_packet}
use ohmydb_proxy.MySql.Backend.Laws.{
  IsSound, IsSound-session, auth-IsSound, is_command_response, route_backend_packet-IsSound,
}
use ohmydb_proxy.MySql.Backend.Kept.{
  is_closed, is_tls, is_unanswered, route_backend_packet-Agree, route_backend_packet_closed,
}
use ohmydb_proxy.MySql.Relay.{
  MySqlRelayState, Relayed, after_parsing, backend_packet, client_response, client_write, refused,
}

-- The client answered the handshake, and not with a request for TLS.
abbrev pub is_answered : MySqlRelayState → Bool
is_answered state = not (is_unanswered state.backend.auth.phase)

abbrev pub is_raised : Result (Unit {0}) → Bool
is_raised (ok _) = false
is_raised (err e) = true

-- The backend's state is sound, and a connection that asked for TLS is closed, unless an exception
-- ended it.
pub record IsSafe (result : Result (Unit {0})) (state : MySqlRelayState) : Type 0 where
  pub sound : IsSound state.backend
  pub shut :
      count_of (is_tls state.backend.auth.phase)
      ≤ count_of (is_closed state.backend.phase) + count_of (is_raised result)

-- What a step of the relay from a state gives.
pub record IsStep (state : MySqlRelayState) (r : Relayed (Unit {0})) : Type 0 where
  pub safe : IsSafe r.0 r.1
  pub silent : StaysSilent (is_answered state) (is_answered r.1) r.2

pub IsStep-if :
    (state : MySqlRelayState) (b : Bool) (x y : Relayed (Unit {0}))
    → (b ≡ true → IsStep state x)
    → (b ≡ false → IsStep state y)
    → IsStep state (if b then x else y)
IsStep-if state true x y h k = h refl
IsStep-if state false x y h k = k refl

-- A step that leaves the backend's state as it is and writes nothing to the backend.
pub same_backend :
    (state after : MySqlRelayState) (result : Result (Unit {0})) (sent : List Sent)
    → after.backend ≡ state.backend
    → backend_writes sent ≡ []
    → IsSafe (ok tt) state
    → IsStep state (result, after, sent)
same_backend state after result sent e w s = record {
  safe = record { sound = rw e s.sound; shut = rw e (ground (arith, s.shut)) };
  silent = rw e (no_writes_silent (is_answered state) sent w);
}

client_write_silent : (written : Bytes) → backend_writes (client_write written) ≡ []
client_write_silent [] = refl
client_write_silent (b ∷ bs) = refl

routed_shut :
    (backend : MySqlBackendState) (packet : MySqlPacket) (result : Result (Unit {0}))
    → count_of (is_tls backend.auth.phase) ≤ count_of (is_closed backend.phase) + 0
    → count_of (is_tls (route_backend_packet packet backend).2.auth.phase)
      ≤ count_of (is_closed (route_backend_packet packet backend).2.phase)
        + count_of (is_raised result)
routed_shut backend packet result h =
    let agree = route_backend_packet-Agree packet backend in
    ground (arith, agree.1, route_backend_packet_closed packet backend)

-- The backend's packets are written to the client alone.
pub backend_packet-IsStep :
    (state : MySqlRelayState) (packet : MySqlPacket)
    → IsSafe (ok tt) state
    → IsStep state (backend_packet state packet)
unfolding backend_packet
backend_packet-IsStep state packet s =
    IsStep-if state (not state.initial_backend_handshake_seen) _ _
      (λ _. same_backend state _ (ok tt) (to_client packet.raw ∷ []) refl refl s)
      (λ _. record {
        safe = record {
          sound = route_backend_packet-IsSound packet state.backend s.sound;
          shut = routed_shut state.backend packet _ s.shut;
        };
        silent = rw (route_backend_packet-Agree packet state.backend).0 (
            no_writes_silent (is_answered state) _
              (client_write_silent (route_backend_packet packet state.backend).1));
      })

waiting_phase :
    (phase : MySqlAuthPhase)
    → is_waiting phase ≡ true
    → (is_unanswered phase ≡ true) × (is_authenticated phase ≡ false)
waiting_phase waiting_for_client_response h = (refl, refl)
waiting_phase authenticating h = cc
waiting_phase authenticated_phase h = cc
waiting_phase failed h = cc
waiting_phase tls_rejected h = cc

pub answered_phase :
    (phase : MySqlAuthPhase)
    → is_waiting phase ≡ false
    → is_tls phase ≡ false
    → is_unanswered phase ≡ false
answered_phase waiting_for_client_response h k = cc
answered_phase authenticating h k = refl
answered_phase authenticated_phase h k = refl
answered_phase failed h k = refl
answered_phase tls_rejected h k = cc

tls_phase : (phase : MySqlAuthPhase) → phase ≡ tls_rejected → is_unanswered phase ≡ true
tls_phase phase e = rw e refl

-- A request for TLS is answered to the client, and the connection is closed.
refused-IsStep :
    (before state : MySqlRelayState) (packet : Result Bytes)
    → is_answered before ≡ false
    → is_unanswered state.backend.auth.phase ≡ true
    → IsSound state.backend
    → IsStep before (refused state packet)
unfolding mark_closed
refused-IsStep before state (err e) h u s = record {
  safe = record { sound = s; shut = ground arith };
  silent = rw u (h, refl);
}
refused-IsStep before state (ok packet) h u s = record {
  safe = record {
    sound = record { session_kept = s.session_kept; authenticated_first = ground arith };
    shut = ground arith;
  };
  silent = rw u (h, refl);
}

renamed :
    (session : MySqlSessionState) (database : Text)
    → IsWellFormed session
    → IsWellFormed (record session { database = database })
renamed session database w = record {
  registered = w.registered;
  sized = w.sized;
  exclusive = w.exclusive;
  counted = w.counted;
  announced_pending = w.announced_pending;
  columns = w.columns;
}

after_parsing-IsStep :
    (state : MySqlRelayState) (packet : MySqlPacket) (parsed : Result MySqlHandshakeResponse)
    → is_waiting state.backend.auth.phase ≡ true
    → IsSafe (ok tt) state
    → IsStep state (after_parsing state packet parsed)
unfolding accept_client_response
after_parsing-IsStep state packet (err e) h s = same_backend state state (err e) [] refl refl s
after_parsing-IsStep state packet (ok response) h s =
    let (u, a) = waiting_phase state.backend.auth.phase h in
    let early : is_command_response state.backend.phase ≡ false =
      ground (arith, a, s.sound.authenticated_first) in
    elim (Bool-cases response.is_ssl_request) [
      | inl l ↦
          rw (h, l)
            (refused-IsStep state _ _ (rw u refl) refl (auth-IsSound state.backend _ s.sound early))
      | inr l ↦
          rw (h, l)
            (record {
              safe = record {
                sound =
                    IsSound-session _ _ (auth-IsSound state.backend _ s.sound early)
                      (renamed state.backend.session _ s.sound.session_kept);
                shut = ground arith;
              };
              silent = tt;
            })
    ]

pub client_response-IsStep :
    (state : MySqlRelayState) (packet : MySqlPacket)
    → is_waiting state.backend.auth.phase ≡ true
    → IsSafe (ok tt) state
    → IsStep state (client_response state packet)
unfolding client_response
client_response-IsStep state packet h s =
    after_parsing-IsStep state packet (parse_handshake_response packet.payload) h s
