-- ===== src/MySql/Relay/Steps.antt =====
-- What a step of the relay of a MySQL connection keeps and writes.
use ohmydb_proxy.Prelude.{
  Bool, Bytes, List, Option, Result, Text, [], ap, arith, err, false, none, not, ok, refl, some,
  sym, true, ◌+◌, ◌∷◌, ◌≡◌, ◌≤◌,
}
use ohmydb_proxy.Proxy.{ProxyOptions, Sent}
use ohmydb_proxy.MySql.Packet.{MySqlLogicalMessage, MySqlPacket}
use ohmydb_proxy.MySql.Assembler
use ohmydb_proxy.MySql.Auth.{
  MySqlAuthPhase, authenticated_phase, authenticating, failed, is_authenticated, is_waiting,
  tls_rejected, waiting_for_client_response,
}
use ohmydb_proxy.MySql.Session.{MySqlSessionState}
use ohmydb_proxy.MySql.Session.Invariant.{IsWellFormed, count_of}
use ohmydb_proxy.MySql.Backend.{
  MySqlBackendPhase, authentication, closed, command_response, with_session,
}
use ohmydb_proxy.MySql.Backend.Laws.{IsSound-session, is_command_response}
use ohmydb_proxy.MySql.Backend.Kept.{is_closed, is_tls, is_unanswered}
use ohmydb_proxy.MySql.Dispatcher.Commands.{Dispatched, forwarded}
use ohmydb_proxy.MySql.Dispatcher.Laws.{Resumes, dispatch_authenticated_command-IsWellFormed}
use ohmydb_proxy.MySql.Relay.{
  MySqlRelayState, after_assembly, after_dispatch, client_packet, command_packet,
}
use ohmydb_proxy.MySql.Relay.Safe.{
  IsSafe, IsStep, IsStep-if, answered_phase, client_response-IsStep, same_backend,
}

answering_phase :
    (state : MySqlRelayState)
    → is_command_response state.backend.phase ≡ true
    → IsSafe (ok tt) state
    → is_unanswered state.backend.auth.phase ≡ false
answering_phase state h s =
    authenticated_answered state.backend.auth.phase (ground (arith, h, s.sound.authenticated_first))
  where
    authenticated_answered :
        (phase : MySqlAuthPhase) → is_authenticated phase ≡ true → is_unanswered phase ≡ false
    authenticated_answered waiting_for_client_response e = cc
    authenticated_answered authenticating e = cc
    authenticated_answered authenticated_phase e = refl
    authenticated_answered failed e = cc
    authenticated_answered tls_rejected e = cc

-- A state that answers commands, in a step that changes the session alone.
with_session-IsStep :
    (before state : MySqlRelayState) (result : Result (Unit {0})) (session : MySqlSessionState)
    (sent : List Sent)
    → before.backend ≡ state.backend
    → is_unanswered state.backend.auth.phase ≡ false
    → IsSafe (ok tt) state
    → IsWellFormed session
    → IsStep before (result, record state { backend = with_session state.backend session }, sent)
with_session-IsStep before state result session sent e u s w = record {
  safe = record {
    sound = IsSound-session state.backend session s.sound w;
    shut = ground (arith, s.shut);
  };
  silent = rw u tt;
}

after_dispatch-IsStep :
    (before state : MySqlRelayState) (d : Dispatched)
    → before.backend ≡ state.backend
    → is_unanswered state.backend.auth.phase ≡ false
    → IsSafe (ok tt) state
    → IsWellFormed d.1
    → IsStep before (after_dispatch state d)
after_dispatch-IsStep before state (ok (forwarded, sent), session) e u s w =
    with_session-IsStep before state (ok tt) session (sent ∷ []) e u s w
after_dispatch-IsStep before state (err x, session) e u s w =
    with_session-IsStep before state (err x) session [] e u s w

-- The steps of a relay whose backend connection and client connection stand in `float_repr`,
-- `resume` and `opts`.
module _ (float_repr : Bytes → Text) (resume : MySqlSessionState → MySqlSessionState)
    (resumes : Resumes resume) (opts : ProxyOptions) where
  after_assembly-IsStep :
      (before state : MySqlRelayState) (message : Result (Option MySqlLogicalMessage))
      → before.backend ≡ state.backend
      → is_unanswered state.backend.auth.phase ≡ false
      → IsSafe (ok tt) before
      → IsSafe (ok tt) state
      → IsStep before (after_assembly float_repr resume opts state message)
  after_assembly-IsStep before state (err x) e u b s =
      same_backend before state (err x) [] (sym e) refl b
  after_assembly-IsStep before state (ok none) e u b s =
      same_backend before state (ok tt) [] (sym e) refl b
  after_assembly-IsStep before state (ok (some message)) e u b s =
      after_dispatch-IsStep before state _ e u s (
        dispatch_authenticated_command-IsWellFormed float_repr resume resumes opts message
          state.backend.session s.sound.session_kept)

  command_packet-IsStep :
      (phase : MySqlBackendPhase) (state : MySqlRelayState) (packet : MySqlPacket)
      → phase ≡ state.backend.phase
      → is_waiting state.backend.auth.phase ≡ false
      → IsSafe (ok tt) state
      → IsStep state (command_packet float_repr resume opts phase state packet)
  command_packet-IsStep authentication state packet e h s =
      let tls : is_tls state.backend.auth.phase ≡ false =
        open_phase (is_tls state.backend.auth.phase) state.backend.phase e s.shut in
      let u = answered_phase state.backend.auth.phase h tls in record { safe = s; silent = rw u tt }
    where
      open_phase :
          (tls : Bool) (phase : MySqlBackendPhase)
          → authentication ≡ phase
          → count_of tls ≤ count_of (is_closed phase) + 0
          → tls ≡ false
      open_phase tls phase e h =
          let c : is_closed phase ≡ false = ap is_closed (sym e) in ground (arith, c, h)
  command_packet-IsStep closed state packet e h s = same_backend state state _ [] refl refl s
  command_packet-IsStep command_response state packet e h s =
      let after : MySqlRelayState = record state {
        command_assembler = (Assembler.push state.command_assembler packet).1;
      } in
      after_assembly-IsStep state after _ refl
        (answering_phase state (ap is_command_response (sym e)) s) s
        record { sound = s.sound; shut = s.shut }

  pub client_packet-IsStep :
      (state : MySqlRelayState) (packet : MySqlPacket)
      → IsSafe (ok tt) state
      → IsStep state (client_packet float_repr resume opts state packet)
  unfolding client_packet
  client_packet-IsStep state packet s =
      IsStep-if state (not state.initial_backend_handshake_seen) _ _
        (λ _. same_backend state state _ [] refl refl s)
        (λ _.
          IsStep-if state (is_waiting state.backend.auth.phase) _ _
            (λ h. client_response-IsStep state packet h s)
            (λ h. command_packet-IsStep state.backend.phase state packet refl h s))
