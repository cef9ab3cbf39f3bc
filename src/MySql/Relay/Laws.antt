-- ===== src/MySql/Relay/Laws.antt =====
-- What the relay of a MySQL connection may write, over all orders of the two sides' chunks and
-- packets.
use ohmydb_proxy.Prelude.{
  Bool, Bytes, List, Result, Text, [], arith, err, false, length, ok, refl, subst, true, ℕ, ◌++◌,
  ◌>>=◌, ◌∷◌, ◌≡◌,
}
use ohmydb_proxy.Proxy.{ProxyOptions, Sent}
use ohmydb_proxy.Proxy.Laws.{IsSilent, StaysSilent, backend_writes-append, IsSilent-append}
use ohmydb_proxy.MySql.Packet.{MySqlPacket}
use ohmydb_proxy.MySql.Framer
use ohmydb_proxy.MySql.Assembler
use ohmydb_proxy.MySql.Auth
use ohmydb_proxy.MySql.Session.{MySqlSessionState}
use ohmydb_proxy.MySql.Session.Reach.{new-IsWellFormed}
use ohmydb_proxy.MySql.Dispatcher.Laws.{Resumes}
use ohmydb_proxy.MySql.Relay
use ohmydb_proxy.MySql.Relay.{
  MySqlRelayState, Relayed, backend_packet, client_packet, counted, each_packet,
  process_backend_chunk, process_client_chunk, process_packets,
}
use ohmydb_proxy.MySql.Relay.Safe.{IsSafe, IsStep, backend_packet-IsStep, is_answered, same_backend}
use ohmydb_proxy.MySql.Relay.Steps.{client_packet-IsStep}

-- Silence over two steps.
StaysSilent-append :
    (a b c : Bool) (xs ys : List Sent)
    → StaysSilent a b xs
    → StaysSilent b c ys
    → StaysSilent a c (xs ++ ys)
StaysSilent-append a b true xs ys h k = tt
StaysSilent-append a true false xs ys h k = cc (k.0)
StaysSilent-append a false false xs ys h k = (h.0, backend_writes-append xs ys h.1 k.1)

-- Every round of the loop is a step, so the whole loop is one.
each_packet-IsStep :
    (process : MySqlRelayState → MySqlPacket → Relayed (Unit {0}))
    → ((state : MySqlRelayState) (packet : MySqlPacket)
        → IsSafe (ok tt) state
        → IsStep state (process state packet))
    → (start : MySqlRelayState) (packets : List MySqlPacket) (r : Relayed (Unit {0}))
    → IsStep start r
    → IsStep start (each_packet process packets r)
unfolding each_packet
each_packet-IsStep process h start packets (err e, state, sent) i = i
each_packet-IsStep process h start [] (ok _, state, sent) i = i
each_packet-IsStep process h start (packet ∷ packets) (ok _, state, sent) i =
    let next = h state packet i.safe in
    each_packet-IsStep process h start packets _ (record {
      safe = next.safe;
      silent =
          StaysSilent-append (is_answered start) (is_answered state) _ sent _ i.silent next.silent;
    })

-- A chunk's outcome without the number of its packets.
abbrev pub uncounted : Relayed ℕ → Relayed (Unit {0})
uncounted (result, state, sent) = (result >>= λ _. ok tt, state, sent)

counted-IsStep :
    (start : MySqlRelayState) (n : ℕ) (r : Relayed (Unit {0}))
    → IsStep start r
    → IsStep start (uncounted (counted n r))
counted-IsStep start n (ok _, state, sent) i = record { safe = i.safe; silent = i.silent }
counted-IsStep start n (err e, state, sent) i = record { safe = i.safe; silent = i.silent }

process_packets-IsStep :
    (process : MySqlRelayState → MySqlPacket → Relayed (Unit {0}))
    → ((state : MySqlRelayState) (packet : MySqlPacket)
        → IsSafe (ok tt) state
        → IsStep state (process state packet))
    → (start framed : MySqlRelayState) (packets : Result (List MySqlPacket))
    → framed.backend ≡ start.backend
    → IsSafe (ok tt) start
    → IsStep start (uncounted (process_packets process framed packets))
process_packets-IsStep process h start framed (err x) e s =
    same_backend start framed (err x) [] e refl s
process_packets-IsStep process h start framed (ok packets) e s =
    counted-IsStep start (length packets) _ (
      each_packet-IsStep process h start packets (ok tt, framed, [])
        (same_backend start framed (ok tt) [] e refl s))

module _ (float_repr : Bytes → Text) (resume : MySqlSessionState → MySqlSessionState)
    (opts : ProxyOptions) where
  -- The steps of a relay: a whole chunk of a side, or, where the two sides take turns within their
  -- chunks, one packet of a side.
  pub data Step (state : MySqlRelayState) : Relayed (Unit {0}) → Type 0 where
    backend_chunk : (chunk : Bytes) → Step state (uncounted (process_backend_chunk state chunk))
    client_chunk :
        (chunk : Bytes)
        → Step state (uncounted (process_client_chunk float_repr resume opts state chunk))
    one_backend_packet : (packet : MySqlPacket) → Step state (backend_packet state packet)
    one_client_packet :
        (packet : MySqlPacket) → Step state (client_packet float_repr resume opts state packet)

  -- What steps lead to, with everything that was written so far; an exception ends the relay.
  pub data Reachable (state : MySqlRelayState) : Relayed (Unit {0}) → Type 0 where
    begun : Reachable state (ok tt, state, [])
    stepped :
        {mid after : MySqlRelayState} {before sent : List Sent} {result : Result (Unit {0})}
        → Reachable state (ok tt, mid, before)
        → Step mid (result, after, sent)
        → Reachable state (result, after, before ++ sent)

  Step-IsStep :
      Resumes resume
      → (state : MySqlRelayState) (r : Relayed (Unit {0})) → Step state r
      → IsSafe (ok tt) state
      → IsStep state r
  unfolding process_backend_chunk process_client_chunk
  Step-IsStep w state r (backend_chunk chunk) s =
      process_packets-IsStep backend_packet backend_packet-IsStep state _ _ refl s
  Step-IsStep w state r (client_chunk chunk) s =
      process_packets-IsStep (client_packet float_repr resume opts)
        (client_packet-IsStep float_repr resume w opts) state _ _ refl s
  Step-IsStep w state r (one_backend_packet packet) s = backend_packet-IsStep state packet s
  Step-IsStep w state r (one_client_packet packet) s =
      client_packet-IsStep float_repr resume w opts state packet s

  reached-IsSafe :
      Resumes resume
      → (state : MySqlRelayState) (r : Relayed (Unit {0})) → Reachable state r
      → IsSafe (ok tt) state
      → is_answered state ≡ false
      → IsSafe r.0 r.1 × IsSilent (is_answered r.1) r.2
  reached-IsSafe w state r begun s u = (s, rw u refl)
  reached-IsSafe w state r (stepped {mid} {after} {before} {sent} reach st) s u =
      let (safe, silent) = reached-IsSafe w state (ok tt, mid, before) reach s u in
      let i = Step-IsStep w mid _ st safe in
      (i.safe, IsSilent-append (is_answered mid) (is_answered after) before sent i.silent silent)

-- A predicate of the result, if there is one.
abbrev Every : {A : Type 0} → (A → Type 0) → Result A → Type 0
Every P (ok a) = P a
Every P (err e) = Unit {0}

Every->>= :
    {A B : Type 0} (P : B → Type 0) (r : Result A) (f : A → Result B)
    → ((a : A) → Every P (f a))
    → Every P (r >>= f)
Every->>= P (ok a) f h = h a
Every->>= P (err e) f h = tt

new-IsSafe :
    (database : Text) (a b c : ℕ)
    → Every (λ state. IsSafe (ok tt) state × (is_answered state ≡ false)) (Relay.new database a b c)
unfolding Relay.new Auth.new
new-IsSafe database a b c = Every->>= _ (Framer.new a) _ (λ x. Every->>= _ (Framer.new a) _ (λ y.
    Every->>= _ (Assembler.new a) _ (λ z. (
      record {
        sound = record {
          session_kept = new-IsWellFormed database b c;
          authenticated_first = ground arith;
        };
        shut = ground arith;
      },
      refl,
    ))))

-- Over every order of chunks and packets of the two sides from a new relay, if the session in which
-- a pipelined execution goes on is well formed: the session is well formed, the backend's answers
-- count as answers to commands only on an authenticated connection, a connection that asked for TLS
-- is closed unless an exception ended the relay, and nothing was written to the backend as long as
-- the client has not answered the handshake or has asked for TLS.
pub relay-IsSafe :
    (float_repr : Bytes → Text) (resume : MySqlSessionState → MySqlSessionState)
    (opts : ProxyOptions) (database : Text)
    (max_packet_bytes max_session_items max_session_state_bytes : ℕ) (state : MySqlRelayState)
    (r : Relayed (Unit {0}))
    → Resumes resume
    → Relay.new database max_packet_bytes max_session_items max_session_state_bytes ≡ ok state
    → Reachable float_repr resume opts state r
    → IsSafe r.0 r.1 × IsSilent (is_answered r.1) r.2
relay-IsSafe float_repr resume opts database a b c state r w e reach =
    let (s, u) =
      subst (Every (λ s. IsSafe (ok tt) s × (is_answered s ≡ false))) e
        (new-IsSafe database a b c) in
    reached-IsSafe float_repr resume opts w state r reach s u
