-- ===== src/Postgres/Connection/Steps.antt =====
-- What a step of a PostgreSQL connection keeps and writes.
use ohmydb_proxy.Prelude.{
  All, Bool, Bool-cases, Bytes, List, Option, Result, Result-cases, Text, [], err, false,
  if◌then◌else◌, inl, inr, is_empty, none, ok, refl, some, subst, sym, true, ◌++◌, ◌∷◌, ◌≡◌,
}
use ohmydb_proxy.Prelude.Dict.{Dict}
use ohmydb_proxy.Proxy.Laws.{StaysSilent, backend_writes, no_writes_silent}
use ohmydb_proxy.Proxy.{ProxyOptions, Sent, to_backend, to_client}
use ohmydb_proxy.Postgres.Protocol.{Message, is_negotiation_request, parse_ready_for_query_status}
use ohmydb_proxy.Postgres.Framer
use ohmydb_proxy.Postgres.Framer.Laws.{IsFrame, push-IsFrame}
use ohmydb_proxy.Framing.Laws.{AllFound}
use ohmydb_proxy.Postgres.Startup
use ohmydb_proxy.Postgres.Startup.{parse_startup_params}
use ohmydb_proxy.Postgres.State.{ConnectionState, state_bytes, update_transaction_status}
use ohmydb_proxy.Postgres.State.Limits.{IsBounded, update_transaction_status-IsBounded}
use ohmydb_proxy.Postgres.Handler.{Handled, is_type}
use ohmydb_proxy.Postgres.Handler.Laws.{Forwards, IsPermitted, Only}
use ohmydb_proxy.Postgres.Handler.Recovery.{Leaves}
use ohmydb_proxy.Postgres.Connection.{
  Connection, Turn, after_backend_push, after_push, after_startup, closed, database_of,
  empty_startup, forward_chunk, handled, pipe_backend, read_client, start, track,
}

-- Why a connection may write to the backend: before the startup is past, a StartupMessage with
-- readable parameters that asks for no encryption; behind it, the next message of those that were
-- framed and are not handled yet, which has the type and the payload that its bytes hold, and is
-- permitted in the session's state, which is bounded.
pub data IsSent (opts : ProxyOptions) (self : Connection) (raw : Bytes) : Type 0 where
  startup :
      (params : Dict Text)
      → self.past_startup ≡ false
      → is_negotiation_request raw ≡ false
      → parse_startup_params raw ≡ some (ok params)
      → IsSent opts self raw
  message :
      (msg : Message) (rest : List Message)
      → self.past_startup ≡ true
      → self.messages ≡ msg ∷ rest
      → raw ≡ msg.raw
      → IsFrame msg
      → IsBounded self.state
      → IsPermitted opts self.state msg
      → IsSent opts self raw

-- Every write to the backend meets a predicate.
abbrev pub ToBackend : (Bytes → Type 0) → List Sent → Type 0
ToBackend P [] = Unit {0}
ToBackend P (to_client packet ∷ sent) = ToBackend P sent
ToBackend P (to_backend packet ∷ sent) = P packet × ToBackend P sent

pub ToBackend-append :
    (P : Bytes → Type 0) (xs ys : List Sent)
    → ToBackend P xs
    → ToBackend P ys
    → ToBackend P (xs ++ ys)
ToBackend-append P [] ys hx hy = hy
ToBackend-append P (to_client packet ∷ xs) ys hx hy = ToBackend-append P xs ys hx hy
ToBackend-append P (to_backend packet ∷ xs) ys hx hy = (hx.0, ToBackend-append P xs ys hx.1 hy)

-- No message waits before the startup.
abbrev Waits : Bool → List Message → Type 0
Waits true messages = Unit {0}
Waits false messages = messages ≡ []

pub record IsSound (self : Connection) : Type 0 where
  pub bounded : IsBounded self.state
  pub waits : Waits self.past_startup self.messages
  pub framed : All IsFrame self.messages

-- What every step from a connection gives.
pub record IsStep (opts : ProxyOptions) (self : Connection) (t : Turn) : Type 0 where
  pub sound : IsSound t.0
  pub silent : StaysSilent self.past_startup t.0.past_startup t.1
  pub allowed : ToBackend (IsSent opts self) t.1

no_writes_allowed :
    (P : Bytes → Type 0) (sent : List Sent) → backend_writes sent ≡ [] → ToBackend P sent
no_writes_allowed P [] h = tt
no_writes_allowed P (to_client packet ∷ sent) h = no_writes_allowed P sent h
no_writes_allowed P (to_backend packet ∷ sent) h = cc

Waits-nil : (b : Bool) → Waits b []
Waits-nil true = tt
Waits-nil false = refl

-- A step that leaves the startup as it is and writes nothing to the backend.
quiet :
    (opts : ProxyOptions) (self : Connection) (after : Connection) (sent : List Sent)
    → after.past_startup ≡ self.past_startup
    → backend_writes sent ≡ []
    → IsSound after
    → IsStep opts self (after, sent)
quiet opts self after sent same none_sent s = record {
  sound = s;
  silent = rw same (no_writes_silent self.past_startup sent none_sent);
  allowed = no_writes_allowed (IsSent opts self) sent none_sent;
}

named-IsBounded :
    (state : ConnectionState) (name : Text)
    → IsBounded state
    → IsBounded (record state { database = name })
unfolding state_bytes
named-IsBounded state name v = record {
  statements_distinct = v.statements_distinct;
  portals_distinct = v.portals_distinct;
  statements = v.statements;
  portals = v.portals;
  bytes = v.bytes;
}

closed-IsSound : (self : Connection) → IsSound self → IsSound (closed self)
closed-IsSound self s = record {
  bounded = s.bounded;
  waits = Waits-nil self.past_startup;
  framed = tt;
}

closed-IsStep :
    (opts : ProxyOptions) (self base : Connection) (sent : List Sent)
    → base.past_startup ≡ self.past_startup
    → backend_writes sent ≡ []
    → IsBounded base.state
    → IsStep opts self (closed base, sent)
closed-IsStep opts self base sent same none_sent b =
    quiet opts self (closed base) sent same none_sent
      (record { bounded = b; waits = Waits-nil base.past_startup; framed = tt })

start-IsStep :
    (opts : ProxyOptions) (self base : Connection) (connected : Bool) (raw : Bytes)
    (params : Option (Result (Dict Text)))
    → base.past_startup ≡ self.past_startup
    → self.past_startup ≡ false
    → IsSound base
    → is_negotiation_request raw ≡ false
    → parse_startup_params raw ≡ params
    → IsStep opts self (start base connected raw params)
start-IsStep opts self base true raw (some (ok params)) same early s n p = record {
  sound = record {
    bounded = named-IsBounded base.state (database_of params) s.bounded;
    waits = tt;
    framed = s.framed;
  };
  silent = tt;
  allowed = (startup params early n p, tt);
}
start-IsStep opts self base false raw (some (ok params)) same early s n p =
    closed-IsStep opts self
      (record base { state = record (base.state) { database = database_of params } }) [] same refl
      (named-IsBounded base.state (database_of params) s.bounded)
start-IsStep opts self base connected raw (some (err e)) same early s n p =
    closed-IsStep opts self base [] same refl s.bounded
start-IsStep opts self base connected raw none same early s n p =
    closed-IsStep opts self base [] same refl s.bounded

after_startup-IsStep :
    (opts : ProxyOptions) (self base : Connection) (connected : Bool)
    (packet : Result (Option Bytes))
    → base.past_startup ≡ self.past_startup
    → self.past_startup ≡ false
    → IsSound base
    → IsStep opts self (after_startup base connected packet)
unfolding after_startup
after_startup-IsStep opts self base connected (err e) same early s =
    closed-IsStep opts self base [] same refl s.bounded
after_startup-IsStep opts self base connected (ok none) same early s =
    quiet opts self base [] same refl s
after_startup-IsStep opts self base connected (ok (some raw)) same early s =
    elim (Bool-cases (is_negotiation_request raw)) [
      | inl n ↦ rw n (
          quiet opts self
            (record base { startup_framer = empty_startup base.startup_framer.max_message_bytes })
            (to_client (b'N' ∷ []) ∷ []) same refl
            (record { bounded = s.bounded; waits = s.waits; framed = s.framed }))
      | inr n ↦
          rw n (
            start-IsStep opts self base connected raw (parse_startup_params raw) same early s n
              refl)
    ]

after_push-IsStep :
    (opts : ProxyOptions) (self base : Connection) (messages : Result (List Message))
    → base.past_startup ≡ self.past_startup
    → base.past_startup ≡ true
    → AllFound IsFrame messages
    → IsSound base
    → IsStep opts self (after_push base messages)
unfolding after_push
after_push-IsStep opts self base (ok messages) same past f s =
    quiet opts self (record base { messages = messages }) [] same refl
      (record {
        bounded = s.bounded;
        waits = subst (λ b. Waits b messages) (sym past) tt;
        framed = f;
      })
after_push-IsStep opts self base (err e) same past f s =
    closed-IsStep opts self base _ same refl s.bounded

-- The three ways of a read, for the two tests that choose among them.
read-IsStep :
    (opts : ProxyOptions) (self : Connection) (ended past : Bool) (x y z : Turn)
    → IsStep opts self x
    → (past ≡ true → IsStep opts self y)
    → (past ≡ false → IsStep opts self z)
    → IsStep opts self (if ended then x else if past then y else z)
read-IsStep opts self true past x y z hx hy hz = hx
read-IsStep opts self false true x y z hx hy hz = hy refl
read-IsStep opts self false false x y z hx hy hz = hz refl

pub read_client-IsStep :
    (opts : ProxyOptions) (self : Connection) (connected : Bool) (chunk : Bytes)
    → IsSound self
    → IsStep opts self (read_client self connected chunk)
unfolding read_client
read_client-IsStep opts self connected chunk s =
    read-IsStep opts self (is_empty chunk) self.past_startup _ _ _
      (closed-IsStep opts self self [] refl refl s.bounded)
      (λ past.
        after_push-IsStep opts self (record self { framer = (Framer.push self.framer chunk).1 })
          (Framer.push self.framer chunk).0 refl past (push-IsFrame self.framer chunk)
          (record { bounded = s.bounded; waits = s.waits; framed = s.framed }))
      (λ early.
        after_startup-IsStep opts self
          (record self { startup_framer = (Startup.push self.startup_framer chunk).1 }) connected
          (Startup.push self.startup_framer chunk).0 refl early
          (record { bounded = s.bounded; waits = s.waits; framed = s.framed }))

IsSent-message :
    (opts : ProxyOptions) (self : Connection) (msg : Message) (rest : List Message)
    (sent : List Sent)
    → self.past_startup ≡ true
    → self.messages ≡ msg ∷ rest
    → IsFrame msg
    → IsBounded self.state
    → Only msg.raw (IsPermitted opts self.state msg) sent
    → ToBackend (IsSent opts self) sent
IsSent-message opts self msg rest [] past e f b h = tt
IsSent-message opts self msg rest (to_client packet ∷ sent) past e f b h =
    IsSent-message opts self msg rest sent past e f b h
IsSent-message opts self msg rest (to_backend packet ∷ sent) past e f b h =
    (message msg rest past e h.0 f b h.1, IsSent-message opts self msg rest sent past e f b h.2)

pub past_of_message :
    (b : Bool) (messages rest : List Message) (msg : Message)
    → messages ≡ msg ∷ rest
    → Waits b messages
    → b ≡ true
past_of_message true messages rest msg e w = refl
past_of_message false messages rest msg e w = cc

pub handled-IsStep :
    (opts : ProxyOptions) (self : Connection) (msg : Message) (messages : List Message)
    (r : Handled)
    → self.past_startup ≡ true
    → self.messages ≡ msg ∷ messages
    → IsSound self
    → Leaves IsBounded r
    → Forwards msg.raw (IsPermitted opts self.state msg) r
    → IsStep opts self (handled self messages r)
handled-IsStep opts self msg messages (ok (state, sent)) past e s l f =
    let (frame, frames) = subst (All IsFrame) e s.framed in
    record {
      sound = record {
        bounded = l;
        waits = subst (λ p. Waits p messages) (sym past) tt;
        framed = frames;
      };
      silent = subst (λ p. StaysSilent p p sent) (sym past) tt;
      allowed = IsSent-message opts self msg messages sent past e frame s.bounded f;
    }
handled-IsStep opts self msg messages (err x) past e s l f =
    closed-IsStep opts self self [] refl refl s.bounded

track-IsBounded :
    (state : ConnectionState) (msgs : List Message)
    → IsBounded state
    → IsBounded (track state msgs).0
unfolding track
track-IsBounded state [] b = b
track-IsBounded state (msg ∷ msgs) b = elim (Bool-cases (is_type msg "Z")) [
  | inr e ↦ rw e (track-IsBounded state msgs b)
  | inl e ↦ elim (Result-cases (parse_ready_for_query_status msg.payload)) [
    | inr (x, p) ↦ rw (e, p) b
    | inl (status, p) ↦
        rw (e, p)
          (track-IsBounded (update_transaction_status state status) msgs
            (update_transaction_status-IsBounded state status b))
  ]
]

forward_chunk-IsStep :
    (opts : ProxyOptions) (self base : Connection) (chunk : Bytes) (o : ConnectionState × Bool)
    → base.past_startup ≡ self.past_startup
    → IsSound base
    → IsBounded o.0
    → IsStep opts self (forward_chunk base chunk o)
forward_chunk-IsStep opts self base chunk (state, true) same s b =
    quiet opts self _ _ same refl (record { bounded = b; waits = s.waits; framed = s.framed })
forward_chunk-IsStep opts self base chunk (state, false) same s b =
    quiet opts self _ _ same refl (record { bounded = b; waits = s.waits; framed = s.framed })

after_backend_push-IsStep :
    (opts : ProxyOptions) (self base : Connection) (chunk : Bytes)
    (messages : Result (List Message))
    → base.past_startup ≡ self.past_startup
    → IsSound base
    → IsStep opts self (after_backend_push base chunk messages)
unfolding after_backend_push
after_backend_push-IsStep opts self base chunk (ok messages) same s =
    forward_chunk-IsStep opts self base chunk (track base.state messages) same s
      (track-IsBounded base.state messages s.bounded)
after_backend_push-IsStep opts self base chunk (err e) same s =
    quiet opts self _ _ same refl
      (record { bounded = s.bounded; waits = s.waits; framed = s.framed })

pub pipe_backend-IsStep :
    (opts : ProxyOptions) (self : Connection) (chunk : Bytes)
    → IsSound self
    → IsStep opts self (pipe_backend self chunk)
unfolding pipe_backend
pipe_backend-IsStep opts self chunk s =
    read-IsStep opts self (is_empty chunk) true _ _ (self, [])
      (quiet opts self _ _ refl refl
        (record { bounded = s.bounded; waits = s.waits; framed = s.framed }))
      (λ _.
        after_backend_push-IsStep opts self
          (record self { backend_framer = (Framer.push self.backend_framer chunk).1 }) chunk
          (Framer.push self.backend_framer chunk).0 refl
          (record { bounded = s.bounded; waits = s.waits; framed = s.framed }))
      (λ _. quiet opts self self [] refl refl s)
