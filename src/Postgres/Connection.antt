-- ===== src/Postgres/Connection.antt =====
-- `_handle_client` and `_pipe_backend` of proxy.py: a connection of a PostgreSQL client as a state
-- that chunks of bytes change, in whatever order they come from the two sides. A handler is one step:
-- what the backend sends while a handler waits for an estimate or an answer comes before or after it.
pub mod Steps
pub mod Reach
pub mod Recovery
use ohmydb_proxy.Prelude.{
  Bool, Bytes, List, Option, Result, Text, [], err, error_text, false, if◌then◌else◌, is_empty, lit,
  none, ok, some, true, value_or, ℕ, ◌++◌, ◌∷◌, ◌≡◌,
}
use ohmydb_proxy.Prelude.Dict.{Dict, lookup}
use ohmydb_proxy.Proxy.{ProxyOptions, Sent, to_backend, to_client}
use ohmydb_proxy.Postgres.Protocol.{
  Message, build_error_response, is_negotiation_request, parse_ready_for_query_status,
}
use ohmydb_proxy.Postgres.Framer.{MessageFramer}
use ohmydb_proxy.Postgres.Framer
use ohmydb_proxy.Postgres.Startup.{StartupFramer, parse_startup_params}
use ohmydb_proxy.Postgres.Startup
use ohmydb_proxy.Postgres.State.{ConnectionState, update_transaction_status}
use ohmydb_proxy.Postgres.State
use ohmydb_proxy.Postgres.Handler.{Handled, handle_frontend_message, is_type}

-- The locals of `_handle_client`, the messages of the last chunk that are not handled yet, and
-- whether the loops of the two sides still run.
pub record Connection : Type 0 where
  pub startup_framer : StartupFramer
  pub framer : MessageFramer
  pub backend_framer : MessageFramer
  pub state : ConnectionState
  pub past_startup : Bool
  pub messages : List Message
  pub client_open : Bool
  pub backend_open : Bool

-- The connection after a step, with the writes of the step.
abbrev pub Turn : Type 0
Turn = Connection × List Sent

abbrev pub empty_framer : ℕ → MessageFramer
empty_framer max = record { buffer = []; max_message_bytes = max }

abbrev pub empty_startup : ℕ → StartupFramer
empty_startup max = record { buffer = []; max_message_bytes = max }

-- The locals before the loop, for a limit that the framers accept.
unfoldable pub new : ℕ → ℕ → ℕ → Connection
new max_message_bytes max_items max_state_bytes = record {
  startup_framer = empty_startup max_message_bytes;
  framer = empty_framer max_message_bytes;
  backend_framer = empty_framer max_message_bytes;
  state = State.new max_items max_state_bytes;
  past_startup = false;
  messages = [];
  client_open = true;
  backend_open = false;
}

-- An exception or a break: the client's loop ends, and with it the backend's task.
abbrev pub closed : Connection → Connection
closed self = record self { client_open = false; backend_open = false; messages = [] }

-- params.get(key) where it is not empty
abbrev pub non_empty : Option Text → Option Text
non_empty none = none
non_empty (some t) = if is_empty t then none else some t

abbrev pub database_of : Dict Text → Text
database_of params =
    value_or (non_empty (lookup (lit "database") params))
      (value_or (non_empty (lookup (lit "user") params)) (lit "postgres"))

-- A StartupMessage whose parameters were parsed. `connected` tells whether the connection to the
-- backend was opened in time.
abbrev pub start : Connection → Bool → Bytes → Option (Result (Dict Text)) → Turn
start self connected raw (some (ok params)) =
    if connected
    then (
      record self {
        state = record (self.state) { database = database_of params };
        past_startup = true;
        backend_open = true;
      },
      to_backend raw ∷ [],
    )
    else (
      closed (record self { state = record (self.state) { database = database_of params } }),
      [],
    )
start self connected raw (some (err e)) = (closed self, [])
start self connected raw none = (closed self, [])

-- What the loop does with the startup framer's answer: TLS is refused with an N.
unfoldable pub after_startup : Connection → Bool → Result (Option Bytes) → Turn
after_startup self connected (err e) = (closed self, [])
after_startup self connected (ok none) = (self, [])
after_startup self connected (ok (some raw)) =
    if is_negotiation_request raw
    then (
      record self { startup_framer = empty_startup self.startup_framer.max_message_bytes },
      to_client (b'N' ∷ []) ∷ [],
    )
    else start self connected raw (parse_startup_params raw)

-- What the loop does with the framer's answer.
unfoldable pub after_push : Connection → Result (List Message) → Turn
after_push self (ok messages) = (record self { messages = messages }, [])
after_push self (err e) = (
  closed self,
  to_client (
        build_error_response (lit "Malformed PostgreSQL frontend frame: " ++ error_text e)
          (lit "08P01"))
      ∷ [],
)

-- A chunk that is read from the client; the read of no bytes ends the loop.
unfoldable pub read_client : Connection → Bool → Bytes → Turn
unfolding after_startup after_push
read_client self connected chunk =
    if is_empty chunk
    then (closed self, [])
    else if self.past_startup
    then (let (messages, framer) = Framer.push self.framer chunk in
        after_push (record self { framer = framer }) messages)
    else (let (packet, framer) = Startup.push self.startup_framer chunk in
        after_startup (record self { startup_framer = framer }) connected packet)

-- What the loop over the messages does with a handler's outcome.
abbrev pub handled : Connection → List Message → Handled → Turn
handled self messages (ok (state, sent)) =
    (record self { state = state; messages = messages }, sent)
handled self messages (err e) = (closed self, [])

-- The next of the messages that were framed.
unfoldable pub handle_next : ProxyOptions → Connection → Message → List Message → Turn
handle_next opts self msg messages =
    handled self messages (handle_frontend_message opts self.state msg)

-- The loop over the framed messages, which an exception ends.
unfoldable pub handle_messages : ProxyOptions → Connection → List Message → Turn
unfolding handle_next
handle_messages opts self [] = (self, [])
handle_messages opts self (msg ∷ msgs) =
    let (next, sent) = handle_next opts self msg msgs in
    let (last, more) = handle_messages opts next msgs in
    if next.client_open then (last, sent ++ more) else (next, sent)

-- The statuses in the messages of the backend, with the state that is left at an exception too.
unfoldable pub track : ConnectionState → List Message → ConnectionState × Bool
track state [] = (state, true)
track state (msg ∷ msgs) =
    if is_type msg "Z"
    then (elim (parse_ready_for_query_status msg.payload) [
      | err e ↦ (state, false)
      | ok status ↦ track (update_transaction_status state status) msgs
    ])
    else track state msgs

-- A chunk of the backend is forwarded when all its messages were understood.
abbrev pub forward_chunk : Connection → Bytes → ConnectionState × Bool → Turn
forward_chunk self chunk (state, true) = (record self { state = state }, to_client chunk ∷ [])
forward_chunk self chunk (state, false) = (record self { state = state; backend_open = false }, [])

unfoldable pub after_backend_push : Connection → Bytes → Result (List Message) → Turn
unfolding track
after_backend_push self chunk (ok messages) = forward_chunk self chunk (track self.state messages)
after_backend_push self chunk (err e) = (record self { backend_open = false }, [])

-- One round of the loop of `_pipe_backend`.
unfoldable pub pipe_backend : Connection → Bytes → Turn
unfolding after_backend_push
pipe_backend self chunk =
    if is_empty chunk
    then (record self { backend_open = false }, [])
    else (let (messages, framer) = Framer.push self.backend_framer chunk in
        after_backend_push (record self { backend_framer = framer }) chunk messages)

-- The steps of a connection: the client's loop reads when it has handled the last chunk's messages.
pub data Step (opts : ProxyOptions) : Connection → Turn → Type 0 where
  client_chunk :
      (self : Connection) (connected : Bool) (chunk : Bytes)
      → self.client_open ≡ true
      → self.messages ≡ []
      → Step opts self (read_client self connected chunk)
  client_message :
      (self : Connection) (msg : Message) (messages : List Message)
      → self.client_open ≡ true
      → self.messages ≡ msg ∷ messages
      → Step opts self (handle_next opts self msg messages)
  backend_chunk :
      (self : Connection) (chunk : Bytes)
      → self.backend_open ≡ true
      → Step opts self (pipe_backend self chunk)

-- The connections that steps lead to, with everything that was written so far.
pub data Reachable (opts : ProxyOptions) (self : Connection) : Turn → Type 0 where
  start_of : Reachable opts self (self, [])
  then_step :
      {mid after : Connection} {before sent : List Sent}
      → Reachable opts self (mid, before)
      → Step opts mid (after, sent)
      → Reachable opts self (after, before ++ sent)
