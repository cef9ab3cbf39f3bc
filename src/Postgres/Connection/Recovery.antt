-- ===== src/Postgres/Connection/Recovery.antt =====
-- How the session of a PostgreSQL connection recovers from a refused message.
use ohmydb_proxy.Prelude.{List, [], ap, false, ok, refl, true, ◌++◌, ◌∙◌, ◌∷◌, ◌≡◌}
use ohmydb_proxy.Proxy.{ProxyOptions, Sent, to_backend}
use ohmydb_proxy.Postgres.Protocol.{Message}
use ohmydb_proxy.Postgres.State.{ConnectionState}
use ohmydb_proxy.Postgres.Handler.{handle_frontend_message, is_type, skip_to_sync}
use ohmydb_proxy.Postgres.Connection.{Connection, Turn, handle_messages, handle_next, handled}

-- No message ends the recovery or the session.
abbrev pub AreSkipped : List Message → Type 0
AreSkipped [] = Unit {0}
AreSkipped (msg ∷ msgs) = (is_type msg "S" ≡ false) × (is_type msg "X" ≡ false) × AreSkipped msgs

-- The connection behind a Sync with more messages to handle.
abbrev pub recovered : Connection → List Message → Connection
recovered self messages = record self {
  state = record (self.state) { extended_error_pending = false };
  messages = messages;
}

-- A turn behind another's writes.
abbrev pub behind : List Sent → Turn → Turn
behind sent (self, more) = (self, sent ++ more)

handle_next_pending :
    (opts : ProxyOptions) (self : Connection) (msg : Message) (messages : List Message)
    → self.state.extended_error_pending ≡ true
    → handle_next opts self msg messages ≡ handled self messages (ok (skip_to_sync self.state msg))
unfolding handle_next handle_frontend_message
handle_next_pending opts self msg messages p = rw p refl

skip_other :
    (state : ConnectionState) (msg : Message)
    → is_type msg "S" ≡ false
    → is_type msg "X" ≡ false
    → skip_to_sync state msg ≡ (state, [])
skip_other state msg s x = rw (s, x) refl

skip_sync :
    (state : ConnectionState) (msg : Message)
    → is_type msg "S" ≡ true
    → skip_to_sync state msg
      ≡ (record state { extended_error_pending = false }, to_backend msg.raw ∷ [])
skip_sync state msg s = rw s refl

-- The rest of the loop behind a message after which the connection is open.
handle_messages_open :
    (opts : ProxyOptions) (self : Connection) (msg : Message) (msgs : List Message) (t : Turn)
    → handle_next opts self msg msgs ≡ t
    → t.0.client_open ≡ true
    → handle_messages opts self (msg ∷ msgs) ≡ behind t.1 (handle_messages opts t.0 msgs)
unfolding handle_messages
handle_messages_open opts self msg msgs t e o = rw (e, o) refl

-- While an error is pending on an open connection, the framed messages up to the next Sync, if none
-- of them is a Terminate, are ignored, whatever they hold: they write nothing and change no state.
-- The Sync is forwarded and ends the recovery, and the messages behind it are handled as if the
-- error had not been.
pub handle_messages_recovers :
    (opts : ProxyOptions) (self : Connection) (skipped : List Message) (sync : Message)
    (rest : List Message)
    → self.state.extended_error_pending ≡ true
    → self.client_open ≡ true
    → AreSkipped skipped
    → is_type sync "S" ≡ true
    → handle_messages opts self (skipped ++ sync ∷ rest)
      ≡ behind (to_backend sync.raw ∷ []) (handle_messages opts (recovered self rest) rest)
handle_messages_recovers opts self [] sync rest p o a s =
    handle_messages_open opts self sync rest (recovered self rest, to_backend sync.raw ∷ [])
      (handle_next_pending opts self sync rest p
        ∙ ap (λ r. handled self rest (ok r)) (skip_sync self.state sync s))
      o
handle_messages_recovers opts self (msg ∷ msgs) sync rest p o (ns, nx, a) s =
    let remaining = msgs ++ sync ∷ rest in
    let after : Connection = record self { messages = remaining } in
    handle_messages_open opts self msg remaining (after, [])
      (handle_next_pending opts self msg remaining p
        ∙ ap (λ r. handled self remaining (ok r)) (skip_other self.state msg ns nx))
      o
    ∙ handle_messages_recovers opts after msgs sync rest p o a s
