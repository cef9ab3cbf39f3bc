-- ===== src/Tests/Portals.antt =====
-- Runs and instances for the PostgreSQL session, its handlers and its connections.
use ohmydb_proxy.Prelude.{
  List, [], decode_utf8, encode_utf8, lit, ok, refl, text_eq, true, ◌++◌, ◌∷◌, ◌≡◌,
}
use ohmydb_proxy.Prelude.Dict.{insert, lookup, total}
use ohmydb_proxy.Policy.FailSafe.{strict}
use ohmydb_proxy.Proxy.{Sent, to_backend}
use ohmydb_proxy.Postgres.Protocol.{Message}
use ohmydb_proxy.Postgres.Extended.{}
use ohmydb_proxy.Postgres.State.{
  ConnectionState, register_portal, register_statement, with_statement,
}
use ohmydb_proxy.Postgres.State
use ohmydb_proxy.Postgres.State.Limits.{new-IsBounded}
use ohmydb_proxy.Postgres.State.View.{registers_statement, session-refines-View, view, view_after}
use ohmydb_proxy.Postgres.Handler.{handle_frontend_message, is_type}
use ohmydb_proxy.Postgres.Handler.Laws.{Forwards, IsPermitted, handle_frontend_message-IsPermitted}
use ohmydb_proxy.Postgres.Connection.{
  Connection, Turn, empty_framer, empty_startup, handle_messages, handle_next, read_client,
}
use ohmydb_proxy.Postgres.Connection
use ohmydb_proxy.Postgres.Connection.Recovery.{
  AreSkipped, behind, handle_messages_recovers, recovered,
}
use ohmydb_proxy.Tests.Decisions.{options, strict-IsStrict}
use ohmydb_proxy.Tests.Rules.{}
use ohmydb_proxy.Tests.Frames.{hello, sync}
use ohmydb_proxy.Tests.Extended.{bind}

abbrev session : ConnectionState
session = State.new 4 100

abbrev prepared : ConnectionState
prepared = with_statement session (b's' ∷ []) (lit "SELECT 1")

abbrev bound : ConnectionState
bound = record session { portals = ([], bind) ∷ [] }

prepared_runs : register_statement session (b's' ∷ []) (lit "SELECT 1") ≡ ok prepared
unfolding register_statement lookup State.new total State.statement_bytes encode_utf8 lit
prepared_runs = refl

bound_runs : register_portal session bind ≡ ok bound
unfolding register_portal lookup State.new total State.portal_bytes encode_utf8 State.values_bytes
    insert
bound_runs = refl

session-refines-View_example :
    view prepared ≡ view_after (registers_statement (b's' ∷ []) (lit "SELECT 1")) (view session)
session-refines-View_example =
    session-refines-View (registers_statement (b's' ∷ []) (lit "SELECT 1")) session prepared
      (new-IsBounded 4 100) prepared_runs

-- A Simple Query "SELECT 1".
abbrev query : Message
query = record {
  type = b'Q' ∷ [];
  payload = lit "SELECT 1" ++ (0 ∷ []);
  raw = b'Q' ∷ 0 ∷ 0 ∷ 0 ∷ 13 ∷ (lit "SELECT 1" ++ (0 ∷ []));
}

query_runs :
    handle_frontend_message (options strict) session query ≡ ok (session, to_backend query.raw ∷ [])
unfolding handle_frontend_message State.new text_eq lit
    ohmydb_proxy.Postgres.Handler.handle_simple_query
    ohmydb_proxy.Postgres.Protocol.parse_simple_query_text decode_utf8
    ohmydb_proxy.Policy.Classifier.classify
query_runs = refl

handle_frontend_message-IsPermitted_example :
    Forwards query.raw
      (IsPermitted (options strict) session query)
      (handle_frontend_message (options strict) session query)
handle_frontend_message-IsPermitted_example =
    handle_frontend_message-IsPermitted (options strict) strict-IsStrict session query

abbrev fresh : Connection
fresh = Connection.new 100 4 100

abbrev started : Turn
started = read_client fresh true hello

abbrev framed : Turn
framed = read_client started.0 true query.raw

abbrev served : Turn
served = handle_next (options strict) framed.0 query []

abbrev all_sent : List Sent
all_sent = (([] ++ started.1) ++ framed.1) ++ served.1

-- An open connection that waits for a Sync.
abbrev waiting : Connection
waiting = record {
  startup_framer = empty_startup 100;
  framer = empty_framer 100;
  backend_framer = empty_framer 100;
  state = record session { extended_error_pending = true };
  past_startup = true;
  messages = [];
  client_open = true;
  backend_open = true;
}

recovers_runs :
    (handle_messages (options strict) waiting (query ∷ sync ∷ query ∷ [])).1
    ≡ to_backend sync.raw ∷ to_backend query.raw ∷ []
unfolding handle_messages handle_frontend_message text_eq lit
    ohmydb_proxy.Postgres.Handler.handle_simple_query
    ohmydb_proxy.Postgres.Protocol.parse_simple_query_text decode_utf8
    ohmydb_proxy.Policy.Classifier.classify
recovers_runs = refl

sync_is_sync : is_type sync "S" ≡ true
unfolding lit text_eq
sync_is_sync = refl

query_is_skipped : AreSkipped (query ∷ [])
unfolding lit text_eq
query_is_skipped = (refl, refl, tt)

handle_messages_recovers_example :
    handle_messages (options strict) waiting ((query ∷ []) ++ sync ∷ query ∷ [])
    ≡ behind
        (to_backend sync.raw ∷ [])
        (handle_messages (options strict) (recovered waiting (query ∷ [])) (query ∷ []))
handle_messages_recovers_example =
    handle_messages_recovers (options strict) waiting (query ∷ []) sync (query ∷ []) refl refl
      query_is_skipped sync_is_sync
