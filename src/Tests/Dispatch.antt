-- ===== src/Tests/Dispatch.antt =====
-- Runs and instances for the dispatcher.
use ohmydb_proxy.Prelude.{Bytes, Text, [], decode_utf8, lit, ok, refl, true, ◌∷◌, ◌≡◌}
use ohmydb_proxy.MySql.Packet.{MySqlLogicalMessage}
use ohmydb_proxy.MySql.Command.{parse_logical_command}
use ohmydb_proxy.Policy.FailSafe.{strict}
use ohmydb_proxy.MySql.Session.{
  MySqlSessionState, has_pending_lifecycle_operation, new, raising,
  require_no_pending_lifecycle_operation,
}
use ohmydb_proxy.MySql.Session.Acknowledge.{begin_ping}
use ohmydb_proxy.MySql.Session.Invariant.{IsWellFormed}
use ohmydb_proxy.MySql.Session.Reach.{new-IsWellFormed}
use ohmydb_proxy.Proxy.{to_backend}
use ohmydb_proxy.Proxy.Laws.{}
use ohmydb_proxy.MySql.Handler.{}
use ohmydb_proxy.MySql.Dispatcher.Commands.{catching, catching_method, dispatch_ping}
use ohmydb_proxy.MySql.Dispatcher.Execute.{}
use ohmydb_proxy.MySql.Dispatcher.{dispatch_authenticated_command}
use ohmydb_proxy.MySql.Dispatcher.Laws.{dispatch_authenticated_command-IsWellFormed}
use ohmydb_proxy.Tests.State.{shop}
use ohmydb_proxy.MySql.Dispatcher.Reasons.{IsForwarded}
use ohmydb_proxy.MySql.Dispatcher.Forwards.{dispatch_authenticated_command-IsForwarded}
use ohmydb_proxy.Tests.Decisions.{options, select_message, strict-IsStrict}

abbrev pub zero_text : Bytes → Text
zero_text raw = b'0' ∷ []

abbrev pub resumed : MySqlSessionState → MySqlSessionState
resumed session = session

-- COM_PING
abbrev ping_message : MySqlLogicalMessage
ping_message = record {
  first_sequence_id = 0;
  last_sequence_id = 0;
  payload = 0x0e ∷ [];
  raw_packets = 1 ∷ 0 ∷ 0 ∷ 0 ∷ 0x0e ∷ [];
  packet_count = 1;
}

ping_runs :
    dispatch_authenticated_command zero_text resumed (options strict) ping_message shop
    ≡ (ok (true, to_backend ping_message.raw_packets), record shop { pending_ping = true })
unfolding dispatch_authenticated_command catching parse_logical_command
    has_pending_lifecycle_operation new dispatch_ping catching_method begin_ping raising
    require_no_pending_lifecycle_operation
ping_runs = refl

dispatch_authenticated_command-IsWellFormed_example :
    IsWellFormed
      (dispatch_authenticated_command zero_text resumed (options strict) ping_message shop).1
dispatch_authenticated_command-IsWellFormed_example =
    dispatch_authenticated_command-IsWellFormed zero_text resumed (λ s w. w) (options strict)
      ping_message shop (new-IsWellFormed (lit "shop") 2 100)

-- A COM_QUERY "SELECT 1".
dispatch_authenticated_command-IsForwarded_example :
    IsForwarded zero_text resumed (options strict) select_message shop select_message.raw_packets
unfolding dispatch_authenticated_command catching parse_logical_command
    has_pending_lifecycle_operation new catching_method raising
    require_no_pending_lifecycle_operation ohmydb_proxy.MySql.Dispatcher.Commands.dispatch_query
    ohmydb_proxy.MySql.Session.Respond.begin_command_response
    ohmydb_proxy.MySql.Dispatcher.Commands.finish_query
    ohmydb_proxy.MySql.Handler.handle_mysql_query ohmydb_proxy.MySql.Command.parse_query lit
    decode_utf8 ohmydb_proxy.MySql.Handler.answer_decision ohmydb_proxy.Proxy.evaluate_and_decide
    ohmydb_proxy.Policy.evaluate_policy ohmydb_proxy.Policy.Classifier.classify
dispatch_authenticated_command-IsForwarded_example =
    dispatch_authenticated_command-IsForwarded zero_text resumed (options strict) strict-IsStrict
      select_message shop
