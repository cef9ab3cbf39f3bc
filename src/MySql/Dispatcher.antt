-- ===== src/MySql/Dispatcher.antt =====
-- adapters/mysql/dispatcher.py: the routing of an authenticated command.
pub mod Commands
pub mod Execute
pub mod Laws
pub mod Sends
pub mod Handled
pub mod Reasons
pub mod Forwards
use ohmydb_proxy.Prelude.{
  Bool, Bytes, Text, from_bytes_le, if◌then◌else◌, is_some, leb, length, lit, not, take, true,
  upper_hex, ◌&&◌, ◌++◌, ◌==◌, ◌||◌,
}
use ohmydb_proxy.MySql.Constants.{mariadb_stmt_id_last}
use ohmydb_proxy.MySql.Packet.{MySqlLogicalMessage}
use ohmydb_proxy.MySql.Command.{
  MySqlCommand, MySqlCommandKind, init_db, parse_logical_command, ping, query, quit, stmt_close,
  stmt_execute, stmt_prepare, stmt_reset, stmt_send_long_data, unsupported,
}
use ohmydb_proxy.MySql.Params.{}
use ohmydb_proxy.MySql.Params.Values.{}
use ohmydb_proxy.MySql.Reconstruct.{}
use ohmydb_proxy.MySql.Session.{MySqlSessionState, has_pending_lifecycle_operation, mark_closing}
use ohmydb_proxy.MySql.Session.Prepare.{}
use ohmydb_proxy.MySql.Session.Acknowledge.{}
use ohmydb_proxy.MySql.Session.Respond.{}
use ohmydb_proxy.Proxy.{ProxyOptions}
use ohmydb_proxy.Proxy.Laws.{}
use ohmydb_proxy.MySql.Handler.{}
use ohmydb_proxy.MySql.Dispatcher.Commands.{
  Dispatched, blocked, catching, dispatch_close, dispatch_init_db, dispatch_long_data,
  dispatch_ping, dispatch_prepare, dispatch_query, dispatch_reset, forwarded, gap,
}
use ohmydb_proxy.MySql.Dispatcher.Execute.{dispatch_execute}

-- The session in which a pipelined execution goes on once the event of the pending preparation is
-- set is given by `resume`; `float_repr` is that of the decoding.
module _ (float_repr : Bytes → Text) (resume : MySqlSessionState → MySqlSessionState) where
  -- The chain of tests of the command's kind.
  unfoldable pub dispatch_kind :
      MySqlCommandKind
      → ProxyOptions
      → MySqlLogicalMessage
      → MySqlSessionState
      → MySqlCommand
      → Dispatched
  dispatch_kind query opts message session command =
      dispatch_query opts message session command.payload
  dispatch_kind init_db opts message session command =
      dispatch_init_db opts message session command.payload
  dispatch_kind quit opts message session command = (forwarded message, mark_closing session)
  dispatch_kind ping opts message session command =
      dispatch_ping opts message session command.payload
  dispatch_kind stmt_prepare opts message session command =
      dispatch_prepare opts message session command.payload
  dispatch_kind stmt_execute opts message session command =
      dispatch_execute float_repr resume opts message session command.payload
  dispatch_kind stmt_send_long_data opts message session command =
      dispatch_long_data opts message session command.payload
  dispatch_kind stmt_close opts message session command =
      dispatch_close opts message session command.payload
  dispatch_kind stmt_reset opts message session command =
      dispatch_reset opts message session command.payload
  dispatch_kind unsupported opts message session command = (
    gap opts message (lit "Unsupported MySQL command 0x" ++ upper_hex command.command_code),
    session,
  )

  -- The tests of a command that may run although an acknowledgment is pending.
  unfoldable pub is_pipelined : MySqlSessionState → MySqlCommand → Bool
  is_pipelined session command =
      leb 4 (length command.payload)
      && (from_bytes_le (take 4 command.payload) == mariadb_stmt_id_last
          && is_some session.pending_statement_sql)

  unfoldable pub may_run : MySqlCommandKind → MySqlSessionState → MySqlCommand → Bool
  unfolding is_pipelined
  may_run quit session command = true
  may_run stmt_execute session command =
      not (has_pending_lifecycle_operation session) || is_pipelined session command
  may_run _ session command = not (has_pending_lifecycle_operation session)

  unfoldable pub dispatch_authenticated_command :
      ProxyOptions → MySqlLogicalMessage → MySqlSessionState → Dispatched
  unfolding may_run dispatch_kind
  dispatch_authenticated_command opts message session =
      catching session (parse_logical_command message) (gap opts message) (λ command.
        if may_run command.kind session command
        then dispatch_kind command.kind opts message session command
        else (
          blocked message
              (lit "A MySQL command cannot run while a prior command acknowledgment is pending"),
          session,
        ))
