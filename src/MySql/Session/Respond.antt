-- ===== src/MySql/Session/Respond.antt =====
-- adapters/mysql/session.py: the packets that answer a command.
use ohmydb_proxy.Prelude.{
  Bool, Bytes, Result, Text, err, if◌then◌else◌, is_empty, is_some, leb, length, none, not, ok,
  some, ℕ, ◌-◌, ◌==◌, ◌||◌,
}
use ohmydb_proxy.MySql.Constants.{client_deprecate_eof, server_more_results_exists}
use ohmydb_proxy.MySql.Command.{mysql_error, starts_with_byte}
use ohmydb_proxy.MySql.Response.{
  has_flag, parse_eof_packet_status, parse_ok_packet_status, parse_resultset_header,
}
use ohmydb_proxy.MySql.Session.{
  MySqlSessionState, Outcome, ResponseStage, initial, metadata, metadata_eof, mysql_err_packet,
  mysql_ok_packet, raising, require_no_pending_lifecycle_operation, rows, update_transaction_status,
}

unfoldable pub begin_command_response : MySqlSessionState → Text → Outcome (Unit {0})
begin_command_response self kind = raising self (require_no_pending_lifecycle_operation self) (λ _.
    (
      ok tt,
      record self {
        pending_command_response = some kind;
        command_response_stage = initial;
        response_columns_remaining = 0;
      },
    ))

unfoldable pub fail_command_forward : MySqlSessionState → MySqlSessionState
fail_command_forward self = record self {
  pending_command_response = none;
  command_response_stage = initial;
  response_columns_remaining = 0;
}

unfoldable pub finish_or_continue_response : MySqlSessionState → ℕ → MySqlSessionState
unfolding fail_command_forward
finish_or_continue_response self status =
    if has_flag status server_more_results_exists
    then record self { command_response_stage = initial; response_columns_remaining = 0 }
    else fail_command_forward self

-- A status ends a result; the next one follows or the response is over.
unfoldable pub end_result : MySqlSessionState → Result ℕ → Outcome (Unit {0})
unfolding update_transaction_status finish_or_continue_response
end_result self status =
    raising self status
      (λ flags. (ok tt, finish_or_continue_response (update_transaction_status self flags) flags))

-- The stage behind the column definitions.
abbrev pub after_metadata : Bool → ResponseStage
after_metadata deprecate_eof = if deprecate_eof then rows else metadata_eof

unfoldable pub accept_initial : MySqlSessionState → Bytes → ℕ → Outcome (Unit {0})
unfolding fail_command_forward end_result
accept_initial self backend_payload capability_flags =
    if starts_with_byte mysql_ok_packet backend_payload
    then end_result self (parse_ok_packet_status backend_payload capability_flags)
    else if starts_with_byte 0xfb backend_payload
    then (
      err (mysql_error "LOCAL INFILE responses are not safely tracked"),
      fail_command_forward self,
    )
    else raising self (parse_resultset_header backend_payload capability_flags) (λ header. (
      ok tt,
      if header.1
          then record self {
            response_columns_remaining = header.0;
            command_response_stage = metadata;
          }
          else record self {
            response_columns_remaining = 0;
            command_response_stage =
                after_metadata (has_flag capability_flags client_deprecate_eof);
          },
    ))

unfoldable pub accept_metadata : MySqlSessionState → ℕ → Outcome (Unit {0})
unfolding fail_command_forward
accept_metadata self capability_flags =
    if self.response_columns_remaining == 0
    then (err (mysql_error "Unexpected result-set metadata packet"), fail_command_forward self)
    else (
      ok tt,
      record self {
        response_columns_remaining = self.response_columns_remaining - 1;
        command_response_stage =
            if self.response_columns_remaining - 1 == 0
            then after_metadata (has_flag capability_flags client_deprecate_eof)
            else self.command_response_stage;
      },
    )

unfoldable pub accept_metadata_eof : MySqlSessionState → Bytes → ℕ → Outcome (Unit {0})
unfolding update_transaction_status
accept_metadata_eof self backend_payload capability_flags =
    raising self (parse_eof_packet_status backend_payload capability_flags) (λ status.
      (ok tt, record (update_transaction_status self status) { command_response_stage = rows }))

unfoldable pub accept_row : MySqlSessionState → Bytes → ℕ → Outcome (Unit {0})
unfolding end_result
accept_row self backend_payload capability_flags =
    if has_flag capability_flags client_deprecate_eof
    then (if starts_with_byte 0xfe backend_payload
        then end_result self (parse_ok_packet_status backend_payload capability_flags)
        else (ok tt, self))
    else (if not (starts_with_byte 0xfe backend_payload) || leb 9 (length backend_payload)
        then (ok tt, self)
        else end_result self (parse_eof_packet_status backend_payload capability_flags))

unfoldable pub accept_at_stage : ResponseStage → MySqlSessionState → Bytes → ℕ → Outcome (Unit {0})
unfolding accept_initial accept_metadata accept_metadata_eof accept_row
accept_at_stage initial self backend_payload capability_flags =
    accept_initial self backend_payload capability_flags
accept_at_stage metadata self backend_payload capability_flags =
    accept_metadata self capability_flags
accept_at_stage metadata_eof self backend_payload capability_flags =
    accept_metadata_eof self backend_payload capability_flags
accept_at_stage rows self backend_payload capability_flags =
    accept_row self backend_payload capability_flags

-- The stages are the four that the methods assign, so that the last guard of the method, for an
-- unknown stage, has no branch here.
unfoldable pub accept_command_response_packet : MySqlSessionState → Bytes → ℕ → Outcome (Unit {0})
unfolding fail_command_forward accept_at_stage
accept_command_response_packet self backend_payload capability_flags =
    if not (is_some self.pending_command_response)
    then (err (mysql_error "Backend command response has no pending client command"), self)
    else if is_empty backend_payload
    then (err (mysql_error "Backend command response packet is empty"), fail_command_forward self)
    else if starts_with_byte mysql_err_packet backend_payload
    then (ok tt, fail_command_forward self)
    else accept_at_stage self.command_response_stage self backend_payload capability_flags
