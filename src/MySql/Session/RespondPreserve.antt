-- ===== src/MySql/Session/RespondPreserve.antt =====
-- Every packet of a response keeps the invariant.
use ohmydb_proxy.Prelude.{
  Bool, Bool-cases, Bytes, Result, Text, arith, false, if◌then◌else◌, inl, inr, is_empty, is_some,
  leb, length, ltb, not, ok, refl, true, ℕ, ◌-◌, ◌<◌, ◌==◌, ◌||◌, ◌≡◌,
}
use ohmydb_proxy.MySql.Constants.{client_deprecate_eof, server_more_results_exists}
use ohmydb_proxy.MySql.Command.{starts_with_byte}
use ohmydb_proxy.MySql.Response.{
  has_flag, parse_eof_packet_status, parse_ok_packet_status, parse_resultset_header,
}
use ohmydb_proxy.MySql.Params.Types.{}
use ohmydb_proxy.MySql.Session.{
  MySqlSessionState, ResponseStage, initial, mark_closing, metadata, metadata_eof, mysql_err_packet,
  mysql_ok_packet, rows, update_transaction_status,
}
use ohmydb_proxy.MySql.Session.Prepare.{}
use ohmydb_proxy.MySql.Session.Acknowledge.{}
use ohmydb_proxy.MySql.Session.Respond.{
  accept_at_stage, accept_command_response_packet, accept_initial, accept_metadata,
  accept_metadata_eof, accept_row, after_metadata, begin_command_response, end_result,
  fail_command_forward, finish_or_continue_response,
}
use ohmydb_proxy.MySql.Session.Registry.{}
use ohmydb_proxy.MySql.Session.Invariant.{IsWellFormed, is_metadata, nothing_pending, raising-keeps}

pub begin_command_response-IsWellFormed :
    (s : MySqlSessionState) (t : Text)
    → IsWellFormed s
    → IsWellFormed (begin_command_response s t).1
unfolding begin_command_response
begin_command_response-IsWellFormed s t w = raising-keeps IsWellFormed s _ _ w (λ _ h. record {
  registered = w.registered;
  sized = w.sized;
  exclusive = ground (arith, nothing_pending s h);
  counted = w.counted;
  announced_pending = w.announced_pending;
  columns = refl;
})

pub fail_command_forward-IsWellFormed :
    (s : MySqlSessionState) → IsWellFormed s → IsWellFormed (fail_command_forward s)
unfolding fail_command_forward
fail_command_forward-IsWellFormed s w = record {
  registered = w.registered;
  sized = w.sized;
  exclusive = ground (arith, w.exclusive);
  counted = w.counted;
  announced_pending = w.announced_pending;
  columns = refl;
}

pub update_transaction_status-IsWellFormed :
    (s : MySqlSessionState) (f : ℕ) → IsWellFormed s → IsWellFormed (update_transaction_status s f)
unfolding update_transaction_status
update_transaction_status-IsWellFormed s f w = record {
  registered = w.registered;
  sized = w.sized;
  exclusive = w.exclusive;
  counted = w.counted;
  announced_pending = w.announced_pending;
  columns = w.columns;
}

pub mark_closing-IsWellFormed :
    (s : MySqlSessionState) → IsWellFormed s → IsWellFormed (mark_closing s)
unfolding mark_closing
mark_closing-IsWellFormed s w = record {
  registered = w.registered;
  sized = w.sized;
  exclusive = w.exclusive;
  counted = w.counted;
  announced_pending = w.announced_pending;
  columns = w.columns;
}

finish_or_continue_response-IsWellFormed :
    (s : MySqlSessionState) (f : ℕ)
    → IsWellFormed s
    → IsWellFormed (finish_or_continue_response s f)
unfolding finish_or_continue_response
finish_or_continue_response-IsWellFormed s f w =
    elim (Bool-cases (has_flag f server_more_results_exists)) [
      | inl h ↦ rw h (record {
        registered = w.registered;
        sized = w.sized;
        exclusive = w.exclusive;
        counted = w.counted;
        announced_pending = w.announced_pending;
        columns = refl;
      })
      | inr h ↦ rw h (fail_command_forward-IsWellFormed s w)
    ]

pub end_result-IsWellFormed :
    (s : MySqlSessionState) (r : Result ℕ) → IsWellFormed s → IsWellFormed (end_result s r).1
unfolding end_result
end_result-IsWellFormed s r w = raising-keeps IsWellFormed s r _ w (λ f _.
    finish_or_continue_response-IsWellFormed (update_transaction_status s f) f
      (update_transaction_status-IsWellFormed s f w))

-- A header never announces zero columns.
parse_resultset_header_positive :
    (b : Bytes) (f count : ℕ) (follows : Bool)
    → parse_resultset_header b f ≡ ok (count, follows)
    → 0 < count
unfolding parse_resultset_header
parse_resultset_header_positive b f count follows h = ground arith

after_metadata_lem : (d : Bool) → is_metadata (after_metadata d) ≡ false
after_metadata_lem true = refl
after_metadata_lem false = refl

header_kept :
    (s : MySqlSessionState)
    → IsWellFormed s
    → (count : ℕ) (follows deprecate_eof : Bool) → 0 < count
    → IsWellFormed (
        if follows
        then record s { response_columns_remaining = count; command_response_stage = metadata }
        else record s {
          response_columns_remaining = 0;
          command_response_stage = after_metadata deprecate_eof;
        })
header_kept s w count true d h = record {
  registered = w.registered;
  sized = w.sized;
  exclusive = w.exclusive;
  counted = w.counted;
  announced_pending = w.announced_pending;
  columns = ground (arith, h);
}
header_kept s w count false d h = record {
  registered = w.registered;
  sized = w.sized;
  exclusive = w.exclusive;
  counted = w.counted;
  announced_pending = w.announced_pending;
  columns = after_metadata_lem d;
}

pub accept_initial-IsWellFormed :
    (s : MySqlSessionState) (b : Bytes) (f : ℕ)
    → IsWellFormed s
    → IsWellFormed (accept_initial s b f).1
unfolding accept_initial
accept_initial-IsWellFormed s b f w = elim (Bool-cases (starts_with_byte mysql_ok_packet b)) [
  | inl o ↦ rw o (end_result-IsWellFormed s (parse_ok_packet_status b f) w)
  | inr o ↦ elim (Bool-cases (starts_with_byte 0xfb b)) [
    | inl i ↦ rw (o, i) (fail_command_forward-IsWellFormed s w)
    | inr i ↦
        rw (o, i)
          (raising-keeps IsWellFormed s _ _ w (λ (count, follows) h.
            header_kept s w count follows (has_flag f client_deprecate_eof)
              (parse_resultset_header_positive b f count follows h)))
  ]
]

remaining_columns :
    (stage : ResponseStage) (n : ℕ) (d : Bool)
    → is_metadata stage ≡ ltb 0 n
    → (n == 0) ≡ false
    → is_metadata (if n - 1 == 0 then after_metadata d else stage) ≡ ltb 0 (n - 1)
remaining_columns stage n d h g = elim (Bool-cases (n - 1 == 0)) [
  | inl e ↦ rw e (ground (arith, after_metadata_lem d, e))
  | inr e ↦ rw e (ground (arith, h, g, e))
]

pub accept_metadata-IsWellFormed :
    (s : MySqlSessionState) (f : ℕ) → IsWellFormed s → IsWellFormed (accept_metadata s f).1
unfolding accept_metadata
accept_metadata-IsWellFormed s f w = elim (Bool-cases (s.response_columns_remaining == 0)) [
  | inl h ↦ rw h (fail_command_forward-IsWellFormed s w)
  | inr h ↦ rw h (record {
    registered = w.registered;
    sized = w.sized;
    exclusive = w.exclusive;
    counted = w.counted;
    announced_pending = w.announced_pending;
    columns = remaining_columns s.command_response_stage s.response_columns_remaining _ w.columns h;
  })
]

accept_metadata_eof-IsWellFormed :
    (s : MySqlSessionState) (b : Bytes) (f : ℕ)
    → IsWellFormed s
    → s.command_response_stage ≡ metadata_eof
    → IsWellFormed (accept_metadata_eof s b f).1
unfolding accept_metadata_eof update_transaction_status
accept_metadata_eof-IsWellFormed s b f w e = raising-keeps IsWellFormed s _ _ w (λ _ h. record {
  registered = w.registered;
  sized = w.sized;
  exclusive = w.exclusive;
  counted = w.counted;
  announced_pending = w.announced_pending;
  columns = ground (arith, w.columns, e);
})

pub accept_row-IsWellFormed :
    (s : MySqlSessionState) (b : Bytes) (f : ℕ) → IsWellFormed s → IsWellFormed (accept_row s b f).1
unfolding accept_row
accept_row-IsWellFormed s b f w = elim (Bool-cases (has_flag f client_deprecate_eof)) [
  | inl d ↦ elim (Bool-cases (starts_with_byte 0xfe b)) [
    | inl e ↦ rw (d, e) (end_result-IsWellFormed s (parse_ok_packet_status b f) w)
    | inr e ↦ rw (d, e) w
  ]
  | inr d ↦ elim (Bool-cases (not (starts_with_byte 0xfe b) || leb 9 (length b))) [
    | inl e ↦ rw (d, e) w
    | inr e ↦ rw (d, e) (end_result-IsWellFormed s (parse_eof_packet_status b f) w)
  ]
]

accept_at_stage-IsWellFormed :
    (stage : ResponseStage) (s : MySqlSessionState) (b : Bytes) (f : ℕ)
    → IsWellFormed s
    → s.command_response_stage ≡ stage
    → IsWellFormed (accept_at_stage stage s b f).1
unfolding accept_at_stage
accept_at_stage-IsWellFormed initial s b f w e = accept_initial-IsWellFormed s b f w
accept_at_stage-IsWellFormed metadata s b f w e = accept_metadata-IsWellFormed s f w
accept_at_stage-IsWellFormed metadata_eof s b f w e = accept_metadata_eof-IsWellFormed s b f w e
accept_at_stage-IsWellFormed rows s b f w e = accept_row-IsWellFormed s b f w

pub accept_command_response_packet-IsWellFormed :
    (s : MySqlSessionState) (b : Bytes) (f : ℕ)
    → IsWellFormed s
    → IsWellFormed (accept_command_response_packet s b f).1
unfolding accept_command_response_packet
accept_command_response_packet-IsWellFormed s b f w =
    elim (Bool-cases (not (is_some s.pending_command_response))) [
      | inl n ↦ rw n w
      | inr n ↦ elim (Bool-cases (is_empty b)) [
        | inl e ↦ rw (n, e) (fail_command_forward-IsWellFormed s w)
        | inr e ↦ elim (Bool-cases (starts_with_byte mysql_err_packet b)) [
          | inl m ↦ rw (n, e, m) (fail_command_forward-IsWellFormed s w)
          | inr m ↦
              rw (n, e, m) (accept_at_stage-IsWellFormed s.command_response_stage s b f w refl)
        ]
      ]
    ]
