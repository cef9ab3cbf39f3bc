-- ===== src/MySql/Session/Frame.antt =====
-- What the methods of the session state leave alone: its limits, and its database but for an
-- acknowledged change.
use ohmydb_proxy.Prelude.{
  Bool, Bool-cases, Bytes, Result, err, false, if◌then◌else◌, inl, inr, is_empty, is_some, leb,
  length, not, ok, refl, true, ℕ, ◌==◌, ◌||◌, ◌≡◌,
}
use ohmydb_proxy.MySql.Constants.{client_deprecate_eof, server_more_results_exists}
use ohmydb_proxy.MySql.Command.{starts_with_byte}
use ohmydb_proxy.MySql.Response.{has_flag, parse_eof_packet_status, parse_ok_packet_status}
use ohmydb_proxy.MySql.Params.Types.{}
use ohmydb_proxy.MySql.Session.{
  MySqlSessionState, ResponseStage, initial, metadata, metadata_eof, mysql_err_packet,
  mysql_ok_packet, rows, update_transaction_status,
}
use ohmydb_proxy.MySql.Session.Prepare.{}
use ohmydb_proxy.MySql.Session.Acknowledge.{finish_statement_reset, reset_prepared_statement}
use ohmydb_proxy.MySql.Session.Respond.{
  accept_at_stage, accept_command_response_packet, accept_initial, accept_metadata,
  accept_metadata_eof, accept_row, after_metadata, end_result, fail_command_forward,
  finish_or_continue_response,
}
use ohmydb_proxy.MySql.Session.Operations.{}
use ohmydb_proxy.MySql.Session.Invariant.{raising-keeps}

-- The two states have the same limits and the same database.
abbrev pub IsFramed : MySqlSessionState → MySqlSessionState → Type 0
IsFramed s t =
    (t.max_prepared_statements ≡ s.max_prepared_statements)
    × (t.max_state_bytes ≡ s.max_state_bytes)
    × (t.database ≡ s.database)

pub same : (s : MySqlSessionState) → IsFramed s s
same s = (refl, refl, refl)

end_result-IsFramed : (s : MySqlSessionState) (r : Result ℕ) → IsFramed s (end_result s r).1
unfolding end_result finish_or_continue_response update_transaction_status fail_command_forward
end_result-IsFramed s r = raising-keeps (IsFramed s) s _ _ (same s) (λ f _.
    elim (Bool-cases (has_flag f server_more_results_exists)) [
      | inl h ↦ rw h (refl, refl, refl)
      | inr h ↦ rw h (refl, refl, refl)
    ])

header-IsFramed :
    (s : MySqlSessionState) (count : ℕ) (follows deprecate_eof : Bool)
    → IsFramed s (
        if follows
        then record s { response_columns_remaining = count; command_response_stage = metadata }
        else record s {
          response_columns_remaining = 0;
          command_response_stage = after_metadata deprecate_eof;
        })
header-IsFramed s count true d = (refl, refl, refl)
header-IsFramed s count false d = (refl, refl, refl)

accept_initial-IsFramed :
    (s : MySqlSessionState) (b : Bytes) (f : ℕ) → IsFramed s (accept_initial s b f).1
unfolding accept_initial fail_command_forward
accept_initial-IsFramed s b f = elim (Bool-cases (starts_with_byte mysql_ok_packet b)) [
  | inl o ↦ rw o (end_result-IsFramed s (parse_ok_packet_status b f))
  | inr o ↦ elim (Bool-cases (starts_with_byte 0xfb b)) [
    | inl i ↦ rw (o, i) (refl, refl, refl)
    | inr i ↦
        rw (o, i)
          (raising-keeps (IsFramed s) s _ _ (same s) (λ (count, follows) h.
            header-IsFramed s count follows (has_flag f client_deprecate_eof)))
  ]
]

accept_metadata-IsFramed : (s : MySqlSessionState) (f : ℕ) → IsFramed s (accept_metadata s f).1
unfolding accept_metadata fail_command_forward
accept_metadata-IsFramed s f = elim (Bool-cases (s.response_columns_remaining == 0)) [
  | inl h ↦ rw h (refl, refl, refl)
  | inr h ↦ rw h (refl, refl, refl)
]

accept_row-IsFramed : (s : MySqlSessionState) (b : Bytes) (f : ℕ) → IsFramed s (accept_row s b f).1
unfolding accept_row
accept_row-IsFramed s b f = elim (Bool-cases (has_flag f client_deprecate_eof)) [
  | inl d ↦ elim (Bool-cases (starts_with_byte 0xfe b)) [
    | inl e ↦ rw (d, e) (end_result-IsFramed s (parse_ok_packet_status b f))
    | inr e ↦ rw (d, e) (same s)
  ]
  | inr d ↦ elim (Bool-cases (not (starts_with_byte 0xfe b) || leb 9 (length b))) [
    | inl e ↦ rw (d, e) (same s)
    | inr e ↦ rw (d, e) (end_result-IsFramed s (parse_eof_packet_status b f))
  ]
]

accept_at_stage-IsFramed :
    (stage : ResponseStage) (s : MySqlSessionState) (b : Bytes) (f : ℕ)
    → IsFramed s (accept_at_stage stage s b f).1
unfolding accept_at_stage accept_metadata_eof update_transaction_status
accept_at_stage-IsFramed initial s b f = accept_initial-IsFramed s b f
accept_at_stage-IsFramed metadata s b f = accept_metadata-IsFramed s f
accept_at_stage-IsFramed metadata_eof s b f =
    raising-keeps (IsFramed s) s _ _ (same s) (λ _ _. (refl, refl, refl))
accept_at_stage-IsFramed rows s b f = accept_row-IsFramed s b f

pub accept_command_response_packet-IsFramed :
    (s : MySqlSessionState) (b : Bytes) (f : ℕ)
    → IsFramed s (accept_command_response_packet s b f).1
unfolding accept_command_response_packet fail_command_forward
accept_command_response_packet-IsFramed s b f =
    elim (Bool-cases (not (is_some s.pending_command_response))) [
      | inl n ↦ rw n (same s)
      | inr n ↦ elim (Bool-cases (is_empty b)) [
        | inl e ↦ rw (n, e) (refl, refl, refl)
        | inr e ↦ elim (Bool-cases (starts_with_byte mysql_err_packet b)) [
          | inl m ↦ rw (n, e, m) (refl, refl, refl)
          | inr m ↦ rw (n, e, m) (accept_at_stage-IsFramed s.command_response_stage s b f)
        ]
      ]
    ]

pub reset_prepared_statement-IsFramed :
    (s : MySqlSessionState) (i : ℕ) → IsFramed s (reset_prepared_statement s i).1
unfolding reset_prepared_statement
reset_prepared_statement-IsFramed s i =
    raising-keeps (IsFramed s) s _ _ (same s) (λ _ _. (refl, refl, refl))

pub finish_statement_reset-IsFramed :
    (s : MySqlSessionState) (i : ℕ) (answer : Result Bool)
    → IsFramed s (finish_statement_reset s i answer).1
unfolding finish_statement_reset
finish_statement_reset-IsFramed s i (ok true) = reset_prepared_statement-IsFramed s i
finish_statement_reset-IsFramed s i (ok false) = same s
finish_statement_reset-IsFramed s i (err e) = same s
