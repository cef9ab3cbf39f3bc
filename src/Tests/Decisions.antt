-- ===== src/Tests/Decisions.antt =====
-- Runs and instances for the handlers of COM_QUERY and COM_STMT_EXECUTE.
use ohmydb_proxy.Prelude.{
  [], arith, decode_utf8, false, inl, lit, ok, refl, text_eq, true, ◌∷◌, ◌≡◌, ◌≢◌, ◌⊎◌,
}
use ohmydb_proxy.MySql.Packet.{MySqlLogicalMessage}
use ohmydb_proxy.MySql.Command.{parse_query}
use ohmydb_proxy.Policy.{evaluate_policy, safe}
use ohmydb_proxy.Policy.Classifier.{classify}
use ohmydb_proxy.Policy.FailSafe.{FailSafeMode, evaluate_protocol_gap, permissive, strict}
use ohmydb_proxy.Policy.Laws.{IsSmallChange}
use ohmydb_proxy.Proxy.{ProxyOptions, estimate, evaluate_and_decide, to_backend}
use ohmydb_proxy.Proxy.Laws.{IsStrict}
use ohmydb_proxy.MySql.Handler.{
  answer_decision, handle_mysql_protocol_gap, handle_mysql_query, handle_mysql_stmt_execute,
}
use ohmydb_proxy.MySql.Handler.Laws.{handle_mysql_stmt_execute-unattended}
use ohmydb_proxy.Tests.Rules.{default-IsGuarded, default_config, default_valid, select_parser}

-- Options of an unattended proxy.
abbrev pub options : FailSafeMode → ProxyOptions
options mode = record {
  policy_config = default_config;
  fail_safe_mode = mode;
  sqlglot = select_parser;
  estimate_rows = λ preview database. inl 0;
  sanitize_sql = λ sql. sql;
  provider_confirm = λ context. false;
}

abbrev pub select_message : MySqlLogicalMessage
select_message = record {
  first_sequence_id = 0;
  last_sequence_id = 0;
  payload = 3 ∷ lit "SELECT 1";
  raw_packets = 9 ∷ 0 ∷ 0 ∷ 0 ∷ 3 ∷ lit "SELECT 1";
  packet_count = 1;
}

handle_mysql_query_runs :
    handle_mysql_query (options strict) select_message (lit "SELECT 1") (lit "shop")
    ≡ ok (true, to_backend select_message.raw_packets)
unfolding handle_mysql_query parse_query lit decode_utf8 answer_decision evaluate_and_decide
    evaluate_policy classify
handle_mysql_query_runs = refl

handle_mysql_protocol_gap_runs :
    handle_mysql_protocol_gap (options permissive) (lit "gap") (1 ∷ []) 1
    ≡ ok (true, to_backend (1 ∷ []))
unfolding handle_mysql_protocol_gap evaluate_protocol_gap
handle_mysql_protocol_gap_runs = refl

handle_mysql_stmt_execute_runs :
    handle_mysql_stmt_execute
      (options strict)
      select_message
      (lit "SELECT 1")
      (lit "prepared")
      true
      (lit "shop")
    ≡ ok (true, to_backend select_message.raw_packets)
unfolding handle_mysql_stmt_execute text_eq classify lit answer_decision evaluate_and_decide
    evaluate_policy
handle_mysql_stmt_execute_runs = refl

pub strict-IsStrict : IsStrict (options strict)
strict-IsStrict = record {
  guarded = default-IsGuarded;
  valid = default_valid;
  unattended = λ context. refl;
  mode = λ e. absurd (ground (arith, e));
}

strict-permissive : strict ≢ permissive
strict-permissive e = absurd (ground (arith, e))

handle_mysql_stmt_execute-unattended_example :
    (select_message.raw_packets ≡ select_message.raw_packets)
    × (let inspection = classify select_parser (lit "SELECT 1") in
        let e = estimate (options strict) inspection (lit "shop") in
        ((inspection.risk ≡ safe)
          ⊎ ((true ≡ true) × IsSmallChange inspection e.0 e.1 default_config)))
handle_mysql_stmt_execute-unattended_example =
    handle_mysql_stmt_execute-unattended (options strict) select_message (lit "SELECT 1")
      (lit "prepared") true (lit "shop") true select_message.raw_packets default-IsGuarded
      default_valid (λ context. refl) strict-permissive handle_mysql_stmt_execute_runs
