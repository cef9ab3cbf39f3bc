-- ===== src/MySql/Handler/Laws.antt =====
-- What the handlers forward to the backend.
use ohmydb_proxy.Prelude.{
  Bool, Bool-cases, Bytes, Option, Result-cases, Text, arith, false, if◌then◌else◌, inl, inr,
  is_some, lit, none, ok, refl, some, text_eq, true, ℕ, ◌%◌, ◌++◌, ◌+◌, ◌||◌, ◌≡◌, ◌≢◌, ◌⊎◌,
}
use ohmydb_proxy.Proxy.{ProxyOptions, estimate, evaluate_and_decide, is_allowed_gap, to_backend}
use ohmydb_proxy.Proxy.Laws.{IsUnattended, allow_gap-permissive, evaluate_and_decide-allow}
use ohmydb_proxy.MySql.Packet.{MySqlLogicalMessage, build_error_packet}
use ohmydb_proxy.MySql.Command.{parse_query}
use ohmydb_proxy.Policy.{Classification, PolicyDecision, decision, is_error, post_init, safe}
use ohmydb_proxy.Policy.Classifier.{classify}
use ohmydb_proxy.Policy.FailSafe.{evaluate_protocol_gap, permissive}
use ohmydb_proxy.Policy.Laws.{IsGuarded, IsSmallChange, evaluate_policy-allow}
use ohmydb_proxy.MySql.Handler.{
  answer_decision, build_mysql_policy_error, decide_stmt_execute, estimate_prepared,
  handle_mysql_protocol_gap, handle_mysql_query, handle_mysql_stmt_execute, handle_sql,
  mysql_protocol_gap_error_code,
}

answer_decision-forwards :
    (message : MySqlLogicalMessage) (c : Classification) (rows : Option ℕ)
    (d : Bool × PolicyDecision) (forwarded : Bool) (raw : Bytes)
    → answer_decision message c rows d ≡ ok (forwarded, to_backend raw)
    → (d.0 ≡ true) × (raw ≡ message.raw_packets)
unfolding answer_decision
answer_decision-forwards message c rows (true, decision) forwarded raw h = (refl, ground (arith, h))
answer_decision-forwards message c rows (false, decision) forwarded raw h =
    elim (Result-cases
      (build_mysql_policy_error c rows decision ((message.last_sequence_id + 1) % 256))) [
        | inl (packet, p) ↦ absurd (ground (arith, h, p))
        | inr (e, p) ↦ absurd (ground (arith, h, p))
      ]

-- With valid thresholds, no configured action that allows and no user that approves,
-- `handle_mysql_query` forwards a message only as the client sent it, and only when the payload's text
-- is classified as safe or is a small change by the estimate made for it.
pub handle_mysql_query-unattended :
    (opts : ProxyOptions) (message : MySqlLogicalMessage) (payload : Bytes) (database : Text)
    (forwarded : Bool) (raw : Bytes)
    → IsGuarded opts.policy_config
    → post_init opts.policy_config ≡ ok tt
    → IsUnattended opts
    → handle_mysql_query opts message payload database ≡ ok (forwarded, to_backend raw)
    → (sql : Text) × (parse_query payload ≡ ok sql)
      × (raw ≡ message.raw_packets)
      × (let c = classify opts.sqlglot sql in
          let e = estimate opts c database in
          ((c.risk ≡ safe) ⊎ IsSmallChange c e.0 e.1 opts.policy_config))
unfolding handle_mysql_query
handle_mysql_query-unattended opts message payload database forwarded raw g v u h =
    elim (Result-cases (parse_query payload)) [
      | inr (x, q) ↦ absurd (ground (arith, q, h))
      | inl (sql, q) ↦
          let c = classify opts.sqlglot sql in
          let e = estimate opts c database in
          let sent : handle_sql opts message sql database ≡ ok (forwarded, to_backend raw) =
            rw q at h in
          let (approved, whole) =
            answer_decision-forwards message c e.0
              (evaluate_and_decide opts sql database c e.0 e.1 false) forwarded raw sent in
          (
            sql,
            q,
            whole,
            (evaluate_policy-allow c e.0 e.1 opts.policy_config g v).0
                (evaluate_and_decide-allow opts sql database c e.0 e.1 false u approved),
          )
    ]

-- `handle_mysql_protocol_gap` forwards a message in the permissive mode alone.
pub handle_mysql_protocol_gap-permissive :
    (opts : ProxyOptions) (reason : Text) (message : Bytes) (sequence_id : ℕ) (forwarded : Bool)
    (raw : Bytes)
    → handle_mysql_protocol_gap opts reason message sequence_id ≡ ok (forwarded, to_backend raw)
    → opts.fail_safe_mode ≡ permissive
unfolding handle_mysql_protocol_gap
handle_mysql_protocol_gap-permissive opts reason message sequence_id forwarded raw h =
    let gap = evaluate_protocol_gap opts.fail_safe_mode reason in
    elim (Bool-cases (is_allowed_gap gap.action)) [
      | inl a ↦ allow_gap-permissive opts.fail_safe_mode reason a
      | inr a ↦
          elim (Result-cases (
            build_error_packet
              (lit "Query blocked by OhMyDB. Protocol gap: " ++ (gap.reason ++ lit ".")) sequence_id
              mysql_protocol_gap_error_code (lit "0A000"))) [
                | inl (packet, p) ↦ absurd (ground (arith, a, p, h))
                | inr (e, p) ↦ absurd (ground (arith, a, p, h))
              ]
    ]

-- A small change by the estimate of a prepared statement is one by the estimate itself, which was
-- made.
prepared_small :
    (opts : ProxyOptions) (inspection : Classification) (estimate_safe : Bool) (database : Text)
    → (let e = estimate_prepared opts inspection estimate_safe database in
        ((inspection.risk ≡ safe) ⊎ IsSmallChange inspection e.0 e.1 opts.policy_config))
    → (let e = estimate opts inspection database in
        ((inspection.risk ≡ safe)
          ⊎ ((estimate_safe ≡ true) × IsSmallChange inspection e.0 e.1 opts.policy_config)))
unfolding estimate_prepared lit
prepared_small opts inspection estimate_safe database (inl s) = inl s
prepared_small opts inspection false database (inr h) = cc (h.1)
prepared_small opts inspection true database (inr (n, e, f, r, b, o, w, l)) =
    inr (refl, (n, e, unfailed (estimate opts inspection database).1 f, r, b, o, w, l))
  where
    unfailed :
        (error : Option Text)
        → is_error (
            if is_some error
            then some (lit "Prepared-statement row-impact estimation failed")
            else none)
          ≡ false
        → is_error error ≡ false
    unfailed none h = refl
    unfailed (some t) h = cc h

-- With valid thresholds, no configured action that allows, no user that approves and a fail-safe
-- mode that is not permissive, `handle_mysql_stmt_execute` forwards a message only as the client sent
-- it, and only when the reconstructed text is classified as safe, or when an estimate may be made for
-- it and it is a small change by that estimate.
pub handle_mysql_stmt_execute-unattended :
    (opts : ProxyOptions) (message : MySqlLogicalMessage) (sql description : Text)
    (estimate_safe : Bool) (database : Text) (forwarded : Bool) (raw : Bytes)
    → IsGuarded opts.policy_config
    → post_init opts.policy_config ≡ ok tt
    → IsUnattended opts
    → opts.fail_safe_mode ≢ permissive
    → handle_mysql_stmt_execute opts message sql description estimate_safe database
      ≡ ok (forwarded, to_backend raw)
    → (raw ≡ message.raw_packets)
      × (let inspection = classify opts.sqlglot sql in
          let e = estimate opts inspection database in
          ((inspection.risk ≡ safe)
            ⊎ ((estimate_safe ≡ true) × IsSmallChange inspection e.0 e.1 opts.policy_config)))
unfolding handle_mysql_stmt_execute
handle_mysql_stmt_execute-unattended opts message sql description estimate_safe database forwarded
      raw g v u m h =
    let inspection = classify opts.sqlglot sql in
    elim (Bool-cases (
      text_eq inspection.statement_type (lit "EMPTY")
      || text_eq inspection.statement_type (lit "UNPARSEABLE"))) [
        | inl gap ↦
            absurd (m (handle_mysql_protocol_gap-permissive opts _ _ _ forwarded raw (rw gap at h)))
        | inr parsed ↦
            let c = record inspection { preview_query = none } in
            let e = estimate_prepared opts inspection estimate_safe database in
            let sent : decide_stmt_execute opts message inspection description estimate_safe
                  database
                ≡ ok (forwarded, to_backend raw) =
              rw parsed at h in
            let (approved, whole) =
              answer_decision-forwards message c e.0
                (evaluate_and_decide opts description database c e.0 e.1 false) forwarded raw
                sent in
            (
              whole,
              prepared_small opts inspection estimate_safe database (
                  (evaluate_policy-allow c e.0 e.1 opts.policy_config g v).0 (
                    evaluate_and_decide-allow opts description database c e.0 e.1 false u
                      approved)),
            )
      ]
