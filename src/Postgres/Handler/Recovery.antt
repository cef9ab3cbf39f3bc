-- ===== src/Postgres/Handler/Recovery.antt =====
-- The state that the PostgreSQL handlers keep, and the recovery from an error in the extended protocol.
use ohmydb_proxy.Prelude.{
  Bool, Bytes, List, Option, Result, Text, [], err, false, if◌then◌else◌, index_error, lit,
  mysql_protocol_error, none, ok, protocol_message_error, refl, some, struct_error, text_eq, true,
  value_error, ℕ, ◌++◌, ◌>>=◌, ◌∷◌, ◌≡◌,
}
use ohmydb_proxy.Prelude.Dict.{lookup}
use ohmydb_proxy.Policy.{Classification, PolicyDecision}
use ohmydb_proxy.Policy.Classifier.{classify}
use ohmydb_proxy.Policy.FailSafe.{evaluate_protocol_gap}
use ohmydb_proxy.Proxy.{ProxyOptions, Sent, is_allowed_gap, to_backend, to_client}
use ohmydb_proxy.Postgres.Protocol.{Message, build_error_response, parse_simple_query_text}
use ohmydb_proxy.Postgres.Extended.{
  BindMessage, parse_bind_message, parse_close_message, parse_execute_message, parse_parse_message,
}
use ohmydb_proxy.Postgres.State.{
  ConnectionState, close_portal, close_statement, register_portal, register_statement, state_bytes,
}
use ohmydb_proxy.Postgres.State.Limits.{
  IsBounded, close_portal-IsBounded, close_statement-IsBounded, register_portal-IsBounded,
  register_statement-IsBounded,
}
use ohmydb_proxy.Postgres.Handler.{
  Handled, catching, decide_execute, decide_simple, estimate_execution, execute_portal,
  execute_template, finish_execute, finish_simple, handle_bind, handle_by_type, handle_close,
  handle_execute, handle_frontend_message, handle_parse, handle_protocol_gap, handle_simple_query,
  is_safe, is_type, refuse_gap,
}

-- The state that a handler leaves, when there is one, meets a predicate.
abbrev pub Leaves : (ConnectionState → Type 0) → Handled → Type 0
Leaves P (ok (state, sent)) = P state
Leaves P (err e) = Unit {0}

pending_IsBounded :
    (state : ConnectionState) (b : Bool)
    → IsBounded state
    → IsBounded (record state { extended_error_pending = b })
unfolding state_bytes
pending_IsBounded state b v = record {
  statements_distinct = v.statements_distinct;
  portals_distinct = v.portals_distinct;
  statements = v.statements;
  portals = v.portals;
  bytes = v.bytes;
}

ready_Leaves :
    (P : ConnectionState → Type 0) (state : ConnectionState) (ready : Result Bytes) (front : Sent)
    → P state
    → Leaves P (do r ← ready; ok (state, front ∷ to_client r ∷ []))
ready_Leaves P state (ok r) front h = h
ready_Leaves P state (err e) front h = tt

gap-IsBounded :
    (opts : ProxyOptions) (state : ConnectionState) (reason : Text) (raw : Bytes) (recovery : Bool)
    → IsBounded state
    → Leaves IsBounded (handle_protocol_gap opts state reason raw recovery)
unfolding handle_protocol_gap
gap-IsBounded opts state reason raw recovery v =
    choose (is_allowed_gap (evaluate_protocol_gap opts.fail_safe_mode reason).action) recovery
  where
    choose :
        (allowed recovery : Bool)
        → Leaves IsBounded (
            if allowed
            then ok (state, to_backend raw ∷ [])
            else refuse_gap state recovery (
                build_error_response
                  (lit "Query blocked by OhMyDB. Protocol gap: "
                    ++ ((evaluate_protocol_gap opts.fail_safe_mode reason).reason ++ lit "."))
                  (lit "0A000")))
    choose true recovery = v
    choose false true = pending_IsBounded state true v
    choose false false = ready_Leaves IsBounded state _ _ v

finish_simple-IsBounded :
    (state : ConnectionState) (raw : Bytes) (c : Classification) (rows : Option ℕ)
    (d : Bool × PolicyDecision)
    → IsBounded state
    → Leaves IsBounded (finish_simple state raw c rows d)
finish_simple-IsBounded state raw c rows (true, d) v = v
finish_simple-IsBounded state raw c rows (false, d) v = ready_Leaves IsBounded state _ _ v

finish_execute-IsBounded :
    (state : ConnectionState) (raw : Bytes) (c : Classification) (rows : Option ℕ)
    (d : Bool × PolicyDecision)
    → IsBounded state
    → Leaves IsBounded (finish_execute state raw c rows d)
finish_execute-IsBounded state raw c rows (true, d) v = v
finish_execute-IsBounded state raw c rows (false, d) v = pending_IsBounded state true v

Leaves-if :
    (P : ConnectionState → Type 0) (b : Bool) (x y : Handled)
    → Leaves P x
    → Leaves P y
    → Leaves P (if b then x else y)
Leaves-if P true x y hx hy = hx
Leaves-if P false x y hx hy = hy

Leaves->>= {ℓ} :
    {A : Type ℓ} (P : ConnectionState → Type 0) (r : Result A) (f : A → Handled)
    → ((a : A) → r ≡ ok a → Leaves P (f a))
    → Leaves P (r >>= f)
Leaves->>= P (ok a) f h = h a refl
Leaves->>= P (err e) f h = tt

decide_simple-IsBounded :
    (opts : ProxyOptions) (state : ConnectionState) (raw : Bytes) (sql : Text)
    → IsBounded state
    → Leaves IsBounded (decide_simple opts state raw sql)
unfolding decide_simple
decide_simple-IsBounded opts state raw sql v =
    Leaves-if IsBounded (is_safe (classify opts.sqlglot sql).risk) _ _ v
      (finish_simple-IsBounded state raw _ _ _ v)

decide_execute-IsBounded :
    (opts : ProxyOptions) (state : ConnectionState) (raw : Bytes) (bind : BindMessage) (sql : Text)
    → IsBounded state
    → Leaves IsBounded (decide_execute opts state raw bind sql)
unfolding decide_execute
decide_execute-IsBounded opts state raw bind sql v =
    Leaves-if IsBounded (is_safe (classify opts.sqlglot sql).risk) _ _ v (
      Leaves->>= IsBounded (estimate_execution opts state bind (classify opts.sqlglot sql)) _
        (λ e _. finish_execute-IsBounded state raw _ _ _ v))

execute_portal-IsBounded :
    (opts : ProxyOptions) (state : ConnectionState) (raw : Bytes) (portal : Option BindMessage)
    → IsBounded state
    → Leaves IsBounded (execute_portal opts state raw portal)
execute_portal-IsBounded opts state raw none v = gap-IsBounded opts state _ raw true v
execute_portal-IsBounded opts state raw (some bind) v =
    template (lookup bind.statement_name state.prepared_statements)
  where
    template : (sql : Option Text) → Leaves IsBounded (execute_template opts state raw bind sql)
    template none = gap-IsBounded opts state _ raw true v
    template (some sql) = decide_execute-IsBounded opts state raw bind sql v

handle_simple_query-IsBounded :
    (opts : ProxyOptions) (state : ConnectionState) (msg : Message)
    → IsBounded state
    → Leaves IsBounded (handle_simple_query opts state msg)
unfolding handle_simple_query
handle_simple_query-IsBounded opts state msg v =
    Leaves->>= IsBounded (parse_simple_query_text msg.payload) _
      (λ sql _. decide_simple-IsBounded opts state msg.raw sql v)

handle_execute-IsBounded :
    (opts : ProxyOptions) (state : ConnectionState) (msg : Message)
    → IsBounded state
    → Leaves IsBounded (handle_execute opts state msg)
unfolding handle_execute
handle_execute-IsBounded opts state msg v =
    Leaves->>= IsBounded (parse_execute_message msg.payload) _
      (λ execute _. execute_portal-IsBounded opts state msg.raw _ v)

handle_parse-IsBounded :
    (state : ConnectionState) (msg : Message)
    → IsBounded state
    → Leaves IsBounded (handle_parse state msg)
unfolding handle_parse
handle_parse-IsBounded state msg v =
    Leaves->>= IsBounded (parse_parse_message msg.payload) _ (λ parsed _.
      Leaves->>= IsBounded (register_statement state parsed.statement_name parsed.query) _
        (λ state' e. register_statement-IsBounded state _ _ state' e v))

handle_bind-IsBounded :
    (state : ConnectionState) (msg : Message)
    → IsBounded state
    → Leaves IsBounded (handle_bind state msg)
unfolding handle_bind
handle_bind-IsBounded state msg v =
    Leaves->>= IsBounded (parse_bind_message msg.payload) _ (λ bind _.
      Leaves->>= IsBounded (register_portal state bind) _
        (λ state' e. register_portal-IsBounded state bind state' e v))

closed-IsBounded :
    (b : Bool) (state : ConnectionState) (name : Text)
    → IsBounded state
    → IsBounded (if b then close_statement state name else close_portal state name)
closed-IsBounded true state name v = close_statement-IsBounded state name v
closed-IsBounded false state name v = close_portal-IsBounded state name v

handle_close-IsBounded :
    (state : ConnectionState) (msg : Message)
    → IsBounded state
    → Leaves IsBounded (handle_close state msg)
unfolding handle_close
handle_close-IsBounded state msg v =
    Leaves->>= IsBounded (parse_close_message msg.payload) _
      (λ close _. closed-IsBounded (text_eq close.target_type (lit "S")) state close.name v)

handle_by_type-IsBounded :
    (opts : ProxyOptions) (state : ConnectionState) (msg : Message)
    → IsBounded state
    → Leaves IsBounded (handle_by_type opts state msg)
unfolding handle_by_type
handle_by_type-IsBounded opts state msg v =
    Leaves-if IsBounded (is_type msg "Q") _ _ (handle_simple_query-IsBounded opts state msg v) (
      Leaves-if IsBounded (is_type msg "P") _ _ (handle_parse-IsBounded state msg v) (
        Leaves-if IsBounded (is_type msg "B") _ _ (handle_bind-IsBounded state msg v) (
          Leaves-if IsBounded (is_type msg "E") _ _ (handle_execute-IsBounded opts state msg v)
            (Leaves-if IsBounded (is_type msg "C") _ _ (handle_close-IsBounded state msg v) v))))

catching-IsBounded :
    (opts : ProxyOptions) (state : ConnectionState) (msg : Message) (r : Handled)
    → IsBounded state
    → Leaves IsBounded r
    → Leaves IsBounded (catching opts state msg r)
catching-IsBounded opts state msg (ok r) v h = h
catching-IsBounded opts state msg (err (protocol_message_error t)) v h =
    gap-IsBounded opts state _ msg.raw _ v
catching-IsBounded opts state msg (err (mysql_protocol_error t)) v h = tt
catching-IsBounded opts state msg (err (value_error t)) v h = tt
catching-IsBounded opts state msg (err index_error) v h = tt
catching-IsBounded opts state msg (err struct_error) v h = tt

skip_to_sync-IsBounded :
    (s x : Bool) (state : ConnectionState) (raw : Bytes)
    → IsBounded state
    → IsBounded
        (if◌then◌else◌ {A = ConnectionState × List Sent} s
          (record state { extended_error_pending = false }, to_backend raw ∷ [])
          (if x then (state, to_backend raw ∷ []) else (state, []))).0
skip_to_sync-IsBounded true x state raw v = pending_IsBounded state false v
skip_to_sync-IsBounded false true state raw v = v
skip_to_sync-IsBounded false false state raw v = v

-- A message of the client leaves a bounded state bounded, whatever it holds.
pub handle_frontend_message-IsBounded :
    (opts : ProxyOptions) (state : ConnectionState) (msg : Message)
    → IsBounded state
    → Leaves IsBounded (handle_frontend_message opts state msg)
unfolding handle_frontend_message
handle_frontend_message-IsBounded opts state msg v =
    Leaves-if IsBounded state.extended_error_pending _ _
      (skip_to_sync-IsBounded (is_type msg "S") (is_type msg "X") state msg.raw v)
      (catching-IsBounded opts state msg _ v (handle_by_type-IsBounded opts state msg v))
