-- ===== src/Postgres/Handler/Laws.antt =====
-- What the PostgreSQL handlers forward to the backend.
use ohmydb_proxy.Prelude.{
  Bool, Bytes, List, Option, Result, Text, [], err, false, if◌then◌else◌, index_error, inl, inr,
  mysql_protocol_error, none, ok, protocol_message_error, refl, some, struct_error, true,
  value_error, ℕ, ◌>>=◌, ◌∷◌, ◌≡◌, ◌≢◌, ◌⊎◌,
}
use ohmydb_proxy.Prelude.Dict.{lookup}
use ohmydb_proxy.Policy.{Classification, PolicyDecision, Risk, risky, safe, unknown_risk}
use ohmydb_proxy.Policy.Classifier.{classify}
use ohmydb_proxy.Policy.FailSafe.{evaluate_protocol_gap, permissive}
use ohmydb_proxy.Policy.Laws.{evaluate_policy-allow}
use ohmydb_proxy.Proxy.{
  ProxyOptions, Sent, estimate, evaluate_and_decide, is_allowed_gap, to_backend, to_client,
}
use ohmydb_proxy.Proxy.Laws.{IsStrict, MayPass, allow_gap-permissive, evaluate_and_decide-allow}
use ohmydb_proxy.Postgres.Protocol.{Message, parse_simple_query_text}
use ohmydb_proxy.Postgres.Extended.{
  BindMessage, CloseMessage, ExecuteMessage, ParseMessage, parse_bind_message, parse_close_message,
  parse_execute_message, parse_parse_message,
}
use ohmydb_proxy.Postgres.State.{ConnectionState, register_portal, register_statement}
use ohmydb_proxy.Postgres.Handler.{
  Estimation, Handled, catching, decide_execute, decide_simple, estimate_execution, execute_portal,
  execute_template, finish_execute, finish_simple, handle_bind, handle_by_type, handle_close,
  handle_execute, handle_frontend_message, handle_parse, handle_protocol_gap, handle_simple_query,
  is_safe, is_type, refuse_gap,
}

-- Why a message may reach the backend. While an error is pending, it is a Sync or a Terminate.
-- Otherwise the text of a Simple Query may pass; the text of an Execute's portal is known and safe, or
-- a small change by the estimate with its parameters; a Parse, a Bind or a Close was read, and what it
-- registers fits in the session; or its type is none of these five, and it is not inspected.
pub data IsPermitted (opts : ProxyOptions) (state : ConnectionState) (msg : Message) : Type 0 where
  recovering :
      state.extended_error_pending ≡ true
      → (is_type msg "S" ≡ true) ⊎ (is_type msg "X" ≡ true)
      → IsPermitted opts state msg
  simple :
      (sql : Text)
      → state.extended_error_pending ≡ false
      → is_type msg "Q" ≡ true
      → parse_simple_query_text msg.payload ≡ ok sql
      → MayPass opts
          (classify opts.sqlglot sql)
          (estimate opts (classify opts.sqlglot sql) state.database).0
          (estimate opts (classify opts.sqlglot sql) state.database).1
      → IsPermitted opts state msg
  known_safe :
      (bind : BindMessage) (sql : Text) (execute : ExecuteMessage)
      → state.extended_error_pending ≡ false
      → is_type msg "E" ≡ true
      → parse_execute_message msg.payload ≡ ok execute
      → lookup execute.portal_name state.portals ≡ some bind
      → lookup bind.statement_name state.prepared_statements ≡ some sql
      → (classify opts.sqlglot sql).risk ≡ safe
      → IsPermitted opts state msg
  known_small :
      (bind : BindMessage) (sql : Text) (execute : ExecuteMessage) (e : Estimation)
      → state.extended_error_pending ≡ false
      → is_type msg "E" ≡ true
      → parse_execute_message msg.payload ≡ ok execute
      → lookup execute.portal_name state.portals ≡ some bind
      → lookup bind.statement_name state.prepared_statements ≡ some sql
      → estimate_execution opts state bind (classify opts.sqlglot sql) ≡ ok e
      → MayPass opts (classify opts.sqlglot sql) e.estimated_rows e.estimate_error
      → IsPermitted opts state msg
  registered :
      (parsed : ParseMessage) (after : ConnectionState)
      → state.extended_error_pending ≡ false
      → is_type msg "P" ≡ true
      → parse_parse_message msg.payload ≡ ok parsed
      → register_statement state parsed.statement_name parsed.query ≡ ok after
      → IsPermitted opts state msg
  bound :
      (bind : BindMessage) (after : ConnectionState)
      → state.extended_error_pending ≡ false
      → is_type msg "B" ≡ true
      → parse_bind_message msg.payload ≡ ok bind
      → register_portal state bind ≡ ok after
      → IsPermitted opts state msg
  closing :
      (close : CloseMessage)
      → state.extended_error_pending ≡ false
      → is_type msg "C" ≡ true
      → parse_close_message msg.payload ≡ ok close
      → IsPermitted opts state msg
  uninspected :
      state.extended_error_pending ≡ false
      → is_type msg "Q" ≡ false
      → is_type msg "P" ≡ false
      → is_type msg "B" ≡ false
      → is_type msg "E" ≡ false
      → is_type msg "C" ≡ false
      → IsPermitted opts state msg

-- Every write to the backend is `raw`, for a reason.
abbrev pub Only : Bytes → Type 0 → List Sent → Type 0
Only raw P [] = Unit {0}
Only raw P (to_client packet ∷ sent) = Only raw P sent
Only raw P (to_backend packet ∷ sent) = (packet ≡ raw) × P × Only raw P sent

abbrev pub Forwards : Bytes → Type 0 → Handled → Type 0
Forwards raw P (ok (state, sent)) = Only raw P sent
Forwards raw P (err e) = Unit {0}

Forwards-if :
    (raw : Bytes) (P : Type 0) (b : Bool) (x y : Handled)
    → (b ≡ true → Forwards raw P x)
    → (b ≡ false → Forwards raw P y)
    → Forwards raw P (if b then x else y)
Forwards-if raw P true x y hx hy = hx refl
Forwards-if raw P false x y hx hy = hy refl

Forwards->>= {ℓ} :
    {A : Type ℓ} (raw : Bytes) (P : Type 0) (r : Result A) (f : A → Handled)
    → ((a : A) → r ≡ ok a → Forwards raw P (f a))
    → Forwards raw P (r >>= f)
Forwards->>= raw P (ok a) f h = h a refl
Forwards->>= raw P (err e) f h = tt

ready_Forwards :
    (raw : Bytes) (P : Type 0) (state : ConnectionState) (ready : Result Bytes) (packet : Bytes)
    → Forwards raw P (do r ← ready; ok (state, to_client packet ∷ to_client r ∷ []))
ready_Forwards raw P state (ok r) packet = tt
ready_Forwards raw P state (err e) packet = tt

-- Outside the permissive mode nothing is forwarded for a protocol gap.
refuse_gap-Forwards :
    (raw : Bytes) (P : Type 0) (state : ConnectionState) (recovery : Bool) (refusal : Bytes)
    → Forwards raw P (refuse_gap state recovery refusal)
refuse_gap-Forwards raw P state true refusal = tt
refuse_gap-Forwards raw P state false refusal = ready_Forwards raw P state _ refusal

gap_Forwards :
    (opts : ProxyOptions) (state : ConnectionState) (reason : Text) (raw raw' : Bytes) (P : Type 0)
    (recovery : Bool)
    → opts.fail_safe_mode ≢ permissive
    → Forwards raw P (handle_protocol_gap opts state reason raw' recovery)
unfolding handle_protocol_gap
gap_Forwards opts state reason raw raw' P recovery m =
    Forwards-if raw P (is_allowed_gap (evaluate_protocol_gap opts.fail_safe_mode reason).action) _ _
      (λ a. absurd (m (allow_gap-permissive opts.fail_safe_mode reason a)))
      (λ _. refuse_gap-Forwards raw P state recovery _)

is_safe→eq : (r : Risk) → is_safe r ≡ true → r ≡ safe
is_safe→eq safe h = refl
is_safe→eq risky h = cc
is_safe→eq unknown_risk h = cc

finish_simple-Forwards :
    (state : ConnectionState) (raw : Bytes) (P : Type 0) (c : Classification) (rows : Option ℕ)
    (d : Bool × PolicyDecision)
    → (d.0 ≡ true → P)
    → Forwards raw P (finish_simple state raw c rows d)
finish_simple-Forwards state raw P c rows (true, d) h = (refl, h refl, tt)
finish_simple-Forwards state raw P c rows (false, d) h = ready_Forwards raw P state _ _

finish_execute-Forwards :
    (state : ConnectionState) (raw : Bytes) (P : Type 0) (c : Classification) (rows : Option ℕ)
    (d : Bool × PolicyDecision)
    → (d.0 ≡ true → P)
    → Forwards raw P (finish_execute state raw c rows d)
finish_execute-Forwards state raw P c rows (true, d) h = (refl, h refl, tt)
finish_execute-Forwards state raw P c rows (false, d) h = tt

module _ (opts : ProxyOptions) (w : IsStrict opts) (state : ConnectionState) (msg : Message) where
  approved_MayPass :
      (sql : Text) (c : Classification) (rows : Option ℕ) (error : Option Text) (approximate : Bool)
      → (evaluate_and_decide opts sql state.database c rows error approximate).0 ≡ true
      → MayPass opts c rows error
  approved_MayPass sql c rows error approximate h =
      (evaluate_policy-allow c rows error opts.policy_config w.guarded w.valid).0
        (evaluate_and_decide-allow opts sql state.database c rows error approximate w.unattended h)

  simple_Forwards :
      state.extended_error_pending ≡ false
      → is_type msg "Q" ≡ true
      → Forwards msg.raw (IsPermitted opts state msg) (handle_simple_query opts state msg)
  unfolding handle_simple_query decide_simple
  simple_Forwards f q = Forwards->>= msg.raw _ (parse_simple_query_text msg.payload) _ λ sql p.
      Forwards-if msg.raw _ (is_safe (classify opts.sqlglot sql).risk) _ _
        (λ s. (refl, simple sql f q p (inl (is_safe→eq _ s)), tt))
        (λ _.
          finish_simple-Forwards state msg.raw _ _ _ _
            (λ a. simple sql f q p (approved_MayPass sql _ _ _ false a)))

  execute_Forwards :
      state.extended_error_pending ≡ false
      → is_type msg "E" ≡ true
      → Forwards msg.raw (IsPermitted opts state msg) (handle_execute opts state msg)
  unfolding handle_execute decide_execute
  execute_Forwards f x =
      Forwards->>= msg.raw _ (parse_execute_message msg.payload) _
        λ execute p. portal execute p (lookup execute.portal_name state.portals) refl
    where
      template :
          (execute : ExecuteMessage)
          → parse_execute_message msg.payload ≡ ok execute
          → (bind : BindMessage) → lookup execute.portal_name state.portals ≡ some bind
          → (sql : Option Text) → lookup bind.statement_name state.prepared_statements ≡ sql
          → Forwards msg.raw
              (IsPermitted opts state msg)
              (execute_template opts state msg.raw bind sql)
      template execute p bind b none t = gap_Forwards opts state _ msg.raw msg.raw _ true w.mode
      template execute p bind b (some sql) t =
          Forwards-if msg.raw _ (is_safe (classify opts.sqlglot sql).risk) _ _
            (λ s. (refl, known_safe bind sql execute f x p b t (is_safe→eq _ s), tt))
            (λ _.
              Forwards->>= msg.raw _
                (estimate_execution opts state bind (classify opts.sqlglot sql)) _
                (λ e q. finish_execute-Forwards state msg.raw _ _ _ _ (λ a.
                  known_small bind sql execute e f x p b t q
                    (approved_MayPass sql _ _ _ e.approximate a))))

      portal :
          (execute : ExecuteMessage)
          → parse_execute_message msg.payload ≡ ok execute
          → (found : Option BindMessage) → lookup execute.portal_name state.portals ≡ found
          → Forwards msg.raw (IsPermitted opts state msg) (execute_portal opts state msg.raw found)
      portal execute p none b = gap_Forwards opts state _ msg.raw msg.raw _ true w.mode
      portal execute p (some bind) b =
          template execute p bind b (lookup bind.statement_name state.prepared_statements) refl

  kept_Forwards :
      (r : Result ConnectionState)
      → ((after : ConnectionState) → r ≡ ok after → IsPermitted opts state msg)
      → Forwards msg.raw (IsPermitted opts state msg) (do s ← r; ok (s, to_backend msg.raw ∷ []))
  kept_Forwards (ok s) h = (refl, h s refl, tt)
  kept_Forwards (err e) h = tt

  by_type_Forwards :
      state.extended_error_pending ≡ false
      → Forwards msg.raw (IsPermitted opts state msg) (handle_by_type opts state msg)
  unfolding handle_by_type handle_parse handle_bind handle_close
  by_type_Forwards f =
      Forwards-if msg.raw _ (is_type msg "Q") _ _ (λ q. simple_Forwards f q)
        λ q.
          Forwards-if msg.raw _ (is_type msg "P") _ _
            (λ t. Forwards->>= msg.raw _ (parse_parse_message msg.payload) _ (λ parsed e.
              kept_Forwards (register_statement state parsed.statement_name parsed.query)
                (λ after r. registered parsed after f t e r)))
            λ p.
              Forwards-if msg.raw _ (is_type msg "B") _ _
                (λ t. Forwards->>= msg.raw _ (parse_bind_message msg.payload) _ (λ bind e.
                  kept_Forwards (register_portal state bind) (λ after r. bound bind after f t e r)))
                λ b.
                  Forwards-if msg.raw _ (is_type msg "E") _ _ (λ t. execute_Forwards f t)
                    λ x.
                      Forwards-if msg.raw _ (is_type msg "C") _ _
                        (λ t.
                          Forwards->>= msg.raw _ (parse_close_message msg.payload) _
                            (λ close e. (refl, closing close f t e, tt)))
                        (λ c. (refl, uninspected f q p b x c, tt))

  catching-Forwards :
      (r : Handled)
      → Forwards msg.raw (IsPermitted opts state msg) r
      → Forwards msg.raw (IsPermitted opts state msg) (catching opts state msg r)
  catching-Forwards (ok r) h = h
  catching-Forwards (err (protocol_message_error t)) h =
      gap_Forwards opts state _ msg.raw msg.raw _ _ w.mode
  catching-Forwards (err (mysql_protocol_error t)) h = tt
  catching-Forwards (err (value_error t)) h = tt
  catching-Forwards (err index_error) h = tt
  catching-Forwards (err struct_error) h = tt

  -- With valid thresholds, no configured action that allows, no user that approves and a fail-safe
  -- mode that is not permissive, every write to the backend for a message of the client is that
  -- message as it was sent, and there is a reason for it. While an error is pending, the message is a
  -- Sync or a Terminate. Otherwise it is a Simple Query whose text is classified as safe or is a small
  -- change by its estimate; an Execute whose portal and statement are known, with such a text; a
  -- Parse, Bind or Close that is well formed and fits in the session; or a message of none of these
  -- types, which is not inspected.
  pub handle_frontend_message-IsPermitted :
      Forwards msg.raw (IsPermitted opts state msg) (handle_frontend_message opts state msg)
  unfolding handle_frontend_message
  handle_frontend_message-IsPermitted =
      Forwards-if msg.raw _ state.extended_error_pending _ _
        (λ e.
          skipped (is_type msg "S") (is_type msg "X") (λ s. recovering e (inl s))
            (λ x. recovering e (inr x)))
        (λ f. catching-Forwards (handle_by_type opts state msg) (by_type_Forwards f))
    where
      skipped :
          (s x : Bool)
          → (s ≡ true → IsPermitted opts state msg)
          → (x ≡ true → IsPermitted opts state msg)
          → Forwards msg.raw (IsPermitted opts state msg) (
              ok (
                if◌then◌else◌ {A = ConnectionState × List Sent} s
                  (record state { extended_error_pending = false }, to_backend msg.raw ∷ [])
                  (if x then (state, to_backend msg.raw ∷ []) else (state, []))))
      skipped true x hs hx = (refl, hs refl, tt)
      skipped false true hs hx = (refl, hx refl, tt)
      skipped false false hs hx = tt
