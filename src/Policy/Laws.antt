-- ===== src/Policy/Laws.antt =====
-- What the policy allows, blocks and leaves to a confirmation.
use ohmydb_proxy.Prelude.{
  Bool, Bool-cases, List, Option, Text, [], ap, arith, false, inl, inr, lit, none, ok, refl, some,
  sym, text_eq, text_eq→eq, true, ℕ, ◌&&◌, ◌++◌, ◌||◌, ◌↔◌, ◌∙◌, ◌∷◌, ◌≡◌, ◌≢◌, ◌≤◌, ◌⊎◌,
}
use ohmydb_proxy.Policy.{
  Classification, PolicyAction, PolicyConfig, allow, block, by_estimate, by_kind, by_rows, confirm,
  evaluate_policy, is_batch, is_error, is_false, is_schema, multi_statement, post_init, risky, safe,
}
use ohmydb_proxy.Policy.Classifier.{
  Sqlglot, classify, classify_change, classify_other, classify_statement, classify_statements,
  classify_structure, classify_truncate, contains, is_prefix, is_session_set, is_transaction,
  select_class, set_class, statements_of,
}

-- The actions from the most permissive one on.
abbrev pub rank : PolicyAction → ℕ
rank allow = 0
rank confirm = 1
rank block = 2

rank-by_rows :
    (m n : ℕ) (config : PolicyConfig)
    → m ≤ n
    → rank (by_rows m config).action ≤ rank (by_rows n config).action
unfolding by_rows
rank-by_rows m n config h = ground arith

-- An estimate of more rows never leads to a more permissive action, for the same statement, the
-- same report of an estimation error and the same configuration.
pub evaluate_policy_monotone :
    (classification : Classification) (m n : ℕ) (estimate_error : Option Text)
    (config : PolicyConfig)
    → m ≤ n
    → rank (evaluate_policy classification (some m) estimate_error config).action
      ≤ rank (evaluate_policy classification (some n) estimate_error config).action
unfolding evaluate_policy by_kind by_estimate
evaluate_policy_monotone classification m n estimate_error config h =
    ground (arith, rank-by_rows m n config h)

-- None of the configured actions is to allow.
pub record IsGuarded (config : PolicyConfig) : Type 0 where
  pub no_where : config.no_where_action ≢ allow
  pub structural : config.structural_action ≢ allow
  pub unknown_query : config.unknown_action ≢ allow
  pub estimation_failure : config.estimation_failure_action ≢ allow
  pub multi : config.multi_statement_action ≢ allow

-- A risky statement, alone, that neither changes the structure nor lacks a WHERE, whose rows were
-- estimated without an error and are within the threshold.
abbrev pub IsSmallChange : Classification → Option ℕ → Option Text → PolicyConfig → Type 0
IsSmallChange c estimated_rows estimate_error config =
    (n : ℕ) × (estimated_rows ≡ some n)
    × (is_error estimate_error ≡ false)
    × (c.risk ≡ risky)
    × (is_batch c.impact_kind ≡ false)
    × (is_schema c.impact_kind ≡ false)
    × (is_false c.has_where ≡ false)
    × (n ≤ config.auto_allow_max_rows)

-- The conditions of a small change, for an estimate that is there.
abbrev IsSmall : Classification → ℕ → Option Text → PolicyConfig → Type 0
IsSmall c n estimate_error config =
    (is_error estimate_error ≡ false)
    × (c.risk ≡ risky)
    × (is_batch c.impact_kind ≡ false)
    × (is_schema c.impact_kind ≡ false)
    × (is_false c.has_where ≡ false)
    × (n ≤ config.auto_allow_max_rows)

module _ (c : Classification) (estimate_error : Option Text) (config : PolicyConfig)
    (g : IsGuarded config) where
  allow_unestimated : (evaluate_policy c none estimate_error config).action ≡ allow → c.risk ≡ safe
  unfolding evaluate_policy by_kind by_estimate multi_statement
  allow_unestimated h =
      ground (arith, g.no_where, g.structural, g.unknown_query, g.estimation_failure, g.multi)

  allow_estimated :
      (n : ℕ)
      → (evaluate_policy c (some n) estimate_error config).action ≡ allow
      → (c.risk ≡ safe) ⊎ IsSmall c n estimate_error config
  unfolding evaluate_policy by_kind by_estimate by_rows multi_statement
  allow_estimated n h =
      ground (arith, g.no_where, g.structural, g.unknown_query, g.estimation_failure, g.multi)

  small_allowed :
      (n : ℕ)
      → post_init config ≡ ok tt
      → IsSmall c n estimate_error config
      → (evaluate_policy c (some n) estimate_error config).action ≡ allow
  unfolding evaluate_policy by_kind by_estimate by_rows multi_statement post_init
  small_allowed n v small = ground arith

safe_allowed :
    (c : Classification) (estimated_rows : Option ℕ) (estimate_error : Option Text)
    (config : PolicyConfig)
    → c.risk ≡ safe
    → (evaluate_policy c estimated_rows estimate_error config).action ≡ allow
unfolding evaluate_policy
safe_allowed c estimated_rows estimate_error config h = rw h refl

-- With a configuration whose thresholds are valid and none of whose actions is to allow, a statement
-- is allowed exactly when it is classified as safe or is a small change: a single risky statement
-- that is neither structural nor without WHERE, estimated without an error to affect no more rows
-- than are allowed automatically.
pub evaluate_policy-allow :
    (c : Classification) (estimated_rows : Option ℕ) (estimate_error : Option Text)
    (config : PolicyConfig)
    → IsGuarded config
    → post_init config ≡ ok tt
    → (evaluate_policy c estimated_rows estimate_error config).action ≡ allow
      ↔ (c.risk ≡ safe) ⊎ IsSmallChange c estimated_rows estimate_error config
evaluate_policy-allow c none estimate_error config g v = (
  λ h. inl (allow_unestimated c estimate_error config g h),
  λ h. elim h [
    | inl s ↦ safe_allowed c none estimate_error config s
    | inr t ↦ absurd (ground (arith, t.1))
  ],
)
evaluate_policy-allow c (some n) estimate_error config g v = (
  λ h. elim (allow_estimated c estimate_error config g n h) [
    | inl s ↦ inl s
    | inr (f, r, b, o, w, l) ↦ inr (n, refl, f, r, b, o, w, l)
  ],
  λ h. elim h [
    | inl s ↦ safe_allowed c (some n) estimate_error config s
    | inr (k, e, f, r, b, o, w, l) ↦
        let same : n ≡ k = ground (arith, e) in
        rw same (small_allowed c estimate_error config g k v (f, r, b, o, w, l))
  ],
)

-- A text stands somewhere in another.
abbrev pub Occurs : Text → Text → Type 0
Occurs sub text = (before : Text) × (behind : Text) × (text ≡ before ++ (sub ++ behind))

is_prefix-append : (sub behind : Text) → is_prefix sub (sub ++ behind) ≡ true
unfolding is_prefix
is_prefix-append [] behind = refl
is_prefix-append (a ∷ sub) behind = ground (arith, is_prefix-append sub behind)

is_prefix-contains : (sub text : Text) → is_prefix sub text ≡ true → contains sub text ≡ true
unfolding is_prefix contains
is_prefix-contains [] [] h = refl
is_prefix-contains (a ∷ sub) [] h = cc
is_prefix-contains sub (c ∷ cs) h = rw h refl

contains-append : (sub before behind : Text) → contains sub (before ++ (sub ++ behind)) ≡ true
unfolding contains
contains-append sub [] behind = is_prefix-contains sub (sub ++ behind) (is_prefix-append sub behind)
contains-append sub (b ∷ before) behind = ground (arith, contains-append sub before behind)

contains-false : (sub text : Text) → contains sub text ≡ false → ¬ Occurs sub text
contains-false sub text h (before, behind, e) =
    absurd (ground (arith, contains-append sub before behind, sym (ap (contains sub) e) ∙ h))

-- The names of the transaction controls.
pub data IsTransactionName (name : Text) : Type 0 where
  transaction_name : name ≡ lit "TRANSACTION" → IsTransactionName name
  commit_name : name ≡ lit "COMMIT" → IsTransactionName name
  rollback_name : name ≡ lit "ROLLBACK" → IsTransactionName name
  savepoint_name : name ≡ lit "SAVEPOINT" → IsTransactionName name
  release_name : name ≡ lit "RELEASE" → IsTransactionName name

-- One of two tests holds.
either : (a b : Bool) → (a || b) ≡ true → (a ≡ true) ⊎ (b ≡ true)
either true b h = inl refl
either false b h = inr h

transaction_named : (name : Text) → is_transaction name ≡ true → IsTransactionName name
unfolding is_transaction
transaction_named name h = elim (either (text_eq name (lit "TRANSACTION")) _ h) [
  | inl a ↦ transaction_name (text_eq→eq _ _ a)
  | inr h ↦ elim (either (text_eq name (lit "COMMIT")) _ h) [
    | inl a ↦ commit_name (text_eq→eq _ _ a)
    | inr h ↦ elim (either (text_eq name (lit "ROLLBACK")) _ h) [
      | inl a ↦ rollback_name (text_eq→eq _ _ a)
      | inr h ↦ elim (either (text_eq name (lit "SAVEPOINT")) _ h) [
        | inl a ↦ savepoint_name (text_eq→eq _ _ a)
        | inr a ↦ release_name (text_eq→eq _ _ a)
      ]
    ]
  ]
]

-- A SET without an item of global scope in whose text neither PASSWORD nor PERSIST stands.
pub record IsSessionSet (sqlglot : Sqlglot) (ast : sqlglot.Expression) : Type 0 where
  pub is_set : sqlglot.is_instance set_class ast ≡ true
  pub local : sqlglot.has_global_item ast ≡ false
  pub no_password : ¬ Occurs (lit "PASSWORD") (sqlglot.upper_sql ast)
  pub no_persist : ¬ Occurs (lit "PERSIST") (sqlglot.upper_sql ast)

-- A transaction control, a SET of the session alone, or a SELECT.
pub data IsSafeForm (sqlglot : Sqlglot) (ast : sqlglot.Expression) : Type 0 where
  control : IsTransactionName (sqlglot.class_name ast) → IsSafeForm sqlglot ast
  session_set : IsSessionSet sqlglot ast → IsSafeForm sqlglot ast
  selection : sqlglot.is_instance select_class ast ≡ true → IsSafeForm sqlglot ast

is_session_set-IsSessionSet :
    (sqlglot : Sqlglot) (ast : sqlglot.Expression)
    → (sqlglot.is_instance set_class ast && is_session_set sqlglot ast) ≡ true
    → IsSessionSet sqlglot ast
unfolding is_session_set
is_session_set-IsSessionSet sqlglot ast h = record {
  is_set = ground (arith, h);
  local = ground (arith, h);
  no_password = contains-false _ _ (ground (arith, h));
  no_persist = contains-false _ _ (ground (arith, h));
}

safe_other :
    (sqlglot : Sqlglot) (ast : sqlglot.Expression)
    → (classify_other sqlglot ast).risk ≡ safe
    → sqlglot.is_instance select_class ast ≡ true
unfolding classify_other classify_change classify_truncate classify_structure
safe_other sqlglot ast h = ground arith

safe_statement :
    (sqlglot : Sqlglot) (ast : sqlglot.Expression)
    → (classify_statement sqlglot ast).risk ≡ safe
    → IsSafeForm sqlglot ast
unfolding classify_statement
safe_statement sqlglot ast h = elim (Bool-cases (is_transaction (sqlglot.class_name ast))) [
  | inl t ↦ control (transaction_named _ t)
  | inr t ↦ elim (Bool-cases (sqlglot.is_instance set_class ast && is_session_set sqlglot ast)) [
    | inl u ↦ session_set (is_session_set-IsSessionSet sqlglot ast u)
    | inr u ↦ selection (safe_other sqlglot ast (ground (arith, t, u)))
  ]
]

safe_statements :
    (sqlglot : Sqlglot) (statements : List (sqlglot.Expression))
    → (classify_statements sqlglot statements).risk ≡ safe
    → (ast : sqlglot.Expression) × (statements ≡ ast ∷ []) × IsSafeForm sqlglot ast
unfolding classify_statements
safe_statements sqlglot [] h = absurd (ground (arith, h))
safe_statements sqlglot (ast ∷ []) h = (ast, refl, safe_statement sqlglot ast h)
safe_statements sqlglot (ast ∷ next ∷ rest) h = absurd (ground (arith, h))

classify_parsed :
    (sqlglot : Sqlglot) (sql : Text) (parsed : List (Option sqlglot.Expression))
    → sqlglot.parse sql ≡ some parsed
    → classify sqlglot sql ≡ classify_statements sqlglot (statements_of parsed)
unfolding classify
classify_parsed sqlglot sql parsed e = rw (e, classify) refl

unparseable_unsafe :
    (sqlglot : Sqlglot) (sql : Text) → sqlglot.parse sql ≡ none → (classify sqlglot sql).risk ≢ safe
unfolding classify
unparseable_unsafe sqlglot sql e h = absurd (ground (arith, e, h))

-- A text is classified as safe only if the parser finds exactly one statement in it, which is a
-- transaction control by the name of its class, a SELECT, or a SET without an item of global scope in
-- whose upper case text neither PASSWORD nor PERSIST stands anywhere.
pub classify-safe :
    (sqlglot : Sqlglot) (sql : Text)
    → (classify sqlglot sql).risk ≡ safe
    → (parsed : List (Option sqlglot.Expression)) × (ast : sqlglot.Expression) × (sqlglot.parse sql
        ≡ some parsed)
      × (statements_of parsed ≡ ast ∷ [])
      × IsSafeForm sqlglot ast
classify-safe sqlglot sql h = by_parsed (sqlglot.parse sql) refl
  where
    by_parsed :
        (p : Option (List (Option sqlglot.Expression)))
        → sqlglot.parse sql ≡ p
        → (parsed : List (Option sqlglot.Expression)) × (ast : sqlglot.Expression) × (sqlglot.parse
              sql
            ≡ some parsed)
          × (statements_of parsed ≡ ast ∷ [])
          × IsSafeForm sqlglot ast
    by_parsed none e = absurd (unparseable_unsafe sqlglot sql e h)
    by_parsed (some parsed) e =
        let (ast, single, form) =
          safe_statements sqlglot (statements_of parsed)
            (sym (ap (λ c. c.risk) (classify_parsed sqlglot sql parsed e)) ∙ h) in
        (parsed, ast, e, single, form)
