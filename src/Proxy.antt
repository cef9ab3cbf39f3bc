-- ===== src/Proxy.antt =====
-- What proxy.py does for both databases: the options, `_estimate` and `_evaluate_and_decide`, with
-- the context that confirmation.py shows to the user. What is only printed or written to the audit
-- log is left out.
pub mod Laws
use ohmydb_proxy.Prelude.{
  Bool, Bytes, Option, Text, [], decimal, false, if◌then◌else◌, inl, inr, is_empty, lit, none, some,
  true, ℕ, ◌++◌, ◌⊎◌,
}
use ohmydb_proxy.Policy.{
  Classification, PolicyAction, PolicyConfig, PolicyDecision, Severity, allow, block, confirm,
  critical, decision, evaluate_policy, high, low, medium,
}
use ohmydb_proxy.Policy.Classifier.{Sqlglot}
use ohmydb_proxy.Policy.FailSafe.{FailSafeMode, ProtocolGapAction, allow_gap, block_gap}

-- What a confirmation provider is shown.
pub record QueryContext : Type 0 where
  pub sql : Text
  pub classification : Classification
  pub estimated_rows : Option ℕ
  pub estimate_error : Option Text
  pub policy_decision : PolicyDecision
  pub database : Text
  pub approximate_estimate : Bool

-- The options that the handlers use: the configuration, the parser for the dialect, the adapter's
-- query for a row count with a database (the count, or the summary of the exception), the display
-- form of a text, and the answer of the confirmation provider.
pub record ProxyOptions : Type 1 where
  pub policy_config : PolicyConfig
  pub fail_safe_mode : FailSafeMode
  pub sqlglot : Sqlglot
  pub estimate_rows : Text → Text → ℕ ⊎ Text
  pub sanitize_sql : Text → Text
  pub provider_confirm : QueryContext → Bool

-- A write to one of the two streams.
pub data Sent : Type 0 where
  to_backend : Bytes → Sent
  to_client : Bytes → Sent

-- What `_estimate` returns for the adapter's answer.
abbrev pub estimated : ℕ ⊎ Text → Option ℕ × Option Text
estimated (inl rows) = (some rows, none)
estimated (inr summary) = (none, some summary)

-- `_estimate`: without a preview, or with an empty one, there is neither a count nor an error.
unfoldable pub estimate : ProxyOptions → Classification → Text → Option ℕ × Option Text
estimate opts classification database = elim classification.preview_query [
  | none ↦ (none, none)
  | some preview ↦
      if is_empty preview then (none, none) else estimated (opts.estimate_rows preview database)
]

-- Whether a decision lets the statement pass, with the user's answer if it asks for one.
abbrev pub approved_by : PolicyAction → Bool → Bool
approved_by allow answer = true
approved_by confirm answer = answer
approved_by block answer = false

unfoldable pub query_context :
    ProxyOptions
    → Text
    → Text
    → Classification
    → Option ℕ
    → Option Text
    → PolicyDecision
    → Bool
    → QueryContext
query_context opts sql database classification estimated_rows estimate_error decision approximate =
    record {
      sql = opts.sanitize_sql sql;
      classification = classification;
      estimated_rows = estimated_rows;
      estimate_error = estimate_error;
      policy_decision = decision;
      database = database;
      approximate_estimate = approximate;
    }

-- `_evaluate_and_decide`
unfoldable pub evaluate_and_decide :
    ProxyOptions
    → Text
    → Text
    → Classification
    → Option ℕ
    → Option Text
    → Bool
    → Bool × PolicyDecision
unfolding query_context
evaluate_and_decide opts sql database classification estimated_rows estimate_error approximate =
    let decision =
      evaluate_policy classification estimated_rows estimate_error opts.policy_config in
    let answer = opts.provider_confirm (
      query_context opts sql database classification estimated_rows estimate_error decision
        approximate) in
    (approved_by decision.action answer, decision)

abbrev pub severity_value : Severity → Text
severity_value low = lit "LOW"
severity_value medium = lit "MEDIUM"
severity_value high = lit "HIGH"
severity_value critical = lit "CRITICAL"

abbrev pub rows_part : Option ℕ → Text
rows_part none = []
rows_part (some rows) = lit " Estimated rows affected: " ++ (decimal rows ++ lit ".")

abbrev pub is_allowed_gap : ProtocolGapAction → Bool
is_allowed_gap allow_gap = true
is_allowed_gap block_gap = false
