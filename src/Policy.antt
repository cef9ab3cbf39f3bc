-- ===== src/Policy.antt =====
-- policy.py: what is done with a classified statement; and the result type of sql_classifier.py.
pub mod Classifier
pub mod Laws
pub mod FailSafe
use ohmydb_proxy.Prelude.{
  Bool, Option, Result, Text, decimal, false, if◌then◌else◌, is_empty, leb, lit, ltb, none, not,
  raise_if, some, true, value_error, ℕ, ◌++◌,
}

pub data Severity : Type 0 where
  low : Severity
  medium : Severity
  high : Severity
  critical : Severity

pub data PolicyAction : Type 0 where
  allow : PolicyAction
  confirm : PolicyAction
  block : PolicyAction

-- The row counts and thresholds are natural numbers here: a negative threshold, which the source
-- refuses, cannot be written.
pub record PolicyConfig : Type 0 where
  pub auto_allow_max_rows : ℕ
  pub block_at_rows : ℕ
  pub no_where_action : PolicyAction
  pub structural_action : PolicyAction
  pub unknown_action : PolicyAction
  pub estimation_failure_action : PolicyAction
  pub multi_statement_action : PolicyAction

-- The test of `__post_init__`.
unfoldable pub post_init : PolicyConfig → Result (Unit {0})
post_init self =
    raise_if (leb self.block_at_rows self.auto_allow_max_rows)
      (value_error (lit "block_at_rows must be greater than auto_allow_max_rows"))

pub record PolicyDecision : Type 0 where
  pub action : PolicyAction
  pub severity : Severity
  pub reason : Text
  pub estimated_rows : Option ℕ

-- The strings that `risk` takes.
pub data Risk : Type 0 where
  safe : Risk
  risky : Risk
  unknown_risk : Risk

-- The strings that `impact_kind` takes.
pub data ImpactKind : Type 0 where
  unknown_impact : ImpactKind
  batch : ImpactKind
  transaction : ImpactKind
  session_impact : ImpactKind
  rows_impact : ImpactKind
  schema : ImpactKind

pub record Classification : Type 0 where
  pub risk : Risk
  pub statement_type : Text
  pub reason : Text
  pub preview_query : Option Text
  pub impact_kind : ImpactKind
  pub target_table : Option Text
  pub has_where : Option Bool
  pub severity : Severity
  pub statement_count : ℕ

abbrev pub is_batch : ImpactKind → Bool
is_batch batch = true
is_batch _ = false

abbrev pub is_schema : ImpactKind → Bool
is_schema schema = true
is_schema _ = false

-- `has_where is False`
abbrev pub is_false : Option Bool → Bool
is_false (some false) = true
is_false _ = false

-- `bool(estimate_error)`
abbrev pub is_error : Option Text → Bool
is_error none = false
is_error (some text) = not (is_empty text)

abbrev pub decision : PolicyAction → Severity → Text → Option ℕ → PolicyDecision
decision action severity reason estimated_rows = record {
  action = action;
  severity = severity;
  reason = reason;
  estimated_rows = estimated_rows;
}

-- The part behind the estimate: the two thresholds.
unfoldable pub by_rows : ℕ → PolicyConfig → PolicyDecision
by_rows estimated_rows config =
    if leb config.block_at_rows estimated_rows
    then decision block critical
        (lit "Estimated impact of "
          ++ (decimal estimated_rows
              ++ (lit " rows meets or exceeds the block threshold of "
                  ++ decimal config.block_at_rows)))
        (some estimated_rows)
    else if leb estimated_rows config.auto_allow_max_rows
    then decision allow low
        (lit "Estimated impact of "
          ++ (decimal estimated_rows
              ++ (lit " rows is within the automatic-allow threshold of "
                  ++ decimal config.auto_allow_max_rows)))
        (some estimated_rows)
    else decision confirm (if ltb estimated_rows 100 then medium else high)
        (lit "Estimated impact of "
          ++ (decimal estimated_rows ++ lit " rows requires explicit confirmation"))
        (some estimated_rows)

-- `if estimate_error or estimated_rows is None`, and what follows.
unfoldable pub by_estimate : Option ℕ → Option Text → PolicyConfig → PolicyDecision
unfolding by_rows
by_estimate none estimate_error config =
    decision config.estimation_failure_action high
      (lit "Affected-row estimation was unavailable; the estimation-failure policy was applied")
      none
by_estimate (some estimated_rows) estimate_error config =
    let by_threshold = by_rows estimated_rows config in
    if is_error estimate_error
    then decision config.estimation_failure_action high
        (lit "Affected-row estimation was unavailable; the estimation-failure policy was applied")
        none
    else by_threshold

-- The part for a risky statement that is no batch.
unfoldable pub by_kind : Classification → Option ℕ → Option Text → PolicyConfig → PolicyDecision
unfolding by_estimate
by_kind classification estimated_rows estimate_error config =
    if is_schema classification.impact_kind
    then decision config.structural_action critical
        (lit "This statement changes database structure; the structural-query policy was applied")
        estimated_rows
    else if is_false classification.has_where
    then decision config.no_where_action critical
        (classification.statement_type
          ++ lit " has no WHERE clause and may affect the entire target table")
        estimated_rows
    else by_estimate estimated_rows estimate_error config

unfoldable pub multi_statement : Classification → PolicyConfig → PolicyDecision
multi_statement classification config =
    decision config.multi_statement_action critical
      (lit "The request contains "
        ++ (decimal classification.statement_count
            ++ lit " SQL statements; the multi-statement policy was applied"))
      none

unfoldable pub evaluate_policy :
    Classification → Option ℕ → Option Text → PolicyConfig → PolicyDecision
unfolding by_kind multi_statement
evaluate_policy classification estimated_rows estimate_error config = elim classification.risk [
  | safe ↦ decision allow low (lit "Read-only statement") estimated_rows
  | risky ↦
      if is_batch classification.impact_kind
      then multi_statement classification config
      else by_kind classification estimated_rows estimate_error config
  | unknown_risk ↦
      if is_batch classification.impact_kind
      then multi_statement classification config
      else decision config.unknown_action high
          (lit
            "No dedicated safety rule exists for this statement type; the unknown-query policy was applied")
          estimated_rows
]
