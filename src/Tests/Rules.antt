-- ===== src/Tests/Rules.antt =====
-- Runs and instances for the policy and the classifier.
use ohmydb_proxy.Prelude.{
  Bool, List, Option, [], arith, false, lit, none, ok, refl, some, text_eq, true, ℕ, ◌↔◌, ◌∷◌, ◌≡◌,
  ◌≤◌, ◌⊎◌,
}
use ohmydb_proxy.Policy.{
  Classification, PolicyConfig, allow, block, confirm, evaluate_policy, medium, post_init, risky,
  rows_impact, safe,
}
use ohmydb_proxy.Policy.Classifier.{
  ExpClass, Sqlglot, classify, is_transaction, select_class, statements_of,
}
use ohmydb_proxy.Policy.Laws.{
  IsGuarded, IsSafeForm, IsSmallChange, classify-safe, evaluate_policy-allow,
  evaluate_policy_monotone, rank,
}

-- PolicyConfig()
abbrev pub default_config : PolicyConfig
default_config = record {
  auto_allow_max_rows = 0;
  block_at_rows = 10000;
  no_where_action = confirm;
  structural_action = confirm;
  unknown_action = confirm;
  estimation_failure_action = confirm;
  multi_statement_action = block;
}

pub default-IsGuarded : IsGuarded default_config
default-IsGuarded = record {
  no_where = λ e. absurd (ground (arith, e));
  structural = λ e. absurd (ground (arith, e));
  unknown_query = λ e. absurd (ground (arith, e));
  estimation_failure = λ e. absurd (ground (arith, e));
  multi = λ e. absurd (ground (arith, e));
}

pub default_valid : post_init default_config ≡ ok tt
unfolding post_init
default_valid = refl

-- An UPDATE with a WHERE clause.
abbrev update_some : Classification
update_some = record {
  risk = risky;
  statement_type = lit "UPDATE";
  reason = lit "UPDATE has a WHERE clause - review the matching row count before running";
  preview_query = none;
  impact_kind = rows_impact;
  target_table = some (lit "users");
  has_where = some true;
  severity = medium;
  statement_count = 1;
}

evaluate_policy_runs : (evaluate_policy update_some (some 5) none default_config).action ≡ confirm
unfolding evaluate_policy
evaluate_policy_runs = refl

evaluate_policy-allow_example :
    (evaluate_policy update_some (some 5) none default_config).action ≡ allow
    ↔ (update_some.risk ≡ safe) ⊎ IsSmallChange update_some (some 5) none default_config
evaluate_policy-allow_example =
    evaluate_policy-allow update_some (some 5) none default_config default-IsGuarded default_valid

evaluate_policy_monotone_example :
    rank (evaluate_policy update_some (some 5) none default_config).action
    ≤ rank (evaluate_policy update_some (some 20000) none default_config).action
evaluate_policy_monotone_example =
    evaluate_policy_monotone update_some 5 20000 none default_config (omega arith)

abbrev pub is_select : ExpClass → Bool
is_select select_class = true
is_select _ = false

-- A parser that finds one SELECT in every text.
abbrev pub select_parser : Sqlglot
select_parser = record {
  Expression = ℕ;
  parse = λ sql. some (some 0 ∷ none ∷ []);
  class_name = λ ast. lit "SELECT";
  is_instance = λ class ast. is_select class;
  upper_sql = λ ast. lit "SELECT 1";
  has_global_item = λ ast. false;
  find_table = λ ast. none;
  find_where = λ ast. false;
  count_query = λ ast where_found. lit "SELECT COUNT(*)";
}

classify_runs : (classify select_parser (lit "SELECT 1")).risk ≡ safe
unfolding classify is_transaction text_eq lit
classify_runs = refl

classify-safe_example :
    (parsed : List (Option ℕ)) × (ast : ℕ) × (select_parser.parse (lit "SELECT 1") ≡ some parsed)
    × (statements_of parsed ≡ ast ∷ [])
    × IsSafeForm select_parser ast
classify-safe_example = classify-safe select_parser (lit "SELECT 1") classify_runs
