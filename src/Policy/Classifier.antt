-- ===== src/Policy/Classifier.antt =====
-- sql_classifier.py: the classification of a statement by its parsed form. The parser `sqlglot` is a
-- parameter.
use ohmydb_proxy.Prelude.{
  Bool, List, Option, Text, [], decimal, false, if◌then◌else◌, is_empty, length, lit, none, not,
  some, text_eq, true, ℕ, ◌&&◌, ◌++◌, ◌==◌, ◌||◌, ◌∷◌,
}
use ohmydb_proxy.Policy.{
  Classification, ImpactKind, Risk, Severity, batch, critical, high, low, medium, risky,
  rows_impact, safe, schema, session_impact, transaction, unknown_impact, unknown_risk,
}

-- The classes of `sqlglot.exp` that the classifier asks for.
pub data ExpClass : Type 0 where
  set_class : ExpClass
  select_class : ExpClass
  update_class : ExpClass
  delete_class : ExpClass
  truncate_class : ExpClass
  drop_class : ExpClass
  alter_class : ExpClass
  create_class : ExpClass

-- What the classifier uses of sqlglot, for a fixed dialect: `parse` (none when it raises), the upper
-- case name of an expression's class, `isinstance`, the upper case text of an expression, whether an
-- item of a SET has global scope, the text of the first table, whether there is a WHERE, and the text
-- of the SELECT that counts the rows of a table, under a WHERE when there is one.
pub record Sqlglot : Type 1 where
  pub Expression : Type 0
  pub parse : Text → Option (List (Option Expression))
  pub class_name : Expression → Text
  pub is_instance : ExpClass → Expression → Bool
  pub upper_sql : Expression → Text
  pub has_global_item : Expression → Bool
  pub find_table : Expression → Option Text
  pub find_where : Expression → Bool
  pub count_query : Expression → Bool → Text

-- `sub in text`
unfoldable pub is_prefix : Text → Text → Bool
is_prefix [] text = true
is_prefix (a ∷ as') [] = false
is_prefix (a ∷ as') (b ∷ bs) = a == b && is_prefix as' bs

unfoldable pub contains : Text → Text → Bool
unfolding is_prefix
contains sub [] = is_empty sub
contains sub (c ∷ cs) = is_prefix sub (c ∷ cs) || contains sub cs

unfoldable pub is_transaction : Text → Bool
unfolding text_eq
is_transaction name =
    text_eq name (lit "TRANSACTION")
    || (text_eq name (lit "COMMIT")
        || (text_eq name (lit "ROLLBACK")
            || (text_eq name (lit "SAVEPOINT") || text_eq name (lit "RELEASE"))))

-- `[statement for statement in … if statement is not None]`
unfoldable pub statements_of {ℓ} : {A : Type ℓ} → List (Option A) → List A
statements_of [] = []
statements_of (none ∷ rest) = statements_of rest
statements_of (some statement ∷ rest) = statement ∷ statements_of rest

-- A classification without a preview, a table or a WHERE.
abbrev pub plain : Risk → Text → Text → ImpactKind → Severity → ℕ → Classification
plain risk statement_type reason impact_kind severity statement_count = record {
  risk = risk;
  statement_type = statement_type;
  reason = reason;
  preview_query = none;
  impact_kind = impact_kind;
  target_table = none;
  has_where = none;
  severity = severity;
  statement_count = statement_count;
}

module _ (sqlglot : Sqlglot) where
  -- `_build_count_query`
  unfoldable pub build_count_query : sqlglot.Expression → Bool → Option Text
  build_count_query ast where_found = elim (sqlglot.find_table ast) [
    | none ↦ none
    | some table ↦ some (sqlglot.count_query ast where_found)
  ]

  unfoldable pub classify_change : Text → sqlglot.Expression → Classification
  unfolding build_count_query
  classify_change statement_type ast =
      let found = sqlglot.find_where ast in
      record {
        risk = risky;
        statement_type = statement_type;
        reason =
            statement_type
            ++ (if found
                then lit " has a WHERE clause - review the matching row count before running"
                else lit " has no WHERE clause - this will affect every row in the target table");
        preview_query = build_count_query ast found;
        impact_kind = rows_impact;
        target_table = sqlglot.find_table ast;
        has_where = some found;
        severity = if found then medium else critical;
        statement_count = 1;
      }

  unfoldable pub classify_truncate : sqlglot.Expression → Classification
  unfolding build_count_query
  classify_truncate ast = record {
    risk = risky;
    statement_type = lit "TRUNCATE";
    reason = lit "TRUNCATE removes all rows from the target table";
    preview_query = build_count_query ast false;
    impact_kind = rows_impact;
    target_table = sqlglot.find_table ast;
    has_where = some false;
    severity = critical;
    statement_count = 1;
  }

  unfoldable pub classify_structure : Text → Text → Severity → sqlglot.Expression → Classification
  classify_structure statement_type reason severity ast =
      record (plain risky statement_type reason schema severity 1) {
        target_table = sqlglot.find_table ast;
      }

  -- `not has_global_scope and "PASSWORD" not in normalized and "PERSIST" not in normalized`
  unfoldable pub is_session_set : sqlglot.Expression → Bool
  unfolding contains
  is_session_set ast =
      not (sqlglot.has_global_item ast)
      && (not (contains (lit "PASSWORD") (sqlglot.upper_sql ast))
          && not (contains (lit "PERSIST") (sqlglot.upper_sql ast)))

  -- The tests from `isinstance(ast, exp.Select)` on.
  unfoldable pub classify_other : sqlglot.Expression → Classification
  unfolding classify_change classify_truncate classify_structure
  classify_other ast =
      if sqlglot.is_instance select_class ast
      then plain safe (lit "SELECT") (lit "Read-only query") rows_impact low 1
      else if sqlglot.is_instance update_class ast
      then classify_change (lit "UPDATE") ast
      else if sqlglot.is_instance delete_class ast
      then classify_change (lit "DELETE") ast
      else if sqlglot.is_instance truncate_class ast
      then classify_truncate ast
      else if sqlglot.is_instance drop_class ast
      then classify_structure (lit "DROP")
          (lit "DROP is a structural and potentially irreversible change") critical ast
      else if sqlglot.is_instance alter_class ast
      then classify_structure (lit "ALTER") (lit "ALTER changes database structure") high ast
      else if sqlglot.is_instance create_class ast
      then classify_structure (lit "CREATE") (lit "CREATE changes database structure") medium ast
      else plain unknown_risk (sqlglot.class_name ast)
          (lit "Statement type is not yet covered by a dedicated safety rule") unknown_impact high 1

  unfoldable pub classify_statement : sqlglot.Expression → Classification
  unfolding is_transaction is_session_set classify_other
  classify_statement ast =
      if is_transaction (sqlglot.class_name ast)
      then plain safe (sqlglot.class_name ast) (lit "Transaction-control statement") transaction low
          1
      else if sqlglot.is_instance set_class ast && is_session_set ast
      then plain safe (lit "SET") (lit "Session-local configuration statement") session_impact low 1
      else classify_other ast

  unfoldable pub classify_statements : List (sqlglot.Expression) → Classification
  unfolding classify_statement
  classify_statements [] =
      plain unknown_risk (lit "EMPTY") (lit "No SQL statement was found") unknown_impact high 0
  classify_statements (ast ∷ []) = classify_statement ast
  classify_statements statements =
      plain risky (lit "MULTI_STATEMENT")
        (lit "The request contains "
          ++ (decimal (length statements)
              ++ lit " SQL statements; batch execution requires a dedicated policy decision"))
        batch critical (length statements)

  unfoldable pub classify : Text → Classification
  unfolding statements_of classify_statements
  classify sql = elim (sqlglot.parse sql) [
    | none ↦
        plain unknown_risk (lit "UNPARSEABLE") (lit "Could not parse SQL safely") unknown_impact
          high 0
    | some parsed ↦ classify_statements (statements_of parsed)
  ]
