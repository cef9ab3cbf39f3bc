-- ===== src/MySql/Session/Invariant.antt =====
-- What every method of the session state keeps.
use ohmydb_proxy.Prelude.{
  Bool, Result, arith, err, false, if◌then◌else◌, is_some, length, ltb, ok, refl, true, ℕ, ◌+◌, ◌≡◌,
  ◌≤◌,
}
use ohmydb_proxy.MySql.Command.{}
use ohmydb_proxy.MySql.Response.{}
use ohmydb_proxy.MySql.Params.Types.{}
use ohmydb_proxy.MySql.Session.{
  MySqlPreparedStatement, MySqlSessionState, Outcome, ResponseStage, metadata, put, raising,
  require_no_pending_lifecycle_operation, require_prepared_capacity, state_bytes,
}
use ohmydb_proxy.MySql.Session.Registry.{length-put, previous_bytes-get, state_bytes-put}

abbrev pub count_of : Bool → ℕ
count_of b = if b then 1 else 0

-- The number of acknowledgments that are awaited.
abbrev pub pending_count : MySqlSessionState → ℕ
pending_count self =
    count_of (is_some self.pending_database)
    + (count_of (is_some self.pending_statement_sql)
        + (count_of self.pending_ping
            + (count_of (is_some self.pending_statement_reset_id)
                + count_of (is_some self.pending_command_response))))

abbrev pub is_metadata : ResponseStage → Bool
is_metadata metadata = true
is_metadata _ = false

-- The registry is within its two limits, at most one acknowledgment is awaited, the counter of
-- definitions is the length of the list of kinds, a statement is announced only while its text is
-- pending, and columns remain exactly in the stage of their definitions.
pub record IsWellFormed (self : MySqlSessionState) : Type 0 where
  pub registered : length self.prepared_statements ≤ self.max_prepared_statements
  pub sized : state_bytes self.prepared_statements ≤ self.max_state_bytes
  pub exclusive : pending_count self ≤ 1
  pub counted : self.pending_prepare_metadata_packets ≡ length self.pending_prepare_metadata_kinds
  pub announced_pending :
      count_of (is_some self.pending_prepared_statement_id)
      ≤ count_of (is_some self.pending_statement_sql)
  pub columns : is_metadata self.command_response_stage ≡ ltb 0 self.response_columns_remaining

-- What `require_prepared_capacity` guarantees of the registry with the statement in it.
pub require_prepared_capacity-put :
    (self : MySqlSessionState) (i : ℕ) (s : MySqlPreparedStatement)
    → length self.prepared_statements ≤ self.max_prepared_statements
    → require_prepared_capacity self i s.sql ≡ ok tt
    → (length (put i s self.prepared_statements) ≤ self.max_prepared_statements)
      × (state_bytes (put i s self.prepared_statements) ≤ self.max_state_bytes)
unfolding require_prepared_capacity
require_prepared_capacity-put self i s h g = (
  ground (arith, length-put i s self.prepared_statements),
  ground (
    arith,
    state_bytes-put i s self.prepared_statements,
    previous_bytes-get i self.prepared_statements,
  ),
)

pub nothing_pending :
    (self : MySqlSessionState)
    → require_no_pending_lifecycle_operation self ≡ ok tt
    → pending_count self ≡ 0
unfolding require_no_pending_lifecycle_operation
nothing_pending self h = ground arith

-- A property of the state that holds before a call and behind its continuation holds after it.
pub raising-keeps {ℓ κ} :
    {A : Type ℓ} {B : Type 0} (P : MySqlSessionState → Type κ) (s : MySqlSessionState)
    (r : Result A) (k : A → Outcome B)
    → P s
    → ((a : A) → r ≡ ok a → P (k a).1)
    → P (raising s r k).1
unfolding raising
raising-keeps P s (err e) k h f = h
raising-keeps P s (ok a) k h f = f a refl
