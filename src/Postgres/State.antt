-- ===== src/Postgres/State.antt =====
-- `ConnectionState` of proxy.py: the prepared statements and portals that a session may execute.
pub mod Limits
pub mod View
use ohmydb_proxy.Prelude.{
  Bool, Bytes, List, Option, Result, Text, [], encode_utf8, false, if◌then◌else◌, is_some, leb,
  length, lit, ltb, none, not, ok, raise_if, some, text_eq, ℕ, ◌&&◌, ◌+◌, ◌-◌, ◌>>◌, ◌∷◌,
}
use ohmydb_proxy.Prelude.Dict.{Dict, insert, keep, lookup, remove, size_of, total}
use ohmydb_proxy.Postgres.Protocol.{protocol_error}
use ohmydb_proxy.Postgres.Extended.{BindMessage}

pub record ConnectionState : Type 0 where
  pub database : Text
  pub transaction_status : Text
  pub extended_error_pending : Bool
  pub prepared_statements : Dict Text
  pub portals : Dict BindMessage
  pub max_items : ℕ
  pub max_state_bytes : ℕ

-- ConnectionState(max_items=…, max_state_bytes=…)
unfoldable pub new : ℕ → ℕ → ConnectionState
new max_items max_state_bytes = record {
  database = lit "postgres";
  transaction_status = lit "I";
  extended_error_pending = false;
  prepared_statements = [];
  portals = [];
  max_items = max_items;
  max_state_bytes = max_state_bytes;
}

-- sum(len(value) for value in values if value is not None)
unfoldable pub values_bytes : List (Option Bytes) → ℕ
values_bytes [] = 0
values_bytes (none ∷ values) = values_bytes values
values_bytes (some value ∷ values) = length value + values_bytes values

unfoldable pub portal_bytes : Text → BindMessage → ℕ
portal_bytes name bind =
    length (encode_utf8 name)
    + length (encode_utf8 bind.statement_name)
    + values_bytes bind.param_values

unfoldable pub statement_bytes : Text → Text → ℕ
statement_bytes name query = length (encode_utf8 name) + length (encode_utf8 query)

unfoldable pub state_bytes : ConnectionState → ℕ
state_bytes self = total statement_bytes self.prepared_statements + total portal_bytes self.portals

-- Whether a portal belongs to another statement.
abbrev pub belongs_elsewhere : Text → BindMessage → Bool
belongs_elsewhere name bind = not (text_eq bind.statement_name name)

-- A known key may always be replaced.
abbrev pub is_full : {V : Type 0} → ℕ → Text → Dict V → Bool
is_full max_items name d = not (is_some (lookup name d)) && leb max_items (length d)

-- The state after the tests of `register_statement`.
abbrev pub with_statement : ConnectionState → Text → Text → ConnectionState
with_statement self name query = record self {
  portals = if text_eq name [] then keep (belongs_elsewhere []) self.portals else self.portals;
  prepared_statements = insert name query self.prepared_statements;
}

unfoldable pub register_statement : ConnectionState → Text → Text → Result ConnectionState
unfolding state_bytes
register_statement self name query = do
  raise_if (is_full self.max_items name self.prepared_statements)
      (protocol_error "PostgreSQL prepared-statement registry limit exceeded")
  let previous = size_of (statement_bytes name) (lookup name self.prepared_statements)
  raise_if (ltb self.max_state_bytes (state_bytes self - previous + statement_bytes name query))
      (protocol_error "PostgreSQL per-session state size limit exceeded")
  ok (with_statement self name query)

unfoldable pub register_portal : ConnectionState → BindMessage → Result ConnectionState
unfolding state_bytes
register_portal self bind = do
  raise_if (is_full self.max_items bind.portal_name self.portals)
      (protocol_error "PostgreSQL portal registry limit exceeded")
  let previous = size_of (portal_bytes bind.portal_name) (lookup bind.portal_name self.portals)
  raise_if
      (ltb self.max_state_bytes (state_bytes self - previous + portal_bytes bind.portal_name bind))
      (protocol_error "PostgreSQL per-session state size limit exceeded")
  ok (record self { portals = insert bind.portal_name bind self.portals })

unfoldable pub close_statement : ConnectionState → Text → ConnectionState
close_statement self name = record self {
  prepared_statements = remove name self.prepared_statements;
  portals = keep (belongs_elsewhere name) self.portals;
}

unfoldable pub close_portal : ConnectionState → Text → ConnectionState
close_portal self name = record self { portals = remove name self.portals }

unfoldable pub update_transaction_status : ConnectionState → Text → ConnectionState
update_transaction_status self status = record self {
  transaction_status = status;
  portals = if text_eq status (lit "I") then [] else self.portals;
}
