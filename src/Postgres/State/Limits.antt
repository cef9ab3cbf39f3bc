-- ===== src/Postgres/State/Limits.antt =====
-- The bounds on what a PostgreSQL session keeps.
use ohmydb_proxy.Prelude.{
  Bool, Bool-cases, Text, [], arith, false, if◌then◌else◌, inl, inr, length, lit, ok, text_eq, true,
  ℕ, ◌+◌, ◌-◌, ◌≡◌, ◌≤◌,
}
use ohmydb_proxy.Prelude.Dict.{
  Dict, IsDistinct, insert, insert-IsDistinct, keep, keep-IsDistinct, length-insert, length-keep,
  length-remove, lookup, remove-IsDistinct, size_of, size_of-lookup, total, total-insert,
  total-keep, total-remove,
}
use ohmydb_proxy.Postgres.Extended.{BindMessage}
use ohmydb_proxy.Postgres.State.{
  ConnectionState, belongs_elsewhere, close_portal, close_statement, is_full, new, portal_bytes,
  register_portal, register_statement, state_bytes, statement_bytes, update_transaction_status,
  with_statement,
}

-- No key stands twice, and the numbers of statements and portals and the bytes of both together are
-- within their limits.
pub record IsBounded (self : ConnectionState) : Type 0 where
  pub statements_distinct : IsDistinct self.prepared_statements
  pub portals_distinct : IsDistinct self.portals
  pub statements : length self.prepared_statements ≤ self.max_items
  pub portals : length self.portals ≤ self.max_items
  pub bytes : state_bytes self ≤ self.max_state_bytes

pub new-IsBounded : (max_items max_state_bytes : ℕ) → IsBounded (new max_items max_state_bytes)
unfolding new state_bytes total
new-IsBounded max_items max_state_bytes = record {
  statements_distinct = tt;
  portals_distinct = tt;
  statements = omega arith;
  portals = omega arith;
  bytes = omega arith;
}

-- A key that may be inserted keeps the number of entries within the limit.
insert_within :
    {V : Type 0} (max_items : ℕ) (key : Text) (v : V) (d : Dict V)
    → is_full max_items key d ≡ false
    → length d ≤ max_items
    → length (insert key v d) ≤ max_items
insert_within max_items key v d room h = ground (arith, length-insert key v d)

-- Portals that are kept, all of them or those of other statements, take no more room.
portals_kept :
    (b : Bool) (test : BindMessage → Bool) (d : Dict BindMessage)
    → IsDistinct d
    → IsDistinct (if b then keep test d else d)
      × (length (if b then keep test d else d) ≤ length d)
      × (total portal_bytes (if b then keep test d else d) ≤ total portal_bytes d)
portals_kept true test d h =
    (keep-IsDistinct test d h, length-keep test d, total-keep portal_bytes test d)
portals_kept false test d h = (h, omega arith, omega arith)

pub register_statement-IsBounded :
    (self : ConnectionState) (name query : Text) (self' : ConnectionState)
    → register_statement self name query ≡ ok self'
    → IsBounded self
    → IsBounded self'
unfolding register_statement state_bytes
register_statement-IsBounded self name query self' h v =
    let k = portals_kept (text_eq name []) (belongs_elsewhere []) self.portals v.portals_distinct in
    let (room, fits, same) = register_statement_cases self name query self' h in
    rw (← same) (record {
      statements_distinct =
          insert-IsDistinct name query self.prepared_statements v.statements_distinct;
      portals_distinct = k.0;
      statements =
          insert_within self.max_items name query self.prepared_statements room v.statements;
      portals = omega (arith, k.1, v.portals);
      bytes = omega (
        arith,
        k.2,
        fits,
        total-insert statement_bytes name query self.prepared_statements,
        size_of-lookup statement_bytes name self.prepared_statements,
      );
    })
  where
    register_statement_cases :
        (self : ConnectionState) (name query : Text) (self' : ConnectionState)
        → register_statement self name query ≡ ok self'
        → (is_full self.max_items name self.prepared_statements ≡ false)
          × (state_bytes self
                - size_of (statement_bytes name) (lookup name self.prepared_statements)
                + statement_bytes name query
              ≤ self.max_state_bytes)
          × (with_statement self name query ≡ self')
    register_statement_cases self name query self' h = ground arith

pub register_portal-IsBounded :
    (self : ConnectionState) (bind : BindMessage) (self' : ConnectionState)
    → register_portal self bind ≡ ok self'
    → IsBounded self
    → IsBounded self'
unfolding register_portal state_bytes
register_portal-IsBounded self bind self' h v =
    let key = bind.portal_name in
    let (room, fits, same) = register_portal_cases self bind self' h in
    rw (← same) (record {
      statements_distinct = v.statements_distinct;
      portals_distinct = insert-IsDistinct key bind self.portals v.portals_distinct;
      statements = v.statements;
      portals = insert_within self.max_items key bind self.portals room v.portals;
      bytes = omega (
        arith,
        fits,
        total-insert portal_bytes key bind self.portals,
        size_of-lookup portal_bytes key self.portals,
      );
    })
  where
    register_portal_cases :
        (self : ConnectionState) (bind : BindMessage) (self' : ConnectionState)
        → register_portal self bind ≡ ok self'
        → (is_full self.max_items bind.portal_name self.portals ≡ false)
          × (state_bytes self
                - size_of (portal_bytes bind.portal_name) (lookup bind.portal_name self.portals)
                + portal_bytes bind.portal_name bind
              ≤ self.max_state_bytes)
          × (record self { portals = insert bind.portal_name bind self.portals } ≡ self')
    register_portal_cases self bind self' h = ground arith

pub close_statement-IsBounded :
    (self : ConnectionState) (name : Text) → IsBounded self → IsBounded (close_statement self name)
unfolding close_statement state_bytes
close_statement-IsBounded self name v =
    let test = belongs_elsewhere name in
    record {
      statements_distinct = remove-IsDistinct name self.prepared_statements v.statements_distinct;
      portals_distinct = keep-IsDistinct test self.portals v.portals_distinct;
      statements = omega (arith, length-remove name self.prepared_statements, v.statements);
      portals = omega (arith, length-keep test self.portals, v.portals);
      bytes = omega (
        arith,
        v.bytes,
        total-remove statement_bytes name self.prepared_statements,
        total-keep portal_bytes test self.portals,
      );
    }

pub close_portal-IsBounded :
    (self : ConnectionState) (name : Text) → IsBounded self → IsBounded (close_portal self name)
unfolding close_portal state_bytes
close_portal-IsBounded self name v = record {
  statements_distinct = v.statements_distinct;
  portals_distinct = remove-IsDistinct name self.portals v.portals_distinct;
  statements = v.statements;
  portals = omega (arith, length-remove name self.portals, v.portals);
  bytes = omega (arith, v.bytes, total-remove portal_bytes name self.portals);
}

pub update_transaction_status-IsBounded :
    (self : ConnectionState) (status : Text)
    → IsBounded self
    → IsBounded (update_transaction_status self status)
unfolding update_transaction_status state_bytes total
update_transaction_status-IsBounded self status v = elim (Bool-cases (text_eq status (lit "I"))) [
  | inl e ↦ rw e (record {
    statements_distinct = v.statements_distinct;
    portals_distinct = tt;
    statements = v.statements;
    portals = omega arith;
    bytes = omega (arith, v.bytes);
  })
  | inr e ↦ rw e (record {
    statements_distinct = v.statements_distinct;
    portals_distinct = v.portals_distinct;
    statements = v.statements;
    portals = v.portals;
    bytes = v.bytes;
  })
]
