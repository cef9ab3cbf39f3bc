-- ===== src/Postgres/State/View.antt =====
-- What a PostgreSQL session promises: two partial functions, from names to texts and from names to
-- portals. The dictionaries of `ConnectionState` implement it.
use ohmydb_proxy.Prelude.{
  Bool, Option, Result, Text, [], arith, false, if◌then◌else◌, lit, none, ok, refl, some, text_eq,
  true, ◌≡◌,
}
use ohmydb_proxy.Prelude.Dict.{
  Dict, IsDistinct, filtered, insert, keep, lookup, lookup-insert, lookup-keep, lookup-remove,
}
use ohmydb_proxy.Postgres.Extended.{BindMessage}
use ohmydb_proxy.Postgres.State.{
  ConnectionState, belongs_elsewhere, close_portal, close_statement, register_portal,
  register_statement, update_transaction_status, with_statement,
}
use ohmydb_proxy.Postgres.State.Limits.{IsBounded}

pub record View : Type 0 where
  pub statement : Text → Option Text
  pub portal : Text → Option BindMessage

-- A value at one name.
abbrev pub at_name {ℓ} : {A : Type ℓ} → Text → A → (Text → A) → Text → A
at_name name a f k = if text_eq name k then a else f k

-- The portals of the statements but one.
abbrev pub without : Text → (Text → Option BindMessage) → Text → Option BindMessage
without name f k = filtered (belongs_elsewhere name) (f k)

-- To prepare a statement makes its name stand for the text; the unnamed one drops its portals.
abbrev pub prepare : Text → Text → View → View
prepare name query v = record {
  statement = at_name name (some query) v.statement;
  portal = if text_eq name [] then without [] v.portal else v.portal;
}

abbrev pub bind_portal : BindMessage → View → View
bind_portal bind v = record v { portal = at_name bind.portal_name (some bind) v.portal }

-- To close a statement forgets it and all its portals.
abbrev pub deallocate : Text → View → View
deallocate name v = record {
  statement = at_name name none v.statement;
  portal = without name v.portal;
}

abbrev pub drop_portal : Text → View → View
drop_portal name v = record v { portal = at_name name none v.portal }

-- The end of a transaction forgets every portal.
abbrev pub end_transaction : Text → View → View
end_transaction status v = record v {
  portal = if text_eq status (lit "I") then (λ k. none) else v.portal;
}

abbrev pub view : ConnectionState → View
view self = record {
  statement = λ k. lookup k self.prepared_statements;
  portal = λ k. lookup k self.portals;
}

pointwise :
    (s t : Text → Option Text) (p q : Text → Option BindMessage)
    → ((k : Text) → s k ≡ t k)
    → ((k : Text) → p k ≡ q k)
    → ◌≡◌ {A = View} (record { statement = s; portal = p }) (record { statement = t; portal = q })
pointwise s t p q hs hp = λ i. record { statement = λ k. hs k i; portal = λ k. hp k i }

portals_prepared :
    (b : Bool) (d : Dict BindMessage) (k : Text)
    → IsDistinct d
    → lookup k (if b then keep (belongs_elsewhere []) d else d)
      ≡ (if b then without [] (λ j. lookup j d) else (λ j. lookup j d)) k
portals_prepared true d k h = lookup-keep (belongs_elsewhere []) k d h
portals_prepared false d k h = refl

with_statement-view :
    (self : ConnectionState) (name query : Text)
    → IsDistinct self.portals
    → view (with_statement self name query) ≡ prepare name query (view self)
with_statement-view self name query h =
    pointwise _ _ _ _ (λ k. lookup-insert name k query self.prepared_statements)
      (λ k. portals_prepared (text_eq name []) self.portals k h)

portals_ended :
    (b : Bool) (d : Dict BindMessage) (k : Text)
    → lookup k (if b then [] else d)
      ≡ if◌then◌else◌ {A = Text → Option BindMessage} b (λ j. none) (λ j. lookup j d) k
unfolding lookup
portals_ended true d k = refl
portals_ended false d k = refl

registered_statement :
    (self : ConnectionState) (name query : Text) (self' : ConnectionState)
    → register_statement self name query ≡ ok self'
    → with_statement self name query ≡ self'
unfolding register_statement
registered_statement self name query self' h = ground arith

registered_portal :
    (self : ConnectionState) (bind : BindMessage) (self' : ConnectionState)
    → register_portal self bind ≡ ok self'
    → record self { portals = insert bind.portal_name bind self.portals } ≡ self'
unfolding register_portal
registered_portal self bind self' h = ground arith

ok_injective : (a b : ConnectionState) → ◌≡◌ {A = Result ConnectionState} (ok a) (ok b) → a ≡ b
ok_injective a b h = ground arith

-- The calls of the methods.
pub data Call : Type 0 where
  registers_statement : Text → Text → Call
  registers_portal : BindMessage → Call
  closes_statement : Text → Call
  closes_portal : Text → Call
  updates_status : Text → Call

abbrev pub run : Call → ConnectionState → Result ConnectionState
run (registers_statement name query) self = register_statement self name query
run (registers_portal bind) self = register_portal self bind
run (closes_statement name) self = ok (close_statement self name)
run (closes_portal name) self = ok (close_portal self name)
run (updates_status status) self = ok (update_transaction_status self status)

-- What a call means for the two partial functions.
abbrev pub view_after : Call → View → View
view_after (registers_statement name query) v = prepare name query v
view_after (registers_portal bind) v = bind_portal bind v
view_after (closes_statement name) v = deallocate name v
view_after (closes_portal name) v = drop_portal name v
view_after (updates_status status) v = end_transaction status v

-- The dictionaries of a bounded state implement the two partial functions: whatever call of a method
-- returns, a statement or portal that it registers is found under its name and no other lookup
-- changes, but for the portals of the unnamed statement that is replaced; closing a statement forgets
-- it and its portals alone, closing a portal forgets that portal, and the status "I" forgets every
-- portal.
pub session-refines-View :
    (call : Call) (self after : ConnectionState)
    → IsBounded self
    → run call self ≡ ok after
    → view after ≡ view_after call (view self)
unfolding close_statement close_portal update_transaction_status
session-refines-View (registers_statement name query) self after v h =
    rw (← registered_statement self name query after h)
      (with_statement-view self name query v.portals_distinct)
session-refines-View (registers_portal bind) self after v h =
    rw (← registered_portal self bind after h)
      (pointwise _ _ _ _ (λ k. refl) (λ k. lookup-insert bind.portal_name k bind self.portals))
session-refines-View (closes_statement name) self after v h =
    rw (← ok_injective (close_statement self name) after h) (
      pointwise _ _ _ _ (λ k. lookup-remove name k self.prepared_statements v.statements_distinct)
        (λ k. lookup-keep (belongs_elsewhere name) k self.portals v.portals_distinct))
session-refines-View (closes_portal name) self after v h =
    rw (← ok_injective (close_portal self name) after h)
      (pointwise _ _ _ _ (λ k. refl) (λ k. lookup-remove name k self.portals v.portals_distinct))
session-refines-View (updates_status status) self after v h =
    rw (← ok_injective (update_transaction_status self status) after h)
      (pointwise _ _ _ _ (λ k. refl) (λ k. portals_ended (text_eq status (lit "I")) self.portals k))
