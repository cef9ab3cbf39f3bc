-- ===== src/MySql/Session/Lifecycle.antt =====
-- A prepared statement from COM_STMT_PREPARE to its registration.
use ohmydb_proxy.Prelude.{
  Bool, Bytes, List, Text, [], err, false, is_empty, length, none, ok, some, strip, true, ℕ, ◌==◌,
  ◌∷◌, ◌≡◌,
}
use ohmydb_proxy.MySql.Constants.{}
use ohmydb_proxy.MySql.Command.{}
use ohmydb_proxy.MySql.Response.{}
use ohmydb_proxy.MySql.Params.Types.{}
use ohmydb_proxy.MySql.Session.{
  MetadataKind, MySqlSessionState, Outcome, has_pending_lifecycle_operation, put,
}
use ohmydb_proxy.MySql.Session.Prepare.{
  accept_statement_prepare_ok, announced, begin_statement_prepare, check_metadata_packet,
  consume_statement_prepare_metadata, finish_statement_prepare_response, metadata_kinds,
  wait_for_statement_prepare,
}
use ohmydb_proxy.MySql.Session.Invariant.{}

-- Goes on in the state that a method left, with what it returned.
abbrev pub and_then : Outcome Bool → (MySqlSessionState → Bool → Outcome Bool) → Outcome Bool
and_then (err e, self) k = (err e, self)
and_then (ok a, self) k = k self a

-- The packets of definitions, one after the other, until one raises; the result is the last one's.
abbrev pub consume_all : MySqlSessionState → ℕ → List Bytes → Bool → Outcome Bool
consume_all self f [] done = (ok done, self)
consume_all self f (b ∷ bs) done =
    and_then (consume_statement_prepare_metadata self b f) (λ s r. consume_all s f bs r)

-- The packets pass the tests of the kinds that are due, in order, one packet for each.
pub data Matches (f : ℕ) : List MetadataKind → List Bytes → Type 0 where
  nothing : Matches f [] []
  next :
      {kind : MetadataKind} {kinds : List MetadataKind} {b : Bytes} {bs : List Bytes}
      → is_empty b ≡ false
      → check_metadata_packet kind b f ≡ ok tt
      → Matches f kinds bs
      → Matches f (kind ∷ kinds) (b ∷ bs)

-- A state that waits for definitions of these kinds.
abbrev waiting : MySqlSessionState → ℕ → List MetadataKind → MySqlSessionState
waiting s i kinds = record s {
  pending_prepared_statement_id = some i;
  pending_prepare_metadata_kinds = kinds;
  pending_prepare_metadata_packets = length kinds;
}

-- The state that `begin_statement_prepare` leaves.
abbrev begun_with : MySqlSessionState → Text → MySqlSessionState
begun_with s sql = record s {
  pending_statement_sql = some sql;
  pending_prepare_event = some false;
  pending_prepared_statement_id = none;
  pending_prepare_metadata_packets = 0;
  pending_prepare_metadata_kinds = [];
  last_prepare_failed = false;
}

-- The state with the announced statement in its registry.
abbrev registered_in : MySqlSessionState → Text → ℕ → ℕ → ℕ → MySqlSessionState
registered_in s t i p c = record (begun_with s t) {
  prepared_statements = put i (announced t i p c) s.prepared_statements;
}

-- The whole exchange, from the client's text to the statement that the client gets.
abbrev pub Prepares : MySqlSessionState → Text → ℕ → ℕ → ℕ → Bool → List Bytes → ℕ → Type 0
Prepares s sql i p c d packets f =
    let begun = begin_statement_prepare s sql in
    let accepted = accept_statement_prepare_ok begun.1 i p c d in
    let consumed = consume_all accepted.1 f packets (length (metadata_kinds p c d) == 0) in
    let finished = finish_statement_prepare_response consumed.1 in
    (begun.0 ≡ ok tt)
    × (begun.1.pending_prepare_event ≡ some false)
    × (accepted.0 ≡ ok (announced (strip sql) i p c))
    × (consumed.0 ≡ ok true)
    × (finished.0 ≡ ok tt)
    × ((event : Bool) × (finished.1.pending_prepare_event ≡ some event)
        × (wait_for_statement_prepare event finished.1
            ≡ some (ok (some (announced (strip sql) i p c)))))
    × (has_pending_lifecycle_operation finished.1 ≡ false)
