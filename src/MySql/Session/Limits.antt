-- ===== src/MySql/Session/Limits.antt =====
-- The limits and the database of a session after a call.
use ohmydb_proxy.Prelude.{
  Bool, Bool-cases, Bytes, Error, Option, String, Text, [], arith, false, inl, inr, none, or_raise,
  refl, some, suc, sym, true, zero, ◌∙◌, ◌∷◌, ◌≡◌,
}
use ohmydb_proxy.MySql.Command.{starts_with_byte}
use ohmydb_proxy.MySql.Params.Types.{}
use ohmydb_proxy.MySql.Session.{MySqlSessionState, mark_closing, raising, update_transaction_status}
use ohmydb_proxy.MySql.Session.Prepare.{
  accept_statement_prepare_ok, begin_statement_prepare, complete_statement_prepare,
  consume_statement_prepare_metadata, fail_statement_prepare, finish_statement_prepare_response,
}
use ohmydb_proxy.MySql.Session.Acknowledge.{
  acknowledgment, begin_database_change, begin_ping, begin_statement_reset,
  close_prepared_statement, complete_database_change, complete_ping, complete_statement_reset,
  database_after, fail_ping, fail_statement_reset, mark_statement_long_data,
  register_statement_parameter_types,
}
use ohmydb_proxy.MySql.Session.Respond.{begin_command_response, fail_command_forward}
use ohmydb_proxy.MySql.Session.Operations.{
  Operation, abandon_ping, abandon_reset, abandon_response, accept_prepare_ok, accept_response,
  after, begin_database, begin_prepare, begin_reset, begin_response, close_session, close_statement,
  complete_database, complete_prepare, complete_reset, consume_metadata, end_ping, fail_prepare,
  finish_prepare, mark_long_data, register_types, reset_statement, start_ping, update_status,
}
use ohmydb_proxy.MySql.Session.Invariant.{raising-keeps}
use ohmydb_proxy.MySql.Session.Frame.{
  IsFramed, accept_command_response_packet-IsFramed, finish_statement_reset-IsFramed,
  reset_prepared_statement-IsFramed, same,
}

abbrev is_complete_database : Operation → Bool
is_complete_database (complete_database _) = true
is_complete_database _ = false

others-IsFramed :
    (o : Operation) (s : MySqlSessionState)
    → is_complete_database o ≡ false
    → IsFramed s (after o s)
unfolding begin_database_change begin_statement_prepare complete_statement_prepare
    fail_statement_prepare accept_statement_prepare_ok consume_statement_prepare_metadata
    finish_statement_prepare_response close_prepared_statement register_statement_parameter_types
    mark_statement_long_data begin_ping complete_ping fail_ping begin_statement_reset
    complete_statement_reset fail_statement_reset begin_command_response fail_command_forward
    update_transaction_status mark_closing
others-IsFramed (complete_database b) s h = absurd (ground (arith, h))
others-IsFramed (begin_database t) s h =
    raising-keeps (IsFramed s) s _ _ (same s)
      (λ _ _. raising-keeps (IsFramed s) s _ _ (same s) (λ _ _. (refl, refl, refl)))
others-IsFramed (begin_prepare t) s h =
    raising-keeps (IsFramed s) s _ _ (same s)
      (λ _ _. raising-keeps (IsFramed s) s _ _ (same s) (λ _ _. (refl, refl, refl)))
others-IsFramed (complete_prepare i p c) s h =
    raising-keeps (IsFramed s) s _ _ (same s)
      (λ _ _. raising-keeps (IsFramed s) s _ _ (same s) (λ _ _. (refl, refl, refl)))
others-IsFramed fail_prepare s h = (refl, refl, refl)
others-IsFramed (accept_prepare_ok i p c d) s h =
    raising-keeps (IsFramed s) s _ _ (same s)
      (λ _ _. raising-keeps (IsFramed s) s _ _ (same s) (λ _ _. (refl, refl, refl)))
others-IsFramed (consume_metadata b f) s h =
    raising-keeps (IsFramed s) s _ _ (same s) (λ _ _. (refl, refl, refl))
others-IsFramed finish_prepare s h =
    raising-keeps (IsFramed s) s _ _ (same s) (λ _ _. (refl, refl, refl))
others-IsFramed (close_statement i) s h = (refl, refl, refl)
others-IsFramed (register_types i ts) s h =
    raising-keeps (IsFramed s) s _ _ (same s)
      (λ _ _. raising-keeps (IsFramed s) s _ _ (same s) (λ _ _. (refl, refl, refl)))
others-IsFramed (mark_long_data i p) s h =
    raising-keeps (IsFramed s) s _ _ (same s)
      (λ _ _. raising-keeps (IsFramed s) s _ _ (same s) (λ _ _. (refl, refl, refl)))
others-IsFramed (reset_statement i) s h = reset_prepared_statement-IsFramed s i
others-IsFramed start_ping s h =
    raising-keeps (IsFramed s) s _ _ (same s) (λ _ _. (refl, refl, refl))
others-IsFramed (end_ping b) s h =
    raising-keeps (IsFramed s) s _ _ (same s) (λ _ _. (refl, refl, refl))
others-IsFramed abandon_ping s h = (refl, refl, refl)
others-IsFramed (begin_reset i) s h =
    raising-keeps (IsFramed s) s _ _ (same s)
      (λ _ _. raising-keeps (IsFramed s) s _ _ (same s) (λ _ _. (refl, refl, refl)))
others-IsFramed (complete_reset b) s h =
    raising-keeps (IsFramed s) s _ _ (same s)
      (λ i _. finish_statement_reset-IsFramed (record s { pending_statement_reset_id = none }) i _)
others-IsFramed abandon_reset s h = (refl, refl, refl)
others-IsFramed (begin_response t) s h =
    raising-keeps (IsFramed s) s _ _ (same s) (λ _ _. (refl, refl, refl))
others-IsFramed abandon_response s h = (refl, refl, refl)
others-IsFramed (accept_response b f) s h = accept_command_response_packet-IsFramed s b f
others-IsFramed (update_status f) s h = (refl, refl, refl)
others-IsFramed close_session s h = (refl, refl, refl)

complete_database_change-limits :
    (s : MySqlSessionState) (b : Bytes)
    → let t = (complete_database_change s b).1 in
      (t.max_prepared_statements ≡ s.max_prepared_statements)
      × (t.max_state_bytes ≡ s.max_state_bytes)
unfolding complete_database_change
complete_database_change-limits s b =
    raising-keeps
      (λ t.
        (t.max_prepared_statements ≡ s.max_prepared_statements)
        × (t.max_state_bytes ≡ s.max_state_bytes))
      s _ _ (refl, refl) (λ _ _. (refl, refl))

pub after-limits :
    (o : Operation) (s : MySqlSessionState)
    → ((after o s).max_prepared_statements ≡ s.max_prepared_statements)
      × ((after o s).max_state_bytes ≡ s.max_state_bytes)
after-limits o s = elim (Bool-cases (is_complete_database o)) [
  | inr f ↦ let (m, b, _) = others-IsFramed o s f in (m, b)
  | inl c ↦ by_payload o c
]
  where
    by_payload :
        (o : Operation)
        → is_complete_database o ≡ true
        → ((after o s).max_prepared_statements ≡ s.max_prepared_statements)
          × ((after o s).max_state_bytes ≡ s.max_state_bytes)
    by_payload (complete_database b) c = complete_database_change-limits s b
    by_payload _ c = absurd (ground (arith, c))

-- The database behind an answer of the backend: an OK packet, which begins with a zero, makes the
-- pending database the session's.
abbrev pub acknowledged : Option Text → Bytes → Text → Text
acknowledged (some new_database) (zero ∷ rest) database = new_database
acknowledged _ _ database = database

-- Which database a call leaves.
abbrev pub expected_database : Operation → MySqlSessionState → Text
expected_database (complete_database payload) s = acknowledged s.pending_database payload s.database
expected_database _ s = s.database

expected_other :
    (o : Operation) (s : MySqlSessionState)
    → is_complete_database o ≡ false
    → expected_database o s ≡ s.database
expected_other (complete_database payload) s h = absurd (ground (arith, h))
expected_other _ s h = refl

-- `complete_database_change` with the pending database apart.
changed_database :
    (pending : Option Text) (s : MySqlSessionState) (b : Bytes) (e : Error) (x y : String)
    → (raising s (or_raise pending e) (λ new_database.
        let answer = acknowledgment b x y in
        (
          answer,
          record s {
            database = database_after answer new_database s.database;
            pending_database = none;
          },
        ))).1.database
      ≡ acknowledged pending b s.database
unfolding raising acknowledgment starts_with_byte
changed_database none s b e x y = refl
changed_database (some d) s [] e x y = refl
changed_database (some d) s (zero ∷ rest) e x y = refl
changed_database (some d) s (suc n ∷ rest) e x y = ground arith

-- Whatever the call and the state, also when the call raises: the database of the session is as
-- before, unless the call is the acknowledgment of a pending change of the database by an OK packet;
-- then it is the pending database.
pub after-database :
    (o : Operation) (s : MySqlSessionState) → (after o s).database ≡ expected_database o s
after-database o s = elim (Bool-cases (is_complete_database o)) [
  | inr f ↦ (others-IsFramed o s f).2 ∙ sym (expected_other o s f)
  | inl c ↦ by_payload o c
]
  where
    by_payload :
        (o : Operation)
        → is_complete_database o ≡ true
        → (after o s).database ≡ expected_database o s
    by_payload (complete_database b) c =
        unfold complete_database_change in changed_database s.pending_database s b _ _ _
    by_payload _ c = absurd (ground (arith, c))
