-- ===== src/MySql/Session/Preserve.antt =====
-- Every method of the acknowledged operations keeps the invariant.
use ohmydb_proxy.Prelude.{
  Bool, Bytes, List, Result, Text, arith, err, false, length, ok, refl, some, true, ℕ, ◌>>◌, ◌≡◌,
}
use ohmydb_proxy.MySql.Constants.{}
use ohmydb_proxy.MySql.Command.{}
use ohmydb_proxy.MySql.Response.{}
use ohmydb_proxy.MySql.Params.Types.{MySqlParameterType}
use ohmydb_proxy.MySql.Session.{
  MySqlPreparedStatement, MySqlSessionState, get, get_prepared_statement, previous_bytes, put,
  sql_bytes,
}
use ohmydb_proxy.MySql.Session.Prepare.{}
use ohmydb_proxy.MySql.Session.Acknowledge.{
  begin_database_change, begin_ping, begin_statement_reset, close_prepared_statement,
  complete_database_change, complete_ping, complete_statement_reset, fail_ping,
  fail_statement_reset, finish_statement_reset, mark_statement_long_data,
  register_statement_parameter_types, reset_prepared_statement,
}
use ohmydb_proxy.MySql.Session.Respond.{}
use ohmydb_proxy.MySql.Session.Registry.{length-pop, length-put, state_bytes-pop, state_bytes-put}
use ohmydb_proxy.MySql.Session.Invariant.{IsWellFormed, nothing_pending, raising-keeps}

-- Nothing else raised: the last test passed.
pub then_ok : (a b : Result (Unit {0})) → a >> b ≡ ok tt → b ≡ ok tt
then_ok (ok tt) b h = h
then_ok (err e) b h = absurd (ground (arith, h))

pub begin_database_change-IsWellFormed :
    (s : MySqlSessionState) (t : Text) → IsWellFormed s → IsWellFormed (begin_database_change s t).1
unfolding begin_database_change
begin_database_change-IsWellFormed s t w = raising-keeps IsWellFormed s _ _ w (λ _ _.
    raising-keeps IsWellFormed s _ _ w (λ _ h. record {
      registered = w.registered;
      sized = w.sized;
      exclusive = ground (arith, nothing_pending s h);
      counted = w.counted;
      announced_pending = w.announced_pending;
      columns = w.columns;
    }))

pub complete_database_change-IsWellFormed :
    (s : MySqlSessionState) (b : Bytes)
    → IsWellFormed s
    → IsWellFormed (complete_database_change s b).1
unfolding complete_database_change
complete_database_change-IsWellFormed s b w = raising-keeps IsWellFormed s _ _ w (λ d h. record {
  registered = w.registered;
  sized = w.sized;
  exclusive = ground (arith, w.exclusive, h);
  counted = w.counted;
  announced_pending = w.announced_pending;
  columns = w.columns;
})

pub begin_ping-IsWellFormed :
    (s : MySqlSessionState) → IsWellFormed s → IsWellFormed (begin_ping s).1
unfolding begin_ping
begin_ping-IsWellFormed s w = raising-keeps IsWellFormed s _ _ w (λ _ h. record {
  registered = w.registered;
  sized = w.sized;
  exclusive = ground (arith, nothing_pending s h);
  counted = w.counted;
  announced_pending = w.announced_pending;
  columns = w.columns;
})

pub complete_ping-IsWellFormed :
    (s : MySqlSessionState) (b : Bytes) → IsWellFormed s → IsWellFormed (complete_ping s b).1
unfolding complete_ping
complete_ping-IsWellFormed s b w = raising-keeps IsWellFormed s _ _ w (λ _ h. record {
  registered = w.registered;
  sized = w.sized;
  exclusive = ground (arith, w.exclusive, h);
  counted = w.counted;
  announced_pending = w.announced_pending;
  columns = w.columns;
})

pub fail_ping-IsWellFormed : (s : MySqlSessionState) → IsWellFormed s → IsWellFormed (fail_ping s)
unfolding fail_ping
fail_ping-IsWellFormed s w = record {
  registered = w.registered;
  sized = w.sized;
  exclusive = ground (arith, w.exclusive);
  counted = w.counted;
  announced_pending = w.announced_pending;
  columns = w.columns;
}

pub begin_statement_reset-IsWellFormed :
    (s : MySqlSessionState) (i : ℕ) → IsWellFormed s → IsWellFormed (begin_statement_reset s i).1
unfolding begin_statement_reset
begin_statement_reset-IsWellFormed s i w = raising-keeps IsWellFormed s _ _ w (λ _ h.
    raising-keeps IsWellFormed s _ _ w (λ _ _. record {
      registered = w.registered;
      sized = w.sized;
      exclusive = ground (arith, nothing_pending s h);
      counted = w.counted;
      announced_pending = w.announced_pending;
      columns = w.columns;
    }))

pub fail_statement_reset-IsWellFormed :
    (s : MySqlSessionState) → IsWellFormed s → IsWellFormed (fail_statement_reset s)
unfolding fail_statement_reset
fail_statement_reset-IsWellFormed s w = record {
  registered = w.registered;
  sized = w.sized;
  exclusive = ground (arith, w.exclusive);
  counted = w.counted;
  announced_pending = w.announced_pending;
  columns = w.columns;
}

-- A registered statement may change anything but its text.
pub put-IsWellFormed :
    (s : MySqlSessionState) (i : ℕ) (old changed : MySqlPreparedStatement)
    → IsWellFormed s
    → get_prepared_statement s i ≡ ok old
    → changed.sql ≡ old.sql
    → IsWellFormed (record s { prepared_statements = put i changed s.prepared_statements })
unfolding get_prepared_statement
put-IsWellFormed s i old changed w h e =
    let found : get i s.prepared_statements ≡ some old = ground (arith, h) in
    let lengths : length (put i changed s.prepared_statements) ≡ length s.prepared_statements =
      ground (arith, length-put i changed s.prepared_statements, found) in
    let sizes : sql_bytes changed.sql ≡ previous_bytes (get i s.prepared_statements) =
      rw (found, e) refl in
    record {
      registered = omega (arith, lengths, w.registered);
      sized = omega (arith, sizes, state_bytes-put i changed s.prepared_statements, w.sized);
      exclusive = w.exclusive;
      counted = w.counted;
      announced_pending = w.announced_pending;
      columns = w.columns;
    }

pub register_statement_parameter_types-IsWellFormed :
    (s : MySqlSessionState) (i : ℕ) (ts : List MySqlParameterType)
    → IsWellFormed s
    → IsWellFormed (register_statement_parameter_types s i ts).1
unfolding register_statement_parameter_types
register_statement_parameter_types-IsWellFormed s i ts w =
    raising-keeps IsWellFormed s _ _ w
      (λ old h. raising-keeps IsWellFormed s _ _ w (λ _ _. put-IsWellFormed s i old _ w h refl))

pub mark_statement_long_data-IsWellFormed :
    (s : MySqlSessionState) (i p : ℕ)
    → IsWellFormed s
    → IsWellFormed (mark_statement_long_data s i p).1
unfolding mark_statement_long_data
mark_statement_long_data-IsWellFormed s i p w =
    raising-keeps IsWellFormed s _ _ w
      (λ old h. raising-keeps IsWellFormed s _ _ w (λ _ _. put-IsWellFormed s i old _ w h refl))

pub reset_prepared_statement-IsWellFormed :
    (s : MySqlSessionState) (i : ℕ) → IsWellFormed s → IsWellFormed (reset_prepared_statement s i).1
unfolding reset_prepared_statement
reset_prepared_statement-IsWellFormed s i w =
    raising-keeps IsWellFormed s _ _ w (λ old h. put-IsWellFormed s i old _ w h refl)

finish_statement_reset-IsWellFormed :
    (s : MySqlSessionState) (i : ℕ) (answer : Result Bool)
    → IsWellFormed s
    → IsWellFormed (finish_statement_reset s i answer).1
unfolding finish_statement_reset
finish_statement_reset-IsWellFormed s i (ok true) w = reset_prepared_statement-IsWellFormed s i w
finish_statement_reset-IsWellFormed s i (ok false) w = w
finish_statement_reset-IsWellFormed s i (err e) w = w

pub complete_statement_reset-IsWellFormed :
    (s : MySqlSessionState) (b : Bytes)
    → IsWellFormed s
    → IsWellFormed (complete_statement_reset s b).1
unfolding complete_statement_reset fail_statement_reset
complete_statement_reset-IsWellFormed s b w = raising-keeps IsWellFormed s _ _ w (λ i h.
    finish_statement_reset-IsWellFormed (fail_statement_reset s) i _
      (fail_statement_reset-IsWellFormed s w))

pub close_prepared_statement-IsWellFormed :
    (s : MySqlSessionState) (i : ℕ) → IsWellFormed s → IsWellFormed (close_prepared_statement s i).1
unfolding close_prepared_statement
close_prepared_statement-IsWellFormed s i w = record {
  registered = omega (arith, length-pop i s.prepared_statements, w.registered);
  sized = omega (arith, state_bytes-pop i s.prepared_statements, w.sized);
  exclusive = w.exclusive;
  counted = w.counted;
  announced_pending = w.announced_pending;
  columns = w.columns;
}
