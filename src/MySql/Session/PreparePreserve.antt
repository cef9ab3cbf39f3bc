-- ===== src/MySql/Session/PreparePreserve.antt =====
-- Every method of the life of a prepared statement keeps the invariant.
use ohmydb_proxy.Prelude.{
  Bool, Bytes, Option, Text, arith, length, length-drop, none, refl, some, ℕ, ◌≤◌,
}
use ohmydb_proxy.MySql.Constants.{}
use ohmydb_proxy.MySql.Command.{}
use ohmydb_proxy.MySql.Response.{}
use ohmydb_proxy.MySql.Params.Types.{}
use ohmydb_proxy.MySql.Session.{MySqlSessionState, Registry, state_bytes}
use ohmydb_proxy.MySql.Session.Prepare.{
  accept_statement_prepare_ok, announced, begin_statement_prepare, complete_statement_prepare,
  consume_statement_prepare_metadata, fail_statement_prepare, finish_statement_prepare_response,
  pop_pending,
}
use ohmydb_proxy.MySql.Session.Acknowledge.{}
use ohmydb_proxy.MySql.Session.Respond.{}
use ohmydb_proxy.MySql.Session.Registry.{length-pop, state_bytes-pop}
use ohmydb_proxy.MySql.Session.Invariant.{
  IsWellFormed, nothing_pending, raising-keeps, require_prepared_capacity-put,
}
use ohmydb_proxy.MySql.Session.Preserve.{then_ok}

pub begin_statement_prepare-IsWellFormed :
    (s : MySqlSessionState) (t : Text)
    → IsWellFormed s
    → IsWellFormed (begin_statement_prepare s t).1
unfolding begin_statement_prepare
begin_statement_prepare-IsWellFormed s t w = raising-keeps IsWellFormed s _ _ w (λ _ _.
    raising-keeps IsWellFormed s _ _ w (λ _ h. record {
      registered = w.registered;
      sized = w.sized;
      exclusive = ground (arith, nothing_pending s h);
      counted = refl;
      announced_pending = omega arith;
      columns = w.columns;
    }))

pub complete_statement_prepare-IsWellFormed :
    (s : MySqlSessionState) (i p c : ℕ)
    → IsWellFormed s
    → IsWellFormed (complete_statement_prepare s i p c).1
unfolding complete_statement_prepare announced
complete_statement_prepare-IsWellFormed s i p c w = raising-keeps IsWellFormed s _ _ w (λ t n.
    raising-keeps IsWellFormed s _ _ w (λ _ h.
      let room = require_prepared_capacity-put s i (announced t i p c) w.registered (h) in
      record {
        registered = room.0;
        sized = room.1;
        exclusive = ground (arith, w.exclusive);
        counted = refl;
        announced_pending = omega arith;
        columns = w.columns;
      }))

pub accept_statement_prepare_ok-IsWellFormed :
    (s : MySqlSessionState) (i p c : ℕ) (d : Bool)
    → IsWellFormed s
    → IsWellFormed (accept_statement_prepare_ok s i p c d).1
unfolding accept_statement_prepare_ok announced
accept_statement_prepare_ok-IsWellFormed s i p c d w = raising-keeps IsWellFormed s _ _ w (λ t n.
    raising-keeps IsWellFormed s _ _ w (λ _ h.
      let room =
        require_prepared_capacity-put s i (announced t i p c) w.registered (then_ok _ _ h) in
      record {
        registered = room.0;
        sized = room.1;
        exclusive = w.exclusive;
        counted = refl;
        announced_pending = ground (arith, n);
        columns = w.columns;
      }))

pub consume_statement_prepare_metadata-IsWellFormed :
    (s : MySqlSessionState) (b : Bytes) (f : ℕ)
    → IsWellFormed s
    → IsWellFormed (consume_statement_prepare_metadata s b f).1
unfolding consume_statement_prepare_metadata
consume_statement_prepare_metadata-IsWellFormed s b f w = raising-keeps IsWellFormed s _ _ w (λ _ h.
    record {
      registered = w.registered;
      sized = w.sized;
      exclusive = w.exclusive;
      counted = omega (arith, w.counted, length-drop 1 s.pending_prepare_metadata_kinds);
      announced_pending = w.announced_pending;
      columns = w.columns;
    })

pub finish_statement_prepare_response-IsWellFormed :
    (s : MySqlSessionState) → IsWellFormed s → IsWellFormed (finish_statement_prepare_response s).1
unfolding finish_statement_prepare_response
finish_statement_prepare_response-IsWellFormed s w = raising-keeps IsWellFormed s _ _ w (λ i h.
    record {
      registered = w.registered;
      sized = w.sized;
      exclusive = ground (arith, w.exclusive);
      counted = ground (arith, h);
      announced_pending = omega arith;
      columns = w.columns;
    })

fail_statement_prepare-registry :
    (pending : Option ℕ) (r : Registry)
    → (length (pop_pending pending r) ≤ length r)
      × (state_bytes (pop_pending pending r) ≤ state_bytes r)
fail_statement_prepare-registry none r = (omega arith, omega arith)
fail_statement_prepare-registry (some i) r = (length-pop i r, state_bytes-pop i r)

pub fail_statement_prepare-IsWellFormed :
    (s : MySqlSessionState) → IsWellFormed s → IsWellFormed (fail_statement_prepare s)
unfolding fail_statement_prepare
fail_statement_prepare-IsWellFormed s w =
    let (l, b) =
      fail_statement_prepare-registry s.pending_prepared_statement_id s.prepared_statements in
    record {
      registered = omega (arith, l, w.registered);
      sized = omega (arith, b, w.sized);
      exclusive = ground (arith, w.exclusive);
      counted = refl;
      announced_pending = omega arith;
      columns = w.columns;
    }
