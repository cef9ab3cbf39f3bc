-- ===== src/MySql/Dispatcher/Sends.antt =====
-- Writes of a dispatch that meet a predicate.
use ohmydb_proxy.Prelude.{
  Bool, Bytes, Result, Text, err, false, if◌then◌else◌, is_mysql_error, ok, refl, true, ◌>>=◌, ◌>>◌,
  ◌≡◌,
}
use ohmydb_proxy.Policy.Laws.{}
use ohmydb_proxy.Policy.Classifier.{}
use ohmydb_proxy.Policy.{}
use ohmydb_proxy.Proxy.{Sent, to_backend, to_client}
use ohmydb_proxy.Proxy.Laws.{}
use ohmydb_proxy.MySql.Packet.{MySqlLogicalMessage}
use ohmydb_proxy.MySql.Command.{}
use ohmydb_proxy.MySql.Params.{}
use ohmydb_proxy.MySql.Session.{MySqlSessionState, Outcome}
use ohmydb_proxy.MySql.Session.Respond.{begin_command_response}
use ohmydb_proxy.MySql.Session.Invariant.{raising-keeps}
use ohmydb_proxy.MySql.Handler.{}
use ohmydb_proxy.MySql.Handler.Laws.{}
use ohmydb_proxy.MySql.Dispatcher.Commands.{
  Dispatched, block_protocol_state_error, blocked, catching, catching_method, forwarded, message_of,
}
use ohmydb_proxy.MySql.Dispatcher.Execute.{}

-- A write to the backend meets a predicate.
abbrev pub Sends : (Bytes → Type 0) → Result (Bool × Sent) → Type 0
Sends P (ok (forwarded, to_backend raw)) = P raw
Sends P (ok (forwarded, to_client packet)) = Unit {0}
Sends P (err e) = Unit {0}

pub Sends-each :
    (P : Bytes → Type 0) (r : Result (Bool × Sent))
    → ((forwarded : Bool) (raw : Bytes) → r ≡ ok (forwarded, to_backend raw) → P raw)
    → Sends P r
Sends-each P (ok (forwarded, to_backend raw)) h = h forwarded raw refl
Sends-each P (ok (forwarded, to_client packet)) h = tt
Sends-each P (err e) h = tt

pub Sends-if :
    (P : Bytes → Type 0) (b : Bool) (x y : Result (Bool × Sent))
    → (b ≡ true → Sends P x)
    → (b ≡ false → Sends P y)
    → Sends P (if b then x else y)
Sends-if P true x y hx hy = hx refl
Sends-if P false x y hx hy = hy refl

client-Sends :
    (P : Bytes → Type 0) (packet : Result Bytes) → Sends P (do p ← packet; ok (false, to_client p))
client-Sends P (ok p) = tt
client-Sends P (err e) = tt

pub blocked-Sends :
    (P : Bytes → Type 0) (message : MySqlLogicalMessage) (reason : Text)
    → Sends P (blocked message reason)
unfolding block_protocol_state_error
blocked-Sends P message reason = client-Sends P _

pub catching-Sends :
    {A : Type 0} (P : Bytes → Type 0) (session : MySqlSessionState) (r : Result A)
    (recover : Text → Result (Bool × Sent)) (rest : A → Dispatched)
    → ((t : Text) → Sends P (recover t))
    → ((a : A) → r ≡ ok a → Sends P (rest a).0)
    → Sends P (catching session r recover rest).0
unfolding catching
catching-Sends P session (ok a) recover rest h k = k a refl
catching-Sends P session (err e) recover rest h k =
    Sends-if P (is_mysql_error e) _ _ (λ _. h (message_of e)) (λ _. tt)

pub catching_method-Sends :
    (P : Bytes → Type 0) (o : Outcome (Unit {0})) (recover : Text → Result (Bool × Sent))
    (rest : MySqlSessionState → Dispatched)
    → ((t : Text) → Sends P (recover t))
    → ((s : MySqlSessionState) → o.1 ≡ s → Sends P (rest s).0)
    → Sends P (catching_method o recover rest).0
unfolding catching_method
catching_method-Sends P (ok _, s) recover rest h k = k s refl
catching_method-Sends P (err e, s) recover rest h k =
    Sends-if P (is_mysql_error e) _ _ (λ _. h (message_of e)) (λ _. tt)

pub tested-Sends :
    (P : Bytes → Type 0) (marked : Result (Unit {0})) (r : Result (Bool × Sent))
    → Sends P r
    → Sends P (marked >> r)
tested-Sends P (ok _) r h = h
tested-Sends P (err e) r h = tt

pub begun_database :
    (s : MySqlSessionState) (kind : Text) → (begin_command_response s kind).1.database ≡ s.database
unfolding begin_command_response
begun_database s kind = raising-keeps (λ t. t.database ≡ s.database) s _ _ refl (λ _ _. refl)
