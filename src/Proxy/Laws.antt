-- ===== src/Proxy/Laws.antt =====
-- What a decision that lets a statement pass without a user says about the policy.
use ohmydb_proxy.Prelude.{
  Bool, Bytes, List, Option, Text, [], arith, false, ok, refl, true, ℕ, ◌++◌, ◌∷◌, ◌≡◌, ◌≢◌, ◌⊎◌,
}
use ohmydb_proxy.Policy.{
  Classification, PolicyAction, allow, block, confirm, evaluate_policy, post_init, safe,
}
use ohmydb_proxy.Policy.FailSafe.{FailSafeMode, balanced, evaluate_protocol_gap, permissive, strict}
use ohmydb_proxy.Policy.Laws.{IsGuarded, IsSmallChange}
use ohmydb_proxy.Proxy.{
  ProxyOptions, QueryContext, Sent, approved_by, evaluate_and_decide, is_allowed_gap, query_context,
  to_backend, to_client,
}

-- No user approves what the policy wants to be confirmed.
abbrev pub IsUnattended : ProxyOptions → Type 0
IsUnattended opts = (context : QueryContext) → opts.provider_confirm context ≡ false

-- A statement that the policy lets pass by itself: safe, or a small change by its estimate.
abbrev pub MayPass : ProxyOptions → Classification → Option ℕ → Option Text → Type 0
MayPass opts c rows error = (c.risk ≡ safe) ⊎ IsSmallChange c rows error opts.policy_config

-- The proxy runs without a user: valid thresholds, no configured action that allows, no user that
-- approves, and a fail-safe mode that is not permissive.
pub record IsStrict (opts : ProxyOptions) : Type 0 where
  pub guarded : IsGuarded opts.policy_config
  pub valid : post_init opts.policy_config ≡ ok tt
  pub unattended : IsUnattended opts
  pub mode : opts.fail_safe_mode ≢ permissive

approved_unattended :
    (action : PolicyAction) (answer : Bool)
    → answer ≡ false
    → approved_by action answer ≡ true
    → action ≡ allow
approved_unattended allow answer f h = refl
approved_unattended confirm answer f h = absurd (ground (arith, f, h))
approved_unattended block answer f h = absurd (ground (arith, h))

pub evaluate_and_decide-allow :
    (opts : ProxyOptions) (sql database : Text) (c : Classification) (rows : Option ℕ)
    (error : Option Text) (approximate : Bool)
    → IsUnattended opts
    → (evaluate_and_decide opts sql database c rows error approximate).0 ≡ true
    → (evaluate_policy c rows error opts.policy_config).action ≡ allow
unfolding evaluate_and_decide
evaluate_and_decide-allow opts sql database c rows error approximate u h =
    let decision = evaluate_policy c rows error opts.policy_config in
    let context = query_context opts sql database c rows error decision approximate in
    approved_unattended decision.action (opts.provider_confirm context) (u context) h

pub allow_gap-permissive :
    (mode : FailSafeMode) (reason : Text)
    → is_allowed_gap (evaluate_protocol_gap mode reason).action ≡ true
    → mode ≡ permissive
unfolding evaluate_protocol_gap
allow_gap-permissive strict reason h = absurd (ground (arith, h))
allow_gap-permissive balanced reason h = absurd (ground (arith, h))
allow_gap-permissive permissive reason h = refl

-- What of a list of writes goes to the backend.
abbrev pub backend_writes : List Sent → List Bytes
backend_writes [] = []
backend_writes (to_client packet ∷ sent) = backend_writes sent
backend_writes (to_backend packet ∷ sent) = packet ∷ backend_writes sent

pub backend_writes-append :
    (xs ys : List Sent)
    → backend_writes xs ≡ []
    → backend_writes ys ≡ []
    → backend_writes (xs ++ ys) ≡ []
backend_writes-append [] ys hx hy = hy
backend_writes-append (to_client packet ∷ xs) ys hx hy = backend_writes-append xs ys hx hy
backend_writes-append (to_backend packet ∷ xs) ys hx hy = cc

-- While the Boolean is false, there is no write to the backend.
abbrev pub IsSilent : Bool → List Sent → Type 0
IsSilent true sent = Unit {0}
IsSilent false sent = backend_writes sent ≡ []

-- What a step writes while the Boolean stays false; it does not become false again.
abbrev pub StaysSilent : Bool → Bool → List Sent → Type 0
StaysSilent before true sent = Unit {0}
StaysSilent before false sent = (before ≡ false) × (backend_writes sent ≡ [])

pub no_writes_silent :
    (b : Bool) (sent : List Sent) → backend_writes sent ≡ [] → StaysSilent b b sent
no_writes_silent true sent h = tt
no_writes_silent false sent h = (refl, h)

pub IsSilent-append :
    (before after : Bool) (xs ys : List Sent)
    → StaysSilent before after ys
    → IsSilent before xs
    → IsSilent after (xs ++ ys)
IsSilent-append before true xs ys s h = tt
IsSilent-append true false xs ys s h = cc (s.0)
IsSilent-append false false xs ys s h = backend_writes-append xs ys h s.1
