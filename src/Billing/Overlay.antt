-- ===== src/Billing/Overlay.antt =====
-- src/server/modules/billing/lifecycle.ts (applyRenew, applyGrace, applyRevoke): the overlay of a
-- subscription.
use Prim.Native.String.{String}
use license_srv.Prelude.{
  ℕ, ◌+◌, ◌*◌, Bool, true, false, Option, none, some, [], ◌∷◌, ◌++◌, update_where,
}
use license_srv.Store.{
  License, LicenseStatus, BillingState, Subscription, AuditValue, Tx, ◌>>=◌, ◌>>◌, pure, query,
  modify, write_audit,
}
use license_srv.Lease.Acquire.{is_license}
use license_srv.Catalog.Effective.{EffectivePlanDefinition}
use license_srv.Issuance.Lifecycle.{with_licenses, revoke_license, reinstate_license}
use license_srv.Issuance.Issue.{to_entitlement_map, put_all}
use license_srv.Billing.Events.{CanonicalEvent, resolve_grace_seconds}
use license_srv.Billing.Subscription.{ApplyStateInput, apply_subscription_state}
use license_srv.Billing.Lifecycle.{flag_if, lock_license}
use license_srv.Billing.Customers.{
  MutationContext, ResolvedConnection, BillingDeps, actor_of, audit_source,
}

-- `CASE WHEN $4 IS NULL THEN expires_at ELSE to_timestamp($4) END`.
unfoldable pub extended : (expires_at period_end : Option ℕ) → Option ℕ
extended expires_at none = expires_at
extended expires_at (some at) = some (at * 1000)

unfoldable pub refreshed : EffectivePlanDefinition → (period_end : Option ℕ) → License → License
unfolding extended put_all
refreshed eff period_end lic = record lic {
  entitlements = to_entitlement_map eff.entitlements;
  max_activations = eff.max_activations;
  expires_at = extended lic.expires_at period_end;
}

unfoldable pub refresh_license :
    ℕ → (period_end : Option ℕ) → Option EffectivePlanDefinition → Tx (Unit {0})
unfolding refreshed
refresh_license id period_end none = pure tt
refresh_license id period_end (some eff) =
    modify
      (λ db. with_licenses db (update_where (is_license id) (refreshed eff period_end) db.licenses))

unfoldable pub time_or_null : Option ℕ → AuditValue
time_or_null none = AuditValue.null
time_or_null (some at) = AuditValue.number at

-- What follows the reinstatement, if there was one.
unfoldable pub renew_terms :
    BillingDeps → MutationContext → Subscription → CanonicalEvent → (plan_id : ℕ) → Tx (Unit {0})
unfolding refresh_license apply_subscription_state actor_of audit_source time_or_null
renew_terms deps ctx sub event plan_id = do
  eff ← query (deps.effective plan_id)
  refresh_license sub.license_id event.period_end eff
  moved ← apply_subscription_state sub.id (record {
    billing_state = BillingState.active;
    grace_expires_at = none;
    occurred_at = event.occurred_at;
  })
  write_audit (actor_of ctx) "billing.renewed" sub.license_id (
      audit_source ctx event
      ++ ("billingState", AuditValue.text "active")
        ∷ ("extendedTo", time_or_null event.period_end)
        ∷ [])

unfoldable pub renew_from :
    BillingDeps
    → MutationContext
    → Subscription
    → CanonicalEvent
    → (plan_id : ℕ) → LicenseStatus
    → Tx (Unit {0})
unfolding renew_terms reinstate_license actor_of
renew_from deps ctx sub event plan_id LicenseStatus.revoked = pure tt
renew_from deps ctx sub event plan_id LicenseStatus.suspended = do
  reinstated ← reinstate_license (actor_of ctx) sub.license_id
  renew_terms deps ctx sub event plan_id
renew_from deps ctx sub event plan_id LicenseStatus.active = renew_terms deps ctx sub event plan_id

unfoldable pub apply_renew :
    BillingDeps → MutationContext → Subscription → CanonicalEvent → Tx (Unit {0})
unfolding lock_license renew_from
apply_renew deps ctx sub event = do
  lic ← lock_license sub.license_id
  renew_from deps ctx sub event lic.plan_id lic.status

-- The two actions that begin a grace.
pub data GraceAction : Type 0 where
  cancel past_due : GraceAction

unfoldable pub grace_state : GraceAction → BillingState
grace_state cancel = BillingState.grace
grace_state past_due = BillingState.past_due

unfoldable pub grace_text : GraceAction → String
grace_text cancel = "grace"
grace_text past_due = "past_due"

-- `now` is in milliseconds.
unfoldable pub grace_end : BillingDeps → ResolvedConnection → CanonicalEvent → (now : ℕ) → ℕ
unfolding resolve_grace_seconds
grace_end deps conn event now =
    now
    + resolve_grace_seconds deps.config
        (record {
          default_grace_seconds = some conn.default_grace_seconds;
          grace_overrides = conn.grace_overrides;
        })
        event.plan_key
      * 1000

abbrev pub grace_input :
    BillingDeps → ResolvedConnection → CanonicalEvent → GraceAction → (now : ℕ) → ApplyStateInput
grace_input deps conn event action now = record {
  billing_state = grace_state action;
  grace_expires_at = some (grace_end deps conn event now);
  occurred_at = event.occurred_at;
}

unfoldable pub start_grace :
    BillingDeps
    → MutationContext
    → ResolvedConnection
    → Subscription
    → CanonicalEvent
    → GraceAction
    → (now : ℕ) → Tx (Unit {0})
unfolding grace_end grace_state grace_text apply_subscription_state actor_of audit_source
start_grace deps ctx conn sub event action now = do
  moved ← apply_subscription_state sub.id (grace_input deps conn event action now)
  write_audit (actor_of ctx) "billing.grace_started" sub.license_id (
      audit_source ctx event
      ++ ("billingState", AuditValue.text (grace_text action))
        ∷ ("graceExpiresAt", AuditValue.number (grace_end deps conn event now))
        ∷ [])

unfoldable pub grace_from :
    BillingDeps
    → MutationContext
    → ResolvedConnection
    → Subscription
    → CanonicalEvent
    → GraceAction
    → (now : ℕ) → LicenseStatus
    → Tx (Unit {0})
unfolding start_grace
grace_from deps ctx conn sub event action now LicenseStatus.revoked = pure tt
grace_from deps ctx conn sub event action now _ = start_grace deps ctx conn sub event action now

unfoldable pub apply_grace :
    BillingDeps
    → MutationContext
    → ResolvedConnection
    → Subscription
    → CanonicalEvent
    → GraceAction
    → (now : ℕ) → Tx (Unit {0})
unfolding lock_license grace_from
apply_grace deps ctx conn sub event action now = do
  lic ← lock_license sub.license_id
  grace_from deps ctx conn sub event action now lic.status

unfoldable pub revoke_terms :
    MutationContext → Subscription → CanonicalEvent → (already_revoked : Bool) → Tx (Unit {0})
unfolding apply_subscription_state actor_of audit_source flag_if
revoke_terms ctx sub event already_revoked = do
  moved ← apply_subscription_state sub.id (record {
    billing_state = BillingState.refunded;
    grace_expires_at = none;
    occurred_at = event.occurred_at;
  })
  write_audit (actor_of ctx) "billing.revoked" sub.license_id (
      audit_source ctx event
      ++ ("billingState", AuditValue.text "refunded") ∷ flag_if already_revoked "alreadyRevoked")

unfoldable pub revoke_from :
    MutationContext → Subscription → CanonicalEvent → LicenseStatus → Tx (Unit {0})
unfolding revoke_terms revoke_license actor_of
revoke_from ctx sub event LicenseStatus.revoked = revoke_terms ctx sub event true
revoke_from ctx sub event _ = do
  revoked ← revoke_license (actor_of ctx) sub.license_id
  revoke_terms ctx sub event false

unfoldable pub apply_revoke : MutationContext → Subscription → CanonicalEvent → Tx (Unit {0})
unfolding lock_license revoke_from
apply_revoke ctx sub event = do
  lic ← lock_license sub.license_id
  revoke_from ctx sub event lic.status
