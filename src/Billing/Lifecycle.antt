-- ===== src/Billing/Lifecycle.antt =====
-- src/server/modules/billing/lifecycle.ts: the provision of a license for a subscription, in the
-- transaction of the webhook. `deps.effective` is a parameter, as in the source.
use Prim.Native.String.{String}
use text.Mathlib.Text.{◌==◌ as str_eq}
use license_srv.Prelude.{
  ℕ, ◌*◌, Bool, true, false, Option, none, some, List, [], ◌∷◌, if◌then◌else◌,
}
use license_srv.Store.{
  License, LicenseStatus, BillingState, Subscription, Db, AuditValue, Code, license_not_found,
  signer_unavailable, Result, ok, err, Tx, ◌>>=◌, ◌>>◌, pure, throw, query, write_audit,
}
use license_srv.Issuance.Lifecycle.{find_license}
use license_srv.Issuance.Issue.{Claims, Signing, issue_license}
use license_srv.Billing.Events.{CanonicalEvent}
use license_srv.Billing.Subscription.{link_subscription, LinkSubscriptionInput}
use license_srv.Billing.Customers.{
  webhook_actor, ResolvedConnection, BillingDeps, Draw, ProvisionResult, resolve_customer,
}

unfoldable pub is_revoked : LicenseStatus → Bool
is_revoked LicenseStatus.revoked = true
is_revoked _ = false

unfoldable pub found_revoked : Option License → Bool
unfolding is_revoked
found_revoked none = false
found_revoked (some lic) = is_revoked lic.status

unfoldable pub flag_if : Bool → String → List (String × AuditValue)
flag_if true key = (key, AuditValue.flag true) ∷ []
flag_if false key = []

abbrev pub reused : Subscription → ProvisionResult
reused sub = record {
  applied = true;
  subscription_id = some sub.id;
  license_id = some sub.license_id;
  reason = none;
  duplicate = false;
}

unfoldable pub reprovision : CanonicalEvent → Subscription → Tx ProvisionResult
unfolding found_revoked flag_if
reprovision event sub = do
  lic ← query (find_license sub.license_id)
  write_audit webhook_actor "billing.provisioned" sub.license_id (
      ("providerEventId", AuditValue.id event.provider_event_id)
      ∷ ("subscriptionId", AuditValue.id sub.id)
      ∷ ("reused", AuditValue.flag true)
      ∷ flag_if (found_revoked lic) "revoked")
  pure (reused sub)

abbrev pub unmapped : ProvisionResult
unmapped = record {
  applied = false;
  subscription_id = none;
  license_id = none;
  reason = some "unmapped_event";
  duplicate = false;
}

abbrev pub lost_race : ProvisionResult
lost_race = record {
  applied = false;
  subscription_id = none;
  license_id = none;
  reason = none;
  duplicate = true;
}

unfoldable pub is_duplicate : Code → Bool
is_duplicate Code.duplicate_subscription = true
is_duplicate _ = false

-- The `catch` around `linkSubscription`.
unfoldable pub catch_duplicate : Db → Result (Subscription × Db) → Result (Option Subscription × Db)
unfolding is_duplicate
catch_duplicate db (ok r) = ok (some r.0, r.1)
catch_duplicate db (err e) = if is_duplicate e.code then ok (none, db) else err e

unfoldable pub link_or_duplicate : ℕ → LinkSubscriptionInput → Tx (Option Subscription)
unfolding catch_duplicate link_subscription
link_or_duplicate id input db = catch_duplicate db (link_subscription id input db)

unfoldable pub provisioned :
    CanonicalEvent → (license_id plan_id : ℕ) → Option Subscription → Tx ProvisionResult
provisioned event license_id plan_id none = pure lost_race
provisioned event license_id plan_id (some created) = do
  write_audit webhook_actor "billing.provisioned" license_id (
      ("providerEventId", AuditValue.id event.provider_event_id)
      ∷ ("subscriptionId", AuditValue.id created.id)
      ∷ ("planId", AuditValue.id plan_id)
      ∷ [])
  pure (record {
    applied = true;
    subscription_id = some created.id;
    license_id = some license_id;
    reason = none;
    duplicate = false;
  })

unfoldable pub to_millis : Option ℕ → Option ℕ
to_millis none = none
to_millis (some at) = some (at * 1000)

unfoldable pub provision_customer :
    BillingDeps
    → Draw
    → ResolvedConnection
    → CanonicalEvent
    → (external_id plan_id : ℕ) → Option ℕ
    → Tx ProvisionResult
unfolding issue_license to_millis link_or_duplicate provisioned
provision_customer deps draw conn event external_id plan_id none = pure unmapped
provision_customer deps draw conn event external_id plan_id (some customer_id) = do
  license ← issue_license deps.issue webhook_actor draw.license (record {
    plan_id = plan_id;
    customer_id = customer_id;
    expires_at = to_millis event.period_end;
  })
  created ← link_or_duplicate draw.subscription_id (record {
    provider = conn.provider;
    external_subscription_id = external_id;
    license_id = license.id;
    billing_state = BillingState.active;
    grace_expires_at = none;
    occurred_at = some event.occurred_at;
  })
  provisioned event license.id plan_id created

unfoldable pub plan_in : List (String × ℕ) → String → Option ℕ
plan_in [] key = none
plan_in (p ∷ ps) key = let rest = plan_in ps key in if str_eq p.0 key then some p.1 else rest

unfoldable pub mapped_plan : ResolvedConnection → Option String → Option ℕ
unfolding plan_in
mapped_plan conn none = none
mapped_plan conn (some key) = if str_eq key "" then none else plan_in conn.plan_map key

unfoldable pub provision_signed :
    BillingDeps
    → Draw
    → ResolvedConnection
    → CanonicalEvent
    → (external_id plan_id : ℕ) → Option (Claims → Signing)
    → Tx ProvisionResult
unfolding resolve_customer provision_customer
provision_signed deps draw conn event external_id plan_id none = throw signer_unavailable 503
provision_signed deps draw conn event external_id plan_id (some sign) = do
  customer_id ← resolve_customer draw.customer_id conn.provider event.external_customer_id
  provision_customer deps draw conn event external_id plan_id customer_id

unfoldable pub provision_mapped :
    BillingDeps
    → Draw
    → ResolvedConnection
    → CanonicalEvent
    → Option ℕ
    → Option ℕ
    → Tx ProvisionResult
unfolding provision_signed
provision_mapped deps draw conn event none plan = pure unmapped
provision_mapped deps draw conn event (some external_id) none = pure unmapped
provision_mapped deps draw conn event (some external_id) (some plan_id) =
    provision_signed deps draw conn event external_id plan_id deps.issue.signer

unfoldable pub apply_provision :
    BillingDeps
    → Draw
    → ResolvedConnection
    → CanonicalEvent
    → Option Subscription
    → Tx ProvisionResult
unfolding reprovision mapped_plan provision_mapped
apply_provision deps draw conn event (some sub) = reprovision event sub
apply_provision deps draw conn event none =
    provision_mapped deps draw conn event event.external_subscription_id
      (mapped_plan conn event.plan_key)

unfoldable pub lock_found : Option License → Tx License
lock_found none = throw license_not_found 404
lock_found (some lic) = pure lic

unfoldable pub lock_license : ℕ → Tx License
unfolding lock_found
lock_license id = do lic ← query (find_license id); lock_found lic
