-- ===== src/Examples/Issues.antt =====
-- An issue for the small tenant, and a renewal that ends a grace.
use license_srv.Prelude.{true, ◌≡◌, refl, some, [], ◌∷◌, find, filter_by, sort_by, insert_by}
use license_srv.Store.{
  with_tenant, Subscription, BillingState, License, Db, Result, LicenseStatus, stripe,
}
use license_srv.Catalog.Effective.{
  EffectivePlanDefinition, get_effective_plan_definition, define_found, define, attachments_of,
  join_entitlement, is_in_force, is_archived, effective_of, value_of,
}
use license_srv.Issuance.Lifecycle.{find_license, lock_found, lock_license as lock_status}
use license_srv.Issuance.Issue.{
  IssueInput, issue_license, issue_found, is_withdrawn, is_any, check_customer, is_erased,
  sign_and_insert, decide, put_all, put, build_claims, to_unix, to_column, do_insert, new_license,
}
use license_srv.Issuance.Issued.{Issuable, Stored, issue_license_ok}
use license_srv.Billing.Events.{BillingAction}
use license_srv.Billing.Subscription.{get_subscription_by_id}
use license_srv.Billing.Lifecycle.{lock_license, lock_found as lock_license_row}
use license_srv.Billing.GraceWorker.{is_in_grace, has_elapsed, is_elapsed, suspend_elapsed}
use license_srv.Billing.Webhook.{apply_action}
use license_srv.Billing.Grace.{Ends, suspend_elapsed-Ends}
use license_srv.Examples.Billing.{billed, billing_deps, ids_1, event_9, conn_1}
use license_srv.Examples.Data.{shop, license_of, IsOk, value, value_eq}

abbrev input_1 : IssueInput
input_1 = record { plan_id = 1; customer_id = 1; expires_at = some 5000000 }

abbrev issued_1 : Result (License × Db)
issued_1 = issue_license billing_deps.issue "operator" ids_1.draw.license input_1 billed

issued_1_IsOk : IsOk issued_1
unfolding issue_license issue_found is_withdrawn is_any check_customer is_erased sign_and_insert
    decide put_all put build_claims to_unix to_column do_insert new_license
    get_effective_plan_definition define_found define attachments_of join_entitlement is_in_force
    is_archived effective_of value_of find filter_by sort_by insert_by
issued_1_IsOk = tt

issue_license_ok_example :
    (eff : EffectivePlanDefinition) × (get_effective_plan_definition billing_deps.issue.before 1
        billed
      ≡ some eff)
    × Issuable eff input_1 billed
    × Stored eff input_1 billed (value issued_1 issued_1_IsOk).0 (value issued_1 issued_1_IsOk).1
issue_license_ok_example =
    issue_license_ok billing_deps.issue "operator" ids_1.draw.license input_1 billed
      (value issued_1 issued_1_IsOk).1 (value issued_1 issued_1_IsOk).0
      (value_eq issued_1 issued_1_IsOk)

abbrev sub_4 : Subscription
sub_4 = record {
  id = 4;
  provider = stripe;
  external_subscription_id = 30;
  license_id = 1;
  billing_state = BillingState.past_due;
  grace_expires_at = some 500;
  last_applied_event_at = some 10;
}

abbrev paid : Db
paid = record shop {
  licenses = license_of 1 LicenseStatus.suspended ∷ [];
  subscriptions = sub_4 ∷ [];
}

abbrev renewed_4 : Result (Unit {0} × Db)
renewed_4 = apply_action billing_deps conn_1 sub_4 event_9 30000 BillingAction.renew paid

abbrev lapsed : Db
lapsed = record paid { licenses = license_of 1 LicenseStatus.active ∷ [] }

sub_4_found : get_subscription_by_id 4 lapsed ≡ some sub_4
unfolding find
sub_4_found = refl

sub_4_IsElapsed : is_elapsed 30000 sub_4 ≡ true
unfolding is_elapsed is_in_grace has_elapsed
sub_4_IsElapsed = refl

license_1_found : find_license 1 lapsed ≡ some (license_of 1 LicenseStatus.active)
unfolding find
license_1_found = refl

suspend_elapsed-Ends_example :
    (db' : Db) × (with_tenant (suspend_elapsed 30000 4) lapsed ≡ (Result.ok tt, db'))
    × Ends sub_4 (license_of 1 LicenseStatus.active) 3 2 lapsed db'
suspend_elapsed-Ends_example =
    suspend_elapsed-Ends sub_4 (license_of 1 LicenseStatus.active) 3 2 lapsed sub_4_found
      license_1_found refl refl 30000 sub_4_IsElapsed (λ h. cc)
