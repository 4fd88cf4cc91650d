-- ===== src/Billing/GraceWorker.antt =====
-- src/server/modules/billing/grace-worker.ts: the suspension of a license when the grace has passed.
use Prim.Native.String.{String}
use license_srv.Prelude.{
  ℕ, Bool, true, false, ◌&&◌, Option, none, some, List, [], ◌∷◌, map, leb, find, update_where,
  filter_by, sort_by,
}
use license_srv.Store.{
  License, LicenseStatus, BillingState, Subscription, Db, AuditValue, Tx, ◌>>=◌, ◌>>◌, pure, query,
  modify, write_audit, with_tenant,
}
use license_srv.Issuance.Lifecycle.{find_license, suspend_license}
use license_srv.Billing.Subscription.{has_id, with_subscriptions}

abbrev pub grace_worker_actor : String
grace_worker_actor = "billing-grace-worker"

unfoldable pub is_in_grace : BillingState → Bool
is_in_grace BillingState.past_due = true
is_in_grace BillingState.grace = true
is_in_grace _ = false

unfoldable pub has_elapsed : (now : ℕ) → Option ℕ → Bool
has_elapsed now none = false
has_elapsed now (some at) = leb at now

unfoldable pub is_elapsed : (now : ℕ) → Subscription → Bool
unfolding is_in_grace has_elapsed
is_elapsed now s = is_in_grace s.billing_state && has_elapsed now s.grace_expires_at

unfoldable pub time_of : Option ℕ → ℕ
time_of none = 0
time_of (some at) = at

unfoldable pub list_elapsed_subscriptions : (now : ℕ) → Db → List ℕ
unfolding is_elapsed time_of filter_by sort_by
list_elapsed_subscriptions now db =
    map (λ (s : Subscription). s.id)
      (sort_by
        (λ (a b : Subscription). leb (time_of a.grace_expires_at) (time_of b.grace_expires_at))
        (filter_by (is_elapsed now) db.subscriptions))

abbrev pub canceled_subscription : Subscription → Subscription
canceled_subscription s = record s {
  billing_state = BillingState.canceled;
  grace_expires_at = none;
}

unfoldable pub cancel_overlay : (id license_id : ℕ) → Tx (Unit {0})
unfolding update_where
cancel_overlay id license_id = do
  modify (λ db.
      with_subscriptions db (update_where (has_id id) canceled_subscription db.subscriptions))
  write_audit grace_worker_actor "billing.auto_suspended" license_id
      (("subscriptionId", AuditValue.id id) ∷ [])

unfoldable pub suspend_from : (id license_id : ℕ) → Option License → Tx (Unit {0})
unfolding cancel_overlay suspend_license
suspend_from id license_id none = pure tt
suspend_from id license_id (some lic) = elim lic.status [
  | LicenseStatus.revoked ↦ pure tt
  | LicenseStatus.active ↦ do
    suspended ← suspend_license grace_worker_actor license_id
    cancel_overlay id license_id
  | LicenseStatus.suspended ↦ cancel_overlay id license_id
]

unfoldable pub suspend_locked : Option Subscription → Tx (Unit {0})
unfolding suspend_from
suspend_locked none = pure tt
suspend_locked (some sub) = do
  lic ← query (find_license sub.license_id)
  suspend_from sub.id sub.license_id lic

unfoldable pub suspend_elapsed : (now id : ℕ) → Tx (Unit {0})
unfolding suspend_locked is_elapsed find
suspend_elapsed now id = do
  sub ← query (λ db. find (λ (s : Subscription). has_id id s && is_elapsed now s) db.subscriptions)
  suspend_locked sub

unfoldable pub suspend_each : (now : ℕ) → List ℕ → Db → Db
unfolding suspend_elapsed with_tenant
suspend_each now [] db = db
suspend_each now (id ∷ ids) db = suspend_each now ids (with_tenant (suspend_elapsed now id) db).1

-- One sweep of a tenant: a fault of one subscription is caught, and the next is taken.
unfoldable pub sweep_tenant : (now : ℕ) → Db → Db
unfolding suspend_each list_elapsed_subscriptions
sweep_tenant now db = suspend_each now (list_elapsed_subscriptions now db) db
