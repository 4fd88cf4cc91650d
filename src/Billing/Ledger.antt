-- ===== src/Billing/Ledger.antt =====
-- A provision writes no row of the ledger, and a provision of an event that no plan or customer is
-- mapped to writes nothing: src/server/modules/billing/lifecycle.ts, with issuance/licenses.ts.
use license_srv.Prelude.{ℕ, ◌≡◌, refl, ap, ◌∙◌, false, Option, none, some}
use license_srv.Store.{Subscription, Db, ok, >>=-eq-ok, Keeps, seq-Keeps, pure-Keeps}
use license_srv.Issuance.Issue.{Claims, Signing, issue_license}
use license_srv.Billing.Events.{CanonicalEvent}
use license_srv.Billing.Lifecycle.{
  link_or_duplicate, provisioned, provision_customer, provision_signed, provision_mapped,
  mapped_plan, apply_provision,
}
use license_srv.Billing.Customers.{
  ResolvedConnection, BillingDeps, Draw, ProvisionResult, resolve_customer,
}
use license_srv.Billing.Writes.{
  ledger, audit-Keeps, issue_license-Keeps, link_or_duplicate-Keeps, resolve_customer-Keeps,
  resolve_customer-none,
}

-- What a provision that returned did: the ledger is as before, and where it neither applied nor lost
-- a race, so is everything.
abbrev pub Provided : Db → ProvisionResult → Db → Type 0
Provided db result mid =
    (mid.billing_events ≡ db.billing_events)
    × (result.applied ≡ false
        → result.duplicate ≡ false
        → (result.reason ≡ some "unmapped_event") × (mid ≡ db))

provisioned-Keeps :
    (event : CanonicalEvent) (license_id plan_id : ℕ) (s : Option Subscription)
    → Keeps ledger (provisioned event license_id plan_id s)
unfolding provisioned
provisioned-Keeps event license_id plan_id none = pure-Keeps ledger _
provisioned-Keeps event license_id plan_id (some s) =
    seq-Keeps ledger _ _ (audit-Keeps "billing-webhook" "billing.provisioned" license_id _)
      (pure-Keeps ledger _)

provisioned_settles :
    (event : CanonicalEvent) (license_id plan_id : ℕ) (s : Option Subscription) (db mid : Db)
    (result : ProvisionResult)
    → provisioned event license_id plan_id s db ≡ ok (result, mid)
    → result.applied ≡ false
    → result.duplicate ≡ false
    → ⊥
unfolding provisioned
provisioned_settles event license_id plan_id none db mid result h a d = cc
provisioned_settles event license_id plan_id (some s) db mid result h a d = cc

provision_customer-Provided :
    (deps : BillingDeps) (draw : Draw) (conn : ResolvedConnection) (event : CanonicalEvent)
    (external_id plan_id : ℕ) (customer_id : Option ℕ) (start db mid : Db)
    (result : ProvisionResult)
    → db.billing_events ≡ start.billing_events
    → (customer_id ≡ none → db ≡ start)
    → provision_customer deps draw conn event external_id plan_id customer_id db ≡ ok (result, mid)
    → Provided start result mid
unfolding provision_customer
provision_customer-Provided deps draw conn event ext plan none start db mid result same start_same
      h =
    (cc, λ a d. (cc, (let e : mid ≡ db = cc in e ∙ start_same refl)))
provision_customer-Provided deps draw conn event ext plan (some c) start db mid result same _ h =
    let (license, db1, issued, rest) =
      >>=-eq-ok (issue_license deps.issue "billing-webhook" draw.license _) _ db h in
    let (created, db2, linked, last) =
      >>=-eq-ok (link_or_duplicate draw.subscription_id _) _ db1 rest in
    (
      provisioned-Keeps event license.id plan created db2 result mid last
          ∙ link_or_duplicate-Keeps _ _ db1 created db2 linked
          ∙ issue_license-Keeps deps.issue _ draw.license _ db license db1 issued
          ∙ same,
      λ a d. absurd (provisioned_settles event license.id plan created db2 mid result last a d),
    )

provision_signed-Provided :
    (deps : BillingDeps) (draw : Draw) (conn : ResolvedConnection) (event : CanonicalEvent)
    (ext plan : ℕ) (signer : Option (Claims → Signing)) (db mid : Db) (result : ProvisionResult)
    → provision_signed deps draw conn event ext plan signer db ≡ ok (result, mid)
    → Provided db result mid
unfolding provision_signed
provision_signed-Provided deps draw conn event ext plan none db mid result h = cc
provision_signed-Provided deps draw conn event ext plan (some sign) db mid result h =
    let (c, db1, resolved, rest) =
      >>=-eq-ok (resolve_customer draw.customer_id conn.provider event.external_customer_id) _ db
        h in
    provision_customer-Provided deps draw conn event ext plan c db db1 mid result
      (resolve_customer-Keeps draw.customer_id conn.provider event.external_customer_id db c db1
        resolved)
      (λ e.
        resolve_customer-none draw.customer_id conn.provider event.external_customer_id db db1
          (resolved ∙ ap (λ o. ok (o, db1)) e))
      rest

provision_mapped-Provided :
    (deps : BillingDeps) (draw : Draw) (conn : ResolvedConnection) (event : CanonicalEvent)
    (external_id plan : Option ℕ) (db mid : Db) (result : ProvisionResult)
    → provision_mapped deps draw conn event external_id plan db ≡ ok (result, mid)
    → Provided db result mid
unfolding provision_mapped
provision_mapped-Provided deps draw conn event none plan db mid result h =
    (let e : mid ≡ db = cc in ap ledger e, λ a d. (cc, cc))
provision_mapped-Provided deps draw conn event (some ext) none db mid result h =
    (let e : mid ≡ db = cc in ap ledger e, λ a d. (cc, cc))
provision_mapped-Provided deps draw conn event (some ext) (some plan) db mid result h =
    provision_signed-Provided deps draw conn event ext plan deps.issue.signer db mid result h

-- What a provision without a subscription that returned did to the ledger and the other tables.
pub apply_provision-Provided :
    (deps : BillingDeps) (draw : Draw) (conn : ResolvedConnection) (event : CanonicalEvent)
    (db mid : Db) (result : ProvisionResult)
    → apply_provision deps draw conn event none db ≡ ok (result, mid)
    → Provided db result mid
unfolding apply_provision
apply_provision-Provided deps draw conn event db mid result h =
    provision_mapped-Provided deps draw conn event event.external_subscription_id
      (mapped_plan conn event.plan_key) db mid result h
