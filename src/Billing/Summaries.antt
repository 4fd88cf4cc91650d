-- ===== src/Billing/Summaries.antt =====
-- What of a provider's event reaches the ledger: `buildPayloadSummary` of
-- src/server/modules/billing/events.ts through the dispatch of webhook.ts and ledger-repo.ts.
use Prim.Native.String.{String}
use license_srv.Prelude.{
  ℕ, ◌*◌, ◌≡◌, refl, Bool, true, false, Option, none, some, List, All, inl, inr, Bool-cases,
}
use license_srv.Store.{
  EventOutcome, Subscription, Db, Failure, Result, ok, err, Tx, pure, query, commit, with_tenant,
  Maintains, bind-Maintains, pure-Maintains, query-Maintains, throw-Maintains,
}
use license_srv.Billing.Events.{
  CanonicalEvent, BillingAction, FieldValue, payload_summary_keys, build_payload_summary,
  map_event_to_action,
}
use license_srv.Billing.Subscription.{record_event, resolve_subscription_by_external_id}
use license_srv.Billing.Lifecycle.{reprovision, apply_provision}
use license_srv.Billing.Customers.{
  ConnectionStatus, ResolvedConnection, BillingDeps, ProvisionResult,
}
use license_srv.Billing.Webhook.{
  AckOutcome, Ids, Delivery, evt_row, dead, lock_resolved, resolve_and_lock, apply_action,
  claim_then, on_provisioned, dispatch_provision, dispatch_fresh, dispatch_unless_stale,
  dispatch_linked, dispatch_action, dispatch, process, verify_then, handle_body,
  is_duplicate_rollback, catch_rollback, handle_webhook,
}
use license_srv.Billing.Ledger.{apply_provision-Provided}
use license_srv.Billing.Upheld.{apply_action-Maintains}
use license_srv.Billing.Windows.{IsListed, build_payload_summary-IsListed}
use license_srv.Billing.Recorded.{
  Minimal, Minimal-Upholds, reprovision-Maintains, record-Maintains, dead-Maintains,
  claim_then-Maintains, settle_provision-Maintains,
}

module _ (deps : BillingDeps) (ids : Ids) (conn : ResolvedConnection) (event : CanonicalEvent)
    (listed : All (IsListed payload_summary_keys) event.payload_summary) (now : ℕ) where
  dispatch_provision-Maintains :
      (sub : Option Subscription) → Maintains Minimal (dispatch_provision deps ids conn event sub)
  unfolding dispatch_provision on_provisioned apply_provision
  dispatch_provision-Maintains none =
      bind-Maintains Minimal (apply_provision deps ids.draw conn event none)
        (on_provisioned ids.stamp event)
        (λ db result mid p h.
          let same = (apply_provision-Provided deps ids.draw conn event db mid result h).0 in
          rw same p)
        (λ result.
          settle_provision-Maintains ids.stamp event listed result.applied result.duplicate result)
  dispatch_provision-Maintains (some sub) =
      claim_then-Maintains ids.stamp event listed (some sub.id) _ (
        bind-Maintains Minimal (reprovision event sub) (λ (r : ProvisionResult). pure tt)
          (reprovision-Maintains event sub) (λ r. pure-Maintains Minimal _))

  claim_action-Maintains :
      (sub : Subscription) (action : BillingAction)
      → Maintains Minimal (
          claim_then ids.stamp
            (evt_row event (some sub.id) EventOutcome.applied none)
            (apply_action deps conn sub event now action))
  claim_action-Maintains sub action = claim_then-Maintains ids.stamp event listed (some sub.id) _ (
      apply_action-Maintains Minimal sub (Minimal-Upholds sub.license_id) deps conn event now
        action)

  dispatch_fresh-Maintains :
      (sub : Subscription) (action : BillingAction)
      → Maintains Minimal (dispatch_fresh deps ids conn event now sub action)
  unfolding dispatch_fresh
  dispatch_fresh-Maintains sub BillingAction.ignore =
      dead-Maintains ids.stamp event listed (some sub.id) "unmapped_event"
  dispatch_fresh-Maintains sub BillingAction.provision =
      claim_action-Maintains sub BillingAction.provision
  dispatch_fresh-Maintains sub BillingAction.renew = claim_action-Maintains sub BillingAction.renew
  dispatch_fresh-Maintains sub BillingAction.past_due =
      claim_action-Maintains sub BillingAction.past_due
  dispatch_fresh-Maintains sub BillingAction.cancel =
      claim_action-Maintains sub BillingAction.cancel
  dispatch_fresh-Maintains sub BillingAction.revoke =
      claim_action-Maintains sub BillingAction.revoke

  dispatch_unless_stale-Maintains :
      (sub : Subscription) (action : BillingAction) (stale : Bool)
      → Maintains Minimal (dispatch_unless_stale deps ids conn event now action sub stale)
  unfolding dispatch_unless_stale evt_row
  dispatch_unless_stale-Maintains sub action true =
      bind-Maintains Minimal
        (record_event ids.stamp
          (evt_row event (some sub.id) EventOutcome.rejected (some "stale_event")))
        _
        (record-Maintains ids.stamp event listed (some sub.id) EventOutcome.rejected
          (some "stale_event"))
        (λ r. pure-Maintains Minimal _)
  dispatch_unless_stale-Maintains sub action false = dispatch_fresh-Maintains sub action

  dispatch_linked-Maintains :
      (sub : Option Subscription) (action : BillingAction)
      → Maintains Minimal (dispatch_linked deps ids conn event now action sub)
  unfolding dispatch_linked
  dispatch_linked-Maintains none action =
      dead-Maintains ids.stamp event listed none "unmapped_event"
  dispatch_linked-Maintains (some sub) action = dispatch_unless_stale-Maintains sub action _

  dispatch_action-Maintains :
      (sub : Option Subscription) (action : BillingAction)
      → Maintains Minimal (dispatch_action deps ids conn event now sub action)
  unfolding dispatch_action
  dispatch_action-Maintains sub BillingAction.provision = dispatch_provision-Maintains sub
  dispatch_action-Maintains sub BillingAction.renew =
      dispatch_linked-Maintains sub BillingAction.renew
  dispatch_action-Maintains sub BillingAction.past_due =
      dispatch_linked-Maintains sub BillingAction.past_due
  dispatch_action-Maintains sub BillingAction.cancel =
      dispatch_linked-Maintains sub BillingAction.cancel
  dispatch_action-Maintains sub BillingAction.revoke =
      dispatch_linked-Maintains sub BillingAction.revoke
  dispatch_action-Maintains sub BillingAction.ignore =
      dispatch_linked-Maintains sub BillingAction.ignore

  lock_resolved-Maintains : (found : Option Subscription) → Maintains Minimal (lock_resolved found)
  unfolding lock_resolved
  lock_resolved-Maintains none = pure-Maintains Minimal _
  lock_resolved-Maintains (some s) = query-Maintains Minimal _

  resolve_and_lock-Maintains :
      (external_id : Option ℕ) → Maintains Minimal (resolve_and_lock conn external_id)
  unfolding resolve_and_lock
  resolve_and_lock-Maintains none = pure-Maintains Minimal _
  resolve_and_lock-Maintains (some external_id) =
      bind-Maintains Minimal (query (resolve_subscription_by_external_id conn.provider external_id))
        lock_resolved (query-Maintains Minimal _) lock_resolved-Maintains

  dispatch-Maintains : Maintains Minimal (dispatch deps ids conn event now)
  unfolding dispatch
  dispatch-Maintains =
      bind-Maintains Minimal (resolve_and_lock conn event.external_subscription_id)
        (λ (sub : Option Subscription).
          dispatch_action deps ids conn event now sub (map_event_to_action event))
        (resolve_and_lock-Maintains event.external_subscription_id)
        (λ sub. dispatch_action-Maintains sub (map_event_to_action event))

by_status-Maintains :
    (deps : BillingDeps) (ids : Ids) (conn : ResolvedConnection) (now_unix : ℕ)
    (event : CanonicalEvent)
    → All (IsListed payload_summary_keys) event.payload_summary
    → (status : ConnectionStatus)
    → Maintains Minimal {A = AckOutcome} (elim status [
      | ConnectionStatus.disabled ↦ dead ids.stamp event none "connection_disabled"
      | ConnectionStatus.active ↦ dispatch deps ids conn event (now_unix * 1000)
    ])
by_status-Maintains deps ids conn now_unix event listed ConnectionStatus.disabled =
    dead-Maintains ids.stamp event listed none "connection_disabled"
by_status-Maintains deps ids conn now_unix event listed ConnectionStatus.active =
    dispatch-Maintains deps ids conn event listed (now_unix * 1000)

-- An event, if there is one, with a summary that is listed.
abbrev IsSummarized : Option CanonicalEvent → Type 0
IsSummarized none = Unit
IsSummarized (some event) = All (IsListed payload_summary_keys) event.payload_summary

process-Maintains :
    (deps : BillingDeps) (ids : Ids) (conn : ResolvedConnection) (now_unix : ℕ)
    (event : Option CanonicalEvent)
    → IsSummarized event
    → Maintains Minimal (process deps ids conn now_unix event)
unfolding process
process-Maintains deps ids conn now_unix none listed = throw-Maintains Minimal _ _
process-Maintains deps ids conn now_unix (some event) listed =
    by_status-Maintains deps ids conn now_unix event listed conn.status

verify_then-Maintains :
    (fault : Option Failure) (body : Tx AckOutcome)
    → Maintains Minimal body
    → Maintains Minimal (verify_then fault body)
unfolding verify_then
verify_then-Maintains none body m = m
verify_then-Maintains (some x) body m = λ db b db' p h. cc

handle_body-Maintains :
    (deps : BillingDeps) (ids : Ids) (delivery : Delivery) (conn : Option ResolvedConnection)
    → IsSummarized delivery.event
    → Maintains Minimal (handle_body deps ids delivery conn)
unfolding handle_body
handle_body-Maintains deps ids delivery none listed = throw-Maintains Minimal _ _
handle_body-Maintains deps ids delivery (some conn) listed =
    verify_then-Maintains delivery.signature_fault
      (process deps ids conn delivery.now_unix delivery.event)
      (process-Maintains deps ids conn delivery.now_unix delivery.event listed)

caught-Minimal :
    (db : Db) (r : Result (AckOutcome × Db))
    → Minimal db
    → ((a : AckOutcome) (db' : Db) → r ≡ ok (a, db') → Minimal db')
    → Minimal (catch_rollback (commit db r)).1
unfolding catch_rollback commit
caught-Minimal db (ok (a, db')) p m = m a db' refl
caught-Minimal db (err e) p m = elim (Bool-cases (is_duplicate_rollback e.code)) [
  | inl back ↦ rw back p
  | inr other ↦ rw other p
]

-- The ledger has no field of a provider's payload but those whose keys are listed: where that is so
-- before a delivery, it is so after it, whatever fields the adapter extracts for the event, if it
-- summarises them by `buildPayloadSummary`.
pub handle_webhook-Minimal :
    (deps : BillingDeps) (ids : Ids) (delivery : Delivery) (event : CanonicalEvent)
    (fields : List (String × FieldValue)) (db : Db)
    → delivery.event ≡ some event
    → event.payload_summary ≡ build_payload_summary fields
    → Minimal db
    → Minimal (handle_webhook deps ids delivery db).1
unfolding handle_webhook with_tenant
handle_webhook-Minimal deps ids delivery event fields db e summary p =
    let listed : All (IsListed payload_summary_keys) event.payload_summary =
      rw summary (build_payload_summary-IsListed fields) in
    let summarized : IsSummarized delivery.event = rw e listed in
    caught-Minimal db (handle_body deps ids delivery delivery.connection db) p (λ a db' h.
      handle_body-Maintains deps ids delivery delivery.connection summarized db a db' p h)
