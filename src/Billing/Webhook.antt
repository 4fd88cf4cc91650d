-- ===== src/Billing/Webhook.antt =====
-- src/server/modules/billing/webhook.ts: one delivery of an event. What the lookup of the connection,
-- the check of the signature and the adapter return is part of the delivery.
use Prim.Native.String.{String}
use license_srv.Prelude.{ℕ, ◌*◌, Bool, true, false, Option, none, some, if◌then◌else◌, find}
use license_srv.Store.{
  EventOutcome, Subscription, Db, Code, not_found, validation_error, duplicate_rollback, Failure,
  Result, ok, err, Tx, ◌>>=◌, ◌>>◌, pure, throw, refuse_if, query, with_tenant,
}
use license_srv.Billing.Events.{
  BillingAction, CanonicalEvent, map_event_to_action, action_of_type, is_stale_event,
}
use license_srv.Billing.Subscription.{
  resolve_subscription_by_external_id, get_subscription_by_id, RecordEventInput, Stamp,
  record_event, dead_letter,
}
use license_srv.Billing.Lifecycle.{apply_provision}
use license_srv.Billing.Customers.{
  MutationContext, ConnectionStatus, ResolvedConnection, BillingDeps, Draw, ProvisionResult,
}
use license_srv.Billing.Overlay.{cancel, past_due, apply_renew, apply_grace, apply_revoke}

pub data AckOutcome : Type 0 where
  applied duplicate deadletter : AckOutcome

-- The uuids of a delivery, and the time of the database.
pub record Ids : Type 0 where
  pub draw : Draw
  pub stamp : Stamp

unfoldable pub evt_row :
    CanonicalEvent → (subscription_id : Option ℕ) → EventOutcome → Option String → RecordEventInput
evt_row event subscription_id outcome reason = record {
  provider = event.provider;
  provider_event_id = event.provider_event_id;
  type = event.type;
  subscription_id = subscription_id;
  occurred_at = event.occurred_at;
  outcome = outcome;
  reason = reason;
  payload_summary = event.payload_summary;
}

unfoldable pub dead : Stamp → CanonicalEvent → Option ℕ → String → Tx AckOutcome
unfolding record_event evt_row
dead stamp event subscription_id reason = do
  dl ← dead_letter stamp (evt_row event subscription_id EventOutcome.deadletter (some reason))
  pure (if dl.duplicate then duplicate else deadletter)

unfoldable pub lock_resolved : Option Subscription → Tx (Option Subscription)
unfolding find
lock_resolved none = pure none
lock_resolved (some s) = query (get_subscription_by_id s.id)

unfoldable pub resolve_and_lock : ResolvedConnection → Option ℕ → Tx (Option Subscription)
unfolding lock_resolved resolve_subscription_by_external_id
resolve_and_lock conn none = pure none
resolve_and_lock conn (some external_id) = do
  resolved ← query (resolve_subscription_by_external_id conn.provider external_id)
  lock_resolved resolved

abbrev pub webhook_context : MutationContext
webhook_context = record { actor = none; source = none }

-- The action of an event that has been claimed.
unfoldable pub apply_action :
    BillingDeps
    → ResolvedConnection
    → Subscription
    → CanonicalEvent
    → (now : ℕ) → BillingAction
    → Tx (Unit {0})
unfolding apply_renew apply_revoke apply_grace
apply_action deps conn sub event now BillingAction.renew =
    apply_renew deps webhook_context sub event
apply_action deps conn sub event now BillingAction.revoke = apply_revoke webhook_context sub event
apply_action deps conn sub event now BillingAction.cancel =
    apply_grace deps webhook_context conn sub event cancel now
apply_action deps conn sub event now BillingAction.past_due =
    apply_grace deps webhook_context conn sub event past_due now
apply_action deps conn sub event now _ = pure tt

-- The claim comes before the side effect: a claim that finds the event on the ledger ends here.
unfoldable pub claim_then : Stamp → RecordEventInput → Tx (Unit {0}) → Tx AckOutcome
unfolding record_event
claim_then stamp input effect = do
  claim ← record_event stamp input
  elim claim.duplicate [ true ↦ pure duplicate | false ↦ do effect; pure applied ]

unfoldable pub reason_or_unmapped : Option String → String
reason_or_unmapped none = "unmapped_event"
reason_or_unmapped (some reason) = reason

unfoldable pub settle_provision :
    Stamp → CanonicalEvent → (applied duplicate : Bool) → ProvisionResult → Tx AckOutcome
unfolding dead record_event evt_row reason_or_unmapped
settle_provision stamp event is_applied true result = throw duplicate_rollback 500
settle_provision stamp event false false result =
    dead stamp event none (reason_or_unmapped result.reason)
settle_provision stamp event true false result = do
  claim ← record_event stamp (evt_row event result.subscription_id EventOutcome.applied none)
  refuse_if claim.duplicate duplicate_rollback 500
  pure applied

unfoldable pub on_provisioned : Stamp → CanonicalEvent → ProvisionResult → Tx AckOutcome
unfolding settle_provision
on_provisioned stamp event result =
    settle_provision stamp event result.applied result.duplicate result

unfoldable pub dispatch_provision :
    BillingDeps → Ids → ResolvedConnection → CanonicalEvent → Option Subscription → Tx AckOutcome
unfolding claim_then apply_provision on_provisioned evt_row
dispatch_provision deps ids conn event (some sub) =
    claim_then ids.stamp (evt_row event (some sub.id) EventOutcome.applied none)
      (do result ← apply_provision deps ids.draw conn event (some sub); pure tt)
dispatch_provision deps ids conn event none = do
  result ← apply_provision deps ids.draw conn event none
  on_provisioned ids.stamp event result

-- An event that is not stale, of a subscription that is linked.
unfoldable pub dispatch_fresh :
    BillingDeps
    → Ids
    → ResolvedConnection
    → CanonicalEvent
    → (now : ℕ) → Subscription
    → BillingAction
    → Tx AckOutcome
unfolding dead claim_then apply_action evt_row
dispatch_fresh deps ids conn event now sub BillingAction.ignore =
    dead ids.stamp event (some sub.id) "unmapped_event"
dispatch_fresh deps ids conn event now sub action =
    claim_then ids.stamp (evt_row event (some sub.id) EventOutcome.applied none)
      (apply_action deps conn sub event now action)

unfoldable pub dispatch_unless_stale :
    BillingDeps
    → Ids
    → ResolvedConnection
    → CanonicalEvent
    → (now : ℕ) → BillingAction
    → Subscription
    → (stale : Bool) → Tx AckOutcome
unfolding record_event evt_row dispatch_fresh
dispatch_unless_stale deps ids conn event now action sub true = do
  recorded ←
      record_event ids.stamp
        (evt_row event (some sub.id) EventOutcome.rejected (some "stale_event"))
  pure duplicate
dispatch_unless_stale deps ids conn event now action sub false =
    dispatch_fresh deps ids conn event now sub action

unfoldable pub dispatch_linked :
    BillingDeps
    → Ids
    → ResolvedConnection
    → CanonicalEvent
    → (now : ℕ) → BillingAction
    → Option Subscription
    → Tx AckOutcome
unfolding dead is_stale_event dispatch_unless_stale
dispatch_linked deps ids conn event now action none = dead ids.stamp event none "unmapped_event"
dispatch_linked deps ids conn event now action (some sub) =
    dispatch_unless_stale deps ids conn event now action sub
      (is_stale_event event.occurred_at sub.last_applied_event_at)

unfoldable pub dispatch_action :
    BillingDeps
    → Ids
    → ResolvedConnection
    → CanonicalEvent
    → (now : ℕ) → Option Subscription
    → BillingAction
    → Tx AckOutcome
unfolding dispatch_provision dispatch_linked
dispatch_action deps ids conn event now sub BillingAction.provision =
    dispatch_provision deps ids conn event sub
dispatch_action deps ids conn event now sub action =
    dispatch_linked deps ids conn event now action sub

unfoldable pub dispatch :
    BillingDeps → Ids → ResolvedConnection → CanonicalEvent → (now : ℕ) → Tx AckOutcome
unfolding resolve_and_lock dispatch_action action_of_type
dispatch deps ids conn event now = do
  sub ← resolve_and_lock conn event.external_subscription_id
  dispatch_action deps ids conn event now sub (map_event_to_action event)

-- What a delivery comes to before it is processed: the connection, the fault of its signature if
-- there is one, and the event in its body.
pub record Delivery : Type 0 where
  pub connection : Option ResolvedConnection
  pub signature_fault : Option Failure
  pub event : Option CanonicalEvent
  pub now_unix : ℕ

unfoldable pub process :
    BillingDeps → Ids → ResolvedConnection → (now_unix : ℕ) → Option CanonicalEvent → Tx AckOutcome
unfolding dead dispatch
process deps ids conn now_unix none = throw validation_error 400
process deps ids conn now_unix (some event) = elim conn.status [
  | ConnectionStatus.disabled ↦ dead ids.stamp event none "connection_disabled"
  | ConnectionStatus.active ↦ dispatch deps ids conn event (now_unix * 1000)
]

unfoldable pub verify_then : Option Failure → Tx AckOutcome → Tx AckOutcome
verify_then none body = body
verify_then (some fault) body = λ db. err fault

unfoldable pub handle_body :
    BillingDeps → Ids → Delivery → Option ResolvedConnection → Tx AckOutcome
unfolding verify_then process
handle_body deps ids delivery none = throw not_found 404
handle_body deps ids delivery (some conn) =
    verify_then delivery.signature_fault (process deps ids conn delivery.now_unix delivery.event)

unfoldable pub is_duplicate_rollback : Code → Bool
is_duplicate_rollback Code.duplicate_rollback = true
is_duplicate_rollback _ = false

-- The `catch` around the transaction.
unfoldable pub catch_rollback : Result AckOutcome × Db → Result AckOutcome × Db
unfolding is_duplicate_rollback
catch_rollback (ok outcome, db) = (ok outcome, db)
catch_rollback (err e, db) =
    if is_duplicate_rollback e.code then (ok duplicate, db) else (err e, db)

unfoldable pub handle_webhook : BillingDeps → Ids → Delivery → Db → Result AckOutcome × Db
unfolding with_tenant handle_body catch_rollback
handle_webhook deps ids delivery db =
    catch_rollback (with_tenant (handle_body deps ids delivery delivery.connection) db)
