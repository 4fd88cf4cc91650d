-- ===== src/Billing/Known.antt =====
-- An event that is on the ledger, in the dispatch of src/server/modules/billing/webhook.ts.
use Prim.Native.String.{String}
use text.Mathlib.Text.{◌==◌ as str_eq}
use license_srv.Prelude.{ℕ, ◌≡◌, refl, Bool, true, false, Option, none, some, arith, any_by}
use license_srv.Store.{
  EventOutcome, Subscription, Db, duplicate_rollback, Result, ok, err, Tx, ◌>>=◌, ◌>>◌, pure,
  refuse_if, >>=-ok,
}
use license_srv.Billing.Events.{CanonicalEvent, BillingAction, is_stale_event, map_event_to_action}
use license_srv.Billing.Subscription.{
  is_event, is_misshapen, is_blank, is_given, Stamp, RecordEventResult, insert_event, record_event,
  get_subscription_by_id, resolve_subscription_by_external_id,
}
use license_srv.Billing.Lifecycle.{apply_provision}
use license_srv.Billing.Customers.{ResolvedConnection, BillingDeps, ProvisionResult}
use license_srv.Billing.Ledger.{apply_provision-Provided}
use license_srv.Billing.Webhook.{
  AckOutcome, applied, duplicate, Ids, evt_row, dead, lock_resolved, resolve_and_lock, apply_action,
  claim_then, reason_or_unmapped, settle_provision, on_provisioned, dispatch_provision,
  dispatch_fresh, dispatch_unless_stale, dispatch_linked, dispatch_action, dispatch,
}

-- The event is on the ledger.
abbrev pub IsRecorded : CanonicalEvent → Db → Type 0
IsRecorded event db =
    any_by (is_event event.provider event.provider_event_id) db.billing_events ≡ true

-- A transaction that throws, or that answers `duplicate` and has changed nothing.
abbrev pub Refuses : Db → Result (AckOutcome × Db) → Type 0
Refuses db (ok r) = (r.0 ≡ duplicate) × (r.1 ≡ db)
Refuses db (err e) = Unit

Refuses-result :
    {A : Type 0} (r : Result (A × Db)) (f : A → Tx AckOutcome) (start : Db)
    → ((a : A) (mid : Db) → r ≡ ok (a, mid) → Refuses start (f a mid))
    → Refuses start (elim r [ ok p ↦ f p.0 p.1 | err e ↦ err e ])
Refuses-result (ok p) f start h = h p.0 p.1 refl
Refuses-result (err e) f start h = tt

Refuses-bind :
    {A : Type 0} (m : Tx A) (f : A → Tx AckOutcome) (start db : Db)
    → ((a : A) (mid : Db) → m db ≡ ok (a, mid) → Refuses start (f a mid))
    → Refuses start ((m >>= f) db)
Refuses-bind m f start db h = Refuses-result (m db) f start h

module _ (stamp : Stamp) (event : CanonicalEvent) (db : Db) (known : IsRecorded event db) where
  record_event_known :
      (sub : Option ℕ) (outcome : EventOutcome) (reason : Option String)
      → is_misshapen outcome reason ≡ false
      → record_event stamp (evt_row event sub outcome reason) db
        ≡ ok (record { id = none; duplicate = true }, db)
  unfolding record_event evt_row insert_event
  record_event_known sub outcome reason shape = ground arith

  pub dead_known :
      (sub : Option ℕ) (reason : String)
      → str_eq reason "" ≡ false
      → dead stamp event sub reason db ≡ ok (duplicate, db)
  unfolding dead is_misshapen is_blank evt_row
  dead_known sub reason h =
      >>=-ok (record_event stamp (evt_row event sub EventOutcome.deadletter (some reason))) _ db
        (record_event_known sub EventOutcome.deadletter (some reason) h)

  claim_then_known :
      (sub : Option ℕ) (effect : Tx (Unit {0}))
      → claim_then stamp (evt_row event sub EventOutcome.applied none) effect db
        ≡ ok (duplicate, db)
  unfolding claim_then is_misshapen is_given
  claim_then_known sub effect =
      >>=-ok (record_event stamp (evt_row event sub EventOutcome.applied none)) _ db
        (record_event_known sub EventOutcome.applied none refl)

  settle_provision_known :
      (start : Db) (is_applied is_duplicate : Bool) (result : ProvisionResult)
      → (is_applied ≡ false
          → is_duplicate ≡ false
          → (result.reason ≡ some "unmapped_event") × (db ≡ start))
      → Refuses start (settle_provision stamp event is_applied is_duplicate result db)
  unfolding settle_provision reason_or_unmapped is_misshapen is_given
  settle_provision_known start is_applied true result h = tt
  settle_provision_known start false false result h =
      let (r, same) = h refl refl in rw (r, dead_known none "unmapped_event" refl) (refl, same)
  settle_provision_known start true false result h =
      rw
        (>>=-ok
          (record_event stamp (evt_row event result.subscription_id EventOutcome.applied none))
          (λ (claim : RecordEventResult).
            refuse_if claim.duplicate duplicate_rollback 500 >> pure applied)
          db (record_event_known result.subscription_id EventOutcome.applied none refl))
        tt

module _ (deps : BillingDeps) (ids : Ids) (conn : ResolvedConnection) (event : CanonicalEvent)
    (now : ℕ) (db : Db) (known : IsRecorded event db) where
  dispatch_provision_known :
      (sub : Option Subscription) → Refuses db (dispatch_provision deps ids conn event sub db)
  unfolding dispatch_provision on_provisioned
  dispatch_provision_known none =
      Refuses-bind (apply_provision deps ids.draw conn event none) (on_provisioned ids.stamp event)
        db db
        (λ result mid h.
          let (same, settled) = apply_provision-Provided deps ids.draw conn event db mid result h in
          settle_provision_known ids.stamp event mid (rw same known) db result.applied
            result.duplicate result settled)
  dispatch_provision_known (some sub) =
      rw
        (claim_then_known ids.stamp event db known (some sub.id) (
          apply_provision deps ids.draw conn event (some sub)
          >>= (λ (r : ProvisionResult). pure tt)))
        (refl, refl)

  dispatch_fresh_known :
      (sub : Subscription) (action : BillingAction)
      → dispatch_fresh deps ids conn event now sub action db ≡ ok (duplicate, db)
  unfolding dispatch_fresh
  dispatch_fresh_known sub BillingAction.ignore =
      dead_known ids.stamp event db known (some sub.id) "unmapped_event" refl
  dispatch_fresh_known sub BillingAction.provision =
      claim_then_known ids.stamp event db known (some sub.id)
        (apply_action deps conn sub event now BillingAction.provision)
  dispatch_fresh_known sub BillingAction.renew =
      claim_then_known ids.stamp event db known (some sub.id)
        (apply_action deps conn sub event now BillingAction.renew)
  dispatch_fresh_known sub BillingAction.past_due =
      claim_then_known ids.stamp event db known (some sub.id)
        (apply_action deps conn sub event now BillingAction.past_due)
  dispatch_fresh_known sub BillingAction.cancel =
      claim_then_known ids.stamp event db known (some sub.id)
        (apply_action deps conn sub event now BillingAction.cancel)
  dispatch_fresh_known sub BillingAction.revoke =
      claim_then_known ids.stamp event db known (some sub.id)
        (apply_action deps conn sub event now BillingAction.revoke)

  dispatch_unless_stale_known :
      (sub : Subscription) (action : BillingAction) (stale : Bool)
      → dispatch_unless_stale deps ids conn event now action sub stale db ≡ ok (duplicate, db)
  unfolding dispatch_unless_stale is_misshapen is_blank
  dispatch_unless_stale_known sub action true =
      >>=-ok
        (record_event ids.stamp
          (evt_row event (some sub.id) EventOutcome.rejected (some "stale_event")))
        (λ (r : RecordEventResult). pure duplicate) db
        (record_event_known ids.stamp event db known (some sub.id) EventOutcome.rejected
          (some "stale_event") refl)
  dispatch_unless_stale_known sub action false = dispatch_fresh_known sub action

  dispatch_linked_known :
      (sub : Option Subscription) (action : BillingAction)
      → Refuses db (dispatch_linked deps ids conn event now action sub db)
  unfolding dispatch_linked
  dispatch_linked_known none action =
      rw (dead_known ids.stamp event db known none "unmapped_event" refl) (refl, refl)
  dispatch_linked_known (some sub) action =
      rw
        (dispatch_unless_stale_known sub action
          (is_stale_event event.occurred_at sub.last_applied_event_at))
        (refl, refl)

  dispatch_action_known :
      (sub : Option Subscription) (action : BillingAction)
      → Refuses db (dispatch_action deps ids conn event now sub action db)
  unfolding dispatch_action
  dispatch_action_known sub BillingAction.provision = dispatch_provision_known sub
  dispatch_action_known sub BillingAction.renew = dispatch_linked_known sub BillingAction.renew
  dispatch_action_known sub BillingAction.past_due =
      dispatch_linked_known sub BillingAction.past_due
  dispatch_action_known sub BillingAction.cancel = dispatch_linked_known sub BillingAction.cancel
  dispatch_action_known sub BillingAction.revoke = dispatch_linked_known sub BillingAction.revoke
  dispatch_action_known sub BillingAction.ignore = dispatch_linked_known sub BillingAction.ignore

  lock_reads :
      (found : Option Subscription)
      → (sub : Option Subscription) × (lock_resolved found db ≡ ok (sub, db))
  unfolding lock_resolved
  lock_reads none = (none, refl)
  lock_reads (some s) = (get_subscription_by_id s.id db, refl)

  resolve_reads :
      (external_id : Option ℕ)
      → (sub : Option Subscription) × (resolve_and_lock conn external_id db ≡ ok (sub, db))
  unfolding resolve_and_lock
  resolve_reads none = (none, refl)
  resolve_reads (some external_id) =
      lock_reads (resolve_subscription_by_external_id conn.provider external_id db)

  pub dispatch_known : Refuses db (dispatch deps ids conn event now db)
  unfolding dispatch
  dispatch_known =
      let (sub, e) = resolve_reads event.external_subscription_id in
      rw
        (>>=-ok (resolve_and_lock conn event.external_subscription_id)
          (λ (sub : Option Subscription).
            dispatch_action deps ids conn event now sub (map_event_to_action event))
          db e)
        (dispatch_action_known sub (map_event_to_action event))
