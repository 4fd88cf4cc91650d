-- ===== src/Billing/Once.antt =====
-- At-least-once delivery, exactly-once effect: src/server/modules/billing/webhook.ts with
-- ledger-repo.ts, under `withTenant` of src/server/db/client.ts.
use license_srv.Prelude.{ℕ, ◌*◌, ◌≡◌, refl, sym, Bool, true, false, Option, none, some}
use license_srv.Store.{Db, Failure, Result, ok, err, commit, with_tenant}
use license_srv.Billing.Events.{CanonicalEvent}
use license_srv.Billing.Customers.{ConnectionStatus, ResolvedConnection, BillingDeps}
use license_srv.Billing.Webhook.{
  AckOutcome, duplicate, Ids, Delivery, process, verify_then, handle_body, is_duplicate_rollback,
  catch_rollback, handle_webhook,
}
use license_srv.Billing.Known.{IsRecorded, Refuses, dead_known, dispatch_known}

process_known :
    (deps : BillingDeps) (ids : Ids) (conn : ResolvedConnection) (status : ConnectionStatus)
    (now_unix : ℕ) (event : CanonicalEvent) (db : Db)
    → conn.status ≡ status
    → IsRecorded event db
    → Refuses db (process deps ids conn now_unix (some event) db)
unfolding process
process_known deps ids conn ConnectionStatus.disabled now_unix event db e known =
    rw (e, dead_known ids.stamp event db known none "connection_disabled" refl) (refl, refl)
process_known deps ids conn ConnectionStatus.active now_unix event db e known =
    rw e (dispatch_known deps ids conn event (now_unix * 1000) db known)

handle_body_known :
    (deps : BillingDeps) (ids : Ids) (delivery : Delivery) (conn : Option ResolvedConnection)
    (fault : Option Failure) (event : CanonicalEvent) (db : Db)
    → delivery.signature_fault ≡ fault
    → delivery.event ≡ some event
    → IsRecorded event db
    → Refuses db (handle_body deps ids delivery conn db)
unfolding handle_body verify_then
handle_body_known deps ids delivery none fault event db f e known = tt
handle_body_known deps ids delivery (some conn) none event db f e known =
    rw (f, e) (process_known deps ids conn conn.status delivery.now_unix event db refl known)
handle_body_known deps ids delivery (some conn) (some x) event db f e known = rw f tt

-- What is answered to a delivery that changed nothing.
abbrev pub IsNoop : Db → Result AckOutcome × Db → Type 0
IsNoop db (ok outcome, db') = (db' ≡ db) × (outcome ≡ duplicate)
IsNoop db (err e, db') = db' ≡ db

IsNoop-of_err :
    (db : Db) (e : Failure) (rolled_back : Bool)
    → rolled_back ≡ is_duplicate_rollback e.code
    → IsNoop db (catch_rollback (err e, db))
unfolding catch_rollback
IsNoop-of_err db e true h = rw (sym h) (refl, refl)
IsNoop-of_err db e false h = rw (sym h) refl

IsNoop-of :
    (db : Db) (r : Result (AckOutcome × Db))
    → Refuses db r
    → IsNoop db (catch_rollback (commit db r))
unfolding catch_rollback commit
IsNoop-of db (ok r) (e, same) = (same, e)
IsNoop-of db (err e) h = IsNoop-of_err db e (is_duplicate_rollback e.code) refl

-- A delivery of an event that is on the ledger, whatever its connection, signature, type and
-- subscription, leaves every table as it is, and is refused or acknowledged as a duplicate.
pub redelivery :
    (deps : BillingDeps) (ids : Ids) (delivery : Delivery) (event : CanonicalEvent) (db : Db)
    → delivery.event ≡ some event
    → IsRecorded event db
    → IsNoop db (handle_webhook deps ids delivery db)
unfolding handle_webhook with_tenant
redelivery deps ids delivery event db e known =
    IsNoop-of db (handle_body deps ids delivery delivery.connection db) (
      handle_body_known deps ids delivery delivery.connection delivery.signature_fault event db refl
        e known)
