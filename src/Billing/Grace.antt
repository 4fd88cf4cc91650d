-- ===== src/Billing/Grace.antt =====
-- What the grace worker does to a subscription whose grace has passed: `suspendElapsed` of
-- src/server/modules/billing/grace-worker.ts with `suspendLicense` of issuance/lifecycle.ts.
use license_srv.Prelude.{
  ◌≢◌, ap, ◌∙◌, none, false, arith, ◌==◌, find-eq-some, find-update_where, find-update_apart,
  find-and, ℕ, ◌≡◌, refl, true, ◌&&◌, some, find, update_where, [], ◌∷◌,
}
use license_srv.Store.{
  AuditValue, License, LicenseStatus, BillingState, Subscription, Db, ok, with_tenant, commit,
  >>=-ok,
}
use license_srv.Lease.Acquire.{is_license}
use license_srv.Issuance.Lifecycle.{find_license, set_status, suspend_license}
use license_srv.Issuance.Machine.{suspend, outcome, verdict, run, run_refines}
use license_srv.Billing.Subscription.{has_id, get_subscription_by_id}
use license_srv.Billing.GraceWorker.{
  is_elapsed, canceled_subscription, cancel_overlay, suspend_from, suspend_locked, suspend_elapsed,
  grace_worker_actor,
}

-- The tables after the transaction, for a license that was active.
abbrev pub after_grace : Subscription → Db → Db
after_grace sub db = record db {
  licenses =
      update_where (is_license sub.license_id) (set_status LicenseStatus.suspended) db.licenses;
  subscriptions = update_where (has_id sub.id) canceled_subscription db.subscriptions;
  audit_log =
      record {
        actor = grace_worker_actor;
        action = "billing.auto_suspended";
        target = sub.license_id;
        after = ("subscriptionId", AuditValue.id sub.id) ∷ [];
      }
      ∷ record {
        actor = grace_worker_actor;
        action = "license.suspended";
        target = sub.license_id;
        after = [];
      }
      ∷ db.audit_log;
}

suspend_license_found :
    (sub : Subscription) (db : Db) (lic : License)
    → find_license sub.license_id db ≡ some lic
    → lic.status ≡ LicenseStatus.active
    → suspend_license grace_worker_actor sub.license_id db
      ≡ outcome grace_worker_actor sub.license_id db lic
          (verdict suspend LicenseStatus.active 0 true)
unfolding run verdict outcome
suspend_license_found sub db lic found active =
    rw active at (run_refines grace_worker_actor sub.license_id db lic found suspend)

pub suspend_elapsed_active :
    (now : ℕ) (db : Db) (sub : Subscription) (lic : License)
    → find (λ (s : Subscription). has_id sub.id s && is_elapsed now s) db.subscriptions ≡ some sub
    → find_license sub.license_id db ≡ some lic
    → lic.status ≡ LicenseStatus.active
    → with_tenant (suspend_elapsed now sub.id) db ≡ (ok tt, after_grace sub db)
unfolding suspend_elapsed suspend_locked suspend_from with_tenant commit cancel_overlay outcome
    verdict
suspend_elapsed_active now db sub lic elapsed found active =
    rw
      (
        elapsed,
        found,
        active,
        >>=-ok (suspend_license grace_worker_actor sub.license_id)
            (λ (l : License). cancel_overlay sub.id sub.license_id) db
            (suspend_license_found sub db lic found active),
      )
      refl

-- The tables after the transaction, for a license that was suspended.
abbrev pub after_overlay : Subscription → Db → Db
after_overlay sub db = record db {
  subscriptions = update_where (has_id sub.id) canceled_subscription db.subscriptions;
  audit_log =
      record {
        actor = grace_worker_actor;
        action = "billing.auto_suspended";
        target = sub.license_id;
        after = ("subscriptionId", AuditValue.id sub.id) ∷ [];
      }
      ∷ db.audit_log;
}

pub suspend_elapsed_suspended :
    (now : ℕ) (db : Db) (sub : Subscription) (lic : License)
    → find (λ (s : Subscription). has_id sub.id s && is_elapsed now s) db.subscriptions ≡ some sub
    → find_license sub.license_id db ≡ some lic
    → lic.status ≡ LicenseStatus.suspended
    → with_tenant (suspend_elapsed now sub.id) db ≡ (ok tt, after_overlay sub db)
unfolding suspend_elapsed suspend_locked suspend_from with_tenant commit cancel_overlay
suspend_elapsed_suspended now db sub lic elapsed found held = rw (elapsed, found, held) refl

-- What the worker leaves of a subscription and its license: the overlay is canceled with no end of
-- grace, and all else of it as it was; the license is suspended, and all else of it as it was; what
-- is stored under another id is the same.
pub record Ends (sub : Subscription) (lic : License) (other c : ℕ) (db db' : Db) : Type 0 where
  pub overlay :
      get_subscription_by_id sub.id db'
      ≡ some (record sub { billing_state = BillingState.canceled; grace_expires_at = none })
  pub license :
      find_license sub.license_id db' ≡ some (record lic { status = LicenseStatus.suspended })
  pub other_overlay : get_subscription_by_id other db' ≡ get_subscription_by_id other db
  pub other_license : find_license c db' ≡ find_license c db

module _ (sub : Subscription) (lic : License) (other c : ℕ) (db : Db)
    (stored : get_subscription_by_id sub.id db ≡ some sub)
    (found : find_license sub.license_id db ≡ some lic) (apart : (other == sub.id) ≡ false)
    (apart_license : (c == sub.license_id) ≡ false) where
  overlay_ends :
      find (has_id sub.id) (update_where (has_id sub.id) canceled_subscription db.subscriptions)
      ≡ some (record sub { billing_state = BillingState.canceled; grace_expires_at = none })
  overlay_ends =
      let own = find-eq-some (has_id sub.id) db.subscriptions stored in
      rw own at (
        find-update_where (has_id sub.id) (has_id sub.id) canceled_subscription db.subscriptions
          (λ y. refl) stored)

  overlay_apart :
      find (has_id other) (update_where (has_id sub.id) canceled_subscription db.subscriptions)
      ≡ get_subscription_by_id other db
  overlay_apart =
      find-update_apart (has_id other) (has_id sub.id) canceled_subscription db.subscriptions
        (λ y e. (ground arith, ground arith))

  after_grace-Ends : Ends sub lic other c db (after_grace sub db)
  after_grace-Ends =
      let set = set_status LicenseStatus.suspended in
      let own = find-eq-some (is_license sub.license_id) db.licenses found in
      record {
        overlay = overlay_ends;
        license = rw own at (
            find-update_where (is_license sub.license_id) (is_license sub.license_id) set
              db.licenses (λ y. refl) found);
        other_overlay = overlay_apart;
        other_license =
            find-update_apart (is_license c) (is_license sub.license_id) set db.licenses
              (λ y e. (ground arith, ground arith));
      }

  after_overlay-Ends :
      lic.status ≡ LicenseStatus.suspended → Ends sub lic other c db (after_overlay sub db)
  after_overlay-Ends held = record {
    overlay = overlay_ends;
    license = found ∙ ap (λ s. some (record lic { status = s })) held;
    other_overlay = overlay_apart;
    other_license = refl;
  }

  by_status :
      (now : ℕ) (s : LicenseStatus)
      → lic.status ≡ s
      → lic.status ≢ LicenseStatus.revoked
      → find (λ (x : Subscription). has_id sub.id x && is_elapsed now x) db.subscriptions ≡ some sub
      → (db' : Db) × (with_tenant (suspend_elapsed now sub.id) db ≡ (ok tt, db'))
        × Ends sub lic other c db db'
  by_status now LicenseStatus.active e live elapsed =
      (_, suspend_elapsed_active now db sub lic elapsed found e, after_grace-Ends)
  by_status now LicenseStatus.suspended e live elapsed =
      (_, suspend_elapsed_suspended now db sub lic elapsed found e, after_overlay-Ends e)
  by_status now LicenseStatus.revoked e live elapsed = absurd (live e)

  -- A subscription whose grace has passed, and whose license is not revoked: the worker commits, the
  -- license ends suspended and the overlay canceled without an end of grace, whatever status the
  -- license had, and no other subscription and no other license changes.
  pub suspend_elapsed-Ends :
      (now : ℕ)
      → is_elapsed now sub ≡ true
      → lic.status ≢ LicenseStatus.revoked
      → (db' : Db) × (with_tenant (suspend_elapsed now sub.id) db ≡ (ok tt, db'))
        × Ends sub lic other c db db'
  suspend_elapsed-Ends now late live =
      by_status now lic.status refl live
        (find-and (has_id sub.id) (is_elapsed now) db.subscriptions stored late)
