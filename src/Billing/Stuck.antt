-- ===== src/Billing/Stuck.antt =====
-- An elapsed subscription whose license is revoked, in the sweeps of
-- src/server/modules/billing/grace-worker.ts.
use license_srv.Prelude.{
  ℕ, ◌≡◌, refl, sym, ap, ◌∙◌, inl, inr, Bool, true, false, ◌&&◌, Option, none, some, List, [], ◌∷◌,
  arith, ◌==◌, find, Bool-cases, find-eq-some, find-update_apart, update_where,
}
use mathlib.Core.Path.{subst}
use license_srv.Store.{License, LicenseStatus, Subscription, Db, ok, with_tenant, commit}
use license_srv.Lease.Acquire.{is_license}
use license_srv.Issuance.Lifecycle.{find_license, set_status}
use license_srv.Billing.Subscription.{has_id}
use license_srv.Billing.GraceWorker.{
  is_elapsed, canceled_subscription, suspend_from, suspend_locked, suspend_elapsed, suspend_each,
  sweep_tenant, list_elapsed_subscriptions,
}
use license_srv.Billing.Grace.{after_grace, suspend_elapsed_active, suspend_elapsed_suspended}

-- The row of an id that is elapsed.
abbrev pub elapsed_row : (now id : ℕ) → Db → Option Subscription
elapsed_row now id db =
    find (λ (s : Subscription). has_id id s && is_elapsed now s) db.subscriptions

module _ (now : ℕ) (sub : Subscription) (lic : License)
    (revoked : lic.status ≡ LicenseStatus.revoked) where
  abbrev pub IsStuck : Db → Type 0
  IsStuck db = (elapsed_row now sub.id db ≡ some sub) × (find_license sub.license_id db ≡ some lic)

  own_step : (db : Db) → IsStuck db → with_tenant (suspend_elapsed now sub.id) db ≡ (ok tt, db)
  unfolding suspend_elapsed suspend_locked suspend_from with_tenant commit
  own_step db (late, found) = rw (late, found, revoked)

  canceled_apart :
      (id : ℕ) (db : Db)
      → (id == sub.id) ≡ false
      → elapsed_row now sub.id db ≡ some sub
      → find
          (λ (s : Subscription). has_id sub.id s && is_elapsed now s)
          (update_where (has_id id) canceled_subscription db.subscriptions)
        ≡ some sub
  canceled_apart id db apart late =
      find-update_apart (λ (s : Subscription). has_id sub.id s && is_elapsed now s) (has_id id)
        canceled_subscription db.subscriptions (λ y e. (ground arith, ground arith))
      ∙ late

  not_own :
      (s : Subscription) (l : License) (db : Db)
      → find_license s.license_id db ≡ some l
      → l.status ≡ LicenseStatus.active
      → find_license sub.license_id db ≡ some lic
      → (same : Bool) → (sub.license_id == s.license_id) ≡ same
      → same ≡ false
  not_own s l db f e found false q = refl
  not_own s l db f e found true q =
      let id : s.license_id ≡ sub.license_id = ground arith in
      let f' : find_license sub.license_id db ≡ some l = rw id at f in
      let one : l ≡ lic = cc in
      absurd (
        let now_active : LicenseStatus.active ≡ LicenseStatus.revoked =
          sym e ∙ (ap (λ (x : License). x.status) one ∙ revoked) in
        cc)

  grace_apart :
      (s : Subscription) (l : License) (db : Db)
      → (s.id == sub.id) ≡ false
      → find_license s.license_id db ≡ some l
      → l.status ≡ LicenseStatus.active
      → IsStuck db
      → IsStuck (after_grace s db)
  grace_apart s l db apart f e (late, found) = (
    canceled_apart s.id db apart late,
    (let other = not_own s l db f e found (sub.license_id == s.license_id) refl in
        find-update_apart (is_license sub.license_id) (is_license s.license_id)
          (set_status LicenseStatus.suspended) db.licenses (λ y p. (ground arith, ground arith))
        ∙ found),
  )

  by_status :
      (s : Subscription) (l : License) (status : LicenseStatus) (db : Db)
      → elapsed_row now s.id db ≡ some s
      → (s.id == sub.id) ≡ false
      → find_license s.license_id db ≡ some l
      → l.status ≡ status
      → IsStuck db
      → IsStuck (with_tenant (suspend_elapsed now s.id) db).1
  unfolding suspend_elapsed suspend_locked suspend_from with_tenant commit
  by_status s l LicenseStatus.active db late apart f e stuck =
      rw (suspend_elapsed_active now db s l late f e) (grace_apart s l db apart f e stuck)
  by_status s l LicenseStatus.suspended db late apart f e stuck =
      rw (suspend_elapsed_suspended now db s l late f e)
        (canceled_apart s.id db apart stuck.0, stuck.1)
  by_status s l LicenseStatus.revoked db late apart f e stuck = rw (late, f, e) stuck

  by_license :
      (s : Subscription) (l : Option License) (db : Db)
      → elapsed_row now s.id db ≡ some s
      → (s.id == sub.id) ≡ false
      → find_license s.license_id db ≡ l
      → IsStuck db
      → IsStuck (with_tenant (suspend_elapsed now s.id) db).1
  unfolding suspend_elapsed suspend_locked suspend_from with_tenant commit
  by_license s none db late apart f stuck = rw (late, f) stuck
  by_license s (some l) db late apart f stuck = by_status s l l.status db late apart f refl stuck

  by_row :
      (id : ℕ) (row : Option Subscription) (db : Db)
      → (id == sub.id) ≡ false
      → elapsed_row now id db ≡ row
      → IsStuck db
      → IsStuck (with_tenant (suspend_elapsed now id) db).1
  unfolding suspend_elapsed suspend_locked with_tenant commit
  by_row id none db apart e stuck = rw e stuck
  by_row id (some s) db apart e stuck =
      let both =
        find-eq-some (λ (x : Subscription). has_id id x && is_elapsed now x) db.subscriptions e in
      let own : s.id ≡ id = ground arith in
      subst (λ n. IsStuck (with_tenant (suspend_elapsed now n) db).1) own
        (by_license s (find_license s.license_id db) db (ap (λ n. elapsed_row now n db) own ∙ e)
          (ap (λ n. n == sub.id) own ∙ apart) refl stuck)

  step-IsStuck :
      (id : ℕ) (db : Db) → IsStuck db → IsStuck (with_tenant (suspend_elapsed now id) db).1
  step-IsStuck id db stuck = elim (Bool-cases (id == sub.id)) [
    | inl e ↦ let own : id ≡ sub.id = ground arith in rw (own, own_step db stuck) stuck
    | inr apart ↦ by_row id (elapsed_row now id db) db apart refl stuck
  ]

  each-IsStuck : (ids : List ℕ) (db : Db) → IsStuck db → IsStuck (suspend_each now ids db)
  unfolding suspend_each
  each-IsStuck [] db stuck = stuck
  each-IsStuck (id ∷ ids) db stuck =
      each-IsStuck ids (with_tenant (suspend_elapsed now id) db).1 (step-IsStuck id db stuck)

  -- A sweep leaves an elapsed subscription whose license is revoked as it is, whatever it does to
  -- the others, and so the next sweep meets it again.
  pub sweep_tenant-IsStuck : (db : Db) → IsStuck db → IsStuck (sweep_tenant now db)
  unfolding sweep_tenant
  sweep_tenant-IsStuck db stuck = each-IsStuck (list_elapsed_subscriptions now db) db stuck
