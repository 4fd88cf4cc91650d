-- ===== src/Lease/Upkeep.antt =====
-- The heartbeat, the return and the reclaim worker of src/server/modules/lease gain no seat.
use license_srv.Prelude.{
  ℕ, ◌≡◌, refl, Bool, Option, none, some, List, [], ◌∷◌, arith, map, length, ◌+◌, Bool-cases, inl,
  inr,
}
use license_srv.Store.{
  Lease, Db, reclaimed, released, ok, ◌>>=◌, >>=-eq-ok, >>-eq-ok, ◌>>◌, AuditValue, pure,
  write_audit,
}
use license_srv.Lease.Repo.{get_by_id}
use license_srv.Lease.Repo.Change.{
  is_renewable, renewed_lease, renew, is_live_id, ended_lease, release, force_release, is_in, sweep,
  reclaim_due,
}
use license_srv.Lease.Acquire.{Clock, LeaseDeps, LeaseLicense, maybe_sign_handle}
use license_srv.Lease.Acquire.Seat.{LeaseGrant}
use license_srv.Lease.Renew.{
  renew_found, renew_under, renew_resolved, renew_existing, renew_lease, release_lease, is_revoked,
}
use license_srv.Lease.Reclaim.{
  reason_for, reclaim_by_policy, policy_due, audit_grace, audit_policy, PolicyReclaimReason,
  reclaim_tenant,
}
use license_srv.Lease.Endings.{
  renew-Updates, renew-Gentle, end_live-Updates, end_live-Gentle, ended_lease-Gentle,
}
use license_srv.Lease.Frame.{
  NoSeatGained, NoSeatGained-refl, NoSeatGained-trans, Updates-NoSeatGained,
  maybe_sign_handle-NoSeatGained,
}

renew-NoSeatGained :
    (now id ttl : ℕ) (expected : Option ℕ) (db db' : Db) {o : Option Lease}
    → renew now id ttl expected db ≡ ok (o, db')
    → NoSeatGained db db'
renew-NoSeatGained now id ttl expected db db' e =
    Updates-NoSeatGained (is_renewable id now expected) (renewed_lease now ttl)
      (renew-Gentle now id ttl expected db) db db' (renew-Updates now id ttl expected db e)

pub release-NoSeatGained :
    (now id : ℕ) (db db' : Db) {b : Bool} → release now id db ≡ ok (b, db') → NoSeatGained db db'
unfolding release
release-NoSeatGained now id db db' e =
    Updates-NoSeatGained (is_live_id id) (ended_lease released now)
      (end_live-Gentle released refl now id db) db db' (end_live-Updates released refl now id db e)

pub force_release-NoSeatGained :
    (now id : ℕ) (db db' : Db) {b : Bool}
    → force_release now id db ≡ ok (b, db')
    → NoSeatGained db db'
unfolding force_release
force_release-NoSeatGained now id db db' e =
    Updates-NoSeatGained (is_live_id id) (ended_lease reclaimed now)
      (end_live-Gentle reclaimed refl now id db) db db'
      (end_live-Updates reclaimed refl now id db e)

pub release_lease-NoSeatGained :
    (clock : Clock) (id : ℕ) (db db' : Db) {n : ℕ}
    → release_lease clock id db ≡ ok (n, db')
    → NoSeatGained db db'
unfolding release_lease
release_lease-NoSeatGained clock id db db' e =
    let (b, mid, ended, rest) =
      >>=-eq-ok (release clock.db id)
        (λ changed.
          write_audit "lease-api" "lease.released" id (("changed", AuditValue.flag changed) ∷ [])
          >> pure id)
        db e in
    NoSeatGained-trans (release-NoSeatGained clock.db id db mid ended)
      (NoSeatGained-refl mid db' (ground arith) (ground arith))

renew_found-NoSeatGained :
    (deps : LeaseDeps) (clock : Clock) (existing : Lease) (lic : LeaseLicense) (o : Option Lease)
    (db db' : Db) {g : LeaseGrant}
    → renew_found deps clock existing lic o db ≡ ok (g, db')
    → NoSeatGained db db'
unfolding renew_found
renew_found-NoSeatGained deps clock existing lic none db db' e = cc
renew_found-NoSeatGained deps clock existing lic (some l) db db' e =
    let (h, mid, signed, rest) =
      >>=-eq-ok
        (maybe_sign_handle deps.signer lic.signed_handle lic.product_id clock.app
          lic.timings.heartbeat_seconds l)
        _ db e in
    NoSeatGained-trans (maybe_sign_handle-NoSeatGained deps.signer _ _ _ _ l db mid signed)
      (NoSeatGained-refl mid db' (ground arith) (ground arith))

renew_under-NoSeatGained :
    (deps : LeaseDeps) (clock : Clock) (id : ℕ) (existing : Lease) (lic : LeaseLicense)
    (db db' : Db) {g : LeaseGrant}
    → renew_under deps clock id existing lic db ≡ ok (g, db')
    → NoSeatGained db db'
unfolding renew_under
renew_under-NoSeatGained deps clock id existing lic db db' e =
    let (o, mid, moved, rest) = >>=-eq-ok (renew clock.db id lic.timings.ttl_seconds none) _ db e in
    NoSeatGained-trans (renew-NoSeatGained clock.db id lic.timings.ttl_seconds none db mid moved)
      (renew_found-NoSeatGained deps clock existing lic o mid db' rest)

renew_resolved-NoSeatGained :
    (deps : LeaseDeps) (clock : Clock) (id : ℕ) (existing : Lease) (o : Option LeaseLicense)
    (db db' : Db) {g : LeaseGrant}
    → renew_resolved deps clock id existing o db ≡ ok (g, db')
    → NoSeatGained db db'
unfolding renew_resolved
renew_resolved-NoSeatGained deps clock id existing none db db' e = cc
renew_resolved-NoSeatGained deps clock id existing (some lic) db db' {g} e =
    elim (Bool-cases (is_revoked lic.status)) [
      | inl gone ↦ absurd (ground arith)
      | inr there ↦
          renew_under-NoSeatGained deps clock id existing lic db db' {g = g} (ground arith)
    ]

renew_existing-NoSeatGained :
    (deps : LeaseDeps) (clock : Clock) (id : ℕ) (o : Option Lease) (db db' : Db) {g : LeaseGrant}
    → renew_existing deps clock id o db ≡ ok (g, db')
    → NoSeatGained db db'
unfolding renew_existing
renew_existing-NoSeatGained deps clock id none db db' e = cc
renew_existing-NoSeatGained deps clock id (some existing) db db' e =
    renew_resolved-NoSeatGained deps clock id existing _ db db' e

-- A heartbeat gains no seat.
pub renew_lease-NoSeatGained :
    (deps : LeaseDeps) (clock : Clock) (id : ℕ) (db db' : Db) {g : LeaseGrant}
    → renew_lease deps clock id db ≡ ok (g, db')
    → NoSeatGained db db'
unfolding renew_lease get_by_id
renew_lease-NoSeatGained deps clock id db db' e =
    renew_existing-NoSeatGained deps clock id _ db db' e

reclaim_due-NoSeatGained :
    (now limit : ℕ) (is_due : Lease → Bool) (db db' : Db) {due : List Lease}
    → reclaim_due now is_due limit db ≡ ok (due, db')
    → NoSeatGained db db'
unfolding reclaim_due
reclaim_due-NoSeatGained now limit is_due db db' {due} e =
    Updates-NoSeatGained (is_in due) (ended_lease reclaimed now)
      (ended_lease-Gentle reclaimed now _ refl) db db' (ground arith)

audit_grace-NoSeatGained :
    (ls : List Lease) (db db' : Db) {u : Unit {0}}
    → audit_grace ls db ≡ ok (u, db')
    → NoSeatGained db db'
unfolding audit_grace
audit_grace-NoSeatGained [] db db' e = NoSeatGained-refl db db' (ground arith) (ground arith)
audit_grace-NoSeatGained (l ∷ ls) db db' e =
    NoSeatGained-trans (NoSeatGained-refl db _ refl refl) (audit_grace-NoSeatGained ls _ db' e)

audit_policy-NoSeatGained :
    (ls : List (Lease × PolicyReclaimReason)) (db db' : Db) {u : Unit {0}}
    → audit_policy ls db ≡ ok (u, db')
    → NoSeatGained db db'
unfolding audit_policy
audit_policy-NoSeatGained [] db db' e = NoSeatGained-refl db db' (ground arith) (ground arith)
audit_policy-NoSeatGained ((l, r) ∷ ls) db db' e =
    NoSeatGained-trans (NoSeatGained-refl db _ refl refl) (audit_policy-NoSeatGained ls _ db' e)

reclaim_by_policy-NoSeatGained :
    (now limit : ℕ) (locked : ℕ → Bool) (db db' : Db) {rs : List (Lease × PolicyReclaimReason)}
    → reclaim_by_policy now locked limit db ≡ ok (rs, db')
    → NoSeatGained db db'
unfolding reclaim_by_policy
reclaim_by_policy-NoSeatGained now limit locked db db' e =
    let (due, mid, taken, rest) =
      >>=-eq-ok (reclaim_due now (policy_due now locked db.licenses) limit)
        (λ due. pure (map (λ l. (l, reason_for db.licenses l)) due)) db e in
    NoSeatGained-trans
      (reclaim_due-NoSeatGained now limit (policy_due now locked db.licenses) db mid taken)
      (NoSeatGained-refl mid db' (ground arith) (ground arith))

-- Nor does the worker's transaction of a tenant.
pub reclaim_tenant-NoSeatGained :
    (now limit : ℕ) (locked : ℕ → Bool) (db db' : Db) {n : ℕ}
    → reclaim_tenant now locked limit db ≡ ok (n, db')
    → NoSeatGained db db'
unfolding reclaim_tenant
reclaim_tenant-NoSeatGained now limit locked db db' {n} e =
    let (due, m1, lapsed, r1) =
      >>=-eq-ok (sweep now locked limit none)
        (λ lapsed. reclaim_by_policy now locked limit >>= λ by_policy.
          audit_grace lapsed >> (audit_policy by_policy >> pure (length lapsed + length by_policy)))
        db e in
    let (rs, m2, policy, r2) =
      >>=-eq-ok (reclaim_by_policy now locked limit)
        (λ by_policy.
          audit_grace due >> (audit_policy by_policy >> pure (length due + length by_policy)))
        m1 r1 in
    let (u, m3, a1, r3) = >>-eq-ok (audit_grace due) _ m2 r2 in
    let (v, m4, a2, r4) = >>-eq-ok (audit_policy rs) (pure (length due + length rs)) m3 r3 in
    NoSeatGained-trans (unfold sweep in (reclaim_due-NoSeatGained now limit _ db m1 lapsed)) (
      NoSeatGained-trans (reclaim_by_policy-NoSeatGained now limit locked m1 m2 policy) (
        NoSeatGained-trans (audit_grace-NoSeatGained due m2 m3 a1) (
          NoSeatGained-trans (audit_policy-NoSeatGained rs m3 m4 a2)
            (NoSeatGained-refl m4 db' (ground arith) (ground arith)))))
