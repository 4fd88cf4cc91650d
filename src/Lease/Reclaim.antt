-- ===== src/Lease/Reclaim.antt =====
-- src/server/modules/lease/reclaim-worker.ts: one sweep over the tenants. A fault of the database
-- in a tenant's transaction is an argument; a tenant stands for its tables.
use Prim.Native.String.{String}
use license_srv.Prelude.{
  ℕ, ◌+◌, Bool, true, false, not, ◌&&◌, ◌||◌, Option, none, some, List, [], ◌∷◌, map, ltb, ◌==◌,
  if◌then◌else◌, length, find, any_by,
}
use license_srv.Store.{
  License, LicenseStatus, revoked, suspended, LeasePolicy, reclaim, Lease, Db, AuditValue, Tx, ok,
  err, ◌>>=◌, ◌>>◌, pure, query, write_audit, with_tenant,
}
use license_srv.Lease.Repo.{is_live}
use license_srv.Lease.Repo.Change.{joined, is_lapsed, reclaim_due, sweep}

abbrev pub is_reclaim : LeasePolicy → Bool
is_reclaim reclaim = true
is_reclaim _ = false

abbrev pub is_revoked : LicenseStatus → Bool
is_revoked revoked = true
is_revoked _ = false

abbrev pub is_suspended : LicenseStatus → Bool
is_suspended suspended = true
is_suspended _ = false

abbrev pub has_passed : (now : ℕ) → Option ℕ → Bool
has_passed now none = false
has_passed now (some at) = ltb at now

-- The license's part of `POLICY_DUE_PREDICATE`.
abbrev pub policy_reclaims : (now : ℕ) → License → Bool
policy_reclaims now lic =
    (is_revoked lic.status && is_reclaim lic.lease_policy_on_revoke)
    || ((is_suspended lic.status && is_reclaim lic.lease_policy_on_suspend)
        || (has_passed now lic.expires_at && is_reclaim lic.lease_policy_on_expire))

abbrev pub policy_due : (now : ℕ) → (locked : ℕ → Bool) → List License → Lease → Bool
policy_due now locked licenses l =
    not (locked l.id) && (is_live l.status && joined licenses (λ lic k. policy_reclaims now lic) l)

pub data PolicyReclaimReason : Type 0 where
  license_revoked license_suspended license_expired : PolicyReclaimReason

unfoldable pub reason_of : License → PolicyReclaimReason
reason_of lic =
    if is_revoked lic.status && is_reclaim lic.lease_policy_on_revoke
    then license_revoked
    else if is_suspended lic.status && is_reclaim lic.lease_policy_on_suspend
    then license_suspended
    else license_expired

-- The reason of a due row, from the license that it is joined with.
abbrev pub reason_for : List License → Lease → PolicyReclaimReason
reason_for licenses l = elim (find (λ lic. License.id lic == l.license_id) licenses) [
  | some lic ↦ reason_of lic
  | none ↦ license_expired
]

unfoldable pub reclaim_by_policy :
    (now : ℕ) → (locked : ℕ → Bool) → (max_batch : ℕ) → Tx (List (Lease × PolicyReclaimReason))
unfolding reclaim_due reason_of
reclaim_by_policy now locked max_batch = do
  licenses ← query (λ db. Db.licenses db)
  due ← reclaim_due now (policy_due now locked licenses) max_batch
  pure (map (λ l. (l, reason_for licenses l)) due)

reason_text : PolicyReclaimReason → String
reason_text license_revoked = "license_revoked"
reason_text license_suspended = "license_suspended"
reason_text license_expired = "license_expired"

audit_reclaimed : Lease → String → Tx (Unit {0})
audit_reclaimed l reason =
    write_audit "lease-reclaim-worker" "lease.reclaimed" l.id
      (("licenseId", AuditValue.id l.license_id) ∷ ("reason", AuditValue.text reason) ∷ [])

unfoldable pub audit_grace : List Lease → Tx (Unit {0})
unfolding audit_reclaimed
audit_grace [] = pure tt
audit_grace (l ∷ ls) = do audit_reclaimed l "ttl_grace"; audit_grace ls

unfoldable pub audit_policy : List (Lease × PolicyReclaimReason) → Tx (Unit {0})
unfolding audit_reclaimed reason_text
audit_policy [] = pure tt
audit_policy ((l, reason) ∷ ls) = do audit_reclaimed l (reason_text reason); audit_policy ls

-- The transaction of one tenant: the lapsed leases first, then those that a policy reclaims.
unfoldable pub reclaim_tenant : (now : ℕ) → (locked : ℕ → Bool) → (max_batch : ℕ) → Tx ℕ
unfolding sweep reclaim_by_policy audit_grace audit_policy
reclaim_tenant now locked max_batch = do
  lapsed ← sweep now locked max_batch none
  by_policy ← reclaim_by_policy now locked max_batch
  audit_grace lapsed
  audit_policy by_policy
  pure (length lapsed + length by_policy)

-- `listTenantsWithDueLeases`: no row is locked by the enumeration.
abbrev pub has_due : (now : ℕ) → Db → Bool
has_due now db =
    any_by
      (λ l.
        is_lapsed now (λ _. false) none db.licenses l || policy_due now (λ _. false) db.licenses l)
      db.leases

-- A tenant's tables, and whether its transaction meets a fault, which rolls it back.
pub record Tenant : Type 0 where
  pub db : Db
  pub faulty : Bool

visit_tenant : (now : ℕ) → (locked : ℕ → Bool) → (max_batch : ℕ) → Tenant → ℕ × Db
unfolding reclaim_tenant with_tenant
visit_tenant now locked max_batch t =
    if has_due now t.db && not t.faulty
    then (let (r, db) = with_tenant (reclaim_tenant now locked max_batch) t.db in
        elim r [ ok n ↦ (n, db) | err _ ↦ (0, db) ])
    else (0, t.db)

-- The loop over the tenants that fails open: the total, and every tenant's tables afterwards.
unfoldable pub reclaim_sweep :
    (now : ℕ) → (locked : ℕ → Bool) → (max_batch : ℕ) → List Tenant → ℕ × List Db
unfolding visit_tenant
reclaim_sweep now locked max_batch [] = (0, [])
reclaim_sweep now locked max_batch (t ∷ ts) =
    let (n, db) = visit_tenant now locked max_batch t in
    let (total, dbs) = reclaim_sweep now locked max_batch ts in (n + total, db ∷ dbs)
