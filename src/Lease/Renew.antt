-- ===== src/Lease/Renew.antt =====
-- src/server/modules/lease/renew.ts and release.ts: the heartbeat and the return of a seat.
use license_srv.Prelude.{ℕ, Bool, true, false, Option, none, some, [], ◌∷◌, if◌then◌else◌, leb}
use Prim.Native.String.{String}
use license_srv.Store.{
  Lease, LeaseStatus, LicenseStatus, revoked, not_found, lease_not_renewable, AuditValue, Tx, ◌>>=◌,
  ◌>>◌, pure, throw, query, write_audit,
}
use license_srv.Lease.Repo.{is_live, count_live, get_by_id}
use license_srv.Lease.Repo.Change.{renew, release}
use license_srv.Lease.Acquire.{
  Clock, LeaseDeps, LeaseLicense, resolve_license_for_lease, maybe_sign_handle,
}
use license_srv.Lease.Acquire.Seat.{LeaseGrant, build_grant}

-- Why a renew matched no row, from the lease as it was before.
unfoldable pub diagnose : LeaseStatus → (expires_at app_now : ℕ) → String
diagnose status expires_at app_now =
    if is_live status then (if leb expires_at app_now then "expired" else "fenced") else "reclaimed"

abbrev pub is_revoked : LicenseStatus → Bool
is_revoked revoked = true
is_revoked _ = false

-- `license.maxConcurrent ?? 0`.
abbrev or_zero : Option ℕ → ℕ
or_zero none = 0
or_zero (some n) = n

-- What follows the guarded update, by the row that it returned.
unfoldable pub renew_found : LeaseDeps → Clock → Lease → LeaseLicense → Option Lease → Tx LeaseGrant
unfolding diagnose maybe_sign_handle count_live build_grant
renew_found deps clock existing lic none =
    throw (lease_not_renewable (diagnose existing.status existing.expires_at clock.app)) 409
renew_found deps clock existing lic (some lease) = do
  handle ←
      maybe_sign_handle deps.signer lic.signed_handle lic.product_id clock.app
        lic.timings.heartbeat_seconds lease
  used ← query (count_live lic.id)
  write_audit "lease-api" "lease.renewed" lease.id
      (("licenseId", AuditValue.id lease.license_id) ∷ [])
  pure (
      build_grant lease lic.timings used (or_zero lic.max_concurrent) lic.overage_allowance false
        handle)

unfoldable pub renew_under :
    LeaseDeps → Clock → (lease_id : ℕ) → Lease → LeaseLicense → Tx LeaseGrant
unfolding renew renew_found
renew_under deps clock lease_id existing lic = do
  renewed ← renew clock.db lease_id lic.timings.ttl_seconds none
  renew_found deps clock existing lic renewed

unfoldable pub renew_resolved :
    LeaseDeps → Clock → (lease_id : ℕ) → Lease → Option LeaseLicense → Tx LeaseGrant
unfolding renew_under
renew_resolved deps clock lease_id existing none = throw (lease_not_renewable "license_revoked") 409
renew_resolved deps clock lease_id existing (some lic) =
    if is_revoked lic.status
    then throw (lease_not_renewable "license_revoked") 409
    else renew_under deps clock lease_id existing lic

unfoldable pub renew_existing : LeaseDeps → Clock → (lease_id : ℕ) → Option Lease → Tx LeaseGrant
unfolding renew_resolved resolve_license_for_lease
renew_existing deps clock lease_id none = throw not_found 404
renew_existing deps clock lease_id (some existing) = do
  resolved ←
      query (resolve_license_for_lease (record { id = some existing.license_id; token = none }))
  renew_resolved deps clock lease_id existing resolved

unfoldable pub renew_lease : LeaseDeps → Clock → (lease_id : ℕ) → Tx LeaseGrant
unfolding get_by_id renew_existing
renew_lease deps clock lease_id = do
  found ← get_by_id lease_id
  renew_existing deps clock lease_id found

-- The answer echoes the id and `released`, whatever was found.
unfoldable pub release_lease : Clock → (lease_id : ℕ) → Tx ℕ
unfolding release
release_lease clock lease_id = do
  changed ← release clock.db lease_id
  write_audit "lease-api" "lease.released" lease_id (("changed", AuditValue.flag changed) ∷ [])
  pure lease_id
