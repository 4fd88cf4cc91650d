-- ===== src/Lease/Acquire/Seat.antt =====
-- src/server/modules/lease/acquire.ts: the grant, the seat transaction and the whole acquire.
use license_srv.Prelude.{ℕ, Bool, true, false, ◌&&◌, Option, none, some, [], ◌∷◌}
use license_srv.Store.{
  Lease, LeaseStatus, ConcurrencyScope, seat_capacity_exhausted, AuditValue, Tx, ◌>>=◌, ◌>>◌, pure,
  throw, write_audit, with_tenant, Service, and_then,
}
use license_srv.Lease.Config.{LeaseTimings}
use license_srv.Lease.Handle.{SignedLeaseHandle}
use license_srv.Lease.Repo.{AcquireParams, AcquireOutcome, created, replayed, capacity, acquire}
use license_srv.Lease.Acquire.{
  Clock, LeaseDeps, AcquireInput, Prepared, prepare, gate, maybe_sign_handle,
}

-- The wire grant.
pub record LeaseGrant : Type 0 where
  pub id : ℕ
  pub license_id : ℕ
  pub holder_key : ℕ
  pub scope : ConcurrencyScope
  pub status : LeaseStatus
  pub acquired_at : ℕ
  pub last_renewed_at : ℕ
  pub expires_at : ℕ
  pub ttl_seconds : ℕ
  pub heartbeat_interval_seconds : ℕ
  pub grace_seconds : ℕ
  pub concurrency_used : ℕ
  pub max_concurrent : ℕ
  pub overage_allowance : ℕ
  pub overage : Bool
  pub key_id : Option ℕ
  pub lease_handle : Option SignedLeaseHandle

abbrev pub key_of : Option SignedLeaseHandle → Option ℕ
key_of none = none
key_of (some h) = some (SignedLeaseHandle.key_id h)

unfoldable pub build_grant :
    Lease
    → LeaseTimings
    → (concurrency_used max_concurrent overage_allowance : ℕ) → (overage : Bool)
    → Option SignedLeaseHandle
    → LeaseGrant
build_grant lease timings concurrency_used max_concurrent overage_allowance overage handle =
    record {
      id = lease.id;
      license_id = lease.license_id;
      holder_key = lease.holder_key;
      scope = lease.scope;
      status = lease.status;
      acquired_at = lease.acquired_at;
      last_renewed_at = lease.last_renewed_at;
      expires_at = lease.expires_at;
      ttl_seconds = timings.ttl_seconds;
      heartbeat_interval_seconds = timings.heartbeat_seconds;
      grace_seconds = timings.grace_seconds;
      concurrency_used = concurrency_used;
      max_concurrent = max_concurrent;
      overage_allowance = overage_allowance;
      overage = overage;
      key_id = key_of handle;
      lease_handle = handle;
    }

pub record AcquireResult : Type 0 where
  pub created : Bool
  pub grant : LeaseGrant

-- The records that an acquire appends, once its seat and its handle are there.
unfoldable pub audit_acquired : (was_created : Bool) → Lease → Tx (Unit {0})
audit_acquired was_created lease =
    write_audit "lease-api"
      (elim was_created [ true ↦ "lease.acquired" | false ↦ "lease.reacquired" ]) lease.id
      (("licenseId", AuditValue.id lease.license_id)
        ∷ ("created", AuditValue.flag was_created)
        ∷ ("overage", AuditValue.flag lease.overage)
        ∷ [])

-- Only a new seat above the base cap is metered.
unfoldable pub audit_overage :
    (metered : Bool) → Prepared → (concurrency_used : ℕ) → Lease → Tx (Unit {0})
audit_overage false prep concurrency_used lease = pure tt
audit_overage true prep concurrency_used lease = write_audit "lease-api" "lease.overage" lease.id (
    ("licenseId", AuditValue.id lease.license_id)
    ∷ ("concurrencyUsed", AuditValue.number concurrency_used)
    ∷ ("maxConcurrent", AuditValue.number prep.max_concurrent)
    ∷ ("overageAllowance", AuditValue.number prep.license.overage_allowance)
    ∷ [])

-- The rest of the seat transaction, for a lease that was created or replayed.
unfoldable pub finish :
    LeaseDeps
    → Clock
    → Prepared
    → (was_created : Bool) → Lease
    → (concurrency_used : ℕ) → Tx AcquireResult
unfolding maybe_sign_handle build_grant audit_acquired audit_overage
finish deps clock prep was_created lease concurrency_used = do
  handle ←
      maybe_sign_handle deps.signer prep.license.signed_handle prep.license.product_id clock.app
        prep.license.timings.heartbeat_seconds lease
  audit_acquired was_created lease
  audit_overage (was_created && lease.overage) prep concurrency_used lease
  pure (record {
    created = was_created;
    grant =
        build_grant lease prep.license.timings concurrency_used prep.max_concurrent
          prep.license.overage_allowance lease.overage handle;
  })

unfoldable pub settle : LeaseDeps → Clock → Prepared → AcquireOutcome → Tx AcquireResult
unfolding finish
settle deps clock prep (capacity used max_concurrent overage_allowance) =
    throw (seat_capacity_exhausted max_concurrent used overage_allowance) 409
settle deps clock prep (created lease used) = finish deps clock prep true lease used
settle deps clock prep (replayed lease used) = finish deps clock prep false lease used

abbrev pub acquire_params : AcquireInput → Prepared → (activation_id : Option ℕ) → AcquireParams
acquire_params input prep activation_id = record {
  license_id = prep.license.id;
  holder_key = prep.holder_key;
  scope = prep.license.scope;
  nonce = input.acquire_token;
  ttl_seconds = prep.license.timings.ttl_seconds;
  max_concurrent = prep.max_concurrent;
  overage_allowance = prep.license.overage_allowance;
  activation_id = activation_id;
}

-- Phase B: the seat, the handle and the records, in one transaction.
unfoldable pub seat_transaction :
    LeaseDeps
    → Clock
    → (id : ℕ) → AcquireInput
    → Prepared
    → (activation_id : Option ℕ) → Tx AcquireResult
unfolding settle
seat_transaction deps clock id input prep activation_id = do
  outcome ← acquire id clock.db (acquire_params input prep activation_id)
  settle deps clock prep outcome

-- The three transactions of `acquireLease`.
unfoldable pub acquire_lease : LeaseDeps → Clock → (id : ℕ) → AcquireInput → Service AcquireResult
unfolding prepare gate seat_transaction with_tenant
acquire_lease deps clock id input = and_then (with_tenant (prepare deps clock.app input)) λ prep.
    and_then (with_tenant (gate prep input.activation_reference))
      λ activation_id. with_tenant (seat_transaction deps clock id input prep activation_id)
