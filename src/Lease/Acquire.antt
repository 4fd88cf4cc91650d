-- ===== src/Lease/Acquire.antt =====
-- src/server/modules/lease/acquire.ts: resolving the license, the checks that fail closed, the seat
-- transaction with its signed handle, and the grant.
pub mod Seat
use Prim.Native.String.{String}
use license_srv.Prelude.{
  ℕ, ◌/◌, Bool, true, false, not, ◌||◌, Option, none, some, List, leb, ◌==◌, if◌then◌else◌, find,
  update_where,
}
use license_srv.Store.{
  License, LicenseStatus, active, Plan, Lease, ConcurrencyScope, session, Activation,
  ActivationStatus, Db, license_not_found, no_concurrency_entitlement, license_not_active,
  activation_required, signer_unavailable, validation_error, Tx, ◌>>=◌, ◌>>◌, pure, throw,
  refuse_if, query, modify,
}
use license_srv.Lease.Config.{LeaseTimings, resolve_scope, resolve_timings}
use license_srv.Lease.HolderKey.{Digest, derive_holder_key}
use license_srv.Lease.Handle.{Signer, LeaseHandleInput, SignedLeaseHandle, sign_lease_handle}
use license_srv.Lease.Repo.{has_id, with_leases}

-- A request's clocks: `Date.now()` of the server and `now()` of the database, in milliseconds.
pub record Clock : Type 0 where
  pub app : ℕ
  pub db : ℕ

-- The signer, and the salted hash of the configuration.
pub record LeaseDeps : Type 0 where
  pub signer : Option Signer
  pub digest : Digest

-- The license as the lease surface sees it, with the two switches of its plan.
pub record LeaseLicense : Type 0 where
  pub id : ℕ
  pub product_id : ℕ
  pub plan_id : ℕ
  pub status : LicenseStatus
  pub expires_at : Option ℕ
  pub max_concurrent : Option ℕ
  pub scope : ConcurrencyScope
  pub overage_allowance : ℕ
  pub timings : LeaseTimings
  pub signed_handle : Bool
  pub require_activation : Bool

unfoldable pub map_license : License → Plan → LeaseLicense
unfolding resolve_scope resolve_timings
map_license lic p = record {
  id = lic.id;
  product_id = lic.product_id;
  plan_id = lic.plan_id;
  status = lic.status;
  expires_at = lic.expires_at;
  max_concurrent = lic.max_concurrent;
  scope = resolve_scope lic.concurrency_scope session;
  overage_allowance = lic.concurrency_overage;
  timings =
      resolve_timings (some lic.lease_heartbeat_seconds) (some lic.lease_ttl_seconds)
        (some lic.lease_grace_seconds) (some lic.lease_sweep_seconds);
  signed_handle = p.lease_signed_handle;
  require_activation = p.concurrency_require_activation;
}

-- `{ id?, token? }`: the token is used where there is one.
pub record LicenseRef : Type 0 where
  pub id : Option ℕ
  pub token : Option ℕ

abbrev pub is_license : ℕ → License → Bool
is_license id lic = License.id lic == id

abbrev pub refers_to : LicenseRef → License → Bool
refers_to by lic = elim by.token [
  | some token ↦ License.license_token lic == token
  | none ↦ elim by.id [ some id ↦ is_license id lic | none ↦ false ]
]

abbrev pub plan_of : List Plan → License → Option Plan
plan_of plans lic = find (λ p. Plan.id p == License.plan_id lic) plans

-- `JOIN plan`: no row without its plan.
unfoldable pub with_plan : License → Option Plan → Option LeaseLicense
unfolding map_license
with_plan lic none = none
with_plan lic (some p) = some (map_license lic p)

unfoldable pub join_plan : List Plan → Option License → Option LeaseLicense
unfolding with_plan
join_plan plans none = none
join_plan plans (some lic) = with_plan lic (plan_of plans lic)

unfoldable pub resolve_license_for_lease : LicenseRef → Db → Option LeaseLicense
unfolding join_plan
resolve_license_for_lease by db = join_plan db.plans (find (refers_to by) db.licenses)

abbrev pub is_active_status : LicenseStatus → Bool
is_active_status active = true
is_active_status _ = false

abbrev pub is_expired : (now : ℕ) → Option ℕ → Bool
is_expired now none = false
is_expired now (some at) = leb at now

unfoldable pub assert_active : (app_now : ℕ) → LeaseLicense → Option ℕ → Tx ℕ
assert_active app_now lic none = throw no_concurrency_entitlement 403
assert_active app_now lic (some max_concurrent) = do
  refuse_if (not (is_active_status lic.status) || is_expired app_now lic.expires_at)
      license_not_active 409
  pure max_concurrent

unfoldable pub assert_entitled_and_active : (app_now : ℕ) → LeaseLicense → Tx ℕ
unfolding assert_active
assert_entitled_and_active app_now lic = assert_active app_now lic lic.max_concurrent

pub record AcquireInput : Type 0 where
  pub license : LicenseRef
  pub holder_reference : String
  pub acquire_token : ℕ
  pub signals : List ℕ
  pub activation_reference : Option ℕ

pub record Prepared : Type 0 where
  pub license : LeaseLicense
  pub max_concurrent : ℕ
  pub holder_key : ℕ

unfoldable pub prepare_key : LeaseLicense → (max_concurrent : ℕ) → (key : Option ℕ) → Tx Prepared
prepare_key lic max_concurrent none = throw validation_error 400
prepare_key lic max_concurrent (some key) =
    pure (record { license = lic; max_concurrent = max_concurrent; holder_key = key })

unfoldable pub prepare_found :
    LeaseDeps → (app_now : ℕ) → AcquireInput → Option LeaseLicense → Tx Prepared
unfolding assert_entitled_and_active prepare_key
prepare_found deps app_now input none = throw license_not_found 404
prepare_found deps app_now input (some lic) = do
  max_concurrent ← assert_entitled_and_active app_now lic
  prepare_key lic max_concurrent
      (derive_holder_key deps.digest lic.scope input.holder_reference input.signals)

-- Phase A: reads only.
unfoldable pub prepare : LeaseDeps → (app_now : ℕ) → AcquireInput → Tx Prepared
unfolding prepare_found
prepare deps app_now input = do
  found ← query (resolve_license_for_lease input.license)
  prepare_found deps app_now input found

abbrev pub is_active_activation : ActivationStatus → Bool
is_active_activation ActivationStatus.active = true
is_active_activation _ = false

-- `defaultActivationRead` of the reference, where there is one.
abbrev pub read_activation : Option ℕ → Db → Option Activation
read_activation none db = none
read_activation (some ref) db = find (λ a. Activation.id a == ref) db.activations

unfoldable pub gate_found : Prepared → Option Activation → Tx (Option ℕ)
gate_found prep none = throw activation_required 409
gate_found prep (some a) = do
  refuse_if (not (is_active_activation a.status) || not (a.license_id == prep.license.id))
      activation_required 409
  pure (some a.id)

unfoldable pub gate_if : (required : Bool) → Prepared → Option ℕ → Tx (Option ℕ)
unfolding gate_found
gate_if false prep reference = pure none
gate_if true prep reference = do found ← query (read_activation reference); gate_found prep found

-- The gate for activated devices only: the id of the activation to record on the lease.
unfoldable pub gate : Prepared → Option ℕ → Tx (Option ℕ)
unfolding gate_if
gate prep reference = gate_if prep.license.require_activation prep reference

abbrev pub set_handle_key : (key_id : ℕ) → Lease → Lease
set_handle_key key_id l = record l { handle_key_id = some key_id }

abbrev pub handle_input : Lease → (app_now handle_ttl_seconds : ℕ) → LeaseHandleInput
handle_input lease app_now handle_ttl_seconds = record {
  lease_id = lease.id;
  license_id = lease.license_id;
  holder_key = lease.holder_key;
  scope = lease.scope;
  issued_at_unix = app_now / 1000;
  lease_expires_at_unix = lease.expires_at / 1000;
  handle_ttl_seconds = handle_ttl_seconds;
}

-- The key's id is kept on the lease; a fault of the signer is thrown.
unfoldable pub attach_handle :
    (lease_id : ℕ) → Option SignedLeaseHandle → Tx (Option SignedLeaseHandle)
attach_handle lease_id none = throw signer_unavailable 503
attach_handle lease_id (some signed) = do
  modify (λ db.
      with_leases db (update_where (has_id lease_id) (set_handle_key signed.key_id) db.leases))
  pure (some signed)

-- `none` is the plain authorization without a handle.
unfoldable pub maybe_sign_handle :
    Option Signer
    → (signed_handle : Bool) → (product_id app_now handle_ttl_seconds : ℕ) → Lease
    → Tx (Option SignedLeaseHandle)
unfolding attach_handle sign_lease_handle
maybe_sign_handle signer false product_id app_now handle_ttl_seconds lease = pure none
maybe_sign_handle none true product_id app_now handle_ttl_seconds lease =
    throw signer_unavailable 503
maybe_sign_handle (some signer) true product_id app_now handle_ttl_seconds lease =
    attach_handle lease.id
      (sign_lease_handle signer product_id (handle_input lease app_now handle_ttl_seconds))
