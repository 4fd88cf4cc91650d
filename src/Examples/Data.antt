-- ===== src/Examples/Data.antt =====
-- A small tenant for the examples: two licenses, one of them with a live lease and an active machine.
use license_srv.Prelude.{true, false, arith, Bool, ℕ, ◌≡◌, refl, none, some, [], ◌∷◌, count_by}
use license_srv.Store.{
  PlanStatus, CustomerStatus, named, boolean, License, LicenseStatus, timer, reclaim, Lease, live,
  session, Activation, ActivationStatus, Db, Result, ok, err,
}
use license_srv.Lease.Seats.{WellFormed}
use license_srv.Lease.Handle.{Signer}
use license_srv.Lease.Acquire.{Clock, LeaseDeps, AcquireInput}

-- The value of a result that is known to be one.
abbrev pub IsOk : {A : Type 0} → Result A → Type 0
IsOk (ok a) = Unit
IsOk (err e) = ⊥

abbrev pub value : {A : Type 0} → (r : Result A) → IsOk r → A
value (ok a) h = a
value (err e) h = absurd h

pub value_eq : {A : Type 0} (r : Result A) (h : IsOk r) → r ≡ ok (value r h)
value_eq (ok a) h = refl
value_eq (err e) h = absurd h

abbrev pub license_of : (id : ℕ) → LicenseStatus → License
license_of id status = record {
  id = id;
  product_id = 1;
  plan_id = 1;
  customer_id = 1;
  status = status;
  expires_at = none;
  max_activations = 2;
  entitlements = [];
  license_token = id;
  transfer_count = 0;
  max_concurrent = some 2;
  concurrency_scope = "session";
  concurrency_overage = 1;
  lease_heartbeat_seconds = 600;
  lease_ttl_seconds = 1800;
  lease_grace_seconds = 300;
  lease_sweep_seconds = 60;
  lease_policy_on_revoke = reclaim;
  lease_policy_on_suspend = timer;
  lease_policy_on_expire = timer;
}

abbrev pub lease_7 : Lease
lease_7 = record {
  id = 7;
  license_id = 1;
  holder_key = 70;
  scope = session;
  status = live;
  acquired_at = 0;
  last_renewed_at = 0;
  expires_at = 1800000;
  generation = 0;
  overage = Bool.false;
  activation_id = none;
  nonce = 77;
  handle_key_id = none;
  ended_at = none;
}

abbrev pub machine_5 : Activation
machine_5 = record {
  id = 5;
  license_id = 1;
  machine_id = 6;
  signal_hashes = 1 ∷ 2 ∷ 3 ∷ [];
  fp_min = 3;
  status = ActivationStatus.active;
  activated_at = 0;
  deactivated_at = none;
  updated_at = 0;
  nonce = 55;
  machine_bound_token = some 500;
  label = none;
}

abbrev pub shop : Db
shop = record {
  licenses = license_of 1 LicenseStatus.active ∷ license_of 2 LicenseStatus.revoked ∷ [];
  plans =
      record {
        id = 1;
        product_id = 1;
        status = PlanStatus.active;
        key = "pro";
        max_activations = 2;
        lease_signed_handle = true;
        concurrency_require_activation = false;
      }
      ∷ [];
  customers =
      record { id = 1; ref = named "first"; status = CustomerStatus.active }
      ∷ record { id = 2; ref = named "second"; status = CustomerStatus.active }
      ∷ [];
  leases = lease_7 ∷ [];
  activations = machine_5 ∷ [];
  subscriptions = [];
  products = record { id = 1; key = "suite" } ∷ [];
  entitlements = record { id = 1; key = "export"; type = boolean; status = PlanStatus.active } ∷ [];
  plan_entitlements =
      record { plan_id = 1; entitlement_id = 1; bool_value = some true; int_value = none } ∷ [];
  billing_events = [];
  audit_log = [];
}

pub shop-WellFormed : WellFormed shop.leases
unfolding count_by
shop-WellFormed = record {
  ids = λ i. ground arith;
  nonces = λ n. ground arith;
  holders = λ c k. ground arith;
  shapes = (refl, tt);
}

abbrev pub clock_1 : Clock
clock_1 = record { app = 1000; db = 1000 }

abbrev pub signer_1 : Signer
signer_1 = record { sign_detached = λ product_id domain claims. some (9, 3) }

abbrev pub deps_1 : LeaseDeps
deps_1 = record { signer = some signer_1; digest = λ scope canonical. 71 }

abbrev pub acquire_8 : AcquireInput
acquire_8 = record {
  license = record { id = some 1; token = none };
  holder_reference = "worker";
  acquire_token = 88;
  signals = [];
  activation_reference = none;
}
