-- ===== src/Store/Rows.antt =====
-- The tables: one record for each kind of row, with the columns that the services read or write.
use Prim.Native.String.{String}
use license_srv.Prelude.{ℕ, Bool, Option, List}

pub data LicenseStatus : Type 0 where
  active suspended revoked : LicenseStatus

-- A billing provider.
pub data Provider : Type 0 where
  stripe paddle generic : Provider

-- What is done with live leases once their license is revoked, suspended or expired.
pub data LeasePolicy : Type 0 where
  reclaim timer : LeasePolicy

-- An entitlement's value in a license's snapshot.
pub data Value : Type 0 where
  flag : Bool → Value
  number : ℕ → Value

-- `license`: the metadata, the snapshot of the plan taken at issue, and the lease configuration.
pub record License : Type 0 where
  pub id : ℕ
  pub product_id : ℕ
  pub plan_id : ℕ
  pub customer_id : ℕ
  pub status : LicenseStatus
  pub expires_at : Option ℕ
  pub max_activations : ℕ
  pub entitlements : List (String × Value)
  pub license_token : ℕ
  pub transfer_count : ℕ
  pub max_concurrent : Option ℕ
  pub concurrency_scope : String
  pub concurrency_overage : ℕ
  pub lease_heartbeat_seconds : ℕ
  pub lease_ttl_seconds : ℕ
  pub lease_grace_seconds : ℕ
  pub lease_sweep_seconds : ℕ
  pub lease_policy_on_revoke : LeasePolicy
  pub lease_policy_on_suspend : LeasePolicy
  pub lease_policy_on_expire : LeasePolicy

pub data PlanStatus : Type 0 where
  active archived : PlanStatus

-- `plan`: what an issue takes from it, and the two switches that a lease reads live.
pub record Plan : Type 0 where
  pub id : ℕ
  pub product_id : ℕ
  pub status : PlanStatus
  pub key : String
  pub max_activations : ℕ
  pub lease_signed_handle : Bool
  pub concurrency_require_activation : Bool

pub record Product : Type 0 where
  pub id : ℕ
  pub key : String

pub data EntitlementType : Type 0 where
  boolean integer_limit : EntitlementType

pub record Entitlement : Type 0 where
  pub id : ℕ
  pub key : String
  pub type : EntitlementType
  pub status : PlanStatus

-- `plan_entitlement`: a value for an entitlement of a plan.
pub record PlanEntitlement : Type 0 where
  pub plan_id : ℕ
  pub entitlement_id : ℕ
  pub bool_value : Option Bool
  pub int_value : Option ℕ

pub data CustomerStatus : Type 0 where
  active anonymized : CustomerStatus

-- A customer's `ref`: chosen by an operator, or `billing:<provider>:<customer>`.
pub data CustomerRef : Type 0 where
  named : String → CustomerRef
  billed : Provider → ℕ → CustomerRef

pub record Customer : Type 0 where
  pub id : ℕ
  pub ref : CustomerRef
  pub status : CustomerStatus

pub data ConcurrencyScope : Type 0 where
  session machine user : ConcurrencyScope

pub data LeaseStatus : Type 0 where
  live released reclaimed : LeaseStatus

-- `lease`: one live row is one seat taken.
pub record Lease : Type 0 where
  pub id : ℕ
  pub license_id : ℕ
  pub holder_key : ℕ
  pub scope : ConcurrencyScope
  pub status : LeaseStatus
  pub acquired_at : ℕ
  pub last_renewed_at : ℕ
  pub expires_at : ℕ
  pub generation : ℕ
  pub overage : Bool
  pub activation_id : Option ℕ
  pub nonce : ℕ
  pub handle_key_id : Option ℕ
  pub ended_at : Option ℕ

pub data ActivationStatus : Type 0 where
  active deactivated : ActivationStatus

-- `activation`: one active row is one machine bound to a license.
pub record Activation : Type 0 where
  pub id : ℕ
  pub license_id : ℕ
  pub machine_id : ℕ
  pub signal_hashes : List ℕ
  pub fp_min : ℕ
  pub status : ActivationStatus
  pub activated_at : ℕ
  pub deactivated_at : Option ℕ
  pub updated_at : ℕ
  pub nonce : ℕ
  pub machine_bound_token : Option ℕ
  pub label : Option String

pub data BillingState : Type 0 where
  active past_due grace canceled refunded : BillingState

-- `subscription`: a provider's subscription, linked to one license.
pub record Subscription : Type 0 where
  pub id : ℕ
  pub provider : Provider
  pub external_subscription_id : ℕ
  pub license_id : ℕ
  pub billing_state : BillingState
  pub grace_expires_at : Option ℕ
  pub last_applied_event_at : Option ℕ

pub data CanonicalEventType : Type 0 where
  created renewed payment_failed canceled refunded unknown : CanonicalEventType

pub data EventOutcome : Type 0 where
  applied deadletter rejected : EventOutcome

pub data Scalar : Type 0 where
  text : String → Scalar
  number : ℕ → Scalar

-- `billing_event`: the ledger, one row for each event id of a provider.
pub record BillingEvent : Type 0 where
  pub id : ℕ
  pub provider : Provider
  pub provider_event_id : ℕ
  pub type : CanonicalEventType
  pub subscription_id : Option ℕ
  pub occurred_at : ℕ
  pub received_at : ℕ
  pub outcome : EventOutcome
  pub reason : Option String
  pub payload_summary : List (String × Scalar)

-- A field of an audit record's `after`.
pub data AuditValue : Type 0 where
  id : ℕ → AuditValue
  flag : Bool → AuditValue
  number : ℕ → AuditValue
  text : String → AuditValue
  null : AuditValue

pub record AuditEntry : Type 0 where
  pub actor : String
  pub action : String
  pub target : ℕ
  pub after : List (String × AuditValue)

-- What the tenant's tables hold; `audit_log` has its last record first.
pub record Db : Type 0 where
  pub licenses : List License
  pub plans : List Plan
  pub customers : List Customer
  pub leases : List Lease
  pub activations : List Activation
  pub subscriptions : List Subscription
  pub products : List Product
  pub entitlements : List Entitlement
  pub plan_entitlements : List PlanEntitlement
  pub billing_events : List BillingEvent
  pub audit_log : List AuditEntry
