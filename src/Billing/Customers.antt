-- ===== src/Billing/Customers.antt =====
-- src/server/modules/billing/lifecycle.ts and index.ts: what a handler of an event is given,
-- and the customer of an event.
use Prim.Native.String.{String}
use license_srv.Prelude.{ℕ, Bool, false, ◌&&◌, Option, none, some, List, [], ◌∷◌, ◌==◌, find}
use license_srv.Store.{
  Provider, Customer, CustomerRef, CustomerStatus, Db, AuditValue, Tx, ◌>>=◌, ◌>>◌, pure, query,
  modify,
}
use license_srv.Catalog.Effective.{EffectivePlanDefinition}
use license_srv.Issuance.Issue.{IssueDeps, Fresh}
use license_srv.Billing.Events.{CanonicalEvent, BillingConfig}
use license_srv.Billing.Subscription.{same_provider}

abbrev pub webhook_actor : String
webhook_actor = "billing-webhook"

-- `actor` and `source` of a `MutationContext`, absent for a webhook.
pub record MutationContext : Type 0 where
  pub actor : Option String
  pub source : Option (List (String × AuditValue))

pub data ConnectionStatus : Type 0 where
  active disabled : ConnectionStatus

-- `ResolvedConnection`, less its secrets; `plan_map` maps a provider's plan key to a plan.
pub record ResolvedConnection : Type 0 where
  pub provider : Provider
  pub status : ConnectionStatus
  pub plan_map : List (String × ℕ)
  pub default_grace_seconds : ℕ
  pub grace_overrides : List (String × ℕ)

pub record BillingDeps : Type 0 where
  pub config : BillingConfig
  pub effective : ℕ → Db → Option EffectivePlanDefinition
  pub issue : IssueDeps

-- The uuids that a provision draws, with the issue's own.
pub record Draw : Type 0 where
  pub customer_id : ℕ
  pub subscription_id : ℕ
  pub license : Fresh

unfoldable pub actor_of : MutationContext → String
actor_of ctx = elim ctx.actor [ none ↦ webhook_actor | some actor ↦ actor ]

unfoldable pub audit_source : MutationContext → CanonicalEvent → List (String × AuditValue)
audit_source ctx event = elim ctx.source [
  | none ↦ ("providerEventId", AuditValue.id event.provider_event_id) ∷ []
  | some source ↦ source
]

pub record ProvisionResult : Type 0 where
  pub applied : Bool
  pub subscription_id : Option ℕ
  pub license_id : Option ℕ
  pub reason : Option String
  pub duplicate : Bool

unfoldable pub is_billed : Provider → ℕ → CustomerRef → Bool
unfolding same_provider
is_billed provider external_id (CustomerRef.named ref) = false
is_billed provider external_id (CustomerRef.billed p e) =
    same_provider p provider && e == external_id

unfoldable pub upsert_customer : (id : ℕ) → Provider → ℕ → Option Customer → Tx ℕ
upsert_customer id provider external_id (some c) = pure c.id
upsert_customer id provider external_id none = do
  modify (λ db. record db {
    customers =
        record {
          id = id;
          ref = CustomerRef.billed provider external_id;
          status = CustomerStatus.active;
        }
        ∷ db.customers;
  })
  pure id

unfoldable pub resolve_customer : (id : ℕ) → Provider → Option ℕ → Tx (Option ℕ)
unfolding is_billed upsert_customer find
resolve_customer id provider none = pure none
resolve_customer id provider (some external_id) = do
  found ← query (λ db. find (λ (c : Customer). is_billed provider external_id c.ref) db.customers)
  customer_id ← upsert_customer id provider external_id found
  pure (some customer_id)
