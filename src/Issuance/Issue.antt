-- ===== src/Issuance/Issue.antt =====
-- src/server/modules/issuance/licenses.ts and claims.ts: issuing a license in a caller's transaction
-- (`q` given). The catalog is read from the same tables, since no transaction here writes it. The
-- signer, the policy engine and the order of the keys are parameters; the claims' empty key id,
-- which the signer replaces, is left out.
use Prim.Native.String.{String}
use text.Mathlib.Text.{◌==◌ as str_eq}
use license_srv.Prelude.{
  ℕ, ◌*◌, ◌/◌, Bool, true, false, Option, none, some, List, [], ◌∷◌, map, if◌then◌else◌, ltb, find,
}
use license_srv.Store.{
  License, LicenseStatus, LeasePolicy, PlanStatus, Customer, CustomerStatus, Value, AuditValue,
  not_found, plan_not_issuable, customer_anonymized, signer_unavailable, type_error, Tx, ◌>>=◌,
  ◌>>◌, pure, throw, refuse_if, query, modify, write_audit,
}
use license_srv.Catalog.Effective.{
  EffectiveEntitlement, EffectivePlanDefinition, get_effective_plan_definition,
}
use license_srv.Issuance.Lifecycle.{is_customer, with_licenses}

abbrev pub token_version : ℕ
token_version = 1

pub record Claims : Type 0 where
  pub token_version : ℕ
  pub license_id : ℕ
  pub product_id : ℕ
  pub plan_id : ℕ
  pub customer_id : ℕ
  pub issued_at : ℕ
  pub expires_at : Option ℕ
  pub max_activations : ℕ
  pub entitlements : List (String × Value)
  pub nonce : ℕ

-- What the signer does: it returns a token, throws a `SignerError`, or throws something else.
pub data Signing : Type 0 where
  signed : ℕ → Signing
  unavailable faulted : Signing

pub record PolicyInput : Type 0 where
  pub license_id : ℕ
  pub customer_ref : ℕ
  pub decision_timestamp : ℕ
  pub plan : EffectivePlanDefinition

pub record IssueDeps : Type 0 where
  pub before : String → String → Bool
  pub signer : Option (Claims → Signing)
  pub policy : Option (PolicyInput → List (String × Value))

-- The fresh uuid and nonce, and the time in seconds.
pub record Fresh : Type 0 where
  pub id : ℕ
  pub nonce : ℕ
  pub now : ℕ

-- `expires_at` is in milliseconds.
pub record IssueInput : Type 0 where
  pub plan_id : ℕ
  pub customer_id : ℕ
  pub expires_at : Option ℕ

-- `map[key] = value`.
unfoldable pub put : String → Value → List (String × Value) → List (String × Value)
put key value [] = (key, value) ∷ []
put key value (e ∷ es) =
    let rest = put key value es in if str_eq e.0 key then (key, value) ∷ es else e ∷ rest

unfoldable pub put_all : List (String × Value) → List EffectiveEntitlement → List (String × Value)
unfolding put
put_all entries [] = entries
put_all entries (e ∷ es) = put_all (put e.key e.value entries) es

abbrev pub to_entitlement_map : List EffectiveEntitlement → List (String × Value)
to_entitlement_map entitlements = put_all [] entitlements

unfoldable pub decision : List (String × Value) → String → Option Value
decision [] key = none
decision (d ∷ ds) key = let rest = decision ds key in if str_eq d.0 key then some d.1 else rest

unfoldable pub adjusted : EffectiveEntitlement → Option Value → EffectiveEntitlement
adjusted e none = e
adjusted e (some value) = record e { value = value }

unfoldable pub decide :
    Option (PolicyInput → List (String × Value)) → PolicyInput → List EffectiveEntitlement
unfolding adjusted decision
decide none input = input.plan.entitlements
decide (some evaluate) input =
    let decisions = evaluate input in
    map (λ (e : EffectiveEntitlement). adjusted e (decision decisions e.key))
      input.plan.entitlements

unfoldable pub to_unix : Option ℕ → Option ℕ
to_unix none = none
to_unix (some at) = some (at / 1000)

-- `expiresAtUnix ? … : null`, in milliseconds.
unfoldable pub to_column : Option ℕ → Option ℕ
to_column none = none
to_column (some at) = if ltb 0 at then some (at * 1000) else none

unfoldable pub build_claims :
    Fresh → IssueInput → EffectivePlanDefinition → List (String × Value) → Claims
unfolding to_unix
build_claims fresh input eff entitlements = record {
  token_version = token_version;
  license_id = fresh.id;
  product_id = eff.product_id;
  plan_id = input.plan_id;
  customer_id = input.customer_id;
  issued_at = fresh.now;
  expires_at = to_unix input.expires_at;
  max_activations = eff.max_activations;
  entitlements = entitlements;
  nonce = fresh.nonce;
}

-- The columns that the statement does not name have the defaults of the migrations.
unfoldable pub new_license : Claims → (token : ℕ) → License
unfolding to_column
new_license claims token = record {
  id = claims.license_id;
  product_id = claims.product_id;
  plan_id = claims.plan_id;
  customer_id = claims.customer_id;
  status = LicenseStatus.active;
  expires_at = to_column claims.expires_at;
  max_activations = claims.max_activations;
  entitlements = claims.entitlements;
  license_token = token;
  transfer_count = 0;
  max_concurrent = none;
  concurrency_scope = "session";
  concurrency_overage = 0;
  lease_heartbeat_seconds = 600;
  lease_ttl_seconds = 1800;
  lease_grace_seconds = 300;
  lease_sweep_seconds = 60;
  lease_policy_on_revoke = LeasePolicy.reclaim;
  lease_policy_on_suspend = LeasePolicy.timer;
  lease_policy_on_expire = LeasePolicy.timer;
}

unfoldable pub do_insert : (actor : String) → Claims → Signing → Tx License
unfolding new_license
do_insert actor claims unavailable = throw signer_unavailable 503
do_insert actor claims faulted = throw type_error 500
do_insert actor claims (signed token) = do
  modify (λ db. with_licenses db (new_license claims token ∷ db.licenses))
  write_audit actor "license.issued" claims.license_id (
      ("planId", AuditValue.id claims.plan_id)
      ∷ ("customerId", AuditValue.id claims.customer_id)
      ∷ [])
  pure (new_license claims token)

unfoldable pub sign_and_insert :
    (actor : String)
    → Option (Claims → Signing)
    → Option (PolicyInput → List (String × Value))
    → Fresh
    → IssueInput
    → EffectivePlanDefinition
    → Tx License
unfolding do_insert build_claims decide put_all
sign_and_insert actor none policy fresh input eff = throw signer_unavailable 503
sign_and_insert actor (some sign) policy fresh input eff =
    let entitlements = decide policy (record {
      license_id = fresh.id;
      customer_ref = input.customer_id;
      decision_timestamp = fresh.now * 1000;
      plan = eff;
    }) in
    let claims = build_claims fresh input eff (to_entitlement_map entitlements) in
    do_insert actor claims (sign claims)

unfoldable pub is_erased : CustomerStatus → Bool
is_erased CustomerStatus.active = false
is_erased CustomerStatus.anonymized = true

unfoldable pub check_customer : Option Customer → Tx (Unit {0})
unfolding is_erased
check_customer none = throw not_found 404
check_customer (some c) = refuse_if (is_erased c.status) customer_anonymized 409

unfoldable pub is_withdrawn : PlanStatus → Bool
is_withdrawn PlanStatus.active = false
is_withdrawn PlanStatus.archived = true

unfoldable pub is_any : List String → Bool
is_any [] = false
is_any (key ∷ keys) = true

unfoldable pub issue_found :
    IssueDeps → (actor : String) → Fresh → IssueInput → Option EffectivePlanDefinition → Tx License
unfolding is_withdrawn is_any check_customer sign_and_insert find
issue_found deps actor fresh input none = throw not_found 404
issue_found deps actor fresh input (some eff) = do
  refuse_if (is_withdrawn eff.plan_status) plan_not_issuable 409
  refuse_if (is_any eff.archived_entitlement_keys) plan_not_issuable 409
  customer ← query (λ db. find (is_customer input.customer_id) db.customers)
  check_customer customer
  sign_and_insert actor deps.signer deps.policy fresh input eff

unfoldable pub issue_license : IssueDeps → (actor : String) → Fresh → IssueInput → Tx License
unfolding issue_found get_effective_plan_definition
issue_license deps actor fresh input = do
  eff ← query (get_effective_plan_definition deps.before input.plan_id)
  issue_found deps actor fresh input eff
