-- ===== src/Billing/Writes.antt =====
-- What the parts of a provision write: src/server/modules/billing/lifecycle.ts, with issuance/licenses.ts.
use Prim.Native.String.{String}
use license_srv.Prelude.{ℕ, ◌*◌, ◌≡◌, refl, ap, ◌∙◌, Option, none, some, List, arith, find}
use license_srv.Store.{
  Customer, Subscription, Provider, Db, AuditValue, BillingEvent, Value, Result, ok, err, Tx, ◌>>=◌,
  ◌>>◌, pure, query, write_audit, plan_not_issuable, >>=-eq-ok, Keeps, bind-Keeps, seq-Keeps,
  pure-Keeps, query-Keeps, throw-Keeps, refuse_if-Keeps, modify-Keeps,
}
use license_srv.Catalog.Effective.{EffectivePlanDefinition, get_effective_plan_definition}
use license_srv.Issuance.Lifecycle.{is_customer}
use license_srv.Issuance.Issue.{
  build_claims, to_entitlement_map, decide, Claims, Signing, PolicyInput, IssueDeps, Fresh,
  IssueInput, do_insert, sign_and_insert, check_customer, is_withdrawn, is_any, issue_found,
  issue_license,
}
use license_srv.Billing.Subscription.{LinkSubscriptionInput, link_subscription}
use license_srv.Billing.Lifecycle.{catch_duplicate, link_or_duplicate}
use license_srv.Billing.Customers.{upsert_customer, resolve_customer, is_billed}

abbrev pub ledger : Db → List BillingEvent
ledger db = db.billing_events

pub audit-Keeps :
    (actor action : String) (target : ℕ) (after : List (String × AuditValue))
    → Keeps ledger (write_audit actor action target after)
audit-Keeps actor action target after db b db' h = cc

do_insert-Keeps :
    (actor : String) (claims : Claims) (s : Signing) → Keeps ledger (do_insert actor claims s)
unfolding do_insert
do_insert-Keeps actor claims Signing.unavailable = throw-Keeps ledger _ _
do_insert-Keeps actor claims Signing.faulted = throw-Keeps ledger _ _
do_insert-Keeps actor claims (Signing.signed token) =
    seq-Keeps ledger _ _ (modify-Keeps ledger _ (λ db. refl)) (
      seq-Keeps ledger _ _ (audit-Keeps actor "license.issued" claims.license_id _)
        (pure-Keeps ledger _))

check_customer-Keeps : (c : Option Customer) → Keeps ledger (check_customer c)
unfolding check_customer
check_customer-Keeps none = throw-Keeps ledger _ _
check_customer-Keeps (some c) = refuse_if-Keeps ledger _ _ _

sign_and_insert-Keeps :
    (actor : String) (signer : Option (Claims → Signing))
    (policy : Option (PolicyInput → List (String × Value))) (fresh : Fresh) (input : IssueInput)
    (eff : EffectivePlanDefinition)
    → Keeps ledger (sign_and_insert actor signer policy fresh input eff)
unfolding sign_and_insert
sign_and_insert-Keeps actor none policy fresh input eff = throw-Keeps ledger _ _
sign_and_insert-Keeps actor (some sign) policy fresh input eff =
    let claims = build_claims fresh input eff (
      to_entitlement_map (
        decide policy (record {
          license_id = fresh.id;
          customer_ref = input.customer_id;
          decision_timestamp = fresh.now * 1000;
          plan = eff;
        }))) in
    do_insert-Keeps actor claims (sign claims)

issue_found-Keeps :
    (deps : IssueDeps) (actor : String) (fresh : Fresh) (input : IssueInput)
    (eff : Option EffectivePlanDefinition)
    → Keeps ledger (issue_found deps actor fresh input eff)
unfolding issue_found
issue_found-Keeps deps actor fresh input none = throw-Keeps ledger _ _
issue_found-Keeps deps actor fresh input (some eff) =
    seq-Keeps ledger _ _
      (refuse_if-Keeps ledger (is_withdrawn eff.plan_status) plan_not_issuable 409)
      (seq-Keeps ledger _ _
        (refuse_if-Keeps ledger (is_any eff.archived_entitlement_keys) plan_not_issuable 409)
        (bind-Keeps ledger (query (λ db. find (is_customer input.customer_id) db.customers))
          (λ (c : Option Customer).
            check_customer c >> sign_and_insert actor deps.signer deps.policy fresh input eff)
          (query-Keeps ledger _)
          (λ c.
            seq-Keeps ledger _ _ (check_customer-Keeps c)
              (sign_and_insert-Keeps actor deps.signer deps.policy fresh input eff))))

pub issue_license-Keeps :
    (deps : IssueDeps) (actor : String) (fresh : Fresh) (input : IssueInput)
    → Keeps ledger (issue_license deps actor fresh input)
unfolding issue_license
issue_license-Keeps deps actor fresh input =
    bind-Keeps ledger (query (get_effective_plan_definition deps.before input.plan_id))
      (issue_found deps actor fresh input) (query-Keeps ledger _)
      (issue_found-Keeps deps actor fresh input)

link_subscription-Keeps :
    (id : ℕ) (input : LinkSubscriptionInput) → Keeps ledger (link_subscription id input)
unfolding link_subscription
link_subscription-Keeps id input db s db' h = ground arith

catch_duplicate_keeps :
    (db : Db) (r : Result (Subscription × Db)) (o : Option Subscription) (db' : Db)
    → ((s : Subscription) (mid : Db) → r ≡ ok (s, mid) → ledger mid ≡ ledger db)
    → catch_duplicate db r ≡ ok (o, db')
    → ledger db' ≡ ledger db
unfolding catch_duplicate
catch_duplicate_keeps db (ok (s, mid)) o db' k h =
    let e : db' ≡ mid = cc in ap ledger e ∙ k s mid refl
catch_duplicate_keeps db (err x) o db' k h = ground arith

pub link_or_duplicate-Keeps :
    (id : ℕ) (input : LinkSubscriptionInput) → Keeps ledger (link_or_duplicate id input)
unfolding link_or_duplicate
link_or_duplicate-Keeps id input db o db' h =
    catch_duplicate_keeps db (link_subscription id input db) o db'
      (λ s mid e. link_subscription-Keeps id input db s mid e) h

upsert_customer-Keeps :
    (id : ℕ) (p : Provider) (e : ℕ) (c : Option Customer) → Keeps ledger (upsert_customer id p e c)
unfolding upsert_customer
upsert_customer-Keeps id p e none =
    seq-Keeps ledger _ _ (modify-Keeps ledger _ (λ db. refl)) (pure-Keeps ledger _)
upsert_customer-Keeps id p e (some c) = pure-Keeps ledger _

pub resolve_customer-Keeps :
    (id : ℕ) (p : Provider) (e : Option ℕ) → Keeps ledger (resolve_customer id p e)
unfolding resolve_customer
resolve_customer-Keeps id p none = pure-Keeps ledger _
resolve_customer-Keeps id p (some e) =
    bind-Keeps ledger (query (λ db. find (λ (c : Customer). is_billed p e c.ref) db.customers))
      (λ (c : Option Customer).
        upsert_customer id p e c >>= (λ (i : ℕ). pure {A = Option ℕ} (some i)))
      (query-Keeps ledger _)
      (λ c.
        bind-Keeps ledger (upsert_customer id p e c) (λ (i : ℕ). pure {A = Option ℕ} (some i))
          (upsert_customer-Keeps id p e c) (λ i. pure-Keeps ledger _))

is_some_id :
    (m : Tx ℕ) (db mid : Db)
    → (m >>= (λ (i : ℕ). pure {A = Option ℕ} (some i))) db ≡ ok (none, mid)
    → ⊥
is_some_id m db mid h =
    let (i, db1, first, last) = >>=-eq-ok m (λ (i : ℕ). pure {A = Option ℕ} (some i)) db h in cc

-- Without a customer id in the event, nothing is written.
pub resolve_customer-none :
    (id : ℕ) (p : Provider) (e : Option ℕ) (db mid : Db)
    → resolve_customer id p e db ≡ ok (none, mid)
    → mid ≡ db
unfolding resolve_customer
resolve_customer-none id p none db mid h = cc
resolve_customer-none id p (some e) db mid h = absurd (
    is_some_id (upsert_customer id p e (find (λ (c : Customer). is_billed p e c.ref) db.customers))
      db mid h)
