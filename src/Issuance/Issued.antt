-- ===== src/Issuance/Issued.antt =====
-- What an issue that returns has checked and stored: `issueLicense` of
-- src/server/modules/issuance/licenses.ts over the plan of modules/catalog/effective.ts.
use Prim.Native.String.{String}
use license_srv.Prelude.{
  ◌*◌, ◌≡◌, refl, ◌∙◌, false, Option, none, some, List, [], ◌∷◌, inl, inr, find, Option-cases,
}
use license_srv.Store.{
  License, LicenseStatus, PlanStatus, Customer, CustomerStatus, Value, Db, ok, Tx, ◌>>=◌, ◌>>◌,
  query, refuse_if, plan_not_issuable, customer_anonymized, >>-eq-ok, refuse_if-eq-ok,
}
use license_srv.Catalog.Effective.{EffectivePlanDefinition, get_effective_plan_definition}
use license_srv.Issuance.Lifecycle.{is_customer}
use license_srv.Issuance.Issue.{
  Claims, Signing, PolicyInput, IssueDeps, Fresh, IssueInput, build_claims, to_entitlement_map,
  decide, new_license, do_insert, sign_and_insert, is_erased, check_customer, is_withdrawn, is_any,
  issue_found, issue_license,
}

-- The stored license is the claims' and is in front of the others.
abbrev pub Stored : EffectivePlanDefinition → IssueInput → Db → License → Db → Type 0
Stored eff input db l db' =
    (l.status ≡ LicenseStatus.active)
    × (l.plan_id ≡ input.plan_id)
    × (l.customer_id ≡ input.customer_id)
    × (l.max_activations ≡ eff.max_activations)
    × (db'.licenses ≡ l ∷ db.licenses)

do_insert_ok :
    (actor : String) (claims : Claims) (s : Signing) (db db' : Db) (l : License)
    → do_insert actor claims s db ≡ ok (l, db')
    → (l.status ≡ LicenseStatus.active)
      × (l.plan_id ≡ claims.plan_id)
      × (l.customer_id ≡ claims.customer_id)
      × (l.max_activations ≡ claims.max_activations)
      × (db'.licenses ≡ l ∷ db.licenses)
unfolding do_insert new_license
do_insert_ok actor claims Signing.unavailable db db' l h = cc
do_insert_ok actor claims Signing.faulted db db' l h = cc
do_insert_ok actor claims (Signing.signed token) db db' l h = (cc, cc, cc, cc, cc)

sign_and_insert-Stored :
    (actor : String) (signer : Option (Claims → Signing))
    (policy : Option (PolicyInput → List (String × Value))) (fresh : Fresh) (input : IssueInput)
    (eff : EffectivePlanDefinition) (db db' : Db) (l : License)
    → sign_and_insert actor signer policy fresh input eff db ≡ ok (l, db')
    → Stored eff input db l db'
unfolding sign_and_insert build_claims
sign_and_insert-Stored actor none policy fresh input eff db db' l h = cc
sign_and_insert-Stored actor (some sign) policy fresh input eff db db' l h =
    let claims = build_claims fresh input eff (
      to_entitlement_map (
        decide policy (record {
          license_id = fresh.id;
          customer_ref = input.customer_id;
          decision_timestamp = fresh.now * 1000;
          plan = eff;
        }))) in
    do_insert_ok actor claims (sign claims) db db' l h

not_withdrawn : (s : PlanStatus) → is_withdrawn s ≡ false → s ≡ PlanStatus.active
unfolding is_withdrawn
not_withdrawn PlanStatus.active h = refl
not_withdrawn PlanStatus.archived h = cc

not_any : (keys : List String) → is_any keys ≡ false → keys ≡ []
unfolding is_any
not_any [] h = refl
not_any (key ∷ keys) h = cc

not_erased : (s : CustomerStatus) → is_erased s ≡ false → s ≡ CustomerStatus.active
unfolding is_erased
not_erased CustomerStatus.active h = refl
not_erased CustomerStatus.anonymized h = cc

check_customer_ok :
    (c : Option Customer) (db db' : Db) (u : Unit {0})
    → check_customer c db ≡ ok (u, db')
    → (k : Customer) × (c ≡ some k) × (k.status ≡ CustomerStatus.active) × (db' ≡ db)
unfolding check_customer
check_customer_ok none db db' u h = cc
check_customer_ok (some c) db db' u h =
    let (e, same) = refuse_if-eq-ok (is_erased c.status) customer_anonymized 409 db h in
    (c, refl, not_erased c.status e, same)

-- What has been checked of the plan and the customer.
abbrev pub Issuable : EffectivePlanDefinition → IssueInput → Db → Type 0
Issuable eff input db =
    (eff.plan_status ≡ PlanStatus.active)
    × (eff.archived_entitlement_keys ≡ [])
    × ((k : Customer) × (find (is_customer input.customer_id) db.customers ≡ some k)
        × (k.status ≡ CustomerStatus.active))

issue_found_ok :
    (deps : IssueDeps) (actor : String) (fresh : Fresh) (input : IssueInput)
    (eff : EffectivePlanDefinition) (db db' : Db) (l : License)
    → issue_found deps actor fresh input (some eff) db ≡ ok (l, db')
    → Issuable eff input db × Stored eff input db l db'
unfolding issue_found
issue_found_ok deps actor fresh input eff db db' l h =
    let rest : Tx License =
      query (λ db. find (is_customer input.customer_id) db.customers) >>= (λ (c : Option Customer).
        check_customer c >> sign_and_insert actor deps.signer deps.policy fresh input eff) in
    let (u1, db1, first, more) =
      >>-eq-ok (refuse_if (is_withdrawn eff.plan_status) plan_not_issuable 409)
        (refuse_if (is_any eff.archived_entitlement_keys) plan_not_issuable 409 >> rest) db h in
    let (active, same1) =
      refuse_if-eq-ok (is_withdrawn eff.plan_status) plan_not_issuable 409 db first in
    let (u2, db2, second, last) =
      >>-eq-ok (refuse_if (is_any eff.archived_entitlement_keys) plan_not_issuable 409) rest db1
        more in
    let (empty, same2) =
      refuse_if-eq-ok (is_any eff.archived_entitlement_keys) plan_not_issuable 409 db1 second in
    let here : db2 ≡ db = same2 ∙ same1 in
    let (u3, db3, checked, done) =
      >>-eq-ok (check_customer (find (is_customer input.customer_id) db.customers))
        (sign_and_insert actor deps.signer deps.policy fresh input eff) db (rw here at last) in
    let (k, found, unerased, same3) =
      check_customer_ok (find (is_customer input.customer_id) db.customers) db db3 u3 checked in
    (
      (
        not_withdrawn eff.plan_status active,
        not_any eff.archived_entitlement_keys empty,
        (k, found, unerased),
      ),
      sign_and_insert-Stored actor deps.signer deps.policy fresh input eff db db' l
          (rw same3 at done),
    )

issue_absent :
    (deps : IssueDeps) (actor : String) (fresh : Fresh) (input : IssueInput) (db db' : Db)
    (l : License) (found : Option EffectivePlanDefinition)
    → found ≡ none
    → issue_found deps actor fresh input found db ≡ ok (l, db')
    → ⊥
unfolding issue_found
issue_absent deps actor fresh input db db' l none e h = cc
issue_absent deps actor fresh input db db' l (some eff) e h = cc

-- An issue that returns was for an active plan with no archived entitlement and for a customer that
-- exists and has not been erased. The license is active, for that plan and customer, has the seats
-- of the plan, and is stored beside the others, which are as before.
pub issue_license_ok :
    (deps : IssueDeps) (actor : String) (fresh : Fresh) (input : IssueInput) (db db' : Db)
    (l : License)
    → issue_license deps actor fresh input db ≡ ok (l, db')
    → (eff : EffectivePlanDefinition) × (get_effective_plan_definition deps.before input.plan_id db
        ≡ some eff)
      × Issuable eff input db
      × Stored eff input db l db'
unfolding issue_license
issue_license_ok deps actor fresh input db db' l h =
    elim (Option-cases (get_effective_plan_definition deps.before input.plan_id db)) [
      | inl absent ↦ absurd (
          issue_absent deps actor fresh input db db' l
            (get_effective_plan_definition deps.before input.plan_id db) absent h)
      | inr (eff, e) ↦
          let (checked, stored) = issue_found_ok deps actor fresh input eff db db' l (rw e at h) in
          (eff, e, checked, stored)
    ]
