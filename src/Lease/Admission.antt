-- ===== src/Lease/Admission.antt =====
-- What an acquire of src/server/modules/lease/acquire.ts requires before it takes a seat.
use license_srv.Prelude.{
  or_left, or_right, List, ℕ, ◌≡◌, refl, sym, ap, ◌∙◌, false, not, ◌||◌, Option, none, some, find,
}
use license_srv.Store.{
  License, LicenseStatus, active, Plan, Db, ok, pure, >>-eq-ok, >>=-eq-ok, refuse_if,
  refuse_if-eq-ok, license_not_active,
}
use license_srv.Lease.Acquire.{
  LeaseDeps, LeaseLicense, map_license, AcquireInput, LicenseRef, refers_to, plan_of, with_plan,
  join_plan, Prepared, is_expired, is_active_status, prepare_key, resolve_license_for_lease,
  assert_active, assert_entitled_and_active, prepare_found, prepare,
}

-- What a prepared acquire has established of the license that it resolved.
pub record IsAdmissible (app_now : ℕ) (by : LicenseRef) (db : Db) (prep : Prepared) : Type 0 where
  pub license : License
  pub plan : Plan
  pub found : find (refers_to by) db.licenses ≡ some license
  pub on_plan : plan_of db.plans license ≡ some plan
  pub resolved : prep.license ≡ map_license license plan
  pub entitled : license.max_concurrent ≡ some prep.max_concurrent
  pub is_active : license.status ≡ active
  pub unexpired : is_expired app_now license.expires_at ≡ false

with_plan-some :
    (row : License) (plan : Option Plan) {lic : LeaseLicense}
    → with_plan row plan ≡ some lic
    → (p : Plan) × (plan ≡ some p) × (lic ≡ map_license row p)
unfolding with_plan
with_plan-some row none e = cc
with_plan-some row (some p) e = (p, refl, cc)

join_plan-some :
    (plans : List Plan) (row : Option License) {lic : LeaseLicense}
    → join_plan plans row ≡ some lic
    → (r : License) × (row ≡ some r) × (with_plan r (plan_of plans r) ≡ some lic)
unfolding join_plan
join_plan-some plans none e = cc
join_plan-some plans (some r) e = (r, refl, e)

resolve_cases :
    (by : LicenseRef) (db : Db) {lic : LeaseLicense}
    → resolve_license_for_lease by db ≡ some lic
    → (row : License) × (p : Plan) × (find (refers_to by) db.licenses ≡ some row)
      × (plan_of db.plans row ≡ some p)
      × (lic ≡ map_license row p)
unfolding resolve_license_for_lease
resolve_cases by db e =
    let (row, found, joined) = join_plan-some db.plans (find (refers_to by) db.licenses) e in
    let (p, on_plan, mapped) = with_plan-some row (plan_of db.plans row) joined in
    (row, p, found, on_plan, mapped)

pub active_of : (s : LicenseStatus) → not (is_active_status s) ≡ false → s ≡ active
active_of active e = refl
active_of LicenseStatus.suspended e = cc
active_of LicenseStatus.revoked e = cc

module _ (app_now : ℕ) (lic : LeaseLicense) (db : Db) where
  assert_active_ok :
      (cap : Option ℕ) {m : ℕ} {db' : Db}
      → assert_active app_now lic cap db ≡ ok (m, db')
      → (cap ≡ some m)
        × (lic.status ≡ active)
        × (is_expired app_now lic.expires_at ≡ false)
        × (db' ≡ db)
  unfolding assert_active
  assert_active_ok none e = cc
  assert_active_ok (some n) e =
      let (u, mid, refused, rest) =
        >>-eq-ok
          (refuse_if (not (is_active_status lic.status) || is_expired app_now lic.expires_at)
            license_not_active 409)
          (pure n) db e in
      let (c, same) =
        refuse_if-eq-ok (not (is_active_status lic.status) || is_expired app_now lic.expires_at)
          license_not_active 409 db refused in
      let st : lic.status ≡ active =
        active_of lic.status (or_left _ (is_expired app_now lic.expires_at) c) in
      (cc, st, or_right (not (is_active_status lic.status)) _ c, cc)

  pub prepare_key_ok :
      (n : ℕ) (key : Option ℕ) {prep : Prepared} {db' : Db}
      → prepare_key lic n key db ≡ ok (prep, db')
      → (prep.license ≡ lic) × (prep.max_concurrent ≡ n) × (key ≡ some prep.holder_key) × (db' ≡ db)
  unfolding prepare_key
  prepare_key_ok n none e = cc
  prepare_key_ok n (some k) e = (cc, cc, cc, cc)

prepare_found-IsAdmissible :
    (deps : LeaseDeps) (app_now : ℕ) (input : AcquireInput) (db db' : Db)
    (found : Option LeaseLicense) {prep : Prepared}
    → resolve_license_for_lease input.license db ≡ found
    → prepare_found deps app_now input found db ≡ ok (prep, db')
    → IsAdmissible app_now input.license db prep × (db' ≡ db)
unfolding prepare_found assert_entitled_and_active map_license
prepare_found-IsAdmissible deps app_now input db db' none r e = cc
prepare_found-IsAdmissible deps app_now input db db' (some lic) r e =
    let (n, mid, entitled, keyed) = >>=-eq-ok (assert_entitled_and_active app_now lic) _ db e in
    let (cap, st, fresh, same) = assert_active_ok app_now lic db lic.max_concurrent entitled in
    let (l, m, k, same') = prepare_key_ok app_now lic mid n _ keyed in
    let (row, p, found, on_plan, mapped) = resolve_cases input.license db r in
    (
      record {
        license = row;
        plan = p;
        found = found;
        on_plan = on_plan;
        resolved = cc;
        entitled =
            sym (ap (λ (x : LeaseLicense). x.max_concurrent) mapped)
            ∙ cap
            ∙ ap (λ i. some i) (sym m);
        is_active = sym (ap (λ (x : LeaseLicense). x.status) mapped) ∙ st;
        unexpired = ap (λ (x : LeaseLicense). is_expired app_now x.expires_at) (sym mapped) ∙ fresh;
      },
      cc,
    )

pub prepare-IsAdmissible :
    (deps : LeaseDeps) (app_now : ℕ) (input : AcquireInput) (db db' : Db) {prep : Prepared}
    → prepare deps app_now input db ≡ ok (prep, db')
    → IsAdmissible app_now input.license db prep × (db' ≡ db)
unfolding prepare
prepare-IsAdmissible deps app_now input db db' e =
    prepare_found-IsAdmissible deps app_now input db db'
      (resolve_license_for_lease input.license db) refl e
