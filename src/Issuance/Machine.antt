-- ===== src/Issuance/Machine.antt =====
-- The abstract state machine of a license, and the refinement of it by
-- src/server/modules/issuance/lifecycle.ts.
use Prim.Native.String.{String}
use license_srv.Prelude.{
  none, ℕ, ◌≡◌, refl, ap, ◌∙◌, Bool, true, false, some, List, [], ◌∷◌, arith, leb, ◌==◌, find,
  any_by, update_where, find-update_where, find-eq-some,
}
use license_srv.Store.{
  >>=-err, License, LicenseStatus, active, suspended, revoked, Db, AuditValue, Code, not_found,
  invalid_transition, transfer_limit_exceeded, Result, ok, err, Tx, >>=-ok,
}
use license_srv.Lease.Acquire.{is_license}
use license_srv.Issuance.Lifecycle.{
  lock_found, with_licenses, find_license, lock_license, map_license_row, read_license,
  update_returning, set_status, move, revoke_from, revoke_license, suspend_from, suspend_license,
  reinstate_from, reinstate_license, is_customer, transferred, transfer_to, transfer_checked,
  transfer_license, is_terminal,
}

pub data Action : Type 0 where
  revoke suspend reinstate : Action
  transfer : (transfer_limit new_customer_id : ℕ) → Action

-- What an action does to a license in a given status: nothing, a change, or a refusal.
pub data Verdict : Type 0 where
  keep : Verdict
  change : (action : String) → List (String × AuditValue) → (License → License) → Verdict
  refuse : Code → ℕ → Verdict

unfoldable pub transfer_verdict : (customer : ℕ) → (terminal at_limit known : Bool) → Verdict
transfer_verdict customer true at_limit known = refuse invalid_transition 409
transfer_verdict customer false true known = refuse transfer_limit_exceeded 409
transfer_verdict customer false false false = refuse not_found 404
transfer_verdict customer false false true =
    change "license.transferred" (("customerId", AuditValue.id customer) ∷ [])
      (transferred customer)

-- The table of the transitions. `known` says whether the customer of a transfer exists.
unfoldable pub verdict : Action → LicenseStatus → (transfer_count : ℕ) → (known : Bool) → Verdict
unfolding transfer_verdict
verdict revoke revoked n known = keep
verdict revoke _ n known = change "license.revoked" [] (set_status revoked)
verdict suspend active n known = change "license.suspended" [] (set_status suspended)
verdict suspend _ n known = refuse invalid_transition 409
verdict reinstate suspended n known = change "license.reinstated" [] (set_status active)
verdict reinstate _ n known = refuse invalid_transition 409
verdict (transfer limit customer) s n known =
    transfer_verdict customer (is_terminal s) (leb limit n) known

unfoldable pub run : (actor : String) → ℕ → Action → Tx License
unfolding revoke_license suspend_license reinstate_license transfer_license
run actor id revoke = revoke_license actor id
run actor id suspend = suspend_license actor id
run actor id reinstate = reinstate_license actor id
run actor id (transfer limit customer) = transfer_license actor id limit customer

-- A verdict carried out on the license `lic`.
unfoldable pub outcome : (actor : String) → ℕ → Db → License → Verdict → Result (License × Db)
outcome actor id db lic keep = ok (lic, db)
outcome actor id db lic (refuse code status) = err (record { code = code; status = status })
outcome actor id db lic (change action after set) = ok (
  set lic,
  record db {
    licenses = update_where (is_license id) set db.licenses;
    audit_log =
        record { actor = actor; action = action; target = id; after = after } ∷ db.audit_log;
  },
)

abbrev pub is_known : Action → Db → Bool
is_known (transfer limit customer) db = any_by (is_customer customer) db.customers
is_known _ db = true

-- A change keeps the id of the license.
KeepsId : (License → License) → Type 0
KeepsId set = (lic : License) → (set lic).id ≡ lic.id

read_found :
    (id : ℕ) (db : Db) (lic : License)
    → find_license id db ≡ some lic
    → read_license id db ≡ ok (lic, db)
unfolding read_license map_license_row
read_found id db lic found = ground arith

module _ (actor : String) (id : ℕ) (db : Db) (lic : License)
    (found : find_license id db ≡ some lic) where
  updated :
      (set : License → License)
      → ((l : License) → (set l).id ≡ l.id)
      → find (is_license id) (update_where (is_license id) set db.licenses) ≡ some (set lic)
  updated set keeps = rw (find-eq-some (is_license id) db.licenses found) at (
      find-update_where (is_license id) (is_license id) set db.licenses
        (λ l. ap (λ n. n == id) (keeps l)) found)

  move-outcome :
      (action : String) (after : List (String × AuditValue)) (set : License → License)
      → ((l : License) → (set l).id ≡ l.id)
      → move actor action id after set db ≡ outcome actor id db lic (change action after set)
  unfolding move outcome update_returning
  move-outcome action after set keeps = >>=-ok (update_returning id set) _ db (
      read_found id (with_licenses db (update_where (is_license id) set db.licenses)) (set lic)
        (updated set keeps))

  lock_license_found :
      lock_license id db
      ≡ ok (record { status = lic.status; transfer_count = lic.transfer_count }, db)
  unfolding lock_license lock_found
  lock_license_found = rw found

  revoke_from-outcome :
      (s : LicenseStatus) (n : ℕ) (known : Bool)
      → revoke_from actor id s db ≡ outcome actor id db lic (verdict revoke s n known)
  unfolding revoke_from verdict outcome
  revoke_from-outcome active n known =
      move-outcome "license.revoked" [] (set_status revoked) (λ l. refl)
  revoke_from-outcome suspended n known =
      move-outcome "license.revoked" [] (set_status revoked) (λ l. refl)
  revoke_from-outcome revoked n known = read_found id db lic found

  suspend_from-outcome :
      (s : LicenseStatus) (n : ℕ) (known : Bool)
      → suspend_from actor id s db ≡ outcome actor id db lic (verdict suspend s n known)
  unfolding suspend_from verdict outcome
  suspend_from-outcome active n known =
      move-outcome "license.suspended" [] (set_status suspended) (λ l. refl)
  suspend_from-outcome suspended n known = refl
  suspend_from-outcome revoked n known = refl

  reinstate_from-outcome :
      (s : LicenseStatus) (n : ℕ) (known : Bool)
      → reinstate_from actor id s db ≡ outcome actor id db lic (verdict reinstate s n known)
  unfolding reinstate_from verdict outcome
  reinstate_from-outcome active n known = refl
  reinstate_from-outcome suspended n known =
      move-outcome "license.reinstated" [] (set_status active) (λ l. refl)
  reinstate_from-outcome revoked n known = refl

  transfer_to-outcome :
      (customer : ℕ) (known : Bool)
      → transfer_to actor id customer known db
        ≡ outcome actor id db lic (transfer_verdict customer false false known)
  unfolding transfer_to transfer_verdict outcome
  transfer_to-outcome customer false = refl
  transfer_to-outcome customer true =
      move-outcome "license.transferred" (("customerId", AuditValue.id customer) ∷ [])
        (transferred customer) (λ l. refl)

  transfer_checked-outcome :
      (customer : ℕ) (terminal at_limit : Bool)
      → transfer_checked actor id customer terminal at_limit db
        ≡ outcome actor id db lic (
            transfer_verdict customer terminal at_limit
              (any_by (is_customer customer) db.customers))
  unfolding transfer_checked transfer_verdict outcome
  transfer_checked-outcome customer true at_limit = refl
  transfer_checked-outcome customer false true = refl
  transfer_checked-outcome customer false false =
      transfer_to-outcome customer (any_by (is_customer customer) db.customers)

  -- Each lifecycle action on a license that exists does what the table of the transitions says,
  -- on every branch: it changes that license alone and appends one record, or leaves the tables,
  -- or is refused with the table's code.
  pub run_refines :
      (action : Action)
      → run actor id action db
        ≡ outcome actor id db lic
            (verdict action lic.status lic.transfer_count (is_known action db))
  unfolding run verdict revoke_license suspend_license reinstate_license transfer_license
  run_refines revoke =
      >>=-ok (lock_license id) _ db lock_license_found
      ∙ revoke_from-outcome lic.status lic.transfer_count true
  run_refines suspend =
      >>=-ok (lock_license id) _ db lock_license_found
      ∙ suspend_from-outcome lic.status lic.transfer_count true
  run_refines reinstate =
      >>=-ok (lock_license id) _ db lock_license_found
      ∙ reinstate_from-outcome lic.status lic.transfer_count true
  run_refines (transfer limit customer) =
      >>=-ok (lock_license id) _ db lock_license_found
      ∙ transfer_checked-outcome customer (is_terminal lic.status) (leb limit lic.transfer_count)

lock_license_absent :
    (id : ℕ) (db : Db)
    → find_license id db ≡ none
    → lock_license id db ≡ err (record { code = not_found; status = 404 })
unfolding lock_license lock_found
lock_license_absent id db absent = rw absent

-- Each lifecycle action on an unknown license is refused with 404.
pub run_absent :
    (actor : String) (id : ℕ) (db : Db) (action : Action)
    → find_license id db ≡ none
    → run actor id action db ≡ err (record { code = not_found; status = 404 })
unfolding run revoke_license suspend_license reinstate_license transfer_license
run_absent actor id db revoke absent =
    >>=-err (lock_license id) _ db (lock_license_absent id db absent)
run_absent actor id db suspend absent =
    >>=-err (lock_license id) _ db (lock_license_absent id db absent)
run_absent actor id db reinstate absent =
    >>=-err (lock_license id) _ db (lock_license_absent id db absent)
run_absent actor id db (transfer limit customer) absent =
    >>=-err (lock_license id) _ db (lock_license_absent id db absent)
