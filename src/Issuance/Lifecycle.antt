-- ===== src/Issuance/Lifecycle.antt =====
-- src/server/modules/issuance/lifecycle.ts: the state machine of a license. Each action is a step of
-- a transaction, which a caller runs in its own (billing) or under `withTenant`.
use license_srv.Prelude.{
  ℕ, Bool, true, false, Option, none, some, List, [], ◌∷◌, leb, find, any_by, update_where, ◌+◌,
  ◌==◌,
}
use license_srv.Store.{
  License, LicenseStatus, active, suspended, revoked, Customer, Db, AuditValue, not_found,
  invalid_transition, transfer_limit_exceeded, type_error, Tx, ◌>>=◌, ◌>>◌, pure, throw, refuse_if,
  query, modify, write_audit,
}
use license_srv.Lease.Acquire.{is_license}
use Prim.Native.String.{String}

pub record StatusRow : Type 0 where
  pub status : LicenseStatus
  pub transfer_count : ℕ

unfoldable pub lock_found : Option License → Tx StatusRow
lock_found none = throw not_found 404
lock_found (some lic) = pure (record { status = lic.status; transfer_count = lic.transfer_count })

abbrev pub with_licenses : Db → List License → Db
with_licenses db licenses = record db { licenses = licenses }

abbrev pub find_license : ℕ → Db → Option License
find_license id db = find (is_license id) db.licenses

unfoldable pub lock_license : ℕ → Tx StatusRow
unfolding lock_found
lock_license id = do found ← query (find_license id); lock_found found

-- `mapLicenseRow(r.rows[0])`: a row that is not there is a fault.
unfoldable pub map_license_row : Option License → Tx License
map_license_row none = throw type_error 500
map_license_row (some lic) = pure lic

unfoldable pub read_license : ℕ → Tx License
unfolding map_license_row
read_license id = do found ← query (find_license id); map_license_row found

unfoldable pub update_returning : ℕ → (License → License) → Tx License
unfolding read_license
update_returning id set = do
  modify (λ db. with_licenses db (update_where (is_license id) set db.licenses))
  read_license id

abbrev pub set_status : LicenseStatus → License → License
set_status status lic = record lic { status = status }

-- The update of a transition that is allowed, and its record.
unfoldable pub move :
    (actor action : String) → ℕ → List (String × AuditValue) → (License → License) → Tx License
unfolding update_returning
move actor action id after set = do
  license ← update_returning id set
  write_audit actor action id after
  pure license

unfoldable pub revoke_from : (actor : String) → ℕ → LicenseStatus → Tx License
unfolding move read_license
revoke_from actor id revoked = read_license id
revoke_from actor id _ = move actor "license.revoked" id [] (set_status revoked)

unfoldable pub revoke_license : (actor : String) → ℕ → Tx License
unfolding lock_license revoke_from
revoke_license actor id = do cur ← lock_license id; revoke_from actor id cur.status

unfoldable pub suspend_from : (actor : String) → ℕ → LicenseStatus → Tx License
unfolding move
suspend_from actor id active = move actor "license.suspended" id [] (set_status suspended)
suspend_from actor id _ = throw invalid_transition 409

unfoldable pub suspend_license : (actor : String) → ℕ → Tx License
unfolding lock_license suspend_from
suspend_license actor id = do cur ← lock_license id; suspend_from actor id cur.status

unfoldable pub reinstate_from : (actor : String) → ℕ → LicenseStatus → Tx License
unfolding move
reinstate_from actor id suspended = move actor "license.reinstated" id [] (set_status active)
reinstate_from actor id _ = throw invalid_transition 409

unfoldable pub reinstate_license : (actor : String) → ℕ → Tx License
unfolding lock_license reinstate_from
reinstate_license actor id = do cur ← lock_license id; reinstate_from actor id cur.status

abbrev pub is_customer : ℕ → Customer → Bool
is_customer id c = Customer.id c == id

abbrev pub transferred : ℕ → License → License
transferred new_customer_id lic = record lic {
  customer_id = new_customer_id;
  transfer_count = lic.transfer_count + 1;
}

unfoldable pub transfer_to :
    (actor : String) → ℕ → (new_customer_id : ℕ) → (known : Bool) → Tx License
unfolding move
transfer_to actor id new_customer_id false = throw not_found 404
transfer_to actor id new_customer_id true =
    move actor "license.transferred" id (("customerId", AuditValue.id new_customer_id) ∷ [])
      (transferred new_customer_id)

abbrev pub is_terminal : LicenseStatus → Bool
is_terminal revoked = true
is_terminal _ = false

-- What follows the lock, for a license that is revoked or not and at its limit or not.
unfoldable pub transfer_checked :
    (actor : String) → ℕ → (new_customer_id : ℕ) → (terminal at_limit : Bool) → Tx License
unfolding transfer_to
transfer_checked actor id new_customer_id terminal at_limit = do
  refuse_if terminal invalid_transition 409
  refuse_if at_limit transfer_limit_exceeded 409
  known ← query (λ db. any_by (is_customer new_customer_id) db.customers)
  transfer_to actor id new_customer_id known

unfoldable pub transfer_license :
    (actor : String) → ℕ → (transfer_limit new_customer_id : ℕ) → Tx License
unfolding lock_license transfer_checked
transfer_license actor id transfer_limit new_customer_id = do
  cur ← lock_license id
  transfer_checked actor id new_customer_id (is_terminal cur.status)
      (leb transfer_limit cur.transfer_count)
