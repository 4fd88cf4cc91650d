-- ===== src/Lease/Service.antt =====
-- `acquireLease` of src/server/modules/lease/acquire.ts as a whole: its three transactions in a row.
use license_srv.Prelude.{
  or_left, or_right, not_==-eq-false, ℕ, ◌≡◌, ◌⊎◌, inl, inr, refl, Bool, true, false, not, ◌||◌,
  ◌==◌, Option, none, some,
}
use license_srv.Store.{
  Activation, ActivationStatus, Db, Result, ok, err, Failure, pure, with_tenant, Service, and_then,
  and_then_reads, ReadsOnly, with_tenant_cases, >>-eq-ok, refuse_if, refuse_if-eq-ok,
  activation_required,
}
use license_srv.Lease.Acquire.{
  Clock, LeaseDeps, AcquireInput, Prepared, is_active_activation, read_activation, prepare,
  gate_found, gate_if, gate,
}
use license_srv.Lease.Acquire.Seat.{AcquireResult, seat_transaction, acquire_lease}
use license_srv.Lease.Admission.{IsAdmissible, prepare-IsAdmissible}

-- What the gate establishes: the plan asks for nothing, or the reference is to an active activation
-- of the license, whose id is passed on.
pub data Passes (prep : Prepared) (reference : Option ℕ) (db : Db) (r : Option ℕ) : Type 0 where
  open_to_all : prep.license.require_activation ≡ false → r ≡ none → Passes prep reference db r
  activated :
      (a : Activation)
      → prep.license.require_activation ≡ true
      → read_activation reference db ≡ some a
      → a.status ≡ ActivationStatus.active
      → a.license_id ≡ prep.license.id
      → r ≡ some a.id
      → Passes prep reference db r

active_activation :
    (s : ActivationStatus) → not (is_active_activation s) ≡ false → s ≡ ActivationStatus.active
active_activation ActivationStatus.active e = refl
active_activation ActivationStatus.deactivated e = cc

module _ (prep : Prepared) (reference : Option ℕ) (db : Db) where
  gate_found-Passes :
      (found : Option Activation) {r : Option ℕ} {db' : Db}
      → prep.license.require_activation ≡ true
      → read_activation reference db ≡ found
      → gate_found prep found db ≡ ok (r, db')
      → Passes prep reference db r × (db' ≡ db)
  unfolding gate_found
  gate_found-Passes none need e h = cc
  gate_found-Passes (some a) {r} need e h =
      let (u, mid, refused, rest) =
        >>-eq-ok
          (refuse_if (not (is_active_activation a.status) || not (a.license_id == prep.license.id))
            activation_required 409)
          (pure (some a.id)) db h in
      let (c, same) =
        refuse_if-eq-ok
          (not (is_active_activation a.status) || not (a.license_id == prep.license.id))
          activation_required 409 db refused in
      let st = active_activation a.status (or_left _ (not (a.license_id == prep.license.id)) c) in
      let own =
        not_==-eq-false a.license_id _ (or_right (not (is_active_activation a.status)) _ c) in
      (activated a need e st own cc, cc)

  gate_cases :
      (b : Bool) {r : Option ℕ} {db' : Db}
      → prep.license.require_activation ≡ b
      → gate_if b prep reference db ≡ ok (r, db')
      → Passes prep reference db r × (db' ≡ db)
  unfolding gate_if
  gate_cases true need h = gate_found-Passes (read_activation reference db) need refl h
  gate_cases false need h = (open_to_all need cc, cc)

  gate-Passes :
      {r : Option ℕ} {db' : Db}
      → gate prep reference db ≡ ok (r, db')
      → Passes prep reference db r × (db' ≡ db)
  unfolding gate
  gate-Passes h = gate_cases prep.license.require_activation refl h

-- The three transactions of an acquire that granted: what the first two established, and the seat
-- transaction on the tables that they left as they were.
pub record Granted (deps : LeaseDeps) (clock : Clock) (id : ℕ) (input : AcquireInput) (db : Db)
    (r : AcquireResult) (db' : Db) : Type 0 where
  pub prep : Prepared
  pub admissible : IsAdmissible clock.app input.license db prep
  pub activation_id : Option ℕ
  pub passes : Passes prep input.activation_reference db activation_id
  pub seated : seat_transaction deps clock id input prep activation_id db ≡ ok (r, db')

prepare-ReadsOnly :
    (deps : LeaseDeps) (app_now : ℕ) (input : AcquireInput) (db : Db)
    → ReadsOnly (prepare deps app_now input) db
prepare-ReadsOnly deps app_now input db prep mid h =
    (prepare-IsAdmissible deps app_now input db mid h).1

gate-ReadsOnly :
    (prep : Prepared) (reference : Option ℕ) (db : Db) → ReadsOnly (gate prep reference) db
gate-ReadsOnly prep reference db a mid h = (gate-Passes prep reference db h).1

module _ (deps : LeaseDeps) (clock : Clock) (id : ℕ) (input : AcquireInput) (db db' : Db) where
  abbrev gate_and_seat : (prep : Prepared) → Service AcquireResult
  gate_and_seat prep =
      and_then (with_tenant (gate prep input.activation_reference))
        λ activation_id. with_tenant (seat_transaction deps clock id input prep activation_id)

  gate_and_seat_cases :
      (prep : Prepared) {r : Result AcquireResult}
      → prepare deps clock.app input db ≡ ok (prep, db)
      → gate_and_seat prep db ≡ (r, db')
      → ((e : Failure) × (r ≡ err e) × (db' ≡ db))
        ⊎ ((g : AcquireResult) × (r ≡ ok g) × Granted deps clock id input db g db')
  gate_and_seat_cases prep prepared h =
      elim (and_then_reads _ db (gate prep input.activation_reference)
        (gate-ReadsOnly prep input.activation_reference db) h) [
          | inl refused ↦ inl refused
          | inr (activation_id, passed, seat) ↦
              elim (with_tenant_cases db (seat_transaction deps clock id input prep activation_id)
                seat) [
                  | inl refused ↦ inl refused
                  | inr (g, granted, seated) ↦ inr (
                    g,
                    granted,
                    record {
                      prep = prep;
                      admissible = (prepare-IsAdmissible deps clock.app input db db prepared).0;
                      activation_id = activation_id;
                      passes = (gate-Passes prep input.activation_reference db passed).0;
                      seated = seated;
                    },
                  )
                ]
        ]

  -- An acquire grants a seat to an admissible request, or leaves the tables as they were.
  pub acquire_lease_cases :
      {r : Result AcquireResult}
      → acquire_lease deps clock id input db ≡ (r, db')
      → ((e : Failure) × (r ≡ err e) × (db' ≡ db))
        ⊎ ((g : AcquireResult) × (r ≡ ok g) × Granted deps clock id input db g db')
  unfolding acquire_lease
  acquire_lease_cases h =
      elim (and_then_reads _ db (prepare deps clock.app input)
        (prepare-ReadsOnly deps clock.app input db) h) [
          | inl refused ↦ inl refused
          | inr (prep, prepared, rest) ↦ gate_and_seat_cases prep prepared rest
        ]
