-- ===== src/Lease/Frame.antt =====
-- What the services of src/server/modules/lease do to the lease table and leave alone elsewhere.
use license_srv.Prelude.{ℕ, ◌≤◌, ◌≡◌, refl, ◌∙◌, Bool, true, false, Option, none, some, arith}
use license_srv.Store.{Lease, Db, ok, >>=-eq-ok}
use license_srv.Lease.Handle.{Signer, SignedLeaseHandle}
use license_srv.Lease.Repo.{
  has_id, count_live, AcquireOutcome, created, replayed, capacity, acquire,
}
use license_srv.Lease.Acquire.{
  Clock, LeaseDeps, AcquireInput, Prepared, set_handle_key, attach_handle, maybe_sign_handle,
}
use license_srv.Lease.Acquire.Seat.{AcquireResult, finish, settle, acquire_params, seat_transaction}
use license_srv.Lease.Seats.{WellFormed, Gentle}
use license_srv.Lease.Endings.{Updates, Updates-WellFormed, Updates-count_live}

-- Between two states of the tables: the same licenses, and every well-formed lease table stays so
-- without a license gaining a live lease.
pub record NoSeatGained (db db' : Db) : Type 0 where
  pub licenses : db'.licenses ≡ db.licenses
  pub well_formed : WellFormed db.leases → WellFormed db'.leases
  pub counts : (c : ℕ) → count_live c db' ≤ count_live c db

pub NoSeatGained-refl :
    (db db' : Db) → db'.licenses ≡ db.licenses → db'.leases ≡ db.leases → NoSeatGained db db'
unfolding count_live
NoSeatGained-refl db db' h k = record {
  licenses = h;
  well_formed = λ w. rw k w;
  counts = λ c. ground arith;
}

pub NoSeatGained-trans : {a b c : Db} → NoSeatGained a b → NoSeatGained b c → NoSeatGained a c
NoSeatGained-trans g h = record {
  licenses = h.licenses ∙ g.licenses;
  well_formed = λ w. h.well_formed (g.well_formed w);
  counts = λ c. omega (arith, g.counts c, h.counts c);
}

pub Updates-NoSeatGained :
    (p : Lease → Bool) (f : Lease → Lease)
    → Gentle p f
    → (db db' : Db) → Updates p f db db'
    → NoSeatGained db db'
Updates-NoSeatGained p f g db db' u = record {
  licenses = ground arith;
  well_formed = Updates-WellFormed p f g db db' u;
  counts = Updates-count_live p f g db db' u;
}

set_handle_key-Gentle : (p : Lease → Bool) (key : ℕ) → Gentle p (set_handle_key key)
set_handle_key-Gentle p key = record {
  id = λ l. refl;
  nonce = λ l. refl;
  license_id = λ l. refl;
  holder_key = λ l. refl;
  live_before = λ l e s. s;
  shape = λ l e s. s;
}

attach_handle-NoSeatGained :
    (lease_id : ℕ) (s h : Option SignedLeaseHandle) (db db' : Db)
    → attach_handle lease_id s db ≡ ok (h, db')
    → NoSeatGained db db'
unfolding attach_handle
attach_handle-NoSeatGained lease_id none h db db' e = cc
attach_handle-NoSeatGained lease_id (some signed) h db db' e =
    Updates-NoSeatGained (has_id lease_id) (set_handle_key signed.key_id)
      (set_handle_key-Gentle (has_id lease_id) signed.key_id) db db' (ground arith)

pub maybe_sign_handle-NoSeatGained :
    (signer : Option Signer) (b : Bool) (product now ttl : ℕ) (l : Lease) (db db' : Db)
    {h : Option SignedLeaseHandle}
    → maybe_sign_handle signer b product now ttl l db ≡ ok (h, db')
    → NoSeatGained db db'
unfolding maybe_sign_handle
maybe_sign_handle-NoSeatGained signer false product now ttl l db db' e =
    NoSeatGained-refl db db' (ground arith) (ground arith)
maybe_sign_handle-NoSeatGained none true product now ttl l db db' e = cc
maybe_sign_handle-NoSeatGained (some signer) true product now ttl l db db' e =
    attach_handle-NoSeatGained l.id _ _ db db' e

-- What follows the acquire in a seat transaction gains no further seat.
finish-NoSeatGained :
    (deps : LeaseDeps) (clock : Clock) (prep : Prepared) (b : Bool) (l : Lease) (used : ℕ)
    (db db' : Db) {r : AcquireResult}
    → finish deps clock prep b l used db ≡ ok (r, db')
    → NoSeatGained db db'
unfolding finish
finish-NoSeatGained deps clock prep b l used db db' e =
    let (h, mid, signed, rest) =
      >>=-eq-ok
        (maybe_sign_handle deps.signer prep.license.signed_handle prep.license.product_id clock.app
          prep.license.timings.heartbeat_seconds l)
        _ db e in
    NoSeatGained-trans (maybe_sign_handle-NoSeatGained deps.signer _ _ _ _ l db mid signed)
      (NoSeatGained-refl mid db' (ground arith) (ground arith))

settle-NoSeatGained :
    (deps : LeaseDeps) (clock : Clock) (prep : Prepared) (o : AcquireOutcome) (db db' : Db)
    {r : AcquireResult}
    → settle deps clock prep o db ≡ ok (r, db')
    → NoSeatGained db db'
unfolding settle
settle-NoSeatGained deps clock prep (created l used) db db' e =
    finish-NoSeatGained deps clock prep true l used db db' e
settle-NoSeatGained deps clock prep (replayed l used) db db' e =
    finish-NoSeatGained deps clock prep false l used db db' e
settle-NoSeatGained deps clock prep (capacity used m o) db db' e = cc

-- A seat transaction that returns has acquired a seat, and gains no other after that.
pub seat_transaction_rows :
    (deps : LeaseDeps) (clock : Clock) (id : ℕ) (input : AcquireInput) (prep : Prepared)
    (activation_id : Option ℕ) (db db' : Db) {r : AcquireResult}
    → seat_transaction deps clock id input prep activation_id db ≡ ok (r, db')
    → (o : AcquireOutcome) × (mid : Db) × (acquire id clock.db
          (acquire_params input prep activation_id)
          db
        ≡ ok (o, mid))
      × NoSeatGained mid db'
unfolding seat_transaction
seat_transaction_rows deps clock id input prep activation_id db db' e =
    let (o, mid, got, rest) =
      >>=-eq-ok (acquire id clock.db (acquire_params input prep activation_id)) _ db e in
    (o, mid, got, settle-NoSeatGained deps clock prep o mid db' rest)
