-- ===== src/Lease/Reach.antt =====
-- Every history of the lease surface (src/server/modules/lease) keeps each license within its cap.
-- A step is one committed transaction; a seat transaction comes at any time after its `prepare`,
-- with the steps of other requests between them.
use license_srv.Prelude.{
  ℕ, ◌≤◌, ◌≡◌, inl, inr, sym, ap, ◌∙◌, Bool, Option, some, arith, find, count_by,
}
use license_srv.Store.{License, Db, ok}
use license_srv.Lease.Config.{effective_cap}
use license_srv.Lease.Repo.{has_id, count_live, acquire, AcquireOutcome}
use license_srv.Lease.Repo.Change.{force_release}
use license_srv.Lease.Acquire.{Clock, LeaseDeps, AcquireInput, Prepared, is_license}
use license_srv.Lease.Acquire.Seat.{AcquireResult, LeaseGrant, acquire_params, seat_transaction}
use license_srv.Lease.Renew.{renew_lease, release_lease}
use license_srv.Lease.Reclaim.{reclaim_tenant}
use license_srv.Lease.Seats.{WellFormed, acquire-WellFormed, acquire-count_live, acquire_licenses}
use license_srv.Lease.Frame.{NoSeatGained, seat_transaction_rows}
use license_srv.Lease.Upkeep.{
  force_release-NoSeatGained, release_lease-NoSeatGained, renew_lease-NoSeatGained,
  reclaim_tenant-NoSeatGained,
}

-- The cap and allowance that `prepare` read are those of the license's snapshot.
pub record IsCurrent (prep : Prepared) (db : Db) : Type 0 where
  pub license : License
  pub found : find (is_license prep.license.id) db.licenses ≡ some license
  pub cap : license.max_concurrent ≡ some prep.max_concurrent
  pub overage : license.concurrency_overage ≡ prep.license.overage_allowance

-- What other modules do to a license between two lease transactions: anything that keeps the
-- concurrency snapshot, which no code changes after the issue.
pub record KeepsCaps (db db' : Db) : Type 0 where
  pub leases : db'.leases ≡ db.leases
  pub snapshot :
      (id : ℕ) (lic' : License)
      → find (is_license id) db'.licenses ≡ some lic'
      → (lic : License) × (find (is_license id) db.licenses ≡ some lic)
        × (lic'.max_concurrent ≡ lic.max_concurrent)
        × (lic'.concurrency_overage ≡ lic.concurrency_overage)

pub data Step (deps : LeaseDeps) (db db' : Db) : Type 0 where
  seat :
      (clock : Clock) (id : ℕ) (input : AcquireInput) (prep : Prepared) (activation_id : Option ℕ)
      (r : AcquireResult)
      → IsCurrent prep db
      → count_by (has_id id) db.leases ≡ 0
      → seat_transaction deps clock id input prep activation_id db ≡ ok (r, db')
      → Step deps db db'
  heartbeat :
      (clock : Clock) (id : ℕ) (g : LeaseGrant)
      → renew_lease deps clock id db ≡ ok (g, db')
      → Step deps db db'
  return_seat :
      (clock : Clock) (id n : ℕ) → release_lease clock id db ≡ ok (n, db') → Step deps db db'
  force : (now id : ℕ) (b : Bool) → force_release now id db ≡ ok (b, db') → Step deps db db'
  worker :
      (now limit n : ℕ) (locked : ℕ → Bool)
      → reclaim_tenant now locked limit db ≡ ok (n, db')
      → Step deps db db'
  elsewhere : KeepsCaps db db' → Step deps db db'

pub data Reach (deps : LeaseDeps) (db : Db) : Db → Type 0 where
  here : Reach deps db db
  next : {a b : Db} → Reach deps db a → Step deps a b → Reach deps db b

-- The lease table is well formed, and no license has more live leases than its effective cap.
pub record WithinCaps (db : Db) : Type 0 where
  pub well_formed : WellFormed db.leases
  pub caps :
      (id : ℕ) (lic : License) (max_concurrent : ℕ)
      → find (is_license id) db.licenses ≡ some lic
      → lic.max_concurrent ≡ some max_concurrent
      → count_live id db ≤ effective_cap max_concurrent lic.concurrency_overage

NoSeatGained-WithinCaps : {db db' : Db} → NoSeatGained db db' → WithinCaps db → WithinCaps db'
NoSeatGained-WithinCaps g v = record {
  well_formed = g.well_formed v.well_formed;
  caps = λ id lic m found cap.
      omega (arith, g.counts id, v.caps id lic m (rw g.licenses at found) cap);
}

acquire-WithinCaps :
    (clock : Clock) (id : ℕ) (input : AcquireInput) (prep : Prepared) (activation_id : Option ℕ)
    (db mid : Db) {o : AcquireOutcome}
    → IsCurrent prep db
    → count_by (has_id id) db.leases ≡ 0
    → acquire id clock.db (acquire_params input prep activation_id) db ≡ ok (o, mid)
    → WithinCaps db
    → WithinCaps mid
acquire-WithinCaps clock id input prep activation_id db mid cur fresh e v = record {
  well_formed =
      acquire-WellFormed id clock.db (acquire_params input prep activation_id) db fresh
        v.well_formed e;
  caps = λ c lic m found cap.
      let found' : find (is_license c) db.licenses ≡ some lic =
        rw (acquire_licenses id clock.db (acquire_params input prep activation_id) db e) at found in
      elim (acquire-count_live id clock.db (acquire_params input prep activation_id) db c e) [
        | inl same ↦ omega (arith, same, v.caps c lic m found' cap)
        | inr (own, more, le) ↦
            let mine : find (is_license prep.license.id) db.licenses ≡ some lic =
              rw own at found' in
            let one : lic ≡ cur.license = cc in
            let m_eq : m ≡ prep.max_concurrent = cc (ap (λ (l : License). l.max_concurrent) one) in
            let o_eq : lic.concurrency_overage ≡ prep.license.overage_allowance =
              ap (λ (l : License). l.concurrency_overage) one ∙ cur.overage in
            rw (m_eq, o_eq) le
      ];
}

Step-WithinCaps : (deps : LeaseDeps) {a b : Db} → Step deps a b → WithinCaps a → WithinCaps b
Step-WithinCaps deps {a} {b} (seat clock id input prep activation_id r cur fresh e) v =
    let (o, mid, got, after) = seat_transaction_rows deps clock id input prep activation_id a b e in
    NoSeatGained-WithinCaps after
      (acquire-WithinCaps clock id input prep activation_id a mid cur fresh got v)
Step-WithinCaps deps {a} {b} (heartbeat clock id g e) v =
    NoSeatGained-WithinCaps (renew_lease-NoSeatGained deps clock id a b e) v
Step-WithinCaps deps {a} {b} (return_seat clock id n e) v =
    NoSeatGained-WithinCaps (release_lease-NoSeatGained clock id a b e) v
Step-WithinCaps deps {a} {b} (force now id c e) v =
    NoSeatGained-WithinCaps (force_release-NoSeatGained now id a b e) v
Step-WithinCaps deps {a} {b} (worker now limit n locked e) v =
    NoSeatGained-WithinCaps (reclaim_tenant-NoSeatGained now limit locked a b e) v
Step-WithinCaps deps {a} {b} (elsewhere k) v = record {
  well_formed = rw k.leases v.well_formed;
  caps = λ id lic' m found cap.
      let (lic, was, same_cap, same_overage) = k.snapshot id lic' found in
      let le = v.caps id lic m was (sym same_cap ∙ cap) in
      let same : count_live id b ≡ count_live id a = unfold count_live in (rw k.leases) in
      rw (same, same_overage) le;
}

-- Whatever requests and worker runs are interleaved, from tables that are well formed and within
-- their caps, the lease table stays well formed (ids and nonces are unique, a holder has at most
-- one live lease of a license, exactly the leases that are not live have an end) and no license
-- ever has more live leases than its effective cap.
pub Reach-WithinCaps :
    (deps : LeaseDeps) (db db' : Db) → WithinCaps db → Reach deps db db' → WithinCaps db'
Reach-WithinCaps deps db db' v here = v
Reach-WithinCaps deps db db' v (next {a} r st) =
    Step-WithinCaps deps st (Reach-WithinCaps deps db a v r)
