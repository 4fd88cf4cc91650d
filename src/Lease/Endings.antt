-- ===== src/Lease/Endings.antt =====
-- What renewing, ending and reclaiming do to the seats
-- (src/server/modules/lease/lease-repo.ts).
use mathlib.Core.Path.{subst}
use license_srv.Prelude.{
  ℕ, ◌+◌, ◌≤◌, ◌≡◌, ◌≢◌, refl, sym, Bool, true, false, ◌&&◌, Option, some, arith, ◌==◌, find,
  count_by, update_where, count_by-update_where_eq, count_by-update_where_clear, update_where_none,
  find-eq-some, find-count_pos, count_by_of_unique, count_by_congr, if◌then◌else◌,
}
use license_srv.Store.{Lease, LeaseStatus, released, Db, ok}
use license_srv.Lease.Repo.{is_live, has_id, is_live_of, with_leases, count_live}
use license_srv.Lease.Repo.Change.{
  is_renewable, renewed_lease, renew, ended_lease, is_live_id, end_live, release,
}
use license_srv.Lease.Seats.{WellFormed, Gentle, Gentle-count_live, Gentle-WellFormed}

renewed_lease-Gentle :
    (now ttl : ℕ) (p : Lease → Bool)
    → ((l : Lease) → p l ≡ true → is_live l.status ≡ true)
    → Gentle p (renewed_lease now ttl)
renewed_lease-Gentle now ttl p h = record {
  id = λ l. refl;
  nonce = λ l. refl;
  license_id = λ l. refl;
  holder_key = λ l. refl;
  live_before = λ l e s. s;
  shape = λ l e s. s;
}

abbrev pub IsEnd : LeaseStatus → Type 0
IsEnd status = is_live status ≡ false

pub ended_lease-Gentle :
    (status : LeaseStatus) (now : ℕ) (p : Lease → Bool)
    → IsEnd status
    → Gentle p (ended_lease status now)
ended_lease-Gentle status now p h = record {
  id = λ l. refl;
  nonce = λ l. refl;
  license_id = λ l. refl;
  holder_key = λ l. refl;
  live_before = λ l e s. cc;
  shape = λ l e s. ground arith;
}

-- A change of the lease table by a gentle update.
abbrev pub Updates : (Lease → Bool) → (Lease → Lease) → Db → Db → Type 0
Updates p f db db' = db' ≡ with_leases db (update_where p f db.leases)

module _ (p : Lease → Bool) (f : Lease → Lease) (g : Gentle p f) (db db' : Db)
    (u : Updates p f db db') where
  pub Updates-WellFormed : WellFormed db.leases → WellFormed db'.leases
  Updates-WellFormed w =
      subst (λ d. WellFormed d.leases) (sym u) (Gentle-WellFormed p f g db.leases w)

  pub Updates-count_live : (c : ℕ) → count_live c db' ≤ count_live c db
  unfolding count_live
  Updates-count_live c = rw u (Gentle-count_live p f g c db.leases)

module _ (now lease_id ttl : ℕ) (expected : Option ℕ) (db : Db) where
  pub renew-Updates :
      {o : Option Lease} {db' : Db}
      → renew now lease_id ttl expected db ≡ ok (o, db')
      → Updates (is_renewable lease_id now expected) (renewed_lease now ttl) db db'
  unfolding renew
  renew-Updates e = ground arith

  pub renew-Gentle : Gentle (is_renewable lease_id now expected) (renewed_lease now ttl)
  renew-Gentle = renewed_lease-Gentle now ttl _ (λ l h. ground arith)

  -- A renew changes no license's number of live leases.
  pub renew-count_live :
      {o : Option Lease} {db' : Db} (c : ℕ)
      → renew now lease_id ttl expected db ≡ ok (o, db')
      → count_live c db' ≡ count_live c db
  unfolding count_live
  renew-count_live c e = rw (renew-Updates e) (
      count_by-update_where_eq (is_live_of c) (is_renewable lease_id now expected)
        (renewed_lease now ttl) db.leases (λ l h. refl))

module _ (status : LeaseStatus) (is_end : IsEnd status) (now lease_id : ℕ) (db : Db) where
  pub end_live-Updates :
      {changed : Bool} {db' : Db}
      → end_live status now lease_id db ≡ ok (changed, db')
      → Updates (is_live_id lease_id) (ended_lease status now) db db'
  unfolding end_live
  end_live-Updates e = ground arith

  pub end_live-Gentle : Gentle (is_live_id lease_id) (ended_lease status now)
  end_live-Gentle = ended_lease-Gentle status now _ is_end

  -- Ending a lease by its id takes off each license's count the live leases of that id and license.
  end_live-count_live :
      {changed : Bool} {db' : Db} (c : ℕ)
      → end_live status now lease_id db ≡ ok (changed, db')
      → count_live c db' + count_by (λ l. is_live_id lease_id l && is_live_of c l) db.leases
        ≡ count_live c db
  unfolding count_live
  end_live-count_live c e = rw (end_live-Updates e) (
      count_by-update_where_clear (is_live_of c) (is_live_id lease_id) (ended_lease status now)
        db.leases (λ l h. ground arith))

module _ (now lease_id : ℕ) (db : Db) (l : Lease) (w : WellFormed db.leases)
    (found : find (is_live_id lease_id) db.leases ≡ some l) where
  abbrev after_release : Db
  after_release =
      with_leases db (update_where (is_live_id lease_id) (ended_lease released now) db.leases)

  release_changes : release now lease_id db ≡ ok (true, after_release)
  unfolding release
  release_changes = ground (arith, find-count_pos (is_live_id lease_id) db.leases found)

  live_rows_of :
      (c : ℕ)
      → count_by (λ k. is_live_id lease_id k && is_live_of c k) db.leases
        ≡ (if l.license_id == c then 1 else 0)
  live_rows_of c =
      let live : is_live_id lease_id l ≡ true =
        find-eq-some (is_live_id lease_id) db.leases found in
      ground (
        arith,
        count_by_of_unique (is_live_id lease_id) (has_id lease_id)
            (λ k. is_live_id lease_id k && is_live_of c k) db.leases (w.ids lease_id) found
            (ground arith) (λ y h. ground arith),
      )

  release-count_live :
      (c : ℕ) → count_live c after_release + (if l.license_id == c then 1 else 0) ≡ count_live c db
  unfolding release
  release-count_live c =
      rw (← live_rows_of c) (end_live-count_live released refl now lease_id db c release_changes)

  none_left : count_by (is_live_id lease_id) after_release.leases ≡ 0
  none_left = omega (
    arith,
    count_by-update_where_clear (is_live_id lease_id) (is_live_id lease_id)
        (ended_lease released now) db.leases (λ k h. ground arith),
    count_by_congr (λ k. is_live_id lease_id k && is_live_id lease_id k) (is_live_id lease_id)
        db.leases (λ k. ground arith),
  )

-- Releasing an id that has no live lease changes nothing, and says so.
pub release_noop :
    (now lease_id : ℕ) (db : Db)
    → count_by (is_live_id lease_id) db.leases ≡ 0
    → release now lease_id db ≡ ok (false, db)
unfolding release
release_noop now lease_id db missing =
    ground (arith, update_where_none (is_live_id lease_id) (ended_lease released now) db.leases)

-- Releasing a lease that is live frees exactly its own seat and says so; a second release, at any
-- later time, finds nothing to free and leaves the tables as they are.
pub release_frees_one :
    (now later lease_id : ℕ) (db : Db) (l : Lease)
    → WellFormed db.leases
    → find (is_live_id lease_id) db.leases ≡ some l
    → (db' : Db) × (release now lease_id db ≡ ok (true, db'))
      × (count_live l.license_id db' + 1 ≡ count_live l.license_id db)
      × ((c : ℕ) → c ≢ l.license_id → count_live c db' ≡ count_live c db)
      × (release later lease_id db' ≡ ok (false, db'))
release_frees_one now later lease_id db l w found = (
  after_release now lease_id db l w found,
  release_changes now lease_id db l w found,
  ground (arith, release-count_live now lease_id db l w found l.license_id),
  λ c other. ground (arith, release-count_live now lease_id db l w found c),
  release_noop later lease_id _ (none_left now lease_id db l w found),
)
