-- ===== src/Lease/Fence.antt =====
-- The generation fence of a renew (src/server/modules/lease/lease-repo.ts).
use license_srv.Prelude.{
  ℕ, ◌≡◌, refl, true, false, Option, none, some, arith, if◌then◌else◌, find, update_where,
  find-eq-some, ◌∙◌, find-and_of_unique, find-update_where,
}
use license_srv.Store.{Lease, Db, ok}
use license_srv.Lease.Repo.{has_id, with_leases}
use license_srv.Lease.Repo.Change.{passes_renew_fence, is_renewable, renewed_lease, renew}
use license_srv.Lease.Seats.{WellFormed}
use license_srv.Lease.Endings.{renew-Updates, renew-Gentle, Updates-WellFormed}

module _ (now lease_id ttl : ℕ) (expected : Option ℕ) (db : Db) (l : Lease)
    (w : WellFormed db.leases) (found : find (has_id lease_id) db.leases ≡ some l) where
  find_renewable :
      find (is_renewable lease_id now expected) db.leases
      ≡ (if passes_renew_fence l now expected then some l else none)
  unfolding passes_renew_fence
  find_renewable = ground (
    arith,
    find-and_of_unique (has_id lease_id) (λ y. is_renewable y.id now expected y) db.leases
        (w.ids lease_id) found,
  )

  abbrev after_renew : Db
  after_renew =
      with_leases db
        (update_where (is_renewable lease_id now expected) (renewed_lease now ttl) db.leases)

  find-after_renew :
      find (has_id lease_id) after_renew.leases
      ≡ some (if passes_renew_fence l now expected then renewed_lease now ttl l else l)
  unfolding passes_renew_fence
  find-after_renew =
      find-update_where (has_id lease_id) (is_renewable lease_id now expected)
        (renewed_lease now ttl) db.leases (λ y. refl) found
      ∙ ground (arith, find-eq-some (has_id lease_id) db.leases found)

  renew_result :
      renew now lease_id ttl expected db
      ≡ ok (
        if passes_renew_fence l now expected then some (renewed_lease now ttl l) else none,
        after_renew,
      )
  unfolding renew
  renew_result = ground (arith, find_renewable)

-- For a lease that exists, the guarded update takes effect exactly when the pure fence predicate
-- admits it: it then returns the lease with one generation more and the expiry `now + ttl`, which
-- is also the row that is found by its id afterwards. Otherwise it returns nothing, and the row
-- that is found by the id is the one from before.
pub renew_by_fence :
    (now lease_id ttl : ℕ) (expected : Option ℕ) (db : Db) (l : Lease)
    → WellFormed db.leases
    → find (has_id lease_id) db.leases ≡ some l
    → (db' : Db) × (renew now lease_id ttl expected db
        ≡ ok (
          if passes_renew_fence l now expected then some (renewed_lease now ttl l) else none,
          db',
        ))
      × (find (has_id lease_id) db'.leases
          ≡ some (if passes_renew_fence l now expected then renewed_lease now ttl l else l))
renew_by_fence now lease_id ttl expected db l w found = (
  after_renew now lease_id ttl expected db l w found,
  renew_result now lease_id ttl expected db l w found,
  find-after_renew now lease_id ttl expected db l w found,
)

fence_stale :
    (now later ttl : ℕ) (l : Lease)
    → passes_renew_fence (renewed_lease now ttl l) later (some l.generation) ≡ false
unfolding passes_renew_fence
fence_stale now later ttl l = ground arith

-- Of two renews that expect the same generation, the second is refused once the first has taken
-- effect, whenever it comes.
pub renew_stale :
    (now later lease_id ttl : ℕ) (db db' : Db) (l l' : Lease)
    → WellFormed db.leases
    → find (has_id lease_id) db.leases ≡ some l
    → renew now lease_id ttl (some l.generation) db ≡ ok (some l', db')
    → (db'' : Db) × (renew later lease_id ttl (some l.generation) db' ≡ ok (none, db''))
renew_stale now later lease_id ttl db db' l l' w found e =
    let (t, first, row) = renew_by_fence now lease_id ttl (some l.generation) db l w found in
    let same : t ≡ db' = cc first in
    let passed : passes_renew_fence l now (some l.generation) ≡ true = ground (arith, first) in
    let w' : WellFormed db'.leases =
      Updates-WellFormed _ _ (renew-Gentle now lease_id ttl (some l.generation) db) db db'
        (renew-Updates now lease_id ttl (some l.generation) db e) w in
    let row' : find (has_id lease_id) db'.leases ≡ some (renewed_lease now ttl l) =
      rw (← same) (rw passed at row) in
    let (u, second, _) =
      renew_by_fence later lease_id ttl (some l.generation) db' (renewed_lease now ttl l) w' row' in
    (u, rw (fence_stale now later ttl l) at second)
