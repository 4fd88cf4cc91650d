-- ===== src/Lease/Sweep.antt =====
-- What a reclaim sweep selects (src/server/modules/lease/lease-repo.ts and reclaim-worker.ts).
use license_srv.Prelude.{
  min, ap, ◌∙◌, length-take, count_by-take_le, count_by-sort_by, count_by-filter_by, count_by_mono,
  ◌&&◌, ℕ, ◌≤◌, ◌≡◌, refl, Bool, true, false, List, arith, leb, length, take, All, Option, take_all,
  length-sort_by, All-any_by_self, count_by-update_where_zero, count_by, filter_by, sort_by,
  update_where, All-filter_by, length-filter_by, All-sort_by, All-take, All-unsort, All-unfilter,
  take_first, sort_by-IsSorted,
}
use license_srv.Store.{Lease, Db, reclaimed, ok}
use license_srv.Lease.Repo.{has_id, with_leases}
use license_srv.Lease.Repo.Change.{ended_lease, due_batch, is_in, reclaim_due, is_lapsed, sweep}
use license_srv.Lease.Endings.{Updates}

abbrev oldest_first : Lease → Lease → Bool
oldest_first a b = leb a.expires_at b.expires_at

-- A batch has as many rows as are due and the limit allows, each row as often as the table, due
-- rows only, and no due row that is left out expires before one that is in.
pub record IsOldestBatch (is_due : Lease → Bool) (limit : ℕ) (leases due : List Lease)
    : Type 0 where
  pub full : length due ≡ min limit (count_by is_due leases)
  pub from_table : (p : Lease → Bool) → count_by p due ≤ count_by p leases
  pub only_due : All (λ l. is_due l ≡ true) due
  pub oldest :
      All
        (λ k. is_due k ≡ true → is_in due k ≡ false → All (λ l. oldest_first l k ≡ true) due)
        leases

pub due_batch-IsOldestBatch :
    (is_due : Lease → Bool) (limit : ℕ) (leases : List Lease)
    → IsOldestBatch is_due limit leases (due_batch is_due limit leases)
unfolding due_batch
due_batch-IsOldestBatch is_due limit leases =
    let rows = filter_by is_due leases in
    record {
      full =
          length-take limit (sort_by oldest_first rows)
          ∙ ap (min limit) (length-sort_by oldest_first rows ∙ length-filter_by is_due leases);
      from_table = λ p. omega (
        arith,
        count_by-take_le p limit (sort_by oldest_first rows),
        count_by-sort_by oldest_first p rows,
        count_by-filter_by p is_due leases,
        count_by_mono (λ l. is_due l && p l) p leases (λ l h. ground arith),
      );
      only_due =
          All-take _ limit (sort_by oldest_first rows)
            (All-sort_by oldest_first _ rows (All-filter_by is_due leases));
      oldest = All-unfilter _ is_due leases (
          All-unsort oldest_first _ rows (
            take_first oldest_first (λ k l. has_id k.id l) (λ x. ground arith) limit
              (sort_by oldest_first rows)
              (sort_by-IsSorted oldest_first (λ x y h. ground arith) (λ x y z h k. ground arith)
                rows)));
    }

reclaim_due_rows :
    (now limit : ℕ) (is_due : Lease → Bool) (db : Db)
    → reclaim_due now is_due limit db
      ≡ ok (
        due_batch is_due limit db.leases,
        with_leases db (
            update_where
              (is_in (due_batch is_due limit db.leases))
              (ended_lease reclaimed now)
              db.leases),
      )
unfolding reclaim_due
reclaim_due_rows now limit is_due db = refl

-- What a sweep of lapsed leases returns and does: the oldest batch of the live leases that are past
-- their expiry and grace and not locked, as many as the limit allows, each ended as reclaimed; no
-- other row changes.
pub sweep_lem :
    (now max_batch : ℕ) (locked : ℕ → Bool) (license_id : Option ℕ) (db : Db)
    → (due : List Lease) × (db' : Db) × (sweep now locked max_batch license_id db ≡ ok (due, db'))
      × IsOldestBatch (is_lapsed now locked license_id db.licenses) max_batch db.leases due
      × Updates (is_in due) (ended_lease reclaimed now) db db'
unfolding sweep
sweep_lem now max_batch locked license_id db = (
  due_batch (is_lapsed now locked license_id db.licenses) max_batch db.leases,
  _,
  reclaim_due_rows now max_batch (is_lapsed now locked license_id db.licenses) db,
  due_batch-IsOldestBatch (is_lapsed now locked license_id db.licenses) max_batch db.leases,
  refl,
)

due_batch-All :
    (is_due : Lease → Bool) (limit : ℕ) (leases : List Lease)
    → count_by is_due leases ≤ limit
    → All (λ k. is_due k ≡ true → is_in (due_batch is_due limit leases) k ≡ true) leases
unfolding due_batch
due_batch-All is_due limit leases h =
    let rows = filter_by is_due leases in
    let fits : take limit (sort_by oldest_first rows) ≡ sort_by oldest_first rows =
      take_all limit _
        (omega (arith, length-sort_by oldest_first rows, length-filter_by is_due leases)) in
    All-unfilter _ is_due leases (
      All-unsort oldest_first _ rows (
        rw fits
          (All-any_by_self (λ k l. has_id k.id l) (λ x. ground arith) (sort_by oldest_first rows))))

-- A sweep whose batch holds all that is due leaves nothing due, so that the next one reclaims
-- nothing at that time.
pub reclaim_drains :
    (now limit : ℕ) (is_due : Lease → Bool) (db : Db) {due : List Lease} {db' : Db}
    → ((l : Lease) → is_due (ended_lease reclaimed now l) ≡ false)
    → count_by is_due db.leases ≤ limit
    → reclaim_due now is_due limit db ≡ ok (due, db')
    → count_by is_due db'.leases ≡ 0
reclaim_drains now limit is_due db {due} {db'} live_only h e =
    let rows : due_batch is_due limit db.leases ≡ due = cc (reclaim_due_rows now limit is_due db) in
    let left : db'
        ≡ with_leases db (update_where (is_in due) (ended_lease reclaimed now) db.leases) =
      rw (← rows) (cc (reclaim_due_rows now limit is_due db)) in
    rw left (
      count_by-update_where_zero is_due (is_in due) (ended_lease reclaimed now) db.leases
        (rw rows at (due_batch-All is_due limit db.leases h)) live_only)

-- A sweep whose batch holds all that has lapsed leaves nothing lapsed.
pub sweep_drains :
    (now max_batch : ℕ) (locked : ℕ → Bool) (license_id : Option ℕ) (db : Db) {due : List Lease}
    {db' : Db}
    → count_by (is_lapsed now locked license_id db.licenses) db.leases ≤ max_batch
    → sweep now locked max_batch license_id db ≡ ok (due, db')
    → count_by (is_lapsed now locked license_id db.licenses) db'.leases ≡ 0
unfolding sweep
sweep_drains now max_batch locked license_id db h e =
    reclaim_drains now max_batch (is_lapsed now locked license_id db.licenses) db
      (λ l. ground arith) h e
