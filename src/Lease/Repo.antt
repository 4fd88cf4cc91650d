-- ===== src/Lease/Repo.antt =====
-- src/server/modules/lease/lease-repo.ts: the accountant of the seats, inside the caller's
-- transaction. `now` is the database's clock; a fresh uuid is an argument. Transactions on one
-- license are serialised by the advisory lock, so each runs on the tables as it finds them.
pub mod Change
pub mod Outcome
use license_srv.Prelude.{
  ℕ, ◌+◌, ◌*◌, Bool, true, false, ◌&&◌, ◌||◌, Option, none, some, List, ◌∷◌, leb, ◌==◌,
  if◌then◌else◌, find, count_by, any_by,
}
use license_srv.Store.{
  Lease, LeaseStatus, live, ConcurrencyScope, Db, Code, Tx, ok, err, unique_violation, ◌>>=◌, ◌>>◌,
  pure, throw, query,
}
use license_srv.Lease.Config.{effective_cap, is_overage_seat}

abbrev pub is_live : LeaseStatus → Bool
is_live live = true
is_live _ = false

-- The conditions of the queries.
abbrev pub has_id : ℕ → Lease → Bool
has_id id l = l.id == id

abbrev pub has_nonce : ℕ → Lease → Bool
has_nonce nonce l = l.nonce == nonce

abbrev pub is_live_of : ℕ → Lease → Bool
is_live_of license_id l = l.license_id == license_id && is_live l.status

abbrev pub is_held_by : ℕ → ℕ → Lease → Bool
is_held_by license_id holder_key l =
    l.license_id == license_id && (l.holder_key == holder_key && is_live l.status)

abbrev pub with_leases : Db → List Lease → Db
with_leases db leases = record db { leases = leases }

unfoldable pub count_live : ℕ → Db → ℕ
count_live license_id db = count_by (is_live_of license_id) db.leases

unfoldable pub get_by_id : ℕ → Tx (Option Lease)
get_by_id lease_id = query (λ db. find (has_id lease_id) db.leases)

pub record AcquireParams : Type 0 where
  pub license_id : ℕ
  pub holder_key : ℕ
  pub scope : ConcurrencyScope
  pub nonce : ℕ
  pub ttl_seconds : ℕ
  pub max_concurrent : ℕ
  pub overage_allowance : ℕ
  pub activation_id : Option ℕ

pub data AcquireOutcome : Type 0 where
  created : (lease : Lease) → (concurrency_used : ℕ) → AcquireOutcome
  replayed : (lease : Lease) → (concurrency_used : ℕ) → AcquireOutcome
  capacity : (concurrency_used max_concurrent overage_allowance : ℕ) → AcquireOutcome

-- The row that step 6 inserts: live, of generation 0, with an expiry that the server computes.
unfoldable pub new_lease : (id now : ℕ) → (overage : Bool) → AcquireParams → Lease
new_lease id now overage p = record {
  id = id;
  license_id = p.license_id;
  holder_key = p.holder_key;
  scope = p.scope;
  status = live;
  acquired_at = now;
  last_renewed_at = now;
  expires_at = now + 1000 * p.ttl_seconds;
  generation = 0;
  overage = overage;
  activation_id = p.activation_id;
  nonce = p.nonce;
  handle_key_id = none;
  ended_at = none;
}

-- `INSERT`: refused with 23505 where a unique index of the table is hit.
unfoldable pub insert_lease : Lease → Tx (Unit {0})
insert_lease l db =
    if any_by (has_nonce l.nonce) db.leases
      || any_by (is_held_by l.license_id l.holder_key) db.leases
    then throw unique_violation 500 db
    else ok (tt, with_leases db (l ∷ db.leases))

abbrev pub is_unique_violation : Code → Bool
is_unique_violation unique_violation = true
is_unique_violation _ = false

-- `try { … } catch (e) { if (e.code === "23505") … throw e }`; `none` rethrows.
abbrev pub on_unique_violation : {A : Type 0} → Tx A → Tx (Option A) → Tx A
on_unique_violation body handler db = elim (body db) [
  | ok r ↦ ok r
  | err e ↦
      if is_unique_violation e.code
      then elim (handler db) [
        | ok r ↦ elim r.0 [ some a ↦ ok (a, r.1) | none ↦ err e ]
        | err e' ↦ err e'
      ]
      else err e
]

unfoldable pub replay : ℕ → Lease → Tx AcquireOutcome
unfolding count_live
replay license_id lease = do used ← query (count_live license_id); pure (replayed lease used)

unfoldable pub replay_nonce : AcquireParams → Tx (Option AcquireOutcome)
unfolding replay
replay_nonce p = do
  by_nonce ← query (λ db. find (has_nonce p.nonce) db.leases)
  elim by_nonce [
    | some lease ↦ do outcome ← replay p.license_id lease; pure (some outcome)
    | none ↦ pure none
  ]

-- Steps 4 to 6: the count under the lock, the refusal at the cap, the insert.
unfoldable pub admit : (id now : ℕ) → AcquireParams → Tx AcquireOutcome
unfolding count_live effective_cap is_overage_seat new_lease insert_lease replay_nonce
admit id now p = do
  used ← query (count_live p.license_id)
  let lease = new_lease id now (is_overage_seat used p.max_concurrent) p
  if leb (effective_cap p.max_concurrent p.overage_allowance) used
      then pure (capacity used p.max_concurrent p.overage_allowance)
      else on_unique_violation (do insert_lease lease; pure (created lease (used + 1)))
          (replay_nonce p)

unfoldable pub acquire : (id now : ℕ) → AcquireParams → Tx AcquireOutcome
unfolding admit replay
acquire id now p = do
  by_nonce ← query (λ db. find (has_nonce p.nonce) db.leases)
  elim by_nonce [
    | some lease ↦ replay p.license_id lease
    | none ↦ do
      by_holder ← query (λ db. find (is_held_by p.license_id p.holder_key) db.leases)
      elim by_holder [ some lease ↦ replay p.license_id lease | none ↦ admit id now p ]
  ]
