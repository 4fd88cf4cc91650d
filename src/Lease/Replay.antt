-- ===== src/Lease/Replay.antt =====
-- The retries of `LeaseRepo.acquire` (src/server/modules/lease/lease-repo.ts): what a token that was
-- used already is answered with.
use license_srv.Prelude.{ℕ, ◌≡◌, Bool, some, List, ◌∷◌, arith, find, update_where}
use license_srv.Store.{Lease, live, released, Db, ok}
use license_srv.Lease.Repo.{
  has_nonce, with_leases, count_live, AcquireParams, created, replayed, new_lease, acquire,
}
use license_srv.Lease.Repo.Change.{ended_lease, is_live_id, release}
use license_srv.Lease.Repo.Outcome.{
  same_nonce, same_holder, refused, admitted, acquire-Acquired, acquire_nonce,
}

-- The row that an acquire created stands first in the table, live and with its nonce.
pub record Inserted (p : AcquireParams) (db db' : Db) (l : Lease) : Type 0 where
  pub rows : db' ≡ with_leases db (l ∷ db.leases)
  pub is_live : l.status ≡ live
  pub nonce : l.nonce ≡ p.nonce

created-Inserted :
    (id now : ℕ) (p : AcquireParams) (db db' : Db) {l : Lease} {used : ℕ}
    → acquire id now p db ≡ ok (created l used, db')
    → Inserted p db db' l
unfolding new_lease
created-Inserted id now p db db' {l} e = elim (acquire-Acquired id now p db) [
  | same_nonce k found r ↦ cc
  | same_holder k found r ↦ cc
  | refused le r ↦ cc
  | admitted k k_eq lt fresh free r ↦
      let one : l ≡ k = cc in record { rows = cc; is_live = cc; nonce = cc }
]

find-first :
    (l : Lease) (ls : List Lease) (n : ℕ) → l.nonce ≡ n → find (has_nonce n) (l ∷ ls) ≡ some l
unfolding find
find-first l ls n e = ground arith

ended_first :
    (l : Lease) (ls : List Lease) (at n : ℕ)
    → l.status ≡ live
    → l.nonce ≡ n
    → find (has_nonce n) (update_where (is_live_id l.id) (ended_lease released at) (l ∷ ls))
      ≡ some (ended_lease released at l)
unfolding find update_where
ended_first l ls at n alive e = ground arith

-- An acquire retried with its token is answered with the lease that the first call created, at any
-- later time and with any other parameters, and changes nothing.
pub acquire_retry :
    (id now : ℕ) (p : AcquireParams) (db mid : Db) (l : Lease) (used : ℕ) (id' now' : ℕ)
    (p' : AcquireParams)
    → acquire id now p db ≡ ok (created l used, mid)
    → p'.nonce ≡ p.nonce
    → acquire id' now' p' mid ≡ ok (replayed l (count_live p'.license_id mid), mid)
acquire_retry id now p db mid l used id' now' p' e same =
    let ins = created-Inserted id now p db mid e in
    acquire_nonce id' now' p' mid l (rw ins.rows (find-first l db.leases p'.nonce (cc)))

-- A token outlives its seat: once the lease that it created has been released, the same token is
-- still answered with that lease, now in the status `released`, and takes no seat.
pub acquire_retry_released :
    (id now : ℕ) (p : AcquireParams) (db mid last : Db) (l : Lease) (used : ℕ) (at : ℕ)
    (freed : Bool) (id' now' : ℕ) (p' : AcquireParams)
    → acquire id now p db ≡ ok (created l used, mid)
    → release at l.id mid ≡ ok (freed, last)
    → p'.nonce ≡ p.nonce
    → acquire id' now' p' last
      ≡ ok (replayed (ended_lease released at l) (count_live p'.license_id last), last)
unfolding release update_where
acquire_retry_released id now p db mid last l used at freed id' now' p' e r same =
    let ins = created-Inserted id now p db mid e in
    let rows : last.leases
        ≡ update_where (is_live_id l.id) (ended_lease released at) (l ∷ db.leases) =
      cc in
    acquire_nonce id' now' p' last (ended_lease released at l)
      (rw rows (ended_first l db.leases at p'.nonce ins.is_live (cc)))
