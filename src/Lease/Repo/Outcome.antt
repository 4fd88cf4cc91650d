-- ===== src/Lease/Repo/Outcome.antt =====
-- The outcomes of `LeaseRepo.acquire` (src/server/modules/lease/lease-repo.ts), each with what it
-- finds in the table and what it leaves there.
use mathlib.Core.Path.{subst}
use license_srv.Prelude.{
  ℕ, ◌+◌, ◌≤◌, ◌<◌, ◌≡◌, refl, sym, none, some, ◌∷◌, inl, inr, arith, leb, Bool-cases, Option-cases,
  find, count_by, find-eq-none, any_by-eq_false, leb→le,
}
use license_srv.Store.{Lease, Db, Result, ok}
use license_srv.Lease.Config.{effective_cap, is_overage_seat}
use license_srv.Lease.Repo.{
  has_nonce, is_held_by, with_leases, count_live, AcquireParams, AcquireOutcome, created, replayed,
  capacity, new_lease, insert_lease, admit, acquire,
}

-- The ways in which an acquire ends. None of them throws.
pub data Acquired (id now : ℕ) (p : AcquireParams) (db : Db) (r : Result (AcquireOutcome × Db))
    : Type 0 where
  same_nonce :
      (l : Lease)
      → find (has_nonce p.nonce) db.leases ≡ some l
      → r ≡ ok (replayed l (count_live p.license_id db), db)
      → Acquired id now p db r
  same_holder :
      (l : Lease)
      → find (is_held_by p.license_id p.holder_key) db.leases ≡ some l
      → r ≡ ok (replayed l (count_live p.license_id db), db)
      → Acquired id now p db r
  refused :
      effective_cap p.max_concurrent p.overage_allowance ≤ count_live p.license_id db
      → r ≡ ok (capacity (count_live p.license_id db) p.max_concurrent p.overage_allowance, db)
      → Acquired id now p db r
  admitted :
      (l : Lease)
      → l ≡ new_lease id now (is_overage_seat (count_live p.license_id db) p.max_concurrent) p
      → count_live p.license_id db < effective_cap p.max_concurrent p.overage_allowance
      → count_by (has_nonce p.nonce) db.leases ≡ 0
      → count_by (is_held_by p.license_id p.holder_key) db.leases ≡ 0
      → r ≡ ok (created l (count_live p.license_id db + 1), with_leases db (l ∷ db.leases))
      → Acquired id now p db r

insert_lease_ok :
    (l : Lease) (db : Db)
    → count_by (has_nonce l.nonce) db.leases ≡ 0
    → count_by (is_held_by l.license_id l.holder_key) db.leases ≡ 0
    → insert_lease l db ≡ ok (tt, with_leases db (l ∷ db.leases))
unfolding insert_lease
insert_lease_ok l db hn hh =
    rw (any_by-eq_false (has_nonce l.nonce) db.leases hn)
      (rw (any_by-eq_false (is_held_by l.license_id l.holder_key) db.leases hh))

module _ (id now : ℕ) (p : AcquireParams) (db : Db) where
  admit_full :
      effective_cap p.max_concurrent p.overage_allowance ≤ count_live p.license_id db
      → admit id now p db
        ≡ ok (capacity (count_live p.license_id db) p.max_concurrent p.overage_allowance, db)
  unfolding admit
  admit_full h = ground arith

  admit_room :
      (l : Lease)
      → l ≡ new_lease id now (is_overage_seat (count_live p.license_id db) p.max_concurrent) p
      → count_live p.license_id db < effective_cap p.max_concurrent p.overage_allowance
      → insert_lease l db ≡ ok (tt, with_leases db (l ∷ db.leases))
      → admit id now p db
        ≡ ok (created l (count_live p.license_id db + 1), with_leases db (l ∷ db.leases))
  unfolding admit
  admit_room l e h ins = ground arith

  pub acquire_nonce :
      (l : Lease)
      → find (has_nonce p.nonce) db.leases ≡ some l
      → acquire id now p db ≡ ok (replayed l (count_live p.license_id db), db)
  unfolding acquire
  acquire_nonce l found = ground arith

  acquire_holder :
      (l : Lease)
      → find (has_nonce p.nonce) db.leases ≡ none
      → find (is_held_by p.license_id p.holder_key) db.leases ≡ some l
      → acquire id now p db ≡ ok (replayed l (count_live p.license_id db), db)
  unfolding acquire
  acquire_holder l fresh found = ground arith

  acquire-admit :
      find (has_nonce p.nonce) db.leases ≡ none
      → find (is_held_by p.license_id p.holder_key) db.leases ≡ none
      → acquire id now p db ≡ admit id now p db
  unfolding acquire
  acquire-admit fresh free = ground arith

  admit-Acquired :
      count_by (has_nonce p.nonce) db.leases ≡ 0
      → count_by (is_held_by p.license_id p.holder_key) db.leases ≡ 0
      → Acquired id now p db (admit id now p db)
  unfolding new_lease
  admit-Acquired hn hh =
      let used = count_live p.license_id db in
      let cap = effective_cap p.max_concurrent p.overage_allowance in
      let l = new_lease id now (is_overage_seat used p.max_concurrent) p in
      elim (Bool-cases (leb cap used)) [
        | inl full ↦ refused (leb→le cap used full) (admit_full (leb→le cap used full))
        | inr room ↦
            admitted l refl (ground arith) hn hh
              (admit_room l refl (ground arith) (insert_lease_ok l db hn hh))
      ]

  -- An acquire ends in one of those ways.
  pub acquire-Acquired : Acquired id now p db (acquire id now p db)
  acquire-Acquired = elim (Option-cases (find (has_nonce p.nonce) db.leases)) [
    | inr (l, found) ↦ same_nonce l found (acquire_nonce l found)
    | inl fresh ↦ elim (Option-cases (find (is_held_by p.license_id p.holder_key) db.leases)) [
      | inr (l, found) ↦ same_holder l found (acquire_holder l fresh found)
      | inl free ↦
          subst (Acquired id now p db) (sym (acquire-admit fresh free))
            (admit-Acquired (find-eq-none _ _ fresh) (find-eq-none _ _ free))
    ]
  ]
