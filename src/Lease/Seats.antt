-- ===== src/Lease/Seats.antt =====
-- The invariant of the lease table (src/server/modules/lease/lease-repo.ts) and what keeps it.
use mathlib.Core.Path.{subst}
use license_srv.Prelude.{
  ℕ, ◌+◌, ◌≤◌, ◌<◌, ◌≡◌, sym, ap, ◌⊎◌, inl, inr, refl, Bool, if◌then◌else◌, true, false, Option,
  none, some, List, ◌∷◌, arith, ◌==◌, All, count_by, update_where, count_by-update_where_le,
  All-update_where,
}
use license_srv.Store.{Lease, LeaseStatus, live, Db, Result, ok}
use license_srv.Lease.Config.{effective_cap, is_overage_seat}
use license_srv.Lease.Repo.{
  is_live, has_id, has_nonce, is_live_of, is_held_by, with_leases, count_live, AcquireParams,
  AcquireOutcome, new_lease, acquire,
}
use license_srv.Lease.Repo.Outcome.{same_nonce, same_holder, refused, admitted, acquire-Acquired}

-- `lease_ended_shape`: a live lease has no end, and any other has one.
abbrev pub ended_shape : LeaseStatus → Option ℕ → Bool
ended_shape live none = true
ended_shape live (some _) = false
ended_shape _ none = false
ended_shape _ (some _) = true

abbrev pub HasShape : Lease → Type 0
HasShape l = ended_shape l.status l.ended_at ≡ true

-- Ids and nonces are unique, a holder has at most one live lease of a license, and the shape holds.
pub record WellFormed (leases : List Lease) : Type 0 where
  pub ids : (id : ℕ) → count_by (has_id id) leases ≤ 1
  pub nonces : (nonce : ℕ) → count_by (has_nonce nonce) leases ≤ 1
  pub holders : (license_id holder : ℕ) → count_by (is_held_by license_id holder) leases ≤ 1
  pub shapes : All HasShape leases

-- An update that keeps the keys of a row and makes no ended lease live again.
pub record Gentle (p : Lease → Bool) (f : Lease → Lease) : Type 0 where
  pub id : (l : Lease) → (f l).id ≡ l.id
  pub nonce : (l : Lease) → (f l).nonce ≡ l.nonce
  pub license_id : (l : Lease) → (f l).license_id ≡ l.license_id
  pub holder_key : (l : Lease) → (f l).holder_key ≡ l.holder_key
  pub live_before : (l : Lease) → p l ≡ true → is_live (f l).status ≡ true → is_live l.status ≡ true
  pub shape : (l : Lease) → p l ≡ true → HasShape l → HasShape (f l)

module _ (p : Lease → Bool) (f : Lease → Lease) (g : Gentle p f) where
  pub Gentle-count_live :
      (license_id : ℕ) (leases : List Lease)
      → count_by (is_live_of license_id) (update_where p f leases)
        ≤ count_by (is_live_of license_id) leases
  Gentle-count_live license_id leases =
      count_by-update_where_le _ p f leases
        (λ l h e. ground (arith, g.license_id l, g.live_before l h))

  pub Gentle-WellFormed :
      (leases : List Lease) → WellFormed leases → WellFormed (update_where p f leases)
  Gentle-WellFormed leases w = record {
    ids = λ id. omega (
      arith,
      w.ids id,
      count_by-update_where_le (has_id id) p f leases (λ l h e. ground (arith, g.id l)),
    );
    nonces = λ n. omega (
      arith,
      w.nonces n,
      count_by-update_where_le (has_nonce n) p f leases (λ l h e. ground (arith, g.nonce l)),
    );
    holders = λ c k. omega (
      arith,
      w.holders c k,
      count_by-update_where_le (is_held_by c k) p f leases
          (λ l h e. ground (arith, g.license_id l, g.holder_key l, g.live_before l h)),
    );
    shapes = All-update_where HasShape p f leases g.shape w.shapes;
  }

new_lease-WellFormed :
    (id now : ℕ) (o : Bool) (p : AcquireParams) (leases : List Lease)
    → count_by (has_id id) leases ≡ 0
    → count_by (has_nonce p.nonce) leases ≡ 0
    → count_by (is_held_by p.license_id p.holder_key) leases ≡ 0
    → WellFormed leases
    → WellFormed (new_lease id now o p ∷ leases)
unfolding new_lease count_by
new_lease-WellFormed id now o p leases hi hn hh w = record {
  ids = λ i. ground (arith, w.ids i);
  nonces = λ n. ground (arith, w.nonces n);
  holders = λ c k. ground (arith, w.holders c k);
  shapes = (refl, w.shapes);
}

new_lease-count_live :
    (id now : ℕ) (o : Bool) (p : AcquireParams) (leases : List Lease) (c : ℕ)
    → count_by (is_live_of c) (new_lease id now o p ∷ leases)
      ≡ (if c == p.license_id then 1 else 0) + count_by (is_live_of c) leases
unfolding new_lease count_by
new_lease-count_live id now o p leases c = ground arith

same_db :
    {r : Result (AcquireOutcome × Db)} {a o : AcquireOutcome} {db db' : Db}
    → r ≡ ok (a, db)
    → r ≡ ok (o, db')
    → db ≡ db'
same_db h e = cc

module _ (id now : ℕ) (p : AcquireParams) (db : Db) where
  -- What an acquire does to the table: nothing, or one more row.
  pub acquire_rows :
      {o : AcquireOutcome} {db' : Db}
      → acquire id now p db ≡ ok (o, db')
      → (db ≡ db')
        ⊎ ((b : Bool) × (db' ≡ with_leases db (new_lease id now b p ∷ db.leases))
            × (count_by (has_nonce p.nonce) db.leases ≡ 0)
            × (count_by (is_held_by p.license_id p.holder_key) db.leases ≡ 0)
            × (count_live p.license_id db < effective_cap p.max_concurrent p.overage_allowance))
  acquire_rows e = elim (acquire-Acquired id now p db) [
    | same_nonce l h r ↦ inl (same_db r e)
    | same_holder l h r ↦ inl (same_db r e)
    | refused h r ↦ inl (same_db r e)
    | admitted l hl room hn hh r ↦ inr (
      is_overage_seat (count_live p.license_id db) p.max_concurrent,
      rw (← hl) (cc),
      hn,
      hh,
      room,
    )
  ]

  -- An acquire that is given a fresh id keeps the table well formed.
  pub acquire-WellFormed :
      {o : AcquireOutcome} {db' : Db}
      → count_by (has_id id) db.leases ≡ 0
      → WellFormed db.leases
      → acquire id now p db ≡ ok (o, db')
      → WellFormed db'.leases
  acquire-WellFormed fresh w e = elim (acquire_rows e) [
    | inl same ↦ subst (λ d. WellFormed d.leases) same w
    | inr (b, grown, hn, hh, room) ↦
        subst (λ d. WellFormed d.leases) (sym grown)
          (new_lease-WellFormed id now b p db.leases fresh hn hh w)
  ]

  -- An acquire leaves the live count of every license as it was, or raises that of its own license
  -- by one seat, which lies within the effective cap that it was given.
  pub acquire-count_live :
      {o : AcquireOutcome} {db' : Db} (c : ℕ)
      → acquire id now p db ≡ ok (o, db')
      → (count_live c db' ≡ count_live c db)
        ⊎ ((c ≡ p.license_id)
            × (count_live c db' ≡ count_live c db + 1)
            × (count_live c db' ≤ effective_cap p.max_concurrent p.overage_allowance))
  unfolding count_live
  acquire-count_live c e = elim (acquire_rows e) [
    | inl same ↦ inl (ap (count_live c) (sym same))
    | inr (b, grown, hn, hh, room) ↦
        ground (arith, ap (count_live c) grown, new_lease-count_live id now b p db.leases c)
  ]

  pub acquire_licenses :
      {o : AcquireOutcome} {db' : Db}
      → acquire id now p db ≡ ok (o, db')
      → db'.licenses ≡ db.licenses
  acquire_licenses e = elim (acquire_rows e) [
    | inl same ↦ ap (λ d. Db.licenses d) (sym same)
    | inr (b, grown, hn, hh, room) ↦ ap (λ d. Db.licenses d) grown
  ]
