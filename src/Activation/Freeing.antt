-- ===== src/Activation/Freeing.antt =====
-- What a deactivation (src/server/modules/activation/deactivate.ts) frees.
use Prim.Native.String.{String}
use license_srv.Prelude.{
  ◌⊎◌, inl, inr, ℕ, ◌+◌, ◌≤◌, ◌≡◌, refl, sym, ap, ◌∙◌, ◌&&◌, Option, none, some, arith, find,
  count_by, update_where, if◌then◌else◌, count_by-update_where_clear, count_by_of_unique,
  find-update_where, find-eq-some, count_by-update_where_le,
}
use license_srv.Store.{Activation, ActivationStatus, Db, ok, pure, ◌>>◌}
use license_srv.Activation.Activate.{is_active_of, count_active}
use license_srv.Activation.Activate.Bind.{has_id}
use license_srv.Activation.Deactivate.{
  DeactivateResult, gone, deactivated_row, flip, deactivate_found, deactivate,
}

-- The rows of the two ways in which a deactivation returns.
pub data Deactivated (now id : ℕ) (db db' : Db) : Type 0 where
  freed :
      (a : Activation)
      → find (has_id id) db.activations ≡ some a
      → a.status ≡ ActivationStatus.active
      → db'.activations ≡ update_where (has_id id) (deactivated_row now) db.activations
      → db'.licenses ≡ db.licenses
      → Deactivated now id db db'
  was_free :
      (a : Activation)
      → find (has_id id) db.activations ≡ some a
      → a.status ≡ ActivationStatus.deactivated
      → db' ≡ db
      → Deactivated now id db db'

module _ (actor : String) (now id : ℕ) (db : Db) where
  found_cases :
      (a : Activation) (s : ActivationStatus) {r : DeactivateResult} {db' : Db}
      → find (has_id id) db.activations ≡ some a
      → a.status ≡ s
      → (flip actor now id s >> pure (gone id)) db ≡ ok (r, db')
      → Deactivated now id db db' × (r ≡ gone id)
  unfolding flip
  found_cases a ActivationStatus.active f e h = (freed a f e (ground arith) (ground arith), cc)
  found_cases a ActivationStatus.deactivated f e h = (was_free a f e cc, cc)

  deactivate_found_cases :
      (row : Option Activation) {r : DeactivateResult} {db' : Db}
      → find (has_id id) db.activations ≡ row
      → deactivate_found actor now id row db ≡ ok (r, db')
      → Deactivated now id db db' × (r ≡ gone id)
  unfolding deactivate_found
  deactivate_found_cases none f h = cc
  deactivate_found_cases (some a) f h = found_cases a a.status f refl h

  pub deactivate_cases :
      {r : DeactivateResult} {db' : Db}
      → deactivate actor now id db ≡ ok (r, db')
      → Deactivated now id db db' × (r ≡ gone id)
  unfolding deactivate
  deactivate_cases h = deactivate_found_cases (find (has_id id) db.activations) refl h

  flip_free :
      (s : ActivationStatus)
      → s ≡ ActivationStatus.deactivated
      → (flip actor now id s >> pure (gone id)) db ≡ ok (gone id, db)
  unfolding flip
  flip_free ActivationStatus.active e = cc
  flip_free ActivationStatus.deactivated e = refl

  found_free :
      (row : Option Activation) (a : Activation)
      → row ≡ some a
      → a.status ≡ ActivationStatus.deactivated
      → deactivate_found actor now id row db ≡ ok (gone id, db)
  unfolding deactivate_found flip
  found_free none a e s = cc
  found_free (some x) a e s = flip_free x.status (cc (ap (λ (o : Option Activation). o) e))

  deactivate_free :
      (a : Activation)
      → find (has_id id) db.activations ≡ some a
      → a.status ≡ ActivationStatus.deactivated
      → deactivate actor now id db ≡ ok (gone id, db)
  unfolding deactivate
  deactivate_free a f s = found_free (find (has_id id) db.activations) a f s

-- Deactivating twice is deactivating once: the second call returns the same and changes nothing,
-- not even the audit trail.
pub deactivate_twice :
    (actor actor' : String) (now now' id : ℕ) (db mid : Db) (r : DeactivateResult)
    → deactivate actor now id db ≡ ok (r, mid)
    → deactivate actor' now' id mid ≡ ok (r, mid)
deactivate_twice actor actor' now now' id db mid r h =
    let (d, r_eq) = deactivate_cases actor now id db h in
    elim d [
      | freed a f e rows same ↦
          let moved =
            find-update_where (has_id id) (has_id id) (deactivated_row now) db.activations
              (λ y. refl) f in
          let now_free : find (has_id id) mid.activations ≡ some (deactivated_row now a) =
            rw rows (rw (find-eq-some (has_id id) db.activations f) at moved) in
          rw r_eq (deactivate_free actor' now' id mid (deactivated_row now a) now_free refl)
      | was_free a f e same ↦ rw (r_eq, same) (deactivate_free actor' now' id db a f e)
    ]

-- A deactivation of an active row, whose id no other row has, frees one seat of its license and
-- none of another; one of a row that is not active changes nothing in any table.
pub deactivate_frees :
    (actor : String) (now id : ℕ) (db db' : Db) (r : DeactivateResult) (a : Activation) (c : ℕ)
    → deactivate actor now id db ≡ ok (r, db')
    → find (has_id id) db.activations ≡ some a
    → count_by (has_id id) db.activations ≤ 1
    → (count_active c db' + (if is_active_of c a then 1 else 0) ≡ count_active c db)
      × ((a.status ≡ ActivationStatus.active) ⊎ (db' ≡ db))
unfolding count_active
deactivate_frees actor now id db db' r a c h f u = elim (deactivate_cases actor now id db h).0 [
  | freed x f' e rows same ↦
      let cleared =
        count_by-update_where_clear (is_active_of c) (has_id id) (deactivated_row now)
          db.activations (λ y p. ground arith) in
      let one =
        count_by_of_unique (has_id id) (has_id id) (λ y. has_id id y && is_active_of c y)
          db.activations u f (find-eq-some (has_id id) db.activations f) (λ y p. ground arith) in
      let own = find-eq-some (has_id id) db.activations f in
      let row : x ≡ a = cc in
      (rw rows (ground arith), inl (ap (λ (y : Activation). y.status) (sym row) ∙ e))
  | was_free x f' e same ↦
      let one : x ≡ a = cc in
      let off : a.status ≡ ActivationStatus.deactivated =
        ap (λ (y : Activation). y.status) (sym one) ∙ e in
      (rw same (ground arith), inr same)
]

-- No deactivation takes a seat.
pub deactivate_le :
    (actor : String) (now id : ℕ) (db db' : Db) (r : DeactivateResult) (c : ℕ)
    → deactivate actor now id db ≡ ok (r, db')
    → (count_active c db' ≤ count_active c db) × (db'.licenses ≡ db.licenses)
unfolding count_active
deactivate_le actor now id db db' r c h = elim (deactivate_cases actor now id db h).0 [
  | freed x f e rows same ↦ (
    rw rows (
        count_by-update_where_le (is_active_of c) (has_id id) (deactivated_row now) db.activations
          (λ y p q. ground arith)),
    same,
  )
  | was_free x f e same ↦ (rw same (omega arith), ap (λ (d : Db). d.licenses) same)
]
