-- ===== src/Activation/Seats.antt =====
-- The seats of a license (src/server/modules/activation): every history of activations and
-- deactivations keeps them within the license's limit.
use mathlib.Core.Path.{subst}
use license_srv.Prelude.{
  Option, ℕ, suc, ◌+◌, ◌≤◌, ◌<◌, ◌≡◌, refl, ap, ◌∙◌, ◌⊎◌, inl, inr, true, some, List, [], ◌∷◌, map,
  arith, ◌==◌, length, find, count_by, filter_by, length-filter_by, count_by-update_where_eq,
  Bool-cases, if◌then◌else◌,
}
use license_srv.Store.{License, Db, ok}
use license_srv.Lease.Acquire.{is_license}
use license_srv.Activation.Activate.{
  TokenSigner, Config, ActivateInput, Fresh, ActivationResult, is_active_of, count_active,
  to_candidate,
}
use license_srv.Activation.Activate.Bind.{Binding, has_id, refreshed, activate}
use license_srv.Activation.Outcome.{
  was_replayed, was_refreshed, was_created, Refreshed, Inserted, candidates_of,
}
use license_srv.Activation.Service.{Activated, activate_cases}

length-map : {A B : Type 0} (f : A → B) (xs : List A) → length (map f xs) ≡ length xs
length-map f [] = refl
length-map f (x ∷ xs) = ap suc (length-map f xs)

candidates_count :
    (lic : License) (db : Db) → length (candidates_of lic db) ≡ count_active lic.id db
unfolding count_active
candidates_count lic db =
    length-map to_candidate (filter_by (is_active_of lic.id) db.activations)
    ∙ length-filter_by (is_active_of lic.id) db.activations

Refreshed-count :
    (b : Binding) (id : ℕ) (db db' : Db)
    → Refreshed b id db db'
    → (c : ℕ) → count_active c db' ≡ count_active c db
unfolding count_active
Refreshed-count b id db db' w c =
    ap (count_by (is_active_of c)) w.rows
    ∙ count_by-update_where_eq (is_active_of c) (has_id id) (refreshed b) db.activations
        (λ x h. refl)

Inserted-count :
    (b : Binding) (db db' : Db)
    → Inserted b db db'
    → (c : ℕ) → count_active c db' ≡ count_active c db + (if b.license.id == c then 1 else 0)
unfolding count_active count_by
Inserted-count b db db' w c = ap (count_by (is_active_of c)) w.rows ∙ ground arith

-- What an activation does to the seats of the license `c`: nothing, or one more, within the limit.
pub record SeatTaken (r : ActivationResult) (c : ℕ) (db db' : Db) : Type 0 where
  pub license : License
  pub created : r.created ≡ true
  pub own : r.license_id ≡ c
  pub found : find (is_license c) db.licenses ≡ some license
  pub more : count_active c db' ≡ count_active c db + 1
  pub within : count_active c db' ≤ license.max_activations

module _ (config : Config) (fresh : Fresh) (input : ActivateInput) (db db' : Db)
    (r : ActivationResult) (c : ℕ) where
  created_count :
      (b : Binding) (lic : License)
      → b.license ≡ lic
      → find (is_license lic.id) db.licenses ≡ some lic
      → r.license_id ≡ lic.id
      → r.created ≡ true
      → length (candidates_of lic db) < lic.max_activations
      → Inserted b db db'
      → (count_active c db' ≡ count_active c db) ⊎ SeatTaken r c db db'
  created_count b lic same found own made room w =
      let b_id : b.license.id ≡ lic.id = ap (λ (l : License). l.id) same in
      let n = candidates_count lic db in
      let count = Inserted-count b db db' w c in
      elim (Bool-cases (lic.id == c)) [
        | inr other ↦ inl (ground arith)
        | inl mine ↦
            let c_eq : lic.id ≡ c = ground arith in
            inr (record {
              license = lic;
              created = made;
              own = own ∙ c_eq;
              found = subst (λ k. find (is_license k) db.licenses ≡ some lic) c_eq found;
              more = ground arith;
              within = ground arith;
            })
      ]

  Ending-count :
      (a : Activated config fresh input db db' r)
      → (count_active c db' ≡ count_active c db) ⊎ SeatTaken r c db db'
  Ending-count a = elim a.ending [
    | was_replayed row found l m i made key same ↦ inl (ap (count_active c) same)
    | was_refreshed b m l k n chosen w made ↦ inl (Refreshed-count b m.id db db' w c)
    | was_created b l k n chosen room w made ↦
        created_count b a.license l a.is_open.found a.own made.created room w
  ]

  Ending-licenses : (a : Activated config fresh input db db' r) → db'.licenses ≡ db.licenses
  Ending-licenses a = elim a.ending [
    | was_replayed row found l m i made key same ↦ ap (λ (d : Db). d.licenses) same
    | was_refreshed b m l k n chosen w made ↦ w.licenses
    | was_created b l k n chosen room w made ↦ w.licenses
  ]

  -- An activation that returns leaves the licenses, and takes at most one seat: of the license that
  -- it names in its result, when it says that it created one, and within that license's limit.
  pub activate_seats :
      (signer : Option TokenSigner)
      → activate config signer fresh input db ≡ (ok r, db')
      → (db'.licenses ≡ db.licenses)
        × ((count_active c db' ≡ count_active c db) ⊎ SeatTaken r c db db')
  activate_seats signer h = elim (activate_cases config fresh input db db' signer h) [
    | inl (e, no_r, same) ↦ cc
    | inr (r', is_r, a) ↦
        let one : r' ≡ r = cc in
        let a' : Activated config fresh input db db' r =
          subst (Activated config fresh input db db') one a in
        (Ending-licenses a', Ending-count a')
  ]
