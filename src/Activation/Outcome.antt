-- ===== src/Activation/Outcome.antt =====
-- The outcomes of an activation (src/server/modules/activation/activate.ts) that returns.
use license_srv.Prelude.{
  ℕ, ◌<◌, ◌≡◌, refl, sym, ap, ◌∙◌, inl, inr, Bool, true, false, not, ◌&&◌, Option, none, some, List,
  ◌∷◌, map, arith, leb, ◌==◌, length, find, any_by, filter_by, update_where, Bool-cases,
}
use license_srv.Store.{
  License, LicenseStatus, Activation, Db, Result, ok, err, refuse_if, >>=-eq-ok, >>-eq-ok,
  refuse_if-eq-ok, seat_limit_reached,
}
use license_srv.Lease.Repo.{is_unique_violation}
use license_srv.Lease.Acquire.{is_license, is_expired}
use license_srv.Activation.Fingerprint.{derive_machine_id, MatchCandidate, choose_match}
use license_srv.Activation.Activate.{
  TokenSigner, Config, ActivateInput, Fresh, ActivationResult, is_active_of, with_activations,
  has_nonce, replay_prior, to_candidate, is_none, mint,
}
use license_srv.Activation.Activate.Bind.{
  Binding, binding_of, claims_of, has_id, clashes, refreshed, bound, refresh, insert, result_of,
  audit_binding, write, caught, mint_and_write, bind, decide,
}

-- The rows of a refresh or an insert that was written.
pub record Refreshed (b : Binding) (id : ℕ) (db db' : Db) : Type 0 where
  pub apart : any_by (λ a. not (has_id id a) && clashes b a) db.activations ≡ false
  pub rows : db'.activations ≡ update_where (has_id id) (refreshed b) db.activations
  pub licenses : db'.licenses ≡ db.licenses

pub record Inserted (b : Binding) (db db' : Db) : Type 0 where
  pub apart : any_by (clashes b) db.activations ≡ false
  pub rows : db'.activations ≡ bound b ∷ db.activations
  pub licenses : db'.licenses ≡ db.licenses

module _ (b : Binding) (db : Db) where
  refresh_cases :
      (id : ℕ) (c : Bool) {row : Option Activation} {db' : Db}
      → any_by (λ a. not (has_id id a) && clashes b a) db.activations ≡ c
      → refresh id b db ≡ ok (row, db')
      → Refreshed b id db db'
  unfolding refresh
  refresh_cases id true e h = cc (rw e at h)
  refresh_cases id false {row} {db'} e h =
      let done = rw e at h in
      let same : with_activations db (update_where (has_id id) (refreshed b) db.activations) ≡ db' =
        cc in
      record {
        apart = e;
        rows = ap (λ (d : Db). d.activations) (sym same);
        licenses = ap (λ (d : Db). d.licenses) (sym same);
      }

  insert_cases :
      (c : Bool) {row : Option Activation} {db' : Db}
      → any_by (clashes b) db.activations ≡ c
      → insert b db ≡ ok (row, db')
      → Inserted b db db'
  unfolding insert
  insert_cases true e h = cc (rw e at h)
  insert_cases false {row} {db'} e h =
      let done = rw e at h in
      let same : with_activations db (bound b ∷ db.activations) ≡ db' = cc in
      record {
        apart = e;
        rows = ap (λ (d : Db). d.activations) (sym same);
        licenses = ap (λ (d : Db). d.licenses) (sym same);
      }

result_of_cases :
    (b : Binding) (created : Bool) (row : Option Activation) (db : Db) {r : ActivationResult}
    {db' : Db}
    → result_of b created row db ≡ ok (r, db')
    → (r.created ≡ created) × (r.license_id ≡ b.license.id) × (db' ≡ db)
unfolding result_of
result_of_cases b created none db h = cc
result_of_cases b created (some row) db h = (cc, cc, cc)

-- The result of an insert is the row that was bound.
pub record Made (b : Binding) (r : ActivationResult) : Type 0 where
  pub created : r.created ≡ true
  pub id : r.id ≡ b.id
  pub key : r.machine_bound_key ≡ some b.token

module _ (b : Binding) (db : Db) where
  inserted_row :
      (c : Bool) {row : Option Activation} {db' : Db}
      → any_by (clashes b) db.activations ≡ c
      → insert b db ≡ ok (row, db')
      → row ≡ some (bound b)
  unfolding insert
  inserted_row true e h = cc (rw e at h)
  inserted_row false e h = cc (rw e at h)

  result_of-Made :
      (row : Option Activation) (mid : Db) {r : ActivationResult} {db' : Db}
      → row ≡ some (bound b)
      → result_of b true row mid ≡ ok (r, db')
      → Made b r
  unfolding result_of
  result_of-Made none mid e h = cc
  result_of-Made (some x) mid e h =
      let one : x ≡ bound b = cc in record { created = cc; id = cc; key = cc }

  write-Made : {r : ActivationResult} {db' : Db} → write b none db ≡ ok (r, db') → Made b r
  unfolding write audit_binding
  write-Made h =
      let (row, mid, done, rest) = >>=-eq-ok (insert b) _ db h in
      result_of-Made row _ (inserted_row _ refl done) rest

  write-Refreshed :
      (m : MatchCandidate) {r : ActivationResult} {db' : Db}
      → write b (some m) db ≡ ok (r, db')
      → Refreshed b m.id db db' × (r.created ≡ false) × (r.license_id ≡ b.license.id)
  unfolding write audit_binding
  write-Refreshed m {r} {db'} h =
      let (row, mid, done, rest) = >>=-eq-ok (refresh m.id b) _ db h in
      let w = refresh_cases b db m.id _ refl done in
      let (c, l, same) = result_of_cases b false row _ rest in
      (
        record {
          apart = w.apart;
          rows = ap (λ (d : Db). d.activations) same ∙ w.rows;
          licenses = ap (λ (d : Db). d.licenses) same ∙ w.licenses;
        },
        c,
        l,
      )

  write-Inserted :
      {r : ActivationResult} {db' : Db}
      → write b none db ≡ ok (r, db')
      → Inserted b db db' × (r.created ≡ true) × (r.license_id ≡ b.license.id)
  unfolding write audit_binding
  write-Inserted {r} {db'} h =
      let (row, mid, done, rest) = >>=-eq-ok (insert b) _ db h in
      let w = insert_cases b db _ refl done in
      let (c, l, same) = result_of_cases b true row _ rest in
      (
        record {
          apart = w.apart;
          rows = ap (λ (d : Db). d.activations) same ∙ w.rows;
          licenses = ap (λ (d : Db). d.licenses) same ∙ w.licenses;
        },
        c,
        l,
      )

caught_ok : {A : Type 0} (r : Result (A × Db)) {x : A × Db} → caught r ≡ ok x → r ≡ ok x
unfolding caught
caught_ok (ok y) h = h
caught_ok (err e) h = elim (Bool-cases (is_unique_violation e.code)) [
  | inl clash ↦ cc (rw clash at h)
  | inr other ↦ cc (rw other at h)
]

-- The license that an activation resolved: the row of its id, active and not expired.
pub record IsOpen (app_now : ℕ) (db : Db) (lic : License) : Type 0 where
  pub found : find (is_license lic.id) db.licenses ≡ some lic
  pub is_active : lic.status ≡ LicenseStatus.active
  pub unexpired : is_expired app_now lic.expires_at ≡ false

abbrev pub candidates_of : License → Db → List MatchCandidate
candidates_of lic db = map to_candidate (filter_by (is_active_of lic.id) db.activations)

module _ (config : Config) (fresh : Fresh) (input : ActivateInput) (lic : License) (db : Db) where
  abbrev machine : ℕ
  machine = derive_machine_id config.salted_hash input.signals

  abbrev chosen : Option MatchCandidate
  chosen = choose_match input.signals machine (candidates_of lic db) config.fp_min

  -- How an activation that returned ended.
  pub data Ending (db' : Db) (r : ActivationResult) : Type 0 where
    was_replayed :
        (row : Activation)
        → find (has_nonce input.nonce) db.activations ≡ some row
        → row.license_id ≡ lic.id
        → row.machine_id ≡ machine
        → r.id ≡ row.id
        → r.created ≡ false
        → r.machine_bound_key ≡ row.machine_bound_token
        → db' ≡ db
        → Ending db' r
    was_refreshed :
        (b : Binding) (m : MatchCandidate)
        → b.license ≡ lic
        → b.machine_id ≡ machine
        → b.nonce ≡ input.nonce
        → chosen ≡ some m
        → Refreshed b m.id db db'
        → r.created ≡ false
        → Ending db' r
    was_created :
        (b : Binding)
        → b.license ≡ lic
        → b.machine_id ≡ machine
        → b.nonce ≡ input.nonce
        → chosen ≡ none
        → length (candidates_of lic db) < lic.max_activations
        → Inserted b db db'
        → Made b r
        → Ending db' r

  module _ (signer : TokenSigner) where
    mint-some :
        (o : Option ℕ) {token : ℕ} {mid : Db}
        → mint o db ≡ ok (token, mid)
        → (o ≡ some token) × (mid ≡ db)
    unfolding mint
    mint-some none h = cc
    mint-some (some t) h = (cc, cc)

    written :
        (match : Option MatchCandidate) {r : ActivationResult} {db' : Db}
        → chosen ≡ match
        → (is_none match && leb lic.max_activations (length (candidates_of lic db))) ≡ false
        → mint_and_write config signer fresh input lic machine match db ≡ ok (r, db')
        → (r.license_id ≡ lic.id) × Ending db' r
    unfolding mint_and_write binding_of
    written none {r} {db'} e room h =
        let (token, mid, minted, rest) =
          >>=-eq-ok (mint (signer (claims_of config fresh input lic))) _ db h in
        let (t, same) = mint-some (signer (claims_of config fresh input lic)) minted in
        let b = binding_of config fresh input lic machine token in
        let (w, c, l) = write-Inserted b mid (caught_ok (write b none mid) rest) in
        (
          l,
          was_created b refl refl refl e (ground arith) (rw same at w)
              (write-Made b mid (caught_ok (write b none mid) rest)),
        )
    written (some m) {r} {db'} e room h =
        let (token, mid, minted, rest) =
          >>=-eq-ok (mint (signer (claims_of config fresh input lic))) _ db h in
        let (t, same) = mint-some (signer (claims_of config fresh input lic)) minted in
        let b = binding_of config fresh input lic machine token in
        let (w, c, l) = write-Refreshed b mid m (caught_ok (write b (some m) mid) rest) in
        (l, was_refreshed b m refl refl refl e (rw same at w) c)

    bind_cases :
        {r : ActivationResult} {db' : Db}
        → bind config signer fresh input lic machine db ≡ ok (r, db')
        → (r.license_id ≡ lic.id) × Ending db' r
    unfolding bind
    bind_cases h =
        let full = is_none chosen && leb lic.max_activations (length (candidates_of lic db)) in
        let code = seat_limit_reached lic.max_activations (length (candidates_of lic db)) in
        let (u, mid, refused, rest) =
          >>-eq-ok (refuse_if full code 409)
            (mint_and_write config signer fresh input lic machine chosen) db h in
        let (room, same) = refuse_if-eq-ok full code 409 db refused in
        written chosen refl room (rw same at rest)

    replay_cases :
        (row : Activation) {r : ActivationResult} {db' : Db}
        → find (has_nonce input.nonce) db.activations ≡ some row
        → replay_prior lic machine row db ≡ ok (r, db')
        → (r.license_id ≡ lic.id) × Ending db' r
    unfolding replay_prior
    replay_cases row found h =
        elim (Bool-cases (row.license_id == lic.id && row.machine_id == machine)) [
          | inl mine ↦
              let done = rw mine at h in
              (cc, was_replayed row found (ground arith) (ground arith) (cc) (cc) (cc) (cc))
          | inr other ↦ cc (rw other at h)
        ]

    pub decide_cases :
        (prior : Option Activation) {r : ActivationResult} {db' : Db}
        → find (has_nonce input.nonce) db.activations ≡ prior
        → decide config signer fresh input lic machine prior db ≡ ok (r, db')
        → (r.license_id ≡ lic.id) × Ending db' r
    unfolding decide
    decide_cases none e h = bind_cases h
    decide_cases (some row) e h = replay_cases row e h
