-- ===== src/Activation/Service.antt =====
-- The whole of `activate` (src/server/modules/activation/activate.ts): a refusal leaves the tables,
-- and a return binds a machine to an open license.
use license_srv.Prelude.{
  ℕ, ◌≡◌, refl, sym, ap, ◌∙◌, ◌⊎◌, inl, inr, true, not, ◌||◌, Option, none, some, arith, ltb, ◌==◌,
  length, find, Bool-cases, or_left, or_right, find-eq-some,
}
use license_srv.Store.{
  License, Db, Result, ok, err, Failure, refuse_if, query, >>=-eq-ok, >>-eq-ok, refuse_if-eq-ok,
  with_tenant_cases, license_not_active, ◌>>=◌, ◌>>◌,
}
use license_srv.Lease.Acquire.{is_license, is_active_status, is_expired}
use license_srv.Lease.Admission.{active_of}
use license_srv.Activation.Fingerprint.{derive_machine_id}
use license_srv.Activation.Activate.{
  TokenSigner, Config, ActivateInput, Fresh, ActivationResult, id_of_key, has_key, resolve_id,
  locked, has_nonce,
}
use license_srv.Activation.Activate.Bind.{decide, activate_tx, with_signer, activate}
use license_srv.Activation.Outcome.{IsOpen, Ending, decide_cases}

-- An activation that returned `r`.
pub record Activated (config : Config) (fresh : Fresh) (input : ActivateInput) (db db' : Db)
    (r : ActivationResult) : Type 0 where
  pub license : License
  pub is_open : IsOpen fresh.app_now db license
  pub own : r.license_id ≡ license.id
  pub ending : Ending config fresh input license db db' r

module _ (db : Db) where
  id_of_key_reads :
      (o : Option License) {id : ℕ} {mid : Db} → id_of_key o db ≡ ok (id, mid) → mid ≡ db
  unfolding id_of_key
  id_of_key_reads none h = cc
  id_of_key_reads (some lic) h = cc

  resolve_id_reads :
      (id key : Option ℕ) {n : ℕ} {mid : Db} → resolve_id id key db ≡ ok (n, mid) → mid ≡ db
  unfolding resolve_id
  resolve_id_reads (some id) key h = cc
  resolve_id_reads none key h = id_of_key_reads (find (has_key key) db.licenses) h

  locked_cases :
      (row : Option License) {l : License} {mid : Db}
      → locked row db ≡ ok (l, mid)
      → (row ≡ some l) × (mid ≡ db)
  unfolding locked
  locked_cases none h = cc
  locked_cases (some x) h = (cc, cc)

own_id : (a b : ℕ) → (a == b) ≡ true → b ≡ a
own_id a b h = ground arith

module _ (config : Config) (fresh : Fresh) (input : ActivateInput) (db db' : Db) where
  after_lock :
      (signer : TokenSigner) (id : ℕ) (lic : License) {r : ActivationResult}
      → find (is_license id) db.licenses ≡ some lic
      → (refuse_if
              (not (is_active_status lic.status) || is_expired fresh.app_now lic.expires_at)
              license_not_active
              409
            >> (query (λ d. find (has_nonce input.nonce) (Db.activations d)) >>= λ prior.
                decide config signer fresh input lic
                  (derive_machine_id config.salted_hash input.signals)
                  prior))
          db
        ≡ ok (r, db')
      → Activated config fresh input db db' r
  after_lock signer id lic found h =
      let bad = not (is_active_status lic.status) || is_expired fresh.app_now lic.expires_at in
      let (u, mid, refused, rest) =
        >>-eq-ok (refuse_if bad license_not_active 409)
          (query (λ d. find (has_nonce input.nonce) (Db.activations d)) >>= λ prior.
            decide config signer fresh input lic
              (derive_machine_id config.salted_hash input.signals) prior)
          db h in
      let (good, same) = refuse_if-eq-ok bad license_not_active 409 db refused in
      let (own, ending) = decide_cases config fresh input lic db signer _ refl (rw same at rest) in
      let id_eq : id ≡ lic.id = own_id lic.id id (find-eq-some (is_license id) db.licenses found) in
      record {
        license = lic;
        is_open = record {
          found = rw id_eq at found;
          is_active =
              active_of lic.status (or_left _ (is_expired fresh.app_now lic.expires_at) good);
          unexpired = or_right (not (is_active_status lic.status)) _ good;
        };
        own = own;
        ending = ending;
      }

  activate_tx_cases :
      (signer : TokenSigner) {r : ActivationResult}
      → activate_tx config signer fresh input db ≡ ok (r, db')
      → Activated config fresh input db db' r
  unfolding activate_tx
  activate_tx_cases signer h =
      let (id, mid, resolved, rest) =
        >>=-eq-ok (resolve_id input.license_id input.license_key) _ db h in
      let same = resolve_id_reads db input.license_id input.license_key resolved in
      let (lic, mid', lock, rest') =
        >>=-eq-ok (locked (find (is_license id) mid.licenses)) _ mid rest in
      let (found, same') = locked_cases mid (find (is_license id) mid.licenses) lock in
      after_lock signer id lic (rw same at found) (rw (same' ∙ same) at rest')

  with_signer_cases :
      (signer : Option TokenSigner) {res : Result ActivationResult}
      → with_signer config signer fresh input db ≡ (res, db')
      → ((e : Failure) × (res ≡ err e) × (db' ≡ db))
        ⊎ ((r : ActivationResult) × (res ≡ ok r) × Activated config fresh input db db' r)
  unfolding with_signer
  with_signer_cases none h = inl (
    _,
    sym (ap (λ (p : Result ActivationResult × Db). p.0) h),
    sym (ap (λ (p : Result ActivationResult × Db). p.1) h),
  )
  with_signer_cases (some signer) h =
      elim (with_tenant_cases db (activate_tx config signer fresh input) h) [
        | inl refused ↦ inl refused
        | inr (r, e, done) ↦ inr (r, e, activate_tx_cases signer done)
      ]

  -- An activation either is refused, and leaves the tables as they were, or returns for an active,
  -- unexpired license: it repeats an earlier result, refreshes a seat that it matches, or takes a
  -- new seat below the license's limit.
  pub activate_cases :
      (signer : Option TokenSigner) {res : Result ActivationResult}
      → activate config signer fresh input db ≡ (res, db')
      → ((e : Failure) × (res ≡ err e) × (db' ≡ db))
        ⊎ ((r : ActivationResult) × (res ≡ ok r) × Activated config fresh input db db' r)
  unfolding activate
  activate_cases signer h = elim (Bool-cases (ltb (length input.signals) config.fp_min)) [
    | inl few ↦
        let h' = rw few at h in
        inl (
          _,
          sym (ap (λ (p : Result ActivationResult × Db). p.0) h'),
          sym (ap (λ (p : Result ActivationResult × Db). p.1) h'),
        )
    | inr enough ↦ with_signer_cases signer (rw enough at h)
  ]
