-- ===== src/Activation/Replay.antt =====
-- The retries of `activate` (src/server/modules/activation/activate.ts): a nonce seen before.
use Prim.Native.String.{String}
use license_srv.Prelude.{
  ℕ, ◌≡◌, refl, sym, ap, ◌∙◌, inl, inr, true, false, ◌&&◌, Option, some, List, ◌∷◌, arith, ltb,
  ◌==◌, length, find, update_where, Bool-cases,
}
use license_srv.Store.{Result, License, Activation, ActivationStatus, Db, ok, commit, with_tenant}
use license_srv.Activation.Fingerprint.{derive_machine_id}
use license_srv.Activation.Activate.{
  TokenSigner, Config, ActivateInput, Fresh, ActivationResult, count_active, resolve_id, locked,
  has_nonce, replay_prior,
}
use license_srv.Lease.Acquire.{is_license, is_expired}
use license_srv.Activation.Activate.Bind.{
  Binding, bound, has_id, decide, activate_tx, with_signer, activate,
}
use license_srv.Activation.Deactivate.{DeactivateResult, deactivated_row, deactivate}
use license_srv.Activation.Freeing.{freed, was_free, deactivate_cases}
use license_srv.Activation.Service.{activate_cases}
use license_srv.Activation.Outcome.{IsOpen, Inserted, was_replayed, was_refreshed, was_created}

-- The answer that repeats the row `a` for its license.
abbrev pub answer : License → Activation → Db → ActivationResult
answer lic a db = record {
  id = a.id;
  license_id = lic.id;
  machine_id = a.machine_id;
  status = ActivationStatus.active;
  activated_at = a.activated_at;
  seats_used = count_active lic.id db;
  seat_limit = lic.max_activations;
  machine_bound_key = a.machine_bound_token;
  created = false;
}

module _ (config : Config) (signer : TokenSigner) (fresh : Fresh) (input : ActivateInput) (db : Db)
    (lic : License) (a : Activation) where
  replay_prior_own :
      a.license_id ≡ lic.id
      → a.machine_id ≡ derive_machine_id config.salted_hash input.signals
      → replay_prior lic (derive_machine_id config.salted_hash input.signals) a db
        ≡ ok (answer lic a db, db)
  unfolding replay_prior
  replay_prior_own l m =
      let mine : (a.license_id == lic.id
            && a.machine_id == derive_machine_id config.salted_hash input.signals)
          ≡ true =
        ground arith in
      rw (mine, m)

  activate_tx_replay :
      IsOpen fresh.app_now db lic
      → input.license_id ≡ some lic.id
      → find (has_nonce input.nonce) db.activations ≡ some a
      → a.license_id ≡ lic.id
      → a.machine_id ≡ derive_machine_id config.salted_hash input.signals
      → activate_tx config signer fresh input db ≡ ok (answer lic a db, db)
  unfolding activate_tx resolve_id locked decide
  activate_tx_replay o named prior l m =
      rw (named, o.found, o.is_active, o.unexpired, prior) (replay_prior_own l m)

  pub activate_replay :
      IsOpen fresh.app_now db lic
      → ltb (length input.signals) config.fp_min ≡ false
      → input.license_id ≡ some lic.id
      → find (has_nonce input.nonce) db.activations ≡ some a
      → a.license_id ≡ lic.id
      → a.machine_id ≡ derive_machine_id config.salted_hash input.signals
      → activate config (some signer) fresh input db ≡ (ok (answer lic a db), db)
  unfolding activate with_signer with_tenant commit
  activate_replay o enough named prior l m = rw (enough, activate_tx_replay o named prior l m)

enough_signals :
    (config : Config) (signer : Option TokenSigner) (fresh : Fresh) (input : ActivateInput)
    (db db' : Db) (r : ActivationResult)
    → activate config signer fresh input db ≡ (ok r, db')
    → ltb (length input.signals) config.fp_min ≡ false
unfolding activate
enough_signals config signer fresh input db db' r h =
    elim (Bool-cases (ltb (length input.signals) config.fp_min)) [
      | inl few ↦
          absurd (let e = ap (λ (p : Result ActivationResult × Db). p.0) (rw few at h) in cc)
      | inr enough ↦ enough
    ]

-- The row of a binding, once its id has been deactivated.
freed_row :
    (b : Binding) (rows : List Activation) (at id n : ℕ)
    → id ≡ b.id
    → n ≡ b.nonce
    → find (has_nonce n) (update_where (has_id id) (deactivated_row at) (bound b ∷ rows))
      ≡ some (deactivated_row at (bound b))
unfolding find update_where
freed_row b rows at id n i e = ground arith

first_by_id :
    (b : Binding) (rows : List Activation) (id : ℕ)
    → id ≡ b.id
    → find (has_id id) (bound b ∷ rows) ≡ some (bound b)
unfolding find
first_by_id b rows id i = ground arith

-- The rows after a binding was created and its id deactivated.
freed_after :
    (b : Binding) (actor : String) (at id n : ℕ) (db mid last : Db) (d : DeactivateResult)
    → Inserted b db mid
    → id ≡ b.id
    → n ≡ b.nonce
    → deactivate actor at id mid ≡ ok (d, last)
    → (find (has_nonce n) last.activations ≡ some (deactivated_row at (bound b)))
      × (last.licenses ≡ mid.licenses)
freed_after b actor at id n db mid last d w i e h =
    let first : find (has_id id) mid.activations ≡ some (bound b) =
      rw w.rows (first_by_id b db.activations id i) in
    elim (deactivate_cases actor at id mid h).0 [
      | freed x f s rows same ↦ (rw (rows, w.rows) (freed_row b db.activations at id n i e), same)
      | was_free x f s same ↦
          let one : bound b ≡ x = cc in
          absurd (
            let now : ActivationStatus.active ≡ ActivationStatus.deactivated =
              ap (λ (y : Activation). y.status) one ∙ s in
            cc)
    ]

-- The same request, after the binding that it created has been deactivated, is answered with that
-- binding and its credential as an active one, although its row is not active.
pub record Resurfaces (config : Config) (signer : TokenSigner) (fresh : Fresh)
    (input : ActivateInput) (r : ActivationResult) (last : Db) : Type 0 where
  pub row : Activation
  pub again : ActivationResult
  pub stored : find (has_nonce input.nonce) last.activations ≡ some row
  pub is_gone : row.status ≡ ActivationStatus.deactivated
  pub answered : activate config (some signer) fresh input last ≡ (ok again, last)
  pub same_id : again.id ≡ r.id
  pub same_key : again.machine_bound_key ≡ r.machine_bound_key
  pub as_active : again.status ≡ ActivationStatus.active
  pub not_created : again.created ≡ false

-- An activation that names its license and creates a binding, a deactivation of that binding, and
-- the same request again, before the license expires: the third call is answered with the id and the
-- credential of the first as an active binding, and changes nothing, although the stored row is
-- deactivated.
pub activate_retry_deactivated :
    (config : Config) (signer signer' : TokenSigner) (fresh fresh' : Fresh) (input : ActivateInput)
    (actor : String) (at : ℕ) (db mid last : Db) (r : ActivationResult) (d : DeactivateResult)
    (lic : License)
    → activate config (some signer) fresh input db ≡ (ok r, mid)
    → r.created ≡ true
    → input.license_id ≡ some r.license_id
    → find (is_license r.license_id) db.licenses ≡ some lic
    → deactivate actor at r.id mid ≡ ok (d, last)
    → is_expired fresh'.app_now lic.expires_at ≡ false
    → Resurfaces config signer' fresh' input r last
activate_retry_deactivated config signer signer' fresh fresh' input actor at db mid last r d lic h c
      named found off later =
    elim (activate_cases config fresh input db mid (some signer) h) [
      | inl (e, bad, same) ↦ cc
      | inr (r', one, a) ↦ elim a.ending [
        | was_replayed row f l m i made key same ↦ cc
        | was_refreshed b m l k n chosen w made ↦ cc
        | was_created b l k n chosen room w made ↦
            let own : r.license_id ≡ a.license.id = cc in
            let there : find (is_license r.license_id) db.licenses ≡ some a.license =
              rw own a.is_open.found in
            let lic_eq : lic ≡ a.license = cc in
            let lic_id : lic.id ≡ r.license_id = ap (λ (x : License). x.id) lic_eq ∙ sym own in
            let own_row : r.id ≡ b.id = cc in
            let (stored, kept) =
              freed_after b actor at r.id input.nonce db mid last d w own_row (sym n) off in
            let is_open : IsOpen fresh'.app_now last lic = record {
              found =
                  ap (λ (n : ℕ). find (is_license n) last.licenses) lic_id
                  ∙ (rw (kept ∙ w.licenses) found);
              is_active = ap (λ (x : License). x.status) lic_eq ∙ a.is_open.is_active;
              unexpired = later;
            } in
            record {
              row = deactivated_row at (bound b);
              again = answer lic (deactivated_row at (bound b)) last;
              stored = stored;
              is_gone = refl;
              answered =
                  activate_replay config signer' fresh' input last lic
                    (deactivated_row at (bound b)) is_open
                    (enough_signals config (some signer) fresh input db mid r h) (rw lic_id named)
                    stored (ap (λ (x : License). x.id) (l ∙ sym lic_eq)) k;
              same_id = sym own_row;
              same_key = sym (let e : r.machine_bound_key ≡ some b.token = cc in e);
              as_active = refl;
              not_created = refl;
            }
      ]
    ]
