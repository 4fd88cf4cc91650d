-- ===== src/Activation/Activate/Bind.antt =====
-- src/server/modules/activation/activate.ts: matching, minting and writing the binding, and the
-- whole activation.
use Prim.Native.String.{String}
use license_srv.Prelude.{
  ℕ, ◌/◌, Bool, true, false, not, ◌&&◌, ◌||◌, Option, none, some, List, [], ◌∷◌, map, ltb, leb,
  ◌==◌, if◌then◌else◌, length, find, any_by, filter_by, update_where,
}
use license_srv.Store.{
  License, Activation, ActivationStatus, Db, AuditValue, Result, ok, err, license_not_active,
  insufficient_signals, signer_unavailable, nonce_replayed, seat_limit_reached, unique_violation,
  type_error, Tx, ◌>>=◌, ◌>>◌, pure, throw, refuse_if, query, write_audit, with_tenant,
}
use license_srv.Lease.Acquire.{is_license, is_active_status, is_expired}
use license_srv.Lease.Repo.{is_unique_violation}
use license_srv.Activation.Fingerprint.{derive_machine_id, MatchCandidate, choose_match, or_else}
use license_srv.Activation.Credential.{Claims, build_machine_claims}
use license_srv.Activation.Activate.{
  TokenSigner, Config, ActivateInput, Fresh, ActivationResult, is_active_of, count_active,
  with_activations, resolve_id, locked, has_nonce, replay_prior, to_candidate, is_none, mint,
}

-- What is written once the seat is secured.
pub record Binding : Type 0 where
  pub license : License
  pub machine_id : ℕ
  pub signals : List ℕ
  pub fp_min : ℕ
  pub nonce : ℕ
  pub token : ℕ
  pub label : Option String
  pub id : ℕ
  pub db_now : ℕ

unfoldable pub binding_of :
    Config → Fresh → ActivateInput → License → (machine_id token : ℕ) → Binding
binding_of config fresh input license machine_id token = record {
  license = license;
  machine_id = machine_id;
  signals = input.signals;
  fp_min = config.fp_min;
  nonce = input.nonce;
  token = token;
  label = input.label;
  id = fresh.id;
  db_now = fresh.db_now;
}

abbrev pub has_id : ℕ → Activation → Bool
has_id id a = Activation.id a == id

-- The two unique indexes of the table: the nonce, and one active row of a license and machine.
abbrev pub clashes : Binding → Activation → Bool
clashes b a = has_nonce b.nonce a || (is_active_of b.license.id a && a.machine_id == b.machine_id)

abbrev pub refreshed : Binding → Activation → Activation
refreshed b a = record a {
  machine_id = b.machine_id;
  signal_hashes = b.signals;
  fp_min = b.fp_min;
  nonce = b.nonce;
  machine_bound_token = some b.token;
  label = or_else b.label a.label;
  updated_at = b.db_now;
}

abbrev pub bound : Binding → Activation
bound b = record {
  id = b.id;
  license_id = b.license.id;
  machine_id = b.machine_id;
  signal_hashes = b.signals;
  fp_min = b.fp_min;
  status = ActivationStatus.active;
  activated_at = b.db_now;
  deactivated_at = none;
  updated_at = b.db_now;
  nonce = b.nonce;
  machine_bound_token = some b.token;
  label = b.label;
}

-- The row of an `UPDATE … RETURNING`.
unfoldable pub refresh : (id : ℕ) → Binding → Tx (Option Activation)
refresh id b db =
    let rows = update_where (has_id id) (refreshed b) db.activations in
    if any_by (λ a. not (has_id id a) && clashes b a) db.activations
    then throw unique_violation 500 db
    else ok (find (has_id id) rows, with_activations db rows)

unfoldable pub insert : Binding → Tx (Option Activation)
insert b db =
    if any_by (clashes b) db.activations
    then throw unique_violation 500 db
    else ok (some (bound b), with_activations db (bound b ∷ db.activations))

unfoldable pub result_of : Binding → (created : Bool) → Option Activation → Tx ActivationResult
unfolding count_active
result_of b created none = throw type_error 500
result_of b created (some row) = do
  used ← query (count_active b.license.id)
  pure (record {
    id = row.id;
    license_id = b.license.id;
    machine_id = b.machine_id;
    status = ActivationStatus.active;
    activated_at = row.activated_at;
    seats_used = used;
    seat_limit = b.license.max_activations;
    machine_bound_key = some b.token;
    created = created;
  })

unfoldable pub audit_binding : (action : String) → (id : ℕ) → Binding → Tx (Unit {0})
audit_binding action id b =
    write_audit "activation-api" action id
      (("licenseId", AuditValue.id b.license.id) ∷ ("machineId", AuditValue.id b.machine_id) ∷ [])

-- The body of the `try`.
unfoldable pub write : Binding → Option MatchCandidate → Tx ActivationResult
unfolding refresh insert result_of audit_binding
write b (some match) = do
  row ← refresh match.id b
  audit_binding "activation.refreshed" match.id b
  result_of b false row
write b none = do row ← insert b; audit_binding "activation.created" b.id b; result_of b true row

-- `catch (e)`: a unique violation is a nonce that another request took.
unfoldable pub caught : {A : Type 0} → Result (A × Db) → Result (A × Db)
caught (ok r) = ok r
caught (err e) =
    if is_unique_violation e.code
    then err (record { code = nonce_replayed; status = 409 })
    else err e

abbrev pub claims_of : Config → Fresh → ActivateInput → License → Claims
claims_of config fresh input license =
    build_machine_claims license input.signals config.fp_min config.max_skew_secs
      (fresh.app_now / 1000) config.credential_ttl_secs fresh.claims_nonce

unfoldable pub mint_and_write :
    Config
    → TokenSigner
    → Fresh
    → ActivateInput
    → License
    → (machine_id : ℕ) → Option MatchCandidate
    → Tx ActivationResult
unfolding mint write caught build_machine_claims binding_of
mint_and_write config signer fresh input license machine_id match = do
  token ← mint (signer (claims_of config fresh input license))
  λ db. caught (write (binding_of config fresh input license machine_id token) match db)

-- A nonce that is new: match, seat cap, credential, row.
unfoldable pub bind :
    Config → TokenSigner → Fresh → ActivateInput → License → (machine_id : ℕ) → Tx ActivationResult
unfolding mint_and_write choose_match
bind config signer fresh input license machine_id = do
  active ← query (λ db. filter_by (is_active_of license.id) (Db.activations db))
  let candidates = map to_candidate active
  let match = choose_match input.signals machine_id candidates config.fp_min
  refuse_if (is_none match && leb license.max_activations (length candidates))
      (seat_limit_reached license.max_activations (length candidates)) 409
  mint_and_write config signer fresh input license machine_id match

unfoldable pub decide :
    Config
    → TokenSigner
    → Fresh
    → ActivateInput
    → License
    → (machine_id : ℕ) → (prior : Option Activation) → Tx ActivationResult
unfolding replay_prior bind
decide config signer fresh input license machine_id (some row) = replay_prior license machine_id row
decide config signer fresh input license machine_id none =
    bind config signer fresh input license machine_id

unfoldable pub activate_tx : Config → TokenSigner → Fresh → ActivateInput → Tx ActivationResult
unfolding resolve_id locked decide derive_machine_id
activate_tx config signer fresh input = do
  let machine_id = derive_machine_id config.salted_hash input.signals
  license_id ← resolve_id input.license_id input.license_key
  found ← query (λ db. find (is_license license_id) (Db.licenses db))
  license ← locked found
  refuse_if (not (is_active_status license.status) || is_expired fresh.app_now license.expires_at)
      license_not_active 409
  prior ← query (λ db. find (has_nonce input.nonce) (Db.activations db))
  decide config signer fresh input license machine_id prior

unfoldable pub with_signer :
    Config → Option TokenSigner → Fresh → ActivateInput → Db → Result ActivationResult × Db
unfolding activate_tx with_tenant
with_signer config none fresh input db =
    (err (record { code = signer_unavailable; status = 503 }), db)
with_signer config (some signer) fresh input db =
    with_tenant (activate_tx config signer fresh input) db

unfoldable pub activate :
    Config → Option TokenSigner → Fresh → ActivateInput → Db → Result ActivationResult × Db
unfolding with_signer
activate config signer fresh input db =
    if ltb (length input.signals) config.fp_min
    then (err (record { code = insufficient_signals; status = 400 }), db)
    else with_signer config signer fresh input db
