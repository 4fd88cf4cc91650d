-- ===== src/Activation/Activate.antt =====
-- src/server/modules/activation/activate.ts: binding a machine under the lock of its license.
pub mod Bind
use Prim.Native.String.{String}
use license_srv.Prelude.{
  ℕ, ◌/◌, Bool, true, false, not, ◌&&◌, ◌||◌, Option, none, some, List, [], ◌∷◌, map, ltb, leb,
  ◌==◌, if◌then◌else◌, length, find, any_by, count_by, filter_by, update_where,
}
use license_srv.Store.{
  License, Activation, ActivationStatus, Db, AuditValue, Code, Result, ok, err, license_not_found,
  license_not_active, insufficient_signals, signer_unavailable, nonce_replayed, seat_limit_reached,
  unique_violation, type_error, Tx, ◌>>=◌, ◌>>◌, pure, throw, refuse_if, query, modify, write_audit,
  with_tenant,
}
use license_srv.Lease.Acquire.{is_license, is_active_status, is_expired}
use license_srv.Lease.Repo.{is_unique_violation}
use license_srv.Activation.Fingerprint.{
  SignalDigest, derive_machine_id, MatchCandidate, choose_match, or_else,
}
use license_srv.Activation.Credential.{Claims, build_machine_claims}

-- `Signer.sign` of a tenant: the token, or `SignerError`.
abbrev pub TokenSigner : Type 0
TokenSigner = Claims → Option ℕ

-- The fields of `ActivationConfig` that an activation reads.
pub record Config : Type 0 where
  pub fp_min : ℕ
  pub max_skew_secs : ℕ
  pub credential_ttl_secs : Option ℕ
  pub salted_hash : SignalDigest

pub record ActivateInput : Type 0 where
  pub license_id : Option ℕ
  pub license_key : Option ℕ
  pub signals : List ℕ
  pub nonce : ℕ
  pub label : Option String

-- The clocks of the server and the database, the fresh uuid and the random nonce of the claims.
pub record Fresh : Type 0 where
  pub app_now : ℕ
  pub db_now : ℕ
  pub id : ℕ
  pub claims_nonce : ℕ

pub record ActivationResult : Type 0 where
  pub id : ℕ
  pub license_id : ℕ
  pub machine_id : ℕ
  pub status : ActivationStatus
  pub activated_at : ℕ
  pub seats_used : ℕ
  pub seat_limit : ℕ
  -- `row.machine_bound_token ?? ""` of a replay: `none` is the empty text.
  pub machine_bound_key : Option ℕ
  pub created : Bool

abbrev pub is_active : ActivationStatus → Bool
is_active ActivationStatus.active = true
is_active _ = false

abbrev pub is_active_of : ℕ → Activation → Bool
is_active_of license_id a = a.license_id == license_id && is_active a.status

unfoldable pub count_active : ℕ → Db → ℕ
count_active license_id db = count_by (is_active_of license_id) db.activations

abbrev pub with_activations : Db → List Activation → Db
with_activations db activations = record db { activations = activations }

abbrev pub has_key : Option ℕ → License → Bool
has_key none lic = false
has_key (some key) lic = License.license_token lic == key

unfoldable pub id_of_key : Option License → Tx ℕ
id_of_key none = throw license_not_found 404
id_of_key (some lic) = pure lic.id

-- By id, or by the stored token.
unfoldable pub resolve_id : Option ℕ → (license_key : Option ℕ) → Tx ℕ
unfolding id_of_key
resolve_id (some id) key = pure id
resolve_id none key = do found ← query (λ db. find (has_key key) (Db.licenses db)); id_of_key found

unfoldable pub locked : Option License → Tx License
locked none = throw license_not_found 404
locked (some lic) = pure lic

abbrev pub has_nonce : ℕ → Activation → Bool
has_nonce nonce a = Activation.nonce a == nonce

-- A nonce seen before: the first result again for the same license and machine, else a refusal.
unfoldable pub replay_prior : License → (machine_id : ℕ) → Activation → Tx ActivationResult
unfolding count_active
replay_prior license machine_id row =
    if row.license_id == license.id && row.machine_id == machine_id
    then (do
      used ← query (count_active license.id)
      pure (record {
        id = row.id;
        license_id = license.id;
        machine_id = machine_id;
        status = ActivationStatus.active;
        activated_at = row.activated_at;
        seats_used = used;
        seat_limit = license.max_activations;
        machine_bound_key = row.machine_bound_token;
        created = false;
      }))
    else throw nonce_replayed 409

abbrev pub to_candidate : Activation → MatchCandidate
to_candidate a = record {
  id = a.id;
  machine_id = a.machine_id;
  signal_hashes = a.signal_hashes;
  updated_at = a.updated_at;
}

abbrev pub is_none : {A : Type 0} → Option A → Bool
is_none none = true
is_none (some a) = false

unfoldable pub mint : Option ℕ → Tx ℕ
mint none = throw signer_unavailable 503
mint (some token) = pure token
