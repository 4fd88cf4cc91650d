-- ===== src/Activation/Credential.antt =====
-- src/server/modules/activation/claims.ts: the machine-bound claims that the signer mints. The
-- signer and the random nonce are parameters; the placeholder of the key id is left out.
use Prim.Native.String.{String}
use license_srv.Prelude.{ℕ, ◌+◌, ◌/◌, min, Option, none, some, List}
use license_srv.Store.{License, Value}

abbrev token_version : ℕ
token_version = 1

-- The sooner of the license's expiry (in milliseconds) and `now` with the lifetime, in seconds.
unfoldable pub effective_expiry :
    (license_expires_at credential_ttl_secs : Option ℕ) → (now_unix : ℕ) → Option ℕ
effective_expiry none none now_unix = none
effective_expiry (some at) none now_unix = some (at / 1000)
effective_expiry none (some ttl) now_unix = some (now_unix + ttl)
effective_expiry (some at) (some ttl) now_unix = some (min (at / 1000) (now_unix + ttl))

pub record Claims : Type 0 where
  pub token_version : ℕ
  pub license_id : ℕ
  pub product_id : ℕ
  pub plan_id : ℕ
  pub customer_id : ℕ
  pub issued_at : ℕ
  pub expires_at : Option ℕ
  pub max_activations : ℕ
  pub entitlements : List (String × Value)
  pub fingerprint : List ℕ
  pub fp_min : ℕ
  pub max_skew_secs : ℕ
  pub nonce : ℕ

unfoldable pub build_machine_claims :
    License
    → (signal_hashes : List ℕ) → (fp_min max_skew_secs now_unix : ℕ)
    → (credential_ttl_secs : Option ℕ) → (nonce : ℕ) → Claims
unfolding effective_expiry
build_machine_claims license signal_hashes fp_min max_skew_secs now_unix credential_ttl_secs nonce =
    record {
      token_version = token_version;
      license_id = license.id;
      product_id = license.product_id;
      plan_id = license.plan_id;
      customer_id = license.customer_id;
      issued_at = now_unix;
      expires_at = effective_expiry license.expires_at credential_ttl_secs now_unix;
      max_activations = license.max_activations;
      entitlements = license.entitlements;
      fingerprint = signal_hashes;
      fp_min = fp_min;
      max_skew_secs = max_skew_secs;
      nonce = nonce;
    }
