-- ===== src/Lease/Handle.antt =====
-- src/server/modules/lease/handle.ts: the signed short-lived handle of a lease. The signer is a
-- parameter; a handle keeps the claims that it encodes, beside the signature over them.
use Prim.Native.String.{String}
use license_srv.Prelude.{ℕ, ◌+◌, min, max, Option, none, some}
use license_srv.Store.{ConcurrencyScope}

pub record LeaseHandleInput : Type 0 where
  pub lease_id : ℕ
  pub license_id : ℕ
  pub holder_key : ℕ
  pub scope : ConcurrencyScope
  pub issued_at_unix : ℕ
  pub lease_expires_at_unix : ℕ
  pub handle_ttl_seconds : ℕ

abbrev lease_signing_domain : String
lease_signing_domain = "LICSRV-LEASE-v1"

pub record LeaseHandleClaims : Type 0 where
  pub dom : String
  pub lid : ℕ
  pub lic : ℕ
  pub hk : ℕ
  pub scope : ConcurrencyScope
  pub iat : ℕ
  pub exp : ℕ

-- `signDetached` of a product's active key: the signature and the key's id, or `SignerError`.
pub record Signer : Type 0 where
  pub sign_detached : (product_id : ℕ) → (domain : String) → LeaseHandleClaims → Option (ℕ × ℕ)

pub record SignedLeaseHandle : Type 0 where
  pub claims : LeaseHandleClaims
  pub signature : ℕ
  pub key_id : ℕ
  pub handle_expires_at_unix : ℕ

unfoldable pub bounded_handle_expiry : LeaseHandleInput → ℕ
bounded_handle_expiry input =
    let cap = input.issued_at_unix + max 1 input.handle_ttl_seconds in
    min input.lease_expires_at_unix cap

unfoldable pub claims_of : LeaseHandleInput → LeaseHandleClaims
unfolding bounded_handle_expiry
claims_of input = record {
  dom = lease_signing_domain;
  lid = input.lease_id;
  lic = input.license_id;
  hk = input.holder_key;
  scope = input.scope;
  iat = input.issued_at_unix;
  exp = bounded_handle_expiry input;
}

-- The token of the claims, with the signature and the key's id beside it.
unfoldable pub assemble : LeaseHandleClaims → Option (ℕ × ℕ) → Option SignedLeaseHandle
assemble claims none = none
assemble claims (some (signature, key_id)) = some (record {
  claims = claims;
  signature = signature;
  key_id = key_id;
  handle_expires_at_unix = claims.exp;
})

-- `none` is the `SignerError` that the signer throws.
unfoldable pub sign_lease_handle : Signer → ℕ → LeaseHandleInput → Option SignedLeaseHandle
unfolding claims_of assemble
sign_lease_handle signer product_id input =
    assemble (claims_of input)
      (signer.sign_detached product_id lease_signing_domain (claims_of input))
