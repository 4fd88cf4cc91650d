-- ===== src/Billing/Terminal.antt =====
-- A revoked license under billing: src/server/modules/billing/lifecycle.ts (applyRenew, applyGrace,
-- applyRevoke) and grace-worker.ts.
use license_srv.Prelude.{ℕ, ◌≡◌, some}
use license_srv.Store.{License, LicenseStatus, Subscription, Db}
use license_srv.Issuance.Lifecycle.{find_license}

-- The license of an id is this one.
abbrev Stands : ℕ → License → Db → Type 0
Stands c lic db = find_license c db ≡ some lic

module _ (sub : Subscription) (lic : License) (revoked : lic.status ≡ LicenseStatus.revoked) where
  abbrev Own : Db → Type 0
  Own db = Stands sub.license_id lic db
