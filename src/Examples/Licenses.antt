-- ===== src/Examples/Licenses.antt =====
-- Examples of the lifecycle of licenses.
use license_srv.Prelude.{◌≡◌, refl, some, List, [], ◌∷◌, find}
use license_srv.Store.{LicenseStatus}
use license_srv.Issuance.Lifecycle.{find_license}
use license_srv.Issuance.Machine.{reinstate, transfer, verdict, run, outcome, is_known, run_refines}
use license_srv.Issuance.History.{Request, perform, perform-revoked}
use license_srv.Examples.Data.{shop, license_of}

run_refines_example :
    run "operator" 1 (transfer 3 2) shop
    ≡ outcome "operator" 1 shop
        (license_of 1 LicenseStatus.active)
        (verdict (transfer 3 2) LicenseStatus.active 0 (is_known (transfer 3 2) shop))
unfolding find
run_refines_example =
    run_refines "operator" 1 shop (license_of 1 LicenseStatus.active) refl (transfer 3 2)

abbrev requests : List Request
requests =
    record { actor = "operator"; id = 2; action = reinstate }
    ∷ record { actor = "operator"; id = 1; action = transfer 3 2 }
    ∷ record { actor = "operator"; id = 2; action = transfer 3 2 }
    ∷ []

perform-revoked_example :
    find_license 2 (perform requests shop) ≡ some (license_of 2 LicenseStatus.revoked)
unfolding find
perform-revoked_example =
    perform-revoked requests shop 2 (license_of 2 LicenseStatus.revoked) refl refl
