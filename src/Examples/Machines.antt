-- ===== src/Examples/Machines.antt =====
-- Examples of the activation surface.
use license_srv.Prelude.{
  true, dedup, filter_by, any_by, ◌+◌, ◌≡◌, ◌⊎◌, refl, none, some, [], ◌∷◌, arith, find, count_by,
  if◌then◌else◌, find-All,
}
use license_srv.Store.{
  with_tenant, License, LicenseStatus, ActivationStatus, Db, Result, ok, err, Failure,
}
use license_srv.Lease.Acquire.{is_license}
use license_srv.Activation.Fingerprint.{derive_machine_id, MatchCandidate, choose_match}
use license_srv.Activation.Match.{Choice, choose_match-Choice}
use license_srv.Activation.Activate.{
  resolve_id, locked, mint, Config, ActivateInput, Fresh, TokenSigner, ActivationResult,
  is_active_of, count_active,
}
use license_srv.Activation.Activate.Bind.{
  activate, with_signer, activate_tx, decide, bind, mint_and_write, write, insert, caught,
  result_of, audit_binding, binding_of,
}
use license_srv.Activation.Deactivate.{DeactivateResult, deactivate, deactivate_found, flip}
use license_srv.Activation.Outcome.{IsOpen}
use license_srv.Activation.Service.{Activated, activate_cases}
use license_srv.Activation.Seats.{SeatTaken, activate_seats}
use license_srv.Activation.Freeing.{deactivate_frees}
use license_srv.Activation.History.{WithinSeats, here, next, deactivation, Reach-WithinSeats}
use license_srv.Activation.Replay.{answer, activate_replay, Resurfaces, activate_retry_deactivated}
use license_srv.Examples.Data.{IsOk, value, value_eq, shop, machine_5, license_of}

abbrev config_3 : Config
config_3 = record {
  fp_min = 3;
  max_skew_secs = 300;
  credential_ttl_secs = none;
  salted_hash = λ signals. 6;
}

abbrev signer_2 : TokenSigner
signer_2 claims = some 501

abbrev fresh_6 : Fresh
fresh_6 = record { app_now = 1000; db_now = 1000; id = 6; claims_nonce = 4 }

-- The request whose nonce is that of the machine's row.
abbrev retry_5 : ActivateInput
retry_5 = record {
  license_id = some 1;
  license_key = none;
  signals = 1 ∷ 2 ∷ 3 ∷ [];
  nonce = 55;
  label = none;
}

abbrev served : Result ActivationResult × Db
served = activate config_3 (some signer_2) fresh_6 retry_5 shop

activate_cases_example :
    ((e : Failure) × (served.0 ≡ err e) × (served.1 ≡ shop))
    ⊎ ((r : ActivationResult) × (served.0 ≡ ok r)
        × Activated config_3 fresh_6 retry_5 shop served.1 r)
activate_cases_example = activate_cases config_3 fresh_6 retry_5 shop served.1 (some signer_2) refl

shop-IsOpen : IsOpen 1000 shop (license_of 1 LicenseStatus.active)
unfolding find
shop-IsOpen = record { found = refl; is_active = refl; unexpired = refl }

replay_5 :
    activate config_3 (some signer_2) fresh_6 retry_5 shop
    ≡ (ok (answer (license_of 1 LicenseStatus.active) machine_5 shop), shop)
unfolding find derive_machine_id
replay_5 =
    activate_replay config_3 signer_2 fresh_6 retry_5 shop (license_of 1 LicenseStatus.active)
      machine_5 shop-IsOpen refl refl refl refl refl

-- A new machine, which is bound, deactivated and asks again.
abbrev config_9 : Config
config_9 = record {
  fp_min = 3;
  max_skew_secs = 300;
  credential_ttl_secs = none;
  salted_hash = λ signals. 9;
}

abbrev request_9 : ActivateInput
request_9 = record {
  license_id = some 1;
  license_key = none;
  signals = 7 ∷ 8 ∷ 9 ∷ [];
  nonce = 99;
  label = none;
}

abbrev bound_9 : Result ActivationResult × Db
bound_9 = activate config_9 (some signer_2) fresh_6 request_9 shop

abbrev result_9 : ActivationResult
result_9 = record {
  id = 6;
  license_id = 1;
  machine_id = 9;
  status = ActivationStatus.active;
  activated_at = 1000;
  seats_used = 2;
  seat_limit = 2;
  machine_bound_key = some 501;
  created = true;
}

bound_9_ok : bound_9 ≡ (ok result_9, bound_9.1)
unfolding activate with_signer activate_tx resolve_id locked decide bind mint_and_write mint write
    insert caught result_of audit_binding count_active count_by find choose_match filter_by any_by
    derive_machine_id binding_of with_tenant dedup
bound_9_ok = refl

abbrev freed_9 : Result (DeactivateResult × Db)
freed_9 = deactivate "operator" 2000 6 bound_9.1

freed_9_IsOk : IsOk freed_9
unfolding activate with_signer activate_tx resolve_id locked decide bind mint_and_write mint write
    insert caught result_of audit_binding count_active count_by find choose_match filter_by any_by
    derive_machine_id binding_of with_tenant deactivate deactivate_found flip dedup
freed_9_IsOk = tt

activate_retry_deactivated_example :
    Resurfaces config_9 signer_2 fresh_6 request_9 result_9 (value freed_9 freed_9_IsOk).1
unfolding find
activate_retry_deactivated_example =
    activate_retry_deactivated config_9 signer_2 signer_2 fresh_6 fresh_6 request_9 "operator" 2000
      shop bound_9.1 (value freed_9 freed_9_IsOk).1 result_9 (value freed_9 freed_9_IsOk).0
      (license_of 1 LicenseStatus.active) bound_9_ok refl refl refl (value_eq freed_9 freed_9_IsOk)
      refl

activate_seats_example :
    (shop.licenses ≡ shop.licenses)
    × ((count_active 1 shop ≡ count_active 1 shop)
        ⊎ SeatTaken (answer (license_of 1 LicenseStatus.active) machine_5 shop) 1 shop shop)
activate_seats_example =
    activate_seats config_3 fresh_6 retry_5 shop shop
      (answer (license_of 1 LicenseStatus.active) machine_5 shop) 1 (some signer_2) replay_5

abbrev candidate : MatchCandidate
candidate = record { id = 5; machine_id = 6; signal_hashes = 1 ∷ 2 ∷ 3 ∷ []; updated_at = 0 }

choose_match-Choice_example :
    Choice
      (1 ∷ 2 ∷ 9 ∷ [])
      2
      8
      (candidate ∷ [])
      (choose_match (1 ∷ 2 ∷ 9 ∷ []) 8 (candidate ∷ []) 2)
choose_match-Choice_example =
    choose_match-Choice (1 ∷ 2 ∷ 9 ∷ []) 2 (omega arith) 8 (candidate ∷ [])

abbrev freed : Result (DeactivateResult × Db)
freed = deactivate "operator" 2000 5 shop

freed_IsOk : IsOk freed
unfolding deactivate deactivate_found flip find
freed_IsOk = tt

deactivate_frees_example :
    (count_active 1 (value freed freed_IsOk).1 + (if is_active_of 1 machine_5 then 1 else 0)
      ≡ count_active 1 shop)
    × ((machine_5.status ≡ ActivationStatus.active) ⊎ ((value freed freed_IsOk).1 ≡ shop))
unfolding find count_by
deactivate_frees_example =
    deactivate_frees "operator" 2000 5 shop (value freed freed_IsOk).1 (value freed freed_IsOk).0
      machine_5 1 (value_eq freed freed_IsOk) refl (omega arith)

shop-WithinSeats : WithinSeats shop
unfolding WithinSeats count_active count_by
shop-WithinSeats c lic found =
    let limit =
      find-All (λ l. License.max_activations l ≡ 2) (is_license c) shop.licenses (refl, (refl, tt))
        found in
    ground arith

Reach-WithinSeats_example : WithinSeats (value freed freed_IsOk).1
Reach-WithinSeats_example = Reach-WithinSeats shop (value freed freed_IsOk).1 shop-WithinSeats (
    next here
      (deactivation "operator" 2000 5 (value freed freed_IsOk).0 (value_eq freed freed_IsOk)))
