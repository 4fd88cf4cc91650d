-- ===== src/Examples/Leases.antt =====
-- Examples of the lease surface.
use license_srv.Prelude.{
  ℕ, ◌+◌, ◌≤◌, ◌≡◌, ◌≢◌, ◌⊎◌, refl, true, false, none, some, List, [], ◌∷◌, arith, if◌then◌else◌,
  find, find-All, count_by, any_by, update_where,
}
use license_srv.Store.{
  PlanStatus, Db, Result, ok, err, Failure, License, Lease, LeaseStatus, LicenseStatus,
}
use license_srv.Lease.Config.{
  effective_cap, resolve_timings, is_overage_seat, positive_or, non_neg_or,
}
use license_srv.Lease.Handle.{bounded_handle_expiry, claims_of, assemble, sign_lease_handle}
use license_srv.Lease.Repo.{
  AcquireParams, created, replayed, count_live, acquire, admit, replay, new_lease, insert_lease,
  has_id,
}
use license_srv.Lease.Repo.Change.{
  is_in, passes_renew_fence, renew, renewed_lease, release, end_live, ended_lease, sweep,
  reclaim_due, is_lapsed,
}
use license_srv.Lease.Acquire.{is_license, Prepared, map_license, attach_handle, maybe_sign_handle}
use license_srv.Lease.Acquire.Seat.{
  AcquireResult, seat_transaction, acquire_lease, finish, settle, build_grant, audit_acquired,
  audit_overage,
}
use license_srv.Lease.Seats.{acquire-count_live}
use license_srv.Lease.Endings.{release_frees_one}
use license_srv.Lease.Endings.{Updates}
use license_srv.Lease.Fence.{renew_by_fence, renew_stale}
use license_srv.Lease.Sweep.{IsOldestBatch, sweep_lem, sweep_drains}
use license_srv.Lease.Bounds.{HandleOk, seat_transaction_handle}
use license_srv.Lease.Service.{Granted, acquire_lease_cases}
use license_srv.Lease.Replay.{acquire_retry, acquire_retry_released}
use license_srv.Lease.Reach.{WithinCaps, Reach-WithinCaps, here, next, IsCurrent, seat}
use license_srv.Examples.Data.{
  IsOk, value, value_eq, shop, shop-WellFormed, lease_7, license_of, clock_1, deps_1, acquire_8,
}

abbrev params_8 : AcquireParams
params_8 = record {
  license_id = 1;
  holder_key = 71;
  scope = lease_7.scope;
  nonce = 88;
  ttl_seconds = 1800;
  max_concurrent = 2;
  overage_allowance = 1;
  activation_id = none;
}

abbrev lease_8 : Lease
unfolding new_lease
lease_8 = new_lease 8 1000 false params_8

abbrev shop_8 : Db
unfolding new_lease
shop_8 = record shop { leases = lease_8 ∷ lease_7 ∷ [] }

acquire_8_created : acquire 8 1000 params_8 shop ≡ ok (created lease_8 2, shop_8)
unfolding acquire admit replay count_live effective_cap is_overage_seat new_lease insert_lease find
    count_by any_by
acquire_8_created = refl

acquire-count_live_example :
    (count_live 1 shop_8 ≡ count_live 1 shop)
    ⊎ ((◌≡◌ {A = ℕ} 1 params_8.license_id)
        × (count_live 1 shop_8 ≡ count_live 1 shop + 1)
        × (count_live 1 shop_8 ≤ effective_cap 2 1))
acquire-count_live_example = acquire-count_live 8 1000 params_8 shop 1 acquire_8_created

acquire_retry_example :
    acquire 9 5000 params_8 shop_8 ≡ ok (replayed lease_8 (count_live 1 shop_8), shop_8)
acquire_retry_example =
    acquire_retry 8 1000 params_8 shop shop_8 lease_8 2 9 5000 params_8 acquire_8_created refl

abbrev shop_9 : Db
unfolding new_lease
shop_9 = record shop { leases = ended_lease LeaseStatus.released 3000 lease_8 ∷ lease_7 ∷ [] }

release_8 : release 3000 8 shop_8 ≡ ok (true, shop_9)
unfolding release end_live count_by update_where new_lease
release_8 = refl

acquire_retry_released_example :
    acquire 9 5000 params_8 shop_9
    ≡ ok (replayed (ended_lease LeaseStatus.released 3000 lease_8) (count_live 1 shop_9), shop_9)
unfolding lease_8
acquire_retry_released_example =
    acquire_retry_released 8 1000 params_8 shop shop_8 shop_9 lease_8 2 3000 true 9 5000 params_8
      acquire_8_created release_8 refl

release_frees_one_example :
    (db' : Db) × (release 2000 7 shop ≡ ok (true, db'))
    × (count_live 1 db' + 1 ≡ count_live 1 shop)
    × ((c : ℕ) → c ≢ 1 → count_live c db' ≡ count_live c shop)
    × (release 2500 7 db' ≡ ok (false, db'))
unfolding find
release_frees_one_example = release_frees_one 2000 2500 7 shop lease_7 shop-WellFormed refl

renew_by_fence_example :
    (db' : Db) × (renew 1000 7 1800 (some 0) shop
      ≡ ok (
        if passes_renew_fence lease_7 1000 (some 0)
            then some (renewed_lease 1000 1800 lease_7)
            else none,
        db',
      ))
    × (find (has_id 7) db'.leases
        ≡ some (
            if passes_renew_fence lease_7 1000 (some 0)
            then renewed_lease 1000 1800 lease_7
            else lease_7))
unfolding find
renew_by_fence_example = renew_by_fence 1000 7 1800 (some 0) shop lease_7 shop-WellFormed refl

abbrev shop_renewed : Db
shop_renewed = record shop { leases = renewed_lease 1000 1800 lease_7 ∷ [] }

renew_7 :
    renew 1000 7 1800 (some 0) shop ≡ ok (some (renewed_lease 1000 1800 lease_7), shop_renewed)
unfolding renew find update_where
renew_7 = refl

renew_stale_example : (db'' : Db) × (renew 2000 7 1800 (some 0) shop_renewed ≡ ok (none, db''))
unfolding find
renew_stale_example =
    renew_stale 1000 2000 7 1800 shop shop_renewed lease_7 (renewed_lease 1000 1800 lease_7)
      shop-WellFormed refl renew_7

abbrev swept : Result (List Lease × Db)
swept = sweep 9000000 (λ _. false) 1000 none shop

swept_IsOk : IsOk swept
unfolding sweep reclaim_due
swept_IsOk = tt

sweep_drains_example :
    count_by (is_lapsed 9000000 (λ _. false) none shop.licenses) (value swept swept_IsOk).1.leases
    ≡ 0
unfolding count_by any_by
sweep_drains_example =
    sweep_drains 9000000 1000 (λ _. false) none shop (omega arith) (value_eq swept swept_IsOk)

abbrev prepared : Prepared
unfolding map_license
prepared = record {
  license = map_license (license_of 1 LicenseStatus.active) (record {
    id = 1;
    product_id = 1;
    status = PlanStatus.active;
    key = "pro";
    max_activations = 2;
    lease_signed_handle = true;
    concurrency_require_activation = false;
  });
  max_concurrent = 2;
  holder_key = 71;
}

abbrev seated : Result (AcquireResult × Db)
seated = seat_transaction deps_1 clock_1 8 acquire_8 prepared none shop

seated_IsOk : IsOk seated
unfolding seat_transaction acquire admit replay count_live effective_cap is_overage_seat new_lease
    insert_lease find count_by any_by settle finish maybe_sign_handle attach_handle
    sign_lease_handle claims_of assemble bounded_handle_expiry audit_acquired audit_overage
    build_grant update_where prepared map_license resolve_timings positive_or non_neg_or
seated_IsOk = tt

seat_transaction_handle_example : HandleOk prepared clock_1 (value seated seated_IsOk).0
seat_transaction_handle_example =
    seat_transaction_handle deps_1 clock_1 prepared 8 acquire_8 none shop
      (value seated seated_IsOk).1 (value seated seated_IsOk).0 (value_eq seated seated_IsOk)

shop_within : WithinCaps shop
unfolding count_live effective_cap count_by find
shop_within = record {
  well_formed = shop-WellFormed;
  caps = λ id lic m found cap.
      let (has_cap, has_overage) =
        find-All (λ l. (License.max_concurrent l ≡ some 2) × (License.concurrency_overage l ≡ 1))
          (is_license id) shop.licenses ((refl, refl), ((refl, refl), tt)) found in
      let m_eq : m ≡ 2 = cc in ground arith;
}

prepared-IsCurrent : IsCurrent prepared shop
unfolding prepared map_license find
prepared-IsCurrent = record {
  license = license_of 1 LicenseStatus.active;
  found = refl;
  cap = refl;
  overage = refl;
}

Reach-WithinCaps_example : WithinCaps (value seated seated_IsOk).1
unfolding count_by
Reach-WithinCaps_example = Reach-WithinCaps deps_1 shop (value seated seated_IsOk).1 shop_within (
    next here (
      seat clock_1 8 acquire_8 prepared none (value seated seated_IsOk).0 prepared-IsCurrent refl
        (value_eq seated seated_IsOk)))

abbrev served : Result AcquireResult × Db
served = acquire_lease deps_1 clock_1 8 acquire_8 shop

acquire_lease_cases_example :
    ((e : Failure) × (served.0 ≡ err e) × (served.1 ≡ shop))
    ⊎ ((g : AcquireResult) × (served.0 ≡ ok g) × Granted deps_1 clock_1 8 acquire_8 shop g served.1)
acquire_lease_cases_example = acquire_lease_cases deps_1 clock_1 8 acquire_8 shop served.1 refl

sweep_lem_example :
    (due : List Lease) × (db' : Db) × (sweep 9000000 (λ _. false) 1000 none shop ≡ ok (due, db'))
    × IsOldestBatch (is_lapsed 9000000 (λ _. false) none shop.licenses) 1000 shop.leases due
    × Updates (is_in due) (ended_lease LeaseStatus.reclaimed 9000000) shop db'
sweep_lem_example = sweep_lem 9000000 1000 (λ _. false) none shop
