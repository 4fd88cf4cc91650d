-- ===== src/Lease/Bounds.antt =====
-- The numbers of src/server/modules/lease/config.ts and handle.ts: timings and expiries of handles.
use license_srv.Prelude.{
  ℕ, ◌+◌, ◌*◌, ◌/◌, ◌≤◌, ◌<◌, max, ◌⊎◌, inl, inr, ◌≡◌, refl, ap, Bool, true, false, ◌&&◌, Option,
  none, some, arith,
}
use license_srv.Store.{Db, ok, Lease, >>=-eq-ok, >>-eq-ok, pure, ◌>>◌}
use license_srv.Lease.Config.{resolve_timings, positive_or, non_neg_or}
use license_srv.Lease.Handle.{
  Signer, LeaseHandleClaims, SignedLeaseHandle, bounded_handle_expiry, sign_lease_handle, claims_of,
  assemble,
}
use license_srv.Lease.Repo.{AcquireOutcome, created, replayed, capacity, acquire}
use license_srv.Lease.Acquire.{
  Clock, LeaseDeps, AcquireInput, Prepared, handle_input, attach_handle, maybe_sign_handle,
}
use license_srv.Lease.Acquire.Seat.{
  AcquireResult, LeaseGrant, finish, settle, seat_transaction, acquire_params, audit_acquired,
  audit_overage, build_grant,
}

positive_or_pos : (o : Option ℕ) (dflt : ℕ) → 0 < dflt → 0 < positive_or o dflt
unfolding positive_or
positive_or_pos none dflt h = h
positive_or_pos (some n) dflt h = ground arith

positive_or_fix : (n dflt : ℕ) → 0 < n → positive_or (some n) dflt ≡ n
unfolding positive_or
positive_or_fix n dflt h = ground arith

-- Whatever columns feed them, the timings of a lease have a positive heartbeat and sweep interval,
-- and a lifetime of at least three heartbeats.
pub resolve_timings_lem :
    (heartbeat ttl grace sweep : Option ℕ)
    → (0 < (resolve_timings heartbeat ttl grace sweep).heartbeat_seconds)
      × (3 * (resolve_timings heartbeat ttl grace sweep).heartbeat_seconds
          ≤ (resolve_timings heartbeat ttl grace sweep).ttl_seconds)
      × (0 < (resolve_timings heartbeat ttl grace sweep).sweep_seconds)
unfolding resolve_timings
resolve_timings_lem heartbeat ttl grace sweep =
    (positive_or_pos heartbeat _ (omega arith), omega arith, positive_or_pos sweep _ (omega arith))

fixed :
    (hb ttl g sw : ℕ)
    → 0 < hb
    → 3 * hb ≤ ttl
    → 0 < sw
    → resolve_timings (some hb) (some ttl) (some g) (some sw)
      ≡ record { heartbeat_seconds = hb; ttl_seconds = ttl; grace_seconds = g; sweep_seconds = sw }
unfolding resolve_timings non_neg_or
fixed hb ttl g sw h le h' =
    let same : max ttl (3 * hb) ≡ ttl = omega arith in
    cc (
      positive_or_fix hb 600 h,
      positive_or_fix ttl 1800 (omega arith),
      positive_or_fix sw 60 h',
      same,
    )

-- The timings that a resolution gives are resolved to themselves: a license's snapshot of them is
-- read back as it was written.
pub resolve_timings-fixed :
    (heartbeat ttl grace sweep : Option ℕ)
    → let t = resolve_timings heartbeat ttl grace sweep in
      resolve_timings
        (some t.heartbeat_seconds)
        (some t.ttl_seconds)
        (some t.grace_seconds)
        (some t.sweep_seconds)
      ≡ t
resolve_timings-fixed heartbeat ttl grace sweep =
    let (pos, le, pos') = resolve_timings_lem heartbeat ttl grace sweep in
    let t = resolve_timings heartbeat ttl grace sweep in
    fixed t.heartbeat_seconds t.ttl_seconds t.grace_seconds t.sweep_seconds pos le pos'

-- A handle of the lease `l`: it is about that lease, and outlives neither it nor the heartbeat.
pub record IsHandleOf (l : LeaseGrant) (iat ttl : ℕ) (h : SignedLeaseHandle) : Type 0 where
  pub lid : h.claims.lid ≡ l.id
  pub lic : h.claims.lic ≡ l.license_id
  pub hk : h.claims.hk ≡ l.holder_key
  pub iat_eq : h.claims.iat ≡ iat
  pub within_lease : h.claims.exp ≤ l.expires_at / 1000
  pub within_ttl : h.claims.exp ≤ iat + max 1 ttl

module _ (product_id app_now ttl : ℕ) (lease : Lease) where
  assemble_claims :
      (claims : LeaseHandleClaims) (o : Option (ℕ × ℕ)) {h : SignedLeaseHandle}
      → assemble claims o ≡ some h
      → h.claims ≡ claims
  unfolding assemble
  assemble_claims claims none e = cc
  assemble_claims claims (some s) e = cc

  attach_some :
      (o h : Option SignedLeaseHandle) (db : Db) {db' : Db}
      → attach_handle lease.id o db ≡ ok (h, db')
      → (s : SignedLeaseHandle) × (o ≡ some s) × (h ≡ some s)
  unfolding attach_handle
  attach_some none h db e = cc
  attach_some (some s) h db e = (s, refl, cc)

  maybe_sign_cases :
      (signer : Option Signer) (flag : Bool) (h : Option SignedLeaseHandle) (db : Db) {db' : Db}
      → maybe_sign_handle signer flag product_id app_now ttl lease db ≡ ok (h, db')
      → ((flag ≡ false) × (h ≡ none))
        ⊎ ((s : SignedLeaseHandle) × (flag ≡ true)
            × (h ≡ some s)
            × (s.claims ≡ claims_of (handle_input lease app_now ttl)))
  unfolding maybe_sign_handle sign_lease_handle
  maybe_sign_cases signer false h db e = inl (refl, cc)
  maybe_sign_cases none true h db e = cc
  maybe_sign_cases (some signer) true h db e =
      let (s, signed, h_eq) =
        attach_some (sign_lease_handle signer product_id (handle_input lease app_now ttl)) h db e in
      inr (s, refl, h_eq, assemble_claims _ _ signed)

-- What a grant says of its handle: none where the plan asks for none, else one of the lease.
pub HandleOk : Prepared → Clock → AcquireResult → Type 0
HandleOk prep clock r =
    ((prep.license.signed_handle ≡ false) × (r.grant.lease_handle ≡ none))
    ⊎ ((h : SignedLeaseHandle) × (prep.license.signed_handle ≡ true)
        × (r.grant.lease_handle ≡ some h)
        × IsHandleOf r.grant (clock.app / 1000) prep.license.timings.heartbeat_seconds h)

module _ (deps : LeaseDeps) (clock : Clock) (prep : Prepared) where
  signed_HandleOk :
      (lease : Lease) (used : ℕ) (c ov : Bool) (s : SignedLeaseHandle)
      → prep.license.signed_handle ≡ true
      → s.claims ≡ claims_of (handle_input lease clock.app prep.license.timings.heartbeat_seconds)
      → HandleOk prep clock (record {
        created = c;
        grant =
            build_grant lease prep.license.timings used prep.max_concurrent
              prep.license.overage_allowance ov
              (some s);
      })
  unfolding HandleOk build_grant claims_of bounded_handle_expiry
  signed_HandleOk lease used c ov s on e = inr (
    s,
    on,
    refl,
    record {
      lid = ap (λ (x : LeaseHandleClaims). x.lid) e;
      lic = ap (λ (x : LeaseHandleClaims). x.lic) e;
      hk = ap (λ (x : LeaseHandleClaims). x.hk) e;
      iat_eq = ap (λ (x : LeaseHandleClaims). x.iat) e;
      within_lease = omega (arith, ap (λ (x : LeaseHandleClaims). x.exp) e);
      within_ttl = omega (arith, ap (λ (x : LeaseHandleClaims). x.exp) e);
    },
  )

  grant_HandleOk :
      (lease : Lease) (used : ℕ) (c ov : Bool) (h : Option SignedLeaseHandle)
      → ((prep.license.signed_handle ≡ false) × (h ≡ none))
        ⊎ ((s : SignedLeaseHandle) × (prep.license.signed_handle ≡ true)
            × (h ≡ some s)
            × (s.claims
                ≡ claims_of (handle_input lease clock.app prep.license.timings.heartbeat_seconds)))
      → HandleOk prep clock (record {
        created = c;
        grant =
            build_grant lease prep.license.timings used prep.max_concurrent
              prep.license.overage_allowance ov h;
      })
  unfolding HandleOk build_grant
  grant_HandleOk lease used c ov none (inl (off, absent)) = inl (off, refl)
  grant_HandleOk lease used c ov none (inr (s, on, h_eq, e)) = cc
  grant_HandleOk lease used c ov (some s) (inl (off, absent)) = cc
  grant_HandleOk lease used c ov (some s) (inr (s', on, h_eq, e)) =
      signed_HandleOk lease used c ov s on (cc)

  finish_handle :
      (was_created : Bool) (lease : Lease) (used : ℕ) (db : Db) {r : AcquireResult} {db' : Db}
      → finish deps clock prep was_created lease used db ≡ ok (r, db')
      → HandleOk prep clock r
  unfolding finish
  finish_handle was_created lease used db {r} {db'} e =
      let (h, mid, signed, rest) =
        >>=-eq-ok
          (maybe_sign_handle deps.signer prep.license.signed_handle prep.license.product_id
            clock.app prep.license.timings.heartbeat_seconds lease)
          _ db e in
      let result : AcquireResult = record {
        created = was_created;
        grant =
            build_grant lease prep.license.timings used prep.max_concurrent
              prep.license.overage_allowance lease.overage h;
      } in
      let (u, mid', one, rest') =
        >>-eq-ok (audit_acquired was_created lease)
          (audit_overage (was_created && lease.overage) prep used lease >> pure result) mid rest in
      let (v, last, two, done) =
        >>-eq-ok (audit_overage (was_created && lease.overage) prep used lease) (pure result) mid'
          rest' in
      let r_eq : r ≡ result = cc in
      let good = grant_HandleOk lease used was_created lease.overage h (
        maybe_sign_cases prep.license.product_id clock.app prep.license.timings.heartbeat_seconds
          lease deps.signer prep.license.signed_handle h db signed) in
      rw r_eq good

  settle_handle :
      (o : AcquireOutcome) (db : Db) {r : AcquireResult} {db' : Db}
      → settle deps clock prep o db ≡ ok (r, db')
      → HandleOk prep clock r
  unfolding settle
  settle_handle (created l used) db e = finish_handle true l used db e
  settle_handle (replayed l used) db e = finish_handle false l used db e
  settle_handle (capacity used m o) db e = cc

  -- Where the plan asks for signed handles a seat transaction that returns carries one, and it is
  -- about the granted lease and expires neither after it nor more than a heartbeat (at least a
  -- second) after its issue; where the plan does not ask, there is none.
  pub seat_transaction_handle :
      (id : ℕ) (input : AcquireInput) (activation_id : Option ℕ) (db db' : Db) (r : AcquireResult)
      → seat_transaction deps clock id input prep activation_id db ≡ ok (r, db')
      → HandleOk prep clock r
  unfolding seat_transaction
  seat_transaction_handle id input activation_id db db' r e =
      let (o, mid, got, rest) =
        >>=-eq-ok (acquire id clock.db (acquire_params input prep activation_id)) _ db e in
      settle_handle o mid rest
