-- ===== src/Lease/Repo/Change.antt =====
-- src/server/modules/lease/lease-repo.ts: renewing, ending, reclaiming and listing leases.
-- An `UPDATE … RETURNING` changes the rows that match and returns them.
use license_srv.Prelude.{
  ℕ, ◌+◌, ◌*◌, Bool, true, false, not, ◌&&◌, ◌||◌, Option, none, some, List, ltb, leb, ◌==◌,
  if◌then◌else◌, length, take, find, count_by, any_by, filter_by, update_where, sort_by,
}
use license_srv.Store.{
  Lease, LeaseStatus, live, released, reclaimed, License, Db, Tx, ◌>>=◌, ◌>>◌, pure, query, modify,
}
use license_srv.Lease.Repo.{is_live, has_id, with_leases}

abbrev generation_matches : Option ℕ → Lease → Bool
generation_matches none l = true
generation_matches (some expected) l = l.generation == expected

unfoldable pub passes_renew_fence : Lease → (now : ℕ) → Option ℕ → Bool
passes_renew_fence l now expected =
    is_live l.status && (not (leb l.expires_at now) && generation_matches expected l)

-- The `WHERE` of the guarded update.
abbrev pub is_renewable : (lease_id now : ℕ) → Option ℕ → Lease → Bool
is_renewable lease_id now expected l =
    has_id lease_id l
    && (is_live l.status && (ltb now l.expires_at && generation_matches expected l))

abbrev pub renewed_lease : (now ttl_seconds : ℕ) → Lease → Lease
renewed_lease now ttl_seconds l = record l {
  last_renewed_at = now;
  expires_at = now + 1000 * ttl_seconds;
  generation = l.generation + 1;
}

unfoldable pub renew : (now lease_id ttl_seconds : ℕ) → Option ℕ → Tx (Option Lease)
renew now lease_id ttl_seconds expected = do
  let renewable = is_renewable lease_id now expected
  matched ← query (λ db. find renewable db.leases)
  modify (λ db. with_leases db (update_where renewable (renewed_lease now ttl_seconds) db.leases))
  elim matched [ none ↦ pure none | some l ↦ pure (some (renewed_lease now ttl_seconds l)) ]

abbrev pub ended_lease : LeaseStatus → (now : ℕ) → Lease → Lease
ended_lease status now l = record l { status = status; ended_at = some now }

abbrev pub is_live_id : ℕ → Lease → Bool
is_live_id lease_id l = has_id lease_id l && is_live l.status

-- The result says whether a live seat was freed.
unfoldable pub end_live : LeaseStatus → (now lease_id : ℕ) → Tx Bool
end_live status now lease_id = do
  changed ← query (λ db. ltb 0 (count_by (is_live_id lease_id) db.leases))
  modify
      (λ db. with_leases db (update_where (is_live_id lease_id) (ended_lease status now) db.leases))
  pure changed

unfoldable pub release : (now lease_id : ℕ) → Tx Bool
unfolding end_live
release = end_live released

unfoldable pub force_release : (now lease_id : ℕ) → Tx Bool
unfolding end_live
force_release = end_live reclaimed

-- The rows of a `WITH due AS (… ORDER BY expires_at ASC LIMIT n FOR UPDATE SKIP LOCKED)`.
unfoldable pub due_batch : (Lease → Bool) → ℕ → List Lease → List Lease
due_batch is_due limit leases =
    take limit (sort_by (λ a b. leb a.expires_at b.expires_at) (filter_by is_due leases))

abbrev pub is_in : List Lease → Lease → Bool
is_in due l = any_by (has_id l.id) due

unfoldable pub reclaim_due : (now : ℕ) → (Lease → Bool) → ℕ → Tx (List Lease)
unfolding due_batch
reclaim_due now is_due limit = do
  due ← query (λ db. due_batch is_due limit db.leases)
  modify (λ db. with_leases db (update_where (is_in due) (ended_lease reclaimed now) db.leases))
  pure due

abbrev license_matches : Option ℕ → Lease → Bool
license_matches none l = true
license_matches (some license_id) l = l.license_id == license_id

-- The join with the lease's license, and a test on the pair.
abbrev pub joined : List License → (License → Lease → Bool) → Lease → Bool
joined licenses test l = any_by (λ lic. License.id lic == l.license_id && test lic l) licenses

-- Live, and past its expiry by more than the grace of its license. `locked` are the rows that a
-- concurrent sweep holds, which this one skips.
abbrev pub is_lapsed : (now : ℕ) → (locked : ℕ → Bool) → Option ℕ → List License → Lease → Bool
is_lapsed now locked license_id licenses l =
    not (locked l.id)
    && (is_live l.status
        && (license_matches license_id l
            && joined licenses (λ lic k. ltb (k.expires_at + 1000 * lic.lease_grace_seconds) now)
                l))

unfoldable pub sweep :
    (now : ℕ) → (locked : ℕ → Bool) → (max_batch : ℕ) → Option ℕ → Tx (List Lease)
unfolding reclaim_due
sweep now locked max_batch license_id db =
    reclaim_due now (is_lapsed now locked license_id db.licenses) max_batch db

pub record LeaseListResult : Type 0 where
  pub leases : List Lease
  pub truncated : Bool

abbrev status_tag : LeaseStatus → ℕ
status_tag live = 0
status_tag released = 1
status_tag reclaimed = 2

abbrev status_matches : Option LeaseStatus → Lease → Bool
status_matches none l = true
status_matches (some status) l = status_tag l.status == status_tag status

abbrev within_window : (now : ℕ) → Option ℕ → Lease → Bool
within_window now none l = true
within_window now (some seconds) l =
    is_live l.status || elim l.ended_at [ none ↦ false | some at ↦ leb now (at + 1000 * seconds) ]

abbrev is_listed : (now license_id : ℕ) → Option LeaseStatus → Option ℕ → Lease → Bool
is_listed now license_id status window l =
    l.license_id == license_id && (status_matches status l && within_window now window l)

-- `ORDER BY acquired_at DESC, id DESC`.
abbrev newest_first : Lease → Lease → Bool
newest_first a b =
    ltb b.acquired_at a.acquired_at || (a.acquired_at == b.acquired_at && leb b.id a.id)

unfoldable pub list :
    (now license_id : ℕ) → Option LeaseStatus → (cap : ℕ) → Option ℕ → Db → LeaseListResult
list now license_id status cap window db =
    let matching = filter_by (is_listed now license_id status window) db.leases in
    let rows = take (cap + 1) (sort_by newest_first matching) in
    let truncated = ltb cap (length rows) in
    record { leases = if truncated then take cap rows else rows; truncated = truncated }
