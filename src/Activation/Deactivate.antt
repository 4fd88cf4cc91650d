-- ===== src/Activation/Deactivate.antt =====
-- src/server/modules/activation/deactivate.ts and registry.ts: freeing a seat, and the operator's
-- list of a license's activations.
use Prim.Native.String.{String}
use license_srv.Prelude.{
  ℕ, Option, none, some, List, [], map, leb, ◌==◌, take, find, filter_by, update_where, sort_by,
}
use license_srv.Store.{
  License, Activation, ActivationStatus, Db, not_found, Tx, ◌>>=◌, ◌>>◌, pure, throw, query, modify,
  write_audit,
}
use license_srv.Lease.Acquire.{is_license}
use license_srv.Activation.Activate.{count_active, with_activations}
use license_srv.Activation.Activate.Bind.{has_id}

pub record DeactivateResult : Type 0 where
  pub id : ℕ
  pub status : ActivationStatus

abbrev pub gone : ℕ → DeactivateResult
gone id = record { id = id; status = ActivationStatus.deactivated }

abbrev pub deactivated_row : (now : ℕ) → Activation → Activation
deactivated_row now a = record a {
  status = ActivationStatus.deactivated;
  deactivated_at = some now;
  updated_at = now;
}

unfoldable pub flip : (actor : String) → (now id : ℕ) → ActivationStatus → Tx (Unit {0})
flip actor now id ActivationStatus.active = do
  modify (λ db.
      with_activations db (update_where (has_id id) (deactivated_row now) (Db.activations db)))
  write_audit actor "activation.deactivated" id []
flip actor now id ActivationStatus.deactivated = pure tt

unfoldable pub deactivate_found :
    (actor : String) → (now id : ℕ) → Option Activation → Tx DeactivateResult
unfolding flip
deactivate_found actor now id none = throw not_found 404
deactivate_found actor now id (some a) = do
  flip actor now id a.status
  pure (record { id = id; status = ActivationStatus.deactivated })

unfoldable pub deactivate : (actor : String) → (now id : ℕ) → Tx DeactivateResult
unfolding deactivate_found
deactivate actor now id = do
  cur ← query (λ db. find (has_id id) (Db.activations db))
  deactivate_found actor now id cur

-- The columns that the registry shows: neither the credential nor the signal hashes.
pub record ActivationSummary : Type 0 where
  pub id : ℕ
  pub machine_id : ℕ
  pub status : ActivationStatus
  pub activated_at : ℕ
  pub deactivated_at : Option ℕ
  pub label : Option String

pub record ActivationRegistry : Type 0 where
  pub activations : List ActivationSummary
  pub seats_used : ℕ
  pub seat_limit : ℕ

abbrev pub summary : Activation → ActivationSummary
summary a = record {
  id = a.id;
  machine_id = a.machine_id;
  status = a.status;
  activated_at = a.activated_at;
  deactivated_at = a.deactivated_at;
  label = a.label;
}

-- `WHERE license_id = $1 ORDER BY activated_at DESC LIMIT $2`.
abbrev pub recent : (license_id cap : ℕ) → List Activation → List Activation
recent license_id cap rows = take cap (
    sort_by (λ a b. leb (Activation.activated_at b) (Activation.activated_at a))
      (filter_by (λ a. Activation.license_id a == license_id) rows))

unfoldable pub list_of : (license_id cap : ℕ) → Option License → Tx ActivationRegistry
unfolding count_active
list_of license_id cap none = throw not_found 404
list_of license_id cap (some lic) = do
  rows ← query (λ db. recent license_id cap (Db.activations db))
  used ← query (count_active license_id)
  pure (record {
    activations = map summary rows;
    seats_used = used;
    seat_limit = lic.max_activations;
  })

unfoldable pub list_activations : (license_id cap : ℕ) → Tx ActivationRegistry
unfolding list_of
list_activations license_id cap = do
  lic ← query (λ db. find (is_license license_id) (Db.licenses db))
  list_of license_id cap lic
