-- ===== src/Store/Transaction.antt =====
-- Transactions: `withTenant` of src/server/db/client.ts, `writeAudit` of src/server/audit/index.ts,
-- and the typed errors that the services throw.
use Prim.Native.String.{String}
use license_srv.Prelude.{ℕ, Bool, true, false, List, ◌∷◌}
use license_srv.Store.Rows.{Db, AuditValue}

-- The machine codes of `LeaseError`, `IssuanceError`, `ActivationError` and `BillingError`.
pub data Code : Type 0 where
  not_found license_not_found no_concurrency_entitlement license_not_active : Code
  activation_required signer_unavailable validation_error : Code
  seat_capacity_exhausted : (max_concurrent used overage_allowance : ℕ) → Code
  lease_not_renewable : String → Code
  invalid_transition transfer_limit_exceeded type_error : Code
  insufficient_signals nonce_replayed : Code
  seat_limit_reached : (seat_limit seats_used : ℕ) → Code
  plan_not_issuable customer_anonymized : Code
  duplicate_subscription invalid_event_shape duplicate_rollback : Code
  unique_violation : Code

-- A thrown error: its code and HTTP status. The message is left out.
pub record Failure : Type 0 where
  pub code : Code
  pub status : ℕ

pub data Result {ℓ} (A : Type ℓ) : Type ℓ where
  ok : A → Result A
  err : Failure → Result A

-- A step of a transaction: it reads and changes the tables, or throws.
abbrev pub Tx : Type 0 → Type 0
Tx A = Db → Result (A × Db)

infixl 5 ◌>>=◌ ◌>>◌
abbrev pub ◌>>=◌ : {A B : Type 0} → Tx A → (A → Tx B) → Tx B
◌>>=◌ m f db = elim (m db) [ ok r ↦ f r.0 r.1 | err e ↦ err e ]

abbrev pub ◌>>◌ : {B : Type 0} → Tx (Unit {0}) → Tx B → Tx B
◌>>◌ m k db = elim (m db) [ ok r ↦ k r.1 | err e ↦ err e ]

abbrev pub pure : {A : Type 0} → A → Tx A
pure a db = ok (a, db)

abbrev pub throw : {A : Type 0} → Code → ℕ → Tx A
throw code status db = err (record { code = code; status = status })

-- `if (refused) throw …`.
abbrev pub refuse_if : Bool → Code → ℕ → Tx (Unit {0})
refuse_if true code status db = err (record { code = code; status = status })
refuse_if false code status db = ok (tt, db)

abbrev pub query : {A : Type 0} → (Db → A) → Tx A
query f db = ok (f db, db)

abbrev pub modify : (Db → Db) → Tx (Unit {0})
modify f db = ok (tt, f db)

abbrev pub write_audit : String → String → ℕ → List (String × AuditValue) → Tx (Unit {0})
write_audit actor action target after db = ok (
  tt,
  record db {
    audit_log =
        record { actor = actor; action = action; target = target; after = after } ∷ db.audit_log;
  },
)

unfoldable pub commit : {A : Type 0} → Db → Result (A × Db) → Result A × Db
commit db (ok r) = (ok r.0, r.1)
commit db (err e) = (err e, db)

-- `withTenant`: the changes are committed if the body returns, and rolled back if it throws.
unfoldable pub with_tenant : {A : Type 0} → Tx A → Db → Result A × Db
unfolding commit
with_tenant body db = commit db (body db)

-- Several transactions in a row, each committed before the next begins.
abbrev pub Service : Type 0 → Type 0
Service A = Db → Result A × Db

unfoldable pub go_on : {A B : Type 0} → Result A × Db → (A → Service B) → Result B × Db
go_on (ok a, db) f = f a db
go_on (err e, db) f = (err e, db)

abbrev pub and_then : {A B : Type 0} → Service A → (A → Service B) → Service B
and_then m f db = go_on (m db) f
