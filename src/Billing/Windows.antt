-- ===== src/Billing/Windows.antt =====
-- The windows of time and the fields of the ledger: src/server/modules/billing/events.ts, config.ts
-- and `pruneBillingEvents` of ledger-repo.ts.
use Prim.Native.String.{String}
use license_srv.Prelude.{
  ℕ, ◌≡◌, refl, ◌≤◌, ◌<◌, ◌+◌, ◌-◌, Bool, true, Option, none, some, List, [], ◌∷◌, arith, inl, inr,
  All, All-imp, Mem, find, any_by, filter_by,
}
use license_srv.Store.{Provider, BillingEvent, Scalar, Db}
use license_srv.Billing.Events.{
  FieldValue, field, keep_scalar, summary_of, payload_summary_keys, build_payload_summary,
  first_positive, plan_override, resolve_grace_seconds, idempotency_floor_secs,
  resolve_ledger_retention_secs, CanonicalEvent,
}
use license_srv.Billing.Subscription.{is_event, is_recent, prune_billing_events}
use license_srv.Billing.Customers.{BillingDeps, ResolvedConnection}
use license_srv.Billing.Overlay.{grace_end}

-- A field of a summary is one of the keys.
abbrev pub IsListed : List String → String × Scalar → Type 0
IsListed keys entry = Mem entry.0 keys

keep_scalar-IsListed :
    (keys : List String) (key : String) (value : FieldValue) (out : List (String × Scalar))
    → Mem key keys
    → All (IsListed keys) out
    → All (IsListed keys) (keep_scalar key value out)
unfolding keep_scalar
keep_scalar-IsListed keys key FieldValue.null out m a = a
keep_scalar-IsListed keys key (FieldValue.scalar value) out m a = (m, a)
keep_scalar-IsListed keys key FieldValue.other out m a = a

summary_of-IsListed :
    (keys : List String) (fields : List (String × FieldValue))
    → All (IsListed keys) (summary_of keys fields)
unfolding summary_of
summary_of-IsListed [] fields = tt
summary_of-IsListed (key ∷ keys) fields =
    keep_scalar-IsListed (key ∷ keys) key (field fields key) (summary_of keys fields) (inl refl)
      (All-imp _ _ (summary_of keys fields) (λ e m. inr m) (summary_of-IsListed keys fields))

-- Whatever fields an adapter extracts, only the keys of the allow-list reach the ledger.
pub build_payload_summary-IsListed :
    (fields : List (String × FieldValue))
    → All (IsListed payload_summary_keys) (build_payload_summary fields)
build_payload_summary-IsListed fields = summary_of-IsListed payload_summary_keys fields

first_positive-pos : (o : Option ℕ) (dflt : ℕ) → 0 < dflt → 0 < first_positive o dflt
unfolding first_positive
first_positive-pos none dflt h = h
first_positive-pos (some n) dflt h = ground arith

-- A grace always ends after it begins, whatever the overrides, if the deployment's default is not 0.
pub grace_end_later :
    (deps : BillingDeps) (conn : ResolvedConnection) (event : CanonicalEvent) (now : ℕ)
    → 0 < deps.config.default_grace_seconds
    → now < grace_end deps conn event now
unfolding grace_end resolve_grace_seconds
grace_end_later deps conn event now h = omega (
  arith,
  first_positive-pos (plan_override conn.grace_overrides event.plan_key)
      (first_positive (some conn.default_grace_seconds) deps.config.default_grace_seconds)
      (first_positive-pos (some conn.default_grace_seconds) deps.config.default_grace_seconds h),
)

retention_floor : (requested : ℕ) → idempotency_floor_secs < resolve_ledger_retention_secs requested
unfolding resolve_ledger_retention_secs
retention_floor requested = ground arith

find-kept :
    (p keep : BillingEvent → Bool) (es : List BillingEvent) {e : BillingEvent}
    → find p es ≡ some e
    → keep e ≡ true
    → any_by p (filter_by keep es) ≡ true
unfolding find any_by filter_by
find-kept p keep [] f k = cc
find-kept p keep (x ∷ xs) {e} f k = ground (arith, find-kept p keep xs {e = e})

-- A pruning under any retention that the configuration asks for keeps every event that was received
-- within the idempotency floor: a redelivery of it is still seen on the ledger.
pub prune-is_event :
    (db : Db) (provider : Provider) (event_id now requested : ℕ) {e : BillingEvent}
    → find (is_event provider event_id) db.billing_events ≡ some e
    → now ≤ e.received_at + idempotency_floor_secs
    → any_by
        (is_event provider event_id)
        (prune_billing_events (now - resolve_ledger_retention_secs requested) db).billing_events
      ≡ true
unfolding prune_billing_events
prune-is_event db provider event_id now requested {e} found h =
    let kept : is_recent (now - resolve_ledger_retention_secs requested) e ≡ true =
      ground (arith, retention_floor requested) in
    find-kept (is_event provider event_id) _ db.billing_events found kept
