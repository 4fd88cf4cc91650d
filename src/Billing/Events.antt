-- ===== src/Billing/Events.antt =====
-- src/server/modules/billing/events.ts and the resolvers of config.ts: canonical events, the
-- actions that they ask for, the fields that the ledger may hold, and the windows of time.
use Prim.Native.String.{String}
use text.Mathlib.Text.{◌==◌ as str_eq}
use license_srv.Prelude.{
  ℕ, ◌+◌, ◌*◌, Bool, false, ◌&&◌, Option, none, some, List, [], ◌∷◌, if◌then◌else◌, ltb, leb,
}
use license_srv.Store.{Provider, CanonicalEventType, Scalar}

pub data BillingAction : Type 0 where
  provision renew past_due cancel revoke ignore : BillingAction

-- The value of a field that an adapter extracted: anything but text and numbers is `other`.
pub data FieldValue : Type 0 where
  null : FieldValue
  scalar : Scalar → FieldValue
  other : FieldValue

abbrev pub payload_summary_keys : List String
payload_summary_keys =
    "type" ∷ "planKey" ∷ "subscriptionStatus" ∷ "paymentStatus" ∷ "externalSubscriptionId"
    ∷ "occurredAt" ∷ []

unfoldable pub field : List (String × FieldValue) → String → FieldValue
field [] key = FieldValue.null
field (f ∷ fs) key = let rest = field fs key in if str_eq f.0 key then f.1 else rest

unfoldable pub keep_scalar : String → FieldValue → List (String × Scalar) → List (String × Scalar)
keep_scalar key null out = out
keep_scalar key (scalar value) out = (key, value) ∷ out
keep_scalar key other out = out

unfoldable pub summary_of : List String → List (String × FieldValue) → List (String × Scalar)
unfolding field keep_scalar
summary_of [] fields = []
summary_of (key ∷ keys) fields = keep_scalar key (field fields key) (summary_of keys fields)

abbrev pub build_payload_summary : List (String × FieldValue) → List (String × Scalar)
build_payload_summary fields = summary_of payload_summary_keys fields

-- `occurred_at` and `period_end` are in seconds.
pub record CanonicalEvent : Type 0 where
  pub provider : Provider
  pub provider_event_id : ℕ
  pub type : CanonicalEventType
  pub external_subscription_id : Option ℕ
  pub plan_key : Option String
  pub external_customer_id : Option ℕ
  pub period_end : Option ℕ
  pub occurred_at : ℕ
  pub payload_summary : List (String × Scalar)

unfoldable pub action_of_type : CanonicalEventType → BillingAction
action_of_type CanonicalEventType.created = provision
action_of_type CanonicalEventType.renewed = renew
action_of_type CanonicalEventType.payment_failed = past_due
action_of_type CanonicalEventType.canceled = cancel
action_of_type CanonicalEventType.refunded = revoke
action_of_type CanonicalEventType.unknown = ignore

abbrev pub map_event_to_action : CanonicalEvent → BillingAction
map_event_to_action event = action_of_type event.type

-- The anchor is in seconds.
unfoldable pub is_stale_event : ℕ → Option ℕ → Bool
is_stale_event occurred_at none = false
is_stale_event occurred_at (some anchor) = leb occurred_at anchor

pub record BillingConfig : Type 0 where
  pub default_grace_seconds : ℕ
  pub signature_tolerance_secs : ℕ
  pub webhook_rate_max_per_connection : ℕ
  pub webhook_rate_max_per_ip : ℕ
  pub webhook_rate_window : String
  pub ledger_retention_secs : ℕ
  pub secret_rotation_window_secs : ℕ

pub record GracePolicy : Type 0 where
  pub default_grace_seconds : Option ℕ
  pub grace_overrides : List (String × ℕ)

abbrev pub idempotency_floor_secs : ℕ
idempotency_floor_secs = 172800

abbrev pub secret_rotation_skew_tolerance_secs : ℕ
secret_rotation_skew_tolerance_secs = 120

unfoldable pub override_of : List (String × ℕ) → String → Option ℕ
override_of [] key = none
override_of (o ∷ os) key =
    let rest = override_of os key in if str_eq o.0 key then some o.1 else rest

-- No override is read without a plan key, or with an empty one.
unfoldable pub plan_override : List (String × ℕ) → Option String → Option ℕ
unfolding override_of
plan_override overrides none = none
plan_override overrides (some key) = if str_eq key "" then none else override_of overrides key

unfoldable pub first_positive : Option ℕ → ℕ → ℕ
first_positive none dflt = dflt
first_positive (some n) dflt = if ltb 0 n then n else dflt

unfoldable pub resolve_grace_seconds : BillingConfig → GracePolicy → Option String → ℕ
unfolding first_positive plan_override
resolve_grace_seconds config policy plan_key =
    first_positive (plan_override policy.grace_overrides plan_key)
      (first_positive policy.default_grace_seconds config.default_grace_seconds)

unfoldable pub resolve_ledger_retention_secs : ℕ → ℕ
resolve_ledger_retention_secs requested =
    let floor = idempotency_floor_secs + 1 in if ltb floor requested then requested else floor

-- The times are in milliseconds; `now` may be before `rotated_at`, by the skew of the clocks.
unfoldable pub is_rotation_window_open : BillingConfig → Option ℕ → (now : ℕ) → Bool
is_rotation_window_open config none now = false
is_rotation_window_open config (some rotated_at) now =
    leb rotated_at (now + secret_rotation_skew_tolerance_secs * 1000)
    && ltb now (rotated_at + config.secret_rotation_window_secs * 1000)
