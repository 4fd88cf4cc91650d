-- ===== src/Billing/Subscription.antt =====
-- src/server/modules/billing/subscription-repo.ts and ledger-repo.ts: the subscriptions, one for
-- each license, and the ledger of events, one row for each event id of a provider.
use Prim.Native.String.{String}
use text.Mathlib.Text.{◌==◌ as str_eq}
use license_srv.Prelude.{
  ℕ, Bool, true, false, ◌&&◌, ◌||◌, Option, none, some, List, ◌∷◌, ltb, leb, ◌==◌, find, any_by,
  update_where, filter_by,
}
use license_srv.Store.{
  Provider, CanonicalEventType, EventOutcome, applied, deadletter, rejected, Scalar, BillingState,
  Subscription, BillingEvent, Db, duplicate_subscription, invalid_event_shape, Tx, ◌>>=◌, ◌>>◌,
  pure, refuse_if, query, modify,
}

unfoldable pub same_provider : Provider → Provider → Bool
same_provider Provider.stripe Provider.stripe = true
same_provider Provider.paddle Provider.paddle = true
same_provider Provider.generic Provider.generic = true
same_provider _ _ = false

unfoldable pub has_external_id : Provider → ℕ → Subscription → Bool
unfolding same_provider
has_external_id provider external_id s =
    same_provider s.provider provider && s.external_subscription_id == external_id

unfoldable pub resolve_subscription_by_external_id : Provider → ℕ → Db → Option Subscription
unfolding has_external_id
resolve_subscription_by_external_id provider external_id db =
    find (has_external_id provider external_id) db.subscriptions

abbrev pub has_id : ℕ → Subscription → Bool
has_id id s = Subscription.id s == id

abbrev pub get_subscription_by_id : ℕ → Db → Option Subscription
get_subscription_by_id id db = find (has_id id) db.subscriptions

pub record LinkSubscriptionInput : Type 0 where
  pub provider : Provider
  pub external_subscription_id : ℕ
  pub license_id : ℕ
  pub billing_state : BillingState
  pub grace_expires_at : Option ℕ
  pub occurred_at : Option ℕ

-- The two unique indexes: of the external id for a provider, and of the license.
unfoldable pub is_linked : LinkSubscriptionInput → Subscription → Bool
unfolding has_external_id
is_linked input s =
    has_external_id input.provider input.external_subscription_id s
    || s.license_id == input.license_id

abbrev pub new_subscription : ℕ → LinkSubscriptionInput → Subscription
new_subscription id input = record {
  id = id;
  provider = input.provider;
  external_subscription_id = input.external_subscription_id;
  license_id = input.license_id;
  billing_state = input.billing_state;
  grace_expires_at = input.grace_expires_at;
  last_applied_event_at = input.occurred_at;
}

abbrev pub with_subscriptions : Db → List Subscription → Db
with_subscriptions db subscriptions = record db { subscriptions = subscriptions }

-- `id` is the fresh uuid of the row.
unfoldable pub link_subscription : (id : ℕ) → LinkSubscriptionInput → Tx Subscription
unfolding is_linked
link_subscription id input = do
  taken ← query (λ db. any_by (is_linked input) db.subscriptions)
  refuse_if taken duplicate_subscription 409
  modify (λ db. with_subscriptions db (new_subscription id input ∷ db.subscriptions))
  pure (new_subscription id input)

-- `occurred_at` is in seconds, `grace_expires_at` in milliseconds.
pub record ApplyStateInput : Type 0 where
  pub billing_state : BillingState
  pub grace_expires_at : Option ℕ
  pub occurred_at : ℕ

unfoldable pub is_newer : ℕ → Option ℕ → Bool
is_newer occurred_at none = true
is_newer occurred_at (some anchor) = ltb anchor occurred_at

unfoldable pub accepts : ℕ → ApplyStateInput → Subscription → Bool
unfolding is_newer
accepts id input s = has_id id s && is_newer input.occurred_at s.last_applied_event_at

abbrev pub advanced : ApplyStateInput → Subscription → Subscription
advanced input s = record s {
  billing_state = input.billing_state;
  grace_expires_at = input.grace_expires_at;
  last_applied_event_at = some input.occurred_at;
}

unfoldable pub returned : ApplyStateInput → Option Subscription → Option Subscription
returned input none = none
returned input (some s) = some (advanced input s)

unfoldable pub apply_subscription_state : ℕ → ApplyStateInput → Tx (Option Subscription)
unfolding accepts returned
apply_subscription_state id input = do
  found ← query (λ db. find (accepts id input) db.subscriptions)
  modify (λ db.
      with_subscriptions db (update_where (accepts id input) (advanced input) db.subscriptions))
  pure (returned input found)

pub record RecordEventInput : Type 0 where
  pub provider : Provider
  pub provider_event_id : ℕ
  pub type : CanonicalEventType
  pub subscription_id : Option ℕ
  pub occurred_at : ℕ
  pub outcome : EventOutcome
  pub reason : Option String
  pub payload_summary : List (String × Scalar)

unfoldable pub is_blank : Option String → Bool
is_blank none = true
is_blank (some reason) = str_eq reason ""

unfoldable pub is_given : Option String → Bool
is_given none = false
is_given (some reason) = true

unfoldable pub is_misshapen : EventOutcome → Option String → Bool
unfolding is_blank is_given
is_misshapen applied reason = is_given reason
is_misshapen deadletter reason = is_blank reason
is_misshapen rejected reason = is_blank reason

unfoldable pub is_event : Provider → ℕ → BillingEvent → Bool
unfolding same_provider
is_event provider event_id e = same_provider e.provider provider && e.provider_event_id == event_id

-- The fresh uuid of a row, and the time of the database in seconds.
pub record Stamp : Type 0 where
  pub id : ℕ
  pub received_at : ℕ

abbrev pub new_event : Stamp → RecordEventInput → BillingEvent
new_event stamp input = record {
  id = stamp.id;
  provider = input.provider;
  provider_event_id = input.provider_event_id;
  type = input.type;
  subscription_id = input.subscription_id;
  occurred_at = input.occurred_at;
  received_at = stamp.received_at;
  outcome = input.outcome;
  reason = input.reason;
  payload_summary = input.payload_summary;
}

pub record RecordEventResult : Type 0 where
  pub id : Option ℕ
  pub duplicate : Bool

-- `ON CONFLICT … DO NOTHING`, for an event that is on the ledger or not.
unfoldable pub insert_event : Stamp → RecordEventInput → (on_ledger : Bool) → Tx RecordEventResult
insert_event stamp input true = pure (record { id = none; duplicate = true })
insert_event stamp input false = do
  modify (λ db. record db { billing_events = new_event stamp input ∷ db.billing_events })
  pure (record { id = some stamp.id; duplicate = false })

unfoldable pub record_event : Stamp → RecordEventInput → Tx RecordEventResult
unfolding is_misshapen is_event insert_event
record_event stamp input = do
  refuse_if (is_misshapen input.outcome input.reason) invalid_event_shape 500
  on_ledger ←
      query (λ db. any_by (is_event input.provider input.provider_event_id) db.billing_events)
  insert_event stamp input on_ledger

abbrev pub dead_letter : Stamp → RecordEventInput → Tx RecordEventResult
dead_letter stamp input = record_event stamp (record input { outcome = deadletter })

abbrev pub is_recent : ℕ → BillingEvent → Bool
is_recent older_than e = leb older_than (BillingEvent.received_at e)

unfoldable pub prune_billing_events : (older_than : ℕ) → Db → Db
prune_billing_events older_than db = record db {
  billing_events = filter_by (is_recent older_than) db.billing_events;
}
