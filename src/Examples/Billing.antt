-- ===== src/Examples/Billing.antt =====
-- Deliveries to the small tenant, whose second license is revoked and has a subscription.
use Prim.Native.String.{String}
use license_srv.Prelude.{
  List, ◌≡◌, refl, ◌-◌, true, ◌&&◌, Option, none, some, [], ◌∷◌, arith, find, any_by,
}
use license_srv.Store.{
  Scalar, stripe, CanonicalEventType, EventOutcome, Subscription, BillingState, BillingEvent, Db,
  LicenseStatus, Result,
}
use license_srv.Issuance.Lifecycle.{find_license}
use license_srv.Issuance.Issue.{signed}
use license_srv.Catalog.Effective.{get_effective_plan_definition}
use license_srv.Billing.Events.{
  BillingAction, FieldValue, build_payload_summary, CanonicalEvent, resolve_ledger_retention_secs,
}
use license_srv.Billing.Subscription.{
  is_event, same_provider, has_id, get_subscription_by_id, ApplyStateInput,
  apply_subscription_state, prune_billing_events,
}
use license_srv.Billing.Customers.{ConnectionStatus, ResolvedConnection, BillingDeps}
use license_srv.Billing.GraceWorker.{is_elapsed, is_in_grace, has_elapsed, sweep_tenant}
use license_srv.Billing.Webhook.{apply_action, Ids, Delivery, handle_webhook}
use license_srv.Billing.Once.{IsNoop, redelivery}
use license_srv.Billing.Known.{IsRecorded}
use license_srv.Billing.Guard.{Forward, apply_subscription_state-Forward}
use license_srv.Billing.Stuck.{IsStuck, sweep_tenant-IsStuck}
use license_srv.Billing.Recorded.{Minimal}
use license_srv.Billing.Summaries.{handle_webhook-Minimal}
use license_srv.Billing.Windows.{prune-is_event}
use license_srv.Examples.Data.{shop, license_of, IsOk, value, value_eq}

abbrev sub_3 : Subscription
sub_3 = record {
  id = 3;
  provider = stripe;
  external_subscription_id = 30;
  license_id = 2;
  billing_state = BillingState.past_due;
  grace_expires_at = some 500;
  last_applied_event_at = some 10;
}

abbrev pub event_9 : CanonicalEvent
event_9 = record {
  provider = stripe;
  provider_event_id = 9;
  type = CanonicalEventType.renewed;
  external_subscription_id = some 30;
  plan_key = some "price_pro";
  external_customer_id = some 40;
  period_end = some 2000;
  occurred_at = 20;
  payload_summary = [];
}

abbrev ledger_9 : BillingEvent
ledger_9 = record {
  id = 90;
  provider = stripe;
  provider_event_id = 9;
  type = CanonicalEventType.renewed;
  subscription_id = some 3;
  occurred_at = 20;
  received_at = 21;
  outcome = EventOutcome.applied;
  reason = none;
  payload_summary = [];
}

abbrev pub billed : Db
billed = record shop { subscriptions = sub_3 ∷ []; billing_events = ledger_9 ∷ [] }

abbrev pub conn_1 : ResolvedConnection
conn_1 = record {
  provider = stripe;
  status = ConnectionStatus.active;
  plan_map = ("price_pro", 1) ∷ [];
  default_grace_seconds = 86400;
  grace_overrides = ("price_pro", 0) ∷ [];
}

abbrev pub billing_deps : BillingDeps
billing_deps = record {
  config = record {
    default_grace_seconds = 1209600;
    signature_tolerance_secs = 300;
    webhook_rate_max_per_connection = 120;
    webhook_rate_max_per_ip = 300;
    webhook_rate_window = "1 minute";
    ledger_retention_secs = 31536000;
    secret_rotation_window_secs = 86400;
  };
  effective = get_effective_plan_definition (λ a b. true);
  issue = record { before = λ a b. true; signer = some (λ c. signed 900); policy = none };
}

abbrev pub ids_1 : Ids
ids_1 = record {
  draw = record {
    customer_id = 101;
    subscription_id = 102;
    license = record { id = 103; nonce = 104; now = 30 };
  };
  stamp = record { id = 105; received_at = 30 };
}

abbrev delivery_1 : Delivery
delivery_1 = record {
  connection = some conn_1;
  signature_fault = none;
  event = some event_9;
  now_unix = 30;
}

event_9-IsRecorded : IsRecorded event_9 billed
unfolding any_by is_event same_provider
event_9-IsRecorded = refl

redelivery_example : IsNoop billed (handle_webhook billing_deps ids_1 delivery_1 billed)
redelivery_example = redelivery billing_deps ids_1 delivery_1 event_9 billed refl event_9-IsRecorded

license_2_found : find_license 2 billed ≡ some (license_of 2 LicenseStatus.revoked)
unfolding find
license_2_found = refl

abbrev refunded_3 : Result (Unit {0} × Db)
refunded_3 = apply_action billing_deps conn_1 sub_3 event_9 30000 BillingAction.revoke billed

sub_3_elapsed :
    find (λ (s : Subscription). has_id 3 s && is_elapsed 30000 s) billed.subscriptions ≡ some sub_3
unfolding find is_elapsed is_in_grace has_elapsed
sub_3_elapsed = refl

sweep_tenant-IsStuck_example :
    IsStuck 30000 sub_3 (license_of 2 LicenseStatus.revoked) refl (sweep_tenant 30000 billed)
sweep_tenant-IsStuck_example =
    sweep_tenant-IsStuck 30000 sub_3 (license_of 2 LicenseStatus.revoked) refl billed
      (sub_3_elapsed, license_2_found)

abbrev input_20 : ApplyStateInput
input_20 = record { billing_state = BillingState.active; grace_expires_at = none; occurred_at = 20 }

abbrev applied_20 : Result (Option Subscription × Db)
applied_20 = apply_subscription_state 3 input_20 billed

applied_20_IsOk : IsOk applied_20
unfolding apply_subscription_state
applied_20_IsOk = tt

sub_3_found : get_subscription_by_id 3 billed ≡ some sub_3
unfolding find
sub_3_found = refl

apply_subscription_state-Forward_example :
    (t : Subscription) × (get_subscription_by_id 3 (value applied_20 applied_20_IsOk).1 ≡ some t)
    × Forward sub_3 t
apply_subscription_state-Forward_example =
    apply_subscription_state-Forward 3 3 input_20 billed (value applied_20 applied_20_IsOk).1 sub_3
      (value applied_20 applied_20_IsOk).0 sub_3_found (value_eq applied_20 applied_20_IsOk)

ledger_9_found : find (is_event stripe 9) billed.billing_events ≡ some ledger_9
unfolding find is_event same_provider
ledger_9_found = refl

prune-is_event_example :
    any_by
      (is_event stripe 9)
      (prune_billing_events (172821 - resolve_ledger_retention_secs 5) billed).billing_events
    ≡ true
prune-is_event_example = prune-is_event billed stripe 9 172821 5 ledger_9_found (omega arith)

abbrev fields_10 : List (String × FieldValue)
fields_10 =
    ("card", FieldValue.scalar (Scalar.text "4242"))
    ∷ ("planKey", FieldValue.scalar (Scalar.text "price_pro"))
    ∷ []

abbrev event_10 : CanonicalEvent
event_10 = record event_9 {
  provider_event_id = 10;
  payload_summary = build_payload_summary fields_10;
}

abbrev delivery_10 : Delivery
delivery_10 = record delivery_1 { event = some event_10 }

handle_webhook-Minimal_example : Minimal (handle_webhook billing_deps ids_1 delivery_10 billed).1
handle_webhook-Minimal_example =
    handle_webhook-Minimal billing_deps ids_1 delivery_10 event_10 fields_10 billed refl refl
      (tt, tt)
