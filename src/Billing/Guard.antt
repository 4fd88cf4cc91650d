-- ===== src/Billing/Guard.antt =====
-- The recency guard of a subscription and the shape of its overlay:
-- src/server/modules/billing/subscription-repo.ts and events.ts.
use license_srv.Prelude.{
  ℕ, ◌≡◌, refl, ◌≤◌, Bool, true, false, not, ◌&&◌, Option, none, some, arith, find-update_where,
  if◌then◌else◌,
}
use license_srv.Store.{Subscription, Db, ok}
use license_srv.Billing.Events.{is_stale_event}
use license_srv.Billing.Subscription.{
  has_id, get_subscription_by_id, ApplyStateInput, is_newer, accepts, advanced,
  apply_subscription_state,
}

-- The anchor of the first is not after that of the second.
abbrev pub NotAfter : Option ℕ → Option ℕ → Type 0
NotAfter none b = Unit
NotAfter (some a) none = ⊥
NotAfter (some a) (some b) = a ≤ b

-- The guard of the update and the test before it agree: an update takes effect on a row exactly when
-- it is the row's, and the event is not stale for it.
pub accepts-is_stale_event :
    (id : ℕ) (input : ApplyStateInput) (s : Subscription)
    → accepts id input s
      ≡ (has_id id s && not (is_stale_event input.occurred_at s.last_applied_event_at))
unfolding accepts is_newer is_stale_event
accepts-is_stale_event id input s = ground arith

-- What a row becomes.
abbrev pub Forward : Subscription → Subscription → Type 0
Forward s t =
    (t.license_id ≡ s.license_id) × NotAfter s.last_applied_event_at t.last_applied_event_at

NotAfter-self : (a : Option ℕ) → NotAfter a a
NotAfter-self none = tt
NotAfter-self (some a) = omega arith

newer-NotAfter : (n : ℕ) (a : Option ℕ) → is_newer n a ≡ true → NotAfter a (some n)
unfolding is_newer
newer-NotAfter n none h = tt
newer-NotAfter n (some a) h = ground arith

row-Forward :
    (id : ℕ) (input : ApplyStateInput) (s : Subscription) (b : Bool)
    → b ≡ accepts id input s
    → Forward s (if b then advanced input s else s)
unfolding accepts
row-Forward id input s false e = (refl, NotAfter-self s.last_applied_event_at)
row-Forward id input s true e =
    (refl, newer-NotAfter input.occurred_at s.last_applied_event_at (ground arith))

-- An update of the state, applied or refused, leaves every subscription linked to its license, and
-- never moves the anchor of one backwards.
pub apply_subscription_state-Forward :
    (id key : ℕ) (input : ApplyStateInput) (db db' : Db) (s : Subscription)
    (r : Option Subscription)
    → get_subscription_by_id key db ≡ some s
    → apply_subscription_state id input db ≡ ok (r, db')
    → (t : Subscription) × (get_subscription_by_id key db' ≡ some t) × Forward s t
unfolding apply_subscription_state
apply_subscription_state-Forward id key input db db' s r found h = (
  (if accepts id input s then advanced input s else s),
  cc (
      find-update_where (has_id key) (accepts id input) (advanced input) db.subscriptions
        (λ y. refl) found),
  row-Forward id input s (accepts id input s) refl,
)
