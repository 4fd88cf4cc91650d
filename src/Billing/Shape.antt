-- ===== src/Billing/Shape.antt =====
-- A subscription has an end of grace exactly while it is past due or in grace. The constraint
-- `subscription_grace_shape` of src/migrations/0010_billing.sql asks for half of that;
-- src/server/modules/billing/subscription-repo.ts and lifecycle.ts keep all of it.
use license_srv.Prelude.{
  ℕ, ◌≡◌, Bool, true, false, Option, none, some, All, All-update_where, update_where,
}
use license_srv.Store.{Subscription, Db, ok}
use license_srv.Billing.Subscription.{ApplyStateInput, accepts, advanced, apply_subscription_state}
use license_srv.Billing.GraceWorker.{is_in_grace}

unfoldable pub has_end : Option ℕ → Bool
has_end none = false
has_end (some at) = true

abbrev pub HasShape : Subscription → Type 0
HasShape s = is_in_grace s.billing_state ≡ has_end s.grace_expires_at

pub apply_subscription_state-HasShape :
    (id : ℕ) (input : ApplyStateInput) (db db' : Db) (r : Option Subscription)
    → is_in_grace input.billing_state ≡ has_end input.grace_expires_at
    → All HasShape db.subscriptions
    → apply_subscription_state id input db ≡ ok (r, db')
    → All HasShape db'.subscriptions
unfolding apply_subscription_state
apply_subscription_state-HasShape id input db db' r shape all h =
    let e : db'.subscriptions ≡ update_where (accepts id input) (advanced input) db.subscriptions =
      cc in
    rw e (
      All-update_where HasShape (accepts id input) (advanced input) db.subscriptions
        (λ s a k. shape) all)
