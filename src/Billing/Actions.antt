-- ===== src/Billing/Actions.antt =====
-- Every action of an event keeps the shape of the subscriptions:
-- src/server/modules/billing/lifecycle.ts and webhook.ts, with issuance/lifecycle.ts.
use license_srv.Prelude.{All}
use license_srv.Store.{Db}
use license_srv.Billing.Shape.{HasShape}

abbrev Shaped : Db → Type 0
Shaped db = All HasShape db.subscriptions
