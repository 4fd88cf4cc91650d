-- ===== src/Billing/Upheld.antt =====
-- What the actions of an event maintain, from what the statements that they are made of maintain:
-- src/server/modules/billing/lifecycle.ts and webhook.ts, with issuance/lifecycle.ts.
use Prim.Native.String.{String}
use license_srv.Prelude.{
  ℕ, ◌≡◌, refl, Bool, true, false, Option, none, some, List, ◌∷◌, [], ◌++◌, update_where,
}
use license_srv.Store.{
  Subscription, BillingState, LicenseStatus, License, Db, AuditValue, ◌>>=◌, ◌>>◌, query, modify,
  pure, write_audit, Maintains, bind-Maintains, seq-Maintains, pure-Maintains, query-Maintains,
  throw-Maintains, modify-Maintains,
}
use license_srv.Lease.Acquire.{is_license}
use license_srv.Catalog.Effective.{EffectivePlanDefinition}
use license_srv.Issuance.Lifecycle.{
  StatusRow, find_license, with_licenses, map_license_row, read_license, update_returning, move,
  revoke_from as revoke_status, lock_license as lock_status, lock_found as lock_status_row,
  revoke_license, reinstate_from, reinstate_license,
}
use license_srv.Billing.Events.{CanonicalEvent, BillingAction}
use license_srv.Billing.Subscription.{ApplyStateInput, apply_subscription_state}
use license_srv.Billing.Lifecycle.{lock_found, lock_license}
use license_srv.Billing.Customers.{
  MutationContext, ResolvedConnection, BillingDeps, actor_of, audit_source,
}
use license_srv.Billing.Overlay.{
  GraceAction, cancel, past_due, grace_state, grace_input, start_grace, grace_from, apply_grace,
  refreshed, refresh_license, time_or_null, renew_terms, renew_from, apply_renew, revoke_terms,
  apply_revoke, revoke_from,
}
use license_srv.Billing.GraceWorker.{is_in_grace}
use license_srv.Billing.Webhook.{webhook_context, apply_action}
use license_srv.Billing.Shape.{has_end}

-- The statements of the actions on a license maintain `P`: a record, an update of that license's
-- row, and one of the state of a subscription, which has an end of grace exactly where it is in one.
pub record Upholds (P : Db → Type 0) (license_id : ℕ) : Type 0 where
  pub on_audit :
      (actor action : String) (target : ℕ) (after : List (String × AuditValue))
      → Maintains P (write_audit actor action target after)
  pub on_license :
      (set : License → License)
      → ((l : License) → (set l).id ≡ l.id)
      → (db : Db) → P db
      → P (with_licenses db (update_where (is_license license_id) set db.licenses))
  pub on_state :
      (id : ℕ) (input : ApplyStateInput)
      → is_in_grace input.billing_state ≡ has_end input.grace_expires_at
      → Maintains P (apply_subscription_state id input)

module _ (P : Db → Type 0) (sub : Subscription) (u : Upholds P sub.license_id) where
  lock_found-Maintains : (lic : Option License) → Maintains P (lock_found lic)
  unfolding lock_found
  lock_found-Maintains none = throw-Maintains P _ _
  lock_found-Maintains (some lic) = pure-Maintains P lic

  lock_license-Maintains : (id : ℕ) → Maintains P (lock_license id)
  unfolding lock_license
  lock_license-Maintains id =
      bind-Maintains P (query (find_license id)) lock_found (query-Maintains P _)
        lock_found-Maintains

  state_then_audit-Maintains :
      (id : ℕ) (input : ApplyStateInput) (actor action : String) (target : ℕ)
      (after : List (String × AuditValue))
      → is_in_grace input.billing_state ≡ has_end input.grace_expires_at
      → Maintains P (
          apply_subscription_state id input
          >>= (λ (moved : Option Subscription). write_audit actor action target after))
  state_then_audit-Maintains id input actor action target after shape =
      bind-Maintains P (apply_subscription_state id input)
        (λ (moved : Option Subscription). write_audit actor action target after)
        (u.on_state id input shape) (λ moved. u.on_audit actor action target after)

  start_grace-Maintains :
      (deps : BillingDeps) (ctx : MutationContext) (conn : ResolvedConnection)
      (event : CanonicalEvent) (action : GraceAction) (now : ℕ)
      → Maintains P (start_grace deps ctx conn sub event action now)
  unfolding start_grace has_end is_in_grace grace_state
  start_grace-Maintains deps ctx conn event cancel now =
      state_then_audit-Maintains sub.id (grace_input deps conn event cancel now) (actor_of ctx)
        "billing.grace_started" sub.license_id _ refl
  start_grace-Maintains deps ctx conn event past_due now =
      state_then_audit-Maintains sub.id (grace_input deps conn event past_due now) (actor_of ctx)
        "billing.grace_started" sub.license_id _ refl

  grace_from-Maintains :
      (deps : BillingDeps) (ctx : MutationContext) (conn : ResolvedConnection)
      (event : CanonicalEvent) (action : GraceAction) (now : ℕ) (status : LicenseStatus)
      → Maintains P (grace_from deps ctx conn sub event action now status)
  unfolding grace_from
  grace_from-Maintains deps ctx conn event action now LicenseStatus.revoked = pure-Maintains P tt
  grace_from-Maintains deps ctx conn event action now LicenseStatus.active =
      start_grace-Maintains deps ctx conn event action now
  grace_from-Maintains deps ctx conn event action now LicenseStatus.suspended =
      start_grace-Maintains deps ctx conn event action now

  apply_grace-Maintains :
      (deps : BillingDeps) (ctx : MutationContext) (conn : ResolvedConnection)
      (event : CanonicalEvent) (action : GraceAction) (now : ℕ)
      → Maintains P (apply_grace deps ctx conn sub event action now)
  unfolding apply_grace
  apply_grace-Maintains deps ctx conn event action now =
      bind-Maintains P (lock_license sub.license_id)
        (λ (lic : License). grace_from deps ctx conn sub event action now lic.status)
        (lock_license-Maintains sub.license_id)
        (λ lic. grace_from-Maintains deps ctx conn event action now lic.status)

  map_license_row-Maintains : (lic : Option License) → Maintains P (map_license_row lic)
  unfolding map_license_row
  map_license_row-Maintains none = throw-Maintains P _ _
  map_license_row-Maintains (some lic) = pure-Maintains P lic

  read_license-Maintains : (id : ℕ) → Maintains P (read_license id)
  unfolding read_license
  read_license-Maintains id =
      bind-Maintains P (query (find_license id)) map_license_row (query-Maintains P _)
        map_license_row-Maintains

  move-Maintains :
      (actor action : String) (after : List (String × AuditValue)) (set : License → License)
      → ((l : License) → (set l).id ≡ l.id)
      → Maintains P (move actor action sub.license_id after set)
  unfolding move update_returning
  move-Maintains actor action after set same =
      bind-Maintains P (update_returning sub.license_id set)
        (λ (lic : License). write_audit actor action sub.license_id after >> pure lic)
        (seq-Maintains P
          (modify
            (λ db. with_licenses db (update_where (is_license sub.license_id) set db.licenses)))
          (read_license sub.license_id) (modify-Maintains P _ (u.on_license set same))
          (read_license-Maintains sub.license_id))
        (λ lic.
          seq-Maintains P (write_audit actor action sub.license_id after) (pure lic)
            (u.on_audit actor action sub.license_id after) (pure-Maintains P lic))

  revoke_from-Maintains :
      (actor : String) (s : LicenseStatus) → Maintains P (revoke_status actor sub.license_id s)
  unfolding revoke_status
  revoke_from-Maintains actor LicenseStatus.revoked = read_license-Maintains sub.license_id
  revoke_from-Maintains actor LicenseStatus.active =
      move-Maintains actor "license.revoked" [] _ (λ l. refl)
  revoke_from-Maintains actor LicenseStatus.suspended =
      move-Maintains actor "license.revoked" [] _ (λ l. refl)

  reinstate_from-Maintains :
      (actor : String) (s : LicenseStatus) → Maintains P (reinstate_from actor sub.license_id s)
  unfolding reinstate_from
  reinstate_from-Maintains actor LicenseStatus.suspended =
      move-Maintains actor "license.reinstated" [] _ (λ l. refl)
  reinstate_from-Maintains actor LicenseStatus.active = throw-Maintains P _ _
  reinstate_from-Maintains actor LicenseStatus.revoked = throw-Maintains P _ _

  lock_status_row-Maintains : (lic : Option License) → Maintains P (lock_status_row lic)
  unfolding lock_status_row
  lock_status_row-Maintains none = throw-Maintains P _ _
  lock_status_row-Maintains (some lic) = pure-Maintains P _

  lock_status-Maintains : (id : ℕ) → Maintains P (lock_status id)
  unfolding lock_status
  lock_status-Maintains id =
      bind-Maintains P (query (find_license id)) lock_status_row (query-Maintains P _)
        lock_status_row-Maintains

  revoke_license-Maintains : (actor : String) → Maintains P (revoke_license actor sub.license_id)
  unfolding revoke_license
  revoke_license-Maintains actor =
      bind-Maintains P (lock_status sub.license_id)
        (λ (cur : StatusRow). revoke_status actor sub.license_id cur.status)
        (lock_status-Maintains sub.license_id) (λ cur. revoke_from-Maintains actor cur.status)

  reinstate_license-Maintains :
      (actor : String) → Maintains P (reinstate_license actor sub.license_id)
  unfolding reinstate_license
  reinstate_license-Maintains actor =
      bind-Maintains P (lock_status sub.license_id)
        (λ (cur : StatusRow). reinstate_from actor sub.license_id cur.status)
        (lock_status-Maintains sub.license_id) (λ cur. reinstate_from-Maintains actor cur.status)

  refresh_license-Maintains :
      (period_end : Option ℕ) (eff : Option EffectivePlanDefinition)
      → Maintains P (refresh_license sub.license_id period_end eff)
  unfolding refresh_license refreshed
  refresh_license-Maintains period_end none = pure-Maintains P tt
  refresh_license-Maintains period_end (some eff) =
      modify-Maintains P _ (u.on_license (refreshed eff period_end) (λ l. refl))

  renew_terms-Maintains :
      (deps : BillingDeps) (ctx : MutationContext) (event : CanonicalEvent) (plan_id : ℕ)
      → Maintains P (renew_terms deps ctx sub event plan_id)
  unfolding renew_terms is_in_grace has_end
  renew_terms-Maintains deps ctx event plan_id =
      let input : ApplyStateInput = record {
        billing_state = BillingState.active;
        grace_expires_at = none;
        occurred_at = event.occurred_at;
      } in
      let after =
        audit_source ctx event
        ++ ("billingState", AuditValue.text "active")
          ∷ ("extendedTo", time_or_null event.period_end)
          ∷ [] in
      bind-Maintains P (query (deps.effective plan_id))
        (λ (eff : Option EffectivePlanDefinition).
          refresh_license sub.license_id event.period_end eff
          >> (apply_subscription_state sub.id input >>= (λ (moved : Option Subscription).
              write_audit (actor_of ctx) "billing.renewed" sub.license_id after)))
        (query-Maintains P _)
        (λ eff.
          seq-Maintains P (refresh_license sub.license_id event.period_end eff) _
            (refresh_license-Maintains event.period_end eff)
            (state_then_audit-Maintains sub.id input (actor_of ctx) "billing.renewed" sub.license_id
              after refl))

  renew_from-Maintains :
      (deps : BillingDeps) (ctx : MutationContext) (event : CanonicalEvent) (plan_id : ℕ)
      (status : LicenseStatus)
      → Maintains P (renew_from deps ctx sub event plan_id status)
  unfolding renew_from
  renew_from-Maintains deps ctx event plan_id LicenseStatus.revoked = pure-Maintains P tt
  renew_from-Maintains deps ctx event plan_id LicenseStatus.active =
      renew_terms-Maintains deps ctx event plan_id
  renew_from-Maintains deps ctx event plan_id LicenseStatus.suspended =
      bind-Maintains P (reinstate_license (actor_of ctx) sub.license_id)
        (λ (l : License). renew_terms deps ctx sub event plan_id)
        (reinstate_license-Maintains (actor_of ctx))
        (λ l. renew_terms-Maintains deps ctx event plan_id)

  apply_renew-Maintains :
      (deps : BillingDeps) (ctx : MutationContext) (event : CanonicalEvent)
      → Maintains P (apply_renew deps ctx sub event)
  unfolding apply_renew
  apply_renew-Maintains deps ctx event =
      bind-Maintains P (lock_license sub.license_id)
        (λ (lic : License). renew_from deps ctx sub event lic.plan_id lic.status)
        (lock_license-Maintains sub.license_id)
        (λ lic. renew_from-Maintains deps ctx event lic.plan_id lic.status)

  revoke_terms-Maintains :
      (ctx : MutationContext) (event : CanonicalEvent) (already : Bool)
      → Maintains P (revoke_terms ctx sub event already)
  unfolding revoke_terms is_in_grace has_end
  revoke_terms-Maintains ctx event already =
      state_then_audit-Maintains sub.id
        (record {
          billing_state = BillingState.refunded;
          grace_expires_at = none;
          occurred_at = event.occurred_at;
        })
        (actor_of ctx) "billing.revoked" sub.license_id _ refl

  overlay_revoke-Maintains :
      (ctx : MutationContext) (event : CanonicalEvent) (status : LicenseStatus)
      → Maintains P (revoke_from ctx sub event status)
  unfolding revoke_from
  overlay_revoke-Maintains ctx event LicenseStatus.revoked = revoke_terms-Maintains ctx event true
  overlay_revoke-Maintains ctx event LicenseStatus.active =
      bind-Maintains P (revoke_license (actor_of ctx) sub.license_id)
        (λ (l : License). revoke_terms ctx sub event false)
        (revoke_license-Maintains (actor_of ctx)) (λ l. revoke_terms-Maintains ctx event false)
  overlay_revoke-Maintains ctx event LicenseStatus.suspended =
      bind-Maintains P (revoke_license (actor_of ctx) sub.license_id)
        (λ (l : License). revoke_terms ctx sub event false)
        (revoke_license-Maintains (actor_of ctx)) (λ l. revoke_terms-Maintains ctx event false)

  apply_revoke-Maintains :
      (ctx : MutationContext) (event : CanonicalEvent) → Maintains P (apply_revoke ctx sub event)
  unfolding apply_revoke
  apply_revoke-Maintains ctx event =
      bind-Maintains P (lock_license sub.license_id)
        (λ (lic : License). revoke_from ctx sub event lic.status)
        (lock_license-Maintains sub.license_id)
        (λ lic. overlay_revoke-Maintains ctx event lic.status)

  -- Any action of an event that returns maintains it.
  pub apply_action-Maintains :
      (deps : BillingDeps) (conn : ResolvedConnection) (event : CanonicalEvent) (now : ℕ)
      (action : BillingAction)
      → Maintains P (apply_action deps conn sub event now action)
  unfolding apply_action
  apply_action-Maintains deps conn event now BillingAction.renew =
      apply_renew-Maintains deps webhook_context event
  apply_action-Maintains deps conn event now BillingAction.revoke =
      apply_revoke-Maintains webhook_context event
  apply_action-Maintains deps conn event now BillingAction.cancel =
      apply_grace-Maintains deps webhook_context conn event cancel now
  apply_action-Maintains deps conn event now BillingAction.past_due =
      apply_grace-Maintains deps webhook_context conn event past_due now
  apply_action-Maintains deps conn event now BillingAction.provision = pure-Maintains P tt
  apply_action-Maintains deps conn event now BillingAction.ignore = pure-Maintains P tt
