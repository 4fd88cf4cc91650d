-- ===== src/Billing/Recorded.antt =====
-- What a claim, a refusal and a provision put on the ledger: src/server/modules/billing/webhook.ts with
-- ledger-repo.ts.
use Prim.Native.String.{String}
use mathlib.Core.Path.{subst}
use license_srv.Prelude.{ℕ, ◌≡◌, sym, Bool, true, false, Option, none, some, ◌∷◌, All}
use license_srv.Store.{
  EventOutcome, Subscription, BillingEvent, Db, AuditValue, Tx, ◌>>◌, pure, query, refuse_if,
  write_audit, refuse_if-eq-ok, Maintains, bind-Maintains, seq-Maintains, pure-Maintains,
  query-Maintains, throw-Maintains, modify-Maintains,
}
use license_srv.Issuance.Lifecycle.{find_license}
use license_srv.Billing.Events.{CanonicalEvent, payload_summary_keys}
use license_srv.Billing.Subscription.{
  RecordEventInput, Stamp, insert_event, record_event, apply_subscription_state,
}
use license_srv.Billing.Lifecycle.{reprovision, found_revoked, flag_if, reused}
use license_srv.Billing.Customers.{webhook_actor, ProvisionResult}
use license_srv.Billing.Webhook.{
  AckOutcome, applied, duplicate, evt_row, dead, claim_then, settle_provision,
}
use license_srv.Billing.Upheld.{Upholds}
use license_srv.Billing.Windows.{IsListed}

-- Every summary on the ledger has keys of the allow-list only.
abbrev pub IsMinimal : BillingEvent → Type 0
IsMinimal e = All (IsListed payload_summary_keys) e.payload_summary

abbrev pub Minimal : Db → Type 0
Minimal db = All IsMinimal db.billing_events

pub Minimal-Upholds : (license_id : ℕ) → Upholds Minimal license_id
unfolding apply_subscription_state
Minimal-Upholds license_id = record {
  on_audit = λ actor action target after db b db' p h.
      let e : db'.billing_events ≡ db.billing_events = cc in rw e p;
  on_license = λ set same db p. p;
  on_state =
      λ id input shape db r db' p h. let e : db'.billing_events ≡ db.billing_events = cc in rw e p;
}

pub refuse_if-Maintains :
    (c : Bool) (code : _) (status : ℕ) → Maintains Minimal (refuse_if c code status)
refuse_if-Maintains c code status db b db' p h =
    subst Minimal (sym (refuse_if-eq-ok c code status db h).1) p

pub insert_event-Maintains :
    (stamp : Stamp) (input : RecordEventInput) (on_ledger : Bool)
    → All (IsListed payload_summary_keys) input.payload_summary
    → Maintains Minimal (insert_event stamp input on_ledger)
unfolding insert_event
insert_event-Maintains stamp input true a = pure-Maintains Minimal _
insert_event-Maintains stamp input false a =
    seq-Maintains Minimal _ _ (modify-Maintains Minimal _ (λ db p. (a, p)))
      (pure-Maintains Minimal _)

pub record_event-Maintains :
    (stamp : Stamp) (input : RecordEventInput)
    → All (IsListed payload_summary_keys) input.payload_summary
    → Maintains Minimal (record_event stamp input)
unfolding record_event
record_event-Maintains stamp input a = seq-Maintains Minimal _ _ (refuse_if-Maintains _ _ _) (
    bind-Maintains Minimal _ (insert_event stamp input) (query-Maintains Minimal _)
      (λ on_ledger. insert_event-Maintains stamp input on_ledger a))

pub reprovision-Maintains :
    (event : CanonicalEvent) (sub : Subscription) → Maintains Minimal (reprovision event sub)
unfolding reprovision
reprovision-Maintains event sub =
    bind-Maintains Minimal (query (find_license sub.license_id)) _ (query-Maintains Minimal _)
      (λ lic.
        let after =
          ("providerEventId", AuditValue.id event.provider_event_id)
          ∷ ("subscriptionId", AuditValue.id sub.id)
          ∷ ("reused", AuditValue.flag true)
          ∷ flag_if (found_revoked lic) "revoked" in
        seq-Maintains Minimal (write_audit webhook_actor "billing.provisioned" sub.license_id after)
          (pure (reused sub))
          ((Minimal-Upholds sub.license_id).on_audit webhook_actor "billing.provisioned"
            sub.license_id after)
          (pure-Maintains Minimal (reused sub)))

module _ (stamp : Stamp) (event : CanonicalEvent)
    (listed : All (IsListed payload_summary_keys) event.payload_summary) where
  pub record-Maintains :
      (sub : Option ℕ) (outcome : EventOutcome) (reason : Option String)
      → Maintains Minimal (record_event stamp (evt_row event sub outcome reason))
  unfolding evt_row
  record-Maintains sub outcome reason =
      record_event-Maintains stamp (evt_row event sub outcome reason) listed

  pub dead-Maintains :
      (sub : Option ℕ) (reason : String) → Maintains Minimal (dead stamp event sub reason)
  unfolding dead
  dead-Maintains sub reason =
      bind-Maintains Minimal
        (record_event stamp (evt_row event sub EventOutcome.deadletter (some reason))) _
        (record-Maintains sub EventOutcome.deadletter (some reason))
        (λ dl. pure-Maintains Minimal _)

  pub claimed-Maintains :
      (effect : Tx (Unit {0})) (is_duplicate : Bool)
      → Maintains Minimal effect
      → Maintains Minimal {A = AckOutcome}
          (elim is_duplicate [ true ↦ pure duplicate | false ↦ do effect; pure applied ])
  claimed-Maintains effect true m = pure-Maintains Minimal _
  claimed-Maintains effect false m =
      seq-Maintains Minimal effect (pure applied) m (pure-Maintains Minimal _)

  pub claim_then-Maintains :
      (sub : Option ℕ) (effect : Tx (Unit {0}))
      → Maintains Minimal effect
      → Maintains Minimal (claim_then stamp (evt_row event sub EventOutcome.applied none) effect)
  unfolding claim_then evt_row
  claim_then-Maintains sub effect m =
      bind-Maintains Minimal (record_event stamp (evt_row event sub EventOutcome.applied none)) _
        (record-Maintains sub EventOutcome.applied none)
        (λ claim. claimed-Maintains effect claim.duplicate m)

  pub settle_provision-Maintains :
      (is_applied is_duplicate : Bool) (result : ProvisionResult)
      → Maintains Minimal (settle_provision stamp event is_applied is_duplicate result)
  unfolding settle_provision evt_row
  settle_provision-Maintains is_applied true result = throw-Maintains Minimal _ _
  settle_provision-Maintains false false result = dead-Maintains none _
  settle_provision-Maintains true false result =
      bind-Maintains Minimal
        (record_event stamp (evt_row event result.subscription_id EventOutcome.applied none)) _
        (record-Maintains result.subscription_id EventOutcome.applied none)
        (λ claim. seq-Maintains Minimal _ _ (refuse_if-Maintains _ _ _) (pure-Maintains Minimal _))
