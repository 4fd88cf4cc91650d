-- ===== src/Policy/Audit.antt =====
-- The audit of an evaluation: `appendEvaluation` of src/server/modules/policy/rule-repo.ts and
-- `writeAudit` of evaluate.ts, in a transaction of its own.
use Prim.Native.String.{String}
use mathlib.Core.List.{append-nil, append_assoc}
use license_srv.Prelude.{
  ℕ, ◌≡◌, refl, Bool, true, false, Option, none, some, List, [], ◌∷◌, ◌++◌, map,
}
use license_srv.Js.{Fields}
use license_srv.Policy.Effect.{Decided}
use license_srv.Policy.Resolve.{RuleRef}
use license_srv.Policy.Evaluation.{EvaluationMode, enforced, dry_run, EntitlementEvaluation}

-- A row of `policy_evaluation`, less its id and time.
pub record AppendEvaluationInput : Type 0 where
  pub license_id : Option ℕ
  pub plan_id : Option ℕ
  pub entitlement_key : String
  pub fired_rule : Option RuleRef
  pub considered_rules : Option (List RuleRef)
  pub input_hash : ℕ
  pub input_snapshot : Fields
  pub decision : Decided
  pub mode : EvaluationMode

-- The constraint that only a dry run may be without a license. The foreign keys to the license
-- and its plan hold of what the caller passes, and are not modelled.
unfoldable pub has_shape : (license_id : Option ℕ) → EvaluationMode → Bool
has_shape (some id) mode = true
has_shape none dry_run = true
has_shape none enforced = false
has_shape none EvaluationMode.preview = false

abbrev pub Evaluations : Type 0
Evaluations = List AppendEvaluationInput

unfoldable pub append_row :
    (is_valid : Bool) → AppendEvaluationInput → Evaluations → Option Evaluations
append_row false input rows = none
append_row true input rows = some (rows ++ input ∷ [])

unfoldable pub append_evaluation : AppendEvaluationInput → Evaluations → Option Evaluations
unfolding append_row has_shape
append_evaluation input rows = append_row (has_shape input.license_id input.mode) input rows

unfoldable pub considered : List RuleRef → Option (List RuleRef)
considered [] = none
considered (r ∷ rs) = some (r ∷ rs)

unfoldable pub audit_row :
    (license_id plan_id : Option ℕ) → EntitlementEvaluation → AppendEvaluationInput
unfolding considered
audit_row license_id plan_id ev = record {
  license_id = license_id;
  plan_id = plan_id;
  entitlement_key = ev.entitlement_key;
  fired_rule = ev.fired_rule;
  considered_rules = considered ev.considered_rules;
  input_hash = ev.input_hash;
  input_snapshot = ev.input_snapshot;
  decision = ev.decision;
  mode = ev.mode;
}

-- A statement that fails aborts the transaction: the statements after it fail too.
unfoldable pub append_next : Option Evaluations → AppendEvaluationInput → Option Evaluations
unfolding append_evaluation
append_next none input = none
append_next (some rows) input = append_evaluation input rows

unfoldable pub append_all :
    (license_id plan_id : Option ℕ)
    → List EntitlementEvaluation
    → Option Evaluations
    → Option Evaluations
unfolding append_next audit_row
append_all license_id plan_id [] rows = rows
append_all license_id plan_id (ev ∷ evs) rows =
    append_all license_id plan_id evs (append_next rows (audit_row license_id plan_id ev))

unfoldable pub or_unchanged : Option Evaluations → Evaluations → Evaluations
or_unchanged none rows = rows
or_unchanged (some after) rows = after

-- Each failure is caught; the commit of an aborted transaction rolls it back.
unfoldable pub write_audit :
    (license_id plan_id : Option ℕ) → List EntitlementEvaluation → Evaluations → Evaluations
unfolding append_all or_unchanged
write_audit license_id plan_id evs rows =
    or_unchanged (append_all license_id plan_id evs (some rows)) rows

append_all-some :
    (id : ℕ) (plan_id : Option ℕ) (evs : List EntitlementEvaluation) (rows : Evaluations)
    → append_all (some id) plan_id evs (some rows)
      ≡ some (rows ++ map (audit_row (some id) plan_id) evs)
unfolding append_all append_next append_evaluation append_row has_shape
append_all-some id plan_id [] rows = rw (append-nil rows) refl
append_all-some id plan_id (ev ∷ evs) rows =
    rw
      (
        append_all-some id plan_id evs (rows ++ audit_row (some id) plan_id ev ∷ []),
        append_assoc rows (audit_row (some id) plan_id ev ∷ [])
            (map (audit_row (some id) plan_id) evs),
      )
      refl

-- For a license that exists, the audit has one row for each evaluation, in order, after those there were.
pub write_audit_all :
    (id : ℕ) (plan_id : Option ℕ) (evs : List EntitlementEvaluation) (rows : Evaluations)
    → write_audit (some id) plan_id evs rows ≡ (rows ++ map (audit_row (some id) plan_id) evs)
unfolding write_audit or_unchanged
write_audit_all id plan_id evs rows = rw (append_all-some id plan_id evs rows) refl
