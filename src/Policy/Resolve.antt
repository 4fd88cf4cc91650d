-- ===== src/Policy/Resolve.antt =====
-- src/server/modules/policy/evaluate.ts: `resolveEntitlementDecision`, the choice of the one rule that
-- decides an entitlement.
use Prim.Native.String.{String}
use license_srv.Prelude.{
  ℕ, Bool, true, false, Option, none, some, List, [], ◌∷◌, map, ℤ, leb_ℤ, leb, filter_by, sort_by,
}
use license_srv.Js.{Value, undefined, null, string, object, Fields, own_field, text_le}
use license_srv.Policy.Outcome.{Outcome, done, failed}
use license_srv.Policy.Condition.{ConditionError, Runtime, EvaluateConditionOptions}
use license_srv.Policy.Evaluator.{evaluate_condition}
use license_srv.Policy.Effect.{
  EffectKind, EntitlementBounds, invalid_effect, unknown_kind, Decided, ApplyEffectResult, applied,
  refused, kind_of, apply_kind,
}

pub record RuleRef : Type 0 where
  pub rule_id : ℕ
  pub rule_key : String
  pub version : ℕ

pub record CandidateRule : Type 0 where
  pub id : ℕ
  pub rule_key : String
  pub version : ℕ
  pub priority : ℤ
  pub condition : Value
  pub effect : Value

pub record EntitlementDecisionResult : Type 0 where
  pub decision : Decided
  pub fired_rule : Option RuleRef
  pub considered_rules : List RuleRef
  pub enforced : Bool

unfoldable pub to_ref : CandidateRule → RuleRef
to_ref r = record { rule_id = r.id; rule_key = r.rule_key; version = r.version }

-- An order, and a further one where both rows come before the other.
unfoldable pub then_by : (before after next : Bool) → Bool
then_by false after next = false
then_by true false next = true
then_by true true next = next

-- The comparator gives 0 at most: priority DESC, then rule_key ASC, then version DESC.
unfoldable pub rule_le : CandidateRule → CandidateRule → Bool
unfolding then_by
rule_le a b = then_by (leb_ℤ b.priority a.priority) (leb_ℤ a.priority b.priority) (
    then_by (text_le a.rule_key b.rule_key) (text_le b.rule_key a.rule_key)
      (leb b.version a.version))

-- An error excludes the rule.
unfoldable pub did_match : Outcome ConditionError Bool → Bool
did_match (done b) = b
did_match (failed e) = false

unfoldable pub kind_in : Option Value → Option EffectKind
unfolding kind_of
kind_in (some (string kind)) = kind_of kind
kind_in _ = none

unfoldable pub or_undefined : Option Value → Value
or_undefined none = undefined
or_undefined (some v) = v

-- `applyEffect(effect as PolicyEffect, bounds)` on any value, and what is put for what it throws.
unfoldable pub apply_descriptor : Value → EntitlementBounds → ApplyEffectResult
unfolding apply_kind kind_in or_undefined own_field
apply_descriptor undefined bounds = refused invalid_effect
apply_descriptor null bounds = refused invalid_effect
apply_descriptor (object fields) bounds =
    apply_kind (kind_in (own_field fields "kind")) (or_undefined (own_field fields "value")) bounds
apply_descriptor _ bounds = refused unknown_kind

unfoldable pub settle :
    (winner : CandidateRule)
    → (peers : List RuleRef) → ApplyEffectResult
    → (base : Decided) → EntitlementDecisionResult
unfolding to_ref
settle winner peers (applied value clamped) base = record {
  decision = value;
  fired_rule = some (to_ref winner);
  considered_rules = peers;
  enforced = true;
}
settle winner peers (refused reason) base = record {
  decision = base;
  fired_rule = none;
  considered_rules = to_ref winner ∷ peers;
  enforced = false;
}

-- What the rules that match, in order, give.
unfoldable pub resolve_matching :
    List CandidateRule → EntitlementBounds → (base : Decided) → EntitlementDecisionResult
unfolding settle apply_descriptor to_ref
resolve_matching [] bounds base = record {
  decision = base;
  fired_rule = none;
  considered_rules = [];
  enforced = false;
}
resolve_matching (winner ∷ peers) bounds base =
    settle winner (map to_ref peers) (apply_descriptor winner.effect bounds) base

-- The options of the evaluation of a rule, by its id: the clock of the watchdog goes on.
module _ (rt : Runtime) (opts : ℕ → EvaluateConditionOptions) (context : Fields) where
  unfoldable pub is_match : CandidateRule → Bool
  unfolding did_match evaluate_condition
  is_match rule = did_match (evaluate_condition rt (opts rule.id) rule.condition context)

  unfoldable pub resolve_entitlement_decision :
      List CandidateRule → EntitlementBounds → (base : Decided) → EntitlementDecisionResult
  unfolding resolve_matching filter_by is_match sort_by rule_le
  resolve_entitlement_decision candidates bounds base =
      resolve_matching (filter_by is_match (sort_by rule_le candidates)) bounds base
