-- ===== src/Policy/Evaluation.antt =====
-- src/server/modules/policy/evaluate.ts: what an evaluation at issue takes and gives, and the
-- two branches of a decision.
use Prim.Native.String.{String}
use license_srv.Prelude.{ℕ, Bool, true, false, Option, none, some, List, [], ◌∷◌, ◌++◌}
use license_srv.Js.{
  Number, finite, Value, undefined, null, flag, number, string, array, Items, Fields, end, field,
}
use license_srv.Policy.Effect.{EntitlementBounds, Decided, amount, switch}
use license_srv.Policy.Resolve.{RuleRef, CandidateRule, EntitlementDecisionResult}
use license_srv.Policy.Context.{DecisionContextSources, BuildContextOptions}
use license_srv.Policy.Rules.{RuleStatus, PolicyRuleRow, Rules, same_status}

pub data EvaluationMode : Type 0 where
  enforced preview dry_run : EvaluationMode

pub record PolicyConfig : Type 0 where
  pub condition_max_bytes : ℕ
  pub condition_max_depth : ℕ
  pub condition_max_complexity : ℕ
  pub context_max_bytes : ℕ
  pub context_max_depth : ℕ
  pub context_max_fields : ℕ
  pub max_rules_per_entitlement : ℕ
  pub max_rules_per_tenant : ℕ
  pub max_rules_per_issuance : ℕ
  pub absolute_max_limit : Number

pub record EffectiveEntitlement : Type 0 where
  pub key : String
  pub type : String
  pub value : Decided

-- A row of `entitlement`, as the bounds are read from it.
pub record EntitlementBoundRow : Type 0 where
  pub id : ℕ
  pub key : String
  pub rule_max : Option Number
  pub rule_eligible : Bool
  pub rule_tiers : Option Items

pub record EvaluatePolicyInput : Type 0 where
  pub mode : Option EvaluationMode
  pub decision_timestamp : Number
  pub entitlements : List EffectiveEntitlement
  pub license_context : Option Fields
  pub plan_context : Option Fields
  pub usage_context : String → Option Fields

pub record EntitlementEvaluation : Type 0 where
  pub entitlement_key : String
  pub mode : EvaluationMode
  pub base_value : Decided
  pub decision : Decided
  pub fired_rule : Option RuleRef
  pub considered_rules : List RuleRef
  pub input_hash : ℕ
  pub input_snapshot : Fields
  pub enforced : Bool

pub record EvaluatePolicyResult : Type 0 where
  pub decisions : List (String × Decided)
  pub evaluations : List EntitlementEvaluation

abbrev pub nothing : EvaluatePolicyResult
nothing = record { decisions = []; evaluations = [] }

unfoldable pub to_candidate : PolicyRuleRow → CandidateRule
to_candidate r = record {
  id = r.id;
  rule_key = r.rule_key;
  version = r.version;
  priority = r.priority;
  condition = r.condition;
  effect = r.effect;
}

unfoldable pub to_value : Decided → Value
to_value (amount n) = number (finite n)
to_value (switch b) = flag b

unfoldable pub bounds_of : PolicyConfig → EntitlementBoundRow → EntitlementBounds
bounds_of config row = record {
  rule_max = row.rule_max;
  rule_eligible = row.rule_eligible;
  rule_tiers = row.rule_tiers;
  absolute_max = some config.absolute_max_limit;
}

unfoldable pub number_or_null : Option Number → Value
number_or_null none = null
number_or_null (some n) = number n

unfoldable pub array_or_undefined : Option Items → Value
array_or_undefined none = undefined
array_or_undefined (some xs) = array xs

unfoldable pub sources_of :
    EvaluatePolicyInput → EffectiveEntitlement → EntitlementBoundRow → DecisionContextSources
unfolding to_value number_or_null array_or_undefined
sources_of input ent row = record {
  decision_timestamp = input.decision_timestamp;
  license = input.license_context;
  plan = input.plan_context;
  entitlement = some (
      field "key" (string ent.key) (
        field "type" (string ent.type) (
          field "value" (to_value ent.value) (
            field "baseValue" (to_value ent.value) (
              field "ruleMax" (number_or_null row.rule_max) (
                field "ruleEligible" (flag row.rule_eligible)
                  (field "ruleTiers" (array_or_undefined row.rule_tiers) end)))))));
  usage = input.usage_context ent.key;
}

abbrev pub context_caps : PolicyConfig → BuildContextOptions
context_caps config = record {
  max_bytes = some config.context_max_bytes;
  max_depth = some config.context_max_depth;
  max_fields = some config.context_max_fields;
}

unfoldable pub record_of :
    EffectiveEntitlement
    → EvaluationMode
    → EntitlementDecisionResult
    → (hash : ℕ) → Fields
    → EntitlementEvaluation
record_of ent mode r hash context = record {
  entitlement_key = ent.key;
  mode = mode;
  base_value = ent.value;
  decision = r.decision;
  fired_rule = r.fired_rule;
  considered_rules = r.considered_rules;
  input_hash = hash;
  input_snapshot = context;
  enforced = r.enforced;
}

-- The base stands, with no rule fired or considered.
unfoldable pub base_result : Decided → EntitlementDecisionResult
base_result base = record {
  decision = base;
  fired_rule = none;
  considered_rules = [];
  enforced = false;
}

unfoldable pub mode_of : Option EvaluationMode → EvaluationMode
mode_of none = enforced
mode_of (some m) = m

unfoldable pub has_status : RuleStatus → PolicyRuleRow → Bool
unfolding same_status
has_status status r = same_status r.status status

unfoldable pub joined : EvaluatePolicyResult → EvaluatePolicyResult → EvaluatePolicyResult
joined a b = record {
  decisions = a.decisions ++ b.decisions;
  evaluations = a.evaluations ++ b.evaluations;
}

-- The rules of the enforced set: none, too many, or resolved.
unfoldable pub enforced_branch :
    EffectiveEntitlement
    → EvaluationMode
    → (hash : ℕ) → Fields
    → Rules
    → (is_over : Bool) → EntitlementDecisionResult
    → EvaluatePolicyResult
unfolding record_of base_result
enforced_branch ent mode hash context [] over resolved = nothing
enforced_branch ent mode hash context (r ∷ rs) true resolved = record {
  decisions = [];
  evaluations = record_of ent mode (base_result ent.value) hash context ∷ [];
}
enforced_branch ent mode hash context (r ∷ rs) false resolved = record {
  decisions = (ent.key, resolved.decision) ∷ [];
  evaluations = record_of ent mode resolved hash context ∷ [];
}

unfoldable pub preview_branch :
    EffectiveEntitlement
    → (hash : ℕ) → Fields
    → Rules
    → (is_over : Bool) → EntitlementDecisionResult
    → EvaluatePolicyResult
unfolding record_of base_result
preview_branch ent hash context [] over resolved = nothing
preview_branch ent hash context (r ∷ rs) true resolved = record {
  decisions = [];
  evaluations = record_of ent EvaluationMode.preview (base_result ent.value) hash context ∷ [];
}
preview_branch ent hash context (r ∷ rs) false resolved = record {
  decisions = [];
  evaluations = record_of ent EvaluationMode.preview resolved hash context ∷ [];
}
