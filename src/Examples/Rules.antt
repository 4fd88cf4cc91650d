-- ===== src/Examples/Rules.antt =====
-- Rules of a small tenant, as data of the examples on src/server/modules/policy.
use Prim.Native.String.{String}
use text.Mathlib.Text.{◌==◌ as str_eq}
use license_srv.Prelude.{ℕ, ◌+◌, true, false, none, some, List, [], ◌∷◌, pos}
use license_srv.Js.{
  Number, finite, nan, Value, number, string, array, object, nil, cons, end, field,
}
use license_srv.Policy.Condition.{Runtime, EvaluateConditionOptions}
use license_srv.Policy.Effect.{EntitlementBounds, amount}
use license_srv.Policy.Resolve.{CandidateRule}
use license_srv.Policy.Rules.{RuleStatus, PolicyRuleRow, Rules}
use license_srv.Policy.Decide.{Host}
use license_srv.Policy.Evaluation.{PolicyConfig, EntitlementBoundRow, EvaluatePolicyInput}
use license_srv.Policy.Routes.{RuleContent}

unfoldable pub add_numbers : Number → Number → Number
add_numbers (finite (pos a)) (finite (pos b)) = finite (pos (a + b))
add_numbers a b = nan

-- A host in which the number 1 is one unit.
abbrev pub runtime_1 : Runtime
runtime_1 = record {
  one = pos 1;
  add = add_numbers;
  multiply = λ a b. nan;
  subtract = λ a b. nan;
  divide = λ a b. nan;
  remainder = λ a b. nan;
  is_blank = λ s. str_eq s "";
  number_of = λ s. nan;
  includes = str_eq;
  same_object = λ a b. false;
  serialized_bytes = λ v. 100;
}

abbrev pub one_value : Value
one_value = number (finite (pos 1))

-- `{"==": [1, 1]}` and `{"has": "usage.calls"}`.
abbrev pub always : Value
always = object (field "==" (array (cons one_value (cons one_value nil))) end)

abbrev pub is_metered : Value
is_metered = object (field "has" (string "usage.calls") end)

abbrev pub raise_to : ℕ → Value
raise_to n = object (
    field "kind" (string "adjust_limit")
      (field "target" (string "seats") (field "value" (number (finite (pos n))) end)))

abbrev pub rule_of :
    (id : ℕ) → (key : String) → (version priority : ℕ) → RuleStatus → (value : ℕ) → PolicyRuleRow
rule_of id key version priority status value = record {
  id = id;
  rule_key = key;
  version = version;
  entitlement_id = 1;
  plan_id = none;
  condition = always;
  effect = raise_to value;
  priority = pos priority;
  status = status;
  author = 1;
  created_at = 0;
  updated_at = 0;
}

abbrev pub rules_1 : Rules
rules_1 =
    rule_of 1 "a" 1 5 RuleStatus.disabled 20
    ∷ rule_of 2 "a" 2 5 RuleStatus.active 30
    ∷ rule_of 3 "b" 1 9 RuleStatus.preview 40
    ∷ []

abbrev pub config_1 : PolicyConfig
config_1 = record {
  condition_max_bytes = 8192;
  condition_max_depth = 16;
  condition_max_complexity = 128;
  context_max_bytes = 16384;
  context_max_depth = 8;
  context_max_fields = 128;
  max_rules_per_entitlement = 50;
  max_rules_per_tenant = 500;
  max_rules_per_issuance = 100;
  absolute_max_limit = finite (pos 1000);
}

abbrev pub host_1 : Host
host_1 = record {
  runtime = runtime_1;
  is_late = λ rule n. false;
  collate = λ a b. true;
  context_hash = λ context. 7;
}

abbrev pub seats_row : EntitlementBoundRow
seats_row = record {
  id = 1;
  key = "seats";
  rule_max = some (finite (pos 50));
  rule_eligible = false;
  rule_tiers = none;
}

abbrev pub issue_input : EvaluatePolicyInput
issue_input = record {
  mode = none;
  decision_timestamp = finite (pos 1000);
  entitlements = record { key = "seats"; type = "integer_limit"; value = amount (pos 10) } ∷ [];
  license_context = none;
  plan_context = none;
  usage_context = λ key. none;
}

abbrev pub options_1 : EvaluateConditionOptions
options_1 = record {
  max_bytes = some 8192;
  max_depth = 16;
  max_complexity = 128;
  now = some (finite (pos 1000));
  is_late = λ n. false;
}

abbrev pub bounds_1 : EntitlementBounds
bounds_1 = record {
  rule_max = some (finite (pos 50));
  rule_eligible = false;
  rule_tiers = none;
  absolute_max = some (finite (pos 1000));
}

abbrev pub candidate_of : (id : ℕ) → (key : String) → (priority value : ℕ) → CandidateRule
candidate_of id key priority value = record {
  id = id;
  rule_key = key;
  version = 1;
  priority = pos priority;
  condition = always;
  effect = raise_to value;
}

abbrev pub candidates_1 : List CandidateRule
candidates_1 = candidate_of 1 "a" 5 30 ∷ candidate_of 2 "b" 9 40 ∷ []

abbrev pub content_1 : RuleContent
content_1 = record { priority = pos 3; condition = always; effect = raise_to 25 }
