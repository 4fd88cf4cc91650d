-- ===== src/Policy/Authoring.antt =====
-- src/server/modules/policy/validate.ts: the checks of an effect and of the size of a rule set, and
-- the warnings on rules that overlap.
use Prim.Native.String.{String}
use text.Mathlib.Text.{◌==◌ as str_eq}
use license_srv.Prelude.{
  ℕ, suc, Bool, true, false, not, ◌&&◌, ◌||◌, Option, none, some, List, [], ◌∷◌, if◌then◌else◌, leb,
  ℤ, pos, leb_ℤ,
}
use license_srv.Js.{
  Number, finite, Value, number, string, array, object, Items, nil, cons, Fields, end, field,
  own_field,
}
use license_srv.Policy.Outcome.{Outcome, done, failed, ◌>>=◌}
use license_srv.Policy.Condition.{Runtime, EvaluateConditionOptions}
use license_srv.Policy.Evaluator.{evaluate_condition}
use license_srv.Policy.Effect.{
  EffectKind, select_tier, EntitlementBounds, ApplyEffectResult, applied, refused, apply_kind,
}
use license_srv.Policy.Resolve.{kind_in, or_undefined, did_match}
use license_srv.Policy.Validate.{
  PolicyCode, effect_out_of_bounds, rule_set_limit_exceeded, LintLimits, validate_condition,
}

-- A target that is a text, and not empty.
unfoldable pub is_target : Option Value → Bool
is_target (some (string target)) = not (str_eq target "")
is_target _ = false

unfoldable pub is_finite_value : Value → Bool
is_finite_value (number (finite n)) = true
is_finite_value _ = false

unfoldable pub all_finite : Items → Bool
unfolding is_finite_value
all_finite nil = true
all_finite (cons t ts) = is_finite_value t && all_finite ts

unfoldable pub are_tiers : Option Items → Bool
unfolding all_finite
are_tiers none = true
are_tiers (some tiers) = all_finite tiers

-- What a tier must be, before the applier looks at it.
unfoldable pub is_numeric : EffectKind → Value → EntitlementBounds → Bool
unfolding is_finite_value are_tiers
is_numeric select_tier value bounds = is_finite_value value && are_tiers bounds.rule_tiers
is_numeric _ value bounds = true

abbrev out_of_bounds : Outcome PolicyCode Unit
out_of_bounds = failed effect_out_of_bounds

-- An effect that the applier would refuse, or reduce, is refused.
unfoldable pub accept : ApplyEffectResult → Outcome PolicyCode Unit
accept (applied value false) = done tt
accept (applied value true) = out_of_bounds
accept (refused reason) = out_of_bounds

unfoldable pub accept_if : (is_valid : Bool) → ApplyEffectResult → Outcome PolicyCode Unit
unfolding accept
accept_if true result = accept result
accept_if false result = out_of_bounds

unfoldable pub validate_kind :
    Option EffectKind
    → (target : Option Value) → Value
    → EntitlementBounds
    → Outcome PolicyCode Unit
unfolding accept_if is_target is_numeric apply_kind
validate_kind none target value bounds = out_of_bounds
validate_kind (some kind) target value bounds =
    accept_if (is_target target && is_numeric kind value bounds)
      (apply_kind (some kind) value bounds)

unfoldable pub validate_effect : Value → EntitlementBounds → Outcome PolicyCode Unit
unfolding validate_kind kind_in own_field or_undefined
validate_effect (object fields) bounds =
    validate_kind (kind_in (own_field fields "kind")) (own_field fields "target")
      (or_undefined (own_field fields "value")) bounds
validate_effect _ bounds = out_of_bounds

unfoldable pub validate_rule :
    LintLimits
    → (max_bytes : ℕ) → (serialized_bytes : Value → ℕ) → (condition effect : Value)
    → EntitlementBounds
    → Outcome PolicyCode Unit
unfolding validate_condition validate_effect
validate_rule limits max_bytes serialized_bytes condition effect bounds =
    validate_condition limits max_bytes serialized_bytes condition
    >>= (λ (n : ℕ). validate_effect effect bounds)

pub record RuleSetLiveCounts : Type 0 where
  pub entitlement_live : ℕ
  pub tenant_live : ℕ

pub record RuleSetCaps : Type 0 where
  pub max_rules_per_entitlement : ℕ
  pub max_rules_per_tenant : ℕ

unfoldable pub assert_rule_set_within_caps :
    RuleSetLiveCounts → RuleSetCaps → Outcome PolicyCode Unit
assert_rule_set_within_caps counts caps =
    if leb caps.max_rules_per_entitlement counts.entitlement_live
    then failed (
        rule_set_limit_exceeded caps.max_rules_per_entitlement (suc counts.entitlement_live)
          "entitlement")
    else if leb caps.max_rules_per_tenant counts.tenant_live
    then failed
        (rule_set_limit_exceeded caps.max_rules_per_tenant (suc counts.tenant_live) "tenant")
    else done tt

-- The one property that makes an object a read of the context.
unfoldable pub reads_context : Fields → Bool
reads_context (field op arg end) = str_eq "var" op || str_eq "has" op
reads_context _ = false

unfoldable mutual
  unfolding reads_context

  pub references_context : Value → Bool
  references_context (array xs) = any_references xs
  references_context (object fields) = reads_context fields || fields_reference fields
  references_context _ = false

  pub any_references : Items → Bool
  any_references nil = false
  any_references (cons v rest) = references_context v || any_references rest

  pub fields_reference : Fields → Bool
  fields_reference end = false
  fields_reference (field k v rest) = references_context v || fields_reference rest

-- The defaults of `evaluateCondition`, with a given `now`, no watchdog and no limit of size.
abbrev pub default_options : Number → EvaluateConditionOptions
default_options now = record {
  max_bytes = none;
  max_depth = 64;
  max_complexity = 10000;
  now = some now;
  is_late = λ n. false;
}

unfoldable pub is_unconditional : Runtime → Value → Bool
unfolding references_context did_match evaluate_condition
is_unconditional rt condition =
    if references_context condition
    then false
    else did_match (evaluate_condition rt (default_options (finite (pos 0))) condition end)

pub data RuleLintCode : Type 0 where
  unreachable_rule overlapping_rule : RuleLintCode

pub record RuleLintWarning : Type 0 where
  pub code : RuleLintCode
  pub rule_key : String
  pub version : ℕ
  pub priority : ℤ

pub record LiveRuleForLint : Type 0 where
  pub rule_key : String
  pub version : ℕ
  pub priority : ℤ
  pub condition : Value

pub record LintRuleInput : Type 0 where
  pub priority : ℤ
  pub condition : Value
  pub rule_key : Option String

unfoldable pub is_same_rule : Option String → String → Bool
is_same_rule none key = false
is_same_rule (some own) key = str_eq key own

unfoldable pub warn : RuleLintCode → LiveRuleForLint → RuleLintWarning
warn code peer = record {
  code = code;
  rule_key = peer.rule_key;
  version = peer.version;
  priority = peer.priority;
}

unfoldable pub lint_rule_conflicts :
    Runtime → LintRuleInput → List LiveRuleForLint → List RuleLintWarning
unfolding is_same_rule is_unconditional warn
lint_rule_conflicts rt input [] = []
lint_rule_conflicts rt input (peer ∷ peers) =
    let rest = lint_rule_conflicts rt input peers in
    if is_same_rule input.rule_key peer.rule_key
    then rest
    else if not (leb_ℤ peer.priority input.priority) && is_unconditional rt peer.condition
    then warn unreachable_rule peer ∷ rest
    else if leb_ℤ peer.priority input.priority && leb_ℤ input.priority peer.priority
    then warn overlapping_rule peer ∷ rest
    else rest
