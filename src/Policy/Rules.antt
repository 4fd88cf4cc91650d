-- ===== src/Policy/Rules.antt =====
-- src/server/modules/policy/rule-repo.ts: the table of one tenant's rules. The constraints are those
-- of migrations/0013_policy_rules.sql; a fresh id and the time are parameters.
use Prim.Native.String.{String}
use text.Mathlib.Text.{◌==◌ as str_eq}
use license_srv.Prelude.{
  ℕ, suc, max, Bool, true, false, not, ◌&&◌, Option, none, some, List, [], ◌∷◌, if◌then◌else◌, ◌==◌,
  ltb, ℤ, find, any_by, update_where,
}
use license_srv.Js.{Value, object, own_field}
use license_srv.Policy.Outcome.{Outcome, done, failed}
use license_srv.Policy.Resolve.{kind_in}

pub data RuleStatus : Type 0 where
  active preview disabled : RuleStatus

pub record PolicyRuleRow : Type 0 where
  pub id : ℕ
  pub rule_key : String
  pub version : ℕ
  pub entitlement_id : ℕ
  pub plan_id : Option ℕ
  pub condition : Value
  pub effect : Value
  pub priority : ℤ
  pub status : RuleStatus
  pub author : ℕ
  pub created_at : ℕ
  pub updated_at : ℕ

pub record InsertRuleInput : Type 0 where
  pub rule_key : String
  pub version : ℕ
  pub entitlement_id : ℕ
  pub plan_id : Option ℕ
  pub condition : Value
  pub effect : Value
  pub priority : Option ℤ
  pub status : Option RuleStatus
  pub author : ℕ

-- A constraint that a statement violates.
pub data RuleConstraint : Type 0 where
  version_check condition_object effect_kind version_uniq one_live : RuleConstraint

abbrev pub Rules : Type 0
Rules = List PolicyRuleRow

-- What a statement returns, with the table after it.
abbrev pub Statement : Type 0 → Type 0
Statement A = Outcome RuleConstraint (A × Rules)

-- `status IN ('active','preview')`.
unfoldable pub is_live_status : RuleStatus → Bool
is_live_status active = true
is_live_status preview = true
is_live_status disabled = false

unfoldable pub same_status : RuleStatus → RuleStatus → Bool
same_status active active = true
same_status preview preview = true
same_status disabled disabled = true
same_status _ _ = false

unfoldable pub is_live : PolicyRuleRow → Bool
unfolding is_live_status
is_live r = is_live_status r.status

unfoldable pub is_of : String → PolicyRuleRow → Bool
is_of key r = str_eq r.rule_key key

unfoldable pub is_version : String → ℕ → PolicyRuleRow → Bool
unfolding is_of
is_version key version r = is_of key r && (r.version == version)

unfoldable pub is_live_of : String → PolicyRuleRow → Bool
unfolding is_of is_live
is_live_of key r = is_of key r && is_live r

-- The constraint that a new row violates, the first of those that apply.
unfoldable pub violation :
    (old_version is_condition is_effect is_duplicate is_second_live : Bool) → Option RuleConstraint
violation true c e d l = some version_check
violation false false e d l = some condition_object
violation false true false d l = some effect_kind
violation false true true true l = some version_uniq
violation false true true false true = some one_live
violation false true true false false = none

unfoldable pub is_object : Value → Bool
is_object (object fields) = true
is_object _ = false

unfoldable pub has_kind : Value → Bool
unfolding kind_in own_field
has_kind (object fields) = elim (kind_in (own_field fields "kind")) [ none ↦ false | some k ↦ true ]
has_kind _ = false

unfoldable pub violates : PolicyRuleRow → Rules → Option RuleConstraint
unfolding violation is_object has_kind any_by is_version is_live_of is_live
violates row rules =
    violation (ltb row.version 1) (is_object row.condition) (has_kind row.effect)
      (any_by (is_version row.rule_key row.version) rules)
      (is_live row && any_by (is_live_of row.rule_key) rules)

unfoldable pub or_zero : Option ℤ → ℤ
or_zero none = ℤ.pos 0
or_zero (some n) = n

unfoldable pub or_preview : Option RuleStatus → RuleStatus
or_preview none = preview
or_preview (some s) = s

unfoldable pub row_of : (id now : ℕ) → InsertRuleInput → PolicyRuleRow
unfolding or_zero or_preview
row_of id now input = record {
  id = id;
  rule_key = input.rule_key;
  version = input.version;
  entitlement_id = input.entitlement_id;
  plan_id = input.plan_id;
  condition = input.condition;
  effect = input.effect;
  priority = or_zero input.priority;
  status = or_preview input.status;
  author = input.author;
  created_at = now;
  updated_at = now;
}

unfoldable pub insert_row : PolicyRuleRow → Rules → Option RuleConstraint → Statement PolicyRuleRow
insert_row row rules (some c) = failed c
insert_row row rules none = done (row, row ∷ rules)

unfoldable pub insert_version : (id now : ℕ) → InsertRuleInput → Rules → Statement PolicyRuleRow
unfolding insert_row row_of violates
insert_version id now input rules =
    insert_row (row_of id now input) rules (violates (row_of id now input) rules)

-- `COALESCE(MAX(version), 0)`.
unfoldable pub max_version : String → Rules → ℕ
unfolding is_of
max_version key [] = 0
max_version key (r ∷ rs) =
    let rest = max_version key rs in if is_of key r then max r.version rest else rest

unfoldable pub next_version : String → Rules → ℕ
unfolding max_version
next_version key rules = suc (max_version key rules)

unfoldable pub with_status : RuleStatus → (now : ℕ) → PolicyRuleRow → PolicyRuleRow
with_status status now r = record {
  id = r.id;
  rule_key = r.rule_key;
  version = r.version;
  entitlement_id = r.entitlement_id;
  plan_id = r.plan_id;
  condition = r.condition;
  effect = r.effect;
  priority = r.priority;
  status = status;
  author = r.author;
  created_at = r.created_at;
  updated_at = now;
}

-- A live row of the rule that is another version.
unfoldable pub is_other_live : String → ℕ → PolicyRuleRow → Bool
unfolding is_live_of
is_other_live key version r = is_live_of key r && not (r.version == version)

unfoldable pub set_status :
    (second_live : Bool)
    → (found : Option PolicyRuleRow) → (key : String) → (version : ℕ) → RuleStatus
    → (now : ℕ) → Rules
    → Statement (Option PolicyRuleRow)
unfolding with_status update_where is_version
set_status second_live none key version status now rules = done (none, rules)
set_status true (some r) key version status now rules = failed one_live
set_status false (some r) key version status now rules = done (
  some (with_status status now r),
  update_where (is_version key version) (with_status status now) rules,
)

unfoldable pub update_status :
    String → (version : ℕ) → RuleStatus → (now : ℕ) → Rules → Statement (Option PolicyRuleRow)
unfolding set_status is_live_status any_by is_other_live find is_version
update_status key version status now rules =
    set_status (is_live_status status && any_by (is_other_live key version) rules)
      (find (is_version key version) rules) key version status now rules
