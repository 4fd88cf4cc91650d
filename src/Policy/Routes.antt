-- ===== src/Policy/Routes.antt =====
-- src/server/modules/policy/routes.ts: authoring, editing and the life cycle of a rule. The schemas of
-- the requests, the session and the form of the answers are not modelled; a fresh key and id, the
-- time and the read of an entitlement are parameters.
use Prim.Native.String.{String}
use license_srv.Prelude.{
  ℕ, suc, Bool, true, false, Option, none, some, List, [], ◌∷◌, map, ℤ, any_by,
}
use license_srv.Js.{Value}
use license_srv.Policy.Outcome.{Outcome, done, failed, ◌>>=◌}
use license_srv.Policy.Validate.{PolicyCode, LintLimits, default_context_schema}
use license_srv.Policy.Authoring.{
  validate_rule, assert_rule_set_within_caps, LiveRuleForLint, RuleLintWarning, lint_rule_conflicts,
}
use license_srv.Policy.Rules.{
  RuleStatus, active, preview, disabled, PolicyRuleRow, Rules, RuleConstraint, InsertRuleInput,
  is_live_status, same_status, or_preview, insert_version, next_version, update_status,
}
use license_srv.Policy.Selects.{
  get_versions, get_live_version, count_live_rules_for_tenant, count_live_rules_for_entitlement,
  select_live_rules_for_entitlement,
}
use license_srv.Policy.Decide.{Host}
use license_srv.Policy.Evaluation.{PolicyConfig, EntitlementBoundRow, bounds_of}

pub data RouteError : Type 0 where
  not_found : RouteError
  policy : PolicyCode → RouteError
  invalid_state_transition : (from to : RuleStatus) → RouteError
  database : RuleConstraint → RouteError

unfoldable pub of_policy : {A : Type 0} → Outcome PolicyCode A → Outcome RouteError A
of_policy (done a) = done a
of_policy (failed e) = failed (policy e)

unfoldable pub of_database : {A : Type 0} → Outcome RuleConstraint A → Outcome RouteError A
of_database (done a) = done a
of_database (failed e) = failed (database e)

pub record RuleContent : Type 0 where
  pub priority : ℤ
  pub condition : Value
  pub effect : Value

-- A rule with its warnings, and the table after it.
abbrev pub Authored : Type 0
Authored = Outcome RouteError ((PolicyRuleRow × List RuleLintWarning) × Rules)

unfoldable pub for_lint : PolicyRuleRow → LiveRuleForLint
for_lint r = record {
  rule_key = r.rule_key;
  version = r.version;
  priority = r.priority;
  condition = r.condition;
}

abbrev pub lint_limits : PolicyConfig → LintLimits
lint_limits config = record {
  max_depth = config.condition_max_depth;
  max_complexity = config.condition_max_complexity;
  schema = default_context_schema;
}

-- `PERMITTED_TRANSITIONS`.
abbrev pub permitted_transitions : RuleStatus → List RuleStatus
permitted_transitions preview = active ∷ disabled ∷ []
permitted_transitions active = preview ∷ disabled ∷ []
permitted_transitions disabled = preview ∷ []

unfoldable pub is_permitted : (from to : RuleStatus) → Bool
unfolding any_by same_status
is_permitted from to = any_by (same_status to) (permitted_transitions from)

unfoldable pub content_row :
    RuleContent
    → (key : String) → (version entitlement_id author : ℕ) → RuleStatus
    → InsertRuleInput
content_row content key version entitlement_id author status = record {
  rule_key = key;
  version = version;
  entitlement_id = entitlement_id;
  plan_id = none;
  condition = content.condition;
  effect = content.effect;
  priority = some content.priority;
  status = some status;
  author = author;
}

-- The status of a new version: that of the live one, if there is one.
unfoldable pub next_status : Option PolicyRuleRow → RuleStatus
next_status none = disabled
next_status (some live) = live.status

unfoldable pub disable_row :
    (key : String) → Option PolicyRuleRow → (now : ℕ) → Rules → Outcome RuleConstraint Rules
unfolding update_status
disable_row key none now rules = done rules
disable_row key (some live) now rules =
    update_status key live.version disabled now rules
    >>= (λ (r : Option PolicyRuleRow × Rules). done r.1)

module _ (host : Host) (config : PolicyConfig) where
  unfoldable pub validate_content : RuleContent → EntitlementBoundRow → Outcome RouteError Unit
  unfolding of_policy validate_rule bounds_of
  validate_content content row = of_policy (
      validate_rule (lint_limits config) config.condition_max_bytes host.runtime.serialized_bytes
        content.condition content.effect (bounds_of config row))

  -- The size of the rule set, where the new rule is live.
  unfoldable pub check_caps :
      (is_live : Bool) → (entitlement_id : ℕ) → Rules → Outcome PolicyCode Unit
  unfolding assert_rule_set_within_caps count_live_rules_for_entitlement count_live_rules_for_tenant
  check_caps false entitlement_id rules = done tt
  check_caps true entitlement_id rules =
      assert_rule_set_within_caps
        (record {
          entitlement_live = count_live_rules_for_entitlement entitlement_id rules;
          tenant_live = count_live_rules_for_tenant rules;
        })
        (record {
          max_rules_per_entitlement = config.max_rules_per_entitlement;
          max_rules_per_tenant = config.max_rules_per_tenant;
        })

  unfoldable pub live_rule_lint :
      RuleContent → Option String → (entitlement_id : ℕ) → Rules → List RuleLintWarning
  unfolding lint_rule_conflicts select_live_rules_for_entitlement for_lint
  live_rule_lint content own entitlement_id rules =
      lint_rule_conflicts host.runtime
        (record { priority = content.priority; condition = content.condition; rule_key = own })
        (map for_lint (
          select_live_rules_for_entitlement host.collate entitlement_id
            (suc config.max_rules_per_issuance) rules))

  -- `POST /admin/policy/rules`.
  unfoldable pub create_rule :
      (entitlement : Option EntitlementBoundRow)
      → RuleContent
      → Option RuleStatus
      → (key : String) → (id author now : ℕ) → Rules
      → Authored
  unfolding validate_content of_policy check_caps is_live_status or_preview of_database
      insert_version content_row live_rule_lint
  create_rule none content status key id author now rules = failed not_found
  create_rule (some row) content status key id author now rules =
      validate_content content row >>= (λ (ok : Unit).
        of_policy (check_caps (is_live_status (or_preview status)) row.id rules)
        >>= (λ (fits : Unit).
            of_database (
              insert_version id now (content_row content key 1 row.id author (or_preview status))
                rules)
            >>= (λ (r : PolicyRuleRow × Rules).
                done ((r.0, live_rule_lint content none row.id rules), r.1))))

  -- The second transaction of an edit, with the live version that the first has read.
  unfoldable pub persist_edit :
      RuleContent
      → (key : String) → (entitlement_id : ℕ) → (live : Option PolicyRuleRow) → (id author now : ℕ)
      → Rules
      → Authored
  unfolding of_database disable_row insert_version content_row next_version next_status
      live_rule_lint
  persist_edit content key entitlement_id live id author now rules =
      of_database (disable_row key live now rules) >>= (λ (rest : Rules).
        of_database (
          insert_version id now
            (content_row content key (next_version key rest) entitlement_id author
              (next_status live))
            rest)
        >>= (λ (r : PolicyRuleRow × Rules).
            done ((r.0, live_rule_lint content (some key) entitlement_id rules), r.1)))

  unfoldable pub edit_for :
      RuleContent
      → (key : String) → (entitlement : Option EntitlementBoundRow) → (entitlement_id : ℕ)
      → (live : Option PolicyRuleRow) → (id author now : ℕ) → Rules
      → Authored
  unfolding validate_content persist_edit
  edit_for content key none entitlement_id live id author now rules = failed not_found
  edit_for content key (some row) entitlement_id live id author now rules =
      validate_content content row
      >>= (λ (ok : Unit). persist_edit content key entitlement_id live id author now rules)

  unfoldable pub edit_versions :
      RuleContent
      → (key : String) → (entitlement_read : ℕ → Option EntitlementBoundRow) → (versions : Rules)
      → (live : Option PolicyRuleRow) → (id author now : ℕ) → Rules
      → Authored
  unfolding edit_for
  edit_versions content key entitlement_read [] live id author now rules = failed not_found
  edit_versions content key entitlement_read (head ∷ older) live id author now rules =
      edit_for content key (entitlement_read head.entitlement_id) head.entitlement_id live id author
        now rules

  -- `PATCH /admin/policy/rules/:ruleKey`, where nothing is written between its two transactions.
  unfoldable pub edit_rule :
      RuleContent
      → (key : String) → (entitlement_read : ℕ → Option EntitlementBoundRow) → (id author now : ℕ)
      → Rules
      → Authored
  unfolding edit_versions get_versions get_live_version
  edit_rule content key entitlement_read id author now rules =
      edit_versions content key entitlement_read (get_versions key rules)
        (get_live_version key rules) id author now rules
