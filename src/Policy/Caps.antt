-- ===== src/Policy/Caps.antt =====
-- The size of a rule set, where a rule is created (src/server/modules/policy/routes.ts, validate.ts).
use Prim.Native.String.{String}
use license_srv.Prelude.{
  ℕ, suc, ◌≤◌, ◌≡◌, refl, Bool, true, false, Option, none, some, List, ◌∷◌, count_by, arith,
}
use license_srv.Policy.Outcome.{Outcome, done, failed, ◌>>=◌}
use license_srv.Policy.Validate.{PolicyCode}
use license_srv.Policy.Authoring.{
  RuleLintWarning, assert_rule_set_within_caps, RuleSetLiveCounts, RuleSetCaps,
}
use license_srv.Policy.Rules.{
  RuleStatus, PolicyRuleRow, Rules, RuleConstraint, is_live_status, row_of, insert_row,
  insert_version, or_preview,
}
use license_srv.Policy.Selects.{count_live_rules_for_entitlement, count_live_rules_for_tenant}
use license_srv.Policy.Decide.{Host}
use license_srv.Policy.Evaluation.{PolicyConfig, EntitlementBoundRow}
use license_srv.Policy.Routes.{
  RouteError, of_policy, of_database, RuleContent, Authored, content_row, validate_content,
  live_rule_lint, check_caps, create_rule,
}

-- The live rules of an entitlement and of the tenant, within what is configured.
abbrev pub WithinCaps : PolicyConfig → (entitlement_id : ℕ) → Rules → Type 0
WithinCaps config entitlement_id rules =
    (count_live_rules_for_entitlement entitlement_id rules ≤ config.max_rules_per_entitlement)
    × (count_live_rules_for_tenant rules ≤ config.max_rules_per_tenant)

abbrev pub LeavesWithin : PolicyConfig → (entitlement_id : ℕ) → Authored → Type 0
LeavesWithin config entitlement_id (done (r, after)) = WithinCaps config entitlement_id after
LeavesWithin config entitlement_id (failed e) = Unit

assert_within :
    (counts : RuleSetLiveCounts) (caps : RuleSetCaps)
    → assert_rule_set_within_caps counts caps ≡ done tt
    → (suc counts.entitlement_live ≤ caps.max_rules_per_entitlement)
      × (suc counts.tenant_live ≤ caps.max_rules_per_tenant)
unfolding assert_rule_set_within_caps
assert_within counts caps h = (ground arith, ground arith)

counted :
    (row : PolicyRuleRow) (rules : Rules) (entitlement_id : ℕ)
    → (count_live_rules_for_entitlement entitlement_id (row ∷ rules)
        ≤ suc (count_live_rules_for_entitlement entitlement_id rules))
      × (count_live_rules_for_tenant (row ∷ rules) ≤ suc (count_live_rules_for_tenant rules))
unfolding count_live_rules_for_entitlement count_live_rules_for_tenant count_by
counted row rules id = (ground arith, ground arith)

insert-Within :
    (config : PolicyConfig) (entitlement_id : ℕ) (row : PolicyRuleRow) (rules : Rules)
    (c : Option RuleConstraint) (ws : List RuleLintWarning)
    → (suc (count_live_rules_for_entitlement entitlement_id rules)
        ≤ config.max_rules_per_entitlement)
    → (suc (count_live_rules_for_tenant rules) ≤ config.max_rules_per_tenant)
    → LeavesWithin config entitlement_id (
        of_database (insert_row row rules c)
        >>= (λ (r : PolicyRuleRow × Rules). done ((r.0, ws), r.1)))
unfolding insert_row of_database
insert-Within config id row rules (some c) ws e t = tt
insert-Within config id row rules none ws e t =
    let (a, b) = counted row rules id in (omega arith, omega arith)

module _ (host : Host) (config : PolicyConfig) (content : RuleContent) where
  skip_check :
      (id : ℕ) (m : Outcome RouteError Unit) (f : Unit → Authored)
      → LeavesWithin config id (f tt)
      → LeavesWithin config id (m >>= f)
  skip_check id (done tt) f h = h
  skip_check id (failed e) f h = tt

  use_caps :
      (id : ℕ) (m : Outcome PolicyCode Unit) (f : Unit → Authored)
      → (m ≡ done tt → LeavesWithin config id (f tt))
      → LeavesWithin config id (of_policy m >>= f)
  unfolding of_policy
  use_caps id (done tt) f h = h refl
  use_caps id (failed e) f h = tt

  create_live-Within :
      (row : EntitlementBoundRow) (status : RuleStatus) (live : Bool) (key : String)
      (id author now : ℕ) (rules : Rules)
      → live ≡ true
      → LeavesWithin config row.id (
          of_policy (check_caps host config live row.id rules) >>= (λ (fits : Unit).
            of_database
              (insert_version id now (content_row content key 1 row.id author status) rules)
            >>= (λ (r : PolicyRuleRow × Rules).
                done ((r.0, live_rule_lint host config content none row.id rules), r.1))))
  unfolding check_caps insert_version
  create_live-Within row status false key id author now rules live = cc
  create_live-Within row status true key id author now rules live =
      use_caps row.id
        (assert_rule_set_within_caps
          (record {
            entitlement_live = count_live_rules_for_entitlement row.id rules;
            tenant_live = count_live_rules_for_tenant rules;
          })
          (record {
            max_rules_per_entitlement = config.max_rules_per_entitlement;
            max_rules_per_tenant = config.max_rules_per_tenant;
          }))
        _
        (λ h.
          let (a, b) = assert_within _ _ h in
          insert-Within config row.id
            (row_of id now (content_row content key 1 row.id author status)) rules _
            (live_rule_lint host config content none row.id rules) a b)

  -- A live rule that is created leaves the live rules of its entitlement, and those of the tenant,
  -- within the configured sizes.
  pub create_rule-Within :
      (row : EntitlementBoundRow) (status : Option RuleStatus) (key : String) (id author now : ℕ)
      (rules : Rules)
      → is_live_status (or_preview status) ≡ true
      → LeavesWithin config row.id
          (create_rule host config (some row) content status key id author now rules)
  unfolding create_rule
  create_rule-Within row status key id author now rules live =
      skip_check row.id (validate_content host config content row) _ (
        create_live-Within row (or_preview status) (is_live_status (or_preview status)) key id
          author now rules live)
