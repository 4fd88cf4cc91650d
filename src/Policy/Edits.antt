-- ===== src/Policy/Edits.antt =====
-- `POST /admin/policy/rules` and `PATCH /admin/policy/rules/:ruleKey` (src/server/modules/policy/routes.ts)
-- on a table of rules.
use Prim.Native.String.{String}
use license_srv.Prelude.{
  ℕ, ◌≡◌, refl, Bool, true, false, ◌&&◌, Option, none, some, [], ◌∷◌, any_by, count_by, arith,
}
use license_srv.Policy.Outcome.{Outcome, done, failed, ◌>>=◌}
use license_srv.Js.{Value}
use license_srv.Policy.Validate.{PolicyCode}
use license_srv.Policy.Authoring.{validate_rule}
use license_srv.Policy.Rules.{
  RuleStatus, PolicyRuleRow, Rules, is_of, is_version, is_live_of, is_object, has_kind, row_of,
  insert_version, is_live_status, or_preview,
}
use license_srv.Policy.Decide.{Host}
use license_srv.Policy.Evaluation.{PolicyConfig, EntitlementBoundRow, bounds_of}
use license_srv.Policy.Routes.{
  RouteError, not_found, policy, invalid_state_transition, database, of_policy, of_database,
  RuleContent, Authored, content_row, lint_limits, validate_content, check_caps, live_rule_lint,
  create_rule,
}
use license_srv.Policy.OneLive.{RulesOk}
use license_srv.Policy.LifeCycle.{Keeps}
use license_srv.Policy.History.{insert_version-Keeps, validate_rule_shapes}

-- The refusals of an author's request: no such rule or entitlement, or a check of the content.
abbrev pub IsAuthorRefusal : RouteError → Type 0
IsAuthorRefusal not_found = Unit
IsAuthorRefusal (policy e) = Unit
IsAuthorRefusal (invalid_state_transition from to) = ⊥
IsAuthorRefusal (database c) = ⊥

-- A table in order, with no live row of the rule.
abbrev Vacant : String → Rules → Type 0
Vacant key rules = RulesOk rules × (count_by (is_live_of key) rules ≡ 0)

and_none : (a b : Bool) → b ≡ false → (a && b) ≡ false
and_none a b h = ground arith

-- What follows the checks of a rule's content, which either fail or accept its shapes.
after_checks :
    (condition effect : Value) (m : Outcome PolicyCode Unit) (f : Unit → Authored)
    → (m ≡ done tt → (is_object condition ≡ true) × (has_kind effect ≡ true))
    → ((is_object condition ≡ true) → (has_kind effect ≡ true) → Keeps IsAuthorRefusal (f tt))
    → Keeps IsAuthorRefusal (of_policy m >>= f)
unfolding of_policy
after_checks condition effect (done tt) f shapes k = let (c, e) = shapes refl in k c e
after_checks condition effect (failed code) f shapes k = tt

new_status : (b : Bool) → (a : Bool) → a ≡ false → (b && a) ≡ false
new_status b a h = ground arith

-- No version 1 of a rule, and no live row of it.
abbrev HasRoomFor : String → Rules → Type 0
HasRoomFor key rules =
    (any_by (is_version key 1) rules ≡ false) × (any_by (is_live_of key) rules ≡ false)

module _ (host : Host) (config : PolicyConfig) (content : RuleContent) where
  no_rows : (key : String) (rules : Rules) → any_by (is_of key) rules ≡ false → HasRoomFor key rules
  unfolding any_by is_version is_live_of
  no_rows key [] h = (refl, refl)
  no_rows key (r ∷ rs) h =
      let (v, l) = no_rows key rs (ground arith) in (ground arith, ground arith)

  after_caps :
      (m : Outcome PolicyCode Unit) (f : Unit → Authored)
      → Keeps IsAuthorRefusal (f tt)
      → Keeps IsAuthorRefusal (of_policy m >>= f)
  unfolding of_policy
  after_caps (done tt) f k = k
  after_caps (failed e) f k = tt

  -- A new rule, with a key that no row has, leaves a table with one row for a version and one live
  -- row for a rule as such a table, or is refused with 404 or by a check of the author: it never
  -- meets a constraint of the database.
  pub create_rule-Keeps :
      (entitlement : Option EntitlementBoundRow) (status : Option RuleStatus) (key : String)
      (id author now : ℕ) (rules : Rules)
      → any_by (is_of key) rules ≡ false
      → RulesOk rules
      → Keeps IsAuthorRefusal
          (create_rule host config entitlement content status key id author now rules)
  unfolding create_rule validate_content content_row row_of
  create_rule-Keeps none status key id author now rules fresh ok = tt
  create_rule-Keeps (some row) status key id author now rules fresh ok =
      let (v, l) = no_rows key rules fresh in
      let fits = check_caps host config (is_live_status (or_preview status)) row.id rules in
      let input = content_row content key 1 row.id author (or_preview status) in
      after_checks content.condition content.effect
        (validate_rule (lint_limits config) config.condition_max_bytes host.runtime.serialized_bytes
          content.condition content.effect (bounds_of config row))
        (λ (u : Unit). of_policy fits >>= (λ (u : Unit).
          of_database (insert_version id now input rules) >>= (λ (r : PolicyRuleRow × Rules).
            done ((r.0, live_rule_lint host config content none row.id rules), r.1))))
        (validate_rule_shapes (lint_limits config) config.condition_max_bytes
          host.runtime.serialized_bytes content.condition content.effect (bounds_of config row))
        (λ c f. after_caps fits _ (
          insert_version-Keeps IsAuthorRefusal id now input rules
            (live_rule_lint host config content none row.id rules) ok refl c f (v, and_none _ _ l)))
