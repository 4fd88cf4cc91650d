-- ===== src/Examples/Authors.antt =====
-- Rules that are authored for a small tenant.
use license_srv.Prelude.{ℕ, refl, Option, some, [], ◌∷◌, arith, count_by}
use license_srv.Policy.Rules.{
  RuleStatus, Rules, is_of, is_version, is_live_of, is_live, is_live_status, or_preview,
}
use license_srv.Policy.Evaluation.{EntitlementBoundRow}
use license_srv.Policy.Routes.{create_rule, edit_rule}
use license_srv.Policy.Transition.{transition_status}
use license_srv.Policy.OneLive.{RulesOk}
use license_srv.Policy.LifeCycle.{Keeps, IsRefusal, transition_status-Keeps}
use license_srv.Policy.Immutable.{Adds, edit_rule-Adds}
use license_srv.Policy.Caps.{LeavesWithin, create_rule-Within}
use license_srv.Examples.Rules.{rule_of, host_1, config_1, content_1, seats_row}

-- A rule with a superseded version and one in force.
abbrev rules_a : Rules
rules_a = rule_of 1 "a" 1 5 RuleStatus.disabled 20 ∷ rule_of 2 "a" 2 5 RuleStatus.active 30 ∷ []

rules_a-RulesOk : RulesOk rules_a
unfolding count_by is_version is_live_of is_of is_live is_live_status
rules_a-RulesOk = ((λ key version. ground arith), (λ key. ground arith))

transition_status-Keeps_example :
    Keeps (IsRefusal RuleStatus.preview) (transition_status "a" RuleStatus.preview 9 rules_a)
transition_status-Keeps_example =
    transition_status-Keeps "a" RuleStatus.preview 9 rules_a rules_a-RulesOk

abbrev read_row : ℕ → Option EntitlementBoundRow
read_row id = some seats_row

edit_rule-Adds_example :
    Adds "a" rules_a (edit_rule host_1 config_1 content_1 "a" read_row 3 1 9 rules_a)
edit_rule-Adds_example = edit_rule-Adds host_1 config_1 content_1 "a" read_row 3 1 9 rules_a

create_rule-Within_example : LeavesWithin config_1 1 (
    create_rule host_1 config_1
      (some seats_row)
      content_1
      (some RuleStatus.active)
      "c"
      3
      1
      9
      rules_a)
unfolding is_live_status or_preview
create_rule-Within_example =
    create_rule-Within host_1 config_1 content_1 seats_row (some RuleStatus.active) "c" 3 1 9
      rules_a refl
