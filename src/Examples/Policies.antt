-- ===== src/Examples/Policies.antt =====
-- What the rules of a small tenant decide.
use license_srv.Prelude.{
  some, ◌≤◌, ◌+◌, ◌≡◌, refl, inl, inr, false, none, [], ◌∷◌, pos, arith, All, any_by, count_by,
  length, ◌⊎◌,
}
use license_srv.Js.{finite, Fields, end, field, own_field, string, eq_ℤ, num_eq, truthy}
use license_srv.Policy.Condition.{operator_in, run_all}
use license_srv.Policy.Values.{apply_value_op, arg_at, strict_eq}
use license_srv.Policy.Evaluator
use license_srv.Policy.Evaluator.{
  evaluate_condition, size_error, evaluate_sized, with_now, compile, compile_items, single,
  array_of, literal, operator_node, apply_below, apply_op,
}
use license_srv.Policy.Effect.{
  amount, kind_of, apply_kind, adjust, resolve_ceiling, ceiling_of, finite_part, finite_value,
  clamp,
}
use license_srv.Policy.Validate
use license_srv.Policy.Validate.{
  validate_condition, validate_sized, lint_node, lint_items, lint_single, lint_array_node,
  lint_array, lint_operator, lint_below, lint_op, lint_all, lint_literal, lint_var,
}
use license_srv.Policy.Checked.{Answers, validate_condition-Answers}
use license_srv.Policy.Compiled.{has_operands, all_have_operands, is_idle}
use license_srv.Policy.Resolve.{
  EntitlementDecisionResult, CandidateRule, kind_in, or_undefined, is_match,
  resolve_entitlement_decision, did_match,
}
use license_srv.Policy.Winner.{
  unmatched, Wins, Settles, fired_count, resolve-Settles, resolve_accounts,
}
use license_srv.Policy.Bounded.{InBounds}
use license_srv.Policy.Enforced.{Enforces, resolve-InBounds, resolve-Enforces}
use license_srv.Policy.Authoring.{
  validate_effect, validate_kind, accept_if, accept, is_target, is_numeric, LiveRuleForLint,
  lint_rule_conflicts, is_same_rule, is_unconditional, references_context, any_references,
  fields_reference, reads_context, warn,
}
use license_srv.Policy.Context.{DecisionContextSources, BuildContextOptions}
use license_srv.Policy.Rules.{is_live, is_live_status}
use license_srv.Policy.Selects.{is_live_target, is_target_of, count_live_rules_for_entitlement}
use license_srv.Policy.Decide.{evaluate_policy}
use license_srv.Policy.Decisions.{IsSafe, evaluate_policy-Safe}
use license_srv.Policy.Preview.{without_preview, evaluate_policy-without_preview}
use license_srv.Policy.Trail.{IsTrue, evaluate_policy-IsTrue}
use license_srv.Policy.Overlap.{IsNarrow, IsUnhindered, lint-Unreachable}
use license_srv.Policy.Routes.{lint_limits}
use license_srv.Examples.Rules.{
  runtime_1, always, config_1, options_1, candidates_1, candidate_of, bounds_1, host_1, rules_1,
  issue_input, seats_row,
}

validate_condition-Answers_example : Answers (evaluate_condition runtime_1 options_1 always end)
unfolding validate_condition validate_sized lint_node lint_items lint_single lint_array_node
    lint_array lint_operator lint_below lint_op lint_all lint_literal lint_var Validate.enter
    operator_in has_operands all_have_operands is_idle
validate_condition-Answers_example =
    validate_condition-Answers runtime_1 options_1 (lint_limits config_1) 8192 3 always end
      (omega arith) (omega arith) (omega arith) refl refl

abbrev resolved_1 : EntitlementDecisionResult
resolved_1 =
    resolve_entitlement_decision runtime_1 (λ id. options_1) end candidates_1 bounds_1
      (amount (pos 10))

resolve-Settles_example :
    ((All (λ c. is_match runtime_1 (λ id. options_1) end c ≡ false) candidates_1)
      × (resolved_1 ≡ unmatched (amount (pos 10))))
    ⊎ ((w : CandidateRule) × Wins runtime_1 (λ id. options_1) end w candidates_1
        × Settles runtime_1 (λ id. options_1) end w bounds_1 (amount (pos 10)) resolved_1)
resolve-Settles_example =
    resolve-Settles runtime_1 (λ id. options_1) end candidates_1 bounds_1 (amount (pos 10))

resolve_accounts_example :
    length resolved_1.considered_rules
      + fired_count runtime_1 (λ id. options_1) end resolved_1.fired_rule
    ≡ count_by (is_match runtime_1 (λ id. options_1) end) candidates_1
resolve_accounts_example =
    resolve_accounts runtime_1 (λ id. options_1) end candidates_1 bounds_1 (amount (pos 10))

resolve-InBounds_example :
    (resolved_1.decision ≡ amount (pos 10)) ⊎ InBounds bounds_1 resolved_1.decision
resolve-InBounds_example =
    resolve-InBounds runtime_1 (λ id. options_1) end candidates_1 bounds_1 (amount (pos 10))

resolve-Enforces_example :
    ((All (λ c. is_match runtime_1 (λ id. options_1) end c ≡ false) candidates_1)
      × (resolved_1 ≡ unmatched (amount (pos 10))))
    ⊎ ((w : CandidateRule) × Enforces runtime_1
          (λ id. options_1)
          end
          candidates_1
          bounds_1
          (amount (pos 10))
          w
          resolved_1)
unfolding validate_effect validate_kind accept_if accept is_target is_numeric kind_in kind_of
    own_field or_undefined apply_kind adjust resolve_ceiling ceiling_of finite_part finite_value
    clamp eq_ℤ
resolve-Enforces_example =
    resolve-Enforces runtime_1 (λ id. options_1) end candidates_1 bounds_1 (amount (pos 10))
      (refl, (refl, tt))

evaluate_policy-Safe_example :
    All
      (IsSafe host_1 config_1 issue_input (seats_row ∷ []) issue_input.entitlements)
      (evaluate_policy host_1 config_1 rules_1 issue_input (seats_row ∷ [])).decisions
evaluate_policy-Safe_example =
    evaluate_policy-Safe host_1 config_1 issue_input (seats_row ∷ []) rules_1

few_rules : count_live_rules_for_entitlement 1 rules_1 ≤ 101
unfolding count_live_rules_for_entitlement count_by is_live_target is_target_of is_live
    is_live_status
few_rules = omega arith

evaluate_policy-without_preview_example :
    (evaluate_policy host_1 config_1 rules_1 issue_input (seats_row ∷ [])).decisions
    ≡ (evaluate_policy host_1 config_1
        (without_preview rules_1)
        issue_input
        (seats_row ∷ [])).decisions
unfolding count_live_rules_for_entitlement count_by is_live_target is_target_of is_live
    is_live_status
evaluate_policy-without_preview_example =
    evaluate_policy-without_preview host_1 config_1 rules_1 issue_input
      ((λ a b h. refl), (λ a b c h k. refl)) (seats_row ∷ []) (few_rules, tt)

evaluate_policy-IsTrue_example :
    All
      (IsTrue host_1 config_1 rules_1 issue_input
        ((λ a b h. refl), (λ a b c h k. refl))
        (seats_row ∷ [])
        (few_rules, tt))
      (evaluate_policy host_1 config_1 rules_1 issue_input (seats_row ∷ [])).evaluations
evaluate_policy-IsTrue_example =
    evaluate_policy-IsTrue host_1 config_1 rules_1 issue_input
      ((λ a b h. refl), (λ a b c h k. refl)) (seats_row ∷ []) (few_rules, tt)

abbrev peer_1 : LiveRuleForLint
peer_1 = record { rule_key = "b"; version = 1; priority = pos 9; condition = always }

candidates_1-IsUnhindered : All (IsUnhindered runtime_1 (λ id. options_1) end) candidates_1
unfolding any_by lint_rule_conflicts is_same_rule is_unconditional references_context any_references
    fields_reference reads_context warn did_match evaluate_condition size_error evaluate_sized
    with_now compile compile_items single array_of literal operator_node apply_below apply_op
    run_all apply_value_op arg_at strict_eq num_eq eq_ℤ truthy Evaluator.enter operator_in
candidates_1-IsUnhindered = ((λ s. s), ((λ s. s), tt))

options_1-IsNarrow : IsNarrow (finite (pos 1000)) options_1
options_1-IsNarrow = record { nodes = omega arith; depth = omega arith; at = refl }

lint-Unreachable_example :
    ¬ Wins runtime_1 (λ id. options_1) end (candidate_of 1 "a" 5 30) candidates_1
unfolding any_by lint_rule_conflicts is_same_rule is_unconditional references_context any_references
    fields_reference reads_context warn did_match evaluate_condition size_error evaluate_sized
    with_now compile compile_items single array_of literal operator_node apply_below apply_op
    run_all apply_value_op arg_at strict_eq num_eq eq_ℤ truthy Evaluator.enter operator_in
lint-Unreachable_example =
    lint-Unreachable runtime_1 (record { priority = pos 5; condition = always; rule_key = none })
      (peer_1 ∷ []) candidates_1 (candidate_of 1 "a" 5 30) (λ id. options_1) end (finite (pos 1000))
      refl ((candidate_of 2 "b" 9 40, inr (inl refl), refl, refl), tt) (λ id. options_1-IsNarrow)
      candidates_1-IsUnhindered refl

abbrev source_1 : Fields
source_1 = field "email" (string "a@b") (field "tier" (string "gold") end)

abbrev sources_1 : DecisionContextSources
sources_1 = record {
  decision_timestamp = finite (pos 1000);
  license = some source_1;
  plan = none;
  entitlement = none;
  usage = none;
}

abbrev context_opts : BuildContextOptions
context_opts = record { max_bytes = some 8192; max_depth = some 8; max_fields = some 64 }
