-- ===== src/Policy/Compiled.antt =====
-- The nodes of a condition, as src/server/modules/policy/validate.ts checks and condition.ts evaluates them.
use license_srv.Prelude.{
  ℕ, suc, ◌≤◌, ◌≡◌, refl, Bool, true, false, not, ◌&&◌, Option, none, some, List, arith, ltb,
}
use license_srv.Js.{
  Value, undefined, null, flag, number, string, array, object, Items, nil, cons, end, field,
}
use license_srv.Policy.Outcome.{Outcome, done, failed, >>=-eq-done}
use license_srv.Policy.Condition.{
  Runtime, Operator, var, has, both, either, choose, negation, truth, on_values, operator_of,
  operator_in, EvaluateConditionOptions, Eval, run_all,
}
use license_srv.Policy.Evaluator.{
  Node, literal, array_node, invalid_node, apply_below, operator_node, compile, compile_items,
  single, array_of,
}
use license_srv.Policy.Validate
use license_srv.Policy.Validate.{
  PolicyCode, Lint, lint_all, LintLimits, LintNode, lint_array, lint_literal, lint_invalid, lint_op,
  lint_below, lint_operator, lint_single, lint_array_node, lint_node, lint_items, validate_sized,
  validate_condition,
}
use license_srv.Policy.Follows.{bind-Within, Follows, FollowsAll, run_all-Within, lint_all_le}
use license_srv.Policy.Sound.{lint_enter_ok, enter-Within, not_over}
use license_srv.Policy.Applied.{HasOperand, apply_op-Within}

-- `{"!": []}` and `{"!!": []}`, which the evaluator gives one node more than the check.
unfoldable pub is_idle : Option Operator → Value → Bool
is_idle (some negation) (array nil) = true
is_idle (some truth) (array nil) = true
is_idle _ _ = false

-- No `!` or `!!` in the condition stands without an operand.
unfoldable mutual
  unfolding is_idle operator_in

  pub has_operands : Value → Bool
  has_operands (array xs) = all_have_operands xs
  has_operands (object (field op arg end)) = not (is_idle (operator_of op) arg) && has_operands arg
  has_operands _ = true

  pub all_have_operands : Items → Bool
  all_have_operands nil = true
  all_have_operands (cons v rest) = has_operands v && all_have_operands rest

and_both_ok : (a b : Bool) → (a && b) ≡ true → (a ≡ true) × (b ≡ true)
and_both_ok a b h = ground arith

module _ (rt : Runtime) (opts : EvaluateConditionOptions) (context : Value) where
  compile-HasOperand :
      (op : Operator) (arg : Value)
      → not (is_idle (some op) arg) ≡ true
      → HasOperand op (compile rt opts context arg).operands
  unfolding compile compile_items single array_of is_idle
  compile-HasOperand negation (array nil) h = cc
  compile-HasOperand negation (array (cons v rest)) h = tt
  compile-HasOperand negation undefined h = tt
  compile-HasOperand negation null h = tt
  compile-HasOperand negation (flag b) h = tt
  compile-HasOperand negation (number n) h = tt
  compile-HasOperand negation (string s) h = tt
  compile-HasOperand negation (object end) h = tt
  compile-HasOperand negation (object (field op arg end)) h = tt
  compile-HasOperand negation (object (field op arg (field k v rest))) h = tt
  compile-HasOperand truth (array nil) h = cc
  compile-HasOperand truth (array (cons v rest)) h = tt
  compile-HasOperand truth undefined h = tt
  compile-HasOperand truth null h = tt
  compile-HasOperand truth (flag b) h = tt
  compile-HasOperand truth (number n) h = tt
  compile-HasOperand truth (string s) h = tt
  compile-HasOperand truth (object end) h = tt
  compile-HasOperand truth (object (field op arg end)) h = tt
  compile-HasOperand truth (object (field op arg (field k v rest))) h = tt
  compile-HasOperand var arg h = tt
  compile-HasOperand has arg h = tt
  compile-HasOperand both arg h = tt
  compile-HasOperand either arg h = tt
  compile-HasOperand choose arg h = tt
  compile-HasOperand (on_values op) arg h = tt

lint_below_ok :
    (limits : LintLimits) (too_deep : Bool) (op : Operator) (arg : Value) (ls : List Lint)
    (depth ops n : ℕ)
    → lint_below limits too_deep op arg ls depth ops ≡ done n
    → (too_deep ≡ false) × (lint_op limits op arg ls depth ops ≡ done n)
unfolding lint_below
lint_below_ok limits true op arg ls depth ops n h = cc
lint_below_ok limits false op arg ls depth ops n h = (refl, h)

abbrev refuse : PolicyCode → Outcome PolicyCode ℕ
refuse code = failed code

-- What a node follows, and its operands theirs.
abbrev FollowsNode : Node → LintNode → Type 0
FollowsNode n l = Follows n.self l.self × FollowsAll n.operands l.operands

module _ (rt : Runtime) (opts : EvaluateConditionOptions) (limits : LintLimits) (context : Value)
    (deep : limits.max_depth ≤ opts.max_depth)
    (wide : limits.max_complexity ≤ opts.max_complexity) where
  literal-Follows : (v : Value) → Follows (literal rt opts v) (lint_literal limits)
  unfolding literal lint_literal
  literal-Follows v depth ops lops n le h =
      let (e, fits) = lint_enter_ok limits lops n h in
      (enter-Within rt opts ops n (λ (k : ℕ). done (v, k)) (omega arith) (omega arith), omega arith)

  array_node-Follows :
      (es : List Eval) (ls : List Lint)
      → FollowsAll es ls
      → Follows (array_node rt opts es) (lint_array limits ls)
  unfolding array_node lint_array
  array_node-Follows es ls f depth ops lops n le h =
      let (k, first, rest) =
        >>=-eq-done (Validate.enter limits lops) (λ (n : ℕ). lint_all ls depth n) h in
      let (e, fits) = lint_enter_ok limits lops k first in
      (
        enter-Within rt opts ops n _ (omega arith) (
            bind-Within n n (run_all es depth (suc ops)) _
              (run_all-Within es ls depth (suc ops) k n f (omega arith) rest) (λ r b. b)),
        omega (arith, lint_all_le es ls depth k n f rest),
      )

  invalid-Follows : Follows (invalid_node rt opts) (lint_invalid limits)
  unfolding lint_invalid
  invalid-Follows depth ops lops n le h =
      let (k, first, rest) =
        >>=-eq-done (Validate.enter limits lops) (λ (n : ℕ). refuse PolicyCode.invalid_condition)
          h in
      cc

  operator_node-Follows :
      (op : Option Operator) (arg : Value) (es : List Eval) (ls : List Lint)
      → FollowsAll es ls
      → ((o : Operator) → op ≡ some o → HasOperand o es)
      → Follows (operator_node rt opts context op arg es) (lint_operator limits op arg ls)
  unfolding operator_node apply_below lint_operator
  operator_node-Follows none arg es ls f has' depth ops lops n le h =
      let (k, first, rest) =
        >>=-eq-done (Validate.enter limits lops) (λ (n : ℕ). refuse PolicyCode.unsafe_operator) h in
      cc
  operator_node-Follows (some op) arg es ls f has' depth ops lops n le h =
      let (k, first, rest) =
        >>=-eq-done (Validate.enter limits lops)
          (λ (n : ℕ). lint_below limits (ltb limits.max_depth (suc depth)) op arg ls (suc depth) n)
          h in
      let (e, fits) = lint_enter_ok limits lops k first in
      let (shallow, last) =
        lint_below_ok limits (ltb limits.max_depth (suc depth)) op arg ls (suc depth) k n rest in
      let (w, grows) =
        apply_op-Within rt opts limits context op arg es ls (suc depth) (suc ops) k n f
          (has' op refl) (omega arith) last in
      (
        enter-Within rt opts ops n _ (omega arith)
            (rw (not_over depth opts.max_depth (ground arith)) w),
        omega arith,
      )

  single-FollowsNode : (e : Eval) (l : Lint) → Follows e l → FollowsNode (single e) (lint_single l)
  unfolding single lint_single
  single-FollowsNode e l f = (f, (f, tt))

  mutual
    unfolding compile lint_node has_operands array_of lint_array_node single lint_single

    pub compile-FollowsNode :
        (v : Value)
        → has_operands v ≡ true
        → FollowsNode (compile rt opts context v) (lint_node limits v)
    compile-FollowsNode undefined h = single-FollowsNode _ _ (literal-Follows undefined)
    compile-FollowsNode null h = single-FollowsNode _ _ (literal-Follows null)
    compile-FollowsNode (flag b) h = single-FollowsNode _ _ (literal-Follows (flag b))
    compile-FollowsNode (number n) h = single-FollowsNode _ _ (literal-Follows (number n))
    compile-FollowsNode (string s) h = single-FollowsNode _ _ (literal-Follows (string s))
    compile-FollowsNode (array xs) h =
        let f = compile_items-FollowsAll xs h in
        (array_node-Follows (compile_items rt opts context xs) (lint_items limits xs) f, f)
    compile-FollowsNode (object end) h = single-FollowsNode _ _ invalid-Follows
    compile-FollowsNode (object (field op arg end)) h =
        let (some_operand, below) =
          and_both_ok (not (is_idle (operator_of op) arg)) (has_operands arg) h in
        single-FollowsNode _ _ (
          operator_node-Follows (operator_of op) arg (compile rt opts context arg).operands
            (lint_node limits arg).operands (compile-FollowsNode arg below).1
            (λ o e. compile-HasOperand rt opts context o arg (rw e at some_operand)))
    compile-FollowsNode (object (field op arg (field k v rest))) h =
        single-FollowsNode _ _ invalid-Follows

    compile_items-FollowsAll :
        (xs : Items)
        → all_have_operands xs ≡ true
        → FollowsAll (compile_items rt opts context xs) (lint_items limits xs)
    compile_items-FollowsAll nil h = tt
    compile_items-FollowsAll (cons v rest) h =
        let (first, others) = and_both_ok (has_operands v) (all_have_operands rest) h in
        ((compile-FollowsNode v first).0, compile_items-FollowsAll rest others)
