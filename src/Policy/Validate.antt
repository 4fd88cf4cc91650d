-- ===== src/Policy/Validate.antt =====
-- src/server/modules/policy/validate.ts: the checks of a rule when it is authored. The walk over
-- the condition is its own, over the same nodes as the evaluator's.
use Prim.Native.String.{String}
use text.Mathlib.Text.{◌==◌ as str_eq}
use license_srv.Prelude.{
  ℕ, suc, Bool, true, false, Option, none, some, List, [], ◌∷◌, if◌then◌else◌, ltb, any_by,
}
use license_srv.Js.{
  Value, undefined, null, flag, number, string, array, object, Items, nil, cons, end, field,
  split_path,
}
use license_srv.Policy.Outcome.{Outcome, done, failed, ◌>>=◌}
use license_srv.Policy.Condition.{
  Operator, var, has, operator_of, operator_in, is_forbidden, path_of, path_text, second,
}

-- The machine codes of a `PolicyError`.
pub data PolicyCode : Type 0 where
  invalid_condition unsafe_operator condition_too_large effect_out_of_bounds : PolicyCode
  type_error : PolicyCode
  rule_set_limit_exceeded : (limit actual : ℕ) → (scope : String) → PolicyCode

-- What may follow a root of the context: nothing, anything, or one of some fields. The lookup of a
-- root finds also what the schema's object inherits.
pub data RootSchema : Type 0 where
  leaf any inherited : RootSchema
  fields : List String → RootSchema

abbrev pub license_fields : List String
license_fields =
    "plan" ∷ "planId" ∷ "product" ∷ "productId" ∷ "status" ∷ "tier" ∷ "customerRef" ∷ "expiresAt"
    ∷ "seats" ∷ []

abbrev pub plan_fields : List String
plan_fields = "tier" ∷ "code" ∷ "interval" ∷ []

abbrev pub entitlement_fields : List String
entitlement_fields =
    "key" ∷ "type" ∷ "value" ∷ "baseValue" ∷ "ruleMax" ∷ "ruleEligible" ∷ "ruleTiers" ∷ []

abbrev pub ContextFieldSchema : Type 0
ContextFieldSchema = List (String × RootSchema)

abbrev pub default_context_schema : ContextFieldSchema
default_context_schema =
    ("now", leaf)
    ∷ ("license", fields license_fields)
    ∷ ("plan", fields plan_fields)
    ∷ ("entitlement", fields entitlement_fields)
    ∷ ("usage", any)
    ∷ []

-- The members of `Object.prototype` that are not forbidden segments.
abbrev pub inherited_names : List String
inherited_names =
    "toString" ∷ "toLocaleString" ∷ "valueOf" ∷ "hasOwnProperty" ∷ "isPrototypeOf"
    ∷ "propertyIsEnumerable" ∷ "__defineGetter__" ∷ "__defineSetter__" ∷ "__lookupGetter__"
    ∷ "__lookupSetter__" ∷ []

unfoldable pub root_schema : ContextFieldSchema → String → Option RootSchema
unfolding any_by
root_schema [] root = if any_by (λ n. str_eq n root) inherited_names then some inherited else none
root_schema (s ∷ ss) root =
    let rest = root_schema ss root in if str_eq s.0 root then some s.1 else rest

pub record LintLimits : Type 0 where
  pub max_depth : ℕ
  pub max_complexity : ℕ
  pub schema : ContextFieldSchema

-- The count of nodes after a node, from its depth and the count before it.
abbrev pub Lint : Type 0
Lint = (depth ops : ℕ) → Outcome PolicyCode ℕ

unfoldable pub is_field : List String → List String → Bool
is_field fs [] = false
is_field fs (second ∷ rest) = any_by (λ f. str_eq f second) fs

unfoldable pub lint_root :
    Option RootSchema → (after_root : List String) → (ops : ℕ) → Outcome PolicyCode ℕ
unfolding is_field any_by
lint_root none rest ops = failed invalid_condition
lint_root (some leaf) [] ops = done ops
lint_root (some leaf) (seg ∷ rest) ops = failed invalid_condition
lint_root (some any) rest ops = done ops
lint_root (some inherited) [] ops = failed invalid_condition
lint_root (some inherited) (seg ∷ rest) ops = failed type_error
lint_root (some (fields fs)) rest ops =
    if is_field fs rest then done ops else failed invalid_condition

unfoldable pub lint_allowed :
    ContextFieldSchema
    → (refused : Bool) → (root : String) → List String
    → (ops : ℕ) → Outcome PolicyCode ℕ
unfolding lint_root root_schema
lint_allowed schema true root rest ops = failed unsafe_operator
lint_allowed schema false root rest ops = lint_root (root_schema schema root) rest ops

unfoldable pub lint_segments : ContextFieldSchema → List String → (ops : ℕ) → Outcome PolicyCode ℕ
unfolding is_forbidden any_by lint_allowed
lint_segments schema [] ops = failed invalid_condition
lint_segments schema (root ∷ rest) ops =
    lint_allowed schema (any_by is_forbidden (root ∷ rest)) root rest ops

unfoldable pub lint_field_path :
    ContextFieldSchema → Option String → (ops : ℕ) → Outcome PolicyCode ℕ
unfolding lint_segments split_path
lint_field_path schema none ops = failed invalid_condition
lint_field_path schema (some path) ops = lint_segments schema (split_path path) ops

unfoldable pub lint_all : List Lint → Lint
lint_all [] depth ops = done ops
lint_all (l ∷ ls) depth ops = l depth ops >>= (λ (n : ℕ). lint_all ls depth n)

pub record LintNode : Type 0 where
  pub self : Lint
  pub operands : List Lint

unfoldable pub lint_single : Lint → LintNode
lint_single l = record { self = l; operands = l ∷ [] }

module _ (limits : LintLimits) where
  unfoldable pub enter : ℕ → Outcome PolicyCode ℕ
  enter ops =
      if ltb limits.max_complexity (suc ops) then failed condition_too_large else done (suc ops)

  unfoldable pub lint_array : List Lint → Lint
  unfolding enter lint_all
  lint_array ls depth ops = enter ops >>= (λ (n : ℕ). lint_all ls depth n)

  unfoldable pub lint_literal : Lint
  unfolding enter
  lint_literal depth ops = enter ops

  unfoldable pub lint_invalid : Lint
  unfolding enter
  lint_invalid depth ops = enter ops >>= (λ (n : ℕ). failed invalid_condition)

  unfoldable pub lint_var : Value → Option Lint → Lint
  unfolding lint_field_path path_text path_of
  lint_var arg none depth ops = lint_field_path limits.schema (path_text (path_of arg)) ops
  lint_var arg (some dflt) depth ops =
      dflt depth ops >>= (λ (n : ℕ). lint_field_path limits.schema (path_text (path_of arg)) n)

  unfoldable pub lint_op : Operator → Value → List Lint → Lint
  unfolding lint_var second lint_all
  lint_op var arg ls depth ops = lint_var arg (second ls) depth ops
  lint_op has arg ls depth ops = lint_var arg (second ls) depth ops
  lint_op _ arg ls depth ops = lint_all ls depth ops

  unfoldable pub lint_below : (too_deep : Bool) → Operator → Value → List Lint → Lint
  unfolding lint_op
  lint_below true op arg ls depth ops = failed condition_too_large
  lint_below false op arg ls depth ops = lint_op op arg ls depth ops

  unfoldable pub lint_operator : Option Operator → Value → List Lint → Lint
  unfolding enter lint_below
  lint_operator none arg ls depth ops = enter ops >>= (λ (n : ℕ). failed unsafe_operator)
  lint_operator (some op) arg ls depth ops =
      enter ops
      >>= (λ (n : ℕ). lint_below (ltb limits.max_depth (suc depth)) op arg ls (suc depth) n)

  unfoldable pub lint_array_node : List Lint → LintNode
  unfolding lint_array
  lint_array_node ls = record { self = lint_array ls; operands = ls }

  unfoldable mutual
    unfolding lint_single lint_array_node lint_literal lint_invalid lint_operator operator_in

    pub lint_node : Value → LintNode
    lint_node undefined = lint_single lint_literal
    lint_node null = lint_single lint_literal
    lint_node (flag b) = lint_single lint_literal
    lint_node (number n) = lint_single lint_literal
    lint_node (string s) = lint_single lint_literal
    lint_node (array xs) = lint_array_node (lint_items xs)
    lint_node (object end) = lint_single lint_invalid
    lint_node (object (field op arg end)) =
        lint_single (lint_operator (operator_of op) arg (lint_node arg).operands)
    lint_node (object (field op arg (field k v rest))) = lint_single lint_invalid

    pub lint_items : Items → List Lint
    lint_items nil = []
    lint_items (cons v rest) = (lint_node v).self ∷ lint_items rest

  unfoldable pub validate_sized : (oversized : Bool) → Value → Outcome PolicyCode ℕ
  unfolding lint_node
  validate_sized true condition = failed condition_too_large
  validate_sized false condition = (lint_node condition).self 0 0

  unfoldable pub validate_condition :
      (max_bytes : ℕ) → (serialized_bytes : Value → ℕ) → Value → Outcome PolicyCode ℕ
  unfolding validate_sized
  validate_condition max_bytes serialized_bytes (object fs) =
      validate_sized (ltb max_bytes (serialized_bytes (object fs))) (object fs)
  validate_condition max_bytes serialized_bytes _ = failed invalid_condition
