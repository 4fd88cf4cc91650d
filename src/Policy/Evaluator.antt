-- ===== src/Policy/Evaluator.antt =====
-- src/server/modules/policy/condition.ts: `resolveVar`, `hasVar`, `applyOp`, `evalNode` and
-- `evaluateCondition`.
use Prim.Native.String.{String}
use license_srv.Prelude.{
  ℕ, suc, Bool, true, false, not, Option, none, some, List, [], ◌∷◌, if◌then◌else◌, ltb,
}
use license_srv.Js.{
  Number, Value, undefined, null, flag, number, string, array, object, Items, nil, cons, Fields,
  end, field, own_field, split_path, truthy,
}
use license_srv.Policy.Outcome.{Outcome, done, failed, ◌>>=◌}
use license_srv.Policy.Condition.{
  ConditionError, unsafe_operator, invalid_condition, missing_field, max_complexity_exceeded,
  max_depth_exceeded, timeout, max_size_exceeded, Runtime, Operator, var, has, both, either, choose,
  negation, truth, on_values, operator_of, operator_in, EvaluateConditionOptions, Eval, Walk,
  forbidden, absent, found, walk, path_of, path_text, second, run_all, run_both, run_either,
  run_choose, items_of,
}
use license_srv.Policy.Values.{apply_value_op}

-- A node, and the operands that an operator makes of it: its elements, or itself.
pub record Node : Type 0 where
  pub self : Eval
  pub operands : List Eval

-- What a walk gives: the value, the default if there is one, or an error.
unfoldable pub walked : Walk → Option Value → (ops : ℕ) → Outcome ConditionError (Value × ℕ)
walked forbidden dflt ops = failed unsafe_operator
walked (found v) dflt ops = done (v, ops)
walked absent (some v) ops = done (v, ops)
walked absent none ops = failed missing_field

unfoldable pub is_found : Walk → Bool
is_found (found v) = true
is_found _ = false

unfoldable pub single : Eval → Node
single e = record { self = e; operands = e ∷ [] }

-- `{ ...context, now }`, if the context has no `now` of its own.
unfoldable pub with_now : Option Number → Fields → Fields
unfolding own_field
with_now none fields = fields
with_now (some now) fields = elim (own_field fields "now") [
  | none ↦ field "now" (number now) fields
  | some v ↦ fields
]

-- `JSON.stringify` gives a text.
unfoldable pub is_serializable : Value → Bool
is_serializable undefined = false
is_serializable _ = true

-- What the test of the size throws, if there is a limit.
unfoldable pub size_error :
    (limit : Option ℕ) → (serializable : Bool) → (bytes : ℕ) → Option ConditionError
size_error none serializable bytes = none
size_error (some max) false bytes = some invalid_condition
size_error (some max) true bytes = if ltb max bytes then some max_size_exceeded else none

module _ (rt : Runtime) (opts : EvaluateConditionOptions) where
  -- What comes first at every node: the budget, then the clock.
  unfoldable pub enter : ℕ → Outcome ConditionError ℕ
  enter ops =
      if ltb opts.max_complexity (suc ops)
      then failed max_complexity_exceeded
      else if opts.is_late (suc ops)
      then failed timeout
      else done (suc ops)

  unfoldable pub literal : Value → Eval
  unfolding enter
  literal v depth ops = enter ops >>= (λ (n : ℕ). done (v, n))

  unfoldable pub array_node : List Eval → Eval
  unfolding enter run_all items_of
  array_node es depth ops = enter ops >>= (λ (n : ℕ).
      run_all es depth n >>= (λ (rs : List Value × ℕ). done (array (items_of rs.0), rs.1)))

  unfoldable pub invalid_node : Eval
  unfolding enter
  invalid_node depth ops = enter ops >>= (λ (n : ℕ). failed invalid_condition)

  unfoldable pub first_of : List Eval → Eval
  unfolding literal
  first_of [] = literal undefined
  first_of (e ∷ es) = e

  unfoldable pub look_up :
      (context : Value)
      → Option String
      → Option Value
      → (ops : ℕ) → Outcome ConditionError (Value × ℕ)
  unfolding walked walk split_path
  look_up context none dflt ops = failed invalid_condition
  look_up context (some path) dflt ops = walked (walk rt.one (split_path path) context) dflt ops

  -- The default alternative is evaluated before the path is read. An argument that is an array has
  -- its elements as operands; another has itself as its one operand, and no default.
  unfoldable pub resolve_var : (context arg : Value) → Option Eval → Eval
  unfolding look_up path_text path_of
  resolve_var context arg none depth ops = look_up context (path_text (path_of arg)) none ops
  resolve_var context arg (some dflt) depth ops =
      dflt depth ops
      >>= (λ (r : Value × ℕ). look_up context (path_text (path_of arg)) (some r.0) r.1)

  unfoldable pub has_path : (context : Value) → Option String → Bool
  unfolding is_found walk split_path
  has_path context none = false
  has_path context (some path) = is_found (walk rt.one (split_path path) context)

  unfoldable pub apply_op : (context : Value) → Operator → Value → List Eval → Eval
  unfolding resolve_var second has_path path_text path_of run_both run_either run_choose first_of
      run_all apply_value_op
  apply_op context var arg es depth ops = resolve_var context arg (second es) depth ops
  apply_op context has arg es depth ops =
      done (flag (has_path context (path_text (path_of arg))), ops)
  apply_op context both arg es depth ops = run_both es depth ops
  apply_op context either arg es depth ops = run_either es depth ops
  apply_op context choose arg es depth ops = run_choose es depth ops
  apply_op context negation arg es depth ops =
      first_of es depth ops >>= (λ (r : Value × ℕ). done (flag (not (truthy r.0)), r.1))
  apply_op context truth arg es depth ops =
      first_of es depth ops >>= (λ (r : Value × ℕ). done (flag (truthy r.0), r.1))
  apply_op context (on_values op) arg es depth ops =
      run_all es depth ops
      >>= (λ (rs : List Value × ℕ). apply_value_op rt op rs.0 >>= (λ (v : Value). done (v, rs.1)))

  unfoldable pub apply_below :
      (context : Value) → (too_deep : Bool) → Operator → Value → List Eval → Eval
  unfolding apply_op
  apply_below context true op arg es depth ops = failed max_depth_exceeded
  apply_below context false op arg es depth ops = apply_op context op arg es depth ops

  -- An operator node, for an operator that is allowed or not.
  unfoldable pub operator_node : (context : Value) → Option Operator → Value → List Eval → Eval
  unfolding enter apply_below
  operator_node context none arg es depth ops = enter ops >>= (λ (n : ℕ). failed unsafe_operator)
  operator_node context (some op) arg es depth ops =
      enter ops
      >>= (λ (n : ℕ). apply_below context (ltb opts.max_depth (suc depth)) op arg es (suc depth) n)

  unfoldable pub array_of : List Eval → Node
  unfolding array_node
  array_of es = record { self = array_node es; operands = es }

  unfoldable mutual
    unfolding single array_of literal invalid_node operator_node operator_in

    pub compile : (context : Value) → Value → Node
    compile context undefined = single (literal undefined)
    compile context null = single (literal null)
    compile context (flag b) = single (literal (flag b))
    compile context (number n) = single (literal (number n))
    compile context (string s) = single (literal (string s))
    compile context (array xs) = array_of (compile_items context xs)
    compile context (object end) = single invalid_node
    compile context (object (field op arg end)) =
        single (operator_node context (operator_of op) arg (compile context arg).operands)
    compile context (object (field op arg (field k v rest))) = single invalid_node

    pub compile_items : (context : Value) → Items → List Eval
    compile_items context nil = []
    compile_items context (cons v rest) = (compile context v).self ∷ compile_items context rest

  unfoldable pub evaluate_sized :
      Option ConditionError → Value → Fields → Outcome ConditionError Bool
  unfolding compile with_now
  evaluate_sized (some e) condition context = failed e
  evaluate_sized none condition context =
      (compile (object (with_now opts.now context)) condition).self 0 0
      >>= (λ (r : Value × ℕ). done (truthy r.0))

  unfoldable pub evaluate_condition : Value → (context : Fields) → Outcome ConditionError Bool
  unfolding size_error is_serializable evaluate_sized
  evaluate_condition condition context =
      evaluate_sized
        (size_error opts.max_bytes (is_serializable condition) (rt.serialized_bytes condition))
        condition context
