-- ===== src/Policy/Sound.antt =====
-- A condition that passes the check of src/server/modules/policy/validate.ts is evaluated by
-- condition.ts within the limits, and with no operator or path that is refused.
use Prim.Native.String.{String}
use license_srv.Prelude.{
  ℕ, suc, ◌≤◌, ◌≡◌, refl, Bool, true, false, Option, none, some, List, [], ◌∷◌, arith, inl, inr,
  ltb, any_by, Bool-cases, ℤ, or_left, or_right,
}
use license_srv.Js.{Number, finite, infinite, nan, Value, split_path, own_property}
use license_srv.Policy.Outcome.{Outcome, done, ◌>>=◌}
use license_srv.Policy.Condition.{
  ConditionError, Runtime, ValueOperator, EvaluateConditionOptions, Walk, forbidden, absent, found,
  walk, step_walk, is_forbidden,
}
use license_srv.Policy.Values.{apply_value_op, finite_or_throw}
use license_srv.Policy.Evaluator
use license_srv.Policy.Evaluator.{
  Node, literal, array_node, invalid_node, first_of, walked, look_up, resolve_var, has_path,
  apply_op, operator_node, compile, compile_items, single, array_of, evaluate_condition,
}
use license_srv.Policy.Validate
use license_srv.Policy.Validate.{
  PolicyCode, Lint, lint_all, lint_root, lint_allowed, lint_segments, lint_field_path,
  ContextFieldSchema, lint_var, LintLimits, LintNode, RootSchema, root_schema, is_field, lint_array,
  lint_literal, lint_invalid, lint_op, lint_operator, lint_single, lint_array_node, lint_node,
  lint_items, validate_condition,
}
use license_srv.Policy.Follows.{Within}

-- A path with no forbidden segment is never refused.
abbrev Permits : Walk → Type 0
Permits forbidden = ⊥
Permits _ = Unit

step_walk-Permits :
    (refused : Bool) (v : Option Value) (rest : Value → Walk)
    → refused ≡ false
    → ((w : Value) → Permits (rest w))
    → Permits (step_walk refused v rest)
unfolding step_walk
step_walk-Permits true v rest h k = cc
step_walk-Permits false none rest h k = tt
step_walk-Permits false (some v) rest h k = k v

walk-Permits :
    (one : ℤ) (segments : List String) (v : Value)
    → any_by is_forbidden segments ≡ false
    → Permits (walk one segments v)
unfolding walk any_by
walk-Permits one [] v h = tt
walk-Permits one (seg ∷ segments) v h =
    step_walk-Permits (is_forbidden seg) (own_property one v seg) (walk one segments)
      (or_left (is_forbidden seg) _ h)
      (λ w. walk-Permits one segments w (or_right (is_forbidden seg) _ h))

walked-Within :
    (w : Walk) (dflt : Option Value) (ops n : ℕ)
    → Permits w
    → ops ≤ n
    → Within n (walked w dflt ops)
unfolding walked
walked-Within forbidden dflt ops n p le = absurd p
walked-Within (found v) dflt ops n p le = le
walked-Within absent (some v) ops n p le = le
walked-Within absent none ops n p le = tt

lint_root_ops :
    (schema : Option RootSchema) (rest : List String) (ops n : ℕ)
    → lint_root schema rest ops ≡ done n
    → ops ≡ n
unfolding lint_root
lint_root_ops none rest ops n h = cc
lint_root_ops (some RootSchema.leaf) [] ops n h = cc
lint_root_ops (some RootSchema.leaf) (s ∷ rest) ops n h = cc
lint_root_ops (some RootSchema.any) rest ops n h = cc
lint_root_ops (some RootSchema.inherited) [] ops n h = cc
lint_root_ops (some RootSchema.inherited) (s ∷ rest) ops n h = cc
lint_root_ops (some (RootSchema.fields fs)) rest ops n h = ground arith

lint_allowed_ok :
    (schema : ContextFieldSchema) (refused : Bool) (root : String) (rest : List String) (ops n : ℕ)
    → lint_allowed schema refused root rest ops ≡ done n
    → (refused ≡ false) × (ops ≡ n)
unfolding lint_allowed
lint_allowed_ok schema true root rest ops n h = cc
lint_allowed_ok schema false root rest ops n h =
    (refl, lint_root_ops (root_schema schema root) rest ops n h)

lint_segments_ok :
    (schema : ContextFieldSchema) (segments : List String) (ops n : ℕ)
    → lint_segments schema segments ops ≡ done n
    → (any_by is_forbidden segments ≡ false) × (ops ≡ n)
unfolding lint_segments
lint_segments_ok schema [] ops n h = cc
lint_segments_ok schema (root ∷ rest) ops n h =
    lint_allowed_ok schema (any_by is_forbidden (root ∷ rest)) root rest ops n h

pub not_over : (ops max : ℕ) → suc ops ≤ max → ltb max (suc ops) ≡ false
not_over ops max le = ground arith

module _ (limits : LintLimits) where
  pub lint_enter_ok :
      (lops k : ℕ)
      → Validate.enter limits lops ≡ done k
      → (k ≡ suc lops) × (suc lops ≤ limits.max_complexity)
  unfolding Validate.enter
  lint_enter_ok lops k h = ground arith

module _ (rt : Runtime) (opts : EvaluateConditionOptions) where
  pub enter-Within :
      {A : Type 0} (ops n : ℕ) (f : ℕ → Outcome ConditionError (A × ℕ))
      → suc ops ≤ opts.max_complexity
      → Within n (f (suc ops))
      → Within n (Evaluator.enter rt opts ops >>= f)
  unfolding Evaluator.enter
  enter-Within ops n f le w = elim (Bool-cases (opts.is_late (suc ops))) [
    | inl late ↦ rw (not_over ops opts.max_complexity le, late) tt
    | inr early ↦ rw (not_over ops opts.max_complexity le, early) w
  ]

  finite_or_throw-Within :
      (x : Number) (k n : ℕ)
      → k ≤ n
      → Within n (finite_or_throw rt x >>= (λ (v : Value). done (v, k)))
  unfolding finite_or_throw
  finite_or_throw-Within (finite z) k n le = le
  finite_or_throw-Within (infinite b) k n le = tt
  finite_or_throw-Within nan k n le = tt

  pub apply_value_op-Within :
      (op : ValueOperator) (vs : List Value) (k n : ℕ)
      → k ≤ n
      → Within n (apply_value_op rt op vs >>= (λ (v : Value). done (v, k)))
  unfolding apply_value_op
  apply_value_op-Within ValueOperator.equal vs k n le = le
  apply_value_op-Within ValueOperator.not_equal vs k n le = le
  apply_value_op-Within ValueOperator.less vs k n le = le
  apply_value_op-Within ValueOperator.less_equal vs k n le = le
  apply_value_op-Within ValueOperator.greater vs k n le = le
  apply_value_op-Within ValueOperator.greater_equal vs k n le = le
  apply_value_op-Within ValueOperator.member vs k n le = le
  apply_value_op-Within ValueOperator.plus vs k n le = finite_or_throw-Within _ k n le
  apply_value_op-Within ValueOperator.times vs k n le = finite_or_throw-Within _ k n le
  apply_value_op-Within ValueOperator.minus vs k n le = finite_or_throw-Within _ k n le
  apply_value_op-Within ValueOperator.over vs k n le = finite_or_throw-Within _ k n le
  apply_value_op-Within ValueOperator.modulo vs k n le = finite_or_throw-Within _ k n le
  apply_value_op-Within ValueOperator.least vs k n le = finite_or_throw-Within _ k n le
  apply_value_op-Within ValueOperator.greatest vs k n le = finite_or_throw-Within _ k n le

  pub look_up-Within :
      (context : Value) (schema : ContextFieldSchema) (path : Option String) (dflt : Option Value)
      (ops lops n : ℕ)
      → ops ≤ lops
      → lint_field_path schema path lops ≡ done n
      → Within n (look_up rt opts context path dflt ops) × (lops ≤ n)
  unfolding look_up lint_field_path
  look_up-Within context schema none dflt ops lops n le h = cc
  look_up-Within context schema (some path) dflt ops lops n le h =
      let (allowed, same) = lint_segments_ok schema (split_path path) lops n h in
      (
        walked-Within (walk rt.one (split_path path) context) dflt ops n
            (walk-Permits rt.one (split_path path) context allowed) (omega arith),
        omega arith,
      )
