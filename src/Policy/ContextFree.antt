-- ===== src/Policy/ContextFree.antt =====
-- A condition that does not read the context (src/server/modules/policy/validate.ts), in the evaluator of
-- condition.ts.
use Prim.Native.String.{String}
use text.Mathlib.Text.{◌==◌ as str_eq}
use mathlib.Core.Path.{fun_ext}
use license_srv.Prelude.{
  ℕ, suc, ◌≡◌, refl, ap, ◌⊎◌, inl, inr, Bool, true, false, ◌||◌, Option, none, some, List, [], ◌∷◌,
  ltb, All, arith, Bool-cases,
}
use license_srv.Js.{
  Number, Value, undefined, null, flag, number, string, array, object, Items, nil, cons, end, field,
}
use license_srv.Policy.Outcome.{Outcome, done, failed, ◌>>=◌}
use license_srv.Policy.Condition.{
  Runtime, Operator, var, has, both, either, choose, negation, truth, on_values, allowed_operators,
  operator_of, operator_in, EvaluateConditionOptions, Eval,
}
use license_srv.Policy.Evaluator.{
  enter, literal, array_node, invalid_node, apply_op, apply_below, first_of, operator_node, single,
  array_of, compile, compile_items,
}
use license_srv.Policy.Authoring.{
  reads_context, references_context, any_references, fields_reference, default_options,
}

unfoldable is_read : Option Operator → Bool
is_read (some var) = true
is_read (some has) = true
is_read _ = false

operator_in-Unread :
    (name : String) (os : List (String × Operator))
    → All (λ o. (is_read (some o.1) ≡ false) ⊎ (str_eq o.0 name ≡ false)) os
    → is_read (operator_in os name) ≡ false
unfolding operator_in is_read
operator_in-Unread name [] a = refl
operator_in-Unread name (o ∷ os) (h, a) = elim (Bool-cases (str_eq o.0 name)) [
  | inl e ↦ rw e (elim h [ inl u ↦ u | inr v ↦ absurd (ground arith) ])
  | inr e ↦ rw e (operator_in-Unread name os a)
]

or_false : (a b : Bool) → (a || b) ≡ false → (a ≡ false) × (b ≡ false)
or_false a b h = (ground arith, ground arith)

operator_of-Unread :
    (name : String)
    → (str_eq "var" name || str_eq "has" name) ≡ false
    → is_read (operator_of name) ≡ false
unfolding is_read
operator_of-Unread name h =
    let (v, w) = or_false _ _ h in
    operator_in-Unread name allowed_operators (
      inl refl,
      (
        inl refl,
        (
          inl refl,
          (
            inl refl,
            (
              inl refl,
              (
                inl refl,
                (
                  inl refl,
                  (
                    inl refl,
                    (
                      inl refl,
                      (
                        inl refl,
                        (
                          inl refl,
                          (
                            inl refl,
                            (
                              inl refl,
                              (
                                inl refl,
                                (
                                  inr v,
                                  (
                                    inr w,
                                    (
                                      inl refl,
                                      (
                                        inl refl,
                                        (
                                          inl refl,
                                          (inl refl, (inl refl, (inl refl, (inl refl, tt)))),
                                        ),
                                      ),
                                    ),
                                  ),
                                ),
                              ),
                            ),
                          ),
                        ),
                      ),
                    ),
                  ),
                ),
              ),
            ),
          ),
        ),
      ),
    )

bind_ext :
    {A B E : Type 0} (m : Outcome E A) (f g : A → Outcome E B)
    → ((a : A) → f a ≡ g a)
    → (m >>= f) ≡ (m >>= g)
bind_ext (done a) f g h = h a
bind_ext (failed e) f g h = refl

module _ (rt : Runtime) (now1 now2 : Number) (c1 c2 : Value) where
  abbrev opts1 : EvaluateConditionOptions
  opts1 = default_options now1

  abbrev opts2 : EvaluateConditionOptions
  opts2 = default_options now2

  first_same :
      (es : List Eval) (depth ops : ℕ)
      → first_of rt opts1 es depth ops ≡ first_of rt opts2 es depth ops
  unfolding first_of literal enter
  first_same [] depth ops = refl
  first_same (e ∷ es) depth ops = refl

  apply_below_same :
      (too_deep : Bool) (op : Operator) (arg : Value) (es : List Eval) (depth ops : ℕ)
      → is_read (some op) ≡ false
      → apply_below rt opts1 c1 too_deep op arg es depth ops
        ≡ apply_below rt opts2 c2 too_deep op arg es depth ops
  unfolding apply_below apply_op is_read
  apply_below_same true op arg es depth ops h = refl
  apply_below_same false var arg es depth ops h = cc
  apply_below_same false has arg es depth ops h = cc
  apply_below_same false both arg es depth ops h = refl
  apply_below_same false either arg es depth ops h = refl
  apply_below_same false choose arg es depth ops h = refl
  apply_below_same false negation arg es depth ops h = rw (first_same es depth ops)
  apply_below_same false truth arg es depth ops h = rw (first_same es depth ops)
  apply_below_same false (on_values op) arg es depth ops h = refl

  operator_node_same :
      (op : Option Operator) (arg : Value) (es : List Eval)
      → is_read op ≡ false
      → operator_node rt opts1 c1 op arg es ≡ operator_node rt opts2 c2 op arg es
  unfolding operator_node enter
  operator_node_same none arg es h = refl
  operator_node_same (some op) arg es h = fun_ext (λ depth. fun_ext (λ ops.
      bind_ext (enter rt opts1 ops) _ _
        (λ n. apply_below_same (ltb 64 (suc depth)) op arg es (suc depth) n h)))

  mutual
    unfolding compile compile_items references_context any_references fields_reference reads_context
        array_of literal invalid_node array_node enter

    pub compile_same :
        (v : Value) → references_context v ≡ false → compile rt opts1 c1 v ≡ compile rt opts2 c2 v
    compile_same undefined h = refl
    compile_same null h = refl
    compile_same (flag b) h = refl
    compile_same (number n) h = refl
    compile_same (string s) h = refl
    compile_same (array xs) h = rw (compile_items_same xs h)
    compile_same (object end) h = refl
    compile_same (object (field op arg end)) h =
        let (r, s) = or_false (str_eq "var" op || str_eq "has" op) _ h in
        let (t, u) = or_false (references_context arg) false s in
        rw (compile_same arg t)
          (ap single (operator_node_same (operator_of op) arg _ (operator_of-Unread op r)))
    compile_same (object (field op arg (field k v rest))) h = refl

    compile_items_same :
        (xs : Items)
        → any_references xs ≡ false
        → compile_items rt opts1 c1 xs ≡ compile_items rt opts2 c2 xs
    compile_items_same nil h = refl
    compile_items_same (cons v rest) h =
        let (t, u) = or_false (references_context v) (any_references rest) h in
        rw (compile_same v t, compile_items_same rest u)
