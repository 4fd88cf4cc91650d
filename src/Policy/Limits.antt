-- ===== src/Policy/Limits.antt =====
-- The limits of an evaluation (src/server/modules/policy/condition.ts): an evaluation that comes to none
-- of its limits gives what it gives under wider ones.
use Prim.Native.String.{String}
use mathlib.Core.Path.{subst}
use license_srv.Policy.Authoring.{default_options}
use license_srv.Prelude.{
  ◌∙◌, ℕ, suc, ◌≤◌, ◌≡◌, refl, sym, ap, ◌⊎◌, inl, inr, true, false, Option, none, some, List, [],
  ◌∷◌, ltb, arith, Bool-cases,
}
use license_srv.Js.{
  Number, Value, undefined, null, flag, number, string, array, object, Items, nil, cons, Fields,
  end, field, truthy,
}
use license_srv.Policy.Outcome.{done}
use license_srv.Policy.Condition.{
  max_size_exceeded, Runtime, Operator, var, has, both, either, choose, negation, truth, on_values,
  operator_of, EvaluateConditionOptions, Eval, path_of, path_text, second, run_all,
}
use license_srv.Policy.Evaluator.{
  Node, enter, literal, array_node, invalid_node, first_of, look_up, resolve_var, has_path,
  apply_op, apply_below, operator_node, single, array_of, compile, compile_items, with_now,
  is_serializable, size_error, evaluate_sized, evaluate_condition,
}
use license_srv.Policy.Stops.{
  IsStopped, Agrees, bind-Agrees, Refines, AllRefine, OptRefine, run_all-Agrees, run_both-Refines,
  run_either-Refines, run_choose-Refines, second-OptRefine,
}

module _ (rt : Runtime) (o w : EvaluateConditionOptions)
    (nodes : o.max_complexity ≤ w.max_complexity) (depths : o.max_depth ≤ w.max_depth)
    (in_time : (n : ℕ) → w.is_late n ≡ false) (context : Value) where
  enter-Agrees : (ops : ℕ) → Agrees (enter rt o ops) (enter rt w ops)
  unfolding enter
  enter-Agrees ops = elim (Bool-cases (ltb o.max_complexity (suc ops))) [
    | inl e ↦ rw e (inl tt)
    | inr e ↦ elim (Bool-cases (o.is_late (suc ops))) [
      | inl late ↦ rw (e, late) (inl tt)
      | inr soon ↦
          let wide : ltb w.max_complexity (suc ops) ≡ false = ground arith in
          rw (e, soon, wide, in_time (suc ops)) (inr refl)
    ]
  ]

  literal-Refines : (v : Value) → Refines (literal rt o v) (literal rt w v)
  unfolding literal
  literal-Refines v depth ops =
      bind-Agrees (enter rt o ops) (enter rt w ops) _ _ (enter-Agrees ops) (λ n. inr refl)

  invalid-Refines : Refines (invalid_node rt o) (invalid_node rt w)
  unfolding invalid_node
  invalid-Refines depth ops =
      bind-Agrees (enter rt o ops) (enter rt w ops) _ _ (enter-Agrees ops) (λ n. inr refl)

  array-Refines :
      (es ws : List Eval) → AllRefine es ws → Refines (array_node rt o es) (array_node rt w ws)
  unfolding array_node
  array-Refines es ws h depth ops =
      bind-Agrees (enter rt o ops) (enter rt w ops) _ _ (enter-Agrees ops) (λ n.
        bind-Agrees (run_all es depth n) (run_all ws depth n) _ _ (run_all-Agrees es ws depth n h)
          (λ rs. inr refl))

  first-Refines :
      (es ws : List Eval) → AllRefine es ws → Refines (first_of rt o es) (first_of rt w ws)
  unfolding first_of
  first-Refines [] [] h = literal-Refines undefined
  first-Refines [] (v ∷ ws) h = absurd h
  first-Refines (e ∷ es) [] h = absurd h
  first-Refines (e ∷ es) (v ∷ ws) (h, hs) = h

  look_up_same :
      (path : Option String) (dflt : Option Value) (ops : ℕ)
      → look_up rt o context path dflt ops ≡ look_up rt w context path dflt ops
  unfolding look_up
  look_up_same none dflt ops = refl
  look_up_same (some path) dflt ops = refl

  var-Refines :
      (arg : Value) (d e : Option Eval)
      → OptRefine d e
      → Refines (resolve_var rt o context arg d) (resolve_var rt w context arg e)
  unfolding resolve_var
  var-Refines arg none none h depth ops = inr (look_up_same (path_text (path_of arg)) none ops)
  var-Refines arg none (some e) h depth ops = absurd h
  var-Refines arg (some d) none h depth ops = absurd h
  var-Refines arg (some d) (some e) h depth ops =
      bind-Agrees (d depth ops) (e depth ops) _ _ (h depth ops)
        (λ r. inr (look_up_same (path_text (path_of arg)) (some r.0) r.1))

  has_same : (path : Option String) → has_path rt o context path ≡ has_path rt w context path
  unfolding has_path
  has_same none = refl
  has_same (some path) = refl

  op-Refines :
      (op : Operator) (arg : Value) (es ws : List Eval)
      → AllRefine es ws
      → Refines (apply_op rt o context op arg es) (apply_op rt w context op arg ws)
  unfolding apply_op
  op-Refines var arg es ws h depth ops =
      var-Refines arg (second es) (second ws) (second-OptRefine es ws h) depth ops
  op-Refines has arg es ws h depth ops =
      inr (ap (λ b. done (flag b, ops)) (has_same (path_text (path_of arg))))
  op-Refines both arg es ws h depth ops = run_both-Refines es ws h depth ops
  op-Refines either arg es ws h depth ops = run_either-Refines es ws h depth ops
  op-Refines choose arg es ws h depth ops = run_choose-Refines es ws h depth ops
  op-Refines negation arg es ws h depth ops =
      bind-Agrees (first_of rt o es depth ops) (first_of rt w ws depth ops) _ _
        (first-Refines es ws h depth ops) (λ r. inr refl)
  op-Refines truth arg es ws h depth ops =
      bind-Agrees (first_of rt o es depth ops) (first_of rt w ws depth ops) _ _
        (first-Refines es ws h depth ops) (λ r. inr refl)
  op-Refines (on_values op) arg es ws h depth ops =
      bind-Agrees (run_all es depth ops) (run_all ws depth ops) _ _
        (run_all-Agrees es ws depth ops h) (λ rs. inr refl)

  below-Agrees :
      (op : Operator) (arg : Value) (es ws : List Eval) (depth n : ℕ)
      → AllRefine es ws
      → Agrees
          (apply_below rt o context (ltb o.max_depth depth) op arg es depth n)
          (apply_below rt w context (ltb w.max_depth depth) op arg ws depth n)
  unfolding apply_below
  below-Agrees op arg es ws depth n h = elim (Bool-cases (ltb o.max_depth depth)) [
    | inl deep ↦ rw deep (inl tt)
    | inr e ↦
        let wide : ltb w.max_depth depth ≡ false = ground arith in
        rw (e, wide) (op-Refines op arg es ws h depth n)
  ]

  node-Refines :
      (op : Option Operator) (arg : Value) (es ws : List Eval)
      → AllRefine es ws
      → Refines (operator_node rt o context op arg es) (operator_node rt w context op arg ws)
  unfolding operator_node
  node-Refines none arg es ws h depth ops =
      bind-Agrees (enter rt o ops) (enter rt w ops) _ _ (enter-Agrees ops) (λ n. inr refl)
  node-Refines (some op) arg es ws h depth ops =
      bind-Agrees (enter rt o ops) (enter rt w ops) _ _ (enter-Agrees ops)
        (λ n. below-Agrees op arg es ws (suc depth) n h)

  abbrev NodeRefine : Node → Node → Type 0
  NodeRefine a b = Refines a.self b.self × AllRefine a.operands b.operands

  single-NodeRefine : (e v : Eval) → Refines e v → NodeRefine (single e) (single v)
  unfolding single
  single-NodeRefine e v h = (h, (h, tt))

  mutual
    unfolding compile compile_items array_of

    pub compile-NodeRefine :
        (v : Value) → NodeRefine (compile rt o context v) (compile rt w context v)
    compile-NodeRefine undefined = single-NodeRefine _ _ (literal-Refines undefined)
    compile-NodeRefine null = single-NodeRefine _ _ (literal-Refines null)
    compile-NodeRefine (flag b) = single-NodeRefine _ _ (literal-Refines (flag b))
    compile-NodeRefine (number n) = single-NodeRefine _ _ (literal-Refines (number n))
    compile-NodeRefine (string s) = single-NodeRefine _ _ (literal-Refines (string s))
    compile-NodeRefine (array xs) = let h = items-AllRefine xs in (array-Refines _ _ h, h)
    compile-NodeRefine (object end) = single-NodeRefine _ _ invalid-Refines
    compile-NodeRefine (object (field op arg end)) =
        single-NodeRefine _ _ (node-Refines (operator_of op) arg _ _ (compile-NodeRefine arg).1)
    compile-NodeRefine (object (field op arg (field k v rest))) =
        single-NodeRefine _ _ invalid-Refines

    items-AllRefine :
        (xs : Items) → AllRefine (compile_items rt o context xs) (compile_items rt w context xs)
    items-AllRefine nil = tt
    items-AllRefine (cons v rest) = ((compile-NodeRefine v).0, items-AllRefine rest)

size_cases :
    (limit : Option ℕ) (bytes : ℕ)
    → (size_error limit true bytes ≡ none) ⊎ (size_error limit true bytes ≡ some max_size_exceeded)
unfolding size_error
size_cases none bytes = inl refl
size_cases (some max) bytes = elim (Bool-cases (ltb max bytes)) [
  | inl over ↦ inr (rw over refl)
  | inr fits ↦ inl (rw fits refl)
]

module _ (rt : Runtime) (o : EvaluateConditionOptions) (now : Number)
    (nodes : o.max_complexity ≤ 10000) (depths : o.max_depth ≤ 64) (at : o.now ≡ some now)
    (context : Fields) where
  serializable_of :
      (condition : Value)
      → evaluate_condition rt (default_options now) condition context ≡ done true
      → is_serializable condition ≡ true
  unfolding evaluate_condition size_error evaluate_sized compile single literal enter truthy
      is_serializable
  serializable_of undefined h = cc
  serializable_of null h = refl
  serializable_of (flag b) h = refl
  serializable_of (number n) h = refl
  serializable_of (string s) h = refl
  serializable_of (array xs) h = refl
  serializable_of (object fields) h = refl

  wide_sized :
      (condition : Value)
      → evaluate_condition rt (default_options now) condition context ≡ done true
      → evaluate_sized rt (default_options now) none condition context ≡ done true
  unfolding evaluate_condition size_error
  wide_sized condition h = h

  at_size :
      (condition : Value)
      → IsStopped (evaluate_sized rt o (some max_size_exceeded) condition context)
  unfolding evaluate_sized
  at_size condition = tt

  unsized-Agrees :
      (condition : Value)
      → Agrees
          (evaluate_sized rt o none condition context)
          (evaluate_sized rt (default_options now) none condition context)
  unfolding evaluate_sized
  unsized-Agrees condition =
      let wide = default_options now in
      let there = object (with_now (some now) context) in
      let same : object (with_now o.now context) ≡ there =
        ap (λ (n : Option Number). object (with_now n context)) at in
      bind-Agrees _ _ _ _
        (subst
          (λ c.
            Agrees ((compile rt o c condition).self 0 0)
              ((compile rt wide there condition).self 0 0))
          (sym same)
          ((compile-NodeRefine rt o wide nodes depths (λ n. refl) there condition).0 0 0))
        (λ r. inr refl)

  -- A condition that holds under the limits of the author's check holds under narrower ones too,
  -- unless it comes to one of them.
  pub evaluate_condition_narrow :
      (condition : Value)
      → evaluate_condition rt (default_options now) condition context ≡ done true
      → IsStopped (evaluate_condition rt o condition context)
        ⊎ (evaluate_condition rt o condition context ≡ done true)
  unfolding evaluate_condition
  evaluate_condition_narrow condition h =
      let text = serializable_of condition h in
      let bytes = rt.serialized_bytes condition in
      elim (size_cases o.max_bytes bytes) [
        | inl fits ↦
            rw (text, fits)
              (elim (unsized-Agrees condition) [
                | inl s ↦ inl s
                | inr e ↦ inr (e ∙ wide_sized condition h)
              ])
        | inr over ↦ rw (text, over) (inl (at_size condition))
      ]
