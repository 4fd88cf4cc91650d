-- ===== src/Policy/Applied.antt =====
-- The operators of a condition, as src/server/modules/policy/validate.ts checks and condition.ts applies them.
use license_srv.Prelude.{ℕ, ◌≤◌, ◌≡◌, Option, none, some, List, [], ◌∷◌, arith}
use license_srv.Js.{Value}
use license_srv.Policy.Outcome.{done, >>=-eq-done}
use license_srv.Policy.Condition.{
  Runtime, Operator, var, has, both, either, choose, negation, truth, on_values,
  EvaluateConditionOptions, Eval, path_of, path_text, second, run_all,
}
use license_srv.Policy.Evaluator.{first_of, resolve_var, apply_op}
use license_srv.Policy.Validate.{Lint, lint_all, lint_field_path, lint_var, LintLimits, lint_op}
use license_srv.Policy.Follows.{
  Within, bind-Within, Within-le, Follows, FollowsAll, lint_all_le, run_all-Within, run_both-Within,
  run_either-Within, run_choose-Within,
}
use license_srv.Policy.Sound.{apply_value_op-Within, look_up-Within}

-- The second operands, both there or neither.
abbrev FollowsSecond : Option Eval → Option Lint → Type 0
FollowsSecond none none = Unit
FollowsSecond (some e) (some l) = Follows e l
FollowsSecond _ _ = ⊥

second-FollowsSecond :
    (es : List Eval) (ls : List Lint) → FollowsAll es ls → FollowsSecond (second es) (second ls)
unfolding second
second-FollowsSecond [] [] f = tt
second-FollowsSecond [] (l ∷ ls) f = absurd f
second-FollowsSecond (e ∷ es) [] f = absurd f
second-FollowsSecond (e ∷ []) (l ∷ []) f = tt
second-FollowsSecond (e ∷ []) (l ∷ m ∷ ls) (f, g) = absurd g
second-FollowsSecond (e ∷ d ∷ es) (l ∷ []) (f, g) = absurd g
second-FollowsSecond (e ∷ d ∷ es) (l ∷ m ∷ ls) (f, (g, fs)) = g

-- `!` and `!!` have an operand.
abbrev pub HasOperand : Operator → List Eval → Type 0
HasOperand negation [] = ⊥
HasOperand truth [] = ⊥
HasOperand _ _ = Unit

module _ (rt : Runtime) (opts : EvaluateConditionOptions) (limits : LintLimits)
    (context : Value) where
  resolve_var-Within :
      (arg : Value) (e : Option Eval) (l : Option Lint) (depth ops lops n : ℕ)
      → FollowsSecond e l
      → ops ≤ lops
      → lint_var limits arg l depth lops ≡ done n
      → Within n (resolve_var rt opts context arg e depth ops) × (lops ≤ n)
  unfolding resolve_var lint_var
  resolve_var-Within arg none none depth ops lops n f le h =
      look_up-Within rt opts context limits.schema (path_text (path_of arg)) none ops lops n le h
  resolve_var-Within arg none (some l) depth ops lops n f le h = absurd f
  resolve_var-Within arg (some e) none depth ops lops n f le h = absurd f
  resolve_var-Within arg (some e) (some l) depth ops lops n f le h =
      let (k, first, rest) =
        >>=-eq-done (l depth lops)
          (λ (n : ℕ). lint_field_path limits.schema (path_text (path_of arg)) n) h in
      let (w, grows) = f depth ops lops k le first in
      (
        bind-Within k n (e depth ops) _ w (λ r b.
            (look_up-Within rt opts context limits.schema (path_text (path_of arg)) (some r.0) r.1 k
              n b rest).0),
        omega (
          arith,
          (look_up-Within rt opts context limits.schema (path_text (path_of arg)) none k k n
              (omega arith) rest).1,
        ),
      )

  first_of-Within :
      (es : List Eval) (ls : List Lint) (depth ops lops n : ℕ)
      → FollowsAll es ls
      → HasOperand negation es
      → ops ≤ lops
      → lint_all ls depth lops ≡ done n
      → Within n (first_of rt opts es depth ops)
  unfolding first_of lint_all
  first_of-Within [] ls depth ops lops n f has' le h = absurd has'
  first_of-Within (e ∷ es) [] depth ops lops n f has' le h = absurd f
  first_of-Within (e ∷ es) (l ∷ ls) depth ops lops n (f, fs) has' le h =
      let (k, first, rest) = >>=-eq-done (l depth lops) (λ (k : ℕ). lint_all ls depth k) h in
      Within-le k n (e depth ops) (lint_all_le es ls depth k n fs rest)
        (f depth ops lops k le first).0

  pub apply_op-Within :
      (op : Operator) (arg : Value) (es : List Eval) (ls : List Lint) (depth ops lops n : ℕ)
      → FollowsAll es ls
      → HasOperand op es
      → ops ≤ lops
      → lint_op limits op arg ls depth lops ≡ done n
      → Within n (apply_op rt opts context op arg es depth ops) × (lops ≤ n)
  unfolding apply_op lint_op
  apply_op-Within var arg es ls depth ops lops n f has' le h =
      resolve_var-Within arg (second es) (second ls) depth ops lops n (second-FollowsSecond es ls f)
        le h
  apply_op-Within has arg es ls depth ops lops n f has' le h =
      let grows =
        (resolve_var-Within arg (second es) (second ls) depth ops lops n
          (second-FollowsSecond es ls f) le h).1 in
      (omega arith, grows)
  apply_op-Within both arg es ls depth ops lops n f has' le h =
      (run_both-Within es ls depth ops lops n f le h, lint_all_le es ls depth lops n f h)
  apply_op-Within either arg es ls depth ops lops n f has' le h =
      (run_either-Within es ls depth ops lops n f le h, lint_all_le es ls depth lops n f h)
  apply_op-Within choose arg es ls depth ops lops n f has' le h =
      (run_choose-Within es ls depth ops lops n f le h, lint_all_le es ls depth lops n f h)
  apply_op-Within negation arg es ls depth ops lops n f has' le h = (
    bind-Within n n (first_of rt opts es depth ops) _
        (first_of-Within es ls depth ops lops n f has' le h) (λ r b. b),
    lint_all_le es ls depth lops n f h,
  )
  apply_op-Within truth arg es ls depth ops lops n f has' le h = (
    bind-Within n n (first_of rt opts es depth ops) _
        (first_of-Within es ls depth ops lops n f has' le h) (λ r b. b),
    lint_all_le es ls depth lops n f h,
  )
  apply_op-Within (on_values op) arg es ls depth ops lops n f has' le h = (
    bind-Within n n (run_all es depth ops) _ (run_all-Within es ls depth ops lops n f le h)
        (λ r b. apply_value_op-Within rt opts op r.0 r.1 n b),
    lint_all_le es ls depth lops n f h,
  )
