-- ===== src/Policy/Condition.antt =====
-- src/server/modules/policy/condition.ts: what the evaluator of a rule's condition is made of. A condition is
-- compiled to a function of the depth and of the count of nodes visited, so that what the source
-- does not evaluate is not evaluated. The arithmetic of doubles, the reading of a text as a number,
-- the search of a text in a text, the identity of objects and the clock are parameters.
use Prim.Native.String.{String}
use text.Mathlib.Text.{◌==◌ as str_eq}
use license_srv.Prelude.{
  ℕ, Bool, true, false, ◌||◌, Option, none, some, List, [], ◌∷◌, if◌then◌else◌, ℤ,
}
use license_srv.Js.{
  Number, Value, undefined, null, flag, string, array, Items, nil, cons, own_property, truthy,
}
use license_srv.Policy.Outcome.{Outcome, done, ◌>>=◌}

pub data ConditionError : Type 0 where
  unsafe_operator invalid_condition missing_field arithmetic_error : ConditionError
  max_complexity_exceeded max_depth_exceeded timeout max_size_exceeded : ConditionError

-- What the language and its host give.
pub record Runtime : Type 0 where
  pub one : ℤ
  pub add : Number → Number → Number
  pub multiply : Number → Number → Number
  pub subtract : Number → Number → Number
  pub divide : Number → Number → Number
  pub remainder : Number → Number → Number
  pub is_blank : String → Bool
  pub number_of : String → Number
  pub includes : (whole part : String) → Bool
  pub same_object : Value → Value → Bool
  pub serialized_bytes : Value → ℕ

pub data ValueOperator : Type 0 where
  equal not_equal less less_equal greater greater_equal member : ValueOperator
  plus times minus over modulo least greatest : ValueOperator

pub data Operator : Type 0 where
  var has both either choose negation truth : Operator
  on_values : ValueOperator → Operator

-- `ALLOWED_OPERATORS`, with the case of the dispatch that each name takes.
abbrev pub allowed_operators : List (String × Operator)
allowed_operators =
    ("==", on_values equal)
    ∷ ("===", on_values equal)
    ∷ ("!=", on_values not_equal)
    ∷ ("!==", on_values not_equal)
    ∷ ("<", on_values less)
    ∷ ("<=", on_values less_equal)
    ∷ (">", on_values greater)
    ∷ (">=", on_values greater_equal)
    ∷ ("and", both)
    ∷ ("or", either)
    ∷ ("!", negation)
    ∷ ("!!", truth)
    ∷ ("in", on_values member)
    ∷ ("if", choose)
    ∷ ("var", var)
    ∷ ("has", has)
    ∷ ("+", on_values plus)
    ∷ ("-", on_values minus)
    ∷ ("*", on_values times)
    ∷ ("/", on_values over)
    ∷ ("%", on_values modulo)
    ∷ ("min", on_values least)
    ∷ ("max", on_values greatest)
    ∷ []

unfoldable pub operator_in : List (String × Operator) → String → Option Operator
operator_in [] name = none
operator_in (o ∷ os) name =
    let rest = operator_in os name in if str_eq o.0 name then some o.1 else rest

abbrev pub operator_of : String → Option Operator
operator_of name = operator_in allowed_operators name

-- `FORBIDDEN_PATH_KEYS`.
unfoldable pub is_forbidden : String → Bool
is_forbidden seg = str_eq seg "__proto__" || str_eq seg "prototype" || str_eq seg "constructor"

pub record EvaluateConditionOptions : Type 0 where
  pub max_bytes : Option ℕ
  pub max_depth : ℕ
  pub max_complexity : ℕ
  pub now : Option Number
  -- Whether the clock is past the deadline, if there is one, at the n-th node.
  pub is_late : ℕ → Bool

-- The value of a node and the count of nodes after it, from its depth and the count before it.
abbrev pub Eval : Type 0
Eval = (depth ops : ℕ) → Outcome ConditionError (Value × ℕ)

-- A path that was followed.
pub data Walk : Type 0 where
  forbidden absent : Walk
  found : Value → Walk

-- One segment: refused, not there, or followed.
unfoldable pub step_walk : (refused : Bool) → Option Value → (Value → Walk) → Walk
step_walk true v rest = forbidden
step_walk false none rest = absent
step_walk false (some v) rest = rest v

unfoldable pub walk : (one : ℤ) → List String → Value → Walk
unfolding is_forbidden own_property step_walk
walk one [] cursor = found cursor
walk one (seg ∷ segments) cursor =
    step_walk (is_forbidden seg) (own_property one cursor seg) (walk one segments)

unfoldable pub path_of : Value → Value
path_of (array nil) = undefined
path_of (array (cons path rest)) = path
path_of v = v

unfoldable pub path_text : Value → Option String
path_text (string path) = if str_eq path "" then none else some path
path_text _ = none

-- The second element of an argument that is an array of two at least.
unfoldable pub second {ℓ} : {A : Type ℓ} → List A → Option A
second [] = none
second (a ∷ []) = none
second (a ∷ b ∷ rest) = some b

-- `truthy` of a result.
abbrev pub tested : Value × ℕ → Bool × ℕ
tested r = (truthy r.0, r.1)

abbrev pub Values : Type 0
Values = Outcome ConditionError (List Value × ℕ)

unfoldable pub run_all : List Eval → (depth ops : ℕ) → Values
run_all [] depth ops = done ([], ops)
run_all (e ∷ es) depth ops = e depth ops >>= (λ (r : Value × ℕ).
    run_all es depth r.1 >>= (λ (rs : List Value × ℕ). done (r.0 ∷ rs.0, rs.1)))

unfoldable pub run_both : List Eval → Eval
run_both [] depth ops = done (flag true, ops)
run_both (e ∷ es) depth ops = e depth ops >>= (λ (r : Value × ℕ). elim (truthy r.0) [
  | true ↦ run_both es depth r.1
  | false ↦ done (flag false, r.1)
])

unfoldable pub run_either : List Eval → Eval
run_either [] depth ops = done (flag false, ops)
run_either (e ∷ es) depth ops = e depth ops >>= (λ (r : Value × ℕ). elim (truthy r.0) [
  | true ↦ done (flag true, r.1)
  | false ↦ run_either es depth r.1
])

unfoldable pub run_choose : List Eval → Eval
run_choose [] depth ops = done (null, ops)
run_choose (e ∷ []) depth ops = e depth ops
run_choose (c ∷ e ∷ es) depth ops = c depth ops >>= (λ (r : Value × ℕ). elim (truthy r.0) [
  | true ↦ e depth r.1
  | false ↦ run_choose es depth r.1
])

unfoldable pub items_of : List Value → Items
items_of [] = nil
items_of (v ∷ vs) = cons v (items_of vs)
