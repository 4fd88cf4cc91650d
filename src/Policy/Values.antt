-- ===== src/Policy/Values.antt =====
-- src/server/modules/policy/condition.ts: the operators on values.
use Prim.Native.String.{String}
use text.Mathlib.Text.{◌==◌ as str_eq}
use license_srv.Prelude.{Bool, true, false, not, ◌||◌, List, [], ◌∷◌, if◌then◌else◌, pos}
use license_srv.Js.{
  Number, finite, infinite, nan, Value, undefined, null, flag, number, string, array, object, Items,
  nil, cons, num_eq, num_le, num_lt, negate,
}
use license_srv.Policy.Outcome.{Outcome, done, failed}
use license_srv.Policy.Condition.{
  ConditionError, arithmetic_error, Runtime, ValueOperator, equal, not_equal, less, less_equal,
  greater, greater_equal, member, plus, times, minus, over, modulo, least, greatest,
}

module _ (rt : Runtime) where
  unfoldable pub to_num : Value → Number
  to_num (number n) = n
  to_num (flag true) = finite rt.one
  to_num (flag false) = finite (pos 0)
  to_num (string s) = if rt.is_blank s then nan else rt.number_of s
  to_num _ = nan

  -- `a === b`.
  unfoldable pub strict_eq : Value → Value → Bool
  unfolding num_eq
  strict_eq undefined undefined = true
  strict_eq null null = true
  strict_eq (flag a) (flag b) = if a then b else not b
  strict_eq (number a) (number b) = num_eq a b
  strict_eq (string a) (string b) = str_eq a b
  strict_eq (array a) b = rt.same_object (array a) b
  strict_eq (object a) b = rt.same_object (object a) b
  strict_eq _ _ = false

  unfoldable pub any_item : Value → Items → Bool
  unfolding strict_eq
  any_item a nil = false
  any_item a (cons v rest) = strict_eq v a || any_item a rest

  unfoldable pub text_in : Value → String → Bool
  text_in (string part) whole = rt.includes whole part
  text_in _ whole = false

  unfoldable pub is_in : Value → Value → Bool
  unfolding text_in any_item
  is_in a (string whole) = text_in a whole
  is_in a (array items) = any_item a items
  is_in a _ = false

  unfoldable pub finite_or_throw : Number → Outcome ConditionError Value
  finite_or_throw (finite n) = done (number (finite n))
  finite_or_throw _ = failed arithmetic_error

  unfoldable pub fold : (Number → Number → Number) → Number → List Value → Number
  unfolding to_num
  fold f acc [] = acc
  fold f acc (v ∷ vs) = fold f (f acc (to_num v)) vs

  -- `Math.min` and `Math.max` of two: NaN if either is.
  unfoldable pub least_of : Number → Number → Number
  unfolding num_le
  least_of nan b = nan
  least_of a nan = nan
  least_of a b = if num_le a b then a else b

  unfoldable pub greatest_of : Number → Number → Number
  unfolding num_le
  greatest_of nan b = nan
  greatest_of a nan = nan
  greatest_of a b = if num_le a b then b else a

  unfoldable pub arg_at : List Value → (is_second : Bool) → Value
  arg_at [] b = undefined
  arg_at (v ∷ vs) false = v
  arg_at (v ∷ []) true = undefined
  arg_at (v ∷ w ∷ vs) true = w

  unfoldable pub subtraction : List Value → Number
  unfolding to_num arg_at negate
  subtraction (a ∷ []) = negate (to_num a)
  subtraction vs = rt.subtract (to_num (arg_at vs false)) (to_num (arg_at vs true))

  unfoldable pub apply_value_op : ValueOperator → List Value → Outcome ConditionError Value
  unfolding arg_at strict_eq is_in finite_or_throw fold least_of greatest_of subtraction num_lt
      num_le to_num
  apply_value_op equal vs = done (flag (strict_eq (arg_at vs false) (arg_at vs true)))
  apply_value_op not_equal vs = done (flag (not (strict_eq (arg_at vs false) (arg_at vs true))))
  apply_value_op less vs = done (flag (num_lt (to_num (arg_at vs false)) (to_num (arg_at vs true))))
  apply_value_op less_equal vs =
      done (flag (num_le (to_num (arg_at vs false)) (to_num (arg_at vs true))))
  apply_value_op greater vs =
      done (flag (num_lt (to_num (arg_at vs true)) (to_num (arg_at vs false))))
  apply_value_op greater_equal vs =
      done (flag (num_le (to_num (arg_at vs true)) (to_num (arg_at vs false))))
  apply_value_op member vs = done (flag (is_in (arg_at vs false) (arg_at vs true)))
  apply_value_op plus vs = finite_or_throw (fold rt.add (finite (pos 0)) vs)
  apply_value_op times vs = finite_or_throw (fold rt.multiply (finite rt.one) vs)
  apply_value_op minus vs = finite_or_throw (subtraction vs)
  apply_value_op over vs =
      finite_or_throw (rt.divide (to_num (arg_at vs false)) (to_num (arg_at vs true)))
  apply_value_op modulo vs =
      finite_or_throw (rt.remainder (to_num (arg_at vs false)) (to_num (arg_at vs true)))
  apply_value_op least vs = finite_or_throw (fold least_of (infinite false) vs)
  apply_value_op greatest vs = finite_or_throw (fold greatest_of (infinite true) vs)
