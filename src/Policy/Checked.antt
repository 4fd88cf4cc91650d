-- ===== src/Policy/Checked.antt =====
-- A condition that passes the check of src/server/modules/policy/validate.ts, evaluated by
-- condition.ts on any context.
use license_srv.Prelude.{ℕ, ◌≤◌, ◌≡◌, refl, Bool, true, false, Option, none, some, arith, ltb}
use license_srv.Js.{Value, undefined, null, flag, number, string, array, object, Fields, truthy}
use license_srv.Policy.Outcome.{Outcome, done, failed, ◌>>=◌}
use license_srv.Policy.Condition.{ConditionError, Runtime, EvaluateConditionOptions}
use license_srv.Policy.Evaluator.{
  compile, with_now, is_serializable, size_error, evaluate_sized, evaluate_condition,
}
use license_srv.Policy.Validate.{LintLimits, lint_node, validate_sized, validate_condition}
use license_srv.Policy.Follows.{IsBenign, Within}
use license_srv.Policy.Compiled.{has_operands, compile-FollowsNode}

-- What an evaluation gives: an answer, or a failure that depends on the data or the clock.
abbrev pub Answers : Outcome ConditionError Bool → Type 0
Answers (done b) = Unit
Answers (failed e) = IsBenign e

answer_of :
    (n : ℕ) (m : Outcome ConditionError (Value × ℕ))
    → Within n m
    → Answers (m >>= (λ (r : Value × ℕ). done (truthy r.0)))
answer_of n (done r) w = tt
answer_of n (failed e) w = w

abbrev pub FitsIn : ℕ → Option ℕ → Type 0
FitsIn max none = Unit
FitsIn max (some n) = max ≤ n

fits_bytes :
    (max bytes : ℕ) (limit : Option ℕ)
    → ltb max bytes ≡ false
    → FitsIn max limit
    → size_error limit true bytes ≡ none
unfolding size_error
fits_bytes max bytes none h f = refl
fits_bytes max bytes (some n) h f = ground arith

sized_ok :
    (limits : LintLimits) (oversized : Bool) (v : Value) (n : ℕ)
    → validate_sized limits oversized v ≡ done n
    → (oversized ≡ false) × ((lint_node limits v).self 0 0 ≡ done n)
unfolding validate_sized
sized_ok limits true v n h = cc
sized_ok limits false v n h = (refl, h)

validate_condition_ok :
    (limits : LintLimits) (max_bytes : ℕ) (bytes : Value → ℕ) (v : Value) (n : ℕ)
    → validate_condition limits max_bytes bytes v ≡ done n
    → (is_serializable v ≡ true)
      × (ltb max_bytes (bytes v) ≡ false)
      × ((lint_node limits v).self 0 0 ≡ done n)
unfolding validate_condition is_serializable
validate_condition_ok limits max_bytes bytes undefined n h = cc
validate_condition_ok limits max_bytes bytes null n h = cc
validate_condition_ok limits max_bytes bytes (flag b) n h = cc
validate_condition_ok limits max_bytes bytes (number x) n h = cc
validate_condition_ok limits max_bytes bytes (string s) n h = cc
validate_condition_ok limits max_bytes bytes (array xs) n h = cc
validate_condition_ok limits max_bytes bytes (object fs) n h =
    let (small, checked) = sized_ok limits (ltb max_bytes (bytes (object fs))) (object fs) n h in
    (refl, small, checked)

-- A condition that the author's check has passed, in which no `!` or `!!` stands without an operand,
-- is evaluated on every context, under limits that are at least the check's, to an answer or to a
-- failure that depends on the data or the clock: a field that is not there, arithmetic that is not
-- finite, or a timeout. It never meets an operator or a path that is refused, a malformed node, or
-- the limits of size, depth and complexity.
pub validate_condition-Answers :
    (rt : Runtime) (opts : EvaluateConditionOptions) (limits : LintLimits) (max_bytes n : ℕ)
    (condition : Value) (context : Fields)
    → limits.max_depth ≤ opts.max_depth
    → limits.max_complexity ≤ opts.max_complexity
    → FitsIn max_bytes opts.max_bytes
    → has_operands condition ≡ true
    → validate_condition limits max_bytes rt.serialized_bytes condition ≡ done n
    → Answers (evaluate_condition rt opts condition context)
unfolding evaluate_condition evaluate_sized
validate_condition-Answers rt opts limits max_bytes n condition context deep wide fits operands h =
    let (text, small, checked) =
      validate_condition_ok limits max_bytes rt.serialized_bytes condition n h in
    let under = object (with_now opts.now context) in
    let f = (compile-FollowsNode rt opts limits under deep wide condition operands).0 in
    rw (text, fits_bytes max_bytes (rt.serialized_bytes condition) opts.max_bytes small fits)
      (answer_of n ((compile rt opts under condition).self 0 0) (f 0 0 0 n (omega arith) checked).0)
