-- ===== src/Policy/Context.antt =====
-- src/server/modules/policy/context.ts: the context that a condition is evaluated in, assembled from
-- the fields that are allowed, and its limits. The size of its serialization is a parameter.
use Prim.Native.String.{String}
use text.Mathlib.Text.{◌==◌ as str_eq}
use license_srv.Prelude.{
  ℕ, suc, ◌+◌, max, Bool, true, false, ◌&&◌, Option, none, some, List, [], ◌∷◌, if◌then◌else◌, ltb,
}
use license_srv.Js.{
  Number, finite, Value, flag, number, string, array, object, Items, nil, cons, Fields, end, field,
  own_field, is_finite,
}
use license_srv.Policy.Outcome.{Outcome, done, failed, ◌>>=◌}
use license_srv.Policy.Validate.{license_fields, plan_fields, entitlement_fields}

pub data ContextError : Type 0 where
  context_too_large context_too_deep context_too_many_fields : ContextError

pub record DecisionContextSources : Type 0 where
  pub decision_timestamp : Number
  pub license : Option Fields
  pub plan : Option Fields
  pub entitlement : Option Fields
  pub usage : Option Fields

pub record BuildContextOptions : Type 0 where
  pub max_bytes : Option ℕ
  pub max_depth : Option ℕ
  pub max_fields : Option ℕ

unfoldable pub is_primitive_leaf : Value → Bool
unfolding is_finite
is_primitive_leaf (number n) = is_finite n
is_primitive_leaf (string s) = true
is_primitive_leaf (flag b) = true
is_primitive_leaf _ = false

unfoldable pub all_leaves : Items → Bool
unfolding is_primitive_leaf
all_leaves nil = true
all_leaves (cons v rest) = is_primitive_leaf v && all_leaves rest

-- A leaf, or an array of leaves.
unfoldable pub is_copied : Value → Bool
unfolding is_primitive_leaf all_leaves
is_copied (array xs) = all_leaves xs
is_copied v = is_primitive_leaf v

unfoldable pub pick_key : Option Value → String → Fields → Fields
unfolding is_copied
pick_key none key out = out
pick_key (some v) key out = if is_copied v then field key v out else out

unfoldable pub pick_allowed : Fields → List String → Fields
unfolding pick_key own_field
pick_allowed source [] = end
pick_allowed source (key ∷ keys) = pick_key (own_field source key) key (pick_allowed source keys)

-- A number put under `__proto__` of an object is lost.
unfoldable pub pick_count : (key : String) → Value → Fields → Fields
pick_count key (number (finite n)) out =
    if str_eq key "__proto__" then out else field key (number (finite n)) out
pick_count key _ out = out

unfoldable pub pick_usage : Fields → Fields
unfolding pick_count
pick_usage end = end
pick_usage (field key v rest) = pick_count key v (pick_usage rest)

unfoldable mutual
  pub json_depth : Value → ℕ
  json_depth (array xs) = suc (items_depth xs)
  json_depth (object fields) = suc (fields_depth fields)
  json_depth _ = 1

  pub items_depth : Items → ℕ
  items_depth nil = 0
  items_depth (cons v rest) = max (json_depth v) (items_depth rest)

  pub fields_depth : Fields → ℕ
  fields_depth end = 0
  fields_depth (field k v rest) = max (json_depth v) (fields_depth rest)

unfoldable mutual
  pub count_leaf_fields : Value → ℕ
  count_leaf_fields (array xs) = count_item_leaves xs
  count_leaf_fields (object fields) = count_field_leaves fields
  count_leaf_fields _ = 1

  pub count_item_leaves : Items → ℕ
  count_item_leaves nil = 0
  count_item_leaves (cons v rest) = count_leaf_fields v + count_item_leaves rest

  pub count_field_leaves : Fields → ℕ
  count_field_leaves end = 0
  count_field_leaves (field k v rest) = count_leaf_fields v + count_field_leaves rest

unfoldable pub or_default : Option ℕ → ℕ → ℕ
or_default none dflt = dflt
or_default (some n) dflt = n

unfoldable pub enforce_context_bounds :
    (serialized_bytes : Value → ℕ) → Value → BuildContextOptions → Outcome ContextError Unit
unfolding or_default json_depth count_leaf_fields
enforce_context_bounds serialized_bytes context opts =
    if ltb (or_default opts.max_bytes 16384) (serialized_bytes context)
    then failed context_too_large
    else if ltb (or_default opts.max_depth 8) (json_depth context)
    then failed context_too_deep
    else if ltb (or_default opts.max_fields 128) (count_leaf_fields context)
    then failed context_too_many_fields
    else done tt

-- A section that is there only if its source is.
unfoldable pub add_section : String → Option Fields → Fields → Fields
add_section name none rest = rest
add_section name (some section) rest = field name (object section) rest

unfoldable pub pick_from : Option Fields → List String → Option Fields
unfolding pick_allowed
pick_from none allow = none
pick_from (some source) allow = some (pick_allowed source allow)

unfoldable pub usage_from : Option Fields → Option Fields
unfolding pick_usage
usage_from none = none
usage_from (some source) = some (pick_usage source)

unfoldable pub assemble_context : DecisionContextSources → Fields
unfolding add_section pick_from usage_from
assemble_context sources = field "now" (number sources.decision_timestamp) (
    add_section "license" (pick_from sources.license license_fields) (
      add_section "plan" (pick_from sources.plan plan_fields) (
        add_section "entitlement" (pick_from sources.entitlement entitlement_fields)
          (add_section "usage" (usage_from sources.usage) end))))

unfoldable pub build_decision_context :
    (serialized_bytes : Value → ℕ)
    → DecisionContextSources
    → BuildContextOptions
    → Outcome ContextError Fields
unfolding assemble_context enforce_context_bounds
build_decision_context serialized_bytes sources opts =
    let context = assemble_context sources in
    enforce_context_bounds serialized_bytes (object context) opts >>= (λ (ok : Unit). done context)
