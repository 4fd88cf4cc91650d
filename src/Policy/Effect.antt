-- ===== src/Policy/Effect.antt =====
-- src/server/modules/policy/effect.ts: the one applier of a rule's effect, within the bounds that
-- were authored for the entitlement. A descriptor comes from JSON, so its kind is a text.
use Prim.Native.String.{String}
use text.Mathlib.Text.{◌==◌ as str_eq}
use license_srv.Prelude.{
  Bool, true, false, not, ◌||◌, Option, none, some, if◌then◌else◌, ℤ, pos, min_ℤ, max_ℤ,
}
use license_srv.Js.{Number, finite, infinite, nan, Value, flag, number, Items, nil, cons, eq_ℤ}

pub data EffectKind : Type 0 where
  adjust_limit toggle_boolean select_tier : EffectKind

pub record PolicyEffect : Type 0 where
  pub kind : String
  pub target : String
  pub value : Value

pub record EntitlementBounds : Type 0 where
  pub rule_max : Option Number
  pub rule_eligible : Bool
  pub rule_tiers : Option Items
  pub absolute_max : Option Number

pub data Refusal : Type 0 where
  invalid_value no_rule_max not_rule_eligible tier_not_defined unknown_kind : Refusal
  -- What the caller of `applyEffect` puts for an error that it throws.
  invalid_effect : Refusal

-- The value that an effect gives: `number | boolean`.
pub data Decided : Type 0 where
  amount : ℤ → Decided
  switch : Bool → Decided

pub data ApplyEffectResult : Type 0 where
  applied : Decided → (clamped : Bool) → ApplyEffectResult
  refused : Refusal → ApplyEffectResult

-- The finite number that is given, if one is.
unfoldable pub finite_part : Option Number → Option ℤ
finite_part none = none
finite_part (some (finite n)) = some n
finite_part (some (infinite b)) = none
finite_part (some nan) = none

unfoldable pub ceiling_of : Option ℤ → Option ℤ → Option ℤ
ceiling_of none absolute = none
ceiling_of (some max) none = some max
ceiling_of (some max) (some absolute) = some (min_ℤ max absolute)

unfoldable pub resolve_ceiling : EntitlementBounds → Option ℤ
unfolding ceiling_of finite_part
resolve_ceiling bounds = ceiling_of (finite_part bounds.rule_max) (finite_part bounds.absolute_max)

-- A tier that is a finite number, and equal.
unfoldable pub is_tier : ℤ → Value → Bool
unfolding eq_ℤ
is_tier n (number (finite t)) = eq_ℤ t n
is_tier n _ = false

unfoldable pub any_tier : ℤ → Items → Bool
unfolding is_tier
any_tier n nil = false
any_tier n (cons t ts) = is_tier n t || any_tier n ts

unfoldable pub tier_allowed : ℤ → Option Items → Bool
unfolding any_tier
tier_allowed n none = false
tier_allowed n (some tiers) = any_tier n tiers

-- The value, where it is a finite number, and where it is a Boolean.
unfoldable pub finite_value : Value → Option ℤ
finite_value (number (finite n)) = some n
finite_value _ = none

unfoldable pub flag_value : Value → Option Bool
flag_value (flag b) = some b
flag_value _ = none

unfoldable pub clamp : ℤ → Option ℤ → ApplyEffectResult
unfolding eq_ℤ
clamp n none = refused no_rule_max
clamp n (some ceiling) =
    let bounded = max_ℤ (pos 0) (min_ℤ n ceiling) in applied (amount bounded) (not (eq_ℤ bounded n))

unfoldable pub adjust : Option ℤ → Option ℤ → ApplyEffectResult
unfolding clamp
adjust none ceiling = refused invalid_value
adjust (some n) ceiling = clamp n ceiling

unfoldable pub toggle : Option Bool → (eligible : Bool) → ApplyEffectResult
toggle none eligible = refused invalid_value
toggle (some b) true = applied (switch b) false
toggle (some b) false = refused not_rule_eligible

unfoldable pub select : Option ℤ → Option Items → ApplyEffectResult
unfolding tier_allowed
select none tiers = refused invalid_value
select (some n) tiers =
    if tier_allowed n tiers then applied (amount n) false else refused tier_not_defined

unfoldable pub kind_of : String → Option EffectKind
kind_of kind =
    if str_eq kind "adjust_limit"
    then some adjust_limit
    else if str_eq kind "toggle_boolean"
    then some toggle_boolean
    else if str_eq kind "select_tier"
    then some select_tier
    else none

unfoldable pub apply_kind : Option EffectKind → Value → EntitlementBounds → ApplyEffectResult
unfolding adjust toggle select resolve_ceiling finite_value flag_value
apply_kind none value bounds = refused unknown_kind
apply_kind (some adjust_limit) value bounds = adjust (finite_value value) (resolve_ceiling bounds)
apply_kind (some toggle_boolean) value bounds = toggle (flag_value value) bounds.rule_eligible
apply_kind (some select_tier) value bounds = select (finite_value value) bounds.rule_tiers

unfoldable pub apply_effect : PolicyEffect → EntitlementBounds → ApplyEffectResult
unfolding apply_kind kind_of
apply_effect effect bounds = apply_kind (kind_of effect.kind) effect.value bounds
