-- ===== src/Policy/Bounded.antt =====
-- What an effect may give: src/server/modules/policy/effect.ts.
use license_srv.Prelude.{
  ◌≡◌, refl, ◌⊎◌, inl, inr, Bool, true, false, Option, none, some, ℤ, pos, min_ℤ, max_ℤ, ◌≤ℤ◌,
  arith, Bool-cases,
}
use license_srv.Js.{Value, undefined, null, flag, number, string, array, object}
use license_srv.Policy.Effect.{
  EffectKind, adjust_limit, toggle_boolean, select_tier, EntitlementBounds, Decided, amount, switch,
  ApplyEffectResult, applied, refused, finite_part, ceiling_of, resolve_ceiling, tier_allowed,
  finite_value, flag_value, clamp, adjust, toggle, select, apply_kind,
}
use license_srv.Policy.Resolve.{apply_descriptor}

-- At most a bound that is a finite number, or nothing where it is negative.
abbrev pub UnderCap : ℤ → Option ℤ → Type 0
UnderCap n none = Unit
UnderCap n (some cap) = n ≤ℤ max_ℤ (pos 0) cap

abbrev pub UnderMax : ℤ → Option ℤ → Type 0
UnderMax n none = ⊥
UnderMax n (some cap) = n ≤ℤ max_ℤ (pos 0) cap

-- A number is one of the tiers, or is not negative and is within both bounds, the first of which
-- must be there; a Boolean is given only where the entitlement is eligible.
abbrev pub InBounds : EntitlementBounds → Decided → Type 0
InBounds bounds (amount n) =
    (tier_allowed n bounds.rule_tiers ≡ true)
    ⊎ ((pos 0 ≤ℤ n)
        × UnderMax n (finite_part bounds.rule_max)
        × UnderCap n (finite_part bounds.absolute_max))
InBounds bounds (switch b) = bounds.rule_eligible ≡ true

abbrev pub ResultInBounds : EntitlementBounds → ApplyEffectResult → Type 0
ResultInBounds bounds (applied d clamped) = InBounds bounds d
ResultInBounds bounds (refused reason) = Unit

clamped_pos : (n m : ℤ) → pos 0 ≤ℤ max_ℤ (pos 0) (min_ℤ n m)
clamped_pos n m = ground arith

clamped_le : (n m : ℤ) → max_ℤ (pos 0) (min_ℤ n m) ≤ℤ max_ℤ (pos 0) m
clamped_le n m = ground arith

max_mono : (a b : ℤ) → a ≤ℤ b → max_ℤ (pos 0) a ≤ℤ max_ℤ (pos 0) b
max_mono a b h = ground arith

min_left : (a b : ℤ) → min_ℤ a b ≤ℤ a
min_left a b = ground arith

min_right : (a b : ℤ) → min_ℤ a b ≤ℤ b
min_right a b = ground arith

le_trans : (a b c : ℤ) → a ≤ℤ b → b ≤ℤ c → a ≤ℤ c
le_trans a b c h k = omega arith

adjust-InBounds :
    (bounds : EntitlementBounds) (n max absolute : Option ℤ)
    → finite_part bounds.rule_max ≡ max
    → finite_part bounds.absolute_max ≡ absolute
    → ResultInBounds bounds (adjust n (ceiling_of max absolute))
unfolding adjust clamp ceiling_of
adjust-InBounds bounds none max absolute e f = tt
adjust-InBounds bounds (some n) none absolute e f = tt
adjust-InBounds bounds (some n) (some m) none e f =
    inr (rw (e, f) (clamped_pos n m, clamped_le n m, tt))
adjust-InBounds bounds (some n) (some m) (some a) e f =
    let c = min_ℤ m a in
    let b = max_ℤ (pos 0) (min_ℤ n c) in
    inr (
      rw (e, f)
        (
          clamped_pos n c,
          le_trans b (max_ℤ (pos 0) c) (max_ℤ (pos 0) m) (clamped_le n c)
              (max_mono c m (min_left m a)),
          le_trans b (max_ℤ (pos 0) c) (max_ℤ (pos 0) a) (clamped_le n c)
              (max_mono c a (min_right m a)),
        ))

toggle-InBounds :
    (bounds : EntitlementBounds) (b : Option Bool) (eligible : Bool)
    → bounds.rule_eligible ≡ eligible
    → ResultInBounds bounds (toggle b eligible)
unfolding toggle
toggle-InBounds bounds none eligible e = tt
toggle-InBounds bounds (some b) true e = e
toggle-InBounds bounds (some b) false e = tt

select-InBounds :
    (bounds : EntitlementBounds) (n : Option ℤ) → ResultInBounds bounds (select n bounds.rule_tiers)
unfolding select
select-InBounds bounds none = tt
select-InBounds bounds (some n) = elim (Bool-cases (tier_allowed n bounds.rule_tiers)) [
  | inl e ↦ rw e (inl e)
  | inr e ↦ rw e tt
]

apply_kind-InBounds :
    (kind : Option EffectKind) (value : Value) (bounds : EntitlementBounds)
    → ResultInBounds bounds (apply_kind kind value bounds)
unfolding apply_kind resolve_ceiling
apply_kind-InBounds none value bounds = tt
apply_kind-InBounds (some adjust_limit) value bounds =
    adjust-InBounds bounds (finite_value value) _ _ refl refl
apply_kind-InBounds (some toggle_boolean) value bounds =
    toggle-InBounds bounds (flag_value value) bounds.rule_eligible refl
apply_kind-InBounds (some select_tier) value bounds = select-InBounds bounds (finite_value value)

pub apply_descriptor-InBounds :
    (effect : Value) (bounds : EntitlementBounds)
    → ResultInBounds bounds (apply_descriptor effect bounds)
unfolding apply_descriptor
apply_descriptor-InBounds undefined bounds = tt
apply_descriptor-InBounds null bounds = tt
apply_descriptor-InBounds (flag b) bounds = tt
apply_descriptor-InBounds (number n) bounds = tt
apply_descriptor-InBounds (string s) bounds = tt
apply_descriptor-InBounds (array xs) bounds = tt
apply_descriptor-InBounds (object fields) bounds = apply_kind-InBounds _ _ bounds
