-- ===== src/Policy/Asked.antt =====
-- What the check of an author (src/server/modules/policy/validate.ts) says of an effect (effect.ts).
use license_srv.Prelude.{
  ◌≡◌, refl, sym, ap, ◌∙◌, eq_of_≤ℤ, leb_ℤ→≤ℤ, inl, inr, Bool, true, false, not, Option, none, some,
  ℤ, arith, Bool-cases,
}
use license_srv.Js.{
  finite, infinite, nan, Value, undefined, null, flag, number, string, array, object, Items,
  own_field, eq_ℤ,
}
use license_srv.Policy.Outcome.{done}
use license_srv.Policy.Effect.{
  Refusal, EffectKind, adjust_limit, toggle_boolean, select_tier, EntitlementBounds, Decided,
  amount, switch, ApplyEffectResult, applied, refused, resolve_ceiling, tier_allowed, finite_value,
  flag_value, clamp, adjust, toggle, select, apply_kind,
}
use license_srv.Policy.Resolve.{or_undefined, apply_descriptor}
use license_srv.Policy.Authoring.{accept, accept_if, validate_kind, validate_effect}

-- The value that a descriptor asks for, and a value that was decided, as values of the language.
abbrev pub requested : Value → Value
requested (object fields) = or_undefined (own_field fields "value")
requested _ = undefined

abbrev pub value_of : Decided → Value
value_of (amount n) = number (finite n)
value_of (switch b) = flag b

-- A result that is applied as it was asked for.
abbrev pub AppliedAs : Value → ApplyEffectResult → Type 0
AppliedAs v r = (d : Decided) × (r ≡ applied d false) × (value_of d ≡ v)

number_asked : (v : Value) (n : ℤ) → finite_value v ≡ some n → number (finite n) ≡ v
unfolding finite_value
number_asked undefined n h = cc
number_asked null n h = cc
number_asked (flag b) n h = cc
number_asked (number (finite m)) n h = cc
number_asked (number (infinite b)) n h = cc
number_asked (number nan) n h = cc
number_asked (string s) n h = cc
number_asked (array xs) n h = cc
number_asked (object fields) n h = cc

flag_asked : (v : Value) (b : Bool) → flag_value v ≡ some b → flag b ≡ v
unfolding flag_value
flag_asked undefined b h = cc
flag_asked null b h = cc
flag_asked (flag c) b h = cc
flag_asked (number n) b h = cc
flag_asked (string s) b h = cc
flag_asked (array xs) b h = cc
flag_asked (object fields) b h = cc

eq_ℤ→≡ : (a b : ℤ) → not (eq_ℤ a b) ≡ false → a ≡ b
unfolding eq_ℤ
eq_ℤ→≡ a b h = eq_of_≤ℤ a b (leb_ℤ→≤ℤ a b (ground arith)) (leb_ℤ→≤ℤ b a (ground arith))

applied_parts : (a b : Decided) (c : Bool) → applied a c ≡ applied b false → (a ≡ b) × (c ≡ false)
applied_parts a b c h = (cc, cc)

adjust_asked :
    (o c : Option ℤ) (d : Decided)
    → adjust o c ≡ applied d false
    → (n : ℤ) × (o ≡ some n) × (d ≡ amount n)
unfolding adjust clamp
adjust_asked none c d h = cc
adjust_asked (some n) none d h = cc
adjust_asked (some n) (some ceiling) d h =
    let (e, f) = applied_parts _ d _ h in (n, refl, sym e ∙ ap amount (eq_ℤ→≡ _ n f))

toggle_asked :
    (o : Option Bool) (eligible : Bool) (d : Decided)
    → toggle o eligible ≡ applied d false
    → (b : Bool) × (o ≡ some b) × (d ≡ switch b)
unfolding toggle
toggle_asked none eligible d h = cc
toggle_asked (some b) true d h = (b, refl, sym (applied_parts _ d _ h).0)
toggle_asked (some b) false d h = cc

select_asked :
    (o : Option ℤ) (tiers : Option Items) (d : Decided)
    → select o tiers ≡ applied d false
    → (n : ℤ) × (o ≡ some n) × (d ≡ amount n)
unfolding select
select_asked none tiers d h = cc
select_asked (some n) tiers d h = (
  n,
  refl,
  elim (Bool-cases (tier_allowed n tiers)) [
    | inl e ↦ sym (applied_parts (amount n) d false (rw e at h)).0
    | inr e ↦ let k : refused Refusal.tier_not_defined ≡ applied d false = rw e at h in cc
  ],
)

kind_asked :
    (kind : EffectKind) (v : Value) (bounds : EntitlementBounds) (d : Decided)
    → apply_kind (some kind) v bounds ≡ applied d false
    → value_of d ≡ v
unfolding apply_kind
kind_asked adjust_limit v bounds d h =
    let (n, e, f) = adjust_asked (finite_value v) (resolve_ceiling bounds) d h in
    ap value_of f ∙ number_asked v n e
kind_asked toggle_boolean v bounds d h =
    let (b, e, f) = toggle_asked (flag_value v) bounds.rule_eligible d h in
    ap value_of f ∙ flag_asked v b e
kind_asked select_tier v bounds d h =
    let (n, e, f) = select_asked (finite_value v) bounds.rule_tiers d h in
    ap value_of f ∙ number_asked v n e

accepted :
    (is_valid : Bool) (r : ApplyEffectResult)
    → accept_if is_valid r ≡ done tt
    → (d : Decided) × (r ≡ applied d false)
unfolding accept_if accept
accepted true (applied d false) h = (d, refl)
accepted true (applied d true) h = cc
accepted true (refused reason) h = cc
accepted false r h = cc

validate_kind-AppliedAs :
    (kind : Option EffectKind) (target : Option Value) (v : Value) (bounds : EntitlementBounds)
    → validate_kind kind target v bounds ≡ done tt
    → AppliedAs v (apply_kind kind v bounds)
unfolding validate_kind
validate_kind-AppliedAs none target v bounds h = cc
validate_kind-AppliedAs (some kind) target v bounds h =
    let (d, e) = accepted _ _ h in (d, e, kind_asked kind v bounds d e)

-- An effect that the author's check accepts is applied, within the same bounds, and gives the value
-- that it asks for, neither refused nor reduced.
pub validate_effect-AppliedAs :
    (effect : Value) (bounds : EntitlementBounds)
    → validate_effect effect bounds ≡ done tt
    → AppliedAs (requested effect) (apply_descriptor effect bounds)
unfolding validate_effect apply_descriptor
validate_effect-AppliedAs undefined bounds h = cc
validate_effect-AppliedAs null bounds h = cc
validate_effect-AppliedAs (flag b) bounds h = cc
validate_effect-AppliedAs (number n) bounds h = cc
validate_effect-AppliedAs (string s) bounds h = cc
validate_effect-AppliedAs (array xs) bounds h = cc
validate_effect-AppliedAs (object fields) bounds h = validate_kind-AppliedAs _ _ _ bounds h
