-- ===== src/Policy/Minimal.antt =====
-- What reaches a condition of the context that src/server/modules/policy/context.ts assembles.
use Prim.Native.String.{String}
use text.Mathlib.Text.{◌==◌ as str_eq}
use text.Mathlib.TextEquality.{eq_iff}
use license_srv.Prelude.{
  ℕ, ◌≤◌, ◌≡◌, refl, ap, inl, inr, Bool, true, false, ◌&&◌, Option, none, some, List, [], ◌∷◌,
  any_by, arith, Bool-cases, if◌then◌else◌,
}
use license_srv.Js.{
  Number, finite, infinite, nan, Value, undefined, null, flag, number, string, array, object, Items,
  nil, cons, Fields, end, field, own_field,
}
use license_srv.Policy.Context.{
  is_primitive_leaf, all_leaves, is_copied, pick_key, pick_allowed, pick_count, pick_usage,
  add_section, pick_from, usage_from, assemble_context, DecisionContextSources, json_depth,
  items_depth, fields_depth,
}

-- What is copied of the value under an allowed key.
abbrev pub copied : Option Value → Option Value
copied none = none
copied (some v) = if is_copied v then some v else none

-- What an allowed key gives, where a later copy of the key gives the same or nothing.
or_later : Option Value → Option Value → Option Value
or_later none later = later
or_later (some v) later = some v

or_later_same : (o : Option Value) (b : Bool) → or_later o (if b then o else none) ≡ o
unfolding or_later
or_later_same none true = refl
or_later_same none false = refl
or_later_same (some v) b = refl

own_field-pick_key :
    (o : Option Value) (key name : String) (out : Fields)
    → own_field (pick_key o key out) name
      ≡ (if str_eq key name then or_later (copied o) (own_field out name) else own_field out name)
unfolding own_field pick_key or_later
own_field-pick_key none key name out = ground arith
own_field-pick_key (some v) key name out = ground arith

-- A section of the context has, under an allowed key, the value that its source has, if that is a
-- leaf or an array of leaves, and nothing else under any key.
pub own_field-pick_allowed :
    (source : Fields) (allow : List String) (name : String)
    → own_field (pick_allowed source allow) name
      ≡ (if any_by (λ key. str_eq key name) allow then copied (own_field source name) else none)
unfolding pick_allowed any_by own_field
own_field-pick_allowed source [] name = refl
own_field-pick_allowed source (key ∷ keys) name = elim (Bool-cases (str_eq key name)) [
  | inl e ↦
      let same : key ≡ name = (eq_iff key name).0 e in
      rw
        (
          own_field-pick_key (own_field source key) key name (pick_allowed source keys),
          e,
          own_field-pick_allowed source keys name,
          ap (own_field source) same,
        )
        (or_later_same (copied (own_field source name)) _)
  | inr e ↦
      rw
        (
          own_field-pick_key (own_field source key) key name (pick_allowed source keys),
          e,
          own_field-pick_allowed source keys name,
        )
        refl
]

abbrev SectionDepth : Option Fields → Type 0
SectionDepth none = Unit
SectionDepth (some section) = fields_depth section ≤ 2

and_true : (a b : Bool) → (a && b) ≡ true → (a ≡ true) × (b ≡ true)
and_true a b h = (ground arith, ground arith)

leaf_depth : (v : Value) → is_primitive_leaf v ≡ true → json_depth v ≡ 1
unfolding is_primitive_leaf json_depth
leaf_depth undefined h = refl
leaf_depth null h = refl
leaf_depth (flag b) h = refl
leaf_depth (number n) h = refl
leaf_depth (string s) h = refl
leaf_depth (array xs) h = cc
leaf_depth (object fields) h = cc

leaves_depth : (xs : Items) → all_leaves xs ≡ true → items_depth xs ≤ 1
unfolding all_leaves items_depth
leaves_depth nil h = omega arith
leaves_depth (cons v rest) h =
    let (a, b) = and_true (is_primitive_leaf v) (all_leaves rest) h in
    omega (arith, leaf_depth v a, leaves_depth rest b)

copied_depth : (v : Value) → is_copied v ≡ true → json_depth v ≤ 2
unfolding is_copied json_depth
copied_depth undefined h = omega arith
copied_depth null h = omega arith
copied_depth (flag b) h = omega arith
copied_depth (number n) h = omega arith
copied_depth (string s) h = omega arith
copied_depth (array xs) h = omega (arith, leaves_depth xs h)
copied_depth (object fields) h = cc

pick_key_depth :
    (o : Option Value) (key : String) (out : Fields)
    → fields_depth out ≤ 2
    → fields_depth (pick_key o key out) ≤ 2
unfolding pick_key fields_depth
pick_key_depth none key out h = h
pick_key_depth (some v) key out h = elim (Bool-cases (is_copied v)) [
  | inl e ↦ rw e (omega (arith, copied_depth v e))
  | inr e ↦ rw e h
]

pick_allowed_depth :
    (source : Fields) (allow : List String) → fields_depth (pick_allowed source allow) ≤ 2
unfolding pick_allowed fields_depth
pick_allowed_depth source [] = omega arith
pick_allowed_depth source (key ∷ keys) =
    pick_key_depth (own_field source key) key _ (pick_allowed_depth source keys)

pick_count_depth :
    (key : String) (v : Value) (out : Fields)
    → fields_depth out ≤ 2
    → fields_depth (pick_count key v out) ≤ 2
unfolding pick_count fields_depth json_depth
pick_count_depth key (number (finite n)) out h = elim (Bool-cases (str_eq key "__proto__")) [
  | inl e ↦ rw e h
  | inr e ↦ rw e (omega arith)
]
pick_count_depth key (number (infinite b)) out h = h
pick_count_depth key (number nan) out h = h
pick_count_depth key undefined out h = h
pick_count_depth key null out h = h
pick_count_depth key (flag b) out h = h
pick_count_depth key (string s) out h = h
pick_count_depth key (array xs) out h = h
pick_count_depth key (object fields) out h = h

pick_usage_depth : (source : Fields) → fields_depth (pick_usage source) ≤ 2
unfolding pick_usage fields_depth
pick_usage_depth end = omega arith
pick_usage_depth (field k v rest) = pick_count_depth k v _ (pick_usage_depth rest)

pick_from_depth :
    (source : Option Fields) (allow : List String) → SectionDepth (pick_from source allow)
unfolding pick_from
pick_from_depth none allow = tt
pick_from_depth (some source) allow = pick_allowed_depth source allow

usage_from_depth : (source : Option Fields) → SectionDepth (usage_from source)
unfolding usage_from
usage_from_depth none = tt
usage_from_depth (some source) = pick_usage_depth source

add_section_depth :
    (name : String) (section : Option Fields) (rest : Fields)
    → SectionDepth section
    → fields_depth rest ≤ 3
    → fields_depth (add_section name section rest) ≤ 3
unfolding add_section fields_depth json_depth
add_section_depth name none rest s h = h
add_section_depth name (some section) rest s h = omega arith

empty_depth : (n : ℕ) → fields_depth end ≤ n
unfolding fields_depth
empty_depth n = omega arith

now_depth :
    (n : Number) (rest : Fields)
    → fields_depth rest ≤ 3
    → json_depth (object (field "now" (number n) rest)) ≤ 4
unfolding json_depth fields_depth
now_depth n rest h = omega arith

-- An assembled context is nested four deep at most, whatever its sources: a limit on depth of four
-- or more never refuses one.
pub assemble_context_depth :
    (sources : DecisionContextSources) → json_depth (object (assemble_context sources)) ≤ 4
unfolding assemble_context
assemble_context_depth sources = now_depth sources.decision_timestamp _ (
    add_section_depth "license" _ _ (pick_from_depth sources.license _) (
      add_section_depth "plan" _ _ (pick_from_depth sources.plan _) (
        add_section_depth "entitlement" _ _ (pick_from_depth sources.entitlement _)
          (add_section_depth "usage" _ end (usage_from_depth sources.usage) (empty_depth 3)))))
