-- ===== src/Policy/Sections.antt =====
-- The whole of a decision context (src/server/modules/policy/context.ts): which fields reach it, and
-- from where.
use Prim.Native.String.{String}
use text.Mathlib.Text.{◌==◌ as str_eq}
use license_srv.Prelude.{
  ◌≡◌, ◌⊎◌, Bool, true, false, ◌&&◌, Option, none, some, List, Mem, any_by, if◌then◌else◌,
}
use license_srv.Js.{
  finite, infinite, nan, Value, undefined, null, flag, number, string, array, object, Items, nil,
  cons, Fields, end, field, own_field,
}
use license_srv.Policy.Validate.{license_fields, plan_fields, entitlement_fields}
use license_srv.Policy.Context.{DecisionContextSources}

-- What a section may hold: a text, a Boolean, a finite number, or an array of those.
unfoldable pub is_plain : Value → Bool
is_plain undefined = false
is_plain null = false
is_plain (flag b) = true
is_plain (number (finite n)) = true
is_plain (number (infinite b)) = false
is_plain (number nan) = false
is_plain (string s) = true
is_plain (array xs) = false
is_plain (object fields) = false

unfoldable pub all_plain : Items → Bool
unfolding is_plain
all_plain nil = true
all_plain (cons v rest) = is_plain v && all_plain rest

unfoldable pub is_data : Value → Bool
unfolding is_plain all_plain
is_data undefined = false
is_data null = false
is_data (flag b) = true
is_data (number n) = is_plain (number n)
is_data (string s) = true
is_data (array xs) = all_plain xs
is_data (object fields) = false

-- The value under a key, if it may be held.
abbrev pub if_data : Option Value → Option Value
if_data none = none
if_data (some v) = if is_data v then some v else none

-- A predicate of every field of an object.
abbrev pub AllFields : (String → Value → Type 0) → Fields → Type 0
AllFields P end = Unit
AllFields P (field key v rest) = P key v × AllFields P rest

-- A field of an object, wherever it stands.
abbrev pub HasField : String → Value → Fields → Type 0
HasField key v end = ⊥
HasField key v (field k w rest) = ((k ≡ key) × (w ≡ v)) ⊎ HasField key v rest

-- A section holds what its source holds under the keys that are listed, where that is plain data,
-- and no field of another key or of other data.
pub record IsSection (allow : List String) (source section : Fields) : Type 0 where
  pub no_other :
      AllFields
        (λ key v. Mem key allow × (own_field source key ≡ some v) × (is_data v ≡ true))
        section
  pub under :
      (name : String)
      → own_field section name
        ≡ (if any_by (λ key. str_eq key name) allow then if_data (own_field source name) else none)

abbrev pub IsFinite : Value → Type 0
IsFinite (number (finite n)) = Unit
IsFinite _ = ⊥

-- The metrics of a usage: each is a finite number that its source has under the same key.
abbrev pub IsUsage : (source usage : Fields) → Type 0
IsUsage source usage = AllFields (λ key v. HasField key v source × IsFinite v) usage

-- The fields of a context: the time, and a section of each source that there is.
pub data Reaches (sources : DecisionContextSources) : String → Value → Type 0 where
  at_now : Reaches sources "now" (number sources.decision_timestamp)
  of_license :
      (source section : Fields)
      → sources.license ≡ some source
      → IsSection license_fields source section
      → Reaches sources "license" (object section)
  of_plan :
      (source section : Fields)
      → sources.plan ≡ some source
      → IsSection plan_fields source section
      → Reaches sources "plan" (object section)
  of_entitlement :
      (source section : Fields)
      → sources.entitlement ≡ some source
      → IsSection entitlement_fields source section
      → Reaches sources "entitlement" (object section)
  of_usage :
      (source usage : Fields)
      → sources.usage ≡ some source
      → IsUsage source usage
      → Reaches sources "usage" (object usage)
