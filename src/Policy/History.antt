-- ===== src/Policy/History.antt =====
-- Authoring and editing a rule (src/server/modules/policy/routes.ts): the versions that are there stay
-- as they were, and no constraint of the database is met.
use Prim.Native.String.{String}
use text.Mathlib.TextEquality.{eq_iff}
use license_srv.Prelude.{
  ℕ, suc, ◌≤◌, ◌≡◌, refl, inl, inr, Bool, true, false, ◌&&◌, Option, none, some, List, [], ◌∷◌,
  ◌==◌, any_by, count_by, All, All-imp, arith, Bool-cases, ltb,
}
use license_srv.Js.{Value, undefined, null, flag, number, string, array, object, own_field}
use license_srv.Policy.Outcome.{done, ◌>>=◌, >>=-eq-done}
use license_srv.Policy.Effect.{EffectKind, EntitlementBounds}
use license_srv.Policy.Resolve.{kind_in}
use license_srv.Policy.Validate.{validate_condition, LintLimits}
use license_srv.Policy.Authoring.{validate_kind, validate_effect, validate_rule, RuleLintWarning}
use license_srv.Policy.Rules.{
  PolicyRuleRow, Rules, InsertRuleInput, is_of, is_live, is_version, is_live_of, is_object,
  has_kind, violation, violates, row_of, insert_row, insert_version, max_version, next_version,
}
use license_srv.Policy.Routes.{RouteError, of_database}
use license_srv.Policy.OneLive.{RulesOk, and_first, and_second, any_false-count}
use license_srv.Policy.LifeCycle.{Keeps}

pub validate_condition_object :
    (limits : LintLimits) (max_bytes : ℕ) (bytes : Value → ℕ) (v : Value) (n : ℕ)
    → validate_condition limits max_bytes bytes v ≡ done n
    → is_object v ≡ true
unfolding validate_condition is_object
validate_condition_object limits max_bytes bytes undefined n h = cc
validate_condition_object limits max_bytes bytes null n h = cc
validate_condition_object limits max_bytes bytes (flag b) n h = cc
validate_condition_object limits max_bytes bytes (number x) n h = cc
validate_condition_object limits max_bytes bytes (string s) n h = cc
validate_condition_object limits max_bytes bytes (array xs) n h = cc
validate_condition_object limits max_bytes bytes (object fs) n h = refl

validate_kind-some :
    (kind : Option EffectKind) (target : Option Value) (v : Value) (bounds : EntitlementBounds)
    → validate_kind kind target v bounds ≡ done tt
    → elim kind [ none ↦ false | some k ↦ true ] ≡ true
unfolding validate_kind
validate_kind-some none target v bounds h = cc
validate_kind-some (some k) target v bounds h = refl

pub validate_effect_kind :
    (effect : Value) (bounds : EntitlementBounds)
    → validate_effect effect bounds ≡ done tt
    → has_kind effect ≡ true
unfolding validate_effect has_kind
validate_effect_kind undefined bounds h = cc
validate_effect_kind null bounds h = cc
validate_effect_kind (flag b) bounds h = cc
validate_effect_kind (number n) bounds h = cc
validate_effect_kind (string s) bounds h = cc
validate_effect_kind (array xs) bounds h = cc
validate_effect_kind (object fields) bounds h =
    validate_kind-some (kind_in (own_field fields "kind")) _ _ bounds h

-- What has passed the author's checks is accepted by the checks of the table.
pub validate_rule_shapes :
    (limits : LintLimits) (max_bytes : ℕ) (bytes : Value → ℕ) (condition effect : Value)
    (bounds : EntitlementBounds)
    → validate_rule limits max_bytes bytes condition effect bounds ≡ done tt
    → (is_object condition ≡ true) × (has_kind effect ≡ true)
unfolding validate_rule
validate_rule_shapes limits max_bytes bytes condition effect bounds h =
    let (n, c, e) =
      >>=-eq-done (validate_condition limits max_bytes bytes condition)
        (λ (n : ℕ). validate_effect effect bounds) h in
    (
      validate_condition_object limits max_bytes bytes condition n c,
      validate_effect_kind effect bounds e,
    )

max_version_le :
    (key : String) (rules : Rules)
    → All (λ r. is_of key r ≡ true → r.version ≤ max_version key rules) rules
unfolding max_version
max_version_le key [] = tt
max_version_le key (r ∷ rs) =
    (λ h. ground (arith, h), All-imp _ _ rs (λ x q h. ground (arith, q h)) (max_version_le key rs))

none_newer :
    (key : String) (n : ℕ) (rules : Rules)
    → All (λ r. is_of key r ≡ true → r.version ≤ n) rules
    → any_by (is_version key (suc n)) rules ≡ false
unfolding any_by is_version
none_newer key n [] a = refl
none_newer key n (r ∷ rs) (h, a) = ground (arith, none_newer key n rs a, h)

-- The next version of a rule is the version of none of its rows.
pub next_version_new :
    (key : String) (rules : Rules) → any_by (is_version key (next_version key rules)) rules ≡ false
unfolding next_version
next_version_new key rules = none_newer key (max_version key rules) rules (max_version_le key rules)

same_number : (m n : ℕ) → (m == n) ≡ true → m ≡ n
same_number m n h = ground arith

version_parts :
    (key : String) (n : ℕ) (row : PolicyRuleRow)
    → is_version key n row ≡ true
    → (row.rule_key ≡ key) × (row.version ≡ n)
unfolding is_version is_of
version_parts key n row h = (
  (eq_iff row.rule_key key).0 (and_first _ _ h),
  same_number row.version n (and_second (is_of key row) _ h),
)

live_parts :
    (key : String) (row : PolicyRuleRow)
    → is_live_of key row ≡ true
    → (row.rule_key ≡ key) × (is_live row ≡ true)
unfolding is_live_of is_of
live_parts key row h =
    ((eq_iff row.rule_key key).0 (and_first _ _ h), and_second (is_of key row) _ h)

and_rest : (a b : Bool) → a ≡ true → (a && b) ≡ false → b ≡ false
and_rest a b h e = ground arith

-- A table without the version of a new row, and without a live row of its rule if it is live.
abbrev pub HasRoom : PolicyRuleRow → Rules → Type 0
HasRoom row rules =
    (any_by (is_version row.rule_key row.version) rules ≡ false)
    × ((is_live row && any_by (is_live_of row.rule_key) rules) ≡ false)

inserted_version :
    (row : PolicyRuleRow) (rules : Rules) (key : String) (n : ℕ)
    → any_by (is_version row.rule_key row.version) rules ≡ false
    → count_by (is_version key n) rules ≤ 1
    → count_by (is_version key n) (row ∷ rules) ≤ 1
unfolding count_by
inserted_version row rules key n new ok = elim (Bool-cases (is_version key n row)) [
  | inl e ↦
      let (k, v) = version_parts key n row e in
      let none : count_by (is_version key n) rules ≡ 0 =
        any_false-count (is_version key n) rules (rw (k, v) at new) in
      rw e (omega arith)
  | inr e ↦ rw e ok
]

inserted_live :
    (row : PolicyRuleRow) (rules : Rules) (key : String)
    → (is_live row && any_by (is_live_of row.rule_key) rules) ≡ false
    → count_by (is_live_of key) rules ≤ 1
    → count_by (is_live_of key) (row ∷ rules) ≤ 1
unfolding count_by
inserted_live row rules key room ok = elim (Bool-cases (is_live_of key row)) [
  | inl e ↦
      let (k, live) = live_parts key row e in
      let other : any_by (is_live_of row.rule_key) rules ≡ false = and_rest _ _ live room in
      let none : count_by (is_live_of key) rules ≡ 0 =
        any_false-count (is_live_of key) rules (rw k at other) in
      rw e (omega arith)
  | inr e ↦ rw e ok
]

inserted-RulesOk :
    (row : PolicyRuleRow) (rules : Rules)
    → RulesOk rules
    → HasRoom row rules
    → RulesOk (row ∷ rules)
inserted-RulesOk row rules ok (new, room) = (
  λ key n. inserted_version row rules key n new (ok.0 key n),
  λ key. inserted_live row rules key room (ok.1 key),
)

-- A row that the checks of the table accept.
violates-none :
    (row : PolicyRuleRow) (rules : Rules)
    → ltb row.version 1 ≡ false
    → is_object row.condition ≡ true
    → has_kind row.effect ≡ true
    → HasRoom row rules
    → violates row rules ≡ none
unfolding violates violation
violates-none row rules v c e (new, room) = rw (v, c, e, new, room) refl

pub insert_version-Keeps :
    (Allowed : RouteError → Type 0) (id now : ℕ) (input : InsertRuleInput) (rules : Rules)
    (ws : List RuleLintWarning)
    → RulesOk rules
    → ltb input.version 1 ≡ false
    → is_object input.condition ≡ true
    → has_kind input.effect ≡ true
    → HasRoom (row_of id now input) rules
    → Keeps {A = PolicyRuleRow × List RuleLintWarning} Allowed (
        of_database (insert_version id now input rules)
        >>= (λ (r : PolicyRuleRow × Rules). done ((r.0, ws), r.1)))
unfolding insert_version insert_row of_database row_of
insert_version-Keeps Allowed id now input rules ws ok v c e room =
    rw (violates-none (row_of id now input) rules v c e room)
      (inserted-RulesOk (row_of id now input) rules ok room)
