-- ===== src/Policy/OneLive.antt =====
-- The table of rules (src/server/modules/policy/rule-repo.ts): one row for a version, one live row
-- for a rule, kept by the statements and never met as an error by the routes.
use Prim.Native.String.{String}
use text.Mathlib.Text.{◌==◌ as str_eq}
use text.Mathlib.TextEquality.{eq_iff}
use mathlib.Core.Path.{subst}
use license_srv.Prelude.{
  ℕ, ◌+◌, ◌≤◌, ◌≡◌, refl, sym, ◌∙◌, inl, inr, Bool, true, false, not, ◌&&◌, Option, none, some,
  List, [], ◌∷◌, any_by, update_where, count_by, All, count_by-update_where_le, count_by_congr,
  arith, Bool-cases,
}
use license_srv.Policy.Outcome.{Outcome, done, failed}
use license_srv.Policy.Rules.{
  RuleStatus, PolicyRuleRow, Rules, is_live_status, is_live, is_of, is_version, is_live_of,
  is_other_live, with_status, set_status, update_status,
}

-- One row for a version of a rule, and one live row for a rule.
abbrev pub RulesOk : Rules → Type 0
RulesOk rules =
    ((key : String) (version : ℕ) → count_by (is_version key version) rules ≤ 1)
    × ((key : String) → count_by (is_live_of key) rules ≤ 1)

module _ {ℓ} {A : Type ℓ} where
  -- After an update, the rows that pass a test were reached, or passed it before.
  pub count_update_split :
      (q p : A → Bool) (f : A → A) (xs : List A)
      → count_by q (update_where p f xs) ≤ count_by p xs + count_by (λ x. q x && not (p x)) xs
  unfolding count_by update_where
  count_update_split q p f [] = omega arith
  count_update_split q p f (x ∷ xs) = ground (arith, count_update_split q p f xs)

  pub any_false-count : (p : A → Bool) (xs : List A) → any_by p xs ≡ false → count_by p xs ≡ 0
  unfolding any_by count_by
  any_false-count p [] h = refl
  any_false-count p (x ∷ xs) h = ground (arith, any_false-count p xs)

  pub All-count_le :
      (q p : A → Bool) (xs : List A)
      → All (λ x. q x ≡ true → p x ≡ true) xs
      → count_by q xs ≤ count_by p xs
  unfolding count_by
  All-count_le q p [] a = omega arith
  All-count_le q p (x ∷ xs) (h, a) = ground (arith, All-count_le q p xs a, h)

version_same :
    (key other : String) (version n : ℕ) (status : RuleStatus) (now : ℕ) (r : PolicyRuleRow)
    → is_version other n (with_status status now r) ≡ true
    → is_version other n r ≡ true
unfolding is_version is_of with_status
version_same key other version n status now r h = h

-- A row of one rule is no row of another.
version_live :
    (key : String) (version : ℕ) (r : PolicyRuleRow)
    → is_version key version r ≡ true
    → is_of key r ≡ true
unfolding is_version
version_live key version r h = ground arith

live_after :
    (key : String) (status : RuleStatus) (now : ℕ) (r : PolicyRuleRow)
    → is_live_of key (with_status status now r) ≡ (is_of key r && is_live_status status)
unfolding is_live_of is_of is_live with_status
live_after key status now r = refl

other_live :
    (key : String) (version : ℕ) (r : PolicyRuleRow)
    → (is_live_of key r && not (is_version key version r)) ≡ is_other_live key version r
unfolding is_other_live is_live_of is_version
other_live key version r = ground arith

pub and_first : (a b : Bool) → (a && b) ≡ true → a ≡ true
and_first a b h = ground arith

pub and_second : (a b : Bool) → (a && b) ≡ true → b ≡ true
and_second a b h = ground arith

pub bool_clash : (b : Bool) → b ≡ true → b ≡ false → ⊥
bool_clash b h e = cc

-- An update of one rule raises the count of the live rows of no other.
others_live :
    (key other : String) (version : ℕ) (status : RuleStatus) (now : ℕ) (rules : Rules)
    → str_eq key other ≡ false
    → count_by
        (is_live_of other)
        (update_where (is_version key version) (with_status status now) rules)
      ≤ count_by (is_live_of other) rules
unfolding is_version is_of is_live_of with_status
others_live key other version status now rules e =
    count_by-update_where_le (is_live_of other) (is_version key version) (with_status status now)
      rules
      (λ r p q.
        let here : r.rule_key ≡ key = (eq_iff r.rule_key key).0 (and_first _ _ p) in
        let there : r.rule_key ≡ other = (eq_iff r.rule_key other).0 (and_first _ _ q) in
        let same : str_eq key other ≡ true = (eq_iff key other).1 (sym here ∙ there) in
        absurd (bool_clash (str_eq key other) same e))

-- The rule itself, after the update: live only in that version, if no other was.
own_live :
    (key : String) (version : ℕ) (status : RuleStatus) (now : ℕ) (rules : Rules)
    → RulesOk rules
    → (is_live_status status && any_by (is_other_live key version) rules) ≡ false
    → count_by
        (is_live_of key)
        (update_where (is_version key version) (with_status status now) rules)
      ≤ 1
own_live key version status now rules ok e = elim (Bool-cases (is_live_status status)) [
  | inl live ↦
      let none_other : any_by (is_other_live key version) rules ≡ false = ground arith in
      let same : count_by (λ r. is_live_of key r && not (is_version key version r)) rules
          ≡ count_by (is_other_live key version) rules =
        count_by_congr _ (is_other_live key version) rules (other_live key version) in
      omega (
        arith,
        count_update_split (is_live_of key) (is_version key version) (with_status status now) rules,
        ok.0 key version,
        same,
        any_false-count (is_other_live key version) rules none_other,
      )
  | inr dead ↦ omega (
    arith,
    count_by-update_where_le (is_live_of key) (is_version key version) (with_status status now)
        rules
        (λ r p q. absurd (
          bool_clash (is_live_status status)
            (and_second _ _ (sym (live_after key status now r) ∙ q)) dead)),
    ok.1 key,
  )
]

updated-RulesOk :
    (key : String) (version : ℕ) (status : RuleStatus) (now : ℕ) (rules : Rules)
    → RulesOk rules
    → (is_live_status status && any_by (is_other_live key version) rules) ≡ false
    → RulesOk (update_where (is_version key version) (with_status status now) rules)
updated-RulesOk key version status now rules ok e = (
  λ other n. omega (
    arith,
    count_by-update_where_le (is_version other n) (is_version key version) (with_status status now)
        rules (λ r p q. version_same key other version n status now r q),
    ok.0 other n,
  ),
  λ other. elim (Bool-cases (str_eq key other)) [
    | inl same ↦
        let k : key ≡ other = (eq_iff key other).0 same in
        subst
          (λ (o : String).
            count_by (is_live_of o)
              (update_where (is_version key version) (with_status status now) rules)
            ≤ 1)
          k (own_live key version status now rules ok e)
    | inr different ↦
        omega (arith, others_live key other version status now rules different, ok.1 other)
  ],
)

-- What a statement leaves, where it does not fail.
abbrev pub Leaves {ℓ} : {A B : Type 0} → (B → Type ℓ) → Outcome A B → Type ℓ
Leaves P (done b) = P b
Leaves P (failed e) = Unit

set_status-RulesOk :
    (second : Bool) (found : Option PolicyRuleRow) (key : String) (version : ℕ)
    (status : RuleStatus) (now : ℕ) (rules : Rules)
    → RulesOk rules
    → (is_live_status status && any_by (is_other_live key version) rules) ≡ second
    → Leaves (λ r. RulesOk r.1) (set_status second found key version status now rules)
unfolding set_status
set_status-RulesOk second none key version status now rules ok e = ok
set_status-RulesOk true (some r) key version status now rules ok e = tt
set_status-RulesOk false (some r) key version status now rules ok e =
    updated-RulesOk key version status now rules ok e

-- A change of status keeps one row for a version and one live row for a rule.
pub update_status-RulesOk :
    (key : String) (version : ℕ) (status : RuleStatus) (now : ℕ) (rules : Rules)
    → RulesOk rules
    → Leaves (λ r. RulesOk r.1) (update_status key version status now rules)
unfolding update_status
update_status-RulesOk key version status now rules ok =
    set_status-RulesOk _ _ key version status now rules ok refl
