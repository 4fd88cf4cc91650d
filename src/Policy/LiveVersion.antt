-- ===== src/Policy/LiveVersion.antt =====
-- The live version of a rule (src/server/modules/policy/rule-repo.ts), and its end.
use Prim.Native.String.{String}
use license_srv.Prelude.{
  ℕ, ◌≤◌, ◌≡◌, refl, sym, ◌∙◌, true, false, Option, none, some, [], ◌∷◌, find, filter_by, count_by,
  sort_by, length, All, All-unfilter, All-unsort, All-filter_by, All-sort_by,
  count_by-update_where_zero, length-sort_by, length-filter_by, find-eq-none, arith,
}
use mathlib.Core.Path.{subst}
use license_srv.Policy.Outcome.{Outcome, done, failed}
use license_srv.Policy.Rules.{
  disabled, PolicyRuleRow, Rules, is_live_status, is_live, is_version, is_live_of, with_status,
  set_status, update_status,
}
use license_srv.Policy.Selects.{first_row, newest_first, get_live_version}
use license_srv.Policy.OneLive.{RulesOk, All-count_le}

one_row : (xs : Rules) (l : PolicyRuleRow) → length xs ≤ 1 → first_row xs ≡ some l → xs ≡ l ∷ []
unfolding first_row
one_row [] l h e = cc
one_row (x ∷ []) l h e = cc
one_row (x ∷ y ∷ xs) l h e = absurd (omega arith)

no_row : (xs : Rules) → first_row xs ≡ none → length xs ≡ 0
unfolding first_row
no_row [] e = refl
no_row (x ∷ xs) e = cc

sorted_live_count :
    (key : String) (rules : Rules)
    → length (sort_by newest_first (filter_by (is_live_of key) rules))
      ≡ count_by (is_live_of key) rules
sorted_live_count key rules =
    length-sort_by newest_first (filter_by (is_live_of key) rules)
    ∙ length-filter_by (is_live_of key) rules

own_version :
    (key : String) (l : PolicyRuleRow) → is_live_of key l ≡ true → is_version key l.version l ≡ true
unfolding is_version is_live_of
own_version key l h = ground arith

-- Every live row of a rule is its live version.
pub get_live_version-Only :
    (key : String) (rules : Rules) (l : PolicyRuleRow)
    → RulesOk rules
    → get_live_version key rules ≡ some l
    → All (λ r. is_live_of key r ≡ true → is_version key l.version r ≡ true) rules
unfolding get_live_version
get_live_version-Only key rules l ok e =
    let xs = sort_by newest_first (filter_by (is_live_of key) rules) in
    let single : xs ≡ l ∷ [] =
      one_row xs l (omega (arith, sorted_live_count key rules, ok.1 key)) e in
    let live : All (λ r. is_live_of key r ≡ true) (l ∷ []) =
      subst (λ (ys : Rules). All (λ r. is_live_of key r ≡ true) ys) single
        (All-sort_by newest_first _ _ (All-filter_by (is_live_of key) rules)) in
    let here : All (λ r. is_version key l.version r ≡ true) xs =
      subst (λ (ys : Rules). All (λ r. is_version key l.version r ≡ true) ys) (sym single)
        (own_version key l live.0, tt) in
    All-unfilter _ (is_live_of key) rules (All-unsort newest_first _ _ here)

pub get_live_version-none :
    (key : String) (rules : Rules)
    → get_live_version key rules ≡ none
    → count_by (is_live_of key) rules ≡ 0
unfolding get_live_version
get_live_version-none key rules e =
    sym (sorted_live_count key rules)
    ∙ no_row (sort_by newest_first (filter_by (is_live_of key) rules)) e

dead_after :
    (key : String) (now : ℕ) (r : PolicyRuleRow)
    → is_live_of key (with_status disabled now r) ≡ false
unfolding is_live_of is_live is_live_status with_status
dead_after key now r = ground arith

-- A table after a statement that cannot fail.
abbrev pub Yields : {E A : Type 0} → (A → Type 0) → Outcome E A → Type 0
Yields P (done a) = P a
Yields P (failed e) = ⊥

set_disabled :
    (found : Option PolicyRuleRow) (key : String) (version now : ℕ) (rules : Rules)
    → find (is_version key version) rules ≡ found
    → All (λ r. is_live_of key r ≡ true → is_version key version r ≡ true) rules
    → Yields
        (λ r. count_by (is_live_of key) r.1 ≡ 0)
        (set_status false found key version disabled now rules)
unfolding set_status
set_disabled none key version now rules e a = omega (
  arith,
  All-count_le (is_live_of key) (is_version key version) rules a,
  find-eq-none (is_version key version) rules e,
)
set_disabled (some r) key version now rules e a =
    count_by-update_where_zero (is_live_of key) (is_version key version) (with_status disabled now)
      rules a (dead_after key now)

-- Disabling the live version leaves no live row of the rule.
pub update_status-disabled :
    (key : String) (version now : ℕ) (rules : Rules)
    → All (λ r. is_live_of key r ≡ true → is_version key version r ≡ true) rules
    → Yields (λ r. count_by (is_live_of key) r.1 ≡ 0) (update_status key version disabled now rules)
unfolding update_status is_live_status
update_status-disabled key version now rules a =
    set_disabled (find (is_version key version) rules) key version now rules refl a
