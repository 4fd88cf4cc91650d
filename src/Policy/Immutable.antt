-- ===== src/Policy/Immutable.antt =====
-- The content of the versions of a rule, through the routes of src/server/modules/policy/routes.ts.
use Prim.Native.String.{String}
use license_srv.Prelude.{
  ℕ, suc, ◌≡◌, refl, ap, ◌∙◌, inl, inr, Bool, true, false, Option, none, some, List, [], ◌∷◌, find,
  update_where, map, Bool-cases,
}
use license_srv.Policy.Outcome.{Outcome, done, failed, ◌>>=◌}
use license_srv.Policy.Authoring.{RuleLintWarning}
use license_srv.Policy.Rules.{
  RuleStatus, disabled, PolicyRuleRow, Rules, RuleConstraint, is_of, is_version, row_of, insert_row,
  insert_version, with_status, set_status, update_status, max_version, next_version,
}
use license_srv.Policy.Selects.{get_versions, get_live_version}
use license_srv.Policy.Decide.{Host}
use license_srv.Policy.Evaluation.{PolicyConfig, EntitlementBoundRow}
use license_srv.Policy.Routes.{
  RouteError, of_database, RuleContent, Authored, content_row, validate_content, live_rule_lint,
  next_status, disable_row, persist_edit, edit_for, edit_versions, edit_rule,
}
use license_srv.Policy.OneLive.{Leaves}

-- A row without its status and the time of its last change.
abbrev pub content_of : PolicyRuleRow → PolicyRuleRow
content_of r = with_status disabled 0 r

abbrev pub SameContent : Rules → Rules → Type 0
SameContent after rules =
    (map content_of after ≡ map content_of rules)
    × ((key : String) → max_version key after ≡ max_version key rules)

same_content : (rules : Rules) → SameContent rules rules
same_content rules = (refl, λ key. refl)

content_kept :
    (s : RuleStatus) (now : ℕ) (r : PolicyRuleRow) → content_of (with_status s now r) ≡ content_of r
unfolding with_status
content_kept s now r = refl

updated_content :
    (p : PolicyRuleRow → Bool) (s : RuleStatus) (now : ℕ) (rules : Rules)
    → map content_of (update_where p (with_status s now) rules) ≡ map content_of rules
unfolding update_where
updated_content p s now [] = refl
updated_content p s now (r ∷ rs) = elim (Bool-cases (p r)) [
  | inl e ↦ rw (e, content_kept s now r, updated_content p s now rs) refl
  | inr e ↦ rw (e, updated_content p s now rs) refl
]

of_kept :
    (key : String) (s : RuleStatus) (now : ℕ) (r : PolicyRuleRow)
    → (is_of key (with_status s now r) ≡ is_of key r) × ((with_status s now r).version ≡ r.version)
unfolding is_of with_status
of_kept key s now r = (refl, refl)

updated_version :
    (p : PolicyRuleRow → Bool) (s : RuleStatus) (now : ℕ) (key : String) (rules : Rules)
    → max_version key (update_where p (with_status s now) rules) ≡ max_version key rules
unfolding update_where max_version
updated_version p s now key [] = refl
updated_version p s now key (r ∷ rs) = elim (Bool-cases (p r)) [
  | inl e ↦ let (o, v) = of_kept key s now r in rw (e, o, v, updated_version p s now key rs) refl
  | inr e ↦ rw (e, updated_version p s now key rs) refl
]

set_status-SameContent :
    (second : Bool) (found : Option PolicyRuleRow) (key : String) (version : ℕ)
    (status : RuleStatus) (now : ℕ) (rules : Rules)
    → Leaves (λ r. SameContent r.1 rules) (set_status second found key version status now rules)
unfolding set_status
set_status-SameContent second none key version status now rules = same_content rules
set_status-SameContent true (some r) key version status now rules = tt
set_status-SameContent false (some r) key version status now rules = (
  updated_content (is_version key version) status now rules,
  λ other. updated_version (is_version key version) status now other rules,
)

pub update_status-SameContent :
    (key : String) (version : ℕ) (status : RuleStatus) (now : ℕ) (rules : Rules)
    → Leaves (λ r. SameContent r.1 rules) (update_status key version status now rules)
unfolding update_status
update_status-SameContent key version status now rules =
    set_status-SameContent _ (find (is_version key version) rules) key version status now rules

second_of :
    (rules : Rules) (m : Outcome RuleConstraint (Option PolicyRuleRow × Rules))
    → Leaves (λ r. SameContent r.1 rules) m
    → Leaves
        (λ after. SameContent after rules)
        (m >>= (λ (r : Option PolicyRuleRow × Rules). done r.1))
second_of rules (done r) h = h
second_of rules (failed e) h = tt

disable_row-SameContent :
    (key : String) (live : Option PolicyRuleRow) (now : ℕ) (rules : Rules)
    → Leaves (λ after. SameContent after rules) (disable_row key live now rules)
unfolding disable_row
disable_row-SameContent key none now rules = same_content rules
disable_row-SameContent key (some l) now rules =
    second_of rules (update_status key l.version disabled now rules)
      (update_status-SameContent key l.version disabled now rules)

-- A table with a new row on top of the old rows, of which no content has changed.
abbrev pub Adds : String → Rules → Authored → Type 0
Adds key rules (done ((row, ws), after)) =
    (older : Rules) × (after ≡ row ∷ older)
    × (map content_of older ≡ map content_of rules)
    × (row.rule_key ≡ key)
    × (row.version ≡ next_version key rules)
Adds key rules (failed e) = Unit

insert-Adds :
    (key : String) (rules rest : Rules) (row : PolicyRuleRow) (c : Option RuleConstraint)
    (ws : List RuleLintWarning)
    → SameContent rest rules
    → row.rule_key ≡ key
    → row.version ≡ next_version key rest
    → Adds key rules (
        of_database (insert_row row rest c)
        >>= (λ (r : PolicyRuleRow × Rules). done ((r.0, ws), r.1)))
unfolding insert_row of_database next_version
insert-Adds key rules rest row (some c) ws same k v = tt
insert-Adds key rules rest row none ws same k v = (rest, refl, same.0, k, v ∙ ap suc (same.1 key))

then_insert-Adds :
    (content : RuleContent) (key : String) (entitlement_id : ℕ) (status : RuleStatus)
    (id author now : ℕ) (ws : List RuleLintWarning) (rules : Rules)
    (m : Outcome RuleConstraint Rules)
    → Leaves (λ after. SameContent after rules) m
    → Adds key rules (
        of_database m >>= (λ (rest : Rules).
          of_database (
            insert_version id now
              (content_row content key (next_version key rest) entitlement_id author status)
              rest)
          >>= (λ (r : PolicyRuleRow × Rules). done ((r.0, ws), r.1))))
unfolding of_database insert_version row_of content_row
then_insert-Adds content key ent status id author now ws rules (done rest) same =
    insert-Adds key rules rest
      (row_of id now (content_row content key (next_version key rest) ent author status)) _ ws same
      refl refl
then_insert-Adds content key ent status id author now ws rules (failed e) same = tt

module _ (host : Host) (config : PolicyConfig) (content : RuleContent) where
  after_content :
      (key : String) (rules : Rules) (m : Outcome RouteError Unit) (f : Unit → Authored)
      → Adds key rules (f tt)
      → Adds key rules (m >>= f)
  after_content key rules (done tt) f a = a
  after_content key rules (failed e) f a = tt

  edit_for-Adds :
      (key : String) (entitlement : Option EntitlementBoundRow) (entitlement_id : ℕ)
      (live : Option PolicyRuleRow) (id author now : ℕ) (rules : Rules)
      → Adds key rules
          (edit_for host config content key entitlement entitlement_id live id author now rules)
  unfolding edit_for persist_edit
  edit_for-Adds key none ent live id author now rules = tt
  edit_for-Adds key (some row) ent live id author now rules =
      after_content key rules (validate_content host config content row) _ (
        then_insert-Adds content key ent (next_status live) id author now
          (live_rule_lint host config content (some key) ent rules) rules
          (disable_row key live now rules) (disable_row-SameContent key live now rules))

  edit_versions-Adds :
      (key : String) (read : ℕ → Option EntitlementBoundRow) (versions : Rules)
      (live : Option PolicyRuleRow) (id author now : ℕ) (rules : Rules)
      → Adds key rules
          (edit_versions host config content key read versions live id author now rules)
  unfolding edit_versions
  edit_versions-Adds key read [] live id author now rules = tt
  edit_versions-Adds key read (head ∷ older) live id author now rules =
      edit_for-Adds key (read head.entitlement_id) head.entitlement_id live id author now rules

  -- An edit that is not refused adds one version to a rule, the next after the greatest, and changes
  -- no content of the versions that are there.
  pub edit_rule-Adds :
      (key : String) (entitlement_read : ℕ → Option EntitlementBoundRow) (id author now : ℕ)
      (rules : Rules)
      → Adds key rules (edit_rule host config content key entitlement_read id author now rules)
  unfolding edit_rule
  edit_rule-Adds key read id author now rules =
      edit_versions-Adds key read (get_versions key rules) (get_live_version key rules) id author
        now rules
