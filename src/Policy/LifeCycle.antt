-- ===== src/Policy/LifeCycle.antt =====
-- `POST /admin/policy/rules/:ruleKey/status` (src/server/modules/policy/routes.ts) on a table of rules.
use Prim.Native.String.{String}
use license_srv.Prelude.{
  ℕ, ◌≡◌, refl, Bool, true, false, ◌&&◌, Option, none, some, [], ◌∷◌, ◌==◌, find, any_by, count_by,
  All, any_by-eq_false, count_by_mono, arith,
}
use license_srv.Policy.Outcome.{Outcome, done, failed, ◌>>=◌}
use license_srv.Policy.Rules.{
  RuleStatus, disabled, PolicyRuleRow, Rules, RuleConstraint, is_live_status, is_version,
  is_live_of, is_other_live, set_status, update_status,
}
use license_srv.Policy.Selects.{get_live_version, get_versions}
use license_srv.Policy.Routes.{
  RouteError, not_found, policy, invalid_state_transition, database, of_database, is_permitted,
}
use license_srv.Policy.Transition.{
  disable_unless, disable_other, make_room, or_not_found, transition_if, transition_head,
  transition_status,
}
use license_srv.Policy.OneLive.{RulesOk, Leaves, update_status-RulesOk, and_first}
use license_srv.Policy.LiveVersion.{
  get_live_version-Only, get_live_version-none, Yields, update_status-disabled,
}

-- A table in order, in which the rule has no live version but one.
abbrev Ready : String → ℕ → Rules → Type 0
Ready key head rules = RulesOk rules × (any_by (is_other_live key head) rules ≡ false)

Ready-of_none :
    (key : String) (head : ℕ) (rules : Rules)
    → RulesOk rules
    → count_by (is_live_of key) rules ≡ 0
    → Ready key head rules
unfolding is_other_live
Ready-of_none key head rules ok e = (
  ok,
  any_by-eq_false (is_other_live key head) rules (
      omega (
        arith,
        count_by_mono (is_other_live key head) (is_live_of key) rules (λ r h. and_first _ _ h),
      )),
)

other_not_head :
    (key : String) (head : ℕ) (r : PolicyRuleRow)
    → (is_live_of key r ≡ true → is_version key head r ≡ true)
    → is_other_live key head r ≡ false
unfolding is_other_live is_version
other_not_head key head r h = ground arith

ready_of_head :
    (key : String) (head : ℕ) (rules : Rules)
    → All (λ r. is_live_of key r ≡ true → is_version key head r ≡ true) rules
    → any_by (is_other_live key head) rules ≡ false
unfolding any_by
ready_of_head key head [] a = refl
ready_of_head key head (r ∷ rs) (h, a) =
    ground (arith, other_not_head key head r h, ready_of_head key head rs a)

-- What a done statement leaves, and its property.
Yields-Ready :
    (key : String) (head : ℕ) (m : Outcome RuleConstraint (Option PolicyRuleRow × Rules))
    → Yields (λ r. count_by (is_live_of key) r.1 ≡ 0) m
    → Leaves (λ r. RulesOk r.1) m
    → Yields (Ready key head) (m >>= (λ (r : Option PolicyRuleRow × Rules). done r.1))
Yields-Ready key head (done r) y ok = Ready-of_none key head r.1 ok y
Yields-Ready key head (failed e) y ok = y

disable_unless-Ready :
    (is_head : Bool) (key : String) (version head now : ℕ) (rules : Rules)
    → (version == head) ≡ is_head
    → RulesOk rules
    → All (λ r. is_live_of key r ≡ true → is_version key version r ≡ true) rules
    → Yields (Ready key head) (disable_unless is_head key version now rules)
unfolding disable_unless
disable_unless-Ready true key version head now rules e ok a =
    let same : version ≡ head = ground arith in (ok, ready_of_head key head rules (rw same at a))
disable_unless-Ready false key version head now rules e ok a =
    Yields-Ready key head (update_status key version disabled now rules)
      (update_status-disabled key version now rules a)
      (update_status-RulesOk key version disabled now rules ok)

disable_other-Ready :
    (live : Option PolicyRuleRow) (key : String) (head now : ℕ) (rules : Rules)
    → get_live_version key rules ≡ live
    → RulesOk rules
    → Yields (Ready key head) (disable_other key head live now rules)
unfolding disable_other
disable_other-Ready none key head now rules e ok =
    Ready-of_none key head rules ok (get_live_version-none key rules e)
disable_other-Ready (some l) key head now rules e ok =
    disable_unless-Ready (l.version == head) key l.version head now rules refl ok
      (get_live_version-Only key rules l ok e)

make_room-Ready :
    (to_live : Bool) (key : String) (head now : ℕ) (rules : Rules)
    → RulesOk rules
    → Yields
        (λ rest. RulesOk rest × ((to_live && any_by (is_other_live key head) rest) ≡ false))
        (make_room to_live key head now rules)
unfolding make_room
make_room-Ready false key head now rules ok = (ok, refl)
make_room-Ready true key head now rules ok =
    disable_other-Ready (get_live_version key rules) key head now rules refl ok

-- A route that leaves the table in order, or is refused for a reason that is allowed.
abbrev pub Keeps : {A : Type 0} → (RouteError → Type 0) → Outcome RouteError (A × Rules) → Type 0
Keeps Allowed (done (a, rules)) = RulesOk rules
Keeps Allowed (failed e) = Allowed e

-- The refusals of a transition: no such rule, or a pair of statuses that is not permitted.
abbrev pub IsRefusal : (to : RuleStatus) → RouteError → Type 0
IsRefusal to not_found = Unit
IsRefusal to (invalid_state_transition from wanted) = (wanted ≡ to) × (is_permitted from to ≡ false)
IsRefusal to (policy e) = ⊥
IsRefusal to (database c) = ⊥

set_status-done :
    (found : Option PolicyRuleRow) (key : String) (version : ℕ) (to status : RuleStatus) (now : ℕ)
    (rules : Rules)
    → Leaves (λ r. RulesOk r.1) (set_status false found key version status now rules)
    → Keeps (IsRefusal to) (
        of_database (set_status false found key version status now rules)
        >>= (λ (r : Option PolicyRuleRow × Rules). or_not_found r))
unfolding set_status of_database or_not_found
set_status-done none key version to status now rules ok = tt
set_status-done (some r) key version to status now rules ok = ok

update_status-done :
    (key : String) (version : ℕ) (to status : RuleStatus) (now : ℕ) (rules : Rules)
    → RulesOk rules
    → (is_live_status status && any_by (is_other_live key version) rules) ≡ false
    → Keeps (IsRefusal to) (
        of_database (update_status key version status now rules)
        >>= (λ (r : Option PolicyRuleRow × Rules). or_not_found r))
unfolding update_status
update_status-done key version to status now rules ok e =
    let kept = update_status-RulesOk key version status now rules ok in
    rw e (
      set_status-done (find (is_version key version) rules) key version to status now rules
        (rw e at kept))

then_update :
    (key : String) (head : ℕ) (to : RuleStatus) (now : ℕ) (m : Outcome RuleConstraint Rules)
    → Yields
        (λ rest.
          RulesOk rest × ((is_live_status to && any_by (is_other_live key head) rest) ≡ false))
        m
    → Keeps (IsRefusal to) (
        of_database m >>= (λ (rest : Rules).
          of_database (update_status key head to now rest)
          >>= (λ (r : Option PolicyRuleRow × Rules). or_not_found r)))
unfolding of_database
then_update key head to now (done rest) (ok, e) = update_status-done key head to to now rest ok e
then_update key head to now (failed c) y = absurd y

transition_if-Keeps :
    (is_ok : Bool) (key : String) (head : PolicyRuleRow) (to : RuleStatus) (now : ℕ) (rules : Rules)
    → is_permitted head.status to ≡ is_ok
    → RulesOk rules
    → Keeps (IsRefusal to) (transition_if is_ok key head to now rules)
unfolding transition_if
transition_if-Keeps false key head to now rules e ok = (refl, e)
transition_if-Keeps true key head to now rules e ok =
    then_update key head.version to now (make_room (is_live_status to) key head.version now rules)
      (make_room-Ready (is_live_status to) key head.version now rules ok)

transition_head-Keeps :
    (versions : Rules) (key : String) (to : RuleStatus) (now : ℕ) (rules : Rules)
    → RulesOk rules
    → Keeps (IsRefusal to) (transition_head versions key to now rules)
unfolding transition_head
transition_head-Keeps [] key to now rules ok = tt
transition_head-Keeps (head ∷ older) key to now rules ok =
    transition_if-Keeps (is_permitted head.status to) key head to now rules refl ok

-- From a table with one row for a version and one live row for a rule, a transition leaves such a
-- table, or is refused: with 404, or with 409 where the change of status is not permitted. It never
-- meets a constraint of the database.
pub transition_status-Keeps :
    (key : String) (to : RuleStatus) (now : ℕ) (rules : Rules)
    → RulesOk rules
    → Keeps (IsRefusal to) (transition_status key to now rules)
unfolding transition_status
transition_status-Keeps key to now rules ok =
    transition_head-Keeps (get_versions key rules) key to now rules ok
