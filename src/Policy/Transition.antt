-- ===== src/Policy/Transition.antt =====
-- `POST /admin/policy/rules/:ruleKey/status` of src/server/modules/policy/routes.ts: the life cycle of
-- a rule's newest version.
use Prim.Native.String.{String}
use license_srv.Prelude.{ℕ, Bool, true, false, Option, none, some, [], ◌∷◌, ◌==◌}
use license_srv.Policy.Outcome.{Outcome, done, failed, ◌>>=◌}
use license_srv.Policy.Rules.{
  RuleStatus, disabled, PolicyRuleRow, Rules, RuleConstraint, is_live_status, update_status,
}
use license_srv.Policy.Selects.{get_versions, get_live_version}
use license_srv.Policy.Routes.{
  RouteError, not_found, invalid_state_transition, of_database, is_permitted,
}

-- The live version, unless it is the newest.
unfoldable pub disable_unless :
    (is_head : Bool) → String → (version now : ℕ) → Rules → Outcome RuleConstraint Rules
unfolding update_status
disable_unless true key version now rules = done rules
disable_unless false key version now rules =
    update_status key version disabled now rules
    >>= (λ (r : Option PolicyRuleRow × Rules). done r.1)

unfoldable pub disable_other :
    String
    → (head : ℕ) → (live : Option PolicyRuleRow) → (now : ℕ) → Rules
    → Outcome RuleConstraint Rules
unfolding disable_unless
disable_other key head none now rules = done rules
disable_other key head (some live) now rules =
    disable_unless (live.version == head) key live.version now rules

-- Before a live status, another live version is disabled.
unfoldable pub make_room :
    (to_live : Bool) → String → (head now : ℕ) → Rules → Outcome RuleConstraint Rules
unfolding disable_other get_live_version
make_room false key head now rules = done rules
make_room true key head now rules = disable_other key head (get_live_version key rules) now rules

unfoldable pub or_not_found :
    Option PolicyRuleRow × Rules → Outcome RouteError (PolicyRuleRow × Rules)
or_not_found (none, rules) = failed not_found
or_not_found (some r, rules) = done (r, rules)

unfoldable pub transition_if :
    (is_ok : Bool)
    → String
    → (head : PolicyRuleRow) → (to : RuleStatus) → (now : ℕ) → Rules
    → Outcome RouteError (PolicyRuleRow × Rules)
unfolding of_database make_room update_status or_not_found is_live_status
transition_if false key head to now rules = failed (invalid_state_transition head.status to)
transition_if true key head to now rules =
    of_database (make_room (is_live_status to) key head.version now rules) >>= (λ (rest : Rules).
      of_database (update_status key head.version to now rest)
      >>= (λ (r : Option PolicyRuleRow × Rules). or_not_found r))

unfoldable pub transition_head :
    (versions : Rules)
    → String
    → (to : RuleStatus) → (now : ℕ) → Rules
    → Outcome RouteError (PolicyRuleRow × Rules)
unfolding transition_if is_permitted
transition_head [] key to now rules = failed not_found
transition_head (head ∷ older) key to now rules =
    transition_if (is_permitted head.status to) key head to now rules

unfoldable pub transition_status :
    String → (to : RuleStatus) → (now : ℕ) → Rules → Outcome RouteError (PolicyRuleRow × Rules)
unfolding transition_head get_versions
transition_status key to now rules = transition_head (get_versions key rules) key to now rules
