-- ===== src/Policy/Fired.antt =====
-- The rule that fires at issue, among the rules in the table (`evaluatePolicy` of
-- src/server/modules/policy/evaluate.ts, with rule-repo.ts).
use Prim.Native.String.{String}
use mathlib.Core.Path.{subst}
use license_srv.Prelude.{
  ℕ, ◌≤◌, ◌≡◌, refl, sym, ap, ◌∙◌, inl, inr, Bool, true, none, some, [], ◌∷◌, map, filter_by,
  sort_by, All, All-imp, All-both, Mem, Mem-All, All-sort_by, All-unsort, All-unfilter,
  All-filter_keep, All-filter_by, All-Mem, arith,
}
use license_srv.Js.{Fields}
use license_srv.Policy.Effect.{EntitlementBounds, Decided}
use license_srv.Policy.Resolve.{
  RuleRef, CandidateRule, EntitlementDecisionResult, to_ref, is_match, resolve_entitlement_decision,
}
use license_srv.Policy.Winner.{Precedes, Wins, Settles, resolve-Settles}
use license_srv.Policy.Rules.{
  RuleStatus, active, PolicyRuleRow, Rules, is_live, is_live_status, same_status,
}
use license_srv.Policy.Selects.{
  is_target_of, is_live_target, select_live_rules_for_entitlement, evaluation_order,
  count_live_rules_for_entitlement,
}
use license_srv.Policy.Evaluation.{PolicyConfig, EvaluatePolicyInput, to_candidate, has_status}
use license_srv.Policy.Decide.{Host, condition_options, resolve_rows}
use license_srv.Policy.Preview.{IsOrder, select_active}

-- An active rule of an entitlement.
abbrev pub InForce : ℕ → PolicyRuleRow → Type 0
InForce id r = (is_target_of id r ≡ true) × (has_status active r ≡ true)

status_live : (s : RuleStatus) → same_status s active ≡ true → is_live_status s ≡ true
unfolding same_status is_live_status
status_live active h = refl
status_live RuleStatus.preview h = cc
status_live RuleStatus.disabled h = cc

InForce-live : (id : ℕ) (r : PolicyRuleRow) → InForce id r → is_live_target id r ≡ true
unfolding is_live_target is_live has_status
InForce-live id r (t, a) = ground (arith, status_live r.status a)

live_target : (id : ℕ) (r : PolicyRuleRow) → is_live_target id r ≡ true → is_target_of id r ≡ true
unfolding is_live_target
live_target id r h = ground arith

-- The active rules in force, in the order of the evaluation.
abbrev in_force : (collate : String → String → Bool) → ℕ → Rules → Rules
in_force collate id rules =
    sort_by (evaluation_order collate)
      (filter_by (has_status active) (filter_by (is_live_target id) rules))

module _ (collate : String → String → Bool) (id : ℕ) (rules : Rules) where
  All-in_force :
      (P : PolicyRuleRow → Type 0)
      → All P (in_force collate id rules)
      → All (λ r. InForce id r → P r) rules
  All-in_force P a =
      All-imp _ _ rules (λ r h f. h (InForce-live id r f) f.1)
        (All-unfilter _ (is_live_target id) rules (
          All-unfilter _ (has_status active) (filter_by (is_live_target id) rules)
            (All-unsort (evaluation_order collate) _ _ a)))

  in_force-All : All (λ r. Mem r rules × InForce id r) (in_force collate id rules)
  in_force-All = All-sort_by (evaluation_order collate) _ _ (
      All-imp _ _ _ (λ r h. (h.0.0, (live_target id r h.0.1, h.1)))
        (All-both _ _ _
          (All-filter_keep _ (has_status active) _ (
            All-both _ _ _ (All-filter_keep _ (is_live_target id) rules (All-Mem rules))
              (All-filter_by (is_live_target id) rules)))
          (All-filter_by (has_status active) (filter_by (is_live_target id) rules))))

Mem-map :
    (rows : Rules) (c : CandidateRule)
    → Mem c (map to_candidate rows)
    → (r : PolicyRuleRow) × Mem r rows × (c ≡ to_candidate r)
Mem-map [] c m = absurd m
Mem-map (r ∷ rs) c (inl e) = (r, inl refl, sym e)
Mem-map (r ∷ rs) c (inr m) = let (s, n, e) = Mem-map rs c m in (s, inr n, e)

All-map :
    (P : CandidateRule → Type 0) (rows : Rules)
    → All P (map to_candidate rows)
    → All (λ r. P (to_candidate r)) rows
All-map P [] a = tt
All-map P (r ∷ rs) (p, a) = (p, All-map P rs a)

pub none_fired : (ref : RuleRef) → ¬ (none ≡ some ref)
none_fired ref h = cc

module _ (host : Host) (config : PolicyConfig) (rules : Rules) (input : EvaluatePolicyInput) where
  abbrev matches_in : Fields → PolicyRuleRow → Bool
  matches_in context r =
      is_match host.runtime (condition_options host config rules input) context (to_candidate r)

  -- The reference of a rule in force that matches, and that comes before every rule in force of the
  -- entitlement that matches.
  abbrev pub WinsInForce : (entitlement_id : ℕ) → Fields → RuleRef → Type 0
  WinsInForce id context ref =
      (r : PolicyRuleRow) × Mem r rules
      × InForce id r
      × (ref ≡ to_ref (to_candidate r))
      × (matches_in context r ≡ true)
      × All
          (λ o.
            InForce id o → matches_in context o ≡ true → Precedes (to_candidate r) (to_candidate o))
          rules

  some_ref : (a b : RuleRef) → some a ≡ some b → a ≡ b
  some_ref a b h = cc

  Settles-ref :
      (w : CandidateRule) (context : Fields) (b : EntitlementBounds) (base : Decided)
      (d : EntitlementDecisionResult) (ref : RuleRef)
      → Settles host.runtime (condition_options host config rules input) context w b base d
      → d.fired_rule ≡ some ref
      → ref ≡ to_ref w
  Settles-ref w context b base d ref (inl (clamped, e, f, g)) h =
      some_ref ref (to_ref w) (sym h ∙ f)
  Settles-ref w context b base d ref (inr (reason, e, f, g, k)) h = cc

  wins_in_force :
      (id : ℕ) (context : Fields) (ref : RuleRef) (w : CandidateRule) (on : Rules)
      → on ≡ in_force host.collate id rules
      → Wins host.runtime
          (condition_options host config rules input)
          context
          w
          (map to_candidate on)
      → ref ≡ to_ref w
      → WinsInForce id context ref
  wins_in_force id context ref w on e (m, t, a) f =
      let (r, n, g) = Mem-map on w m in
      let members =
        subst (λ (xs : Rules). All (λ x. Mem x rules × InForce id x) xs) (sym e)
          (in_force-All host.collate id rules) in
      let (here, forced) = Mem-All (λ x. Mem x rules × InForce id x) on members n in
      let below = All-map _ on a in
      (
        r,
        here,
        forced,
        f ∙ ap to_ref g,
        ap (is_match host.runtime (condition_options host config rules input) context) (sym g) ∙ t,
        All-in_force host.collate id rules
            (λ o. matches_in context o ≡ true → Precedes (to_candidate r) (to_candidate o))
            (All-imp _ _ _
              (λ o h k. subst (λ (c : CandidateRule). Precedes c (to_candidate o)) g (h k))
              (subst
                (λ (xs : Rules).
                  All (λ o. matches_in context o ≡ true → Precedes w (to_candidate o)) xs)
                e below)),
      )

  -- The rule that fires, of those that are selected without being cut off.
  pub fired-WinsInForce :
      (order : IsOrder host.collate) (id limit : ℕ) (context : Fields) (b : EntitlementBounds)
      (base : Decided) (ref : RuleRef)
      → count_live_rules_for_entitlement id rules ≤ limit
      → (resolve_rows host config rules input context b base (
          filter_by
            (has_status active)
            (select_live_rules_for_entitlement host.collate id limit rules))).fired_rule
        ≡ some ref
      → WinsInForce id context ref
  unfolding resolve_rows
  fired-WinsInForce order id limit context b base ref few h =
      let on =
        filter_by (has_status active)
          (select_live_rules_for_entitlement host.collate id limit rules) in
      let d =
        resolve_entitlement_decision host.runtime (condition_options host config rules input)
          context (map to_candidate on) b base in
      elim (resolve-Settles host.runtime (condition_options host config rules input) context
        (map to_candidate on) b base) [
          | inl (a, e) ↦
              absurd
                (none_fired ref (sym (ap (λ (r : EntitlementDecisionResult). r.fired_rule) e) ∙ h))
          | inr (w, wins, s) ↦
              wins_in_force id context ref w on
                (select_active host.collate order id limit rules few) wins
                (Settles-ref w context b base d ref s h)
        ]
