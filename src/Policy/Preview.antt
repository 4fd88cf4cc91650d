-- ===== src/Policy/Preview.antt =====
-- The rules in preview, at issue (`evaluatePolicy` of src/server/modules/policy/evaluate.ts).
use Prim.Native.String.{String}
use text.Mathlib.Text.{◌==◌ as str_eq}
use license_srv.Prelude.{
  ℕ, suc, ◌≤◌, ◌≡◌, refl, sym, ap, ◌∙◌, Bool, true, false, not, ◌&&◌, Option, none, some, List, [],
  ◌∷◌, ◌++◌, find, filter_by, sort_by, count_by, All, arith, take_all, length-sort_by,
  length-filter_by, count_by-filter_by, count_by_mono, filter_by-sort_by, Mem-All, find-Mem,
}
use license_srv.Js.{Fields}
use license_srv.Policy.Outcome.{Outcome, done, failed}
use license_srv.Policy.Effect.{EntitlementBounds, Decided}
use license_srv.Policy.Ranking.{then_by_total, then_by_trans, leb_ℤ_total, leb_ℤ_trans}
use license_srv.Policy.Context.{ContextError, build_decision_context}
use license_srv.Policy.Rules.{RuleStatus, active, PolicyRuleRow, Rules, same_status}
use license_srv.Policy.Selects.{
  is_live_target, select_live_rules_for_entitlement, evaluation_order,
  count_live_rules_for_entitlement,
}
use license_srv.Policy.Decide.{
  Host, resolve_rows, is_over_cap, decide_rows, decide_in_context, decide_bounded, decide_all,
  evaluate_policy,
}
use license_srv.Policy.Evaluation.{
  PolicyConfig, EffectiveEntitlement, EntitlementBoundRow, EvaluatePolicyInput, bounds_of,
  has_status, sources_of, context_caps, mode_of, joined, enforced_branch,
}
use license_srv.Policy.Decisions.{preview_branch_none}

-- The rules that are not in preview.
abbrev pub without_preview : Rules → Rules
without_preview rules = filter_by (λ r. not (has_status RuleStatus.preview r)) rules

filter_by_thrice {ℓ} :
    {A : Type ℓ} (p q s : A → Bool) (xs : List A)
    → ((x : A) → p x ≡ true → s x ≡ true)
    → filter_by p (filter_by q (filter_by s xs)) ≡ filter_by p (filter_by q xs)
unfolding filter_by
filter_by_thrice p q s [] h = refl
filter_by_thrice p q s (x ∷ xs) h = ground (arith, filter_by_thrice p q s xs h, h x)

status_not_preview :
    (s : RuleStatus) → same_status s active ≡ true → not (same_status s RuleStatus.preview) ≡ true
unfolding same_status
status_not_preview active h = refl
status_not_preview RuleStatus.preview h = cc
status_not_preview RuleStatus.disabled h = cc

active_not_preview :
    (r : PolicyRuleRow) → has_status active r ≡ true → not (has_status RuleStatus.preview r) ≡ true
unfolding has_status
active_not_preview r h = status_not_preview r.status h

-- The order of texts in a database is total and transitive.
abbrev pub IsOrder : (String → String → Bool) → Type 0
IsOrder collate =
    ((a b : String) → collate a b ≡ false → collate b a ≡ true)
    × ((a b c : String) → collate a b ≡ true → collate b c ≡ true → collate a c ≡ true)

module _ (collate : String → String → Bool) (order : IsOrder collate) where
  evaluation_order_total :
      (a b : PolicyRuleRow)
      → evaluation_order collate a b ≡ false
      → evaluation_order collate b a ≡ true
  unfolding evaluation_order
  evaluation_order_total a b h =
      then_by_total _ _ _ _ (leb_ℤ_total b.priority a.priority) (leb_ℤ_total a.priority b.priority)
        (then_by_total _ _ _ _ (order.0 a.rule_key b.rule_key) (order.0 b.rule_key a.rule_key)
          (λ e. ground arith))
        h

  evaluation_order_trans :
      (a b c : PolicyRuleRow)
      → evaluation_order collate a b ≡ true
      → evaluation_order collate b c ≡ true
      → evaluation_order collate a c ≡ true
  unfolding evaluation_order
  evaluation_order_trans a b c h k =
      let p = a.priority in
      let q = b.priority in
      let r = c.priority in
      let u = a.rule_key in
      let v = b.rule_key in
      let w = c.rule_key in
      then_by_trans _ _ _ _ _ _ _ _ _ (λ s t. leb_ℤ_trans r q p t s) (λ s t. leb_ℤ_trans p q r t s)
        (λ s t. leb_ℤ_trans q p r t s) (λ s t. leb_ℤ_trans p r q t s)
        (then_by_trans _ _ _ _ _ _ _ _ _ (order.1 u v w) (order.1 w v u) (order.1 w u v)
          (order.1 v w u) (λ s t. ground arith))
        h k

  -- The active rules among those selected, where none is cut off, in order.
  pub select_active :
      (id limit : ℕ) (rules : Rules)
      → count_live_rules_for_entitlement id rules ≤ limit
      → filter_by (has_status active) (select_live_rules_for_entitlement collate id limit rules)
        ≡ sort_by
            (evaluation_order collate)
            (filter_by (has_status active) (filter_by (is_live_target id) rules))
  unfolding select_live_rules_for_entitlement count_live_rules_for_entitlement
  select_active id limit rules h =
      let live = filter_by (is_live_target id) rules in
      let le = evaluation_order collate in
      rw
        (take_all limit (sort_by le live)
          (omega (arith, length-sort_by le live, length-filter_by (is_live_target id) rules)))
        (filter_by-sort_by le evaluation_order_total evaluation_order_trans (has_status active)
          live)

  active_unchanged :
      (id limit : ℕ) (rules : Rules)
      → count_live_rules_for_entitlement id rules ≤ limit
      → filter_by (has_status active) (select_live_rules_for_entitlement collate id limit rules)
        ≡ filter_by
            (has_status active)
            (select_live_rules_for_entitlement collate id limit (without_preview rules))
  unfolding count_live_rules_for_entitlement
  active_unchanged id limit rules h =
      let s : PolicyRuleRow → Bool = λ r. not (has_status RuleStatus.preview r) in
      let fewer : count_by (is_live_target id) (filter_by s rules) ≤ limit = omega (
        arith,
        count_by-filter_by (is_live_target id) s rules,
        count_by_mono (λ x. s x && is_live_target id x) (is_live_target id) rules
            (λ x e. ground arith),
      ) in
      select_active id limit rules h
      ∙ ap (sort_by (evaluation_order collate)) (
          sym (filter_by_thrice (has_status active) (is_live_target id) s rules active_not_preview))
      ∙ sym (select_active id limit (without_preview rules) fewer)

module _ (host : Host) (config : PolicyConfig) (rules : Rules) (input : EvaluatePolicyInput)
    (order : IsOrder host.collate) where
  -- The decisions of the enforced branch, for its rules.
  abbrev decisions_of :
      EffectiveEntitlement → EntitlementBounds → Fields → Rules → List (String × Decided)
  decisions_of ent b context on =
      (enforced_branch ent (mode_of input.mode) (host.context_hash context) context on
        (is_over_cap host config rules input on)
        (resolve_rows host config rules input context b ent.value on)).decisions
      ++ []

  decide_rows_same :
      (ent : EffectiveEntitlement) (b : EntitlementBounds) (context : Fields) (live others : Rules)
      → filter_by (has_status active) live ≡ filter_by (has_status active) others
      → (decide_rows host config rules input ent b context live).decisions
        ≡ (decide_rows host config (without_preview rules) input ent b context others).decisions
  unfolding decide_rows joined is_over_cap resolve_rows
  decide_rows_same ent b context live others e =
      rw
        (
          preview_branch_none ent (host.context_hash context) context
              (filter_by (has_status RuleStatus.preview) live) _ _,
          preview_branch_none ent (host.context_hash context) context
              (filter_by (has_status RuleStatus.preview) others) _ _,
        )
        (ap (decisions_of ent b context) e)

  decide_in_context_same :
      (ent : EffectiveEntitlement) (b : EntitlementBounds) (built : Outcome ContextError Fields)
      (live others : Rules)
      → filter_by (has_status active) live ≡ filter_by (has_status active) others
      → (decide_in_context host config rules input ent b live built).decisions
        ≡ (decide_in_context host config (without_preview rules) input ent b others built).decisions
  unfolding decide_in_context
  decide_in_context_same ent b (failed e) live others h = refl
  decide_in_context_same ent b (done context) live others h =
      decide_rows_same ent b context live others h

  -- An entitlement whose live rules are not cut off by the limit of a selection.
  abbrev pub IsSelected : EntitlementBoundRow → Type 0
  IsSelected row = count_live_rules_for_entitlement row.id rules ≤ suc config.max_rules_per_issuance

  decide_bounded_same :
      (ent : EffectiveEntitlement) (bounds : List EntitlementBoundRow)
      (found : Option EntitlementBoundRow)
      → All IsSelected bounds
      → find (λ row. str_eq row.key ent.key) bounds ≡ found
      → (decide_bounded host config rules input ent found).decisions
        ≡ (decide_bounded host config (without_preview rules) input ent found).decisions
  unfolding decide_bounded
  decide_bounded_same ent bounds none a e = refl
  decide_bounded_same ent bounds (some row) a e =
      let limit = suc config.max_rules_per_issuance in
      let within = Mem-All IsSelected bounds a (find-Mem (λ r. str_eq r.key ent.key) bounds e) in
      decide_in_context_same ent (bounds_of config row)
        (build_decision_context host.runtime.serialized_bytes (sources_of input ent row)
          (context_caps config))
        (select_live_rules_for_entitlement host.collate row.id limit rules)
        (select_live_rules_for_entitlement host.collate row.id limit (without_preview rules))
        (active_unchanged host.collate order row.id limit rules within)

  decide_all_same :
      (bounds : List EntitlementBoundRow) (ents : List EffectiveEntitlement)
      → All IsSelected bounds
      → (decide_all host config rules input bounds ents).decisions
        ≡ (decide_all host config (without_preview rules) input bounds ents).decisions
  unfolding decide_all joined
  decide_all_same bounds [] a = refl
  decide_all_same bounds (ent ∷ ents) a =
      rw
        (
          decide_bounded_same ent bounds (find (λ row. str_eq row.key ent.key) bounds) a refl,
          decide_all_same bounds ents a,
        )
        refl

  -- Where no entitlement has more live rules than a selection takes, a rule in preview changes no
  -- decision: the decisions are those of the rules without the ones in preview.
  pub evaluate_policy-without_preview :
      (bounds : List EntitlementBoundRow)
      → All IsSelected bounds
      → (evaluate_policy host config rules input bounds).decisions
        ≡ (evaluate_policy host config (without_preview rules) input bounds).decisions
  unfolding evaluate_policy
  evaluate_policy-without_preview bounds a = decide_all_same bounds input.entitlements a
