-- ===== src/Policy/Trail.antt =====
-- What the evaluations of an issue record (`evaluatePolicy` of src/server/modules/policy/evaluate.ts).
use text.Mathlib.Text.{◌==◌ as str_eq}
use license_srv.Prelude.{
  ℕ, suc, ◌≡◌, refl, Bool, true, false, Option, none, some, List, [], ◌∷◌, find, filter_by, All,
  Mem, Mem-All, find-Mem, find-eq-some,
}
use license_srv.Js.{Fields}
use license_srv.Policy.Outcome.{Outcome, done, failed}
use license_srv.Policy.Effect.{EntitlementBounds}
use license_srv.Policy.Resolve.{RuleRef, EntitlementDecisionResult}
use license_srv.Policy.Context.{ContextError, build_decision_context}
use license_srv.Policy.Rules.{RuleStatus, active, Rules}
use license_srv.Policy.Selects.{select_live_rules_for_entitlement}
use license_srv.Policy.Evaluation.{
  EvaluationMode, enforced, PolicyConfig, EffectiveEntitlement, EntitlementBoundRow,
  EvaluatePolicyInput, EntitlementEvaluation, bounds_of, sources_of, context_caps, has_status,
  mode_of, record_of, base_result, joined, enforced_branch, preview_branch,
}
use license_srv.Policy.Decide.{
  Host, resolve_rows, is_over_cap, decide_rows, decide_in_context, decide_bounded, decide_all,
  evaluate_policy,
}
use license_srv.Policy.Decisions.{All-append}
use license_srv.Policy.Preview.{IsOrder, IsSelected}
use license_srv.Policy.Fired.{WinsInForce, fired-WinsInForce, none_fired}

enforced_evaluations :
    (P : EntitlementEvaluation → Type 0) (ent : EffectiveEntitlement) (mode : EvaluationMode)
    (hash : ℕ) (context : Fields) (rows : Rules) (over : Bool) (r : EntitlementDecisionResult)
    → P (record_of ent mode (base_result ent.value) hash context)
    → P (record_of ent mode r hash context)
    → All P (enforced_branch ent mode hash context rows over r).evaluations
unfolding enforced_branch
enforced_evaluations P ent mode hash context [] over r p q = tt
enforced_evaluations P ent mode hash context (row ∷ rows) true r p q = (p, tt)
enforced_evaluations P ent mode hash context (row ∷ rows) false r p q = (q, tt)

preview_evaluations :
    (P : EntitlementEvaluation → Type 0) (ent : EffectiveEntitlement) (hash : ℕ) (context : Fields)
    (rows : Rules) (over : Bool) (r : EntitlementDecisionResult)
    → ((d : EntitlementDecisionResult) → P (record_of ent EvaluationMode.preview d hash context))
    → All P (preview_branch ent hash context rows over r).evaluations
unfolding preview_branch
preview_evaluations P ent hash context [] over r p = tt
preview_evaluations P ent hash context (row ∷ rows) true r p = (p (base_result ent.value), tt)
preview_evaluations P ent hash context (row ∷ rows) false r p = (p r, tt)

preview_not : ¬ (EvaluationMode.preview ≡ enforced)
preview_not h = cc

module _ (host : Host) (config : PolicyConfig) (rules : Rules) (input : EvaluatePolicyInput)
    (order : IsOrder host.collate) (bounds : List EntitlementBoundRow)
    (few : All (IsSelected host config rules input order) bounds) where
  -- An enforced evaluation in which a rule has fired names the rule that wins among those in force.
  abbrev pub IsTrue : EntitlementEvaluation → Type 0
  IsTrue ev =
      ev.mode ≡ enforced
      → (ref : RuleRef) → ev.fired_rule ≡ some ref
      → (row : EntitlementBoundRow) × Mem row bounds
        × (str_eq row.key ev.entitlement_key ≡ true)
        × WinsInForce host config rules input row.id ev.input_snapshot ref

  decide_in_context-IsTrue :
      (ent : EffectiveEntitlement) (row : EntitlementBoundRow) (b : EntitlementBounds)
      (built : Outcome ContextError Fields)
      → Mem row bounds
      → str_eq row.key ent.key ≡ true
      → All IsTrue
          (decide_in_context host config rules input ent b
            (select_live_rules_for_entitlement host.collate row.id
              (suc config.max_rules_per_issuance)
              rules)
            built).evaluations
  unfolding decide_in_context decide_rows joined record_of base_result
  decide_in_context-IsTrue ent row b (failed e) m k = tt
  decide_in_context-IsTrue ent row b (done context) m k =
      let limit = suc config.max_rules_per_issuance in
      let live = select_live_rules_for_entitlement host.collate row.id limit rules in
      let on = filter_by (has_status active) live in
      let staged = filter_by (has_status RuleStatus.preview) live in
      let hash = host.context_hash context in
      let over = is_over_cap host config rules input in
      let r = resolve_rows host config rules input context b ent.value on in
      let s = resolve_rows host config rules input context b ent.value staged in
      All-append IsTrue
        (enforced_branch ent (mode_of input.mode) hash context on (over on) r).evaluations
        (preview_branch ent hash context staged (over staged) s).evaluations
        (enforced_evaluations IsTrue ent (mode_of input.mode) hash context on (over on) r
          (λ mode ref h. absurd (none_fired ref h))
          (λ mode ref h. (
            row,
            m,
            k,
            fired-WinsInForce host config rules input order row.id limit context b ent.value ref
                (Mem-All (IsSelected host config rules input order) bounds few m) h,
          )))
        (preview_evaluations IsTrue ent hash context staged (over staged) s
          (λ d mode. absurd (preview_not mode)))

  decide_bounded-IsTrue :
      (ent : EffectiveEntitlement) (found : Option EntitlementBoundRow)
      → find (λ row. str_eq row.key ent.key) bounds ≡ found
      → All IsTrue (decide_bounded host config rules input ent found).evaluations
  unfolding decide_bounded
  decide_bounded-IsTrue ent none e = tt
  decide_bounded-IsTrue ent (some row) e =
      decide_in_context-IsTrue ent row (bounds_of config row)
        (build_decision_context host.runtime.serialized_bytes (sources_of input ent row)
          (context_caps config))
        (find-Mem (λ r. str_eq r.key ent.key) bounds e)
        (find-eq-some (λ r. str_eq r.key ent.key) bounds e)

  decide_all-IsTrue :
      (ents : List EffectiveEntitlement)
      → All IsTrue (decide_all host config rules input bounds ents).evaluations
  unfolding decide_all joined
  decide_all-IsTrue [] = tt
  decide_all-IsTrue (ent ∷ ents) =
      All-append IsTrue
        (decide_bounded host config rules input ent
          (find (λ row. str_eq row.key ent.key) bounds)).evaluations
        (decide_all host config rules input bounds ents).evaluations
        (decide_bounded-IsTrue ent (find (λ row. str_eq row.key ent.key) bounds) refl)
        (decide_all-IsTrue ents)

  -- Where no entitlement has more live rules than a selection takes, an enforced evaluation that
  -- names a fired rule names an active rule of its entitlement that matches in the recorded context,
  -- and that comes before every active rule of the entitlement that matches, by priority, then rule
  -- key, then version.
  pub evaluate_policy-IsTrue :
      All IsTrue (evaluate_policy host config rules input bounds).evaluations
  unfolding evaluate_policy
  evaluate_policy-IsTrue = decide_all-IsTrue input.entitlements
