-- ===== src/Policy/Decide.antt =====
-- src/server/modules/policy/evaluate.ts: `evaluatePolicy`, what the rules decide at issue. The hash of
-- a context is a parameter; what an audit row records is the evaluation.
use Prim.Native.String.{String}
use text.Mathlib.Text.{◌==◌ as str_eq}
use license_srv.Prelude.{
  ℕ, suc, Bool, Option, none, some, List, [], ◌∷◌, map, ltb, length, find, filter_by,
}
use license_srv.Js.{Fields}
use license_srv.Policy.Outcome.{Outcome, done, failed}
use license_srv.Policy.Condition.{Runtime, EvaluateConditionOptions}
use license_srv.Policy.Effect.{EntitlementBounds, Decided}
use license_srv.Policy.Resolve.{EntitlementDecisionResult, resolve_entitlement_decision}
use license_srv.Policy.Context.{ContextError, build_decision_context}
use license_srv.Policy.Rules.{RuleStatus, active, Rules}
use license_srv.Policy.Selects.{select_live_rules_for_entitlement}
use license_srv.Policy.Evaluation.{
  PolicyConfig, EffectiveEntitlement, EntitlementBoundRow, EvaluatePolicyInput,
  EvaluatePolicyResult, nothing, to_candidate, bounds_of, sources_of, context_caps, mode_of,
  has_status, joined, enforced_branch, preview_branch,
}

-- The parameters of an evaluation: what the host gives, by rule what the clock says, the order of
-- texts in the database and the hash of a context.
pub record Host : Type 0 where
  pub runtime : Runtime
  pub is_late : (rule_id : ℕ) → ℕ → Bool
  pub collate : String → String → Bool
  pub context_hash : Fields → ℕ

module _ (host : Host) (config : PolicyConfig) (rules : Rules) (input : EvaluatePolicyInput) where
  abbrev pub condition_options : (rule_id : ℕ) → EvaluateConditionOptions
  condition_options rule_id = record {
    max_bytes = some config.condition_max_bytes;
    max_depth = config.condition_max_depth;
    max_complexity = config.condition_max_complexity;
    now = some input.decision_timestamp;
    is_late = host.is_late rule_id;
  }

  unfoldable pub resolve_rows :
      Fields → EntitlementBounds → Decided → Rules → EntitlementDecisionResult
  unfolding resolve_entitlement_decision to_candidate
  resolve_rows context bounds base rows =
      resolve_entitlement_decision host.runtime condition_options context (map to_candidate rows)
        bounds base

  unfoldable pub is_over_cap : Rules → Bool
  is_over_cap rows = ltb config.max_rules_per_issuance (length rows)

  unfoldable pub decide_rows :
      EffectiveEntitlement → EntitlementBounds → Fields → (live : Rules) → EvaluatePolicyResult
  unfolding joined enforced_branch preview_branch mode_of is_over_cap resolve_rows filter_by
      has_status
  decide_rows ent bounds context live =
      let on = filter_by (has_status active) live in
      let staged = filter_by (has_status RuleStatus.preview) live in
      let hash = host.context_hash context in
      joined
        (enforced_branch ent (mode_of input.mode) hash context on (is_over_cap on)
          (resolve_rows context bounds ent.value on))
        (preview_branch ent hash context staged (is_over_cap staged)
          (resolve_rows context bounds ent.value staged))

  unfoldable pub decide_in_context :
      EffectiveEntitlement
      → EntitlementBounds
      → (live : Rules) → Outcome ContextError Fields
      → EvaluatePolicyResult
  unfolding decide_rows
  decide_in_context ent bounds live (failed e) = nothing
  decide_in_context ent bounds live (done context) = decide_rows ent bounds context live

  unfoldable pub decide_bounded :
      EffectiveEntitlement → Option EntitlementBoundRow → EvaluatePolicyResult
  unfolding decide_in_context bounds_of build_decision_context sources_of
      select_live_rules_for_entitlement
  decide_bounded ent none = nothing
  decide_bounded ent (some row) =
      decide_in_context ent (bounds_of config row)
        (select_live_rules_for_entitlement host.collate row.id (suc config.max_rules_per_issuance)
          rules)
        (build_decision_context host.runtime.serialized_bytes (sources_of input ent row)
          (context_caps config))

  unfoldable pub decide_all :
      List EntitlementBoundRow → List EffectiveEntitlement → EvaluatePolicyResult
  unfolding joined decide_bounded find
  decide_all bounds [] = nothing
  decide_all bounds (ent ∷ ents) =
      joined (decide_bounded ent (find (λ row. str_eq row.key ent.key) bounds))
        (decide_all bounds ents)

  unfoldable pub evaluate_policy : (bounds : List EntitlementBoundRow) → EvaluatePolicyResult
  unfolding decide_all
  evaluate_policy bounds = decide_all bounds input.entitlements
