-- ===== src/Policy/Decisions.antt =====
-- What the rules may decide at issue (`evaluatePolicy` of src/server/modules/policy/evaluate.ts).
use Prim.Native.String.{String}
use text.Mathlib.Text.{◌==◌ as str_eq}
use license_srv.Prelude.{
  ℕ, suc, ◌≡◌, refl, ◌⊎◌, inl, inr, Bool, true, false, Option, none, some, List, [], ◌∷◌, ◌++◌, map,
  find, filter_by, All, All-imp, Mem, find-Mem, find-eq-some,
}
use license_srv.Js.{Fields}
use license_srv.Policy.Outcome.{Outcome, done, failed}
use license_srv.Policy.Effect.{EntitlementBounds, Decided}
use license_srv.Policy.Resolve.{EntitlementDecisionResult}
use license_srv.Policy.Bounded.{InBounds}
use license_srv.Policy.Enforced.{resolve-InBounds}
use license_srv.Policy.Context.{ContextError, build_decision_context}
use license_srv.Policy.Rules.{RuleStatus, active, Rules}
use license_srv.Policy.Selects.{select_live_rules_for_entitlement}
use license_srv.Policy.Decide.{
  condition_options, Host, resolve_rows, is_over_cap, decide_rows, decide_in_context,
  decide_bounded, decide_all, evaluate_policy,
}
use license_srv.Policy.Evaluation.{
  EvaluationMode, PolicyConfig, EffectiveEntitlement, EntitlementBoundRow, EvaluatePolicyInput,
  bounds_of, has_status, mode_of, sources_of, context_caps, to_candidate, joined, enforced_branch,
  preview_branch,
}

pub All-append {ℓ κ} :
    {A : Type ℓ} (P : A → Type κ) (xs ys : List A) → All P xs → All P ys → All P (xs ++ ys)
All-append P [] ys a b = b
All-append P (x ∷ xs) ys (p, a) b = (p, All-append P xs ys a b)

enforced_branch-All :
    (P : String × Decided → Type 0) (ent : EffectiveEntitlement) (mode : EvaluationMode) (hash : ℕ)
    (context : Fields) (rows : Rules) (over : Bool) (r : EntitlementDecisionResult)
    → P (ent.key, r.decision)
    → All P (enforced_branch ent mode hash context rows over r).decisions
unfolding enforced_branch
enforced_branch-All P ent mode hash context [] over r p = tt
enforced_branch-All P ent mode hash context (row ∷ rows) true r p = tt
enforced_branch-All P ent mode hash context (row ∷ rows) false r p = (p, tt)

-- A preview decides nothing.
pub preview_branch_none :
    (ent : EffectiveEntitlement) (hash : ℕ) (context : Fields) (rows : Rules) (over : Bool)
    (r : EntitlementDecisionResult)
    → (preview_branch ent hash context rows over r).decisions ≡ []
unfolding preview_branch
preview_branch_none ent hash context [] over r = refl
preview_branch_none ent hash context (row ∷ rows) true r = refl
preview_branch_none ent hash context (row ∷ rows) false r = refl

module _ (host : Host) (config : PolicyConfig) (input : EvaluatePolicyInput)
    (bounds : List EntitlementBoundRow) where
  -- A decision on one of the entitlements: its base value, or a value within the bounds in its row.
  abbrev pub IsSafe : List EffectiveEntitlement → String × Decided → Type 0
  IsSafe ents d =
      (ent : EffectiveEntitlement) × Mem ent ents
      × (ent.key ≡ d.0)
      × ((d.1 ≡ ent.value)
          ⊎ ((row : EntitlementBoundRow) × Mem row bounds
              × (str_eq row.key ent.key ≡ true)
              × InBounds (bounds_of config row) d.1))

  module _ (rules : Rules) where
    decide_rows-All :
        (P : String × Decided → Type 0) (ent : EffectiveEntitlement) (b : EntitlementBounds)
        (live : Rules) (built : Outcome ContextError Fields)
        → ((v : Decided) → (v ≡ ent.value) ⊎ InBounds b v → P (ent.key, v))
        → All P (decide_in_context host config rules input ent b live built).decisions
    unfolding decide_in_context decide_rows joined
    decide_rows-All P ent b live (failed e) h = tt
    decide_rows-All P ent b live (done context) h =
        let hash = host.context_hash context in
        let on = filter_by (has_status active) live in
        let staged = filter_by (has_status RuleStatus.preview) live in
        let r = resolve_rows host config rules input context b ent.value on in
        let s = resolve_rows host config rules input context b ent.value staged in
        let over = is_over_cap host config rules input in
        let asked = enforced_branch ent (mode_of input.mode) hash context on (over on) r in
        let shown = preview_branch ent hash context staged (over staged) s in
        let none_shown : shown.decisions ≡ [] =
          preview_branch_none ent hash context staged (over staged) s in
        let shown_all : All P shown.decisions = rw none_shown tt in
        All-append P asked.decisions shown.decisions
          (enforced_branch-All P ent (mode_of input.mode) hash context on (over on) r (
            h r.decision (
              resolve-InBounds host.runtime (condition_options host config rules input) context
                (map to_candidate on) b ent.value)))
          shown_all

    decide_bounded-Safe :
        (ent : EffectiveEntitlement) (ents : List EffectiveEntitlement)
        (found : Option EntitlementBoundRow)
        → find (λ row. str_eq row.key ent.key) bounds ≡ found
        → All (IsSafe (ent ∷ ents)) (decide_bounded host config rules input ent found).decisions
    unfolding decide_bounded
    decide_bounded-Safe ent ents none e = tt
    decide_bounded-Safe ent ents (some row) e =
        decide_rows-All (IsSafe (ent ∷ ents)) ent (bounds_of config row)
          (select_live_rules_for_entitlement host.collate row.id (suc config.max_rules_per_issuance)
            rules)
          (build_decision_context host.runtime.serialized_bytes (sources_of input ent row)
            (context_caps config))
          (λ v h. (
            ent,
            inl refl,
            refl,
            elim h [
              | inl b ↦ inl b
              | inr b ↦ inr (
                row,
                find-Mem (λ r. str_eq r.key ent.key) bounds e,
                find-eq-some (λ r. str_eq r.key ent.key) bounds e,
                b,
              )
            ],
          ))

    decide_all-Safe :
        (ents : List EffectiveEntitlement)
        → All (IsSafe ents) (decide_all host config rules input bounds ents).decisions
    unfolding decide_all joined
    decide_all-Safe [] = tt
    decide_all-Safe (ent ∷ ents) =
        All-append (IsSafe (ent ∷ ents)) _ _
          (decide_bounded-Safe ent ents (find (λ row. str_eq row.key ent.key) bounds) refl)
          (All-imp _ _ _ (λ d s. (s.0, inr s.1, s.2, s.3)) (decide_all-Safe ents))

    -- Every decision of an issue is on one of its entitlements, and is the base value of that
    -- entitlement or a value within the bounds that were authored for it.
    pub evaluate_policy-Safe :
        All (IsSafe input.entitlements) (evaluate_policy host config rules input bounds).decisions
    unfolding evaluate_policy
    evaluate_policy-Safe = decide_all-Safe input.entitlements
