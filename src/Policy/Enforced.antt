-- ===== src/Policy/Enforced.antt =====
-- What `resolveEntitlementDecision` (src/server/modules/policy/evaluate.ts) may decide, and what it
-- decides where the rules have passed the checks of validate.ts.
use license_srv.Prelude.{
  ℕ, ◌≡◌, sym, ap, ◌∙◌, ◌⊎◌, inl, inr, Bool, true, false, some, List, All, Mem-All,
}
use mathlib.Core.Path.{subst}
use license_srv.Js.{Fields}
use license_srv.Policy.Outcome.{done}
use license_srv.Policy.Condition.{Runtime, EvaluateConditionOptions}
use license_srv.Policy.Effect.{EntitlementBounds, Refusal, Decided, applied, refused}
use license_srv.Policy.Resolve.{
  CandidateRule, EntitlementDecisionResult, to_ref, is_match, apply_descriptor,
  resolve_entitlement_decision,
}
use license_srv.Policy.Winner.{Wins, Settles, unmatched, resolve-Settles}
use license_srv.Policy.Authoring.{validate_effect}
use license_srv.Policy.Bounded.{InBounds, ResultInBounds, apply_descriptor-InBounds}
use license_srv.Policy.Asked.{requested, value_of, AppliedAs, validate_effect-AppliedAs}

decided_same : (a b : Decided) (c e : Bool) → applied a c ≡ applied b e → a ≡ b
decided_same a b c e h = cc

clash : (d : Decided) (reason : Refusal) → ¬ (refused reason ≡ applied d false)
clash d reason h = cc

module _ (rt : Runtime) (opts : ℕ → EvaluateConditionOptions) (context : Fields)
    (cs : List CandidateRule) (bounds : EntitlementBounds) (base : Decided) where
  abbrev decided : EntitlementDecisionResult
  decided = resolve_entitlement_decision rt opts context cs bounds base

  Settles-InBounds :
      (w : CandidateRule) (r : EntitlementDecisionResult)
      → Settles rt opts context w bounds base r
      → (r.decision ≡ base) ⊎ InBounds bounds r.decision
  Settles-InBounds w r (inl (clamped, e, f, g)) =
      inr (subst (ResultInBounds bounds) e (apply_descriptor-InBounds w.effect bounds))
  Settles-InBounds w r (inr (reason, e, f, g, k)) = inl f

  -- Whatever the rules say, the decision of an entitlement is its base value or is within the bounds
  -- that were authored for it: one of its tiers; a number that is not negative, and at most the
  -- authored maximum and the absolute one; or a Boolean, if the entitlement is eligible.
  pub resolve-InBounds : (decided.decision ≡ base) ⊎ InBounds bounds decided.decision
  resolve-InBounds = elim (resolve-Settles rt opts context cs bounds base) [
    | inl (a, e) ↦ inl (ap (λ (r : EntitlementDecisionResult). r.decision) e)
    | inr (w, wins, s) ↦ Settles-InBounds w decided s
  ]

  -- A rule that wins, and gives the value that it asks for.
  abbrev pub Enforces : CandidateRule → EntitlementDecisionResult → Type 0
  Enforces w r =
      Wins rt opts context w cs
      × (r.fired_rule ≡ some (to_ref w))
      × (r.enforced ≡ true)
      × (value_of r.decision ≡ requested w.effect)

  Settles-Enforces :
      (w : CandidateRule) (r : EntitlementDecisionResult)
      → AppliedAs (requested w.effect) (apply_descriptor w.effect bounds)
      → Settles rt opts context w bounds base r
      → (r.fired_rule ≡ some (to_ref w))
        × (r.enforced ≡ true)
        × (value_of r.decision ≡ requested w.effect)
  Settles-Enforces w r (d, e, f) (inl (clamped, e', g, k)) =
      (g, k, ap value_of (decided_same r.decision d clamped false (sym e' ∙ e)) ∙ f)
  Settles-Enforces w r (d, e, f) (inr (reason, e', g, k, l)) = absurd (clash d reason (sym e' ∙ e))

  -- Where the effect of every candidate has passed the author's check within the same bounds, the
  -- rule that wins is enforced: it fires, and the decision is the value that it asks for.
  pub resolve-Enforces :
      All (λ c. validate_effect c.effect bounds ≡ done tt) cs
      → ((All (λ c. is_match rt opts context c ≡ false) cs) × (decided ≡ unmatched base))
        ⊎ ((w : CandidateRule) × Enforces w decided)
  resolve-Enforces checked = elim (resolve-Settles rt opts context cs bounds base) [
    | inl none_matches ↦ inl none_matches
    | inr (w, wins, s) ↦
        let ok = Mem-All _ cs checked wins.0 in
        let (fired, enforced, asked) =
          Settles-Enforces w decided (validate_effect-AppliedAs w.effect bounds ok) s in
        inr (w, (wins, fired, enforced, asked))
  ]
