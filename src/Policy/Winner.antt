-- ===== src/Policy/Winner.antt =====
-- The rule that wins in `resolveEntitlementDecision` of src/server/modules/policy/evaluate.ts.
use license_srv.Prelude.{
  ℕ, suc, ◌+◌, ◌≤◌, ◌≡◌, refl, sym, ap, ◌∙◌, length-filter_by, count_by-sort_by, ◌⊎◌, inl, inr,
  Bool, true, false, Option, none, some, List, [], ◌∷◌, map, ℤ, leb_ℤ, ◌≤ℤ◌, eq_of_≤ℤ, leb_ℤ→≤ℤ,
  leb, filter_by, sort_by, count_by, length, All, Mem, arith, All-imp, All-sort_by, All-unsort,
  All-unfilter, All-filter_by, All-filter_keep, All-Mem, IsSorted, sort_by-IsSorted,
  filter_by-IsSorted,
}
use mathlib.Core.Path.{subst}
use license_srv.Js.{Fields, text_le}
use license_srv.Policy.Condition.{Runtime, EvaluateConditionOptions}
use license_srv.Policy.Effect.{
  EntitlementBounds, Refusal, Decided, ApplyEffectResult, applied, refused,
}
use license_srv.Policy.Resolve.{
  RuleRef, CandidateRule, EntitlementDecisionResult, to_ref, then_by, rule_le, apply_descriptor,
  settle, resolve_matching, is_match, resolve_entitlement_decision,
}
use license_srv.Policy.Ranking.{rule_le_total, rule_le_trans, rule_le_refl}

false_of : (b : Bool) → (b ≡ true → b ≡ false) → b ≡ false
false_of b h = ground arith

abbrev pub unmatched : Decided → EntitlementDecisionResult
unmatched base = record {
  decision = base;
  fired_rule = none;
  considered_rules = [];
  enforced = false;
}

-- One rule comes before another: by a higher priority, then by a key that comes first, then by a
-- version that is not lower.
abbrev pub Precedes : CandidateRule → CandidateRule → Type 0
Precedes a b =
    ¬ (a.priority ≤ℤ b.priority)
    ⊎ ((a.priority ≡ b.priority)
        × ((text_le b.rule_key a.rule_key ≡ false)
            ⊎ ((text_le a.rule_key b.rule_key ≡ true) × (b.version ≤ a.version))))

then_by-cases :
    (before after next : Bool)
    → then_by before after next ≡ true
    → (before ≡ true) × ((after ≡ false) ⊎ ((after ≡ true) × (next ≡ true)))
unfolding then_by
then_by-cases false after next h = cc
then_by-cases true false next h = (refl, inl refl)
then_by-cases true true next h = (refl, inr (refl, h))

not_le : (a b : ℤ) → leb_ℤ a b ≡ false → ¬ (a ≤ℤ b)
not_le a b h k = ground arith

rule_le-Precedes : (a b : CandidateRule) → rule_le a b ≡ true → Precedes a b
unfolding rule_le
rule_le-Precedes a b h =
    let (before, later) =
      then_by-cases (leb_ℤ b.priority a.priority) (leb_ℤ a.priority b.priority)
        (then_by (text_le a.rule_key b.rule_key) (text_le b.rule_key a.rule_key)
          (leb b.version a.version))
        h in
    elim later [
      | inl higher ↦ inl (not_le a.priority b.priority higher)
      | inr (equal, next) ↦
          let (first, rest) =
            then_by-cases (text_le a.rule_key b.rule_key) (text_le b.rule_key a.rule_key)
              (leb b.version a.version) next in
          inr (
            eq_of_≤ℤ a.priority b.priority (leb_ℤ→≤ℤ a.priority b.priority equal)
                (leb_ℤ→≤ℤ b.priority a.priority before),
            elim rest [ inl key ↦ inl key | inr (same, newer) ↦ inr (first, ground arith) ],
          )
    ]

module _ (rt : Runtime) (opts : ℕ → EvaluateConditionOptions) (context : Fields) where
  abbrev pub matching : List CandidateRule → List CandidateRule
  matching cs = filter_by (is_match rt opts context) (sort_by rule_le cs)

  -- A candidate that matches, and that comes before every candidate that matches.
  abbrev pub Wins : CandidateRule → List CandidateRule → Type 0
  Wins w cs =
      Mem w cs
      × (is_match rt opts context w ≡ true)
      × All (λ c. is_match rt opts context c ≡ true → Precedes w c) cs

  first-Wins :
      (cs : List CandidateRule) (w : CandidateRule) (ps : List CandidateRule)
      → matching cs ≡ w ∷ ps
      → Wins w cs
  first-Wins cs w ps e =
      let m = is_match rt opts context in
      let sorted =
        filter_by-IsSorted rule_le m _ (sort_by-IsSorted rule_le rule_le_total rule_le_trans cs) in
      let here : IsSorted rule_le (w ∷ ps) = rw e at sorted in
      let members : All (λ x. Mem x cs) (w ∷ ps) =
        rw e at (All-filter_keep _ m _ (All-sort_by rule_le _ cs (All-Mem cs))) in
      let all_match : All (λ x. m x ≡ true) (w ∷ ps) =
        rw e at (All-filter_by m (sort_by rule_le cs)) in
      let below : All (λ x. rule_le w x ≡ true) (w ∷ ps) = (rule_le_refl w, here.0) in
      (
        members.0,
        all_match.0,
        All-imp _ _ cs (λ x h t. rule_le-Precedes w x (h t))
            (All-unsort rule_le _ cs (
              All-unfilter _ m _ (
                subst (λ (l : List CandidateRule). All (λ x. rule_le w x ≡ true) l) (sym e)
                  below))),
      )

  -- What a winner gives: its effect, or the base if the effect is refused.
  abbrev pub Settles :
      CandidateRule → EntitlementBounds → Decided → EntitlementDecisionResult → Type 0
  Settles w bounds base r =
      ((clamped : Bool) × (apply_descriptor w.effect bounds ≡ applied r.decision clamped)
        × (r.fired_rule ≡ some (to_ref w))
        × (r.enforced ≡ true))
      ⊎ ((reason : Refusal) × (apply_descriptor w.effect bounds ≡ refused reason)
          × (r.decision ≡ base)
          × (r.fired_rule ≡ none)
          × (r.enforced ≡ false))

  settle-Settles :
      (w : CandidateRule) (peers : List RuleRef) (bounds : EntitlementBounds) (base : Decided)
      (res : ApplyEffectResult)
      → apply_descriptor w.effect bounds ≡ res
      → Settles w bounds base (settle w peers res base)
  unfolding settle
  settle-Settles w peers bounds base (applied d c) e = inl (c, e, refl, refl)
  settle-Settles w peers bounds base (refused r) e = inr (r, e, refl, refl, refl)

  none-matching :
      (cs : List CandidateRule)
      → matching cs ≡ []
      → All (λ c. is_match rt opts context c ≡ false) cs
  none-matching cs e =
      let m = is_match rt opts context in
      let below : All (λ x. m x ≡ false) (matching cs) =
        subst (λ (l : List CandidateRule). All (λ x. m x ≡ false) l) (sym e) tt in
      All-imp _ _ cs (λ x h. false_of (m x) h) (All-unsort rule_le _ cs (All-unfilter _ m _ below))

  resolve_matching-Settles :
      (cs ms : List CandidateRule) (bounds : EntitlementBounds) (base : Decided)
      → matching cs ≡ ms
      → ((All (λ c. is_match rt opts context c ≡ false) cs)
          × (resolve_matching ms bounds base ≡ unmatched base))
        ⊎ ((w : CandidateRule) × Wins w cs
            × Settles w bounds base (resolve_matching ms bounds base))
  unfolding resolve_matching
  resolve_matching-Settles cs [] bounds base e = inl (none-matching cs e, refl)
  resolve_matching-Settles cs (w ∷ ps) bounds base e =
      inr (w, first-Wins cs w ps e, settle-Settles w (map to_ref ps) bounds base _ refl)

  -- The decision of an entitlement. Either no candidate matches, and the base stands with no rule
  -- fired or considered; or there is a candidate that matches, and that comes before every candidate
  -- that matches, by priority, then rule key, then version, whose effect gives the decision, or, if
  -- its effect is refused, the base stands and no rule has fired.
  pub resolve-Settles :
      (cs : List CandidateRule) (bounds : EntitlementBounds) (base : Decided)
      → ((All (λ c. is_match rt opts context c ≡ false) cs)
          × (resolve_entitlement_decision rt opts context cs bounds base ≡ unmatched base))
        ⊎ ((w : CandidateRule) × Wins w cs
            × Settles w bounds base (resolve_entitlement_decision rt opts context cs bounds base))
  unfolding resolve_entitlement_decision
  resolve-Settles cs bounds base = resolve_matching-Settles cs (matching cs) bounds base refl

  length-map : (ps : List CandidateRule) → length (map to_ref ps) ≡ length ps
  length-map [] = refl
  length-map (p ∷ ps) = ap suc (length-map ps)

  -- How many rules have fired.
  abbrev pub fired_count : Option RuleRef → ℕ
  fired_count none = 0
  fired_count (some r) = 1

  settle_accounts :
      (w : CandidateRule) (ps : List CandidateRule) (res : ApplyEffectResult) (base : Decided)
      → length (settle w (map to_ref ps) res base).considered_rules
          + fired_count (settle w (map to_ref ps) res base).fired_rule
        ≡ suc (length ps)
  unfolding settle
  settle_accounts w ps (applied d c) base = omega (arith, length-map ps)
  settle_accounts w ps (refused r) base = omega (arith, length-map ps)

  matching_accounts :
      (ms : List CandidateRule) (bounds : EntitlementBounds) (base : Decided)
      → length (resolve_matching ms bounds base).considered_rules
          + fired_count (resolve_matching ms bounds base).fired_rule
        ≡ length ms
  unfolding resolve_matching
  matching_accounts [] bounds base = refl
  matching_accounts (w ∷ ps) bounds base = settle_accounts w ps _ base

  -- Every candidate that matches is accounted for, as the rule that fired or as one considered.
  pub resolve_accounts :
      (cs : List CandidateRule) (bounds : EntitlementBounds) (base : Decided)
      → length (resolve_entitlement_decision rt opts context cs bounds base).considered_rules
          + fired_count (resolve_entitlement_decision rt opts context cs bounds base).fired_rule
        ≡ count_by (is_match rt opts context) cs
  unfolding resolve_entitlement_decision
  resolve_accounts cs bounds base =
      matching_accounts (matching cs) bounds base
      ∙ length-filter_by (is_match rt opts context) (sort_by rule_le cs)
      ∙ count_by-sort_by rule_le (is_match rt opts context) cs
