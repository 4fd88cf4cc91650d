-- ===== src/Policy/Overlap.antt =====
-- The warnings of `lintRuleConflicts` in src/server/modules/policy/validate.ts, and the decisions of
-- evaluate.ts that they foretell.
use license_srv.Prelude.{
  ◌≤◌, ℕ, ◌≡◌, refl, ◌⊎◌, inl, inr, Bool, true, false, not, ◌&&◌, some, List, [], ◌∷◌, leb_ℤ, All,
  Mem, Mem-All, any_by, arith, if◌then◌else◌, pos,
}
use license_srv.Js.{Number, finite, Value, object, Fields, end}
use license_srv.Policy.Outcome.{Outcome, done, failed}
use license_srv.Policy.Condition.{ConditionError, Runtime, EvaluateConditionOptions}
use license_srv.Policy.Evaluator.{with_now, size_error, evaluate_sized, evaluate_condition}
use license_srv.Policy.Resolve.{CandidateRule, did_match, is_match}
use license_srv.Policy.Winner.{Wins, Precedes}
use license_srv.Policy.Authoring.{
  references_context, default_options, is_unconditional, unreachable_rule, overlapping_rule,
  RuleLintWarning, LiveRuleForLint, LintRuleInput, is_same_rule, warn, lint_rule_conflicts,
}
use license_srv.Policy.ContextFree.{compile_same}
use license_srv.Policy.Stops.{IsStopped}
use license_srv.Policy.Limits.{evaluate_condition_narrow}

did_match-true : (m : Outcome ConditionError Bool) → did_match m ≡ true → m ≡ done true
unfolding did_match
did_match-true (done true) h = refl
did_match-true (done false) h = cc
did_match-true (failed e) h = cc

unless_true : (b c : Bool) → (if b then false else c) ≡ true → (b ≡ false) × (c ≡ true)
unless_true b c h = (ground arith, ground arith)

-- A condition that the check takes to be unconditional evaluates to true on every context and at
-- every time, under the limits of that check.
pub is_unconditional-Matches :
    (rt : Runtime) (condition : Value)
    → is_unconditional rt condition ≡ true
    → (context : Fields) (now : Number)
    → evaluate_condition rt (default_options now) condition context ≡ done true
unfolding is_unconditional evaluate_condition size_error evaluate_sized
is_unconditional-Matches rt condition h context now =
    let (free, matched) = unless_true (references_context condition) _ h in
    let here = object (with_now (some now) context) in
    let there = object (with_now (some (finite (pos 0))) end) in
    rw (compile_same rt now (finite (pos 0)) here there condition free) (did_match-true _ matched)

abbrev is_unreachable : RuleLintWarning → Bool
is_unreachable w = elim w.code [ unreachable_rule ↦ true | overlapping_rule ↦ false ]

lint_step :
    (self shadow same : Bool) (peer : LiveRuleForLint) (rest : List RuleLintWarning)
    → any_by is_unreachable (
        if self
        then rest
        else if shadow
        then warn unreachable_rule peer ∷ rest
        else if same
        then warn overlapping_rule peer ∷ rest
        else rest)
      ≡ true
    → (shadow ≡ true) ⊎ (any_by is_unreachable rest ≡ true)
unfolding any_by warn
lint_step true shadow same peer rest h = inr h
lint_step false true same peer rest h = inl refl
lint_step false false true peer rest h = inr h
lint_step false false false peer rest h = inr h

-- A peer of a higher priority whose condition is unconditional.
abbrev Shadows : Runtime → LintRuleInput → LiveRuleForLint → Type 0
Shadows rt input peer =
    (leb_ℤ peer.priority input.priority ≡ false) × (is_unconditional rt peer.condition ≡ true)

shadows_of : (a b : Bool) → (not a && b) ≡ true → (a ≡ false) × (b ≡ true)
shadows_of a b h = (ground arith, ground arith)

lint-Shadows :
    (rt : Runtime) (input : LintRuleInput) (peers : List LiveRuleForLint)
    → any_by is_unreachable (lint_rule_conflicts rt input peers) ≡ true
    → (peer : LiveRuleForLint) × Mem peer peers × Shadows rt input peer
unfolding lint_rule_conflicts any_by
lint-Shadows rt input [] h = cc
lint-Shadows rt input (peer ∷ peers) h =
    elim (lint_step (is_same_rule input.rule_key peer.rule_key)
      (not (leb_ℤ peer.priority input.priority) && is_unconditional rt peer.condition)
      (leb_ℤ peer.priority input.priority && leb_ℤ input.priority peer.priority) peer
      (lint_rule_conflicts rt input peers) h) [
        | inl e ↦ (peer, inl refl, shadows_of _ _ e)
        | inr e ↦ let (p, m, s) = lint-Shadows rt input peers e in (p, inr m, s)
      ]

not_preceded : (a b : CandidateRule) → leb_ℤ b.priority a.priority ≡ false → ¬ Precedes a b
not_preceded a b h (inl higher) = higher (ground arith)
not_preceded a b h (inr (same, rest)) = ground arith

-- The live rule that a peer of the check stands for, among the candidates.
abbrev pub IsCandidate : List CandidateRule → LiveRuleForLint → Type 0
IsCandidate cs peer =
    (c : CandidateRule) × Mem c cs × (c.priority ≡ peer.priority) × (c.condition ≡ peer.condition)

-- Limits no wider than those of the check, at a time.
pub record IsNarrow (now : Number) (o : EvaluateConditionOptions) : Type 0 where
  pub nodes : o.max_complexity ≤ 10000
  pub depth : o.max_depth ≤ 64
  pub at : o.now ≡ some now

-- A candidate whose condition is not stopped by a limit of size, depth or nodes, or by the clock.
abbrev pub IsUnhindered : Runtime → (ℕ → EvaluateConditionOptions) → Fields → CandidateRule → Type 0
IsUnhindered rt opts context c = ¬ IsStopped (evaluate_condition rt (opts c.id) c.condition context)

-- A rule that the check has warned about as unreachable does not win: in no context, at no time and
-- under no limits of an evaluation up to a depth of 64 and 10000 nodes, among candidates that have
-- the peers it was checked against, where no condition of a candidate is stopped by a limit or by
-- the clock.
pub lint-Unreachable :
    (rt : Runtime) (input : LintRuleInput) (peers : List LiveRuleForLint) (cs : List CandidateRule)
    (rule : CandidateRule) (opts : ℕ → EvaluateConditionOptions) (context : Fields) (now : Number)
    → any_by is_unreachable (lint_rule_conflicts rt input peers) ≡ true
    → All (IsCandidate cs) peers
    → ((id : ℕ) → IsNarrow now (opts id))
    → All (IsUnhindered rt opts context) cs
    → rule.priority ≡ input.priority
    → ¬ Wins rt opts context rule cs
unfolding is_match did_match
lint-Unreachable rt input peers cs rule opts context now h live narrow free e wins =
    let (peer, among, (higher, always)) = lint-Shadows rt input peers h in
    let (c, here, p, q) = Mem-All (IsCandidate cs) peers live among in
    let n = narrow c.id in
    let holds : evaluate_condition rt (default_options now) c.condition context ≡ done true =
      rw q (is_unconditional-Matches rt peer.condition always context now) in
    let answer : evaluate_condition rt (opts c.id) c.condition context ≡ done true =
      elim (evaluate_condition_narrow rt (opts c.id) now n.nodes n.depth n.at context c.condition
        holds) [
          | inl stopped ↦ absurd (Mem-All (IsUnhindered rt opts context) cs free here stopped)
          | inr ends ↦ ends
        ] in
    let matches : is_match rt opts context c ≡ true = rw answer refl in
    let first : Precedes rule c = Mem-All _ cs wins.2 here matches in
    let below : leb_ℤ c.priority rule.priority ≡ false = rw (p, e) higher in
    not_preceded rule c below first
