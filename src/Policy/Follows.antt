-- ===== src/Policy/Follows.antt =====
-- What the evaluator (condition.ts) does at a node that the check of a condition (validate.ts) has
-- passed: it stays within the count of nodes of the check, and fails for no reason that the check
-- rules out.
use license_srv.Prelude.{ℕ, ◌≤◌, ◌≡◌, List, [], ◌∷◌, arith, inl, inr, Bool-cases}
use license_srv.Js.{truthy}
use license_srv.Policy.Outcome.{Outcome, done, failed, ◌>>=◌, >>=-eq-done}
use license_srv.Policy.Condition.{
  ConditionError, missing_field, arithmetic_error, timeout, Eval, run_all, run_both, run_either,
  run_choose,
}
use license_srv.Policy.Validate.{Lint, lint_all}

-- A failure that depends on the data or the clock.
abbrev pub IsBenign : ConditionError → Type 0
IsBenign missing_field = Unit
IsBenign arithmetic_error = Unit
IsBenign timeout = Unit
IsBenign _ = ⊥

-- A result with a count of at most `n`, or a benign failure.
abbrev pub Within : ℕ → {A : Type 0} → Outcome ConditionError (A × ℕ) → Type 0
Within n (done r) = r.1 ≤ n
Within n (failed e) = IsBenign e

pub bind-Within :
    {A B : Type 0} (k n : ℕ) (m : Outcome ConditionError (A × ℕ))
    (f : A × ℕ → Outcome ConditionError (B × ℕ))
    → Within k m
    → ((r : A × ℕ) → r.1 ≤ k → Within n (f r))
    → Within n (m >>= f)
bind-Within k n (done r) f w h = h r w
bind-Within k n (failed e) f w h = w

pub Within-le :
    {A : Type 0} (k n : ℕ) (m : Outcome ConditionError (A × ℕ)) → k ≤ n → Within k m → Within n m
Within-le k n (done r) le w = omega arith
Within-le k n (failed e) le w = w

abbrev pub Follows : Eval → Lint → Type 0
Follows e l =
    (depth ops lops n : ℕ)
    → ops ≤ lops
    → l depth lops ≡ done n
    → Within n (e depth ops) × (lops ≤ n)

-- Operands, one by one.
abbrev pub FollowsAll : List Eval → List Lint → Type 0
FollowsAll [] [] = Unit
FollowsAll (e ∷ es) (l ∷ ls) = Follows e l × FollowsAll es ls
FollowsAll _ _ = ⊥

-- The counts of a check of operands in turn.
lint_all_cons :
    (l : Lint) (ls : List Lint) (depth lops n : ℕ)
    → lint_all (l ∷ ls) depth lops ≡ done n
    → (k : ℕ) × (l depth lops ≡ done k) × (lint_all ls depth k ≡ done n)
unfolding lint_all
lint_all_cons l ls depth lops n h = >>=-eq-done (l depth lops) (λ (k : ℕ). lint_all ls depth k) h

pub lint_all_le :
    (es : List Eval) (ls : List Lint) (depth lops n : ℕ)
    → FollowsAll es ls
    → lint_all ls depth lops ≡ done n
    → lops ≤ n
unfolding lint_all
lint_all_le [] [] depth lops n f h = ground arith
lint_all_le [] (l ∷ ls) depth lops n f h = absurd f
lint_all_le (e ∷ es) [] depth lops n f h = absurd f
lint_all_le (e ∷ es) (l ∷ ls) depth lops n (f, fs) h =
    let (k, first, rest) = lint_all_cons l ls depth lops n h in
    omega (arith, (f depth lops lops k (omega arith) first).1, lint_all_le es ls depth k n fs rest)

pub run_all-Within :
    (es : List Eval) (ls : List Lint) (depth ops lops n : ℕ)
    → FollowsAll es ls
    → ops ≤ lops
    → lint_all ls depth lops ≡ done n
    → Within n (run_all es depth ops)
unfolding run_all lint_all
run_all-Within [] [] depth ops lops n f le h = ground arith
run_all-Within [] (l ∷ ls) depth ops lops n f le h = absurd f
run_all-Within (e ∷ es) [] depth ops lops n f le h = absurd f
run_all-Within (e ∷ es) (l ∷ ls) depth ops lops n (f, fs) le h =
    let (k, first, rest) = lint_all_cons l ls depth lops n h in
    bind-Within k n (e depth ops) _ (f depth ops lops k le first).0 (λ r b.
      bind-Within n n (run_all es depth r.1) _ (run_all-Within es ls depth r.1 k n fs b rest)
        (λ rs c. c))

pub run_both-Within :
    (es : List Eval) (ls : List Lint) (depth ops lops n : ℕ)
    → FollowsAll es ls
    → ops ≤ lops
    → lint_all ls depth lops ≡ done n
    → Within n (run_both es depth ops)
unfolding run_both lint_all
run_both-Within [] [] depth ops lops n f le h = ground arith
run_both-Within [] (l ∷ ls) depth ops lops n f le h = absurd f
run_both-Within (e ∷ es) [] depth ops lops n f le h = absurd f
run_both-Within (e ∷ es) (l ∷ ls) depth ops lops n (f, fs) le h =
    let (k, first, rest) = lint_all_cons l ls depth lops n h in
    bind-Within k n (e depth ops) _ (f depth ops lops k le first).0 (λ r b.
      elim (Bool-cases (truthy r.0)) [
        | inl yes' ↦ rw yes' (run_both-Within es ls depth r.1 k n fs b rest)
        | inr no' ↦ rw no' (omega (arith, lint_all_le es ls depth k n fs rest))
      ])

pub run_either-Within :
    (es : List Eval) (ls : List Lint) (depth ops lops n : ℕ)
    → FollowsAll es ls
    → ops ≤ lops
    → lint_all ls depth lops ≡ done n
    → Within n (run_either es depth ops)
unfolding run_either lint_all
run_either-Within [] [] depth ops lops n f le h = ground arith
run_either-Within [] (l ∷ ls) depth ops lops n f le h = absurd f
run_either-Within (e ∷ es) [] depth ops lops n f le h = absurd f
run_either-Within (e ∷ es) (l ∷ ls) depth ops lops n (f, fs) le h =
    let (k, first, rest) = lint_all_cons l ls depth lops n h in
    bind-Within k n (e depth ops) _ (f depth ops lops k le first).0 (λ r b.
      elim (Bool-cases (truthy r.0)) [
        | inl yes' ↦ rw yes' (omega (arith, lint_all_le es ls depth k n fs rest))
        | inr no' ↦ rw no' (run_either-Within es ls depth r.1 k n fs b rest)
      ])

-- The operands of `if` after the first two are checked from a count that the first two leave.
pub run_choose-Within :
    (es : List Eval) (ls : List Lint) (depth ops lops n : ℕ)
    → FollowsAll es ls
    → ops ≤ lops
    → lint_all ls depth lops ≡ done n
    → Within n (run_choose es depth ops)
unfolding run_choose lint_all
run_choose-Within [] [] depth ops lops n f le h = ground arith
run_choose-Within [] (l ∷ ls) depth ops lops n f le h = absurd f
run_choose-Within (e ∷ es) [] depth ops lops n f le h = absurd f
run_choose-Within (e ∷ []) (l ∷ []) depth ops lops n (f, fs) le h =
    let (k, first, rest) = lint_all_cons l [] depth lops n h in
    let e' : k ≡ n = cc in rw e' at (f depth ops lops k le first).0
run_choose-Within (e ∷ []) (l ∷ m ∷ ls) depth ops lops n (f, fs) le h = absurd fs
run_choose-Within (e ∷ d ∷ es) (l ∷ []) depth ops lops n (f, fs) le h = absurd fs
run_choose-Within (c ∷ e ∷ es) (l ∷ m ∷ ls) depth ops lops n (f, (g, fs)) le h =
    let (k, first, rest) = lint_all_cons l (m ∷ ls) depth lops n h in
    let (j, next, last) = lint_all_cons m ls depth k n rest in
    let grow = lint_all_le es ls depth j n fs last in
    bind-Within k n (c depth ops) _ (f depth ops lops k le first).0 (λ r b.
      elim (Bool-cases (truthy r.0)) [
        | inl yes' ↦ rw yes' (Within-le j n (e depth r.1) grow (g depth r.1 k j b next).0)
        | inr no' ↦ rw no' (
            run_choose-Within es ls depth r.1 j n fs
              (omega (arith, (g depth k k j (omega arith) next).1)) last)
      ])
