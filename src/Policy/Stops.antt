-- ===== src/Policy/Stops.antt =====
-- Evaluations that differ in their limits alone, where operands are evaluated in turn
-- (src/server/modules/policy/condition.ts).
use license_srv.Prelude.{
  ℕ, ◌≡◌, refl, ◌⊎◌, inl, inr, Bool, true, false, Option, none, some, List, [], ◌∷◌,
}
use license_srv.Js.{Value, truthy}
use license_srv.Policy.Outcome.{Outcome, done, failed, ◌>>=◌}
use license_srv.Policy.Condition.{
  ConditionError, max_complexity_exceeded, max_depth_exceeded, timeout, max_size_exceeded, Eval,
  second, run_all, run_both, run_either, run_choose,
}

-- A failure at a limit of an evaluation.
abbrev pub IsLimit : ConditionError → Type 0
IsLimit max_complexity_exceeded = Unit
IsLimit max_depth_exceeded = Unit
IsLimit timeout = Unit
IsLimit max_size_exceeded = Unit
IsLimit _ = ⊥

abbrev pub IsStopped : {A : Type 0} → Outcome ConditionError A → Type 0
IsStopped (done a) = ⊥
IsStopped (failed e) = IsLimit e

-- An outcome that is stopped at a limit, or is the other.
abbrev pub Agrees : {A : Type 0} → Outcome ConditionError A → Outcome ConditionError A → Type 0
Agrees m w = IsStopped m ⊎ (m ≡ w)

pub bind-Agrees :
    {A B : Type 0} (m w : Outcome ConditionError A) (f g : A → Outcome ConditionError B)
    → Agrees m w
    → ((a : A) → Agrees (f a) (g a))
    → Agrees (m >>= f) (w >>= g)
bind-Agrees (done a) (done b) f g (inl s) h = absurd s
bind-Agrees (done a) (done b) f g (inr e) h = let same : a ≡ b = cc in rw (← same) (h a)
bind-Agrees (done a) (failed x) f g (inl s) h = absurd s
bind-Agrees (done a) (failed x) f g (inr e) h = absurd (cc)
bind-Agrees (failed x) w f g (inl s) h = inl s
bind-Agrees (failed x) (done b) f g (inr e) h = absurd (cc)
bind-Agrees (failed x) (failed y) f g (inr e) h = inr (cc)

-- Evaluators that agree at every depth and count.
abbrev pub Refines : Eval → Eval → Type 0
Refines e w = (depth ops : ℕ) → Agrees (e depth ops) (w depth ops)

abbrev pub AllRefine : List Eval → List Eval → Type 0
AllRefine [] [] = Unit
AllRefine (e ∷ es) (w ∷ ws) = Refines e w × AllRefine es ws
AllRefine _ _ = ⊥

abbrev pub OptRefine : Option Eval → Option Eval → Type 0
OptRefine none none = Unit
OptRefine (some e) (some w) = Refines e w
OptRefine _ _ = ⊥

pub by_truth :
    (b : Bool) {m w m' w' : Outcome ConditionError (Value × ℕ)}
    → Agrees m w
    → Agrees m' w'
    → Agrees (elim b [ true ↦ m | false ↦ m' ]) (elim b [ true ↦ w | false ↦ w' ])
by_truth true h k = h
by_truth false h k = k

pub run_all-Agrees :
    (es ws : List Eval) (depth ops : ℕ)
    → AllRefine es ws
    → Agrees (run_all es depth ops) (run_all ws depth ops)
unfolding run_all
run_all-Agrees [] [] depth ops h = inr refl
run_all-Agrees [] (w ∷ ws) depth ops h = absurd h
run_all-Agrees (e ∷ es) [] depth ops h = absurd h
run_all-Agrees (e ∷ es) (w ∷ ws) depth ops (h, hs) =
    bind-Agrees (e depth ops) (w depth ops) _ _ (h depth ops) (λ r.
      bind-Agrees (run_all es depth r.1) (run_all ws depth r.1) _ _
        (run_all-Agrees es ws depth r.1 hs) (λ rs. inr refl))

pub run_both-Refines : (es ws : List Eval) → AllRefine es ws → Refines (run_both es) (run_both ws)
unfolding run_both
run_both-Refines [] [] h depth ops = inr refl
run_both-Refines [] (w ∷ ws) h depth ops = absurd h
run_both-Refines (e ∷ es) [] h depth ops = absurd h
run_both-Refines (e ∷ es) (w ∷ ws) (h, hs) depth ops =
    bind-Agrees (e depth ops) (w depth ops) _ _ (h depth ops)
      (λ r. by_truth (truthy r.0) (run_both-Refines es ws hs depth r.1) (inr refl))

pub run_either-Refines :
    (es ws : List Eval) → AllRefine es ws → Refines (run_either es) (run_either ws)
unfolding run_either
run_either-Refines [] [] h depth ops = inr refl
run_either-Refines [] (w ∷ ws) h depth ops = absurd h
run_either-Refines (e ∷ es) [] h depth ops = absurd h
run_either-Refines (e ∷ es) (w ∷ ws) (h, hs) depth ops =
    bind-Agrees (e depth ops) (w depth ops) _ _ (h depth ops)
      (λ r. by_truth (truthy r.0) (inr refl) (run_either-Refines es ws hs depth r.1))

pub run_choose-Refines :
    (es ws : List Eval) → AllRefine es ws → Refines (run_choose es) (run_choose ws)
unfolding run_choose
run_choose-Refines [] [] h depth ops = inr refl
run_choose-Refines [] (w ∷ ws) h depth ops = absurd h
run_choose-Refines (e ∷ es) [] h depth ops = absurd h
run_choose-Refines (e ∷ []) (w ∷ []) (h, hs) depth ops = h depth ops
run_choose-Refines (e ∷ []) (w ∷ v ∷ ws) (h, hs) depth ops = absurd hs
run_choose-Refines (e ∷ d ∷ es) (w ∷ []) (h, hs) depth ops = absurd hs
run_choose-Refines (e ∷ d ∷ es) (w ∷ v ∷ ws) (h, (k, hs)) depth ops =
    bind-Agrees (e depth ops) (w depth ops) _ _ (h depth ops)
      (λ r. by_truth (truthy r.0) (k depth r.1) (run_choose-Refines es ws hs depth r.1))

pub second-OptRefine : (es ws : List Eval) → AllRefine es ws → OptRefine (second es) (second ws)
unfolding second
second-OptRefine [] [] h = tt
second-OptRefine [] (w ∷ ws) h = absurd h
second-OptRefine (e ∷ es) [] h = absurd h
second-OptRefine (e ∷ []) (w ∷ []) h = tt
second-OptRefine (e ∷ []) (w ∷ v ∷ ws) (h, hs) = absurd hs
second-OptRefine (e ∷ d ∷ es) (w ∷ []) (h, hs) = absurd hs
second-OptRefine (e ∷ d ∷ es) (w ∷ v ∷ ws) (h, (k, hs)) = k
