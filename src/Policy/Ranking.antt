-- ===== src/Policy/Ranking.antt =====
-- The order of rules in `resolveEntitlementDecision` of src/server/modules/policy/evaluate.ts.
use license_srv.Prelude.{◌≡◌, inl, inr, Bool, true, false, ℤ, leb_ℤ, arith, Bool-cases}
use license_srv.Js.{units, units_le_total, units_le_trans}
use license_srv.Policy.Resolve.{CandidateRule, then_by, rule_le}

pub then_by_total :
    (ab ba n m : Bool)
    → (ab ≡ false → ba ≡ true)
    → (ba ≡ false → ab ≡ true)
    → (n ≡ false → m ≡ true)
    → then_by ab ba n ≡ false
    → then_by ba ab m ≡ true
unfolding then_by
then_by_total ab ba n m s t u h = ground arith

pub then_by_trans :
    (ab ba bc cb ac ca n m k : Bool)
    → (ab ≡ true → bc ≡ true → ac ≡ true)
    → (cb ≡ true → ba ≡ true → ca ≡ true)
    → (ca ≡ true → ab ≡ true → cb ≡ true)
    → (bc ≡ true → ca ≡ true → ba ≡ true)
    → (n ≡ true → m ≡ true → k ≡ true)
    → then_by ab ba n ≡ true
    → then_by bc cb m ≡ true
    → then_by ac ca k ≡ true
unfolding then_by
then_by_trans ab ba bc cb ac ca n m k s t u v w h j = ground arith

pub leb_ℤ_total : (a b : ℤ) → leb_ℤ a b ≡ false → leb_ℤ b a ≡ true
leb_ℤ_total a b h = ground arith

pub leb_ℤ_trans : (a b c : ℤ) → leb_ℤ a b ≡ true → leb_ℤ b c ≡ true → leb_ℤ a c ≡ true
leb_ℤ_trans a b c h k = ground arith

pub rule_le_total : (a b : CandidateRule) → rule_le a b ≡ false → rule_le b a ≡ true
unfolding rule_le
rule_le_total a b h =
    then_by_total _ _ _ _ (leb_ℤ_total b.priority a.priority) (leb_ℤ_total a.priority b.priority)
      (then_by_total _ _ _ _ (units_le_total (units a.rule_key) (units b.rule_key))
        (units_le_total (units b.rule_key) (units a.rule_key)) (λ e. ground arith))
      h

pub rule_le_trans :
    (a b c : CandidateRule) → rule_le a b ≡ true → rule_le b c ≡ true → rule_le a c ≡ true
unfolding rule_le
rule_le_trans a b c h k =
    let p = a.priority in
    let q = b.priority in
    let r = c.priority in
    let u = units a.rule_key in
    let v = units b.rule_key in
    let w = units c.rule_key in
    then_by_trans _ _ _ _ _ _ _ _ _ (λ s t. leb_ℤ_trans r q p t s) (λ s t. leb_ℤ_trans p q r t s)
      (λ s t. leb_ℤ_trans q p r t s) (λ s t. leb_ℤ_trans p r q t s)
      (then_by_trans _ _ _ _ _ _ _ _ _ (units_le_trans u v w) (units_le_trans w v u)
        (units_le_trans w u v) (units_le_trans v w u) (λ s t. ground arith))
      h k

pub rule_le_refl : (a : CandidateRule) → rule_le a a ≡ true
rule_le_refl a = elim (Bool-cases (rule_le a a)) [ inl e ↦ e | inr e ↦ rule_le_total a a e ]
