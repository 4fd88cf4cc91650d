-- ===== src/Catalog/Effective.antt =====
-- src/server/modules/catalog/effective.ts: the effective definition of a plan, which issuing takes a
-- snapshot of. The order of the keys in the database is a parameter.
use Prim.Native.String.{String}
use license_srv.Prelude.{
  ℕ, Bool, true, false, Option, none, some, List, [], ◌∷◌, map, ◌==◌, find, filter_by, sort_by,
}
use license_srv.Store.{
  Plan, PlanStatus, Product, EntitlementType, Entitlement, PlanEntitlement, Value, Db,
}

pub record EffectiveEntitlement : Type 0 where
  pub key : String
  pub type : EntitlementType
  pub value : Value

pub record EffectivePlanDefinition : Type 0 where
  pub plan_id : ℕ
  pub product_id : ℕ
  pub plan_status : PlanStatus
  pub plan_key : String
  pub product_key : String
  pub max_activations : ℕ
  pub entitlements : List EffectiveEntitlement
  pub archived_entitlement_keys : List String

-- A row of the join of `plan_entitlement` with `entitlement`.
pub record Attachment : Type 0 where
  pub key : String
  pub type : EntitlementType
  pub status : PlanStatus
  pub bool_value : Option Bool
  pub int_value : Option ℕ

unfoldable pub join_entitlement :
    PlanEntitlement → Option Entitlement → List Attachment → List Attachment
join_entitlement pe none rows = rows
join_entitlement pe (some e) rows =
    record {
      key = e.key;
      type = e.type;
      status = e.status;
      bool_value = pe.bool_value;
      int_value = pe.int_value;
    }
    ∷ rows

abbrev pub is_entitlement : ℕ → Entitlement → Bool
is_entitlement id e = Entitlement.id e == id

unfoldable pub attachments_of : List Entitlement → List PlanEntitlement → List Attachment
unfolding join_entitlement find
attachments_of entitlements [] = []
attachments_of entitlements (pe ∷ pes) =
    join_entitlement pe (find (is_entitlement pe.entitlement_id) entitlements)
      (attachments_of entitlements pes)

unfoldable pub is_in_force : Attachment → Bool
is_in_force a = elim a.status [ PlanStatus.active ↦ true | PlanStatus.archived ↦ false ]

unfoldable pub is_archived : Attachment → Bool
is_archived a = elim a.status [ PlanStatus.active ↦ false | PlanStatus.archived ↦ true ]

-- `Boolean(null)` is false and `Number(null)` is 0.
unfoldable pub value_of : EntitlementType → Option Bool → Option ℕ → Value
value_of EntitlementType.boolean none n = Value.flag false
value_of EntitlementType.boolean (some b) n = Value.flag b
value_of EntitlementType.integer_limit b none = Value.number 0
value_of EntitlementType.integer_limit b (some n) = Value.number n

unfoldable pub effective_of : Attachment → EffectiveEntitlement
unfolding value_of
effective_of a = record {
  key = a.key;
  type = a.type;
  value = value_of a.type a.bool_value a.int_value;
}

abbrev pub is_plan : ℕ → Plan → Bool
is_plan id p = Plan.id p == id

abbrev pub is_product : ℕ → Product → Bool
is_product id p = Product.id p == id

abbrev pub is_attached : ℕ → PlanEntitlement → Bool
is_attached plan_id pe = PlanEntitlement.plan_id pe == plan_id

module _ (before : String → String → Bool) where
  unfoldable pub define : Plan → Db → Option Product → Option EffectivePlanDefinition
  unfolding is_in_force is_archived effective_of attachments_of filter_by sort_by
  define plan db none = none
  define plan db (some product) =
      let rows =
        sort_by (λ (a b : Attachment). before a.key b.key)
          (attachments_of db.entitlements (filter_by (is_attached plan.id) db.plan_entitlements)) in
      some (record {
        plan_id = plan.id;
        product_id = plan.product_id;
        plan_status = plan.status;
        plan_key = plan.key;
        product_key = product.key;
        max_activations = plan.max_activations;
        entitlements = map effective_of (filter_by is_in_force rows);
        archived_entitlement_keys = map (λ (a : Attachment). a.key) (filter_by is_archived rows);
      })

  unfoldable pub define_found : Db → Option Plan → Option EffectivePlanDefinition
  unfolding define find
  define_found db none = none
  define_found db (some plan) = define plan db (find (is_product plan.product_id) db.products)

  unfoldable pub get_effective_plan_definition : ℕ → Db → Option EffectivePlanDefinition
  unfolding define_found find
  get_effective_plan_definition plan_id db = define_found db (find (is_plan plan_id) db.plans)
