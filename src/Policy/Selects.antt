-- ===== src/Policy/Selects.antt =====
-- src/server/modules/policy/rule-repo.ts: the reads of the table of rules. The order of texts in the
-- database is a parameter.
use Prim.Native.String.{String}
use license_srv.Prelude.{
  ℕ, Bool, true, not, any_by, ltb, ◌&&◌, Option, none, some, [], ◌∷◌, ◌==◌, leb, leb_ℤ, take, find,
  count_by, filter_by, sort_by,
}
use license_srv.Policy.Resolve.{then_by}
use license_srv.Policy.Rules.{
  RuleStatus, same_status, PolicyRuleRow, Rules, is_live, is_of, is_version, is_live_of,
}

unfoldable pub get_version : String → ℕ → Rules → Option PolicyRuleRow
unfolding find is_version
get_version key version rules = find (is_version key version) rules

abbrev pub newest_first : PolicyRuleRow → PolicyRuleRow → Bool
newest_first a b = leb b.version a.version

unfoldable pub first_row : Rules → Option PolicyRuleRow
first_row [] = none
first_row (r ∷ rs) = some r

unfoldable pub get_versions : String → Rules → Rules
unfolding sort_by filter_by is_of
get_versions key rules = sort_by newest_first (filter_by (is_of key) rules)

unfoldable pub get_live_version : String → Rules → Option PolicyRuleRow
unfolding sort_by filter_by is_live_of first_row
get_live_version key rules = first_row (sort_by newest_first (filter_by (is_live_of key) rules))

unfoldable pub is_target_of : ℕ → PolicyRuleRow → Bool
is_target_of entitlement_id r = r.entitlement_id == entitlement_id

unfoldable pub is_live_target : ℕ → PolicyRuleRow → Bool
unfolding is_target_of is_live
is_live_target entitlement_id r = is_target_of entitlement_id r && is_live r

unfoldable pub count_live_rules_for_tenant : Rules → ℕ
unfolding count_by is_live
count_live_rules_for_tenant rules = count_by is_live rules

unfoldable pub count_live_rules_for_entitlement : ℕ → Rules → ℕ
unfolding count_by is_live_target
count_live_rules_for_entitlement entitlement_id rules =
    count_by (is_live_target entitlement_id) rules

pub record ListRulesFilter : Type 0 where
  pub entitlement_id : Option ℕ
  pub status : Option RuleStatus
  pub limit : ℕ

-- A condition of the WHERE clause that is there only if its filter is.
unfoldable pub passes_entitlement : Option ℕ → PolicyRuleRow → Bool
unfolding is_target_of
passes_entitlement none r = true
passes_entitlement (some id) r = is_target_of id r

unfoldable pub passes_status : Option RuleStatus → PolicyRuleRow → Bool
unfolding same_status
passes_status none r = true
passes_status (some status) r = same_status r.status status

-- `DISTINCT ON (rule_key)`, by `version DESC`.
unfoldable pub is_latest : Rules → PolicyRuleRow → Bool
unfolding any_by is_of
is_latest rows r = not (any_by (λ s. is_of r.rule_key s && ltb r.version s.version) rows)

-- The reads that order by text, in the order of the database.
module _ (collate : String → String → Bool) where
  -- `ORDER BY priority DESC, rule_key ASC, version DESC`.
  unfoldable pub evaluation_order : PolicyRuleRow → PolicyRuleRow → Bool
  unfolding then_by
  evaluation_order a b = then_by (leb_ℤ b.priority a.priority) (leb_ℤ a.priority b.priority) (
      then_by (collate a.rule_key b.rule_key) (collate b.rule_key a.rule_key)
        (leb b.version a.version))

  unfoldable pub select_live_rules_for_entitlement : ℕ → (limit : ℕ) → Rules → Rules
  unfolding sort_by filter_by evaluation_order is_live_target
  select_live_rules_for_entitlement entitlement_id limit rules =
      take limit (sort_by evaluation_order (filter_by (is_live_target entitlement_id) rules))

  -- `ORDER BY rule_key ASC, version DESC`, and `ORDER BY priority DESC, rule_key ASC`.
  unfoldable pub history_order : PolicyRuleRow → PolicyRuleRow → Bool
  unfolding then_by
  history_order a b =
      then_by (collate a.rule_key b.rule_key) (collate b.rule_key a.rule_key)
        (leb b.version a.version)

  unfoldable pub summary_order : PolicyRuleRow → PolicyRuleRow → Bool
  unfolding then_by
  summary_order a b =
      then_by (leb_ℤ b.priority a.priority) (leb_ℤ a.priority b.priority)
        (collate a.rule_key b.rule_key)

  unfoldable pub list_rules : ListRulesFilter → Rules → Rules
  unfolding sort_by filter_by history_order passes_entitlement passes_status
  list_rules f rules = take f.limit (
      sort_by history_order
        (filter_by (λ r. passes_entitlement f.entitlement_id r && passes_status f.status r) rules))

  unfoldable pub list_latest_rules : ListRulesFilter → Rules → Rules
  unfolding sort_by filter_by summary_order passes_entitlement passes_status is_latest
  list_latest_rules f rules =
      let inner = filter_by (passes_entitlement f.entitlement_id) rules in
      take f.limit (
        sort_by summary_order
          (filter_by (passes_status f.status) (filter_by (is_latest inner) inner)))
