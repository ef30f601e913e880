-- ===== src/RuleStore/Service.antt =====
-- `RuleService` of app/services/rule_service.py. A call gives the tables that it commits, or an error,
-- with which the session is closed and nothing is committed. The plans of the organizations are given.
use iotaps.Common.{
  ℕ, suc, String, Bool, true, false, not, ◌&&◌, ◌||◌, Option, none, some, List, [], ◌∷◌, ◌==◌, ltb,
  if◌then◌else◌,
}
use iotaps.Common.Text.{Text, strip}
use iotaps.Common.Rows.{keep, count_where, find_where, update_where}
use iotaps.Common.Exec.{Result, ok, err}
use iotaps.Command.Service.{TenantScope}
use iotaps.Plans.Limits.{plan_active_rule_limit}
use iotaps.RuleStore.Tables.{
  Rule, RuleNode, RuleEdge, Tables, NodeInput, EdgeInput, RuleError, invalid_rule_name,
  plan_limit_exceeded, not_authorized, flush_graph, delete_graph,
}

-- The row counts for the limit of an organization.
abbrev pub is_active_in : ℕ → Rule → Bool
is_active_in org r = r.org_id == org && r.enabled

-- `_count_active_rules`, with the rule that is left out, if there is one.
unfoldable pub count_active_rules : ℕ → Option ℕ → List Rule → ℕ
count_active_rules org none rules = count_where (is_active_in org) rules
count_active_rules org (some id) rules =
    count_where (λ r. is_active_in org r && not (r.id == id)) rules

-- `_enforce_active_limit`: whether one more rule may be active.
unfoldable pub enforce_active_limit : ℕ → Option String → Option ℕ → List Rule → Bool
enforce_active_limit org plan exclude rules = elim (plan_active_rule_limit plan) [
  | none ↦ true
  | some limit ↦ ltb (count_active_rules org exclude rules) limit
]

abbrev pub is_nil : Text → Bool
is_nil [] = true
is_nil (c ∷ text) = false

-- `not name or not name.strip()`
unfoldable pub is_nameless : Option Text → Bool
is_nameless none = true
is_nameless (some name) = is_nil (strip name)

abbrev pub name_text : Option Text → Text
name_text none = []
name_text (some name) = strip name

-- The row of a rule that the caller's tenant owns.
unfoldable pub owned_rule : TenantScope → ℕ → List Rule → Option Rule
owned_rule scope id rules = elim (find_where (λ r. r.id == id) rules) [
  | none ↦ none
  | some r ↦ if scope.bypass || r.org_id == scope.org_id then some r else none
]

pub record NewRule (C : Type 0) : Type 0 where
  pub name : Text
  pub nodes : Option (List (NodeInput C))
  pub edges : Option (List EdgeInput)
  pub enabled : Bool
  pub template_id : Option ℕ

-- The fields of a request to change a rule, with what it sets of them.
pub record RulePatch (C : Type 0) : Type 0 where
  pub name : Option Text
  pub enabled : Option Bool
  pub nodes : Option (List (NodeInput C))
  pub edges : Option (List EdgeInput)
  pub name_set : Bool
  pub nodes_set : Bool
  pub edges_set : Bool

-- The row after the patch of its name and of whether it is active.
unfoldable pub patched : {C : Type 0} → RulePatch C → Rule → Rule
patched patch r = record r {
  name = if patch.name_set then name_text patch.name else r.name;
  enabled = elim patch.enabled [ none ↦ r.enabled | some b ↦ b ];
}

-- Whether the patch turns on a rule that is off.
unfoldable pub turns_on : {C : Type 0} → RulePatch C → Rule → Bool
turns_on patch r = elim patch.enabled [ none ↦ false | some b ↦ b && not r.enabled ]

module _ {C : Type 0} where
  -- The graph is replaced if the request sets its nodes or its edges.
  unfoldable pub replace_graph :
      TenantScope → RulePatch C → ℕ → Tables C → Result RuleError (Tables C)
  replace_graph scope patch id t =
      if patch.nodes_set || patch.edges_set
      then flush_graph scope.org_id id patch.nodes patch.edges (delete_graph id t)
      else ok t

  unfoldable pub delete_owned : ℕ → Tables C → Tables C
  delete_owned id t =
      let t' = delete_graph id t in record t' { rules = keep (λ x. not (x.id == id)) t'.rules }

  unfoldable pub delete_rule : TenantScope → ℕ → Tables C → Result RuleError (Tables C)
  delete_rule scope id t = elim (owned_rule scope id t.rules) [
    | none ↦ err not_authorized
    | some r ↦ ok (delete_owned r.id t)
  ]

-- The row of a rule that is created.
abbrev pub new_row : {C : Type 0} → TenantScope → NewRule C → ℕ → Rule
new_row scope new id = record {
  id = id;
  org_id = scope.org_id;
  name = strip new.name;
  enabled = new.enabled;
  template_id = new.template_id;
}

module _ {C : Type 0} (plan_of : ℕ → Option String) where
  unfoldable pub create_rule : TenantScope → NewRule C → Tables C → Result RuleError (Tables C)
  create_rule scope new t =
      if is_nil (strip new.name)
      then err invalid_rule_name
      else if new.enabled
          && not (enforce_active_limit scope.org_id (plan_of scope.org_id) none t.rules)
      then err plan_limit_exceeded
      else flush_graph scope.org_id t.next_id new.nodes new.edges
          (record t { rules = new_row scope new t.next_id ∷ t.rules; next_id = suc t.next_id })

  unfoldable pub update_owned :
      TenantScope → RulePatch C → Rule → Tables C → Result RuleError (Tables C)
  update_owned scope patch r t =
      if patch.name_set && is_nameless patch.name
      then err invalid_rule_name
      else if turns_on patch r
          && not (enforce_active_limit scope.org_id (plan_of scope.org_id) (some r.id) t.rules)
      then err plan_limit_exceeded
      else replace_graph scope patch r.id
          (record t { rules = update_where (λ x. x.id == r.id) (patched patch) t.rules })

  unfoldable pub update_rule :
      TenantScope → ℕ → RulePatch C → Tables C → Result RuleError (Tables C)
  update_rule scope id patch t = elim (owned_rule scope id t.rules) [
    | none ↦ err not_authorized
    | some r ↦ update_owned scope patch r t
  ]

-- `get_graph`
unfoldable pub get_graph :
    {C : Type 0} → TenantScope → ℕ → Tables C → Result RuleError (List (RuleNode C) × List RuleEdge)
get_graph scope id t = elim (owned_rule scope id t.rules) [
  | none ↦ err not_authorized
  | some r ↦ ok (keep (λ n. n.rule_id == id) t.nodes, keep (λ e. e.rule_id == id) t.edges)
]

-- `list_rules`, but for its order.
unfoldable pub list_rules : {C : Type 0} → TenantScope → Tables C → List Rule
list_rules scope t = keep (λ r. scope.bypass || r.org_id == scope.org_id) t.rules

-- A call of the service that writes.
pub data Call (C : Type 0) : Type 0 where
  create : TenantScope → NewRule C → Call C
  update : TenantScope → ℕ → RulePatch C → Call C
  delete : TenantScope → ℕ → Call C

-- A call that fails commits nothing.
abbrev pub committed : {C : Type 0} → Tables C → Result RuleError (Tables C) → Tables C
committed t (ok t') = t'
committed t (err e) = t

module _ {C : Type 0} (plan_of : ℕ → Option String) where
  unfoldable pub call : Call C → Tables C → Tables C
  call (create scope new) t = committed t (create_rule plan_of scope new t)
  call (update scope id patch) t = committed t (update_rule plan_of scope id patch t)
  call (delete scope id) t = committed t (delete_rule scope id t)

  unfoldable pub calls : List (Call C) → Tables C → Tables C
  calls [] t = t
  calls (c ∷ rest) t = calls rest (call c t)
