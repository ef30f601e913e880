-- ===== src/RuleStore/Tests.antt =====
-- A free organization that creates and changes rules.
use iotaps.Common.{ℕ, ◌≡◌, refl, true, false, Option, none, some, List, [], ◌∷◌, arith, String}
use iotaps.Common.Text.{codes, strip, is_word}
use iotaps.Common.Rows.{count_where}
use iotaps.Command.Service.{TenantScope}
use iotaps.Plans.Limits.{plan_active_rule_limit}
use iotaps.RuleStore.Tables.{
  Rule, Tables, lookup, end_node, add_nodes, add_edge, add_edges, flush_graph,
}
use iotaps.RuleStore.Service.{
  NewRule, Call, create, delete, call, calls, create_rule, enforce_active_limit, count_active_rules,
}
use iotaps.RuleStore.Limit.{IsLimited}
use iotaps.RuleStore.LimitKept.{calls-IsLimited}
use iotaps.RuleStore.Graphs.{IsWired, calls-IsWired}
use iotaps.RuleStore.Tenants.{HasRule, call_leaves_foreign}

abbrev plans : ℕ → Option String
plans org = some "free"

abbrev acme : TenantScope
acme = record { org_id = 1; bypass = false }

abbrev nothing : Tables ℕ
nothing = record { rules = []; nodes = []; edges = []; next_id = 10 }

-- A trigger with an edge to a notification.
abbrev alarm : NewRule ℕ
alarm = record {
  name = codes " alarm ";
  nodes = some (
      (record { client_id = some (codes "t"); node_type = some (codes "trigger"); content = 0 })
      ∷ ((record { client_id = some (codes "a"); node_type = some (codes "action"); content = 0 })
          ∷ []));
  edges = some ((record { from_id = some (codes "t"); to_id = some (codes "a") }) ∷ []);
  enabled = true;
  template_id = none;
}

abbrev thrice : List (Call ℕ)
thrice = create acme alarm ∷ create acme alarm ∷ create acme alarm ∷ []

third_refused : count_where (λ (r : Rule). r.enabled) (calls plans thrice nothing).rules ≡ 2
unfolding calls call create_rule flush_graph add_nodes add_edges add_edge end_node lookup
    enforce_active_limit count_active_rules plan_active_rule_limit strip is_word
third_refused = refl

calls-IsLimited_example : IsLimited plans (calls plans thrice nothing)
calls-IsLimited_example =
    calls-IsLimited plans thrice nothing (refl, (refl, (refl, tt)))
      (tt, λ k. omega arith, λ org limit h. omega arith)

calls-IsWired_example : IsWired (calls plans thrice nothing)
calls-IsWired_example = calls-IsWired plans thrice nothing tt

-- A rule of another organization.
abbrev theirs : Rule
theirs = record { id = 4; org_id = 2; name = codes "x"; enabled = true; template_id = none }

abbrev shared : Tables ℕ
shared = record {
  rules = theirs ∷ [];
  nodes =
      (record { id = 5; org_id = 2; rule_id = 4; node_type = codes "trigger"; content = 0 }) ∷ [];
  edges = [];
  next_id = 10;
}

call_leaves_foreign_example :
    HasRule 4 (some theirs) shared.nodes [] (call plans (delete acme 4) shared)
call_leaves_foreign_example =
    call_leaves_foreign 4 plans (delete acme 4) theirs shared refl (omega arith) refl (omega arith)
