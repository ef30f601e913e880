-- ===== src/Rules/Tests.antt =====
-- One rule, "if temp > 30 then notify, a wait before", with a cycle in its graph.
use iotaps.Common.{
  ℕ, ◌/◌, ◌≡◌, refl, true, false, not, none, some, List, [], ◌∷◌, ltb, leb, ◌==◌, if◌then◌else◌,
}
use iotaps.Json.{null, number, string, object, Fields, end, field, Floats}
use iotaps.Rules.Predicate.{notify, evaluate_predicate, parse_action, delay_seconds}
use iotaps.Rules.Chain.{
  RawNode, RawEdge, RuleNodeSpec, trigger, delay, action, build_chain, collect_specs, collect_edges,
  first_trigger,
}
use iotaps.Rules.Plan.{TelemetryEvent, slept, ran, LoadedRule, plan_chain, evaluate_event}
use iotaps.Rules.Walk.{IsChainFrom, build_chain-IsChainFrom}
use iotaps.Rules.Suppression.{fires, all_steps, before_failure, after_trigger, plan_chain_lem}

-- Whole numbers in place of floats.
abbrev whole : Floats ℕ
whole = record {
  gt = λ a b. ltb b a;
  ge = λ a b. leb b a;
  lt = ltb;
  le = leb;
  eq = λ a b. a == b;
  ne = λ a b. not (a == b);
  nought = 0;
  clamp = λ a. a;
  thousandth = λ a. a / 1000;
  show_number = λ a. "0";
  show_object = λ fs. "{}";
}

abbrev hot_trigger : Fields ℕ
hot_trigger =
    field "key" (string "temp") (field "op" (string " GT ") (field "value" (number 30) end))

abbrev sample : ℕ → Fields ℕ
sample t = field "data" (object (field "temp" (number t) end)) end

abbrev notify_config : Fields ℕ
notify_config = field "action" (string "Notify") end

abbrev nodes : List (RawNode ℕ)
nodes =
    record { id = some 1; node_type = string "trigger"; config = object hot_trigger }
    ∷ record {
      id = some 2;
      node_type = string "delay";
      config = object (field "ms" (number 5000) end);
    }
    ∷ record { id = some 3; node_type = string "action"; config = object notify_config }
    ∷ record { id = some 4; node_type = string "mystery"; config = null }
    ∷ []

abbrev edges : List RawEdge
edges =
    record { from = some 1; to = some 2 }
    ∷ record { from = some 2; to = some 3 }
    ∷ record { from = some 3; to = some 1 }
    ∷ record { from = some 1; to = some 3 }
    ∷ []

abbrev spec : ℕ → Fields ℕ → RuleNodeSpec ℕ
spec i config = record { id = i; node_type = action; config = config }

abbrev chain : List (RuleNodeSpec ℕ)
chain =
    record { id = 1; node_type = trigger; config = hot_trigger }
    ∷ record { id = 2; node_type = delay; config = field "ms" (number 5000) end }
    ∷ record { id = 3; node_type = action; config = notify_config }
    ∷ []

chain_of_cycle : build_chain whole nodes edges ≡ chain
unfolding build_chain
chain_of_cycle = refl

hot_only :
    (evaluate_predicate whole hot_trigger (sample 31) ≡ true)
    × (evaluate_predicate whole hot_trigger (sample 30) ≡ false)
    × (evaluate_predicate whole hot_trigger end ≡ false)
unfolding evaluate_predicate
hot_only = (refl, refl, refl)

abbrev event : ℕ → TelemetryEvent ℕ
event t = record { org_id = 5; device_id = 3; sample = sample t; rule_id = none }

abbrev rule : LoadedRule ℕ
rule = record { id = 8; nodes = nodes; edges = edges }

hot_runs : evaluate_event whole (event 31) (rule ∷ []) false ≡ (
  1,
  slept 5
      ∷ ran
          (record { kind = notify; config = notify_config })
          (record (event 31) { rule_id = some 8 })
      ∷ [],
)
unfolding evaluate_event evaluate_predicate delay_seconds parse_action
hot_runs = refl

build_chain-IsChainFrom_example :
    IsChainFrom
      (collect_specs whole [] nodes)
      (collect_edges [] edges)
      (first_trigger (collect_specs whole [] nodes))
      (build_chain whole nodes edges)
build_chain-IsChainFrom_example = build_chain-IsChainFrom whole nodes edges

plan_chain_lem_example :
    let plan = plan_chain whole chain (sample 31) false in
    (plan.suppressed ≡ false)
    × (plan.steps ≡ (
        if fires whole (sample 31) chain
        then all_steps whole
            (sample 31)
            (before_failure whole (sample 31) (after_trigger whole (sample 31) chain))
        else []))
plan_chain_lem_example = plan_chain_lem whole (sample 31) chain false
