-- ===== src/Rules/Plan.antt =====
-- The execution plan of a chain and its execution: `plan_chain`, `evaluate`, `execute_plan`,
-- `evaluate_event` and the handler of `run`. An action sink that swallows its failures, as
-- `RedisActionSink` does, is what the effects are recorded for.
use iotaps.Common.{
  ℕ, ◌+◌, Bool, true, false, Option, none, some, List, [], ◌∷◌, ◌++◌, if◌then◌else◌,
}
use iotaps.Json.{Fields, Floats}
use iotaps.Rules.Predicate.{Action, evaluate_predicate, delay_seconds, parse_action}
use iotaps.Rules.Chain.{
  trigger, condition, delay, action, RawNode, RawEdge, RuleNodeSpec, build_chain,
}

-- `ExecutionStep`
pub data ExecutionStep (N : Type 0) : Type 0 where
  delay_step : N → ExecutionStep N
  action_step : RuleNodeSpec N → ExecutionStep N

pub record ExecutionPlan (N : Type 0) : Type 0 where
  pub steps : List (ExecutionStep N)
  pub suppressed : Bool

pub record TelemetryEvent (N : Type 0) : Type 0 where
  pub org_id : ℕ
  pub device_id : ℕ
  pub sample : Fields N
  pub rule_id : Option ℕ

-- What an execution does, in order: a wait, or an action handed to the sink.
pub data Effect (N : Type 0) : Type 0 where
  slept : N → Effect N
  ran : Action N → TelemetryEvent N → Effect N

-- A rule as loaded: its id, nodes and edges.
pub record LoadedRule (N : Type 0) : Type 0 where
  pub id : ℕ
  pub nodes : List (RawNode N)
  pub edges : List RawEdge

module _ {N : Type 0} (floats : Floats N) where
  -- `trigger_matches` and `condition_true`
  unfoldable pub holds : RuleNodeSpec N → Fields N → Bool
  holds n telemetry = evaluate_predicate floats n.config telemetry

  -- The loop over the nodes after the trigger.
  unfoldable pub plan_rest : Fields N → List (RuleNodeSpec N) → List (ExecutionStep N)
  unfolding holds
  plan_rest telemetry [] = []
  plan_rest telemetry (n ∷ rest) =
      let later = plan_rest telemetry rest in
      elim n.node_type [
        | condition ↦ if holds n telemetry then later else []
        | delay ↦ delay_step (delay_seconds floats n.config) ∷ later
        | action ↦ action_step n ∷ later
        | trigger ↦ later
      ]

  unfoldable pub plan_steps : Fields N → List (RuleNodeSpec N) → List (ExecutionStep N)
  unfolding plan_rest holds
  plan_steps telemetry [] = []
  plan_steps telemetry (t ∷ rest) = elim t.node_type [
    | trigger ↦ if holds t telemetry then plan_rest telemetry rest else []
    | condition ↦ []
    | delay ↦ []
    | action ↦ []
  ]

  unfoldable pub plan_chain : List (RuleNodeSpec N) → Fields N → Bool → ExecutionPlan N
  unfolding plan_steps
  plan_chain chain telemetry true = record { steps = []; suppressed = true }
  plan_chain chain telemetry false = record {
    steps = plan_steps telemetry chain;
    suppressed = false;
  }

  unfoldable pub evaluate : List (RawNode N) → List RawEdge → Fields N → Bool → ExecutionPlan N
  unfolding build_chain plan_chain
  evaluate nodes edges telemetry maintenance_mode =
      plan_chain (build_chain floats nodes edges) telemetry maintenance_mode

  -- One step: the actions it dispatches, and what it does.
  unfoldable pub execute_step : TelemetryEvent N → ExecutionStep N → ℕ × List (Effect N)
  execute_step event (delay_step s) = (0, if floats.gt s floats.nought then slept s ∷ [] else [])
  execute_step event (action_step n) = elim (parse_action floats n.config) [
    | none ↦ (0, [])
    | some a ↦ (1, ran a event ∷ [])
  ]

  unfoldable pub execute_plan : TelemetryEvent N → List (ExecutionStep N) → ℕ × List (Effect N)
  unfolding execute_step
  execute_plan event [] = (0, [])
  execute_plan event (s ∷ steps) =
      let (here, done) = execute_step event s in
      let (later, rest) = execute_plan event steps in (here + later, done ++ rest)

  -- One rule: its plan is executed under its own id.
  unfoldable pub evaluate_rule : TelemetryEvent N → LoadedRule N → ℕ × List (Effect N)
  unfolding evaluate execute_plan
  evaluate_rule event rule =
      execute_plan (record event { rule_id = some rule.id })
        (evaluate rule.nodes rule.edges event.sample false).steps

  unfoldable pub evaluate_rules : TelemetryEvent N → List (LoadedRule N) → ℕ × List (Effect N)
  unfolding evaluate_rule
  evaluate_rules event [] = (0, [])
  evaluate_rules event (r ∷ rules) =
      let (here, done) = evaluate_rule event r in
      let (later, rest) = evaluate_rules event rules in (here + later, done ++ rest)

  unfoldable pub evaluate_event :
      TelemetryEvent N → List (LoadedRule N) → Bool → ℕ × List (Effect N)
  unfolding evaluate_rules
  evaluate_event event rules true = (0, [])
  evaluate_event event rules false = evaluate_rules event rules

  -- `_handle`: the device's maintenance flag and the organization's rules are looked up.
  unfoldable pub handle_event :
      (ℕ → Bool) → (ℕ → List (LoadedRule N)) → TelemetryEvent N → List (Effect N)
  unfolding evaluate_event
  handle_event is_maintenance load_rules event =
      if is_maintenance event.device_id
      then []
      else (evaluate_event event (load_rules event.org_id) false).1
