-- ===== src/Rules/Suppression.antt =====
-- What a plan holds, against a description of its own, and what its execution does.
use iotaps.Common.{◌≡◌, refl, Bool, true, false, List, [], ◌∷◌, ◌++◌, arith, if◌then◌else◌}
use iotaps.Json.{Fields, Floats}
use iotaps.Rules.Predicate.{delay_seconds}
use iotaps.Rules.Chain.{trigger, condition, delay, action, RuleNodeSpec}
use iotaps.Rules.Plan.{
  ExecutionStep, delay_step, action_step, holds, plan_rest, plan_steps, plan_chain,
}

module _ {N : Type 0} (floats : Floats N) (telemetry : Fields N) where
  -- A condition that is false for the sample.
  abbrev pub fails : RuleNodeSpec N → Bool
  fails n = elim n.node_type [
    | condition ↦ if holds floats n telemetry then false else true
    | trigger ↦ false
    | delay ↦ false
    | action ↦ false
  ]

  -- The nodes before the first that fails.
  abbrev pub before_failure : List (RuleNodeSpec N) → List (RuleNodeSpec N)
  before_failure [] = []
  before_failure (n ∷ rest) = let kept = before_failure rest in if fails n then [] else n ∷ kept

  -- The step of one node, if it has one.
  abbrev pub steps_of : RuleNodeSpec N → List (ExecutionStep N)
  steps_of n = elim n.node_type [
    | delay ↦ delay_step (delay_seconds floats n.config) ∷ []
    | action ↦ action_step n ∷ []
    | trigger ↦ []
    | condition ↦ []
  ]

  abbrev pub all_steps : List (RuleNodeSpec N) → List (ExecutionStep N)
  all_steps [] = []
  all_steps (n ∷ rest) = steps_of n ++ all_steps rest

  plan_rest-eq :
      (rest : List (RuleNodeSpec N))
      → plan_rest floats telemetry rest ≡ all_steps (before_failure rest)
  unfolding plan_rest
  plan_rest-eq [] = refl
  plan_rest-eq (n ∷ rest) = ground (arith, plan_rest-eq rest)

  -- Whether a chain starts with a trigger that the sample matches.
  abbrev pub fires : List (RuleNodeSpec N) → Bool
  fires [] = false
  fires (t ∷ rest) = elim t.node_type [
    | trigger ↦ holds floats t telemetry
    | condition ↦ false
    | delay ↦ false
    | action ↦ false
  ]

  abbrev pub after_trigger : List (RuleNodeSpec N) → List (RuleNodeSpec N)
  after_trigger [] = []
  after_trigger (t ∷ rest) = rest

  -- A plan is marked suppressed exactly in maintenance. It has no steps in maintenance or unless the
  -- chain starts with a trigger that matches; otherwise it has the delays and actions after the
  -- trigger, in chain order, up to the first false condition.
  pub plan_chain_lem :
      (chain : List (RuleNodeSpec N)) (maintenance_mode : Bool)
      → let plan = plan_chain floats chain telemetry maintenance_mode in
        (plan.suppressed ≡ maintenance_mode)
        × (plan.steps ≡ (
            if maintenance_mode
            then []
            else if fires chain
            then all_steps (before_failure (after_trigger chain))
            else []))
  unfolding plan_chain plan_steps
  plan_chain_lem chain true = (refl, refl)
  plan_chain_lem [] false = (refl, refl)
  plan_chain_lem (t ∷ rest) false = (refl, ground (arith, plan_rest-eq rest))
