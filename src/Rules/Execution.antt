-- ===== src/Rules/Execution.antt =====
-- What executing plans does: the order of waits and actions, the count, and when nothing runs.
use iotaps.Common.{
  ℕ, suc, ◌+◌, ◌≡◌, refl, Bool, true, false, some, List, [], ◌∷◌, ◌++◌, arith, All, append_assoc,
}
use iotaps.Json.{Floats}
use iotaps.Rules.Chain.{build_chain}
use iotaps.Rules.Plan.{
  ExecutionStep, delay_step, action_step, TelemetryEvent, Effect, slept, ran, LoadedRule, evaluate,
  execute_step, execute_plan, evaluate_rule, evaluate_rules, evaluate_event,
}
use iotaps.Rules.Suppression.{fires, plan_chain_lem}

-- How many actions were handed to the sink.
abbrev pub runs : {N : Type 0} → List (Effect N) → ℕ
runs [] = 0
runs (slept s ∷ l) = runs l
runs (ran a e ∷ l) = suc (runs l)

-- Every action was run for the given rule, device and organization.
abbrev pub Attributed : {N : Type 0} → TelemetryEvent N → List (Effect N) → Type 0
Attributed event [] = Unit
Attributed event (slept s ∷ l) = Attributed event l
Attributed event (ran a e ∷ l) = (e ≡ event) × Attributed event l

runs-append : {N : Type 0} (l m : List (Effect N)) → runs (l ++ m) ≡ runs l + runs m
runs-append [] m = omega arith
runs-append (slept s ∷ l) m = runs-append l m
runs-append (ran a e ∷ l) m = omega (arith, runs-append l m)

Attributed-append :
    {N : Type 0} (event : TelemetryEvent N) (l m : List (Effect N))
    → Attributed event l
    → Attributed event m
    → Attributed event (l ++ m)
Attributed-append event [] m h k = k
Attributed-append event (slept s ∷ l) m h k = Attributed-append event l m h k
Attributed-append event (ran a e ∷ l) m h k = (h.0, Attributed-append event l m h.1 k)

module _ {N : Type 0} (floats : Floats N) where
  step_runs :
      (event : TelemetryEvent N) (s : ExecutionStep N)
      → (execute_step floats event s).0 ≡ runs (execute_step floats event s).1
  unfolding execute_step
  step_runs event (delay_step s) = ground arith
  step_runs event (action_step n) = ground arith

  step-Attributed :
      (event : TelemetryEvent N) (s : ExecutionStep N)
      → Attributed event (execute_step floats event s).1
  unfolding execute_step
  step-Attributed event (delay_step s) = ground arith
  step-Attributed event (action_step n) = ground arith

  plan_runs :
      (event : TelemetryEvent N) (steps : List (ExecutionStep N))
      → (execute_plan floats event steps).0 ≡ runs (execute_plan floats event steps).1
  unfolding execute_plan
  plan_runs event [] = refl
  plan_runs event (s ∷ steps) =
      let (here, done) = execute_step floats event s in
      let (later, rest) = execute_plan floats event steps in
      omega (arith, runs-append done rest, step_runs event s, plan_runs event steps)

  plan-Attributed :
      (event : TelemetryEvent N) (steps : List (ExecutionStep N))
      → Attributed event (execute_plan floats event steps).1
  unfolding execute_plan
  plan-Attributed event [] = tt
  plan-Attributed event (s ∷ steps) =
      let (here, done) = execute_step floats event s in
      let (later, rest) = execute_plan floats event steps in
      Attributed-append event done rest (step-Attributed event s) (plan-Attributed event steps)

  -- What a plan does is what its first part does, then what its second part does.
  plan_effects-append :
      (event : TelemetryEvent N) (pre post : List (ExecutionStep N))
      → (execute_plan floats event (pre ++ post)).1
        ≡ (execute_plan floats event pre).1 ++ (execute_plan floats event post).1
  unfolding execute_plan
  plan_effects-append event [] post = refl
  plan_effects-append event (s ∷ pre) post =
      let (here, done) = execute_step floats event s in
      let (later, rest) = execute_plan floats event pre in
      let (after, last) = execute_plan floats event post in
      rw (plan_effects-append event pre post, append_assoc done rest last)

  -- Executing a plan returns the number of actions handed to the sink, each of them for the event
  -- given, and a delay that is positive is slept through after all that stands before it in the
  -- plan and before all that stands behind it.
  pub execute_plan_lem :
      (event : TelemetryEvent N) (pre post : List (ExecutionStep N)) (s : N)
      → floats.gt s floats.nought ≡ true
      → let (dispatched, effects) = execute_plan floats event (pre ++ delay_step s ∷ post) in
        (dispatched ≡ runs effects)
        × Attributed event effects
        × (effects
            ≡ (execute_plan floats event pre).1 ++ (slept s ∷ (execute_plan floats event post).1))
  execute_plan_lem event pre post s h = (
    plan_runs event (pre ++ delay_step s ∷ post),
    plan-Attributed event (pre ++ delay_step s ∷ post),
    rw (plan_effects-append event pre (delay_step s ∷ post))
        (unfold execute_plan execute_step in rw h),
  )

  rules_runs :
      (event : TelemetryEvent N) (rules : List (LoadedRule N))
      → (evaluate_rules floats event rules).0 ≡ runs (evaluate_rules floats event rules).1
  unfolding evaluate_rules evaluate_rule
  rules_runs event [] = refl
  rules_runs event (r ∷ rules) =
      let plan = evaluate floats r.nodes r.edges event.sample false in
      let own = record event { rule_id = some r.id } in
      omega (
        arith,
        runs-append (execute_plan floats own plan.steps).1 (evaluate_rules floats event rules).1,
        plan_runs own plan.steps,
        rules_runs event rules,
      )

  -- The rule's chain does not start with a trigger that the sample matches.
  abbrev pub IsQuiet : TelemetryEvent N → LoadedRule N → Type 0
  IsQuiet event r = fires floats event.sample (build_chain floats r.nodes r.edges) ≡ false

  quiet_rule :
      (event : TelemetryEvent N) (r : LoadedRule N)
      → IsQuiet event r
      → evaluate_rule floats event r ≡ (0, [])
  unfolding evaluate_rule evaluate execute_plan
  quiet_rule event r h =
      rw ((plan_chain_lem floats event.sample (build_chain floats r.nodes r.edges) false).1, h)

  quiet_rules :
      (event : TelemetryEvent N) (rules : List (LoadedRule N))
      → All (IsQuiet event) rules
      → evaluate_rules floats event rules ≡ (0, [])
  unfolding evaluate_rules
  quiet_rules event [] h = refl
  quiet_rules event (r ∷ rules) h = rw (quiet_rule event r h.0, quiet_rules event rules h.1)

  -- The count returned for an event is the number of actions run over all its rules. A device in
  -- maintenance runs nothing and waits for nothing, and neither does an event for which no rule's
  -- chain starts with a matching trigger.
  pub evaluate_event_lem :
      (event : TelemetryEvent N) (rules : List (LoadedRule N)) (maintenance_mode : Bool)
      → let (dispatched, effects) = evaluate_event floats event rules maintenance_mode in
        (dispatched ≡ runs effects)
        × (maintenance_mode ≡ true → effects ≡ [])
        × (All (IsQuiet event) rules → effects ≡ [])
  unfolding evaluate_event
  evaluate_event_lem event rules true = (refl, λ _. refl, λ _. refl)
  evaluate_event_lem event rules false =
      (rules_runs event rules, λ h. cc, λ h. rw (quiet_rules event rules h))
