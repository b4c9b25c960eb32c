-- ===== src/Plan/Suite/Steps.antt =====
-- pkg/plan/suite/step_builder.go: the plan steps of a test, one list for each kind of fault.
use attacknet.Base.{List, [], ◌∷◌, ◌++◌, String, Outcome, ok, require, ◌>>=◌, ◌>>◌}
use attacknet.Base.Int.{ℤ}
use attacknet.Base.Text.{◌++◌ as append, str_eq}
use attacknet.Golang.Duration.{Duration}
use attacknet.Types.{PlanStep, end, wait_for_fault_completion}
use attacknet.Plan.Suite.Faults.{
  ChaosExpressionSelector, Yaml, build_clock_skew_fault, build_pod_restart_fault,
  build_io_latency_fault, build_network_latency_fault, build_packet_drop_fault,
}
use attacknet.Plan.Suite.Targeting.{ChaosTargetSelector}

abbrev pub compose_wait_for_fault_completion_step : PlanStep
compose_wait_for_fault_completion_step = record {
  step_type = wait_for_fault_completion;
  step_description = "wait for faults to terminate";
  spec = end;
}

unfoldable pub are_expr_selectors_matching_id_in : List ChaosExpressionSelector → Outcome (Unit {0})
are_expr_selectors_matching_id_in [] = ok tt
are_expr_selectors_matching_id_in (selector ∷ rest) = do
  require (str_eq selector.key "kurtosistech.com/id")
      "i/o latency faults can only be target using pod id"
  require (str_eq selector.operator "In")
      "i/o latency faults can only be target using the 'In' operator"
  are_expr_selectors_matching_id_in rest

-- The loop that makes one step for each target, and stops at the first error.
unfoldable pub steps_for :
    (ChaosTargetSelector → Outcome PlanStep) → List ChaosTargetSelector → Outcome (List PlanStep)
steps_for build [] = ok []
steps_for build (target ∷ rest) = do
  step ← build target
  steps ← steps_for build rest
  ok (step ∷ steps)

module _ (yaml : Yaml) where
  unfoldable pub compose_node_clock_skew_plan_steps :
      List ChaosTargetSelector → String → String → Outcome (List PlanStep)
  unfolding steps_for
  compose_node_clock_skew_plan_steps targets skew duration =
      steps_for
        (λ target.
          build_clock_skew_fault yaml (append "Inject clock skew on target " target.description)
            skew duration target.selector)
        targets

  unfoldable pub compose_node_restart_steps : List ChaosTargetSelector → Outcome (List PlanStep)
  unfolding steps_for
  compose_node_restart_steps targets =
      steps_for
        (λ target.
          build_pod_restart_fault yaml (append "Restart target " target.description)
            target.selector)
        targets

  -- The loop over the selectors of one target.
  unfoldable pub io_latency_steps_of :
      String → Duration → ℤ → Duration → List ChaosExpressionSelector → Outcome (List PlanStep)
  io_latency_steps_of description delay percent duration [] = ok []
  io_latency_steps_of description delay percent duration (selector ∷ rest) = do
    steps ← build_io_latency_fault yaml description selector delay percent duration
    more ← io_latency_steps_of description delay percent duration rest
    ok (steps ++ more)

  unfoldable pub compose_io_latency_steps :
      List ChaosTargetSelector → Duration → ℤ → Duration → Outcome (List PlanStep)
  unfolding io_latency_steps_of are_expr_selectors_matching_id_in
  compose_io_latency_steps [] delay percent duration = ok []
  compose_io_latency_steps (target ∷ rest) delay percent duration = do
    are_expr_selectors_matching_id_in target.selector
    steps ←
        io_latency_steps_of (append "Inject i/o latency on target " target.description) delay
          percent duration target.selector
    more ← compose_io_latency_steps rest delay percent duration
    ok (steps ++ more)

  unfoldable pub compose_network_latency_steps :
      List ChaosTargetSelector → Duration → Duration → Duration → ℤ → Outcome (List PlanStep)
  unfolding steps_for
  compose_network_latency_steps targets delay jitter duration correlation =
      steps_for
        (λ target.
          build_network_latency_fault yaml
            (append "Inject network latency on target " target.description) target.selector delay
            jitter duration correlation)
        targets

  unfoldable pub compose_packet_drop_steps :
      List ChaosTargetSelector → ℤ → String → Duration → Outcome (List PlanStep)
  unfolding steps_for
  compose_packet_drop_steps targets percent direction duration =
      steps_for
        (λ target.
          build_packet_drop_fault yaml
            (append "Inject network latency on target " target.description) target.selector percent
            direction duration)
        targets
