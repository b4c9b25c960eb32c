-- ===== src/Plan/Suite/Builder/Safety.antt =====
-- ComposeTestSuite of pkg/plan/suite/suite_builder.go does not panic, and no attack size that cannot
-- be met stops it.
use attacknet.Base.{
  List, [], ◌∷◌, All, String, Outcome, or_fail, require, IsOrderly, IsOrderly-bind,
  IsOrderly-or_fail, IsOrderly-require,
}
use attacknet.Base.Int.{ℤ}
use attacknet.Base.Text.{◌++◌ as append, str_eq}
use attacknet.Golang.Duration.{Duration}
use attacknet.Types.{PlanStep}
use attacknet.Plan.Suite.Faults.{
  Yaml, FaultWrapper, ChaosExpressionSelector, convert_fault_spec_to_map,
  convert_fault_spec_to_inject_step, io_latency_wrapper, io_latency_steps, build_io_latency_fault,
  volume_path_for_io_fault,
}
use attacknet.Plan.Suite.Targeting.{ChaosTargetSelector}
use attacknet.Plan.Suite.Steps.{
  steps_for, io_latency_steps_of, are_expr_selectors_matching_id_in, compose_io_latency_steps,
}

-- An i/o fault can be made for a pod of the name, or is refused with an error.
abbrev pub IsPodName : String → Type 0
IsPodName name = IsOrderly (volume_path_for_io_fault name)

abbrev pub IsTarget : ChaosTargetSelector → Type 0
IsTarget target = All (λ s. All IsPodName s.values) target.selector

module _ (yaml : Yaml) where
  pub convert-IsOrderly :
      (description : String) (s : FaultWrapper)
      → IsOrderly (convert_fault_spec_to_inject_step yaml description s)
  unfolding convert_fault_spec_to_inject_step
  convert-IsOrderly description s =
      IsOrderly-bind (convert_fault_spec_to_map yaml s) _
        (IsOrderly-bind (or_fail (yaml.marshal s) _) _ (IsOrderly-or_fail (yaml.marshal s) _)
          (λ bs _. IsOrderly-or_fail (yaml.unmarshal bs) _))
        (λ _ _. tt)

  pub steps_for-IsOrderly :
      (build : ChaosTargetSelector → Outcome PlanStep)
      → ((target : ChaosTargetSelector) → IsOrderly (build target))
      → (targets : List ChaosTargetSelector) → IsOrderly (steps_for build targets)
  unfolding steps_for
  steps_for-IsOrderly build h [] = tt
  steps_for-IsOrderly build h (target ∷ rest) =
      IsOrderly-bind (build target) _ (h target) (λ step _.
        IsOrderly-bind (steps_for build rest) _ (steps_for-IsOrderly build h rest) (λ _ _. tt))

  io_latency_steps-IsOrderly :
      (description : String) (selector : ChaosExpressionSelector) (delay : Duration) (percent : ℤ)
      (duration : Duration) (pods : List String)
      → All IsPodName pods
      → IsOrderly (io_latency_steps yaml description selector delay percent duration pods)
  unfolding io_latency_steps
  io_latency_steps-IsOrderly description selector delay percent duration [] h = tt
  io_latency_steps-IsOrderly description selector delay percent duration (pod ∷ rest) h =
      IsOrderly-bind (volume_path_for_io_fault pod) _ h.0 (λ path _.
        IsOrderly-bind
          (convert_fault_spec_to_inject_step yaml description
            (io_latency_wrapper selector delay percent duration path))
          _
          (convert-IsOrderly description (io_latency_wrapper selector delay percent duration path))
          (λ step _.
            IsOrderly-bind (io_latency_steps yaml description selector delay percent duration rest)
              _ (io_latency_steps-IsOrderly description selector delay percent duration rest h.1)
              (λ _ _. tt)))

  io_latency_steps_of-IsOrderly :
      (description : String) (delay : Duration) (percent : ℤ) (duration : Duration)
      (selectors : List ChaosExpressionSelector)
      → All (λ s. All IsPodName s.values) selectors
      → IsOrderly (io_latency_steps_of yaml description delay percent duration selectors)
  unfolding io_latency_steps_of build_io_latency_fault
  io_latency_steps_of-IsOrderly description delay percent duration [] h = tt
  io_latency_steps_of-IsOrderly description delay percent duration (selector ∷ rest) h =
      IsOrderly-bind
        (io_latency_steps yaml description selector delay percent duration selector.values) _
        (io_latency_steps-IsOrderly description selector delay percent duration selector.values h.0)
        (λ steps _.
          IsOrderly-bind (io_latency_steps_of yaml description delay percent duration rest) _
            (io_latency_steps_of-IsOrderly description delay percent duration rest h.1) (λ _ _. tt))

  matching-IsOrderly :
      (selectors : List ChaosExpressionSelector)
      → IsOrderly (are_expr_selectors_matching_id_in selectors)
  unfolding are_expr_selectors_matching_id_in
  matching-IsOrderly [] = tt
  matching-IsOrderly (selector ∷ rest) =
      IsOrderly-bind
        (require (str_eq selector.key "kurtosistech.com/id")
          "i/o latency faults can only be target using pod id")
        _ (IsOrderly-require (str_eq selector.key "kurtosistech.com/id") _)
        (λ _ _.
          IsOrderly-bind
            (require (str_eq selector.operator "In")
              "i/o latency faults can only be target using the 'In' operator")
            _ (IsOrderly-require (str_eq selector.operator "In") _)
            (λ _ _. matching-IsOrderly rest))

  pub compose_io_latency_steps-IsOrderly :
      (targets : List ChaosTargetSelector) (delay : Duration) (percent : ℤ) (duration : Duration)
      → All IsTarget targets
      → IsOrderly (compose_io_latency_steps yaml targets delay percent duration)
  unfolding compose_io_latency_steps
  compose_io_latency_steps-IsOrderly [] delay percent duration h = tt
  compose_io_latency_steps-IsOrderly (target ∷ rest) delay percent duration h =
      IsOrderly-bind (are_expr_selectors_matching_id_in target.selector) _
        (matching-IsOrderly target.selector)
        (λ _ _.
          IsOrderly-bind
            (io_latency_steps_of yaml (append "Inject i/o latency on target " target.description)
              delay percent duration target.selector)
            _
            (io_latency_steps_of-IsOrderly
              (append "Inject i/o latency on target " target.description) delay percent duration
              target.selector h.0)
            (λ steps _.
              IsOrderly-bind (compose_io_latency_steps yaml rest delay percent duration) _
                (compose_io_latency_steps-IsOrderly rest delay percent duration h.1) (λ _ _. tt)))
