-- ===== src/Plan/Suite/Builder/Injections.antt =====
-- The fault steps that pkg/plan/suite/step_builder.go makes: injections, and how many.
use attacknet.Base.{
  ℕ, ◌+◌, ◌≡◌, List, [], ◌∷◌, length, length-append, All, All-append, arith, String, Outcome, ok,
  ok_of_bind,
}
use attacknet.Base.Text.{◌++◌ as append}
use attacknet.Base.Int.{ℤ}
use attacknet.Golang.Duration.{Duration}
use attacknet.Types.{PlanStep, inject_fault}
use attacknet.Plan.Suite.Faults.{
  Yaml, FaultWrapper, ChaosExpressionSelector, convert_fault_spec_to_inject_step,
  io_latency_wrapper, io_latency_steps, build_io_latency_fault, volume_path_for_io_fault,
}
use attacknet.Plan.Suite.Targeting.{ChaosTargetSelector}
use attacknet.Plan.Suite.Steps.{
  steps_for, io_latency_steps_of, are_expr_selectors_matching_id_in, compose_io_latency_steps,
}

abbrev pub IsInjection : PlanStep → Type 0
IsInjection step = step.step_type ≡ inject_fault

module _ (yaml : Yaml) where
  pub IsInjection-convert :
      (description : String) (s : FaultWrapper) (step : PlanStep)
      → convert_fault_spec_to_inject_step yaml description s ≡ ok step
      → IsInjection step
  unfolding convert_fault_spec_to_inject_step
  IsInjection-convert description s step e = ground arith

  -- A loop over the targets makes one step for each.
  pub steps_for_shape :
      (build : ChaosTargetSelector → Outcome PlanStep)
      → ((target : ChaosTargetSelector) (step : PlanStep)
          → build target ≡ ok step
          → IsInjection step)
      → (targets : List ChaosTargetSelector) (steps : List PlanStep)
      → steps_for build targets ≡ ok steps
      → All IsInjection steps × (length steps ≡ length targets)
  unfolding steps_for
  steps_for_shape build h [] steps e = ground arith
  steps_for_shape build h (target ∷ rest) steps e =
      let (step, e₁, f₁) = ok_of_bind (build target) _ e in
      let (more, e₂, f₂) = ok_of_bind (steps_for build rest) _ f₁ in
      ground (arith, h target step e₁, steps_for_shape build h rest more e₂)

  io_latency_steps_shape :
      (description : String) (selector : ChaosExpressionSelector) (delay : Duration) (percent : ℤ)
      (duration : Duration) (pods : List String) (steps : List PlanStep)
      → io_latency_steps yaml description selector delay percent duration pods ≡ ok steps
      → All IsInjection steps × (length steps ≡ length pods)
  unfolding io_latency_steps
  io_latency_steps_shape description selector delay percent duration [] steps e = ground arith
  io_latency_steps_shape description selector delay percent duration (pod ∷ rest) steps e =
      let (path, _, f₀) = ok_of_bind (volume_path_for_io_fault pod) _ e in
      let (step, e₁, f₁) =
        ok_of_bind
          (convert_fault_spec_to_inject_step yaml description
            (io_latency_wrapper selector delay percent duration path))
          _ f₀ in
      let (more, e₂, f₂) =
        ok_of_bind (io_latency_steps yaml description selector delay percent duration rest) _ f₁ in
      ground (
        arith,
        IsInjection-convert description (io_latency_wrapper selector delay percent duration path)
            step e₁,
        io_latency_steps_shape description selector delay percent duration rest more e₂,
      )

-- How many pods the selectors name.
abbrev pub pods_in : List ChaosExpressionSelector → ℕ
pods_in [] = 0
pods_in (selector ∷ rest) = length selector.values + pods_in rest

abbrev pub pods_of : List ChaosTargetSelector → ℕ
pods_of [] = 0
pods_of (target ∷ rest) = pods_in target.selector + pods_of rest

module _ (yaml : Yaml) where
  io_latency_steps_of_shape :
      (description : String) (delay : Duration) (percent : ℤ) (duration : Duration)
      (selectors : List ChaosExpressionSelector) (steps : List PlanStep)
      → io_latency_steps_of yaml description delay percent duration selectors ≡ ok steps
      → All IsInjection steps × (length steps ≡ pods_in selectors)
  unfolding io_latency_steps_of build_io_latency_fault
  io_latency_steps_of_shape description delay percent duration [] steps e = ground arith
  io_latency_steps_of_shape description delay percent duration (selector ∷ rest) steps e =
      let (some_steps, e₁, f₁) =
        ok_of_bind
          (io_latency_steps yaml description selector delay percent duration selector.values) _ e in
      let (more, e₂, f₂) =
        ok_of_bind (io_latency_steps_of yaml description delay percent duration rest) _ f₁ in
      let (a, m) =
        io_latency_steps_shape yaml description selector delay percent duration selector.values
          some_steps e₁ in
      let (b, n) = io_latency_steps_of_shape description delay percent duration rest more e₂ in
      ground (arith, All-append IsInjection some_steps more a b, length-append some_steps more)

  pub compose_io_latency_steps_shape :
      (targets : List ChaosTargetSelector) (delay : Duration) (percent : ℤ) (duration : Duration)
      (steps : List PlanStep)
      → compose_io_latency_steps yaml targets delay percent duration ≡ ok steps
      → All IsInjection steps × (length steps ≡ pods_of targets)
  unfolding compose_io_latency_steps
  compose_io_latency_steps_shape [] delay percent duration steps e = ground arith
  compose_io_latency_steps_shape (target ∷ rest) delay percent duration steps e =
      let (_, _, f₀) = ok_of_bind (are_expr_selectors_matching_id_in target.selector) _ e in
      let description = append "Inject i/o latency on target " target.description in
      let (some_steps, e₁, f₁) =
        ok_of_bind (io_latency_steps_of yaml description delay percent duration target.selector) _
          f₀ in
      let (more, e₂, f₂) =
        ok_of_bind (compose_io_latency_steps yaml rest delay percent duration) _ f₁ in
      let (a, m) =
        io_latency_steps_of_shape description delay percent duration target.selector some_steps
          e₁ in
      let (b, n) = compose_io_latency_steps_shape rest delay percent duration more e₂ in
      ground (arith, All-append IsInjection some_steps more a b, length-append some_steps more)
