-- ===== src/Plan/Suite/Builder/Shape.antt =====
-- The shape of the tests that pkg/plan/suite/suite_builder.go composes.
use attacknet.Base.{
  ℕ, ◌≡◌, refl, ◌∙◌, ap, subst, true, Option, some, List, [], ◌∷◌, ◌++◌, length, All, String,
  Outcome, ok, or_fail, ok_of_bind, ok-injective,
}
use attacknet.Base.Int.{ℤ, pos}
use attacknet.Base.Dict.{Dict, lookup}
use attacknet.Golang.Duration.{Duration}
use attacknet.Types.{PlanStep, SuiteTest}
use attacknet.Plan.Suite.Kinds.{
  FaultType, fault_clock_skew, fault_container_restart, fault_io_latency, fault_network_latency,
  fault_packet_loss, other_fault,
}
use attacknet.Plan.Suite.Faults.{
  Yaml, build_clock_skew_fault, build_pod_restart_fault, build_network_latency_fault,
  build_packet_drop_fault,
}
use attacknet.Plan.Suite.Targeting.{ChaosTargetSelector}
use attacknet.Plan.Suite.Steps.{
  compose_wait_for_fault_completion_step, compose_io_latency_steps,
  compose_node_clock_skew_plan_steps, compose_node_restart_steps, compose_network_latency_steps,
  compose_packet_drop_steps,
}
use attacknet.Plan.Suite.Scenarios.{
  suite_test, compose_node_clock_skew_test, compose_node_restart_test, compose_io_latency_test,
  compose_network_latency_test, compose_packet_drop_test,
}
use attacknet.Golang.Decimal.{atoi}
use attacknet.Plan.Suite.Builder.{
  get_duration_value, get_uint_value, get_string_value, compose_test_for_fault_type,
}
use attacknet.Plan.Suite.Builder.Injections.{
  IsInjection, pods_of, IsInjection-convert, steps_for_shape, compose_io_latency_steps_shape,
}

ok_some-injective :
    {a b : SuiteTest} → Path (Outcome (Option SuiteTest)) (ok (some a)) (ok (some b)) → a ≡ b
ok_some-injective e = cc

-- One fault for each pod in the case of i/o latency, and one for each target in all others.
abbrev pub fault_count : FaultType → List ChaosTargetSelector → ℕ
fault_count fault_io_latency targets = pods_of targets
fault_count _ targets = length targets

-- The steps are injections, as many as asked for, then one wait for their completion; and the health
-- checks are enabled with a grace period.
abbrev pub IsComposed : ℕ → SuiteTest → Type 0
IsComposed n t =
    (faults : List PlanStep) × (t.plan_steps
      ≡ faults ++ compose_wait_for_fault_completion_step ∷ [])
    × All IsInjection faults
    × (length faults ≡ n)
    × (t.health_config.enable_checks ≡ true)
    × (grace : Duration) × (t.health_config.grace_period ≡ some grace)

module _ (yaml : Yaml) where
  suite_test-IsComposed :
      (description : String) (steps : List PlanStep) (grace : Duration) (n : ℕ) (t : SuiteTest)
      → All IsInjection steps × (length steps ≡ n)
      → Path (Outcome SuiteTest) (ok (suite_test description steps grace)) (ok t)
      → IsComposed n t
  unfolding suite_test
  suite_test-IsComposed description steps grace n t (a, c) e =
      subst (IsComposed n) (ok-injective e) (steps, refl, a, c, refl, grace, refl)

  clock_skew_shape :
      (description : String) (targets : List ChaosTargetSelector) (skew duration : String)
      (grace : Duration) (t : SuiteTest)
      → compose_node_clock_skew_test yaml description targets skew duration grace ≡ ok t
      → IsComposed (length targets) t
  unfolding compose_node_clock_skew_test compose_node_clock_skew_plan_steps build_clock_skew_fault
  clock_skew_shape description targets skew duration grace t e =
      let (steps, e₁, f) =
        ok_of_bind (compose_node_clock_skew_plan_steps yaml targets skew duration) _ e in
      suite_test-IsComposed description steps grace (length targets) t
        (steps_for_shape yaml _ (λ target step h. IsInjection-convert yaml _ _ step h) targets steps
          e₁)
        f

  restart_shape :
      (description : String) (targets : List ChaosTargetSelector) (grace : Duration) (t : SuiteTest)
      → compose_node_restart_test yaml description targets grace ≡ ok t
      → IsComposed (length targets) t
  unfolding compose_node_restart_test compose_node_restart_steps build_pod_restart_fault
  restart_shape description targets grace t e =
      let (steps, e₁, f) = ok_of_bind (compose_node_restart_steps yaml targets) _ e in
      suite_test-IsComposed description steps grace (length targets) t
        (steps_for_shape yaml _ (λ target step h. IsInjection-convert yaml _ _ step h) targets steps
          e₁)
        f

  io_latency_shape :
      (description : String) (targets : List ChaosTargetSelector) (delay : Duration) (percent : ℤ)
      (duration grace : Duration) (t : SuiteTest)
      → compose_io_latency_test yaml description targets delay percent duration grace ≡ ok t
      → IsComposed (pods_of targets) t
  unfolding compose_io_latency_test
  io_latency_shape description targets delay percent duration grace t e =
      let (steps, e₁, f) =
        ok_of_bind (compose_io_latency_steps yaml targets delay percent duration) _ e in
      suite_test-IsComposed description steps grace (pods_of targets) t
        (compose_io_latency_steps_shape yaml targets delay percent duration steps e₁) f

  network_latency_shape :
      (description : String) (targets : List ChaosTargetSelector)
      (delay jitter duration grace : Duration) (correlation : ℤ) (t : SuiteTest)
      → compose_network_latency_test yaml description targets delay jitter duration grace
          correlation
        ≡ ok t
      → IsComposed (length targets) t
  unfolding compose_network_latency_test compose_network_latency_steps build_network_latency_fault
  network_latency_shape description targets delay jitter duration grace correlation t e =
      let (steps, e₁, f) =
        ok_of_bind (compose_network_latency_steps yaml targets delay jitter duration correlation) _
          e in
      suite_test-IsComposed description steps grace (length targets) t
        (steps_for_shape yaml _ (λ target step h. IsInjection-convert yaml _ _ step h) targets steps
          e₁)
        f

  packet_drop_shape :
      (description : String) (targets : List ChaosTargetSelector) (percent : ℤ) (direction : String)
      (duration grace : Duration) (t : SuiteTest)
      → compose_packet_drop_test yaml description targets percent direction duration grace ≡ ok t
      → IsComposed (length targets) t
  unfolding compose_packet_drop_test compose_packet_drop_steps build_packet_drop_fault
  packet_drop_shape description targets percent direction duration grace t e =
      let (steps, e₁, f) =
        ok_of_bind (compose_packet_drop_steps yaml targets percent direction duration) _ e in
      suite_test-IsComposed description steps grace (length targets) t
        (steps_for_shape yaml _ (λ target step h. IsInjection-convert yaml _ _ step h) targets steps
          e₁)
        f

  -- Each case composes a test of its kind, after it has read the settings.
  pub compose_test_shape :
      (fault_type : FaultType) (config : Dict String) (targets : List ChaosTargetSelector)
      (targeting : String) (t : SuiteTest)
      → compose_test_for_fault_type yaml fault_type config targets targeting ≡ ok (some t)
      → IsComposed (fault_count fault_type targets) t
  unfolding compose_test_for_fault_type
  compose_test_shape fault_clock_skew config targets targeting t e =
      let (skew, _, f₁) = ok_of_bind (or_fail (lookup "skew" config) _) _ e in
      let (duration, _, f₂) = ok_of_bind (or_fail (lookup "duration" config) _) _ f₁ in
      let (grace, _, f₃) = ok_of_bind (get_duration_value "grace_period" config) _ f₂ in
      let (test, h, f₄) =
        ok_of_bind (compose_node_clock_skew_test yaml _ targets skew duration grace) _ f₃ in
      clock_skew_shape _ targets skew duration grace t (h ∙ ap ok (ok_some-injective f₄))
  compose_test_shape fault_container_restart config targets targeting t e =
      let (grace, _, f₁) = ok_of_bind (get_duration_value "grace_period" config) _ e in
      let (test, h, f₂) = ok_of_bind (compose_node_restart_test yaml _ targets grace) _ f₁ in
      restart_shape _ targets grace t (h ∙ ap ok (ok_some-injective f₂))
  compose_test_shape fault_io_latency config targets targeting t e =
      let (grace, _, f₁) = ok_of_bind (get_duration_value "grace_period" config) _ e in
      let (delay, _, f₂) = ok_of_bind (get_duration_value "delay" config) _ f₁ in
      let (duration, _, f₃) = ok_of_bind (get_duration_value "duration" config) _ f₂ in
      let (text, _, f₄) = ok_of_bind (or_fail (lookup "percent" config) _) _ f₃ in
      let (percent, _, f₅) = ok_of_bind (or_fail (atoi text) _) _ f₄ in
      let (test, h, f₆) =
        ok_of_bind (compose_io_latency_test yaml _ targets delay percent duration grace) _ f₅ in
      io_latency_shape _ targets delay percent duration grace t (h ∙ ap ok (ok_some-injective f₆))
  compose_test_shape fault_network_latency config targets targeting t e =
      let (grace, _, f₁) = ok_of_bind (get_duration_value "grace_period" config) _ e in
      let (delay, _, f₂) = ok_of_bind (get_duration_value "delay" config) _ f₁ in
      let (jitter, _, f₃) = ok_of_bind (get_duration_value "jitter" config) _ f₂ in
      let (duration, _, f₄) = ok_of_bind (get_duration_value "duration" config) _ f₃ in
      let (correlation, _, f₅) = ok_of_bind (get_uint_value "correlation" config) _ f₄ in
      let (test, h, f₆) =
        ok_of_bind
          (compose_network_latency_test yaml _ targets delay jitter duration grace
            (pos correlation))
          _ f₅ in
      network_latency_shape _ targets delay jitter duration grace (pos correlation) t
        (h ∙ ap ok (ok_some-injective f₆))
  compose_test_shape fault_packet_loss config targets targeting t e =
      let (grace, _, f₁) = ok_of_bind (get_duration_value "grace_period" config) _ e in
      let (duration, _, f₂) = ok_of_bind (get_duration_value "duration" config) _ f₁ in
      let (loss, _, f₃) = ok_of_bind (get_uint_value "loss_percent" config) _ f₂ in
      let (direction, _, f₄) = ok_of_bind (get_string_value "direction" config) _ f₃ in
      let (test, h, f₅) =
        ok_of_bind (compose_packet_drop_test yaml _ targets (pos loss) direction duration grace) _
          f₄ in
      packet_drop_shape _ targets (pos loss) direction duration grace t
        (h ∙ ap ok (ok_some-injective f₅))
  compose_test_shape (other_fault _) config targets targeting t e = cc
