-- ===== src/Plan/Suite/Scenarios.antt =====
-- pkg/plan/suite/test_builder.go: a whole test for each kind of fault.
use attacknet.Base.{true, some, List, [], ◌∷◌, ◌++◌, String, Outcome, ok, ◌>>=◌}
use attacknet.Base.Int.{ℤ}
use attacknet.Golang.Duration.{Duration}
use attacknet.Types.{PlanStep, SuiteTest}
use attacknet.Plan.Suite.Faults.{Yaml}
use attacknet.Plan.Suite.Targeting.{ChaosTargetSelector}
use attacknet.Plan.Suite.Steps.{
  compose_wait_for_fault_completion_step, compose_node_clock_skew_plan_steps,
  compose_node_restart_steps, compose_io_latency_steps, compose_network_latency_steps,
  compose_packet_drop_steps,
}

-- The common end of the five functions: the fault steps, then the wait for their completion.
unfoldable pub suite_test : String → List PlanStep → Duration → SuiteTest
suite_test description steps grace_duration = record {
  test_name = description;
  plan_steps = steps ++ compose_wait_for_fault_completion_step ∷ [];
  health_config = record { enable_checks = true; grace_period = some grace_duration };
}

module _ (yaml : Yaml) where
  unfoldable pub compose_node_clock_skew_test :
      String → List ChaosTargetSelector → String → String → Duration → Outcome SuiteTest
  unfolding suite_test
  compose_node_clock_skew_test description targets skew duration grace_duration = do
    steps ← compose_node_clock_skew_plan_steps yaml targets skew duration
    ok (suite_test description steps grace_duration)

  unfoldable pub compose_node_restart_test :
      String → List ChaosTargetSelector → Duration → Outcome SuiteTest
  unfolding suite_test
  compose_node_restart_test description targets grace_duration = do
    steps ← compose_node_restart_steps yaml targets
    ok (suite_test description steps grace_duration)

  unfoldable pub compose_io_latency_test :
      String → List ChaosTargetSelector → Duration → ℤ → Duration → Duration → Outcome SuiteTest
  unfolding suite_test
  compose_io_latency_test description targets delay percent duration grace_duration = do
    steps ← compose_io_latency_steps yaml targets delay percent duration
    ok (suite_test description steps grace_duration)

  unfoldable pub compose_network_latency_test :
      String
      → List ChaosTargetSelector
      → Duration
      → Duration
      → Duration
      → Duration
      → ℤ
      → Outcome SuiteTest
  unfolding suite_test
  compose_network_latency_test description targets delay jitter duration grace correlation = do
    steps ← compose_network_latency_steps yaml targets delay jitter duration correlation
    ok (suite_test description steps grace)

  unfoldable pub compose_packet_drop_test :
      String → List ChaosTargetSelector → ℤ → String → Duration → Duration → Outcome SuiteTest
  unfolding suite_test
  compose_packet_drop_test description targets percent direction duration grace = do
    steps ← compose_packet_drop_steps yaml targets percent direction duration
    ok (suite_test description steps grace)
