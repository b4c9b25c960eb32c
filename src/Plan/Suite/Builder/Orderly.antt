-- ===== src/Plan/Suite/Builder/Orderly.antt =====
-- composeTestForFaultType of pkg/plan/suite/suite_builder.go gives a test or an error for the fault
-- types of the source.
use attacknet.Base.{
  All, Option, none, some, List, [], ◌∷◌, String, Outcome, ok, or_fail, or_crash, nil_pointer,
  ◌>>=◌, IsOrderly, IsOrderly-bind, IsOrderly-or_fail, Yields, Yields-bind, IsOrderly-Yields,
  Yields_at,
}
use attacknet.Base.Int.{ℤ, pos}
use attacknet.Base.Dict.{Dict, lookup}
use attacknet.Golang.Duration.{Duration}
use attacknet.Golang.Decimal.{atoi}
use attacknet.Types.{SuiteTest}
use attacknet.Plan.Suite.Kinds.{
  FaultType, fault_clock_skew, fault_container_restart, fault_io_latency, fault_network_latency,
  fault_packet_loss, other_fault,
}
use attacknet.Plan.Suite.Faults.{
  Yaml, build_clock_skew_fault, build_pod_restart_fault, build_network_latency_fault,
  build_packet_drop_fault,
}
use attacknet.Plan.Suite.Targeting.{ChaosTargetSelector}
use attacknet.Plan.Suite.Steps.{
  compose_io_latency_steps, compose_node_clock_skew_plan_steps, compose_node_restart_steps,
  compose_network_latency_steps, compose_packet_drop_steps,
}
use attacknet.Plan.Suite.Scenarios.{
  compose_node_clock_skew_test, compose_node_restart_test, compose_io_latency_test,
  compose_network_latency_test, compose_packet_drop_test,
}
use attacknet.Plan.Suite.Builder.{
  get_duration_value, get_uint_value, get_string_value, compose_test_for_fault_type,
  tests_for_configs,
}
use attacknet.Plan.Suite.Builder.Safety.{
  IsTarget, convert-IsOrderly, steps_for-IsOrderly, compose_io_latency_steps-IsOrderly,
}

-- A fault type that the source declares.
abbrev pub IsDeclared : FaultType → Type 0
IsDeclared (other_fault _) = ⊥
IsDeclared _ = Unit

-- Only for i/o latency the names of the pods matter.
abbrev pub CanTarget : FaultType → List ChaosTargetSelector → Type 0
CanTarget fault_io_latency targets = All IsTarget targets
CanTarget _ targets = Unit

-- A pointer that is not nil.
abbrev IsTest : Option SuiteTest → Type 0
IsTest none = ⊥
IsTest (some _) = Unit

duration_value-IsOrderly : (key : String) (m : Dict String) → IsOrderly (get_duration_value key m)
unfolding get_duration_value
duration_value-IsOrderly key m =
    IsOrderly-bind (or_fail (lookup key m) _) _ (IsOrderly-or_fail (lookup key m) _)
      (λ text _. IsOrderly-or_fail _ _)

uint_value-IsOrderly : (key : String) (m : Dict String) → IsOrderly (get_uint_value key m)
unfolding get_uint_value
uint_value-IsOrderly key m =
    IsOrderly-bind (or_fail (lookup key m) _) _ (IsOrderly-or_fail (lookup key m) _)
      (λ text _. IsOrderly-or_fail _ _)

string_value-IsOrderly : (key : String) (m : Dict String) → IsOrderly (get_string_value key m)
unfolding get_string_value
string_value-IsOrderly key m = IsOrderly-or_fail (lookup key m) _

module _ (yaml : Yaml) where
  -- The last step of each case.
  IsTest-Yields :
      (composed : Outcome SuiteTest)
      → IsOrderly composed
      → Yields IsTest (do test ← composed; ok (some test))
  IsTest-Yields composed h = Yields-bind IsTest composed _ h (λ _. tt)

  clock_skew-IsOrderly :
      (description : String) (targets : List ChaosTargetSelector) (skew duration : String)
      (grace : Duration)
      → IsOrderly (compose_node_clock_skew_test yaml description targets skew duration grace)
  unfolding compose_node_clock_skew_test compose_node_clock_skew_plan_steps build_clock_skew_fault
  clock_skew-IsOrderly description targets skew duration grace =
      IsOrderly-bind (compose_node_clock_skew_plan_steps yaml targets skew duration) _
        (steps_for-IsOrderly yaml _ (λ target. convert-IsOrderly yaml _ _) targets) (λ _ _. tt)

  restart-IsOrderly :
      (description : String) (targets : List ChaosTargetSelector) (grace : Duration)
      → IsOrderly (compose_node_restart_test yaml description targets grace)
  unfolding compose_node_restart_test compose_node_restart_steps build_pod_restart_fault
  restart-IsOrderly description targets grace =
      IsOrderly-bind (compose_node_restart_steps yaml targets) _
        (steps_for-IsOrderly yaml _ (λ target. convert-IsOrderly yaml _ _) targets) (λ _ _. tt)

  io_latency-IsOrderly :
      (description : String) (targets : List ChaosTargetSelector) (delay : Duration) (percent : ℤ)
      (duration grace : Duration)
      → All IsTarget targets
      → IsOrderly (compose_io_latency_test yaml description targets delay percent duration grace)
  unfolding compose_io_latency_test
  io_latency-IsOrderly description targets delay percent duration grace h =
      IsOrderly-bind (compose_io_latency_steps yaml targets delay percent duration) _
        (compose_io_latency_steps-IsOrderly yaml targets delay percent duration h) (λ _ _. tt)

  network_latency-IsOrderly :
      (description : String) (targets : List ChaosTargetSelector)
      (delay jitter duration grace : Duration) (correlation : ℤ)
      → IsOrderly (
          compose_network_latency_test yaml description targets delay jitter duration grace
            correlation)
  unfolding compose_network_latency_test compose_network_latency_steps build_network_latency_fault
  network_latency-IsOrderly description targets delay jitter duration grace correlation =
      IsOrderly-bind (compose_network_latency_steps yaml targets delay jitter duration correlation)
        _ (steps_for-IsOrderly yaml _ (λ target. convert-IsOrderly yaml _ _) targets) (λ _ _. tt)

  packet_drop-IsOrderly :
      (description : String) (targets : List ChaosTargetSelector) (percent : ℤ) (direction : String)
      (duration grace : Duration)
      → IsOrderly
          (compose_packet_drop_test yaml description targets percent direction duration grace)
  unfolding compose_packet_drop_test compose_packet_drop_steps build_packet_drop_fault
  packet_drop-IsOrderly description targets percent direction duration grace =
      IsOrderly-bind (compose_packet_drop_steps yaml targets percent direction duration) _
        (steps_for-IsOrderly yaml _ (λ target. convert-IsOrderly yaml _ _) targets) (λ _ _. tt)

  compose-IsTest-Yields :
      (fault_type : FaultType) (config : Dict String) (targets : List ChaosTargetSelector)
      (targeting : String)
      → IsDeclared fault_type
      → CanTarget fault_type targets
      → Yields IsTest (compose_test_for_fault_type yaml fault_type config targets targeting)
  unfolding compose_test_for_fault_type
  compose-IsTest-Yields fault_clock_skew config targets targeting d h =
      Yields-bind IsTest (or_fail (lookup "skew" config) _) _
        (IsOrderly-or_fail (lookup "skew" config) _)
        (λ skew.
          Yields-bind IsTest (or_fail (lookup "duration" config) _) _
            (IsOrderly-or_fail (lookup "duration" config) _)
            (λ duration.
              Yields-bind IsTest (get_duration_value "grace_period" config) _
                (duration_value-IsOrderly "grace_period" config)
                (λ grace.
                  IsTest-Yields (compose_node_clock_skew_test yaml _ targets skew duration grace)
                    (clock_skew-IsOrderly _ targets skew duration grace))))
  compose-IsTest-Yields fault_container_restart config targets targeting d h =
      Yields-bind IsTest (get_duration_value "grace_period" config) _
        (duration_value-IsOrderly "grace_period" config)
        (λ grace.
          IsTest-Yields (compose_node_restart_test yaml _ targets grace)
            (restart-IsOrderly _ targets grace))
  compose-IsTest-Yields fault_io_latency config targets targeting d h =
      Yields-bind IsTest (get_duration_value "grace_period" config) _
        (duration_value-IsOrderly "grace_period" config)
        (λ grace.
          Yields-bind IsTest (get_duration_value "delay" config) _
            (duration_value-IsOrderly "delay" config)
            (λ delay.
              Yields-bind IsTest (get_duration_value "duration" config) _
                (duration_value-IsOrderly "duration" config)
                (λ duration.
                  Yields-bind IsTest (or_fail (lookup "percent" config) _) _
                    (IsOrderly-or_fail (lookup "percent" config) _)
                    (λ text.
                      Yields-bind IsTest (or_fail (atoi text) _) _ (IsOrderly-or_fail (atoi text) _)
                        (λ percent.
                          IsTest-Yields
                            (compose_io_latency_test yaml _ targets delay percent duration grace)
                            (io_latency-IsOrderly _ targets delay percent duration grace h))))))
  compose-IsTest-Yields fault_network_latency config targets targeting d h =
      Yields-bind IsTest (get_duration_value "grace_period" config) _
        (duration_value-IsOrderly "grace_period" config)
        (λ grace.
          Yields-bind IsTest (get_duration_value "delay" config) _
            (duration_value-IsOrderly "delay" config)
            (λ delay.
              Yields-bind IsTest (get_duration_value "jitter" config) _
                (duration_value-IsOrderly "jitter" config)
                (λ jitter.
                  Yields-bind IsTest (get_duration_value "duration" config) _
                    (duration_value-IsOrderly "duration" config)
                    (λ duration.
                      Yields-bind IsTest (get_uint_value "correlation" config) _
                        (uint_value-IsOrderly "correlation" config)
                        (λ correlation.
                          IsTest-Yields
                            (compose_network_latency_test yaml _ targets delay jitter duration grace
                              (pos correlation))
                            (network_latency-IsOrderly _ targets delay jitter duration grace
                              (pos correlation)))))))
  compose-IsTest-Yields fault_packet_loss config targets targeting d h =
      Yields-bind IsTest (get_duration_value "grace_period" config) _
        (duration_value-IsOrderly "grace_period" config)
        (λ grace.
          Yields-bind IsTest (get_duration_value "duration" config) _
            (duration_value-IsOrderly "duration" config)
            (λ duration.
              Yields-bind IsTest (get_uint_value "loss_percent" config) _
                (uint_value-IsOrderly "loss_percent" config)
                (λ loss.
                  Yields-bind IsTest (get_string_value "direction" config) _
                    (string_value-IsOrderly "direction" config)
                    (λ direction.
                      IsTest-Yields
                        (compose_packet_drop_test yaml _ targets (pos loss) direction duration
                          grace)
                        (packet_drop-IsOrderly _ targets (pos loss) direction duration grace)))))
  compose-IsTest-Yields (other_fault _) config targets targeting d h = absurd d

  -- The pointer is not nil, so that reading through it does not panic.
  dereferenced :
      (pointer : Option SuiteTest) (more : Outcome (List SuiteTest))
      → IsTest pointer
      → IsOrderly more
      → IsOrderly (do test ← or_crash pointer nil_pointer; tests ← more; ok (test ∷ tests))
  dereferenced none more t h = absurd t
  dereferenced (some test) more t h = IsOrderly-bind more _ h (λ _ _. tt)

  pub tests_for_configs-IsOrderly :
      (fault_type : FaultType) (targets : List ChaosTargetSelector) (targeting : String)
      (configs : List (Dict String))
      → IsDeclared fault_type
      → CanTarget fault_type targets
      → IsOrderly (tests_for_configs yaml fault_type targets targeting configs)
  unfolding tests_for_configs
  tests_for_configs-IsOrderly fault_type targets targeting [] d h = tt
  tests_for_configs-IsOrderly fault_type targets targeting (config ∷ rest) d h =
      let made = compose-IsTest-Yields fault_type config targets targeting d h in
      let others = tests_for_configs-IsOrderly fault_type targets targeting rest d h in
      IsOrderly-bind (compose_test_for_fault_type yaml fault_type config targets targeting) _
        (IsOrderly-Yields IsTest _ made)
        (λ pointer e.
          dereferenced pointer (tests_for_configs yaml fault_type targets targeting rest)
            (Yields_at IsTest _ pointer made e) others)
