-- ===== src/Plan/Suite/Builder.antt =====
-- pkg/plan/suite/suite_builder.go: the test suite for a fault configuration and a network. The
-- runtime estimate, which is only logged, is left out.
pub mod Injections
pub mod Shape
pub mod Batches
pub mod Safety
pub mod Orderly
pub mod Selected
pub mod Returns
use attacknet.Base.{
  ℕ, ◌+◌, ◌==◌, Bool, Option, none, some, List, [], ◌∷◌, ◌++◌, any, length, if◌then◌else◌, String,
  Outcome, ok, err, crash, failure, cannot_meet, or_fail, or_crash, nil_pointer, ◌>>=◌,
}
use attacknet.Base.Int.{pos}
use attacknet.Base.Dict.{Dict, lookup}
use attacknet.Base.Text.{◌++◌ as append}
use attacknet.Golang.Decimal.{itoa, itoa_ℤ, parse_uint32, atoi}
use attacknet.Golang.Duration.{Duration, parse_duration, duration_text}
use attacknet.Types.{SuiteTest}
use attacknet.Plan.Network.Nodes.{Node}
use attacknet.Plan.Suite.Kinds.{
  TargetingSpec, target_matching_node, AttackSize, attack_size_text, FaultType, fault_clock_skew,
  fault_container_restart, fault_io_latency, fault_network_latency, fault_packet_loss, other_fault,
  PlannerFaultConfiguration,
}
use attacknet.Plan.Suite.Faults.{Yaml}
use attacknet.Plan.Suite.Targeting.{
  ChaosTargetSelector, TargetCriteriaFilter, NodeImpactSelector, build_node_filtering_lambda,
  target_spec_enum_to_lambda, build_chaos_mesh_target_selectors,
}
use attacknet.Plan.Suite.Scenarios.{
  compose_node_clock_skew_test, compose_node_restart_test, compose_io_latency_test,
  compose_network_latency_test, compose_packet_drop_test,
}

unfoldable pub get_duration_value : String → Dict String → Outcome Duration
get_duration_value key m = do
  value_str ← or_fail (lookup key m) "missing field"
  or_fail (parse_duration value_str) "unable to convert field to a time duration"

unfoldable pub get_uint_value : String → Dict String → Outcome ℕ
get_uint_value key m = do
  value_str ← or_fail (lookup key m) "missing field"
  or_fail (parse_uint32 value_str) "unable to convert field to a uint32"

unfoldable pub get_string_value : String → Dict String → Outcome String
get_string_value key m = or_fail (lookup key m) "missing field"

abbrev concat : List String → String
concat [] = ""
concat (s ∷ rest) = append s (concat rest)

-- " against <n> targets. <targeting>"
abbrev against : List ChaosTargetSelector → String → String
against targets targeting =
    append " against " (append (itoa (length targets)) (append " targets. " targeting))

unfoldable pub targeting_description : TargetingSpec → String → AttackSize → String
targeting_description target_matching_node client size = concat (
    "Impacting the full node of targeted "
    ∷ client
    ∷ " clients. Injecting into "
    ∷ attack_size_text size
    ∷ " of the matching targets."
    ∷ [])
targeting_description _ client size = concat (
    "Impacting the client of targeted "
    ∷ client
    ∷ " clients. Injecting into "
    ∷ attack_size_text size
    ∷ " of the matching targets."
    ∷ [])

module _ (yaml : Yaml) where
  -- `none` is the pointer nil, returned without an error.
  unfoldable pub compose_test_for_fault_type :
      FaultType → Dict String → List ChaosTargetSelector → String → Outcome (Option SuiteTest)
  unfolding get_duration_value get_uint_value get_string_value
  compose_test_for_fault_type fault_clock_skew config targets targeting = do
    skew ← or_fail (lookup "skew" config) "missing skew field for clock skew fault"
    duration ← or_fail (lookup "duration" config) "missing duration field for clock skew fault"
    grace ← get_duration_value "grace_period" config
    let description =
        concat ("Apply " ∷ skew ∷ " clock skew for " ∷ duration ∷ against targets targeting ∷ [])
    test ← compose_node_clock_skew_test yaml description targets skew duration grace
    ok (some test)
  compose_test_for_fault_type fault_container_restart config targets targeting = do
    grace ← get_duration_value "grace_period" config
    let description = concat ("Restarting " ∷ itoa (length targets) ∷ " targets. " ∷ targeting ∷ [])
    test ← compose_node_restart_test yaml description targets grace
    ok (some test)
  compose_test_for_fault_type fault_io_latency config targets targeting = do
    grace ← get_duration_value "grace_period" config
    delay ← get_duration_value "delay" config
    duration ← get_duration_value "duration" config
    percent_text ← or_fail (lookup "percent" config) "missing percent field in io latency fault"
    percent ← or_fail (atoi percent_text) "unable to parse io latency fault percent field"
    let description = concat (
        "Apply "
        ∷ duration_text delay
        ∷ " i/o latency for "
        ∷ duration_text duration
        ∷ ". Impacting "
        ∷ itoa_ℤ percent
        ∷ " pct of i/o calls."
        ∷ against targets targeting
        ∷ [])
    test ← compose_io_latency_test yaml description targets delay percent duration grace
    ok (some test)
  compose_test_for_fault_type fault_network_latency config targets targeting = do
    grace ← get_duration_value "grace_period" config
    delay ← get_duration_value "delay" config
    jitter ← get_duration_value "jitter" config
    duration ← get_duration_value "duration" config
    correlation ← get_uint_value "correlation" config
    let description = concat (
        "Apply "
        ∷ duration_text delay
        ∷ " network latency for "
        ∷ duration_text duration
        ∷ ". Jitter: "
        ∷ duration_text jitter
        ∷ ", correlation: "
        ∷ itoa correlation
        ∷ against targets targeting
        ∷ [])
    test ←
        compose_network_latency_test yaml description targets delay jitter duration grace
          (pos correlation)
    ok (some test)
  compose_test_for_fault_type fault_packet_loss config targets targeting = do
    grace ← get_duration_value "grace_period" config
    duration ← get_duration_value "duration" config
    loss_percent ← get_uint_value "loss_percent" config
    direction ← get_string_value "direction" config
    let description = concat (
        "Apply "
        ∷ itoa loss_percent
        ∷ " packet drop for "
        ∷ duration_text duration
        ∷ ", direction: "
        ∷ direction
        ∷ against targets targeting
        ∷ [])
    test ←
        compose_packet_drop_test yaml description targets (pos loss_percent) direction duration
          grace
    ok (some test)
  compose_test_for_fault_type (other_fault _) config targets targeting = ok none

  -- The loop over the fault configurations; `*test` of a nil pointer panics.
  unfoldable pub tests_for_configs :
      FaultType → List ChaosTargetSelector → String → List (Dict String) → Outcome (List SuiteTest)
  unfolding compose_test_for_fault_type
  tests_for_configs fault_type targets targeting [] = ok []
  tests_for_configs fault_type targets targeting (fault_config ∷ rest) = do
    pointer ← compose_test_for_fault_type fault_type fault_config targets targeting
    test ← or_crash pointer nil_pointer
    tests ← tests_for_configs fault_type targets targeting rest
    ok (test ∷ tests)

  -- The loop over the attack sizes: `tested` holds the node counts that were tested already, and an
  -- attack size that cannot be met is skipped.
  unfoldable pub tests_for_sizes :
      PlannerFaultConfiguration
      → List Node
      → TargetCriteriaFilter
      → TargetingSpec
      → NodeImpactSelector
      → List ℕ
      → List AttackSize
      → Outcome (List SuiteTest)
  tests_for_sizes config nodes node_filter dimension target_filter tested [] = ok []
  tests_for_sizes config nodes node_filter dimension target_filter tested (size ∷ rest) =
      let skip = tests_for_sizes config nodes node_filter dimension target_filter tested rest in
      let more = λ (n : ℕ).
        tests_for_sizes config nodes node_filter dimension target_filter (n ∷ tested) rest in
      elim (build_chaos_mesh_target_selectors (length nodes + 1) nodes size node_filter
        target_filter) [
          | err (failure message) ↦ err (failure message)
          | err (cannot_meet _ _) ↦ skip
          | crash c ↦ crash c
          | ok targets ↦ if any (λ n. n == length targets) tested then skip else (do
            tests ←
                tests_for_configs config.fault_type targets
                  (targeting_description dimension config.target_client size)
                  config.fault_config_dimensions
            others ← more (length targets)
            ok (tests ++ others))
        ]

  -- The loop over the targeting dimensions.
  unfoldable pub tests_for_dimensions :
      PlannerFaultConfiguration → Bool → List Node → List TargetingSpec → Outcome (List SuiteTest)
  unfolding tests_for_sizes
  tests_for_dimensions config is_exec_client nodes [] = ok []
  tests_for_dimensions config is_exec_client nodes (dimension ∷ rest) = do
    target_filter ← target_spec_enum_to_lambda dimension is_exec_client
    tests ←
        tests_for_sizes config nodes
          (build_node_filtering_lambda config.target_client is_exec_client) dimension target_filter
          [] config.attack_size_dimensions
    others ← tests_for_dimensions config is_exec_client nodes rest
    ok (tests ++ others)

  unfoldable pub compose_test_suite :
      PlannerFaultConfiguration → Bool → List Node → Outcome (List SuiteTest)
  unfolding tests_for_dimensions
  compose_test_suite config is_exec_client nodes =
      tests_for_dimensions config is_exec_client nodes config.targeting_dimensions
