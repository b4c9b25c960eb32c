-- ===== src/Plan/Entry.antt =====
-- BuildPlan of pkg/plan/plan.go.
pub mod Written
use attacknet.Base.{
  ℕ, Bool, true, false, Option, none, some, List, [], ◌∷◌, String, Outcome, ok, crash, or_fail,
  and_then, index_out_of_range, ◌>>=◌,
}
use attacknet.Types.{AttacknetConfig, Config, SuiteTest}
use attacknet.Golang.Seconds.{uint32_seconds}
use attacknet.Golang.Disk.{Disk, Os}
use attacknet.Plan.Network.Nodes.{Node}
use attacknet.Plan.Network.Topology.{compose_network_topology}
use attacknet.Plan.Suite.Faults.{Yaml}
use attacknet.Plan.Suite.Builder.{compose_test_suite}
use attacknet.Plan.PlannerConfig.{PlannerConfig, is_target_execution_client}
use attacknet.Plan.Serialization.{NetworkYaml, serialize_network_topology}
use attacknet.Plan.Files.{Paths, prepare_paths, write_plans}

-- nodes[1:]
abbrev pub without_bootnode : List Node → Outcome (List Node)
without_bootnode [] = crash index_out_of_range
without_bootnode (bootnode ∷ nodes) = ok nodes

-- Both branches on the namespace make the same struct, with the namespace, which may be empty.
unfoldable pub attacknet_config : PlannerConfig → Outcome AttacknetConfig
unfolding uint32_seconds
attacknet_config config = do
  wait ← uint32_seconds config.fault_config.wait_before_first_test
  ok (record {
    grafana_pod_name = "grafana";
    grafana_pod_port = "3000";
    allow_post_fault_inspection = false;
    wait_before_injection_seconds = wait;
    reuse_devnet_between_runs = true;
    existing_devnet_namespace = config.kubernetes_namespace;
  })

abbrev pub suite_config : Paths → PlannerConfig → AttacknetConfig → List SuiteTest → Config
suite_config paths config attacknet tests = record {
  attacknet_config = attacknet;
  harness_config = record {
    network_type = "ethereum";
    network_package = config.kurtosis_package;
    network_config_path = paths.net_ref_path;
  };
  tests = tests;
}

-- yaml.Marshal of the suite's configuration, and yaml.Unmarshal into a configuration with defaults;
-- `none` is an error.
pub record SuiteYaml : Type 0 where
  pub marshal : Config → Option String
  pub unmarshal : Config → String → Option Config

-- What BuildPlan composes: the network's and the suite's configuration, as text.
pub record Plans : Type 0 where
  pub network_text : String
  pub suite_text : String

module _ (faults : Yaml) (networks : NetworkYaml) (suites : SuiteYaml) where
  -- `fuel` bounds the rounds of pickExtraNodeClients.
  unfoldable pub compose_plans : ℕ → Paths → PlannerConfig → Outcome Plans
  unfolding compose_network_topology compose_test_suite is_target_execution_client attacknet_config
      serialize_network_topology
  compose_plans fuel paths config = do
    nodes ←
        compose_network_topology fuel config.topology config.fault_config.target_client
          config.execution_clients config.consensus_clients
    under_test ← without_bootnode nodes
    tests ←
        compose_test_suite faults config.fault_config (is_target_execution_client config) under_test
    attacknet ← attacknet_config config
    suite_text ← or_fail (suites.marshal (suite_config paths config attacknet tests)) "yaml.Marshal"
    network_text ← serialize_network_topology networks nodes config.genesis_params
    ok (record { network_text = network_text; suite_text = suite_text })

  unfoldable pub build_plan : Os → ℕ → String → PlannerConfig → Disk → Outcome (Unit {0}) × Disk
  unfolding prepare_paths compose_plans write_plans
  build_plan os fuel plan_name config disk = and_then (prepare_paths os plan_name disk) (λ paths d.
      and_then (compose_plans fuel paths config, d)
        (λ plans d'.
          write_plans os paths.net_config_path paths.plan_config_path plans.network_text
            plans.suite_text d'))
