-- ===== src/Tests/Planning.antt =====
-- A plan against geth that is written and loaded, and the properties of the planner's files and of
-- projects at it.
use attacknet.Base.{
  ◌≡◌, ◌↔◌, refl, subst, true, false, not, ◌&&◌, ◌||◌, some, List, [], ◌∷◌, map, String, Outcome,
  ok,
}
use attacknet.Base.Dict.{lookup, insert, has_key}
use attacknet.Base.Text.{str_eq, split}
use attacknet.Golang.Decimal.{atoi}
use attacknet.Golang.Duration.{parse_duration}
use attacknet.Golang.Float
use attacknet.Golang.Float.{constant}
use attacknet.Golang.Path.{join}
use attacknet.Golang.Disk.{Disk, Os, to_stat, file, directory}
use attacknet.Golang.Disk.Kept.{Same}
use attacknet.Types.{AttacknetConfig, Config, SuiteTest}
use attacknet.Plan.Network.Nodes.{
  Node, build_node, compose_bootnode, compose_exec_tester_network, compose_nodes_for_el_testing,
}
use attacknet.Plan.Network.Extra.{
  calc_nodes_needed_to_satisfy_target, compose_nodes_to_satisfy_target_percent,
}
use attacknet.Plan.Network.Topology.{compose_network_topology}
use attacknet.Plan.Suite.Scenarios.{compose_io_latency_test}
use attacknet.Plan.Suite.Steps.{compose_io_latency_steps}
use attacknet.Plan.Suite.Tags.{convert_to_node_id_tag}
use attacknet.Plan.Suite.Faults.{build_io_latency_fault, volume_path_for_io_fault}
use attacknet.Plan.Suite.Targeting.{
  nodes_to_target, percent_of, share, build_chaos_mesh_target_selectors,
  build_node_filtering_lambda, target_spec_enum_to_lambda, create_target_selector_for_node,
  create_target_selector_for_exec_client,
}
use attacknet.Plan.Suite.Builder.{compose_test_suite, tests_for_configs}
use attacknet.Plan.PlannerConfig.{PlannerConfig, is_target_execution_client}
use attacknet.Plan.Serialization.{serialize_network_topology, deserialize_network_topology}
use attacknet.Plan.Serialization.Roundtrip.{restored}
use attacknet.Plan.Files.{paths_of}
use attacknet.Plan.Entry.{SuiteYaml, attacknet_config, suite_config, build_plan}
use attacknet.Plan.Entry.Written.{IsElsewhere, build_plan_elsewhere}
use attacknet.Project.Suites.{load_suite_config_from_name}
use attacknet.Project.Directories.{initialize_project}
use attacknet.Project.Initialized.{can_make, is_ok, initialize_project_lem}
use attacknet.Project.Planned.{parsed, build_plan-load_suite}
use attacknet.Tests.Nodes.{geth_lighthouse}
use attacknet.Tests.Network.{execs, conss, half, geth_nodes, genesis, toy_yaml as network_yaml}
use attacknet.Tests.Suite.{toy_yaml as fault_yaml, against_geth}

abbrev plan_config : PlannerConfig
plan_config = record {
  execution_clients = execs;
  consensus_clients = conss;
  topology = half;
  genesis_params = genesis;
  kurtosis_package = "github.com/kurtosis-tech/ethereum-package";
  kubernetes_namespace = "kt-geth";
  fault_config = against_geth;
}

abbrev system : Os
system = record { getwd = some "/home/eth"; refuses = λ call path. false }

-- The plan is there already, in an older version.
abbrev old_disk : Disk
old_disk =
    ("/home/eth/network-configs/plan/geth.yaml", file "old")
    ∷ ("/home/eth/readme", file "hello")
    ∷ []

joined_test :
    join ("/home/me" ∷ "network-configs" ∷ "plan/../a//./b.yaml" ∷ [])
    ≡ "/home/me/network-configs/a/b.yaml"
unfolding join
joined_test = refl

abbrev first_node : List Node → Node
first_node [] = geth_lighthouse
first_node (node ∷ nodes) = node

abbrev later_nodes : List Node → List Node
later_nodes [] = []
later_nodes (node ∷ nodes) = nodes

abbrev value_or_nil : Outcome (List SuiteTest) → List SuiteTest
value_or_nil (ok tests) = tests
value_or_nil _ = []

abbrev planned_tests : List SuiteTest
planned_tests =
    value_or_nil (compose_test_suite fault_yaml against_geth true (later_nodes geth_nodes))

abbrev planned_settings : AttacknetConfig
planned_settings = record {
  grafana_pod_name = "grafana";
  grafana_pod_port = "3000";
  allow_post_fault_inspection = false;
  wait_before_injection_seconds = 0;
  reuse_devnet_between_runs = true;
  existing_devnet_namespace = "kt-geth";
}

abbrev planned_suite : Config
planned_suite =
    suite_config (paths_of "/home/eth" "geth") plan_config planned_settings planned_tests

-- A library for yaml that knows one suite.
abbrev suite_yaml : SuiteYaml
suite_yaml = record { marshal = λ c. some "suite"; unmarshal = λ defaults text. some planned_suite }

settings_run : attacknet_config plan_config ≡ ok planned_settings
unfolding attacknet_config Float.to_int Float.sub Float.of_ℕ Float.div
settings_run = refl

abbrev built : Outcome (Unit {0}) × Disk
built = build_plan fault_yaml network_yaml suite_yaml system 10 "geth" plan_config old_disk

elsewhere : IsElsewhere system "geth" "/home/eth/readme"
unfolding join split
elsewhere dir e =
    let same : "/home/eth" ≡ dir = cc in
    subst
      (λ (d : String).
        (str_eq (paths_of d "geth").net_config_path "/home/eth/readme" ≡ false)
        × (str_eq (paths_of d "geth").plan_config_path "/home/eth/readme" ≡ false))
      same (refl, refl)

build_plan_elsewhere_example : Same "/home/eth/readme" old_disk (built.1)
build_plan_elsewhere_example =
    build_plan_elsewhere fault_yaml network_yaml suite_yaml system 10 "geth" "/home/eth/readme"
      plan_config old_disk elsewhere

network_run :
    compose_network_topology 10 half "geth" execs conss
    ≡ ok (first_node geth_nodes ∷ later_nodes geth_nodes)
unfolding compose_network_topology compose_bootnode compose_nodes_to_satisfy_target_percent has_key
    lookup insert compose_exec_tester_network compose_nodes_for_el_testing Float.eq constant
    Float.of_ℕ calc_nodes_needed_to_satisfy_target Float.sub Float.div Float.to_int
network_run = refl

tests_run :
    compose_test_suite fault_yaml against_geth
      (is_target_execution_client plan_config)
      (later_nodes geth_nodes)
    ≡ ok planned_tests
unfolding compose_test_suite target_spec_enum_to_lambda build_chaos_mesh_target_selectors
    build_node_filtering_lambda build_node nodes_to_target percent_of share Float.lt Float.le
    tests_for_configs parse_duration atoi compose_io_latency_test compose_io_latency_steps
    create_target_selector_for_node create_target_selector_for_exec_client build_io_latency_fault
    volume_path_for_io_fault split convert_to_node_id_tag compose_network_topology compose_bootnode
    compose_nodes_to_satisfy_target_percent has_key lookup insert compose_exec_tester_network
    compose_nodes_for_el_testing Float.eq constant Float.of_ℕ calc_nodes_needed_to_satisfy_target
    Float.sub Float.div Float.to_int is_target_execution_client attacknet_config build_plan
    serialize_network_topology join
tests_run = refl

built_run : built ≡ (ok tt, built.1)
unfolding compose_test_suite target_spec_enum_to_lambda build_chaos_mesh_target_selectors
    build_node_filtering_lambda build_node nodes_to_target percent_of share Float.lt Float.le
    tests_for_configs parse_duration atoi compose_io_latency_test compose_io_latency_steps
    create_target_selector_for_node create_target_selector_for_exec_client build_io_latency_fault
    volume_path_for_io_fault split convert_to_node_id_tag compose_network_topology compose_bootnode
    compose_nodes_to_satisfy_target_percent has_key lookup insert compose_exec_tester_network
    compose_nodes_for_el_testing Float.eq constant Float.of_ℕ calc_nodes_needed_to_satisfy_target
    Float.sub Float.div Float.to_int is_target_execution_client attacknet_config build_plan
    serialize_network_topology join
built_run = refl

apart :
    str_eq
      (paths_of "/home/eth" "geth").plan_config_path
      (paths_of "/home/eth" "geth").net_config_path
    ≡ false
unfolding join split
apart = refl

build_plan-load_suite_example :
    (text : String) × (load_suite_config_from_name system suite_yaml (built.1) "plan/geth"
      ≡ ok (parsed planned_suite text))
    × (deserialize_network_topology network_yaml text
        ≡ ok (map (restored 32) (first_node geth_nodes ∷ later_nodes geth_nodes)))
unfolding compose_network_topology compose_bootnode compose_nodes_to_satisfy_target_percent has_key
    lookup insert compose_exec_tester_network compose_nodes_for_el_testing Float.eq constant
    Float.of_ℕ calc_nodes_needed_to_satisfy_target Float.sub Float.div Float.to_int
build_plan-load_suite_example =
    build_plan-load_suite fault_yaml network_yaml suite_yaml system 10 "/home/eth" "geth"
      plan_config old_disk (built.1) (first_node geth_nodes) (later_nodes geth_nodes) planned_tests
      planned_settings refl apart refl refl network_run tests_run settings_run (λ text e. refl)
      (λ text e. refl) built_run

abbrev occupied : Disk
occupied = ("/home/eth/test-suites", directory) ∷ []

initialize_project_lem_example :
    (is_ok ((initialize_project system "/home/eth" true occupied).0) ≡ (
      (can_make system "/home/eth/test-suites" occupied
        && can_make system "/home/eth/network-configs" occupied)
      && (true
          || not (
              system.refuses to_stat "/home/eth/test-suites"
              || system.refuses to_stat "/home/eth/network-configs"))))
    × ((initialize_project system "/home/eth" true occupied ≡ (
      ok tt,
      insert "/home/eth/network-configs" directory
          (insert "/home/eth/test-suites" directory occupied),
    ))
        ↔ (((can_make system "/home/eth/test-suites" occupied
                && can_make system "/home/eth/network-configs" occupied)
              && (true
                  || not (
                      system.refuses to_stat "/home/eth/test-suites"
                      || system.refuses to_stat "/home/eth/network-configs")))
            ≡ true))
unfolding join split
initialize_project_lem_example =
    initialize_project_lem system "/home/eth" "/home/eth/test-suites" "/home/eth/network-configs"
      true occupied refl refl refl
