-- ===== src/Tests/Suite.antt =====
-- A suite of two attack sizes against geth, and the properties of the suite at it.
use attacknet.Base.{
  true, List, [], ◌∷◌, some, String, Outcome, ok, IsOrderly, length, arith, ◌≡◌, refl,
}
use attacknet.Base.Dict.{Dict, lookup}
use attacknet.Base.Text.{split}
use attacknet.Golang.Decimal.{atoi}
use attacknet.Plan.Suite.Scenarios.{compose_io_latency_test}
use attacknet.Plan.Suite.Steps.{compose_io_latency_steps}
use attacknet.Plan.Suite.Tags.{convert_to_node_id_tag}
use attacknet.Golang.Float
use attacknet.Golang.Duration.{parse_duration}
use attacknet.Types.{SuiteTest, end}
use attacknet.Base.Int.{pos}
use attacknet.Plan.Network.Nodes.{Node, build_node}
use attacknet.Plan.Suite.Kinds.{
  PlannerFaultConfiguration, target_matching_node, target_matching_client, attack_one, attack_all,
  attack_supermajority, fault_io_latency,
}
use attacknet.Plan.Suite.Faults.{Yaml, build_io_latency_fault, volume_path_for_io_fault}
use attacknet.Plan.Suite.Targeting.{
  nodes_to_target, percent_of, share, build_chaos_mesh_target_selectors,
  build_node_filtering_lambda, target_spec_enum_to_lambda, create_target_selector_for_node,
  create_target_selector_for_exec_client,
}
use attacknet.Plan.Suite.Builder.{compose_test_suite, tests_for_configs}
use attacknet.Plan.Suite.Builder.Returns.{compose_test_suite-IsOrderly}
use attacknet.Tests.Nodes.{geth_lighthouse, geth_prysm, reth_teku}

-- A library for yaml that accepts everything and keeps nothing.
abbrev pub toy_yaml : Yaml
toy_yaml = record { marshal = λ s. some ""; unmarshal = λ text. some end }

abbrev io_settings : Dict String
io_settings =
    ("grace_period", "1800s") ∷ ("delay", "1s") ∷ ("duration", "1m") ∷ ("percent", "50") ∷ []

abbrev pub against_geth : PlannerFaultConfiguration
against_geth = record {
  fault_type = fault_io_latency;
  target_client = "geth";
  wait_before_first_test = pos 0;
  fault_config_dimensions = io_settings ∷ [];
  targeting_dimensions = target_matching_node ∷ target_matching_client ∷ [];
  attack_size_dimensions = attack_one ∷ attack_all ∷ attack_supermajority ∷ [];
}

abbrev three_nodes : List Node
three_nodes = geth_lighthouse ∷ geth_prysm ∷ reth_teku ∷ []

abbrev value_or_nil : Outcome (List SuiteTest) → List SuiteTest
value_or_nil (ok tests) = tests
value_or_nil _ = []

abbrev geth_tests : List SuiteTest
geth_tests = value_or_nil (compose_test_suite toy_yaml against_geth true three_nodes)

-- One test for each number of targets: the supermajority of four nodes is out of reach.
test_count : length geth_tests ≡ 4
unfolding compose_test_suite target_spec_enum_to_lambda build_chaos_mesh_target_selectors
    build_node_filtering_lambda build_node nodes_to_target percent_of share Float.lt Float.le
    tests_for_configs lookup parse_duration atoi compose_io_latency_test compose_io_latency_steps
    create_target_selector_for_node create_target_selector_for_exec_client build_io_latency_fault
    volume_path_for_io_fault split convert_to_node_id_tag
test_count = refl

compose_test_suite-IsOrderly_example :
    IsOrderly (compose_test_suite toy_yaml against_geth true three_nodes)
compose_test_suite-IsOrderly_example =
    compose_test_suite-IsOrderly toy_yaml against_geth true three_nodes tt (omega arith) tt
