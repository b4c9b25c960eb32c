-- ===== src/Tests/Network.antt =====
-- A network for tests of geth, and the properties of the planner's networks and configurations.
use attacknet.Base.{
  ◌≡◌, ◌↔◌, refl, inl, List, [], ◌∷◌, map, length, take, some, none, Outcome, ok, crash,
  out_of_fuel, arith,
}
use attacknet.Base.Dict.{lookup, insert, has_key}
use attacknet.Base.Int.{pos}
use attacknet.Golang.Float
use attacknet.Golang.Float.{float32, constant}
use attacknet.Plan.Network.Nodes.{
  Node, ClientVersion, TopologyConfig, compose_bootnode, compose_exec_tester_network,
  compose_nodes_for_el_testing,
}
use attacknet.Plan.Network.Extra.{
  pick_extra_node_clients, calc_nodes_needed_to_satisfy_target,
  compose_nodes_to_satisfy_target_percent,
}
use attacknet.Plan.Network.Extra.Pairs.{pairs, numbered, copies}
use attacknet.Plan.Network.Extra.Rounds.{pick_total, pick_diverges}
use attacknet.Plan.Network.Topology.{compose_network_topology}
use attacknet.Plan.Suite.Kinds.{fault_clock_skew, target_matching_client, attack_one}
use attacknet.Plan.PlannerConfig.{
  GenesisConfig, PlannerConfig, validate_planner_fault_configuration,
}
use attacknet.Plan.PlannerConfig.Validation.{IsValid, validate_iff}
use attacknet.Plan.Serialization.{
  NetworkYaml, eth_kurtosis_config, serialize_network_topology, deserialize_network_topology,
}
use attacknet.Plan.Serialization.Roundtrip.{restored}
use attacknet.Plan.Serialization.Planned.{planned_roundtrip}
use attacknet.Tests.Nodes.{geth, reth, lighthouse, prysm}

abbrev pub execs : List ClientVersion
execs = geth ∷ reth ∷ []

abbrev pub conss : List ClientVersion
conss = lighthouse ∷ prysm ∷ []

-- The targets are to be half of the network.
abbrev pub half : TopologyConfig
half = record {
  bootnode_el = "geth";
  bootnode_cl = "lighthouse";
  targets_as_percent_of_network = constant float32 50 100;
  target_node_multiplier = 1;
}

pick_total_example :
    (pick_extra_node_clients 3 6 (pos 3) "geth" execs conss
      ≡ ok (numbered 6 (take 3 (copies 3 (pairs "geth" execs conss)))))
    × (length (numbered 6 (take 3 (copies 3 (pairs "geth" execs conss)))) ≡ 3)
pick_total_example = pick_total 3 6 3 "geth" execs conss (omega arith) (omega arith) refl

-- Four targets as 0.8 of the network: the bootnode is the fifth node, and none is to be added.
nothing_to_add : calc_nodes_needed_to_satisfy_target (constant float32 80 100) 4 ≡ ok (pos 0)
unfolding calc_nodes_needed_to_satisfy_target constant Float.lt Float.le Float.of_ℕ Float.sub
    Float.div Float.to_int
nothing_to_add = refl

pick_diverges_example :
    pick_extra_node_clients 1000 6 (pos 0) "geth" execs conss ≡ crash out_of_fuel
pick_diverges_example = pick_diverges 1000 6 (pos 0) "geth" execs conss (inl refl)

abbrev value_or_nil : Outcome (List Node) → List Node
value_or_nil (ok nodes) = nodes
value_or_nil _ = []

abbrev pub geth_nodes : List Node
geth_nodes = value_or_nil (compose_network_topology 10 half "geth" execs conss)

-- The bootnode, two targets and one more node.
geth_network :
    (compose_network_topology 10 half "geth" execs conss ≡ ok geth_nodes) × (length geth_nodes ≡ 4)
unfolding compose_network_topology compose_bootnode compose_nodes_to_satisfy_target_percent has_key
    lookup insert compose_exec_tester_network compose_nodes_for_el_testing Float.eq constant
    Float.of_ℕ calc_nodes_needed_to_satisfy_target Float.sub Float.div Float.to_int
geth_network = (refl, refl)

abbrev pub genesis : GenesisConfig
genesis = record {
  preregistered_validator_keys_mnemonic = none;
  preregistered_validator_count = none;
  network_id = none;
  deposit_contract_address = none;
  seconds_per_slot = none;
  genesis_delay = none;
  max_churn = none;
  ejection_balance = none;
  eth1_follow_distance = none;
  capella_fork_epoch = none;
  deneb_fork_epoch = none;
  electra_fork_epoch = none;
  num_val_keys_per_node = 32;
}

-- A library for yaml that knows one configuration.
abbrev pub toy_yaml : NetworkYaml
toy_yaml = record {
  marshal = λ c. some "network";
  unmarshal = λ text. some (eth_kurtosis_config geth_nodes genesis);
}

planned_roundtrip_example :
    deserialize_network_topology toy_yaml "network" ≡ ok (map (restored 32) geth_nodes)
unfolding serialize_network_topology
planned_roundtrip_example =
    planned_roundtrip toy_yaml 10 half "geth" execs conss geth_nodes genesis "network" (λ _. refl)
      (geth_network.0) refl

abbrev skew_config : PlannerConfig
skew_config = record {
  execution_clients = execs;
  consensus_clients = conss;
  topology = half;
  genesis_params = genesis;
  kurtosis_package = "github.com/kurtosis-tech/ethereum-package";
  kubernetes_namespace = "kt-geth";
  fault_config = record {
    fault_type = fault_clock_skew;
    target_client = "prysm";
    wait_before_first_test = pos 0;
    fault_config_dimensions = [];
    targeting_dimensions = target_matching_client ∷ [];
    attack_size_dimensions = attack_one ∷ [];
  };
}

validate_iff_example :
    (validate_planner_fault_configuration skew_config ≡ ok tt) ↔ IsValid skew_config
validate_iff_example = validate_iff skew_config
