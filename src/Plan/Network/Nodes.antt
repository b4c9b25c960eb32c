-- ===== src/Plan/Network/Nodes.antt =====
-- pkg/plan/network/types.go, clients.go, consensus.go and execution.go.
use attacknet.Base.{
  ℕ, zero, suc, ◌+◌, Bool, true, false, none, some, List, [], ◌∷◌, ◌++◌, get_elem?, if◌then◌else◌,
  String, Outcome, ok, or_fail, ◌>>=◌,
}
use attacknet.Base.Dict.{Dict, lookup}
use attacknet.Base.Text.{split, contains}
use attacknet.Golang.Float.{Float}

pub record TopologyConfig : Type 0 where
  pub bootnode_el : String
  pub bootnode_cl : String
  pub targets_as_percent_of_network : Float
  pub target_node_multiplier : ℕ

pub record ClientVersion : Type 0 where
  pub name : String
  pub image : String
  pub has_sidecar : Bool

pub record ExecutionClient : Type 0 where
  pub type : String
  pub image : String
  pub extra_labels : Dict String
  pub cpu_required : ℕ
  pub memory_required : ℕ

pub record ConsensusClient : Type 0 where
  pub type : String
  pub image : String
  pub has_validator_sidecar : Bool
  pub validator_image : String
  pub extra_labels : Dict String
  pub cpu_required : ℕ
  pub memory_required : ℕ
  pub sidecar_cpu_required : ℕ
  pub sidecar_memory_required : ℕ

pub record Node : Type 0 where
  pub index : ℕ
  pub execution : ExecutionClient
  pub consensus : ConsensusClient
  pub consensus_votes : ℕ

abbrev pub default_cl_cpu : ℕ
default_cl_cpu = 1000

abbrev pub default_val_cpu : ℕ
default_val_cpu = 500

abbrev pub default_cl_mem : ℕ
default_cl_mem = 1536

abbrev pub default_val_mem : ℕ
default_val_mem = 512

abbrev pub default_el_cpu : ℕ
default_el_cpu = 768

abbrev pub default_el_mem : ℕ
default_el_mem = 1024

unfoldable pub compose_execution_client : ClientVersion → ExecutionClient
compose_execution_client config = record {
  type = config.name;
  image = config.image;
  extra_labels = [];
  cpu_required = default_el_cpu;
  memory_required = default_el_mem;
}

-- images[i]; a text that holds a comma splits into two parts at least.
abbrev part_at : ℕ → List String → String
part_at i parts = elim (get_elem? parts i) [ some p ↦ p | none ↦ "" ]

unfoldable pub consensus_image : String → String
consensus_image image = if contains image "," then part_at 0 (split b',' image) else image

unfoldable pub validator_image : String → String
validator_image image = if contains image "," then part_at 1 (split b',' image) else ""

unfoldable pub compose_consensus_client : ClientVersion → ConsensusClient
unfolding consensus_image validator_image
compose_consensus_client config =
    if config.has_sidecar
    then record {
      type = config.name;
      image = consensus_image config.image;
      has_validator_sidecar = true;
      validator_image = validator_image config.image;
      extra_labels = [];
      cpu_required = default_cl_cpu;
      memory_required = default_cl_mem;
      sidecar_cpu_required = default_val_cpu;
      sidecar_memory_required = default_val_mem;
    }
    else record {
      type = config.name;
      image = consensus_image config.image;
      has_validator_sidecar = false;
      validator_image = validator_image config.image;
      extra_labels = [];
      cpu_required = default_cl_cpu;
      memory_required = default_cl_mem;
      sidecar_cpu_required = 0;
      sidecar_memory_required = 0;
    }

unfoldable pub build_node : ℕ → ClientVersion → ClientVersion → Node
unfolding compose_execution_client compose_consensus_client
build_node index exec_conf consensus_conf = record {
  index = index;
  execution = compose_execution_client exec_conf;
  consensus = compose_consensus_client consensus_conf;
  consensus_votes = 0;
}

unfoldable pub compose_bootnode :
    String → String → Dict ClientVersion → Dict ClientVersion → Outcome Node
compose_bootnode boot_el boot_cl exec_clients consensus_clients = do
  exec_conf ← or_fail (lookup boot_el exec_clients) "unable to load configuration for exec client"
  cons_conf ←
      or_fail (lookup boot_cl consensus_clients) "unable to load configuration for exec client"
  ok (build_node 1 exec_conf cons_conf)

-- The inner loop of the two functions below: `copies` nodes with successive indices.
unfoldable pub build_copies : ℕ → ℕ → ClientVersion → ClientVersion → List Node
build_copies zero index exec_conf consensus_conf = []
build_copies (suc copies) index exec_conf consensus_conf =
    build_node index exec_conf consensus_conf
    ∷ build_copies copies (suc index) exec_conf consensus_conf

unfoldable pub compose_nodes_for_cl_testing : ℕ → ℕ → ClientVersion → List ClientVersion → List Node
unfolding build_copies
compose_nodes_for_cl_testing multiplier index consensus_client [] = []
compose_nodes_for_cl_testing multiplier index consensus_client (exec_client ∷ rest) =
    build_copies multiplier index exec_client consensus_client
    ++ compose_nodes_for_cl_testing multiplier (index + multiplier) consensus_client rest

unfoldable pub compose_nodes_for_el_testing : ℕ → ℕ → ClientVersion → List ClientVersion → List Node
unfolding build_copies
compose_nodes_for_el_testing multiplier index exec_client [] = []
compose_nodes_for_el_testing multiplier index exec_client (consensus_client ∷ rest) =
    build_copies multiplier index exec_client consensus_client
    ++ compose_nodes_for_el_testing multiplier (index + multiplier) exec_client rest

-- The indices start from 2 because the bootnode has index 1.
unfoldable pub compose_consensus_tester_network :
    ℕ → String → List ClientVersion → Dict ClientVersion → Outcome (List Node)
compose_consensus_tester_network multiplier consensus_client exec_clients cons_client_map = do
  client_under_test ← or_fail (lookup consensus_client cons_client_map) "unknown consensus client"
  ok (compose_nodes_for_cl_testing multiplier 2 client_under_test exec_clients)

unfoldable pub compose_exec_tester_network :
    ℕ → String → List ClientVersion → Dict ClientVersion → Outcome (List Node)
compose_exec_tester_network multiplier exec_client cons_clients exec_client_map = do
  client_under_test ← or_fail (lookup exec_client exec_client_map) "unknown execution client"
  ok (compose_nodes_for_el_testing multiplier 2 client_under_test cons_clients)
