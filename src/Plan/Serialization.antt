-- ===== src/Plan/Serialization.antt =====
-- pkg/plan/serialization.go and the types that it writes, of pkg/plan/types.go.
pub mod Roundtrip
pub mod Planned
use attacknet.Base.{
  ℕ, ◌+◌, Bool, true, false, not, Option, List, [], ◌∷◌, map, ◌==◌, if◌then◌else◌, String, Outcome,
  ok, or_fail, ◌>>=◌,
}
use attacknet.Plan.Network.Nodes.{Node, consensus_image, validator_image}
use attacknet.Plan.PlannerConfig.{GenesisConfig}

pub record Participant : Type 0 where
  pub el_client_type : String
  pub el_client_image : String
  pub cl_client_type : String
  pub cl_client_image : String
  pub el_min_cpu : ℕ
  pub el_max_cpu : ℕ
  pub el_min_memory : ℕ
  pub el_max_memory : ℕ
  pub cl_min_cpu : ℕ
  pub cl_max_cpu : ℕ
  pub cl_min_memory : ℕ
  pub cl_max_memory : ℕ
  pub val_min_cpu : ℕ
  pub val_max_cpu : ℕ
  pub val_min_memory : ℕ
  pub val_max_memory : ℕ
  pub count : ℕ

pub record EthKurtosisConfig : Type 0 where
  pub participants : List Participant
  pub net_params : GenesisConfig
  pub additional_services : List String
  pub parallel_keystore_gen : Bool
  pub persistent : Bool
  pub disable_peer_scoring : Bool

unfoldable pub participant_of : Node → Participant
participant_of node = record {
  el_client_type = node.execution.type;
  el_client_image = node.execution.image;
  cl_client_type = node.consensus.type;
  cl_client_image = node.consensus.image;
  el_min_cpu = node.execution.cpu_required;
  el_max_cpu = node.execution.cpu_required;
  el_min_memory = node.execution.memory_required;
  el_max_memory = node.execution.memory_required;
  cl_min_cpu = node.consensus.cpu_required;
  cl_max_cpu = node.consensus.cpu_required;
  cl_min_memory = node.consensus.memory_required;
  cl_max_memory = node.consensus.memory_required;
  val_min_cpu = node.consensus.sidecar_cpu_required;
  val_max_cpu = node.consensus.sidecar_cpu_required;
  val_min_memory = node.consensus.sidecar_memory_required;
  val_max_memory = node.consensus.sidecar_memory_required;
  count = 1;
}

unfoldable pub serialize_nodes : List Node → List Participant
unfolding participant_of
serialize_nodes nodes = map participant_of nodes

-- The node of the participant with the given index: a sidecar is told by its processor limit, and
-- only then is an image that holds a comma split in two.
unfoldable pub node_of : ℕ → ℕ → Participant → Node
unfolding consensus_image validator_image
node_of votes index p =
    let has_sidecar = not (p.val_max_cpu == 0) in
    record {
      index = index;
      execution = record {
        type = p.el_client_type;
        image = p.el_client_image;
        extra_labels = [];
        cpu_required = p.el_min_cpu;
        memory_required = p.el_min_memory;
      };
      consensus = record {
        type = p.cl_client_type;
        image = if has_sidecar then consensus_image p.cl_client_image else p.cl_client_image;
        has_validator_sidecar = has_sidecar;
        validator_image = if has_sidecar then validator_image p.cl_client_image else "";
        extra_labels = [];
        cpu_required = p.cl_min_cpu;
        memory_required = p.cl_min_memory;
        sidecar_cpu_required = p.val_min_cpu;
        sidecar_memory_required = p.val_min_memory;
      };
      consensus_votes = votes;
    }

-- The loop over the participants, which numbers them in order.
unfoldable pub nodes_of : ℕ → ℕ → List Participant → List Node
unfolding node_of
nodes_of votes index [] = []
nodes_of votes index (p ∷ rest) = node_of votes index p ∷ nodes_of votes (index + 1) rest

unfoldable pub eth_kurtosis_config : List Node → GenesisConfig → EthKurtosisConfig
unfolding serialize_nodes
eth_kurtosis_config nodes config = record {
  participants = serialize_nodes nodes;
  net_params = config;
  additional_services = "prometheus_grafana" ∷ "dora" ∷ [];
  parallel_keystore_gen = false;
  persistent = false;
  disable_peer_scoring = true;
}

-- yaml.Marshal and yaml.Unmarshal of the network's configuration; `none` is an error.
pub record NetworkYaml : Type 0 where
  pub marshal : EthKurtosisConfig → Option String
  pub unmarshal : String → Option EthKurtosisConfig

module _ (yaml : NetworkYaml) where
  unfoldable pub serialize_network_topology : List Node → GenesisConfig → Outcome String
  unfolding eth_kurtosis_config
  serialize_network_topology nodes config =
      or_fail (yaml.marshal (eth_kurtosis_config nodes config))
        "intermediate yaml marshalling failed"

  unfoldable pub deserialize_network_topology : String → Outcome (List Node)
  unfolding nodes_of
  deserialize_network_topology conf = do
    parsed ← or_fail (yaml.unmarshal conf) "unable to parse eth network types"
    ok (nodes_of parsed.net_params.num_val_keys_per_node 1 parsed.participants)
