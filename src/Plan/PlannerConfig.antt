-- ===== src/Plan/PlannerConfig.antt =====
-- pkg/plan/types.go and config.go: the planner's configuration and its validation.
pub mod Validation
use attacknet.Base.{
  ℕ, Bool, ◌||◌, Option, List, [], ◌∷◌, any, String, Outcome, ok, or_fail, require, ◌>>=◌, ◌>>◌,
}
use attacknet.Base.Int.{ℤ}
use attacknet.Base.Text.{str_eq}
use attacknet.Plan.Network.Nodes.{TopologyConfig, ClientVersion}
use attacknet.Plan.Suite.Kinds.{
  PlannerFaultConfiguration, fault_types, targeting_specs, attack_sizes,
}

-- GenesisConfig of pkg/plan/network/types.go
pub record GenesisConfig : Type 0 where
  pub preregistered_validator_keys_mnemonic : Option String
  pub preregistered_validator_count : Option ℤ
  pub network_id : Option ℤ
  pub deposit_contract_address : Option String
  pub seconds_per_slot : Option ℤ
  pub genesis_delay : Option ℤ
  pub max_churn : Option ℕ
  pub ejection_balance : Option ℕ
  pub eth1_follow_distance : Option ℤ
  pub capella_fork_epoch : Option ℤ
  pub deneb_fork_epoch : Option ℤ
  pub electra_fork_epoch : Option ℤ
  pub num_val_keys_per_node : ℕ

pub record PlannerConfig : Type 0 where
  pub execution_clients : List ClientVersion
  pub consensus_clients : List ClientVersion
  pub topology : TopologyConfig
  pub genesis_params : GenesisConfig
  pub kurtosis_package : String
  pub kubernetes_namespace : String
  pub fault_config : PlannerFaultConfiguration

unfoldable pub is_target_execution_client : PlannerConfig → Bool
is_target_execution_client c =
    any (λ client. str_eq client.name c.fault_config.target_client) c.execution_clients

unfoldable pub is_target_consensus_client : PlannerConfig → Bool
is_target_consensus_client c =
    any (λ client. str_eq client.name c.fault_config.target_client) c.consensus_clients

-- A loop that stops at the first element that is not supported.
unfoldable pub all_supported {ℓ} : {A : Type ℓ} → (A → Bool) → String → List A → Outcome (Unit {0})
all_supported supported message [] = ok tt
all_supported supported message (x ∷ rest) = do
  require (supported x) message
  all_supported supported message rest

unfoldable pub validate_planner_fault_configuration : PlannerConfig → Outcome (Unit {0})
unfolding all_supported is_target_execution_client is_target_consensus_client
validate_planner_fault_configuration c = do
  require (fault_types c.fault_config.fault_type) "the fault type is not supported"
  all_supported targeting_specs "the fault targeting dimension is not supported"
      c.fault_config.targeting_dimensions
  all_supported attack_sizes "the attack size dimension is not supported"
      c.fault_config.attack_size_dimensions
  require
      (str_eq c.fault_config.target_client "all"
        || is_target_execution_client c
        || is_target_consensus_client c)
      "target_client is not defined in the execution/consensus client configuration"

-- `read_file` and `unmarshal` are os.ReadFile and yaml.Unmarshal; `none` is an error.
module _ (read_file : String → Option String) (unmarshal : String → Option PlannerConfig) where
  unfoldable pub load_planner_config_from_path : String → Outcome PlannerConfig
  load_planner_config_from_path path = do
    bs ← or_fail (read_file path) "could not planner config on path"
    config ← or_fail (unmarshal bs) "unable to unmarshal planner config"
    validate_planner_fault_configuration config
    ok config
