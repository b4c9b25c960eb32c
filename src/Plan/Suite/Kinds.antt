-- ===== src/Plan/Suite/Kinds.antt =====
-- pkg/plan/suite/types.go. The kinds are texts in the source; the constructors stand for the
-- declared constants, and the last one of each for a text that is none of them.
use attacknet.Base.{Bool, true, false, List, [], ◌∷◌, String}
use attacknet.Base.Dict.{Dict}
use attacknet.Golang.Duration.{Duration}

pub data TargetingSpec : Type 0 where
  target_matching_node target_matching_client : TargetingSpec
  other_targeting : String → TargetingSpec

unfoldable pub targeting_specs : TargetingSpec → Bool
targeting_specs (other_targeting _) = false
targeting_specs _ = true

pub data AttackSize : Type 0 where
  attack_one attack_all attack_minority attack_superminority attack_majority attack_supermajority :
      AttackSize
  other_size : String → AttackSize

unfoldable pub attack_sizes : AttackSize → Bool
attack_sizes (other_size _) = false
attack_sizes _ = true

-- The text of an attack size, which the source uses as its value.
unfoldable pub attack_size_text : AttackSize → String
attack_size_text attack_one = "AttackOneMatching"
attack_size_text attack_all = "AttackAllMatching"
attack_size_text attack_minority = "AttackMinorityMatching"
attack_size_text attack_superminority = "AttackSuperminorityMatching"
attack_size_text attack_majority = "AttackMajorityMatching"
attack_size_text attack_supermajority = "AttackSupermajorityMatching"
attack_size_text (other_size s) = s

pub data FaultType : Type 0 where
  fault_clock_skew fault_container_restart fault_io_latency fault_network_latency
        fault_packet_loss :
      FaultType
  other_fault : String → FaultType

-- The map FaultTypes, which leaves out one of the types of FaultTypesList.
unfoldable pub fault_types : FaultType → Bool
fault_types fault_clock_skew = true
fault_types fault_container_restart = true
fault_types fault_io_latency = true
fault_types fault_network_latency = true
fault_types _ = false

abbrev pub fault_types_list : List FaultType
fault_types_list =
    fault_clock_skew ∷ fault_container_restart ∷ fault_io_latency ∷ fault_network_latency
    ∷ fault_packet_loss ∷ []

pub record PlannerFaultConfiguration : Type 0 where
  pub fault_type : FaultType
  pub target_client : String
  pub wait_before_first_test : Duration
  pub fault_config_dimensions : List (Dict String)
  pub targeting_dimensions : List TargetingSpec
  pub attack_size_dimensions : List AttackSize
