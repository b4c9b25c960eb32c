-- ===== src/Health/Checks.antt =====
-- pkg/health/types/types.go, AllChecksPassed of pkg/health/checker.go, and convertResultToArtifact of
-- pkg/health/ethereum/network_checker.go. The entries of a map are walked from the last to the first.
pub mod Recovered
pub mod Rounds
pub mod Ending
pub mod Kept
use attacknet.Base.{
  ℕ, Bool, not, ◌&&◌, ◌||◌, Option, none, some, List, [], ◌∷◌, any, is_nil, if◌then◌else◌, String,
}
use attacknet.Base.Int.{ℤ}
use attacknet.Base.Dict.{Dict, has_key, insert}
use attacknet.Chaos.Session.{PodUnderTest}

pub record BlockConsensusTestResult : Type 0 where
  pub consensus_block : ℕ
  pub consensus_hash : String
  pub failing_clients_reported_block : Dict ℕ
  pub failing_clients_reported_hash : Dict String

pub record BlockConsensusArtifact : Type 0 where
  pub test_result : BlockConsensusTestResult
  pub did_unfaulted_nodes_fail : Bool
  pub did_unfaulted_nodes_need_to_recover : Bool
  pub node_recovery_time_seconds : Dict ℤ

pub record HealthCheckResult : Type 0 where
  pub latest_el_block_result : BlockConsensusArtifact
  pub finalized_el_block_result : BlockConsensusArtifact
  pub latest_cl_block_result : BlockConsensusArtifact
  pub finalized_cl_block_result : BlockConsensusArtifact

-- The two tests that AllChecksPassed makes of each result.
unfoldable pub no_failing_clients : BlockConsensusArtifact → Bool
no_failing_clients a =
    is_nil a.test_result.failing_clients_reported_block
    && is_nil a.test_result.failing_clients_reported_hash

unfoldable pub all_checks_passed : HealthCheckResult → Bool
unfolding no_failing_clients
all_checks_passed checks =
    no_failing_clients checks.latest_el_block_result
    && no_failing_clients checks.finalized_el_block_result
    && no_failing_clients checks.latest_cl_block_result
    && no_failing_clients checks.finalized_cl_block_result

-- Clients that failed before and do not fail any more have recovered by now.
unfoldable pub recovered_clients : {V : Type 0} → ℤ → Dict V → Dict V → Dict ℤ → Dict ℤ
unfolding has_key insert
recovered_clients seconds failing [] recovered = recovered
recovered_clients seconds failing ((client, _) ∷ rest) recovered =
    let more = recovered_clients seconds failing rest recovered in
    if has_key client failing then more else insert client seconds more

unfoldable pub merge_recovered : Dict ℤ → Dict ℤ → Dict ℤ
unfolding insert
merge_recovered [] recovered = recovered
merge_recovered ((client, seconds) ∷ rest) recovered =
    insert client seconds (merge_recovered rest recovered)

-- Is a client of the map not under test?
unfoldable pub any_unfaulted : {V : Type 0} → Dict PodUnderTest → Dict V → Bool
unfolding has_key
any_unfaulted under_test clients = any (λ entry. not (has_key entry.0 under_test)) clients

-- The clients that have recovered, after the artifact of the last checks.
unfoldable pub recovered_since :
    ℤ → Option BlockConsensusArtifact → BlockConsensusTestResult → Dict ℤ
unfolding recovered_clients merge_recovered
recovered_since seconds none result = []
recovered_since seconds (some prev) result = merge_recovered prev.node_recovery_time_seconds (
    recovered_clients seconds result.failing_clients_reported_block
      prev.test_result.failing_clients_reported_block
      (recovered_clients seconds result.failing_clients_reported_hash
        prev.test_result.failing_clients_reported_hash []))

-- `seconds` is the whole seconds since the checks started.
unfoldable pub convert_result_to_artifact :
    Dict PodUnderTest
    → ℤ
    → Option BlockConsensusArtifact
    → BlockConsensusTestResult
    → BlockConsensusArtifact
unfolding recovered_since any_unfaulted
convert_result_to_artifact under_test seconds prev result = record {
  test_result = result;
  did_unfaulted_nodes_fail =
      any_unfaulted under_test result.failing_clients_reported_block
      || any_unfaulted under_test result.failing_clients_reported_hash;
  did_unfaulted_nodes_need_to_recover =
      any_unfaulted under_test (recovered_since seconds prev result);
  node_recovery_time_seconds = recovered_since seconds prev result;
}
