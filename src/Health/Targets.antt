-- ===== src/Health/Targets.antt =====
-- getPodsToHealthCheck of pkg/health/ethereum/util.go, and the map of CreateEthNetworkChecker in
-- network_checker.go.
pub mod Checked
use attacknet.Base.{
  Bool, not, ◌&&◌, Option, List, [], ◌∷◌, ◌++◌, String, Outcome, ok, ◌>>=◌, if◌then◌else◌,
}
use attacknet.Base.Dict.{Dict, insert, has_key}
use attacknet.Chaos.Session.{PodUnderTest}
use attacknet.Chaos.Session
use attacknet.Cluster.Pods.{KubePod, to_kube_pod, pods_matching_label}

pub record EthNetworkChecker : Type 0 where
  pub pods_under_test : List PodUnderTest
  pub pods_under_test_lookup : Dict PodUnderTest

-- podsUnderTestMap[pod.Name] = pod
unfoldable pub lookup_of : List PodUnderTest → Dict PodUnderTest → Dict PodUnderTest
unfolding insert
lookup_of [] pods = pods
lookup_of (pod ∷ rest) pods = lookup_of rest (insert pod.name pod pods)

unfoldable pub create_eth_network_checker : List PodUnderTest → EthNetworkChecker
unfolding lookup_of
create_eth_network_checker pods = record {
  pods_under_test = pods;
  pods_under_test_lookup = lookup_of pods [];
}

-- The pods under test that match the label and are not expected to die.
unfoldable pub surviving_targets : String → String → List PodUnderTest → List KubePod
unfolding Session.matches_label
surviving_targets key value [] = []
surviving_targets key value (pod ∷ rest) =
    let more = surviving_targets key value rest in
    if Session.matches_label pod key value && not pod.expect_death
    then to_kube_pod pod ∷ more
    else more

-- The pods that no fault targets.
unfoldable pub bystanders_of : Dict PodUnderTest → List KubePod → List KubePod
unfolding has_key
bystanders_of under_test [] = []
bystanders_of under_test (pod ∷ rest) =
    let more = bystanders_of under_test rest in
    if has_key pod.name under_test then more else pod ∷ more

unfoldable pub get_pods_to_health_check :
    (String → Option (List KubePod)) → EthNetworkChecker → String → String → Outcome (List KubePod)
unfolding surviving_targets bystanders_of pods_matching_label
get_pods_to_health_check list_pods e key value = do
  bystanders ← pods_matching_label list_pods key value
  ok (
      surviving_targets key value e.pods_under_test
      ++ bystanders_of e.pods_under_test_lookup bystanders)
