-- ===== src/Tests/Clients.antt =====
-- A network of three nodes of which one is under test and one votes for another block, and the
-- properties of the health checks at it.
use attacknet.Base.{
  is_nil, All, ℕ, ◌<◌, ◌≡◌, ◌≢◌, ◌↔◌, refl, true, false, not, ◌&&◌, none, some, Option, List, [],
  ◌∷◌, ◌++◌, length, if◌then◌else◌, ltb, ◌==◌, String, ok, crash, index_out_of_range, out_of_fuel,
  arith, nil_pointer, subst,
}
use attacknet.Base.Dict.{lookup, has_key, insert}
use attacknet.Base.Text.{◌++◌ as append, str_eq, contains}
use mathlib.Core.List.Permᴰ
use attacknet.Chaos.Session.{PodUnderTest}
use attacknet.Cluster.Pods
use attacknet.Cluster.Pods.{KubePod}
use attacknet.Cluster.Forwards.{
  PortForwardsSession, ForwardAnswer, ready, failed, open_port_forward,
}
use attacknet.Cluster.Forwards.Retries.{BecomesReady, open_port_forward_iff}
use attacknet.Health.Votes.{ClientForkChoice, determine_fork_consensus}
use attacknet.Health.Votes.Groups.{number_of}
use attacknet.Health.Checks.{BlockConsensusTestResult}
use attacknet.Health.Targets.{
  EthNetworkChecker, create_eth_network_checker, get_pods_to_health_check,
}
use attacknet.Health.Targets.Checked.{
  has_name, is_under_test, survives, get_pods_to_health_check_lem,
}
use attacknet.Health.Clients.{exec_latest_block, header, encode_hex}
use attacknet.Health.Consensus.{test_result, Ballot, block_consensus}
use attacknet.Health.Consensus.Agreed.{AgreesWith, test_result_clean_iff}
use attacknet.Health.Consensus.Reported.{is_named, test_result-reports}
use attacknet.Health.Consensus.Settled.{
  IsCast, IsSettled, test_result_panics_iff, block_consensus-IsSettled,
}
use attacknet.Health.Dials.{
  label_key, BeaconDial, provider, not_connected, dial_to_execution_clients, dial_to_beacon_clients,
}
use attacknet.Health.Dials.Execution.{dial_to_execution_clients_lem}
use attacknet.Health.Dials.Reached.{AllMatch, ForwardTo, IsSplit, dial_to_beacon_clients_lem}
use attacknet.Tests.Votes.{four_votes}

abbrev beacon_pod : String → KubePod
beacon_pod name = record { name = name; labels = (label_key, "beacon") ∷ [] }

abbrev doomed_pod : PodUnderTest
doomed_pod = record {
  name = "cl-01";
  labels = (label_key, "beacon") ∷ [];
  expect_death = true;
  touched_by_fault = false;
}

abbrev listing : String → Option (List KubePod)
listing selector = some (beacon_pod "cl-01" ∷ beacon_pod "cl-02" ∷ beacon_pod "cl-03-prysm" ∷ [])

abbrev checker : EthNetworkChecker
checker = create_eth_network_checker (doomed_pod ∷ [])

abbrev to_check : List KubePod
to_check = beacon_pod "cl-02" ∷ beacon_pod "cl-03-prysm" ∷ []

checked_run : get_pods_to_health_check listing checker label_key "beacon" ≡ ok to_check
unfolding get_pods_to_health_check create_eth_network_checker insert lookup
checked_run = refl

get_pods_to_health_check_lem_example : has_name "cl-01" to_check ≡ (
    if is_under_test "cl-01" (doomed_pod ∷ [])
    then survives label_key "beacon" "cl-01" (doomed_pod ∷ [])
    else has_name "cl-01" (beacon_pod "cl-01" ∷ beacon_pod "cl-02" ∷ beacon_pod "cl-03-prysm" ∷ []))
get_pods_to_health_check_lem_example =
    get_pods_to_health_check_lem listing (doomed_pod ∷ []) label_key "beacon" "cl-01"
      (beacon_pod "cl-01" ∷ beacon_pod "cl-02" ∷ beacon_pod "cl-03-prysm" ∷ []) to_check refl
      checked_run

open_port_forward_iff_example :
    ((open_port_forward 5 (failed ∷ ready ∷ []) ≡ ok tt) ↔ BecomesReady 5 (failed ∷ ready ∷ []))
    × (5 < length (failed ∷ ready ∷ [])
        → open_port_forward 5 (failed ∷ ready ∷ []) ≢ crash out_of_fuel)
open_port_forward_iff_example = open_port_forward_iff 5 (failed ∷ ready ∷ [])

abbrev forward : ForwardAnswer
forward = record {
  listener_port = some 40001;
  is_listener_closed = true;
  has_round_tripper = true;
  is_host_parsed = true;
  attempts = failed ∷ ready ∷ [];
}

abbrev session_to : ℕ → String → PortForwardsSession
session_to port name = record {
  is_stopped = false;
  pod = beacon_pod name;
  target_port = port;
  local_port = 40001;
}

abbrev reached : List PortForwardsSession
reached = session_to 3500 "cl-03-prysm" ∷ session_to 4000 "cl-02" ∷ []

abbrev dials : List (List BeaconDial)
dials = (not_connected ∷ provider ∷ []) ∷ (provider ∷ []) ∷ []

dialled_run :
    dial_to_beacon_clients listing checker (forward ∷ []) (forward ∷ []) dials ≡ ok reached
unfolding dial_to_beacon_clients create_eth_network_checker insert lookup contains
dialled_run = refl

listing-AllMatch :
    (listed : List KubePod)
    → listing (append label_key (append "=" "beacon")) ≡ some listed
    → AllMatch label_key "beacon" listed
unfolding Pods.matches_label lookup
listing-AllMatch listed e =
    let same : beacon_pod "cl-01" ∷ beacon_pod "cl-02" ∷ beacon_pod "cl-03-prysm" ∷ [] ≡ listed =
      cc in
    subst (AllMatch label_key "beacon") same (refl, (refl, (refl, tt)))

dial_to_beacon_clients_lem_example :
    (pods prysm_pods other_pods : List KubePod) × (prysm others : List PortForwardsSession)
    × (get_pods_to_health_check listing checker label_key "beacon" ≡ ok pods)
    × IsSplit pods prysm_pods other_pods
    × (reached ≡ prysm ++ others)
    × ForwardTo 3500 prysm_pods prysm
    × ForwardTo 4000 other_pods others
dial_to_beacon_clients_lem_example =
    dial_to_beacon_clients_lem listing checker (forward ∷ []) (forward ∷ []) dials reached
      listing-AllMatch dialled_run

abbrev exec_pod : String → KubePod
exec_pod name = record { name = name; labels = (label_key, "execution") ∷ [] }

abbrev exec_listing : String → Option (List KubePod)
exec_listing selector = some (exec_pod "el-01" ∷ exec_pod "el-02" ∷ [])

abbrev exec_session : String → PortForwardsSession
exec_session name = record {
  is_stopped = false;
  pod = exec_pod name;
  target_port = 8545;
  local_port = 40001;
}

exec_dialled_run :
    dial_to_execution_clients exec_listing checker (forward ∷ forward ∷ []) (true ∷ true ∷ [])
    ≡ ok (exec_session "el-01" ∷ exec_session "el-02" ∷ [])
unfolding dial_to_execution_clients create_eth_network_checker insert lookup
exec_dialled_run = refl

exec_listing-AllMatch :
    (listed : List KubePod)
    → exec_listing (append label_key (append "=" "execution")) ≡ some listed
    → AllMatch label_key "execution" listed
unfolding Pods.matches_label lookup
exec_listing-AllMatch listed e =
    let same : exec_pod "el-01" ∷ exec_pod "el-02" ∷ [] ≡ listed = cc in
    subst (AllMatch label_key "execution") same (refl, (refl, tt))

dial_to_execution_clients_lem_example :
    (pods : List KubePod) × (get_pods_to_health_check exec_listing checker label_key "execution"
      ≡ ok pods)
    × ForwardTo 8545 pods (exec_session "el-01" ∷ exec_session "el-02" ∷ [])
dial_to_execution_clients_lem_example =
    dial_to_execution_clients_lem exec_listing checker (forward ∷ forward ∷ []) (true ∷ true ∷ [])
      (exec_session "el-01" ∷ exec_session "el-02" ∷ []) exec_listing-AllMatch exec_dialled_run

abbrev four_result : BlockConsensusTestResult
four_result = record {
  consensus_block = 10;
  consensus_hash = "0xaa";
  failing_clients_reported_block = ("el-02", 9) ∷ [];
  failing_clients_reported_hash = ("el-03", "0xbb") ∷ [];
}

result_run : test_result (determine_fork_consensus (λ g. g) (λ g. g) four_votes) ≡ ok four_result
unfolding test_result determine_fork_consensus insert
result_run = refl

test_result-reports_example :
    (has_key "el-03" four_result.failing_clients_reported_block
      ≡ ltb 0 (
          number_of
            (λ v. is_named "el-03" v && not (v.block_number == four_result.consensus_block))
            four_votes))
    × (has_key "el-03" four_result.failing_clients_reported_hash
        ≡ ltb 0 (
            number_of
              (λ v.
                (is_named "el-03" v && not (str_eq v.block_hash four_result.consensus_hash))
                && v.block_number == four_result.consensus_block)
              four_votes))
test_result-reports_example =
    test_result-reports (λ g. g) (λ g. g) four_votes four_result "el-03" (λ g. Permᴰ.refl g)
      (λ g. Permᴰ.refl g) result_run

abbrev no_nodes : List ClientForkChoice
no_nodes = []

test_result_panics_iff_example :
    (test_result (determine_fork_consensus (λ g. g) (λ g. g) no_nodes) ≡ crash index_out_of_range)
    ↔ (no_nodes ≡ [])
test_result_panics_iff_example =
    test_result_panics_iff (λ g. g) (λ g. g) no_nodes (λ g. Permᴰ.refl g) (λ g. Permᴰ.refl g)

abbrev ballot : Ballot
ballot = record { votes = ok four_votes; number_order = λ g. g; hash_order = λ g. g }

is_cast : IsCast ballot
is_cast = ((four_votes, refl, λ n. cc), (λ g. Permᴰ.refl g), λ g. Permᴰ.refl g)

block_consensus-IsSettled_example :
    (result : BlockConsensusTestResult) × (block_consensus 1 (ballot ∷ ballot ∷ []) ≡ ok result)
    × IsSettled 1 (ballot ∷ ballot ∷ []) result
block_consensus-IsSettled_example =
    block_consensus-IsSettled 1 (ballot ∷ ballot ∷ []) (omega arith) (is_cast, (is_cast, tt))

-- A client that answers null makes the check panic.
null_header : exec_latest_block "el-01" (header none) ≡ crash nil_pointer
unfolding exec_latest_block
null_header = refl

hex_run : encode_hex (0 ∷ 171 ∷ 255 ∷ []) ≡ "00abff"
unfolding encode_hex
hex_run = refl

test_result_clean_iff_example :
    ((is_nil four_result.failing_clients_reported_block
        && is_nil four_result.failing_clients_reported_hash)
      ≡ true)
    ↔ All (AgreesWith four_result) four_votes
test_result_clean_iff_example =
    test_result_clean_iff (λ g. g) (λ g. g) four_votes four_result (λ g. Permᴰ.refl g)
      (λ g. Permᴰ.refl g) result_run
