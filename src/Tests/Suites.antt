-- ===== src/Tests/Suites.antt =====
-- A suite of two tests without steps, of which the first has its checks disabled, in an enclave that is
-- made for it.
use attacknet.Base.{
  ℕ, if◌then◌else◌, ◌≡◌, ◌↔◌, ◌<◌, refl, Bool, true, false, Option, some, none, List, [], ◌∷◌, All,
  String, Outcome, ok, crash, index_out_of_range, nil_pointer, blocked, out_of_fuel, length,
}
use attacknet.Base.Int.{pos}
use attacknet.Base.Dict.{lookup}
use attacknet.Base.Text.{◌++◌, contains}
use attacknet.Golang.Decimal.{itoa}
use attacknet.Golang.Utf8.{utf8}
use attacknet.Golang.Disk.{Disk, Os, file}
use attacknet.Types.{SuiteTest, ConfigParsed}
use attacknet.Chaos.Client.{ChaosApi}
use attacknet.Executor.Run.{StepYaml}
use attacknet.Cluster.Pods.{KubePod}
use attacknet.Cluster.Forwards.{ForwardAnswer, ready}
use attacknet.Health.Clients.{ExecAnswer, BeaconAnswer, header}
use attacknet.Health.Dials.{label_key, provider}
use attacknet.Health.Orchestrator.{Replies, Inquiry}
use attacknet.Kurtosis.{other, finished, no_context, follow_run, get_enclave_name}
use attacknet.Kurtosis.Names.{get_enclave_name_lem}
use attacknet.Kurtosis.Network.{follow_run_endless_iff}
use attacknet.Runtime.Devnet.{EngineAnswer, setup_enclave}
use attacknet.Runtime.Artifacts.{TestArtifact, artifact_path}
use attacknet.Runtime.Suite.{SuiteAnswer, start_test_suite}
use attacknet.Runtime.Suite.Results.{Kept}
use attacknet.Runtime.Suite.Finished.{IsCreated, start_test_suite_lem, start_test_suite_destroys}
use mathlib.Core.List.Permᴰ
use attacknet.Cluster.Forwards.{PortForwardsSession}
use attacknet.Health.Clients.{exec_latest_block, beacon_latest_block}
use attacknet.Health.Dials.{dial_to_execution_clients, dial_to_beacon_clients}
use attacknet.Health.Checks.{BlockConsensusArtifact, HealthCheckResult, all_checks_passed}
use attacknet.Health.Checks.Rounds.{run_all_checks}
use attacknet.Health.Targets.{create_eth_network_checker}
use attacknet.Health.Orchestrator.{ask_clients, answer_of}
use attacknet.Health.Orchestrator.Agree.{Agree}
use attacknet.Health.Orchestrator.Passed.{AreFair, run_all_checks-Agree}

abbrev labeled_pods : String → Option (List KubePod)
labeled_pods selector =
    if contains selector "execution"
    then some (record { name = "el-01"; labels = (label_key, "execution") ∷ [] } ∷ [])
    else some (record { name = "cl-01"; labels = (label_key, "beacon") ∷ [] } ∷ [])

abbrev forward : ForwardAnswer
forward = record {
  listener_port = some 40001;
  is_listener_closed = true;
  has_round_tripper = true;
  is_host_parsed = true;
  attempts = ready ∷ [];
}

abbrev exec_replies : Replies ExecAnswer
exec_replies = record {
  reply = λ pod. header (some (7, "0xaa"));
  number_order = λ g. g;
  hash_order = λ g. g;
}

abbrev beacon_replies : Replies BeaconAnswer
beacon_replies = record {
  reply = λ pod. header 9 (171 ∷ []);
  number_order = λ g. g;
  hash_order = λ g. g;
}

abbrev inquiry : Inquiry
inquiry = record {
  exec_pods = labeled_pods;
  exec_forwards = forward ∷ [];
  exec_dials = true ∷ [];
  beacon_pods = labeled_pods;
  beacon_forwards3500 = [];
  beacon_forwards4000 = forward ∷ [];
  beacon_dials = (provider ∷ []) ∷ [];
  latest_el = exec_replies ∷ [];
  finalized_el = exec_replies ∷ [];
  latest_cl = beacon_replies ∷ [];
  finalized_cl = beacon_replies ∷ [];
  seconds = (pos 1, pos 1, pos 2, pos 2);
}

abbrev a_test : String → Bool → SuiteTest
a_test name is_checked = record {
  test_name = name;
  plan_steps = [];
  health_config = record { enable_checks = is_checked; grace_period = some (pos 60) };
}

abbrev suite : ConfigParsed
suite = record {
  attacknet_config = record {
    grafana_pod_name = "grafana";
    grafana_pod_port = "3000";
    allow_post_fault_inspection = false;
    wait_before_injection_seconds = 0;
    reuse_devnet_between_runs = false;
    existing_devnet_namespace = "kt-geth";
  };
  harness_config = record {
    network_type = "ethereum";
    network_package = "package";
    network_config = "nodes";
  };
  tests = a_test "warm up" false ∷ a_test "checked" true ∷ [];
}

abbrev answer : SuiteAnswer
answer = record {
  engine = record {
    is_reached = true;
    now = 1700000000;
    get = λ name. no_context "Couldn't find an enclave for identifier geth";
    create = λ name. some "geth";
    run = some (record { lines = other ∷ finished true ∷ []; is_closed = true });
  };
  has_kube_client = true;
  has_chaos_client = true;
  tests =
      record { steps = []; checks_start = 100; turns = [] }
      ∷ record {
        steps = [];
        checks_start = 200;
        turns = record { inquiry = inquiry; now = 201 } ∷ [];
      }
      ∷ [];
  millis = 5;
  is_destroyed = true;
}

abbrev no_api : ChaosApi
no_api = record { is_kind = λ k. true; marshal = λ f. none; unmarshals = λ k s. true }

abbrev no_yaml : StepYaml
no_yaml = record {
  marshal = λ f. none;
  single_fault = λ s. none;
  fault_completion = λ s. none;
  wait = λ s. none;
}

abbrev system : Os
system = record { getwd = some "/home/eth"; refuses = λ call path. false }

abbrev one_artifact : List TestArtifact → Option String
one_artifact artifacts = some "artifacts"

abbrev ran : Outcome (Option String) × Disk
ran = start_test_suite no_api no_yaml system one_artifact suite answer []

ran_run : ran ≡ (ok (some "geth"), ran.1)
unfolding start_test_suite
ran_run = refl

start_test_suite_lem_example :
    (artifacts : List TestArtifact) × (cwd text : String) × Kept no_api no_yaml suite.tests
      answer.tests artifacts
    × (system.getwd ≡ some cwd)
    × (one_artifact artifacts ≡ some text)
    × (lookup (artifact_path cwd 5) (ran.1) ≡ some (file text))
start_test_suite_lem_example =
    start_test_suite_lem no_api no_yaml system one_artifact suite answer [] (ran.1) (some "geth")
      ran_run

start_test_suite_destroys_example :
    (suite.attacknet_config.reuse_devnet_between_runs ≡ false)
    × IsCreated answer.engine suite.attacknet_config "geth"
start_test_suite_destroys_example =
    start_test_suite_destroys no_api no_yaml system one_artifact suite answer [] (ran.1) "geth"
      ran_run

-- An enclave that cannot be made for a suite without a namespace makes the setup panic.
abbrev failing_engine : EngineAnswer
failing_engine = record {
  is_reached = true;
  now = 0;
  get = λ name. no_context "engine is down";
  create = λ name. none;
  run = none;
}

abbrev nameless : ConfigParsed
nameless = record suite {
  attacknet_config = record suite.attacknet_config { existing_devnet_namespace = "" };
}

setup_panics : setup_enclave failing_engine nameless ≡ crash nil_pointer
unfolding setup_enclave contains itoa
setup_panics = refl

get_enclave_name_lem_example :
    ((get_enclave_name 0 "kt" ≡ crash index_out_of_range)
      ↔ ((0 < length (utf8 "kt")) × (length (utf8 "kt") < 3)))
    × (get_enclave_name 0 ("kt-" ++ "geth") ≡ ok (utf8 "geth"))
get_enclave_name_lem_example = get_enclave_name_lem 0 "kt" "geth"

follow_run_endless_iff_example :
    (((fuel : ℕ)
        → follow_run fuel (record { lines = other ∷ other ∷ []; is_closed = true })
          ≡ crash out_of_fuel)
      ↔ All (λ line. line ≡ other) (other ∷ other ∷ []))
    × ((follow_run 3 (record { lines = other ∷ other ∷ []; is_closed = true }) ≡ crash out_of_fuel)
        ↔ All (λ line. line ≡ other) (other ∷ other ∷ []))
    × ((follow_run 3 (record { lines = other ∷ other ∷ []; is_closed = false }) ≡ crash blocked)
        ↔ All (λ line. line ≡ other) (other ∷ other ∷ []))
follow_run_endless_iff_example = follow_run_endless_iff (other ∷ other ∷ [])

abbrev passing : ℕ → String → BlockConsensusArtifact
passing block hash = record {
  test_result = record {
    consensus_block = block;
    consensus_hash = hash;
    failing_clients_reported_block = [];
    failing_clients_reported_hash = [];
  };
  did_unfaulted_nodes_fail = false;
  did_unfaulted_nodes_need_to_recover = false;
  node_recovery_time_seconds = [];
}

abbrev all_passing : HealthCheckResult
all_passing = record {
  latest_el_block_result = passing 7 "0xaa";
  finalized_el_block_result = passing 7 "0xaa";
  latest_cl_block_result = passing 9 "ab";
  finalized_cl_block_result = passing 9 "ab";
}

checks_run :
    run_all_checks [] none (answer_of (ask_clients (create_eth_network_checker []) inquiry))
    ≡ ok all_passing
unfolding run_all_checks ask_clients contains create_eth_network_checker
checks_run = refl

inquiry-AreFair : AreFair inquiry
inquiry-AreFair = (
  ((λ g. Permᴰ.refl g, λ g. Permᴰ.refl g), tt),
  ((λ g. Permᴰ.refl g, λ g. Permᴰ.refl g), tt),
  ((λ g. Permᴰ.refl g, λ g. Permᴰ.refl g), tt),
  ((λ g. Permᴰ.refl g, λ g. Permᴰ.refl g), tt),
)

passed_run : all_checks_passed all_passing ≡ true
unfolding all_checks_passed
passed_run = refl

run_all_checks-Agree_example :
    (exec beacon : List PortForwardsSession) × (dial_to_execution_clients labeled_pods
        (create_eth_network_checker [])
        (forward ∷ [])
        (true ∷ [])
      ≡ ok exec)
    × (dial_to_beacon_clients labeled_pods
          (create_eth_network_checker [])
          []
          (forward ∷ [])
          ((provider ∷ []) ∷ [])
        ≡ ok beacon)
    × Agree exec_latest_block exec (exec_replies ∷ [])
    × Agree exec_latest_block exec (exec_replies ∷ [])
    × Agree (beacon_latest_block "head") beacon (beacon_replies ∷ [])
    × Agree (beacon_latest_block "finalized") beacon (beacon_replies ∷ [])
run_all_checks-Agree_example =
    run_all_checks-Agree [] none (create_eth_network_checker []) inquiry all_passing inquiry-AreFair
      checks_run passed_run
