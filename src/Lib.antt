-- ===== src/Lib.antt =====
-- A verification library for attacknet, the tool that injects chaos-mesh faults into an Ethereum
-- network and checks its health afterwards. It covers the planner, `attacknet plan`, from the
-- validation of its configuration to the files of the network and the test suite that it writes, the
-- projects that these are loaded from, and the run of a suite, `attacknet start`: the enclave that it
-- runs in, the executor of a test's plan with the sessions by which a running fault is watched, the
-- health checks, and the file of results.
--
-- The planner reads a configuration (pkg/plan/config.go), composes the nodes of a network
-- (pkg/plan/network), composes a suite of tests against those nodes (pkg/plan/suite), and writes
-- the network for kurtosis (pkg/plan/serialization.go); the suite's tests are the ones that the
-- executor runs later (pkg/types/config.go).
--
-- Files and code:
--   Base: lists, texts, Go's maps as association lists, and `Outcome`, what a call gives: a value,
--     an error value, or a crash (a panic, a conversion that Go leaves open, fuel used up).
--   Golang: float32 and float64 by exact rounding, strconv's decimal numbers, time.Duration, paths,
--     and the disk.
--   Types: the records of pkg/types/config.go.
--   Plan.Network.Nodes: pkg/plan/network/types.go, clients.go, consensus.go and execution.go;
--     buildNode is `build_node`, composeNodesForElTesting is `compose_nodes_for_el_testing`.
--   Plan.Network.Extra: pickExtraNodeClients and calcNodesNeededToSatisfyTarget of
--     network_builder.go. Its endless loop runs on fuel, one round over the client lists for each
--     unit; as many rounds as there are nodes to add are enough.
--   Plan.Network.Topology: ComposeNetworkTopology, as `compose_network_topology`. Roles and Composed
--     hold the lemmas about which node does what.
--   Plan.Suite.Kinds: pkg/plan/suite/types.go; the text constants are constructors.
--   Plan.Suite.Faults: pkg/plan/suite/faults.go. The Go struct of a fault of each kind is `Fault` of
--     its spec, and the wrappers are the constructors of `FaultWrapper`.
--   Plan.Suite.Tags: ConvertToNodeIdTag of step_builder.go.
--   Plan.Suite.Targeting: targeting.go. The switch of chooseTargetsUsingAttackSize is
--     `nodes_to_target`, its copying loop is `first_targets`.
--   Plan.Suite.Steps and Plan.Suite.Scenarios: the plan steps of step_builder.go and the tests of
--     test_builder.go.
--   Plan.Suite.Builder: suite_builder.go; the three nested loops of ComposeTestSuite are
--     `tests_for_dimensions`, `tests_for_sizes` and `tests_for_configs`.
--   Plan.PlannerConfig: pkg/plan/types.go and config.go.
--   Plan.Serialization: pkg/plan/serialization.go.
--   Plan.Files and Plan.Entry: preparePaths and writePlans of file.go, and BuildPlan of plan.go, as
--     `build_plan`, which gives its outcome with the disk after it (Golang.Disk).
--   Project: pkg/project, on the same disk; LoadSuiteConfigFromName is `load_suite_config_from_name`.
--   Chaos.Session and Chaos.Status: FaultSession of pkg/chaos-mesh/session.go. A method takes what
--     the cluster answers, and gives its result with the session after it; GetStatus is `get_status`.
--   Health.Votes: determineForkConsensus of pkg/health/ethereum/consensus.go. The order in which Go
--     walks a map is an argument, of which only is asked that it rearranges the map's entries.
--   Health.Checks: RunChecks and AllChecksPassed of pkg/health/checker.go, and RunAllChecks and
--     convertResultToArtifact of pkg/health/ethereum/network_checker.go, with their types. The loop
--     takes a list of rounds, which hold the clients' answers and the time that is read.
--   Health.Targets: getPodsToHealthCheck of util.go and the map of CreateEthNetworkChecker.
--   Health.Clients: GetLatestBlockBy of both kinds of clients, and the two functions of consensus.go
--     that ask every client.
--   Health.Consensus: getExecBlockConsensus and getBeaconClientConsensus, which have the same body,
--     `block_consensus`. It takes the votes of each attempt; as many as the given attempts and one
--     more are enough.
--   Health.Dials: dialToExecutionClients and dialToBeaconClients of execution_rpc.go and beacon_rpc.go.
--   Cluster: the pods and the port forwards of pkg/kubernetes; openPortForward is `open_port_forward`,
--     over a list of what each attempt comes to.
--   Chaos.Client: StartFault of pkg/chaos-mesh/client.go.
--   Executor: pkg/test_executor. Recover is waitForFaultRecovery, Waits waitForInjectionCompleted and
--     runWaitForFaultCompletion, Collect GetPodsUnderTest, and Run RunTestPlan with its steps. What
--     the clock and the cluster say comes as a list with an entry for each turn of a loop, and for a
--     plan with an entry for each step; a loop ends in `out_of_fuel` when it needs more.
--   Health.Orchestrator: RunAllChecks from its dials to its tests, as `ask_clients`, BuildHealthChecker,
--     and RunChecks around them, as `orchestrate`.
--   Kurtosis: pkg/kurtosis; CreateOrImportContext is `create_or_import_context`, and the loop of
--     StartNetwork is `follow_run`, over a `Run`: the lines that the engine sends, and whether it closes
--     the channel after them. One unit of fuel more than lines is enough for every run that ends. The
--     namespace is cut as UTF-8 bytes (Golang.Utf8), so the name that is asked for is a list of bytes.
--   Runtime: pkg/runtime, pkg/artifacts and pkg/runtime.go; StartTestSuite is `start_test_suite`, and its
--     loop over the tests is `run_tests`.
--   Tests: runs on concrete inputs, among them the table of targeting_test.go.
--
-- Bounds: the shares of a network that an attack size takes are evaluated in float32 at every size
-- below 1024 nodes, and the theorems about them carry that bound. Indices, counts and resource
-- requests, which the code never makes negative, are natural numbers; a count that may be negative
-- is an integer. Go's 64-bit wrap-around of these counts is out of reach and is not modelled.
--
-- Not modelled: logging, the estimate of a suite's running time that is only logged, and the
-- arguments that error messages are formatted with. gopkg.in/yaml.v3 is a parameter, as is what the
-- system refuses. The answers of Kubernetes, of kurtosis and of the nodes' clients are arguments, so
-- that making these clients and the calls themselves are left out, as are pkg/grafana.go, which
-- nothing uses, and the command line of cmd/attacknet/main.go.
pub mod Base
pub mod Golang
pub mod Types
pub mod Plan
pub mod Project
pub mod Kurtosis
pub mod Chaos
pub mod Cluster
pub mod Health
pub mod Executor
pub mod Runtime
mod Tests
