-- ===== src/Health/Dials.antt =====
-- dialToExecutionClients of pkg/health/ethereum/execution_rpc.go and dialToBeaconClients of beacon_rpc.go.
-- What the libraries answer is an argument; the pauses between two attempts are left out.
pub mod Reached
pub mod Execution
use attacknet.Base.{
  ℕ, zero, suc, Bool, true, false, Option, none, some, List, [], ◌∷◌, ◌++◌, if◌then◌else◌, String,
  Outcome, ok, err, crash, failure, require, out_of_fuel, ◌>>=◌, ◌>>◌,
}
use attacknet.Base.Text.{contains}
use attacknet.Cluster.Pods.{KubePod}
use attacknet.Cluster.Forwards.{
  PortForwardsSession, ForwardAnswer, start_multi_port_forward_to_labeled_pods,
}
use attacknet.Health.Targets.{EthNetworkChecker, get_pods_to_health_check}

abbrev pub label_key : String
label_key = "kurtosistech.com.custom/ethereum-package.client-type"

-- The RPC clients are known by their sessions. `dials` says of each whether ethclient.Dial succeeds.
unfoldable pub dial_exec_rpc_clients :
    List PortForwardsSession → List Bool → Outcome (List PortForwardsSession)
dial_exec_rpc_clients [] dials = ok []
dial_exec_rpc_clients (session ∷ rest) [] = crash out_of_fuel
dial_exec_rpc_clients (session ∷ rest) (dial ∷ dials) = do
  require dial "err while dialing RPC"
  clients ← dial_exec_rpc_clients rest dials
  ok (session ∷ clients)

-- http.New gives an error, or a client that provides block headers or not.
pub data BeaconDial : Type 0 where
  not_connected not_provider provider : BeaconDial

-- The loop of dialBeaconRpcClient, with the retries that are left.
unfoldable pub dial_beacon_rpc_client : ℕ → List BeaconDial → Outcome (Unit {0})
dial_beacon_rpc_client retries [] = crash out_of_fuel
dial_beacon_rpc_client zero (not_connected ∷ rest) = err (failure "err while dialing RPC")
dial_beacon_rpc_client (suc retries) (not_connected ∷ rest) = dial_beacon_rpc_client retries rest
dial_beacon_rpc_client retries (not_provider ∷ rest) =
    err (failure "unable to cast http client to beacon rpc provider")
dial_beacon_rpc_client retries (provider ∷ rest) = ok tt

unfoldable pub dial_beacon_rpc_clients :
    List PortForwardsSession → List (List BeaconDial) → Outcome (List PortForwardsSession)
unfolding dial_beacon_rpc_client
dial_beacon_rpc_clients [] dials = ok []
dial_beacon_rpc_clients (session ∷ rest) [] = crash out_of_fuel
dial_beacon_rpc_clients (session ∷ rest) (dial ∷ dials) = do
  dial_beacon_rpc_client 8 dial
  clients ← dial_beacon_rpc_clients rest dials
  ok (session ∷ clients)

-- The pods whose names hold "prysm", or those whose names do not.
unfoldable pub batch : Bool → List KubePod → List KubePod
batch is_prysm [] = []
batch is_prysm (pod ∷ rest) =
    let more = batch is_prysm rest in
    let prysm = contains pod.name "prysm" in
    if is_prysm then (if prysm then pod ∷ more else more) else (if prysm then more else pod ∷ more)

module _ (list_pods : String → Option (List KubePod)) (e : EthNetworkChecker) where
  unfoldable pub dial_to_execution_clients :
      List ForwardAnswer → List Bool → Outcome (List PortForwardsSession)
  unfolding get_pods_to_health_check start_multi_port_forward_to_labeled_pods dial_exec_rpc_clients
  dial_to_execution_clients forwards dials = do
    pods ← get_pods_to_health_check list_pods e label_key "execution"
    sessions ← start_multi_port_forward_to_labeled_pods pods label_key "execution" 8545 forwards
    dial_exec_rpc_clients sessions dials

  unfoldable pub dial_to_beacon_clients :
      (forwards3500 forwards4000 : List ForwardAnswer)
      → List (List BeaconDial)
      → Outcome (List PortForwardsSession)
  unfolding get_pods_to_health_check start_multi_port_forward_to_labeled_pods
      dial_beacon_rpc_clients batch
  dial_to_beacon_clients forwards3500 forwards4000 dials = do
    pods ← get_pods_to_health_check list_pods e label_key "beacon"
    sessions3500 ←
        start_multi_port_forward_to_labeled_pods (batch true pods) label_key "beacon" 3500
          forwards3500
    sessions4000 ←
        start_multi_port_forward_to_labeled_pods (batch false pods) label_key "beacon" 4000
          forwards4000
    dial_beacon_rpc_clients (sessions3500 ++ sessions4000) dials
