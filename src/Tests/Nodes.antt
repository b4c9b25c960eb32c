-- ===== src/Tests/Nodes.antt =====
-- Clients and nodes to run on, after planner-configs/network-packet-drop-geth.yaml.
use attacknet.Base.{ℕ, true, false, List, [], ◌∷◌, zero, suc}
use attacknet.Plan.Network.Nodes.{ClientVersion, Node, build_node}

abbrev pub geth : ClientVersion
geth = record { name = "geth"; image = "ethereum/client-go:v1.13.14"; has_sidecar = false }

abbrev pub reth : ClientVersion
reth = record { name = "reth"; image = "parithoshj/reth:main"; has_sidecar = false }

abbrev pub lighthouse : ClientVersion
lighthouse = record { name = "lighthouse"; image = "sigp/lighthouse:v5.1.1"; has_sidecar = true }

abbrev pub prysm : ClientVersion
prysm = record {
  name = "prysm";
  image = "prysm/beacon-chain:v5.0.1,prysm/validator:v5.0.1";
  has_sidecar = true;
}

abbrev pub teku : ClientVersion
teku = record { name = "teku"; image = "consensys/teku:24.3.0-amd64"; has_sidecar = false }

abbrev pub geth_lighthouse : Node
geth_lighthouse = build_node 2 geth lighthouse

abbrev pub geth_prysm : Node
geth_prysm = build_node 3 geth prysm

abbrev pub reth_teku : Node
reth_teku = build_node 12 reth teku

-- A number of nodes with the first pair of clients.
abbrev pub crowd : ℕ → List Node
crowd zero = []
crowd (suc n) = build_node (suc (suc n)) geth lighthouse ∷ crowd n
