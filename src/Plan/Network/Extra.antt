-- ===== src/Plan/Network/Extra.antt =====
-- pkg/plan/network/network_builder.go: the nodes that are added so that the targets make up the
-- configured share of the network.
pub mod Pairs
pub mod Rounds
pub mod Added
use attacknet.Base.{
  ℕ, zero, suc, ◌+◌, Bool, false, ◌||◌, List, [], ◌∷◌, ◌++◌, length, ◌==◌, if◌then◌else◌, String,
  Outcome, ok, err, crash, failure, or_crash, out_of_fuel, unspecified_conversion, ◌>>=◌,
}
use attacknet.Base.Int.{ℤ, pos, negsuc, ◌-ℤ◌}
use attacknet.Base.Text.{str_eq}
use attacknet.Golang.Float.{Float, float32, of_ℕ, div, sub, lt, eq, to_int}
use attacknet.Plan.Network.Nodes.{ClientVersion, Node, build_node}

-- How many nodes to add; `targeted` nodes are targets, and the bootnode is one more.
unfoldable pub calc_nodes_needed_to_satisfy_target : Float → ℕ → Outcome ℤ
unfolding ◌-ℤ◌
calc_nodes_needed_to_satisfy_target percent targeted =
    let network_size = div float32 (of_ℕ float32 targeted) percent in
    if lt (of_ℕ float32 1) percent || lt percent (of_ℕ float32 0)
    then err (failure "invalid value for targets_as_percent_of_network, must be >=0 and < 1")
    else if lt (sub float32 network_size (of_ℕ float32 targeted)) (of_ℕ float32 1)
    then err (failure "unable to compose a network where targeted nodes are the given share")
    else (do
      size ← or_crash (to_int float32 network_size) unspecified_conversion
      ok (size -ℤ pos targeted -ℤ pos 1))

-- Where a walk over the client lists stands: the nodes so far and the next index, or the exit of
-- all three loops.
pub data Walk : Type 0 where
  going : List Node → ℕ → Walk
  exit : List Node → Walk

-- len(nodes) == nodeCount
unfoldable pub is_count : ℕ → ℤ → Bool
is_count n (pos count) = n == count
is_count n (negsuc _) = false

-- The loop over the consensus clients, for one execution client.
unfoldable pub walk_cons : String → ℤ → ClientVersion → List ClientVersion → List Node → ℕ → Walk
unfolding is_count
walk_cons client count exec [] nodes index = going nodes index
walk_cons client count exec (cons ∷ rest) nodes index =
    let nodes' = nodes ++ build_node index exec cons ∷ [] in
    let skip = walk_cons client count exec rest nodes index in
    let more = walk_cons client count exec rest nodes' (index + 1) in
    if str_eq cons.name client
    then skip
    else if is_count (length nodes') count
    then exit nodes'
    else more

-- The loop over the execution clients.
unfoldable pub walk_exec :
    String → ℤ → List ClientVersion → List ClientVersion → List Node → ℕ → Walk
unfolding walk_cons
walk_exec client count conss [] nodes index = going nodes index
walk_exec client count conss (exec ∷ rest) nodes index =
    let skip = walk_exec client count conss rest nodes index in
    let step : Walk = elim (walk_cons client count exec conss nodes index) [
      | going nodes' index' ↦ walk_exec client count conss rest nodes' index'
      | exit nodes' ↦ exit nodes'
    ] in
    if str_eq exec.name client then skip else step

-- The loop `for { … }` around them, one round for each unit of fuel.
unfoldable pub rounds :
    ℕ → String → ℤ → List ClientVersion → List ClientVersion → List Node → ℕ → Outcome (List Node)
unfolding walk_exec
rounds zero client count execs conss nodes index = crash out_of_fuel
rounds (suc fuel) client count execs conss nodes index =
    elim (walk_exec client count conss execs nodes index) [
      | going nodes' index' ↦ rounds fuel client count execs conss nodes' index'
      | exit nodes' ↦ ok nodes'
    ]

unfoldable pub pick_extra_node_clients :
    ℕ → ℕ → ℤ → String → List ClientVersion → List ClientVersion → Outcome (List Node)
unfolding rounds
pick_extra_node_clients fuel start count client execs conss =
    rounds fuel client count execs conss [] start

unfoldable pub compose_nodes_to_satisfy_target_percent :
    ℕ → Float → ℕ → ℕ → String → List ClientVersion → List ClientVersion → Outcome (List Node)
unfolding pick_extra_node_clients
compose_nodes_to_satisfy_target_percent fuel percent targeted start client execs conss =
    if eq percent (of_ℕ float32 0) then ok [] else (do
      count ← calc_nodes_needed_to_satisfy_target percent targeted
      pick_extra_node_clients fuel start count client execs conss)
