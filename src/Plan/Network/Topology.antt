-- ===== src/Plan/Network/Topology.antt =====
-- pkg/plan/network/network_builder.go: the whole topology.
use attacknet.Base.{
  ℕ, ◌+◌, ◌-◌, Bool, List, [], ◌∷◌, ◌++◌, length, last?, any, ◌==◌, if◌then◌else◌, String, Outcome,
  ok, err, failure, or_crash, index_out_of_range, ◌>>=◌,
}
use attacknet.Base.Dict.{Dict, has_key, insert}
use attacknet.Base.Text.{str_eq}
use attacknet.Plan.Network.Nodes.{
  TopologyConfig, ClientVersion, Node, compose_bootnode, compose_consensus_tester_network,
  compose_exec_tester_network,
}
use attacknet.Plan.Network.Extra.{compose_nodes_to_satisfy_target_percent}

unfoldable pub populate_client_map :
    Dict ClientVersion → List ClientVersion → Outcome (Dict ClientVersion)
populate_client_map clients [] = ok clients
populate_client_map clients (client ∷ rest) =
    let more = populate_client_map (insert client.name client clients) rest in
    if has_key client.name clients then err (failure "duplicate configuration for client") else more

unfoldable pub client_lists_to_maps :
    List ClientVersion → List ClientVersion → Outcome (Dict ClientVersion × Dict ClientVersion)
unfolding populate_client_map
client_lists_to_maps exec_clients cons_clients = do
  exec_client_map ← populate_client_map [] exec_clients
  cons_client_map ← populate_client_map [] cons_clients
  ok (exec_client_map, cons_client_map)

-- Is the client one of the list?
unfoldable pub is_client_of : String → List ClientVersion → Bool
is_client_of client clients = any (λ c. str_eq c.name client) clients

unfoldable pub node_multiplier : TopologyConfig → ℕ
node_multiplier t = if t.target_node_multiplier == 0 then 1 else t.target_node_multiplier

-- The nodes with the client under test.
unfoldable pub nodes_to_test :
    TopologyConfig
    → String
    → List ClientVersion
    → List ClientVersion
    → Dict ClientVersion
    → Dict ClientVersion
    → Outcome (List Node)
unfolding node_multiplier is_client_of
nodes_to_test t client execs conss exec_map cons_map =
    if is_client_of client execs
    then compose_exec_tester_network (node_multiplier t) client conss exec_map
    else compose_consensus_tester_network (node_multiplier t) client execs cons_map

-- `fuel` bounds the rounds of pickExtraNodeClients.
unfoldable pub compose_network_topology :
    ℕ → TopologyConfig → String → List ClientVersion → List ClientVersion → Outcome (List Node)
unfolding client_lists_to_maps nodes_to_test
compose_network_topology fuel t client execs conss =
    if str_eq client "all"
    then err (failure "target clientUnderTest 'all' not supported yet")
    else (do
      (exec_map, cons_map) ← client_lists_to_maps execs conss
      bootnode ← compose_bootnode t.bootnode_el t.bootnode_cl exec_map cons_map
      tested ← nodes_to_test t client execs conss exec_map cons_map
      let nodes = bootnode ∷ tested
      final ← or_crash (last? nodes) index_out_of_range
      extra ←
          compose_nodes_to_satisfy_target_percent fuel t.targets_as_percent_of_network
            (length nodes - 1) (final.index + 1) client execs conss
      ok (nodes ++ extra))
