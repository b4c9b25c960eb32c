-- ===== src/Plan/Serialization/Planned.antt =====
-- Reading back the network that the planner composed and wrote: pkg/plan/serialization.go after
-- ComposeNetworkTopology of pkg/plan/network/network_builder.go.
use attacknet.Base.{
  ℕ, zero, suc, ◌+◌, ◌≡◌, sym, ap, subst, some, inl, inr, List, [], ◌∷◌, map, All, All-append,
  Bool-cases, String, ok, or_fail, ok_of_bind, ok-injective, some_of_or_fail, length, ◌-◌,
}
use attacknet.Base.Dict.{Dict, lookup}
use attacknet.Plan.Network.Nodes.{
  ClientVersion, Node, TopologyConfig, build_copies, compose_nodes_for_cl_testing,
  compose_nodes_for_el_testing, compose_bootnode, compose_exec_tester_network,
  compose_consensus_tester_network,
}
use attacknet.Plan.Network.Extra.Pairs.{Pair, numbered}
use attacknet.Plan.Network.Extra.Added.{extra-IsAdded}
use attacknet.Plan.Network.Topology.{
  compose_network_topology, nodes_to_test, node_multiplier, is_client_of,
}
use attacknet.Plan.Network.Calls.{topology-Calls}
use attacknet.Plan.Network.Composed.{topology_roles}
use attacknet.Plan.PlannerConfig.{GenesisConfig}
use attacknet.Plan.Serialization.{
  NetworkYaml, eth_kurtosis_config, serialize_network_topology, deserialize_network_topology,
}
use attacknet.Plan.Serialization.Roundtrip.{
  IsPlain, restored, build_node-IsPlain, nodes_of-serialize_nodes,
}

build_copies-IsPlain :
    (copies index : ℕ) (exec cons : ClientVersion)
    → All IsPlain (build_copies copies index exec cons)
unfolding build_copies
build_copies-IsPlain zero index exec cons = tt
build_copies-IsPlain (suc copies) index exec cons =
    (build_node-IsPlain index exec cons, build_copies-IsPlain copies (suc index) exec cons)

el_testing-IsPlain :
    (multiplier index : ℕ) (exec : ClientVersion) (conss : List ClientVersion)
    → All IsPlain (compose_nodes_for_el_testing multiplier index exec conss)
unfolding compose_nodes_for_el_testing
el_testing-IsPlain multiplier index exec [] = tt
el_testing-IsPlain multiplier index exec (cons ∷ rest) =
    All-append IsPlain (build_copies multiplier index exec cons) _
      (build_copies-IsPlain multiplier index exec cons)
      (el_testing-IsPlain multiplier (index + multiplier) exec rest)

cl_testing-IsPlain :
    (multiplier index : ℕ) (cons : ClientVersion) (execs : List ClientVersion)
    → All IsPlain (compose_nodes_for_cl_testing multiplier index cons execs)
unfolding compose_nodes_for_cl_testing
cl_testing-IsPlain multiplier index cons [] = tt
cl_testing-IsPlain multiplier index cons (exec ∷ rest) =
    All-append IsPlain (build_copies multiplier index exec cons) _
      (build_copies-IsPlain multiplier index exec cons)
      (cl_testing-IsPlain multiplier (index + multiplier) cons rest)

numbered-IsPlain : (index : ℕ) (qs : List Pair) → All IsPlain (numbered index qs)
numbered-IsPlain index [] = tt
numbered-IsPlain index ((exec, cons) ∷ rest) =
    (build_node-IsPlain index exec cons, numbered-IsPlain (index + 1) rest)

bootnode-IsPlain :
    (boot_el boot_cl : String) (exec_map cons_map : Dict ClientVersion) (bootnode : Node)
    → compose_bootnode boot_el boot_cl exec_map cons_map ≡ ok bootnode
    → IsPlain bootnode
unfolding compose_bootnode
bootnode-IsPlain boot_el boot_cl exec_map cons_map bootnode e =
    let (exec, _, f₁) =
      ok_of_bind (or_fail (lookup boot_el exec_map) "unable to load configuration for exec client")
        _ e in
    let (cons, _, f₂) =
      ok_of_bind (or_fail (lookup boot_cl cons_map) "unable to load configuration for exec client")
        _ f₁ in
    subst IsPlain (ok-injective f₂) (build_node-IsPlain 1 exec cons)

tested-IsPlain :
    (t : TopologyConfig) (client : String) (execs conss : List ClientVersion)
    (exec_map cons_map : Dict ClientVersion) (nodes : List Node)
    → nodes_to_test t client execs conss exec_map cons_map ≡ ok nodes
    → All IsPlain nodes
unfolding nodes_to_test compose_exec_tester_network compose_consensus_tester_network
tested-IsPlain t client execs conss exec_map cons_map nodes e =
    elim (Bool-cases (is_client_of client execs)) [
      | inl f ↦
          let (c, _, g) =
            ok_of_bind (or_fail (lookup client exec_map) "unknown execution client") _
              (rw f at e) in
          subst (All IsPlain) (ok-injective g) (el_testing-IsPlain (node_multiplier t) 2 c conss)
      | inr f ↦
          let (c, _, g) =
            ok_of_bind (or_fail (lookup client cons_map) "unknown consensus client") _
              (rw f at e) in
          subst (All IsPlain) (ok-injective g) (cl_testing-IsPlain (node_multiplier t) 2 c execs)
    ]

topology-IsPlain :
    (fuel : ℕ) (t : TopologyConfig) (client : String) (execs conss : List ClientVersion)
    (nodes : List Node)
    → compose_network_topology fuel t client execs conss ≡ ok nodes
    → All IsPlain nodes
topology-IsPlain fuel t client execs conss nodes e =
    let (exec_map, cons_map, bootnode, tested, final, extra, _, e₂, e₃, _, e₅, e₆) =
      topology-Calls fuel t client execs conss nodes e in
    let (qs, f, _) =
      extra-IsAdded fuel t.targets_as_percent_of_network (length (bootnode ∷ tested) - 1)
        (final.index + 1) client execs conss extra e₅ in
    subst (All IsPlain) (sym e₆) (
      All-append IsPlain (bootnode ∷ tested) extra
        (
          bootnode-IsPlain t.bootnode_el t.bootnode_cl exec_map cons_map bootnode e₂,
          tested-IsPlain t client execs conss exec_map cons_map tested e₃,
        )
        (subst (All IsPlain) (sym f) (numbered-IsPlain (final.index + 1) qs)))

-- A network that was composed and written reads back, where the YAML of its configuration does, as
-- the same nodes in the same order, but for the votes, which are set to the configured number of
-- keys, and the images of the validators, which are lost.
pub planned_roundtrip :
    (yaml : NetworkYaml) (fuel : ℕ) (t : TopologyConfig) (client : String)
    (execs conss : List ClientVersion) (nodes : List Node) (config : GenesisConfig) (text : String)
    → (yaml.marshal (eth_kurtosis_config nodes config) ≡ some text
        → yaml.unmarshal text ≡ some (eth_kurtosis_config nodes config))
    → compose_network_topology fuel t client execs conss ≡ ok nodes
    → serialize_network_topology yaml nodes config ≡ ok text
    → deserialize_network_topology yaml text
      ≡ ok (map (restored config.num_val_keys_per_node) nodes)
unfolding serialize_network_topology deserialize_network_topology eth_kurtosis_config
planned_roundtrip yaml fuel t client execs conss nodes config text reads e s =
    let (_, _, _, _, numbered, _, _, _, _, _) = topology_roles fuel t client execs conss nodes e in
    let read = reads (some_of_or_fail (yaml.marshal (eth_kurtosis_config nodes config)) _ s) in
    rw read (
      ap ok (
        nodes_of-serialize_nodes config.num_val_keys_per_node 1 nodes numbered
          (topology-IsPlain fuel t client execs conss nodes e)))
