-- ===== src/Plan/Network/Calls.antt =====
-- The calls of ComposeNetworkTopology in pkg/plan/network/network_builder.go that lead to a network.
use attacknet.Base.{
  some_of_or_crash, ℕ, ◌+◌, ◌-◌, ◌≡◌, sym, some, inl, inr, List, ◌∷◌, ◌++◌, length, last?, String,
  ok, or_crash, ok_of_bind, ok-injective, Bool-cases, index_out_of_range,
}
use attacknet.Base.Dict.{Dict}
use attacknet.Base.Text.{str_eq}
use attacknet.Plan.Network.Nodes.{ClientVersion, Node, TopologyConfig, compose_bootnode}
use attacknet.Plan.Network.Extra.{compose_nodes_to_satisfy_target_percent}
use attacknet.Plan.Network.Topology.{client_lists_to_maps, nodes_to_test, compose_network_topology}

-- The calls behind a network that is composed.
abbrev pub Calls :
    ℕ → TopologyConfig → String → List ClientVersion → List ClientVersion → List Node → Type 0
Calls fuel t client execs conss nodes =
    (exec_map : Dict ClientVersion) × (cons_map : Dict ClientVersion) × (bootnode : Node)
    × (tested : List Node) × (final : Node) × (extra : List Node) × (client_lists_to_maps execs
          conss
        ≡ ok (exec_map, cons_map))
    × (compose_bootnode t.bootnode_el t.bootnode_cl exec_map cons_map ≡ ok bootnode)
    × (nodes_to_test t client execs conss exec_map cons_map ≡ ok tested)
    × (last? (bootnode ∷ tested) ≡ some final)
    × (compose_nodes_to_satisfy_target_percent fuel t.targets_as_percent_of_network
          (length (bootnode ∷ tested) - 1) (final.index + 1) client execs conss
        ≡ ok extra)
    × (nodes ≡ (bootnode ∷ tested) ++ extra)

pub topology-Calls :
    (fuel : ℕ) (t : TopologyConfig) (client : String) (execs conss : List ClientVersion)
    (nodes : List Node)
    → compose_network_topology fuel t client execs conss ≡ ok nodes
    → Calls fuel t client execs conss nodes
unfolding compose_network_topology
topology-Calls fuel t client execs conss nodes e = elim (Bool-cases (str_eq client "all")) [
  | inl f ↦ absurd (cc (rw f at e))
  | inr f ↦
      let ((exec_map, cons_map), e₁, f₁) =
        ok_of_bind (client_lists_to_maps execs conss) _ (rw f at e) in
      let (bootnode, e₂, f₂) =
        ok_of_bind (compose_bootnode t.bootnode_el t.bootnode_cl exec_map cons_map) _ f₁ in
      let (tested, e₃, f₃) =
        ok_of_bind (nodes_to_test t client execs conss exec_map cons_map) _ f₂ in
      let (final, e₄, f₄) =
        ok_of_bind (or_crash (last? (bootnode ∷ tested)) index_out_of_range) _ f₃ in
      let (extra, e₅, f₅) =
        ok_of_bind
          (compose_nodes_to_satisfy_target_percent fuel t.targets_as_percent_of_network
            (length (bootnode ∷ tested) - 1) (final.index + 1) client execs conss)
          _ f₄ in
      (
        exec_map,
        cons_map,
        bootnode,
        tested,
        final,
        extra,
        e₁,
        e₂,
        e₃,
        some_of_or_crash (last? (bootnode ∷ tested)) index_out_of_range e₄,
        e₅,
        sym (ok-injective f₅),
      )
]
