-- ===== src/Plan/Network/Composed.antt =====
-- The network that ComposeNetworkTopology of pkg/plan/network/network_builder.go gives.
use attacknet.Base.{
  some_of_or_fail, ℕ, suc, ◌+◌, ◌-◌, ◌*◌, ◌≡◌, ◌≢◌, refl, sym, ap, ◌∙◌, subst, true, false, some,
  inl, inr, List, [], ◌∷◌, ◌++◌, length, last?, All, String, ok, or_fail, ok_of_bind, ok-injective,
  arith, Bool-cases, if◌then◌else◌,
}
use attacknet.Base.Dict.{Dict, lookup}
use attacknet.Plan.Network.Nodes.{
  ClientVersion, Node, TopologyConfig, build_node, compose_bootnode, compose_nodes_for_el_testing,
  compose_nodes_for_cl_testing, compose_exec_tester_network, compose_consensus_tester_network,
}
use attacknet.Plan.Network.Extra.{compose_nodes_to_satisfy_target_percent}
use attacknet.Plan.Network.Extra.Pairs.{Pair, numbered}
use attacknet.Plan.Network.Extra.Added.{IsEligible, extra-IsAdded}
use attacknet.Plan.Network.Topology.{
  populate_client_map, client_lists_to_maps, is_client_of, node_multiplier, nodes_to_test,
  compose_network_topology,
}
use attacknet.Plan.Network.Roles.{
  IsNumbered, IsNumbered-append, RunsBoth, build_node-RunsBoth, Runs, PairedWith, IsTested,
  el_testing-IsTested, cl_testing-IsTested, IsFiled, populate_client_map-IsFiled,
}
use attacknet.Plan.Network.Calls.{topology-Calls}

-- Neither client of the node is the one under test.
abbrev pub Spares : String → Node → Type 0
Spares client node = (node.execution.type ≢ client) × (node.consensus.type ≢ client)

numbered-Spares :
    (client : String) (index : ℕ) (qs : List Pair)
    → All (IsEligible client) qs
    → All (Spares client) (numbered index qs)
numbered-Spares client index [] h = tt
numbered-Spares client index ((exec, cons) ∷ rest) h =
    let (e, c) = build_node-RunsBoth index exec cons in
    ((λ f. h.0.0 (sym e ∙ f), λ f. h.0.1 (sym c ∙ f)), numbered-Spares client (index + 1) rest h.1)

numbered-IsNumbered : (index : ℕ) (qs : List Pair) → IsNumbered index (numbered index qs)
unfolding build_node
numbered-IsNumbered index [] = tt
numbered-IsNumbered index ((exec, cons) ∷ rest) =
    let e : index + 1 ≡ suc index = omega arith in
    (
      refl,
      subst (λ i. IsNumbered i (numbered (index + 1) rest)) e
          (numbered-IsNumbered (index + 1) rest),
    )

last-IsNumbered :
    (index : ℕ) (nodes : List Node) (final : Node)
    → IsNumbered index nodes
    → last? nodes ≡ some final
    → final.index + 1 ≡ index + length nodes
last-IsNumbered index [] final h e = cc
last-IsNumbered index (node ∷ []) final h e =
    let f : node ≡ final = cc in omega (arith, h.0, ap (λ n. n.index) f)
last-IsNumbered index (node ∷ next ∷ rest) final h e =
    omega (arith, last-IsNumbered (suc index) (next ∷ rest) final h.1 e)

maps-IsFiled :
    (execs conss : List ClientVersion) (exec_map cons_map : Dict ClientVersion)
    → client_lists_to_maps execs conss ≡ ok (exec_map, cons_map)
    → IsFiled exec_map × IsFiled cons_map
unfolding client_lists_to_maps lookup
maps-IsFiled execs conss exec_map cons_map e =
    let (m, e₁, f₁) = ok_of_bind (populate_client_map [] execs) _ e in
    let (m', e₂, f₂) = ok_of_bind (populate_client_map [] conss) _ f₁ in
    let nothing : IsFiled [] = λ key c g. cc in
    let g = ok-injective f₂ in
    subst (λ p. IsFiled p.0 × IsFiled p.1) g
      (
        populate_client_map-IsFiled [] execs m nothing e₁,
        populate_client_map-IsFiled [] conss m' nothing e₂,
      )

-- The lists of clients that the one under test is paired with.
abbrev pub partners : String → List ClientVersion → List ClientVersion → List ClientVersion
partners client execs conss = if is_client_of client execs then conss else execs

tested_lem :
    (t : TopologyConfig) (client : String) (execs conss : List ClientVersion)
    (exec_map cons_map : Dict ClientVersion) (nodes : List Node)
    → IsFiled exec_map
    → IsFiled cons_map
    → nodes_to_test t client execs conss exec_map cons_map ≡ ok nodes
    → IsTested
        (is_client_of client execs)
        client
        (node_multiplier t)
        (partners client execs conss)
        2
        nodes
unfolding nodes_to_test compose_exec_tester_network compose_consensus_tester_network
tested_lem t client execs conss exec_map cons_map nodes he hc e =
    elim (Bool-cases (is_client_of client execs)) [
      | inl f ↦
          let (c, g, k) =
            ok_of_bind (or_fail (lookup client exec_map) "unknown execution client") _
              (rw f at e) in
          let name =
            he client c (some_of_or_fail (lookup client exec_map) "unknown execution client" g) in
          rw f (
            subst (λ ns. IsTested true client (node_multiplier t) conss 2 ns) (ok-injective k)
              (subst
                (λ s.
                  IsTested true s (node_multiplier t) conss 2
                    (compose_nodes_for_el_testing (node_multiplier t) 2 c conss))
                name (el_testing-IsTested (node_multiplier t) 2 c conss)))
      | inr f ↦
          let (c, g, k) =
            ok_of_bind (or_fail (lookup client cons_map) "unknown consensus client") _
              (rw f at e) in
          let name =
            hc client c (some_of_or_fail (lookup client cons_map) "unknown consensus client" g) in
          rw f (
            subst (λ ns. IsTested false client (node_multiplier t) execs 2 ns) (ok-injective k)
              (subst
                (λ s.
                  IsTested false s (node_multiplier t) execs 2
                    (compose_nodes_for_cl_testing (node_multiplier t) 2 c execs))
                name (cl_testing-IsTested (node_multiplier t) 2 c execs)))
    ]

bootnode_lem :
    (boot_el boot_cl : String) (exec_map cons_map : Dict ClientVersion) (bootnode : Node)
    → IsFiled exec_map
    → IsFiled cons_map
    → compose_bootnode boot_el boot_cl exec_map cons_map ≡ ok bootnode
    → (bootnode.index ≡ 1) × RunsBoth boot_el boot_cl bootnode
unfolding compose_bootnode build_node
bootnode_lem boot_el boot_cl exec_map cons_map bootnode he hc e =
    let (exec, e₁, f₁) =
      ok_of_bind (or_fail (lookup boot_el exec_map) "unable to load configuration for exec client")
        _ e in
    let (cons, e₂, f₂) =
      ok_of_bind (or_fail (lookup boot_cl cons_map) "unable to load configuration for exec client")
        _ f₁ in
    let (a, b) = build_node-RunsBoth 1 exec cons in
    rw (← ok-injective f₂) (
      refl,
      (
        a ∙ he boot_el exec (some_of_or_fail (lookup boot_el exec_map) _ e₁),
        b ∙ hc boot_cl cons (some_of_or_fail (lookup boot_cl cons_map) _ e₂),
      ),
    )

-- The added nodes go on from the last index.
extra_lem :
    (fuel : ℕ) (t : TopologyConfig) (targeted start : ℕ) (client : String)
    (execs conss : List ClientVersion) (extra : List Node)
    → compose_nodes_to_satisfy_target_percent fuel t.targets_as_percent_of_network targeted start
        client execs conss
      ≡ ok extra
    → IsNumbered start extra × All (Spares client) extra
extra_lem fuel t targeted start client execs conss extra e =
    let (qs, f, a) =
      extra-IsAdded fuel t.targets_as_percent_of_network targeted start client execs conss extra
        e in
    subst (λ ns. IsNumbered start ns × All (Spares client) ns) (sym f)
      (numbered-IsNumbered start qs, numbered-Spares client start qs a)

-- The bootnode with the configured pair of clients; then, for each client of the other kind in order, as
-- many nodes as the multiplier says that run the client under test and that one; then nodes that do not
-- run the client under test; with consecutive indices from 1.
abbrev pub HasRoles :
    TopologyConfig → String → List ClientVersion → List ClientVersion → List Node → Type 0
HasRoles t client execs conss nodes =
    (bootnode : Node) × (tested : List Node) × (extra : List Node) × (nodes
      ≡ (bootnode ∷ tested) ++ extra)
    × IsNumbered 1 nodes
    × RunsBoth t.bootnode_el t.bootnode_cl bootnode
    × (length tested ≡ node_multiplier t * length (partners client execs conss))
    × All (Runs (is_client_of client execs) client) tested
    × PairedWith (is_client_of client execs) client (node_multiplier t)
        (partners client execs conss) tested
    × All (Spares client) extra

pub topology_roles :
    (fuel : ℕ) (t : TopologyConfig) (client : String) (execs conss : List ClientVersion)
    (nodes : List Node)
    → compose_network_topology fuel t client execs conss ≡ ok nodes
    → HasRoles t client execs conss nodes
topology_roles fuel t client execs conss nodes e =
    let (exec_map, cons_map, bootnode, tested, final, extra, e₁, e₂, e₃, e₄, e₅, e₆) =
      topology-Calls fuel t client execs conss nodes e in
    let (he, hc) = maps-IsFiled execs conss exec_map cons_map e₁ in
    let (one, both) =
      bootnode_lem t.bootnode_el t.bootnode_cl exec_map cons_map bootnode he hc e₂ in
    let ((n, l, r), paired) = tested_lem t client execs conss exec_map cons_map tested he hc e₃ in
    let next = last-IsNumbered 1 (bootnode ∷ tested) final (one, n) e₄ in
    let (m, s) =
      extra_lem fuel t (length (bootnode ∷ tested) - 1) (final.index + 1) client execs conss extra
        e₅ in
    (
      bootnode,
      tested,
      extra,
      e₆,
      subst (IsNumbered 1) (sym e₆) (
          IsNumbered-append 1 (bootnode ∷ tested) extra (one, n)
            (subst (λ i. IsNumbered i extra) next m)),
      both,
      l,
      r,
      paired,
      s,
    )
