-- ===== src/Plan/Suite/Builder/Selected.antt =====
-- The targets that targeting.go selects for suite_builder.go, and when that panics.
use attacknet.Base.{
  ℕ, ◌+◌, ◌<◌, ◌≡◌, ◌≢◌, Bool, true, false, List, [], ◌∷◌, map, length, All, is_nil, arith, String,
  ok, err, crash, Crash, Outcome, Error, cannot_meet, branch_of, sym, ◌>>=◌, Bool-cases, inl, inr,
  if◌then◌else◌, Outcome-cases, ok_of_bind, ok-injective,
}
use attacknet.Base.Text.{str_eq}
use attacknet.Plan.Network.Nodes.{Node}
use attacknet.Plan.Suite.Kinds.{
  TargetingSpec, target_matching_node, target_matching_client, other_targeting, AttackSize,
  FaultType, fault_io_latency, fault_clock_skew, fault_container_restart, fault_network_latency,
  fault_packet_loss, other_fault,
}
use attacknet.Plan.Suite.Tags.{convert_to_node_id_tag, execution, consensus, validator}
use attacknet.Plan.Suite.Tags.Volumes.{tag-IsOrderly}
use attacknet.Plan.Suite.Targeting.{
  ChaosTargetSelector, TargetCriteriaFilter, NodeImpactSelector, filter_nodes,
  choose_targets_using_attack_size, filter_nodes_by_exec_client, filter_nodes_by_consensus_client,
  build_node_filtering_lambda, consensus_tags, create_target_selector_for_node,
  create_target_selector_for_exec_client, create_target_selector_for_consensus_client,
  target_spec_enum_to_lambda, build_chaos_mesh_target_selectors,
}
use attacknet.Plan.Suite.Targeting.Choice.{choose_crash}
use attacknet.Plan.Suite.Builder.Safety.{IsPodName, IsTarget}
use attacknet.Plan.Suite.Builder.Orderly.{CanTarget}

consensus_tags-IsPodName : (count : ℕ) (node : Node) → All IsPodName (consensus_tags count node)
unfolding consensus_tags
consensus_tags-IsPodName count node =
    (tag-IsOrderly count node consensus tt, sidecar node.consensus.has_validator_sidecar)
  where
    sidecar :
        (b : Bool)
        → All IsPodName (if b then convert_to_node_id_tag count node validator ∷ [] else [])
    sidecar true = (tag-IsOrderly count node validator tt, tt)
    sidecar false = tt

err_of_map :
    (impact : Node → ChaosTargetSelector) (m : Outcome (List Node)) (e : Error)
    → (do nodes ← m; ok (map impact nodes)) ≡ err e
    → m ≡ err e
err_of_map impact (ok nodes) e h = cc
err_of_map impact (err f) e h = cc
err_of_map impact (crash c) e h = cc

-- The selector that a targeting dimension builds for a node names pods only.
pub lambda-IsTarget :
    (spec : TargetingSpec) (is_exec_client : Bool) (impact : NodeImpactSelector)
    → target_spec_enum_to_lambda spec is_exec_client ≡ ok impact
    → (count : ℕ) (node : Node) → IsTarget (impact count node)
unfolding target_spec_enum_to_lambda create_target_selector_for_node
    create_target_selector_for_exec_client create_target_selector_for_consensus_client
lambda-IsTarget target_matching_node is_exec_client impact e count node =
    rw (← ok-injective e)
      ((tag-IsOrderly count node execution tt, consensus_tags-IsPodName count node), tt)
lambda-IsTarget target_matching_client true impact e count node =
    rw (← ok-injective e) ((tag-IsOrderly count node execution tt, tt), tt)
lambda-IsTarget target_matching_client false impact e count node =
    rw (← ok-injective e) (consensus_tags-IsPodName count node, tt)
lambda-IsTarget (other_targeting _) is_exec_client impact e count node = cc

map-IsTarget :
    (impact : Node → ChaosTargetSelector)
    → ((node : Node) → IsTarget (impact node))
    → (nodes : List Node) → All IsTarget (map impact nodes)
map-IsTarget impact h [] = tt
map-IsTarget impact h (node ∷ rest) = (h node, map-IsTarget impact h rest)

pub IsTarget-CanTarget :
    (fault_type : FaultType) (targets : List ChaosTargetSelector)
    → All IsTarget targets
    → CanTarget fault_type targets
IsTarget-CanTarget fault_io_latency targets h = h
IsTarget-CanTarget fault_clock_skew targets h = tt
IsTarget-CanTarget fault_container_restart targets h = tt
IsTarget-CanTarget fault_network_latency targets h = tt
IsTarget-CanTarget fault_packet_loss targets h = tt
IsTarget-CanTarget (other_fault _) targets h = tt

-- Does the node run the client, as its execution client or as its consensus client?
abbrev pub runs : Bool → String → Node → Bool
runs true client node = str_eq node.execution.type client
runs false client node = str_eq node.consensus.type client

-- What the attack size chooses among the nodes that run the client, in a network of one node more.
abbrev pub choice_for : Bool → String → List Node → AttackSize → Outcome (List Node)
choice_for is_exec_client client nodes size =
    choose_targets_using_attack_size size (length nodes + 1)
      (filter_nodes nodes (runs is_exec_client client))

filter-choice :
    (is_exec_client : Bool) (client : String) (nodes chosen : List Node) (size : AttackSize)
    → build_node_filtering_lambda client is_exec_client size (length nodes + 1) nodes ≡ ok chosen
    → choice_for is_exec_client client nodes size ≡ ok chosen
unfolding build_node_filtering_lambda filter_nodes_by_exec_client filter_nodes_by_consensus_client
filter-choice true client nodes chosen size e =
    elim (branch_of (is_nil (filter_nodes nodes (runs true client))) _ _ e) [
      | inl (_, bad) ↦ cc
      | inr (_, good) ↦ good
    ]
filter-choice false client nodes chosen size e = e

filter_unmet :
    (is_exec_client : Bool) (client : String) (nodes : List Node) (size : AttackSize)
    (asked : String) (n : ℕ)
    → build_node_filtering_lambda client is_exec_client size (length nodes + 1) nodes
      ≡ err (cannot_meet asked n)
    → choice_for is_exec_client client nodes size ≡ err (cannot_meet asked n)
unfolding build_node_filtering_lambda filter_nodes_by_exec_client filter_nodes_by_consensus_client
filter_unmet true client nodes size asked n e =
    elim (branch_of (is_nil (filter_nodes nodes (runs true client))) _ _ e) [
      | inl (_, bad) ↦ cc
      | inr (_, good) ↦ good
    ]
filter_unmet false client nodes size asked n e = e

-- The selectors are made for the nodes that the attack size chooses.
pub selectors-choice :
    (is_exec_client : Bool) (client : String) (nodes : List Node) (size : AttackSize)
    (impact : NodeImpactSelector) (targets : List ChaosTargetSelector)
    → build_chaos_mesh_target_selectors
        (length nodes + 1)
        nodes
        size
        (build_node_filtering_lambda client is_exec_client)
        impact
      ≡ ok targets
    → (chosen : List Node) × (choice_for is_exec_client client nodes size ≡ ok chosen)
      × (targets ≡ map (impact (length nodes + 1)) chosen)
unfolding build_chaos_mesh_target_selectors
selectors-choice is_exec_client client nodes size impact targets e =
    let (chosen, c, e₁) =
      ok_of_bind (build_node_filtering_lambda client is_exec_client size (length nodes + 1) nodes) _
        e in
    (chosen, filter-choice is_exec_client client nodes chosen size c, sym (ok-injective e₁))

pub selectors_unmet :
    (is_exec_client : Bool) (client : String) (nodes : List Node) (size : AttackSize)
    (impact : NodeImpactSelector) (asked : String) (n : ℕ)
    → build_chaos_mesh_target_selectors
        (length nodes + 1)
        nodes
        size
        (build_node_filtering_lambda client is_exec_client)
        impact
      ≡ err (cannot_meet asked n)
    → choice_for is_exec_client client nodes size ≡ err (cannot_meet asked n)
unfolding build_chaos_mesh_target_selectors
selectors_unmet is_exec_client client nodes size impact asked n e =
    filter_unmet is_exec_client client nodes size asked n (
      err_of_map (impact (length nodes + 1))
        (build_node_filtering_lambda client is_exec_client size (length nodes + 1) nodes)
        (cannot_meet asked n) e)

-- The client is an execution client, or some node runs it as its consensus client.
abbrev pub CanAttack : String → Bool → List Node → Type 0
CanAttack client true nodes = Unit
CanAttack client false nodes =
    is_nil (filter_nodes nodes (λ n. str_eq n.consensus.type client)) ≡ false

choose-ne-crash :
    (size : AttackSize) (n : ℕ) (nodes : List Node) (c : Crash)
    → 0 < n
    → n < 1024
    → is_nil nodes ≡ false
    → choose_targets_using_attack_size size n nodes ≢ crash c
choose-ne-crash size n [] c pos lt h e = cc
choose-ne-crash size n (node ∷ rest) c pos lt h e =
    let (_, is_empty, _) = (choose_crash size n (node ∷ rest) c pos lt).0 e in cc is_empty

filter-ne-crash :
    (client : String) (is_exec_client : Bool) (nodes : List Node) (size : AttackSize) (n : ℕ)
    (c : Crash)
    → 0 < n
    → n < 1024
    → CanAttack client is_exec_client nodes
    → build_node_filtering_lambda client is_exec_client size n nodes ≢ crash c
unfolding build_node_filtering_lambda filter_nodes_by_exec_client filter_nodes_by_consensus_client
filter-ne-crash client true nodes size n c pos lt h e =
    let found = filter_nodes nodes (λ n. str_eq n.execution.type client) in
    elim (Bool-cases (is_nil found)) [
      | inl f ↦ absurd (cc (rw f at e))
      | inr f ↦ choose-ne-crash size n found c pos lt f (rw f at e)
    ]
filter-ne-crash client false nodes size n c pos lt h e = choose-ne-crash size n _ c pos lt h e

pub selectors-ne-crash :
    (client : String) (is_exec_client : Bool) (nodes : List Node) (impact : NodeImpactSelector)
    (size : AttackSize) (c : Crash)
    → length nodes + 1 < 1024
    → CanAttack client is_exec_client nodes
    → build_chaos_mesh_target_selectors
        (length nodes + 1)
        nodes
        size
        (build_node_filtering_lambda client is_exec_client)
        impact
      ≢ crash c
unfolding build_chaos_mesh_target_selectors
selectors-ne-crash client is_exec_client nodes impact size c lt h e =
    elim (Outcome-cases
      (build_node_filtering_lambda client is_exec_client size (length nodes + 1) nodes)) [
        | inl (targets, f) ↦ cc (rw f at e)
        | inr (inl (er, f)) ↦ cc (rw f at e)
        | inr (inr (d, f)) ↦
            filter-ne-crash client is_exec_client nodes size (length nodes + 1) d (omega arith) lt h
              f
      ]

pub selectors-IsTarget :
    (nodes : List Node) (criteria : TargetCriteriaFilter) (impact : NodeImpactSelector)
    (size : AttackSize) (targets : List ChaosTargetSelector)
    → ((count : ℕ) (node : Node) → IsTarget (impact count node))
    → build_chaos_mesh_target_selectors (length nodes + 1) nodes size criteria impact ≡ ok targets
    → All IsTarget targets
unfolding build_chaos_mesh_target_selectors
selectors-IsTarget nodes criteria impact size targets h e =
    let (chosen, _, f) = ok_of_bind (criteria size (length nodes + 1) nodes) _ e in
    rw (← ok-injective f) (map-IsTarget (impact (length nodes + 1)) (h (length nodes + 1)) chosen)
