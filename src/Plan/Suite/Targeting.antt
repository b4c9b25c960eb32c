-- ===== src/Plan/Suite/Targeting.antt =====
-- pkg/plan/suite/targeting.go: which nodes an attack hits, and the selectors for their pods.
pub mod Scope
pub mod Choice
use attacknet.Base.{
  ℕ, zero, suc, ◌+◌, ◌*◌, ◌^◌, Bool, true, false, ◌&&◌, ◌||◌, Option, none, some, List, [], ◌∷◌,
  ◌++◌, length, map, is_nil, ltb, ◌==◌, if◌then◌else◌, String, Outcome, ok, err, crash, failure,
  cannot_meet, or_crash, index_out_of_range, unspecified_conversion, ◌>>=◌,
}
use attacknet.Base.Int.{ℤ, pos_part}
use attacknet.Base.Text.{◌++◌ as append, str_eq}
use attacknet.Golang.Float.{Float, float32, constant, of_ℕ, mul, div, lt, le, to_int}
use attacknet.Golang.Decimal.{itoa}
use attacknet.Plan.Network.Nodes.{Node}
use attacknet.Plan.Suite.Kinds.{
  AttackSize, attack_one, attack_all, attack_minority, attack_superminority, attack_majority,
  attack_supermajority, other_size, attack_size_text, TargetingSpec, target_matching_node,
  target_matching_client, other_targeting,
}
use attacknet.Plan.Suite.Faults.{ChaosExpressionSelector}
use attacknet.Plan.Suite.Tags.{convert_to_node_id_tag, execution, consensus, validator}

pub record ChaosTargetSelector : Type 0 where
  pub selector : List ChaosExpressionSelector
  pub description : String

abbrev pub NodeFilterCriteria : Type 0
NodeFilterCriteria = Node → Bool

abbrev pub TargetCriteriaFilter : Type 0
TargetCriteriaFilter = AttackSize → ℕ → List Node → Outcome (List Node)

abbrev pub NodeImpactSelector : Type 0
NodeImpactSelector = ℕ → Node → ChaosTargetSelector

unfoldable pub filter_nodes : List Node → NodeFilterCriteria → List Node
filter_nodes [] criteria = []
filter_nodes (n ∷ rest) criteria =
    let kept = filter_nodes rest criteria in if criteria n then n ∷ kept else kept

-- int(networkSizeFloat * percent / 100); the product is not negative.
unfoldable pub percent_of : ℕ → ℕ → Outcome ℕ
unfolding mul constant of_ℕ to_int
percent_of percent network_size = do
  n ←
      or_crash
        (to_int float32 (mul float32 (of_ℕ float32 network_size) (constant float32 percent 100)))
        unspecified_conversion
  ok (pos_part n)

-- float32(nodesToTarget)/networkSizeFloat
unfoldable pub share : ℕ → ℕ → Float
unfolding div of_ℕ
share nodes network_size = div float32 (of_ℕ float32 nodes) (of_ℕ float32 network_size)

abbrev pub bump_if : Bool → ℕ → ℕ
bump_if b n = if b then n + 1 else n

-- The error unless the attack size can be met.
unfoldable pub unless_unmet : AttackSize → ℕ → Bool → ℕ → Outcome ℕ
unfolding attack_size_text
unless_unmet size count unmet nodes =
    if unmet then err (cannot_meet (attack_size_text size) count) else ok nodes

-- The switch on the attack size: how many of `targetable` nodes to hit in the network.
unfoldable pub nodes_to_target : AttackSize → ℕ → ℕ → Outcome ℕ
unfolding unless_unmet
nodes_to_target attack_one network_size targetable = ok 1
nodes_to_target attack_all network_size targetable = ok targetable
nodes_to_target attack_minority network_size targetable = do
  n ← percent_of 32 network_size
  unless_unmet attack_minority network_size (ltb targetable n) n
nodes_to_target attack_superminority network_size targetable = do
  n₀ ← percent_of 34 network_size
  let n = bump_if (lt (share n₀ network_size) (constant float32 333333333 (10 ^ 9))) n₀
  unless_unmet attack_superminority network_size
      (le (constant float32 50 100) (share n network_size) || ltb targetable n) n
nodes_to_target attack_majority network_size targetable = do
  n₀ ← percent_of 51 network_size
  let n = bump_if (le (share n₀ network_size) (constant float32 50 100)) n₀
  unless_unmet attack_majority network_size
      (le (constant float32 66 100) (share n network_size) || ltb targetable n) n
nodes_to_target attack_supermajority network_size targetable = do
  n₀ ← percent_of 67 network_size
  let n = bump_if (le (share n₀ network_size) (constant float32 666666666 (10 ^ 9))) n₀
  unless_unmet attack_supermajority network_size
      (lt (constant float32 1 1) (share n network_size) || ltb targetable n) n
nodes_to_target (other_size _) network_size targetable = ok 0

-- The loop that copies `targetable[0]` up to `targetable[n - 1]`.
unfoldable pub first_targets : ℕ → List Node → Outcome (List Node)
first_targets zero targetable = ok []
first_targets (suc n) [] = crash index_out_of_range
first_targets (suc n) (node ∷ rest) = do more ← first_targets n rest; ok (node ∷ more)

unfoldable pub choose_targets_using_attack_size : AttackSize → ℕ → List Node → Outcome (List Node)
unfolding first_targets unless_unmet
choose_targets_using_attack_size size network_size targetable = do
  n ← nodes_to_target size network_size (length targetable)
  nodes ← unless_unmet size (length targetable) (n == 0) n
  first_targets nodes targetable

unfoldable pub filter_nodes_by_exec_client : String → TargetCriteriaFilter
unfolding filter_nodes choose_targets_using_attack_size
filter_nodes_by_exec_client el_client_type size targetable_set_size nodes =
    let targetable_nodes = filter_nodes nodes (λ n. str_eq n.execution.type el_client_type) in
    if is_nil targetable_nodes
    then err (failure "unable to satisfy targeting constraint")
    else choose_targets_using_attack_size size targetable_set_size targetable_nodes

unfoldable pub filter_nodes_by_consensus_client : String → TargetCriteriaFilter
unfolding filter_nodes choose_targets_using_attack_size
filter_nodes_by_consensus_client cl_client_type size targetable_set_size nodes =
    choose_targets_using_attack_size size targetable_set_size
      (filter_nodes nodes (λ n. str_eq n.consensus.type cl_client_type))

unfoldable pub filter_nodes_by_client_combo : String → String → TargetCriteriaFilter
unfolding filter_nodes choose_targets_using_attack_size
filter_nodes_by_client_combo el_client_type cl_client_type size targetable_set_size nodes =
    choose_targets_using_attack_size size targetable_set_size (
      filter_nodes nodes
        (λ n. str_eq n.consensus.type cl_client_type && str_eq n.execution.type el_client_type))

unfoldable pub build_node_filtering_lambda : String → Bool → TargetCriteriaFilter
unfolding filter_nodes_by_exec_client filter_nodes_by_consensus_client
build_node_filtering_lambda client_type is_exec_client =
    if is_exec_client
    then filter_nodes_by_exec_client client_type
    else filter_nodes_by_consensus_client client_type

-- "<el>/<cl> Node (Node #<index>)"
unfoldable pub node_text : Node → String
node_text node = append node.execution.type (
    append "/" (append node.consensus.type (append " Node (Node #" (append (itoa node.index) ")"))))

abbrev pub selector_of : List String → List ChaosExpressionSelector
selector_of targets = record { key = "kurtosistech.com/id"; operator = "In"; values = targets } ∷ []

-- The tags of the consensus client, and of its validator where it has one.
unfoldable pub consensus_tags : ℕ → Node → List String
consensus_tags count node =
    convert_to_node_id_tag count node consensus
    ∷ (if node.consensus.has_validator_sidecar
        then convert_to_node_id_tag count node validator ∷ []
        else [])

unfoldable pub create_target_selector_for_node : NodeImpactSelector
unfolding consensus_tags node_text
create_target_selector_for_node count node = record {
  selector = selector_of (convert_to_node_id_tag count node execution ∷ consensus_tags count node);
  description = node_text node;
}

unfoldable pub create_target_selector_for_exec_client : NodeImpactSelector
unfolding node_text
create_target_selector_for_exec_client count node = record {
  selector = selector_of (convert_to_node_id_tag count node execution ∷ []);
  description = append node.execution.type (append " client of " (node_text node));
}

unfoldable pub create_target_selector_for_consensus_client : NodeImpactSelector
unfolding consensus_tags node_text
create_target_selector_for_consensus_client count node = record {
  selector = selector_of (consensus_tags count node);
  description = append node.consensus.type (append " client of " (node_text node));
}

unfoldable pub target_spec_enum_to_lambda : TargetingSpec → Bool → Outcome NodeImpactSelector
target_spec_enum_to_lambda target_matching_node is_exec_client = ok create_target_selector_for_node
target_spec_enum_to_lambda target_matching_client is_exec_client =
    if is_exec_client
    then ok create_target_selector_for_exec_client
    else ok create_target_selector_for_consensus_client
target_spec_enum_to_lambda (other_targeting _) is_exec_client =
    err (failure "target selector not supported")

unfoldable pub build_chaos_mesh_target_selectors :
    ℕ
    → List Node
    → AttackSize
    → TargetCriteriaFilter
    → NodeImpactSelector
    → Outcome (List ChaosTargetSelector)
build_chaos_mesh_target_selectors count nodes size target_criteria impact_selector = do
  targets ← target_criteria size (length nodes + 1) nodes
  ok (map (impact_selector count) targets)
