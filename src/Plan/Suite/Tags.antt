-- ===== src/Plan/Suite/Tags.antt =====
-- pkg/plan/suite/step_builder.go: the tag by which a pod of a node is known in the network.
pub mod Identity
pub mod Volumes
use attacknet.Base.{ℕ, ltb, if◌then◌else◌, String}
use attacknet.Base.Text.{◌++◌}
use attacknet.Golang.Decimal.{itoa, padded}
use attacknet.Plan.Network.Nodes.{Node}

-- The clientType of the source; `other_client` is a text that is none of its constants.
pub data ClientType : Type 0 where
  execution consensus validator : ClientType
  other_client : String → ClientType

-- nodeNumStr: the index, padded to the width that the network's size asks for.
unfoldable pub node_number_text : ℕ → ℕ → String
unfolding itoa padded
node_number_text network_node_count index =
    if ltb network_node_count 10
    then itoa index
    else if ltb network_node_count 100
    then padded 2 index
    else padded 3 index

unfoldable pub joined_tag : String → String → String → String → String
joined_tag prefix number first second =
    prefix ++ ("-" ++ (number ++ ("-" ++ (first ++ ("-" ++ second)))))

unfoldable pub convert_to_node_id_tag : ℕ → Node → ClientType → String
unfolding node_number_text joined_tag
convert_to_node_id_tag count node execution =
    joined_tag "el" (node_number_text count node.index) node.execution.type node.consensus.type
convert_to_node_id_tag count node consensus =
    joined_tag "cl" (node_number_text count node.index) node.consensus.type node.execution.type
convert_to_node_id_tag count node validator =
    joined_tag "val" (node_number_text count node.index) node.consensus.type node.execution.type
convert_to_node_id_tag count node (other_client _) = ""
