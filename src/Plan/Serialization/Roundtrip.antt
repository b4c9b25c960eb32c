-- ===== src/Plan/Serialization/Roundtrip.antt =====
-- Reading back the network that SerializeNetworkTopology of pkg/plan/serialization.go writes.
use attacknet.Base.{
  ℕ, suc, ◌+◌, ◌≡◌, refl, sym, subst, Bool, true, false, not, List, [], ◌∷◌, map, All, ◌==◌, arith,
  Bool-cases, inl, inr, String, if◌then◌else◌,
}
use attacknet.Base.Text.{contains, split_cons, Lacks-split, contains_comma}
use attacknet.Plan.Network.Nodes.{
  ClientVersion, Node, build_node, compose_execution_client, compose_consensus_client,
  consensus_image, validator_image,
}
use attacknet.Plan.Network.Roles.{IsNumbered}
use attacknet.Plan.Serialization.{participant_of, serialize_nodes, node_of, nodes_of}

-- What the planner gives its nodes: no labels, a sidecar with a share of the processor or none
-- without, and a single consensus image.
abbrev pub IsPlain : Node → Type 0
IsPlain node =
    (node.execution.extra_labels ≡ [])
    × (node.consensus.extra_labels ≡ [])
    × (not (node.consensus.sidecar_cpu_required == 0) ≡ node.consensus.has_validator_sidecar)
    × (contains node.consensus.image "," ≡ false)

-- The node as it is read back: the votes are the network's, and the image of the validator is lost.
abbrev pub restored : ℕ → Node → Node
restored votes node = record node {
  consensus = record node.consensus { validator_image = "" };
  consensus_votes = votes;
}

same_either_way : (b : Bool) (x y : String) → y ≡ x → (if b then y else x) ≡ x
same_either_way true x y h = h
same_either_way false x y h = refl

consensus_image_single :
    (image : String) → contains image "," ≡ false → consensus_image image ≡ image
unfolding consensus_image
consensus_image_single image h = rw (consensus_image, h) refl

validator_image_single : (image : String) → contains image "," ≡ false → validator_image image ≡ ""
unfolding validator_image
validator_image_single image h = rw (validator_image, h) refl

node_of-participant_of :
    (votes index : ℕ) (node : Node)
    → node.index ≡ index
    → IsPlain node
    → node_of votes index (participant_of node) ≡ restored votes node
unfolding node_of participant_of
node_of-participant_of votes index node at_index (el, cl, sidecar, single) =
    let image = node.consensus.image in
    let has_sidecar = not (node.consensus.sidecar_cpu_required == 0) in
    let first =
      same_either_way has_sidecar image (consensus_image image)
        (consensus_image_single image single) in
    let second =
      same_either_way has_sidecar "" (validator_image image)
        (validator_image_single image single) in
    λ k. record {
      index = sym at_index k;
      execution = record node.execution { extra_labels = sym el k };
      consensus = record node.consensus {
        image = first k;
        has_validator_sidecar = sidecar k;
        validator_image = second k;
        extra_labels = sym cl k;
      };
      consensus_votes = votes;
    }

pub nodes_of-serialize_nodes :
    (votes index : ℕ) (nodes : List Node)
    → IsNumbered index nodes
    → All IsPlain nodes
    → nodes_of votes index (serialize_nodes nodes) ≡ map (restored votes) nodes
unfolding nodes_of serialize_nodes
nodes_of-serialize_nodes votes index [] n p = refl
nodes_of-serialize_nodes votes index (node ∷ rest) n p =
    let e : suc index ≡ index + 1 = omega arith in
    λ k.
      node_of-participant_of votes index node n.0 p.0 k
      ∷ nodes_of-serialize_nodes votes (index + 1) rest (subst (λ j. IsNumbered j rest) e n.1) p.1 k

consensus_image-single : (image : String) → contains (consensus_image image) "," ≡ false
unfolding consensus_image
consensus_image-single image = elim (Bool-cases (contains image ",")) [
  | inl e ↦
      let (first, others, f) = split_cons b',' image in
      rw (consensus_image, e, f) (contains_comma first (Lacks-split b',' image first others f))
  | inr e ↦ rw (consensus_image, e) e
]

pub build_node-IsPlain :
    (index : ℕ) (exec cons : ClientVersion) → IsPlain (build_node index exec cons)
unfolding build_node compose_execution_client compose_consensus_client
build_node-IsPlain index exec cons = elim (Bool-cases cons.has_sidecar) [
  | inl e ↦ simp e (refl, refl, refl, consensus_image-single cons.image)
  | inr e ↦ simp e (refl, refl, refl, consensus_image-single cons.image)
]
