-- ===== src/Plan/Suite/Tags/Volumes.antt =====
-- The volume that an i/o fault names for the pod of a tag: getVolumePathForIOFault of
-- pkg/plan/suite/faults.go on the tags of step_builder.go.
use attacknet.Base.{
  ◌≡◌, ◌≢◌, refl, ap, ◌∙◌, ℕ, List, [], ◌∷◌, arith, String, ok, false, last?, some, IsOrderly,
  Bool-cases, inl, inr,
}
use attacknet.Base.Text.{◌++◌, str_eq, eq_iff, split, split_dash, split-Lacks, split_cons, Lacks}
use attacknet.Plan.Network.Nodes.{Node}
use attacknet.Plan.Suite.Faults.{volume_path_for_io_fault}
use attacknet.Plan.Suite.Tags.{
  ClientType, execution, consensus, validator, other_client, node_number_text, joined_tag,
  convert_to_node_id_tag,
}
use attacknet.Plan.Suite.Tags.Identity.{split-joined_tag, Lacks-node_number_text, IsKnown}

-- A tag of dash-free names has four parts.
four_parts :
    (prefix number first second : String)
    → Lacks b'-' prefix
    → Lacks b'-' number
    → Lacks b'-' first
    → Lacks b'-' second
    → split b'-' (joined_tag prefix number first second) ≡ prefix ∷ number ∷ first ∷ second ∷ []
four_parts prefix number first second hp hn hf hs =
    split-joined_tag prefix number first second hp hn
    ∙ ap (λ parts. prefix ∷ number ∷ parts)
        (split_dash first second hf ∙ ap (λ parts. first ∷ parts) (split-Lacks b'-' second hs))

str_eq-ne : (s t : String) → s ≢ t → str_eq s t ≡ false
str_eq-ne s t h = ground (arith, eq_iff s t)

-- Pods of a node whose client names hold no dash and are not "validator": the fault names the
-- execution client's volume for the execution pod, the consensus client's for the consensus pod,
-- and the consensus client's for the validator pod too, which is not refused.
pub volume_path-tag :
    (count : ℕ) (node : Node)
    → Lacks b'-' node.execution.type
    → Lacks b'-' node.consensus.type
    → node.execution.type ≢ "validator"
    → node.consensus.type ≢ "validator"
    → (volume_path_for_io_fault (convert_to_node_id_tag count node execution)
        ≡ ok ("/data/" ++ (node.execution.type ++ ("/" ++ ("execution" ++ "-data")))))
      × (volume_path_for_io_fault (convert_to_node_id_tag count node consensus)
          ≡ ok ("/data/" ++ (node.consensus.type ++ ("/" ++ ("consensus" ++ "-data")))))
      × (volume_path_for_io_fault (convert_to_node_id_tag count node validator)
          ≡ ok ("/data/" ++ (node.consensus.type ++ ("/" ++ ("consensus" ++ "-data")))))
unfolding convert_to_node_id_tag volume_path_for_io_fault
volume_path-tag count node hel hcl nel ncl =
    let number = node_number_text count node.index in
    let hn = Lacks-node_number_text count node.index in
    let el = node.execution.type in
    let cl = node.consensus.type in
    (
      rw (four_parts "el" number el cl (omega arith) hn hel hcl, str_eq-ne cl "validator" ncl),
      rw (four_parts "cl" number cl el (omega arith) hn hcl hel, str_eq-ne el "validator" nel),
      rw (four_parts "val" number cl el (omega arith) hn hcl hel, str_eq-ne el "validator" nel),
    )

last?-cons : (x : String) (xs : List String) → (y : String) × (last? (x ∷ xs) ≡ some y)
last?-cons x [] = (x, refl)
last?-cons x (y ∷ ys) = last?-cons y ys

-- A name of at least three parts gets a volume or is refused.
volume_path-IsOrderly :
    (name a b c : String) (parts : List String)
    → split b'-' name ≡ a ∷ b ∷ c ∷ parts
    → IsOrderly (volume_path_for_io_fault name)
unfolding volume_path_for_io_fault
volume_path-IsOrderly name a b c parts e =
    let (final, f) = last?-cons c parts in
    rw (e, f) (elim (Bool-cases (str_eq final "validator")) [ inl g ↦ rw g tt | inr g ↦ rw g tt ])

joined_tag-IsOrderly :
    (prefix number first second : String)
    → Lacks b'-' prefix
    → Lacks b'-' number
    → IsOrderly (volume_path_for_io_fault (joined_tag prefix number first second))
joined_tag-IsOrderly prefix number first second hp hn =
    let (part, parts, e) = split_cons b'-' (first ++ ("-" ++ second)) in
    volume_path-IsOrderly (joined_tag prefix number first second) prefix number part parts
      (split-joined_tag prefix number first second hp hn ∙ ap (λ rest. prefix ∷ number ∷ rest) e)

-- The tag of every pod has that many parts, whatever the clients are called.
pub tag-IsOrderly :
    (count : ℕ) (node : Node) (client : ClientType)
    → IsKnown client
    → IsOrderly (volume_path_for_io_fault (convert_to_node_id_tag count node client))
unfolding convert_to_node_id_tag
tag-IsOrderly count node execution k =
    joined_tag-IsOrderly "el" _ _ _ (omega arith) (Lacks-node_number_text count node.index)
tag-IsOrderly count node consensus k =
    joined_tag-IsOrderly "cl" _ _ _ (omega arith) (Lacks-node_number_text count node.index)
tag-IsOrderly count node validator k =
    joined_tag-IsOrderly "val" _ _ _ (omega arith) (Lacks-node_number_text count node.index)
tag-IsOrderly count node (other_client _) k = absurd k
