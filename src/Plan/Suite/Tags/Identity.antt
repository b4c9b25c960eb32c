-- ===== src/Plan/Suite/Tags/Identity.antt =====
-- The tags of the pods in one network tell the pods apart.
use attacknet.Base.{
  ℕ, ◌≡◌, refl, sym, ap, ◌∙◌, ◌∷◌, Option, none, some, get_elem?, ltb, arith, Bool-cases, inl, inr,
  if◌then◌else◌, String,
}
use attacknet.Base.Text.{◌++◌, str_eq, split, split_dash, Lacks}
use attacknet.Golang.Decimal.{scan}
use attacknet.Golang.Decimal.Laws.{scan-itoa, scan-padded, Lacks-itoa, Lacks-padded}
use attacknet.Plan.Network.Nodes.{Node}
use attacknet.Plan.Suite.Tags.{
  ClientType, execution, consensus, validator, other_client, node_number_text, joined_tag,
  convert_to_node_id_tag,
}

-- The number of a tag reads back as the node's index.
scan-node_number_text : (count index : ℕ) → scan 0 (node_number_text count index) ≡ some index
unfolding node_number_text
scan-node_number_text count index = elim (Bool-cases (ltb count 10)) [
  | inl e ↦ rw e (scan-itoa index)
  | inr e ↦ rw e (elim (Bool-cases (ltb count 100)) [
    | inl f ↦ rw f (scan-padded 2 index)
    | inr f ↦ rw f (scan-padded 3 index)
  ])
]

pub Lacks-node_number_text : (count index : ℕ) → Lacks b'-' (node_number_text count index)
unfolding node_number_text
Lacks-node_number_text count index = elim (Bool-cases (ltb count 10)) [
  | inl e ↦ rw e (Lacks-itoa index)
  | inr e ↦ rw e (elim (Bool-cases (ltb count 100)) [
    | inl f ↦ rw f (Lacks-padded 2 index)
    | inr f ↦ rw f (Lacks-padded 3 index)
  ])
]

-- A tag splits at its dashes into the prefix, the number and the parts of the two names.
pub split-joined_tag :
    (prefix number first second : String)
    → Lacks b'-' prefix
    → Lacks b'-' number
    → split b'-' (joined_tag prefix number first second)
      ≡ prefix ∷ number ∷ split b'-' (first ++ ("-" ++ second))
unfolding joined_tag
split-joined_tag prefix number first second hp hn =
    split_dash prefix (number ++ ("-" ++ (first ++ ("-" ++ second)))) hp
    ∙ ap (λ parts. prefix ∷ parts) (split_dash number (first ++ ("-" ++ second)) hn)

abbrev prefix_of : ClientType → String
prefix_of execution = "el"
prefix_of consensus = "cl"
prefix_of validator = "val"
prefix_of (other_client _) = ""

abbrev pub IsKnown : ClientType → Type 0
IsKnown (other_client _) = ⊥
IsKnown _ = Unit

-- The first two parts of a tag.
tag_head :
    (count : ℕ) (node : Node) (client : ClientType)
    → IsKnown client
    → let parts = split b'-' (convert_to_node_id_tag count node client) in
      (get_elem? parts 0 ≡ some (prefix_of client))
      × (get_elem? parts 1 ≡ some (node_number_text count node.index))
unfolding convert_to_node_id_tag
tag_head count node execution k =
    rw
      (split-joined_tag "el" (node_number_text count node.index) node.execution.type
        node.consensus.type (omega arith) (Lacks-node_number_text count node.index))
      (refl, refl)
tag_head count node consensus k =
    rw
      (split-joined_tag "cl" (node_number_text count node.index) node.consensus.type
        node.execution.type (omega arith) (Lacks-node_number_text count node.index))
      (refl, refl)
tag_head count node validator k =
    rw
      (split-joined_tag "val" (node_number_text count node.index) node.consensus.type
        node.execution.type (omega arith) (Lacks-node_number_text count node.index))
      (refl, refl)
tag_head count node (other_client _) k = absurd k

client_of : Option String → ClientType
client_of none = execution
client_of (some s) =
    if str_eq s "el"
    then execution
    else if str_eq s "cl"
    then consensus
    else if str_eq s "val"
    then validator
    else other_client s

client_of-prefix_of : (c : ClientType) → IsKnown c → client_of (some (prefix_of c)) ≡ c
unfolding client_of
client_of-prefix_of execution k = refl
client_of-prefix_of consensus k = refl
client_of-prefix_of validator k = refl
client_of-prefix_of (other_client _) k = absurd k

number_of : Option String → Option ℕ
number_of none = none
number_of (some s) = scan 0 s

-- Two pods of one network have the same tag only if they are pods of the same kind, execution,
-- consensus or validator, of nodes with the same index.
pub tag_injective :
    (count : ℕ) (a b : Node) (c d : ClientType)
    → IsKnown c
    → IsKnown d
    → convert_to_node_id_tag count a c ≡ convert_to_node_id_tag count b d
    → (c ≡ d) × (a.index ≡ b.index)
unfolding number_of
tag_injective count a b c d kc kd e =
    let (pa, na) = tag_head count a c kc in
    let (pb, nb) = tag_head count b d kd in
    let part = λ (i : ℕ). ap (λ s. get_elem? (split b'-' s) i) e in
    (
      sym (client_of-prefix_of c kc)
          ∙ ap client_of (sym pa ∙ part 0 ∙ pb)
          ∙ client_of-prefix_of d kd,
      cc (
          sym (scan-node_number_text count a.index)
          ∙ ap number_of (sym na ∙ part 1 ∙ nb)
          ∙ scan-node_number_text count b.index),
    )
