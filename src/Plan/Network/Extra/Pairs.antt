-- ===== src/Plan/Network/Extra/Pairs.antt =====
-- The loops of pickExtraNodeClients in pkg/plan/network/network_builder.go, as one loop over the
-- pairs of clients that do not include the one under test.
use attacknet.Base.{
  append-nil, append_assoc, ℕ, zero, suc, ◌+◌, ◌<◌, ◌≤◌, ◌≡◌, refl, ap, ◌∙◌, false, inl, inr, List,
  [], ◌∷◌, ◌++◌, length, length-append, take, ◌==◌, Bool-cases, if◌then◌else◌, String, arith,
}
use attacknet.Base.Int.{ℤ, pos}
use attacknet.Base.Text.{str_eq}
use attacknet.Plan.Network.Nodes.{ClientVersion, Node, build_node}
use attacknet.Plan.Network.Extra.{Walk, going, exit, is_count, walk_cons, walk_exec}

abbrev pub Pair : Type 0
Pair = ClientVersion × ClientVersion

-- The pairs with one execution client.
abbrev pub pairs_with : String → ClientVersion → List ClientVersion → List Pair
pairs_with client exec [] = []
pairs_with client exec (cons ∷ rest) =
    let more = pairs_with client exec rest in
    if str_eq cons.name client then more else (exec, cons) ∷ more

-- The pairs of an execution client and a consensus client, neither of them under test.
abbrev pub pairs : String → List ClientVersion → List ClientVersion → List Pair
pairs client [] conss = []
pairs client (exec ∷ rest) conss =
    let more = pairs client rest conss in
    if str_eq exec.name client then more else pairs_with client exec conss ++ more

-- Nodes with the pairs, numbered from an index.
abbrev pub numbered : ℕ → List Pair → List Node
numbered index [] = []
numbered index ((exec, cons) ∷ rest) = build_node index exec cons ∷ numbered (index + 1) rest

-- The pairs over and over.
abbrev pub copies : ℕ → List Pair → List Pair
copies zero ps = []
copies (suc n) ps = ps ++ copies n ps

-- One loop over the pairs.
unfoldable pub walk_pairs : ℤ → List Pair → List Node → ℕ → Walk
unfolding is_count
walk_pairs count [] nodes index = going nodes index
walk_pairs count ((exec, cons) ∷ rest) nodes index =
    let nodes' = nodes ++ build_node index exec cons ∷ [] in
    let more = walk_pairs count rest nodes' (index + 1) in
    if is_count (length nodes') count then exit nodes' else more

abbrev then_walk : ℤ → List Pair → Walk → Walk
then_walk count ps (going nodes index) = walk_pairs count ps nodes index
then_walk count ps (exit nodes) = exit nodes

walk_pairs_append :
    (count : ℤ) (ps qs : List Pair) (nodes : List Node) (index : ℕ)
    → walk_pairs count (ps ++ qs) nodes index ≡ then_walk count qs (walk_pairs count ps nodes index)
unfolding walk_pairs
walk_pairs_append count [] qs nodes index = refl
walk_pairs_append count ((exec, cons) ∷ rest) qs nodes index =
    let nodes' = nodes ++ build_node index exec cons ∷ [] in
    elim (Bool-cases (is_count (length nodes') count)) [
      | inl e ↦ rw (walk_pairs, e) refl
      | inr e ↦ rw (walk_pairs, e) (walk_pairs_append count rest qs nodes' (index + 1))
    ]

walk_cons-walk_pairs :
    (client : String) (count : ℤ) (exec : ClientVersion) (conss : List ClientVersion)
    (nodes : List Node) (index : ℕ)
    → walk_cons client count exec conss nodes index
      ≡ walk_pairs count (pairs_with client exec conss) nodes index
unfolding walk_cons walk_pairs
walk_cons-walk_pairs client count exec [] nodes index = refl
walk_cons-walk_pairs client count exec (cons ∷ rest) nodes index =
    let nodes' = nodes ++ build_node index exec cons ∷ [] in
    elim (Bool-cases (str_eq cons.name client)) [
      | inl e ↦
          rw (walk_cons, pairs_with, e) (walk_cons-walk_pairs client count exec rest nodes index)
      | inr e ↦ elim (Bool-cases (is_count (length nodes') count)) [
        | inl f ↦ rw (walk_cons, walk_pairs, pairs_with, e, f) refl
        | inr f ↦
            rw (walk_cons, walk_pairs, pairs_with, e, f)
              (walk_cons-walk_pairs client count exec rest nodes' (index + 1))
      ]
    ]

-- The rest of the walk, if the first execution client did not end it.
walk_on : (count : ℤ) (client : String) (conss rest : List ClientVersion) → Walk → Walk
walk_on count client conss rest (going nodes index) = walk_exec client count conss rest nodes index
walk_on count client conss rest (exit nodes) = exit nodes

walk_on-then_walk :
    (client : String) (count : ℤ) (conss rest : List ClientVersion)
    → ((nodes : List Node) (index : ℕ)
        → walk_exec client count conss rest nodes index
          ≡ walk_pairs count (pairs client rest conss) nodes index)
    → (w : Walk) → walk_on count client conss rest w ≡ then_walk count (pairs client rest conss) w
unfolding walk_on
walk_on-then_walk client count conss rest h (going nodes index) = h nodes index
walk_on-then_walk client count conss rest h (exit nodes) = refl

pub walk_exec-walk_pairs :
    (client : String) (count : ℤ) (conss execs : List ClientVersion) (nodes : List Node) (index : ℕ)
    → walk_exec client count conss execs nodes index
      ≡ walk_pairs count (pairs client execs conss) nodes index
unfolding walk_exec walk_pairs walk_on
walk_exec-walk_pairs client count conss [] nodes index = refl
walk_exec-walk_pairs client count conss (exec ∷ rest) nodes index =
    elim (Bool-cases (str_eq exec.name client)) [
      | inl e ↦ rw (walk_exec, pairs, e) (walk_exec-walk_pairs client count conss rest nodes index)
      | inr e ↦
          rw
            (
              walk_exec,
              pairs,
              e,
              walk_pairs_append count (pairs_with client exec conss) (pairs client rest conss) nodes
                  index,
              walk_cons-walk_pairs client count exec conss nodes index,
            )
            (walk_on-then_walk client count conss rest
              (λ ns i. walk_exec-walk_pairs client count conss rest ns i)
              (walk_pairs count (pairs_with client exec conss) nodes index))
    ]

-- One pair of a walk that is to add `suc d` nodes.
walk_pairs_last :
    (ps : List Pair) (exec cons : ClientVersion) (nodes : List Node) (index : ℕ)
    → walk_pairs (pos (length nodes + 1)) ((exec, cons) ∷ ps) nodes index
      ≡ exit (nodes ++ build_node index exec cons ∷ [])
unfolding walk_pairs is_count
walk_pairs_last ps exec cons nodes index =
    ground (arith, length-append nodes (build_node index exec cons ∷ []))

walk_pairs_more :
    (d : ℕ) (ps : List Pair) (exec cons : ClientVersion) (nodes : List Node) (index : ℕ)
    → let nodes' = nodes ++ build_node index exec cons ∷ [] in
      walk_pairs (pos (length nodes + suc (suc d))) ((exec, cons) ∷ ps) nodes index
      ≡ walk_pairs (pos (length nodes' + suc d)) ps nodes' (index + 1)
unfolding walk_pairs is_count
walk_pairs_more d ps exec cons nodes index =
    let nodes' = nodes ++ build_node index exec cons ∷ [] in
    let e = length-append nodes (build_node index exec cons ∷ []) in
    let f : length nodes + suc (suc d) ≡ length nodes' + suc d = omega (arith, e) in
    let g : (length nodes' == length nodes + suc (suc d)) ≡ false = ground (arith, e) in
    rw (walk_pairs, is_count, g) (ap (λ k. walk_pairs (pos k) ps nodes' (index + 1)) f)

-- The walk goes through all pairs if there are nodes to add after them.
pub walk_pairs_going :
    (d : ℕ) (ps : List Pair) (nodes : List Node) (index : ℕ)
    → length ps < d
    → walk_pairs (pos (length nodes + d)) ps nodes index
      ≡ going (nodes ++ numbered index ps) (index + length ps)
unfolding walk_pairs
walk_pairs_going d [] nodes index h = rw (append-nil nodes) (ap (going nodes) (omega arith))
walk_pairs_going zero (p ∷ rest) nodes index h = absurd (omega arith)
walk_pairs_going (suc zero) (p ∷ rest) nodes index h = absurd (omega arith)
walk_pairs_going (suc (suc d)) ((exec, cons) ∷ rest) nodes index h =
    let nodes' = nodes ++ build_node index exec cons ∷ [] in
    walk_pairs_more d rest exec cons nodes index
    ∙ walk_pairs_going (suc d) rest nodes' (index + 1) (omega arith)
    ∙ rw (append_assoc nodes (build_node index exec cons ∷ []) (numbered (index + 1) rest))
        (ap (going (nodes ++ build_node index exec cons ∷ numbered (index + 1) rest)) (omega arith))

-- It ends at the last node to add, if it gets there.
pub walk_pairs_exit :
    (d : ℕ) (ps : List Pair) (nodes : List Node) (index : ℕ)
    → 0 < d
    → d ≤ length ps
    → walk_pairs (pos (length nodes + d)) ps nodes index
      ≡ exit (nodes ++ numbered index (take d ps))
walk_pairs_exit d [] nodes index lt le = absurd (omega arith)
walk_pairs_exit zero (p ∷ rest) nodes index lt le = absurd (omega arith)
walk_pairs_exit (suc zero) ((exec, cons) ∷ rest) nodes index lt le =
    walk_pairs_last rest exec cons nodes index
walk_pairs_exit (suc (suc d)) ((exec, cons) ∷ rest) nodes index lt le =
    let nodes' = nodes ++ build_node index exec cons ∷ [] in
    walk_pairs_more d rest exec cons nodes index
    ∙ walk_pairs_exit (suc d) rest nodes' (index + 1) (omega arith) (omega arith)
    ∙ ap exit (
        append_assoc nodes (build_node index exec cons ∷ [])
          (numbered (index + 1) (take (suc d) rest)))

-- It never ends if no count of nodes is the one asked for.
pub walk_pairs_never :
    (count : ℤ)
    → ((n : ℕ) → is_count (suc n) count ≡ false)
    → (ps : List Pair) (nodes : List Node) (index : ℕ)
    → walk_pairs count ps nodes index ≡ going (nodes ++ numbered index ps) (index + length ps)
unfolding walk_pairs
walk_pairs_never count h [] nodes index = rw (append-nil nodes) (ap (going nodes) (omega arith))
walk_pairs_never count h ((exec, cons) ∷ rest) nodes index =
    let nodes' = nodes ++ build_node index exec cons ∷ [] in
    let e : length nodes' ≡ suc (length nodes) =
      omega (arith, length-append nodes (build_node index exec cons ∷ [])) in
    let f : is_count (length nodes') count ≡ false =
      ap (λ n. is_count n count) e ∙ h (length nodes) in
    rw (walk_pairs, f)
      (walk_pairs_never count h rest nodes' (index + 1)
        ∙ rw (append_assoc nodes (build_node index exec cons ∷ []) (numbered (index + 1) rest)) (
            ap (going (nodes ++ build_node index exec cons ∷ numbered (index + 1) rest))
              (omega arith)))
