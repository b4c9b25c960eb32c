-- ===== src/Plan/Network/Extra/Added.antt =====
-- What pickExtraNodeClients of pkg/plan/network/network_builder.go returns, if it does: numbered
-- nodes that do not run the client under test.
use attacknet.Base.{
  ℕ, zero, suc, ◌+◌, ◌≡◌, ◌≢◌, refl, sym, ap, ◌∙◌, false, inl, inr, List, [], ◌∷◌, ◌++◌,
  append_assoc, append-nil, length, All, All-append, String, ok, ok_of_bind, ok-injective, arith,
  Bool-cases,
}
use attacknet.Base.Int.{ℤ}
use attacknet.Base.Text.{str_eq, eq_iff}
use attacknet.Golang.Float.{Float, float32, eq, of_ℕ}
use attacknet.Plan.Network.Nodes.{ClientVersion, Node, build_node}
use attacknet.Plan.Network.Extra.{
  Walk, going, exit, is_count, walk_exec, rounds, pick_extra_node_clients,
  calc_nodes_needed_to_satisfy_target, compose_nodes_to_satisfy_target_percent,
}
use attacknet.Plan.Network.Extra.Pairs.{
  Pair, pairs_with, pairs, numbered, walk_pairs, walk_exec-walk_pairs,
}
use attacknet.Plan.Network.Extra.Rounds.{numbered_append}

-- Neither client of the pair is the one under test.
abbrev pub IsEligible : String → Pair → Type 0
IsEligible client (exec, cons) = (exec.name ≢ client) × (cons.name ≢ client)

str_eq-false : (s t : String) → str_eq s t ≡ false → s ≢ t
str_eq-false s t h e = ground (arith, eq_iff s t)

pairs_with-IsEligible :
    (client : String) (exec : ClientVersion) (conss : List ClientVersion)
    → exec.name ≢ client
    → All (IsEligible client) (pairs_with client exec conss)
pairs_with-IsEligible client exec [] h = tt
pairs_with-IsEligible client exec (cons ∷ rest) h = elim (Bool-cases (str_eq cons.name client)) [
  | inl e ↦ rw (pairs_with, e) (pairs_with-IsEligible client exec rest h)
  | inr e ↦
      rw (pairs_with, e)
        ((h, str_eq-false cons.name client e), pairs_with-IsEligible client exec rest h)
]

pairs-IsEligible :
    (client : String) (execs conss : List ClientVersion)
    → All (IsEligible client) (pairs client execs conss)
pairs-IsEligible client [] conss = tt
pairs-IsEligible client (exec ∷ rest) conss = elim (Bool-cases (str_eq exec.name client)) [
  | inl e ↦ rw (pairs, e) (pairs-IsEligible client rest conss)
  | inr e ↦
      rw (pairs, e)
        (All-append (IsEligible client) (pairs_with client exec conss) (pairs client rest conss)
          (pairs_with-IsEligible client exec conss (str_eq-false exec.name client e))
          (pairs-IsEligible client rest conss))
]

-- The nodes are followed by ones of eligible pairs, numbered from the index.
abbrev pub IsAdded : String → List Node → ℕ → List Node → Type 0
IsAdded client nodes index result =
    (qs : List Pair) × (result ≡ nodes ++ numbered index qs) × All (IsEligible client) qs

abbrev Walked : String → List Node → ℕ → Walk → Type 0
Walked client nodes index (exit result) = IsAdded client nodes index result
Walked client nodes index (going result i) =
    (qs : List Pair) × (result ≡ nodes ++ numbered index qs)
    × (i ≡ index + length qs)
    × All (IsEligible client) qs

Walked-cons :
    (client : String) (exec cons : ClientVersion) (nodes : List Node) (index : ℕ) (w : Walk)
    → IsEligible client (exec, cons)
    → Walked client (nodes ++ build_node index exec cons ∷ []) (index + 1) w
    → Walked client nodes index w
Walked-cons client exec cons nodes index (exit result) h (qs, e, a) = (
  (exec, cons) ∷ qs,
  e ∙ append_assoc nodes (build_node index exec cons ∷ []) (numbered (index + 1) qs),
  (h, a),
)
Walked-cons client exec cons nodes index (going result i) h (qs, e, f, a) = (
  (exec, cons) ∷ qs,
  e ∙ append_assoc nodes (build_node index exec cons ∷ []) (numbered (index + 1) qs),
  omega arith,
  (h, a),
)

walk_pairs-Walked :
    (client : String) (count : ℤ) (ps : List Pair) (nodes : List Node) (index : ℕ)
    → All (IsEligible client) ps
    → Walked client nodes index (walk_pairs count ps nodes index)
unfolding walk_pairs
walk_pairs-Walked client count [] nodes index h = ([], sym (append-nil nodes), omega arith, tt)
walk_pairs-Walked client count ((exec, cons) ∷ rest) nodes index h =
    let nodes' = nodes ++ build_node index exec cons ∷ [] in
    elim (Bool-cases (is_count (length nodes') count)) [
      | inl e ↦ rw (walk_pairs, e) ((exec, cons) ∷ [], refl, (h.0, tt))
      | inr e ↦
          rw (walk_pairs, e)
            (Walked-cons client exec cons nodes index (walk_pairs count rest nodes' (index + 1)) h.0
              (walk_pairs-Walked client count rest nodes' (index + 1) h.1))
    ]

rounds-IsAdded :
    (fuel : ℕ) (client : String) (count : ℤ) (execs conss : List ClientVersion) (nodes : List Node)
    (index : ℕ) (result : List Node)
    → rounds fuel client count execs conss nodes index ≡ ok result
    → IsAdded client nodes index result
unfolding rounds
rounds-IsAdded zero client count execs conss nodes index result e = cc
rounds-IsAdded (suc fuel) client count execs conss nodes index result e =
    after (walk_exec client count conss execs nodes index)
      (rw (walk_exec-walk_pairs client count conss execs nodes index) (
        walk_pairs-Walked client count (pairs client execs conss) nodes index
          (pairs-IsEligible client execs conss)))
      (λ nodes' index' f. rounds-IsAdded fuel client count execs conss nodes' index' result f) e
  where
    after :
        (w : Walk)
        → Walked client nodes index w
        → ((nodes' : List Node) (index' : ℕ)
            → rounds fuel client count execs conss nodes' index' ≡ ok result
            → IsAdded client nodes' index' result)
        → (elim w [
          | going nodes' index' ↦ rounds fuel client count execs conss nodes' index'
          | exit nodes' ↦ ok nodes'
        ])
          ≡ ok result
        → IsAdded client nodes index result
    after (exit nodes') (qs, g, a) ih f = (qs, sym (ok-injective f) ∙ g, a)
    after (going nodes' index') (qs, g, n, a) ih f =
        let (rs, g', a') = ih nodes' index' f in
        (
          qs ++ rs,
          g'
              ∙ ap (λ ns. ns ++ numbered index' rs) g
              ∙ ap (λ i. (nodes ++ numbered index qs) ++ numbered i rs) n
              ∙ append_assoc nodes (numbered index qs) (numbered (index + length qs) rs)
              ∙ ap (λ more. nodes ++ more) (sym (numbered_append index qs rs)),
          All-append (IsEligible client) qs rs a a',
        )

pub extra-IsAdded :
    (fuel : ℕ) (percent : Float) (targeted start : ℕ) (client : String)
    (execs conss : List ClientVersion) (result : List Node)
    → compose_nodes_to_satisfy_target_percent fuel percent targeted start client execs conss
      ≡ ok result
    → IsAdded client [] start result
unfolding compose_nodes_to_satisfy_target_percent pick_extra_node_clients
extra-IsAdded fuel percent targeted start client execs conss result e =
    elim (Bool-cases (eq percent (of_ℕ float32 0))) [
      | inl f ↦ ([], sym (ok-injective (rw f at e)), tt)
      | inr f ↦
          let (count, _, g) =
            ok_of_bind (calc_nodes_needed_to_satisfy_target percent targeted) _ (rw f at e) in
          rounds-IsAdded fuel client count execs conss [] start result g
    ]
