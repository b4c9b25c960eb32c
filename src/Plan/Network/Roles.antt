-- ===== src/Plan/Network/Roles.antt =====
-- Which node stands where in a network that ComposeNetworkTopology of
-- pkg/plan/network/network_builder.go composes.
use attacknet.Base.{
  ℕ, zero, suc, ◌+◌, ◌*◌, ◌≡◌, refl, sym, ap, subst, Bool, true, false, some, inl, inr, List, [],
  ◌∷◌, ◌++◌, length, length-append, All, All-append, All-imply, String, ok, ok-injective, arith,
  Bool-cases,
}
use attacknet.Base.Dict.{Dict, lookup, insert, has_key, lookup-insert}
use attacknet.Base.Text.{str_eq, eq_iff}
use attacknet.Plan.Network.Nodes.{
  ClientVersion, Node, build_node, compose_consensus_client, build_copies,
  compose_nodes_for_cl_testing, compose_nodes_for_el_testing,
}
use attacknet.Plan.Network.Topology.{populate_client_map}

-- The indices count up from the given one.
abbrev pub IsNumbered : ℕ → List Node → Type 0
IsNumbered index [] = Unit
IsNumbered index (node ∷ rest) = (node.index ≡ index) × IsNumbered (suc index) rest

pub IsNumbered-append :
    (index : ℕ) (xs ys : List Node)
    → IsNumbered index xs
    → IsNumbered (index + length xs) ys
    → IsNumbered index (xs ++ ys)
IsNumbered-append index [] ys hx hy = subst (λ i. IsNumbered i ys) (omega arith) hy
IsNumbered-append index (x ∷ xs) ys hx hy =
    (hx.0, IsNumbered-append (suc index) xs ys hx.1 (subst (λ i. IsNumbered i ys) (omega arith) hy))

-- Nodes of the two clients.
abbrev pub RunsBoth : String → String → Node → Type 0
RunsBoth exec cons node = (node.execution.type ≡ exec) × (node.consensus.type ≡ cons)

pub build_node-RunsBoth :
    (index : ℕ) (exec cons : ClientVersion)
    → RunsBoth exec.name cons.name (build_node index exec cons)
unfolding build_node compose_consensus_client
build_node-RunsBoth index exec cons = elim (Bool-cases cons.has_sidecar) [
  | inl e ↦ simp e (refl, refl)
  | inr e ↦ simp e (refl, refl)
]

build_copies-IsNumbered :
    (copies index : ℕ) (exec cons : ClientVersion)
    → IsNumbered index (build_copies copies index exec cons)
unfolding build_copies build_node
build_copies-IsNumbered zero index exec cons = tt
build_copies-IsNumbered (suc copies) index exec cons =
    (refl, build_copies-IsNumbered copies (suc index) exec cons)

length-build_copies :
    (copies index : ℕ) (exec cons : ClientVersion)
    → length (build_copies copies index exec cons) ≡ copies
unfolding build_copies
length-build_copies zero index exec cons = refl
length-build_copies (suc copies) index exec cons =
    ap suc (length-build_copies copies (suc index) exec cons)

build_copies-RunsBoth :
    (copies index : ℕ) (exec cons : ClientVersion)
    → All (RunsBoth exec.name cons.name) (build_copies copies index exec cons)
unfolding build_copies
build_copies-RunsBoth zero index exec cons = tt
build_copies-RunsBoth (suc copies) index exec cons =
    (build_node-RunsBoth index exec cons, build_copies-RunsBoth copies (suc index) exec cons)

-- The execution client of the node, if the test is of one, or else its consensus client.
abbrev pub Runs : Bool → String → Node → Type 0
Runs true client node = node.execution.type ≡ client
Runs false client node = node.consensus.type ≡ client

-- So many nodes that run the client, numbered from the index.
abbrev IsTestedBy : Bool → String → ℕ → ℕ → List Node → Type 0
IsTestedBy is_exec client n index nodes =
    IsNumbered index nodes × (length nodes ≡ n) × All (Runs is_exec client) nodes

IsTestedBy-append :
    (is_exec : Bool) (client : String) (n m index : ℕ) (xs ys : List Node)
    → IsTestedBy is_exec client n index xs
    → IsTestedBy is_exec client m (index + n) ys
    → IsTestedBy is_exec client (n + m) index (xs ++ ys)
IsTestedBy-append is_exec client n m index xs ys (a, l, r) (b, k, s) = (
  IsNumbered-append index xs ys a (subst (λ j. IsNumbered (index + j) ys) (sym l) b),
  omega (arith, length-append xs ys, l, k),
  All-append (Runs is_exec client) xs ys r s,
)

el_testing_lem :
    (multiplier index : ℕ) (exec : ClientVersion) (conss : List ClientVersion)
    → IsTestedBy true exec.name
        (multiplier * length conss)
        index
        (compose_nodes_for_el_testing multiplier index exec conss)
unfolding compose_nodes_for_el_testing
el_testing_lem multiplier index exec [] = (tt, omega arith, tt)
el_testing_lem multiplier index exec (cons ∷ rest) =
    let copies = build_copies multiplier index exec cons in
    let e : multiplier + multiplier * length rest ≡ multiplier * suc (length rest) = grind arith in
    subst
      (λ n.
        IsTestedBy true exec.name n index
          (copies ++ compose_nodes_for_el_testing multiplier (index + multiplier) exec rest))
      e
      (IsTestedBy-append true exec.name multiplier (multiplier * length rest) index copies
        (compose_nodes_for_el_testing multiplier (index + multiplier) exec rest)
        (
          build_copies-IsNumbered multiplier index exec cons,
          length-build_copies multiplier index exec cons,
          All-imply (RunsBoth exec.name cons.name) (Runs true exec.name) (λ _ h. h.0) copies
              (build_copies-RunsBoth multiplier index exec cons),
        )
        (el_testing_lem multiplier (index + multiplier) exec rest))

cl_testing_lem :
    (multiplier index : ℕ) (cons : ClientVersion) (execs : List ClientVersion)
    → IsTestedBy false cons.name
        (multiplier * length execs)
        index
        (compose_nodes_for_cl_testing multiplier index cons execs)
unfolding compose_nodes_for_cl_testing
cl_testing_lem multiplier index cons [] = (tt, omega arith, tt)
cl_testing_lem multiplier index cons (exec ∷ rest) =
    let copies = build_copies multiplier index exec cons in
    let e : multiplier + multiplier * length rest ≡ multiplier * suc (length rest) = grind arith in
    subst
      (λ n.
        IsTestedBy false cons.name n index
          (copies ++ compose_nodes_for_cl_testing multiplier (index + multiplier) cons rest))
      e
      (IsTestedBy-append false cons.name multiplier (multiplier * length rest) index copies
        (compose_nodes_for_cl_testing multiplier (index + multiplier) cons rest)
        (
          build_copies-IsNumbered multiplier index exec cons,
          length-build_copies multiplier index exec cons,
          All-imply (RunsBoth exec.name cons.name) (Runs false cons.name) (λ _ h. h.1) copies
              (build_copies-RunsBoth multiplier index exec cons),
        )
        (cl_testing_lem multiplier (index + multiplier) cons rest))

-- The node runs the client under test together with the partner.
abbrev pub RunsPair : Bool → String → String → Node → Type 0
RunsPair true client partner node = RunsBoth client partner node
RunsPair false client partner node = RunsBoth partner client node

-- For each partner in order so many nodes that run the pair, and no others.
abbrev pub PairedWith : Bool → String → ℕ → List ClientVersion → List Node → Type 0
PairedWith is_exec client copies [] nodes = nodes ≡ []
PairedWith is_exec client copies (partner ∷ rest) nodes =
    (first after : List Node) × (nodes ≡ first ++ after)
    × (length first ≡ copies)
    × All (RunsPair is_exec client partner.name) first
    × PairedWith is_exec client copies rest after

-- The nodes that test a client, with those of its partners.
abbrev pub IsTested : Bool → String → ℕ → List ClientVersion → ℕ → List Node → Type 0
IsTested is_exec client copies partners index nodes =
    IsTestedBy is_exec client (copies * length partners) index nodes
    × PairedWith is_exec client copies partners nodes

el_testing-PairedWith :
    (multiplier index : ℕ) (exec : ClientVersion) (conss : List ClientVersion)
    → PairedWith true exec.name multiplier conss
        (compose_nodes_for_el_testing multiplier index exec conss)
unfolding compose_nodes_for_el_testing
el_testing-PairedWith multiplier index exec [] = refl
el_testing-PairedWith multiplier index exec (cons ∷ rest) = (
  build_copies multiplier index exec cons,
  compose_nodes_for_el_testing multiplier (index + multiplier) exec rest,
  refl,
  length-build_copies multiplier index exec cons,
  build_copies-RunsBoth multiplier index exec cons,
  el_testing-PairedWith multiplier (index + multiplier) exec rest,
)

cl_testing-PairedWith :
    (multiplier index : ℕ) (cons : ClientVersion) (execs : List ClientVersion)
    → PairedWith false cons.name multiplier execs
        (compose_nodes_for_cl_testing multiplier index cons execs)
unfolding compose_nodes_for_cl_testing
cl_testing-PairedWith multiplier index cons [] = refl
cl_testing-PairedWith multiplier index cons (exec ∷ rest) = (
  build_copies multiplier index exec cons,
  compose_nodes_for_cl_testing multiplier (index + multiplier) cons rest,
  refl,
  length-build_copies multiplier index exec cons,
  build_copies-RunsBoth multiplier index exec cons,
  cl_testing-PairedWith multiplier (index + multiplier) cons rest,
)

pub el_testing-IsTested :
    (multiplier index : ℕ) (exec : ClientVersion) (conss : List ClientVersion)
    → IsTested true exec.name multiplier conss index
        (compose_nodes_for_el_testing multiplier index exec conss)
el_testing-IsTested multiplier index exec conss =
    (el_testing_lem multiplier index exec conss, el_testing-PairedWith multiplier index exec conss)

pub cl_testing-IsTested :
    (multiplier index : ℕ) (cons : ClientVersion) (execs : List ClientVersion)
    → IsTested false cons.name multiplier execs index
        (compose_nodes_for_cl_testing multiplier index cons execs)
cl_testing-IsTested multiplier index cons execs =
    (cl_testing_lem multiplier index cons execs, cl_testing-PairedWith multiplier index cons execs)

-- A client is filed under its name.
abbrev pub IsFiled : Dict ClientVersion → Type 0
IsFiled clients = (key : String) (c : ClientVersion) → lookup key clients ≡ some c → c.name ≡ key

insert-IsFiled :
    (client : ClientVersion) (clients : Dict ClientVersion)
    → IsFiled clients
    → IsFiled (insert client.name client clients)
insert-IsFiled client clients h key c e = elim (Bool-cases (str_eq client.name key)) [
  | inl f ↦
      ground (arith, lookup-insert client.name key client clients, eq_iff client.name key, e, f)
  | inr f ↦ h key c (ground (arith, lookup-insert client.name key client clients, e, f))
]

pub populate_client_map-IsFiled :
    (clients : Dict ClientVersion) (list : List ClientVersion) (result : Dict ClientVersion)
    → IsFiled clients
    → populate_client_map clients list ≡ ok result
    → IsFiled result
unfolding populate_client_map
populate_client_map-IsFiled clients [] result h e = subst IsFiled (ok-injective e) h
populate_client_map-IsFiled clients (client ∷ rest) result h e =
    elim (Bool-cases (has_key client.name clients)) [
      | inl f ↦ absurd (cc (rw f at e))
      | inr f ↦
          populate_client_map-IsFiled (insert client.name client clients) rest result
            (insert-IsFiled client clients h) (rw (populate_client_map, f) at e)
    ]
