-- ===== src/Plan/Network/Extra/Rounds.antt =====
-- Which nodes pickExtraNodeClients of pkg/plan/network/network_builder.go adds, and when it never
-- returns.
use attacknet.Base.{
  ℕ, zero, suc, ◌+◌, ◌-◌, ◌<◌, ◌≤◌, ◌≡◌, refl, sym, ap, ◌∙◌, Bool, true, false, inl, inr, List, [],
  ◌∷◌, ◌++◌, append_assoc, length, length-append, take, length-take, ◌⊎◌, String, ok, crash,
  out_of_fuel, is_nil, arith, Bool-cases, ltb, ◌==◌,
}
use attacknet.Base.Int.{ℤ, pos, negsuc}
use attacknet.Plan.Network.Nodes.{ClientVersion, Node, build_node}
use attacknet.Plan.Network.Extra.{going, exit, is_count, rounds, pick_extra_node_clients}
use attacknet.Plan.Network.Extra.Pairs.{
  Pair, pairs, numbered, copies, walk_pairs, walk_exec-walk_pairs, walk_pairs_going,
  walk_pairs_exit, walk_pairs_never,
}

take_front : (d : ℕ) (ps qs : List Pair) → d ≤ length ps → take d (ps ++ qs) ≡ take d ps
take_front zero ps qs h = refl
take_front (suc d) [] qs h = absurd (omega arith)
take_front (suc d) (p ∷ ps) qs h = ap (λ rest. p ∷ rest) (take_front d ps qs (omega arith))

take_past : (ps qs : List Pair) (d : ℕ) → take (length ps + d) (ps ++ qs) ≡ ps ++ take d qs
take_past [] qs d = ap (λ n. take n qs) (omega arith)
take_past (p ∷ ps) qs d =
    let e : suc (length ps) + d ≡ suc (length ps + d) = omega arith in
    rw e (ap (λ rest. p ∷ rest) (take_past ps qs d))

pub numbered_append :
    (index : ℕ) (ps qs : List Pair)
    → numbered index (ps ++ qs) ≡ numbered index ps ++ numbered (index + length ps) qs
numbered_append index [] qs = ap (λ i. numbered i qs) (omega arith)
numbered_append index ((exec, cons) ∷ ps) qs =
    let e : index + 1 + length ps ≡ index + suc (length ps) = omega arith in
    ap (λ rest. build_node index exec cons ∷ rest)
      (numbered_append (index + 1) ps qs ∙ ap (λ i. numbered (index + 1) ps ++ numbered i qs) e)

pub length-numbered : (index : ℕ) (ps : List Pair) → length (numbered index ps) ≡ length ps
length-numbered index [] = refl
length-numbered index (p ∷ ps) = ap suc (length-numbered (index + 1) ps)

copies_enough : (n : ℕ) (ps : List Pair) → 0 < length ps → n ≤ length (copies n ps)
copies_enough zero ps h = omega arith
copies_enough (suc n) ps h = omega (arith, copies_enough n ps h, length-append ps (copies n ps))

-- A round that goes through all pairs, and one that ends the loop.
rounds_going :
    (fuel : ℕ) (client : String) (count : ℤ) (execs conss : List ClientVersion)
    (nodes nodes' : List Node) (index index' : ℕ)
    → walk_pairs count (pairs client execs conss) nodes index ≡ going nodes' index'
    → rounds (suc fuel) client count execs conss nodes index
      ≡ rounds fuel client count execs conss nodes' index'
unfolding rounds
rounds_going fuel client count execs conss nodes nodes' index index' e =
    rw (rounds, walk_exec-walk_pairs client count conss execs nodes index, e) refl

rounds_exit :
    (fuel : ℕ) (client : String) (count : ℤ) (execs conss : List ClientVersion)
    (nodes nodes' : List Node) (index : ℕ)
    → walk_pairs count (pairs client execs conss) nodes index ≡ exit nodes'
    → rounds (suc fuel) client count execs conss nodes index ≡ ok nodes'
unfolding rounds
rounds_exit fuel client count execs conss nodes nodes' index e =
    rw (rounds, walk_exec-walk_pairs client count conss execs nodes index, e) refl

rounds_end :
    (fuel d : ℕ) (client : String) (execs conss : List ClientVersion) (nodes : List Node)
    (index : ℕ)
    → 0 < d
    → d ≤ length (copies fuel (pairs client execs conss))
    → rounds fuel client (pos (length nodes + d)) execs conss nodes index
      ≡ ok (nodes ++ numbered index (take d (copies fuel (pairs client execs conss))))
rounds_end zero d client execs conss nodes index lt le = absurd (omega arith)
rounds_end (suc fuel) d client execs conss nodes index lt le =
    let ps = pairs client execs conss in
    let more = copies fuel ps in
    elim (Bool-cases (ltb (length ps) d)) [
      | inl e ↦
          let k = d - length ps in
          let f : d ≡ length ps + k = ground arith in
          let nodes' = nodes ++ numbered index ps in
          let g : length nodes + d ≡ length nodes' + k =
            omega (arith, f, length-append nodes (numbered index ps), length-numbered index ps) in
          rounds_going fuel client (pos (length nodes + d)) execs conss nodes nodes' index
            (index + length ps) (walk_pairs_going d ps nodes index (ground arith))
          ∙ ap (λ n. rounds fuel client (pos n) execs conss nodes' (index + length ps)) g
          ∙ rounds_end fuel k client execs conss nodes' (index + length ps) (ground arith)
              (omega (arith, f, length-append ps more))
          ∙ ap ok (
              append_assoc nodes (numbered index ps) (numbered (index + length ps) (take k more))
              ∙ ap (λ rest. nodes ++ rest)
                  (sym (numbered_append index ps (take k more))
                    ∙ ap (numbered index)
                        (sym (take_past ps more k) ∙ ap (λ n. take n (ps ++ more)) (sym f))))
      | inr e ↦
          rounds_exit fuel client (pos (length nodes + d)) execs conss nodes
            (nodes ++ numbered index (take d ps)) index
            (walk_pairs_exit d ps nodes index lt (ground arith))
          ∙ ap (λ chosen. ok (nodes ++ numbered index chosen))
              (sym (take_front d ps more (ground arith)))
    ]

not_nil : (ps : List Pair) → is_nil ps ≡ false → 0 < length ps
not_nil [] h = cc
not_nil (p ∷ ps) h = omega arith

-- With a positive count, and a pair of clients that are not under test, a round for each node is
-- enough for the loop to end. It gives that many nodes with consecutive indices, which take the pairs
-- in turn, over and over.
pub pick_total :
    (fuel start count : ℕ) (client : String) (execs conss : List ClientVersion)
    → 0 < count
    → count ≤ fuel
    → is_nil (pairs client execs conss) ≡ false
    → (pick_extra_node_clients fuel start (pos count) client execs conss
        ≡ ok (numbered start (take count (copies fuel (pairs client execs conss)))))
      × (length (numbered start (take count (copies fuel (pairs client execs conss)))) ≡ count)
unfolding pick_extra_node_clients
pick_total fuel start count client execs conss lt le some_pair =
    let ps = pairs client execs conss in
    let enough : count ≤ length (copies fuel ps) =
      omega (arith, le, copies_enough fuel ps (not_nil ps some_pair)) in
    (
      ap (λ n. rounds fuel client (pos n) execs conss [] start) (omega arith)
          ∙ rounds_end fuel count client execs conss [] start lt enough,
      length-numbered start (take count (copies fuel ps))
          ∙ length-take count (copies fuel ps) enough,
    )

rounds_never :
    (fuel : ℕ) (client : String) (count : ℤ) (execs conss : List ClientVersion) (nodes : List Node)
    (index : ℕ)
    → ((ns : List Node) (i : ℕ)
        → (ns' : List Node) × (i' : ℕ) × (walk_pairs count (pairs client execs conss) ns i
            ≡ going ns' i'))
    → rounds fuel client count execs conss nodes index ≡ crash out_of_fuel
rounds_never zero client count execs conss nodes index h = unfold rounds in refl
rounds_never (suc fuel) client count execs conss nodes index h =
    let (nodes', index', e) = h nodes index in
    rounds_going fuel client count execs conss nodes nodes' index index' e
    ∙ rounds_never fuel client count execs conss nodes' index' h

abbrev pub not_positive : ℤ → Bool
not_positive (pos n) = n == 0
not_positive (negsuc _) = true

not_positive-is_count :
    (count : ℤ) → not_positive count ≡ true → (n : ℕ) → is_count (suc n) count ≡ false
unfolding is_count
not_positive-is_count (pos k) h n = ground arith
not_positive-is_count (negsuc _) h n = refl

-- With a count of zero or less, or if every pair of clients includes the one under test, the loop
-- does not end, whatever the fuel.
pub pick_diverges :
    (fuel start : ℕ) (count : ℤ) (client : String) (execs conss : List ClientVersion)
    → (not_positive count ≡ true) ⊎ (pairs client execs conss ≡ [])
    → pick_extra_node_clients fuel start count client execs conss ≡ crash out_of_fuel
unfolding pick_extra_node_clients
pick_diverges fuel start count client execs conss (inl h) =
    rounds_never fuel client count execs conss [] start (λ ns i. (
      _,
      _,
      walk_pairs_never count (not_positive-is_count count h) (pairs client execs conss) ns i,
    ))
pick_diverges fuel start count client execs conss (inr h) =
    rounds_never fuel client count execs conss [] start
      (λ ns i. (ns, i, rw h (unfold walk_pairs in refl)))
