-- ===== src/Health/Consensus/Reported.antt =====
-- Which nodes a consensus test of pkg/health/ethereum/execution_rpc.go and beacon_rpc.go reports, and when
-- it panics.
use attacknet.Base.{
  ℕ, ◌≡◌, ◌↔◌, ◌⊎◌, inl, inr, refl, sym, ap, ◌∙◌, subst, Bool, true, not, ◌&&◌, some, List, [], ◌∷◌,
  length, get_elem?, All, Bool-cases, arith, ltb, ◌==◌, String, ok, or_crash, index_out_of_range,
  ok_of_bind, ok-injective, some_of_or_crash,
}
use attacknet.Base.Dict.{lookup, has_key, lookup-insert}
use attacknet.Base.Text.{str_eq, eq_iff}
use mathlib.Core.List.{Permᴰ}
use attacknet.Health.Votes.{ClientForkChoice, Groups, determine_fork_consensus}
use attacknet.Health.Votes.Groups.{number_of}
use attacknet.Health.Votes.Plurality.{IsPlurality, nat_lawful, fork_consensus-IsPlurality}
use attacknet.Health.Checks.{BlockConsensusTestResult}
use attacknet.Health.Consensus.{reported_blocks, reported_hashes, test_result}

-- The nodes by their names.
abbrev pub is_named : String → ClientForkChoice → Bool
is_named name v = str_eq v.pod_name name

has_key-reported_blocks :
    (name : String) (nodes : List ClientForkChoice)
    → has_key name (reported_blocks nodes) ≡ ltb 0 (number_of (is_named name) nodes)
unfolding reported_blocks has_key lookup
has_key-reported_blocks name [] = refl
has_key-reported_blocks name (v ∷ rest) = ground (
  arith,
  lookup-insert v.pod_name name v.block_number (reported_blocks rest),
  has_key-reported_blocks name rest,
)

has_key-reported_hashes :
    (name : String) (nodes : List ClientForkChoice)
    → has_key name (reported_hashes nodes) ≡ ltb 0 (number_of (is_named name) nodes)
unfolding reported_hashes has_key lookup
has_key-reported_hashes name [] = refl
has_key-reported_hashes name (v ∷ rest) = ground (
  arith,
  lookup-insert v.pod_name name v.block_hash (reported_hashes rest),
  has_key-reported_hashes name rest,
)

module _ {K : Type 0} (eq : K → K → Bool) (key_of : ClientForkChoice → K)
    (lawful : (a b : K) → (eq a b ≡ true) ↔ (a ≡ b)) (k : K) where
  abbrev is_for : ClientForkChoice → Bool
  is_for v = eq (key_of v) k

  number_of-agreeing :
      (q : ClientForkChoice → Bool) (votes : List ClientForkChoice)
      → All (λ v. key_of v ≡ k) votes
      → (number_of (λ v. q v && is_for v) votes ≡ number_of q votes)
        × (number_of (λ v. q v && not (is_for v)) votes ≡ 0)
        × (number_of is_for votes ≡ length votes)
  number_of-agreeing q [] h = (refl, refl, refl)
  number_of-agreeing q (v ∷ rest) h =
      let (a, b, c) = number_of-agreeing q rest h.1 in
      let e = (lawful (key_of v) k).1 h.0 in
      (ground (arith, a, e), ground (arith, b, e), ground (arith, c, e))

  number_of-dissenting :
      (q : ClientForkChoice → Bool) (votes : List ClientForkChoice)
      → number_of is_for votes ≡ 0
      → (number_of (λ v. q v && is_for v) votes ≡ 0)
        × (number_of (λ v. q v && not (is_for v)) votes ≡ number_of q votes)
  number_of-dissenting q [] h = (refl, refl)
  number_of-dissenting q (v ∷ rest) h = elim (Bool-cases (is_for v)) [
    | inl e ↦ absurd (ground arith)
    | inr e ↦
        let h' : number_of is_for rest ≡ 0 = ground arith in
        let (a, b) = number_of-dissenting q rest h' in (ground (arith, a, e), ground (arith, b, e))
  ]

  -- Of a division of the votes whose winners are for `k`: the votes for `k` are the winners, and those
  -- for another key are the others.
  module _ (nodes winner others : List ClientForkChoice)
      (p : IsPlurality eq key_of nodes winner others)
      (unanimous : All (λ v. key_of v ≡ k) winner) where
    no_others : number_of is_for others ≡ 0
    no_others =
        let (_, _, c) = number_of-agreeing (λ v. true) winner unanimous in
        omega (arith, p.0 is_for, p.1 k, c)

    agreeing_lem :
        (q : ClientForkChoice → Bool) → number_of (λ v. q v && is_for v) nodes ≡ number_of q winner
    agreeing_lem q =
        let (a, _, _) = number_of-agreeing q winner unanimous in
        let (b, _) = number_of-dissenting q others no_others in
        omega (arith, p.0 (λ v. q v && is_for v), a, b)

    dissenting_lem :
        (q : ClientForkChoice → Bool)
        → number_of (λ v. q v && not (is_for v)) nodes ≡ number_of q others
    dissenting_lem q =
        let (_, a, _) = number_of-agreeing q winner unanimous in
        let (_, b) = number_of-dissenting q others no_others in
        omega (arith, p.0 (λ v. q v && not (is_for v)), a, b)

-- The first of the winners is for the key of all of them.
unanimous_lem :
    {K : Type 0} (key_of : ClientForkChoice → K) (winner : List ClientForkChoice)
    (first : ClientForkChoice)
    → get_elem? winner 0 ≡ some first
    → (winner ≡ []) ⊎ ((k : K) × All (λ v. key_of v ≡ k) winner)
    → All (λ v. key_of v ≡ key_of first) winner
unanimous_lem key_of [] first e u = cc
unanimous_lem key_of (v ∷ rest) first e (inl n) = cc
unanimous_lem key_of (v ∷ rest) first e (inr (k, h)) =
    let same : v ≡ first = cc in
    subst (λ x. All (λ w. key_of w ≡ x) (v ∷ rest)) (sym h.0 ∙ ap key_of same) h

-- In whatever order the maps of votes are walked: a name is reported for its block exactly if a node
-- of that name votes for another number than the one reported as consensus, and for its hash exactly
-- if one votes for that number and for another hash than the one reported as consensus.
pub test_result-reports :
    (number_order : Groups ℕ → Groups ℕ) (hash_order : Groups String → Groups String)
    (nodes : List ClientForkChoice) (result : BlockConsensusTestResult) (name : String)
    → ((groups : Groups ℕ) → Permᴰ groups (number_order groups))
    → ((groups : Groups String) → Permᴰ groups (hash_order groups))
    → test_result (determine_fork_consensus number_order hash_order nodes) ≡ ok result
    → (has_key name result.failing_clients_reported_block
        ≡ ltb 0 (
            number_of
              (λ v. is_named name v && not (v.block_number == result.consensus_block))
              nodes))
      × (has_key name result.failing_clients_reported_hash
          ≡ ltb 0 (
              number_of
                (λ v.
                  (is_named name v && not (str_eq v.block_hash result.consensus_hash))
                  && v.block_number == result.consensus_block)
                nodes))
unfolding test_result
test_result-reports number_order hash_order nodes result name number_perm hash_perm e =
    let fork = determine_fork_consensus number_order hash_order nodes in
    let (by_number, by_hash) =
      fork_consensus-IsPlurality number_order hash_order nodes number_perm hash_perm in
    let (block, b, e₁) =
      ok_of_bind (or_crash (get_elem? fork.consensus_block_num 0) index_out_of_range) _ e in
    let (hash, h, e₂) =
      ok_of_bind (or_crash (get_elem? fork.consensus_block_hash 0) index_out_of_range) _ e₁ in
    let numbers =
      unanimous_lem (λ v. v.block_number) fork.consensus_block_num block (some_of_or_crash _ _ b)
        (by_number.2) in
    let hashes =
      unanimous_lem (λ v. v.block_hash) fork.consensus_block_hash hash (some_of_or_crash _ _ h)
        (by_hash.2) in
    let q =
      λ (v : ClientForkChoice). is_named name v && not (str_eq v.block_hash hash.block_hash) in
    rw (← ok-injective e₂) (
      has_key-reported_blocks name fork.wrong_block_num
          ∙ ap (ltb 0) (
              sym (
                dissenting_lem (λ a c. a == c) (λ v. v.block_number) nat_lawful block.block_number
                  nodes fork.consensus_block_num fork.wrong_block_num by_number numbers
                  (is_named name))),
      has_key-reported_hashes name fork.wrong_block_hash
          ∙ ap (ltb 0) (
              sym (
                agreeing_lem (λ a c. a == c) (λ v. v.block_number) nat_lawful block.block_number
                  nodes fork.consensus_block_num fork.wrong_block_num by_number numbers q
                ∙ dissenting_lem (λ a c. str_eq a c) (λ v. v.block_hash) eq_iff hash.block_hash
                    fork.consensus_block_num fork.consensus_block_hash fork.wrong_block_hash by_hash
                    hashes (is_named name))),
    )
