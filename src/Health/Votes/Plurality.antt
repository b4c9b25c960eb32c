-- ===== src/Health/Votes/Plurality.antt =====
-- determineForkConsensus of pkg/health/ethereum/consensus.go finds the block with the most votes.
use attacknet.Base.{
  ℕ, ◌+◌, ◌<◌, ◌≤◌, ◌≡◌, ◌↔◌, ◌⊎◌, inl, inr, refl, ◌∙◌, subst, Bool, true, not, List, [], ◌∷◌,
  length, All, All-imply, ltb, ◌==◌, Bool-cases, arith, String,
}
use attacknet.Base.Text.{str_eq, eq_iff}
use mathlib.Core.List.{Permᴰ}
use mathlib.Core.List.Permᴰ
use attacknet.Health.Votes.{
  ClientForkChoice, Groups, group_votes, Tally, choose, no_votes, determine_fork_consensus,
}
use attacknet.Health.Votes.Groups.{
  number_of, number_of-group_votes, IsGroup, group_votes_lem, bounded,
}
use attacknet.Health.Votes.Tallies.{
  winner_lem, partition_lem, property_lem, number_of-Permᴰ, All-Permᴰ, no_groups,
}

-- The votes for one key, all of which are for it, and the votes for others: together they are the
-- votes of the nodes, and no key has more.
abbrev pub IsPlurality :
    {K : Type 0}
    → (K → K → Bool)
    → (ClientForkChoice → K)
    → List ClientForkChoice
    → List ClientForkChoice
    → List ClientForkChoice
    → Type 0
IsPlurality {K} eq key_of nodes winner others =
    ((p : ClientForkChoice → Bool) → number_of p winner + number_of p others ≡ number_of p nodes)
    × ((k : K) → number_of (λ v. eq (key_of v) k) nodes ≤ length winner)
    × ((winner ≡ []) ⊎ ((k : K) × All (λ v. key_of v ≡ k) winner))

module _ {K : Type 0} (eq : K → K → Bool) (key_of : ClientForkChoice → K)
    (lawful : (a b : K) → (eq a b ≡ true) ↔ (a ≡ b)) (order : Groups K → Groups K)
    (reorders : (groups : Groups K) → Permᴰ groups (order groups)) where
  abbrev IsFor : List ClientForkChoice → Type 0
  IsFor votes = (votes ≡ []) ⊎ ((k : K) × All (λ v. key_of v ≡ k) votes)

  vote_lem :
      (keep : ℕ → Bool) (nodes : List ClientForkChoice)
      → ((n : ℕ) → 0 < n → keep n ≡ true)
      → let t = choose keep (order (group_votes eq key_of nodes [])) no_votes in
        (t.votes ≡ length t.winner) × IsPlurality eq key_of nodes t.winner t.others
  vote_lem keep nodes guard =
      let groups = group_votes eq key_of nodes [] in
      let q = reorders groups in
      let t = choose keep (order groups) no_votes in
      let (g, d) = group_votes_lem eq key_of lawful nodes [] tt tt in
      let (a, _, c) = winner_lem keep guard (order groups) no_votes refl in
      let small : All (λ (h : K × List ClientForkChoice). length h.1 ≤ length t.winner) groups =
        All-Permᴰ (λ h. length h.1 ≤ length t.winner) (Permᴰ.symm q)
          (subst (λ n. All (λ h. length h.1 ≤ n) (order groups)) a c) in
      (
        a,
        (
          λ p. omega (
            arith,
            partition_lem keep guard p (order groups) no_votes refl,
            number_of-Permᴰ p q,
            number_of-group_votes p eq key_of nodes [],
          ),
          λ k.
              subst (λ n. n ≤ length t.winner)
                (number_of-group_votes (λ v. eq (key_of v) k) eq key_of nodes [] ∙ omega arith)
                (bounded eq key_of lawful k (length t.winner) groups g d small),
          property_lem keep guard IsFor (order groups) no_votes (inl refl) (
              All-Permᴰ (λ h. IsFor h.1) q
                (All-imply (IsGroup eq key_of lawful) (λ h. IsFor h.1) (λ h e. inr (h.0, e)) groups
                  g)),
        ),
      )

  -- Without votes the guard does not matter.
  empty_vote :
      (keep : ℕ → Bool) (nodes : List ClientForkChoice)
      → length nodes ≡ 0
      → let t = choose keep (order (group_votes eq key_of nodes [])) no_votes in
        IsPlurality eq key_of nodes t.winner t.others
  unfolding choose group_votes
  empty_vote keep [] e =
      rw (no_groups (order []) (reorders [])) (λ p. refl, λ k. omega arith, inl refl)
  empty_vote keep (v ∷ rest) e = absurd (omega arith)

positive : (n : ℕ) → 0 < n → not (n == 0) ≡ true
positive n h = ground arith

pub nat_lawful : (a b : ℕ) → ((a == b) ≡ true) ↔ (a ≡ b)
nat_lawful a b = (λ e. ground arith, λ e. ground arith)

-- In whatever order the maps are walked, the votes are divided into those for one block number and
-- the others, and no number has more votes; and those for the number are divided likewise by the
-- block's hash.
pub fork_consensus-IsPlurality :
    (number_order : Groups ℕ → Groups ℕ) (hash_order : Groups String → Groups String)
    (nodes : List ClientForkChoice)
    → ((groups : Groups ℕ) → Permᴰ groups (number_order groups))
    → ((groups : Groups String) → Permᴰ groups (hash_order groups))
    → let r = determine_fork_consensus number_order hash_order nodes in
      IsPlurality
        (λ a b. a == b)
        (λ c. c.block_number)
        nodes
        r.consensus_block_num
        r.wrong_block_num
      × IsPlurality
          (λ a b. str_eq a b)
          (λ c. c.block_hash)
          r.consensus_block_num
          r.consensus_block_hash
          r.wrong_block_hash
unfolding determine_fork_consensus
fork_consensus-IsPlurality number_order hash_order nodes number_perm hash_perm =
    let numbers : Tally =
      choose (λ votes. not (votes == 0))
        (number_order (group_votes (λ a b. a == b) (λ c. c.block_number) nodes [])) no_votes in
    let (size, by_number) =
      vote_lem (λ a b. a == b) (λ c. c.block_number) nat_lawful number_order number_perm
        (λ votes. not (votes == 0)) nodes positive in
    (
      by_number,
      elim (Bool-cases (ltb 0 numbers.votes)) [
        | inl e ↦
            (vote_lem (λ a b. str_eq a b) (λ c. c.block_hash) eq_iff hash_order hash_perm
              (λ _. not (numbers.votes == 0)) numbers.winner
              (λ n h. positive numbers.votes (ground arith))).1
        | inr e ↦
            empty_vote (λ a b. str_eq a b) (λ c. c.block_hash) eq_iff hash_order hash_perm
              (λ _. not (numbers.votes == 0)) numbers.winner (ground (arith, size))
      ],
    )
