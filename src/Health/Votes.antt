-- ===== src/Health/Votes.antt =====
-- pkg/health/ethereum/consensus.go: the block that most nodes vote for. The order in which Go walks a
-- map is an argument.
pub mod Groups
pub mod Tallies
pub mod Plurality
use attacknet.Base.{ℕ, Bool, not, List, [], ◌∷◌, ◌++◌, length, ltb, ◌==◌, if◌then◌else◌, String}
use attacknet.Base.Text.{str_eq}

-- The pod is known by its name.
pub record ClientForkChoice : Type 0 where
  pub pod_name : String
  pub block_number : ℕ
  pub block_hash : String

-- A map from keys to the votes for them.
abbrev pub Groups : Type 0 → Type 0
Groups K = List (K × List ClientForkChoice)

-- votes[key] = append(votes[key], vote)
unfoldable pub add_vote : {K : Type 0} → (K → K → Bool) → K → ClientForkChoice → Groups K → Groups K
add_vote eq key vote [] = (key, vote ∷ []) ∷ []
add_vote eq key vote ((k, votes) ∷ rest) =
    let more = add_vote eq key vote rest in
    if eq k key then (k, votes ++ vote ∷ []) ∷ rest else (k, votes) ∷ more

unfoldable pub group_votes :
    {K : Type 0}
    → (K → K → Bool)
    → (ClientForkChoice → K)
    → List ClientForkChoice
    → Groups K
    → Groups K
unfolding add_vote
group_votes eq key_of [] groups = groups
group_votes eq key_of (vote ∷ rest) groups =
    group_votes eq key_of rest (add_vote eq (key_of vote) vote groups)

-- The votes of the winner so far, the winner, and the votes against it.
pub record Tally : Type 0 where
  pub votes : ℕ
  pub winner : List ClientForkChoice
  pub others : List ClientForkChoice

-- The loop over the groups; `keep` is the guard under which a beaten winner joins the others.
unfoldable pub choose : {K : Type 0} → (ℕ → Bool) → Groups K → Tally → Tally
choose keep [] t = t
choose keep ((k, votes) ∷ rest) t = choose keep rest (
    if ltb t.votes (length votes)
    then record {
      votes = length votes;
      winner = votes;
      others = if keep t.votes then t.others ++ t.winner else t.others;
    }
    else record t { others = t.others ++ votes })

abbrev pub no_votes : Tally
no_votes = record { votes = 0; winner = []; others = [] }

pub record ForkConsensus : Type 0 where
  pub consensus_block_num : List ClientForkChoice
  pub wrong_block_num : List ClientForkChoice
  pub consensus_block_hash : List ClientForkChoice
  pub wrong_block_hash : List ClientForkChoice

-- The second loop guards with the votes for the block number, as the first one left them.
unfoldable pub determine_fork_consensus :
    (Groups ℕ → Groups ℕ) → (Groups String → Groups String) → List ClientForkChoice → ForkConsensus
unfolding group_votes choose
determine_fork_consensus number_order hash_order nodes =
    let numbers =
      choose (λ votes. not (votes == 0))
        (number_order (group_votes (λ a b. a == b) (λ c. c.block_number) nodes [])) no_votes in
    let hashes =
      choose (λ _. not (numbers.votes == 0))
        (hash_order (group_votes (λ a b. str_eq a b) (λ c. c.block_hash) numbers.winner []))
        no_votes in
    record {
      consensus_block_num = numbers.winner;
      wrong_block_num = numbers.others;
      consensus_block_hash = hashes.winner;
      wrong_block_hash = hashes.others;
    }
