-- ===== src/Health/Consensus.antt =====
-- getExecBlockConsensus of pkg/health/ethereum/execution_rpc.go and getBeaconClientConsensus of
-- beacon_rpc.go: the nodes are asked again while they disagree on the block's number. What the clients
-- say comes as one ballot for each attempt; a loop that needs more ends in `out_of_fuel`. Sleeping is
-- left out.
pub mod Reported
pub mod Settled
pub mod Agreed
use attacknet.Base.{
  ℕ, zero, suc, Bool, true, false, List, [], ◌∷◌, get_elem?, is_nil, if◌then◌else◌, String, Outcome,
  ok, crash, or_crash, index_out_of_range, out_of_fuel, ◌>>=◌,
}
use attacknet.Base.Dict.{Dict, insert}
use attacknet.Health.Votes.{ClientForkChoice, Groups, ForkConsensus, determine_fork_consensus}
use attacknet.Health.Checks.{BlockConsensusTestResult}
use attacknet.Health.Clients.{
  ExecAnswer, BeaconAnswer, exec_network_consensus, beacon_network_consensus,
}

-- blockNumWrong, from the last node to the first.
unfoldable pub reported_blocks : List ClientForkChoice → Dict ℕ
unfolding insert
reported_blocks [] = []
reported_blocks (node ∷ rest) = insert node.pod_name node.block_number (reported_blocks rest)

unfoldable pub reported_hashes : List ClientForkChoice → Dict String
unfolding insert
reported_hashes [] = []
reported_hashes (node ∷ rest) = insert node.pod_name node.block_hash (reported_hashes rest)

-- The result of a division of the votes, of whose winners the first is read.
unfoldable pub test_result : ForkConsensus → Outcome BlockConsensusTestResult
unfolding reported_blocks reported_hashes
test_result fork = do
  block ← or_crash (get_elem? fork.consensus_block_num 0) index_out_of_range
  hash ← or_crash (get_elem? fork.consensus_block_hash 0) index_out_of_range
  ok (record {
    consensus_block = block.block_number;
    consensus_hash = hash.block_hash;
    failing_clients_reported_block = reported_blocks fork.wrong_block_num;
    failing_clients_reported_hash = reported_hashes fork.wrong_block_hash;
  })

-- The clients' votes in one attempt, and the orders in which Go walks the maps of votes.
pub record Ballot : Type 0 where
  pub votes : Outcome (List ClientForkChoice)
  pub number_order : Groups ℕ → Groups ℕ
  pub hash_order : Groups String → Groups String

abbrev pub fork_of : Ballot → List ClientForkChoice → ForkConsensus
fork_of ballot votes = determine_fork_consensus ballot.number_order ballot.hash_order votes

-- With attempts left, the nodes are asked `again` if a node votes for another block number.
unfoldable pub settle :
    ForkConsensus → Outcome BlockConsensusTestResult → Outcome BlockConsensusTestResult
unfolding test_result
settle fork again = if is_nil fork.wrong_block_num then test_result fork else again

unfoldable pub block_consensus : ℕ → List Ballot → Outcome BlockConsensusTestResult
unfolding settle determine_fork_consensus
block_consensus max_attempts [] = crash out_of_fuel
block_consensus zero (ballot ∷ rest) = do votes ← ballot.votes; test_result (fork_of ballot votes)
block_consensus (suc attempts) (ballot ∷ rest) = do
  votes ← ballot.votes
  settle (fork_of ballot votes) (block_consensus attempts rest)

-- The answers of the clients in one attempt, with the orders of the maps.
pub record Asked (A : Type 0) : Type 0 where
  pub answers : List (String × A)
  pub number_order : Groups ℕ → Groups ℕ
  pub hash_order : Groups String → Groups String

abbrev pub exec_ballots : List (Asked ExecAnswer) → List Ballot
exec_ballots [] = []
exec_ballots (asked ∷ rest) =
    record {
      votes = exec_network_consensus asked.answers;
      number_order = asked.number_order;
      hash_order = asked.hash_order;
    }
    ∷ exec_ballots rest

abbrev pub beacon_ballots : String → List (Asked BeaconAnswer) → List Ballot
beacon_ballots block_type [] = []
beacon_ballots block_type (asked ∷ rest) =
    record {
      votes = beacon_network_consensus block_type asked.answers;
      number_order = asked.number_order;
      hash_order = asked.hash_order;
    }
    ∷ beacon_ballots block_type rest

unfoldable pub get_exec_block_consensus :
    ℕ → List (Asked ExecAnswer) → Outcome BlockConsensusTestResult
unfolding block_consensus exec_network_consensus
get_exec_block_consensus max_attempts asked = block_consensus max_attempts (exec_ballots asked)

unfoldable pub get_beacon_client_consensus :
    String → ℕ → List (Asked BeaconAnswer) → Outcome BlockConsensusTestResult
unfolding block_consensus beacon_network_consensus
get_beacon_client_consensus block_type max_attempts asked =
    block_consensus max_attempts (beacon_ballots block_type asked)
