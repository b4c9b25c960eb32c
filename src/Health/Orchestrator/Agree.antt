-- ===== src/Health/Orchestrator/Agree.antt =====
-- When the clients agree in a consensus test of pkg/health/ethereum.
use attacknet.Base.{
  ℕ, zero, suc, ◌≡◌, refl, sym, ap, ◌∙◌, subst, Bool, true, inl, inr, ◌&&◌, List, [], ◌∷◌, map, Has,
  All, is_nil, String, Outcome, ok, ok_of_bind, ok-injective, branch_of,
}
use mathlib.Core.List.{Permᴰ}
use attacknet.Cluster.Forwards.{PortForwardsSession}
use attacknet.Health.Votes.{ClientForkChoice, Groups}
use attacknet.Health.Clients.{
  ExecAnswer, BeaconAnswer, exec_latest_block, beacon_latest_block, exec_network_consensus,
  beacon_network_consensus,
}
use attacknet.Health.Consensus.{
  Ballot, exec_ballots, beacon_ballots, fork_of, settle, test_result, block_consensus,
  get_exec_block_consensus, get_beacon_client_consensus,
}
use attacknet.Health.Consensus.Agreed.{test_result_clean_iff}
use attacknet.Health.Checks.{BlockConsensusTestResult}
use attacknet.Health.Orchestrator.{Replies, answers_from, asked}

-- A reported result is that of the votes of some attempt.
reported_ballot :
    {X : Type 0} (ballot_of : X → Ballot) (attempts : ℕ) (xs : List X)
    (result : BlockConsensusTestResult)
    → block_consensus attempts (map ballot_of xs) ≡ ok result
    → (x : X) × Has x xs
      × (votes : List ClientForkChoice) × ((ballot_of x).votes ≡ ok votes)
      × (test_result (fork_of (ballot_of x) votes) ≡ ok result)
unfolding block_consensus settle
reported_ballot ballot_of attempts [] result e = cc
reported_ballot ballot_of zero (x ∷ xs) result e =
    let (votes, v, t) = ok_of_bind ((ballot_of x).votes) _ e in (x, (0, refl), votes, v, t)
reported_ballot ballot_of (suc attempts) (x ∷ xs) result e =
    let (votes, v, s) = ok_of_bind ((ballot_of x).votes) _ e in
    elim (branch_of (is_nil (fork_of (ballot_of x) votes).wrong_block_num) _ _ s) [
      | inl (_, t) ↦ (x, (0, refl), votes, v, t)
      | inr (_, again) ↦
          let (y, (i, at), votes', v', t) = reported_ballot ballot_of attempts xs result again in
          (y, (suc i, at), votes', v', t)
    ]

-- The orders of the maps only rearrange their entries.
abbrev pub IsFair : {A : Type 0} → Replies A → Type 0
IsFair r =
    ((groups : Groups ℕ) → Permᴰ groups (r.number_order groups))
    × ((groups : Groups String) → Permᴰ groups (r.hash_order groups))

abbrev IsFor : ℕ → String → ClientForkChoice → Type 0
IsFor block hash v = (v.block_number ≡ block) × (v.block_hash ≡ hash)

-- The client's own reply in the attempt is a vote for the block number and hash.
abbrev pub VotesFor :
    {A : Type 0}
    → (String → A → Outcome ClientForkChoice)
    → Replies A
    → ℕ
    → String
    → PortForwardsSession
    → Type 0
VotesFor vote_of r block hash client =
    (v : ClientForkChoice) × (vote_of client.pod.name (r.reply client.pod.name) ≡ ok v)
    × (v.block_number ≡ block)
    × (v.block_hash ≡ hash)

-- In one of the attempts every client votes for the same block number and hash.
abbrev pub Agree :
    {A : Type 0}
    → (String → A → Outcome ClientForkChoice)
    → List PortForwardsSession
    → List (Replies A)
    → Type 0
Agree {A} vote_of clients attempts =
    (r : Replies A) × Has r attempts
    × (block : ℕ) × (hash : String) × All (VotesFor vote_of r block hash) clients

-- The loops over the clients give the votes of all clients.
exec-VotesFor :
    (r : Replies ExecAnswer) (block : ℕ) (hash : String) (clients : List PortForwardsSession)
    (votes : List ClientForkChoice)
    → exec_network_consensus (answers_from clients r) ≡ ok votes
    → All (IsFor block hash) votes
    → All (VotesFor exec_latest_block r block hash) clients
unfolding exec_network_consensus
exec-VotesFor r block hash [] votes e h = tt
exec-VotesFor r block hash (client ∷ clients) votes e h =
    let (v, c, e₁) = ok_of_bind (exec_latest_block client.pod.name (r.reply client.pod.name)) _ e in
    let (vs, d, e₂) = ok_of_bind (exec_network_consensus (answers_from clients r)) _ e₁ in
    let (first, rest) = subst (All (IsFor block hash)) (sym (ok-injective e₂)) h in
    ((v, c, first.0, first.1), exec-VotesFor r block hash clients vs d rest)

beacon-VotesFor :
    (block_type : String) (r : Replies BeaconAnswer) (block : ℕ) (hash : String)
    (clients : List PortForwardsSession) (votes : List ClientForkChoice)
    → beacon_network_consensus block_type (answers_from clients r) ≡ ok votes
    → All (IsFor block hash) votes
    → All (VotesFor (beacon_latest_block block_type) r block hash) clients
unfolding beacon_network_consensus
beacon-VotesFor block_type r block hash [] votes e h = tt
beacon-VotesFor block_type r block hash (client ∷ clients) votes e h =
    let (v, c, e₁) =
      ok_of_bind (beacon_latest_block block_type client.pod.name (r.reply client.pod.name)) _ e in
    let (vs, d, e₂) =
      ok_of_bind (beacon_network_consensus block_type (answers_from clients r)) _ e₁ in
    let (first, rest) = subst (All (IsFor block hash)) (sym (ok-injective e₂)) h in
    ((v, c, first.0, first.1), beacon-VotesFor block_type r block hash clients vs d rest)

All-Has : {X : Type 0} (P : X → Type 0) (x : X) (xs : List X) → All P xs → Has x xs → P x
All-Has P x [] h (i, at) = cc
All-Has P x (y ∷ ys) h (zero, at) = let same : y ≡ x = cc in subst P same h.0
All-Has P x (y ∷ ys) h (suc i, at) = All-Has P x ys h.1 (i, at)

abbrev pub is_clean : BlockConsensusTestResult → Bool
is_clean result =
    is_nil result.failing_clients_reported_block && is_nil result.failing_clients_reported_hash

abbrev ballot_from :
    {A : Type 0}
    → (List (String × A) → Outcome (List ClientForkChoice))
    → List PortForwardsSession
    → Replies A
    → Ballot
ballot_from ask clients r = record {
  votes = ask (answers_from clients r);
  number_order = r.number_order;
  hash_order = r.hash_order;
}

module _ {A : Type 0} (ask : List (String × A) → Outcome (List ClientForkChoice))
    (vote_of : String → A → Outcome ClientForkChoice) (clients : List PortForwardsSession)
    (votes_lem : (r : Replies A) (block : ℕ) (hash : String) (votes : List ClientForkChoice)
      → ask (answers_from clients r) ≡ ok votes
      → All (IsFor block hash) votes
      → All (VotesFor vote_of r block hash) clients) where
  clean-Agree :
      (attempts : ℕ) (xs : List (Replies A)) (result : BlockConsensusTestResult)
      → All IsFair xs
      → block_consensus attempts (map (ballot_from ask clients) xs) ≡ ok result
      → is_clean result ≡ true
      → Agree vote_of clients xs
  clean-Agree attempts xs result fair e clean =
      let (r, at, votes, v, t) = reported_ballot (ballot_from ask clients) attempts xs result e in
      let (numbers, hashes) = All-Has IsFair r xs fair at in
      (
        r,
        at,
        result.consensus_block,
        result.consensus_hash,
        votes_lem r result.consensus_block result.consensus_hash votes v (
            (test_result_clean_iff r.number_order r.hash_order votes result numbers hashes t).0
              clean),
      )

exec_ballots-map :
    (clients : List PortForwardsSession) (xs : List (Replies ExecAnswer))
    → exec_ballots (asked clients xs) ≡ map (ballot_from exec_network_consensus clients) xs
unfolding asked
exec_ballots-map clients [] = refl
exec_ballots-map clients (x ∷ xs) =
    ap (◌∷◌ (ballot_from exec_network_consensus clients x)) (exec_ballots-map clients xs)

beacon_ballots-map :
    (block_type : String) (clients : List PortForwardsSession) (xs : List (Replies BeaconAnswer))
    → beacon_ballots block_type (asked clients xs)
      ≡ map (ballot_from (beacon_network_consensus block_type) clients) xs
unfolding asked
beacon_ballots-map block_type clients [] = refl
beacon_ballots-map block_type clients (x ∷ xs) =
    ap (◌∷◌ (ballot_from (beacon_network_consensus block_type) clients x))
      (beacon_ballots-map block_type clients xs)

pub exec-Agree :
    (clients : List PortForwardsSession) (attempts : ℕ) (xs : List (Replies ExecAnswer))
    (result : BlockConsensusTestResult)
    → All IsFair xs
    → get_exec_block_consensus attempts (asked clients xs) ≡ ok result
    → is_clean result ≡ true
    → Agree exec_latest_block clients xs
unfolding get_exec_block_consensus
exec-Agree clients attempts xs result fair e clean =
    clean-Agree exec_network_consensus exec_latest_block clients
      (λ r block hash. exec-VotesFor r block hash clients) attempts xs result fair
      (ap (block_consensus attempts) (sym (exec_ballots-map clients xs)) ∙ e) clean

pub beacon-Agree :
    (block_type : String) (clients : List PortForwardsSession) (attempts : ℕ)
    (xs : List (Replies BeaconAnswer)) (result : BlockConsensusTestResult)
    → All IsFair xs
    → get_beacon_client_consensus block_type attempts (asked clients xs) ≡ ok result
    → is_clean result ≡ true
    → Agree (beacon_latest_block block_type) clients xs
unfolding get_beacon_client_consensus
beacon-Agree block_type clients attempts xs result fair e clean =
    clean-Agree (beacon_network_consensus block_type) (beacon_latest_block block_type) clients
      (λ r block hash. beacon-VotesFor block_type r block hash clients) attempts xs result fair
      (ap (block_consensus attempts) (sym (beacon_ballots-map block_type clients xs)) ∙ e) clean
