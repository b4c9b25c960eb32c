-- ===== src/Health/Consensus/Settled.antt =====
-- How the consensus tests of pkg/health/ethereum/execution_rpc.go and beacon_rpc.go end: when they panic,
-- and which attempt they report.
use attacknet.Base.{
  ℕ, zero, suc, ◌+◌, ◌≤◌, ◌<◌, ◌≡◌, ◌≢◌, ◌↔◌, ◌⊎◌, inl, inr, refl, sym, ap, ◌∙◌, Bool, true, false,
  none, some, List, [], ◌∷◌, String, length, take, get_elem?, is_nil, All, Bool-cases, arith, ◌==◌,
  ok, crash, index_out_of_range,
}
use attacknet.Base.Text.{str_eq, eq_iff}
use mathlib.Core.List.{Permᴰ}
use attacknet.Health.Votes.{ClientForkChoice, Groups, ForkConsensus, determine_fork_consensus}
use attacknet.Health.Votes.Groups.{number_of}
use attacknet.Health.Votes.Plurality.{IsPlurality, nat_lawful, fork_consensus-IsPlurality}
use attacknet.Health.Checks.{BlockConsensusTestResult}
use attacknet.Health.Consensus.{
  reported_blocks, reported_hashes, test_result, Ballot, fork_of, settle, block_consensus,
}

first_winner :
    {K : Type 0} (eq : K → K → Bool) (key_of : ClientForkChoice → K)
    (lawful : (a b : K) → (eq a b ≡ true) ↔ (a ≡ b)) (nodes winner others : List ClientForkChoice)
    → IsPlurality eq key_of nodes winner others
    → nodes ≢ []
    → (w : ClientForkChoice) × (get_elem? winner 0 ≡ some w)
first_winner eq key_of lawful [] winner others p n = absurd (n refl)
first_winner eq key_of lawful (v ∷ rest) [] others p n =
    let e = (lawful (key_of v) (key_of v)).1 refl in absurd (ground (arith, p.1 (key_of v), e))
first_winner eq key_of lawful (v ∷ rest) (w ∷ ws) others p n = (w, refl)

no_winner :
    (nodes winner others : List ClientForkChoice)
    → ((p : ClientForkChoice → Bool) → number_of p winner + number_of p others ≡ number_of p nodes)
    → nodes ≡ []
    → get_elem? winner 0 ≡ none
no_winner nodes [] others p e = refl
no_winner nodes (w ∷ ws) others p e =
    let q = p (λ v. true) in
    let z : number_of (λ v. true) nodes ≡ 0 = ap (number_of (λ v. true)) e in
    absurd (omega (arith, q, z))

winner_of_first :
    (winner : List ClientForkChoice) (w : ClientForkChoice)
    → get_elem? winner 0 ≡ some w
    → winner ≢ []
winner_of_first winner w e n = let g : none ≡ some w = ap (λ l. get_elem? l 0) (sym n) ∙ e in cc

module _ (number_order : Groups ℕ → Groups ℕ) (hash_order : Groups String → Groups String)
    (nodes : List ClientForkChoice)
    (number_perm : (groups : Groups ℕ) → Permᴰ groups (number_order groups))
    (hash_perm : (groups : Groups String) → Permᴰ groups (hash_order groups)) where
  abbrev fork : ForkConsensus
  fork = determine_fork_consensus number_order hash_order nodes

  test_result-ok : nodes ≢ [] → (result : BlockConsensusTestResult) × (test_result fork ≡ ok result)
  unfolding test_result
  test_result-ok n =
      let (by_number, by_hash) =
        fork_consensus-IsPlurality number_order hash_order nodes number_perm hash_perm in
      let (block, b) =
        first_winner (λ a c. a == c) (λ v. v.block_number) nat_lawful nodes fork.consensus_block_num
          fork.wrong_block_num by_number n in
      let (hash, h) =
        first_winner (λ a c. str_eq a c) (λ v. v.block_hash) eq_iff fork.consensus_block_num
          fork.consensus_block_hash fork.wrong_block_hash by_hash
          (winner_of_first fork.consensus_block_num block b) in
      (
        record {
          consensus_block = block.block_number;
          consensus_hash = hash.block_hash;
          failing_clients_reported_block = reported_blocks fork.wrong_block_num;
          failing_clients_reported_hash = reported_hashes fork.wrong_block_hash;
        },
        rw (b, h) refl,
      )

  test_result-crash : nodes ≡ [] → test_result fork ≡ crash index_out_of_range
  unfolding test_result
  test_result-crash e =
      let (by_number, _) =
        fork_consensus-IsPlurality number_order hash_order nodes number_perm hash_perm in
      rw (no_winner nodes fork.consensus_block_num fork.wrong_block_num (by_number.0) e) refl

-- In whatever order the maps are walked, the test of a division of votes panics exactly if no client
-- voted, as when every client is expected to die.
pub test_result_panics_iff :
    (number_order : Groups ℕ → Groups ℕ) (hash_order : Groups String → Groups String)
    (nodes : List ClientForkChoice)
    → ((groups : Groups ℕ) → Permᴰ groups (number_order groups))
    → ((groups : Groups String) → Permᴰ groups (hash_order groups))
    → (test_result (determine_fork_consensus number_order hash_order nodes)
        ≡ crash index_out_of_range)
      ↔ (nodes ≡ [])
test_result_panics_iff number_order hash_order nodes number_perm hash_perm =
    (no_votes nodes, test_result-crash number_order hash_order nodes number_perm hash_perm)
  where
    no_votes :
        (vs : List ClientForkChoice)
        → test_result (determine_fork_consensus number_order hash_order vs)
          ≡ crash index_out_of_range
        → vs ≡ []
    no_votes [] e = refl
    no_votes (v ∷ rest) e =
        let (result, r) =
          test_result-ok number_order hash_order (v ∷ rest) number_perm hash_perm (λ n. cc) in
        let bad : ok result ≡ crash index_out_of_range = sym r ∙ e in cc

-- Some clients answer, without an error, and each map is walked in some order.
abbrev pub IsCast : Ballot → Type 0
IsCast ballot =
    ((votes : List ClientForkChoice) × (ballot.votes ≡ ok votes) × (votes ≢ []))
    × ((groups : Groups ℕ) → Permᴰ groups (ballot.number_order groups))
    × ((groups : Groups String) → Permᴰ groups (ballot.hash_order groups))

-- All votes are for one block number, or not.
abbrev pub Agrees : Ballot → Type 0
Agrees ballot =
    (votes : List ClientForkChoice) × (ballot.votes ≡ ok votes)
    × ((fork_of ballot votes).wrong_block_num ≡ [])

abbrev pub Disagrees : Ballot → Type 0
Disagrees ballot =
    (votes : List ClientForkChoice) × (ballot.votes ≡ ok votes)
    × ((fork_of ballot votes).wrong_block_num ≢ [])

-- The result is that of the ballot `i`: the first one whose voters agree on the number, or the last
-- one allowed.
abbrev pub IsSettled : ℕ → List Ballot → BlockConsensusTestResult → Type 0
IsSettled max_attempts ballots result =
    (i : ℕ) × (ballot : Ballot) × (votes : List ClientForkChoice) × (get_elem? ballots i
      ≡ some ballot)
    × (ballot.votes ≡ ok votes)
    × (test_result (fork_of ballot votes) ≡ ok result)
    × (i ≤ max_attempts)
    × ((i ≡ max_attempts) ⊎ Agrees ballot)
    × All Disagrees (take i ballots)

is_nil_eq : {A : Type 0} (xs : List A) → is_nil xs ≡ true → xs ≡ []
is_nil_eq [] e = refl
is_nil_eq (x ∷ xs) e = cc

is_nil_ne : {A : Type 0} (xs : List A) → is_nil xs ≡ false → xs ≢ []
is_nil_ne xs e n = let g : true ≡ false = ap is_nil (sym n) ∙ e in cc

-- Whenever enough ballots are cast, with a vote in each, the test ends without a panic, after at most
-- the allowed number of further attempts: it reports the first ballot in which all voters agree on the
-- block number, or the last one if they never do.
pub block_consensus-IsSettled :
    (max_attempts : ℕ) (ballots : List Ballot)
    → max_attempts < length ballots
    → All IsCast ballots
    → (result : BlockConsensusTestResult) × (block_consensus max_attempts ballots ≡ ok result)
      × IsSettled max_attempts ballots result
unfolding block_consensus settle
block_consensus-IsSettled n [] lt cast = absurd (omega arith)
block_consensus-IsSettled zero (ballot ∷ rest) lt (((votes, v, n), number_perm, hash_perm), cast) =
    let (result, r) =
      test_result-ok ballot.number_order ballot.hash_order votes number_perm hash_perm n in
    (result, rw v r, (0, ballot, votes, refl, v, r, omega arith, inl refl, tt))
block_consensus-IsSettled (suc k) (ballot ∷ rest) lt
      (((votes, v, n), number_perm, hash_perm), cast) =
    let fork' = fork_of ballot votes in
    elim (Bool-cases (is_nil fork'.wrong_block_num)) [
      | inl a ↦
          let (result, r) =
            test_result-ok ballot.number_order ballot.hash_order votes number_perm hash_perm n in
          (
            result,
            rw (v, a) r,
            (0, ballot, votes, refl, v, r, omega arith, inr (votes, v, is_nil_eq _ a), tt),
          )
      | inr d ↦
          let (result, r, (i, b, vs, at, cast', made, le, why, before)) =
            block_consensus-IsSettled k rest (omega arith) cast in
          (
            result,
            rw (v, d) r,
            (
              suc i,
              b,
              vs,
              at,
              cast',
              made,
              omega arith,
              elim why [ inl e ↦ inl (ap suc e) | inr agrees ↦ inr agrees ],
              ((votes, v, is_nil_ne _ d), before),
            ),
          )
    ]
