-- ===== src/Health/Consensus/Agreed.antt =====
-- When a consensus test of pkg/health/ethereum/execution_rpc.go and beacon_rpc.go reports no client, which
-- is what AllChecksPassed of pkg/health/checker.go asks of it.
use attacknet.Base.{
  ℕ, ◌≡◌, ◌↔◌, refl, sym, ap, ◌∙◌, Bool, true, false, not, ◌&&◌, List, [], ◌∷◌, is_nil, All, arith,
  ltb, ◌==◌, String, ok,
}
use attacknet.Base.Dict.{Dict, lookup, has_key}
use attacknet.Base.Text.{str_eq, eq_iff, eq_refl}
use mathlib.Core.List.{Permᴰ}
use attacknet.Health.Votes.{ClientForkChoice, Groups, determine_fork_consensus}
use attacknet.Health.Votes.Groups.{number_of}
use attacknet.Health.Checks.{BlockConsensusTestResult}
use attacknet.Health.Consensus.{test_result}
use attacknet.Health.Consensus.Reported.{is_named, test_result-reports}

module _ {V : Type 0} where
  no_key : (d : Dict V) → is_nil d ≡ true → (name : String) → has_key name d ≡ false
  unfolding has_key lookup
  no_key [] e name = refl
  no_key (entry ∷ d) e name = cc

  no_entry : (d : Dict V) → ((name : String) → has_key name d ≡ false) → is_nil d ≡ true
  unfolding has_key lookup
  no_entry [] h = refl
  no_entry ((name, value) ∷ d) h = let e = h name in ground (arith, e, eq_refl name)

none_counted :
    (p : String → ClientForkChoice → Bool) (nodes : List ClientForkChoice)
    → ((name : String) → number_of (p name) nodes ≡ 0)
    → All (λ v. p v.pod_name v ≡ false) nodes
none_counted p [] h = tt
none_counted p (v ∷ rest) h = (
  let c = h v.pod_name in ground (arith, c),
  none_counted p rest (λ name. let c = h name in ground (arith, c)),
)

counted_none :
    (p : ClientForkChoice → Bool) (nodes : List ClientForkChoice)
    → All (λ v. p v ≡ false) nodes
    → number_of p nodes ≡ 0
counted_none p [] h = refl
counted_none p (v ∷ rest) h = let c = counted_none p rest (h.1) in ground (arith, c, h.0)

-- The vote is for the block and the hash of the result.
abbrev pub AgreesWith : BlockConsensusTestResult → ClientForkChoice → Type 0
AgreesWith result v =
    (v.block_number ≡ result.consensus_block) × (v.block_hash ≡ result.consensus_hash)

abbrev other_block : BlockConsensusTestResult → String → ClientForkChoice → Bool
other_block result name v = is_named name v && not (v.block_number == result.consensus_block)

abbrev other_hash : BlockConsensusTestResult → String → ClientForkChoice → Bool
other_hash result name v =
    (is_named name v && not (str_eq v.block_hash result.consensus_hash))
    && v.block_number == result.consensus_block

zero_of : (n : ℕ) → ltb 0 n ≡ false → n ≡ 0
zero_of n e = ground (arith, e)

agrees_of :
    (result : BlockConsensusTestResult) (nodes : List ClientForkChoice)
    → All (λ v. other_block result v.pod_name v ≡ false) nodes
    → All (λ v. other_hash result v.pod_name v ≡ false) nodes
    → All (AgreesWith result) nodes
agrees_of result [] b h = tt
agrees_of result (v ∷ rest) b h =
    let named = eq_refl v.pod_name in
    let b₀ = b.0 in
    let h₀ = h.0 in
    let same : v.block_number ≡ result.consensus_block = ground (arith, named, b₀) in
    (
      (same, ground (arith, named, same, h₀, eq_iff v.block_hash result.consensus_hash)),
      agrees_of result rest b.1 h.1,
    )

disagrees_not :
    (result : BlockConsensusTestResult) (name : String) (nodes : List ClientForkChoice)
    → All (AgreesWith result) nodes
    → All (λ v. other_block result name v ≡ false) nodes
      × All (λ v. other_hash result name v ≡ false) nodes
disagrees_not result name [] a = (tt, tt)
disagrees_not result name (v ∷ rest) a =
    let (b, h) = disagrees_not result name rest a.1 in
    let same = a.0.0 in
    let hash = a.0.1 in
    (
      (ground (arith, same), b),
      (ground (arith, hash, eq_iff v.block_hash result.consensus_hash), h),
    )

-- In whatever order the maps of votes are walked: a consensus test reports no client at all exactly if
-- every client votes for the one block number and the one hash that it reports as consensus.
pub test_result_clean_iff :
    (number_order : Groups ℕ → Groups ℕ) (hash_order : Groups String → Groups String)
    (nodes : List ClientForkChoice) (result : BlockConsensusTestResult)
    → ((groups : Groups ℕ) → Permᴰ groups (number_order groups))
    → ((groups : Groups String) → Permᴰ groups (hash_order groups))
    → test_result (determine_fork_consensus number_order hash_order nodes) ≡ ok result
    → ((is_nil result.failing_clients_reported_block && is_nil result.failing_clients_reported_hash)
        ≡ true)
      ↔ All (AgreesWith result) nodes
test_result_clean_iff number_order hash_order nodes result number_perm hash_perm e =
    let reports = λ (name : String).
      test_result-reports number_order hash_order nodes result name number_perm hash_perm e in
    (
      (λ clean.
          let b : is_nil result.failing_clients_reported_block ≡ true = ground (arith, clean) in
          let h : is_nil result.failing_clients_reported_hash ≡ true = ground (arith, clean) in
          agrees_of result nodes
            (none_counted (other_block result) nodes (λ name.
              zero_of _
                (sym ((reports name).0) ∙ no_key result.failing_clients_reported_block b name)))
            (none_counted (other_hash result) nodes (λ name.
              zero_of _
                (sym ((reports name).1) ∙ no_key result.failing_clients_reported_hash h name)))),
      (λ agree.
          let b = no_entry result.failing_clients_reported_block (λ name.
            (reports name).0
            ∙ ap (ltb 0) (
                counted_none (other_block result name) nodes
                  ((disagrees_not result name nodes agree).0))) in
          let h = no_entry result.failing_clients_reported_hash (λ name.
            (reports name).1
            ∙ ap (ltb 0) (
                counted_none (other_hash result name) nodes
                  ((disagrees_not result name nodes agree).1))) in
          rw (b, h) refl),
    )
