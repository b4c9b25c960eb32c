-- ===== src/Health/Checks/Recovered.antt =====
-- Which clients convertResultToArtifact of pkg/health/ethereum/network_checker.go takes to have
-- recovered, and when.
use attacknet.Base.{
  ◌≡◌, refl, sym, ap, ◌∙◌, Bool, true, false, not, ◌&&◌, ◌||◌, none, some, [], ◌∷◌, Bool-cases, inl,
  inr, if◌then◌else◌, arith, String,
}
use attacknet.Base.Int.{ℤ}
use attacknet.Base.Dict.{Dict, lookup, has_key, lookup-insert}
use attacknet.Base.Text.{str_eq, eq_iff}
use attacknet.Chaos.Session.{PodUnderTest}
use attacknet.Health.Checks.{
  BlockConsensusTestResult, BlockConsensusArtifact, recovered_clients, merge_recovered,
  recovered_since, convert_result_to_artifact,
}

recovered_clients_lem :
    {V : Type 0} (client : String) (seconds : ℤ) (failing failed : Dict V) (recovered : Dict ℤ)
    → lookup client (recovered_clients seconds failing failed recovered) ≡ (
        if has_key client failed && not (has_key client failing)
        then some seconds
        else lookup client recovered)
unfolding recovered_clients has_key lookup
recovered_clients_lem client seconds failing [] recovered = refl
recovered_clients_lem client seconds failing ((name, v) ∷ rest) recovered =
    let more = recovered_clients seconds failing rest recovered in
    let ih = recovered_clients_lem client seconds failing rest recovered in
    elim (Bool-cases (str_eq name client)) [
      | inl e ↦
          let same = (eq_iff name client).0 e in
          elim (Bool-cases (has_key name failing)) [
            | inl f ↦
                let g : has_key client failing ≡ true =
                  ap (λ n. has_key n failing) (sym same) ∙ f in
                rw (recovered_clients, f) (ih ∙ rw (has_key, lookup, e, g) (ground arith))
            | inr f ↦
                let g : has_key client failing ≡ false =
                  ap (λ n. has_key n failing) (sym same) ∙ f in
                rw (recovered_clients, f)
                  (lookup-insert name client seconds more ∙ rw (has_key, lookup, e, g) refl)
          ]
      | inr e ↦ elim (Bool-cases (has_key name failing)) [
        | inl f ↦ rw (recovered_clients, f) (ih ∙ rw (lookup, e) refl)
        | inr f ↦
            rw (recovered_clients, f) (lookup-insert name client seconds more ∙ rw (lookup, e) ih)
      ]
    ]

merge_recovered_lem :
    (client : String) (before recovered : Dict ℤ)
    → lookup client (merge_recovered before recovered)
      ≡ (if has_key client before then lookup client before else lookup client recovered)
unfolding merge_recovered has_key lookup
merge_recovered_lem client [] recovered = refl
merge_recovered_lem client ((name, s) ∷ rest) recovered =
    lookup-insert name client s (merge_recovered rest recovered)
    ∙ elim (Bool-cases (str_eq name client)) [
      | inl e ↦ rw (has_key, lookup, e) refl
      | inr e ↦ rw (has_key, lookup, e) (merge_recovered_lem client rest recovered)
    ]

either_test :
    {A : Type 0} (b c : Bool) (x y : A)
    → (if b then x else (if c then x else y)) ≡ (if b || c then x else y)
either_test true c x y = refl
either_test false c x y = refl

-- Did the client fail the last checks, and does it pass these, by block or by hash?
unfoldable pub has_recovered : String → BlockConsensusTestResult → BlockConsensusTestResult → Bool
has_recovered client before now =
    (has_key client before.failing_clients_reported_block
      && not (has_key client now.failing_clients_reported_block))
    || (has_key client before.failing_clients_reported_hash
        && not (has_key client now.failing_clients_reported_hash))

-- The artifact made after an earlier one keeps, for each client that had a recovery time, that
-- time; it gives the present time to each other client that failed the earlier checks by block or
-- by hash and does not fail in the same way any more; and no other client has a recovery time.
pub convert_result_to_artifact-recovered :
    (under_test : Dict PodUnderTest) (seconds : ℤ) (prev : BlockConsensusArtifact)
    (result : BlockConsensusTestResult) (client : String)
    → lookup client
        (convert_result_to_artifact under_test seconds
          (some prev)
          result).node_recovery_time_seconds
      ≡ (if has_key client prev.node_recovery_time_seconds
          then lookup client prev.node_recovery_time_seconds
          else (if has_recovered client prev.test_result result then some seconds else none))
unfolding convert_result_to_artifact recovered_since has_recovered lookup
convert_result_to_artifact-recovered under_test seconds prev result client =
    let by_hash =
      recovered_clients seconds result.failing_clients_reported_hash
        prev.test_result.failing_clients_reported_hash [] in
    let by_either =
      recovered_clients seconds result.failing_clients_reported_block
        prev.test_result.failing_clients_reported_block by_hash in
    let e1 =
      recovered_clients_lem client seconds result.failing_clients_reported_hash
        prev.test_result.failing_clients_reported_hash [] in
    let e2 =
      recovered_clients_lem client seconds result.failing_clients_reported_block
        prev.test_result.failing_clients_reported_block by_hash in
    let by_block =
      has_key client prev.test_result.failing_clients_reported_block
      && not (has_key client result.failing_clients_reported_block) in
    let by_hash_test =
      has_key client prev.test_result.failing_clients_reported_hash
      && not (has_key client result.failing_clients_reported_hash) in
    merge_recovered_lem client prev.node_recovery_time_seconds by_either
    ∙ ap
        (λ found.
          if has_key client prev.node_recovery_time_seconds
          then lookup client prev.node_recovery_time_seconds
          else found)
        (e2 ∙ rw (e1) (either_test by_block by_hash_test (some seconds) none))
