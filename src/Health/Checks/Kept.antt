-- ===== src/Health/Checks/Kept.antt =====
-- The recovery times that RunChecks of pkg/health/checker.go hands from turn to turn.
use attacknet.Base.{
  ◌≡◌, refl, sym, ◌∙◌, some, List, [], ◌∷◌, ok, ℕ, String, ok-injective, err, crash, inl, inr,
  Bool-cases, ltb, subst,
}
use attacknet.Base.Int.{ℤ}
use attacknet.Base.Dict.{Dict, lookup, has_key}
use attacknet.Chaos.Session.{PodUnderTest}
use attacknet.Health.Checks.{
  BlockConsensusArtifact, BlockConsensusTestResult, HealthCheckResult, all_checks_passed,
  convert_result_to_artifact,
}
use attacknet.Health.Checks.Recovered.{convert_result_to_artifact-recovered}
use attacknet.Health.Checks.Rounds.{
  Reading, Round, Answer, fails, panics, answers, to_artifact, run_all_checks, check_rounds,
}
use attacknet.Health.Checks.Ending.{run_all_checks-cases}

-- The four consensus tests of a HealthCheckResult.
pub data Test : Type 0 where
  latest_el finalized_el latest_cl finalized_cl : Test

unfoldable pub artifact_of : Test → HealthCheckResult → BlockConsensusArtifact
artifact_of latest_el r = r.latest_el_block_result
artifact_of finalized_el r = r.finalized_el_block_result
artifact_of latest_cl r = r.latest_cl_block_result
artifact_of finalized_cl r = r.finalized_cl_block_result

-- Each client with a recovery time in the first artifact has the same one in the second.
KeepsTimes : BlockConsensusArtifact → BlockConsensusArtifact → Type 0
KeepsTimes before after =
    (client : String) (seconds : ℤ)
    → lookup client before.node_recovery_time_seconds ≡ some seconds
    → lookup client after.node_recovery_time_seconds ≡ some seconds

convert_result_to_artifact-KeepsTimes :
    (under_test : Dict PodUnderTest) (seconds : ℤ) (prev : BlockConsensusArtifact)
    (result : BlockConsensusTestResult)
    → KeepsTimes prev (convert_result_to_artifact under_test seconds (some prev) result)
unfolding KeepsTimes has_key
convert_result_to_artifact-KeepsTimes under_test seconds prev result client earlier e =
    convert_result_to_artifact-recovered under_test seconds prev result client
    ∙ rw (has_key, e) refl

-- The result of a turn in which every test gives an answer.
abbrev pub next_result :
    Dict PodUnderTest → HealthCheckResult → (a b c d : Reading) → HealthCheckResult
next_result under_test prev a b c d = record {
  latest_el_block_result = to_artifact under_test (λ r. r.latest_el_block_result) (some prev) a;
  finalized_el_block_result =
      to_artifact under_test (λ r. r.finalized_el_block_result) (some prev) b;
  latest_cl_block_result = to_artifact under_test (λ r. r.latest_cl_block_result) (some prev) c;
  finalized_cl_block_result =
      to_artifact under_test (λ r. r.finalized_cl_block_result) (some prev) d;
}

next_result-KeepsTimes :
    (test : Test) (under_test : Dict PodUnderTest) (prev : HealthCheckResult) (a b c d : Reading)
    → KeepsTimes (artifact_of test prev) (artifact_of test (next_result under_test prev a b c d))
unfolding artifact_of to_artifact
next_result-KeepsTimes latest_el under_test prev a b c d =
    convert_result_to_artifact-KeepsTimes under_test a.seconds prev.latest_el_block_result a.result
next_result-KeepsTimes finalized_el under_test prev a b c d =
    convert_result_to_artifact-KeepsTimes under_test b.seconds prev.finalized_el_block_result
      b.result
next_result-KeepsTimes latest_cl under_test prev a b c d =
    convert_result_to_artifact-KeepsTimes under_test c.seconds prev.latest_cl_block_result c.result
next_result-KeepsTimes finalized_cl under_test prev a b c d =
    convert_result_to_artifact-KeepsTimes under_test d.seconds prev.finalized_cl_block_result
      d.result

run_all_checks-KeepsTimes :
    (test : Test) (under_test : Dict PodUnderTest) (prev r : HealthCheckResult) (answer : Answer)
    → run_all_checks under_test (some prev) answer ≡ ok r
    → KeepsTimes (artifact_of test prev) (artifact_of test r)
unfolding run_all_checks
run_all_checks-KeepsTimes test under_test prev r (fails e) h = cc
run_all_checks-KeepsTimes test under_test prev r (panics c) h = cc
run_all_checks-KeepsTimes test under_test prev r (answers a b c d) h =
    let made = next_result under_test prev a b c d in
    subst (λ s. KeepsTimes (artifact_of test prev) (artifact_of test s)) (ok-injective {a = made} h)
      (next_result-KeepsTimes test under_test prev a b c d)

check_rounds-KeepsTimes :
    (test : Test) (under_test : Dict PodUnderTest) (latest_allowable : ℕ)
    (prev r : HealthCheckResult) (rounds : List Round)
    → check_rounds under_test latest_allowable (some prev) rounds ≡ ok r
    → KeepsTimes (artifact_of test prev) (artifact_of test r)
unfolding check_rounds KeepsTimes
check_rounds-KeepsTimes test under_test latest_allowable prev r [] e = cc
check_rounds-KeepsTimes test under_test latest_allowable prev r (round ∷ rest) e =
    elim (run_all_checks-cases under_test (some prev) round.answer) [
      | inr (inl (failed, h)) ↦
          let found : check_rounds under_test latest_allowable (some prev) (round ∷ rest)
              ≡ err failed =
            rw (check_rounds, h) refl in
          cc
      | inr (inr (c, h)) ↦
          let found : check_rounds under_test latest_allowable (some prev) (round ∷ rest)
              ≡ crash c =
            rw (check_rounds, h) refl in
          cc
      | inl (next, h) ↦
          let kept = run_all_checks-KeepsTimes test under_test prev next round.answer h in
          elim (Bool-cases (all_checks_passed next)) [
            | inl p ↦
                let found : check_rounds under_test latest_allowable (some prev) (round ∷ rest)
                    ≡ ok next =
                  rw (check_rounds, h, p) refl in
                subst (λ s. KeepsTimes (artifact_of test prev) (artifact_of test s))
                  (ok-injective (sym found ∙ e)) kept
            | inr p ↦ elim (Bool-cases (ltb latest_allowable round.now)) [
              | inl l ↦
                  let found : check_rounds under_test latest_allowable (some prev) (round ∷ rest)
                      ≡ ok next =
                    rw (check_rounds, h, p, l) refl in
                  subst (λ s. KeepsTimes (artifact_of test prev) (artifact_of test s))
                    (ok-injective (sym found ∙ e)) kept
              | inr l ↦
                  let found : check_rounds under_test latest_allowable (some prev) (round ∷ rest)
                      ≡ check_rounds under_test latest_allowable (some next) rest =
                    rw (check_rounds, h, p, l) refl in
                  λ client seconds g.
                    check_rounds-KeepsTimes test under_test latest_allowable next r rest
                      (sym found ∙ e) client seconds (kept client seconds g)
            ]
          ]
    ]

-- When the loop starts from a result in which a client has a recovery time in one of the four
-- tests, and ends with a result, the client has the same time there: no turn drops or changes it.
pub recovery_time_kept :
    (test : Test) (under_test : Dict PodUnderTest) (latest_allowable : ℕ)
    (prev r : HealthCheckResult) (rounds : List Round) (client : String) (seconds : ℤ)
    → check_rounds under_test latest_allowable (some prev) rounds ≡ ok r
    → lookup client (artifact_of test prev).node_recovery_time_seconds ≡ some seconds
    → lookup client (artifact_of test r).node_recovery_time_seconds ≡ some seconds
unfolding KeepsTimes
recovery_time_kept test under_test latest_allowable prev r rounds client seconds e g =
    check_rounds-KeepsTimes test under_test latest_allowable prev r rounds e client seconds g
