-- ===== src/Health/Checks/Rounds.antt =====
-- RunChecks of pkg/health/checker.go and RunAllChecks of pkg/health/ethereum/network_checker.go. What
-- the clients and the clock say in a turn of the loop comes as a `Round`; a loop that needs more
-- rounds than the list has ends in `out_of_fuel`. Sleeping is left out.
use attacknet.Base.{
  true, false, Option, none, some, List, [], ◌∷◌, Outcome, ok, err, crash, Crash, Error,
  out_of_fuel, ℕ, ltb, ◌+◌,
}
use attacknet.Base.Int.{ℤ}
use attacknet.Base.Dict.{Dict}
use attacknet.Chaos.Session.{PodUnderTest}
use attacknet.Health.Checks.{
  BlockConsensusTestResult, BlockConsensusArtifact, HealthCheckResult, all_checks_passed,
  convert_result_to_artifact,
}

-- A consensus test's result, with the whole seconds since the start when it is converted.
pub record Reading : Type 0 where
  pub result : BlockConsensusTestResult
  pub seconds : ℤ

-- The clients' answers, or the error or the panic of the first dial or test that ends in one.
pub data Answer : Type 0 where
  fails : Error → Answer
  panics : Crash → Answer
  answers : (latest_el finalized_el latest_cl finalized_cl : Reading) → Answer

-- The answers in one turn, and the time that is read at its end.
pub record Round : Type 0 where
  pub answer : Answer
  pub now : ℕ

unfoldable pub to_artifact :
    Dict PodUnderTest
    → (HealthCheckResult → BlockConsensusArtifact)
    → Option HealthCheckResult
    → Reading
    → BlockConsensusArtifact
unfolding convert_result_to_artifact
to_artifact under_test field none reading =
    convert_result_to_artifact under_test reading.seconds none reading.result
to_artifact under_test field (some prev) reading =
    convert_result_to_artifact under_test reading.seconds (some (field prev)) reading.result

-- Before the first turn the last result is an empty struct, whose pointers are nil: `none`.
unfoldable pub run_all_checks :
    Dict PodUnderTest → Option HealthCheckResult → Answer → Outcome HealthCheckResult
unfolding to_artifact
run_all_checks under_test prev (fails e) = err e
run_all_checks under_test prev (panics c) = crash c
run_all_checks under_test prev (answers latest_el finalized_el latest_cl finalized_cl) =
    ok (record {
      latest_el_block_result =
          to_artifact under_test (λ r. r.latest_el_block_result) prev latest_el;
      finalized_el_block_result =
          to_artifact under_test (λ r. r.finalized_el_block_result) prev finalized_el;
      latest_cl_block_result =
          to_artifact under_test (λ r. r.latest_cl_block_result) prev latest_cl;
      finalized_cl_block_result =
          to_artifact under_test (λ r. r.finalized_cl_block_result) prev finalized_cl;
    })

-- The loop of RunChecks, from the last result and the latest allowable time.
unfoldable pub check_rounds :
    Dict PodUnderTest → ℕ → Option HealthCheckResult → List Round → Outcome HealthCheckResult
unfolding run_all_checks all_checks_passed
check_rounds under_test latest_allowable last [] = crash out_of_fuel
check_rounds under_test latest_allowable last (round ∷ rest) =
    elim (run_all_checks under_test last round.answer) [
      | err e ↦ err e
      | crash c ↦ crash c
      | ok results ↦ elim (all_checks_passed results) [
        | true ↦ ok results
        | false ↦ elim (ltb latest_allowable round.now) [
          | true ↦ ok results
          | false ↦ check_rounds under_test latest_allowable (some results) rest
        ]
      ]
    ]

unfoldable pub run_checks :
    Dict PodUnderTest → (start grace_period : ℕ) → List Round → Outcome HealthCheckResult
unfolding check_rounds
run_checks under_test start grace_period rounds =
    check_rounds under_test (start + grace_period) none rounds
