-- ===== src/Runtime/Suite.antt =====
-- StartTestSuite of pkg/runtime.go. What the clock, the engine and the cluster say is an argument; the
-- pauses are left out.
pub mod Results
pub mod Finished
use attacknet.Base.{
  ℕ, Bool, true, false, Option, none, some, List, [], ◌∷◌, if◌then◌else◌, String, Outcome, ok,
  crash, require, and_then, out_of_fuel, ◌>>=◌, ◌>>◌,
}
use attacknet.Golang.Disk.{Disk, Os}
use attacknet.Types.{SuiteTest, ConfigParsed}
use attacknet.Chaos.Client.{ChaosApi}
use attacknet.Executor.Collect.{TestExecutor, get_pods_under_test}
use attacknet.Executor.Run.{StepYaml, StepAnswer, create_test_executor, run_test_plan}
use attacknet.Health.Orchestrator.{CheckTurn, build_health_checker, orchestrate}
use attacknet.Kurtosis.{destroy}
use attacknet.Runtime.Devnet.{EngineAnswer, setup_enclave}
use attacknet.Runtime.Artifacts.{TestArtifact, build_test_artifact, serialize_test_artifacts}

-- What is said in the course of one test.
pub record TestAnswer : Type 0 where
  pub steps : List StepAnswer
  pub checks_start : ℕ
  pub turns : List CheckTurn

pub record SuiteAnswer : Type 0 where
  pub engine : EngineAnswer
  pub has_kube_client : Bool
  pub has_chaos_client : Bool
  pub tests : List TestAnswer
  pub millis : ℕ
  pub is_destroyed : Bool

module _ (api : ChaosApi) (yaml : StepYaml) where
  -- The checks of a test after its plan, if they are enabled, and their artifact.
  unfoldable pub check_test : SuiteTest → TestAnswer → TestExecutor → Outcome (Option TestArtifact)
  unfolding get_pods_under_test build_health_checker orchestrate build_test_artifact
  check_test test answer executor =
      if test.health_config.enable_checks
      then (do
        pods ← get_pods_under_test executor
        results ←
            orchestrate (build_health_checker pods test.health_config) answer.checks_start
              answer.turns
        ok (some (build_test_artifact results pods test)))
      else ok none

  unfoldable pub run_test : SuiteTest → TestAnswer → Outcome (Option TestArtifact)
  unfolding create_test_executor run_test_plan check_test
  run_test test answer =
      let (outcome, ran) =
        run_test_plan api yaml answer.steps
          (record { executor = create_test_executor test; pauses = [] }) in
      outcome >>= (λ _. check_test test answer ran.executor)

  -- What becomes of the artifact of a test: a failed one is the last.
  unfoldable pub file_artifact :
      Option TestArtifact → Outcome (List TestArtifact) → Outcome (List TestArtifact)
  file_artifact none rest = rest
  file_artifact (some artifact) rest =
      if artifact.test_passed
      then (do artifacts ← rest; ok (artifact ∷ artifacts))
      else ok (artifact ∷ [])

  -- The loop over the tests, with one answer for each.
  unfoldable pub run_tests : List SuiteTest → List TestAnswer → Outcome (List TestArtifact)
  unfolding run_test file_artifact
  run_tests [] answers = ok []
  run_tests (test ∷ tests) [] = crash out_of_fuel
  run_tests (test ∷ tests) (answer ∷ answers) =
      let rest = run_tests tests answers in
      do artifact ← run_test test answer; file_artifact artifact rest

  -- The result is the name of the enclave that is destroyed in the end, if one is.
  unfoldable pub start_test_suite :
      Os
      → (List TestArtifact → Option String)
      → ConfigParsed
      → SuiteAnswer
      → Disk
      → Outcome (Option String) × Disk
  unfolding setup_enclave run_tests serialize_test_artifacts destroy
  start_test_suite os marshal cfg answer disk =
      and_then (setup_enclave answer.engine cfg, disk)
        (λ enclave d.
          and_then (require answer.has_kube_client "CreateKubeClient", d)
            (λ _ d.
              and_then (require answer.has_chaos_client "CreateClient", d)
                (λ _ d.
                  and_then (run_tests cfg.tests answer.tests, d)
                    (λ artifacts d.
                      and_then (serialize_test_artifacts os marshal answer.millis artifacts d)
                        (λ _ d'. (destroy answer.is_destroyed enclave, d'))))))
