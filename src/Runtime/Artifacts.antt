-- ===== src/Runtime/Artifacts.antt =====
-- pkg/artifacts/artifacts.go: the results of a suite's tests and the file that they are written to.
use attacknet.Base.{ℕ, Bool, Option, List, [], ◌∷◌, map, String, Outcome, or_fail, and_then}
use attacknet.Base.Text.{◌++◌}
use attacknet.Golang.Decimal.{itoa}
use attacknet.Golang.Path.{join}
use attacknet.Golang.Disk.{Disk, Os, found, not_exist, unknown, stat, mkdir, write_out}
use attacknet.Types.{SuiteTest}
use attacknet.Chaos.Session.{PodUnderTest}
use attacknet.Health.Checks.{HealthCheckResult, all_checks_passed}

pub record TestArtifact : Type 0 where
  pub test_description : String
  pub containers_targeted : List String
  pub test_passed : Bool
  pub health_result : HealthCheckResult

unfoldable pub build_test_artifact :
    HealthCheckResult → List PodUnderTest → SuiteTest → TestArtifact
unfolding all_checks_passed
build_test_artifact health_results pods_under_test test = record {
  test_description = test.test_name;
  containers_targeted = map (λ (p : PodUnderTest). p.name) pods_under_test;
  test_passed = all_checks_passed health_results;
  health_result = health_results;
}

-- The directory and the file of the results, below the working directory at a time in milliseconds.
abbrev pub artifact_directory : String → String
artifact_directory cwd = join (cwd ∷ "artifacts" ∷ [])

abbrev pub artifact_path : String → ℕ → String
artifact_path cwd millis =
    join (artifact_directory cwd ∷ ("results-" ++ (itoa millis ++ ".yaml")) ∷ [])

-- `marshal` is yaml.Marshal; `none` is an error.
module _ (os : Os) (marshal : List TestArtifact → Option String) where
  -- The directory is made if it is not there; an error of making it is only logged.
  unfoldable pub make_directory : String → Disk → Disk
  unfolding stat mkdir
  make_directory path disk = elim (stat os path disk) [
    | found ↦ disk
    | not_exist ↦ (mkdir os "mkdir" path disk).1
    | unknown ↦ disk
  ]

  -- os.WriteFile opens, writes and closes, all with one error.
  unfoldable pub serialize_test_artifacts : ℕ → List TestArtifact → Disk → Outcome (Unit {0}) × Disk
  unfolding make_directory write_out join itoa
  serialize_test_artifacts millis artifacts disk =
      and_then (or_fail os.getwd "getwd", disk)
        (λ cwd d.
          let d' = make_directory (artifact_directory cwd) d in
          and_then (or_fail (marshal artifacts) "could not marshal test artifacts", d')
            (λ bs d''.
              write_out os "could not write artifacts" "could not write artifacts"
                "could not write artifacts" (artifact_path cwd millis) bs d''))
